-- ===== src/Bbq/Refine.antt =====
-- A buffer whose counters have not wrapped is a FIFO queue of at most 512 bytes.
use operating_system_osv.Base.{
  ℕ, zero, suc, ◌+◌, ◌-◌, ◌%◌, ◌^◌, ◌≤◌, ◌<◌, ◌≡◌, ◌≢◌, refl, ap, ap₂, List, [], ◌∷◌, ◌++◌, arith,
  leb, if◌then◌else◌, set, get_or, length, length-set, get_or-set_self, get_or-set_ne,
}
use operating_system_osv.Bbq.{Bbq, Outcome, done, waits, max_bbq_size, bbq_insert, bbq_remove}

-- Fewer than 2^31 bytes have been inserted, and at most 512 are held.
pub record IsValid (q : Bbq) : Type 0 where
  pub size : length q.items ≡ max_bbq_size
  pub ordered : q.front ≤ q.next_empty
  pub bounded : q.next_empty ≤ q.front + max_bbq_size
  pub unwrapped : q.next_empty < 2 ^ 31

-- The `n` bytes from counter `k` on.
abbrev pub window : List ℕ → ℕ → ℕ → List ℕ
window items k zero = []
window items k (suc n) = get_or items (k % max_bbq_size) 0 ∷ window items (k + 1) n

abbrev pub contents : Bbq → List ℕ
contents q = window q.items q.front (q.next_empty - q.front)

-- The specification: a list that a full insert leaves waiting, and an empty remove too.
unfoldable pub queue_insert : List ℕ → ℕ → Outcome (List ℕ)
queue_insert xs x = if leb max_bbq_size (length xs) then waits else done (xs ++ (x ∷ []))

unfoldable pub queue_remove : List ℕ → Outcome (ℕ × List ℕ)
queue_remove [] = waits
queue_remove (x ∷ xs) = done (x, xs)

pub length-window : (items : List ℕ) (k n : ℕ) → length (window items k n) ≡ n
length-window items k zero = refl
length-window items k (suc n) = ap suc (length-window items (k + 1) n)

-- A write at counter `e` appends to a window that ends there.
pub window-set :
    (items : List ℕ) (x k n e : ℕ)
    → length items ≡ max_bbq_size
    → k + n ≡ e
    → n < max_bbq_size
    → window (set items (e % max_bbq_size) x) k (suc n) ≡ window items k n ++ (x ∷ [])
window-set items x k zero e s p h =
    let at : k ≡ e = omega arith in
    rw at (ap (λ y. y ∷ []) (get_or-set_self items (e % 512) x 0 (omega arith)))
window-set items x k (suc n) e s p h =
    ap₂ ◌∷◌ (get_or-set_ne items x 0 (omega arith))
      (window-set items x (k + 1) n e s (omega arith) (omega arith))

window_of_ne_zero :
    (items : List ℕ) (k n : ℕ)
    → n ≢ 0
    → window items k n ≡ get_or items (k % max_bbq_size) 0 ∷ window items (k + 1) (n - 1)
window_of_ne_zero items k zero h = absurd (h refl)
window_of_ne_zero items k (suc n) h = ap (λ m. window items k (suc m)) (omega arith)

-- What an outcome leaves, in the abstract queue and with the invariant.
abbrev pub Inserts : Bbq → ℕ → Outcome Bbq → Outcome (List ℕ) → Type 0
Inserts q x (done q') (done xs) =
    (contents q' ≡ xs)
    × (q'.front ≡ q.front)
    × (q'.next_empty ≡ q.next_empty + 1)
    × (length q'.items ≡ max_bbq_size)
Inserts q x waits waits = Unit
Inserts q x _ _ = ⊥

-- `bbq_insert` on a valid buffer waits exactly when the queue of its contents is full, and else
-- appends the byte to that queue, moves only `next_empty`, by one, and keeps the size of `items`.
pub insert_refines :
    (q : Bbq) (x : ℕ) → IsValid q → Inserts q x (bbq_insert q x) (queue_insert (contents q) x)
unfolding bbq_insert queue_insert
insert_refines q x v = ground (
  arith,
  length-window q.items q.front (q.next_empty - q.front),
  window-set q.items x q.front (q.next_empty - q.front) q.next_empty,
  length-set q.items (q.next_empty % max_bbq_size) x,
)

abbrev pub Removes : Bbq → Outcome (ℕ × Bbq) → Outcome (ℕ × List ℕ) → Type 0
Removes q (done (y, q')) (done (x, xs)) =
    (y ≡ x)
    × (contents q' ≡ xs)
    × IsValid q'
    × (q'.front ≡ q.front + 1)
    × (q'.next_empty ≡ q.next_empty)
Removes q waits waits = Unit
Removes q _ _ = ⊥

-- `bbq_remove` on a valid buffer waits exactly when the queue of its contents is empty, and else
-- takes the oldest byte, leaves the rest, moves only `front`, by one, and keeps `IsValid`.
pub remove_refines : (q : Bbq) → IsValid q → Removes q (bbq_remove q) (queue_remove (contents q))
unfolding bbq_remove queue_remove
remove_refines q v = ground (arith, window_of_ne_zero q.items q.front (q.next_empty - q.front))
