-- ===== src/Pipe/Reading.antt =====
-- The two reading loops of pipe_read on a valid buffer.
use operating_system_osv.Base.{
  ℕ, zero, suc, ◌-◌, ◌≤◌, ◌<◌, ◌≡◌, refl, List, [], ◌∷◌, arith, length, take, drop, true, false, ap,
}
use operating_system_osv.Bbq.{Bbq, Outcome, done, waits, fault, bbq_remove, bbq_is_empty}
use operating_system_osv.Bbq.Refine.{
  IsValid, contents, queue_remove, Removes, remove_refines, length-window,
}
use operating_system_osv.Pipe.{
  Call, returned, blocked, failed, broken, map_call, read_all, read_some,
}

-- What a read of `n` bytes has done to a buffer holding `xs`.
abbrev pub Reads : ℕ → List ℕ → Call (List ℕ) → Type 0
Reads n xs (returned bs q) = (bs ≡ take n xs) × (contents q ≡ drop n xs) × IsValid q
Reads n xs _ = ⊥

abbrev pub Sleeps : List ℕ → Call (List ℕ) → Type 0
Sleeps xs (blocked bs q) = (bs ≡ xs) × (contents q ≡ []) × IsValid q
Sleeps xs _ = ⊥

-- One removal, with the function shut.
remove_cons :
    (q : Bbq) (x : ℕ) (xs : List ℕ)
    → IsValid q
    → contents q ≡ x ∷ xs
    → (q' : Bbq) × (bbq_remove q ≡ done (x, q')) × (contents q' ≡ xs) × IsValid q'
unfolding queue_remove
remove_cons q x xs v e = go (bbq_remove q) refl (remove_refines q v)
  where
    go :
        (o : Outcome (ℕ × Bbq))
        → bbq_remove q ≡ o
        → Removes q o (queue_remove (contents q))
        → (q' : Bbq) × (bbq_remove q ≡ done (x, q')) × (contents q' ≡ xs) × IsValid q'
    go (done (y, q')) p r = (q', ground arith, ground arith, ground arith)
    go waits p r = absurd (ground arith)
    go fault p r = absurd (ground arith)

remove_nil : (q : Bbq) → IsValid q → contents q ≡ [] → bbq_remove q ≡ waits
unfolding queue_remove
remove_nil q v e = go (bbq_remove q) refl (remove_refines q v)
  where
    go :
        (o : Outcome (ℕ × Bbq))
        → bbq_remove q ≡ o
        → Removes q o (queue_remove (contents q))
        → bbq_remove q ≡ waits
    go (done (y, q')) p r = absurd (ground arith)
    go waits p r = p
    go fault p r = absurd (ground arith)

Reads-cons :
    (n x : ℕ) (xs : List ℕ) (c : Call (List ℕ))
    → Reads n xs c
    → Reads (suc n) (x ∷ xs) (map_call (λ ys. x ∷ ys) c)
Reads-cons n x xs (returned bs q) r = (ap (λ ys. x ∷ ys) r.0, r.1, r.2)
Reads-cons n x xs (blocked bs q) r = r
Reads-cons n x xs (failed e) r = r
Reads-cons n x xs broken r = r

Sleeps-cons :
    (x : ℕ) (xs : List ℕ) (c : Call (List ℕ))
    → Sleeps xs c
    → Sleeps (x ∷ xs) (map_call (λ ys. x ∷ ys) c)
Sleeps-cons x xs (returned bs q) r = r
Sleeps-cons x xs (blocked bs q) r = (ap (λ ys. x ∷ ys) r.0, r.1, r.2)
Sleeps-cons x xs (failed e) r = r
Sleeps-cons x xs broken r = r

-- One round of each loop, by what bbq_remove and bbq_insert do.
read_all-done :
    (n : ℕ) (q q' : Bbq) (x : ℕ)
    → bbq_remove q ≡ done (x, q')
    → read_all (suc n) q ≡ map_call (λ ys. x ∷ ys) (read_all n q')
unfolding read_all
read_all-done n q q' x p = rw (p, read_all)

read_all-waits : (n : ℕ) (q : Bbq) → bbq_remove q ≡ waits → read_all (suc n) q ≡ blocked [] q
unfolding read_all
read_all-waits n q p = rw (p, read_all)

read_some-empty : (n : ℕ) (q : Bbq) → bbq_is_empty q ≡ true → read_some (suc n) q ≡ returned [] q
unfolding read_some
read_some-empty n q p = rw (p, read_some)

read_some-done :
    (n : ℕ) (q q' : Bbq) (x : ℕ)
    → bbq_is_empty q ≡ false
    → bbq_remove q ≡ done (x, q')
    → read_some (suc n) q ≡ map_call (λ ys. x ∷ ys) (read_some n q')
unfolding read_some
read_some-done n q q' x e p = rw (e, read_some) (rw (p, read_some))

pub read_all-Reads :
    (n : ℕ) (q : Bbq) (xs : List ℕ)
    → IsValid q
    → contents q ≡ xs
    → n ≤ length xs
    → Reads n xs (read_all n q)
unfolding read_all
read_all-Reads zero q xs v e h = (refl, e, v)
read_all-Reads (suc n) q [] v e h = absurd (omega arith)
read_all-Reads (suc n) q (x ∷ xs) v e h =
    let (q', p, c, v') = remove_cons q x xs v e in
    rw (read_all-done n q q' x p) (Reads-cons n x xs _ (read_all-Reads n q' xs v' c (omega arith)))

pub read_all-Sleeps :
    (n : ℕ) (q : Bbq) (xs : List ℕ)
    → IsValid q
    → contents q ≡ xs
    → length xs < n
    → Sleeps xs (read_all n q)
unfolding read_all
read_all-Sleeps zero q xs v e h = absurd (omega arith)
read_all-Sleeps (suc n) q [] v e h = rw (read_all-waits n q (remove_nil q v e)) (refl, e, v)
read_all-Sleeps (suc n) q (x ∷ xs) v e h =
    let (q', p, c, v') = remove_cons q x xs v e in
    rw (read_all-done n q q' x p) (Sleeps-cons x xs _ (read_all-Sleeps n q' xs v' c (omega arith)))

is_empty-nil : (q : Bbq) → IsValid q → contents q ≡ [] → bbq_is_empty q ≡ true
unfolding bbq_is_empty
is_empty-nil q v e = ground (arith, length-window q.items q.front (q.next_empty - q.front))

is_empty-cons :
    (q : Bbq) (x : ℕ) (xs : List ℕ) → IsValid q → contents q ≡ x ∷ xs → bbq_is_empty q ≡ false
unfolding bbq_is_empty
is_empty-cons q x xs v e = ground (arith, length-window q.items q.front (q.next_empty - q.front))

pub read_some-Reads :
    (n : ℕ) (q : Bbq) (xs : List ℕ) → IsValid q → contents q ≡ xs → Reads n xs (read_some n q)
unfolding read_some
read_some-Reads zero q xs v e = (refl, e, v)
read_some-Reads (suc n) q [] v e = rw (read_some-empty n q (is_empty-nil q v e)) (refl, e, v)
read_some-Reads (suc n) q (x ∷ xs) v e =
    let (q', p, c, v') = remove_cons q x xs v e in
    rw (read_some-done n q q' x (is_empty-cons q x xs v e) p)
      (Reads-cons n x xs _ (read_some-Reads n q' xs v' c))
