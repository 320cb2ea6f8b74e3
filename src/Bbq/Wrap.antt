-- ===== src/Bbq/Wrap.antt =====
-- What becomes of the two counters, which only grow: a buffer that has carried 2^31 bytes.
use operating_system_osv.Base.{
  ℕ, zero, suc, ◌+◌, ◌-◌, ◌%◌, ◌^◌, ◌≤◌, ◌≡◌, ◌≢◌, refl, ap, sym, ◌∙◌, ◌↔◌, List, Bool, true, false,
  arith, length, length-set, ℕ_discrete,
}
use operating_system_osv.Bbq.{
  Bbq, Outcome, done, waits, fault, max_bbq_size, bbq_init, bbq_insert, bbq_remove, bbq_is_empty,
  int_sub,
}

infixl 5 ◌>>=◌
abbrev pub ◌>>=◌ {ℓ κ} : {A : Type ℓ} {B : Type κ} → Outcome A → (A → Outcome B) → Outcome B
done a >>= f = f a
waits >>= f = waits
fault >>= f = fault

-- One byte goes in and comes out again.
pub round : ℕ → Bbq → Outcome Bbq
round x q = do q' ← bbq_insert q x; (y, q'') ← bbq_remove q'; done q''

pub rounds : ℕ → ℕ → Bbq → Outcome Bbq
rounds zero x q = done q
rounds (suc n) x q = rounds n x q >>= round x

abbrev At : ℕ → Outcome Bbq → Type 0
At n (done q) = (q.front ≡ n) × (q.next_empty ≡ n) × (length q.items ≡ max_bbq_size)
At n _ = ⊥

round-At : (n x : ℕ) (q : Bbq) → n ≤ 2 ^ 31 → At n (done q) → At (suc n) (round x q)
unfolding round bbq_insert bbq_remove
round-At n x q h a = ground (arith, length-set q.items (n % max_bbq_size) x, length-set q.items 0 x)

rounds-At : (n x : ℕ) (q : Bbq) → n ≤ 2 ^ 31 + 1 → At 0 (done q) → At n (rounds n x q)
unfolding rounds
rounds-At zero x q h a = a
rounds-At (suc n) x q h a = step (rounds n x q) (rounds-At n x q (omega arith) a)
  where
    step : (o : Outcome Bbq) → At n o → At (suc n) (o >>= round x)
    step (done q') b = round-At n x q' (omega arith) b
    step waits b = elim b [ ]
    step fault b = elim b [ ]

-- A buffer that is not full and whose `next_empty` has become negative, at no multiple of 512,
-- accesses `items` out of range on the next insertion.
pub insert_negative :
    (q : Bbq) (x : ℕ)
    → 2 ^ 31 ≤ q.next_empty
    → (2 ^ 32 - q.next_empty) % max_bbq_size ≢ 0
    → int_sub q.next_empty q.front ≢ max_bbq_size
    → bbq_insert q x ≡ fault
unfolding bbq_insert
insert_negative q x h k m = ground arith

-- The buffer that `n` rounds leave is empty, and faults at an insertion just for one `n`.
abbrev pub Empties : ℕ → Outcome Bbq → Type 0
Empties n (done q) =
    (bbq_is_empty q ≡ true) × ((y : ℕ) → (bbq_insert q y ≡ fault) ↔ (n ≡ 2 ^ 31 + 1))
Empties n _ = ⊥

abbrev faults : Outcome Bbq → Bool
faults (done _) = false
faults waits = false
faults fault = true

insert_sound : (q : Bbq) (n y : ℕ) → n ≤ 2 ^ 31 → At n (done q) → faults (bbq_insert q y) ≡ false
unfolding bbq_insert
insert_sound q n y h a = ground arith

last_round :
    (q : Bbq) (n y : ℕ) → n ≤ 2 ^ 31 + 1 → At n (done q) → bbq_insert q y ≡ fault → n ≡ 2 ^ 31 + 1
last_round q n y h a e = elim (ℕ_discrete n (2 ^ 31 + 1)) [
  | yes p ↦ p
  | no ne ↦
      let t : true ≡ false = sym (ap faults e) ∙ insert_sound q n y (omega (arith, ne)) a in
      ground (arith, t)
]

-- A fresh buffer is empty again after any number of bytes up to 2^31 + 1 that go through it one at
-- a time, none of which fails; the next insertion accesses `items` out of range after exactly
-- 2^31 + 1 of them, and not after fewer.
pub rounds_fault :
    (n x : ℕ) (bytes : List ℕ)
    → length bytes ≡ max_bbq_size
    → n ≤ 2 ^ 31 + 1
    → Empties n (rounds n x (bbq_init bytes))
unfolding bbq_init
rounds_fault n x bytes s h = step (rounds n x (bbq_init bytes)) (rounds-At n x _ h (refl, refl, s))
  where
    step : (o : Outcome Bbq) → At n o → Empties n o
    step (done q) b = (
      unfold bbq_is_empty in ground arith,
      λ y. (
        last_round q n y h b,
        λ e.
            insert_negative q y (omega (arith, e, b.1)) (omega (arith, e, b.1))
              (omega (arith, b.0, b.1)),
      ),
    )
    step waits b = elim b [ ]
    step fault b = elim b [ ]
