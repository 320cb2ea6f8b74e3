-- ===== src/Radix/Slots.antt =====
-- Trees of full height, and the slots in use.
use operating_system_osv.Base.{
  ℕ, zero, suc, ◌+◌, ◌<◌, ◌≡◌, refl, update, sum_below, sum_below_congr, sum_below-update, arith,
  ℕ_discrete,
}
use operating_system_osv.Radix.{Slot, null, leaf, node, no_slots, new_node, slot_of}

abbrev pub in_use : Slot → ℕ
in_use null = 0
in_use (leaf v) = 1
in_use (node c s) = 1

pub occupied : (ℕ → Slot) → ℕ
occupied s = sum_below 64 (λ k. in_use (s k))

-- A subtree of `h` levels of nodes: its leaves all lie below the last, and each count is the number
-- of slots in use.
abbrev pub IsSub : ℕ → Slot → Type 0
IsSub zero null = Unit
IsSub zero (leaf v) = Unit
IsSub zero (node c s) = ⊥
IsSub (suc h) null = Unit
IsSub (suc h) (leaf v) = ⊥
IsSub (suc h) (node c s) = (c ≡ occupied s) × ((k : ℕ) → IsSub h (s k))

in_use-update :
    (s : ℕ → Slot) (k : ℕ) (t : Slot) (i : ℕ)
    → in_use (update s k t i) ≡ update (λ j. in_use (s j)) k (in_use t) i
in_use-update s k t i = ground arith

pub occupied-update :
    (s : ℕ → Slot) (k : ℕ) (t : Slot)
    → k < 64
    → occupied (update s k t) + in_use (s k) ≡ occupied s + in_use t
unfolding occupied
occupied-update s k t h = omega (
  arith,
  sum_below_congr 64 (λ i. in_use (update s k t i)) (update (λ j. in_use (s j)) k (in_use t))
      (λ i _. in_use-update s k t i),
  sum_below-update 64 (λ j. in_use (s j)) k (in_use t) h,
)

pub occupied-no_slots : occupied no_slots ≡ 0
unfolding occupied sum_below
occupied-no_slots = refl

none_below :
    (n : ℕ) (s : ℕ → Slot)
    → sum_below n (λ k. in_use (s k)) ≡ 0
    → (k : ℕ) → k < n
    → in_use (s k) ≡ 0
unfolding sum_below
none_below zero s e k h = absurd (omega arith)
none_below (suc n) s e k h = elim (ℕ_discrete k n) [
  | yes q ↦ rw q (omega arith)
  | no ne ↦ none_below n s (omega arith) k (omega arith)
]

null_of : (t : Slot) → in_use t ≡ 0 → t ≡ null
null_of null e = refl
null_of (leaf v) e = absurd (omega arith)
null_of (node c s) e = absurd (omega arith)

-- With no slot in use, all 64 slots are NULL.
pub all_null : (s : ℕ → Slot) → occupied s ≡ 0 → (k : ℕ) → k < 64 → s k ≡ null
unfolding occupied
all_null s e k h = null_of (s k) (none_below 64 s e k h)

pub slot-IsSub : (h : ℕ) (t : Slot) (k : ℕ) → IsSub (suc h) t → IsSub h (slot_of t k)
slot-IsSub zero null k w = tt
slot-IsSub (suc h) null k w = tt
slot-IsSub zero (leaf v) k w = absurd w
slot-IsSub (suc h) (leaf v) k w = absurd w
slot-IsSub zero (node c s) k w = w.1 k
slot-IsSub (suc h) (node c s) k w = w.1 k

pub IsSub-null : (h : ℕ) → IsSub h null
IsSub-null zero = tt
IsSub-null (suc h) = tt

pub update-IsSub :
    (h : ℕ) (s : ℕ → Slot) (k : ℕ) (t : Slot)
    → ((j : ℕ) → IsSub h (s j))
    → IsSub h t
    → (j : ℕ) → IsSub h (update s k t j)
update-IsSub h s k t all w j = elim (ℕ_discrete k j) [
  | yes e ↦ let q : update s k t j ≡ t = ground arith in rw q w
  | no ne ↦ let q : update s k t j ≡ s j = ground arith in rw q (all j)
]

pub new_node-IsSub : (h : ℕ) → IsSub (suc h) new_node
new_node-IsSub h = (rw occupied-no_slots, λ k. IsSub-null h)
