-- ===== src/Base/Powers.antt =====
-- Powers of two, and the arithmetic of blocks that are aligned to one.
use Prim.Native.Nat.{ℕ, zero, suc, ◌+◌, ◌-◌, ◌*◌, ◌/◌, ◌%◌, ◌^◌, ◌≤◌, ◌<◌}
use mathlib.Core.Path.{◌≡◌, sym, ◌∙◌, ap}
use mathlib.Core.Logic.{◌⊎◌}
use native.Mathlib.Nat.{pow-suc, div-add-mod, mul-div_cancel_left, mul-mod_right, add-mod_right}
use native.Mathlib.Decide.{dec_lt}
use native.Mathlib.Omega.{arith}

pub pow_pos : (o : ℕ) → 0 < 2 ^ o
pow_pos zero = omega arith
pow_pos (suc o) = rw pow-suc (omega (arith, pow_pos o))

pub pow_double : (o : ℕ) → 2 ^ suc o ≡ 2 ^ o + 2 ^ o
pow_double o = rw pow-suc (omega arith)

-- An aligned index is its block's number times the size.
pub aligned_index : (i s : ℕ) → i % s ≡ 0 → i ≡ s * (i / s)
aligned_index i s h = omega (arith, div-add-mod i s)

pub mul-IsAligned : (s q : ℕ) → s * q % s ≡ 0
mul-IsAligned s q = mul-mod_right s q

-- Aligned blocks of one size are equal or disjoint.
pub aligned_lt : (s i j : ℕ) → i % s ≡ 0 → j % s ≡ 0 → i < j → i + s ≤ j
aligned_lt s i j a b lt =
    let ei = aligned_index i s a in let ej = aligned_index j s b in grind arith

-- A multiple of twice a size: an even multiple of the size.
pub even_block :
    (o p : ℕ)
    → p % 2 ^ (o + 1) ≡ 0
    → (p % 2 ^ o ≡ 0) × (p / 2 ^ o % 2 ≡ 0) × ((p + 2 ^ o) % 2 ^ o ≡ 0)
even_block o p h =
    let k = p / 2 ^ (o + 1) in
    let size : 2 ^ (o + 1) ≡ 2 ^ o + 2 ^ o = ap (λ (n : ℕ). 2 ^ n) (omega arith) ∙ pow_double o in
    let e : p ≡ 2 ^ o * (k + k) =
      aligned_index p (2 ^ (o + 1)) h ∙ ap (λ (n : ℕ). n * k) size ∙ omega arith in
    let e' : p + 2 ^ o ≡ 2 ^ o * (k + k + 1) = omega (arith, e) in
    (
      rw e (mul-mod_right (2 ^ o) (k + k)),
      rw e (rw (mul-div_cancel_left (k + k) {n = 2 ^ o} (pow_pos o)) (omega arith)),
      rw e' (mul-mod_right (2 ^ o) (k + k + 1)),
    )

pub pow_add_one : (o : ℕ) → 2 ^ (o + 1) ≡ 2 ^ o + 2 ^ o
pow_add_one o = ap (λ (n : ℕ). 2 ^ n) (omega arith) ∙ pow_double o

pub aligned_lower : (d k i : ℕ) → i % 2 ^ (k + d) ≡ 0 → i % 2 ^ k ≡ 0
aligned_lower zero k i h = ap (λ (n : ℕ). i % 2 ^ n) (omega arith) ∙ h
aligned_lower (suc d) k i h =
    let e : k + suc d ≡ k + d + 1 = omega arith in
    aligned_lower d k i (even_block (k + d) i (ap (λ (n : ℕ). i % 2 ^ n) (sym e) ∙ h)).0

pub aligned_le : (k o i : ℕ) → k ≤ o → i % 2 ^ o ≡ 0 → i % 2 ^ k ≡ 0
aligned_le k o i l h =
    let e : k + (o - k) ≡ o = omega arith in
    aligned_lower (o - k) k i (ap (λ (n : ℕ). i % 2 ^ n) e ∙ h)

-- A multiple of a size is an even multiple, or comes right after one.
pub pair_even : (o p : ℕ) → p % 2 ^ o ≡ 0 → p / 2 ^ o % 2 ≡ 0 → p % 2 ^ (o + 1) ≡ 0
pair_even o p a h =
    let q = p / 2 ^ o in
    let half : q ≡ 2 * (q / 2) = omega (arith, h) in
    let e : p ≡ 2 ^ (o + 1) * (q / 2) =
      aligned_index p (2 ^ o) a
      ∙ ap (λ (n : ℕ). 2 ^ o * n) half
      ∙ omega arith
      ∙ ap (λ (n : ℕ). n * (q / 2)) (sym (pow_add_one o)) in
    rw e (mul-mod_right (2 ^ (o + 1)) (q / 2))

pub pair_odd :
    (o p : ℕ) → p % 2 ^ o ≡ 0 → p / 2 ^ o % 2 ≡ 1 → (2 ^ o ≤ p) × ((p - 2 ^ o) % 2 ^ (o + 1) ≡ 0)
pair_odd o p a h =
    let q = p / 2 ^ o in
    let half : q ≡ 2 * (q / 2) + 1 = omega (arith, h) in
    let e : p ≡ (2 ^ o + 2 ^ o) * (q / 2) + 2 ^ o =
      aligned_index p (2 ^ o) a ∙ ap (λ (n : ℕ). 2 ^ o * n) half ∙ omega arith in
    let e' : p - 2 ^ o ≡ 2 ^ (o + 1) * (q / 2) =
      omega (arith, e) ∙ ap (λ (n : ℕ). n * (q / 2)) (sym (pow_add_one o)) in
    (omega (arith, e), rw e' (mul-mod_right (2 ^ (o + 1)) (q / 2)))

-- Of two blocks of one size that make up the aligned pair at `c`, an aligned block that contains
-- the first page of one, and not that of the other, begins there.
pub block_head :
    (o k c p b i : ℕ)
    → c % 2 ^ (o + 1) ≡ 0
    → c ≤ p
    → p < c + 2 ^ (o + 1)
    → c ≤ b
    → b < c + 2 ^ (o + 1)
    → b % 2 ^ o ≡ 0
    → i % 2 ^ k ≡ 0
    → i ≤ b
    → b < i + 2 ^ k
    → (p < i) ⊎ (i + 2 ^ k ≤ p)
    → (i ≡ b) × (k ≤ o)
block_head o k c p b i hc cp pc cb bc hb hi ib bi out = elim (dec_lt o k) [
  | no small ↦ (
    elim (dec_lt i b) [
      | yes lt ↦
          absurd (omega (arith, aligned_lt (2 ^ k) i b hi (aligned_le k o b (omega arith) hb) lt))
      | no ge ↦ omega arith
    ],
    omega arith,
  )
  | yes large ↦
      let end : (i + 2 ^ k) % 2 ^ k ≡ 0 = add-mod_right i (2 ^ k) ∙ hi in
      let hi' = aligned_le (o + 1) k i (omega arith) hi in
      let hend = aligned_le (o + 1) k (i + 2 ^ k) (omega arith) end in
      let after = aligned_lt (2 ^ (o + 1)) c (i + 2 ^ k) hc hend (omega arith) in
      elim (dec_lt c i) [
        | yes lt ↦ absurd (omega (arith, aligned_lt (2 ^ (o + 1)) c i hc hi' lt))
        | no ge ↦ absurd (omega (arith, after, out))
      ]
]
