-- ===== src/Radix/Digits.antt =====
-- The digits of an index: which indices take the same way down.
use native.Mathlib.Nat.{mod-lt, mod-eq_of_lt, div-add-mod, mul-add-mod_self_left, pow-suc}
use native.Mathlib.Numerals.{towards_suc}
use operating_system_osv.Base.{
  ℕ, zero, suc, ◌+◌, ◌*◌, ◌/◌, ◌%◌, ◌^◌, ◌<◌, ◌≡◌, sym, ap, ◌∙◌, Bool, true, ◌==◌, ◌&&◌, arith,
  pow_pos,
}
use operating_system_osv.Radix.{level_index, index_bound}

-- The indices take the same way from a node at `level` to the leaf.
unfoldable pub agree : ℕ → ℕ → ℕ → Bool
agree zero i j = level_index i 0 == level_index j 0
agree (suc l) i j = (level_index i (suc l) == level_index j (suc l)) && agree l i j

pow_six : (n : ℕ) → 2 ^ (n + 6) ≡ 2 ^ n * 64
pow_six n =
    simp towards_suc (rw (pow-suc, pow-suc, pow-suc, pow-suc, pow-suc, pow-suc) (omega arith))

pub pow_level : (l : ℕ) → 2 ^ (suc l * 6) ≡ 2 ^ (l * 6) * 64
pow_level l = ap (λ (n : ℕ). 2 ^ n) (omega arith) ∙ pow_six (l * 6)

pub index_bound_lem : (h : ℕ) → index_bound (suc h) ≡ 2 ^ (suc h * 6)
unfolding index_bound
index_bound_lem h = ap (λ (n : ℕ). 2 ^ n) (omega arith)

mul_lt : (p d r : ℕ) → d < 64 → r < p → p * d + r < p * 64
mul_lt p d r h k = grind arith

-- An index below 64 sizes is a digit and a rest.
split_digit : (p i : ℕ) → 0 < p → i % (p * 64) ≡ p * (i / p % 64) + i % p
split_digit p i pos =
    let q = i / p in
    let e : i ≡ p * 64 * (q / 64) + (p * (q % 64) + i % p) =
      sym (div-add-mod i p)
      ∙ ap (λ (n : ℕ). p * n + i % p) (sym (div-add-mod q 64))
      ∙ omega arith in
    ap (λ (n : ℕ). n % (p * 64)) e
    ∙ mul-add-mod_self_left (p * 64) (q / 64) (p * (q % 64) + i % p)
    ∙ mod-eq_of_lt (mul_lt p (q % 64) (i % p) (omega arith) (mod-lt i pos))

agree-mod : (l i j : ℕ) → agree l i j ≡ true → i % 2 ^ (suc l * 6) ≡ j % 2 ^ (suc l * 6)
unfolding agree level_index
agree-mod zero i j h = ground arith
agree-mod (suc l) i j h =
    let p = 2 ^ (suc l * 6) in
    let both : (i / p % 64 ≡ j / p % 64) × (agree l i j ≡ true) = ground arith in
    let rest = agree-mod l i j both.1 in
    rw (
      pow_level (suc l),
      split_digit p i (pow_pos (suc l * 6)),
      split_digit p j (pow_pos (suc l * 6)),
      both.0,
      rest,
    )

agree_refl : (l i : ℕ) → agree l i i ≡ true
unfolding agree
agree_refl zero i = ground arith
agree_refl (suc l) i = ground (arith, agree_refl l i)

-- Below the bound of a tree, only an index itself takes its way.
pub agree-eq :
    (l i j : ℕ) → i < index_bound (suc l) → j < index_bound (suc l) → agree l i j ≡ (i == j)
agree-eq l i j h k = ground (
  arith,
  index_bound_lem l,
  agree-mod l i j,
  agree_refl l i,
  mod-eq_of_lt {n = i} {m = 2 ^ (suc l * 6)},
  mod-eq_of_lt {n = j} {m = 2 ^ (suc l * 6)},
)
