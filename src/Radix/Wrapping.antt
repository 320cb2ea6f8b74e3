-- ===== src/Radix/Wrapping.antt =====
-- radix_tree_remove beyond the bound of the tree.
use native.Mathlib.Nat.{add-mul-div_left, pow-suc}
use operating_system_osv.Base.{
  ℕ, zero, suc, ◌+◌, ◌-◌, ◌*◌, ◌^◌, ◌≤◌, ◌≡◌, refl, ap, ◌∙◌, arith, pow_pos, none, some,
}
use operating_system_osv.Radix.{
  Slot, null, leaf, node, leaf_of, Root, index_bound, level_index, remove_at, above, clear_slot,
  remove_in, root_removed, radix_tree_remove, absent, Removed,
}
use operating_system_osv.Radix.Digits.{index_bound_lem, pow_level}

pow_split : (m d : ℕ) → 2 ^ (m + d) ≡ 2 ^ m * 2 ^ d
pow_split m zero = let e : m + 0 ≡ m = omega arith in ap (λ (n : ℕ). 2 ^ n) e ∙ omega arith
pow_split m (suc d) =
    let e : m + suc d ≡ suc (m + d) = omega arith in
    ap (λ (n : ℕ). 2 ^ n) e
    ∙ pow-suc 2 (m + d)
    ∙ omega (arith, ap (λ (n : ℕ). n * 2) (pow_split m d), ap (λ (n : ℕ). 2 ^ m * n) (pow-suc 2 d))

-- The digits of an index below the bound of the tree do not see the bound.
same_digit : (l m i : ℕ) → m ≤ l → level_index (i + index_bound (suc l)) m ≡ level_index i m
unfolding level_index
same_digit l m i h =
    let p = 2 ^ (m * 6) in
    let q = 2 ^ ((l - m) * 6) in
    let split : l * 6 ≡ m * 6 + (l - m) * 6 = omega arith in
    let e : index_bound (suc l) ≡ p * (64 * q) =
      index_bound_lem l
      ∙ pow_level l
      ∙ ap (λ (n : ℕ). 2 ^ n * 64) split
      ∙ ap (λ (n : ℕ). n * 64) (pow_split (m * 6) ((l - m) * 6))
      ∙ omega arith in
    rw (e, add-mul-div_left i (64 * q) (pow_pos (m * 6))) (omega arith)

module _ (l i : ℕ) where
  abbrev far : ℕ
  far = i + index_bound (suc l)

  remove_at-far : (m : ℕ) (t : Slot) → m ≤ l → remove_at m far t ≡ remove_at m i t
  unfolding remove_at
  remove_at-far zero null h = refl
  remove_at-far zero (leaf w) h = refl
  remove_at-far zero (node c s) h =
      ap
        (λ (k : ℕ). elim (leaf_of (s k)) as (λ _. Removed) [
          | none ↦ absent
          | some v ↦ clear_slot v k c s
        ])
        (same_digit l 0 i h)
  remove_at-far (suc m) null h = refl
  remove_at-far (suc m) (leaf w) h = refl
  remove_at-far (suc m) (node c s) h = rw (same_digit l (suc m) i h) (
      ap (above (level_index i (suc m)) c s)
        (remove_at-far m (s (level_index i (suc m))) (omega arith)))

-- radix_tree_remove does not compare the index with the bound of the tree: an index too large by
-- the bound has the same effect as the index itself.
pub radix_tree_remove_wraps :
    (i : ℕ) (r : Root) → radix_tree_remove (i + index_bound r.height) r ≡ radix_tree_remove i r
unfolding radix_tree_remove remove_in
radix_tree_remove_wraps i r = go r.height
  where
    go : (h : ℕ) → remove_in h (i + index_bound h) r ≡ remove_in h i r
    go zero = refl
    go (suc l) = ap (λ o. root_removed (suc l) o r) (remove_at-far l i l r.root_node (omega arith))
