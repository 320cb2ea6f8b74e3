-- ===== src/Radix/Levels.antt =====
-- The height of a radix tree: its bound, and the loop of radix_tree_insert that raises it.
use native.Mathlib.Nat.{div-eq_of_lt, div-lt_iff_lt-mul, le-div_iff_mul-le}
use operating_system_osv.Base.{
  ℕ, zero, suc, ◌+◌, ◌*◌, ◌/◌, ◌^◌, ◌≤◌, ◌<◌, ◌≡◌, refl, ap, sym, subst, ◌∙◌, Option, none, some,
  true, false, leb, update, arith, ℕ_discrete, dec_lt, pow_pos,
}
use operating_system_osv.Radix.{
  Slot, null, leaf, node, no_slots, new_node, Root, index_bound, level_index, lookup_at,
  radix_tree_lookup, add_level, add_levels,
}
use operating_system_osv.Radix.Slots.{
  in_use, IsSub, new_node-IsSub, occupied-update, occupied-no_slots, update-IsSub,
}
use operating_system_osv.Radix.Digits.{index_bound_lem, pow_level}
use operating_system_osv.Radix.Remove.{lookup-null}

-- The tree has `height` levels of nodes, and a root node unless it is empty.
abbrev pub IsFull : ℕ → Slot → Type 0
IsFull zero t = t ≡ null
IsFull (suc l) t = IsSub (suc l) t × (in_use t ≡ 1)

pub record IsValid (r : Root) : Type 0 where
  pub full : IsFull r.height r.root_node
  pub low : r.height ≤ 5

pub lookup-empty :
    (j : ℕ) (t : Slot) → radix_tree_lookup j (record { height = 0; root_node = t }) ≡ none
unfolding radix_tree_lookup
lookup-empty j t = ground arith

pub lookup_below :
    (l j : ℕ) (t : Slot)
    → j < index_bound (suc l)
    → radix_tree_lookup j (record { height = suc l; root_node = t }) ≡ lookup_at l j t
unfolding radix_tree_lookup
lookup_below l j t h = ground arith

pub lookup_above :
    (l j : ℕ) (t : Slot)
    → index_bound (suc l) ≤ j
    → radix_tree_lookup j (record { height = suc l; root_node = t }) ≡ none
unfolding radix_tree_lookup
lookup_above l j t h = ground arith

bound_grows : (l : ℕ) → index_bound (suc (suc l)) ≡ index_bound (suc l) * 64
bound_grows l =
    index_bound_lem (suc l) ∙ pow_level (suc l) ∙ ap (λ (n : ℕ). n * 64) (sym (index_bound_lem l))

first_digit : (l j : ℕ) → j < index_bound (suc l) → level_index j (suc l) ≡ 0
unfolding level_index
first_digit l j h =
    let e : j / 2 ^ (suc l * 6) ≡ 0 =
      div-eq_of_lt (subst (λ (n : ℕ). j < n) (index_bound_lem l) h) in
    rw e refl

other_digit :
    (l j : ℕ) → index_bound (suc l) ≤ j → j < index_bound (suc (suc l)) → 0 < level_index j (suc l)
unfolding level_index
other_digit l j h k =
    let p = 2 ^ (suc l * 6) in
    let pos : 0 < p = pow_pos (suc l * 6) in
    let low : 1 ≤ j / p = (le-div_iff_mul-le pos).1 (omega (arith, index_bound_lem l)) in
    let high : j / p < 64 =
      (div-lt_iff_lt-mul pos).1 (omega (arith, index_bound_lem l, bound_grows l)) in
    omega arith

-- A level more leaves the map as it is.
pub level_lookup :
    (h : ℕ) (t : Slot) (j : ℕ)
    → IsFull h t
    → radix_tree_lookup j (add_level (record { height = h; root_node = t }))
      ≡ radix_tree_lookup j (record { height = h; root_node = t })
unfolding add_level
level_lookup zero t j w = rw w (lookup_new j ∙ sym (lookup-empty j null))
  where
    lookup_new : (j : ℕ) → radix_tree_lookup j (record { height = 1; root_node = new_node }) ≡ none
    lookup_new j = elim (dec_lt j (index_bound 1)) [
      | yes lt ↦ lookup_below 0 j new_node lt ∙ unfold lookup_at in refl
      | no ge ↦ lookup_above 0 j new_node (omega arith)
    ]
level_lookup (suc l) null j (w, o) = absurd (omega arith)
level_lookup (suc l) (leaf x) j (w, o) = absurd w
level_lookup (suc l) (node c s) j (w, o) = elim (dec_lt j (index_bound (suc (suc l)))) [
  | no ge ↦
      lookup_above (suc l) j _ (omega arith)
      ∙ sym (lookup_above l j (node c s) (omega (arith, bound_grows l)))
  | yes lt ↦ elim (dec_lt j (index_bound (suc l))) [
    | yes small ↦
        lookup_below (suc l) j _ lt
        ∙ unfold lookup_at in
          (ap (lookup_at l j) (at_0 _ (first_digit l j small)))
          ∙ sym (lookup_below l j (node c s) small)
    | no large ↦
        lookup_below (suc l) j _ lt
        ∙ unfold lookup_at in
          (ap (lookup_at l j) (other _ (other_digit l j (omega arith) lt)) ∙ lookup-null l j)
          ∙ sym (lookup_above l j (node c s) (omega arith))
  ]
]
  where
    at_0 : (k : ℕ) → k ≡ 0 → update no_slots 0 (node c s) k ≡ node c s
    at_0 k e = ground arith

    other : (k : ℕ) → 0 < k → update no_slots 0 (node c s) k ≡ null
    other k e = ground arith

pub add_level-IsFull :
    (h : ℕ) (t : Slot)
    → IsFull h t
    → IsFull (suc h) (add_level (record { height = h; root_node = t })).root_node
unfolding add_level
add_level-IsFull zero t w = rw w (new_node-IsSub 0, refl)
add_level-IsFull (suc l) null (w, o) = absurd (omega arith)
add_level-IsFull (suc l) (leaf x) (w, o) = absurd w
add_level-IsFull (suc l) (node c s) (w, o) = (
  (
    omega (arith, occupied-update no_slots 0 (node c s) (omega arith), occupied-no_slots),
    update-IsSub (suc l) no_slots 0 (node c s) (λ k. tt) w,
  ),
  refl,
)

low_level : (h i : ℕ) → h ≤ 5 → index_bound h ≤ i → i < 2 ^ 30 → h < 5
unfolding index_bound
low_level h i l b k = elim (ℕ_discrete h 5) [
  | yes e ↦ absurd (omega (arith, subst (λ (n : ℕ). index_bound n ≤ i) e b))
  | no ne ↦ omega arith
]

-- What the loop of radix_tree_insert leaves.
abbrev pub Levels : ℕ → ℕ → Root → Option ℕ × Root → Type 0
Levels index b r (none, r') =
    IsValid r' × (b + r.height < 5) × ((j : ℕ) → radix_tree_lookup j r' ≡ radix_tree_lookup j r)
Levels index b r (some b', r') =
    IsValid r'
    × (index < index_bound r'.height)
    × (b + r.height ≤ b' + r'.height)
    × ((j : ℕ) → radix_tree_lookup j r' ≡ radix_tree_lookup j r)

pub add_levels-Levels :
    (b index : ℕ) (r : Root) → IsValid r → index < 2 ^ 30 → Levels index b r (add_levels b index r)
unfolding add_levels
add_levels-Levels zero index r v lt = elim (dec_lt index (index_bound r.height)) [
  | yes p ↦
      let e : leb (index_bound r.height) index ≡ false = ground arith in
      rw e (v, p, omega arith, λ j. refl)
  | no p ↦
      let e : leb (index_bound r.height) index ≡ true = ground arith in
      rw e (v, omega (arith, low_level r.height index v.low (omega arith) lt), λ j. refl)
]
add_levels-Levels (suc b) index r v lt = elim (dec_lt index (index_bound r.height)) [
  | yes p ↦
      let e : leb (index_bound r.height) index ≡ false = ground arith in
      rw e (v, p, omega arith, λ j. refl)
  | no p ↦
      let e : leb (index_bound r.height) index ≡ true = ground arith in
      let low = low_level r.height index v.low (omega arith) lt in
      let v' : IsValid (add_level r) = record {
        full = unfold add_level in (add_level-IsFull r.height r.root_node v.full);
        low = unfold add_level in (omega arith);
      } in
      rw e (
        one_more (add_levels b index (add_level r)) (add_levels-Levels b index (add_level r) v' lt))
]
  where
    tall : (add_level r).height ≡ suc r.height
    tall = unfold add_level in refl

    one_more : (o : Option ℕ × Root) → Levels index b (add_level r) o → Levels index (suc b) r o
    one_more (none, r') (w, l, same) =
        (w, omega (arith, tall), λ j. same j ∙ level_lookup r.height r.root_node j v.full)
    one_more (some b', r') (w, p, l, same) =
        (w, p, omega (arith, tall), λ j. same j ∙ level_lookup r.height r.root_node j v.full)
