-- ===== src/Radix/Map.antt =====
-- The radix tree as a map from indices to leaves.
use operating_system_osv.Base.{
  ℕ, zero, suc, ◌+◌, ◌^◌, ◌≤◌, ◌<◌, ◌≡◌, refl, ap, sym, ◌∙◌, Option, none, some, ◌==◌,
  if◌then◌else◌, arith, ℕ_discrete, dec_lt,
}
use operating_system_osv.Radix.{
  Slot, null, leaf, node, Outcome, done, alloc_error, node_exist, Root, index_bound, lookup_at,
  radix_tree_lookup, add_levels, radix_tree_insert, radix_tree_remove, insert_at, levelled,
  insert_in, Removed, absent, panicked, removed, root_removed, remove_at, remove_in,
}
use operating_system_osv.Radix.Digits.{agree, agree-eq}
use operating_system_osv.Radix.Insert.{Inserts, insert_at-Inserts}
use operating_system_osv.Radix.Remove.{NoEmpty, Removes, remove_at-Removes, lookup-null}
use operating_system_osv.Radix.Levels.{
  IsValid, lookup_below, lookup_above, lookup-empty, Levels, add_levels-Levels,
}

-- What an insertion of `v` at `index` leads to, by its answer.
abbrev pub Inserted : ℕ → ℕ → ℕ → Root → Outcome × Root → Type 0
Inserted index v b r (done, r') =
    IsValid r'
    × (radix_tree_lookup index r ≡ none)
    × ((j : ℕ) → radix_tree_lookup j r' ≡ (if index == j then some v else radix_tree_lookup j r))
Inserted index v b r (node_exist, r') =
    IsValid r'
    × ((w : ℕ) × (radix_tree_lookup index r ≡ some w))
    × ((j : ℕ) → radix_tree_lookup j r' ≡ radix_tree_lookup j r)
Inserted index v b r (alloc_error, r') =
    IsValid r' × (b < 10) × ((j : ℕ) → radix_tree_lookup j r' ≡ radix_tree_lookup j r)

abbrev tree : ℕ → Slot → Root
tree l u = record { height = suc l; root_node = u }

module _ (index v b l : ℕ) (t t' : Slot) (low : suc l ≤ 5) (lt : index < index_bound (suc l)) where
  same_lookups :
      ((j : ℕ) → lookup_at l j t' ≡ lookup_at l j t)
      → (j : ℕ) → radix_tree_lookup j (tree l t') ≡ radix_tree_lookup j (tree l t)
  same_lookups h j = elim (dec_lt j (index_bound (suc l))) [
    | yes p ↦ lookup_below l j t' p ∙ h j ∙ sym (lookup_below l j t p)
    | no p ↦ lookup_above l j t' (omega arith) ∙ sym (lookup_above l j t (omega arith))
  ]

  changed_lookups :
      (x : Option ℕ)
      → ((j : ℕ) → lookup_at l j t' ≡ (if agree l index j then x else lookup_at l j t))
      → (j : ℕ)
      → radix_tree_lookup j (tree l t') ≡ (if index == j then x else radix_tree_lookup j (tree l t))
  changed_lookups x h j = elim (dec_lt j (index_bound (suc l))) [
    | yes p ↦
        lookup_below l j t' p ∙ h j ∙ ground (arith, agree-eq l index j lt p, lookup_below l j t p)
    | no p ↦ lookup_above l j t' (omega arith) ∙ ground (arith, lookup_above l j t (omega arith))
  ]

  answered :
      (r : Outcome) (n : ℕ)
      → n ≤ b + 5
      → Inserts l index v b t (r, t')
      → Inserted index v n (tree l t) (r, tree l t')
  answered done n m (w, o, (e, h)) = (
    record { full = (w, o); low = low },
    lookup_below l index t lt ∙ e,
    changed_lookups (some v) h,
  )
  answered node_exist n m (w, o, ((x, e), h)) =
      (record { full = (w, o); low = low }, (x, lookup_below l index t lt ∙ e), same_lookups h)
  answered alloc_error n m (w, o, (p, h)) =
      (record { full = (w, o); low = low }, omega arith, same_lookups h)

insert_in-Inserted :
    (index v b n h : ℕ) (t : Slot)
    → IsValid (record { height = h; root_node = t })
    → index < index_bound h
    → n ≤ b + 5
    → Inserted index v n (record { height = h; root_node = t }) (insert_in h index v b t)
unfolding insert_in
insert_in-Inserted index v b n zero t w lt m = absurd (unfold index_bound in (omega arith))
insert_in-Inserted index v b n (suc l) t w lt m =
    answered index v b l t (insert_at l index v b t).1 w.low lt (insert_at l index v b t).0 n m
      (insert_at-Inserts l index v b t w.full.0 w.full.1)

after_levels :
    (index v b : ℕ) (r r' : Root) (o : Outcome × Root)
    → ((j : ℕ) → radix_tree_lookup j r' ≡ radix_tree_lookup j r)
    → Inserted index v b r' o
    → Inserted index v b r o
after_levels index v b r r' (done, q) same (w, e, h) = (
  w,
  sym (same index) ∙ e,
  λ j. h j ∙ ap (λ (x : Option ℕ). if index == j then some v else x) (same j),
)
after_levels index v b r r' (node_exist, q) same (w, (x, e), h) =
    (w, (x, sym (same index) ∙ e), λ j. h j ∙ same j)
after_levels index v b r r' (alloc_error, q) same (w, m, h) = (w, m, λ j. h j ∙ same j)

-- In a valid tree, radix_tree_insert below 2^30 puts the leaf at its index, which held none, and
-- changes no other lookup; or it fails as a leaf is there already, or with fewer than 10 nodes to
-- be had, and then changes no lookup. The tree stays valid on every path: each count is the number
-- of slots in use, and the height is 5 at most.
pub radix_tree_insert-Inserted :
    (index v b : ℕ) (r : Root)
    → IsValid r
    → index < 2 ^ 30
    → Inserted index v b r (radix_tree_insert index v b r)
unfolding radix_tree_insert levelled
radix_tree_insert-Inserted index v b r w lt =
    go (add_levels b index r) (add_levels-Levels b index r w lt)
  where
    go : (o : Option ℕ × Root) → Levels index b r o → Inserted index v b r (levelled index v o)
    go (none, r') (w', m, same) = (w', omega arith, same)
    go (some b', r') (w', p, m, same) =
        after_levels index v b r r' _ same
          (insert_in-Inserted index v b' b r'.height r'.root_node w' p (omega (arith, w'.low)))

-- The nodes on the way to the index have slots in use, and a tree without nodes has height 0.
abbrev pub Trimmed : ℕ → ℕ → Slot → Type 0
Trimmed zero index t = t ≡ null
Trimmed (suc l) index t = NoEmpty l index t

abbrev pub Frees : Option ℕ → ℕ → Root → Type 0
Frees none index r = Unit
Frees (some v) index r = Trimmed r.height index r.root_node

-- What a removal of `index` leads to.
abbrev pub RemovedAt : ℕ → Root → Option (Option ℕ × Root) → Type 0
RemovedAt index r none = ⊥
RemovedAt index r (some (x, r')) =
    IsValid r'
    × (x ≡ radix_tree_lookup index r)
    × ((j : ℕ) → radix_tree_lookup j r' ≡ (if index == j then none else radix_tree_lookup j r))
    × Frees x index r'

without_absent :
    (index : ℕ) (r : Root)
    → radix_tree_lookup index r ≡ none
    → (j : ℕ) → radix_tree_lookup j r ≡ (if index == j then none else radix_tree_lookup j r)
without_absent index r e j = elim (ℕ_discrete index j) [
  | yes q ↦ ground (arith, ap (λ (n : ℕ). radix_tree_lookup n r) q, e)
  | no ne ↦ ground (arith, ne)
]

lookup_null : (l j : ℕ) → radix_tree_lookup j (record { height = suc l; root_node = null }) ≡ none
lookup_null l j = elim (dec_lt j (index_bound (suc l))) [
  | yes p ↦ lookup_below l j null p ∙ lookup-null l j
  | no p ↦ lookup_above l j null (omega arith)
]

removed_root :
    (index l : ℕ) (t : Slot) (o : Removed)
    → IsValid (record { height = suc l; root_node = t })
    → index < index_bound (suc l)
    → Removes l index t o
    → RemovedAt index
        (record { height = suc l; root_node = t })
        (root_removed (suc l) o (record { height = suc l; root_node = t }))
unfolding root_removed
removed_root index l t absent w lt e =
    let gone = lookup_below l index t lt ∙ e in (w, sym gone, without_absent index _ gone, tt)
removed_root index l t panicked w lt e = e
removed_root index l t (removed v null) w lt (e, u, h, _) = (
  record { full = refl; low = omega arith },
  sym (lookup_below l index t lt ∙ e),
  λ j.
      lookup-empty j null
      ∙ sym (lookup_null l j)
      ∙ changed_lookups index v 0 l t null w.low lt none h j,
  refl,
)
removed_root index l t (removed v (leaf x)) w lt (e, u, h, _) = absurd u
removed_root index l t (removed v (node c s)) w lt (e, u, h, trim) = (
  record { full = (u, refl); low = w.low },
  sym (lookup_below l index t lt ∙ e),
  changed_lookups index v 0 l t (node c s) w.low lt none h,
  trim,
)

-- In a valid tree, radix_tree_remove of an index below the bound of the tree answers the leaf that
-- was there, if one was, clears that index, and changes no other lookup. It fails no assertion on
-- a count or a slot and leaves the tree valid. After a leaf is removed no node on the way to the
-- index is empty: those that became so are freed, and if the root is, the height is 0.
pub radix_tree_remove-RemovedAt :
    (index : ℕ) (r : Root)
    → IsValid r
    → index < index_bound r.height
    → RemovedAt index r (radix_tree_remove index r)
unfolding radix_tree_remove
radix_tree_remove-RemovedAt index r w lt = go r.height r.root_node w lt
  where
    go :
        (h : ℕ) (t : Slot)
        → IsValid (record { height = h; root_node = t })
        → index < index_bound h
        → RemovedAt index
            (record { height = h; root_node = t })
            (remove_in h index (record { height = h; root_node = t }))
    go zero t w lt = absurd (unfold index_bound in (omega arith))
    go (suc l) t w lt =
        unfold remove_in in
        (removed_root index l t (remove_at l index t) w lt (remove_at-Removes l index t w.full.0))
