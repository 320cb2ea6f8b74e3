-- ===== src/Radix/Remove.antt =====
-- radix_tree_remove on trees of full height.
use operating_system_osv.Base.{
  ℕ, zero, suc, ◌+◌, ◌-◌, ◌<◌, ◌≡◌, refl, ap, sym, ◌∙◌, subst, none, some, false, ◌==◌,
  if◌then◌else◌, update, arith, ℕ_discrete,
}
use operating_system_osv.Radix.{
  Slot, null, leaf, node, is_null, slot_of, leaf_of, Removed, absent, panicked, removed,
  level_index, lookup_at, remove_at, clear_slot, above,
}
use operating_system_osv.Radix.Slots.{
  in_use, occupied, IsSub, IsSub-null, all_null, occupied-update, update-IsSub,
}
use operating_system_osv.Radix.Digits.{agree}
use operating_system_osv.Radix.Insert.{level_index_lt}

-- The nodes on the way to `i` from a node at `level` have slots in use.
abbrev pub NoEmpty : ℕ → ℕ → Slot → Type 0
NoEmpty l i null = Unit
NoEmpty l i (leaf v) = Unit
NoEmpty zero i (node c s) = 0 < c
NoEmpty (suc l) i (node c s) = (0 < c) × NoEmpty l i (s (level_index i (suc l)))

-- What a removal at `i` has done to a tree of level `l`, by its answer.
abbrev pub Removes : ℕ → ℕ → Slot → Removed → Type 0
Removes l i t absent = lookup_at l i t ≡ none
Removes l i t panicked = ⊥
Removes l i t (removed v t') =
    (lookup_at l i t ≡ some v)
    × IsSub (suc l) t'
    × ((j : ℕ) → lookup_at l j t' ≡ (if agree l i j then none else lookup_at l j t))
    × NoEmpty l i t'

NoEmpty-node :
    (l i c : ℕ) (s : ℕ → Slot) (t : Slot)
    → 0 < c
    → s (level_index i (suc l)) ≡ t
    → NoEmpty l i t
    → NoEmpty (suc l) i (node c s)
NoEmpty-node l i c s t lt e n = (lt, subst (NoEmpty l i) (sym e) n)

NoEmpty-cleared :
    (h i c : ℕ) (s : ℕ → Slot) → 0 < c → NoEmpty h i (node c (update s (level_index i h) null))
NoEmpty-cleared zero i c s lt = lt
NoEmpty-cleared (suc h) i c s lt =
    NoEmpty-node h i c (update s (level_index i (suc h)) null) null lt (ground arith) tt

used-not_null : (t : Slot) → in_use t ≡ 1 → is_null t ≡ false
used-not_null null e = absurd (omega arith)
used-not_null (leaf v) e = refl
used-not_null (node c s) e = refl

-- The node without the slot `k`: NULL if no other is in use.
record IsCleared (h v k : ℕ) (s : ℕ → Slot) (r : Removed) : Type 0 where
  tree : Slot
  is_removed : r ≡ removed v tree
  is_sub : IsSub (suc h) tree
  slots : (m : ℕ) → m < 64 → slot_of tree m ≡ update s k null m
  trimmed : (i : ℕ) → level_index i h ≡ k → NoEmpty h i tree

clear_slot-IsCleared :
    (h v k c : ℕ) (s : ℕ → Slot)
    → k < 64
    → IsSub (suc h) (node c s)
    → in_use (s k) ≡ 1
    → IsCleared h v k s (clear_slot v k c s)
unfolding clear_slot
clear_slot-IsCleared h v k c s lt w one = elim (ℕ_discrete c 1) [
  | yes e ↦ record {
    tree = null;
    is_removed = ground (arith, e, used-not_null (s k) one);
    is_sub = tt;
    slots = λ m l. sym (all_null (update s k null) (omega (arith, e, w.0, less)) m l);
    trimmed = λ i q. tt;
  }
  | no ne ↦ record {
    tree = node (c - 1) (update s k null);
    is_removed = ground (arith, ne, w.0, less, used-not_null (s k) one);
    is_sub = (omega (arith, w.0, less), update-IsSub h s k null w.1 (IsSub-null h));
    slots = λ m l. refl;
    trimmed = λ i q.
        subst (λ n. NoEmpty h i (node (c - 1) (update s n null))) q
          (NoEmpty-cleared h i (c - 1) s (omega (arith, ne, w.0, less)));
  }
]
  where
    less : occupied (update s k null) + 1 ≡ occupied s
    less = omega (arith, occupied-update s k null lt, one)

remove_leaf :
    (i c : ℕ) (s : ℕ → Slot) (x : Slot)
    → s (level_index i 0) ≡ x
    → IsSub 1 (node c s)
    → IsSub 0 x
    → Removes 0 i (node c s) (remove_at 0 i (node c s))
unfolding lookup_at agree
remove_leaf i c s null e w u = rw (at_none i c s (ap leaf_of e)) (ap leaf_of e)
  where
    at_none :
        (i c : ℕ) (s : ℕ → Slot)
        → leaf_of (s (level_index i 0)) ≡ none
        → remove_at 0 i (node c s) ≡ absent
    at_none i c s e = unfold remove_at in (rw (remove_at, e) refl)
remove_leaf i c s (leaf v) e w u =
    let z = clear_slot-IsCleared 0 v k c s (level_index_lt i 0) w (ap in_use e) in
    rw (at_leaf (ap leaf_of e), z.is_removed)
      (
        ap leaf_of e,
        z.is_sub,
        λ j. ap leaf_of (z.slots _ (level_index_lt j 0)) ∙ without j,
        z.trimmed i refl,
      )
  where
    k : ℕ
    k = level_index i 0

    at_leaf : leaf_of (s k) ≡ some v → remove_at 0 i (node c s) ≡ clear_slot v k c s
    at_leaf e = unfold remove_at in (rw (remove_at, e) refl)

    without :
        (j : ℕ)
        → leaf_of (update s k null (level_index j 0))
          ≡ (if k == level_index j 0 then none else leaf_of (s (level_index j 0)))
    without j = ground arith
remove_leaf i c s (node d q) e w u = absurd u

-- The removal below is done, and leaves `t'` for the slot.
changed :
    (l i v k : ℕ) (s s' : ℕ → Slot) (t' : Slot)
    → k ≡ level_index i (suc l)
    → ((j : ℕ) → lookup_at l j t' ≡ (if agree l i j then none else lookup_at l j (s k)))
    → ((m : ℕ) → m < 64 → s' m ≡ update s k t' m)
    → (j : ℕ)
    → lookup_at l j (s' (level_index j (suc l)))
      ≡ (if agree (suc l) i j then none else lookup_at l j (s (level_index j (suc l))))
unfolding agree
changed l i v k s s' t' at h slots j = elim (ℕ_discrete k (level_index j (suc l))) [
  | yes e ↦
      let here : update s k t' (level_index j (suc l)) ≡ t' = ground (arith, e) in
      let old = ap (λ (n : ℕ). lookup_at l j (s n)) e in
      rw (slots _ (level_index_lt j (suc l)), here) (ground (arith, e, at, h j, old))
  | no ne ↦
      let there : update s k t' (level_index j (suc l)) ≡ s (level_index j (suc l)) =
        ground (arith, ne) in
      rw (slots _ (level_index_lt j (suc l)), there) (ground (arith, ne, at))
]

pub lookup-null : (l i : ℕ) → lookup_at l i null ≡ none
unfolding lookup_at
lookup-null zero i = refl
lookup-null (suc l) i = lookup-null l i

not_null : (l i v : ℕ) (t : Slot) → IsSub (suc l) t → lookup_at l i t ≡ some v → in_use t ≡ 1
unfolding lookup_at
not_null l i v (leaf x) w e = absurd w
not_null l i v (node c s) w e = refl
not_null l i v null w e = cc (lookup-null l i)

remove_below :
    (l i c : ℕ) (s : ℕ → Slot) (r : Removed)
    → IsSub (suc (suc l)) (node c s)
    → Removes l i (s (level_index i (suc l))) r
    → Removes (suc l) i (node c s) (above (level_index i (suc l)) c s r)
unfolding above lookup_at
remove_below l i c s absent w e = e
remove_below l i c s panicked w e = e
remove_below l i c s (removed v null) w (e, u, h, _) =
    let one = not_null l i v (s (level_index i (suc l))) (w.1 _) e in
    let z =
      clear_slot-IsCleared (suc l) v (level_index i (suc l)) c s (level_index_lt i (suc l)) w one in
    rw z.is_removed (
      e,
      z.is_sub,
      changed l i v (level_index i (suc l)) s (slot_of z.tree) null refl h z.slots,
      z.trimmed i refl,
    )
remove_below l i c s (removed v (leaf x)) w (e, u, h, _) = absurd u
remove_below l i c s (removed v (node d q)) w (e, u, h, trim) =
    let one = not_null l i v (s (level_index i (suc l))) (w.1 _) e in
    (
      e,
      (
        omega (
          arith,
          w.0,
          one,
          occupied-update s (level_index i (suc l)) (node d q) (level_index_lt i (suc l)),
        ),
        update-IsSub (suc l) s (level_index i (suc l)) (node d q) w.1 u,
      ),
      changed l i v (level_index i (suc l)) s (update s (level_index i (suc l)) (node d q))
          (node d q) refl h (λ m _. refl),
      NoEmpty-node l i c (update s (level_index i (suc l)) (node d q)) (node d q)
          (omega (
            arith,
            w.0,
            one,
            occupied-update s (level_index i (suc l)) null (level_index_lt i (suc l)),
          ))
          (ground arith) trim,
    )

pub remove_at-Removes : (l i : ℕ) (t : Slot) → IsSub (suc l) t → Removes l i t (remove_at l i t)
unfolding remove_at
remove_at-Removes zero i null w = lookup-null 0 i
remove_at-Removes (suc l) i null w = lookup-null (suc l) i
remove_at-Removes zero i (leaf x) w = absurd w
remove_at-Removes (suc l) i (leaf x) w = absurd w
remove_at-Removes zero i (node c s) w = remove_leaf i c s (s (level_index i 0)) refl w (w.1 _)
remove_at-Removes (suc l) i (node c s) w =
    remove_below l i c s _ w (remove_at-Removes l i (s (level_index i (suc l))) (w.1 _))
