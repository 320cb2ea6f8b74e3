-- ===== src/Radix/Insert.antt =====
-- radix_tree_insert on trees of full height.
use operating_system_osv.Base.{
  ℕ, zero, suc, ◌+◌, ◌≤◌, ◌<◌, ◌≡◌, ◌≢◌, refl, ap, sym, ◌∙◌, none, some, if◌then◌else◌, update,
  arith, ℕ_discrete,
}
use operating_system_osv.Radix.{
  Slot, null, leaf, node, new_node, leaf_of, Outcome, done, alloc_error, node_exist, level_index,
  lookup_at, insert_at, add_child, open_child,
}
use operating_system_osv.Radix.Slots.{in_use, IsSub, occupied-update, update-IsSub, new_node-IsSub}
use operating_system_osv.Radix.Digits.{agree}

-- What an insertion at `i` has done to the lookups in a tree of level `l`, by its answer.
abbrev pub Answers : ℕ → ℕ → ℕ → ℕ → Slot → Slot → Outcome → Type 0
Answers l i v b t t' done =
    (lookup_at l i t ≡ none)
    × ((j : ℕ) → lookup_at l j t' ≡ (if agree l i j then some v else lookup_at l j t))
Answers l i v b t t' node_exist =
    ((w : ℕ) × (lookup_at l i t ≡ some w)) × ((j : ℕ) → lookup_at l j t' ≡ lookup_at l j t)
Answers l i v b t t' alloc_error = (b < l) × ((j : ℕ) → lookup_at l j t' ≡ lookup_at l j t)

abbrev pub Inserts : ℕ → ℕ → ℕ → ℕ → Slot → Outcome × Slot → Type 0
Inserts l i v b t (r, t') = IsSub (suc l) t' × (in_use t' ≡ 1) × Answers l i v b t t' r

pub level_index_lt : (i l : ℕ) → level_index i l < 64
unfolding level_index
level_index_lt i l = omega arith

insert_null :
    (i v b c : ℕ) (s : ℕ → Slot)
    → s (level_index i 0) ≡ null
    → insert_at 0 i v b (node c s) ≡ (done, node (c + 1) (update s (level_index i 0) (leaf v)))
unfolding insert_at
insert_null i v b c s e = rw (e, add_child) refl

insert_taken :
    (i v b c : ℕ) (s : ℕ → Slot) {x : ℕ}
    → s (level_index i 0) ≡ leaf x
    → insert_at 0 i v b (node c s) ≡ (node_exist, node c s)
unfolding insert_at
insert_taken i v b c s e = rw (e, add_child) refl

at_leaf :
    (i v b c : ℕ) (s : ℕ → Slot) (x : Slot)
    → s (level_index i 0) ≡ x
    → IsSub 1 (node c s)
    → IsSub 0 x
    → Inserts 0 i v b (node c s) (insert_at 0 i v b (node c s))
unfolding lookup_at agree
at_leaf i v b c s null e w u = rw (insert_null i v b c s e) (
  (
    omega (
      arith,
      w.0,
      occupied-update s (level_index i 0) (leaf v) (level_index_lt i 0),
      ap in_use e,
    ),
    update-IsSub 0 s (level_index i 0) (leaf v) w.1 tt,
  ),
  refl,
  (ap leaf_of e, λ j. ground arith),
)
at_leaf i v b c s (leaf x) e w u =
    rw (insert_taken i v b c s e) (w, refl, ((x, ap leaf_of e), λ j. refl))
at_leaf i v b c s (node d q) e w u = absurd u

-- The node's slot on the way to `i` holds the child that the insertion below leaves.
descended :
    (l i v b b' c more : ℕ) (s : ℕ → Slot) (child child' : Slot) (r : Outcome)
    → IsSub (suc (suc l)) (node c s)
    → more + in_use (s (level_index i (suc l))) ≡ 1
    → ((j : ℕ) → lookup_at l j child ≡ lookup_at l j (s (level_index i (suc l))))
    → b ≤ suc b'
    → Inserts l i v b' child (r, child')
    → Inserts
        (suc l)
        i
        v
        b
        (node c s)
        (r, node (c + more) (update s (level_index i (suc l)) child'))
unfolding lookup_at agree
descended l i v b b' c more s child child' r w m same le (sub, one, ans) = (
  (
    omega (arith, w.0, occupied-update s k child' (level_index_lt i (suc l)), m, one),
    update-IsSub (suc l) s k child' w.1 sub,
  ),
  refl,
  answer r ans,
)
  where
    k : ℕ
    k = level_index i (suc l)

    elsewhere :
        (j : ℕ)
        → k ≢ level_index j (suc l)
        → update s k child' (level_index j (suc l)) ≡ s (level_index j (suc l))
    elsewhere j ne = ground arith

    at_k : (j : ℕ) → k ≡ level_index j (suc l) → update s k child' (level_index j (suc l)) ≡ child'
    at_k j e = ground arith

    kept :
        ((j : ℕ) → lookup_at l j child' ≡ lookup_at l j child)
        → (j : ℕ)
        → lookup_at (suc l) j (node (c + more) (update s k child')) ≡ lookup_at (suc l) j (node c s)
    kept h j = elim (ℕ_discrete k (level_index j (suc l))) [
      | yes e ↦ ap (lookup_at l j) (at_k j e) ∙ h j ∙ same j ∙ ap (λ (n : ℕ). lookup_at l j (s n)) e
      | no ne ↦ ap (lookup_at l j) (elsewhere j ne)
    ]

    stored :
        ((j : ℕ) → lookup_at l j child' ≡ (if agree l i j then some v else lookup_at l j child))
        → (j : ℕ)
        → lookup_at (suc l) j (node (c + more) (update s k child'))
          ≡ (if agree (suc l) i j then some v else lookup_at (suc l) j (node c s))
    stored h j = elim (ℕ_discrete k (level_index j (suc l))) [
      | yes e ↦
          let below = same j ∙ ap (λ (n : ℕ). lookup_at l j (s n)) e in
          rw (at_k j e) (ground (arith, e, h j, below))
      | no ne ↦ rw (elsewhere j ne) (ground (arith, ne))
    ]

    answer :
        (r : Outcome)
        → Answers l i v b' child child' r
        → Answers (suc l) i v b (node c s) (node (c + more) (update s k child')) r
    answer done (e, h) = (sym (same i) ∙ e, stored h)
    answer node_exist ((x, e), h) = ((x, sym (same i) ∙ e), kept h)
    answer alloc_error (lt, h) = (omega arith, kept h)

insert_full :
    (l i v b c : ℕ) (s : ℕ → Slot)
    → open_child b (s (level_index i (suc l))) ≡ none
    → insert_at (suc l) i v b (node c s) ≡ (alloc_error, node c s)
unfolding insert_at
insert_full l i v b c s e = rw (insert_at, e) refl

insert_below :
    (l i v b c b' more : ℕ) (s : ℕ → Slot) (child : Slot)
    → open_child b (s (level_index i (suc l))) ≡ some (b', more, child)
    → insert_at (suc l) i v b (node c s) ≡ (
      (insert_at l i v b' child).0,
      node (c + more) (update s (level_index i (suc l)) (insert_at l i v b' child).1),
    )
unfolding insert_at
insert_below l i v b c b' more s child e = rw (insert_at, e) refl

missing : (l j : ℕ) → lookup_at l j new_node ≡ lookup_at l j null
unfolding lookup_at
missing zero j = refl
missing (suc l) j = refl

-- An insertion below a node, by what the slot on its way holds.
at_node :
    (l i v c : ℕ) (s : ℕ → Slot)
    → ((b : ℕ) (t : Slot)
        → IsSub (suc l) t
        → in_use t ≡ 1
        → Inserts l i v b t (insert_at l i v b t))
    → IsSub (suc (suc l)) (node c s)
    → (b : ℕ) (x : Slot) → s (level_index i (suc l)) ≡ x
    → IsSub (suc l) x
    → Inserts (suc l) i v b (node c s) (insert_at (suc l) i v b (node c s))
unfolding open_child
at_node l i v c s ih w zero null e u =
    rw (insert_full l i v 0 c s (ap (open_child 0) e)) (w, refl, (omega arith, λ j. refl))
at_node l i v c s ih w (suc b) null e u =
    rw (insert_below l i v (suc b) c b 1 s new_node (ap (open_child (suc b)) e)) (
      descended l i v (suc b) b c 1 s new_node _ _ w (omega (arith, ap in_use e))
        (λ j. missing l j ∙ ap (lookup_at l j) (sym e)) (omega arith)
        (ih b new_node (new_node-IsSub l) refl))
at_node l i v c s ih w b (leaf x) e u = absurd u
at_node l i v c s ih w zero (node d q) e u =
    rw (insert_below l i v 0 c 0 0 s (node d q) (ap (open_child 0) e)) (
      descended l i v 0 0 c 0 s (node d q) _ _ w (omega (arith, ap in_use e))
        (λ j. ap (lookup_at l j) (sym e)) (omega arith) (ih 0 (node d q) u refl))
at_node l i v c s ih w (suc b) (node d q) e u =
    rw (insert_below l i v (suc b) c (suc b) 0 s (node d q) (ap (open_child (suc b)) e)) (
      descended l i v (suc b) (suc b) c 0 s (node d q) _ _ w (omega (arith, ap in_use e))
        (λ j. ap (lookup_at l j) (sym e)) (omega arith) (ih (suc b) (node d q) u refl))

pub insert_at-Inserts :
    (l i v b : ℕ) (t : Slot)
    → IsSub (suc l) t
    → in_use t ≡ 1
    → Inserts l i v b t (insert_at l i v b t)
insert_at-Inserts zero i v b null w o = absurd (omega arith)
insert_at-Inserts zero i v b (leaf x) w o = absurd w
insert_at-Inserts zero i v b (node c s) w o = at_leaf i v b c s (s (level_index i 0)) refl w (w.1 _)
insert_at-Inserts (suc l) i v b null w o = absurd (omega arith)
insert_at-Inserts (suc l) i v b (leaf x) w o = absurd w
insert_at-Inserts (suc l) i v b (node c s) w o =
    at_node l i v c s (insert_at-Inserts l i v) w b (s (level_index i (suc l))) refl (w.1 _)
