-- ===== src/Pmem/Buddy/Merge.antt =====
-- merge_block: whatever it merges, the pages stay in exactly one block each, and the result is one
-- loose block.
use operating_system_osv.Base.{
  ℕ, zero, suc, ◌+◌, ◌^◌, ◌≤◌, ◌<◌, ◌≡◌, ◌≢◌, refl, ◌∙◌, ap, subst, inl, inr, List, Option, none,
  some, update, arith, In, pow_pos, pow_add_one,
}
use operating_system_osv.Pmem.Orders.{max_order}
use operating_system_osv.Pmem.Buddy.{
  Pmem, buddy_of, freeblocks_remove, mergeable, join, merge_block,
}
use operating_system_osv.Pmem.Buddy.Cover.{
  inside, levels, free_cover, inside_self, inside-le-levels,
}
use operating_system_osv.Pmem.Buddy.Moves.{IsBlock-same, remove-In, remove-cover, not_entry}
use operating_system_osv.Pmem.Buddy.Owned.{
  IsHeld, IsLoose, IsPair, buddy_of-IsPair, pair_inside, pair_bounds, buddy_In,
}

-- The state after `join`: the buddy `b` off its list, and the pair at `c` one order up.
joined : ℕ → ℕ → ℕ → Pmem → Pmem
joined o b c s = record (freeblocks_remove b o s) { order = update s.order c (o + 1) }

join-eq :
    (s : Pmem) (p b c : ℕ)
    → IsPair (s.order p) p b c
    → s.order b ≡ s.order p
    → join p b s ≡ (c, joined (s.order p) b c s)
unfolding join joined freeblocks_remove
join-eq s p b c q e = ground (arith, q.halves, e, pow_pos (s.order p))

pub IsHeld-same :
    {s : Pmem} (s' : Pmem) (o i : ℕ)
    → IsHeld s o i
    → s'.order i ≡ s.order i
    → s'.refcnt i ≡ s.refcnt i
    → s'.n_pages ≡ s.n_pages
    → IsHeld s' o i
IsHeld-same s' o i h e f g = record {
  has_order = e ∙ h.has_order;
  counted = rw f h.counted;
  aligned = h.aligned;
  within = rw g h.within;
}

-- A page that no held block covers is the first page of none.
pub not_held :
    (held : ℕ → List ℕ) (o i c : ℕ) → o ≤ max_order → In i (held o) → levels 11 held c ≡ 0 → c ≢ i
not_held held o i c h m z e = omega (
  arith,
  inside-le-levels held o i i h m,
  inside_self o i,
  subst (λ (k : ℕ). levels 11 held k ≡ 0) e z,
)

module _ {s : Pmem} {held : ℕ → List ℕ} {p b c : ℕ} (v : IsLoose s held p)
    (q : IsPair (s.order p) p b c) (lt : b < s.n_pages) (free : s.refcnt b ≡ 0)
    (same : s.order b ≡ s.order p) (small : s.order p < max_order) where
  listed : In b (s.free (s.order p))
  listed = buddy_In s held p b c v q lt free same

  cover_b :
      (j : ℕ) → free_cover (joined (s.order p) b c s) j + inside (s.order p) b j ≡ free_cover s j
  unfolding joined
  cover_b j = remove-cover s b (s.order p) j (omega (arith, small)) listed

  -- Neither free nor held blocks reach into the pair any more.
  pair_uncovered :
      (j : ℕ)
      → inside (s.order p + 1) c j ≡ 1
      → j < s.n_pages
      → (free_cover (joined (s.order p) b c s) j ≡ 0) × (levels 11 held j ≡ 0)
  pair_uncovered j e l =
      let t = v.total j l in
      let k = cover_b j in
      let h = pair_inside (s.order p) p b c j q in
      (omega (arith, t, k, h, e), omega (arith, t, k, h, e))

  b_within : b + 2 ^ s.order p ≤ s.n_pages
  b_within = (v.wf.block (s.order p) b (omega (arith, small)) listed).within

  c_uncovered : (free_cover (joined (s.order p) b c s) c ≡ 0) × (levels 11 held c ≡ 0)
  c_uncovered =
      let (cp, _, _, _, _) = pair_bounds (s.order p) p b c q in
      pair_uncovered c (inside_self (s.order p + 1) c)
        (omega (arith, cp, v.within, pow_pos (s.order p)))

  c_order : (joined (s.order p) b c s).order c ≡ s.order p + 1
  unfolding joined
  c_order = ground arith

  keeps_pages : (joined (s.order p) b c s).n_pages ≡ s.n_pages
  unfolding joined freeblocks_remove
  keeps_pages = refl

  keeps_refcnt : (i : ℕ) → (joined (s.order p) b c s).refcnt i ≡ s.refcnt i
  unfolding joined freeblocks_remove
  keeps_refcnt i = refl

  keeps_order : (i : ℕ) → c ≢ i → (joined (s.order p) b c s).order i ≡ s.order i
  unfolding joined
  keeps_order i ne = ground arith

  old_In : (k i : ℕ) → In i ((joined (s.order p) b c s).free k) → In i (s.free k)
  unfolding joined
  old_In k i m = remove-In s b (s.order p) i k m

  c_free : s.refcnt c ≡ 0
  c_free = elim q.halves [
    | inl (e, _) ↦ ap s.refcnt e ∙ v.is_free
    | inr (e, _) ↦ ap s.refcnt e ∙ free
  ]

  c_positive : 0 < c
  c_positive =
      let w = v.wf.block (s.order p) b (omega (arith, small)) listed in
      omega (arith, q.halves, v.positive, w.positive)

  c_within : c + 2 ^ (s.order p + 1) ≤ s.n_pages
  c_within = omega (arith, q.halves, b_within, v.within, pow_add_one (s.order p))

  joined-IsLoose : IsLoose (joined (s.order p) b c s) held c
  joined-IsLoose = record {
    wf = record {
      block = λ k i l m.
          let ne : c ≢ i = not_entry (joined (s.order p) b c s) k i c l m c_uncovered.0 in
          IsBlock-same _ k i (v.wf.block k i l (old_In k i m)) (keeps_order i ne) (keeps_refcnt i)
            keeps_pages;
      disjoint = λ j. omega (arith, cover_b j, v.wf.disjoint j);
    };
    heads = λ k i l m.
        let ne : c ≢ i = not_held held k i c l m c_uncovered.1 in
        IsHeld-same _ k i (v.heads k i l m) (keeps_order i ne) (keeps_refcnt i) keeps_pages;
    order_le = rw c_order (omega (arith, small));
    is_free = keeps_refcnt c ∙ c_free;
    aligned = rw c_order q.base;
    positive = c_positive;
    within = rw (c_order, keeps_pages) c_within;
    total = λ j l. rw c_order (
        omega (
          arith,
          v.total j (subst (λ (n : ℕ). j < n) keeps_pages l),
          cover_b j,
          pair_inside (s.order p) p b c j q,
        ));
  }

mergeable-some :
    (p : ℕ) (s : Pmem) (o : Option ℕ) (b : ℕ)
    → mergeable p s o ≡ some b
    → (o ≡ some b) × (s.refcnt b ≡ 0) × (s.order b ≡ s.order p)
unfolding mergeable
mergeable-some p s none b e = absurd (ground arith)
mergeable-some p s (some a) b e = ground (arith, e)

merge_block-none :
    (rounds p : ℕ) (s : Pmem)
    → mergeable p s (buddy_of s.n_pages p (s.order p)) ≡ none
    → merge_block (suc rounds) p s ≡ (p, s)
unfolding merge_block
merge_block-none rounds p s e = rw (e, merge_block) refl

merge_block-some :
    (rounds p b c : ℕ) (s s' : Pmem)
    → mergeable p s (buddy_of s.n_pages p (s.order p)) ≡ some b
    → join p b s ≡ (c, s')
    → merge_block (suc rounds) p s ≡ merge_block rounds c s'
unfolding merge_block
merge_block-some rounds p b c s s' e f =
    rw (e, merge_block) (ap (λ (x : ℕ × Pmem). merge_block rounds x.0 x.1) f)

-- With a round for each order up to MAX_ORDER, merge_block takes a loose block to a loose block.
pub merge_block-IsLoose :
    (rounds p : ℕ) (s : Pmem) (held : ℕ → List ℕ)
    → IsLoose s held p
    → rounds + s.order p ≡ max_order
    → IsLoose (merge_block rounds p s).1 held (merge_block rounds p s).0
merge_block-IsLoose zero p s held v h = unfold merge_block in v
merge_block-IsLoose (suc rounds) p s held v h =
    split (λ c s'. merge_block-IsLoose rounds c s' held)
      (mergeable p s (buddy_of s.n_pages p (s.order p))) refl
  where
    split :
        ((c : ℕ) (s' : Pmem)
          → IsLoose s' held c
          → rounds + s'.order c ≡ max_order
          → IsLoose (merge_block rounds c s').1 held (merge_block rounds c s').0)
        → (o : Option ℕ) → mergeable p s (buddy_of s.n_pages p (s.order p)) ≡ o
        → IsLoose (merge_block (suc rounds) p s).1 held (merge_block (suc rounds) p s).0
    split rec none e = rw (merge_block-none rounds p s e) v
    split rec (some b) e =
        let (is, free, same) = mergeable-some p s _ b e in
        let (lt, (c, q)) = buddy_of-IsPair s.n_pages p (s.order p) b v.aligned is in
        let small : s.order p < max_order = omega arith in
        rw (merge_block-some rounds p b c s _ e (join-eq s p b c q same)) (
          rec c (joined (s.order p) b c s) (joined-IsLoose v q lt free same small)
            (omega (arith, c_order v q lt free same small, h)))

join-n_pages : (p b : ℕ) (s : Pmem) → (join p b s).1.n_pages ≡ s.n_pages
unfolding join freeblocks_remove
join-n_pages p b s = refl

pub merge_block-n_pages : (rounds p : ℕ) (s : Pmem) → (merge_block rounds p s).1.n_pages ≡ s.n_pages
merge_block-n_pages zero p s = unfold merge_block in refl
merge_block-n_pages (suc rounds) p s =
    split (merge_block-n_pages rounds) (mergeable p s (buddy_of s.n_pages p (s.order p))) refl
  where
    split :
        ((c : ℕ) (s' : Pmem) → (merge_block rounds c s').1.n_pages ≡ s'.n_pages)
        → (o : Option ℕ) → mergeable p s (buddy_of s.n_pages p (s.order p)) ≡ o
        → (merge_block (suc rounds) p s).1.n_pages ≡ s.n_pages
    split rec none e = rw (merge_block-none rounds p s e) refl
    split rec (some b) e =
        rw (merge_block-some rounds p b (join p b s).0 s (join p b s).1 e refl)
          (rec (join p b s).0 (join p b s).1 ∙ join-n_pages p b s)
