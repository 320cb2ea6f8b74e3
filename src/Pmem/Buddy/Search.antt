-- ===== src/Pmem/Buddy/Search.antt =====
-- find_freeblock: the block it gives is taken out of what the free lists cover and nothing else is,
-- and the free lists stay well formed.
use operating_system_osv.Base.{
  ℕ, zero, suc, ◌+◌, ◌%◌, ◌^◌, ◌≤◌, ◌<◌, ◌≡◌, ◌≢◌, refl, sym, ◌∙◌, ap, List, [], ◌∷◌, update, arith,
  ◌⊎◌, inl, inr, pow_pos, pow_double, dec_lt, subst, even_block, In,
}
use operating_system_osv.Pmem.Orders.{max_order}
use operating_system_osv.Pmem.Buddy.{
  Pmem, Found, found, exhausted, panicked, freeblocks_insert, freeblocks_remove, split_block,
  split_found, find_freeblock,
}
use operating_system_osv.Pmem.Buddy.Moves.{
  IsBlock-same, remove-In, remove-cover, insert-In, insert-cover, not_entry,
}
use operating_system_osv.Pmem.Buddy.Cover.{
  inside, free_cover, IsBlock, IsWf, inside_double, inside_self,
}

-- Block `p` of order `o` has been taken out of the free lists of `s`, which leaves `s'`.
pub record IsTaken (s : Pmem) (o p : ℕ) (s' : Pmem) : Type 0 where
  pub wf : IsWf s'
  pub block : IsBlock s' o p
  pub cover : (j : ℕ) → free_cover s' j + inside o p j ≡ free_cover s j
  pub same_pages : s'.n_pages ≡ s.n_pages
  -- Pages that no free block covers keep their records.
  pub frame : (i : ℕ) → free_cover s i ≡ 0 → (s'.order i ≡ s.order i) × (s'.refcnt i ≡ s.refcnt i)

-- The free lists of order `o` and of the `rounds - 1` orders above.
abbrev pub AllEmpty : ℕ → ℕ → Pmem → Type 0
AllEmpty zero o s = Unit
AllEmpty (suc rounds) o s = (s.free o ≡ []) × AllEmpty rounds (o + 1) s

abbrev pub Finds : Pmem → ℕ → ℕ → Found → Type 0
Finds s rounds o (found p s') = IsTaken s o p s'
Finds s rounds o exhausted = AllEmpty rounds o s
Finds s rounds o panicked = ⊥

remove_head :
    (s : Pmem) (o p : ℕ) (ps : List ℕ)
    → IsWf s
    → o ≤ max_order
    → s.free o ≡ p ∷ ps
    → IsTaken s o p (freeblocks_remove p o s)
remove_head s o p ps w h e =
    let here : In p (s.free o) = rw e (inl refl) in
    let same : (k i : ℕ) → IsBlock s k i → IsBlock (freeblocks_remove p o s) k i = λ k i b.
      IsBlock-same (freeblocks_remove p o s) k i b (unfold freeblocks_remove in refl)
        (unfold freeblocks_remove in refl) (unfold freeblocks_remove in refl) in
    record {
      wf = record {
        block = λ k i l m. same k i (w.block k i l (remove-In s p o i k m));
        disjoint = λ j. omega (arith, remove-cover s p o j h here, w.disjoint j);
      };
      block = same o p (w.block o p h here);
      cover = λ j. remove-cover s p o j h here;
      same_pages = unfold freeblocks_remove in refl;
      frame = λ i z. unfold freeblocks_remove in (refl, refl);
    }

-- The state after a split of `p` into two blocks of order `o`, the second at `b`.
halves : ℕ → ℕ → ℕ → Pmem → Pmem
halves p b o s = freeblocks_insert b (record s { order = update (update s.order p o) b o })

split_block-eq :
    (s : Pmem) (o p : ℕ)
    → p % 2 ^ (o + 1) ≡ 0
    → p + 2 ^ (o + 1) ≤ s.n_pages
    → split_block p o s ≡ found p (halves p (p + 2 ^ o) o s)
unfolding split_block halves
split_block-eq s o p a w =
    ground (arith, even_block o p a, pow_double o, pow_pos o, ap (λ (n : ℕ). 2 ^ n) (add_one o))
  where
    add_one : (n : ℕ) → n + 1 ≡ suc n
    add_one n = omega arith

module _ {s₀ s : Pmem} {o p : ℕ} (w : IsWf s₀) (h : o < max_order)
    (t : IsTaken s₀ (o + 1) p s) where
  abbrev upper : ℕ
  upper = p + 2 ^ o

  abbrev marked : Pmem
  marked = record s { order = update (update s.order p o) upper o }

  size : 2 ^ (o + 1) ≡ 2 ^ o + 2 ^ o
  size = ap (λ (n : ℕ). 2 ^ n) (omega arith) ∙ pow_double o

  uncovered : (j : ℕ) → inside (o + 1) p j ≡ 1 → free_cover s j ≡ 0
  uncovered j e = omega (arith, e, t.cover j, w.disjoint j)

  p_uncovered : free_cover s p ≡ 0
  p_uncovered = uncovered p (inside_self (o + 1) p)

  in_upper : inside (o + 1) p upper ≡ 1
  in_upper = ground (arith, size, pow_pos o)

  upper_uncovered : free_cover s upper ≡ 0
  upper_uncovered = uncovered upper in_upper

  upper_order : marked.order upper ≡ o
  upper_order = ground arith

  IsBlock-old : (k i : ℕ) → k ≤ max_order → In i (s.free k) → IsBlock (halves p upper o s) k i
  unfolding halves freeblocks_insert
  IsBlock-old k i l m =
      let ne : p ≢ i = not_entry s k i p l m p_uncovered in
      let ne' : upper ≢ i = not_entry s k i upper l m upper_uncovered in
      IsBlock-same _ k i (t.wf.block k i l m) (ground arith) (ground arith) refl

  IsBlock-lower : IsBlock (halves p upper o s) o p
  unfolding halves freeblocks_insert
  IsBlock-lower = record {
    has_order = ground (arith, pow_pos o);
    is_free = ground (arith, pow_pos o, t.block.is_free);
    aligned = (even_block o p t.block.aligned).0;
    positive = t.block.positive;
    within = omega (arith, t.block.within, size);
  }

  IsBlock-upper : IsBlock (halves p upper o s) o upper
  unfolding halves freeblocks_insert
  IsBlock-upper = record {
    has_order = ground arith;
    is_free = ground arith;
    aligned = (even_block o p t.block.aligned).2;
    positive = omega (arith, t.block.positive);
    within = omega (arith, t.block.within, size);
  }

  halves_cover : (j : ℕ) → free_cover (halves p upper o s) j ≡ free_cover s j + inside o upper j
  unfolding halves
  halves_cover j =
      subst
        (λ (k : ℕ).
          free_cover (freeblocks_insert upper marked) j ≡ free_cover s j + inside k upper j)
        upper_order (insert-cover marked upper j (omega (arith, upper_order)))

  halves_frame :
      (i : ℕ)
      → free_cover s₀ i ≡ 0
      → ((halves p upper o s).order i ≡ s₀.order i) × ((halves p upper o s).refcnt i ≡ s₀.refcnt i)
  unfolding halves freeblocks_insert
  halves_frame i z =
      let f = t.frame i z in
      let within : inside (o + 1) p i ≡ 0 = omega (arith, t.cover i, z) in
      let at_p : p ≢ i = λ e.
        omega
          (arith, within, subst (λ (k : ℕ). inside (o + 1) p k ≡ 1) e (inside_self (o + 1) p)) in
      let at_upper : upper ≢ i =
        λ e. omega (arith, within, subst (λ (k : ℕ). inside (o + 1) p k ≡ 1) e in_upper) in
      (ground (arith, f), ground (arith, f))

  halves-IsTaken : IsTaken s₀ o p (halves p upper o s)
  halves-IsTaken = record {
    wf = record {
      block = λ k i l m. entry k i l (insert-In marked upper i k (unfold halves in m));
      disjoint = λ j. omega (arith, total j, w.disjoint j);
    };
    block = IsBlock-lower;
    cover = total;
    same_pages = unfold halves freeblocks_insert in t.same_pages;
    frame = halves_frame;
  }
    where
      total : (j : ℕ) → free_cover (halves p upper o s) j + inside o p j ≡ free_cover s₀ j
      total j = omega (arith, halves_cover j, inside_double o p j, t.cover j)

      entry :
          (k i : ℕ)
          → k ≤ max_order
          → In i (s.free k) ⊎ ((i ≡ upper) × (marked.order upper ≡ k))
          → IsBlock (halves p upper o s) k i
      entry k i l (inl m) = IsBlock-old k i l m
      entry k i l (inr (e, f)) =
          subst (λ (n : ℕ). IsBlock (halves p upper o s) k n) (sym e)
            (subst (λ (n : ℕ). IsBlock (halves p upper o s) n upper) (sym upper_order ∙ f)
              IsBlock-upper)

split_found-Finds :
    (s : Pmem) (rounds o : ℕ) (r : Found)
    → IsWf s
    → o < max_order
    → s.free o ≡ []
    → Finds s rounds (o + 1) r
    → Finds s (suc rounds) o (split_found o r)
unfolding split_found
split_found-Finds s rounds o (found p s') w h e t =
    rw (split_block-eq s' o p t.block.aligned t.block.within) (halves-IsTaken w h t)
split_found-Finds s rounds o exhausted w h e t = (e, t)
split_found-Finds s rounds o panicked w h e t = t

find_freeblock-cons :
    (rounds o : ℕ) (s : Pmem) (p : ℕ) (ps : List ℕ)
    → s.free o ≡ p ∷ ps
    → find_freeblock (suc rounds) o s ≡ found p (freeblocks_remove p o s)
unfolding find_freeblock
find_freeblock-cons rounds o s p ps e = rw (e, find_freeblock)

find_freeblock-nil :
    (rounds o : ℕ) (s : Pmem)
    → s.free o ≡ []
    → find_freeblock (suc rounds) o s ≡ split_found o (find_freeblock rounds (o + 1) s)
unfolding find_freeblock
find_freeblock-nil rounds o s e = rw (e, find_freeblock)

-- Searching from order `o` up finds a block of that order, which it takes out of the free lists,
-- or else all lists of order `o` and above are empty.
pub find_freeblock-Finds :
    (rounds o : ℕ) (s : Pmem)
    → IsWf s
    → rounds + o ≡ max_order + 1
    → Finds s rounds o (find_freeblock rounds o s)
find_freeblock-Finds zero o s w h = unfold find_freeblock in tt
find_freeblock-Finds (suc rounds) o s w h =
    split (find_freeblock-Finds rounds (o + 1) s w (omega arith)) (s.free o) refl
  where
    last :
        rounds ≡ 0
        → s.free o ≡ []
        → Finds s (suc rounds) o (split_found o (find_freeblock rounds (o + 1) s))
    last z e = rw z (unfold find_freeblock split_found in (e, tt))

    split :
        Finds s rounds (o + 1) (find_freeblock rounds (o + 1) s)
        → (xs : List ℕ) → s.free o ≡ xs
        → Finds s (suc rounds) o (find_freeblock (suc rounds) o s)
    split ih (p ∷ ps) e =
        rw (find_freeblock-cons rounds o s p ps e) (remove_head s o p ps w (omega arith) e)
    split ih [] e = rw (find_freeblock-nil rounds o s e) (elim (dec_lt o max_order) [
      | yes lt ↦ split_found-Finds s rounds o _ w lt e ih
      | no ge ↦ last (omega arith) e
    ])
