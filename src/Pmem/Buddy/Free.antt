-- ===== src/Pmem/Buddy/Free.antt =====
-- pmem_nfree and pmem_nalloc with the owners of the pages.
use operating_system_osv.Base.{
  ℕ, ◌+◌, ◌-◌, ◌≤◌, ◌<◌, ◌≡◌, ◌≢◌, refl, sym, subst, ◌⊎◌, inl, inr, List, update, arith, In,
  In-erase, erase, pow_pos, ℕ_discrete, dec_lt,
}
use operating_system_osv.Pmem.Orders.{max_order}
use operating_system_osv.Pmem.Buddy.{Pmem, freeblocks_insert, buddy_nfree}
use operating_system_osv.Pmem.Buddy.Cover.{
  inside, levels, free_cover, IsBlock, inside_self, inside-le-levels, levels-update,
  list_cover-erase,
}
use operating_system_osv.Pmem.Buddy.Moves.{IsBlock-same, insert-In, insert-cover, not_entry}
use operating_system_osv.Pmem.Buddy.Owned.{IsOwned, IsLoose, loose_uncovered}
use operating_system_osv.Pmem.Buddy.Merge.{
  IsHeld-same, not_held, merge_block-IsLoose, merge_block-n_pages,
}

-- The held blocks without the one of order `o` at `p`.
abbrev pub without : ℕ → ℕ → (ℕ → List ℕ) → ℕ → List ℕ
without o p held = update held o (erase p (held o))

without-cover :
    (o p : ℕ) (held : ℕ → List ℕ) (j : ℕ)
    → o ≤ max_order
    → In p (held o)
    → levels 11 (without o p held) j + inside o p j ≡ levels 11 held j
without-cover o p held j h m = omega (
  arith,
  levels-update 11 held o (erase p (held o)) j (omega arith),
  list_cover-erase o p (held o) j m,
)

without-In : (o p : ℕ) (held : ℕ → List ℕ) (k i : ℕ) → In i (without o p held k) → In i (held k)
without-In o p held k i m = elim (ℕ_discrete o k) [
  | yes e ↦ subst (λ n. In i (held n)) e (In-erase p i (held o) (subst (λ xs. In i xs) (at_o e) m))
  | no ne ↦ subst (λ xs. In i xs) (elsewhere ne) m
]
  where
    at_o : o ≡ k → without o p held k ≡ erase p (held o)
    at_o e = ground arith

    elsewhere : o ≢ k → without o p held k ≡ held k
    elsewhere ne = ground arith

-- `page->refcnt = 0` makes a held block loose.
abbrev released : ℕ → Pmem → Pmem
released p s = record s { refcnt = update s.refcnt p 0 }

released-IsLoose :
    (s : Pmem) (held : ℕ → List ℕ) (o p : ℕ)
    → IsOwned s held
    → o ≤ max_order
    → In p (held o)
    → 0 < p
    → IsLoose (released p s) (without o p held) p
released-IsLoose s held o p v h m pos =
    let w = v.heads o p h m in
    let at_p = v.total p (omega (arith, w.within, pow_pos o)) in
    let reach = inside-le-levels held o p p h m in
    let self = inside_self o p in
    let uncovered : free_cover s p ≡ 0 = omega (arith, at_p, reach, self) in
    let unheld : levels 11 (without o p held) p ≡ 0 =
      omega (arith, at_p, without-cover o p held p h m, self) in
    record {
      wf = record {
        block = λ k i l n.
            let ne : p ≢ i = not_entry s k i p l n uncovered in
            IsBlock-same (released p s) k i (v.wf.block k i l n) refl (other s p i ne) refl;
        disjoint = v.wf.disjoint;
      };
      heads = λ k i l n.
          let ne : p ≢ i = not_held (without o p held) k i p l n unheld in
          IsHeld-same (released p s) k i (v.heads k i l (without-In o p held k i n)) refl
            (other s p i ne) refl;
      order_le = rw w.has_order h;
      is_free = ground arith;
      aligned = rw w.has_order w.aligned;
      positive = pos;
      within = rw w.has_order w.within;
      total = λ j l. rw w.has_order (omega (arith, v.total j l, without-cover o p held j h m));
    }
  where
    other : (s : Pmem) (p i : ℕ) → p ≢ i → update s.refcnt p 0 i ≡ s.refcnt i
    other s p i ne = ground arith

-- Putting a loose block on its free list makes it free.
inserted-IsOwned :
    (s : Pmem) (held : ℕ → List ℕ) (q : ℕ) → IsLoose s held q → IsOwned (freeblocks_insert q s) held
inserted-IsOwned s held q v =
    let (uncovered, unheld) = loose_uncovered s held q q v (inside_self (s.order q) q) in
    record {
      wf = record {
        block = λ k i l m. entry k i l uncovered (insert-In s q i k m);
        disjoint = single;
      };
      heads = λ k i l m.
          let ne : q ≢ i = not_held held k i q l m unheld in
          IsHeld-same (freeblocks_insert q s) k i (v.heads k i l m) (keeps_order i)
            (keeps_refcnt i ne) keeps_pages;
      total = λ j l. omega (
        arith,
        v.total j (subst (λ (n : ℕ). j < n) keeps_pages l),
        insert-cover s q j v.order_le,
      );
    }
  where
    keeps_order : (i : ℕ) → (freeblocks_insert q s).order i ≡ s.order i
    keeps_order i = unfold freeblocks_insert in refl

    keeps_pages : (freeblocks_insert q s).n_pages ≡ s.n_pages
    keeps_pages = unfold freeblocks_insert in refl

    keeps_refcnt : (i : ℕ) → q ≢ i → (freeblocks_insert q s).refcnt i ≡ s.refcnt i
    keeps_refcnt i ne = unfold freeblocks_insert in (ground arith)

    beyond : (j : ℕ) → s.n_pages ≤ j → inside (s.order q) q j ≡ 0
    beyond j le = ground (arith, v.within)

    single : (j : ℕ) → free_cover (freeblocks_insert q s) j ≤ 1
    single j = elim (dec_lt j s.n_pages) [
      | yes lt ↦ omega (arith, v.total j lt, insert-cover s q j v.order_le)
      | no ge ↦
          omega (arith, beyond j (omega arith), v.wf.disjoint j, insert-cover s q j v.order_le)
    ]

    fresh : IsBlock (freeblocks_insert q s) (s.order q) q
    fresh = record {
      has_order = keeps_order q;
      is_free = unfold freeblocks_insert in (ground arith);
      aligned = v.aligned;
      positive = v.positive;
      within = rw keeps_pages v.within;
    }

    entry :
        (k i : ℕ)
        → k ≤ max_order
        → free_cover s q ≡ 0
        → In i (s.free k) ⊎ ((i ≡ q) × (s.order q ≡ k))
        → IsBlock (freeblocks_insert q s) k i
    entry k i l z (inl m) =
        IsBlock-same (freeblocks_insert q s) k i (v.wf.block k i l m) (keeps_order i)
          (keeps_refcnt i (not_entry s k i q l m z)) keeps_pages
    entry k i l z (inr (e, f)) =
        subst (λ (n : ℕ). IsBlock (freeblocks_insert q s) k n) (sym e)
          (subst (λ (n : ℕ). IsBlock (freeblocks_insert q s) n q) f fresh)

-- What freeing the held block of order `o` at `p` does: the pages of this block, and no others,
-- become free, and every page is still in exactly one block.
pub record IsFreed (s : Pmem) (held : ℕ → List ℕ) (o p : ℕ) (s' : Pmem) : Type 0 where
  pub owned : IsOwned s' (without o p held)
  pub same_pages : s'.n_pages ≡ s.n_pages
  pub cover : (j : ℕ) → j < s.n_pages → free_cover s' j ≡ free_cover s j + inside o p j

-- If every page below the end of memory lies in exactly one block, free or held, then pmem_nfree of
-- a held block other than page 0's makes its pages free, and no others, however far it merges, and
-- every page lies in exactly one block again, the freed block being held no more.
pub buddy_nfree-IsFreed :
    (s : Pmem) (held : ℕ → List ℕ) (o p : ℕ)
    → IsOwned s held
    → o ≤ max_order
    → In p (held o)
    → 0 < p
    → IsFreed s held o p (buddy_nfree p s)
unfolding buddy_nfree
buddy_nfree-IsFreed s held o p v h m pos =
    let w = v.heads o p h m in
    let loose = released-IsLoose s held o p v h m pos in
    let merged =
      merge_block-IsLoose (max_order - s.order p) p (released p s) (without o p held) loose
        (omega (arith, w.has_order, h)) in
    let same : (buddy_nfree p s).n_pages ≡ s.n_pages =
      unfold freeblocks_insert in merge_block-n_pages (max_order - s.order p) p (released p s) in
    let owned = inserted-IsOwned _ (without o p held) _ merged in
    record {
      owned = owned;
      same_pages = same;
      cover = λ j l.
          omega (arith, v.total j l, owned.total j (rw same l), without-cover o p held j h m);
    }
