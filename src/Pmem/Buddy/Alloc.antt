-- ===== src/Pmem/Buddy/Alloc.antt =====
-- pmem_nalloc, after the boot allocator has handed over.
use operating_system_osv.Base.{
  if◌then◌else◌, ◌==◌, ◌⊎◌, inr, inl, subst, ℕ_discrete, ℕ, ◌+◌, ◌-◌, ◌%◌, ◌^◌, ◌<◌, ◌≤◌, ◌≡◌, ◌≢◌,
  refl, update, arith, Option, none, some,
}
use operating_system_osv.Pmem.Orders.{
  get_min_page_order, max_order, IsMinOrder, get_min_page_order_lem,
}
use operating_system_osv.Pmem.Buddy.{
  Pmem, Found, found, exhausted, panicked, find_freeblock, claim, alloc_order, buddy_nalloc,
}
use operating_system_osv.Pmem.Buddy.Moves.{IsBlock-same, not_entry}
use operating_system_osv.Pmem.Buddy.Cover.{inside, free_cover, IsWf, inside_self}
use operating_system_osv.Pmem.Buddy.Search.{IsTaken, AllEmpty, Finds, find_freeblock-Finds}

-- What an allocation of `n` pages does: a free aligned block of the least sufficient order, claimed,
-- with none of its pages in the free lists any more and all other free pages still there; or no
-- block of that order or a larger one is free.
pub record IsClaimed (s : Pmem) (p : ℕ) (s' : Pmem) : Type 0 where
  pub wf : IsWf s'
  pub counted : s'.refcnt p ≡ 1
  pub aligned : p % 2 ^ s'.order p ≡ 0
  pub cover : (j : ℕ) → free_cover s' j + inside (s'.order p) p j ≡ free_cover s j
  pub same_pages : s'.n_pages ≡ s.n_pages
  pub frame : (i : ℕ) → free_cover s i ≡ 0 → (s'.order i ≡ s.order i) × (s'.refcnt i ≡ s.refcnt i)
  pub within : (0 < p) × (p + 2 ^ s'.order p ≤ s.n_pages)
  pub apart : (j : ℕ) → inside (s'.order p) p j ≡ 1 → free_cover s' j ≡ 0

abbrev pub Allocates : ℕ → Pmem → Found → Type 0
Allocates n s (found p s') = IsMinOrder n (some (s'.order p)) × IsClaimed s p s'
Allocates n s exhausted = (o : ℕ) × IsMinOrder n (some o) × AllEmpty (max_order + 1 - o) o s
Allocates n s panicked = (n ≡ 0) ⊎ (1024 < n)

claimed : ℕ → Pmem → Pmem
claimed p s = record s { refcnt = update s.refcnt p 1 }

claim-found :
    (p : ℕ) (s : Pmem) → s.refcnt p ≡ 0 → 0 < p → claim (found p s) ≡ found p (claimed p s)
unfolding claim claimed
claim-found p s e h = ground arith

claimed-IsWf : (s : Pmem) (p : ℕ) → IsWf s → free_cover s p ≡ 0 → IsWf (claimed p s)
unfolding claimed
claimed-IsWf s p w z = record {
  block = λ k i l m.
      let ne : p ≢ i = not_entry s k i p l m z in
      IsBlock-same _ k i (w.block k i l m) refl (ground arith) refl;
  disjoint = w.disjoint;
}

claimed_frame :
    (o p : ℕ) (s s' : Pmem)
    → IsWf s
    → IsTaken s o p s'
    → (i : ℕ) → free_cover s i ≡ 0
    → ((claimed p s').order i ≡ s.order i) × ((claimed p s').refcnt i ≡ s.refcnt i)
unfolding claimed
claimed_frame o p s s' w t i z =
    let f = t.frame i z in
    let at_p : p ≢ i =
      λ e. omega (arith, z, t.cover i, subst (λ (k : ℕ). inside o p k ≡ 1) e (inside_self o p)) in
    (f.0, ground (arith, f))

claim-Allocates :
    (n o p : ℕ) (s s' : Pmem)
    → IsWf s
    → IsMinOrder n (some o)
    → IsTaken s o p s'
    → Allocates n s (claim (found p s'))
unfolding claimed
claim-Allocates n o p s s' w m t =
    let b = t.block in
    let apart : (j : ℕ) → inside o p j ≡ 1 → free_cover s' j ≡ 0 =
      λ j e. omega (arith, e, t.cover j, w.disjoint j) in
    rw (claim-found p s' b.is_free b.positive) (
      rw b.has_order m,
      record {
        wf = claimed-IsWf s' p t.wf (apart p (inside_self o p));
        counted = ground arith;
        aligned = rw b.has_order b.aligned;
        cover = λ j. rw b.has_order (t.cover j);
        same_pages = t.same_pages;
        frame = claimed_frame o p s s' w t;
        within =
            (b.positive, rw b.has_order (subst (λ (k : ℕ). p + 2 ^ o ≤ k) t.same_pages b.within));
        apart = λ j e. apart j (rw b.has_order at e);
      },
    )

alloc_order-Allocates :
    (n : ℕ) (s : Pmem) (m : Option ℕ) → IsWf s → IsMinOrder n m → Allocates n s (alloc_order m s)
unfolding alloc_order
alloc_order-Allocates n s none w m = inr m
alloc_order-Allocates n s (some o) w m =
    go (find_freeblock (max_order + 1 - o) o s)
      (find_freeblock-Finds (max_order + 1 - o) o s w (omega (arith, m.0)))
  where
    go : (r : Found) → Finds s (max_order + 1 - o) o r → Allocates n s (claim r)
    go (found p s') t = claim-Allocates n o p s s' w m t
    go exhausted t = unfold claim in (o, m, t)
    go panicked t = elim t [ ]

-- With well-formed free lists, pmem_nalloc for `n` pages hands out a block of the least order that
-- holds them: aligned, with reference count 1, every page of it free before and in no free list
-- after, while every other page stays exactly as free as it was and the lists stay well formed. It
-- fails only if no block of that order or a larger one is free, and panics only for no pages or more
-- than 1024.
pub buddy_nalloc-Allocates : (n : ℕ) (s : Pmem) → IsWf s → Allocates n s (buddy_nalloc n s)
unfolding buddy_nalloc
buddy_nalloc-Allocates n s w = elim (ℕ_discrete n 0) [
  | yes e ↦ rw e (inl refl)
  | no ne ↦
      subst (Allocates n s) (positive ne) (alloc_order-Allocates n s _ w (get_min_page_order_lem n))
]
  where
    positive :
        n ≢ 0
        → alloc_order (get_min_page_order n) s
          ≡ (if n == 0 then panicked else alloc_order (get_min_page_order n) s)
    positive ne = ground arith
