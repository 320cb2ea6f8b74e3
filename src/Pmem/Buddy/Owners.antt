-- ===== src/Pmem/Buddy/Owners.antt =====
-- pmem_nalloc with the owners of the pages, and pmem_nfree after it.
use operating_system_osv.Base.{
  ℕ, ◌+◌, ◌≤◌, ◌<◌, ◌≡◌, ◌≢◌, refl, sym, ◌∙◌, subst, ◌⊎◌, inl, inr, List, ◌∷◌, update, update_self,
  arith, In, pow_pos, ℕ_discrete,
}
use operating_system_osv.Pmem.Orders.{max_order}
use operating_system_osv.Pmem.Buddy.{
  Pmem, Found, found, exhausted, panicked, buddy_nalloc, buddy_nfree,
}
use operating_system_osv.Pmem.Buddy.Cover.{
  inside, list_cover, levels, free_cover, inside_self, inside-le-levels, levels-update,
}
use operating_system_osv.Pmem.Buddy.Alloc.{IsClaimed, Allocates, buddy_nalloc-Allocates}
use operating_system_osv.Pmem.Buddy.Owned.{IsHeld, IsOwned}
use operating_system_osv.Pmem.Buddy.Merge.{IsHeld-same}
use operating_system_osv.Pmem.Buddy.Free.{without, buddy_nfree-IsFreed}

-- The held blocks and the one of order `o` at `p`.
abbrev pub with_block : ℕ → ℕ → (ℕ → List ℕ) → ℕ → List ℕ
with_block o p held = update held o (p ∷ held o)

with_block-cover :
    (o p : ℕ) (held : ℕ → List ℕ) (j : ℕ)
    → o ≤ max_order
    → levels 11 (with_block o p held) j ≡ levels 11 held j + inside o p j
with_block-cover o p held j h =
    let cons : list_cover o (p ∷ held o) j ≡ inside o p j + list_cover o (held o) j =
      unfold list_cover in refl in
    omega (arith, cons, levels-update 11 held o (p ∷ held o) j (omega arith))

with_block-In :
    (o p : ℕ) (held : ℕ → List ℕ) (k i : ℕ)
    → In i (with_block o p held k)
    → In i (held k) ⊎ ((i ≡ p) × (o ≡ k))
with_block-In o p held k i m = elim (ℕ_discrete o k) [
  | yes e ↦ either e (subst (λ xs. In i xs) (at_o e) m)
  | no ne ↦ inl (subst (λ xs. In i xs) (elsewhere ne) m)
]
  where
    at_o : o ≡ k → with_block o p held k ≡ p ∷ held o
    at_o e = ground arith

    elsewhere : o ≢ k → with_block o p held k ≡ held k
    elsewhere ne = ground arith

    either : o ≡ k → In i (p ∷ held o) → In i (held k) ⊎ ((i ≡ p) × (o ≡ k))
    either e (inl q) = inr (q, e)
    either e (inr n) = inl (subst (λ n. In i (held n)) e n)

claimed-IsOwned :
    (s s' : Pmem) (held : ℕ → List ℕ) (p : ℕ)
    → IsOwned s held
    → s'.order p ≤ max_order
    → IsClaimed s p s'
    → IsOwned s' (with_block (s'.order p) p held)
claimed-IsOwned s s' held p v h c = record {
  wf = c.wf;
  heads = λ k i l m. entry k i l (with_block-In (s'.order p) p held k i m);
  total = λ j l. omega (
    arith,
    v.total j (subst (λ (n : ℕ). j < n) c.same_pages l),
    c.cover j,
    with_block-cover (s'.order p) p held j h,
  );
}
  where
    entry : (k i : ℕ) → k ≤ max_order → In i (held k) ⊎ ((i ≡ p) × (s'.order p ≡ k)) → IsHeld s' k i
    entry k i l (inl m) =
        let w = v.heads k i l m in
        let t = v.total i (omega (arith, w.within, pow_pos k)) in
        let covered = inside-le-levels held k i i l m in
        let same = c.frame i (omega (arith, t, covered, inside_self k i)) in
        IsHeld-same s' k i w same.0 same.1 c.same_pages
    entry k i l (inr (e, f)) =
        subst (λ (n : ℕ). IsHeld s' k n) (sym e) (subst (λ (n : ℕ). IsHeld s' n p) f mine)
      where
        mine : IsHeld s' (s'.order p) p
        mine = record {
          has_order = refl;
          counted = omega (arith, c.counted);
          aligned = c.aligned;
          within = omega (arith, c.within, c.same_pages);
        }

-- What an allocation and the freeing of its block lead to.
abbrev pub Returns : Pmem → (ℕ → List ℕ) → Found → Type 0
Returns s held (found p s') =
    IsOwned s' (with_block (s'.order p) p held)
    × IsOwned (buddy_nfree p s') (without (s'.order p) p (with_block (s'.order p) p held))
    × ((j : ℕ) → j < s.n_pages → free_cover (buddy_nfree p s') j ≡ free_cover s j)
Returns s held exhausted = Unit
Returns s held panicked = Unit

-- If every page lies in exactly one block, free or held, this stays so when pmem_nalloc gives out a
-- block, which is then held, and when pmem_nfree takes it back; then exactly the pages that were
-- free at first are free again.
pub buddy_nfree-buddy_nalloc :
    (n : ℕ) (s : Pmem) (held : ℕ → List ℕ) → IsOwned s held → Returns s held (buddy_nalloc n s)
buddy_nfree-buddy_nalloc n s held v = go (buddy_nalloc n s) (buddy_nalloc-Allocates n s v.wf)
  where
    go : (r : Found) → Allocates n s r → Returns s held r
    go exhausted a = tt
    go panicked a = tt
    go (found p s') (m, c) =
        let owned = claimed-IsOwned s s' held p v m.0 c in
        let here : In p (with_block (s'.order p) p held (s'.order p)) =
          subst (λ xs. In p xs) (sym (update_self held (s'.order p) (p ∷ held (s'.order p))))
            (inl refl) in
        let freed =
          buddy_nfree-IsFreed s' (with_block (s'.order p) p held) (s'.order p) p owned m.0 here
            c.within.0 in
        (
          owned,
          freed.owned,
          λ j l. freed.cover j (subst (λ (n : ℕ). j < n) (sym c.same_pages) l) ∙ c.cover j,
        )
