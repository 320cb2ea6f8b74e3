-- ===== src/Pmem/Buddy/Moves.antt =====
-- freeblocks_insert and freeblocks_remove: what they do to the entries and to the pages covered.
use operating_system_osv.Base.{
  ℕ, ◌+◌, ◌≤◌, ◌≡◌, ◌≢◌, refl, ◌∙◌, [], ◌∷◌, ◌++◌, update, arith, ◌⊎◌, inl, inr, ℕ_discrete, subst,
  In, In-erase, In-snoc, erase,
}
use operating_system_osv.Pmem.Orders.{max_order}
use operating_system_osv.Pmem.Buddy.{Pmem, freeblocks_insert, freeblocks_remove}
use operating_system_osv.Pmem.Buddy.Cover.{
  inside, list_cover, free_cover, IsBlock, inside_self, list_cover-append, list_cover-erase,
  levels-update, inside-le-free_cover,
}

-- A block's record says the same where the fields that it reads do.
pub IsBlock-same :
    {s : Pmem} (s' : Pmem) (o i : ℕ)
    → IsBlock s o i
    → s'.order i ≡ s.order i
    → s'.refcnt i ≡ s.refcnt i
    → s'.n_pages ≡ s.n_pages
    → IsBlock s' o i
IsBlock-same s' o i b e f g = record {
  has_order = e ∙ b.has_order;
  is_free = f ∙ b.is_free;
  aligned = b.aligned;
  positive = b.positive;
  within = rw g b.within;
}

pub remove-In : (s : Pmem) (p o i k : ℕ) → In i ((freeblocks_remove p o s).free k) → In i (s.free k)
unfolding freeblocks_remove
remove-In s p o i k m = elim (ℕ_discrete o k) [
  | yes e ↦
      subst (λ n. In i (s.free n)) e (In-erase p i (s.free o) (subst (λ xs. In i xs) (at_o e) m))
  | no ne ↦ subst (λ xs. In i xs) (elsewhere ne) m
]
  where
    at_o : o ≡ k → update s.free o (erase p (s.free o)) k ≡ erase p (s.free o)
    at_o e = ground arith

    elsewhere : o ≢ k → update s.free o (erase p (s.free o)) k ≡ s.free k
    elsewhere ne = ground arith

pub remove-cover :
    (s : Pmem) (p o j : ℕ)
    → o ≤ max_order
    → In p (s.free o)
    → free_cover (freeblocks_remove p o s) j + inside o p j ≡ free_cover s j
unfolding freeblocks_remove
remove-cover s p o j h m = omega (
  arith,
  levels-update 11 s.free o (erase p (s.free o)) j (omega arith),
  list_cover-erase o p (s.free o) j m,
)

pub insert-In :
    (s : Pmem) (p i k : ℕ)
    → In i ((freeblocks_insert p s).free k)
    → In i (s.free k) ⊎ ((i ≡ p) × (s.order p ≡ k))
unfolding freeblocks_insert
insert-In s p i k m = elim (ℕ_discrete (s.order p) k) [
  | yes e ↦ either e (In-snoc p i (s.free (s.order p)) (subst (λ xs. In i xs) (at_order e) m))
  | no ne ↦ inl (subst (λ xs. In i xs) (elsewhere ne) m)
]
  where
    at_order :
        s.order p ≡ k
        → update s.free (s.order p) (s.free (s.order p) ++ (p ∷ [])) k
          ≡ s.free (s.order p) ++ (p ∷ [])
    at_order e = ground arith

    elsewhere :
        s.order p ≢ k → update s.free (s.order p) (s.free (s.order p) ++ (p ∷ [])) k ≡ s.free k
    elsewhere ne = ground arith

    either :
        s.order p ≡ k
        → In i (s.free (s.order p)) ⊎ (i ≡ p)
        → In i (s.free k) ⊎ ((i ≡ p) × (s.order p ≡ k))
    either e (inl a) = inl (subst (λ n. In i (s.free n)) e a)
    either e (inr b) = inr (b, e)

pub insert-cover :
    (s : Pmem) (p j : ℕ)
    → s.order p ≤ max_order
    → free_cover (freeblocks_insert p s) j ≡ free_cover s j + inside (s.order p) p j
unfolding freeblocks_insert
insert-cover s p j h =
    let one : list_cover (s.order p) (p ∷ []) j ≡ inside (s.order p) p j + 0 =
      unfold list_cover in refl in
    omega (
      arith,
      one,
      levels-update 11 s.free (s.order p) (s.free (s.order p) ++ (p ∷ [])) j (omega arith),
      list_cover-append (s.order p) (s.free (s.order p)) (p ∷ []) j,
    )

-- An entry is covered, so a page that no list covers is no entry.
pub not_entry :
    (s : Pmem) (o i p : ℕ) → o ≤ max_order → In i (s.free o) → free_cover s p ≡ 0 → p ≢ i
not_entry s o i p h m z e =
    let c : free_cover s i ≡ 0 = subst (λ (k : ℕ). free_cover s k ≡ 0) e z in
    omega (arith, c, inside-le-free_cover s o i i h m, inside_self o i)
