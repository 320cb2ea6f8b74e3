-- ===== src/Kmalloc/Tests.antt =====
-- Slabs and a cache of two of them.
use operating_system_osv.Base.{
  ℕ, ◌+◌, ◌*◌, ◌≤◌, ◌≡◌, ◌≢◌, refl, List, [], ◌∷◌, none, some, arith, update, inl, inr, In, ◌↔◌,
  ◌⊎◌,
}
use operating_system_osv.Kmalloc.{
  pg_size, min_objs_per_slab, Slab, KmemCache, kmem_cache_alloc, kmem_cache_free, slab_objs,
  slab_pages,
}
use operating_system_osv.Kmalloc.Slots.{Holds, count_up, slab_objs_bounds}
use operating_system_osv.Kmalloc.Cache.{Inv, Listed}
use operating_system_osv.Kmalloc.Objects.{
  HandsOut, kmem_cache_alloc_open, kmem_cache_alloc_fresh, kmem_cache_free-Inv,
}

-- Slab 5 has two slots, of which slot 1 is free; slab 6 has two, both taken.
abbrev open_slab : Slab
open_slab = record { free = some 1; freearr = some 1 ∷ none ∷ [] }

abbrev full_slab : Slab
full_slab = record { free = none; freearr = some 1 ∷ none ∷ [] }

abbrev slab_of : ℕ → Slab
slab_of = update (λ _. full_slab) 5 open_slab

abbrev slots_of : ℕ → List ℕ
slots_of = update (λ _. []) 5 (1 ∷ [])

abbrev two_slabs : KmemCache
two_slabs = record { slab = slab_of; free = 5 ∷ []; full = 6 ∷ [] }

abbrev all_full : KmemCache
all_full = record { slab = λ _. full_slab; free = []; full = 6 ∷ [] }

open_5 : (k : ℕ) → k ≡ 5 → Holds (slab_of k) (slots_of k) × (slots_of k ≢ [])
open_5 k e = rw e ((refl, omega arith, (λ m. elim m [ ]), tt), λ q. ground arith)

full_6 : (k : ℕ) → k ≡ 6 → Holds (slab_of k) (slots_of k) × (slots_of k ≡ [])
full_6 k e = rw e (tt, refl)

two_slabs-Inv : Inv two_slabs slots_of
two_slabs-Inv = record {
  open_slab = λ k m. elim m [ inl e ↦ open_5 k e | inr x ↦ elim x [ ] ];
  full_slab = λ k m. elim m [ inl e ↦ full_6 k e | inr x ↦ elim x [ ] ];
  free_distinct = ((λ m. elim m [ ]), tt);
  full_distinct = ((λ m. elim m [ ]), tt);
  apart = λ k m n. elim m [
    | inl e ↦ elim n [ inl f ↦ omega arith | inr x ↦ elim x [ ] ]
    | inr x ↦ elim x [ ]
  ];
}

all_full-Inv : Inv all_full (λ _. [])
all_full-Inv = record {
  open_slab = λ k m. elim m [ ];
  full_slab = λ k m. (tt, refl);
  free_distinct = tt;
  full_distinct = ((λ m. elim m [ ]), tt);
  apart = λ k m n. elim m [ ];
}

kmem_cache_alloc_open_example :
    HandsOut (Listed two_slabs) slots_of 5 (1 ∷ []) (kmem_cache_alloc 2 none two_slabs)
kmem_cache_alloc_open_example =
    kmem_cache_alloc_open two_slabs slots_of 2 5 [] none two_slabs-Inv refl

kmem_cache_alloc_fresh_example :
    HandsOut
      (λ m. Listed all_full m ⊎ (m ≡ 7))
      (update (λ _. []) 7 (count_up 2 0))
      7
      (count_up 2 0)
      (kmem_cache_alloc 2 (some 7) all_full)
kmem_cache_alloc_fresh_example =
    kmem_cache_alloc_fresh all_full (λ _. []) 2 7 all_full-Inv refl
      (λ m. elim m [ inl e ↦ omega arith | inr x ↦ elim x [ ] ]) (omega arith)

kmem_cache_free-Inv_example :
    Inv (kmem_cache_free 6 0 two_slabs) (update slots_of 6 (0 ∷ []))
    × In 6 (kmem_cache_free 6 0 two_slabs).free
    × ((m : ℕ) → Listed two_slabs m ↔ Listed (kmem_cache_free 6 0 two_slabs) m)
kmem_cache_free-Inv_example =
    kmem_cache_free-Inv two_slabs slots_of 6 0 two_slabs-Inv (inr (inl refl)) (λ m. elim m [ ])
      (omega arith)

slab_objs_bounds_example :
    (48 + slab_objs 48 64 * (64 + 4) ≤ slab_pages 48 64 * pg_size)
    × (min_objs_per_slab ≤ slab_objs 48 64)
slab_objs_bounds_example = slab_objs_bounds 48 64
