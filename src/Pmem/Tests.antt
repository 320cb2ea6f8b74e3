-- ===== src/Pmem/Tests.antt =====
-- Orders, the boot allocator and the buddy allocator on concrete memories.
use operating_system_osv.Base.{
  ℕ, ◌+◌, ◌≤◌, ◌<◌, ◌≡◌, refl, subst, List, [], ◌∷◌, some, true, false, arith, ltb, update, In, inl,
  inr, ◌⊎◌, zero, suc,
}
use operating_system_osv.Pmem.Orders.{Tiles, insert_range, insert_range-Tiles}
use operating_system_osv.Pmem.Bitmap.{
  Boot, bitmap_isset, byte_isset, boot_nalloc, bitmap_free, panicked,
}
use operating_system_osv.Pmem.Bitmap.Find.{Run}
use operating_system_osv.Pmem.Bitmap.Booting.{
  IsPrefix, GrowsBy, boot_nalloc_prefix, boot_nalloc_gap, bitmap_free_prefix,
}
use operating_system_osv.Pmem.Buddy.{Pmem, buddy_nalloc, buddy_nfree}
use operating_system_osv.Pmem.Buddy.Cover.{IsBlock, IsWf, free_cover, levels, list_cover}
use operating_system_osv.Pmem.Buddy.Owned.{IsHeld, IsOwned}
use operating_system_osv.Pmem.Buddy.Free.{IsFreed, buddy_nfree-IsFreed}
use operating_system_osv.Pmem.Buddy.Owners.{Returns, buddy_nfree-buddy_nalloc}
use operating_system_osv.Pmem.Buddy.Alloc.{Allocates, buddy_nalloc-Allocates}

insert_range-Tiles_example : Tiles 3 13 (insert_range 20 3 13)
insert_range-Tiles_example = insert_range-Tiles 20 3 13 (omega arith) (omega arith)

-- Of 8 pages the first three are allocated; or page 1 alone.
abbrev three_used : Boot
three_used = record { bitmap = update (λ _. 0) 0 7; contig_start = 3; end = 8 }

abbrev one_used : Boot
one_used = record { bitmap = update (λ _. 0) 0 2; contig_start = 2; end = 8 }

three_used_filled : (j : ℕ) → j < 8 → bitmap_isset three_used.bitmap j ≡ ltb j 3
unfolding byte_isset
three_used_filled zero h = refl
three_used_filled (suc zero) h = refl
three_used_filled (suc (suc zero)) h = refl
three_used_filled (suc (suc (suc zero))) h = refl
three_used_filled (suc (suc (suc (suc zero)))) h = refl
three_used_filled (suc (suc (suc (suc (suc zero))))) h = refl
three_used_filled (suc (suc (suc (suc (suc (suc zero)))))) h = refl
three_used_filled (suc (suc (suc (suc (suc (suc (suc zero))))))) h = refl
three_used_filled (suc (suc (suc (suc (suc (suc (suc (suc j)))))))) h = absurd (omega arith)

three_used-IsPrefix : IsPrefix three_used
three_used-IsPrefix = record {
  bytes = λ k. ground arith;
  within = omega arith;
  filled = three_used_filled;
}

boot_nalloc_prefix_example : GrowsBy 4 three_used (boot_nalloc 4 three_used)
boot_nalloc_prefix_example = boot_nalloc_prefix 4 three_used (omega arith) three_used-IsPrefix

bitmap_free_prefix_example :
    (s' : Boot) × (bitmap_free 1 2 three_used ≡ some s') × (s'.contig_start ≡ 1) × IsPrefix s'
bitmap_free_prefix_example =
    bitmap_free_prefix 1 2 three_used three_used-IsPrefix (omega arith) refl

page_1 :
    Run false 1 0 one_used.bitmap
    × (bitmap_isset one_used.bitmap 1 ≡ true)
    × Run false 2 2 one_used.bitmap
unfolding byte_isset
page_1 = ((refl, tt), refl, (refl, (refl, tt)))

boot_nalloc_gap_example : boot_nalloc 2 one_used ≡ panicked
boot_nalloc_gap_example =
    boot_nalloc_gap 1 2 one_used (λ k. ground arith) (omega arith) (omega arith) (omega arith)
      page_1.0 page_1.1 page_1.2

-- Of 8 pages, those from 2 on are free: a block of order 1 and one of order 2.
abbrev six_free : Pmem
six_free = record {
  refcnt = update (update (λ _. 0) 0 1) 1 1;
  order = update (update (λ _. 0) 2 1) 4 2;
  free = update (update (λ _. []) 1 (2 ∷ [])) 2 (4 ∷ []);
  n_pages = 8;
}

none_above : (o : ℕ) → six_free.free (suc (suc (suc o))) ≡ []
none_above o = ground arith

entry : (o i : ℕ) → In i (six_free.free o) → ((o ≡ 1) × (i ≡ 2)) ⊎ ((o ≡ 2) × (i ≡ 4))
entry zero i m = elim m [ ]
entry (suc zero) i (inl e) = inl (refl, e)
entry (suc zero) i (inr m) = elim m [ ]
entry (suc (suc zero)) i (inl e) = inr (refl, e)
entry (suc (suc zero)) i (inr m) = elim m [ ]
entry (suc (suc (suc o))) i m = elim (subst (λ (xs : List ℕ). In i xs) (none_above o) m) [ ]

six_free-IsBlock : (o i : ℕ) → ((o ≡ 1) × (i ≡ 2)) ⊎ ((o ≡ 2) × (i ≡ 4)) → IsBlock six_free o i
six_free-IsBlock o i (inl (e, f)) =
    rw (e, f)
      (record {
        has_order = refl;
        is_free = refl;
        aligned = refl;
        positive = omega arith;
        within = omega arith;
      })
six_free-IsBlock o i (inr (e, f)) =
    rw (e, f)
      (record {
        has_order = refl;
        is_free = refl;
        aligned = refl;
        positive = omega arith;
        within = omega arith;
      })

six_free-cover : (j : ℕ) → free_cover six_free j ≤ 1
unfolding levels list_cover
six_free-cover j = ground arith

six_free-IsWf : IsWf six_free
six_free-IsWf = record {
  block = λ o i h m. six_free-IsBlock o i (entry o i m);
  disjoint = six_free-cover;
}

buddy_nalloc-Allocates_example : Allocates 1 six_free (buddy_nalloc 1 six_free)
buddy_nalloc-Allocates_example = buddy_nalloc-Allocates 1 six_free six_free-IsWf

-- Pages 0 and 1 are held, as blocks of order 0.
abbrev two_held : ℕ → List ℕ
two_held = update (λ _. []) 0 (0 ∷ 1 ∷ [])

six_free_entry : (o i : ℕ) → In i (two_held o) → (o ≡ 0) × ((i ≡ 0) ⊎ (i ≡ 1))
six_free_entry zero i (inl e) = (refl, inl e)
six_free_entry zero i (inr (inl e)) = (refl, inr e)
six_free_entry zero i (inr (inr m)) = elim m [ ]
six_free_entry (suc o) i m = elim (subst (λ (xs : List ℕ). In i xs) (no_more o) m) [ ]
  where
    no_more : (o : ℕ) → two_held (suc o) ≡ []
    no_more o = ground arith

IsHeld-six_free : (o i : ℕ) → (o ≡ 0) × ((i ≡ 0) ⊎ (i ≡ 1)) → IsHeld six_free o i
IsHeld-six_free o i (e, inl f) =
    rw (e, f)
      (record { has_order = refl; counted = omega arith; aligned = refl; within = omega arith })
IsHeld-six_free o i (e, inr f) =
    rw (e, f)
      (record { has_order = refl; counted = omega arith; aligned = refl; within = omega arith })

six_free-total : (j : ℕ) → j < 8 → free_cover six_free j + levels 11 two_held j ≡ 1
unfolding levels list_cover
six_free-total j h = ground arith

six_free-IsOwned : IsOwned six_free two_held
six_free-IsOwned = record {
  wf = six_free-IsWf;
  heads = λ o i h m. IsHeld-six_free o i (six_free_entry o i m);
  total = six_free-total;
}

buddy_nfree-IsFreed_example : IsFreed six_free two_held 0 1 (buddy_nfree 1 six_free)
buddy_nfree-IsFreed_example =
    buddy_nfree-IsFreed six_free two_held 0 1 six_free-IsOwned (omega arith) (inr (inl refl))
      (omega arith)

buddy_nfree-buddy_nalloc_example : Returns six_free two_held (buddy_nalloc 1 six_free)
buddy_nfree-buddy_nalloc_example = buddy_nfree-buddy_nalloc 1 six_free two_held six_free-IsOwned
