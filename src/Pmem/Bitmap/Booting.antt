-- ===== src/Pmem/Bitmap/Booting.antt =====
-- The boot allocator as its callers see it: allocations from the bottom up, and what a freed page
-- below does to the next allocation.
use operating_system_osv.Base.{
  ℕ, zero, suc, ◌+◌, ◌-◌, ◌≤◌, ◌<◌, ◌≡◌, refl, none, some, Bool, true, false, arith, ltb, ◌⊎◌, ◌∙◌,
  dec_lt,
}
use operating_system_osv.Pmem.Bitmap.{
  Boot, bitmap_isset, alloc_from, bitmap_alloc, free_from, bitmap_free, bitmap_find, find_from,
  scan_back, BootResult, got, no_memory, panicked, boot_nalloc, alloc_found, after_alloc,
}
use operating_system_osv.Pmem.Bitmap.Bits.{IsBytes}
use operating_system_osv.Pmem.Bitmap.Find.{
  Run, bitmap_find_prefix, bitmap_find_gap, find_from-set, find_from-short,
}
use operating_system_osv.Pmem.Bitmap.Ranges.{
  IsFilled, alloc_from_lem, free_from_lem, alloc_from-meets_set,
}

-- Exactly the pages below `contig_start` are allocated.
pub record IsPrefix (s : Boot) : Type 0 where
  pub bytes : IsBytes s.bitmap
  pub within : s.contig_start ≤ s.end
  pub filled : (j : ℕ) → j < s.end → bitmap_isset s.bitmap j ≡ ltb j s.contig_start

Run-of :
    (v : Bool) (n i : ℕ) (b : ℕ → ℕ)
    → ((j : ℕ) → i ≤ j → j < i + n → bitmap_isset b j ≡ v)
    → Run v n i b
Run-of v zero i b h = tt
Run-of v (suc n) i b h = (
  h i (omega arith) (omega arith),
  Run-of v n (i + 1) b (λ j l m. h j (omega arith) (omega arith)),
)

Run-used : (s : Boot) (k : ℕ) → IsPrefix s → k ≤ s.contig_start → Run true k 0 s.bitmap
Run-used s k p l = Run-of true k 0 s.bitmap (λ j a m. ground (arith, p.filled j, p.within))

Run-free :
    (s : Boot) (k n : ℕ) → IsPrefix s → s.contig_start ≤ k → k + n ≤ s.end → Run false n k s.bitmap
Run-free s k n p l h = Run-of false n k s.bitmap (λ j a m. ground (arith, p.filled j))

-- What an allocation of `n` pages gives where exactly the first pages are allocated.
abbrev pub GrowsBy : ℕ → Boot → BootResult → Type 0
GrowsBy n s (got index s') =
    (index ≡ s.contig_start)
    × (s'.contig_start ≡ s.contig_start + n)
    × (s'.end ≡ s.end)
    × IsPrefix s'
GrowsBy n s no_memory = s.end < s.contig_start + n
GrowsBy n s panicked = ⊥

grown : ℕ → Boot → (ℕ → ℕ) → Boot
grown n s b' = record s { bitmap = b'; contig_start = s.contig_start + n }

bitmap_alloc-eq :
    (n : ℕ) (s : Boot) (b' : ℕ → ℕ)
    → s.contig_start + n ≤ s.end
    → 0 < n
    → alloc_from n s.contig_start s.bitmap ≡ some b'
    → bitmap_alloc s.contig_start n s ≡ some (grown n s b')
unfolding bitmap_alloc grown
bitmap_alloc-eq n s b' h pos e = ground arith

grown-IsPrefix :
    (n : ℕ) (s : Boot) (b' : ℕ → ℕ)
    → IsPrefix s
    → s.contig_start + n ≤ s.end
    → IsBytes b'
    → IsFilled true n s.contig_start s.bitmap b'
    → IsPrefix (grown n s b')
unfolding grown
grown-IsPrefix n s b' p h y f = record {
  bytes = y;
  within = h;
  filled = λ j lt. ground (arith, f j, p.filled j);
}

bitmap_find-none :
    (n : ℕ) (s : Boot) → IsPrefix s → s.end < s.contig_start + n → bitmap_find n s ≡ none
unfolding bitmap_find
bitmap_find-none n s p h =
    find_from-set s.contig_start s.end 0 0 n s.bitmap p.within
      (Run-used s s.contig_start p (omega arith))
    ∙ find_from-short (s.end - s.contig_start) (s.end - s.contig_start) (0 + s.contig_start)
        (0 + s.contig_start) 0 n s.bitmap (omega arith) (omega arith)
        (Run-free s (0 + s.contig_start) (s.end - s.contig_start) p (omega arith)
          (omega (arith, p.within)))
    ∙ out_of_rounds (s.end - s.contig_start - (s.end - s.contig_start)) _ _ _ n s.bitmap
        (omega arith)
  where
    out_of_rounds : (r i first free n : ℕ) (b : ℕ → ℕ) → r ≡ 0 → find_from r i first free n b ≡ none
    out_of_rounds r i first free n b e = rw e (unfold find_from in refl)

boot_nalloc-eq : (n : ℕ) (s : Boot) → 0 < n → boot_nalloc n s ≡ alloc_found n s (bitmap_find n s)
unfolding boot_nalloc
boot_nalloc-eq n s h = ground arith

-- While exactly the first pages are allocated, the boot branch of pmem_nalloc_internal returns the
-- lowest free page, and then exactly the pages up to the end of the new block are allocated; it
-- runs out of memory just when `n` pages are not left, and fails no assertion.
pub boot_nalloc_prefix : (n : ℕ) (s : Boot) → 0 < n → IsPrefix s → GrowsBy n s (boot_nalloc n s)
unfolding alloc_found after_alloc
boot_nalloc_prefix n s pos p =
    rw (boot_nalloc-eq n s pos) (elim (dec_lt s.end (s.contig_start + n)) [
      | yes full ↦ rw (bitmap_find-none n s p full) full
      | no room ↦
          let h : s.contig_start + n ≤ s.end = omega arith in
          let (b', e, y, f) =
            alloc_from_lem n s.contig_start s.bitmap p.bytes
              (Run-free s s.contig_start n p (omega arith) h) in
          let found =
            bitmap_find_prefix s.contig_start n s pos h (Run-used s s.contig_start p (omega arith))
              (Run-free s s.contig_start n p (omega arith) h) in
          rw found (
            rw (bitmap_alloc-eq n s b' h pos e)
              (unfold grown in (refl, refl, refl, grown-IsPrefix n s b' p h y f)))
    ])

-- With one page or more free below an allocated page `a`, fewer than `n`, and `n` free pages above
-- it, an allocation of `n` pages fails an assertion, although the pages above would do.
pub boot_nalloc_gap :
    (a n : ℕ) (s : Boot)
    → IsBytes s.bitmap
    → 0 < a
    → a < n
    → a + 1 + n ≤ s.end
    → Run false a 0 s.bitmap
    → bitmap_isset s.bitmap a ≡ true
    → Run false n (a + 1) s.bitmap
    → boot_nalloc n s ≡ panicked
unfolding alloc_found after_alloc
boot_nalloc_gap a n s y pos lt h below at above =
    rw (boot_nalloc-eq n s (omega arith))
      (rw (bitmap_find_gap a n s lt h below at above) (rw (alloc_panics) refl))
  where
    alloc_panics : bitmap_alloc 1 n s ≡ none
    alloc_panics = unfold bitmap_alloc in ground (arith, alloc_from-meets_set n 1 a s.bitmap y)

scan_back_set : (i : ℕ) (b : ℕ → ℕ) → (i ≡ 0) ⊎ (bitmap_isset b (i - 1) ≡ true) → scan_back i b ≡ i
unfolding scan_back
scan_back_set zero b h = refl
scan_back_set (suc i) b h = ground arith

shrunk : ℕ → Boot → (ℕ → ℕ) → Boot
shrunk index s b' = record s { bitmap = b'; contig_start = index }

bitmap_free-eq :
    (index n : ℕ) (s : Boot) (b' : ℕ → ℕ)
    → IsPrefix s
    → 0 < n
    → index + n ≡ s.contig_start
    → IsFilled false n index s.bitmap b'
    → free_from n index s.bitmap ≡ some b'
    → bitmap_free index n s ≡ some (shrunk index s b')
unfolding bitmap_free shrunk
bitmap_free-eq index n s b' p pos h f e =
    ground (arith, p.within, f (index - 1), p.filled (index - 1), scan_back_set index b')

-- Freeing the topmost `n` allocated pages succeeds, and then exactly the pages below them are
-- allocated: it undoes the allocation of these pages.
pub bitmap_free_prefix :
    (index n : ℕ) (s : Boot)
    → IsPrefix s
    → 0 < n
    → index + n ≡ s.contig_start
    → (s' : Boot) × (bitmap_free index n s ≡ some s') × (s'.contig_start ≡ index) × IsPrefix s'
bitmap_free_prefix index n s p pos h =
    let (b', e, y, f) =
      free_from_lem n index s.bitmap p.bytes
        (Run-of true n index s.bitmap (λ j a m. ground (arith, p.filled j, p.within))) in
    (
      shrunk index s b',
      bitmap_free-eq index n s b' p pos h f e,
      unfold shrunk in refl,
      unfold shrunk in
          record {
            bytes = y;
            within = omega (arith, p.within);
            filled = λ j lt. ground (arith, f j, p.filled j);
          },
    )
