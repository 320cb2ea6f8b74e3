-- ===== src/Pmem/Bitmap/Ranges.antt =====
-- bitmap_alloc and bitmap_free on whole ranges, and bitmap_alloc on what bitmap_find gives.
use operating_system_osv.Base.{
  ℕ, zero, suc, ◌+◌, ◌≤◌, ◌<◌, ◌≡◌, refl, none, some, Bool, true, false, arith, leb, ltb, ◌&&◌,
  if◌then◌else◌, ℕ_discrete,
}
use operating_system_osv.Pmem.Bitmap.{bitmap_isset, bitmap_set, bitmap_unset, alloc_from, free_from}
use operating_system_osv.Pmem.Bitmap.Bits.{
  IsBytes, isset-set, isset-unset, set-IsBytes, unset-IsBytes,
}
use operating_system_osv.Pmem.Bitmap.Find.{Run}

-- `b'` is `b` with the bits of pages `i` to `i + n - 1` all `v`.
abbrev pub IsFilled : Bool → ℕ → ℕ → (ℕ → ℕ) → (ℕ → ℕ) → Type 0
IsFilled v n i b b' =
    (j : ℕ) → bitmap_isset b' j ≡ (if leb i j && ltb j (i + n) then v else bitmap_isset b j)

Run-set :
    (v : Bool) (n i j : ℕ) (b : ℕ → ℕ)
    → IsBytes b
    → i < j
    → Run v n j b
    → Run v n j (bitmap_set b i)
Run-set v zero i j b h lt r = tt
Run-set v (suc n) i j b h lt r =
    (ground (arith, isset-set b i j h), Run-set v n i (j + 1) b h (omega arith) r.1)

Run-unset :
    (v : Bool) (n i j : ℕ) (b : ℕ → ℕ)
    → IsBytes b
    → i < j
    → Run v n j b
    → Run v n j (bitmap_unset b i)
Run-unset v zero i j b h lt r = tt
Run-unset v (suc n) i j b h lt r =
    (ground (arith, isset-unset b i j h), Run-unset v n i (j + 1) b h (omega arith) r.1)

pub alloc_from_lem :
    (n i : ℕ) (b : ℕ → ℕ)
    → IsBytes b
    → Run false n i b
    → (b' : ℕ → ℕ) × (alloc_from n i b ≡ some b') × IsBytes b' × IsFilled true n i b b'
unfolding alloc_from
alloc_from_lem zero i b h r = (b, refl, h, λ j. ground arith)
alloc_from_lem (suc n) i b h r =
    let (b', e, h', f) =
      alloc_from_lem n (i + 1) (bitmap_set b i) (set-IsBytes b i h)
        (Run-set false n i (i + 1) b h (omega arith) r.1) in
    (b', ground arith, h', λ j. ground (arith, f j, isset-set b i j h))

pub free_from_lem :
    (n i : ℕ) (b : ℕ → ℕ)
    → IsBytes b
    → Run true n i b
    → (b' : ℕ → ℕ) × (free_from n i b ≡ some b') × IsBytes b' × IsFilled false n i b b'
unfolding free_from
free_from_lem zero i b h r = (b, refl, h, λ j. ground arith)
free_from_lem (suc n) i b h r =
    let (b', e, h', f) =
      free_from_lem n (i + 1) (bitmap_unset b i) (unset-IsBytes b i h)
        (Run-unset true n i (i + 1) b h (omega arith) r.1) in
    (b', ground arith, h', λ j. ground (arith, f j, isset-unset b i j h))

pub alloc_from-meets_set :
    (n i j : ℕ) (b : ℕ → ℕ)
    → IsBytes b
    → i ≤ j
    → j < i + n
    → bitmap_isset b j ≡ true
    → alloc_from n i b ≡ none
unfolding alloc_from
alloc_from-meets_set zero i j b h l m e = absurd (omega arith)
alloc_from-meets_set (suc n) i j b h l m e = elim (ℕ_discrete i j) [
  | yes p ↦ ground arith
  | no p ↦ ground (
    arith,
    isset-set b i j h,
    alloc_from-meets_set n (i + 1) j (bitmap_set b i) (set-IsBytes b i h),
  )
]
