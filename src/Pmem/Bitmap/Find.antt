-- ===== src/Pmem/Bitmap/Find.antt =====
-- bitmap_find: what it returns on pages that are allocated from the bottom, and what it returns
-- once a page below was freed.
use operating_system_osv.Base.{
  ℕ, zero, suc, ◌+◌, ◌-◌, ◌≤◌, ◌<◌, ◌≡◌, refl, some, Bool, true, false, arith, ◌∙◌, ap, subst,
}
use operating_system_osv.Pmem.Bitmap.{Boot, bitmap_isset, find_from, bitmap_find}

-- Pages `i` to `i + k - 1` are all set, or all free.
abbrev pub Run : Bool → ℕ → ℕ → (ℕ → ℕ) → Type 0
Run v zero i b = Unit
Run v (suc k) i b = (bitmap_isset b i ≡ v) × Run v k (i + 1) b

-- A run of set pages moves `first` along with `i`.
pub find_from-set :
    (k t i first n : ℕ) (b : ℕ → ℕ)
    → k ≤ t
    → Run true k i b
    → find_from t i first 0 n b ≡ find_from (t - k) (i + k) (first + k) 0 n b
unfolding find_from
find_from-set zero t i first n b m h = ground arith
find_from-set (suc k) zero i first n b m h = absurd (omega arith)
find_from-set (suc k) (suc t) i first n b m h =
    ground (arith, find_from-set k t (i + 1) (first + 1) n b)

-- A run of free pages that is too short only counts.
pub find_from-short :
    (k t i first free n : ℕ) (b : ℕ → ℕ)
    → k ≤ t
    → free + k < n
    → Run false k i b
    → find_from t i first free n b ≡ find_from (t - k) (i + k) first (free + k) n b
unfolding find_from
find_from-short zero t i first free n b m l h = ground arith
find_from-short (suc k) zero i first free n b m l h = absurd (omega arith)
find_from-short (suc k) (suc t) i first free n b m l h =
    ground (arith, find_from-short k t (i + 1) first (free + 1) n b)

-- A run of free pages that is long enough gives `first`.
find_from-long :
    (k t i first free n : ℕ) (b : ℕ → ℕ)
    → k ≤ t
    → 0 < k
    → n ≤ free + k
    → Run false k i b
    → find_from t i first free n b ≡ some first
unfolding find_from
find_from-long zero t i first free n b m p l h = absurd (omega arith)
find_from-long (suc k) zero i first free n b m p l h = absurd (omega arith)
find_from-long (suc zero) (suc t) i first free n b m p l h = ground arith
find_from-long (suc (suc k)) (suc t) i first free n b m p l h =
    ground (arith, find_from-long (suc k) t (i + 1) first (free + 1) n b)

-- While only the first `k` pages are allocated, as by a sequence of bitmap_alloc calls with
-- nothing freed, bitmap_find gives page `k` if `n` free pages follow below `bitmap_end`.
pub bitmap_find_prefix :
    (k n : ℕ) (s : Boot)
    → 0 < n
    → k + n ≤ s.end
    → Run true k 0 s.bitmap
    → Run false n k s.bitmap
    → bitmap_find n s ≡ some k
unfolding bitmap_find
bitmap_find_prefix k n s p m used free =
    find_from-set k s.end 0 0 n s.bitmap (omega arith) used
    ∙ find_from-long n (s.end - k) (0 + k) (0 + k) 0 n s.bitmap (omega arith) p (omega arith)
        (subst (λ (j : ℕ). Run false n j s.bitmap) (omega arith) free)
    ∙ ap some (omega arith)

-- With fewer than `n` free pages below it, then an allocated page `a`, then `n` free pages,
-- bitmap_find gives page 1 and not page `a + 1`.
pub bitmap_find_gap :
    (a n : ℕ) (s : Boot)
    → a < n
    → a + 1 + n ≤ s.end
    → Run false a 0 s.bitmap
    → bitmap_isset s.bitmap a ≡ true
    → Run false n (a + 1) s.bitmap
    → bitmap_find n s ≡ some 1
unfolding bitmap_find
bitmap_find_gap a n s lt m below at above =
    find_from-short a s.end 0 0 0 n s.bitmap (omega arith) (omega arith) below
    ∙ rest (s.end - a) refl
  where
    rest : (t : ℕ) → s.end - a ≡ t → find_from t (0 + a) 0 (0 + a) n s.bitmap ≡ some 1
    rest zero e = absurd (omega arith)
    rest (suc t) e = ground (arith, find_from-long n t (a + 1) 1 0 n s.bitmap)
