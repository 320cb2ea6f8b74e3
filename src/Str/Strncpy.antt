-- ===== src/Str/Strncpy.antt =====
-- strncpy of a string shorter than its buffer.
use operating_system_osv.Base.{
  ℕ, zero, suc, ◌+◌, ◌-◌, ◌<◌, ◌≡◌, ◌≢◌, ◌⊎◌, leb, ltb, ◌&&◌, if◌then◌else◌, update, arith,
}
use operating_system_osv.Str.{Memory, pad, strncpy}

-- The string at `s` has length `k`: `k` bytes that are not NUL, and a NUL.
abbrev pub HasLength : ℕ → ℕ → Memory → Type 0
HasLength zero s b = b s ≡ 0
HasLength (suc k) s b = (b s ≢ 0) × HasLength k (s + 1) b

-- A write elsewhere keeps a string.
pub HasLength-update :
    (k s d x : ℕ) (b : Memory)
    → (d < s) ⊎ (s + k < d)
    → HasLength k s b
    → HasLength k s (update b d x)
HasLength-update zero s d x b h l = ground arith
HasLength-update (suc k) s d x b h l =
    (ground arith, HasLength-update k (s + 1) d x b (ground arith) l.1)

pad_lem :
    (d n : ℕ) (b : Memory) (j : ℕ) → pad d n b j ≡ (if leb d j && ltb j (d + n) then 0 else b j)
unfolding pad
pad_lem d zero b j = ground arith
pad_lem d (suc n) b j = let ih = pad_lem (d + 1) n (update b d 0) j in ground (arith, ih)

-- Copying a string of length `k < n`, apart from the destination, strncpy writes the string and
-- then NULs up to and including `dest[n]`: one byte more than the `n` it is given.
pub strncpy_lem :
    (k d s n : ℕ) (b : Memory) (j : ℕ)
    → k < n
    → HasLength k s b
    → (d + n < s) ⊎ (s + k < d)
    → strncpy d s n b j ≡ (
        if leb d j && ltb j (d + k)
        then b (s + (j - d))
        else if leb (d + k) j && leb j (d + n)
        then 0
        else b j)
unfolding strncpy
strncpy_lem k d s zero b j h l a = absurd (omega arith)
strncpy_lem zero d s (suc n) b j h l a =
    let p = pad_lem (d + 1) (suc n) (update b d (b s)) j in ground (arith, p)
strncpy_lem (suc k) d s (suc n) b j h l a =
    let ih =
      strncpy_lem k (d + 1) (s + 1) n (update b d (b s)) j (omega arith)
        (HasLength-update k (s + 1) d (b s) b (ground arith) l.1) (ground arith) in
    ground (arith, ih, l.0)
