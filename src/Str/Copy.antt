-- ===== src/Str/Copy.antt =====
-- memset, memcpy and memmove against the memory before the call.
use operating_system_osv.Base.{
  ℕ, zero, suc, ◌+◌, ◌-◌, ◌%◌, ◌^◌, ◌≤◌, ◌≡◌, ◌⊎◌, leb, ltb, ◌&&◌, if◌then◌else◌, update, arith,
  dec_lt,
}
use operating_system_osv.Str.{Memory, memset, copy_up, copy_down, memcpy, memmove}

-- Byte `j` of memory `b` with the `n` bytes at `src` also at `dest`.
abbrev pub copied : ℕ → ℕ → ℕ → Memory → ℕ → ℕ
copied dest src n b j = if leb dest j && ltb j (dest + n) then b (src + (j - dest)) else b j

copy_up_lem :
    (d s n : ℕ) (b : Memory) (j : ℕ) → (d ≤ s) ⊎ (s + n ≤ d) → copy_up d s n b j ≡ copied d s n b j
unfolding copy_up
copy_up_lem d s zero b j h = ground arith
copy_up_lem d s (suc n) b j h =
    let ih = copy_up_lem (d + 1) (s + 1) n (update b d (b s)) j (ground arith) in ground (arith, ih)

copy_down_lem : (d s n : ℕ) (b : Memory) (j : ℕ) → s ≤ d → copy_down d s n b j ≡ copied d s n b j
unfolding copy_down
copy_down_lem d s zero b j h = ground arith
copy_down_lem d s (suc n) b j h =
    let ih = copy_down_lem d s n (update b (d + n) (b (s + n))) j h in ground (arith, ih)

-- memmove copies the `n` bytes that stood at `src` to `dest` and changes no other byte, however the
-- two ranges overlap.
pub memmove_lem :
    (dest src n : ℕ) (b : Memory) (j : ℕ) → memmove dest src n b j ≡ copied dest src n b j
unfolding memmove
memmove_lem dest src n b j = elim (dec_lt src dest) [
  | yes lt ↦ ground (arith, copy_up_lem dest src n b j, copy_down_lem dest src n b j)
  | no ge ↦ ground (arith, copy_up_lem dest src n b j)
]

-- memcpy does the same if the ranges do not overlap or `dest` is not above `src`.
pub memcpy_lem :
    (dest src n : ℕ) (b : Memory) (j : ℕ)
    → (dest ≤ src) ⊎ (src + n ≤ dest)
    → memcpy dest src n b j ≡ copied dest src n b j
unfolding memcpy
memcpy_lem dest src n b j h = copy_up_lem dest src n b j h

-- memset writes the low byte of `c` to the `n` addresses from `s` on and to no other.
pub memset_lem :
    (s c n : ℕ) (b : Memory) (j : ℕ)
    → memset s c n b j ≡ (if leb s j && ltb j (s + n) then c % 2 ^ 8 else b j)
unfolding memset
memset_lem s c zero b j = ground arith
memset_lem s c (suc n) b j =
    let ih = memset_lem (s + 1) c n (update b s (c % 2 ^ 8)) j in ground (arith, ih)
