-- ===== src/Pmem/Bitmap.antt =====
-- The boot allocator of kernel/mm/pmem.c: a bitmap of pages, packed in bytes. `none` is a failed
-- kassert, and for `bitmap_find` its -1.
pub mod Bits
pub mod Find
pub mod Ranges
pub mod Booting
use Prim.Native.Nat.{bit_and, bit_or}
use operating_system_osv.Base.{
  ℕ, zero, suc, ◌+◌, ◌-◌, ◌/◌, ◌%◌, ◌^◌, Option, none, some, Bool, true, false, ltb, leb, ◌==◌, not,
  if◌then◌else◌, update,
}

pub record Boot : Type 0 where
  -- the bytes of `bitmap`
  pub bitmap : ℕ → ℕ
  -- `bitmap_contig_start` and `bitmap_end`
  pub contig_start : ℕ
  pub end : ℕ

-- BITMAP_SET, BITMAP_UNSET and BITMAP_ISSET. `~(1 << k)` is cut to the byte it is and-ed with.
unfoldable pub byte_set : ℕ → ℕ → ℕ
byte_set v k = bit_or v (2 ^ k)

unfoldable pub byte_unset : ℕ → ℕ → ℕ
byte_unset v k = bit_and v (255 - 2 ^ k)

unfoldable pub byte_isset : ℕ → ℕ → Bool
byte_isset v k = not (bit_and v (2 ^ k) == 0)

abbrev pub bitmap_set : (ℕ → ℕ) → ℕ → ℕ → ℕ
bitmap_set b i = update b (i / 8) (byte_set (b (i / 8)) (i % 8))

abbrev pub bitmap_unset : (ℕ → ℕ) → ℕ → ℕ → ℕ
bitmap_unset b i = update b (i / 8) (byte_unset (b (i / 8)) (i % 8))

abbrev pub bitmap_isset : (ℕ → ℕ) → ℕ → Bool
bitmap_isset b i = byte_isset (b (i / 8)) (i % 8)

-- The loop of bitmap_alloc, on the rounds left.
pub alloc_from : ℕ → ℕ → (ℕ → ℕ) → Option (ℕ → ℕ)
alloc_from zero i b = some b
alloc_from (suc n) i b =
    let rest = alloc_from n (i + 1) (bitmap_set b i) in if bitmap_isset b i then none else rest

allocated : ℕ → ℕ → Boot → Option (ℕ → ℕ) → Option Boot
allocated index n s none = none
allocated index n s (some b) = some (record s {
  bitmap = b;
  contig_start = if ltb s.contig_start (index + n) then index + n else s.contig_start;
})

pub bitmap_alloc : ℕ → ℕ → Boot → Option Boot
unfolding alloc_from allocated
bitmap_alloc index n s =
    if leb (index + n) s.end then allocated index n s (alloc_from n index s.bitmap) else none

-- The loop of bitmap_free, and the scan back over free pages.
pub free_from : ℕ → ℕ → (ℕ → ℕ) → Option (ℕ → ℕ)
free_from zero i b = some b
free_from (suc n) i b =
    let rest = free_from n (i + 1) (bitmap_unset b i) in if bitmap_isset b i then rest else none

pub scan_back : ℕ → (ℕ → ℕ) → ℕ
scan_back zero b = zero
scan_back (suc i) b = let rest = scan_back i b in if bitmap_isset b i then suc i else rest

freed : ℕ → ℕ → Boot → Option (ℕ → ℕ) → Option Boot
unfolding scan_back
freed index n s none = none
freed index n s (some b) = some (record s {
  bitmap = b;
  contig_start = if index + n == s.contig_start then scan_back index b else s.contig_start;
})

pub bitmap_free : ℕ → ℕ → Boot → Option Boot
unfolding free_from freed
bitmap_free index n s =
    if leb (index + n) s.end
    then (if leb (index + n) s.contig_start
        then freed index n s (free_from n index s.bitmap)
        else none)
    else none

-- The loop of bitmap_find, on the rounds left: page `i`, `first` and `n_free_pages`.
pub find_from : ℕ → ℕ → ℕ → ℕ → ℕ → (ℕ → ℕ) → Option ℕ
find_from zero i first n_free n b = none
find_from (suc rounds) i first n_free n b =
    let after_set = find_from rounds (i + 1) (first + 1) 0 n b in
    let after_free = find_from rounds (i + 1) first (n_free + 1) n b in
    if bitmap_isset b i then after_set else if leb n (n_free + 1) then some first else after_free

pub bitmap_find : ℕ → Boot → Option ℕ
unfolding find_from
bitmap_find n s = find_from s.end 0 0 0 n s.bitmap

-- The boot branch of pmem_nalloc_internal, with its assertion `n > 0`; an address is its page. That
-- of pmem_nfree_internal is `bitmap_free`, with the same assertion in front.
pub data BootResult : Type 0 where
  got : ℕ → Boot → BootResult
  no_memory : BootResult
  panicked : BootResult

after_alloc : ℕ → Option Boot → BootResult
after_alloc index none = panicked
after_alloc index (some s) = got index s

alloc_found : ℕ → Boot → Option ℕ → BootResult
unfolding after_alloc
alloc_found n s none = no_memory
alloc_found n s (some index) = after_alloc index (bitmap_alloc index n s)

pub boot_nalloc : ℕ → Boot → BootResult
unfolding alloc_found
boot_nalloc n s = if n == 0 then panicked else alloc_found n s (bitmap_find n s)
