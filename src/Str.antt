-- ===== src/Str.antt =====
-- lib/string.c: memset, memcpy, memmove, memcmp, strlen, strcpy, strncpy, strcmp, strncmp and
-- strchr. Memory is a byte for each address. A loop that stops at a NUL runs on fuel and gives
-- `none` without enough. An `int` result is its 32-bit pattern.
pub mod Copy
pub mod Strncpy
pub mod Compare
mod Tests
use operating_system_osv.Base.{
  ℕ, zero, suc, ◌+◌, ◌-◌, ◌%◌, ◌^◌, Option, none, some, Bool, true, false, leb, ltb, ◌==◌, ◌&&◌,
  not, if◌then◌else◌, update,
}

abbrev pub Memory : Type 0
Memory = ℕ → ℕ

pub memset : ℕ → ℕ → ℕ → Memory → Memory
memset s c zero b = b
memset s c (suc n) b = memset (s + 1) c n (update b s (c % 2 ^ 8))

-- `while (n-- > 0) *d++ = *s++`
pub copy_up : ℕ → ℕ → ℕ → Memory → Memory
copy_up d s zero b = b
copy_up d s (suc n) b = copy_up (d + 1) (s + 1) n (update b d (b s))

-- `while (n-- > 0) *--d = *--s`, from `d + n` and `s + n` down.
pub copy_down : ℕ → ℕ → ℕ → Memory → Memory
copy_down d s zero b = b
copy_down d s (suc n) b = copy_down d s n (update b (d + n) (b (s + n)))

pub memcpy : ℕ → ℕ → ℕ → Memory → Memory
unfolding copy_up
memcpy dest src n b = copy_up dest src n b

pub memmove : ℕ → ℕ → ℕ → Memory → Memory
unfolding copy_up copy_down
memmove dest src n b =
    if ltb src dest && ltb dest (src + n) then copy_down dest src n b else copy_up dest src n b

-- The difference of two bytes as an int; a `char` is signed.
abbrev pub byte_diff : ℕ → ℕ → ℕ
byte_diff x y = (x + 2 ^ 32 - y) % 2 ^ 32

abbrev pub int_of_char : ℕ → ℕ
int_of_char x = if ltb x (2 ^ 7) then x else x + 2 ^ 32 - 2 ^ 8

abbrev pub char_diff : ℕ → ℕ → ℕ
char_diff x y = (int_of_char x + 2 ^ 32 - int_of_char y) % 2 ^ 32

pub memcmp : ℕ → ℕ → ℕ → Memory → ℕ
memcmp p1 p2 zero b = 0
memcmp p1 p2 (suc n) b =
    let rest = memcmp (p1 + 1) (p2 + 1) n b in
    if b p1 == b p2 then rest else byte_diff (b p1) (b p2)

pub strlen : ℕ → ℕ → Memory → Option ℕ
strlen zero s b = none
strlen (suc fuel) s b =
    let rest = strlen fuel (s + 1) b in
    if b s == 0 then some 0 else elim rest [ none ↦ none | some n ↦ some (n + 1) ]

pub strcpy : ℕ → ℕ → ℕ → Memory → Option Memory
strcpy zero d s b = none
strcpy (suc fuel) d s b =
    let b' = update b d (b s) in
    let rest = strcpy fuel (d + 1) (s + 1) b' in if b s == 0 then some b' else rest

-- The second loop of strncpy, and the first: the round that copies the NUL leaves `n` as it is.
pub pad : ℕ → ℕ → Memory → Memory
pad d zero b = b
pad d (suc n) b = pad (d + 1) n (update b d 0)

pub strncpy : ℕ → ℕ → ℕ → Memory → Memory
unfolding pad
strncpy d s zero b = b
strncpy d s (suc n) b =
    let b' = update b d (b s) in
    let rest = strncpy (d + 1) (s + 1) n b' in if b s == 0 then pad (d + 1) (suc n) b' else rest

pub strcmp : ℕ → ℕ → ℕ → Memory → Option ℕ
strcmp zero s1 s2 b = none
strcmp (suc fuel) s1 s2 b =
    let rest = strcmp fuel (s1 + 1) (s2 + 1) b in
    if not (b s1 == 0) && (b s1 == b s2) then rest else some (char_diff (b s1) (b s2))

pub strncmp : ℕ → ℕ → ℕ → Memory → ℕ
strncmp s1 s2 zero b = 0
strncmp s1 s2 (suc n) b =
    let rest = strncmp (s1 + 1) (s2 + 1) n b in
    if not (b s1 == 0) && (b s1 == b s2) then rest else char_diff (b s1) (b s2)

-- strchr of a pointer that is not NULL; `some none` is NULL.
unfoldable pub strchr : ℕ → ℕ → ℕ → Memory → Option (Option ℕ)
strchr zero s c b = none
strchr (suc fuel) s c b =
    let rest = strchr fuel (s + 1) c b in
    if b s == c % 2 ^ 8 then some (some s) else if b s == 0 then some none else rest
