-- ===== src/Str/Tests.antt =====
-- The string "hi" at address 100, and a copy at 200.
use operating_system_osv.Base.{
  ◌+◌, ◌-◌, ◌≡◌, refl, inr, leb, ltb, ◌&&◌, if◌then◌else◌, update, arith,
}
use operating_system_osv.Str.{Memory, memmove, strncpy, strcmp}
use operating_system_osv.Str.Copy.{copied, memmove_lem}
use operating_system_osv.Str.Strncpy.{HasLength, strncpy_lem}
use operating_system_osv.Str.Compare.{Compares, strcmp_lem}

abbrev greeting : Memory
greeting = update (update (update (update (λ _. 0) 100 104) 101 105) 200 104) 201 105

greeting-HasLength : HasLength 2 100 greeting
greeting-HasLength = (omega arith, (omega arith, refl))

memmove_lem_example : memmove 101 100 2 greeting 102 ≡ copied 101 100 2 greeting 102
memmove_lem_example = memmove_lem 101 100 2 greeting 102

strncpy_lem_example : strncpy 300 100 8 greeting 308 ≡ (
    if leb 300 308 && ltb 308 (300 + 2)
    then greeting (100 + (308 - 300))
    else if leb (300 + 2) 308 && leb 308 (300 + 8)
    then 0
    else greeting 308)
strncpy_lem_example =
    strncpy_lem 2 300 100 8 greeting 308 (omega arith) greeting-HasLength (inr (omega arith))

strcmp_lem_example : Compares 2 100 200 greeting (strcmp 3 100 200 greeting)
strcmp_lem_example =
    strcmp_lem 3 2 100 200 greeting (omega arith) greeting-HasLength (λ i. ground arith)
