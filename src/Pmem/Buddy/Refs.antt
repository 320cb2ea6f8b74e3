-- ===== src/Pmem/Buddy/Refs.antt =====
-- pmem_inc_refcnt and pmem_dec_refcnt of kernel/mm/pmem.c. A count is the 32-bit pattern of an int;
-- `none` is a failed assertion.
use operating_system_osv.Base.{
  ℕ, ◌+◌, ◌-◌, ◌%◌, ◌^◌, ◌<◌, ◌≡◌, Option, none, some, Bool, ltb, ◌==◌, ◌&&◌, if◌then◌else◌, update,
  arith,
}
use operating_system_osv.Pmem.Buddy.{Pmem, buddy_nfree}

-- The two assertions on a page.
abbrev pub is_counted : ℕ → Pmem → Bool
is_counted p s = ltb 0 (s.refcnt p) && ltb (s.refcnt p) (2 ^ 31) && (s.order p == 0)

pub pmem_inc_refcnt : ℕ → ℕ → Pmem → Option Pmem
pmem_inc_refcnt p n s =
    if is_counted p s
    then some (record s { refcnt = update s.refcnt p ((s.refcnt p + n) % 2 ^ 32) })
    else none

dropped : ℕ → Pmem → Pmem
dropped p s = if s.refcnt p == 0 then buddy_nfree p s else s

pub pmem_dec_refcnt : ℕ → Pmem → Option Pmem
unfolding dropped
pmem_dec_refcnt p s =
    if is_counted p s
    then some (dropped p (record s { refcnt = update s.refcnt p (s.refcnt p - 1) }))
    else none

-- Dropping one reference of a page whose count `r` is above 1 keeps the free lists and leaves the
-- count `r - 1`; dropping the last one is pmem_nfree of the page.
pub pmem_dec_refcnt_lem :
    (p : ℕ) (s : Pmem)
    → s.order p ≡ 0
    → 0 < s.refcnt p
    → s.refcnt p < 2 ^ 31
    → pmem_dec_refcnt p s
      ≡ some (
          if s.refcnt p == 1
          then buddy_nfree p (record s { refcnt = update s.refcnt p 0 })
          else record s { refcnt = update s.refcnt p (s.refcnt p - 1) })
unfolding pmem_dec_refcnt dropped
pmem_dec_refcnt_lem p s e h k = ground arith
