-- ===== src/Bbq.antt =====
-- kernel/bbq.c and include/kernel/bbq.h: the bounded buffer behind a pipe.
-- The compiler is run with -fwrapv, so `front` and `next_empty` are held as the 32-bit patterns
-- of the two `int` fields, and their increments wrap. `%` on a negative `int` gives a negative or
-- zero remainder, which `slot` shows: a negative index lies outside `items`.
-- The functions here are the bodies of the critical sections between spinlock_acquire and
-- spinlock_release; waiting is in Bbq/Monitor.antt.
pub mod Refine
pub mod Wrap
pub mod Monitor
mod Tests
use operating_system_osv.Base.{
  ℕ, ◌+◌, ◌-◌, ◌%◌, ◌^◌, List, [], Option, none, some, Bool, ltb, ◌==◌, if◌then◌else◌, set, get_or,
  replicate,
}

abbrev pub max_bbq_size : ℕ
max_bbq_size = 512

-- `BBQ`, without its lock and condition variables.
pub record Bbq : Type 0 where
  pub items : List ℕ
  pub front : ℕ
  pub next_empty : ℕ

-- What a critical section does: it ends with a value, it waits with nothing changed, or it
-- accesses `items` out of range.
pub data Outcome {ℓ} (A : Type ℓ) : Type ℓ where
  done : A → Outcome A
  waits : Outcome A
  fault : Outcome A

-- `int` subtraction and increment on bit patterns.
abbrev pub int_sub : ℕ → ℕ → ℕ
int_sub a b = (a + 2 ^ 32 - b) % 2 ^ 32

abbrev pub int_inc : ℕ → ℕ
int_inc a = (a + 1) % 2 ^ 32

-- `v % MAX_BBQ_SIZE` as an index of `items`; `none` where it is negative.
abbrev pub slot : ℕ → Option ℕ
slot v =
    if ltb v (2 ^ 31)
    then some (v % max_bbq_size)
    else (if (2 ^ 32 - v) % max_bbq_size == 0 then some 0 else none)

-- The counters are 0. The bytes are those the allocator left, any 512 of them.
pub bbq_init : List ℕ → Bbq
bbq_init bytes = record { items = bytes; front = 0; next_empty = 0 }

unfoldable pub bbq_is_empty : Bbq → Bool
bbq_is_empty q = q.front == q.next_empty

unfoldable pub bbq_is_full : Bbq → Bool
bbq_is_full q = int_sub q.next_empty q.front == max_bbq_size

insert_at : Bbq → ℕ → Option ℕ → Outcome Bbq
insert_at q item none = fault
insert_at q item (some i) =
    done (record q { items = set q.items i item; next_empty = int_inc q.next_empty })

pub bbq_insert : Bbq → ℕ → Outcome Bbq
unfolding insert_at
bbq_insert q item =
    if int_sub q.next_empty q.front == max_bbq_size
    then waits
    else insert_at q item (slot q.next_empty)

remove_at : Bbq → Option ℕ → Outcome (ℕ × Bbq)
remove_at q none = fault
remove_at q (some i) = done (get_or q.items i 0, record q { front = int_inc q.front })

pub bbq_remove : Bbq → Outcome (ℕ × Bbq)
unfolding remove_at
bbq_remove q = if q.front == q.next_empty then waits else remove_at q (slot q.front)
