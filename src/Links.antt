-- ===== src/Links.antt =====
-- kernel/list.c: circular doubly linked lists. A node, or the header of a list, is a number; the
-- links of all nodes are one heap.
pub mod Ring
pub mod Sequence
mod Tests
use operating_system_osv.Base.{ℕ, Bool, ◌==◌, ◌&&◌, if◌then◌else◌, update}

pub record Links : Type 0 where
  pub next : ℕ → ℕ
  pub prev : ℕ → ℕ

pub list_init : ℕ → Links → Links
list_init h s = record { next = update s.next h h; prev = update s.prev h h }

pub list_empty : ℕ → Links → Bool
list_empty h s = (s.prev h == h) && (s.next h == h)

pub list_append : ℕ → ℕ → Links → Links
unfolding list_empty
list_append h n s =
    let s' = record s {
      next = if list_empty h s then update s.next h n else update s.next (s.prev h) n;
    } in
    record s' { next = update s'.next n h; prev = update (update s'.prev n (s'.prev h)) h n }

-- The links after list_remove; it returns the node's `next`.
pub list_remove : ℕ → Links → Links
list_remove n s =
    let s' = record s { next = update s.next (s.prev n) (s.next n) } in
    record s' { prev = update s'.prev (s'.next n) (s'.prev n) }
