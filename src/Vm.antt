-- ===== src/Vm.antt =====
-- kernel/mm/vm.c: the memory regions of one address space, as the list `regions` in its order, and
-- sys_sbrk of kernel/syscall.c. Addresses are 64-bit words whose sums wrap. A region is known by
-- `id`, which stands for its pointer. The page tables (vpmap) are not part of this model.
pub mod Lookup
pub mod Extend
pub mod Mapping
pub mod Placement
mod Tests
use operating_system_osv.Base.{
  ℕ, zero, suc, ◌+◌, ◌-◌, ◌*◌, ◌/◌, ◌%◌, ◌^◌, List, [], ◌∷◌, ◌++◌, Option, none, some, Bool, true,
  false, leb, ltb, ◌==◌, ◌&&◌, ◌||◌, not, if◌then◌else◌, Err, vm_bound, vm_invalid, SysRet, value,
  error,
}

abbrev pub pg_size : ℕ
pg_size = 4096

-- vaddr_t addition, and pg_round_up.
abbrev pub add_addr : ℕ → ℕ → ℕ
add_addr a b = (a + b) % 2 ^ 64

abbrev pub pg_round_up : ℕ → ℕ
pg_round_up a = add_addr a (pg_size - 1) / pg_size * pg_size

pub record Region : Type 0 where
  pub id : ℕ
  pub start : ℕ
  pub end : ℕ

-- memregion_find_internal
pub memregion_find : ℕ → ℕ → List Region → Option Region
memregion_find addr size [] = none
memregion_find addr size (r ∷ rs) =
    if leb r.start addr && leb (add_addr addr size) (pg_round_up r.end)
    then some r
    else memregion_find addr size rs

-- as_find_memregion
pub as_find_memregion : ℕ → ℕ → List Region → Option Region
unfolding memregion_find
as_find_memregion addr size rs =
    if ltb (add_addr addr size) addr then none else memregion_find addr size rs

-- validate_ptr of kernel/syscall.c, on the current process's regions.
pub validate_ptr : ℕ → ℕ → List Region → Bool
unfolding as_find_memregion
validate_ptr ptr size rs =
    if ltb (add_addr ptr size) ptr
    then false
    else elim (as_find_memregion ptr size rs) [ none ↦ false | some _ ↦ true ]

-- The overlap test of memregion_extend, for the region at `start` that is to end at `new_end`.
abbrev pub collides : ℕ → ℕ → Region → Bool
collides start new_end cur =
    (ltb cur.start new_end && leb start cur.start) || (ltb start cur.end && leb cur.start start)

-- Its loop over the regions, which skips the region itself.
pub any_collision : ℕ → ℕ → ℕ → List Region → Bool
any_collision id start new_end [] = false
any_collision id start new_end (cur ∷ rs) =
    (not (cur.id == id) && collides start new_end cur) || any_collision id start new_end rs

-- `region->end += size`, for the region of the list.
pub set_end : ℕ → ℕ → List Region → List Region
set_end id new_end [] = []
set_end id new_end (r ∷ rs) =
    (if r.id == id then record r { end = new_end } else r) ∷ set_end id new_end rs

-- memregion_extend: the regions, then the `old_bound` that it writes, or the error with which it
-- leaves `old_bound` alone. `size` is the bit pattern of an ssize_t.
pub data Extended : Type 0 where
  extended : ℕ → List Region → Extended
  refused : Err → Extended

pub memregion_extend : Region → ℕ → List Region → Extended
unfolding any_collision set_end
memregion_extend r size rs =
    if size == 0
    then extended r.end rs
    else if ltb (add_addr r.end size) r.start
    then refused vm_invalid
    else if any_collision r.id r.start (add_addr r.end size) rs
    then refused vm_bound
    else extended r.end (set_end r.id (add_addr r.end size) rs)

after_extend : Region → List Region → Extended → SysRet × List Region
after_extend heap rs (extended old rs') = (value old, rs')
after_extend heap rs (refused e) = (value heap.end, rs)

-- sys_sbrk on the heap region: the returned word, and the regions.
pub sys_sbrk : Region → ℕ → List Region → SysRet × List Region
unfolding memregion_extend after_extend
sys_sbrk heap increment rs = after_extend heap rs (memregion_extend heap increment rs)

-- list_append_ordered with memregion_comparator: in front of the first region that starts at or
-- after the end of `node`.
pub append_ordered : Region → Region → List Region → List Region
append_ordered node r [] = r ∷ []
append_ordered node r (n ∷ rs) =
    if leb node.end n.start then r ∷ n ∷ rs else n ∷ append_ordered node r rs

-- find_free_vaddr, from `addr` on; `lower` is USTACK_LOWERBOUND. `none` is its error.
pub free_from : ℕ → ℕ → ℕ → List Region → Option ℕ
free_from lower size addr [] =
    if ltb (pg_round_up (add_addr addr size)) ((lower + 2 ^ 64 - size) % 2 ^ 64)
    then some addr
    else none
free_from lower size addr (r ∷ rs) =
    let rest = free_from lower size (pg_round_up r.end) rs in
    if ltb (pg_round_up (add_addr addr size)) r.start then some addr else rest

abbrev pub first_end : List Region → ℕ
first_end [] = 0
first_end (r ∷ _) = r.end

pub find_free_vaddr : ℕ → ℕ → List Region → Option ℕ
unfolding free_from
find_free_vaddr lower size rs = free_from lower size (first_end rs) rs

-- What memregion_map_internal answers: the region and the list, NULL, or a failed assertion.
pub data Mapped : Type 0 where
  mapped : Region → List Region → Mapped
  null : Mapped
  panicked : Mapped

abbrev pub addr_anywhere : ℕ
addr_anywhere = 268435455

-- The region is linked with the bytes that the allocator left in it, and its bounds are set after
-- that.
linked : ℕ → ℕ → List Region → Option Region → Mapped
unfolding append_ordered
linked addr size rs none = null
linked addr size rs (some stale) =
    let r = record stale { start = addr; end = add_addr addr size } in
    mapped r (append_ordered stale r rs)

map_at : ℕ → Option Region → ℕ → ℕ → List Region → Mapped
unfolding linked memregion_find
map_at user_end fresh addr size rs =
    if not ((addr % pg_size == 0) && leb addr (add_addr addr (pg_round_up size)))
    then panicked
    else if leb user_end (pg_round_up (add_addr addr size))
    then null
    else elim (memregion_find addr (add_addr addr size) rs) [
      | some _ ↦ null
      | none ↦ linked addr size rs fresh
    ]

-- The address asked for, or for ADDR_ANYWHERE a free one; `none` where there is none.
pub place : ℕ → ℕ → ℕ → List Region → Option ℕ
unfolding find_free_vaddr
place lower addr size rs =
    if addr == addr_anywhere then find_free_vaddr lower size rs else some addr

map_placed : ℕ → Option Region → ℕ → List Region → Option ℕ → Mapped
unfolding map_at
map_placed user_end fresh size rs none = null
map_placed user_end fresh size rs (some addr) = map_at user_end fresh addr size rs

-- memregion_map_internal for a user address space and user permissions. `user_end` is kvm_base, and
-- `fresh` the node that kmem_cache_alloc gives, or none.
pub memregion_map : ℕ → ℕ → Option Region → ℕ → ℕ → List Region → Mapped
unfolding map_placed place
memregion_map lower user_end fresh addr size rs =
    map_placed user_end fresh size rs (place lower addr size rs)
