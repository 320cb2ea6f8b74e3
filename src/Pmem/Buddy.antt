-- ===== src/Pmem/Buddy.antt =====
-- The binary buddy allocator of kernel/mm/pmem.c. A page is its index in `pagemap`; of `struct page`
-- the fields `refcnt` and `order` are kept, and `node` as the list that the page is linked in.
-- list_remove is given the list of the page's order, where freeblocks_insert has put it.
pub mod Cover
pub mod Moves
pub mod Search
pub mod Alloc
pub mod Refs
pub mod Owned
pub mod Merge
pub mod Free
pub mod Owners
use operating_system_osv.Base.{
  ℕ, zero, suc, ◌+◌, ◌-◌, ◌*◌, ◌/◌, ◌%◌, ◌^◌, List, [], ◌∷◌, ◌++◌, Option, none, some, Bool, true,
  false, ltb, leb, ◌==◌, ◌&&◌, if◌then◌else◌, update, erase,
}
use operating_system_osv.Pmem.Orders.{max_order, get_min_page_order}

pub record Pmem : Type 0 where
  pub refcnt : ℕ → ℕ
  pub order : ℕ → ℕ
  -- `freeblocks`
  pub free : ℕ → List ℕ
  -- `pagemap_end`, as an index
  pub n_pages : ℕ

pub data Found : Type 0 where
  found : ℕ → Pmem → Found
  exhausted : Found
  panicked : Found

-- `none` is NULL. Its assertion that `p` is a multiple of the size is with split_block; the calls
-- from merge_block leave it out.
pub buddy_of : ℕ → ℕ → ℕ → Option ℕ
buddy_of n_pages p o =
    let b = if p / 2 ^ o % 2 == 1 then p - 2 ^ o else p + 2 ^ o in
    if leb n_pages b then none else some b

-- list_append in freeblocks_insert, after `refcnt = 0`.
pub freeblocks_insert : ℕ → Pmem → Pmem
freeblocks_insert p s = record s {
  refcnt = update s.refcnt p 0;
  free = update s.free (s.order p) (s.free (s.order p) ++ (p ∷ []));
}

-- list_remove in freeblocks_remove, from list `o`.
pub freeblocks_remove : ℕ → ℕ → Pmem → Pmem
unfolding erase
freeblocks_remove p o s = record s { free = update s.free o (erase p (s.free o)) }

-- Both halves get order `o`, and the second goes to its free list.
insert_half : ℕ → ℕ → Pmem → Option ℕ → Found
unfolding freeblocks_insert
insert_half p o s none = panicked
insert_half p o s (some b) = found p (freeblocks_insert b (record s { order = update s.order b o }))

-- The `split` branch of find_freeblock, for a block of order `o + 1`. find_buddy asserts that `p`
-- is a multiple of its new size.
pub split_block : ℕ → ℕ → Pmem → Found
unfolding insert_half buddy_of
split_block p o s =
    if p % 2 ^ o == 0
    then insert_half p o (record s { order = update s.order p o }) (buddy_of s.n_pages p o)
    else panicked

split_found : ℕ → Found → Found
unfolding split_block
split_found o (found p s) = split_block p o s
split_found o exhausted = exhausted
split_found o panicked = panicked

-- find_freeblock(order, False), on the orders left above `order`: the head of the list, or a block
-- of the next order, split. A recursive call has `split` set.
pub find_freeblock : ℕ → ℕ → Pmem → Found
unfolding split_found
find_freeblock zero order s = exhausted
find_freeblock (suc rounds) order s = elim (s.free order) [
  | p ∷ ps ↦ found p (freeblocks_remove p order s)
  | [] ↦ split_found order (find_freeblock rounds (order + 1) s)
]

-- The end of pmem_nalloc_internal, with its two assertions.
pub claim : Found → Found
claim (found p s) =
    if (s.refcnt p == 0) && ltb 0 p
    then found p (record s { refcnt = update s.refcnt p 1 })
    else panicked
claim exhausted = exhausted
claim panicked = panicked

alloc_order : Option ℕ → Pmem → Found
unfolding find_freeblock claim
alloc_order none s = panicked
alloc_order (some o) s = claim (find_freeblock (max_order + 1 - o) o s)

-- The buddy branch of pmem_nalloc_internal, with its assertion `n > 0`.
pub buddy_nalloc : ℕ → Pmem → Found
unfolding alloc_order
buddy_nalloc n s = if n == 0 then panicked else alloc_order (get_min_page_order n) s

-- One step of merge_block: the buddy, if it is free and of the same order.
pub mergeable : ℕ → Pmem → Option ℕ → Option ℕ
mergeable p s none = none
mergeable p s (some b) = if (s.refcnt b == 0) && (s.order b == s.order p) then some b else none

-- The buddy leaves its list, and the lower of the two blocks grows by an order.
pub join : ℕ → ℕ → Pmem → ℕ × Pmem
unfolding freeblocks_remove
join p b s =
    let s' = freeblocks_remove b (s.order b) s in
    let low = if ltb p b then p else b in
    (low, record s' { order = update s'.order low (s'.order low + 1) })

-- merge_block, on the orders left to MAX_ORDER, without its assertions on the page's count and order.
pub merge_block : ℕ → ℕ → Pmem → ℕ × Pmem
unfolding mergeable join buddy_of
merge_block zero p s = (p, s)
merge_block (suc rounds) p s = elim (mergeable p s (buddy_of s.n_pages p (s.order p))) [
  | none ↦ (p, s)
  | some b ↦ let (q, s') = join p b s in merge_block rounds q s'
]

-- The buddy branch of pmem_nfree_internal: the page's whole block is freed, whatever `n` is.
pub buddy_nfree : ℕ → Pmem → Pmem
unfolding merge_block freeblocks_insert
buddy_nfree p s =
    let s' = record s { refcnt = update s.refcnt p 0 } in
    let (q, s'') = merge_block (max_order - s.order p) p s' in freeblocks_insert q s''
