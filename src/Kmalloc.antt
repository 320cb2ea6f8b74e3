-- ===== src/Kmalloc.antt =====
-- kernel/mm/kmalloc.c: the slab allocator. A slab is known by a number; an object is its slab and
-- its slot, whose address is `objs + obj_size * slot`. pmem_nalloc's answer is an argument: the
-- number of the new slab, or none. The 0x2b fill of objects is not part of this model.
pub mod Slots
pub mod Cache
pub mod Objects
mod Tests
use operating_system_osv.Base.{
  ℕ, zero, suc, ◌+◌, ◌-◌, ◌*◌, ◌/◌, List, [], ◌∷◌, ◌++◌, Option, none, some, Bool, true, false, leb,
  ltb, ◌==◌, if◌then◌else◌, update, erase, set, get_or,
}

abbrev pub pg_size : ℕ
pg_size = 4096

abbrev pub min_objs_per_slab : ℕ
min_objs_per_slab = 128

-- sizeof(struct slab) is a parameter of these sizes.
abbrev pub pages_for : ℕ → ℕ
pages_for bytes = (bytes + pg_size - 1) / pg_size

pub slab_pages : ℕ → ℕ → ℕ
slab_pages header obj_size = pages_for (header + (obj_size + 4) * min_objs_per_slab)

pub slab_objs : ℕ → ℕ → ℕ
unfolding slab_pages
slab_objs header obj_size = (slab_pages header obj_size * pg_size - header) / (obj_size + 4)

-- `struct slab`: `free` and the free index array, in which `none` is the end marker -1.
pub record Slab : Type 0 where
  pub free : Option ℕ
  pub freearr : List (Option ℕ)

-- `for (i = 0; i < n_objs - 1; i++) arr[i] = i + 1; arr[n_objs - 1] = -1`, from index `i` on.
pub free_indices : ℕ → ℕ → List (Option ℕ)
free_indices zero i = []
free_indices (suc zero) i = none ∷ []
free_indices (suc (suc n)) i = some (i + 1) ∷ free_indices (suc n) (i + 1)

pub new_slab : ℕ → Slab
unfolding free_indices
new_slab n_objs = record { free = some 0; freearr = free_indices n_objs 0 }

-- The slot that kmem_cache_alloc takes; `none` is its assertion `slab->free != -1`.
take_at : Slab → Option ℕ → Option (ℕ × Slab)
take_at s none = none
take_at s (some i) = some (i, record s { free = get_or s.freearr i none })

pub take_slot : Slab → Option (ℕ × Slab)
unfolding take_at
take_slot s = take_at s s.free

-- `SLAB_FREEARR(slab)[index] = slab->free; slab->free = index`.
pub give_slot : ℕ → Slab → Slab
give_slot i s = record { free = some i; freearr = set s.freearr i s.free }

-- The slot of an address, as kmem_cache_free computes it.
pub slot_address : ℕ → ℕ → ℕ → ℕ
slot_address objs obj_size i = objs + obj_size * i

pub slot_index : ℕ → ℕ → ℕ → ℕ
slot_index objs obj_size addr = (addr - objs) / obj_size

-- `struct kmem_cache`: its slabs by number, and the two lists.
pub record KmemCache : Type 0 where
  pub slab : ℕ → Slab
  pub free : List ℕ
  pub full : List ℕ

abbrev pub is_full : Option ℕ → Bool
is_full none = true
is_full (some _) = false

pub data Allocated : Type 0 where
  object : ℕ → ℕ → KmemCache → Allocated
  no_memory : Allocated
  panicked : Allocated

-- The slab's new state, and its move to the list of full slabs.
store_taken : ℕ → KmemCache → Slab → KmemCache
store_taken k c s =
    let c' = record c { slab = update c.slab k s } in
    if is_full s.free then record c' { free = erase k c.free; full = c.full ++ (k ∷ []) } else c'

taken : ℕ → KmemCache → Option (ℕ × Slab) → Allocated
unfolding store_taken
taken k c none = panicked
taken k c (some (i, s)) = object k i (store_taken k c s)

-- slab_create, which puts the new slab on the free list.
add_slab : ℕ → ℕ → KmemCache → KmemCache
unfolding new_slab
add_slab n_objs k c = record c {
  slab = update c.slab k (new_slab n_objs);
  free = c.free ++ (k ∷ []);
}

alloc_new : ℕ → Option ℕ → KmemCache → Allocated
unfolding add_slab taken take_slot
alloc_new n_objs none c = no_memory
alloc_new n_objs (some k) c = let c' = add_slab n_objs k c in taken k c' (take_slot (c'.slab k))

alloc_from : ℕ → Option ℕ → KmemCache → List ℕ → Allocated
unfolding alloc_new taken take_slot
alloc_from n_objs fresh c [] = alloc_new n_objs fresh c
alloc_from n_objs fresh c (k ∷ _) = taken k c (take_slot (c.slab k))

pub kmem_cache_alloc : ℕ → Option ℕ → KmemCache → Allocated
unfolding alloc_from
kmem_cache_alloc n_objs fresh c = alloc_from n_objs fresh c c.free

pub kmem_cache_free : ℕ → ℕ → KmemCache → KmemCache
unfolding give_slot
kmem_cache_free k i c =
    let c' = record c { slab = update c.slab k (give_slot i (c.slab k)) } in
    if is_full (c.slab k).free
    then record c' { full = erase k c.full; free = c.free ++ (k ∷ []) }
    else c'

-- `kmalloc_allocators`, and the search of kmalloc.
abbrev pub kmalloc_sizes : List ℕ
kmalloc_sizes = 32 ∷ 64 ∷ 128 ∷ 256 ∷ 512 ∷ 1024 ∷ 2048 ∷ 4096 ∷ []

find_size : ℕ → List ℕ → Option ℕ
find_size size [] = none
find_size size (c ∷ cs) = if leb size c then some c else find_size size cs

-- The object size that kmalloc allocates, or none for NULL.
pub kmalloc_class : ℕ → Option ℕ
unfolding find_size
kmalloc_class size =
    if size == 0 then none else if ltb 4096 size then none else find_size size kmalloc_sizes
