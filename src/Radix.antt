-- ===== src/Radix.antt =====
-- The radix tree of kernel/radix_tree.c. A tree of struct radix_tree_node is a value: `parent` is the
-- node that a node hangs under, NULL for the root, which is what the last assertion of
-- radix_tree_remove asks; a leaf's pointer is a number. Of the node allocator a call has a
-- budget, the number of nodes that it gives in that call before it fails. Indices are below 2^30,
-- where `1 << (RADIX_TREE_WIDTH_POWER * height)` is defined.
pub mod Slots
pub mod Digits
pub mod Insert
pub mod Remove
pub mod Levels
pub mod Map
pub mod Wrapping
mod Tests
use operating_system_osv.Base.{
  ℕ, zero, suc, ◌+◌, ◌-◌, ◌*◌, ◌/◌, ◌%◌, ◌^◌, Option, none, some, Bool, true, false, leb, ltb, ◌==◌,
  ◌||◌, if◌then◌else◌, update,
}

-- What a slot holds: NULL, a leaf, or a node with its count and its slots.
pub data Slot : Type 0 where
  null : Slot
  leaf : ℕ → Slot
  node : ℕ → (ℕ → Slot) → Slot

pub record Root : Type 0 where
  pub height : ℕ
  pub root_node : Slot

-- What an insertion returns: ERR_OK, ERR_RADIX_TREE_ALLOC or ERR_RADIX_TREE_NODE_EXIST.
pub data Outcome : Type 0 where
  done alloc_error node_exist : Outcome

abbrev pub no_slots : ℕ → Slot
no_slots _ = null

-- radix_tree_node_create, when the allocator gives a node.
abbrev pub new_node : Slot
new_node = node 0 no_slots

abbrev pub slot_of : Slot → ℕ → Slot
slot_of null k = null
slot_of (leaf v) k = null
slot_of (node c s) k = s k

abbrev pub leaf_of : Slot → Option ℕ
leaf_of null = none
leaf_of (leaf v) = some v
leaf_of (node c s) = none

-- radix_tree_max_index plus one.
pub index_bound : ℕ → ℕ
index_bound zero = 0
index_bound (suc h) = 2 ^ (6 * suc h)

pub level_index : ℕ → ℕ → ℕ
level_index index level = index / 2 ^ (level * 6) % 64

pub radix_tree_construct : Root
radix_tree_construct = record { height = 0; root_node = null }

pub radix_tree_empty : Root → Bool
radix_tree_empty r = r.height == 0

-- radix_tree_add_child; `none` is ERR_RADIX_TREE_NODE_EXIST.
pub add_child : ℕ → Slot → ℕ → (ℕ → Slot) → Option Slot
add_child k child c s = elim (s k) [
  | null ↦ some (node (c + 1) (update s k child))
  | leaf v ↦ none
  | node d t ↦ none
]

-- radix_tree_find_parent(root, index, False) from a node at `level`, and the slot of the leaf.
pub lookup_at : ℕ → ℕ → Slot → Option ℕ
lookup_at zero index t = leaf_of (slot_of t (level_index index 0))
lookup_at (suc l) index t = lookup_at l index (slot_of t (level_index index (suc l)))

lookup_in : ℕ → ℕ → Slot → Option ℕ
unfolding lookup_at
lookup_in zero index t = none
lookup_in (suc l) index t = lookup_at l index t

pub radix_tree_lookup : ℕ → Root → Option ℕ
unfolding index_bound lookup_in
radix_tree_lookup index r =
    if leb (index_bound r.height) index then none else lookup_in r.height index r.root_node

-- One round of radix_tree_find_parent(root, index, True): the budget left, by how much the node's
-- count grows, and the child.
pub open_child : ℕ → Slot → Option (ℕ × ℕ × Slot)
open_child zero null = none
open_child (suc b) null = some (b, 1, new_node)
open_child b (leaf v) = some (b, 0, leaf v)
open_child b (node c s) = some (b, 0, node c s)

added : ℕ → (ℕ → Slot) → Option Slot → Outcome × Slot
added c s none = (node_exist, node c s)
added c s (some t) = (done, t)

-- radix_tree_find_parent(root, index, True) from a node at `level`, and the leaf put into its slot.
pub insert_at : ℕ → ℕ → ℕ → ℕ → Slot → Outcome × Slot
unfolding open_child add_child added
insert_at zero index v b null = (alloc_error, null)
insert_at zero index v b (leaf w) = (alloc_error, leaf w)
insert_at zero index v b (node c s) = added c s (add_child (level_index index 0) (leaf v) c s)
insert_at (suc l) index v b null = (alloc_error, null)
insert_at (suc l) index v b (leaf w) = (alloc_error, leaf w)
insert_at (suc l) index v b (node c s) = elim (open_child b (s (level_index index (suc l)))) [
  | none ↦ (alloc_error, node c s)
  | some (b', more, child) ↦
      let (r, child') = insert_at l index v b' child in
      (r, node (c + more) (update s (level_index index (suc l)) child'))
]

abbrev pub is_null : Slot → Bool
is_null null = true
is_null (leaf v) = false
is_null (node c s) = false

-- radix_tree_add_level, with a node from the allocator.
pub add_level : Root → Root
add_level r = record {
  height = suc r.height;
  root_node = if is_null r.root_node then new_node else node 1 (update no_slots 0 r.root_node);
}

-- The loop of radix_tree_insert that makes the tree high enough: the root that it leaves, and the
-- budget left, or `none` where a node is not to be had.
pub add_levels : ℕ → ℕ → Root → Option ℕ × Root
unfolding index_bound add_level
add_levels zero index r = if leb (index_bound r.height) index then (none, r) else (some 0, r)
add_levels (suc b) index r =
    let rest = add_levels b index (add_level r) in
    if leb (index_bound r.height) index then rest else (some (suc b), r)

insert_in : ℕ → ℕ → ℕ → ℕ → Slot → Outcome × Root
unfolding insert_at
insert_in zero index v b t = (alloc_error, record { height = 0; root_node = t })
insert_in (suc l) index v b t =
    let (r, t') = insert_at l index v b t in (r, record { height = suc l; root_node = t' })

levelled : ℕ → ℕ → Option ℕ × Root → Outcome × Root
unfolding insert_in
levelled index v (none, r) = (alloc_error, r)
levelled index v (some b, r) = insert_in r.height index v b r.root_node

pub radix_tree_insert : ℕ → ℕ → ℕ → Root → Outcome × Root
unfolding levelled add_levels
radix_tree_insert index v b r = levelled index v (add_levels b index r)

-- What the walk of radix_tree_remove up to a node leaves in that node's place, with the leaf; or
-- that no leaf was found; or a failed assertion.
pub data Removed : Type 0 where
  absent : Removed
  panicked : Removed
  removed : ℕ → Slot → Removed

-- One round of the walk up, with its assertions on the count and the slot: the slot is cleared, and
-- an empty node freed.
pub clear_slot : ℕ → ℕ → ℕ → (ℕ → Slot) → Removed
clear_slot v k c s =
    if (c == 0) || is_null (s k)
    then panicked
    else removed v (if c == 1 then null else node (c - 1) (update s k null))

above : ℕ → ℕ → (ℕ → Slot) → Removed → Removed
unfolding clear_slot
above k c s absent = absent
above k c s panicked = panicked
above k c s (removed v null) = clear_slot v k c s
above k c s (removed v (leaf w)) = removed v (node c (update s k (leaf w)))
above k c s (removed v (node d u)) = removed v (node c (update s k (node d u)))

pub remove_at : ℕ → ℕ → Slot → Removed
unfolding clear_slot above
remove_at zero index null = absent
remove_at zero index (leaf w) = absent
remove_at zero index (node c s) = elim (leaf_of (s (level_index index 0))) [
  | none ↦ absent
  | some v ↦ clear_slot v (level_index index 0) c s
]
remove_at (suc l) index null = absent
remove_at (suc l) index (leaf w) = absent
remove_at (suc l) index (node c s) =
    above (level_index index (suc l)) c s (remove_at l index (s (level_index index (suc l))))

root_removed : ℕ → Removed → Root → Option (Option ℕ × Root)
root_removed h absent r = some (none, r)
root_removed h panicked r = none
root_removed h (removed v null) r = some (some v, record { height = 0; root_node = null })
root_removed h (removed v (leaf w)) r = some (some v, record { height = h; root_node = leaf w })
root_removed h (removed v (node c s)) r = some (some v, record { height = h; root_node = node c s })

remove_in : ℕ → ℕ → Root → Option (Option ℕ × Root)
unfolding remove_at root_removed
remove_in zero index r = some (none, r)
remove_in (suc l) index r = root_removed (suc l) (remove_at l index r.root_node) r

-- `none` is a failed assertion.
pub radix_tree_remove : ℕ → Root → Option (Option ℕ × Root)
unfolding remove_in
radix_tree_remove index r = remove_in r.height index r
