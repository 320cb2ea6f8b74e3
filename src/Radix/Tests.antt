-- ===== src/Radix/Tests.antt =====
-- Radix trees on concrete indices.
use operating_system_osv.Base.{◌+◌, ◌<◌, ◌≡◌, refl, arith, some}
use operating_system_osv.Radix.{
  Root, Outcome, level_index, radix_tree_construct, radix_tree_insert, radix_tree_remove,
  radix_tree_lookup, index_bound,
}
use operating_system_osv.Radix.Levels.{IsValid}
use operating_system_osv.Radix.Map.{
  Inserted, RemovedAt, radix_tree_insert-Inserted, radix_tree_remove-RemovedAt,
}
use operating_system_osv.Radix.Wrapping.{radix_tree_remove_wraps}

empty-IsValid : IsValid radix_tree_construct
unfolding radix_tree_construct
empty-IsValid = record { full = refl; low = omega arith }

-- Leaf 7 at index 65 makes a tree of two levels; leaf 9 goes beside it.
abbrev one_leaf : Root
one_leaf = (radix_tree_insert 65 7 20 radix_tree_construct).1

one_leaf_lookup : radix_tree_lookup 65 one_leaf ≡ some 7
unfolding radix_tree_insert radix_tree_construct level_index radix_tree_lookup
one_leaf_lookup = refl

two_leaves_lookup : radix_tree_lookup 65 (radix_tree_insert 64 9 20 one_leaf).1 ≡ some 7
unfolding radix_tree_insert radix_tree_construct level_index radix_tree_lookup
two_leaves_lookup = refl

no_room : (radix_tree_insert 65 7 2 radix_tree_construct).0 ≡ Outcome.alloc_error
unfolding radix_tree_insert radix_tree_construct level_index
no_room = refl

radix_tree_insert-Inserted_example :
    Inserted 65 7 20 radix_tree_construct (radix_tree_insert 65 7 20 radix_tree_construct)
radix_tree_insert-Inserted_example =
    radix_tree_insert-Inserted 65 7 20 radix_tree_construct empty-IsValid (omega arith)

one_leaf-IsValid : IsValid one_leaf
unfolding radix_tree_insert radix_tree_construct level_index
one_leaf-IsValid =
    (radix_tree_insert-Inserted 65 7 20 radix_tree_construct empty-IsValid (omega arith)).0

one_leaf_bound : 65 < index_bound one_leaf.height
unfolding radix_tree_insert radix_tree_construct level_index index_bound
one_leaf_bound = omega arith

radix_tree_remove-RemovedAt_example : RemovedAt 65 one_leaf (radix_tree_remove 65 one_leaf)
radix_tree_remove-RemovedAt_example =
    radix_tree_remove-RemovedAt 65 one_leaf one_leaf-IsValid one_leaf_bound

radix_tree_remove_wraps_example :
    radix_tree_remove (65 + index_bound one_leaf.height) one_leaf ≡ radix_tree_remove 65 one_leaf
radix_tree_remove_wraps_example = radix_tree_remove_wraps 65 one_leaf
