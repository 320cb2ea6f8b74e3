-- ===== src/Links/Tests.antt =====
-- A list with header 0 that holds the nodes 1 and 2.
use operating_system_osv.Base.{ℕ, ◌≡◌, refl, List, [], ◌∷◌, true, update, arith, inl, erase, ◌↔◌}
use operating_system_osv.Links.{Links, list_init, list_empty, list_append, list_remove}
use operating_system_osv.Links.Sequence.{
  Holds, list_append-Holds, list_remove-Holds, list_empty_lem,
}

abbrev two_nodes : Links
two_nodes = record {
  next = update (update (update (λ i. i) 0 1) 1 2) 2 0;
  prev = update (update (update (λ i. i) 0 2) 1 0) 2 1;
}

abbrev nodes : List ℕ
nodes = 1 ∷ 2 ∷ []

two_nodes-Holds : Holds 0 nodes two_nodes
two_nodes-Holds = record {
  linked = (refl, refl, (refl, refl, (refl, refl)));
  distinct = ground arith;
}

list_append-Holds_example : Holds 0 (1 ∷ 2 ∷ 5 ∷ []) (list_append 0 5 two_nodes)
list_append-Holds_example =
    list_append-Holds 0 5 nodes two_nodes two_nodes-Holds (λ m. ground arith)

list_remove-Holds_example : Holds 0 (erase 1 nodes) (list_remove 1 two_nodes)
list_remove-Holds_example = list_remove-Holds 0 1 nodes two_nodes two_nodes-Holds (inl refl)

list_empty_lem_example :
    Holds 0 [] (list_init 0 two_nodes) × ((list_empty 0 two_nodes ≡ true) ↔ (nodes ≡ []))
list_empty_lem_example = list_empty_lem 0 nodes two_nodes two_nodes-Holds
