-- ===== src/Topology/Graph/Examples.antt =====
-- A network of 16 nodes with the links 0-1 and 2-3.
use tdmh.Base.{
  ℕ, ◌≡◌, refl, subst, nat_keyed, lookup, insert, erase, [], ◌∷◌, Option, some, Bool, true, false,
  arith,
}
use tdmh.Bitset.{RuntimeBitset, new_bitset, get_bit?, set_bit?}
use tdmh.Bitset.Byte.{test_bit, write_bit}
use tdmh.Topology.Graph.{
  Graph, new_graph, get_bit, get_edges, get_all_edges, add_edge, remove_unreachable_nodes, expand,
}
use tdmh.Topology.Graph.Edges.{IsGraph, add_edge_lem, new_graph-IsGraph}
use tdmh.Topology.Graph.Unreachable.{Pruned, remove_unreachable_nodes_lem}

abbrev row : ℕ → RuntimeBitset
row first = record { bit_count = 16; byte_size = 2; content = first ∷ 0 ∷ [] }

abbrev one_link : Graph
one_link = record {
  max_nodes = 16;
  possibly_not_connected = false;
  rows = (0, row 64) ∷ (1, row 128) ∷ [];
}

abbrev two_links : Graph
two_links = record one_link { rows = (0, row 64) ∷ (1, row 128) ∷ (2, row 16) ∷ (3, row 32) ∷ [] }

one_link_runs : add_edge (new_graph 16) 0 1 ≡ some (true, one_link)
unfolding add_edge new_graph get_bit lookup insert set_bit? get_bit? new_bitset test_bit write_bit
one_link_runs = refl

two_links_runs : add_edge one_link 2 3 ≡ some (true, two_links)
unfolding add_edge get_bit lookup insert set_bit? get_bit? new_bitset test_bit write_bit
two_links_runs = refl

IsGraph-of_run :
    {a b : Bool} {r : Option (Bool × Graph)} {g h : Graph}
    → r ≡ some (a, g)
    → r ≡ some (b, h)
    → IsGraph g
    → IsGraph h
IsGraph-of_run {a} {b} {r} {g} {h} p q ok = subst IsGraph (ground arith) ok

one_link-IsGraph : IsGraph one_link
unfolding new_graph
one_link-IsGraph =
    let (g, e, _, ok, _) =
      add_edge_lem (new_graph 16) 0 1 (new_graph-IsGraph 2) (omega arith) (omega arith) in
    IsGraph-of_run e one_link_runs ok

two_links-IsGraph : IsGraph two_links
two_links-IsGraph =
    let (g, e, _, ok, _) = add_edge_lem one_link 2 3 one_link-IsGraph (omega arith) (omega arith) in
    IsGraph-of_run e two_links_runs ok

neighbours : (get_edges two_links 0 ≡ 1 ∷ []) × (get_all_edges two_links ≡ (0, 1) ∷ (2, 3) ∷ [])
unfolding get_edges get_all_edges lookup get_bit? test_bit
neighbours = (refl, refl)

pruned_runs : remove_unreachable_nodes two_links ≡ some (true, one_link)
unfolding remove_unreachable_nodes expand get_bit lookup insert erase get_bit? test_bit
pruned_runs = refl

remove_unreachable_nodes_lem_example :
    (removed : Bool) × (g' : Graph) × (remove_unreachable_nodes two_links ≡ some (removed, g'))
    × Pruned two_links removed g'
remove_unreachable_nodes_lem_example =
    remove_unreachable_nodes_lem two_links two_links-IsGraph (omega arith)
