-- ===== src/Topology/Examples.antt =====
-- A graph as a network, and a topology that node 0 reports while a schedule is computed: it has
-- lost node 1 and hears node 2.
use tdmh.Base.{arith, ◌≡◌, refl, [], ◌∷◌, some, ℕ, true, false, lookup, insert, erase, order_link}
use tdmh.Bitset.{RuntimeBitset, get_bit?, set_bit?, new_bitset, is_empty}
use tdmh.Bitset.Byte.{test_bit, write_bit}
use tdmh.Topology.Graph.{Graph, new_graph, add_edge, remove_edge, get_bit}
use tdmh.Topology.Collect.{
  NetworkTopology, TopologyElement, receive_bit, receive_bits, do_received_topology,
  schedule_changed, update_scheduler_network_graph, write_back_network_graph,
}
use tdmh.Topology.Collect.Deferred.{over, do_received_topology-schedule_changed}
use tdmh.Topology.Collect.Reported.{Reports, IsTopology, do_received_topology_lem}
use tdmh.Topology.Collect.Lost.{receive_all, write_back_network_graph-update}
use tdmh.Topology.Graph.Edges.{IsGraph, new_graph-IsGraph, add_edge_lem}

abbrev added : (g' : Graph) × IsGraph g'
unfolding new_graph
added =
    let (g', e, kept, ok, rewired) =
      add_edge_lem (new_graph 16) 0 1 (new_graph-IsGraph 2) (omega arith) (omega arith) in
    (g', ok)

abbrev row : ℕ → RuntimeBitset
row first = record { bit_count = 16; byte_size = 2; content = first ∷ 0 ∷ [] }

abbrev before : Graph
before = record {
  max_nodes = 16;
  possibly_not_connected = false;
  rows = (0, row 64) ∷ (1, row 128) ∷ (2, row 16) ∷ (3, row 32) ∷ [];
}

abbrev after : Graph
after = record {
  max_nodes = 16;
  possibly_not_connected = true;
  rows = (0, row 32) ∷ (2, row 144) ∷ (3, row 32) ∷ [];
}

abbrev idle : NetworkTopology
idle = record {
  channel_spatial_reuse = true;
  use_weak_topologies = false;
  graph = before;
  weak_graph = new_graph 16;
  modified_flag = false;
  schedule_in_progress = false;
  used_links = ((0, 1), tt) ∷ [];
  removed_while_scheduling = [];
  new_links_causing_reschedule = [];
  added_while_scheduling = [];
}

abbrev busy : NetworkTopology
busy = record idle { schedule_in_progress = true }

abbrev reported : TopologyElement
reported = record { id = 0; neighbors = row 32; weak_neighbors = row 0 }

abbrev updated : NetworkTopology
updated = record busy {
  graph = after;
  removed_while_scheduling = ((0, 1), tt) ∷ [];
  added_while_scheduling = ((0, 2), tt) ∷ [];
}

reported_runs : do_received_topology reported busy ≡ some updated
unfolding do_received_topology receive_bits receive_bit add_edge remove_edge get_bit lookup insert
    erase set_bit? get_bit? new_bitset test_bit write_bit is_empty order_link
reported_runs = refl

do_received_topology-schedule_changed_example :
    do_received_topology reported (schedule_changed (((0, 1), tt) ∷ []) [] busy)
    ≡ over (schedule_changed (((0, 1), tt) ∷ []) []) (do_received_topology reported busy)
do_received_topology-schedule_changed_example =
    do_received_topology-schedule_changed (((0, 1), tt) ∷ []) [] reported busy refl

received_runs :
    receive_all (reported ∷ []) (update_scheduler_network_graph (new_graph 16) idle).1
    ≡ some updated
unfolding update_scheduler_network_graph do_received_topology receive_bits receive_bit add_edge
    remove_edge get_bit lookup insert erase set_bit? get_bit? new_bitset test_bit write_bit is_empty
    order_link
received_runs = refl

-- The link from 0 to 2 that was reported is gone after the write-back.
write_back_network_graph-update_example :
    write_back_network_graph before updated ≡ (true, record updated { graph = before })
write_back_network_graph-update_example =
    write_back_network_graph-update (new_graph 16) before (reported ∷ []) idle updated received_runs

abbrev empty : NetworkTopology
empty = record idle { graph = new_graph 16 }

do_received_topology_lem_example :
    (t' : NetworkTopology) × (do_received_topology reported empty ≡ some t')
    × IsTopology t'
    × Reports 0 (row 32) (new_graph 16) t'.graph
    × (false ≡ true → Reports 0 (row 0) (new_graph 16) t'.weak_graph)
    × (false ≡ false → t'.weak_graph ≡ new_graph 16)
unfolding new_graph
do_received_topology_lem_example =
    do_received_topology_lem reported empty
      (record { strong = new_graph-IsGraph 2; weak = new_graph-IsGraph 2 })
      (record { node = omega arith; weak_node = omega arith; bits = refl; weak_bits = refl })
