-- ===== src/Scheduler/Router/Examples.antt =====
-- A line of four nodes, 0 to 3, and node 4 beside it, which has no link.
use tdmh.Base.{
  ℕ, suc, ◌≡◌, refl, ◌∙◌, nat_keyed, lookup, insert, List, [], ◌∷◌, some, Bool, false, ◌==◌, ◌||◌,
  ◌&&◌, ltb, arith, select_from, elem-select_from,
}
use tdmh.Topology.Snapshot.{Snapshot, IsNetwork}
use tdmh.Scheduler.Router.{
  breadth_first_search, search_open, discover, construct_path, path_to_schedule, hops,
}
use tdmh.Stream.Params.{MasterStreamInfo, accepted}
use tdmh.Scheduler.Element.{ScheduleElement, hop_element}
use tdmh.Scheduler.Router.Run.{
  run, route_stream, temporal_copies, spatial_copies, secondary_path, remove_path,
  depth_first_search, dfs_children,
}
use tdmh.Scheduler.Router.Run.Served.{AreRouted, run-AreRouted}
use tdmh.Scheduler.Router.Search.{Outcome, breadth_first_search_lem}

abbrev beside : ℕ → ℕ → Bool
beside x y = (suc x == y && ltb y 4) || (suc y == x && ltb x 4)

abbrev line : Snapshot
line = record {
  max_nodes = 8;
  has_node = λ x. ltb x 5;
  has_edge = beside;
  get_edges = λ x. select_from 0 8 (beside x);
}

line-IsNetwork : IsNetwork line
line-IsNetwork = record {
  symmetric = λ x y hx hy. ground arith;
  listed = λ x y. elem-select_from 0 8 y (beside x) ∙ ground arith;
  node_lt = λ x e. ground arith;
}

no_loops : (x : ℕ) → line.has_edge x x ≡ false
no_loops x = ground arith

breadth_first_search_lem_example :
    (path : List ℕ) × (breadth_first_search line 0 3 ≡ some path) × Outcome line 0 3 path
breadth_first_search_lem_example =
    breadth_first_search_lem line line-IsNetwork 0 3 no_loops refl refl

breadth_first_search_run : breadth_first_search line 0 3 ≡ some (0 ∷ 1 ∷ 2 ∷ 3 ∷ [])
unfolding breadth_first_search search_open discover lookup insert construct_path
breadth_first_search_run = refl

breadth_first_search_unjoined : breadth_first_search line 0 4 ≡ some []
unfolding breadth_first_search search_open discover lookup insert
breadth_first_search_unjoined = refl

-- A stream from 0 to 2 with spatial redundancy, of which both copies follow the only path.
abbrev stream : MasterStreamInfo
stream = record {
  id = record { src = 0; dst = 2; src_port = 1; dst_port = 1 };
  parameters = record { redundancy = 2; period = 1; payload_size = 10; direction = 0 };
  status = accepted;
}

run-AreRouted_example :
    (blocks : List (List ScheduleElement)) × (run line 5 (stream ∷ []) ≡ some blocks)
    × AreRouted line line-IsNetwork no_loops 5 (stream ∷ []) blocks
run-AreRouted_example = run-AreRouted line line-IsNetwork no_loops 5 (stream ∷ [])

run_on_line :
    run line 5 (stream ∷ [])
    ≡ some (
        (hop_element stream 0 1 ∷ hop_element stream 1 2 ∷ [])
        ∷ (hop_element stream 0 1 ∷ hop_element stream 1 2 ∷ [])
        ∷ [])
unfolding run route_stream breadth_first_search search_open discover lookup insert construct_path
    path_to_schedule temporal_copies hops spatial_copies secondary_path remove_path
    depth_first_search dfs_children
run_on_line = refl
