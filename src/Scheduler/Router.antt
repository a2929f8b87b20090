-- ===== src/Scheduler/Router.antt =====
-- schedule_computation.cpp: Router, which finds paths for the streams in the graph of the topology
-- snapshot. The vectors of visited nodes are the sets of the nodes that are marked in them: they
-- are read at nodes that `getEdges` lists, whose numbers are below their size.
pub mod Paths
pub mod Discover
pub mod Search
pub mod Run
mod Examples
use tdmh.Base.{
  ℕ, zero, suc, ◌+◌, ◌-◌, ◌==◌, ltb, Map, nat_keyed, lookup, insert, Set, contains, add, erase,
  elem, length, List, [], ◌∷◌, ◌++◌, Option, none, some, Bool, true, false, ◌||◌, not,
  if◌then◌else◌,
}
use tdmh.Topology.Snapshot.{Snapshot}
use tdmh.Stream.Params.{StreamId, MasterStreamInfo, StreamParameters, set_redundancy}
use tdmh.Stream.Redundancy.{double, double_spatial, triple, triple_spatial}
use tdmh.Scheduler.Element.{ScheduleElement, hop_element, single_hop_element}

-- `parent_of[node]`, which is 0 where there is no entry.
abbrev pub parent_of : Map ℕ ℕ → ℕ → ℕ
parent_of parents node = elim (lookup node parents) [ none ↦ 0 | some p ↦ p ]

-- The loop of `construct_path`, with fuel; the path is built from its end.
unfoldable pub construct_path : ℕ → ℕ → Map ℕ ℕ → Option (List ℕ)
construct_path zero node parents = none
construct_path (suc fuel) node parents =
    let rest = construct_path fuel (parent_of parents node) parents in
    if parent_of parents node == node
    then some (node ∷ [])
    else elim rest [ none ↦ none | some path ↦ some (path ++ node ∷ []) ]

-- The variables of `breadthFirstSearch`.
pub record Bfs : Type 0 where
  pub visited : Set ℕ
  pub open_set : List ℕ
  pub parents : Map ℕ ℕ

-- The loop over the neighbours of a node.
unfoldable pub discover : ℕ → List ℕ → Bfs → Bfs
discover node [] w = w
discover node (child ∷ children) w =
    if contains child w.visited || elem child w.open_set
    then discover node children w
    else discover node children (record {
      visited = w.visited;
      open_set = w.open_set ++ child ∷ [];
      parents = insert child node w.parents;
    })

abbrev pub visit : ℕ → Bfs → Bfs
visit node w = record w { visited = add node w.visited }

-- The loop over the open nodes, with fuel. The empty path stands for no path.
unfoldable pub search_open : ℕ → Snapshot → ℕ → Bfs → Option (List ℕ)
search_open zero g dest w = none
search_open (suc fuel) g dest w = elim w.open_set [
  | [] ↦ some []
  | node ∷ rest ↦ elim (node == dest) [
    | true ↦ construct_path (suc (length w.parents)) node w.parents
    | false ↦
        search_open fuel g dest
          (visit node (discover node (g.get_edges node) (record w { open_set = rest })))
  ]
]

abbrev pub start_at : ℕ → Bfs
start_at root = record {
  visited = add root [];
  open_set = root ∷ [];
  parents = insert root root [];
}

unfoldable pub breadth_first_search : Snapshot → ℕ → ℕ → Option (List ℕ)
breadth_first_search g root dest =
    if not (g.has_node root) || not (g.has_node dest)
    then some []
    else search_open (suc g.max_nodes) g dest (start_at root)

-- The loop of `pathToSchedule`, from the node `tx` on.
unfoldable pub hops : MasterStreamInfo → ℕ → List ℕ → List ScheduleElement
hops stream tx [] = []
hops stream tx (rx ∷ path) =
    if rx == tx then hops stream tx path else hop_element stream tx rx ∷ hops stream rx path

unfoldable pub path_to_schedule : List ℕ → MasterStreamInfo → List ScheduleElement
path_to_schedule [] stream = []
path_to_schedule (tx ∷ path) stream = hops stream tx (tx ∷ path)
