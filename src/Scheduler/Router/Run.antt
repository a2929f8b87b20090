-- ===== src/Scheduler/Router/Run.antt =====
-- Router::run: the paths of streams, with those for redundancy, for which depthFirstSearch lists
-- paths to choose from.
pub mod Connected
pub mod Served
use tdmh.Base.{
  ℕ, zero, suc, ◌+◌, ◌-◌, ◌==◌, ltb, nat_keyed, Set, contains, add, erase, elem, length, List, [],
  ◌∷◌, ◌++◌, Option, none, some, Bool, true, false, ◌&&◌, ◌||◌, not, if◌then◌else◌,
}
use tdmh.Queue.{pop_back}
use tdmh.Topology.Snapshot.{Snapshot}
use tdmh.Stream.Params.{MasterStreamInfo, set_redundancy}
use tdmh.Stream.Redundancy.{double, double_spatial, triple, triple_spatial}
use tdmh.Scheduler.Element.{ScheduleElement, single_hop_element}
use tdmh.Scheduler.Router.{breadth_first_search, path_to_schedule}

-- The nodes that are marked, and the paths that were found.
pub record Dfs : Type 0 where
  pub visited : Set ℕ
  pub all_paths : List (List ℕ)

-- `dfsRun` at a node that leads to the path; the loop over its neighbours counts the limit down.
-- The node is marked while the call lasts.
abbrev pub enter : ℕ → ℕ → List ℕ → (Dfs → Dfs) → Dfs → Dfs
enter node target path children s =
    let s' =
      if node == target
      then record { visited = add node s.visited; all_paths = s.all_paths ++ path ∷ [] }
      else children (record s { visited = add node s.visited }) in
    record s' { visited = erase node s'.visited }

unfoldable pub dfs_children : ℕ → Snapshot → ℕ → List ℕ → List ℕ → Dfs → Dfs
dfs_children limit g target path [] s = s
dfs_children zero g target path (child ∷ children) s = s
dfs_children (suc limit) g target path (child ∷ children) s =
    let deeper = path ++ child ∷ [] in
    let found =
      enter child target deeper (dfs_children limit g target deeper (g.get_edges child)) s in
    dfs_children limit g target path children (if contains child s.visited then s else found)

unfoldable pub depth_first_search : Snapshot → ℕ → ℕ → ℕ → List (List ℕ)
depth_first_search g src dst limit =
    (enter src dst (src ∷ []) (dfs_children (suc limit) g dst (src ∷ []) (g.get_edges src))
      (record { visited = []; all_paths = [] })).all_paths

-- The loop of `findShortestPath`, with the best path so far; `min` is its length.
unfoldable pub shortest : List ℕ → List (List ℕ) → List ℕ
shortest best [] = best
shortest best (path ∷ paths) =
    shortest (if ltb (length path) (length best) then path else best) paths

abbrev pub avoids : List ℕ → List ℕ → Bool
avoids nodes [] = true
avoids nodes (e ∷ path) = not (elem e nodes) && avoids nodes path

abbrev pub inner : List ℕ → List ℕ
inner [] = []
inner (x ∷ path) = pop_back path

unfoldable pub find_independent_paths : List (List ℕ) → List ℕ → List (List ℕ)
find_independent_paths [] primary = []
find_independent_paths (p ∷ paths) primary =
    let rest = find_independent_paths paths primary in
    if avoids (inner primary) p then p ∷ rest else rest

abbrev pub same_path : List ℕ → List ℕ → Bool
same_path [] [] = true
same_path [] (y ∷ ys) = false
same_path (x ∷ xs) [] = false
same_path (x ∷ xs) (y ∷ ys) = x == y && same_path xs ys

-- `std::list::remove`.
unfoldable pub remove_path : List ℕ → List (List ℕ) → List (List ℕ)
remove_path path [] = []
remove_path path (p ∷ paths) =
    let rest = remove_path path paths in if same_path p path then rest else p ∷ rest

-- The second path of a stream: the shortest that is independent of the first, or the shortest.
abbrev pub pick : List (List ℕ) → List (List ℕ) → Option (List ℕ)
pick [] independent = none
pick (p ∷ paths) [] = some (shortest p (p ∷ paths))
pick (p ∷ paths) (q ∷ independent) = some (shortest q (q ∷ independent))

unfoldable pub secondary_path : List (List ℕ) → List ℕ → Option (List ℕ)
secondary_path extra path =
    let others = remove_path path extra in pick others (find_independent_paths others path)

abbrev pub is_redundancy : ℕ → MasterStreamInfo → Bool
is_redundancy r stream = stream.parameters.redundancy == r

-- A stream between neighbours, whose redundancy is made one in time.
abbrev pub downgraded : MasterStreamInfo → MasterStreamInfo
downgraded stream =
    if is_redundancy double_spatial stream
    then set_redundancy double stream
    else if is_redundancy triple_spatial stream
    then set_redundancy triple stream
    else stream

abbrev pub single_copies : MasterStreamInfo → List ScheduleElement → List (List ScheduleElement)
single_copies stream single_hop =
    if is_redundancy double stream
    then single_hop ∷ []
    else if is_redundancy triple stream
    then single_hop ∷ single_hop ∷ []
    else []

unfoldable pub route_single : MasterStreamInfo → List (List ScheduleElement)
route_single stream =
    let single_hop = single_hop_element (downgraded stream) ∷ [] in
    single_hop ∷ single_copies (downgraded stream) single_hop

-- The copies of the first path.
unfoldable pub temporal_copies :
    MasterStreamInfo → List ScheduleElement → List (List ScheduleElement)
temporal_copies stream schedule =
    if is_redundancy double stream || is_redundancy triple_spatial stream
    then schedule ∷ []
    else if is_redundancy triple stream
    then schedule ∷ schedule ∷ []
    else []

-- The further path, or where there is none a copy of the first; `more_hops` is 1.
unfoldable pub spatial_copies :
    Snapshot → MasterStreamInfo → List ℕ → List ScheduleElement → List (List ScheduleElement)
spatial_copies g stream path schedule =
    if is_redundancy double_spatial stream || is_redundancy triple_spatial stream
    then elim (secondary_path (depth_first_search g stream.id.src stream.id.dst (length path + 1))
        path) [ none ↦ schedule ∷ [] | some solution ↦ path_to_schedule solution stream ∷ [] ]
    else []

-- What follows the search for the first path, which is empty if there is none.
abbrev pub route_path : Snapshot → ℕ → MasterStreamInfo → List ℕ → List (List ScheduleElement)
route_path g max_hops stream [] = []
route_path g max_hops stream (src ∷ hops) =
    if ltb max_hops (length hops)
    then []
    else let schedule = path_to_schedule (src ∷ hops) stream in
      schedule ∷ (temporal_copies stream schedule ++ spatial_copies g stream (src ∷ hops) schedule)

-- The body of the loop of `run`, for a stream between nodes with ids in range, where reads of the
-- graph do not throw. `none` stands for a search that does not end.
unfoldable pub route_stream : Snapshot → ℕ → MasterStreamInfo → Option (List (List ScheduleElement))
route_stream g max_hops stream =
    if g.has_edge stream.id.src stream.id.dst
    then some (route_single stream)
    else elim (breadth_first_search g stream.id.src stream.id.dst) [
      | none ↦ none
      | some path ↦ some (route_path g max_hops stream path)
    ]

unfoldable pub run : Snapshot → ℕ → List MasterStreamInfo → Option (List (List ScheduleElement))
run g max_hops [] = some []
run g max_hops (stream ∷ streams) = elim (route_stream g max_hops stream) [
  | none ↦ none
  | some blocks ↦ elim (run g max_hops streams) [ none ↦ none | some rest ↦ some (blocks ++ rest) ]
]
