-- ===== src/Topology/Graph.antt =====
-- network_graph.h and .cpp, ImmediateRemovalNetworkGraph: the graph of the network, a bitset of
-- neighbours for each node that has one. Node ids are numbers below 256; an id that a row has no
-- bit for makes the row's access throw (`none`), which ends the operation.
pub mod Rows
pub mod Edges
pub mod Walk
pub mod Unreachable
mod Examples
use tdmh.Base.{
  ℕ, zero, suc, ◌+◌, ◌-◌, Map, nat_keyed, lookup, insert, erase, Set, contains, add, List, [], ◌∷◌,
  Option, none, some, Bool, true, false, ◌&&◌, not, ltb, ◌==◌, if◌then◌else◌, for_from, select_from,
  is_some,
}
use tdmh.Bitset.{RuntimeBitset, new_bitset, get_bit?, set_bit?, is_empty, is_set}

pub record Graph : Type 0 where
  pub max_nodes : ℕ
  pub possibly_not_connected : Bool
  pub rows : Map ℕ RuntimeBitset

infixl 5 ◌>>=◌
abbrev ◌>>=◌ : {A B : Type 0} → Option A → (A → Option B) → Option B
none >>= f = none
some a >>= f = f a

unfoldable pub new_graph : ℕ → Graph
new_graph max_nodes = record { max_nodes = max_nodes; possibly_not_connected = false; rows = [] }

unfoldable pub has_node : Graph → ℕ → Bool
has_node g a = is_some (lookup a g.rows)

-- `getBit`, and `hasEdge`, which is the same.
unfoldable pub get_bit : Graph → ℕ → ℕ → Option Bool
get_bit g a b = elim (lookup a g.rows) [ none ↦ some false | some row ↦ get_bit? row b ]

-- The row of a node, a new and empty one if there is none.
abbrev pub row_or_new : Graph → ℕ → RuntimeBitset
row_or_new g a = elim (lookup a g.rows) [ none ↦ new_bitset g.max_nodes false | some row ↦ row ]

pub set_bit : Graph → ℕ → ℕ → Option Graph
set_bit g a b = do
  row ← set_bit? (row_or_new g a) b true
  some (record g { rows = insert a row g.rows })

-- A row that is left with no bit is deleted.
abbrev pub store_row : Graph → ℕ → RuntimeBitset → Graph
store_row g a row = record g { rows = if is_empty row then erase a g.rows else insert a row g.rows }

abbrev pub clear_present : Graph → ℕ → ℕ → RuntimeBitset → Bool → Option Graph
clear_present g a b row true = do row' ← set_bit? row b false; some (store_row g a row')
clear_present g a b row false = some g

pub clear_bit : Graph → ℕ → ℕ → Option Graph
clear_bit g a b = elim (lookup a g.rows) [
  | none ↦ some g
  | some row ↦ do present ← get_bit? row b; clear_present g a b row present
]

abbrev add_absent : Graph → ℕ → ℕ → RuntimeBitset → Bool → Option (Bool × Graph)
add_absent g a b row true = some (false, record g { rows = insert a row g.rows })
add_absent g a b row false = do
  row' ← set_bit? row b true
  g' ← set_bit (record g { rows = insert a row' g.rows }) b a
  some (true, g')

-- The result says whether the edge was added.
unfoldable pub add_edge : Graph → ℕ → ℕ → Option (Bool × Graph)
unfolding set_bit
add_edge g a b = do let row = row_or_new g a; present ← get_bit? row b; add_absent g a b row present

abbrev remove_present : Graph → ℕ → ℕ → RuntimeBitset → Bool → Option (Bool × Graph)
remove_present g a b row false = some (false, g)
remove_present g a b row true = do
  row' ← set_bit? row b false
  g' ← clear_bit (store_row g a row') b a
  some (true, record g' { possibly_not_connected = true })

-- The result says whether the edge was there.
unfoldable pub remove_edge : Graph → ℕ → ℕ → Option (Bool × Graph)
unfolding clear_bit
remove_edge g a b = elim (lookup a g.rows) [
  | none ↦ some (false, g)
  | some row ↦ do present ← get_bit? row b; remove_present g a b row present
]

-- An edge that is read with `b` below the size of the rows, where no access throws.
abbrev pub edge : Graph → ℕ → ℕ → Bool
edge g a b = is_set (get_bit g a b)

-- The neighbours of a node.
unfoldable pub get_edges : Graph → ℕ → List ℕ
get_edges g a = elim (lookup a g.rows) [
  | none ↦ []
  | some row ↦ select_from 0 g.max_nodes (λ i. is_set (get_bit? row i))
]

-- `getEdges()`: each edge (a, b) with a ≤ b.
pairs_with : ℕ → List ℕ → List (ℕ × ℕ) → List (ℕ × ℕ)
pairs_with a [] rest = rest
pairs_with a (i ∷ is) rest = (a, i) ∷ pairs_with a is rest

edges_of_rows : ℕ → Map ℕ RuntimeBitset → List (ℕ × ℕ)
unfolding pairs_with
edges_of_rows m [] = []
edges_of_rows m ((a, row) ∷ rows) =
    pairs_with a (select_from a (m - a) (λ i. is_set (get_bit? row i))) (edges_of_rows m rows)

unfoldable get_all_edges : Graph → List (ℕ × ℕ)
unfolding edges_of_rows
get_all_edges g = edges_of_rows g.max_nodes g.rows

-- `removeUnreachableNodes`: a walk over the set of open nodes, which grows while an iterator
-- runs through it. `before` and `ahead` are the open nodes on the two sides of the iterator.
pub record Search : Type 0 where
  pub reachable : Set ℕ
  pub before : Set ℕ
  pub ahead : Set ℕ

offer : Graph → ℕ → ℕ → Search → Search
offer g node child w =
    if contains child w.reachable
    then w
    else if not (edge g node child)
    then w
    else if ltb child node
    then record w { before = add child w.before }
    else if child == node
    then w
    else record w { ahead = add child w.ahead }

expand : Graph → ℕ → Search → Search
unfolding offer
expand g node w =
    let w' = for_from 0 g.max_nodes (offer g node) w in
    record w' { reachable = add node w'.reachable }

-- The two nested loops; `none` if the fuel runs out.
walk : Graph → ℕ → Search → Option (Set ℕ)
walk g zero w = none
walk g (suc fuel) w = elim w.ahead [
  | (node, _) ∷ rest ↦ walk g fuel (expand g node (record w { ahead = rest }))
  | [] ↦ elim w.before [
    | [] ↦ some w.reachable
    | (node, _) ∷ rest ↦
        walk g fuel (expand g node (record { reachable = w.reachable; before = []; ahead = rest }))
  ]
]

-- The inner loop of the removal, over the children of a node that is kept.
drop_child : Set ℕ → ℕ → ℕ → Bool × Graph → Option (Bool × Graph)
drop_child reachable node child (removed, g) =
    if not (contains child reachable) && edge g node child
    then (do g' ← clear_bit g node child; some (true, g'))
    else some (removed, g)

abbrev drop_children : Set ℕ → ℕ → Bool × Graph → Option (Bool × Graph)
drop_children reachable node r =
    for_from 0 r.1.max_nodes (λ child s. do s' ← s; drop_child reachable node child s') (some r)

-- The loop over the nodes of the graph. Only the entry that the iterator stands on is erased
-- from the map, so the nodes that it meets are those of the map as it was.
sweep : Set ℕ → List ℕ → Bool × Graph → Option (Bool × Graph)
unfolding drop_child
sweep reachable [] r = some r
sweep reachable (node ∷ nodes) (removed, g) = elim (contains node reachable) [
  | true ↦ drop_children reachable node (removed, g) >>= sweep reachable nodes
  | false ↦ sweep reachable nodes (true, record g { rows = erase node g.rows })
]

abbrev keys : Map ℕ RuntimeBitset → List ℕ
keys [] = []
keys ((a, row) ∷ rows) = a ∷ keys rows

pub walk_from_master : Graph → Option (Set ℕ)
unfolding walk
walk_from_master g =
    walk g (suc g.max_nodes) (record { reachable = []; before = []; ahead = (0, tt) ∷ [] })

pub remove_unreachable_nodes : Graph → Option (Bool × Graph)
unfolding walk_from_master sweep
remove_unreachable_nodes g = do
  reachable ← walk_from_master g
  (removed, g') ← sweep reachable (keys g.rows) (false, g)
  some (removed, record g' { possibly_not_connected = false })
