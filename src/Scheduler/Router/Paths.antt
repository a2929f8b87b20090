-- ===== src/Scheduler/Router/Paths.antt =====
-- breadthFirstSearch finds a path whenever there is one, and what it finds is a path.
use tdmh.Base.{
  ℕ, zero, suc, ◌≤◌, ◌<◌, ◌≡◌, ◌≢◌, Map, nat_keyed, lookup, insert, lookup-insert, length,
  length-append, List, [], ◌∷◌, ◌++◌, none, some, true, arith,
}
use tdmh.Topology.Snapshot.{Snapshot}
use tdmh.Scheduler.Router.{construct_path}

-- A path of edges from a node to another, as the list of its nodes.
pub data Route (g : Snapshot) (root : ℕ) : ℕ → List ℕ → Type 0 where
  here : Route g root root (root ∷ [])
  onward :
      {x y : ℕ} {path : List ℕ}
      → Route g root x path
      → x ≢ y
      → g.has_edge x y ≡ true
      → Route g root y (path ++ y ∷ [])

pub data Joined (g : Snapshot) (root : ℕ) : ℕ → Type 0 where
  start : Joined g root root
  step : {x y : ℕ} → Joined g root x → y < g.max_nodes → g.has_edge x y ≡ true → Joined g root y

-- The parents of a node lead to the root along the path.
pub data Chain (g : Snapshot) (root : ℕ) (parents : Map ℕ ℕ) : ℕ → List ℕ → Type 0 where
  base : lookup root parents ≡ some root → Chain g root parents root (root ∷ [])
  link :
      {x y : ℕ} {path : List ℕ}
      → lookup y parents ≡ some x
      → x ≢ y
      → g.has_edge x y ≡ true
      → Chain g root parents x path
      → Chain g root parents y (path ++ y ∷ [])

pub Chain-Route :
    {g : Snapshot} {root : ℕ} {parents : Map ℕ ℕ} {x : ℕ} {path : List ℕ}
    → Chain g root parents x path
    → Route g root x path
Chain-Route (base e) = here
Chain-Route (link e ne edge c) = onward (Chain-Route c) ne edge

pub Chain-insert :
    {g : Snapshot} {root : ℕ} (parents : Map ℕ ℕ) (child node : ℕ) {x : ℕ} {path : List ℕ}
    → lookup child parents ≡ none
    → Chain g root parents x path
    → Chain g root (insert child node parents) x path
Chain-insert {root = root} parents child node n (base e) =
    base (ground (arith, lookup-insert child root node parents))
Chain-insert parents child node n (link {y = y} e ne edge c) =
    link (ground (arith, lookup-insert child y node parents)) ne edge
      (Chain-insert parents child node n c)

pub construct_path-Chain :
    {g : Snapshot} {root : ℕ} (parents : Map ℕ ℕ) (fuel x : ℕ) (path : List ℕ)
    → Chain g root parents x path
    → length path ≤ fuel
    → construct_path fuel x parents ≡ some path
unfolding construct_path
construct_path-Chain parents zero x path (base e) h = absurd (omega arith)
construct_path-Chain parents (suc fuel) x path (base e) h = ground (arith, e)
construct_path-Chain parents zero x path (link {path = p} e ne edge c) h =
    absurd (omega (arith, length-append p (x ∷ [])))
construct_path-Chain parents (suc fuel) x path (link {x = w} {path = p} e ne edge c) h =
    let short : length p ≤ fuel = omega (arith, length-append p (x ∷ [])) in
    ground (arith, e, ne, construct_path-Chain parents fuel w p c short)
