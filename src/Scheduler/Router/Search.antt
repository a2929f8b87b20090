-- ===== src/Scheduler/Router/Search.antt =====
-- breadthFirstSearch as a whole: it ends, finds a path whenever there is one, and what it finds is
-- a path.
use tdmh.Base.{
  ℕ, zero, suc, ◌+◌, ◌≤◌, ◌<◌, ◌≡◌, ap, subst, ◌≢◌, ◌⊎◌, inl, inr, Map, nat_keyed, lookup, insert,
  IsOrderedFrom, contains, contains-add, is_some, elem, length, List, [], ◌∷◌, some, true, false,
  ◌||◌, ◌==◌, arith, Bool-cases, List-cases,
}
use tdmh.Topology.Snapshot.{Snapshot, IsNetwork}
use tdmh.Scheduler.Router.{Bfs, discover, visit, search_open, start_at, breadth_first_search}
use tdmh.Scheduler.Router.Paths.{
  Route, Joined, start, step, Chain, base, Chain-Route, construct_path-Chain,
}
use tdmh.Scheduler.Router.Discover.{known, Found, Inside, Discovered, discover-Discovered}

-- A map whose keys rise from `n` and lie below a bound is no longer than there is room.
size_bound :
    (bound n : ℕ) (m : Map ℕ ℕ)
    → IsOrderedFrom n m
    → n ≤ bound
    → ((x : ℕ) → is_some (lookup x m) ≡ true → x < bound)
    → n + length m ≤ bound
unfolding lookup
size_bound bound n [] o h k = omega arith
size_bound bound n ((j, v) ∷ m) o h k =
    let lt = k j (ground arith) in
    let rest = size_bound bound (suc j) m o.1 (omega arith) (λ x e. k x (ground arith)) in
    omega arith

-- There is a path that is found, or none is.
pub data Outcome (g : Snapshot) (root dest : ℕ) : List ℕ → Type 0 where
  found_path : {path : List ℕ} → Route g root dest path → Outcome g root dest path
  no_path : ¬ Joined g root dest → Outcome g root dest []

module _ (g : Snapshot) (net : IsNetwork g) (root dest : ℕ)
    (no_loops : (x : ℕ) → g.has_edge x x ≡ false) where
  -- Between two rounds.
  record Outer (w : Bfs) : Type 0 where
    found : Found g root w
    marks : (x : ℕ) → known w x ≡ (contains x w.visited || elem x w.open_set)
    closed :
        (x y : ℕ)
        → known w x ≡ true
        → g.has_edge x y ≡ true
        → y < g.max_nodes
        → (elem x w.open_set || known w y) ≡ true
    target : known w dest ≡ true → elem dest w.open_set ≡ true
    rooted : known w root ≡ true

  linked : (node x : ℕ) → elem x (g.get_edges node) ≡ true → g.has_edge node x ≡ true
  linked node x e = let listed = net.listed node x in ground arith

  neighbours :
      (node x : ℕ)
      → elem x (g.get_edges node) ≡ true
      → (g.has_edge node x ≡ true) × (x < g.max_nodes) × (node ≢ x)
  neighbours node x e =
      let listed = net.listed node x in
      (
        linked node x e,
        ground (arith, listed),
        λ same. absurd (cc (ap (g.has_edge node) same, no_loops node, linked node x e)),
      )

  next : ℕ → List ℕ → Bfs → Bfs
  next node rest w = visit node (discover node (g.get_edges node) (record w { open_set = rest }))

  next-Outer :
      (node : ℕ) (rest : List ℕ) (w : Bfs)
      → w.open_set ≡ node ∷ rest
      → (node == dest) ≡ false
      → Outer w
      → Outer (next node rest w)
        × (length (next node rest w).open_set + length w.parents
            ≡ length rest + length (next node rest w).parents)
  unfolding next
  next-Outer node rest w opens other h = (
    record {
      found = record {
        ordered = d.inside.found.ordered;
        bounded = d.inside.found.bounded;
        chains = d.inside.found.chains;
      };
      marks = λ x. ground (arith, d.inside.marks x, d.visited, contains-add node x w₁.visited);
      closed = λ x y k e lt. elim (Bool-cases (node == x)) [
        | inl same ↦
            let here : node ≡ x = ground arith in
            let listed : elem y (g.get_edges node) ≡ true =
              ground (arith, net.listed node y, ap (λ z. g.has_edge z y) here) in
            ground (arith, d.reached y listed)
        | inr away ↦ elim (before x k) [
          | inl old ↦ ground (arith, h.closed x y old e lt, was_open x, d.keeps y, d.stays_open x)
          | inr new ↦ ground arith
        ]
      ];
      target = λ k. elim (before dest k) [
        | inl old ↦ d.stays_open dest (ground (arith, h.target old, was_open dest))
        | inr new ↦ new
      ];
      rooted = d.keeps root h.rooted;
    },
    d.grows,
  )
    where
      w₀ : Bfs
      w₀ = record w { open_set = rest }

      was_open : (x : ℕ) → elem x w.open_set ≡ (node == x || elem x rest)
      was_open x = ap (elem x) opens

      inside : Inside g root node w₀
      inside = record {
        found = record {
          ordered = h.found.ordered;
          bounded = h.found.bounded;
          chains = h.found.chains;
        };
        marks = λ x. ground (arith, h.marks x, was_open x);
      }

      w₁ : Bfs
      w₁ = discover node (g.get_edges node) w₀

      d : Discovered g root node (g.get_edges node) w₀ w₁
      d = discover-Discovered g root node (g.get_edges node) w₀ inside (neighbours node)

      before : (x : ℕ) → known w₁ x ≡ true → (known w x ≡ true) ⊎ (elem x w₁.open_set ≡ true)
      before x k = ground (arith, d.inside.marks x, inside.marks x, d.visited)

  -- With no node left to visit, what can be joined is known.
  joined_known : (w : Bfs) (x : ℕ) → w.open_set ≡ [] → Outer w → Joined g root x → known w x ≡ true
  joined_known w x e h start = h.rooted
  joined_known w x e h (step {x = p} j lt edge) =
      ground (arith, h.closed p x (joined_known w p e h j) edge lt, ap (elem p) e)

  search_open_lem :
      (fuel : ℕ) (w : Bfs)
      → Outer w
      → g.max_nodes + length w.open_set < fuel + length w.parents
      → (path : List ℕ) × (search_open fuel g dest w ≡ some path) × Outcome g root dest path
  unfolding search_open next
  search_open_lem zero w h enough = absurd (
      omega
        (arith, size_bound g.max_nodes 0 w.parents h.found.ordered (omega arith) h.found.bounded))
  search_open_lem (suc fuel) w h enough = elim (List-cases w.open_set) [
    | inl e ↦ (
      [],
      rw (e, search_open),
      no_path (λ j. cc (h.target (joined_known w dest e h j), ap (elem dest) e)),
    )
    | inr (node, rest, e) ↦ elim (Bool-cases (node == dest)) [
      | inl same ↦
          let at_dest : node ≡ dest = ground arith in
          let (path, c, short) =
            h.found.chains node (ground (arith, h.marks node, ap (elem node) e)) in
          (
            path,
            rw (e, search_open)
                (rw same (
                  construct_path-Chain w.parents (suc (length w.parents)) node path c
                    (omega arith))),
            subst (λ z. Outcome g root z path) at_dest (found_path (Chain-Route c)),
          )
      | inr other ↦
          let (h', count) = next-Outer node rest w e other h in
          let size : length w.open_set ≡ suc (length rest) = ap length e in
          let (path, eq, outcome) = search_open_lem fuel (next node rest w) h' (omega arith) in
          (path, rw (e, search_open) (rw other eq), outcome)
    ]
  ]

  start-Outer : root < g.max_nodes → Outer (start_at root)
  unfolding lookup insert
  start-Outer lt = record {
    found = record {
      ordered = (omega arith, tt);
      bounded = λ x k. ground arith;
      chains = λ x k. start_chain x (ground arith);
    };
    marks = λ x. ground arith;
    closed = λ x y k e l. ground arith;
    target = λ k. ground arith;
    rooted = ground arith;
  }
    where
      start_chain :
          (x : ℕ)
          → root ≡ x
          → (path : List ℕ) × Chain g root ((root, root) ∷ []) x path × (length path ≤ 1)
      start_chain x e =
          subst (λ z. (path : List ℕ) × Chain g root ((root, root) ∷ []) z path × (length path ≤ 1))
            e (root ∷ [], base (ground arith), omega arith)

  -- In a network where no node is linked to itself, between two nodes of the graph
  -- breadthFirstSearch returns: a path of links from the first to the second, or the empty path if
  -- no path joins them.
  pub breadth_first_search_lem :
      g.has_node root ≡ true
      → g.has_node dest ≡ true
      → (path : List ℕ) × (breadth_first_search g root dest ≡ some path) × Outcome g root dest path
  unfolding breadth_first_search insert
  breadth_first_search_lem hr hd =
      let lt = net.node_lt root hr in
      let (path, e, outcome) =
        search_open_lem (suc g.max_nodes) (start_at root) (start-Outer lt) (omega arith) in
      (path, rw (hr, hd, breadth_first_search) e, outcome)
