-- ===== src/Scheduler/Router/Discover.antt =====
-- The loop of breadthFirstSearch over the neighbours of a node.
use tdmh.Base.{
  ℕ, suc, ◌+◌, ◌≤◌, ◌<◌, ◌≡◌, refl, subst, ◌≢◌, inl, inr, nat_keyed, lookup, insert, IsOrderedFrom,
  lookup-insert, length-insert, insert-IsOrderedFrom, contains, is_some, elem, elem-append, length,
  length-append, List, [], ◌∷◌, ◌++◌, none, Bool, true, ◌||◌, ◌==◌, arith, Bool-cases,
}
use tdmh.Topology.Snapshot.{Snapshot}
use tdmh.Scheduler.Router.{Bfs, discover}
use tdmh.Scheduler.Router.Paths.{Chain, link, Chain-insert}

abbrev pub known : Bfs → ℕ → Bool
known w x = is_some (lookup x w.parents)

-- What the parents are worth.
pub record Found (g : Snapshot) (root : ℕ) (w : Bfs) : Type 0 where
  pub ordered : IsOrderedFrom 0 w.parents
  pub bounded : (x : ℕ) → known w x ≡ true → x < g.max_nodes
  pub chains :
      (x : ℕ)
      → known w x ≡ true
      → (path : List ℕ) × Chain g root w.parents x path × (length path ≤ length w.parents)

-- Within the loop, for the neighbours of `node`.
pub record Inside (g : Snapshot) (root node : ℕ) (w : Bfs) : Type 0 where
  pub found : Found g root w
  pub marks : (x : ℕ) → known w x ≡ (contains x w.visited || elem x w.open_set || node == x)

-- What the loop has done by its end.
pub record Discovered (g : Snapshot) (root node : ℕ) (children : List ℕ) (w w' : Bfs) : Type 0 where
  pub inside : Inside g root node w'
  pub visited : w'.visited ≡ w.visited
  pub grows : length w'.open_set + length w.parents ≡ length w.open_set + length w'.parents
  pub keeps : (x : ℕ) → known w x ≡ true → known w' x ≡ true
  pub stays_open : (x : ℕ) → elem x w.open_set ≡ true → elem x w'.open_set ≡ true
  pub reached : (x : ℕ) → elem x children ≡ true → known w' x ≡ true

abbrev found_child : ℕ → ℕ → Bfs → Bfs
found_child node child w = record {
  visited = w.visited;
  open_set = w.open_set ++ child ∷ [];
  parents = insert child node w.parents;
}

module _ (g : Snapshot) (root node : ℕ) where
  length-found_child :
      (child : ℕ) (w : Bfs)
      → Inside g root node w
      → lookup child w.parents ≡ none
      → length (insert child node w.parents) ≡ suc (length w.parents)
  length-found_child child w h new =
      ground (arith, length-insert 0 child node w.parents h.found.ordered, new)

  found_child-Inside :
      (child : ℕ) (w : Bfs)
      → Inside g root node w
      → g.has_edge node child ≡ true
      → child < g.max_nodes
      → node ≢ child
      → lookup child w.parents ≡ none
      → Inside g root node (found_child node child w)
  found_child-Inside child w h edge lt ne new = record {
    found = record {
      ordered = insert-IsOrderedFrom 0 child node w.parents (omega arith) h.found.ordered;
      bounded = λ x k. elim (Bool-cases (child == x)) [
        | inl e ↦ ground arith
        | inr e ↦ h.found.bounded x (ground (arith, lookup-insert child x node w.parents))
      ];
      chains = λ x k. elim (Bool-cases (child == x)) [
        | inl e ↦
            let (path, c, short) = h.found.chains node (ground (arith, h.marks node)) in
            let same : child ≡ x = ground arith in
            subst
              (λ y.
                (p : List ℕ) × Chain g root (insert child node w.parents) y p
                × (length p ≤ length (insert child node w.parents)))
              same
              (
                path ++ child ∷ [],
                link (ground (arith, lookup-insert child child node w.parents)) ne edge
                    (Chain-insert w.parents child node new c),
                omega (arith, longer, short, length-append path (child ∷ [])),
              )
        | inr e ↦
            let (path, c, short) =
              h.found.chains x (ground (arith, lookup-insert child x node w.parents)) in
            (path, Chain-insert w.parents child node new c, omega (arith, longer, short))
      ];
    };
    marks = λ x. ground (
      arith,
      lookup-insert child x node w.parents,
      h.marks x,
      elem-append x w.open_set (child ∷ []),
    );
  }
    where
      longer : length (insert child node w.parents) ≡ suc (length w.parents)
      longer = length-found_child child w h new

  pub discover-Discovered :
      (children : List ℕ) (w : Bfs)
      → Inside g root node w
      → ((x : ℕ)
          → elem x children ≡ true
          → (g.has_edge node x ≡ true) × (x < g.max_nodes) × (node ≢ x))
      → Discovered g root node children w (discover node children w)
  unfolding discover
  discover-Discovered [] w h ok = record {
    inside = h;
    visited = refl;
    grows = refl;
    keeps = λ x k. k;
    stays_open = λ x e. e;
    reached = λ x e. absurd (cc e);
  }
  discover-Discovered (child ∷ children) w h ok =
      elim (Bool-cases (contains child w.visited || elem child w.open_set)) [
        | inl old ↦
            let rest = discover-Discovered children w h (λ x e. ok x (ground arith)) in
            rw (old, discover)
              (record {
                inside = rest.inside;
                visited = rest.visited;
                grows = rest.grows;
                keeps = rest.keeps;
                stays_open = rest.stays_open;
                reached = λ x e. elim (Bool-cases (child == x)) [
                  | inl same ↦ rest.keeps x (ground (arith, h.marks x))
                  | inr other ↦ rest.reached x (ground arith)
                ];
              })
        | inr fresh ↦
            let (edge, lt, ne) = ok child (ground arith) in
            let new : lookup child w.parents ≡ none = ground (arith, h.marks child, ne) in
            let w₁ = found_child node child w in
            let rest =
              discover-Discovered children w₁ (found_child-Inside child w h edge lt ne new)
                (λ x e. ok x (ground arith)) in
            rw (fresh, discover)
              (record {
                inside = rest.inside;
                visited = rest.visited;
                grows = omega (
                  arith,
                  rest.grows,
                  length-append w.open_set (child ∷ []),
                  length-found_child child w h new,
                );
                keeps = λ x k. rest.keeps x (ground (arith, lookup-insert child x node w.parents));
                stays_open = λ x e.
                    rest.stays_open x (ground (arith, elem-append x w.open_set (child ∷ [])));
                reached = λ x e. elim (Bool-cases (child == x)) [
                  | inl same ↦ rest.keeps x (ground (arith, lookup-insert child x node w.parents))
                  | inr other ↦ rest.reached x (ground arith)
                ];
              })
      ]
