-- ===== src/Topology/Graph/Unreachable.antt =====
-- removeUnreachableNodes removes the nodes with no path to the master, and only those.
use tdmh.Base.{
  elem, ℕ, ◌<◌, ◌≡◌, refl, sym, subst, ◌∙◌, inl, inr, ◌↔◌, Map, nat_keyed, lookup, erase,
  lookup-erase, lookup_same, Set, contains, List, [], ◌∷◌, none, some, Bool, true, false, ◌&&◌,
  ◌||◌, not, if◌then◌else◌, for_from_inv, arith, Bool-cases, is_some,
}
use tdmh.Bitset.{RuntimeBitset}
use tdmh.Topology.Graph.{
  Graph, has_node, get_bit, edge, keys, drop_child, drop_children, sweep, remove_unreachable_nodes,
}
use tdmh.Topology.Graph.Rows.{IsShaped, erase-IsShaped, get_bit_in_range}
use tdmh.Topology.Graph.Edges.{IsGraph, flag-IsGraph, flag_bit}
use tdmh.Topology.Graph.Walk.{Reaches, along, IsClosure, walk_from_master_lem}

abbrev any_outside : Set ℕ → List ℕ → Bool
any_outside s [] = false
any_outside s (k ∷ ks) = not (contains k s) || any_outside s ks

elem-keys : (x : ℕ) (rows : Map ℕ RuntimeBitset) → elem x (keys rows) ≡ is_some (lookup x rows)
unfolding lookup
elem-keys x [] = refl
elem-keys x ((k, row) ∷ rows) = ground (arith, elem-keys x rows)

has_node-elem : (g : Graph) (x : ℕ) → has_node g x ≡ true → elem x (keys g.rows) ≡ true
unfolding has_node
has_node-elem g x h = elem-keys x g.rows ∙ h

elem-has_node : (g : Graph) (x : ℕ) → elem x (keys g.rows) ≡ true → has_node g x ≡ true
unfolding has_node
elem-has_node g x h = sym (elem-keys x g.rows) ∙ h

bit_of_row :
    (g h : Graph) (x y : ℕ) → lookup x h.rows ≡ lookup x g.rows → get_bit h x y ≡ get_bit g x y
unfolding get_bit
bit_of_row g h x y e = rw (e, get_bit)

module _ (g : Graph) (s : Set ℕ) (closure : IsClosure g s) where
  -- The rows of the nodes that are kept are as they were.
  abbrev KeepsRows : Graph → Type 0
  KeepsRows cur = (x : ℕ) → contains x s ≡ true → lookup x cur.rows ≡ lookup x g.rows

  -- A node that is kept has no neighbour to drop.
  drop_child-kept :
      (cur : Graph) (node child : ℕ) (removed : Bool)
      → KeepsRows cur
      → contains node s ≡ true
      → child < g.max_nodes
      → drop_child s node child (removed, cur) ≡ some (removed, cur)
  unfolding drop_child
  drop_child-kept cur node child removed keeps h lt =
      let same = bit_of_row g cur node child (keeps node h) in
      let reached =
        λ (e : edge g node child ≡ true). closure.complete (along (closure.sound node h) lt e) in
      elim (Bool-cases (edge g node child)) [
        | inl e ↦ ground (arith, same, reached e)
        | inr e ↦ ground (arith, same)
      ]

  drop_children-kept :
      (cur : Graph) (node : ℕ) (removed : Bool)
      → KeepsRows cur
      → contains node s ≡ true
      → cur.max_nodes ≡ g.max_nodes
      → drop_children s node (removed, cur) ≡ some (removed, cur)
  drop_children-kept cur node removed keeps h size =
      for_from_inv (λ i t. t ≡ some (removed, cur)) 0 cur.max_nodes _ (some (removed, cur))
        (λ i t lt e. rw e (drop_child-kept cur node i removed keeps h (omega arith))) refl

  record Swept (ks : List ℕ) (removed : Bool) (cur : Graph) : Type 0 where
    result : Bool × Graph
    returns : sweep s ks (removed, cur) ≡ some result
    nodes : result.1.max_nodes ≡ g.max_nodes
    shaped : IsShaped result.1
    rows :
        (x : ℕ)
        → lookup x result.1.rows
          ≡ (if elem x ks && not (contains x s) then none else lookup x cur.rows)
    says : result.0 ≡ (removed || any_outside s ks)

  sweep_lem :
      (ks : List ℕ) (removed : Bool) (cur : Graph)
      → IsShaped cur
      → KeepsRows cur
      → cur.max_nodes ≡ g.max_nodes
      → Swept ks removed cur
  unfolding sweep
  sweep_lem [] removed cur ok keeps size = record {
    result = (removed, cur);
    returns = refl;
    nodes = size;
    shaped = ok;
    rows = λ x. refl;
    says = ground arith;
  }
  sweep_lem (k ∷ ks) removed cur ok keeps size = elim (Bool-cases (contains k s)) [
    | inl kept ↦
        let same = drop_children-kept cur k removed keeps kept size in
        let rest = sweep_lem ks removed cur ok keeps size in
        record {
          result = rest.result;
          returns = rw (kept, sweep) (rw same rest.returns);
          nodes = rest.nodes;
          shaped = rest.shaped;
          rows = λ x. ground (arith, rest.rows x);
          says = ground (arith, rest.says);
        }
    | inr gone ↦
        let cur' = record cur { rows = erase k cur.rows } in
        let keeps' : KeepsRows cur' = λ x h. ground (arith, lookup-erase k x cur.rows, keeps x h) in
        let rest = sweep_lem ks true cur' (erase-IsShaped cur k ok) keeps' size in
        record {
          result = rest.result;
          returns = rw (gone, sweep) rest.returns;
          nodes = rest.nodes;
          shaped = rest.shaped;
          rows = λ x. ground (arith, rest.rows x, lookup-erase k x cur.rows);
          says = ground (arith, rest.says);
        }
  ]

-- The graph without the nodes that cannot be reached.
pub record Pruned (g : Graph) (removed : Bool) (g' : Graph) : Type 0 where
  pub nodes : g'.max_nodes ≡ g.max_nodes
  pub flag : g'.possibly_not_connected ≡ false
  pub graph : IsGraph g'
  pub edges :
      (x y : ℕ)
      → x < g.max_nodes
      → y < g.max_nodes
      → (edge g' x y ≡ true) ↔ (Reaches g x × (edge g x y ≡ true))
  pub says : (removed ≡ false) ↔ ((x : ℕ) → has_node g x ≡ true → Reaches g x)

any_outside-elem :
    (s : Set ℕ) (ks : List ℕ) (x : ℕ)
    → any_outside s ks ≡ false
    → elem x ks ≡ true
    → contains x s ≡ true
any_outside-elem s [] x h m = absurd (cc m)
any_outside-elem s (k ∷ ks) x h m = ground (arith, any_outside-elem s ks x, lookup_same k x s)

none_outside :
    (s : Set ℕ) (ks : List ℕ)
    → ((x : ℕ) → elem x ks ≡ true → contains x s ≡ true)
    → any_outside s ks ≡ false
none_outside s [] h = refl
none_outside s (k ∷ ks) h = ground (arith, h k, none_outside s ks (λ x m. h x (ground arith)))

module _ (g : Graph) (ok : IsGraph g) (s : Set ℕ) (closure : IsClosure g s) where
  rows_kept :
      (g' : Graph) (x : ℕ)
      → lookup x g'.rows
        ≡ (if elem x (keys g.rows) && not (contains x s) then none else lookup x g.rows)
      → lookup x g'.rows ≡ (if contains x s then lookup x g.rows else none)
  rows_kept g' x e = ground (arith, elem-keys x g.rows)

  bit_kept :
      (g' : Graph) (x y : ℕ)
      → lookup x g'.rows ≡ (if contains x s then lookup x g.rows else none)
      → get_bit g' x y ≡ (if contains x s then get_bit g x y else some false)
  unfolding get_bit
  bit_kept g' x y e = ground arith

  edge_reaches :
      (x y : ℕ) → contains x s ≡ true → y < g.max_nodes → edge g x y ≡ true → contains y s ≡ true
  edge_reaches x y h lt e = closure.complete (along (closure.sound x h) lt e)

  symmetric_kept :
      (x y : ℕ)
      → x < g.max_nodes
      → y < g.max_nodes
      → (if contains x s then get_bit g x y else some false)
        ≡ (if contains y s then get_bit g y x else some false)
  symmetric_kept x y hx hy = ground (
    arith,
    ok.symmetric x y hx hy,
    edge_reaches x y,
    edge_reaches y x,
    get_bit_in_range g x y ok.shaped hy,
    get_bit_in_range g y x ok.shaped hx,
  )

  Pruned-of_sweep :
      (w : Swept g s closure (keys g.rows) false g)
      → Pruned g w.result.0 (record w.result.1 { possibly_not_connected = false })
  Pruned-of_sweep w =
      let g' = w.result.1 in
      let kept = λ (x y : ℕ). bit_kept g' x y (rows_kept g' x (w.rows x)) in
      let bare : IsGraph g' = record {
        shaped = w.shaped;
        symmetric = λ x y hx hy.
            kept x y
            ∙ symmetric_kept x y (subst (λ n. x < n) w.nodes hx) (subst (λ n. y < n) w.nodes hy)
            ∙ sym (kept y x);
      } in
      record {
        nodes = w.nodes;
        flag = refl;
        graph = flag-IsGraph g' false bare;
        edges = λ x y hx hy. (
          λ e.
              let bit = flag_bit g' false x y ∙ kept x y in
              (closure.sound x (ground arith), ground arith),
          λ e. ground (arith, flag_bit g' false x y ∙ kept x y, closure.complete e.0),
        );
        says = (
          λ h x m.
              closure.sound x
                (any_outside-elem s (keys g.rows) x (sym w.says ∙ h) (has_node-elem g x m)),
          λ h.
              w.says
              ∙ none_outside s (keys g.rows) (λ x m. closure.complete (h x (elem-has_node g x m))),
        );
      }

-- On a valid graph with room for the master removeUnreachableNodes returns. It keeps exactly
-- the edges of the nodes that a path of edges joins to the master, clears the flag, keeps the
-- graph valid, and its result is false exactly when every node of the graph could be reached.
pub remove_unreachable_nodes_lem :
    (g : Graph)
    → IsGraph g
    → 0 < g.max_nodes
    → (removed : Bool) × (g' : Graph) × (remove_unreachable_nodes g ≡ some (removed, g'))
      × Pruned g removed g'
unfolding remove_unreachable_nodes
remove_unreachable_nodes_lem g ok h =
    let (s, e, closure) = walk_from_master_lem g h in
    let w = sweep_lem g s closure (keys g.rows) false g ok.shaped (λ x p. refl) refl in
    (
      w.result.0,
      record w.result.1 { possibly_not_connected = false },
      rw e (rw w.returns),
      Pruned-of_sweep g ok s closure w,
    )
