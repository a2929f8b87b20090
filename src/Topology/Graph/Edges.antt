-- ===== src/Topology/Graph/Edges.antt =====
-- addEdge and removeEdge keep the graph symmetric, and change the one edge that they are given.
use tdmh.Base.{
  ℕ, ◌*◌, ◌<◌, ◌↔◌, ◌≡◌, refl, inl, inr, nat_keyed, lookup, insert, some, Bool, true, false, ◌&&◌,
  ◌||◌, not, ◌==◌, if◌then◌else◌, arith, Option-cases, ◌∙◌, sym,
}
use tdmh.Bitset.{RuntimeBitset, get_bit?, set_bit?}
use tdmh.Topology.Graph.{
  Graph, ◌>>=◌, new_graph, has_node, get_bit, set_bit, clear_bit, row_or_new, store_row, add_edge,
  remove_edge, edge,
}
use tdmh.Topology.Graph.Rows.{
  reinsert, IsShaped, Kept, store-IsShaped, set_bit_lem, store_row_lem, clear_bit_lem, bit_cases,
  row_of_set, row_or_new-WritesTo,
}

pub record IsGraph (g : Graph) : Type 0 where
  pub shaped : IsShaped g
  pub symmetric : (x y : ℕ) → x < g.max_nodes → y < g.max_nodes → get_bit g x y ≡ get_bit g y x

abbrev pub joins : ℕ → ℕ → ℕ → ℕ → Bool
joins a b x y = (x == a && y == b) || (x == b && y == a)

-- The edges of `g'` are those of `g` but for the one between `a` and `b`, which is `v`.
abbrev pub Rewires : ℕ → ℕ → Bool → Graph → Graph → Type 0
Rewires a b v g g' =
    (x y : ℕ)
    → x < g.max_nodes
    → y < g.max_nodes
    → get_bit g' x y ≡ (if joins a b x y then some v else get_bit g x y)

IsGraph-Rewires :
    (g g' : Graph) (a b : ℕ) (v : Bool)
    → IsGraph g
    → IsShaped g'
    → Kept g g'
    → Rewires a b v g g'
    → IsGraph g'
IsGraph-Rewires g g' a b v ok shaped kept w = record {
  shaped = shaped;
  symmetric = λ x y hx hy.
      let hx' : x < g.max_nodes = ground (arith, kept.nodes) in
      let hy' : y < g.max_nodes = ground (arith, kept.nodes) in
      ground (arith, w x y hx' hy', w y x hy' hx', ok.symmetric x y hx' hy');
}

add_edge_present :
    (g : Graph) (a b : ℕ) (row : RuntimeBitset)
    → lookup a g.rows ≡ some row
    → get_bit? row b ≡ some true
    → add_edge g a b ≡ some (false, record g { rows = insert a row g.rows })
unfolding add_edge
add_edge_present g a b row e t = rw (e, add_edge, row_or_new) (rw t)

stored_again :
    (g : Graph) (a b : ℕ) (row : RuntimeBitset)
    → IsGraph g
    → a < g.max_nodes
    → b < g.max_nodes
    → lookup a g.rows ≡ some row
    → get_bit g a b ≡ some true
    → Rewires a b true g (record g { rows = insert a row g.rows })
stored_again g a b row ok ha hb r t x y hx hy =
    ground (arith, reinsert g a row x y r, ok.symmetric a b ha hb)

add_edge_absent :
    (g : Graph) (a b : ℕ)
    → get_bit? (row_or_new g a) b ≡ some false
    → add_edge g a b ≡ (do g₁ ← set_bit g a b; g₂ ← set_bit g₁ b a; some (true, g₂))
unfolding add_edge
add_edge_absent g a b t = elim (Option-cases (set_bit? (row_or_new g a) b true)) [
  | inl e ↦ rw t (rw e)
  | inr (row, e) ↦ rw t (rw e)
]

-- On a valid graph, for nodes with ids in range, addEdge adds the edge between `a` and `b` in
-- both directions, keeps every other edge and the graph valid, and says whether the edge is
-- new.
pub add_edge_lem :
    (g : Graph) (a b : ℕ)
    → IsGraph g
    → a < g.max_nodes
    → b < g.max_nodes
    → (g' : Graph) × (add_edge g a b ≡ some (not (edge g a b), g'))
      × Kept g g'
      × IsGraph g'
      × Rewires a b true g g'
add_edge_lem g a b ok ha hb = elim (bit_cases g a b ok.shaped hb) [
  | inr t ↦
      let (row, r, set) = row_of_set g a b t in
      let g' = record g { rows = insert a row g.rows } in
      let kept : Kept g g' = record { nodes = refl; flag = refl } in
      let shaped = store-IsShaped g a row ok.shaped ha (ok.shaped.row_ok a row r) in
      let rewires = stored_again g a b row ok ha hb r t in
      (
        g',
        rw (t, edge) (add_edge_present g a b row r set),
        kept,
        IsGraph-Rewires g g' a b true ok shaped kept rewires,
        rewires,
      )
  | inl f ↦
      let w = row_or_new-WritesTo g a ok.shaped in
      let (g₁, e₁, k₁, s₁, r₁) = set_bit_lem g a b ok.shaped ha hb in
      let (g₂, e₂, k₂, s₂, r₂) = set_bit_lem g₁ b a s₁ (rw k₁.nodes hb) (rw k₁.nodes ha) in
      let kept : Kept g g₂ = record { nodes = k₂.nodes ∙ k₁.nodes; flag = k₂.flag ∙ k₁.flag } in
      let rewires : Rewires a b true g g₂ =
        λ x y hx hy. ground (arith, r₁ x y hy, r₂ x y (rw k₁.nodes hy)) in
      (
        g₂,
        rw (f, edge) (rw (add_edge_absent g a b (w.reads b hb ∙ f)) (rw e₁ (rw e₂))),
        kept,
        IsGraph-Rewires g g₂ a b true ok s₂ kept rewires,
        rewires,
      )
]

-- The flag has no part in the edges.
pub flag_bit :
    (g : Graph) (v : Bool) (x y : ℕ)
    → get_bit (record g { possibly_not_connected = v }) x y ≡ get_bit g x y
unfolding get_bit
flag_bit g v x y = refl

pub flag-IsGraph :
    (g : Graph) (v : Bool) → IsGraph g → IsGraph (record g { possibly_not_connected = v })
flag-IsGraph g v ok = record {
  shaped = record {
    octets = ok.shaped.octets;
    whole = ok.shaped.whole;
    row_ok = ok.shaped.row_ok;
    node_lt = ok.shaped.node_lt;
    ordered = ok.shaped.ordered;
  };
  symmetric = λ x y hx hy. flag_bit g v x y ∙ ok.symmetric x y hx hy ∙ sym (flag_bit g v y x);
}

remove_edge_absent :
    (g : Graph) (a b : ℕ) → get_bit g a b ≡ some false → remove_edge g a b ≡ some (false, g)
unfolding remove_edge get_bit
remove_edge_absent g a b e = ground arith

remove_edge_present :
    (g g' : Graph) (a b : ℕ) (row row' : RuntimeBitset)
    → lookup a g.rows ≡ some row
    → get_bit? row b ≡ some true
    → set_bit? row b false ≡ some row'
    → clear_bit (store_row g a row') b a ≡ some g'
    → remove_edge g a b ≡ some (true, record g' { possibly_not_connected = true })
unfolding remove_edge
remove_edge_present g g' a b row row' e t w c = rw (e, remove_edge) (rw t (rw w (rw c)))

-- On a valid graph, for nodes with ids in range, removeEdge removes the edge between `a` and
-- `b` in both directions, keeps every other edge and the graph valid, and says whether the
-- edge was there; if it was, the flag for a graph that may have come apart is set.
pub remove_edge_lem :
    (g : Graph) (a b : ℕ)
    → IsGraph g
    → a < g.max_nodes
    → b < g.max_nodes
    → (g' : Graph) × (remove_edge g a b ≡ some (edge g a b, g'))
      × (g'.max_nodes ≡ g.max_nodes)
      × (g'.possibly_not_connected ≡ (edge g a b || g.possibly_not_connected))
      × IsGraph g'
      × Rewires a b false g g'
remove_edge_lem g a b ok ha hb = elim (bit_cases g a b ok.shaped hb) [
  | inl f ↦ (
    g,
    rw (f, edge) (remove_edge_absent g a b f),
    refl,
    rw (f, edge),
    ok,
    λ x y hx hy. ground (arith, ok.symmetric a b ha hb),
  )
  | inr t ↦
      let (row, r, set) = row_of_set g a b t in
      let (row', w, s₁, r₁) = store_row_lem g a b row ok.shaped hb r in
      let (g₂, e₂, k₂, s₂, r₂) = clear_bit_lem (store_row g a row') b a s₁ ha in
      let kept : Kept g g₂ = record { nodes = k₂.nodes; flag = k₂.flag } in
      let rewires : Rewires a b false g g₂ = λ x y hx hy. ground (arith, r₁ x y hy, r₂ x y hy) in
      let ok₂ = IsGraph-Rewires g g₂ a b false ok s₂ kept rewires in
      (
        record g₂ { possibly_not_connected = true },
        rw (t, edge) (remove_edge_present g g₂ a b row row' r set w e₂),
        k₂.nodes,
        rw (t, edge),
        flag-IsGraph g₂ true ok₂,
        λ x y hx hy. flag_bit g₂ true x y ∙ rewires x y hx hy,
      )
]

-- A new graph has no edge.
pub new_graph-IsGraph : (n : ℕ) → IsGraph (new_graph (n * 8))
unfolding new_graph get_bit lookup
new_graph-IsGraph n = record {
  shaped = record {
    octets = n;
    whole = refl;
    row_ok = λ x row e. absurd (cc e);
    node_lt = λ x row e. absurd (cc e);
    ordered = tt;
  };
  symmetric = λ x y hx hy. refl;
}

-- In a graph whose rows have the right shape, a node is present exactly when it has an edge.
pub has_node_iff :
    (g : Graph) (a : ℕ)
    → IsShaped g
    → (has_node g a ≡ true) ↔ ((b : ℕ) × (b < g.max_nodes) × (get_bit g a b ≡ some true))
unfolding has_node get_bit
has_node_iff g a s = elim (Option-cases (lookup a g.rows)) [
  | inl e ↦ rw (e, has_node, get_bit) (λ h. absurd (cc h), λ h. absurd (cc h.2))
  | inr (row, e) ↦ rw (e, has_node, get_bit) (λ h. (s.row_ok a row e).lit, λ h. refl)
]
