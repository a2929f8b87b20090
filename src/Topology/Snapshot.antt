-- ===== src/Topology/Snapshot.antt =====
-- What the scheduler uses of a graph: an interface that the graph of the topology fills.
use tdmh.Base.{
  ℕ, ◌<◌, ◌≡◌, ap, ◌∙◌, inl, inr, nat_keyed, lookup, List, Bool, true, ◌&&◌, arith, Option-cases,
  ltb, elem, elem-select_from,
}
use tdmh.Bitset.{is_set, get_bit?}
use tdmh.Topology.Graph.{Graph, edge, get_edges, get_bit, has_node}
use tdmh.Topology.Graph.Rows.{IsShaped}
use tdmh.Topology.Graph.Edges.{IsGraph}

pub record Snapshot : Type 0 where
  pub max_nodes : ℕ
  pub has_node : ℕ → Bool
  pub has_edge : ℕ → ℕ → Bool
  pub get_edges : ℕ → List ℕ

-- The neighbours are listed, links go both ways, and nodes have numbers below the bound.
pub record IsNetwork (s : Snapshot) : Type 0 where
  pub symmetric : (x y : ℕ) → x < s.max_nodes → y < s.max_nodes → s.has_edge x y ≡ s.has_edge y x
  pub listed : (x y : ℕ) → elem y (s.get_edges x) ≡ (ltb y s.max_nodes && s.has_edge x y)
  pub node_lt : (x : ℕ) → s.has_node x ≡ true → x < s.max_nodes

abbrev pub view : Graph → Snapshot
view g = record {
  max_nodes = g.max_nodes;
  has_node = has_node g;
  has_edge = edge g;
  get_edges = get_edges g;
}

listed_lem :
    (g : Graph) (x y : ℕ) → IsShaped g → elem y (get_edges g x) ≡ (ltb y g.max_nodes && edge g x y)
unfolding get_edges get_bit
listed_lem g x y s = elim (Option-cases (lookup x g.rows)) [
  | inl e ↦ rw (e, get_edges, get_bit) (ground arith)
  | inr (row, e) ↦
      rw (e, get_edges, get_bit)
        (elem-select_from 0 g.max_nodes y (λ i. is_set (get_bit? row i)) ∙ ground arith)
]

-- A valid graph is a network.
pub view-IsNetwork : (g : Graph) → IsGraph g → IsNetwork (view g)
unfolding has_node
view-IsNetwork g h = record {
  symmetric = λ x y hx hy. ap is_set (h.symmetric x y hx hy);
  listed = λ x y. listed_lem g x y h.shaped;
  node_lt = λ x e. elim (Option-cases (lookup x g.rows)) [
    | inl o ↦ absurd (cc (e, o))
    | inr (row, o) ↦ h.shaped.node_lt x row o
  ];
}
