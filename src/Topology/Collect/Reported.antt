-- ===== src/Topology/Collect/Reported.antt =====
-- The graphs after `doReceivedTopology`.
use tdmh.Base.{
  ℕ, ◌<◌, ◌≡◌, refl, subst, ◌∙◌, inl, inr, order_link, Option, some, Bool, true, false, ◌&&◌, not,
  ◌==◌, if◌then◌else◌, arith, Bool-cases,
}
use tdmh.Bitset.{RuntimeBitset, get_bit?}
use tdmh.Bitset.Laws.{get_bit?_in_range}
use tdmh.Topology.Graph.{Graph, get_bit, edge}
use tdmh.Topology.Graph.Edges.{IsGraph, add_edge_lem, remove_edge_lem}
use tdmh.Topology.Collect.{
  NetworkTopology, TopologyElement, note_added, note_removed, after_add, after_remove, receive_bit,
  after_weak_add, receive_weak_bit, receive_bits, receive_weak, do_received_topology,
}
use tdmh.Topology.Collect.Loop.{
  Same, note_added-Same, note_removed-Same, if-Same, Steps, Reads, receive_bits-Reads, stores,
}

after_add_steps :
    (link : ℕ × ℕ) (t : NetworkTopology) (added : Bool) (g : Graph)
    → (t' : NetworkTopology) × (after_add link t (some (added, g)) ≡ some t')
      × Same (record t { graph = g }) t'
after_add_steps link t added g = (
  _,
  refl,
  if-Same (added && t.channel_spatial_reuse && not t.use_weak_topologies) (record t { graph = g })
      (note_added link (record t { graph = g })) (note_added-Same link (record t { graph = g })),
)

after_remove_steps :
    (link : ℕ × ℕ) (t : NetworkTopology) (removed : Bool) (g : Graph)
    → (t' : NetworkTopology) × (after_remove link t (some (removed, g)) ≡ some t')
      × Same (record t { graph = g }) t'
after_remove_steps link t removed g = (
  _,
  refl,
  if-Same removed (record t { graph = g }) (note_removed link (record t { graph = g }))
      (note_removed-Same link (record t { graph = g })),
)

after_weak_add_steps :
    (link : ℕ × ℕ) (t : NetworkTopology) (added : Bool) (g : Graph)
    → (t' : NetworkTopology) × (after_weak_add link t (some (added, g)) ≡ some t')
      × Same (record t { weak_graph = g }) t'
after_weak_add_steps link t added g = (
  _,
  refl,
  if-Same added (record t { weak_graph = g }) (note_added link (record t { weak_graph = g }))
      (note_added-Same link (record t { weak_graph = g })),
)

receive_bit-Steps : (src : ℕ) → Steps (λ t. t.graph) (λ t. t.weak_graph) src (receive_bit src)
unfolding receive_bit
receive_bit-Steps src j b t ok hs hj = elim (Bool-cases (j == src)) [
  | inl e ↦ (
    t,
    rw (e, receive_bit) refl,
    record { valid = ok; nodes = refl; others = refl; uses = refl },
    λ x y hx hy. ground arith,
  )
  | inr n ↦ elim (Bool-cases b) [
    | inl p ↦
        let (g, r, kept, valid, rewires) = add_edge_lem t.graph src j ok hs hj in
        let (t', e, same) = after_add_steps (order_link src j) t (not (edge t.graph src j)) g in
        let (stays, writes) =
          stores (λ s. s.graph) (λ s. s.weak_graph) src j true t t' g n same.graph kept.nodes valid
            rewires same.weak_graph same.uses in
        (t', rw (n, p, receive_bit) (rw r e), stays, rw p writes)
    | inr p ↦
        let (g, r, nodes, flag, valid, rewires) = remove_edge_lem t.graph src j ok hs hj in
        let (t', e, same) = after_remove_steps (order_link src j) t (edge t.graph src j) g in
        let (stays, writes) =
          stores (λ s. s.graph) (λ s. s.weak_graph) src j false t t' g n same.graph nodes valid
            rewires same.weak_graph same.uses in
        (t', rw (n, p, receive_bit) (rw r e), stays, rw p writes)
  ]
]

receive_weak_bit-Steps :
    (src : ℕ) → Steps (λ t. t.weak_graph) (λ t. t.graph) src (receive_weak_bit src)
unfolding receive_weak_bit
receive_weak_bit-Steps src j b t ok hs hj = elim (Bool-cases (j == src)) [
  | inl e ↦ (
    t,
    rw (e, receive_weak_bit) refl,
    record { valid = ok; nodes = refl; others = refl; uses = refl },
    λ x y hx hy. ground arith,
  )
  | inr n ↦ elim (Bool-cases b) [
    | inl p ↦
        let (g, r, kept, valid, rewires) = add_edge_lem t.weak_graph src j ok hs hj in
        let (t', e, same) =
          after_weak_add_steps (order_link src j) t (not (edge t.weak_graph src j)) g in
        let (stays, writes) =
          stores (λ s. s.weak_graph) (λ s. s.graph) src j true t t' g n same.weak_graph kept.nodes
            valid rewires same.graph same.uses in
        (t', rw (n, p, receive_weak_bit) (rw r e), stays, rw p writes)
    | inr p ↦
        let (g, r, nodes, flag, valid, rewires) = remove_edge_lem t.weak_graph src j ok hs hj in
        let t' = record t { weak_graph = g } in
        let (stays, writes) =
          stores (λ s. s.weak_graph) (λ s. s.graph) src j false t t' g n refl nodes valid rewires
            refl refl in
        (t', rw (n, p, receive_weak_bit) (rw r refl), stays, rw p writes)
  ]
]

-- The edges of `src` are the bits that were reported, and the others are as before.
abbrev pub Reports : ℕ → RuntimeBitset → Graph → Graph → Type 0
Reports src bits g g' =
    (x y : ℕ)
    → x < g.max_nodes
    → y < g.max_nodes
    → get_bit g' x y ≡ (
        if x == y
        then get_bit g x y
        else if x == src
        then get_bit? bits y
        else if y == src
        then get_bit? bits x
        else get_bit g x y)

reports :
    (src : ℕ) (bits : RuntimeBitset) (g g' : Graph)
    → bits.bit_count ≡ g.max_nodes
    → Reads src bits 0 bits.bit_count g g'
    → Reports src bits g g'
reports src bits g g' same w x y hx hy =
    let (u, ex) = get_bit?_in_range bits x (ground (arith, same)) in
    let (v, ey) = get_bit?_in_range bits y (ground (arith, same)) in
    w x y hx hy ∙ ground (arith, ex, ey)

-- The graph of the strong links is valid, and the graph of the weak ones.
pub record IsTopology (t : NetworkTopology) : Type 0 where
  pub strong : IsGraph t.graph
  pub weak : IsGraph t.weak_graph

-- The element comes from a node of the network, and its bitsets have a bit for each node.
pub record Fits (e : TopologyElement) (t : NetworkTopology) : Type 0 where
  pub node : e.id < t.graph.max_nodes
  pub weak_node : e.id < t.weak_graph.max_nodes
  pub bits : e.neighbors.bit_count ≡ t.graph.max_nodes
  pub weak_bits : e.weak_neighbors.bit_count ≡ t.weak_graph.max_nodes

if_taken :
    (b : Bool) (f : NetworkTopology → Option NetworkTopology) (t t' : NetworkTopology)
    → b ≡ true
    → f t ≡ some t'
    → (if b then f t else some t) ≡ some t'
if_taken true f t t' e r = r
if_taken false f t t' e r = absurd (cc e)

receive_weak_lem :
    (e : TopologyElement) (t : NetworkTopology)
    → IsGraph t.weak_graph
    → e.id < t.weak_graph.max_nodes
    → e.weak_neighbors.bit_count ≡ t.weak_graph.max_nodes
    → (t' : NetworkTopology) × (receive_weak e t ≡ some t')
      × (t'.graph ≡ t.graph)
      × IsGraph t'.weak_graph
      × (t.use_weak_topologies ≡ true → Reports e.id e.weak_neighbors t.weak_graph t'.weak_graph)
      × (t.use_weak_topologies ≡ false → t'.weak_graph ≡ t.weak_graph)
receive_weak_lem e t ok hs h = elim (Bool-cases t.use_weak_topologies) [
  | inr n ↦ (t, rw n refl, refl, ok, λ q. absurd (cc (q, n)), λ q. refl)
  | inl u ↦
      let (t', r, s, w) =
        receive_bits-Reads (λ s. s.weak_graph) (λ s. s.graph) e.id (receive_weak_bit e.id) 0
          e.weak_neighbors.bit_count e.weak_neighbors t (receive_weak_bit-Steps e.id) ok hs
          (omega (arith, h)) in
      (
        t',
        if_taken t.use_weak_topologies
            (receive_bits (receive_weak_bit e.id) 0 e.weak_neighbors.bit_count e.weak_neighbors) t
            t' u r,
        s.others,
        s.valid,
        λ q. reports e.id e.weak_neighbors t.weak_graph t'.weak_graph h w,
        λ q. absurd (cc (q, u)),
      )
]

-- On valid graphs, for an element of a node of the network that has a bit for each node,
-- doReceivedTopology returns and keeps the graphs valid. The edges of the node are then the bits
-- of its element, in both directions, and every other edge is as before; so are the weak edges if
-- weak topologies are used, and else the weak graph stays.
pub do_received_topology_lem :
    (e : TopologyElement) (t : NetworkTopology)
    → IsTopology t
    → Fits e t
    → (t' : NetworkTopology) × (do_received_topology e t ≡ some t')
      × IsTopology t'
      × Reports e.id e.neighbors t.graph t'.graph
      × (t.use_weak_topologies ≡ true → Reports e.id e.weak_neighbors t.weak_graph t'.weak_graph)
      × (t.use_weak_topologies ≡ false → t'.weak_graph ≡ t.weak_graph)
unfolding do_received_topology
do_received_topology_lem e t ok fits =
    let (t₁, r₁, s₁, w₁) =
      receive_bits-Reads (λ s. s.graph) (λ s. s.weak_graph) e.id (receive_bit e.id) 0
        e.neighbors.bit_count e.neighbors t (receive_bit-Steps e.id) ok.strong fits.node
        (ground (arith, fits.bits)) in
    let (t₂, r₂, same, weak, reported, stays) =
      receive_weak_lem e t₁ (rw s₁.others ok.weak) (rw s₁.others fits.weak_node)
        (rw s₁.others fits.weak_bits) in
    (
      t₂,
      rw (r₁, do_received_topology) r₂,
      record { strong = rw same s₁.valid; weak = weak },
      rw same (reports e.id e.neighbors t.graph t₁.graph fits.bits w₁),
      λ q.
          subst (λ g. Reports e.id e.weak_neighbors g t₂.weak_graph) s₁.others
            (reported (s₁.uses ∙ q)),
      λ q. stays (s₁.uses ∙ q) ∙ s₁.others,
    )
