-- ===== src/Topology/Collect/Lost.antt =====
-- `writeBackNetworkGraph` after topologies that are received while the schedule is computed.
use tdmh.Base.{
  ℕ, zero, suc, ◌≡◌, refl, order_link, List, [], ◌∷◌, Option, none, some, Bool, true, false, ◌&&◌,
  not, ◌==◌, if◌then◌else◌, arith,
}
use tdmh.Bitset.{RuntimeBitset, get_bit?, is_set}
use tdmh.Topology.Graph.{Graph, add_edge, remove_edge}
use tdmh.Topology.Collect.{
  NetworkTopology, TopologyElement, note_added, note_removed, after_add, after_remove, receive_bit,
  after_weak_add, after_weak_remove, receive_weak_bit, receive_bits, receive_weak,
  do_received_topology, update_scheduler_network_graph, write_back_network_graph,
}

-- A schedule is computed, and no change has been noted since its graphs were copied.
abbrev IsQuiet : NetworkTopology → Type 0
IsQuiet t = (t.schedule_in_progress ≡ true) × (t.modified_flag ≡ false)

abbrev Keeps : (NetworkTopology → Option NetworkTopology) → Type 0
Keeps f = (t t' : NetworkTopology) → IsQuiet t → f t ≡ some t' → IsQuiet t'

note_added-IsQuiet : (link : ℕ × ℕ) (t : NetworkTopology) → IsQuiet t → IsQuiet (note_added link t)
note_added-IsQuiet link t (busy, clean) = rw busy (refl, clean)

note_removed-IsQuiet :
    (link : ℕ × ℕ) (t : NetworkTopology) → IsQuiet t → IsQuiet (note_removed link t)
note_removed-IsQuiet link t (busy, clean) = rw busy (refl, clean)

some-IsQuiet : (s t : NetworkTopology) → IsQuiet s → some s ≡ some t → IsQuiet t
some-IsQuiet s t (busy, clean) e = (ground arith, ground arith)

if-IsQuiet :
    (b : Bool) (s t : NetworkTopology) → IsQuiet s → IsQuiet t → IsQuiet (if b then s else t)
if-IsQuiet true s t p q = p
if-IsQuiet false s t p q = q

if-Keeps :
    (b : Bool) (f g : NetworkTopology → Option NetworkTopology)
    → Keeps f
    → Keeps g
    → Keeps (λ t. if b then f t else g t)
if-Keeps true f g p q = p
if-Keeps false f g p q = q

after_add-IsQuiet :
    (link : ℕ × ℕ) (t t' : NetworkTopology) (o : Option (Bool × Graph))
    → IsQuiet t
    → after_add link t o ≡ some t'
    → IsQuiet t'
after_add-IsQuiet link t t' none q e = absurd (cc e)
after_add-IsQuiet link t t' (some (added, g)) q e =
    some-IsQuiet _ t'
      (if-IsQuiet (added && t.channel_spatial_reuse && not t.use_weak_topologies)
        (note_added link (record t { graph = g })) (record t { graph = g })
        (note_added-IsQuiet link (record t { graph = g }) q) q)
      e

after_remove-IsQuiet :
    (link : ℕ × ℕ) (t t' : NetworkTopology) (o : Option (Bool × Graph))
    → IsQuiet t
    → after_remove link t o ≡ some t'
    → IsQuiet t'
after_remove-IsQuiet link t t' none q e = absurd (cc e)
after_remove-IsQuiet link t t' (some (removed, g)) q e =
    some-IsQuiet _ t'
      (if-IsQuiet removed (note_removed link (record t { graph = g })) (record t { graph = g })
        (note_removed-IsQuiet link (record t { graph = g }) q) q)
      e

after_weak_add-IsQuiet :
    (link : ℕ × ℕ) (t t' : NetworkTopology) (o : Option (Bool × Graph))
    → IsQuiet t
    → after_weak_add link t o ≡ some t'
    → IsQuiet t'
after_weak_add-IsQuiet link t t' none q e = absurd (cc e)
after_weak_add-IsQuiet link t t' (some (added, g)) q e =
    some-IsQuiet _ t'
      (if-IsQuiet added (note_added link (record t { weak_graph = g }))
        (record t { weak_graph = g }) (note_added-IsQuiet link (record t { weak_graph = g }) q) q)
      e

after_weak_remove-IsQuiet :
    (t t' : NetworkTopology) (o : Option (Bool × Graph))
    → IsQuiet t
    → after_weak_remove t o ≡ some t'
    → IsQuiet t'
after_weak_remove-IsQuiet t t' none q e = absurd (cc e)
after_weak_remove-IsQuiet t t' (some (removed, g)) q e =
    some-IsQuiet (record t { weak_graph = g }) t' q e

receive_bit-Keeps : (src i : ℕ) (present : Bool) → Keeps (receive_bit src i present)
unfolding receive_bit
receive_bit-Keeps src i present =
    if-Keeps (i == src) some
      (λ t.
        if present
        then after_add (order_link src i) t (add_edge t.graph src i)
        else after_remove (order_link src i) t (remove_edge t.graph src i))
      some-IsQuiet
      (if-Keeps present (λ t. after_add (order_link src i) t (add_edge t.graph src i))
        (λ t. after_remove (order_link src i) t (remove_edge t.graph src i))
        (λ t t' q e. after_add-IsQuiet (order_link src i) t t' (add_edge t.graph src i) q e)
        (λ t t' q e. after_remove-IsQuiet (order_link src i) t t' (remove_edge t.graph src i) q e))

receive_weak_bit-Keeps : (src i : ℕ) (present : Bool) → Keeps (receive_weak_bit src i present)
unfolding receive_weak_bit
receive_weak_bit-Keeps src i present =
    if-Keeps (i == src) some
      (λ t.
        if present
        then after_weak_add (order_link src i) t (add_edge t.weak_graph src i)
        else after_weak_remove t (remove_edge t.weak_graph src i))
      some-IsQuiet
      (if-Keeps present (λ t. after_weak_add (order_link src i) t (add_edge t.weak_graph src i))
        (λ t. after_weak_remove t (remove_edge t.weak_graph src i))
        (λ t t' q e.
          after_weak_add-IsQuiet (order_link src i) t t' (add_edge t.weak_graph src i) q e)
        (λ t t' q e. after_weak_remove-IsQuiet t t' (remove_edge t.weak_graph src i) q e))

chain-IsQuiet :
    (o : Option NetworkTopology) (next : NetworkTopology → Option NetworkTopology)
    (t' : NetworkTopology)
    → ((t : NetworkTopology) → o ≡ some t → IsQuiet t)
    → Keeps next
    → elim o [ none ↦ none | some t ↦ next t ] ≡ some t'
    → IsQuiet t'
chain-IsQuiet none next t' first rest e = absurd (cc e)
chain-IsQuiet (some t) next t' first rest e = rest t t' (first t refl) e

receive_bits-Keeps :
    (body : ℕ → Bool → NetworkTopology → Option NetworkTopology) (i count : ℕ)
    (bitset : RuntimeBitset)
    → ((j : ℕ) (b : Bool) → Keeps (body j b))
    → Keeps (receive_bits body i count bitset)
unfolding receive_bits
receive_bits-Keeps body i zero bitset step t t' q e = some-IsQuiet t t' q e
receive_bits-Keeps body i (suc count) bitset step t t' q e =
    chain-IsQuiet (body i (is_set (get_bit? bitset i)) t) (receive_bits body (suc i) count bitset)
      t' (λ t₁ o. step i (is_set (get_bit? bitset i)) t t₁ q o)
      (receive_bits-Keeps body (suc i) count bitset step) e

receive_weak-Keeps : (e : TopologyElement) → Keeps (receive_weak e)
receive_weak-Keeps e t t' =
    if-Keeps t.use_weak_topologies
      (receive_bits (receive_weak_bit e.id) 0 e.weak_neighbors.bit_count e.weak_neighbors) some
      (receive_bits-Keeps (receive_weak_bit e.id) 0 e.weak_neighbors.bit_count e.weak_neighbors
        (receive_weak_bit-Keeps e.id))
      some-IsQuiet t t'

do_received_topology-Keeps : (e : TopologyElement) → Keeps (do_received_topology e)
unfolding do_received_topology
do_received_topology-Keeps e t t' q r =
    chain-IsQuiet (receive_bits (receive_bit e.id) 0 e.neighbors.bit_count e.neighbors t)
      (receive_weak e) t'
      (λ t₁ o.
        receive_bits-Keeps (receive_bit e.id) 0 e.neighbors.bit_count e.neighbors
          (receive_bit-Keeps e.id) t t₁ q o)
      (receive_weak-Keeps e) r

-- The receptions of `elements`, one after the other.
abbrev pub receive_all : List TopologyElement → NetworkTopology → Option NetworkTopology
receive_all [] t = some t
receive_all (e ∷ more) t = elim (do_received_topology e t) [
  | none ↦ none
  | some t' ↦ receive_all more t'
]

receive_all-Keeps : (elements : List TopologyElement) → Keeps (receive_all elements)
receive_all-Keeps [] t t' q e = some-IsQuiet t t' q e
receive_all-Keeps (x ∷ more) t t' q e =
    chain-IsQuiet (do_received_topology x t) (receive_all more) t'
      (λ t₁ o. do_received_topology-Keeps x t t₁ q o) (receive_all-Keeps more) e

-- Whatever topologies are received after the graphs were copied, the write-back is done: it
-- replaces the graph they have changed by the one the scheduler pruned.
pub write_back_network_graph-update :
    (other_weak pruned : Graph) (elements : List TopologyElement) (t t' : NetworkTopology)
    → receive_all elements (update_scheduler_network_graph other_weak t).1 ≡ some t'
    → write_back_network_graph pruned t' ≡ (true, record t' { graph = pruned })
unfolding update_scheduler_network_graph write_back_network_graph
write_back_network_graph-update other_weak pruned elements t t' e =
    let (busy, clean) =
      receive_all-Keeps elements (record t { schedule_in_progress = true; modified_flag = false })
        t' (refl, refl) e in
    rw clean refl
