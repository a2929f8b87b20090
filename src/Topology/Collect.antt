-- ===== src/Topology/Collect.antt =====
-- network_topology.h and .cpp: NetworkTopology, the graphs that the master keeps of the topologies
-- it receives, and its checks whether a change calls for a new schedule. While a schedule is
-- computed the checks are put off. An operation that throws is `none`.
pub mod Deferred
pub mod Lost
pub mod Loop
pub mod Reported
use tdmh.Base.{
  ℕ, zero, suc, ◌+◌, ◌==◌, link_keyed, Links, order_link, contains, add, List, [], ◌∷◌, Option,
  none, some, Bool, true, false, ◌&&◌, ◌||◌, not, if◌then◌else◌,
}
use tdmh.Bitset.{RuntimeBitset, get_bit?, is_set}
use tdmh.Topology.Graph.{Graph, add_edge, remove_edge}

pub record NetworkTopology : Type 0 where
  pub channel_spatial_reuse : Bool
  pub use_weak_topologies : Bool
  pub graph : Graph
  pub weak_graph : Graph
  pub modified_flag : Bool
  pub schedule_in_progress : Bool
  pub used_links : Links
  pub removed_while_scheduling : Links
  pub new_links_causing_reschedule : Links
  pub added_while_scheduling : Links

-- TopologyElement, as far as the master reads it.
pub record TopologyElement : Type 0 where
  pub id : ℕ
  pub neighbors : RuntimeBitset
  pub weak_neighbors : RuntimeBitset

-- A link that has come to exist.
abbrev pub note_added : ℕ × ℕ → NetworkTopology → NetworkTopology
note_added link t =
    if t.schedule_in_progress
    then record t { added_while_scheduling = add link t.added_while_scheduling }
    else record t {
      modified_flag = contains link t.new_links_causing_reschedule || t.modified_flag;
    }

-- A link that has gone.
abbrev pub note_removed : ℕ × ℕ → NetworkTopology → NetworkTopology
note_removed link t =
    if t.schedule_in_progress
    then record t { removed_while_scheduling = add link t.removed_while_scheduling }
    else record t { modified_flag = contains link t.used_links || t.modified_flag }

abbrev pub after_add : ℕ × ℕ → NetworkTopology → Option (Bool × Graph) → Option NetworkTopology
after_add link t none = none
after_add link t (some (added, g)) = some (
    if added && t.channel_spatial_reuse && not t.use_weak_topologies
    then note_added link (record t { graph = g })
    else record t { graph = g })

abbrev pub after_remove : ℕ × ℕ → NetworkTopology → Option (Bool × Graph) → Option NetworkTopology
after_remove link t none = none
after_remove link t (some (removed, g)) =
    some (if removed then note_removed link (record t { graph = g }) else record t { graph = g })

-- The body of the first loop, for the bit of node `i`.
unfoldable pub receive_bit : ℕ → ℕ → Bool → NetworkTopology → Option NetworkTopology
receive_bit src i present t =
    if i == src
    then some t
    else if present
    then after_add (order_link src i) t (add_edge t.graph src i)
    else after_remove (order_link src i) t (remove_edge t.graph src i)

abbrev pub after_weak_add : ℕ × ℕ → NetworkTopology → Option (Bool × Graph) → Option NetworkTopology
after_weak_add link t none = none
after_weak_add link t (some (added, g)) =
    some
      (if added then note_added link (record t { weak_graph = g }) else record t { weak_graph = g })

abbrev pub after_weak_remove : NetworkTopology → Option (Bool × Graph) → Option NetworkTopology
after_weak_remove t none = none
after_weak_remove t (some (removed, g)) = some (record t { weak_graph = g })

-- The body of the loop over the weak neighbours.
unfoldable pub receive_weak_bit : ℕ → ℕ → Bool → NetworkTopology → Option NetworkTopology
receive_weak_bit src i present t =
    if i == src
    then some t
    else if present
    then after_weak_add (order_link src i) t (add_edge t.weak_graph src i)
    else after_weak_remove t (remove_edge t.weak_graph src i)

-- The loops over the bits, `count` of them from `i` on.
unfoldable pub receive_bits :
    (ℕ → Bool → NetworkTopology → Option NetworkTopology)
    → ℕ
    → ℕ
    → RuntimeBitset
    → NetworkTopology
    → Option NetworkTopology
receive_bits body i zero bitset t = some t
receive_bits body i (suc count) bitset t = elim (body i (is_set (get_bit? bitset i)) t) [
  | none ↦ none
  | some t' ↦ receive_bits body (suc i) count bitset t'
]

abbrev pub receive_weak : TopologyElement → NetworkTopology → Option NetworkTopology
receive_weak e t =
    if t.use_weak_topologies
    then receive_bits (receive_weak_bit e.id) 0 e.weak_neighbors.bit_count e.weak_neighbors t
    else some t

-- `doReceivedTopology`.
unfoldable pub do_received_topology : TopologyElement → NetworkTopology → Option NetworkTopology
do_received_topology e t =
    elim (receive_bits (receive_bit e.id) 0 e.neighbors.bit_count e.neighbors t) [
      | none ↦ none
      | some t' ↦ receive_weak e t'
    ]

abbrev pub any_in : Links → Links → Bool
any_in [] links = false
any_in ((l, _) ∷ more) links = contains l links || any_in more links

-- `performDelayedChangesChecks`.
unfoldable pub perform_delayed_changes_checks : NetworkTopology → NetworkTopology
perform_delayed_changes_checks t = record t {
  schedule_in_progress = false;
  modified_flag =
      t.modified_flag
      || any_in t.removed_while_scheduling t.used_links
      || any_in t.added_while_scheduling t.new_links_causing_reschedule;
  removed_while_scheduling = [];
  added_while_scheduling = [];
}

unfoldable pub schedule_changed : Links → Links → NetworkTopology → NetworkTopology
unfolding perform_delayed_changes_checks
schedule_changed used new_links t =
    perform_delayed_changes_checks
      (record t { used_links = used; new_links_causing_reschedule = new_links })

-- `updateSchedulerNetworkGraph`: whether the topology was modified, and the two graphs of the
-- scheduler. Its weak graph stays as it was unless weak topologies are used.
unfoldable pub update_scheduler_network_graph :
    Graph → NetworkTopology → (Bool × Graph × Graph) × NetworkTopology
update_scheduler_network_graph other_weak t = (
  (t.modified_flag, t.graph, if t.use_weak_topologies then t.weak_graph else other_weak),
  record t { schedule_in_progress = true; modified_flag = false },
)

-- `writeBackNetworkGraph`.
unfoldable pub write_back_network_graph : Graph → NetworkTopology → Bool × NetworkTopology
write_back_network_graph g t =
    if t.modified_flag then (false, t) else (true, record t { graph = g })
