-- ===== src/Topology/Collect/Deferred.antt =====
-- NetworkTopology: a topology that is received while a schedule is computed, and the checks that
-- are put off until scheduleChanged.
use tdmh.Base.{
  ℕ, zero, suc, ◌≡◌, refl, ap, inl, inr, link_keyed, Links, order_link, insert, lookup_same,
  contains, add, [], ◌∷◌, Option, none, some, Bool, true, false, ◌&&◌, ◌||◌, not, ◌==◌,
  if◌then◌else◌, arith, Bool-cases, Option-cases,
}
use tdmh.Bitset.{RuntimeBitset, get_bit?, is_set}
use tdmh.Topology.Graph.{Graph, add_edge, remove_edge}
use tdmh.Topology.Collect.{
  NetworkTopology, TopologyElement, note_added, note_removed, after_add, after_remove, receive_bit,
  after_weak_add, after_weak_remove, receive_weak_bit, receive_bits, receive_weak,
  do_received_topology, any_in, perform_delayed_changes_checks, schedule_changed,
}

any_in-add :
    (l : ℕ × ℕ) (m links : Links) → any_in (add l m) links ≡ (contains l links || any_in m links)
unfolding insert
any_in-add l [] links = refl
any_in-add l ((j, u) ∷ m) links = ground (arith, any_in-add l m links, lookup_same j l links)

abbrev pub over : {A B : Type 0} → (A → B) → Option A → Option B
over f none = none
over f (some a) = some (f a)

abbrev IsBusy : NetworkTopology → Type 0
IsBusy t = t.schedule_in_progress ≡ true

module _ (used new_links : Links) where
  abbrev finish : NetworkTopology → NetworkTopology
  finish t = record t {
    used_links = used;
    new_links_causing_reschedule = new_links;
    schedule_in_progress = false;
    modified_flag =
        t.modified_flag
        || any_in t.removed_while_scheduling used
        || any_in t.added_while_scheduling new_links;
    removed_while_scheduling = [];
    added_while_scheduling = [];
  }

  note_removed-finish :
      (link : ℕ × ℕ) (t : NetworkTopology)
      → IsBusy t
      → note_removed link (finish t) ≡ finish (note_removed link t)
  note_removed-finish link t busy = rw busy (
      ap (λ b. record (finish t) { modified_flag = b })
        (ground (arith, any_in-add link t.removed_while_scheduling used)))

  note_added-finish :
      (link : ℕ × ℕ) (t : NetworkTopology)
      → IsBusy t
      → note_added link (finish t) ≡ finish (note_added link t)
  note_added-finish link t busy = rw busy (
      ap (λ b. record (finish t) { modified_flag = b })
        (ground (arith, any_in-add link t.added_while_scheduling new_links)))

  -- What a step does is the same before the end of the computation as after it.
  abbrev Commutes : (NetworkTopology → Option NetworkTopology) → NetworkTopology → Type 0
  Commutes f t =
      (f (finish t) ≡ over finish (f t)) × ((t' : NetworkTopology) → f t ≡ some t' → IsBusy t')

  after_add-Commutes :
      (link : ℕ × ℕ) (t : NetworkTopology) (o : Option (Bool × Graph))
      → IsBusy t
      → Commutes (λ s. after_add link s o) t
  after_add-Commutes link t none busy = (refl, λ t' e. absurd (cc e))
  after_add-Commutes link t (some (added, g)) busy =
      elim (Bool-cases (added && t.channel_spatial_reuse && not t.use_weak_topologies)) [
        | inl e ↦ (
          rw e (ap some (note_added-finish link (record t { graph = g }) busy)),
          λ t' q. ground arith,
        )
        | inr e ↦ (rw e refl, λ t' q. ground arith)
      ]

  after_remove-Commutes :
      (link : ℕ × ℕ) (t : NetworkTopology) (o : Option (Bool × Graph))
      → IsBusy t
      → Commutes (λ s. after_remove link s o) t
  after_remove-Commutes link t none busy = (refl, λ t' e. absurd (cc e))
  after_remove-Commutes link t (some (true, g)) busy =
      (ap some (note_removed-finish link (record t { graph = g }) busy), λ t' q. ground arith)
  after_remove-Commutes link t (some (false, g)) busy = (refl, λ t' q. ground arith)

  after_weak_add-Commutes :
      (link : ℕ × ℕ) (t : NetworkTopology) (o : Option (Bool × Graph))
      → IsBusy t
      → Commutes (λ s. after_weak_add link s o) t
  after_weak_add-Commutes link t none busy = (refl, λ t' e. absurd (cc e))
  after_weak_add-Commutes link t (some (true, g)) busy =
      (ap some (note_added-finish link (record t { weak_graph = g }) busy), λ t' q. ground arith)
  after_weak_add-Commutes link t (some (false, g)) busy = (refl, λ t' q. ground arith)

  after_weak_remove-Commutes :
      (t : NetworkTopology) (o : Option (Bool × Graph))
      → IsBusy t
      → Commutes (λ s. after_weak_remove s o) t
  after_weak_remove-Commutes t none busy = (refl, λ t' e. absurd (cc e))
  after_weak_remove-Commutes t (some (removed, g)) busy = (refl, λ t' q. ground arith)

  receive_bit-Commutes :
      (src i : ℕ) (present : Bool) (t : NetworkTopology)
      → IsBusy t
      → Commutes (receive_bit src i present) t
  unfolding receive_bit
  receive_bit-Commutes src i present t busy = elim (Bool-cases (i == src)) [
    | inl e ↦ rw (e, receive_bit) (refl, λ t' q. ground arith)
    | inr e ↦ elim (Bool-cases present) [
      | inl p ↦
          rw (e, p, receive_bit)
            (after_add-Commutes (order_link src i) t (add_edge t.graph src i) busy)
      | inr p ↦
          rw (e, p, receive_bit)
            (after_remove-Commutes (order_link src i) t (remove_edge t.graph src i) busy)
    ]
  ]

  receive_weak_bit-Commutes :
      (src i : ℕ) (present : Bool) (t : NetworkTopology)
      → IsBusy t
      → Commutes (receive_weak_bit src i present) t
  unfolding receive_weak_bit
  receive_weak_bit-Commutes src i present t busy = elim (Bool-cases (i == src)) [
    | inl e ↦ rw (e, receive_weak_bit) (refl, λ t' q. ground arith)
    | inr e ↦ elim (Bool-cases present) [
      | inl p ↦
          rw (e, p, receive_weak_bit)
            (after_weak_add-Commutes (order_link src i) t (add_edge t.weak_graph src i) busy)
      | inr p ↦
          rw (e, p, receive_weak_bit)
            (after_weak_remove-Commutes t (remove_edge t.weak_graph src i) busy)
    ]
  ]

  receive_bits-Commutes :
      (body : ℕ → Bool → NetworkTopology → Option NetworkTopology) (i count : ℕ)
      (bitset : RuntimeBitset) (t : NetworkTopology)
      → ((j : ℕ) (b : Bool) (s : NetworkTopology) → IsBusy s → Commutes (body j b) s)
      → IsBusy t
      → Commutes (receive_bits body i count bitset) t
  unfolding receive_bits
  receive_bits-Commutes body i zero bitset t step busy = (refl, λ t' q. ground arith)
  receive_bits-Commutes body i (suc count) bitset t step busy =
      let b = is_set (get_bit? bitset i) in
      let (first, keep) = step i b t busy in
      elim (Option-cases (body i b t)) [
        | inl e ↦ rw (first, receive_bits) (rw (e, receive_bits) (refl, λ t' q. absurd (cc q)))
        | inr (t₁, e) ↦
            rw (first, receive_bits)
              (rw (e, receive_bits)
                (receive_bits-Commutes body (suc i) count bitset t₁ step (keep t₁ e)))
      ]

  if-Commutes :
      (b : Bool) (f : NetworkTopology → Option NetworkTopology) (t : NetworkTopology)
      → IsBusy t
      → Commutes f t
      → Commutes (λ s. if b then f s else some s) t
  if-Commutes true f t busy step = step
  if-Commutes false f t busy step = (refl, λ t' q. ground arith)

  receive_weak-Commutes :
      (e : TopologyElement) (t : NetworkTopology) → IsBusy t → Commutes (receive_weak e) t
  receive_weak-Commutes e t busy =
      if-Commutes t.use_weak_topologies
        (receive_bits (receive_weak_bit e.id) 0 e.weak_neighbors.bit_count e.weak_neighbors) t busy
        (receive_bits-Commutes (receive_weak_bit e.id) 0 e.weak_neighbors.bit_count e.weak_neighbors
          t (λ j b s k. receive_weak_bit-Commutes e.id j b s k) busy)

  -- A topology that is received while a schedule is computed, and then scheduleChanged with no
  -- write-back of the graph in between, leave the same state as scheduleChanged first and the
  -- topology right after it: the same graphs, and the same answer whether a new schedule is needed.
  pub do_received_topology-schedule_changed :
      (e : TopologyElement) (t : NetworkTopology)
      → t.schedule_in_progress ≡ true
      → do_received_topology e (schedule_changed used new_links t)
        ≡ over (schedule_changed used new_links) (do_received_topology e t)
  unfolding do_received_topology schedule_changed perform_delayed_changes_checks
  do_received_topology-schedule_changed e t busy =
      let (first, keep) =
        receive_bits-Commutes (receive_bit e.id) 0 e.neighbors.bit_count e.neighbors t
          (λ j b s k. receive_bit-Commutes e.id j b s k) busy in
      elim (Option-cases (receive_bits (receive_bit e.id) 0 e.neighbors.bit_count e.neighbors t)) [
        | inl o ↦ rw (first, do_received_topology) (rw (o, do_received_topology) refl)
        | inr (t₁, o) ↦
            rw (first, do_received_topology)
              (rw (o, do_received_topology) (receive_weak-Commutes e t₁ (keep t₁ o)).0)
      ]
