-- ===== src/Scheduler/Reschedule/Kept.antt =====
-- What a reschedule makes of the streams, and when its schedule is put into use.
use tdmh.Base.{
  ℕ, suc, IsOrderedFrom, lookup_below, ◌≡◌, refl, sym, ◌∙◌, ◌≢◌, ◌⊎◌, ◌↔◌, inl, inr, nat_keyed,
  lookup, [], ◌∷◌, Option, none, some, Bool, true, false, ◌||◌, if◌then◌else◌, ◌==◌, arith,
  Bool-cases,
}
use tdmh.Topology.Snapshot.{Snapshot}
use tdmh.Stream.Params.{
  StreamId, get_key, id_keyed, IsInFields, MasterStreamStatus, accepted, established, listen,
  MasterStreamInfo,
}
use tdmh.Stream.Collection.{StreamCollection}
use tdmh.Stream.Collection.Lifecycle.{status_of}
use tdmh.Stream.Collection.Receive.{IsWellFormed}
use tdmh.Stream.Changes.{
  StreamChange, establish, reject, close, Changes, get_snapshot, get_stream_changes, apply_changes,
}
use tdmh.Stream.Changes.Found.{in_schedule, due, lookup-get_stream_changes}
use tdmh.Stream.Changes.Settled.{HasFields, settled, settled_of_due, get_stream_changes-AreChanges}
use tdmh.Stream.Changes.Applied.{AreStreams, changed_to, lookup-apply_changes}
use tdmh.Scheduler.Slots.{Config}
use tdmh.Scheduler.Reschedule.{
  Schedule, is_reject, new_schedule, changes_schedule, put_into_use, reschedule,
}

-- What a reschedule makes of a stream or server that was `before` in its snapshot and is `now`
-- there when the changes are made.
pub record Settles (present : Bool) (before now after : Option MasterStreamInfo) : Type 0 where
  pub unchanged : status_of now ≡ status_of before → after ≡ settled present now
  pub overtaken : status_of now ≢ status_of before → after ≡ now

stale_status :
    (present : Bool) (b : MasterStreamStatus) (i : MasterStreamInfo)
    → some i.status ≢ some b
    → changed_to (due present (some b)) (some i) ≡ some i
stale_status true accepted i n = ground arith
stale_status false accepted i n = ground arith
stale_status true established i n = refl
stale_status false established i n = ground arith
stale_status present listen i n = refl

stale_lem :
    (present : Bool) (before now : Option MasterStreamInfo)
    → status_of now ≢ status_of before
    → changed_to (due present (status_of before)) now ≡ now
stale_lem present none now n = refl
stale_lem present (some b) none n = ground arith
stale_lem present (some b) (some i) n = stale_status present b.status i n

changed_to-Settles :
    (present : Bool) (before now : Option MasterStreamInfo)
    → Settles present before now (changed_to (due present (status_of before)) now)
changed_to-Settles present before now = record {
  unchanged = λ e. rw (← e) (settled_of_due present now);
  overtaken = stale_lem present before now;
}

-- The new schedule has a stream that was accepted, or it lacks one that was established.
abbrev pub IsDifferent : Schedule → StreamCollection → Type 0
IsDifferent new s =
    (j : StreamId) × IsInFields j
    × (((status_of (lookup j s.collection) ≡ some accepted) × (in_schedule j new.schedule ≡ true))
        ⊎ ((status_of (lookup j s.collection) ≡ some established)
            × (in_schedule j new.schedule ≡ false)))

-- The changes in which one is no rejection.
changes_schedule_found :
    (n : ℕ) (ch : Changes)
    → IsOrderedFrom n ch
    → AreStreams ch
    → changes_schedule ch ≡ true
    → (j : StreamId) × (change : StreamChange) × IsInFields j
      × (lookup j ch ≡ some change)
      × (is_reject change ≡ false)
unfolding changes_schedule lookup
changes_schedule_found n [] o a e = absurd (cc e)
changes_schedule_found n ((id, change) ∷ ch) o a e = elim (Bool-cases (is_reject change)) [
  | inr keep ↦ (id, change, a.0.0, ground arith, keep)
  | inl drop ↦
      let (j, later, f, found, keep) =
        changes_schedule_found (suc (get_key id)) ch o.1 a.1 (ground arith) in
      (j, later, f, ground (arith, lookup_below (suc (get_key id)) j ch), keep)
]

found-changes_schedule :
    (ch : Changes) (j : StreamId) (change : StreamChange)
    → lookup j ch ≡ some change
    → is_reject change ≡ false
    → changes_schedule ch ≡ true
unfolding changes_schedule lookup
found-changes_schedule [] j change e keep = absurd (cc e)
found-changes_schedule ((id, c) ∷ ch) j change e keep =
    ground (arith, found-changes_schedule ch j change)

due_kept :
    (present : Bool) (st : Option MasterStreamStatus) (change : StreamChange)
    → due present st ≡ some change
    → is_reject change ≡ false
    → ((st ≡ some accepted) × (present ≡ true)) ⊎ ((st ≡ some established) × (present ≡ false))
due_kept present none change e keep = absurd (cc e)
due_kept true (some accepted) change e keep = inl (refl, refl)
due_kept false (some accepted) reject e keep = absurd (cc keep)
due_kept false (some accepted) establish e keep = absurd (cc e)
due_kept false (some accepted) close e keep = absurd (cc e)
due_kept true (some established) change e keep = absurd (cc e)
due_kept false (some established) change e keep = inr (refl, refl)
due_kept true (some listen) change e keep = absurd (cc e)
due_kept false (some listen) change e keep = absurd (cc e)

module _ (c : Config) (g : Snapshot) (max_hops : ℕ) where
  no_changes :
      (ch : Changes)
      → ((j : StreamId) → IsInFields j → lookup j ch ≡ none)
      → AreStreams ch
      → ch ≡ []
  unfolding lookup
  no_changes [] f h = refl
  no_changes ((id, change) ∷ ch) f h =
      let first = f id h.0.0 in
      let same : (get_key id == get_key id) ≡ true = ground arith in absurd (cc (first, same))

  -- From a well-formed collection, where the schedule is computed anew, with streams whose fields
  -- fit, and whatever other threads make of the collection in between: the reschedule returns.
  -- Where a stream or server has the status still that it had, the streams that the new schedule
  -- has are then established, the others are gone, and the servers stay; where its status has
  -- changed meanwhile, it stays as it has become. The new schedule is put into use exactly if it
  -- has a stream that was accepted before or lacks one that was established.
  pub reschedule-settled :
      (graph_changed : Bool) (meanwhile : StreamCollection → StreamCollection) (cur new : Schedule)
      (s : StreamCollection)
      → IsWellFormed s
      → HasFields new.schedule
      → (graph_changed || s.removed_flag || s.added_flag) ≡ true
      → new_schedule c g max_hops graph_changed (get_snapshot s).0 cur ≡ some new
      → (changed : Bool) × (s' : StreamCollection) × (reschedule c g max_hops graph_changed
            meanwhile cur s
          ≡ some (changed, (if changed then new else cur), s'))
        × ((j : StreamId)
            → IsInFields j
            → Settles
                (in_schedule j new.schedule)
                (lookup j s.collection)
                (lookup j (meanwhile (get_snapshot s).1).collection)
                (lookup j s'.collection))
        × ((changed ≡ true) ↔ IsDifferent new s)
  unfolding reschedule put_into_use get_snapshot
  reschedule-settled graph_changed meanwhile cur new s h f again e =
      let (snap, cleared) = get_snapshot s in
      let changes = get_stream_changes snap new.schedule in
      let ok = get_stream_changes-AreChanges snap new.schedule f h.streams in
      let found_change = λ (j : StreamId) (k : IsInFields j).
        lookup-get_stream_changes snap new.schedule j h.streams k in
      (
        changes_schedule changes,
        apply_changes changes (meanwhile cleared),
        rw (e, reschedule) (rw again refl),
        λ j k. rw (lookup-apply_changes 0 changes (meanwhile cleared) j ok.ordered ok.streams) (
            rw (lookup-get_stream_changes snap new.schedule j h.streams k) (
              changed_to-Settles (in_schedule j new.schedule) (lookup j s.collection)
                (lookup j (meanwhile cleared).collection))),
        (
          λ q.
              let (j, change, k, found, keep) =
                changes_schedule_found 0 changes ok.ordered ok.streams q in
              (
                j,
                k,
                due_kept (in_schedule j new.schedule) (status_of (lookup j s.collection)) change
                    (sym (found_change j k) ∙ found) keep,
              ),
          λ q.
              let (j, k, why) = q in
              elim why [
                | inl (st, present) ↦
                    found-changes_schedule changes j establish
                      (found_change j k ∙ rw (st, present) refl) refl
                | inr (st, present) ↦
                    found-changes_schedule changes j close
                      (found_change j k ∙ rw (st, present) refl) refl
              ],
        ),
      )

  -- From a well-formed collection in which no stream waits to be accepted, where the new schedule
  -- has every established stream: however it was computed, the reschedule drops it and keeps the
  -- schedule in use, after a change of the topology as well as after the removal of a stream.
  pub reschedule-dropped :
      (graph_changed : Bool) (meanwhile : StreamCollection → StreamCollection) (cur new : Schedule)
      (s : StreamCollection)
      → IsWellFormed s
      → HasFields new.schedule
      → new_schedule c g max_hops graph_changed (get_snapshot s).0 cur ≡ some new
      → ((j : StreamId)
          → IsInFields j
          → (status_of (lookup j s.collection) ≢ some accepted)
            × (status_of (lookup j s.collection) ≡ some established
                → in_schedule j new.schedule ≡ true))
      → (s' : StreamCollection) × (reschedule c g max_hops graph_changed meanwhile cur s
          ≡ some (false, cur, s'))
  unfolding reschedule put_into_use get_snapshot changes_schedule
  reschedule-dropped graph_changed meanwhile cur new s h f e all =
      let (snap, cleared) = get_snapshot s in
      let s₁ = meanwhile cleared in
      let changes = get_stream_changes snap new.schedule in
      let none_due : changes ≡ [] =
        no_changes changes
          (λ j k.
            lookup-get_stream_changes snap new.schedule j h.streams k
            ∙ nothing_due (in_schedule j new.schedule) (status_of (lookup j s.collection))
                (all j k))
          (get_stream_changes-AreChanges snap new.schedule f h.streams).streams in
      elim (Bool-cases (graph_changed || s.removed_flag || s.added_flag)) [
        | inl again ↦ (apply_changes changes s₁, rw (e, reschedule) (rw again (rw none_due refl)))
        | inr still ↦ (s₁, rw (e, reschedule) (rw still refl))
      ]
    where
      nothing_due :
          (present : Bool) (st : Option MasterStreamStatus)
          → (st ≢ some accepted) × (st ≡ some established → present ≡ true)
          → due present st ≡ none
      nothing_due present none a = refl
      nothing_due present (some accepted) a = absurd (a.0 refl)
      nothing_due present (some established) a = rw (a.1 refl) refl
      nothing_due true (some listen) a = refl
      nothing_due false (some listen) a = refl
