-- ===== src/Scheduler/Reschedule.antt =====
-- schedule_computation.cpp: ScheduleComputation::reschedule, which computes a schedule from a
-- snapshot of the streams and decides whether to put it into use, and the choice that the loop of
-- `run` makes between doing that and sending the schedule again.
pub mod Kept
pub mod Returns
mod Examples
use tdmh.Base.{
  ℕ, zero, suc, ◌+◌, ◌==◌, ltb, leb, link_keyed, Links, order_link, add, List, [], ◌∷◌, ◌++◌,
  Option, none, some, Bool, true, false, ◌&&◌, ◌||◌, not, if◌then◌else◌,
}
use tdmh.Topology.Snapshot.{Snapshot}
use tdmh.Stream.Params.{MasterStreamInfo, accepted, established, period_tiles}
use tdmh.Stream.Collection.{StreamCollection}
use tdmh.Stream.Changes.{
  StreamSnapshot, StreamChange, establish, reject, close, Changes, get_snapshot, get_operation,
  get_streams_with_status, get_stream_changes, apply_changes,
}
use tdmh.Scheduler.Element.{ScheduleElement}
use tdmh.Scheduler.Slots.{Config}
use tdmh.Scheduler.Allocate.{Allocation, schedule_streams}
use tdmh.Scheduler.Router.Run.{run}

-- The class Schedule of schedule_computation.h.
pub record Schedule : Type 0 where
  pub schedule : List ScheduleElement
  pub id : ℕ
  pub tiles : ℕ
  pub links : Links

-- `computeUsedLinks`.
unfoldable pub used_links : List ScheduleElement → Links
used_links [] = []
used_links (e ∷ es) = add (order_link e.tx e.rx) (used_links es)

-- A stable insertion sort, longest period first; std::sort leaves the order of equal ones open.
unfoldable pub insert_by_period : MasterStreamInfo → List MasterStreamInfo → List MasterStreamInfo
insert_by_period s [] = s ∷ []
insert_by_period s (t ∷ ts) =
    let rest = insert_by_period s ts in
    if ltb (period_tiles s.parameters.period) (period_tiles t.parameters.period)
    then t ∷ rest
    else s ∷ t ∷ ts

unfoldable pub sort_by_period : List MasterStreamInfo → List MasterStreamInfo
sort_by_period [] = []
sort_by_period (s ∷ ss) = insert_by_period s (sort_by_period ss)

abbrev pub is_reject : StreamChange → Bool
is_reject establish = false
is_reject reject = true
is_reject close = false

-- Whether a change is no rejection.
unfoldable pub changes_schedule : Changes → Bool
changes_schedule [] = false
changes_schedule ((id, change) ∷ changes) = not (is_reject change) || changes_schedule changes

-- The end of `reschedule`: the streams are changed, and the new schedule is put into use if a
-- change is no rejection.
unfoldable pub put_into_use :
    StreamSnapshot → Schedule → Schedule → StreamCollection → Bool × Schedule × StreamCollection
put_into_use snap new cur s =
    let changes = get_stream_changes snap new.schedule in
    (
      changes_schedule changes,
      (if changes_schedule changes then new else cur),
      apply_changes changes s,
    )

-- The variables of the loop of `run`.
pub record Loop : Type 0 where
  pub current : Schedule
  pub streams : StreamCollection
  pub rekeying_ctr : ℕ
  pub schedule_not_applied : Bool

abbrev pub next_ctr : Bool → ℕ → ℕ
next_ctr forced ctr = if forced then 0 else suc ctr

-- The end of a round; `ctr` is the counter before the test for the end of the period.
abbrev pub next_loop : ℕ → Bool → ℕ → Loop → Bool × Schedule × StreamCollection → Loop
next_loop rekeying_period resend ctr l (changed, cur, s) =
    let expired = leb rekeying_period ctr in
    record {
      current = cur;
      streams = s;
      rekeying_ctr = if expired then 0 else ctr;
      schedule_not_applied =
          changed || ((resend || expired) && not changed) || l.schedule_not_applied;
    }

-- The scheduler's view of the network: the configuration and the graph, which is the one that the
-- configuration's tests of edges read.
module _ (c : Config) (g : Snapshot) (max_hops : ℕ) where
  -- `routeAndScheduleStreams`. An empty list of streams leaves everything as it is.
  unfoldable pub route_and_schedule :
      List MasterStreamInfo → List ScheduleElement → ℕ → Links → Option Allocation
  route_and_schedule [] current sched_size links =
      some (record { scheduled = []; new_size = sched_size; links = links })
  route_and_schedule (s ∷ ss) current sched_size links = elim (run g max_hops (s ∷ ss)) [
    | none ↦ none
    | some routed ↦ some (schedule_streams c routed current sched_size links)
  ]

  unfoldable pub schedule_established : StreamSnapshot → ℕ → Option Schedule
  schedule_established snap id =
      elim (route_and_schedule (get_streams_with_status established snap.collection) []
        c.superframe.size []) [
          | none ↦ none
          | some a ↦
              some (record { schedule = a.scheduled; id = id; tiles = a.new_size; links = a.links })
        ]

  unfoldable pub schedule_accepted : StreamSnapshot → Schedule → Option Schedule
  schedule_accepted snap cur =
      elim (route_and_schedule (sort_by_period (get_streams_with_status accepted snap.collection))
        cur.schedule cur.tiles cur.links) [
          | none ↦ none
          | some a ↦ some (record {
            schedule = cur.schedule ++ a.scheduled;
            id = cur.id;
            tiles = a.new_size;
            links = a.links;
          })
        ]

  -- The new schedule, on the basis of which the streams are changed.
  unfoldable pub new_schedule : Bool → StreamSnapshot → Schedule → Option Schedule
  new_schedule graph_changed snap cur =
      elim (if graph_changed || snap.removed
        then schedule_established snap (suc cur.id)
        else some (record cur { id = suc cur.id })) [
          | none ↦ none
          | some s ↦ if snap.added then schedule_accepted snap s else some s
        ]

  -- `reschedule`, from the schedule in use and the collection; `graph_changed` is what the topology
  -- answers when the graphs are copied, and `meanwhile` what other threads, such as the one that
  -- calls `receiveSMEs`, make of the collection between the snapshot and `applyChanges`. The result
  -- says whether the schedule has changed.
  unfoldable pub reschedule :
      Bool
      → (StreamCollection → StreamCollection)
      → Schedule
      → StreamCollection
      → Option (Bool × Schedule × StreamCollection)
  reschedule graph_changed meanwhile cur s =
      let (snap, cleared) = get_snapshot s in
      let s' = meanwhile cleared in
      elim (new_schedule graph_changed snap cur) [
        | none ↦ none
        | some new ↦ some (
            if graph_changed || snap.removed || snap.added
            then put_into_use snap new cur s'
            else (false, cur, s'))
      ]

  abbrev pub resched :
      Bool
      → Bool
      → (StreamCollection → StreamCollection)
      → Schedule
      → StreamCollection
      → Option (Bool × Schedule × StreamCollection)
  resched false graph_changed meanwhile cur s = some (false, cur, s)
  resched true graph_changed meanwhile cur s = reschedule graph_changed meanwhile cur s

  -- One round of the loop of `run`, after the wait, in the build with CRYPTO. `modified` is
  -- `wasModified` of the topology; other threads work on the collection after `getOperation`
  -- (`arriving`) and after the snapshot.
  unfoldable pub round :
      ℕ
      → Bool
      → Bool
      → (StreamCollection → StreamCollection)
      → (StreamCollection → StreamCollection)
      → Loop
      → Option Loop
  round rekeying_period modified graph_changed arriving meanwhile l =
      let ((op_reschedule, op_resend), s) = get_operation l.streams in
      let force = modified || op_reschedule in
      let ctr = next_ctr (op_resend || force) l.rekeying_ctr in
      elim (resched force graph_changed meanwhile l.current (arriving s)) [
        | none ↦ none
        | some r ↦ some (next_loop rekeying_period op_resend ctr l r)
      ]
