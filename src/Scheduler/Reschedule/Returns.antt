-- ===== src/Scheduler/Reschedule/Returns.antt =====
-- The loop of ScheduleComputation::run: every round ends, and when a schedule is sent again.
use tdmh.Base.{
  ◌++◌, ℕ, suc, ◌≤◌, ◌<◌, ◌≡◌, refl, inl, inr, Links, List, [], ◌∷◌, Option, none, some, Bool, true,
  false, ◌||◌, if◌then◌else◌, arith, Bool-cases,
}
use tdmh.Topology.Snapshot.{Snapshot, IsNetwork}
use tdmh.Stream.Params.{MasterStreamInfo, accepted, established}
use tdmh.Stream.Collection.{StreamCollection}
use tdmh.Stream.Changes.{StreamSnapshot, get_snapshot, get_operation, get_streams_with_status}
use tdmh.Scheduler.Element.{ScheduleElement}
use tdmh.Scheduler.Slots.{Config}
use tdmh.Scheduler.Allocate.{schedule_streams}
use tdmh.Scheduler.Router.Run.Served.{run-AreRouted}
use tdmh.Scheduler.Reschedule.{
  Schedule, Loop, sort_by_period, route_and_schedule, schedule_established, schedule_accepted,
  new_schedule, put_into_use, reschedule, next_ctr, next_loop, resched, round,
}

abbrev Returns : {A : Type 0} → Option A → Type 0
Returns {A} o = (a : A) × (o ≡ some a)

map_Returns :
    {A B : Type 0} (f : A → B) (o : Option A)
    → Returns o
    → Returns (elim o [ none ↦ none | some a ↦ some (f a) ])
map_Returns f o (a, e) = (f a, rw e refl)

resched_idle :
    (c : Config) (g : Snapshot) (max_hops : ℕ) (force graph_changed : Bool)
    (meanwhile : StreamCollection → StreamCollection) (cur : Schedule) (s : StreamCollection)
    (r : Bool × Schedule × StreamCollection)
    → force ≡ false
    → resched c g max_hops force graph_changed meanwhile cur s ≡ some r
    → (r.0 ≡ false) × (r.1 ≡ cur)
resched_idle c g max_hops true graph_changed meanwhile cur s r f e = absurd (cc f)
resched_idle c g max_hops false graph_changed meanwhile cur s r f e = (cc e, cc e)

module _ (c : Config) (g : Snapshot) (net : IsNetwork g)
    (no_loops : (x : ℕ) → g.has_edge x x ≡ false) (max_hops : ℕ) where
  route_and_schedule-Returns :
      (streams : List MasterStreamInfo) (current : List ScheduleElement) (size : ℕ) (links : Links)
      → Returns (route_and_schedule c g max_hops streams current size links)
  unfolding route_and_schedule
  route_and_schedule-Returns [] current size links =
      (record { scheduled = []; new_size = size; links = links }, refl)
  route_and_schedule-Returns (s ∷ ss) current size links =
      let (routed, e, r) = run-AreRouted g net no_loops max_hops (s ∷ ss) in
      (schedule_streams c routed current size links, rw (e, route_and_schedule) refl)

  schedule_established-Returns :
      (snap : StreamSnapshot) (id : ℕ) → Returns (schedule_established c g max_hops snap id)
  unfolding schedule_established
  schedule_established-Returns snap id =
      map_Returns
        (λ a. record { schedule = a.scheduled; id = id; tiles = a.new_size; links = a.links }) _
        (route_and_schedule-Returns (get_streams_with_status established snap.collection) []
          c.superframe.size [])

  schedule_accepted-Returns :
      (snap : StreamSnapshot) (cur : Schedule) → Returns (schedule_accepted c g max_hops snap cur)
  unfolding schedule_accepted
  schedule_accepted-Returns snap cur =
      map_Returns
        (λ a. record {
          schedule = cur.schedule ++ a.scheduled;
          id = cur.id;
          tiles = a.new_size;
          links = a.links;
        })
        _
        (route_and_schedule-Returns
          (sort_by_period (get_streams_with_status accepted snap.collection)) cur.schedule cur.tiles
          cur.links)

  extend-Returns :
      (snap : StreamSnapshot) (s : Schedule)
      → Returns (if snap.added then schedule_accepted c g max_hops snap s else some s)
  extend-Returns snap s = if_Returns snap.added (schedule_accepted-Returns snap s)
    where
      if_Returns : (b : Bool) {o : Option Schedule} → Returns o → Returns (if b then o else some s)
      if_Returns true r = r
      if_Returns false r = (s, refl)

  new_schedule-Returns :
      (graph_changed : Bool) (snap : StreamSnapshot) (cur : Schedule)
      → Returns (new_schedule c g max_hops graph_changed snap cur)
  unfolding new_schedule
  new_schedule-Returns graph_changed snap cur = elim (Bool-cases (graph_changed || snap.removed)) [
    | inl e ↦
        let (s, f) = schedule_established-Returns snap (suc cur.id) in
        let (s', h) = extend-Returns snap s in (s', rw (e, new_schedule) (rw f h))
    | inr e ↦
        let (s', h) = extend-Returns snap (record cur { id = suc cur.id }) in
        (s', rw (e, new_schedule) h)
  ]

  reschedule-Returns :
      (graph_changed : Bool) (meanwhile : StreamCollection → StreamCollection) (cur : Schedule)
      (s : StreamCollection)
      → Returns (reschedule c g max_hops graph_changed meanwhile cur s)
  unfolding reschedule
  reschedule-Returns graph_changed meanwhile cur s =
      let (snap, cleared) = get_snapshot s in
      let s' = meanwhile cleared in
      map_Returns
        (λ new.
          if graph_changed || snap.removed || snap.added
          then put_into_use snap new cur s'
          else (false, cur, s'))
        _ (new_schedule-Returns graph_changed snap cur)

  resched-Returns :
      (force graph_changed : Bool) (meanwhile : StreamCollection → StreamCollection)
      (cur : Schedule) (s : StreamCollection)
      → Returns (resched c g max_hops force graph_changed meanwhile cur s)
  resched-Returns false graph_changed meanwhile cur s = ((false, cur, s), refl)
  resched-Returns true graph_changed meanwhile cur s =
      reschedule-Returns graph_changed meanwhile cur s

  -- What a round leaves: the counter is below the period, a request to send again and the end of
  -- the period mark the schedule, and without a reason nothing changes.
  pub record Round (period : ℕ) (modified : Bool) (l l' : Loop) : Type 0 where
    pub below : l'.rekeying_ctr < period
    pub resent : l.streams.resend_flag ≡ true → l'.schedule_not_applied ≡ true
    pub rekeyed :
        modified ≡ false
        → l.streams.modified_flag ≡ false
        → l.streams.resend_flag ≡ false
        → period ≤ suc l.rekeying_ctr
        → l'.schedule_not_applied ≡ true
    pub idle :
        modified ≡ false
        → l.streams.modified_flag ≡ false
        → l.streams.resend_flag ≡ false
        → suc l.rekeying_ctr < period
        → (l'.current ≡ l.current) × (l'.schedule_not_applied ≡ l.schedule_not_applied)

  -- In a network where no node is linked to itself, with a positive rekeying period, a round of the
  -- scheduler's loop ends. It keeps the rekeying counter below the period; the schedule is marked to
  -- be sent if a node asked for it, and, in a round in which nothing has changed, if the period is
  -- over; if it is not over, the schedule and its mark stay as they are.
  pub round-Round :
      (period : ℕ) (modified graph_changed : Bool)
      (arriving meanwhile : StreamCollection → StreamCollection) (l : Loop)
      → 0 < period
      → (l' : Loop) × (round c g max_hops period modified graph_changed arriving meanwhile l
          ≡ some l')
        × Round period modified l l'
  unfolding round get_operation
  round-Round period modified graph_changed arriving meanwhile l h =
      let s = arriving (record l.streams { resend_flag = false }) in
      let force = modified || l.streams.modified_flag in
      let resend = l.streams.resend_flag in
      let ctr = next_ctr (resend || force) l.rekeying_ctr in
      let (r, e) = resched-Returns force graph_changed meanwhile l.current s in
      (
        next_loop period resend ctr l r,
        rw (e, round) refl,
        record {
          below = ground arith;
          resent = λ q. ground arith;
          rekeyed = λ m f n late. ground arith;
          idle = λ m f n early.
              let calm : force ≡ false = ground arith in
              let same =
                resched_idle c g max_hops force graph_changed meanwhile l.current s r calm e in
              (same.1, ground (arith, same.0));
        },
      )
