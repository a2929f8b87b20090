-- ===== src/Manager/Awaited/Connected.antt =====
-- A stream that waits to be opened, while a schedule is set, and the call of connect that waits.
use tdmh.Base.{
  ℕ, ◌≡◌, refl, ap, subst, ◌∙◌, inl, lookup, nat_keyed, lookup-insert, lookup_same, List, [], ◌∷◌,
  map, All, none, some, Bool, true, false, ◌&&◌, ◌||◌, ◌==◌, if◌then◌else◌, if_false, arith,
}
use tdmh.Stream.Params.{StreamId, get_key, id_keyed, get_server_id}
use tdmh.Scheduler.Element.{ScheduleElement}
use tdmh.Wire.Schedule.{ScheduleHeader}
use tdmh.Endpoint.{connecting, StreamInfo, Stream, status_of, returns}
use tdmh.Endpoint.Machine.{close}
use tdmh.Endpoint.Server.{close_server}
use tdmh.Manager.{ManagerConfig, a_stream, StreamManager, add_stream, add_server}
use tdmh.Manager.Calls.{status_at, connect_end}
use tdmh.Manager.Schedule.{
  is_mine, without, is_listening, offer_stream, refuse_stream, new_in_schedule, set_element,
  set_elements, set_schedule, apply_schedule,
}
use tdmh.Manager.Tables.{
  Tables, tag_of, on_stream-tables, on_server-tables, if_cases, option_cases, IfSome,
}
use tdmh.Manager.Kept.{close-Keeps, close_server-Keeps, add_pending_stream-Keeps}
use tdmh.Manager.Consistent.{IsConsistent, add_stream-IsConsistent, add_server-IsConsistent}
use tdmh.Manager.Removal.{All-without}
use tdmh.Manager.Removal.Returns.{set_schedule-apply_schedule}
use tdmh.Manager.Awaited.{Awaits, with_removed-Awaits, on_stream-Awaits, on_server-Awaits}
use tdmh.Manager.Awaited.Opened.{is_element, is_scheduled, apply_schedule-Awaits}

without-others :
    (id : StreamId) (i : StreamId) (ids : List StreamId)
    → (get_key i == get_key id) ≡ true
    → All (λ j. (get_key j == get_key id) ≡ false) (without i ids)
unfolding without
without-others id i [] same = tt
without-others id i (j ∷ ids) same = ground (arith, without-others id i ids same)

module _ (c : ManagerConfig) (id : StreamId) (p : ℕ) where
  -- Once the stream is found in the schedule, it is not to be removed.
  record IsSafe (found : Bool) (m : StreamManager) : Type 0 where
    awaits : Awaits id p false m
    kept : found ≡ true → All (λ j. (get_key j == get_key id) ≡ false) m.streams_to_remove

  below : (m : StreamManager) → Awaits id p false m → (m.fd_counter == p) ≡ false
  below m h = ground (arith, h.consistent.unused p, ap tag_of h.object)

  add_stream-Awaits :
      (info : StreamInfo) (m : StreamManager)
      → lookup info.id m.streams ≡ none
      → Awaits id p false m
      → Awaits id p false (add_stream c info m)
  unfolding add_stream
  add_stream-Awaits info m new h = record {
    consistent = add_stream-IsConsistent c info m new h.consistent;
    entry = ground (
      arith,
      lookup-insert info.id id m.fd_counter m.streams,
      lookup_same info.id id m.streams,
      h.entry,
      new,
    );
    stream = h.stream;
    object =
        lookup-insert m.fd_counter p _ m.objects
        ∙ if_false (m.fd_counter == p) _ (lookup p m.objects) (below m h)
        ∙ h.object;
    status = h.status;
  }

  add_server-Awaits :
      (info : StreamInfo) (m : StreamManager)
      → Awaits id p false m
      → Awaits id p false (add_server info m)
  unfolding add_server
  add_server-Awaits info m h = record {
    consistent = add_server-IsConsistent info m h.consistent;
    entry = h.entry;
    stream = h.stream;
    object =
        lookup-insert m.fd_counter p _ m.objects
        ∙ if_false (m.fd_counter == p) _ (lookup p m.objects) (below m h)
        ∙ h.object;
    status = h.status;
  }

  module _ (e : ScheduleElement) (m : StreamManager) (new : lookup e.id m.streams ≡ none) where
    offer_stream-Awaits :
        (server : ℕ) → Awaits id p false m → Awaits id p false (offer_stream c e server m)
    offer_stream-Awaits server h =
        on_server-Awaits id p false _ server _ (add_pending_stream-Keeps m.fd_counter)
          (add_stream-Awaits _ m new h)

    refuse_stream-Awaits : Awaits id p false m → Awaits id p false (refuse_stream c e m)
    refuse_stream-Awaits h = on_server-Awaits id p false close_server _ _ close_server-Keeps (
        add_server-Awaits _ _ (
          on_stream-Awaits id p false close m.fd_counter _ close-Keeps (below m h)
            (add_stream-Awaits _ m new h)))

    offer_stream-removed :
        (server : ℕ) → (offer_stream c e server m).streams_to_remove ≡ m.streams_to_remove
    unfolding add_stream
    offer_stream-removed server =
        ap (λ (t : Tables). t.streams_to_remove)
          (on_server-tables _ server _ (add_pending_stream-Keeps m.fd_counter))

    refuse_stream-removed : (refuse_stream c e m).streams_to_remove ≡ m.streams_to_remove
    unfolding add_stream add_server
    refuse_stream-removed =
        ap (λ (t : Tables). t.streams_to_remove)
          (on_server-tables close_server _ _ close_server-Keeps)
        ∙ ap (λ (t : Tables). t.streams_to_remove)
            (on_stream-tables close m.fd_counter _ close-Keeps)

    new_in_schedule-IsSafe : (b : Bool) → IsSafe b m → IsSafe b (new_in_schedule c e m)
    new_in_schedule-IsSafe b h =
        option_cases (IsSafe b) (lookup (get_server_id e.id).dst_port m.servers)
          (refuse_stream c e m) _ (λ _. refused)
          (λ server _.
            if_cases (IsSafe b) (is_listening (status_at (lookup server m.objects)))
              (offer_stream c e server m) (refuse_stream c e m)
              (record {
                awaits = offer_stream-Awaits server h.awaits;
                kept = λ found. rw (offer_stream-removed server) (h.kept found);
              })
              refused)
      where
        refused : IsSafe b (refuse_stream c e m)
        refused = record {
          awaits = refuse_stream-Awaits h.awaits;
          kept = λ found. rw refuse_stream-removed (h.kept found);
        }

  set_element-IsSafe :
      (b : Bool) (e : ScheduleElement) (m : StreamManager)
      → IsSafe b m
      → IsSafe (is_element c id e || b) (set_element c e m)
  set_element-IsSafe b e m h = split (is_mine c e.id) (get_key e.id == get_key id) refl
    where
      split :
          (mine same : Bool)
          → (get_key e.id == get_key id) ≡ same
          → IsSafe (mine && same || b) (
              if mine
              then elim (lookup e.id m.streams) [
                | some q ↦ record m { streams_to_remove = without e.id m.streams_to_remove }
                | none ↦ new_in_schedule c e m
              ]
              else m)
      split false same s = h
      split true true s =
          rw (lookup_same e.id id m.streams (ground arith), h.awaits.entry)
            (record {
              awaits = with_removed-Awaits id p false _ m h.awaits;
              kept = λ _. without-others id e.id m.streams_to_remove s;
            })
      split true false s =
          option_cases (IsSafe b) (lookup e.id m.streams) (new_in_schedule c e m) _
            (λ new. new_in_schedule-IsSafe e m new b h)
            (λ q _. record {
              awaits = with_removed-Awaits id p false _ m h.awaits;
              kept = λ found. All-without _ e.id m.streams_to_remove (h.kept found);
            })

  set_elements-IsSafe :
      (b : Bool) (es : List ScheduleElement) (m : StreamManager)
      → IsSafe b m
      → IsSafe (is_scheduled c id es || b) (set_elements c es m)
  unfolding is_scheduled set_elements
  set_elements-IsSafe b [] m h = h
  set_elements-IsSafe b (e ∷ es) m h =
      subst (λ x. IsSafe x (set_elements c (e ∷ es) m)) (ground arith)
        (set_elements-IsSafe (is_element c id e || b) es _ (set_element-IsSafe b e m h))

  set_schedule-IsSafe :
      (es : List ScheduleElement) (h : ScheduleHeader) (m : StreamManager)
      → Awaits id p false m
      → is_scheduled c id es ≡ true
      → IsSafe true (set_schedule c es h m)
  unfolding set_schedule
  set_schedule-IsSafe es h m a found =
      let m₁ = record m { streams_to_remove = map (λ e. e.0) m.streams } in
      let safe : IsSafe (is_scheduled c id es || false) (set_elements c es m₁) =
        set_elements-IsSafe false es m₁ (record {
          awaits = with_removed-Awaits id p false _ m a;
          kept = λ impossible. ground arith;
        }) in
      record {
        awaits = record {
          consistent = safe.awaits.consistent;
          entry = safe.awaits.entry;
          stream = safe.awaits.stream;
          object = safe.awaits.object;
          status = safe.awaits.status;
        };
        kept = λ _. safe.kept (ground arith);
      }

  established-connect_end :
      (m : StreamManager) → Awaits id p true m → connect_end p m ≡ (m, returns p)
  unfolding connect_end
  established-connect_end m h = rw (h.object, h.status) refl

-- A stream that is connecting, and that a schedule has, is open when the schedule is applied: the
-- call of connect that waits for it returns its file descriptor.
pub set_schedule-connect_end :
    (c : ManagerConfig) (es : List ScheduleElement) (h : ScheduleHeader) (m : StreamManager)
    (id : StreamId) (p : ℕ) (s : Stream)
    → IsConsistent m
    → lookup id m.streams ≡ some p
    → lookup p m.objects ≡ some (a_stream s)
    → status_of s ≡ connecting
    → is_scheduled c id es ≡ true
    → (m' : StreamManager) × (apply_schedule c es (set_schedule c es h m) ≡ some m')
      × (connect_end p m' ≡ (m', returns p))
set_schedule-connect_end c es h m id p s w entry object status found =
    let awaits : Awaits id p false m = record {
      consistent = w;
      entry = entry;
      stream = s;
      object = object;
      status = inl status;
    } in
    let safe = set_schedule-IsSafe c id p es h m awaits found in
    let (m', applied, _) = set_schedule-apply_schedule c es es h m w in
    let opened =
      subst (IfSome (Awaits id p (is_scheduled c id es || false))) applied
        (apply_schedule-Awaits c id p es (set_schedule c es h m) (safe.kept refl) safe.awaits) in
    (
      m',
      applied,
      established-connect_end c id p m'
          (subst (λ b. Awaits id p b m') (ground (arith, found)) opened),
    )
