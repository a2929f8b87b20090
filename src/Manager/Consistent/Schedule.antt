-- ===== src/Manager/Consistent/Schedule.antt =====
-- The calls of the MAC keep the tables consistent.
use tdmh.Base.{ℕ, ◌≡◌, refl, ◌∙◌, Map, lookup, nat_keyed, List, [], ◌∷◌, Option, none, some, false}
use tdmh.Stream.Params.{StreamId, id_keyed, get_server_id}
use tdmh.Scheduler.Element.{ScheduleElement}
use tdmh.Packet.{Packet}
use tdmh.Endpoint.{Output, Stream}
use tdmh.Endpoint.Machine.{close, periodic_update, desync}
use tdmh.Endpoint.Server.{close_server, update_server}
use tdmh.Endpoint.Socket.{◌>>=◌, receive_packet, miss_packet, send_packet, reset_sequence_number}
use tdmh.Manager.{Object, a_stream, a_server, ManagerConfig, StreamManager, emit, put_object}
use tdmh.Manager.Calls.{status_at}
use tdmh.Manager.Phases.{
  without_flag, for_each, desync_each, remove_streams, desync_streams, wake_stream,
  update_stream_at, update_server_at, update_endpoints, on_data, receive_for, miss_for, send_for,
  reset_number_at, reset_sequence_numbers,
}
use tdmh.Manager.Schedule.{
  is_mine, offer_stream, refuse_stream, is_listening, new_in_schedule, set_element, apply_element,
}
use tdmh.Manager.Invariant.{set_to_remove-WellFormed}
use tdmh.Manager.Tables.{tables, put_object-tables, emit-tables}
use tdmh.Manager.Kept.{
  added_stream-Keeps, close-Keeps, periodic_update-Keeps, desync-Keeps, close_server-Keeps,
  update_server-Keeps, add_pending_stream-Keeps, receive_packet-endpoint, miss_packet-endpoint,
  send_packet-endpoint,
}
use tdmh.Manager.Consistent.{
  IsConsistent, same-IsConsistent, on_stream-IsConsistent, on_server-IsConsistent,
  add_stream-IsConsistent, add_server-IsConsistent, remove_stream-IsConsistent, state_of,
  if-IsConsistent, option-IsConsistent,
}

pub for_each-IsConsistent :
    {K : Type 0} (f : ℕ → StreamManager → StreamManager)
    → ((p : ℕ) (m : StreamManager) → IsConsistent m → IsConsistent (f p m))
    → (ps : Map K ℕ) (m : StreamManager) → IsConsistent m
    → IsConsistent (for_each f ps m)
unfolding for_each
for_each-IsConsistent f h [] m w = w
for_each-IsConsistent f h ((k, p) ∷ ps) m w = for_each-IsConsistent f h ps (f p m) (h p m w)

pub update_endpoints-IsConsistent :
    (m : StreamManager) → IsConsistent m → IsConsistent (update_endpoints m)
unfolding update_endpoints
update_endpoints-IsConsistent m w =
    let m' = for_each update_stream_at m.streams m in
    for_each-IsConsistent update_server_at
      (λ p m. on_server-IsConsistent (without_flag update_server) p m update_server-Keeps)
      m'.servers m'
      (for_each-IsConsistent update_stream_at
        (λ p m. on_stream-IsConsistent (without_flag periodic_update) p m periodic_update-Keeps)
        m.streams m w)

pub reset_sequence_numbers-IsConsistent :
    (m : StreamManager) → IsConsistent m → IsConsistent (reset_sequence_numbers m)
unfolding reset_sequence_numbers reset_sequence_number
reset_sequence_numbers-IsConsistent m w =
    for_each-IsConsistent reset_number_at (λ p m. on_stream-IsConsistent _ p m (λ s. refl))
      m.streams m w

desync_each-IsConsistent :
    (ps : Map StreamId ℕ) (m : StreamManager) → IsConsistent m → IsConsistent (desync_each ps m).0
unfolding desync_each
desync_each-IsConsistent [] m w = w
desync_each-IsConsistent ((k, p) ∷ ps) m w =
    desync_each-IsConsistent ps _ (on_stream-IsConsistent desync p m desync-Keeps w)

remove_streams-IsConsistent :
    (ids : List StreamId) (m : StreamManager) → IsConsistent m → IsConsistent (remove_streams ids m)
unfolding remove_streams
remove_streams-IsConsistent [] m w = w
remove_streams-IsConsistent (id ∷ ids) m w =
    remove_streams-IsConsistent ids _ (remove_stream-IsConsistent id m w)

pub desync_streams-IsConsistent :
    (m : StreamManager) → IsConsistent m → IsConsistent (desync_streams m)
unfolding desync_streams
desync_streams-IsConsistent m w =
    remove_streams-IsConsistent (desync_each m.streams m).1 _
      (desync_each-IsConsistent m.streams m w)

pub wake_stream-IsConsistent :
    (id : StreamId) (m : StreamManager) → IsConsistent m → IsConsistent (wake_stream id m).0
unfolding wake_stream
wake_stream-IsConsistent id m w =
    option-IsConsistent state_of (lookup id m.streams) _ _ (λ e. w)
      (λ p e. on_stream-IsConsistent _ p m (λ s. refl) w)

-- What is so of the state that a call leaves, unless an exception leaves the call.
abbrev pub IfReturned : {R : Type 0} → Option (StreamManager × R) → Type 0
IfReturned none = Unit
IfReturned (some (m, r)) = IsConsistent m

on_data-IsConsistent :
    {R : Type 0} (f : Stream → Option (Stream × List Output × R)) (p : ℕ) (o : Option Object)
    (m : StreamManager)
    → ((s s' : Stream) (os : List Output) (r : R)
        → f s ≡ some (s', os, r)
        → s'.endpoint ≡ s.endpoint)
    → lookup p m.objects ≡ o
    → IsConsistent m
    → IfReturned (on_data f p o m)
on_data-IsConsistent f p none m keeps there w = tt
on_data-IsConsistent f p (some (a_server s)) m keeps there w = tt
on_data-IsConsistent {R = R} f p (some (a_stream s)) m keeps there w = split (f s) refl
  where
    split :
        (x : Option (Stream × List Output × R))
        → f s ≡ x
        → IfReturned
            (do (s', outputs, r) ← x; some (emit outputs (put_object p (a_stream s') m), r))
    split none e = tt
    split (some (s', outputs, r)) e =
        same-IsConsistent m (emit outputs (put_object p (a_stream s') m))
          (emit-tables outputs (put_object p (a_stream s') m)
            ∙ put_object-tables p (a_stream s') m (rw (keeps s s' outputs r e, there) refl))
          w

module _ (id : StreamId) (m : StreamManager) (w : IsConsistent m) where
  data_call-IsConsistent :
      {R : Type 0} (f : Stream → Option (Stream × List Output × R)) (r : R)
      → ((s s' : Stream) (os : List Output) (r : R)
          → f s ≡ some (s', os, r)
          → s'.endpoint ≡ s.endpoint)
      → IfReturned (elim (lookup id m.streams) [
        | none ↦ some (m, r)
        | some p ↦ on_data f p (lookup p m.objects) m
      ])
  data_call-IsConsistent {R = R} f r keeps = split (lookup id m.streams)
    where
      split :
          (x : Option ℕ)
          → IfReturned (elim x [ none ↦ some (m, r) | some p ↦ on_data f p (lookup p m.objects) m ])
      split none = w
      split (some p) = on_data-IsConsistent f p (lookup p m.objects) m keeps refl w

  pub receive_for-IsConsistent : (packet : Packet) → IfReturned (receive_for packet id m)
  unfolding receive_for
  receive_for-IsConsistent packet =
      data_call-IsConsistent (receive_packet packet) false (receive_packet-endpoint packet)

  pub miss_for-IsConsistent : IfReturned (miss_for id m)
  unfolding miss_for
  miss_for-IsConsistent = data_call-IsConsistent miss_packet false miss_packet-endpoint

  pub send_for-IsConsistent : (bytes : List ℕ) → IfReturned (send_for bytes id m)
  unfolding send_for
  send_for-IsConsistent bytes =
      data_call-IsConsistent (send_packet bytes) none (send_packet-endpoint bytes)

-- A stream that is not there yet, of a schedule.
module _ (c : ManagerConfig) (e : ScheduleElement) (m : StreamManager) (w : IsConsistent m) where
  offer_stream-IsConsistent :
      (server : ℕ) → lookup e.id m.streams ≡ none → IsConsistent (offer_stream c e server m)
  offer_stream-IsConsistent server new =
      on_server-IsConsistent _ server _ (add_pending_stream-Keeps m.fd_counter)
        (add_stream-IsConsistent c _ m new w)

  refuse_stream-IsConsistent : lookup e.id m.streams ≡ none → IsConsistent (refuse_stream c e m)
  refuse_stream-IsConsistent new = on_server-IsConsistent close_server _ _ close_server-Keeps (
      add_server-IsConsistent _ _ (
        on_stream-IsConsistent close m.fd_counter _ close-Keeps
          (add_stream-IsConsistent c _ m new w)))

  new_in_schedule-IsConsistent : lookup e.id m.streams ≡ none → IsConsistent (new_in_schedule c e m)
  new_in_schedule-IsConsistent new =
      option-IsConsistent (λ x. x) (lookup (get_server_id e.id).dst_port m.servers)
        (refuse_stream c e m) _ (λ _. refuse_stream-IsConsistent new)
        (λ server _.
          if-IsConsistent (λ x. x) (is_listening (status_at (lookup server m.objects)))
            (offer_stream c e server m) (refuse_stream c e m) (offer_stream-IsConsistent server new)
            (refuse_stream-IsConsistent new))

  pub set_element-IsConsistent : IsConsistent (set_element c e m)
  set_element-IsConsistent =
      if-IsConsistent (λ x. x) (is_mine c e.id) _ m
        (option-IsConsistent (λ x. x) (lookup e.id m.streams) (new_in_schedule c e m) _
          new_in_schedule-IsConsistent (λ p _. set_to_remove-WellFormed (tables m) w _))
        w

  pub apply_element-IsConsistent : IsConsistent (apply_element c e m)
  apply_element-IsConsistent =
      if-IsConsistent (λ x. x) (is_mine c e.id) _ m
        (option-IsConsistent (λ x. x) (lookup e.id m.streams) m _ (λ _. w)
          (λ p _. on_stream-IsConsistent _ p m (added_stream-Keeps e.params) w))
        w
