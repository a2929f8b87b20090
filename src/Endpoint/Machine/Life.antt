-- ===== src/Endpoint/Machine/Life.antt =====
-- The diagram of the states of a Stream, and the ways that it goes through it.
use tdmh.Base.{◌≡◌, refl, ap, subst, ◌⊎◌, inl, inr, List, [], ◌∷◌, Bool, true, false, arith}
use tdmh.Stream.Params.{StreamParameters}
use tdmh.Endpoint.{
  StreamStatus, connecting, connect_failed, accept_wait, established, remotely_closed, reopened,
  close_wait, Output, wait_for_opening, ask_again, Stream, status_of,
}
use tdmh.Endpoint.Machine.{
  added_stream, accepted_stream, removed_stream, rejected_stream, closed_server, close,
  periodic_update, desync,
}

-- What happens to a stream: the calls of the manager.
pub data StreamEvent : Type 0 where
  in_schedule : StreamParameters → StreamEvent
  not_in_schedule accepts rejects server_closes closes time_passes loses_sync : StreamEvent

unfoldable pub stream_event : StreamEvent → Stream → Stream × List Output × Bool
stream_event (in_schedule p) s = (added_stream p s, [], false)
stream_event not_in_schedule s = removed_stream s
stream_event accepts s = (accepted_stream s, [], false)
stream_event rejects s = (rejected_stream s, [], false)
stream_event server_closes s = let (s', outputs) = closed_server s in (s', outputs, false)
stream_event closes s = close s
stream_event time_passes s = let (s', outputs) = periodic_update s in (s', outputs, false)
stream_event loses_sync s = desync s

infix 40 ◌⟶◌ ◌⟶*◌
pub data ◌⟶◌ : StreamStatus → StreamStatus → Type 0 where
  opens : connecting ⟶ established
  give_up : connecting ⟶ connect_failed
  take : accept_wait ⟶ established
  refuse : accept_wait ⟶ close_wait
  lose : established ⟶ remotely_closed
  leave : established ⟶ close_wait
  return : remotely_closed ⟶ reopened
  lose_again : reopened ⟶ remotely_closed
  leave_again : reopened ⟶ close_wait

ruleset edges = (opens, give_up, take, refuse, lose, leave, return, lose_again, leave_again)

pub data ◌⟶*◌ : StreamStatus → StreamStatus → Type 0 where
  here : {s : StreamStatus} → s ⟶* s
  then : {s t u : StreamStatus} → s ⟶ t → t ⟶* u → s ⟶* u

stream_event-⟶ :
    (e : StreamEvent) (s : Stream)
    → (status_of (stream_event e s).0 ≡ status_of s)
      ⊎ (status_of s ⟶ status_of (stream_event e s).0)
unfolding stream_event added_stream accepted_stream removed_stream rejected_stream closed_server
    close periodic_update desync wait_for_opening ask_again
stream_event-⟶ e s = grind (arith, edges)

unfoldable pub run_events : List StreamEvent → Stream → Stream
run_events [] s = s
run_events (e ∷ es) s = run_events es (stream_event e s).0

path : {s t u : StreamStatus} → (t ≡ s) ⊎ (s ⟶ t) → t ⟶* u → s ⟶* u
path {u} (inl e) p = subst (λ s. s ⟶* u) e p
path (inr e) p = then e p

-- The states from which a stream can still carry data.
abbrev pub may_carry : StreamStatus → Bool
may_carry connecting = true
may_carry accept_wait = true
may_carry established = true
may_carry _ = false

back : {s t : StreamStatus} → s ⟶ t → may_carry t ≡ true → may_carry s ≡ true
back opens h = refl
back give_up h = refl
back take h = refl
back refuse h = refl
back lose h = refl
back leave h = refl
back return h = h
back lose_again h = h
back leave_again h = h

⟶*-may_carry : {s t : StreamStatus} → s ⟶* t → may_carry t ≡ true → may_carry s ≡ true
⟶*-may_carry here h = h
⟶*-may_carry (then e p) h = back e (⟶*-may_carry p h)

run_events-path : (es : List StreamEvent) (s : Stream) → status_of s ⟶* status_of (run_events es s)
unfolding run_events
run_events-path [] s = here
run_events-path (e ∷ es) s = path (stream_event-⟶ e s) (run_events-path es (stream_event e s).0)

-- Whatever happens to a stream, in whatever order, it goes along the arrows of the diagram; and so
-- a stream that failed to connect, or that was closed at one of its ends, is not established again.
pub run_events-⟶* :
    (es : List StreamEvent) (s : Stream)
    → (status_of s ⟶* status_of (run_events es s))
      × (status_of (run_events es s) ≡ established → may_carry (status_of s) ≡ true)
run_events-⟶* es s =
    (run_events-path es s, λ e. ⟶*-may_carry (run_events-path es s) (ap may_carry e))

-- A stream is given up only while it is not taken by the application, or is closed at both ends;
-- and that changes nothing of its state.
pub stream_event-deletable :
    (e : StreamEvent) (s : Stream)
    → (stream_event e s).2 ≡ true
    → ((status_of s ≡ accept_wait) ⊎ (status_of s ≡ close_wait) ⊎ (status_of s ≡ remotely_closed))
      × ((stream_event e s).0.endpoint ≡ s.endpoint)
unfolding stream_event removed_stream close desync
stream_event-deletable e s h = ground arith
