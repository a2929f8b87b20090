-- ===== src/Endpoint/Machine.antt =====
-- stream.cpp: the states of a Stream, and the events that it goes through them by.
pub mod Timeouts
pub mod Life
use tdmh.Base.{ℕ, zero, suc, List, [], ◌∷◌, ◌++◌, Bool, true, false, if◌then◌else◌}
use tdmh.Stream.Params.{StreamParameters}
use tdmh.Stream.Collection.{connect, closed}
use tdmh.Endpoint.{
  StreamStatus, connecting, connect_failed, accept_wait, established, remotely_closed, reopened,
  close_wait, listen_wait, listen_failed, listen, uninitialized, Endpoint, set_status, Output,
  call_send, call_receive, sme, ask_again, wait_for_opening, Stream, status_of, update_redundancy,
}

-- wakeup() and wakeCallbacks(), with which each end of a stream's life is made known.
abbrev pub end_wait : Stream → Stream
end_wait s = record s { buffers = record s.buffers { waiting = false } }

abbrev pub wake_callbacks : Stream → List Output
wake_callbacks s =
    (if s.buffers.has_send_callback then call_send (status_of s) ∷ [] else [])
    ++ (if s.buffers.has_recv_callback then call_receive [] (status_of s) ∷ [] else [])

abbrev pub with_endpoint : Endpoint → Stream → Stream
with_endpoint e s = record s { endpoint = e }

-- A stream that is in the schedule.
abbrev pub when_added : StreamStatus → Endpoint → Endpoint
when_added connecting e = set_status established e
when_added remotely_closed e = set_status reopened e
when_added _ e = e

unfoldable pub added_stream : StreamParameters → Stream → Stream
unfolding update_redundancy
added_stream parameters s =
    let e = when_added (status_of s) s.endpoint in
    update_redundancy
      (with_endpoint (record e { info = record e.info { parameters = parameters } }) s)

abbrev pub accepted : StreamStatus → Endpoint → Endpoint
accepted accept_wait e = set_status established e
accepted _ e = e

unfoldable pub accepted_stream : Stream → Stream
accepted_stream s = with_endpoint (accepted (status_of s) s.endpoint) s

-- A stream that is no longer in the schedule; whether it can be deleted.
abbrev pub when_removed : StreamStatus → Endpoint → Endpoint × Bool
when_removed accept_wait e = (e, true)
when_removed established e = (set_status remotely_closed e, false)
when_removed reopened e = (set_status remotely_closed e, false)
when_removed close_wait e = (e, true)
when_removed _ e = (e, false)

unfoldable pub removed_stream : Stream → Stream × List Output × Bool
removed_stream s =
    let (e, deletable) = when_removed (status_of s) s.endpoint in
    let s' = with_endpoint e s in (end_wait s', wake_callbacks s', deletable)

abbrev pub rejected : StreamStatus → Endpoint → Endpoint
rejected connecting e = set_status connect_failed e
rejected _ e = e

unfoldable pub rejected_stream : Stream → Stream
rejected_stream s = with_endpoint (rejected (status_of s) s.endpoint) s

-- The server of a stream that was not accepted yet is closed.
abbrev pub with_server_closed : StreamStatus → Endpoint → Endpoint × List Output
with_server_closed accept_wait e = (set_status close_wait e, sme closed e ∷ [])
with_server_closed _ e = (e, [])

unfoldable pub closed_server : Stream → Stream × List Output
closed_server s =
    let (e, outputs) = with_server_closed (status_of s) s.endpoint in (with_endpoint e s, outputs)

-- The application closes the stream.
abbrev pub closing : StreamStatus → Endpoint → Endpoint × List Output × Bool
closing established e = (set_status close_wait e, sme closed e ∷ [], false)
closing remotely_closed e = (e, [], true)
closing reopened e = (set_status close_wait e, [], false)
closing close_wait e = (e, sme closed e ∷ [], false)
closing _ e = (e, [], false)

unfoldable pub close : Stream → Stream × List Output × Bool
close s =
    let (e, outputs, deletable) = closing (status_of s) s.endpoint in
    let s' = with_endpoint e s in (end_wait s', outputs ++ wake_callbacks s', deletable)

abbrev pub when_updated : StreamStatus → Endpoint → Endpoint × List Output
when_updated connecting e = wait_for_opening connect closed connect_failed e
when_updated reopened e = ask_again closed e
when_updated close_wait e = ask_again closed e
when_updated _ e = (e, [])

unfoldable pub periodic_update : Stream → Stream × List Output
periodic_update s =
    let (e, outputs) = when_updated (status_of s) s.endpoint in (with_endpoint e s, outputs)

abbrev pub desynced : StreamStatus → Endpoint → Endpoint × Bool
desynced connecting e = (set_status connect_failed e, false)
desynced accept_wait e = (e, true)
desynced established e = (set_status remotely_closed e, false)
desynced reopened e = (set_status remotely_closed e, false)
desynced close_wait e = (e, true)
desynced _ e = (e, false)

unfoldable pub desync : Stream → Stream × List Output × Bool
desync s =
    let (e, deletable) = desynced (status_of s) s.endpoint in
    let s' = with_endpoint e s in (end_wait s', wake_callbacks s', deletable)

-- connect, up to its wait.
unfoldable pub connect_stream : Stream → List Output
connect_stream s = sme connect s.endpoint ∷ []

-- `n` calls of periodicUpdate.
unfoldable pub update_times : ℕ → Stream → Stream × List Output
update_times zero s = (s, [])
update_times (suc n) s =
    let (s', earlier) = update_times n s in
    let (s'', now) = periodic_update s' in (s'', earlier ++ now)
