-- ===== src/Manager/Calls.antt =====
-- stream_manager.cpp: the calls of the application. A call that blocks is in two parts, or it
-- returns `waits` and is made again. A call by a file descriptor finds the endpoint first.
use tdmh.Base.{
  ℕ, ◌*◌, ◌/◌, lookup, nat_keyed, ◌&&◌, List, [], ◌∷◌, set, Option, none, some, Bool, true, false,
  ◌==◌, leb, ltb, if◌then◌else◌,
}
use tdmh.Stream.Params.{StreamId, id_keyed, is_server, StreamParameters}
use tdmh.Endpoint.{
  StreamStatus, connecting, listen_wait, uninitialized, StreamInfo, Output, Stream, CallResult,
  waits, throws, returns, fails, connect_result, listen_result,
}
use tdmh.Endpoint.Machine.{connect_stream, accepted_stream, closed_server, close}
use tdmh.Endpoint.Server.{close_server, listen_server, accept}
use tdmh.Endpoint.Socket.{write_stream, read_stream}
use tdmh.Manager.{
  Object, a_stream, a_server, endpoint_of, ManagerConfig, StreamManager, put_object, on_stream,
  on_server, first_free, free_client_port, add_stream, add_server, remove_stream, remove_server,
}

-- A method that returns nothing.
abbrev pub quietly : (Stream → Stream) → Stream → Stream × List Output × Bool
quietly f s = (f s, [], false)

-- How a call of connect or listen begins: it returns, or it waits for what becomes of an object.
pub data Begun : Type 0 where
  over : CallResult → Begun
  blocked : ℕ → Begun

abbrev pub set_wakeup_advance : ℕ → Stream → Stream
set_wakeup_advance advance s = record s { buffers = record s.buffers { wakeup_advance = advance } }

-- The wakeup advance, in whole slots.
abbrev pub with_advance : ManagerConfig → ℕ → ℕ → StreamManager → StreamManager
with_advance c advance p m =
    if ltb 0 advance
    then (on_stream
        (quietly (set_wakeup_advance (advance / c.data_slot_duration * c.data_slot_duration))) p
        m).0
    else m

abbrev pub too_early : ManagerConfig → ℕ → Bool
too_early c advance = ltb 0 advance && leb (c.slots_in_tile * c.data_slot_duration) advance

abbrev pub connect_on :
    ManagerConfig → ℕ → StreamId → StreamParameters → StreamManager → StreamManager × Begun
connect_on c advance id parameters m = elim (lookup id m.streams) [
  | some other ↦ (free_client_port id.src_port m, over (fails 1))
  | none ↦
      let p = m.fd_counter in
      let m' = add_stream c (record { id = id; parameters = parameters; status = connecting }) m in
      if too_early c advance then (m', over (fails 2)) else (
        (on_stream (λ s. (s, connect_stream s, false)) p (with_advance c advance p m')).0,
        blocked p,
      )
]

unfoldable pub connect_call :
    ManagerConfig → ℕ → ℕ → StreamParameters → ℕ → StreamManager → StreamManager × Begun
unfolding first_free free_client_port
connect_call c dst dst_port parameters advance m =
    if m.master_trusted
    then elim (first_free m.client_ports 0) [
      | none ↦ (m, over (fails 1))
      | some port ↦
          connect_on c advance
            (record { src = c.my_id; dst = dst; src_port = port; dst_port = dst_port }) parameters
            (record m { client_ports = set m.client_ports port true })
    ]
    else (m, over (fails 10))

abbrev pub status_at : Option Object → StreamStatus
status_at none = uninitialized
status_at (some o) = (endpoint_of o).info.status

abbrev pub id_at : Option Object → StreamId
id_at none = record { src = 0; dst = 0; src_port = 0; dst_port = 0 }
id_at (some o) = (endpoint_of o).info.id

-- The rest of connect: the file descriptor, or the stream is removed.
abbrev pub connect_outcome : ℕ → StreamManager → CallResult → StreamManager × CallResult
connect_outcome p m waits = (m, waits)
connect_outcome p m throws = (m, throws)
connect_outcome p m (returns n) = (m, returns p)
connect_outcome p m (fails n) = (remove_stream (id_at (lookup p m.objects)) m, fails 1)

unfoldable pub connect_end : ℕ → StreamManager → StreamManager × CallResult
connect_end p m = connect_outcome p m (connect_result (status_at (lookup p m.objects)))

unfoldable pub listen_call :
    ManagerConfig → ℕ → StreamParameters → StreamManager → StreamManager × Begun
listen_call c port parameters m =
    if m.master_trusted
    then elim (lookup port m.servers) [
      | some other ↦ (m, over (fails 1))
      | none ↦
          let id : StreamId = record {
            src = c.my_id;
            dst = c.my_id;
            src_port = 0;
            dst_port = port;
          } in
          let p = m.fd_counter in
          (
            (on_server (λ s. (s, listen_server s, false)) p
                (add_server (record { id = id; parameters = parameters; status = listen_wait })
                  m)).0,
            blocked p,
          )
    ]
    else (m, over (fails 10))

abbrev pub listen_outcome : ℕ → StreamManager → CallResult → StreamManager × CallResult
listen_outcome p m waits = (m, waits)
listen_outcome p m throws = (m, throws)
listen_outcome p m (returns n) = (m, returns p)
listen_outcome p m (fails n) = (remove_server (id_at (lookup p m.objects)).dst_port m, fails 1)

unfoldable pub listen_end : ℕ → StreamManager → StreamManager × CallResult
listen_end p m = listen_outcome p m (listen_result (status_at (lookup p m.objects)))

-- What a server hands over is looked up once more, since it may have been closed.
abbrev pub take_stream : StreamManager → CallResult → StreamManager × CallResult
take_stream m (returns fd) = elim (lookup fd m.fdt) [
  | none ↦ (m, fails 1)
  | some p ↦ ((on_stream (quietly accepted_stream) p m).0, returns fd)
]
take_stream m waits = (m, waits)
take_stream m throws = (m, throws)
take_stream m (fails n) = (m, fails 1)

abbrev pub accept_object : ℕ → Option Object → StreamManager → StreamManager × CallResult
accept_object p none m = (m, fails 1)
accept_object p (some (a_stream s)) m = (m, fails 1)
accept_object p (some (a_server s)) m =
    let (s', result) = accept s in take_stream (put_object p (a_server s') m) result

unfoldable pub accept_call : ℕ → StreamManager → StreamManager × CallResult
accept_call fd m =
    if m.master_trusted
    then elim (lookup fd m.fdt) [
      | none ↦ (m, fails 1)
      | some p ↦ accept_object p (lookup p m.objects) m
    ]
    else (m, fails 10)

abbrev pub write_object : List ℕ → ℕ → Option Object → StreamManager → StreamManager × CallResult
write_object bytes p (some (a_stream s)) m =
    let (s', result) = write_stream bytes s in (put_object p (a_stream s') m, result)
write_object bytes p _ m = (m, fails 1)

unfoldable pub write_call : ℕ → List ℕ → StreamManager → StreamManager × CallResult
write_call fd bytes m =
    if m.master_trusted
    then elim (lookup fd m.fdt) [
      | none ↦ (m, fails 1)
      | some p ↦ write_object bytes p (lookup p m.objects) m
    ]
    else (m, fails 10)

abbrev pub read_object : ℕ → ℕ → Option Object → StreamManager → StreamManager × CallResult × List ℕ
read_object max_size p (some (a_stream s)) m =
    let (s', result, bytes) = read_stream max_size s in
    (put_object p (a_stream s') m, result, bytes)
read_object max_size p _ m = (m, fails 1, [])

unfoldable pub read_call : ℕ → ℕ → StreamManager → StreamManager × CallResult × List ℕ
read_call fd max_size m =
    if m.master_trusted
    then elim (lookup fd m.fdt) [
      | none ↦ (m, fails 1, [])
      | some p ↦ read_object max_size p (lookup p m.objects) m
    ]
    else (m, fails 10, [])

-- wait, up to the place where it blocks; a server has no wakeup advance.
abbrev pub advance_of : Option Object → ℕ
advance_of (some (a_stream s)) = s.buffers.wakeup_advance
advance_of _ = 0

abbrev pub set_waiting : Stream → Stream
set_waiting s = record s { buffers = record s.buffers { waiting = true } }

unfoldable pub wait_call : ℕ → StreamManager → StreamManager × CallResult
wait_call fd m =
    if m.master_trusted
    then elim (lookup fd m.fdt) [
      | none ↦ (m, fails 1)
      | some p ↦
          if advance_of (lookup p m.objects) == 0
          then (m, fails 2)
          else ((on_stream (quietly set_waiting) p m).0, waits)
    ]
    else (m, fails 10)

unfoldable pub get_info : ℕ → StreamManager → Option StreamInfo
get_info fd m = elim (lookup fd m.fdt) [
  | none ↦ none
  | some p ↦ elim (lookup p m.objects) [ none ↦ none | some o ↦ some (endpoint_of o).info ]
]

abbrev pub with_send_callback : Stream → Stream
with_send_callback s = record s { buffers = record s.buffers { has_send_callback = true } }

abbrev pub with_recv_callback : Stream → Stream
with_recv_callback s = record s { buffers = record s.buffers { has_recv_callback = true } }

-- setSendCallback and setReceiveCallback.
unfoldable pub set_callback :
    ManagerConfig → (Stream → Stream) → ℕ → StreamManager → StreamManager × Bool
set_callback c f fd m =
    if c.callbacks_execution_time == 0 then (m, false) else elim (lookup fd m.fdt) [
      | none ↦ (m, false)
      | some p ↦ ((on_stream (quietly f) p m).0, true)
    ]

-- The pending streams of a server that is closed.
unfoldable pub close_pending : List ℕ → StreamManager → StreamManager
close_pending [] m = m
close_pending (p ∷ ps) m =
    close_pending ps
      (on_stream (λ s. let (s', outputs) = closed_server s in (s', outputs, false)) p m).0

abbrev pub remove_by_id : Bool → StreamId → StreamManager → StreamManager
remove_by_id deletable id m =
    if deletable
    then (if is_server id then remove_server id.dst_port m else remove_stream id m)
    else m

abbrev pub close_object : ℕ → Option Object → StreamManager → StreamManager
close_object p none m = m
close_object p (some (a_stream s)) m =
    let (m', deletable) = on_stream close p m in remove_by_id deletable s.endpoint.info.id m'
close_object p (some (a_server s)) m =
    let (m', deletable) = on_server close_server p m in
    remove_by_id deletable s.endpoint.info.id (close_pending s.pending_accept m')

unfoldable pub close_call : ℕ → StreamManager → StreamManager
unfolding close_pending
close_call fd m = elim (lookup fd m.fdt) [
  | none ↦ m
  | some p ↦ close_object p (lookup p m.objects) m
]
