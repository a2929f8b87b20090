-- ===== src/Endpoint/Examples.antt =====
-- A stream from the node 1 to the master, in several states, and its ends as they carry data.
use tdmh.Base.{ℕ, ◌/◌, ◌<◌, ◌≡◌, refl, [], ◌∷◌, ◌++◌, some, true, false, arith}
use tdmh.Stream.Params.{StreamId, StreamParameters}
use tdmh.Stream.Collection.{connect, closed}
use tdmh.Packet.{Packet, pan_header, receive}
use tdmh.Packet.View.{content, zeros, new_packet}
use tdmh.Wire.Fields.{id_bytes}
use tdmh.Endpoint.{
  StreamStatus, connecting, established, close_wait, connect_failed, sme, new_endpoint, set_status,
  Stream, status_of, throws, returns, fails,
}
use tdmh.Endpoint.Machine.{update_times, with_endpoint}
use tdmh.Endpoint.Machine.Timeouts.{
  replicate, asked_before, update_times-gives_up, update_times-asks,
}
use tdmh.Endpoint.Machine.Life.{
  in_schedule, not_in_schedule, closes, time_passes, ◌⟶*◌, run_events, may_carry, run_events-⟶*,
}
use tdmh.Endpoint.Socket.{set_next, write_stream, read_stream}
use tdmh.Endpoint.Socket.Written.{headers, send_times, period_sent, write_stream-throws}
use tdmh.Endpoint.Socket.Heard.{hear}
use tdmh.Endpoint.Socket.Delivery.{
  CanWrite, CanRead, ReadsOf, sent_bytes, write_stream-read_stream, read_stream-fails,
}

abbrev id : StreamId
id = record { src = 1; dst = 0; src_port = 0; dst_port = 2 }

abbrev params : StreamParameters
params = record { redundancy = 1; period = 3; payload_size = 10; direction = 0 }

abbrev stream_with : StreamStatus → Stream
stream_with status = record {
  endpoint = new_endpoint 1 (record { id = id; parameters = params; status = status });
  buffers = record {
    pan_id = 7;
    auth_data = false;
    redundancy_count = 2;
    tx_count = 0;
    rx_count = 0;
    received = false;
    tx_packet_ready = false;
    received_shared = false;
    already_received_shared = true;
    next_tx_packet_ready = false;
    tx_packet = new_packet 0;
    rx_packet = new_packet 0;
    rx_packet_shared = new_packet 0;
    next_tx_packet = new_packet 0;
    waiting = false;
    wakeup_advance = 0;
    seq_no = 1;
    has_send_callback = false;
    has_recv_callback = false;
  };
}

update_times-gives_up_example :
    ((n : ℕ)
      → n < 1800
      → (status_of (update_times n (stream_with connecting)).0 ≡ connecting)
        × ((update_times n (stream_with connecting)).1
            ≡ replicate (n / 600) (sme connect (stream_with connecting).endpoint)))
    × (update_times 1800 (stream_with connecting) ≡ (
      with_endpoint
          (set_status connect_failed (stream_with connecting).endpoint)
          (stream_with connecting),
      sme connect (stream_with connecting).endpoint
          ∷ sme connect (stream_with connecting).endpoint
          ∷ sme closed (stream_with connecting).endpoint
          ∷ [],
    ))
update_times-gives_up_example =
    update_times-gives_up (stream_with connecting) refl
      (record { sme_timeout = refl; fail_timeout = refl })

update_times-asks_example : update_times 1300 (stream_with close_wait) ≡ (
  with_endpoint (asked_before 1300 (stream_with close_wait).endpoint) (stream_with close_wait),
  replicate 2 (sme closed (stream_with close_wait).endpoint),
)
update_times-asks_example = update_times-asks 1300 (stream_with close_wait) refl (omega arith)

-- The stream opens, is lost and found again, and is closed by the application.
run_events-⟶*_example :
    let last =
      run_events
        (in_schedule params ∷ not_in_schedule ∷ in_schedule params ∷ closes ∷ time_passes ∷ [])
        (stream_with connecting) in
    (connecting ⟶* status_of last) × (status_of last ≡ established → may_carry connecting ≡ true)
run_events-⟶*_example =
    run_events-⟶*
      (in_schedule params ∷ not_in_schedule ∷ in_schedule params ∷ closes ∷ time_passes ∷ [])
      (stream_with connecting)

write_stream-throws_example :
    (p : Packet) × (write_stream (zeros 118) (stream_with established)
      ≡ (set_next p false (stream_with established), throws))
    × (content p ≡ headers (stream_with established))
write_stream-throws_example =
    write_stream-throws (zeros 118) (stream_with established) refl refl refl refl (omega arith)

can_write : CanWrite (stream_with established)
can_write = record {
  no_callback = refl;
  no_wait = refl;
  up = refl;
  array = refl;
  no_tag = refl;
  counted = refl;
}

can_read : CanRead (stream_with established)
can_read = record { quiet = refl; up = refl; counted = refl; none_yet = refl }

-- The first of two transmissions is missed.
write_stream-read_stream_example :
    let (s', result) = write_stream (8 ∷ 9 ∷ 10 ∷ []) (stream_with established) in
    let p = s'.buffers.next_tx_packet in
    (result ≡ returns 3)
    × (send_times 2 s' ≡ some (period_sent p (stream_with established), some p ∷ some p ∷ []))
    × ((r' : Stream) × (hear
            (false ∷ true ∷ [])
            (receive (sent_bytes p) (new_packet 0))
            (stream_with established)
          ≡ some r')
        × ReadsOf 2 true (8 ∷ 9 ∷ 10 ∷ []) (read_stream 2 r'))
write_stream-read_stream_example =
    write_stream-read_stream (8 ∷ 9 ∷ 10 ∷ []) 2 (stream_with established) (stream_with established)
      false (true ∷ []) (new_packet 0) can_write can_read (omega arith) (omega arith) refl refl
      (omega arith) (record { array = refl; ordered = omega arith; room = omega arith }) refl

abbrev packet : Packet
packet = record {
  packet = (pan_header 7 ++ id_bytes id) ++ (8 ∷ 9 ∷ 10 ∷ zeros 114);
  data_size = 11;
  data_start = 0;
  reserved_size = 0;
}

read_stream-fails_example :
    (r' : Stream) × (hear (true ∷ true ∷ []) packet (stream_with established) ≡ some r')
    × ((read_stream 20 r').1 ≡ fails 1)
    × ((read_stream 20 r').0.buffers.received_shared ≡ false)
read_stream-fails_example =
    read_stream-fails 7 id (8 ∷ 9 ∷ 10 ∷ []) packet 20 (stream_with established) true (true ∷ [])
      (record {
        valid = record { array = refl; ordered = omega arith; room = omega arith };
        holds = refl;
      })
      can_read refl (omega arith) refl (omega arith)
