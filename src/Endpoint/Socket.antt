-- ===== src/Endpoint/Socket.antt =====
-- stream.cpp: the data of a Stream, which the application writes and reads, and the data phase
-- sends and receives. `put` throws an exception that the handler of `write` does not catch, which
-- is `throws` of the call, and `none` of the data phase.
pub mod Written
pub mod Heard
pub mod Delivery
use tdmh.Base.{
  ℕ, zero, suc, ◌+◌, ◌%◌, min, List, [], ◌∷◌, ◌++◌, length, Option, none, some, Bool, true, false,
  not, ◌&&◌, ◌||◌, ◌==◌, leb, if◌then◌else◌,
}
use tdmh.Packet.{
  Packet, Writer, ◌>>◌, clear, reserve_tag, put, get, size, put_pan_header, remove_pan_header,
}
use tdmh.Wire.Fields.{write_id}
use tdmh.Endpoint.{
  StreamStatus, connecting, connect_failed, accept_wait, established, remotely_closed, reopened,
  close_wait, listen_wait, listen_failed, listen, uninitialized, Output, call_send, call_receive,
  Buffers, Stream, status_of, CallResult, waits, throws, returns, fails,
}

infixl 5 ◌>>=◌
abbrev pub ◌>>=◌ : {A B : Type 0} → Option A → (A → Option B) → Option B
none >>= f = none
some a >>= f = f a

abbrev pub is_established : StreamStatus → Bool
is_established established = true
is_established _ = false

abbrev pub set_next : Packet → Bool → Stream → Stream
set_next p ready s = record s {
  buffers = record s.buffers { next_tx_packet = p; next_tx_packet_ready = ready };
}

-- The packet that a write begins with, and the headers that it has before its data.
abbrev pub fresh_packet : Stream → Packet
fresh_packet s =
    let p = clear s.buffers.next_tx_packet in if s.buffers.auth_data then reserve_tag p else p

abbrev pub headed : Stream → Option Packet
headed s = (put_pan_header s.buffers.pan_id >> write_id s.endpoint.info.id) (fresh_packet s)

abbrev pub put_data : List ℕ → Stream → Option Packet → Stream × CallResult
put_data bytes s none = (set_next (fresh_packet s) s.buffers.next_tx_packet_ready s, throws)
put_data bytes s (some p) = elim (put bytes p) [
  | none ↦ (set_next p s.buffers.next_tx_packet_ready s, throws)
  | some p' ↦ (set_next p' true s, returns (length bytes))
]

-- A stream that the wakeup scheduler does not manage waits for the end of the period.
abbrev pub must_wait : Stream → Bool
must_wait s =
    s.buffers.wakeup_advance == 0
    && (s.buffers.waiting || s.buffers.next_tx_packet_ready)
    && is_established (status_of s)

unfoldable pub write_stream : List ℕ → Stream → Stream × CallResult
unfolding clear reserve_tag put_pan_header write_id
write_stream bytes s =
    if s.buffers.has_send_callback
    then (s, fails 3)
    else if must_wait s
    then (s, waits)
    else if not (is_established (status_of s))
    then (s, fails 2)
    else put_data bytes s (headed s)

-- What is read of a packet past its headers, and the packet after that.
abbrev pub take_data : ℕ → Packet → Packet × Option (List ℕ)
take_data count p = elim (remove_pan_header p) [
  | none ↦ (p, none)
  | some p₁ ↦ elim (get 3 p₁) [
    | none ↦ (p₁, none)
    | some (id, p₂) ↦ elim (get count p₂) [
      | none ↦ (p₂, none)
      | some (bytes, p₃) ↦ (clear p₃, some bytes)
    ]
  ]
]

abbrev pub read_result : Stream → Packet × Option (List ℕ) → Stream × CallResult × List ℕ
read_result s (p, none) =
    (record s { buffers = record s.buffers { rx_packet_shared = p } }, fails 1, [])
read_result s (p, some bytes) = (
  record s { buffers = record s.buffers { rx_packet_shared = p } },
  returns (length bytes),
  bytes,
)

abbrev pub read_once : ℕ → Stream → Stream × CallResult × List ℕ
read_once max_size s =
    if s.buffers.received_shared
    then read_result
        (record s {
          buffers = record s.buffers { already_received_shared = true; received_shared = false };
        })
        (take_data (min max_size (size s.buffers.rx_packet_shared)) s.buffers.rx_packet_shared)
    else (record s { buffers = record s.buffers { already_received_shared = true } }, fails 1, [])

unfoldable pub read_stream : ℕ → Stream → Stream × CallResult × List ℕ
read_stream max_size s =
    if s.buffers.has_recv_callback
    then (s, fails 3, [])
    else if s.buffers.already_received_shared && is_established (status_of s)
    then (s, waits, [])
    else if not (is_established (status_of s))
    then (s, fails 2, [])
    else read_once max_size s

-- The counters are an `unsigned char`, and the sequence number an `unsigned long long`.
abbrev pub next_count : ℕ → ℕ
next_count n = (n + 1) % 256

abbrev pub next_seq_no : ℕ → ℕ
next_seq_no n = (n + 1) % 18446744073709551616

-- updateRxPacket; whether the period is over.
unfoldable pub update_rx_packet : Stream → Stream × Bool
update_rx_packet s =
    if leb s.buffers.redundancy_count (next_count s.buffers.rx_count)
    then (
      record s {
        buffers = record s.buffers {
          rx_count = 0;
          seq_no = next_seq_no s.buffers.seq_no;
          rx_packet_shared = s.buffers.rx_packet;
          received_shared = s.buffers.received;
          already_received_shared = false;
          rx_packet = clear s.buffers.rx_packet;
          received = false;
        };
      },
      true,
    )
    else (
      record s { buffers = record s.buffers { rx_count = next_count s.buffers.rx_count } },
      false,
    )

-- receivePacketWithCallback; the largest packet has 125 bytes.
unfoldable pub receive_with_callback : Stream → Option (Stream × List Output)
receive_with_callback s =
    if s.buffers.received_shared
    then (do
      p₁ ← remove_pan_header s.buffers.rx_packet_shared
      (id, p₂) ← get 3 p₁
      (bytes, p₃) ← get (min 125 (size p₂)) p₂
      some (
        record s {
          buffers = record s.buffers { received_shared = false; rx_packet_shared = clear p₃ };
        },
        call_receive bytes (status_of s) ∷ [],
      ))
    else some (s, call_receive [] (status_of s) ∷ [])

-- Once per period the callback is called, if there is one.
abbrev pub end_of_slot : Stream × Bool → Option (Stream × List Output × Bool)
end_of_slot (s, over) =
    if s.buffers.rx_count == 0 && s.buffers.has_recv_callback
    then (do (s', outputs) ← receive_with_callback s; some (s', outputs, over))
    else some (s, [], over)

unfoldable pub receive_packet : Packet → Stream → Option (Stream × List Output × Bool)
unfolding update_rx_packet receive_with_callback
receive_packet p s =
    end_of_slot (
      update_rx_packet (record s { buffers = record s.buffers { rx_packet = p; received = true } }))

unfoldable pub miss_packet : Stream → Option (Stream × List Output × Bool)
unfolding update_rx_packet receive_with_callback
miss_packet s = end_of_slot (update_rx_packet s)

-- The packet for the next period takes the place of that of the last.
unfoldable pub update_tx_packet : Stream → Stream
update_tx_packet s =
    if s.buffers.next_tx_packet_ready
    then record s {
      buffers = record s.buffers {
        tx_packet = s.buffers.next_tx_packet;
        tx_packet_ready = true;
        next_tx_packet_ready = false;
      };
    }
    else record s { buffers = record s.buffers { tx_packet_ready = false } }

-- sendPacketWithCallback, with the bytes that the callback supplies.
unfoldable pub send_with_callback : List ℕ → Stream → Option (Stream × List Output)
send_with_callback bytes s = do
  p ← headed s
  p' ← put bytes p
  some (set_next p' true s, call_send (status_of s) ∷ [])

abbrev pub begin_period : List ℕ → Stream → Option (Stream × List Output)
begin_period bytes s =
    if s.buffers.tx_count == 0
    then (if s.buffers.has_send_callback
        then (do (s', outputs) ← send_with_callback bytes s; some (update_tx_packet s', outputs))
        else some (update_tx_packet s, []))
    else some (s, [])

abbrev pub count_sent : Stream → Stream
count_sent s =
    if leb s.buffers.redundancy_count (next_count s.buffers.tx_count)
    then record s {
      buffers = record s.buffers { tx_count = 0; seq_no = next_seq_no s.buffers.seq_no };
    }
    else record s { buffers = record s.buffers { tx_count = next_count s.buffers.tx_count } }

-- The packet to be sent, if one is ready.
abbrev pub ready_packet : Stream → Option Packet
ready_packet s = if s.buffers.tx_packet_ready then some s.buffers.tx_packet else none

unfoldable pub send_packet : List ℕ → Stream → Option (Stream × List Output × Option Packet)
unfolding send_with_callback update_tx_packet
send_packet bytes s = do
  (s', outputs) ← begin_period bytes s
  let s'' = count_sent s'
  some (s'', outputs, ready_packet s'')

-- resetCounters and resetSequenceNumber.
unfoldable pub reset_counters : Stream → Stream
reset_counters s = record s { buffers = record s.buffers { tx_count = 0; rx_count = 0 } }

unfoldable pub reset_sequence_number : Stream → Stream
reset_sequence_number s = record s { buffers = record s.buffers { seq_no = 1 } }
