-- ===== src/Endpoint/Socket/Written.antt =====
-- What a write leaves for the next period, and what the data phase then sends.
use tdmh.Base.{
  ℕ, zero, suc, ◌+◌, ◌≤◌, ◌<◌, ◌≡◌, refl, sym, ap, ◌∙◌, List, [], ◌∷◌, ◌++◌, length, take, drop,
  Option, some, true, false, not, if◌then◌else◌, if_false, arith,
}
use tdmh.Packet.{Packet, max_pkt_size, clear, reserve_tag, put_pan_header, pan_header}
use tdmh.Packet.View.{
  IsPacket, IsNew, content, Wrote, put_lem, put_full, IsNew-IsPacket, content-IsNew,
}
use tdmh.Packet.Codec.{put-Writes, then-Writes}
use tdmh.Wire.Fields.{id_bytes, write_id}
use tdmh.Endpoint.{established, Stream, status_of, throws, returns}
use tdmh.Endpoint.Socket.{
  ◌>>=◌, is_established, set_next, fresh_packet, headed, put_data, must_wait, write_stream,
  next_seq_no, update_tx_packet, send_packet,
}

abbrev pub headers : Stream → List ℕ
headers s = pan_header s.buffers.pan_id ++ id_bytes s.endpoint.info.id

abbrev pub room_for_tag : Stream → ℕ
room_for_tag s = if s.buffers.auth_data then 16 else 0

fresh_packet-IsNew :
    (s : Stream)
    → length s.buffers.next_tx_packet.packet ≡ max_pkt_size
    → IsNew (room_for_tag s) (fresh_packet s)
unfolding clear reserve_tag
fresh_packet-IsNew s long = ground arith

room_for_tag-le : (s : Stream) → room_for_tag s ≤ 16
room_for_tag-le s = ground arith

headed_lem :
    (s : Stream)
    → length s.buffers.next_tx_packet.packet ≡ max_pkt_size
    → (p : Packet) × (headed s ≡ some p) × Wrote (headers s) (fresh_packet s) p
unfolding put_pan_header write_id
headed_lem s long =
    let new = fresh_packet-IsNew s long in
    let small = room_for_tag-le s in
    then-Writes (put_pan_header s.buffers.pan_id) (write_id s.endpoint.info.id)
      (pan_header s.buffers.pan_id) (id_bytes s.endpoint.info.id)
      (put-Writes (pan_header s.buffers.pan_id)) (put-Writes (id_bytes s.endpoint.info.id))
      (fresh_packet s) (IsNew-IsPacket (room_for_tag s) (fresh_packet s) (omega arith) new)
      (omega (arith, new.empty, new.room))

-- The headers are in the packet, and there is room for the rest.
record HasHeaders (s : Stream) (p : Packet) : Type 0 where
  begun : headed s ≡ some p
  valid : IsPacket p
  holds : content p ≡ headers s
  filled : p.data_size + p.reserved_size ≡ 8 + room_for_tag s
  start : p.data_start ≡ 0

headed-HasHeaders :
    (s : Stream)
    → length s.buffers.next_tx_packet.packet ≡ max_pkt_size
    → (p : Packet) × HasHeaders s p
headed-HasHeaders s long =
    let (p, e, w) = headed_lem s long in
    let new = fresh_packet-IsNew s long in
    (
      p,
      record {
        begun = e;
        valid = w.valid;
        holds =
            w.added
            ∙ ap (λ c. c ++ headers s) (content-IsNew (room_for_tag s) (fresh_packet s) new);
        filled = omega (arith, w.grown, w.reserved, new.empty, new.room);
        start = w.start ∙ new.start;
      },
    )

write_when_open :
    (bytes : List ℕ) (s : Stream)
    → s.buffers.has_send_callback ≡ false
    → must_wait s ≡ false
    → status_of s ≡ established
    → write_stream bytes s ≡ put_data bytes s (headed s)
unfolding write_stream
write_when_open bytes s no_callback no_wait up =
    if_false _ _ _ no_callback
    ∙ if_false _ _ _ no_wait
    ∙ if_false _ _ _ (ap (λ st. not (is_established st)) up)

-- A write that fits leaves a packet for the next period, of the headers and the bytes.
pub write_fits :
    (bytes : List ℕ) (s : Stream)
    → s.buffers.has_send_callback ≡ false
    → must_wait s ≡ false
    → status_of s ≡ established
    → length s.buffers.next_tx_packet.packet ≡ max_pkt_size
    → length bytes + 8 + room_for_tag s ≤ max_pkt_size
    → (p : Packet) × (write_stream bytes s ≡ (set_next p true s, returns (length bytes)))
      × (take p.data_size p.packet ≡ headers s ++ bytes)
write_fits bytes s no_callback no_wait up long fits =
    let (p, h) = headed-HasHeaders s long in
    let (p', e, w) = put_lem bytes p h.valid (omega (arith, h.filled)) in
    (
      p',
      write_when_open bytes s no_callback no_wait up
          ∙ ap (put_data bytes s) h.begun
          ∙ rw (e, put_data) refl,
      ap (λ k. drop k (take p'.data_size p'.packet)) (sym (w.start ∙ h.start))
          ∙ w.added
          ∙ ap (λ c. c ++ bytes) h.holds,
    )

-- A write of too many bytes to a stream that may be written throws an exception; if a packet was
-- ready for the next period, one that has the headers only is ready in its place.
pub write_stream-throws :
    (bytes : List ℕ) (s : Stream)
    → s.buffers.has_send_callback ≡ false
    → must_wait s ≡ false
    → status_of s ≡ established
    → length s.buffers.next_tx_packet.packet ≡ max_pkt_size
    → max_pkt_size < length bytes + 8 + room_for_tag s
    → (p : Packet) × (write_stream bytes s ≡ (set_next p s.buffers.next_tx_packet_ready s, throws))
      × (content p ≡ headers s)
write_stream-throws bytes s no_callback no_wait up long large =
    let (p, h) = headed-HasHeaders s long in
    let e = put_full bytes p h.valid (omega (arith, h.filled)) in
    (
      p,
      write_when_open bytes s no_callback no_wait up
          ∙ ap (put_data bytes s) h.begun
          ∙ rw (e, put_data) refl,
      h.holds,
    )

-- The calls of sendPacket in `n` slots of a stream without a callback, and what is sent in each.
unfoldable pub send_times : ℕ → Stream → Option (Stream × List (Option Packet))
send_times zero s = some (s, [])
send_times (suc n) s = do
  (s', outputs, sent) ← send_packet [] s
  (s'', later) ← send_times n s'
  some (s'', sent ∷ later)

abbrev pub replicate : ℕ → Option Packet → List (Option Packet)
replicate zero p = []
replicate (suc n) p = p ∷ replicate n p

-- The stream in the middle of a period, with a packet that is ready; and at its end.
abbrev pub in_period : ℕ → Packet → Stream → Stream
in_period k p s = record s {
  buffers = record s.buffers {
    tx_count = k;
    tx_packet = p;
    tx_packet_ready = true;
    next_tx_packet = p;
    next_tx_packet_ready = false;
  };
}

abbrev pub period_sent : Packet → Stream → Stream
period_sent p s = record s {
  buffers = record s.buffers {
    tx_count = 0;
    tx_packet = p;
    tx_packet_ready = true;
    next_tx_packet = p;
    next_tx_packet_ready = false;
    seq_no = next_seq_no s.buffers.seq_no;
  };
}

send_in_period :
    (k : ℕ) (p : Packet) (s : Stream)
    → 0 < k
    → suc k < s.buffers.redundancy_count
    → s.buffers.redundancy_count < 256
    → send_packet [] (in_period k p s) ≡ some (in_period (suc k) p s, [], some p)
unfolding send_packet
send_in_period k p s h h' h'' = ground arith

send_last :
    (k : ℕ) (p : Packet) (s : Stream)
    → 0 < k
    → suc k ≡ s.buffers.redundancy_count
    → s.buffers.redundancy_count < 256
    → send_packet [] (in_period k p s) ≡ some (period_sent p s, [], some p)
unfolding send_packet
send_last k p s h h' h'' = ground arith

rest_of_period :
    (n k : ℕ) (p : Packet) (s : Stream)
    → 0 < k
    → k + suc n ≡ s.buffers.redundancy_count
    → s.buffers.redundancy_count < 256
    → send_times (suc n) (in_period k p s) ≡ some (period_sent p s, replicate (suc n) (some p))
unfolding send_times
rest_of_period zero k p s h h' h'' = rw (send_last k p s h (omega arith) h'') refl
rest_of_period (suc n) k p s h h' h'' =
    rw (send_in_period k p s h (omega arith) h'')
      (rw (rest_of_period n (suc k) p s (omega arith) (omega arith) h'') refl)

first_of_period :
    (p : Packet) (s : Stream)
    → s.buffers.has_send_callback ≡ false
    → s.buffers.tx_count ≡ 0
    → 1 < s.buffers.redundancy_count
    → s.buffers.redundancy_count < 256
    → send_packet [] (set_next p true s) ≡ some (in_period 1 p s, [], some p)
unfolding send_packet update_tx_packet
first_of_period p s h h' h'' h''' = ground arith

only_of_period :
    (p : Packet) (s : Stream)
    → s.buffers.has_send_callback ≡ false
    → s.buffers.tx_count ≡ 0
    → s.buffers.redundancy_count ≡ 1
    → send_packet [] (set_next p true s) ≡ some (period_sent p s, [], some p)
unfolding send_packet update_tx_packet
only_of_period p s h h' h'' = ground arith

-- A packet that is ready is sent in every slot of its period.
pub period-sent :
    (n : ℕ) (p : Packet) (s : Stream)
    → s.buffers.has_send_callback ≡ false
    → s.buffers.tx_count ≡ 0
    → s.buffers.redundancy_count ≡ suc n
    → suc n < 256
    → send_times (suc n) (set_next p true s) ≡ some (period_sent p s, replicate (suc n) (some p))
unfolding send_times
period-sent zero p s h h' h'' h''' = rw (only_of_period p s h h' h'') refl
period-sent (suc n) p s h h' h'' h''' =
    rw (first_of_period p s h h' (omega arith) (omega arith))
      (rw (rest_of_period n 1 p s (omega arith) (omega arith) (omega arith)) refl)
