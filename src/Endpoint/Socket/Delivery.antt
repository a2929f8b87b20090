-- ===== src/Endpoint/Socket/Delivery.antt =====
-- A packet on its way from the application at one end of a stream to that at the other.
use tdmh.Base.{
  ℕ, suc, ◌+◌, min, ◌≤◌, ◌<◌, ◌≡◌, refl, sym, ap, subst, ◌∙◌, List, ◌∷◌, ◌++◌, length, take, Option,
  none, some, Bool, true, false, not, ◌&&◌, length-append, length-take, if_false, if_true, arith,
}
use tdmh.Stream.Params.{StreamId}
use tdmh.Packet.{Packet, max_pkt_size, size, pan_header, receive}
use tdmh.Packet.View.{IsPacket, content, size_lem, length-content, receive_lem}
use tdmh.Wire.Fields.{id_bytes}
use tdmh.Endpoint.{established, Stream, status_of, CallResult, returns, fails}
use tdmh.Endpoint.Socket.{
  is_established, must_wait, write_stream, take_data, read_result, read_once, read_stream,
}
use tdmh.Endpoint.Socket.Written.{
  headers, room_for_tag, write_fits, send_times, replicate, period_sent, period-sent,
}
use tdmh.Endpoint.Socket.Heard.{
  hear, any, IsReceiving, IsOver, hear-IsOver, take_data_lem, take_data_short,
}

read_when_over :
    (max_size : ℕ) (got : Bool) (q : Packet) (s s' : Stream)
    → IsOver got q s s'
    → status_of s ≡ established
    → read_stream max_size s' ≡ read_once max_size s'
unfolding read_stream
read_when_over max_size got q s s' o up =
    let st : is_established (status_of s') ≡ true =
      ap is_established (ap (λ e. e.info.status) o.endpoint ∙ up) in
    if_false _ _ _ o.quiet
    ∙ if_false _ _ _ (ap (λ b. b && is_established (status_of s')) o.fresh)
    ∙ if_false _ _ _ (ap not st)

read_of :
    (s : Stream) (r : Packet × Option (List ℕ)) (bytes : List ℕ)
    → r.1 ≡ some bytes
    → (read_result s r).1 ≡ returns (length bytes) × (read_result s r).2 ≡ bytes
read_of s (p, none) bytes e = cc
read_of s (p, some xs) bytes e = ground (arith, e)

read_of_none :
    (s : Stream) (r : Packet × Option (List ℕ))
    → r.1 ≡ none
    → ((read_result s r).1 ≡ fails 1)
      × ((read_result s r).0.buffers.received_shared ≡ s.buffers.received_shared)
read_of_none s (p, none) e = (refl, refl)
read_of_none s (p, some xs) e = cc

-- The stream from which the packet of a period is read.
abbrev taken : Stream → Stream
taken s = record s {
  buffers = record s.buffers { already_received_shared = true; received_shared = false };
}

-- A packet of some bytes, as the data phase receives it.
pub record IsOf (pan_id : ℕ) (id : StreamId) (bytes : List ℕ) (q : Packet) : Type 0 where
  pub valid : IsPacket q
  pub holds : content q ≡ (pan_header pan_id ++ id_bytes id) ++ bytes

-- What a read returns after a period.
abbrev pub ReadsOf : ℕ → Bool → List ℕ → Stream × CallResult × List ℕ → Type 0
ReadsOf n true bytes r = (r.1 ≡ returns n) × (r.2 ≡ take n bytes)
ReadsOf n false bytes r = r.1 ≡ fails 1

module _ (pan_id : ℕ) (id : StreamId) (bytes : List ℕ) (q : Packet)
    (h : IsOf pan_id id bytes q) where
  size-IsOf : size q ≡ 8 + length bytes
  size-IsOf =
      let long = ap length h.holds ∙ length-append (pan_header pan_id ++ id_bytes id) bytes in
      omega (arith, size_lem q h.valid, length-content q h.valid, long)

  pub read_over :
      (n : ℕ) (got : Bool) (s s' : Stream)
      → IsOver got q s s'
      → status_of s ≡ established
      → n ≤ length bytes
      → ReadsOf n got bytes (read_stream n s')
  read_over n true s s' o up small =
      let p = s'.buffers.rx_packet_shared in
      let all : min n (size q) ≡ n = omega (arith, size-IsOf) in
      let of_q : (take_data (min n (size q)) q).1 ≡ some (take n bytes) =
        ap (λ k. (take_data k q).1) all ∙ take_data_lem n pan_id id bytes q h.valid h.holds small in
      let of_p : (take_data (min n (size p)) p).1 ≡ some (take n bytes) =
        subst (λ x. (take_data (min n (size x)) x).1 ≡ some (take n bytes)) (sym (o.packet refl))
          of_q in
      let run = read_when_over n true q s s' o up ∙ if_true _ _ _ o.shared in
      let (result, data_read) =
        read_of (taken s') (take_data (min n (size p)) p) (take n bytes) of_p in
      let long : length (take n bytes) ≡ n = omega (arith, length-take n bytes) in
      (
        ap {A = Stream × CallResult × List ℕ} (λ r. r.1) run ∙ result ∙ ap returns long,
        ap {A = Stream × CallResult × List ℕ} (λ r. r.2) run ∙ data_read,
      )
  read_over n false s s' o up small =
      ap {A = Stream × CallResult × List ℕ} (λ r. r.1)
        (read_when_over n false q s s' o up ∙ if_false _ _ _ o.shared)

  read_too_much :
      (n : ℕ) (s s' : Stream)
      → IsOver true q s s'
      → status_of s ≡ established
      → length bytes < n
      → ((read_stream n s').1 ≡ fails 1) × ((read_stream n s').0.buffers.received_shared ≡ false)
  read_too_much n s s' o up large =
      let p = s'.buffers.rx_packet_shared in
      let many : length bytes < min n (size q) = omega (arith, size-IsOf) in
      let of_q : (take_data (min n (size q)) q).1 ≡ none =
        take_data_short (min n (size q)) pan_id id bytes q h.valid h.holds many in
      let of_p : (take_data (min n (size p)) p).1 ≡ none =
        subst (λ x. (take_data (min n (size x)) x).1 ≡ none) (sym (o.packet refl)) of_q in
      let run = read_when_over n true q s s' o up ∙ if_true _ _ _ o.shared in
      let (result, lost) = read_of_none (taken s') (take_data (min n (size p)) p) of_p in
      (
        ap {A = Stream × CallResult × List ℕ} (λ r. r.1) run ∙ result,
        ap {A = Stream × CallResult × List ℕ} (λ r. r.0.buffers.received_shared) run ∙ lost,
      )

-- A stream that may be written, at the beginning of a period; its packets have no tag.
pub record CanWrite (s : Stream) : Type 0 where
  pub no_callback : s.buffers.has_send_callback ≡ false
  pub no_wait : must_wait s ≡ false
  pub up : status_of s ≡ established
  pub array : length s.buffers.next_tx_packet.packet ≡ max_pkt_size
  pub no_tag : s.buffers.auth_data ≡ false
  pub counted : s.buffers.tx_count ≡ 0

-- A stream that may be read, at the beginning of a period.
pub record CanRead (s : Stream) : Type 0 where
  pub quiet : s.buffers.has_recv_callback ≡ false
  pub up : status_of s ≡ established
  pub counted : s.buffers.rx_count ≡ 0
  pub none_yet : s.buffers.received ≡ false

-- What the radio takes of a packet.
abbrev pub sent_bytes : Packet → List ℕ
sent_bytes p = take p.data_size p.packet

-- Two established streams without callbacks and tags are at the beginning of a period of as many
-- slots as their redundancy says. What is written at one end, up to 117 bytes, is sent in each slot of
-- the period; and if one of the transmissions is heard at the other end, a read there, of as many bytes or
-- fewer, returns them; if none is heard, the read fails.
pub write_stream-read_stream :
    (bytes : List ℕ) (n : ℕ) (s r : Stream) (heard : Bool) (more : List Bool) (blank : Packet)
    → CanWrite s
    → CanRead r
    → length bytes + 8 ≤ max_pkt_size
    → n ≤ length bytes
    → s.buffers.redundancy_count ≡ suc (length more)
    → r.buffers.redundancy_count ≡ suc (length more)
    → suc (length more) < 256
    → IsPacket blank
    → blank.reserved_size ≡ 0
    → let (s', result) = write_stream bytes s in
      let p = s'.buffers.next_tx_packet in
      let q = receive (sent_bytes p) blank in
      (result ≡ returns (length bytes))
      × (send_times (suc (length more)) s'
          ≡ some (period_sent p s, replicate (suc (length more)) (some p)))
      × ((r' : Stream) × (hear (heard ∷ more) q r ≡ some r')
          × ReadsOf n (any (heard ∷ more)) bytes (read_stream n r'))
write_stream-read_stream bytes n s r heard more blank w can fits small count count' low valid
      clean =
    let no_room : room_for_tag s ≡ 0 = rw w.no_tag refl in
    let (p, e, holds) =
      write_fits bytes s w.no_callback w.no_wait w.up w.array (omega (arith, no_room)) in
    let long : length (sent_bytes p) ≡ 8 + length bytes =
      ap length holds ∙ length-append (headers s) bytes in
    let (valid', content') = receive_lem (sent_bytes p) blank valid clean (omega (arith, long)) in
    let q = receive (sent_bytes p) blank in
    let is : IsOf s.buffers.pan_id s.endpoint.info.id bytes q = record {
      valid = valid';
      holds = content' ∙ holds;
    } in
    let got : IsReceiving 0 false q r = record {
      quiet = can.quiet;
      counted = can.counted;
      received = can.none_yet;
      packet = λ no. cc;
    } in
    let (r', run, o) =
      hear-IsOver heard more 0 false q r got (omega (arith, count')) (omega (arith, count')) in
    subst
      (λ (x : Stream × CallResult).
        (x.1 ≡ returns (length bytes))
        × (send_times (suc (length more)) x.0
            ≡ some (
              period_sent x.0.buffers.next_tx_packet s,
              replicate (suc (length more)) (some x.0.buffers.next_tx_packet),
            ))
        × ((r' : Stream) × (hear (heard ∷ more)
                (receive (sent_bytes x.0.buffers.next_tx_packet) blank) r
              ≡ some r')
            × ReadsOf n (any (heard ∷ more)) bytes (read_stream n r')))
      (sym e)
      (
        refl,
        period-sent (length more) p s w.no_callback w.counted count low,
        (
          r',
          run,
          read_over s.buffers.pan_id s.endpoint.info.id bytes q is n (any (heard ∷ more)) r r' o
              can.up small,
        ),
      )

-- An established stream without a callback is at the beginning of a period, in which it hears a
-- packet. A read of more bytes than the packet has data counts the bytes of the headers,
-- which it has taken off: it fails, and the data are lost.
pub read_stream-fails :
    (pan_id : ℕ) (id : StreamId) (bytes : List ℕ) (q : Packet) (n : ℕ) (r : Stream) (heard : Bool)
    (more : List Bool)
    → IsOf pan_id id bytes q
    → CanRead r
    → r.buffers.redundancy_count ≡ suc (length more)
    → suc (length more) < 256
    → any (heard ∷ more) ≡ true
    → length bytes < n
    → (r' : Stream) × (hear (heard ∷ more) q r ≡ some r')
      × ((read_stream n r').1 ≡ fails 1)
      × ((read_stream n r').0.buffers.received_shared ≡ false)
read_stream-fails pan_id id bytes q n r heard more is can count low some_heard large =
    let got : IsReceiving 0 false q r = record {
      quiet = can.quiet;
      counted = can.counted;
      received = can.none_yet;
      packet = λ no. cc;
    } in
    let (r', run, o) =
      hear-IsOver heard more 0 false q r got (omega (arith, count)) (omega (arith, count)) in
    let (failed, lost) =
      read_too_much pan_id id bytes q is n r r' (subst (λ b. IsOver b q r r') some_heard o) can.up
        large in
    (r', run, failed, lost)
