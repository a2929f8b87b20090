-- ===== src/Endpoint/Socket/Heard.antt =====
-- What a period leaves for the application, some of whose transmissions may be lost.
use tdmh.Base.{
  ℕ, suc, ◌+◌, ◌≤◌, ◌<◌, ◌≡◌, refl, sym, ap, subst, ◌∙◌, List, [], ◌∷◌, ◌++◌, length, take, drop,
  Option, none, some, Bool, true, false, ◌||◌, if◌then◌else◌, length-take, take-append-drop, arith,
}
use mathlib.Core.List.{append_assoc}
use tdmh.Packet.{Packet, clear, get, remove_pan_header, pan_header}
use tdmh.Packet.View.{IsPacket, content, get_lem, get_short, discard_lem}
use tdmh.Stream.Params.{StreamId}
use tdmh.Wire.Fields.{id_bytes}
use tdmh.Endpoint.{Output, Stream}
use tdmh.Endpoint.Socket.{
  ◌>>=◌, take_data, next_seq_no, update_rx_packet, receive_packet, miss_packet,
}

-- A slot of a stream that receives: the packet is heard, or it is missed.
unfoldable pub slot : Bool → Packet → Stream → Option (Stream × List Output × Bool)
slot heard q s = if heard then receive_packet q s else miss_packet s

-- The slots of a period.
unfoldable pub hear : List Bool → Packet → Stream → Option Stream
hear [] q s = some s
hear (heard ∷ more) q s = do (s', outputs, over) ← slot heard q s; hear more q s'

abbrev pub any : List Bool → Bool
any [] = false
any (b ∷ bs) = b || any bs

-- A stream without a callback, between the slots of a period.
pub record IsReceiving (k : ℕ) (got : Bool) (q : Packet) (s : Stream) : Type 0 where
  pub quiet : s.buffers.has_recv_callback ≡ false
  pub counted : s.buffers.rx_count ≡ k
  pub received : s.buffers.received ≡ got
  pub packet : got ≡ true → s.buffers.rx_packet ≡ q

-- The end of a period in which the packet was received, or not.
pub record IsOver (got : Bool) (q : Packet) (s s' : Stream) : Type 0 where
  pub quiet : s'.buffers.has_recv_callback ≡ false
  pub counted : s'.buffers.rx_count ≡ 0
  pub received : s'.buffers.received ≡ false
  pub shared : s'.buffers.received_shared ≡ got
  pub fresh : s'.buffers.already_received_shared ≡ false
  pub packet : got ≡ true → s'.buffers.rx_packet_shared ≡ q
  pub endpoint : s'.endpoint ≡ s.endpoint
  pub redundancy_count : s'.buffers.redundancy_count ≡ s.buffers.redundancy_count
  pub seq_no : s'.buffers.seq_no ≡ next_seq_no s.buffers.seq_no

slot_within :
    (heard : Bool) (k : ℕ) (got : Bool) (q : Packet) (s : Stream)
    → IsReceiving k got q s
    → suc k < s.buffers.redundancy_count
    → s.buffers.redundancy_count < 256
    → (s' : Stream) × (slot heard q s ≡ some (s', [], false))
      × IsReceiving (suc k) (got || heard) q s'
      × (s'.endpoint ≡ s.endpoint)
      × (s'.buffers.redundancy_count ≡ s.buffers.redundancy_count)
      × (s'.buffers.seq_no ≡ s.buffers.seq_no)
unfolding slot receive_packet miss_packet update_rx_packet
slot_within true k got q s r h h' = (
  record s { buffers = record s.buffers { rx_packet = q; received = true; rx_count = suc k } },
  ground arith,
  ground arith,
  refl,
  refl,
  refl,
)
slot_within false k got q s r h h' = (
  record s { buffers = record s.buffers { rx_count = suc k } },
  ground arith,
  ground arith,
  refl,
  refl,
  refl,
)

abbrev period_over : Packet → Bool → Stream → Stream
period_over p got s = record s {
  buffers = record s.buffers {
    rx_count = 0;
    seq_no = next_seq_no s.buffers.seq_no;
    rx_packet_shared = p;
    received_shared = got;
    already_received_shared = false;
    rx_packet = clear p;
    received = false;
  };
}

slot_last :
    (heard : Bool) (k : ℕ) (got : Bool) (q : Packet) (s : Stream)
    → IsReceiving k got q s
    → suc k ≡ s.buffers.redundancy_count
    → s.buffers.redundancy_count < 256
    → (s' : Stream) × (slot heard q s ≡ some (s', [], true)) × IsOver (got || heard) q s s'
unfolding slot receive_packet miss_packet update_rx_packet
slot_last true k got q s r h h' = (period_over q true s, ground arith, ground arith)
slot_last false k got q s r h h' =
    (period_over s.buffers.rx_packet s.buffers.received s, ground arith, ground arith)

-- The rest of a period.
pub hear-IsOver :
    (heard : Bool) (more : List Bool) (k : ℕ) (got : Bool) (q : Packet) (s : Stream)
    → IsReceiving k got q s
    → k + suc (length more) ≡ s.buffers.redundancy_count
    → s.buffers.redundancy_count < 256
    → (s' : Stream) × (hear (heard ∷ more) q s ≡ some s')
      × IsOver (got || any (heard ∷ more)) q s s'
unfolding hear
hear-IsOver heard [] k got q s r h h' =
    let (s', e, o) = slot_last heard k got q s r (omega arith) h' in
    let last : (got || heard) ≡ (got || (heard || false)) = ground arith in
    (s', rw e refl, subst (λ b. IsOver b q s s') last o)
hear-IsOver heard (next ∷ more) k got q s r h h' =
    let (s₁, e, r₁, same, count, seq) = slot_within heard k got q s r (omega arith) h' in
    let (s', e', o) =
      hear-IsOver next more (suc k) (got || heard) q s₁ r₁ (omega (arith, count))
        (omega (arith, count)) in
    let all : ((got || heard) || any (next ∷ more)) ≡ (got || (heard || any (next ∷ more))) =
      ground arith in
    (
      s',
      rw e e',
      subst (λ b. IsOver b q s s') all
          (record {
            quiet = o.quiet;
            counted = o.counted;
            received = o.received;
            shared = o.shared;
            fresh = o.fresh;
            packet = o.packet;
            endpoint = o.endpoint ∙ same;
            redundancy_count = o.redundancy_count ∙ count;
            seq_no = o.seq_no ∙ ap next_seq_no seq;
          }),
    )

-- What is read after the headers of a packet: the first bytes of the rest, or all of it.
pub take_data_lem :
    (count : ℕ) (pan_id : ℕ) (id : StreamId) (bytes : List ℕ) (q : Packet)
    → IsPacket q
    → content q ≡ (pan_header pan_id ++ id_bytes id) ++ bytes
    → count ≤ length bytes
    → (take_data count q).1 ≡ some (take count bytes)
unfolding remove_pan_header
take_data_lem count pan_id id bytes q ok e h =
    let (q₁, e₁, l₁) =
      discard_lem (pan_header pan_id) (id_bytes id ++ bytes) q ok
        (e ∙ append_assoc (pan_header pan_id) (id_bytes id) bytes) in
    let (q₂, e₂, l₂) = get_lem (id_bytes id) bytes q₁ l₁.valid l₁.left in
    let long : length (take count bytes) ≡ count = omega (arith, length-take count bytes) in
    let (q₃, e₃, l₃) =
      get_lem (take count bytes) (drop count bytes) q₂ l₂.valid
        (l₂.left ∙ sym (take-append-drop count bytes)) in
    rw (e₁, take_data)
      (rw (e₂, take_data) (rw (ap (λ n. get n q₂) (sym long) ∙ e₃, take_data) refl))

pub take_data_short :
    (count : ℕ) (pan_id : ℕ) (id : StreamId) (bytes : List ℕ) (q : Packet)
    → IsPacket q
    → content q ≡ (pan_header pan_id ++ id_bytes id) ++ bytes
    → length bytes < count
    → (take_data count q).1 ≡ none
unfolding remove_pan_header
take_data_short count pan_id id bytes q ok e h =
    let (q₁, e₁, l₁) =
      discard_lem (pan_header pan_id) (id_bytes id ++ bytes) q ok
        (e ∙ append_assoc (pan_header pan_id) (id_bytes id) bytes) in
    let (q₂, e₂, l₂) = get_lem (id_bytes id) bytes q₁ l₁.valid l₁.left in
    let short : length (content q₂) < count = subst (λ c. length c < count) (sym l₂.left) h in
    rw (e₁, take_data) (rw (e₂, take_data) (rw (get_short count q₂ l₂.valid short, take_data) refl))
