-- ===== src/Wire/Schedule/RoundTrip.antt =====
-- A schedule packet is read back as it was written.
use tdmh.Base.{
  ℕ, ◌+◌, ◌*◌, ◌/◌, ◌≤◌, ◌≡◌, refl, sym, ap, ◌∙◌, List, [], ◌∷◌, ◌++◌, length, take, some, Bool,
  true, false, length-append, arith, All, if◌then◌else◌,
}
use mathlib.Core.List.{append-nil, append_assoc}
use tdmh.Packet.{
  Packet, ◌>>◌, ◌>>=◌, pure, size, pan_header, put_pan_header, remove_pan_header, receive,
  max_pkt_size, tag_size,
}
use tdmh.Packet.View.{
  IsPacket, content, IsNew, IsNew-IsPacket, sent, size_lem, length-content, receive_lem,
}
use tdmh.Packet.Codec.{
  Writes, Reads, put-Writes, some-Writes, then-Writes, pure-Reads, map-Reads, bind-Reads,
  discard-Reads,
}
use tdmh.Wire.Schedule.{
  header_bytes, write_header, DownlinkElement, write_element, read_element, SchedulePacket,
  write_elements, serialize, read_elements, element_size, deserialize, get_packet_capacity,
}
use tdmh.Wire.Schedule.Elements.{
  IsHeader, write_header-Writes, read_header-Reads, IsElement, element_bytes, length-element_bytes,
  write_element-Writes, read_element-Reads,
}

abbrev elements_bytes : List DownlinkElement → List ℕ
elements_bytes [] = []
elements_bytes (e ∷ more) = element_bytes e ++ elements_bytes more

length-elements_bytes :
    (es : List DownlinkElement)
    → All IsElement es
    → length (elements_bytes es) ≡ element_size * length es
length-elements_bytes [] h = refl
length-elements_bytes (e ∷ es) (h, hs) = omega (
  arith,
  length-append (element_bytes e) (elements_bytes es),
  length-element_bytes e h,
  length-elements_bytes es hs,
)

write_elements-Writes : (es : List DownlinkElement) → Writes (write_elements es) (elements_bytes es)
unfolding write_elements
write_elements-Writes [] = some-Writes
write_elements-Writes (e ∷ es) =
    then-Writes (write_element e) (write_elements es) (element_bytes e) (elements_bytes es)
      (write_element-Writes e) (write_elements-Writes es)

read_elements-Reads :
    (es : List DownlinkElement)
    → All IsElement es
    → Reads (read_elements (length es)) (elements_bytes es) es
unfolding read_elements
read_elements-Reads [] h = pure-Reads []
read_elements-Reads (e ∷ es) (h, hs) =
    bind-Reads read_element (λ e'. read_elements (length es) >>= λ more. pure (e' ∷ more))
      (element_bytes e) (elements_bytes es) e (e ∷ es) (read_element-Reads e h)
      (map-Reads (read_elements (length es)) (λ more. e ∷ more) (elements_bytes es) es
        (read_elements-Reads es hs))

abbrev packet_bytes : ℕ → SchedulePacket → List ℕ
packet_bytes pan_id s = (pan_header pan_id ++ header_bytes s.header) ++ elements_bytes s.elements

serialize-Writes :
    (pan_id : ℕ) (s : SchedulePacket) → Writes (serialize pan_id s) (packet_bytes pan_id s)
unfolding serialize put_pan_header
serialize-Writes pan_id s =
    then-Writes (put_pan_header pan_id >> write_header s.header) (write_elements s.elements)
      (pan_header pan_id ++ header_bytes s.header) (elements_bytes s.elements)
      (then-Writes (put_pan_header pan_id) (write_header s.header) (pan_header pan_id)
        (header_bytes s.header) (put-Writes (pan_header pan_id)) (write_header-Writes s.header))
      (write_elements-Writes s.elements)

deserialize_lem :
    (pan_id : ℕ) (s : SchedulePacket) (q : Packet)
    → IsHeader s.header
    → All IsElement s.elements
    → IsPacket q
    → content q ≡ packet_bytes pan_id s
    → (q' : Packet) × (deserialize q ≡ some (s, q')) × (content q' ≡ [])
unfolding deserialize remove_pan_header
deserialize_lem pan_id s q header elements ok e =
    let bytes = elements_bytes s.elements in
    let (q₁, e₁, l₁) =
      discard-Reads (pan_header pan_id) q (header_bytes s.header ++ bytes) ok
        (e ∙ append_assoc (pan_header pan_id) (header_bytes s.header) bytes) in
    let (q₂, e₂, l₂) = read_header-Reads s.header header q₁ bytes l₁.valid l₁.left in
    let (q₃, e₃, l₃) =
      read_elements-Reads s.elements elements q₂ [] l₂.valid (l₂.left ∙ sym (append-nil bytes)) in
    let count : size q₂ / element_size ≡ length s.elements = omega (
      arith,
      size_lem q₂ l₂.valid,
      length-content q₂ l₂.valid,
      ap length l₂.left,
      length-elements_bytes s.elements elements,
    ) in
    let run : read_elements (size q₂ / element_size) q₂ ≡ some (s.elements, q₃) = rw count e₃ in
    (q₃, rw (e₁, ◌>>=◌) (rw (e₂, ◌>>=◌) (rw (run, ◌>>=◌) refl)), l₃.left)

-- The bytes that are sent, in a packet that the radio has received.
abbrev transmit : Packet → Packet → Packet
transmit p q = receive (take p.data_size p.packet) q

length-packet_bytes :
    (pan_id : ℕ) (s : SchedulePacket)
    → All IsElement s.elements
    → length (packet_bytes pan_id s) ≡ 20 + 10 * length s.elements
length-packet_bytes pan_id s h = omega (
  arith,
  length-append (pan_header pan_id ++ header_bytes s.header) (elements_bytes s.elements),
  length-elements_bytes s.elements h,
)

-- A packet that is full has room for its tag.
capacity_fits :
    (crypto : Bool) (n : ℕ)
    → n ≤ get_packet_capacity crypto
    → (if crypto then tag_size else 0) + (20 + 10 * n) ≤ max_pkt_size
unfolding get_packet_capacity
capacity_fits true n h = omega arith
capacity_fits false n h = omega arith

-- A schedule packet with no more elements than a packet has room for, whose fields have values
-- within their widths, is serialized into a new packet without an exception; when it is sent and
-- received, `deserialize` returns the same header and the same elements, and nothing is left.
pub deserialize-serialize :
    (crypto : Bool) (pan_id : ℕ) (s : SchedulePacket) (p q : Packet)
    → IsHeader s.header
    → All IsElement s.elements
    → length s.elements ≤ get_packet_capacity crypto
    → IsNew (if crypto then tag_size else 0) p
    → IsPacket q
    → q.reserved_size ≡ 0
    → (p' : Packet) × (q' : Packet) × (serialize pan_id s p ≡ some p')
      × (deserialize (transmit p' q) ≡ some (s, q'))
      × (content q' ≡ [])
deserialize-serialize crypto pan_id s p q header elements fits new ok clean =
    let bytes = packet_bytes pan_id s in
    let long = length-packet_bytes pan_id s elements in
    let room = capacity_fits crypto (length s.elements) fits in
    let valid = IsNew-IsPacket (if crypto then tag_size else 0) p (omega (arith, room)) new in
    let (p', e, w) =
      serialize-Writes pan_id s p valid (omega (arith, room, long, new.empty, new.room)) in
    let (valid', received) = receive_lem bytes q ok clean (omega (arith, room, long)) in
    let (q', e', left) =
      deserialize_lem pan_id s (receive bytes q) header elements valid' received in
    (p', q', e, rw (sent bytes (if crypto then tag_size else 0) p p' new w) e', left)
