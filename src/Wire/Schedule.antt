-- ===== src/Wire/Schedule.antt =====
-- scheduler/schedule_element.h and .cpp: the header and the elements of a schedule packet, and the
-- packet itself.
pub mod Elements
pub mod RoundTrip
mod Examples
use tdmh.Base.{
  ℕ, zero, suc, ◌+◌, ◌-◌, ◌*◌, ◌/◌, ◌%◌, ◌^◌, List, [], ◌∷◌, ◌++◌, length, take, drop, get_or,
  Option, none, some, Bool, true, false, ◌==◌, if◌then◌else◌,
}
use tdmh.Packet.{
  Packet, Writer, Reader, ◌>>◌, ◌>>=◌, pure, lift, fail, max_pkt_size, pan_header_size, tag_size,
  put, get, discard, size, byte_at, put_pan_header, remove_pan_header,
}
use tdmh.Packet.Codec.{le_bytes, from_le}
use tdmh.Stream.Params.{StreamId, StreamParameters}
use tdmh.Stream.Collection.{InfoType, server_opened, server_closed, stream_reject}
use tdmh.Scheduler.Element.{ScheduleElement}
use tdmh.Wire.Fields.{id_bytes, write_id, read_id, write_params, read_params}

pub record ScheduleHeader : Type 0 where
  pub total_packet : ℕ
  pub current_packet : ℕ
  pub schedule_id : ℕ
  pub activation_tile : ℕ
  pub schedule_tiles : ℕ
  pub repetition : ℕ

unfoldable pub increment_packet_counter : ScheduleHeader → ScheduleHeader
increment_packet_counter h = record h { current_packet = (h.current_packet + 1) % 2 ^ 16 }

unfoldable pub increment_repetition : ScheduleHeader → ScheduleHeader
increment_repetition h = record h { repetition = (h.repetition + 1) % 256 }

abbrev pub header_bytes : ScheduleHeader → List ℕ
header_bytes h =
    le_bytes 2 h.total_packet
    ++ (le_bytes 2 h.current_packet
        ++ (le_bytes 4 h.schedule_id
            ++ (le_bytes 4 h.activation_tile
                ++ (le_bytes 2 h.schedule_tiles ++ le_bytes 1 h.repetition))))

abbrev pub header_of : List ℕ → ScheduleHeader
header_of bytes = record {
  total_packet = from_le (take 2 bytes);
  current_packet = from_le (take 2 (drop 2 bytes));
  schedule_id = from_le (take 4 (drop 4 bytes));
  activation_tile = from_le (take 4 (drop 8 bytes));
  schedule_tiles = from_le (take 2 (drop 12 bytes));
  repetition = from_le (take 1 (drop 14 bytes));
}

unfoldable pub write_header : ScheduleHeader → Writer
write_header h = put (header_bytes h)

unfoldable pub read_header : Reader ScheduleHeader
read_header = do bytes ← get 15; pure (header_of bytes)

-- A downlink element, by its type: an info element holds its message in the offset.
pub data DownlinkElement : Type 0 where
  schedule info : ScheduleElement → DownlinkElement
  response : ℕ → List ℕ → DownlinkElement

unfoldable pub info_message : InfoType → ℕ
info_message server_opened = 0
info_message server_closed = 1
info_message stream_reject = 2

-- The constructor of an InfoElement from a stream and a message.
unfoldable pub info_element : StreamId → InfoType → DownlinkElement
unfolding info_message
info_element s type = info (record {
  id = s;
  params = record { redundancy = 0; period = 0; payload_size = 0; direction = 0 };
  tx = 0;
  rx = 0;
  offset = info_message type;
})

-- ScheduleElementPkt, with its type.
abbrev pub content_bytes : ScheduleElement → ℕ → List ℕ
content_bytes e type = e.tx ∷ e.rx ∷ le_bytes 3 (e.offset + type * 2 ^ 20)

abbrev pub write_fields : ScheduleElement → ℕ → Writer
write_fields e type = write_id e.id >> write_params e.params >> put (content_bytes e type)

unfoldable pub write_element : DownlinkElement → Writer
write_element (schedule e) = write_fields e 0
write_element (info e) = write_fields e 1
write_element (response node bytes) = put (node ∷ []) >> put bytes >> put ((2 * 16) ∷ [])

abbrev pub element_of : StreamId → StreamParameters → List ℕ → ScheduleElement
element_of s c bytes = record {
  id = s;
  params = c;
  tx = get_or bytes 0 0;
  rx = get_or bytes 1 0;
  offset = from_le (drop 2 bytes) % 2 ^ 20;
}

unfoldable pub read_content : StreamId → StreamParameters → Reader ScheduleElement
read_content s c = do bytes ← get 5; pure (element_of s c bytes)

abbrev pub read_fields : Reader ScheduleElement
read_fields = read_id >>= λ s. read_params >>= λ c. read_content s c

abbrev pub read_response : Reader DownlinkElement
read_response = get 1 >>= λ node.
    get 8 >>= λ bytes. lift (discard 1) >>= λ _. pure (response (get_or node 0 0) bytes)

abbrev pub read_as : ℕ → Reader DownlinkElement
read_as type =
    if type == 0
    then read_fields >>= (λ e. pure (schedule e))
    else if type == 1
    then read_fields >>= (λ e. pure (info e))
    else if type == 2
    then read_response
    else fail

-- The type is in the high half of the last byte, which is looked at first.
unfoldable pub read_element : Reader DownlinkElement
read_element p = elim (byte_at p 9) [ none ↦ none | some byte ↦ read_as (byte / 16) p ]

pub record SchedulePacket : Type 0 where
  pub header : ScheduleHeader
  pub elements : List DownlinkElement

unfoldable pub write_elements : List DownlinkElement → Writer
write_elements [] = some
write_elements (e ∷ more) = write_element e >> write_elements more

unfoldable pub serialize : ℕ → SchedulePacket → Writer
serialize pan_id s = put_pan_header pan_id >> write_header s.header >> write_elements s.elements

unfoldable pub read_elements : ℕ → Reader (List DownlinkElement)
read_elements zero = pure []
read_elements (suc count) = read_element >>= λ e. read_elements count >>= λ more. pure (e ∷ more)

abbrev pub element_size : ℕ
element_size = 10

unfoldable pub deserialize : Reader SchedulePacket
deserialize = lift remove_pan_header >>= λ _. read_header >>= λ h.
    (λ p. read_elements (size p / element_size) p) >>= λ elements.
    pure (record { header = h; elements = elements })

-- With cryptography compiled in there is room for the tag.
unfoldable pub get_packet_capacity : Bool → ℕ
get_packet_capacity crypto =
    if crypto
    then (max_pkt_size - (tag_size + pan_header_size + 15)) / element_size
    else (max_pkt_size - (pan_header_size + 15)) / element_size
