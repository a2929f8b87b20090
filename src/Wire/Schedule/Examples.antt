-- ===== src/Wire/Schedule/Examples.antt =====
-- A schedule packet with an element of each type.
use tdmh.Base.{◌≡◌, ◌≤◌, refl, [], ◌∷◌, take, some, true, arith}
use tdmh.Packet.{Packet, receive}
use tdmh.Packet.View.{IsPacket, IsNew, content, new_packet}
use tdmh.Stream.Params.{StreamId, IsInFields}
use tdmh.Stream.Collection.{server_closed}
use tdmh.Scheduler.Element.{ScheduleElement}
use tdmh.Wire.Schedule.{
  ScheduleHeader, SchedulePacket, schedule, info_element, info_message, response, serialize,
  deserialize, get_packet_capacity, increment_repetition, increment_packet_counter,
}
use tdmh.Wire.Schedule.Elements.{IsHeader, IsElement}
use tdmh.Wire.Schedule.RoundTrip.{deserialize-serialize}

abbrev id : StreamId
id = record { src = 3; dst = 9; src_port = 1; dst_port = 15 }

abbrev hop : ScheduleElement
hop = record {
  id = id;
  params = record { redundancy = 4; period = 5; payload_size = 100; direction = 1 };
  tx = 3;
  rx = 7;
  offset = 1048575;
}

-- The header goes to its second repetition, and to its second packet.
abbrev header : ScheduleHeader
header = record {
  total_packet = 2;
  current_packet = 1;
  schedule_id = 70000;
  activation_tile = 123456789;
  schedule_tiles = 32;
  repetition = 255;
}

incremented :
    increment_repetition (increment_packet_counter header)
    ≡ record header { current_packet = 2; repetition = 0 }
unfolding increment_repetition increment_packet_counter
incremented = refl

abbrev packet : SchedulePacket
unfolding info_element
packet = record {
  header = header;
  elements =
      schedule hop
      ∷ info_element id server_closed
      ∷ response 9 (1 ∷ 2 ∷ 3 ∷ 4 ∷ 5 ∷ 6 ∷ 7 ∷ 8 ∷ [])
      ∷ [];
}

header-IsHeader : IsHeader header
header-IsHeader = record {
  total_packet_lt = omega arith;
  current_packet_lt = omega arith;
  schedule_id_lt = omega arith;
  activation_tile_lt = omega arith;
  schedule_tiles_lt = omega arith;
  repetition_lt = omega arith;
}

id-IsInFields : IsInFields id
id-IsInFields = ground arith

hop-IsElement : IsElement (schedule hop)
hop-IsElement = record {
  stream = id-IsInFields;
  params = record {
    redundancy_lt = omega arith;
    period_lt = omega arith;
    payload_size_lt = omega arith;
    direction_lt = omega arith;
  };
  tx_lt = omega arith;
  rx_lt = omega arith;
  offset_lt = omega arith;
}

info-IsElement : IsElement (info_element id server_closed)
unfolding info_element info_message
info-IsElement = record {
  stream = id-IsInFields;
  params = record {
    redundancy_lt = omega arith;
    period_lt = omega arith;
    payload_size_lt = omega arith;
    direction_lt = omega arith;
  };
  tx_lt = omega arith;
  rx_lt = omega arith;
  offset_lt = omega arith;
}

empty_packet : IsNew 16 (new_packet 16)
empty_packet = record { array = refl; empty = refl; start = refl; room = refl }

new-IsPacket : IsPacket (new_packet 0)
new-IsPacket = record { array = refl; ordered = omega arith; room = omega arith }

fits : 3 ≤ get_packet_capacity true
unfolding get_packet_capacity
fits = omega arith

deserialize-serialize_example :
    (p' : Packet) × (q' : Packet) × (serialize 1 packet (new_packet 16) ≡ some p')
    × (deserialize (receive (take p'.data_size p'.packet) (new_packet 0)) ≡ some (packet, q'))
    × (content q' ≡ [])
unfolding packet
deserialize-serialize_example =
    deserialize-serialize true 1 packet (new_packet 16) (new_packet 0) header-IsHeader
      (hop-IsElement, (info-IsElement, (refl, tt))) fits empty_packet new-IsPacket refl
