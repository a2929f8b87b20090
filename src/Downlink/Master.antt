-- ===== src/Downlink/Master.antt =====
-- master_schedule_distribution.h and .cpp: the side of the master, which sends each packet of a
-- schedule four times and then activates it. The packets' bytes and their protection are those of
-- the modules on packets.
pub mod Rounds
use tdmh.Base.{
  ℕ, zero, suc, ◌+◌, ◌-◌, ◌*◌, ◌/◌, ◌%◌, ◌^◌, max, List, [], ◌∷◌, ◌++◌, length, take, map,
  get_elem?, Option, none, some, Bool, true, false, ◌||◌, ◌==◌, ltb, leb, elem, if◌then◌else◌,
}
use tdmh.Stream.Params.{get_key}
use tdmh.Scheduler.Element.{ScheduleElement}
use tdmh.Wire.Schedule.{
  ScheduleHeader, DownlinkElement, schedule, SchedulePacket, get_packet_capacity,
  increment_packet_counter, increment_repetition,
}
use tdmh.Downlink.{
  Status, applied_schedule, sending_schedule, incomplete_schedule, processing, awaiting_activation,
  schedule_repetitions, Event, streams_continue_rekeying, streams_apply_infos, expander_start,
  expander_continue, scheduler_sent_and_applied, radio_send, set_new_schedule, apply_new_schedule,
}
use tdmh.Downlink.Activation.{Timing, get_num_timesyncs, get_activation_tile}

pub record Config : Type 0 where
  pub timing : Timing
  pub max_nodes : ℕ
  pub do_master_challenge : Bool
  pub hashes_per_slot : ℕ
  pub expansions_per_slot : ℕ

pub record Master : Type 0 where
  pub status : Status
  pub header : ScheduleHeader
  pub schedule : List ScheduleElement
  pub sending_rounds : ℕ
  pub current_sending_round : ℕ
  pub position : ℕ
  pub rekeying_slots : ℕ
  pub expansion_slots : ℕ
  pub total_advance_slots : ℕ
  pub processing_slot_ctr : ℕ
  pub log : List Event

-- What the master finds in a slot: its tile, the schedule that the scheduler has computed and
-- whether it has to be sent, the info elements that wait in the stream collection, oldest first,
-- and the challenges that the key manager has solved.
pub record Slot : Type 0 where
  pub current_tile : ℕ
  pub need_to_send_schedule : Bool
  pub computed : List ScheduleElement
  pub computed_id : ℕ
  pub computed_tiles : ℕ
  pub infos : List DownlinkElement
  pub challenges_present : Bool
  pub responses : List DownlinkElement

unfoldable pub packet_capacity : ℕ
unfolding get_packet_capacity
packet_capacity = get_packet_capacity true

abbrev pub emit : List Event → Master → Master
emit events m = record m { log = m.log ++ events }

abbrev pub align : ℕ → ℕ → ℕ
align value boundary = (value + boundary - 1) / boundary * boundary

abbrev pub sub_u32 : ℕ → ℕ → ℕ
sub_u32 a b = (a + 2 ^ 32 - b % 2 ^ 32) % 2 ^ 32

-- getNumDownlinksForProcessing counts the streams of each node, by either end.
unfoldable pub count_streams : List ScheduleElement → List ℕ → ℕ → ℕ
count_streams [] seen node = 0
count_streams (e ∷ es) seen node =
    if elem (get_key e.id) seen
    then count_streams es seen node
    else (if e.id.src == node then 1 else 0)
      + (if e.id.dst == node then 1 else 0)
      + count_streams es (get_key e.id ∷ seen) node

unfoldable pub max_streams : List ScheduleElement → ℕ → ℕ
max_streams es zero = 1
max_streams es (suc nodes) = max (count_streams es [] nodes) (max_streams es nodes)

unfoldable pub plan_processing : Config → Master → Master
plan_processing c m =
    let streams = max_streams m.schedule c.max_nodes in
    let rekeying = align streams c.hashes_per_slot / c.hashes_per_slot % 256 in
    let expansion = align streams c.expansions_per_slot / c.expansions_per_slot % 256 in
    record m {
      rekeying_slots = rekeying;
      expansion_slots = expansion;
      total_advance_slots = (1 + rekeying + expansion) % 256;
      processing_slot_ctr = 0;
    }

-- The header's fields have 16 and 32 bits.
abbrev pub new_header : ℕ → ℕ → ℕ → ℕ → ScheduleHeader
new_header packets id activation_tile tiles = record {
  total_packet = packets % 2 ^ 16;
  current_packet = 0;
  schedule_id = id % 2 ^ 32;
  activation_tile = activation_tile % 2 ^ 32;
  schedule_tiles = tiles % 2 ^ 16;
  repetition = 0;
}

-- The activation is put off to the end of the schedule in use, and not to a tile with a clock
-- synchronization.
abbrev pub align_activation : Timing → ScheduleHeader → ℕ → ℕ
align_activation t last tile =
    if ltb 0 last.schedule_tiles
    then (let aligned =
          last.activation_tile + align (sub_u32 tile last.activation_tile) last.schedule_tiles in
        if get_num_timesyncs t (aligned + 1) == get_num_timesyncs t aligned
        then aligned
        else aligned + last.schedule_tiles)
    else tile

abbrev pub num_packets : List ScheduleElement → ℕ
num_packets es = max 1 ((length es + packet_capacity - 1) / packet_capacity)

abbrev pub begin_sending : Config → Slot → Master → Option ℕ → Option Master
begin_sending c s m none = none
begin_sending c s m (some tile) =
    let packets = num_packets s.computed in
    some (record m {
      schedule = s.computed;
      sending_rounds = packets * schedule_repetitions;
      current_sending_round = 0;
      header =
          new_header packets s.computed_id (align_activation c.timing m.header tile)
            s.computed_tiles;
      position = 0;
    })

unfoldable pub get_schedule_and_compute_activation : Config → Slot → Master → Option Master
unfolding get_num_timesyncs
get_schedule_and_compute_activation c s m =
    begin_sending c s m
      (get_activation_tile c.timing s.current_tile (num_packets s.computed) m.total_advance_slots)

-- The loop that puts elements into a packet, and the position after it.
pub fill : ℕ → ℕ → List ScheduleElement → List ScheduleElement × ℕ
fill zero position es = ([], position)
fill (suc room) position es = elim (get_elem? es position) [
  | none ↦ ([], position)
  | some e ↦ let (rest, position') = fill room (suc position) es in (e ∷ rest, position')
]

unfoldable pub send_schedule_pkt : Slot → Master → Master
send_schedule_pkt s m =
    let (elements, position) = fill packet_capacity m.position m.schedule in
    let infos = take (packet_capacity - length elements) s.infos in
    let packet : SchedulePacket = record {
      header = m.header;
      elements = map schedule elements ++ infos;
    } in
    emit (radio_send packet ∷ streams_apply_infos infos ∷ []) (record m { position = position })

-- It throws if the responses alone are too many for a packet.
unfoldable pub send_info_pkt : Config → Slot → Master → Option Master
send_info_pkt c s m =
    let responses = if c.do_master_challenge then s.responses else [] in
    let infos = take (sub_u32 packet_capacity (length responses)) s.infos in
    let packet : SchedulePacket = record {
      header = new_header 0 m.header.schedule_id 0 0;
      elements = responses ++ infos;
    } in
    if ltb packet_capacity (length responses + length infos)
    then none
    else some (emit (radio_send packet ∷ streams_apply_infos infos ∷ []) m)

abbrev pub info_elements_ready : Slot → Bool
info_elements_ready s = ltb 0 (length s.infos) || s.challenges_present

-- A packet's counter starts again after the last one.
abbrev pub next_packet : Master → Master
next_packet m =
    let header = increment_packet_counter m.header in
    if leb header.total_packet header.current_packet
    then record m {
      position = 0;
      header = increment_repetition (record header { current_packet = 0 });
    }
    else record m { header = header }

abbrev pub activate : Master → Master
activate m =
    emit
      (apply_new_schedule (map schedule m.schedule) m.header ++ (scheduler_sent_and_applied ∷ []))
      (record m { status = applied_schedule })

abbrev pub process : Master → Master
process m =
    let ctr = (m.processing_slot_ctr + 1) % 256 in
    let m₁ = emit (streams_continue_rekeying ∷ []) (record m { processing_slot_ctr = ctr }) in
    let elements = map schedule m.schedule in
    let m₂ =
      if ctr == m.rekeying_slots then emit (expander_start elements m.header ∷ []) m₁ else m₁ in
    if leb m.rekeying_slots ctr
    then if leb (m.rekeying_slots + m.expansion_slots) ctr
      then record m₂ { status = awaiting_activation }
      else emit (expander_continue elements ∷ []) m₂
    else m₁

abbrev pub then_sending : Option Master → Option Master
then_sending none = none
then_sending (some m) = some (record m { status = sending_schedule })

abbrev pub next_round : Master → Master
next_round m = record m { current_sending_round = m.current_sending_round + 1 }

abbrev pub execute_by : Status → Config → Slot → Master → Option Master
execute_by applied_schedule c s m =
    if s.need_to_send_schedule
    then then_sending (get_schedule_and_compute_activation c s (plan_processing c m))
    else if info_elements_ready s
    then send_info_pkt c s m
    else some m
execute_by sending_schedule c s m =
    if leb m.sending_rounds m.current_sending_round
    then some (
        next_round (
          emit (set_new_schedule (map schedule m.schedule) m.header)
            (record m { status = processing })))
    else some (next_round (next_packet (send_schedule_pkt s m)))
execute_by processing c s m =
    if leb m.header.activation_tile s.current_tile then some (activate m) else some (process m)
execute_by awaiting_activation c s m =
    if leb m.header.activation_tile s.current_tile
    then some (activate m)
    else if info_elements_ready s
    then send_info_pkt c s m
    else some m
execute_by incomplete_schedule c s m = none

unfoldable pub execute : Config → Slot → Master → Option Master
unfolding send_schedule_pkt get_schedule_and_compute_activation plan_processing send_info_pkt
    increment_packet_counter increment_repetition
execute c s m = execute_by m.status c s m

-- getNextActivationTile.
unfoldable pub get_next_activation_tile : Master → ℕ
get_next_activation_tile m = elim m.status [
  | applied_schedule ↦ 0
  | other ↦ m.header.activation_tile
]
