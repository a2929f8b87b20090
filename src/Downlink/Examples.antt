-- ===== src/Downlink/Examples.antt =====
-- A schedule of nine transmissions, in two packets, and a node that hears some of them.
use tdmh.Base.{ℕ, zero, suc, ◌*◌, ◌≡◌, refl, List, [], ◌∷◌, none, some, Bool, true, false, arith}
use tdmh.Stream.Params.{get_key}
use tdmh.Scheduler.Slots.{is_control_downlink, is_control_uplink}
use tdmh.Scheduler.Element.{ScheduleElement}
use tdmh.Wire.Schedule.{
  ScheduleHeader, DownlinkElement, info_element, info_message, get_packet_capacity,
}
use tdmh.Stream.Collection.{server_opened}
use tdmh.Downlink.{applied_schedule, sending_schedule, processing}
use tdmh.Downlink.Activation.{
  Timing, count_uplink_from, find_activation, use_tiles, count_downlink_slots, get_num_timesyncs,
  get_activation_tile,
}
use tdmh.Downlink.Master.{
  Master, packet_capacity, num_packets, plan_processing, max_streams, count_streams,
}
use tdmh.Downlink.Master.Rounds.{Sending}
use tdmh.Downlink.Node.{Node, is_info}
use tdmh.Downlink.Node.Hears.{packet_at}
use tdmh.Downlink.Node.Hears.Late.{Misjudged, listens_for, execute-late}
use tdmh.Downlink.Node.Run.{
  execute, empty_header, desync, advance, force_schedule_activation, get_next_activation_tile,
  set_empty_schedule, handle_activation_and_rekeying,
}
use tdmh.Downlink.Network.{Round, net_run, plan_of}
use tdmh.Downlink.Network.Delivered.{Outcome, net_run-delivers}

abbrev hops : ℕ → List ScheduleElement
hops zero = []
hops (suc n) =
    record {
      id = record { src = n; dst = 20; src_port = 0; dst_port = 1 };
      params = record { redundancy = 0; period = 1; payload_size = 10; direction = 0 };
      tx = n;
      rx = 20;
      offset = n * 3;
    }
    ∷ hops n

abbrev header : ScheduleHeader
header = record {
  total_packet = 2;
  current_packet = 0;
  schedule_id = 7;
  activation_tile = 40;
  schedule_tiles = 4;
  repetition = 0;
}

abbrev timing : Timing
timing = record { superframe = record { bitmask = 1; size = 2 }; superframes_per_clock_sync = 50 }

-- Eleven more downlinks, one in two tiles.
activation : get_activation_tile timing 4 2 3 ≡ some 28
unfolding get_activation_tile find_activation use_tiles count_uplink_from count_downlink_slots
    get_num_timesyncs is_control_downlink is_control_uplink
activation = refl

abbrev master_config : tdmh.Downlink.Master.Config
master_config = record {
  timing = timing;
  max_nodes = 32;
  do_master_challenge = true;
  hashes_per_slot = 2;
  expansions_per_slot = 100;
}

abbrev master : Master
master = record {
  status = sending_schedule;
  header = header;
  schedule = hops 9;
  sending_rounds = 8;
  current_sending_round = 0;
  position = 0;
  rekeying_slots = 1;
  expansion_slots = 1;
  total_advance_slots = 3;
  processing_slot_ctr = 0;
  log = [];
}

-- Node 20 has nine streams, which are five slots of rekeying.
planned :
    plan_processing master_config master
    ≡ record master { rekeying_slots = 5; expansion_slots = 1; total_advance_slots = 7 }
unfolding plan_processing max_streams count_streams get_key
planned = refl

master-Sending : Sending (plan_of header (hops 9)) (hops 9) 0 0 master
unfolding packet_capacity get_packet_capacity
master-Sending = record {
  pieces = refl;
  sending = refl;
  header = refl;
  content = refl;
  position = refl;
  round = refl;
  rounds = refl;
}

abbrev node_config : tdmh.Downlink.Node.Config
node_config = record { my_id = 3; max_nodes = 32; do_master_challenge = true; stale_id = 0 }

abbrev node : Node
node = record {
  status = applied_schedule;
  header = empty_header;
  schedule = [];
  received = [];
  incomplete_schedule_counter = 0;
  last_schedule_id = 6;
  current_schedule_id = 6;
  next_activation_tile = 0;
  need_to_start_expansion = false;
  need_to_perform_expansion = false;
  sending_rounds = 0;
  current_sending_round = 0;
  log = [];
}

abbrev infos : List DownlinkElement
unfolding info_element info_message
infos = info_element (record { src = 1; dst = 2; src_port = 3; dst_port = 4 }) server_opened ∷ []

abbrev node_slot : tdmh.Downlink.Node.Slot
node_slot = record { current_tile = 9; packet = none; rekeying_left = true; expansion_left = true }

abbrev one_round : Bool → Round
unfolding infos
one_round heard = record {
  master = record {
    current_tile = 9;
    need_to_send_schedule = false;
    computed = [];
    computed_id = 0;
    computed_tiles = 0;
    infos = infos;
    challenges_present = false;
    responses = [];
  };
  node = node_slot;
  heard = heard;
}

abbrev later : List Round
unfolding one_round
later =
    one_round false
    ∷ one_round false
    ∷ one_round false
    ∷ one_round true
    ∷ one_round true
    ∷ one_round false
    ∷ []

two : num_packets (hops 9) ≡ 2
unfolding packet_capacity get_packet_capacity
two = refl

net_run-delivers_example :
    (m' : Master) × (n' : Node) × (net_run master_config node_config
        (one_round false ∷ one_round true ∷ later)
        (master, node)
      ≡ some (m', n'))
    × Outcome header (hops 9) (one_round false ∷ one_round true ∷ later) n'
unfolding one_round later infos info_element info_message packet_capacity get_packet_capacity
net_run-delivers_example =
    net_run-delivers master_config node_config header (hops 9) master node (one_round false ∷ [])
      (one_round true) later (omega arith) master-Sending refl (refl, tt) (omega arith) refl
      (
        (refl, tt),
        (
          (refl, tt),
          ((refl, tt), ((refl, tt), ((refl, tt), ((refl, tt), ((refl, tt), ((refl, tt), tt)))))),
        ),
      )
      refl

-- The first packet of the third repetition comes with three more to come, and the node listens
-- to none of those.
execute-late_example :
    (n' : Node) × (execute node_config
        (record node_slot { packet = some (packet_at (plan_of header (hops 9)) 2 0 []) })
        node
      ≡ some n')
    × Misjudged (num_packets (hops 9)) 2 0 (listens_for n')
unfolding packet_capacity get_packet_capacity
execute-late_example =
    execute-late node_config (plan_of header (hops 9)) 2 0 []
      (record node_slot { packet = some (packet_at (plan_of header (hops 9)) 2 0 []) }) node refl
      (omega arith) (omega arith) tt refl

-- `desync` forgets the schedule, and `forceScheduleActivation` waits for a tile without one.
forgotten : get_next_activation_tile (desync (force_schedule_activation 50 node)) ≡ 0
unfolding get_next_activation_tile desync force_schedule_activation
forgotten = refl

forced : get_next_activation_tile (force_schedule_activation 50 node) ≡ 50
unfolding get_next_activation_tile force_schedule_activation set_empty_schedule
forced = refl

-- In the tile that it was forced to wait for, the node has no schedule to use.
activated :
    (advance (record node_slot { current_tile = 50 }) (force_schedule_activation 50 node)).status
    ≡ applied_schedule
unfolding advance force_schedule_activation set_empty_schedule handle_activation_and_rekeying
activated = refl
