-- ===== src/Scheduler/Reschedule/Examples.antt =====
-- A stream from node 0 to its neighbour 1, established, and the server that it is for.
use tdmh.Base.{
  ℕ, suc, ◌≡◌, ◌≢◌, ◌↔◌, refl, ◌∙◌, nat_keyed, link_keyed, lookup, erase, [], ◌∷◌, none, some, Bool,
  true, false, ◌==◌, ◌||◌, ltb, if◌then◌else◌, arith, select_from, elem-select_from,
}
use tdmh.Queue.{new_queue}
use tdmh.Topology.Snapshot.{Snapshot, IsNetwork}
use tdmh.Stream.Params.{
  StreamId, IsInFields, get_key, id_keyed, is_server, is_stream, period_tiles, MasterStreamInfo,
  accepted, established, listen,
}
use tdmh.Stream.Collection.{
  StreamManagementElement, closed, StreamCollection, dispatch, update_stream,
}
use tdmh.Stream.Collection.Lifecycle.{status_of}
use tdmh.Stream.Collection.Receive.{IsWellFormed}
use tdmh.Stream.Changes.{get_snapshot, get_streams_with_status}
use tdmh.Stream.Changes.Found.{in_schedule}
use tdmh.Scheduler.Lcm.{lcm}
use tdmh.Scheduler.Element.{single_hop_element, set_offset, period_of}
use tdmh.Scheduler.Slots.{Config, check_data_slot, is_control_downlink, is_control_uplink}
use tdmh.Scheduler.Conflicts.{check_all_conflicts}
use tdmh.Scheduler.Allocate.{place, try_offset, find_offset, schedule_streams}
use tdmh.Scheduler.Router.Run.{run, route_stream, route_single}
use tdmh.Scheduler.Reschedule.{
  Schedule, Loop, round, route_and_schedule, schedule_established, new_schedule, reschedule,
}
use tdmh.Scheduler.Reschedule.Returns.{Round, round-Round}
use tdmh.Scheduler.Reschedule.Kept.{Settles, IsDifferent, reschedule-settled, reschedule-dropped}

abbrev adjacent : ℕ → ℕ → Bool
adjacent x y = suc x == y || suc y == x

abbrev graph : Snapshot
graph = record {
  max_nodes = 8;
  has_node = λ x. ltb x 4;
  has_edge = adjacent;
  get_edges = λ x. select_from 0 8 (adjacent x);
}

abbrev config : Config
config = record {
  channel_spatial_reuse = true;
  use_weak_topologies = false;
  slots_per_tile = 4;
  reserved_slots_downlink = 1;
  reserved_slots_uplink = 2;
  superframe = record { bitmask = 1; size = 2 };
  has_edge = adjacent;
  has_weak_edge = adjacent;
}

abbrev stream : MasterStreamInfo
stream = record {
  id = record { src = 0; dst = 1; src_port = 1; dst_port = 1 };
  parameters = record { redundancy = 0; period = 1; payload_size = 10; direction = 0 };
  status = established;
}

abbrev server : MasterStreamInfo
server = record {
  id = record { src = 1; dst = 1; src_port = 0; dst_port = 1 };
  parameters = record { redundancy = 0; period = 1; payload_size = 10; direction = 0 };
  status = listen;
}

abbrev streams : StreamCollection
streams = record {
  collection = (server.id, server) ∷ (stream.id, stream) ∷ [];
  info_queue = new_queue;
  modified_flag = false;
  removed_flag = false;
  added_flag = false;
  resend_flag = false;
}

stream-IsInFields : IsInFields stream.id
stream-IsInFields = record {
  src_lt = omega arith;
  dst_lt = omega arith;
  src_port_lt = omega arith;
  dst_port_lt = omega arith;
}

server-IsInFields : IsInFields server.id
server-IsInFields = record {
  src_lt = omega arith;
  dst_lt = omega arith;
  src_port_lt = omega arith;
  dst_port_lt = omega arith;
}

streams-IsWellFormed : IsWellFormed streams
unfolding get_key is_server
streams-IsWellFormed = record {
  streams = record {
    ordered = (omega arith, (omega arith, tt));
    entries = (
      (server-IsInFields, refl, (λ h. refl, λ h. refl)),
      ((stream-IsInFields, refl, (λ h. absurd (cc h), λ h. absurd (cc h))), tt),
    );
  };
  flags = refl;
}

-- The schedule in use has the stream in slot 3; a new one has it in slot 1.
abbrev schedule_at : ℕ → ℕ → Schedule
schedule_at id offset = record {
  schedule =
      record { id = stream.id; params = stream.parameters; tx = 0; rx = 1; offset = offset } ∷ [];
  id = id;
  tiles = 2;
  links = [];
}

computed :
    new_schedule config graph 5 true (get_snapshot streams).0 (schedule_at 7 3)
    ≡ some (schedule_at 8 1)
unfolding new_schedule schedule_established route_and_schedule get_streams_with_status get_snapshot
    run route_stream schedule_streams route_single single_hop_element place period_of period_tiles
    check_data_slot is_control_downlink is_control_uplink try_offset check_all_conflicts set_offset
    find_offset lcm
computed = refl

-- The stream is closed while the schedule is computed.
abbrev closing : StreamManagementElement
closing = record { id = stream.id; parameters = stream.parameters; type = closed }

abbrev close_it : StreamCollection → StreamCollection
close_it = dispatch closing

reschedule-settled_example :
    (changed : Bool) × (s' : StreamCollection) × (reschedule config graph 5 true close_it
        (schedule_at 7 3)
        streams
      ≡ some (changed, (if changed then schedule_at 8 1 else schedule_at 7 3), s'))
    × ((j : StreamId)
        → IsInFields j
        → Settles
            (in_schedule j (schedule_at 8 1).schedule)
            (lookup j streams.collection)
            (lookup j (close_it (get_snapshot streams).1).collection)
            (lookup j s'.collection))
    × ((changed ≡ true) ↔ IsDifferent (schedule_at 8 1) streams)
reschedule-settled_example =
    reschedule-settled config graph 5 true close_it (schedule_at 7 3) (schedule_at 8 1) streams
      streams-IsWellFormed (stream-IsInFields, tt) refl computed

-- It is gone then, and stays gone.
closed_meanwhile : lookup stream.id (close_it (get_snapshot streams).1).collection ≡ none
unfolding lookup erase dispatch update_stream is_stream get_snapshot get_key
closed_meanwhile = refl

all_scheduled :
    (j : StreamId)
    → IsInFields j
    → (status_of (lookup j streams.collection) ≢ some accepted)
      × (status_of (lookup j streams.collection) ≡ some established
          → in_schedule j (schedule_at 8 1).schedule ≡ true)
unfolding lookup
all_scheduled j h = (λ e. ground arith, λ e. ground arith)

reschedule-dropped_example :
    (s' : StreamCollection) × (reschedule config graph 5 true close_it (schedule_at 7 3) streams
      ≡ some (false, schedule_at 7 3, s'))
reschedule-dropped_example =
    reschedule-dropped config graph 5 true close_it (schedule_at 7 3) (schedule_at 8 1) streams
      streams-IsWellFormed (stream-IsInFields, tt) computed all_scheduled

graph-IsNetwork : IsNetwork graph
graph-IsNetwork = record {
  symmetric = λ x y hx hy. ground arith;
  listed = λ x y. elem-select_from 0 8 y (adjacent x) ∙ ground arith;
  node_lt = λ x e. ground arith;
}

no_loops : (x : ℕ) → graph.has_edge x x ≡ false
no_loops x = ground arith

abbrev loop : Loop
loop = record {
  current = schedule_at 7 3;
  streams = streams;
  rekeying_ctr = 2;
  schedule_not_applied = false;
}

round-Round_example :
    (l' : Loop) × (round config graph 5 100 true true (λ s. s) close_it loop ≡ some l')
    × Round config graph graph-IsNetwork no_loops 5 100 true loop l'
round-Round_example =
    round-Round config graph graph-IsNetwork no_loops 5 100 true true (λ s. s) close_it loop
      (omega arith)
