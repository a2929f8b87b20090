-- ===== src/Manager/Examples.antt =====
-- The node 1 connects to the master, and the master's schedules have the stream.
use tdmh.Base.{
  ◌+◌, ◌≡◌, ◌≢◌, ◌↔◌, refl, nat_keyed, lookup, insert, erase, List, [], ◌∷◌, All, Option, none,
  some, true, false,
}
use tdmh.Stream.Params.{StreamId, get_key, id_keyed, is_server, StreamParameters}
use tdmh.Stream.Collection.{stream_reject}
use tdmh.Scheduler.Element.{ScheduleElement}
use tdmh.Wire.Schedule.{ScheduleHeader}
use tdmh.Stream.Wakeup.{StreamQueue}
use tdmh.Stream.Wakeup.Scheduler.{ScheduleWakeupData, WakeupScheduler, idle, curr_queue}
use tdmh.Endpoint.Machine.{connect_stream, rejected_stream, periodic_update}
use tdmh.Endpoint.{
  connecting, wait_for_opening, update_redundancy, Stream, status_of, returns, fails,
}
use tdmh.Manager.{
  a_stream, ManagerConfig, StreamManager, new_manager, new_stream, first_free, add_stream,
  remove_stream, emit, on_stream, enqueue_element,
}
use tdmh.Manager.Calls.{over, connect_call, connect_end}
use tdmh.Manager.Phases.{update_endpoints}
use tdmh.Manager.Schedule.{apply_info_elements, set_schedule, apply_schedule}
use tdmh.Manager.Consistent.{IsConsistent, new_manager-IsConsistent}
use tdmh.Manager.Consistent.Calls.{connect_call-IsConsistent}
use tdmh.Manager.Consistent.Runs.{
  Op, connects, has_connected, sets_schedule, applies_schedule, applies_info, writes, closes,
  updates, run_ops, run_ops-IsConsistent,
}
use tdmh.Manager.Removal.Returns.{apply_schedule_iff, set_schedule-apply_schedule}
use tdmh.Manager.Awaited.Opened.{is_scheduled}
use tdmh.Manager.Awaited.Connected.{set_schedule-connect_end}

abbrev config : ManagerConfig
config = record {
  my_id = 1;
  pan_id = 7;
  slots_in_tile = 16;
  data_slot_duration = 6;
  callbacks_execution_time = 0;
  wakeup_config = record {
    superframe_size = 2;
    tile_duration = 100;
    downlink_slot_duration = 20;
    to_local_time = λ t. t + 1;
  };
}

abbrev no_queue : StreamQueue
no_queue = record { index = 0; queue_size = 0; queue = []; time_increment = 0 }

abbrev no_data : ScheduleWakeupData
no_data = record {
  activation_tile = 0;
  activation_time = 0;
  schedule_duration = 0;
  schedule_tiles = 0;
  curr_wakeup_queue = no_queue;
  next_wakeup_queue = no_queue;
}

abbrev scheduler : WakeupScheduler
scheduler = record {
  state = idle;
  is_last_superframe = false;
  new_schedule_available = false;
  schedule_data = no_data;
  new_schedule_data = no_data;
  last_used_queue = curr_queue;
}

abbrev id : StreamId
id = record { src = 1; dst = 0; src_port = 0; dst_port = 2 }

abbrev params : StreamParameters
params = record { redundancy = 1; period = 3; payload_size = 10; direction = 0 }

abbrev element : ScheduleElement
element = record { id = id; params = params; tx = 1; rx = 0; offset = 9 }

abbrev header : ScheduleHeader
header = record {
  total_packet = 1;
  current_packet = 0;
  schedule_id = 1;
  activation_tile = 6;
  schedule_tiles = 10;
  repetition = 0;
}

-- The stream is connecting.
abbrev connected : StreamManager
connected = (connect_call config 0 2 params 0 (new_manager true scheduler)).0

connected-IsConsistent : IsConsistent connected
connected-IsConsistent =
    connect_call-IsConsistent config 0 2 params 0 (new_manager true scheduler)
      (new_manager-IsConsistent true scheduler)

abbrev the_stream : Stream
the_stream = new_stream config 1 (record { id = id; parameters = params; status = connecting })

connected_entry : lookup id connected.streams ≡ some 1
unfolding connect_call first_free new_manager add_stream on_stream emit lookup insert get_key
    enqueue_element connect_stream
connected_entry = refl

connected_object : lookup 1 connected.objects ≡ some (a_stream the_stream)
unfolding connect_call first_free new_manager add_stream on_stream emit lookup insert get_key
    enqueue_element connect_stream
connected_object = refl

found : is_scheduled config id (element ∷ []) ≡ true
unfolding is_scheduled get_key
found = refl

connects_status : status_of the_stream ≡ connecting
unfolding update_redundancy
connects_status = refl

set_schedule-connect_end_example :
    (m' : StreamManager) × (apply_schedule config
        (element ∷ [])
        (set_schedule config (element ∷ []) header connected)
      ≡ some m')
    × (connect_end 1 m' ≡ (m', returns 1))
set_schedule-connect_end_example =
    set_schedule-connect_end config (element ∷ []) header connected id 1 the_stream
      connected-IsConsistent connected_entry connected_object connects_status found

-- A schedule that leaves the stream out.
set_schedule-apply_schedule_example :
    (m' : StreamManager) × (apply_schedule config [] (set_schedule config [] header connected)
      ≡ some m')
    × IsConsistent m'
set_schedule-apply_schedule_example =
    set_schedule-apply_schedule config [] [] header connected connected-IsConsistent

-- The stream is connected, written, and closed by the application.
abbrev calls : List Op
calls =
    connects 0 2 params 0
    ∷ updates
    ∷ sets_schedule (element ∷ []) header
    ∷ applies_schedule (element ∷ [])
    ∷ has_connected 1
    ∷ writes 1 (8 ∷ 9 ∷ [])
    ∷ closes 1
    ∷ []

abbrev state_or : StreamManager → Option StreamManager → StreamManager
state_or m none = m
state_or m (some m') = m'

abbrev last : StreamManager
last = state_or connected (run_ops config calls (new_manager true scheduler))

calls_return : run_ops config calls (new_manager true scheduler) ≡ some last
unfolding run_ops apply_schedule set_schedule lookup update_endpoints connect_call new_manager
    on_stream add_stream insert emit connect_stream periodic_update new_stream wait_for_opening
    get_key
calls_return = refl

run_ops-IsConsistent_example : IsConsistent last
run_ops-IsConsistent_example = run_ops-IsConsistent config true scheduler calls last calls_return

-- The master rejects the stream after a schedule without it was set, so connect fails and removes
-- it; the schedule is applied to a stream that is not there.
removed_in_between :
    run_ops config
      (connects 0 2 params 0
        ∷ sets_schedule [] header
        ∷ applies_info (record { id = id; params = params; type = stream_reject } ∷ [])
        ∷ has_connected 1
        ∷ applies_schedule []
        ∷ [])
      (new_manager true scheduler)
    ≡ none
unfolding run_ops apply_schedule connect_end lookup erase apply_info_elements is_server set_schedule
    connect_call new_manager on_stream add_stream insert emit connect_stream get_key rejected_stream
    new_stream remove_stream
removed_in_between = refl

-- A connect whose wakeup advance is too large fails, and leaves a stream that is connecting.
too_early_a_wakeup :
    let (m, result) = connect_call config 0 2 params 96 (new_manager true scheduler) in
    (result ≡ over (fails 2)) × (lookup id m.streams ≡ some 1)
unfolding connect_call first_free new_manager add_stream lookup insert get_key
too_early_a_wakeup = (refl, refl)

apply_schedule_iff_example :
    let m = record connected { streams_to_remove = id ∷ [] } in
    ((m' : StreamManager) × (apply_schedule config [] m ≡ some m'))
    ↔ All (λ j. lookup j m.streams ≢ none) (id ∷ [])
apply_schedule_iff_example =
    apply_schedule_iff config [] (record connected { streams_to_remove = id ∷ [] }) (tt, tt)
