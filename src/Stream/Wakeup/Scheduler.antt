-- ===== src/Stream/Wakeup/Scheduler.antt =====
-- stream_wakeup_scheduler.h and .cpp: the thread that sleeps until the next wakeup of a stream or
-- the end of a downlink slot. The current tile is an input of each iteration, and so is what other
-- threads call while it sleeps. Times of tiles are in 64 bits, and do not wrap.
mod Thread
mod Active
mod InTime
mod Runs
mod Examples
use tdmh.Base.{
  ℕ, zero, suc, ◌+◌, ◌-◌, ◌*◌, ◌/◌, ◌%◌, List, [], ◌∷◌, Bool, true, false, not, ◌&&◌, ◌==◌, ltb,
  leb, if◌then◌else◌,
}
use tdmh.Stream.Params.{StreamId, get_key}
use tdmh.Wire.Schedule.{ScheduleHeader}
use tdmh.Stream.Wakeup.{
  WakeupInfoType, wakeup_stream, wakeup_downlink, no_wakeup, StreamWakeupInfo, StreamQueue,
  new_stream_queue, assign, get_element, update_element, apply_time_increment, Which, first, second,
  compare,
}

pub record ScheduleWakeupData : Type 0 where
  pub activation_tile : ℕ
  pub activation_time : ℕ
  pub schedule_duration : ℕ
  pub schedule_tiles : ℕ
  pub curr_wakeup_queue : StreamQueue
  pub next_wakeup_queue : StreamQueue

-- ScheduleWakeupData::applyTimeIncrement and its `operator=`.
unfoldable pub increment_both : ℕ → ScheduleWakeupData → ScheduleWakeupData
increment_both t d = record d {
  curr_wakeup_queue = apply_time_increment t d.curr_wakeup_queue;
  next_wakeup_queue = apply_time_increment t d.next_wakeup_queue;
}

unfoldable pub assign_data : ScheduleWakeupData → ScheduleWakeupData → ScheduleWakeupData
assign_data other d = record other {
  curr_wakeup_queue = assign other.curr_wakeup_queue d.curr_wakeup_queue;
  next_wakeup_queue = assign other.next_wakeup_queue d.next_wakeup_queue;
}

pub data WakeupState : Type 0 where
  idle awaiting_activation active : WakeupState

-- The queues that the pointer lastUsedQueue points to.
pub data UsedQueue : Type 0 where
  curr_queue next_queue new_next_queue : UsedQueue

pub record WakeupScheduler : Type 0 where
  pub state : WakeupState
  pub is_last_superframe : Bool
  pub new_schedule_available : Bool
  pub schedule_data : ScheduleWakeupData
  pub new_schedule_data : ScheduleWakeupData
  pub last_used_queue : UsedQueue

-- The local time of a time of the network is the time synchronization's.
pub record WakeupConfig : Type 0 where
  pub superframe_size : ℕ
  pub tile_duration : ℕ
  pub downlink_slot_duration : ℕ
  pub to_local_time : ℕ → ℕ

pub data WakeupEvent : Type 0 where
  sleep_until : ℕ → WakeupEvent
  wake_up : StreamId → WakeupEvent

unfoldable pub set_schedule_header :
    WakeupConfig → ScheduleHeader → WakeupScheduler → WakeupScheduler
set_schedule_header c h s = record s {
  new_schedule_data = record s.new_schedule_data {
    activation_tile = h.activation_tile;
    activation_time = c.to_local_time (h.activation_tile * c.tile_duration);
    schedule_tiles = h.schedule_tiles;
    schedule_duration = h.schedule_tiles * c.tile_duration;
  };
}

-- A schedule that was to be activated in the past is put off to its next repetition. A schedule
-- has at least one tile: the source divides by their number.
unfoldable pub catch_up : ℕ → ScheduleWakeupData → ScheduleWakeupData
unfolding increment_both
catch_up tile d =
    if leb d.activation_tile tile
    then increment_both (((tile - d.activation_tile) / d.schedule_tiles + 1) * d.schedule_duration)
        d
    else d

abbrev with_lists :
    List StreamWakeupInfo → List StreamWakeupInfo → ScheduleWakeupData → ScheduleWakeupData
with_lists curr next d = record d {
  curr_wakeup_queue = assign (new_stream_queue curr d.schedule_duration) d.curr_wakeup_queue;
  next_wakeup_queue = assign (new_stream_queue next d.schedule_duration) d.next_wakeup_queue;
}

unfoldable pub set_streams_wakeup_lists :
    ℕ → List StreamWakeupInfo → List StreamWakeupInfo → WakeupScheduler → WakeupScheduler
unfolding catch_up
set_streams_wakeup_lists tile curr next s = record s {
  new_schedule_data = catch_up tile (with_lists curr next s.new_schedule_data);
  new_schedule_available = true;
}

abbrev pointed : UsedQueue → Which → UsedQueue
pointed next first = curr_queue
pointed next second = next

unfoldable pub get_next_wakeup_queue : WakeupScheduler → UsedQueue
get_next_wakeup_queue s =
    let of_next =
      pointed next_queue
        (compare s.schedule_data.curr_wakeup_queue s.schedule_data.next_wakeup_queue) in
    let of_new_next =
      pointed new_next_queue
        (compare s.schedule_data.curr_wakeup_queue s.new_schedule_data.next_wakeup_queue) in
    elim s.state [
      | idle ↦ of_next
      | awaiting_activation ↦ if s.is_last_superframe then of_new_next else of_next
      | active ↦ of_next
    ]

abbrev used : UsedQueue → WakeupScheduler → StreamQueue
used curr_queue s = s.schedule_data.curr_wakeup_queue
used next_queue s = s.schedule_data.next_wakeup_queue
used new_next_queue s = s.new_schedule_data.next_wakeup_queue

unfoldable pub get_next_wakeup_info : WakeupScheduler → WakeupScheduler × StreamWakeupInfo
unfolding get_next_wakeup_queue
get_next_wakeup_info s =
    let queue = get_next_wakeup_queue s in
    (record s { last_used_queue = queue }, get_element (used queue s))

abbrev update_used : UsedQueue → WakeupScheduler → WakeupScheduler
update_used curr_queue s = record s {
  schedule_data = record s.schedule_data {
    curr_wakeup_queue = update_element s.schedule_data.curr_wakeup_queue;
  };
}
update_used next_queue s = record s {
  schedule_data = record s.schedule_data {
    next_wakeup_queue = update_element s.schedule_data.next_wakeup_queue;
  };
}
update_used new_next_queue s = record s {
  new_schedule_data = record s.new_schedule_data {
    next_wakeup_queue = update_element s.new_schedule_data.next_wakeup_queue;
  };
}

unfoldable pub update_last_used_queue : WakeupScheduler → WakeupScheduler
update_last_used_queue s = update_used s.last_used_queue s

-- wakeupStream.
abbrev pub woken : StreamWakeupInfo → List WakeupEvent
woken e = if get_key e.id == 0 then [] else wake_up e.id ∷ []

-- What other threads call while this one sleeps.
pub data Call : Type 0 where
  schedule_header : ScheduleHeader → Call
  wakeup_lists : ℕ → List StreamWakeupInfo → List StreamWakeupInfo → Call

abbrev pub call : WakeupConfig → Call → WakeupScheduler → WakeupScheduler
call c (schedule_header h) s = set_schedule_header c h s
call c (wakeup_lists tile curr next) s = set_streams_wakeup_lists tile curr next s

pub meanwhile : WakeupConfig → List Call → WakeupScheduler → WakeupScheduler
meanwhile c [] s = s
meanwhile c (x ∷ xs) s = meanwhile c xs (call c x s)
