-- ===== src/Stream/Wakeup/Scheduler/Examples.antt =====
-- A stream of the current superframe, one of the next, and a downlink slot.
use tdmh.Base.{
  ℕ, zero, suc, ◌+◌, ◌≤◌, ◌<◌, ◌≡◌, refl, ap, ◌≢◌, inl, List, [], ◌∷◌, get_or, false, true, Bool,
  arith,
}
use tdmh.Stream.Params.{StreamId, get_key}
use tdmh.Wire.Schedule.{ScheduleHeader}
use tdmh.Stream.Wakeup.{
  WakeupInfoType, wakeup_stream, wakeup_downlink, no_wakeup, StreamWakeupInfo, StreamQueue,
  no_wakeup_info, new_stream_queue, set_queue, assign, get_element, is_empty, compare,
}
use tdmh.Stream.Wakeup.Order.{time_at}
use tdmh.Stream.Wakeup.Scheduler.{
  ScheduleWakeupData, WakeupScheduler, idle, active, WakeupConfig, sleep_until, wake_up,
  schedule_header, curr_queue, get_next_wakeup_info, get_next_wakeup_queue,
}
use tdmh.Stream.Wakeup.Scheduler.Thread.{iterate, iterations, run_idle, run_active}
use tdmh.Stream.Wakeup.Scheduler.InTime.{IsWakeupList, InTime}
use tdmh.Stream.Wakeup.Scheduler.Runs.{iterations-InTime}

abbrev config : WakeupConfig
config = record {
  superframe_size = 2;
  tile_duration = 100;
  downlink_slot_duration = 20;
  to_local_time = λ t. t + 1;
}

abbrev id : ℕ → StreamId
id port = record { src = 1; dst = 0; src_port = 0; dst_port = port }

abbrev stream : ℕ → ℕ → StreamWakeupInfo
stream port time = record { type = wakeup_stream; id = id port; wakeup_time = time }

abbrev downlink : ℕ → StreamWakeupInfo
downlink time = record {
  type = wakeup_downlink;
  id = record { src = 0; dst = 0; src_port = 0; dst_port = 0 };
  wakeup_time = time;
}

abbrev curr : List StreamWakeupInfo
curr = stream 1 10 ∷ downlink 60 ∷ []

abbrev next : List StreamWakeupInfo
next = stream 2 40 ∷ []

abbrev old : StreamQueue
old = record { index = 0; queue_size = 0; queue = []; time_increment = 0 }

abbrev scheduler : WakeupScheduler
unfolding assign new_stream_queue
scheduler =
    let d : ScheduleWakeupData = record {
      activation_tile = 0;
      activation_time = 1;
      schedule_duration = 200;
      schedule_tiles = 2;
      curr_wakeup_queue = assign (new_stream_queue curr 200) old;
      next_wakeup_queue = assign (new_stream_queue next 200) old;
    } in
    record {
      state = active;
      is_last_superframe = false;
      new_schedule_available = false;
      schedule_data = d;
      new_schedule_data = d;
      last_used_queue = curr_queue;
    }

abbrev header : ScheduleHeader
header = record {
  total_packet = 1;
  current_packet = 0;
  schedule_id = 2;
  activation_tile = 8;
  schedule_tiles = 4;
  repetition = 0;
}

-- The stream of the current superframe is the first.
first_stream : (iterate config 0 [] scheduler).1 ≡ sleep_until 10 ∷ wake_up (id 1) ∷ []
unfolding iterate get_next_wakeup_info get_next_wakeup_queue compare is_empty get_element run_active
    scheduler assign new_stream_queue set_queue get_key
first_stream = refl

-- A thread that has no schedule sleeps until after the next downlink slots.
no_schedule : (iterate config 3 [] (record scheduler { state = idle })).1 ≡ sleep_until 421 ∷ []
unfolding iterate run_idle scheduler
no_schedule = refl

below_two : (P : ℕ → Type 0) → P 0 → P 1 → (j : ℕ) → j < 2 → P j
below_two P p p' zero h = p
below_two P p p' (suc zero) h = p'
below_two P p p' (suc (suc j)) h = absurd (omega arith)

below_one : (P : ℕ → Type 0) → P 0 → (j : ℕ) → j < 1 → P j
below_one P p zero h = p
below_one P p (suc j) h = absurd (omega arith)

curr_sorted : (i j : ℕ) → i ≤ j → j < 2 → time_at curr i ≤ time_at curr j
curr_sorted zero j h h' = below_two (λ j'. 10 ≤ time_at curr j') (omega arith) (omega arith) j h'
curr_sorted (suc zero) zero h h' = absurd (omega arith)
curr_sorted (suc zero) (suc zero) h h' = omega arith
curr_sorted (suc zero) (suc (suc j)) h h' = absurd (omega arith)
curr_sorted (suc (suc i)) j h h' = absurd (omega arith)

next_sorted : (i j : ℕ) → i ≤ j → j < 1 → time_at next i ≤ time_at next j
next_sorted zero j h h' = below_one (λ j'. 40 ≤ time_at next j') (omega arith) j h'
next_sorted (suc i) j h h' = absurd (omega arith)

is_real : WakeupInfoType → Bool
is_real wakeup_stream = true
is_real wakeup_downlink = true
is_real no_wakeup = false

real : (type : WakeupInfoType) → is_real type ≡ true → type ≢ no_wakeup
unfolding is_real
real wakeup_stream h e = absurd (ground (arith, ap is_real e))
real wakeup_downlink h e = absurd (ground (arith, ap is_real e))
real no_wakeup h e = absurd (ground (arith, h))

curr-IsWakeupList : IsWakeupList curr 200 2
unfolding is_real
curr-IsWakeupList = record {
  some_elements = omega arith;
  sorted = curr_sorted;
  spread = below_two (λ j. time_at curr j ≤ 210) (omega arith) (omega arith);
  no_wrap =
      below_two (λ j. time_at curr j + 400 < 18446744073709551616) (omega arith) (omega arith);
  real =
      below_two (λ j. (get_or curr j no_wakeup_info).type ≢ no_wakeup) (real wakeup_stream refl)
        (real wakeup_downlink refl);
}

next-IsWakeupList : IsWakeupList next 200 2
unfolding is_real
next-IsWakeupList = record {
  some_elements = omega arith;
  sorted = next_sorted;
  spread = below_one (λ j. time_at next j ≤ 240) (omega arith);
  no_wrap = below_one (λ j. time_at next j + 400 < 18446744073709551616) (omega arith);
  real = below_one (λ j. (get_or next j no_wakeup_info).type ≢ no_wakeup) (real wakeup_stream refl);
}

iterations-InTime_example :
    InTime
      (iterations config ((0, schedule_header header ∷ []) ∷ []) scheduler)
      (iterate config 0 [] (iterations config ((0, schedule_header header ∷ []) ∷ []) scheduler)).0
      (iterate config 0 [] (iterations config ((0, schedule_header header ∷ []) ∷ []) scheduler)).1
unfolding scheduler
iterations-InTime_example =
    iterations-InTime config curr next 200 old old ((0, schedule_header header ∷ []) ∷ []) 0 []
      scheduler curr-IsWakeupList (inl next-IsWakeupList) refl refl refl refl ((refl, tt), tt) tt
