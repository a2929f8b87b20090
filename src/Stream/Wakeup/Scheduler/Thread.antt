-- ===== src/Stream/Wakeup/Scheduler/Thread.antt =====
-- stream_wakeup_scheduler.cpp: the iterations of the thread in its three states. The thread sleeps
-- once in an iteration, if it does.
use tdmh.Base.{ℕ, ◌+◌, ◌*◌, ◌/◌, ◌%◌, List, [], ◌∷◌, Bool, false, ◌==◌, leb, if◌then◌else◌}
use tdmh.Stream.Wakeup.{WakeupInfoType, wakeup_stream, wakeup_downlink, no_wakeup, StreamWakeupInfo}
use tdmh.Stream.Wakeup.Scheduler.{
  WakeupScheduler, idle, awaiting_activation, active, WakeupConfig, WakeupEvent, sleep_until, Call,
  meanwhile, woken, assign_data, get_next_wakeup_info, update_last_used_queue,
}

abbrev pub next_tile_start_time : WakeupConfig → ℕ → ℕ
next_tile_start_time c tile = c.to_local_time (tile * c.tile_duration) + c.tile_duration

unfoldable pub run_idle :
    WakeupConfig → ℕ → List Call → WakeupScheduler → WakeupScheduler × List WakeupEvent
run_idle c tile calls s =
    if s.new_schedule_available
    then (record s { new_schedule_available = false; state = awaiting_activation }, [])
    else (
      meanwhile c calls s,
      sleep_until (next_tile_start_time c tile + c.downlink_slot_duration) ∷ [],
    )

-- In an `unsigned`, in which the number before 0 is the largest.
abbrev pub is_last_before : WakeupConfig → ℕ → ℕ → Bool
is_last_before c tile activation_tile =
    tile / c.superframe_size == (activation_tile / c.superframe_size + 4294967295) % 4294967296

unfoldable pub apply_new_schedule : WakeupScheduler → WakeupScheduler
unfolding assign_data
apply_new_schedule s = record s { schedule_data = assign_data s.new_schedule_data s.schedule_data }

abbrev await_wakeup :
    WakeupConfig
    → ℕ
    → List Call
    → StreamWakeupInfo
    → WakeupScheduler
    → WakeupInfoType
    → WakeupScheduler × List WakeupEvent
await_wakeup c tile calls e s wakeup_stream =
    (meanwhile c calls s, sleep_until e.wakeup_time ∷ woken e)
await_wakeup c tile calls e s wakeup_downlink = (s, [])
await_wakeup c tile calls e s no_wakeup =
    (meanwhile c calls s, sleep_until (next_tile_start_time c tile) ∷ [])

-- awaitingActivation, in that state.
unfoldable pub run_awaiting :
    WakeupConfig
    → ℕ
    → List Call
    → StreamWakeupInfo
    → WakeupScheduler
    → WakeupScheduler × List WakeupEvent
unfolding update_last_used_queue
run_awaiting c tile calls e s =
    if leb s.new_schedule_data.activation_time e.wakeup_time
    then (meanwhile c calls s, sleep_until s.new_schedule_data.activation_time ∷ [])
    else await_wakeup c tile calls e (update_last_used_queue s) e.type

abbrev pub see_new_schedule : WakeupScheduler → WakeupScheduler
see_new_schedule s =
    if s.new_schedule_available
    then record s { new_schedule_available = false; state = awaiting_activation }
    else s

abbrev pub active_wakeup :
    WakeupConfig
    → ℕ
    → List Call
    → StreamWakeupInfo
    → WakeupScheduler
    → WakeupInfoType
    → WakeupScheduler × List WakeupEvent
active_wakeup c tile calls e s wakeup_stream =
    (meanwhile c calls s, sleep_until e.wakeup_time ∷ woken e)
active_wakeup c tile calls e s wakeup_downlink =
    (see_new_schedule (meanwhile c calls s), sleep_until e.wakeup_time ∷ [])
active_wakeup c tile calls e s no_wakeup =
    (meanwhile c calls s, sleep_until (next_tile_start_time c tile) ∷ [])

unfoldable pub run_active :
    WakeupConfig
    → ℕ
    → List Call
    → StreamWakeupInfo
    → WakeupScheduler
    → WakeupScheduler × List WakeupEvent
unfolding update_last_used_queue
run_active c tile calls e s = active_wakeup c tile calls e (update_last_used_queue s) e.type

abbrev await : WakeupConfig → ℕ → List Call → WakeupScheduler → WakeupScheduler × List WakeupEvent
await c tile calls s =
    if leb s.new_schedule_data.activation_tile tile
    then (apply_new_schedule (record s { state = active; new_schedule_available = false }), [])
    else let (s', e) = get_next_wakeup_info s in run_awaiting c tile calls e s'

-- An iteration of `run`.
unfoldable pub iterate :
    WakeupConfig → ℕ → List Call → WakeupScheduler → WakeupScheduler × List WakeupEvent
unfolding run_idle run_awaiting run_active apply_new_schedule get_next_wakeup_info
iterate c tile calls s = elim s.state [
  | idle ↦ run_idle c tile calls s
  | awaiting_activation ↦
      await c tile calls (record s {
        is_last_superframe = is_last_before c tile s.new_schedule_data.activation_tile;
      })
  | active ↦ let (s', e) = get_next_wakeup_info s in run_active c tile calls e s'
]

-- The loop of `run`, with the tile and the calls of each iteration.
unfoldable pub iterations : WakeupConfig → List (ℕ × List Call) → WakeupScheduler → WakeupScheduler
iterations c [] s = s
iterations c (i ∷ inputs) s = iterations c inputs (iterate c i.0 i.1 s).0
