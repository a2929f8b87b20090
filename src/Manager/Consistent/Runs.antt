-- ===== src/Manager/Consistent/Runs.antt =====
-- Any calls of StreamManager, in any order, as the application and the MAC may make them.
use tdmh.Base.{ℕ, ◌≡◌, refl, subst, List, [], ◌∷◌, Option, none, some, Bool}
use tdmh.Stream.Params.{StreamId, StreamParameters}
use tdmh.Scheduler.Element.{ScheduleElement}
use tdmh.Wire.Schedule.{ScheduleHeader}
use tdmh.Stream.Wakeup.{StreamWakeupInfo}
use tdmh.Stream.Wakeup.Scheduler.{WakeupScheduler}
use tdmh.Packet.{Packet}
use tdmh.Endpoint.Socket.{◌>>=◌}
use tdmh.Manager.{ManagerConfig, StreamManager, new_manager}
use tdmh.Manager.Calls.{
  connect_call, connect_end, listen_call, listen_end, accept_call, write_call, read_call, wait_call,
  with_send_callback, with_recv_callback, set_callback, close_call,
}
use tdmh.Manager.Phases.{
  desync_streams, wake_stream, update_endpoints, receive_for, miss_for, send_for,
  reset_sequence_numbers, set_trust, set_wakeup_lists,
}
use tdmh.Manager.Schedule.{set_schedule, apply_schedule, Info, apply_info_elements}
use tdmh.Manager.Tables.{IfSome, bind-IfSome}
use tdmh.Manager.Consistent.{IsConsistent, new_manager-IsConsistent}
use tdmh.Manager.Consistent.Calls.{
  connect_call-IsConsistent, connect_end-IsConsistent, listen_call-IsConsistent,
  listen_end-IsConsistent, accept_call-IsConsistent, write_call-IsConsistent,
  read_call-IsConsistent, wait_call-IsConsistent, set_callback-IsConsistent,
  close_call-IsConsistent,
}
use tdmh.Manager.Consistent.Schedule.{
  update_endpoints-IsConsistent, reset_sequence_numbers-IsConsistent, desync_streams-IsConsistent,
  wake_stream-IsConsistent, IfReturned, receive_for-IsConsistent, miss_for-IsConsistent,
  send_for-IsConsistent,
}
use tdmh.Manager.Consistent.Applied.{
  set_schedule-IsConsistent, apply_schedule-IsConsistent, apply_info_elements-IsConsistent,
}

-- A call that blocks is two calls, between which others are made.
pub data Op : Type 0 where
  connects : ℕ → ℕ → StreamParameters → ℕ → Op
  has_connected : ℕ → Op
  listens_on : ℕ → StreamParameters → Op
  has_listened : ℕ → Op
  accepts : ℕ → Op
  writes : ℕ → List ℕ → Op
  reads : ℕ → ℕ → Op
  waits_on : ℕ → Op
  sets_send_callback sets_receive_callback : ℕ → Op
  closes : ℕ → Op
  desyncs updates resets_numbers : Op
  wakes : StreamId → Op
  receives : Packet → StreamId → Op
  misses : StreamId → Op
  sends : List ℕ → StreamId → Op
  sets_schedule : List ScheduleElement → ScheduleHeader → Op
  applies_schedule : List ScheduleElement → Op
  applies_info : List Info → Op
  trusts : Bool → Op
  sets_wakeup_lists : ℕ → List StreamWakeupInfo → List StreamWakeupInfo → Op

abbrev returned : {R : Type 0} → Option (StreamManager × R) → Option StreamManager
returned none = none
returned (some (m, r)) = some m

-- `none` where an exception leaves the call, or a null pointer is followed.
unfoldable pub step : ManagerConfig → Op → StreamManager → Option StreamManager
step c (connects dst port ps advance) m = some (connect_call c dst port ps advance m).0
step c (has_connected p) m = some (connect_end p m).0
step c (listens_on port ps) m = some (listen_call c port ps m).0
step c (has_listened p) m = some (listen_end p m).0
step c (accepts fd) m = some (accept_call fd m).0
step c (writes fd bytes) m = some (write_call fd bytes m).0
step c (reads fd max_size) m = some (read_call fd max_size m).0
step c (waits_on fd) m = some (wait_call fd m).0
step c (sets_send_callback fd) m = some (set_callback c with_send_callback fd m).0
step c (sets_receive_callback fd) m = some (set_callback c with_recv_callback fd m).0
step c (closes fd) m = some (close_call fd m)
step c desyncs m = some (desync_streams m)
step c updates m = some (update_endpoints m)
step c resets_numbers m = some (reset_sequence_numbers m)
step c (wakes id) m = some (wake_stream id m).0
step c (receives packet id) m = returned (receive_for packet id m)
step c (misses id) m = returned (miss_for id m)
step c (sends bytes id) m = returned (send_for bytes id m)
step c (sets_schedule es h) m = some (set_schedule c es h m)
step c (applies_schedule es) m = apply_schedule c es m
step c (applies_info infos) m = some (apply_info_elements c infos m)
step c (trusts trusted) m = some (set_trust trusted m)
step c (sets_wakeup_lists tile curr next) m = some (set_wakeup_lists tile curr next m)

unfoldable pub run_ops : ManagerConfig → List Op → StreamManager → Option StreamManager
unfolding step
run_ops c [] m = some m
run_ops c (op ∷ ops) m = step c op m >>= run_ops c ops

returned-IfSome :
    {R : Type 0} (x : Option (StreamManager × R)) → IfReturned x → IfSome IsConsistent (returned x)
returned-IfSome none h = tt
returned-IfSome (some (m, r)) h = h

step-IsConsistent :
    (c : ManagerConfig) (op : Op) (m : StreamManager)
    → IsConsistent m
    → IfSome IsConsistent (step c op m)
unfolding step set_trust set_wakeup_lists
step-IsConsistent c (connects dst port ps advance) m w =
    connect_call-IsConsistent c dst port ps advance m w
step-IsConsistent c (has_connected p) m w = connect_end-IsConsistent p m w
step-IsConsistent c (listens_on port ps) m w = listen_call-IsConsistent c port ps m w
step-IsConsistent c (has_listened p) m w = listen_end-IsConsistent p m w
step-IsConsistent c (accepts fd) m w = accept_call-IsConsistent m w fd
step-IsConsistent c (writes fd bytes) m w = write_call-IsConsistent m w fd bytes
step-IsConsistent c (reads fd max_size) m w = read_call-IsConsistent m w fd max_size
step-IsConsistent c (waits_on fd) m w = wait_call-IsConsistent m w fd
step-IsConsistent c (sets_send_callback fd) m w =
    set_callback-IsConsistent m w c with_send_callback fd (λ s. refl)
step-IsConsistent c (sets_receive_callback fd) m w =
    set_callback-IsConsistent m w c with_recv_callback fd (λ s. refl)
step-IsConsistent c (closes fd) m w = close_call-IsConsistent fd m w
step-IsConsistent c desyncs m w = desync_streams-IsConsistent m w
step-IsConsistent c updates m w = update_endpoints-IsConsistent m w
step-IsConsistent c resets_numbers m w = reset_sequence_numbers-IsConsistent m w
step-IsConsistent c (wakes id) m w = wake_stream-IsConsistent id m w
step-IsConsistent c (receives packet id) m w =
    returned-IfSome (receive_for packet id m) (receive_for-IsConsistent id m w packet)
step-IsConsistent c (misses id) m w = returned-IfSome (miss_for id m) (miss_for-IsConsistent id m w)
step-IsConsistent c (sends bytes id) m w =
    returned-IfSome (send_for bytes id m) (send_for-IsConsistent id m w bytes)
step-IsConsistent c (sets_schedule es h) m w = set_schedule-IsConsistent c es h m w
step-IsConsistent c (applies_schedule es) m w = apply_schedule-IsConsistent c es m w
step-IsConsistent c (applies_info infos) m w = apply_info_elements-IsConsistent c infos m w
step-IsConsistent c (trusts trusted) m w = w
step-IsConsistent c (sets_wakeup_lists tile curr next) m w = w

steps-IsConsistent :
    (c : ManagerConfig) (ops : List Op) (m : StreamManager)
    → IsConsistent m
    → IfSome IsConsistent (run_ops c ops m)
unfolding run_ops
steps-IsConsistent c [] m w = w
steps-IsConsistent c (op ∷ ops) m w =
    bind-IfSome IsConsistent IsConsistent (step c op m) (run_ops c ops) (step-IsConsistent c op m w)
      (steps-IsConsistent c ops)

-- The tables are consistent after any calls.
pub run_ops-IsConsistent :
    (c : ManagerConfig) (trusted : Bool) (s : WakeupScheduler) (ops : List Op) (m : StreamManager)
    → run_ops c ops (new_manager trusted s) ≡ some m
    → IsConsistent m
run_ops-IsConsistent c trusted s ops m e =
    subst (IfSome IsConsistent) e (steps-IsConsistent c ops _ (new_manager-IsConsistent trusted s))
