-- ===== src/Downlink.antt =====
-- network_module/downlink_phase/schedule_distribution.h and .cpp: what the master's and the other
-- nodes' side of the distribution of a schedule share. What a phase asks the rest of its node to do is a
-- list of events.
pub mod Activation
pub mod Node
pub mod Master
pub mod Expansion
pub mod Network
mod Examples
use tdmh.Base.{ℕ, List, [], ◌∷◌}
use tdmh.Wire.Schedule.{ScheduleHeader, DownlinkElement, SchedulePacket}

pub data Status : Type 0 where
  applied_schedule sending_schedule incomplete_schedule processing awaiting_activation : Status

abbrev pub schedule_repetitions : ℕ
schedule_repetitions = 4

-- Calls of the key manager, the stream manager, the data phase, the expander of schedules, the
-- scheduler and the radio.
pub data Event : Type 0 where
  keys_start_rekeying keys_apply_rekeying : Event
  keys_check_response : List ℕ → Event
  streams_start_rekeying streams_continue_rekeying streams_apply_rekeying : Event
  streams_set_schedule : List DownlinkElement → ScheduleHeader → Event
  streams_apply_schedule : List DownlinkElement → Event
  streams_apply_infos : List DownlinkElement → Event
  streams_enqueue_resend : Event
  data_apply_schedule data_apply_empty : ScheduleHeader → Event
  data_reset_superframe_number : Event
  expander_start : List DownlinkElement → ScheduleHeader → Event
  expander_continue : List DownlinkElement → Event
  scheduler_sent_and_applied : Event
  radio_send : SchedulePacket → Event

-- setNewSchedule, setSameSchedule, applyNewSchedule and applySameSchedule.
abbrev pub set_new_schedule : List DownlinkElement → ScheduleHeader → List Event
set_new_schedule schedule header = keys_start_rekeying ∷ streams_set_schedule schedule header ∷ []

abbrev pub set_same_schedule : List Event
set_same_schedule = keys_start_rekeying ∷ streams_start_rekeying ∷ []

abbrev pub apply_new_schedule : List DownlinkElement → ScheduleHeader → List Event
apply_new_schedule schedule header =
    data_apply_schedule header ∷ streams_apply_schedule schedule ∷ keys_apply_rekeying ∷ []

abbrev pub apply_same_schedule : List Event
apply_same_schedule =
    streams_apply_rekeying ∷ data_reset_superframe_number ∷ keys_apply_rekeying ∷ []
