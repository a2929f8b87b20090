-- ===== src/Scheduler/Examples.antt =====
-- A line of four nodes, 0 to 3, and streams over it.
use tdmh.Base.{
  ℕ, suc, ◌+◌, ◌*◌, ◌<◌, ◌≡◌, refl, ◌↔◌, List, [], ◌∷◌, Bool, true, false, ◌||◌, ◌==◌, arith, All,
}
use tdmh.Stream.Params.{period_tiles}
use tdmh.Scheduler.Lcm.{lcm}
use tdmh.Scheduler.Element.{ScheduleElement, set_offset, period_of}
use tdmh.Scheduler.Slots.{
  Config, check_data_slot, check_slot_conflict, is_control_downlink, is_control_uplink,
  slot_conflict_possible,
}
use tdmh.Scheduler.Slots.Common.{Occupies, check_slot_conflict_iff}
use tdmh.Scheduler.Slots.Control.{repeats_in_control_slot}
use tdmh.Scheduler.Conflicts.{
  check_all_conflicts, check_unicity_conflict, check_interference_conflict,
}
use tdmh.Scheduler.Conflicts.Sound.{
  IsSized, IsSupported, IsPlaced, Compatible, check_all_conflicts_iff,
}
use tdmh.Scheduler.Allocate.{
  Allocation, place, try_offset, schedule_streams, schedule_block, begin_block,
}
use tdmh.Scheduler.Allocate.Free.{IsSchedule, schedule_streams-IsSchedule}
use tdmh.Scheduler.Allocate.Order.{Outcome, schedule_block_lem}
use native.Mathlib.Nat.{one-dvd}

abbrev adjacent : ℕ → ℕ → Bool
adjacent x y = suc x == y || suc y == x

-- Four slots in a tile, the first of which is for control.
abbrev line : Config
line = record {
  channel_spatial_reuse = true;
  use_weak_topologies = false;
  slots_per_tile = 4;
  reserved_slots_downlink = 1;
  reserved_slots_uplink = 2;
  superframe = record { bitmask = 1; size = 2 };
  has_edge = adjacent;
  has_weak_edge = adjacent;
}

abbrev hop : ℕ → ℕ → ℕ → ScheduleElement
hop tx rx offset = record {
  id = record { src = 0; dst = 2; src_port = 0; dst_port = 1 };
  params = record { redundancy = 0; period = 1; payload_size = 10; direction = 0 };
  tx = tx;
  rx = rx;
  offset = offset;
}

abbrev stream : List ScheduleElement
stream = hop 0 1 0 ∷ hop 1 2 0 ∷ []

line-IsSized : IsSized line
line-IsSized = record { some_slots = omega arith; few_slots = omega arith }

hop-IsSupported : (tx rx offset : ℕ) → IsSupported (hop tx rx offset)
unfolding period_of period_tiles
hop-IsSupported tx rx offset = record { repeats = omega arith; supported = omega arith }

hop-IsPlaced : (tx rx offset : ℕ) → offset < 4 → IsPlaced line (hop tx rx offset)
unfolding period_of period_tiles
hop-IsPlaced tx rx offset h = record { period = hop-IsSupported tx rx offset; within = omega arith }

supported : All IsSupported stream
supported = (hop-IsSupported 0 1 0, (hop-IsSupported 1 2 0, tt))

schedule_streams-IsSchedule_example :
    IsSchedule line [] (schedule_streams line (stream ∷ []) [] 1 []).scheduled
schedule_streams-IsSchedule_example =
    schedule_streams-IsSchedule line (stream ∷ []) [] 1 [] line-IsSized (supported, tt) tt tt

-- The stream gets slots 1 and 2.
schedule_streams_run :
    (schedule_streams line (stream ∷ []) [] 1 []).scheduled ≡ hop 0 1 1 ∷ hop 1 2 2 ∷ []
unfolding schedule_streams place period_of period_tiles check_data_slot is_control_downlink
    is_control_uplink try_offset check_all_conflicts slot_conflict_possible set_offset
    check_slot_conflict check_unicity_conflict check_interference_conflict lcm
schedule_streams_run = refl

check_slot_conflict_iff_example : (check_slot_conflict line (hop 0 1 0) (hop 1 2 2) 2 ≡ true) ↔ (
    (t : ℕ) × Occupies 2 (period_of (hop 0 1 0) * 4) t × Occupies 2 (period_of (hop 1 2 2) * 4) t)
unfolding lcm period_of period_tiles
check_slot_conflict_iff_example = check_slot_conflict_iff line (hop 0 1 0) (hop 1 2 2) 2 (record {
  slots = omega arith;
  new_period = omega arith;
  old_period = omega arith;
  new_offset = omega arith;
  old_offset = omega arith;
  no_wrap = omega arith;
})

check_all_conflicts_iff_example :
    ((check_all_conflicts line (hop 1 2 2 ∷ []) (hop 0 1 0) 2 []).0 ≡ false)
    ↔ All (Compatible line (hop 0 1 0) 2) (hop 1 2 2 ∷ [])
unfolding period_of period_tiles
check_all_conflicts_iff_example =
    check_all_conflicts_iff line (hop 1 2 2 ∷ []) (hop 0 1 0) 2 [] line-IsSized
      (hop-IsSupported 0 1 0) (omega arith) (hop-IsPlaced 1 2 2 (omega arith), tt)

abbrev start : Allocation
start = record { scheduled = []; new_size = 1; links = [] }

schedule_block_lem_example :
    Outcome 100 start stream (schedule_block line [] start.new_size stream (begin_block start))
unfolding period_of period_tiles
schedule_block_lem_example =
    schedule_block_lem line [] stream start line-IsSized supported (omega arith) 100 (omega arith)
      (omega arith) (one-dvd 100, (one-dvd 100, tt)) (one-dvd 100)

-- Node 0 is busy in both data slots, so that its hop gets none.
abbrev busy : List ScheduleElement
busy = hop 0 9 1 ∷ hop 0 9 2 ∷ []

-- The second hop is scheduled all the same.
schedule_streams_gap : (schedule_streams line (stream ∷ []) busy 1 []).scheduled ≡ hop 1 2 1 ∷ []
unfolding schedule_streams place period_of period_tiles check_data_slot is_control_downlink
    is_control_uplink try_offset check_all_conflicts slot_conflict_possible set_offset
    check_slot_conflict check_unicity_conflict check_interference_conflict lcm
schedule_streams_gap = refl

repeats_in_control_slot_example :
    (check_data_slot line 1 ≡ true) × (check_data_slot line (1 + 4) ≡ false)
repeats_in_control_slot_example =
    repeats_in_control_slot line 1 refl (omega arith) (omega arith) (omega arith)
