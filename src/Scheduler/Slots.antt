-- ===== src/Scheduler/Slots.antt =====
-- schedule_computation.cpp: which slots a transmission uses, and which slots are for data.
-- The arithmetic is that of `unsigned`, 32 bits wide.
pub mod Common
pub mod Control
use tdmh.Base.{
  ℕ, zero, suc, ◌+◌, ◌*◌, ◌/◌, ◌%◌, ◌^◌, ◌≡◌, Bool, true, false, ◌&&◌, ◌||◌, not, ltb, ◌==◌,
  if◌then◌else◌,
}
use tdmh.Scheduler.Lcm.{lcm}
use tdmh.Scheduler.Element.{ScheduleElement, period_of}

abbrev pub u32 : ℕ → ℕ
u32 x = x % 4294967296

-- ControlSuperframeStructure of network_configuration.h.
pub record Superframe : Type 0 where
  pub bitmask : ℕ
  pub size : ℕ

unfoldable pub is_control_downlink : Superframe → ℕ → Bool
is_control_downlink s index = s.bitmask / 2 ^ index % 2 == 1

unfoldable pub is_control_uplink : Superframe → ℕ → Bool
unfolding is_control_downlink
is_control_uplink s index = not (is_control_downlink s index)

-- The cached configuration of ScheduleComputation. The two graphs are those of the topology
-- snapshot, read at ids below the number of nodes, where a read does not throw.
pub record Config : Type 0 where
  pub channel_spatial_reuse : Bool
  pub use_weak_topologies : Bool
  pub slots_per_tile : ℕ
  pub reserved_slots_downlink : ℕ
  pub reserved_slots_uplink : ℕ
  pub superframe : Superframe
  pub has_edge : ℕ → ℕ → Bool
  pub has_weak_edge : ℕ → ℕ → Bool

unfoldable pub check_data_slot : Config → ℕ → Bool
check_data_slot c offset =
    let tile_pos = offset / c.slots_per_tile % c.superframe.size in
    let slot = offset % c.slots_per_tile in
    not (
      (is_control_downlink c.superframe tile_pos && ltb slot c.reserved_slots_downlink)
      || (is_control_uplink c.superframe tile_pos && ltb slot c.reserved_slots_uplink))

unfoldable pub slot_conflict_possible : Config → ScheduleElement → ℕ → Bool
slot_conflict_possible c old offset = offset % c.slots_per_tile == old.offset % c.slots_per_tile

-- The inner loop of `checkSlotConflict`, with fuel: the slots of the old transmission from
-- `slot_b` on, against one slot of the new one.
meets : ℕ → ℕ → ℕ → ℕ → ℕ → Bool
meets zero slot_a slot_b period_b total = false
meets (suc fuel) slot_a slot_b period_b total =
    let rest = meets fuel slot_a (u32 (slot_b + period_b)) period_b total in
    if ltb slot_b total then (if slot_a == slot_b then true else rest) else false

-- The outer loop, over the slots of the new transmission from `slot_a` on.
meet_from : ℕ → ℕ → ℕ → ℕ → ℕ → ℕ → Bool
unfolding meets
meet_from zero slot_a period_a slot_b period_b total = false
meet_from (suc fuel) slot_a period_a slot_b period_b total =
    let rest = meet_from fuel (u32 (slot_a + period_a)) period_a slot_b period_b total in
    if ltb slot_a total
    then (if meets (suc total) slot_a slot_b period_b total then true else rest)
    else false

unfoldable pub check_slot_conflict : Config → ScheduleElement → ScheduleElement → ℕ → Bool
unfolding meet_from
check_slot_conflict c new old offset_a =
    let period_a = period_of new in
    let period_b = period_of old in
    let total = u32 (lcm period_a period_b * c.slots_per_tile) in
    meet_from (suc total) offset_a (u32 (period_a * c.slots_per_tile)) old.offset
      (u32 (period_b * c.slots_per_tile)) total
