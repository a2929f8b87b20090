-- ===== src/Downlink/Activation.antt =====
-- master_schedule_distribution.cpp: the tile in which a schedule is activated, from
-- network_configuration.cpp the number of downlinks of a control superframe, and from mac_context.h the tiles
-- in which the clocks are synchronized. Tiles are counted without an overflow.
use tdmh.Base.{
  ℕ, zero, suc, ◌+◌, ◌-◌, ◌*◌, ◌/◌, ◌%◌, Option, none, some, true, false, ◌&&◌, ◌==◌, ltb,
  if◌then◌else◌,
}
use tdmh.Scheduler.Slots.{Superframe, is_control_downlink, is_control_uplink}

unfoldable pub count_uplink_from : Superframe → ℕ → ℕ → ℕ
count_uplink_from s index zero = 0
count_uplink_from s index (suc count) =
    (if is_control_uplink s index then 1 else 0) + count_uplink_from s (suc index) count

unfoldable pub count_downlink_slots : Superframe → ℕ
count_downlink_slots s = s.size - count_uplink_from s 0 s.size

pub record Timing : Type 0 where
  pub superframe : Superframe
  pub superframes_per_clock_sync : ℕ

unfoldable pub get_num_timesyncs : Timing → ℕ → ℕ
get_num_timesyncs t tile =
    let tiles_per_timesync = t.superframe.size * t.superframes_per_clock_sync in
    (tile + tiles_per_timesync - 1) / tiles_per_timesync

-- The downlinks that are needed after `count` tiles from `phase` on.
unfoldable pub use_tiles : Superframe → ℕ → ℕ → ℕ → ℕ
use_tiles s phase zero downlinks = downlinks
use_tiles s phase (suc count) downlinks =
    use_tiles s (suc phase) count
      (if is_control_downlink s phase && ltb 0 downlinks then downlinks - 1 else downlinks)

-- The loop gives up after ten rounds.
unfoldable pub find_activation : Timing → ℕ → ℕ → ℕ → ℕ → Option ℕ
find_activation t zero begin tile downlinks = none
find_activation t (suc rounds) begin tile downlinks =
    let size = t.superframe.size in
    let per_superframe = count_downlink_slots t.superframe in
    let superframes = downlinks / per_superframe in
    let rest = downlinks - superframes * per_superframe in
    let tile' = tile + superframes * size + (if ltb 0 rest then size else 0) in
    let remaining = if ltb 0 rest then per_superframe - rest else 0 in
    let timesyncs = get_num_timesyncs t tile' - get_num_timesyncs t begin in
    elim (ltb remaining timesyncs) [
      | true ↦ find_activation t rounds tile' tile' (timesyncs - remaining)
      | false ↦ some (
          if get_num_timesyncs t (tile' + 1) - get_num_timesyncs t tile' == 1
          then tile' + size
          else tile')
    ]

unfoldable pub get_activation_tile : Timing → ℕ → ℕ → ℕ → Option ℕ
get_activation_tile t current_tile num_packets advance_slots =
    let size = t.superframe.size in
    let first_tile = current_tile + 1 in
    let phase = first_tile % size in
    let downlinks = 4 * num_packets + advance_slots in
    if phase == 0
    then find_activation t 10 first_tile first_tile downlinks
    else find_activation t 10 first_tile (first_tile + (size - phase))
        (use_tiles t.superframe phase (size - phase) downlinks)
