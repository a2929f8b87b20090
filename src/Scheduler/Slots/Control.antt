-- ===== src/Scheduler/Slots/Control.antt =====
-- checkDataSlot is asked about the first slot of a transmission only; what that says of the slots
-- in which the transmission is repeated.
use Prim.Native.Nat.{◌∣◌}
use native.Mathlib.Nat.{
  mul_assoc, add-mul-div_right, add-mul-mod_self_right, mod-eq_of_lt, div-mul_cancel, add-mod_right,
  add-div_right, div-eq_of_lt,
}
use tdmh.Base.{ℕ, ◌+◌, ◌*◌, ◌/◌, ◌%◌, ◌≤◌, ◌<◌, ◌≡◌, sym, ap, ◌∙◌, true, false, arith}
use tdmh.Scheduler.Slots.{Config, check_data_slot, is_control_downlink, is_control_uplink}

-- Tile and slot of a repetition.
repeat_slot : (o n p k : ℕ) → ((o + k * (p * n)) % n ≡ o % n)
repeat_slot o n p k =
    ap (λ m. (o + m) % n) (sym (mul_assoc k p n)) ∙ add-mul-mod_self_right o (k * p) n

repeat_tile : (o n p k : ℕ) → 0 < n → (o + k * (p * n)) / n ≡ o / n + k * p
repeat_tile o n p k h =
    ap (λ m. (o + m) / n) (sym (mul_assoc k p n)) ∙ add-mul-div_right o (k * p) h

repeat_position : (tile p size k : ℕ) → size ∣ p → (tile + k * p) % size ≡ tile % size
repeat_position tile p size k d =
    ap (λ m. (tile + m) % size)
      (ap (◌*◌ k) (sym (div-mul_cancel size d)) ∙ sym (mul_assoc k (p / size) size))
    ∙ add-mul-mod_self_right tile (k * (p / size)) size

-- Where tiles have slots and the period, in tiles, is a multiple of the control superframe's
-- size, every repetition of a slot is a data slot exactly if the first is one.
pub check_data_slot_repeats :
    (c : Config) (offset period k : ℕ)
    → 0 < c.slots_per_tile
    → c.superframe.size ∣ period
    → check_data_slot c (offset + k * (period * c.slots_per_tile)) ≡ check_data_slot c offset
unfolding check_data_slot
check_data_slot_repeats c offset period k h d = rw (
  repeat_tile offset c.slots_per_tile period k h,
  repeat_slot offset c.slots_per_tile period k,
  repeat_position (offset / c.slots_per_tile) period c.superframe.size k d,
)

-- In the default superframe, a downlink tile and an uplink tile, a slot that follows the
-- reserved downlink slots and is among the reserved uplink slots passes the check, and is a
-- control slot in the next tile, where a transmission with a period of one tile is repeated.
pub repeats_in_control_slot :
    (c : Config) (slot : ℕ)
    → c.superframe ≡ record { bitmask = 1; size = 2 }
    → slot < c.slots_per_tile
    → c.reserved_slots_downlink ≤ slot
    → slot < c.reserved_slots_uplink
    → (check_data_slot c slot ≡ true) × (check_data_slot c (slot + c.slots_per_tile) ≡ false)
unfolding check_data_slot is_control_downlink is_control_uplink
repeats_in_control_slot c slot e h down up =
    let same : slot % c.slots_per_tile ≡ slot = mod-eq_of_lt h in
    let next : (slot + c.slots_per_tile) % c.slots_per_tile ≡ slot =
      add-mod_right slot c.slots_per_tile ∙ same in
    let first : slot / c.slots_per_tile ≡ 0 = div-eq_of_lt h in
    let second : (slot + c.slots_per_tile) / c.slots_per_tile ≡ 1 =
      add-div_right slot (omega arith) ∙ ap (λ n. n + 1) first in
    (rw (e, first, same) (ground arith), rw (e, second, next) (ground arith))
