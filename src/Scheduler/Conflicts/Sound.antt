-- ===== src/Scheduler/Conflicts/Sound.antt =====
-- checkAllConflicts finds a conflict exactly when some scheduled transmission ever uses a slot of
-- the new one, and either channels are not reused or the two would disturb each other.
use native.Mathlib.Nat.{mul_assoc, add-mul-mod_self_right}
use tdmh.Base.{
  ℕ, ◌+◌, ◌*◌, ◌%◌, ◌≤◌, ◌<◌, ◌≡◌, refl, sym, ap, ◌∙◌, ◌↔◌, Links, List, [], ◌∷◌, true, false,
  arith, All,
}
use tdmh.Scheduler.Lcm.{common_multiple, common_multiple-le-mul}
use tdmh.Scheduler.Element.{ScheduleElement, period_of}
use tdmh.Scheduler.Slots.{Config, slot_conflict_possible}
use tdmh.Scheduler.Slots.Common.{Occupies, AreTimed, check_slot_conflict_iff}
use tdmh.Scheduler.Conflicts.{shares_slot, clashes, conflict_loop, note_links, check_all_conflicts}

-- No slot in common, or a slot that is shared without harm: with spatial reuse of channels,
-- between different nodes that are not linked.
abbrev pub MayShare : Config → ScheduleElement → ScheduleElement → Type 0
MayShare c new old = (c.channel_spatial_reuse ≡ true) × (clashes c new old ≡ false)

abbrev pub SharesSlot : Config → ScheduleElement → ℕ → ScheduleElement → Type 0
SharesSlot c new offset old =
    (t : ℕ) × Occupies offset (period_of new * c.slots_per_tile) t
    × Occupies old.offset (period_of old * c.slots_per_tile) t

position : (o p n k t : ℕ) → t ≡ o + k * (p * n) → t % n ≡ o % n
position o p n k t e =
    ap (λ m. m % n) e
    ∙ ap (λ m. (o + m) % n) (sym (mul_assoc k p n))
    ∙ add-mul-mod_self_right o (k * p) n

-- The quick test is a necessary condition.
pub possible_of_shared :
    (c : Config) (new old : ScheduleElement) (offset : ℕ)
    → SharesSlot c new offset old
    → slot_conflict_possible c old offset ≡ true
unfolding slot_conflict_possible
possible_of_shared c new old offset (t, (k, e), (l, f)) =
    let a = position offset (period_of new) c.slots_per_tile k t e in
    let b = position old.offset (period_of old) c.slots_per_tile l t f in ground (arith, a, b)

pub shares_slot_iff :
    (c : Config) (new old : ScheduleElement) (offset : ℕ)
    → AreTimed c new old offset
    → (shares_slot c new old offset ≡ true) ↔ SharesSlot c new offset old
shares_slot_iff c new old offset h =
    let full = check_slot_conflict_iff c new old offset h in
    (
      λ e. full.0 (ground arith),
      λ s. ground (arith, full.1 s, possible_of_shared c new old offset s),
    )

abbrev Passes : Config → ScheduleElement → ℕ → ScheduleElement → Type 0
Passes c new offset old = shares_slot c new old offset ≡ true → MayShare c new old

conflict_loop_iff :
    (c : Config) (others : List ScheduleElement) (new : ScheduleElement) (offset : ℕ) (temp : Links)
    → ((conflict_loop c others new offset temp).0 ≡ false) ↔ All (Passes c new offset) others
unfolding conflict_loop
conflict_loop_iff c [] new offset temp = (λ h. tt, λ h. refl)
conflict_loop_iff c (old ∷ others) new offset temp =
    let skip = conflict_loop_iff c others new offset temp in
    let noted = conflict_loop_iff c others new offset (note_links new old temp) in
    (
      λ h. (λ e. ground arith, ground (arith, skip.0, noted.0)),
      λ h. ground (arith, skip.1, noted.1),
    )

-- The tiles have slots, and so few that no offset overflows its field, and no sum of the
-- scheduler's loops 32 bits, for the periods that are supported, up to 100 tiles.
pub record IsSized (c : Config) : Type 0 where
  pub some_slots : 0 < c.slots_per_tile
  pub few_slots : c.slots_per_tile ≤ 10000

pub record IsSupported (t : ScheduleElement) : Type 0 where
  pub repeats : 0 < period_of t
  pub supported : period_of t ≤ 100

-- An element with its offset within its period.
pub record IsPlaced (c : Config) (e : ScheduleElement) : Type 0 where
  pub period : IsSupported e
  pub within : e.offset < period_of e * c.slots_per_tile

pub product-le : (x y m k : ℕ) → x ≤ m → y ≤ k → x * y ≤ m * k
product-le x y m k h j = grind arith

pub AreTimed-of :
    (c : Config) (new old : ScheduleElement) (offset : ℕ)
    → IsSized c
    → IsSupported new
    → offset < period_of new * c.slots_per_tile
    → IsPlaced c old
    → AreTimed c new old offset
AreTimed-of c new old offset s p lt q =
    let n = c.slots_per_tile in
    let common = common_multiple-le-mul (period_of new) (period_of old) in
    let square =
      product-le (period_of new) (period_of old) 100 100 p.supported q.period.supported in
    let total =
      product-le (common_multiple (period_of new) (period_of old)) n 10000 10000 (omega arith)
        s.few_slots in
    let a = product-le (period_of new) n 100 10000 p.supported s.few_slots in
    let b = product-le (period_of old) n 100 10000 q.period.supported s.few_slots in
    record {
      slots = s.some_slots;
      new_period = p.repeats;
      old_period = q.period.repeats;
      new_offset = lt;
      old_offset = q.within;
      no_wrap = omega arith;
    }

-- What `new` at `offset` may have in common with `old`.
abbrev pub Compatible : Config → ScheduleElement → ℕ → ScheduleElement → Type 0
Compatible c new offset old = SharesSlot c new offset old → MayShare c new old

-- Where the tiles are sized, the transmission's period is supported, its offset lies within
-- it, and the others are placed: checkAllConflicts reports no conflict exactly when the
-- transmission shares a slot with another, at any time, only where channels are reused and the
-- two do not disturb each other.
pub check_all_conflicts_iff :
    (c : Config) (others : List ScheduleElement) (new : ScheduleElement) (offset : ℕ)
    (links : Links)
    → IsSized c
    → IsSupported new
    → offset < period_of new * c.slots_per_tile
    → All (IsPlaced c) others
    → ((check_all_conflicts c others new offset links).0 ≡ false)
      ↔ All (Compatible c new offset) others
unfolding check_all_conflicts
check_all_conflicts_iff c others new offset links s p lt q =
    let loop = conflict_loop_iff c others new offset [] in
    (λ h. to_compatible others q (loop.0 h), λ h. loop.1 (of_compatible others q h))
  where
    to_compatible :
        (l : List ScheduleElement)
        → All (IsPlaced c) l
        → All (Passes c new offset) l
        → All (Compatible c new offset) l
    to_compatible [] q h = tt
    to_compatible (old ∷ l) q h = (
      λ shared.
          h.0
            ((shares_slot_iff c new old offset (AreTimed-of c new old offset s p lt q.0)).1 shared),
      to_compatible l q.1 h.1,
    )

    of_compatible :
        (l : List ScheduleElement)
        → All (IsPlaced c) l
        → All (Compatible c new offset) l
        → All (Passes c new offset) l
    of_compatible [] q h = tt
    of_compatible (old ∷ l) q h = (
      λ shared.
          h.0
            ((shares_slot_iff c new old offset (AreTimed-of c new old offset s p lt q.0)).0 shared),
      of_compatible l q.1 h.1,
    )
