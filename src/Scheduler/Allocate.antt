-- ===== src/Scheduler/Allocate.antt =====
-- schedule_computation.cpp: scheduleStreams, which gives offsets to the transmissions of routed
-- streams. `unsigned` arithmetic wraps at 32 bits.
pub mod Free
pub mod Order
use tdmh.Base.{
  ℕ, zero, suc, ◌+◌, ◌-◌, ◌*◌, Links, List, [], ◌∷◌, ◌++◌, Option, none, some, Bool, true, false,
  ◌||◌, not, ◌==◌, if◌then◌else◌,
}
use tdmh.Queue.{pop_back}
use tdmh.Scheduler.Lcm.{lcm}
use tdmh.Scheduler.Element.{ScheduleElement, set_offset, period_of}
use tdmh.Scheduler.Slots.{Config, u32, check_data_slot}
use tdmh.Scheduler.Conflicts.{check_all_conflicts}

-- The variables of the loop over the streams: scheduled_transmissions, newSize and
-- linksCausingInterference.
pub record Allocation : Type 0 where
  pub scheduled : List ScheduleElement
  pub new_size : ℕ
  pub links : Links

-- (toInt(period) * slotsPerTile) - 1.
abbrev pub max_offset : Config → ScheduleElement → ℕ
max_offset c t = u32 (u32 (period_of t * c.slots_per_tile) + 4294967295)

-- The two checks for conflicts at one offset; both are made.
unfoldable pub try_offset :
    Config
    → List ScheduleElement
    → List ScheduleElement
    → ScheduleElement
    → ℕ
    → Links
    → Bool × Links
try_offset c current scheduled t offset links =
    let (old, links₁) = check_all_conflicts c current t offset links in
    let (new, links₂) = check_all_conflicts c scheduled t offset links₁ in (old || new, links₂)

-- The loop over the offsets, `count` of them from `offset` on: the first free one.
unfoldable pub find_offset :
    ℕ
    → Config
    → List ScheduleElement
    → List ScheduleElement
    → ScheduleElement
    → ℕ
    → Links
    → Option ℕ × Links
find_offset zero c current scheduled t offset links = (none, links)
find_offset (suc count) c current scheduled t offset links = elim (check_data_slot c offset) [
  | false ↦ find_offset count c current scheduled t (suc offset) links
  | true ↦
      let tried = try_offset c current scheduled t offset links in
      elim tried.0 [
        | false ↦ (some offset, tried.1)
        | true ↦ find_offset count c current scheduled t (suc offset) tried.1
      ]
]

-- The variables of the loop over the transmissions of one stream.
pub record Block : Type 0 where
  pub allocation : Allocation
  pub block_size : ℕ
  pub last_offset : ℕ
  pub stream_err : Bool

abbrev pub pop_times : ℕ → List ScheduleElement → List ScheduleElement
pop_times zero l = l
pop_times (suc n) l = pop_times n (pop_back l)

-- A stream that fails is undone.
abbrev pub undo : ℕ → Block → Allocation
undo last_size b = record {
  scheduled = pop_times b.block_size b.allocation.scheduled;
  new_size = last_size;
  links = b.allocation.links;
}

-- What is done with the offset that the loop found, or with none.
unfoldable pub place : Config → ScheduleElement → Option ℕ × Links → Block → Block
place c t (none, links) b = record {
  allocation = record {
    scheduled = b.allocation.scheduled;
    new_size = b.allocation.new_size;
    links = links;
  };
  block_size = b.block_size;
  last_offset = u32 (suc b.last_offset);
  stream_err = u32 (suc b.last_offset) == max_offset c t;
}
place c t (some offset, links) b = record {
  allocation = record {
    scheduled = b.allocation.scheduled ++ set_offset offset t ∷ [];
    new_size = lcm b.allocation.new_size (period_of t);
    links = links;
  };
  block_size = suc b.block_size;
  last_offset = u32 (suc offset);
  stream_err = u32 (suc offset) == max_offset c t;
}

abbrev pub search : Config → List ScheduleElement → ScheduleElement → Block → Option ℕ × Links
search c current t b =
    find_offset (max_offset c t - b.last_offset) c current b.allocation.scheduled t b.last_offset
      b.allocation.links

-- The loop over the transmissions of a stream.
pub schedule_block : Config → List ScheduleElement → ℕ → List ScheduleElement → Block → Allocation
schedule_block c current last_size [] b = b.allocation
schedule_block c current last_size (t ∷ ts) b = elim (b.stream_err || not (c.has_edge t.tx t.rx)) [
  | true ↦ undo last_size b
  | false ↦ schedule_block c current last_size ts (place c t (search c current t b) b)
]

abbrev pub begin_block : Allocation → Block
begin_block a = record { allocation = a; block_size = 0; last_offset = 0; stream_err = false }

schedule_routed :
    Config → List ScheduleElement → List (List ScheduleElement) → Allocation → Allocation
unfolding schedule_block
schedule_routed c current [] a = a
schedule_routed c current (ts ∷ streams) a =
    schedule_routed c current streams (schedule_block c current a.new_size ts (begin_block a))

unfoldable pub schedule_streams :
    Config → List (List ScheduleElement) → List ScheduleElement → ℕ → Links → Allocation
unfolding schedule_routed find_offset
schedule_streams c routed current sched_size links =
    schedule_routed c current routed
      (record { scheduled = []; new_size = sched_size; links = links })
