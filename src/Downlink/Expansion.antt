-- ===== src/Downlink/Expansion.antt =====
-- schedule_expansion.h and .cpp: a node turns a schedule into its own slots, some elements in each
-- downlink slot, until none is left. The lists of the times at which streams are woken up are not made.
pub mod Plays
pub mod Steps
pub mod Splits
mod Examples
use tdmh.Base.{
  ℕ, zero, suc, ◌+◌, ◌-◌, ◌*◌, ◌%◌, List, [], ◌∷◌, length, get_elem?, elem, Option, none, some,
  Bool, true, false, not, ◌&&◌, ◌||◌, ◌==◌, ltb, if◌then◌else◌, Map, lookup, insert,
}
use tdmh.Stream.Params.{StreamId, StreamParameters, get_key, id_keyed}
use tdmh.Scheduler.Element.{ScheduleElement, period_of}
use tdmh.Wire.Schedule.{ScheduleHeader}

pub data Action : Type 0 where
  sleep send_stream recv_stream send_buffer recv_buffer : Action

-- What is done in a slot, for which stream, and with which buffer. The
-- buffer that is shared by the transmissions of a stream is named by the key of the stream.
pub record ExplicitScheduleElement : Type 0 where
  pub action : Action
  pub stream : Option (StreamId × StreamParameters)
  pub buffer : Option ℕ

abbrev pub asleep : ExplicitScheduleElement
asleep = record { action = sleep; stream = none; buffer = none }

pub record Config : Type 0 where
  pub slots_in_tile : ℕ
  pub expansions_per_slot : ℕ

pub record Expander : Type 0 where
  pub node_id : ℕ
  pub expansion_in_progress : Bool
  pub explicit_schedule_complete : Bool
  pub expansion_index : ℕ
  pub schedule_slots : ℕ
  pub explicit_schedule : List ExplicitScheduleElement
  pub buffers : List ℕ
  pub forwarded_streams : Map StreamId (ℕ × ℕ)

unfoldable pub all_asleep : ℕ → List ExplicitScheduleElement
all_asleep zero = []
all_asleep (suc n) = asleep ∷ all_asleep n

unfoldable pub start_expansion : Config → ScheduleHeader → ℕ → Expander → Expander
unfolding all_asleep
start_expansion c h node x =
    if x.expansion_in_progress
    then x
    else let slots = h.schedule_tiles * c.slots_in_tile in
      record {
        node_id = node;
        expansion_in_progress = true;
        explicit_schedule_complete = false;
        expansion_index = 0;
        schedule_slots = slots;
        explicit_schedule = all_asleep slots;
        buffers = [];
        forwarded_streams = [];
      }

-- The action of a node for an element, by the source, the sender, the destination and the
-- receiver.
unfoldable pub action_of : ℕ → ScheduleElement → Action
action_of node e =
    if e.id.src == node && e.tx == node
    then send_stream
    else if e.id.dst == node && e.rx == node
    then recv_stream
    else if not (e.id.src == node) && e.tx == node
    then send_buffer
    else if not (e.id.dst == node) && e.rx == node
    then recv_buffer
    else sleep

-- A transmission from a buffer is counted, in an `unsigned char`.
abbrev count_forward : Option (ℕ × ℕ) → ℕ × ℕ
count_forward none = (0, 1)
count_forward (some (sent, planned)) = (sent, (planned + 1) % 256)

abbrev pub prepare : Action → ScheduleElement → Expander → Expander × Option ℕ
prepare sleep e x = (x, none)
prepare send_stream e x = (x, none)
prepare recv_stream e x = (x, none)
prepare send_buffer e x = (
  record x {
    forwarded_streams =
        insert e.id (count_forward (lookup e.id x.forwarded_streams)) x.forwarded_streams;
  },
  if elem (get_key e.id) x.buffers then some (get_key e.id) else none,
)
prepare recv_buffer e x = (
  (if elem (get_key e.id) x.buffers then x else record x { buffers = get_key e.id ∷ x.buffers }),
  some (get_key e.id),
)

unfoldable pub set_entry :
    ℕ → ExplicitScheduleElement → List ExplicitScheduleElement → List ExplicitScheduleElement
set_entry i entry [] = []
set_entry zero entry (x ∷ xs) = entry ∷ xs
set_entry (suc i) entry (x ∷ xs) = x ∷ set_entry i entry xs

-- The loop over the repetitions of a transmission; each of its rounds goes at least one slot on.
unfoldable pub set_entries :
    ℕ
    → ℕ
    → ℕ
    → ℕ
    → ExplicitScheduleElement
    → List ExplicitScheduleElement
    → List ExplicitScheduleElement
set_entries zero slot period slots entry xs = xs
set_entries (suc rounds) slot period slots entry xs = elim (ltb slot slots) [
  | true ↦ set_entries rounds (slot + period) period slots entry (set_entry slot entry xs)
  | false ↦ xs
]

abbrev pub is_sleep : Action → Bool
is_sleep sleep = true
is_sleep send_stream = false
is_sleep recv_stream = false
is_sleep send_buffer = false
is_sleep recv_buffer = false

abbrev pub play : Config → ScheduleElement → Action → Expander × Option ℕ → Expander
play c e action (x, buffer) = record x {
  explicit_schedule =
      if is_sleep action
      then x.explicit_schedule
      else set_entries x.schedule_slots e.offset (period_of e * c.slots_in_tile) x.schedule_slots
          (record { action = action; stream = some (e.id, e.params); buffer = buffer })
          x.explicit_schedule;
  expansion_index = x.expansion_index + 1;
}

unfoldable pub expand_element : Config → ScheduleElement → Expander → Expander
unfolding action_of period_of set_entries set_entry
expand_element c e x = let action = action_of x.node_id e in play c e action (prepare action e x)

-- expandSchedule.
pub expand_some : Config → ℕ → List ScheduleElement → Expander → Expander
expand_some c zero es x = x
expand_some c (suc room) es x = elim (get_elem? es x.expansion_index) [
  | none ↦ x
  | some e ↦ expand_some c room es (expand_element c e x)
]

unfoldable pub expand_schedule : Config → List ScheduleElement → Expander → Expander
expand_schedule c es x =
    let x' = expand_some c c.expansions_per_slot es x in
    if x'.expansion_index == length es then record x' { explicit_schedule_complete = true } else x'

abbrev finish_expansion : Expander → Expander
finish_expansion x =
    if x.explicit_schedule_complete then record x { expansion_in_progress = false } else x

unfoldable pub continue_expansion : Config → List ScheduleElement → Expander → Expander
unfolding expand_schedule
continue_expansion c es x =
    if x.expansion_in_progress && not x.explicit_schedule_complete
    then finish_expansion (expand_schedule c es x)
    else x

unfoldable pub need_to_continue_expansion : Expander → Bool
need_to_continue_expansion x = not x.explicit_schedule_complete

-- The calls of continueExpansion in `count` downlink slots.
pub continue_times : Config → ℕ → List ScheduleElement → Expander → Expander
continue_times c zero es x = x
continue_times c (suc count) es x = continue_times c count es (continue_expansion c es x)
