-- ===== src/Downlink/Node.antt =====
-- dynamic_schedule_distribution.h and .cpp: the side of the nodes, its state, and the elements of
-- a packet that are no part of a schedule.
pub mod Infos
pub mod Collect
pub mod Run
pub mod Pieces
pub mod Hears
use tdmh.Base.{
  ℕ, zero, suc, ◌+◌, ◌*◌, ◌%◌, List, [], ◌∷◌, ◌++◌, length, get_elem?, Option, none, some, Bool,
  true, false, not, ◌||◌, ◌&&◌, ◌==◌, ltb, leb, if◌then◌else◌,
}
use tdmh.Wire.Schedule.{ScheduleHeader, DownlinkElement, schedule, info, response, SchedulePacket}
use tdmh.Downlink.{
  Status, applied_schedule, sending_schedule, incomplete_schedule, processing, awaiting_activation,
  schedule_repetitions, Event, keys_start_rekeying, keys_apply_rekeying, keys_check_response,
  streams_continue_rekeying, streams_apply_infos, streams_enqueue_resend, data_apply_empty,
  expander_start, expander_continue, set_new_schedule, set_same_schedule, apply_new_schedule,
  apply_same_schedule,
}

-- `stale_id` is what the uninitialized node id of an element happens to be that is no response.
pub record Config : Type 0 where
  pub my_id : ℕ
  pub max_nodes : ℕ
  pub do_master_challenge : Bool
  pub stale_id : ℕ

pub record Node : Type 0 where
  pub status : Status
  pub header : ScheduleHeader
  pub schedule : List DownlinkElement
  pub received : List ℕ
  pub incomplete_schedule_counter : ℕ
  pub last_schedule_id : ℕ
  pub current_schedule_id : ℕ
  pub next_activation_tile : ℕ
  pub need_to_start_expansion : Bool
  pub need_to_perform_expansion : Bool
  pub sending_rounds : ℕ
  pub current_sending_round : ℕ
  pub log : List Event

-- What a downlink slot brings: its tile, the packet if one was received and could be read, and
-- whether the stream manager and the expander have more to do when asked.
pub record Slot : Type 0 where
  pub current_tile : ℕ
  pub packet : Option SchedulePacket
  pub rekeying_left : Bool
  pub expansion_left : Bool

-- A call returns, throws, or ends the program, by an assertion or by `pop_back` on no element.
pub data Outcome : Type 0 where
  returned threw : Node → Outcome
  aborted : Outcome

abbrev pub emit : List Event → Node → Node
emit events n = record n { log = n.log ++ events }

-- Elements.
abbrev pub is_info : DownlinkElement → Bool
is_info (schedule e) = false
is_info (info e) = true
is_info (response node bytes) = false

abbrev pub is_response : DownlinkElement → Bool
is_response (schedule e) = false
is_response (info e) = false
is_response (response node bytes) = true

abbrev pub node_id : Config → DownlinkElement → ℕ
node_id c (schedule e) = c.stale_id
node_id c (info e) = c.stale_id
node_id c (response node bytes) = node

abbrev pub response_bytes : DownlinkElement → List ℕ
response_bytes (schedule e) = []
response_bytes (info e) = []
response_bytes (response node bytes) = bytes

-- `find_if`, and the elements from there on.
pub from_first : {A : Type 0} → (A → Bool) → List A → List A
from_first test [] = []
from_first test (x ∷ xs) = elim (test x) [ true ↦ x ∷ xs | false ↦ from_first test xs ]

-- `popElements`.
unfoldable pub pop_one : {A : Type 0} → List A → Option (List A)
pop_one [] = none
pop_one (x ∷ []) = some []
pop_one (x ∷ y ∷ xs) = elim (pop_one (y ∷ xs)) [ none ↦ none | some rest ↦ some (x ∷ rest) ]

pub pop_elements : {A : Type 0} → ℕ → List A → Option (List A)
pop_elements zero xs = some xs
pop_elements (suc n) xs = elim (pop_one xs) [ none ↦ none | some rest ↦ pop_elements n rest ]

my_response : Config → List DownlinkElement → List Event
my_response c [] = []
my_response c (e ∷ es) = elim (node_id c e == c.my_id) [
  | true ↦ keys_check_response (response_bytes e) ∷ []
  | false ↦ my_response c es
]

abbrev infos_events : List DownlinkElement → List Event
infos_events [] = []
infos_events (e ∷ es) = streams_apply_infos (e ∷ es) ∷ []

-- applyInfoElements: the elements that are left in the packet, and what is done with the others.
-- The responses are looked for in a copy of all of them.
abbrev pub pop_responses :
    Config → List DownlinkElement → Option (List DownlinkElement) → Option (List DownlinkElement)
pop_responses c elements none = none
pop_responses c elements (some rest) =
    if c.do_master_challenge
    then pop_elements (length (from_first is_response elements)) rest
    else some rest

abbrev pub with_events :
    List Event → Option (List DownlinkElement) → Option (List DownlinkElement × List Event)
with_events events none = none
with_events events (some rest) = some (rest, events)

unfoldable pub apply_info_elements :
    Config → List DownlinkElement → Option (List DownlinkElement × List Event)
unfolding my_response
apply_info_elements c elements =
    let infos = from_first is_info elements in
    with_events
      ((if c.do_master_challenge then my_response c (from_first is_response elements) else [])
        ++ infos_events infos)
      (pop_responses c elements (pop_elements (length infos) elements))
