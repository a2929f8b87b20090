-- ===== src/Downlink/Node/Collect.antt =====
-- initSchedule and appendToSchedule: how a schedule is put together from its packets.
use tdmh.Base.{
  ℕ, zero, suc, ◌+◌, ◌*◌, ◌%◌, List, [], ◌∷◌, ◌++◌, length, get_elem?, Option, none, some, Bool,
  true, not, ◌&&◌, ◌==◌, if◌then◌else◌,
}
use tdmh.Wire.Schedule.{ScheduleHeader, DownlinkElement, SchedulePacket}
use tdmh.Downlink.{schedule_repetitions, Event}
use tdmh.Downlink.Node.{Config, Node, Outcome, returned, threw, aborted, emit, apply_info_elements}

abbrev pub with_infos :
    (List DownlinkElement → Node → Outcome)
    → Node
    → Option (List DownlinkElement × List Event)
    → Outcome
with_infos f n none = aborted
with_infos f n (some (rest, events)) = f rest (emit events n)

-- `received.at(i)++`, an `unsigned char`.
unfoldable pub bump : ℕ → List ℕ → Option (List ℕ)
bump i [] = none
bump zero (x ∷ xs) = some ((x + 1) % 256 ∷ xs)
bump (suc i) (x ∷ xs) = elim (bump i xs) [ none ↦ none | some rest ↦ some (x ∷ rest) ]

unfoldable pub no_receptions : ℕ → List ℕ
no_receptions zero = []
no_receptions (suc n) = 0 ∷ no_receptions n

abbrev pub replace_schedule : ScheduleHeader → List DownlinkElement → Node → Node
replace_schedule h elements n = record n {
  header = h;
  current_schedule_id = h.schedule_id;
  schedule = elements;
  received = no_receptions h.total_packet;
}

-- The counter of rounds skips what has been missed.
abbrev pub begin_rounds : ScheduleHeader → Node → Option (List ℕ) → Outcome
begin_rounds h n none = threw n
begin_rounds h n (some received) = returned (record n {
  received = received;
  sending_rounds = h.total_packet * schedule_repetitions;
  current_sending_round = 1 + h.repetition * schedule_repetitions + h.current_packet;
})

unfoldable pub init_schedule : Config → SchedulePacket → Node → Outcome
init_schedule c p n =
    with_infos
      (λ elements n'.
        let n'' = replace_schedule p.header elements n' in
        begin_rounds p.header n'' (bump p.header.current_packet n''.received))
      n (apply_info_elements c p.elements)

abbrev pub same_schedule : ScheduleHeader → ScheduleHeader → Bool
same_schedule h next =
    h.total_packet == next.total_packet
    && (h.schedule_id == next.schedule_id
        && (h.schedule_tiles == next.schedule_tiles && h.activation_tile == next.activation_tile))

abbrev pub append_piece : ℕ → List DownlinkElement → Node → Option ℕ → Option (List ℕ) → Outcome
append_piece i elements n none received = threw n
append_piece i elements n (some count) none = threw n
append_piece i elements n (some count) (some received) = returned (record n {
  schedule = if count == 0 then n.schedule ++ elements else n.schedule;
  received = received;
})

unfoldable pub append_to_schedule : Config → SchedulePacket → Node → Outcome
append_to_schedule c p n =
    with_infos
      (λ elements n'.
        if same_schedule n'.header p.header
        then append_piece p.header.current_packet elements (record n' { header = p.header })
            (get_elem? n'.received p.header.current_packet)
            (bump p.header.current_packet n'.received)
        else returned n')
      n (apply_info_elements c p.elements)

unfoldable pub all_received : List ℕ → Bool
all_received [] = true
all_received (count ∷ counts) = not (count == 0) && all_received counts

unfoldable pub is_schedule_complete : Node → Bool
is_schedule_complete n = not (length n.received == 0) && all_received n.received
