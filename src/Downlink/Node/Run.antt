-- ===== src/Downlink/Node/Run.antt =====
-- The state machine of a node: handleActivationAndRekeying and execute.
use tdmh.Base.{
  ℕ, ◌+◌, ◌*◌, [], ◌∷◌, Option, none, some, Bool, true, false, ◌&&◌, ◌==◌, ltb, leb, if◌then◌else◌,
}
use tdmh.Wire.Schedule.{ScheduleHeader, SchedulePacket}
use tdmh.Downlink.{
  Status, applied_schedule, sending_schedule, incomplete_schedule, processing, awaiting_activation,
  keys_start_rekeying, keys_apply_rekeying, streams_continue_rekeying, streams_enqueue_resend,
  data_apply_empty, expander_start, expander_continue, set_new_schedule, set_same_schedule,
  apply_new_schedule, apply_same_schedule,
}
use tdmh.Downlink.Node.{
  Config, Node, Slot, Outcome, returned, threw, aborted, emit, apply_info_elements,
}
use tdmh.Downlink.Node.Collect.{with_infos, init_schedule, append_to_schedule, is_schedule_complete}

unfoldable pub set_empty_schedule : Node → Node
set_empty_schedule n =
    emit (keys_start_rekeying ∷ streams_enqueue_resend ∷ [])
      (record n { incomplete_schedule_counter = 0 })

abbrev pub empty_header : ScheduleHeader
empty_header = record {
  total_packet = 0;
  current_packet = 0;
  schedule_id = 0;
  activation_tile = 0;
  schedule_tiles = 0;
  repetition = 0;
}

unfoldable pub apply_empty_schedule : Node → Node
apply_empty_schedule n =
    emit (keys_apply_rekeying ∷ data_apply_empty empty_header ∷ [])
      (record n { header = empty_header; schedule = []; received = [] })

unfoldable pub handle_incomplete_schedule : Config → Node → Node
handle_incomplete_schedule c n =
    if leb (c.max_nodes * 2) (n.incomplete_schedule_counter + 1)
    then emit (streams_enqueue_resend ∷ []) (record n { incomplete_schedule_counter = 0 })
    else record n { incomplete_schedule_counter = n.incomplete_schedule_counter + 1 }

-- handleActivationAndRekeying, by the status.
abbrev pub begin_processing : Node → Node
begin_processing n =
    if ltb n.last_schedule_id n.current_schedule_id
    then if is_schedule_complete n
      then emit (set_new_schedule n.schedule n.header) (record n {
        status = processing;
        need_to_perform_expansion = true;
        need_to_start_expansion = true;
      })
      else set_empty_schedule (record n { status = processing })
    else emit set_same_schedule (record n { status = processing })

abbrev pub activate : Node → Node
activate n =
    if ltb n.last_schedule_id n.current_schedule_id
    then if is_schedule_complete n
      then emit (apply_new_schedule n.schedule n.header)
          (record n { last_schedule_id = n.current_schedule_id; status = applied_schedule })
      else apply_empty_schedule (record n { status = incomplete_schedule })
    else emit apply_same_schedule (record n { status = applied_schedule })

abbrev pub start_expansion : Node → Node
start_expansion n =
    if n.need_to_start_expansion
    then emit (expander_start n.schedule n.header ∷ [])
        (record n { need_to_start_expansion = false })
    else n

abbrev pub continue_expansion : Status → Slot → Node → Node
continue_expansion next s n = emit (expander_continue n.schedule ∷ []) (record n {
  need_to_perform_expansion = n.need_to_perform_expansion && s.expansion_left;
  status = if s.expansion_left then n.status else next;
})

abbrev pub process : Slot → Node → Node
process s n =
    if leb n.next_activation_tile s.current_tile
    then if ltb n.last_schedule_id n.current_schedule_id && n.need_to_perform_expansion
      then continue_expansion n.status s (start_expansion n)
      else activate n
    else if is_schedule_complete n
    then (let n' = emit (streams_continue_rekeying ∷ []) n in
        if s.rekeying_left
        then n'
        else continue_expansion awaiting_activation s (start_expansion n'))
    else record n { status = awaiting_activation }

abbrev pub handle_by : Status → Slot → Node → Bool × Node
handle_by applied_schedule s n = (false, n)
handle_by incomplete_schedule s n = (false, n)
handle_by sending_schedule s n =
    if ltb n.current_sending_round n.sending_rounds
    then (false, n)
    else (true, begin_processing (record n { next_activation_tile = n.header.activation_tile }))
handle_by processing s n = (true, process s n)
handle_by awaiting_activation s n =
    if leb n.next_activation_tile s.current_tile then (true, activate n) else (false, n)

unfoldable pub handle_activation_and_rekeying : Slot → Node → Bool × Node
unfolding is_schedule_complete set_empty_schedule apply_empty_schedule
handle_activation_and_rekeying s n = handle_by n.status s n

abbrev pub is_schedule_packet : ScheduleHeader → Bool
is_schedule_packet h = ltb 0 h.total_packet

-- What is done with a packet, by the status.
abbrev pub then_sending : Outcome → Outcome
then_sending (returned n) = returned (record n { status = sending_schedule })
then_sending (threw n) = threw n
then_sending aborted = aborted

abbrev pub next_round : Outcome → Outcome
next_round (returned n) =
    returned (record n { current_sending_round = n.current_sending_round + 1 })
next_round (threw n) = threw n
next_round aborted = aborted

abbrev pub infos_only : Config → SchedulePacket → Node → Outcome
infos_only c p n = with_infos (λ _. returned) n (apply_info_elements c p.elements)

abbrev pub then_incomplete : Config → Outcome → Outcome
then_incomplete c (returned n) = returned (handle_incomplete_schedule c n)
then_incomplete c (threw n) = threw n
then_incomplete c aborted = aborted

abbrev pub receive_by : Status → Config → SchedulePacket → Node → Outcome
receive_by applied_schedule c p n =
    if is_schedule_packet p.header then then_sending (init_schedule c p n) else infos_only c p n
receive_by sending_schedule c p n =
    if is_schedule_packet p.header
    then if p.header.schedule_id == n.header.schedule_id
      then next_round (append_to_schedule c p n)
      else init_schedule c p n
    else returned n
receive_by awaiting_activation c p n =
    if is_schedule_packet p.header then aborted else infos_only c p n
receive_by incomplete_schedule c p n =
    if is_schedule_packet p.header
    then then_sending (init_schedule c p n)
    else then_incomplete c (infos_only c p n)
receive_by processing c p n = aborted

abbrev pub missed_by : Status → Config → Node → Node
missed_by applied_schedule c n = n
missed_by processing c n = n
missed_by awaiting_activation c n = n
missed_by incomplete_schedule c n = handle_incomplete_schedule c n
missed_by sending_schedule c n = record n { current_sending_round = n.current_sending_round + 1 }

-- A packet that makes the node throw is as if it had not been received, but for what was done
-- until then.
abbrev pub settle : Config → Outcome → Option Node
settle c (returned n) = some n
settle c (threw n) = some (missed_by n.status c n)
settle c aborted = none

abbrev pub listen : Config → Option SchedulePacket → Node → Option Node
listen c none n = some (missed_by n.status c n)
listen c (some p) n = settle c (receive_by n.status c p n)

unfoldable pub execute : Config → Slot → Node → Option Node
unfolding handle_incomplete_schedule init_schedule append_to_schedule
execute c s n =
    let (busy, n') = handle_activation_and_rekeying s n in
    if busy then some n' else listen c s.packet n'

-- `advance`, in a slot in which the node is not yet in step, and `desync`.
unfoldable pub advance : Slot → Node → Node
advance s n = (handle_activation_and_rekeying s n).1

unfoldable pub desync : Node → Node
desync n = record n {
  header = empty_header;
  schedule = [];
  received = [];
  incomplete_schedule_counter = 0;
  last_schedule_id = 0;
  current_schedule_id = 0;
  next_activation_tile = 0;
  status = applied_schedule;
}

unfoldable pub force_schedule_activation : ℕ → Node → Node
force_schedule_activation tile n = record (set_empty_schedule (record n { status = processing })) {
  next_activation_tile = tile;
}

unfoldable pub get_next_activation_tile : Node → ℕ
get_next_activation_tile n = elim n.status [
  | applied_schedule ↦ 0
  | incomplete_schedule ↦ 0
  | other ↦ n.next_activation_tile
]
