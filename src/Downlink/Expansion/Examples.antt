-- ===== src/Downlink/Expansion/Examples.antt =====
-- A node that forwards a stream of two hops, and expands one element in each downlink slot.
use tdmh.Base.{ℕ, ◌≡◌, refl, List, [], ◌∷◌, true, false, insert, lookup, arith}
use tdmh.Scheduler.Element.{ScheduleElement, period_of}
use tdmh.Stream.Params.{StreamId, period_tiles}
use tdmh.Wire.Schedule.{ScheduleHeader}
use tdmh.Downlink.Expansion.{
  Config, Expander, start_expansion, continue_expansion, continue_times, need_to_continue_expansion,
  expand_some, expand_element,
}
use tdmh.Downlink.Expansion.Splits.{Expanded, continue_times-expands}

abbrev config : Config
config = record { slots_in_tile = 10; expansions_per_slot = 1 }

abbrev id : StreamId
id = record { src = 1; dst = 3; src_port = 0; dst_port = 2 }

-- The period is of one tile.
abbrev hop : ℕ → ℕ → ℕ → ScheduleElement
hop tx rx offset = record {
  id = id;
  params = record { redundancy = 0; period = 1; payload_size = 40; direction = 0 };
  tx = tx;
  rx = rx;
  offset = offset;
}

abbrev hops : List ScheduleElement
hops = hop 1 2 3 ∷ hop 2 3 5 ∷ []

abbrev header : ScheduleHeader
header = record {
  total_packet = 1;
  current_packet = 0;
  schedule_id = 7;
  activation_tile = 64;
  schedule_tiles = 2;
  repetition = 0;
}

abbrev idle : Expander
idle = record {
  node_id = 0;
  expansion_in_progress = false;
  explicit_schedule_complete = false;
  expansion_index = 0;
  schedule_slots = 0;
  explicit_schedule = [];
  buffers = [];
  forwarded_streams = [];
}

-- After one call an element is left.
one_call :
    need_to_continue_expansion (continue_times config 1 hops (start_expansion config header 2 idle))
    ≡ true
unfolding need_to_continue_expansion continue_times continue_expansion start_expansion expand_some
    expand_element
one_call = refl

-- The node receives into the buffer of the stream, and sends once from it.
forwards :
    (continue_times config 2 hops (start_expansion config header 2 idle)).forwarded_streams
    ≡ (id, (0, 1)) ∷ []
unfolding continue_times continue_expansion start_expansion expand_some expand_element insert lookup
forwards = refl

continue_times-expands_example :
    Expanded config header 2 hops
      (continue_times config 2 hops (start_expansion config header 2 idle))
unfolding period_of period_tiles
continue_times-expands_example =
    continue_times-expands config header 2 2 hops idle (omega arith)
      (omega arith, (omega arith, tt)) refl (omega arith) (omega arith)
