-- ===== src/Scheduler/Element.antt =====
-- schedule_element.h: the elements of a schedule, as the scheduler makes and reads them.
use tdmh.Base.{ℕ, ◌%◌, ◌^◌}
use tdmh.Stream.Params.{StreamId, StreamParameters, MasterStreamInfo, period_tiles}

pub record ScheduleElement : Type 0 where
  pub id : StreamId
  pub params : StreamParameters
  pub tx : ℕ
  pub rx : ℕ
  pub offset : ℕ

-- The constructor for a transmission of a multi-hop stream, and that for a single hop. The offset
-- is 0.
unfoldable pub hop_element : MasterStreamInfo → ℕ → ℕ → ScheduleElement
hop_element s tx rx = record { id = s.id; params = s.parameters; tx = tx; rx = rx; offset = 0 }

unfoldable pub single_hop_element : MasterStreamInfo → ScheduleElement
single_hop_element s = record {
  id = s.id;
  params = s.parameters;
  tx = s.id.src;
  rx = s.id.dst;
  offset = 0;
}

-- `setOffset` writes a bit-field of 20 bits.
unfoldable pub set_offset : ℕ → ScheduleElement → ScheduleElement
set_offset off e = record e { offset = off % 2 ^ 20 }

-- `toInt(getPeriod())`.
unfoldable pub period_of : ScheduleElement → ℕ
period_of e = period_tiles e.params.period
