-- ===== src/Downlink/Network.antt =====
-- The distribution of a schedule as a whole: slot by slot the master sends a packet, and a node
-- hears it or not.
pub mod Listens
pub mod Waits
pub mod Whole
pub mod Delivered
use tdmh.Base.{
  ℕ, List, [], ◌∷◌, ◌++◌, Option, none, some, Bool, true, false, max, length, if◌then◌else◌,
}
use tdmh.Scheduler.Element.{ScheduleElement}
use tdmh.Wire.Schedule.{ScheduleHeader, SchedulePacket}
use tdmh.Downlink.Master.{Master, num_packets}
use tdmh.Downlink.Master.Rounds.{on_air, piece_of}
use tdmh.Downlink.Node.{Node}
use tdmh.Downlink.Node.Hears.{Plan}

pub record Round : Type 0 where
  pub master : tdmh.Downlink.Master.Slot
  pub node : tdmh.Downlink.Node.Slot
  pub heard : Bool

abbrev pub after_node : Master → Option Node → Option (Master × Node)
after_node m none = none
after_node m (some n) = some (m, n)

abbrev pub after_master :
    tdmh.Downlink.Node.Config → Round → Node → Option Master → Option (Master × Node)
after_master nc r n none = none
after_master nc r n (some m) = after_node m (
    tdmh.Downlink.Node.Run.execute nc
      (record r.node { packet = if r.heard then on_air m.log else none }) n)

abbrev pub net_step :
    tdmh.Downlink.Master.Config
    → tdmh.Downlink.Node.Config
    → Round
    → Master × Node
    → Option (Master × Node)
net_step mc nc r (m, n) =
    after_master nc r n (tdmh.Downlink.Master.execute mc r.master (record m { log = [] }))

pub net_run :
    tdmh.Downlink.Master.Config
    → tdmh.Downlink.Node.Config
    → List Round
    → Master × Node
    → Option (Master × Node)
net_run mc nc [] s = some s
net_run mc nc (r ∷ rs) s = elim (net_step mc nc r s) [ none ↦ none | some s' ↦ net_run mc nc rs s' ]

-- The packets of a schedule, with a header that names it.
abbrev pub plan_of : ScheduleHeader → List ScheduleElement → Plan
plan_of base es = record { base = base; count = num_packets es; piece = piece_of es }
