-- ===== src/Scheduler/Conflicts.antt =====
-- schedule_computation.cpp: whether a transmission at an offset conflicts with scheduled ones.
pub mod Sound
use tdmh.Base.{
  ℕ, Keyed, link_keyed, Links, order_link, add, List, [], ◌∷◌, Bool, true, false, ◌&&◌, ◌||◌, not,
  ◌==◌, if◌then◌else◌,
}
use tdmh.Scheduler.Element.{ScheduleElement}
use tdmh.Scheduler.Slots.{Config, slot_conflict_possible, check_slot_conflict}

unfoldable pub check_unicity_conflict : ScheduleElement → ScheduleElement → Bool
check_unicity_conflict new old =
    new.tx == old.tx || new.tx == old.rx || new.rx == old.tx || new.rx == old.rx

unfoldable pub check_interference_conflict : Config → ScheduleElement → ScheduleElement → Bool
check_interference_conflict c new old =
    if c.use_weak_topologies
    then c.has_weak_edge new.tx old.rx || c.has_weak_edge new.rx old.tx
    else c.has_edge new.tx old.rx || c.has_edge new.rx old.tx

abbrev pub shares_slot : Config → ScheduleElement → ScheduleElement → ℕ → Bool
shares_slot c new old offset =
    slot_conflict_possible c old offset && check_slot_conflict c new old offset

abbrev pub clashes : Config → ScheduleElement → ScheduleElement → Bool
clashes c new old = check_unicity_conflict new old || check_interference_conflict c new old

-- The links that interfere if they come to exist.
abbrev note_links : ScheduleElement → ScheduleElement → Links → Links
note_links new old temp = add (order_link new.rx old.tx) (add (order_link new.tx old.rx) temp)

-- The loop of `checkAllConflicts`, which stops at the first conflict.
pub conflict_loop : Config → List ScheduleElement → ScheduleElement → ℕ → Links → Bool × Links
conflict_loop c [] new offset temp = (false, temp)
conflict_loop c (old ∷ others) new offset temp = elim (shares_slot c new old offset) [
  | false ↦ conflict_loop c others new offset temp
  | true ↦ elim c.channel_spatial_reuse [
    | false ↦ (true, temp)
    | true ↦ elim (clashes c new old) [
      | true ↦ (true, note_links new old temp)
      | false ↦ conflict_loop c others new offset (note_links new old temp)
    ]
  ]
]

abbrev pub add_all : Links → Links → Links
add_all [] links = links
add_all ((l, _) ∷ more) links = add_all more (add l links)

unfoldable pub check_all_conflicts :
    Config → List ScheduleElement → ScheduleElement → ℕ → Links → Bool × Links
unfolding conflict_loop
check_all_conflicts c others new offset links =
    let (conflict, temp) = conflict_loop c others new offset [] in
    (conflict, if conflict then links else add_all temp links)
