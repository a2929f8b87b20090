-- ===== src/Manager/Consistent/Applied.antt =====
-- A schedule that is set or applied, and the information that comes with it, keep the tables
-- consistent.
use tdmh.Base.{ℕ, refl, lookup, nat_keyed, List, [], ◌∷◌, map, Option, none, some, if◌then◌else◌}
use tdmh.Stream.Params.{StreamId, id_keyed, is_server}
use tdmh.Stream.Collection.{InfoType, server_opened, server_closed, stream_reject}
use tdmh.Scheduler.Element.{ScheduleElement}
use tdmh.Wire.Schedule.{ScheduleHeader}
use tdmh.Endpoint.Machine.{removed_stream, rejected_stream}
use tdmh.Endpoint.Server.{close_server, accepted_server, rejected_server}
use tdmh.Endpoint.Socket.{reset_counters}
use tdmh.Manager.{ManagerConfig, StreamManager, on_stream, remove_stream}
use tdmh.Manager.Calls.{quietly}
use tdmh.Manager.Phases.{server_quietly}
use tdmh.Manager.Schedule.{
  is_mine, set_elements, set_schedule, apply_elements, remove_one, remove_unscheduled, reset_at,
  reset_all, apply_schedule, Info, tell_server, closed_new_server, tell_stream, apply_info,
  apply_info_elements,
}
use tdmh.Manager.Tables.{tables, IfSome, bind-IfSome}
use tdmh.Manager.Invariant.{set_to_remove-WellFormed}
use tdmh.Manager.Kept.{
  removed_stream-Keeps, rejected_stream-Keeps, accepted_server-Keeps, rejected_server-Keeps,
  close_server-Keeps,
}
use tdmh.Manager.Consistent.{
  IsConsistent, on_stream-IsConsistent, on_server-IsConsistent, add_server-IsConsistent,
  remove_stream-IsConsistent, if-IsConsistent, option-IsConsistent,
}
use tdmh.Manager.Consistent.Schedule.{
  for_each-IsConsistent, set_element-IsConsistent, apply_element-IsConsistent,
}

set_elements-IsConsistent :
    (c : ManagerConfig) (es : List ScheduleElement) (m : StreamManager)
    → IsConsistent m
    → IsConsistent (set_elements c es m)
unfolding set_elements
set_elements-IsConsistent c [] m w = w
set_elements-IsConsistent c (e ∷ es) m w =
    set_elements-IsConsistent c es _ (set_element-IsConsistent c e m w)

pub set_schedule-IsConsistent :
    (c : ManagerConfig) (es : List ScheduleElement) (h : ScheduleHeader) (m : StreamManager)
    → IsConsistent m
    → IsConsistent (set_schedule c es h m)
unfolding set_schedule
set_schedule-IsConsistent c es h m w =
    set_elements-IsConsistent c es (record m { streams_to_remove = map (λ e. e.0) m.streams })
      (set_to_remove-WellFormed (tables m) w _)

pub apply_elements-IsConsistent :
    (c : ManagerConfig) (es : List ScheduleElement) (m : StreamManager)
    → IsConsistent m
    → IsConsistent (apply_elements c es m)
unfolding apply_elements
apply_elements-IsConsistent c [] m w = w
apply_elements-IsConsistent c (e ∷ es) m w =
    apply_elements-IsConsistent c es _ (apply_element-IsConsistent c e m w)

remove_one-IsConsistent :
    (id : StreamId) (m : StreamManager) → IsConsistent m → IfSome IsConsistent (remove_one id m)
remove_one-IsConsistent id m w = split (lookup id m.streams)
  where
    split :
        (x : Option ℕ)
        → IfSome IsConsistent (elim x [
          | none ↦ none
          | some p ↦
              let (m', deletable) = on_stream removed_stream p m in
              some (if deletable then remove_stream id m' else m')
        ])
    split none = tt
    split (some p) =
        let w' = on_stream-IsConsistent removed_stream p m removed_stream-Keeps w in
        if-IsConsistent (λ x. x) (on_stream removed_stream p m).1 _ _
          (remove_stream-IsConsistent id (on_stream removed_stream p m).0 w') w'

remove_unscheduled-IsConsistent :
    (ids : List StreamId) (m : StreamManager)
    → IsConsistent m
    → IfSome IsConsistent (remove_unscheduled ids m)
unfolding remove_unscheduled
remove_unscheduled-IsConsistent [] m w = w
remove_unscheduled-IsConsistent (id ∷ ids) m w =
    bind-IfSome IsConsistent IsConsistent (remove_one id m) (remove_unscheduled ids)
      (remove_one-IsConsistent id m w) (remove_unscheduled-IsConsistent ids)

reset_all-IsConsistent : (m : StreamManager) → IsConsistent m → IsConsistent (reset_all m)
unfolding reset_counters
reset_all-IsConsistent m w =
    for_each-IsConsistent reset_at
      (λ p m. on_stream-IsConsistent (quietly reset_counters) p m (λ s. refl)) m.streams m w

pub apply_schedule-IsConsistent :
    (c : ManagerConfig) (es : List ScheduleElement) (m : StreamManager)
    → IsConsistent m
    → IfSome IsConsistent (apply_schedule c es m)
unfolding apply_schedule
apply_schedule-IsConsistent c es m w =
    bind-IfSome IsConsistent IsConsistent
      (remove_unscheduled m.streams_to_remove (apply_elements c es m)) _
      (remove_unscheduled-IsConsistent m.streams_to_remove _ (apply_elements-IsConsistent c es m w))
      (λ m' h.
        reset_all-IsConsistent (record m' { streams_to_remove = [] })
          (set_to_remove-WellFormed (tables m') h []))

tell_server-IsConsistent :
    (type : InfoType) (p : ℕ) (m : StreamManager)
    → IsConsistent m
    → IsConsistent (tell_server type p m)
tell_server-IsConsistent server_opened p m =
    on_server-IsConsistent (server_quietly accepted_server) p m accepted_server-Keeps
tell_server-IsConsistent server_closed p m =
    on_server-IsConsistent (server_quietly rejected_server) p m rejected_server-Keeps
tell_server-IsConsistent stream_reject p m = λ w. w

closed_new_server-IsConsistent :
    (i : Info) (type : InfoType) (m : StreamManager)
    → IsConsistent m
    → IsConsistent (closed_new_server i type m)
closed_new_server-IsConsistent i server_opened m w =
    on_server-IsConsistent close_server m.fd_counter _ close_server-Keeps
      (add_server-IsConsistent _ m w)
closed_new_server-IsConsistent i server_closed m w = w
closed_new_server-IsConsistent i stream_reject m w = w

tell_stream-IsConsistent :
    (type : InfoType) (p : ℕ) (m : StreamManager)
    → IsConsistent m
    → IsConsistent (tell_stream type p m)
tell_stream-IsConsistent server_opened p m = λ w. w
tell_stream-IsConsistent server_closed p m = λ w. w
tell_stream-IsConsistent stream_reject p m =
    on_stream-IsConsistent (quietly rejected_stream) p m rejected_stream-Keeps

apply_info-IsConsistent :
    (c : ManagerConfig) (i : Info) (m : StreamManager)
    → IsConsistent m
    → IsConsistent (apply_info c i m)
apply_info-IsConsistent c i m w =
    if-IsConsistent (λ x. x) (is_mine c i.id) _ m
      (if-IsConsistent (λ x. x) (is_server i.id) _ _
        (option-IsConsistent (λ x. x) (lookup i.id.dst_port m.servers) _ _
          (λ _. closed_new_server-IsConsistent i i.type m w)
          (λ p _. tell_server-IsConsistent i.type p m w))
        (option-IsConsistent (λ x. x) (lookup i.id m.streams) m _ (λ _. w)
          (λ p _. tell_stream-IsConsistent i.type p m w)))
      w

pub apply_info_elements-IsConsistent :
    (c : ManagerConfig) (is : List Info) (m : StreamManager)
    → IsConsistent m
    → IsConsistent (apply_info_elements c is m)
unfolding apply_info_elements
apply_info_elements-IsConsistent c [] m w = w
apply_info_elements-IsConsistent c (i ∷ is) m w =
    apply_info_elements-IsConsistent c is _ (apply_info-IsConsistent c i m w)
