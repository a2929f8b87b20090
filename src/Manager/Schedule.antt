-- ===== src/Manager/Schedule.antt =====
-- stream_manager.cpp: a new schedule, which is set first, and applied when it becomes active, and the
-- information that comes with it. A null pointer that is followed is `none`.
use tdmh.Base.{
  ℕ, lookup, nat_keyed, List, [], ◌∷◌, map, Option, none, some, Bool, true, false, ◌||◌, ◌==◌,
  if◌then◌else◌,
}
use tdmh.Stream.Params.{StreamId, get_key, id_keyed, get_server_id, is_server, StreamParameters}
use tdmh.Stream.Collection.{sme_keyed, InfoType, server_opened, server_closed, stream_reject}
use tdmh.Scheduler.Element.{ScheduleElement}
use tdmh.Wire.Schedule.{ScheduleHeader}
use tdmh.Stream.Wakeup.Scheduler.{set_schedule_header}
use tdmh.Endpoint.{StreamStatus, accept_wait, close_wait, listen}
use tdmh.Endpoint.Machine.{added_stream, removed_stream, rejected_stream, close}
use tdmh.Endpoint.Server.{add_pending_stream, accepted_server, rejected_server, close_server}
use tdmh.Endpoint.Socket.{◌>>=◌, reset_counters}
use tdmh.Manager.{
  ManagerConfig, StreamManager, on_stream, on_server, add_stream, add_server, remove_stream,
}
use tdmh.Manager.Calls.{quietly, status_at}
use tdmh.Manager.Phases.{server_quietly, for_each}

abbrev pub is_mine : ManagerConfig → StreamId → Bool
is_mine c id = id.src == c.my_id || id.dst == c.my_id

-- `std::remove` and `erase`.
unfoldable pub without : StreamId → List StreamId → List StreamId
without id [] = []
without id (j ∷ js) = if get_key j == get_key id then without id js else j ∷ without id js

-- A new stream that a server of this node waits for.
abbrev pub offer_stream : ManagerConfig → ScheduleElement → ℕ → StreamManager → StreamManager
offer_stream c e server m =
    (on_server (server_quietly (add_pending_stream m.fd_counter)) server
      (add_stream c (record { id = e.id; parameters = e.params; status = accept_wait }) m)).0

-- A new stream that no server waits for, and its server, are closed.
abbrev pub refuse_stream : ManagerConfig → ScheduleElement → StreamManager → StreamManager
refuse_stream c e m =
    let m₁ = add_stream c (record { id = e.id; parameters = e.params; status = close_wait }) m in
    let m₂ = (on_stream close m.fd_counter m₁).0 in
    let m₃ =
      add_server (record { id = get_server_id e.id; parameters = e.params; status = close_wait })
        m₂ in
    (on_server close_server m₂.fd_counter m₃).0

abbrev pub is_listening : StreamStatus → Bool
is_listening listen = true
is_listening _ = false

abbrev pub new_in_schedule : ManagerConfig → ScheduleElement → StreamManager → StreamManager
new_in_schedule c e m = elim (lookup (get_server_id e.id).dst_port m.servers) [
  | none ↦ refuse_stream c e m
  | some server ↦
      if is_listening (status_at (lookup server m.objects))
      then offer_stream c e server m
      else refuse_stream c e m
]

abbrev pub set_element : ManagerConfig → ScheduleElement → StreamManager → StreamManager
set_element c e m =
    if is_mine c e.id
    then elim (lookup e.id m.streams) [
      | some p ↦ record m { streams_to_remove = without e.id m.streams_to_remove }
      | none ↦ new_in_schedule c e m
    ]
    else m

unfoldable pub set_elements : ManagerConfig → List ScheduleElement → StreamManager → StreamManager
unfolding without
set_elements c [] m = m
set_elements c (e ∷ es) m = set_elements c es (set_element c e m)

unfoldable pub set_schedule :
    ManagerConfig → List ScheduleElement → ScheduleHeader → StreamManager → StreamManager
unfolding set_elements
set_schedule c schedule header m =
    let m' = set_elements c schedule (record m { streams_to_remove = map (λ e. e.0) m.streams }) in
    record m' { wakeup_scheduler = set_schedule_header c.wakeup_config header m'.wakeup_scheduler }

abbrev pub apply_element : ManagerConfig → ScheduleElement → StreamManager → StreamManager
apply_element c e m =
    if is_mine c e.id
    then elim (lookup e.id m.streams) [
      | none ↦ m
      | some p ↦ (on_stream (quietly (added_stream e.params)) p m).0
    ]
    else m

unfoldable pub apply_elements : ManagerConfig → List ScheduleElement → StreamManager → StreamManager
apply_elements c [] m = m
apply_elements c (e ∷ es) m = apply_elements c es (apply_element c e m)

-- A stream that is not in the map is made there by `[]`, as a null pointer.
abbrev pub remove_one : StreamId → StreamManager → Option StreamManager
remove_one id m = elim (lookup id m.streams) [
  | none ↦ none
  | some p ↦
      let (m', deletable) = on_stream removed_stream p m in
      some (if deletable then remove_stream id m' else m')
]

unfoldable pub remove_unscheduled : List StreamId → StreamManager → Option StreamManager
remove_unscheduled [] m = some m
remove_unscheduled (id ∷ ids) m = remove_one id m >>= remove_unscheduled ids

abbrev pub reset_at : ℕ → StreamManager → StreamManager
reset_at p m = (on_stream (quietly reset_counters) p m).0

abbrev pub reset_all : StreamManager → StreamManager
reset_all m = for_each reset_at m.streams m

unfoldable pub apply_schedule :
    ManagerConfig → List ScheduleElement → StreamManager → Option StreamManager
unfolding apply_elements remove_unscheduled
apply_schedule c schedule m = do
  m' ← remove_unscheduled m.streams_to_remove (apply_elements c schedule m)
  some (reset_all (record m' { streams_to_remove = [] }))

-- An InfoElement, with its parameters.
pub record Info : Type 0 where
  pub id : StreamId
  pub params : StreamParameters
  pub type : InfoType

abbrev pub tell_server : InfoType → ℕ → StreamManager → StreamManager
tell_server server_opened p m = (on_server (server_quietly accepted_server) p m).0
tell_server server_closed p m = (on_server (server_quietly rejected_server) p m).0
tell_server stream_reject p m = m

abbrev pub closed_new_server : Info → InfoType → StreamManager → StreamManager
closed_new_server i server_opened m =
    (on_server close_server m.fd_counter
      (add_server (record { id = i.id; parameters = i.params; status = close_wait }) m)).0
closed_new_server i _ m = m

abbrev pub tell_stream : InfoType → ℕ → StreamManager → StreamManager
tell_stream stream_reject p m = (on_stream (quietly rejected_stream) p m).0
tell_stream _ p m = m

abbrev pub apply_info : ManagerConfig → Info → StreamManager → StreamManager
apply_info c i m =
    if is_mine c i.id
    then (if is_server i.id
        then elim (lookup i.id.dst_port m.servers) [
          | some p ↦ tell_server i.type p m
          | none ↦ closed_new_server i i.type m
        ]
        else elim (lookup i.id m.streams) [ some p ↦ tell_stream i.type p m | none ↦ m ])
    else m

unfoldable pub apply_info_elements : ManagerConfig → List Info → StreamManager → StreamManager
apply_info_elements c [] m = m
apply_info_elements c (i ∷ is) m = apply_info_elements c is (apply_info c i m)
