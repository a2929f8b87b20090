-- ===== src/Manager/Phases.antt =====
-- stream_manager.cpp: what the MAC calls while a schedule is in use, in the data phase and at other
-- times; it holds the mutex of the streams all the time. An exception that leaves the data phase is
-- `none`.
use tdmh.Base.{
  ℕ, Map, lookup, nat_keyed, List, [], ◌∷◌, Option, none, some, Bool, true, false, if◌then◌else◌,
}
use tdmh.Queue.{clear}
use tdmh.Stream.Params.{StreamId, id_keyed}
use tdmh.Stream.Collection.{sme_keyed}
use tdmh.Stream.Wakeup.{StreamWakeupInfo}
use tdmh.Stream.Wakeup.Scheduler.{set_streams_wakeup_lists}
use tdmh.Packet.{Packet}
use tdmh.Endpoint.{Output, Stream}
use tdmh.Endpoint.Machine.{end_wait, periodic_update, desync}
use tdmh.Endpoint.Server.{Server, update_server}
use tdmh.Endpoint.Socket.{◌>>=◌, receive_packet, miss_packet, send_packet, reset_sequence_number}
use tdmh.Manager.{
  Object, a_stream, StreamManager, emit, put_object, on_stream, on_server, remove_stream,
}
use tdmh.Manager.Calls.{quietly, id_at, advance_of}

-- A method of a server that returns nothing.
abbrev pub server_quietly : (Server → Server) → Server → Server × List Output × Bool
server_quietly f s = (f s, [], false)

abbrev pub without_flag : {A : Type 0} → (A → A × List Output) → A → A × List Output × Bool
without_flag f s = let (s', outputs) = f s in (s', outputs, false)

-- A loop over the streams, or over the servers.
unfoldable pub for_each :
    {K : Type 0} → (ℕ → StreamManager → StreamManager) → Map K ℕ → StreamManager → StreamManager
for_each f [] m = m
for_each f ((k, p) ∷ ps) m = for_each f ps (f p m)

-- The streams that are to be deleted.
unfoldable pub desync_each : Map StreamId ℕ → StreamManager → StreamManager × List StreamId
desync_each [] m = (m, [])
desync_each ((k, p) ∷ ps) m =
    let (m', deletable) = on_stream desync p m in
    let (m'', ids) = desync_each ps m' in
    (m'', if deletable then id_at (lookup p m'.objects) ∷ ids else ids)

unfoldable pub remove_streams : List StreamId → StreamManager → StreamManager
remove_streams [] m = m
remove_streams (id ∷ ids) m = remove_streams ids (remove_stream id m)

-- The servers are left as they are.
unfoldable pub desync_streams : StreamManager → StreamManager
unfolding desync_each remove_streams
desync_streams m =
    let (m', ids) = desync_each m.streams m in
    let m'' = remove_streams ids m' in record m'' { sme_queue = clear m''.sme_queue }

unfoldable pub wake_stream : StreamId → StreamManager → StreamManager × Bool
wake_stream id m = elim (lookup id m.streams) [
  | none ↦ (m, false)
  | some p ↦ ((on_stream (quietly end_wait) p m).0, true)
]

unfoldable pub get_wakeup_advance : StreamId → StreamManager → ℕ
get_wakeup_advance id m = elim (lookup id m.streams) [
  | none ↦ 0
  | some p ↦ advance_of (lookup p m.objects)
]

-- periodicUpdate.
abbrev pub update_stream_at : ℕ → StreamManager → StreamManager
update_stream_at p m = (on_stream (without_flag periodic_update) p m).0

abbrev pub update_server_at : ℕ → StreamManager → StreamManager
update_server_at p m = (on_server (without_flag update_server) p m).0

unfoldable pub update_endpoints : StreamManager → StreamManager
unfolding for_each
update_endpoints m =
    let m' = for_each update_stream_at m.streams m in for_each update_server_at m'.servers m'

-- A call of the data phase.
abbrev pub on_data :
    {R : Type 0}
    → (Stream → Option (Stream × List Output × R))
    → ℕ
    → Option Object
    → StreamManager
    → Option (StreamManager × R)
on_data f p (some (a_stream s)) m = do
  (s', outputs, r) ← f s
  some (emit outputs (put_object p (a_stream s') m), r)
on_data f p _ m = none

unfoldable pub receive_for : Packet → StreamId → StreamManager → Option (StreamManager × Bool)
receive_for packet id m = elim (lookup id m.streams) [
  | none ↦ some (m, false)
  | some p ↦ on_data (receive_packet packet) p (lookup p m.objects) m
]

unfoldable pub miss_for : StreamId → StreamManager → Option (StreamManager × Bool)
miss_for id m = elim (lookup id m.streams) [
  | none ↦ some (m, false)
  | some p ↦ on_data miss_packet p (lookup p m.objects) m
]

unfoldable pub send_for : List ℕ → StreamId → StreamManager → Option (StreamManager × Option Packet)
send_for bytes id m = elim (lookup id m.streams) [
  | none ↦ some (m, none)
  | some p ↦ on_data (send_packet bytes) p (lookup p m.objects) m
]

abbrev pub reset_number_at : ℕ → StreamManager → StreamManager
reset_number_at p m = (on_stream (quietly reset_sequence_number) p m).0

unfoldable pub reset_sequence_numbers : StreamManager → StreamManager
unfolding for_each
reset_sequence_numbers m = for_each reset_number_at m.streams m

-- trustMaster and untrustMaster.
unfoldable pub set_trust : Bool → StreamManager → StreamManager
set_trust trusted m = record m { master_trusted = trusted }

-- setStreamsWakeupLists, with the current tile.
unfoldable pub set_wakeup_lists :
    ℕ → List StreamWakeupInfo → List StreamWakeupInfo → StreamManager → StreamManager
set_wakeup_lists tile curr next m = record m {
  wakeup_scheduler = set_streams_wakeup_lists tile curr next m.wakeup_scheduler;
}

abbrev number_of : Option Object → ℕ
number_of (some (a_stream s)) = s.buffers.seq_no
number_of _ = 0

unfoldable pub get_sequence_number : StreamId → StreamManager → ℕ
get_sequence_number id m = elim (lookup id m.streams) [
  | none ↦ 0
  | some p ↦ number_of (lookup p m.objects)
]
