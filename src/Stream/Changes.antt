-- ===== src/Stream/Changes.antt =====
-- stream_collection.cpp: StreamSnapshot, the scheduler's copy of the streams, the changes that it
-- finds for a new schedule, and StreamCollection::applyChanges, which makes them.
pub mod Found
pub mod Applied
pub mod Settled
use tdmh.Base.{
  ◌≡◌, Keyed, Map, lookup, insert, erase, Set, add, List, [], ◌∷◌, Option, none, some, Bool, true,
  false, if◌then◌else◌,
}
use tdmh.Stream.Params.{
  StreamId, get_key, id_keyed, is_server, MasterStreamStatus, accepted, established, listen,
  MasterStreamInfo, set_status,
}
use tdmh.Stream.Collection.{StreamCollection, InfoType, stream_reject, enqueue_info}
use tdmh.Scheduler.Element.{ScheduleElement}

pub data StreamChange : Type 0 where
  establish reject close : StreamChange

pub record StreamSnapshot : Type 0 where
  pub collection : Map StreamId MasterStreamInfo
  pub modified : Bool
  pub removed : Bool
  pub added : Bool

-- `getSnapshot`, which clears the flags of the collection.
unfoldable pub clear_flags : StreamCollection → StreamCollection
clear_flags s = record s {
  modified_flag = false;
  removed_flag = false;
  added_flag = false;
  resend_flag = false;
}

unfoldable pub get_snapshot : StreamCollection → StreamSnapshot × StreamCollection
unfolding clear_flags
get_snapshot s = (
  record {
    collection = s.collection;
    modified = s.modified_flag;
    removed = s.removed_flag;
    added = s.added_flag;
  },
  clear_flags s,
)

-- `getOperation`: whether to reschedule and whether to resend.
unfoldable pub get_operation : StreamCollection → (Bool × Bool) × StreamCollection
get_operation s = ((s.modified_flag, s.resend_flag), record s { resend_flag = false })

abbrev pub same_status : MasterStreamStatus → MasterStreamStatus → Bool
same_status accepted accepted = true
same_status accepted established = false
same_status accepted listen = false
same_status established accepted = false
same_status established established = true
same_status established listen = false
same_status listen accepted = false
same_status listen established = false
same_status listen listen = true

unfoldable pub get_streams : Map StreamId MasterStreamInfo → List MasterStreamInfo
get_streams [] = []
get_streams ((id, info) ∷ m) = info ∷ get_streams m

unfoldable pub get_streams_with_status :
    MasterStreamStatus → Map StreamId MasterStreamInfo → List MasterStreamInfo
get_streams_with_status st [] = []
get_streams_with_status st ((id, info) ∷ m) =
    let rest = get_streams_with_status st m in
    if same_status info.status st then info ∷ rest else rest

abbrev pub Changes : Type 0
Changes = Map StreamId StreamChange

-- The keys of the collection that are no servers.
unfoldable pub stream_ids : Map StreamId MasterStreamInfo → Set StreamId
stream_ids [] = []
stream_ids ((id, info) ∷ m) = let rest = stream_ids m in if is_server id then rest else add id rest

abbrev pub note_scheduled :
    StreamId → Option MasterStreamInfo → Changes × Set StreamId → Changes × Set StreamId
note_scheduled id none (changes, missing) = (changes, missing)
note_scheduled id (some info) (changes, missing) = elim info.status [
  | accepted ↦ (insert id establish changes, erase id missing)
  | established ↦ (changes, erase id missing)
  | listen ↦ (changes, erase id missing)
]

-- The loop over the schedule.
unfoldable pub scheduled_loop :
    Map StreamId MasterStreamInfo
    → List ScheduleElement
    → Changes × Set StreamId
    → Changes × Set StreamId
scheduled_loop coll [] r = r
scheduled_loop coll (el ∷ els) r =
    scheduled_loop coll els (note_scheduled el.id (lookup el.id coll) r)

abbrev pub note_missing : StreamId → Option MasterStreamInfo → Changes → Changes
note_missing id none changes = changes
note_missing id (some info) changes = elim info.status [
  | accepted ↦ insert id reject changes
  | established ↦ insert id close changes
  | listen ↦ changes
]

-- The loop over the streams that are not in the schedule.
unfoldable pub missing_loop : Map StreamId MasterStreamInfo → Set StreamId → Changes → Changes
missing_loop coll [] changes = changes
missing_loop coll ((id, _) ∷ ids) changes =
    missing_loop coll ids (note_missing id (lookup id coll) changes)

unfoldable pub get_stream_changes : StreamSnapshot → List ScheduleElement → Changes
get_stream_changes snap schedule =
    let (changes, missing) =
      scheduled_loop snap.collection schedule ([], stream_ids snap.collection) in
    missing_loop snap.collection missing changes

-- One change to a stream that is in the collection.
abbrev pub change_stream :
    StreamId → StreamChange → MasterStreamInfo → StreamCollection → StreamCollection
change_stream id establish info s = elim info.status [
  | accepted ↦ record s { collection = insert id (set_status established info) s.collection }
  | established ↦ s
  | listen ↦ s
]
change_stream id reject info s = elim info.status [
  | accepted ↦ enqueue_info id stream_reject (record s { collection = erase id s.collection })
  | established ↦ s
  | listen ↦ s
]
change_stream id close info s = elim info.status [
  | accepted ↦ s
  | established ↦ record s { collection = erase id s.collection }
  | listen ↦ s
]

unfoldable pub apply_change : StreamId → StreamChange → StreamCollection → StreamCollection
apply_change id change s =
    if is_server id
    then s
    else elim (lookup id s.collection) [ none ↦ s | some info ↦ change_stream id change info s ]

unfoldable pub apply_changes : Changes → StreamCollection → StreamCollection
apply_changes [] s = s
apply_changes ((id, change) ∷ changes) s = apply_changes changes (apply_change id change s)
