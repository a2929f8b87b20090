-- ===== src/Stream/Changes/Settled.antt =====
-- A reschedule's changes, found in a snapshot and applied to the collection.
use tdmh.Base.{
  ◌≡◌, refl, ap, ◌∙◌, inl, inr, Map, lookup, insert, IsOrderedFrom, insert-IsOrderedFrom,
  insert_keys, erase_keys, Set, List, [], ◌∷◌, Option, none, some, Bool, false, if◌then◌else◌,
  arith, All, Bool-cases, Option-cases,
}
use tdmh.Stream.Params.{
  StreamId, id_keyed, is_server, IsInFields, accepted, established, listen, MasterStreamInfo,
  set_status,
}
use tdmh.Stream.Collection.{StreamCollection}
use tdmh.Stream.Collection.Ids.{Entry, IsCollection, lookup-IsFor}
use tdmh.Stream.Collection.Lifecycle.{MasterStreamStatus-cases, status_of}
use tdmh.Stream.Collection.Receive.{IsWellFormed}
use tdmh.Scheduler.Element.{ScheduleElement}
use tdmh.Stream.Changes.{
  StreamSnapshot, StreamChange, establish, reject, close, Changes, stream_ids, note_scheduled,
  scheduled_loop, note_missing, missing_loop, get_stream_changes, get_snapshot, clear_flags,
  apply_changes,
}
use tdmh.Stream.Changes.Found.{in_schedule, due, lookup-get_stream_changes}
use tdmh.Stream.Changes.Applied.{
  changed_to, AreStreams, lookup-apply_changes, apply_changes-IsWellFormed,
}

abbrev IsStream : StreamId → Type 0
IsStream id = IsInFields id × (is_server id ≡ false)

-- The streams of the schedule have fields that fit.
abbrev pub HasFields : List ScheduleElement → Type 0
HasFields = All (λ el. IsInFields el.id)

stream_ids-AreStreams :
    (m : Map StreamId MasterStreamInfo) → All Entry m → All (λ e. IsStream e.0) (stream_ids m)
unfolding stream_ids
stream_ids-AreStreams [] h = tt
stream_ids-AreStreams ((id, info) ∷ m) h = elim (Bool-cases (is_server id)) [
  | inl e ↦ rw (e, stream_ids) (stream_ids-AreStreams m h.1)
  | inr e ↦
      rw (e, stream_ids)
        (insert_keys IsStream id tt (stream_ids m) (h.0.0, e) (stream_ids-AreStreams m h.1))
]

-- What the loops keep of the changes.
pub record AreChanges (ch : Changes) : Type 0 where
  pub ordered : IsOrderedFrom 0 ch
  pub streams : AreStreams ch

insert-AreChanges :
    (id : StreamId) (c : StreamChange) (ch : Changes)
    → IsStream id
    → AreChanges ch
    → AreChanges (insert id c ch)
insert-AreChanges id c ch p h = record {
  ordered = insert-IsOrderedFrom 0 id c ch (omega arith) h.ordered;
  streams = insert_keys IsStream id c ch p h.streams;
}

accepted-IsStream :
    (id : StreamId) (info : MasterStreamInfo) (coll : Map StreamId MasterStreamInfo)
    → IsInFields id
    → IsCollection coll
    → lookup id coll ≡ some info
    → info.status ≡ accepted
    → IsStream id
accepted-IsStream id info coll f h e st =
    let agree = (lookup-IsFor id info coll f h e).2 in (f, ground (arith, agree.1))

note_scheduled-AreChanges :
    (id : StreamId) (coll : Map StreamId MasterStreamInfo) (r : Changes × Set StreamId)
    → IsInFields id
    → IsCollection coll
    → AreChanges r.0
    → All (λ e. IsStream e.0) r.1
    → AreChanges (note_scheduled id (lookup id coll) r).0
      × All (λ e. IsStream e.0) (note_scheduled id (lookup id coll) r).1
note_scheduled-AreChanges id coll r f h c i = elim (Option-cases (lookup id coll)) [
  | inl e ↦ rw e (c, i)
  | inr (info, e) ↦ elim (MasterStreamStatus-cases info.status) [
    | inl st ↦
        rw (e, st)
          (
            insert-AreChanges id establish r.0 (accepted-IsStream id info coll f h e st) c,
            erase_keys IsStream id r.1 i,
          )
    | inr (inl st) ↦ rw (e, st) (c, erase_keys IsStream id r.1 i)
    | inr (inr st) ↦ rw (e, st) (c, erase_keys IsStream id r.1 i)
  ]
]

scheduled_loop-AreChanges :
    (els : List ScheduleElement) (coll : Map StreamId MasterStreamInfo) (r : Changes × Set StreamId)
    → HasFields els
    → IsCollection coll
    → AreChanges r.0
    → All (λ e. IsStream e.0) r.1
    → AreChanges (scheduled_loop coll els r).0
      × All (λ e. IsStream e.0) (scheduled_loop coll els r).1
unfolding scheduled_loop
scheduled_loop-AreChanges [] coll r f h c i = (c, i)
scheduled_loop-AreChanges (el ∷ els) coll r f h c i =
    let next = note_scheduled-AreChanges el.id coll r f.0 h c i in
    scheduled_loop-AreChanges els coll (note_scheduled el.id (lookup el.id coll) r) f.1 h next.0
      next.1

note_missing-AreChanges :
    (id : StreamId) (o : Option MasterStreamInfo) (ch : Changes)
    → IsStream id
    → AreChanges ch
    → AreChanges (note_missing id o ch)
note_missing-AreChanges id none ch p c = c
note_missing-AreChanges id (some info) ch p c = elim (MasterStreamStatus-cases info.status) [
  | inl st ↦ rw st (insert-AreChanges id reject ch p c)
  | inr (inl st) ↦ rw st (insert-AreChanges id close ch p c)
  | inr (inr st) ↦ rw st c
]

missing_loop-AreChanges :
    (ids : Set StreamId) (coll : Map StreamId MasterStreamInfo) (ch : Changes)
    → All (λ e. IsStream e.0) ids
    → AreChanges ch
    → AreChanges (missing_loop coll ids ch)
unfolding missing_loop
missing_loop-AreChanges [] coll ch i c = c
missing_loop-AreChanges ((id, u) ∷ ids) coll ch i c =
    missing_loop-AreChanges ids coll (note_missing id (lookup id coll) ch) i.1
      (note_missing-AreChanges id (lookup id coll) ch i.0 c)

pub get_stream_changes-AreChanges :
    (snap : StreamSnapshot) (schedule : List ScheduleElement)
    → HasFields schedule
    → IsCollection snap.collection
    → AreChanges (get_stream_changes snap schedule)
unfolding get_stream_changes
get_stream_changes-AreChanges snap schedule f h =
    let start : Changes × Set StreamId = ([], stream_ids snap.collection) in
    let loop =
      scheduled_loop-AreChanges schedule snap.collection start f h
        (record { ordered = tt; streams = tt }) (stream_ids-AreStreams snap.collection h.entries) in
    let r = scheduled_loop snap.collection schedule start in
    missing_loop-AreChanges r.1 snap.collection r.0 loop.1 loop.0

-- The changes for a schedule, whose streams have fields that fit, are found in a snapshot that
-- is ordered and in which exactly the servers listen, and applied to a well-formed collection,
-- whatever it has become by then: it stays well-formed, and for every stream the change that
-- was due in the snapshot is made if the stream has the status still that the change is for;
-- else the stream stays as it has become.
pub apply-get_stream_changes_later :
    (snap : StreamSnapshot) (schedule : List ScheduleElement) (s : StreamCollection)
    → IsCollection snap.collection
    → HasFields schedule
    → IsWellFormed s
    → IsWellFormed (apply_changes (get_stream_changes snap schedule) s)
      × ((j : StreamId)
          → IsInFields j
          → lookup j (apply_changes (get_stream_changes snap schedule) s).collection
            ≡ changed_to
                (due (in_schedule j schedule) (status_of (lookup j snap.collection)))
                (lookup j s.collection))
apply-get_stream_changes_later snap schedule s h f w =
    let changes = get_stream_changes snap schedule in
    let ok = get_stream_changes-AreChanges snap schedule f h in
    (
      apply_changes-IsWellFormed changes s ok.streams w,
      λ j k.
          lookup-apply_changes 0 changes s j ok.ordered ok.streams
          ∙ ap (λ c. changed_to c (lookup j s.collection))
              (lookup-get_stream_changes snap schedule j h k),
    )

-- What a reschedule leaves of a stream or server.
abbrev pub settled : Bool → Option MasterStreamInfo → Option MasterStreamInfo
settled present none = none
settled present (some info) = elim info.status [
  | accepted ↦ if present then some (set_status established info) else none
  | established ↦ if present then some info else none
  | listen ↦ some info
]

pub settled_of_due :
    (present : Bool) (o : Option MasterStreamInfo)
    → changed_to (due present (status_of o)) o ≡ settled present o
settled_of_due present none = refl
settled_of_due present (some info) = ground arith

-- From a well-formed collection and a schedule whose streams have fields that fit: the changes
-- found in a snapshot and applied to the collection that was copied establish the streams that
-- the schedule has and remove the others, and the servers stay.
pub apply-get_stream_changes :
    (s : StreamCollection) (schedule : List ScheduleElement) (j : StreamId)
    → IsWellFormed s
    → HasFields schedule
    → IsInFields j
    → lookup j
        (apply_changes
          (get_stream_changes (get_snapshot s).0 schedule)
          (get_snapshot s).1).collection
      ≡ settled (in_schedule j schedule) (lookup j s.collection)
unfolding get_snapshot clear_flags
apply-get_stream_changes s schedule j h f k =
    let (snap, cleared) = get_snapshot s in
    let ok = get_stream_changes-AreChanges snap schedule f h.streams in
    lookup-apply_changes 0 (get_stream_changes snap schedule) cleared j ok.ordered ok.streams
    ∙ rw (lookup-get_stream_changes snap schedule j h.streams k)
        (settled_of_due (in_schedule j schedule) (lookup j s.collection))
