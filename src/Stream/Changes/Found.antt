-- ===== src/Stream/Changes/Found.antt =====
-- getStreamChanges: the changes that it finds, for each stream.
use tdmh.Base.{
  ◌≡◌, refl, ap, ◌∙◌, inl, inr, ◌↔◌, Map, lookup, lookup-insert, lookup-erase, lookup_same, Set,
  contains, is_some, contains-add, List, [], ◌∷◌, Option, none, some, Bool, true, false, ◌&&◌, ◌||◌,
  not, ◌==◌, if◌then◌else◌, arith, All,
}
use tdmh.Stream.Params.{
  StreamId, get_key, id_keyed, is_server, IsInFields, get_key-injective, MasterStreamStatus,
  accepted, established, listen, MasterStreamInfo,
}
use tdmh.Stream.Collection.Ids.{Entry, IsCollection, lookup-IsFor}
use tdmh.Stream.Collection.Lifecycle.{MasterStreamStatus-cases, status_of}
use tdmh.Scheduler.Element.{ScheduleElement}
use tdmh.Stream.Changes.{
  StreamChange, establish, reject, close, StreamSnapshot, Changes, stream_ids, note_scheduled,
  scheduled_loop, note_missing, missing_loop, get_stream_changes,
}

abbrev pub in_schedule : StreamId → List ScheduleElement → Bool
in_schedule j [] = false
in_schedule j (el ∷ els) = get_key el.id == get_key j || in_schedule j els

-- The change that is due: none for servers and unknown streams.
abbrev pub due : Bool → Option MasterStreamStatus → Option StreamChange
due present none = none
due true (some accepted) = some establish
due false (some accepted) = some reject
due true (some established) = none
due false (some established) = some close
due present (some listen) = none

abbrev is_accepted : Option MasterStreamStatus → Bool
is_accepted none = false
is_accepted (some accepted) = true
is_accepted (some established) = false
is_accepted (some listen) = false

note_scheduled_change :
    (id j : StreamId) (coll : Map StreamId MasterStreamInfo) (ch : Changes) (missing : Set StreamId)
    → lookup j (note_scheduled id (lookup id coll) (ch, missing)).0 ≡ (
        if get_key id == get_key j && is_accepted (status_of (lookup j coll))
        then some establish
        else lookup j ch)
note_scheduled_change id j coll ch missing =
    ground (arith, lookup_same id j coll, lookup-insert id j establish ch)

note_scheduled_missing :
    (id j : StreamId) (coll : Map StreamId MasterStreamInfo) (ch : Changes) (missing : Set StreamId)
    → contains j (note_scheduled id (lookup id coll) (ch, missing)).1
      ≡ (contains j missing && not (get_key id == get_key j && is_some (lookup j coll)))
note_scheduled_missing id j coll ch missing =
    ground (arith, lookup_same id j coll, lookup-erase id j missing)

scheduled_loop_change :
    (j : StreamId) (coll : Map StreamId MasterStreamInfo) (els : List ScheduleElement)
    (r : Changes × Set StreamId)
    → lookup j (scheduled_loop coll els r).0 ≡ (
        if in_schedule j els && is_accepted (status_of (lookup j coll))
        then some establish
        else lookup j r.0)
unfolding scheduled_loop
scheduled_loop_change j coll [] r = refl
scheduled_loop_change j coll (el ∷ els) r = ground (
  arith,
  scheduled_loop_change j coll els (note_scheduled el.id (lookup el.id coll) r),
  note_scheduled_change el.id j coll r.0 r.1,
)

scheduled_loop_missing :
    (j : StreamId) (coll : Map StreamId MasterStreamInfo) (els : List ScheduleElement)
    (r : Changes × Set StreamId)
    → contains j (scheduled_loop coll els r).1
      ≡ (contains j r.1 && not (in_schedule j els && is_some (lookup j coll)))
unfolding scheduled_loop
scheduled_loop_missing j coll [] r = ground arith
scheduled_loop_missing j coll (el ∷ els) r = ground (
  arith,
  scheduled_loop_missing j coll els (note_scheduled el.id (lookup el.id coll) r),
  note_scheduled_missing el.id j coll r.0 r.1,
)

pub is_server_same :
    (i j : StreamId)
    → IsInFields i
    → IsInFields j
    → get_key i ≡ get_key j
    → is_server i ≡ is_server j
is_server_same i j hi hj e = ap is_server (get_key-injective i j hi hj e)

contains-stream_ids :
    (j : StreamId) (m : Map StreamId MasterStreamInfo)
    → IsInFields j
    → All Entry m
    → contains j (stream_ids m) ≡ (is_some (lookup j m) && not (is_server j))
unfolding stream_ids lookup
contains-stream_ids j [] f h = refl
contains-stream_ids j ((k, info) ∷ m) f h = ground (
  arith,
  contains-stream_ids j m f h.1,
  contains-add k j (stream_ids m),
  is_server_same k j h.0.0 f,
)

-- What a missing stream's status calls for.
abbrev missing_change : Option MasterStreamStatus → Option StreamChange → Option StreamChange
missing_change none old = old
missing_change (some accepted) old = some reject
missing_change (some established) old = some close
missing_change (some listen) old = old

note_missing_lem :
    (id j : StreamId) (coll : Map StreamId MasterStreamInfo) (ch : Changes)
    → lookup j (note_missing id (lookup id coll) ch) ≡ (
        if get_key id == get_key j
        then missing_change (status_of (lookup j coll)) (lookup j ch)
        else lookup j ch)
note_missing_lem id j coll ch =
    ground (arith, lookup_same id j coll, lookup-insert id j reject ch, lookup-insert id j close ch)

missing_loop_lem :
    (j : StreamId) (coll : Map StreamId MasterStreamInfo) (ids : Set StreamId) (ch : Changes)
    → lookup j (missing_loop coll ids ch) ≡ (
        if contains j ids
        then missing_change (status_of (lookup j coll)) (lookup j ch)
        else lookup j ch)
unfolding missing_loop lookup
missing_loop_lem j coll [] ch = refl
missing_loop_lem j coll ((id, u) ∷ ids) ch = ground (
  arith,
  missing_loop_lem j coll ids (note_missing id (lookup id coll) ch),
  note_missing_lem id j coll ch,
)

-- For each stream or server exactly the change that is due is found.
pub lookup-get_stream_changes :
    (snap : StreamSnapshot) (schedule : List ScheduleElement) (j : StreamId)
    → IsCollection snap.collection
    → IsInFields j
    → lookup j (get_stream_changes snap schedule)
      ≡ due (in_schedule j schedule) (status_of (lookup j snap.collection))
unfolding get_stream_changes lookup
lookup-get_stream_changes snap schedule j h f =
    let coll = snap.collection in
    let start : Changes × Set StreamId = ([], stream_ids coll) in
    let r = scheduled_loop coll schedule start in
    missing_loop_lem j coll r.1 r.0
    ∙ resolve (lookup j coll) (contains j r.1) (lookup j r.0)
        (scheduled_loop_missing j coll schedule start
          ∙ ap (λ b. b && not (in_schedule j schedule && is_some (lookup j coll)))
              (contains-stream_ids j coll f h.entries))
        (scheduled_loop_change j coll schedule start) (λ info e. (lookup-IsFor j info coll f h e).2)
  where
    -- By the cases of what the collection holds for the stream.
    resolve :
        (o : Option MasterStreamInfo) (missing : Bool) (old : Option StreamChange)
        → missing ≡ (is_some o && not (is_server j) && not (in_schedule j schedule && is_some o))
        → old
          ≡ (if in_schedule j schedule && is_accepted (status_of o) then some establish else none)
        → ((info : MasterStreamInfo)
            → o ≡ some info
            → (info.status ≡ listen) ↔ (is_server j ≡ true))
        → (if missing then missing_change (status_of o) old else old)
          ≡ due (in_schedule j schedule) (status_of o)
    resolve none missing old m c l = ground arith
    resolve (some info) missing old m c l =
        let agree = l info refl in
        elim (MasterStreamStatus-cases info.status) [
          | inl st ↦ let stream : is_server j ≡ false = ground (arith, agree.1) in ground arith
          | inr (inl st) ↦
              let stream : is_server j ≡ false = ground (arith, agree.1) in ground arith
          | inr (inr st) ↦ let server = agree.0 st in ground arith
        ]
