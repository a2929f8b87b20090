-- ===== src/Stream/Collection/Lifecycle.antt =====
-- The life of a stream in the collection, as the master sees it: which statuses follow on which.
use tdmh.Base.{
  ◌≡◌, refl, sym, ◌∙◌, ◌⊎◌, inl, inr, Map, lookup, insert, erase, lookup-insert, lookup-erase,
  lookup_same, if◌then◌else◌, Option, none, some, true, false, ◌==◌, arith, Bool-cases,
  Option-cases,
}
use tdmh.Stream.Params.{
  StreamId, get_key, id_keyed, get_server_id, is_server, is_stream, IsInFields, StreamParameters,
  MasterStreamStatus, accepted, established, listen, MasterStreamInfo,
}
use tdmh.Stream.Collection.{
  SmeType, connect, listens, closed, resend_schedule, challenge, uninitialized,
  StreamManagementElement, StreamCollection, update_stream, update_server, enqueue_info, connect_to,
  negotiate_parameters, create_stream, create_server, dispatch,
}
use tdmh.Stream.Collection.Ids.{IsFor, IsCollection, insert-IsCollection, erase-IsCollection}

abbrev pub status_of : Option MasterStreamInfo → Option MasterStreamStatus
status_of none = none
status_of (some info) = some info.status

-- What a call may do to the map: nothing, or one change of the entry for `id`.
pub data Effect (id : StreamId) (m : Map StreamId MasterStreamInfo)
    : Map StreamId MasterStreamInfo → Type 0 where
  same : Effect id m m
  changed : (info : MasterStreamInfo) → IsFor id info → Effect id m (insert id info m)
  erased : Effect id m (erase id m)

pub SmeType-cases :
    (t : SmeType)
    → (t ≡ connect)
      ⊎ (t ≡ listens)
      ⊎ (t ≡ closed)
      ⊎ ((t ≡ resend_schedule) ⊎ (t ≡ challenge) ⊎ (t ≡ uninitialized))
SmeType-cases connect = inl refl
SmeType-cases listens = inr (inl refl)
SmeType-cases closed = inr (inr (inl refl))
SmeType-cases resend_schedule = inr (inr (inr (inl refl)))
SmeType-cases challenge = inr (inr (inr (inr (inl refl))))
SmeType-cases uninitialized = inr (inr (inr (inr (inr refl))))

pub MasterStreamStatus-cases :
    (st : MasterStreamStatus) → (st ≡ accepted) ⊎ (st ≡ established) ⊎ (st ≡ listen)
MasterStreamStatus-cases accepted = inl refl
MasterStreamStatus-cases established = inr (inl refl)
MasterStreamStatus-cases listen = inr (inr refl)

update_stream-Effect :
    (stream : MasterStreamInfo) (sme : StreamManagementElement) (s : StreamCollection)
    → lookup sme.id s.collection ≡ some stream
    → Effect sme.id s.collection (update_stream stream sme s).collection
unfolding update_stream
update_stream-Effect stream sme s e = elim (SmeType-cases sme.type) [
  | inl t ↦ elim (MasterStreamStatus-cases stream.status) [
    | inl st ↦ rw (t, st) same
    | inr (inl st) ↦ rw (t, st) same
    | inr (inr st) ↦ rw (t, st) same
  ]
  | inr (inl t) ↦ rw t same
  | inr (inr (inl t)) ↦ elim (MasterStreamStatus-cases stream.status) [
    | inl st ↦ rw (t, st) erased
    | inr (inl st) ↦ rw (t, st) erased
    | inr (inr st) ↦ rw (t, st) same
  ]
  | inr (inr (inr (inl t))) ↦ rw t same
  | inr (inr (inr (inr (inl t)))) ↦ rw t same
  | inr (inr (inr (inr (inr t)))) ↦ rw t same
]

update_server-Effect :
    (server : MasterStreamInfo) (sme : StreamManagementElement) (s : StreamCollection)
    → lookup sme.id s.collection ≡ some server
    → Effect sme.id s.collection (update_server server sme s).collection
unfolding update_server enqueue_info
update_server-Effect server sme s e = elim (MasterStreamStatus-cases server.status) [
  | inl st ↦ rw st same
  | inr (inl st) ↦ rw st same
  | inr (inr st) ↦ elim (SmeType-cases sme.type) [
    | inl t ↦ rw (st, t) same
    | inr (inl t) ↦ rw (st, t) same
    | inr (inr (inl t)) ↦ rw (st, t) erased
    | inr (inr (inr (inl t))) ↦ rw (st, t) same
    | inr (inr (inr (inr (inl t)))) ↦ rw (st, t) same
    | inr (inr (inr (inr (inr t)))) ↦ rw (st, t) same
  ]
]

-- A stream that is accepted is no server, and has fields that fit.
connect_to-Effect :
    (server : Option MasterStreamInfo) (sme : StreamManagementElement) (s : StreamCollection)
    → lookup sme.id s.collection ≡ none
    → IsInFields sme.id
    → is_server sme.id ≡ false
    → Effect sme.id s.collection (connect_to sme server s).collection
unfolding enqueue_info
connect_to-Effect none sme s e f stream = same
connect_to-Effect (some server) sme s e f stream =
    elim (Bool-cases (server.parameters.direction == sme.parameters.direction)) [
      | inl d ↦
          rw (d, connect_to)
            (changed
              (record {
                id = sme.id;
                parameters = negotiate_parameters server.parameters sme.parameters;
                status = accepted;
              })
              (f, refl, (λ h. absurd (cc h), λ h. absurd (cc (h, stream)))))
      | inr d ↦ rw (d, connect_to) same
    ]

create_stream-Effect :
    (sme : StreamManagementElement) (s : StreamCollection)
    → lookup sme.id s.collection ≡ none
    → IsInFields sme.id
    → is_server sme.id ≡ false
    → Effect sme.id s.collection (create_stream sme s).collection
unfolding create_stream
create_stream-Effect sme s e f stream = elim (SmeType-cases sme.type) [
  | inl t ↦ rw t (connect_to-Effect (lookup (get_server_id sme.id) s.collection) sme s e f stream)
  | inr (inl t) ↦ rw t same
  | inr (inr (inl t)) ↦ rw t same
  | inr (inr (inr (inl t))) ↦ rw t same
  | inr (inr (inr (inr (inl t)))) ↦ rw t same
  | inr (inr (inr (inr (inr t)))) ↦ rw t same
]

create_server-Effect :
    (sme : StreamManagementElement) (s : StreamCollection)
    → lookup sme.id s.collection ≡ none
    → IsInFields sme.id
    → is_server sme.id ≡ true
    → Effect sme.id s.collection (create_server sme s).collection
unfolding create_server enqueue_info
create_server-Effect sme s e f server = elim (SmeType-cases sme.type) [
  | inl t ↦ rw t same
  | inr (inl t) ↦ rw t (
      changed (record { id = sme.id; parameters = sme.parameters; status = listen })
        (f, refl, (λ h. server, λ h. refl)))
  | inr (inr (inl t)) ↦ rw t same
  | inr (inr (inr (inl t))) ↦ rw t same
  | inr (inr (inr (inr (inl t)))) ↦ rw t same
  | inr (inr (inr (inr (inr t)))) ↦ rw t same
]

pub dispatch-Effect :
    (sme : StreamManagementElement) (s : StreamCollection)
    → IsInFields sme.id
    → Effect sme.id s.collection (dispatch sme s).collection
unfolding dispatch is_stream
dispatch-Effect sme s f = elim (Option-cases (lookup sme.id s.collection)) [
  | inl e ↦ elim (Bool-cases (is_server sme.id)) [
    | inl server ↦ rw (e, dispatch) (rw server (create_server-Effect sme s e f server))
    | inr stream ↦ rw (e, dispatch) (rw stream (create_stream-Effect sme s e f stream))
  ]
  | inr (info, e) ↦ elim (Bool-cases (is_server sme.id)) [
    | inl server ↦ rw (e, dispatch) (rw server (update_server-Effect info sme s e))
    | inr stream ↦ rw (e, dispatch) (rw stream (update_stream-Effect info sme s e))
  ]
]

pub Effect-IsCollection :
    (id : StreamId) {m m' : Map StreamId MasterStreamInfo}
    → Effect id m m'
    → IsCollection m
    → IsCollection m'
Effect-IsCollection id same h = h
Effect-IsCollection id {m = m} (changed info f) h = insert-IsCollection id info m f h
Effect-IsCollection id {m = m} erased h = erase-IsCollection id m h

-- What is kept of a stream or server.
abbrev pub Seen : Type 0
Seen = Option (MasterStreamStatus × StreamParameters)

abbrev pub seen : Map StreamId MasterStreamInfo → StreamId → Seen
seen m j = elim (lookup j m) [ none ↦ none | some info ↦ some (info.status, info.parameters) ]

-- What a stream gets that asks for the server `server` with the parameters `p`.
abbrev pub admission : StreamParameters → Seen → Seen
admission p none = none
admission p (some (st, q)) =
    if q.direction == p.direction then some (accepted, negotiate_parameters q p) else none

-- What becomes of a stream or server, as it is now, by the type of an element about it.
abbrev pub next_stream : SmeType → Seen → Seen → Seen
next_stream t admitted none = elim t [
  | connect ↦ admitted
  | listens ↦ none
  | closed ↦ none
  | resend_schedule ↦ none
  | challenge ↦ none
  | uninitialized ↦ none
]
next_stream t admitted (some (st, q)) = elim t [
  | connect ↦ some (st, q)
  | listens ↦ some (st, q)
  | closed ↦ elim st [ accepted ↦ none | established ↦ none | listen ↦ some (listen, q) ]
  | resend_schedule ↦ some (st, q)
  | challenge ↦ some (st, q)
  | uninitialized ↦ some (st, q)
]

abbrev pub next_server : SmeType → StreamParameters → Seen → Seen
next_server t p none = elim t [
  | connect ↦ none
  | listens ↦ some (listen, p)
  | closed ↦ none
  | resend_schedule ↦ none
  | challenge ↦ none
  | uninitialized ↦ none
]
next_server t p (some (st, q)) = elim t [
  | connect ↦ some (st, q)
  | listens ↦ some (st, q)
  | closed ↦ elim st [
    | accepted ↦ some (accepted, q)
    | established ↦ some (established, q)
    | listen ↦ none
  ]
  | resend_schedule ↦ some (st, q)
  | challenge ↦ some (st, q)
  | uninitialized ↦ some (st, q)
]

-- The streams and servers after one element: those with another key stay as they are.
abbrev pub tell : StreamManagementElement → (StreamId → Seen) → StreamId → Seen
tell sme v j =
    if get_key sme.id == get_key j
    then if is_server sme.id
      then next_server sme.type sme.parameters (v j)
      else next_stream sme.type (admission sme.parameters (v (get_server_id sme.id))) (v j)
    else v j

other_seen :
    (sme : StreamManagementElement) (s : StreamCollection) (j : StreamId)
    → IsInFields sme.id
    → (get_key sme.id == get_key j) ≡ false
    → lookup j (dispatch sme s).collection ≡ lookup j s.collection
other_seen sme s j f e = go (dispatch-Effect sme s f)
  where
    go :
        {m' : Map StreamId MasterStreamInfo}
        → Effect sme.id s.collection m'
        → lookup j m' ≡ lookup j s.collection
    go same = refl
    go (changed info _) = lookup-insert sme.id j info s.collection ∙ rw e refl
    go erased = lookup-erase sme.id j s.collection ∙ rw e refl

-- The same for a key that is the element's, by what the collection has there.
module _ (sme : StreamManagementElement) (s : StreamCollection) (j : StreamId)
    (e : (get_key sme.id == get_key j) ≡ true) where
  found : (o : Option MasterStreamInfo) → lookup sme.id s.collection ≡ o → lookup j s.collection ≡ o
  found o h = sym (lookup_same sme.id j s.collection (ground arith)) ∙ h

  seen_erased : lookup j (erase sme.id s.collection) ≡ none
  seen_erased = lookup-erase sme.id j s.collection ∙ rw e refl

  seen_inserted : (info : MasterStreamInfo) → lookup j (insert sme.id info s.collection) ≡ some info
  seen_inserted info = lookup-insert sme.id j info s.collection ∙ rw e refl

  seen-update_stream :
      (stream : MasterStreamInfo) (admitted : Seen)
      → lookup j s.collection ≡ some stream
      → seen (update_stream stream sme s).collection j
        ≡ next_stream sme.type admitted (some (stream.status, stream.parameters))
  unfolding update_stream
  seen-update_stream stream admitted h = ground (arith, seen_erased)

  seen-update_server :
      (server : MasterStreamInfo)
      → lookup j s.collection ≡ some server
      → seen (update_server server sme s).collection j
        ≡ next_server sme.type sme.parameters (some (server.status, server.parameters))
  unfolding update_server enqueue_info
  seen-update_server server h = ground (arith, seen_erased)

  seen-connect_to :
      (server : Option MasterStreamInfo)
      → lookup j s.collection ≡ none
      → seen (connect_to sme server s).collection j
        ≡ admission sme.parameters
            (elim server [ none ↦ none | some info ↦ some (info.status, info.parameters) ])
  unfolding enqueue_info
  seen-connect_to none h = rw (h, seen) refl
  seen-connect_to (some server) h =
      elim (Bool-cases (server.parameters.direction == sme.parameters.direction)) [
        | inl d ↦ rw (d, connect_to) (rw (seen_inserted _, seen) refl)
        | inr d ↦ rw (d, connect_to) (rw (h, seen) refl)
      ]

  seen-create_stream :
      lookup j s.collection ≡ none
      → seen (create_stream sme s).collection j
        ≡ next_stream sme.type
            (admission sme.parameters (seen s.collection (get_server_id sme.id)))
            none
  unfolding create_stream
  seen-create_stream h =
      ground (arith, seen-connect_to (lookup (get_server_id sme.id) s.collection) h)

  seen-create_server :
      lookup j s.collection ≡ none
      → seen (create_server sme s).collection j ≡ next_server sme.type sme.parameters none
  unfolding create_server enqueue_info
  seen-create_server h =
      ground (
        arith,
        seen_inserted (record { id = sme.id; parameters = sme.parameters; status = listen }),
      )

  seen_found :
      (o : Option MasterStreamInfo)
      → lookup sme.id s.collection ≡ o
      → seen s.collection j
        ≡ elim o [ none ↦ none | some info ↦ some (info.status, info.parameters) ]
  seen_found o h = rw (found o h, seen) refl

  same_seen : seen (dispatch sme s).collection j ≡ tell sme (seen s.collection) j
  unfolding dispatch is_stream
  same_seen = elim (Option-cases (lookup sme.id s.collection)) [
    | inl o ↦ ground (
      arith,
      o,
      seen_found none o,
      seen-create_server (found none o),
      seen-create_stream (found none o),
    )
    | inr (info, o) ↦ ground (
      arith,
      o,
      seen_found (some info) o,
      seen-update_server info (found (some info) o),
      seen-update_stream info (admission sme.parameters (seen s.collection (get_server_id sme.id)))
          (found (some info) o),
    )
  ]

pub seen-dispatch :
    (sme : StreamManagementElement) (s : StreamCollection) (j : StreamId)
    → IsInFields sme.id
    → seen (dispatch sme s).collection j ≡ tell sme (seen s.collection) j
seen-dispatch sme s j f = elim (Bool-cases (get_key sme.id == get_key j)) [
  | inr e ↦ rw (other_seen sme s j f e, seen) (rw e refl)
  | inl e ↦ same_seen sme s j e
]
