-- ===== src/Stream/Examples.antt =====
-- Two streams, each to node 5.
use tdmh.Base.{ℕ, suc, ◌+◌, ◌≡◌, refl, Map, lookup, insert, [], ◌∷◌, some, arith}
use tdmh.Queue.{UpdatableQueue, new_queue, enqueue}
use tdmh.Queue.Fifo.{Represents, enqueue-Represents, new_queue-Represents}
use tdmh.Stream.Params.{
  StreamId, StreamParameters, IsInFields, get_key, id_keyed, is_server, is_stream, get_server_id,
  set_status, accepted, established, listen,
}
use tdmh.Stream.Collection.{
  StreamManagementElement, listens, connect, SmeKey, sme_keyed, StreamCollection, new_collection,
  dispatch, create_server, create_stream, enqueue_info, negotiate_parameters, receive_smes,
}
use tdmh.Stream.Collection.Lifecycle.{status_of, seen}
use tdmh.Stream.Collection.Ids.{IsCollection}
use tdmh.Scheduler.Element.{ScheduleElement}
use tdmh.Stream.Changes.{StreamSnapshot, get_snapshot, get_stream_changes, apply_changes}
use tdmh.Stream.Changes.Found.{in_schedule, due}
use tdmh.Stream.Changes.Applied.{changed_to}
use tdmh.Stream.Changes.Settled.{settled, apply-get_stream_changes, apply-get_stream_changes_later}
use tdmh.Stream.Collection.Receive.{
  IsWellFormed, tell_all, receive_smes_lem, dispatch-IsWellFormed, new_collection-IsWellFormed,
}

abbrev first : StreamId
first = record { src = 3; dst = 5; src_port = 0; dst_port = 2 }

abbrev again : StreamId
again = record { src = 1 + 2; dst = 5; src_port = 0; dst_port = 2 }

first-IsInFields : IsInFields first
first-IsInFields = record {
  src_lt = omega arith;
  dst_lt = omega arith;
  src_port_lt = omega arith;
  dst_port_lt = omega arith;
}

-- A server on node 5 and a stream to it.
abbrev parameters : StreamParameters
parameters = record { redundancy = 0; period = 1; payload_size = 10; direction = 2 }

abbrev server_id : StreamId
server_id = record { src = 5; dst = 5; src_port = 0; dst_port = 2 }

abbrev listen_sme : StreamManagementElement
listen_sme = record { id = server_id; parameters = parameters; type = listens }

abbrev connect_sme : StreamManagementElement
connect_sme = record { id = first; parameters = parameters; type = connect }

abbrev smes : UpdatableQueue SmeKey StreamManagementElement
smes =
    enqueue (record { id = first; sme_class = 0 }) connect_sme
      (enqueue (record { id = server_id; sme_class = 0 }) listen_sme new_queue)

abbrev sme_list : Map SmeKey StreamManagementElement
sme_list =
    (record { id = server_id; sme_class = 0 }, listen_sme)
    ∷ (record { id = first; sme_class = 0 }, connect_sme)
    ∷ []

smes-Represents : Represents smes sme_list
unfolding get_key
smes-Represents = enqueue-Represents _ _ _ _ (enqueue-Represents _ _ _ _ new_queue-Represents)

server_id-IsInFields : IsInFields server_id
server_id-IsInFields = record {
  src_lt = omega arith;
  dst_lt = omega arith;
  src_port_lt = omega arith;
  dst_port_lt = omega arith;
}

abbrev count : StreamManagementElement → ℕ → ℕ
count sme n = suc n

receive_smes_lem_example :
    (rest : UpdatableQueue SmeKey StreamManagementElement) × (s' : StreamCollection) × (m' : ℕ)
    × (receive_smes count smes (new_collection, 0) ≡ some (rest, (s', m')))
    × Represents rest []
    × IsWellFormed s'
    × ((j : StreamId) → seen s'.collection j ≡ tell_all sme_list (seen new_collection.collection) j)
receive_smes_lem_example =
    receive_smes_lem count smes sme_list new_collection 0 smes-Represents
      (server_id-IsInFields, (first-IsInFields, tt)) new_collection-IsWellFormed

-- The server listens, and the stream to it is accepted.
told_run :
    (tell_all sme_list (seen new_collection.collection) server_id ≡ some (listen, parameters))
    × (tell_all sme_list (seen new_collection.collection) first ≡ some (accepted, parameters))
unfolding get_key get_server_id is_server negotiate_parameters new_collection lookup
told_run = (refl, refl)

-- The collection with the server and the stream, accepted, in it.
abbrev two : StreamCollection
two = dispatch connect_sme (dispatch listen_sme new_collection)

two-IsWellFormed : IsWellFormed two
two-IsWellFormed =
    dispatch-IsWellFormed connect_sme (dispatch listen_sme new_collection) first-IsInFields (
      dispatch-IsWellFormed listen_sme new_collection server_id-IsInFields
        new_collection-IsWellFormed)

abbrev element : ScheduleElement
element = record { id = first; params = parameters; tx = 3; rx = 5; offset = 1 }

apply-get_stream_changes_example :
    lookup first
      (apply_changes
        (get_stream_changes (get_snapshot two).0 (element ∷ []))
        (get_snapshot two).1).collection
    ≡ settled (in_schedule first (element ∷ [])) (lookup first two.collection)
apply-get_stream_changes_example =
    apply-get_stream_changes two (element ∷ []) first two-IsWellFormed (first-IsInFields, tt)
      first-IsInFields

-- It was accepted, and is established.
settled_run :
    settled (in_schedule first (element ∷ [])) (lookup first two.collection)
    ≡ some (record { id = first; parameters = parameters; status = established })
unfolding lookup insert dispatch new_collection is_stream create_server create_stream enqueue_info
    get_key get_server_id set_status negotiate_parameters
settled_run = refl

abbrev snap : StreamSnapshot
snap = (get_snapshot two).0

snap-IsCollection : IsCollection snap.collection
unfolding get_snapshot
snap-IsCollection = two-IsWellFormed.streams

-- In the snapshot the stream is accepted, and it is due to be established; by now it is gone.
apply-get_stream_changes_later_example :
    IsWellFormed (apply_changes (get_stream_changes snap (element ∷ [])) new_collection)
    × ((j : StreamId)
        → IsInFields j
        → lookup j
            (apply_changes (get_stream_changes snap (element ∷ [])) new_collection).collection
          ≡ changed_to
              (due (in_schedule j (element ∷ [])) (status_of (lookup j snap.collection)))
              (lookup j new_collection.collection))
apply-get_stream_changes_later_example =
    apply-get_stream_changes_later snap (element ∷ []) new_collection snap-IsCollection
      (first-IsInFields, tt) new_collection-IsWellFormed
