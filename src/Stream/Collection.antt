-- ===== src/Stream/Collection.antt =====
-- stream_collection.cpp: StreamCollection, the streams and servers that the master knows, and what
-- the stream management elements of stream_management_element.h do to them. The mutex is left out:
-- each operation holds it from its start to its end.
pub mod Ids
pub mod Lifecycle
pub mod Receive
use tdmh.Base.{
  ℕ, zero, suc, ◌+◌, ◌*◌, ◌≡◌, min, max, Keyed, Map, lookup, insert, erase, List, [], ◌∷◌, Option,
  none, some, Bool, true, false, ◌&&◌, not, ◌==◌, ltb, if◌then◌else◌,
}
use tdmh.Queue.{UpdatableQueue, new_queue, enqueue, dequeue, size}
use tdmh.Stream.Params.{
  StreamId, get_key, id_keyed, get_server_id, is_server, is_stream, StreamParameters,
  MasterStreamStatus, accepted, established, listen, MasterStreamInfo, set_status,
}

-- SMEType.
pub data SmeType : Type 0 where
  connect listens closed resend_schedule challenge uninitialized : SmeType

pub record StreamManagementElement : Type 0 where
  pub id : StreamId
  pub parameters : StreamParameters
  pub type : SmeType

unfoldable pub sme_type_to_class : SmeType → ℕ
sme_type_to_class connect = 0
sme_type_to_class listens = 0
sme_type_to_class closed = 0
sme_type_to_class resend_schedule = 1
sme_type_to_class challenge = 2
sme_type_to_class uninitialized = 255

pub record SmeKey : Type 0 where
  pub id : StreamId
  pub sme_class : ℕ

-- The key of the stream and the class have no bits in common.
instance abbrev pub sme_keyed : Keyed SmeKey
sme_keyed = record { key = λ k. get_key k.id + k.sme_class * 16777216 }

-- InfoType, and an InfoElement as far as its stream and its message go.
pub data InfoType : Type 0 where
  server_opened server_closed stream_reject : InfoType

pub record InfoElement : Type 0 where
  pub id : StreamId
  pub type : InfoType

pub record StreamCollection : Type 0 where
  pub collection : Map StreamId MasterStreamInfo
  pub info_queue : UpdatableQueue StreamId InfoElement
  pub modified_flag : Bool
  pub removed_flag : Bool
  pub added_flag : Bool
  pub resend_flag : Bool

unfoldable pub new_collection : StreamCollection
new_collection = record {
  collection = [];
  info_queue = new_queue;
  modified_flag = false;
  removed_flag = false;
  added_flag = false;
  resend_flag = false;
}

unfoldable pub enqueue_info : StreamId → InfoType → StreamCollection → StreamCollection
enqueue_info id type s = record s {
  info_queue = enqueue id (record { id = id; type = type }) s.info_queue;
}

unfoldable pub negotiate_parameters : StreamParameters → StreamParameters → StreamParameters
negotiate_parameters server client = record {
  redundancy = min server.redundancy client.redundancy;
  period = max server.period client.period;
  payload_size = min server.payload_size client.payload_size;
  direction = client.direction;
}

-- A stream that its node closes.
abbrev pub remove_stream : StreamId → StreamCollection → StreamCollection
remove_stream id s = record s {
  collection = erase id s.collection;
  removed_flag = true;
  modified_flag = true;
}

abbrev pub ask_resend : StreamCollection → StreamCollection
ask_resend s = record s { resend_flag = true }

unfoldable pub update_stream :
    MasterStreamInfo → StreamManagementElement → StreamCollection → StreamCollection
update_stream stream sme s = elim sme.type [
  | listens ↦ s
  | closed ↦ elim stream.status [
    | accepted ↦ remove_stream sme.id s
    | established ↦ remove_stream sme.id s
    | listen ↦ s
  ]
  | connect ↦ elim stream.status [ accepted ↦ s | established ↦ ask_resend s | listen ↦ s ]
  | resend_schedule ↦ s
  | challenge ↦ s
  | uninitialized ↦ s
]

unfoldable pub update_server :
    MasterStreamInfo → StreamManagementElement → StreamCollection → StreamCollection
update_server server sme s = elim server.status [
  | listen ↦ elim sme.type [
    | closed ↦
        enqueue_info sme.id server_closed (record s { collection = erase sme.id s.collection })
    | listens ↦ enqueue_info sme.id server_opened s
    | connect ↦ s
    | resend_schedule ↦ s
    | challenge ↦ s
    | uninitialized ↦ s
  ]
  | accepted ↦ s
  | established ↦ s
]

-- A stream to a server that listens in the same direction.
abbrev pub accept_stream :
    StreamManagementElement → MasterStreamInfo → StreamCollection → StreamCollection
accept_stream sme server s = record s {
  collection =
      insert sme.id
        (record {
          id = sme.id;
          parameters = negotiate_parameters server.parameters sme.parameters;
          status = accepted;
        })
        s.collection;
  added_flag = true;
  modified_flag = true;
}

abbrev pub connect_to :
    StreamManagementElement → Option MasterStreamInfo → StreamCollection → StreamCollection
connect_to sme none s = enqueue_info sme.id stream_reject s
connect_to sme (some server) s =
    if server.parameters.direction == sme.parameters.direction
    then accept_stream sme server s
    else enqueue_info sme.id stream_reject s

unfoldable pub create_stream : StreamManagementElement → StreamCollection → StreamCollection
create_stream sme s = elim sme.type [
  | listens ↦ s
  | closed ↦ ask_resend s
  | connect ↦ connect_to sme (lookup (get_server_id sme.id) s.collection) s
  | resend_schedule ↦ s
  | challenge ↦ s
  | uninitialized ↦ s
]

abbrev pub open_server : StreamManagementElement → StreamCollection → StreamCollection
open_server sme s = record s {
  collection =
      insert sme.id (record { id = sme.id; parameters = sme.parameters; status = listen })
        s.collection;
}

unfoldable pub create_server : StreamManagementElement → StreamCollection → StreamCollection
create_server sme s = elim sme.type [
  | listens ↦ enqueue_info sme.id server_opened (open_server sme s)
  | closed ↦ enqueue_info sme.id server_closed s
  | connect ↦ s
  | resend_schedule ↦ s
  | challenge ↦ s
  | uninitialized ↦ s
]

-- An element that is about its stream or server.
unfoldable pub dispatch : StreamManagementElement → StreamCollection → StreamCollection
dispatch sme s = elim (lookup sme.id s.collection) [
  | some stream ↦
      if is_stream sme.id then update_stream stream sme s else update_server stream sme s
  | none ↦ if is_stream sme.id then create_stream sme s else create_server sme s
]

-- The body of the loop of `receiveSMEs`, the build with CRYPTO. The key manager, of type `M`, is
-- reached through a virtual method only.
module _ {M : Type 0} (enqueue_challenge : StreamManagementElement → M → M) where
  unfoldable pub receive_one : StreamManagementElement → StreamCollection × M → StreamCollection × M
  receive_one sme (s, m) = elim sme.type [
    | uninitialized ↦ (s, m)
    | resend_schedule ↦ (ask_resend s, m)
    | challenge ↦ (s, enqueue_challenge sme m)
    | connect ↦ (dispatch sme s, m)
    | listens ↦ (dispatch sme s, m)
    | closed ↦ (dispatch sme s, m)
  ]

  -- `none` where a `dequeue` throws.
  unfoldable pub receive_loop :
      ℕ
      → UpdatableQueue SmeKey StreamManagementElement
      → StreamCollection × M
      → Option (UpdatableQueue SmeKey StreamManagementElement × (StreamCollection × M))
  receive_loop zero smes s = some (smes, s)
  receive_loop (suc n) smes s = elim (dequeue smes) [
    | none ↦ none
    | some (sme, rest) ↦ receive_loop n rest (receive_one sme s)
  ]

  unfoldable pub receive_smes :
      UpdatableQueue SmeKey StreamManagementElement
      → StreamCollection × M
      → Option (UpdatableQueue SmeKey StreamManagementElement × (StreamCollection × M))
  receive_smes smes s = receive_loop (size smes) smes s
