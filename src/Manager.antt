-- ===== src/Manager.antt =====
-- network_module/stream/stream_manager.h and .cpp: StreamManager, the streams and servers of a
-- node. An endpoint is an object that a pointer leads to, since the table of file descriptors, the
-- maps of streams and servers, and the pending streams of a server share it. An object is numbered
-- by the file descriptor that it was made with, and is kept when nothing points to it any more.
-- Left out is the rekeying of streams, which is done only where data messages are authenticated.
pub mod Calls
pub mod Phases
pub mod Schedule
mod Examples
pub mod Tables
pub mod Kept
pub mod Invariant
pub mod Consistent
pub mod Removal
pub mod Awaited
use tdmh.Base.{
  ℕ, zero, suc, ◌+◌, Map, lookup, insert, erase, Keyed, nat_keyed, List, [], ◌∷◌, ◌++◌, length,
  get_elem?, set, Option, none, some, Bool, true, false, ◌&&◌, ◌==◌, ltb, if◌then◌else◌,
}
use tdmh.Queue.{UpdatableQueue, new_queue, enqueue}
use tdmh.Stream.Params.{StreamId, get_key, id_keyed, StreamParameters}
use tdmh.Stream.Collection.{StreamManagementElement, SmeKey, sme_keyed, sme_type_to_class}
use tdmh.Packet.{Packet}
use tdmh.Packet.View.{new_packet}
use tdmh.Stream.Wakeup.Scheduler.{WakeupScheduler, WakeupConfig}
use tdmh.Endpoint.{
  StreamInfo, Endpoint, new_endpoint, Output, enqueue_sme, call_send, call_receive, Buffers, Stream,
  update_redundancy,
}
use tdmh.Endpoint.Server.{Server}

-- A REF_PTR_EP; virtual methods are chosen by it.
pub data Object : Type 0 where
  a_stream : Stream → Object
  a_server : Server → Object

abbrev pub endpoint_of : Object → Endpoint
endpoint_of (a_stream s) = s.endpoint
endpoint_of (a_server s) = s.endpoint

pub record ManagerConfig : Type 0 where
  pub my_id : ℕ
  pub pan_id : ℕ
  pub slots_in_tile : ℕ
  pub data_slot_duration : ℕ
  pub callbacks_execution_time : ℕ
  pub wakeup_config : WakeupConfig

-- The calls of the callbacks are logged.
pub record StreamManager : Type 0 where
  pub fd_counter : ℕ
  pub fdt : Map ℕ ℕ
  pub streams : Map StreamId ℕ
  pub servers : Map ℕ ℕ
  pub objects : Map ℕ Object
  pub client_ports : List Bool
  pub sme_queue : UpdatableQueue SmeKey StreamManagementElement
  pub streams_to_remove : List StreamId
  pub master_trusted : Bool
  pub wakeup_scheduler : WakeupScheduler
  pub callbacks : List Output

abbrev pub max_ports : ℕ
max_ports = 16

abbrev pub all_free : ℕ → List Bool
all_free zero = []
all_free (suc n) = false ∷ all_free n

unfoldable pub new_manager : Bool → WakeupScheduler → StreamManager
new_manager trusted scheduler = record {
  fd_counter = 1;
  fdt = [];
  streams = [];
  servers = [];
  objects = [];
  client_ports = all_free max_ports;
  sme_queue = new_queue;
  streams_to_remove = [];
  master_trusted = trusted;
  wakeup_scheduler = scheduler;
  callbacks = [];
}

unfoldable pub enqueue_element : StreamManagementElement → StreamManager → StreamManager
enqueue_element sme m = record m {
  sme_queue =
      enqueue (record { id = sme.id; sme_class = sme_type_to_class sme.type }) sme m.sme_queue;
}

abbrev pub emit_one : Output → StreamManager → StreamManager
emit_one (enqueue_sme sme) m = enqueue_element sme m
emit_one (call_send status) m = record m { callbacks = call_send status ∷ m.callbacks }
emit_one (call_receive bytes status) m = record m {
  callbacks = call_receive bytes status ∷ m.callbacks;
}

unfoldable pub emit : List Output → StreamManager → StreamManager
unfolding enqueue_element
emit [] m = m
emit (o ∷ os) m = emit os (emit_one o m)

abbrev pub put_object : ℕ → Object → StreamManager → StreamManager
put_object p o m = record m { objects = insert p o m.objects }

-- A call of a method of a stream, or of a server, through a pointer; each pointer that there is
-- leads to an object.
abbrev pub on_stream_object :
    (Stream → Stream × List Output × Bool)
    → ℕ
    → Option Object
    → StreamManager
    → StreamManager × Bool
on_stream_object f p none m = (m, false)
on_stream_object f p (some (a_server s)) m = (m, false)
on_stream_object f p (some (a_stream s)) m =
    let (s', outputs, flag) = f s in (emit outputs (put_object p (a_stream s') m), flag)

unfoldable pub on_stream :
    (Stream → Stream × List Output × Bool) → ℕ → StreamManager → StreamManager × Bool
on_stream f p m = on_stream_object f p (lookup p m.objects) m

abbrev pub on_server_object :
    (Server → Server × List Output × Bool)
    → ℕ
    → Option Object
    → StreamManager
    → StreamManager × Bool
on_server_object f p none m = (m, false)
on_server_object f p (some (a_stream s)) m = (m, false)
on_server_object f p (some (a_server s)) m =
    let (s', outputs, flag) = f s in (emit outputs (put_object p (a_server s') m), flag)

unfoldable pub on_server :
    (Server → Server × List Output × Bool) → ℕ → StreamManager → StreamManager × Bool
on_server f p m = on_server_object f p (lookup p m.objects) m

-- The first port that is free.
unfoldable pub first_free : List Bool → ℕ → Option ℕ
first_free [] i = none
first_free (taken ∷ ports) i = if taken then first_free ports (i + 1) else some i

unfoldable pub free_client_port : ℕ → StreamManager → StreamManager
free_client_port port m = record m { client_ports = set m.client_ports port false }

-- A Stream as its constructor leaves it.
abbrev pub new_stream : ManagerConfig → ℕ → StreamInfo → Stream
unfolding update_redundancy
new_stream c fd info = update_redundancy (record {
  endpoint = new_endpoint fd info;
  buffers = record {
    pan_id = c.pan_id;
    auth_data = false;
    redundancy_count = 0;
    tx_count = 0;
    rx_count = 0;
    received = false;
    tx_packet_ready = false;
    received_shared = false;
    already_received_shared = true;
    next_tx_packet_ready = false;
    tx_packet = new_packet 0;
    rx_packet = new_packet 0;
    rx_packet_shared = new_packet 0;
    next_tx_packet = new_packet 0;
    waiting = false;
    wakeup_advance = 0;
    seq_no = 1;
    has_send_callback = false;
    has_recv_callback = false;
  };
})

-- The new stream, and the new server, have the file descriptor that is next.
unfoldable pub add_stream : ManagerConfig → StreamInfo → StreamManager → StreamManager
add_stream c info m = record m {
  fd_counter = m.fd_counter + 1;
  objects = insert m.fd_counter (a_stream (new_stream c m.fd_counter info)) m.objects;
  streams = insert info.id m.fd_counter m.streams;
  fdt = insert m.fd_counter m.fd_counter m.fdt;
}

unfoldable pub add_server : StreamInfo → StreamManager → StreamManager
add_server info m = record m {
  fd_counter = m.fd_counter + 1;
  objects =
      insert m.fd_counter
        (a_server (record { endpoint = new_endpoint m.fd_counter info; pending_accept = [] }))
        m.objects;
  servers = insert info.id.dst_port m.fd_counter m.servers;
  fdt = insert m.fd_counter m.fd_counter m.fdt;
}

abbrev pub fd_of : Option Object → ℕ → ℕ
fd_of none p = p
fd_of (some o) p = (endpoint_of o).fd

-- What removeStream does once it has found the stream.
abbrev pub drop_stream : StreamId → ℕ → StreamManager → StreamManager
drop_stream id p m =
    free_client_port id.src_port
      (record m { streams = erase id m.streams; fdt = erase (fd_of (lookup p m.objects) p) m.fdt })

unfoldable pub remove_stream : StreamId → StreamManager → StreamManager
unfolding free_client_port
remove_stream id m = elim (lookup id m.streams) [ none ↦ m | some p ↦ drop_stream id p m ]

abbrev pub drop_server : ℕ → ℕ → StreamManager → StreamManager
drop_server port p m = record m {
  servers = erase port m.servers;
  fdt = erase (fd_of (lookup p m.objects) p) m.fdt;
}

unfoldable pub remove_server : ℕ → StreamManager → StreamManager
remove_server port m = elim (lookup port m.servers) [ none ↦ m | some p ↦ drop_server port p m ]
