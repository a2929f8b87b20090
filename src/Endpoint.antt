-- ===== src/Endpoint.antt =====
-- network_module/stream/stream.h and .cpp: the two kinds of endpoint of a node, Stream and Server,
-- and what they have in common. What an endpoint asks of the stream manager and of the
-- application is a list of outputs. A call that blocks on a condition variable is split at the
-- wait, so the signals have nothing to do.
pub mod Machine
pub mod Server
pub mod Socket
mod Examples
use tdmh.Base.{
  ℕ, ◌+◌, ◌-◌, ◌%◌, List, [], ◌∷◌, ◌++◌, Bool, true, false, ◌&&◌, ◌==◌, leb, if◌then◌else◌,
}
use tdmh.Stream.Params.{StreamId, StreamParameters}
use tdmh.Stream.Collection.{SmeType, StreamManagementElement}
use tdmh.Packet.{Packet}

-- StreamStatus.
pub data StreamStatus : Type 0 where
  connecting connect_failed accept_wait established remotely_closed reopened close_wait listen_wait
        listen_failed listen uninitialized :
      StreamStatus

pub record StreamInfo : Type 0 where
  pub id : StreamId
  pub parameters : StreamParameters
  pub status : StreamStatus

-- The two timeouts are an `int`; they are counted down to 0, and tested for that.
pub record Endpoint : Type 0 where
  pub fd : ℕ
  pub info : StreamInfo
  pub sme_timeout : ℕ
  pub fail_timeout : ℕ

abbrev pub sme_timeout_max : ℕ
sme_timeout_max = 600

abbrev pub fail_timeout_max : ℕ
fail_timeout_max = 1800

abbrev pub new_endpoint : ℕ → StreamInfo → Endpoint
new_endpoint fd info = record {
  fd = fd;
  info = info;
  sme_timeout = sme_timeout_max;
  fail_timeout = fail_timeout_max;
}

abbrev pub set_status : StreamStatus → Endpoint → Endpoint
set_status status e = record {
  fd = e.fd;
  info = record e.info { status = status };
  sme_timeout = sme_timeout_max;
  fail_timeout = fail_timeout_max;
}

-- StreamManager::enqueueSME, and the calls of the two callbacks of the application. The callback
-- for sending also returns bytes, which are an input of `send_packet`.
pub data Output : Type 0 where
  enqueue_sme : StreamManagementElement → Output
  call_send : StreamStatus → Output
  call_receive : List ℕ → StreamStatus → Output

-- StreamManagementElement(info, type).
abbrev pub sme : SmeType → Endpoint → Output
sme type e = enqueue_sme (record { id = e.info.id; parameters = e.info.parameters; type = type })

-- The test `smeTimeout-- <= 0` of an endpoint that is to be closed, and what follows it.
unfoldable pub ask_again : SmeType → Endpoint → Endpoint × List Output
ask_again type e =
    if e.sme_timeout == 0
    then (record e { sme_timeout = sme_timeout_max }, sme type e ∷ [])
    else (record e { sme_timeout = e.sme_timeout - 1 }, [])

-- What an endpoint does that waits to be opened: it gives up, asks again, or waits.
unfoldable pub wait_for_opening :
    SmeType → SmeType → StreamStatus → Endpoint → Endpoint × List Output
wait_for_opening ask give_up failed e =
    if leb e.fail_timeout 1
    then (set_status failed e, sme give_up e ∷ [])
    else if leb e.sme_timeout 1
    then (
      record e { sme_timeout = sme_timeout_max; fail_timeout = e.fail_timeout - 1 },
      sme ask e ∷ [],
    )
    else (record e { sme_timeout = e.sme_timeout - 1; fail_timeout = e.fail_timeout - 1 }, [])

-- The members of a Stream that its data go through.
pub record Buffers : Type 0 where
  pub pan_id : ℕ
  pub auth_data : Bool
  pub redundancy_count : ℕ
  pub tx_count : ℕ
  pub rx_count : ℕ
  pub received : Bool
  pub tx_packet_ready : Bool
  pub received_shared : Bool
  pub already_received_shared : Bool
  pub next_tx_packet_ready : Bool
  pub tx_packet : Packet
  pub rx_packet : Packet
  pub rx_packet_shared : Packet
  pub next_tx_packet : Packet
  pub waiting : Bool
  pub wakeup_advance : ℕ
  pub seq_no : ℕ
  pub has_send_callback : Bool
  pub has_recv_callback : Bool

pub record Stream : Type 0 where
  pub endpoint : Endpoint
  pub buffers : Buffers

abbrev pub status_of : Stream → StreamStatus
status_of s = s.endpoint.info.status

-- updateRedundancy, by the value of the enum.
abbrev pub count_of : ℕ → ℕ → ℕ
count_of redundancy old =
    if redundancy == 0
    then 1
    else if leb redundancy 2
    then 2
    else if leb redundancy 4
    then 3
    else old

unfoldable pub update_redundancy : Stream → Stream
update_redundancy s = record s {
  buffers = record s.buffers {
    redundancy_count = count_of s.endpoint.info.parameters.redundancy s.buffers.redundancy_count;
  };
}

-- What a call of the application returns, the negative numbers of the source by their absolute
-- values; `waits` where it blocks, and `throws` where an exception leaves it.
pub data CallResult : Type 0 where
  waits : CallResult
  throws : CallResult
  returns fails : ℕ → CallResult

abbrev pub connect_result : StreamStatus → CallResult
connect_result connecting = waits
connect_result connect_failed = fails 1
connect_result established = returns 0
connect_result _ = fails 2

abbrev pub listen_result : StreamStatus → CallResult
listen_result listen_wait = waits
listen_result listen_failed = fails 1
listen_result listen = returns 0
listen_result _ = fails 2
