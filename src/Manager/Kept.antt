-- ===== src/Manager/Kept.antt =====
-- The methods of streams and servers keep the ids and the file descriptors.
use tdmh.Base.{ℕ, ◌≡◌, refl, List, Option, some, Bool, arith}
use tdmh.Stream.Params.{StreamParameters}
use tdmh.Packet.{Packet}
use tdmh.Endpoint.{ask_again, wait_for_opening, update_redundancy, Output, Stream}
use tdmh.Endpoint.Machine.{
  added_stream, removed_stream, rejected_stream, accepted_stream, closed_server, close,
  periodic_update, desync,
}
use tdmh.Endpoint.Server.{
  Server, add_pending_stream, accepted_server, rejected_server, close_server, update_server, accept,
}
use tdmh.Endpoint.Socket.{
  write_stream, read_stream, update_rx_packet, receive_with_callback, receive_packet, miss_packet,
  send_packet, send_with_callback, update_tx_packet,
}
use tdmh.Manager.{a_stream, a_server}
use tdmh.Manager.Calls.{quietly}
use tdmh.Manager.Phases.{server_quietly, without_flag}
use tdmh.Manager.Tables.{Keeps}

pub added_stream-Keeps : (ps : StreamParameters) → Keeps a_stream (quietly (added_stream ps))
unfolding added_stream update_redundancy
added_stream-Keeps ps s = ground arith

pub accepted_stream-Keeps : Keeps a_stream (quietly accepted_stream)
unfolding accepted_stream
accepted_stream-Keeps s = ground arith

pub removed_stream-Keeps : Keeps a_stream removed_stream
unfolding removed_stream
removed_stream-Keeps s = ground arith

pub rejected_stream-Keeps : Keeps a_stream (quietly rejected_stream)
unfolding rejected_stream
rejected_stream-Keeps s = ground arith

pub closed_server-Keeps : Keeps a_stream (without_flag closed_server)
unfolding closed_server
closed_server-Keeps s = ground arith

pub close-Keeps : Keeps a_stream close
unfolding close
close-Keeps s = ground arith

pub periodic_update-Keeps : Keeps a_stream (without_flag periodic_update)
unfolding periodic_update wait_for_opening ask_again
periodic_update-Keeps s = ground arith

pub desync-Keeps : Keeps a_stream desync
unfolding desync
desync-Keeps s = ground arith

pub accepted_server-Keeps : Keeps a_server (server_quietly accepted_server)
unfolding accepted_server
accepted_server-Keeps s = ground arith

pub rejected_server-Keeps : Keeps a_server (server_quietly rejected_server)
unfolding rejected_server
rejected_server-Keeps s = ground arith

pub close_server-Keeps : Keeps a_server close_server
unfolding close_server
close_server-Keeps s = ground arith

pub update_server-Keeps : Keeps a_server (without_flag update_server)
unfolding update_server wait_for_opening ask_again
update_server-Keeps s = ground arith

pub add_pending_stream-Keeps : (fd : ℕ) → Keeps a_server (server_quietly (add_pending_stream fd))
unfolding add_pending_stream
add_pending_stream-Keeps fd s = refl

pub accept-endpoint : (s : Server) → (accept s).0.endpoint ≡ s.endpoint
unfolding accept
accept-endpoint s = ground arith

pub write_stream-endpoint :
    (bytes : List ℕ) (s : Stream) → (write_stream bytes s).0.endpoint ≡ s.endpoint
unfolding write_stream
write_stream-endpoint bytes s = ground arith

pub read_stream-endpoint : (n : ℕ) (s : Stream) → (read_stream n s).0.endpoint ≡ s.endpoint
unfolding read_stream
read_stream-endpoint n s = ground arith

pub receive_packet-endpoint :
    (p : Packet) (s s' : Stream) (outputs : List Output) (over : Bool)
    → receive_packet p s ≡ some (s', outputs, over)
    → s'.endpoint ≡ s.endpoint
unfolding receive_packet update_rx_packet receive_with_callback
receive_packet-endpoint p s s' outputs over e = ground arith

pub miss_packet-endpoint :
    (s s' : Stream) (outputs : List Output) (over : Bool)
    → miss_packet s ≡ some (s', outputs, over)
    → s'.endpoint ≡ s.endpoint
unfolding miss_packet update_rx_packet receive_with_callback
miss_packet-endpoint s s' outputs over e = ground arith

pub send_packet-endpoint :
    (bytes : List ℕ) (s s' : Stream) (outputs : List Output) (sent : Option Packet)
    → send_packet bytes s ≡ some (s', outputs, sent)
    → s'.endpoint ≡ s.endpoint
unfolding send_packet send_with_callback update_tx_packet
send_packet-endpoint bytes s s' outputs sent e = ground arith
