-- ===== src/Endpoint/Server.antt =====
-- stream.cpp: Server, an endpoint that hands streams over to the application.
use tdmh.Base.{ℕ, List, [], ◌∷◌, ◌++◌, Bool, true, false}
use tdmh.Stream.Collection.{listens, closed}
use tdmh.Endpoint.{
  StreamStatus, remotely_closed, reopened, close_wait, listen_wait, listen_failed, listen, Endpoint,
  set_status, Output, sme, ask_again, wait_for_opening, CallResult, waits, returns, fails,
}

-- The pending streams are named by their file descriptors.
pub record Server : Type 0 where
  pub endpoint : Endpoint
  pub pending_accept : List ℕ

abbrev pub server_status : Server → StreamStatus
server_status s = s.endpoint.info.status

unfoldable pub add_pending_stream : ℕ → Server → Server
add_pending_stream fd s = record s { pending_accept = s.pending_accept ++ (fd ∷ []) }

abbrev pub server_accepted : StreamStatus → Endpoint → Endpoint
server_accepted listen_wait e = set_status listen e
server_accepted remotely_closed e = set_status reopened e
server_accepted _ e = e

unfoldable pub accepted_server : Server → Server
accepted_server s = record s { endpoint = server_accepted (server_status s) s.endpoint }

abbrev pub server_rejected : StreamStatus → Endpoint → Endpoint
server_rejected listen_wait e = set_status listen_failed e
server_rejected _ e = e

unfoldable pub rejected_server : Server → Server
rejected_server s = record s { endpoint = server_rejected (server_status s) s.endpoint }

abbrev pub server_closing : StreamStatus → Endpoint → Endpoint × List Output × Bool
server_closing listen e = (set_status close_wait e, sme closed e ∷ [], false)
server_closing remotely_closed e = (e, [], true)
server_closing reopened e = (set_status close_wait e, [], false)
server_closing close_wait e = (e, sme closed e ∷ [], false)
server_closing _ e = (e, [], false)

-- The server's own part of close; the pending streams are closed by their closedServer.
unfoldable pub close_server : Server → Server × List Output × Bool
close_server s =
    let (e, outputs, deletable) = server_closing (server_status s) s.endpoint in
    (record s { endpoint = e }, outputs, deletable)

abbrev pub server_updated : StreamStatus → Endpoint → Endpoint × List Output
server_updated listen_wait e = wait_for_opening listens closed listen_failed e
server_updated reopened e = ask_again closed e
server_updated close_wait e = ask_again closed e
server_updated _ e = (e, [])

unfoldable pub update_server : Server → Server × List Output
update_server s =
    let (e, outputs) = server_updated (server_status s) s.endpoint in
    (record s { endpoint = e }, outputs)

-- No code calls Server::desync.
abbrev pub server_desynced : StreamStatus → Endpoint → Endpoint × Bool
server_desynced listen_wait e = (set_status listen_failed e, false)
server_desynced listen e = (set_status remotely_closed e, false)
server_desynced reopened e = (set_status remotely_closed e, false)
server_desynced close_wait e = (e, true)
server_desynced _ e = (e, false)

unfoldable pub desync_server : Server → Server × Bool
desync_server s =
    let (e, deletable) = server_desynced (server_status s) s.endpoint in
    (record s { endpoint = e }, deletable)

unfoldable pub listen_server : Server → List Output
listen_server s = sme listens s.endpoint ∷ []

-- The first pending stream, of a server that listens.
abbrev pub first_pending : List ℕ → StreamStatus → Server → Server × CallResult
first_pending [] listen s = (s, waits)
first_pending (fd ∷ fds) listen s = (record s { pending_accept = fds }, returns fd)
first_pending pending _ s = (s, fails 1)

unfoldable pub accept : Server → Server × CallResult
accept s = first_pending s.pending_accept (server_status s) s
