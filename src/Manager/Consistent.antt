-- ===== src/Manager/Consistent.antt =====
-- The operations of StreamManager keep its tables consistent.
pub mod Calls
pub mod Schedule
pub mod Applied
pub mod Runs
use mathlib.Core.Path.{fun_ext}
use tdmh.Base.{
  ℕ, zero, ◌+◌, ◌≤◌, ◌≡◌, refl, sym, ap, subst, ◌∙◌, Map, lookup, insert, erase, Keyed, nat_keyed,
  lookup-insert, List, [], ◌∷◌, set, Option, none, some, Bool, true, false, ◌==◌, if◌then◌else◌,
  arith,
}
use tdmh.Stream.Params.{StreamId, get_key, id_keyed, is_server, StreamParameters}
use tdmh.Stream.Wakeup.Scheduler.{WakeupScheduler}
use tdmh.Endpoint.{
  StreamInfo, connecting, listen_wait, update_redundancy, Output, Stream, CallResult, waits, throws,
  returns, fails, connect_result, listen_result,
}
use tdmh.Endpoint.Machine.{connect_stream, accepted_stream, closed_server, close}
use tdmh.Endpoint.Server.{Server, close_server, listen_server, accept}
use tdmh.Endpoint.Socket.{write_stream, read_stream}
use tdmh.Manager.{
  Object, a_stream, a_server, ManagerConfig, StreamManager, new_manager, put_object, on_stream,
  on_server, drop_stream, drop_server, first_free, free_client_port, add_stream, add_server, fd_of,
  remove_stream, remove_server,
}
use tdmh.Manager.Tables.{
  tag_of, Tables, tables, Keeps, if_cases, option_cases, tag_at-insert, put_object-tables,
  on_stream-tables, on_server-tables,
}
use tdmh.Manager.Invariant.{
  IsStreamOf, IsServerOf, WellFormed, insert_stream, insert_server, insert_stream-WellFormed,
  insert_server-WellFormed, erase_stream-WellFormed, erase_server-WellFormed,
}
use tdmh.Manager.Kept.{
  accepted_stream-Keeps, closed_server-Keeps, close-Keeps, close_server-Keeps, accept-endpoint,
  write_stream-endpoint, read_stream-endpoint,
}

abbrev pub IsConsistent : StreamManager → Type 0
IsConsistent m = WellFormed (tables m)

pub new_manager-IsConsistent :
    (trusted : Bool) (s : WakeupScheduler) → IsConsistent (new_manager trusted s)
unfolding new_manager lookup
new_manager-IsConsistent trusted s = record {
  ordered = tt;
  unused = λ p h. refl;
  fds = λ fd p e. ground arith;
  stream_entries = λ id p e. ground arith;
  server_entries = λ port p e. ground arith;
}

pub same-IsConsistent :
    (m m' : StreamManager) → tables m' ≡ tables m → IsConsistent m → IsConsistent m'
same-IsConsistent m m' e w = subst WellFormed (sym e) w

pub on_stream-IsConsistent :
    (f : Stream → Stream × List Output × Bool) (p : ℕ) (m : StreamManager)
    → Keeps a_stream f
    → IsConsistent m
    → IsConsistent (on_stream f p m).0
on_stream-IsConsistent f p m keeps w =
    same-IsConsistent m (on_stream f p m).0 (on_stream-tables f p m keeps) w

pub on_server-IsConsistent :
    (f : Server → Server × List Output × Bool) (p : ℕ) (m : StreamManager)
    → Keeps a_server f
    → IsConsistent m
    → IsConsistent (on_server f p m).0
on_server-IsConsistent f p m keeps w =
    same-IsConsistent m (on_server f p m).0 (on_server-tables f p m keeps) w

add_stream-tables :
    (c : ManagerConfig) (info : StreamInfo) (m : StreamManager)
    → tables (add_stream c info m) ≡ insert_stream info.id (tables m)
unfolding add_stream update_redundancy
add_stream-tables c info m =
    ap (λ g. record (insert_stream info.id (tables m)) { tags = g })
      (fun_ext (λ q. tag_at-insert m.fd_counter q _ m.objects))

add_server-tables :
    (info : StreamInfo) (m : StreamManager)
    → tables (add_server info m) ≡ insert_server info.id (tables m)
unfolding add_server
add_server-tables info m =
    ap (λ g. record (insert_server info.id (tables m)) { tags = g })
      (fun_ext (λ q. tag_at-insert m.fd_counter q _ m.objects))

pub add_stream-IsConsistent :
    (c : ManagerConfig) (info : StreamInfo) (m : StreamManager)
    → lookup info.id m.streams ≡ none
    → IsConsistent m
    → IsConsistent (add_stream c info m)
add_stream-IsConsistent c info m new w =
    subst WellFormed (sym (add_stream-tables c info m))
      (insert_stream-WellFormed (tables m) w info.id new)

pub add_server-IsConsistent :
    (info : StreamInfo) (m : StreamManager) → IsConsistent m → IsConsistent (add_server info m)
add_server-IsConsistent info m w =
    subst WellFormed (sym (add_server-tables info m))
      (insert_server-WellFormed (tables m) w info.id)

stream-fd_of :
    (id : StreamId) (p : ℕ) (o : Option Object) → IsStreamOf id p (tag_of o) → fd_of o p ≡ p
stream-fd_of id p none h = refl
stream-fd_of id p (some (a_stream s)) h = h.1
stream-fd_of id p (some (a_server s)) h = ground arith

server-fd_of : (port p : ℕ) (o : Option Object) → IsServerOf port p (tag_of o) → fd_of o p ≡ p
server-fd_of port p none h = refl
server-fd_of port p (some (a_server s)) h = h.1
server-fd_of port p (some (a_stream s)) h = ground arith

pub remove_stream-IsConsistent :
    (id : StreamId) (m : StreamManager) → IsConsistent m → IsConsistent (remove_stream id m)
unfolding remove_stream free_client_port
remove_stream-IsConsistent id m w = split (lookup id m.streams) refl
  where
    split :
        (r : Option ℕ)
        → lookup id m.streams ≡ r
        → IsConsistent (elim r [ none ↦ m | some p ↦ drop_stream id p m ])
    split none e = w
    split (some p) e =
        rw (stream-fd_of id p (lookup p m.objects) (w.stream_entries id p e).0)
          (erase_stream-WellFormed (tables m) w id p e)

pub remove_server-IsConsistent :
    (port : ℕ) (m : StreamManager) → IsConsistent m → IsConsistent (remove_server port m)
unfolding remove_server
remove_server-IsConsistent port m w = split (lookup port m.servers) refl
  where
    split :
        (r : Option ℕ)
        → lookup port m.servers ≡ r
        → IsConsistent (elim r [ none ↦ m | some p ↦ drop_server port p m ])
    split none e = w
    split (some p) e =
        rw (server-fd_of port p (lookup p m.objects) (w.server_entries port p e).0)
          (erase_server-WellFormed (tables m) w port p e)

abbrev pub state_of : {R : Type 0} → StreamManager × R → StreamManager
state_of r = r.0

pub if-IsConsistent :
    {A : Type 0} (f : A → StreamManager) (b : Bool) (x y : A)
    → IsConsistent (f x)
    → IsConsistent (f y)
    → IsConsistent (f (if b then x else y))
if-IsConsistent f = if_cases (λ x. IsConsistent (f x))

pub option-IsConsistent :
    {A B : Type 0} (f : B → StreamManager) (o : Option A) (n : B) (x : A → B)
    → (o ≡ none → IsConsistent (f n))
    → ((a : A) → o ≡ some a → IsConsistent (f (x a)))
    → IsConsistent (f (elim o [ none ↦ n | some a ↦ x a ]))
option-IsConsistent f = option_cases (λ x. IsConsistent (f x))
