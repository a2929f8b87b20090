-- ===== src/Manager/Consistent/Calls.antt =====
-- The calls of the application keep the tables consistent.
use tdmh.Base.{
  ℕ, ◌≡◌, refl, lookup, nat_keyed, List, [], ◌∷◌, Option, none, some, Bool, true, false, ◌==◌, ltb,
  if◌then◌else◌, arith,
}
use tdmh.Stream.Params.{StreamId, id_keyed, is_server, StreamParameters}
use tdmh.Endpoint.{
  connecting, Stream, CallResult, waits, throws, returns, fails, connect_result, listen_result,
}
use tdmh.Endpoint.Machine.{connect_stream, accepted_stream, close}
use tdmh.Endpoint.Server.{Server, close_server, listen_server, accept}
use tdmh.Endpoint.Socket.{write_stream, read_stream}
use tdmh.Manager.{
  Object, a_stream, a_server, ManagerConfig, StreamManager, put_object, on_stream, on_server,
  first_free, free_client_port, add_stream,
}
use tdmh.Manager.Calls.{
  quietly, set_wakeup_advance, over, with_advance, too_early, advance_of, connect_on, connect_call,
  connect_outcome, connect_end, status_at, id_at, listen_call, listen_outcome, listen_end,
  take_stream, accept_object, accept_call, write_object, write_call, read_object, read_call,
  wait_call, set_waiting, set_callback, close_pending, remove_by_id, close_object, close_call,
}
use tdmh.Manager.Tables.{Keeps, put_object-tables}
use tdmh.Manager.Kept.{
  accepted_stream-Keeps, closed_server-Keeps, close-Keeps, close_server-Keeps, accept-endpoint,
  write_stream-endpoint, read_stream-endpoint,
}
use tdmh.Manager.Consistent.{
  IsConsistent, same-IsConsistent, on_stream-IsConsistent, on_server-IsConsistent,
  add_stream-IsConsistent, add_server-IsConsistent, remove_stream-IsConsistent,
  remove_server-IsConsistent, state_of, if-IsConsistent, option-IsConsistent,
}

put_stream-IsConsistent :
    (p : ℕ) (s s' : Stream) (m : StreamManager)
    → lookup p m.objects ≡ some (a_stream s)
    → s'.endpoint ≡ s.endpoint
    → IsConsistent m
    → IsConsistent (put_object p (a_stream s') m)
put_stream-IsConsistent p s s' m there same =
    same-IsConsistent m (put_object p (a_stream s') m)
      (put_object-tables p (a_stream s') m (ground arith))

put_accepted-IsConsistent :
    (p : ℕ) (s : Server) (m : StreamManager)
    → lookup p m.objects ≡ some (a_server s)
    → IsConsistent m
    → IsConsistent (put_object p (a_server (accept s).0) m)
put_accepted-IsConsistent p s m there =
    same-IsConsistent m (put_object p (a_server (accept s).0) m)
      (put_object-tables p (a_server (accept s).0) m (rw (accept-endpoint s, there) refl))

module _ (m : StreamManager) (w : IsConsistent m) where
  with_advance-IsConsistent :
      (c : ManagerConfig) (advance p : ℕ) → IsConsistent (with_advance c advance p m)
  with_advance-IsConsistent c advance p =
      if-IsConsistent (λ x. x) (ltb 0 advance) _ m
        (on_stream-IsConsistent (quietly (set_wakeup_advance _)) p m (λ s. refl) w) w

connect_on-IsConsistent :
    (c : ManagerConfig) (advance : ℕ) (id : StreamId) (ps : StreamParameters) (m : StreamManager)
    → IsConsistent m
    → IsConsistent (connect_on c advance id ps m).0
unfolding free_client_port
connect_on-IsConsistent c advance id ps m w =
    option-IsConsistent state_of (lookup id m.streams) _ _
      (λ e.
        let m' = add_stream c (record { id = id; parameters = ps; status = connecting }) m in
        let w' = add_stream-IsConsistent c _ m e w in
        if-IsConsistent state_of (too_early c advance) (m', over (fails 2)) _ w'
          (on_stream-IsConsistent (λ s. (s, connect_stream s, false)) m.fd_counter _ (λ s. refl)
            (with_advance-IsConsistent m' w' c advance m.fd_counter)))
      (λ other e. w)

pub connect_call-IsConsistent :
    (c : ManagerConfig) (dst port : ℕ) (ps : StreamParameters) (advance : ℕ) (m : StreamManager)
    → IsConsistent m
    → IsConsistent (connect_call c dst port ps advance m).0
unfolding connect_call
connect_call-IsConsistent c dst port ps advance m w =
    if-IsConsistent state_of m.master_trusted _ _
      (option-IsConsistent state_of (first_free m.client_ports 0) _ _ (λ e. w)
        (λ i e. connect_on-IsConsistent c advance _ ps _ w))
      w

pub connect_end-IsConsistent :
    (p : ℕ) (m : StreamManager) → IsConsistent m → IsConsistent (connect_end p m).0
unfolding connect_end
connect_end-IsConsistent p m w = outcome (connect_result (status_at (lookup p m.objects)))
  where
    outcome : (r : CallResult) → IsConsistent (connect_outcome p m r).0
    outcome waits = w
    outcome throws = w
    outcome (returns n) = w
    outcome (fails n) = remove_stream-IsConsistent (id_at (lookup p m.objects)) m w

pub listen_call-IsConsistent :
    (c : ManagerConfig) (port : ℕ) (ps : StreamParameters) (m : StreamManager)
    → IsConsistent m
    → IsConsistent (listen_call c port ps m).0
unfolding listen_call
listen_call-IsConsistent c port ps m w =
    if-IsConsistent state_of m.master_trusted _ _
      (option-IsConsistent state_of (lookup port m.servers) _ _
        (λ e.
          on_server-IsConsistent (λ s. (s, listen_server s, false)) m.fd_counter _ (λ s. refl)
            (add_server-IsConsistent _ m w))
        (λ other e. w))
      w

pub listen_end-IsConsistent :
    (p : ℕ) (m : StreamManager) → IsConsistent m → IsConsistent (listen_end p m).0
unfolding listen_end
listen_end-IsConsistent p m w = outcome (listen_result (status_at (lookup p m.objects)))
  where
    outcome : (r : CallResult) → IsConsistent (listen_outcome p m r).0
    outcome waits = w
    outcome throws = w
    outcome (returns n) = w
    outcome (fails n) = remove_server-IsConsistent (id_at (lookup p m.objects)).dst_port m w

take_stream-IsConsistent :
    (r : CallResult) (m : StreamManager) → IsConsistent m → IsConsistent (take_stream m r).0
take_stream-IsConsistent waits m w = w
take_stream-IsConsistent throws m w = w
take_stream-IsConsistent (fails n) m w = w
take_stream-IsConsistent (returns fd) m w =
    option-IsConsistent state_of (lookup fd m.fdt) _ _ (λ e. w)
      (λ p e. on_stream-IsConsistent (quietly accepted_stream) p m accepted_stream-Keeps w)

-- The calls that find an object by a file descriptor.
module _ (m : StreamManager) (w : IsConsistent m) where
  by_fd-IsConsistent :
      {A : Type 0} (f : A → StreamManager) (fd : ℕ) (none_there wrong : A) (x : ℕ → A)
      → IsConsistent (f none_there)
      → IsConsistent (f wrong)
      → ((p : ℕ) → IsConsistent (f (x p)))
      → IsConsistent (
          f (
            if m.master_trusted
            then elim (lookup fd m.fdt) [ none ↦ none_there | some p ↦ x p ]
            else wrong))
  by_fd-IsConsistent f fd none_there wrong x h h' h'' =
      if-IsConsistent f m.master_trusted _ wrong
        (option-IsConsistent f (lookup fd m.fdt) none_there x (λ e. h) (λ p e. h'' p)) h'

  pub accept_call-IsConsistent : (fd : ℕ) → IsConsistent (accept_call fd m).0
  unfolding accept_call
  accept_call-IsConsistent fd =
      by_fd-IsConsistent state_of fd _ _ _ w w (λ p. object p (lookup p m.objects) refl)
    where
      object :
          (p : ℕ) (o : Option Object)
          → lookup p m.objects ≡ o
          → IsConsistent (accept_object p o m).0
      object p none e = w
      object p (some (a_stream s)) e = w
      object p (some (a_server s)) e =
          take_stream-IsConsistent (accept s).1 (put_object p (a_server (accept s).0) m)
            (put_accepted-IsConsistent p s m e w)

  pub write_call-IsConsistent : (fd : ℕ) (bytes : List ℕ) → IsConsistent (write_call fd bytes m).0
  unfolding write_call
  write_call-IsConsistent fd bytes =
      by_fd-IsConsistent state_of fd _ _ _ w w (λ p. object p (lookup p m.objects) refl)
    where
      object :
          (p : ℕ) (o : Option Object)
          → lookup p m.objects ≡ o
          → IsConsistent (write_object bytes p o m).0
      object p none e = w
      object p (some (a_server s)) e = w
      object p (some (a_stream s)) e =
          put_stream-IsConsistent p s (write_stream bytes s).0 m e (write_stream-endpoint bytes s) w

  pub read_call-IsConsistent : (fd max_size : ℕ) → IsConsistent (read_call fd max_size m).0
  unfolding read_call
  read_call-IsConsistent fd max_size =
      by_fd-IsConsistent (λ (r : StreamManager × CallResult × List ℕ). r.0) fd (m, fails 1, [])
        (m, fails 10, []) _ w w (λ p. object p (lookup p m.objects) refl)
    where
      object :
          (p : ℕ) (o : Option Object)
          → lookup p m.objects ≡ o
          → IsConsistent (read_object max_size p o m).0
      object p none e = w
      object p (some (a_server s)) e = w
      object p (some (a_stream s)) e =
          put_stream-IsConsistent p s (read_stream max_size s).0 m e
            (read_stream-endpoint max_size s) w

  pub wait_call-IsConsistent : (fd : ℕ) → IsConsistent (wait_call fd m).0
  unfolding wait_call
  wait_call-IsConsistent fd = by_fd-IsConsistent state_of fd _ _ _ w w (λ p.
      if-IsConsistent state_of (advance_of (lookup p m.objects) == 0) _ _ w
        (on_stream-IsConsistent (quietly set_waiting) p m (λ s. refl) w))

  pub set_callback-IsConsistent :
      (c : ManagerConfig) (f : Stream → Stream) (fd : ℕ)
      → Keeps a_stream (quietly f)
      → IsConsistent (set_callback c f fd m).0
  unfolding set_callback
  set_callback-IsConsistent c f fd keeps =
      if-IsConsistent state_of (c.callbacks_execution_time == 0) _ _ w (
        option-IsConsistent state_of (lookup fd m.fdt) _ _ (λ e. w)
          (λ p e. on_stream-IsConsistent (quietly f) p m keeps w))

close_pending-IsConsistent :
    (ps : List ℕ) (m : StreamManager) → IsConsistent m → IsConsistent (close_pending ps m)
unfolding close_pending
close_pending-IsConsistent [] m w = w
close_pending-IsConsistent (p ∷ ps) m w =
    close_pending-IsConsistent ps _ (on_stream-IsConsistent _ p m closed_server-Keeps w)

remove_by_id-IsConsistent :
    (deletable : Bool) (id : StreamId) (m : StreamManager)
    → IsConsistent m
    → IsConsistent (remove_by_id deletable id m)
remove_by_id-IsConsistent false id m w = w
remove_by_id-IsConsistent true id m w =
    if-IsConsistent (λ x. x) (is_server id) _ _ (remove_server-IsConsistent id.dst_port m w)
      (remove_stream-IsConsistent id m w)

pub close_call-IsConsistent :
    (fd : ℕ) (m : StreamManager) → IsConsistent m → IsConsistent (close_call fd m)
unfolding close_call
close_call-IsConsistent fd m w =
    option-IsConsistent (λ x. x) (lookup fd m.fdt) m _ (λ e. w)
      (λ p e. object p (lookup p m.objects))
  where
    object : (p : ℕ) (o : Option Object) → IsConsistent (close_object p o m)
    object p none = w
    object p (some (a_stream s)) =
        remove_by_id-IsConsistent (on_stream close p m).1 s.endpoint.info.id _
          (on_stream-IsConsistent close p m close-Keeps w)
    object p (some (a_server s)) =
        remove_by_id-IsConsistent (on_server close_server p m).1 s.endpoint.info.id _ (
          close_pending-IsConsistent s.pending_accept _
            (on_server-IsConsistent close_server p m close_server-Keeps w))
