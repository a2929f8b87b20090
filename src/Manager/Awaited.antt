-- ===== src/Manager/Awaited.antt =====
-- A stream that waits to be opened, through the calls that set and apply a schedule.
pub mod Opened
pub mod Connected
use tdmh.Base.{
  ℕ, suc, ◌≤◌, ◌≡◌, refl, sym, ap, subst, ◌∙◌, ◌⊎◌, inl, inr, Map, lookup, insert, erase, Keyed,
  nat_keyed, lookup-insert, lookup-erase, lookup_same, List, [], ◌∷◌, map, All, Option, none, some,
  Bool, true, false, ◌&&◌, ◌||◌, ◌==◌, if◌then◌else◌, arith,
}
use tdmh.Stream.Params.{StreamId, get_key, id_keyed, StreamParameters}
use tdmh.Endpoint.{
  StreamStatus, connecting, established, remotely_closed, Output, enqueue_sme, call_send,
  call_receive, Stream, status_of, update_redundancy,
}
use tdmh.Endpoint.Machine.{added_stream}
use tdmh.Endpoint.Server.{Server}
use tdmh.Manager.{
  Object, a_stream, a_server, StreamManager, emit, emit_one, enqueue_element, put_object,
  on_stream_object, on_stream, on_server_object, on_server,
}
use tdmh.Manager.Calls.{quietly, status_at}
use tdmh.Manager.Tables.{Tag, tag_of, Tables, tables, Keeps, on_stream-tables, on_server-tables}
use tdmh.Manager.Kept.{added_stream-Keeps}
use tdmh.Manager.Invariant.{WellFormed, set_to_remove-WellFormed}
use tdmh.Manager.Consistent.{IsConsistent, on_stream-IsConsistent, on_server-IsConsistent}

emit-objects : (os : List Output) (m : StreamManager) → (emit os m).objects ≡ m.objects
unfolding emit enqueue_element
emit-objects [] m = refl
emit-objects (enqueue_sme x ∷ os) m = emit-objects os (emit_one (enqueue_sme x) m)
emit-objects (call_send x ∷ os) m = emit-objects os (emit_one (call_send x) m)
emit-objects (call_receive x y ∷ os) m = emit-objects os (emit_one (call_receive x y) m)

-- Another object is left as it is.
pub on_stream_other :
    (f : Stream → Stream × List Output × Bool) (q p : ℕ) (m : StreamManager)
    → (q == p) ≡ false
    → lookup p (on_stream f q m).0.objects ≡ lookup p m.objects
unfolding on_stream
on_stream_other f q p m other = object (lookup q m.objects)
  where
    object :
        (o : Option Object) → lookup p (on_stream_object f q o m).0.objects ≡ lookup p m.objects
    object none = refl
    object (some (a_server s)) = refl
    object (some (a_stream s)) =
        ap (lookup p) (emit-objects (f s).1 (put_object q (a_stream (f s).0) m))
        ∙ ground (arith, lookup-insert q p (a_stream (f s).0) m.objects)

-- A stream is not changed by a method of a server.
pub on_server_other :
    (f : Server → Server × List Output × Bool) (q p : ℕ) (s : Stream) (m : StreamManager)
    → lookup p m.objects ≡ some (a_stream s)
    → lookup p (on_server f q m).0.objects ≡ some (a_stream s)
unfolding on_server
on_server_other f q p s m there = object (lookup q m.objects) refl
  where
    object :
        (o : Option Object)
        → lookup q m.objects ≡ o
        → lookup p (on_server_object f q o m).0.objects ≡ some (a_stream s)
    object none e = there
    object (some (a_stream t)) e = there
    object (some (a_server t)) e =
        ap (lookup p) (emit-objects (f t).1 (put_object q (a_server (f t).0) m))
        ∙ ground (arith, lookup-insert q p (a_server (f t).0) m.objects)

pub on_stream_same :
    (f : Stream → Stream × List Output × Bool) (p : ℕ) (s : Stream) (m : StreamManager)
    → lookup p m.objects ≡ some (a_stream s)
    → lookup p (on_stream f p m).0.objects ≡ some (a_stream (f s).0)
unfolding on_stream
on_stream_same f p s m there = rw there (
    ap (lookup p) (emit-objects (f s).1 (put_object p (a_stream (f s).0) m))
    ∙ ground (arith, lookup-insert p p (a_stream (f s).0) m.objects))

-- Whether it was in the schedule says what its status may be.
abbrev pub IsAwaited : Bool → StreamStatus → Type 0
IsAwaited true status = status ≡ established
IsAwaited false status = (status ≡ connecting) ⊎ (status ≡ established)

-- The stream with the pointer `p` and the id `id`.
pub record Awaits (id : StreamId) (p : ℕ) (scheduled : Bool) (m : StreamManager) : Type 0 where
  pub consistent : IsConsistent m
  pub entry : lookup id m.streams ≡ some p
  pub stream : Stream
  pub object : lookup p m.objects ≡ some (a_stream stream)
  pub status : IsAwaited scheduled (status_of stream)

module _ (id : StreamId) (p : ℕ) where
  -- A call that leaves the tables and the stream as they are.
  pub same-Awaits :
      (b : Bool) (m m' : StreamManager)
      → tables m' ≡ tables m
      → lookup p m'.objects ≡ lookup p m.objects
      → Awaits id p b m
      → Awaits id p b m'
  same-Awaits b m m' e e' h = record {
    consistent = subst WellFormed (sym e) h.consistent;
    entry = subst (λ (t : Tables). lookup id t.streams ≡ some p) (sym e) h.entry;
    stream = h.stream;
    object = e' ∙ h.object;
    status = h.status;
  }

  pub on_stream-Awaits :
      (b : Bool) (f : Stream → Stream × List Output × Bool) (q : ℕ) (m : StreamManager)
      → Keeps a_stream f
      → (q == p) ≡ false
      → Awaits id p b m
      → Awaits id p b (on_stream f q m).0
  on_stream-Awaits b f q m keeps other =
      same-Awaits b m (on_stream f q m).0 (on_stream-tables f q m keeps)
        (on_stream_other f q p m other)

  pub on_server-Awaits :
      (b : Bool) (f : Server → Server × List Output × Bool) (q : ℕ) (m : StreamManager)
      → Keeps a_server f
      → Awaits id p b m
      → Awaits id p b (on_server f q m).0
  on_server-Awaits b f q m keeps h =
      same-Awaits b m (on_server f q m).0 (on_server-tables f q m keeps)
        (on_server_other f q p h.stream m h.object ∙ sym h.object) h

  -- A method that takes the stream from one status to another.
  pub on_awaited-Awaits :
      (b b' : Bool) (f : Stream → Stream × List Output × Bool) (m : StreamManager)
      → Keeps a_stream f
      → ((s : Stream) → IsAwaited b (status_of s) → IsAwaited b' (status_of (f s).0))
      → Awaits id p b m
      → Awaits id p b' (on_stream f p m).0
  on_awaited-Awaits b b' f m keeps moves h = record {
    consistent = on_stream-IsConsistent f p m keeps h.consistent;
    entry =
        subst (λ (t : Tables). lookup id t.streams ≡ some p) (sym (on_stream-tables f p m keeps))
          h.entry;
    stream = (f h.stream).0;
    object = on_stream_same f p h.stream m h.object;
    status = moves h.stream h.status;
  }

  pub added-IsAwaited :
      (ps : StreamParameters) (b : Bool) (s : Stream)
      → IsAwaited b (status_of s)
      → status_of (added_stream ps s) ≡ established
  unfolding added_stream update_redundancy
  added-IsAwaited ps true s h = ground arith
  added-IsAwaited ps false s h = ground arith

  pub with_removed-Awaits :
      (b : Bool) (ids : List StreamId) (m : StreamManager)
      → Awaits id p b m
      → Awaits id p b (record m { streams_to_remove = ids })
  with_removed-Awaits b ids m h = record {
    consistent = set_to_remove-WellFormed (tables m) h.consistent ids;
    entry = h.entry;
    stream = h.stream;
    object = h.object;
    status = h.status;
  }
