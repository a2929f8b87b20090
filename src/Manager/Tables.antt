-- ===== src/Manager/Tables.antt =====
-- StreamManager as its tables: what its maps hold, and which kind of object each pointer leads to.
-- Most operations leave the tables as they are.
use mathlib.Core.Path.{fun_ext}
use tdmh.Base.{
  ℕ, ◌≡◌, refl, sym, ap, ◌∙◌, Map, lookup, insert, nat_keyed, lookup-insert, List, [], ◌∷◌, Option,
  none, some, Bool, true, false, ◌==◌, if◌then◌else◌, arith,
}
use tdmh.Stream.Params.{StreamId}
use tdmh.Endpoint.{Output, enqueue_sme, call_send, call_receive, Stream}
use tdmh.Endpoint.Server.{Server}
use tdmh.Endpoint.Socket.{◌>>=◌}
use tdmh.Manager.{
  Object, a_stream, a_server, StreamManager, enqueue_element, emit_one, emit, put_object,
  on_stream_object, on_stream, on_server_object, on_server,
}

-- The kind of an object, its id or its port, and its file descriptor.
pub data Tag : Type 0 where
  stream_tag server_tag : StreamId → ℕ → Tag

abbrev pub object_tag : Object → Tag
object_tag (a_stream s) = stream_tag s.endpoint.info.id s.endpoint.fd
object_tag (a_server s) = server_tag s.endpoint.info.id s.endpoint.fd

abbrev pub tag_of : Option Object → Option Tag
tag_of none = none
tag_of (some o) = some (object_tag o)

pub record Tables : Type 0 where
  pub fd_counter : ℕ
  pub fdt : Map ℕ ℕ
  pub streams : Map StreamId ℕ
  pub servers : Map ℕ ℕ
  pub streams_to_remove : List StreamId
  pub tags : ℕ → Option Tag

abbrev pub tables : StreamManager → Tables
tables m = record {
  fd_counter = m.fd_counter;
  fdt = m.fdt;
  streams = m.streams;
  servers = m.servers;
  streams_to_remove = m.streams_to_remove;
  tags = λ p. tag_of (lookup p m.objects);
}

-- A method leaves the id and the file descriptor of its object as they are.
abbrev pub Keeps : {A : Type 0} → (A → Object) → (A → A × List Output × Bool) → Type 0
Keeps {A} kind f = (a : A) → object_tag (kind (f a).0) ≡ object_tag (kind a)

pub tag_at-insert :
    (p q : ℕ) (o : Object) (objects : Map ℕ Object)
    → tag_of (lookup q (insert p o objects))
      ≡ (if p == q then some (object_tag o) else tag_of (lookup q objects))
tag_at-insert p q o objects = ground (arith, lookup-insert p q o objects)

tag-insert :
    (p q : ℕ) (o : Object) (objects : Map ℕ Object)
    → some (object_tag o) ≡ tag_of (lookup p objects)
    → tag_of (lookup q (insert p o objects)) ≡ tag_of (lookup q objects)
tag-insert p q o objects e = ground (arith, tag_at-insert p q o objects)

pub put_object-tables :
    (p : ℕ) (o : Object) (m : StreamManager)
    → some (object_tag o) ≡ tag_of (lookup p m.objects)
    → tables (put_object p o m) ≡ tables m
put_object-tables p o m e =
    ap (λ g. record (tables m) { tags = g }) (fun_ext (λ q. tag-insert p q o m.objects e))

pub emit-tables : (os : List Output) (m : StreamManager) → tables (emit os m) ≡ tables m
unfolding emit enqueue_element
emit-tables [] m = refl
emit-tables (enqueue_sme x ∷ os) m = emit-tables os (emit_one (enqueue_sme x) m)
emit-tables (call_send x ∷ os) m = emit-tables os (emit_one (call_send x) m)
emit-tables (call_receive x y ∷ os) m = emit-tables os (emit_one (call_receive x y) m)

on_stream_object-tables :
    (f : Stream → Stream × List Output × Bool) (p : ℕ) (o : Option Object) (m : StreamManager)
    → Keeps a_stream f
    → lookup p m.objects ≡ o
    → tables (on_stream_object f p o m).0 ≡ tables m
on_stream_object-tables f p none m keeps e = refl
on_stream_object-tables f p (some (a_server s)) m keeps e = refl
on_stream_object-tables f p (some (a_stream s)) m keeps e =
    emit-tables (f s).1 (put_object p (a_stream (f s).0) m)
    ∙ put_object-tables p (a_stream (f s).0) m (ap some (keeps s) ∙ ap tag_of (sym e))

pub on_stream-tables :
    (f : Stream → Stream × List Output × Bool) (p : ℕ) (m : StreamManager)
    → Keeps a_stream f
    → tables (on_stream f p m).0 ≡ tables m
unfolding on_stream
on_stream-tables f p m keeps = on_stream_object-tables f p (lookup p m.objects) m keeps refl

on_server_object-tables :
    (f : Server → Server × List Output × Bool) (p : ℕ) (o : Option Object) (m : StreamManager)
    → Keeps a_server f
    → lookup p m.objects ≡ o
    → tables (on_server_object f p o m).0 ≡ tables m
on_server_object-tables f p none m keeps e = refl
on_server_object-tables f p (some (a_stream s)) m keeps e = refl
on_server_object-tables f p (some (a_server s)) m keeps e =
    emit-tables (f s).1 (put_object p (a_server (f s).0) m)
    ∙ put_object-tables p (a_server (f s).0) m (ap some (keeps s) ∙ ap tag_of (sym e))

pub on_server-tables :
    (f : Server → Server × List Output × Bool) (p : ℕ) (m : StreamManager)
    → Keeps a_server f
    → tables (on_server f p m).0 ≡ tables m
unfolding on_server
on_server-tables f p m keeps = on_server_object-tables f p (lookup p m.objects) m keeps refl

-- What both branches of a test have, the test has.
pub if_cases :
    {A : Type 0} (P : A → Type 0) (b : Bool) (x y : A) → P x → P y → P (if b then x else y)
if_cases P true x y h h' = h
if_cases P false x y h h' = h'

pub option_cases :
    {A B : Type 0} (P : B → Type 0) (o : Option A) (n : B) (x : A → B)
    → (o ≡ none → P n)
    → ((a : A) → o ≡ some a → P (x a))
    → P (elim o [ none ↦ n | some a ↦ x a ])
option_cases P none n x h h' = h refl
option_cases P (some a) n x h h' = h' a refl

-- What is so of a state, unless it is not reached.
abbrev pub IfSome : {A : Type 0} → (A → Type 0) → Option A → Type 0
IfSome P none = Unit
IfSome P (some a) = P a

pub bind-IfSome :
    {A B : Type 0} (P : A → Type 0) (Q : B → Type 0) (x : Option A) (f : A → Option B)
    → IfSome P x
    → ((a : A) → P a → IfSome Q (f a))
    → IfSome Q (x >>= f)
bind-IfSome P Q none f h h' = tt
bind-IfSome P Q (some a) f h h' = h' a h

pub IfSome-map :
    {A : Type 0} (P Q : A → Type 0) (x : Option A) → IfSome P x → ((a : A) → P a → Q a) → IfSome Q x
IfSome-map P Q none h h' = tt
IfSome-map P Q (some a) h h' = h' a h
