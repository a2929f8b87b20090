-- ===== src/Manager/Invariant.antt =====
-- What the tables of a StreamManager have to do with each other, and how a table is changed.
use tdmh.Base.{
  ℕ, ◌+◌, ◌≤◌, ◌≡◌, sym, ◌∙◌, Map, lookup, insert, erase, IsOrderedFrom, nat_keyed, lookup-insert,
  lookup-erase, insert-IsOrderedFrom, erase-IsOrderedFrom, lookup_same, List, Option, none, some,
  true, false, ◌==◌, if◌then◌else◌, arith,
}
use tdmh.Stream.Params.{StreamId, get_key, id_keyed}
use tdmh.Manager.Tables.{Tag, stream_tag, server_tag, Tables}

-- An open file descriptor leads to an object that has it; a stream that is open is found by its id.
abbrev pub IsOpen : Map StreamId ℕ → ℕ → Option Tag → Type 0
IsOpen streams p none = true ≡ false
IsOpen streams p (some (stream_tag id fd)) = (fd ≡ p) × (lookup id streams ≡ some p)
IsOpen streams p (some (server_tag id fd)) = fd ≡ p

abbrev pub IsStreamOf : StreamId → ℕ → Option Tag → Type 0
IsStreamOf id p (some (stream_tag id' fd)) = (get_key id' ≡ get_key id) × (fd ≡ p)
IsStreamOf id p _ = true ≡ false

abbrev pub IsServerOf : ℕ → ℕ → Option Tag → Type 0
IsServerOf port p (some (server_tag id fd)) = (id.dst_port ≡ port) × (fd ≡ p)
IsServerOf port p _ = true ≡ false

pub record WellFormed (t : Tables) : Type 0 where
  pub ordered : IsOrderedFrom 0 t.streams
  pub unused : (p : ℕ) → t.fd_counter ≤ p → t.tags p ≡ none
  pub fds : (fd p : ℕ) → lookup fd t.fdt ≡ some p → (fd ≡ p) × IsOpen t.streams p (t.tags p)
  pub stream_entries :
      (id : StreamId) (p : ℕ)
      → lookup id t.streams ≡ some p
      → IsStreamOf id p (t.tags p) × (lookup p t.fdt ≡ some p)
  pub server_entries :
      (port p : ℕ)
      → lookup port t.servers ≡ some p
      → IsServerOf port p (t.tags p) × (lookup p t.fdt ≡ some p)

-- addStream, addServer, removeStream and removeServer, on the tables.
abbrev pub insert_stream : StreamId → Tables → Tables
insert_stream id t = record {
  fd_counter = t.fd_counter + 1;
  fdt = insert t.fd_counter t.fd_counter t.fdt;
  streams = insert id t.fd_counter t.streams;
  servers = t.servers;
  streams_to_remove = t.streams_to_remove;
  tags = λ q. if t.fd_counter == q then some (stream_tag id t.fd_counter) else t.tags q;
}

abbrev pub insert_server : StreamId → Tables → Tables
insert_server id t = record {
  fd_counter = t.fd_counter + 1;
  fdt = insert t.fd_counter t.fd_counter t.fdt;
  streams = t.streams;
  servers = insert id.dst_port t.fd_counter t.servers;
  streams_to_remove = t.streams_to_remove;
  tags = λ q. if t.fd_counter == q then some (server_tag id t.fd_counter) else t.tags q;
}

abbrev pub erase_stream : StreamId → ℕ → Tables → Tables
erase_stream id p t = record t { streams = erase id t.streams; fdt = erase p t.fdt }

abbrev pub erase_server : ℕ → ℕ → Tables → Tables
erase_server port p t = record t { servers = erase port t.servers; fdt = erase p t.fdt }

module _ (t : Tables) (w : WellFormed t) where
  IsOpen-insert :
      (id : StreamId) (q : ℕ) (g : Option Tag)
      → lookup id t.streams ≡ none
      → IsOpen t.streams q g
      → IsOpen (insert id t.fd_counter t.streams) q g
  IsOpen-insert id q none none_there o = o
  IsOpen-insert id q (some (server_tag id' fd)) none_there o = o
  IsOpen-insert id q (some (stream_tag id' fd)) none_there o =
      ground (arith, lookup-insert id id' t.fd_counter t.streams, lookup_same id id' t.streams)

  pub insert_stream-WellFormed :
      (id : StreamId) → lookup id t.streams ≡ none → WellFormed (insert_stream id t)
  insert_stream-WellFormed id none_there = record {
    ordered = insert-IsOrderedFrom 0 id t.fd_counter t.streams (omega arith) w.ordered;
    unused = λ p h. ground (arith, w.unused p);
    fds = λ fd p e. ground (
      arith,
      lookup-insert t.fd_counter fd t.fd_counter t.fdt,
      w.fds fd p,
      w.unused p,
      lookup-insert id id t.fd_counter t.streams,
      IsOpen-insert id p (t.tags p),
    );
    stream_entries = λ id' p e. ground (
      arith,
      lookup-insert id id' t.fd_counter t.streams,
      lookup-insert t.fd_counter p t.fd_counter t.fdt,
      w.stream_entries id' p,
      w.unused p,
    );
    server_entries = λ port p e. ground (
      arith,
      lookup-insert t.fd_counter p t.fd_counter t.fdt,
      w.server_entries port p,
      w.unused p,
    );
  }

  pub insert_server-WellFormed : (id : StreamId) → WellFormed (insert_server id t)
  insert_server-WellFormed id = record {
    ordered = w.ordered;
    unused = λ p h. ground (arith, w.unused p);
    fds = λ fd p e.
        ground (arith, lookup-insert t.fd_counter fd t.fd_counter t.fdt, w.fds fd p, w.unused p);
    stream_entries = λ id' p e. ground (
      arith,
      lookup-insert t.fd_counter p t.fd_counter t.fdt,
      w.stream_entries id' p,
      w.unused p,
    );
    server_entries = λ port p e. ground (
      arith,
      lookup-insert id.dst_port port t.fd_counter t.servers,
      lookup-insert t.fd_counter p t.fd_counter t.fdt,
      w.server_entries port p,
      w.unused p,
    );
  }

  IsOpen-erase :
      (id : StreamId) (p q : ℕ) (g : Option Tag)
      → lookup id t.streams ≡ some p
      → (p == q) ≡ false
      → IsOpen t.streams q g
      → IsOpen (erase id t.streams) q g
  IsOpen-erase id p q none there other o = o
  IsOpen-erase id p q (some (server_tag id' fd)) there other o = o
  IsOpen-erase id p q (some (stream_tag id' fd)) there other o =
      ground (arith, lookup-erase id id' t.streams, lookup_same id id' t.streams)

  pub one_stream :
      (id id' : StreamId) (p : ℕ)
      → lookup id t.streams ≡ some p
      → lookup id' t.streams ≡ some p
      → get_key id ≡ get_key id'
  one_stream id id' p there there' =
      same (t.tags p) (w.stream_entries id p there).0 (w.stream_entries id' p there').0
    where
      same : (g : Option Tag) → IsStreamOf id p g → IsStreamOf id' p g → get_key id ≡ get_key id'
      same none h h' = ground arith
      same (some (server_tag j fd)) h h' = ground arith
      same (some (stream_tag j fd)) h h' = sym h.0 ∙ h'.0

  one_server :
      (port port' p : ℕ)
      → lookup port t.servers ≡ some p
      → lookup port' t.servers ≡ some p
      → port ≡ port'
  one_server port port' p there there' =
      same (t.tags p) (w.server_entries port p there).0 (w.server_entries port' p there').0
    where
      same : (g : Option Tag) → IsServerOf port p g → IsServerOf port' p g → port ≡ port'
      same none h h' = ground arith
      same (some (stream_tag j fd)) h h' = ground arith
      same (some (server_tag j fd)) h h' = sym h.0 ∙ h'.0

  one_kind :
      (id : StreamId) (port p : ℕ)
      → lookup id t.streams ≡ some p
      → lookup port t.servers ≡ some p
      → true ≡ false
  one_kind id port p there there' =
      differ (t.tags p) (w.stream_entries id p there).0 (w.server_entries port p there').0
    where
      differ : (g : Option Tag) → IsStreamOf id p g → IsServerOf port p g → true ≡ false
      differ none h h' = h
      differ (some (stream_tag j fd)) h h' = h'
      differ (some (server_tag j fd)) h h' = h

  pub erase_stream-WellFormed :
      (id : StreamId) (p : ℕ) → lookup id t.streams ≡ some p → WellFormed (erase_stream id p t)
  erase_stream-WellFormed id p there = record {
    ordered = erase-IsOrderedFrom 0 id t.streams w.ordered;
    unused = w.unused;
    fds = λ fd q e.
        ground (arith, lookup-erase p fd t.fdt, w.fds fd q, IsOpen-erase id p q (t.tags q));
    stream_entries = λ id' q e. ground (
      arith,
      lookup-erase id id' t.streams,
      lookup-erase p q t.fdt,
      w.stream_entries id' q,
      one_stream id id' p,
    );
    server_entries = λ port q e.
        ground (arith, lookup-erase p q t.fdt, w.server_entries port q, one_kind id port p);
  }

  pub erase_server-WellFormed :
      (port p : ℕ) → lookup port t.servers ≡ some p → WellFormed (erase_server port p t)
  erase_server-WellFormed port p there = record {
    ordered = w.ordered;
    unused = w.unused;
    fds = λ fd q e. ground (arith, lookup-erase p fd t.fdt, w.fds fd q);
    stream_entries =
        λ id q e. ground (arith, lookup-erase p q t.fdt, w.stream_entries id q, one_kind id port p);
    server_entries = λ port' q e. ground (
      arith,
      lookup-erase port port' t.servers,
      lookup-erase p q t.fdt,
      w.server_entries port' q,
      one_server port port' p,
    );
  }

  pub set_to_remove-WellFormed :
      (ids : List StreamId) → WellFormed (record t { streams_to_remove = ids })
  set_to_remove-WellFormed ids = record {
    ordered = w.ordered;
    unused = w.unused;
    fds = w.fds;
    stream_entries = w.stream_entries;
    server_entries = w.server_entries;
  }
