-- ===== src/Packet/View.antt =====
-- What a packet holds, as a list of bytes, and what the operations do to that.
use tdmh.Base.{
  ℕ, zero, suc, ◌+◌, ◌-◌, ◌%◌, ◌≤◌, ◌<◌, ◌≡◌, refl, sym, ap, ◌∙◌, List, [], ◌∷◌, ◌++◌, length, take,
  drop, write, get_elem?, none, some, length-append, length-take, length-drop, length-write,
  take-write, drop-append, drop-drop, take-length, drop-length, take-drop-take, get_elem?-drop-take,
  arith,
}
use tdmh.Packet.{Packet, max_pkt_size, read, put, get, discard, size, available, byte_at, receive}

pub record IsPacket (p : Packet) : Type 0 where
  pub array : length p.packet ≡ max_pkt_size
  pub ordered : p.data_start ≤ p.data_size
  pub room : p.data_size + p.reserved_size ≤ max_pkt_size

abbrev pub content : Packet → List ℕ
content p = drop p.data_start (take p.data_size p.packet)

pub length-content : (p : Packet) → IsPacket p → length (content p) ≡ p.data_size - p.data_start
length-content p ok =
    omega (
      arith,
      length-drop p.data_start (take p.data_size p.packet),
      length-take p.data_size p.packet,
    )

pub size_lem : (p : Packet) → IsPacket p → size p ≡ p.data_size - p.data_start
unfolding size
size_lem p ok = omega arith

pub available_lem :
    (p : Packet) → IsPacket p → available p ≡ max_pkt_size - (p.data_size + p.reserved_size)
unfolding available
available_lem p ok = omega arith

-- `bytes` were added at the end.
pub record Wrote (bytes : List ℕ) (p p' : Packet) : Type 0 where
  pub valid : IsPacket p'
  pub added : content p' ≡ content p ++ bytes
  pub grown : p'.data_size ≡ p.data_size + length bytes
  pub start : p'.data_start ≡ p.data_start
  pub reserved : p'.reserved_size ≡ p.reserved_size

-- Bytes were taken from the front, and `rest` is left.
pub record Left (rest : List ℕ) (p p' : Packet) : Type 0 where
  pub valid : IsPacket p'
  pub left : content p' ≡ rest
  pub end : p'.data_size ≡ p.data_size
  pub reserved : p'.reserved_size ≡ p.reserved_size

pub put_lem :
    (bytes : List ℕ) (p : Packet)
    → IsPacket p
    → p.data_size + p.reserved_size + length bytes ≤ max_pkt_size
    → (p' : Packet) × (put bytes p ≡ some p') × Wrote bytes p p'
unfolding put
put_lem bytes p ok h =
    let full : length (write p.data_size bytes p.packet) ≡ length p.packet =
      length-write p.data_size bytes p.packet (omega (arith, ok.array)) in
    (
      record p {
        packet = write p.data_size bytes p.packet;
        data_size = p.data_size + length bytes;
      },
      ground (arith, available_lem p ok),
      record {
        valid = record {
          array = full ∙ ok.array;
          ordered = omega (arith, ok.ordered);
          room = omega (arith, h);
        };
        added =
            ap (drop p.data_start)
              (take-write p.data_size bytes p.packet (omega (arith, ok.array, ok.room)))
            ∙ drop-append p.data_start (take p.data_size p.packet) bytes
                (omega (arith, ok.array, ok.room, ok.ordered, length-take p.data_size p.packet));
        grown = refl;
        start = refl;
        reserved = refl;
      },
    )

pub put_full :
    (bytes : List ℕ) (p : Packet)
    → IsPacket p
    → max_pkt_size < p.data_size + p.reserved_size + length bytes
    → put bytes p ≡ none
unfolding put
put_full bytes p ok h = ground (arith, available_lem p ok)

-- Taking `length bytes` off the front.
taken :
    (bytes rest : List ℕ) (p : Packet)
    → IsPacket p
    → content p ≡ bytes ++ rest
    → let p' = record p { data_start = p.data_start + length bytes } in Left rest p p'
taken bytes rest p ok e =
    let long = ap length e ∙ length-append bytes rest in
    record {
      valid = record {
        array = ok.array;
        ordered = omega (arith, long, length-content p ok, ok.ordered);
        room = ok.room;
      };
      left =
          sym (drop-drop (length bytes) p.data_start (take p.data_size p.packet))
          ∙ ap (drop (length bytes)) e
          ∙ drop-length bytes rest;
      end = refl;
      reserved = refl;
    }

taken_fits :
    (bytes rest : List ℕ) (p : Packet)
    → IsPacket p
    → content p ≡ bytes ++ rest
    → p.data_start + length bytes ≤ p.data_size
taken_fits bytes rest p ok e =
    let long = ap length e ∙ length-append bytes rest in
    omega (arith, long, length-content p ok, ok.ordered)

pub get_lem :
    (bytes rest : List ℕ) (p : Packet)
    → IsPacket p
    → content p ≡ bytes ++ rest
    → (p' : Packet) × (get (length bytes) p ≡ some (bytes, p')) × Left rest p p'
unfolding get
get_lem bytes rest p ok e =
    let fits = taken_fits bytes rest p ok e in
    let same : read p.data_start (length bytes) p.packet ≡ bytes =
      sym (take-drop-take p.data_size p.data_start (length bytes) p.packet fits)
      ∙ ap (take (length bytes)) e
      ∙ take-length bytes rest in
    (
      record p { data_start = p.data_start + length bytes },
      ground (arith, size_lem p ok, same, ok.room),
      taken bytes rest p ok e,
    )

pub discard_lem :
    (bytes rest : List ℕ) (p : Packet)
    → IsPacket p
    → content p ≡ bytes ++ rest
    → (p' : Packet) × (discard (length bytes) p ≡ some p') × Left rest p p'
unfolding discard
discard_lem bytes rest p ok e =
    let fits = taken_fits bytes rest p ok e in
    (
      record p { data_start = p.data_start + length bytes },
      ground (arith, size_lem p ok, ok.room),
      taken bytes rest p ok e,
    )

pub get_short :
    (count : ℕ) (p : Packet) → IsPacket p → length (content p) < count → get count p ≡ none
unfolding get
get_short count p ok h = ground (arith, size_lem p ok, length-content p ok)

-- A byte that is looked at in place.
pub byte_at_lem :
    (p : Packet) (i : ℕ)
    → IsPacket p
    → i < length (content p)
    → byte_at p i ≡ get_elem? (content p) i
unfolding byte_at
byte_at_lem p i ok h =
    ground (arith, length-content p ok, get_elem?-drop-take p.data_size p.data_start i p.packet)

-- A packet with nothing in it but room for a tag of `reserved` bytes.
pub record IsNew (reserved : ℕ) (p : Packet) : Type 0 where
  pub array : length p.packet ≡ max_pkt_size
  pub empty : p.data_size ≡ 0
  pub start : p.data_start ≡ 0
  pub room : p.reserved_size ≡ reserved

pub IsNew-IsPacket :
    (reserved : ℕ) (p : Packet) → reserved ≤ max_pkt_size → IsNew reserved p → IsPacket p
IsNew-IsPacket reserved p h n = record {
  array = n.array;
  ordered = omega (arith, n.empty, n.start);
  room = omega (arith, n.empty, n.room);
}

pub content-IsNew : (reserved : ℕ) (p : Packet) → IsNew reserved p → content p ≡ []
content-IsNew reserved p n = rw (n.start, n.empty) refl

-- A received packet holds the bytes that were sent.
pub receive_lem :
    (bytes : List ℕ) (q : Packet)
    → IsPacket q
    → q.reserved_size ≡ 0
    → length bytes ≤ max_pkt_size
    → IsPacket (receive bytes q) × (content (receive bytes q) ≡ bytes)
unfolding receive
receive_lem bytes q ok clean h =
    let same : length bytes % 256 ≡ length bytes = omega arith in
    (
      record {
        array = length-write 0 bytes q.packet (omega (arith, ok.array)) ∙ ok.array;
        ordered = omega arith;
        room = omega arith;
      },
      rw same (take-length bytes (drop (length bytes) q.packet)),
    )

-- What a packet that was new has been filled with is all that is sent of it.
pub sent :
    (bytes : List ℕ) (reserved : ℕ) (p p' : Packet)
    → IsNew reserved p
    → Wrote bytes p p'
    → take p'.data_size p'.packet ≡ bytes
sent bytes reserved p p' n w =
    let from_start : 0 ≡ p'.data_start = sym (w.start ∙ n.start) in
    ap (λ k. drop k (take p'.data_size p'.packet)) from_start
    ∙ w.added
    ∙ ap (λ c. c ++ bytes) (content-IsNew reserved p n)

-- A new packet, with the bytes of its array made zero, for concrete runs.
abbrev pub zeros : ℕ → List ℕ
zeros zero = []
zeros (suc n) = 0 ∷ zeros n

abbrev pub new_packet : ℕ → Packet
new_packet reserved = record {
  packet = zeros max_pkt_size;
  data_size = 0;
  data_start = 0;
  reserved_size = reserved;
}
