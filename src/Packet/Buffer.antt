-- ===== src/Packet/Buffer.antt =====
-- A packet is a bounded buffer of bytes: it is filled at its end, taken from at its front, and
-- what is taken makes no room.
use tdmh.Base.{
  ℕ, ◌+◌, ◌-◌, ◌%◌, ◌≤◌, ◌<◌, ◌≡◌, refl, sym, ap, ◌∙◌, List, [], ◌∷◌, ◌++◌, length, take, drop,
  Option, none, some, inl, inr, ltb, if◌then◌else◌, Bool-cases, length-take, length-drop,
  take-append-drop, take-drop, take-take, arith, tests,
}
use tdmh.Packet.{Packet, max_pkt_size, put, get, discard, discard_from_end}
use tdmh.Packet.View.{
  IsPacket, content, Left, IsNew, IsNew-IsPacket, content-IsNew, length-content, size_lem, put_lem,
  put_full, get_lem, get_short, discard_lem,
}

pub data Op : Type 0 where
  fill : List ℕ → Op
  fetch skip trim : ℕ → Op

-- What a call returns: bytes, which are none but from `get`; or it throws.
abbrev Answer : Type 0
Answer = Option (List ℕ)

-- The buffer: how many bytes were taken, the bytes it holds, and the room kept for a tag.
pub record Buffer : Type 0 where
  pub taken : ℕ
  pub held : List ℕ
  pub reserved : ℕ

abbrev pub buffer_step : Op → Buffer → Answer × Buffer
buffer_step (fill bytes) b =
    if ltb max_pkt_size (b.taken + length b.held + b.reserved + length bytes)
    then (none, b)
    else (some [], record b { held = b.held ++ bytes })
buffer_step (fetch n) b =
    if ltb (length b.held) n
    then (none, b)
    else (some (take n b.held), record b { taken = b.taken + n; held = drop n b.held })
buffer_step (skip n) b =
    if ltb (length b.held) n
    then (none, b)
    else (some [], record b { taken = b.taken + n; held = drop n b.held })
buffer_step (trim n) b =
    if ltb (length b.held) n
    then (none, b)
    else (some [], record b { held = take (length b.held - n) b.held })

-- An operation that throws leaves the packet alone.
abbrev done : Packet → Option Packet → Answer × Packet
done p none = (none, p)
done p (some p') = (some [], p')

abbrev fetched : Packet → Option (List ℕ × Packet) → Answer × Packet
fetched p none = (none, p)
fetched p (some (bytes, p')) = (some bytes, p')

abbrev pub packet_step : Op → Packet → Answer × Packet
packet_step (fill bytes) p = done p (put bytes p)
packet_step (fetch n) p = fetched p (get n p)
packet_step (skip n) p = done p (discard n p)
packet_step (trim n) p = done p (discard_from_end n p)

abbrev pub answers {ℓ} : {S : Type ℓ} → (Op → S → Answer × S) → List Op → S → List Answer
answers step [] s = []
answers step (op ∷ ops) s = let (a, s') = step op s in a ∷ answers step ops s'

pub record Views (b : Buffer) (p : Packet) : Type 0 where
  pub valid : IsPacket p
  pub held : content p ≡ b.held
  pub taken : p.data_start ≡ b.taken
  pub reserved : p.reserved_size ≡ b.reserved

-- The same answer, and again a view.
abbrev Agrees : Op → Buffer → Packet → Type 0
Agrees op b p =
    ((packet_step op p).0 ≡ (buffer_step op b).0) × Views (buffer_step op b).1 (packet_step op p).1

long : (b : Buffer) (p : Packet) → Views b p → length b.held + p.data_start ≡ p.data_size
long b p v = omega (arith, ap length v.held, length-content p v.valid, v.valid.ordered)

fill-Agrees : (bytes : List ℕ) (b : Buffer) (p : Packet) → Views b p → Agrees (fill bytes) b p
fill-Agrees bytes b p v =
    elim (Bool-cases (ltb max_pkt_size (b.taken + length b.held + b.reserved + length bytes))) [
      | inl e ↦
          let full = put_full bytes p v.valid (omega (tests, e, long b p v, v.taken, v.reserved)) in
          rw (e, full) (refl, v)
      | inr e ↦
          let (p', r, w) =
            put_lem bytes p v.valid (ground (arith, e, long b p v, v.taken, v.reserved)) in
          rw (e, r)
            (
              refl,
              record {
                valid = w.valid;
                held = w.added ∙ ap (λ c. c ++ bytes) v.held;
                taken = w.start ∙ v.taken;
                reserved = w.reserved ∙ v.reserved;
              },
            )
    ]

-- What `get` and `discard` leave is a view of the buffer that has lost `n` bytes.
left_view :
    (n : ℕ) (b : Buffer) (p p' : Packet)
    → Views b p
    → n ≤ length b.held
    → Left (drop n b.held) p p'
    → Views (record b { taken = b.taken + n; held = drop n b.held }) p'
left_view n b p p' v h l = record {
  valid = l.valid;
  held = l.left;
  taken = omega (
    arith,
    long b p v,
    v.taken,
    l.end,
    l.valid.ordered,
    ap length l.left,
    length-drop n b.held,
    length-content p' l.valid,
  );
  reserved = l.reserved ∙ v.reserved;
}

split_held :
    (n : ℕ) (b : Buffer) (p : Packet) → Views b p → content p ≡ take n b.held ++ drop n b.held
split_held n b p v = v.held ∙ sym (take-append-drop n b.held)

fetch-Agrees : (n : ℕ) (b : Buffer) (p : Packet) → Views b p → Agrees (fetch n) b p
fetch-Agrees n b p v = elim (Bool-cases (ltb (length b.held) n)) [
  | inl e ↦
      let short = get_short n p v.valid (omega (tests, e, ap length v.held)) in
      rw (e, short) (refl, v)
  | inr e ↦
      let fits : n ≤ length b.held = ground arith in
      let count : length (take n b.held) ≡ n = omega (arith, length-take n b.held) in
      let (p', r, l) = get_lem (take n b.held) (drop n b.held) p v.valid (split_held n b p v) in
      let r' : get n p ≡ some (take n b.held, p') = rw count at r in
      rw (e, r') (refl, left_view n b p p' v fits l)
]

discard_short :
    (count : ℕ) (p : Packet) → IsPacket p → length (content p) < count → discard count p ≡ none
unfolding discard
discard_short count p ok h = ground (arith, size_lem p ok, length-content p ok)

skip-Agrees : (n : ℕ) (b : Buffer) (p : Packet) → Views b p → Agrees (skip n) b p
skip-Agrees n b p v = elim (Bool-cases (ltb (length b.held) n)) [
  | inl e ↦
      let short = discard_short n p v.valid (omega (tests, e, ap length v.held)) in
      rw (e, short) (refl, v)
  | inr e ↦
      let fits : n ≤ length b.held = ground arith in
      let count : length (take n b.held) ≡ n = omega (arith, length-take n b.held) in
      let (p', r, l) = discard_lem (take n b.held) (drop n b.held) p v.valid (split_held n b p v) in
      let r' : discard n p ≡ some p' = rw count at r in
      rw (e, r') (refl, left_view n b p p' v fits l)
]

trim_short :
    (count : ℕ) (p : Packet)
    → IsPacket p
    → length (content p) < count
    → discard_from_end count p ≡ none
unfolding discard_from_end
trim_short count p ok h = ground (arith, size_lem p ok, length-content p ok)

trim_lem :
    (n : ℕ) (p : Packet)
    → IsPacket p
    → n ≤ length (content p)
    → discard_from_end n p ≡ some (record p { data_size = p.data_size - n })
unfolding discard_from_end
trim_lem n p ok h =
    let short : (p.data_size + 256 - n % 256) % 256 ≡ p.data_size - n =
      omega (arith, length-content p ok, ok.room) in
    ground (arith, size_lem p ok, length-content p ok, short)

trimmed :
    (n : ℕ) (b : Buffer) (p : Packet)
    → Views b p
    → n ≤ length b.held
    → Views
        (record b { held = take (length b.held - n) b.held })
        (record p { data_size = p.data_size - n })
trimmed n b p v h =
    let size : p.data_start + (length b.held - n) ≡ p.data_size - n = omega (arith, long b p v) in
    record {
      valid = record {
        array = v.valid.array;
        ordered = omega (arith, long b p v);
        room = omega (arith, v.valid.room);
      };
      held =
          ap (drop p.data_start)
            (sym (take-take (p.data_size - n) p.data_size p.packet (omega arith)))
          ∙ ap (λ k. drop p.data_start (take k (take p.data_size p.packet))) (sym size)
          ∙ sym (take-drop (length b.held - n) p.data_start (take p.data_size p.packet))
          ∙ ap (take (length b.held - n)) v.held;
      taken = v.taken;
      reserved = v.reserved;
    }

trim-Agrees : (n : ℕ) (b : Buffer) (p : Packet) → Views b p → Agrees (trim n) b p
trim-Agrees n b p v = elim (Bool-cases (ltb (length b.held) n)) [
  | inl e ↦
      let short = trim_short n p v.valid (omega (tests, e, ap length v.held)) in
      rw (e, short) (refl, v)
  | inr e ↦
      let fits : n ≤ length b.held = ground arith in
      let run = trim_lem n p v.valid (omega (arith, ap length v.held)) in
      rw (e, run) (refl, trimmed n b p v fits)
]

step-Agrees : (op : Op) (b : Buffer) (p : Packet) → Views b p → Agrees op b p
step-Agrees (fill bytes) b p v = fill-Agrees bytes b p v
step-Agrees (fetch n) b p v = fetch-Agrees n b p v
step-Agrees (skip n) b p v = skip-Agrees n b p v
step-Agrees (trim n) b p v = trim-Agrees n b p v

same_answers :
    (ops : List Op) (b : Buffer) (p : Packet)
    → Views b p
    → answers packet_step ops p ≡ answers buffer_step ops b
same_answers [] b p v = refl
same_answers (op ∷ ops) b p v =
    let (same, v') = step-Agrees op b p v in
    ap (λ a. a ∷ answers packet_step ops (packet_step op p).1) same
    ∙ ap (λ rest. (buffer_step op b).0 ∷ rest)
        (same_answers ops (buffer_step op b).1 (packet_step op p).1 v')

-- Whatever calls are made on a new packet, each answers, or throws, as it does on a buffer of
-- bytes that is filled at its end, taken from at its front and cut at its end, and that takes
-- bytes in while those it holds, those that were taken and the room for the tag leave space.
pub answers-packet_step :
    (ops : List Op) (reserved : ℕ) (p : Packet)
    → reserved ≤ max_pkt_size
    → IsNew reserved p
    → answers packet_step ops p
      ≡ answers buffer_step ops (record { taken = 0; held = []; reserved = reserved })
answers-packet_step ops reserved p h n =
    same_answers ops (record { taken = 0; held = []; reserved = reserved }) p
      (record {
        valid = IsNew-IsPacket reserved p h n;
        held = content-IsNew reserved p n;
        taken = n.start;
        reserved = n.room;
      })
