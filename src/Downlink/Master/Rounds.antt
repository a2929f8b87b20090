-- ===== src/Downlink/Master/Rounds.antt =====
-- The rounds in which the master sends the packets of a schedule.
use tdmh.Base.{
  ℕ, zero, suc, ◌+◌, ◌-◌, ◌*◌, ◌%◌, ◌^◌, ◌<◌, ◌≡◌, refl, sym, ap, ◌∙◌, inl, inr, min, List, [], ◌∷◌,
  ◌++◌, length, take, drop, map, get_elem?, Option, none, some, true, false, ltb, leb, Option-cases,
  Bool-cases, length-take, length-drop, arith,
}
use tdmh.Scheduler.Element.{ScheduleElement}
use tdmh.Wire.Schedule.{
  schedule, SchedulePacket, increment_packet_counter, increment_repetition, get_packet_capacity,
}
use tdmh.Downlink.{sending_schedule, Event, radio_send, streams_apply_infos}
use tdmh.Downlink.Node.Hears.{Plan, header_at, packet_at, packet_after, rep_after, next_round_lem}
use tdmh.Downlink.Master.{
  Config, Master, Slot, packet_capacity, fill, send_schedule_pkt, next_packet, next_round, execute,
}

pub drop_get :
    {A : Type 0} (xs : List A) (position : ℕ) (x : A)
    → get_elem? xs position ≡ some x
    → drop position xs ≡ x ∷ drop (suc position) xs
drop_get [] position x e = absurd (grind (arith, e))
drop_get (y ∷ ys) zero x e = ap (λ o. elim o [ none ↦ y ∷ ys | some z ↦ z ∷ ys ]) e
drop_get (y ∷ ys) (suc position) x e = drop_get ys position x e

pub drop_past :
    {A : Type 0} (xs : List A) (position : ℕ) → get_elem? xs position ≡ none → drop position xs ≡ []
drop_past [] zero e = refl
drop_past [] (suc position) e = refl
drop_past (y ∷ ys) zero e = absurd (grind (arith, e))
drop_past (y ∷ ys) (suc position) e = drop_past ys position e

fill_lem :
    (room position : ℕ) (es : List ScheduleElement)
    → fill room position es
      ≡ (take room (drop position es), position + length (take room (drop position es)))
unfolding fill
fill_lem zero position es = let e : position ≡ position + 0 = omega arith in ap (λ p. ([], p)) e
fill_lem (suc room) position es = elim (Option-cases (get_elem? es position)) [
  | inl e ↦
      let same : position ≡ position + 0 = omega arith in
      rw (e, fill) (rw (drop_past es position e) (ap (λ p. ([], p)) same))
  | inr (x, e) ↦
      let rest = take room (drop (suc position) es) in
      let same : suc position + length rest ≡ position + suc (length rest) = omega arith in
      rw (e, fill)
        (rw (drop_get es position x e)
          (rw (fill_lem room (suc position) es) (ap (λ p. (x ∷ rest, p)) same)))
]

-- The packets in which the master sends a schedule.
abbrev pub piece_of : List ScheduleElement → ℕ → List ScheduleElement
piece_of es i = take 8 (drop (8 * i) es)

capacity : packet_capacity ≡ 8
unfolding packet_capacity get_packet_capacity
capacity = refl

-- The master, before it sends packet `i` of repetition `rep`.
pub record Sending (plan : Plan) (es : List ScheduleElement) (rep i : ℕ) (m : Master) : Type 0 where
  pub pieces : plan.piece ≡ piece_of es
  pub sending : m.status ≡ sending_schedule
  pub header : m.header ≡ header_at plan rep i
  pub content : m.schedule ≡ es
  pub position : m.position ≡ min (8 * i) (length es)
  pub round : m.current_sending_round ≡ rep * plan.count + i
  pub rounds : m.sending_rounds ≡ plan.count * 4

-- What is sent in a slot, by its events.
pub on_air : List Event → Option SchedulePacket
on_air [] = none
on_air (e ∷ es) = elim e [ radio_send packet ↦ some packet | other ↦ on_air es ]

drop_nil : {A : Type 0} (n : ℕ) → ◌≡◌ {A = List A} (drop n []) []
drop_nil zero = refl
drop_nil (suc n) = refl

drop-min : {A : Type 0} (n : ℕ) (xs : List A) → drop (min n (length xs)) xs ≡ drop n xs
drop-min n [] = drop_nil (min n 0) ∙ sym (drop_nil n)
drop-min zero (x ∷ xs) =
    let e : min 0 (suc (length xs)) ≡ 0 = omega arith in ap (λ k. drop k (x ∷ xs)) e
drop-min (suc n) (x ∷ xs) =
    let e : min (suc n) (suc (length xs)) ≡ suc (min n (length xs)) = omega arith in
    ap (λ k. drop k (x ∷ xs)) e ∙ drop-min n xs

-- The master before the packet, with the fields that are known.
abbrev master_at : Plan → List ScheduleElement → ℕ → ℕ → Master → Master
master_at plan es rep i m = record m {
  status = sending_schedule;
  header = header_at plan rep i;
  schedule = es;
  position = min (8 * i) (length es);
  current_sending_round = rep * plan.count + i;
  sending_rounds = plan.count * 4;
  log = [];
}

master_at_lem :
    (plan : Plan) (es : List ScheduleElement) (rep i : ℕ) (m : Master)
    → Sending plan es rep i m
    → record m { log = [] } ≡ master_at plan es rep i m
master_at_lem plan es rep i m k = λ j. record m {
  status = k.sending j;
  header = k.header j;
  schedule = k.content j;
  position = k.position j;
  current_sending_round = k.round j;
  sending_rounds = k.rounds j;
  log = [];
}

next_position :
    (es : List ScheduleElement) (i : ℕ)
    → min (8 * i) (length es) + length (piece_of es i) ≡ min (8 * suc i) (length es)
next_position es i = omega (arith, length-take 8 (drop (8 * i) es), length-drop (8 * i) es)

-- The packet, and the master once it is sent.
abbrev sent_packet : Plan → List ScheduleElement → ℕ → ℕ → Slot → SchedulePacket
sent_packet plan es rep i s = record {
  header = header_at plan rep i;
  elements = map schedule (piece_of es i) ++ take (8 - length (piece_of es i)) s.infos;
}

abbrev sent_by : Plan → List ScheduleElement → ℕ → ℕ → Slot → Master → Master
sent_by plan es rep i s m = record (master_at plan es rep i m) {
  position = min (8 * suc i) (length es);
  log =
      radio_send (sent_packet plan es rep i s)
      ∷ streams_apply_infos (take (8 - length (piece_of es i)) s.infos)
      ∷ [];
}

send_run :
    (c : Config) (plan : Plan) (es : List ScheduleElement) (rep i : ℕ) (s : Slot) (m : Master)
    → rep * plan.count + i < plan.count * 4
    → execute c s (master_at plan es rep i m)
      ≡ some (next_round (next_packet (sent_by plan es rep i s m)))
unfolding execute send_schedule_pkt increment_packet_counter increment_repetition packet_capacity
    get_packet_capacity
send_run c plan es rep i s m h =
    let more : leb (plan.count * 4) (rep * plan.count + i) ≡ false = ground arith in
    let position = min (8 * i) (length es) in
    let filled : fill 8 position es ≡ (piece_of es i, min (8 * suc i) (length es)) =
      fill_lem 8 position es
      ∙ ap (λ l. (take 8 l, position + length (take 8 l))) (drop-min (8 * i) es)
      ∙ ap (λ p. (piece_of es i, p)) (next_position es i) in
    rw (more, filled) refl

sent_by-Sending :
    (plan : Plan) (es : List ScheduleElement) (rep i : ℕ) (s : Slot) (m : Master)
    → Sending plan es rep i m
    → i < plan.count
    → plan.count < 2 ^ 16
    → rep < 4
    → Sending plan es
        (rep_after plan.count i rep)
        (packet_after plan.count i)
        (next_round (next_packet (sent_by plan es rep i s m)))
unfolding increment_packet_counter increment_repetition
sent_by-Sending plan es rep i s m k hi hc hr =
    let next : (i + 1) % 2 ^ 16 ≡ suc i = omega arith in
    let again : (rep + 1) % 256 ≡ suc rep = omega arith in
    let round : rep * plan.count + i + 1
        ≡ rep_after plan.count i rep * plan.count + packet_after plan.count i =
      next_round_lem plan.count rep i hi in
    elim (Bool-cases (ltb (suc i) plan.count)) [
      | inl e ↦
          let full : leb plan.count ((i + 1) % 2 ^ 16) ≡ false = ground (arith, next) in
          record {
            pieces = k.pieces;
            sending = rw full refl;
            header = rw (e, full) (ap (λ n. header_at plan rep n) next);
            content = rw full refl;
            position = rw (e, full) refl;
            round = rw full round;
            rounds = rw full refl;
          }
      | inr e ↦
          let full : leb plan.count ((i + 1) % 2 ^ 16) ≡ true = ground (arith, next) in
          let start : 0 ≡ min (8 * 0) (length es) = omega arith in
          record {
            pieces = k.pieces;
            sending = rw full refl;
            header = rw (e, full) (ap (λ n. header_at plan n 0) again);
            content = rw full refl;
            position = rw (e, full) start;
            round = rw full round;
            rounds = rw full refl;
          }
    ]

log-next_packet : (m : Master) → (next_packet m).log ≡ m.log
unfolding increment_packet_counter increment_repetition
log-next_packet m =
    elim (Bool-cases (leb m.header.total_packet ((m.header.current_packet + 1) % 2 ^ 16))) [
      | inl e ↦ rw e refl
      | inr e ↦ rw e refl
    ]

pub sends :
    (c : Config) (plan : Plan) (es : List ScheduleElement) (rep i : ℕ) (s : Slot) (m : Master)
    → Sending plan es rep i m
    → i < plan.count
    → plan.count < 2 ^ 16
    → rep < 4
    → rep * plan.count + i < plan.count * 4
    → (m' : Master) × (execute c s (record m { log = [] }) ≡ some m')
      × (on_air m'.log ≡ some (packet_at plan rep i (take (8 - length (piece_of es i)) s.infos)))
      × Sending plan es (rep_after plan.count i rep) (packet_after plan.count i) m'
unfolding on_air
sends c plan es rep i s m k hi hc hr h = (
  next_round (next_packet (sent_by plan es rep i s m)),
  ap (execute c s) (master_at_lem plan es rep i m k) ∙ send_run c plan es rep i s m h,
  ap on_air (log-next_packet (sent_by plan es rep i s m))
      ∙ ap
          (λ piece. some (record {
            header = header_at plan rep i;
            elements = map schedule (piece i) ++ take (8 - length (piece_of es i)) s.infos;
          }))
          (sym k.pieces),
  sent_by-Sending plan es rep i s m k hi hc hr,
)
