-- ===== src/Downlink/Node/Hears.antt =====
-- What a node does with each round of the distribution of a schedule, whether it hears it or not.
pub mod Takes
pub mod Begins
pub mod Late
use tdmh.Base.{
  ℕ, zero, suc, ◌+◌, ◌-◌, ◌*◌, ◌%◌, ◌≤◌, ◌<◌, ◌≡◌, ◌≢◌, refl, sym, ap, ◌∙◌, subst, ◌⊎◌, inl, inr,
  List, [], ◌∷◌, ◌++◌, length, take, drop, map, get_elem?, Option, none, some, Bool, true, false,
  not, ◌&&◌, ◌==◌, ltb, if◌then◌else◌, Bool-cases, ==_iff, arith, tests,
}
use mathlib.Core.List.{Perm, append-nil}
use mathlib.Core.List.Perm
use tdmh.Scheduler.Element.{ScheduleElement}
use tdmh.Wire.Schedule.{ScheduleHeader, DownlinkElement, schedule, SchedulePacket}
use tdmh.Downlink.{Status, applied_schedule, sending_schedule, Event}
use tdmh.Downlink.Node.{Config, Node, Slot, returned, apply_info_elements}
use tdmh.Downlink.Node.Infos.{AreInfos, apply_info_elements_lem}
use tdmh.Downlink.Node.Collect.{
  init_schedule, append_to_schedule, with_infos, begin_rounds, append_piece, same_schedule,
  no_receptions, bump, all_received,
}
use tdmh.Downlink.Node.Pieces.{
  collected, added, Bumped, bump_lem, length-no_receptions, collected-no_receptions,
  get_elem?-no_receptions,
}
use tdmh.Downlink.Node.Run.{
  execute, handle_by, missed_by, listen, settle, receive_by, handle_activation_and_rekeying,
}

-- The schedule that the master sends: `count` packets, the number of each with its elements, and a
-- header in which the number of the packet and the repetition change.
pub record Plan : Type 0 where
  pub base : ScheduleHeader
  pub count : ℕ
  pub piece : ℕ → List ScheduleElement

abbrev pub header_at : Plan → ℕ → ℕ → ScheduleHeader
header_at plan rep i = record plan.base {
  total_packet = plan.count;
  current_packet = i;
  repetition = rep;
}

abbrev pub packet_at : Plan → ℕ → ℕ → List DownlinkElement → SchedulePacket
packet_at plan rep i infos = record {
  header = header_at plan rep i;
  elements = map schedule (plan.piece i) ++ infos;
}

abbrev pub pieces : Plan → ℕ → List DownlinkElement
pieces plan i = map schedule (plan.piece i)

-- A node that has heard of the schedule, before packet `i` of repetition `rep` is sent.
pub record Collecting (plan : Plan) (rep i : ℕ) (n : Node) : Type 0 where
  pub sending : n.status ≡ sending_schedule
  pub last_rep : ℕ
  pub last_packet : ℕ
  pub header : n.header ≡ header_at plan last_rep last_packet
  pub id : n.current_schedule_id ≡ plan.base.schedule_id
  pub slots : length n.received ≡ plan.count
  pub few : (j c : ℕ) → get_elem? n.received j ≡ some c → c ≤ rep + (if ltb j i then 1 else 0)
  pub content : Perm n.schedule (collected (pieces plan) 0 n.received)
  pub round : n.current_sending_round ≡ rep * plan.count + i
  pub rounds : n.sending_rounds ≡ plan.count * 4

-- After each packet comes the next, and after the last one the first, with another repetition.
abbrev pub packet_after : ℕ → ℕ → ℕ
packet_after count i = if ltb (suc i) count then suc i else 0

abbrev pub rep_after : ℕ → ℕ → ℕ → ℕ
rep_after count i rep = if ltb (suc i) count then rep else suc rep

pub few_more :
    (count rep i j : ℕ)
    → rep + (if ltb j i then 1 else 0)
      ≤ rep_after count i rep + (if ltb j (packet_after count i) then 1 else 0)
few_more count rep i j = ground arith

pub few_now :
    (count rep i : ℕ)
    → rep + 1 ≤ rep_after count i rep + (if ltb i (packet_after count i) then 1 else 0)
few_now count rep i = ground arith

pub next_round_lem :
    (count rep i : ℕ)
    → i < count
    → rep * count + i + 1 ≡ rep_after count i rep * count + packet_after count i
next_round_lem count rep i h = elim (Bool-cases (ltb (suc i) count)) [
  | inl e ↦ rw e (let p : rep * count + i + 1 ≡ rep * count + suc i = omega arith in p)
  | inr e ↦
      let last : suc i ≡ count = ground (arith, h) in
      rw e (let p : rep * count + i + 1 ≡ suc rep * count + 0 = omega (arith, last) in p)
]

-- The node has received packet `j`.
abbrev pub Got : ℕ → Node → Type 0
Got j n = (c : ℕ) × (get_elem? n.received j ≡ some (suc c))

abbrev pub Keeps : Node → Node → Type 0
Keeps n n' = (j : ℕ) → Got j n → Got j n'

-- The node is ready to listen in each of the rounds.
pub listens :
    (plan : Plan) (rep i : ℕ) (s : Slot) (n : Node)
    → Collecting plan rep i n
    → rep * plan.count + i < plan.count * 4
    → handle_activation_and_rekeying s n ≡ (false, n)
unfolding handle_activation_and_rekeying
listens plan rep i s n k h =
    let more : ltb n.current_sending_round n.sending_rounds ≡ true =
      ground (arith, k.round, k.rounds) in
    rw (k.sending, more) refl

pub missed :
    (c : Config) (plan : Plan) (rep i : ℕ) (s : Slot) (n : Node)
    → Collecting plan rep i n
    → i < plan.count
    → rep * plan.count + i < plan.count * 4
    → s.packet ≡ none
    → (n' : Node) × (execute c s n ≡ some n')
      × Collecting plan (rep_after plan.count i rep) (packet_after plan.count i) n'
      × Keeps n n'
unfolding execute
missed c plan rep i s n k hi h e =
    let n' = record n { current_sending_round = n.current_sending_round + 1 } in
    (
      n',
      rw (listens plan rep i s n k h) (rw (e, k.sending) refl),
      record {
        sending = k.sending;
        last_rep = k.last_rep;
        last_packet = k.last_packet;
        header = k.header;
        id = k.id;
        slots = k.slots;
        few = λ j d found. omega (arith, k.few j d found, few_more plan.count rep i j);
        content = k.content;
        round = omega (arith, k.round, next_round_lem plan.count rep i hi);
        rounds = k.rounds;
      },
      λ j got. got,
    )

pub value_of : {m k : ℕ} → some m ≡ some k → m ≡ k
value_of e = ap (λ o. elim o [ none ↦ 0 | some x ↦ x ]) e

pub other_number : (j i : ℕ) → (j == i) ≡ false → j ≢ i
other_number j i e h = ground arith

-- A node that knows of no schedule to come waits for one.
pub idle :
    (c : Config) (s : Slot) (n : Node)
    → n.status ≡ applied_schedule
    → s.packet ≡ none
    → execute c s n ≡ some n
unfolding execute handle_activation_and_rekeying
idle c s n h e =
    ap (λ status. run_with status) h
    ∙ ap (λ p. listen c p n) e
    ∙ ap (λ status. some (missed_by status c n)) h
  where
    run_with : Status → Option Node
    run_with status =
        let (busy, n') = handle_by status s n in if busy then some n' else listen c s.packet n'
