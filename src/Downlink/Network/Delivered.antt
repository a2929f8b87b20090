-- ===== src/Downlink/Network/Delivered.antt =====
-- A node that hears enough of the rounds has the schedule.
use tdmh.Base.{
  ℕ, suc, ◌+◌, ◌*◌, ◌^◌, ◌<◌, ◌≡◌, sym, ap, ◌∙◌, subst, inl, inr, List, [], ◌∷◌, ◌++◌, length, map,
  get_elem?, Option, none, some, true, false, All, ◌==◌, All-right, length-append, arith,
}
use mathlib.Core.List.{Perm}
use tdmh.Scheduler.Element.{ScheduleElement}
use tdmh.Wire.Schedule.{ScheduleHeader, schedule}
use tdmh.Downlink.{
  Status, applied_schedule, sending_schedule, processing, Event, set_new_schedule,
  keys_start_rekeying, streams_enqueue_resend,
}
use tdmh.Downlink.Node.{Node}
use tdmh.Downlink.Node.Collect.{is_schedule_complete, all_received}
use tdmh.Downlink.Node.Hears.{Plan, Collecting, packet_after, rep_after, Got, Keeps, next_round_lem}
use tdmh.Downlink.Master.{Master, num_packets, packet_capacity}
use tdmh.Downlink.Master.Rounds.{Sending}
use tdmh.Downlink.Network.{Round, net_step, net_run, plan_of}
use tdmh.Downlink.Network.Listens.{packet_later, InfosOnly, run_step, listen_run}
use tdmh.Downlink.Network.Waits.{later-lt, later_lem, later-add, wait_run, begin_step}
use tdmh.Downlink.Network.Whole.{heard_flags, heard_where, all_received_lem, whole}

-- What a node has of a schedule when all of its rounds are over.
pub record Outcome (base : ScheduleHeader) (es : List ScheduleElement) (rounds : List Round)
    (n : Node) : Type 0 where
  pub sending : n.status ≡ sending_schedule
  pub over : n.current_sending_round ≡ n.sending_rounds
  pub id : n.current_schedule_id ≡ base.schedule_id
  pub right : is_schedule_complete n ≡ true → Perm n.schedule (map schedule es)
  pub complete :
      ((j : ℕ)
        → j < num_packets es
        → (rep : ℕ) × (get_elem? (heard_flags rounds) (rep * num_packets es + j) ≡ some true))
      → is_schedule_complete n ≡ true

-- A node in which both the length and the contents of what was received are known.
outcome_right :
    (base : ScheduleHeader) (es : List ScheduleElement) (rep i : ℕ) (n : Node)
    → Collecting (plan_of base es) rep i n
    → is_schedule_complete n ≡ true
    → Perm n.schedule (map schedule es)
unfolding is_schedule_complete
outcome_right base es rep i n k complete =
    let all : all_received n.received ≡ true = ground arith in
    subst (Perm n.schedule) (whole base es n.received all k.slots) k.content

outcome_complete :
    (base : ScheduleHeader) (es : List ScheduleElement) (rep i : ℕ) (n : Node)
    → Collecting (plan_of base es) rep i n
    → ((j : ℕ) → j < num_packets es → Got j n)
    → is_schedule_complete n ≡ true
unfolding is_schedule_complete
outcome_complete base es rep i n k got =
    let some_slots : (length n.received == 0) ≡ false = ground (arith, k.slots) in
    let all : all_received n.received ≡ true =
      all_received_lem n.received (λ j h. got j (omega (arith, h, k.slots))) in
    rw some_slots all

-- Each round that is heard has its packet received.
got_heard :
    (plan : Plan) (before : List Round) (first : Round) (rest : List Round) (n n' : Node)
    (j rep : ℕ)
    → j < plan.count
    → length before < plan.count
    → All (λ r. r.heard ≡ false) before
    → Got (length before) n
    → Keeps n n'
    → ((d : ℕ)
        → get_elem? (heard_flags rest) d ≡ some true
        → Got (packet_later plan.count (packet_after plan.count (length before)) d) n')
    → get_elem? (heard_flags (before ++ first ∷ rest)) (rep * plan.count + j) ≡ some true
    → Got j n'
got_heard plan before first rest n n' j rep hj hb deaf got keeps later e =
    let k = length before in
    let count = plan.count in
    let target = later_lem count rep j hj in
    let zero_add : 0 + k ≡ k = omega arith in
    let start : packet_later count 0 k ≡ k = later-lt count 0 k (omega (arith, hb)) ∙ zero_add in
    elim (heard_where before first rest (rep * count + j) deaf e) [
      | inl at_first ↦
          let same : k ≡ j = sym start ∙ ap (packet_later count 0) (sym at_first) ∙ target in
          keeps j (subst (λ i. Got i n) same got)
      | inr (d, after, found) ↦
          let same : packet_later count (packet_after count k) d ≡ j =
            ap (λ i. packet_later count i (suc d)) (sym start)
            ∙ later-add count 0 k (suc d)
            ∙ ap (packet_later count 0) (sym after)
            ∙ target in
          subst (λ i. Got i n') same (later d found)
    ]

append_run :
    (mc : tdmh.Downlink.Master.Config) (nc : tdmh.Downlink.Node.Config) (xs ys : List Round)
    (s s' : Master × Node)
    → net_run mc nc xs s ≡ some s'
    → net_run mc nc (xs ++ ys) s ≡ net_run mc nc ys s'
unfolding net_run
append_run mc nc [] ys s s' e = ap (λ o. elim o [ none ↦ none | some t ↦ net_run mc nc ys t ]) e
append_run mc nc (x ∷ xs) ys s s' e =
    after_step (net_step mc nc x s) (λ t. append_run mc nc xs ys t s') e
  where
    after_step :
        (o : Option (Master × Node))
        → ((t : Master × Node)
            → net_run mc nc xs t ≡ some s'
            → net_run mc nc (xs ++ ys) t ≡ net_run mc nc ys s')
        → (elim o [ none ↦ none | some t ↦ net_run mc nc xs t ]) ≡ some s'
        → (elim o [ none ↦ none | some t ↦ net_run mc nc (xs ++ ys) t ]) ≡ net_run mc nc ys s'
    after_step none ih e = absurd (grind (arith, e))
    after_step (some t) ih e = ih t e

-- A schedule of fewer than 2 ^ 16 packets is sent, each packet four times. A node with no
-- schedule to come hears at least one packet of the first repetition, `first`, and whichever later
-- ones: nothing throws or aborts; after the rounds it has listened to all of them; if it finds
-- that the schedule is complete, it has its elements, each once; and it finds so if of each packet
-- it has heard one of the four copies.
pub net_run-delivers :
    (mc : tdmh.Downlink.Master.Config) (nc : tdmh.Downlink.Node.Config) (base : ScheduleHeader)
    (es : List ScheduleElement) (m : Master) (n : Node) (before : List Round) (first : Round)
    (rest : List Round)
    → num_packets es < 2 ^ 16
    → Sending (plan_of base es) es 0 0 m
    → n.status ≡ applied_schedule
    → All (λ r. r.heard ≡ false) before
    → length before < num_packets es
    → first.heard ≡ true
    → All InfosOnly (before ++ first ∷ rest)
    → length (before ++ first ∷ rest) ≡ num_packets es * 4
    → (m' : Master) × (n' : Node) × (net_run mc nc (before ++ first ∷ rest) (m, n) ≡ some (m', n'))
      × Outcome base es (before ++ first ∷ rest) n'
net_run-delivers mc nc base es m n before first rest few sending idles deaf early was_heard infos
      total =
    let plan = plan_of base es in
    let k = length before in
    let infos' = All-right InfosOnly before (first ∷ rest) infos in
    let zero_add : 0 + k ≡ k = omega arith in
    let (m₁, e₁, sending₁) =
      wait_run mc nc plan es few 0 before m n (omega (arith, early)) sending idles deaf in
    let (m₂, n₂, e₂, both, got) =
      begin_step mc nc plan es few k first m₁ n early (rw zero_add at sending₁) idles was_heard
        infos'.0 in
    let next = next_round_lem plan.count 0 k early in
    let (m', n', e₃, (rep, i, end, both'), keeps, later) =
      listen_run mc nc plan es few (rep_after plan.count k 0) (packet_after plan.count k) rest m₂ n₂
        both (omega (arith, next, total, length-append before (first ∷ rest))) infos'.1 in
    (
      m',
      n',
      append_run mc nc before (first ∷ rest) (m, n) (m₁, n) e₁
          ∙ run_step mc nc plan es few first rest (m₁, n) (m₂, n₂) (some (m', n')) e₂ e₃,
      record {
        sending = both'.1.sending;
        over = both'.1.round ∙ end ∙ sym both'.1.rounds;
        id = both'.1.id;
        right = λ complete. outcome_right base es rep i n' both'.1 complete;
        complete = λ all. outcome_complete base es rep i n' both'.1 (λ j hj.
            let (r, found) = all j hj in
            got_heard plan before first rest n₂ n' j r hj early deaf got keeps later found);
      },
    )
