-- ===== src/Downlink/Node/Hears/Begins.antt =====
-- A node that hears of a schedule for the first time.
use tdmh.Base.{
  ℕ, zero, suc, ◌+◌, ◌*◌, ◌%◌, ◌≤◌, ◌<◌, ◌≡◌, refl, sym, ap, ◌∙◌, subst, inl, inr, List, ◌++◌,
  get_elem?, Option, some, true, ◌==◌, ltb, if◌then◌else◌, Bool-cases, ==_iff, arith,
}
use mathlib.Core.List.{Perm}
use tdmh.Wire.Schedule.{DownlinkElement}
use tdmh.Downlink.{Status, applied_schedule, sending_schedule, Event}
use tdmh.Downlink.Node.{Config, Node, Slot, apply_info_elements}
use tdmh.Downlink.Node.Infos.{AreInfos, apply_info_elements_lem}
use tdmh.Downlink.Node.Collect.{init_schedule, with_infos, begin_rounds, no_receptions}
use tdmh.Downlink.Node.Pieces.{
  collected, added, Bumped, bump_lem, length-no_receptions, collected-no_receptions,
}
use tdmh.Downlink.Node.Run.{
  execute, handle_by, listen, settle, receive_by, handle_activation_and_rekeying,
}
use tdmh.Downlink.Node.Hears.{
  Plan, header_at, packet_at, pieces, Collecting, packet_after, rep_after, Got, few_now,
  next_round_lem, value_of, other_number,
}

counts_nothing : (n j c : ℕ) → get_elem? (no_receptions n) j ≡ some c → c ≡ 0
unfolding no_receptions
counts_nothing zero j c e = absurd (grind (arith, e))
counts_nothing (suc n) zero c e = sym (value_of e)
counts_nothing (suc n) (suc j) c e = counts_nothing n j c e

-- A node that hears the schedule for the first time.
abbrev pub begun : (plan : Plan) (rep i : ℕ) (events : List Event) (after : List ℕ) → Node → Node
begun plan rep i events after n = record n {
  status = sending_schedule;
  header = header_at plan rep i;
  current_schedule_id = plan.base.schedule_id;
  schedule = pieces plan i;
  received = after;
  sending_rounds = plan.count * 4;
  current_sending_round = 1 + rep * 4 + i;
  log = n.log ++ events;
}

pub begun_run :
    (c : Config) (plan : Plan) (rep i d : ℕ) (infos : List DownlinkElement) (events : List Event)
    (after : List ℕ) (s : Slot) (n : Node)
    → n.status ≡ applied_schedule
    → 0 < plan.count
    → s.packet ≡ some (packet_at plan rep i infos)
    → apply_info_elements c (pieces plan i ++ infos) ≡ some (pieces plan i, events)
    → Bumped (pieces plan) i d (no_receptions plan.count) after
    → execute c s n ≡ some (begun plan rep i events after n)
unfolding execute handle_activation_and_rekeying init_schedule
begun_run c plan rep i d infos events after s n h pos e a b =
    let packet = packet_at plan rep i infos in
    let some_packets : ltb 0 plan.count ≡ true = ground (arith, pos) in
    ap (λ status. run_with status) h
    ∙ ap (λ p. listen c p n) e
    ∙ ap (λ status. settle c (receive_by status c packet n)) h
    ∙ rw some_packets (rw (a, with_infos) (rw (b.run, begin_rounds) refl))
  where
    run_with : Status → Option Node
    run_with status =
        let (busy, n') = handle_by status s n in if busy then some n' else listen c s.packet n'

begun-Collecting :
    (plan : Plan) (i d : ℕ) (events : List Event) (after : List ℕ) (n : Node)
    → i < plan.count
    → Bumped (pieces plan) i d (no_receptions plan.count) after
    → Collecting plan
        (rep_after plan.count i 0)
        (packet_after plan.count i)
        (begun plan 0 i events after n)
begun-Collecting plan i d events after n hi b =
    let nothing : d ≡ 0 = counts_nothing plan.count i d b.counted in
    let round = next_round_lem plan.count 0 i hi in
    record {
      sending = refl;
      last_rep = 0;
      last_packet = i;
      header = refl;
      id = refl;
      slots = b.same_length ∙ length-no_receptions plan.count;
      few = λ j m found. elim (Bool-cases (j == i)) [
        | inl e ↦
            let here : j ≡ i = (==_iff j i).0 e in
            let same : some m ≡ some ((d + 1) % 256) =
              sym (ap (get_elem? after) (sym here) ∙ found) ∙ b.now in
            let bound = few_now plan.count 0 i in
            subst
              (λ x.
                m ≤ rep_after plan.count i 0 + (if ltb x (packet_after plan.count i) then 1 else 0))
              (sym here) (omega (arith, value_of same, nothing, bound))
        | inr e ↦
            let ne = other_number j i e in
            let none_of : m ≡ 0 = counts_nothing plan.count j m (sym (b.others j ne) ∙ found) in
            omega (arith, none_of)
      ];
      content = begun_content plan i d after nothing (b.pieces 0 (omega (arith, nothing)));
      round = omega (arith, round);
      rounds = refl;
    }
  where
    begun_content :
        (plan : Plan) (i d : ℕ) (after : List ℕ)
        → d ≡ 0
        → Perm
            (collected (pieces plan) 0 (no_receptions plan.count) ++ added (pieces plan) (0 + i) d)
            (collected (pieces plan) 0 after)
        → Perm (pieces plan i) (collected (pieces plan) 0 after)
    begun_content plan i d after e p =
        let zero_add : 0 + i ≡ i = omega arith in
        let nothing_yet = collected-no_receptions (pieces plan) 0 plan.count in
        let fresh : (d == 0) ≡ true = ground arith in rw fresh at (rw (zero_add, nothing_yet) at p)

pub begins :
    (c : Config) (plan : Plan) (i : ℕ) (infos : List DownlinkElement) (s : Slot) (n : Node)
    → n.status ≡ applied_schedule
    → i < plan.count
    → AreInfos infos
    → s.packet ≡ some (packet_at plan 0 i infos)
    → (n' : Node) × (execute c s n ≡ some n')
      × Collecting plan (rep_after plan.count i 0) (packet_after plan.count i) n'
      × Got i n'
begins c plan i infos s n h hi are e =
    let (events, a) = apply_info_elements_lem c (plan.piece i) infos are in
    let long = length-no_receptions plan.count in
    let (d, after, b) = bump_lem (pieces plan) i (no_receptions plan.count) (omega (arith, long)) in
    let nothing : d ≡ 0 = counts_nothing plan.count i d b.counted in
    (
      begun plan 0 i events after n,
      begun_run c plan 0 i d infos events after s n h (omega arith) e a b,
      begun-Collecting plan i d events after n hi b,
      (0, b.now ∙ ap (λ k. some ((k + 1) % 256)) nothing),
    )
