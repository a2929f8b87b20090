-- ===== src/Downlink/Node/Hears/Takes.antt =====
-- A node that hears one more packet of the schedule that it collects.
use tdmh.Base.{
  ℕ, suc, ◌+◌, ◌*◌, ◌%◌, ◌≤◌, ◌<◌, ◌≡◌, refl, sym, ap, ◌∙◌, subst, inl, inr, List, ◌++◌, get_elem?,
  some, true, false, ◌==◌, ltb, if◌then◌else◌, Bool-cases, ==_iff, arith,
}
use mathlib.Core.List.{Perm, append-nil}
use mathlib.Core.List.Perm
use tdmh.Wire.Schedule.{DownlinkElement}
use tdmh.Downlink.{Event}
use tdmh.Downlink.Node.{Config, Node, Slot, returned, apply_info_elements}
use tdmh.Downlink.Node.Infos.{AreInfos, apply_info_elements_lem}
use tdmh.Downlink.Node.Collect.{append_to_schedule, with_infos, same_schedule}
use tdmh.Downlink.Node.Pieces.{collected, added, Bumped, bump_lem}
use tdmh.Downlink.Node.Run.{execute, listen, settle, receive_by}
use tdmh.Downlink.Node.Hears.{
  Plan, header_at, packet_at, pieces, Collecting, packet_after, rep_after, Got, Keeps, few_more,
  few_now, next_round_lem, listens, value_of, other_number,
}

same_plan :
    (plan : Plan) (rep i rep' i' : ℕ)
    → same_schedule (header_at plan rep i) (header_at plan rep' i') ≡ true
same_plan plan rep i rep' i' = ground arith

-- A node that hears packet `i`.
abbrev taken : (plan : Plan) (rep i d : ℕ) (events : List Event) (after : List ℕ) → Node → Node
taken plan rep i d events after n = record n {
  header = header_at plan rep i;
  schedule = if d == 0 then n.schedule ++ pieces plan i else n.schedule;
  received = after;
  log = n.log ++ events;
}

appended :
    (c : Config) (plan : Plan) (rep i d : ℕ) (infos : List DownlinkElement) (events : List Event)
    (after : List ℕ) (n : Node)
    → Collecting plan rep i n
    → apply_info_elements c (pieces plan i ++ infos) ≡ some (pieces plan i, events)
    → Bumped (pieces plan) i d n.received after
    → append_to_schedule c (packet_at plan rep i infos) n
      ≡ returned (taken plan rep i d events after n)
unfolding append_to_schedule
appended c plan rep i d infos events after n k a b =
    let same : same_schedule n.header (header_at plan rep i) ≡ true =
      ap (λ h. same_schedule h (header_at plan rep i)) k.header
      ∙ same_plan plan k.last_rep k.last_packet rep i in
    rw (a, with_infos) (rw (same, b.counted, b.run) refl)

-- The first piece is added, and a later copy of it is not.
taken_content :
    (plan : Plan) (i d : ℕ) (n : Node) (after : List ℕ)
    → Perm n.schedule (collected (pieces plan) 0 n.received)
    → Perm
        (collected (pieces plan) 0 n.received ++ added (pieces plan) (0 + i) d)
        (collected (pieces plan) 0 after)
    → Perm
        (if d == 0 then n.schedule ++ pieces plan i else n.schedule)
        (collected (pieces plan) 0 after)
taken_content plan i d n after before grown =
    let zero_add : 0 + i ≡ i = omega arith in
    let grown' = rw zero_add at grown in
    elim (Bool-cases (d == 0)) [
      | inl e ↦ rw e (Perm.trans (Perm.append before (Perm.refl (pieces plan i))) (rw e at grown'))
      | inr e ↦ rw e (
          Perm.trans before (
            subst (λ l. Perm l (collected (pieces plan) 0 after))
              (append-nil (collected (pieces plan) 0 n.received)) (rw e at grown')))
    ]

taken-Collecting :
    (plan : Plan) (rep i d : ℕ) (events : List Event) (after : List ℕ) (n : Node)
    → Collecting plan rep i n
    → i < plan.count
    → rep < 4
    → Bumped (pieces plan) i d n.received after
    → Collecting plan
        (rep_after plan.count i rep)
        (packet_after plan.count i)
        (record (taken plan rep i d events after n) {
          current_sending_round = n.current_sending_round + 1;
        })
taken-Collecting plan rep i d events after n k hi hr b =
    let fresh : ltb i i ≡ false = ground arith in
    let few : d ≤ rep = omega (arith, rw fresh at (k.few i d b.counted)) in
    record {
      sending = k.sending;
      last_rep = rep;
      last_packet = i;
      header = refl;
      id = k.id;
      slots = b.same_length ∙ k.slots;
      few = λ j m found. elim (Bool-cases (j == i)) [
        | inl e ↦
            let here : j ≡ i = (==_iff j i).0 e in
            let same : some m ≡ some ((d + 1) % 256) =
              sym (ap (get_elem? after) (sym here) ∙ found) ∙ b.now in
            let bound = few_now plan.count rep i in
            subst
              (λ x.
                m
                ≤ rep_after plan.count i rep + (if ltb x (packet_after plan.count i) then 1 else 0))
              (sym here) (omega (arith, value_of same, few, bound))
        | inr e ↦
            let ne = other_number j i e in
            omega (arith, k.few j m (sym (b.others j ne) ∙ found), few_more plan.count rep i j)
      ];
      content = taken_content plan i d n after k.content (b.pieces 0 (omega (arith, few)));
      round = omega (arith, k.round, next_round_lem plan.count rep i hi);
      rounds = k.rounds;
    }

others_kept :
    (piece : ℕ → List DownlinkElement) (i d : ℕ) (before after : List ℕ)
    → Bumped piece i d before after
    → d < 255
    → (j : ℕ) → (c : ℕ) × (get_elem? before j ≡ some (suc c))
    → (c : ℕ) × (get_elem? after j ≡ some (suc c))
others_kept piece i d before after b small j (c, found) = elim (Bool-cases (j == i)) [
  | inl e ↦
      let here : j ≡ i = (==_iff j i).0 e in
      let e' : (d + 1) % 256 ≡ suc d = omega (arith, small) in
      (d, ap (get_elem? after) here ∙ b.now ∙ ap some e')
  | inr e ↦ (c, b.others j (other_number j i e) ∙ found)
]

-- The node has the packet's piece, if it had not before.
pub heard :
    (c : Config) (plan : Plan) (rep i : ℕ) (infos : List DownlinkElement) (s : Slot) (n : Node)
    → Collecting plan rep i n
    → i < plan.count
    → rep < 4
    → rep * plan.count + i < plan.count * 4
    → AreInfos infos
    → s.packet ≡ some (packet_at plan rep i infos)
    → (n' : Node) × (execute c s n ≡ some n')
      × Collecting plan (rep_after plan.count i rep) (packet_after plan.count i) n'
      × Keeps n n'
      × Got i n'
unfolding execute
heard c plan rep i infos s n k hi hr h are e =
    let (events, a) = apply_info_elements_lem c (plan.piece i) infos are in
    let (d, after, b) = bump_lem (pieces plan) i n.received (omega (arith, k.slots)) in
    let n' = record (taken plan rep i d events after n) {
      current_sending_round = n.current_sending_round + 1;
    } in
    let some_packets : ltb 0 plan.count ≡ true = ground arith in
    let same_id : (plan.base.schedule_id == n.header.schedule_id) ≡ true =
      ground (arith, ap (λ h. h.schedule_id) k.header) in
    let packet = packet_at plan rep i infos in
    let fresh : ltb i i ≡ false = ground arith in
    let few = rw fresh at (k.few i d b.counted) in
    let small : d < 255 = omega (arith, few) in
    let run = appended c plan rep i d infos events after n k a b in
    (
      n',
      rw (listens plan rep i s n k h) (
          ap (λ p. listen c p n) e
          ∙ ap (λ status. settle c (receive_by status c packet n)) k.sending
          ∙ rw (some_packets, same_id) (rw run refl)),
      taken-Collecting plan rep i d events after n k hi hr b,
      others_kept (pieces plan) i d n.received after b small,
      (d, b.now ∙ ap some (let e : (d + 1) % 256 ≡ suc d = omega (arith, small) in e)),
    )
