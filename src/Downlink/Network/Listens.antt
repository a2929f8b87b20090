-- ===== src/Downlink/Network/Listens.antt =====
-- The rounds of the distribution of a schedule, at the master and at a node that has heard of it.
use tdmh.Base.{
  ℕ, zero, suc, ◌+◌, ◌-◌, ◌*◌, ◌^◌, ◌<◌, ◌≡◌, refl, ap, ◌∙◌, inl, inr, List, [], ◌∷◌, length, take,
  map, get_elem?, Option, none, some, true, false, ltb, if◌then◌else◌, Bool-cases, All, arith,
  tests,
}
use tdmh.Scheduler.Element.{ScheduleElement}
use tdmh.Wire.Schedule.{DownlinkElement, SchedulePacket}
use tdmh.Downlink.{
  Status, applied_schedule, sending_schedule, processing, Event, set_new_schedule,
  keys_start_rekeying, streams_enqueue_resend,
}
use tdmh.Downlink.Node.{Node}
use tdmh.Downlink.Node.Infos.{AreInfos}
use tdmh.Downlink.Node.Hears.{
  Plan, packet_at, Collecting, packet_after, rep_after, Got, Keeps, next_round_lem, missed,
}
use tdmh.Downlink.Node.Hears.Takes.{heard}
use tdmh.Downlink.Master.{Master, num_packets, packet_capacity}
use tdmh.Downlink.Master.Rounds.{on_air, piece_of, Sending, sends}
use tdmh.Downlink.Network.{Round, after_node, after_master, net_step, net_run}

-- The packet that is sent some rounds after packet `i`.
abbrev pub packet_later : ℕ → ℕ → ℕ → ℕ
packet_later count i zero = i
packet_later count i (suc d) = packet_later count (packet_after count i) d

abbrev pub InfosOnly : Round → Type 0
InfosOnly r = AreInfos r.master.infos

pub AreInfos-take : (n : ℕ) (xs : List DownlinkElement) → AreInfos xs → AreInfos (take n xs)
AreInfos-take zero xs h = tt
AreInfos-take (suc n) [] h = tt
AreInfos-take (suc n) (x ∷ xs) (e, hs) = (e, AreInfos-take n xs hs)

module _ (mc : tdmh.Downlink.Master.Config) (nc : tdmh.Downlink.Node.Config) (plan : Plan)
    (es : List ScheduleElement) (few : plan.count < 2 ^ 16) where
  -- A slot of the network: a step of the master and one of the node.
  pub step_lem :
      (r : Round) (m m' : Master) (n n' : Node) (p : Option SchedulePacket)
      → tdmh.Downlink.Master.execute mc r.master (record m { log = [] }) ≡ some m'
      → (if r.heard then on_air m'.log else none) ≡ p
      → tdmh.Downlink.Node.Run.execute nc (record r.node { packet = p }) n ≡ some n'
      → net_step mc nc r (m, n) ≡ some (m', n')
  step_lem r m m' n n' p e air e' =
      ap (after_master nc r n) e
      ∙ ap (λ q. after_node m' (tdmh.Downlink.Node.Run.execute nc (record r.node { packet = q }) n))
          air
      ∙ ap (after_node m') e'

  pub run_step :
      (r : Round) (rs : List Round) (s s' : Master × Node) (o : Option (Master × Node))
      → net_step mc nc r s ≡ some s'
      → net_run mc nc rs s' ≡ o
      → net_run mc nc (r ∷ rs) s ≡ o
  unfolding net_run
  run_step r rs s s' o e e' = rw (e, net_run) e'

  pub early_rep : (rep i : ℕ) → rep * plan.count + i < plan.count * 4 → rep < 4
  early_rep rep i h = elim (Bool-cases (ltb rep 4)) [
    | inl e ↦ omega (tests, e)
    | inr e ↦
        let k = rep - 4 in
        let late : rep ≡ 4 + k = ground arith in
        let product : rep * plan.count ≡ 4 * plan.count + k * plan.count =
          ap (λ x. x * plan.count) late
          ∙ (let p : (4 + k) * plan.count ≡ 4 * plan.count + k * plan.count = omega arith in p) in
        absurd (omega (arith, h, product))
  ]

  -- Both sides, before packet `i` of repetition `rep`.
  abbrev pub Both : ℕ → ℕ → Master → Node → Type 0
  Both rep i m n = Sending plan es rep i m × Collecting plan rep i n × (i < plan.count)

  listen_step :
      (rep i : ℕ) (r : Round) (m : Master) (n : Node)
      → Both rep i m n
      → rep * plan.count + i < plan.count * 4
      → InfosOnly r
      → (m' : Master) × (n' : Node) × (net_step mc nc r (m, n) ≡ some (m', n'))
        × Both (rep_after plan.count i rep) (packet_after plan.count i) m' n'
        × Keeps n n'
        × (r.heard ≡ true → Got i n')
  listen_step rep i r m n (sending, collecting, hi) h infos =
      let hr = early_rep rep i h in
      let (m', e, air, sending') = sends mc plan es rep i r.master m sending hi few hr h in
      let within : packet_after plan.count i < plan.count = ground arith in
      elim (Bool-cases r.heard) [
        | inl was_heard ↦
            let on : (if r.heard then on_air m'.log else none)
                ≡ some (packet_at plan rep i (take (8 - length (piece_of es i)) r.master.infos)) =
              rw was_heard air in
            let are = AreInfos-take (8 - length (piece_of es i)) r.master.infos infos in
            let packet = packet_at plan rep i (take (8 - length (piece_of es i)) r.master.infos) in
            let (n', e', collecting', keeps, got) =
              heard nc plan rep i (take (8 - length (piece_of es i)) r.master.infos)
                (record r.node { packet = some packet }) n collecting hi hr h are refl in
            (
              m',
              n',
              step_lem r m m' n n' (some packet) e on e',
              (sending', collecting', within),
              keeps,
              λ _. got,
            )
        | inr was_not ↦
            let off : (if r.heard then on_air m'.log else none) ≡ none = rw was_not refl in
            let (n', e', collecting', keeps) =
              missed nc plan rep i (record r.node { packet = none }) n collecting hi h refl in
            (
              m',
              n',
              step_lem r m m' n n' none e off e',
              (sending', collecting', within),
              keeps,
              λ yes. absurd (grind (arith, yes, was_not)),
            )
      ]

  later_got :
      (i : ℕ) (r : Round) (rs : List Round) (n n' : Node)
      → Keeps n n'
      → (r.heard ≡ true → Got i n)
      → ((d : ℕ)
          → get_elem? (map (λ r. r.heard) rs) d ≡ some true
          → Got (packet_later plan.count (packet_after plan.count i) d) n')
      → (d : ℕ) → get_elem? (map (λ r. r.heard) (r ∷ rs)) d ≡ some true
      → Got (packet_later plan.count i d) n'
  later_got i r rs n n' keeps got got' zero e =
      keeps i (got (ap (λ o. elim o [ none ↦ false | some b ↦ b ]) e))
  later_got i r rs n n' keeps got got' (suc d) e = got' d e

  -- The rest of the rounds.
  pub listen_run :
      (rep i : ℕ) (rs : List Round) (m : Master) (n : Node)
      → Both rep i m n
      → rep * plan.count + i + length rs ≡ plan.count * 4
      → All InfosOnly rs
      → (m' : Master) × (n' : Node) × (net_run mc nc rs (m, n) ≡ some (m', n'))
        × ((rep' : ℕ) × (i' : ℕ) × (rep' * plan.count + i' ≡ plan.count * 4) × Both rep' i' m' n')
        × Keeps n n'
        × ((d : ℕ)
            → get_elem? (map (λ r. r.heard) rs) d ≡ some true
            → Got (packet_later plan.count i d) n')
  unfolding net_run
  listen_run rep i [] m n both total infos = (
    m,
    n,
    refl,
    (rep, i, omega (arith, total), both),
    λ j got. got,
    λ d e. absurd (grind (arith, e)),
  )
  listen_run rep i (r ∷ rs) m n both total (here, later) =
      let (m₁, n₁, e, both₁, keeps, got) =
        listen_step rep i r m n both (omega (arith, total)) here in
      let next = next_round_lem plan.count rep i both.2 in
      let (m', n', e', end, keeps', got') =
        listen_run (rep_after plan.count i rep) (packet_after plan.count i) rs m₁ n₁ both₁
          (omega (arith, total, next)) later in
      (
        m',
        n',
        run_step r rs (m, n) (m₁, n₁) (some (m', n')) e e',
        end,
        λ j g. keeps' j (keeps j g),
        later_got i r rs n₁ n' keeps' got got',
      )
