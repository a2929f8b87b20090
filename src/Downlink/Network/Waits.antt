-- ===== src/Downlink/Network/Waits.antt =====
-- The first repetition of a schedule, until a node hears a packet of it.
use tdmh.Base.{
  ℕ, zero, suc, ◌+◌, ◌-◌, ◌*◌, ◌^◌, ◌<◌, ◌≡◌, refl, ap, ◌∙◌, subst, List, [], ◌∷◌, length, take,
  none, some, true, false, ltb, if◌then◌else◌, All, arith,
}
use tdmh.Scheduler.Element.{ScheduleElement}
use tdmh.Downlink.{
  Status, applied_schedule, sending_schedule, processing, Event, set_new_schedule,
  keys_start_rekeying, streams_enqueue_resend,
}
use tdmh.Downlink.Node.{Node}
use tdmh.Downlink.Node.Hears.{Plan, packet_at, packet_after, rep_after, Got, idle}
use tdmh.Downlink.Node.Hears.Begins.{begins}
use tdmh.Downlink.Master.{Master, num_packets, packet_capacity}
use tdmh.Downlink.Master.Rounds.{on_air, piece_of, Sending, sends}
use tdmh.Downlink.Network.{Round, net_step, net_run}
use tdmh.Downlink.Network.Listens.{packet_later, InfosOnly, AreInfos-take, step_lem, run_step, Both}

-- The packets of one repetition, by their distance.
pub later-lt : (count i d : ℕ) → i + d < count → packet_later count i d ≡ i + d
later-lt count i zero h = omega arith
later-lt count i (suc d) h =
    let more : ltb (suc i) count ≡ true = ground arith in
    rw more
      (later-lt count (suc i) d (omega arith) ∙ (let e : suc i + d ≡ i + suc d = omega arith in e))

later_around :
    (count i d e : ℕ)
    → i + d ≡ count
    → i < count
    → packet_later count i (d + e) ≡ packet_later count 0 e
later_around count i zero e h hi = absurd (omega arith)
later_around count i (suc zero) e h hi =
    let last : ltb (suc i) count ≡ false = ground arith in
    let step : 1 + e ≡ suc e = omega arith in ap (packet_later count i) step ∙ rw last refl
later_around count i (suc (suc d)) e h hi =
    let more : ltb (suc i) count ≡ true = ground arith in
    let step : suc (suc d) + e ≡ suc (suc d + e) = omega arith in
    ap (packet_later count i) step
    ∙ rw (more, packet_later) (later_around count (suc i) (suc d) e (omega arith) (omega arith))

-- Packet `j` is sent as the `rep * count + j`th.
pub later_lem : (count rep j : ℕ) → j < count → packet_later count 0 (rep * count + j) ≡ j
later_lem count zero j h =
    let e : 0 * count + j ≡ j = omega arith in
    let e' : 0 + j ≡ j = omega arith in
    ap (packet_later count 0) e ∙ later-lt count 0 j (omega arith) ∙ e'
later_lem count (suc rep) j h =
    let e : suc rep * count + j ≡ count + (rep * count + j) = omega arith in
    ap (packet_later count 0) e
    ∙ later_around count 0 count (rep * count + j) (omega arith) (omega arith)
    ∙ later_lem count rep j h

pub later-add :
    (count i a b : ℕ) → packet_later count (packet_later count i a) b ≡ packet_later count i (a + b)
later-add count i zero b = let e : b ≡ 0 + b = omega arith in ap (packet_later count i) e
later-add count i (suc a) b =
    let e : suc (a + b) ≡ suc a + b = omega arith in
    later-add count (packet_after count i) a b ∙ ap (packet_later count i) e

module _ (mc : tdmh.Downlink.Master.Config) (nc : tdmh.Downlink.Node.Config) (plan : Plan)
    (es : List ScheduleElement) (few : plan.count < 2 ^ 16) where
  -- While the node hears nothing of the first repetition, nothing happens to it.
  pub wait_run :
      (i : ℕ) (rs : List Round) (m : Master) (n : Node)
      → i + length rs < plan.count
      → Sending plan es 0 i m
      → n.status ≡ applied_schedule
      → All (λ r. r.heard ≡ false) rs
      → (m' : Master) × (net_run mc nc rs (m, n) ≡ some (m', n))
        × Sending plan es 0 (i + length rs) m'
  unfolding net_run
  wait_run i [] m n h sending idles deaf =
      let e : i ≡ i + 0 = omega arith in (m, refl, subst (λ k. Sending plan es 0 k m) e sending)
  wait_run i (r ∷ rs) m n h sending idles (was_not, deaf) =
      let (m₁, e, air, sending₁) =
        sends mc plan es 0 i r.master m sending (omega arith) few (omega arith) (omega arith) in
      let off : (if r.heard then on_air m₁.log else none) ≡ none = rw was_not refl in
      let step =
        step_lem mc nc plan es few r m m₁ n n none e off
          (idle nc (record r.node { packet = none }) n idles refl) in
      let more : ltb (suc i) plan.count ≡ true = ground arith in
      let sending₁' : Sending plan es 0 (suc i) m₁ = rw more at sending₁ in
      let (m', run, sending') = wait_run (suc i) rs m₁ n (omega arith) sending₁' idles deaf in
      let next : suc i + length rs ≡ i + suc (length rs) = omega arith in
      (
        m',
        run_step mc nc plan es few r rs (m, n) (m₁, n) (some (m', n)) step run,
        subst (λ k. Sending plan es 0 k m') next sending',
      )

  -- A node that hears the packet, the first for it.
  pub begin_step :
      (i : ℕ) (r : Round) (m : Master) (n : Node)
      → i < plan.count
      → Sending plan es 0 i m
      → n.status ≡ applied_schedule
      → r.heard ≡ true
      → InfosOnly r
      → (m' : Master) × (n' : Node) × (net_step mc nc r (m, n) ≡ some (m', n'))
        × Both mc nc plan es few (rep_after plan.count i 0) (packet_after plan.count i) m' n'
        × Got i n'
  begin_step i r m n hi sending idles was_heard infos =
      let room = 8 - length (piece_of es i) in
      let (m', e, air, sending') =
        sends mc plan es 0 i r.master m sending hi few (omega arith) (omega arith) in
      let packet = packet_at plan 0 i (take room r.master.infos) in
      let on : (if r.heard then on_air m'.log else none) ≡ some packet = rw was_heard air in
      let (n', e', collecting', got) =
        begins nc plan i (take room r.master.infos) (record r.node { packet = some packet }) n idles
          hi (AreInfos-take room r.master.infos infos) refl in
      let within : packet_after plan.count i < plan.count = ground arith in
      (
        m',
        n',
        step_lem mc nc plan es few r m m' n n' (some packet) e on e',
        (sending', collecting', within),
        got,
      )
