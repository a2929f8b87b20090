-- ===== src/Downlink/Node/Hears/Late.antt =====
-- A node that hears of a schedule in one of its later repetitions.
use tdmh.Base.{ℕ, zero, suc, ◌+◌, ◌-◌, ◌*◌, ◌<◌, ◌≡◌, ◌⊎◌, List, some, arith}
use tdmh.Wire.Schedule.{DownlinkElement}
use tdmh.Downlink.{applied_schedule}
use tdmh.Downlink.Node.{Config, Node, Slot}
use tdmh.Downlink.Node.Infos.{AreInfos, apply_info_elements_lem}
use tdmh.Downlink.Node.Collect.{no_receptions}
use tdmh.Downlink.Node.Pieces.{bump_lem, length-no_receptions}
use tdmh.Downlink.Node.Run.{execute}
use tdmh.Downlink.Node.Hears.{Plan, packet_at, pieces}
use tdmh.Downlink.Node.Hears.Begins.{begun, begun_run}

-- The packets that the master still sends after packet `i` of repetition `rep`.
abbrev pub to_come : ℕ → ℕ → ℕ → ℕ
to_come count rep i = count * 4 - (rep * count + i + 1)

-- The rounds that the node will still listen to.
abbrev pub listens_for : Node → ℕ
listens_for n = n.sending_rounds - n.current_sending_round

-- How the rounds compare that are left by the node's count and by the master's.
abbrev pub Misjudged : ℕ → ℕ → ℕ → ℕ → Type 0
Misjudged count rep i left =
    (4 < count → 0 < rep → to_come count rep i < left)
    × (count < 4 → 0 < rep → 0 < to_come count rep i → left < to_come count rep i)
    × ((rep ≡ 0) ⊎ (count ≡ 4) → left ≡ to_come count rep i)

compare_counts :
    (count rep i : ℕ) → rep < 4 → i < count → Misjudged count rep i (count * 4 - (1 + rep * 4 + i))
compare_counts count zero i h hi = (λ a b. omega arith, λ a b d. omega arith, λ a. omega arith)
compare_counts count (suc zero) i h hi =
    (λ a b. omega arith, λ a b d. omega arith, λ a. omega (arith, a))
compare_counts count (suc (suc zero)) i h hi =
    (λ a b. omega arith, λ a b d. omega arith, λ a. omega (arith, a))
compare_counts count (suc (suc (suc zero))) i h hi =
    (λ a b. omega arith, λ a b d. omega arith, λ a. omega (arith, a))
compare_counts count (suc (suc (suc (suc rep)))) i h hi = absurd (omega arith)

-- A node that knows of no schedule to come hears packet `i` of repetition `rep`, the first for it:
-- it goes on to listen, but in a later repetition for more rounds than there are packets to come
-- where a schedule has more than four packets, and for fewer where it has fewer than four and
-- there are any. With four packets, or in the first repetition, it is right.
pub execute-late :
    (c : Config) (plan : Plan) (rep i : ℕ) (infos : List DownlinkElement) (s : Slot) (n : Node)
    → n.status ≡ applied_schedule
    → i < plan.count
    → rep < 4
    → AreInfos infos
    → s.packet ≡ some (packet_at plan rep i infos)
    → (n' : Node) × (execute c s n ≡ some n') × Misjudged plan.count rep i (listens_for n')
execute-late c plan rep i infos s n h hi hr are e =
    let (events, a) = apply_info_elements_lem c (plan.piece i) infos are in
    let long = length-no_receptions plan.count in
    let (d, after, b) = bump_lem (pieces plan) i (no_receptions plan.count) (omega (arith, long)) in
    (
      begun plan rep i events after n,
      begun_run c plan rep i d infos events after s n h (omega arith) e a b,
      compare_counts plan.count rep i hr hi,
    )
