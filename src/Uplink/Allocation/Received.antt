-- ===== src/Uplink/Allocation/Received.antt =====
-- The receiver of a message expects in each packet what its sender has put there.
use tdmh.Base.{
  ℕ, zero, suc, ◌+◌, ◌-◌, ◌*◌, ◌≤◌, ◌<◌, ◌≡◌, refl, sym, ap, subst, ◌∙◌, List, [], ◌∷◌, length,
  get_elem?, some, Bool, true, false, ◌==◌, if◌then◌else◌, arith,
}
use tdmh.Packet.{pan_header_size, max_pkt_size}
use tdmh.Uplink.Allocation.{
  uplink_header_size, UplinkConfig, bitmasks, tag_room, topology_size, sme_size, first_capacity,
  other_capacity, fit, wanted, PacketAllocation, allocate, compute_packet_allocation, sent_counts,
  check_section, check_smes, check_size, packet_contents,
}
use tdmh.Uplink.Allocation.Splits.{
  splits, sum, bytes_left, fit-splits, splits-pos, sum-le, count_at, count_at_before,
  check_section-splits,
}
use tdmh.Uplink.Allocation.Sent.{only_smes, with_smes, merge, sent-merge}

get_elem?-only_smes :
    (smes : List ℕ) (packets d : ℕ)
    → d < length smes
    → get_elem? (only_smes smes) d ≡ some (0, count_at packets (packets + d) smes 0)
unfolding only_smes count_at
get_elem?-only_smes [] packets d h = absurd (omega arith)
get_elem?-only_smes (k ∷ smes) packets zero h =
    let e : packets + 0 ≡ packets = omega arith in
    let here : (packets == packets) ≡ true = ground arith in
    rw (e, here)
      (ap (λ m. some (0, m)) (sym (count_at_before (suc packets) packets smes k (omega arith))))
get_elem?-only_smes (k ∷ smes) packets (suc d) h =
    let other : (packets == packets + suc d) ≡ false = ground arith in
    let e : packets + suc d ≡ suc packets + d = omega arith in
    rw other (rw e (get_elem?-only_smes smes (suc packets) d (omega arith)))

get_elem?-with_smes :
    (n : ℕ) (smes : List ℕ) (packets d : ℕ)
    → d < length smes
    → get_elem? (with_smes n smes) d
      ≡ some (if packets == packets + d then n else 0, count_at packets (packets + d) smes 0)
unfolding with_smes count_at
get_elem?-with_smes n [] packets d h = absurd (omega arith)
get_elem?-with_smes n (k ∷ smes) packets zero h =
    let e : packets + 0 ≡ packets = omega arith in
    let here : (packets == packets) ≡ true = ground arith in
    rw (e, here)
      (ap (λ m. some (n, m)) (sym (count_at_before (suc packets) packets smes k (omega arith))))
get_elem?-with_smes n (k ∷ smes) packets (suc d) h =
    let other : (packets == packets + suc d) ≡ false = ground arith in
    let e : packets + suc d ≡ suc packets + d = omega arith in
    rw other (rw e (get_elem?-only_smes smes (suc packets) d (omega arith)))

get_elem?-merge :
    (counts smes : List ℕ) (packets d : ℕ)
    → 0 < length counts
    → 0 < length smes
    → d < length counts + length smes - 1
    → get_elem? (merge counts smes) d
      ≡ some (
        count_at packets (packets + d) counts 0,
        count_at (packets + length counts - 1) (packets + d) smes 0,
      )
unfolding merge count_at
get_elem?-merge [] smes packets d hc hs h = absurd (omega arith)
get_elem?-merge (n ∷ []) smes packets d hc hs h =
    let e : packets + 1 - 1 ≡ packets = omega arith in
    rw e (get_elem?-with_smes n smes packets d (omega arith))
get_elem?-merge (n ∷ m ∷ more) smes packets zero hc hs h =
    let e : packets + 0 ≡ packets = omega arith in
    let here : (packets == packets) ≡ true = ground arith in
    let first = count_at_before (suc packets) packets (m ∷ more) n (omega arith) in
    let second =
      count_at_before (packets + length (n ∷ m ∷ more) - 1) packets smes 0 (omega arith) in
    rw (e, here) (rw (first, second) refl)
get_elem?-merge (n ∷ m ∷ more) smes packets (suc d) hc hs h =
    let other : (packets == packets + suc d) ≡ false = ground arith in
    let e : packets + suc d ≡ suc packets + d = omega arith in
    let e' : packets + length (n ∷ m ∷ more) - 1 ≡ suc packets + length (m ∷ more) - 1 =
      omega arith in
    rw other
      (rw (e, e') (get_elem?-merge (m ∷ more) smes (suc packets) d (omega arith) hs (omega arith)))

-- All the topologies and all the elements in some packets.
unfoldable pub totals : List (ℕ × ℕ) → ℕ × ℕ
totals [] = (0, 0)
totals ((n, k) ∷ packets) = (n + (totals packets).0, k + (totals packets).1)

totals-only_smes : (smes : List ℕ) → totals (only_smes smes) ≡ (0, sum smes)
unfolding totals only_smes sum
totals-only_smes [] = refl
totals-only_smes (k ∷ smes) = rw (totals-only_smes smes) refl

totals-with_smes :
    (n : ℕ) (smes : List ℕ) → 0 < length smes → totals (with_smes n smes) ≡ (n, sum smes)
unfolding totals with_smes sum
totals-with_smes n [] h = absurd (omega arith)
totals-with_smes n (k ∷ smes) h =
    let e : n + 0 ≡ n = omega arith in rw (totals-only_smes smes) (rw e refl)

totals-merge :
    (counts smes : List ℕ)
    → 0 < length counts
    → 0 < length smes
    → totals (merge counts smes) ≡ (sum counts, sum smes)
unfolding totals merge sum
totals-merge [] smes hc hs = absurd (omega arith)
totals-merge (n ∷ []) smes hc hs =
    let e : n + 0 ≡ n = omega arith in rw e (totals-with_smes n smes hs)
totals-merge (n ∷ m ∷ more) smes hc hs =
    let e : 0 + sum smes ≡ sum smes = omega arith in
    rw (totals-merge (m ∷ more) smes (omega arith) hs) (rw e refl)

module _ (c : UplinkConfig) where
  -- The bitmasks leave room in the first packet, and there is a packet.
  pub record IsUsable : Type 0 where
    pub masks_fit : pan_header_size + uplink_header_size + bitmasks c + tag_room c ≤ max_pkt_size
    pub some_packet : 0 < c.num_uplink_packets

  sizes :
      IsUsable
      → (0 < topology_size c) × (topology_size c ≤ other_capacity c) × (sme_size ≤ other_capacity c)
  unfolding topology_size other_capacity
  sizes u = ground (arith, u.masks_fit)

  -- The counts of a plan, for `topologies` and `smes` that were asked for.
  topology_counts : ℕ → List ℕ
  topology_counts topologies =
      splits (c.num_uplink_packets - 1) (topology_size c) (other_capacity c) topologies
        (first_capacity c)

  left_over : ℕ → ℕ
  left_over topologies =
      bytes_left (c.num_uplink_packets - 1) (topology_size c) (other_capacity c) topologies
        (first_capacity c)

  sme_counts : ℕ → ℕ → List ℕ
  unfolding topology_counts left_over
  sme_counts topologies smes =
      splits (c.num_uplink_packets - length (topology_counts topologies)) sme_size
        (other_capacity c) smes (left_over topologies)

  allocate_lem :
      (topologies smes : ℕ)
      → allocate c (topologies, smes) ≡ record {
        tot_packets = length (topology_counts topologies) + length (sme_counts topologies smes) - 1;
        num_topologies = sum (topology_counts topologies);
        num_smes = sum (sme_counts topologies smes);
      }
  unfolding topology_counts left_over sme_counts
  allocate_lem topologies smes =
      let max_packets = c.num_uplink_packets in
      let size = topology_size c in
      let other = other_capacity c in
      let first = first_capacity c in
      let ks = topology_counts topologies in
      let ss = sme_counts topologies smes in
      let left = left_over topologies in
      let last : 1 + length ks - 1 ≡ length ks = omega arith in
      let f₁ : fit (max_packets - 1) size other topologies first 1
          ≡ (topologies - sum ks, left, length ks) =
        fit-splits (max_packets - 1) size other topologies first 1
        ∙ ap (λ n. (topologies - sum ks, left, n)) last in
      let f₂ = fit-splits (max_packets - length ks) sme_size other smes left (length ks) in
      let t : topologies - (topologies - sum ks) ≡ sum ks =
        omega (arith, sum-le (max_packets - 1) size other topologies first) in
      let k : smes - (smes - sum ss) ≡ sum ss =
        omega (arith, sum-le (max_packets - length ks) sme_size other smes left) in
      rw f₁ (rw f₂ (rw (t, k) refl))

  contents_lem :
      (valid_topologies : ℕ → Bool) (valid_smes : ℕ → ℕ → Bool) (received topologies smes : ℕ)
      → IsUsable
      → let ks = topology_counts topologies in
        let ss = sme_counts topologies smes in
        let n = count_at 1 (received + 1) ks 0 in
        let k = count_at (length ks) (received + 1) ss 0 in
        (valid_topologies n ≡ true) × (valid_smes n k ≡ true)
        → packet_contents valid_topologies valid_smes c received
            (sum ks)
            (sum ss)
            (n * topology_size c + k * sme_size)
          ≡ some (length ks + length ss - 1, n, k)
  unfolding packet_contents topology_counts sme_counts left_over
  contents_lem valid_topologies valid_smes received topologies smes u (ok, ok') =
      let max_packets = c.num_uplink_packets in
      let size = topology_size c in
      let other = other_capacity c in
      let first = first_capacity c in
      let ks = topology_counts topologies in
      let ss = sme_counts topologies smes in
      let left = left_over topologies in
      let n = count_at 1 (received + 1) ks 0 in
      let (hs, ht, ho) = sizes u in
      let last : 1 + length ks - 1 ≡ length ks = omega arith in
      let r₁ : check_section valid_topologies (max_packets - 1) size other (received + 1) (sum ks)
            first 1
          ≡ some (left, length ks, n) =
        check_section-splits valid_topologies (max_packets - 1) size other (received + 1) topologies
          first 1 hs ht ok
        ∙ ap (λ k. some (left, k, n)) last in
      let r₂ =
        check_section-splits (valid_smes n) (max_packets - length ks) sme_size other (received + 1)
          smes left (length ks) (omega arith) ho ok' in
      let k = count_at (length ks) (received + 1) ss 0 in
      let whole : (n * size + k * sme_size == n * size + k * sme_size) ≡ true = ground arith in
      rw r₁ (rw (r₂, check_smes) (rw (check_size, whole) refl))

-- The packets of a message, by their counts.
abbrev pub sent_packets : UplinkConfig → PacketAllocation → List (ℕ × ℕ)
sent_packets c a = sent_counts c a.tot_packets (first_capacity c) a.num_topologies a.num_smes

-- A message is sent in full, and the packet after `received` others is what its receiver expects.
abbrev pub Agree : (ℕ → Bool) → (ℕ → ℕ → Bool) → UplinkConfig → ℕ → PacketAllocation → Type 0
Agree valid_topologies valid_smes c received a =
    let sent = sent_packets c a in
    (totals sent ≡ (a.num_topologies, a.num_smes))
    × (n : ℕ) × (k : ℕ) × (get_elem? sent received ≡ some (n, k))
    × (packet_contents valid_topologies valid_smes c received a.num_topologies a.num_smes
          (n * topology_size c + k * sme_size)
        ≡ some (a.tot_packets, n, k))

-- What a sender puts into the packets of a message is what it announces in the header, all of it;
-- and whoever has received the first of the packets, and found what is in them valid, expects as
-- many packets, and in the next one as many topologies and elements, as were put there.
pub packet_contents-sent_counts :
    (c : UplinkConfig) (available_topologies available_smes received : ℕ)
    (valid_topologies : ℕ → Bool) (valid_smes : ℕ → ℕ → Bool)
    → IsUsable c
    → ((n k : ℕ)
        → get_elem?
            (sent_packets c (compute_packet_allocation c available_topologies available_smes))
            received
          ≡ some (n, k)
        → (valid_topologies n ≡ true) × (valid_smes n k ≡ true))
    → received < (compute_packet_allocation c available_topologies available_smes).tot_packets
    → Agree valid_topologies valid_smes c received
        (compute_packet_allocation c available_topologies available_smes)
unfolding compute_packet_allocation topology_counts sme_counts left_over
packet_contents-sent_counts c available_topologies available_smes received vt vs u ok h =
    let (topologies, smes) = wanted c available_topologies available_smes in
    let ks = topology_counts c topologies in
    let ss = sme_counts c topologies smes in
    let max_packets = c.num_uplink_packets in
    let (hs, ht, ho) = sizes c u in
    let a : compute_packet_allocation c available_topologies available_smes ≡ record {
      tot_packets = length ks + length ss - 1;
      num_topologies = sum ks;
      num_smes = sum ss;
    } =
      allocate_lem c topologies smes in
    let some_ks =
      splits-pos (max_packets - 1) (topology_size c) (other_capacity c) topologies
        (first_capacity c) in
    let some_ss =
      splits-pos (max_packets - length ks) sme_size (other_capacity c) smes
        (left_over c topologies) in
    let sent =
      sent-merge c (max_packets - 1) (max_packets - length ks) topologies (first_capacity c) smes hs
        ht ho in
    let within : received < length ks + length ss - 1 = subst (λ b. received < b.tot_packets) a h in
    let last : 1 + length ks - 1 ≡ length ks = omega arith in
    let add_comm : 1 + received ≡ received + 1 = omega arith in
    let found =
      ap (λ l. get_elem? l received) sent
      ∙ rw (last, add_comm) at (get_elem?-merge ks ss 1 received some_ks some_ss within) in
    let n = count_at 1 (received + 1) ks 0 in
    let k = count_at (length ks) (received + 1) ss 0 in
    let valid = ok n k (ap (λ b. get_elem? (sent_packets c b) received) a ∙ found) in
    subst (Agree vt vs c received) (sym a) (
      ap totals sent ∙ totals-merge ks ss some_ks some_ss,
      n,
      k,
      found,
      contents_lem c vt vs received topologies smes u valid,
    )
