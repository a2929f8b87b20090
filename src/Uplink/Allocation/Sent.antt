-- ===== src/Uplink/Allocation/Sent.antt =====
-- What the calls of serializeTopologiesAndSMEs put into the packets of a message.
use tdmh.Base.{
  ℕ, zero, suc, ◌+◌, ◌-◌, ◌*◌, ◌/◌, ◌≤◌, ◌<◌, ◌≡◌, refl, sym, ap, ◌∙◌, inl, inr, List, [], ◌∷◌,
  length, true, ◌==◌, ltb, min, Bool-cases, arith,
}
use tdmh.Uplink.Allocation.{
  UplinkConfig, topology_size, sme_size, other_capacity, fitting, packet_counts, sent_counts,
}
use tdmh.Uplink.Allocation.Splits.{splits, sum, bytes_left, splits-pos, sum-pos}

-- Packets with elements only, and those that start with one that has `n` topologies as well.
unfoldable pub only_smes : List ℕ → List (ℕ × ℕ)
only_smes [] = []
only_smes (k ∷ smes) = (0, k) ∷ only_smes smes

unfoldable pub with_smes : ℕ → List ℕ → List (ℕ × ℕ)
with_smes n [] = (n, 0) ∷ []
with_smes n (k ∷ smes) = (n, k) ∷ only_smes smes

unfoldable pub merge : List ℕ → List ℕ → List (ℕ × ℕ)
merge [] smes = []
merge (n ∷ []) smes = with_smes n smes
merge (n ∷ m ∷ more) smes = (n, 0) ∷ merge (m ∷ more) smes

merge_more :
    (n : ℕ) (counts smes : List ℕ)
    → 0 < length counts
    → merge (n ∷ counts) smes ≡ (n, 0) ∷ merge counts smes
unfolding merge
merge_more n [] smes h = absurd (omega arith)
merge_more n (m ∷ more) smes h = refl

with_smes-zero : (smes : List ℕ) → 0 < length smes → with_smes 0 smes ≡ only_smes smes
unfolding with_smes only_smes
with_smes-zero [] h = absurd (omega arith)
with_smes-zero (k ∷ smes) h = refl

module _ (c : UplinkConfig) where
  -- The last packet with topologies takes elements in.
  packet_last :
      (available n smes : ℕ)
      → fitting (topology_size c) n available ≡ n
      → packet_counts c available n smes ≡ (
        (n, min smes ((available - n * topology_size c) / sme_size)),
        0,
        smes - min smes ((available - n * topology_size c) / sme_size),
      )
  unfolding packet_counts
  packet_last available n smes e = let done : n - n ≡ 0 = omega arith in rw (e, done) refl

  packet_filled :
      (available n k rest : ℕ)
      → fitting (topology_size c) n available ≡ n
      → fitting sme_size (k + rest) (available - n * topology_size c) ≡ k
      → packet_counts c available n (k + rest) ≡ ((n, k), 0, rest)
  packet_filled available n k rest e full =
      let left : k + rest - k ≡ rest = omega arith in
      packet_last available n (k + rest) e ∙ rw (full, left) refl

  packet_more :
      (available topologies n smes : ℕ)
      → fitting (topology_size c) topologies available ≡ n
      → n < topologies
      → packet_counts c available topologies smes ≡ ((n, 0), topologies - n, smes)
  unfolding packet_counts
  packet_more available topologies n smes e h =
      let more : ltb 0 (topologies - n) ≡ true = ground arith in rw (e, more) refl

  sent-with_smes :
      (rounds available n smes : ℕ)
      → sme_size ≤ other_capacity c
      → fitting (topology_size c) n available ≡ n
      → let counts =
          splits rounds sme_size (other_capacity c) smes (available - n * topology_size c) in
        sent_counts c (length counts) available n (sum counts) ≡ with_smes n counts
  unfolding sent_counts splits sum with_smes only_smes
  sent-with_smes zero available n smes ho e =
      let k = fitting sme_size smes (available - n * topology_size c) in
      rw (packet_filled available n k 0 e (omega arith)) refl
  sent-with_smes (suc rounds) available n smes ho e =
      let bytes = available - n * topology_size c in
      let k = fitting sme_size smes bytes in
      elim (Bool-cases (smes - k == 0)) [
        | inl d ↦
            rw (d, splits, sum, length, with_smes)
              (rw (packet_filled available n k 0 e (ground arith)) refl)
        | inr d ↦
            let more = splits rounds sme_size (other_capacity c) (smes - k) (other_capacity c) in
            let full : fitting sme_size (k + sum more) bytes ≡ k = ground (arith) in
            let whole : other_capacity c - 0 * topology_size c ≡ other_capacity c = omega arith in
            let rest : sent_counts c (length more) (other_capacity c) 0 (sum more)
                ≡ only_smes more =
              rw whole at (sent-with_smes rounds (other_capacity c) 0 (smes - k) ho (omega arith))
              ∙ with_smes-zero more
                  (splits-pos rounds sme_size (other_capacity c) (smes - k) (other_capacity c)) in
            rw (d, splits, sum, length, with_smes)
              (rw (packet_filled available n k (sum more) e full) (ap (λ t. (n, k) ∷ t) rest))
      ]

  sent_step :
      (count available topologies smes : ℕ) {packet : ℕ × ℕ} {topologies' smes' : ℕ}
      → packet_counts c available topologies smes ≡ (packet, topologies', smes')
      → sent_counts c (suc count) available topologies smes
        ≡ packet ∷ sent_counts c count (other_capacity c) topologies' smes'
  unfolding sent_counts
  sent_step count available topologies smes e = rw e refl

  -- The packets that are filled are the ones that were planned.
  pub sent-merge :
      (rounds rounds' topologies available smes : ℕ)
      → 0 < topology_size c
      → topology_size c ≤ other_capacity c
      → sme_size ≤ other_capacity c
      → let counts = splits rounds (topology_size c) (other_capacity c) topologies available in
        let left = bytes_left rounds (topology_size c) (other_capacity c) topologies available in
        let smes_counts = splits rounds' sme_size (other_capacity c) smes left in
        sent_counts c
          (length counts + length smes_counts - 1)
          available
          (sum counts)
          (sum smes_counts)
        ≡ merge counts smes_counts
  unfolding splits sum bytes_left merge
  sent-merge zero rounds' topologies available smes hs ht ho =
      let size = topology_size c in
      let n = fitting size topologies available in
      let ss = splits rounds' sme_size (other_capacity c) smes (available - n * size) in
      let e₁ : 1 + length ss - 1 ≡ length ss = omega arith in
      let e₂ : n + 0 ≡ n = omega arith in
      rw (e₁, e₂) (sent-with_smes rounds' available n smes ho (omega arith))
  sent-merge (suc rounds) rounds' topologies available smes hs ht ho =
      let size = topology_size c in
      let other = other_capacity c in
      let n = fitting size topologies available in
      elim (Bool-cases (topologies - n == 0)) [
        | inl d ↦
            let ss = splits rounds' sme_size other smes (available - n * size) in
            let e₁ : 1 + length ss - 1 ≡ length ss = omega arith in
            let e₂ : n + 0 ≡ n = omega arith in
            rw (d, splits, sum, bytes_left, length, merge)
              (rw (e₁, e₂) (sent-with_smes rounds' available n smes ho (omega arith)))
        | inr d ↦
            let more = splits rounds size other (topologies - n) other in
            let left = bytes_left rounds size other (topologies - n) other in
            let ss = splits rounds' sme_size other smes left in
            let pos = sum-pos rounds size other (topologies - n) hs ht (ground arith) in
            let some_more = splits-pos rounds size other (topologies - n) other in
            let e₁ : suc (length more) + length ss - 1 ≡ suc (length more + length ss - 1) =
              omega (arith, some_more) in
            let e₂ : n + sum more - n ≡ sum more = omega arith in
            let packet : packet_counts c available (n + sum more) (sum ss)
                ≡ ((n, 0), sum more, sum ss) =
              packet_more available (n + sum more) n (sum ss) (ground arith) (omega (arith, pos))
              ∙ ap (λ k. ((n, 0), k, sum ss)) e₂ in
            rw (d, splits, sum, bytes_left, length)
              (ap (λ k. sent_counts c k available (n + sum more) (sum ss)) e₁
                ∙ sent_step (length more + length ss - 1) available (n + sum more) (sum ss) packet
                ∙ ap (λ t. (n, 0) ∷ t)
                    (sent-merge rounds rounds' (topologies - n) other smes hs ht ho)
                ∙ sym (merge_more n more ss some_more))
      ]
