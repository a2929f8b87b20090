-- ===== src/Uplink/Allocation/Splits.antt =====
-- How the loops of the sender's plan and of the receiver's check split elements over packets.
use tdmh.Base.{
  ℕ, zero, suc, ◌+◌, ◌-◌, ◌*◌, ◌/◌, ◌≤◌, ◌<◌, ◌≡◌, refl, sym, ap, ◌∙◌, inl, inr, List, [], ◌∷◌,
  length, Option, some, Bool, true, false, not, ◌&&◌, ◌==◌, if◌then◌else◌, Bool-cases, arith,
  ==_iff,
}
use native.Mathlib.Nat.{le-div_iff_mul-le}
use tdmh.Uplink.Allocation.{fit, fitting, check_loop, check_section}

-- How many elements go into each packet.
unfoldable pub splits : ℕ → ℕ → ℕ → ℕ → ℕ → List ℕ
splits zero size other remaining bytes = fitting size remaining bytes ∷ []
splits (suc rounds) size other remaining bytes =
    let n = fitting size remaining bytes in
    elim (remaining - n == 0) [
      | true ↦ n ∷ []
      | false ↦ n ∷ splits rounds size other (remaining - n) other
    ]

unfoldable pub sum : List ℕ → ℕ
sum [] = 0
sum (n ∷ ns) = n + sum ns

-- The bytes left after the last packet.
unfoldable pub bytes_left : ℕ → ℕ → ℕ → ℕ → ℕ → ℕ
bytes_left zero size other remaining bytes = bytes - fitting size remaining bytes * size
bytes_left (suc rounds) size other remaining bytes =
    let n = fitting size remaining bytes in
    elim (remaining - n == 0) [
      | true ↦ bytes - n * size
      | false ↦ bytes_left rounds size other (remaining - n) other
    ]

pub splits-pos :
    (rounds size other remaining bytes : ℕ) → 0 < length (splits rounds size other remaining bytes)
unfolding splits
splits-pos zero size other remaining bytes = omega arith
splits-pos (suc rounds) size other remaining bytes =
    elim (Bool-cases (remaining - fitting size remaining bytes == 0)) [
      | inl e ↦ rw (e, splits) (omega arith)
      | inr e ↦ rw (e, splits) (omega arith)
    ]

pub sum-le :
    (rounds size other remaining bytes : ℕ)
    → sum (splits rounds size other remaining bytes) ≤ remaining
unfolding splits sum
sum-le zero size other remaining bytes = omega arith
sum-le (suc rounds) size other remaining bytes =
    let n = fitting size remaining bytes in
    elim (Bool-cases (remaining - n == 0)) [
      | inl e ↦ rw (e, splits, sum) (omega arith)
      | inr e ↦ rw (e, splits, sum) (omega (arith, sum-le rounds size other (remaining - n) other))
    ]

pub fit-splits :
    (rounds size other remaining bytes packets : ℕ)
    → fit rounds size other remaining bytes packets ≡ (
      remaining - sum (splits rounds size other remaining bytes),
      bytes_left rounds size other remaining bytes,
      packets + length (splits rounds size other remaining bytes) - 1,
    )
unfolding fit splits sum bytes_left
fit-splits zero size other remaining bytes packets = ground arith
fit-splits (suc rounds) size other remaining bytes packets =
    let n = fitting size remaining bytes in
    elim (Bool-cases (remaining - n == 0)) [
      | inl e ↦ rw (e, fit, splits, bytes_left, sum, length) (ground arith)
      | inr e ↦
          rw (e, fit, splits, bytes_left, sum, length)
            (fit-splits rounds size other (remaining - n) other (suc packets)
              ∙ ground (arith, splits-pos rounds size other (remaining - n) other))
    ]

div-pos : (size other : ℕ) → 0 < size → size ≤ other → 0 < other / size
div-pos size other h k = (le-div_iff_mul-le h).1 (omega arith)

pub sum-pos :
    (rounds size other remaining : ℕ)
    → 0 < size
    → size ≤ other
    → 0 < remaining
    → 0 < sum (splits rounds size other remaining other)
unfolding splits sum
sum-pos zero size other remaining hs ho hr = omega (arith, div-pos size other hs ho)
sum-pos (suc rounds) size other remaining hs ho hr =
    elim (Bool-cases (remaining - fitting size remaining other == 0)) [
      | inl e ↦ rw (e, splits, sum) (omega (arith, div-pos size other hs ho))
      | inr e ↦ rw (e, splits, sum) (omega (arith, div-pos size other hs ho))
    ]

-- How many elements the packet `target` has, if `counts` are those of the packets from `packets`
-- on, and `found` else.
unfoldable pub count_at : ℕ → ℕ → List ℕ → ℕ → ℕ
count_at packets target [] found = found
count_at packets target (n ∷ counts) found =
    count_at (suc packets) target counts (if packets == target then n else found)

pub count_at_before :
    (packets target : ℕ) (counts : List ℕ) (found : ℕ)
    → target < packets
    → count_at packets target counts found ≡ found
unfolding count_at
count_at_before packets target [] found h = refl
count_at_before packets target (n ∷ counts) found h =
    let other : (packets == target) ≡ false = ground arith in
    rw other (count_at_before (suc packets) target counts found (omega arith))

module _ (valid : ℕ → Bool) where
  -- What is in the packet that is looked at is valid.
  passes :
      (packets target n found : ℕ) (counts : List ℕ)
      → valid (count_at packets target (n ∷ counts) found) ≡ true
      → (packets == target && not (valid n)) ≡ false
  unfolding count_at
  passes packets target n found counts h = elim (Bool-cases (packets == target)) [
    | inr e ↦ rw e refl
    | inl e ↦
        let same : count_at (suc packets) target counts n ≡ n =
          count_at_before (suc packets) target counts n (ground arith) in
        let ok : valid n ≡ true = rw same at (rw e at h) in rw ok (ground arith)
  ]

  check_last :
      (rounds size other target n bytes packets found : ℕ)
      → valid (count_at packets target (n ∷ []) found) ≡ true
      → fitting size n bytes ≡ n
      → check_loop valid rounds size other target n bytes packets found
        ≡ some (bytes - n * size, packets, if packets == target then n else found)
  unfolding check_loop
  check_last zero size other target n bytes packets found ok e =
      let done : (n - n == 0) ≡ true = ground arith in
      rw (e, passes packets target n found [] ok, done) refl
  check_last (suc rounds) size other target n bytes packets found ok e =
      let done : (n - n == 0) ≡ true = ground arith in
      rw (e, passes packets target n found [] ok) (rw done (rw e refl))

  check_more :
      (rounds size other target remaining n bytes packets found : ℕ) (counts : List ℕ)
      → valid (count_at packets target (n ∷ counts) found) ≡ true
      → fitting size remaining bytes ≡ n
      → n < remaining
      → check_loop valid (suc rounds) size other target remaining bytes packets found
        ≡ check_loop valid rounds size other target
            (remaining - n)
            other
            (suc packets)
            (if packets == target then n else found)
  unfolding check_loop
  check_more rounds size other target remaining n bytes packets found counts ok e h =
      let more : (remaining - n == 0) ≡ false = ground arith in
      rw (e, passes packets target n found counts ok) (rw more (rw e refl))

  check_loop-splits :
      (rounds size other target remaining bytes packets found : ℕ)
      → 0 < size
      → size ≤ other
      → let counts = splits rounds size other remaining bytes in
        valid (count_at packets target counts found) ≡ true
        → check_loop valid rounds size other target (sum counts) bytes packets found
          ≡ some (
            bytes_left rounds size other remaining bytes,
            packets + length counts - 1,
            count_at packets target counts found,
          )
  unfolding splits sum bytes_left count_at
  check_loop-splits zero size other target remaining bytes packets found hs ho ok =
      let n = fitting size remaining bytes in
      let zero_add : n + 0 ≡ n = omega arith in
      let one_less : packets + 1 - 1 ≡ packets = omega arith in
      rw (zero_add, one_less)
        (check_last zero size other target n bytes packets found ok (omega arith))
  check_loop-splits (suc rounds) size other target remaining bytes packets found hs ho ok =
      let n = fitting size remaining bytes in
      elim (Bool-cases (remaining - n == 0)) [
        | inl e ↦
            let zero_add : n + 0 ≡ n = omega arith in
            let one_less : packets + 1 - 1 ≡ packets = omega arith in
            let ok' = rw (e, splits) at ok in
            rw (e, splits, sum, bytes_left, length, count_at)
              (rw (zero_add, one_less)
                (check_last (suc rounds) size other target n bytes packets found ok' (omega arith)))
        | inr e ↦
            let counts = splits rounds size other (remaining - n) other in
            let pos = sum-pos rounds size other (remaining - n) hs ho (ground arith) in
            let drop_n : n + sum counts - n ≡ sum counts = omega arith in
            let next : suc packets + length counts - 1 ≡ packets + suc (length counts) - 1 =
              omega arith in
            let found' = if packets == target then n else found in
            let ok' : valid (count_at packets target (n ∷ counts) found) ≡ true =
              rw (e, splits) at ok in
            let rest : check_loop valid rounds size other target (n + sum counts - n) other
                  (suc packets) found'
                ≡ some (
                  bytes_left rounds size other (remaining - n) other,
                  packets + suc (length counts) - 1,
                  count_at (suc packets) target counts found',
                ) =
              rw (drop_n, sym next)
                (check_loop-splits rounds size other target (remaining - n) other (suc packets)
                  found' hs ho ok') in
            rw (e, splits, sum, bytes_left, length, count_at)
              (check_more rounds size other target (n + sum counts) n bytes packets found counts ok'
                  (ground arith) (omega (arith, pos))
                ∙ rest)
      ]

-- A loop that is skipped would have ended in its first round.
skipped :
    (rounds size other target remaining bytes packets : ℕ)
    → 0 < size
    → size ≤ other
    → let counts = splits rounds size other remaining bytes in
      sum counts ≡ 0
      → ◌≡◌ {A = Option (ℕ × ℕ × ℕ)} (some (bytes, packets, 0)) (
          some (
            bytes_left rounds size other remaining bytes,
            packets + length counts - 1,
            count_at packets target counts 0,
          ))
unfolding count_at
skipped rounds size other target remaining bytes packets hs ho none_left =
    let any : ℕ → Bool = λ _. true in
    let none_found : ℕ = 0 in
    let nothing : (if packets == target then none_found else none_found) ≡ none_found =
      ground arith in
    let same : bytes - 0 * size ≡ bytes = omega arith in
    sym (
      rw (nothing, same) at
        (check_last any rounds size other target 0 bytes packets 0 refl (omega arith)))
    ∙ ap (λ n. check_loop any rounds size other target n bytes packets 0) (sym none_left)
    ∙ check_loop-splits any rounds size other target remaining bytes packets 0 hs ho refl

pub check_section-splits :
    (valid : ℕ → Bool) (rounds size other target remaining bytes packets : ℕ)
    → 0 < size
    → size ≤ other
    → let counts = splits rounds size other remaining bytes in
      valid (count_at packets target counts 0) ≡ true
      → check_section valid rounds size other target (sum counts) bytes packets
        ≡ some (
          bytes_left rounds size other remaining bytes,
          packets + length counts - 1,
          count_at packets target counts 0,
        )
check_section-splits valid rounds size other target remaining bytes packets hs ho ok =
    let counts = splits rounds size other remaining bytes in
    elim (Bool-cases (sum counts == 0)) [
      | inl e ↦ rw e (
          skipped rounds size other target remaining bytes packets hs ho
            ((==_iff (sum counts) 0).0 e))
      | inr e ↦
          rw e (check_loop-splits valid rounds size other target remaining bytes packets 0 hs ho ok)
    ]
