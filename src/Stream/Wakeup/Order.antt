-- ===== src/Stream/Wakeup/Order.antt =====
-- A list of wakeup times that rises from an index on, round to that index.
use tdmh.Base.{
  ℕ, suc, ◌+◌, ◌≤◌, ◌<◌, ◌≡◌, refl, ap, ◌≢◌, ◌⊎◌, inl, inr, List, get_or, if◌then◌else◌, ◌==◌, Bool,
  true, false, subst, sym, Bool-cases, ltb, ==_iff, leb, ◌∙◌, arith,
}
use tdmh.Stream.Wakeup.{StreamWakeupInfo, no_wakeup_info}

abbrev pub time_at : List StreamWakeupInfo → ℕ → ℕ
time_at xs j = (get_or xs j no_wakeup_info).wakeup_time

-- A function that rises from an index on, and round to it, by an increment at most.
pub record Rises (n inc i : ℕ) (f : ℕ → ℕ) : Type 0 where
  pub from : (j k : ℕ) → i ≤ j → j ≤ k → k < n → f j ≤ f k
  pub before : (j k : ℕ) → j ≤ k → k < i → f j ≤ f k
  pub round : (j k : ℕ) → j < i → i ≤ k → k < n → f k ≤ f j
  pub within : (j : ℕ) → j < n → f j ≤ f i + inc

-- One place is put off by the increment.
pub record PutOff (n inc i : ℕ) (f g : ℕ → ℕ) : Type 0 where
  pub there : g i ≡ f i + inc
  pub else_where : (j : ℕ) → j ≢ i → g j ≡ f j

pub first_le : {n inc i : ℕ} {f : ℕ → ℕ} → i < n → Rises n inc i f → (j : ℕ) → j < n → f i ≤ f j
first_le {n} {inc} {i} {f} hi r j hj = elim (Bool-cases (leb i j)) [
  | inl e ↦ r.from i j (omega arith) (ground arith) hj
  | inr e ↦ r.round j i (ground arith) (omega arith) hi
]

abbrev pub following : ℕ → ℕ → ℕ
following n i = if i + 1 == n then 0 else i + 1

following_cases :
    (n i : ℕ) → i < n → (suc i < n × following n i ≡ suc i) ⊎ (suc i ≡ n × following n i ≡ 0)
following_cases n i hi = elim (Bool-cases (i + 1 == n)) [
  | inl e ↦ inr (omega (arith, (==_iff (i + 1) n).0 e), rw e refl)
  | inr e ↦ let one : i + 1 ≡ suc i = omega arith in inl (ground arith, rw e one)
]

module _ {n inc i : ℕ} {f g : ℕ → ℕ} (hi : i < n) (r : Rises n inc i f)
    (p : PutOff n inc i f g) where
  value : (j : ℕ) → (j ≡ i × g j ≡ f i + inc) ⊎ (j ≢ i × g j ≡ f j)
  value j = elim (Bool-cases (j == i)) [
    | inl e ↦ let same = (==_iff j i).0 e in inl (same, ap g same ∙ p.there)
    | inr e ↦ let other : j ≢ i = ground arith in inr (other, p.else_where j other)
  ]

  next-Rises : suc i < n → Rises n inc (suc i) g
  next-Rises h = record {
    from = λ j k hj hk hn. elim (value j) [
      | inl (e, a) ↦ absurd (omega (arith, e))
      | inr (e, a) ↦ elim (value k) [
        | inl (e', b) ↦ absurd (omega (arith, e'))
        | inr (e', b) ↦ omega (arith, a, b, r.from j k (omega arith) hk hn)
      ]
    ];
    before = λ j k hk hi'. elim (value k) [
      | inl (e, b) ↦ elim (value j) [
        | inl (e', a) ↦ omega (arith, a, b)
        | inr (e', a) ↦ omega (arith, a, b, r.within j (omega arith))
      ]
      | inr (e, b) ↦ elim (value j) [
        | inl (e', a) ↦ absurd (ground arith)
        | inr (e', a) ↦ omega (arith, a, b, r.before j k hk (ground arith))
      ]
    ];
    round = λ j k hj hk hn. elim (value k) [
      | inl (e, b) ↦ absurd (omega (arith, e))
      | inr (e, b) ↦ elim (value j) [
        | inl (e', a) ↦ omega (arith, a, b, r.within k hn)
        | inr (e', a) ↦ omega (arith, a, b, r.round j k (ground arith) (omega arith) hn)
      ]
    ];
    within = λ j hj. elim (value (suc i)) [
      | inl (e, b) ↦ absurd (omega (arith, e))
      | inr (e, b) ↦
          let rises = r.from i (suc i) (omega arith) (omega arith) h in
          elim (value j) [
            | inl (e', a) ↦ omega (arith, a, b, rises)
            | inr (e', a) ↦ omega (arith, a, b, rises, r.within j hj)
          ]
    ];
  }

  wrap-Rises : suc i ≡ n → Rises n inc 0 g
  wrap-Rises h = record {
    from = λ j k hj hk hn. elim (value k) [
      | inl (e, b) ↦ elim (value j) [
        | inl (e', a) ↦ omega (arith, a, b)
        | inr (e', a) ↦ omega (arith, a, b, r.within j (omega arith))
      ]
      | inr (e, b) ↦ elim (value j) [
        | inl (e', a) ↦ absurd (ground arith)
        | inr (e', a) ↦ omega (arith, a, b, r.before j k hk (ground arith))
      ]
    ];
    before = λ j k hk hi'. absurd (omega arith);
    round = λ j k hj hk hn. absurd (omega arith);
    within = λ j hj.
        let lowest = first_le hi r 0 (omega arith) in
        elim (value j) [
          | inl (e, a) ↦ elim (value 0) [
            | inl (e', b) ↦ omega (arith, a, b)
            | inr (e', b) ↦ omega (arith, a, b, lowest)
          ]
          | inr (e, a) ↦ elim (value 0) [
            | inl (e', b) ↦ omega (arith, a, b, r.within j hj)
            | inr (e', b) ↦ omega (arith, a, b, lowest, r.within j hj)
          ]
        ];
  }

  -- If all places have the same value then.
  stay-Rises : ((j : ℕ) → j < n → j ≢ i → f i + inc ≤ f j) → Rises n inc i g
  stay-Rises h =
      let same : (j : ℕ) → j < n → g j ≡ f i + inc = λ j hj. elim (value j) [
        | inl (e, a) ↦ a
        | inr (e, a) ↦ omega (arith, a, h j hj e, r.within j hj)
      ] in
      record {
        from = λ j k hj hk hn. omega (arith, same j (omega arith), same k hn);
        before = λ j k hk hi'. omega (arith, same j (omega arith), same k (omega arith));
        round = λ j k hj hk hn. omega (arith, same j (omega arith), same k hn);
        within = λ j hj. omega (arith, same j hj, same i hi);
      }

  pub lowest : (j : ℕ) → j < n → f i ≤ g j
  lowest j hj = elim (value j) [
    | inl (e, a) ↦ omega (arith, a)
    | inr (e, a) ↦ omega (arith, a, first_le hi r j hj)
  ]

  moved-Rises : Rises n inc (following n i) g × following n i < n
  moved-Rises = elim (following_cases n i hi) [
    | inl (h, e) ↦ subst (λ m. Rises n inc m g × m < n) (sym e) (next-Rises h, h)
    | inr (h, e) ↦ subst (λ m. Rises n inc m g × m < n) (sym e) (wrap-Rises h, omega arith)
  ]

  stayed-Rises : g i ≤ g (following n i) → Rises n inc i g
  stayed-Rises h = stay-Rises (λ j hj other. elim (following_cases n i hi) [
    | inl (hn, e) ↦
        let put_off : f i + inc ≤ g (suc i) = omega (arith, p.there, ap g e, h) in
        let same = p.else_where (suc i) (omega arith) in
        elim (Bool-cases (leb i j)) [
          | inl low ↦ omega (arith, put_off, same, r.from (suc i) j (omega arith) (ground arith) hj)
          | inr high ↦
              omega (arith, put_off, same, r.round j (suc i) (ground arith) (omega arith) hn)
        ]
    | inr (hn, e) ↦
        let put_off : f i + inc ≤ g 0 = omega (arith, p.there, ap g e, h) in
        let same = p.else_where 0 (omega arith) in
        omega (arith, put_off, same, r.before 0 j (omega arith) (omega arith))
  ])

  -- The index moves on if the next place has a lower value.
  pub step-Rises :
      (b : Bool)
      → ltb (g (following n i)) (g i) ≡ b
      → Rises n inc (if b then following n i else i) g × (if b then following n i else i) < n
  step-Rises true e = moved-Rises
  step-Rises false e = (stayed-Rises (ground arith), hi)
