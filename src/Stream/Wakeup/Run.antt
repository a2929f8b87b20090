-- ===== src/Stream/Wakeup/Run.antt =====
-- A queue that is walked round and round: every wakeup comes in its turn.
use tdmh.Base.{
  ℕ, zero, suc, ◌+◌, ◌*◌, ◌%◌, ◌<◌, ◌≡◌, refl, sym, ap, subst, ◌∙◌, ◌≢◌, ◌⊎◌, inl, inr, List, [],
  ◌∷◌, length, get_or, set, length-set, Bool, true, false, if◌then◌else◌, ◌==◌, ltb, Bool-cases,
  ==_iff, arith,
}
use tdmh.Stream.Wakeup.{
  StreamWakeupInfo, StreamQueue, no_wakeup_info, is_nil, get_element, get_next_element,
  update_index, get_next_index, later, update_element,
}
use tdmh.Stream.Wakeup.Order.{time_at, Rises, PutOff, following, step-Rises}

get_or-set_self :
    (xs : List StreamWakeupInfo) (i : ℕ) (v : StreamWakeupInfo)
    → i < length xs
    → get_or (set xs i v) i no_wakeup_info ≡ v
get_or-set_self [] i v h = absurd (omega arith)
get_or-set_self (x ∷ xs) zero v h = refl
get_or-set_self (x ∷ xs) (suc i) v h = get_or-set_self xs i v (omega arith)

get_or-set_ne :
    (xs : List StreamWakeupInfo) (i j : ℕ) (v : StreamWakeupInfo)
    → j ≢ i
    → get_or (set xs i v) j no_wakeup_info ≡ get_or xs j no_wakeup_info
get_or-set_ne [] i j v h = refl
get_or-set_ne (x ∷ xs) zero zero v h = absurd (h refl)
get_or-set_ne (x ∷ xs) zero (suc j) v h = refl
get_or-set_ne (x ∷ xs) (suc i) zero v h = refl
get_or-set_ne (x ∷ xs) (suc i) (suc j) v h = get_or-set_ne xs i j v (λ e. h (ap suc e))

pub not_nil : (xs : List StreamWakeupInfo) (i : ℕ) → i < length xs → is_nil xs ≡ false
not_nil [] i h = absurd (omega arith)
not_nil (x ∷ xs) i h = refl

-- The front element, put off, and the index after that.
abbrev pub put_off : StreamQueue → List StreamWakeupInfo
put_off q = set q.queue q.index (later q.time_increment (get_or q.queue q.index no_wakeup_info))

abbrev pub index_after : StreamQueue → ℕ
index_after q =
    if ltb (time_at (put_off q) (following q.queue_size q.index)) (time_at (put_off q) q.index)
    then following q.queue_size q.index
    else q.index

index_if :
    (b : Bool) (q : StreamQueue) (i : ℕ)
    → (if b then record q { index = i } else q) ≡ record q { index = if b then i else q.index }
index_if true q i = refl
index_if false q i = refl

pub update_element_lem :
    (q : StreamQueue)
    → q.index < length q.queue
    → update_element q ≡ record q { index = index_after q; queue = put_off q }
unfolding update_element get_element get_next_element update_index get_next_index later
update_element_lem q h =
    let e = not_nil q.queue q.index h in
    let e' =
      not_nil (put_off q) q.index
        (subst (λ n. q.index < n) (sym (length-set q.queue q.index _)) h) in
    rw (e, e')
      (index_if
        (ltb (time_at (put_off q) (following q.queue_size q.index)) (time_at (put_off q) q.index))
        (record q { queue = put_off q }) (following q.queue_size q.index))

-- A queue that was made of a list, and may still be updated `left` times before a time wraps.
pub record IsGoing (container : List StreamWakeupInfo) (t left : ℕ) (q : StreamQueue) : Type 0 where
  pub increment : q.time_increment ≡ t
  pub long : length q.queue ≡ length container
  pub sized : q.queue_size ≡ length q.queue
  pub index_lt : q.index < length q.queue
  pub rises : Rises (length q.queue) t q.index (time_at q.queue)
  pub room : (j : ℕ) → j < length q.queue → time_at q.queue j + left * t < 18446744073709551616
  pub turns :
      (j : ℕ)
      → (m : ℕ) × (get_or q.queue j no_wakeup_info ≡ record (get_or container j no_wakeup_info) {
        wakeup_time = time_at container j + m * t;
      })

module _ {container : List StreamWakeupInfo} {t left : ℕ} {q : StreamQueue}
    (g : IsGoing container t (suc left) q) where
  later_lem :
      get_or (put_off q) q.index no_wakeup_info
      ≡ record (get_or q.queue q.index no_wakeup_info) { wakeup_time = time_at q.queue q.index + t }
  unfolding later
  later_lem =
      let one_more : suc left * t ≡ t + left * t = omega arith in
      let sum : (time_at q.queue q.index + q.time_increment) % 18446744073709551616
          ≡ time_at q.queue q.index + t =
        omega (arith, g.increment, g.room q.index g.index_lt, one_more) in
      get_or-set_self q.queue q.index _ g.index_lt
      ∙ ap (λ n. record (get_or q.queue q.index no_wakeup_info) { wakeup_time = n }) sum

  pub put_off-PutOff : PutOff (length q.queue) t q.index (time_at q.queue) (time_at (put_off q))
  put_off-PutOff = record {
    there = ap (λ e. e.wakeup_time) later_lem;
    else_where = λ j h. ap (λ e. e.wakeup_time) (get_or-set_ne q.queue q.index j _ h);
  }

  value_after :
      (j : ℕ)
      → (j ≡ q.index
          × get_or (put_off q) j no_wakeup_info
            ≡ record (get_or q.queue j no_wakeup_info) { wakeup_time = time_at q.queue j + t })
        ⊎ (j ≢ q.index × get_or (put_off q) j no_wakeup_info ≡ get_or q.queue j no_wakeup_info)
  value_after j = elim (Bool-cases (j == q.index)) [
    | inl e ↦
        let same = (==_iff j q.index).0 e in
        inl (
          same,
          subst
              (λ i.
                get_or (put_off q) i no_wakeup_info
                ≡ record (get_or q.queue i no_wakeup_info) { wakeup_time = time_at q.queue i + t })
              (sym same) later_lem,
        )
    | inr e ↦
        let other : j ≢ q.index = ground arith in
        inr (other, get_or-set_ne q.queue q.index j _ other)
  ]

  turns_after :
      (j : ℕ)
      → (m : ℕ) × (get_or (put_off q) j no_wakeup_info
          ≡ record (get_or container j no_wakeup_info) {
            wakeup_time = time_at container j + m * t;
          })
  turns_after j =
      let (m, e) = g.turns j in
      elim (value_after j) [
        | inl (same, after) ↦
            let sum : (time_at container j + m * t) + t ≡ time_at container j + suc m * t =
              omega arith in
            (
              suc m,
              after
                  ∙ ap {A = StreamWakeupInfo} (λ x. record x { wakeup_time = x.wakeup_time + t }) e
                  ∙ ap (λ n. record (get_or container j no_wakeup_info) { wakeup_time = n }) sum,
            )
        | inr (other, after) ↦ (m, after ∙ e)
      ]

  room_after :
      (j : ℕ) → j < length q.queue → time_at (put_off q) j + left * t < 18446744073709551616
  room_after j h =
      let one_more : suc left * t ≡ t + left * t = omega arith in
      let enough = g.room j h in
      elim (value_after j) [
        | inl (same, after) ↦ omega (arith, ap (λ e. e.wakeup_time) after, enough, one_more)
        | inr (other, after) ↦ omega (arith, ap (λ e. e.wakeup_time) after, enough, one_more)
      ]

  pub Rises-put_off :
      Rises (length q.queue) t (index_after q) (time_at (put_off q))
      × index_after q < length q.queue
  Rises-put_off =
      let f = time_at (put_off q) in
      subst
        (λ n.
          Rises (length q.queue) t
            (if ltb (f (following n q.index)) (f q.index) then following n q.index else q.index) f
          × (if ltb (f (following n q.index)) (f q.index) then following n q.index else q.index)
            < length q.queue)
        (sym g.sized)
        (step-Rises g.index_lt g.rises put_off-PutOff
          (ltb (f (following (length q.queue) q.index)) (f q.index)) refl)

  pub update_element-IsGoing : IsGoing container t left (update_element q)
  update_element-IsGoing =
      let long' = length-set q.queue q.index _ in
      subst (IsGoing container t left) (sym (update_element_lem q g.index_lt)) (record {
        increment = g.increment;
        long = long' ∙ g.long;
        sized = g.sized ∙ sym long';
        index_lt = subst (λ n. index_after q < n) (sym long') Rises-put_off.1;
        rises =
            subst (λ n. Rises n t (index_after q) (time_at (put_off q))) (sym long')
              Rises-put_off.0;
        room = λ j h. room_after j (subst (λ n. j < n) long' h);
        turns = turns_after;
      })
