-- ===== src/Downlink/Network/Whole.antt =====
-- When the pieces that a node has received are the whole of a schedule.
use tdmh.Base.{
  ℕ, zero, suc, ◌+◌, ◌*◌, ◌≤◌, ◌<◌, ◌≡◌, refl, ap, ◌∙◌, inl, inr, List, [], ◌∷◌, ◌++◌, length, take,
  drop, map, get_elem?, none, some, Bool, true, false, All, ◌⊎◌, ◌==◌, arith,
}
use tdmh.Scheduler.Element.{ScheduleElement}
use tdmh.Wire.Schedule.{ScheduleHeader, schedule, get_packet_capacity}
use tdmh.Downlink.Node.Collect.{all_received}
use tdmh.Downlink.Node.Pieces.{collected, collected-all_received}
use tdmh.Downlink.Node.Hears.{pieces}
use tdmh.Downlink.Master.{num_packets, packet_capacity}
use tdmh.Downlink.Network.{Round, plan_of}

abbrev pub heard_flags : List Round → List Bool
heard_flags = map (λ r. r.heard)

-- A round that is heard is the first of those, or comes later.
pub heard_where :
    (before : List Round) (first : Round) (rest : List Round) (p : ℕ)
    → All (λ r. r.heard ≡ false) before
    → get_elem? (heard_flags (before ++ first ∷ rest)) p ≡ some true
    → (p ≡ length before)
      ⊎ ((d : ℕ) × (p ≡ length before + suc d) × (get_elem? (heard_flags rest) d ≡ some true))
heard_where [] first rest zero deaf e = inl refl
heard_where [] first rest (suc d) deaf e = inr (d, omega arith, e)
heard_where (r ∷ before) first rest zero (was_not, deaf) e = absurd (grind (arith, e, was_not))
heard_where (r ∷ before) first rest (suc p) (was_not, deaf) e =
    elim (heard_where before first rest p deaf e) [
      | inl q ↦ inl (ap suc q)
      | inr (d, q, e') ↦ inr (d, omega (arith, q), e')
    ]

pub all_received_lem :
    (counts : List ℕ)
    → ((j : ℕ) → j < length counts → (c : ℕ) × (get_elem? counts j ≡ some (suc c)))
    → all_received counts ≡ true
unfolding all_received
all_received_lem [] h = refl
all_received_lem (count ∷ counts) h =
    let (c, e) = h 0 (omega arith) in
    let here : count ≡ suc c = ap (λ o. elim o [ none ↦ 0 | some x ↦ x ]) e in
    let some_here : (count == 0) ≡ false = ground (arith, here) in
    rw some_here (all_received_lem counts (λ j hj. h (suc j) (omega (arith, hj))))

map-take : (n : ℕ) (xs : List ScheduleElement) → map schedule (take n xs) ≡ take n (map schedule xs)
map-take zero xs = refl
map-take (suc n) [] = refl
map-take (suc n) (x ∷ xs) = ap (λ l. schedule x ∷ l) (map-take n xs)

map-drop : (n : ℕ) (xs : List ScheduleElement) → map schedule (drop n xs) ≡ drop n (map schedule xs)
map-drop zero xs = refl
map-drop (suc n) [] = refl
map-drop (suc n) (x ∷ xs) = map-drop n xs

length-map : (xs : List ScheduleElement) → length (map schedule xs) ≡ length xs
length-map [] = refl
length-map (x ∷ xs) = ap suc (length-map xs)

take_more : {A : Type 0} (n : ℕ) (xs : List A) → length xs ≤ n → take n xs ≡ xs
take_more zero [] h = refl
take_more (suc n) [] h = refl
take_more zero (x ∷ xs) h = absurd (omega arith)
take_more (suc n) (x ∷ xs) h = ap (λ l. x ∷ l) (take_more n xs (omega arith))

-- Pieces of which none is missing are the schedule.
pub whole :
    (base : ScheduleHeader) (es : List ScheduleElement) (counts : List ℕ)
    → all_received counts ≡ true
    → length counts ≡ num_packets es
    → collected (pieces (plan_of base es)) 0 counts ≡ map schedule es
unfolding packet_capacity get_packet_capacity
whole base es counts h long =
    let cut : (k : ℕ) → pieces (plan_of base es) k ≡ take 8 (drop (8 * k) (map schedule es)) =
      λ k. map-take 8 (drop (8 * k) es) ∙ ap (take 8) (map-drop (8 * k) es) in
    let enough : length (map schedule es) ≤ 8 * length counts =
      omega (arith, long, length-map es) in
    (λ j. collected (λ k. cut k j) 0 counts)
    ∙ collected-all_received 8 (map schedule es) 0 counts h
    ∙ take_more (8 * length counts) (map schedule es) enough
