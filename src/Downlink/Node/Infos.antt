-- ===== src/Downlink/Node/Infos.antt =====
-- What applyInfoElements makes of a packet with elements of a schedule and info elements.
use tdmh.Base.{
  ℕ, zero, suc, ◌-◌, ◌≤◌, ◌≡◌, refl, sym, ap, ◌∙◌, inl, inr, List, [], ◌∷◌, ◌++◌, length, take, map,
  some, Bool, true, false, if◌then◌else◌, Bool-cases, All, take-take, take-length, length-take,
  length-append, arith,
}
use tdmh.Scheduler.Element.{ScheduleElement}
use tdmh.Wire.Schedule.{DownlinkElement, schedule, info, response}
use tdmh.Downlink.{Event}
use tdmh.Downlink.Node.{
  Config, is_info, is_response, from_first, pop_one, pop_elements, pop_responses, my_response,
  infos_events, apply_info_elements,
}

pop_one_lem :
    {A : Type 0} (x : A) (xs : List A) → pop_one (x ∷ xs) ≡ some (take (length xs) (x ∷ xs))
unfolding pop_one
pop_one_lem x [] = refl
pop_one_lem x (y ∷ ys) = rw (pop_one_lem y ys) refl

take_all : {A : Type 0} (xs : List A) → take (length xs) xs ≡ xs
take_all [] = refl
take_all (x ∷ xs) = ap (λ l. x ∷ l) (take_all xs)

pub pop_elements_lem :
    {A : Type 0} (n : ℕ) (xs : List A)
    → n ≤ length xs
    → pop_elements n xs ≡ some (take (length xs - n) xs)
unfolding pop_elements
pop_elements_lem zero xs h =
    let e : length xs ≡ length xs - 0 = omega arith in
    ap some (sym (take_all xs) ∙ ap (λ k. take k xs) e)
pop_elements_lem (suc n) [] h = absurd (omega arith)
pop_elements_lem (suc n) (x ∷ xs) h =
    let rest = take (length xs) (x ∷ xs) in
    let long : length rest ≡ length xs = omega (arith, length-take (length xs) (x ∷ xs)) in
    let ih = pop_elements_lem n rest (omega (arith, long)) in
    let same = take-take (length xs - n) (length xs) (x ∷ xs) (omega arith) in
    let one_less : length xs - n ≡ suc (length xs) - suc n = omega arith in
    rw (pop_one_lem x xs, pop_elements)
      (ih
        ∙ ap (λ k. some (take (k - n) rest)) long
        ∙ ap some same
        ∙ ap (λ k. some (take k (x ∷ xs))) one_less)

abbrev pub AreInfos : List DownlinkElement → Type 0
AreInfos = All (λ e. is_info e ≡ true)

from_first_info : (xs : List DownlinkElement) → AreInfos xs → from_first is_info xs ≡ xs
unfolding from_first
from_first_info [] h = refl
from_first_info (schedule e ∷ xs) (e', hs) = absurd (grind (arith, e'))
from_first_info (info e ∷ xs) (e', hs) = refl
from_first_info (response n b ∷ xs) (e', hs) = absurd (grind (arith, e'))

from_first_response : (xs : List DownlinkElement) → AreInfos xs → from_first is_response xs ≡ []
unfolding from_first
from_first_response [] h = refl
from_first_response (schedule e ∷ xs) (e', hs) = from_first_response xs hs
from_first_response (info e ∷ xs) (e', hs) = from_first_response xs hs
from_first_response (response n b ∷ xs) (e', hs) = absurd (grind (arith, e'))

from_first-schedule :
    (test : DownlinkElement → Bool) (es : List ScheduleElement) (xs : List DownlinkElement)
    → ((e : ScheduleElement) → test (schedule e) ≡ false)
    → from_first test (map schedule es ++ xs) ≡ from_first test xs
unfolding from_first
from_first-schedule test [] xs h = refl
from_first-schedule test (e ∷ es) xs h = rw (h e) (from_first-schedule test es xs h)

-- The elements of the schedule are left, whatever is done with the others.
pub apply_info_elements_lem :
    (c : Config) (es : List ScheduleElement) (infos : List DownlinkElement)
    → AreInfos infos
    → (events : List Event) × (apply_info_elements c (map schedule es ++ infos)
        ≡ some (map schedule es, events))
unfolding apply_info_elements
apply_info_elements_lem c es infos h =
    let elements = map schedule es ++ infos in
    let long = length-append (map schedule es) infos in
    let found : from_first is_info elements ≡ infos =
      from_first-schedule is_info es infos (λ e. refl) ∙ from_first_info infos h in
    let no_response : from_first is_response elements ≡ [] =
      from_first-schedule is_response es infos (λ e. refl) ∙ from_first_response infos h in
    let n : length elements - length infos ≡ length (map schedule es) = omega (arith, long) in
    let popped : pop_elements (length infos) elements ≡ some (map schedule es) =
      pop_elements_lem (length infos) elements (omega (arith, long))
      ∙ ap (λ k. some (take k elements)) n
      ∙ ap some (take-length (map schedule es) infos) in
    let none_popped : pop_elements 0 (map schedule es) ≡ some (map schedule es) =
      pop_elements_lem 0 (map schedule es) (omega arith)
      ∙ (let e : length (map schedule es) - 0 ≡ length (map schedule es) = omega arith in
          ap (λ k. some (take k (map schedule es))) e)
      ∙ ap some (take_all (map schedule es)) in
    let left : pop_responses c elements (some (map schedule es)) ≡ some (map schedule es) =
      elim (Bool-cases c.do_master_challenge) [
        | inl e ↦ rw (e, no_response) none_popped
        | inr e ↦ rw e refl
      ] in
    (
      (if c.do_master_challenge then my_response c (from_first is_response elements) else [])
          ++ infos_events infos,
      rw (found, popped) (rw left refl),
    )
