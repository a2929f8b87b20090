-- ===== src/Downlink/Expansion/Plays.antt =====
-- What the expansion of a schedule puts into each slot.
use tdmh.Base.{
  ℕ, zero, suc, ◌+◌, ◌-◌, ◌*◌, ◌%◌, ◌≤◌, ◌<◌, ◌≡◌, refl, sym, ap, ◌∙◌, inl, inr, List, [], ◌∷◌,
  length, get_elem?, Option, none, some, Bool, true, false, not, ◌&&◌, ◌==◌, ltb, leb,
  if◌then◌else◌, Bool-cases, arith,
}
use native.Mathlib.Nat.{mod-eq_of_lt, mod-eq-sub-mod}
use tdmh.Stream.Params.{StreamId, StreamParameters}
use tdmh.Scheduler.Element.{ScheduleElement, period_of}
use tdmh.Downlink.Expansion.{
  Action, ExplicitScheduleElement, Config, Expander, is_sleep, action_of, set_entry, set_entries,
  expand_element,
}

length-set_entry :
    (i : ℕ) (entry : ExplicitScheduleElement) (xs : List ExplicitScheduleElement)
    → length (set_entry i entry xs) ≡ length xs
unfolding set_entry
length-set_entry i entry [] = refl
length-set_entry zero entry (x ∷ xs) = refl
length-set_entry (suc i) entry (x ∷ xs) = ap suc (length-set_entry i entry xs)

get_elem?-set_entry :
    (i : ℕ) (entry : ExplicitScheduleElement) (xs : List ExplicitScheduleElement) (t : ℕ)
    → i < length xs
    → get_elem? (set_entry i entry xs) t ≡ (if i == t then some entry else get_elem? xs t)
unfolding set_entry
get_elem?-set_entry i entry [] t h = absurd (omega arith)
get_elem?-set_entry zero entry (x ∷ xs) zero h = refl
get_elem?-set_entry zero entry (x ∷ xs) (suc t) h =
    let other : (0 == suc t) ≡ false = ground arith in rw other refl
get_elem?-set_entry (suc i) entry (x ∷ xs) zero h =
    let other : (suc i == 0) ≡ false = ground arith in rw other refl
get_elem?-set_entry (suc i) entry (x ∷ xs) (suc t) h =
    let same : (suc i == suc t) ≡ (i == t) = ground arith in
    rw same (get_elem?-set_entry i entry xs t (omega arith))

pub length-set_entries :
    (rounds slot period slots : ℕ) (entry : ExplicitScheduleElement)
    (xs : List ExplicitScheduleElement)
    → length (set_entries rounds slot period slots entry xs) ≡ length xs
unfolding set_entries
length-set_entries zero slot period slots entry xs = refl
length-set_entries (suc rounds) slot period slots entry xs = elim (Bool-cases (ltb slot slots)) [
  | inl e ↦
      rw (e, set_entries)
        (length-set_entries rounds (slot + period) period slots entry (set_entry slot entry xs)
          ∙ length-set_entry slot entry xs)
  | inr e ↦ rw (e, set_entries) refl
]

-- A transmission that is first made in one slot is made in another.
abbrev pub falls : ℕ → ℕ → ℕ → Bool
falls offset period t = leb offset t && ((t - offset) % period == 0)

falls_next :
    (slot period t : ℕ)
    → 0 < period
    → falls slot period t ≡ (if falls (slot + period) period t then true else slot == t)
falls_next slot period t h = elim (Bool-cases (leb (slot + period) t)) [
  | inl e ↦
      let later : (t - slot) % period ≡ (t - (slot + period)) % period =
        mod-eq-sub-mod {n = t - slot} {m = period} (ground arith)
        ∙ ap (λ n. n % period)
            (let p : t - slot - period ≡ t - (slot + period) = omega arith in p) in
      ground (arith, later)
  | inr e ↦ elim (Bool-cases (leb slot t)) [
    | inl e' ↦
        let here : (t - slot) % period ≡ t - slot = mod-eq_of_lt (ground arith) in
        ground (arith, here)
    | inr e' ↦ ground arith
  ]
]

pub get_elem?-set_entries :
    (rounds slot period slots : ℕ) (entry : ExplicitScheduleElement)
    (xs : List ExplicitScheduleElement) (t : ℕ)
    → 0 < period
    → length xs ≡ slots
    → slots ≤ slot + rounds
    → t < slots
    → get_elem? (set_entries rounds slot period slots entry xs) t
      ≡ (if falls slot period t then some entry else get_elem? xs t)
unfolding set_entries
get_elem?-set_entries zero slot period slots entry xs t hp hl hr ht =
    let early : leb slot t ≡ false = ground arith in rw early refl
get_elem?-set_entries (suc rounds) slot period slots entry xs t hp hl hr ht =
    elim (Bool-cases (ltb slot slots)) [
      | inl e ↦
          let xs' = set_entry slot entry xs in
          let ih =
            get_elem?-set_entries rounds (slot + period) period slots entry xs' t hp
              (length-set_entry slot entry xs ∙ hl) (omega arith) ht in
          let one = get_elem?-set_entry slot entry xs t (ground (arith, hl)) in
          let next = falls_next slot period t hp in
          rw (e, set_entries)
            (ih
              ∙ ap (λ o. if falls (slot + period) period t then some entry else o) one
              ∙ both_ways (falls (slot + period) period t) (slot == t) entry (get_elem? xs t)
              ∙ ap (λ b. if b then some entry else get_elem? xs t) (sym next))
      | inr e ↦ let early : leb slot t ≡ false = ground arith in rw (e, set_entries) (rw early refl)
    ]
  where
    both_ways :
        (a b : Bool) (entry : ExplicitScheduleElement) (o : Option ExplicitScheduleElement)
        → (if a then some entry else if b then some entry else o)
          ≡ (if (if a then true else b) then some entry else o)
    both_ways true b entry o = refl
    both_ways false b entry o = refl

-- What is done in a slot, and for which stream.
abbrev pub Doing : Type 0
Doing = Action × Option (StreamId × StreamParameters)

abbrev pub what : Option ExplicitScheduleElement → Option Doing
what none = none
what (some entry) = some (entry.action, entry.stream)

abbrev pub slots_of : Config → ScheduleElement → ℕ
slots_of c e = period_of e * c.slots_in_tile

-- What a node does at a time by a schedule: the last of its elements that falls on it.
abbrev pub doing_after : Config → ℕ → ℕ → ScheduleElement → Doing → Doing
doing_after c node t e d =
    if not (is_sleep (action_of node e)) && falls e.offset (slots_of c e) t
    then (action_of node e, some (e.id, e.params))
    else d

unfoldable pub doing : Config → ℕ → List ScheduleElement → ℕ → Doing → Doing
doing c node [] t d = d
doing c node (e ∷ es) t d = doing c node es t (doing_after c node t e d)

-- The elements one after the other.
unfoldable pub expand_list : Config → List ScheduleElement → Expander → Expander
expand_list c [] x = x
expand_list c (e ∷ es) x = expand_list c es (expand_element c e x)
