-- ===== src/Downlink/Expansion/Splits.antt =====
-- However many elements are expanded in each downlink slot, the expansion ends, and the node does
-- in each slot what the schedule says.
use tdmh.Base.{
  ℕ, zero, suc, ◌+◌, ◌-◌, ◌*◌, ◌≤◌, ◌<◌, ◌≡◌, refl, sym, ap, ◌∙◌, subst, inl, inr, List, [], ◌∷◌,
  length, take, drop, get_elem?, none, some, Bool, true, false, not, ◌&&◌, ◌==◌, if◌then◌else◌,
  Bool-cases, Option-cases, All, min, length-take, length-drop, take-append-drop, drop-drop, ==_iff,
  arith,
}
use tdmh.Scheduler.Element.{ScheduleElement}
use tdmh.Wire.Schedule.{ScheduleHeader}
use tdmh.Downlink.Expansion.{
  sleep, Config, Expander, asleep, all_asleep, expand_element, expand_some, expand_schedule,
  start_expansion, finish_expansion, continue_expansion, need_to_continue_expansion, continue_times,
}
use tdmh.Downlink.Expansion.Plays.{what, slots_of, doing, expand_list}
use tdmh.Downlink.Expansion.Steps.{list-Steps, element_fields, list_fields, expand_list-append}
use tdmh.Downlink.Master.Rounds.{drop_get, drop_past}

-- The elements that one call expands.
abbrev batch : ℕ → List ScheduleElement → Expander → List ScheduleElement
batch room es x = take room (drop x.expansion_index es)

expand_some_lem :
    (c : Config) (room : ℕ) (es : List ScheduleElement) (x : Expander)
    → expand_some c room es x ≡ expand_list c (batch room es x) x
unfolding expand_some expand_list
expand_some_lem c zero es x = refl
expand_some_lem c (suc room) es x = elim (Option-cases (get_elem? es x.expansion_index)) [
  | inl e ↦ rw (e, expand_some) (rw (drop_past es x.expansion_index e) refl)
  | inr (s, e) ↦
      let y = expand_element c s x in
      let next : y.expansion_index ≡ suc x.expansion_index =
        (element_fields c s x).0
        ∙ (let p : x.expansion_index + 1 ≡ suc x.expansion_index = omega arith in p) in
      rw (e, expand_some)
        (rw (drop_get es x.expansion_index s e)
          (expand_some_lem c room es y ∙ ap (λ i. expand_list c (take room (drop i es)) y) next))
]

abbrev pub finished : Expander → Expander
finished x = record x { explicit_schedule_complete = true; expansion_in_progress = false }

take_more : {A : Type 0} (n : ℕ) (xs : List A) → length xs ≤ n → take n xs ≡ xs
take_more zero [] h = refl
take_more (suc n) [] h = refl
take_more zero (x ∷ xs) h = absurd (omega arith)
take_more (suc n) (x ∷ xs) h = ap (λ l. x ∷ l) (take_more n xs (omega arith))

-- A call on an expansion that is over does nothing.
finished_stays :
    (c : Config) (count : ℕ) (es : List ScheduleElement) (x : Expander)
    → continue_times c count es (finished x) ≡ finished x
unfolding continue_times continue_expansion
finished_stays c zero es x = refl
finished_stays c (suc count) es x = finished_stays c count es x

finish_expansion-cases :
    (last : Bool) (y : Expander)
    → y.explicit_schedule_complete ≡ false
    → finish_expansion (if last then record y { explicit_schedule_complete = true } else y)
      ≡ (if last then finished y else y)
finish_expansion-cases true y h = refl
finish_expansion-cases false y h = rw h refl

-- One call: the batch, and the end if it was the last.
continue_lem :
    (c : Config) (es : List ScheduleElement) (x y : Expander) (last : Bool)
    → x.expansion_in_progress ≡ true
    → x.explicit_schedule_complete ≡ false
    → expand_list c (batch c.expansions_per_slot es x) x ≡ y
    → y.explicit_schedule_complete ≡ false
    → (y.expansion_index == length es) ≡ last
    → continue_expansion c es x ≡ (if last then finished y else y)
unfolding continue_expansion expand_schedule
continue_lem c es x y last progress going run complete e =
    let batched : expand_some c c.expansions_per_slot es x ≡ y =
      expand_some_lem c c.expansions_per_slot es x ∙ run in
    let runs : (x.expansion_in_progress && not x.explicit_schedule_complete) ≡ true =
      ap (λ b. b && not x.explicit_schedule_complete) progress ∙ ap not going in
    ap (λ b. if b then finish_expansion (expand_schedule c es x) else x) runs
    ∙ ap
        (λ z. finish_expansion (
          if z.expansion_index == length es
          then record z { explicit_schedule_complete = true }
          else z))
        batched
    ∙ ap (λ b. finish_expansion (if b then record y { explicit_schedule_complete = true } else y)) e
    ∙ finish_expansion-cases last y complete

module _ (c : Config) (es : List ScheduleElement) (some_room : 0 < c.expansions_per_slot) where
  pub continue_times-finished :
      (count : ℕ) (x : Expander)
      → 0 < count
      → x.expansion_in_progress ≡ true
      → x.explicit_schedule_complete ≡ false
      → x.expansion_index ≤ length es
      → length es ≤ x.expansion_index + count * c.expansions_per_slot
      → continue_times c count es x ≡ finished (expand_list c (drop x.expansion_index es) x)
  unfolding continue_times
  continue_times-finished zero x h progress going within enough = absurd (omega arith)
  continue_times-finished (suc count) x h progress going within enough =
      let room = c.expansions_per_slot in
      let i = x.expansion_index in
      let front = batch room es x in
      let y = expand_list c front x in
      let (index, progress', complete') = list_fields c front x in
      let front_long : length front ≡ min room (length es - i) =
        omega (arith, length-take room (drop i es), length-drop i es) in
      elim (Bool-cases (y.expansion_index == length es)) [
        | inl e ↦
            let reached : y.expansion_index ≡ length es =
              (==_iff y.expansion_index (length es)).0 e in
            let all : front ≡ drop i es =
              take_more room (drop i es)
                (omega (arith, reached, index, front_long, length-drop i es)) in
            ap (continue_times c count es)
              (continue_lem c es x y true progress going refl (complete' ∙ going) e)
            ∙ finished_stays c count es y
            ∙ ap (λ fs. finished (expand_list c fs x)) all
        | inr e ↦
            let index' : y.expansion_index ≡ i + room = ground (arith, index, front_long, within) in
            let rest : drop y.expansion_index es ≡ drop room (drop i es) =
              ap (λ n. drop n es) index' ∙ sym (drop-drop room i es) in
            ap (continue_times c count es)
              (continue_lem c es x y false progress going refl (complete' ∙ going) e)
            ∙ continue_times-finished count y (ground (arith, index, front_long, enough, within))
                (progress' ∙ progress) (complete' ∙ going)
                (omega (arith, index, front_long, within)) (omega (arith, index', enough))
            ∙ ap (λ fs. finished (expand_list c fs y)) rest
            ∙ ap finished (sym (expand_list-append c front (drop room (drop i es)) x))
            ∙ ap (λ fs. finished (expand_list c fs x)) (take-append-drop room (drop i es))
      ]

-- What the expansion of a schedule is, once it is over.
pub record Expanded (c : Config) (h : ScheduleHeader) (node : ℕ) (es : List ScheduleElement)
    (x : Expander) : Type 0 where
  pub over : need_to_continue_expansion x ≡ false
  pub ready : x.expansion_in_progress ≡ false
  pub long : length x.explicit_schedule ≡ h.schedule_tiles * c.slots_in_tile
  pub plays :
      (t : ℕ)
      → t < h.schedule_tiles * c.slots_in_tile
      → what (get_elem? x.explicit_schedule t) ≡ some (doing c node es t (sleep, none))

length-all_asleep : (n : ℕ) → length (all_asleep n) ≡ n
unfolding all_asleep
length-all_asleep zero = refl
length-all_asleep (suc n) = ap suc (length-all_asleep n)

get_elem?-all_asleep : (n t : ℕ) → t < n → get_elem? (all_asleep n) t ≡ some asleep
unfolding all_asleep
get_elem?-all_asleep zero t h = absurd (omega arith)
get_elem?-all_asleep (suc n) zero h = refl
get_elem?-all_asleep (suc n) (suc t) h = get_elem?-all_asleep n t (omega arith)

-- The state in which an expansion begins.
abbrev begun : Config → ScheduleHeader → ℕ → Expander
begun c h node = record {
  node_id = node;
  expansion_in_progress = true;
  explicit_schedule_complete = false;
  expansion_index = 0;
  schedule_slots = h.schedule_tiles * c.slots_in_tile;
  explicit_schedule = all_asleep (h.schedule_tiles * c.slots_in_tile);
  buffers = [];
  forwarded_streams = [];
}

begins :
    (c : Config) (h : ScheduleHeader) (node : ℕ) (x : Expander)
    → x.expansion_in_progress ≡ false
    → start_expansion c h node x ≡ begun c h node
unfolding start_expansion
begins c h node x e = ap (λ b. if b then x else begun c h node) e

-- An expansion is started when none is under way, and some elements are expanded in each call, one
-- at least, of a schedule in which every transmission has a period: after enough calls, as many as
-- there are elements or more, it is over; and in every slot of the schedule the node does what the
-- last element says that falls on the slot and has it act, and nothing if there is none.
pub continue_times-expands :
    (c : Config) (h : ScheduleHeader) (node count : ℕ) (es : List ScheduleElement) (x : Expander)
    → 0 < c.expansions_per_slot
    → All (λ e. 0 < slots_of c e) es
    → x.expansion_in_progress ≡ false
    → 0 < count
    → length es ≤ count * c.expansions_per_slot
    → Expanded c h node es (continue_times c count es (start_expansion c h node x))
unfolding need_to_continue_expansion
continue_times-expands c h node count es x some_room periods idle some_calls enough =
    let x₀ = begun c h node in
    let slots = h.schedule_tiles * c.slots_in_tile in
    let long = length-all_asleep slots in
    let steps = list-Steps c es x₀ periods long in
    let run : continue_times c count es (start_expansion c h node x)
        ≡ finished (expand_list c es x₀) =
      ap (continue_times c count es) (begins c h node x idle)
      ∙ continue_times-finished c es some_room count x₀ some_calls refl refl (omega arith)
          (omega (arith, enough)) in
    subst (Expanded c h node es) (sym run) (record {
      over = refl;
      ready = refl;
      long = steps.long ∙ long;
      plays = λ t ht. steps.plays t (sleep, none) ht (ap what (get_elem?-all_asleep slots t ht));
    })
