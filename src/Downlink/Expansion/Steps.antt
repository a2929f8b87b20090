-- ===== src/Downlink/Expansion/Steps.antt =====
-- What each element adds to the slots of a node.
use tdmh.Base.{
  ℕ, ◌+◌, ◌<◌, ◌≡◌, refl, sym, ap, ◌∙◌, subst, inl, inr, List, [], ◌∷◌, ◌++◌, length, get_elem?,
  elem, Option, some, Bool, true, false, if◌then◌else◌, Bool-cases, All, arith,
}
use tdmh.Stream.Params.{get_key}
use tdmh.Scheduler.Element.{ScheduleElement}
use tdmh.Downlink.Expansion.{
  Action, sleep, send_stream, recv_stream, send_buffer, recv_buffer, ExplicitScheduleElement,
  Config, Expander, asleep, is_sleep, action_of, prepare, play, expand_element,
}
use tdmh.Downlink.Expansion.Plays.{
  length-set_entries, get_elem?-set_entries, falls, Doing, what, slots_of, doing_after, doing,
  expand_list,
}

-- One element more.
pub record Step (c : Config) (e : ScheduleElement) (x y : Expander) : Type 0 where
  pub node : y.node_id ≡ x.node_id
  pub slots : y.schedule_slots ≡ x.schedule_slots
  pub long : length y.explicit_schedule ≡ length x.explicit_schedule
  pub index : y.expansion_index ≡ x.expansion_index + 1
  pub progress : y.expansion_in_progress ≡ x.expansion_in_progress
  pub complete : y.explicit_schedule_complete ≡ x.explicit_schedule_complete
  pub plays :
      (t : ℕ) (d : Doing)
      → t < x.schedule_slots
      → what (get_elem? x.explicit_schedule t) ≡ some d
      → what (get_elem? y.explicit_schedule t) ≡ some (doing_after c x.node_id t e d)

pub record Prepared (x y : Expander) : Type 0 where
  pub node : y.node_id ≡ x.node_id
  pub slots : y.schedule_slots ≡ x.schedule_slots
  pub content : y.explicit_schedule ≡ x.explicit_schedule
  pub index : y.expansion_index ≡ x.expansion_index
  pub progress : y.expansion_in_progress ≡ x.expansion_in_progress
  pub complete : y.explicit_schedule_complete ≡ x.explicit_schedule_complete

unchanged : (x : Expander) → Prepared x x
unchanged x = record {
  node = refl;
  slots = refl;
  content = refl;
  index = refl;
  progress = refl;
  complete = refl;
}

pub prepare-Prepared :
    (a : Action) (e : ScheduleElement) (x : Expander) → Prepared x (prepare a e x).0
prepare-Prepared sleep e x = unchanged x
prepare-Prepared send_stream e x = unchanged x
prepare-Prepared recv_stream e x = unchanged x
prepare-Prepared send_buffer e x = record {
  node = refl;
  slots = refl;
  content = refl;
  index = refl;
  progress = refl;
  complete = refl;
}
prepare-Prepared recv_buffer e x = elim (Bool-cases (elem (get_key e.id) x.buffers)) [
  | inl found ↦ rw found (unchanged x)
  | inr missing ↦ rw missing (record {
    node = refl;
    slots = refl;
    content = refl;
    index = refl;
    progress = refl;
    complete = refl;
  })
]

play-Step :
    (c : Config) (e : ScheduleElement) (x y : Expander) (buffer : Option ℕ)
    → Prepared x y
    → 0 < slots_of c e
    → length x.explicit_schedule ≡ x.schedule_slots
    → Step c e x (play c e (action_of x.node_id e) (y, buffer))
play-Step c e x y buffer p hp long =
    let a = action_of x.node_id e in
    elim (Bool-cases (is_sleep a)) [
      | inl asleep ↦ record {
        node = p.node;
        slots = p.slots;
        long = rw asleep (ap length p.content);
        index = ap (λ n. n + 1) p.index;
        progress = p.progress;
        complete = p.complete;
        plays = λ t d ht before. rw asleep (ap (λ xs. what (get_elem? xs t)) p.content ∙ before);
      }
      | inr awake ↦
          let entry : ExplicitScheduleElement = record {
            action = a;
            stream = some (e.id, e.params);
            buffer = buffer;
          } in
          let same_length : length y.explicit_schedule ≡ y.schedule_slots =
            ap length p.content ∙ long ∙ sym p.slots in
          record {
            node = p.node;
            slots = p.slots;
            long = rw awake (
                length-set_entries y.schedule_slots e.offset (slots_of c e) y.schedule_slots entry
                  y.explicit_schedule
                ∙ ap length p.content);
            index = ap (λ n. n + 1) p.index;
            progress = p.progress;
            complete = p.complete;
            plays = λ t d ht before. rw awake (
                ap what (
                  get_elem?-set_entries y.schedule_slots e.offset (slots_of c e) y.schedule_slots
                    entry y.explicit_schedule t hp same_length (omega arith)
                    (subst (λ n. t < n) (sym p.slots) ht))
                ∙ chosen (falls e.offset (slots_of c e) t) entry (get_elem? y.explicit_schedule t) d
                    (ap (λ xs. what (get_elem? xs t)) p.content ∙ before));
          }
    ]
  where
    chosen :
        (b : Bool) (entry : ExplicitScheduleElement) (o : Option ExplicitScheduleElement)
        (d : Doing)
        → what o ≡ some d
        → what (if b then some entry else o) ≡ some (if b then (entry.action, entry.stream) else d)
    chosen true entry o d h = refl
    chosen false entry o d h = h

-- Some elements more.
pub record Steps (c : Config) (es : List ScheduleElement) (x y : Expander) : Type 0 where
  pub node : y.node_id ≡ x.node_id
  pub slots : y.schedule_slots ≡ x.schedule_slots
  pub long : length y.explicit_schedule ≡ length x.explicit_schedule
  pub plays :
      (t : ℕ) (d : Doing)
      → t < x.schedule_slots
      → what (get_elem? x.explicit_schedule t) ≡ some d
      → what (get_elem? y.explicit_schedule t) ≡ some (doing c x.node_id es t d)

element-Step :
    (c : Config) (e : ScheduleElement) (x : Expander)
    → 0 < slots_of c e
    → length x.explicit_schedule ≡ x.schedule_slots
    → Step c e x (expand_element c e x)
unfolding expand_element
element-Step c e x hp long =
    let a = action_of x.node_id e in
    play-Step c e x (prepare a e x).0 (prepare a e x).1 (prepare-Prepared a e x) hp long

pub list-Steps :
    (c : Config) (es : List ScheduleElement) (x : Expander)
    → All (λ e. 0 < slots_of c e) es
    → length x.explicit_schedule ≡ x.schedule_slots
    → Steps c es x (expand_list c es x)
unfolding expand_list doing
list-Steps c [] x h long = record {
  node = refl;
  slots = refl;
  long = refl;
  plays = λ t d ht before. before;
}
list-Steps c (e ∷ es) x (h, hs) long =
    let y = expand_element c e x in
    let one = element-Step c e x h long in
    let more = list-Steps c es y hs (one.long ∙ long ∙ sym one.slots) in
    record {
      node = more.node ∙ one.node;
      slots = more.slots ∙ one.slots;
      long = more.long ∙ one.long;
      plays = λ t d ht before.
          more.plays t (doing_after c x.node_id t e d) (subst (λ n. t < n) (sym one.slots) ht)
            (one.plays t d ht before)
          ∙ ap (λ n. some (doing c n es t (doing_after c x.node_id t e d))) one.node;
    }

pub element_fields :
    (c : Config) (e : ScheduleElement) (x : Expander)
    → let y = expand_element c e x in
      (y.expansion_index ≡ x.expansion_index + 1)
      × (y.expansion_in_progress ≡ x.expansion_in_progress)
      × (y.explicit_schedule_complete ≡ x.explicit_schedule_complete)
unfolding expand_element
element_fields c e x =
    let p = prepare-Prepared (action_of x.node_id e) e x in
    (ap (λ n. n + 1) p.index, p.progress, p.complete)

pub list_fields :
    (c : Config) (es : List ScheduleElement) (x : Expander)
    → let y = expand_list c es x in
      (y.expansion_index ≡ x.expansion_index + length es)
      × (y.expansion_in_progress ≡ x.expansion_in_progress)
      × (y.explicit_schedule_complete ≡ x.explicit_schedule_complete)
unfolding expand_list
list_fields c [] x = (omega arith, refl, refl)
list_fields c (e ∷ es) x =
    let (i, progress, complete) = element_fields c e x in
    let (i', progress', complete') = list_fields c es (expand_element c e x) in
    (omega (arith, i, i'), progress' ∙ progress, complete' ∙ complete)

pub expand_list-append :
    (c : Config) (es fs : List ScheduleElement) (x : Expander)
    → expand_list c (es ++ fs) x ≡ expand_list c fs (expand_list c es x)
unfolding expand_list
expand_list-append c [] fs x = refl
expand_list-append c (e ∷ es) fs x = expand_list-append c es fs (expand_element c e x)
