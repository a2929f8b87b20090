-- ===== src/Scheduler/Allocate/Free.antt =====
-- The schedule that scheduleStreams makes is free of conflicts.
use mathlib.Core.List.{append_assoc, append-nil}
use tdmh.Base.{
  ℕ, zero, suc, ◌+◌, ◌-◌, ◌*◌, ◌%◌, ◌^◌, ◌≤◌, ◌<◌, ◌≡◌, refl, sym, ap, subst, ◌∙◌, inl, inr, Links,
  List, [], ◌∷◌, ◌++◌, Option, none, some, true, false, ◌||◌, not, leb, arith, Bool-cases, All,
  All-append,
}
use tdmh.Queue.{pop_back}
use tdmh.Scheduler.Element.{ScheduleElement, set_offset, period_of}
use tdmh.Scheduler.Slots.{Config, check_data_slot}
use tdmh.Scheduler.Conflicts.{
  check_all_conflicts, check_unicity_conflict, check_interference_conflict,
}
use tdmh.Scheduler.Conflicts.Sound.{
  IsSized, IsSupported, IsPlaced, Compatible, check_all_conflicts_iff, product-le,
}
use tdmh.Scheduler.Allocate.{
  Allocation, Block, max_offset, try_offset, find_offset, pop_times, place, search, schedule_block,
  begin_block, schedule_routed, schedule_streams,
}

-- No two elements, each repeated for ever, use a slot together unless they may.
abbrev pub ConflictFree : Config → List ScheduleElement → Type 0
ConflictFree c [] = Unit
ConflictFree c (x ∷ xs) = All (λ y. Compatible c y y.offset x) xs × ConflictFree c xs

module _ (c : Config) where
  ConflictFree-append :
      (xs : List ScheduleElement) (e : ScheduleElement)
      → ConflictFree c xs
      → All (Compatible c e e.offset) xs
      → ConflictFree c (xs ++ e ∷ [])
  ConflictFree-append [] e h k = (tt, tt)
  ConflictFree-append (x ∷ xs) e h k = (
    All-append (λ y. Compatible c y y.offset x) xs (e ∷ []) h.0 (k.0, tt),
    ConflictFree-append xs e h.1 k.1,
  )

  All-pop : (P : ScheduleElement → Type 0) (l : List ScheduleElement) → All P l → All P (pop_back l)
  unfolding pop_back
  All-pop P [] h = tt
  All-pop P (x ∷ []) h = tt
  All-pop P (x ∷ y ∷ l) h = (h.0, All-pop P (y ∷ l) h.1)

  All-append_pop :
      (P : ScheduleElement → Type 0) (xs l : List ScheduleElement)
      → All P (xs ++ l)
      → All P (xs ++ pop_back l)
  All-append_pop P [] l h = All-pop P l h
  All-append_pop P (x ∷ xs) l h = (h.0, All-append_pop P xs l h.1)

  ConflictFree-pop : (l : List ScheduleElement) → ConflictFree c l → ConflictFree c (pop_back l)
  unfolding pop_back
  ConflictFree-pop [] h = tt
  ConflictFree-pop (x ∷ []) h = tt
  ConflictFree-pop (x ∷ y ∷ l) h =
      (All-pop (λ z. Compatible c z z.offset x) (y ∷ l) h.0, ConflictFree-pop (y ∷ l) h.1)

  ConflictFree-append_pop :
      (xs l : List ScheduleElement) → ConflictFree c (xs ++ l) → ConflictFree c (xs ++ pop_back l)
  ConflictFree-append_pop [] l h = ConflictFree-pop l h
  ConflictFree-append_pop (x ∷ xs) l h =
      (All-append_pop (λ z. Compatible c z z.offset x) xs l h.0, ConflictFree-append_pop xs l h.1)

  -- The last offset of the loop is one before the last slot of the period.
  pub max_offset_lem :
      (t : ScheduleElement)
      → IsSized c
      → IsSupported t
      → suc (max_offset c t) ≡ period_of t * c.slots_per_tile
  max_offset_lem t s p =
      let bound = product-le (period_of t) c.slots_per_tile 100 10000 p.supported s.few_slots in
      let pos : 0 < period_of t * c.slots_per_tile = grind (arith, p.repeats, s.some_slots) in
      omega arith

  module _ (current : List ScheduleElement) (sized : IsSized c)
      (placed : All (IsPlaced c) current) where
    -- An offset that the search may give to `t`, beside what is scheduled.
    record IsFree (t : ScheduleElement) (scheduled : List ScheduleElement) (o : ℕ) : Type 0 where
      data_slot : check_data_slot c o ≡ true
      with_current : All (Compatible c t o) current
      with_scheduled : All (Compatible c t o) scheduled

    try_offset-IsFree :
        (scheduled : List ScheduleElement) (t : ScheduleElement) (o : ℕ) (links : Links)
        → IsSupported t
        → All (IsPlaced c) scheduled
        → o < period_of t * c.slots_per_tile
        → check_data_slot c o ≡ true
        → (try_offset c current scheduled t o links).0 ≡ false
        → IsFree t scheduled o
    unfolding try_offset
    try_offset-IsFree scheduled t o links p q lt d e =
        let old = check_all_conflicts_iff c current t o links sized p lt placed in
        let links₁ = (check_all_conflicts c current t o links).1 in
        let new = check_all_conflicts_iff c scheduled t o links₁ sized p lt q in
        record {
          data_slot = d;
          with_current = old.0 (ground arith);
          with_scheduled = new.0 (ground arith);
        }

    find_offset-IsFree :
        (count : ℕ) (scheduled : List ScheduleElement) (t : ScheduleElement) (o r : ℕ)
        (links : Links)
        → IsSupported t
        → All (IsPlaced c) scheduled
        → o + count < period_of t * c.slots_per_tile
        → (find_offset count c current scheduled t o links).0 ≡ some r
        → IsFree t scheduled r × (o ≤ r) × (r < o + count)
    unfolding find_offset
    find_offset-IsFree zero scheduled t o r links p q lt e = absurd (cc e)
    find_offset-IsFree (suc count) scheduled t o r links p q lt e =
        let tried = try_offset c current scheduled t o links in
        let skipped = find_offset-IsFree count scheduled t (suc o) r links p q (omega arith) in
        let refused = find_offset-IsFree count scheduled t (suc o) r tried.1 p q (omega arith) in
        let free = try_offset-IsFree scheduled t o links p q (omega arith) in
        elim (Bool-cases (check_data_slot c o)) [
          | inr control ↦ let (f, lo, hi) = skipped (ground arith) in (f, omega arith, omega arith)
          | inl data_slot ↦ elim (Bool-cases tried.0) [
            | inl conflict ↦
                let (f, lo, hi) = refused (ground arith) in (f, omega arith, omega arith)
            | inr clear ↦
                let here : o ≡ r = ground arith in
                (subst (IsFree t scheduled) here (free data_slot clear), omega arith, omega arith)
          ]
        ]

    find_none :
        (count : ℕ) (scheduled : List ScheduleElement) (t : ScheduleElement) (o : ℕ) (links : Links)
        → count ≡ 0
        → (find_offset count c current scheduled t o links).0 ≡ none
    unfolding find_offset
    find_none zero scheduled t o links z = refl
    find_none (suc count) scheduled t o links z = absurd (omega arith)

    record Good (a : Allocation) : Type 0 where
      all_placed : All (IsPlaced c) a.scheduled
      conflict_free : ConflictFree c (current ++ a.scheduled)
      in_data_slots : All (λ e. check_data_slot c e.offset ≡ true) a.scheduled
      connected : All (λ e. c.has_edge e.tx e.rx ≡ true) a.scheduled

    place_found :
        (t : ScheduleElement) (o : ℕ) (links : Links) (b : Block)
        → Good b.allocation
        → IsSupported t
        → c.has_edge t.tx t.rx ≡ true
        → IsFree t b.allocation.scheduled o
        → o < period_of t * c.slots_per_tile
        → Good (place c t (some o, links) b).allocation
    unfolding place set_offset period_of check_unicity_conflict check_interference_conflict
    place_found t o links b g p edge f lt = record {
      all_placed = All-append (IsPlaced c) scheduled (e ∷ []) g.all_placed (
        record {
          period = record { repeats = p.repeats; supported = p.supported };
          within = rw kept lt;
        },
        tt,
      );
      conflict_free = subst (ConflictFree c) (append_assoc current scheduled (e ∷ [])) (
          ConflictFree-append (current ++ scheduled) e g.conflict_free (
            All-append (Compatible c e e.offset) current scheduled
              (subst (λ n. All (Compatible c t n) current) (sym kept) f.with_current)
              (subst (λ n. All (Compatible c t n) scheduled) (sym kept) f.with_scheduled)));
      in_data_slots =
          All-append (λ x. check_data_slot c x.offset ≡ true) scheduled (e ∷ []) g.in_data_slots
            (rw kept f.data_slot, tt);
      connected =
          All-append (λ x. c.has_edge x.tx x.rx ≡ true) scheduled (e ∷ []) g.connected (edge, tt);
    }
      where
        open b.allocation use {scheduled}

        e : ScheduleElement
        e = set_offset o t

        kept : o % 2 ^ 20 ≡ o
        kept =
            let bound =
              product-le (period_of t) c.slots_per_tile 100 10000 p.supported sized.few_slots in
            omega arith

    place-none :
        (t : ScheduleElement) (links : Links) (b : Block)
        → Good b.allocation
        → Good (place c t (none, links) b).allocation
    unfolding place
    place-none t links b g = record {
      all_placed = g.all_placed;
      conflict_free = g.conflict_free;
      in_data_slots = g.in_data_slots;
      connected = g.connected;
    }

    -- The offset that a search finds is free and within the period.
    search-IsFree :
        (t : ScheduleElement) (b : Block) (o : ℕ)
        → Good b.allocation
        → IsSupported t
        → (search c current t b).0 ≡ some o
        → IsFree t b.allocation.scheduled o × (b.last_offset ≤ o) × (o < max_offset c t)
    search-IsFree t b o g p e = elim (Bool-cases (leb b.last_offset (max_offset c t))) [
      | inl within ↦
          let last : b.last_offset ≤ max_offset c t = ground arith in
          let (f, lo, hi) =
            find_offset-IsFree (max_offset c t - b.last_offset) b.allocation.scheduled t
              b.last_offset o b.allocation.links p g.all_placed
              (omega (arith, max_offset_lem t sized p)) e in
          (f, lo, omega arith)
      | inr past ↦
          let none_left : max_offset c t - b.last_offset ≡ 0 = ground arith in
          absurd (
            cc (
              sym e
              ∙ find_none (max_offset c t - b.last_offset) b.allocation.scheduled t b.last_offset
                  b.allocation.links none_left))
    ]

    place-search :
        (t : ScheduleElement) (b : Block)
        → Good b.allocation
        → IsSupported t
        → c.has_edge t.tx t.rx ≡ true
        → (r : Option ℕ × Links) → search c current t b ≡ r
        → Good (place c t r b).allocation
    place-search t b g p edge (none, links) e = place-none t links b g
    place-search t b g p edge (some o, links) e =
        let (f, _, hi) = search-IsFree t b o g p (ap (λ s. s.0) e) in
        place_found t o links b g p edge f (omega (arith, max_offset_lem t sized p))

    pop_times-Good :
        (n : ℕ) (l : List ScheduleElement) (size : ℕ) (links : Links)
        → Good (record { scheduled = l; new_size = size; links = links })
        → Good (record { scheduled = pop_times n l; new_size = size; links = links })
    pop_times-Good zero l size links g = g
    pop_times-Good (suc n) l size links g = pop_times-Good n (pop_back l) size links (record {
      all_placed = All-pop (IsPlaced c) l g.all_placed;
      conflict_free = ConflictFree-append_pop current l g.conflict_free;
      in_data_slots = All-pop (λ e. check_data_slot c e.offset ≡ true) l g.in_data_slots;
      connected = All-pop (λ e. c.has_edge e.tx e.rx ≡ true) l g.connected;
    })

    schedule_block-Good :
        (last_size : ℕ) (ts : List ScheduleElement) (b : Block)
        → Good b.allocation
        → All IsSupported ts
        → Good (schedule_block c current last_size ts b)
    unfolding schedule_block
    schedule_block-Good last_size [] b g p = g
    schedule_block-Good last_size (t ∷ ts) b g p =
        elim (Bool-cases (b.stream_err || not (c.has_edge t.tx t.rx))) [
          | inl failed ↦
              rw (failed, schedule_block)
                (pop_times-Good b.block_size b.allocation.scheduled last_size b.allocation.links
                  (record {
                    all_placed = g.all_placed;
                    conflict_free = g.conflict_free;
                    in_data_slots = g.in_data_slots;
                    connected = g.connected;
                  }))
          | inr fine ↦
              rw (fine, schedule_block)
                (schedule_block-Good last_size ts (place c t (search c current t b) b)
                  (place-search t b g p.0 (ground arith) (search c current t b) refl) p.1)
        ]

    schedule_routed-Good :
        (streams : List (List ScheduleElement)) (a : Allocation)
        → Good a
        → All (All IsSupported) streams
        → Good (schedule_routed c current streams a)
    unfolding schedule_routed
    schedule_routed-Good [] a g p = g
    schedule_routed-Good (ts ∷ streams) a g p =
        schedule_routed-Good streams (schedule_block c current a.new_size ts (begin_block a))
          (schedule_block-Good a.new_size ts (begin_block a) g p.0) p.1

-- What is promised of a schedule that is added to another.
pub record IsSchedule (c : Config) (current scheduled : List ScheduleElement) : Type 0 where
  pub all_placed : All (IsPlaced c) scheduled
  pub conflict_free : ConflictFree c (current ++ scheduled)
  pub in_data_slots : All (λ e. check_data_slot c e.offset ≡ true) scheduled
  pub connected : All (λ e. c.has_edge e.tx e.rx ≡ true) scheduled

-- For streams of supported periods, and a current schedule that is free of conflicts, the schedule
-- that scheduleStreams returns lies within the periods and starts in data slots, between nodes
-- that are linked, and together with the current one it is free of conflicts: two transmissions,
-- each repeated for ever, use a slot together only where channels are reused and neither disturbs
-- the other.
pub schedule_streams-IsSchedule :
    (c : Config) (routed : List (List ScheduleElement)) (current : List ScheduleElement)
    (sched_size : ℕ) (links : Links)
    → IsSized c
    → All (All IsSupported) routed
    → All (IsPlaced c) current
    → ConflictFree c current
    → IsSchedule c current (schedule_streams c routed current sched_size links).scheduled
unfolding schedule_streams
schedule_streams-IsSchedule c routed current sched_size links s p q free =
    let empty : Allocation = record { scheduled = []; new_size = sched_size; links = links } in
    let good : Good c current s q empty = record {
      all_placed = tt;
      conflict_free = rw (append-nil current) free;
      in_data_slots = tt;
      connected = tt;
    } in
    let done = schedule_routed-Good c current s q routed empty good p in
    record {
      all_placed = done.all_placed;
      conflict_free = done.conflict_free;
      in_data_slots = done.in_data_slots;
      connected = done.connected;
    }
