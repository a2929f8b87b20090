-- ===== src/Stream/Wakeup/Scheduler/Runs.antt =====
-- Any number of iterations in the active state.
use tdmh.Base.{
  ℕ, suc, ◌+◌, ◌<◌, ◌≡◌, refl, sym, ap, subst, ◌≢◌, ◌⊎◌, inl, inr, List, [], ◌∷◌, length, get_or,
  false, All, arith,
}
use tdmh.Stream.Wakeup.{
  no_wakeup, StreamWakeupInfo, StreamQueue, no_wakeup_info, new_stream_queue, set_queue, assign,
  get_element, update_element,
}
use tdmh.Stream.Wakeup.Run.{IsGoing, update_element-IsGoing}
use tdmh.Stream.Wakeup.Turns.{going-IsDue, starts-IsGoing}
use tdmh.Stream.Wakeup.Scheduler.{
  WakeupScheduler, active, WakeupConfig, Call, curr_queue, next_queue,
}
use tdmh.Stream.Wakeup.Scheduler.Thread.{iterate, iterations}
use tdmh.Stream.Wakeup.Scheduler.Active.{IsVoid, IsQuiet, compare_cases, iterate-curr, iterate-next}
use tdmh.Stream.Wakeup.Scheduler.InTime.{
  IsWakeupList, front_real, fewer, update-Before, IsActive, InTime, Goes, goes_lem,
}

abbrev IsReal : List StreamWakeupInfo → Type 0
IsReal l = (j : ℕ) → j < length l → (get_or l j no_wakeup_info).type ≢ no_wakeup

fewer-IsVoid :
    {l : List StreamWakeupInfo} {t left : ℕ} {q : StreamQueue}
    → (IsGoing l t (suc left) q ⊎ IsVoid q)
    → (IsGoing l t left q ⊎ IsVoid q)
fewer-IsVoid (inl g) = inl (fewer g)
fewer-IsVoid (inr v) = inr v

module _ (c : WakeupConfig) {curr next : List StreamWakeupInfo} {t : ℕ} (real_curr : IsReal curr)
    (real_next : IsReal next) where
  iterate-Goes :
      {left : ℕ} (tile : ℕ) (calls : List Call) (s : WakeupScheduler)
      → IsQuiet calls
      → IsActive curr next t (suc left) s
      → Goes curr next t left s (iterate c tile calls s)
  iterate-Goes {left} tile calls s quiet a =
      let d = s.schedule_data in
      let g = a.of_curr in
      elim (compare_cases g a.of_next) [
        | inl (k, before_next) ↦
            let e = get_element d.curr_wakeup_queue in
            goes_lem c tile calls s
              (record s {
                last_used_queue = curr_queue;
                schedule_data = record d { curr_wakeup_queue = update_element d.curr_wakeup_queue };
              })
              e quiet (iterate-curr c tile calls s a.in_state k) (front_real real_curr g) (inl refl)
              (going-IsDue g).earliest before_next (update-Before g) before_next
              (record {
                in_state = a.in_state;
                none_new = a.none_new;
                of_curr = update_element-IsGoing g;
                of_next = fewer-IsVoid a.of_next;
              })
        | inr (k, (g', before_curr)) ↦
            let e = get_element d.next_wakeup_queue in
            goes_lem c tile calls s
              (record s {
                last_used_queue = next_queue;
                schedule_data = record d { next_wakeup_queue = update_element d.next_wakeup_queue };
              })
              e quiet (iterate-next c tile calls s a.in_state k) (front_real real_next g')
              (inr refl) before_curr (going-IsDue g').earliest before_curr (update-Before g')
              (record {
                in_state = a.in_state;
                none_new = a.none_new;
                of_curr = fewer g;
                of_next = inl (update_element-IsGoing g');
              })
      ]

  iterations-IsActive :
      {left : ℕ} (inputs : List (ℕ × List Call)) (s : WakeupScheduler)
      → All (λ i. IsQuiet i.1) inputs
      → IsActive curr next t (length inputs + left) s
      → IsActive curr next t left (iterations c inputs s)
  unfolding iterations
  iterations-IsActive {left} [] s quiet a =
      let e : 0 + left ≡ left = omega arith in subst (λ n. IsActive curr next t n s) e a
  iterations-IsActive {left} (i ∷ inputs) s (quiet, rest) a =
      let e : length (i ∷ inputs) + left ≡ suc (length inputs + left) = omega arith in
      iterations-IsActive inputs (iterate c i.0 i.1 s).0 rest
        (iterate-Goes i.0 i.1 s quiet (subst (λ n. IsActive curr next t n s) e a)).1

IsWakeupList-IsReal :
    {l : List StreamWakeupInfo} {t left : ℕ} → (IsWakeupList l t left ⊎ (l ≡ [])) → IsReal l
IsWakeupList-IsReal (inl w) = w.real
IsWakeupList-IsReal (inr nil) =
    λ j h. let out : j < 0 = subst (λ l. j < length l) nil h in absurd (omega arith)

starts :
    {l : List StreamWakeupInfo} {t left : ℕ} (old : StreamQueue)
    → IsWakeupList l t left
    → IsGoing l t left (assign (new_stream_queue l t) old)
starts {l} {t} {left} old w =
    starts-IsGoing l t left old w.some_elements w.sorted w.spread w.no_wrap

starts-IsVoid :
    {l : List StreamWakeupInfo} {t left : ℕ} (old : StreamQueue)
    → (IsWakeupList l t left ⊎ (l ≡ []))
    → (IsGoing l t left (assign (new_stream_queue l t) old)
        ⊎ IsVoid (assign (new_stream_queue l t) old))
unfolding assign set_queue new_stream_queue
starts-IsVoid old (inl w) = inl (starts old w)
starts-IsVoid old (inr nil) = inr (nil, ap length nil)

-- The thread is in its active state, with the lists of a schedule in its queues, that of the next
-- superframe perhaps empty, and no new lists: they are in the order of their times, which lie within the duration of the
-- schedule, and as many iterations are made as do not wrap a time; other threads may set the header
-- of a schedule, and no new lists, while it sleeps. After these iterations, the next one takes the
-- earliest wakeup of both queues, sleeps until its time, and wakes the stream up, if it is for one;
-- and whatever is left in the queues is not before that time.
pub iterations-InTime :
    (c : WakeupConfig) (curr next : List StreamWakeupInfo) (t : ℕ) (old_curr old_next : StreamQueue)
    (inputs : List (ℕ × List Call)) (tile : ℕ) (calls : List Call) (s : WakeupScheduler)
    → IsWakeupList curr t (length inputs + 1)
    → (IsWakeupList next t (length inputs + 1) ⊎ (next ≡ []))
    → s.state ≡ active
    → s.new_schedule_available ≡ false
    → s.schedule_data.curr_wakeup_queue ≡ assign (new_stream_queue curr t) old_curr
    → s.schedule_data.next_wakeup_queue ≡ assign (new_stream_queue next t) old_next
    → All (λ i. IsQuiet i.1) inputs
    → IsQuiet calls
    → InTime
        (iterations c inputs s)
        (iterate c tile calls (iterations c inputs s)).0
        (iterate c tile calls (iterations c inputs s)).1
iterations-InTime c curr next t old_curr old_next inputs tile calls s lists lists' in_state none_new
      is_curr is_next quiet quiet_now =
    let start : IsActive curr next t (length inputs + 1) s = record {
      in_state = in_state;
      none_new = none_new;
      of_curr = subst (IsGoing curr t (length inputs + 1)) (sym is_curr) (starts old_curr lists);
      of_next =
          subst (λ q. IsGoing next t (length inputs + 1) q ⊎ IsVoid q) (sym is_next)
            (starts-IsVoid old_next lists');
    } in
    let real_next = IsWakeupList-IsReal lists' in
    (iterate-Goes c lists.real real_next tile calls (iterations c inputs s) quiet_now
      (iterations-IsActive c lists.real real_next inputs s quiet start)).0
