-- ===== src/Stream/Wakeup/Scheduler/InTime.antt =====
-- The iterations in the active state wake streams up in the order of time.
use tdmh.Base.{
  ℕ, suc, ◌+◌, ◌*◌, ◌≤◌, ◌<◌, ◌≡◌, refl, sym, ap, subst, ◌∙◌, ◌≢◌, ◌⊎◌, List, ◌∷◌, length,
  length-set, get_or, false, arith,
}
use tdmh.Stream.Wakeup.{
  no_wakeup, StreamWakeupInfo, StreamQueue, no_wakeup_info, get_element, update_element,
}
use tdmh.Stream.Wakeup.Order.{time_at, lowest}
use tdmh.Stream.Wakeup.Run.{IsGoing, put_off-PutOff, update_element_lem}
use tdmh.Stream.Wakeup.Turns.{get_element_lem}
use tdmh.Stream.Wakeup.Scheduler.{
  WakeupScheduler, active, WakeupConfig, WakeupEvent, sleep_until, Call,
}
use tdmh.Stream.Wakeup.Scheduler.Thread.{active_wakeup, iterate}
use tdmh.Stream.Wakeup.Scheduler.Active.{
  IsVoid, Before, IsQuiet, wakes, meanwhile_lem, active_wakeup_lem,
}

-- A list of wakeups as a queue wants it, of which `left` updates may be made.
pub record IsWakeupList (l : List StreamWakeupInfo) (t left : ℕ) : Type 0 where
  pub some_elements : 0 < length l
  pub sorted : (i j : ℕ) → i ≤ j → j < length l → time_at l i ≤ time_at l j
  pub spread : (j : ℕ) → j < length l → time_at l j ≤ time_at l 0 + t
  pub no_wrap : (j : ℕ) → j < length l → time_at l j + left * t < 18446744073709551616
  pub real : (j : ℕ) → j < length l → (get_or l j no_wakeup_info).type ≢ no_wakeup

pub front_real :
    {l : List StreamWakeupInfo} {t left : ℕ} {q : StreamQueue}
    → ((j : ℕ) → j < length l → (get_or l j no_wakeup_info).type ≢ no_wakeup)
    → IsGoing l t left q
    → (get_element q).type ≢ no_wakeup
front_real {l} {q} real g none_there =
    let front = ap {A = StreamWakeupInfo} (λ e. e.type) (get_element_lem q g.index_lt) in
    let (m, turn) = g.turns q.index in
    let there = ap {A = StreamWakeupInfo} (λ e. e.type) turn in
    real q.index (subst (λ n. q.index < n) g.long g.index_lt) (sym there ∙ sym front ∙ none_there)

pub fewer :
    {l : List StreamWakeupInfo} {t left : ℕ} {q : StreamQueue}
    → IsGoing l t (suc left) q
    → IsGoing l t left q
fewer {t} {left} g = record {
  increment = g.increment;
  long = g.long;
  sized = g.sized;
  index_lt = g.index_lt;
  rises = g.rises;
  turns = g.turns;
  room = λ j h.
      let one_more : suc left * t ≡ t + left * t = omega arith in
      omega (arith, g.room j h, one_more);
}

-- After an update no time is earlier than the front was.
pub update-Before :
    {l : List StreamWakeupInfo} {t left : ℕ} {q : StreamQueue}
    → IsGoing l t (suc left) q
    → Before (get_element q).wakeup_time (update_element q)
update-Before {t} {q} g =
    subst (Before (get_element q).wakeup_time) (sym (update_element_lem q g.index_lt)) (λ j h.
      let front = ap {A = StreamWakeupInfo} (λ e. e.wakeup_time) (get_element_lem q g.index_lt) in
      omega (
        arith,
        front,
        lowest g.index_lt g.rises (put_off-PutOff g) j
            (subst (λ n. j < n) (length-set q.queue q.index _) h),
      ))

pub record IsActive (curr next : List StreamWakeupInfo) (t left : ℕ) (s : WakeupScheduler)
    : Type 0 where
  pub in_state : s.state ≡ active
  pub none_new : s.new_schedule_available ≡ false
  pub of_curr : IsGoing curr t left s.schedule_data.curr_wakeup_queue
  pub of_next :
      IsGoing next t left s.schedule_data.next_wakeup_queue
      ⊎ IsVoid s.schedule_data.next_wakeup_queue

-- An iteration is for a wakeup of one of the queues, the earliest of them all: the thread sleeps until its time, and
-- wakes the stream up, if it is for one; and whatever comes later is not before that time.
pub record InTime (s after : WakeupScheduler) (events : List WakeupEvent) : Type 0 where
  pub wakeup : StreamWakeupInfo
  pub taken :
      (wakeup ≡ get_element s.schedule_data.curr_wakeup_queue)
      ⊎ (wakeup ≡ get_element s.schedule_data.next_wakeup_queue)
  pub sleeps : events ≡ sleep_until wakeup.wakeup_time ∷ wakes wakeup wakeup.type
  pub first_of_curr : Before wakeup.wakeup_time s.schedule_data.curr_wakeup_queue
  pub first_of_next : Before wakeup.wakeup_time s.schedule_data.next_wakeup_queue
  pub later_of_curr : Before wakeup.wakeup_time after.schedule_data.curr_wakeup_queue
  pub later_of_next : Before wakeup.wakeup_time after.schedule_data.next_wakeup_queue

abbrev pub Goes :
    List StreamWakeupInfo
    → List StreamWakeupInfo
    → ℕ
    → ℕ
    → WakeupScheduler
    → WakeupScheduler × List WakeupEvent
    → Type 0
Goes curr next t left s (after, events) = InTime s after events × IsActive curr next t left after

module _ (c : WakeupConfig) {curr next : List StreamWakeupInfo} {t left : ℕ} where
  pub goes_lem :
      (tile : ℕ) (calls : List Call) (s s₁ : WakeupScheduler) (e : StreamWakeupInfo)
      → IsQuiet calls
      → iterate c tile calls s ≡ active_wakeup c tile calls e s₁ e.type
      → e.type ≢ no_wakeup
      → ((e ≡ get_element s.schedule_data.curr_wakeup_queue)
          ⊎ (e ≡ get_element s.schedule_data.next_wakeup_queue))
      → Before e.wakeup_time s.schedule_data.curr_wakeup_queue
      → Before e.wakeup_time s.schedule_data.next_wakeup_queue
      → Before e.wakeup_time s₁.schedule_data.curr_wakeup_queue
      → Before e.wakeup_time s₁.schedule_data.next_wakeup_queue
      → IsActive curr next t left s₁
      → Goes curr next t left s (iterate c tile calls s)
  goes_lem tile calls s s₁ e quiet run real taken first_curr first_next later_curr later_next a =
      let (state, available, kept) = meanwhile_lem c calls s₁ quiet in
      let ran = run ∙ active_wakeup_lem c tile calls e s₁ e.type real (available ∙ a.none_new) in
      subst (Goes curr next t left s) (sym ran) (
        record {
          wakeup = e;
          taken = taken;
          sleeps = refl;
          first_of_curr = first_curr;
          first_of_next = first_next;
          later_of_curr =
              subst (λ d. Before e.wakeup_time d.curr_wakeup_queue) (sym kept) later_curr;
          later_of_next =
              subst (λ d. Before e.wakeup_time d.next_wakeup_queue) (sym kept) later_next;
        },
        record {
          in_state = state ∙ a.in_state;
          none_new = available ∙ a.none_new;
          of_curr = subst (λ d. IsGoing curr t left d.curr_wakeup_queue) (sym kept) a.of_curr;
          of_next =
              subst (λ d. IsGoing next t left d.next_wakeup_queue ⊎ IsVoid d.next_wakeup_queue)
                (sym kept) a.of_next;
        },
      )
