-- ===== src/Stream/Wakeup/Scheduler/Active.antt =====
-- An iteration in the active state: the earliest wakeup of both queues is the next.
use tdmh.Base.{
  ℕ, suc, ◌≤◌, ◌<◌, ◌≡◌, refl, subst, ◌≢◌, ◌⊎◌, inl, inr, List, [], ◌∷◌, length, Bool, true, false,
  leb, Bool-cases, All, arith,
}
use tdmh.Stream.Wakeup.{
  WakeupInfoType, wakeup_stream, wakeup_downlink, no_wakeup, StreamWakeupInfo, StreamQueue,
  get_element, update_element, is_empty, compare, first, second,
}
use tdmh.Stream.Wakeup.Order.{time_at}
use tdmh.Stream.Wakeup.Run.{IsGoing}
use tdmh.Stream.Wakeup.Turns.{going-IsDue}
use tdmh.Stream.Wakeup.Scheduler.{
  WakeupScheduler, active, WakeupConfig, WakeupEvent, sleep_until, Call, schedule_header,
  wakeup_lists, meanwhile, woken, set_schedule_header, get_next_wakeup_queue, get_next_wakeup_info,
  update_last_used_queue, curr_queue, next_queue,
}
use tdmh.Stream.Wakeup.Scheduler.Thread.{run_active, active_wakeup, iterate}

-- A queue of an empty list.
abbrev pub IsVoid : StreamQueue → Type 0
IsVoid q = (q.queue ≡ []) × (q.queue_size ≡ 0)

going_not_empty :
    {l : List StreamWakeupInfo} {t n : ℕ} {q : StreamQueue} → IsGoing l t n q → is_empty q ≡ false
unfolding is_empty
going_not_empty g = let h = g.index_lt in let e = g.sized in ground arith

abbrev pub Before : ℕ → StreamQueue → Type 0
Before w q = (j : ℕ) → j < length q.queue → w ≤ time_at q.queue j

pub compare_cases :
    {curr next : List StreamWakeupInfo} {t n : ℕ} {q₁ q₂ : StreamQueue}
    → IsGoing curr t (suc n) q₁
    → (IsGoing next t (suc n) q₂ ⊎ IsVoid q₂)
    → (compare q₁ q₂ ≡ first × Before (get_element q₁).wakeup_time q₂)
      ⊎ (compare q₁ q₂ ≡ second
          × (IsGoing next t (suc n) q₂ × Before (get_element q₂).wakeup_time q₁))
unfolding compare is_empty
compare_cases g (inr (nil, none_left)) =
    let e = going_not_empty g in
    inl (
      rw (e, none_left) refl,
      λ j h. let out : j < 0 = subst (λ l. j < length l) nil h in absurd (omega arith),
    )
compare_cases {q₁} {q₂} g (inl g') =
    let e = going_not_empty g in
    let e' = going_not_empty g' in
    elim (Bool-cases (leb (get_element q₁).wakeup_time (get_element q₂).wakeup_time)) [
      | inl le ↦
          let lower : (get_element q₁).wakeup_time ≤ (get_element q₂).wakeup_time = ground arith in
          inl (rw (e, e', le) refl, λ j h. omega (arith, lower, (going-IsDue g').earliest j h))
      | inr gt ↦
          let lower : (get_element q₂).wakeup_time ≤ (get_element q₁).wakeup_time = ground arith in
          inr (rw (e, e', gt) refl, (g', λ j h. omega (arith, lower, (going-IsDue g).earliest j h)))
    ]

pub iterate-curr :
    (c : WakeupConfig) (tile : ℕ) (calls : List Call) (s : WakeupScheduler)
    → s.state ≡ active
    → compare s.schedule_data.curr_wakeup_queue s.schedule_data.next_wakeup_queue ≡ first
    → iterate c tile calls s
      ≡ active_wakeup c tile calls
          (get_element s.schedule_data.curr_wakeup_queue)
          (record s {
            last_used_queue = curr_queue;
            schedule_data = record s.schedule_data {
              curr_wakeup_queue = update_element s.schedule_data.curr_wakeup_queue;
            };
          })
          (get_element s.schedule_data.curr_wakeup_queue).type
unfolding iterate get_next_wakeup_info get_next_wakeup_queue run_active update_last_used_queue
iterate-curr c tile calls s h k = rw (h, k) refl

pub iterate-next :
    (c : WakeupConfig) (tile : ℕ) (calls : List Call) (s : WakeupScheduler)
    → s.state ≡ active
    → compare s.schedule_data.curr_wakeup_queue s.schedule_data.next_wakeup_queue ≡ second
    → iterate c tile calls s
      ≡ active_wakeup c tile calls
          (get_element s.schedule_data.next_wakeup_queue)
          (record s {
            last_used_queue = next_queue;
            schedule_data = record s.schedule_data {
              next_wakeup_queue = update_element s.schedule_data.next_wakeup_queue;
            };
          })
          (get_element s.schedule_data.next_wakeup_queue).type
unfolding iterate get_next_wakeup_info get_next_wakeup_queue run_active update_last_used_queue
iterate-next c tile calls s h k = rw (h, k) refl

-- No new lists come.
abbrev pub is_header : Call → Bool
is_header (schedule_header h) = true
is_header (wakeup_lists tile curr next) = false

abbrev pub IsQuiet : List Call → Type 0
IsQuiet calls = All (λ x. is_header x ≡ true) calls

pub meanwhile_lem :
    (c : WakeupConfig) (calls : List Call) (s : WakeupScheduler)
    → IsQuiet calls
    → ((meanwhile c calls s).state ≡ s.state)
      × ((meanwhile c calls s).new_schedule_available ≡ s.new_schedule_available)
      × ((meanwhile c calls s).schedule_data ≡ s.schedule_data)
unfolding meanwhile set_schedule_header
meanwhile_lem c [] s h = (refl, refl, refl)
meanwhile_lem c (schedule_header x ∷ calls) s (h, hs) =
    meanwhile_lem c calls (set_schedule_header c x s) hs
meanwhile_lem c (wakeup_lists tile curr next ∷ calls) s (h, hs) = absurd (ground arith)

-- What follows the sleep.
abbrev pub wakes : StreamWakeupInfo → WakeupInfoType → List WakeupEvent
wakes e wakeup_stream = woken e
wakes e wakeup_downlink = []
wakes e no_wakeup = []

pub active_wakeup_lem :
    (c : WakeupConfig) (tile : ℕ) (calls : List Call) (e : StreamWakeupInfo) (s : WakeupScheduler)
    (type : WakeupInfoType)
    → type ≢ no_wakeup
    → (meanwhile c calls s).new_schedule_available ≡ false
    → active_wakeup c tile calls e s type
      ≡ (meanwhile c calls s, sleep_until e.wakeup_time ∷ wakes e type)
active_wakeup_lem c tile calls e s wakeup_stream h none_new = refl
active_wakeup_lem c tile calls e s wakeup_downlink h none_new = rw none_new refl
active_wakeup_lem c tile calls e s no_wakeup h none_new = absurd (h refl)
