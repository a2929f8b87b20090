-- ===== src/Stream/Wakeup/Examples.antt =====
-- Two streams that are woken up at the same time, and a downlink slot.
use tdmh.Base.{ℕ, zero, suc, ◌≤◌, ◌<◌, ◌≡◌, refl, List, [], ◌∷◌, map, true, arith}
use tdmh.Stream.Wakeup.{
  StreamWakeupInfo, StreamQueue, wakeup_stream, wakeup_downlink, new_stream_queue, assign,
  set_queue, get_element, get_next_element, get_next_index, update_index, later, update_element,
  update_times, apply_time_increment, is_empty, compare, second,
}
use tdmh.Stream.Wakeup.Order.{time_at}
use tdmh.Stream.Wakeup.Turns.{IsDue, update_times-IsDue}

abbrev stream : ℕ → ℕ → StreamWakeupInfo
stream port time = record {
  type = wakeup_stream;
  id = record { src = 1; dst = 0; src_port = 0; dst_port = port };
  wakeup_time = time;
}

abbrev downlink : ℕ → StreamWakeupInfo
downlink time = record {
  type = wakeup_downlink;
  id = record { src = 0; dst = 0; src_port = 0; dst_port = 0 };
  wakeup_time = time;
}

abbrev wakeups : List StreamWakeupInfo
wakeups = stream 1 10 ∷ stream 2 10 ∷ downlink 110 ∷ []

abbrev old : StreamQueue
old = record { index = 7; queue_size = 0; queue = []; time_increment = 3 }

abbrev queue : StreamQueue
unfolding assign new_stream_queue
queue = assign (new_stream_queue wakeups 100) old

-- The second update leaves the index where it is, since the next time is not lower: the second
-- stream comes twice, before the downlink slot of the same time.
second_stays : map (λ k. (update_times k queue).index) (0 ∷ 1 ∷ 2 ∷ 3 ∷ []) ≡ 0 ∷ 1 ∷ 1 ∷ 2 ∷ []
unfolding queue update_times update_element get_element get_next_element get_next_index update_index
    later set_queue
second_stays = refl

-- A queue that is constructed from a list, and not assigned, says that it is empty.
constructed : is_empty (new_stream_queue wakeups 100) ≡ true
unfolding is_empty new_stream_queue
constructed = refl

put_off_both : compare (apply_time_increment 100 queue) queue ≡ second
unfolding compare apply_time_increment later is_empty get_element set_queue queue
put_off_both = refl

sorted : (i j : ℕ) → i ≤ j → j < 3 → time_at wakeups i ≤ time_at wakeups j
sorted zero zero h h' = omega arith
sorted zero (suc zero) h h' = omega arith
sorted zero (suc (suc zero)) h h' = omega arith
sorted i (suc (suc (suc j))) h h' = absurd (omega arith)
sorted (suc i) zero h h' = absurd (omega arith)
sorted (suc zero) (suc zero) h h' = omega arith
sorted (suc zero) (suc (suc zero)) h h' = omega arith
sorted (suc (suc i)) (suc zero) h h' = absurd (omega arith)
sorted (suc (suc zero)) (suc (suc zero)) h h' = omega arith
sorted (suc (suc (suc i))) (suc (suc zero)) h h' = absurd (omega arith)

at_most : (j : ℕ) → j < 3 → time_at wakeups j ≤ 110
at_most zero h = omega arith
at_most (suc zero) h = omega arith
at_most (suc (suc zero)) h = omega arith
at_most (suc (suc (suc j))) h = absurd (omega arith)

update_times-IsDue_example :
    IsDue wakeups 100 (update_times 5 (assign (new_stream_queue wakeups 100) old))
update_times-IsDue_example =
    update_times-IsDue wakeups 100 5 old (omega arith) sorted (λ j h. omega (arith, at_most j h))
      (λ j h. omega (arith, at_most j h))
