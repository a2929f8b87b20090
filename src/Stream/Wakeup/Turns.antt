-- ===== src/Stream/Wakeup/Turns.antt =====
-- What a queue of wakeup times gives out, after any number of updates.
use tdmh.Base.{ℕ, zero, suc, ◌+◌, ◌*◌, ◌≤◌, ◌<◌, ◌≡◌, refl, ap, subst, List, length, get_or, arith}
use tdmh.Stream.Wakeup.{
  StreamWakeupInfo, StreamQueue, no_wakeup_info, new_stream_queue, set_queue, assign, get_element,
  update_element, update_times,
}
use tdmh.Stream.Wakeup.Order.{time_at, first_le, lowest}
use tdmh.Stream.Wakeup.Run.{
  IsGoing, not_nil, index_after, update_element_lem, update_element-IsGoing, Rises-put_off,
  put_off-PutOff,
}

pub get_element_lem :
    (q : StreamQueue)
    → q.index < length q.queue
    → get_element q ≡ get_or q.queue q.index no_wakeup_info
unfolding get_element
get_element_lem q h = rw (not_nil q.queue q.index h) refl

update_times-IsGoing :
    {container : List StreamWakeupInfo} {t left : ℕ} (k : ℕ) {q : StreamQueue}
    → IsGoing container t (k + left) q
    → IsGoing container t left (update_times k q)
unfolding update_times
update_times-IsGoing {container} {t} {left} zero {q} g =
    let e : 0 + left ≡ left = omega arith in subst (λ n. IsGoing container t n q) e g
update_times-IsGoing {container} {t} {left} (suc k) {q} g =
    let e : suc k + left ≡ suc (k + left) = omega arith in
    update_times-IsGoing k (update_element-IsGoing (subst (λ n. IsGoing container t n q) e g))

-- The front of a queue that was made of a list: no other time is earlier, or later by more than
-- the increment; the next one is not earlier; and each element has the time at which it
-- was in the list, or that time put off by the increment, some number of times.
pub record IsDue (container : List StreamWakeupInfo) (t : ℕ) (q : StreamQueue) : Type 0 where
  pub long : length q.queue ≡ length container
  pub earliest : (j : ℕ) → j < length q.queue → (get_element q).wakeup_time ≤ time_at q.queue j
  pub soon : (j : ℕ) → j < length q.queue → time_at q.queue j ≤ (get_element q).wakeup_time + t
  pub in_order : (get_element q).wakeup_time ≤ (get_element (update_element q)).wakeup_time
  pub turns :
      (j : ℕ)
      → (m : ℕ) × (get_or q.queue j no_wakeup_info ≡ record (get_or container j no_wakeup_info) {
        wakeup_time = time_at container j + m * t;
      })

pub going-IsDue :
    {container : List StreamWakeupInfo} {t left : ℕ} {q : StreamQueue}
    → IsGoing container t (suc left) q
    → IsDue container t q
going-IsDue {q} g =
    let front = ap {A = StreamWakeupInfo} (λ e. e.wakeup_time) (get_element_lem q g.index_lt) in
    let then_index = (Rises-put_off g).1 in
    let g' = update_element-IsGoing g in
    let moved =
      ap {A = StreamQueue} (λ q'. time_at q'.queue q'.index) (update_element_lem q g.index_lt) in
    let next =
      ap {A = StreamWakeupInfo} (λ e. e.wakeup_time)
        (get_element_lem (update_element q) g'.index_lt) in
    record {
      long = g.long;
      earliest = λ j h. omega (arith, front, first_le g.index_lt g.rises j h);
      soon = λ j h. omega (arith, front, g.rises.within j h);
      in_order = omega (
        arith,
        front,
        next,
        moved,
        lowest g.index_lt g.rises (put_off-PutOff g) (index_after q) then_index,
      );
      turns = g.turns;
    }

pub starts-IsGoing :
    (container : List StreamWakeupInfo) (t left : ℕ) (old : StreamQueue)
    → 0 < length container
    → ((i j : ℕ) → i ≤ j → j < length container → time_at container i ≤ time_at container j)
    → ((j : ℕ) → j < length container → time_at container j ≤ time_at container 0 + t)
    → ((j : ℕ) → j < length container → time_at container j + left * t < 18446744073709551616)
    → IsGoing container t left (assign (new_stream_queue container t) old)
unfolding assign new_stream_queue set_queue
starts-IsGoing container t left old some_elements sorted spread no_wrap = record {
  increment = refl;
  long = refl;
  sized = refl;
  index_lt = some_elements;
  rises = record {
    from = λ j k hj hk hn. sorted j k hk hn;
    before = λ j k hk hi. absurd (omega arith);
    round = λ j k hj hk hn. absurd (omega arith);
    within = spread;
  };
  room = no_wrap;
  turns = λ j.
      let e : time_at container j ≡ time_at container j + 0 * t = omega arith in
      (0, ap (λ n. record (get_or container j no_wakeup_info) { wakeup_time = n }) e);
}

-- A queue that is given a list of wakeups, one at least, in the order of their times, which lie
-- within the time increment, and is then updated any number of times, as long as no time
-- wraps: the front has the earliest time of all; every element comes within the increment after
-- it; the front that the next update leaves is not earlier; and each
-- element has its first time, put off by a multiple of the increment.
pub update_times-IsDue :
    (container : List StreamWakeupInfo) (t k : ℕ) (old : StreamQueue)
    → 0 < length container
    → ((i j : ℕ) → i ≤ j → j < length container → time_at container i ≤ time_at container j)
    → ((j : ℕ) → j < length container → time_at container j ≤ time_at container 0 + t)
    → ((j : ℕ) → j < length container → time_at container j + (k + 1) * t < 18446744073709551616)
    → IsDue container t (update_times k (assign (new_stream_queue container t) old))
update_times-IsDue container t k old some_elements sorted spread no_wrap = going-IsDue (
    update_times-IsGoing k
      (starts-IsGoing container t (k + 1) old some_elements sorted spread no_wrap))
