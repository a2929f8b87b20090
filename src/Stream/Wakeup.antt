-- ===== src/Stream/Wakeup.antt =====
-- stream_wakeup_data.h and stream_queue.h and .cpp: when streams are woken up, in a queue of wakeup
-- times that is walked round and round.
mod Order
mod Run
mod Turns
pub mod Scheduler
mod Examples
use tdmh.Base.{
  ℕ, zero, suc, ◌+◌, ◌%◌, List, [], ◌∷◌, length, get_or, set, map, Bool, true, false, ◌&&◌, ◌==◌,
  ltb, leb, if◌then◌else◌,
}
use tdmh.Stream.Params.{StreamId}

pub data WakeupInfoType : Type 0 where
  wakeup_stream wakeup_downlink no_wakeup : WakeupInfoType

pub record StreamWakeupInfo : Type 0 where
  pub type : WakeupInfoType
  pub id : StreamId
  pub wakeup_time : ℕ

abbrev pub no_wakeup_info : StreamWakeupInfo
no_wakeup_info = record {
  type = no_wakeup;
  id = record { src = 0; dst = 0; src_port = 0; dst_port = 0 };
  wakeup_time = 0;
}

pub record StreamQueue : Type 0 where
  pub index : ℕ
  pub queue_size : ℕ
  pub queue : List StreamWakeupInfo
  pub time_increment : ℕ

-- The constructor for a container leaves the size as it is in an empty queue.
unfoldable pub new_stream_queue : List StreamWakeupInfo → ℕ → StreamQueue
new_stream_queue container t = record {
  index = 0;
  queue_size = 0;
  queue = container;
  time_increment = t;
}

unfoldable pub set_queue : List StreamWakeupInfo → StreamQueue → StreamQueue
set_queue container q = record q { index = 0; queue_size = length container; queue = container }

-- `operator=`.
unfoldable pub assign : StreamQueue → StreamQueue → StreamQueue
unfolding set_queue
assign other q = record (set_queue other.queue q) {
  index = other.index;
  time_increment = other.time_increment;
}

abbrev pub is_nil : List StreamWakeupInfo → Bool
is_nil [] = true
is_nil (x ∷ xs) = false

unfoldable pub get_element : StreamQueue → StreamWakeupInfo
get_element q = if is_nil q.queue then no_wakeup_info else get_or q.queue q.index no_wakeup_info

unfoldable pub get_next_index : StreamQueue → ℕ
get_next_index q = if q.index + 1 == q.queue_size then 0 else q.index + 1

unfoldable pub get_next_element : StreamQueue → StreamWakeupInfo
unfolding get_next_index
get_next_element q =
    if is_nil q.queue then no_wakeup_info else get_or q.queue (get_next_index q) no_wakeup_info

unfoldable pub update_index : StreamQueue → StreamQueue
unfolding get_next_index
update_index q = if is_nil q.queue then q else record q { index = get_next_index q }

-- `wakeupTime += t`, in an `unsigned long long`.
unfoldable pub later : ℕ → StreamWakeupInfo → StreamWakeupInfo
later t e = record e { wakeup_time = (e.wakeup_time + t) % 18446744073709551616 }

abbrev move_on : StreamQueue → StreamQueue
move_on q =
    if ltb (get_next_element q).wakeup_time (get_element q).wakeup_time then update_index q else q

unfoldable pub update_element : StreamQueue → StreamQueue
unfolding get_element get_next_element update_index later
update_element q =
    if is_nil q.queue
    then q
    else move_on (record q { queue = set q.queue q.index (later q.time_increment (get_element q)) })

unfoldable pub apply_time_increment : ℕ → StreamQueue → StreamQueue
unfolding later
apply_time_increment t q = record q { queue = map (later t) q.queue }

unfoldable pub is_empty : StreamQueue → Bool
is_empty q = q.queue_size == 0

pub data Which : Type 0 where
  first second : Which

-- Which of two queues `compare` points to.
unfoldable pub compare : StreamQueue → StreamQueue → Which
unfolding is_empty get_element
compare q₁ q₂ =
    if is_empty q₁ && is_empty q₂
    then first
    else if is_empty q₁
    then second
    else if is_empty q₂
    then first
    else if leb (get_element q₁).wakeup_time (get_element q₂).wakeup_time
    then first
    else second

-- The calls of updateElement.
pub update_times : ℕ → StreamQueue → StreamQueue
update_times zero q = q
update_times (suc k) q = update_times k (update_element q)
