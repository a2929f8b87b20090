-- ===== src/Queue/Examples.antt =====
-- A queue with the numbers of nodes as its keys.
use tdmh.Base.{ℕ, ◌≡◌, refl, nat_keyed, List, [], ◌∷◌, none, some}
use tdmh.Queue.{UpdatableQueue, new_queue, enqueue, size}
use tdmh.Queue.Fifo.{Represents, enqueue-Represents, new_queue-Represents}
use tdmh.Queue.Drain.{Call, enqueues, dequeues, run, run_list, run-new_queue, drain, drain-size}

-- The update of 3 keeps its place, before 4.
abbrev calls : List (Call ℕ ℕ)
calls = enqueues 3 30 ∷ enqueues 4 40 ∷ enqueues 3 31 ∷ dequeues ∷ dequeues ∷ dequeues ∷ []

run-new_queue_example : run calls new_queue ≡ run_list calls []
run-new_queue_example = run-new_queue calls

run_list_run : run_list calls [] ≡ some (some (3, 31)) ∷ some (some (4, 40)) ∷ some none ∷ []
run_list_run = refl

abbrev two : UpdatableQueue ℕ ℕ
two = enqueue 4 40 (enqueue 3 30 new_queue)

two-Represents : Represents two ((3, 30) ∷ (4, 40) ∷ [])
two-Represents =
    enqueue-Represents 4 40 (enqueue 3 30 new_queue) ((3, 30) ∷ [])
      (enqueue-Represents 3 30 new_queue [] new_queue-Represents)

drain-size_example :
    (q' : UpdatableQueue ℕ ℕ) × (drain (size two) two ≡ some (30 ∷ 40 ∷ [], q')) × Represents q' []
drain-size_example = drain-size two ((3, 30) ∷ (4, 40) ∷ []) two-Represents
