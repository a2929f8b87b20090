-- ===== src/Queue/Drain.antt =====
-- Sequences of calls on an UpdatableQueue, and the loops that empty one, as in
-- NetworkTopology::handleTopologies and StreamCollection::receiveSMEs.
use tdmh.Base.{
  ℕ, zero, suc, ◌≡◌, refl, ap, Keyed, Map, List, [], ◌∷◌, Option, none, some, arith, length, map,
}
use tdmh.Queue.{
  UpdatableQueue, enqueue, dequeue, dequeue_pair, Dequeued, dequeued, threw, dangling, size,
  new_queue,
}
use tdmh.Queue.Fifo.{
  put, Represents, enqueue-Represents, dequeue_pair-Dequeues, size-length, new_queue-Represents,
}

pub data Call (K V : Type 0) : Type 0 where
  enqueues : K → V → Call K V
  dequeues : Call K V

-- What a dequeue returns: a pair, or nothing where it throws.
abbrev pub Answer : Type 0 → Type 0 → Type 0
Answer K V = Option (K × V)

module _ {K V : Type 0} ⦃c : Keyed K⦄ where
  after : Dequeued K V → UpdatableQueue K V → UpdatableQueue K V
  after (dequeued k v q') q = q'
  after threw q = q
  after dangling q = q

  answer : Dequeued K V → Option (Answer K V)
  answer (dequeued k v q') = some (some (k, v))
  answer threw = some none
  answer dangling = none

  -- The answers of a sequence of calls; `none` stands for undefined behaviour.
  pub run : List (Call K V) → UpdatableQueue K V → List (Option (Answer K V))
  run [] q = []
  run (enqueues k v ∷ cs) q = run cs (enqueue k v q)
  run (dequeues ∷ cs) q = let d = dequeue_pair q in answer d ∷ run cs (after d q)

  -- The same calls on the list of pairs.
  abbrev pub run_list : List (Call K V) → Map K V → List (Option (Answer K V))
  run_list [] l = []
  run_list (enqueues k v ∷ cs) l = run_list cs (put k v l)
  run_list (dequeues ∷ cs) [] = some none ∷ run_list cs []
  run_list (dequeues ∷ cs) ((k, v) ∷ l) = some (some (k, v)) ∷ run_list cs l

  run-run_list :
      (cs : List (Call K V)) (q : UpdatableQueue K V) (l : Map K V)
      → Represents q l
      → run cs q ≡ run_list cs l
  unfolding run answer after
  run-run_list [] q l r = refl
  run-run_list (enqueues k v ∷ cs) q l r =
      run-run_list cs (enqueue k v q) (put k v l) (enqueue-Represents k v q l r)
  run-run_list (dequeues ∷ cs) q [] r =
      rw (dequeue_pair-Dequeues q [] r, run) (ap (◌∷◌ (some none)) (run-run_list cs q [] r))
  run-run_list (dequeues ∷ cs) q ((k, v) ∷ l) r =
      let (q', e, r') = dequeue_pair-Dequeues q ((k, v) ∷ l) r in
      rw e (ap (◌∷◌ (some (some (k, v)))) (run-run_list cs q' l r'))

  -- From the empty queue every sequence of calls answers as the first-in first-out list of
  -- pairs does, and nothing is undefined.
  pub run-new_queue : (cs : List (Call K V)) → run cs new_queue ≡ run_list cs []
  run-new_queue cs = run-run_list cs new_queue [] new_queue-Represents

  -- `n` times `dequeue`; `none` if one of them throws or is undefined.
  unfoldable pub drain : ℕ → UpdatableQueue K V → Option (List V × UpdatableQueue K V)
  drain zero q = some ([], q)
  drain (suc n) q = elim (dequeue q) [
    | none ↦ none
    | some (v, q') ↦ elim (drain n q') [ none ↦ none | some (vs, q'') ↦ some (v ∷ vs, q'') ]
  ]

  drain_lem :
      (n : ℕ) (q : UpdatableQueue K V) (l : Map K V)
      → Represents q l
      → length l ≡ n
      → (q' : UpdatableQueue K V) × (drain n q ≡ some (map (λ e. e.1) l, q')) × Represents q' []
  unfolding drain dequeue
  drain_lem zero q [] r e = (q, refl, r)
  drain_lem zero q (x ∷ l) r e = absurd (omega arith)
  drain_lem (suc n) q [] r e = absurd (omega arith)
  drain_lem (suc n) q ((k, v) ∷ l) r e =
      let (q', d, r') = dequeue_pair-Dequeues q ((k, v) ∷ l) r in
      let (q'', rest, done) = drain_lem n q' l r' (omega arith) in
      (q'', rw (d, drain) (rw (rest, drain)), done)

  -- On a queue that represents a list of pairs, a loop of `size()` rounds of `dequeue` never
  -- throws: it takes out every value, oldest first, and leaves the queue empty.
  pub drain-size :
      (q : UpdatableQueue K V) (l : Map K V)
      → Represents q l
      → (q' : UpdatableQueue K V) × (drain (size q) q ≡ some (map (λ e. e.1) l, q'))
        × Represents q' []
  drain-size q l r = rw (size-length q l r) (drain_lem (length l) q l r refl)
