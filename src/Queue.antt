-- ===== src/Queue.antt =====
-- network_module/util/updatable_queue.h: a queue of keyed values, in which a value is updated
-- in place. `queue` lists the keys, its head being the front of the `std::list`, to which new
-- keys are added; the oldest key is its last one. `data` maps the keys to their values.
pub mod Fifo
pub mod Drain
mod Examples
use tdmh.Base.{
  ℕ, Keyed, Map, lookup, insert, erase, List, [], ◌∷◌, Option, none, some, Bool, true, false,
  length,
}

pub record UpdatableQueue (K V : Type 0) : Type 0 where
  pub entries : Map K V
  pub queue : List K

-- `std::list::back` and `std::list::pop_back`.
module _ {A : Type 0} where
  unfoldable pub back? : List A → Option A
  back? [] = none
  back? (x ∷ []) = some x
  back? (x ∷ y ∷ xs) = back? (y ∷ xs)

  unfoldable pub pop_back : List A → List A
  pop_back [] = []
  pop_back (x ∷ []) = []
  pop_back (x ∷ y ∷ xs) = x ∷ pop_back (y ∷ xs)

-- What `dequeuePair` does: it throws on an empty queue, returns the oldest pair, or follows an
-- iterator that is not there.
pub data Dequeued (K V : Type 0) : Type 0 where
  dequeued : K → V → UpdatableQueue K V → Dequeued K V
  threw dangling : Dequeued K V

pub new_queue : {K V : Type 0} → UpdatableQueue K V
new_queue = record { entries = []; queue = [] }

-- `empty()` of a map.
abbrev is_empty : {A : Type 0} → List A → Bool
is_empty [] = true
is_empty (x ∷ xs) = false

module _ {K V : Type 0} ⦃c : Keyed K⦄ where
  pub enqueue : K → V → UpdatableQueue K V → UpdatableQueue K V
  enqueue k v q = elim (lookup k q.entries) [
    | some old ↦ record q { entries = insert k v q.entries }
    | none ↦ record { entries = insert k v q.entries; queue = k ∷ q.queue }
  ]

  -- The overload with a callback, which sees the old and the new value; `e` is whatever state
  -- the callback changes.
  pub enqueue_notifying :
      {E : Type 0} → K → V → (V → V → E → E) → UpdatableQueue K V → E → UpdatableQueue K V × E
  enqueue_notifying k v f q e = elim (lookup k q.entries) [
    | some old ↦ (record q { entries = insert k v q.entries }, f old v e)
    | none ↦ (record { entries = insert k v q.entries; queue = k ∷ q.queue }, e)
  ]

  take_oldest : Option K → UpdatableQueue K V → Dequeued K V
  take_oldest none q = dangling
  take_oldest (some k) q = elim (lookup k q.entries) [
    | none ↦ dangling
    | some v ↦ dequeued k v (record { entries = erase k q.entries; queue = pop_back q.queue })
  ]

  pub dequeue_pair : UpdatableQueue K V → Dequeued K V
  unfolding take_oldest
  dequeue_pair q = elim (is_empty q.entries) [
    | true ↦ threw
    | false ↦ take_oldest (back? q.queue) q
  ]

  -- `dequeue` differs from `dequeuePair` in that it drops the key.
  abbrev drop_key : Dequeued K V → Option (V × UpdatableQueue K V)
  drop_key (dequeued k v q) = some (v, q)
  drop_key threw = none
  drop_key dangling = none

  unfoldable pub dequeue : UpdatableQueue K V → Option (V × UpdatableQueue K V)
  dequeue q = drop_key (dequeue_pair q)

pub size : {K V : Type 0} → UpdatableQueue K V → ℕ
size q = length q.entries

unfoldable pub clear : {K V : Type 0} → UpdatableQueue K V → UpdatableQueue K V
clear q = record { entries = []; queue = [] }
