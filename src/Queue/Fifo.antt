-- ===== src/Queue/Fifo.antt =====
-- UpdatableQueue implements a first-in first-out list of pairs with distinct keys, in which a
-- key that is present keeps its place.
use tdmh.Base.{
  suc, ◌≡◌, refl, ap, Keyed, Map, lookup, insert, erase, lookup-insert, lookup-erase, List, [], ◌∷◌,
  ◌++◌, none, some, true, false, ◌==◌, if◌then◌else◌, arith, length, length-insert, length-erase,
  lookup_same, Option-cases, IsOrderedFrom, insert-IsOrderedFrom, erase-IsOrderedFrom, inl, inr,
  ◌∙◌,
}
use tdmh.Queue.{
  UpdatableQueue, enqueue, enqueue_notifying, dequeue_pair, Dequeued, dequeued, threw, back?,
  pop_back, is_empty, size, new_queue,
}

module _ {A : Type 0} where
  back?-append : (xs : List A) (x : A) → back? (xs ++ x ∷ []) ≡ some x
  unfolding back?
  back?-append [] x = refl
  back?-append (y ∷ []) x = refl
  back?-append (y ∷ z ∷ xs) x = back?-append (z ∷ xs) x

  pop_back-append : (xs : List A) (x : A) → pop_back (xs ++ x ∷ []) ≡ xs
  unfolding pop_back
  pop_back-append [] x = refl
  pop_back-append (y ∷ []) x = refl
  pop_back-append (y ∷ z ∷ xs) x = ap (◌∷◌ y) (pop_back-append (z ∷ xs) x)

module _ {K V : Type 0} ⦃c : Keyed K⦄ where
  -- The abstract queue is a list of pairs, oldest first: `put` replaces the value of a key that
  -- is present and adds a new key at the end.
  abbrev pub put : K → V → Map K V → Map K V
  put k v [] = (k, v) ∷ []
  put k v ((j, w) ∷ l) = if c.key j == c.key k then (j, v) ∷ l else (j, w) ∷ put k v l

  abbrev pub Distinct : Map K V → Type 0
  Distinct [] = Unit
  Distinct ((k, v) ∷ l) = (lookup k l ≡ none) × Distinct l

  abbrev pub newest_first : Map K V → List K
  newest_first [] = []
  newest_first ((k, v) ∷ l) = newest_first l ++ k ∷ []

  pub record Represents (q : UpdatableQueue K V) (l : Map K V) : Type 0 where
    pub keys : q.queue ≡ newest_first l
    pub distinct : Distinct l
    pub values : (j : K) → lookup j q.entries ≡ lookup j l
    pub sizes : length q.entries ≡ length l
    pub ordered : IsOrderedFrom 0 q.entries

  lookup-put :
      (k j : K) (v : V) (l : Map K V)
      → lookup j (put k v l) ≡ (if c.key k == c.key j then some v else lookup j l)
  unfolding lookup
  lookup-put k j v [] = refl
  lookup-put k j v ((i, w) ∷ l) = ground (arith, lookup-put k j v l)

  put-Distinct : (k : K) (v : V) (l : Map K V) → Distinct l → Distinct (put k v l)
  unfolding lookup
  put-Distinct k v [] d = (refl, tt)
  put-Distinct k v ((j, w) ∷ l) d = ground (arith, put-Distinct k v l, lookup-put k j v l)

  newest_first-put-some :
      (k : K) (v w : V) (l : Map K V)
      → lookup k l ≡ some w
      → newest_first (put k v l) ≡ newest_first l
  unfolding lookup
  newest_first-put-some k v w [] e = cc
  newest_first-put-some k v w ((j, x) ∷ l) e = ground (arith, newest_first-put-some k v w l)

  newest_first-put-none :
      (k : K) (v : V) (l : Map K V)
      → lookup k l ≡ none
      → newest_first (put k v l) ≡ k ∷ newest_first l
  unfolding lookup
  newest_first-put-none k v [] e = refl
  newest_first-put-none k v ((j, x) ∷ l) e = ground (arith, newest_first-put-none k v l)

  length-put :
      (k : K) (v : V) (l : Map K V)
      → length (put k v l) ≡ elim (lookup k l) [ some w ↦ length l | none ↦ suc (length l) ]
  unfolding lookup
  length-put k v [] = refl
  length-put k v ((j, x) ∷ l) = ground (arith, length-put k v l)

  enqueue_known :
      (k : K) (v w : V) (q : UpdatableQueue K V) (l : Map K V)
      → lookup k q.entries ≡ some w
      → Represents q l
      → Represents (record q { entries = insert k v q.entries }) (put k v l)
  enqueue_known k v w q l e r =
      let here = r.values k in
      record {
        keys = ground (arith, newest_first-put-some k v w l, here);
        distinct = put-Distinct k v l r.distinct;
        values = λ j. ground (arith, lookup-insert k j v q.entries, lookup-put k j v l, r.values j);
        sizes = ground (arith, length-insert 0 k v q.entries r.ordered, length-put k v l, here);
        ordered = insert-IsOrderedFrom 0 k v q.entries (omega arith) r.ordered;
      }

  enqueue_new :
      (k : K) (v : V) (q : UpdatableQueue K V) (l : Map K V)
      → lookup k q.entries ≡ none
      → Represents q l
      → Represents (record { entries = insert k v q.entries; queue = k ∷ q.queue }) (put k v l)
  enqueue_new k v q l e r =
      let here = r.values k in
      record {
        keys = ground (arith, newest_first-put-none k v l, here);
        distinct = put-Distinct k v l r.distinct;
        values = λ j. ground (arith, lookup-insert k j v q.entries, lookup-put k j v l, r.values j);
        sizes = ground (arith, length-insert 0 k v q.entries r.ordered, length-put k v l, here);
        ordered = insert-IsOrderedFrom 0 k v q.entries (omega arith) r.ordered;
      }

  pub enqueue-Represents :
      (k : K) (v : V) (q : UpdatableQueue K V) (l : Map K V)
      → Represents q l
      → Represents (enqueue k v q) (put k v l)
  unfolding enqueue
  enqueue-Represents k v q l r = elim (Option-cases (lookup k q.entries)) [
    | inl e ↦ rw (e, enqueue) (enqueue_new k v q l e r)
    | inr (w, e) ↦ rw (e, enqueue) (enqueue_known k v w q l e r)
  ]

  -- The enqueue with a callback leaves the queue as the plain one does, and the callback runs
  -- exactly when a value is replaced, on that value and the new one.
  pub enqueue_notifying_lem :
      {E : Type 0} (k : K) (v : V) (f : V → V → E → E) (q : UpdatableQueue K V) (e : E)
      → enqueue_notifying k v f q e
        ≡ (enqueue k v q, elim (lookup k q.entries) [ some old ↦ f old v e | none ↦ e ])
  unfolding enqueue enqueue_notifying
  enqueue_notifying_lem k v f q e = ground arith

  nonempty : (k : K) (v : V) (m : Map K V) → lookup k m ≡ some v → is_empty m ≡ false
  unfolding lookup
  nonempty k v [] h = cc
  nonempty k v (x ∷ m) h = refl

  empty_of_length : (m : Map K V) → length m ≡ 0 → is_empty m ≡ true
  empty_of_length [] h = refl
  empty_of_length (x ∷ m) h = absurd (omega arith)

  lookup_head : (k : K) (v : V) (l : Map K V) → lookup k ((k, v) ∷ l) ≡ some v
  unfolding lookup
  lookup_head k v l = ground arith

  tail-values :
      (k j : K) (v : V) (m l : Map K V)
      → lookup j m ≡ lookup j ((k, v) ∷ l)
      → lookup k l ≡ none
      → lookup j (erase k m) ≡ lookup j l
  unfolding lookup
  tail-values k j v m l h d = ground (arith, lookup-erase k j m, lookup_same k j l)

  pop_oldest :
      (k : K) (v : V) (q : UpdatableQueue K V) (l : Map K V)
      → Represents q ((k, v) ∷ l)
      → Represents (record { entries = erase k q.entries; queue = pop_back q.queue }) l
  pop_oldest k v q l r = record {
    keys = rw r.keys (pop_back-append (newest_first l) k);
    distinct = r.distinct.1;
    values = λ j. tail-values k j v q.entries l (r.values j) r.distinct.0;
    sizes =
        omega
          (arith, r.sizes, length-erase 0 k v q.entries r.ordered (r.values k ∙ lookup_head k v l));
    ordered = erase-IsOrderedFrom 0 k q.entries r.ordered;
  }

  -- What dequeuing must give, by the contents of the abstract queue.
  abbrev pub Dequeues : Map K V → Dequeued K V → Type 0
  Dequeues [] d = d ≡ threw
  Dequeues ((k, v) ∷ l) d = (q' : UpdatableQueue K V) × (d ≡ dequeued k v q') × Represents q' l

  pub dequeue_pair-Dequeues :
      (q : UpdatableQueue K V) (l : Map K V) → Represents q l → Dequeues l (dequeue_pair q)
  unfolding dequeue_pair
  dequeue_pair-Dequeues q [] r = rw (empty_of_length q.entries r.sizes, dequeue_pair)
  dequeue_pair-Dequeues q ((k, v) ∷ l) r =
      let found = r.values k ∙ lookup_head k v l in
      let last : back? q.queue ≡ some k = rw r.keys (back?-append (newest_first l) k) in
      (
        record { entries = erase k q.entries; queue = pop_back q.queue },
        ground (arith, found, last, nonempty k v q.entries),
        pop_oldest k v q l r,
      )

  pub size-length : (q : UpdatableQueue K V) (l : Map K V) → Represents q l → size q ≡ length l
  unfolding size
  size-length q l r = r.sizes

  pub new_queue-Represents : Represents new_queue []
  unfolding new_queue lookup
  new_queue-Represents = record {
    keys = refl;
    distinct = tt;
    values = λ j. refl;
    sizes = refl;
    ordered = tt;
  }
