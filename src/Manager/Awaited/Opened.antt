-- ===== src/Manager/Awaited/Opened.antt =====
-- A stream that waits to be opened is open once a schedule with it is applied.
use tdmh.Base.{
  ℕ, ◌≡◌, refl, sym, subst, ◌∙◌, Map, lookup, nat_keyed, lookup-erase, lookup_same, List, [], ◌∷◌,
  All, none, some, Bool, true, false, ◌&&◌, ◌||◌, ◌==◌, if◌then◌else◌, if_false, arith,
}
use tdmh.Stream.Params.{StreamId, get_key, id_keyed}
use tdmh.Scheduler.Element.{ScheduleElement}
use tdmh.Endpoint.Machine.{added_stream, removed_stream}
use tdmh.Endpoint.Socket.{reset_counters}
use tdmh.Manager.{
  ManagerConfig, a_stream, StreamManager, on_stream, free_client_port, remove_stream,
}
use tdmh.Manager.Calls.{quietly}
use tdmh.Manager.Phases.{for_each}
use tdmh.Manager.Schedule.{
  is_mine, apply_element, apply_elements, remove_one, remove_unscheduled, reset_at, apply_schedule,
}
use tdmh.Manager.Tables.{tables, if_cases, option_cases, IfSome, bind-IfSome}
use tdmh.Manager.Kept.{added_stream-Keeps, removed_stream-Keeps}
use tdmh.Manager.Invariant.{one_stream}
use tdmh.Manager.Consistent.{remove_stream-IsConsistent}
use tdmh.Manager.Awaited.{
  Awaits, with_removed-Awaits, on_stream-Awaits, on_awaited-Awaits, added-IsAwaited,
}

abbrev pub is_element : ManagerConfig → StreamId → ScheduleElement → Bool
is_element c id e = is_mine c e.id && get_key e.id == get_key id

-- Whether a schedule has the stream.
unfoldable pub is_scheduled : ManagerConfig → StreamId → List ScheduleElement → Bool
is_scheduled c id [] = false
is_scheduled c id (e ∷ es) = is_element c id e || is_scheduled c id es

module _ (c : ManagerConfig) (id : StreamId) (p : ℕ) where
  pub other_pointer :
      (b : Bool) (j : StreamId) (q : ℕ) (m : StreamManager)
      → Awaits id p b m
      → (get_key j == get_key id) ≡ false
      → lookup j m.streams ≡ some q
      → (q == p) ≡ false
  other_pointer b j q m h other there =
      ground (arith, one_stream (tables m) h.consistent j id p, h.entry)

  apply_element-Awaits :
      (b : Bool) (e : ScheduleElement) (m : StreamManager)
      → Awaits id p b m
      → Awaits id p (is_element c id e || b) (apply_element c e m)
  apply_element-Awaits b e m h = split (is_mine c e.id) (get_key e.id == get_key id) refl
    where
      split :
          (mine same : Bool)
          → (get_key e.id == get_key id) ≡ same
          → Awaits id p (mine && same || b) (
              if mine
              then elim (lookup e.id m.streams) [
                | none ↦ m
                | some q ↦ (on_stream (quietly (added_stream e.params)) q m).0
              ]
              else m)
      split false same s = h
      split true true s =
          rw (lookup_same e.id id m.streams (ground arith), h.entry)
            (on_awaited-Awaits id p b true (quietly (added_stream e.params)) m
              (added_stream-Keeps e.params) (added-IsAwaited id p e.params b) h)
      split true false s =
          option_cases (Awaits id p b) (lookup e.id m.streams) m _ (λ _. h)
            (λ q there.
              on_stream-Awaits id p b _ q m (added_stream-Keeps e.params)
                (other_pointer b e.id q m h s there) h)

  apply_elements-Awaits :
      (b : Bool) (es : List ScheduleElement) (m : StreamManager)
      → Awaits id p b m
      → Awaits id p (is_scheduled c id es || b) (apply_elements c es m)
  unfolding is_scheduled apply_elements
  apply_elements-Awaits b [] m h = h
  apply_elements-Awaits b (e ∷ es) m h =
      subst (λ x. Awaits id p x (apply_elements c (e ∷ es) m)) (ground arith)
        (apply_elements-Awaits (is_element c id e || b) es _ (apply_element-Awaits b e m h))

  remove_stream-Awaits :
      (b : Bool) (j : StreamId) (m : StreamManager)
      → (get_key j == get_key id) ≡ false
      → Awaits id p b m
      → Awaits id p b (remove_stream j m)
  unfolding remove_stream free_client_port
  remove_stream-Awaits b j m other h = record {
    consistent = remove_stream-IsConsistent j m h.consistent;
    entry =
        option_cases (λ (x : StreamManager). lookup id x.streams ≡ some p) (lookup j m.streams) m _
          (λ _. h.entry)
          (λ q _.
            lookup-erase j id m.streams
            ∙ if_false (get_key j == get_key id) none (lookup id m.streams) other
            ∙ h.entry);
    stream = h.stream;
    object =
        option_cases (λ (x : StreamManager). lookup p x.objects ≡ some (a_stream h.stream))
          (lookup j m.streams) m _ (λ _. h.object) (λ q _. h.object);
    status = h.status;
  }

  remove_one-Awaits :
      (b : Bool) (j : StreamId) (m : StreamManager)
      → (get_key j == get_key id) ≡ false
      → Awaits id p b m
      → IfSome (Awaits id p b) (remove_one j m)
  remove_one-Awaits b j m other h =
      option_cases (IfSome (Awaits id p b)) (lookup j m.streams) none _ (λ _. tt)
        (λ q there.
          let m₁ = (on_stream removed_stream q m).0 in
          let h₁ =
            on_stream-Awaits id p b removed_stream q m removed_stream-Keeps
              (other_pointer b j q m h other there) h in
          if_cases (Awaits id p b) (on_stream removed_stream q m).1 (remove_stream j m₁) m₁
            (remove_stream-Awaits b j m₁ other h₁) h₁)

  remove_unscheduled-Awaits :
      (b : Bool) (ids : List StreamId) (m : StreamManager)
      → All (λ j. (get_key j == get_key id) ≡ false) ids
      → Awaits id p b m
      → IfSome (Awaits id p b) (remove_unscheduled ids m)
  unfolding remove_unscheduled
  remove_unscheduled-Awaits b [] m others h = h
  remove_unscheduled-Awaits b (j ∷ js) m others h =
      bind-IfSome (Awaits id p b) (Awaits id p b) (remove_one j m) (remove_unscheduled js)
        (remove_one-Awaits b j m others.0 h)
        (λ m' h'. remove_unscheduled-Awaits b js m' others.1 h')

  reset_each-Awaits :
      (b : Bool) (ps : Map StreamId ℕ) (m : StreamManager)
      → Awaits id p b m
      → Awaits id p b (for_each reset_at ps m)
  unfolding for_each reset_counters
  reset_each-Awaits b [] m h = h
  reset_each-Awaits b ((k, q) ∷ ps) m h = reset_each-Awaits b ps (reset_at q m) (at (q == p) refl)
    where
      at : (same : Bool) → (q == p) ≡ same → Awaits id p b (reset_at q m)
      at false e = on_stream-Awaits id p b (quietly reset_counters) q m (λ s. refl) e h
      at true e =
          let same : q ≡ p = ground arith in
          subst (λ r. Awaits id p b (reset_at r m)) (sym same)
            (on_awaited-Awaits id p b b (quietly reset_counters) m (λ s. refl) (λ s x. x) h)

  pub apply_schedule-Awaits :
      (es : List ScheduleElement) (m : StreamManager)
      → All (λ j. (get_key j == get_key id) ≡ false) m.streams_to_remove
      → Awaits id p false m
      → IfSome (Awaits id p (is_scheduled c id es || false)) (apply_schedule c es m)
  unfolding apply_schedule
  apply_schedule-Awaits es m others h =
      let b = is_scheduled c id es || false in
      bind-IfSome (Awaits id p b) (Awaits id p b)
        (remove_unscheduled m.streams_to_remove (apply_elements c es m)) _
        (remove_unscheduled-Awaits b m.streams_to_remove _ others
          (apply_elements-Awaits false es m h))
        (λ m' h'.
          reset_each-Awaits b m'.streams (record m' { streams_to_remove = [] })
            (with_removed-Awaits id p b [] m' h'))
