-- ===== src/Manager/Removal/Returns.antt =====
-- applySchedule follows no null pointer when it comes next after setSchedule.
use tdmh.Base.{
  ℕ, ◌≡◌, ◌≢◌, refl, sym, ap, subst, ◌∙◌, Map, lookup, nat_keyed, List, [], ◌∷◌, map, All, All-map,
  lookup-erase, ◌↔◌, none, some, false, ◌==◌, arith,
}
use tdmh.Stream.Params.{StreamId, get_key, id_keyed}
use tdmh.Scheduler.Element.{ScheduleElement}
use tdmh.Wire.Schedule.{ScheduleHeader}
use tdmh.Endpoint.Machine.{removed_stream}
use tdmh.Endpoint.Socket.{◌>>=◌}
use tdmh.Manager.{ManagerConfig, StreamManager, on_stream, free_client_port, remove_stream}
use tdmh.Manager.Schedule.{
  is_mine, set_schedule, apply_element, apply_elements, remove_one, remove_unscheduled, reset_all,
  apply_schedule,
}
use tdmh.Manager.Tables.{
  Tables, tables, on_stream-tables, if_cases, option_cases, IfSome, bind-IfSome, IfSome-map,
}
use tdmh.Manager.Kept.{added_stream-Keeps, removed_stream-Keeps}
use tdmh.Manager.Consistent.{IsConsistent}
use tdmh.Manager.Consistent.Applied.{set_schedule-IsConsistent, apply_schedule-IsConsistent}
use tdmh.Manager.Removal.{
  Apart, Removable, keys-Removable, there-erase, CanRemove, set_elements-CanRemove,
}

set_schedule-CanRemove :
    (c : ManagerConfig) (es : List ScheduleElement) (h : ScheduleHeader) (m : StreamManager)
    → IsConsistent m
    → CanRemove (set_schedule c es h m)
unfolding set_schedule
set_schedule-CanRemove c es h m w =
    set_elements-CanRemove c es (record m { streams_to_remove = map (λ e. e.0) m.streams })
      (keys-Removable m.streams w.ordered)

apply_elements-tables :
    (c : ManagerConfig) (es : List ScheduleElement) (m : StreamManager)
    → tables (apply_elements c es m) ≡ tables m
unfolding apply_elements
apply_elements-tables c [] m = refl
apply_elements-tables c (e ∷ es) m =
    apply_elements-tables c es (apply_element c e m)
    ∙ if_cases (λ x. tables x ≡ tables m) (is_mine c e.id) _ m
        (option_cases (λ x. tables x ≡ tables m) (lookup e.id m.streams) m _ (λ _. refl)
          (λ p _. on_stream-tables _ p m (added_stream-Keeps e.params)))
        refl

abbrev IsIn : List StreamId → Map StreamId ℕ → Type 0
IsIn ids streams = All (λ id. lookup id streams ≢ none) ids

remove_stream-IsIn :
    (id : StreamId) (ids : List StreamId) (m : StreamManager)
    → All (λ j. (get_key id == get_key j) ≡ false) ids
    → IsIn ids m.streams
    → IsIn ids (remove_stream id m).streams
unfolding remove_stream free_client_port
remove_stream-IsIn id ids m apart there =
    option_cases (λ (x : StreamManager). IsIn ids x.streams) (lookup id m.streams) m _ (λ _. there)
      (λ p _. there-erase id ids m.streams apart there)

-- The stream is there, so it is removed or kept, and the others are still there.
remove_one-returns :
    (id : StreamId) (ids : List StreamId) (m : StreamManager)
    → lookup id m.streams ≢ none
    → All (λ j. (get_key id == get_key j) ≡ false) ids
    → IsIn ids m.streams
    → (m' : StreamManager) × (remove_one id m ≡ some m') × IsIn ids m'.streams
remove_one-returns id ids m found apart there =
    option_cases (λ x. (m' : StreamManager) × (x ≡ some m') × IsIn ids m'.streams)
      (lookup id m.streams) none _ (λ missing. absurd (found missing))
      (λ p _.
        let m₁ = (on_stream removed_stream p m).0 in
        let there₁ =
          subst (λ (t : Tables). IsIn ids t.streams)
            (sym (on_stream-tables removed_stream p m removed_stream-Keeps)) there in
        (
          _,
          refl,
          if_cases (λ (x : StreamManager). IsIn ids x.streams) (on_stream removed_stream p m).1
              (remove_stream id m₁) m₁ (remove_stream-IsIn id ids m₁ apart there₁) there₁,
        ))

remove_unscheduled-returns :
    (ids : List StreamId) (m : StreamManager)
    → Removable ids m.streams
    → (m' : StreamManager) × (remove_unscheduled ids m ≡ some m')
unfolding remove_unscheduled
remove_unscheduled-returns [] m r = (m, refl)
remove_unscheduled-returns (id ∷ ids) m r =
    let (m₁, e₁, there) = remove_one-returns id ids m r.there.0 r.apart.0 r.there.1 in
    let (m₂, e₂) =
      remove_unscheduled-returns ids m₁ (record { apart = r.apart.1; there = there }) in
    (m₂, ap (λ x. x >>= remove_unscheduled ids) e₁ ∙ e₂)

-- No stream is put in.
abbrev Within : StreamManager → StreamManager → Type 0
Within m m' = (j : StreamId) → lookup j m'.streams ≢ none → lookup j m.streams ≢ none

remove_stream-Within : (id : StreamId) (m : StreamManager) → Within m (remove_stream id m)
unfolding remove_stream free_client_port
remove_stream-Within id m =
    option_cases (Within m) (lookup id m.streams) m _ (λ _ j h. h)
      (λ p _ j h. ground (arith, lookup-erase id j m.streams))

remove_one-there :
    (id : StreamId) (m : StreamManager)
    → IfSome (λ m'. (lookup id m.streams ≢ none) × Within m m') (remove_one id m)
remove_one-there id m =
    option_cases (IfSome (λ m'. (lookup id m.streams ≢ none) × Within m m')) (lookup id m.streams)
      none _ (λ _. tt)
      (λ p found.
        let m₁ = (on_stream removed_stream p m).0 in
        let same : m₁.streams ≡ m.streams =
          ap (λ (t : Tables). t.streams)
            (on_stream-tables removed_stream p m removed_stream-Keeps) in
        let within : Within m m₁ = λ j h. subst (λ x. lookup j x ≢ none) same h in
        (
          λ missing. ground arith,
          if_cases (Within m) (on_stream removed_stream p m).1 (remove_stream id m₁) m₁
              (λ j h. within j (remove_stream-Within id m₁ j h)) within,
        ))

remove_unscheduled-there :
    (ids : List StreamId) (m : StreamManager)
    → IfSome (λ m'. IsIn ids m.streams) (remove_unscheduled ids m)
unfolding remove_unscheduled
remove_unscheduled-there [] m = tt
remove_unscheduled-there (id ∷ ids) m =
    bind-IfSome (λ m₁. (lookup id m.streams ≢ none) × Within m m₁) (λ m'. IsIn (id ∷ ids) m.streams)
      (remove_one id m) (remove_unscheduled ids) (remove_one-there id m)
      (λ m₁ h.
        IfSome-map (λ m'. IsIn ids m₁.streams) (λ m'. IsIn (id ∷ ids) m.streams)
          (remove_unscheduled ids m₁) (remove_unscheduled-there ids m₁)
          (λ m' there. (h.0, All-map _ _ ids h.1 there)))

apply_schedule-returns :
    (c : ManagerConfig) (es : List ScheduleElement) (m : StreamManager)
    → CanRemove m
    → (m' : StreamManager) × (apply_schedule c es m ≡ some m')
unfolding apply_schedule
apply_schedule-returns c es m r =
    let (m', e) = remove_unscheduled-returns m.streams_to_remove (apply_elements c es m) (
      subst (λ (t : Tables). Removable m.streams_to_remove t.streams)
        (sym (apply_elements-tables c es m)) r) in
    (
      reset_all (record m' { streams_to_remove = [] }),
      ap (λ x. x >>= (λ m'. some (reset_all (record m' { streams_to_remove = [] })))) e,
    )

apply_schedule-there :
    (c : ManagerConfig) (es : List ScheduleElement) (m : StreamManager)
    → IfSome (λ m'. IsIn m.streams_to_remove m.streams) (apply_schedule c es m)
unfolding apply_schedule
apply_schedule-there c es m =
    bind-IfSome (λ m'. IsIn m.streams_to_remove (apply_elements c es m).streams)
      (λ m'. IsIn m.streams_to_remove m.streams)
      (remove_unscheduled m.streams_to_remove (apply_elements c es m)) _
      (remove_unscheduled-there m.streams_to_remove (apply_elements c es m))
      (λ m' there.
        subst (λ (t : Tables). IsIn m.streams_to_remove t.streams) (apply_elements-tables c es m)
          there)

-- Of distinct streams that are to be removed, applySchedule follows no null pointer exactly if each
-- is still in the map.
pub apply_schedule_iff :
    (c : ManagerConfig) (es : List ScheduleElement) (m : StreamManager)
    → Apart m.streams_to_remove
    → ((m' : StreamManager) × (apply_schedule c es m ≡ some m'))
      ↔ All (λ id. lookup id m.streams ≢ none) m.streams_to_remove
apply_schedule_iff c es m apart = (
  λ (m', e).
      subst (IfSome (λ m'. IsIn m.streams_to_remove m.streams)) e (apply_schedule-there c es m),
  λ there. apply_schedule-returns c es m (record { apart = apart; there = there }),
)

-- After it is set, a schedule is applied to the end, and the tables are consistent.
pub set_schedule-apply_schedule :
    (c : ManagerConfig) (es es' : List ScheduleElement) (h : ScheduleHeader) (m : StreamManager)
    → IsConsistent m
    → (m' : StreamManager) × (apply_schedule c es' (set_schedule c es h m) ≡ some m')
      × IsConsistent m'
set_schedule-apply_schedule c es es' h m w =
    let (m', e) =
      apply_schedule-returns c es' (set_schedule c es h m) (set_schedule-CanRemove c es h m w) in
    (
      m',
      e,
      subst (IfSome IsConsistent) e (
          apply_schedule-IsConsistent c es' (set_schedule c es h m)
            (set_schedule-IsConsistent c es h m w)),
    )
