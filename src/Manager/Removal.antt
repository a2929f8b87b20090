-- ===== src/Manager/Removal.antt =====
-- The streams that a schedule leaves out, from setSchedule to applySchedule.
pub mod Returns
use tdmh.Base.{
  ℕ, suc, ◌≤◌, ◌<◌, ◌≡◌, ◌≢◌, refl, sym, ap, subst, ◌∙◌, Map, lookup, insert, erase, Keyed,
  nat_keyed, IsOrderedFrom, lookup-insert, lookup-erase, List, [], ◌∷◌, map, All, All-map, Option,
  none, some, Bool, true, false, ◌==◌, if◌then◌else◌, arith,
}
use tdmh.Stream.Params.{StreamId, get_key, id_keyed, get_server_id}
use tdmh.Scheduler.Element.{ScheduleElement}
use tdmh.Endpoint.{StreamInfo, Output, Stream}
use tdmh.Endpoint.Machine.{close}
use tdmh.Endpoint.Server.{Server, close_server, add_pending_stream}
use tdmh.Manager.{
  a_stream, a_server, ManagerConfig, StreamManager, on_stream, on_server, add_stream, add_server,
}
use tdmh.Manager.Calls.{status_at}
use tdmh.Manager.Phases.{server_quietly}
use tdmh.Manager.Schedule.{
  is_mine, without, is_listening, offer_stream, refuse_stream, new_in_schedule, set_element,
  set_elements,
}
use tdmh.Manager.Tables.{
  Tables, tables, Keeps, if_cases, option_cases, on_stream-tables, on_server-tables,
}
use tdmh.Manager.Kept.{close-Keeps, close_server-Keeps, add_pending_stream-Keeps}

abbrev pub Apart : List StreamId → Type 0
Apart [] = Unit
Apart (id ∷ ids) = All (λ j. (get_key id == get_key j) ≡ false) ids × Apart ids

-- The streams are distinct, and each is in the map.
pub record Removable (ids : List StreamId) (streams : Map StreamId ℕ) : Type 0 where
  pub apart : Apart ids
  pub there : All (λ id. lookup id streams ≢ none) ids

keys-from :
    (n : ℕ) (streams : Map StreamId ℕ)
    → IsOrderedFrom n streams
    → All (λ j. n ≤ get_key j) (map (λ e. e.0) streams)
keys-from n [] o = tt
keys-from n ((id, p) ∷ streams) o = (
  o.0,
  All-map _ _ (map (λ e. e.0) streams) (λ j h. ground arith)
      (keys-from (suc (get_key id)) streams o.1),
)

keys-Apart :
    (n : ℕ) (streams : Map StreamId ℕ) → IsOrderedFrom n streams → Apart (map (λ e. e.0) streams)
keys-Apart n [] o = tt
keys-Apart n ((id, p) ∷ streams) o = (
  All-map _ _ (map (λ e. e.0) streams) (λ j h. ground arith)
      (keys-from (suc (get_key id)) streams o.1),
  keys-Apart (suc (get_key id)) streams o.1,
)

keys-there :
    (streams all : Map StreamId ℕ)
    → ((id : StreamId) → lookup id streams ≢ none → lookup id all ≢ none)
    → All (λ id. lookup id all ≢ none) (map (λ e. e.0) streams)
unfolding lookup
keys-there [] all h = tt
keys-there ((id, p) ∷ streams) all h =
    (h id (ground arith), keys-there streams all (λ j there. h j (ground arith)))

pub keys-Removable :
    (streams : Map StreamId ℕ)
    → IsOrderedFrom 0 streams
    → Removable (map (λ e. e.0) streams) streams
keys-Removable streams o = record {
  apart = keys-Apart 0 streams o;
  there = keys-there streams streams (λ id h. h);
}

pub there-erase :
    (id : StreamId) (ids : List StreamId) (streams : Map StreamId ℕ)
    → All (λ j. (get_key id == get_key j) ≡ false) ids
    → All (λ j. lookup j streams ≢ none) ids
    → All (λ j. lookup j (erase id streams) ≢ none) ids
there-erase id [] streams h r = tt
there-erase id (j ∷ ids) streams h r =
    ground (arith, lookup-erase id j streams, there-erase id ids streams h.1 r.1)

there-insert :
    (id : StreamId) (p : ℕ) (ids : List StreamId) (streams : Map StreamId ℕ)
    → All (λ id. lookup id streams ≢ none) ids
    → All (λ j. lookup j (insert id p streams) ≢ none) ids
there-insert id p ids streams =
    All-map _ _ ids (λ j h. ground (arith, lookup-insert id j p streams))

pub All-without :
    (P : StreamId → Type 0) (id : StreamId) (ids : List StreamId)
    → All P ids
    → All P (without id ids)
unfolding without
All-without P id [] h = tt
All-without P id (j ∷ ids) h = ground (arith, All-without P id ids h.1)

without-Apart : (id : StreamId) (ids : List StreamId) → Apart ids → Apart (without id ids)
unfolding without
without-Apart id [] h = tt
without-Apart id (j ∷ ids) h = ground (
  arith,
  All-without (λ i. (get_key j == get_key i) ≡ false) id ids h.0,
  without-Apart id ids h.1,
)

abbrev pub Can : Tables → Type 0
Can t = Removable t.streams_to_remove t.streams

-- The streams that are to be removed can be.
abbrev pub CanRemove : StreamManager → Type 0
CanRemove m = Can (tables m)

pub on_stream-CanRemove :
    (f : Stream → Stream × List Output × Bool) (p : ℕ) (m : StreamManager)
    → Keeps a_stream f
    → CanRemove m
    → CanRemove (on_stream f p m).0
on_stream-CanRemove f p m keeps h = subst Can (sym (on_stream-tables f p m keeps)) h

on_server-CanRemove :
    (f : Server → Server × List Output × Bool) (p : ℕ) (m : StreamManager)
    → Keeps a_server f
    → CanRemove m
    → CanRemove (on_server f p m).0
on_server-CanRemove f p m keeps h = subst Can (sym (on_server-tables f p m keeps)) h

add_stream-CanRemove :
    (c : ManagerConfig) (info : StreamInfo) (m : StreamManager)
    → CanRemove m
    → CanRemove (add_stream c info m)
unfolding add_stream
add_stream-CanRemove c info m h = record {
  apart = h.apart;
  there = there-insert info.id m.fd_counter m.streams_to_remove m.streams h.there;
}

module _ (c : ManagerConfig) (e : ScheduleElement) (m : StreamManager) (h : CanRemove m) where
  offer_stream-CanRemove : (server : ℕ) → CanRemove (offer_stream c e server m)
  offer_stream-CanRemove server =
      on_server-CanRemove _ server _ (add_pending_stream-Keeps m.fd_counter)
        (add_stream-CanRemove c _ m h)

  refuse_stream-CanRemove : CanRemove (refuse_stream c e m)
  unfolding add_server
  refuse_stream-CanRemove =
      on_server-CanRemove close_server _ _ close_server-Keeps
        (on_stream-CanRemove close m.fd_counter _ close-Keeps (add_stream-CanRemove c _ m h))

  new_in_schedule-CanRemove : CanRemove (new_in_schedule c e m)
  new_in_schedule-CanRemove =
      option_cases CanRemove (lookup (get_server_id e.id).dst_port m.servers) (refuse_stream c e m)
        _ (λ _. refuse_stream-CanRemove)
        (λ server _.
          if_cases CanRemove (is_listening (status_at (lookup server m.objects)))
            (offer_stream c e server m) (refuse_stream c e m) (offer_stream-CanRemove server)
            refuse_stream-CanRemove)

  set_element-CanRemove : CanRemove (set_element c e m)
  set_element-CanRemove =
      if_cases CanRemove (is_mine c e.id) _ m
        (option_cases CanRemove (lookup e.id m.streams) (new_in_schedule c e m) _
          (λ _. new_in_schedule-CanRemove)
          (λ p _. record {
            apart = without-Apart e.id m.streams_to_remove h.apart;
            there = All-without _ e.id m.streams_to_remove h.there;
          }))
        h

pub set_elements-CanRemove :
    (c : ManagerConfig) (es : List ScheduleElement) (m : StreamManager)
    → CanRemove m
    → CanRemove (set_elements c es m)
unfolding set_elements
set_elements-CanRemove c [] m h = h
set_elements-CanRemove c (e ∷ es) m h =
    set_elements-CanRemove c es _ (set_element-CanRemove c e m h)
