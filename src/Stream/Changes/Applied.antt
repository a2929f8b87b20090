-- ===== src/Stream/Changes/Applied.antt =====
-- applyChanges: what becomes of each stream, and that the collection stays well-formed.
use tdmh.Base.{
  ℕ, suc, ◌≡◌, refl, sym, ap, ◌∙◌, inl, inr, lookup, IsOrderedFrom, lookup-insert, lookup-erase,
  lookup_same, lookup_below, [], ◌∷◌, Option, none, some, true, false, ◌||◌, ◌==◌, arith, All,
  Bool-cases, Option-cases,
}
use tdmh.Stream.Params.{
  StreamId, get_key, id_keyed, is_server, IsInFields, accepted, established, listen,
  MasterStreamInfo, set_status,
}
use tdmh.Stream.Collection.{StreamCollection, enqueue_info}
use tdmh.Stream.Collection.Ids.{
  IsFor, IsCollection, lookup-IsFor, insert-IsCollection, erase-IsCollection,
}
use tdmh.Stream.Collection.Lifecycle.{MasterStreamStatus-cases}
use tdmh.Stream.Collection.Receive.{IsWellFormed}
use tdmh.Stream.Changes.{
  StreamChange, establish, reject, close, Changes, change_stream, apply_change, apply_changes,
}

-- What a change makes of a stream, by what is there when it is applied.
abbrev pub changed_to : Option StreamChange → Option MasterStreamInfo → Option MasterStreamInfo
changed_to none o = o
changed_to (some c) none = none
changed_to (some establish) (some info) = elim info.status [
  | accepted ↦ some (set_status established info)
  | established ↦ some info
  | listen ↦ some info
]
changed_to (some reject) (some info) = elim info.status [
  | accepted ↦ none
  | established ↦ some info
  | listen ↦ some info
]
changed_to (some close) (some info) = elim info.status [
  | accepted ↦ some info
  | established ↦ none
  | listen ↦ some info
]

change_stream_other :
    (id j : StreamId) (c : StreamChange) (info : MasterStreamInfo) (s : StreamCollection)
    → (get_key id == get_key j) ≡ false
    → lookup j (change_stream id c info s).collection ≡ lookup j s.collection
unfolding enqueue_info
change_stream_other id j c info s e = ground (
  arith,
  lookup-insert id j (set_status established info) s.collection,
  lookup-erase id j s.collection,
)

change_stream_same :
    (id j : StreamId) (c : StreamChange) (info : MasterStreamInfo) (s : StreamCollection)
    → (get_key id == get_key j) ≡ true
    → lookup id s.collection ≡ some info
    → lookup j (change_stream id c info s).collection ≡ changed_to (some c) (some info)
unfolding enqueue_info
change_stream_same id j c info s e found = ground (
  arith,
  lookup-insert id j (set_status established info) s.collection,
  lookup-erase id j s.collection,
  lookup_same id j s.collection,
)

apply_change_other :
    (id j : StreamId) (c : StreamChange) (s : StreamCollection)
    → (get_key id == get_key j) ≡ false
    → lookup j (apply_change id c s).collection ≡ lookup j s.collection
unfolding apply_change
apply_change_other id j c s e = elim (Option-cases (lookup id s.collection)) [
  | inl o ↦ ground (arith, o)
  | inr (info, o) ↦ ground (arith, o, change_stream_other id j c info s e)
]

apply_change_same :
    (id j : StreamId) (c : StreamChange) (s : StreamCollection)
    → is_server id ≡ false
    → (get_key id == get_key j) ≡ true
    → lookup j (apply_change id c s).collection ≡ changed_to (some c) (lookup j s.collection)
unfolding apply_change
apply_change_same id j c s stream e = elim (Option-cases (lookup id s.collection)) [
  | inl o ↦ ground (arith, o, lookup_same id j s.collection)
  | inr (info, o) ↦
      let here : lookup j s.collection ≡ some info =
        sym (lookup_same id j s.collection (ground arith)) ∙ o in
      rw (stream, o, apply_change) (rw here (change_stream_same id j c info s e o))
]

-- The streams that a list of changes names are no servers, and have fields that fit.
abbrev pub AreStreams : Changes → Type 0
AreStreams = All (λ e. IsInFields e.0 × (is_server e.0 ≡ false))

pub lookup-apply_changes :
    (n : ℕ) (ch : Changes) (s : StreamCollection) (j : StreamId)
    → IsOrderedFrom n ch
    → AreStreams ch
    → lookup j (apply_changes ch s).collection ≡ changed_to (lookup j ch) (lookup j s.collection)
unfolding apply_changes lookup
lookup-apply_changes n [] s j o a = refl
lookup-apply_changes n ((id, c) ∷ ch) s j o a =
    let rest = lookup-apply_changes (suc (get_key id)) ch (apply_change id c s) j o.1 a.1 in
    elim (Bool-cases (get_key id == get_key j)) [
      | inl e ↦
          let gone = lookup_below (suc (get_key id)) j ch (ground arith) o.1 in
          rw e (rest ∙ rw gone (apply_change_same id j c s a.0.1 e))
      | inr e ↦ rw e (rest ∙ ap (changed_to (lookup j ch)) (apply_change_other id j c s e))
    ]

change_stream-IsCollection :
    (id : StreamId) (c : StreamChange) (info : MasterStreamInfo) (s : StreamCollection)
    → IsFor id info
    → is_server id ≡ false
    → IsCollection s.collection
    → IsCollection (change_stream id c info s).collection
unfolding enqueue_info set_status
change_stream-IsCollection id establish info s f stream h =
    elim (MasterStreamStatus-cases info.status) [
      | inl st ↦
          rw (st, change_stream)
            (insert-IsCollection id (set_status established info) s.collection
              (f.0, f.1, (λ e. absurd (cc e), λ e. absurd (cc (e, stream)))) h)
      | inr (inl st) ↦ rw (st, change_stream) h
      | inr (inr st) ↦ rw (st, change_stream) h
    ]
change_stream-IsCollection id reject info s f stream h =
    elim (MasterStreamStatus-cases info.status) [
      | inl st ↦ rw (st, change_stream) (erase-IsCollection id s.collection h)
      | inr (inl st) ↦ rw (st, change_stream) h
      | inr (inr st) ↦ rw (st, change_stream) h
    ]
change_stream-IsCollection id close info s f stream h =
    elim (MasterStreamStatus-cases info.status) [
      | inl st ↦ rw (st, change_stream) h
      | inr (inl st) ↦ rw (st, change_stream) (erase-IsCollection id s.collection h)
      | inr (inr st) ↦ rw (st, change_stream) h
    ]

change_stream-flags :
    (id : StreamId) (c : StreamChange) (info : MasterStreamInfo) (s : StreamCollection)
    → s.modified_flag ≡ (s.removed_flag || s.added_flag)
    → (change_stream id c info s).modified_flag
      ≡ ((change_stream id c info s).removed_flag || (change_stream id c info s).added_flag)
unfolding enqueue_info
change_stream-flags id c info s h = ground arith

apply_change-IsWellFormed :
    (id : StreamId) (c : StreamChange) (s : StreamCollection)
    → IsInFields id
    → is_server id ≡ false
    → IsWellFormed s
    → IsWellFormed (apply_change id c s)
unfolding apply_change
apply_change-IsWellFormed id c s f stream h = elim (Option-cases (lookup id s.collection)) [
  | inl e ↦ rw (stream, e, apply_change) h
  | inr (info, e) ↦
      rw (stream, e, apply_change)
        (record {
          streams =
              change_stream-IsCollection id c info s
                (lookup-IsFor id info s.collection f h.streams e) stream h.streams;
          flags = change_stream-flags id c info s h.flags;
        })
]

pub apply_changes-IsWellFormed :
    (ch : Changes) (s : StreamCollection)
    → AreStreams ch
    → IsWellFormed s
    → IsWellFormed (apply_changes ch s)
unfolding apply_changes
apply_changes-IsWellFormed [] s a h = h
apply_changes-IsWellFormed ((id, c) ∷ ch) s a h =
    apply_changes-IsWellFormed ch (apply_change id c s) a.1
      (apply_change-IsWellFormed id c s a.0.0 a.0.1 h)
