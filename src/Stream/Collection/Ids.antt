-- ===== src/Stream/Collection/Ids.antt =====
-- The entries of a collection of streams: their keys, and their statuses by what they are.
use tdmh.Base.{
  ◌≡◌, subst, ◌↔◌, Map, lookup, insert, erase, IsOrderedFrom, insert-IsOrderedFrom,
  erase-IsOrderedFrom, inl, inr, [], ◌∷◌, some, true, ◌==◌, ltb, arith, All, Bool-cases,
}
use tdmh.Stream.Params.{
  StreamId, get_key, id_keyed, get_server_id, is_server, IsInFields, get_key-injective, listen,
  MasterStreamInfo,
}

pub get_server_id-IsInFields : (id : StreamId) → IsInFields id → IsInFields (get_server_id id)
unfolding get_server_id
get_server_id-IsInFields id h = record {
  src_lt = h.dst_lt;
  dst_lt = h.dst_lt;
  src_port_lt = omega arith;
  dst_port_lt = h.dst_port_lt;
}

-- Exactly the servers listen.
abbrev pub IsFor : StreamId → MasterStreamInfo → Type 0
IsFor id info = IsInFields id × (info.id ≡ id) × ((info.status ≡ listen) ↔ (is_server id ≡ true))

abbrev pub Entry : StreamId × MasterStreamInfo → Type 0
Entry e = IsFor e.0 e.1

pub record IsCollection (m : Map StreamId MasterStreamInfo) : Type 0 where
  pub ordered : IsOrderedFrom 0 m
  pub entries : All Entry m

lookup-Entry :
    (id : StreamId) (info : MasterStreamInfo) (m : Map StreamId MasterStreamInfo)
    → IsInFields id
    → All Entry m
    → lookup id m ≡ some info
    → IsFor id info
unfolding lookup
lookup-Entry id info [] f h e = absurd (cc e)
lookup-Entry id info ((j, w) ∷ m) f h e = elim (Bool-cases (get_key j == get_key id)) [
  | inl same ↦
      let eq : j ≡ id = get_key-injective j id h.0.0 f (ground arith) in
      let here : w ≡ info = cc in subst (λ v. IsFor id v) here (subst (λ k. IsFor k w) eq h.0)
  | inr other ↦ lookup-Entry id info m f h.1 (ground arith)
]

pub lookup-IsFor :
    (id : StreamId) (info : MasterStreamInfo) (m : Map StreamId MasterStreamInfo)
    → IsInFields id
    → IsCollection m
    → lookup id m ≡ some info
    → IsFor id info
lookup-IsFor id info m f h e = lookup-Entry id info m f h.entries e

pub insert_entries :
    (id : StreamId) (info : MasterStreamInfo) (m : Map StreamId MasterStreamInfo)
    → IsFor id info
    → All Entry m
    → All Entry (insert id info m)
unfolding insert
insert_entries id info [] f h = (f, tt)
insert_entries id info ((j, w) ∷ m) f h = elim (Bool-cases (get_key j == get_key id)) [
  | inl same ↦
      let eq : id ≡ j = get_key-injective id j f.0 h.0.0 (ground arith) in
      rw (same, insert) (subst (λ k. IsFor k info) eq f, h.1)
  | inr other ↦
      rw (other, insert)
        (elim (Bool-cases (ltb (get_key id) (get_key j))) [
          | inl less ↦ rw less (f, h)
          | inr more ↦ rw more (h.0, insert_entries id info m f h.1)
        ])
]

pub erase_entries :
    (id : StreamId) (m : Map StreamId MasterStreamInfo) → All Entry m → All Entry (erase id m)
unfolding erase
erase_entries id [] h = tt
erase_entries id ((j, w) ∷ m) h = ground (arith, erase_entries id m h.1)

pub insert-IsCollection :
    (id : StreamId) (info : MasterStreamInfo) (m : Map StreamId MasterStreamInfo)
    → IsFor id info
    → IsCollection m
    → IsCollection (insert id info m)
insert-IsCollection id info m f h = record {
  ordered = insert-IsOrderedFrom 0 id info m (omega arith) h.ordered;
  entries = insert_entries id info m f h.entries;
}

pub erase-IsCollection :
    (id : StreamId) (m : Map StreamId MasterStreamInfo) → IsCollection m → IsCollection (erase id m)
erase-IsCollection id m h = record {
  ordered = erase-IsOrderedFrom 0 id m h.ordered;
  entries = erase_entries id m h.entries;
}
