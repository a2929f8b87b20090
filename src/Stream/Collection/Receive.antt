-- ===== src/Stream/Collection/Receive.antt =====
-- receiveSMEs as a whole: it empties the queue, and keeps the collection well-formed.
use tdmh.Base.{
  ℕ, zero, suc, ◌≡◌, refl, sym, ap, ◌∙◌, ◌⊎◌, inl, inr, Map, [], ◌∷◌, some, ◌||◌, arith, All,
  length,
}
use tdmh.Queue.{UpdatableQueue, dequeue, size}
use tdmh.Queue.Fifo.{Represents, dequeue_pair-Dequeues, size-length}
use tdmh.Stream.Params.{StreamId, id_keyed, IsInFields}
use tdmh.Stream.Collection.{
  SmeType, resend_schedule, challenge, uninitialized, StreamManagementElement, SmeKey, sme_keyed,
  StreamCollection, new_collection, enqueue_info, update_stream, update_server, create_stream,
  create_server, dispatch, receive_one, receive_loop, receive_smes,
}
use tdmh.Stream.Collection.Ids.{IsCollection}
use tdmh.Stream.Collection.Lifecycle.{
  SmeType-cases, Seen, seen, tell, seen-dispatch, dispatch-Effect, Effect-IsCollection,
}

-- The flags for what was removed and what was added are those for a modification.
pub record IsWellFormed (s : StreamCollection) : Type 0 where
  pub streams : IsCollection s.collection
  pub flags : s.modified_flag ≡ (s.removed_flag || s.added_flag)

dispatch-flags :
    (sme : StreamManagementElement) (s : StreamCollection)
    → s.modified_flag ≡ (s.removed_flag || s.added_flag)
    → (dispatch sme s).modified_flag
      ≡ ((dispatch sme s).removed_flag || (dispatch sme s).added_flag)
unfolding dispatch update_stream update_server create_stream create_server enqueue_info
dispatch-flags sme s h = ground arith

pub dispatch-IsWellFormed :
    (sme : StreamManagementElement) (s : StreamCollection)
    → IsInFields sme.id
    → IsWellFormed s
    → IsWellFormed (dispatch sme s)
dispatch-IsWellFormed sme s f h = record {
  streams = Effect-IsCollection sme.id (dispatch-Effect sme s f) h.streams;
  flags = dispatch-flags sme s h.flags;
}

-- The streams and servers after the elements of a list, one after the other.
abbrev pub tell_all : Map SmeKey StreamManagementElement → (StreamId → Seen) → StreamId → Seen
tell_all [] v = v
tell_all ((k, sme) ∷ l) v = tell_all l (tell sme v)

-- The types of elements that are not about streams and servers.
abbrev Idles : SmeType → Type 0
Idles t = (t ≡ resend_schedule) ⊎ (t ≡ challenge) ⊎ (t ≡ uninitialized)

tell_none :
    (sme : StreamManagementElement) (v : StreamId → Seen) (j : StreamId)
    → Idles sme.type
    → tell sme v j ≡ v j
tell_none sme v j t = ground arith

module _ {M : Type 0} (enqueue_challenge : StreamManagementElement → M → M) where
  receive_one-cases :
      (sme : StreamManagementElement) (s : StreamCollection) (m : M)
      → ((receive_one enqueue_challenge sme (s, m)).0 ≡ dispatch sme s)
        ⊎ (Idles sme.type
            × ((receive_one enqueue_challenge sme (s, m)).0.collection ≡ s.collection)
            × ((receive_one enqueue_challenge sme (s, m)).0.modified_flag ≡ s.modified_flag)
            × ((receive_one enqueue_challenge sme (s, m)).0.removed_flag ≡ s.removed_flag)
            × ((receive_one enqueue_challenge sme (s, m)).0.added_flag ≡ s.added_flag))
  unfolding receive_one
  receive_one-cases sme s m = elim (SmeType-cases sme.type) [
    | inl t ↦ inl (rw t refl)
    | inr (inl t) ↦ inl (rw t refl)
    | inr (inr (inl t)) ↦ inl (rw t refl)
    | inr (inr (inr (inl t))) ↦ inr (rw t (inl refl, refl, refl, refl, refl))
    | inr (inr (inr (inr (inl t)))) ↦ inr (rw t (inr (inl refl), refl, refl, refl, refl))
    | inr (inr (inr (inr (inr t)))) ↦ inr (rw t (inr (inr refl), refl, refl, refl, refl))
  ]

  receive_one-IsWellFormed :
      (sme : StreamManagementElement) (s : StreamCollection) (m : M)
      → IsInFields sme.id
      → IsWellFormed s
      → IsWellFormed (receive_one enqueue_challenge sme (s, m)).0
  receive_one-IsWellFormed sme s m f h = elim (receive_one-cases sme s m) [
    | inl e ↦ rw e (dispatch-IsWellFormed sme s f h)
    | inr (idle, e, a, b, c) ↦ record { streams = rw e h.streams; flags = rw (a, b, c) h.flags }
  ]

  seen-receive_one :
      (sme : StreamManagementElement) (s : StreamCollection) (m : M) (j : StreamId)
      → IsInFields sme.id
      → seen (receive_one enqueue_challenge sme (s, m)).0.collection j
        ≡ tell sme (seen s.collection) j
  seen-receive_one sme s m j f = elim (receive_one-cases sme s m) [
    | inl e ↦ rw e (seen-dispatch sme s j f)
    | inr (idle, e, a, b, c) ↦ rw (e, seen) (sym (tell_none sme (seen s.collection) j idle))
  ]

  -- The elements, in order.
  abbrev receive_all :
      Map SmeKey StreamManagementElement → StreamCollection × M → StreamCollection × M
  receive_all [] s = s
  receive_all ((k, sme) ∷ l) s = receive_all l (receive_one enqueue_challenge sme s)

  receive_all-IsWellFormed :
      (l : Map SmeKey StreamManagementElement) (s : StreamCollection) (m : M)
      → All (λ e. IsInFields e.1.id) l
      → IsWellFormed s
      → IsWellFormed (receive_all l (s, m)).0
  receive_all-IsWellFormed [] s m f h = h
  receive_all-IsWellFormed ((k, sme) ∷ l) s m f h =
      let next = receive_one enqueue_challenge sme (s, m) in
      receive_all-IsWellFormed l next.0 next.1 f.1 (receive_one-IsWellFormed sme s m f.0 h)

  seen-receive_all :
      (l : Map SmeKey StreamManagementElement) (s : StreamCollection) (m : M)
      → All (λ e. IsInFields e.1.id) l
      → seen (receive_all l (s, m)).0.collection ≡ tell_all l (seen s.collection)
  seen-receive_all [] s m f = refl
  seen-receive_all ((k, sme) ∷ l) s m f =
      let next = receive_one enqueue_challenge sme (s, m) in
      seen-receive_all l next.0 next.1 f.1
      ∙ ap (tell_all l) (λ i j. seen-receive_one sme s m j f.0 i)

  receive_loop_lem :
      (n : ℕ) (smes : UpdatableQueue SmeKey StreamManagementElement)
      (l : Map SmeKey StreamManagementElement) (s : StreamCollection × M)
      → Represents smes l
      → length l ≡ n
      → (rest : UpdatableQueue SmeKey StreamManagementElement) × (receive_loop enqueue_challenge n
            smes s
          ≡ some (rest, receive_all l s))
        × Represents rest []
  unfolding receive_loop dequeue
  receive_loop_lem zero smes [] s r e = (smes, refl, r)
  receive_loop_lem zero smes (x ∷ l) s r e = absurd (omega arith)
  receive_loop_lem (suc n) smes [] s r e = absurd (omega arith)
  receive_loop_lem (suc n) smes ((k, sme) ∷ l) s r e =
      let (smes', d, r') = dequeue_pair-Dequeues smes ((k, sme) ∷ l) r in
      let (rest, loop, done') =
        receive_loop_lem n smes' l (receive_one enqueue_challenge sme s) r' (omega arith) in
      (rest, rw (d, receive_loop) loop, done')

  -- From a queue that represents a list of elements, whose streams have fields that fit, and a
  -- well-formed collection: the elements are all taken out, without an exception, the collection
  -- stays well-formed, and its streams and servers, with their statuses and parameters, are those
  -- that the elements of the list, told one after the other, leave of the ones before it.
  pub receive_smes_lem :
      (smes : UpdatableQueue SmeKey StreamManagementElement)
      (l : Map SmeKey StreamManagementElement) (s : StreamCollection) (m : M)
      → Represents smes l
      → All (λ e. IsInFields e.1.id) l
      → IsWellFormed s
      → (rest : UpdatableQueue SmeKey StreamManagementElement) × (s' : StreamCollection) × (m' : M)
        × (receive_smes enqueue_challenge smes (s, m) ≡ some (rest, (s', m')))
        × Represents rest []
        × IsWellFormed s'
        × ((j : StreamId) → seen s'.collection j ≡ tell_all l (seen s.collection) j)
  unfolding receive_smes
  receive_smes_lem smes l s m r f h =
      let (rest, e, r') =
        receive_loop_lem (size smes) smes l (s, m) r (sym (size-length smes l r)) in
      (
        rest,
        (receive_all l (s, m)).0,
        (receive_all l (s, m)).1,
        e,
        r',
        receive_all-IsWellFormed l s m f h,
        λ j. ap (λ v. v j) (seen-receive_all l s m f),
      )

pub new_collection-IsWellFormed : IsWellFormed new_collection
unfolding new_collection
new_collection-IsWellFormed = record {
  streams = record { ordered = tt; entries = tt };
  flags = refl;
}
