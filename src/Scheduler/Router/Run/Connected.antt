-- ===== src/Scheduler/Router/Run/Connected.antt =====
-- What Router::run gives the scheduler: blocks of hops that lead from the source of a stream to its
-- destination.
use tdmh.Base.{
  ℕ, zero, suc, ◌+◌, ◌<◌, ◌≡◌, refl, sym, ap, subst, ◌∙◌, ◌≢◌, inl, inr, nat_keyed, contains, elem,
  length, List, [], ◌∷◌, ◌++◌, some, true, false, ◌||◌, ◌==◌, ltb, arith, Bool-cases, Option-cases,
  All, All-append, add, length-append,
}
use tdmh.Topology.Snapshot.{Snapshot, IsNetwork}
use tdmh.Stream.Params.{StreamId, MasterStreamInfo, set_redundancy}
use tdmh.Stream.Redundancy.{double, double_spatial, triple, triple_spatial}
use tdmh.Scheduler.Element.{ScheduleElement, hop_element, single_hop_element}
use tdmh.Scheduler.Router.{hops, path_to_schedule}
use tdmh.Scheduler.Router.Paths.{Route, here, onward}
use tdmh.Scheduler.Router.Search.{Outcome, found_path}
use tdmh.Scheduler.Router.Run.{
  Dfs, enter, dfs_children, depth_first_search, shortest, avoids, inner, find_independent_paths,
  same_path, remove_path, pick, secondary_path, is_redundancy, downgraded, single_copies,
  route_single, temporal_copies, spatial_copies, route_path,
}

-- Hops for a stream, along links, from a node to another.
pub data Connects (g : Snapshot) (id : StreamId) (src : ℕ) : ℕ → List ScheduleElement → Type 0 where
  nothing : Connects g id src src []
  hop :
      {x : ℕ} {block : List ScheduleElement}
      → Connects g id src x block
      → (e : ScheduleElement) → e.id ≡ id
      → e.tx ≡ x
      → g.has_edge x e.rx ≡ true
      → Connects g id src e.rx (block ++ e ∷ [])

abbrev last_or : ℕ → List ℕ → ℕ
last_or d [] = d
last_or d (x ∷ xs) = last_or x xs

last_or-append : (d y : ℕ) (xs : List ℕ) → last_or d (xs ++ y ∷ []) ≡ y
last_or-append d y [] = refl
last_or-append d y (x ∷ xs) = last_or-append x y xs

Route-last :
    {g : Snapshot} {root x : ℕ} {path : List ℕ} (d : ℕ) → Route g root x path → last_or d path ≡ x
Route-last d here = refl
Route-last d (onward {y = y} {path = path} r ne edge) = last_or-append d y path

hops-append :
    (stream : MasterStreamInfo) (tx y : ℕ) (xs : List ℕ)
    → last_or tx xs ≢ y
    → hops stream tx (xs ++ y ∷ []) ≡ hops stream tx xs ++ hop_element stream (last_or tx xs) y ∷ []
unfolding hops
hops-append stream tx y [] ne = ground arith
hops-append stream tx y (x ∷ xs) ne =
    let rest = hops-append stream x y xs ne in
    elim (Bool-cases (x == tx)) [
      | inl e ↦
          let same : x ≡ tx = ground arith in
          rw (e, hops)
            (subst
              (λ z.
                hops stream z (xs ++ y ∷ [])
                ≡ hops stream z xs ++ hop_element stream (last_or x xs) y ∷ [])
              same rest)
      | inr e ↦ rw (e, hops) (ap (◌∷◌ (hop_element stream tx x)) rest)
    ]

pub Route-length :
    {g : Snapshot} {root x : ℕ} {path : List ℕ} → Route g root x path → 0 < length path
Route-length here = omega arith
Route-length (onward {y = y} {path = path} r ne edge) = omega (arith, length-append path (y ∷ []))

path_to_schedule-append :
    (stream : MasterStreamInfo) (x y : ℕ) (path : List ℕ)
    → 0 < length path
    → ((d : ℕ) → last_or d path ≡ x)
    → x ≢ y
    → path_to_schedule (path ++ y ∷ []) stream
      ≡ path_to_schedule path stream ++ hop_element stream x y ∷ []
unfolding path_to_schedule
path_to_schedule-append stream x y [] h e ne = absurd (omega arith)
path_to_schedule-append stream x y (t ∷ path) h e ne =
    hops-append stream t y (t ∷ path) (λ q. ne (sym (e t) ∙ q))
    ∙ ap (λ z. hops stream t (t ∷ path) ++ hop_element stream z y ∷ []) (e t)

path_to_schedule-Connects :
    {g : Snapshot} {root x : ℕ} {path : List ℕ} (stream : MasterStreamInfo)
    → Route g root x path
    → Connects g stream.id root x (path_to_schedule path stream)
unfolding path_to_schedule hops hop_element
path_to_schedule-Connects {root = root} stream here =
    let same : (root == root) ≡ true = ground arith in rw same nothing
path_to_schedule-Connects stream (onward {x = x} {y = y} {path = path} r ne edge) =
    rw (path_to_schedule-append stream x y path (Route-length r) (λ d. Route-last d r) ne)
      (hop (path_to_schedule-Connects stream r) (hop_element stream x y) refl refl edge)

module _ (g : Snapshot) (net : IsNetwork g) (src dst : ℕ)
    (no_loops : (x : ℕ) → g.has_edge x x ≡ false) where
  abbrev AreRoutes : List (List ℕ) → Type 0
  AreRoutes = All (Route g src dst)

  enter-AreRoutes :
      (node : ℕ) (path : List ℕ) (children : Dfs → Dfs) (s : Dfs)
      → Route g src node path
      → ((s' : Dfs) → AreRoutes s'.all_paths → AreRoutes (children s').all_paths)
      → AreRoutes s.all_paths
      → AreRoutes (enter node dst path children s).all_paths
  enter-AreRoutes node path children s r keep h = elim (Bool-cases (node == dst)) [
    | inl e ↦
        let same : node ≡ dst = ground arith in
        rw e (
          All-append (Route g src dst) s.all_paths (path ∷ []) h
            (subst (λ z. Route g src z path) same r, tt))
    | inr e ↦ rw e (keep (record s { visited = add node s.visited }) h)
  ]

  neighbour :
      (node x : ℕ) → elem x (g.get_edges node) ≡ true → (g.has_edge node x ≡ true) × (node ≢ x)
  neighbour node x e =
      let listed = net.listed node x in
      let edge : g.has_edge node x ≡ true = ground arith in
      (edge, λ same. absurd (cc (ap (g.has_edge node) same, no_loops node, edge)))

  dfs_children-AreRoutes :
      (limit node : ℕ) (path children : List ℕ) (s : Dfs)
      → Route g src node path
      → ((x : ℕ) → elem x children ≡ true → (g.has_edge node x ≡ true) × (node ≢ x))
      → AreRoutes s.all_paths
      → AreRoutes (dfs_children limit g dst path children s).all_paths
  unfolding dfs_children
  dfs_children-AreRoutes limit node path [] s r ok h = h
  dfs_children-AreRoutes zero node path (child ∷ children) s r ok h = h
  dfs_children-AreRoutes (suc limit) node path (child ∷ children) s r ok h =
      let (edge, ne) = ok child (ground arith) in
      let deeper = onward r ne edge in
      let inside =
        enter-AreRoutes child (path ++ child ∷ [])
          (dfs_children limit g dst (path ++ child ∷ []) (g.get_edges child)) s deeper
          (λ s' h'.
            dfs_children-AreRoutes limit child (path ++ child ∷ []) (g.get_edges child) s' deeper
              (λ x e. neighbour child x e) h')
          h in
      elim (Bool-cases (contains child s.visited)) [
        | inl e ↦
            rw e
              (dfs_children-AreRoutes limit node path children s r (λ x m. ok x (ground arith)) h)
        | inr e ↦ rw e (
            dfs_children-AreRoutes limit node path children
              (enter child dst (path ++ child ∷ [])
                (dfs_children limit g dst (path ++ child ∷ []) (g.get_edges child)) s)
              r (λ x m. ok x (ground arith)) inside)
      ]

  depth_first_search-AreRoutes : (limit : ℕ) → AreRoutes (depth_first_search g src dst limit)
  unfolding depth_first_search
  depth_first_search-AreRoutes limit =
      enter-AreRoutes src (src ∷ []) (dfs_children (suc limit) g dst (src ∷ []) (g.get_edges src))
        (record { visited = []; all_paths = [] }) here
        (λ s h.
          dfs_children-AreRoutes (suc limit) src (src ∷ []) (g.get_edges src) s here
            (λ x e. neighbour src x e) h)
        tt

  shortest-Route :
      (best : List ℕ) (paths : List (List ℕ))
      → Route g src dst best
      → AreRoutes paths
      → Route g src dst (shortest best paths)
  unfolding shortest
  shortest-Route best [] r h = r
  shortest-Route best (p ∷ paths) r h = elim (Bool-cases (ltb (length p) (length best))) [
    | inl e ↦ rw e (shortest-Route p paths h.0 h.1)
    | inr e ↦ rw e (shortest-Route best paths r h.1)
  ]

  find_independent_paths-AreRoutes :
      (paths : List (List ℕ)) (primary : List ℕ)
      → AreRoutes paths
      → AreRoutes (find_independent_paths paths primary)
  unfolding find_independent_paths
  find_independent_paths-AreRoutes [] primary h = tt
  find_independent_paths-AreRoutes (p ∷ paths) primary h =
      let rest = find_independent_paths-AreRoutes paths primary h.1 in
      elim (Bool-cases (avoids (inner primary) p)) [ inl e ↦ rw e (h.0, rest) | inr e ↦ rw e rest ]

  remove_path-AreRoutes :
      (path : List ℕ) (paths : List (List ℕ)) → AreRoutes paths → AreRoutes (remove_path path paths)
  unfolding remove_path
  remove_path-AreRoutes path [] h = tt
  remove_path-AreRoutes path (p ∷ paths) h =
      let rest = remove_path-AreRoutes path paths h.1 in
      elim (Bool-cases (same_path p path)) [ inl e ↦ rw e rest | inr e ↦ rw e (h.0, rest) ]

  pick-Route :
      (others independent : List (List ℕ)) (solution : List ℕ)
      → AreRoutes others
      → AreRoutes independent
      → pick others independent ≡ some solution
      → Route g src dst solution
  pick-Route [] independent solution h k e = absurd (cc e)
  pick-Route (p ∷ paths) [] solution h k e =
      let found : shortest p (p ∷ paths) ≡ solution = cc e in
      subst (Route g src dst) found (shortest-Route p (p ∷ paths) h.0 h)
  pick-Route (p ∷ paths) (q ∷ qs) solution h k e =
      let found : shortest q (q ∷ qs) ≡ solution = cc e in
      subst (Route g src dst) found (shortest-Route q (q ∷ qs) k.0 k)

  secondary_path-Route :
      (extra : List (List ℕ)) (path solution : List ℕ)
      → AreRoutes extra
      → secondary_path extra path ≡ some solution
      → Route g src dst solution
  unfolding secondary_path
  secondary_path-Route extra path solution h e =
      let others = remove_path-AreRoutes path extra h in
      pick-Route (remove_path path extra) (find_independent_paths (remove_path path extra) path)
        solution others (find_independent_paths-AreRoutes (remove_path path extra) path others) e

-- The blocks of a stream: each leads along links from its source to its destination.
abbrev pub AreConnected : Snapshot → MasterStreamInfo → List (List ScheduleElement) → Type 0
AreConnected g stream = All (Connects g stream.id stream.id.src stream.id.dst)

module _ (g : Snapshot) (net : IsNetwork g) (no_loops : (x : ℕ) → g.has_edge x x ≡ false) where
  spatial_copies-AreConnected :
      (stream : MasterStreamInfo) (path : List ℕ) (schedule : List ScheduleElement)
      → Connects g stream.id stream.id.src stream.id.dst schedule
      → AreConnected g stream (spatial_copies g stream path schedule)
  unfolding spatial_copies
  spatial_copies-AreConnected stream path schedule c =
      elim (Bool-cases
        (is_redundancy double_spatial stream || is_redundancy triple_spatial stream)) [
          | inr e ↦ rw e tt
          | inl e ↦ elim (Option-cases (secondary_path extra path)) [
            | inl o ↦ rw e (rw o (c, tt))
            | inr (solution, o) ↦ rw e (
                rw o (
                  path_to_schedule-Connects stream (
                      secondary_path-Route g net stream.id.src stream.id.dst no_loops extra path
                        solution
                        (depth_first_search-AreRoutes g net stream.id.src stream.id.dst no_loops
                          (length path + 1))
                        o),
                  tt,
                ))
          ]
        ]
    where
      extra : List (List ℕ)
      extra = depth_first_search g stream.id.src stream.id.dst (length path + 1)

  temporal_copies-AreConnected :
      (stream : MasterStreamInfo) (schedule : List ScheduleElement)
      → Connects g stream.id stream.id.src stream.id.dst schedule
      → AreConnected g stream (temporal_copies stream schedule)
  unfolding temporal_copies
  temporal_copies-AreConnected stream schedule c =
      elim (Bool-cases (is_redundancy double stream || is_redundancy triple_spatial stream)) [
        | inl e ↦ rw e (c, tt)
        | inr e ↦ elim (Bool-cases (is_redundancy triple stream)) [
          | inl f ↦ rw e (rw f (c, (c, tt)))
          | inr f ↦ rw e (rw f tt)
        ]
      ]

  single_copies-AreConnected :
      (stream s : MasterStreamInfo) (block : List ScheduleElement)
      → Connects g stream.id stream.id.src stream.id.dst block
      → AreConnected g stream (single_copies s block)
  single_copies-AreConnected stream s block c = elim (Bool-cases (is_redundancy double s)) [
    | inl e ↦ rw e (c, tt)
    | inr e ↦ elim (Bool-cases (is_redundancy triple s)) [
      | inl f ↦ rw e (rw f (c, (c, tt)))
      | inr f ↦ rw e (rw f tt)
    ]
  ]

  downgraded-id : (stream : MasterStreamInfo) → (downgraded stream).id ≡ stream.id
  unfolding set_redundancy
  downgraded-id stream = elim (Bool-cases (is_redundancy double_spatial stream)) [
    | inl e ↦ rw e refl
    | inr e ↦ elim (Bool-cases (is_redundancy triple_spatial stream)) [
      | inl f ↦ rw e (rw f refl)
      | inr f ↦ rw e (rw f refl)
    ]
  ]

  pub route_path-AreConnected :
      (max_hops : ℕ) (stream : MasterStreamInfo) (path : List ℕ)
      → Outcome g stream.id.src stream.id.dst path
      → AreConnected g stream (route_path g max_hops stream path)
  route_path-AreConnected max_hops stream [] o = tt
  route_path-AreConnected max_hops stream (src ∷ hops) (found_path r) =
      let c = path_to_schedule-Connects stream r in
      elim (Bool-cases (ltb max_hops (length hops))) [
        | inl e ↦ rw e tt
        | inr e ↦ rw e (
          c,
          All-append (Connects g stream.id stream.id.src stream.id.dst)
              (temporal_copies stream (path_to_schedule (src ∷ hops) stream)) _
              (temporal_copies-AreConnected stream _ c)
              (spatial_copies-AreConnected stream (src ∷ hops) _ c),
        )
      ]

  pub route_single-AreConnected :
      (stream : MasterStreamInfo)
      → g.has_edge stream.id.src stream.id.dst ≡ true
      → AreConnected g stream (route_single stream)
  unfolding route_single single_hop_element
  route_single-AreConnected stream edge =
      let same = downgraded-id stream in
      let e = single_hop_element (downgraded stream) in
      let reaches : e.rx ≡ stream.id.dst = ap (λ i. i.dst) same in
      let leaves : e.tx ≡ stream.id.src = ap (λ i. i.src) same in
      let single : Connects g stream.id stream.id.src stream.id.dst (e ∷ []) =
        subst (λ d. Connects g stream.id stream.id.src d (e ∷ [])) reaches
          (hop nothing e same leaves (ap (g.has_edge stream.id.src) reaches ∙ edge)) in
      (single, single_copies-AreConnected stream (downgraded stream) (e ∷ []) single)
