-- ===== src/Scheduler/Router/Run/Served.antt =====
-- Router::run as a whole: the blocks of each stream, and how many there are.
use tdmh.Base.{
  ℕ, suc, ◌<◌, ◌≡◌, refl, inl, inr, length, length-append, List, [], ◌∷◌, ◌++◌, some, true, false,
  ◌&&◌, ◌||◌, not, ltb, if◌then◌else◌, arith, Bool-cases,
}
use tdmh.Topology.Snapshot.{Snapshot, IsNetwork}
use tdmh.Stream.Params.{MasterStreamInfo, set_redundancy}
use tdmh.Stream.Redundancy.{double_spatial, triple_spatial, copies}
use tdmh.Scheduler.Element.{ScheduleElement}
use tdmh.Scheduler.Router.{breadth_first_search, path_to_schedule}
use tdmh.Scheduler.Router.Paths.{Joined}
use tdmh.Scheduler.Router.Search.{Outcome, found_path, no_path, breadth_first_search_lem}
use tdmh.Scheduler.Router.Run.{
  is_redundancy, downgraded, single_copies, route_single, temporal_copies, spatial_copies,
  route_path, route_stream, run,
}
use tdmh.Scheduler.Router.Run.Connected.{
  Route-length, AreConnected, route_path-AreConnected, route_single-AreConnected,
}

-- Why a stream has the blocks that it has: as many as its redundancy asks for, or none, since its
-- nodes are not there, no path joins them, or the path that is found has too many hops.
pub data Served (g : Snapshot) (max_hops : ℕ) (stream : MasterStreamInfo)
    : List (List ScheduleElement) → Type 0 where
  served :
      {blocks : List (List ScheduleElement)}
      → 0 < length blocks
      → ((n : ℕ) → copies stream.parameters.redundancy ≡ some n → length blocks ≡ n)
      → Served g max_hops stream blocks
  absent :
      (g.has_node stream.id.src && g.has_node stream.id.dst) ≡ false → Served g max_hops stream []
  unjoined : ¬ Joined g stream.id.src stream.id.dst → Served g max_hops stream []
  distant :
      (path : List ℕ)
      → breadth_first_search g stream.id.src stream.id.dst ≡ some path
      → suc max_hops < length path
      → Served g max_hops stream []

length-single_copies :
    (stream : MasterStreamInfo) (block : List ScheduleElement) (n : ℕ)
    → copies stream.parameters.redundancy ≡ some n
    → suc (length (single_copies (downgraded stream) block)) ≡ n
unfolding copies set_redundancy
length-single_copies stream block n e = ground arith

length-spatial_copies :
    (g : Snapshot) (stream : MasterStreamInfo) (path : List ℕ) (schedule : List ScheduleElement)
    → length (spatial_copies g stream path schedule) ≡ (
        if is_redundancy double_spatial stream || is_redundancy triple_spatial stream then 1 else 0)
unfolding spatial_copies
length-spatial_copies g stream path schedule = ground arith

length-path_copies :
    (g : Snapshot) (stream : MasterStreamInfo) (path : List ℕ) (schedule : List ScheduleElement)
    (n : ℕ)
    → copies stream.parameters.redundancy ≡ some n
    → suc (length (temporal_copies stream schedule ++ spatial_copies g stream path schedule)) ≡ n
unfolding copies temporal_copies
length-path_copies g stream path schedule n e = ground (
  arith,
  length-append (temporal_copies stream schedule) (spatial_copies g stream path schedule),
  length-spatial_copies g stream path schedule,
)

module _ (g : Snapshot) (net : IsNetwork g) (no_loops : (x : ℕ) → g.has_edge x x ≡ false) where
  -- The streams in their order, each with its blocks.
  pub data AreRouted (max_hops : ℕ)
      : List MasterStreamInfo → List (List ScheduleElement) → Type 0 where
    no_streams : AreRouted max_hops [] []
    next_stream :
        {streams : List MasterStreamInfo} {rest : List (List ScheduleElement)}
        (stream : MasterStreamInfo) (blocks : List (List ScheduleElement))
        → AreConnected g stream blocks
        → Served g max_hops stream blocks
        → AreRouted max_hops streams rest
        → AreRouted max_hops (stream ∷ streams) (blocks ++ rest)

  route_path-Served :
      (max_hops : ℕ) (stream : MasterStreamInfo) (path : List ℕ)
      → breadth_first_search g stream.id.src stream.id.dst ≡ some path
      → Outcome g stream.id.src stream.id.dst path
      → Served g max_hops stream (route_path g max_hops stream path)
  route_path-Served max_hops stream [] e (found_path r) = absurd (omega (arith, Route-length r))
  route_path-Served max_hops stream [] e (no_path f) = unjoined f
  route_path-Served max_hops stream (src ∷ hops) e o =
      elim (Bool-cases (ltb max_hops (length hops))) [
        | inl far ↦ rw far (distant (src ∷ hops) e (ground arith))
        | inr near ↦ rw near (
            served (omega arith) (λ n c.
              length-path_copies g stream (src ∷ hops) (path_to_schedule (src ∷ hops) stream) n c))
      ]

  route_stream_lem :
      (max_hops : ℕ) (stream : MasterStreamInfo)
      → (blocks : List (List ScheduleElement)) × (route_stream g max_hops stream ≡ some blocks)
        × AreConnected g stream blocks
        × Served g max_hops stream blocks
  unfolding route_stream breadth_first_search route_single
  route_stream_lem max_hops stream = elim (Bool-cases (g.has_edge stream.id.src stream.id.dst)) [
    | inl edge ↦ (
      route_single stream,
      rw (edge, route_stream),
      route_single-AreConnected g net no_loops stream edge,
      served (omega arith) (λ n c. length-single_copies stream _ n c),
    )
    | inr far ↦ elim (Bool-cases (g.has_node stream.id.src && g.has_node stream.id.dst)) [
      | inr missing ↦
          let refused : (not (g.has_node stream.id.src) || not (g.has_node stream.id.dst)) ≡ true =
            ground arith in
          ([], rw far (rw refused), tt, absent missing)
      | inl present ↦
          let (path, e, o) =
            breadth_first_search_lem g net stream.id.src stream.id.dst no_loops (ground arith)
              (ground arith) in
          (
            route_path g max_hops stream path,
            rw far (rw e),
            route_path-AreConnected g net no_loops max_hops stream path o,
            route_path-Served max_hops stream path e o,
          )
    ]
  ]

  -- In a network where no node is linked to itself, the router returns. It gives each stream, in
  -- their order, blocks of hops that follow on each other along links from the source of the stream
  -- to its destination: as many as its redundancy asks for, or none where its nodes are not there,
  -- no path joins them, or the path that is found has too many hops.
  pub run-AreRouted :
      (max_hops : ℕ) (streams : List MasterStreamInfo)
      → (blocks : List (List ScheduleElement)) × (run g max_hops streams ≡ some blocks)
        × AreRouted max_hops streams blocks
  unfolding run
  run-AreRouted max_hops [] = ([], refl, no_streams)
  run-AreRouted max_hops (stream ∷ streams) =
      let (blocks, e, c, s) = route_stream_lem max_hops stream in
      let (rest, f, r) = run-AreRouted max_hops streams in
      (blocks ++ rest, rw (e, run) (rw f), next_stream stream blocks c s r)
