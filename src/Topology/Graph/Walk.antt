-- ===== src/Topology/Graph/Walk.antt =====
-- The walk of removeUnreachableNodes ends, and finds the nodes with a path from node 0.
use tdmh.Base.{
  ℕ, zero, suc, ◌<◌, ◌≡◌, refl, sym, subst, ◌∙◌, ◌⊎◌, inl, inr, nat_keyed, lookup, IsOrderedFrom,
  insert-IsOrderedFrom, lookup_below, Set, contains, contains-add, [], ◌∷◌, some, Bool, true, false,
  ◌&&◌, ◌||◌, not, ltb, ◌==◌, for_from_inv, arith, List-cases, unseen, unseen-falls, unseen-le,
}
use tdmh.Topology.Graph.{Graph, Search, edge, offer, expand, walk, walk_from_master}

-- The nodes to which a path of edges leads from the master, node 0.
pub data Reaches (g : Graph) : ℕ → Type 0 where
  master : Reaches g 0
  along : {x y : ℕ} → Reaches g x → y < g.max_nodes → edge g x y ≡ true → Reaches g y

abbrev is_open : Search → ℕ → Bool
is_open w y = contains y w.before || contains y w.ahead

-- The iterator stands at or before the first node from `c` on.
record Cursor (c : ℕ) (w : Search) : Type 0 where
  ahead_ordered : IsOrderedFrom c w.ahead
  before_ordered : IsOrderedFrom 0 w.before
  behind : (x : ℕ) → contains x w.before ≡ true → x < c

module _ (g : Graph) where
  abbrev offered : Search → ℕ → ℕ → Bool
  offered w node y = not (contains y w.reachable) && edge g node y && not (y == node)

  record Scanned (node : ℕ) (w : Search) (i : ℕ) (w' : Search) : Type 0 where
    cursor : Cursor (suc node) w'
    same : w'.reachable ≡ w.reachable
    opens : (y : ℕ) → is_open w' y ≡ (is_open w y || (ltb y i && offered w node y))

  offer_lem :
      (node i : ℕ) (w t : Search) → Scanned node w i t → Scanned node w (suc i) (offer g node i t)
  unfolding offer
  offer_lem node i w t h = record {
    cursor = record {
      ahead_ordered = ground (arith, insert-IsOrderedFrom (suc node) i tt t.ahead);
      before_ordered = ground (arith, insert-IsOrderedFrom 0 i tt t.before);
      behind = λ x. ground (arith, h.cursor.behind x, contains-add i x t.before);
    };
    same = ground arith;
    opens = λ y. ground (arith, h.opens y, contains-add i y t.before, contains-add i y t.ahead);
  }

  record Expanded (node : ℕ) (w w' : Search) : Type 0 where
    cursor : Cursor (suc node) w'
    reach : (y : ℕ) → contains y w'.reachable ≡ (node == y || contains y w.reachable)
    opens : (y : ℕ) → is_open w' y ≡ (is_open w y || (ltb y g.max_nodes && offered w node y))

  expand_lem : (node : ℕ) (w : Search) → Cursor (suc node) w → Expanded node w (expand g node w)
  unfolding expand
  expand_lem node w h =
      let scanned =
        for_from_inv (Scanned node w) 0 g.max_nodes (offer g node) w (λ i t _. offer_lem node i w t)
          (record { cursor = h; same = refl; opens = λ y. ground arith }) in
      record {
        cursor = record {
          ahead_ordered = scanned.cursor.ahead_ordered;
          before_ordered = scanned.cursor.before_ordered;
          behind = scanned.cursor.behind;
        };
        reach = λ y. ground (arith, scanned.same, contains-add node y w.reachable);
        opens = λ y. ground (arith, scanned.opens y);
      }

  record Inv (c : ℕ) (w : Search) : Type 0 where
    cursor : Cursor c w
    sound : (y : ℕ) → contains y w.reachable ≡ true → Reaches g y
    sound_open : (y : ℕ) → is_open w y ≡ true → Reaches g y
    closed :
        (x y : ℕ)
        → contains x w.reachable ≡ true
        → y < g.max_nodes
        → edge g x y ≡ true
        → (contains y w.reachable || is_open w y) ≡ true
    disjoint : (y : ℕ) → is_open w y ≡ true → contains y w.reachable ≡ false
    bounded : (y : ℕ) → is_open w y ≡ true → y < g.max_nodes
    root : (contains 0 w.reachable || is_open w 0) ≡ true

  -- The node under the iterator is in neither side of what is left.
  taken-closed :
      (c node : ℕ) (w : Search) (rest : Set ℕ)
      → w.ahead ≡ (node, tt) ∷ rest
      → Cursor c w
      → Cursor (suc node) (record w { ahead = rest })
        × (contains node w.before ≡ false)
        × (contains node rest ≡ false)
        × ((y : ℕ) → is_open w y ≡ (node == y || is_open (record w { ahead = rest }) y))
  unfolding lookup
  taken-closed c node w rest e h =
      let order : IsOrderedFrom c ((node, tt) ∷ rest) = subst (IsOrderedFrom c) e h.ahead_ordered in
      (
        record {
          ahead_ordered = order.1;
          before_ordered = h.before_ordered;
          behind = λ x p. omega (arith, h.behind x p);
        },
        ground (arith, h.behind node),
        rw (lookup_below (suc node) node rest (omega arith) order.1),
        λ y. rw e (ground arith),
      )

  reach-cases :
      {node : ℕ} {w w' : Search}
      → Expanded node w w'
      → (y : ℕ) → contains y w'.reachable ≡ true
      → (node ≡ y) ⊎ (contains y w.reachable ≡ true)
  reach-cases {node} {w} x y p = ground (arith, x.reach y)

  opens-cases :
      {node : ℕ} {w w' : Search}
      → Expanded node w w'
      → (y : ℕ) → is_open w' y ≡ true
      → (is_open w y ≡ true) ⊎ ((y < g.max_nodes) × (edge g node y ≡ true))
  opens-cases {node} {w} x y p = ground (arith, x.opens y)

  step-Inv :
      (c node : ℕ) (w : Search) (rest : Set ℕ)
      → w.ahead ≡ (node, tt) ∷ rest
      → Inv c w
      → Inv (suc node) (expand g node (record w { ahead = rest }))
  step-Inv c node w rest e h =
      let w₀ = record w { ahead = rest } in
      let (cur, off_before, off_rest, opens) = taken-closed c node w rest e h.cursor in
      let x = expand_lem node w₀ cur in
      let opened : is_open w node ≡ true = ground (arith, opens node) in
      let here : Reaches g node = h.sound_open node opened in
      record {
        cursor = x.cursor;
        sound = λ y p. elim (reach-cases x y p) [
          | inl same ↦ subst (Reaches g) same here
          | inr old ↦ h.sound y old
        ];
        sound_open = λ y p. elim (opens-cases x y p) [
          | inl old ↦ h.sound_open y (ground (arith, opens y))
          | inr (lt, joined) ↦ along here lt joined
        ];
        closed = λ a y p lt joined.
            ground (arith, x.reach a, x.reach y, x.opens y, opens y, h.closed a y);
        disjoint = λ y p. ground (arith, x.reach y, x.opens y, opens y, h.disjoint y);
        bounded = λ y p. ground (arith, x.opens y, opens y, h.bounded y);
        root = ground (arith, x.reach 0, x.opens 0, opens 0, h.root);
      }

  -- What the walk gives: the nodes that can be reached from the master.
  pub record IsClosure (s : Set ℕ) : Type 0 where
    pub sound : (y : ℕ) → contains y s ≡ true → Reaches g y
    pub complete : {y : ℕ} → Reaches g y → contains y s ≡ true

  finish : (c : ℕ) (w : Search) → w.ahead ≡ [] → w.before ≡ [] → Inv c w → IsClosure w.reachable
  unfolding lookup
  finish c w a b h = record { sound = h.sound; complete = all }
    where
      nothing : (y : ℕ) → is_open w y ≡ false
      nothing y = rw (a, b)

      all : {y : ℕ} → Reaches g y → contains y w.reachable ≡ true
      all master = ground (arith, h.root, nothing 0)
      all (along {x} {y} r lt joined) = ground (arith, h.closed x y (all r) lt joined, nothing y)

  -- The iterator goes back to the first open node.
  rewind :
      (c : ℕ) (w : Search)
      → w.ahead ≡ []
      → Inv c w
      → Inv 0 (record { reachable = w.reachable; before = []; ahead = w.before })
  unfolding lookup
  rewind c w a h =
      let moved : (y : ℕ) → contains y w.before ≡ is_open w y = λ y. rw a (ground arith) in
      record {
        cursor = record {
          ahead_ordered = h.cursor.before_ordered;
          before_ordered = tt;
          behind = λ x p. absurd (cc p);
        };
        sound = h.sound;
        sound_open = λ y p. h.sound_open y (sym (moved y) ∙ p);
        closed = λ x y p lt joined. ground (arith, moved y, h.closed x y p lt joined);
        disjoint = λ y p. h.disjoint y (sym (moved y) ∙ p);
        bounded = λ y p. h.bounded y (sym (moved y) ∙ p);
        root = ground (arith, moved 0, h.root);
      }

  -- One step from an open node leaves fewer nodes unseen.
  step-falls :
      (c node : ℕ) (w : Search) (rest : Set ℕ)
      → w.ahead ≡ (node, tt) ∷ rest
      → Inv c w
      → suc (unseen g.max_nodes (expand g node (record w { ahead = rest })).reachable)
        ≡ unseen g.max_nodes w.reachable
  step-falls c node w rest e h =
      let (cur, _, _, opens) = taken-closed c node w rest e h.cursor in
      let x = expand_lem node (record w { ahead = rest }) cur in
      let opened : is_open w node ≡ true = ground (arith, opens node) in
      unseen-falls g.max_nodes node w.reachable _ (h.bounded node opened) (h.disjoint node opened)
        x.reach

  walk_lem :
      (fuel c : ℕ) (w : Search)
      → Inv c w
      → unseen g.max_nodes w.reachable < fuel
      → (s : Set ℕ) × (walk g fuel w ≡ some s) × IsClosure s
  unfolding walk
  walk_lem zero c w h f = absurd (omega arith)
  walk_lem (suc fuel) c w h f = elim (List-cases w.ahead) [
    | inr ((node, _), rest, e) ↦
        let falls = step-falls c node w rest e h in
        let (s, r, ok) =
          walk_lem fuel (suc node) (expand g node (record w { ahead = rest }))
            (step-Inv c node w rest e h) (omega arith) in
        (s, rw (e, walk) r, ok)
    | inl a ↦ elim (List-cases w.before) [
      | inl b ↦ (w.reachable, rw (a, walk) (rw b), finish c w a b h)
      | inr ((node, _), rest, e) ↦
          let back : Search = record { reachable = w.reachable; before = []; ahead = w.before } in
          let h' = rewind c w a h in
          let falls = step-falls 0 node back rest e h' in
          let (s, r, ok) =
            walk_lem fuel (suc node) (expand g node (record back { ahead = rest }))
              (step-Inv 0 node back rest e h') (omega arith) in
          (s, rw (a, walk) (rw e r), ok)
    ]
  ]

  -- The walk ends within one step for each node, with the nodes that can be reached.
  pub walk_from_master_lem :
      0 < g.max_nodes → (s : Set ℕ) × (walk_from_master g ≡ some s) × IsClosure s
  unfolding walk_from_master lookup
  walk_from_master_lem h =
      let w : Search = record { reachable = []; before = []; ahead = (0, tt) ∷ [] } in
      walk_lem (suc g.max_nodes) 0 w (start h) (omega (arith, unseen-le g.max_nodes []))
    where
      start : 0 < g.max_nodes → Inv 0 (record { reachable = []; before = []; ahead = (0, tt) ∷ [] })
      start h = record {
        cursor = record {
          ahead_ordered = (omega arith, tt);
          before_ordered = tt;
          behind = λ x p. absurd (cc p);
        };
        sound = λ y p. absurd (cc p);
        sound_open = λ y p. subst (Reaches g) (ground arith) master;
        closed = λ x y p lt joined. absurd (cc p);
        disjoint = λ y p. refl;
        bounded = λ y p. ground arith;
        root = refl;
      }
