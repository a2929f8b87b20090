-- ===== src/Topology/Collect/Loop.antt =====
-- The loops of `doReceivedTopology` over the bits of an element.
use tdmh.Base.{
  ℕ, zero, suc, ◌+◌, ◌<◌, ◌≡◌, refl, ap, ◌∙◌, inl, inr, Option, some, Bool, true, false, ◌&&◌, not,
  ◌==◌, ltb, leb, if◌then◌else◌, arith, ==_iff, Bool-cases,
}
use tdmh.Bitset.{RuntimeBitset, get_bit?, is_set}
use tdmh.Topology.Graph.{Graph, get_bit}
use tdmh.Topology.Graph.Edges.{IsGraph, Rewires, joins}
use tdmh.Topology.Collect.{NetworkTopology, note_added, note_removed, receive_bits}

-- Two topologies that differ in what the checks have noted only.
pub record Same (t t' : NetworkTopology) : Type 0 where
  pub graph : t'.graph ≡ t.graph
  pub weak_graph : t'.weak_graph ≡ t.weak_graph
  pub uses : t'.use_weak_topologies ≡ t.use_weak_topologies

pub note_added-Same : (link : ℕ × ℕ) (t : NetworkTopology) → Same t (note_added link t)
note_added-Same link t = elim (Bool-cases t.schedule_in_progress) [
  | inl e ↦ rw e (record { graph = refl; weak_graph = refl; uses = refl })
  | inr e ↦ rw e (record { graph = refl; weak_graph = refl; uses = refl })
]

pub note_removed-Same : (link : ℕ × ℕ) (t : NetworkTopology) → Same t (note_removed link t)
note_removed-Same link t = elim (Bool-cases t.schedule_in_progress) [
  | inl e ↦ rw e (record { graph = refl; weak_graph = refl; uses = refl })
  | inr e ↦ rw e (record { graph = refl; weak_graph = refl; uses = refl })
]

pub if-Same : (b : Bool) (t t' : NetworkTopology) → Same t t' → Same t (if b then t' else t)
if-Same true t t' s = s
if-Same false t t' s = record { graph = refl; weak_graph = refl; uses = refl }

-- A step has written `b` to the edge between `src` and `j`, unless these are the same.
abbrev pub Writes : ℕ → ℕ → Bool → Graph → Graph → Type 0
Writes src j b g g' =
    (x y : ℕ)
    → x < g.max_nodes
    → y < g.max_nodes
    → get_bit g' x y ≡ (if not (j == src) && joins src j x y then some b else get_bit g x y)

abbrev pub read : (ℕ → Bool) → ℕ → ℕ → ℕ → ℕ → ℕ → Option Bool → Option Bool
read bits src i count x y old =
    if not (x == y) && x == src && leb i y && ltb y (i + count)
    then some (bits y)
    else if not (x == y) && y == src && leb i x && ltb x (i + count)
    then some (bits x)
    else old

read-write :
    (bits : ℕ → Bool) (src i count x y : ℕ) (old : Option Bool)
    → read bits src
        (suc i)
        count
        x
        y
        (if not (i == src) && joins src i x y then some (bits i) else old)
      ≡ read bits src i (suc count) x y old
read-write bits src i count x y old = elim (Bool-cases (y == i)) [
  | inl e ↦ elim (Bool-cases (x == i)) [
    | inl e' ↦ ground arith
    | inr n' ↦ ground (arith, ap bits ((==_iff y i).0 e))
  ]
  | inr n ↦ elim (Bool-cases (x == i)) [
    | inl e' ↦ ground (arith, ap bits ((==_iff x i).0 e'))
    | inr n' ↦ ground arith
  ]
]

-- The bits from `i` on, `count` of them, are the edges of `src`.
abbrev pub Reads : ℕ → RuntimeBitset → ℕ → ℕ → Graph → Graph → Type 0
Reads src bits i count g g' =
    (x y : ℕ)
    → x < g.max_nodes
    → y < g.max_nodes
    → get_bit g' x y ≡ read (λ z. is_set (get_bit? bits z)) src i count x y (get_bit g x y)

-- The graph that a loop changes is `pick`, the other one is `other`.
module _ (pick other : NetworkTopology → Graph) where
  pub record Stays (t t' : NetworkTopology) : Type 0 where
    pub valid : IsGraph (pick t')
    pub nodes : (pick t').max_nodes ≡ (pick t).max_nodes
    pub others : other t' ≡ other t
    pub uses : t'.use_weak_topologies ≡ t.use_weak_topologies

  abbrev pub Steps : ℕ → (ℕ → Bool → NetworkTopology → Option NetworkTopology) → Type 0
  Steps src body =
      (j : ℕ) (b : Bool) (t : NetworkTopology)
      → IsGraph (pick t)
      → src < (pick t).max_nodes
      → j < (pick t).max_nodes
      → (t' : NetworkTopology) × (body j b t ≡ some t')
        × Stays t t'
        × Writes src j b (pick t) (pick t')

  pub receive_bits-Reads :
      (src : ℕ) (body : ℕ → Bool → NetworkTopology → Option NetworkTopology) (i count : ℕ)
      (bits : RuntimeBitset) (t : NetworkTopology)
      → Steps src body
      → IsGraph (pick t)
      → src < (pick t).max_nodes
      → i + count < suc (pick t).max_nodes
      → (t' : NetworkTopology) × (receive_bits body i count bits t ≡ some t')
        × Stays t t'
        × Reads src bits i count (pick t) (pick t')
  unfolding receive_bits
  receive_bits-Reads src body i zero bits t step ok hs h = (
    t,
    refl,
    record { valid = ok; nodes = refl; others = refl; uses = refl },
    λ x y hx hy. ground arith,
  )
  receive_bits-Reads src body i (suc count) bits t step ok hs h =
      let (t₁, e₁, s₁, w₁) = step i (is_set (get_bit? bits i)) t ok hs (omega (arith, h)) in
      let (t₂, e₂, s₂, w₂) =
        receive_bits-Reads src body (suc i) count bits t₁ step s₁.valid (rw s₁.nodes hs)
          (rw s₁.nodes (omega (arith, h))) in
      (
        t₂,
        rw (e₁, receive_bits) e₂,
        record {
          valid = s₂.valid;
          nodes = s₂.nodes ∙ s₁.nodes;
          others = s₂.others ∙ s₁.others;
          uses = s₂.uses ∙ s₁.uses;
        },
        λ x y hx hy.
            w₂ x y (rw s₁.nodes hx) (rw s₁.nodes hy)
            ∙ ap (read (λ z. is_set (get_bit? bits z)) src (suc i) count x y) (w₁ x y hx hy)
            ∙ read-write (λ z. is_set (get_bit? bits z)) src i count x y (get_bit (pick t) x y),
      )

  -- An edge is rewired in the graph that a step stores.
  pub stores :
      (src j : ℕ) (b : Bool) (t t' : NetworkTopology) (g : Graph)
      → j == src ≡ false
      → pick t' ≡ g
      → g.max_nodes ≡ (pick t).max_nodes
      → IsGraph g
      → Rewires src j b (pick t) g
      → other t' ≡ other t
      → t'.use_weak_topologies ≡ t.use_weak_topologies
      → Stays t t' × Writes src j b (pick t) (pick t')
  stores src j b t t' g n same nodes valid rewires others uses = (
    record {
      valid = rw same valid;
      nodes = ap (λ h. h.max_nodes) same ∙ nodes;
      others = others;
      uses = uses;
    },
    λ x y hx hy. ap (λ h. get_bit h x y) same ∙ rewires x y hx hy ∙ rw n refl,
  )
