-- ===== src/Topology/Graph/Rows.antt =====
-- The rows of a graph: their shape, and what writing one bit of one row does.
use tdmh.Base.{
  ℕ, ◌*◌, ◌<◌, ◌≡◌, refl, ◌⊎◌, inl, inr, nat_keyed, lookup, insert, erase, lookup-insert,
  lookup-erase, lookup-insert_cases, lookup_of-erase, subst, IsOrderedFrom, insert-IsOrderedFrom,
  erase-IsOrderedFrom, Option, some, Bool, true, false, ◌&&◌, ◌==◌, if◌then◌else◌, arith,
  Option-cases, Bool-cases, lookup_same, ◌∙◌,
}
use tdmh.Bitset.{RuntimeBitset, get_bit?, set_bit?, is_empty}
use tdmh.Bitset.Laws.{
  IsValid, set_bit?_lem, new_bitset_lem, get_bit?_in_range, is_empty_iff, not-is_empty,
}
use tdmh.Topology.Graph.{Graph, get_bit, set_bit, clear_bit, row_or_new, store_row}

-- A stored row has a bit for each node, and one that is set.
pub record IsRow (m : ℕ) (row : RuntimeBitset) : Type 0 where
  pub valid : IsValid row
  pub bits : row.bit_count ≡ m
  pub lit : (y : ℕ) × (y < m) × (get_bit? row y ≡ some true)

pub record IsShaped (g : Graph) : Type 0 where
  pub octets : ℕ
  pub whole : g.max_nodes ≡ octets * 8
  pub row_ok : (x : ℕ) (row : RuntimeBitset) → lookup x g.rows ≡ some row → IsRow g.max_nodes row
  pub node_lt : (x : ℕ) (row : RuntimeBitset) → lookup x g.rows ≡ some row → x < g.max_nodes
  pub ordered : IsOrderedFrom 0 g.rows

-- What an operation on rows leaves alone.
pub record Kept (g g' : Graph) : Type 0 where
  pub nodes : g'.max_nodes ≡ g.max_nodes
  pub flag : g'.possibly_not_connected ≡ g.possibly_not_connected

abbrev pub updated : ℕ → ℕ → Bool → Graph → ℕ → ℕ → Option Bool
updated a b v g x y = if x == a && y == b then some v else get_bit g x y

pub get_bit_in_range :
    (g : Graph) (x y : ℕ) → IsShaped g → y < g.max_nodes → (v : Bool) × (get_bit g x y ≡ some v)
unfolding get_bit
get_bit_in_range g x y s h = elim (Option-cases (lookup x g.rows)) [
  | inl e ↦ (false, rw (e, get_bit))
  | inr (row, e) ↦
      let ok = s.row_ok x row e in
      let (v, r) = get_bit?_in_range row y (ground (arith, ok.bits)) in (v, rw (e, get_bit) r)
]

-- The row that `setBit` writes to, there or new.
pub record WritesTo (g : Graph) (a : ℕ) (row : RuntimeBitset) : Type 0 where
  pub valid : IsValid row
  pub bits : row.bit_count ≡ g.max_nodes
  pub reads : (y : ℕ) → y < g.max_nodes → get_bit? row y ≡ get_bit g a y

pub row_or_new-WritesTo : (g : Graph) (a : ℕ) → IsShaped g → WritesTo g a (row_or_new g a)
unfolding get_bit
row_or_new-WritesTo g a s = elim (Option-cases (lookup a g.rows)) [
  | inr (row, e) ↦
      let ok = s.row_ok a row e in
      rw (e, row_or_new)
        (record { valid = ok.valid; bits = ok.bits; reads = λ y h. rw (e, get_bit) })
  | inl e ↦
      let fresh = new_bitset_lem s.octets false in
      rw (e, row_or_new)
        (record {
          valid = rw s.whole fresh.0;
          bits = rw s.whole fresh.1;
          reads = λ y h. rw (e, get_bit) (ground (arith, fresh.2 y, s.whole));
        })
]

-- A row is stored for `a`, and the other rows stay.
pub store-IsShaped :
    (g : Graph) (a : ℕ) (row : RuntimeBitset)
    → IsShaped g
    → a < g.max_nodes
    → IsRow g.max_nodes row
    → IsShaped (record g { rows = insert a row g.rows })
store-IsShaped g a row s h ok = record {
  octets = s.octets;
  whole = s.whole;
  row_ok = λ x r e. elim (lookup-insert_cases a x row r g.rows e) [
    | inl (_, same) ↦ subst (IsRow g.max_nodes) same ok
    | inr old ↦ s.row_ok x r old
  ];
  node_lt = λ x r e. ground (arith, lookup-insert a x row g.rows, s.node_lt x r);
  ordered = insert-IsOrderedFrom 0 a row g.rows (omega arith) s.ordered;
}

-- A row is deleted.
pub erase-IsShaped :
    (g : Graph) (a : ℕ) → IsShaped g → IsShaped (record g { rows = erase a g.rows })
erase-IsShaped g a s = record {
  octets = s.octets;
  whole = s.whole;
  row_ok = λ x r e. s.row_ok x r (lookup_of-erase a x r g.rows e);
  node_lt = λ x r e. s.node_lt x r (lookup_of-erase a x r g.rows e);
  ordered = erase-IsOrderedFrom 0 a g.rows s.ordered;
}

-- `setBit` sets its bit and changes nothing else.
pub set_bit_lem :
    (g : Graph) (a b : ℕ)
    → IsShaped g
    → a < g.max_nodes
    → b < g.max_nodes
    → (g' : Graph) × (set_bit g a b ≡ some g')
      × Kept g g'
      × IsShaped g'
      × ((x y : ℕ) → y < g.max_nodes → get_bit g' x y ≡ updated a b true g x y)
unfolding set_bit get_bit
set_bit_lem g a b s ha hb =
    let w = row_or_new-WritesTo g a s in
    let (row, e, size, valid, reads) =
      set_bit?_lem (row_or_new g a) b true w.valid (ground (arith, w.bits)) in
    let row_ok : IsRow g.max_nodes row = record {
      valid = valid;
      bits = size ∙ w.bits;
      lit = (b, hb, ground (arith, reads b));
    } in
    (
      record g { rows = insert a row g.rows },
      rw (e, set_bit),
      record { nodes = refl; flag = refl },
      store-IsShaped g a row s ha row_ok,
      λ x y hy. ground (arith, lookup-insert a x row g.rows, reads y, w.reads y hy),
    )

-- Clearing a set bit of a stored row, which is deleted if that was its last.
pub store_row_lem :
    (g : Graph) (a b : ℕ) (row : RuntimeBitset)
    → IsShaped g
    → b < g.max_nodes
    → lookup a g.rows ≡ some row
    → (row' : RuntimeBitset) × (set_bit? row b false ≡ some row')
      × IsShaped (store_row g a row')
      × ((x y : ℕ) → y < g.max_nodes → get_bit (store_row g a row') x y ≡ updated a b false g x y)
unfolding get_bit
store_row_lem g a b row s hb e =
    let ok = s.row_ok a row e in
    let (row', w, size, valid, reads) =
      set_bit?_lem row b false ok.valid (ground (arith, ok.bits)) in
    let bits : row'.bit_count ≡ g.max_nodes = size ∙ ok.bits in
    elim (Bool-cases (is_empty row')) [
      | inl gone ↦
          let clear = (is_empty_iff row' valid).0 gone in
          (
            row',
            w,
            rw gone (erase-IsShaped g a s),
            λ x y hy.
                rw gone (
                  ground
                    (arith, lookup-erase a x g.rows, reads y, clear y, lookup_same a x g.rows)),
          )
      | inr left ↦
          let (j, hj, lit) = not-is_empty row' valid left in
          (
            row',
            w,
            rw left (
                store-IsShaped g a row' s (s.node_lt a row e)
                  (record { valid = valid; bits = bits; lit = (j, ground arith, lit) })),
            λ x y hy.
                rw left
                  (ground (arith, lookup-insert a x row' g.rows, reads y, lookup_same a x g.rows)),
          )
    ]

pub bit_cases :
    (g : Graph) (a b : ℕ)
    → IsShaped g
    → b < g.max_nodes
    → (get_bit g a b ≡ some false) ⊎ (get_bit g a b ≡ some true)
bit_cases g a b s h = ground (arith, get_bit_in_range g a b s h)

-- A bit that has the value already.
pub unchanged :
    (g : Graph) (a b x y : ℕ) (v : Bool)
    → get_bit g a b ≡ some v
    → get_bit g x y ≡ updated a b v g x y
unchanged g a b x y v e = ground arith

clear_bit_clear : (g : Graph) (a b : ℕ) → get_bit g a b ≡ some false → clear_bit g a b ≡ some g
unfolding clear_bit get_bit
clear_bit_clear g a b e = ground arith

clear_bit_set :
    (g : Graph) (a b : ℕ) (row row' : RuntimeBitset)
    → lookup a g.rows ≡ some row
    → get_bit? row b ≡ some true
    → set_bit? row b false ≡ some row'
    → clear_bit g a b ≡ some (store_row g a row')
unfolding clear_bit
clear_bit_set g a b row row' e t w = rw (e, clear_bit) (rw t (rw w))

-- A bit that is set stands in a row.
pub row_of_set :
    (g : Graph) (a b : ℕ)
    → get_bit g a b ≡ some true
    → (row : RuntimeBitset) × (lookup a g.rows ≡ some row) × (get_bit? row b ≡ some true)
unfolding get_bit
row_of_set g a b e = elim (Option-cases (lookup a g.rows)) [
  | inl n ↦ absurd (cc (rw (n, get_bit) at e))
  | inr (row, r) ↦ (row, r, (rw (r, get_bit) at e))
]

-- `clearBit` clears its bit and changes nothing else.
pub clear_bit_lem :
    (g : Graph) (a b : ℕ)
    → IsShaped g
    → b < g.max_nodes
    → (g' : Graph) × (clear_bit g a b ≡ some g')
      × Kept g g'
      × IsShaped g'
      × ((x y : ℕ) → y < g.max_nodes → get_bit g' x y ≡ updated a b false g x y)
clear_bit_lem g a b s hb = elim (bit_cases g a b s hb) [
  | inl e ↦ (
    g,
    clear_bit_clear g a b e,
    record { nodes = refl; flag = refl },
    s,
    λ x y hy. unchanged g a b x y false e,
  )
  | inr e ↦
      let (row, r, t) = row_of_set g a b e in
      let (row', w, shaped, reads) = store_row_lem g a b row s hb r in
      (
        store_row g a row',
        clear_bit_set g a b row row' r t w,
        record { nodes = refl; flag = refl },
        shaped,
        reads,
      )
]

-- Storing the row that is there changes no bit.
pub reinsert :
    (g : Graph) (a : ℕ) (row : RuntimeBitset) (x y : ℕ)
    → lookup a g.rows ≡ some row
    → get_bit (record g { rows = insert a row g.rows }) x y ≡ get_bit g x y
unfolding get_bit
reinsert g a row x y e = ground (arith, lookup-insert a x row g.rows, lookup_same a x g.rows)
