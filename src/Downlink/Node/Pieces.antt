-- ===== src/Downlink/Node/Pieces.antt =====
-- What a node has put together is made of the pieces of the schedule whose packets it has received.
use tdmh.Base.{
  ℕ, zero, suc, ◌+◌, ◌*◌, ◌%◌, ◌<◌, ◌≡◌, ◌≢◌, refl, sym, ap, ◌∙◌, subst, inl, inr, List, [], ◌∷◌,
  ◌++◌, length, take, drop, get_elem?, some, true, false, ◌==◌, if◌then◌else◌, Bool-cases,
  drop-drop, arith,
}
use mathlib.Core.List.{Perm, append_assoc, append-nil, perm_append_comm}
use mathlib.Core.List.Perm
use tdmh.Downlink.Node.Collect.{bump, no_receptions, all_received}

-- The pieces of the packets that were received, in the order of their numbers from `i` on.
pub collected : {A : Type 0} → (ℕ → List A) → ℕ → List ℕ → List A
collected piece i [] = []
collected piece i (count ∷ counts) =
    (if count == 0 then [] else piece i) ++ collected piece (suc i) counts

pub length-no_receptions : (n : ℕ) → length (no_receptions n) ≡ n
unfolding no_receptions
length-no_receptions zero = refl
length-no_receptions (suc n) = ap suc (length-no_receptions n)

pub collected-no_receptions :
    {A : Type 0} (piece : ℕ → List A) (i n : ℕ) → collected piece i (no_receptions n) ≡ []
unfolding collected no_receptions
collected-no_receptions piece i zero = refl
collected-no_receptions piece i (suc n) = collected-no_receptions piece (suc i) n

pub get_elem?-no_receptions : (n i : ℕ) → i < n → get_elem? (no_receptions n) i ≡ some 0
unfolding no_receptions
get_elem?-no_receptions zero i h = absurd (omega arith)
get_elem?-no_receptions (suc n) zero h = refl
get_elem?-no_receptions (suc n) (suc i) h = get_elem?-no_receptions n i (omega arith)

-- What a packet adds that has been received `count` times before.
abbrev pub added : {A : Type 0} → (ℕ → List A) → ℕ → ℕ → List A
added piece i count = if count == 0 then piece i else []

module _ {A : Type 0} (piece : ℕ → List A) where
  -- One more reception of packet `i`, of which there were `count`.
  pub record Bumped (i count : ℕ) (before after : List ℕ) : Type 0 where
    pub run : bump i before ≡ some after
    pub same_length : length after ≡ length before
    pub counted : get_elem? before i ≡ some count
    pub now : get_elem? after i ≡ some ((count + 1) % 256)
    pub others : (j : ℕ) → j ≢ i → get_elem? after j ≡ get_elem? before j
    pub pieces :
        (k : ℕ)
        → count < 255
        → Perm (collected piece k before ++ added piece (k + i) count) (collected piece k after)

  bump-first : (x : ℕ) (xs : List ℕ) → Bumped 0 x (x ∷ xs) (((x + 1) % 256) ∷ xs)
  unfolding bump collected
  bump-first x xs = record {
    run = refl;
    same_length = refl;
    counted = refl;
    now = refl;
    others = λ j ne. other j ne;
    pieces = λ k small. grown k small;
  }
    where
      other : (j : ℕ) → j ≢ 0 → get_elem? (((x + 1) % 256) ∷ xs) j ≡ get_elem? (x ∷ xs) j
      other zero ne = absurd (ne refl)
      other (suc j) ne = refl

      grown :
          (k : ℕ)
          → x < 255
          → Perm
              (collected piece k (x ∷ xs) ++ added piece (k + 0) x)
              (collected piece k (((x + 1) % 256) ∷ xs))
      grown k small =
          let some_now : ((x + 1) % 256 == 0) ≡ false = ground arith in
          let here : k + 0 ≡ k = omega arith in
          let rest = collected piece (suc k) xs in
          elim (Bool-cases (x == 0)) [
            | inl e ↦ rw (e, some_now, here) (perm_append_comm rest (piece k))
            | inr e ↦
                rw (e, some_now)
                  (subst (λ l. Perm l (piece k ++ rest)) (sym (append-nil (piece k ++ rest)))
                    (Perm.refl (piece k ++ rest)))
          ]

  bump-next :
      (i count x : ℕ) (xs after : List ℕ)
      → Bumped i count xs after
      → Bumped (suc i) count (x ∷ xs) (x ∷ after)
  unfolding bump collected
  bump-next i count x xs after b = record {
    run = rw (b.run, bump) refl;
    same_length = ap suc b.same_length;
    counted = b.counted;
    now = b.now;
    others = λ j ne. other j ne;
    pieces = λ k small. grown k small;
  }
    where
      other : (j : ℕ) → j ≢ suc i → get_elem? (x ∷ after) j ≡ get_elem? (x ∷ xs) j
      other zero ne = refl
      other (suc j) ne = b.others j (λ e. ne (ap suc e))

      grown :
          (k : ℕ)
          → count < 255
          → Perm
              (collected piece k (x ∷ xs) ++ added piece (k + suc i) count)
              (collected piece k (x ∷ after))
      grown k small =
          let e : suc k + i ≡ k + suc i = omega arith in
          let first = if x == 0 then [] else piece k in
          let add = added piece (k + suc i) count in
          subst (λ l. Perm l (first ++ collected piece (suc k) after))
            (sym (append_assoc first (collected piece (suc k) xs) add))
            (Perm.append (Perm.refl first) (
              subst
                (λ n.
                  Perm (collected piece (suc k) xs ++ added piece n count)
                    (collected piece (suc k) after))
                e (b.pieces (suc k) small)))

  pub bump_lem :
      (i : ℕ) (before : List ℕ)
      → i < length before
      → (count : ℕ) × (after : List ℕ) × Bumped i count before after
  bump_lem i [] h = absurd (omega arith)
  bump_lem zero (x ∷ xs) h = (x, ((x + 1) % 256) ∷ xs, bump-first x xs)
  bump_lem (suc i) (x ∷ xs) h =
      let (count, after, b) = bump_lem i xs (omega arith) in
      (count, x ∷ after, bump-next i count x xs after b)

take_nil : {A : Type 0} (n : ℕ) → ◌≡◌ {A = List A} (take n []) []
take_nil zero = refl
take_nil (suc n) = refl

take_split :
    {A : Type 0} (a b : ℕ) (xs : List A) → take a xs ++ take b (drop a xs) ≡ take (a + b) xs
take_split zero b xs = let e : b ≡ 0 + b = omega arith in ap (λ n. take n xs) e
take_split (suc a) b [] = take_nil b ∙ sym (take_nil (suc a + b))
take_split (suc a) b (x ∷ xs) =
    let e : suc (a + b) ≡ suc a + b = omega arith in
    ap (λ l. x ∷ l) (take_split a b xs) ∙ ap (λ n. take n (x ∷ xs)) e

-- Once every packet was received, the pieces are the whole of a list that was cut into pieces of
-- `size` elements.
pub collected-all_received :
    {A : Type 0} (size : ℕ) (xs : List A) (i : ℕ) (counts : List ℕ)
    → all_received counts ≡ true
    → collected (λ k. take size (drop (size * k) xs)) i counts
      ≡ take (size * length counts) (drop (size * i) xs)
unfolding collected all_received
collected-all_received size xs i [] h =
    let e : 0 ≡ size * 0 = omega arith in ap (λ n. take n (drop (size * i) xs)) e
collected-all_received size xs i (count ∷ counts) h =
    let some_here : (count == 0) ≡ false = ground arith in
    let rest : all_received counts ≡ true = ground arith in
    let ih = collected-all_received size xs (suc i) counts rest in
    let next : size * i + size ≡ size * suc i = omega arith in
    let total : size + size * length counts ≡ size * suc (length counts) = omega arith in
    rw some_here (
      ap (λ l. take size (drop (size * i) xs) ++ l)
        (ih ∙ ap (λ n. take (size * length counts) (drop n xs)) (sym next))
      ∙ ap (λ l. take size (drop (size * i) xs) ++ take (size * length counts) l)
          (sym (drop-drop size (size * i) xs))
      ∙ take_split size (size * length counts) (drop (size * i) xs)
      ∙ ap (λ n. take n (drop (size * i) xs)) total)
