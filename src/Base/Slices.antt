-- ===== src/Base/Slices.antt =====
-- Parts of lists, and a list written over a part of another.
use Prim.Native.Nat.{ℕ, zero, suc, ◌+◌, ◌≤◌, ◌<◌}
use mathlib.Core.Path.{◌≡◌, refl, ap}
use mathlib.Core.List.{List, [], ◌∷◌, ◌++◌}
use mathlib.Core.Option.{some}
use tdmh.Base.Lists.{length, take, drop, get_elem?, length-append, length-take, length-drop}
use native.Mathlib.Omega.{arith}

module _ {ℓ} {A : Type ℓ} where
  pub take-length : (xs ys : List A) → take (length xs) (xs ++ ys) ≡ xs
  take-length [] ys = refl
  take-length (x ∷ xs) ys = rw (take-length xs ys)

  pub drop-length : (xs ys : List A) → drop (length xs) (xs ++ ys) ≡ ys
  drop-length [] ys = refl
  drop-length (x ∷ xs) ys = drop-length xs ys

  pub drop-append : (n : ℕ) (xs ys : List A) → n ≤ length xs → drop n (xs ++ ys) ≡ drop n xs ++ ys
  drop-append zero xs ys h = refl
  drop-append (suc n) [] ys h = absurd (omega arith)
  drop-append (suc n) (x ∷ xs) ys h = drop-append n xs ys (omega arith)

  pub drop-drop : (a b : ℕ) (xs : List A) → drop a (drop b xs) ≡ drop (b + a) xs
  drop-drop a zero xs = let e : 0 + a ≡ a = omega arith in rw e
  drop-drop zero (suc b) [] = let e : suc b + 0 ≡ suc b = omega arith in rw e
  drop-drop (suc a) (suc b) [] = let e : suc b + suc a ≡ suc (b + suc a) = omega arith in rw e
  drop-drop a (suc b) (x ∷ xs) =
      let e : suc b + a ≡ suc (b + a) = omega arith in rw e (drop-drop a b xs)

  pub take-drop-take :
      (a b n : ℕ) (xs : List A) → b + n ≤ a → take n (drop b (take a xs)) ≡ take n (drop b xs)
  take-drop-take a b zero xs h = refl
  take-drop-take zero b (suc n) xs h = absurd (omega arith)
  take-drop-take (suc a) zero (suc n) [] h = refl
  take-drop-take (suc a) zero (suc n) (x ∷ xs) h =
      ap (λ t. x ∷ t) (take-drop-take a zero n xs (omega arith))
  take-drop-take (suc a) (suc b) (suc n) [] h = refl
  take-drop-take (suc a) (suc b) (suc n) (x ∷ xs) h = take-drop-take a b (suc n) xs (omega arith)

  pub get_elem?-drop-take :
      (a b i : ℕ) (xs : List A)
      → suc (b + i) ≤ a
      → get_elem? (drop b (take a xs)) i ≡ get_elem? xs (b + i)
  get_elem?-drop-take zero b i xs h = absurd (omega arith)
  get_elem?-drop-take (suc a) zero i [] h = refl
  get_elem?-drop-take (suc a) zero zero (x ∷ xs) h = refl
  get_elem?-drop-take (suc a) zero (suc i) (x ∷ xs) h =
      let e : 0 + suc i ≡ suc (0 + i) = omega arith in
      rw e (get_elem?-drop-take a zero i xs (omega arith))
  get_elem?-drop-take (suc a) (suc b) i [] h = refl
  get_elem?-drop-take (suc a) (suc b) i (x ∷ xs) h =
      let e : suc b + i ≡ suc (b + i) = omega arith in
      rw e (get_elem?-drop-take a b i xs (omega arith))

  abbrev pub write : ℕ → List A → List A → List A
  write offset bytes mem = take offset mem ++ (bytes ++ drop (length bytes) (drop offset mem))

  pub take-write :
      (n : ℕ) (bytes mem : List A)
      → n ≤ length mem
      → take (n + length bytes) (write n bytes mem) ≡ take n mem ++ bytes
  take-write zero bytes mem h =
      let e : 0 + length bytes ≡ length bytes = omega arith in
      rw e (take-length bytes (drop (length bytes) mem))
  take-write (suc n) bytes [] h = absurd (omega arith)
  take-write (suc n) bytes (x ∷ mem) h =
      let e : suc n + length bytes ≡ suc (n + length bytes) = omega arith in
      rw e (ap (λ t. x ∷ t) (take-write n bytes mem (omega arith)))

  pub length-write :
      (n : ℕ) (bytes mem : List A)
      → n + length bytes ≤ length mem
      → length (write n bytes mem) ≡ length mem
  length-write n bytes mem h = omega (
    arith,
    length-append (take n mem) (bytes ++ drop (length bytes) (drop n mem)),
    length-append bytes (drop (length bytes) (drop n mem)),
    length-take n mem,
    length-drop (length bytes) (drop n mem),
    length-drop n mem,
  )

  pub get_elem?-append_left :
      (xs ys : List A) (i : ℕ) → i < length xs → get_elem? (xs ++ ys) i ≡ get_elem? xs i
  get_elem?-append_left [] ys i h = absurd (omega arith)
  get_elem?-append_left (x ∷ xs) ys zero h = refl
  get_elem?-append_left (x ∷ xs) ys (suc i) h = get_elem?-append_left xs ys i (omega arith)

  pub get_elem?-length :
      (xs : List A) (y : A) (ys : List A) → get_elem? (xs ++ (y ∷ ys)) (length xs) ≡ some y
  get_elem?-length [] y ys = refl
  get_elem?-length (x ∷ xs) y ys = get_elem?-length xs y ys

  pub take-drop : (n b : ℕ) (xs : List A) → take n (drop b xs) ≡ drop b (take (b + n) xs)
  take-drop n zero xs = let e : 0 + n ≡ n = omega arith in rw e
  take-drop zero (suc b) [] = rw (let e : suc b + 0 ≡ suc b = omega arith in e)
  take-drop (suc n) (suc b) [] = rw (let e : suc b + suc n ≡ suc (b + suc n) = omega arith in e)
  take-drop n (suc b) (x ∷ xs) =
      let e : suc b + n ≡ suc (b + n) = omega arith in rw e (take-drop n b xs)

  pub take-take : (a b : ℕ) (xs : List A) → a ≤ b → take a (take b xs) ≡ take a xs
  take-take zero b xs h = refl
  take-take (suc a) zero xs h = absurd (omega arith)
  take-take (suc a) (suc b) [] h = refl
  take-take (suc a) (suc b) (x ∷ xs) h = ap (λ t. x ∷ t) (take-take a b xs (omega arith))
