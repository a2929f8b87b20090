-- ===== src/Base/Maps.antt =====
-- `std::map` as an association list in the order of its keys. A key type says how it is
-- compared by the number that it maps to, as `StreamId::operator<` does through `getKey`.
use Prim.Native.Nat.{ℕ, suc, ◌≤◌, ◌<◌}
use mathlib.Core.Path.{◌≡◌, refl}
use mathlib.Core.Logic.{◌⊎◌}
use mathlib.Core.List.{List, [], ◌∷◌}
use mathlib.Core.Option.{Option, none, some}
use native.Mathlib.Omega.{arith}
use tdmh.Base.Lists.{length, All}
use tdmh.Base.Tests.{◌==◌, ltb, if◌then◌else◌}

pub record Keyed (K : Type 0) : Type 0 where
  pub key : K → ℕ

instance abbrev pub nat_keyed : Keyed ℕ
nat_keyed = record { key = λ n. n }

abbrev pub Map : Type 0 → Type 0 → Type 0
Map K V = List (K × V)

module _ {K V : Type 0} ⦃c : Keyed K⦄ where
  unfoldable pub lookup : K → Map K V → Option V
  lookup k [] = none
  lookup k ((j, v) ∷ m) = if c.key j == c.key k then some v else lookup k m

  unfoldable pub insert : K → V → Map K V → Map K V
  insert k v [] = (k, v) ∷ []
  insert k v ((j, w) ∷ m) =
      if c.key j == c.key k
      then (j, v) ∷ m
      else if ltb (c.key k) (c.key j)
      then (k, v) ∷ (j, w) ∷ m
      else (j, w) ∷ insert k v m

  -- The keys of a map are distinct, so this removes one entry at most.
  unfoldable pub erase : K → Map K V → Map K V
  erase k [] = []
  erase k ((j, w) ∷ m) = if c.key j == c.key k then erase k m else (j, w) ∷ erase k m

  -- The keys rise strictly along the list, from `n` on.
  abbrev pub IsOrderedFrom : ℕ → Map K V → Type 0
  IsOrderedFrom n [] = Unit
  IsOrderedFrom n ((j, w) ∷ m) = (n ≤ c.key j) × IsOrderedFrom (suc (c.key j)) m

  pub lookup-insert :
      (k j : K) (v : V) (m : Map K V)
      → lookup j (insert k v m) ≡ (if c.key k == c.key j then some v else lookup j m)
  unfolding lookup insert
  lookup-insert k j v [] = refl
  lookup-insert k j v ((i, w) ∷ m) = ground (arith, lookup-insert k j v m)

  pub lookup-erase :
      (k j : K) (m : Map K V)
      → lookup j (erase k m) ≡ (if c.key k == c.key j then none else lookup j m)
  unfolding lookup erase
  lookup-erase k j [] = ground arith
  lookup-erase k j ((i, w) ∷ m) = ground (arith, lookup-erase k j m)

  IsOrderedFrom-mono : (n n' : ℕ) (m : Map K V) → n' ≤ n → IsOrderedFrom n m → IsOrderedFrom n' m
  IsOrderedFrom-mono n n' [] h o = tt
  IsOrderedFrom-mono n n' ((j, w) ∷ m) h o = (omega arith, o.1)

  pub insert-IsOrderedFrom :
      (n : ℕ) (k : K) (v : V) (m : Map K V)
      → n ≤ c.key k
      → IsOrderedFrom n m
      → IsOrderedFrom n (insert k v m)
  unfolding insert
  insert-IsOrderedFrom n k v [] h o = (h, tt)
  insert-IsOrderedFrom n k v ((j, w) ∷ m) h o =
      ground (arith, insert-IsOrderedFrom (suc (c.key j)) k v m)

  pub erase-IsOrderedFrom :
      (n : ℕ) (k : K) (m : Map K V) → IsOrderedFrom n m → IsOrderedFrom n (erase k m)
  unfolding erase
  erase-IsOrderedFrom n k [] o = tt
  erase-IsOrderedFrom n k ((j, w) ∷ m) o = ground (
    arith,
    erase-IsOrderedFrom (suc (c.key j)) k m,
    IsOrderedFrom-mono (suc (c.key j)) n (erase k m),
  )

  pub lookup_below :
      (n : ℕ) (k : K) (m : Map K V) → c.key k < n → IsOrderedFrom n m → lookup k m ≡ none
  unfolding lookup
  lookup_below n k [] h o = refl
  lookup_below n k ((j, w) ∷ m) h o = ground (arith, lookup_below (suc (c.key j)) k m)

  erase_missing : (k : K) (m : Map K V) → lookup k m ≡ none → erase k m ≡ m
  unfolding lookup erase
  erase_missing k [] h = refl
  erase_missing k ((j, w) ∷ m) h = ground (arith, erase_missing k m)

  pub lookup_same : (i j : K) (m : Map K V) → c.key i ≡ c.key j → lookup i m ≡ lookup j m
  unfolding lookup
  lookup_same i j [] e = refl
  lookup_same i j ((l, w) ∷ m) e = ground (arith, lookup_same i j m)

  pub length-insert :
      (n : ℕ) (k : K) (v : V) (m : Map K V)
      → IsOrderedFrom n m
      → length (insert k v m) ≡ elim (lookup k m) [ some w ↦ length m | none ↦ suc (length m) ]
  unfolding lookup insert
  length-insert n k v [] o = refl
  length-insert n k v ((j, w) ∷ m) o =
      ground (arith, length-insert (suc (c.key j)) k v m, lookup_below (suc (c.key j)) k m)

  pub length-erase :
      (n : ℕ) (k : K) (v : V) (m : Map K V)
      → IsOrderedFrom n m
      → lookup k m ≡ some v
      → suc (length (erase k m)) ≡ length m
  unfolding lookup erase
  length-erase n k v [] o h = cc
  length-erase n k v ((j, w) ∷ m) o h = ground (
    arith,
    length-erase (suc (c.key j)) k v m,
    erase_missing k m,
    lookup_below (suc (c.key j)) k m,
    lookup_below (suc (c.key j)) j m,
    lookup_same k j m,
  )

  pub lookup-insert_cases :
      (k j : K) (v w : V) (m : Map K V)
      → lookup j (insert k v m) ≡ some w
      → ((c.key k ≡ c.key j) × (v ≡ w)) ⊎ (lookup j m ≡ some w)
  lookup-insert_cases k j v w m e = ground (arith, lookup-insert k j v m)

  pub lookup_of-erase :
      (k j : K) (w : V) (m : Map K V) → lookup j (erase k m) ≡ some w → lookup j m ≡ some w
  lookup_of-erase k j w m e = ground (arith, lookup-erase k j m)

  pub insert_keys :
      (P : K → Type 0) (k : K) (v : V) (m : Map K V)
      → P k
      → All (λ e. P e.0) m
      → All (λ e. P e.0) (insert k v m)
  unfolding insert
  insert_keys P k v [] p h = (p, tt)
  insert_keys P k v ((j, w) ∷ m) p h = ground (arith, insert_keys P k v m p h.1)

  pub erase_keys :
      (P : K → Type 0) (k : K) (m : Map K V) → All (λ e. P e.0) m → All (λ e. P e.0) (erase k m)
  unfolding erase
  erase_keys P k [] h = tt
  erase_keys P k ((j, w) ∷ m) h = ground (arith, erase_keys P k m h.1)
