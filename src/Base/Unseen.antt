-- ===== src/Base/Unseen.antt =====
-- A measure for searches that mark the nodes they have seen.
use Prim.Native.Nat.{ℕ, zero, suc, ◌≤◌, ◌<◌}
use mathlib.Core.Path.{◌≡◌, refl}
use mathlib.Core.Logic.{◌⊎◌, inl, inr}
use mathlib.Core.Bool.{false, ◌||◌}
use native.Mathlib.Omega.{arith}
use tdmh.Base.Tests.{ltb, ◌==◌, if◌then◌else◌, Bool-cases}
use tdmh.Base.Maps.{nat_keyed}
use tdmh.Base.Sets.{Set, contains}

lt_or_last : (n node : ℕ) → node < suc n → (node < n) ⊎ (node ≡ n)
lt_or_last n node h = ground (arith, Bool-cases (ltb node n))

-- How many numbers below a bound are not in a set.
abbrev pub unseen : ℕ → Set ℕ → ℕ
unseen zero s = 0
unseen (suc n) s = if contains n s then unseen n s else suc (unseen n s)

unseen-same :
    (n node : ℕ) (s s' : Set ℕ)
    → n ≤ node
    → ((y : ℕ) → contains y s' ≡ (node == y || contains y s))
    → unseen n s' ≡ unseen n s
unseen-same zero node s s' h e = refl
unseen-same (suc n) node s s' h e = ground (arith, e n, unseen-same n node s s' (omega arith) e)

pub unseen-falls :
    (n node : ℕ) (s s' : Set ℕ)
    → node < n
    → contains node s ≡ false
    → ((y : ℕ) → contains y s' ≡ (node == y || contains y s))
    → suc (unseen n s') ≡ unseen n s
unseen-falls zero node s s' h f e = absurd (omega arith)
unseen-falls (suc n) node s s' h f e = elim (lt_or_last n node h) [
  | inl below ↦ ground (arith, e n, unseen-falls n node s s' below f e)
  | inr last ↦ ground (arith, e n, e node, unseen-same n node s s' (omega arith) e)
]

pub unseen-le : (n : ℕ) (s : Set ℕ) → unseen n s ≤ n
unseen-le zero s = omega arith
unseen-le (suc n) s = ground (arith, unseen-le n s)
