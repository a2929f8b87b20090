-- ===== src/Base/Table.antt =====
-- Checking a test at every value below a bound, by evaluation.
use Prim.Native.Nat.{ℕ, zero, suc, ◌<◌}
use mathlib.Core.Path.{◌≡◌, refl}
use mathlib.Core.Logic.{◌⊎◌, inl, inr}
use mathlib.Core.Bool.{Bool, true, false, ◌&&◌}
use native.Mathlib.Omega.{arith}

unfoldable pub all_below : ℕ → (ℕ → Bool) → Bool
all_below zero p = true
all_below (suc n) p = p n && all_below n p

pub all_below_sound : (n : ℕ) (p : ℕ → Bool) (i : ℕ) → all_below n p ≡ true → i < n → p i ≡ true
unfolding all_below
all_below_sound zero p i checked below = absurd (omega arith)
all_below_sound (suc n) p i checked below = ground (arith, all_below_sound n p i)

-- A test fails everywhere below a bound, or holds at some value.
pub below_cases :
    (n : ℕ) (p : ℕ → Bool) → ((j : ℕ) → j < n → p j ≡ false) ⊎ ((j : ℕ) × (j < n) × (p j ≡ true))
below_cases zero p = inl (λ j h. absurd (omega arith))
below_cases (suc n) p = elim (below_cases n p) [
  | inr (j, h, e) ↦ inr (j, omega arith, e)
  | inl none_below ↦ last (p n) refl none_below
]
  where
    last :
        (b : Bool)
        → p n ≡ b
        → ((j : ℕ) → j < n → p j ≡ false)
        → ((j : ℕ) → j < suc n → p j ≡ false) ⊎ ((j : ℕ) × (j < suc n) × (p j ≡ true))
    last true e f = inr (n, omega arith, e)
    last false e f = inl (λ j h. pick j h)
      where
        pick : (j : ℕ) → j < suc n → p j ≡ false
        pick j h = ground (arith, f j)
