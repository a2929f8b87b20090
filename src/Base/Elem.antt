-- ===== src/Base/Elem.antt =====
-- `std::find` in a list of numbers.
use Prim.Native.Nat.{ℕ, zero, suc, ◌+◌}
use mathlib.Core.Path.{◌≡◌, refl}
use mathlib.Core.Bool.{Bool, false, ◌&&◌, ◌||◌}
use mathlib.Core.List.{List, [], ◌∷◌, ◌++◌}
use native.Mathlib.Omega.{arith}
use tdmh.Base.Tests.{ltb, leb, ◌==◌}
use tdmh.Base.Lists.{select_from}

abbrev pub elem : ℕ → List ℕ → Bool
elem x [] = false
elem x (k ∷ ks) = k == x || elem x ks

pub elem-append : (x : ℕ) (xs ys : List ℕ) → elem x (xs ++ ys) ≡ (elem x xs || elem x ys)
elem-append x [] ys = refl
elem-append x (k ∷ ks) ys = ground (arith, elem-append x ks ys)

pub elem-select_from :
    (start count y : ℕ) (p : ℕ → Bool)
    → elem y (select_from start count p) ≡ (leb start y && ltb y (start + count) && p y)
elem-select_from start zero y p = ground arith
elem-select_from start (suc count) y p = ground (arith, elem-select_from (suc start) count y p)
