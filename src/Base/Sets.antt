-- ===== src/Base/Sets.antt =====
-- `std::set` as a map to nothing.
use mathlib.Core.Path.{◌≡◌}
use mathlib.Core.Bool.{Bool, true, false, ◌||◌}
use mathlib.Core.Option.{Option, none, some}
use native.Mathlib.Omega.{arith}
use tdmh.Base.Tests.{◌==◌}
use tdmh.Base.Maps.{Keyed, Map, lookup, insert, lookup-insert}

abbrev pub Set : Type 0 → Type 0
Set K = Map K (Unit {0})

abbrev pub is_some {ℓ} : {A : Type ℓ} → Option A → Bool
is_some none = false
is_some (some a) = true

module _ {K : Type 0} ⦃c : Keyed K⦄ where
  abbrev pub contains : K → Set K → Bool
  contains k s = is_some (lookup k s)

  abbrev pub add : K → Set K → Set K
  add k s = insert k tt s

  pub contains-add :
      (k j : K) (s : Set K) → contains j (add k s) ≡ ((c.key k == c.key j) || contains j s)
  contains-add k j s = ground (arith, lookup-insert k j tt s)
