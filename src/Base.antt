-- ===== src/Base.antt =====
-- The names that the other modules share: the libraries', passed on, and those of the children.
mod Tests
mod Slices
mod Lists
mod Sets
mod Unseen
mod OrderLink
mod Table
mod Elem
mod Maps
pub use Tests.*
unfoldable pub use Table.{all_below}
pub use Table.{all_below_sound, below_cases}
pub use Sets.*
pub use Elem.*
pub use Unseen.{unseen, unseen-falls, unseen-le}
pub use OrderLink.{link_keyed, Links}
unfoldable pub use OrderLink.{order_link}
pub use Lists.*
pub use Slices.*
pub use Prim.Native.Nat.{ℕ, zero, suc, ◌+◌, ◌-◌, ◌*◌, ◌/◌, ◌%◌, ◌^◌, ◌≤◌, ◌<◌, min, max}
pub use mathlib.Core.Path.{◌≡◌, refl, sym, ap, subst, ◌∙◌}
pub use mathlib.Core.Logic.{◌≢◌, ◌↔◌, ◌⊎◌, inl, inr}
pub use mathlib.Core.Bool.{Bool, true, false, not, ◌&&◌, ◌||◌}
pub use mathlib.Core.Option.{Option, none, some}
pub use mathlib.Core.List.{List, [], ◌∷◌, ◌++◌, map}
pub use native.Mathlib.Omega.{arith}
unfoldable pub use Maps.{lookup, insert, erase}
pub use Maps.{
  Keyed, nat_keyed, Map, IsOrderedFrom, lookup-insert, lookup-erase, insert-IsOrderedFrom,
  erase-IsOrderedFrom, length-insert, length-erase, lookup_same, lookup_below, lookup-insert_cases,
  lookup_of-erase, insert_keys, erase_keys,
}
