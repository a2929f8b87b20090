-- ===== src/Base/OrderLink.antt =====
-- network_topology.h: links between two nodes, as `orderLink` makes them; a set of links is a
-- `std::set<std::pair<unsigned char, unsigned char>>`.
use Prim.Native.Nat.{ℕ, ◌+◌, ◌*◌}
use tdmh.Base.Tests.{ltb, if◌then◌else◌}
use tdmh.Base.Maps.{Keyed}
use tdmh.Base.Sets.{Set}

-- The lexicographic order of pairs of bytes.
instance abbrev pub link_keyed : Keyed (ℕ × ℕ)
link_keyed = record { key = λ l. l.0 * 256 + l.1 }

abbrev pub Links : Type 0
Links = Set (ℕ × ℕ)

unfoldable pub order_link : ℕ → ℕ → ℕ × ℕ
order_link a b = if ltb a b then (a, b) else (b, a)
