-- ===== src/Bitset/Examples.antt =====
-- A bitset of 16 bits with bit 9 set.
use tdmh.Base.{false, ◌*◌}
use tdmh.Bitset.{RuntimeBitset, new_bitset}
use tdmh.Bitset.Laws.{IsValid, new_bitset_lem}

abbrev clear : RuntimeBitset
clear = new_bitset (2 * 8) false

clear-IsValid : IsValid clear
clear-IsValid = (new_bitset_lem 2 false).0
