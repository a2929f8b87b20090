-- ===== src/Stream/Redundancy.antt =====
-- stream_parameters.h: the enumerators of Redundancy, and `toInt` of one.
use tdmh.Base.{ℕ, ◌==◌, ◌||◌, if◌then◌else◌, Option, some, none}

abbrev pub double : ℕ
double = 1

abbrev pub double_spatial : ℕ
double_spatial = 2

abbrev pub triple : ℕ
triple = 3

abbrev pub triple_spatial : ℕ
triple_spatial = 4

-- The number of transmissions; the source answers -1 for a number that names no enumerator.
unfoldable pub copies : ℕ → Option ℕ
copies r =
    if r == 0
    then some 1
    else if r == double || r == double_spatial
    then some 2
    else if r == triple || r == triple_spatial
    then some 3
    else none
