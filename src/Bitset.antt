-- ===== src/Bitset.antt =====
-- network_module/util/runtime_bitset.h and .cpp, the build without bit banding: bit `i` is the
-- bit of weight 128 / 2 ^ (i % 8) of byte i / 8. An access out of range throws (`none`).
pub mod Byte
pub mod Laws
mod Examples
use tdmh.Base.{
  ℕ, ◌+◌, ◌/◌, ◌%◌, List, [], ◌∷◌, Option, none, some, Bool, true, false, ◌&&◌, not, ltb, ◌==◌,
  if◌then◌else◌, get_or, set, replicate,
}
use Byte.{test_bit, write_bit}

pub record RuntimeBitset : Type 0 where
  pub bit_count : ℕ
  pub byte_size : ℕ
  pub content : List ℕ

-- The constructor with an initial value.
unfoldable pub new_bitset : ℕ → Bool → RuntimeBitset
new_bitset size init = record {
  bit_count = size;
  byte_size = (size + 7) / 8;
  content = replicate ((size + 7) / 8) (if init then 255 else 0);
}

-- `operator[]` read as a bool, and its assignment.
unfoldable pub get_bit? : RuntimeBitset → ℕ → Option Bool
unfolding test_bit
get_bit? b i =
    if ltb i b.bit_count then some (test_bit (get_or b.content (i / 8) 0) (i % 8)) else none

unfoldable pub set_bit? : RuntimeBitset → ℕ → Bool → Option RuntimeBitset
unfolding test_bit write_bit
set_bit? b i v =
    if ltb i b.bit_count
    then some (record b {
      content = set b.content (i / 8) (write_bit (get_or b.content (i / 8) 0) (i % 8) v);
    })
    else none

pub set_all : RuntimeBitset → Bool → RuntimeBitset
set_all b v = record b { content = replicate b.byte_size (if v then 255 else 0) }

-- The loop of `empty` over the first bytes.
all_zero : ℕ → List ℕ → Bool
all_zero ℕ.zero bytes = true
all_zero (ℕ.suc n) [] = true
all_zero (ℕ.suc n) (x ∷ bytes) = x == 0 && all_zero n bytes

unfoldable pub is_empty : RuntimeBitset → Bool
unfolding all_zero
is_empty b = all_zero b.byte_size b.content

same_bytes : ℕ → List ℕ → List ℕ → Bool
same_bytes (ℕ.suc n) (x ∷ xs) (y ∷ ys) = x == y && same_bytes n xs ys
same_bytes _ _ _ = true

-- `operator==`.
unfoldable pub same : RuntimeBitset → RuntimeBitset → Bool
unfolding same_bytes
same a b = b.bit_count == a.bit_count && same_bytes a.byte_size a.content b.content

-- A read that neither throws nor gives a clear bit.
abbrev pub is_set : Option Bool → Bool
is_set none = false
is_set (some v) = v
