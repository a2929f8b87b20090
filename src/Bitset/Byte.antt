-- ===== src/Bitset/Byte.antt =====
-- The bits of one byte, most significant first, as RuntimeBitset::Bit reads and writes them.
use Prim.Native.Nat.{bit_and, bit_or}
use tdmh.Base.{
  ℕ, ◌-◌, ◌/◌, ◌^◌, ◌<◌, ◌≡◌, refl, Bool, true, false, ◌&&◌, ◌||◌, not, ltb, ◌==◌, all_below,
  all_below_sound, if◌then◌else◌, arith,
}

abbrev mask : ℕ → ℕ
mask p = 128 / 2 ^ p

unfoldable pub test_bit : ℕ → ℕ → Bool
test_bit x p = ltb 0 (bit_and x (mask p))

unfoldable pub write_bit : ℕ → ℕ → Bool → ℕ
write_bit x p true = bit_or x (mask p)
write_bit x p false = bit_and x (255 - mask p)

abbrev same_bit : Bool → Bool → Bool
same_bit true b = b
same_bit false b = not b

same_bit-eq : (a b : Bool) → same_bit a b ≡ true → a ≡ b
same_bit-eq a b h = ground arith

abbrev write_holds : ℕ → ℕ → ℕ → Bool → Bool
write_holds x p q v =
    same_bit (test_bit (write_bit x p v) q) (if p == q then v else test_bit x q)
    && ltb (write_bit x p v) 256

write_table :
    all_below 256
      (λ x. all_below 8 (λ p. all_below 8 (λ q. write_holds x p q true && write_holds x p q false)))
    ≡ true
unfolding all_below test_bit write_bit
write_table = refl

both : (a b : Bool) (v : Bool) → (a && b) ≡ true → (if v then a else b) ≡ true
both a b v h = ground arith

write_at :
    (x p q : ℕ)
    → x < 256
    → p < 8
    → q < 8
    → (write_holds x p q true && write_holds x p q false) ≡ true
write_at x p q hx hp hq =
    all_below_sound 8 _ q (all_below_sound 8 _ p (all_below_sound 256 _ x write_table hx) hp) hq

pub test-write :
    (x p q : ℕ) (v : Bool)
    → x < 256
    → p < 8
    → q < 8
    → test_bit (write_bit x p v) q ≡ (if p == q then v else test_bit x q)
test-write x p q true hx hp hq = same_bit-eq _ _ (ground (arith, write_at x p q hx hp hq))
test-write x p q false hx hp hq = same_bit-eq _ _ (ground (arith, write_at x p q hx hp hq))

pub write-lt : (x p : ℕ) (v : Bool) → x < 256 → p < 8 → write_bit x p v < 256
write-lt x p true hx hp = ground (arith, write_at x p 0 hx hp (omega arith))
write-lt x p false hx hp = ground (arith, write_at x p 0 hx hp (omega arith))

zero_table :
    all_below 256 (λ x. same_bit (x == 0) (
      not (
        test_bit x 0
        || test_bit x 1
        || test_bit x 2
        || test_bit x 3
        || test_bit x 4
        || test_bit x 5
        || test_bit x 6
        || test_bit x 7)))
    ≡ true
unfolding all_below test_bit
zero_table = refl

constant_table : all_below 8 (λ q. not (test_bit 0 q) && test_bit 255 q) ≡ true
unfolding all_below test_bit
constant_table = refl

pub test-zero : (q : ℕ) → q < 8 → test_bit 0 q ≡ false
test-zero q h = ground (arith, all_below_sound 8 _ q constant_table h)

pub test-ones : (q : ℕ) → q < 8 → test_bit 255 q ≡ true
test-ones q h = ground (arith, all_below_sound 8 _ q constant_table h)

-- A byte with no bit set is zero.
pub eq-zero_of_bits : (x : ℕ) → x < 256 → ((q : ℕ) → q < 8 → test_bit x q ≡ false) → x ≡ 0
eq-zero_of_bits x h f = ground (
  arith,
  all_below_sound 256 _ x zero_table h,
  f 0 (omega arith),
  f 1 (omega arith),
  f 2 (omega arith),
  f 3 (omega arith),
  f 4 (omega arith),
  f 5 (omega arith),
  f 6 (omega arith),
  f 7 (omega arith),
)
