-- ===== src/Bitset/Laws.antt =====
-- What the reads and writes of a RuntimeBitset do, over the bytes that hold it.
use tdmh.Base.{
  ℕ, zero, suc, ◌+◌, ◌*◌, ◌/◌, ◌%◌, ◌<◌, ◌≡◌, refl, ap, ◌↔◌, List, [], ◌∷◌, none, some, Bool, true,
  false, ltb, ◌==◌, if◌then◌else◌, get_or, set, replicate, length, length-set, length-replicate,
  arith, below_cases, Bool-cases, inl, inr,
}
use tdmh.Bitset.Byte.{
  test_bit, write_bit, test-write, write-lt, test-zero, test-ones, eq-zero_of_bits,
}
use tdmh.Bitset.{RuntimeBitset, new_bitset, get_bit?, set_bit?, set_all, is_empty, all_zero, is_set}

abbrev pub AreBytes : List ℕ → Type 0
AreBytes [] = Unit
AreBytes (x ∷ xs) = (x < 256) × AreBytes xs

-- The asserted shape: the size is a multiple of 8, and there is a byte for each eight bits.
pub record IsValid (b : RuntimeBitset) : Type 0 where
  pub whole : b.bit_count ≡ b.byte_size * 8
  pub sized : length b.content ≡ b.byte_size
  pub bytes : AreBytes b.content

get_or-lt : (xs : List ℕ) (i : ℕ) → AreBytes xs → get_or xs i 0 < 256
get_or-lt [] i h = omega arith
get_or-lt (x ∷ xs) zero h = h.0
get_or-lt (x ∷ xs) (suc i) h = get_or-lt xs i h.1

get_or-set :
    (xs : List ℕ) (i j v : ℕ)
    → i < length xs
    → get_or (set xs i v) j 0 ≡ (if i == j then v else get_or xs j 0)
get_or-set [] i j v h = absurd (omega arith)
get_or-set (x ∷ xs) zero zero v h = ground arith
get_or-set (x ∷ xs) zero (suc j) v h = ground arith
get_or-set (x ∷ xs) (suc i) zero v h = ground arith
get_or-set (x ∷ xs) (suc i) (suc j) v h = ground (arith, get_or-set xs i j v)

set-AreBytes : (xs : List ℕ) (i v : ℕ) → v < 256 → AreBytes xs → AreBytes (set xs i v)
set-AreBytes [] i v hv h = tt
set-AreBytes (x ∷ xs) zero v hv h = (hv, h.1)
set-AreBytes (x ∷ xs) (suc i) v hv h = (h.0, set-AreBytes xs i v hv h.1)

replicate-AreBytes : (n v : ℕ) → v < 256 → AreBytes (replicate n v)
replicate-AreBytes zero v h = tt
replicate-AreBytes (suc n) v h = (h, replicate-AreBytes n v h)

get_or-replicate : (n i v : ℕ) → i < n → get_or (replicate n v) i 0 ≡ v
get_or-replicate zero i v h = absurd (omega arith)
get_or-replicate (suc n) zero v h = refl
get_or-replicate (suc n) (suc i) v h = get_or-replicate n i v (omega arith)

-- On a valid bitset a write in range succeeds, keeps the size and the shape, and changes that
-- bit alone.
pub set_bit?_lem :
    (b : RuntimeBitset) (i : ℕ) (v : Bool)
    → IsValid b
    → i < b.bit_count
    → (b' : RuntimeBitset) × (set_bit? b i v ≡ some b')
      × (b'.bit_count ≡ b.bit_count)
      × IsValid b'
      × ((j : ℕ) → get_bit? b' j ≡ (if i == j then some v else get_bit? b j))
unfolding set_bit? get_bit?
set_bit?_lem b i v ok h = (
  record b { content = set b.content (i / 8) new_byte },
  ground arith,
  refl,
  record {
    whole = ok.whole;
    sized = omega (arith, ok.sized, length-set {0} b.content (i / 8) new_byte);
    bytes = set-AreBytes b.content (i / 8) new_byte new_byte-lt ok.bytes;
  },
  λ j. ground (
    arith,
    get_or-set b.content (i / 8) (j / 8) new_byte (omega (arith, ok.whole, ok.sized)),
    test-write old (i % 8) (j % 8) v (get_or-lt b.content (i / 8) ok.bytes) (omega arith)
        (omega arith),
  ),
)
  where
    old : ℕ
    old = get_or b.content (i / 8) 0

    new_byte : ℕ
    new_byte = write_bit old (i % 8) v

    new_byte-lt : new_byte < 256
    new_byte-lt = write-lt old (i % 8) v (get_or-lt b.content (i / 8) ok.bytes) (omega arith)

-- Out of range both throw.
pub out_of_range :
    (b : RuntimeBitset) (i : ℕ) (v : Bool)
    → ltb i b.bit_count ≡ false
    → (get_bit? b i ≡ none) × (set_bit? b i v ≡ none)
unfolding set_bit? get_bit?
out_of_range b i v h = ground arith

pub get_bit?_in_range :
    (b : RuntimeBitset) (i : ℕ) → i < b.bit_count → (v : Bool) × (get_bit? b i ≡ some v)
unfolding get_bit?
get_bit?_in_range b i h = (test_bit (get_or b.content (i / 8) 0) (i % 8), ground arith)

test-filled : (v : Bool) (q : ℕ) → q < 8 → test_bit (if v then 255 else 0) q ≡ v
test-filled true q h = test-ones q h
test-filled false q h = test-zero q h

filled-lt : (v : Bool) → (if v then 255 else 0) < 256
filled-lt true = omega arith
filled-lt false = omega arith

-- A new bitset of a whole number of bytes holds the initial value everywhere.
pub new_bitset_lem :
    (n : ℕ) (v : Bool)
    → IsValid (new_bitset (n * 8) v)
      × ((new_bitset (n * 8) v).bit_count ≡ n * 8)
      × ((j : ℕ) → get_bit? (new_bitset (n * 8) v) j ≡ (if ltb j (n * 8) then some v else none))
unfolding new_bitset get_bit?
new_bitset_lem n v = (
  record {
    whole = omega arith;
    sized = length-replicate ((n * 8 + 7) / 8) (if v then 255 else 0);
    bytes = replicate-AreBytes ((n * 8 + 7) / 8) (if v then 255 else 0) (filled-lt v);
  },
  refl,
  λ j. elim (Bool-cases (ltb j (n * 8))) [
    | inl e ↦ rw e (
        ap some (
          rw (get_or-replicate ((n * 8 + 7) / 8) (j / 8) (if v then 255 else 0) (ground arith))
            (test-filled v (j % 8) (omega arith))))
    | inr e ↦ rw e
  ],
)

set_all_lem :
    (b : RuntimeBitset) (v : Bool)
    → IsValid b
    → IsValid (set_all b v)
      × ((j : ℕ) → get_bit? (set_all b v) j ≡ (if ltb j b.bit_count then some v else none))
unfolding set_all get_bit?
set_all_lem b v ok = (
  record {
    whole = ok.whole;
    sized = length-replicate b.byte_size (if v then 255 else 0);
    bytes = replicate-AreBytes b.byte_size (if v then 255 else 0) (filled-lt v);
  },
  λ j. elim (Bool-cases (ltb j b.bit_count)) [
    | inl e ↦ rw e (
        ap some (
          rw
            (get_or-replicate b.byte_size (j / 8) (if v then 255 else 0) (ground (arith, ok.whole)))
            (test-filled v (j % 8) (omega arith))))
    | inr e ↦ rw e
  ],
)

all_zero-get :
    (n : ℕ) (xs : List ℕ) → length xs ≡ n → all_zero n xs ≡ true → (i : ℕ) → get_or xs i 0 ≡ 0
unfolding all_zero
all_zero-get zero [] e h i = refl
all_zero-get zero (x ∷ xs) e h i = absurd (omega arith)
all_zero-get (suc n) [] e h i = refl
all_zero-get (suc n) (x ∷ xs) e h zero = ground arith
all_zero-get (suc n) (x ∷ xs) e h (suc i) = all_zero-get n xs (omega arith) (ground arith) i

all_zero_of :
    (n : ℕ) (xs : List ℕ)
    → length xs ≡ n
    → ((i : ℕ) → i < n → get_or xs i 0 ≡ 0)
    → all_zero n xs ≡ true
unfolding all_zero
all_zero_of zero xs e h = refl
all_zero_of (suc n) [] e h = refl
all_zero_of (suc n) (x ∷ xs) e h =
    ground
      (arith, h 0 (omega arith), all_zero_of n xs (omega arith) (λ i p. h (suc i) (omega arith)))

-- On a valid bitset `empty` holds exactly when every bit is clear.
pub is_empty_iff :
    (b : RuntimeBitset)
    → IsValid b
    → (is_empty b ≡ true) ↔ ((j : ℕ) → j < b.bit_count → get_bit? b j ≡ some false)
unfolding is_empty get_bit?
is_empty_iff b ok = (
  λ h j p.
      let byte = all_zero-get b.byte_size b.content ok.sized h (j / 8) in
      rw byte (ground (arith, test-zero (j % 8) (omega arith))),
  λ h. all_zero_of b.byte_size b.content ok.sized λ i p.
      eq-zero_of_bits (get_or b.content i 0) (get_or-lt b.content i ok.bytes)
        (λ q r. bit_clear i q p r (h (i * 8 + q) (omega (arith, ok.whole)))),
)
  where
    bit_clear :
        (i q : ℕ)
        → i < b.byte_size
        → q < 8
        → (if ltb (i * 8 + q) b.bit_count
            then some (test_bit (get_or b.content ((i * 8 + q) / 8) 0) ((i * 8 + q) % 8))
            else none)
          ≡ some false
        → test_bit (get_or b.content i 0) q ≡ false
    bit_clear i q p r e =
        let index : (i * 8 + q) / 8 ≡ i = omega arith in
        let bit : (i * 8 + q) % 8 ≡ q = omega arith in ground (arith, index, bit, ok.whole)

-- Where `empty` fails a set bit exists.
pub not-is_empty :
    (b : RuntimeBitset)
    → IsValid b
    → is_empty b ≡ false
    → (j : ℕ) × (j < b.bit_count) × (get_bit? b j ≡ some true)
not-is_empty b ok h = elim (below_cases b.bit_count (λ j. is_set (get_bit? b j))) [
  | inr (j, p, e) ↦ (j, p, ground arith)
  | inl none_set ↦ absurd (cc ((is_empty_iff b ok).1 (λ j p. clear_of j p (none_set j p))))
]
  where
    clear_of : (j : ℕ) → j < b.bit_count → is_set (get_bit? b j) ≡ false → get_bit? b j ≡ some false
    clear_of j p e = ground (arith, get_bit?_in_range b j p)
