-- ===== src/Packet/Codec.antt =====
-- Rules for code that writes bytes to a packet and for code that reads them, and numbers as bytes,
-- the lowest first, as they lie in memory.
use tdmh.Base.{
  ℕ, zero, suc, ◌+◌, ◌*◌, ◌/◌, ◌%◌, ◌^◌, ◌≤◌, ◌<◌, ◌≡◌, refl, sym, ap, ◌∙◌, List, [], ◌∷◌, ◌++◌,
  length, some, length-append, arith,
}
use mathlib.Core.List.{append_assoc, append-nil}
use native.Mathlib.Nat.{pow-succ'}
use tdmh.Packet.{Packet, Writer, Reader, ◌>>◌, ◌>>=◌, pure, lift, max_pkt_size, put, get, discard}
use tdmh.Packet.View.{IsPacket, content, Wrote, Left, put_lem, get_lem, discard_lem}

-- The writer adds `bytes`, where there is room.
abbrev pub Writes : Writer → List ℕ → Type 0
Writes f bytes =
    (p : Packet)
    → IsPacket p
    → p.data_size + p.reserved_size + length bytes ≤ max_pkt_size
    → (p' : Packet) × (f p ≡ some p') × Wrote bytes p p'

-- The reader takes `bytes` from the front, whatever follows, and returns `a`.
abbrev pub Reads : {A : Type 0} → Reader A → List ℕ → A → Type 0
Reads m bytes a =
    (p : Packet) (rest : List ℕ)
    → IsPacket p
    → content p ≡ bytes ++ rest
    → (p' : Packet) × (m p ≡ some (a, p')) × Left rest p p'

pub put-Writes : (bytes : List ℕ) → Writes (put bytes) bytes
put-Writes bytes p ok h = put_lem bytes p ok h

pub some-Writes : Writes some []
some-Writes p ok h = (
  p,
  refl,
  record {
    valid = ok;
    added = sym (append-nil _);
    grown = omega arith;
    start = refl;
    reserved = refl;
  },
)

pub then-Writes :
    (f g : Writer) (xs ys : List ℕ) → Writes f xs → Writes g ys → Writes (f >> g) (xs ++ ys)
then-Writes f g xs ys wf wg p ok h =
    let long = length-append xs ys in
    let (p₁, e₁, w₁) = wf p ok (omega (arith, long)) in
    let (p₂, e₂, w₂) = wg p₁ w₁.valid (omega (arith, long, w₁.grown, w₁.reserved)) in
    (
      p₂,
      rw (e₁, ◌>>◌) e₂,
      record {
        valid = w₂.valid;
        added = w₂.added ∙ ap (λ zs. zs ++ ys) w₁.added ∙ append_assoc (content p) xs ys;
        grown = omega (arith, w₁.grown, w₂.grown, long);
        start = w₂.start ∙ w₁.start;
        reserved = w₂.reserved ∙ w₁.reserved;
      },
    )

pub get-Reads : (bytes : List ℕ) → Reads (get (length bytes)) bytes bytes
get-Reads bytes p rest ok e = get_lem bytes rest p ok e

pub discard-Reads : (bytes : List ℕ) → Reads (lift (discard (length bytes))) bytes tt
discard-Reads bytes p rest ok e =
    let (p', r, l) = discard_lem bytes rest p ok e in (p', rw (r, lift), l)

pub pure-Reads : {A : Type 0} (a : A) → Reads (pure a) [] a
pure-Reads a p rest ok e = (p, refl, record { valid = ok; left = e; end = refl; reserved = refl })

pub bind-Reads :
    {A B : Type 0} (m : Reader A) (k : A → Reader B) (xs ys : List ℕ) (a : A) (b : B)
    → Reads m xs a
    → Reads (k a) ys b
    → Reads (m >>= k) (xs ++ ys) b
bind-Reads m k xs ys a b rm rk p rest ok e =
    let (p₁, e₁, l₁) = rm p (ys ++ rest) ok (e ∙ append_assoc xs ys rest) in
    let (p₂, e₂, l₂) = rk p₁ rest l₁.valid l₁.left in
    (
      p₂,
      rw (e₁, ◌>>=◌) e₂,
      record {
        valid = l₂.valid;
        left = l₂.left;
        end = l₂.end ∙ l₁.end;
        reserved = l₂.reserved ∙ l₁.reserved;
      },
    )

pub map-Reads :
    {A B : Type 0} (m : Reader A) (f : A → B) (xs : List ℕ) (a : A)
    → Reads m xs a
    → Reads (m >>= λ b. pure (f b)) xs (f a)
map-Reads m f xs a r p rest ok e = let (p', run, l) = r p rest ok e in (p', rw (run, ◌>>=◌) refl, l)

-- A number in `k` bytes.
abbrev pub le_bytes : ℕ → ℕ → List ℕ
le_bytes zero n = []
le_bytes (suc k) n = (n % 256) ∷ le_bytes k (n / 256)

abbrev pub from_le : List ℕ → ℕ
from_le [] = 0
from_le (b ∷ bytes) = b + 256 * from_le bytes

pub length-le_bytes : (k n : ℕ) → length (le_bytes k n) ≡ k
length-le_bytes zero n = refl
length-le_bytes (suc k) n = ap suc (length-le_bytes k (n / 256))

pub from_le-le_bytes : (k n : ℕ) → n < 256 ^ k → from_le (le_bytes k n) ≡ n
from_le-le_bytes zero n h = omega arith
from_le-le_bytes (suc k) n h =
    omega (arith, from_le-le_bytes k (n / 256) (omega (arith, pow-succ' 256 k)))
