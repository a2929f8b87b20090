-- ===== src/Packet.antt =====
-- network_module/util/packet.h and .cpp: Packet, an array of bytes with a start and an end of what
-- it holds, and room kept for a tag. An operation that throws is `none`. The ciphers are
-- arguments.
pub mod View
pub mod Codec
pub mod Buffer
pub mod Secure
mod Examples
use tdmh.Base.{
  ℕ, ◌+◌, ◌-◌, ◌*◌, ◌/◌, ◌%◌, ◌^◌, List, [], ◌∷◌, ◌++◌, length, take, drop, write, get_elem?,
  Option, none, some, Bool, true, false, ◌&&◌, ◌==◌, ltb, if◌then◌else◌,
}

-- MediumAccessController::maxPktSize, panHeaderSize and tagSize.
abbrev pub max_pkt_size : ℕ
max_pkt_size = 125

abbrev pub pan_header_size : ℕ
pan_header_size = 5

abbrev pub tag_size : ℕ
tag_size = 16

pub record Packet : Type 0 where
  pub packet : List ℕ
  pub data_size : ℕ
  pub data_start : ℕ
  pub reserved_size : ℕ

-- The three counters are `unsigned char`.
abbrev u8 : ℕ → ℕ
u8 n = n % 256

abbrev sub_u32 : ℕ → ℕ → ℕ
sub_u32 a b = (a + 2 ^ 32 - b) % 2 ^ 32

unfoldable pub clear : Packet → Packet
clear p = record p { data_size = 0; data_start = 0; reserved_size = 0 }

unfoldable pub reserve_tag : Packet → Packet
reserve_tag p = record p { reserved_size = u8 (p.reserved_size + tag_size) }

unfoldable pub size : Packet → ℕ
size p = sub_u32 p.data_size p.data_start

unfoldable pub available : Packet → ℕ
available p = sub_u32 max_pkt_size (p.data_size + p.reserved_size)

unfoldable pub is_empty : Packet → Bool
is_empty p = p.data_size + p.reserved_size == p.data_start

-- `memcpy` from an offset; `write` is the one to it.
abbrev pub read : ℕ → ℕ → List ℕ → List ℕ
read offset count mem = take count (drop offset mem)

unfoldable pub put : List ℕ → Packet → Option Packet
unfolding available
put bytes p =
    if ltb (available p) (length bytes)
    then none
    else some (record p {
      packet = write p.data_size bytes p.packet;
      data_size = u8 (p.data_size + length bytes);
    })

unfoldable pub get : ℕ → Packet → Option (List ℕ × Packet)
unfolding size
get count p =
    if ltb (size p) count
    then none
    else some
        (read p.data_start count p.packet, record p { data_start = u8 (p.data_start + count) })

unfoldable pub discard : ℕ → Packet → Option Packet
unfolding size
discard count p =
    if ltb (size p) count then none else some (record p { data_start = u8 (p.data_start + count) })

unfoldable pub discard_from_end : ℕ → Packet → Option Packet
unfolding size
discard_from_end count p =
    if ltb (size p) count
    then none
    else some (record p { data_size = u8 (p.data_size + 256 - count % 256) })

unfoldable pub discard_tag : Packet → Option Packet
discard_tag p =
    if ltb p.data_size tag_size
    then none
    else some (record p { data_size = p.data_size - tag_size })

-- `operator[]`; it throws past the end, by its own test, and reads outside of the array past that.
unfoldable pub byte_at : Packet → ℕ → Option ℕ
byte_at p index =
    if ltb (p.data_start + p.data_size) index
    then none
    else get_elem? p.packet (p.data_start + index)

-- The bytes that `operator==` compares are the first `dataSize` of its left side.
abbrev same_bytes : List ℕ → List ℕ → Bool
same_bytes [] bytes = true
same_bytes (x ∷ xs) [] = false
same_bytes (x ∷ xs) (y ∷ ys) = x == y && same_bytes xs ys

unfoldable pub same : Packet → Packet → Bool
same p q = same_bytes (take p.data_size p.packet) (take p.data_size q.packet)

abbrev pub pan_header : ℕ → List ℕ
pan_header pan_id = 0x46 ∷ 0x08 ∷ 0xff ∷ (pan_id / 256 % 256) ∷ (pan_id % 256) ∷ []

unfoldable pub put_pan_header : ℕ → Packet → Option Packet
unfolding put
put_pan_header pan_id p = put (pan_header pan_id) p

-- The array is as long as it is, so the test of its size never fails.
unfoldable pub check_pan_header : ℕ → Packet → Bool
check_pan_header pan_id p = same_bytes (pan_header pan_id) (take pan_header_size p.packet)

unfoldable pub remove_pan_header : Packet → Option Packet
unfolding discard
remove_pan_header p = discard pan_header_size p

-- A packet that the radio has received.
unfoldable pub receive : List ℕ → Packet → Packet
receive bytes p = record p {
  packet = write 0 bytes p.packet;
  data_start = 0;
  data_size = u8 (length bytes);
}

-- The code that fills a packet, and the code that takes it apart.
abbrev pub Writer : Type 0
Writer = Packet → Option Packet

abbrev pub Reader : Type 0 → Type 0
Reader A = Packet → Option (A × Packet)

infixl 5 ◌>>◌ ◌>>=◌
abbrev pub ◌>>◌ : Writer → Writer → Writer
◌>>◌ f g p = elim (f p) [ none ↦ none | some p' ↦ g p' ]

abbrev pub ◌>>=◌ : {A B : Type 0} → Reader A → (A → Reader B) → Reader B
◌>>=◌ m f p = elim (m p) [ none ↦ none | some (a, p') ↦ f a p' ]

abbrev pub pure : {A : Type 0} → A → Reader A
pure a p = some (a, p)

abbrev pub fail : {A : Type 0} → Reader A
fail p = none

-- A step that returns nothing.
abbrev pub lift : Writer → Reader (Unit {0})
lift f p = elim (f p) [ none ↦ none | some p' ↦ some (tt, p') ]
