-- ===== src/Packet/Secure.antt =====
-- packet.h: the tag and the encryption of a packet, and what the two ends of the uplink do by
-- their configuration. The cipher of crypto/aes_ocb.h is an argument.
pub mod Sealed
use tdmh.Base.{
  ℕ, ◌+◌, ◌-◌, ◌*◌, ◌%◌, ◌≤◌, ◌<◌, ◌≡◌, refl, sym, ap, ◌∙◌, List, [], ◌∷◌, ◌++◌, length, take, drop,
  write, Option, none, some, Bool, true, false, inl, inr, ◌||◌, ltb, if◌then◌else◌, length-append,
  length-take, length-drop, length-write, take-write, take-length, drop-length, take-append-drop,
  take-drop, take-take, arith, tests, min,
}
use mathlib.Core.List.{append-nil, append_assoc}
use tdmh.Packet.{Packet, max_pkt_size, tag_size, pan_header_size, read, discard_tag, receive}
use tdmh.Packet.View.{IsPacket, content, receive_lem}

-- encryptAndComputeTag from what is authenticated only and what is encrypted, and
-- verifyAndDecrypt, which also takes the tag.
pub record Ocb : Type 0 where
  pub encrypt : List ℕ → List ℕ → List ℕ × List ℕ
  pub decrypt : List ℕ → List ℕ → List ℕ → List ℕ × Bool

-- Both throw when they are given more than eight blocks, and so when the length is negative and
-- becomes a large unsigned number.
unfoldable pub encrypt_and_put_tag : Ocb → Packet → Option Packet
encrypt_and_put_tag o p =
    if ltb p.reserved_size tag_size
      || ltb (max_pkt_size - p.data_size) tag_size
      || ltb p.data_size pan_header_size
    then none
    else let (cipher, tag) =
        o.encrypt (take pan_header_size p.packet)
          (read pan_header_size (p.data_size - pan_header_size) p.packet) in
      some (record p {
        packet = write p.data_size tag (write pan_header_size cipher p.packet);
        data_size = (p.data_size + p.reserved_size) % 256;
        reserved_size = 0;
      })

unfoldable pub put_tag : Ocb → Packet → Option Packet
put_tag o p =
    if ltb p.reserved_size tag_size || ltb (max_pkt_size - p.data_size) tag_size
    then none
    else some (record p {
      packet = write p.data_size (o.encrypt (take p.data_size p.packet) []).1 p.packet;
      data_size = (p.data_size + p.reserved_size) % 256;
      reserved_size = 0;
    })

abbrev checked : Bool → Option Packet → Option (Bool × Packet)
checked valid none = none
checked valid (some p) = some (valid, p)

unfoldable pub verify_and_decrypt : Ocb → Packet → Option (Bool × Packet)
unfolding discard_tag
verify_and_decrypt o p =
    if ltb p.data_size (tag_size + pan_header_size)
    then none
    else let (plain, valid) =
        o.decrypt (take pan_header_size p.packet)
          (read pan_header_size (p.data_size - tag_size - pan_header_size) p.packet)
          (read (p.data_size - tag_size) tag_size p.packet) in
      checked valid (discard_tag (record p { packet = write pan_header_size plain p.packet }))

unfoldable pub verify : Ocb → Packet → Option (Bool × Packet)
unfolding discard_tag
verify o p =
    if ltb p.data_size tag_size
    then none
    else checked
        (o.decrypt (take (p.data_size - tag_size) p.packet) []
          (read (p.data_size - tag_size) tag_size p.packet)).1
        (discard_tag p)

-- What the configuration asks for, and what the sender and the receiver then do.
pub data Protection : Type 0 where
  bare authenticated encrypted : Protection

abbrev pub reserved_for : Protection → ℕ
reserved_for bare = 0
reserved_for authenticated = tag_size
reserved_for encrypted = tag_size

unfoldable pub protect : Protection → Ocb → Packet → Option Packet
protect bare o p = some p
protect authenticated o p = put_tag o p
protect encrypted o p = encrypt_and_put_tag o p

unfoldable pub unprotect : Protection → Ocb → Packet → Option (Bool × Packet)
unprotect bare o p = some (true, p)
unprotect authenticated o p = verify o p
unprotect encrypted o p = verify_and_decrypt o p

-- What is relied on of the cipher: it keeps lengths, its tags have 16 bytes, and it takes its own
-- work apart again.
pub record IsCipher (o : Ocb) : Type 0 where
  pub cipher_length : (auth plain : List ℕ) → length (o.encrypt auth plain).0 ≡ length plain
  pub tag_length : (auth plain : List ℕ) → length (o.encrypt auth plain).1 ≡ tag_size
  pub decrypts :
      (auth plain : List ℕ)
      → let (cipher, tag) = o.encrypt auth plain in o.decrypt auth cipher tag ≡ (plain, true)
