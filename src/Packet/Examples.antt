-- ===== src/Packet/Examples.antt =====
-- Packets with concrete bytes, and a cipher that hides nothing.
use tdmh.Base.{◌≡◌, refl, [], ◌∷◌, take, none, some, true, false, arith}
use tdmh.Packet.{Packet, receive, available, reserve_tag, clear, same, check_pan_header}
use tdmh.Packet.View.{IsPacket, IsNew, content, zeros, new_packet}
use tdmh.Packet.Buffer.{fill, fetch, skip, trim, packet_step, answers, answers-packet_step}
use tdmh.Packet.Secure.{Ocb, IsCipher, encrypted, protect, unprotect}
use tdmh.Packet.Secure.Sealed.{CanSeal, unprotect-protect}

new_packet-IsNew : IsNew 16 (new_packet 16)
new_packet-IsNew = record { array = refl; empty = refl; start = refl; room = refl }

answers-packet_step_example :
    answers packet_step
      (fill (7 ∷ 8 ∷ 9 ∷ []) ∷ fetch 2 ∷ trim 5 ∷ skip 1 ∷ fill (zeros 107) ∷ [])
      (new_packet 16)
    ≡ some [] ∷ some (7 ∷ 8 ∷ []) ∷ none ∷ some [] ∷ none ∷ []
answers-packet_step_example =
    answers-packet_step (fill (7 ∷ 8 ∷ 9 ∷ []) ∷ fetch 2 ∷ trim 5 ∷ skip 1 ∷ fill (zeros 107) ∷ [])
      16 (new_packet 16) (omega arith) new_packet-IsNew

abbrev seven_bytes : Packet
seven_bytes = record {
  packet = 70 ∷ 8 ∷ 255 ∷ 0 ∷ 1 ∷ 20 ∷ 30 ∷ zeros 118;
  data_size = 7;
  data_start = 0;
  reserved_size = 16;
}

-- A packet is cleared and room is kept for a tag.
cleared : available (reserve_tag (clear (new_packet 3))) ≡ 109
unfolding available reserve_tag clear
cleared = refl

-- A packet is the same as a longer one that begins with it, but not the other way round.
prefixes : (same (new_packet 0) seven_bytes ≡ true) × (same seven_bytes (new_packet 0) ≡ false)
unfolding same
prefixes = (refl, refl)

-- The bytes of a header are found by their place in the array, whether they were received or not.
stale_header : check_pan_header 1 (record seven_bytes { data_size = 0 }) ≡ true
unfolding check_pan_header
stale_header = refl

abbrev plain_ocb : Ocb
plain_ocb = record {
  encrypt = λ auth plain. (plain, zeros 16);
  decrypt = λ auth cipher tag. (cipher, true);
}

plain_ocb-IsCipher : IsCipher plain_ocb
plain_ocb-IsCipher = record {
  cipher_length = λ auth plain. refl;
  tag_length = λ auth plain. refl;
  decrypts = λ auth plain. refl;
}

seven_bytes-CanSeal : CanSeal seven_bytes (new_packet 0) 16
seven_bytes-CanSeal = record {
  valid = record { array = refl; ordered = omega arith; room = omega arith };
  start = refl;
  header = omega arith;
  room = refl;
  target = record { array = refl; ordered = omega arith; room = omega arith };
  target_room = refl;
}

unprotect-protect_example :
    (p' : Packet) × (q' : Packet) × (protect encrypted plain_ocb seven_bytes ≡ some p')
    × (unprotect encrypted plain_ocb (receive (take p'.data_size p'.packet) (new_packet 0))
        ≡ some (true, q'))
    × IsPacket q'
    × (content q' ≡ content seven_bytes)
unprotect-protect_example =
    unprotect-protect encrypted plain_ocb seven_bytes (new_packet 0) plain_ocb-IsCipher
      seven_bytes-CanSeal
