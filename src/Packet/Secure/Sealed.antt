-- ===== src/Packet/Secure/Sealed.antt =====
-- What is sealed for the radio is read back by who receives it.
use tdmh.Base.{
  ℕ, ◌+◌, ◌-◌, ◌≤◌, ◌≡◌, refl, sym, ap, ◌∙◌, subst, List, [], ◌∷◌, ◌++◌, length, take, drop, write,
  some, true, false, ltb, length-append, length-take, length-drop, length-write, take-write,
  take-length, drop-length, take-append-drop, take-drop, take-take, arith,
}
use mathlib.Core.List.{append_assoc}
use tdmh.Packet.{Packet, max_pkt_size, tag_size, pan_header_size, read, receive}
use tdmh.Packet.View.{IsPacket, content, receive_lem}
use tdmh.Packet.Secure.{
  Ocb, encrypt_and_put_tag, put_tag, verify_and_decrypt, verify, Protection, bare, authenticated,
  encrypted, reserved_for, protect, unprotect, IsCipher,
}

empty_of_length : (xs : List ℕ) → length xs ≡ 0 → xs ≡ []
empty_of_length [] h = refl
empty_of_length (x ∷ xs) h = absurd (omega arith)

-- A list cut after `k` of its first `n`.
join_read : (k n : ℕ) (xs : List ℕ) → k ≤ n → take k xs ++ read k (n - k) xs ≡ take n xs
join_read k n xs h =
    let e : k + (n - k) ≡ n = omega arith in
    ap (λ rest. take k xs ++ rest) (take-drop (n - k) k xs ∙ ap (λ m. drop k (take m xs)) e)
    ∙ ap (λ front. front ++ drop k (take n xs)) (sym (take-take k n xs h))
    ∙ take-append-drop k (take n xs)

take_front : (front rest : List ℕ) (n : ℕ) → length front ≡ n → take n (front ++ rest) ≡ front
take_front front rest n h = subst (λ k. take k (front ++ rest) ≡ front) h (take-length front rest)

read_middle :
    (front middle rest : List ℕ) (n k : ℕ)
    → length front ≡ n
    → length middle ≡ k
    → read n k (front ++ (middle ++ rest)) ≡ middle
read_middle front middle rest n k h hk =
    subst (λ i. take k (drop i (front ++ (middle ++ rest))) ≡ middle) h
      (ap (take k) (drop-length front (middle ++ rest)) ∙ take_front middle rest k hk)

-- A packet of `n` bytes and a tag that has been received.
record Arrived (n : ℕ) (body tag : List ℕ) (r : Packet) : Type 0 where
  size : r.data_size ≡ n + tag_size
  start : r.data_start ≡ 0
  reserved : r.reserved_size ≡ 0
  array : length r.packet ≡ max_pkt_size
  body_at : take n r.packet ≡ body
  tag_at : read n tag_size r.packet ≡ tag

receive-Arrived :
    (n : ℕ) (body tag : List ℕ) (q : Packet)
    → IsPacket q
    → q.reserved_size ≡ 0
    → length body ≡ n
    → length tag ≡ tag_size
    → n + tag_size ≤ max_pkt_size
    → Arrived n body tag (receive (body ++ tag) q)
unfolding receive
receive-Arrived n body tag q ok clean hb ht room =
    let long = length-append body tag in
    let tail = drop (length (body ++ tag)) q.packet in
    let split = append_assoc body tag tail in
    record {
      size = omega (arith, long);
      start = refl;
      reserved = clean;
      array = length-write 0 (body ++ tag) q.packet (omega (arith, long, ok.array)) ∙ ok.array;
      body_at = ap (take n) split ∙ take_front body (tag ++ tail) n hb;
      tag_at = ap (read n tag_size) split ∙ read_middle body tag tail n tag_size hb ht;
    }

verify_lem :
    (o : Ocb) (n : ℕ) (body tag plain : List ℕ) (r : Packet)
    → Arrived n body tag r
    → o.decrypt body [] tag ≡ (plain, true)
    → verify o r ≡ some (true, record r { data_size = n })
unfolding verify
verify_lem o n body tag plain r a d =
    let long : ltb r.data_size tag_size ≡ false = ground (arith, a.size) in
    let n_eq : r.data_size - tag_size ≡ n = omega (arith, a.size) in
    rw (long, n_eq) (rw (a.body_at, a.tag_at) (rw d refl))

front_kept :
    (n : ℕ) (front cipher tag : List ℕ) (r : Packet)
    → Arrived n (front ++ cipher) tag r
    → length front ≡ pan_header_size
    → pan_header_size ≤ n
    → take pan_header_size r.packet ≡ front
front_kept n front cipher tag r a hf h =
    sym (take-take pan_header_size n r.packet h)
    ∙ ap (take pan_header_size) a.body_at
    ∙ take_front front cipher pan_header_size hf

verify_and_decrypt_lem :
    (o : Ocb) (n : ℕ) (front cipher tag plain : List ℕ) (r : Packet)
    → Arrived n (front ++ cipher) tag r
    → length front ≡ pan_header_size
    → pan_header_size + length cipher ≡ n
    → o.decrypt front cipher tag ≡ (plain, true)
    → verify_and_decrypt o r
      ≡ some (true, record r { packet = write pan_header_size plain r.packet; data_size = n })
unfolding verify_and_decrypt
verify_and_decrypt_lem o n front cipher tag plain r a hf hc d =
    let long : ltb r.data_size (tag_size + pan_header_size) ≡ false = ground (arith, a.size) in
    let longer : ltb r.data_size tag_size ≡ false = ground (arith, a.size) in
    let n_eq : r.data_size - tag_size ≡ n = omega (arith, a.size) in
    let front_at : take pan_header_size r.packet ≡ front =
      front_kept n front cipher tag r a hf (omega arith) in
    let cipher_at : read pan_header_size (n - pan_header_size) r.packet ≡ cipher =
      take-drop (n - pan_header_size) pan_header_size r.packet
      ∙ ap (λ k. drop pan_header_size (take k r.packet))
          (let e : pan_header_size + (n - pan_header_size) ≡ n = omega arith in e)
      ∙ ap (drop pan_header_size) a.body_at
      ∙ subst (λ k. drop k (front ++ cipher) ≡ cipher) hf (drop-length front cipher) in
    rw (long, longer, n_eq) (rw (front_at, cipher_at, a.tag_at) (rw d refl))

-- Once the tag is taken off, the packet is whole again.
untagged-IsPacket :
    (n : ℕ) (body tag : List ℕ) (r : Packet)
    → Arrived n body tag r
    → n ≤ max_pkt_size
    → IsPacket (record r { data_size = n })
untagged-IsPacket n body tag r a h = record {
  array = a.array;
  ordered = omega (arith, a.start);
  room = omega (arith, a.reserved);
}

-- The packet is whole, and so is the one it is received in.
pub record CanSeal (p q : Packet) (reserved : ℕ) : Type 0 where
  pub valid : IsPacket p
  pub start : p.data_start ≡ 0
  pub header : pan_header_size ≤ p.data_size
  pub room : p.reserved_size ≡ reserved
  pub target : IsPacket q
  pub target_room : q.reserved_size ≡ 0

module _ (o : Ocb) (ok : IsCipher o) (p q : Packet) where
  abbrev Comes : Protection → Type 0
  Comes m =
      (p' : Packet) × (q' : Packet) × (protect m o p ≡ some p')
      × (unprotect m o (receive (take p'.data_size p'.packet) q) ≡ some (true, q'))
      × IsPacket q'
      × (content q' ≡ content p)

  whole : (r : ℕ) → CanSeal p q r → content p ≡ take p.data_size p.packet
  whole r c = ap (λ n. drop n (take p.data_size p.packet)) c.start

  unsealed_bare : CanSeal p q 0 → Comes bare
  unfolding protect unprotect
  unsealed_bare c =
      let bytes = take p.data_size p.packet in
      let (valid, e) =
        receive_lem bytes q c.target c.target_room
          (omega (arith, length-take p.data_size p.packet, c.valid.array)) in
      (p, receive bytes q, refl, refl, valid, e ∙ sym (whole 0 c))

  unsealed_authenticated : CanSeal p q tag_size → Comes authenticated
  unfolding protect unprotect put_tag
  unsealed_authenticated c =
      let n = p.data_size in
      let body = take n p.packet in
      let tag = (o.encrypt body []).1 in
      let body_long : length body ≡ n =
        omega (arith, length-take n p.packet, c.valid.array, c.valid.room) in
      let tag_long = ok.tag_length body [] in
      let a =
        receive-Arrived n body tag q c.target c.target_room body_long tag_long
          (omega (arith, c.valid.room, c.room)) in
      let sent : take (n + tag_size) (write n tag p.packet) ≡ body ++ tag =
        subst (λ k. take (n + k) (write n tag p.packet) ≡ body ++ tag) tag_long
          (take-write n tag p.packet (omega (arith, c.valid.array, c.valid.room))) in
      let decrypted : o.decrypt body [] tag ≡ ([], true) =
        subst (λ cipher. o.decrypt body cipher tag ≡ ([], true))
          (empty_of_length (o.encrypt body []).0 (ok.cipher_length body []))
          (ok.decrypts body []) in
      (
        record p { packet = write n tag p.packet; data_size = n + tag_size; reserved_size = 0 },
        record (receive (body ++ tag) q) { data_size = n },
        ground (arith, c.room, c.valid.room),
        rw sent (verify_lem o n body tag [] (receive (body ++ tag) q) a decrypted),
        untagged-IsPacket n body tag (receive (body ++ tag) q) a (omega (arith, c.valid.room)),
        ap (λ k. drop k (take n (receive (body ++ tag) q).packet)) a.start
            ∙ a.body_at
            ∙ sym (whole tag_size c),
      )

  unsealed_encrypted : CanSeal p q tag_size → Comes encrypted
  unfolding protect unprotect encrypt_and_put_tag
  unsealed_encrypted c =
      let n = p.data_size in
      let front = take pan_header_size p.packet in
      let plain = read pan_header_size (n - pan_header_size) p.packet in
      let cipher = (o.encrypt front plain).0 in
      let tag = (o.encrypt front plain).1 in
      let mem = write pan_header_size cipher p.packet in
      let front_long : length front ≡ pan_header_size =
        omega (arith, length-take pan_header_size p.packet, c.valid.array) in
      let plain_long : length plain ≡ n - pan_header_size = omega (
        arith,
        length-take (n - pan_header_size) (drop pan_header_size p.packet),
        length-drop pan_header_size p.packet,
        c.valid.array,
        c.valid.room,
      ) in
      let cipher_long : pan_header_size + length cipher ≡ n =
        omega (arith, ok.cipher_length front plain, plain_long, c.header) in
      let tag_long = ok.tag_length front plain in
      let mem_long : length mem ≡ max_pkt_size =
        length-write pan_header_size cipher p.packet
          (omega (arith, cipher_long, c.valid.array, c.valid.room))
        ∙ c.valid.array in
      let body_at : take n mem ≡ front ++ cipher =
        subst (λ k. take k mem ≡ front ++ cipher) cipher_long
          (take-write pan_header_size cipher p.packet (omega (arith, c.valid.array))) in
      let a =
        receive-Arrived n (front ++ cipher) tag q c.target c.target_room
          (omega (arith, length-append front cipher, front_long, cipher_long)) tag_long
          (omega (arith, c.valid.room, c.room)) in
      let sent : take (n + tag_size) (write n tag mem) ≡ (front ++ cipher) ++ tag =
        subst (λ k. take (n + k) (write n tag mem) ≡ take n mem ++ tag) tag_long
          (take-write n tag mem (omega (arith, mem_long, c.valid.room)))
        ∙ ap (λ b. b ++ tag) body_at in
      let whole_long : pan_header_size + length plain ≡ n = omega (arith, plain_long, c.header) in
      let r = receive ((front ++ cipher) ++ tag) q in
      (
        record p { packet = write n tag mem; data_size = n + tag_size; reserved_size = 0 },
        record r { packet = write pan_header_size plain r.packet; data_size = n },
        ground (arith, c.room, c.valid.room, c.header),
        rw sent (
            verify_and_decrypt_lem o n front cipher tag plain r a front_long cipher_long
              (ok.decrypts front plain)),
        record {
          array =
              length-write pan_header_size plain r.packet
                (omega (arith, plain_long, a.array, c.header, c.valid.room))
              ∙ a.array;
          ordered = omega (arith, a.start);
          room = omega (arith, a.reserved, c.valid.room);
        },
        ap (λ k. drop k (take n (write pan_header_size plain r.packet))) a.start
            ∙ subst
                (λ k.
                  take k (write pan_header_size plain r.packet)
                  ≡ take pan_header_size r.packet ++ plain)
                whole_long (take-write pan_header_size plain r.packet (omega (arith, a.array)))
            ∙ ap (λ f. f ++ plain) (front_kept n front cipher tag r a front_long c.header)
            ∙ join_read pan_header_size n p.packet c.header
            ∙ sym (whole tag_size c),
      )

-- Where the cipher takes its own work apart again: a packet of five bytes or more, with the room
-- that its protection needs, is sealed without an exception, and whoever receives it finds it
-- valid and is left with the bytes that it had before.
pub unprotect-protect :
    (m : Protection) (o : Ocb) (p q : Packet)
    → IsCipher o
    → CanSeal p q (reserved_for m)
    → (p' : Packet) × (q' : Packet) × (protect m o p ≡ some p')
      × (unprotect m o (receive (take p'.data_size p'.packet) q) ≡ some (true, q'))
      × IsPacket q'
      × (content q' ≡ content p)
unprotect-protect bare o p q ok c = unsealed_bare o ok p q c
unprotect-protect authenticated o p q ok c = unsealed_authenticated o ok p q c
unprotect-protect encrypted o p q ok c = unsealed_encrypted o ok p q c
