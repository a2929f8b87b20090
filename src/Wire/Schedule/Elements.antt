-- ===== src/Wire/Schedule/Elements.antt =====
-- The header and a downlink element are read back as they were written.
use tdmh.Base.{
  ℕ, ◌+◌, ◌*◌, ◌/◌, ◌%◌, ◌^◌, ◌<◌, ◌≡◌, refl, ap, ◌∙◌, subst, List, [], ◌∷◌, ◌++◌, length,
  get_elem?, get_or, get_elem?-append_left, get_elem?-length, some, length-append, arith,
}
use tdmh.Packet.{◌>>◌, ◌>>=◌, pure, lift, put, get, discard, byte_at}
use tdmh.Packet.View.{byte_at_lem}
use tdmh.Packet.Codec.{
  Writes, Reads, put-Writes, then-Writes, get-Reads, pure-Reads, bind-Reads, map-Reads,
  discard-Reads, from_le-le_bytes,
}
use tdmh.Stream.Params.{IsInFields}
use tdmh.Scheduler.Element.{ScheduleElement}
use tdmh.Wire.Fields.{
  id_bytes, params_bytes, HasWidths, write_id, read_id, write_params, read_params, take-Reads,
  read_id-Reads, read_params-Reads,
}
use tdmh.Wire.Schedule.{
  ScheduleHeader, header_bytes, header_of, write_header, read_header, DownlinkElement, schedule,
  info, response, content_bytes, write_fields, write_element, element_of, read_content, read_fields,
  read_response, read_as, read_element, element_size,
}

-- The fields of the header have 16, 16, 32, 32, 16 and 8 bits.
pub record IsHeader (h : ScheduleHeader) : Type 0 where
  pub total_packet_lt : h.total_packet < 256 ^ 2
  pub current_packet_lt : h.current_packet < 256 ^ 2
  pub schedule_id_lt : h.schedule_id < 256 ^ 4
  pub activation_tile_lt : h.activation_tile < 256 ^ 4
  pub schedule_tiles_lt : h.schedule_tiles < 256 ^ 2
  pub repetition_lt : h.repetition < 256 ^ 1

header_of-header_bytes : (h : ScheduleHeader) → IsHeader h → header_of (header_bytes h) ≡ h
header_of-header_bytes h w =
    rw
      (
        from_le-le_bytes 2 h.total_packet w.total_packet_lt,
        from_le-le_bytes 2 h.current_packet w.current_packet_lt,
        from_le-le_bytes 4 h.schedule_id w.schedule_id_lt,
        from_le-le_bytes 4 h.activation_tile w.activation_tile_lt,
        from_le-le_bytes 2 h.schedule_tiles w.schedule_tiles_lt,
        from_le-le_bytes 1 h.repetition w.repetition_lt,
      )
      refl

pub write_header-Writes : (h : ScheduleHeader) → Writes (write_header h) (header_bytes h)
unfolding write_header
write_header-Writes h = put-Writes (header_bytes h)

pub read_header-Reads : (h : ScheduleHeader) → IsHeader h → Reads read_header (header_bytes h) h
unfolding read_header
read_header-Reads h w = take-Reads (header_bytes h) header_of h (header_of-header_bytes h w)

pub record HasFields (e : ScheduleElement) : Type 0 where
  pub stream : IsInFields e.id
  pub params : HasWidths e.params
  pub tx_lt : e.tx < 256
  pub rx_lt : e.rx < 256
  pub offset_lt : e.offset < 2 ^ 20

abbrev pub IsElement : DownlinkElement → Type 0
IsElement (schedule e) = HasFields e
IsElement (info e) = HasFields e
IsElement (response node bytes) = length bytes ≡ 8

abbrev fields_bytes : ScheduleElement → ℕ → List ℕ
fields_bytes e type = (id_bytes e.id ++ params_bytes e.params) ++ content_bytes e type

abbrev pub element_bytes : DownlinkElement → List ℕ
element_bytes (schedule e) = fields_bytes e 0
element_bytes (info e) = fields_bytes e 1
element_bytes (response node bytes) = ((node ∷ []) ++ bytes) ++ (32 ∷ [])

pub length-element_bytes :
    (e : DownlinkElement) → IsElement e → length (element_bytes e) ≡ element_size
length-element_bytes (schedule e) h = refl
length-element_bytes (info e) h = refl
length-element_bytes (response node bytes) h =
    omega (arith, length-append ((node ∷ []) ++ bytes) (32 ∷ []))

write_fields-Writes :
    (e : ScheduleElement) (type : ℕ) → Writes (write_fields e type) (fields_bytes e type)
unfolding write_id write_params
write_fields-Writes e type =
    then-Writes (write_id e.id >> write_params e.params) (put (content_bytes e type)) _ _
      (then-Writes (write_id e.id) (write_params e.params) _ _ (put-Writes (id_bytes e.id))
        (put-Writes (params_bytes e.params)))
      (put-Writes (content_bytes e type))

pub write_element-Writes : (e : DownlinkElement) → Writes (write_element e) (element_bytes e)
unfolding write_element
write_element-Writes (schedule e) = write_fields-Writes e 0
write_element-Writes (info e) = write_fields-Writes e 1
write_element-Writes (response node bytes) =
    then-Writes (put (node ∷ []) >> put bytes) (put (32 ∷ [])) _ _
      (then-Writes (put (node ∷ [])) (put bytes) _ _ (put-Writes (node ∷ [])) (put-Writes bytes))
      (put-Writes (32 ∷ []))

element_of_lem :
    (e : ScheduleElement) (type : ℕ)
    → HasFields e
    → type < 16
    → element_of e.id e.params (content_bytes e type) ≡ e
element_of_lem e type h t =
    let word = from_le-le_bytes 3 (e.offset + type * 2 ^ 20) (omega (arith, h.offset_lt)) in
    ground (arith, word, h.offset_lt)

read_fields-Reads :
    (e : ScheduleElement) (type : ℕ)
    → HasFields e
    → type < 16
    → Reads read_fields (id_bytes e.id ++ (params_bytes e.params ++ content_bytes e type)) e
unfolding read_content
read_fields-Reads e type h t =
    bind-Reads read_id (λ s. read_params >>= λ c. read_content s c) (id_bytes e.id)
      (params_bytes e.params ++ content_bytes e type) e.id e (read_id-Reads e.id h.stream)
      (bind-Reads read_params (read_content e.id) (params_bytes e.params) (content_bytes e type)
        e.params e (read_params-Reads e.params h.params)
        (take-Reads (content_bytes e type) (element_of e.id e.params) e
          (element_of_lem e type h t)))

peek :
    (byte : ℕ) (bytes : List ℕ) (e : DownlinkElement)
    → get_elem? bytes 9 ≡ some byte
    → length bytes ≡ element_size
    → Reads (read_as (byte / 16)) bytes e
    → Reads read_element bytes e
unfolding read_element
peek byte bytes e b long reads p rest ok h =
    let (p', r, l) = reads p rest ok h in
    let sum = ap length h ∙ length-append bytes rest in
    let seen : byte_at p 9 ≡ some byte =
      byte_at_lem p 9 ok (omega (arith, sum, long))
      ∙ ap (λ bs. get_elem? bs 9) h
      ∙ get_elem?-append_left bytes rest 9 (omega (arith, long))
      ∙ b in
    (p', rw (seen, read_element) r, l)

last_byte : ScheduleElement → ℕ → ℕ
last_byte e type = (e.offset + type * 2 ^ 20) / 256 / 256 % 256

last_byte_type :
    (e : ScheduleElement) (type : ℕ) → HasFields e → type < 16 → last_byte e type / 16 ≡ type
unfolding last_byte
last_byte_type e type h t = omega (arith, h.offset_lt)

tagged_fields :
    (e : ScheduleElement) (type : ℕ) (tag : ScheduleElement → DownlinkElement)
    → HasFields e
    → type < 16
    → Reads (read_fields >>= λ e'. pure (tag e')) (fields_bytes e type) (tag e)
tagged_fields e type tag h t =
    map-Reads read_fields tag (fields_bytes e type) e (read_fields-Reads e type h t)

read_response-Reads :
    (node : ℕ) (bytes : List ℕ)
    → length bytes ≡ 8
    → Reads read_response (element_bytes (response node bytes)) (response node bytes)
read_response-Reads node bytes h =
    let e = response node bytes in
    bind-Reads (get 1)
      (λ n. get 8 >>= λ taken. lift (discard 1) >>= λ _. pure (response (get_or n 0 0) taken))
      (node ∷ []) (bytes ++ (32 ∷ [])) (node ∷ []) e (get-Reads (node ∷ []))
      (bind-Reads (get 8) (λ taken. lift (discard 1) >>= λ _. pure (response node taken)) bytes
        (32 ∷ []) bytes e (subst (λ n. Reads (get n) bytes bytes) h (get-Reads bytes))
        (bind-Reads (lift (discard 1)) (λ _. pure e) (32 ∷ []) [] tt e (discard-Reads (32 ∷ []))
          (pure-Reads e)))

pub read_element-Reads :
    (e : DownlinkElement) → IsElement e → Reads read_element (element_bytes e) e
unfolding last_byte
read_element-Reads (schedule e) h =
    peek (last_byte e 0) (fields_bytes e 0) (schedule e) refl refl
      (rw (last_byte_type e 0 h (omega arith)) (tagged_fields e 0 schedule h (omega arith)))
read_element-Reads (info e) h =
    peek (last_byte e 1) (fields_bytes e 1) (info e) refl refl
      (rw (last_byte_type e 1 h (omega arith)) (tagged_fields e 1 info h (omega arith)))
read_element-Reads (response node bytes) h =
    peek 32 (element_bytes (response node bytes)) (response node bytes)
      (subst (λ n. get_elem? (bytes ++ (32 ∷ [])) n ≡ some 32) h (get_elem?-length bytes 32 []))
      (length-element_bytes (response node bytes) h) (read_response-Reads node bytes h)
