-- ===== src/Wire/Fields.antt =====
-- stream/stream_parameters.h: the bytes of a StreamId and of StreamParameters, whose packed
-- bit-fields lie from the lowest bit on.
use tdmh.Base.{ℕ, ◌+◌, ◌*◌, ◌/◌, ◌%◌, ◌<◌, ◌≡◌, subst, List, [], ◌∷◌, length, get_or, arith}
use tdmh.Packet.{Writer, Reader, ◌>>=◌, pure, put, get}
use tdmh.Packet.Codec.{Reads, get-Reads, map-Reads, le_bytes, from_le, from_le-le_bytes}
use tdmh.Stream.Params.{StreamId, StreamParameters, IsInFields}

abbrev pub id_bytes : StreamId → List ℕ
id_bytes s = s.src ∷ s.dst ∷ (s.src_port + s.dst_port * 16) ∷ []

-- `fromBytes`.
abbrev pub id_of : List ℕ → StreamId
id_of bytes = record {
  src = get_or bytes 0 0;
  dst = get_or bytes 1 0;
  src_port = get_or bytes 2 0 % 16;
  dst_port = get_or bytes 2 0 / 16;
}

abbrev params_word : StreamParameters → ℕ
params_word c = c.redundancy + c.period * 8 + c.payload_size * 128 + c.direction * 16384

abbrev pub params_bytes : StreamParameters → List ℕ
params_bytes c = le_bytes 2 (params_word c)

-- `fromBytes`.
abbrev pub params_of : List ℕ → StreamParameters
params_of bytes =
    let word = from_le bytes in
    record {
      redundancy = word % 8;
      period = word / 8 % 16;
      payload_size = word / 128 % 128;
      direction = word / 16384 % 4;
    }

-- The bit-fields of the parameters have 3, 4, 7 and 2 bits.
pub record HasWidths (c : StreamParameters) : Type 0 where
  pub redundancy_lt : c.redundancy < 8
  pub period_lt : c.period < 16
  pub payload_size_lt : c.payload_size < 128
  pub direction_lt : c.direction < 4

pub id_of-id_bytes : (s : StreamId) → IsInFields s → id_of (id_bytes s) ≡ s
id_of-id_bytes s h = ground arith

pub params_of-params_bytes : (c : StreamParameters) → HasWidths c → params_of (params_bytes c) ≡ c
params_of-params_bytes c h = ground (arith, from_le-le_bytes 2 (params_word c))

unfoldable pub write_id : StreamId → Writer
write_id s = put (id_bytes s)

unfoldable pub read_id : Reader StreamId
read_id = do bytes ← get 3; pure (id_of bytes)

unfoldable pub write_params : StreamParameters → Writer
write_params c = put (params_bytes c)

unfoldable pub read_params : Reader StreamParameters
read_params = do bytes ← get 2; pure (params_of bytes)

-- `get` of a fixed count, and a look at what it has taken.
pub take-Reads :
    {A : Type 0} (bytes : List ℕ) (f : List ℕ → A) (a : A)
    → f bytes ≡ a
    → Reads (get (length bytes) >>= λ taken. pure (f taken)) bytes a
take-Reads bytes f a e =
    subst (Reads (get (length bytes) >>= λ taken. pure (f taken)) bytes) e
      (map-Reads (get (length bytes)) f bytes bytes (get-Reads bytes))

pub read_id-Reads : (s : StreamId) → IsInFields s → Reads read_id (id_bytes s) s
unfolding read_id
read_id-Reads s h = take-Reads (id_bytes s) id_of s (id_of-id_bytes s h)

pub read_params-Reads : (c : StreamParameters) → HasWidths c → Reads read_params (params_bytes c) c
unfolding read_params
read_params-Reads c h = take-Reads (params_bytes c) params_of c (params_of-params_bytes c h)
