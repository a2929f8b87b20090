-- ===== src/Stream/Params.antt =====
-- stream_parameters.h: the identifiers and the parameters of streams, and the master's record of
-- one. The fields are bit-fields of the source, held here as the numbers in them; an enum that is
-- cast from such a field may have a value that names no enumerator.
use tdmh.Base.{ℕ, ◌+◌, ◌*◌, ◌≤◌, ◌<◌, ◌≡◌, Bool, ◌&&◌, not, ◌==◌, if◌then◌else◌, Keyed, arith}

pub record StreamId : Type 0 where
  pub src : ℕ
  pub dst : ℕ
  pub src_port : ℕ
  pub dst_port : ℕ

-- src | dst<<8 | srcPort<<16 | dstPort<<20, whose parts do not overlap: the fields have
-- 8, 8, 4 and 4 bits.
unfoldable pub get_key : StreamId → ℕ
get_key s = s.src + s.dst * 256 + s.src_port * 65536 + s.dst_port * 1048576

-- `operator<` and `operator==` compare the keys.
instance abbrev pub id_keyed : Keyed StreamId
id_keyed = record { key = get_key }

unfoldable pub get_server_id : StreamId → StreamId
get_server_id s = record { src = s.dst; dst = s.dst; src_port = 0; dst_port = s.dst_port }

unfoldable pub is_server : StreamId → Bool
is_server s = s.src == s.dst && s.src_port == 0

unfoldable pub is_stream : StreamId → Bool
unfolding is_server
is_stream s = not (is_server s)

pub record StreamParameters : Type 0 where
  pub redundancy : ℕ
  pub period : ℕ
  pub payload_size : ℕ
  pub direction : ℕ

-- `toInt` of a Period, a number of tiles; 0 where the number names no enumerator.
unfoldable pub period_tiles : ℕ → ℕ
period_tiles p =
    if p == 1
    then 1
    else if p == 2
    then 2
    else if p == 3
    then 5
    else if p == 4
    then 10
    else if p == 5
    then 20
    else if p == 6
    then 50
    else if p == 7
    then 100
    else if p == 8
    then 200
    else if p == 9
    then 500
    else if p == 10
    then 1000
    else if p == 11
    then 2000
    else if p == 12
    then 5000
    else if p == 13
    then 10000
    else 0

pub period_tiles-le : (p : ℕ) → period_tiles p ≤ 10000
unfolding period_tiles
period_tiles-le p = ground arith

pub data MasterStreamStatus : Type 0 where
  accepted established listen : MasterStreamStatus

pub record MasterStreamInfo : Type 0 where
  pub id : StreamId
  pub parameters : StreamParameters
  pub status : MasterStreamStatus

unfoldable pub set_status : MasterStreamStatus → MasterStreamInfo → MasterStreamInfo
set_status st s = record s { status = st }

unfoldable pub set_redundancy : ℕ → MasterStreamInfo → MasterStreamInfo
set_redundancy r s = record s {
  parameters = record {
    redundancy = r;
    period = s.parameters.period;
    payload_size = s.parameters.payload_size;
    direction = s.parameters.direction;
  };
}

-- The bit-fields hold no more than their widths.
pub record IsInFields (s : StreamId) : Type 0 where
  pub src_lt : s.src < 256
  pub dst_lt : s.dst < 256
  pub src_port_lt : s.src_port < 16
  pub dst_port_lt : s.dst_port < 16

-- Streams whose fields are within the widths of the bit-fields are equal if their keys are.
pub get_key-injective :
    (s t : StreamId) → IsInFields s → IsInFields t → get_key s ≡ get_key t → s ≡ t
unfolding get_key
get_key-injective s t hs ht e = ground arith
