-- ===== src/Record.antt =====
-- bitdb/data/log_record.h and log_record.cpp: the record layout on disk.
--   crc (4) type (1) key size (varint) value size (varint) key value
pub mod Layout
pub mod Position
use bitdb.Base.{
  Bool, true, false, ℕ, ◌+◌, ◌%◌, ◌^◌, ◌≡◌, Option, none, some, List, [], ◌∷◌, ◌++◌, length, drop,
  ltb, leb, if◌then◌else◌, ◌>>=◌, get_elem?,
}
pub use bitdb.Bytes.{empty, c_memory}
use bitdb.Coding.{Bytes}
use bitdb.Coding.{encode_varint32, decode_varint32, encode_varint64, decode_varint64}
use bitdb.Coding.{encode_fixed32, decode_fixed32}
use bitdb.Env.{Env}

-- LogRecordType is an int8_t that is cast from any byte of a file; these are its three names.
abbrev pub LogRecordType : Type 0
LogRecordType = ℕ

abbrev pub normal_log_record : LogRecordType
normal_log_record = 1

abbrev pub deleted_log_record : LogRecordType
deleted_log_record = 2

abbrev pub txn_finished_log_record : LogRecordType
txn_finished_log_record = 3

pub record LogRecord : Type 0 where
  pub key : Bytes
  pub value : Bytes
  pub type : LogRecordType

pub record LogRecordPst : Type 0 where
  pub fid : ℕ
  pub offset : ℕ

pub record LogRecordHeader : Type 0 where
  pub crc : ℕ
  pub record_type : LogRecordType
  pub key_size : ℕ
  pub value_size : ℕ

abbrev pub k_crc_size : ℕ
k_crc_size = 4

abbrev pub k_max_log_record_header_size : ℕ
k_max_log_record_header_size = 15

-- What the header holds behind the crc.
unfoldable pub header_tail : LogRecord → Bytes
header_tail r =
    (r.type % 256)
    ∷ (encode_varint32 (length r.key % 2 ^ 32) ++ encode_varint32 (length r.value % 2 ^ 32))

unfoldable pub checked_part : LogRecord → Bytes
unfolding header_tail
checked_part r = header_tail r ++ (r.key ++ r.value)

-- An empty key is logged as an error, and nothing is encoded.
unfoldable pub encode_log_record : Env → LogRecord → Bytes
unfolding checked_part
encode_log_record env r =
    if empty r.key then [] else encode_fixed32 (env.crc32c (checked_part r)) ++ checked_part r

unfoldable pub decode_log_record_header : Bytes → Option (LogRecordHeader × ℕ)
decode_log_record_header bytes =
    if ltb (length bytes) k_crc_size
    then some (record { crc = 0; record_type = 0; key_size = 0; value_size = 0 }, 0)
    else (do
      crc ← decode_fixed32 bytes
      type ← get_elem? bytes k_crc_size
      let sizes = drop 5 (c_memory bytes)
      (key_size, n) ← decode_varint32 sizes
      (value_size, m) ← decode_varint32 (drop n sizes)
      some (
        record { crc = crc; record_type = type; key_size = key_size; value_size = value_size },
        5 + n + m,
      ))

unfoldable pub get_log_record_crc : Env → LogRecord → Bytes → ℕ
get_log_record_crc env r [] = 0
get_log_record_crc env r (b ∷ bs) =
    env.extend (env.extend (env.crc32c (drop k_crc_size (b ∷ bs))) r.key) r.value

-- `char buffer[K_MAX_VARINT32_LEN + K_MAX_VARINT64_LEN]`: writing past it is undefined.
abbrev pub into_buffer : ℕ → Bytes → Option Bytes
into_buffer cap bytes = if leb (length bytes) cap then some bytes else none

abbrev pub k_max_varint32_len : ℕ
k_max_varint32_len = 4

abbrev pub k_max_varint64_len : ℕ
k_max_varint64_len = 8

unfoldable pub encode_log_record_position : LogRecordPst → Option Bytes
encode_log_record_position pst =
    into_buffer (k_max_varint32_len + k_max_varint64_len)
      (encode_varint32 pst.fid ++ encode_varint64 pst.offset)

unfoldable pub decode_log_record_position : Bytes → Option LogRecordPst
decode_log_record_position bytes = do
  (fid, n) ← decode_varint32 (c_memory bytes)
  (offset, m) ← decode_varint64 (drop n (c_memory bytes))
  some (record { fid = fid; offset = offset })
