-- ===== src/Record/Layout.antt =====
-- bitdb/data/log_record.cpp: the header that EncodeLogRecord writes is the one that
-- DecodeLogRecordHeader reads back, whatever bytes follow it.
use mathlib.Core.List.{append_assoc}
use bitdb.Base.{
  ◌+◌, ◌%◌, ◌^◌, ◌≤◌, ◌<◌, ◌≡◌, refl, sym, arith, some, [], ◌∷◌, ◌++◌, length, length-append,
  drop-append, false,
}
use bitdb.Coding.{Bytes, encode_varint32, encode_fixed32}
use bitdb.Coding.Varint.{decode_varint32-encode_varint32}
use bitdb.Coding.Length.{encode_varint32_shape}
use bitdb.Coding.Fixed.{decode_fixed32-encode_fixed32, encode_fixed32_shape}
use bitdb.Env.{Env, IsReliable}
use bitdb.Record.{
  LogRecord, LogRecordHeader, empty, header_tail, checked_part, encode_log_record,
  decode_log_record_header,
}

-- A record that is written and read whole: a key, a size that one call transfers, a type of one byte.
pub record IsEncodable (r : LogRecord) : Type 0 where
  pub keyed : empty r.key ≡ false
  pub fits : length r.key + length r.value + 15 + 4096 ≤ 2 ^ 31
  pub byte_type : r.type < 256

-- The whole header of a record.
unfoldable pub header_of : Env → LogRecord → Bytes
unfolding checked_part
header_of env r = encode_fixed32 (env.crc32c (checked_part r)) ++ header_tail r

unfoldable pub parsed_header : Env → LogRecord → LogRecordHeader
parsed_header env r = record {
  crc = env.crc32c (checked_part r);
  record_type = r.type;
  key_size = length r.key;
  value_size = length r.value;
}

pub encode_log_record-header_of :
    (env : Env) (r : LogRecord)
    → IsEncodable r
    → encode_log_record env r ≡ header_of env r ++ (r.key ++ r.value)
unfolding encode_log_record header_of
encode_log_record-header_of env r ok = rw ok.keyed (
    sym (
      append_assoc (encode_fixed32 (env.crc32c (checked_part r))) (header_tail r)
        (r.key ++ r.value)))

pub length-header_tail :
    (r : LogRecord) → IsEncodable r → (3 ≤ length (header_tail r)) × (length (header_tail r) ≤ 11)
unfolding header_tail
length-header_tail r ok =
    let k = encode_varint32_shape (length r.key % 2 ^ 32) (omega arith) in
    let v = encode_varint32_shape (length r.value % 2 ^ 32) (omega arith) in
    rw length-append (omega (arith, k.1, k.2, v.1, v.2), omega (arith, k.1, k.2, v.1, v.2))

pub length-header_of :
    (env : Env) (r : LogRecord)
    → IsEncodable r
    → (7 ≤ length (header_of env r)) × (length (header_of env r) ≤ 15)
unfolding header_of
length-header_of env r ok =
    let t = length-header_tail r ok in
    let c = (encode_fixed32_shape (env.crc32c (checked_part r))).1 in
    rw length-append (omega arith, omega arith)

-- What follows the header, behind the sizes.
sizes-append :
    (v1 v2 more : Bytes) → ((v1 ++ v2) ++ more) ++ (0 ∷ []) ≡ v1 ++ (v2 ++ (more ++ (0 ∷ [])))
sizes-append v1 v2 more = simp append_assoc

-- In a reliable environment, DecodeLogRecordHeader reads back the header of a record that can be
-- encoded, whatever bytes follow it.
pub decode_log_record_header-header_of :
    (env : Env) (r : LogRecord) (more : Bytes)
    → IsReliable env
    → IsEncodable r
    → decode_log_record_header (header_of env r ++ more)
      ≡ some (parsed_header env r, length (header_of env r))
unfolding decode_log_record_header header_of header_tail parsed_header encode_fixed32
decode_log_record_header-header_of env r more reliable ok =
    let k = length r.key % 2 ^ 32 in
    let v = length r.value % 2 ^ 32 in
    let v1 = encode_varint32 k in
    let v2 = encode_varint32 v in
    rw
      (
        decode_fixed32-encode_fixed32 (env.crc32c (checked_part r)) _ (reliable.crc32c_fits _),
        sizes-append v1 v2 more,
        decode_varint32-encode_varint32 k (v2 ++ (more ++ (0 ∷ []))) (omega arith),
        drop-append v1 (v2 ++ (more ++ (0 ∷ []))) (length v1) refl,
        decode_varint32-encode_varint32 v (more ++ (0 ∷ [])) (omega arith),
      )
      (ground (arith, length-append v1 v2))
