-- ===== src/Record/Position.antt =====
-- bitdb/data/log_record.cpp: positions that are written and read back.
use mathlib.Core.List.{append_assoc}
use bitdb.Base.{
  ℕ, ◌^◌, ◌≤◌, ◌<◌, ◌≡◌, refl, arith, lt_wf, none, some, [], ◌∷◌, ◌++◌, length, length-append,
  drop-append, lt→not_leb, le→leb,
}
use bitdb.Coding.{encode_varint32, encode_varint64}
use bitdb.Coding.Length.{length-encode_loop-gt, encode_varint32_shape, encode_varint64_shape}
use bitdb.Coding.Varint.{decode_varint32-encode_varint32}
use bitdb.Coding.Varint64.{decode_varint64-encode_varint64}
use bitdb.Record.{LogRecordPst, encode_log_record_position, decode_log_record_position}

-- A position with an offset below 2 ^ 31 fits the buffer of EncodeLogRecordPosition, and
-- DecodeLogRecordPosition reads back what was written.
pub decode-encode_log_record_position :
    (pst : LogRecordPst)
    → pst.fid < 2 ^ 32
    → pst.offset < 2 ^ 31
    → (encode_log_record_position pst
        ≡ some (encode_varint32 pst.fid ++ encode_varint64 pst.offset))
      × (decode_log_record_position (encode_varint32 pst.fid ++ encode_varint64 pst.offset)
          ≡ some pst)
unfolding encode_log_record_position decode_log_record_position
decode-encode_log_record_position pst small near =
    let a = encode_varint32 pst.fid in
    let b = encode_varint64 pst.offset in
    (
      rw (
          le→leb (length (a ++ b)) 12 (
            omega (
              arith,
              length-append a b,
              (encode_varint32_shape pst.fid small).2,
              (encode_varint64_shape 4 pst.offset).2 (omega arith),
            ))),
      rw (
        append_assoc a b (0 ∷ []),
        decode_varint32-encode_varint32 pst.fid (b ++ (0 ∷ [])) small,
        drop-append a (b ++ (0 ∷ [])) (length a) refl,
        decode_varint64-encode_varint64 pst.offset (0 ∷ []) near,
      ),
    )

encode_varint32_long : (v : ℕ) → 2 ^ 28 ≤ v → 4 < length (encode_varint32 v)
unfolding encode_varint32
encode_varint32_long v h = length-encode_loop-gt 4 v (lt_wf.apply v) (omega arith)

-- A position of a file id of more than 28 bits and an offset of more than 49 bits overruns it.
pub encode_log_record_position_overruns :
    (pst : LogRecordPst)
    → 2 ^ 28 ≤ pst.fid
    → 2 ^ 49 ≤ pst.offset
    → encode_log_record_position pst ≡ none
unfolding encode_log_record_position
encode_log_record_position_overruns pst many far =
    let a = encode_varint32 pst.fid in
    let b = encode_varint64 pst.offset in
    rw (
      lt→not_leb (length (a ++ b)) 12 (
        omega (
          arith,
          length-append a b,
          encode_varint32_long pst.fid many,
          (encode_varint64_shape 6 pst.offset).3 (omega arith),
        )))
