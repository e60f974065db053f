-- ===== src/Examples/Codes.antt =====
-- The coders, the record layout and the transaction keys at concrete inputs.
use bitdb.Base.{◌^◌, ◌<◌, ◌≤◌, ◌≡◌, arith, some, [], ◌∷◌, ◌++◌, length, All}
use bitdb.Bytes.{c_str}
use bitdb.Coding.{IsByte, encode_varint32, decode_varint32, encode_varint64, decode_varint64}
use bitdb.Coding.Length.{encode_varint64_shape}
use bitdb.Coding.Varint.{decode_varint32-encode_varint32}
use bitdb.Coding.Varint64.{decode_varint64-encode_varint64}
use bitdb.Record.{encode_log_record, encode_log_record_position, decode_log_record_position}
use bitdb.Record.Position.{decode-encode_log_record_position}
use bitdb.DataFile.{read_log_record}
use bitdb.DataFile.Read.{read_log_record-encode_log_record}
use bitdb.Status.{ok}
use bitdb.Txn.{decode_log_record_with_txn_id}
use bitdb.Txn.RoundTrip.{encode_log_record_with_txn_id_fits, decode-encode_log_record_with_txn_id}
use bitdb.Examples.World.{disk, disk-IsReliable, sample, sample-IsEncodable}

decode_varint32_example :
    decode_varint32 (encode_varint32 300 ++ (7 ∷ [])) ≡ some (300, length (encode_varint32 300))
decode_varint32_example = decode_varint32-encode_varint32 300 (7 ∷ []) (omega arith)

decode_varint64_example :
    decode_varint64 (encode_varint64 70000 ++ (7 ∷ []))
    ≡ some (70000, length (encode_varint64 70000))
decode_varint64_example = decode_varint64-encode_varint64 70000 (7 ∷ []) (omega arith)

encode_varint64_shape_example :
    All IsByte (encode_varint64 300)
    × (1 ≤ length (encode_varint64 300))
    × (300 < 128 ^ 2 → length (encode_varint64 300) ≤ 2)
    × (128 ^ 2 ≤ 300 → 2 < length (encode_varint64 300))
encode_varint64_shape_example = encode_varint64_shape 1 300

decode_log_record_position_example :
    (encode_log_record_position (record { fid = 3; offset = 4096 })
      ≡ some (encode_varint32 3 ++ encode_varint64 4096))
    × (decode_log_record_position (encode_varint32 3 ++ encode_varint64 4096)
        ≡ some (record { fid = 3; offset = 4096 }))
decode_log_record_position_example =
    decode-encode_log_record_position (record { fid = 3; offset = 4096 }) (omega arith)
      (omega arith)

read_log_record_example :
    read_log_record disk ((1 ∷ 2 ∷ []) ++ (encode_log_record disk sample ++ (3 ∷ []))) 2
    ≡ some (ok (sample, length (encode_log_record disk sample)))
read_log_record_example =
    read_log_record-encode_log_record disk disk-IsReliable sample (1 ∷ 2 ∷ []) (3 ∷ [])
      sample-IsEncodable

decode_log_record_with_txn_id_example :
    decode_log_record_with_txn_id (encode_varint64 300 ++ (b'k' ∷ [])) ≡ some (b'k' ∷ [], 300)
unfolding c_str
decode_log_record_with_txn_id_example =
    decode-encode_log_record_with_txn_id (b'k' ∷ []) 300 (encode_varint64 300 ++ (b'k' ∷ []))
      (omega arith) (encode_log_record_with_txn_id_fits (b'k' ∷ []) 300 (omega arith))
