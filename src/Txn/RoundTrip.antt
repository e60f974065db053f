-- ===== src/Txn/RoundTrip.antt =====
-- bitdb/data/transaction_record.cpp: which keys and ids survive the encoding.
use mathlib.Core.List.{append_assoc}
use bitdb.Base.{
  ℕ, ◌^◌, ◌≤◌, ◌<◌, ◌≡◌, refl, arith, none, some, [], ◌∷◌, ◌++◌, length, length-append, drop-append,
  lt→not_leb, le→leb,
}
use bitdb.Bytes.{Bytes, c_str, remove_prefix}
use bitdb.Coding.{encode_varint64}
use bitdb.Coding.Length.{encode_varint64_shape}
use bitdb.Coding.Varint64.{decode_varint64-encode_varint64}
use bitdb.Txn.{encode_log_record_with_txn_id, decode_log_record_with_txn_id}

-- The id fits the buffer up to 28 bits.
pub encode_log_record_with_txn_id_fits :
    (key : Bytes) (txn_id : ℕ)
    → txn_id < 2 ^ 28
    → encode_log_record_with_txn_id key txn_id ≡ some (encode_varint64 txn_id ++ c_str key)
unfolding encode_log_record_with_txn_id
encode_log_record_with_txn_id_fits key txn_id h =
    rw (le→leb _ _ ((encode_varint64_shape 3 txn_id).2 (omega arith)))

-- A transaction id of more than 28 bits overruns the buffer on the stack.
pub encode_log_record_with_txn_id_overruns :
    (key : Bytes) (txn_id : ℕ) → 2 ^ 28 ≤ txn_id → encode_log_record_with_txn_id key txn_id ≡ none
unfolding encode_log_record_with_txn_id
encode_log_record_with_txn_id_overruns key txn_id h =
    rw (lt→not_leb _ _ ((encode_varint64_shape 3 txn_id).3 (omega arith)))

pub decode_log_record_with_txn_id-append :
    (txn_id : ℕ) (key : Bytes)
    → txn_id < 2 ^ 31
    → decode_log_record_with_txn_id (encode_varint64 txn_id ++ key) ≡ some (key, txn_id)
unfolding decode_log_record_with_txn_id remove_prefix
decode_log_record_with_txn_id-append txn_id key h =
    let code = encode_varint64 txn_id in
    rw (
      append_assoc code key (0 ∷ []),
      decode_varint64-encode_varint64 txn_id (key ++ (0 ∷ [])) h,
      le→leb (length code) (length (code ++ key)) (omega (arith, length-append code key)),
      drop-append code key (length code) refl,
    )

-- What EncodeLogRecordWithTxnID makes of a key and an id below 2 ^ 28 is taken apart again into that
-- id and the key up to its first null byte.
pub decode-encode_log_record_with_txn_id :
    (key : Bytes) (txn_id : ℕ) (encoded : Bytes)
    → txn_id < 2 ^ 28
    → encode_log_record_with_txn_id key txn_id ≡ some encoded
    → decode_log_record_with_txn_id encoded ≡ some (c_str key, txn_id)
decode-encode_log_record_with_txn_id key txn_id encoded h e = ground (
  arith,
  encode_log_record_with_txn_id_fits key txn_id h,
  decode_log_record_with_txn_id-append txn_id (c_str key),
)
