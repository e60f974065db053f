-- ===== src/Txn.antt =====
-- bitdb/data/transaction_record.h and transaction_record.cpp: keys that carry a transaction id.
pub mod RoundTrip
use bitdb.Base.{ℕ, Option, none, some, ◌++◌, ◌>>=◌, [], ◌∷◌}
use bitdb.Bytes.{Bytes, c_str, c_memory, remove_prefix}
use bitdb.Coding.{encode_varint64, decode_varint64}
use bitdb.Record.{LogRecord, LogRecordPst, into_buffer, k_max_varint32_len}

pub record TxnRecord : Type 0 where
  pub log_record : LogRecord
  pub pst : LogRecordPst

abbrev pub k_non_txn_id : ℕ
k_non_txn_id = 0

-- "Txn-finished"
abbrev pub k_txn_finished_key : Bytes
k_txn_finished_key =
    b'T' ∷ b'x' ∷ b'n' ∷ b'-' ∷ b'f' ∷ b'i' ∷ b'n' ∷ b'i' ∷ b's' ∷ b'h' ∷ b'e' ∷ b'd' ∷ []

-- The id is written into `char buf[K_MAX_VARINT32_LEN]`; the key is appended as a C string.
unfoldable pub encode_log_record_with_txn_id : Bytes → ℕ → Option Bytes
encode_log_record_with_txn_id key txn_id = do
  buf ← into_buffer k_max_varint32_len (encode_varint64 txn_id)
  some (buf ++ c_str key)

unfoldable pub decode_log_record_with_txn_id : Bytes → Option (Bytes × ℕ)
decode_log_record_with_txn_id key = do
  (txn_id, len) ← decode_varint64 (c_memory key)
  real_key ← remove_prefix len key
  some (real_key, txn_id)
