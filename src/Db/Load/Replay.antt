-- ===== src/Db/Load/Replay.antt =====
-- DB::LoadIndexFromDataFiles in bitdb/db.cpp against the records that were appended: the loop over
-- the bytes of a file takes them in order, and a transaction counts when it is finished.
use mathlib.Core.List.{append-nil, append_assoc}
use bitdb.Base.{
  ℕ, zero, suc, ◌+◌, ◌%◌, ◌^◌, ◌≤◌, ◌<◌, ◌≡◌, refl, ◌∙◌, sym, some, List, [], ◌∷◌, ◌++◌, length,
  arith, All, length-append,
}
use bitdb.Status.{ok}
use bitdb.Bytes.{Bytes}
use bitdb.Coding.{encode_varint64}
use bitdb.Env.{Env, IsReliable}
use bitdb.Record.{LogRecord, LogRecordType, encode_log_record}
use bitdb.Record.Layout.{IsEncodable, header_of, encode_log_record-header_of, length-header_of}
use bitdb.DataFile.{read_log_record}
use bitdb.DataFile.Read.{read_log_record-encode_log_record, read_log_record_at_end}
use bitdb.Txn.RoundTrip.{decode_log_record_with_txn_id-append}
use bitdb.Index.{Indexer}
use bitdb.Action.{Action, pure, modify, bind_congr, bind_assoc, ◌>>=◌, ◌>>◌}
use bitdb.Db.Load.{Loading, load_record, load_records, see_txn_id}

-- A record of the log: its key without the id, and the transaction it belongs to.
pub record Entry : Type 0 where
  pub key : Bytes
  pub txn_id : ℕ
  pub value : Bytes
  pub type : LogRecordType

abbrev pub record_of : Entry → LogRecord
record_of e = record { key = encode_varint64 e.txn_id ++ e.key; value = e.value; type = e.type }

-- The entries that the database can write and read back.
pub record IsLoggable (e : Entry) : Type 0 where
  pub encodable : IsEncodable (record_of e)
  pub small_id : e.txn_id < 2 ^ 31

module _ (env : Env) where
  abbrev pub bytes_of : Entry → Bytes
  bytes_of e = encode_log_record env (record_of e)

  -- The bytes of a file with these entries.
  unfoldable pub log_bytes : List Entry → Bytes
  log_bytes [] = []
  log_bytes (e ∷ es) = bytes_of e ++ log_bytes es

  module _ {Index : Type 0} (ix : Indexer Index) where
    -- The entries in order, each with the offset of its record.
    unfoldable pub replay : ℕ → ℕ → List Entry → Action (Loading Index) (Unit {0})
    replay fid offset [] = pure tt
    replay fid offset (e ∷ es) = do
      load_record env ix e.key e.txn_id (record_of e) (record { fid = fid; offset = offset })
      modify (see_txn_id e.txn_id)
      replay fid (offset + length (bytes_of e)) es

    -- The entries of two logs, one behind the other.
    pub replay_append :
        (es fs : List Entry) (fid offset : ℕ) (s : Loading Index)
        → replay fid offset (es ++ fs) s
          ≡ (replay fid offset es >>= λ done. replay fid (offset + length (log_bytes es)) fs) s
    unfolding replay log_bytes
    replay_append [] fs fid offset s = let here : offset + 0 ≡ offset = omega arith in rw here refl
    replay_append (e ∷ es) fs fid offset s =
        let first =
          load_record env ix e.key e.txn_id (record_of e) (record { fid = fid; offset = offset }) in
        let behind : offset + length (bytes_of e ++ log_bytes es)
            ≡ offset + length (bytes_of e) + length (log_bytes es) =
          omega (arith, length-append (bytes_of e) (log_bytes es)) in
        bind_congr first _ _ s (λ done s1.
          rw behind
            (replay_append es fs fid (offset + length (bytes_of e)) (see_txn_id e.txn_id s1)))
        ∙ sym (bind_assoc first _ _ s)

    module _ (reliable : IsReliable env) where
      pub load_step :
          (e : Entry) (pre post : Bytes)
          → IsLoggable e
          → read_log_record env (pre ++ (bytes_of e ++ post)) (length pre)
            ≡ some (ok (record_of e, length (bytes_of e)))
      load_step e pre post h =
          read_log_record-encode_log_record env reliable (record_of e) pre post h.encodable

      pub bytes_of_nonempty : (e : Entry) → IsLoggable e → 0 < length (bytes_of e)
      bytes_of_nonempty e h = rw (encode_log_record-header_of env (record_of e) h.encodable) (
          omega (
            arith,
            length-append (header_of env (record_of e)) ((record_of e).key ++ e.value),
            length-header_of env (record_of e) h.encodable,
          ))

      -- Each entry takes a byte at least.
      pub length-log_bytes :
          (es : List Entry) → All IsLoggable es → length es ≤ length (log_bytes es)
      unfolding log_bytes
      length-log_bytes [] loggable = omega arith
      length-log_bytes (e ∷ es) (h, rest) = omega (
        arith,
        length-append (bytes_of e) (log_bytes es),
        bytes_of_nonempty e h,
        length-log_bytes es rest,
      )

      load_records_step :
          (fuel fid offset : ℕ) (file : Bytes) (e : Entry) (s : Loading Index)
          → IsLoggable e
          → read_log_record env file offset ≡ some (ok (record_of e, length (bytes_of e)))
          → load_records env ix (suc fuel) fid file offset s
            ≡ (load_record env ix e.key e.txn_id
                    (record_of e)
                    (record { fid = fid; offset = offset })
                  >> (modify (see_txn_id e.txn_id)
                      >> load_records env ix fuel fid file
                          ((offset + length (bytes_of e)) % 2 ^ 64)))
                s
      unfolding load_records
      load_records_step fuel fid offset file e s h read =
          rw (read, decode_log_record_with_txn_id-append e.txn_id e.key h.small_id)
            (ground (arith, bytes_of_nonempty e h))

      -- The loop over a file from an offset on takes the entries that follow it in their order, and
      -- ends at the end of the file.
      load_records-replay :
          (es : List Entry) (pre : Bytes) (fid fuel : ℕ) (s : Loading Index)
          → All IsLoggable es
          → 0 < length (pre ++ log_bytes es)
          → length (pre ++ log_bytes es) < 2 ^ 64
          → length es < fuel
          → load_records env ix fuel fid (pre ++ log_bytes es) (length pre) s
            ≡ (replay fid (length pre) es >>= λ done. pure (length (pre ++ log_bytes es))) s
      unfolding replay
      load_records-replay es pre fid zero s loggable some_bytes short fueled = absurd (omega arith)
      load_records-replay [] pre fid (suc fuel) s loggable some_bytes short fueled =
          unfold log_bytes load_records in
          rw
            (
              append-nil pre,
              read_log_record_at_end env reliable pre (rw (append-nil pre) at some_bytes),
            )
            refl
      load_records-replay (e ∷ es) pre fid (suc fuel) s (h, rest) some_bytes short fueled =
          let b = bytes_of e in
          let file = (pre ++ b) ++ log_bytes es in
          let same : pre ++ log_bytes (e ∷ es) ≡ file =
            unfold log_bytes in sym (append_assoc pre b (log_bytes es)) in
          let long : 0 < length file = rw same at some_bytes in
          let fits : length file < 2 ^ 64 = rw same at short in
          let next : (length pre + length b) % 2 ^ 64 ≡ length (pre ++ b) =
            omega (arith, length-append pre b, length-append (pre ++ b) (log_bytes es)) in
          let read : read_log_record env file (length pre) ≡ some (ok (record_of e, length b)) =
            rw (append_assoc pre b (log_bytes es)) (load_step e pre (log_bytes es) h) in
          rw (same, load_records_step fuel fid (length pre) file e s h read, next)
            (bind_congr
                (load_record env ix e.key e.txn_id (record_of e)
                  (record { fid = fid; offset = length pre }))
                _ _ s
                (λ done s1. rw (sym (length-append pre b)) (
                  load_records-replay es (pre ++ b) fid fuel (see_txn_id e.txn_id s1) rest long fits
                    (omega arith)))
              ∙ sym (
                  bind_assoc
                    (load_record env ix e.key e.txn_id (record_of e)
                      (record { fid = fid; offset = length pre }))
                    _ _ s))

      -- In a reliable environment, LoadIndexFromDataFiles takes the entries of a file that is not
      -- empty, has fewer than 2 ^ 64 bytes and holds records of at most 2 ^ 31 - 4096 bytes with 15
      -- for the header, with types of one byte and ids below 2 ^ 31: in their order, each with the
      -- offset of its record, within as many rounds as the file has bytes, and it ends at its end.
      pub load_file-replay :
          (es : List Entry) (fid : ℕ) (s : Loading Index)
          → All IsLoggable es
          → 0 < length (log_bytes es)
          → length (log_bytes es) < 2 ^ 64
          → load_records env ix (suc (length (log_bytes es))) fid (log_bytes es) 0 s
            ≡ (replay fid 0 es >>= λ done. pure (length (log_bytes es))) s
      load_file-replay es fid s loggable some_bytes short =
          load_records-replay es [] fid (suc (length (log_bytes es))) s loggable some_bytes short
            (omega (arith, length-log_bytes es loggable))
