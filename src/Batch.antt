-- ===== src/Batch.antt =====
-- bitdb/batch.h and batch.cpp: writes that are collected and committed as one transaction.
-- A method sees the batch and the database that the batch points to.
pub mod Pending
pub mod Writing
pub mod Commit
use bitdb.Base.{
  ℕ, suc, ◌+◌, ◌%◌, ◌^◌, ◌≡◌, Bool, true, false, Option, none, some, List, [], ◌∷◌, length, ltb,
  ◌==◌, if◌then◌else◌,
}
use bitdb.Status.{
  StatusCode, Outcome, ok, err, defined, invalid_argument, not_found, not_supported, check_error,
}
use bitdb.Bytes.{Bytes, empty, c_str}
use bitdb.Env.{Env}
use bitdb.Record.{
  LogRecord, LogRecordPst, normal_log_record, deleted_log_record, txn_finished_log_record,
}
use bitdb.Txn.{k_txn_finished_key, encode_log_record_with_txn_id}
use bitdb.TreeMap.{TreeMap, is_some, find, insert, emplace, erase}
use bitdb.Index.{Indexer}
use bitdb.Action.{Action, pure, raise, lift, gets, modify, ◌>>=◌, ◌>>◌}
use bitdb.Db
use bitdb.Db.{Db}

pub record WriteBatch : Type 0 where
  pub max_batch_num : ℕ
  pub pending_writes : TreeMap LogRecord
  pub committed : Bool
  pub rollbacked : Bool

-- A batch and its `db_`.
pub record Session (Index : Type 0) : Type 0 where
  pub batch : WriteBatch
  pub db : Db Index

module _ {Index : Type 0} where
  abbrev with_db {ℓ} :
      {A : Type ℓ}
      → Session Index
      → Option (Outcome A × Db Index)
      → Option (Outcome A × Session Index)
  with_db s none = none
  with_db s (some (r, db)) = some (r, record s { db = db })

  -- A call of a method of the database.
  abbrev pub on_db : {A : Type 0} → Action (Db Index) A → Action (Session Index) A
  on_db m s = with_db s (m s.db)

  abbrev pub modify_pending :
      (TreeMap LogRecord → TreeMap LogRecord) → Session Index → Session Index
  modify_pending f s = record s {
    batch = record s.batch { pending_writes = f s.batch.pending_writes };
  }

  -- WriteBatch::Put
  unfoldable pub put : Bytes → Bytes → Action (Session Index) (Unit {0})
  put key value =
      if empty key
      then raise invalid_argument
      else modify (
          modify_pending (
            emplace (c_str key)
              (record { key = c_str key; value = c_str value; type = normal_log_record })))

  -- WriteBatch::Rollback
  unfoldable pub rollback : Action (Session Index) (Unit {0})
  rollback s =
      if s.batch.committed
      then raise check_error s
      else if s.batch.rollbacked
      then raise check_error s
      else some
          (ok tt, record s { batch = record s.batch { pending_writes = []; rollbacked = true } })

  module _ (env : Env) (ix : Indexer Index) where
    -- The two ways on behind `db_->Get(key, nullptr).IsNotFound()`.
    unfoldable pub delete_after_get :
        Bytes → Option (Outcome Bytes × Db Index) → Action (Session Index) (Unit {0})
    delete_after_get key none s = none
    delete_after_get key (some (err not_found, db)) s =
        some (ok tt, modify_pending (erase (c_str key)) (record s { db = db }))
    delete_after_get key (some (_, db)) s = some (
      ok tt,
      modify_pending
          (emplace (c_str key) (record { key = c_str key; value = []; type = deleted_log_record }))
          (record s { db = db }),
    )

    -- WriteBatch::Delete asks the database with a null pointer for the value.
    unfoldable pub delete : Bytes → Action (Session Index) (Unit {0})
    delete key s =
        if empty key
        then raise invalid_argument s
        else delete_after_get key (Db.get env ix key true s.db) s

    -- The first loop of WriteBatch::Commit: each pending record gets its key with the id, in place,
    -- and is appended. The positions come in the order of the map.
    unfoldable pub write_pending :
        ℕ
        → List (Bytes × LogRecord)
        → Action (Session Index) (List (Bytes × LogRecord × LogRecordPst))
    write_pending txn_id [] = pure []
    write_pending txn_id ((key, log_record) ∷ rest) = do
      encoded ← lift (defined (encode_log_record_with_txn_id log_record.key txn_id))
      modify (modify_pending (insert key (record log_record { key = encoded })))
      pst ← on_db (Db.append_log_record env (record log_record { key = encoded }))
      positions ← write_pending txn_id rest
      pure ((key, log_record, pst) ∷ positions)

    -- The second loop: the index learns the positions.
    unfoldable pub index_pending :
        List (Bytes × LogRecord × LogRecordPst) → Action (Session Index) (Unit {0})
    index_pending [] = pure tt
    index_pending ((key, log_record, pst) ∷ rest) = do
      if log_record.type == normal_log_record
          then on_db (Db.index_put env ix key pst)
          else if log_record.type == deleted_log_record
          then on_db (Db.index_delete env ix key)
          else pure tt
      index_pending rest

    unfoldable pub commit_pending : Action (Session Index) (Unit {0})
    commit_pending = do
      modify (λ s. record s { db = record s.db { txn_id = (s.db.txn_id + 1) % 2 ^ 64 } })
      txn_id ← gets (λ s. s.db.txn_id)
      pending ← gets (λ s. s.batch.pending_writes)
      positions ← write_pending txn_id pending
      finished ← lift (defined (encode_log_record_with_txn_id k_txn_finished_key txn_id))
      on_db (
          Db.append_log_record env
            (record { key = finished; value = []; type = txn_finished_log_record }))
      index_pending positions
      modify (λ s. record s { batch = record s.batch { committed = true } })

    -- WriteBatch::Commit
    unfoldable pub commit : Action (Session Index) (Unit {0})
    commit s =
        if length s.batch.pending_writes == 0
        then pure tt s
        else if ltb s.batch.max_batch_num (length s.batch.pending_writes)
        then raise not_supported s
        else commit_pending s
