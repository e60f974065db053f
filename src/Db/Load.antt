-- ===== src/Db/Load.antt =====
-- bitdb/db.cpp: opening a directory that holds data files. The directory is the list of its data
-- files with their ids, in rising order, as LoadDataFiles has them behind its sort.
pub mod Replay
pub mod Transactions
use bitdb.Base.{
  ℕ, zero, suc, ◌+◌, ◌%◌, ◌^◌, ◌≡◌, Bool, true, false, Option, none, some, List, [], ◌∷◌, length,
  ltb, ◌++◌, ◌==◌, if◌then◌else◌,
}
use bitdb.Status.{Outcome, ok, err, defined, check_error}
use bitdb.Bytes.{Bytes, empty}
use bitdb.Env.{Env}
use bitdb.Record.{
  LogRecord, LogRecordPst, LogRecordType, deleted_log_record, txn_finished_log_record,
  decode_log_record_position,
}
use bitdb.DataFile.{DataFile, read_log_record}
use bitdb.Txn.{TxnRecord, k_non_txn_id, decode_log_record_with_txn_id}
use bitdb.FileTable.{FileTable, set_entry, find_entry, joined}
use bitdb.Index.{Indexer}
use bitdb.Action.{Action, pure, undefined, lift, gets, modify, check, ◌>>=◌, ◌>>◌}
use bitdb.Db.{Db, index_put}

-- A database while its index is loaded, with the local variables of LoadIndexFromDataFiles. The map
-- `txn_records` is only used by `[]`, so a missing id is an empty list; its keys are `uint32_t`.
pub record Loading (Index : Type 0) : Type 0 where
  pub db : Db Index
  pub txn_records : ℕ → List TxnRecord
  pub current_txn_id : ℕ

-- A handle on a file that was there; `write_off` is 0 until the index is loaded.
abbrev pub opened : ℕ → Bytes → DataFile
opened fid contents = record { file_id = fid; write_off = 0; contents = contents }

abbrev next_id : Option DataFile → ℕ
next_id none = 0
next_id (some active) = (active.file_id + 1) % 2 ^ 32

-- What is known of the transaction `txn_id`.
unfoldable pub set_txn_records : ℕ → List TxnRecord → (ℕ → List TxnRecord) → ℕ → List TxnRecord
set_txn_records txn_id records table id = if txn_id % 2 ^ 32 == id then records else table id

abbrev pub pending_record : Bytes → LogRecord → LogRecordPst → TxnRecord
pending_record real_key log_record pst = record {
  log_record = record log_record { key = real_key };
  pst = pst;
}

abbrev pub file_ids : List (ℕ × Bytes) → List ℕ
file_ids [] = []
file_ids ((fid, contents) ∷ rest) = fid ∷ file_ids rest

module _ {Index : Type 0} where
  unfoldable pub open_files : List (ℕ × Bytes) → Db Index → Db Index
  open_files [] db = db
  open_files ((fid, contents) ∷ []) db = record db { active_file = some (opened fid contents) }
  open_files ((fid, contents) ∷ next ∷ rest) db =
      open_files (next ∷ rest)
        (record db { older_files = set_entry fid (some (opened fid contents)) db.older_files })

  -- DB::LoadDataFiles
  unfoldable pub load_data_files : List (ℕ × Bytes) → Db Index → Db Index
  unfolding open_files
  load_data_files files db =
      let found = open_files files db in record found { next_file_id = next_id found.active_file }

  unfoldable pub see_txn_id : ℕ → Loading Index → Loading Index
  see_txn_id txn_id s =
      if ltb s.current_txn_id txn_id then record s { current_txn_id = txn_id } else s

  unfoldable pub set_write_off : ℕ → Db Index → Option (Db Index)
  set_write_off offset db = elim db.active_file [
    | none ↦ none
    | some active ↦ some (record db { active_file = some (record active { write_off = offset }) })
  ]

  -- `txn_id_ = current_txn_id` behind the loops.
  abbrev pub finish_loading :
      Option (Outcome (Unit {0}) × Loading Index) → Option (Outcome (Unit {0}) × Db Index)
  finish_loading none = none
  finish_loading (some (ok done, s)) = some (ok tt, record s.db { txn_id = s.current_txn_id })
  finish_loading (some (err code, s)) = some (err code, s.db)

  module _ (env : Env) (ix : Indexer Index) where
    -- The lambda `update_index`
    unfoldable pub update_index :
        Bytes → LogRecordType → LogRecordPst → Action (Loading Index) (Unit {0})
    update_index key type pst s =
        let (deleted, was_there) = ix.delete s.db.index key in
        let (added, done) = ix.put s.db.index key pst in
        if type == deleted_log_record
        then check was_there check_error (record s { db = record s.db { index = deleted } })
        else check done check_error (record s { db = record s.db { index = added } })

    unfoldable pub update_all : List TxnRecord → Action (Loading Index) (Unit {0})
    update_all [] = pure tt
    update_all (t ∷ ts) = do update_index t.log_record.key t.log_record.type t.pst; update_all ts

    -- One record of the log: it counts at once if it belongs to no transaction, else with the
    -- record that finishes its transaction.
    unfoldable pub load_record :
        Bytes → ℕ → LogRecord → LogRecordPst → Action (Loading Index) (Unit {0})
    load_record real_key txn_id log_record pst =
        if txn_id == k_non_txn_id
        then update_index real_key log_record.type pst
        else if log_record.type == txn_finished_log_record
        then (do
          records ← gets (λ s. s.txn_records (txn_id % 2 ^ 32))
          update_all records
          modify (λ s. record s { txn_records = set_txn_records txn_id [] s.txn_records }))
        else (do
          records ← gets (λ s. s.txn_records (txn_id % 2 ^ 32))
          modify (λ s. record s {
            txn_records =
                set_txn_records txn_id (records ++ (pending_record real_key log_record pst ∷ []))
                  s.txn_records;
          }))

    -- The loop over one file from an offset on; it returns the offset where the file ends. Each round
    -- moves the offset forward, so the file's length bounds the rounds.
    unfoldable pub load_records : ℕ → ℕ → Bytes → ℕ → Action (Loading Index) ℕ
    load_records zero fid contents offset = undefined
    load_records (suc fuel) fid contents offset = do
      (log_record, sz) ← lift (read_log_record env contents offset)
      if sz == 0 then pure offset else (do
        (real_key, txn_id) ← lift (defined (decode_log_record_with_txn_id log_record.key))
        load_record real_key txn_id log_record (record { fid = fid; offset = offset })
        modify (see_txn_id txn_id)
        load_records fuel fid contents ((offset + sz) % 2 ^ 64))

    -- The handle of a file id; a null pointer is followed where there is none.
    unfoldable pub handle_of : ℕ → Db Index → Option DataFile
    handle_of fid db = elim db.active_file [
      | none ↦ none
      | some active ↦
          if fid == active.file_id then some active else joined (find_entry fid db.older_files)
    ]

    abbrev pub on_write_off : ℕ → Action (Loading Index) (Unit {0})
    on_write_off offset s = elim (set_write_off offset s.db) [
      | none ↦ none
      | some db ↦ some (ok tt, record s { db = db })
    ]

    unfoldable pub load_file : ℕ → Bool → Action (Loading Index) (Unit {0})
    load_file fid is_last = do
      handle ← gets (λ s. handle_of fid s.db)
      file ← lift (defined handle)
      offset ← load_records (suc (length file.contents)) fid file.contents 0
      if is_last then on_write_off offset else pure tt

    -- `has_merged && fid < non_merged_file_id`
    unfoldable pub is_merged : Option ℕ → ℕ → Bool
    is_merged none fid = false
    is_merged (some non_merged_file_id) fid = ltb fid non_merged_file_id

    abbrev pub no_more : List ℕ → Bool
    no_more [] = true
    no_more (fid ∷ rest) = false

    unfoldable pub load_files : Option ℕ → List ℕ → Action (Loading Index) (Unit {0})
    load_files merged [] = pure tt
    load_files merged (fid ∷ rest) = do
      if is_merged merged fid then pure tt else load_file fid (no_more rest)
      load_files merged rest

    -- DB::LoadIndexFromDataFiles; `merged` is the id in the file of a merge, if there is such a file.
    unfoldable pub load_index_from_data_files :
        Option ℕ → List ℕ → Db Index → Option (Outcome (Unit {0}) × Db Index)
    load_index_from_data_files merged [] db = some (ok tt, db)
    load_index_from_data_files merged (fid ∷ rest) db = finish_loading (
        load_files merged (fid ∷ rest)
          (record { db = db; txn_records = λ id. []; current_txn_id = k_non_txn_id }))

    -- The loop of DB::LoadIndexFromHintFile over the records of the hint file.
    unfoldable pub load_hints : ℕ → Bytes → ℕ → Action (Db Index) (Unit {0})
    load_hints zero contents offset = undefined
    load_hints (suc fuel) contents offset = do
      (log_record, sz) ← lift (read_log_record env contents offset)
      if sz == 0 then pure tt else (do
        pst ← lift (defined (decode_log_record_position log_record.value))
        index_put env ix log_record.key pst
        load_hints fuel contents ((offset + sz) % 2 ^ 64))

    -- DB::LoadIndexFromHintFile
    unfoldable pub load_index_from_hint_file : Option Bytes → Action (Db Index) (Unit {0})
    load_index_from_hint_file none = pure tt
    load_index_from_hint_file (some contents) = load_hints (suc (length contents)) contents 0
