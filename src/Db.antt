-- ===== src/Db.antt =====
-- bitdb/db.h and db.cpp: the storage engine. Each method is an action on `Db`; the locks are left
-- out, since each method holds `rwlock_` from its first access to its last. The proofs are below.
pub mod Invariant
pub mod Ready
pub mod Append
pub mod Lookup
pub mod Refine
pub mod History
pub mod Load
pub mod Journal
pub mod Durability
pub mod Merge
pub mod Open
pub mod Scan
use bitdb.Base.{
  ℕ, suc, ◌+◌, ◌%◌, ◌^◌, ◌≡◌, Bool, true, false, Option, none, some, [], ◌∷◌, length, ltb, ◌==◌,
  if◌then◌else◌,
}
use bitdb.Status.{Outcome, ok, err, defined, invalid_argument, not_found, check_error}
use bitdb.Bytes.{Bytes, empty, c_str}
use bitdb.Env.{Env}
use bitdb.Record.{LogRecord, LogRecordPst, encode_log_record, normal_log_record, deleted_log_record}
use bitdb.DataFile
use bitdb.DataFile.{DataFile, read_log_record}
use bitdb.Txn.{k_non_txn_id, encode_log_record_with_txn_id}
use bitdb.FileTable.{FileTable, set_entry, find_entry, joined}
use bitdb.Index.{Indexer}
use bitdb.Action.{Action, pure, raise, undefined, lift, gets, modify, check, ◌>>=◌, ◌>>◌}

-- Options, without the directory and the kind of index.
pub record Options : Type 0 where
  pub data_file_size : ℕ
  pub is_sync_write : Bool

pub record Db (Index : Type 0) : Type 0 where
  pub options : Options
  pub active_file : Option DataFile
  pub older_files : FileTable
  pub index : Index
  pub next_file_id : ℕ
  pub txn_id : ℕ
  pub is_merging : Bool

-- CheckOptions, with the directory's path
unfoldable pub check_options : Bytes → Options → Outcome (Unit {0})
check_options dir_path options =
    if empty dir_path
    then err invalid_argument
    else if options.data_file_size == 0
    then err invalid_argument
    else ok tt

-- A handle on the file of a new id. Ids only grow, and loading a directory sets `next_file_id_`
-- above all ids in it, so the path is new and O_CREAT makes an empty file.
unfoldable pub new_data_file : ℕ → DataFile
new_data_file id = record { file_id = id; write_off = 0; contents = [] }

-- DB::DB, and DB::Open on an empty directory, where no file is found and no index entry is loaded.
unfoldable pub new_db : {Index : Type 0} → Indexer Index → Options → Db Index
new_db ix options = record {
  options = options;
  active_file = none;
  older_files = [];
  index = ix.new;
  next_file_id = 0;
  txn_id = 0;
  is_merging = false;
}

module _ {Index : Type 0} where
  -- DB::NewActiveDataFile
  unfoldable pub new_active_data_file : Db Index → Db Index
  unfolding new_data_file
  new_active_data_file db = record db {
    active_file = some (new_data_file db.next_file_id);
    next_file_id = (db.next_file_id + 1) % 2 ^ 32;
  }

  -- `if (active_file_ == nullptr) NewActiveDataFile()`
  unfoldable pub ensure_active : Db Index → Db Index
  unfolding new_active_data_file
  ensure_active db = elim db.active_file [ none ↦ new_active_data_file db | some f ↦ db ]

  -- `older_files_[active_file_->file_id] = std::move(active_file_)`, and a new active file.
  unfoldable pub rotate : DataFile → Db Index → Db Index
  unfolding new_active_data_file
  rotate active db =
      new_active_data_file
        (record db { older_files = set_entry active.file_id (some active) db.older_files })

  -- `active_file_->`, which dereferences a null pointer where there is no active file.
  abbrev pub with_active : {A : Type 0} → (DataFile → Action (Db Index) A) → Action (Db Index) A
  with_active f db = elim db.active_file [ none ↦ none | some active ↦ f active db ]

  module _ (env : Env) where
    -- The active file is synced and retired if the bytes do not fit it any more.
    unfoldable pub rotate_if_full : ℕ → Action (Db Index) (Unit {0})
    rotate_if_full size = with_active λ active db.
        (if ltb db.options.data_file_size (active.write_off + size)
            then (do lift (DataFile.sync env active); modify (rotate active))
            else pure tt)
          db

    unfoldable pub write_active : Bytes → Action (Db Index) (Unit {0})
    write_active bytes = with_active λ active db.
        let (result, written) = DataFile.write env active bytes in
        some (result, record db { active_file = some written })

    unfoldable pub sync_active : Action (Db Index) (Unit {0})
    sync_active = with_active λ active. lift (DataFile.sync env active)

    -- DB::Sync
    unfoldable pub sync_db : Action (Db Index) (Unit {0})
    unfolding sync_active
    sync_db = sync_active

    -- DB::AppendLogRecord; the position is its out-parameter, which no caller passes as null.
    unfoldable pub append_log_record : LogRecord → Action (Db Index) LogRecordPst
    append_log_record log_record = do
      modify ensure_active
      let encode_bytes = encode_log_record env log_record
      rotate_if_full (length encode_bytes)
      with_active λ active. do
        write_active encode_bytes
        is_sync_write ← gets (λ db. db.options.is_sync_write)
        if is_sync_write then sync_active else pure tt
        with_active λ written. pure (record { fid = written.file_id; offset = active.write_off })

    -- The file of a position: `older_files_[fid]` enters a null pointer for an id that is missing.
    unfoldable pub data_file_of : ℕ → Action (Db Index) (Option DataFile)
    data_file_of fid = with_active λ active db.
        if fid == active.file_id
        then some (ok (some active), db)
        else elim (find_entry fid db.older_files) [
          | some entry ↦ some (ok entry, db)
          | none ↦ some (ok none, record db { older_files = set_entry fid none db.older_files })
        ]

    -- DB::GetValueByLogRecordPst; `*value` is undefined behaviour where the caller passes null.
    unfoldable pub get_value_by_log_record_pst : LogRecordPst → Bool → Action (Db Index) Bytes
    get_value_by_log_record_pst pst value_is_null = do
      data_file ← data_file_of pst.fid
      elim data_file [
        | none ↦ raise not_found
        | some file ↦ (do
          (log_record, sz) ← lift (read_log_record env file.contents pst.offset)
          if log_record.type == deleted_log_record
              then raise not_found
              else if value_is_null
              then undefined
              else pure log_record.value)
      ]

    module _ (ix : Indexer Index) where
      -- CHECK_TRUE(index_->Put(...)) and CHECK_TRUE(index_->Delete(...))
      unfoldable pub index_put : Bytes → LogRecordPst → Action (Db Index) (Unit {0})
      index_put key pst db =
          let (index, done) = ix.put db.index key pst in
          check done check_error (record db { index = index })

      unfoldable pub index_delete : Bytes → Action (Db Index) (Unit {0})
      index_delete key db =
          let (index, done) = ix.delete db.index key in
          check done check_error (record db { index = index })

      -- DB::Put. The record takes `value.data()`, a C string.
      unfoldable pub put : Bytes → Bytes → Action (Db Index) (Unit {0})
      put key value = if empty key then raise invalid_argument else (do
        encoded ← lift (defined (encode_log_record_with_txn_id key k_non_txn_id))
        pst ←
            append_log_record
              (record { key = encoded; value = c_str value; type = normal_log_record })
        index_put key pst)

      -- DB::Get
      unfoldable pub get : Bytes → Bool → Action (Db Index) Bytes
      get key value_is_null = if empty key then raise invalid_argument else (do
        pst ← gets (λ db. ix.get db.index key)
        elim pst [ none ↦ raise not_found | some p ↦ get_value_by_log_record_pst p value_is_null ])

      -- The part of DB::Delete for a key in the index. `AppendLogRecord` writes the position through
      -- the pointer that the index holds, before the index drops it.
      unfoldable pub delete_found : Bytes → Action (Db Index) (Unit {0})
      delete_found key = do
        encoded ← lift (defined (encode_log_record_with_txn_id key k_non_txn_id))
        pst ← append_log_record (record { key = encoded; value = []; type = deleted_log_record })
        modify (λ db. record db { index = (ix.put db.index key pst).0 })
        index_delete key

      -- DB::Delete; a key that is not in the index is no error.
      unfoldable pub delete : Bytes → Action (Db Index) (Unit {0})
      delete key = if empty key then raise invalid_argument else (do
        pst ← gets (λ db. ix.get db.index key)
        elim pst [ none ↦ pure tt | some p ↦ delete_found key ])
