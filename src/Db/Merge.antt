-- ===== src/Db/Merge.antt =====
-- bitdb/db.cpp: DB::Merge and the writers of its files. The merge directory is emptied before, so the
-- temporary database is new; on an error its files are left out, since the next DB::Open removes them.
pub mod Marker
pub mod Mergence
pub mod Crash
use bitdb.Base.{
  ℕ, zero, suc, ◌+◌, ◌*◌, ◌-◌, ◌/◌, ◌%◌, ◌^◌, Bool, true, false, ◌&&◌, Option, none, some, List, [],
  ◌∷◌, length, ltb, leb, ◌==◌, if◌then◌else◌,
}
use bitdb.Status.{Outcome, Fallible, ok, err, defined, check_error}
use bitdb.Bytes.{Bytes, c_str}
use bitdb.Env.{Env}
use bitdb.Record.{LogRecord, LogRecordPst, encode_log_record, encode_log_record_position}
use bitdb.DataFile
use bitdb.DataFile.{DataFile, read_log_record}
use bitdb.Txn.{k_non_txn_id, encode_log_record_with_txn_id, decode_log_record_with_txn_id}
use bitdb.FileTable.{FileTable}
use bitdb.Index.{Indexer}
use bitdb.Action.{Action, pure, raise, undefined, lift, gets, modify, ◌>>=◌, ◌>>◌}
use bitdb.Db.{Db, Options, new_db, new_data_file, rotate, append_log_record, sync_active}

-- `std::to_string` of an unsigned number: its decimal digits, found from the last one on.
unfoldable pub to_digits : ℕ → ℕ → Bytes → Bytes
to_digits zero n text = text
to_digits (suc fuel) n text =
    let longer = to_digits fuel (n / 10) ((48 + n % 10) ∷ text) in
    if ltb n 10 then (48 + n % 10) ∷ text else longer

unfoldable pub to_string : ℕ → Bytes
unfolding to_digits
to_string n = to_digits (suc n) n []

abbrev pub is_digit : ℕ → Bool
is_digit b = leb 48 b && leb b 57

unfoldable pub from_digits : Bytes → ℕ → ℕ
from_digits [] n = n
from_digits (b ∷ text) n =
    let rest = from_digits text (n * 10 + (b - 48)) in if is_digit b then rest else n

-- `std::stoi` of a text that starts with a digit; `none` is an exception. No other text is written.
unfoldable pub stoi : Bytes → Option ℕ
stoi [] = none
stoi (b ∷ text) =
    let n = from_digits (b ∷ text) 0 in
    if is_digit b then if ltb n (2 ^ 31) then some n else none else none

-- K_MERGED_LOG_RECORD_KEY
abbrev pub k_merged_log_record_key : Bytes
k_merged_log_record_key = b'm' ∷ b'e' ∷ b'r' ∷ b'g' ∷ b'e' ∷ b'd' ∷ []

-- The record that says up to which file the data files are merged; its type is left at 0.
unfoldable pub merge_log_record : ℕ → LogRecord
unfolding to_string
merge_log_record non_merged_file_id = record {
  key = k_merged_log_record_key;
  value = to_string non_merged_file_id;
  type = 0;
}

-- What Merge leaves in the merge directory: the files of the temporary database, the hint file and
-- the file with that record.
pub record Merged (Index : Type 0) : Type 0 where
  pub temp_db : Db Index
  pub hint_file : DataFile
  pub merged_file : DataFile

-- The state of the loops of Merge.
pub record Merging (Index : Type 0) : Type 0 where
  pub db : Db Index
  pub temp_db : Db Index
  pub hint_file : DataFile

-- The entries by rising ids; a null pointer among them is followed by the comparison.
unfoldable pub insert_file : DataFile → List DataFile → List DataFile
insert_file f [] = f ∷ []
insert_file f (g ∷ fs) =
    let rest = insert_file f fs in if leb f.file_id g.file_id then f ∷ g ∷ fs else g ∷ rest

unfoldable pub files_to_be_merged : FileTable → Option (List DataFile)
unfolding insert_file
files_to_be_merged [] = some []
files_to_be_merged ((id, none) ∷ t) = none
files_to_be_merged ((id, some f) ∷ t) = elim (files_to_be_merged t) [
  | none ↦ none
  | some fs ↦ some (insert_file f fs)
]

-- A file behind a write to it; an error ends the merge, which leaves the file out.
abbrev pub written_file : Outcome (Unit {0}) × DataFile → Fallible DataFile
written_file (ok u, file) = some (ok file)
written_file (err c, file) = some (err c)

-- WriteHintRecord; the type of the record is left at 0.
unfoldable pub write_hint_record : Env → DataFile → Bytes → LogRecordPst → Fallible DataFile
write_hint_record env hint_file key pst = elim (encode_log_record_position pst) [
  | none ↦ none
  | some value ↦ written_file (
      DataFile.write env hint_file
        (encode_log_record env (record { key = c_str key; value = value; type = 0 })))
]

module _ {Index : Type 0} where
  -- `defer { is_merging_ = false; }`
  unfoldable pub end_merging : {A : Type 0} → Action (Db Index) A → Action (Db Index) A
  end_merging body db = elim (body db) [
    | none ↦ none
    | some (result, db) ↦ some (result, record db { is_merging = false })
  ]

  -- A call on the temporary database.
  abbrev pub on_temp :
      {A : Type 0}
      → Option (Outcome A × Db Index)
      → Merging Index
      → Option (Outcome A × Merging Index)
  on_temp none s = none
  on_temp (some (result, db)) s = some (result, record s { temp_db = db })

  module _ (env : Env) where
    abbrev pub append_to_temp : LogRecord → Action (Merging Index) LogRecordPst
    append_to_temp r s = on_temp (append_log_record env r s.temp_db) s

    abbrev pub sync_temp : Action (Merging Index) (Unit {0})
    sync_temp s = on_temp (sync_active env s.temp_db) s

    module _ (ix : Indexer Index) where
      -- A record that the index names goes to the temporary database, and its new position to the
      -- hint file.
      unfoldable pub keep_record : Bytes → LogRecord → Action (Merging Index) (Unit {0})
      keep_record real_key log_record = do
        key ← lift (defined (encode_log_record_with_txn_id real_key k_non_txn_id))
        pst ← append_to_temp (record log_record { key = key })
        hint_file ← gets (λ s. s.hint_file)
        written ← lift (write_hint_record env hint_file real_key pst)
        modify (λ s. record s { hint_file = written })

      abbrev pub is_at : ℕ → ℕ → Option LogRecordPst → Bool
      is_at fid offset none = false
      is_at fid offset (some pst) = pst.fid == fid && pst.offset == offset

      unfoldable pub merge_record : ℕ → ℕ → LogRecord → Action (Merging Index) (Unit {0})
      merge_record fid offset log_record = do
        (real_key, txn_id) ← lift (defined (decode_log_record_with_txn_id log_record.key))
        pst ← gets (λ s. ix.get s.db.index real_key)
        if is_at fid offset pst then keep_record real_key log_record else pure tt

      -- The loop over one file. Each round moves the offset forward, so the file's length bounds
      -- the rounds.
      unfoldable pub merge_file : ℕ → ℕ → Bytes → ℕ → Action (Merging Index) (Unit {0})
      merge_file zero fid contents offset = undefined
      merge_file (suc fuel) fid contents offset = do
        (log_record, sz) ← lift (read_log_record env contents offset)
        if sz == 0 then pure tt else (do
          merge_record fid offset log_record
          merge_file fuel fid contents ((offset + sz) % 2 ^ 64))

      unfoldable pub merge_files : List DataFile → Action (Merging Index) (Unit {0})
      merge_files [] = pure tt
      merge_files (f ∷ fs) = do
        merge_file (suc (length f.contents)) f.file_id f.contents 0
        merge_files fs

      -- From `hint_file->Sync()` on.
      unfoldable pub finish_merge : ℕ → Action (Merging Index) (Merged Index)
      finish_merge non_merged_file_id = do
        hint_file ← gets (λ s. s.hint_file)
        lift (DataFile.sync env hint_file)
        sync_temp
        temp_db ← gets (λ s. s.temp_db)
        merged_file ← lift (
            written_file (
              DataFile.write env (new_data_file 0)
                (encode_log_record env (merge_log_record non_merged_file_id))))
        lift (DataFile.sync env merged_file)
        pure (record { temp_db = temp_db; hint_file = hint_file; merged_file = merged_file })

      -- The loops and what follows them, on a database whose active file is retired.
      unfoldable pub merge_retired : ℕ → Action (Db Index) (Merged Index)
      merge_retired non_merged_file_id db = elim (files_to_be_merged db.older_files) [
        | none ↦ none
        | some files ↦
            elim ((merge_files files >> finish_merge non_merged_file_id) (record {
              db = db;
              temp_db = new_db ix (record db.options { is_sync_write = false });
              hint_file = new_data_file 0;
            })) [ none ↦ none | some (result, s) ↦ some (result, s.db) ]
      ]

      -- DB::Merge; without an active file there is nothing to merge.
      unfoldable pub merge : Action (Db Index) (Option (Merged Index))
      merge db = elim db.active_file [
        | none ↦ some (ok none, db)
        | some active ↦
            if db.is_merging
            then some (err check_error, db)
            else end_merging
                (do
                  modify (λ db. record db { is_merging = true })
                  lift (DataFile.sync env active)
                  modify (rotate active)
                  merged ← merge_retired active.file_id
                  pure (some merged))
                db
      ]
