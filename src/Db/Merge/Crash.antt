-- ===== src/Db/Merge/Crash.antt =====
-- DB::Merge in bitdb/db.cpp over the records that were appended, and on a database without a key.
pub mod Files
pub use Files.*
use mathlib.Core.List.{append-nil, append_assoc}
use mathlib.Core.Path.{subst}
use bitdb.Base.{
  ℕ, zero, suc, ◌+◌, ◌%◌, ◌^◌, ◌<◌, ◌≡◌, refl, sym, true, false, Option, none, some, List, [], ◌∷◌,
  ◌++◌, length, arith, All, length-append, Option-cases, Bool-cases, leb, inl, inr,
}
use bitdb.Status.{Outcome, ok}
use bitdb.Bytes.{Bytes, c_str}
use bitdb.Env.{Env, IsReliable}
use bitdb.Record.{LogRecordPst}
use bitdb.DataFile.{DataFile, read_log_record}
use bitdb.DataFile.Read.{read_log_record_at_end}
use bitdb.Txn.RoundTrip.{decode_log_record_with_txn_id-append}
use bitdb.FileTable.{FileTable, set_entry}
use bitdb.Index.{Indexer}
use bitdb.Action.{Action, pure, bind_congr, ◌>>◌}
use bitdb.Db.{Db, Options, new_db, new_data_file, new_active_data_file, rotate, sync_active}
use bitdb.Db.Load.Replay.{
  Entry, record_of, bytes_of, log_bytes, IsLoggable, load_step, bytes_of_nonempty, length-log_bytes,
}
use bitdb.Db.Invariant.{Agrees}
use bitdb.Db.Append.{sync_reliable}
use bitdb.Db.Journal.{FileLog, file_of_log, Hold, IsLogFile, as_list}
use bitdb.Db.Journal.Files.{set_entry-new, Hold-append}
use bitdb.Db.Journal.Replays.{IsDurable}
use bitdb.Db.Merge.{
  Merged, Merging, merge_record, merge_file, merge_files, files_to_be_merged, insert_file,
  finish_merge, end_merging, merge_retired, merge,
}

module _ {Index : Type 0} (env : Env) (ix : Indexer Index) where
  -- The entries in order, each with the offset of its record.
  unfoldable pub merge_entries : ℕ → ℕ → List Entry → Action (Merging Index) (Unit {0})
  merge_entries fid offset [] = pure tt
  merge_entries fid offset (e ∷ es) = do
    merge_record env ix fid offset (record_of e)
    merge_entries fid (offset + length (bytes_of env e)) es

  module _ (reliable : IsReliable env) where
    merge_file_step :
        (fuel fid offset : ℕ) (file : Bytes) (e : Entry) (s : Merging Index)
        → IsLoggable e
        → read_log_record env file offset ≡ some (ok (record_of e, length (bytes_of env e)))
        → merge_file env ix (suc fuel) fid file offset s
          ≡ (merge_record env ix fid offset (record_of e)
                >> merge_file env ix fuel fid file ((offset + length (bytes_of env e)) % 2 ^ 64))
              s
    unfolding merge_file
    merge_file_step fuel fid offset file e s h read =
        rw read (ground (arith, bytes_of_nonempty env ix reliable e h))

    merge_file-merge_entries_from :
        (es : List Entry) (pre : Bytes) (fid fuel : ℕ) (s : Merging Index)
        → All IsLoggable es
        → 0 < length (pre ++ log_bytes env es)
        → length (pre ++ log_bytes env es) < 2 ^ 64
        → length es < fuel
        → merge_file env ix fuel fid (pre ++ log_bytes env es) (length pre) s
          ≡ merge_entries fid (length pre) es s
    unfolding merge_file merge_entries
    merge_file-merge_entries_from es pre fid zero s loggable some_bytes short fueled =
        absurd (omega arith)
    merge_file-merge_entries_from [] pre fid (suc fuel) s loggable some_bytes short fueled =
        unfold log_bytes in
        rw
          (
            append-nil pre,
            read_log_record_at_end env reliable pre (rw (append-nil pre) at some_bytes),
          )
          refl
    merge_file-merge_entries_from (e ∷ es) pre fid (suc fuel) s (h, rest) some_bytes short fueled =
        let b = bytes_of env e in
        let file = (pre ++ b) ++ log_bytes env es in
        let same : pre ++ log_bytes env (e ∷ es) ≡ file =
          unfold log_bytes in sym (append_assoc pre b (log_bytes env es)) in
        let long : 0 < length file = rw same at some_bytes in
        let fits : length file < 2 ^ 64 = rw same at short in
        let next : (length pre + length b) % 2 ^ 64 ≡ length (pre ++ b) =
          omega (arith, length-append pre b, length-append (pre ++ b) (log_bytes env es)) in
        let read : read_log_record env file (length pre) ≡ some (ok (record_of e, length b)) =
          rw (append_assoc pre b (log_bytes env es))
            (load_step env ix reliable e pre (log_bytes env es) h) in
        rw (same, merge_file_step fuel fid (length pre) file e s h read, next)
          (bind_congr (merge_record env ix fid (length pre) (record_of e)) _ _ s (λ done s1.
            rw (sym (length-append pre b)) (
              merge_file-merge_entries_from es (pre ++ b) fid fuel s1 rest long fits
                (omega arith))))

    -- In a reliable environment, the loop of DB::Merge takes the entries of a file that is not empty,
    -- has fewer than 2 ^ 64 bytes and holds records of at most 2 ^ 31 - 4096 bytes with 15 for the
    -- header, with types of one byte and ids below 2 ^ 31: in their order, each with the offset of its
    -- record, within as many rounds as the file has bytes.
    pub merge_file-merge_entries :
        (es : List Entry) (fid : ℕ) (s : Merging Index)
        → All IsLoggable es
        → 0 < length (log_bytes env es)
        → length (log_bytes env es) < 2 ^ 64
        → merge_file env ix (suc (length (log_bytes env es))) fid (log_bytes env es) 0 s
          ≡ merge_entries fid 0 es s
    merge_file-merge_entries es fid s loggable some_bytes short =
        merge_file-merge_entries_from es [] fid (suc (length (log_bytes env es))) s loggable
          some_bytes short (omega (arith, length-log_bytes env ix reliable es loggable))

    -- What the index does not name is passed over.
    skip_record :
        (e : Entry) (fid offset : ℕ) (s : Merging Index)
        → IsLoggable e
        → ((k : Bytes) → ix.get s.db.index k ≡ none)
        → merge_record env ix fid offset (record_of e) s ≡ some (ok tt, s)
    unfolding merge_record
    skip_record e fid offset s h nothing =
        rw (decode_log_record_with_txn_id-append e.txn_id e.key h.small_id, nothing e.key) refl

    skip_entries :
        (es : List Entry) (fid offset : ℕ) (s : Merging Index)
        → All IsLoggable es
        → ((k : Bytes) → ix.get s.db.index k ≡ none)
        → merge_entries fid offset es s ≡ some (ok tt, s)
    unfolding merge_entries
    skip_entries [] fid offset s loggable nothing = refl
    skip_entries (e ∷ es) fid offset s (h, rest) nothing =
        rw
          (
            skip_record e fid offset s h nothing,
            skip_entries es fid (offset + length (bytes_of env e)) s rest nothing,
          )
          refl

    skip_files :
        (size : ℕ) (fs : List DataFile) (s : Merging Index)
        → All (IsLog env size) fs
        → size < 2 ^ 64
        → ((k : Bytes) → ix.get s.db.index k ≡ none)
        → merge_files env ix fs s ≡ some (ok tt, s)
    unfolding merge_files
    skip_files size [] s all short nothing = refl
    skip_files size (f ∷ fs) s ((es, same, log), rest) short nothing =
        let run =
          merge_file-merge_entries es f.file_id s log.loggable log.some_bytes
            (omega (arith, log.fits)) in
        rw
          (
            same,
            run,
            skip_entries es f.file_id 0 s log.loggable nothing,
            skip_files size fs s rest short nothing,
          )
          refl

    -- Without a record in it, the temporary database has no active file, and DB::Sync follows the
    -- null pointer.
    finish_nothing :
        (id : ℕ) (s : Merging Index)
        → s.temp_db.active_file ≡ none
        → finish_merge env ix id s ≡ none
    unfolding finish_merge sync_active
    finish_nothing id s nothing = ground (arith, sync_reliable env reliable s.hint_file, nothing)

    merge_retired_nothing :
        (size id : ℕ) (db : Db Index) (ls : List FileLog)
        → Hold env db.older_files ls
        → All (IsLogFile env size) ls
        → size < 2 ^ 64
        → ((k : Bytes) → ix.get db.index k ≡ none)
        → merge_retired env ix id db ≡ none
    unfolding merge_retired new_db
    merge_retired_nothing size id db ls hold files short nothing =
        let (fs, found, all) = files_of_Hold env size db.older_files ls hold files in
        let start : Merging Index = record {
          db = db;
          temp_db = new_db ix (record db.options { is_sync_write = false });
          hint_file = new_data_file 0;
        } in
        ground
          (arith, found, skip_files size fs start all short nothing, finish_nothing id start refl)

    Agrees-nothing : (db : Db Index) (p : Option LogRecordPst) → Agrees env db p none → p ≡ none
    Agrees-nothing db none h = refl
    Agrees-nothing db (some p) h = absurd h

    merge_active_nothing :
        (size : ℕ) (db : Db Index) (a : DataFile) (ls : List FileLog)
        → db.active_file ≡ some a
        → db.is_merging ≡ false
        → Hold env (set_entry a.file_id (some a) db.older_files) ls
        → All (IsLogFile env size) ls
        → size < 2 ^ 64
        → ((k : Bytes) → ix.get db.index k ≡ none)
        → merge env ix db ≡ none
    unfolding merge end_merging rotate new_active_data_file
    merge_active_nothing size db a ls has idle hold files short nothing =
        let retired = rotate a (record db { is_merging = true }) in
        ground (
          arith,
          has,
          idle,
          sync_reliable env reliable a,
          merge_retired_nothing size a.file_id retired ls hold files short nothing,
        )

    merge_last_nothing :
        (options : Options) (m : Bytes → Option Bytes) (db : Db Index) (a : DataFile)
        → IsDurable env ix options m db
        → options.data_file_size < 2 ^ 64
        → db.active_file ≡ some a
        → ((k : Bytes) → m k ≡ none)
        → merge env ix db ≡ none
    merge_last_nothing options m db a durable short has nothing =
        elim (Option-cases durable.journal.last) [
          | inl no_last ↦ absurd (ground (arith, durable.written.active, no_last, has))
          | inr ((fid, es), e) ↦
              let l : FileLog = (fid, es) in
              let j = durable.written in
              let same : a ≡ file_of_log env l = ground (arith, j.active, e, has) in
              let hold : Hold env (set_entry a.file_id (some a) db.older_files)
                  (durable.journal.olds ++ (l ∷ [])) =
                rw
                  (set_entry-new a.file_id (some a) db.older_files
                    (durable.models.valid.active_apart a has))
                  (rw same (
                    Hold-append env db.older_files durable.journal.olds fid (file_of_log env l) es
                      j.older refl)) in
              let files : All (IsLogFile env db.options.data_file_size)
                  (durable.journal.olds ++ (l ∷ [])) =
                subst
                  (λ (last : Option FileLog).
                    All (IsLogFile env db.options.data_file_size)
                      (durable.journal.olds ++ as_list last))
                  e j.files in
              merge_active_nothing db.options.data_file_size db a (durable.journal.olds ++ (l ∷ []))
                has durable.idle hold files (rw durable.same_options short)
                (λ k. Agrees-nothing db (ix.get db.index k) (
                  subst (λ (v : Option Bytes). Agrees env db (ix.get db.index k) v)
                    (nothing (c_str k)) (durable.models.entries k)))
        ]

    -- What DB::Merge does where no key is stored: without a data file nothing, else it is undefined.
    abbrev pub merge_outcome_of_nothing :
        Db Index → Option (Outcome (Option (Merged Index)) × Db Index)
    merge_outcome_of_nothing db = elim db.active_file [ none ↦ some (ok none, db) | some a ↦ none ]

    -- In a reliable environment, on a database that calls and restarts have led to, with a data file
    -- size below 2 ^ 64, that stores no key: DB::Merge succeeds and changes nothing if there is no
    -- data file, and runs into undefined behaviour if there is one.
    pub merge_of_nothing :
        (options : Options) (m : Bytes → Option Bytes) (db : Db Index)
        → IsDurable env ix options m db
        → options.data_file_size < 2 ^ 64
        → ((k : Bytes) → m k ≡ none)
        → merge env ix db ≡ merge_outcome_of_nothing db
    merge_of_nothing options m db durable short nothing = elim (Option-cases db.active_file) [
      | inl no_file ↦ unfold merge in rw no_file refl
      | inr (a, has) ↦ rw (merge_last_nothing options m db a durable short has nothing, has) refl
    ]
