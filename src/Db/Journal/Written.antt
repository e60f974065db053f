-- ===== src/Db/Journal/Written.antt =====
-- DB::AppendLogRecord in bitdb/db.cpp: the files of each of its cases.
use mathlib.Core.List.{append-nil, append_assoc}
use bitdb.Base.{
  ℕ, suc, ◌+◌, ◌%◌, ◌^◌, ◌≤◌, ◌<◌, ◌≡◌, refl, ap, ◌∙◌, sym, none, some, List, [], ◌∷◌, ◌++◌, length,
  arith, All-append, All-parts, length-append,
}
use bitdb.Status.{ok}
use bitdb.Env.{Env, IsReliable}
use bitdb.DataFile.{DataFile}
use bitdb.FileTable.{find_entry}
use bitdb.Db.{Db, new_data_file, new_active_data_file, ensure_active, rotate, rotate_if_full}
use bitdb.Db.Append.{written, sync_reliable}
use bitdb.Db.Load.Replay.{Entry, bytes_of, log_bytes, IsLoggable}
use bitdb.Db.Journal.{FileLog, IsJournal, IsLogFile, file_of_log, Hold}
use bitdb.Db.Journal.Files.{Ascending-append, Ascending-same, set_entry-new, Hold-append}

module _ (env : Env) where
  log_bytes-append :
      (es : List Entry) (e : Entry)
      → log_bytes env (es ++ (e ∷ [])) ≡ log_bytes env es ++ bytes_of env e
  unfolding log_bytes
  log_bytes-append [] e = append-nil (bytes_of env e)
  log_bytes-append (f ∷ es) e =
      ap (λ t. bytes_of env f ++ t) (log_bytes-append es e)
      ∙ sym (append_assoc (bytes_of env f) (log_bytes env es) (bytes_of env e))

  new_file : (e : Entry) → log_bytes env (e ∷ []) ≡ bytes_of env e
  unfolding log_bytes
  new_file e = append-nil (bytes_of env e)

  -- What the files hold of a record in a new file.
  pub new_file-IsLogFile :
      (size id : ℕ) (e : Entry)
      → IsLoggable e
      → 0 < length (bytes_of env e)
      → length (bytes_of env e) ≤ size
      → IsLogFile env size (id, e ∷ [])
  new_file-IsLogFile size id e loggable some_bytes fits = record {
    loggable = (loggable, tt);
    some_bytes = rw (new_file e) some_bytes;
    fits = rw (new_file e) fits;
  }

  module _ {Index : Type 0} where
    -- The first record of all opens the first file.
    pub first_rotated :
        (size : ℕ) (db : Db Index)
        → db.active_file ≡ none
        → size ≤ db.options.data_file_size
        → rotate_if_full env size (ensure_active db) ≡ some (ok tt, new_active_data_file db)
    unfolding ensure_active rotate_if_full new_active_data_file new_data_file
    first_rotated size db e fits = ground (arith, e)

    pub not_rotated :
        (size : ℕ) (db : Db Index) (a : DataFile)
        → db.active_file ≡ some a
        → a.write_off + size ≤ db.options.data_file_size
        → rotate_if_full env size (ensure_active db) ≡ some (ok tt, db)
    unfolding ensure_active rotate_if_full
    not_rotated size db a e fits = ground (arith, e)

    pub rotated :
        (reliable : IsReliable env) (size : ℕ) (db : Db Index) (a : DataFile)
        → db.active_file ≡ some a
        → db.options.data_file_size < a.write_off + size
        → rotate_if_full env size (ensure_active db) ≡ some (ok tt, rotate a db)
    unfolding ensure_active rotate_if_full
    rotated reliable size db a e full = ground (arith, e, sync_reliable env reliable a)

    pub first_file-IsJournal :
        (db : Db Index) (e : Entry)
        → db.next_file_id + 1 < 2 ^ 32
        → Hold env db.older_files []
        → IsLogFile env db.options.data_file_size (db.next_file_id, e ∷ [])
        → IsJournal env
            (written (new_active_data_file db) (new_data_file db.next_file_id) (bytes_of env e))
            (record { olds = []; last = some (db.next_file_id, e ∷ []) })
    unfolding new_active_data_file new_data_file
    first_file-IsJournal db e room older file = record {
      older = older;
      active = rw (new_file e) (ground arith);
      active_last = λ h. refl;
      ascending = (omega arith, omega arith);
      files = (file, tt);
    }

    pub same_file-IsJournal :
        (db : Db Index) (olds : List FileLog) (fid : ℕ) (es : List Entry) (e : Entry)
        → IsJournal env db (record { olds = olds; last = some (fid, es) })
        → IsLoggable e
        → length (log_bytes env es) + length (bytes_of env e) ≤ db.options.data_file_size
        → IsJournal env
            (written db (file_of_log env (fid, es)) (bytes_of env e))
            (record { olds = olds; last = some (fid, es ++ (e ∷ [])) })
    same_file-IsJournal db olds fid es e j loggable fits =
        let size = db.options.data_file_size in
        let (before, (last, done)) = All-parts (IsLogFile env size) olds ((fid, es) ∷ []) j.files in
        let bytes = log_bytes-append es e in
        let long = length-append (log_bytes env es) (bytes_of env e) in
        let file : IsLogFile env size (fid, es ++ (e ∷ [])) = record {
          loggable = All-append IsLoggable es (e ∷ []) last.loggable (loggable, tt);
          some_bytes = rw (bytes, long) (omega (arith, last.some_bytes));
          fits = rw (bytes, long) fits;
        } in
        record {
          older = j.older;
          active = rw (bytes, long) refl;
          active_last = λ h. absurd (ground arith);
          ascending = Ascending-same 0 db.next_file_id fid olds es (es ++ (e ∷ [])) j.ascending;
          files =
              All-append (IsLogFile env size) olds ((fid, es ++ (e ∷ [])) ∷ []) before (file, tt);
        }

    pub next_file-IsJournal :
        (db : Db Index) (olds : List FileLog) (fid : ℕ) (es : List Entry) (e : Entry)
        → IsJournal env db (record { olds = olds; last = some (fid, es) })
        → db.next_file_id + 1 < 2 ^ 32
        → find_entry fid db.older_files ≡ none
        → IsLogFile env db.options.data_file_size (db.next_file_id, e ∷ [])
        → IsJournal env
            (written
              (rotate (file_of_log env (fid, es)) db)
              (new_data_file db.next_file_id)
              (bytes_of env e))
            (record { olds = olds ++ ((fid, es) ∷ []); last = some (db.next_file_id, e ∷ []) })
    unfolding rotate new_active_data_file new_data_file
    next_file-IsJournal db olds fid es e j room apart file = record {
      older =
          rw (set_entry-new fid (some (file_of_log env (fid, es))) db.older_files apart)
            (Hold-append env db.older_files olds fid (file_of_log env (fid, es)) es j.older refl);
      active = rw (new_file e) (ground arith);
      active_last = λ h. absurd (ground arith);
      ascending =
          let next : (db.next_file_id + 1) % 2 ^ 32 ≡ suc db.next_file_id = omega arith in
          rw next
            (Ascending-append 0 db.next_file_id (olds ++ ((fid, es) ∷ [])) (e ∷ []) j.ascending);
      files =
          All-append (IsLogFile env db.options.data_file_size) (olds ++ ((fid, es) ∷ []))
            ((db.next_file_id, e ∷ []) ∷ []) j.files (file, tt);
    }
