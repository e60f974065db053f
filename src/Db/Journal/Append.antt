-- ===== src/Db/Journal/Append.antt =====
-- DB::AppendLogRecord in bitdb/db.cpp: what the data files hold behind it.
use bitdb.Base.{
  ◌+◌, ◌^◌, ◌≤◌, ◌<◌, ◌≡◌, refl, sym, Option, none, some, List, [], ◌∷◌, ◌++◌, length, ltb, arith,
  Bool-cases, inl, inr,
}
use bitdb.Status.{ok}
use bitdb.Env.{Env, IsReliable}
use bitdb.Record.{LogRecordPst}
use bitdb.DataFile.{DataFile}
use bitdb.Index.{Indexer}
use bitdb.Db.{
  Db, new_data_file, new_active_data_file, ensure_active, rotate, rotate_if_full, append_log_record,
}
use bitdb.Db.Invariant.{IsValid}
use bitdb.Db.Append.{Appended, append_log_record-Appended, append_steps, written}
use bitdb.Db.Load.Replay.{Entry, record_of, bytes_of, IsLoggable, bytes_of_nonempty}
use bitdb.Db.Journal.{
  FileLog, Journal, logs, IsJournal, Extends, Extends-same_file, Extends-new_file, file_of_log,
}
use bitdb.Db.Journal.Written.{
  new_file-IsLogFile, first_rotated, not_rotated, rotated, first_file-IsJournal,
  same_file-IsJournal, next_file-IsJournal,
}

module _ (env : Env) where
  module _ {Index : Type 0} where
    module _ (ix : Indexer Index) where
      -- The record is where AppendLogRecord says, and the files hold it behind all others.
      pub record Journaled (db : Db Index) (j : Journal) (e : Entry) (pst : LogRecordPst)
          (db' : Db Index) : Type 0 where
        pub appended : Appended env db (record_of e) pst db'
        pub next : Journal
        pub journal : IsJournal env db' next
        pub extends : Extends env ix (logs j) (logs next) e pst

      module _ (reliable : IsReliable env) where
        append-Journaled :
            (db db2 : Db Index) (j next : Journal) (e : Entry) (a : DataFile)
            → IsValid db
            → db.next_file_id + 2 < 2 ^ 32
            → IsLoggable e
            → rotate_if_full env (length (bytes_of env e)) (ensure_active db) ≡ some (ok tt, db2)
            → db2.active_file ≡ some a
            → IsJournal env (written db2 a (bytes_of env e)) next
            → Extends env ix
                (logs j)
                (logs next)
                e
                (record { fid = a.file_id; offset = a.write_off })
            → (pst : LogRecordPst) × (db' : Db Index) × (append_log_record env (record_of e) db
                ≡ some (ok pst, db'))
              × Journaled db j e pst db'
        append-Journaled db db2 j next e a v room loggable rotated has journal extends =
            let (pst, db', run, appended) =
              append_log_record-Appended env reliable (record_of e) db v room loggable.encodable in
            let steps =
              append_steps env reliable (record_of e) db db2 a rotated has loggable.encodable in
            let at : LogRecordPst = record { fid = a.file_id; offset = a.write_off } in
            let pst_same : at ≡ pst = cc in
            let db_same : written db2 a (bytes_of env e) ≡ db' = cc in
            (
              pst,
              db',
              run,
              record {
                appended = appended;
                next = next;
                journal = rw (sym db_same) journal;
                extends = rw (sym pst_same) extends;
              },
            )

        append_last :
            (db : Db Index) (olds : List FileLog) (last : Option FileLog) (e : Entry)
            → IsValid db
            → IsJournal env db (record { olds = olds; last = last })
            → db.next_file_id + 2 < 2 ^ 32
            → IsLoggable e
            → 0 < length (bytes_of env e)
            → length (bytes_of env e) ≤ db.options.data_file_size
            → (pst : LogRecordPst) × (db' : Db Index) × (append_log_record env (record_of e) db
                ≡ some (ok pst, db'))
              × Journaled db (record { olds = olds; last = last }) e pst db'
        unfolding new_active_data_file new_data_file rotate
        append_last db olds none e v j room loggable some_bytes fits =
            let id = db.next_file_id in
            let file =
              new_file-IsLogFile env db.options.data_file_size id e loggable some_bytes fits in
            append-Journaled db (new_active_data_file db) (record { olds = olds; last = none })
              (record { olds = []; last = some (id, e ∷ []) }) e (new_data_file id) v room loggable
              (first_rotated env (length (bytes_of env e)) db j.active fits) refl
              (first_file-IsJournal env db e (omega arith) (rw (sym (j.active_last refl)) j.older)
                file)
              (rw (j.active_last refl) (Extends-new_file env ix [] id e))
        append_last db olds (some (fid, es)) e v j room loggable some_bytes fits =
            let a = file_of_log env (fid, es) in
            let size = length (bytes_of env e) in
            let before : Journal = record { olds = olds; last = some (fid, es) } in
            elim (Bool-cases (ltb db.options.data_file_size (a.write_off + size))) [
              | inl full ↦
                  let id = db.next_file_id in
                  let file =
                    new_file-IsLogFile env db.options.data_file_size id e loggable some_bytes
                      fits in
                  append-Journaled db (rotate a db) before
                    (record { olds = olds ++ ((fid, es) ∷ []); last = some (id, e ∷ []) }) e
                    (new_data_file id) v room loggable
                    (rotated env reliable size db a j.active (ground arith)) refl
                    (next_file-IsJournal env db olds fid es e j (omega arith)
                      (v.active_apart a j.active) file)
                    (Extends-new_file env ix (olds ++ ((fid, es) ∷ [])) id e)
              | inr some_room ↦
                  append-Journaled db db before
                    (record { olds = olds; last = some (fid, es ++ (e ∷ [])) }) e a v room loggable
                    (not_rotated env size db a j.active (ground arith)) j.active
                    (same_file-IsJournal env db olds fid es e j loggable (ground arith))
                    (Extends-same_file env ix olds fid es e)
            ]

        -- DB::AppendLogRecord of an entry that fits a data file: it succeeds, the files still hold
        -- what they held, and the entry behind it, at the position it returns.
        pub append_log_record-Journaled :
            (db : Db Index) (j : Journal) (e : Entry)
            → IsValid db
            → IsJournal env db j
            → db.next_file_id + 2 < 2 ^ 32
            → IsLoggable e
            → length (bytes_of env e) ≤ db.options.data_file_size
            → (pst : LogRecordPst) × (db' : Db Index) × (append_log_record env (record_of e) db
                ≡ some (ok pst, db'))
              × Journaled db j e pst db'
        append_log_record-Journaled db j e v journal room loggable fits =
            append_last db j.olds j.last e v journal room loggable
              (bytes_of_nonempty env ix reliable e loggable) fits
