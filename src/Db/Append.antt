-- ===== src/Db/Append.antt =====
-- DB::AppendLogRecord: where the record ends up, and what stays.
use mathlib.Core.List.{append-nil}
use bitdb.Base.{
  ℕ, ◌+◌, ◌^◌, ◌≤◌, ◌<◌, ◌≡◌, refl, sym, some, [], ◌++◌, length, ltb, ◌==◌, arith, Bool-cases, inl,
  inr, take_all, length-append,
}
use bitdb.Status.{ok}
use bitdb.Bytes.{Bytes}
use bitdb.Env.{Env, IsReliable}
use bitdb.Record.{LogRecord, LogRecordPst, encode_log_record}
use bitdb.Record.Layout.{IsEncodable, length-header_of}
use bitdb.DataFile.Read.{length-encode_log_record}
use bitdb.DataFile.{DataFile}
use bitdb.DataFile
use bitdb.Db.{
  Db, ensure_active, rotate, rotate_if_full, write_active, sync_active, append_log_record,
}
use bitdb.Db.Invariant.{IsValid, Grows-refl, Grows-trans, Stored}
use bitdb.Db.Ready.{Ready, ensure_active-Ready, rotate-Ready}

-- A file with bytes behind its end.
abbrev extended : DataFile → Bytes → DataFile
extended f bytes = record f {
  write_off = f.write_off + length bytes;
  contents = f.contents ++ bytes;
}

abbrev pub written : {Index : Type 0} → Db Index → DataFile → Bytes → Db Index
written db a bytes = record db { active_file = some (extended a bytes) }

-- What AppendLogRecord returns and leaves behind: the record at the position, and every file grown,
-- with at most two new ids.
pub record Appended {Index : Type 0} (env : Env) (db : Db Index) (r : LogRecord)
    (pst : LogRecordPst) (db' : Db Index) : Type 0 where
  pub ready : Ready db db' 2
  pub stored : Stored env db' pst r

module _ (env : Env) (reliable : IsReliable env) where
  pub sync_reliable : (f : DataFile) → DataFile.sync env f ≡ some (ok tt)
  unfolding DataFile.sync
  sync_reliable f = rw (reliable.fsync_true f.contents)

  -- One call transfers the bytes of a record.
  pub encode_log_record_short :
      (r : LogRecord) → IsEncodable r → length (encode_log_record env r) + 4096 ≤ 2 ^ 31
  encode_log_record_short r encodable = omega (
    arith,
    length-encode_log_record env reliable r encodable,
    length-header_of env r encodable,
    encodable.fits,
  )

  pub write_reliable :
      (f : DataFile) (bytes : Bytes)
      → length bytes + 4096 ≤ 2 ^ 31
      → DataFile.write env f bytes ≡ (ok tt, extended f bytes)
  unfolding DataFile.write
  write_reliable f bytes short =
      ground (arith, reliable.write_all f.contents bytes short, take_all (length bytes) bytes)

  module _ {Index : Type 0} where
    rotate_if_full-Ready :
        (size : ℕ) (db : Db Index) (a : DataFile)
        → IsValid db
        → db.next_file_id + 1 < 2 ^ 32
        → db.active_file ≡ some a
        → (db' : Db Index) × (rotate_if_full env size db ≡ some (ok tt, db')) × Ready db db' 1
    unfolding rotate_if_full
    rotate_if_full-Ready size db a v room e =
        elim (Bool-cases (ltb db.options.data_file_size (a.write_off + size))) [
          | inl full ↦ (rotate a db, ground (arith, sync_reliable a), rotate-Ready a db v room e)
          | inr fits ↦ (
            db,
            ground arith,
            record {
              valid = v;
              grows = Grows-refl db;
              active = a;
              has_active = e;
              ids = omega arith;
            },
          )
        ]

    write_active_lem :
        (bytes : Bytes) (db : Db Index) (a : DataFile)
        → db.active_file ≡ some a
        → length bytes + 4096 ≤ 2 ^ 31
        → write_active env bytes db ≡ some (ok tt, written db a bytes)
    unfolding write_active
    write_active_lem bytes db a e short = ground (arith, write_reliable a bytes short, e)

    written-Ready :
        (bytes : Bytes) (db : Db Index) (a : DataFile)
        → IsValid db
        → db.active_file ≡ some a
        → Ready db (written db a bytes) 0
    written-Ready bytes db a v e = record {
      valid = record {
        at_end = λ f h. ground (arith, v.at_end a e, length-append a.contents bytes);
        active_below = λ f h. ground (arith, v.active_below a e);
        active_apart = λ f h. ground (arith, v.active_apart a e);
        fresh = v.fresh;
      };
      grows = record {
        same_index = refl;
        same_options = refl;
        same_txn_id = refl;
        same_merging = refl;
        grown = λ fid f h. elim (Bool-cases (fid == a.file_id)) [
          | inl same ↦ (extended a bytes, bytes, ground arith, ground arith)
          | inr other ↦ (f, [], ground arith, sym (append-nil f.contents))
        ];
      };
      active = extended a bytes;
      has_active = refl;
      ids = omega arith;
    }

    sync_active_lem :
        (db : Db Index) (a : DataFile)
        → db.active_file ≡ some a
        → sync_active env db ≡ some (ok tt, db)
    unfolding sync_active
    sync_active_lem db a e = ground (arith, sync_reliable a)

    Ready-trans : {a b c : Db Index} {m n : ℕ} → Ready a b m → Ready b c n → Ready a c (m + n)
    Ready-trans p q = record {
      valid = q.valid;
      grows = Grows-trans p.grows q.grows;
      active = q.active;
      has_active = q.has_active;
      ids = omega arith;
    }

    written-Stored :
        (db : Db Index) (a : DataFile) (r : LogRecord)
        → IsValid db
        → db.active_file ≡ some a
        → IsEncodable r
        → Stored env
            (written db a (encode_log_record env r))
            (record { fid = a.file_id; offset = a.write_off })
            r
    written-Stored db a r v e encodable = record {
      file = extended a (encode_log_record env r);
      active = extended a (encode_log_record env r);
      pre = a.contents;
      post = [];
      has_active = refl;
      at_file = ground arith;
      layout = rw append-nil;
      at_offset = v.at_end a e;
      encodable = encodable;
    }

    pub append_steps :
        (r : LogRecord) (db db2 : Db Index) (a : DataFile)
        → rotate_if_full env (length (encode_log_record env r)) (ensure_active db)
          ≡ some (ok tt, db2)
        → db2.active_file ≡ some a
        → IsEncodable r
        → append_log_record env r db
          ≡ some (
            ok (record { fid = a.file_id; offset = a.write_off }),
            written db2 a (encode_log_record env r),
          )
    unfolding append_log_record
    append_steps r db db2 a rotated e encodable =
        let bytes = encode_log_record env r in
        let short = encode_log_record_short r encodable in
        ground (
          arith,
          rotated,
          e,
          write_active_lem bytes db2 a e short,
          sync_active_lem (written db2 a bytes) (extended a bytes) refl,
        )

    -- In a reliable environment, on a valid database with two free file ids: DB::AppendLogRecord
    -- of a record that has a key, a type of one byte and at most 2 ^ 31 - 4096 bytes with 15 for the
    -- header succeeds, the database stays valid and keeps the bytes of every open file, and the
    -- record is at the position it returns.
    pub append_log_record-Appended :
        (r : LogRecord) (db : Db Index)
        → IsValid db
        → db.next_file_id + 2 < 2 ^ 32
        → IsEncodable r
        → (pst : LogRecordPst) × (db' : Db Index) × (append_log_record env r db
            ≡ some (ok pst, db'))
          × Appended env db r pst db'
    append_log_record-Appended r db v room encodable =
        let first = ensure_active-Ready db v (omega arith) in
        let (db2, rotated, second) =
          rotate_if_full-Ready (length (encode_log_record env r)) (ensure_active db) first.active
            first.valid (omega (arith, first.ids)) first.has_active in
        let a = second.active in
        (
          record { fid = a.file_id; offset = a.write_off },
          written db2 a (encode_log_record env r),
          append_steps r db db2 a rotated second.has_active encodable,
          record {
            ready =
                Ready-trans (Ready-trans first second)
                  (written-Ready (encode_log_record env r) db2 a second.valid second.has_active);
            stored = written-Stored db2 a r second.valid second.has_active encodable;
          },
        )
