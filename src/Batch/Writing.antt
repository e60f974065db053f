-- ===== src/Batch/Writing.antt =====
-- bitdb/batch.cpp: the first loop of WriteBatch::Commit.
use bitdb.Base.{
  ℕ, ◌+◌, ◌*◌, ◌^◌, ◌≤◌, ◌<◌, ◌≡◌, refl, ap, false, some, List, [], ◌∷◌, ◌++◌, length,
  length-append, arith, All,
}
use bitdb.Status.{ok}
use bitdb.Bytes.{Bytes, c_str, empty}
use bitdb.Bytes.Order.{length-c_str}
use bitdb.Coding.{encode_varint64}
use bitdb.Coding.Length.{encode_varint64_shape}
use bitdb.DataFile.{DataFile}
use bitdb.Env.{Env, IsReliable}
use bitdb.Record.{LogRecord, LogRecordPst, normal_log_record}
use bitdb.Record.Layout.{IsEncodable}
use bitdb.Txn.RoundTrip.{encode_log_record_with_txn_id_fits}
use bitdb.TreeMap.{insert}
use bitdb.Index.{Indexer}
use bitdb.Db
use bitdb.Db.{Db}
use bitdb.Db.Invariant.{IsValid, Grows, Grows-refl, Grows-trans, Agrees, Agrees-Grows}
use bitdb.Db.Append.{append_log_record-Appended}
use bitdb.Batch.{Session, modify_pending, write_pending}

-- The key with its id in front, as the record carries it.
abbrev pub txn_key : ℕ → Bytes → Bytes
txn_key txn_id key = encode_varint64 txn_id ++ c_str key

-- A write that Put has left, with a record that one write(2) transfers.
abbrev pub IsPutWrite : Bytes × LogRecord → Type 0
IsPutWrite (key, r) =
    (r.type ≡ normal_log_record) × (length r.key + length r.value + 19 + 4096 ≤ 2 ^ 31)

nonempty : (x y : Bytes) → 1 ≤ length x → empty (x ++ y) ≡ false
nonempty [] y h = absurd (omega arith)
nonempty (b ∷ x) y h = refl

pub txn_record-IsEncodable :
    (txn_id : ℕ) (key value : Bytes) (type : ℕ)
    → txn_id < 2 ^ 28
    → length key + length value + 19 + 4096 ≤ 2 ^ 31
    → type < 256
    → IsEncodable (record { key = txn_key txn_id key; value = value; type = type })
txn_record-IsEncodable txn_id key value type small fits byte =
    let shape = encode_varint64_shape 3 txn_id in
    record {
      keyed = nonempty (encode_varint64 txn_id) (c_str key) shape.1;
      fits = omega (
        arith,
        shape.2 (omega (arith, small)),
        length-append (encode_varint64 txn_id) (c_str key),
        length-c_str key,
      );
      byte_type = byte;
    }

abbrev pub without_positions : List (Bytes × LogRecord × LogRecordPst) → List (Bytes × LogRecord)
without_positions [] = []
without_positions ((key, r, pst) ∷ rest) = (key, r) ∷ without_positions rest

-- A write that lies in the files.
abbrev pub Lies : {Index : Type 0} → Env → Db Index → Bytes × LogRecord × LogRecordPst → Type 0
Lies env db (key, r, pst) = (r.type ≡ normal_log_record) × Agrees env db (some pst) (some r.value)

pub record Wrote {Index : Type 0} (env : Env) (s s' : Session Index)
    (pending : List (Bytes × LogRecord)) (positions : List (Bytes × LogRecord × LogRecordPst))
    : Type 0 where
  pub valid : IsValid s'.db
  pub grows : Grows s.db s'.db
  pub ids : s'.db.next_file_id ≤ s.db.next_file_id + 2 * length pending
  pub still_active :
      (a : DataFile) → s.db.active_file ≡ some a → (b : DataFile) × (s'.db.active_file ≡ some b)
  pub lie : All (Lies env s'.db) positions
  pub same_writes : without_positions positions ≡ pending

module _ {Index : Type 0} (env : Env) (reliable : IsReliable env) (ix : Indexer Index) where
  -- One round of the loop.
  write_round :
      (txn_id : ℕ) (key : Bytes) (r : LogRecord) (rest : List (Bytes × LogRecord))
      (s s' : Session Index) (db : Db Index) (pst : LogRecordPst)
      (positions : List (Bytes × LogRecord × LogRecordPst))
      → txn_id < 2 ^ 28
      → Db.append_log_record env (record r { key = txn_key txn_id r.key }) s.db ≡ some (ok pst, db)
      → write_pending env ix txn_id rest
          (record (modify_pending (insert key (record r { key = txn_key txn_id r.key })) s) {
            db = db;
          })
        ≡ some (ok positions, s')
      → write_pending env ix txn_id ((key, r) ∷ rest) s ≡ some (ok ((key, r, pst) ∷ positions), s')
  unfolding write_pending
  write_round txn_id key r rest s s' db pst positions small appended run =
      ground (arith, encode_log_record_with_txn_id_fits r.key txn_id small, appended, run)

  pub write_pending-Wrote :
      (txn_id : ℕ) (pending : List (Bytes × LogRecord)) (s : Session Index)
      → txn_id < 2 ^ 28
      → IsValid s.db
      → s.db.next_file_id + 2 * length pending < 2 ^ 32
      → All IsPutWrite pending
      → (positions : List (Bytes × LogRecord × LogRecordPst)) × (s' : Session Index)
        × (write_pending env ix txn_id pending s ≡ some (ok positions, s'))
        × Wrote env s s' pending positions
  write_pending-Wrote txn_id [] s small v room put = (
    [],
    s,
    unfold write_pending in refl,
    record {
      valid = v;
      grows = Grows-refl s.db;
      ids = omega arith;
      still_active = λ a e. (a, e);
      lie = tt;
      same_writes = refl;
    },
  )
  write_pending-Wrote txn_id ((key, r) ∷ rest) s small v room put =
      let written = record r { key = txn_key txn_id r.key } in
      let (pst, db, e, appended) =
        append_log_record-Appended env reliable written s.db v (omega arith) (
          txn_record-IsEncodable txn_id r.key r.value r.type small put.0.1
            (omega (arith, put.0.0))) in
      let ready = appended.ready in
      let s1 : Session Index = record (modify_pending (insert key written) s) { db = db } in
      let (positions, s', run, w) =
        write_pending-Wrote txn_id rest s1 small ready.valid (omega (arith, ready.ids)) put.1 in
      let (b, active) = w.still_active ready.active ready.has_active in
      (
        (key, r, pst) ∷ positions,
        s',
        write_round txn_id key r rest s s' db pst positions small e run,
        record {
          valid = w.valid;
          grows = Grows-trans ready.grows w.grows;
          ids = omega (arith, w.ids, ready.ids);
          still_active = λ a h. (b, active);
          lie = (
            (
              put.0.0,
              Agrees-Grows env w.grows active (some pst) (some r.value)
                  (written, appended.stored, put.0.0, refl),
            ),
            w.lie,
          );
          same_writes = ap (λ t. (key, r) ∷ t) w.same_writes;
        },
      )
