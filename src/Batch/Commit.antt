-- ===== src/Batch/Commit.antt =====
-- bitdb/batch.cpp: WriteBatch::Commit against the map that the database stores.
use bitdb.Base.{
  ℕ, ◌+◌, ◌*◌, ◌%◌, ◌^◌, ◌≤◌, ◌<◌, ◌≡◌, refl, sym, ◌∙◌, true, Option, none, some, List, [], ◌∷◌,
  length, arith, All, All-map, Bool-cases, inl, inr,
}
use mathlib.Core.Path.{subst}
use bitdb.Status.{ok}
use bitdb.Bytes.{Bytes, c_str, bytes_eq}
use bitdb.DataFile.{DataFile}
use bitdb.Env.{Env, IsReliable}
use bitdb.Record.{LogRecord, LogRecordPst, normal_log_record, txn_finished_log_record}
use bitdb.Txn.{k_txn_finished_key}
use bitdb.Txn.RoundTrip.{encode_log_record_with_txn_id_fits}
use bitdb.Index.{Indexer, IsMap}
use bitdb.Db
use bitdb.Db.{Db}
use bitdb.Db.Invariant.{IsValid, Models, Agrees, Grows, Grows-trans, Agrees-Grows}
use bitdb.Db.Append.{append_log_record-Appended}
use bitdb.Db.Refine.{updated, with_index, IsValid-with_index, Agrees-with_index}
use bitdb.Batch.{Session, write_pending, index_pending, commit_pending, commit}
use bitdb.Batch.Writing.{
  txn_key, IsPutWrite, Lies, without_positions, write_pending-Wrote, txn_record-IsEncodable,
}

-- A map with the writes put in, in their order.
pub after_writes : (Bytes → Option Bytes) → List (Bytes × LogRecord) → Bytes → Option Bytes
after_writes m [] = m
after_writes m ((key, r) ∷ rest) = after_writes (updated m (c_str key) (some r.value)) rest

module _ {Index : Type 0} (env : Env) (ix : Indexer Index) where
  -- The database as Commit leaves it with a new id.
  abbrev with_txn_id : Db Index → ℕ → Db Index
  with_txn_id db id = record db { txn_id = id }

  with_txn_id-Models :
      (m : Bytes → Option Bytes) (db : Db Index) (id : ℕ)
      → Models env ix db m
      → Models env ix (with_txn_id db id) m
  with_txn_id-Models m db id models = record {
    valid = record {
      at_end = models.valid.at_end;
      active_below = models.valid.active_below;
      active_apart = models.valid.active_apart;
      fresh = models.valid.fresh;
    };
    entries = λ k. same_files (ix.get db.index k) (m (c_str k)) (models.entries k);
  }
    where
      same_files :
          (p : Option LogRecordPst) (v : Option Bytes)
          → Agrees env db p v
          → Agrees env (with_txn_id db id) p v
      same_files none none h = h
      same_files none (some v) h = h
      same_files (some p) none h = h
      same_files (some p) (some v) (r, s, normal, e) = (
        r,
        record {
          file = s.file;
          active = s.active;
          pre = s.pre;
          post = s.post;
          has_active = s.has_active;
          at_file = s.at_file;
          layout = s.layout;
          at_offset = s.at_offset;
          encodable = s.encodable;
        },
        normal,
        e,
      )

  -- Files that grow keep what is stored.
  Grows-Models :
      (m : Bytes → Option Bytes) (db db' : Db Index) (a : DataFile)
      → Models env ix db m
      → Grows db db'
      → IsValid db'
      → db'.active_file ≡ some a
      → Models env ix db' m
  Grows-Models m db db' a models g v active = record {
    valid = v;
    entries = λ k.
        subst (λ (i : Index). Agrees env db' (ix.get i k) (m (c_str k))) (sym g.same_index)
          (Agrees-Grows env g active (ix.get db.index k) (m (c_str k)) (models.entries k));
  }

  module _ (lawful : IsMap ix) where
    -- An index entry for a record that lies in the files.
    index_entry :
        (m : Bytes → Option Bytes) (key value : Bytes) (db : Db Index) (pst : LogRecordPst)
        → Models env ix db m
        → Agrees env db (some pst) (some value)
        → Models env ix
            (with_index db (ix.put db.index key pst).0)
            (updated m (c_str key) (some value))
    unfolding with_index
    index_entry m key value db pst models lies = record {
      valid = IsValid-with_index db _ models.valid;
      entries = λ k.
          rw (lawful.get-put db.index key k pst)
            (elim (Bool-cases (bytes_eq (c_str key) (c_str k))) [
              | inl same ↦ rw same (Agrees-with_index env db _ (some pst) (some value) lies)
              | inr other ↦
                  rw other (
                    Agrees-with_index env db _ (ix.get db.index k) (m (c_str k)) (models.entries k))
            ]);
    }

    index_round :
        (key : Bytes) (r : LogRecord) (pst : LogRecordPst)
        (rest : List (Bytes × LogRecord × LogRecordPst)) (s : Session Index)
        → r.type ≡ normal_log_record
        → index_pending env ix ((key, r, pst) ∷ rest) s
          ≡ index_pending env ix rest
              (record s { db = with_index s.db (ix.put s.db.index key pst).0 })
    unfolding index_pending Db.index_put with_index
    index_round key r pst rest s normal =
        ground (arith, normal, lawful.put_succeeds s.db.index key pst)

    -- The second loop of Commit.
    index_pending-Models :
        (positions : List (Bytes × LogRecord × LogRecordPst)) (s : Session Index)
        (m : Bytes → Option Bytes)
        → Models env ix s.db m
        → All (Lies env s.db) positions
        → (s' : Session Index) × (index_pending env ix positions s ≡ some (ok tt, s'))
          × Models env ix s'.db (after_writes m (without_positions positions))
          × (s'.db.txn_id ≡ s.db.txn_id)
    unfolding after_writes with_index
    index_pending-Models [] s m models lie = (s, unfold index_pending in refl, models, refl)
    index_pending-Models ((key, r, pst) ∷ rest) s m models lie =
        let s1 : Session Index = record s { db = with_index s.db (ix.put s.db.index key pst).0 } in
        let (s', run, after, same) =
          index_pending-Models rest s1 (updated m (c_str key) (some r.value))
            (index_entry m key r.value s.db pst models lie.0.1)
            (All-map rest
              (λ e h. (h.0, Agrees-with_index env s.db _ (some e.2) (some e.1.value) h.1)) lie.1) in
        (s', index_round key r pst rest s lie.0.0 ∙ run, after, same)

module _ {Index : Type 0} (env : Env) (reliable : IsReliable env) (ix : Indexer Index)
    (lawful : IsMap ix) where
  abbrev finish_record : ℕ → LogRecord
  finish_record txn_id = record {
    key = txn_key txn_id k_txn_finished_key;
    value = [];
    type = txn_finished_log_record;
  }

  -- The session with the next transaction id.
  abbrev begun : Session Index → Session Index
  begun s = record s { db = record s.db { txn_id = (s.db.txn_id + 1) % 2 ^ 64 } }

  abbrev done : Session Index → Session Index
  done s = record s { batch = record s.batch { committed = true } }

  commit_run :
      (s s1 s3 : Session Index) (db : Db Index) (pst : LogRecordPst)
      (positions : List (Bytes × LogRecord × LogRecordPst))
      → let txn_id = (s.db.txn_id + 1) % 2 ^ 64 in
        txn_id < 2 ^ 28
        → 0 < length s.batch.pending_writes
        → length s.batch.pending_writes ≤ s.batch.max_batch_num
        → write_pending env ix txn_id s.batch.pending_writes (begun s) ≡ some (ok positions, s1)
        → Db.append_log_record env (finish_record txn_id) s1.db ≡ some (ok pst, db)
        → index_pending env ix positions (record s1 { db = db }) ≡ some (ok tt, s3)
        → commit env ix s ≡ some (ok tt, done s3)
  unfolding commit commit_pending
  commit_run s s1 s3 db pst positions small some_writes fits wrote appended indexed = ground (
    arith,
    wrote,
    encode_log_record_with_txn_id_fits k_txn_finished_key ((s.db.txn_id + 1) % 2 ^ 64) small,
    appended,
    indexed,
  )

  -- In a reliable environment, with an indexer that is a map, on a database that stores a map, whose
  -- last transaction id lies below 2 ^ 28 - 1, and that has two free file ids for each write and two
  -- more: WriteBatch::Commit of one write or more, as many as the batch may hold, each left by Put
  -- with a record of at most 2 ^ 31 - 4096 bytes, succeeds, and then the database stores the value of
  -- every write under its key, the last one where keys are the same, and what it stored under every
  -- other key; the batch counts as committed, and the transaction id has gone up by one.
  pub commit-Models :
      (s : Session Index) (m : Bytes → Option Bytes)
      → Models env ix s.db m
      → 0 < length s.batch.pending_writes
      → length s.batch.pending_writes ≤ s.batch.max_batch_num
      → All IsPutWrite s.batch.pending_writes
      → s.db.txn_id + 1 < 2 ^ 28
      → s.db.next_file_id + 2 * length s.batch.pending_writes + 2 < 2 ^ 32
      → (s' : Session Index) × (commit env ix s ≡ some (ok tt, s'))
        × Models env ix s'.db (after_writes m s.batch.pending_writes)
        × (s'.batch.committed ≡ true)
        × (s'.db.txn_id ≡ s.db.txn_id + 1)
  commit-Models s m models some_writes fits put id_room room =
      let txn_id = (s.db.txn_id + 1) % 2 ^ 64 in
      let small : txn_id < 2 ^ 28 = omega (arith, id_room) in
      let start = with_txn_id-Models env ix m s.db txn_id models in
      let (positions, s1, wrote, w) =
        write_pending-Wrote env reliable ix txn_id s.batch.pending_writes (begun s) small
          start.valid (omega (arith, room)) put in
      let (pst, db, e, appended) =
        append_log_record-Appended env reliable (finish_record txn_id) s1.db w.valid
          (omega (arith, w.ids, room))
          (txn_record-IsEncodable txn_id k_txn_finished_key [] txn_finished_log_record small
            (omega arith) (omega arith)) in
      let ready = appended.ready in
      let grows = Grows-trans w.grows ready.grows in
      let s2 : Session Index = record s1 { db = db } in
      let lie : All (Lies env db) positions =
        All-map positions
          (λ x h.
            (h.0, Agrees-Grows env ready.grows ready.has_active (some x.2) (some x.1.value) h.1))
          w.lie in
      let (s3, indexed, after, same) =
        index_pending-Models env ix lawful positions s2 m
          (Grows-Models env ix m (begun s).db db ready.active start grows ready.valid
            ready.has_active)
          lie in
      (
        done s3,
        commit_run s s1 s3 db pst positions small some_writes fits wrote e indexed,
        subst (λ (ws : List (Bytes × LogRecord)). Models env ix s3.db (after_writes m ws))
            w.same_writes after,
        refl,
        same ∙ grows.same_txn_id ∙ omega (arith, id_room),
      )
