-- ===== src/Batch/Pending.antt =====
-- bitdb/batch.cpp: what Put, Delete and Rollback do to the pending writes.
use bitdb.Base.{◌≡◌, refl, true, false, Option, none, some, [], arith, if◌then◌else◌}
use bitdb.Status.{Outcome, ok, err, check_error}
use bitdb.Bytes.{Bytes, c_str, empty, bytes_eq}
use bitdb.Bytes.Order.{bytes_eq_iff}
use bitdb.Env.{Env, IsReliable}
use bitdb.Record.{LogRecord, normal_log_record}
use bitdb.TreeMap.{TreeMap, find, emplace, erase, find-insert}
use bitdb.Index.{Indexer}
use bitdb.Db
use bitdb.Db.{Db}
use bitdb.Db.Invariant.{Models}
use bitdb.Db.Lookup.{null_answer, get_into_null-Models}
use bitdb.Batch.{Session, put, rollback, delete, delete_after_get, modify_pending, commit}

-- The record that WriteBatch::Put keeps.
abbrev pub put_record : Bytes → Bytes → LogRecord
put_record key value = record { key = c_str key; value = c_str value; type = normal_log_record }

abbrev pub first_of : Option LogRecord → LogRecord → LogRecord
first_of none r = r
first_of (some old) r = old

find-emplace :
    (k j : Bytes) (v : LogRecord) (m : TreeMap LogRecord)
    → find j (emplace k v m) ≡ (if bytes_eq k j then some (first_of (find k m) v) else find j m)
unfolding emplace
find-emplace k j v m = ground (arith, find-insert k j v m, bytes_eq_iff k j)

-- The pending record of a key.
abbrev pub pending : {Index : Type 0} → Session Index → Bytes → Option LogRecord
pending s k = find k s.batch.pending_writes

module _ {Index : Type 0} where
  -- WriteBatch::Put of a key that is not empty keeps the record that is pending for the key, if
  -- there is one, and takes the given value only otherwise. The other pending writes and the
  -- database stay.
  pub pending-put :
      (key value : Bytes) (s : Session Index)
      → empty key ≡ false
      → (s' : Session Index) × (put key value s ≡ some (ok tt, s'))
        × (s'.db ≡ s.db)
        × ((k : Bytes)
            → pending s' k ≡ (
                if bytes_eq (c_str key) k
                then some (first_of (pending s (c_str key)) (put_record key value))
                else pending s k))
  unfolding put
  pending-put key value s keyed = (
    modify_pending (emplace (c_str key) (put_record key value)) s,
    ground arith,
    refl,
    λ k. find-emplace (c_str key) k (put_record key value) s.batch.pending_writes,
  )

  -- WriteBatch::Rollback forgets the pending writes of an open batch, so that a Commit behind it
  -- changes nothing more, and a second Rollback fails.
  pub rollback_ends :
      (env : Env) (ix : Indexer Index) (s : Session Index)
      → s.batch.committed ≡ false
      → s.batch.rollbacked ≡ false
      → (s' : Session Index) × (rollback s ≡ some (ok tt, s'))
        × (s'.db ≡ s.db)
        × ((k : Bytes) → pending s' k ≡ none)
        × (commit env ix s' ≡ some (ok tt, s'))
        × (rollback s' ≡ some (err check_error, s'))
  unfolding rollback commit find
  rollback_ends env ix s open_batch kept = (
    record s { batch = record s.batch { pending_writes = []; rollbacked = true } },
    ground arith,
    refl,
    λ k. refl,
    refl,
    ground arith,
  )

  -- What WriteBatch::Delete comes to for a key with the given stored value.
  abbrev pub delete_outcome :
      Bytes → Option Bytes → Session Index → Option (Outcome (Unit {0}) × Session Index)
  delete_outcome key none s = some (ok tt, modify_pending (erase (c_str key)) s)
  delete_outcome key (some v) s = none

  delete-answer :
      (env : Env) (ix : Indexer Index) (key : Bytes) (v : Option Bytes) (s : Session Index)
      → empty key ≡ false
      → Db.get env ix key true s.db ≡ null_answer v s.db
      → delete env ix key s ≡ delete_outcome key v s
  unfolding delete delete_after_get
  delete-answer env ix key none s keyed e = ground (arith, e)
  delete-answer env ix key (some v) s keyed e = ground (arith, e)

  -- In a reliable environment, on a database that stores a map: WriteBatch::Delete of a key that
  -- is not empty forgets its pending write if the database does not store the key; if it stores
  -- the key, the call writes through a null pointer.
  pub batch_delete-Models :
      (env : Env) (reliable : IsReliable env) (ix : Indexer Index) (m : Bytes → Option Bytes)
      (key : Bytes) (s : Session Index)
      → empty key ≡ false
      → Models env ix s.db m
      → delete env ix key s ≡ delete_outcome key (m (c_str key)) s
  batch_delete-Models env reliable ix m key s keyed models =
      delete-answer env ix key (m (c_str key)) s keyed
        (get_into_null-Models env reliable ix m key s.db keyed models)
