-- ===== src/Examples/Store.antt =====
-- The storage engine and the batches at concrete inputs.
use bitdb.Base.{◌+◌, ◌≤◌, ◌≡◌, refl, arith, Option, none, some, List, [], ◌∷◌, true, false}
use bitdb.Status.{ok}
use bitdb.Bytes.{Bytes, c_str, bytes_eq}
use bitdb.Record.{LogRecordPst}
use bitdb.TreeMap.{TreeMap}
use bitdb.Index.TreeIndexer.{tree_indexer, tree_indexer-IsMap}
use bitdb.Db
use bitdb.Db.{Db, Options, new_db, append_log_record}
use bitdb.Db.Invariant.{Models}
use bitdb.Db.Append.{Appended, append_log_record-Appended}
use bitdb.Db.Lookup.{answer, get-Models}
use bitdb.Db.Refine.{updated, put-Models, delete-Models}
use bitdb.Db.History.{
  Call, put_call, delete_call, perform_all, after_calls, new_db-Models, get-perform_all,
}
use bitdb.Batch.{WriteBatch, Session, commit}
use bitdb.Batch.Commit.{after_writes, commit-Models}
use bitdb.Batch.Pending.{put_record}
use bitdb.Examples.World.{disk, disk-IsReliable, sample, sample-IsEncodable}

-- Files of 64 bytes, so that the third record needs a second file.
abbrev pub small_files : Options
small_files = record { data_file_size = 64; is_sync_write = true }

abbrev Store : Type 0
Store = Db (TreeMap LogRecordPst)

abbrev empty_store : Store
empty_store = new_db tree_indexer small_files

abbrev key : Bytes
key = b'k' ∷ []

abbrev value : Bytes
value = b'v' ∷ b'1' ∷ []

abbrev nothing : Bytes → Option Bytes
nothing k = none

abbrev one_entry : Bytes → Option Bytes
one_entry = updated nothing (c_str key) (some (c_str value))

empty_store-Models : Models disk tree_indexer empty_store nothing
empty_store-Models = new_db-Models disk tree_indexer tree_indexer-IsMap small_files

append_log_record_example :
    (pst : LogRecordPst) × (db : Store) × (append_log_record disk sample empty_store
      ≡ some (ok pst, db))
    × Appended disk empty_store sample pst db
unfolding new_db
append_log_record_example =
    append_log_record-Appended disk disk-IsReliable sample empty_store empty_store-Models.valid
      (omega arith) sample-IsEncodable

put-Models_example :
    (db : Store) × (Db.put disk tree_indexer key value empty_store ≡ some (ok tt, db))
    × Models disk tree_indexer db (updated nothing (c_str key) (some (c_str value)))
    × (db.next_file_id ≤ empty_store.next_file_id + 2)
unfolding new_db
put-Models_example =
    put-Models disk disk-IsReliable tree_indexer tree_indexer-IsMap nothing key value empty_store
      empty_store-Models refl (omega arith) (omega arith)

-- The store behind that put.
after_put :
    (db : Store) × (Db.put disk tree_indexer key value empty_store ≡ some (ok tt, db))
    × Models disk tree_indexer db one_entry
    × (db.next_file_id ≤ empty_store.next_file_id + 2)
unfolding new_db
after_put =
    put-Models disk disk-IsReliable tree_indexer tree_indexer-IsMap nothing key value empty_store
      empty_store-Models refl (omega arith) (omega arith)

abbrev full_store : Store
full_store = after_put.0

full_store_ids : full_store.next_file_id ≤ 2
unfolding new_db
full_store_ids = after_put.3

get-Models_example :
    Db.get disk tree_indexer key false full_store
    ≡ some (answer (one_entry (c_str key)), full_store)
get-Models_example =
    get-Models disk disk-IsReliable tree_indexer one_entry key full_store refl after_put.2

delete-Models_example :
    (db : Store) × (Db.delete disk tree_indexer key full_store ≡ some (ok tt, db))
    × Models disk tree_indexer db (updated one_entry (c_str key) none)
    × (db.next_file_id ≤ full_store.next_file_id + 2)
delete-Models_example =
    delete-Models disk disk-IsReliable tree_indexer tree_indexer-IsMap one_entry key full_store
      after_put.2 refl (omega arith) (omega (arith, full_store_ids))

abbrev calls : List Call
calls =
    put_call key value
    ∷ put_call key (b'w' ∷ [])
    ∷ put_call (b'j' ∷ []) value
    ∷ delete_call (b'j' ∷ [])
    ∷ []

get-perform_all_example :
    (db : Store) × (perform_all disk tree_indexer calls empty_store ≡ some (ok tt, db))
    × (Db.get disk tree_indexer key false db
        ≡ some (answer (after_calls nothing calls (c_str key)), db))
get-perform_all_example =
    get-perform_all disk tree_indexer disk-IsReliable tree_indexer-IsMap small_files calls key
      ((refl, omega arith), ((refl, omega arith), ((refl, omega arith), ((refl, omega arith), tt))))
      (omega arith) refl

get_after_calls : after_calls nothing calls (c_str key) ≡ some (b'w' ∷ [])
unfolding c_str bytes_eq
get_after_calls = refl

abbrev open_batch : WriteBatch
open_batch = record {
  max_batch_num = 10;
  pending_writes = [];
  committed = false;
  rollbacked = false;
}

-- Two puts that wait for a commit.
abbrev two_puts : Session (TreeMap LogRecordPst)
two_puts = record {
  batch = record open_batch {
    pending_writes = (key, put_record key value) ∷ (b'j' ∷ [], put_record (b'j' ∷ []) value) ∷ [];
  };
  db = empty_store;
}

commit-Models_example :
    (s : Session (TreeMap LogRecordPst)) × (commit disk tree_indexer two_puts ≡ some (ok tt, s))
    × Models disk tree_indexer s.db (after_writes nothing two_puts.batch.pending_writes)
    × (s.batch.committed ≡ true)
    × (s.db.txn_id ≡ two_puts.db.txn_id + 1)
unfolding new_db c_str
commit-Models_example =
    commit-Models disk disk-IsReliable tree_indexer tree_indexer-IsMap two_puts nothing
      empty_store-Models (omega arith) (omega arith)
      ((refl, omega arith), ((refl, omega arith), tt)) (omega arith) (omega arith)
