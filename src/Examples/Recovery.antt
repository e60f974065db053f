-- ===== src/Examples/Recovery.antt =====
-- Loading the index at concrete inputs.
use bitdb.Base.{◌%◌, ◌^◌, ◌≡◌, refl, arith, some, List, [], ◌∷◌, ◌++◌, length, suc, inl, inr, true}
use bitdb.Status.{ok}
use bitdb.Bytes.{bytes_eq, c_str}
use bitdb.Record.{
  LogRecordPst, normal_log_record, deleted_log_record, encode_log_record, checked_part, header_tail,
}
use bitdb.Coding.{encode_varint64, encode_varint32, encode_fixed32}
use bitdb.TreeMap.{TreeMap}
use bitdb.Index.TreeIndexer.{tree_indexer, tree_indexer-IsMap}
use bitdb.Action.{pure, ◌>>=◌}
use bitdb.Db.{new_db}
use bitdb.Db.Load.{Loading, load_records}
use bitdb.Db.Load.Replay.{Entry, IsLoggable, log_bytes, replay, load_file-replay}
use bitdb.Db.Load.Transactions.{finish, pendings, overlay, replay_finished}
use bitdb.Db.Merge.{Merging, merge_file}
use bitdb.Db.Merge.Crash.{merge_entries, merge_file-merge_entries}
use bitdb.Examples.World.{disk, disk-IsReliable}

abbrev first : Entry
first = record { key = b'k' ∷ []; txn_id = 7; value = b'v' ∷ []; type = normal_log_record }

abbrev second : Entry
second = record { key = b'j' ∷ []; txn_id = 7; value = b'w' ∷ []; type = normal_log_record }

abbrev entries : List Entry
entries = first ∷ second ∷ []

abbrev start : Loading (TreeMap LogRecordPst)
start = record {
  db = new_db tree_indexer (record { data_file_size = 64; is_sync_write = true });
  txn_records = λ id. [];
  current_txn_id = 0;
}

code_of_seven : encode_varint64 7 ≡ 7 ∷ []
unfolding encode_varint64
code_of_seven = refl

first-IsLoggable : IsLoggable first
first-IsLoggable = record {
  encodable = record {
    keyed = rw code_of_seven refl;
    fits = rw code_of_seven (omega arith);
    byte_type = omega arith;
  };
  small_id = omega arith;
}

second-IsLoggable : IsLoggable second
second-IsLoggable = record {
  encodable = record {
    keyed = rw code_of_seven refl;
    fits = rw code_of_seven (omega arith);
    byte_type = omega arith;
  };
  small_id = omega arith;
}

size_of_log : length (log_bytes disk entries) ≡ 20
unfolding log_bytes encode_log_record checked_part header_tail encode_varint32 encode_varint64
    encode_fixed32
size_of_log = refl

load_file-replay_example :
    load_records disk tree_indexer
      (suc (length (log_bytes disk entries)))
      1
      (log_bytes disk entries)
      0
      start
    ≡ (replay disk tree_indexer 1 0 entries >>= λ done. pure (length (log_bytes disk entries)))
        start
load_file-replay_example =
    load_file-replay disk tree_indexer disk-IsReliable entries 1 start
      (first-IsLoggable, (second-IsLoggable, tt)) (omega (arith, size_of_log))
      (omega (arith, size_of_log))

-- The transaction takes its first key back.
abbrev third : Entry
third = record { key = b'k' ∷ []; txn_id = 7; value = []; type = deleted_log_record }

abbrev writes : List Entry
writes = first ∷ second ∷ third ∷ []

replay_finished_example :
    (s : Loading (TreeMap LogRecordPst)) × (replay disk tree_indexer 1 0
        (writes ++ (finish 7 ∷ []))
        start
      ≡ some (ok tt, s))
    × (tree_indexer.get s.db.index
        ≡ overlay (pendings disk 1 0 writes) (tree_indexer.get start.db.index))
    × (s.txn_records (7 % 2 ^ 32) ≡ [])
unfolding bytes_eq c_str
replay_finished_example =
    replay_finished disk tree_indexer tree_indexer-IsMap writes 7 1 0 start (omega arith)
      ((refl, inl refl), ((refl, inl refl), ((refl, inr refl), tt))) refl
      (inl (omega arith), (inl (omega arith), (inr refl, tt)))

abbrev merging : Merging (TreeMap LogRecordPst)
merging = record {
  db = start.db;
  temp_db = start.db;
  hint_file = record { file_id = 0; write_off = 0; contents = [] };
}

merge_file-merge_entries_example :
    merge_file disk tree_indexer
      (suc (length (log_bytes disk entries)))
      1
      (log_bytes disk entries)
      0
      merging
    ≡ merge_entries disk tree_indexer 1 0 entries merging
merge_file-merge_entries_example =
    merge_file-merge_entries disk tree_indexer disk-IsReliable entries 1 merging
      (first-IsLoggable, (second-IsLoggable, tt)) (omega (arith, size_of_log))
      (omega (arith, size_of_log))
