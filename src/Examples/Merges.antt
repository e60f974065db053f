-- ===== src/Examples/Merges.antt =====
-- Merging at concrete inputs.
use bitdb.Base.{
  ◌≡◌, refl, arith, Bool, Option, none, some, List, [], ◌∷◌, false, ◌++◌, if◌then◌else◌, not, ◌||◌,
}
use bitdb.Status.{ok, err, check_error}
use bitdb.Bytes.{Bytes}
use bitdb.Record.{LogRecordPst, encode_log_record}
use bitdb.TreeMap.{TreeMap}
use bitdb.Index.TreeIndexer.{tree_indexer, tree_indexer-IsMap}
use bitdb.Db.{Db, Options, new_db}
use bitdb.Db.History.{put_call, delete_call}
use bitdb.Db.Durability.{
  Event, called, perform_events, after_events, perform_events-IsDurable, new_db-IsDurable,
}
use bitdb.Db.Merge.{merge, merge_log_record}
use bitdb.Db.Merge.Crash.{merge_of_nothing, merge_outcome_of_nothing}
use bitdb.Db.Merge.Mergence.{
  FileName, dot, dot_dot, hint_index, merged, data_file, Directory, same_name, lookup, Disk,
  load_mergence_files,
}
use bitdb.Db.Merge.Mergence.Loss.{moved, is_merged_file, load_mergence_files_loses}
use bitdb.Db.Journal.Replays.{IsDurable}
use bitdb.Examples.World.{disk, disk-IsReliable}

abbrev options : Options
options = record { data_file_size = 64; is_sync_write = false }

abbrev key : Bytes
key = b'k' ∷ []

abbrev events : List Event
events = called (put_call key (b'v' ∷ [])) ∷ called (delete_call key) ∷ []

abbrev emptied : Bytes → Option Bytes
emptied = after_events (λ k. none) events

emptied_lem : (k : Bytes) → emptied k ≡ none
emptied_lem k = ground arith

-- The database behind these calls.
left :
    (db : Db (TreeMap LogRecordPst)) × (perform_events disk tree_indexer options events
        (new_db tree_indexer options)
      ≡ some (ok tt, db))
    × IsDurable disk tree_indexer options emptied db
unfolding new_db
left =
    perform_events-IsDurable disk tree_indexer disk-IsReliable tree_indexer-IsMap options events
      (λ k. none) (new_db tree_indexer options)
      (new_db-IsDurable disk tree_indexer disk-IsReliable tree_indexer-IsMap options)
      (((refl, omega arith), omega arith), (((refl, omega arith), omega arith), tt)) (omega arith)
      (omega arith)

merge_of_nothing_example :
    merge disk tree_indexer left.0
    ≡ merge_outcome_of_nothing disk tree_indexer disk-IsReliable left.0
merge_of_nothing_example =
    merge_of_nothing disk tree_indexer disk-IsReliable options emptied left.0 left.2 (omega arith)
      emptied_lem

abbrev renames : FileName → Bool
renames name = not (same_name dot name || same_name dot_dot name)

abbrev before : Directory
before = (merged, encode_log_record disk (merge_log_record 1)) ∷ (data_file 0, 3 ∷ []) ∷ []

abbrev after : Directory
after = (dot_dot, []) ∷ (hint_index, 4 ∷ []) ∷ []

abbrev merged_disk : Disk
merged_disk = record {
  data_dir = (data_file 0, 1 ∷ []) ∷ (data_file 1, 2 ∷ []) ∷ [];
  merge_dir = some (before ++ ((dot, []) ∷ after));
}

load_mergence_files_loses_example :
    (left : Disk) × (load_mergence_files disk renames merged_disk ≡ some (err check_error, left))
    × (left.merge_dir ≡ none)
    × ((name : FileName)
        → lookup name left.data_dir
          ≡ moved before name
              (if is_merged_file 1 name then none else lookup name merged_disk.data_dir))
unfolding lookup
load_mergence_files_loses_example =
    load_mergence_files_loses disk disk-IsReliable renames merged_disk before after 1 refl refl
      (omega arith) (λ i h. (1 ∷ [], ground (arith, h))) refl (refl, (refl, tt))
