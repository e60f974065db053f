-- ===== src/Db/Open.antt =====
-- bitdb/db.cpp: DB::Open, behind the check of the options and LoadMergenceFiles (Db/Merge/Mergence).
use bitdb.Base.{ℕ, ◌≡◌, refl, Bool, true, false, Option, none, some, List, [], if◌then◌else◌}
use bitdb.Status.{ok}
use bitdb.Bytes.{Bytes}
use bitdb.Env.{Env}
use bitdb.Index.{Indexer}
use bitdb.Action.{Action, pure, modify, ◌>>◌}
use bitdb.Db.{Db, Options, new_db}
use bitdb.Db.Load.{
  load_data_files, open_files, file_ids, load_index_from_hint_file, load_index_from_data_files,
}
use bitdb.Db.Merge.{Merged, merge}

module _ {Index : Type 0} (env : Env) (ix : Indexer Index) where
  -- DB::Open on a directory with these data files, where LoadMergenceFiles has moved what it moves;
  -- `merge_after_open` is true where a caller does not say otherwise. The result is what a merge
  -- leaves in its directory.
  unfoldable pub open_directory :
      Bool → List (ℕ × Bytes) → Option ℕ → Option Bytes → Action (Db Index) (Option (Merged Index))
  open_directory merge_after_open files merged hints = do
    modify (load_data_files files)
    load_index_from_hint_file env ix hints
    load_index_from_data_files env ix merged (file_ids files)
    if merge_after_open then merge env ix else pure none

  -- An empty directory opens as a new database, with a merge or without.
  pub open_directory-empty :
      (merge_after_open : Bool) (options : Options)
      → open_directory merge_after_open [] none none (new_db ix options)
        ≡ some (ok none, new_db ix options)
  unfolding open_directory load_data_files open_files load_index_from_hint_file
      load_index_from_data_files merge new_db
  open_directory-empty true options = refl
  open_directory-empty false options = refl
