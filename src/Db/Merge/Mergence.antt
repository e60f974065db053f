-- ===== src/Db/Merge/Mergence.antt =====
-- bitdb/db.cpp: DB::LoadMergenceFiles, which DB::Open calls first. Directories are lists of names with
-- what their files hold, in the order of readdir(3). `none` is the end of the process too, which
-- RemoveFile chooses where there is no file.
pub mod Loss
use bitdb.Base.{
  ℕ, zero, suc, ◌+◌, Bool, true, false, ◌||◌, Option, none, some, List, [], ◌∷◌, ltb, ◌==◌,
  if◌then◌else◌,
}
use bitdb.Status.{Outcome, Fallible, ok, err, defined, check_error, ◌>>=◌}
use bitdb.Bytes.{Bytes}
use bitdb.Env.{Env}
use bitdb.DataFile.{read_log_record}
use bitdb.Action.{Action}
use bitdb.Db.Merge.{stoi}

-- The names in a directory: `.` and `..`, the data files by their ids, the hint file, and the file
-- that says that a merge has finished.
pub data FileName : Type 0 where
  dot dot_dot hint_index merged : FileName
  data_file : ℕ → FileName

abbrev pub Directory : Type 0
Directory = List (FileName × Bytes)

-- The names are told apart by a number.
abbrev pub code : FileName → ℕ
code dot = 0
code dot_dot = 1
code hint_index = 2
code merged = 3
code (data_file i) = 4 + i

abbrev pub same_name : FileName → FileName → Bool
same_name a b = code a == code b

unfoldable pub lookup : FileName → Directory → Option Bytes
lookup name [] = none
lookup name ((n, contents) ∷ d) =
    let rest = lookup name d in if same_name n name then some contents else rest

unfoldable pub unlink : FileName → Directory → Directory
unlink name [] = []
unlink name ((n, contents) ∷ d) =
    let rest = unlink name d in if same_name n name then rest else (n, contents) ∷ rest

-- The data directory, and the merge directory if there is one.
pub record Disk : Type 0 where
  pub data_dir : Directory
  pub merge_dir : Option Directory

-- RemoveFile
unfoldable pub remove_file : FileName → Directory → Option Directory
remove_file name d = elim (lookup name d) [ none ↦ none | some contents ↦ some (unlink name d) ]

-- The data files with ids below `non_merged_file_id`
unfoldable pub remove_merged : ℕ → Directory → Option Directory
remove_merged zero d = some d
remove_merged (suc file_id) d = elim (remove_merged file_id d) [
  | none ↦ none
  | some rest ↦ remove_file (data_file file_id) rest
]

-- `strcmp(dp->d_name, K_MERGED_FILE_NAME) == 0` for one of the names
unfoldable pub mergence_finished : Directory → Bool
mergence_finished [] = false
mergence_finished ((n, contents) ∷ d) = let rest = mergence_finished d in same_name n merged || rest

abbrev opened_contents : Option Bytes → Bytes
opened_contents none = []
opened_contents (some contents) = contents

-- DB::GetNonMergedFileID
unfoldable pub get_non_merged_file_id : Env → Directory → Fallible ℕ
get_non_merged_file_id env directory = do
  (log_record, sz) ← read_log_record env (opened_contents (lookup merged directory)) 0
  defined (stoi log_record.value)

-- The loop over the names; `renames` says for which names rename(2) succeeds.
unfoldable pub move_all : (FileName → Bool) → Directory → Directory → Outcome (Unit {0}) × Directory
move_all renames [] d = (ok tt, d)
move_all renames ((n, contents) ∷ names) d =
    let rest = move_all renames names ((n, contents) ∷ unlink n d) in
    if renames n then rest else (err check_error, d)

-- Behind the `defer`, the merge directory is gone.
abbrev done : Outcome (Unit {0}) × Directory → Option (Outcome (Unit {0}) × Disk)
done (result, d) = some (result, record { data_dir = d; merge_dir = none })

unfoldable pub move_merged :
    (FileName → Bool) → Directory → Directory → Fallible ℕ → Option (Outcome (Unit {0}) × Disk)
move_merged renames names d none = none
move_merged renames names d (some (err code)) = done (err code, d)
move_merged renames names d (some (ok non_merged_file_id)) =
    elim (remove_merged non_merged_file_id d) [
      | none ↦ none
      | some rest ↦ done (move_all renames names rest)
    ]

-- DB::LoadMergenceFiles
unfoldable pub load_mergence_files : Env → (FileName → Bool) → Action Disk (Unit {0})
load_mergence_files env renames disk = elim disk.merge_dir [
  | none ↦ some (ok tt, disk)
  | some names ↦
      if mergence_finished names
      then move_merged renames names disk.data_dir (get_non_merged_file_id env names)
      else done (ok tt, disk.data_dir)
]
