-- ===== src/Db/Merge/Crash/Files.antt =====
-- bitdb/db.cpp: the files that DB::Merge goes through.
use bitdb.Base.{ℕ, ◌≡◌, refl, none, some, List, [], ◌∷◌, All, Bool-cases, leb, inl, inr}
use bitdb.Env.{Env}
use bitdb.DataFile.{DataFile}
use bitdb.FileTable.{FileTable}
use bitdb.Db.Load.Replay.{Entry, log_bytes}
use bitdb.Db.Journal.{FileLog, Hold, IsLogFile}
use bitdb.Db.Merge.{files_to_be_merged, insert_file}

module _ (env : Env) where
  -- A file that has the bytes of a log.
  abbrev pub IsLog : ℕ → DataFile → Type 0
  IsLog size f =
      (es : List Entry) × (f.contents ≡ log_bytes env es) × IsLogFile env size (f.file_id, es)

  insert_file-All :
      (size : ℕ) (f : DataFile) (fs : List DataFile)
      → IsLog size f
      → All (IsLog size) fs
      → All (IsLog size) (insert_file f fs)
  unfolding insert_file
  insert_file-All size f [] log all = (log, tt)
  insert_file-All size f (g ∷ fs) log (first, rest) = elim (Bool-cases (leb f.file_id g.file_id)) [
    | inl before ↦ rw before (log, (first, rest))
    | inr behind ↦ rw behind (first, insert_file-All size f fs log rest)
  ]

  pub files_of_Hold :
      (size : ℕ) (t : FileTable) (ls : List FileLog)
      → Hold env t ls
      → All (IsLogFile env size) ls
      → (fs : List DataFile) × (files_to_be_merged t ≡ some fs) × All (IsLog size) fs
  unfolding files_to_be_merged
  files_of_Hold size [] ls hold files = ([], refl, tt)
  files_of_Hold size (x ∷ t) [] hold files = absurd hold
  files_of_Hold size ((id, none) ∷ t) (l ∷ ls) hold files = absurd hold
  files_of_Hold size ((id, some f) ∷ t) ((fid, es) ∷ ls) (same_id, same, hold) (file, files) =
      let (fs, run, all) = files_of_Hold size t ls hold files in
      let log : IsLogFile env size (f.file_id, es) = record {
        loggable = file.loggable;
        some_bytes = file.some_bytes;
        fits = file.fits;
      } in
      (insert_file f fs, rw run refl, insert_file-All size f fs (es, same, log) all)
