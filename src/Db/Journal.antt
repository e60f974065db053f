-- ===== src/Db/Journal.antt =====
-- bitdb/db.cpp: the data files of a database as lists of entries, and what LoadIndexFromDataFiles
-- makes of all of them, one after the other.
pub mod Files
pub mod Written
pub mod Append
pub mod Replays
pub mod Calls
pub mod Frame
pub mod Open
pub mod Reopen
pub mod Restart
use bitdb.Base.{
  ℕ, suc, ◌+◌, ◌≤◌, ◌<◌, ◌≡◌, refl, ◌∙◌, sym, Option, none, some, List, [], ◌∷◌, ◌++◌, length,
  arith, All,
}
use bitdb.Status.{ok}
use bitdb.Env.{Env}
use bitdb.Record.{LogRecordPst}
use bitdb.DataFile.{DataFile}
use bitdb.FileTable.{FileTable}
use bitdb.Index.{Indexer}
use bitdb.Action.{Action, pure, bind_congr, bind_assoc, bind-eq-ok, ◌>>=◌, ◌>>◌}
use bitdb.Db.{Db}
use bitdb.Db.Load.{Loading, load_record, see_txn_id}
use bitdb.Db.Load.Replay.{Entry, record_of, IsLoggable, log_bytes, replay, replay_append}

-- A data file: its id and its entries.
abbrev pub FileLog : Type 0
FileLog = ℕ × List Entry

-- The retired files and the active one.
pub record Journal : Type 0 where
  pub olds : List FileLog
  pub last : Option FileLog

abbrev pub as_list : Option FileLog → List FileLog
as_list none = []
as_list (some l) = l ∷ []

abbrev pub logs : Journal → List FileLog
logs j = j.olds ++ as_list j.last

-- Ids that rise, all of them at least `low` and below `high`.
abbrev pub Ascending : ℕ → ℕ → List FileLog → Type 0
Ascending low high [] = low ≤ high
Ascending low high ((fid, es) ∷ ls) = (low ≤ fid) × Ascending (suc fid) high ls

module _ (env : Env) where
  abbrev pub file_of_log : FileLog → DataFile
  file_of_log (fid, es) = record {
    file_id = fid;
    write_off = length (log_bytes env es);
    contents = log_bytes env es;
  }

  -- The entries of a table of files; what is written of a retired file is not used any more.
  abbrev pub Hold : FileTable → List FileLog → Type 0
  Hold [] [] = Unit
  Hold [] (l ∷ ls) = ⊥
  Hold (entry ∷ t) [] = ⊥
  Hold ((id, none) ∷ t) (l ∷ ls) = ⊥
  Hold ((id, some f) ∷ t) ((fid, es) ∷ ls) =
      (id ≡ fid) × (f.contents ≡ log_bytes env es) × Hold t ls

  abbrev pub active_of : Option FileLog → Option DataFile
  active_of none = none
  active_of (some l) = some (file_of_log l)

  -- A file that can be loaded: some entries that can be read back, within the size of a data file.
  pub record IsLogFile (size : ℕ) (l : FileLog) : Type 0 where
    pub loggable : All IsLoggable l.1
    pub some_bytes : 0 < length (log_bytes env l.1)
    pub fits : length (log_bytes env l.1) ≤ size

  module _ {Index : Type 0} where
    -- The files of the database hold these entries and nothing else.
    pub record IsJournal (db : Db Index) (j : Journal) : Type 0 where
      pub older : Hold db.older_files j.olds
      pub active : db.active_file ≡ active_of j.last
      pub active_last : j.last ≡ none → j.olds ≡ []
      pub ascending : Ascending 0 db.next_file_id (logs j)
      pub files : All (IsLogFile db.options.data_file_size) (logs j)

    module _ (ix : Indexer Index) where
      -- The entries of the files, one file after the other.
      unfoldable pub replay_all : List FileLog → Action (Loading Index) (Unit {0})
      replay_all [] = pure tt
      replay_all ((fid, es) ∷ ls) = do replay env ix fid 0 es; replay_all ls

      pub replay_all_append :
          (ls ms : List FileLog) (s : Loading Index)
          → replay_all (ls ++ ms) s ≡ (replay_all ls >>= λ done. replay_all ms) s
      unfolding replay_all
      replay_all_append [] ms s = refl
      replay_all_append ((fid, es) ∷ ls) ms s =
          bind_congr (replay env ix fid 0 es) _ _ s (λ done s1. replay_all_append ls ms s1)
          ∙ sym (bind_assoc (replay env ix fid 0 es) _ _ s)

      -- `after` is `before` with one more entry at the position `p`.
      abbrev pub Extends : List FileLog → List FileLog → Entry → LogRecordPst → Type 0
      Extends before after e p =
          (s s1 s2 : Loading Index)
          → replay_all before s ≡ some (ok tt, s1)
          → load_record env ix e.key e.txn_id (record_of e) p s1 ≡ some (ok tt, s2)
          → replay_all after s ≡ some (ok tt, see_txn_id e.txn_id s2)

      -- An entry behind those of the last file.
      pub Extends-same_file :
          (olds : List FileLog) (fid : ℕ) (es : List Entry) (e : Entry)
          → Extends
              (olds ++ ((fid, es) ∷ []))
              (olds ++ ((fid, es ++ (e ∷ [])) ∷ []))
              e
              (record { fid = fid; offset = length (log_bytes env es) })
      unfolding replay_all replay
      Extends-same_file olds fid es e s s1 s2 run step =
          let before = replay_all_append olds ((fid, es) ∷ []) s in
          let after = replay_all_append olds ((fid, es ++ (e ∷ [])) ∷ []) s in
          let (done, s3, first, second) =
            bind-eq-ok (replay_all olds) (λ done. replay_all ((fid, es) ∷ [])) s tt s1
              (sym before ∙ run) in
          let (done2, s4, all, last) =
            bind-eq-ok (replay env ix fid 0 es) (λ done. pure tt) s3 tt s1 second in
          let same : s4 ≡ s1 = cc in
          let here : 0 + length (log_bytes env es) ≡ length (log_bytes env es) = omega arith in
          rw (after, first, replay_append env ix es (e ∷ []) fid 0 s3, all, same, here, step) refl

      -- An entry in a new file.
      pub Extends-new_file :
          (ls : List FileLog) (fid : ℕ) (e : Entry)
          → Extends ls (ls ++ ((fid, e ∷ []) ∷ [])) e (record { fid = fid; offset = 0 })
      unfolding replay_all replay
      Extends-new_file ls fid e s s1 s2 run step =
          rw (replay_all_append ls ((fid, e ∷ []) ∷ []) s, run, step) refl
