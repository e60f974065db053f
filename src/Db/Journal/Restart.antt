-- ===== src/Db/Journal/Restart.antt =====
-- DB::Open in bitdb/db.cpp on the directory that DB::Put and DB::Delete have written.
use mathlib.Core.Path.{subst}
use bitdb.Base.{
  ℕ, ◌^◌, ◌≤◌, ◌<◌, ◌≡◌, refl, ap, ◌∙◌, sym, false, Option, none, some, List, [], ◌∷◌, arith,
  Option-cases, inl, inr,
}
use bitdb.Status.{ok}
use bitdb.Bytes.{Bytes, c_str}
use bitdb.Env.{Env, IsReliable}
use bitdb.FileTable.{FileTable, find_entry}
use bitdb.Index.{Indexer, IsMap}
use bitdb.Action.{Action, pure, ◌>>◌}
use bitdb.Db.{Db, Options, new_db}
use bitdb.Db.Invariant.{Agrees}
use bitdb.Db.History.{new_db-Models}
use bitdb.Db.Refine.{with_index}
use bitdb.Db.Load.{
  Loading, load_data_files, open_files, opened, load_index_from_data_files,
  load_index_from_hint_file,
}
use bitdb.Db.Open.{open_directory}
use bitdb.Db.Load.Replay.{Entry, log_bytes}
use bitdb.Db.Journal.{FileLog, Journal, logs, Hold, IsJournal, replay_all}
use bitdb.Db.Journal.Files.{Ascending-init}
use bitdb.Db.Journal.Replays.{IsDurable}
use bitdb.Db.Journal.Open.{All-IsFound}
use bitdb.Db.Journal.Reopen.{
  files_on_disk, files_on_disk-IsJournal, reopened, reopened-IsDurable, opened_db,
  data_files_loaded, at_start, index_loaded,
}

Hold-none : (env : Env) (t : FileTable) → Hold env t [] → t ≡ []
Hold-none env [] h = refl
Hold-none env (x ∷ t) h = absurd h

Agrees-none :
    {Index : Type 0} (env : Env) (db db' : Db Index) (v : Option Bytes)
    → Agrees env db none v
    → Agrees env db' none v
Agrees-none env db db' none h = h
Agrees-none env db db' (some v) h = h

module _ {Index : Type 0} (env : Env) (ix : Indexer Index) where
  -- DB::Open without `merge_after_open`, after the process has ended, on the files it has left, where
  -- no merge has ever run.
  unfoldable pub restart : Options → Action (Db Index) (Unit {0})
  restart options db =
      (open_directory env ix false (files_on_disk db) none none >> pure tt) (new_db ix options)

  module _ (reliable : IsReliable env) (lawful : IsMap ix) where
    restart-files :
        (options : Options) (m : Bytes → Option Bytes) (db : Db Index) (olds : List FileLog)
        (fid : ℕ) (es : List Entry) (durable : IsDurable env ix options m db)
        → durable.journal ≡ record { olds = olds; last = some (fid, es) }
        → options.data_file_size < 2 ^ 64
        → db.next_file_id < 2 ^ 32
        → (db' : Db Index) × (restart options db ≡ some (ok tt, db'))
          × IsDurable env ix options m db'
          × (db'.next_file_id ≤ db.next_file_id)
    unfolding restart open_directory load_index_from_hint_file opened_db new_db with_index
    restart-files options m db olds fid es durable is_journal short room =
        let last : Journal = record { olds = olds; last = some (fid, es) } in
        let j : IsJournal env db last =
          subst (λ j. IsJournal env db j) is_journal durable.written in
        let (up, under) = Ascending-init 0 db.next_file_id fid olds es j.ascending in
        let (t, files, hold) = data_files_loaded env ix options olds fid es up in
        let dbo = opened_db env ix options t fid es in
        let (s', run, got) = durable.replays (at_start env ix dbo) (λ k. lawful.get-new k) in
        let run1 =
          subst
            (λ (j : Journal). replay_all env ix (logs j) (at_start env ix dbo) ≡ some (ok tt, s'))
            is_journal run in
        let found =
          All-IsFound env ix olds fid es dbo (opened fid (log_bytes env es)) refl refl refl hold
            up in
        let loaded =
          index_loaded env ix reliable lawful options olds fid es dbo s' found
            (rw (sym durable.same_options) j.files) short refl run1 in
        let (result, ids) =
          reopened-IsDurable env ix options m db (new_db ix options) t olds fid es s'.db.index
            s'.current_txn_id durable is_journal hold room refl refl got in
        (
          reopened env (new_db ix options) t fid es s'.db.index s'.current_txn_id,
          rw (files_on_disk-IsJournal env db olds (fid, es) j, files, loaded) refl,
          result,
          ids,
        )

    restart-nothing :
        (options : Options) (m : Bytes → Option Bytes) (db : Db Index)
        (durable : IsDurable env ix options m db)
        → durable.journal.last ≡ none
        → (restart options db ≡ some (ok tt, new_db ix options))
          × IsDurable env ix options m (new_db ix options)
    unfolding restart files_on_disk open_directory load_index_from_hint_file load_data_files
        open_files load_index_from_data_files new_db find_entry replay_all
    restart-nothing options m db durable nothing =
        let j = durable.written in
        let no_olds = j.active_last nothing in
        let hold : Hold env db.older_files [] = rw (sym no_olds) j.older in
        let no_active : db.active_file ≡ none = ground (arith, nothing, j.active) in
        let no_logs : logs durable.journal ≡ [] = rw (nothing, no_olds) refl in
        let start = at_start env ix (new_db ix options) in
        let (s', run, got) = durable.replays start (λ k. lawful.get-new k) in
        let run1 : replay_all env ix [] start ≡ some (ok tt, s') = rw no_logs at run in
        let same : start ≡ s' = ground (arith, run1) in
        let gone : (k : Bytes) → ix.get db.index k ≡ none = λ k.
          sym (got k)
          ∙ ap (λ (s : Loading Index). ix.get s.db.index k) (sym same)
          ∙ lawful.get-new k in
        let no_older : db.older_files ≡ [] = Hold-none env db.older_files hold in
        (
          rw (no_active, no_older) refl,
          record {
            models = record {
              valid = (new_db-Models env ix lawful options).valid;
              entries = λ k. rw (lawful.get-new k) (
                  Agrees-none env db (new_db ix options) (m (c_str k))
                    (rw (gone k) at (durable.models.entries k)));
            };
            journal = record { olds = []; last = none };
            written = record {
              older = tt;
              active = refl;
              active_last = λ h. refl;
              ascending = omega arith;
              files = tt;
            };
            replays = λ s fresh. (s, refl, λ k. fresh k ∙ sym (lawful.get-new k));
            same_options = refl;
            idle = refl;
          },
        )

    pub restart-IsDurable :
        (options : Options) (m : Bytes → Option Bytes) (db : Db Index)
        → IsDurable env ix options m db
        → options.data_file_size < 2 ^ 64
        → db.next_file_id < 2 ^ 32
        → (db' : Db Index) × (restart options db ≡ some (ok tt, db'))
          × IsDurable env ix options m db'
          × (db'.next_file_id ≤ db.next_file_id)
    unfolding new_db
    restart-IsDurable options m db durable short room = elim (Option-cases durable.journal.last) [
      | inl nothing ↦
          let (run, result) = restart-nothing options m db durable nothing in
          (new_db ix options, run, result, omega arith)
      | inr ((fid, es), e) ↦
          let whole : durable.journal
              ≡ record { olds = durable.journal.olds; last = some (fid, es) } =
            ap (λ l. record { olds = durable.journal.olds; last = l }) e in
          restart-files options m db durable.journal.olds fid es durable whole short room
    ]
