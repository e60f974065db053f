-- ===== src/Db/Journal/Reopen.antt =====
-- DB::Open in bitdb/db.cpp on the directory that a database has written: the database it leaves.
use mathlib.Core.List.{append-nil}
use mathlib.Core.Path.{subst}
use bitdb.Base.{
  false, ℕ, suc, ◌+◌, ◌%◌, ◌^◌, ◌≤◌, ◌<◌, ◌≡◌, refl, ap, ◌∙◌, sym, Option, none, some, List, [],
  ◌∷◌, ◌++◌, length, arith, All, ◌==◌, inl, inr, Bool-cases,
}
use bitdb.Status.{ok}
use bitdb.Bytes.{Bytes, c_str}
use bitdb.Env.{Env, IsReliable}
use bitdb.DataFile.{DataFile}
use bitdb.FileTable.{FileTable, find_entry}
use bitdb.Txn.{k_non_txn_id}
use bitdb.Index.{Indexer, IsMap}
use bitdb.Db.{Db, Options, new_db}
use bitdb.Db.Invariant.{IsValid, AllGrown, Agrees-AllGrown}
use bitdb.Db.Load.{
  Loading, load_data_files, load_files, finish_loading, load_index_from_data_files, set_write_off,
  file_ids, opened,
}
use bitdb.Db.Load.Replay.{Entry, log_bytes}
use bitdb.Db.Journal.{
  FileLog, Journal, logs, Hold, Ascending, IsJournal, IsLogFile, replay_all, file_of_log,
}
use bitdb.Db.Journal.Files.{Ascending-init, Ascending-append, find_entry-high, find_entry-same}
use bitdb.Db.Journal.Replays.{IsDurable, Replays}
use bitdb.Db.Journal.Open.{
  directory, open_files-directory, IsFound, replay_all-Framed, load_files-replay_all,
}
use bitdb.Db.Refine.{with_index}

-- The older files of a database, with their ids.
abbrev older_on_disk : FileTable → List (ℕ × Bytes)
older_on_disk [] = []
older_on_disk ((id, none) ∷ t) = older_on_disk t
older_on_disk ((id, some f) ∷ t) = (id, f.contents) ∷ older_on_disk t

abbrev active_on_disk : Option DataFile → List (ℕ × Bytes)
active_on_disk none = []
active_on_disk (some f) = (f.file_id, f.contents) ∷ []

module _ {Index : Type 0} where
  -- The data files that a database leaves in its directory, with their ids.
  unfoldable pub files_on_disk : Db Index → List (ℕ × Bytes)
  files_on_disk db = older_on_disk db.older_files ++ active_on_disk db.active_file

module _ (env : Env) where
  older_on_disk-Hold :
      (t : FileTable) (ls : List FileLog) → Hold env t ls → older_on_disk t ≡ directory env ls
  older_on_disk-Hold [] [] hold = refl
  older_on_disk-Hold [] (l ∷ ls) hold = absurd hold
  older_on_disk-Hold (x ∷ t) [] hold = absurd hold
  older_on_disk-Hold ((id, none) ∷ t) (l ∷ ls) hold = absurd hold
  older_on_disk-Hold ((id, some f) ∷ t) ((fid, es) ∷ ls) (same_id, same, hold) =
      rw (same_id, same, older_on_disk-Hold t ls hold) refl

  directory-append :
      (ls ms : List FileLog) → directory env (ls ++ ms) ≡ directory env ls ++ directory env ms
  directory-append [] ms = refl
  directory-append ((fid, es) ∷ ls) ms =
      ap (λ t. (fid, log_bytes env es) ∷ t) (directory-append ls ms)

  module _ {Index : Type 0} where
    pub files_on_disk-IsJournal :
        (db : Db Index) (olds : List FileLog) (l : FileLog)
        → IsJournal env db (record { olds = olds; last = some l })
        → files_on_disk db ≡ directory env (olds ++ (l ∷ []))
    unfolding files_on_disk
    files_on_disk-IsJournal db olds (fid, es) j =
        rw
          (
            j.active,
            older_on_disk-Hold db.older_files olds j.older,
            directory-append olds ((fid, es) ∷ []),
          )
          refl

    -- The database that was opened, once its index is loaded.
    abbrev pub reopened : Db Index → FileTable → ℕ → List Entry → Index → ℕ → Db Index
    reopened db t fid es index txn_id = record db {
      active_file = some (file_of_log env (fid, es));
      older_files = t;
      index = index;
      next_file_id = (fid + 1) % 2 ^ 32;
      txn_id = txn_id;
    }

    reopened-IsValid :
        (db : Db Index) (t : FileTable) (olds : List FileLog) (fid : ℕ) (es : List Entry)
        (i : Index) (txn_id : ℕ)
        → Hold env t olds
        → Ascending 0 fid olds
        → fid + 1 < 2 ^ 32
        → IsValid (reopened db t fid es i txn_id)
    reopened-IsValid db t olds fid es i txn_id hold up small = record {
      at_end = λ f e. ground (arith, e);
      active_below = λ f e. ground (arith, e);
      active_apart = λ f e. find_entry-high env t olds 0 fid f.file_id hold up (ground (arith, e));
      fresh = λ k above. find_entry-high env t olds 0 fid k hold up (omega arith);
    }

    reopened-AllGrown :
        (db db0 : Db Index) (t : FileTable) (olds : List FileLog) (fid : ℕ) (es : List Entry)
        (i : Index) (txn_id : ℕ)
        → IsJournal env db (record { olds = olds; last = some (fid, es) })
        → Hold env t olds
        → AllGrown db (reopened db0 t fid es i txn_id)
    reopened-AllGrown db db0 t olds fid es i txn_id j hold g f at_f = elim (Bool-cases (g == fid)) [
      | inl same ↦
          let here : f ≡ file_of_log env (fid, es) = ground (arith, j.active, at_f, same) in
          (
            file_of_log env (fid, es),
            [],
            ground arith,
            rw here (sym (append-nil (log_bytes env es))),
          )
      | inr other ↦
          let found : find_entry g db.older_files ≡ some (some f) =
            ground (arith, j.active, at_f, other) in
          let (h, at_h, same) = find_entry-same env db.older_files t olds g f j.older hold found in
          (h, [], ground (arith, at_h, other), same ∙ sym (append-nil f.contents))
    ]

    module _ (ix : Indexer Index) where
      pub reopened-IsDurable :
          (options : Options) (m : Bytes → Option Bytes) (db db0 : Db Index) (t : FileTable)
          (olds : List FileLog) (fid : ℕ) (es : List Entry) (i : Index) (txn_id : ℕ)
          (durable : IsDurable env ix options m db)
          → durable.journal ≡ record { olds = olds; last = some (fid, es) }
          → Hold env t olds
          → db.next_file_id < 2 ^ 32
          → db0.options ≡ options
          → db0.is_merging ≡ false
          → ((k : Bytes) → ix.get i k ≡ ix.get db.index k)
          → IsDurable env ix options m (reopened db0 t fid es i txn_id)
            × ((fid + 1) % 2 ^ 32 ≤ db.next_file_id)
      reopened-IsDurable options m db db0 t olds fid es i txn_id durable is_journal hold room
            same_options idle same =
          let last : Journal = record { olds = olds; last = some (fid, es) } in
          let j : IsJournal env db last =
            subst (λ j. IsJournal env db j) is_journal durable.written in
          let (up, under) = Ascending-init 0 db.next_file_id fid olds es j.ascending in
          let next : (fid + 1) % 2 ^ 32 ≡ suc fid = omega arith in
          let replays : Replays env ix (logs last) (λ k. ix.get db.index k) =
            subst (λ j. Replays env ix (logs j) (λ k. ix.get db.index k)) is_journal
              durable.replays in
          let grown = reopened-AllGrown db db0 t olds fid es i txn_id j hold in
          (
            record {
              models = record {
                valid = reopened-IsValid db0 t olds fid es i txn_id hold up (omega arith);
                entries = λ k. rw (same k) (
                    Agrees-AllGrown env db (reopened db0 t fid es i txn_id) grown refl
                      (ix.get db.index k) (m (c_str k)) (durable.models.entries k));
              };
              journal = last;
              written = record {
                older = hold;
                active = refl;
                active_last = λ h. absurd (ground arith);
                ascending = rw next (Ascending-append 0 fid olds es up);
                files = rw (same_options ∙ sym durable.same_options) j.files;
              };
              replays = λ s fresh.
                  let (s1, run, got) = replays s fresh in (s1, run, λ k. got k ∙ sym (same k));
              same_options = same_options;
              idle = idle;
            },
            omega arith,
          )

    module _ (ix : Indexer Index) where
      -- DB::Open on the files of a journal, as the loops of Open find them.
      unfoldable pub opened_db : Options → FileTable → ℕ → List Entry → Db Index
      opened_db options t fid es = record (new_db ix options) {
        active_file = some (opened fid (log_bytes env es));
        older_files = t;
        next_file_id = (fid + 1) % 2 ^ 32;
      }

      pub data_files_loaded :
          (options : Options) (olds : List FileLog) (fid : ℕ) (es : List Entry)
          → Ascending 0 fid olds
          → (t : FileTable) × (load_data_files
                (directory env (olds ++ ((fid, es) ∷ [])))
                (new_db ix options)
              ≡ opened_db options t fid es)
            × Hold env t olds
      unfolding load_data_files new_db find_entry opened_db
      data_files_loaded options olds fid es up =
          let (t, run, hold) =
            open_files-directory env olds [] 0 fid es (new_db ix options) tt (λ i h. refl) up in
          (t, rw run refl, hold)

      abbrev pub at_start : Db Index → Loading Index
      at_start db = record { db = db; txn_records = λ id. []; current_txn_id = k_non_txn_id }

      load_index_of_some :
          (olds : List FileLog) (l : FileLog) (db : Db Index)
          → load_index_from_data_files env ix none (file_ids (directory env (olds ++ (l ∷ [])))) db
            ≡ finish_loading
                (load_files env ix none (file_ids (directory env (olds ++ (l ∷ [])))) (at_start db))
      unfolding load_index_from_data_files
      load_index_of_some [] l db = refl
      load_index_of_some (k ∷ olds) l db = refl

      module _ (reliable : IsReliable env) (lawful : IsMap ix) where
        pub index_loaded :
            (options : Options) (olds : List FileLog) (fid : ℕ) (es : List Entry) (db : Db Index)
            (s' : Loading Index)
            → All (IsFound env ix db) (olds ++ ((fid, es) ∷ []))
            → All (IsLogFile env options.data_file_size) (olds ++ ((fid, es) ∷ []))
            → options.data_file_size < 2 ^ 64
            → db.active_file ≡ some (opened fid (log_bytes env es))
            → replay_all env ix (olds ++ ((fid, es) ∷ [])) (at_start db) ≡ some (ok tt, s')
            → load_index_from_data_files env ix none
                (file_ids (directory env (olds ++ ((fid, es) ∷ []))))
                db
              ≡ some (
                ok tt,
                record db {
                  active_file = some (file_of_log env (fid, es));
                  index = s'.db.index;
                  txn_id = s'.current_txn_id;
                },
              )
        unfolding set_write_off with_index
        index_loaded options olds fid es db s' found files short active run =
            let l : FileLog = (fid, es) in
            let framed = replay_all-Framed env ix (olds ++ (l ∷ [])) (at_start db) s' run in
            let done : Db Index = record (with_index db s'.db.index) {
              active_file = some (file_of_log env l);
            } in
            let at_end : set_write_off (length (log_bytes env es)) s'.db ≡ some done =
              rw (framed, active) refl in
            let loaded =
              load_files-replay_all env ix reliable options.data_file_size short olds l
                (at_start db) s' done found files run at_end in
            rw (load_index_of_some olds l db, loaded) refl
