-- ===== src/Db/Journal/Open.antt =====
-- DB::LoadDataFiles and DB::LoadIndexFromDataFiles in bitdb/db.cpp on the files that a database has
-- written.
use mathlib.Core.List.{append-nil, append_assoc}
use bitdb.Base.{
  ℕ, suc, ◌^◌, ◌≤◌, ◌<◌, ◌≡◌, refl, ◌∙◌, sym, Bool, true, false, Option, none, some, List, [], ◌∷◌,
  ◌++◌, length, arith, All, All-map, All-append, if◌then◌else◌,
}
use bitdb.Status.{ok}
use bitdb.Bytes.{Bytes}
use bitdb.Env.{Env, IsReliable}
use bitdb.DataFile.{DataFile}
use bitdb.FileTable.{FileTable, find_entry, set_entry, find_entry-set_entry}
use bitdb.Index.{Indexer}
use bitdb.Action.{bind-eq-ok, pure}
use bitdb.Db.{Db}
use bitdb.Db.Refine.{with_index}
use bitdb.Db.Load.{
  Loading, open_files, opened, handle_of, load_file, load_files, file_ids, on_write_off,
  set_write_off, no_more, is_merged,
}
use bitdb.Db.Load.Replay.{Entry, log_bytes, replay, load_file-replay}
use bitdb.Db.Journal.{FileLog, Hold, Ascending, IsLogFile, replay_all}
use bitdb.Db.Journal.Files.{Hold-append, Ascending-le, set_entry-new}
use bitdb.Db.Journal.Frame.{Framed, Framed-trans, replay-Framed}

module _ (env : Env) where
  -- The data files with their ids, as they are found in the directory.
  abbrev pub directory : List FileLog → List (ℕ × Bytes)
  directory [] = []
  directory ((fid, es) ∷ ls) = (fid, log_bytes env es) ∷ directory ls

  -- What the table has of a file with an id in a range.
  abbrev IsEntry : FileTable → ℕ → ℕ → FileLog → Type 0
  IsEntry t low high l =
      (low ≤ l.0)
      × (l.0 < high)
      × ((f : DataFile) × (find_entry l.0 t ≡ some (some f)) × (f.contents ≡ log_bytes env l.1))

  behind :
      (x : ℕ × Option DataFile) (t : FileTable) (low high : ℕ) (l : FileLog)
      → x.0 < low
      → IsEntry t low high l
      → IsEntry (x ∷ t) x.0 high l
  unfolding find_entry
  behind (j, f) t low high l before (from, under, (g, found, same)) =
      (omega arith, under, (g, ground (arith, found), same))

  entries_of :
      (t : FileTable) (ls : List FileLog) (low high : ℕ)
      → Hold env t ls
      → Ascending low high ls
      → All (IsEntry t low high) ls
  unfolding find_entry
  entries_of [] [] low high hold up = tt
  entries_of [] (l ∷ ls) low high hold up = absurd hold
  entries_of (x ∷ t) [] low high hold up = tt
  entries_of ((id, none) ∷ t) (l ∷ ls) low high hold up = absurd hold
  entries_of ((id, some f) ∷ t) ((fid, es) ∷ ls) low high (same_id, same, hold) (from, up) =
      let rest = entries_of t ls (suc fid) high hold up in
      (
        (omega arith, Ascending-le (suc fid) high ls up, (f, ground (arith, same_id), same)),
        All-map ls
            (λ l h.
              let (low1, under, found) =
                behind (id, some f) t (suc fid) high l (omega (arith, same_id)) h in
              (omega (arith, low1, from, same_id), under, found))
            rest,
      )

  module _ {Index : Type 0} where
    open_more :
        (g fid : ℕ) (gs es : List Entry) (ls : List FileLog) (db : Db Index)
        → open_files (directory (((g, gs) ∷ ls) ++ ((fid, es) ∷ []))) db
          ≡ open_files (directory (ls ++ ((fid, es) ∷ []))) (record db {
            older_files = set_entry g (some (opened g (log_bytes env gs))) db.older_files;
          })
    unfolding open_files
    open_more g fid gs es [] db = refl
    open_more g fid gs es ((h, hs) ∷ ls) db = refl

    -- All files but the last become older files.
    pub open_files-directory :
        (ls done : List FileLog) (low fid : ℕ) (es : List Entry) (db : Db Index)
        → Hold env db.older_files done
        → ((i : ℕ) → low ≤ i → find_entry i db.older_files ≡ none)
        → Ascending low fid ls
        → (t : FileTable) × (open_files (directory (ls ++ ((fid, es) ∷ []))) db
            ≡ record db { older_files = t; active_file = some (opened fid (log_bytes env es)) })
          × Hold env t (done ++ ls)
    unfolding open_files
    open_files-directory [] done low fid es db hold new up =
        (db.older_files, refl, rw (append-nil done) hold)
    open_files-directory ((g, gs) ∷ ls) done low fid es db hold new (from, up) =
        let f = opened g (log_bytes env gs) in
        let t1 = set_entry g (some f) db.older_files in
        let hold1 : Hold env t1 (done ++ ((g, gs) ∷ [])) =
          rw (set_entry-new g (some f) db.older_files (new g from))
            (Hold-append env db.older_files done g f gs hold refl) in
        let new1 : (i : ℕ) → suc g ≤ i → find_entry i t1 ≡ none =
          λ i h. ground (arith, find_entry-set_entry g i (some f) db.older_files, new i) in
        let (t, run, all) =
          open_files-directory ls (done ++ ((g, gs) ∷ [])) (suc g) fid es
            (record db { older_files = t1 }) hold1 new1 up in
        (t, open_more g fid gs es ls db ∙ run, rw (sym (append_assoc done ((g, gs) ∷ []) ls)) all)

    module _ (ix : Indexer Index) where
      -- The handle of a file has its bytes.
      abbrev pub IsFound : Db Index → FileLog → Type 0
      IsFound db l =
          (f : DataFile) × (handle_of env ix l.0 db ≡ some f) × (f.contents ≡ log_bytes env l.1)

      pub All-IsFound :
          (olds : List FileLog) (fid : ℕ) (es : List Entry) (db : Db Index) (a : DataFile)
          → db.active_file ≡ some a
          → a.file_id ≡ fid
          → a.contents ≡ log_bytes env es
          → Hold env db.older_files olds
          → Ascending 0 fid olds
          → All (IsFound db) (olds ++ ((fid, es) ∷ []))
      unfolding handle_of
      All-IsFound olds fid es db a has same_id same hold up =
          All-append (IsFound db) olds ((fid, es) ∷ [])
            (All-map olds
              (λ l h.
                let (from, under, (f, at_f, kept)) = h in
                (f, ground (arith, has, same_id, under, at_f), kept))
              (entries_of db.older_files olds 0 fid hold up))
            ((a, ground (arith, has, same_id), same), tt)

      IsFound-Framed :
          (s s' : Loading Index) (l : FileLog) → Framed s s' → IsFound s.db l → IsFound s'.db l
      unfolding handle_of with_index
      IsFound-Framed s s' l framed (f, at_f, same) = (f, rw framed at_f, same)

      on_write_off_lem :
          (offset : ℕ) (s : Loading Index) (db : Db Index)
          → set_write_off offset s.db ≡ some db
          → on_write_off env ix offset s ≡ some (ok tt, record s { db = db })
      on_write_off_lem offset s db at_end = ground (arith, at_end)

      is_more :
          (ls : List FileLog) (l : FileLog)
          → no_more env ix (file_ids (directory (ls ++ (l ∷ [])))) ≡ false
      is_more [] l = refl
      is_more (k ∷ ls) l = refl

      pub replay_all-Framed :
          (ls : List FileLog) (s s' : Loading Index)
          → replay_all env ix ls s ≡ some (ok tt, s')
          → Framed s s'
      unfolding replay_all with_index
      replay_all-Framed [] s s' run = ground (arith, run)
      replay_all-Framed ((fid, es) ∷ ls) s s' run =
          let (done, s1, first, rest) =
            bind-eq-ok (replay env ix fid 0 es) (λ done. replay_all env ix ls) s tt s' run in
          Framed-trans s s1 s' (replay-Framed env ix es fid 0 s s1 first)
            (replay_all-Framed ls s1 s' rest)

      module _ (reliable : IsReliable env) (size : ℕ) (short : size < 2 ^ 64) where
        load_file-IsFound :
            (l : FileLog) (is_last : Bool) (s s1 : Loading Index)
            → IsFound s.db l
            → IsLogFile env size l
            → replay env ix l.0 0 l.1 s ≡ some (ok tt, s1)
            → load_file env ix l.0 is_last s
              ≡ (if is_last then on_write_off env ix (length (log_bytes env l.1)) else pure tt) s1
        unfolding load_file
        load_file-IsFound (fid, es) is_last s s1 (f, at_f, same) file run =
            let read =
              load_file-replay env ix reliable es fid s file.loggable file.some_bytes
                (omega (arith, file.fits)) in
            rw (at_f, same, read, run) refl

        -- LoadIndexFromDataFiles behind its loop over the files: all their entries have counted, and
        -- the active file is written on at its end.
        pub load_files-replay_all :
            (ls : List FileLog) (l : FileLog) (s s' : Loading Index) (db : Db Index)
            → All (IsFound s.db) (ls ++ (l ∷ []))
            → All (IsLogFile env size) (ls ++ (l ∷ []))
            → replay_all env ix (ls ++ (l ∷ [])) s ≡ some (ok tt, s')
            → set_write_off (length (log_bytes env l.1)) s'.db ≡ some db
            → load_files env ix none (file_ids (directory (ls ++ (l ∷ [])))) s
              ≡ some (ok tt, record s' { db = db })
        unfolding load_files is_merged replay_all
        load_files-replay_all [] (fid, es) s s' db (found, none_found) (file, no_file) run at_end =
            let (done, s1, first, rest) =
              bind-eq-ok (replay env ix fid 0 es) (λ done. pure tt) s tt s' run in
            let same : s1 ≡ s' = cc in
            rw
              (
                load_file-IsFound (fid, es) true s s1 found file first,
                same,
                on_write_off_lem (length (log_bytes env es)) s' db at_end,
              )
              refl
        load_files-replay_all ((g, gs) ∷ ls) l s s' db (found, others) (file, files) run at_end =
            let (done, s1, first, rest) =
              bind-eq-ok (replay env ix g 0 gs) (λ done. replay_all env ix (ls ++ (l ∷ []))) s tt s'
                run in
            let framed = replay-Framed env ix gs g 0 s s1 first in
            let found1 = All-map (ls ++ (l ∷ [])) (λ k h. IsFound-Framed s s1 k framed h) others in
            rw
              (
                load_file-IsFound (g, gs) (no_more env ix (file_ids (directory (ls ++ (l ∷ []))))) s
                    s1 found file first,
                is_more ls l,
              )
              (load_files-replay_all ls l s1 s' db found1 files rest at_end)
