-- ===== src/Db/Merge/Mergence/Loss.antt =====
-- DB::LoadMergenceFiles in bitdb/db.cpp: a finished merge is thrown away.
use mathlib.Core.List.{append-nil}
use mathlib.Core.Path.{subst}
use bitdb.Base.{
  ℕ, zero, suc, ◌+◌, ◌/◌, ◌%◌, ◌^◌, ◌≤◌, ◌<◌, ◌≡◌, refl, ap, ◌∙◌, Bool, true, false, Option, none,
  some, [], ◌∷◌, ◌++◌, length, leb, ◌&&◌, ltb, if◌then◌else◌, arith, All,
}
use bitdb.Status.{ok, err, check_error}
use bitdb.Bytes.{Bytes}
use bitdb.Env.{Env, IsReliable}
use bitdb.Record.{encode_log_record}
use bitdb.Record.Layout.{IsEncodable}
use bitdb.DataFile.{read_log_record}
use bitdb.DataFile.Read.{read_log_record-encode_log_record}
use bitdb.Db.Merge.{to_digits, to_string, merge_log_record}
use bitdb.Db.Merge.Marker.{stoi-to_string}
use bitdb.Db.Merge.Mergence.{
  FileName, dot, merged, data_file, Directory, same_name, code, lookup, unlink, Disk, remove_file,
  remove_merged, mergence_finished, get_non_merged_file_id, move_all, move_merged,
  load_mergence_files,
}

-- What a name has behind a move of these files.
abbrev pub moved : Directory → FileName → Option Bytes → Option Bytes
moved [] name old = old
moved ((n, contents) ∷ files) name old =
    moved files name (if same_name n name then some contents else old)

-- A data file that a merge up to `id` has merged.
abbrev pub is_merged_file : ℕ → FileName → Bool
is_merged_file id name = leb 4 (code name) && ltb (code name) (4 + id)

lookup-unlink :
    (n name : FileName) (d : Directory)
    → lookup name (unlink n d) ≡ (if same_name n name then none else lookup name d)
unfolding lookup unlink
lookup-unlink n name [] = ground arith
lookup-unlink n name ((m, contents) ∷ d) = ground (arith, lookup-unlink n name d)

-- The files that are there are removed, and no others.
remove_merged_lem :
    (id : ℕ) (d : Directory)
    → ((i : ℕ) → i < id → (contents : Bytes) × (lookup (data_file i) d ≡ some contents))
    → (d' : Directory) × (remove_merged id d ≡ some d')
      × ((name : FileName)
          → lookup name d' ≡ (if is_merged_file id name then none else lookup name d))
unfolding remove_merged remove_file
remove_merged_lem zero d present = (d, refl, λ name. ground arith)
remove_merged_lem (suc id) d present =
    let (d1, removed, kept) = remove_merged_lem id d (λ i h. present i (omega arith)) in
    let (contents, here) = present id (omega arith) in
    let still : lookup (data_file id) d1 ≡ some contents =
      ground (arith, kept (data_file id), here) in
    (
      unlink (data_file id) d1,
      ground (arith, removed, still),
      λ name. ground (arith, kept name, lookup-unlink (data_file id) name d1),
    )

-- The files before a name that cannot be moved are moved, and no others.
move_all_stops :
    (renames : FileName → Bool) (before after d : Directory) (stop : FileName) (contents : Bytes)
    → All (λ file. renames file.0 ≡ true) before
    → renames stop ≡ false
    → (d' : Directory) × (move_all renames (before ++ ((stop, contents) ∷ after)) d
        ≡ (err check_error, d'))
      × ((name : FileName) → lookup name d' ≡ moved before name (lookup name d))
unfolding move_all lookup
move_all_stops renames [] after d stop contents moves stops = (d, ground arith, λ name. refl)
move_all_stops renames ((n, c) ∷ before) after d stop contents (first, rest) stops =
    let (d', run, got) =
      move_all_stops renames before after ((n, c) ∷ unlink n d) stop contents rest stops in
    (
      d',
      ground (arith, first, run),
      λ name.
          let here : lookup name ((n, c) ∷ unlink n d)
              ≡ (if same_name n name then some c else lookup name d) =
            ground (arith, lookup-unlink n name d) in
          got name ∙ ap (λ o. moved before name o) here,
    )

length-to_digits :
    (fuel n : ℕ) (text : Bytes) → length (to_digits fuel n text) ≤ n / 10 + 1 + length text
unfolding to_digits
length-to_digits zero n text = omega arith
length-to_digits (suc fuel) n text =
    ground (arith, length-to_digits fuel (n / 10) ((48 + n % 10) ∷ text))

merge_log_record-IsEncodable : (id : ℕ) → id < 2 ^ 31 → IsEncodable (merge_log_record id)
unfolding merge_log_record to_string
merge_log_record-IsEncodable id small = record {
  keyed = refl;
  fits = omega (arith, length-to_digits (suc id) id []);
  byte_type = omega arith;
}

module _ (env : Env) (reliable : IsReliable env) where
  -- GetNonMergedFileID reads the id that Merge has written.
  get_non_merged_file_id_lem :
      (names : Directory) (id : ℕ)
      → id < 2 ^ 31
      → lookup merged names ≡ some (encode_log_record env (merge_log_record id))
      → get_non_merged_file_id env names ≡ some (ok id)
  unfolding get_non_merged_file_id merge_log_record
  get_non_merged_file_id_lem names id small here =
      let r = merge_log_record id in
      let read : read_log_record env (encode_log_record env r) 0
          ≡ some (ok (r, length (encode_log_record env r))) =
        subst
          (λ (file : Bytes).
            read_log_record env file 0 ≡ some (ok (r, length (encode_log_record env r))))
          (append-nil (encode_log_record env r))
          (read_log_record-encode_log_record env reliable r [] []
            (merge_log_record-IsEncodable id small)) in
      rw (here, read, stoi-to_string id small) refl

  finished_lem :
      (names : Directory) (contents : Bytes)
      → lookup merged names ≡ some contents
      → mergence_finished names ≡ true
  unfolding lookup mergence_finished
  finished_lem [] contents here = absurd (ground arith)
  finished_lem ((n, c) ∷ names) contents here = ground (arith, here, finished_lem names contents)

  load_finished :
      (renames : FileName → Bool) (disk : Disk) (names d1 d2 : Directory) (id : ℕ)
      → disk.merge_dir ≡ some names
      → mergence_finished names ≡ true
      → get_non_merged_file_id env names ≡ some (ok id)
      → remove_merged id disk.data_dir ≡ some d1
      → move_all renames names d1 ≡ (err check_error, d2)
      → load_mergence_files env renames disk
        ≡ some (err check_error, record { data_dir = d2; merge_dir = none })
  unfolding load_mergence_files move_merged
  load_finished renames disk names d1 d2 id listing finished marker removed stopped =
      ground (arith, listing, finished, marker, removed, stopped)

  -- In a reliable environment, where rename(2) refuses the entry `.` and takes the names that
  -- readdir(3) gives before it: DB::LoadMergenceFiles of a finished merge of the files below an id
  -- under 2 ^ 31, which are all there, fails with check_error. Behind it the merge directory is gone,
  -- the data files below the id are gone, and of the merged files only those before `.` are kept.
  pub load_mergence_files_loses :
      (renames : FileName → Bool) (disk : Disk) (before after : Directory) (id : ℕ)
      → disk.merge_dir ≡ some (before ++ ((dot, []) ∷ after))
      → lookup merged (before ++ ((dot, []) ∷ after))
        ≡ some (encode_log_record env (merge_log_record id))
      → id < 2 ^ 31
      → ((i : ℕ)
          → i < id
          → (contents : Bytes) × (lookup (data_file i) disk.data_dir ≡ some contents))
      → renames dot ≡ false
      → All (λ file. renames file.0 ≡ true) before
      → (disk' : Disk) × (load_mergence_files env renames disk ≡ some (err check_error, disk'))
        × (disk'.merge_dir ≡ none)
        × ((name : FileName)
            → lookup name disk'.data_dir
              ≡ moved before name
                  (if is_merged_file id name then none else lookup name disk.data_dir))
  load_mergence_files_loses renames disk before after id listing marker small present stuck moves =
      let names = before ++ ((dot, []) ∷ after) in
      let (d1, removed, kept) = remove_merged_lem id disk.data_dir present in
      let (d2, stopped, got) = move_all_stops renames before after d1 dot [] moves stuck in
      (
        record { data_dir = d2; merge_dir = none },
        load_finished renames disk names d1 d2 id listing
            (finished_lem names (encode_log_record env (merge_log_record id)) marker)
            (get_non_merged_file_id_lem names id small marker) removed stopped,
        refl,
        λ name. got name ∙ ap (λ o. moved before name o) (kept name),
      )
