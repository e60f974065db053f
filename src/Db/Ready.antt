-- ===== src/Db/Ready.antt =====
-- DB::NewActiveDataFile and the change of the active file: what they keep.
use mathlib.Core.List.{append-nil}
use bitdb.Base.{
  ℕ, ◌+◌, ◌^◌, ◌≤◌, ◌<◌, ◌≡◌, refl, sym, none, some, [], arith, Option-cases, inl, inr,
}
use bitdb.DataFile.{DataFile}
use bitdb.FileTable.{find_entry, set_entry, find_entry-set_entry}
use bitdb.Db.{new_data_file, Db, new_active_data_file, ensure_active, rotate}
use bitdb.Db.Invariant.{IsValid, Grows, Grows-refl}

module _ {Index : Type 0} where
  -- A new active file on a database whose larger ids are free.
  new_active_data_file-IsValid :
      (db : Db Index)
      → db.next_file_id + 1 < 2 ^ 32
      → ((i : ℕ) → db.next_file_id ≤ i → find_entry i db.older_files ≡ none)
      → IsValid (new_active_data_file db)
  unfolding new_active_data_file
  new_active_data_file-IsValid db room free = record {
    at_end = λ f e. ground arith;
    active_below = λ f e. ground arith;
    active_apart = λ f e. ground (arith, free db.next_file_id);
    fresh = λ i h. free i (omega arith);
  }

  -- The state after a step, with an active file.
  pub record Ready (db db' : Db Index) (bumps : ℕ) : Type 0 where
    pub valid : IsValid db'
    pub grows : Grows db db'
    pub active : DataFile
    pub has_active : db'.active_file ≡ some active
    pub ids : db'.next_file_id ≤ db.next_file_id + bumps

  ensure_active-none :
      (db : Db Index) → db.active_file ≡ none → ensure_active db ≡ new_active_data_file db
  unfolding ensure_active
  ensure_active-none db e = ground arith

  ensure_active-some :
      (db : Db Index) (a : DataFile) → db.active_file ≡ some a → ensure_active db ≡ db
  unfolding ensure_active
  ensure_active-some db a e = ground arith

  new_active-Ready :
      (db : Db Index)
      → IsValid db
      → db.next_file_id + 1 < 2 ^ 32
      → db.active_file ≡ none
      → Ready db (new_active_data_file db) 1
  unfolding new_active_data_file
  new_active-Ready db v room e = record {
    valid = new_active_data_file-IsValid db room v.fresh;
    grows = record {
      same_index = refl;
      same_options = refl;
      same_txn_id = refl;
      same_merging = refl;
      grown = λ fid f h. (f, [], ground (arith, v.fresh fid), sym (append-nil f.contents));
    };
    active = new_data_file db.next_file_id;
    has_active = refl;
    ids = omega arith;
  }

  pub ensure_active-Ready :
      (db : Db Index) → IsValid db → db.next_file_id + 1 < 2 ^ 32 → Ready db (ensure_active db) 1
  ensure_active-Ready db v room = elim (Option-cases db.active_file) [
    | inl e ↦ rw (ensure_active-none db e) (new_active-Ready db v room e)
    | inr (a, e) ↦
        rw (ensure_active-some db a e) (record {
          valid = v;
          grows = Grows-refl db;
          active = a;
          has_active = e;
          ids = omega arith;
        })
  ]

  -- The retired file keeps its id, and the new one takes the next.
  pub rotate-Ready :
      (a : DataFile) (db : Db Index)
      → IsValid db
      → db.next_file_id + 1 < 2 ^ 32
      → db.active_file ≡ some a
      → Ready db (rotate a db) 1
  unfolding rotate
  rotate-Ready a db v room e =
      let retired = record db { older_files = set_entry a.file_id (some a) db.older_files } in
      let free : (i : ℕ) → db.next_file_id ≤ i → find_entry i retired.older_files ≡ none = λ i h.
        ground (
          arith,
          find_entry-set_entry a.file_id i (some a) db.older_files,
          v.fresh i,
          v.active_below a e,
        ) in
      record {
        valid = new_active_data_file-IsValid retired room free;
        grows = record {
          same_index = refl;
          same_options = refl;
          same_txn_id = refl;
          same_merging = refl;
          grown = λ fid f h. (
            f,
            [],
            ground (
              arith,
              free fid,
              find_entry-set_entry a.file_id fid (some a) db.older_files,
              v.active_below a e,
            ),
            sym (append-nil f.contents),
          );
        };
        active = new_data_file db.next_file_id;
        has_active = refl;
        ids = omega arith;
      }
