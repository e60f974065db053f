-- ===== src/Db/History.antt =====
-- Any history of DB::Put and DB::Delete from a new database on, against a map.
use bitdb.Base.{
  ◌+◌, ◌*◌, ◌^◌, ◌≤◌, ◌<◌, ◌≡◌, refl, false, Option, none, some, List, [], ◌∷◌, length, arith, All,
}
use bitdb.Status.{ok}
use bitdb.Bytes.{Bytes, c_str, empty}
use bitdb.Env.{Env, IsReliable}
use bitdb.Index.{Indexer, IsMap}
use bitdb.Action.{Action, ◌>>◌, pure}
use bitdb.FileTable.{find_entry}
use bitdb.Db.{Db, Options, new_db, put, get, delete}
use bitdb.Db.Invariant.{Models}
use bitdb.Db.Lookup.{answer, get-Models}
use bitdb.Db.Refine.{updated, put-Models, delete-Models}

-- The calls of a client that change the database.
pub data Call : Type 0 where
  put_call : Bytes → Bytes → Call
  delete_call : Bytes → Call

-- The calls that DB::Put and DB::Delete take: a key, and a record that one write(2) transfers.
abbrev pub IsAdmissible : Call → Type 0
IsAdmissible (put_call key value) =
    (empty key ≡ false) × (length key + length value + 16 + 4096 ≤ 2 ^ 31)
IsAdmissible (delete_call key) = (empty key ≡ false) × (length key + 16 + 4096 ≤ 2 ^ 31)

-- What the calls mean for a map.
abbrev pub after_call : (Bytes → Option Bytes) → Call → Bytes → Option Bytes
after_call m (put_call key value) = updated m (c_str key) (some (c_str value))
after_call m (delete_call key) = updated m (c_str key) none

abbrev pub after_calls : (Bytes → Option Bytes) → List Call → Bytes → Option Bytes
after_calls m [] = m
after_calls m (c ∷ calls) = after_calls (after_call m c) calls

module _ {Index : Type 0} (env : Env) (ix : Indexer Index) where
  unfoldable pub perform : Call → Action (Db Index) (Unit {0})
  perform (put_call key value) = put env ix key value
  perform (delete_call key) = delete env ix key

  -- A client that stops at the first error.
  unfoldable pub perform_all : List Call → Action (Db Index) (Unit {0})
  unfolding perform
  perform_all [] = pure tt
  perform_all (c ∷ calls) = do perform c; perform_all calls

  pub new_db-Models :
      (lawful : IsMap ix) (options : Options) → Models env ix (new_db ix options) (λ k. none)
  unfolding new_db find_entry
  new_db-Models lawful options = record {
    valid = record {
      at_end = λ f e. cc;
      active_below = λ f e. cc;
      active_apart = λ f e. cc;
      fresh = λ i h. refl;
    };
    entries = λ k. rw (lawful.get-new k) tt;
  }

  module _ (reliable : IsReliable env) (lawful : IsMap ix) where
    pub perform-Models :
        (m : Bytes → Option Bytes) (c : Call) (db : Db Index)
        → Models env ix db m
        → IsAdmissible c
        → db.next_file_id + 2 < 2 ^ 32
        → (db' : Db Index) × (perform c db ≡ some (ok tt, db'))
          × Models env ix db' (after_call m c)
          × (db'.next_file_id ≤ db.next_file_id + 2)
    unfolding perform
    perform-Models m (put_call key value) db models (keyed, fits) room =
        put-Models env reliable ix lawful m key value db models keyed fits room
    perform-Models m (delete_call key) db models (keyed, fits) room =
        delete-Models env reliable ix lawful m key db models keyed fits room

    perform_all-Models :
        (calls : List Call) (m : Bytes → Option Bytes) (db : Db Index)
        → Models env ix db m
        → All IsAdmissible calls
        → db.next_file_id + 2 * length calls < 2 ^ 32
        → (db' : Db Index) × (perform_all calls db ≡ some (ok tt, db'))
          × Models env ix db' (after_calls m calls)
    unfolding perform_all
    perform_all-Models [] m db models admissible room = (db, refl, models)
    perform_all-Models (c ∷ calls) m db models (first, rest) room =
        let (db1, e, models1, ids) = perform-Models m c db models first (omega arith) in
        let (db2, e2, models2) =
          perform_all-Models calls (after_call m c) db1 models1 rest (omega arith) in
        (db2, ground (arith, e, e2), models2)

    -- In a reliable environment and with an indexer that is a map: after any admissible calls on a
    -- new database, fewer than 2 ^ 31, all have succeeded, and DB::Get answers for every key that
    -- is not empty with the value that was put last and not deleted since, up to its first null
    -- byte, or with not_found, and changes nothing. A call is admissible if its key is not empty and
    -- key and value have at most 2 ^ 31 - 4096 bytes with 16 for the header.
    pub get-perform_all :
        (options : Options) (calls : List Call) (key : Bytes)
        → All IsAdmissible calls
        → 2 * length calls < 2 ^ 32
        → empty key ≡ false
        → (db : Db Index) × (perform_all calls (new_db ix options) ≡ some (ok tt, db))
          × (get env ix key false db
              ≡ some (answer (after_calls (λ k. none) calls (c_str key)), db))
    get-perform_all options calls key admissible room keyed =
        let (db, e, models) =
          perform_all-Models calls (λ k. none) (new_db ix options) (new_db-Models lawful options)
            admissible (unfold new_db in omega arith) in
        (db, e, get-Models env reliable ix (after_calls (λ k. none) calls) key db keyed models)
