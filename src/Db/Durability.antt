-- ===== src/Db/Durability.antt =====
-- bitdb/db.cpp: any history of DB::Put, DB::Delete and restarts, against a map.
use bitdb.Base.{
  ℕ, ◌+◌, ◌*◌, ◌^◌, ◌≤◌, ◌<◌, ◌≡◌, refl, ◌∙◌, sym, Bool, false, Option, none, some, List, [], ◌∷◌,
  length, arith, All,
}
use bitdb.Status.{ok}
use bitdb.Bytes.{Bytes, c_str, empty}
use bitdb.Env.{Env, IsReliable}
use bitdb.FileTable.{find_entry}
use bitdb.Index.{Indexer, IsMap}
use bitdb.Action.{Action, ◌>>◌, pure}
use bitdb.Db.{Db, Options, new_db, get}
use bitdb.Db.Open.{open_directory, open_directory-empty}
use bitdb.Db.Lookup.{answer, get-Models}
use bitdb.Db.History.{Call, IsAdmissible, put_call, delete_call, after_call, perform, new_db-Models}
use bitdb.Db.Journal.{replay_all}
use bitdb.Db.Journal.Calls.{put-IsDurable, delete-IsDurable}
use bitdb.Db.Journal.Replays.{IsDurable}
use bitdb.Db.Journal.Restart.{restart, restart-IsDurable}

-- What happens to a database: a call of its client, or the end of its process and a new one.
pub data Event : Type 0 where
  called : Call → Event
  restarted : Event

-- The bytes that the record of a call takes at most.
abbrev pub size_of : Call → ℕ
size_of (put_call key value) = length key + length value + 16
size_of (delete_call key) = length key + 16

-- The calls are accepted, and their records fit a data file.
abbrev pub IsPossible : Options → Event → Type 0
IsPossible options (called c) = IsAdmissible c × (size_of c ≤ options.data_file_size)
IsPossible options restarted = Unit

-- What the events mean for a map: a restart means nothing.
abbrev pub after_events : (Bytes → Option Bytes) → List Event → Bytes → Option Bytes
after_events m [] = m
after_events m (called c ∷ events) = after_events (after_call m c) events
after_events m (restarted ∷ events) = after_events m events

module _ {Index : Type 0} (env : Env) (ix : Indexer Index) where
  pub perform_event : Options → Event → Action (Db Index) (Unit {0})
  unfolding restart
  perform_event options (called c) = perform env ix c
  perform_event options restarted = restart env ix options

  -- They stop at the first error.
  unfoldable pub perform_events : Options → List Event → Action (Db Index) (Unit {0})
  unfolding perform_event
  perform_events options [] = pure tt
  perform_events options (e ∷ events) = do perform_event options e; perform_events options events

  module _ (reliable : IsReliable env) (lawful : IsMap ix) where
    perform_event-IsDurable :
        (options : Options) (m : Bytes → Option Bytes) (e : Event) (db : Db Index)
        → IsDurable env ix options m db
        → IsPossible options e
        → options.data_file_size < 2 ^ 64
        → db.next_file_id + 2 < 2 ^ 32
        → (db' : Db Index) × (perform_event options e db ≡ some (ok tt, db'))
          × IsDurable env ix options (after_events m (e ∷ [])) db'
          × (db'.next_file_id ≤ db.next_file_id + 2)
    unfolding perform_event perform
    perform_event-IsDurable options m (called (put_call key value)) db durable ((keyed, fits), size)
          short room =
        put-IsDurable env ix lawful reliable options m key value db durable keyed fits size room
    perform_event-IsDurable options m (called (delete_call key)) db durable ((keyed, fits), size)
          short room =
        delete-IsDurable env ix lawful reliable options m key db durable keyed fits size room
    perform_event-IsDurable options m restarted db durable possible short room =
        let (db', run, result, ids) =
          restart-IsDurable env ix reliable lawful options m db durable short (omega arith) in
        (db', run, result, omega arith)

    after_events-first :
        (m : Bytes → Option Bytes) (e : Event) (events : List Event)
        → after_events m (e ∷ events) ≡ after_events (after_events m (e ∷ [])) events
    after_events-first m (called c) events = refl
    after_events-first m restarted events = refl

    pub perform_events-IsDurable :
        (options : Options) (events : List Event) (m : Bytes → Option Bytes) (db : Db Index)
        → IsDurable env ix options m db
        → All (IsPossible options) events
        → options.data_file_size < 2 ^ 64
        → db.next_file_id + 2 * length events < 2 ^ 32
        → (db' : Db Index) × (perform_events options events db ≡ some (ok tt, db'))
          × IsDurable env ix options (after_events m events) db'
    unfolding perform_events
    perform_events-IsDurable options [] m db durable possible short room = (db, refl, durable)
    perform_events-IsDurable options (e ∷ events) m db durable (first, rest) short room =
        let (db1, run, durable1, ids) =
          perform_event-IsDurable options m e db durable first short (omega arith) in
        let (db2, run2, durable2) =
          perform_events-IsDurable options events (after_events m (e ∷ [])) db1 durable1 rest short
            (omega arith) in
        (db2, ground (arith, run, run2), rw (after_events-first m e events) durable2)

    pub new_db-IsDurable :
        (options : Options) → IsDurable env ix options (λ k. none) (new_db ix options)
    unfolding new_db replay_all find_entry
    new_db-IsDurable options = record {
      models = new_db-Models env ix lawful options;
      journal = record { olds = []; last = none };
      written = record {
        older = tt;
        active = refl;
        active_last = λ h. refl;
        ascending = omega arith;
        files = tt;
      };
      replays = λ s fresh. (s, refl, λ k. fresh k ∙ sym (lawful.get-new k));
      same_options = refl;
      idle = refl;
    }

    -- In a reliable environment and with an indexer that is a map, for a data file size below 2 ^ 64:
    -- behind DB::Open on an empty directory, with `merge_after_open` or without, and any admissible
    -- calls whose records fit a data file and, with the header, 2 ^ 31 - 4096 bytes, with restarts
    -- anywhere between them, fewer than 2 ^ 31 calls and restarts in all, where a restart is a DB::Open
    -- with `merge_after_open` false on the files that were left, and DB::Merge is not among the calls:
    -- every call and every DB::Open has succeeded, and DB::Get answers for every key that is not empty
    -- with the value that was put last and not deleted since, up to its first null byte, or with
    -- not_found, and changes nothing.
    pub get-perform_events :
        (merge_after_open : Bool) (options : Options) (events : List Event) (key : Bytes)
        → All (IsPossible options) events
        → options.data_file_size < 2 ^ 64
        → 2 * length events < 2 ^ 32
        → empty key ≡ false
        → (db : Db Index) × ((open_directory env ix merge_after_open [] none none
                >> perform_events options events)
              (new_db ix options)
            ≡ some (ok tt, db))
          × (get env ix key false db
              ≡ some (answer (after_events (λ k. none) events (c_str key)), db))
    get-perform_events merge_after_open options events key possible short room keyed =
        let (db, run, durable) =
          perform_events-IsDurable options events (λ k. none) (new_db ix options)
            (new_db-IsDurable options) possible short (unfold new_db in omega arith) in
        (
          db,
          rw (open_directory-empty env ix merge_after_open options) run,
          get-Models env reliable ix (after_events (λ k. none) events) key db keyed durable.models,
        )
