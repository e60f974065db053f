-- ===== src/Examples/Restarts.antt =====
-- Calls and restarts at concrete inputs.
use bitdb.Base.{◌≡◌, refl, arith, none, some, List, [], ◌∷◌, true, false}
use bitdb.Status.{ok}
use bitdb.Bytes.{Bytes, c_str, bytes_eq}
use bitdb.Record.{LogRecordPst}
use bitdb.TreeMap.{TreeMap}
use bitdb.Index.TreeIndexer.{tree_indexer, tree_indexer-IsMap}
use bitdb.Db.{Db, Options, new_db, get}
use bitdb.Action.{◌>>◌}
use bitdb.Db.Open.{open_directory}
use bitdb.Db.Lookup.{answer}
use bitdb.Db.History.{put_call, delete_call}
use bitdb.Db.Durability.{Event, called, restarted, perform_events, after_events, get-perform_events}
use bitdb.Examples.World.{disk, disk-IsReliable}

-- Files of 40 bytes, so that the third record needs a second file.
abbrev small_files : Options
small_files = record { data_file_size = 40; is_sync_write = false }

abbrev key : Bytes
key = b'k' ∷ []

abbrev events : List Event
events =
    called (put_call key (b'v' ∷ b'1' ∷ []))
    ∷ called (put_call (b'j' ∷ []) (b'w' ∷ []))
    ∷ restarted
    ∷ called (put_call key (b'v' ∷ b'2' ∷ []))
    ∷ called (delete_call (b'j' ∷ []))
    ∷ restarted
    ∷ []

get-perform_events_example :
    (db : Db (TreeMap LogRecordPst)) × ((open_directory disk tree_indexer true [] none none
          >> perform_events disk tree_indexer small_files events)
        (new_db tree_indexer small_files)
      ≡ some (ok tt, db))
    × (get disk tree_indexer key false db
        ≡ some (answer (after_events (λ k. none) events (c_str key)), db))
get-perform_events_example =
    get-perform_events disk tree_indexer disk-IsReliable tree_indexer-IsMap true small_files events
      key
      (
        ((refl, omega arith), omega arith),
        (
          ((refl, omega arith), omega arith),
          (
            tt,
            (((refl, omega arith), omega arith), (((refl, omega arith), omega arith), (tt, tt))),
          ),
        ),
      )
      (omega arith) (omega arith) refl

get_after_events : after_events (λ k. none) events (c_str key) ≡ some (b'v' ∷ b'2' ∷ [])
unfolding c_str bytes_eq
get_after_events = refl
