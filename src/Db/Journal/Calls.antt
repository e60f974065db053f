-- ===== src/Db/Journal/Calls.antt =====
-- DB::Put and DB::Delete of bitdb/db.cpp: the data files still tell the whole index.
use bitdb.Base.{
  ◌+◌, ◌^◌, ◌≤◌, ◌<◌, ◌≡◌, ap, ◌∙◌, sym, false, Option, none, some, [], length, arith, Option-cases,
  inl, inr,
}
use bitdb.Status.{ok}
use bitdb.Bytes.{Bytes, c_str, empty}
use bitdb.Bytes.Order.{length-c_str}
use bitdb.Env.{Env, IsReliable}
use bitdb.Record.{deleted_log_record, normal_log_record}
use bitdb.Index.{Indexer, IsMap}
use bitdb.Db.{Db, Options, put, delete}
use bitdb.Db.Refine.{
  with_index, updated, put_entry, put_steps, delete_entry, delete_steps, get-tombstone_index,
  not_stored, tombstone_index,
}
use bitdb.Db.Load.Replay.{bytes_of}
use bitdb.Db.Journal.{logs}
use bitdb.Db.Journal.Append.{append_log_record-Journaled}
use bitdb.Db.Journal.Replays.{
  plain_entry, plain_entry-IsLoggable, length-plain_entry, IsDurable, IsJournal-with_index,
  Replays-put, Replays-delete,
}

module _ {Index : Type 0} (env : Env) (ix : Indexer Index) where
  module _ (lawful : IsMap ix) where
    module _ (reliable : IsReliable env) where
      pub put-IsDurable :
          (options : Options) (m : Bytes → Option Bytes) (key value : Bytes) (db : Db Index)
          → IsDurable env ix options m db
          → empty key ≡ false
          → length key + length value + 16 + 4096 ≤ 2 ^ 31
          → length key + length value + 16 ≤ options.data_file_size
          → db.next_file_id + 2 < 2 ^ 32
          → (db' : Db Index) × (put env ix key value db ≡ some (ok tt, db'))
            × IsDurable env ix options (updated m (c_str key) (some (c_str value))) db'
            × (db'.next_file_id ≤ db.next_file_id + 2)
      unfolding with_index
      put-IsDurable options m key value db durable keyed short fits room =
          let e = plain_entry key (c_str value) normal_log_record in
          let below : length key + length (c_str value) + 16 + 4096 ≤ 2 ^ 31 =
            omega (arith, length-c_str value) in
          let size : length (bytes_of env e) ≤ db.options.data_file_size = rw durable.same_options (
            omega (
              arith,
              length-plain_entry env key (c_str value) normal_log_record below (omega arith),
              length-c_str value,
            )) in
          let (pst, db1, run, added) =
            append_log_record-Journaled env ix reliable db durable.journal e durable.models.valid
              durable.written room
              (plain_entry-IsLoggable key (c_str value) normal_log_record below (omega arith))
              size in
          let grows = added.appended.ready.grows in
          (
            with_index db1 (ix.put db1.index key pst).0,
            put_steps env reliable ix lawful key value db db1 pst keyed run,
            record {
              models =
                  put_entry env reliable ix lawful m key (c_str value) db db1 pst durable.models
                    added.appended;
              journal = added.next;
              written =
                  IsJournal-with_index env db1 (ix.put db1.index key pst).0 added.next
                    added.journal;
              replays =
                  Replays-put env ix lawful (logs durable.journal) (logs added.next)
                    (λ k. ix.get db.index k) key (c_str value) pst db1.index durable.replays
                    added.extends (λ k. ap (λ i. ix.get i k) grows.same_index);
              same_options = grows.same_options ∙ durable.same_options;
              idle = grows.same_merging ∙ durable.idle;
            },
            added.appended.ready.ids,
          )

      pub delete-IsDurable :
          (options : Options) (m : Bytes → Option Bytes) (key : Bytes) (db : Db Index)
          → IsDurable env ix options m db
          → empty key ≡ false
          → length key + 16 + 4096 ≤ 2 ^ 31
          → length key + 16 ≤ options.data_file_size
          → db.next_file_id + 2 < 2 ^ 32
          → (db' : Db Index) × (delete env ix key db ≡ some (ok tt, db'))
            × IsDurable env ix options (updated m (c_str key) none) db'
            × (db'.next_file_id ≤ db.next_file_id + 2)
      unfolding with_index
      delete-IsDurable options m key db durable keyed short fits room =
          elim (Option-cases (ix.get db.index key)) [
            | inl missing ↦ (
              db,
              unfold delete in ground (arith, missing),
              record {
                models = not_stored env reliable ix lawful m key db durable.models missing;
                journal = durable.journal;
                written = durable.written;
                replays = durable.replays;
                same_options = durable.same_options;
                idle = durable.idle;
              },
              omega arith,
            )
            | inr (p, found) ↦
                let e = plain_entry key [] deleted_log_record in
                let size : length (bytes_of env e) ≤ db.options.data_file_size =
                  rw durable.same_options (
                    omega (
                      arith,
                      length-plain_entry env key [] deleted_log_record (omega arith) (omega arith),
                    )) in
                let (pst, db1, run, added) =
                  append_log_record-Journaled env ix reliable db durable.journal e
                    durable.models.valid durable.written room
                    (plain_entry-IsLoggable key [] deleted_log_record (omega arith) (omega arith))
                    size in
                let grows = added.appended.ready.grows in
                let i = tombstone_index env reliable ix lawful db1 key pst in
                let gone = λ (k : Bytes).
                  get-tombstone_index env reliable ix lawful key k db db1 pst grows.same_index in
                (
                  with_index db1 i,
                  delete_steps env reliable ix lawful key db db1 p pst keyed found run,
                  record {
                    models =
                        delete_entry env reliable ix lawful m key db db1 i durable.models
                          added.appended gone;
                    journal = added.next;
                    written = IsJournal-with_index env db1 i added.next added.journal;
                    replays =
                        Replays-delete env ix lawful (logs durable.journal) (logs added.next)
                          (λ k. ix.get db.index k) key pst p (λ k. ix.get i k) durable.replays
                          added.extends (sym (lawful.get_c_str db.index key) ∙ found) gone;
                    same_options = grows.same_options ∙ durable.same_options;
                    idle = grows.same_merging ∙ durable.idle;
                  },
                  added.appended.ready.ids,
                )
          ]
