-- ===== src/Db/Refine.antt =====
-- DB::Put and DB::Delete against the map that the database stores.
pub mod Plain
pub use Plain.*
unfoldable pub use Plain.{with_index}
use bitdb.Base.{
  ℕ, ◌+◌, ◌^◌, ◌≤◌, ◌<◌, ◌≡◌, refl, false, Option, none, some, [], ◌∷◌, ◌++◌, length, if◌then◌else◌,
  arith, Option-cases, Bool-cases, inl, inr,
}
use bitdb.Status.{ok}
use bitdb.Bytes.{Bytes, c_str, empty, bytes_eq}
use bitdb.Bytes.Order.{length-c_str, bytes_eq_iff}
use bitdb.Coding.{encode_varint64}
use bitdb.Env.{Env, IsReliable}
use bitdb.Record.{LogRecord, LogRecordPst, deleted_log_record, normal_log_record}
use bitdb.Record.Layout.{IsEncodable}
use bitdb.Txn.RoundTrip.{encode_log_record_with_txn_id_fits}
use bitdb.Index.{Indexer, IsMap}
use bitdb.Db.{Db, append_log_record, index_put, index_delete, put, delete_found, delete}
use bitdb.Db.Invariant.{IsValid, Models, Agrees, Agrees-Grows}
use bitdb.Db.Append.{Appended, append_log_record-Appended}

module _ {Index : Type 0} (env : Env) (reliable : IsReliable env) (ix : Indexer Index)
    (lawful : IsMap ix) where
  -- An index entry for the appended record, beside the old ones.
  pub put_entry :
      (m : Bytes → Option Bytes) (key value : Bytes) (db db' : Db Index) (pst : LogRecordPst)
      → Models env ix db m
      → Appended env db (plain_record key value normal_log_record) pst db'
      → Models env ix
          (with_index db' (ix.put db'.index key pst).0)
          (updated m (c_str key) (some value))
  unfolding with_index
  put_entry m key value db db' pst models appended = record {
    valid = IsValid-with_index db' _ appended.ready.valid;
    entries = λ k.
        rw (lawful.get-put db'.index key k pst)
          (elim (Bool-cases (bytes_eq (c_str key) (c_str k))) [
            | inl same ↦ rw same (
                Agrees-with_index env db' _ (some pst) (some value)
                  (plain_record key value normal_log_record, appended.stored, refl, refl))
            | inr other ↦
                rw (other, appended.ready.grows.same_index)
                  (Agrees-with_index env db' _ (ix.get db.index k) (m (c_str k)) (
                    Agrees-Grows env appended.ready.grows appended.ready.has_active _ _
                      (models.entries k)))
          ]);
  }

  -- An index without the key, over the grown files.
  pub delete_entry :
      (m : Bytes → Option Bytes) (key : Bytes) (db db' : Db Index) (i : Index) {r : LogRecord}
      {pst : LogRecordPst}
      → Models env ix db m
      → Appended env db r pst db'
      → ((k : Bytes)
          → ix.get i k ≡ (if bytes_eq (c_str key) (c_str k) then none else ix.get db.index k))
      → Models env ix (with_index db' i) (updated m (c_str key) none)
  unfolding with_index
  delete_entry m key db db' i models appended get_i = record {
    valid = IsValid-with_index db' _ appended.ready.valid;
    entries = λ k. rw (get_i k) (elim (Bool-cases (bytes_eq (c_str key) (c_str k))) [
      | inl same ↦ rw same (Agrees-with_index env db' i none none tt)
      | inr other ↦ rw other (
          Agrees-with_index env db' i (ix.get db.index k) (m (c_str k)) (
            Agrees-Grows env appended.ready.grows appended.ready.has_active _ _ (models.entries k)))
    ]);
  }

  pub put_steps :
      (key value : Bytes) (db db' : Db Index) (pst : LogRecordPst)
      → empty key ≡ false
      → append_log_record env (plain_record key (c_str value) normal_log_record) db
        ≡ some (ok pst, db')
      → put env ix key value db ≡ some (ok tt, with_index db' (ix.put db'.index key pst).0)
  unfolding put index_put with_index
  put_steps key value db db' pst keyed e =
      ground
        (arith, encode_log_record_with_txn_id_fits key 0, e, lawful.put_succeeds db'.index key pst)

  -- In a reliable environment, with an indexer that is a map, on a database that stores a map and
  -- has two free file ids: DB::Put of a key that is not empty, where key and value have at most
  -- 2 ^ 31 - 4096 bytes with 16 for the header, succeeds, and then the database stores the value, up
  -- to its first null byte, under the key, and what it stored under every other key.
  pub put-Models :
      (m : Bytes → Option Bytes) (key value : Bytes) (db : Db Index)
      → Models env ix db m
      → empty key ≡ false
      → length key + length value + 16 + 4096 ≤ 2 ^ 31
      → db.next_file_id + 2 < 2 ^ 32
      → (db' : Db Index) × (put env ix key value db ≡ some (ok tt, db'))
        × Models env ix db' (updated m (c_str key) (some (c_str value)))
        × (db'.next_file_id ≤ db.next_file_id + 2)
  unfolding with_index
  put-Models m key value db models keyed fits room =
      let encodable =
        plain_record-IsEncodable key (c_str value) normal_log_record
          (omega (arith, length-c_str value)) (omega arith) in
      let (pst, db1, e, appended) =
        append_log_record-Appended env reliable (plain_record key (c_str value) normal_log_record)
          db models.valid room encodable in
      (
        with_index db1 (ix.put db1.index key pst).0,
        put_steps key value db db1 pst keyed e,
        put_entry m key (c_str value) db db1 pst models appended,
        appended.ready.ids,
      )

  -- The index behind the two steps of DB::Delete.
  unfoldable pub tombstone_index : Db Index → Bytes → LogRecordPst → Index
  tombstone_index db key pst = (ix.delete (ix.put db.index key pst).0 key).0

  pub delete_steps :
      (key : Bytes) (db db' : Db Index) (p pst : LogRecordPst)
      → empty key ≡ false
      → ix.get db.index key ≡ some p
      → append_log_record env (plain_record key [] deleted_log_record) db ≡ some (ok pst, db')
      → delete env ix key db ≡ some (ok tt, with_index db' (tombstone_index db' key pst))
  unfolding delete delete_found index_delete with_index tombstone_index
  delete_steps key db db' p pst keyed found e = ground (
    arith,
    encode_log_record_with_txn_id_fits key 0,
    e,
    found,
    lawful.delete_found (ix.put db'.index key pst).0 key,
    lawful.get-put db'.index key key pst,
    bytes_eq_iff (c_str key) (c_str key),
  )

  pub get-tombstone_index :
      (key k : Bytes) (db db' : Db Index) (pst : LogRecordPst)
      → db'.index ≡ db.index
      → ix.get (tombstone_index db' key pst) k
        ≡ (if bytes_eq (c_str key) (c_str k) then none else ix.get db.index k)
  unfolding tombstone_index
  get-tombstone_index key k db db' pst same = ground (
    arith,
    lawful.get-delete (ix.put db'.index key pst).0 key k,
    lawful.get-put db'.index key k pst,
    same,
  )

  pub not_stored :
      (m : Bytes → Option Bytes) (key : Bytes) (db : Db Index)
      → Models env ix db m
      → ix.get db.index key ≡ none
      → Models env ix db (updated m (c_str key) none)
  not_stored m key db models e = record {
    valid = models.valid;
    entries = λ k. elim (Bool-cases (bytes_eq (c_str key) (c_str k))) [
      | inl same ↦
          let gone : ix.get db.index k ≡ none = cc (
            lawful.get_c_str db.index k,
            lawful.get_c_str db.index key,
            (bytes_eq_iff (c_str key) (c_str k)).0 same,
            e,
          ) in
          rw (same, gone) tt
      | inr other ↦ rw other (models.entries k)
    ];
  }

  -- In a reliable environment, with an indexer that is a map, on a database that stores a map and
  -- has two free file ids: DB::Delete of a key that is not empty and has at most 2 ^ 31 - 4096 bytes
  -- with 16 for the header succeeds, whether the key is stored or not, and then the database stores
  -- nothing under the key, and what it stored under every other key.
  pub delete-Models :
      (m : Bytes → Option Bytes) (key : Bytes) (db : Db Index)
      → Models env ix db m
      → empty key ≡ false
      → length key + 16 + 4096 ≤ 2 ^ 31
      → db.next_file_id + 2 < 2 ^ 32
      → (db' : Db Index) × (delete env ix key db ≡ some (ok tt, db'))
        × Models env ix db' (updated m (c_str key) none)
        × (db'.next_file_id ≤ db.next_file_id + 2)
  unfolding with_index
  delete-Models m key db models keyed fits room = elim (Option-cases (ix.get db.index key)) [
    | inl missing ↦ (
      db,
      unfold delete in ground (arith, missing),
      not_stored m key db models missing,
      omega arith,
    )
    | inr (p, found) ↦
        let (pst, db1, e, appended) =
          append_log_record-Appended env reliable (plain_record key [] deleted_log_record) db
            models.valid room
            (plain_record-IsEncodable key [] deleted_log_record (omega arith) (omega arith)) in
        (
          with_index db1 (tombstone_index db1 key pst),
          delete_steps key db db1 p pst keyed found e,
          delete_entry m key db db1 (tombstone_index db1 key pst) models appended
              (λ k. get-tombstone_index key k db db1 pst appended.ready.grows.same_index),
          appended.ready.ids,
        )
  ]
