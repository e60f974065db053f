-- ===== src/Db/Lookup.antt =====
-- DB::Get against the map that the database stores.
use bitdb.Base.{◌≡◌, refl, true, false, Option, none, some, length, arith}
use bitdb.Status.{Outcome, ok, err, not_found}
use bitdb.Bytes.{Bytes, c_str, empty}
use bitdb.Env.{Env, IsReliable}
use bitdb.Record.{LogRecord, LogRecordPst, encode_log_record, normal_log_record}
use bitdb.DataFile.{read_log_record}
use bitdb.DataFile.Read.{read_log_record-encode_log_record}
use bitdb.Index.{Indexer}
use bitdb.Db.{Db, data_file_of, get_value_by_log_record_pst, get}
use bitdb.Db.Invariant.{Stored, Models, Agrees}

-- What a client is told of a key.
abbrev pub answer : Option Bytes → Outcome Bytes
answer none = err not_found
answer (some v) = ok v

-- What comes of a null pointer for the value.
abbrev pub null_answer :
    {Index : Type 0} → Option Bytes → Db Index → Option (Outcome Bytes × Db Index)
null_answer none db = some (err not_found, db)
null_answer (some v) db = none

module _ {Index : Type 0} (env : Env) (reliable : IsReliable env) where
  data_file_of-Stored :
      {db : Db Index} {pst : LogRecordPst} {r : LogRecord} (s : Stored env db pst r)
      → data_file_of env pst.fid db ≡ some (ok (some s.file), db)
  unfolding data_file_of
  data_file_of-Stored s = ground (arith, s.has_active, s.at_file)

  read_log_record-Stored :
      {db : Db Index} {pst : LogRecordPst} {r : LogRecord} (s : Stored env db pst r)
      → read_log_record env s.file.contents pst.offset
        ≡ some (ok (r, length (encode_log_record env r)))
  read_log_record-Stored {r = r} s =
      rw (s.layout, s.at_offset)
        (read_log_record-encode_log_record env reliable r s.pre s.post s.encodable)

  -- The value of a stored record is found, and the database stays as it is.
  pub get_value-Stored :
      {db : Db Index} {pst : LogRecordPst} {r : LogRecord}
      → Stored env db pst r
      → r.type ≡ normal_log_record
      → get_value_by_log_record_pst env pst false db ≡ some (ok r.value, db)
  unfolding get_value_by_log_record_pst
  get_value-Stored s normal = ground (arith, data_file_of-Stored s, read_log_record-Stored s)

  get-entry :
      (ix : Indexer Index) (key : Bytes) (db : Db Index) (p : Option LogRecordPst)
      (v : Option Bytes)
      → empty key ≡ false
      → ix.get db.index key ≡ p
      → Agrees env db p v
      → get env ix key false db ≡ some (answer v, db)
  unfolding get
  get-entry ix key db none none keyed e h = ground (arith, e)
  get-entry ix key db none (some v) keyed e h = absurd h
  get-entry ix key db (some p) none keyed e h = absurd h
  get-entry ix key db (some p) (some v) keyed e h = ground (arith, e, get_value-Stored h.1 h.2, h.3)

  -- In a reliable environment, on a database that stores a map: DB::Get of a key that is not empty
  -- answers with the value that is stored for it, or not_found, and changes nothing.
  pub get-Models :
      (ix : Indexer Index) (m : Bytes → Option Bytes) (key : Bytes) (db : Db Index)
      → empty key ≡ false
      → Models env ix db m
      → get env ix key false db ≡ some (answer (m (c_str key)), db)
  get-Models ix m key db keyed models =
      get-entry ix key db (ix.get db.index key) (m (c_str key)) keyed refl (models.entries key)

  get_value_into_null :
      {db : Db Index} {pst : LogRecordPst} {r : LogRecord}
      → Stored env db pst r
      → r.type ≡ normal_log_record
      → get_value_by_log_record_pst env pst true db ≡ none
  unfolding get_value_by_log_record_pst
  get_value_into_null s normal = ground (arith, data_file_of-Stored s, read_log_record-Stored s)

  get_into_null-entry :
      (ix : Indexer Index) (key : Bytes) (db : Db Index) (p : Option LogRecordPst)
      (v : Option Bytes)
      → empty key ≡ false
      → ix.get db.index key ≡ p
      → Agrees env db p v
      → get env ix key true db ≡ null_answer v db
  unfolding get
  get_into_null-entry ix key db none none keyed e h = ground (arith, e)
  get_into_null-entry ix key db none (some v) keyed e h = absurd h
  get_into_null-entry ix key db (some p) none keyed e h = absurd h
  get_into_null-entry ix key db (some p) (some v) keyed e h =
      ground (arith, e, get_value_into_null h.1 h.2)

  -- DB::Get with a null pointer for the value answers not_found for a key that is not stored, and
  -- writes through the null pointer for one that is.
  pub get_into_null-Models :
      (ix : Indexer Index) (m : Bytes → Option Bytes) (key : Bytes) (db : Db Index)
      → empty key ≡ false
      → Models env ix db m
      → get env ix key true db ≡ null_answer (m (c_str key)) db
  get_into_null-Models ix m key db keyed models =
      get_into_null-entry ix key db (ix.get db.index key) (m (c_str key)) keyed refl
        (models.entries key)
