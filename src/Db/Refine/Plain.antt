-- ===== src/Db/Refine/Plain.antt =====
-- bitdb/db.cpp: the records of DB::Put and DB::Delete, and an index that is exchanged.
use bitdb.Base.{
  ◌≤◌, ℕ, ◌+◌, ◌^◌, ◌<◌, ◌≡◌, refl, Option, none, some, [], ◌∷◌, ◌++◌, length, if◌then◌else◌, arith,
}
use bitdb.Bytes.{Bytes, c_str, bytes_eq}
use bitdb.Bytes.Order.{length-c_str}
use bitdb.Coding.{encode_varint64}
use bitdb.Env.{Env}
use bitdb.Record.{LogRecord, LogRecordPst}
use bitdb.Record.Layout.{IsEncodable}
use bitdb.Db.{Db}
use bitdb.Db.Invariant.{IsValid, Agrees}

-- m[k] = v, and the removal of k.
abbrev pub updated : (Bytes → Option Bytes) → Bytes → Option Bytes → Bytes → Option Bytes
updated m k v j = if bytes_eq k j then v else m j

-- The key of a record that belongs to no transaction, and its size.
abbrev pub plain_key : Bytes → Bytes
plain_key key = encode_varint64 0 ++ c_str key

abbrev pub plain_record : Bytes → Bytes → ℕ → LogRecord
plain_record key value type = record { key = plain_key key; value = value; type = type }

pub zero_code : encode_varint64 0 ≡ 0 ∷ []
unfolding encode_varint64
zero_code = refl

pub plain_record-IsEncodable :
    (key value : Bytes) (type : ℕ)
    → length key + length value + 16 + 4096 ≤ 2 ^ 31
    → type < 256
    → IsEncodable (plain_record key value type)
plain_record-IsEncodable key value type fits byte = record {
  keyed = rw zero_code;
  fits = rw zero_code (omega (arith, length-c_str key));
  byte_type = byte;
}

module _ {Index : Type 0} where
  unfoldable pub with_index : Db Index → Index → Db Index
  with_index db i = record db { index = i }

  pub IsValid-with_index : (db : Db Index) (i : Index) → IsValid db → IsValid (with_index db i)
  unfolding with_index
  IsValid-with_index db i v = record {
    at_end = v.at_end;
    active_below = v.active_below;
    active_apart = v.active_apart;
    fresh = v.fresh;
  }

  pub Agrees-with_index :
      (env : Env) (db : Db Index) (i : Index) (p : Option LogRecordPst) (v : Option Bytes)
      → Agrees env db p v
      → Agrees env (with_index db i) p v
  unfolding with_index
  Agrees-with_index env db i none none h = h
  Agrees-with_index env db i none (some v) h = h
  Agrees-with_index env db i (some p) none h = h
  Agrees-with_index env db i (some p) (some v) h =
      let s = h.1 in
      (
        h.0,
        record {
          file = s.file;
          active = s.active;
          pre = s.pre;
          post = s.post;
          has_active = s.has_active;
          at_file = s.at_file;
          layout = s.layout;
          at_offset = s.at_offset;
          encodable = s.encodable;
        },
        h.2,
        h.3,
      )
