-- ===== src/Codec.antt =====
-- bitdb/codec/serializer.h: values as bytes, one behind the other. An arithmetic value is given by
-- its object representation, as a number of the bytes that `sizeof` says, the lowest one first.
-- `none` is undefined behaviour: a read past the end of the buffer.
pub mod Laws
pub mod Protocol
use bitdb.Base.{
  ℕ, zero, suc, ◌+◌, ◌*◌, ◌/◌, ◌%◌, ◌^◌, Bool, true, false, Option, none, some, List, [], ◌∷◌, ◌++◌,
  length, take, drop, leb, ◌==◌, if◌then◌else◌, ◌>>=◌,
}
use bitdb.Bytes.{Bytes}

pub record Serializer : Type 0 where
  pub buffer : Bytes
  pub deserialize_pos : ℕ

-- Serializer() and Serializer(data)
unfoldable pub new_serializer : Serializer
new_serializer = record { buffer = []; deserialize_pos = 0 }

unfoldable pub serializer_of : Bytes → Serializer
serializer_of text = record { buffer = text; deserialize_pos = 0 }

unfoldable pub clear : Serializer → Serializer
clear s = record { buffer = []; deserialize_pos = 0 }

-- Serializer::str
unfoldable pub str : Serializer → Bytes
str s = s.buffer

-- buffer_.insert(buffer_.end(), ...)
unfoldable pub insert_end : Bytes → Serializer → Serializer
insert_end bytes s = record s { buffer = s.buffer ++ bytes }

-- The bytes from the position on, as many as asked for.
unfoldable pub copy : ℕ → Serializer → Option (Bytes × Serializer)
copy size s =
    if leb (s.deserialize_pos + size) (length s.buffer)
    then some (
      take size (drop s.deserialize_pos s.buffer),
      record s { deserialize_pos = s.deserialize_pos + size },
    )
    else none

-- The overloads for one type: `serialize`, and `deserialize` into an object that has a value.
pub record Codec (A : Type 0) : Type 0 where
  pub serialize : A → Serializer → Serializer
  pub deserialize : A → Serializer → Option (A × Serializer)

-- The object representation of a number with so many bytes.
unfoldable pub to_bytes : ℕ → ℕ → Bytes
to_bytes zero value = []
to_bytes (suc size) value = (value % 256) ∷ to_bytes size (value / 256)

unfoldable pub of_bytes : Bytes → ℕ
of_bytes [] = 0
of_bytes (b ∷ bytes) = b + 256 * of_bytes bytes

-- Arithmetic types
unfoldable pub arithmetic : ℕ → Codec ℕ
arithmetic size = record {
  serialize = λ value s. insert_end (to_bytes size value) s;
  deserialize = λ old s. (do (bytes, s) ← copy size s; some (of_bytes bytes, s));
}

abbrev bool_of : ℕ → Serializer → Option (Bool × Serializer)
bool_of value s =
    if value == 0 then some (false, s) else if value == 1 then some (true, s) else none

-- `bool`: another byte than 0 and 1 is no value of the type.
unfoldable pub bool : Codec Bool
bool = record {
  serialize = λ value s. insert_end ((if value then 1 else 0) ∷ []) s;
  deserialize = λ old s. (do (bytes, s) ← copy 1 s; bool_of (of_bytes bytes) s);
}

-- std::string
unfoldable pub string : Codec Bytes
unfolding arithmetic
string = record {
  serialize = λ value s. insert_end value ((arithmetic 8).serialize (length value) s);
  deserialize = λ old s. (do (size, s) ← (arithmetic 8).deserialize (length old) s; copy size s);
}

module _ {A : Type 0} where
  -- value->resize(size)
  unfoldable pub resize : ℕ → A → List A → List A
  resize zero blank items = []
  resize (suc size) blank [] = blank ∷ resize size blank []
  resize (suc size) blank (item ∷ items) = item ∷ resize size blank items

  unfoldable pub serialize_all : Codec A → List A → Serializer → Serializer
  serialize_all codec [] s = s
  serialize_all codec (item ∷ items) s = serialize_all codec items (codec.serialize item s)

  unfoldable pub deserialize_all : Codec A → List A → Serializer → Option (List A × Serializer)
  deserialize_all codec [] s = some ([], s)
  deserialize_all codec (item ∷ items) s = do
    (item, s) ← codec.deserialize item s
    (items, s) ← deserialize_all codec items s
    some (item ∷ items, s)

  -- The sequence containers; `blank` is what the default constructor of an item makes.
  unfoldable pub sequence : A → Codec A → Codec (List A)
  unfolding arithmetic
  sequence blank codec = record {
    serialize =
        λ items s. serialize_all codec items ((arithmetic 4).serialize (length items % 2 ^ 32) s);
    deserialize = λ old s. (do
      (size, s) ← (arithmetic 4).deserialize 0 s
      deserialize_all codec (resize size blank old) s);
  }

module _ {A B : Type 0} where
  -- std::tuple of two
  unfoldable pub tuple : Codec A → Codec B → Codec (A × B)
  tuple first second = record {
    serialize = λ (a, b) s. second.serialize b (first.serialize a s);
    deserialize = λ (a, b) s. (do
      (a, s) ← first.deserialize a s
      (b, s) ← second.deserialize b s
      some ((a, b), s));
  }
