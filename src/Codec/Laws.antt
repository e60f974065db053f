-- ===== src/Codec/Laws.antt =====
-- bitdb/codec/serializer.h: what is read back.
use mathlib.Core.List.{append_assoc, append-nil}
use mathlib.Core.Path.{subst}
use native.Mathlib.Nat.{pow-suc}
use bitdb.Base.{
  ℕ, zero, suc, ◌+◌, ◌/◌, ◌%◌, ◌^◌, ◌<◌, ◌≡◌, refl, ◌∙◌, sym, Bool, some, List, [], ◌∷◌, ◌++◌,
  length, arith, All, length-append, drop-append, take-append, le→leb, if◌then◌else◌,
}
use bitdb.Bytes.{Bytes}
use bitdb.Codec.{
  Serializer, Codec, insert_end, copy, to_bytes, of_bytes, arithmetic, bool, string, resize,
  serialize_all, deserialize_all, sequence, tuple, serializer_of, str, new_serializer,
}

-- A serializer that has read `before` and has `rest` to read.
abbrev pub reading : Bytes → Bytes → Serializer
reading before rest = record { buffer = before ++ rest; deserialize_pos = length before }

-- What the users of a codec rely on: it appends bytes of its own, and reads them back, whatever is
-- before and behind them and whatever the object was before.
pub record IsLawful {A : Type 0} (codec : Codec A) (Valid : A → Type 0) : Type 0 where
  pub bytes_of : A → Bytes
  pub writes : (a : A) (s : Serializer) → codec.serialize a s ≡ insert_end (bytes_of a) s
  pub reads :
      (a old : A) (before rest : Bytes)
      → Valid a
      → codec.deserialize old (reading before (bytes_of a ++ rest))
        ≡ some (a, reading (before ++ bytes_of a) rest)

length-to_bytes : (size value : ℕ) → length (to_bytes size value) ≡ size
unfolding to_bytes
length-to_bytes zero value = refl
length-to_bytes (suc size) value = omega (arith, length-to_bytes size (value / 256))

of_bytes-to_bytes : (size value : ℕ) → value < 256 ^ size → of_bytes (to_bytes size value) ≡ value
unfolding of_bytes to_bytes
of_bytes-to_bytes zero value h = omega arith
of_bytes-to_bytes (suc size) value h =
    omega (arith, of_bytes-to_bytes size (value / 256) (omega (arith, pow-suc 256 size)))

copy-reading :
    (bytes before rest : Bytes)
    → copy (length bytes) (reading before (bytes ++ rest))
      ≡ some (bytes, reading (before ++ bytes) rest)
unfolding copy
copy-reading bytes before rest =
    rw
      (
        le→leb (length before + length bytes) (length (before ++ (bytes ++ rest)))
            (omega (arith, length-append before (bytes ++ rest), length-append bytes rest)),
        drop-append before (bytes ++ rest) (length before) refl,
        take-append bytes rest (length bytes) refl,
        append_assoc before bytes rest,
        length-append before bytes,
      )
      refl

copy_size :
    (size : ℕ) (bytes before rest : Bytes)
    → length bytes ≡ size
    → copy size (reading before (bytes ++ rest)) ≡ some (bytes, reading (before ++ bytes) rest)
copy_size size bytes before rest same = rw (sym same) (copy-reading bytes before rest)

-- Numbers that fit the type
pub arithmetic-IsLawful : (size : ℕ) → IsLawful (arithmetic size) (λ value. value < 256 ^ size)
unfolding arithmetic
arithmetic-IsLawful size = record {
  bytes_of = to_bytes size;
  writes = λ value s. refl;
  reads = λ value old before rest fits.
      rw
        (
          copy_size size (to_bytes size value) before rest (length-to_bytes size value),
          of_bytes-to_bytes size value fits,
        )
        refl;
}

abbrev bool_byte : Bool → Bytes
bool_byte value = (if value then 1 else 0) ∷ []

pub bool-IsLawful : IsLawful bool (λ value. Unit)
unfolding bool of_bytes
bool-IsLawful = record {
  bytes_of = bool_byte;
  writes = λ value s. refl;
  reads = λ value old before rest fits.
      rw (copy_size 1 (bool_byte value) before rest refl) (ground arith);
}

insert_end-insert_end :
    (a b : Bytes) (s : Serializer) → insert_end b (insert_end a s) ≡ insert_end (a ++ b) s
unfolding insert_end
insert_end-insert_end a b s = rw (append_assoc s.buffer a b) refl

pub string-IsLawful : IsLawful string (λ value. length value < 2 ^ 64)
unfolding string arithmetic
string-IsLawful = record {
  bytes_of = λ value. to_bytes 8 (length value) ++ value;
  writes = λ value s. insert_end-insert_end (to_bytes 8 (length value)) value s;
  reads = λ value old before rest fits.
      let size = to_bytes 8 (length value) in
      rw
        (
          append_assoc size value rest,
          copy_size 8 size before (value ++ rest) (length-to_bytes 8 (length value)),
          of_bytes-to_bytes 8 (length value) fits,
          copy-reading value (before ++ size) rest,
          append_assoc before size value,
        )
        refl;
}

module _ {A : Type 0} where
  length-resize : (size : ℕ) (blank : A) (items : List A) → length (resize size blank items) ≡ size
  unfolding resize
  length-resize zero blank items = refl
  length-resize (suc size) blank [] = omega (arith, length-resize size blank [])
  length-resize (suc size) blank (item ∷ items) = omega (arith, length-resize size blank items)

  abbrev all_bytes : (A → Bytes) → List A → Bytes
  all_bytes bytes_of [] = []
  all_bytes bytes_of (item ∷ items) = bytes_of item ++ all_bytes bytes_of items

  module _ (codec : Codec A) (Valid : A → Type 0) (law : IsLawful codec Valid) where
    serialize_all-all_bytes :
        (items : List A) (s : Serializer)
        → serialize_all codec items s ≡ insert_end (all_bytes law.bytes_of items) s
    unfolding serialize_all insert_end
    serialize_all-all_bytes [] s = rw (append-nil s.buffer) refl
    serialize_all-all_bytes (item ∷ items) s =
        rw (law.writes item s, serialize_all-all_bytes items (insert_end (law.bytes_of item) s))
          (insert_end-insert_end (law.bytes_of item) (all_bytes law.bytes_of items) s)

    deserialize_all-all_bytes :
        (items olds : List A) (before rest : Bytes)
        → length olds ≡ length items
        → All Valid items
        → deserialize_all codec olds (reading before (all_bytes law.bytes_of items ++ rest))
          ≡ some (items, reading (before ++ all_bytes law.bytes_of items) rest)
    unfolding deserialize_all
    deserialize_all-all_bytes [] [] before rest same valid = rw (append-nil before) refl
    deserialize_all-all_bytes [] (old ∷ olds) before rest same valid = absurd (omega arith)
    deserialize_all-all_bytes (item ∷ items) [] before rest same valid = absurd (omega arith)
    deserialize_all-all_bytes (item ∷ items) (old ∷ olds) before rest same (valid, others) =
        let first = law.bytes_of item in
        let more = all_bytes law.bytes_of items in
        rw
          (
            append_assoc first more rest,
            law.reads item old before (more ++ rest) valid,
            deserialize_all-all_bytes items olds (before ++ first) rest (omega arith) others,
            append_assoc before first more,
          )
          refl

    -- The sequence containers of fewer than 2 ^ 32 items
    pub sequence-IsLawful :
        (blank : A)
        → IsLawful (sequence blank codec) (λ items. (length items < 2 ^ 32) × All Valid items)
    unfolding sequence arithmetic
    sequence-IsLawful blank = record {
      bytes_of = λ items. to_bytes 4 (length items % 2 ^ 32) ++ all_bytes law.bytes_of items;
      writes = λ items s.
          let size = to_bytes 4 (length items % 2 ^ 32) in
          serialize_all-all_bytes items (insert_end size s)
          ∙ insert_end-insert_end size (all_bytes law.bytes_of items) s;
      reads = λ items old before rest (fits, valid).
          let number : length items % 2 ^ 32 ≡ length items = omega arith in
          let size = to_bytes 4 (length items) in
          let bytes = all_bytes law.bytes_of items in
          rw
            (
              number,
              append_assoc size bytes rest,
              copy_size 4 size before (bytes ++ rest) (length-to_bytes 4 (length items)),
              of_bytes-to_bytes 4 (length items) fits,
              deserialize_all-all_bytes items (resize (length items) blank old) (before ++ size)
                  rest (length-resize (length items) blank old) valid,
              append_assoc before size bytes,
            )
            refl;
    }

module _ {A B : Type 0} (first : Codec A) (second : Codec B) (P : A → Type 0) (Q : B → Type 0) where
  -- std::tuple of two
  pub tuple-IsLawful :
      IsLawful first P → IsLawful second Q → IsLawful (tuple first second) (λ (a, b). P a × Q b)
  unfolding tuple
  tuple-IsLawful p q = record {
    bytes_of = λ (a, b). p.bytes_of a ++ q.bytes_of b;
    writes = λ (a, b) s.
        rw (p.writes a s, q.writes b (insert_end (p.bytes_of a) s))
          (insert_end-insert_end (p.bytes_of a) (q.bytes_of b) s);
    reads = λ (a, b) (old_a, old_b) before rest (valid_a, valid_b).
        rw
          (
            append_assoc (p.bytes_of a) (q.bytes_of b) rest,
            p.reads a old_a before (q.bytes_of b ++ rest) valid_a,
            q.reads b old_b (before ++ p.bytes_of a) rest valid_b,
            append_assoc before (p.bytes_of a) (q.bytes_of b),
          )
          refl;
  }

-- What one serializer has written, another one that is made from its bytes reads back.
pub deserialize-str :
    {A : Type 0} (codec : Codec A) (Valid : A → Type 0) (law : IsLawful codec Valid) (a old : A)
    → Valid a
    → (s : Serializer) × (codec.deserialize old
          (serializer_of (str (codec.serialize a new_serializer)))
        ≡ some (a, s))
unfolding serializer_of str new_serializer insert_end
deserialize-str codec Valid law a old valid =
    let bytes = law.bytes_of a in
    (
      reading bytes [],
      rw (law.writes a new_serializer) (
          subst
            (λ (text : Bytes).
              codec.deserialize old (record { buffer = text; deserialize_pos = 0 })
              ≡ some (a, reading bytes []))
            (append-nil bytes) (law.reads a old [] [] valid)),
    )
