-- ===== src/Index/SkipListIndexer.antt =====
-- bitdb/index/skiplist_index.cpp: an indexer over a skip list of std::strings. The reader-writer
-- lock is left out: each method holds it from start to end.
pub mod Laws
use bitdb.Base.{
  ℕ, zero, suc, ◌<◌, ◌≡◌, refl, sym, ap, ◌∙◌, Bool, true, false, Option, none, some, List, [], ◌∷◌,
  arith, ltb, ◌==◌, if◌then◌else◌, ◌>>=◌, Bool-cases, inl, inr, All,
}
use mathlib.Core.Logic.{◌↔◌}
use bitdb.Bytes.{Bytes, c_str, bytes_eq}
use bitdb.Bytes.Order.{bytes_eq_iff, c_str-c_str}
use bitdb.Record.{LogRecordPst}
use bitdb.TreeMap.{is_some}
use bitdb.Index.{Indexer, IsMap}
use bitdb.SkipList.{SkipList, Order, new_list}
use bitdb.SkipList.Keyed.{find, insert, remove}
use bitdb.SkipList.Segment.{Tower}
use bitdb.SkipList.Keys.{lookup}
use bitdb.SkipList.Valid.{IsValid}
use bitdb.SkipList.Find.{find-lookup}
use bitdb.SkipList.Insertion.{Inserted}
use bitdb.SkipList.Insert.{insert-Inserted}
use bitdb.SkipList.Unlinking.{Removed}
use bitdb.SkipList.Remove.{remove-Removed}

-- operator< of std::string
unfoldable pub string_lt : Bytes → Bytes → Bool
string_lt x [] = false
string_lt [] (b ∷ y) = true
string_lt (a ∷ x) (b ∷ y) =
    let rest = string_lt x y in if ltb a b then true else if ltb b a then false else rest

pub string_lt_irrefl : (x : Bytes) → string_lt x x ≡ false
unfolding string_lt
string_lt_irrefl [] = refl
string_lt_irrefl (a ∷ x) = ground (arith, string_lt_irrefl x)

pub string_lt_trans :
    (x y z : Bytes) → string_lt x y ≡ true → string_lt y z ≡ true → string_lt x z ≡ true
unfolding string_lt
string_lt_trans x [] z h k = cc
string_lt_trans x (b ∷ y) [] h k = cc
string_lt_trans [] (b ∷ y) (c ∷ z) h k = refl
string_lt_trans (a ∷ x) (b ∷ y) (c ∷ z) h k = ground (arith, string_lt_trans x y z)

pub string_lt_total : (x y : Bytes) → string_lt x y ≡ false → string_lt y x ≡ false → x ≡ y
unfolding string_lt
string_lt_total [] [] h k = refl
string_lt_total [] (b ∷ y) h k = cc
string_lt_total (a ∷ x) [] h k = cc
string_lt_total (a ∷ x) (b ∷ y) h k = ground (arith, string_lt_total x y)

abbrev pub string_order : Order Bytes
string_order = record {
  lt = string_lt;
  eq = bytes_eq;
  eq_iff = bytes_eq_iff;
  lt_irrefl = string_lt_irrefl;
  lt_trans = string_lt_trans;
  lt_total = string_lt_total;
}

abbrev pub StringList : Type 0
StringList = SkipList Bytes LogRecordPst

-- Put
unfoldable pub put : StringList → Bytes → LogRecordPst → Option (StringList × Bool)
put ds key pos = do ds ← insert string_order ds (c_str key) pos; some (ds, true)

-- Get
unfoldable pub get : StringList → Bytes → Option (Option LogRecordPst)
get ds key = find string_order ds (c_str key)

-- Delete; the key was there if a value is handed out.
unfoldable pub delete : StringList → Bytes → Option (StringList × Bool)
delete ds key = do (ds, value) ← remove string_order ds (c_str key); some (ds, is_some value)

-- Size
unfoldable pub size : StringList → ℕ
size ds = ds.size
