-- ===== src/Index.antt =====
-- bitdb/index/index.h: the interface of an indexer, from keys to positions on disk, with what the
-- database relies on. Every indexer takes `key.data()`, so a key counts up to its first null byte.
pub mod TreeIndexer
pub mod SkipListIndexer
use bitdb.Base.{ℕ, ◌≡◌, Bool, true, Option, none, some, if◌then◌else◌}
use bitdb.Bytes.{Bytes, c_str, bytes_eq}
use bitdb.Record.{LogRecordPst}
use bitdb.TreeMap.{is_some}

pub record Indexer (Index : Type 0) : Type 0 where
  pub new : Index
  pub put : Index → Bytes → LogRecordPst → Index × Bool
  pub get : Index → Bytes → Option LogRecordPst
  pub delete : Index → Bytes → Index × Bool
  pub size : Index → ℕ

pub record IsMap {Index : Type 0} (ix : Indexer Index) : Type 0 where
  pub get-new : (k : Bytes) → ix.get ix.new k ≡ none
  pub get_c_str : (i : Index) (k : Bytes) → ix.get i k ≡ ix.get i (c_str k)
  pub put_succeeds : (i : Index) (k : Bytes) (p : LogRecordPst) → (ix.put i k p).1 ≡ true
  pub get-put :
      (i : Index) (k j : Bytes) (p : LogRecordPst)
      → ix.get (ix.put i k p).0 j ≡ (if bytes_eq (c_str k) (c_str j) then some p else ix.get i j)
  pub get-delete :
      (i : Index) (k j : Bytes)
      → ix.get (ix.delete i k).0 j ≡ (if bytes_eq (c_str k) (c_str j) then none else ix.get i j)
  pub delete_found : (i : Index) (k : Bytes) → (ix.delete i k).1 ≡ is_some (ix.get i k)
