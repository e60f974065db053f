-- ===== src/Index/TreeIndexer.antt =====
-- bitdb/index/treemap_index.cpp and hashmap_index.cpp: an indexer over a map. The two classes have
-- the same bodies. The reader-writer lock is left out: each method holds it from start to end.
use bitdb.Base.{ℕ, refl, Bool, true, Option, [], length}
use bitdb.Bytes.{Bytes, c_str}
use bitdb.Bytes.Order.{c_str-c_str}
use bitdb.Record.{LogRecordPst}
use bitdb.TreeMap.{TreeMap, is_some, find, insert, erase, find-insert, find-erase}
use bitdb.Index.{Indexer, IsMap}

unfoldable pub put : TreeMap LogRecordPst → Bytes → LogRecordPst → TreeMap LogRecordPst × Bool
put ds key pos = (insert (c_str key) pos ds, true)

unfoldable pub get : TreeMap LogRecordPst → Bytes → Option LogRecordPst
get ds key = find (c_str key) ds

-- `erase` returns 1 if the key was there.
unfoldable pub delete : TreeMap LogRecordPst → Bytes → TreeMap LogRecordPst × Bool
delete ds key = (erase (c_str key) ds, is_some (find (c_str key) ds))

unfoldable pub size : TreeMap LogRecordPst → ℕ
size ds = length ds

abbrev pub tree_indexer : Indexer (TreeMap LogRecordPst)
tree_indexer = record { new = []; put = put; get = get; delete = delete; size = size }

-- The map indexers give the database what it relies on.
pub tree_indexer-IsMap : IsMap tree_indexer
unfolding put get delete find
tree_indexer-IsMap = record {
  get-new = λ k. refl;
  get_c_str = λ i k. rw (c_str-c_str k);
  put_succeeds = λ i k p. refl;
  get-put = λ i k j p. find-insert (c_str k) (c_str j) p i;
  get-delete = λ i k j. find-erase (c_str k) (c_str j) i;
  delete_found = λ i k. refl;
}

-- HashIndexer, whose methods have the same bodies over an unordered map.
abbrev pub hash_indexer : Indexer (TreeMap LogRecordPst)
hash_indexer = record { new = []; put = put; get = get; delete = delete; size = size }
