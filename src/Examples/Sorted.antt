-- ===== src/Examples/Sorted.antt =====
-- The skip list, its index and its iterator at concrete inputs.
use bitdb.Base.{
  ℕ, ◌+◌, ◌*◌, ◌≤◌, ◌≡◌, refl, arith, Bool, true, Option, none, some, List, [], ◌∷◌, ◌==◌,
  if◌then◌else◌,
}
use bitdb.Base.Pairwise.{Pairwise}
use bitdb.Status.{ok}
use bitdb.Bytes.{Bytes, c_str}
use bitdb.TreeMap.{TreeMap, is_some}
use bitdb.TreeMap
use bitdb.Record.{LogRecordPst}
use bitdb.SkipList.{Node, SkipList, new_node, is_empty, clear}
use bitdb.SkipList.Keyed.{find, insert, remove}
use bitdb.SkipList.Segment.{Tower, Holds, ahead_of, nothing}
use bitdb.SkipList.Keys.{lookup}
use bitdb.SkipList.Valid.{IsValid}
use bitdb.SkipList.Find.{find-lookup, clear_keeps_entries}
use bitdb.SkipList.Insertion.{Inserted}
use bitdb.SkipList.Insert.{insert-Inserted}
use bitdb.SkipList.Unlinking.{Removed}
use bitdb.SkipList.Remove.{remove-Removed}
use bitdb.SkipList.Iterator.{valid, prev}
use bitdb.SkipList.Backward.{iterator_at, prev_steps}
use bitdb.Index.{Indexer, IsMap}
use bitdb.Index.SkipListIndexer.{string_order, string_lt, put, get, delete}
use bitdb.Index.SkipListIndexer.Laws.{
  ValidList, skiplist_indexer, skiplist_indexer-IsMap, skiplist_indexer_lem,
}
use bitdb.Db
use bitdb.Db.{Db, new_db}
use bitdb.Db.Invariant.{Models}
use bitdb.Db.History.{new_db-Models}
use bitdb.Db.Refine.{updated, put-Models}
use bitdb.Db.Scan.{fold, list_keys}
use bitdb.Db.Scan.Entries.{visit, keys_of}
use bitdb.Db.Scan.Whole.{skiplist_iterator, fold-visit}
use bitdb.Examples.World.{disk, disk-IsReliable}
use bitdb.Examples.Store.{small_files}

abbrev pos : ℕ → LogRecordPst
pos offset = record { fid = 0; offset = offset }

abbrev draws : ℕ → ℕ
draws i = 4 * i

abbrev tower_a : Tower Bytes LogRecordPst
tower_a = record { at = 1; key = b'a' ∷ []; value = pos 10; level = 2 }

abbrev tower_b : Tower Bytes LogRecordPst
tower_b = record { at = 2; key = b'b' ∷ []; value = pos 20; level = 1 }

abbrev towers : List (Tower Bytes LogRecordPst)
towers = tower_a ∷ tower_b ∷ []

abbrev root_next : ℕ → Option ℕ
root_next i = if i == 0 then some 1 else if i == 1 then some 1 else none

abbrev a_next : ℕ → Option ℕ
a_next i = if i == 0 then some 2 else none

abbrev nodes : ℕ → Option (Node Bytes LogRecordPst)
nodes a =
    if a == 0
    then some (record { key = []; value = pos 0; level = 40; next = root_next })
    else if a == 1
    then some (record { key = b'a' ∷ []; value = pos 10; level = 2; next = a_next })
    else if a == 2
    then some (new_node 1 (b'b' ∷ []) (pos 20))
    else none

-- A skip list of two entries.
abbrev two : SkipList Bytes LogRecordPst
two = record { heap = nodes; head = 0; level = 2; size = 2; fresh = 3; rander = draws }

abbrev root : Tower Bytes LogRecordPst
root = record { at = 0; key = []; value = pos 0; level = 40 }

root_node : Holds nodes root (ahead_of towers nothing)
root_node = record {
  node = record { key = []; value = pos 0; level = 40; next = root_next };
  stored = refl;
  key = refl;
  value = refl;
  level = refl;
  next = λ i lt. ground arith;
}

a_node : Holds nodes tower_a (ahead_of (tower_b ∷ []) nothing)
a_node = record {
  node = record { key = b'a' ∷ []; value = pos 10; level = 2; next = a_next };
  stored = refl;
  key = refl;
  value = refl;
  level = refl;
  next = λ i lt. ground arith;
}

b_node : Holds nodes tower_b (ahead_of {K = Bytes} {V = LogRecordPst} [] nothing)
b_node = record {
  node = new_node 1 (b'b' ∷ []) (pos 20);
  stored = refl;
  key = refl;
  value = refl;
  level = refl;
  next = λ i lt. refl;
}

two-IsValid : IsValid string_order two towers
unfolding string_lt
two-IsValid = record {
  root = root;
  root_at = refl;
  root_level = refl;
  segment = (root_node, (a_node, (b_node, tt)));
  distinct = (
    (λ e. omega (arith, e), (λ e. omega (arith, e), tt)),
    ((λ e. omega (arith, e), tt), (tt, tt)),
  );
  young = (omega arith, (omega arith, (omega arith, tt)));
  levels = ((omega arith, omega arith), ((omega arith, omega arith), tt));
  level_pos = omega arith;
  level_max = omega arith;
  sorted = ((refl, tt), (tt, tt));
  size = refl;
  counted = omega arith;
}

find-lookup_example :
    find string_order two (b'b' ∷ []) ≡ some (lookup string_order (b'b' ∷ []) towers)
find-lookup_example = find-lookup string_order two towers (b'b' ∷ []) two-IsValid

insert-Inserted_example :
    Inserted string_order two towers
      (b'a' ∷ b'x' ∷ [])
      (pos 30)
      (insert string_order two (b'a' ∷ b'x' ∷ []) (pos 30))
insert-Inserted_example =
    insert-Inserted string_order two towers (b'a' ∷ b'x' ∷ []) (pos 30) two-IsValid

remove-Removed_example :
    Removed string_order two towers (b'a' ∷ []) (remove string_order two (b'a' ∷ []))
remove-Removed_example = remove-Removed string_order two towers (b'a' ∷ []) two-IsValid

clear_keeps_entries_example :
    (is_empty (clear two) ≡ true)
    × (find string_order (clear two) (b'a' ∷ []) ≡ some (lookup string_order (b'a' ∷ []) towers))
clear_keeps_entries_example = clear_keeps_entries string_order two towers (b'a' ∷ []) two-IsValid

prev_steps_example :
    (prev string_order (iterator_at string_order two (some 2))
      ≡ some (iterator_at string_order two (some 1)))
    × (prev string_order (iterator_at string_order two (some 1))
        ≡ some (iterator_at string_order two (some 0)))
    × (valid (iterator_at string_order two (some 0)) ≡ true)
prev_steps_example =
    prev_steps string_order two [] [] tower_a tower_b two-IsValid tower_a (tower_b ∷ []) refl

abbrev index : Indexer ValidList
index = skiplist_indexer (pos 0) draws

skiplist_indexer_example :
    IsMap index
    × (put index.new.list (b'k' ∷ []) (pos 5)
        ≡ some (
          (index.put index.new (b'k' ∷ []) (pos 5)).0.list,
          (index.put index.new (b'k' ∷ []) (pos 5)).1,
        ))
    × (get index.new.list (b'k' ∷ []) ≡ some (index.get index.new (b'k' ∷ [])))
    × (delete index.new.list (b'k' ∷ [])
        ≡ some
            ((index.delete index.new (b'k' ∷ [])).0.list, (index.delete index.new (b'k' ∷ [])).1))
skiplist_indexer_example = skiplist_indexer_lem (pos 0) draws index.new (b'k' ∷ []) (pos 5)

abbrev nothing_stored : Bytes → Option Bytes
nothing_stored k = none

abbrev stored : Bytes → Option Bytes
stored = updated nothing_stored (c_str (b'k' ∷ [])) (some (c_str (b'v' ∷ [])))

after_put :
    (db : Db ValidList) × (Db.put disk index (b'k' ∷ []) (b'v' ∷ []) (new_db index small_files)
      ≡ some (ok tt, db))
    × Models disk index db stored
    × (db.next_file_id ≤ (new_db index small_files).next_file_id + 2)
unfolding new_db
after_put =
    put-Models disk disk-IsReliable index (skiplist_indexer-IsMap (pos 0) draws) nothing_stored
      (b'k' ∷ []) (b'v' ∷ []) (new_db index small_files)
      (new_db-Models disk index (skiplist_indexer-IsMap (pos 0) draws) small_files) refl
      (omega arith) (omega arith)

-- A function of the user that counts, and stops at the second entry.
abbrev count_two : ℕ → Bytes → Bytes → ℕ × Bool
count_two n k v = (n + 1, n == 0)

fold-visit_example :
    (kvs : TreeMap Bytes) × Pairwise (λ (x y : Bytes × Bytes). string_lt x.0 y.0 ≡ true) kvs
    × ((j : Bytes) → c_str j ≡ j → TreeMap.find j kvs ≡ stored j)
    × (fold index (skiplist_iterator none) disk count_two 0 after_put.0
        ≡ some (ok tt, after_put.0, visit count_two 0 kvs))
    × (list_keys index (skiplist_iterator none) after_put.0 [] ≡ some (ok (keys_of kvs)))
fold-visit_example =
    fold-visit disk disk-IsReliable (pos 0) draws after_put.0 stored after_put.2 count_two 0 [] none
