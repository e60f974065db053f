-- ===== src/Db/Scan/Whole.antt =====
-- bitdb/db.cpp: DB::Fold and DB::ListKeys of a database over a skip list.
use bitdb.Base.{
  ℕ, zero, suc, ◌<◌, ◌≡◌, refl, ◌∙◌, Bool, true, Option, none, some, List, [], ◌∷◌, arith, All-map,
  length, inl, inr, Option-cases,
}
use mathlib.Core.Path.{subst}
use bitdb.Base.Pairwise.{Pairwise}
use bitdb.Status.{ok}
use bitdb.Bytes.{Bytes, c_str}
use bitdb.TreeMap.{TreeMap, find}
use bitdb.Env.{Env, IsReliable}
use bitdb.Record.{LogRecordPst}
use bitdb.Index.SkipListIndexer.{string_order, string_lt, size}
use bitdb.Index.SkipListIndexer.Laws.{ValidList, skiplist_indexer}
use bitdb.SkipList.{Ptr}
use bitdb.SkipList.Keys.{lookup, lookup_each}
use bitdb.SkipList.Iterator.{Iterator}
use bitdb.SkipList.Iterate.{all-IsTall, seek_to_first-cursor}
use bitdb.Db.{Db}
use bitdb.Db.Invariant.{Models, Agrees}
use bitdb.Db.Scan.{resize, list_keys, fold}
use bitdb.Db.Scan.Entries.{
  AllAgree, entries, visit, keys_of, fold_loop-visit, list_loop-keys, find-entries,
  entries-IsAscending,
}

-- SkipListIndexer::Iterator: the indexer keeps one iterator, which stands where the last caller has
-- left it, and nowhere at first.
abbrev pub skiplist_iterator : Option Ptr → ValidList → Option (Iterator Bytes LogRecordPst)
skiplist_iterator index_iter s = some (record { list = s.list; node = index_iter })

length-resize : (n : ℕ) (keys : List Bytes) → length (resize n keys) ≡ n
length-resize zero keys = refl
length-resize (suc n) [] = omega (arith, length-resize n [])
length-resize (suc n) (k ∷ keys) = omega (arith, length-resize n keys)

module _ (env : Env) (reliable : IsReliable env) (value : LogRecordPst) (draws : ℕ → ℕ)
    (db : Db ValidList) (m : Bytes → Option Bytes)
    (models : Models env (skiplist_indexer value draws) db m) where
  -- The entry of a key that the list may hold.
  agrees_at :
      (j : Bytes) → c_str j ≡ j → Agrees env db (lookup string_order j db.index.towers) (m j)
  agrees_at j plain =
      subst (λ (x : Bytes). Agrees env db (lookup string_order x db.index.towers) (m x)) plain
        (models.entries j)

  agree_all : AllAgree env db m db.index.towers
  agree_all =
      All-map db.index.towers
        (λ t found.
          subst (λ (x : Option LogRecordPst). Agrees env db x (m t.key)) found
            (agrees_at t.key (db.index.c_strings t.key t.value found)))
        (lookup_each string_order db.index.towers db.index.valid.sorted)

  agrees_none : (w : Option Bytes) → Agrees env db none w → none ≡ w
  agrees_none none h = refl
  agrees_none (some v) h = absurd h

  find-entries_all : (j : Bytes) → c_str j ≡ j → find j (entries m db.index.towers) ≡ m j
  find-entries_all j plain =
      find-entries env reliable db m j db.index.towers agree_all
      ∙ (elim (Option-cases (lookup string_order j db.index.towers)) [
        | inl gone ↦ rw gone (agrees_none (m j) (rw gone at (agrees_at j plain)))
        | inr (p, here) ↦ rw here refl
      ])

  -- In a reliable environment, on a database over the skip list indexer that stores a map, whatever
  -- levels were drawn and wherever the indexer's one iterator stands: there is one list of entries, in strictly ascending order of their keys, that
  -- holds for each key (a C string) what the map holds; DB::Fold calls the user's function on these
  -- entries in order until it returns false, and leaves the database as it is; and DB::ListKeys
  -- answers with their keys, whatever vector it is given.
  pub fold-visit :
      {A : Type 0} (fn : A → Bytes → Bytes → A × Bool) (a : A) (keys : List Bytes)
      (index_iter : Option Ptr)
      → (kvs : TreeMap Bytes) × Pairwise (λ (x y : Bytes × Bytes). string_lt x.0 y.0 ≡ true) kvs
        × ((j : Bytes) → c_str j ≡ j → find j kvs ≡ m j)
        × (fold (skiplist_indexer value draws) (skiplist_iterator index_iter) env fn a db
            ≡ some (ok tt, db, visit fn a kvs))
        × (list_keys (skiplist_indexer value draws) (skiplist_iterator index_iter) db keys
            ≡ some (ok (keys_of kvs)))
  unfolding fold list_keys size
  fold-visit fn a keys index_iter =
      let s = db.index in
      let v = s.valid in
      let enough : length s.towers < suc s.list.size = omega (arith, v.size) in
      let tall = all-IsTall string_order s.list s.towers v in
      let seek = seek_to_first-cursor string_order s.list s.towers v index_iter in
      (
        entries m s.towers,
        entries-IsAscending env reliable db m s.towers v.sorted agree_all,
        find-entries_all,
        ground (
          arith,
          seek,
          fold_loop-visit env reliable db m (suc s.list.size) fn a s.list s.towers enough
              v.segment.1 tall agree_all,
        ),
        ground (
          arith,
          seek,
          list_loop-keys env reliable db m (suc s.list.size) s.list s.towers []
              (resize s.list.size keys) enough (length-resize s.list.size keys ∙ v.size) v.segment.1
              tall agree_all,
        ),
      )
