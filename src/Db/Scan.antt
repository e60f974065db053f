-- ===== src/Db/Scan.antt =====
-- bitdb/db.cpp: DB::NewIterator, DB::ListKeys and DB::Fold, and bitdb/iterator.h. `iterator` is the
-- indexer's Iterator, with no result where that returns a null pointer.
pub mod Entries
pub mod Whole
use bitdb.Base.{
  ℕ, zero, suc, ◌+◌, ◌<◌, ◌≡◌, Bool, true, false, Option, none, some, List, [], ◌∷◌, ◌++◌, ltb,
  if◌then◌else◌, ◌>>=◌, length, take,
}
use bitdb.Status.{Outcome, ok, err, not_supported}
use bitdb.Bytes.{Bytes}
use bitdb.Env.{Env}
use bitdb.Record.{LogRecordPst}
use bitdb.Index.{Indexer}
use bitdb.SkipList.Iterator.{Iterator, valid, key, value, next, seek_to_first}
use bitdb.Db.{Db, get_value_by_log_record_pst}

abbrev pub set {ℓ} : {A : Type ℓ} → List A → ℕ → A → Option (List A)
set [] i x = none
set (y ∷ ys) zero x = some (x ∷ ys)
set (y ∷ ys) (suc i) x = elim (set ys i x) [ none ↦ none | some zs ↦ some (y ∷ zs) ]

-- resize of a vector of strings
abbrev pub resize : ℕ → List Bytes → List Bytes
resize zero keys = []
resize (suc n) [] = [] ∷ resize n []
resize (suc n) (k ∷ keys) = k ∷ resize n keys

-- The loop of DB::ListKeys, with the rounds that it may take; a write beyond the vector is undefined.
unfoldable pub list_loop : ℕ → Iterator Bytes LogRecordPst → ℕ → List Bytes → Option (List Bytes)
list_loop zero it idx keys = none
list_loop (suc fuel) it idx keys = elim (valid it) [
  | false ↦ some keys
  | true ↦ do k ← key it; keys ← set keys idx k; it ← next it; list_loop fuel it (idx + 1) keys
]

-- The loop of DB::Fold. The function of the user changes a state of its own, which outlives an error.
unfoldable pub fold_loop :
    {Index A : Type 0}
    → ℕ
    → Env
    → (A → Bytes → Bytes → A × Bool)
    → A
    → Iterator Bytes LogRecordPst
    → Db Index
    → Option (Outcome (Unit {0}) × Db Index × A)
fold_loop zero env fn a it db = none
fold_loop (suc fuel) env fn a it db = elim (valid it) [
  | false ↦ some (ok tt, db, a)
  | true ↦ do
    k ← key it
    pst ← value it
    (outcome, db) ← get_value_by_log_record_pst env pst false db
    elim outcome [
      | err c ↦ some (err c, db, a)
      | ok v ↦
          let (a, more) = fn a k v in
          elim more [
            | false ↦ some (ok tt, db, a)
            | true ↦ do it ← next it; fold_loop fuel env fn a it db
          ]
    ]
]

-- The string of Iterator::Value, which stays empty where the database has no value.
abbrev value_or_empty : Outcome Bytes → Bytes
value_or_empty (ok v) = v
value_or_empty (err c) = []

-- Iterator::Value of bitdb/iterator.h; the class passes its other calls on to the indexer's iterator.
unfoldable pub iterator_value :
    {Index : Type 0} → Env → Iterator Bytes LogRecordPst → Db Index → Option (Bytes × Db Index)
iterator_value env it db = do
  pst ← value it
  (outcome, db) ← get_value_by_log_record_pst env pst false db
  some (value_or_empty outcome, db)

module _ {Index : Type 0} (ix : Indexer Index)
    (iterator : Index → Option (Iterator Bytes LogRecordPst)) where
  -- DB::NewIterator
  unfoldable pub new_iterator : Db Index → Outcome (Iterator Bytes LogRecordPst)
  new_iterator db = elim (iterator db.index) [ none ↦ err not_supported | some it ↦ ok it ]

  -- DB::ListKeys
  unfoldable pub list_keys : Db Index → List Bytes → Option (Outcome (List Bytes))
  list_keys db keys = elim (iterator db.index) [
    | none ↦ some (err not_supported)
    | some it ↦ do
      it ← seek_to_first it
      keys ← list_loop (suc (ix.size db.index)) it 0 (resize (ix.size db.index) keys)
      some (ok keys)
  ]

  -- DB::Fold
  unfoldable pub fold :
      {A : Type 0}
      → Env
      → (A → Bytes → Bytes → A × Bool)
      → A
      → Db Index
      → Option (Outcome (Unit {0}) × Db Index × A)
  fold env fn a db = elim (iterator db.index) [
    | none ↦ some (err not_supported, db, a)
    | some it ↦ do it ← seek_to_first it; fold_loop (suc (ix.size db.index)) env fn a it db
  ]
