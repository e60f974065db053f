-- ===== src/Db/Scan/Entries.antt =====
-- bitdb/db.cpp: what DB::Fold and DB::ListKeys meet on their way over a skip list.
use bitdb.Base.{
  ℕ, zero, suc, ◌+◌, ◌<◌, ◌≡◌, refl, ap, ◌∙◌, Bool, true, false, Option, none, some, List, [], ◌∷◌,
  ◌++◌, if◌then◌else◌, arith, All, length, length-append, Bool-cases, inl, inr,
}
use mathlib.Core.List.{append_assoc}
use bitdb.Base.Pairwise.{Pairwise}
use bitdb.Status.{ok}
use bitdb.Bytes.{Bytes, bytes_eq}
use bitdb.Bytes.Order.{bytes_eq_iff}
use bitdb.TreeMap.{TreeMap, find, is_some}
use bitdb.Env.{Env, IsReliable}
use bitdb.Record.{LogRecordPst}
use bitdb.Index.SkipListIndexer.{StringList, string_order, string_lt}
use bitdb.SkipList.Segment.{Tower, Segment, nothing}
use bitdb.SkipList.Keys.{IsAscending, lookup}
use bitdb.SkipList.Iterate.{
  cursor, IsTall, valid-end, valid-cursor, key-cursor, value-cursor, next-cursor,
}
use bitdb.Db.{Db, get_value_by_log_record_pst}
use bitdb.Db.Invariant.{Agrees}
use bitdb.Db.Lookup.{get_value-Stored}
use bitdb.Db.Scan.{set, list_loop, fold_loop, iterator_value}

abbrev pub Towers : Type 0
Towers = List (Tower Bytes LogRecordPst)

abbrev entry : Bytes → Option Bytes → TreeMap Bytes → TreeMap Bytes
entry k none rest = rest
entry k (some v) rest = (k, v) ∷ rest

-- The keys of the towers, with what a map holds for them.
pub entries : (Bytes → Option Bytes) → Towers → TreeMap Bytes
entries m [] = []
entries m (t ∷ ts) = entry t.key (m t.key) (entries m ts)

-- The database holds a value for each tower.
abbrev pub AllAgree : {Index : Type 0} → Env → Db Index → (Bytes → Option Bytes) → Towers → Type 0
AllAgree env db m ts =
    All (λ (t : Tower Bytes LogRecordPst). Agrees env db (some t.value) (m t.key)) ts

-- A function of the user over a list, until it returns false.
pub visit : {A : Type 0} → (A → Bytes → Bytes → A × Bool) → A → TreeMap Bytes → A
visit fn a [] = a
visit fn a ((k, v) ∷ kvs) =
    let (b, more) = fn a k v in elim more [ true ↦ visit fn b kvs | false ↦ b ]

abbrev pub keys_of : TreeMap Bytes → List Bytes
keys_of [] = []
keys_of ((k, v) ∷ kvs) = k ∷ keys_of kvs

module _ {Index : Type 0} (env : Env) (reliable : IsReliable env) (db : Db Index)
    (m : Bytes → Option Bytes) where
  held_value :
      (p : LogRecordPst) (w : Option Bytes)
      → Agrees env db (some p) w
      → (v : Bytes) × (w ≡ some v) × (get_value_by_log_record_pst env p false db ≡ some (ok v, db))
  held_value p none h = absurd h
  held_value p (some v) (r, stored, normal, same) = (
    v,
    refl,
    get_value-Stored env reliable stored normal ∙ ap (λ (x : Bytes). some (ok x, db)) same,
  )

  pub fold_loop-visit :
      {A : Type 0} (fuel : ℕ) (fn : A → Bytes → Bytes → A × Bool) (a : A) (s : StringList)
      (ts : Towers)
      → length ts < fuel
      → Segment s.heap ts nothing
      → IsTall ts
      → AllAgree env db m ts
      → fold_loop fuel env fn a (cursor s ts) db ≡ some (ok tt, db, visit fn a (entries m ts))
  unfolding fold_loop visit entries
  fold_loop-visit zero fn a s ts enough seg tall agree = absurd (omega arith)
  fold_loop-visit (suc fuel) fn a s [] enough seg tall agree = ground (arith, valid-end s)
  fold_loop-visit (suc fuel) fn a s (t ∷ ts) enough seg tall agree =
      let (v, here, run) = held_value t.value (m t.key) agree.0 in
      elim (Bool-cases (fn a t.key v).1) [
        | inl more ↦ ground (
          arith,
          valid-cursor s t ts tall.0 seg,
          key-cursor s t ts tall.0 seg,
          value-cursor s t ts tall.0 seg,
          next-cursor s t ts tall.0 seg,
          here,
          run,
          more,
          fold_loop-visit fuel fn (fn a t.key v).0 s ts (omega arith) seg.1 tall.1 agree.1,
        )
        | inr enough_now ↦ ground (
          arith,
          valid-cursor s t ts tall.0 seg,
          key-cursor s t ts tall.0 seg,
          value-cursor s t ts tall.0 seg,
          here,
          run,
          enough_now,
        )
      ]

  -- Iterator::Value at an entry of the list answers with what the map holds for its key.
  pub iterator_value-cursor :
      (s : StringList) (t : Tower Bytes LogRecordPst) (ts : Towers)
      → Segment s.heap (t ∷ ts) nothing
      → IsTall (t ∷ ts)
      → AllAgree env db m (t ∷ ts)
      → (v : Bytes) × (m t.key ≡ some v)
        × (iterator_value env (cursor s (t ∷ ts)) db ≡ some (v, db))
  unfolding iterator_value
  iterator_value-cursor s t ts seg tall agree =
      let (v, here, run) = held_value t.value (m t.key) agree.0 in
      (v, here, ground (arith, value-cursor s t ts tall.0 seg, run))

  entry-find :
      (j k : Bytes) (w : Option Bytes) (p : LogRecordPst) (rest : TreeMap Bytes)
      → Agrees env db (some p) w
      → find j (entry k w rest) ≡ (if bytes_eq k j then w else find j rest)
  unfolding find
  entry-find j k none p rest h = absurd h
  entry-find j k (some v) p rest h = refl

  -- The entries hold what the map holds for the keys of the towers, and nothing for others.
  pub find-entries :
      (j : Bytes) (ts : Towers)
      → AllAgree env db m ts
      → find j (entries m ts) ≡ (if is_some (lookup string_order j ts) then m j else none)
  unfolding find entries lookup
  find-entries j [] agree = refl
  find-entries j (t ∷ ts) agree = elim (Bool-cases (bytes_eq t.key j)) [
    | inl same ↦
        entry-find j t.key (m t.key) t.value (entries m ts) agree.0
        ∙ rw same (ap m ((bytes_eq_iff t.key j).0 same))
    | inr other ↦
        entry-find j t.key (m t.key) t.value (entries m ts) agree.0
        ∙ rw other (find-entries j ts agree.1)
  ]

  entry-All :
      (k : Bytes) (ts : Towers)
      → All (λ (t : Tower Bytes LogRecordPst). string_lt k t.key ≡ true) ts
      → AllAgree env db m ts
      → All (λ (kv : Bytes × Bytes). string_lt k kv.0 ≡ true) (entries m ts)
  unfolding entries
  entry-All k [] above agree = tt
  entry-All k (t ∷ ts) above agree =
      let (v, here, run) = held_value t.value (m t.key) agree.0 in
      rw here (above.0, entry-All k ts above.1 agree.1)

  pub entries-IsAscending :
      (ts : Towers)
      → IsAscending string_order ts
      → AllAgree env db m ts
      → Pairwise (λ (x y : Bytes × Bytes). string_lt x.0 y.0 ≡ true) (entries m ts)
  unfolding entries
  entries-IsAscending [] up agree = tt
  entries-IsAscending (t ∷ ts) up agree =
      let (v, here, run) = held_value t.value (m t.key) agree.0 in
      rw here (entry-All t.key ts up.0 agree.1, entries-IsAscending ts up.1 agree.1)

  set_next_place :
      (done old : List Bytes) (x k : Bytes)
      → set (done ++ (x ∷ old)) (length done) k ≡ some (done ++ (k ∷ old))
  set_next_place [] old x k = refl
  set_next_place (d ∷ done) old x k = rw (set_next_place done old x k) refl

  pub list_loop-keys :
      (fuel : ℕ) (s : StringList) (ts : Towers) (done old : List Bytes)
      → length ts < fuel
      → length old ≡ length ts
      → Segment s.heap ts nothing
      → IsTall ts
      → AllAgree env db m ts
      → list_loop fuel (cursor s ts) (length done) (done ++ old)
        ≡ some (done ++ keys_of (entries m ts))
  unfolding list_loop entries
  list_loop-keys zero s ts done old enough fits seg tall agree = absurd (omega arith)
  list_loop-keys (suc fuel) s [] done [] enough fits seg tall agree = ground (arith, valid-end s)
  list_loop-keys (suc fuel) s [] done (x ∷ old) enough fits seg tall agree = absurd (omega arith)
  list_loop-keys (suc fuel) s (t ∷ ts) done [] enough fits seg tall agree = absurd (omega arith)
  list_loop-keys (suc fuel) s (t ∷ ts) done (x ∷ old) enough fits seg tall agree =
      let (v, here, run) = held_value t.value (m t.key) agree.0 in
      let rest =
        list_loop-keys fuel s ts (done ++ (t.key ∷ [])) old (omega arith) (omega arith) seg.1 tall.1
          agree.1 in
      let longer : length (done ++ (t.key ∷ [])) ≡ length done + 1 =
        omega (arith, length-append done (t.key ∷ [])) in
      let rest' =
        rw (append_assoc done (t.key ∷ []) (keys_of (entries m ts))) at
          (rw (append_assoc done (t.key ∷ []) old) at (rw longer at rest)) in
      ground (
        arith,
        valid-cursor s t ts tall.0 seg,
        key-cursor s t ts tall.0 seg,
        set_next_place done old x t.key,
        next-cursor s t ts tall.0 seg,
        here,
        rest',
      )
