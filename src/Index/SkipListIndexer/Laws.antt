-- ===== src/Index/SkipListIndexer/Laws.antt =====
-- bitdb/index/skiplist_index.cpp: what the database relies on.
use bitdb.Base.{ℕ, ◌≡◌, refl, sym, ap, ◌∙◌, true, Option, some, List, [], Bool-cases, inl, inr}
use mathlib.Core.Path.{subst}
use bitdb.Bytes.{Bytes, c_str, bytes_eq}
use bitdb.Bytes.Order.{c_str-c_str, bytes_eq_iff}
use bitdb.Record.{LogRecordPst}
use bitdb.TreeMap.{is_some}
use bitdb.Index.{Indexer, IsMap}
use bitdb.Index.SkipListIndexer.{StringList, string_order, put, get, delete, size}
use bitdb.SkipList.{new_list}
use bitdb.SkipList.Keyed.{insert, remove}
use bitdb.SkipList.Segment.{Tower}
use bitdb.SkipList.Keys.{lookup}
use bitdb.SkipList.Valid.{IsValid}
use bitdb.SkipList.Fresh.{new_list-IsValid}
use bitdb.SkipList.Find.{find-lookup}
use bitdb.SkipList.Insertion.{Inserted}
use bitdb.SkipList.Insert.{insert-Inserted}
use bitdb.SkipList.Unlinking.{Removed}
use bitdb.SkipList.Remove.{remove-Removed}

-- The states of an indexer: valid lists.
pub record ValidList : Type 0 where
  pub list : StringList
  pub towers : List (Tower Bytes LogRecordPst)
  pub valid : IsValid string_order list towers
  pub c_strings :
      (j : Bytes) (p : LogRecordPst) → lookup string_order j towers ≡ some p → c_str j ≡ j

-- What Insert and Remove make of a valid list.
abbrev pub inserting :
    (s : ValidList) (key : Bytes) (pos : LogRecordPst)
    → Inserted string_order s.list s.towers
        (c_str key)
        pos
        (insert string_order s.list (c_str key) pos)
inserting s key pos = insert-Inserted string_order s.list s.towers (c_str key) pos s.valid

abbrev pub removing :
    (s : ValidList) (key : Bytes)
    → Removed string_order s.list s.towers (c_str key) (remove string_order s.list (c_str key))
removing s key = remove-Removed string_order s.list s.towers (c_str key) s.valid

-- The keys of the list are C strings.
pub inserting-c_strings :
    (s : ValidList) (key : Bytes) (pos : LogRecordPst) (j : Bytes) (p : LogRecordPst)
    → lookup string_order j (inserting s key pos).towers ≡ some p
    → c_str j ≡ j
inserting-c_strings s key pos j p h = elim (Bool-cases (bytes_eq (c_str key) j)) [
  | inl same ↦
      let e = (bytes_eq_iff (c_str key) j).0 same in
      subst (λ (x : Bytes). c_str x ≡ x) e (c_str-c_str key)
  | inr other ↦ s.c_strings j p (rw other at (sym ((inserting s key pos).answers j) ∙ h))
]

pub removing-c_strings :
    (s : ValidList) (key : Bytes) (j : Bytes) (p : LogRecordPst)
    → lookup string_order j (removing s key).towers ≡ some p
    → c_str j ≡ j
removing-c_strings s key j p h = elim (Bool-cases (bytes_eq (c_str key) j)) [
  | inl same ↦ absurd (cc (rw same at (sym ((removing s key).answers j) ∙ h)))
  | inr other ↦ s.c_strings j p (rw other at (sym ((removing s key).answers j) ∙ h))
]

pub no_c_strings : (j : Bytes) (p : LogRecordPst) → lookup string_order j [] ≡ some p → c_str j ≡ j
unfolding lookup
no_c_strings j p h = cc

abbrev pub after_put : ValidList → Bytes → LogRecordPst → ValidList
after_put s key pos =
    let r = inserting s key pos in
    record {
      list = r.list;
      towers = r.towers;
      valid = r.valid;
      c_strings = inserting-c_strings s key pos;
    }

abbrev pub after_delete : ValidList → Bytes → ValidList
after_delete s key =
    let r = removing s key in
    record {
      list = r.list;
      towers = r.towers;
      valid = r.valid;
      c_strings = removing-c_strings s key;
    }

abbrev pub held : ValidList → Bytes → Option LogRecordPst
held s key = lookup string_order (c_str key) s.towers

-- The indexer as the database calls it. The default values are those of the head node.
abbrev pub skiplist_indexer : LogRecordPst → (ℕ → ℕ) → Indexer ValidList
skiplist_indexer value draws = record {
  new = record {
    list = new_list [] value draws;
    towers = [];
    valid = new_list-IsValid string_order [] value draws;
    c_strings = no_c_strings;
  };
  put = λ s key pos. (after_put s key pos, true);
  get = held;
  delete = λ s key. (after_delete s key, is_some (held s key));
  size = λ s. size s.list;
}

-- The methods of the class on a valid list are defined, and do what the indexer does.
put_run :
    (s : ValidList) (key : Bytes) (pos : LogRecordPst)
    → put s.list key pos ≡ some ((after_put s key pos).list, true)
unfolding put
put_run s key pos = rw (inserting s key pos).run refl

get_run : (s : ValidList) (key : Bytes) → get s.list key ≡ some (held s key)
unfolding get
get_run s key = find-lookup string_order s.list s.towers (c_str key) s.valid

delete_run :
    (s : ValidList) (key : Bytes)
    → delete s.list key ≡ some ((after_delete s key).list, is_some (held s key))
unfolding delete
delete_run s key = rw (removing s key).run refl

pub skiplist_indexer-IsMap :
    (value : LogRecordPst) (draws : ℕ → ℕ) → IsMap (skiplist_indexer value draws)
unfolding lookup
skiplist_indexer-IsMap value draws = record {
  get-new = λ k. refl;
  get_c_str = λ s k. ap (λ (x : Bytes). lookup string_order x s.towers) (sym (c_str-c_str k));
  put_succeeds = λ s k p. refl;
  get-put = λ s k j p. (inserting s k p).answers (c_str j);
  get-delete = λ s k j. (removing s k).answers (c_str j);
  delete_found = λ s k. refl;
}

-- The skip list indexer, with any numbers drawn for the levels, gives the database what it relies
-- on: on every list that its methods reach they are defined, and Put, Get and Delete are those of a map.
pub skiplist_indexer_lem :
    (value : LogRecordPst) (draws : ℕ → ℕ) (s : ValidList) (key : Bytes) (pos : LogRecordPst)
    → let ix = skiplist_indexer value draws in
      IsMap ix
      × (put s.list key pos ≡ some ((ix.put s key pos).0.list, (ix.put s key pos).1))
      × (get s.list key ≡ some (ix.get s key))
      × (delete s.list key ≡ some ((ix.delete s key).0.list, (ix.delete s key).1))
skiplist_indexer_lem value draws s key pos =
    (skiplist_indexer-IsMap value draws, put_run s key pos, get_run s key, delete_run s key)
