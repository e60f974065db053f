-- ===== src/SkipList/Keyed.antt =====
-- bitdb/ds/skiplist.h: the operations that compare keys.
use bitdb.Base.{ℕ, suc, ◌-◌, Bool, not, Option, none, some, ltb, if◌then◌else◌, ◌>>=◌}
use bitdb.TreeMap.{is_some}
use bitdb.SkipList.{
  Ptr, Node, SkipList, Order, max_level, Prevs, Verdict, give, break_off, go_on, found, ended,
  store, new_node, next_at, search_with, link, link_head, random_level_loop, unlink, drop_levels,
}

module _ {K V : Type 0} where
  -- Insert behind the search, with a level for the new node.
  unfoldable pub insert_node : SkipList K V → K → V → Prevs → ℕ × (ℕ → ℕ) → Option (SkipList K V)
  insert_node s key value prevs (level, rander) = do
    let node = s.fresh
    let h = store s.heap node (some (new_node level key value))
    h ← link (if ltb level s.level then level else s.level) node prevs h
    h ← link_head (level - s.level) s.level s.head node h
    some (record s {
      heap = h;
      level = if ltb s.level level then level else s.level;
      size = suc s.size;
      fresh = suc node;
      rander = rander;
    })

  -- Remove behind the search
  unfoldable pub remove_node : SkipList K V → Ptr → Prevs → Option (SkipList K V × Option V)
  remove_node s p prevs = do
    n ← s.heap p
    h ← unlink n.level p prevs s.heap
    let h = store h p none
    level ← drop_levels (s.level - 1) s.head h
    some (record s { heap = h; level = level; size = s.size - 1 }, some n.value)

module _ {K V : Type 0} (o : Order K) where
  -- The tests of FindNode and FindInsertPoint
  abbrev pub find_test : K → Node K V → Verdict
  find_test key n = if o.eq n.key key then give else if o.lt key n.key then break_off else go_on

  -- The test of FindPrevNodes
  abbrev pub prev_test : K → Node K V → Verdict
  prev_test key n = if not (o.lt n.key key) then break_off else go_on

  -- FindNode
  unfoldable pub find_node : SkipList K V → K → Option (Option Ptr)
  find_node s key = elim (search_with (find_test key) s.level s) [
    | none ↦ none
    | some (found p) ↦ some (some p)
    | some (ended prev prevs) ↦ some none
  ]

  -- Find, which returns the address of the value; here the value is read at once.
  unfoldable pub find : SkipList K V → K → Option (Option V)
  find s key = elim (find_node s key) [
    | none ↦ none
    | some none ↦ some none
    | some (some p) ↦ do n ← s.heap p; some (some n.value)
  ]

  -- Has
  unfoldable pub has : SkipList K V → K → Option Bool
  has s key = do p ← find_node s key; some (is_some p)

  -- Insert
  unfoldable pub insert : SkipList K V → K → V → Option (SkipList K V)
  insert s key value = elim (search_with (find_test key) s.level s) [
    | none ↦ none
    | some (found p) ↦ do
      n ← s.heap p
      some (record s { heap = store s.heap p (some (record n { value = value })) })
    | some (ended prev prevs) ↦
        insert_node s key value prevs (random_level_loop (max_level - 1) 1 s.rander)
  ]

  -- FindPrevNodes
  unfoldable pub find_prev_nodes : SkipList K V → K → Option Prevs
  find_prev_nodes s key = elim (search_with (prev_test key) s.level s) [
    | none ↦ none
    | some (found p) ↦ none
    | some (ended prev prevs) ↦ some prevs
  ]

  -- FindRemovePoint
  unfoldable pub find_remove_point : SkipList K V → K → Option (Option (Ptr × Prevs))
  find_remove_point s key = do
    prevs ← find_prev_nodes s key
    prev ← prevs 0
    first ← next_at s.heap prev 0
    elim first [
      | none ↦ some none
      | some p ↦ do n ← s.heap p; some (if o.eq n.key key then some (p, prevs) else none)
    ]

  -- Remove, with what it writes through `value`; nothing is written if the key is not there.
  unfoldable pub remove : SkipList K V → K → Option (SkipList K V × Option V)
  remove s key = elim (find_remove_point s key) [
    | none ↦ none
    | some none ↦ some (s, none)
    | some (some (p, prevs)) ↦ remove_node s p prevs
  ]
