-- ===== src/SkipList/Iterator.antt =====
-- bitdb/ds/skiplist.h: the iterator, whose pointer is null when it is not valid. An assertion that
-- fails is undefined behaviour here, as in a build that leaves assertions out.
use bitdb.Base.{Bool, Option, none, some, ◌==◌, if◌then◌else◌, ◌>>=◌}
use bitdb.TreeMap.{is_some}
use bitdb.SkipList.{Ptr, SkipList, Order, next_at, find_last}
use bitdb.SkipList.Keyed.{find_prev_nodes, find_remove_point}

pub record Iterator (K V : Type 0) : Type 0 where
  pub list : SkipList K V
  pub node : Option Ptr

module _ {K V : Type 0} where
  -- Valid
  unfoldable pub valid : Iterator K V → Bool
  valid it = is_some it.node

  -- Key
  unfoldable pub key : Iterator K V → Option K
  key it = do p ← it.node; n ← it.list.heap p; some n.key

  -- Value
  unfoldable pub value : Iterator K V → Option V
  value it = do p ← it.node; n ← it.list.heap p; some n.value

  -- Next
  unfoldable pub next : Iterator K V → Option (Iterator K V)
  next it = do p ← it.node; q ← next_at it.list.heap p 0; some (record it { node = q })

  -- SeekToFirst
  unfoldable pub seek_to_first : Iterator K V → Option (Iterator K V)
  seek_to_first it = do
    first ← next_at it.list.heap it.list.head 0
    some (record it { node = first })

  -- SeekToLast
  unfoldable pub seek_to_last : Iterator K V → Option (Iterator K V)
  seek_to_last it = do
    last ← find_last it.list
    some (record it { node = if last == it.list.head then none else some last })

module _ {K V : Type 0} (o : Order K) where
  -- Prev; the vector has a place for each level, and there is at least one, so it is never empty.
  unfoldable pub prev : Iterator K V → Option (Iterator K V)
  prev it = do
    p ← it.node
    n ← it.list.heap p
    prevs ← find_prev_nodes o it.list n.key
    some (record it { node = prevs 0 })

  -- Seek
  unfoldable pub seek : Iterator K V → K → Option (Iterator K V)
  seek it target = elim (find_remove_point o it.list target) [
    | none ↦ none
    | some none ↦ some (record it { node = none })
    | some (some (point, prevs)) ↦ some (record it { node = some point })
  ]
