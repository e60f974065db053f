-- ===== src/SkipList.antt =====
-- bitdb/ds/skiplist.h: a skip list over a heap of nodes. `none` stands for undefined behaviour: a
-- null, dangling or out-of-range access. An address is not handed out twice, and the numbers of
-- bitdb/utils/random.h, which its engine draws, come as a sequence.
pub mod Keyed
pub mod Segment
pub mod Relink
pub mod Descent
pub mod Searches
pub mod Keys
pub mod Valid
pub mod Find
pub mod Parts
pub mod Linking
pub mod Insertion
pub mod Insert
pub mod Unlinking
pub mod Remove
pub mod Fresh
pub mod Iterator
pub mod Iterate
pub mod Backward
use bitdb.Base.{
  ℕ, zero, suc, ◌+◌, ◌-◌, ◌%◌, ◌≡◌, Bool, true, false, not, ◌&&◌, Option, none, some, ltb, leb,
  ◌==◌, if◌then◌else◌, ◌>>=◌,
}
use mathlib.Core.Logic.{◌↔◌}
use bitdb.TreeMap.{is_some}

abbrev pub Ptr : Type 0
Ptr = ℕ

pub record Node (K V : Type 0) : Type 0 where
  pub key : K
  pub value : V
  pub level : ℕ
  pub next : ℕ → Option Ptr

abbrev pub Heap : (K V : Type 0) → Type 0
Heap K V = Ptr → Option (Node K V)

pub record SkipList (K V : Type 0) : Type 0 where
  pub heap : Heap K V
  pub head : Ptr
  pub level : ℕ
  pub size : ℕ
  pub fresh : Ptr
  pub rander : ℕ → ℕ

-- The comparisons of a key type.
pub record Order (K : Type 0) : Type 0 where
  pub lt : K → K → Bool
  pub eq : K → K → Bool
  pub eq_iff : (a b : K) → (eq a b ≡ true) ↔ (a ≡ b)
  pub lt_irrefl : (a : K) → lt a a ≡ false
  pub lt_trans : (a b c : K) → lt a b ≡ true → lt b c ≡ true → lt a c ≡ true
  pub lt_total : (a b : K) → lt a b ≡ false → lt b a ≡ false → a ≡ b

-- K_SKIP_LIST_MAX_LEVEL
abbrev pub max_level : ℕ
max_level = 40

-- The vector that the searches fill; a place that no search has set is null.
abbrev pub Prevs : Type 0
Prevs = ℕ → Option Ptr

abbrev pub set_at : ℕ → Option Ptr → (ℕ → Option Ptr) → (ℕ → Option Ptr)
set_at i p f j = if j == i then p else f j

-- What the body of an inner loop does at a node: return it, break, or go on.
pub data Verdict : Type 0 where
  give break_off go_on : Verdict

pub data Walk : Type 0 where
  arrived stopped : Ptr → Walk

pub data Search : Type 0 where
  found : Ptr → Search
  ended : Ptr → Prevs → Search

-- The loop of RandomLevel
unfoldable pub random_level_loop : ℕ → ℕ → (ℕ → ℕ) → ℕ × (ℕ → ℕ)
random_level_loop zero level draws = (level, draws)
random_level_loop (suc rounds) level draws =
    let more = random_level_loop rounds (suc level) (λ i. draws (suc i)) in
    if draws 0 % 4 == 0 then more else (level, λ i. draws (suc i))

module _ {K V : Type 0} where
  unfoldable pub store : Heap K V → Ptr → Option (Node K V) → Heap K V
  store h p c a = if a == p then c else h a

  -- p->next[i]
  unfoldable pub next_at : Heap K V → Ptr → ℕ → Option (Option Ptr)
  next_at h p i = do n ← h p; if ltb i n.level then some (n.next i) else none

  -- p->next[i] = q
  unfoldable pub set_next : Heap K V → Ptr → ℕ → Option Ptr → Option (Heap K V)
  unfolding store
  set_next h p i q = do
    n ← h p
    if ltb i n.level then some (store h p (some (record n { next = set_at i q n.next }))) else none

  -- NewNode
  abbrev pub new_node : ℕ → K → V → Node K V
  new_node level key value = record { key = key; value = value; level = level; next = λ i. none }

  -- The constructor; K{} and V{} are arguments.
  pub new_list : K → V → (ℕ → ℕ) → SkipList K V
  unfolding store
  new_list key value draws = record {
    heap = store (λ a. none) 0 (some (new_node max_level key value));
    head = 0;
    level = 1;
    size = 0;
    fresh = 1;
    rander = draws;
  }

  -- IsEmpty
  pub is_empty : SkipList K V → Bool
  is_empty s = s.size == 0

  -- Clear
  pub clear : SkipList K V → SkipList K V
  clear s = record s { level = 1; size = 0 }

  -- The inner loop of the searches along level `i`, with the rounds that it may take.
  unfoldable pub walk : ℕ → Heap K V → (Node K V → Verdict) → ℕ → Ptr → Option Ptr → Option Walk
  walk fuel h test i prev none = some (stopped prev)
  walk zero h test i prev (some curr) = none
  walk (suc fuel) h test i prev (some curr) = elim (h curr) [
    | none ↦ none
    | some n ↦ elim (test n) [
      | give ↦ some (arrived curr)
      | break_off ↦ some (stopped prev)
      | go_on ↦ if ltb i n.level then walk fuel h test i curr (n.next i) else none
    ]
  ]

  -- The outer loop of the searches, from level `i - 1` down. FindNode and FindLast have no vector;
  -- what it would hold is not looked at.
  unfoldable pub descend : ℕ → Heap K V → (Node K V → Verdict) → ℕ → Ptr → Prevs → Option Search
  unfolding walk
  descend fuel h test zero prev prevs = some (ended prev prevs)
  descend fuel h test (suc i) prev prevs = elim (h prev) [
    | none ↦ none
    | some n ↦ elim (leb n.level i) [
      | true ↦ descend fuel h test i prev prevs
      | false ↦ elim (walk fuel h test i prev (n.next i)) [
        | none ↦ none
        | some (arrived p) ↦ some (found p)
        | some (stopped p) ↦ descend fuel h test i p (set_at i (some p) prevs)
      ]
    ]
  ]

  -- A loop along one level meets each node once.
  unfoldable pub search_with : (Node K V → Verdict) → ℕ → SkipList K V → Option Search
  unfolding descend
  search_with test levels s = descend (suc s.fresh) s.heap test levels s.head (λ i. none)

  -- FindLast
  unfoldable pub find_last : SkipList K V → Option Ptr
  unfolding search_with
  find_last s = elim (search_with (λ n. go_on) (suc s.level) s) [
    | none ↦ none
    | some (found p) ↦ some p
    | some (ended prev prevs) ↦ some prev
  ]

  -- The first loop of Insert
  unfoldable pub link : ℕ → Ptr → Prevs → Heap K V → Option (Heap K V)
  unfolding next_at set_next
  link zero node prevs h = some h
  link (suc i) node prevs h = do
    h ← link i node prevs h
    prev ← prevs i
    behind ← next_at h prev i
    h ← set_next h node i behind
    set_next h prev i (some node)

  -- The second loop of Insert, over the levels from `from` on.
  unfoldable pub link_head : ℕ → ℕ → Ptr → Ptr → Heap K V → Option (Heap K V)
  unfolding set_next
  link_head zero from head node h = some h
  link_head (suc i) from head node h = do
    h ← link_head i from head node h
    set_next h head (from + i) (some node)

  -- The loop of Remove
  unfoldable pub unlink : ℕ → Ptr → Prevs → Heap K V → Option (Heap K V)
  unfolding next_at set_next
  unlink zero node prevs h = some h
  unlink (suc i) node prevs h = do
    h ← unlink i node prevs h
    prev ← prevs i
    behind ← next_at h node i
    set_next h prev i behind

  -- `while (level_ > 1 && head_->next[level_ - 1] == nullptr)` of Remove, at `level` + 1.
  unfoldable pub drop_levels : ℕ → Ptr → Heap K V → Option ℕ
  unfolding next_at
  drop_levels zero head h = some 1
  drop_levels (suc level) head h = elim (next_at h head (suc level)) [
    | none ↦ none
    | some none ↦ drop_levels level head h
    | some (some p) ↦ some (suc (suc level))
  ]
