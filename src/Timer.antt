-- ===== src/Timer.antt =====
-- bitdb/timer/timer.h: TimerManager, a binary heap of timers by their expiry time. A lock guards each
-- method, so it is one step. Times are milliseconds; no result stands for an access beyond the vector.
pub mod Heap
pub mod Manager
pub mod Ticking
use bitdb.Base.{
  ℕ, zero, suc, ◌+◌, ◌-◌, ◌*◌, ◌/◌, ◌%◌, ◌^◌, Bool, true, false, Option, none, some, List, [], ◌∷◌,
  ◌++◌, length, take, get_elem?, ltb, leb, ◌==◌, if◌then◌else◌, ◌>>=◌,
}
use bitdb.Base.Arrays.{swap}

module _ (Task : Type 0) where
  -- struct Timer; an empty std::function is `none`.
  pub record Timer : Type 0 where
    pub expiry_time : ℕ
    pub timer_id : ℕ
    pub task : Option Task

  -- TimerManager, with its static timer_id
  pub record TimerManager : Type 0 where
    pub timers : List Timer
    pub timer_id : ℕ

abbrev pub parent_index : ℕ → ℕ
parent_index index = (index - 1) / 2

module _ {Task : Type 0} where
  -- timers_[i].expiry_time < timers_[j].expiry_time
  unfoldable pub is_earlier : List (Timer Task) → ℕ → ℕ → Option Bool
  is_earlier timers i j = do
    x ← get_elem? timers i
    y ← get_elem? timers j
    some (ltb x.expiry_time y.expiry_time)

  -- TimerManager::HeapifyUp, with a number of calls that it may take.
  unfoldable pub heapify_up : ℕ → ℕ → List (Timer Task) → Option (List (Timer Task))
  heapify_up zero index timers = none
  heapify_up (suc fuel) index timers =
      let rise = swap timers index (parent_index index) >>= heapify_up fuel (parent_index index) in
      let step : Option (List (Timer Task)) = do
        earlier ← is_earlier timers index (parent_index index)
        if earlier then rise else some timers
      in if index == 0 then some timers else step

  -- The `if` of HeapifyDown for one child
  unfoldable pub smaller : List (Timer Task) → ℕ → ℕ → Option ℕ
  smaller timers child smallest_index =
      let test : Option ℕ = do
        earlier ← is_earlier timers child smallest_index
        some (if earlier then child else smallest_index)
      in if ltb child (length timers) then test else some smallest_index

  -- TimerManager::HeapifyDown
  unfoldable pub heapify_down : ℕ → ℕ → List (Timer Task) → Option (List (Timer Task))
  heapify_down zero index timers = none
  heapify_down (suc fuel) index timers = do
    with_left ← smaller timers ((index * 2 + 1) % 2 ^ 32) index
    smallest_index ← smaller timers ((index * 2 + 2) % 2 ^ 32) with_left
    let sink = swap timers smallest_index index >>= heapify_down fuel smallest_index
    if smallest_index == index then some timers else sink

  -- TimerManager::Erase; fuel for each timer and one more call
  unfoldable pub erase : ℕ → List (Timer Task) → Option (List (Timer Task))
  erase index timers = do
    swapped ← swap timers index (length timers - 1)
    let rest = take (length timers - 1) swapped
    heapify_down (suc (length timers)) index rest

  -- TimerManager::Push
  unfoldable pub push : Timer Task → List (Timer Task) → Option (List (Timer Task))
  push timer timers =
      let last = (length (timers ++ (timer ∷ [])) - 1) % 2 ^ 32 in
      heapify_up (suc last) last (timers ++ (timer ∷ []))

  -- TimerManager::pop: `timer` is a reference to the front, and it is read behind Erase.
  unfoldable pub pop : List (Timer Task) → Option (Timer Task × List (Timer Task))
  pop [] = some (record { expiry_time = 0; timer_id = 0; task = none }, [])
  pop (t ∷ timers) = do rest ← erase 0 (t ∷ timers); timer ← get_elem? rest 0; some (timer, rest)

  -- TimerManager::AddTimer at the time `now`
  unfoldable pub add_timer :
      ℕ → ℕ → Option Task → TimerManager Task → Option (ℕ × TimerManager Task)
  add_timer now milliseconds callback m = do
    timers ←
        push (record { expiry_time = now + milliseconds; timer_id = m.timer_id; task = callback })
          m.timers
    some (m.timer_id, record { timers = timers; timer_id = (m.timer_id + 1) % 2 ^ 64 })

  -- std::find_if for the timer's id, counting from `i`
  unfoldable pub find_timer : ℕ → List (Timer Task) → ℕ → Option ℕ
  find_timer id [] i = none
  find_timer id (t ∷ timers) i =
      let rest = find_timer id timers (suc i) in if t.timer_id == id then some i else rest

  abbrev erase_found : Option ℕ → TimerManager Task → Option (TimerManager Task)
  erase_found none m = some m
  erase_found (some i) m = do
    timers ← erase (i % 2 ^ 32) m.timers
    some (record m { timers = timers })

  -- TimerManager::RemoveTimer
  unfoldable pub remove_timer : ℕ → TimerManager Task → Option (TimerManager Task)
  remove_timer id m = erase_found (find_timer id m.timers 0) m

  -- One round of TimerManager::Tick: the timer whose task is started, where one is due.
  unfoldable pub tick : ℕ → TimerManager Task → Option (Option (Timer Task) × TimerManager Task)
  tick now m = elim m.timers [
    | [] ↦ some (none, m)
    | top ∷ others ↦
        let due : Option (Option (Timer Task) × TimerManager Task) = do
          (timer, rest) ← pop (top ∷ others)
          some (some timer, record m { timers = rest })
        in if leb top.expiry_time now then due else some (none, m)
  ]
