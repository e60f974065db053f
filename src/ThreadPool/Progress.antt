-- ===== src/ThreadPool/Progress.antt =====
-- bitdb/common/thread_pool.h: what keeps the workers awake, and the return of Shutdown.
pub mod Sound
pub mod Taking
pub mod Shutdown
use bitdb.Base.{ℕ, suc, ◌+◌, ◌*◌, ◌<◌, ◌≤◌, ◌≡◌, Bool, true, false, List, length}
use bitdb.ThreadPool.{ThreadPool, Phase, not_called, testing, sleeping, stopping, joining, joined}

-- Shutdown has set stop_.
abbrev pub stop_of : Phase → Bool
stop_of not_called = false
stop_of testing = false
stop_of sleeping = false
stop_of stopping = true
stop_of joining = true
stop_of joined = true

-- notify_all is behind Shutdown.
abbrev pub is_notified : Phase → Bool
is_notified not_called = false
is_notified testing = false
is_notified sleeping = false
is_notified stopping = false
is_notified joining = true
is_notified joined = true

abbrev pub is_called : Phase → Bool
is_called not_called = false
is_called testing = true
is_called sleeping = true
is_called stopping = true
is_called joining = true
is_called joined = true

abbrev pub phase_weight : ℕ → Phase → ℕ
phase_weight n not_called = 0
phase_weight n testing = n + 4
phase_weight n sleeping = n + 3
phase_weight n stopping = n + 2
phase_weight n joining = 1
phase_weight n joined = 0

module _ {Task : Type 0} where
  -- A worker sleeps only where enough others are on their way to the tasks, or a notify_one is due, and
  -- Shutdown sleeps only where there are tasks.
  pub record IsSound (n : ℕ) (p : ThreadPool Task) : Type 0 where
    pub workers : p.ready + p.asleep + p.running + p.returned ≡ n
    pub awake : p.stop ≡ false → 0 < p.asleep → length p.tasks ≤ p.ready + p.notifying
    pub waits : p.phase ≡ sleeping → 0 < length p.tasks
    pub stops : p.stop ≡ stop_of p.phase
    pub stays : p.stop ≡ false → p.returned ≡ 0
    pub woken : is_notified p.phase ≡ true → p.asleep ≡ 0
    pub all_back : p.phase ≡ joined → p.returned ≡ n

  -- The number of steps that are left is at most this.
  abbrev pub weight : ℕ → ThreadPool Task → ℕ
  weight n p =
      4 * length p.tasks
      + 3 * p.running
      + 2 * p.ready
      + p.asleep
      + 2 * p.notifying
      + phase_weight n p.phase

  -- The step to q keeps the invariant and is one of those that are left.
  abbrev pub Advances : ℕ → ThreadPool Task → ThreadPool Task → Type 0
  Advances n p q = IsSound n q × (weight n q < weight n p) × (is_called q.phase ≡ is_called p.phase)
