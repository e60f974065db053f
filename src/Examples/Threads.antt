-- ===== src/Examples/Threads.antt =====
-- The timers and the thread pool at concrete inputs.
use mathlib.Core.List.{Perm}
use bitdb.Base.{
  ℕ, ◌+◌, ◌≤◌, ◌≡◌, ◌≢◌, ◌⊎◌, refl, true, Option, none, some, List, [], ◌∷◌, ◌++◌, arith, get_elem?,
  All,
}
use bitdb.Base.Arrays.{swap}
use bitdb.Timer.{
  Timer, TimerManager, add_timer, remove_timer, tick, erase, heapify_down, smaller, is_earlier,
}
use bitdb.Timer.Heap.{IsHeap, time}
use bitdb.Timer.Manager.{add_timer-IsHeap, remove_timer-perm}
use bitdb.Timer.Ticking.{tick_starts_next}
use bitdb.ThreadPool.{
  ThreadPool, Internal, Step, Reach, Runs, new_thread_pool, commit_task, joined, testing, work,
}
use bitdb.ThreadPool.Order.{Reach-order}
use bitdb.ThreadPool.Progress.{weight}
use bitdb.ThreadPool.Progress.Shutdown.{Goes, shutdown_returns}

abbrev timer_at : ℕ → ℕ → Timer ℕ
timer_at expiry_time id = record { expiry_time = expiry_time; timer_id = id; task = some id }

abbrev two_timers : TimerManager ℕ
two_timers = record { timers = timer_at 3 0 ∷ timer_at 5 1 ∷ []; timer_id = 2 }

two_timers-IsHeap : IsHeap two_timers.timers
two_timers-IsHeap c p q = let second : c ≡ 1 = omega arith in rw second (omega arith)

add_timer-IsHeap_example :
    (n : TimerManager ℕ) × (add_timer 1 1 (some 9) two_timers ≡ some (2, n))
    × IsHeap n.timers
    × Perm n.timers
        (record { expiry_time = 1 + 1; timer_id = 2; task = some 9 } ∷ two_timers.timers)
add_timer-IsHeap_example = add_timer-IsHeap 1 1 (some 9) two_timers two_timers-IsHeap (omega arith)

remove_timer-perm_example :
    (n : TimerManager ℕ) × (remove_timer 1 two_timers ≡ some n)
    × (n.timer_id ≡ 2)
    × ((All (λ (t : Timer ℕ). t.timer_id ≢ 1) two_timers.timers × (n ≡ two_timers))
        ⊎ ((x : Timer ℕ) × (x.timer_id ≡ 1) × Perm (x ∷ n.timers) two_timers.timers))
remove_timer-perm_example = remove_timer-perm 1 two_timers (omega arith)

tick_starts_next_example :
    (x : Timer ℕ) × (n : TimerManager ℕ) × (tick 4 two_timers ≡ some (some x, n))
    × Perm n.timers (timer_at 5 1 ∷ [])
    × (get_elem? n.timers 0 ≡ some x)
    × IsHeap n.timers
tick_starts_next_example =
    tick_starts_next 4 2 (timer_at 3 0) (timer_at 5 1) [] two_timers-IsHeap (omega arith)
      (omega arith)

-- The times of a heap, where the one in place 3 is taken out
abbrev seven_timers : List (Timer ℕ)
seven_timers =
    timer_at 1 0
    ∷ timer_at 10 1
    ∷ timer_at 2 2
    ∷ timer_at 11 3
    ∷ timer_at 12 4
    ∷ timer_at 3 5
    ∷ timer_at 4 6
    ∷ []

abbrev time_in : ℕ → Option (List (Timer ℕ)) → ℕ
time_in i none = 0
time_in i (some a) = time a i

-- The timer in place 3 expires before its parent in place 1.
early_child : (time_in 1 (erase 3 seven_timers) ≡ 10) × (time_in 3 (erase 3 seven_timers) ≡ 4)
unfolding erase heapify_down smaller is_earlier swap
early_child = (refl, refl)

abbrev no_tasks : List ℕ
no_tasks = []

abbrev one_task : List ℕ
one_task = 7 ∷ []

abbrev idle_pool : ThreadPool ℕ
idle_pool = new_thread_pool 2

abbrev stopping_pool : ThreadPool ℕ
stopping_pool = record (commit_task 7 idle_pool) { phase = testing }

stopping_pool-Reach : Reach 2 (7 ∷ []) [] stopping_pool
unfolding commit_task new_thread_pool
stopping_pool-Reach =
    Reach.next (Reach.next Reach.start (Step.commits 7)) (Step.calls_shutdown refl)

Reach-order_example :
    (no_tasks ++ stopping_pool.tasks ≡ one_task) × (stopping_pool.stop ≡ true → no_tasks ≡ one_task)
Reach-order_example = Reach-order stopping_pool-Reach

abbrev taken_pool : ThreadPool ℕ
taken_pool = work stopping_pool

one_step : Runs stopping_pool 1 (7 ∷ []) taken_pool
unfolding commit_task new_thread_pool
one_step = Runs.then_step Runs.done (Internal.works (omega arith))

shutdown_returns_example :
    (1 ≤ weight 2 stopping_pool)
    × (Goes taken_pool
        ⊎ ((taken_pool.phase ≡ joined)
            × (taken_pool.returned ≡ 2)
            × (no_tasks ++ one_task ≡ one_task)))
unfolding commit_task new_thread_pool
shutdown_returns_example = shutdown_returns stopping_pool-Reach (omega arith) refl one_step
