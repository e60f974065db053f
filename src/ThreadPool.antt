-- ===== src/ThreadPool.antt =====
-- bitdb/common/thread_pool.h: the workers, the producers and one call of Shutdown, which take turns in
-- any order. What a thread does between two waits for the mutex, or to a condition variable, is one
-- step. A thread that waits on a condition variable is asleep until it is notified; it may also wake
-- up without that, as the standard says.
pub mod Order
pub mod Progress
use bitdb.Base.{
  ℕ, zero, suc, ◌+◌, ◌-◌, ◌<◌, ◌≡◌, Bool, true, false, Option, none, some, List, [], ◌∷◌, ◌++◌,
  ◌==◌, if◌then◌else◌,
}

-- Where the thread that calls Shutdown is: before the call, at the test of its wait, asleep in the wait,
-- behind the assignment to stop_, in the loop of joins, and behind it.
pub data Phase : Type 0 where
  not_called : Phase
  testing : Phase
  sleeping : Phase
  stopping : Phase
  joining : Phase
  joined : Phase

-- notify_one for the thread in Shutdown
unfoldable pub notify_producer : Phase → Phase
notify_producer sleeping = testing
notify_producer phase = phase

module _ (Task : Type 0) where
  -- ThreadPool: its queue and stop_; how many workers are on their way to the test of their wait, are
  -- asleep, run a task and have returned; the calls of Commit before their notify_one; Shutdown.
  pub record ThreadPool : Type 0 where
    pub tasks : List Task
    pub stop : Bool
    pub ready : ℕ
    pub asleep : ℕ
    pub running : ℕ
    pub returned : ℕ
    pub notifying : ℕ
    pub phase : Phase

module _ {Task : Type 0} where
  -- ThreadPool::ThreadPool
  unfoldable pub new_thread_pool : ℕ → ThreadPool Task
  new_thread_pool thread_num = record {
    tasks = [];
    stop = false;
    ready = thread_num;
    asleep = 0;
    running = 0;
    returned = 0;
    notifying = 0;
    phase = not_called;
  }

  -- ThreadPool::Commit, up to the end of the lock
  unfoldable pub commit_task : Task → ThreadPool Task → ThreadPool Task
  commit_task task p = record p {
    tasks = if p.stop then p.tasks else p.tasks ++ (task ∷ []);
    notifying = p.notifying + 1;
  }

  -- notify_one of ThreadPool::Commit
  unfoldable pub notify_worker : ThreadPool Task → ThreadPool Task
  notify_worker p =
      if p.asleep == 0
      then record p { notifying = p.notifying - 1 }
      else record p { notifying = p.notifying - 1; asleep = p.asleep - 1; ready = p.ready + 1 }

  -- A worker with the lock, where stop_ is not set: it waits, or takes a task.
  unfoldable pub take_task : List Task → ThreadPool Task → ThreadPool Task
  take_task [] p = record p { ready = p.ready - 1; asleep = p.asleep + 1 }
  take_task (task ∷ []) p = record p {
    tasks = [];
    ready = p.ready - 1;
    running = p.running + 1;
    phase = notify_producer p.phase;
  }
  take_task (task ∷ other ∷ tasks) p = record p {
    tasks = other ∷ tasks;
    ready = p.ready - 1;
    running = p.running + 1;
  }

  -- A round of a worker up to the task, or to its wait
  unfoldable pub work : ThreadPool Task → ThreadPool Task
  work p =
      if p.stop
      then record p { ready = p.ready - 1; returned = p.returned + 1 }
      else take_task p.tasks p

  -- A task ends.
  unfoldable pub finish_task : ThreadPool Task → ThreadPool Task
  finish_task p = record p { running = p.running - 1; ready = p.ready + 1 }

  unfoldable pub test_empty : List Task → ThreadPool Task → ThreadPool Task
  test_empty [] p = record p { stop = true; phase = stopping }
  test_empty (task ∷ tasks) p = record p { phase = sleeping }

  -- The wait of ThreadPool::Shutdown, and what follows it under the lock
  unfoldable pub test_shutdown : ThreadPool Task → ThreadPool Task
  unfolding test_empty
  test_shutdown p = test_empty p.tasks p

  -- notify_all of ThreadPool::Shutdown
  unfoldable pub notify_workers : ThreadPool Task → ThreadPool Task
  notify_workers p = record p { ready = p.ready + p.asleep; asleep = 0; phase = joining }

  -- The task that `work` takes out of the queue
  abbrev pub front : List Task → List Task
  front [] = []
  front (task ∷ tasks) = task ∷ []

  abbrev pub taken : ThreadPool Task → List Task
  taken p = if p.stop then [] else front p.tasks

  -- The task that `commit_task` puts into the queue
  abbrev pub accepted : Task → ThreadPool Task → List Task
  accepted task p = if p.stop then [] else task ∷ []

  -- The steps of calls that have begun, and of the workers, with the tasks that are taken.
  pub data Internal (p : ThreadPool Task) : List Task → ThreadPool Task → Type 0 where
    notifies : 0 < p.notifying → Internal p [] (notify_worker p)
    works : 0 < p.ready → Internal p (taken p) (work p)
    finishes : 0 < p.running → Internal p [] (finish_task p)
    tests : p.phase ≡ testing → Internal p [] (test_shutdown p)
    notifies_all : p.phase ≡ stopping → Internal p [] (notify_workers p)
    joins :
        p.phase ≡ joining
        → p.ready ≡ 0
        → p.asleep ≡ 0
        → p.running ≡ 0
        → Internal p [] (record p { phase = joined })

  -- All the steps, with the tasks that are accepted and those that are taken.
  pub data Step (p : ThreadPool Task) : List Task → List Task → ThreadPool Task → Type 0 where
    commits : (task : Task) → Step p (accepted task p) [] (commit_task task p)
    calls_shutdown : p.phase ≡ not_called → Step p [] [] (record p { phase = testing })
    wakes : 0 < p.asleep → Step p [] [] (record p { asleep = p.asleep - 1; ready = p.ready + 1 })
    wakes_producer : p.phase ≡ sleeping → Step p [] [] (record p { phase = testing })
    goes_on : {us : List Task} {q : ThreadPool Task} → Internal p us q → Step p [] us q

  -- What a pool of `thread_num` workers can come to, with the tasks that were accepted and taken so far.
  pub data Reach (thread_num : ℕ) : List Task → List Task → ThreadPool Task → Type 0 where
    start : Reach thread_num [] [] (new_thread_pool thread_num)
    next :
        {ins outs more us : List Task} {p q : ThreadPool Task}
        → Reach thread_num ins outs p
        → Step p more us q
        → Reach thread_num (ins ++ more) (outs ++ us) q

  -- A number of internal steps, with the tasks that they take.
  pub data Runs (p : ThreadPool Task) : ℕ → List Task → ThreadPool Task → Type 0 where
    done : Runs p 0 [] p
    then_step :
        {k : ℕ} {us vs : List Task} {q r : ThreadPool Task}
        → Runs p k us q
        → Internal q vs r
        → Runs p (suc k) (us ++ vs) r
