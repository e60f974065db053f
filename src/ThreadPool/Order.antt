-- ===== src/ThreadPool/Order.antt =====
-- bitdb/common/thread_pool.h: tasks are taken in the order in which they were accepted.
use mathlib.Core.List.{append_assoc, append-nil}
use bitdb.Base.{
  ℕ, ◌≡◌, refl, sym, ap, ◌∙◌, true, List, [], ◌∷◌, ◌++◌, arith, Bool-cases, ◌==◌, inl, inr,
}
use bitdb.ThreadPool.{
  ThreadPool, new_thread_pool, commit_task, notify_worker, take_task, work, finish_task, test_empty,
  test_shutdown, notify_workers, front, taken, accepted, Internal, Step, Reach,
}

module _ {Task : Type 0} where
  -- Where stop_ is set, the queue is empty.
  abbrev pub IsDrained : ThreadPool Task → Type 0
  IsDrained p = p.stop ≡ true → p.tasks ≡ []

  take_task-front :
      (tasks : List Task) (p : ThreadPool Task)
      → p.tasks ≡ tasks
      → (front tasks ++ (take_task tasks p).tasks ≡ tasks) × ((take_task tasks p).stop ≡ p.stop)
  unfolding take_task
  take_task-front [] p e = (e, refl)
  take_task-front (task ∷ []) p e = (refl, refl)
  take_task-front (task ∷ other ∷ tasks) p e = (refl, refl)

  work-taken :
      (p : ThreadPool Task)
      → IsDrained p
      → (taken p ++ (work p).tasks ≡ p.tasks) × IsDrained (work p)
  unfolding work
  work-taken p drained = elim (Bool-cases p.stop) [
    | inl stopped ↦ simp stopped (refl, λ h. drained stopped)
    | inr going ↦
        let (queue, same) = take_task-front p.tasks p refl in
        simp going (queue, λ h. absurd (ground (arith, going, same, h)))
  ]

  test_empty-tasks :
      (tasks : List Task) (p : ThreadPool Task)
      → p.tasks ≡ tasks
      → IsDrained p
      → ((test_empty tasks p).tasks ≡ tasks) × IsDrained (test_empty tasks p)
  unfolding test_empty
  test_empty-tasks [] p e drained = (e, λ h. e)
  test_empty-tasks (task ∷ tasks) p e drained = (e, drained)

  notify_worker-tasks :
      (p : ThreadPool Task)
      → IsDrained p
      → ((notify_worker p).tasks ≡ p.tasks) × IsDrained (notify_worker p)
  unfolding notify_worker
  notify_worker-tasks p drained = elim (Bool-cases (p.asleep == 0)) [
    | inl nobody ↦ simp nobody (refl, drained)
    | inr somebody ↦ simp somebody (refl, drained)
  ]

  Internal-taken :
      {us : List Task} {p q : ThreadPool Task}
      → Internal p us q
      → IsDrained p
      → (us ++ q.tasks ≡ p.tasks) × IsDrained q
  unfolding finish_task test_shutdown notify_workers
  Internal-taken {p} (Internal.notifies h) drained = notify_worker-tasks p drained
  Internal-taken {p} (Internal.works h) drained = work-taken p drained
  Internal-taken (Internal.finishes h) drained = (refl, drained)
  Internal-taken {p} (Internal.tests h) drained = test_empty-tasks p.tasks p refl drained
  Internal-taken (Internal.notifies_all h) drained = (refl, drained)
  Internal-taken (Internal.joins h r a n) drained = (refl, drained)

  commit_task-accepted :
      (task : Task) (p : ThreadPool Task)
      → IsDrained p
      → ((commit_task task p).tasks ≡ p.tasks ++ accepted task p) × IsDrained (commit_task task p)
  unfolding commit_task
  commit_task-accepted task p drained = elim (Bool-cases p.stop) [
    | inl stopped ↦ simp stopped (sym (append-nil p.tasks), λ h. drained stopped)
    | inr going ↦ simp going (refl, λ h. absurd (ground (arith, going, h)))
  ]

  -- Each step puts into the queue what it accepts and takes from its front what it takes.
  pub Step-queue :
      {more us : List Task} {p q : ThreadPool Task}
      → Step p more us q
      → IsDrained p
      → (us ++ q.tasks ≡ p.tasks ++ more) × IsDrained q
  Step-queue {p} (Step.commits task) drained = commit_task-accepted task p drained
  Step-queue {p} (Step.calls_shutdown h) drained = (sym (append-nil p.tasks), drained)
  Step-queue {p} (Step.wakes h) drained = (sym (append-nil p.tasks), drained)
  Step-queue {p} (Step.wakes_producer h) drained = (sym (append-nil p.tasks), drained)
  Step-queue {p} (Step.goes_on i) drained =
      let (queue, rest) = Internal-taken i drained in (queue ∙ sym (append-nil p.tasks), rest)

  Reach-queue :
      {n : ℕ} {ins outs : List Task} {p : ThreadPool Task}
      → Reach n ins outs p
      → (outs ++ p.tasks ≡ ins) × IsDrained p
  unfolding new_thread_pool
  Reach-queue Reach.start = (refl, λ h. refl)
  Reach-queue (Reach.next {outs = outs} {more = more} {us = us} {q = q} r s) =
      let (queue, drained) = Reach-queue r in
      let (moved, rest) = Step-queue s drained in
      (
        append_assoc outs us q.tasks
            ∙ ap (λ t. outs ++ t) moved
            ∙ sym (append_assoc outs _ more)
            ∙ ap (λ t. t ++ more) queue,
        rest,
      )

  -- In whatever order the threads take their steps, the workers have taken tasks in the order in which
  -- Commit has accepted them, and the queue holds those that are accepted and not taken; once
  -- Shutdown has set stop_, all accepted tasks are taken.
  pub Reach-order :
      {n : ℕ} {ins outs : List Task} {p : ThreadPool Task}
      → Reach n ins outs p
      → (outs ++ p.tasks ≡ ins) × (p.stop ≡ true → outs ≡ ins)
  Reach-order {outs = outs} r =
      let (queue, drained) = Reach-queue r in
      (queue, λ h. sym (append-nil outs) ∙ ap (λ t. outs ++ t) (sym (drained h)) ∙ queue)
