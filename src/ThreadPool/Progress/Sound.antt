-- ===== src/ThreadPool/Progress/Sound.antt =====
-- bitdb/common/thread_pool.h: each step keeps the invariant, and each internal one gets nearer the end.
use bitdb.Base.{ℕ, suc, ◌<◌, ◌≡◌, refl, List, [], ◌∷◌, arith, length, Bool-cases, ◌==◌, inl, inr}
use bitdb.ThreadPool.{
  ThreadPool, testing, stopping, joining, joined, notify_worker, finish_task, test_empty,
  test_shutdown, notify_workers, Internal,
}
use bitdb.ThreadPool.Progress.Taking.{work-Advances}
use bitdb.ThreadPool.Progress.{Advances, IsSound}

module _ {Task : Type 0} where
  notify_worker-Advances :
      (n : ℕ) (p : ThreadPool Task) → IsSound n p → 0 < p.notifying → Advances n p (notify_worker p)
  unfolding notify_worker
  notify_worker-Advances n p s h = elim (Bool-cases (p.asleep == 0)) [
    | inl nobody ↦ simp nobody (
      record {
        workers = s.workers;
        awake = λ going some_asleep. ground (arith, nobody, some_asleep);
        waits = s.waits;
        stops = s.stops;
        stays = s.stays;
        woken = s.woken;
        all_back = s.all_back;
      },
      omega arith,
      refl,
    )
    | inr somebody ↦
        let some_asleep : 0 < p.asleep = ground (arith, somebody) in
        simp somebody (
          record {
            workers = omega (arith, s.workers);
            awake = λ going others. omega (arith, s.awake going some_asleep);
            waits = s.waits;
            stops = s.stops;
            stays = s.stays;
            woken = λ e. omega (arith, s.woken e);
            all_back = s.all_back;
          },
          omega arith,
          refl,
        )
  ]

  finish_task-Advances :
      (n : ℕ) (p : ThreadPool Task) → IsSound n p → 0 < p.running → Advances n p (finish_task p)
  unfolding finish_task
  finish_task-Advances n p s h = (
    record {
      workers = omega (arith, s.workers);
      awake = λ going some_asleep. omega (arith, s.awake going some_asleep);
      waits = s.waits;
      stops = s.stops;
      stays = s.stays;
      woken = s.woken;
      all_back = s.all_back;
    },
    omega arith,
    refl,
  )

  notify_workers-Advances :
      (n : ℕ) (p : ThreadPool Task)
      → IsSound n p
      → p.phase ≡ stopping
      → Advances n p (notify_workers p)
  unfolding notify_workers
  notify_workers-Advances n p s h =
      let stopped = s.stops in
      (
        record {
          workers = omega (arith, s.workers);
          awake = λ going some_asleep. omega arith;
          waits = λ e. ground (arith, e);
          stops = ground (arith, h, stopped);
          stays = s.stays;
          woken = λ e. refl;
          all_back = λ e. absurd (ground (arith, e));
        },
        ground (arith, h, s.workers),
        ground (arith, h),
      )

  test_empty-Advances :
      (n : ℕ) (tasks : List Task) (p : ThreadPool Task)
      → IsSound n p
      → p.tasks ≡ tasks
      → p.phase ≡ testing
      → Advances n p (test_empty tasks p)
  unfolding test_empty
  test_empty-Advances n [] p s e h = (
    record {
      workers = s.workers;
      awake = λ going a. absurd (ground (arith, going));
      waits = λ asleep. absurd (ground (arith, asleep));
      stops = refl;
      stays = λ going. absurd (ground (arith, going));
      woken = λ notified. absurd (ground (arith, notified));
      all_back = λ back. absurd (ground (arith, back));
    },
    ground (arith, h),
    ground (arith, h),
  )
  test_empty-Advances n (task ∷ tasks) p s e h =
      let more : length p.tasks ≡ suc (length tasks) = rw e refl in
      (
        record {
          workers = s.workers;
          awake = s.awake;
          waits = λ asleep. omega (arith, more);
          stops = ground (arith, s.stops, h);
          stays = s.stays;
          woken = λ notified. absurd (ground (arith, notified));
          all_back = λ back. absurd (ground (arith, back));
        },
        ground (arith, h),
        ground (arith, h),
      )

  joins-Advances :
      (n : ℕ) (p : ThreadPool Task)
      → IsSound n p
      → p.phase ≡ joining
      → p.ready ≡ 0
      → p.asleep ≡ 0
      → p.running ≡ 0
      → Advances n p (record p { phase = joined })
  joins-Advances n p s h r a w = (
    record {
      workers = s.workers;
      awake = s.awake;
      waits = λ asleep. absurd (ground (arith, asleep));
      stops = ground (arith, s.stops, h);
      stays = s.stays;
      woken = λ notified. a;
      all_back = λ back. omega (arith, s.workers);
    },
    ground (arith, h),
    ground (arith, h),
  )

  pub Internal-Advances :
      (n : ℕ) {us : List Task} {p q : ThreadPool Task}
      → Internal p us q
      → IsSound n p
      → Advances n p q
  unfolding test_shutdown
  Internal-Advances n {p = p} (Internal.notifies h) s = notify_worker-Advances n p s h
  Internal-Advances n {p = p} (Internal.works h) s = work-Advances n p s h
  Internal-Advances n {p = p} (Internal.finishes h) s = finish_task-Advances n p s h
  Internal-Advances n {p = p} (Internal.tests h) s = test_empty-Advances n p.tasks p s refl h
  Internal-Advances n {p = p} (Internal.notifies_all h) s = notify_workers-Advances n p s h
  Internal-Advances n {p = p} (Internal.joins h r a w) s = joins-Advances n p s h r a w
