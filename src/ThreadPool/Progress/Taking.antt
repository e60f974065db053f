-- ===== src/ThreadPool/Progress/Taking.antt =====
-- bitdb/common/thread_pool.h: a worker at the queue keeps the invariant.
use bitdb.Base.{
  ℕ, suc, ◌<◌, ◌≡◌, refl, sym, ◌∙◌, false, List, [], ◌∷◌, arith, length, Bool-cases, inl, inr,
}
use bitdb.ThreadPool.{ThreadPool, notify_producer, take_task, work}
use bitdb.ThreadPool.Progress.{Advances, IsSound}

module _ {Task : Type 0} where
  take_task-Advances :
      (n : ℕ) (tasks : List Task) (p : ThreadPool Task)
      → IsSound n p
      → p.tasks ≡ tasks
      → p.stop ≡ false
      → 0 < p.ready
      → Advances n p (take_task tasks p)
  unfolding take_task notify_producer
  take_task-Advances n [] p s e going h =
      let empty : length p.tasks ≡ 0 = rw e refl in
      (
        record {
          workers = omega (arith, s.workers);
          awake = λ g a. omega (arith, empty);
          waits = s.waits;
          stops = s.stops;
          stays = s.stays;
          woken = λ notified. absurd (ground (arith, s.stops, going, notified));
          all_back = λ back. absurd (ground (arith, s.stops, going, back));
        },
        omega arith,
        refl,
      )
  take_task-Advances n (task ∷ []) p s e going h =
      let one : length p.tasks ≡ 1 = rw e refl in
      (
        record {
          workers = omega (arith, s.workers);
          awake = λ g a. omega arith;
          waits = λ asleep. absurd (ground (arith, asleep));
          stops = ground (arith, s.stops, going);
          stays = s.stays;
          woken = λ notified. absurd (ground (arith, s.stops, going, notified));
          all_back = λ back. absurd (ground (arith, s.stops, going, back));
        },
        ground (arith, one),
        ground arith,
      )
  take_task-Advances n (task ∷ other ∷ tasks) p s e going h =
      let more : length p.tasks ≡ suc (suc (length tasks)) = rw e refl in
      (
        record {
          workers = omega (arith, s.workers);
          awake = λ g a. omega (arith, s.awake going a, more);
          waits = λ asleep. omega arith;
          stops = s.stops;
          stays = s.stays;
          woken = s.woken;
          all_back = s.all_back;
        },
        omega (arith, more),
        refl,
      )

  pub work-Advances :
      (n : ℕ) (p : ThreadPool Task) → IsSound n p → 0 < p.ready → Advances n p (work p)
  unfolding work
  work-Advances n p s h = elim (Bool-cases p.stop) [
    | inl stopped ↦ simp stopped (
      record {
        workers = omega (arith, s.workers);
        awake = λ going a. absurd (ground (arith, going, stopped));
        waits = s.waits;
        stops = sym stopped ∙ s.stops;
        stays = λ going. absurd (ground (arith, going, stopped));
        woken = s.woken;
        all_back = λ back. absurd (omega (arith, s.all_back back, s.workers));
      },
      omega arith,
      refl,
    )
    | inr going ↦ simp going (take_task-Advances n p.tasks p s refl going h)
  ]
