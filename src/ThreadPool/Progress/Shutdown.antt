-- ===== src/ThreadPool/Progress/Shutdown.antt =====
-- bitdb/common/thread_pool.h: Shutdown returns.
use mathlib.Core.List.{append_assoc, append-nil}
use mathlib.Core.Path.{subst}
use bitdb.Base.{
  ℕ, ◌+◌, ◌<◌, ◌≤◌, ◌≡◌, refl, sym, ap, ◌∙◌, true, false, List, [], ◌∷◌, ◌++◌, arith, Bool-cases,
  inl, inr, ◌⊎◌, length-append, ltb,
}
use bitdb.ThreadPool.{
  ThreadPool, Phase, not_called, testing, sleeping, stopping, joining, joined, new_thread_pool,
  commit_task, Internal, Step, Reach, Runs,
}
use bitdb.ThreadPool.Order.{Reach-order}
use bitdb.ThreadPool.Progress.{IsSound, stop_of, is_notified, is_called, weight}
use bitdb.ThreadPool.Progress.Sound.{Internal-Advances}

module _ {Task : Type 0} where
  commit_task-IsSound :
      (n : ℕ) (task : Task) (p : ThreadPool Task) → IsSound n p → IsSound n (commit_task task p)
  unfolding commit_task
  commit_task-IsSound n task p s = record {
    workers = s.workers;
    awake = λ going a. ground (arith, going, s.awake going a, length-append p.tasks (task ∷ []));
    waits = λ asleep.
        ground (arith, s.waits asleep, length-append p.tasks (task ∷ []), Bool-cases p.stop);
    stops = s.stops;
    stays = s.stays;
    woken = s.woken;
    all_back = s.all_back;
  }

  Step-IsSound :
      (n : ℕ) {more us : List Task} {p q : ThreadPool Task}
      → Step p more us q
      → IsSound n p
      → IsSound n q
  Step-IsSound n {p = p} (Step.commits task) s = commit_task-IsSound n task p s
  Step-IsSound n (Step.calls_shutdown h) s = record {
    workers = s.workers;
    awake = s.awake;
    waits = λ asleep. absurd (ground (arith, asleep));
    stops = ground (arith, s.stops, h);
    stays = s.stays;
    woken = λ notified. absurd (ground (arith, notified));
    all_back = λ back. absurd (ground (arith, back));
  }
  Step-IsSound n (Step.wakes h) s = record {
    workers = omega (arith, s.workers);
    awake = λ going a. omega (arith, s.awake going h);
    waits = s.waits;
    stops = s.stops;
    stays = s.stays;
    woken = λ notified. omega (arith, s.woken notified);
    all_back = s.all_back;
  }
  Step-IsSound n (Step.wakes_producer h) s = record {
    workers = s.workers;
    awake = s.awake;
    waits = λ asleep. absurd (ground (arith, asleep));
    stops = ground (arith, s.stops, h);
    stays = s.stays;
    woken = λ notified. absurd (ground (arith, notified));
    all_back = λ back. absurd (ground (arith, back));
  }
  Step-IsSound n (Step.goes_on i) s = (Internal-Advances n i s).0

  Reach-IsSound :
      {n : ℕ} {ins outs : List Task} {p : ThreadPool Task} → Reach n ins outs p → IsSound n p
  unfolding new_thread_pool
  Reach-IsSound {n = n} Reach.start = record {
    workers = omega arith;
    awake = λ going a. omega arith;
    waits = λ asleep. absurd (ground (arith, asleep));
    stops = refl;
    stays = λ going. refl;
    woken = λ notified. refl;
    all_back = λ back. absurd (ground (arith, back));
  }
  Reach-IsSound {n = n} (Reach.next r s) = Step-IsSound n s (Reach-IsSound r)

  -- Some internal step can be taken.
  abbrev pub Goes : ThreadPool Task → Type 0
  Goes p = (us : List Task) × (q : ThreadPool Task) × Internal p us q

  go : {us : List Task} {p q : ThreadPool Task} → Internal p us q → Goes p
  go {us} {p} {q} i = (us, q, i)

  -- With no task that runs, no notify_one that is due and no worker on its way.
  quiet-Goes :
      (n : ℕ) (phase : Phase) (p : ThreadPool Task)
      → 0 < n
      → IsSound n p
      → p.phase ≡ phase
      → is_called phase ≡ true
      → p.ready ≡ 0
      → p.running ≡ 0
      → p.notifying ≡ 0
      → (p.phase ≡ joined) ⊎ Goes p
  quiet-Goes n not_called p some s e called r w d = absurd (ground (arith, called))
  quiet-Goes n testing p some s e called r w d = inr (go (Internal.tests e))
  quiet-Goes n sleeping p some s e called r w d =
      let going : p.stop ≡ false = s.stops ∙ ap stop_of e in
      let all_asleep : 0 < p.asleep = omega (arith, s.workers, s.stays going) in
      absurd (omega (arith, s.awake going all_asleep, s.waits e))
  quiet-Goes n stopping p some s e called r w d = inr (go (Internal.notifies_all e))
  quiet-Goes n joining p some s e called r w d =
      inr (go (Internal.joins e r (s.woken (ap is_notified e)) w))
  quiet-Goes n joined p some s e called r w d = inl e

  IsSound-Goes :
      (n : ℕ) (p : ThreadPool Task)
      → 0 < n
      → IsSound n p
      → is_called p.phase ≡ true
      → (p.phase ≡ joined) ⊎ Goes p
  IsSound-Goes n p some s called = elim (Bool-cases (ltb 0 p.ready)) [
    | inl r ↦ inr (go (Internal.works (ground (arith, r))))
    | inr r ↦ elim (Bool-cases (ltb 0 p.running)) [
      | inl w ↦ inr (go (Internal.finishes (ground (arith, w))))
      | inr w ↦ elim (Bool-cases (ltb 0 p.notifying)) [
        | inl d ↦ inr (go (Internal.notifies (ground (arith, d))))
        | inr d ↦
            quiet-Goes n p.phase p some s refl called (ground (arith, r)) (ground (arith, w))
              (ground (arith, d))
      ]
    ]
  ]

  Runs-weight :
      (n : ℕ) {p : ThreadPool Task} {k : ℕ} {us : List Task} {q : ThreadPool Task}
      → Runs p k us q
      → IsSound n p
      → IsSound n q × (k + weight n q ≤ weight n p) × (is_called q.phase ≡ is_called p.phase)
  Runs-weight n Runs.done s = (s, omega arith, refl)
  Runs-weight n (Runs.then_step r i) s =
      let (sound, less, called) = Runs-weight n r s in
      let (next, lighter, same) = Internal-Advances n i sound in
      (next, omega (arith, less, lighter), same ∙ called)

  Runs-Reach :
      {n : ℕ} {ins outs : List Task} {p : ThreadPool Task} {k : ℕ} {us : List Task}
      {q : ThreadPool Task}
      → Reach n ins outs p
      → Runs p k us q
      → Reach n ins (outs ++ us) q
  Runs-Reach {n = n} {ins = ins} {outs = outs} {q = q} r Runs.done =
      subst (λ (t : List Task). Reach n ins t q) (sym (append-nil outs)) r
  Runs-Reach {n = n} {ins = ins} {outs = outs} {q = q} r
        (Runs.then_step {us = us} {vs = vs} runs i) =
      let step = Reach.next (Runs-Reach r runs) (Step.goes_on i) in
      subst (λ (t : List Task). Reach n ins t q) (append_assoc outs us vs)
        (subst (λ (t : List Task). Reach n t ((outs ++ us) ++ vs) q) (append-nil ins) step)

  -- Once Shutdown is called on a pool with a worker or more, then without further calls, and with tasks
  -- that end, the threads can take only a bounded number of steps in whatever order; where none can be
  -- taken, Shutdown has returned, all workers have returned, and they have taken all the tasks that
  -- Commit had accepted, in that order. So no thread waits for ever. A wake-up without a notification
  -- may come before these steps and is none of them.
  pub shutdown_returns :
      {n k : ℕ} {ins outs us : List Task} {p q : ThreadPool Task}
      → Reach n ins outs p
      → 0 < n
      → is_called p.phase ≡ true
      → Runs p k us q
      → (k ≤ weight n p) × (Goes q ⊎ ((q.phase ≡ joined) × (q.returned ≡ n) × (outs ++ us ≡ ins)))
  shutdown_returns {n} {k} {ins} {outs} {us} {p} {q} r some called runs =
      let (sound, less, same) = Runs-weight n runs (Reach-IsSound r) in
      (
        omega (arith, less),
        elim (IsSound-Goes n q some sound (same ∙ called)) [
          | inr goes ↦ inl goes
          | inl back ↦
              let stopped : q.stop ≡ true = sound.stops ∙ ap stop_of back in
              inr (back, sound.all_back back, (Reach-order (Runs-Reach r runs)).1 stopped)
        ],
      )
