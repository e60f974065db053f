-- ===== src/Timer/Manager.antt =====
-- The methods of TimerManager of bitdb/timer/timer.h.
use mathlib.Core.List.{Perm}
use mathlib.Core.List.Perm
use bitdb.Base.{
  ℕ, zero, suc, ◌+◌, ◌-◌, ◌%◌, ◌^◌, ◌<◌, ◌≤◌, ◌≡◌, ◌≢◌, refl, Option, none, some, List, [], ◌∷◌,
  ◌++◌, length, take, get_elem?, ◌==◌, Bool-cases, inl, inr, ◌⊎◌, arith, length-append, length-take,
  Option-cases, All, ◌∙◌,
}
use bitdb.Base.Arrays.{
  swap-IsSwapped, length-perm, get_elem?-append, get_elem?-take, append-perm, take-perm,
}
use bitdb.Timer.{
  Timer, TimerManager, parent_index, push, erase, add_timer, find_timer, remove_timer,
}
use bitdb.Timer.Heap.{time, IsHeap, IsHeapBut, IsHeapBelow, heapify_up-IsHeap, time-swapped}
use bitdb.Timer.Heap.Down.{heapify_down-IsHeap}

module _ {Task : Type 0} where
  append-IsHeapBut :
      (i : ℕ) (t : Timer Task) (a : List (Timer Task))
      → i ≡ length a
      → IsHeap a
      → IsHeapBut (a ++ (t ∷ [])) i
  append-IsHeapBut i t a end heap =
      let size = length-append a (t ∷ []) in
      record {
        edges = λ c p q r. ground (
          arith,
          size,
          end,
          heap c,
          get_elem?-append c a (t ∷ []),
          get_elem?-append (parent_index c) a (t ∷ []),
        );
        bridged = omega (arith, size);
      }

  push-IsHeap :
      (t : Timer Task) (a : List (Timer Task))
      → IsHeap a
      → length a < 2 ^ 32
      → (b : List (Timer Task)) × (push t a ≡ some b) × IsHeap b × Perm b (t ∷ a)
  unfolding push
  push-IsHeap t a heap short =
      let size = length-append a (t ∷ []) in
      let last = (length (a ++ (t ∷ [])) - 1) % 2 ^ 32 in
      let end : last ≡ length a = omega (arith, size) in
      let (b, run, order, same) =
        heapify_up-IsHeap (suc last) last (a ++ (t ∷ [])) (omega arith) (omega (arith, size))
          (append-IsHeapBut last t a end heap) in
      (b, run, order, Perm.trans same (append-perm a t))

  -- AddTimer on fewer than 2 ^ 32 timers in heap order ends; it answers with the next id and adds one
  -- timer with that id, the task and the time when it expires, and the timers are in heap order.
  pub add_timer-IsHeap :
      (now milliseconds : ℕ) (callback : Option Task) (m : TimerManager Task)
      → IsHeap m.timers
      → length m.timers < 2 ^ 32
      → (n : TimerManager Task) × (add_timer now milliseconds callback m ≡ some (m.timer_id, n))
        × IsHeap n.timers
        × Perm n.timers (
            record { expiry_time = now + milliseconds; timer_id = m.timer_id; task = callback }
            ∷ m.timers)
  unfolding add_timer
  add_timer-IsHeap now milliseconds callback m heap short =
      let t : Timer Task = record {
        expiry_time = now + milliseconds;
        timer_id = m.timer_id;
        task = callback;
      } in
      let (b, run, order, same) = push-IsHeap t m.timers heap short in
      (record { timers = b; timer_id = (m.timer_id + 1) % 2 ^ 64 }, rw run refl, order, same)

  cut-IsHeapBelow :
      (n i : ℕ) (a b : List (Timer Task))
      → i ≡ 0
      → length b ≡ suc n
      → length a ≡ suc n
      → ((c : ℕ) → 0 < c → c < n → time b c ≡ time a c)
      → IsHeap a
      → IsHeapBelow (take n b) i
  cut-IsHeapBelow n i a b root long size same heap = record {
    edges = λ c p q r. ground (
      arith,
      length-take n b,
      heap c,
      same c,
      same (parent_index c),
      get_elem?-take c n b,
      get_elem?-take (parent_index c) n b,
    );
    bridged = omega arith;
  }

  -- Erase takes one timer out, and at the root it keeps the heap order.
  pub erase-IsHeap :
      (n i : ℕ) (a : List (Timer Task)) (x : Timer Task)
      → length a ≡ suc n
      → get_elem? a i ≡ some x
      → i ≤ n
      → length a < 2 ^ 31
      → (b : List (Timer Task)) × (erase i a ≡ some b)
        × Perm (x ∷ b) a
        × (i ≡ 0 → IsHeap a → IsHeap b)
  unfolding erase
  erase-IsHeap n i a x size at_i inside short =
      let (s, swapped) = swap-IsSwapped a i n (omega arith) (omega arith) in
      let long : length s ≡ suc n = length-perm swapped.same ∙ size in
      let last : get_elem? s n ≡ some x = ground (arith, swapped.place n, at_i) in
      let cut : length (take n s) ≡ n = omega (arith, length-take n s) in
      let (b, run, same, order) =
        heapify_down-IsHeap (suc (length a)) i (take n s) (omega arith) (omega arith)
          (omega arith) in
      let index : length a - 1 ≡ n = omega arith in
      (
        b,
        rw index (ground (arith, swapped.run, run)),
        Perm.trans (Perm.cons x same) (Perm.trans (take-perm n s x long last) swapped.same),
        λ root heap. order (
            cut-IsHeapBelow n i a s root long size
              (λ c p q. ground (arith, root, time-swapped a s i n c swapped)) heap),
      )

  found :
      (id i : ℕ) (a : List (Timer Task)) (k : ℕ)
      → find_timer id a k ≡ some i
      → (k ≤ i) × (x : Timer Task) × (get_elem? a (i - k) ≡ some x) × (x.timer_id ≡ id)
  unfolding find_timer
  found id i [] k h = absurd (ground (arith, h))
  found id i (t ∷ a) k h = elim (Bool-cases (t.timer_id == id)) [
    | inl here ↦
        let at : k ≡ i = ground (arith, h, here) in
        let front : i - k ≡ 0 = omega arith in (omega arith, t, rw front refl, ground (arith, here))
    | inr later ↦
        let (bound, x, at, same) = found id i a (suc k) (ground (arith, h, later)) in
        let behind : i - k ≡ suc (i - suc k) = omega arith in (omega arith, x, rw behind at, same)
  ]

  get_elem?-bound :
      (a : List (Timer Task)) (i : ℕ) (x : Timer Task) → get_elem? a i ≡ some x → i < length a
  get_elem?-bound [] i x h = absurd (ground (arith, h))
  get_elem?-bound (t ∷ a) zero x h = omega arith
  get_elem?-bound (t ∷ a) (suc i) x h = omega (arith, get_elem?-bound a i x h)

  missed :
      (id : ℕ) (a : List (Timer Task)) (k : ℕ)
      → find_timer id a k ≡ none
      → All (λ (t : Timer Task). t.timer_id ≢ id) a
  unfolding find_timer
  missed id [] k h = tt
  missed id (t ∷ a) k h = elim (Bool-cases (t.timer_id == id)) [
    | inl here ↦ absurd (ground (arith, h, here))
    | inr later ↦ (ground (arith, later), missed id a (suc k) (ground (arith, h, later)))
  ]

  -- RemoveTimer with fewer than 2 ^ 31 timers ends. Where a timer has the id, it takes one such timer
  -- out and keeps the others, and elsewhere it changes nothing; the next id stays.
  pub remove_timer-perm :
      (id : ℕ) (m : TimerManager Task)
      → length m.timers < 2 ^ 31
      → (n : TimerManager Task) × (remove_timer id m ≡ some n)
        × (n.timer_id ≡ m.timer_id)
        × ((All (λ (t : Timer Task). t.timer_id ≢ id) m.timers × (n ≡ m))
            ⊎ ((x : Timer Task) × (x.timer_id ≡ id) × Perm (x ∷ n.timers) m.timers))
  unfolding remove_timer
  remove_timer-perm id m short = elim (Option-cases (find_timer id m.timers 0)) [
    | inl missing ↦ (m, ground (arith, missing), refl, inl (missed id m.timers 0 missing, refl))
    | inr (i, hit) ↦
        let (bound, x, at_minus, same_id) = found id i m.timers 0 hit in
        let at : get_elem? m.timers i ≡ some x = ground (arith, at_minus) in
        let inside = get_elem?-bound m.timers i x at in
        let index : i % 2 ^ 32 ≡ i = omega arith in
        let (b, run, same, order) =
          erase-IsHeap (length m.timers - 1) i m.timers x (omega arith) at (omega arith) short in
        (record m { timers = b }, ground (arith, hit, index, run), refl, inr (x, same_id, same))
  ]
