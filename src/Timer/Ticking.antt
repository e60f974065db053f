-- ===== src/Timer/Ticking.antt =====
-- Tick of bitdb/timer/timer.h.
use mathlib.Core.List.{Perm}
use mathlib.Core.List.Perm
use bitdb.Base.{
  ℕ, suc, ◌^◌, ◌<◌, ◌≤◌, ◌≡◌, refl, none, some, List, [], ◌∷◌, length, get_elem?, arith, le→leb,
}
use bitdb.Base.Arrays.{swap, get_elem?-inside, length-perm}
use bitdb.Timer.{Timer, TimerManager, erase, heapify_down, smaller, pop, tick}
use bitdb.Timer.Heap.{IsHeap}
use bitdb.Timer.Manager.{erase-IsHeap}

module _ {Task : Type 0} where
  -- Where Erase leaves a timer, pop answers with the one that is now in front.
  pop-front :
      (t u : Timer Task) (others : List (Timer Task))
      → IsHeap (t ∷ u ∷ others)
      → length (t ∷ u ∷ others) < 2 ^ 31
      → (x : Timer Task) × (b : List (Timer Task)) × (pop (t ∷ u ∷ others) ≡ some (x, b))
        × Perm b (u ∷ others)
        × (get_elem? b 0 ≡ some x)
        × IsHeap b
  unfolding pop
  pop-front t u others heap short =
      let a = t ∷ u ∷ others in
      let (b, run, same, order) =
        erase-IsHeap (suc (length others)) 0 a t refl refl (omega arith) short in
      let kept = Perm.cons_inv same in
      let (x, front) = get_elem?-inside b 0 (omega (arith, length-perm kept)) in
      (x, b, ground (arith, run, front), kept, front, order refl heap)

  -- Where the first of two timers or more in heap order, fewer than 2 ^ 31, is due, Tick takes it out
  -- and starts the task of another one: of the timer that is in front then, which stays among the
  -- timers. The order is kept.
  pub tick_starts_next :
      (now id : ℕ) (t u : Timer Task) (others : List (Timer Task))
      → IsHeap (t ∷ u ∷ others)
      → length (t ∷ u ∷ others) < 2 ^ 31
      → t.expiry_time ≤ now
      → (x : Timer Task) × (n : TimerManager Task) × (tick now
            (record { timers = t ∷ u ∷ others; timer_id = id })
          ≡ some (some x, n))
        × Perm n.timers (u ∷ others)
        × (get_elem? n.timers 0 ≡ some x)
        × IsHeap n.timers
  unfolding tick
  tick_starts_next now id t u others heap short due =
      let (x, b, run, kept, front, order) = pop-front t u others heap short in
      (
        x,
        record { timers = b; timer_id = id },
        rw (le→leb t.expiry_time now due, run) refl,
        kept,
        front,
        order,
      )

  -- Where the only timer is due, Tick reads the front of a vector that is empty.
  pub tick_of_last :
      (now id : ℕ) (t : Timer Task)
      → t.expiry_time ≤ now
      → tick now (record { timers = t ∷ []; timer_id = id }) ≡ none
  unfolding tick pop erase heapify_down smaller swap
  tick_of_last now id t due = rw (le→leb t.expiry_time now due) refl
