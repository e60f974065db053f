-- ===== src/Timer/Heap.antt =====
-- The heap order of bitdb/timer/timer.h, and HeapifyUp.
pub mod Down
use mathlib.Core.List.{Perm}
use mathlib.Core.List.Perm
use bitdb.Base.{
  ℕ, zero, suc, ◌+◌, ◌-◌, ◌*◌, ◌%◌, ◌^◌, ◌<◌, ◌≤◌, ◌≡◌, ◌≢◌, refl, Bool, true, false, Option, none,
  some, List, length, get_elem?, ltb, ◌==◌, if◌then◌else◌, Bool-cases, inl, inr, ◌⊎◌, arith,
}
use bitdb.Base.Arrays.{swap, IsSwapped, swap-IsSwapped, get_elem?-inside, length-perm}
use bitdb.Timer.{Timer, parent_index, is_earlier, heapify_up, smaller, heapify_down}

module _ {Task : Type 0} where
  abbrev pub time_of : Option (Timer Task) → ℕ
  time_of none = 0
  time_of (some t) = t.expiry_time

  -- The expiry time of the timer in a place
  abbrev pub time : List (Timer Task) → ℕ → ℕ
  time a i = time_of (get_elem? a i)

  -- No timer expires before its parent.
  abbrev pub IsHeap : List (Timer Task) → Type 0
  IsHeap a = (c : ℕ) → 0 < c → c < length a → time a (parent_index c) ≤ time a c

  -- The timers below i do not expire before the parent of i.
  abbrev pub IsBridged : List (Timer Task) → ℕ → Type 0
  IsBridged a i =
      (c : ℕ)
      → 0 < c
      → c < length a
      → parent_index c ≡ i
      → 0 < i
      → time a (parent_index i) ≤ time a c

  -- Only the timer at i may expire before its parent.
  pub record IsHeapBut (a : List (Timer Task)) (i : ℕ) : Type 0 where
    pub edges : (c : ℕ) → 0 < c → c < length a → c ≢ i → time a (parent_index c) ≤ time a c
    pub bridged : IsBridged a i

  -- Only the timers below i may expire before it.
  pub record IsHeapBelow (a : List (Timer Task)) (i : ℕ) : Type 0 where
    pub edges :
        (c : ℕ) → 0 < c → c < length a → parent_index c ≢ i → time a (parent_index c) ≤ time a c
    pub bridged : IsBridged a i

  pub time-swapped :
      (a b : List (Timer Task)) (i j c : ℕ)
      → IsSwapped a i j b
      → time b c ≡ (if j == c then time a i else if i == c then time a j else time a c)
  time-swapped a b i j c s = ground (arith, s.place c)

  pub is_earlier_inside :
      (a : List (Timer Task)) (i j : ℕ)
      → i < length a
      → j < length a
      → is_earlier a i j ≡ some (ltb (time a i) (time a j))
  unfolding is_earlier
  is_earlier_inside a i j hi hj =
      let (x, at_i) = get_elem?-inside a i hi in
      let (y, at_j) = get_elem?-inside a j hj in ground (arith, at_i, at_j)

  swapped-IsHeapBut :
      (a b : List (Timer Task)) (i : ℕ)
      → IsHeapBut a i
      → 0 < i
      → i < length a
      → time a i < time a (parent_index i)
      → IsSwapped a i (parent_index i) b
      → IsHeapBut b (parent_index i)
  swapped-IsHeapBut a b i v pos inside below s =
      let size = length-perm s.same in
      let at = λ (c : ℕ). time-swapped a b i (parent_index i) c s in
      record {
        edges = λ c p q r. ground (arith, size, at c, at (parent_index c), v.edges c, v.bridged c);
        bridged = λ c p q r t. ground (
          arith,
          size,
          at c,
          at (parent_index (parent_index i)),
          v.edges c,
          v.edges (parent_index i),
        );
      }

  -- HeapifyUp ends, and makes a heap of the same timers.
  pub heapify_up-IsHeap :
      (fuel i : ℕ) (a : List (Timer Task))
      → i < fuel
      → i < length a
      → IsHeapBut a i
      → (b : List (Timer Task)) × (heapify_up fuel i a ≡ some b) × IsHeap b × Perm b a
  unfolding heapify_up
  heapify_up-IsHeap zero i a f inside v = absurd (omega arith)
  heapify_up-IsHeap (suc fuel) i a f inside v = elim (Bool-cases (i == 0)) [
    | inl root ↦
        (a, ground (arith, root), (λ c p q. v.edges c p q (ground (arith, root))), Perm.rfl)
    | inr pos ↦
        let some_parent : 0 < i = ground (arith, pos) in
        let above : parent_index i < length a = omega arith in
        let test = is_earlier_inside a i (parent_index i) inside above in
        elim (Bool-cases (ltb (time a i) (time a (parent_index i)))) [
          | inl below ↦
              let (b, s) = swap-IsSwapped a i (parent_index i) inside above in
              let less : time a i < time a (parent_index i) = ground (arith, below) in
              let (r, run, heap, same) =
                heapify_up-IsHeap fuel (parent_index i) b (omega arith)
                  (omega (arith, length-perm s.same))
                  (swapped-IsHeapBut a b i v some_parent inside less s) in
              (r, ground (arith, pos, test, below, s.run, run), heap, Perm.trans same s.same)
          | inr settled ↦ (
            a,
            ground (arith, pos, test, settled),
            (λ c p q. ground (arith, v.edges c, settled)),
            Perm.rfl,
          )
        ]
  ]
