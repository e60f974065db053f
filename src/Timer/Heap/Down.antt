-- ===== src/Timer/Heap/Down.antt =====
-- HeapifyDown of bitdb/timer/timer.h.
use mathlib.Core.List.{Perm}
use mathlib.Core.List.Perm
use bitdb.Base.{
  ℕ, zero, suc, ◌+◌, ◌*◌, ◌%◌, ◌^◌, ◌<◌, ◌≤◌, ◌≡◌, refl, some, List, length, ltb, ◌==◌, Bool-cases,
  inl, inr, ◌⊎◌, arith, ℕ_discrete,
}
use bitdb.Base.Arrays.{IsSwapped, swap-IsSwapped, length-perm}
use bitdb.Timer.{Timer, parent_index, smaller, heapify_down}
use bitdb.Timer.Heap.{time, IsHeap, IsHeapBelow, time-swapped, is_earlier_inside}

module _ {Task : Type 0} where
  -- r is the one of m and the child that expires first.
  record IsFirst (a : List (Timer Task)) (child m r : ℕ) : Type 0 where
    run : smaller a child m ≡ some r
    which : (r ≡ m) ⊎ ((r ≡ child) × (child < length a) × (time a child < time a m))
    before : time a r ≤ time a m
    least : child < length a → time a r ≤ time a child

  smaller-IsFirst :
      (a : List (Timer Task)) (child m : ℕ)
      → (child < length a → m < length a)
      → (r : ℕ) × IsFirst a child m r
  unfolding smaller
  smaller-IsFirst a child m inside = elim (Bool-cases (ltb child (length a))) [
    | inl there ↦
        let child_inside : child < length a = ground (arith, there) in
        let test = is_earlier_inside a child m child_inside (inside child_inside) in
        elim (Bool-cases (ltb (time a child) (time a m))) [
          | inl less ↦ (
            child,
            record {
              run = ground (arith, there, test, less);
              which = inr (refl, child_inside, ground (arith, less));
              before = ground (arith, less);
              least = omega arith;
            },
          )
          | inr not_less ↦ (
            m,
            record {
              run = ground (arith, there, test, not_less);
              which = inl refl;
              before = omega arith;
              least = ground (arith, not_less);
            },
          )
        ]
    | inr beyond ↦ (
      m,
      record {
        run = ground (arith, beyond);
        which = inl refl;
        before = omega arith;
        least = ground (arith, beyond);
      },
    )
  ]

  -- The place m that HeapifyDown goes on with is i, or the child of i that expires first.
  record IsNext (a : List (Timer Task)) (i first m : ℕ) : Type 0 where
    left : smaller a ((i * 2 + 1) % 2 ^ 32) i ≡ some first
    right : smaller a ((i * 2 + 2) % 2 ^ 32) first ≡ some m
    which : (m ≡ i) ⊎ ((parent_index m ≡ i) × (0 < m) × (m < length a) × (time a m < time a i))
    least : (c : ℕ) → 0 < c → c < length a → parent_index c ≡ i → time a m ≤ time a c

  next_of :
      (a : List (Timer Task)) (i first m : ℕ)
      → suc (length a) < 2 ^ 31
      → i ≤ length a
      → IsFirst a (i * 2 + 1) i first
      → IsFirst a (i * 2 + 2) first m
      → IsNext a i first m
  next_of a i first m short inside f s =
      let left : (i * 2 + 1) % 2 ^ 32 ≡ i * 2 + 1 = omega arith in
      let right : (i * 2 + 2) % 2 ^ 32 ≡ i * 2 + 2 = omega arith in
      record {
        left = rw left f.run;
        right = rw right s.run;
        which = ground (arith, f.which, s.which);
        least = λ c p q r. ground (arith, f.least, s.least, s.before);
      }

  next :
      (a : List (Timer Task)) (i : ℕ)
      → suc (length a) < 2 ^ 31
      → i ≤ length a
      → (first : ℕ) × (m : ℕ) × IsNext a i first m
  next a i short inside =
      let (first, f) = smaller-IsFirst a (i * 2 + 1) i (λ h. omega arith) in
      let (m, s) = smaller-IsFirst a (i * 2 + 2) first (λ h. ground (arith, f.which)) in
      (first, m, next_of a i first m short inside f s)

  swapped-IsHeapBelow :
      (a b : List (Timer Task)) (i m : ℕ)
      → IsHeapBelow a i
      → parent_index m ≡ i
      → 0 < m
      → m < length a
      → time a m < time a i
      → ((c : ℕ) → 0 < c → c < length a → parent_index c ≡ i → time a m ≤ time a c)
      → IsSwapped a m i b
      → IsHeapBelow b m
  swapped-IsHeapBelow a b i m v child pos inside less least s =
      let size = length-perm s.same in
      let at = λ (c : ℕ). time-swapped a b m i c s in
      record {
        edges = λ c p q r. elim (ℕ_discrete c i) [
          | yes same ↦
              let above = v.bridged m pos inside child (omega arith) in
              rw same (ground (arith, at i, at (parent_index i), above))
          | no other ↦ ground (arith, size, at c, at (parent_index c), v.edges c, least c)
        ];
        bridged = λ c p q r t. ground (arith, size, at c, at (parent_index m), v.edges c);
      }

  -- HeapifyDown ends with the same timers, and they are a heap where only those below the place were
  -- out of order.
  pub heapify_down-IsHeap :
      (fuel i : ℕ) (a : List (Timer Task))
      → suc (length a) < 2 ^ 31
      → i ≤ length a
      → length a < fuel + i
      → (b : List (Timer Task)) × (heapify_down fuel i a ≡ some b)
        × Perm b a
        × (IsHeapBelow a i → IsHeap b)
  unfolding heapify_down
  heapify_down-IsHeap zero i a short inside f = absurd (omega arith)
  heapify_down-IsHeap (suc fuel) i a short inside f =
      let (first, m, n) = next a i short inside in
      elim (Bool-cases (m == i)) [
        | inl settled ↦ (
          a,
          ground (arith, n.left, n.right, settled),
          Perm.rfl,
          (λ v c p q. ground (arith, v.edges c, n.least c, settled)),
        )
        | inr lower ↦ elim n.which [
          | inl same ↦ absurd (ground (arith, lower, same))
          | inr (child, pos, there, less) ↦
              let (b, s) = swap-IsSwapped a m i there (omega arith) in
              let size = length-perm s.same in
              let (r, run, same, heap) =
                heapify_down-IsHeap fuel m b (omega arith) (omega arith) (omega arith) in
              (
                r,
                ground (arith, n.left, n.right, lower, s.run, run),
                Perm.trans same s.same,
                (λ v. heap (swapped-IsHeapBelow a b i m v child pos there less n.least s)),
              )
        ]
      ]
