-- ===== src/SkipList/Searches.antt =====
-- bitdb/ds/skiplist.h: the results of the searches, for towers that the test splits in two.
use bitdb.Base.{
  ℕ, zero, suc, ◌<◌, ◌≤◌, ◌≡◌, refl, ap, ◌∙◌, Option, some, List, ltb, ◌==◌, arith, Bool-cases, inl,
  inr, length,
}
use bitdb.SkipList.{
  Ptr, Node, Heap, Prevs, Verdict, give, arrived, found, ended, set_at, walk, descend,
}
use bitdb.SkipList.Segment.{Tower, first_or, last_or, Holds, ahead_of, Segment}
use bitdb.SkipList.Descent.{Passes, Halts, descend_step, walk-Segment, walk-give}

module _ {K V : Type 0} where
  -- A search that ends, with the last tower before the end on each level.
  pub record Ends (h : Heap K V) (test : Node K V → Verdict) (n fuel : ℕ) (t : Tower K V)
      (ts : List (Tower K V)) (prevs : Prevs) : Type 0 where
    pub prev : Ptr
    pub vector : Prevs
    pub run : descend fuel h test n t.at prevs ≡ some (ended prev vector)
    pub filled : (j : ℕ) → j < n → vector j ≡ some (last_or j t.at ts)
    pub kept : (j : ℕ) → n ≤ j → vector j ≡ prevs j
    pub bottom : 0 < n → prev ≡ last_or 0 t.at ts
    pub unmoved : n ≡ 0 → prev ≡ t.at

  pub descend-Ends :
      (h : Heap K V) (test : Node K V → Verdict) (e : ℕ → Option Ptr) (n fuel : ℕ) (t : Tower K V)
      (ts : List (Tower K V)) (prevs : Prevs)
      → n ≤ t.level
      → Holds h t (ahead_of ts e)
      → Segment h ts e
      → Passes test ts
      → length ts < fuel
      → ((i : ℕ) → i < n → Halts h test i (e i))
      → Ends h test n fuel t ts prevs
  unfolding descend
  descend-Ends h test e zero fuel t ts prevs le m s pass enough halts = record {
    prev = t.at;
    vector = prevs;
    run = refl;
    filled = λ j lt. elim lt [ ];
    kept = λ j le. refl;
    bottom = λ lt. elim lt [ ];
    unmoved = λ z. refl;
  }
  descend-Ends h test e (suc i) fuel t ts prevs le m s pass enough halts =
      let l =
        descend_step h test e i fuel t ts prevs (omega arith) m s pass enough
          (halts i (omega arith)) in
      let r =
        descend-Ends h test e i fuel l.tower l.rest (set_at i (some l.tower.at) prevs)
          (omega (arith, l.reaches)) l.holds l.segment l.passes l.enough
          (λ j lt. halts j (omega arith)) in
      record {
        prev = r.prev;
        vector = r.vector;
        run = l.step ∙ r.run;
        filled = λ j lt. elim (Bool-cases (ltb j i)) [
          | inl lower ↦ ground (arith, lower, r.filled j, l.below j)
          | inr here ↦ let same : j ≡ i = ground arith in rw same (ground (arith, r.kept i, l.last))
        ];
        kept = λ j le. ground (arith, r.kept j);
        bottom = λ lt. elim (Bool-cases (i == 0)) [
          | inl z ↦ ground (arith, z, r.unmoved, l.last)
          | inr more ↦ ground (arith, more, r.bottom, l.below 0)
        ];
        unmoved = λ z. absurd (omega arith);
      }

  descend-arrived :
      (h : Heap K V) (test : Node K V → Verdict) (e : ℕ → Option Ptr) (i fuel : ℕ) (t : Tower K V)
      (ts : List (Tower K V)) (prevs : Prevs) (p : Ptr)
      → i < t.level
      → Holds h t (ahead_of ts e)
      → walk fuel h test i t.at (first_or i ts (e i)) ≡ some (arrived p)
      → descend fuel h test (suc i) t.at prevs ≡ some (found p)
  unfolding descend
  descend-arrived h test e i fuel t ts prevs p lt n stops =
      ground (arith, n.stored, n.level, n.next i lt, stops)

  -- A search that meets tower `u` on the levels that `u` reaches finds it.
  pub descend-found :
      (h : Heap K V) (test : Node K V → Verdict) (e : ℕ → Option Ptr) (n fuel : ℕ) (t : Tower K V)
      (ts : List (Tower K V)) (prevs : Prevs) (u : Tower K V) (b : ℕ → Option Ptr)
      → 0 < n
      → n ≤ t.level
      → Holds h t (ahead_of ts e)
      → Segment h ts e
      → Passes test ts
      → length ts < fuel
      → 0 < u.level
      → (m : Holds h u b) → test m.node ≡ give
      → ((i : ℕ) → i < u.level → e i ≡ some u.at)
      → ((i : ℕ) → u.level ≤ i → Halts h test i (e i))
      → descend fuel h test n t.at prevs ≡ some (found u.at)
  descend-found h test e zero fuel t ts prevs u b z le hd s pass enough pos m given on off =
      elim z [ ]
  descend-found h test e (suc i) fuel t ts prevs u b z le hd s pass enough pos m given on off =
      elim (Bool-cases (ltb i u.level)) [
        | inl up ↦
            let (rest, run) = walk-Segment fuel h test i t.at ts e enough s pass in
            descend-arrived h test e i fuel t ts prevs u.at (omega arith) hd (
              run
              ∙ ap (walk (suc rest) h test i (last_or i t.at ts)) (on i (ground arith))
              ∙ walk-give rest h test i (last_or i t.at ts) u b m given)
        | inr low ↦
            let l =
              descend_step h test e i fuel t ts prevs (omega arith) hd s pass enough
                (off i (ground arith)) in
            l.step
            ∙ descend-found h test e i fuel l.tower l.rest (set_at i (some l.tower.at) prevs) u b
                (ground arith) (omega (arith, l.reaches)) l.holds l.segment l.passes l.enough pos m
                given on off
      ]
