-- ===== src/SkipList/Descent.antt =====
-- bitdb/ds/skiplist.h: where the loops of the searches end.
use bitdb.Base.{
  ℕ, zero, suc, ◌<◌, ◌≤◌, ◌≡◌, ◌⊎◌, refl, ap, ◌∙◌, Option, none, some, List, [], ◌∷◌, ltb, arith,
  All, Bool-cases, inl, inr, length,
}
use bitdb.SkipList.{
  Ptr, Node, Heap, Prevs, Verdict, give, break_off, go_on, arrived, stopped, set_at, walk, descend,
}
use bitdb.SkipList.Segment.{Tower, first_or, last_or, Holds, ahead_of, Segment}

module _ {K V : Type 0} where
  -- The towers whose nodes the test lets pass.
  abbrev pub Passes : (Node K V → Verdict) → List (Tower K V) → Type 0
  Passes test ts = All (λ (t : Tower K V). (n : Node K V) → n.key ≡ t.key → test n ≡ go_on) ts

  -- A walk that comes to `x` on level `i` stops before it.
  abbrev pub Halts : Heap K V → (Node K V → Verdict) → ℕ → Option Ptr → Type 0
  Halts h test i x = (fuel : ℕ) (prev : Ptr) → walk (suc fuel) h test i prev x ≡ some (stopped prev)

  walk-pass :
      (fuel : ℕ) (h : Heap K V) (test : Node K V → Verdict) (i : ℕ) (p : Ptr) (t : Tower K V)
      (a : ℕ → Option Ptr)
      → i < t.level
      → (n : Holds h t a) → test n.node ≡ go_on
      → walk (suc fuel) h test i p (some t.at) ≡ walk fuel h test i t.at (a i)
  unfolding walk
  walk-pass fuel h test i p t a lt n passed = ground (arith, n.stored, passed, n.level, n.next i lt)

  pub walk-break :
      (fuel : ℕ) (h : Heap K V) (test : Node K V → Verdict) (i : ℕ) (p : Ptr) (t : Tower K V)
      (a : ℕ → Option Ptr) (n : Holds h t a)
      → test n.node ≡ break_off
      → walk (suc fuel) h test i p (some t.at) ≡ some (stopped p)
  unfolding walk
  walk-break fuel h test i p t a n broken = ground (arith, n.stored, broken)

  pub walk-give :
      (fuel : ℕ) (h : Heap K V) (test : Node K V → Verdict) (i : ℕ) (p : Ptr) (t : Tower K V)
      (a : ℕ → Option Ptr) (n : Holds h t a)
      → test n.node ≡ give
      → walk (suc fuel) h test i p (some t.at) ≡ some (arrived t.at)
  unfolding walk
  walk-give fuel h test i p t a n given = ground (arith, n.stored, given)

  pub Halts-null : (h : Heap K V) (test : Node K V → Verdict) (i : ℕ) → Halts h test i none
  unfolding walk
  Halts-null h test i fuel prev = refl

  -- A walk passes the towers of a segment that reach its level.
  pub walk-Segment :
      (fuel : ℕ) (h : Heap K V) (test : Node K V → Verdict) (i : ℕ) (p : Ptr)
      (ts : List (Tower K V)) (e : ℕ → Option Ptr)
      → length ts < fuel
      → Segment h ts e
      → Passes test ts
      → (rest : ℕ) × (walk fuel h test i p (first_or i ts (e i))
          ≡ walk (suc rest) h test i (last_or i p ts) (e i))
  walk-Segment zero h test i p ts e enough s pass = absurd (omega arith)
  walk-Segment (suc fuel) h test i p [] e enough s pass = (fuel, refl)
  walk-Segment (suc fuel) h test i p (t ∷ ts) e enough s pass = elim (Bool-cases (ltb i t.level)) [
    | inl up ↦
        let (rest, run) = walk-Segment fuel h test i t.at ts e (omega arith) s.1 pass.1 in
        let step : walk (suc fuel) h test i p (some t.at)
            ≡ walk fuel h test i t.at (first_or i ts (e i)) =
          walk-pass fuel h test i p t _ (ground arith) s.0 (pass.0 s.0.node s.0.key) in
        (rest, rw up (step ∙ run))
    | inr low ↦ rw low (walk-Segment (suc fuel) h test i p ts e (omega arith) s.1 pass.1)
  ]

  -- The last tower that reaches level `i`, with the segment behind it.
  pub record Reached (h : Heap K V) (test : Node K V → Verdict) (e : ℕ → Option Ptr) (i : ℕ)
      (ts : List (Tower K V)) : Type 0 where
    pub tower : Tower K V
    pub rest : List (Tower K V)
    pub last : (a : Ptr) → last_or i a ts ≡ tower.at
    pub below : (a : Ptr) (j : ℕ) → j ≤ i → last_or j a ts ≡ last_or j tower.at rest
    pub reaches : i < tower.level
    pub holds : Holds h tower (ahead_of rest e)
    pub segment : Segment h rest e
    pub passes : Passes test rest
    pub shorter : length rest < length ts

  reach :
      (h : Heap K V) (test : Node K V → Verdict) (e : ℕ → Option Ptr) (i : ℕ)
      (ts : List (Tower K V))
      → Segment h ts e
      → Passes test ts
      → ((a : Ptr) → last_or i a ts ≡ a) ⊎ Reached h test e i ts
  reach h test e i [] s pass = inl (λ a. refl)
  reach h test e i (t ∷ ts) s pass = elim (reach h test e i ts s.1 pass.1) [
    | inr r ↦ inr (record {
      tower = r.tower;
      rest = r.rest;
      last = λ a. r.last _;
      below = λ a j le. r.below _ j le;
      reaches = r.reaches;
      holds = r.holds;
      segment = r.segment;
      passes = r.passes;
      shorter = omega (arith, r.shorter);
    })
    | inl nothing ↦ elim (Bool-cases (ltb i t.level)) [
      | inl up ↦ inr (record {
        tower = t;
        rest = ts;
        last = λ a. nothing _ ∙ rw up refl;
        below = λ a j le. ap (λ (x : Ptr). last_or j x ts) (ground (arith, up));
        reaches = ground arith;
        holds = s.0;
        segment = s.1;
        passes = pass.1;
        shorter = omega arith;
      })
      | inr low ↦ inl (λ a. nothing _ ∙ rw low refl)
    ]
  ]

  -- The search goes down one level, from `t` to the last tower on level `i`.
  pub record Lowered (h : Heap K V) (test : Node K V → Verdict) (e : ℕ → Option Ptr) (i fuel : ℕ)
      (t : Tower K V) (ts : List (Tower K V)) (prevs : Prevs) : Type 0 where
    pub tower : Tower K V
    pub rest : List (Tower K V)
    pub step :
        descend fuel h test (suc i) t.at prevs
        ≡ descend fuel h test i tower.at (set_at i (some tower.at) prevs)
    pub last : last_or i t.at ts ≡ tower.at
    pub below : (j : ℕ) → j ≤ i → last_or j t.at ts ≡ last_or j tower.at rest
    pub reaches : i < tower.level
    pub holds : Holds h tower (ahead_of rest e)
    pub segment : Segment h rest e
    pub passes : Passes test rest
    pub enough : length rest < fuel

  descend-stopped :
      (h : Heap K V) (test : Node K V → Verdict) (e : ℕ → Option Ptr) (i fuel : ℕ) (t : Tower K V)
      (ts : List (Tower K V)) (prevs : Prevs) (p : Ptr)
      → i < t.level
      → Holds h t (ahead_of ts e)
      → walk fuel h test i t.at (first_or i ts (e i)) ≡ some (stopped p)
      → descend fuel h test (suc i) t.at prevs ≡ descend fuel h test i p (set_at i (some p) prevs)
  unfolding descend
  descend-stopped h test e i fuel t ts prevs p lt n stops =
      ground (arith, n.stored, n.level, n.next i lt, stops)

  pub descend_step :
      (h : Heap K V) (test : Node K V → Verdict) (e : ℕ → Option Ptr) (i fuel : ℕ) (t : Tower K V)
      (ts : List (Tower K V)) (prevs : Prevs)
      → i < t.level
      → Holds h t (ahead_of ts e)
      → Segment h ts e
      → Passes test ts
      → length ts < fuel
      → Halts h test i (e i)
      → Lowered h test e i fuel t ts prevs
  descend_step h test e i fuel t ts prevs lt n s pass enough halts =
      let (rest, run) = walk-Segment fuel h test i t.at ts e enough s pass in
      let stops = descend-stopped h test e i fuel t ts prevs _ lt n (run ∙ halts rest _) in
      elim (reach h test e i ts s pass) [
        | inl nothing ↦ record {
          tower = t;
          rest = ts;
          step = rw (nothing t.at) at stops;
          last = nothing t.at;
          below = λ j le. refl;
          reaches = lt;
          holds = n;
          segment = s;
          passes = pass;
          enough = enough;
        }
        | inr r ↦ record {
          tower = r.tower;
          rest = r.rest;
          step = rw (r.last t.at) at stops;
          last = r.last t.at;
          below = r.below t.at;
          reaches = r.reaches;
          holds = r.holds;
          segment = r.segment;
          passes = r.passes;
          enough = omega (arith, r.shorter);
        }
      ]
