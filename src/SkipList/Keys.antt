-- ===== src/SkipList/Keys.antt =====
-- bitdb/ds/skiplist.h: towers in ascending order of their keys, cut at a key, and the map that they
-- stand for.
use bitdb.Base.{
  ℕ, ◌≡◌, refl, sym, ap, ◌∙◌, true, false, Option, none, some, List, [], ◌∷◌, ◌++◌, if◌then◌else◌,
  ltb, arith, All, Bool-cases, inl, inr,
}
use mathlib.Core.Path.{subst}
use bitdb.Base.Pairwise.{Pairwise}
use bitdb.SkipList.{Node, Heap, Order, Verdict, break_off}
use bitdb.SkipList.Keyed.{find_test, prev_test}
use bitdb.SkipList.Segment.{Tower, first_or, Segment}
use bitdb.SkipList.Descent.{Passes, Halts, Halts-null, walk-break}

module _ {K V : Type 0} where
  -- The towers whose nodes the test stops at.
  abbrev pub Breaks : (Node K V → Verdict) → List (Tower K V) → Type 0
  Breaks test ts = All (λ (t : Tower K V). (n : Node K V) → n.key ≡ t.key → test n ≡ break_off) ts

  pub Breaks-Halts :
      (h : Heap K V) (test : Node K V → Verdict) (i : ℕ) (ts : List (Tower K V)) (e : ℕ → Option ℕ)
      → e i ≡ none
      → Segment h ts e
      → Breaks test ts
      → Halts h test i (first_or i ts (e i))
  Breaks-Halts h test i [] e last s b = rw last (Halts-null h test i)
  Breaks-Halts h test i (t ∷ ts) e last s b = elim (Bool-cases (ltb i t.level)) [
    | inl up ↦ rw up (λ fuel p. walk-break fuel h test i p t _ s.0 (b.0 s.0.node s.0.key))
    | inr low ↦ rw low (Breaks-Halts h test i ts e last s.1 b.1)
  ]

module _ {K : Type 0} (o : Order K) where
  pub eq_refl : (a : K) → o.eq a a ≡ true
  eq_refl a = (o.eq_iff a a).1 refl

  lt_asym : (a b : K) → o.lt a b ≡ true → o.lt b a ≡ false
  lt_asym a b h = elim (Bool-cases (o.lt b a)) [
    | inl back ↦ absurd (cc (o.lt_trans a b a h back, o.lt_irrefl a))
    | inr fine ↦ fine
  ]

  pub lt-not_eq : (a b : K) → o.lt a b ≡ true → o.eq a b ≡ false
  lt-not_eq a b h = elim (Bool-cases (o.eq a b)) [
    | inl same ↦ absurd (ground (arith, (o.eq_iff a b).0 same, o.lt_irrefl a, h))
    | inr fine ↦ fine
  ]

  pub lt-not_eq_back : (a b : K) → o.lt a b ≡ true → o.eq b a ≡ false
  lt-not_eq_back a b h = elim (Bool-cases (o.eq b a)) [
    | inl same ↦ absurd (ground (arith, (o.eq_iff b a).0 same, o.lt_irrefl a, h))
    | inr fine ↦ fine
  ]

module _ {K V : Type 0} (o : Order K) where
  abbrev pub IsAscending : List (Tower K V) → Type 0
  IsAscending ts = Pairwise (λ (t u : Tower K V). o.lt t.key u.key ≡ true) ts

  -- The towers below a key, and the others.
  pub before : K → List (Tower K V) → List (Tower K V)
  before k [] = []
  before k (t ∷ ts) = let rest = before k ts in if o.lt t.key k then t ∷ rest else []

  pub from : K → List (Tower K V) → List (Tower K V)
  from k [] = []
  from k (t ∷ ts) = let rest = from k ts in if o.lt t.key k then rest else t ∷ ts

  -- The value that the towers hold for a key.
  unfoldable pub lookup : K → List (Tower K V) → Option V
  lookup k [] = none
  lookup k (t ∷ ts) = if o.eq t.key k then some t.value else lookup k ts

  pub before-append-from : (k : K) (ts : List (Tower K V)) → before k ts ++ from k ts ≡ ts
  unfolding before from
  before-append-from k [] = refl
  before-append-from k (t ∷ ts) = elim (Bool-cases (o.lt t.key k)) [
    | inl low ↦ rw low (ap (λ x. t ∷ x) (before-append-from k ts))
    | inr high ↦ rw high refl
  ]

  abbrev pub Below : K → List (Tower K V) → Type 0
  Below k ts = All (λ (t : Tower K V). o.lt t.key k ≡ true) ts

  abbrev pub Above : K → List (Tower K V) → Type 0
  Above k ts = All (λ (t : Tower K V). o.lt k t.key ≡ true) ts

  pub before-Below : (k : K) (ts : List (Tower K V)) → Below k (before k ts)
  unfolding before
  before-Below k [] = tt
  before-Below k (t ∷ ts) = elim (Bool-cases (o.lt t.key k)) [
    | inl low ↦ rw low (low, before-Below k ts)
    | inr high ↦ rw high tt
  ]

  -- The towers from a key on: it is there, or it is not.
  pub data Rest (k : K) : List (Tower K V) → Type 0 where
    present : (u : Tower K V) (us : List (Tower K V)) → u.key ≡ k → Above k us → Rest k (u ∷ us)
    absent : (us : List (Tower K V)) → Above k us → Rest k us

  pub Above-trans : (j k : K) (ts : List (Tower K V)) → o.lt j k ≡ true → Above k ts → Above j ts
  Above-trans j k [] lt above = tt
  Above-trans j k (t ∷ ts) lt above =
      (o.lt_trans j k t.key lt above.0, Above-trans j k ts lt above.1)

  pub from-Rest : (k : K) (ts : List (Tower K V)) → IsAscending ts → Rest k (from k ts)
  unfolding from
  from-Rest k [] up = absent [] tt
  from-Rest k (t ∷ ts) up = elim (Bool-cases (o.lt t.key k)) [
    | inl low ↦ rw low (from-Rest k ts up.1)
    | inr high ↦ elim (Bool-cases (o.lt k t.key)) [
      | inl above ↦ rw high (absent (t ∷ ts) (above, Above-trans k t.key ts above up.0))
      | inr same ↦
          let e = o.lt_total t.key k high same in
          rw high (present t ts e (subst (λ (x : K). Above x ts) e up.0))
    ]
  ]

  -- What the tests of the searches do on either side of the key.
  pub Below-Passes-find : (k : K) (ts : List (Tower K V)) → Below k ts → Passes (find_test o k) ts
  Below-Passes-find k [] low = tt
  Below-Passes-find k (t ∷ ts) low = (
    λ n same. rw same (rw (lt-not_eq o t.key k low.0) (rw (lt_asym o t.key k low.0) refl)),
    Below-Passes-find k ts low.1,
  )

  pub Above-Breaks-find : (k : K) (ts : List (Tower K V)) → Above k ts → Breaks (find_test o k) ts
  Above-Breaks-find k [] high = tt
  Above-Breaks-find k (t ∷ ts) high = (
    λ n same. rw same (rw (lt-not_eq_back o k t.key high.0) (rw high.0 refl)),
    Above-Breaks-find k ts high.1,
  )

  pub Below-Passes-prev : (k : K) (ts : List (Tower K V)) → Below k ts → Passes (prev_test o k) ts
  Below-Passes-prev k [] low = tt
  Below-Passes-prev k (t ∷ ts) low =
      (λ n same. rw same (rw low.0 refl), Below-Passes-prev k ts low.1)

  Above-Breaks-prev : (k : K) (ts : List (Tower K V)) → Above k ts → Breaks (prev_test o k) ts
  Above-Breaks-prev k [] high = tt
  Above-Breaks-prev k (t ∷ ts) high =
      (λ n same. rw same (rw (lt_asym o k t.key high.0) refl), Above-Breaks-prev k ts high.1)

  pub Rest-Breaks-prev : (k : K) (ts : List (Tower K V)) → Rest k ts → Breaks (prev_test o k) ts
  Rest-Breaks-prev k _ (present u us e above) =
      (λ n same. rw same (rw e (rw (o.lt_irrefl k) refl)), Above-Breaks-prev k us above)
  Rest-Breaks-prev k _ (absent us above) = Above-Breaks-prev k us above

  pub lookup-Below :
      (k : K) (low ts : List (Tower K V)) → Below k low → lookup k (low ++ ts) ≡ lookup k ts
  unfolding lookup
  lookup-Below k [] ts b = refl
  lookup-Below k (t ∷ low) ts b = rw (lt-not_eq o t.key k b.0) (lookup-Below k low ts b.1)

  pub lookup-Above : (k : K) (ts : List (Tower K V)) → Above k ts → lookup k ts ≡ none
  unfolding lookup
  lookup-Above k [] above = refl
  lookup-Above k (t ∷ ts) above = rw (lt-not_eq_back o k t.key above.0) (lookup-Above k ts above.1)

  pub lookup_here : (u : Tower K V) (ts : List (Tower K V)) → lookup u.key (u ∷ ts) ≡ some u.value
  unfolding lookup
  lookup_here u ts = rw (eq_refl o u.key) refl

  -- A tower between those below its key and those above decides the answer for its key alone.
  pub lookup-insert :
      (j : K) (low high : List (Tower K V)) (m : Tower K V)
      → Below m.key low
      → lookup j (low ++ (m ∷ high))
        ≡ (if o.eq m.key j then some m.value else lookup j (low ++ high))
  unfolding lookup
  lookup-insert j [] high m b = refl
  lookup-insert j (t ∷ low) high m b = ground (
    arith,
    lookup-insert j low high m b.1,
    o.eq_iff t.key j,
    o.eq_iff m.key j,
    lt-not_eq o t.key m.key b.0,
  )

  pub lookup-remove :
      (j : K) (low high : List (Tower K V)) (m : Tower K V)
      → Below m.key low
      → Above m.key high
      → lookup j (low ++ high) ≡ (if o.eq m.key j then none else lookup j (low ++ (m ∷ high)))
  lookup-remove j low high m b above = elim (Bool-cases (o.eq m.key j)) [
    | inl same ↦
        let e = (o.eq_iff m.key j).0 same in
        rw same (
          subst (λ (x : K). lookup x (low ++ high) ≡ none) e
            (lookup-Below m.key low high b ∙ lookup-Above m.key high above))
    | inr other ↦ rw other (sym (rw other at (lookup-insert j low high m b)))
  ]

  lookup-cons :
      (t : Tower K V) (ts us : List (Tower K V))
      → Above t.key us
      → All (λ (u : Tower K V). lookup u.key ts ≡ some u.value) us
      → All (λ (u : Tower K V). lookup u.key (t ∷ ts) ≡ some u.value) us
  unfolding lookup
  lookup-cons t ts [] above h = tt
  lookup-cons t ts (u ∷ us) above h =
      (rw (lt-not_eq o t.key u.key above.0) h.0, lookup-cons t ts us above.1 h.1)

  -- Each tower is what its key finds.
  pub lookup_each :
      (ts : List (Tower K V))
      → IsAscending ts
      → All (λ (t : Tower K V). lookup t.key ts ≡ some t.value) ts
  lookup_each [] up = tt
  lookup_each (t ∷ ts) up = (lookup_here t ts, lookup-cons t ts ts up.0 (lookup_each ts up.1))
