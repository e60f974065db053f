-- ===== src/SkipList/Relink.antt =====
-- bitdb/ds/skiplist.h: the effect of `p->next[i] = q` on towers.
use bitdb.Base.{
  ℕ, ◌<◌, ◌≡◌, ◌≢◌, refl, sym, ap, ◌∙◌, Option, some, List, [], ◌∷◌, ltb, ◌==◌, if◌then◌else◌,
  arith, Bool-cases, inl, inr, lt→ltb,
}
use bitdb.SkipList.{Ptr, Node, Heap, set_at, store, next_at, set_next}
use bitdb.SkipList.Segment.{
  Tower, first_or, last_or, Holds, ahead_of, Segment, Avoids, IsDistinct, Holds-cong, store-Holds,
}

module _ {K V : Type 0} where
  -- A heap after the write, with what the write keeps.
  pub record Linked (h : Heap K V) (p : Ptr) (k : ℕ) (q : Option Ptr) : Type 0 where
    pub heap : Heap K V
    pub run : set_next h p k q ≡ some heap
    pub here :
        (t : Tower K V) (a : ℕ → Option Ptr) → t.at ≡ p → Holds h t a → Holds heap t (set_at k q a)
    pub elsewhere : (t : Tower K V) (a : ℕ → Option Ptr) → t.at ≢ p → Holds h t a → Holds heap t a

  pub next_at-Holds :
      (h : Heap K V) (t : Tower K V) (a : ℕ → Option Ptr) (k : ℕ)
      → k < t.level
      → Holds h t a
      → next_at h t.at k ≡ some (a k)
  unfolding next_at
  next_at-Holds h t a k lt n = rw n.stored (ground (arith, n.level, n.next k lt))

  pub set_next_lem :
      (h : Heap K V) (s : Tower K V) (b : ℕ → Option Ptr) (k : ℕ) (q : Option Ptr)
      → k < s.level
      → Holds h s b
      → Linked h s.at k q
  unfolding set_next store
  set_next_lem h s b k q lt m = record {
    heap = store h s.at (some (record m.node { next = set_at k q m.node.next }));
    run = rw m.stored (rw (m.level, lt→ltb k s.level lt) refl);
    here = λ t a same n.
        let alike : n.node ≡ m.node = ground (arith, n.stored, m.stored, same) in
        record {
          node = record m.node { next = set_at k q m.node.next };
          stored = ground arith;
          key = ap (λ (x : Node K V). x.key) (sym alike) ∙ n.key;
          value = ap (λ (x : Node K V). x.value) (sym alike) ∙ n.value;
          level = ap (λ (x : Node K V). x.level) (sym alike) ∙ n.level;
          next = λ i below.
              ap (λ (x : Option Ptr). if i == k then q else x)
                (ap (λ (x : Node K V). x.next i) (sym alike) ∙ n.next i below);
        };
    elsewhere = λ t a ne n. store-Holds h s.at _ ne n;
  }

  -- The last tower on a level, from `t` on, and where its pointer leads.
  pub record LastOn (h : Heap K V) (k : ℕ) (p : Ptr) (q : Option Ptr) : Type 0 where
    pub tower : Tower K V
    pub ahead : ℕ → Option Ptr
    pub at : tower.at ≡ p
    pub reaches : k < tower.level
    pub holds : Holds h tower ahead
    pub leads : ahead k ≡ q

  pub last_or-LastOn :
      (h : Heap K V) (k : ℕ) (t : Tower K V) (ts : List (Tower K V)) (a e : ℕ → Option Ptr)
      → k < t.level
      → Holds h t a
      → a k ≡ first_or k ts (e k)
      → Segment h ts e
      → LastOn h k (last_or k t.at ts) (e k)
  last_or-LastOn h k t [] a e lt n leads s = record {
    tower = t;
    ahead = a;
    at = refl;
    reaches = lt;
    holds = n;
    leads = leads;
  }
  last_or-LastOn h k t (u ∷ us) a e lt n leads s = elim (Bool-cases (ltb k u.level)) [
    | inl up ↦ rw up (last_or-LastOn h k u us (ahead_of us e) e (ground arith) s.0 refl s.1)
    | inr low ↦ rw low (last_or-LastOn h k t us a e lt n (rw low at leads) s.1)
  ]

  pub last_or-ne :
      (k : ℕ) (a p : Ptr) (ts : List (Tower K V)) → a ≢ p → Avoids p ts → last_or k a ts ≢ p
  last_or-ne k a p [] ne away = ne
  last_or-ne k a p (u ∷ us) ne away = elim (Bool-cases (ltb k u.level)) [
    | inl up ↦ rw up (last_or-ne k u.at p us away.0 away.1)
    | inr low ↦ rw low (last_or-ne k a p us ne away.1)
  ]

  first_or-none_between :
      (k : ℕ) (p : Ptr) (ts : List (Tower K V)) (x : Option Ptr)
      → Avoids p ts
      → last_or k p ts ≡ p
      → first_or k ts x ≡ x
  first_or-none_between k p [] x away same = refl
  first_or-none_between k p (u ∷ us) x away same = elim (Bool-cases (ltb k u.level)) [
    | inl up ↦ absurd (last_or-ne k u.at p us away.0 away.1 (rw up at same))
    | inr low ↦ rw low (first_or-none_between k p us x away.1 (rw low at same))
  ]

  first_or-some_between :
      (k : ℕ) (p : Ptr) (ts : List (Tower K V)) (x y : Option Ptr)
      → last_or k p ts ≢ p
      → first_or k ts x ≡ first_or k ts y
  first_or-some_between k p [] x y ne = absurd (ne refl)
  first_or-some_between k p (u ∷ us) x y ne = elim (Bool-cases (ltb k u.level)) [
    | inl up ↦ rw up refl
    | inr low ↦ rw low (first_or-some_between k p us x y (rw low at ne))
  ]

  -- A write to the last tower on a level redirects the level there, and nothing else.
  pub relink-Holds :
      (h : Heap K V) (k : ℕ) (q : Option Ptr) (t : Tower K V) (ts : List (Tower K V))
      (e : ℕ → Option Ptr) (r : Ptr)
      → r ≡ last_or k t.at ts
      → Avoids t.at ts
      → (w : Linked h r k q) → Holds h t (ahead_of ts e)
      → Holds w.heap t (ahead_of ts (set_at k q e))
  relink-Holds h k q t ts e r is_last away w n = elim (Bool-cases (t.at == r)) [
    | inl same ↦
        Holds-cong _ (ahead_of ts (set_at k q e))
          (λ i lt. elim (Bool-cases (i == k)) [
            | inl level ↦ ground (arith, level, same, first_or-none_between k t.at ts q)
            | inr other ↦ rw other refl
          ])
          (w.here t _ (ground arith) n)
    | inr differs ↦
        Holds-cong _ (ahead_of ts (set_at k q e))
          (λ i lt. elim (Bool-cases (i == k)) [
            | inl level ↦ ground (arith, level, differs, first_or-some_between k t.at ts (e k) q)
            | inr other ↦ rw other refl
          ])
          (w.elsewhere t _ (ground arith) n)
  ]

  pub relink-Segment :
      (h : Heap K V) (k : ℕ) (q : Option Ptr) (p : Ptr) (ts : List (Tower K V)) (e : ℕ → Option Ptr)
      (r : Ptr)
      → r ≡ last_or k p ts
      → Avoids p ts
      → IsDistinct ts
      → (w : Linked h r k q) → Segment h ts e
      → Segment w.heap ts (set_at k q e)
  relink-Segment h k q p [] e r is_last away distinct w s = tt
  relink-Segment h k q p (u ∷ us) e r is_last away distinct w s =
      elim (Bool-cases (ltb k u.level)) [
        | inl up ↦
            let from_u : r ≡ last_or k u.at us = rw up at is_last in
            (
              relink-Holds h k q u us e r from_u distinct.0 w s.0,
              relink-Segment h k q u.at us e r from_u distinct.0 distinct.1 w s.1,
            )
        | inr low ↦
            let from_p : r ≡ last_or k p us = rw low at is_last in
            (
              Holds-cong _ (ahead_of us (set_at k q e)) (λ i lt. ground (arith, low))
                  (w.elsewhere u _
                    (λ same.
                      last_or-ne k p u.at us (λ x. away.0 (sym x)) distinct.0
                        (sym from_p ∙ sym same))
                    s.0),
              relink-Segment h k q p us e r from_p away.1 distinct.1 w s.1,
            )
      ]
