-- ===== src/SkipList/Parts.antt =====
-- bitdb/ds/skiplist.h: Insert and Remove write to the towers before a place, to the tower at it, and
-- to none behind it.
use bitdb.Base.{
  ℕ, ◌<◌, ◌≡◌, ◌≢◌, refl, sym, ap, ◌∙◌, Option, some, List, [], ◌∷◌, ◌++◌, ltb, arith, All-parts,
  Bool-cases, inl, inr,
}
use mathlib.Core.Path.{subst}
use bitdb.SkipList.{Ptr, Heap, max_level, set_at, next_at, set_next}
use bitdb.SkipList.Segment.{
  Tower, first_or, last_or, Holds, ahead_of, Segment, nothing, Avoids, IsDistinct, Holds-cong,
  Segment-cong, Segment-parts, Segment-append,
}
use bitdb.SkipList.Relink.{
  Linked, next_at-Holds, set_next_lem, last_or-LastOn, relink-Holds, relink-Segment,
}

module _ {K V : Type 0} where
  IsDistinct-back : (xs ys : List (Tower K V)) → IsDistinct (xs ++ ys) → IsDistinct ys
  IsDistinct-back [] ys d = d
  IsDistinct-back (x ∷ xs) ys d = IsDistinct-back xs ys d.1

  IsDistinct-front : (xs ys : List (Tower K V)) → IsDistinct (xs ++ ys) → IsDistinct xs
  IsDistinct-front [] ys d = tt
  IsDistinct-front (x ∷ xs) ys d = ((All-parts _ xs ys d.0).0, IsDistinct-front xs ys d.1)

  pub last_or-Avoids :
      (k : ℕ) (p : Ptr) (xs ys : List (Tower K V))
      → Avoids p (xs ++ ys)
      → IsDistinct (xs ++ ys)
      → Avoids (last_or k p xs) ys
  last_or-Avoids k p [] ys away d = away
  last_or-Avoids k p (x ∷ xs) ys away d = elim (Bool-cases (ltb k x.level)) [
    | inl up ↦ rw up (last_or-Avoids k x.at xs ys d.0 d.1)
    | inr low ↦ rw low (last_or-Avoids k p xs ys away.1 d.1)
  ]

  Avoids-back :
      (xs ys : List (Tower K V)) (m : Tower K V) → IsDistinct (xs ++ (m ∷ ys)) → Avoids m.at xs
  Avoids-back [] ys m d = tt
  Avoids-back (x ∷ xs) ys m d =
      (λ same. (All-parts _ xs (m ∷ ys) d.0).1.0 (sym same), Avoids-back xs ys m d.1)

  -- A write elsewhere leaves a segment as it is.
  Linked-Segment :
      (h : Heap K V) (p : Ptr) (k : ℕ) (q : Option Ptr) (w : Linked h p k q) (ts : List (Tower K V))
      (e : ℕ → Option Ptr)
      → Avoids p ts
      → Segment h ts e
      → Segment w.heap ts e
  Linked-Segment h p k q w [] e away s = tt
  Linked-Segment h p k q w (t ∷ ts) e away s =
      (w.elsewhere t _ away.0 s.0, Linked-Segment h p k q w ts e away.1 s.1)

-- The towers `low` lead to `e`, the tower `m` to `a`, and the towers `high` to the end.
module _ {K V : Type 0} (root : Tower K V) (low : List (Tower K V)) (m : Tower K V)
    (high : List (Tower K V)) where
  pub record Parts (h : Heap K V) (e a : ℕ → Option Ptr) : Type 0 where
    pub head : Holds h root (ahead_of low e)
    pub front : Segment h low e
    pub middle : Holds h m a
    pub back : Segment h high nothing

  pub record Apart : Type 0 where
    pub distinct : IsDistinct (root ∷ (low ++ (m ∷ high)))
    pub tall : root.level ≡ max_level

  -- A step on the heap that ends in other parts.
  pub record Rewired (h : Heap K V) (p : Ptr) (k : ℕ) (q : Option Ptr) (e a : ℕ → Option Ptr)
      : Type 0 where
    pub heap : Heap K V
    pub run : set_next h p k q ≡ some heap
    pub parts : Parts heap e a

  pub last_leads :
      (h : Heap K V) (e a : ℕ → Option Ptr) (k : ℕ)
      → k < max_level
      → Apart
      → Parts h e a
      → next_at h (last_or k root.at low) k ≡ some (e k)
  last_leads h e a k lt x p =
      let l =
        last_or-LastOn h k root low (ahead_of low e) e (omega (arith, x.tall)) p.head refl
          p.front in
      subst (λ (r : Ptr). next_at h r k ≡ some (e k)) l.at
        (next_at-Holds h l.tower l.ahead k l.reaches l.holds ∙ ap some l.leads)

  -- `prevs[k]->next[k] = q`
  pub redirect :
      (h : Heap K V) (e a : ℕ → Option Ptr) (k : ℕ) (q : Option Ptr)
      → k < max_level
      → Apart
      → Parts h e a
      → Rewired h (last_or k root.at low) k q (set_at k q e) a
  redirect h e a k q lt x p =
      let l =
        last_or-LastOn h k root low (ahead_of low e) e (omega (arith, x.tall)) p.head refl
          p.front in
      let w = set_next_lem h l.tower l.ahead k q l.reaches l.holds in
      let (apart_low, apart_rest) = All-parts _ low (m ∷ high) x.distinct.0 in
      let away = last_or-Avoids k root.at low (m ∷ high) x.distinct.0 x.distinct.1 in
      let away' = subst (λ (r : Ptr). Avoids r (m ∷ high)) (sym l.at) away in
      record {
        heap = w.heap;
        run = subst (λ (r : Ptr). set_next h r k q ≡ some w.heap) l.at w.run;
        parts = record {
          head = relink-Holds h k q root low e l.tower.at l.at apart_low w p.head;
          front =
              relink-Segment h k q root.at low e l.tower.at l.at apart_low
                (IsDistinct-front low (m ∷ high) x.distinct.1) w p.front;
          middle = w.elsewhere m a away'.0 p.middle;
          back = Linked-Segment h l.tower.at k q w high nothing away'.1 p.back;
        };
      }

  -- `node->next[k] = q`
  pub rewire_middle :
      (h : Heap K V) (e a : ℕ → Option Ptr) (k : ℕ) (q : Option Ptr)
      → k < m.level
      → Apart
      → Parts h e a
      → Rewired h m.at k q e (set_at k q a)
  rewire_middle h e a k q lt x p =
      let w = set_next_lem h m a k q lt p.middle in
      let at_root : root.at ≢ m.at =
        λ same. (All-parts _ low (m ∷ high) x.distinct.0).1.0 (sym same) in
      record {
        heap = w.heap;
        run = w.run;
        parts = record {
          head = w.elsewhere root _ at_root p.head;
          front = Linked-Segment h m.at k q w low e (Avoids-back low high m x.distinct.1) p.front;
          middle = w.here m a refl p.middle;
          back =
              Linked-Segment h m.at k q w high nothing
                (IsDistinct-back low (m ∷ high) x.distinct.1).0 p.back;
        };
      }

  pub Parts-cong :
      (h : Heap K V) (e f a b : ℕ → Option Ptr)
      → ((i : ℕ) → e i ≡ f i)
      → ((i : ℕ) → i < m.level → a i ≡ b i)
      → Parts h e a
      → Parts h f b
  Parts-cong h e f a b same also p = record {
    head = Holds-cong _ (ahead_of low f) (λ i lt. ap (first_or i low) (same i)) p.head;
    front = Segment-cong h low e f same p.front;
    middle = Holds-cong a b also p.middle;
    back = p.back;
  }

  pub Segment-Parts :
      (h : Heap K V)
      → Segment h (root ∷ (low ++ (m ∷ high))) nothing
      → Parts h (ahead_of (m ∷ high) nothing) (ahead_of high nothing)
  Segment-Parts h s =
      let (front, back) = Segment-parts h (root ∷ low) (m ∷ high) nothing s in
      record { head = front.0; front = front.1; middle = back.0; back = back.1 }

  pub Parts-Segment :
      (h : Heap K V)
      → Parts h (ahead_of (m ∷ high) nothing) (ahead_of high nothing)
      → Segment h (root ∷ (low ++ (m ∷ high))) nothing
  Parts-Segment h p =
      Segment-append h (root ∷ low) (m ∷ high) nothing (p.head, p.front) (p.middle, p.back)
