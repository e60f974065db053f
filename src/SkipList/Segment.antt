-- ===== src/SkipList/Segment.antt =====
-- bitdb/ds/skiplist.h: what the nodes of a skip list hold, as towers in the order of their keys.
-- A segment is a run of towers; behind it, level `i` goes on at the node that `e i` gives.
use bitdb.Base.{
  ℕ, ◌<◌, ◌≡◌, ◌≢◌, refl, Option, none, some, List, [], ◌∷◌, ◌++◌, ltb, if◌then◌else◌, arith, All,
  ap, sym, ◌∙◌,
}
use bitdb.Base.Pairwise.{Pairwise}
use bitdb.SkipList.{Ptr, Node, Heap, store}

pub record Tower (K V : Type 0) : Type 0 where
  pub at : Ptr
  pub key : K
  pub value : V
  pub level : ℕ

abbrev pub nothing : ℕ → Option Ptr
nothing i = none

module _ {K V : Type 0} where
  -- The first of the towers that reaches level `i`, or what follows.
  abbrev pub first_or : ℕ → List (Tower K V) → Option Ptr → Option Ptr
  first_or i [] e = e
  first_or i (t ∷ ts) e = if ltb i t.level then some t.at else first_or i ts e

  -- The last of them, or what precedes.
  abbrev pub last_or : ℕ → Ptr → List (Tower K V) → Ptr
  last_or i p [] = p
  last_or i p (t ∷ ts) = last_or i (if ltb i t.level then t.at else p) ts

  -- The tower's node, with a pointer `ahead i` on each of its levels.
  pub record Holds (h : Heap K V) (t : Tower K V) (ahead : ℕ → Option Ptr) : Type 0 where
    pub node : Node K V
    pub stored : h t.at ≡ some node
    pub key : node.key ≡ t.key
    pub value : node.value ≡ t.value
    pub level : node.level ≡ t.level
    pub next : (i : ℕ) → i < t.level → node.next i ≡ ahead i

  abbrev pub ahead_of : List (Tower K V) → (ℕ → Option Ptr) → (ℕ → Option Ptr)
  ahead_of ts e i = first_or i ts (e i)

  abbrev pub Segment : Heap K V → List (Tower K V) → (ℕ → Option Ptr) → Type 0
  Segment h [] e = Unit {0}
  Segment h (t ∷ ts) e = Holds h t (ahead_of ts e) × Segment h ts e

  -- No tower stands at address `p`.
  abbrev pub Avoids : Ptr → List (Tower K V) → Type 0
  Avoids p ts = All (λ (t : Tower K V). t.at ≢ p) ts

  abbrev pub IsDistinct : List (Tower K V) → Type 0
  IsDistinct ts = Pairwise (λ (t u : Tower K V). u.at ≢ t.at) ts

  pub first_or-append :
      (i : ℕ) (xs ys : List (Tower K V)) (e : Option Ptr)
      → first_or i (xs ++ ys) e ≡ first_or i xs (first_or i ys e)
  first_or-append i [] ys e = refl
  first_or-append i (t ∷ xs) ys e = ground (arith, first_or-append i xs ys e)

  -- Nodes see their pointers level by level.
  pub Holds-cong :
      {h : Heap K V} {t : Tower K V} (a b : ℕ → Option Ptr)
      → ((i : ℕ) → i < t.level → a i ≡ b i)
      → Holds h t a
      → Holds h t b
  Holds-cong a b same n = record {
    node = n.node;
    stored = n.stored;
    key = n.key;
    value = n.value;
    level = n.level;
    next = λ i lt. n.next i lt ∙ same i lt;
  }

  pub Segment-cong :
      (h : Heap K V) (ts : List (Tower K V)) (e f : ℕ → Option Ptr)
      → ((i : ℕ) → e i ≡ f i)
      → Segment h ts e
      → Segment h ts f
  Segment-cong h [] e f same s = tt
  Segment-cong h (t ∷ ts) e f same s = (
    Holds-cong (ahead_of ts e) (ahead_of ts f) (λ i lt. ap (first_or i ts) (same i)) s.0,
    Segment-cong h ts e f same s.1,
  )

  pub Segment-append :
      (h : Heap K V) (xs ys : List (Tower K V)) (e : ℕ → Option Ptr)
      → Segment h xs (ahead_of ys e)
      → Segment h ys e
      → Segment h (xs ++ ys) e
  Segment-append h [] ys e left right = right
  Segment-append h (t ∷ xs) ys e left right = (
    Holds-cong _ (ahead_of (xs ++ ys) e) (λ i lt. sym (first_or-append i xs ys (e i))) left.0,
    Segment-append h xs ys e left.1 right,
  )

  pub Segment-parts :
      (h : Heap K V) (xs ys : List (Tower K V)) (e : ℕ → Option Ptr)
      → Segment h (xs ++ ys) e
      → Segment h xs (ahead_of ys e) × Segment h ys e
  Segment-parts h [] ys e s = (tt, s)
  Segment-parts h (t ∷ xs) ys e s =
      let (left, right) = Segment-parts h xs ys e s.1 in
      (
        (Holds-cong (ahead_of (xs ++ ys) e) _ (λ i lt. first_or-append i xs ys (e i)) s.0, left),
        right,
      )

  -- A write at another address leaves a node, or a whole segment, as it is.
  pub store-Holds :
      (h : Heap K V) (p : Ptr) (c : Option (Node K V)) {t : Tower K V} {a : ℕ → Option Ptr}
      → t.at ≢ p
      → Holds h t a
      → Holds (store h p c) t a
  unfolding store
  store-Holds h p c ne n = record {
    node = n.node;
    stored = ground (arith, n.stored);
    key = n.key;
    value = n.value;
    level = n.level;
    next = n.next;
  }

  pub store-Segment :
      (h : Heap K V) (p : Ptr) (c : Option (Node K V)) (ts : List (Tower K V)) (e : ℕ → Option Ptr)
      → Avoids p ts
      → Segment h ts e
      → Segment (store h p c) ts e
  store-Segment h p c [] e away s = tt
  store-Segment h p c (t ∷ ts) e away s =
      (store-Holds h p c away.0 s.0, store-Segment h p c ts e away.1 s.1)
