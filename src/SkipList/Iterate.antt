-- ===== src/SkipList/Iterate.antt =====
-- bitdb/ds/skiplist.h: an iterator that goes on from a place in a valid list.
use bitdb.Base.{
  ◌<◌, ◌≡◌, refl, ap, true, false, Option, none, some, List, [], ◌∷◌, arith, All, All-map,
}
use mathlib.Core.Path.{subst}
use bitdb.SkipList.{Ptr, SkipList, Order, next_at}
use bitdb.SkipList.Segment.{Tower, first_or, nothing, ahead_of, Segment}
use bitdb.SkipList.Relink.{next_at-Holds}
use bitdb.SkipList.Valid.{IsValid}
use bitdb.SkipList.Iterator.{Iterator, valid, key, value, next, seek_to_first}

module _ {K V : Type 0} where
  -- The iterator at the first of the towers `ts`.
  abbrev pub cursor : SkipList K V → List (Tower K V) → Iterator K V
  cursor s ts = record { list = s; node = first_or 0 ts none }

  abbrev pub IsTall : List (Tower K V) → Type 0
  IsTall ts = All (λ (t : Tower K V). 0 < t.level) ts

  at_first :
      (t : Tower K V) (ts : List (Tower K V)) → 0 < t.level → first_or 0 (t ∷ ts) none ≡ some t.at
  at_first t ts pos = ground arith

  pub valid-end : (s : SkipList K V) → valid (cursor s []) ≡ false
  unfolding valid
  valid-end s = refl

  module _ (s : SkipList K V) (t : Tower K V) (ts : List (Tower K V)) (pos : 0 < t.level)
      (here : Segment s.heap (t ∷ ts) nothing) where
    pub valid-cursor : valid (cursor s (t ∷ ts)) ≡ true
    unfolding valid
    valid-cursor = rw (at_first t ts pos) refl

    pub key-cursor : key (cursor s (t ∷ ts)) ≡ some t.key
    unfolding key
    key-cursor = rw (at_first t ts pos) (rw here.0.stored (ap some here.0.key))

    pub value-cursor : value (cursor s (t ∷ ts)) ≡ some t.value
    unfolding value
    value-cursor = rw (at_first t ts pos) (rw here.0.stored (ap some here.0.value))

    pub next-cursor : next (cursor s (t ∷ ts)) ≡ some (cursor s ts)
    unfolding next
    next-cursor =
        rw (at_first t ts pos) (rw (next_at-Holds s.heap t (ahead_of ts nothing) 0 pos here.0) refl)

module _ {K V : Type 0} (o : Order K) (s : SkipList K V) (ts : List (Tower K V))
    (v : IsValid o s ts) where
  pub all-IsTall : IsTall ts
  all-IsTall = All-map ts (λ t r. r.0) v.levels

  first_pointer : next_at s.heap s.head 0 ≡ some (first_or 0 ts none)
  first_pointer =
      subst (λ (p : Ptr). next_at s.heap p 0 ≡ some (first_or 0 ts none)) v.root_at
        (next_at-Holds s.heap v.root (ahead_of ts nothing) 0 (omega (arith, v.root_level))
          v.segment.0)

  -- SeekToFirst goes to the first tower, from wherever the iterator stands.
  pub seek_to_first-cursor :
      (p : Option Ptr) → seek_to_first (record { list = s; node = p }) ≡ some (cursor s ts)
  unfolding seek_to_first
  seek_to_first-cursor p = rw first_pointer refl
