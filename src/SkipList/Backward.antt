-- ===== src/SkipList/Backward.antt =====
-- bitdb/ds/skiplist.h: Prev and SeekToLast of the iterator.
use bitdb.Base.{
  ℕ, suc, ◌<◌, ◌≤◌, ◌≡◌, refl, sym, ap, ◌∙◌, true, Option, none, some, List, [], ◌∷◌, ◌++◌, ltb,
  ◌==◌, if◌then◌else◌, arith, All, All-parts, All-map, Bool-cases, inl, inr,
}
use mathlib.Core.Path.{subst}
use mathlib.Core.List.{append-nil}
use bitdb.Base.Pairwise.{Pairwise-middle}
use bitdb.SkipList.{
  Heap, Verdict, Ptr, SkipList, Order, Node, max_level, go_on, descend, find_last, search_with,
  ended,
}
use bitdb.SkipList.Keyed.{prev_test, find_prev_nodes}
use bitdb.SkipList.Segment.{Tower, last_or, Holds, Avoids}
use bitdb.SkipList.Relink.{last_or-ne}
use bitdb.SkipList.Descent.{Passes}
use bitdb.SkipList.Keys.{present, Below-Passes-prev, Rest-Breaks-prev}
use bitdb.SkipList.Valid.{IsValid, IsValid-Cut, search_with-Missed}
use bitdb.SkipList.Remove.{find_prev_nodes_lem}
use bitdb.SkipList.Iterator.{Iterator, valid, seek_to_last, prev}

module _ {K V : Type 0} (o : Order K) where
  abbrev pub iterator_at : SkipList K V → Option Ptr → Iterator K V
  iterator_at s p = record { list = s; node = p }

  prev_run :
      (s : SkipList K V) (u : Tower K V) (a : ℕ → Option Ptr) (prevs : ℕ → Option Ptr)
      → Holds s.heap u a
      → find_prev_nodes o s u.key ≡ some prevs
      → prev o (iterator_at s (some u.at)) ≡ some (iterator_at s (prevs 0))
  unfolding prev
  prev_run s u a prevs n run = ground (arith, n.stored, n.key, run)

  prev_last :
      (s : SkipList K V) (low us : List (Tower K V)) (u : Tower K V)
      → (v : IsValid o s (low ++ (u ∷ us)))
      → prev o (iterator_at s (some u.at)) ≡ some (iterator_at s (some (last_or 0 s.head low)))
  prev_last s low us u v =
      let (below, above) = Pairwise-middle _ low us u v.sorted in
      let m =
        search_with-Missed o s low (u ∷ us) (prev_test o u.key) s.level v v.level_pos v.level_max
          (Below-Passes-prev o u.key low below)
          (Rest-Breaks-prev o u.key (u ∷ us) (present u us refl above)) in
      let c = IsValid-Cut o s low (u ∷ us) v in
      prev_run s u _ m.vector c.back.0 (find_prev_nodes_lem o s u.key m.prev m.vector m.run)
      ∙ ap (λ (p : Option Ptr). some (iterator_at s p))
          (m.filled 0 v.level_pos ∙ ap (λ (p : Ptr). some (last_or 0 p low)) v.root_at)

  last_or-snoc :
      (p : Ptr) (low : List (Tower K V)) (w : Tower K V)
      → 0 < w.level
      → last_or 0 p (low ++ (w ∷ [])) ≡ w.at
  last_or-snoc p [] w pos = ground arith
  last_or-snoc p (t ∷ low) w pos = last_or-snoc (if ltb 0 t.level then t.at else p) low w pos

  -- Prev goes from a tower to the one before it. From the first tower it goes to the head node, and
  -- the iterator is still valid.
  pub prev_steps :
      (s : SkipList K V) (low us : List (Tower K V)) (w u : Tower K V)
      → IsValid o s ((low ++ (w ∷ [])) ++ (u ∷ us))
      → (t : Tower K V) (ts : List (Tower K V)) → (low ++ (w ∷ [])) ++ (u ∷ us) ≡ t ∷ ts
      → (prev o (iterator_at s (some u.at)) ≡ some (iterator_at s (some w.at)))
        × (prev o (iterator_at s (some t.at)) ≡ some (iterator_at s (some s.head)))
        × (valid (iterator_at s (some s.head)) ≡ true)
  unfolding valid
  prev_steps s low us w u v t ts first =
      let pos =
        (All-parts _ low (w ∷ []) (All-parts _ (low ++ (w ∷ [])) (u ∷ us) v.levels).0).1.0.0 in
      (
        prev_last s (low ++ (w ∷ [])) us u v
            ∙ ap (λ (p : Ptr). some (iterator_at s (some p))) (last_or-snoc s.head low w pos),
        prev_last s [] ts t (subst (λ (x : List (Tower K V)). IsValid o s x) first v),
        refl,
      )

  -- The address of the last tower.
  abbrev pub last_pointer : List (Tower K V) → Option Ptr
  last_pointer [] = none
  last_pointer (t ∷ ts) = some (last_or 0 t.at ts)

  Passes-all : (ts : List (Tower K V)) → Passes (λ n. go_on) ts
  Passes-all [] = tt
  Passes-all (t ∷ ts) = (λ n same. refl, Passes-all ts)

  find_last_run :
      (s : SkipList K V) (p : Ptr) (prevs : ℕ → Option Ptr)
      → search_with (λ n. go_on) (suc s.level) s ≡ some (ended p prevs)
      → find_last s ≡ some p
  unfolding find_last
  find_last_run s p prevs run = ground (arith, run)

  skip_level :
      (fuel : ℕ) (h : Heap K V) (test : Node K V → Verdict) (i : ℕ) (r : Tower K V) (p : Ptr)
      (a prevs : ℕ → Option Ptr)
      → r.at ≡ p
      → r.level ≤ i
      → Holds h r a
      → descend fuel h test (suc i) p prevs ≡ descend fuel h test i p prevs
  unfolding descend
  skip_level fuel h test i r p a prevs at le n = ground (arith, ap h at, n.stored, n.level)

  -- At the highest level FindLast starts above the head node, and skips that level.
  skip_top :
      (s : SkipList K V) (r : Tower K V) (a : ℕ → Option Ptr)
      → r.at ≡ s.head
      → r.level ≡ max_level
      → Holds s.heap r a
      → search_with (λ n. go_on) (suc max_level) s ≡ search_with (λ n. go_on) max_level s
  unfolding search_with
  skip_top s r a at tall n =
      skip_level (suc s.fresh) s.heap (λ n. go_on) max_level r s.head a (λ i. none) at
        (omega (arith, tall)) n

  find_last_lem :
      (s : SkipList K V) (ts : List (Tower K V))
      → (v : IsValid o s (ts ++ [])) → find_last s ≡ some (last_or 0 s.head ts)
  find_last_lem s ts v = elim (Bool-cases (s.level == max_level)) [
    | inl top ↦
        let m =
          search_with-Missed o s ts [] (λ n. go_on) max_level v (omega arith) (omega arith)
            (Passes-all ts) tt in
        let same : s.level ≡ max_level = ground arith in
        find_last_run s m.prev m.vector (
          ap (λ (n : ℕ). search_with (λ x. go_on) (suc n) s) same
          ∙ skip_top s v.root _ v.root_at v.root_level v.segment.0
          ∙ m.run)
        ∙ ap some (m.bottom ∙ ap (λ (p : Ptr). last_or 0 p ts) v.root_at)
    | inr lower ↦
        let m =
          search_with-Missed o s ts [] (λ n. go_on) (suc s.level) v (omega arith)
            (ground (arith, v.level_max)) (Passes-all ts) tt in
        find_last_run s m.prev m.vector m.run
        ∙ ap some (m.bottom ∙ ap (λ (p : Ptr). last_or 0 p ts) v.root_at)
  ]

  seek_to_last_run :
      (s : SkipList K V) (p : Option Ptr) (q : Ptr)
      → find_last s ≡ some q
      → seek_to_last (iterator_at s p) ≡ some (iterator_at s (if q == s.head then none else some q))
  unfolding seek_to_last
  seek_to_last_run s p q run = rw run refl

  not_head :
      (s : SkipList K V) (ts : List (Tower K V))
      → IsValid o s ts
      → All (λ (t : Tower K V). 0 < t.level) ts
      → (if last_or 0 s.head ts == s.head then none else some (last_or 0 s.head ts))
        ≡ last_pointer ts
  not_head s [] v tall = ground arith
  not_head s (t ∷ ts) v tall =
      let away = subst (λ (p : Ptr). Avoids p (t ∷ ts)) v.root_at v.distinct.0 in
      let ne = last_or-ne 0 t.at s.head ts away.0 away.1 in
      let up : ltb 0 t.level ≡ true = ground (arith, tall.0) in rw up (ground (arith, ne))

  -- SeekToLast of an iterator over a valid list goes to the last tower, or nowhere if there is none.
  pub seek_to_last_lem :
      (s : SkipList K V) (ts : List (Tower K V)) (p : Option Ptr)
      → IsValid o s ts
      → seek_to_last (iterator_at s p) ≡ some (iterator_at s (last_pointer ts))
  seek_to_last_lem s ts p v =
      seek_to_last_run s p (last_or 0 s.head ts) (
        find_last_lem s ts
          (subst (λ (x : List (Tower K V)). IsValid o s x) (sym (append-nil ts)) v))
      ∙ ap (λ (q : Option Ptr). some (iterator_at s q))
          (not_head s ts v (All-map ts (λ t r. r.0) v.levels))
