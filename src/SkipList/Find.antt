-- ===== src/SkipList/Find.antt =====
-- bitdb/ds/skiplist.h: Find and Has.
use bitdb.Base.{
  ℕ, ◌<◌, ◌≤◌, true, ◌≡◌, refl, sym, ap, ◌∙◌, Option, none, some, List, ◌∷◌, ◌++◌, arith,
}
use mathlib.Core.Path.{subst}
use bitdb.SkipList.{max_level, clear, is_empty, SkipList, Order, found, ended, search_with}
use bitdb.SkipList.Keyed.{find_test, find_node, find}
use bitdb.SkipList.Segment.{Tower, Holds}
use bitdb.SkipList.Keys.{
  before, from, Below, Above, Rest, present, absent, lookup, lookup-Below, lookup-Above,
  lookup_here, before-Below, from-Rest, before-append-from, Below-Passes-find, Above-Breaks-find,
}
use bitdb.SkipList.Valid.{IsValid, IsValid-Cut, search_with-Missed, search_with-found}

module _ {K V : Type 0} (o : Order K) where
  -- The node of a key that is there, and none of one that is not.
  find_node-present :
      (s : SkipList K V) (p : ℕ)
      → (k : K) → search_with (find_test o k) s.level s ≡ some (found p)
      → find_node o s k ≡ some (some p)
  unfolding find_node
  find_node-present s p k run = ground (arith, run)

  find_node-absent :
      (s : SkipList K V) (p : ℕ) (vector : ℕ → Option ℕ)
      → (k : K) → search_with (find_test o k) s.level s ≡ some (ended p vector)
      → find_node o s k ≡ some none
  unfolding find_node
  find_node-absent s p vector k run = ground (arith, run)

  find_of_node :
      (s : SkipList K V) (k : K) (u : Tower K V) (a : ℕ → Option ℕ)
      → find_node o s k ≡ some (some u.at)
      → Holds s.heap u a
      → find o s k ≡ some (some u.value)
  unfolding find
  find_of_node s k u a run n = ground (arith, run, n.stored, n.value)

  find_of_none : (s : SkipList K V) (k : K) → find_node o s k ≡ some none → find o s k ≡ some none
  unfolding find
  find_of_none s k run = ground (arith, run)

  -- A list with the same nodes, whose searches start at another level.
  abbrev from_level : SkipList K V → ℕ → ℕ → SkipList K V
  from_level s n size = record s { level = n; size = size }

  find_split :
      (s : SkipList K V) (low high : List (Tower K V)) (k : K) (n size : ℕ)
      → IsValid o s (low ++ high)
      → 0 < n
      → n ≤ max_level
      → Below o k low
      → Rest o k high
      → find o (from_level s n size) k ≡ some (lookup o k (low ++ high))
  unfolding search_with
  find_split s low _ k n size v pos small b (absent us above) =
      let m =
        search_with-Missed o s low us (find_test o k) n v pos small (Below-Passes-find o k low b)
          (Above-Breaks-find o k us above) in
      find_of_none (from_level s n size) k
        (find_node-absent (from_level s n size) m.prev m.vector k m.run)
      ∙ ap some (sym (lookup-Below o k low us b ∙ lookup-Above o k us above))
  find_split s low _ k n size v pos small b (present u us e above) =
      let b' = subst (λ (x : K). Below o x low) (sym e) b in
      let above' = subst (λ (x : K). Above o x us) (sym e) above in
      let c = IsValid-Cut o s low (u ∷ us) v in
      let l = from_level s n size in
      subst (λ (x : K). find o l x ≡ some (lookup o x (low ++ (u ∷ us)))) e
        (find_of_node l u.key u _
            (find_node-present l u.at u.key
              (search_with-found o s low us u n v pos small b' above'))
            c.back.0
          ∙ ap some (sym (lookup-Below o u.key low (u ∷ us) b' ∙ lookup_here o u us)))

  find_from :
      (s : SkipList K V) (ts : List (Tower K V)) (k : K) (n size : ℕ)
      → IsValid o s ts
      → 0 < n
      → n ≤ max_level
      → find o (from_level s n size) k ≡ some (lookup o k ts)
  find_from s ts k n size v pos small =
      let cut = before-append-from o k ts in
      subst (λ (x : List (Tower K V)). find o (from_level s n size) k ≡ some (lookup o k x)) cut
        (find_split s (before o k ts) (from o k ts) k n size
          (subst (λ (x : List (Tower K V)). IsValid o s x) (sym cut) v) pos small
          (before-Below o k ts) (from-Rest o k ts v.sorted))

  -- Find of a valid list is defined, and answers what the list holds for the key.
  pub find-lookup :
      (s : SkipList K V) (ts : List (Tower K V)) (k : K)
      → IsValid o s ts
      → find o s k ≡ some (lookup o k ts)
  find-lookup s ts k v = find_from s ts k s.level s.size v v.level_pos v.level_max

  -- Clear of a valid list says that the list is empty, and Find answers as before.
  pub clear_keeps_entries :
      (s : SkipList K V) (ts : List (Tower K V)) (k : K)
      → IsValid o s ts
      → (is_empty (clear s) ≡ true) × (find o (clear s) k ≡ some (lookup o k ts))
  unfolding clear is_empty
  clear_keeps_entries s ts k v = (refl, find_from s ts k 1 0 v (omega arith) (omega arith))
