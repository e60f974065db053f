-- ===== src/SkipList/Remove.antt =====
-- bitdb/ds/skiplist.h: Remove.
use bitdb.Base.{
  ℕ, ◌<◌, ◌≤◌, ◌≡◌, refl, sym, ap, ◌∙◌, Option, none, some, List, [], ◌∷◌, ◌++◌, if◌then◌else◌,
  arith, All-parts, Bool-cases, inl, inr,
}
use mathlib.Core.Path.{subst}
use bitdb.SkipList.{Ptr, SkipList, Order, Prevs, next_at, ended, search_with}
use bitdb.SkipList.Keyed.{prev_test, find_prev_nodes, find_remove_point, remove_node, remove}
use bitdb.SkipList.Segment.{Tower, first_or, last_or, nothing, ahead_of, Holds}
use bitdb.SkipList.Relink.{next_at-Holds, last_or-LastOn}
use bitdb.SkipList.Keys.{
  Below, Above, Rest, present, absent, before, from, lookup, lookup-Below, lt-not_eq_back, eq_refl,
  lookup-Above, before-Below, from-Rest, before-append-from, Below-Passes-prev, Rest-Breaks-prev,
}
use bitdb.SkipList.Valid.{IsValid, IsValid-Cut, search_with-Missed}
use bitdb.SkipList.Unlinking.{Removed, remove_node-Removed}

module _ {K V : Type 0} (o : Order K) where
  -- The first node behind the towers below the key.
  first_behind :
      (s : SkipList K V) (low high : List (Tower K V)) (k : K)
      → (v : IsValid o s (low ++ high)) → Below o k low
      → next_at s.heap (last_or 0 v.root.at low) 0 ≡ some (first_or 0 high none)
  first_behind s low high k v b =
      let c = IsValid-Cut o s low high v in
      let l =
        last_or-LastOn s.heap 0 v.root low (ahead_of low (ahead_of high nothing))
          (ahead_of high nothing) (omega (arith, v.root_level)) c.head refl c.front in
      subst (λ (r : Ptr). next_at s.heap r 0 ≡ some (first_or 0 high none)) l.at
        (next_at-Holds s.heap l.tower l.ahead 0 l.reaches l.holds ∙ ap some l.leads)

  pub find_prev_nodes_lem :
      (s : SkipList K V) (k : K) (p : Ptr) (prevs : Prevs)
      → search_with (prev_test o k) s.level s ≡ some (ended p prevs)
      → find_prev_nodes o s k ≡ some prevs
  unfolding find_prev_nodes
  find_prev_nodes_lem s k p prevs run = ground (arith, run)

  find_remove_point_null :
      (s : SkipList K V) (k : K) (prevs : Prevs) (p : Ptr)
      → find_prev_nodes o s k ≡ some prevs
      → prevs 0 ≡ some p
      → next_at s.heap p 0 ≡ some none
      → find_remove_point o s k ≡ some none
  unfolding find_remove_point
  find_remove_point_null s k prevs p run here next = ground (arith, run, here, next)

  find_remove_point_node :
      (s : SkipList K V) (k : K) (prevs : Prevs) (p : Ptr) (u : Tower K V) (a : ℕ → Option Ptr)
      → find_prev_nodes o s k ≡ some prevs
      → prevs 0 ≡ some p
      → next_at s.heap p 0 ≡ some (some u.at)
      → Holds s.heap u a
      → find_remove_point o s k ≡ some (if o.eq u.key k then some (u.at, prevs) else none)
  unfolding find_remove_point
  find_remove_point_node s k prevs p u a run here next n =
      ground (arith, run, here, next, n.stored, n.key)

  remove_point :
      (s : SkipList K V) (k : K) (p : Ptr) (prevs : Prevs)
      → find_remove_point o s k ≡ some (some (p, prevs))
      → remove o s k ≡ remove_node s p prevs
  unfolding remove
  remove_point s k p prevs run = ground (arith, run)

  remove_no_point :
      (s : SkipList K V) (k : K)
      → find_remove_point o s k ≡ some none
      → remove o s k ≡ some (s, none)
  unfolding remove
  remove_no_point s k run = ground (arith, run)

  -- Remove of a key that is not there
  remove_absent :
      (s : SkipList K V) (low us : List (Tower K V)) (k : K)
      → (v : IsValid o s (low ++ us)) → Below o k low
      → Above o k us
      → remove o s k ≡ some (s, none)
  remove_absent s low [] k v b above =
      let m =
        search_with-Missed o s low [] (prev_test o k) s.level v v.level_pos v.level_max
          (Below-Passes-prev o k low b) tt in
      remove_no_point s k (
        find_remove_point_null s k m.vector _ (find_prev_nodes_lem s k m.prev m.vector m.run)
          (m.filled 0 v.level_pos) (first_behind s low [] k v b))
  remove_absent s low (w ∷ us) k v b above =
      let m =
        search_with-Missed o s low (w ∷ us) (prev_test o k) s.level v v.level_pos v.level_max
          (Below-Passes-prev o k low b) (Rest-Breaks-prev o k (w ∷ us) (absent (w ∷ us) above)) in
      let c = IsValid-Cut o s low (w ∷ us) v in
      let reach : (0 < w.level) × (w.level ≤ s.level) = (All-parts _ low (w ∷ us) v.levels).1.0 in
      let point =
        find_remove_point_node s k m.vector _ w _ (find_prev_nodes_lem s k m.prev m.vector m.run)
          (m.filled 0 v.level_pos) (first_behind s low (w ∷ us) k v b ∙ ground (arith, reach.0))
          c.back.0 in
      remove_no_point s k (rw (lt-not_eq_back o k w.key above.0) at point)

  -- Remove of a key that is there
  remove_there :
      (s : SkipList K V) (low us : List (Tower K V)) (u : Tower K V)
      → (v : IsValid o s (low ++ (u ∷ us))) → Below o u.key low
      → Above o u.key us
      → Removed o s (low ++ (u ∷ us)) u.key (remove o s u.key)
  remove_there s low us u v b above =
      let k = u.key in
      let m =
        search_with-Missed o s low (u ∷ us) (prev_test o k) s.level v v.level_pos v.level_max
          (Below-Passes-prev o k low b) (Rest-Breaks-prev o k (u ∷ us) (present u us refl above)) in
      let c = IsValid-Cut o s low (u ∷ us) v in
      let reach : (0 < u.level) × (u.level ≤ s.level) = (All-parts _ low (u ∷ us) v.levels).1.0 in
      let point =
        find_remove_point_node s k m.vector _ u _ (find_prev_nodes_lem s k m.prev m.vector m.run)
          (m.filled 0 v.level_pos) (first_behind s low (u ∷ us) k v b ∙ ground (arith, reach.0))
          c.back.0 in
      let r = remove_node-Removed o s low us u m.vector v b above m.filled in
      record {
        list = r.list;
        towers = r.towers;
        run = remove_point s k u.at m.vector (rw (eq_refl o k) at point) ∙ r.run;
        valid = r.valid;
        answers = r.answers;
      }

  remove_split :
      (s : SkipList K V) (low high : List (Tower K V)) (k : K)
      → IsValid o s (low ++ high)
      → Below o k low
      → Rest o k high
      → Removed o s (low ++ high) k (remove o s k)
  remove_split s low _ k v b (absent us above) =
      let missing : lookup o k (low ++ us) ≡ none =
        lookup-Below o k low us b ∙ lookup-Above o k us above in
      record {
        list = s;
        towers = low ++ us;
        run = rw missing (remove_absent s low us k v b above);
        valid = v;
        answers = λ j. elim (Bool-cases (o.eq k j)) [
          | inl same ↦
              rw same
                (subst (λ (x : K). lookup o x (low ++ us) ≡ none) ((o.eq_iff k j).0 same) missing)
          | inr other ↦ rw other refl
        ];
      }
  remove_split s low _ k v b (present u us e above) =
      subst (λ (x : K). Removed o s (low ++ (u ∷ us)) x (remove o s x)) e
        (remove_there s low us u v (subst (λ (y : K). Below o y low) (sym e) b)
          (subst (λ (y : K). Above o y us) (sym e) above))

  -- Remove of a valid list is defined, hands out what the list held for the key and leaves a valid
  -- list that holds nothing for the key, and for any other key what it held.
  pub remove-Removed :
      (s : SkipList K V) (ts : List (Tower K V)) (k : K)
      → IsValid o s ts
      → Removed o s ts k (remove o s k)
  remove-Removed s ts k v =
      let cut = before-append-from o k ts in
      subst (λ (y : List (Tower K V)). Removed o s y k (remove o s k)) cut
        (remove_split s (before o k ts) (from o k ts) k
          (subst (λ (y : List (Tower K V)). IsValid o s y) (sym cut) v) (before-Below o k ts)
          (from-Rest o k ts v.sorted))
