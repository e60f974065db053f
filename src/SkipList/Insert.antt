-- ===== src/SkipList/Insert.antt =====
-- bitdb/ds/skiplist.h: Insert, which writes the value of a key that is there and else adds a node.
use bitdb.Base.{
  ℕ, ◌≡◌, refl, sym, ◌∙◌, Option, some, List, ◌∷◌, ◌++◌, arith, All-parts, All-map, length,
  length-append,
}
use mathlib.Core.Path.{subst}
use bitdb.Base.Pairwise.{All-insert, All-remove, Pairwise-insert, Pairwise-remove, Pairwise-middle}
use bitdb.SkipList.{Ptr, Node, SkipList, Order, store, random_level_loop, found, ended, search_with}
use bitdb.SkipList.Keyed.{find_test, insert_node, insert}
use bitdb.SkipList.Segment.{
  Tower, nothing, ahead_of, Holds, Segment, Avoids, store-Holds, store-Segment,
}
use bitdb.SkipList.Keys.{
  Below, Above, Rest, present, absent, before, from, lookup-insert, before-Below, from-Rest,
  before-append-from, Below-Passes-find, Above-Breaks-find,
}
use bitdb.SkipList.Valid.{IsValid, search_with-Missed, search_with-found}
use bitdb.SkipList.Parts.{Segment-Parts, Parts-Segment}
use bitdb.SkipList.Insertion.{random_level_loop_bounds, Inserted, insert_node-Inserted}

module _ {K V : Type 0} (o : Order K) where
  abbrev revalued : Tower K V → V → Tower K V
  revalued u x = record u { value = x }

  abbrev rewritten : (s : SkipList K V) → Ptr → Node K V → V → SkipList K V
  rewritten s p n x = record s { heap = store s.heap p (some (record n { value = x })) }

  -- The tower at a place of a valid list, and the addresses around it.
  around :
      (s : SkipList K V) (low us : List (Tower K V)) (u : Tower K V)
      → (v : IsValid o s (low ++ (u ∷ us))) → Avoids u.at (v.root ∷ low) × Avoids u.at us
  around s low us u v =
      let (before_it, behind) = Pairwise-middle _ (v.root ∷ low) us u v.distinct in
      (All-map (v.root ∷ low) (λ t ne same. ne (sym same)) before_it, behind)

  rewritten-Segment :
      (s : SkipList K V) (low us : List (Tower K V)) (u : Tower K V) (x : V)
      → (v : IsValid o s (low ++ (u ∷ us))) → (n : Holds s.heap u (ahead_of us nothing))
      → Segment (rewritten s u.at n.node x).heap (v.root ∷ (low ++ (revalued u x ∷ us))) nothing
  unfolding store
  rewritten-Segment s low us u x v n =
      let p = Segment-Parts v.root low u us s.heap v.segment in
      let c = some (record n.node { value = x }) in
      let (away_front, away_back) = around s low us u v in
      Parts-Segment v.root low (revalued u x) us _ (record {
        head = store-Holds s.heap u.at c away_front.0 p.head;
        front = store-Segment s.heap u.at c low _ away_front.1 p.front;
        middle = record {
          node = record n.node { value = x };
          stored = ground arith;
          key = n.key;
          value = refl;
          level = n.level;
          next = n.next;
        };
        back = store-Segment s.heap u.at c us nothing away_back p.back;
      })

  rewritten-IsValid :
      (s : SkipList K V) (low us : List (Tower K V)) (u : Tower K V) (x : V)
      → (v : IsValid o s (low ++ (u ∷ us))) → (n : Holds s.heap u (ahead_of us nothing))
      → IsValid o (rewritten s u.at n.node x) (low ++ (revalued u x ∷ us))
  rewritten-IsValid s low us u x v n =
      let w = revalued u x in
      let (before_it, behind) = Pairwise-middle _ (v.root ∷ low) us u v.distinct in
      let (smaller, larger) = Pairwise-middle _ low us u v.sorted in
      let same : length (low ++ (w ∷ us)) ≡ length (low ++ (u ∷ us)) =
        omega (arith, length-append low (w ∷ us), length-append low (u ∷ us)) in
      record {
        root = v.root;
        root_at = v.root_at;
        root_level = v.root_level;
        segment = rewritten-Segment s low us u x v n;
        distinct =
            Pairwise-insert _ (v.root ∷ low) us w (Pairwise-remove _ (v.root ∷ low) us u v.distinct)
              before_it behind;
        young =
            All-insert _ (v.root ∷ low) us w (All-remove _ (v.root ∷ low) us u v.young)
              (All-parts _ (v.root ∷ low) (u ∷ us) v.young).1.0;
        levels =
            All-insert _ low us w (All-remove _ low us u v.levels)
              (All-parts _ low (u ∷ us) v.levels).1.0;
        level_pos = v.level_pos;
        level_max = v.level_max;
        sorted = Pairwise-insert _ low us w (Pairwise-remove _ low us u v.sorted) smaller larger;
        size = v.size ∙ sym same;
        counted = omega (arith, v.counted, same);
      }

  insert_present :
      (s : SkipList K V) (k : K) (x : V) (u : Tower K V) (a : ℕ → Option Ptr)
      → search_with (find_test o k) s.level s ≡ some (found u.at)
      → (n : Holds s.heap u a) → insert o s k x ≡ some (rewritten s u.at n.node x)
  unfolding insert
  insert_present s k x u a run n = ground (arith, run, n.stored)

  insert_absent :
      (s : SkipList K V) (k : K) (x : V) (p : Ptr) (prevs : ℕ → Option Ptr)
      → search_with (find_test o k) s.level s ≡ some (ended p prevs)
      → insert o s k x ≡ insert_node s k x prevs (random_level_loop 39 1 s.rander)
  unfolding insert
  insert_absent s k x p prevs run = ground (arith, run)

  insert_split :
      (s : SkipList K V) (low high : List (Tower K V)) (k : K) (x : V)
      → IsValid o s (low ++ high)
      → Below o k low
      → Rest o k high
      → Inserted o s (low ++ high) k x (insert o s k x)
  insert_split s low _ k x v b (absent us above) =
      let m =
        search_with-Missed o s low us (find_test o k) s.level v v.level_pos v.level_max
          (Below-Passes-find o k low b) (Above-Breaks-find o k us above) in
      let bounds = random_level_loop_bounds 39 1 s.rander in
      let (level, rander) = random_level_loop 39 1 s.rander in
      let r =
        insert_node-Inserted o s low us k x level rander m.vector (omega (arith, bounds.0))
          (omega (arith, bounds.1)) v b above m.filled in
      record {
        list = r.list;
        towers = r.towers;
        run = insert_absent s k x m.prev m.vector m.run ∙ r.run;
        valid = r.valid;
        answers = r.answers;
      }
  insert_split s low _ k x v b (present u us e above) =
      let b' = subst (λ (y : K). Below o y low) (sym e) b in
      let above' = subst (λ (y : K). Above o y us) (sym e) above in
      let p = Segment-Parts v.root low u us s.heap v.segment in
      let found_it = search_with-found o s low us u s.level v v.level_pos v.level_max b' above' in
      record {
        list = rewritten s u.at p.middle.node x;
        towers = low ++ (revalued u x ∷ us);
        run =
            insert_present s k x u _
              (subst (λ (y : K). search_with (find_test o y) s.level s ≡ some (found u.at)) e
                found_it)
              p.middle;
        valid = rewritten-IsValid s low us u x v p.middle;
        answers = λ j.
            ground
              (arith, lookup-insert o j low us (revalued u x) b', lookup-insert o j low us u b', e);
      }

  -- Insert of a valid list is defined and leaves a valid list that holds the value for the key, and
  -- for any other key what it held.
  pub insert-Inserted :
      (s : SkipList K V) (ts : List (Tower K V)) (k : K) (x : V)
      → IsValid o s ts
      → Inserted o s ts k x (insert o s k x)
  insert-Inserted s ts k x v =
      let cut = before-append-from o k ts in
      subst (λ (y : List (Tower K V)). Inserted o s y k x (insert o s k x)) cut
        (insert_split s (before o k ts) (from o k ts) k x
          (subst (λ (y : List (Tower K V)). IsValid o s y) (sym cut) v) (before-Below o k ts)
          (from-Rest o k ts v.sorted))
