-- ===== src/SkipList/Unlinking.antt =====
-- bitdb/ds/skiplist.h: Remove of a node that the search has found.
use bitdb.Base.{
  ℕ, zero, suc, ◌-◌, ◌<◌, ◌≤◌, ◌≡◌, refl, sym, ap, ◌∙◌, Option, none, some, List, [], ◌∷◌, ◌++◌,
  ltb, if◌then◌else◌, arith, All, All-parts, All-map, Option-cases, Bool-cases, inl, inr, length,
  length-append,
}
use mathlib.Core.Path.{subst}
use bitdb.Base.Pairwise.{All-remove, Pairwise-remove, Pairwise-middle}
use bitdb.SkipList.{Ptr, Heap, SkipList, Order, Prevs, store, unlink, drop_levels}
use bitdb.SkipList.Keyed.{remove_node}
use bitdb.SkipList.Segment.{
  Tower, first_or, last_or, nothing, ahead_of, Holds, Segment, store-Segment, Segment-append,
}
use bitdb.SkipList.Relink.{next_at-Holds}
use bitdb.SkipList.Keys.{Below, Above, lookup, lookup-Below, lookup_here, lookup-remove}
use bitdb.SkipList.Valid.{IsValid}
use bitdb.SkipList.Parts.{Parts-cong, Segment-Parts}
use bitdb.SkipList.Linking.{unlink_lem}

module _ {K V : Type 0} where
  -- What is left of the levels behind the last loop of Remove.
  pub record Dropped (head : Ptr) (h : Heap K V) (n : ℕ) (ts : List (Tower K V)) : Type 0 where
    pub level : ℕ
    pub run : drop_levels n head h ≡ some level
    pub pos : 0 < level
    pub small : level ≤ suc n
    pub levels : All (λ (t : Tower K V). (0 < t.level) × (t.level ≤ level)) ts

  first_or-null :
      (j : ℕ) (ts : List (Tower K V))
      → first_or j ts none ≡ none
      → All (λ (t : Tower K V). 0 < t.level) ts
      → All (λ (t : Tower K V). (0 < t.level) × (t.level ≤ j)) ts
  first_or-null j [] e pos = tt
  first_or-null j (t ∷ ts) e pos = elim (Bool-cases (ltb j t.level)) [
    | inl up ↦ absurd (cc (rw up at e))
    | inr low ↦ ((pos.0, ground arith), first_or-null j ts (rw low at e) pos.1)
  ]

  drop_levels-Dropped :
      (n : ℕ) (t : Tower K V) (h : Heap K V) (ts : List (Tower K V))
      → n < t.level
      → Holds h t (ahead_of ts nothing)
      → All (λ (u : Tower K V). (0 < u.level) × (u.level ≤ suc n)) ts
      → Dropped t.at h n ts
  unfolding drop_levels
  drop_levels-Dropped zero t h ts le m levels = record {
    level = 1;
    run = refl;
    pos = omega arith;
    small = omega arith;
    levels = levels;
  }
  drop_levels-Dropped (suc n) t h ts le m levels =
      let leads = next_at-Holds h t (ahead_of ts nothing) (suc n) le m in
      elim (Option-cases (first_or (suc n) ts none)) [
        | inl gone ↦
            let r =
              drop_levels-Dropped n t h ts (omega arith) m
                (first_or-null (suc n) ts gone (All-map ts (λ u r. r.0) levels)) in
            record {
              level = r.level;
              run = ground (arith, leads, gone, r.run);
              pos = r.pos;
              small = omega (arith, r.small);
              levels = r.levels;
            }
        | inr (p, here) ↦ record {
          level = suc (suc n);
          run = ground (arith, leads, here);
          pos = omega arith;
          small = omega arith;
          levels = levels;
        }
      ]

  remove_node_run :
      (s : SkipList K V) (u : Tower K V) (a : ℕ → Option Ptr) (prevs : Prevs)
      → (n : Holds s.heap u a) → (h : Heap K V) (level : ℕ)
      → unlink u.level u.at prevs s.heap ≡ some h
      → drop_levels (s.level - 1) s.head (store h u.at none) ≡ some level
      → remove_node s u.at prevs
        ≡ some
            (record s { heap = store h u.at none; level = level; size = s.size - 1 }, some u.value)
  unfolding remove_node
  remove_node_run s u a prevs n h level run dropped =
      rw n.stored (rw n.level (rw run (rw dropped (rw n.value refl))))

module _ {K V : Type 0} (o : Order K) where
  -- A list behind the removal, with the value that was there.
  pub record Removed (s : SkipList K V) (ts : List (Tower K V)) (k : K)
      (result : Option (SkipList K V × Option V)) : Type 0 where
    pub list : SkipList K V
    pub towers : List (Tower K V)
    pub run : result ≡ some (list, lookup o k ts)
    pub valid : IsValid o list towers
    pub answers : (j : K) → lookup o j towers ≡ (if o.eq k j then none else lookup o j ts)

  unlinked :
      (s : SkipList K V) (low us : List (Tower K V)) (u : Tower K V) (prevs : Prevs)
      → (v : IsValid o s (low ++ (u ∷ us)))
      → ((j : ℕ) → j < s.level → prevs j ≡ some (last_or j v.root.at low))
      → (h : Heap K V) × (unlink u.level u.at prevs s.heap ≡ some h)
        × Segment (store h u.at none) (v.root ∷ (low ++ us)) nothing
  unlinked s low us u prevs v filled =
      let p = Segment-Parts v.root low u us s.heap v.segment in
      let reach : (0 < u.level) × (u.level ≤ s.level) = (All-parts _ low (u ∷ us) v.levels).1.0 in
      let r =
        unlink_lem v.root low u us u.level prevs s.heap _ _ (omega (arith, reach.1, v.level_max))
          (omega arith) (λ j lt. filled j (omega (arith, reach.1)))
          (record { distinct = v.distinct; tall = v.root_level }) p in
      let q =
        Parts-cong v.root low u us r.heap _ (ahead_of us nothing) _ (ahead_of us nothing)
          (λ i. ground arith) (λ i lt. refl) r.parts in
      let (before_it, behind) = Pairwise-middle _ (v.root ∷ low) us u v.distinct in
      let away = All-map (v.root ∷ low) (λ t ne same. ne (sym same)) before_it in
      (
        r.heap,
        r.run,
        Segment-append _ (v.root ∷ low) us nothing
            (store-Segment r.heap u.at none (v.root ∷ low) _ away (q.head, q.front))
            (store-Segment r.heap u.at none us nothing behind q.back),
      )

  pub remove_node-Removed :
      (s : SkipList K V) (low us : List (Tower K V)) (u : Tower K V) (prevs : Prevs)
      → (v : IsValid o s (low ++ (u ∷ us))) → Below o u.key low
      → Above o u.key us
      → ((j : ℕ) → j < s.level → prevs j ≡ some (last_or j v.root.at low))
      → Removed s (low ++ (u ∷ us)) u.key (remove_node s u.at prevs)
  remove_node-Removed s low us u prevs v b above filled =
      let p = Segment-Parts v.root low u us s.heap v.segment in
      let n = p.middle in
      let (h, run, segment) = unlinked s low us u prevs v filled in
      let longer : length (low ++ (u ∷ us)) ≡ suc (length (low ++ us)) =
        omega (arith, length-append low (u ∷ us), length-append low us) in
      let d =
        drop_levels-Dropped (s.level - 1) v.root (store h u.at none) (low ++ us)
          (omega (arith, v.root_level, v.level_max, v.level_pos)) segment.0
          (All-map (low ++ us) (λ t r. (r.0, omega (arith, r.1, v.level_pos)))
            (All-remove _ low us u v.levels)) in
      let dropped =
        subst (λ (a : Ptr). drop_levels (s.level - 1) a (store h u.at none) ≡ some d.level)
          v.root_at d.run in
      record {
        list = record s { heap = store h u.at none; level = d.level; size = s.size - 1 };
        towers = low ++ us;
        run =
            remove_node_run s u _ prevs n h d.level run dropped
            ∙ ap
                (λ (x : Option V).
                  some
                    (record s { heap = store h u.at none; level = d.level; size = s.size - 1 }, x))
                (sym (lookup-Below o u.key low (u ∷ us) b ∙ lookup_here o u us));
        valid = record {
          root = v.root;
          root_at = v.root_at;
          root_level = v.root_level;
          segment = segment;
          distinct = Pairwise-remove _ (v.root ∷ low) us u v.distinct;
          young = All-remove _ (v.root ∷ low) us u v.young;
          levels = d.levels;
          level_pos = d.pos;
          level_max = omega (arith, d.small, v.level_max, v.level_pos);
          sorted = Pairwise-remove _ low us u v.sorted;
          size = omega (arith, v.size, longer);
          counted = omega (arith, v.counted, longer);
        };
        answers = λ j. lookup-remove o j low us u b above;
      }
