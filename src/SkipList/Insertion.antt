-- ===== src/SkipList/Insertion.antt =====
-- bitdb/ds/skiplist.h: Insert of a key that is not there.
use bitdb.Base.{
  ℕ, zero, suc, ◌+◌, ◌-◌, ◌<◌, ◌≤◌, ◌≡◌, refl, sym, ap, ◌∙◌, Option, none, some, List, [], ◌∷◌,
  ◌++◌, ltb, if◌then◌else◌, arith, All, All-parts, All-map, Bool-cases, inl, inr, length,
  length-append,
}
use mathlib.Core.Path.{subst}
use bitdb.Base.Pairwise.{All-insert, Pairwise-insert}
use bitdb.SkipList.{
  Ptr, Heap, SkipList, Order, Prevs, max_level, store, new_node, link, link_head, random_level_loop,
}
use bitdb.SkipList.Keyed.{insert_node}
use bitdb.SkipList.Segment.{Tower, last_or, nothing, ahead_of, Avoids, store-Holds, store-Segment}
use bitdb.SkipList.Keys.{Below, Above, lookup, lookup-insert}
use bitdb.SkipList.Valid.{IsValid, IsValid-Cut}
use bitdb.SkipList.Parts.{Parts, Apart, Parts-cong, Parts-Segment}
use bitdb.SkipList.Linking.{up_to, between, link_lem, link_head_lem, first_or-short}

-- RandomLevel gives a level from 1 to the maximum, whatever is drawn.
pub random_level_loop_bounds :
    (rounds level : ℕ) (draws : ℕ → ℕ)
    → (level ≤ (random_level_loop rounds level draws).0)
      × ((random_level_loop rounds level draws).0 ≤ level + rounds)
unfolding random_level_loop
random_level_loop_bounds zero level draws = omega arith
random_level_loop_bounds (suc rounds) level draws =
    ground (arith, random_level_loop_bounds rounds (suc level) (λ i. draws (suc i)))

abbrev least : ℕ → ℕ → ℕ
least a b = if ltb a b then a else b

abbrev greatest : ℕ → ℕ → ℕ
greatest a b = if ltb b a then a else b

greatest_bounds : (a b : ℕ) → (a ≤ greatest a b) × (b ≤ greatest a b)
greatest_bounds a b = (ground arith, ground arith)

length_more :
    {A : Type 0} (xs ys : List A) (x : A) → length (xs ++ (x ∷ ys)) ≡ suc (length (xs ++ ys))
length_more xs ys x = omega (arith, length-append xs (x ∷ ys), length-append xs ys)

-- The pointers of each level behind both loops.
low_ends :
    (n l : ℕ) (p : Ptr) (e : ℕ → Option Ptr) (i : ℕ)
    → between n (n + (l - n)) (some p) (up_to (least l n) (λ j. some p) e) i
      ≡ (if ltb i l then some p else e i)
low_ends n l p e i = ground arith

module _ {K V : Type 0} (o : Order K) where
  own_ends :
      (n l : ℕ) (high : List (Tower K V))
      → All (λ (t : Tower K V). (0 < t.level) × (t.level ≤ n)) high
      → (i : ℕ) → i < l
      → up_to (least l n) (ahead_of high nothing) nothing i ≡ ahead_of high nothing i
  own_ends n l high short i lt = elim (Bool-cases (ltb i (least l n))) [
    | inl inside ↦ rw inside refl
    | inr outside ↦ rw outside (sym (first_or-short n i high none short (ground arith)))
  ]

  -- Towers in a valid list lie at other addresses than the next one to be handed out.
  young-Avoids :
      (n : ℕ) (ts : List (Tower K V)) → All (λ (t : Tower K V). t.at < n) ts → Avoids n ts
  young-Avoids n [] young = tt
  young-Avoids n (t ∷ ts) young = (λ same. omega (arith, young.0), young-Avoids n ts young.1)

  abbrev tower : SkipList K V → K → V → ℕ → Tower K V
  tower s k v level = record { at = s.fresh; key = k; value = v; level = level }

  -- Behind NewNode
  Parts-of_new :
      (s : SkipList K V) (low high : List (Tower K V)) (k : K) (x : V) (level : ℕ)
      → (v : IsValid o s (low ++ high)) → Below o k low
      → Parts v.root low
          (tower s k x level)
          high
          (store s.heap s.fresh (some (new_node level k x)))
          (ahead_of high nothing)
          nothing
  unfolding store
  Parts-of_new s low high k x level v b =
      let c = IsValid-Cut o s low high v in
      let n = some (new_node level k x) in
      let (away_low, away_high) =
        All-parts _ low high (young-Avoids s.fresh (low ++ high) v.young.1) in
      record {
        head = store-Holds s.heap s.fresh n (λ same. omega (arith, v.young.0)) c.head;
        front = store-Segment s.heap s.fresh n low _ away_low c.front;
        middle = record {
          node = new_node level k x;
          stored = ground arith;
          key = refl;
          value = refl;
          level = refl;
          next = λ i lt. refl;
        };
        back = store-Segment s.heap s.fresh n high nothing away_high c.back;
      }

  Apart_of_new :
      (s : SkipList K V) (low high : List (Tower K V)) (k : K) (x : V) (level : ℕ)
      → (v : IsValid o s (low ++ high)) → Apart v.root low (tower s k x level) high
  Apart_of_new s low high k x level v =
      let away = young-Avoids s.fresh (v.root ∷ (low ++ high)) v.young in
      let (before, behind) = All-parts _ (v.root ∷ low) high away in
      record {
        distinct =
            Pairwise-insert _ (v.root ∷ low) high (tower s k x level) v.distinct
              (All-map (v.root ∷ low) (λ t ne same. ne (sym same)) before) behind;
        tall = v.root_level;
      }

  built :
      (s : SkipList K V) (low high : List (Tower K V)) (k : K) (x : V) (level : ℕ) (prevs : Prevs)
      → 0 < level
      → level ≤ max_level
      → (v : IsValid o s (low ++ high)) → Below o k low
      → ((j : ℕ) → j < s.level → prevs j ≡ some (last_or j v.root.at low))
      → (h : Heap K V) × (g : Heap K V) × (link
            (least level s.level)
            s.fresh
            prevs
            (store s.heap s.fresh (some (new_node level k x)))
          ≡ some h)
        × (link_head (level - s.level) s.level s.head s.fresh h ≡ some g)
        × Parts v.root low
            (tower s k x level)
            high
            g
            (ahead_of (tower s k x level ∷ high) nothing)
            (ahead_of high nothing)
  built s low high k x level prevs pos small v b filled =
      let m = tower s k x level in
      let h0 = store s.heap s.fresh (some (new_node level k x)) in
      let apart = Apart_of_new s low high k x level v in
      let (short_low, short_high) = All-parts _ low high v.levels in
      let e = ahead_of high nothing in
      let p = Parts-of_new s low high k x level v b in
      let bound : (least level s.level ≤ level) × (least level s.level ≤ s.level) =
        (ground arith, ground arith) in
      let r =
        link_lem v.root low m high (least level s.level) prevs h0 e nothing (omega (arith, bound.0))
          bound.0 (λ j lt. filled j (omega (arith, bound.1))) apart p in
      let q =
        link_head_lem v.root low m high (level - s.level) s.level r.heap
          (up_to (least level s.level) (λ j. some m.at) e) _ (omega (arith, v.level_max)) short_low
          apart r.parts in
      (
        r.heap,
        q.heap,
        r.run,
        subst (λ (a : Ptr). link_head (level - s.level) s.level a s.fresh r.heap ≡ some q.heap)
            v.root_at q.run,
        Parts-cong v.root low m high q.heap _ _ _ _ (low_ends s.level level s.fresh e)
            (λ i lt. own_ends s.level level high short_high i lt) q.parts,
      )

  -- A list behind an operation that adds or takes away a tower.
  pub record Inserted (s : SkipList K V) (ts : List (Tower K V)) (k : K) (x : V)
      (result : Option (SkipList K V)) : Type 0 where
    pub list : SkipList K V
    pub towers : List (Tower K V)
    pub run : result ≡ some list
    pub valid : IsValid o list towers
    pub answers : (j : K) → lookup o j towers ≡ (if o.eq k j then some x else lookup o j ts)

  pub insert_node-Inserted :
      (s : SkipList K V) (low high : List (Tower K V)) (k : K) (x : V) (level : ℕ) (rander : ℕ → ℕ)
      (prevs : Prevs)
      → 0 < level
      → level ≤ max_level
      → (v : IsValid o s (low ++ high)) → Below o k low
      → Above o k high
      → ((j : ℕ) → j < s.level → prevs j ≡ some (last_or j v.root.at low))
      → Inserted s (low ++ high) k x (insert_node s k x prevs (level, rander))
  unfolding insert_node
  insert_node-Inserted s low high k x level rander prevs pos small v b above filled =
      let m = tower s k x level in
      let (h, g, first, second, parts) = built s low high k x level prevs pos small v b filled in
      let apart = Apart_of_new s low high k x level v in
      let top = greatest_bounds level s.level in
      record {
        list = record s {
          heap = g;
          level = greatest level s.level;
          size = suc s.size;
          fresh = suc s.fresh;
          rander = rander;
        };
        towers = low ++ (m ∷ high);
        run = rw first (rw second refl);
        valid = record {
          root = v.root;
          root_at = v.root_at;
          root_level = v.root_level;
          segment = Parts-Segment v.root low m high g parts;
          distinct = apart.distinct;
          young =
              All-insert _ (v.root ∷ low) high m
                (All-map (v.root ∷ (low ++ high)) (λ t lt. omega (arith, lt)) v.young)
                (omega arith);
          levels =
              All-insert _ low high m
                (All-map (low ++ high) (λ t r. (r.0, omega (arith, r.1, top.1))) v.levels)
                (pos, top.0);
          level_pos = omega (arith, pos, top.0);
          level_max = ground (arith, v.level_max, small);
          sorted = Pairwise-insert _ low high m v.sorted b above;
          size = ap suc v.size ∙ sym (length_more low high m);
          counted = omega (arith, v.counted, length_more low high m);
        };
        answers = λ j. lookup-insert o j low high m b;
      }
