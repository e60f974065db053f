-- ===== src/SkipList/Valid.antt =====
-- bitdb/ds/skiplist.h: the invariant of a skip list, and its searches under it.
use bitdb.Base.{
  ℕ, suc, ◌<◌, ◌≤◌, ◌≡◌, refl, none, some, List, ◌∷◌, ◌++◌, arith, ltb, false, All, All-parts,
  length, length-append,
}
use mathlib.Core.Path.{subst}
use bitdb.SkipList.{
  Ptr, Node, SkipList, Order, Verdict, Prevs, descend, max_level, found, ended, search_with,
}
use bitdb.SkipList.Keyed.{find_test}
use bitdb.SkipList.Segment.{
  Tower, nothing, last_or, Holds, ahead_of, Segment, IsDistinct, Segment-parts, Holds-cong,
  first_or-append,
}
use bitdb.SkipList.Descent.{Passes}
use bitdb.SkipList.Searches.{descend-Ends, descend-found}
use bitdb.SkipList.Keys.{
  IsAscending, Below, Above, Breaks, Breaks-Halts, Below-Passes-find, Above-Breaks-find, eq_refl,
}

-- The head node and, behind it, the towers in ascending order.
pub record IsValid {K V : Type 0} (o : Order K) (s : SkipList K V) (ts : List (Tower K V))
    : Type 0 where
  pub root : Tower K V
  pub root_at : root.at ≡ s.head
  pub root_level : root.level ≡ max_level
  pub segment : Segment s.heap (root ∷ ts) nothing
  pub distinct : IsDistinct (root ∷ ts)
  pub young : All (λ (t : Tower K V). t.at < s.fresh) (root ∷ ts)
  pub levels : All (λ (t : Tower K V). (0 < t.level) × (t.level ≤ s.level)) ts
  pub level_pos : 0 < s.level
  pub level_max : s.level ≤ max_level
  pub sorted : IsAscending o ts
  pub size : s.size ≡ length ts
  pub counted : length ts < s.fresh

-- The towers of a valid list, cut at a key.
pub record Cut {K V : Type 0} (s : SkipList K V) (root : Tower K V) (low high : List (Tower K V))
    : Type 0 where
  pub head : Holds s.heap root (ahead_of low (ahead_of high nothing))
  pub front : Segment s.heap low (ahead_of high nothing)
  pub back : Segment s.heap high nothing
  pub enough : length low < suc s.fresh

not_up : (i n : ℕ) → n ≤ i → ltb i n ≡ false
not_up i n le = ground arith

module _ {K V : Type 0} (o : Order K) where
  pub IsValid-Cut :
      (s : SkipList K V) (low high : List (Tower K V))
      → (v : IsValid o s (low ++ high)) → Cut s v.root low high
  IsValid-Cut s low high v =
      let (front, back) = Segment-parts s.heap low high nothing v.segment.1 in
      record {
        head =
            Holds-cong (ahead_of (low ++ high) nothing) _ (λ i lt. first_or-append i low high none)
              v.segment.0;
        front = front;
        back = back;
        enough = omega (arith, v.counted, length-append low high);
      }

  -- A search along the first `n` levels that stops behind the towers below the key.
  pub record Missed (s : SkipList K V) (test : Node K V → Verdict) (n : ℕ) (a : Ptr)
      (low : List (Tower K V)) : Type 0 where
    pub prev : Ptr
    pub vector : Prevs
    pub run : search_with test n s ≡ some (ended prev vector)
    pub filled : (j : ℕ) → j < n → vector j ≡ some (last_or j a low)
    pub bottom : prev ≡ last_or 0 a low

  pub search_with-Missed :
      (s : SkipList K V) (low high : List (Tower K V)) (test : Node K V → Verdict) (n : ℕ)
      → (v : IsValid o s (low ++ high)) → 0 < n
      → n ≤ max_level
      → Passes test low
      → Breaks test high
      → Missed s test n v.root.at low
  unfolding search_with
  search_with-Missed s low high test n v pos small pass stop =
      let c = IsValid-Cut s low high v in
      let e =
        descend-Ends s.heap test (ahead_of high nothing) n (suc s.fresh) v.root low (λ i. none)
          (omega (arith, v.root_level)) c.head c.front pass c.enough
          (λ i lt. Breaks-Halts s.heap test i high nothing refl c.back stop) in
      record {
        prev = e.prev;
        vector = e.vector;
        run =
            subst
              (λ (p : Ptr).
                descend (suc s.fresh) s.heap test n p (λ i. none) ≡ some (ended e.prev e.vector))
              v.root_at e.run;
        filled = e.filled;
        bottom = e.bottom pos;
      }

  -- The search of Find and Insert for a key that is there.
  pub search_with-found :
      (s : SkipList K V) (low us : List (Tower K V)) (u : Tower K V) (n : ℕ)
      → (v : IsValid o s (low ++ (u ∷ us))) → 0 < n
      → n ≤ max_level
      → Below o u.key low
      → Above o u.key us
      → search_with (find_test o u.key) n s ≡ some (found u.at)
  unfolding search_with
  search_with-found s low us u n v pos small b above =
      let test = find_test {V = V} o u.key in
      let c = IsValid-Cut s low (u ∷ us) v in
      let reach : (0 < u.level) × (u.level ≤ s.level) = (All-parts _ low (u ∷ us) v.levels).1.0 in
      subst (λ (p : Ptr). descend (suc s.fresh) s.heap test n p (λ i. none) ≡ some (found u.at))
        v.root_at
        (descend-found s.heap test (ahead_of (u ∷ us) nothing) n (suc s.fresh) v.root low
          (λ i. none) u (ahead_of us nothing) pos (omega (arith, v.root_level)) c.head c.front
          (Below-Passes-find o u.key low b) c.enough reach.0 c.back.0
          (ground (arith, c.back.0.key, eq_refl o u.key)) (λ i lt. ground arith)
          (λ i le. rw (not_up i u.level le) (
            Breaks-Halts s.heap test i us nothing refl c.back.1
              (Above-Breaks-find o u.key us above))))
