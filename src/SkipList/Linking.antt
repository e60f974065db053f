-- ===== src/SkipList/Linking.antt =====
-- bitdb/ds/skiplist.h: the loops of Insert.
use bitdb.Base.{
  ℕ, zero, suc, ◌+◌, ◌<◌, ◌≤◌, ◌≡◌, refl, ap, ◌∙◌, false, Option, some, List, [], ◌∷◌, ltb, ◌==◌,
  if◌then◌else◌, arith, All, Bool-cases, inl, inr,
}
use bitdb.SkipList.{Ptr, Heap, Prevs, max_level, set_at, link, link_head, unlink}
use bitdb.SkipList.Segment.{Tower, first_or, last_or}
use bitdb.SkipList.Relink.{next_at-Holds}
use bitdb.SkipList.Parts.{Parts, Apart, last_leads, redirect, rewire_middle, Parts-cong}

-- Levels below `k` lead to `f`, the others to `e`.
abbrev pub up_to : ℕ → (ℕ → Option Ptr) → (ℕ → Option Ptr) → (ℕ → Option Ptr)
up_to k f e j = if ltb j k then f j else e j

up_to_next :
    (k : ℕ) (f e : ℕ → Option Ptr) (j : ℕ) → set_at k (f k) (up_to k f e) j ≡ up_to (suc k) f e j
up_to_next k f e j = elim (Bool-cases (j == k)) [
  | inl same ↦ let e : j ≡ k = ground arith in rw e (ground arith)
  | inr other ↦ ground arith
]

-- Levels from `n` to below `k` lead to `q`, the others to `e`.
abbrev pub between : ℕ → ℕ → Option Ptr → (ℕ → Option Ptr) → (ℕ → Option Ptr)
between n k q e j = if ltb j n then e j else if ltb j k then q else e j

between_next :
    (n i : ℕ) (q : Option Ptr) (e : ℕ → Option Ptr) (j : ℕ)
    → set_at (n + i) q (between n (n + i) q e) j ≡ between n (n + suc i) q e j
between_next n i q e j = ground arith

module _ {K V : Type 0} where
  pub first_or-short :
      (n j : ℕ) (ts : List (Tower K V)) (x : Option Ptr)
      → All (λ (t : Tower K V). (0 < t.level) × (t.level ≤ n)) ts
      → n ≤ j
      → first_or j ts x ≡ x
  first_or-short n j [] x short le = refl
  first_or-short n j (t ∷ ts) x short le =
      ground (arith, short.0.1, first_or-short n j ts x short.1 le)

  pub last_or-short :
      (n j : ℕ) (p : Ptr) (ts : List (Tower K V))
      → All (λ (t : Tower K V). (0 < t.level) × (t.level ≤ n)) ts
      → n ≤ j
      → last_or j p ts ≡ p
  last_or-short n j p [] short le = refl
  last_or-short n j p (t ∷ ts) short le =
      let low : ltb j t.level ≡ false = ground (arith, short.0.1) in
      rw low (last_or-short n j p ts short.1 le)

module _ {K V : Type 0} (root : Tower K V) (low : List (Tower K V)) (m : Tower K V)
    (high : List (Tower K V)) where
  -- A loop on the heap that ends in other parts.
  pub record Rebuilt (step : Heap K V → Option (Heap K V)) (h : Heap K V) (e a : ℕ → Option Ptr)
      : Type 0 where
    pub heap : Heap K V
    pub run : step h ≡ some heap
    pub parts : Parts root low m high heap e a

  pub link_lem :
      (k : ℕ) (prevs : Prevs) (h : Heap K V) (e a : ℕ → Option Ptr)
      → k ≤ max_level
      → k ≤ m.level
      → ((j : ℕ) → j < k → prevs j ≡ some (last_or j root.at low))
      → Apart root low m high
      → Parts root low m high h e a
      → Rebuilt (link k m.at prevs) h (up_to k (λ j. some m.at) e) (up_to k e a)
  unfolding link
  link_lem zero prevs h e a small le filled x p = record {
    heap = h;
    run = refl;
    parts = Parts-cong root low m high h e _ a _ (λ i. ground arith) (λ i lt. ground arith) p;
  }
  link_lem (suc k) prevs h e a small le filled x p =
      let r =
        link_lem k prevs h e a (omega arith) (omega arith) (λ j lt. filled j (omega arith)) x p in
      let here : up_to k (λ j. some m.at) e k ≡ e k = ground arith in
      let leads = last_leads root low m high r.heap _ _ k (omega arith) x r.parts ∙ ap some here in
      let n = rewire_middle root low m high r.heap _ _ k (e k) (omega arith) x r.parts in
      let w = redirect root low m high n.heap _ _ k (some m.at) (omega arith) x n.parts in
      record {
        heap = w.heap;
        run = rw r.run (rw (filled k (omega arith)) (rw leads (rw n.run w.run)));
        parts =
            Parts-cong root low m high w.heap _ _ _ _ (up_to_next k (λ j. some m.at) e)
              (λ i lt. up_to_next k e a i) w.parts;
      }

  pub link_head_lem :
      (i n : ℕ) (h : Heap K V) (e a : ℕ → Option Ptr)
      → n + i ≤ max_level
      → All (λ (t : Tower K V). (0 < t.level) × (t.level ≤ n)) low
      → Apart root low m high
      → Parts root low m high h e a
      → Rebuilt (link_head i n root.at m.at) h (between n (n + i) (some m.at) e) a
  unfolding link_head
  link_head_lem zero n h e a small short x p = record {
    heap = h;
    run = refl;
    parts = Parts-cong root low m high h _ _ a a (λ i. ground arith) (λ i lt. refl) p;
  }
  link_head_lem (suc i) n h e a small short x p =
      let r = link_head_lem i n h e a (omega arith) short x p in
      let w = redirect root low m high r.heap _ _ (n + i) (some m.at) (omega arith) x r.parts in
      record {
        heap = w.heap;
        run = rw r.run (rw (last_or-short n (n + i) root.at low short (omega arith)) at w.run);
        parts =
            Parts-cong root low m high w.heap _ _ _ _ (between_next n i (some m.at) e)
              (λ j lt. refl) w.parts;
      }

  -- The loop of Remove leads each level of `m` past `m`.
  pub unlink_lem :
      (k : ℕ) (prevs : Prevs) (h : Heap K V) (e a : ℕ → Option Ptr)
      → k ≤ max_level
      → k ≤ m.level
      → ((j : ℕ) → j < k → prevs j ≡ some (last_or j root.at low))
      → Apart root low m high
      → Parts root low m high h e a
      → Rebuilt (unlink k m.at prevs) h (up_to k a e) a
  unfolding unlink
  unlink_lem zero prevs h e a small le filled x p = record {
    heap = h;
    run = refl;
    parts = Parts-cong root low m high h e _ a a (λ i. ground arith) (λ i lt. refl) p;
  }
  unlink_lem (suc k) prevs h e a small le filled x p =
      let r =
        unlink_lem k prevs h e a (omega arith) (omega arith) (λ j lt. filled j (omega arith)) x p in
      let leads = next_at-Holds r.heap m a k (omega arith) r.parts.middle in
      let w = redirect root low m high r.heap _ _ k (a k) (omega arith) x r.parts in
      record {
        heap = w.heap;
        run = rw r.run (rw (filled k (omega arith)) (rw leads w.run));
        parts = Parts-cong root low m high w.heap _ _ _ _ (up_to_next k a e) (λ i lt. refl) w.parts;
      }
