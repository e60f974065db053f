-- ===== src/Strings/Parts.antt =====
-- Split of bitdb/common/string_utils.cpp: which parts there are.
use mathlib.Core.List.{append_assoc, append-nil}
use bitdb.Base.{
  ℕ, zero, suc, ◌+◌, ◌<◌, ◌≡◌, ◌≢◌, refl, sym, not, ◌||◌, true, false, Option, none, some, List, [],
  ◌∷◌, ◌++◌, length, take, drop, arith, All, ◌==◌, length-append, Bool-cases, Option-cases, inl,
  inr, take-append, drop-append,
}
use bitdb.Bytes.{Bytes}
use bitdb.Strings.{kept, is_empty, same, starts_with, find, join, split_loop, split, split_at_char}
use bitdb.Strings.Split.{join_lem, joined_tail, is_empty-eq}

-- The parts that are not empty.
abbrev pub without_empty : List Bytes → List Bytes
without_empty [] = []
without_empty ([] ∷ parts) = without_empty parts
without_empty ((a ∷ item) ∷ parts) = (a ∷ item) ∷ without_empty parts

abbrev pub result_without_empty : Option (List Bytes) → Option (List Bytes)
result_without_empty none = none
result_without_empty (some parts) = some (without_empty parts)

one_piece :
    (current : Bytes) → is_empty current ≡ false → without_empty (current ∷ []) ≡ current ∷ []
one_piece [] h = absurd (ground arith)
one_piece (a ∷ current) h = refl

one_part :
    (pos a : ℕ) (current : Bytes) (parts : List Bytes)
    → kept (not (pos == 0) || false) (take pos (a ∷ current)) ++ without_empty parts
      ≡ without_empty (take pos (a ∷ current) ∷ parts)
one_part zero a current parts = refl
one_part (suc pos) a current parts = ground arith

-- Without keep_empty, the loop finds the same parts but for those that are empty.
split_loop-false :
    (fuel : ℕ) (current delim : Bytes)
    → is_empty current ≡ false
    → split_loop fuel current delim false
      ≡ result_without_empty (split_loop fuel current delim true)
unfolding split_loop
split_loop-false zero current delim some_text = refl
split_loop-false (suc fuel) [] delim some_text = absurd (ground arith)
split_loop-false (suc fuel) (a ∷ current) delim some_text =
    elim (Option-cases (find (a ∷ current) delim)) [
      | inl missing ↦ ground (arith, missing)
      | inr (pos, found) ↦
          let behind = drop (pos + length delim) (a ∷ current) in
          elim (Bool-cases (is_empty behind)) [
            | inl at_end ↦ ground (arith, found, at_end, one_part pos a current ([] ∷ []))
            | inr more ↦
                let rest = split_loop-false fuel behind delim more in
                elim (Option-cases (split_loop fuel behind delim true)) [
                  | inl none_left ↦ ground (arith, found, more, rest, none_left)
                  | inr (parts, run) ↦
                      ground (arith, found, more, rest, run, one_part pos a current parts)
                ]
          ]
    ]

-- Split without keep_empty finds the parts that it finds with keep_empty, but for those that are
-- empty, whatever the text and the delimiter are.
pub split-without_empty :
    (str delim : Bytes) → split str delim false ≡ result_without_empty (split str delim true)
unfolding split
split-without_empty [] delim = refl
split-without_empty (a ∷ str) delim = split_loop-false (suc (length (a ∷ str))) (a ∷ str) delim refl

abbrev pub Lacks : ℕ → Bytes → Type 0
Lacks c x = All (λ b. b ≢ c) x

starts_with_char : (b c : ℕ) (str : Bytes) → starts_with (b ∷ str) (c ∷ []) ≡ (b == c)
unfolding starts_with same
starts_with_char b c str = ground arith

find-Lacks : (c : ℕ) (x : Bytes) → Lacks c x → find x (c ∷ []) ≡ none
unfolding find
find-Lacks c [] lacks = ground arith
find-Lacks c (b ∷ x) (first, rest) =
    ground (arith, starts_with_char b c x, first, find-Lacks c x rest)

pub find_behind :
    (c : ℕ) (x rest : Bytes) → Lacks c x → find (x ++ (c ∷ rest)) (c ∷ []) ≡ some (length x)
unfolding find
find_behind c [] rest lacks = ground (arith, starts_with_char c c rest)
find_behind c (b ∷ x) rest (first, others) =
    ground (arith, starts_with_char b c (x ++ (c ∷ rest)), first, find_behind c x rest others)

nothing_joined :
    (c : ℕ) (next : Bytes) (parts : List Bytes)
    → next ++ joined_tail (c ∷ []) parts ≡ []
    → (next ≡ []) × (parts ≡ [])
nothing_joined c [] [] h = (refl, refl)
nothing_joined c [] (item ∷ parts) h = absurd (ground (arith, h))
nothing_joined c (a ∷ next) parts h = absurd (ground (arith, h))

-- The loop on what is joined.
split_loop-joined :
    (fuel c : ℕ) (item : Bytes) (parts : List Bytes)
    → Lacks c item
    → All (Lacks c) parts
    → length (item ++ joined_tail (c ∷ []) parts) < fuel
    → split_loop fuel (item ++ joined_tail (c ∷ []) parts) (c ∷ []) true ≡ some (item ∷ parts)
unfolding split_loop
split_loop-joined zero c item parts lacks others fueled = absurd (omega arith)
split_loop-joined (suc fuel) c item [] lacks others fueled =
    let alone = append-nil item in rw alone (ground (arith, find-Lacks c item lacks))
split_loop-joined (suc fuel) c item (next ∷ parts) lacks (first, rest) fueled =
    let behind = next ++ joined_tail (c ∷ []) parts in
    let found = find_behind c item behind lacks in
    let front = take-append item (c ∷ behind) (length item) refl in
    let size : length item + 1 ≡ length (item ++ (c ∷ [])) =
      omega (arith, length-append item (c ∷ [])) in
    let cut : drop (length item + 1) (item ++ (c ∷ behind)) ≡ behind =
      rw (sym (append_assoc item (c ∷ []) behind))
        (drop-append (item ++ (c ∷ [])) behind (length item + 1) size) in
    elim (Bool-cases (is_empty behind)) [
      | inl at_end ↦
          let (no_next, no_parts) = nothing_joined c next parts (is_empty-eq behind at_end) in
          ground (arith, found, at_end, cut, front, no_next, no_parts)
      | inr more ↦
          let run =
            split_loop-joined fuel c next parts first rest
              (omega (arith, length-append item (c ∷ behind))) in
          ground (arith, found, more, run, cut, front)
    ]

-- Split at a character, keeping empty parts, takes apart again what Join has put together with that
-- character, where it is in none of the parts and the whole text is not empty.
pub split_at_char-join :
    (c : ℕ) (item : Bytes) (parts : List Bytes)
    → Lacks c item
    → All (Lacks c) parts
    → is_empty (join (item ∷ parts) (c ∷ [])) ≡ false
    → split_at_char (join (item ∷ parts) (c ∷ [])) c true ≡ some (item ∷ parts)
unfolding split_at_char
split_at_char-join c item parts lacks others some_text =
    let text = join (item ∷ parts) (c ∷ []) in
    let whole = join_lem item (c ∷ []) parts in
    let long : is_empty (item ++ joined_tail (c ∷ []) parts) ≡ false = rw whole at some_text in
    rw (whole, long)
      (split_loop-joined (suc (length (item ++ joined_tail (c ∷ []) parts))) c item parts lacks
        others (omega arith))
