-- ===== src/Strings/Split.antt =====
-- Split and Join of bitdb/common/string_utils.cpp: one takes apart what the other puts together.
use mathlib.Core.List.{append-nil, append_assoc}
use bitdb.Base.{
  ℕ, zero, suc, ◌+◌, ◌<◌, ◌≡◌, refl, ap, ◌∙◌, sym, true, some, List, [], ◌∷◌, ◌++◌, length, take,
  drop, arith, ◌==◌, length-append, Bool-cases, Option-cases, inl, inr,
}
use bitdb.Bytes.{Bytes}
use bitdb.Strings.{
  is_empty, same, starts_with, find, join, join_size, append_all, split_loop, split,
}

pub same-eq : (x y : Bytes) → same x y ≡ true → x ≡ y
unfolding same
same-eq [] [] h = refl
same-eq [] (b ∷ y) h = absurd (ground arith)
same-eq (a ∷ x) [] h = absurd (ground arith)
same-eq (a ∷ x) (b ∷ y) h =
    let tails : x ≡ y = same-eq x y (ground (arith, h)) in
    let heads : a ≡ b = ground (arith, h) in rw (heads, tails) refl

take-drop : (n : ℕ) (x : Bytes) → take n x ++ drop n x ≡ x
take-drop zero x = refl
take-drop (suc n) [] = refl
take-drop (suc n) (a ∷ x) = ap (λ t. a ∷ t) (take-drop n x)

starts_with-eq :
    (str prefix : Bytes) → starts_with str prefix ≡ true → str ≡ prefix ++ drop (length prefix) str
unfolding starts_with
starts_with-eq str prefix h =
    let front : take (length prefix) str ≡ prefix =
      same-eq (take (length prefix) str) prefix (ground (arith, h)) in
    sym (take-drop (length prefix) str) ∙ ap (λ t. t ++ drop (length prefix) str) front

-- What is found stands where it is found.
pub find-eq :
    (str target : Bytes) (pos : ℕ)
    → find str target ≡ some pos
    → str ≡ take pos str ++ (target ++ drop (pos + length target) str)
unfolding find
find-eq [] [] pos h = let at_start : 0 ≡ pos = ground (arith, h) in rw (sym at_start) refl
find-eq [] (t ∷ target) pos h = absurd (ground (arith, h))
find-eq (b ∷ str) target pos h = elim (Bool-cases (starts_with (b ∷ str) target)) [
  | inl here ↦
      let at_start : 0 ≡ pos = ground (arith, h, here) in
      let none_before : 0 + length target ≡ length target = omega arith in
      rw (sym at_start, none_before) (starts_with-eq (b ∷ str) target here)
  | inr later ↦ elim (Option-cases (find str target)) [
    | inl missing ↦ absurd (ground (arith, h, later, missing))
    | inr (i, found) ↦
        let next : suc i ≡ pos = ground (arith, h, later, found) in
        let shift : suc i + length target ≡ suc (i + length target) = omega arith in
        rw (sym next, shift) (ap (λ t. b ∷ t) (find-eq str target i found))
  ]
]

-- What follows the first part of Join's result.
abbrev pub joined_tail : Bytes → List Bytes → Bytes
joined_tail delim [] = []
joined_tail delim (item ∷ parts) = delim ++ (item ++ joined_tail delim parts)

append_all-joined_tail :
    (result delim : Bytes) (parts : List Bytes)
    → append_all result delim parts ≡ result ++ joined_tail delim parts
unfolding append_all
append_all-joined_tail result delim [] = sym (append-nil result)
append_all-joined_tail result delim (item ∷ parts) =
    append_all-joined_tail (result ++ (delim ++ item)) delim parts
    ∙ append_assoc result (delim ++ item) (joined_tail delim parts)
    ∙ ap (λ t. result ++ t) (append_assoc delim item (joined_tail delim parts))

-- Where the size is 0, nothing is left out.
length-joined_tail :
    (delim : Bytes) (parts : List Bytes) → length (joined_tail delim parts) ≡ join_size parts delim
unfolding join_size
length-joined_tail delim [] = refl
length-joined_tail delim (item ∷ parts) = omega (
  arith,
  length-append delim (item ++ joined_tail delim parts),
  length-append item (joined_tail delim parts),
  length-joined_tail delim parts,
)

nothing_long : (x : Bytes) → length x ≡ 0 → x ≡ []
nothing_long [] h = refl
nothing_long (a ∷ x) h = absurd (omega arith)

pub join_lem :
    (item delim : Bytes) (parts : List Bytes)
    → join (item ∷ parts) delim ≡ item ++ joined_tail delim parts
unfolding join join_size
join_lem item delim parts = elim (Bool-cases (join_size (item ∷ parts) delim == 0)) [
  | inl zero_size ↦
      let whole = item ++ joined_tail delim parts in
      let no_bytes : length whole ≡ 0 = ground (
        arith,
        length-append item (joined_tail delim parts),
        length-joined_tail delim parts,
        zero_size,
      ) in
      rw (zero_size, nothing_long whole no_bytes) refl
  | inr some_size ↦ rw some_size (append_all-joined_tail item delim parts)
]

pub is_empty-eq : (x : Bytes) → is_empty x ≡ true → x ≡ []
is_empty-eq [] h = refl
is_empty-eq (a ∷ x) h = absurd (ground arith)

-- One round takes the text up to the first delimiter, and goes on behind it.
split_loop-joined_tail :
    (fuel : ℕ) (current delim : Bytes)
    → 0 < length delim
    → length current < fuel
    → (first : Bytes) × (rest : List Bytes) × (split_loop fuel current delim true
        ≡ some (first ∷ rest))
      × (first ++ joined_tail delim rest ≡ current)
unfolding split_loop
split_loop-joined_tail zero current delim some_delim fueled = absurd (omega arith)
split_loop-joined_tail (suc fuel) current delim some_delim fueled =
    elim (Option-cases (find current delim)) [
      | inl missing ↦ (current, [], ground (arith, missing), append-nil current)
      | inr (pos, found) ↦
          let behind = drop (pos + length delim) current in
          let whole = find-eq current delim pos found in
          let shorter : length behind < fuel = omega (
            arith,
            ap length whole,
            length-append (take pos current) (delim ++ behind),
            length-append delim behind,
          ) in
          elim (Bool-cases (is_empty behind)) [
            | inl at_end ↦
                let nothing : behind ≡ [] = is_empty-eq behind at_end in
                (
                  take pos current,
                  [] ∷ [],
                  ground (arith, found, at_end),
                  sym (whole ∙ ap (λ t. take pos current ++ (delim ++ t)) nothing),
                )
            | inr more ↦
                let (first, rest, run, same) =
                  split_loop-joined_tail fuel behind delim some_delim shorter in
                (
                  take pos current,
                  first ∷ rest,
                  ground (arith, found, more, run),
                  ap (λ t. take pos current ++ (delim ++ t)) same ∙ sym whole,
                )
          ]
    ]

-- Split with a delimiter that is not empty, keeping empty parts, ends within as many rounds as the
-- text has characters and one more, and Join with the same delimiter puts its parts together again.
pub join-split :
    (str delim : Bytes)
    → 0 < length delim
    → (parts : List Bytes) × (split str delim true ≡ some parts) × (join parts delim ≡ str)
unfolding split join
join-split [] delim some_delim = ([], refl, refl)
join-split (a ∷ str) delim some_delim =
    let (first, rest, run, same) =
      split_loop-joined_tail (suc (length (a ∷ str))) (a ∷ str) delim some_delim (omega arith) in
    (first ∷ rest, run, join_lem first delim rest ∙ same)
