-- ===== src/Strings.antt =====
-- bitdb/common/string_utils.cpp: a string_view is the list of its bytes. The members of string_view
-- are written out as the standard has them; `none` is std::string_view::npos.
pub mod Split
pub mod Parts
pub mod Endless
use bitdb.Base.{
  ℕ, zero, suc, ◌+◌, ◌-◌, Bool, true, false, not, ◌&&◌, ◌||◌, Option, none, some, List, [], ◌∷◌,
  ◌++◌, length, take, drop, get_elem?, leb, ◌==◌, if◌then◌else◌,
}
use bitdb.Bytes.{Bytes}

-- operator== of string_view
unfoldable pub same : Bytes → Bytes → Bool
same [] [] = true
same [] (b ∷ y) = false
same (a ∷ x) [] = false
same (a ∷ x) (b ∷ y) = let rest = same x y in a == b && rest

abbrev pub is_empty : Bytes → Bool
is_empty [] = true
is_empty (a ∷ x) = false

-- StartsWith
unfoldable pub starts_with : Bytes → Bytes → Bool
starts_with str prefix = leb (length prefix) (length str) && same (take (length prefix) str) prefix

-- EndsWith
unfoldable pub ends_with : Bytes → Bytes → Bool
ends_with str suffix =
    leb (length suffix) (length str) && same (drop (length str - length suffix) str) suffix

abbrev one_more : Option ℕ → Option ℕ
one_more none = none
one_more (some i) = some (suc i)

-- string_view::find: the first position where `target` starts.
unfoldable pub find : Bytes → Bytes → Option ℕ
find [] target = if length target == 0 then some 0 else none
find (b ∷ str) target =
    let rest = find str target in if starts_with (b ∷ str) target then some 0 else one_more rest

abbrev pub is_found : Option ℕ → Bool
is_found none = false
is_found (some pos) = true

-- Contains
unfoldable pub contains : Bytes → Bytes → Bool
contains str target =
    if same str target
    then true
    else if is_empty str
    then false
    else if is_empty target
    then true
    else is_found (find str target)

-- `size` of JoinImpl, before the last delimiter is taken off.
unfoldable pub join_size : List Bytes → Bytes → ℕ
join_size [] delim = 0
join_size (item ∷ parts) delim = length item + length delim + join_size parts delim

-- The loop of JoinImpl
unfoldable pub append_all : Bytes → Bytes → List Bytes → Bytes
append_all result delim [] = result
append_all result delim (item ∷ parts) = append_all (result ++ (delim ++ item)) delim parts

-- JoinImpl, which the overloads of Join call.
unfoldable pub join : List Bytes → Bytes → Bytes
join [] delim = []
join (item ∷ parts) delim =
    if join_size (item ∷ parts) delim == 0 then [] else append_all item delim parts

abbrev pub kept : Bool → Bytes → List Bytes
kept true piece = piece ∷ []
kept false piece = []

-- The loop of Split, with a number of rounds that it may take; no result if they are not enough.
unfoldable pub split_loop : ℕ → Bytes → Bytes → Bool → Option (List Bytes)
split_loop zero current delim keep_empty = none
split_loop (suc fuel) current delim keep_empty = elim (find current delim) [
  | none ↦ some (current ∷ [])
  | some pos ↦
      let piece = kept (not (pos == 0) || keep_empty) (take pos current) in
      let behind = drop (pos + length delim) current in
      let more = split_loop fuel behind delim keep_empty in
      if is_empty behind
      then some (piece ++ kept keep_empty [])
      else elim more [ none ↦ none | some parts ↦ some (piece ++ parts) ]
]

-- Split; a delimiter that is not empty is gone after each round, so the length bounds the rounds.
unfoldable pub split : Bytes → Bytes → Bool → Option (List Bytes)
split str delim keep_empty =
    if is_empty str then some [] else split_loop (suc (length str)) str delim keep_empty

-- The overload for one character
unfoldable pub split_at_char : Bytes → ℕ → Bool → Option (List Bytes)
unfolding split
split_at_char str delim keep_empty = split str (delim ∷ []) keep_empty

-- The loop of Replace, as often as `count` allows; `p` is where the search goes on.
unfoldable pub replace_from : ℕ → Bytes → Bytes → Bytes → Bytes
replace_from zero target from to = target
replace_from (suc count) target from to = elim (find target from) [
  | none ↦ target
  | some p ↦ take p target ++ (to ++ replace_from count (drop (p + length from) target) from to)
]

-- find_first_not_of(' ') and find_last_not_of(' ')
unfoldable pub find_first_not_blank : Bytes → Option ℕ
find_first_not_blank [] = none
find_first_not_blank (a ∷ x) =
    let rest = find_first_not_blank x in if a == b' ' then one_more rest else some 0

unfoldable pub find_last_not_blank : Bytes → Option ℕ
find_last_not_blank [] = none
find_last_not_blank (a ∷ x) = elim (find_last_not_blank x) [
  | none ↦ if a == b' ' then none else some 0
  | some i ↦ some (suc i)
]

abbrev is_blank : Option ℕ → Bool
is_blank none = false
is_blank (some a) = a == b' '

-- Trim of a text that is not empty, from the position where its words start.
unfoldable pub trim_from : Bytes → Option ℕ → Bytes
trim_from str none = []
trim_from str (some start) = elim (find_last_not_blank str) [
  | none ↦ drop start str
  | some last ↦
      let end = if is_blank (get_elem? str (length str - 1)) then last else length str in
      take (end - start + 1) (drop start str)
]

-- Trim
unfoldable pub trim : Bytes → Bytes
unfolding trim_from find_first_not_blank find_last_not_blank
trim str =
    if is_empty str
    then []
    else trim_from str (if is_blank (get_elem? str 0) then find_first_not_blank str else some 0)
