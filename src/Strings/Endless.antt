-- ===== src/Strings/Endless.antt =====
-- Split of bitdb/common/string_utils.cpp with an empty delimiter.
use bitdb.Base.{ℕ, zero, suc, ◌≡◌, refl, Bool, none, some, [], ◌∷◌, arith}
use bitdb.Bytes.{Bytes}
use bitdb.Strings.{same, starts_with, find, split_loop}

find_nothing : (a : ℕ) (str : Bytes) → find (a ∷ str) [] ≡ some 0
unfolding find starts_with same
find_nothing a str = ground arith

-- With an empty delimiter, no number of rounds is enough for the loop of Split on a text that is not
-- empty.
pub split_loop_endless :
    (fuel a : ℕ) (str : Bytes) (keep_empty : Bool) → split_loop fuel (a ∷ str) [] keep_empty ≡ none
unfolding split_loop
split_loop_endless zero a str keep_empty = refl
split_loop_endless (suc fuel) a str keep_empty =
    ground (arith, find_nothing a str, split_loop_endless fuel a str keep_empty)
