-- ===== src/Examples/Texts.antt =====
-- Split and Join at concrete inputs.
use bitdb.Base.{◌≡◌, refl, arith, some, List, [], ◌∷◌, false, true}
use bitdb.Bytes.{Bytes}
use bitdb.Strings.{same, starts_with, find, join, split, split_loop, trim}
use bitdb.Strings.Split.{join-split}

abbrev text : Bytes
text = b'a' ∷ b',' ∷ b',' ∷ b'b' ∷ b',' ∷ []

trimmed : trim (b' ' ∷ b'a' ∷ b' ' ∷ b'b' ∷ b' ' ∷ b' ' ∷ []) ≡ b'a' ∷ b' ' ∷ b'b' ∷ []
unfolding trim
trimmed = refl

abbrev comma : Bytes
comma = b',' ∷ []

parts_of_text : split text comma true ≡ some ((b'a' ∷ []) ∷ [] ∷ (b'b' ∷ []) ∷ [] ∷ [])
unfolding split split_loop find starts_with same
parts_of_text = refl

some_parts_of_text : split text comma false ≡ some ((b'a' ∷ []) ∷ (b'b' ∷ []) ∷ [])
unfolding split split_loop find starts_with same
some_parts_of_text = refl

join-split_example :
    (parts : List Bytes) × (split text comma true ≡ some parts) × (join parts comma ≡ text)
join-split_example = join-split text comma (omega arith)
