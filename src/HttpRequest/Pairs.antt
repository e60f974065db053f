-- ===== src/HttpRequest/Pairs.antt =====
-- bitdb/net/http/http_request.cpp: ParseURLParams and ParseBody.
use mathlib.Core.List.{append-nil}
use bitdb.Base.{
  ℕ, ◌≡◌, ◌≢◌, refl, ap, ◌∙◌, true, false, some, List, [], ◌∷◌, ◌++◌, arith, All, All-append,
}
use bitdb.Bytes.{Bytes}
use bitdb.TreeMap.{TreeMap, insert}
use bitdb.Strings.{is_empty, join, split_at_char}
use bitdb.Strings.Split.{join_lem, joined_tail}
use bitdb.Strings.Parts.{Lacks, split_at_char-join}
use bitdb.HttpRequest.{take_pair, take_params, parse_params}

-- A key and a value with a character between them.
abbrev pub pair_text : ℕ → Bytes × Bytes → Bytes
pair_text c (key, value) = key ++ (c ∷ value)

pub join_pair :
    (c : ℕ) (key value : Bytes) → join (key ∷ value ∷ []) (c ∷ []) ≡ pair_text c (key, value)
join_pair c key value =
    join_lem key (c ∷ []) (value ∷ []) ∙ ap (λ t. key ++ (c ∷ t)) (append-nil value)

pub nonempty_pair : (c : ℕ) (x y : Bytes) → is_empty (x ++ (c ∷ y)) ≡ false
nonempty_pair c [] y = refl
nonempty_pair c (b ∷ x) y = refl

nonempty_before : (c : ℕ) (x y z : Bytes) → is_empty ((x ++ (c ∷ y)) ++ z) ≡ false
nonempty_before c [] y z = refl
nonempty_before c (b ∷ x) y z = refl

-- Split finds the key and the value again.
pub split_pair :
    (c : ℕ) (key value : Bytes)
    → Lacks c key
    → Lacks c value
    → split_at_char (pair_text c (key, value)) c true ≡ some (key ∷ value ∷ [])
split_pair c key value no_key no_value = rw (join_pair c key value) at (
    split_at_char-join c key (value ∷ []) no_key (no_value, tt)
      (rw (join_pair c key value) (nonempty_pair c key value)))

-- Neither the key nor the value has one of the two separators.
abbrev pub IsParam : Bytes × Bytes → Type 0
IsParam (key, value) = (Lacks b'=' key × Lacks b'=' value) × (Lacks b'&' key × Lacks b'&' value)

abbrev pub param_texts : List (Bytes × Bytes) → List Bytes
param_texts [] = []
param_texts (p ∷ ps) = pair_text b'=' p ∷ param_texts ps

-- The table with the pairs put in, in their order.
abbrev pub insert_all : List (Bytes × Bytes) → TreeMap Bytes → TreeMap Bytes
insert_all [] table = table
insert_all ((key, value) ∷ ps) table = insert_all ps (insert key value table)

take_params_lem :
    (ps : List (Bytes × Bytes)) (table : TreeMap Bytes)
    → All IsParam ps
    → take_params (param_texts ps) table ≡ some (insert_all ps table)
unfolding take_params take_pair
take_params_lem [] table h = refl
take_params_lem ((key, value) ∷ ps) table (((no_key, no_value), other), rest) =
    rw (split_pair b'=' key value no_key no_value)
      (take_params_lem ps (insert key value table) rest)

param_texts-Lacks : (ps : List (Bytes × Bytes)) → All IsParam ps → All (Lacks b'&') (param_texts ps)
param_texts-Lacks [] h = tt
param_texts-Lacks ((key, value) ∷ ps) ((eq, (no_key, no_value)), rest) = (
  All-append (λ (b : ℕ). b ≢ b'&') key (b'=' ∷ value) no_key ((λ e. omega (arith, e)), no_value),
  param_texts-Lacks ps rest,
)

-- ParseURLParams and ParseBody of pairs `key=value` that `&` joins, one pair or more, where neither
-- character is in a key or a value: all the pairs are put into the table in their order, with the
-- blanks that are in them.
pub parse_params_joined :
    (key value : Bytes) (ps : List (Bytes × Bytes)) (table : TreeMap Bytes)
    → All IsParam ((key, value) ∷ ps)
    → parse_params (join (param_texts ((key, value) ∷ ps)) (b'&' ∷ [])) table
      ≡ some (insert_all ((key, value) ∷ ps) table)
unfolding parse_params
parse_params_joined key value ps table h =
    let texts = param_texts-Lacks ((key, value) ∷ ps) h in
    rw
      (split_at_char-join b'&' (pair_text b'=' (key, value)) (param_texts ps) texts.0 texts.1 (
        rw (join_lem (pair_text b'=' (key, value)) (b'&' ∷ []) (param_texts ps))
          (nonempty_before b'=' key value (joined_tail (b'&' ∷ []) (param_texts ps)))))
      (take_params_lem ((key, value) ∷ ps) table h)
