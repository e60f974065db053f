-- ===== src/HttpRequest/Headers.antt =====
-- bitdb/net/http/http_request.cpp: ParseHeaders.
use bitdb.Base.{ℕ, ◌≡◌, refl, ap, ◌∙◌, true, false, some, List, [], ◌∷◌, ◌++◌, arith, All}
use bitdb.Bytes.{Bytes}
use bitdb.TreeMap.{TreeMap, insert}
use bitdb.Strings.{is_empty, contains, split_at_char, join}
use bitdb.Strings.Split.{join_lem, joined_tail}
use bitdb.Strings.Parts.{
  Lacks, find_behind, without_empty, result_without_empty, split-without_empty, split_at_char-join,
}
use bitdb.HttpRequest.{parse_header, parse_headers, take_pair}
use bitdb.HttpRequest.Pairs.{pair_text, nonempty_pair, insert_all, join_pair}

-- A text with a delimiter behind its first part has the delimiter.
contains_behind : (c : ℕ) (x y : Bytes) → Lacks c x → contains (x ++ (c ∷ y)) (c ∷ []) ≡ true
unfolding contains
contains_behind c x y lacks = ground (arith, find_behind c x y lacks, nonempty_pair c x y)

-- A part of a header, which is not empty and has no colon.
abbrev pub IsPart : Bytes → Type 0
IsPart x = Lacks b':' x × (is_empty x ≡ false)

IsPart-Lacks : (parts : List Bytes) → All IsPart parts → All (Lacks b':') parts
IsPart-Lacks [] h = tt
IsPart-Lacks (x ∷ parts) ((lacks, nonempty), rest) = (lacks, IsPart-Lacks parts rest)

IsPart-without_empty : (parts : List Bytes) → All IsPart parts → without_empty parts ≡ parts
IsPart-without_empty [] h = refl
IsPart-without_empty ([] ∷ parts) ((lacks, nonempty), rest) = absurd (ground (arith, nonempty))
IsPart-without_empty ((b ∷ x) ∷ parts) (h, rest) =
    ap (λ t. (b ∷ x) ∷ t) (IsPart-without_empty parts rest)

split_at_char-false :
    (c : ℕ) (text : Bytes) (parts : List Bytes)
    → split_at_char text c true ≡ some parts
    → split_at_char text c false ≡ some (without_empty parts)
unfolding split_at_char
split_at_char-false c text parts run =
    split-without_empty text (c ∷ []) ∙ ap result_without_empty run

-- A header of two parts or more is split into them.
parse_header_parts :
    (key value : Bytes) (more : List Bytes) (headers : TreeMap Bytes)
    → All IsPart (key ∷ value ∷ more)
    → parse_header (join (key ∷ value ∷ more) (b':' ∷ [])) headers
      ≡ some (take_pair (key ∷ value ∷ more) headers)
unfolding parse_header
parse_header_parts key value more headers h =
    let parts = key ∷ value ∷ more in
    let text = join parts (b':' ∷ []) in
    let whole = join_lem key (b':' ∷ []) (value ∷ more) in
    let behind = value ++ joined_tail (b':' ∷ []) more in
    let nonempty : is_empty text ≡ false = rw whole (nonempty_pair b':' key behind) in
    let colon : contains text (b':' ∷ []) ≡ true =
      rw whole (contains_behind b':' key behind h.0.0) in
    let lacks = IsPart-Lacks parts h in
    let run = split_at_char-join b':' key (value ∷ more) lacks.0 lacks.1 nonempty in
    let kept : split_at_char text b':' false ≡ some parts =
      split_at_char-false b':' text parts run ∙ ap (λ t. some t) (IsPart-without_empty parts h) in
    rw (nonempty, colon, kept) refl

-- The headers `key:value` of pairs.
abbrev pub header_texts : List (Bytes × Bytes) → List Bytes
header_texts [] = []
header_texts (p ∷ ps) = pair_text b':' p ∷ header_texts ps

abbrev pub IsHeader : Bytes × Bytes → Type 0
IsHeader (key, value) = IsPart key × IsPart value

-- ParseHeaders of lines `key:value`, where key and value are not empty and have no colon: all of
-- them are put into the table in their order, with the blanks that are in them.
pub parse_headers_pairs :
    (ps : List (Bytes × Bytes)) (headers : TreeMap Bytes)
    → All IsHeader ps
    → parse_headers (header_texts ps) headers ≡ some (insert_all ps headers)
unfolding parse_headers take_pair
parse_headers_pairs [] headers h = refl
parse_headers_pairs ((key, value) ∷ ps) headers ((first, second), rest) =
    let one : parse_header (pair_text b':' (key, value)) headers ≡ some (insert key value headers) =
      rw (join_pair b':' key value) at
        (parse_header_parts key value [] headers (first, (second, tt))) in
    rw one (parse_headers_pairs ps (insert key value headers) rest)

-- A header whose value has a colon itself, as `Host:localhost:80`, is dropped without an error:
-- where the three parts are not empty and have no further colon, ParseHeaders of such a line and of
-- others behind it gives what it gives for the others alone.
pub parse_headers_port :
    (key host port : Bytes) (lines : List Bytes) (headers : TreeMap Bytes)
    → IsPart key
    → IsPart host
    → IsPart port
    → parse_headers (join (key ∷ host ∷ port ∷ []) (b':' ∷ []) ∷ lines) headers
      ≡ parse_headers lines headers
unfolding parse_headers take_pair
parse_headers_port key host port lines headers is_key is_host is_port =
    rw (parse_header_parts key host (port ∷ []) headers (is_key, (is_host, (is_port, tt)))) refl
