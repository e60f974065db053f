-- ===== src/Examples/Requests.antt =====
-- A request at concrete inputs.
use bitdb.Base.{◌≡◌, refl, arith, some, none, List, [], ◌∷◌, ◌++◌, Option}
use bitdb.Bytes.{Bytes}
use bitdb.TreeMap.{insert}
use bitdb.Strings.{join, same, starts_with, find, contains, split, split_at_char, split_loop}
use bitdb.HttpRequest.{
  HttpRequest, parse, parse_parts, parse_head, parse_line, parse_line_parts, parse_url,
  parse_params, parse_headers, parse_header, take_params, take_pair, crlf, blank_line,
}
use bitdb.HttpRequest.Pairs.{parse_params_joined, param_texts, insert_all}

abbrev no_request : HttpRequest
no_request = record {
  method = [];
  url = [];
  uri = [];
  http_version = [];
  body = [];
  headers = [];
  url_params = [];
  body_params = [];
}

-- `GET /f&k=v 1`, a header `a:b`, one with a port, and no body
abbrev text : Bytes
text =
    b'G' ∷ b' ' ∷ b'/' ∷ b'&' ∷ b'k' ∷ b'=' ∷ b'v' ∷ b' ' ∷ b'1' ∷ crlf
    ++ (b'a' ∷ b':' ∷ b' ' ∷ b'b' ∷ crlf)
    ++ (b'h' ∷ b':' ∷ b'l' ∷ b':' ∷ b'8' ∷ blank_line)

abbrev uri_of : Option HttpRequest → Bytes
uri_of none = []
uri_of (some r) = r.uri

found_uri : uri_of (parse text no_request) ≡ b'/' ∷ []
unfolding parse parse_parts parse_head parse_line parse_line_parts parse_url parse_params
    parse_headers parse_header take_params take_pair contains split_at_char split split_loop find
    starts_with same insert
found_uri = refl

abbrev pairs : List (Bytes × Bytes)
pairs = (b'n' ∷ [], b'p' ∷ b' ' ∷ []) ∷ []

parse_params_joined_example :
    parse_params (join (param_texts ((b'k' ∷ [], b'v' ∷ []) ∷ pairs)) (b'&' ∷ [])) []
    ≡ some (insert_all ((b'k' ∷ [], b'v' ∷ []) ∷ pairs) [])
parse_params_joined_example = parse_params_joined (b'k' ∷ []) (b'v' ∷ []) pairs [] (
  (((omega arith, tt), (omega arith, tt)), ((omega arith, tt), (omega arith, tt))),
  (
    (
      ((omega arith, tt), (omega arith, (omega arith, tt))),
      ((omega arith, tt), (omega arith, (omega arith, tt))),
    ),
    tt,
  ),
)
