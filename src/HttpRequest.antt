-- ===== src/HttpRequest.antt =====
-- bitdb/net/http/http_request.h and http_request.cpp: the parser of a request. No result stands for
-- an access beyond a vector. String::Trim returns its result, which the parser leaves unused, so a
-- call of it changes nothing.
pub mod Pairs
pub mod Headers
pub mod Line
use bitdb.Base.{
  ℕ, Bool, true, false, not, ◌&&◌, Option, none, some, List, [], ◌∷◌, length, ◌==◌, if◌then◌else◌,
  ◌>>=◌,
}
use bitdb.Bytes.{Bytes}
use bitdb.Strings.{is_empty, contains, split, split_at_char}
use bitdb.TreeMap.{TreeMap, insert}

pub record HttpRequest : Type 0 where
  pub method : Bytes
  pub url : Bytes
  pub uri : Bytes
  pub http_version : Bytes
  pub body : Bytes
  pub headers : TreeMap Bytes
  pub url_params : TreeMap Bytes
  pub body_params : TreeMap Bytes

abbrev pub crlf : Bytes
crlf = 13 ∷ 10 ∷ []

abbrev pub blank_line : Bytes
blank_line = 13 ∷ 10 ∷ 13 ∷ 10 ∷ []

-- `if (key_value.size() == 2)`
unfoldable pub take_pair : List Bytes → TreeMap Bytes → TreeMap Bytes
take_pair [] table = table
take_pair (key ∷ []) table = table
take_pair (key ∷ value ∷ []) table = insert key value table
take_pair (key ∷ value ∷ other ∷ more) table = table

-- One round of the loop of HttpRequest::ParseHeaders
unfoldable pub parse_header : Bytes → TreeMap Bytes → Option (TreeMap Bytes)
parse_header line headers =
    if not (is_empty line) && contains line (b':' ∷ [])
    then (do key_value ← split_at_char line b':' false; some (take_pair key_value headers))
    else some headers

-- HttpRequest::ParseHeaders, behind the request line
unfoldable pub parse_headers : List Bytes → TreeMap Bytes → Option (TreeMap Bytes)
parse_headers [] headers = some headers
parse_headers (line ∷ lines) headers = do
  headers ← parse_header line headers
  parse_headers lines headers

-- The loop of HttpRequest::ParseURLParams and ParseBody
unfoldable pub take_params : List Bytes → TreeMap Bytes → Option (TreeMap Bytes)
take_params [] table = some table
take_params (param ∷ params) table = do
  key_value ← split_at_char param b'=' true
  take_params params (take_pair key_value table)

-- HttpRequest::ParseURLParams and ParseBody, which fill different tables
unfoldable pub parse_params : Bytes → TreeMap Bytes → Option (TreeMap Bytes)
parse_params text table = do params ← split_at_char text b'&' true; take_params params table

-- The parameters of the URL
unfoldable pub parse_url : List Bytes → HttpRequest → Option HttpRequest
parse_url [] r = some (record r { uri = r.url })
parse_url (uri ∷ []) r = some (record r { uri = r.url })
parse_url (uri ∷ params ∷ []) r = do
  table ← parse_params params r.url_params
  some (record r { uri = uri; url_params = table })
parse_url (uri ∷ params ∷ other ∷ more) r = some (record r { uri = r.url })

-- HttpRequest::ParseLine behind its first Split; a line of fewer than three parts is logged, and then
-- a part is read that is not there.
unfoldable pub parse_line_parts : List Bytes → HttpRequest → Option HttpRequest
parse_line_parts [] r = none
parse_line_parts (method ∷ []) r = none
parse_line_parts (method ∷ url ∷ []) r = none
parse_line_parts (method ∷ url ∷ version ∷ more) r = do
  url_datas ← split_at_char url b'&' true
  parse_url url_datas (record r { method = method; url = url; http_version = version })

-- HttpRequest::ParseLine
unfoldable pub parse_line : Bytes → HttpRequest → Option HttpRequest
parse_line line r = do line_datas ← split_at_char line b' ' true; parse_line_parts line_datas r

-- HttpRequest::Parse behind the line and the headers are split
unfoldable pub parse_head : List Bytes → Bytes → HttpRequest → Option HttpRequest
parse_head [] body r = none
parse_head (line ∷ lines) body r = do
  r ← parse_line line r
  headers ← parse_headers lines r.headers
  body_params ← parse_params body r.body_params
  some (record r { headers = headers; body_params = body_params })

-- HttpRequest::Parse behind its first Split
unfoldable pub parse_parts : List Bytes → HttpRequest → Option HttpRequest
parse_parts [] r = none
parse_parts (head ∷ []) r = none
parse_parts (head ∷ body ∷ more) r = do
  line_and_head ← split head crlf false
  parse_head line_and_head body (if is_empty body then r else record r { body = body })

-- HttpRequest::Parse; without a blank line an error is logged, and then a part is read that is not there.
unfoldable pub parse : Bytes → HttpRequest → Option HttpRequest
parse text r = do head_and_body ← split text blank_line true; parse_parts head_and_body r
