-- ===== src/HttpRequest/Line.antt =====
-- bitdb/net/http/http_request.cpp: ParseLine.
use bitdb.Base.{ℕ, ◌≡◌, refl, true, some, List, [], ◌∷◌, ◌++◌, All}
use bitdb.Bytes.{Bytes}
use bitdb.Strings.{split_at_char, join}
use bitdb.Strings.Split.{join_lem, joined_tail}
use bitdb.Strings.Parts.{Lacks, split_at_char-join}
use bitdb.HttpRequest.{HttpRequest, parse_line, parse_line_parts, parse_url}
use bitdb.HttpRequest.Pairs.{nonempty_pair}

-- Split of two parts or more that a character joins.
split_parts :
    (c : ℕ) (first second : Bytes) (more : List Bytes)
    → All (Lacks c) (first ∷ second ∷ more)
    → split_at_char (join (first ∷ second ∷ more) (c ∷ [])) c true ≡ some (first ∷ second ∷ more)
split_parts c first second more lacks = split_at_char-join c first (second ∷ more) lacks.0 lacks.1 (
    rw (join_lem first (c ∷ []) (second ∷ more))
      (nonempty_pair c first (second ++ joined_tail (c ∷ []) more)))

-- Where the URL has two parameters or more, behind an & each, ParseLine takes none of them: the URI
-- is the whole URL, and the table of the parameters stays as it was. The line is a method, the URL and
-- a version with a blank between them and none in them, and the path and the parameters have no &.
pub parse_line_params :
    (method path first second version : Bytes) (more : List Bytes) (r : HttpRequest)
    → All (Lacks b'&') (path ∷ first ∷ second ∷ more)
    → All (Lacks b' ') (method ∷ join (path ∷ first ∷ second ∷ more) (b'&' ∷ []) ∷ version ∷ [])
    → parse_line
        (join (method ∷ join (path ∷ first ∷ second ∷ more) (b'&' ∷ []) ∷ version ∷ []) (b' ' ∷ []))
        r
      ≡ some (record r {
        method = method;
        url = join (path ∷ first ∷ second ∷ more) (b'&' ∷ []);
        uri = join (path ∷ first ∷ second ∷ more) (b'&' ∷ []);
        http_version = version;
      })
unfolding parse_line parse_line_parts parse_url
parse_line_params method path first second version more r no_and no_blank =
    let url = join (path ∷ first ∷ second ∷ more) (b'&' ∷ []) in
    let line = split_parts b' ' method url (version ∷ []) no_blank in
    let params = split_parts b'&' path first (second ∷ more) no_and in rw (line, params) refl
