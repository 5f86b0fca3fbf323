-- ===== src/Web/Request.antt =====
-- include/serverweb/HttpRequest.h, and ParseUrl of src/web/HttpParser.cpp. Texts are lists of codes;
-- the views that the lazily parsed parameters keep of the query are their texts, so that the request
-- is taken not to move in memory while they are in use.
pub mod Parameters
mod Examples
use libiouring_server.Common.{
  ℕ, zero, suc, ◌+◌, ◌-◌, ◌^◌, Bool, true, false, ◌&&◌, List, [], ◌∷◌, ◌++◌, if◌then◌else◌, Option,
  none, some, length, leb, ◌==◌,
}
use libiouring_server.Common.Maps.{same, find, text_eq}
use libiouring_server.Common.Texts.{before, behind, from_chars, codes}
use libiouring_server.Web.Method.{HttpMethod, unknown}

pub record Header : Type 0 where
  pub name : List ℕ
  pub value : List ℕ

pub record HttpRequest : Type 0 where
  pub method : HttpMethod
  pub path : List ℕ
  pub query : List ℕ
  pub body : List ℕ
  pub keep_alive : Bool
  pub authenticated_user_id : List ℕ
  pub headers : List Header
  pub params : List (List ℕ × List ℕ)
  pub query_parsed : Bool
  pub query_params : List (List ℕ × List ℕ)

abbrev pub new_request : HttpRequest
new_request = record {
  method = unknown;
  path = [];
  query = [];
  body = [];
  keep_alive = true;
  authenticated_user_id = [];
  headers = [];
  params = [];
  query_parsed = false;
  query_params = [];
}

unfoldable pub clear : HttpRequest → HttpRequest
clear r = record r {
  method = unknown;
  path = [];
  query = [];
  body = [];
  headers = [];
  keep_alive = true;
  query_parsed = false;
  query_params = [];
  params = [];
  authenticated_user_id = [];
}

unfoldable pub to_lower : ℕ → ℕ
to_lower c = if leb 65 c && leb c 90 then c + 32 else c

-- The loop behind the test of the sizes.
unfoldable pub letters_equal : List ℕ → List ℕ → Bool
letters_equal [] b = true
letters_equal (x ∷ a) [] = false
letters_equal (x ∷ a) (y ∷ b) =
    let rest = letters_equal a b in if to_lower x == to_lower y then rest else false

unfoldable pub case_insensitive_equal : List ℕ → List ℕ → Bool
case_insensitive_equal a b = if length a == length b then letters_equal a b else false

unfoldable pub header_value : List ℕ → List Header → List ℕ
header_value name [] = []
header_value name (h ∷ hs) =
    let rest = header_value name hs in if case_insensitive_equal h.name name then h.value else rest

unfoldable pub get_header : List ℕ → HttpRequest → List ℕ
get_header name r = header_value name r.headers

unfoldable pub among_headers : List ℕ → List Header → Bool
among_headers name [] = false
among_headers name (h ∷ hs) =
    let rest = among_headers name hs in if case_insensitive_equal h.name name then true else rest

unfoldable pub has_header : List ℕ → HttpRequest → Bool
has_header name r = among_headers name r.headers

unfoldable pub add_header : List ℕ → List ℕ → HttpRequest → HttpRequest
add_header name value r = record r {
  headers = r.headers ++ (record { name = name; value = value }) ∷ [];
}

unfoldable pub content_type_of : HttpRequest → List ℕ
content_type_of r = get_header (codes "Content-Type") r

-- A std::uint64_t; from_chars leaves it 0 where it fails.
unfoldable pub content_length_of : HttpRequest → ℕ
content_length_of r = elim (from_chars (2 ^ 64 - 1) (get_header (codes "Content-Length") r)) [
  | none ↦ 0
  | some n ↦ n
]

unfoldable pub value_or_empty : Option (List ℕ) → List ℕ
value_or_empty none = []
value_or_empty (some v) = v

-- A pair of the query, from the text between two &.
unfoldable pub key_value : List ℕ → List ℕ × List ℕ
key_value pair = (before 61 pair, value_or_empty (behind 61 pair))

unfoldable pub after_pair :
    (List ℕ → Option (List (List ℕ × List ℕ)))
    → List ℕ × List ℕ
    → Option (List ℕ)
    → Option (List (List ℕ × List ℕ))
after_pair go kv none = some (kv ∷ [])
after_pair go kv (some q) = elim (go q) [ none ↦ none | some later ↦ some (kv ∷ later) ]

-- The loop of ParseQueryParams; it answers none when the rounds are used up.
unfoldable pub pairs_loop : ℕ → List ℕ → Option (List (List ℕ × List ℕ))
pairs_loop n [] = some []
pairs_loop zero (c ∷ cs) = none
pairs_loop (suc n) (c ∷ cs) =
    after_pair (pairs_loop n) (key_value (before 38 (c ∷ cs))) (behind 38 (c ∷ cs))

-- A round takes at least one character, so as many rounds as characters are enough.
unfoldable pub query_pairs : List ℕ → List (List ℕ × List ℕ)
query_pairs q = elim (pairs_loop (length q) q) [ none ↦ [] | some pairs ↦ pairs ]

unfoldable pub parse_query_params : HttpRequest → HttpRequest
parse_query_params r = record r {
  query_parsed = true;
  query_params = r.query_params ++ query_pairs r.query;
}

unfoldable pub query_param : List ℕ → HttpRequest → HttpRequest × List ℕ
query_param name r =
    let parsed = if r.query_parsed then r else parse_query_params r in
    (parsed, value_or_empty (find name parsed.query_params))

unfoldable pub param : List ℕ → HttpRequest → List ℕ
param name r = value_or_empty (find name r.params)

unfoldable pub has_param : List ℕ → HttpRequest → Bool
has_param name r = elim (find name r.params) [ none ↦ false | some v ↦ true ]

unfoldable pub set_params : List (List ℕ × List ℕ) → HttpRequest → HttpRequest
set_params ps r = record r { params = ps }

unfoldable pub clear_params : HttpRequest → HttpRequest
clear_params r = record r { params = [] }

-- HttpParser::ParseUrl
unfoldable pub parse_url : List ℕ → HttpRequest → HttpRequest
parse_url url r = elim (behind 63 url) [
  | some q ↦ record r { path = before 63 url; query = q }
  | none ↦ record r { path = url; query = [] }
]
