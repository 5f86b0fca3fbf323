-- ===== src/Web/Auth.antt =====
-- The middlewares src/web/middleware/Auth.cpp and src/web/middleware/CookieAuth.cpp, over Decode of
-- the tokens. An exception of Decode leaves Process.
pub mod Safe
pub mod Cookies
pub mod Accepts
mod Examples
use libiouring_server.Common.{
  ℕ, zero, suc, Bool, true, false, not, ◌||◌, List, [], ◌∷◌, if◌then◌else◌, Option, none, some,
  length, take, drop, leb, ◌==◌,
}
use libiouring_server.Common.Maps.{same, text_eq}
use libiouring_server.Common.Texts.{codes, before, behind, starts_with}
use libiouring_server.Jwt.Codec.{
  JwtClaims, Libraries, Decoded, bad_request, unauthorized, thrown, decoded, decode,
}
use libiouring_server.Web.Context.{RequestContext, refuse}
use libiouring_server.Web.Middleware.{Middleware}
use libiouring_server.Web.Request.{HttpRequest, get_header}
use libiouring_server.Web.Response.{Surroundings}

unfoldable pub is_excluded : List (List ℕ) → List ℕ → Bool
is_excluded [] path = false
is_excluded (prefix ∷ prefixes) path =
    let rest = is_excluded prefixes path in if starts_with prefix path then true else rest

unfoldable pub is_empty : List ℕ → Bool
is_empty [] = true
is_empty (c ∷ cs) = false

unfoldable pub identified : JwtClaims → RequestContext → RequestContext
identified claims ctx = record ctx {
  request = record ctx.request { authenticated_user_id = claims.sub };
}

-- Behind Decode, in both middlewares.
unfoldable pub authorize : Surroundings → Decoded → Middleware RequestContext
authorize s (decoded claims) next ctx = next (identified claims ctx)
authorize s thrown next ctx = record ctx { thrown = true }
authorize s bad_request next ctx = refuse s (codes "{\"error\":\"invalid or expired token\"}") ctx
authorize s unauthorized next ctx = refuse s (codes "{\"error\":\"invalid or expired token\"}") ctx

abbrev pub bearer : List ℕ
bearer = codes "Bearer "

unfoldable pub check_bearer : Surroundings → Libraries → ℕ → List ℕ → Middleware RequestContext
check_bearer s l now auth_header next ctx =
    if is_empty auth_header
    then refuse s (codes "{\"error\":\"missing authorization header\"}") ctx
    else if leb (length auth_header) 7 || not (starts_with bearer auth_header)
    then refuse s (codes "{\"error\":\"invalid authorization format\"}") ctx
    else authorize s (decode l now (drop 7 auth_header)) next ctx

-- Auth::Process
unfoldable pub auth_process :
    Surroundings → Libraries → ℕ → List (List ℕ) → Middleware RequestContext
auth_process s l now exclude_prefixes next ctx =
    if is_excluded exclude_prefixes ctx.request.path
    then next ctx
    else check_bearer s l now (get_header (codes "Authorization") ctx.request) next ctx

unfoldable pub skip_blanks : List ℕ → List ℕ
skip_blanks [] = []
skip_blanks (c ∷ cs) = let rest = skip_blanks cs in if c == 32 then rest else c ∷ cs

unfoldable pub cut_blanks : List ℕ → List ℕ
cut_blanks [] = []
cut_blanks (c ∷ cs) =
    let rest = cut_blanks cs in
    if is_empty rest then (if c == 32 then [] else c ∷ rest) else c ∷ rest

-- The value of a pair of the cookie header, if its key is the name.
unfoldable pub cookie_value : List ℕ → List ℕ → Option (List ℕ)
cookie_value name pair = elim (behind 61 pair) [
  | none ↦ none
  | some value ↦ if same (cut_blanks (before 61 pair)) name then some value else none
]

unfoldable pub after_cookie :
    (List ℕ → Option (Option (List ℕ)))
    → Option (List ℕ)
    → Option (List ℕ)
    → Option (Option (List ℕ))
after_cookie go (some value) behind_semi = some (some value)
after_cookie go none none = some none
after_cookie go none (some remaining) = go remaining

unfoldable pub cookie_round :
    (List ℕ → Option (Option (List ℕ))) → List ℕ → List ℕ → Option (Option (List ℕ))
cookie_round go name remaining =
    after_cookie go (cookie_value name (before 59 remaining)) (behind 59 remaining)

-- The loop of ExtractCookie; it answers none when the rounds are used up.
unfoldable pub cookie_loop : ℕ → List ℕ → List ℕ → Option (Option (List ℕ))
cookie_loop n name [] = some none
cookie_loop zero name (c ∷ cs) = none
cookie_loop (suc n) name (c ∷ cs) = cookie_round (cookie_loop n name) name (skip_blanks (c ∷ cs))

-- A round that goes on takes a semicolon, so as many rounds as characters are enough.
unfoldable pub extract_cookie : List ℕ → List ℕ → Option (List ℕ)
extract_cookie cookie_header name =
    if is_empty cookie_header
    then none
    else elim (cookie_loop (length cookie_header) name cookie_header) [
      | none ↦ none
      | some found ↦ found
    ]

unfoldable pub check_cookie :
    Surroundings → Libraries → ℕ → List ℕ → List ℕ → Middleware RequestContext
check_cookie s l now cookie_name cookie_header next ctx =
    if is_empty cookie_header
    then refuse s (codes "{\"error\":\"not authenticated\"}") ctx
    else elim (extract_cookie cookie_header cookie_name) [
      | none ↦ refuse s (codes "{\"error\":\"token cookie not found\"}") ctx
      | some token ↦ authorize s (decode l now token) next ctx
    ]

-- CookieAuth::Process
unfoldable pub cookie_auth_process :
    Surroundings → Libraries → ℕ → List ℕ → List (List ℕ) → Middleware RequestContext
cookie_auth_process s l now cookie_name exclude_paths next ctx =
    if is_excluded exclude_paths ctx.request.path
    then next ctx
    else check_cookie s l now cookie_name (get_header (codes "Cookie") ctx.request) next ctx
