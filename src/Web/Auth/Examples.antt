-- ===== src/Web/Auth/Examples.antt =====
-- A request with a token, in a header and in a cookie.
use libiouring_server.Common.{
  ◌≡◌, refl, ap, ◌⊎◌, true, false, [], ◌∷◌, ◌++◌, none, some, length, arith,
}
use libiouring_server.Common.Maps.{text_eq}
use libiouring_server.Common.Texts.{codes}
use libiouring_server.Jwt.Codec.{JwtClaims, parsed, Libraries}
use libiouring_server.Jwt.Codec.Tokens.{IsReadable}
use libiouring_server.Web.Auth.{is_excluded, bearer, auth_process, cookie_auth_process}
use libiouring_server.Web.Auth.Accepts.{auth_process-login}
use libiouring_server.Web.Auth.Safe.{BearerGuarded, CookieGuarded, processes-Guarded}
use libiouring_server.Web.AuthService.{
  AuthConfig, token, issued_claims, issue_tokens, login_by_device_id,
}
use libiouring_server.Web.Context.{RequestContext}
use libiouring_server.Web.Request.{
  new_request, to_lower, letters_equal, case_insensitive_equal, header_value, get_header,
}
use libiouring_server.Web.Response.{Surroundings, new_response}

abbrev here : Surroundings
here = record { date = []; room = λ n. true }

abbrev config : AuthConfig
config = record { access_token_ttl = 900; refresh_token_ttl = 604800 }

abbrev claims : JwtClaims
claims = record { sub = 117 ∷ []; device_id = 100 ∷ []; iat = 1; exp = 901 }

abbrev codec : Libraries
codec = record {
  hmac = λ text. length text ∷ [];
  header_text = 72 ∷ [];
  dump = λ c. 7 ∷ [];
  parse = λ text. parsed claims;
}

abbrev asking : RequestContext
asking = record {
  request = record new_request {
    headers =
        record {
          name = codes "authorization";
          value = bearer ++ (issue_tokens codec config [] 1 (117 ∷ []) (100 ∷ [])).access_token;
        }
        ∷ [];
  };
  response = new_response true;
  handed_over = [];
  thrown = false;
}

processes-Guarded_example :
    (((is_excluded [] [] ≡ true) × (auth_process here codec 5 [] (λ c. c) asking ≡ asking))
      ⊎ BearerGuarded here codec 5
          (λ c. c)
          (get_header (codes "Authorization") asking.request)
          asking
          (auth_process here codec 5 [] (λ c. c) asking))
    × (((is_excluded [] [] ≡ true)
          × (cookie_auth_process here codec 5 (codes "token") [] (λ c. c) asking ≡ asking))
        ⊎ CookieGuarded here codec 5
            (λ c. c)
            (codes "token")
            (get_header (codes "Cookie") asking.request)
            asking
            (cookie_auth_process here codec 5 (codes "token") [] (λ c. c) asking))
processes-Guarded_example = processes-Guarded here codec 5 (λ c. c) [] (codes "token") [] asking

claims-IsReadable : IsReadable codec (issued_claims config 1 (117 ∷ []) (100 ∷ []))
unfolding issued_claims
claims-IsReadable = record {
  bytes = (omega arith, tt);
  not_empty = λ e. absurd (omega (arith, ap length e));
  read_back = refl;
}

excluded_none : is_excluded [] [] ≡ false
unfolding is_excluded
excluded_none = refl

authorization :
    get_header (codes "Authorization") asking.request
    ≡ bearer ++ (issue_tokens codec config [] 1 (117 ∷ []) (100 ∷ [])).access_token
unfolding get_header header_value case_insensitive_equal letters_equal to_lower
authorization = refl

auth_process-login_example :
    ((login_by_device_id codec config [] 1 (100 ∷ []) (some (117 ∷ [])) none).1
      ≡ token (issue_tokens codec config [] 1 (117 ∷ []) (100 ∷ [])))
    × (auth_process here codec 5 [] (λ c. c) asking
        ≡ record asking { request = record asking.request { authenticated_user_id = 117 ∷ [] } })
auth_process-login_example =
    auth_process-login here codec config [] 1 5 (100 ∷ []) (117 ∷ []) (some (117 ∷ [])) none []
      (λ c. c) asking refl claims-IsReadable (omega arith) (omega arith) excluded_none authorization
