-- ===== src/Web/Auth/Accepts.antt =====
-- Auth on a token that AuthService has issued.
use libiouring_server.Common.{
  ℕ, ◌+◌, ◌^◌, ◌≤◌, ◌<◌, ◌≡◌, refl, ap, ◌∙◌, false, List, ◌∷◌, ◌++◌, if◌then◌else◌, Option, none,
  some, length, length-append, leb, arith,
}
use libiouring_server.Common.Texts.{codes, starts_with}
use libiouring_server.Jwt.Codec.{
  JwtClaims, Libraries, unauthorized, decoded, sign, header_payload, encode, expired, decode,
}
use libiouring_server.Jwt.Codec.Tokens.{IsReadable, decode-encode_claims}
use libiouring_server.Web.Auth.{
  is_excluded, is_empty, identified, authorize, bearer, check_bearer, auth_process,
}
use libiouring_server.Web.AuthService.{
  AuthConfig, token, issued_claims, issue_tokens, store_token, new_user, login_by_device_id,
}
use libiouring_server.Web.Context.{RequestContext}
use libiouring_server.Web.Request.{get_header}
use libiouring_server.Web.Response.{Surroundings}

length-encode : (l : Libraries) (claims : JwtClaims) → 0 < length (encode l claims)
unfolding encode
length-encode l claims =
    omega (arith, length-append (header_payload l claims) (46 ∷ sign l (header_payload l claims)))

length-bearer : (text : List ℕ) → 0 < length text → leb (length (bearer ++ text)) 7 ≡ false
length-bearer text h = ground arith

check_bearer-token :
    (s : Surroundings) (l : Libraries) (now : ℕ) (text : List ℕ)
    (next : RequestContext → RequestContext) (ctx : RequestContext)
    → 0 < length text
    → check_bearer s l now (bearer ++ text) next ctx ≡ authorize s (decode l now text) next ctx
unfolding check_bearer is_empty starts_with
check_bearer-token s l now text next ctx h = rw (length-bearer text h) refl

issued-fresh :
    (config : AuthConfig) (now later : ℕ) (user device : List ℕ)
    → now + config.access_token_ttl < 2 ^ 63
    → later ≤ now + config.access_token_ttl
    → expired (issued_claims config now user device) later ≡ false
unfolding expired issued_claims
issued-fresh config now later user device h k = ground arith

-- The user whom LoginByDeviceId answers for a device that is known, or that has been made known by
-- its second query.
abbrev pub user_of : Option (List ℕ) → Option (List ℕ) → Option (List ℕ)
user_of (some user) inserted = some user
user_of none inserted = inserted

login-issued :
    (l : Libraries) (config : AuthConfig) (random : List ℕ) (now : ℕ) (device user : List ℕ)
    (known inserted : Option (List ℕ))
    → user_of known inserted ≡ some user
    → (login_by_device_id l config random now device known inserted).1
      ≡ token (issue_tokens l config random now user device)
unfolding login_by_device_id new_user store_token
login-issued l config random now device user (some u) inserted h =
    ap
      (λ o. elim o [
        | none ↦ token (issue_tokens l config random now user device)
        | some z ↦ token (issue_tokens l config random now z device)
      ])
      h
login-issued l config random now device user none (some u) h =
    ap
      (λ o. elim o [
        | none ↦ token (issue_tokens l config random now user device)
        | some z ↦ token (issue_tokens l config random now z device)
      ])
      h
login-issued l config random now device user none none h = absurd cc

-- Where the database knows the device's user or has made one, LoginByDeviceId answers a token; a
-- request that carries its access token behind Bearer in the Authorization header, to a path that is
-- not excluded, and no later than the token's time to live after that, gets through Auth as that
-- user. The payload is one that the JSON library reads back, and the clock is below 2 ^ 63.
pub auth_process-login :
    (s : Surroundings) (l : Libraries) (config : AuthConfig) (random : List ℕ) (now later : ℕ)
    (device user : List ℕ) (known inserted : Option (List ℕ)) (prefixes : List (List ℕ))
    (next : RequestContext → RequestContext) (ctx : RequestContext)
    → user_of known inserted ≡ some user
    → IsReadable l (issued_claims config now user device)
    → now + config.access_token_ttl < 2 ^ 63
    → later ≤ now + config.access_token_ttl
    → is_excluded prefixes ctx.request.path ≡ false
    → get_header (codes "Authorization") ctx.request
      ≡ bearer ++ (issue_tokens l config random now user device).access_token
    → ((login_by_device_id l config random now device known inserted).1
        ≡ token (issue_tokens l config random now user device))
      × (auth_process s l later prefixes next ctx
          ≡ next (record ctx { request = record ctx.request { authenticated_user_id = user } }))
unfolding auth_process issue_tokens authorize identified issued_claims
auth_process-login s l config random now later device user known inserted prefixes next ctx u r h k
      e a =
    let claims = issued_claims config now user device in
    let text = encode l claims in
    let accepted : decode l later text ≡ decoded claims =
      decode-encode_claims l later claims r
      ∙ ap (λ b. if b then unauthorized else decoded claims)
          (issued-fresh config now later user device h k) in
    (
      login-issued l config random now device user known inserted u,
      ap
            (λ b.
              if b
              then next ctx
              else check_bearer s l later (get_header (codes "Authorization") ctx.request) next ctx)
            e
          ∙ ap (λ z. check_bearer s l later z next ctx) a
          ∙ check_bearer-token s l later text next ctx (length-encode l claims)
          ∙ ap (λ d. authorize s d next ctx) accepted,
    )
