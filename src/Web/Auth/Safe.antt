-- ===== src/Web/Auth/Safe.antt =====
-- When the auth middlewares run what is behind them, and what they answer else.
use libiouring_server.Common.{
  ℕ, ◌≡◌, refl, ap, ◌⊎◌, inl, inr, true, false, not, ◌||◌, Bool, List, ◌∷◌, ◌++◌, if_cases, Option,
  none, some, Option-cases, length, drop, leb,
}
use libiouring_server.Common.Texts.{codes, starts_with, starts_with-split}
use libiouring_server.Jwt.Codec.{
  JwtClaims, Libraries, Decoded, bad_request, unauthorized, thrown, decoded, decode, sign, expired,
}
use libiouring_server.Jwt.Codec.Signed.{decode-signed}
use libiouring_server.Web.Auth.{
  is_excluded, is_empty, identified, authorize, bearer, check_bearer, auth_process, extract_cookie,
  check_cookie, cookie_auth_process,
}
use libiouring_server.Web.Context.{RequestContext, refuse}
use libiouring_server.Web.Request.{get_header}
use libiouring_server.Web.Response.{Surroundings}

-- A token whose signature is right and whose claims have not expired.
abbrev pub IsSigned : Libraries → ℕ → List ℕ → JwtClaims → Type 0
IsSigned l now token claims =
    (decode l now token ≡ decoded claims)
    × ((text : List ℕ) × (token ≡ text ++ 46 ∷ sign l text) × (expired claims now ≡ false))

-- An answer of a middleware that has not run what comes next: a response with status 401, or an
-- exception.
abbrev pub TurnedAway : Surroundings → RequestContext → RequestContext → Type 0
TurnedAway s ctx answer =
    ((reason : List ℕ) × (answer ≡ refuse s reason ctx)) ⊎ (answer ≡ record ctx { thrown = true })

-- Next has run on the request with the user of a signed token, or not at all.
abbrev pub Guarded :
    Surroundings
    → Libraries
    → ℕ
    → List ℕ
    → (RequestContext → RequestContext)
    → RequestContext
    → RequestContext
    → Type 0
Guarded s l now token next ctx answer =
    ((claims : JwtClaims) × IsSigned l now token claims × (answer ≡ next (identified claims ctx)))
    ⊎ TurnedAway s ctx answer

Decoded-cases :
    (d : Decoded)
    → ((claims : JwtClaims) × (d ≡ decoded claims))
      ⊎ ((d ≡ thrown) ⊎ ((d ≡ bad_request) ⊎ (d ≡ unauthorized)))
Decoded-cases (decoded claims) = inl (claims, refl)
Decoded-cases thrown = inr (inl refl)
Decoded-cases bad_request = inr (inr (inl refl))
Decoded-cases unauthorized = inr (inr (inr refl))

module _ (s : Surroundings) (l : Libraries) (now : ℕ) (next : RequestContext → RequestContext) where
  authorize-Guarded :
      (token : List ℕ) (ctx : RequestContext)
      → Guarded s l now token next ctx (authorize s (decode l now token) next ctx)
  unfolding authorize
  authorize-Guarded token ctx = elim (Decoded-cases (decode l now token)) [
    | inl (claims, e) ↦
        inl (claims, (e, decode-signed l now token claims e), ap (λ d. authorize s d next ctx) e)
    | inr (inl e) ↦ inr (inr (ap (λ d. authorize s d next ctx) e))
    | inr (inr (inl e)) ↦ inr (inl (_, ap (λ d. authorize s d next ctx) e))
    | inr (inr (inr e)) ↦ inr (inl (_, ap (λ d. authorize s d next ctx) e))
  ]

  -- The header is Bearer and a token that guards.
  abbrev pub BearerGuarded : List ℕ → RequestContext → RequestContext → Type 0
  BearerGuarded auth_header ctx answer =
      ((token : List ℕ) × (auth_header ≡ bearer ++ token) × Guarded s l now token next ctx answer)
      ⊎ TurnedAway s ctx answer

  check_bearer-Guarded :
      (auth_header : List ℕ) (ctx : RequestContext)
      → BearerGuarded auth_header ctx (check_bearer s l now auth_header next ctx)
  unfolding check_bearer
  check_bearer-Guarded auth_header ctx =
      if_cases (BearerGuarded auth_header ctx) (is_empty auth_header) (λ e. inr (inl (_, refl)))
        (λ e.
          if_cases (BearerGuarded auth_header ctx)
            (leb (length auth_header) 7 || not (starts_with bearer auth_header))
            (λ f. inr (inl (_, refl)))
            (λ f. inl (
              drop 7 auth_header,
              starts_with-split bearer auth_header (both _ _ f),
              authorize-Guarded (drop 7 auth_header) ctx,
            )))
    where
      both : (a b : Bool) → (a || not b) ≡ false → b ≡ true
      both true b h = absurd cc
      both false true h = refl
      both false false h = absurd cc

  auth_process-Guarded :
      (prefixes : List (List ℕ)) (ctx : RequestContext)
      → ((is_excluded prefixes ctx.request.path ≡ true)
          × (auth_process s l now prefixes next ctx ≡ next ctx))
        ⊎ BearerGuarded
            (get_header (codes "Authorization") ctx.request)
            ctx
            (auth_process s l now prefixes next ctx)
  unfolding auth_process
  auth_process-Guarded prefixes ctx =
      let excluded = is_excluded prefixes ctx.request.path in
      let auth_header = get_header (codes "Authorization") ctx.request in
      if_cases
        (λ (answer : RequestContext).
          ((excluded ≡ true) × (answer ≡ next ctx)) ⊎ BearerGuarded auth_header ctx answer)
        excluded (λ e. inl (e, refl)) (λ e. inr (check_bearer-Guarded auth_header ctx))

  abbrev pub CookieGuarded : List ℕ → List ℕ → RequestContext → RequestContext → Type 0
  CookieGuarded name cookie_header ctx answer =
      ((token : List ℕ) × (extract_cookie cookie_header name ≡ some token)
        × Guarded s l now token next ctx answer)
      ⊎ TurnedAway s ctx answer

  check_cookie-Guarded :
      (name cookie_header : List ℕ) (ctx : RequestContext)
      → CookieGuarded name cookie_header ctx (check_cookie s l now name cookie_header next ctx)
  unfolding check_cookie
  check_cookie-Guarded name cookie_header ctx =
      if_cases (CookieGuarded name cookie_header ctx) (is_empty cookie_header)
        (λ e. inr (inl (_, refl)))
        (λ e. elim (Option-cases (extract_cookie cookie_header name)) [
          | inl n ↦ inr (inl (_, ap found n))
          | inr (token, n) ↦ inl (token, n, rw n (authorize-Guarded token ctx))
        ])
    where
      found : Option (List ℕ) → RequestContext
      found o = elim o [
        | none ↦ refuse s (codes "{\"error\":\"token cookie not found\"}") ctx
        | some token ↦ authorize s (decode l now token) next ctx
      ]

  cookie_auth_process-Guarded :
      (name : List ℕ) (paths : List (List ℕ)) (ctx : RequestContext)
      → ((is_excluded paths ctx.request.path ≡ true)
          × (cookie_auth_process s l now name paths next ctx ≡ next ctx))
        ⊎ CookieGuarded name
            (get_header (codes "Cookie") ctx.request)
            ctx
            (cookie_auth_process s l now name paths next ctx)
  unfolding cookie_auth_process
  cookie_auth_process-Guarded name paths ctx =
      let excluded = is_excluded paths ctx.request.path in
      let cookie_header = get_header (codes "Cookie") ctx.request in
      if_cases
        (λ (answer : RequestContext).
          ((excluded ≡ true) × (answer ≡ next ctx)) ⊎ CookieGuarded name cookie_header ctx answer)
        excluded (λ e. inl (e, refl)) (λ e. inr (check_cookie-Guarded name cookie_header ctx))

  -- Auth's Process runs what comes next only on a request whose path starts with an excluded prefix,
  -- or whose Authorization header is Bearer and a token that is signed with the secret and has not
  -- expired; then next sees the request with the token's subject as its user. In any other case it
  -- answers 401, or leaves with Decode's exception, and what comes next has not run. CookieAuth's
  -- Process does the same with a token that is the value of the named cookie.
  pub processes-Guarded :
      (prefixes : List (List ℕ)) (name : List ℕ) (paths : List (List ℕ)) (ctx : RequestContext)
      → (((is_excluded prefixes ctx.request.path ≡ true)
            × (auth_process s l now prefixes next ctx ≡ next ctx))
          ⊎ BearerGuarded
              (get_header (codes "Authorization") ctx.request)
              ctx
              (auth_process s l now prefixes next ctx))
        × (((is_excluded paths ctx.request.path ≡ true)
              × (cookie_auth_process s l now name paths next ctx ≡ next ctx))
            ⊎ CookieGuarded name
                (get_header (codes "Cookie") ctx.request)
                ctx
                (cookie_auth_process s l now name paths next ctx))
  processes-Guarded prefixes name paths ctx =
      (auth_process-Guarded prefixes ctx, cookie_auth_process-Guarded name paths ctx)
