-- ===== src/Web/Cors.antt =====
-- src/web/middleware/Cors.cpp.
use libiouring_server.Common.{ℕ, Bool, true, false, List, [], ◌∷◌, ◌++◌, if◌then◌else◌}
use libiouring_server.Common.Maps.{same, contains, text_eq}
use libiouring_server.Common.Texts.{codes, decimal}
use libiouring_server.Web.Context.{RequestContext, send_response}
use libiouring_server.Web.Method.{HttpMethod, options}
use libiouring_server.Web.Middleware.{Middleware}
use libiouring_server.Web.Request.{get_header}
use libiouring_server.Web.Response.{HttpResponse, Surroundings, no_content, set_status, header}

pub record CorsOptions : Type 0 where
  pub allowed_origins : List (List ℕ)
  pub allowed_methods : List (List ℕ)
  pub allowed_headers : List (List ℕ)
  pub allow_credentials : Bool
  pub max_age : ℕ

unfoldable pub join_behind : List ℕ → List (List ℕ) → List ℕ
join_behind sep [] = []
join_behind sep (v ∷ vs) = sep ++ (v ++ join_behind sep vs)

unfoldable pub join_strings : List ℕ → List (List ℕ) → List ℕ
join_strings sep [] = []
join_strings sep (v ∷ vs) = v ++ join_behind sep vs

unfoldable pub is_any : List (List ℕ) → Bool
is_any (origin ∷ []) = same origin (codes "*")
is_any origins = false

unfoldable pub add_origin : CorsOptions → List ℕ → HttpResponse → HttpResponse
add_origin opts origin r =
    if is_any opts.allowed_origins
    then header (codes "Access-Control-Allow-Origin") (codes "*") r
    else if contains origin opts.allowed_origins
    then header (codes "Vary") (codes "Origin")
        (header (codes "Access-Control-Allow-Origin") origin r)
    else r

unfoldable pub add_credentials : Bool → HttpResponse → HttpResponse
add_credentials allow r =
    if allow then header (codes "Access-Control-Allow-Credentials") (codes "true") r else r

unfoldable pub add_cors_headers : CorsOptions → RequestContext → RequestContext
add_cors_headers opts ctx =
    let named = add_origin opts (get_header (codes "Origin") ctx.request) ctx.response in
    let methods =
      header (codes "Access-Control-Allow-Methods") (join_strings (codes ", ") opts.allowed_methods)
        named in
    let headers =
      header (codes "Access-Control-Allow-Headers") (join_strings (codes ", ") opts.allowed_headers)
        methods in
    record ctx { response = add_credentials opts.allow_credentials headers }

unfoldable pub is_options : HttpMethod → Bool
is_options options = true
is_options _ = false

-- Cors::Process
unfoldable pub cors_process : Surroundings → CorsOptions → Middleware RequestContext
cors_process s opts next ctx =
    let c = add_cors_headers opts ctx in
    if is_options c.request.method
    then send_response s
        (header (codes "Access-Control-Max-Age") (decimal opts.max_age)
          (set_status no_content c.response))
        c
    else next c
