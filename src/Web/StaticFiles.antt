-- ===== src/Web/StaticFiles.antt =====
-- src/web/middleware/StaticFiles.cpp. What std::filesystem, stat, std::ifstream and strftime answer
-- is a parameter; a path is its text.
pub mod Inside
mod Examples
use libiouring_server.Common.{
  ℕ, Bool, true, false, not, ◌||◌, List, [], ◌∷◌, ◌++◌, if◌then◌else◌, Option, none, some, length,
  drop, resize, ltb, ◌==◌,
}
use libiouring_server.Common.Maps.{find, same, text_eq}
use libiouring_server.Common.Texts.{codes, decimal, starts_with}
use libiouring_server.Web.Context.{RequestContext, send_response}
use libiouring_server.Web.Method.{HttpMethod, get, head}
use libiouring_server.Web.Request.{HttpRequest, get_header}
use libiouring_server.Web.Response.{
  HttpResponse, Surroundings, k_ok, not_modified, forbidden, payload_too_large, set_status, header,
  set_content_type, set_body,
}

pub record Files : Type 0 where
  pub canonical : List ℕ → Option (List ℕ)
  pub join : List ℕ → List ℕ → List ℕ
  pub is_directory : List ℕ → Bool
  pub is_regular_file : List ℕ → Bool
  pub size_and_mtime : List ℕ → Option (ℕ × ℕ)
  pub read : List ℕ → Option (List ℕ)
  pub extension : List ℕ → List ℕ
  pub time_text : ℕ → List ℕ

pub record StaticFilesOptions : Type 0 where
  pub prefix : List ℕ
  pub enable_etag : Bool
  pub enable_last_modified : Bool
  pub max_age : ℕ
  pub index_files : List (List ℕ)
  pub max_file_size : ℕ

pub record StaticFiles : Type 0 where
  pub opts : StaticFilesOptions
  pub resolved_root : List ℕ

-- Whether a text ends in a slash.
unfoldable pub ends_in_slash : List ℕ → Bool
ends_in_slash [] = false
ends_in_slash (c ∷ []) = c == 47
ends_in_slash (c ∷ d ∷ s) = ends_in_slash (d ∷ s)

unfoldable pub close_prefix : List ℕ → List ℕ
close_prefix [] = []
close_prefix (c ∷ s) = if ends_in_slash (c ∷ s) then c ∷ s else c ∷ s ++ 47 ∷ []

unfoldable pub open_prefix : List ℕ → List ℕ
open_prefix [] = 47 ∷ []
open_prefix (c ∷ s) = if c == 47 then c ∷ s else 47 ∷ c ∷ s

unfoldable pub new_static_files : Files → List ℕ → StaticFilesOptions → StaticFiles
new_static_files files root opts = record {
  opts = record opts { prefix = open_prefix (close_prefix opts.prefix) };
  resolved_root = elim (files.canonical root) [ none ↦ root | some canonical ↦ canonical ];
}

abbrev pub mime_types : List (List ℕ × List ℕ)
mime_types =
    (codes ".html", codes "text/html; charset=utf-8")
    ∷ (codes ".htm", codes "text/html; charset=utf-8")
    ∷ (codes ".css", codes "text/css; charset=utf-8")
    ∷ (codes ".js", codes "application/javascript; charset=utf-8")
    ∷ (codes ".json", codes "application/json; charset=utf-8")
    ∷ (codes ".xml", codes "application/xml; charset=utf-8")
    ∷ (codes ".txt", codes "text/plain; charset=utf-8")
    ∷ (codes ".csv", codes "text/csv; charset=utf-8")
    ∷ (codes ".png", codes "image/png")
    ∷ (codes ".jpg", codes "image/jpeg")
    ∷ (codes ".jpeg", codes "image/jpeg")
    ∷ (codes ".gif", codes "image/gif")
    ∷ (codes ".svg", codes "image/svg+xml")
    ∷ (codes ".ico", codes "image/x-icon")
    ∷ (codes ".webp", codes "image/webp")
    ∷ (codes ".avif", codes "image/avif")
    ∷ (codes ".bmp", codes "image/bmp")
    ∷ (codes ".woff", codes "font/woff")
    ∷ (codes ".woff2", codes "font/woff2")
    ∷ (codes ".ttf", codes "font/ttf")
    ∷ (codes ".otf", codes "font/otf")
    ∷ (codes ".eot", codes "application/vnd.ms-fontobject")
    ∷ (codes ".wasm", codes "application/wasm")
    ∷ (codes ".pdf", codes "application/pdf")
    ∷ (codes ".zip", codes "application/zip")
    ∷ (codes ".gz", codes "application/gzip")
    ∷ (codes ".mp4", codes "video/mp4")
    ∷ (codes ".webm", codes "video/webm")
    ∷ (codes ".mp3", codes "audio/mpeg")
    ∷ (codes ".ogg", codes "audio/ogg")
    ∷ (codes ".wav", codes "audio/wav")
    ∷ (codes ".map", codes "application/json")
    ∷ []

unfoldable pub mime_from_extension : List ℕ → List ℕ
mime_from_extension ext = elim (find ext mime_types) [
  | none ↦ codes "application/octet-stream"
  | some mime ↦ mime
]

-- mtime is not negative.
unfoldable pub generate_etag : ℕ → ℕ → List ℕ
generate_etag size mtime = codes "W/\"" ++ (decimal size ++ (45 ∷ (decimal mtime ++ 34 ∷ [])))

unfoldable pub is_get : HttpMethod → Bool
is_get get = true
is_get _ = false

unfoldable pub is_head : HttpMethod → Bool
is_head head = true
is_head _ = false

module _ (s : Surroundings) (files : Files) (m : StaticFiles) where
  -- The first index file that there is.
  unfoldable pub first_index : List ℕ → List (List ℕ) → Option (List ℕ)
  first_index path [] = none
  first_index path (idx ∷ rest) =
      let later = first_index path rest in
      if files.is_regular_file (files.join path idx) then some (files.join path idx) else later

  unfoldable pub indexed : List ℕ → Option (List ℕ)
  indexed path = if files.is_directory path then first_index path m.opts.index_files else some path

  unfoldable pub add_modified : ℕ → RequestContext → RequestContext
  add_modified mtime ctx =
      if m.opts.enable_last_modified
      then record ctx {
        response = header (codes "Last-Modified") (files.time_text mtime) ctx.response;
      }
      else ctx

  unfoldable pub add_type : List ℕ → RequestContext → RequestContext
  add_type resolved ctx = record ctx {
    response = set_content_type (mime_from_extension (files.extension resolved)) (
        header (codes "Cache-Control") (codes "public, max-age=" ++ decimal m.opts.max_age)
          ctx.response);
  }

  unfoldable pub send_file :
      List ℕ → ℕ → (RequestContext → RequestContext) → RequestContext → RequestContext
  send_file resolved size next ctx =
      if is_head ctx.request.method
      then send_response s
          (header (codes "Content-Length") (decimal size) (set_status k_ok ctx.response)) ctx
      else elim (files.read resolved) [
        | none ↦ next ctx
        | some content ↦
            send_response s (set_body (resize size 0 content) (set_status k_ok ctx.response)) ctx
      ]

  unfoldable pub add_headers_and_send :
      List ℕ → ℕ → ℕ → (RequestContext → RequestContext) → RequestContext → RequestContext
  add_headers_and_send resolved size mtime next ctx =
      send_file resolved size next (add_type resolved (add_modified mtime ctx))

  unfoldable pub check_etag :
      List ℕ → ℕ → ℕ → (RequestContext → RequestContext) → RequestContext → RequestContext
  check_etag resolved size mtime next ctx =
      let etag = generate_etag size mtime in
      let tagged = header (codes "ETag") etag ctx.response in
      if m.opts.enable_etag
      then (if same (get_header (codes "If-None-Match") ctx.request) etag
          then send_response s (header (codes "ETag") etag (set_status not_modified ctx.response))
              ctx
          else add_headers_and_send resolved size mtime next (record ctx { response = tagged }))
      else add_headers_and_send resolved size mtime next ctx

  unfoldable pub check_size :
      List ℕ → ℕ → ℕ → (RequestContext → RequestContext) → RequestContext → RequestContext
  check_size resolved size mtime next ctx =
      if ltb m.opts.max_file_size size
      then send_response s
          (set_body (codes "File Too Large")
            (set_content_type (codes "text/plain") (set_status payload_too_large ctx.response)))
          ctx
      else check_etag resolved size mtime next ctx

  unfoldable pub check_resolved :
      List ℕ → (RequestContext → RequestContext) → RequestContext → RequestContext
  check_resolved resolved next ctx =
      if not (starts_with m.resolved_root resolved)
      then send_response s
          (set_body (codes "Forbidden")
            (set_content_type (codes "text/plain") (set_status forbidden ctx.response)))
          ctx
      else if not (files.is_regular_file resolved)
      then next ctx
      else elim (files.size_and_mtime resolved) [
        | none ↦ next ctx
        | some (size, mtime) ↦ check_size resolved size mtime next ctx
      ]

  unfoldable pub serve :
      List ℕ → (RequestContext → RequestContext) → RequestContext → RequestContext
  serve path next ctx = elim (indexed path) [
    | none ↦ next ctx
    | some fs_path ↦ elim (files.canonical fs_path) [
      | none ↦ next ctx
      | some resolved ↦ check_resolved resolved next ctx
    ]
  ]

  unfoldable pub process : (RequestContext → RequestContext) → RequestContext → RequestContext
  process next ctx =
      if not (is_get ctx.request.method || is_head ctx.request.method)
      then next ctx
      else if not (starts_with m.opts.prefix ctx.request.path)
      then next ctx
      else serve (files.join m.resolved_root (drop (length m.opts.prefix) ctx.request.path)) next
          ctx
