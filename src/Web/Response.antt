-- ===== src/Web/Response.antt =====
-- include/serverweb/HttpStatus.h and src/web/HttpResponse.cpp. The time of day as strftime writes it,
-- and whether the pool has a buffer of a size, are parameters.
use libiouring_server.Common.{
  ℕ, Bool, true, false, List, [], ◌∷◌, ◌++◌, if◌then◌else◌, length, ltb, none, some,
}
use libiouring_server.Common.Word.{u32}
use libiouring_server.Common.Maps.{find, nat_eq}
use libiouring_server.Common.Texts.{codes, decimal}
use libiouring_server.Web.Request.{Header}

-- enum class HttpStatus : std::uint16_t. The proxy casts any number to it.
abbrev pub k_ok : ℕ
k_ok = 200

abbrev pub created : ℕ
created = 201

abbrev pub no_content : ℕ
no_content = 204

abbrev pub moved_permanently : ℕ
moved_permanently = 301

abbrev pub found : ℕ
found = 302

abbrev pub not_modified : ℕ
not_modified = 304

abbrev pub bad_request : ℕ
bad_request = 400

abbrev pub unauthorized : ℕ
unauthorized = 401

abbrev pub forbidden : ℕ
forbidden = 403

abbrev pub not_found : ℕ
not_found = 404

abbrev pub method_not_allowed : ℕ
method_not_allowed = 405

abbrev pub request_timeout : ℕ
request_timeout = 408

abbrev pub payload_too_large : ℕ
payload_too_large = 413

abbrev pub uri_too_long : ℕ
uri_too_long = 414

abbrev pub internal_server_error : ℕ
internal_server_error = 500

abbrev pub not_implemented : ℕ
not_implemented = 501

abbrev pub bad_gateway : ℕ
bad_gateway = 502

abbrev pub service_unavailable : ℕ
service_unavailable = 503

-- The cases of the switch.
abbrev pub status_texts : List (ℕ × List ℕ)
status_texts =
    (k_ok, codes "OK")
    ∷ (created, codes "Created")
    ∷ (no_content, codes "No Content")
    ∷ (moved_permanently, codes "Moved Permanently")
    ∷ (found, codes "Found")
    ∷ (not_modified, codes "Not Modified")
    ∷ (bad_request, codes "Bad Request")
    ∷ (unauthorized, codes "Unauthorized")
    ∷ (forbidden, codes "Forbidden")
    ∷ (not_found, codes "Not Found")
    ∷ (method_not_allowed, codes "Method Not Allowed")
    ∷ (request_timeout, codes "Request Timeout")
    ∷ (payload_too_large, codes "Payload Too Large")
    ∷ (uri_too_long, codes "URI Too Long")
    ∷ (internal_server_error, codes "Internal Server Error")
    ∷ (not_implemented, codes "Not Implemented")
    ∷ (bad_gateway, codes "Bad Gateway")
    ∷ (service_unavailable, codes "Service Unavailable")
    ∷ []

unfoldable pub status_text : ℕ → List ℕ
status_text status = elim (find status status_texts) [ none ↦ codes "Unknown" | some text ↦ text ]

pub record HttpResponse : Type 0 where
  pub status : ℕ
  pub headers : List Header
  pub content_type : List ℕ
  pub body : List ℕ
  pub keep_alive : Bool
  pub sent : Bool
  pub bound : Bool

-- What the code gets from outside of it.
pub record Surroundings : Type 0 where
  pub date : List ℕ
  pub room : ℕ → Bool

-- Of HttpResponse(), and of HttpResponse(session, pool).
abbrev pub new_response : Bool → HttpResponse
new_response bound = record {
  status = k_ok;
  headers = [];
  content_type = [];
  body = [];
  keep_alive = true;
  sent = false;
  bound = bound;
}

unfoldable pub set_status : ℕ → HttpResponse → HttpResponse
set_status status r = record r { status = status }

unfoldable pub header : List ℕ → List ℕ → HttpResponse → HttpResponse
header name value r = record r {
  headers = r.headers ++ (record { name = name; value = value }) ∷ [];
}

unfoldable pub set_content_type : List ℕ → HttpResponse → HttpResponse
set_content_type type r = record r { content_type = type }

unfoldable pub set_body : List ℕ → HttpResponse → HttpResponse
set_body body r = record r { body = body }

unfoldable pub json : List ℕ → HttpResponse → HttpResponse
json body r = record r { content_type = codes "application/json"; body = body }

unfoldable pub set_keep_alive : Bool → HttpResponse → HttpResponse
set_keep_alive keep r = record r { keep_alive = keep }

unfoldable pub mark_sent : HttpResponse → HttpResponse
mark_sent r = record r { sent = true }

-- "\r\n"
abbrev pub crlf : List ℕ
crlf = 13 ∷ 10 ∷ []

unfoldable pub date_header : List ℕ → List ℕ
date_header date = codes "Date: " ++ (date ++ crlf)

unfoldable pub status_line : ℕ → List ℕ
status_line status = codes "HTTP/1.1 " ++ (decimal status ++ (32 ∷ (status_text status ++ crlf)))

unfoldable pub content_type_line : List ℕ → List ℕ
content_type_line [] = []
content_type_line (c ∷ cs) = codes "Content-Type: " ++ (c ∷ cs ++ crlf)

unfoldable pub connection_line : Bool → List ℕ
connection_line keep =
    codes "Connection: " ++ ((if keep then codes "keep-alive" else codes "close") ++ crlf)

unfoldable pub custom_headers : List Header → List ℕ
custom_headers [] = []
custom_headers (h ∷ hs) = h.name ++ (codes ": " ++ (h.value ++ (crlf ++ custom_headers hs)))

-- The text that Build puts together.
unfoldable pub response_text : List ℕ → HttpResponse → List ℕ
response_text date r =
    status_line r.status
    ++ (codes "Server: serverweb"
        ++ (crlf
            ++ (date_header date
                ++ (content_type_line r.content_type
                    ++ (codes "Content-Length: "
                        ++ (decimal (length r.body)
                            ++ (crlf
                                ++ (connection_line r.keep_alive
                                    ++ (custom_headers r.headers ++ (crlf ++ r.body))))))))))

-- No buffer, a copy past its end, or a buffer with its bytes.
pub data Built : Type 0 where
  no_buffer fault : Built
  built : List ℕ → Built

-- The size asked for is 32 bits of the text's, and the copy is of the text.
unfoldable pub copied : Surroundings → List ℕ → Built
copied s text =
    if s.room (u32 (length text))
    then (if ltb (u32 (length text)) (length text) then fault else built text)
    else no_buffer

unfoldable pub build : Surroundings → HttpResponse → Built
build s r = copied s (response_text s.date r)

-- What Send hands to the session.
unfoldable pub handed : Built → List Built
handed no_buffer = []
handed fault = fault ∷ []
handed (built text) = built text ∷ []

unfoldable pub send : Surroundings → HttpResponse → HttpResponse × List Built
send s r = if r.sent then (r, []) else (mark_sent r, (if r.bound then handed (build s r) else []))

unfoldable pub no_content_response : Surroundings → Bool → Built
no_content_response s keep_alive =
    build s (set_keep_alive keep_alive (set_status no_content (new_response false)))
