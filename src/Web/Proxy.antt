-- ===== src/Web/Proxy.antt =====
-- src/web/ReverseProxy.cpp. Whether the thread has a ring, and what Connect meets, are arguments; an
-- empty text stands for a std::string that has been moved from.
use libiouring_server.Common.{
  ℕ, ◌%◌, ◌^◌, Bool, true, false, not, ◌&&◌, ◌||◌, List, [], ◌∷◌, ◌++◌, map, if◌then◌else◌, Option,
  none, some, ◌==◌,
}
use libiouring_server.Common.Maps.{same, text_eq}
use libiouring_server.Common.Texts.{codes, decimal, before, starts_with}
use libiouring_server.Web.Context.{RequestContext, defer_response}
use libiouring_server.Web.Method.{to_string}
use libiouring_server.Web.Request.{Header, HttpRequest, get_header}
use libiouring_server.Web.Response.{
  HttpResponse, new_response, Surroundings, set_status, set_body, set_keep_alive, json, crlf, Built,
  build, handed, send, internal_server_error, bad_gateway,
}
use libiouring_server.Web.Upstream.Parse.{Report, response, error}
use libiouring_server.Web.Upstream.Pool.{attempted}
use libiouring_server.Web.Upstream.Session.{UpstreamSession, close}

pub record ProxyRoute : Type 0 where
  pub host_pattern : List ℕ
  pub path_prefix : List ℕ
  pub upstream_host : List ℕ
  pub upstream_port : ℕ

unfoldable pub find_route : List ℕ → List ℕ → List ProxyRoute → Option ProxyRoute
find_route host path [] = none
find_route host path (route ∷ routes) =
    let rest = find_route host path routes in
    if not (same route.host_pattern (codes "*")) && not (same route.host_pattern host)
    then rest
    else if starts_with route.path_prefix path
    then some route
    else rest

-- Host, in any case.
unfoldable pub is_host : List ℕ → Bool
is_host (a ∷ b ∷ c ∷ d ∷ []) =
    (a == 72 || a == 104)
    && ((b == 111 || b == 79) && ((c == 115 || c == 83) && (d == 116 || d == 84)))
is_host name = false

unfoldable pub forwarded_headers : List Header → List ℕ
forwarded_headers [] = []
forwarded_headers (h ∷ hs) =
    let rest = forwarded_headers hs in
    if is_host h.name then rest else h.name ++ (codes ": " ++ (h.value ++ (crlf ++ rest)))

-- The path, and the query behind a question mark.
unfoldable pub target_text : List ℕ → List ℕ → List ℕ
target_text path [] = path
target_text path (c ∷ query) = path ++ 63 ∷ c ∷ query

unfoldable pub host_line : List ℕ → ℕ → List ℕ
host_line host port = codes "Host: " ++ (host ++ (58 ∷ (decimal port ++ crlf)))

unfoldable pub serialize_request : HttpRequest → ProxyRoute → List ℕ
serialize_request request route =
    codes (to_string request.method)
    ++ (32
        ∷ (target_text request.path request.query
            ++ (codes " HTTP/1.1"
                ++ (crlf
                    ++ (host_line route.upstream_host route.upstream_port
                        ++ (forwarded_headers request.headers
                            ++ (codes "X-Forwarded-For: client"
                                ++ (crlf
                                    ++ (codes "Connection: close"
                                        ++ (crlf ++ (crlf ++ request.body)))))))))))

-- How Process ends: with the rest of the chain, with an upgrade, without a ring, or with a request
-- for the pool. SendError is a response of its own.
pub data Proxied : Type 0 where
  passed_on : RequestContext → Proxied
  upgraded : ProxyRoute → RequestContext → Proxied
  answered : RequestContext → Proxied
  forwarded : List ℕ → ℕ → List ℕ → RequestContext → Proxied

unfoldable pub send_error : Surroundings → ℕ → List ℕ → RequestContext → RequestContext
send_error s status message ctx =
    let text = codes "{\"error\":\"" ++ (message ++ codes "\"}") in
    let r = set_keep_alive false (json text (set_status status (new_response false))) in
    record ctx { handed_over = ctx.handed_over ++ handed (build s r) }

abbrev no_ring_text : List ℕ
no_ring_text = codes "No IoRing available"

unfoldable pub handle_websocket_proxy : Surroundings → Bool → ProxyRoute → RequestContext → Proxied
handle_websocket_proxy s ring route ctx =
    if ring
    then upgraded route ctx
    else answered (send_error s internal_server_error no_ring_text ctx)

unfoldable pub forward_request : Surroundings → Bool → ProxyRoute → RequestContext → Proxied
forward_request s ring route ctx =
    let deferred = defer_response ctx in
    if ring
    then forwarded route.upstream_host route.upstream_port (serialize_request ctx.request route)
        deferred
    else answered (send_error s internal_server_error no_ring_text deferred)

unfoldable pub process :
    Surroundings
    → Bool
    → List ProxyRoute
    → (RequestContext → RequestContext)
    → RequestContext
    → Proxied
process s ring routes next ctx =
    let host = before 58 (get_header (codes "Host") ctx.request) in
    elim (find_route host ctx.request.path routes) [
      | none ↦ passed_on (next ctx)
      | some route ↦
          if same (get_header (codes "Upgrade") ctx.request) (codes "websocket")
          then handle_websocket_proxy s ring route ctx
          else forward_request s ring route ctx
    ]

unfoldable pub relayed_header : List ℕ × List ℕ → Header
relayed_header h = record { name = h.0; value = h.1 }

-- The response that on_response puts together; the cast to HttpStatus keeps 16 bits.
unfoldable pub relayed : ℕ → List (List ℕ × List ℕ) → List ℕ → HttpResponse
relayed status_code headers body =
    set_body body (record (set_status (status_code % 2 ^ 16) (new_response true)) {
      headers = map relayed_header headers;
    })

-- What the two callbacks send to the client; texts of errors are an argument.
unfoldable pub relay : Surroundings → (Report → List ℕ) → Report → List Built
relay s error_text (response status_code headers body) =
    (send s (relayed status_code headers body)).1
relay s error_text (error why) =
    let text = codes "Bad Gateway: " ++ error_text (error why) in
    (send s (set_body text (set_status bad_gateway (new_response true)))).1

-- WsProxyHandler
pub record WsProxyHandler : Type 0 where
  pub upgrade_request : List ℕ
  pub upstream : Option UpstreamSession

unfoldable pub ws_headers : HttpRequest → List (List ℕ) → List ℕ
ws_headers request [] = []
ws_headers request (name ∷ names) =
    let rest = ws_headers request names in
    elim (get_header name request) [
      | [] ↦ rest
      | c ∷ value ↦ name ++ (codes ": " ++ (c ∷ value ++ (crlf ++ rest)))
    ]

abbrev pub k_ws_headers : List (List ℕ)
k_ws_headers =
    codes "Upgrade"
    ∷ codes "Connection"
    ∷ codes "Sec-WebSocket-Key"
    ∷ codes "Sec-WebSocket-Version"
    ∷ codes "Sec-WebSocket-Protocol"
    ∷ codes "Sec-WebSocket-Extensions"
    ∷ codes "Origin"
    ∷ []

unfoldable pub new_handler : List ℕ → ℕ → HttpRequest → WsProxyHandler
new_handler host port request = record {
  upgrade_request =
      codes "GET "
      ++ (target_text request.path request.query
          ++ (codes " HTTP/1.1"
              ++ (crlf ++ (host_line host port ++ (ws_headers request k_ws_headers ++ crlf)))));
  upstream = none;
}

unfoldable pub on_open : Bool → Bool → Bool → WsProxyHandler → WsProxyHandler
on_open resolves makes_socket room h = record {
  upgrade_request = [];
  upstream = some (
      attempted (record {
        resolves = resolves;
        makes_socket = makes_socket;
        room = room;
        request_bytes = h.upgrade_request;
      }));
}

-- The session as Close leaves it, before the reference to it goes.
unfoldable pub on_close : WsProxyHandler → WsProxyHandler × Option UpstreamSession
on_close h = elim h.upstream [
  | none ↦ (h, none)
  | some u ↦ (record h { upstream = none }, some (close u))
]
