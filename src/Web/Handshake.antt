-- ===== src/Web/Handshake.antt =====
-- src/web/ws/WsHandshake.cpp, and the handler of WebServer::WebSocket in src/web/WebServer.cpp. SHA-1
-- (OpenSSL) is a parameter.
use Prim.Native.Nat.{bit_and, bit_or}
use libiouring_server.Common.{
  ℕ, zero, suc, ◌+◌, ◌-◌, ◌*◌, ◌/◌, ◌^◌, Bool, true, false, not, List, [], ◌∷◌, ◌++◌, if◌then◌else◌,
  length, drop, get_or, ltb, ◌==◌,
}
use libiouring_server.Common.Maps.{same, text_eq}
use libiouring_server.Common.Texts.{codes}
use libiouring_server.Web.Auth.{is_empty}
use libiouring_server.Web.Context.{RequestContext, send_response}
use libiouring_server.Web.Request.{HttpRequest, get_header, to_lower}
use libiouring_server.Web.Response.{
  Surroundings, Built, bad_request, set_status, set_body, mark_sent, crlf, copied,
}

-- The inner loop, at a place where the needle fits.
unfoldable pub matches_here : List ℕ → List ℕ → Bool
matches_here [] haystack = true
matches_here (c ∷ needle) [] = false
matches_here (c ∷ needle) (d ∷ haystack) =
    let rest = matches_here needle haystack in if to_lower d == to_lower c then rest else false

unfoldable pub contains_from : ℕ → List ℕ → List ℕ → Bool
contains_from zero haystack needle = false
contains_from (suc n) haystack needle =
    let rest = contains_from n (drop 1 haystack) needle in
    if matches_here needle haystack then true else rest

unfoldable pub case_insensitive_contains : List ℕ → List ℕ → Bool
case_insensitive_contains haystack needle =
    if ltb (length haystack) (length needle)
    then false
    else contains_from (length haystack - length needle + 1) haystack needle

unfoldable pub validate_upgrade : HttpRequest → Bool
validate_upgrade request =
    if not (case_insensitive_contains (get_header (codes "Upgrade") request) (codes "websocket"))
    then false
    else if not
        (case_insensitive_contains (get_header (codes "Connection") request) (codes "upgrade"))
    then false
    else if not (same (get_header (codes "Sec-WebSocket-Version") request) (codes "13"))
    then false
    else not (is_empty (get_header (codes "Sec-WebSocket-Key") request))

abbrev pub table : List ℕ
table = codes "ABCDEFGHIJKLMNOPQRSTUVWXYZabcdefghijklmnopqrstuvwxyz0123456789+/"

unfoldable pub sextet : ℕ → ℕ → ℕ
sextet n shift = get_or table (bit_and (n / 2 ^ shift) 0x3F) 0

-- The loop over three bytes at a time.
unfoldable pub base64 : List ℕ → List ℕ
base64 [] = []
base64 (a ∷ []) = let n = a * 2 ^ 16 in sextet n 18 ∷ sextet n 12 ∷ 61 ∷ 61 ∷ []
base64 (a ∷ b ∷ []) =
    let n = bit_or (a * 2 ^ 16) (b * 2 ^ 8) in sextet n 18 ∷ sextet n 12 ∷ sextet n 6 ∷ 61 ∷ []
base64 (a ∷ b ∷ c ∷ rest) =
    let n = bit_or (bit_or (a * 2 ^ 16) (b * 2 ^ 8)) c in
    sextet n 18 ∷ sextet n 12 ∷ sextet n 6 ∷ sextet n 0 ∷ base64 rest

abbrev pub k_magic_guid : List ℕ
k_magic_guid = codes "258EAFA5-E914-47DA-95CA-C5AB0DC85B11"

unfoldable pub compute_accept_key : (List ℕ → List ℕ) → List ℕ → List ℕ
compute_accept_key sha1 client_key = base64 (sha1 (client_key ++ k_magic_guid))

unfoldable pub upgrade_text : List ℕ → List ℕ
upgrade_text accept_key =
    codes "HTTP/1.1 101 Switching Protocols"
    ++ (crlf
        ++ (codes "Upgrade: websocket"
            ++ (crlf
                ++ (codes "Connection: Upgrade"
                    ++ (crlf
                        ++ (codes "Sec-WebSocket-Accept: " ++ (accept_key ++ (crlf ++ crlf))))))))

unfoldable pub build_upgrade_response : Surroundings → List ℕ → Built
build_upgrade_response s accept_key = copied s (upgrade_text accept_key)

-- The handler of a WebSocket route: whether the session is upgraded, and the context. A response
-- that could not be built is handed to the session all the same.
unfoldable pub handle_upgrade :
    Surroundings → (List ℕ → List ℕ) → RequestContext → Bool × RequestContext
handle_upgrade s sha1 ctx =
    if not (validate_upgrade ctx.request)
    then (
      false,
      send_response s
          (set_body (codes "WebSocket upgrade required") (set_status bad_request ctx.response)) ctx,
    )
    else (let key = get_header (codes "Sec-WebSocket-Key") ctx.request in
        (
          true,
          record ctx {
            handed_over =
                ctx.handed_over ++ build_upgrade_response s (compute_accept_key sha1 key) ∷ [];
            response = mark_sent ctx.response;
          },
        ))
