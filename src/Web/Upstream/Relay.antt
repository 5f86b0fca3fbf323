-- ===== src/Web/Upstream/Relay.antt =====
-- A response of this library, read by its own proxy, and what the proxy's client reads in turn.
use libiouring_server.Common.{
  ℕ, suc, ◌+◌, ◌%◌, ◌^◌, ◌≤◌, ◌<◌, ◌≡◌, refl, sym, ap, ◌∙◌, List, [], ◌∷◌, ◌++◌, All, map, some,
  length, length-append, take, drop, append_assoc, arith,
}
use libiouring_server.Common.Maps.{nat_eq}
use libiouring_server.Common.Slices.{slice, take-append_exact}
use libiouring_server.Common.Texts.{codes, Lacks, find_text, decimal, position}
use libiouring_server.Web.Response.{HttpResponse, crlf, response_text, status_text}
use libiouring_server.Web.Upstream.Headers.{
  StartsUnblank, IsHeader, header_line, header_lines-IsLine, headers_from-lines,
}
use libiouring_server.Web.Upstream.Lines.{ended_lines, span, find_text-line, find_text-lines}
use libiouring_server.Web.Upstream.Parse.{response, headers_from, parse_status, parse_response}
use libiouring_server.Common.Slices.{drop-append_add}
use libiouring_server.Web.Upstream.Layout.{head_line, pair_of, later_headers, response_text-lines}
use libiouring_server.Web.Proxy.{relayed_header, relayed}
use libiouring_server.Web.Response.{set_status, set_body}
use libiouring_server.Web.Upstream.Fields.{
  length-status, status_int, head_line-Lacks, IsRelayable, later-IsHeader, server-IsHeader,
}

add_sums : (n m k : ℕ) → n + 2 + m + k ≡ n + (2 + (m + k))
add_sums n m k = omega arith

-- What stands behind the lines and the empty line.
drop-lines :
    (l : List ℕ) (ls : List (List ℕ)) (body : List ℕ)
    → drop (span l ls + 4) (ended_lines (l ∷ ls) (13 ∷ 10 ∷ body)) ≡ body
unfolding span ended_lines
drop-lines l [] body = drop-append_add 4 l (13 ∷ 10 ∷ 13 ∷ 10 ∷ body)
drop-lines l (m ∷ ls) body =
    let rest = m ++ 13 ∷ 10 ∷ ended_lines ls (13 ∷ 10 ∷ body) in
    ap (λ (k : ℕ). drop k (l ++ 13 ∷ 10 ∷ rest)) (add_sums (length l) (span m ls) 4)
    ∙ drop-append_add (2 + (span m ls + 4)) l (13 ∷ 10 ∷ rest)
    ∙ two (span m ls + 4) rest
    ∙ drop-lines m ls body
  where
    two : (k : ℕ) (rest : List ℕ) → drop (2 + k) (13 ∷ 10 ∷ rest) ≡ drop k rest
    two k rest = ap (λ (j : ℕ). drop j (13 ∷ 10 ∷ rest)) (plus_two k)
      where
        plus_two : (k : ℕ) → 2 + k ≡ suc (suc k)
        plus_two k = omega arith

status_place : (s : ℕ) → position 32 (head_line s) ≡ some 8
unfolding position
status_place s = refl

status_digits :
    (s : ℕ) (rest : List ℕ) → 100 ≤ s → s < 1000 → slice 9 3 (head_line s ++ rest) ≡ decimal s
status_digits s rest h l =
    ap (take 3) (append_assoc (decimal s) (32 ∷ status_text s) rest)
    ∙ take-append_exact 3 (decimal s) ((32 ∷ status_text s) ++ rest) (length-status s h l)

head_length : (s : ℕ) → 0 < length (head_line s)
head_length s = omega arith

-- The headers behind the first line.
headers-behind :
    (l : List ℕ) (h : List ℕ × List ℕ) (hs : List (List ℕ × List ℕ)) (body : List ℕ)
    → IsHeader h
    → All IsHeader hs
    → headers_from
        (span l (header_line h ∷ map header_line hs))
        (length l + 2)
        (ended_lines (l ∷ header_line h ∷ map header_line hs) (13 ∷ 10 ∷ body))
      ≡ h ∷ hs
unfolding span ended_lines
headers-behind l h hs body k g =
    let tail = ended_lines (header_line h ∷ map header_line hs) (13 ∷ 10 ∷ body) in
    let e = length l + 2 + span (header_line h) (map header_line hs) in
    let front = l ++ 13 ∷ 10 ∷ [] in
    let size : length l + 2 ≡ length front = omega (arith, length-append l (13 ∷ 10 ∷ [])) in
    ap (λ (p : ℕ). headers_from e p (l ++ 13 ∷ 10 ∷ tail)) size
    ∙ ap (headers_from e (length front)) (sym (append_assoc l (13 ∷ 10 ∷ []) tail))
    ∙ headers_from-lines front body h hs e k g
        (ap (λ (p : ℕ). p + span (header_line h) (map header_line hs)) size)

-- ParseResponse, on lines.
parse-lines :
    (s : ℕ) (h : List ℕ × List ℕ) (hs : List (List ℕ × List ℕ)) (body : List ℕ)
    → 100 ≤ s
    → s < 1000
    → IsHeader h
    → All IsHeader hs
    → parse_response
        (ended_lines (head_line s ∷ header_line h ∷ map header_line hs) (13 ∷ 10 ∷ body))
      ≡ response s (h ∷ hs) body
unfolding parse_response parse_status
parse-lines s h hs body low high k g =
    let line = head_line s in
    let lines = header_line h ∷ map header_line hs in
    let rest = ended_lines lines (13 ∷ 10 ∷ body) in
    let v = ended_lines (line ∷ lines) (13 ∷ 10 ∷ body) in
    let ends =
      find_text-lines line lines body (head_line-Lacks s, head_length s)
        (header_lines-IsLine (h ∷ hs) (k, g)) in
    let first : find_text crlf v ≡ some (length line) =
      unfold ended_lines in find_text-line line rest (head_line-Lacks s) in
    let front : take (length line) v ≡ line =
      unfold ended_lines in take-append_exact (length line) line (13 ∷ 10 ∷ rest) refl in
    let digits : slice 9 3 v ≡ decimal s =
      unfold ended_lines in status_digits s (13 ∷ 10 ∷ rest) low high in
    let headers : headers_from (span line lines) (length line + 2) v ≡ h ∷ hs =
      headers-behind line h hs body k g in
    rw
      (
        parse_response,
        ends,
        first,
        parse_status,
        front,
        status_place s,
        digits,
        status_int s high,
        headers,
      )
      (ap (response s (h ∷ hs)) (drop-lines line lines body))

-- What Build writes is what ParseResponse reads.
parse_response-build :
    (date : List ℕ) (r : HttpResponse)
    → IsRelayable date r
    → parse_response (response_text date r)
      ≡ response r.status ((codes "Server", codes "serverweb") ∷ later_headers date r) r.body
parse_response-build date r h =
    ap parse_response (response_text-lines date r)
    ∙ parse-lines r.status (codes "Server", codes "serverweb") (later_headers date r) r.body
        h.three_digits.0 h.three_digits.1 server-IsHeader (later-IsHeader date r h)

pairs_back : (hs : List (List ℕ × List ℕ)) → map pair_of (map relayed_header hs) ≡ hs
unfolding relayed_header
pairs_back [] = refl
pairs_back ((name, value) ∷ hs) = ap (◌∷◌ (name, value)) (pairs_back hs)

relayed-IsRelayable :
    (date : List ℕ) (s : ℕ) (hs : List (List ℕ × List ℕ)) (body : List ℕ)
    → 100 ≤ s
    → s < 1000
    → Lacks 13 date × StartsUnblank date
    → All IsHeader hs
    → IsRelayable date (relayed s hs body)
unfolding relayed set_body set_status
relayed-IsRelayable date s hs body h l d g = record {
  three_digits = (omega arith, omega arith);
  date_line = d;
  type_line = (tt, tt);
  header_lines = rw (pairs_back hs) g;
}

-- What a client of the proxy reads.
relayed_back :
    (date : List ℕ) (s : ℕ) (hs : List (List ℕ × List ℕ)) (body : List ℕ)
    → 100 ≤ s
    → s < 1000
    → Lacks 13 date × StartsUnblank date
    → All IsHeader hs
    → parse_response (response_text date (relayed s hs body))
      ≡ response s
          ((codes "Server", codes "serverweb")
            ∷ (codes "Date", date)
            ∷ (codes "Content-Length", decimal (length body))
            ∷ (codes "Connection", codes "keep-alive")
            ∷ hs)
          body
unfolding relayed set_body set_status
relayed_back date s hs body h l d g =
    let kept : s % 2 ^ 16 ≡ s = omega arith in
    parse_response-build date (relayed s hs body) (relayed-IsRelayable date s hs body h l d g)
    ∙ ap
        (λ (z : ℕ × List (List ℕ × List ℕ)).
          response z.0
            ((codes "Server", codes "serverweb")
              ∷ (codes "Date", date)
              ∷ (codes "Content-Length", decimal (length body))
              ∷ (codes "Connection", codes "keep-alive")
              ∷ z.1)
            body)
        (ap (λ (k : ℕ). (k, map pair_of (map relayed_header hs))) kept
          ∙ ap (λ z. (s, z)) (pairs_back hs))

-- ParseResponse reads back what Build writes: the status, Server, Date, Content-Type if there is one,
-- Content-Length, Connection and the response's own headers, in this order, and the body. What the
-- proxy makes of this, and builds on a second date, is read back with the same status and body, and
-- with all these headers behind the proxy's own Server, Date, Content-Length and Connection, so that
-- a client gets the length twice. The status has three digits; no header has the end of a line in
-- it, a colon in its name, or a blank in front of its value.
pub parse_response-relayed :
    (date later : List ℕ) (r : HttpResponse)
    → IsRelayable date r
    → Lacks 13 later × StartsUnblank later
    → let headers = (codes "Server", codes "serverweb") ∷ later_headers date r in
      (parse_response (response_text date r) ≡ response r.status headers r.body)
      × (parse_response (response_text later (relayed r.status headers r.body))
          ≡ response r.status
              ((codes "Server", codes "serverweb")
                ∷ (codes "Date", later)
                ∷ (codes "Content-Length", decimal (length r.body))
                ∷ (codes "Connection", codes "keep-alive")
                ∷ headers)
              r.body)
parse_response-relayed date later r h d = (
  parse_response-build date r h,
  relayed_back later r.status ((codes "Server", codes "serverweb") ∷ later_headers date r) r.body
      h.three_digits.0 h.three_digits.1 d (server-IsHeader, later-IsHeader date r h),
)
