-- ===== src/Web/Upstream/Layout.antt =====
-- The text that HttpResponse::Build puts together, line by line.
use libiouring_server.Common.{
  ℕ, ◌≡◌, refl, ap, ◌∙◌, Bool, List, [], ◌∷◌, ◌++◌, map, if◌then◌else◌, length, append_assoc,
}
use libiouring_server.Common.Maps.{nat_eq}
use libiouring_server.Common.Texts.{codes, decimal}
use libiouring_server.Web.Request.{Header}
use libiouring_server.Web.Response.{
  HttpResponse, crlf, date_header, status_line, content_type_line, connection_line, custom_headers,
  response_text, status_text,
}
use libiouring_server.Web.Upstream.Headers.{header_line}
use libiouring_server.Web.Upstream.Lines.{ended_lines}

abbrev pub head_line : ℕ → List ℕ
head_line status = codes "HTTP/1.1 " ++ (decimal status ++ 32 ∷ status_text status)

abbrev pub pair_of : Header → List ℕ × List ℕ
pair_of h = (h.name, h.value)

abbrev pub content_type_headers : List ℕ → List (List ℕ × List ℕ)
content_type_headers [] = []
content_type_headers (c ∷ cs) = (codes "Content-Type", c ∷ cs) ∷ []

abbrev pub connection_text : Bool → List ℕ
connection_text keep = if keep then codes "keep-alive" else codes "close"

-- The headers that Build writes behind Server, the custom ones last.
abbrev pub later_headers : List ℕ → HttpResponse → List (List ℕ × List ℕ)
later_headers date r =
    (codes "Date", date)
    ∷ (content_type_headers r.content_type
        ++ (codes "Content-Length", decimal (length r.body))
          ∷ (codes "Connection", connection_text r.keep_alive)
          ∷ map pair_of r.headers)

custom_lines :
    (hs : List Header) (rest : List ℕ)
    → custom_headers hs ++ rest ≡ ended_lines (map header_line (map pair_of hs)) rest
unfolding custom_headers ended_lines
custom_lines [] rest = refl
custom_lines (h ∷ hs) rest =
    simp append_assoc
      (ap (λ z. h.name ++ (58 ∷ 32 ∷ (h.value ++ 13 ∷ 10 ∷ z))) (custom_lines hs rest))

content_type_lines :
    (type : List ℕ) (more : List (List ℕ × List ℕ)) (rest : List ℕ)
    → ended_lines (map header_line (content_type_headers type ++ more)) rest
      ≡ content_type_line type ++ ended_lines (map header_line more) rest
unfolding ended_lines content_type_line
content_type_lines [] more rest = refl
content_type_lines (c ∷ cs) more rest = simp append_assoc

abbrev pub all_lines : List ℕ → HttpResponse → List (List ℕ)
all_lines date r =
    head_line r.status
    ∷ map header_line ((codes "Server", codes "serverweb") ∷ later_headers date r)

connection_lem :
    (keep : Bool) (rest : List ℕ)
    → connection_line keep ++ rest
      ≡ header_line (codes "Connection", connection_text keep) ++ 13 ∷ 10 ∷ rest
unfolding connection_line
connection_lem keep rest = simp append_assoc

last_lines :
    (r : HttpResponse)
    → codes "Content-Length: "
        ++ (decimal (length r.body)
            ++ (crlf
                ++ (connection_line r.keep_alive
                    ++ (custom_headers r.headers ++ (crlf ++ r.body)))))
      ≡ ended_lines
          (map header_line (
            (codes "Content-Length", decimal (length r.body))
            ∷ (codes "Connection", connection_text r.keep_alive)
            ∷ map pair_of r.headers))
          (13 ∷ 10 ∷ r.body)
unfolding ended_lines
last_lines r =
    ap (λ z. codes "Content-Length: " ++ (decimal (length r.body) ++ 13 ∷ 10 ∷ z))
      (ap (◌++◌ (connection_line r.keep_alive)) (custom_lines r.headers (13 ∷ 10 ∷ r.body))
        ∙ connection_lem r.keep_alive
            (ended_lines (map header_line (map pair_of r.headers)) (13 ∷ 10 ∷ r.body)))

-- The text that Build puts together is made of lines.
pub response_text-lines :
    (date : List ℕ) (r : HttpResponse)
    → response_text date r ≡ ended_lines (all_lines date r) (13 ∷ 10 ∷ r.body)
unfolding response_text status_line date_header ended_lines
response_text-lines date r =
    let last =
      (codes "Content-Length", decimal (length r.body))
      ∷ (codes "Connection", connection_text r.keep_alive)
      ∷ map pair_of r.headers in
    let rest = ended_lines (map header_line last) (13 ∷ 10 ∷ r.body) in
    let types = content_type_lines r.content_type last (13 ∷ 10 ∷ r.body) in
    rw (last_lines r, types) (simp append_assoc)
