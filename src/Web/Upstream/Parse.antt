-- ===== src/Web/Upstream/Parse.antt =====
-- UpstreamSession.cpp: ParseResponse, and the question of OnRecv whether a response is complete. The
-- bytes received are a list, a position in them a number.
use libiouring_server.Common.{
  ℕ, zero, suc, ◌+◌, ◌-◌, ◌%◌, ◌^◌, Bool, true, false, List, [], ◌∷◌, if◌then◌else◌, Option, none,
  some, length, take, drop, ltb, leb, ◌==◌,
}
use libiouring_server.Common.Slices.{slice}
use libiouring_server.Common.Texts.{
  codes, position, before, behind, find_text, find_text_from, from_chars,
}
use libiouring_server.Web.Response.{crlf}

pub data Reason : Type 0 where
  getaddrinfo_failed socket_failed prep_connect_failed connect_failed : Reason
  no_send_buffer prep_send_failed send_failed prep_recv_failed recv_failed : Reason
  no_header_terminator no_status_line malformed_status_line malformed_status_code : Reason

-- What the callbacks get: an int as its 32 bits, names and values, and the body.
pub data Report : Type 0 where
  response : ℕ → List (List ℕ × List ℕ) → List ℕ → Report
  error : Reason → Report

-- "\r\n\r\n"
abbrev pub header_terminator : List ℕ
header_terminator = 13 ∷ 10 ∷ 13 ∷ 10 ∷ []

unfoldable pub trim_front : List ℕ → List ℕ
trim_front [] = []
trim_front (c ∷ cs) = let rest = trim_front cs in if c == 32 then rest else c ∷ cs

-- A line without a colon adds no header.
unfoldable pub header_of : List ℕ → List (List ℕ × List ℕ)
header_of line = elim (behind 58 line) [
  | none ↦ []
  | some value ↦ (before 58 line, trim_front value) ∷ []
]

unfoldable pub add_headers :
    List (List ℕ × List ℕ) → Option (List (List ℕ × List ℕ)) → Option (List (List ℕ × List ℕ))
add_headers [] later = later
add_headers (h ∷ hs) none = none
add_headers (h ∷ hs) (some later) = some (h ∷ later)

-- The loop over the header lines from pos on; it answers none when the rounds are used up.
unfoldable pub headers_loop : ℕ → ℕ → ℕ → List ℕ → Option (List (List ℕ × List ℕ))
headers_loop zero header_end pos data_view = if ltb pos header_end then none else some []
headers_loop (suc n) header_end pos data_view =
    let go = λ (p : ℕ). headers_loop n header_end p data_view in
    if ltb pos header_end
    then elim (find_text_from crlf pos data_view) [
      | none ↦ some []
      | some line_end ↦
          if ltb header_end line_end
          then some []
          else add_headers (header_of (slice pos (line_end - pos) data_view)) (go (line_end + 2))
    ]
    else some []

-- A round takes two characters or more, so as many rounds as characters are enough.
unfoldable pub headers_from : ℕ → ℕ → List ℕ → List (List ℕ × List ℕ)
headers_from header_end pos data_view = elim (headers_loop header_end header_end pos data_view) [
  | none ↦ []
  | some headers ↦ headers
]

-- std::from_chars of an int, as its 32 bits.
unfoldable pub from_chars_int : List ℕ → Option ℕ
from_chars_int [] = none
from_chars_int (c ∷ cs) =
    if c == 45
    then elim (from_chars (2 ^ 31) cs) [ none ↦ none | some n ↦ some ((2 ^ 32 - n) % 2 ^ 32) ]
    else from_chars (2 ^ 31 - 1) (c ∷ cs)

unfoldable pub parse_status : ℕ → ℕ → List ℕ → Report
parse_status header_end status_line_end data_view =
    elim (position 32 (take status_line_end data_view)) [
      | none ↦ error malformed_status_line
      | some sp1 ↦ elim (from_chars_int (slice (sp1 + 1) 3 data_view)) [
        | none ↦ error malformed_status_code
        | some status_code ↦
            response status_code (headers_from header_end (status_line_end + 2) data_view)
              (drop (header_end + 4) data_view)
      ]
    ]

-- ParseResponse, by what it reports.
unfoldable pub parse_response : List ℕ → Report
parse_response data_view = elim (find_text header_terminator data_view) [
  | none ↦ error no_header_terminator
  | some header_end ↦ elim (find_text crlf data_view) [
    | none ↦ error no_status_line
    | some status_line_end ↦ parse_status header_end status_line_end data_view
  ]
]

-- One spelling, or else the other.
unfoldable pub find_either : List ℕ → List ℕ → List ℕ → Option ℕ
find_either first second s = elim (find_text first s) [
  | none ↦ find_text second s
  | some k ↦ some k
]

-- Past the blanks from a position on, up to a limit.
unfoldable pub past_blanks : ℕ → List ℕ → ℕ
past_blanks n [] = n
past_blanks n (c ∷ cs) = let rest = past_blanks (n + 1) cs in if c == 32 then rest else n

unfoldable pub value_end : ℕ → ℕ → List ℕ → ℕ
value_end header_end val_start data_view = elim (find_text_from crlf val_start data_view) [
  | none ↦ header_end
  | some k ↦ if ltb header_end k then header_end else k
]

-- The Content-Length header stands at cl_pos: whether so many bytes are there. The sum is a
-- std::size_t.
unfoldable pub length_reached : ℕ → ℕ → List ℕ → Bool
length_reached header_end cl_pos data_view =
    let val_start =
      past_blanks (cl_pos + 15) (slice (cl_pos + 15) (header_end - (cl_pos + 15)) data_view) in
    let val_end = value_end header_end val_start data_view in
    elim (from_chars (2 ^ 64 - 1) (slice val_start (val_end - val_start) data_view)) [
      | none ↦ false
      | some content_length ↦ leb ((header_end + 4 + content_length) % 2 ^ 64) (length data_view)
    ]

unfoldable pub chunks_ended : List ℕ → Bool
chunks_ended data_view =
    elim (find_either (codes "Transfer-Encoding: chunked") (codes "transfer-encoding: chunked")
      data_view) [
        | none ↦ false
        | some te_pos ↦ elim (find_text (13 ∷ 10 ∷ 48 ∷ header_terminator) data_view) [
          | none ↦ false
          | some k ↦ true
        ]
      ]

unfoldable pub is_complete : List ℕ → Bool
is_complete data_view = elim (find_text header_terminator data_view) [
  | none ↦ false
  | some header_end ↦
      elim (find_either (codes "Content-Length:") (codes "content-length:") data_view) [
        | none ↦ chunks_ended data_view
        | some cl_pos ↦
            if ltb cl_pos header_end
            then length_reached header_end cl_pos data_view
            else chunks_ended data_view
      ]
]
