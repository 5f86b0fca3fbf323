-- ===== src/Web/HttpSession/Examples.antt =====
-- A session whose llhttp is a small one: a request is a line with its path, and has a header.
use libiouring_server.Common.{
  ℕ, suc, ◌≤◌, ◌≡◌, refl, Bool, true, false, not, List, [], ◌∷◌, ◌++◌, Option, none, some, length,
  All, arith,
}
use libiouring_server.Common.Texts.{before, behind, codes, starts_with}
use libiouring_server.Buffer.Recv as Recv
use libiouring_server.Web.Request.{HttpRequest}
use libiouring_server.Web.Response.{Surroundings}
use libiouring_server.Web.Context.{RequestContext}
use libiouring_server.Web.HttpParser.{
  Callback, message_begin, url_complete, header_field_complete, header_value_complete,
  message_complete, url, header_field, header_value, headers_complete, IsInner, Errno, hpe_ok,
  hpe_paused, Llhttp, Stops, IsLlhttp, new_parser, Answered,
}
use libiouring_server.Web.HttpParser.Messages.{Message, request_of}
use libiouring_server.Web.HttpParser.Pieces.{last, more, feed_pieces, feed_pieces-message}
use libiouring_server.Web.HttpSession.{HttpSession, new_http_session, goes_on, run_pieces}
use libiouring_server.Web.HttpSession.Handled.{handled, AllButLast}
use libiouring_server.Web.HttpSession.Runs.{run_pieces-recv_buf, run_pieces-AllButLast}

abbrev begun : Bool → List Callback → List Callback
begun true cs = cs
begun false cs = message_begin ∷ cs

-- /bye does not keep the connection alive.
abbrev line_ends : List ℕ → List Callback
line_ends path =
    url_complete
    ∷ header_field (codes "Ho")
    ∷ header_field (codes "st")
    ∷ header_field_complete
    ∷ header_value (codes "x")
    ∷ header_value_complete
    ∷ headers_complete 1 (not (starts_with (codes "/bye") path))
    ∷ []

abbrev read_line : Bool → List ℕ → Option (List ℕ) → List Callback × Errno × Bool
read_line inside text none = (begun inside (url text ∷ []), hpe_ok, true)
read_line inside text (some rest) = (
  begun inside (url text ∷ line_ends text) ++ message_complete ∷ [],
  hpe_paused (suc (length text)),
  false,
)

abbrev lines : Llhttp
lines = record {
  State = Bool;
  llhttp_init = false;
  llhttp_execute = λ inside input. read_line inside (before 10 input) (behind 10 input);
  llhttp_resume = λ inside. inside;
}

length-before : (c : ℕ) (s r : List ℕ) → behind c s ≡ some r → suc (length (before c s)) ≤ length s
unfolding before behind
length-before c [] r h = absurd cc
length-before c (d ∷ s) r h = ground (arith, length-before c s r)

begun-IsInner :
    (inside : Bool) (cs : List Callback) → All IsInner cs → All IsInner (begun inside cs)
begun-IsInner true cs h = h
begun-IsInner false cs h = (λ e. cc, h)

line-IsInner : (text : List ℕ) → All IsInner (url text ∷ line_ends text)
line-IsInner text =
    (λ e. cc, (λ e. cc, (λ e. cc, (λ e. cc, (λ e. cc, (λ e. cc, (λ e. cc, (λ e. cc, tt))))))))

read_line-Stops :
    (inside : Bool) (input text : List ℕ) (o : Option (List ℕ))
    → ((r : List ℕ) → o ≡ some r → suc (length text) ≤ length input)
    → Stops input (read_line inside text o).0 (read_line inside text o).1
read_line-Stops inside input text none h = begun-IsInner inside (url text ∷ []) (λ e. cc, tt)
read_line-Stops inside input text (some rest) h = (
  begun inside (url text ∷ line_ends text),
  refl,
  begun-IsInner inside (url text ∷ line_ends text) (line-IsInner text),
  omega arith,
  h rest refl,
)

lines-IsLlhttp : IsLlhttp lines
lines-IsLlhttp = record {
  stops = λ inside input.
      read_line-Stops inside input (before 10 input) (behind 10 input)
        (λ r. length-before 10 input r);
}

abbrev accepted : HttpRequest → ℕ → Answered ℕ
accepted r n = record { cont = true; request = r; owner = suc n }

-- "/a?" and "b\n"
abbrev asked : Message
asked = record {
  method = 1;
  keep_alive = true;
  url_parts = codes "/a?" ∷ (98 ∷ []) ∷ [];
  header_parts = (codes "Ho" ∷ codes "st" ∷ [], codes "x" ∷ []) ∷ [];
  body_parts = [];
}

abbrev in_pieces : List (List ℕ)
in_pieces = codes "/a?" ∷ (98 ∷ 10 ∷ []) ∷ []

feed_pieces-message_example :
    ((feed_pieces lines accepted in_pieces (new_parser lines) 0).0.request ≡ request_of asked)
    × ((feed_pieces lines accepted in_pieces (new_parser lines) 0).0.error ≡ false)
    × ((feed_pieces lines accepted in_pieces (new_parser lines) 0).0.parser ≡ false)
    × ((feed_pieces lines accepted in_pieces (new_parser lines) 0).1 ≡ 1)
unfolding before behind starts_with
feed_pieces-message_example =
    feed_pieces-message lines accepted lines-IsLlhttp asked in_pieces (new_parser lines) 0 false
      refl
      (more false true false 47 (97 ∷ 63 ∷ []) ((98 ∷ 10 ∷ []) ∷ [])
        (message_begin ∷ url (codes "/a?") ∷ [])
        (url (98 ∷ []) ∷ line_ends (98 ∷ []) ++ message_complete ∷ []) refl
        (last true false 98 (10 ∷ []) (url (98 ∷ []) ∷ line_ends (98 ∷ []) ++ message_complete ∷ [])
          refl))

-- Two requests, of which the second does not keep the connection alive, and a third.
abbrev coming : List (List ℕ)
coming = codes "/a?" ∷ (98 ∷ 10 ∷ codes "/bye" ++ 10 ∷ 47 ∷ 99 ∷ 10 ∷ []) ∷ (47 ∷ 99 ∷ 10 ∷ []) ∷ []

abbrev around : Surroundings
around = record { date = []; room = λ n. true }

abbrev leaves : RequestContext → Bool × RequestContext
leaves ctx = (false, ctx)

run_pieces-recv_buf_example :
    (h : HttpSession Bool) × (run_pieces lines around leaves coming (new_http_session lines 65536)
      ≡ goes_on h)
    × (h.side.recv_buf ≡ Recv.init 65536)
run_pieces-recv_buf_example = run_pieces-recv_buf lines lines-IsLlhttp around leaves 65536 coming

run_pieces-AllButLast_example :
    (h : HttpSession Bool) × (run_pieces lines around leaves coming (new_http_session lines 65536)
      ≡ goes_on h)
    × AllButLast (handled h.served.done)
    × (h.parser.error ≡ false
        → All (λ (r : HttpRequest). r.keep_alive ≡ true) (handled h.served.done))
run_pieces-AllButLast_example =
    run_pieces-AllButLast lines lines-IsLlhttp around leaves 65536 coming
