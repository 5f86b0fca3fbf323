-- ===== src/Web/HttpParser.antt =====
-- include/serverweb/HttpParser.h and src/web/HttpParser.cpp. llhttp is an argument: how it cuts its
-- input into calls of the functions in the settings is free. The callback for requests is taken as
-- set; what it does to its owner is a value beside the parser.
pub mod Feeding
pub mod Messages
pub mod Pieces
use libiouring_server.Common.{
  ℕ, zero, suc, ◌+◌, ◌≤◌, ◌<◌, ◌≡◌, Bool, true, false, List, [], ◌∷◌, ◌++◌, Option, none, some,
  length, drop, All, if◌then◌else◌,
}
use libiouring_server.Web.Method.{from_llhttp}
use libiouring_server.Web.Request.{HttpRequest, new_request, clear, add_header, parse_url}

-- A call that llhttp makes. Of the headers' end: llhttp_get_method and llhttp_should_keep_alive.
pub data Callback : Type 0 where
  message_begin url_complete header_field_complete header_value_complete message_complete : Callback
  url header_field header_value body : List ℕ → Callback
  headers_complete : ℕ → Bool → Callback

-- HPE_OK, HPE_PAUSED, or another error, these with how far the position of the error is from the
-- beginning of the input.
pub data Errno : Type 0 where
  hpe_ok : Errno
  hpe_paused hpe_error : ℕ → Errno

pub record Llhttp : Type 1 where
  pub State : Type 0
  pub llhttp_init : State
  pub llhttp_execute : State → List ℕ → List Callback × Errno × State
  pub llhttp_resume : State → State

abbrev pub IsInner : Callback → Type 0
IsInner c = (c ≡ message_complete) → ⊥

-- What the code relies on. on_message_complete, and no other function of the settings, answers
-- HPE_PAUSED: then, and only then, the input is left there, behind one byte at least.
abbrev pub Stops : List ℕ → List Callback → Errno → Type 0
Stops input calls hpe_ok = All IsInner calls
Stops input calls (hpe_paused n) =
    (inner : List Callback) × (calls ≡ inner ++ message_complete ∷ [])
    × All IsInner inner
    × (0 < n)
    × (n ≤ length input)
Stops input calls (hpe_error n) = All IsInner calls

pub record IsLlhttp (l : Llhttp) : Type 0 where
  pub stops :
      (s : l.State) (input : List ℕ)
      → Stops input (l.llhttp_execute s input).0 (l.llhttp_execute s input).1

pub record HttpParser (S : Type 0) : Type 0 where
  pub parser : S
  pub request : HttpRequest
  pub error : Bool
  pub current_header_field : List ℕ
  pub current_header_value : List ℕ
  pub raw_url : List ℕ

abbrev pub new_parser : (l : Llhttp) → HttpParser l.State
new_parser l = record {
  parser = l.llhttp_init;
  request = new_request;
  error = false;
  current_header_field = [];
  current_header_value = [];
  raw_url = [];
}

unfoldable pub reset_parser : (l : Llhttp) → HttpParser l.State → HttpParser l.State
reset_parser l p = record p {
  parser = l.llhttp_init;
  request = clear p.request;
  current_header_field = [];
  current_header_value = [];
  raw_url = [];
  error = false;
}

-- What the callback answers, with the request and its owner as it leaves them.
pub record Answered (X : Type 0) : Type 0 where
  pub cont : Bool
  pub request : HttpRequest
  pub owner : X

module _ {S : Type 0} where
  unfoldable pub on_message_begin : HttpParser S → HttpParser S
  on_message_begin p = record p {
    request = clear p.request;
    current_header_field = [];
    current_header_value = [];
    raw_url = [];
  }

  unfoldable pub on_url : List ℕ → HttpParser S → HttpParser S
  on_url at p = record p { raw_url = p.raw_url ++ at }

  unfoldable pub on_url_complete : HttpParser S → HttpParser S
  on_url_complete p = record p { request = parse_url p.raw_url p.request }

  unfoldable pub on_header_field : List ℕ → HttpParser S → HttpParser S
  on_header_field at p = record p { current_header_field = p.current_header_field ++ at }

  unfoldable pub on_header_value : List ℕ → HttpParser S → HttpParser S
  on_header_value at p = record p { current_header_value = p.current_header_value ++ at }

  unfoldable pub on_header_value_complete : HttpParser S → HttpParser S
  on_header_value_complete p = record p {
    request = add_header p.current_header_field p.current_header_value p.request;
    current_header_field = [];
    current_header_value = [];
  }

  unfoldable pub on_headers_complete : ℕ → Bool → HttpParser S → HttpParser S
  on_headers_complete method keep p = record p {
    request = record p.request { method = from_llhttp method; keep_alive = keep };
  }

  unfoldable pub on_body : List ℕ → HttpParser S → HttpParser S
  on_body at p = record p { request = record p.request { body = p.request.body ++ at } }

module _ {S X : Type 0} where
  -- The error is set where the callback answers false, and is left else.
  unfoldable pub on_message_complete :
      (HttpRequest → X → Answered X) → HttpParser S → X → HttpParser S × X
  on_message_complete on_request p x =
      let answer = on_request p.request x in
      (
        record p { request = answer.request; error = if answer.cont then p.error else true },
        answer.owner,
      )

  unfoldable pub called :
      (HttpRequest → X → Answered X) → Callback → HttpParser S → X → HttpParser S × X
  unfolding on_message_begin on_url on_url_complete on_header_field on_header_value
      on_header_value_complete on_headers_complete on_body
  called on_request message_begin p x = (on_message_begin p, x)
  called on_request url_complete p x = (on_url_complete p, x)
  called on_request header_field_complete p x = (p, x)
  called on_request header_value_complete p x = (on_header_value_complete p, x)
  called on_request message_complete p x = on_message_complete on_request p x
  called on_request (url at) p x = (on_url at p, x)
  called on_request (header_field at) p x = (on_header_field at p, x)
  called on_request (header_value at) p x = (on_header_value at p, x)
  called on_request (body at) p x = (on_body at p, x)
  called on_request (headers_complete method keep) p x = (on_headers_complete method keep p, x)

  unfoldable pub all_called :
      (HttpRequest → X → Answered X) → List Callback → HttpParser S → X → HttpParser S × X
  all_called on_request [] p x = (p, x)
  all_called on_request (c ∷ cs) p x =
      let (p', x') = called on_request c p x in all_called on_request cs p' x'

-- What Feed returns, with the parser and the owner of its callback.
pub record Fed (S X : Type 0) : Type 0 where
  pub consumed : ℕ
  pub parser : HttpParser S
  pub owner : X

module _ (l : Llhttp) {X : Type 0} where
  -- What follows llhttp_execute, with the loop as it goes on. Positions are counted from data on.
  unfoldable pub after_execute :
      (ℕ → List ℕ → HttpParser l.State → X → Option (Fed l.State X))
      → ℕ
      → ℕ
      → List ℕ
      → Errno
      → HttpParser l.State
      → X
      → Option (Fed l.State X)
  after_execute go len current remaining hpe_ok p x =
      some (record { consumed = len; parser = p; owner = x })
  after_execute go len current remaining (hpe_paused n) p x =
      go (current + n) (drop n remaining) (record p { parser = l.llhttp_resume p.parser }) x
  after_execute go len current remaining (hpe_error n) p x =
      some (record { consumed = current + n; parser = record p { error = true }; owner = x })

  unfoldable pub executed :
      (ℕ → List ℕ → HttpParser l.State → X → Option (Fed l.State X))
      → (HttpRequest → X → Answered X)
      → ℕ
      → ℕ
      → List ℕ
      → HttpParser l.State
      → X
      → Option (Fed l.State X)
  executed go on_request len current remaining p x =
      let (calls, err, parser) = l.llhttp_execute p.parser remaining in
      let (p', x') = all_called on_request calls p x in
      after_execute go len current remaining err (record p' { parser = parser }) x'

  -- The loop of Feed; it answers none when the rounds are used up.
  unfoldable pub feed_loop :
      (HttpRequest → X → Answered X)
      → ℕ
      → ℕ
      → ℕ
      → List ℕ
      → HttpParser l.State
      → X
      → Option (Fed l.State X)
  feed_loop on_request n len current [] p x =
      some (record { consumed = current; parser = p; owner = x })
  feed_loop on_request zero len current (b ∷ bs) p x = none
  feed_loop on_request (suc n) len current (b ∷ bs) p x = elim p.error [
    | true ↦ some (record { consumed = current; parser = p; owner = x })
    | false ↦ executed (feed_loop on_request n len) on_request len current (b ∷ bs) p x
  ]

  -- A round that goes on takes one byte or more, so as many rounds as bytes are enough.
  unfoldable pub feed_parser :
      (HttpRequest → X → Answered X) → List ℕ → HttpParser l.State → X → Fed l.State X
  feed_parser on_request input p x =
      elim (feed_loop on_request (length input) (length input) 0 input p x) [
        | none ↦ record { consumed = 0; parser = p; owner = x }
        | some fed ↦ fed
      ]
