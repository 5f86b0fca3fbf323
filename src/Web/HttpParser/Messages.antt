-- ===== src/Web/HttpParser/Messages.antt =====
-- The calls that llhttp makes for a request, in whatever parts, and what the parser makes of them.
use libiouring_server.Common.{
  ℕ, ◌≡◌, refl, ap, subst, ◌∙◌, inl, inr, Bool, List, [], ◌∷◌, ◌++◌, append_assoc, append-nil, map,
  Option-cases, none, some, ◌==◌, if◌then◌else◌, Bool-cases, arith,
}
use libiouring_server.Common.Texts.{before, behind}
use libiouring_server.Web.Method.{from_llhttp}
use libiouring_server.Web.Request.{
  Header, HttpRequest, new_request, clear, add_header, value_or_empty, parse_url,
}
use libiouring_server.Web.HttpParser.{
  Callback, message_begin, url_complete, header_field_complete, header_value_complete,
  message_complete, url, header_field, header_value, body, headers_complete, HttpParser, Answered,
  on_message_begin, on_url_complete, on_headers_complete, on_header_value_complete,
  on_message_complete, called, all_called,
}

-- A text from its parts.
unfoldable pub whole : List (List ℕ) → List ℕ
whole [] = []
whole (s ∷ ss) = s ++ whole ss

-- A request as llhttp reports it: each text in parts.
pub record Message : Type 0 where
  pub method : ℕ
  pub keep_alive : Bool
  pub url_parts : List (List ℕ)
  pub header_parts : List (List (List ℕ) × List (List ℕ))
  pub body_parts : List (List ℕ)

abbrev pub header_calls : List (List (List ℕ) × List (List ℕ)) → List Callback
header_calls [] = []
header_calls ((name, value) ∷ hs) =
    map header_field name
    ++ header_field_complete ∷ (map header_value value ++ header_value_complete ∷ header_calls hs)

-- The calls for a message, in llhttp's order.
abbrev pub message_calls : Message → List Callback
message_calls m =
    message_begin
    ∷ (map url m.url_parts
        ++ url_complete
          ∷ (header_calls m.header_parts
              ++ headers_complete m.method m.keep_alive
                ∷ (map body m.body_parts ++ message_complete ∷ [])))

abbrev pub whole_headers : List (List (List ℕ) × List (List ℕ)) → List Header
whole_headers [] = []
whole_headers ((name, value) ∷ hs) =
    (record { name = whole name; value = whole value }) ∷ whole_headers hs

-- The request, written without regard to the parser.
abbrev pub request_of : Message → HttpRequest
request_of m = record new_request {
  method = from_llhttp m.method;
  keep_alive = m.keep_alive;
  path = before 63 (whole m.url_parts);
  query = value_or_empty (behind 63 (whole m.url_parts));
  headers = whole_headers m.header_parts;
  body = whole m.body_parts;
}

before_absent : (c : ℕ) (s : List ℕ) → behind c s ≡ none → before c s ≡ s
unfolding before behind
before_absent c [] h = refl
before_absent c (d ∷ s) h = elim (Bool-cases (d == c)) [
  | inl e ↦
      absurd
        (let f : some s ≡ none = subst (λ b. (if b then some s else behind c s) ≡ none) e h in cc)
  | inr e ↦
      rw e (
        ap (◌∷◌ d) (before_absent c s (subst (λ b. (if b then some s else behind c s) ≡ none) e h)))
]

parse_url_lem :
    (s : List ℕ) (r : HttpRequest)
    → parse_url s r ≡ record r { path = before 63 s; query = value_or_empty (behind 63 s) }
unfolding parse_url value_or_empty
parse_url_lem s r = elim (Option-cases (behind 63 s)) [
  | inl e ↦ ground (arith, before_absent 63 s e)
  | inr (q, e) ↦ ground arith
]

regroup :
    (name value : List (List ℕ)) (hs : List (List (List ℕ) × List (List ℕ))) (cs : List Callback)
    → header_calls ((name, value) ∷ hs) ++ cs
      ≡ map header_field name
        ++ header_field_complete
          ∷ (map header_value value ++ header_value_complete ∷ (header_calls hs ++ cs))
regroup name value hs cs = simp append_assoc

module _ {S X : Type 0} (on_request : HttpRequest → X → Answered X) where
  pub all_called-append :
      (cs ds : List Callback) (p : HttpParser S) (x : X)
      → all_called on_request (cs ++ ds) p x
        ≡ all_called on_request ds (all_called on_request cs p x).0 (all_called on_request cs p x).1
  unfolding all_called
  all_called-append [] ds p x = refl
  all_called-append (c ∷ cs) ds p x =
      all_called-append cs ds (called on_request c p x).0 (called on_request c p x).1

  url_calls :
      (ss : List (List ℕ)) (cs : List Callback) (p : HttpParser S) (x : X)
      → all_called on_request (map url ss ++ cs) p x
        ≡ all_called on_request cs (record p { raw_url = p.raw_url ++ whole ss }) x
  unfolding all_called called whole
  url_calls [] cs p x = simp append-nil
  url_calls (s ∷ ss) cs p x =
      url_calls ss cs (record p { raw_url = p.raw_url ++ s }) x ∙ simp append_assoc

  name_calls :
      (ss : List (List ℕ)) (cs : List Callback) (p : HttpParser S) (x : X)
      → all_called on_request (map header_field ss ++ cs) p x
        ≡ all_called on_request cs
            (record p { current_header_field = p.current_header_field ++ whole ss })
            x
  unfolding all_called called whole
  name_calls [] cs p x = simp append-nil
  name_calls (s ∷ ss) cs p x =
      name_calls ss cs (record p { current_header_field = p.current_header_field ++ s }) x
      ∙ simp append_assoc

  value_calls :
      (ss : List (List ℕ)) (cs : List Callback) (p : HttpParser S) (x : X)
      → all_called on_request (map header_value ss ++ cs) p x
        ≡ all_called on_request cs
            (record p { current_header_value = p.current_header_value ++ whole ss })
            x
  unfolding all_called called whole
  value_calls [] cs p x = simp append-nil
  value_calls (s ∷ ss) cs p x =
      value_calls ss cs (record p { current_header_value = p.current_header_value ++ s }) x
      ∙ simp append_assoc

  body_calls :
      (ss : List (List ℕ)) (cs : List Callback) (p : HttpParser S) (x : X)
      → all_called on_request (map body ss ++ cs) p x
        ≡ all_called on_request cs
            (record p { request = record p.request { body = p.request.body ++ whole ss } })
            x
  unfolding all_called called whole
  body_calls [] cs p x = simp append-nil
  body_calls (s ∷ ss) cs p x =
      body_calls ss cs (record p { request = record p.request { body = p.request.body ++ s } }) x
      ∙ simp append_assoc

  -- Between two headers nothing is gathered.
  header_calls_lem :
      (hs : List (List (List ℕ) × List (List ℕ))) (cs : List Callback) (p : HttpParser S) (x : X)
      → p.current_header_field ≡ []
      → p.current_header_value ≡ []
      → all_called on_request (header_calls hs ++ cs) p x
        ≡ all_called on_request cs
            (record p {
              request = record p.request { headers = p.request.headers ++ whole_headers hs };
            })
            x
  unfolding all_called called add_header on_header_value_complete
  header_calls_lem [] cs p x f v = simp append-nil
  header_calls_lem ((name, value) ∷ hs) cs p x f v =
      let p1 = record p { current_header_field = p.current_header_field ++ whole name } in
      let p2 = record p1 { current_header_value = p.current_header_value ++ whole value } in
      let values = map header_value value ++ header_value_complete ∷ (header_calls hs ++ cs) in
      ap (λ (ds : List Callback). all_called on_request ds p x) (regroup name value hs cs)
      ∙ name_calls name (header_field_complete ∷ values) p x
      ∙ value_calls value (header_value_complete ∷ (header_calls hs ++ cs)) p1 x
      ∙ header_calls_lem hs cs (on_header_value_complete p2) x refl refl
      ∙ simp (f, v, append_assoc)

  pub all_called-message_calls :
      (m : Message) (p : HttpParser S) (x : X)
      → all_called on_request (message_calls m) p x
        ≡ on_message_complete on_request
            (record p {
              request = request_of m;
              current_header_field = [];
              current_header_value = [];
              raw_url = whole m.url_parts;
            })
            x
  unfolding all_called called clear on_message_begin on_url_complete on_headers_complete
  all_called-message_calls m p x =
      let p1 = on_message_begin p in
      let p2 = record p1 { raw_url = whole m.url_parts } in
      let p3 = on_url_complete p2 in
      url_calls m.url_parts _ p1 x
      ∙ header_calls_lem m.header_parts _ p3 x refl refl
      ∙ rw (parse_url_lem (whole m.url_parts) (clear p.request))
          (body_calls m.body_parts (message_complete ∷ []) _ x)
