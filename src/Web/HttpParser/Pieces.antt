-- ===== src/Web/HttpParser/Pieces.antt =====
-- A request whose bytes come over several calls of Feed.
use libiouring_server.Common.{
  ℕ, suc, ◌+◌, ◌≡◌, refl, sym, ap, subst, ◌∙◌, Bool, true, false, not, if◌then◌else◌, List, [], ◌∷◌,
  ◌++◌, length, drop, All, arith,
}
use libiouring_server.Web.Request.{HttpRequest}
use libiouring_server.Web.HttpParser.{
  Callback, IsInner, Errno, hpe_ok, hpe_paused, Llhttp, Stops, IsLlhttp, HttpParser, Answered,
  on_message_complete, called, all_called, after_execute, executed, feed_loop, feed_parser,
}
use libiouring_server.Web.HttpParser.Feeding.{all_called-IsInner, feed_loop-executed}
use libiouring_server.Web.HttpParser.Messages.{
  Message, message_calls, request_of, all_called-append, all_called-message_calls,
}

-- What llhttp makes of pieces of input, the last of which ends a message: the calls, and its state.
pub data Reports (l : Llhttp) : l.State → List (List ℕ) → List Callback → l.State → Type 0 where
  last :
      (s s' : l.State) (b : ℕ) (bs : List ℕ) (cs : List Callback)
      → l.llhttp_execute s (b ∷ bs) ≡ (cs, hpe_paused (length (b ∷ bs)), s')
      → Reports l s ((b ∷ bs) ∷ []) cs (l.llhttp_resume s')
  more :
      (s s' t : l.State) (b : ℕ) (bs : List ℕ) (pieces : List (List ℕ)) (cs ds : List Callback)
      → l.llhttp_execute s (b ∷ bs) ≡ (cs, hpe_ok, s')
      → Reports l s' pieces ds t
      → Reports l s ((b ∷ bs) ∷ pieces) (cs ++ ds) t

drop-length : (s : List ℕ) → drop (length s) s ≡ []
drop-length [] = refl
drop-length (b ∷ bs) = drop-length bs

zero_plus : (n : ℕ) → 0 + n ≡ n
zero_plus n = omega arith

failed : (cont error : Bool) → error ≡ false → (if cont then error else true) ≡ not cont
failed true error f = f
failed false error f = refl

module _ (l : Llhttp) {X : Type 0} (on_request : HttpRequest → X → Answered X) where
  unfoldable pub feed_pieces : List (List ℕ) → HttpParser l.State → X → HttpParser l.State × X
  feed_pieces [] p x = (p, x)
  feed_pieces (piece ∷ pieces) p x =
      let fed = feed_parser l on_request piece p x in feed_pieces pieces fed.parser fed.owner

  -- The calls do not touch llhttp's state.
  called-state :
      (c : Callback) (p : HttpParser l.State) (x : X) (s : l.State)
      → called on_request c (record p { parser = s }) x
        ≡ (record (called on_request c p x).0 { parser = s }, (called on_request c p x).1)
  unfolding called on_message_complete
  called-state Callback.message_begin p x s = refl
  called-state Callback.url_complete p x s = refl
  called-state Callback.header_field_complete p x s = refl
  called-state Callback.header_value_complete p x s = refl
  called-state Callback.message_complete p x s = refl
  called-state (Callback.url at) p x s = refl
  called-state (Callback.header_field at) p x s = refl
  called-state (Callback.header_value at) p x s = refl
  called-state (Callback.body at) p x s = refl
  called-state (Callback.headers_complete method keep) p x s = refl

  all_called-state :
      (cs : List Callback) (p : HttpParser l.State) (x : X) (s : l.State)
      → all_called on_request cs (record p { parser = s }) x
        ≡ (record (all_called on_request cs p x).0 { parser = s }, (all_called on_request cs p x).1)
  unfolding all_called
  all_called-state [] p x s = refl
  all_called-state (c ∷ cs) p x s =
      ap (λ (r : HttpParser l.State × X). all_called on_request cs r.0 r.1) (called-state c p x s)
      ∙ all_called-state cs (called on_request c p x).0 (called on_request c p x).1 s

  feed_parser-executed :
      (b : ℕ) (bs : List ℕ) (p : HttpParser l.State) (x : X) (cs : List Callback) (s : l.State)
      → l.llhttp_execute p.parser (b ∷ bs) ≡ (cs, hpe_ok, s)
      → p.error ≡ false
      → feed_parser l on_request (b ∷ bs) p x ≡ record {
        consumed = length (b ∷ bs);
        parser = record (all_called on_request cs p x).0 { parser = s };
        owner = (all_called on_request cs p x).1;
      }
  unfolding feed_parser executed after_execute feed_loop all_called
  feed_parser-executed b bs p x cs s e f =
      rw (feed_loop-executed l on_request (length bs) (length (b ∷ bs)) 0 b bs p x f, e) refl

  feed_parser-paused :
      (b : ℕ) (bs : List ℕ) (p : HttpParser l.State) (x : X) (cs : List Callback) (s : l.State)
      → l.llhttp_execute p.parser (b ∷ bs) ≡ (cs, hpe_paused (length (b ∷ bs)), s)
      → p.error ≡ false
      → feed_parser l on_request (b ∷ bs) p x ≡ record {
        consumed = length (b ∷ bs);
        parser = record (all_called on_request cs p x).0 { parser = l.llhttp_resume s };
        owner = (all_called on_request cs p x).1;
      }
  unfolding feed_parser executed after_execute feed_loop all_called
  feed_parser-paused b bs p x cs s e f =
      rw (feed_loop-executed l on_request (length bs) (length (b ∷ bs)) 0 b bs p x f, e)
        (rw (drop-length bs, zero_plus (suc (length bs))) refl)

  -- The parser behind the calls, with llhttp in a state.
  abbrev behind_calls : List Callback → HttpParser l.State → X → l.State → HttpParser l.State × X
  behind_calls cs p x t =
      (record (all_called on_request cs p x).0 { parser = t }, (all_called on_request cs p x).1)

  behind_calls-append :
      (cs ds : List Callback) (p : HttpParser l.State) (x : X) (s t : l.State)
      → behind_calls ds (behind_calls cs p x s).0 (behind_calls cs p x s).1 t
        ≡ behind_calls (cs ++ ds) p x t
  behind_calls-append cs ds p x s t =
      let set = λ (r : HttpParser l.State × X).
        let q : HttpParser l.State × X = (record r.0 { parser = t }, r.1) in q in
      ap set
        (all_called-state ds (all_called on_request cs p x).0 (all_called on_request cs p x).1 s)
      ∙ ap set (sym (all_called-append on_request cs ds p x))

  feed_pieces-Reports :
      IsLlhttp l
      → {s t : l.State} {pieces : List (List ℕ)} {cs : List Callback} → Reports l s pieces cs t
      → (p : HttpParser l.State) (x : X) → p.parser ≡ s
      → p.error ≡ false
      → feed_pieces pieces p x ≡ behind_calls cs p x t
  unfolding feed_pieces
  feed_pieces-Reports law (last s s' b bs cs e) p x i f =
      rw (feed_parser-paused b bs p x cs s' (ap (λ u. l.llhttp_execute u (b ∷ bs)) i ∙ e) f) refl
  feed_pieces-Reports law (more s s' t b bs pieces cs ds e r) p x i f =
      let e' = ap (λ u. l.llhttp_execute u (b ∷ bs)) i ∙ e in
      let inner : All IsInner cs =
        subst (λ (o : List Callback × Errno × l.State). Stops (b ∷ bs) o.0 o.1) e'
          (law.stops p.parser (b ∷ bs)) in
      rw (feed_parser-executed b bs p x cs s' e' f) (
        feed_pieces-Reports law r (behind_calls cs p x s').0 (behind_calls cs p x s').1 refl
          (all_called-IsInner on_request (λ error owner. error ≡ false) cs p x inner f)
        ∙ behind_calls-append cs ds p x s' t)

  -- However the bytes of a request come in pieces, none of them empty, the last of which ends with
  -- the request, and in whatever parts llhttp reports it: Feed of the pieces calls the callback
  -- once, with the whole request, whatever a parser that has not failed held before. Behind that
  -- the parser holds the request as the callback leaves it, and has failed exactly where the
  -- callback answers false.
  pub feed_pieces-message :
      IsLlhttp l
      → (m : Message) (pieces : List (List ℕ)) (p : HttpParser l.State) (x : X) (t : l.State)
      → p.error ≡ false
      → Reports l p.parser pieces (message_calls m) t
      → let answer = on_request (request_of m) x in
        ((feed_pieces pieces p x).0.request ≡ answer.request)
        × ((feed_pieces pieces p x).0.error ≡ not answer.cont)
        × ((feed_pieces pieces p x).0.parser ≡ t)
        × ((feed_pieces pieces p x).1 ≡ answer.owner)
  unfolding on_message_complete
  feed_pieces-message law m pieces p x t f r =
      let e =
        feed_pieces-Reports law r p x refl f
        ∙ ap
            (λ (r : HttpParser l.State × X).
              let q : HttpParser l.State × X = (record r.0 { parser = t }, r.1) in q)
            (all_called-message_calls on_request m p x) in
      (
        ap (λ (r : HttpParser l.State × X). r.0.request) e,
        ap (λ (r : HttpParser l.State × X). r.0.error) e
            ∙ failed (on_request (request_of m) x).cont p.error f,
        ap (λ (r : HttpParser l.State × X). r.0.parser) e,
        ap (λ (r : HttpParser l.State × X). r.1) e,
      )
