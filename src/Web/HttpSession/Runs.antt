-- ===== src/Web/HttpSession/Runs.antt =====
-- Sessions that get their input piece by piece.
use libiouring_server.Common.{
  ℕ, ◌≡◌, refl, ap, ◌∙◌, ◌⊎◌, inl, inr, Bool, true, false, List, [], ◌∷◌, map, length, ltb, All,
  Bool-cases, arith,
}
use libiouring_server.Buffer.Recv as Recv
use libiouring_server.Buffer.Recv.{is_empty}
use libiouring_server.Web.Request.{HttpRequest}
use libiouring_server.Web.Response.{Surroundings}
use libiouring_server.Web.Context.{RequestContext}
use libiouring_server.Web.HttpParser.{Llhttp, IsLlhttp, Fed}
use libiouring_server.Web.HttpParser.Feeding.{feed_parser-Fine}
use libiouring_server.Web.HttpSession.{
  acts, Mode, http, web_socket, Served, HttpSession, new_http_session, handle_request, refused,
  Outcome, goes_on, refuses, after_fed, fed_directly, as_web_socket, feed_session, handle_http_recv,
  received_in, on_received, then_received, run_pieces,
}
use libiouring_server.WebSocket.Session.{
  Effect, WebSocketSide, received, after_feed, handle_ws_recv,
}
use libiouring_server.Web.HttpSession.Handled.{
  handled, AllButLast, handled-refused, handled-acts, Keeps, did-Keeps, handle_request-Keeps,
}

is_empty-init : (size : ℕ) → is_empty (Recv.init size) ≡ true
unfolding is_empty Recv.init
is_empty-init size = refl

module _ (l : Llhttp) (law : IsLlhttp l) (s : Surroundings)
    (dispatch : RequestContext → Bool × RequestContext) (size : ℕ) where
  -- The buffer is as new, and what was handled is as it should be.
  abbrev Sound : HttpSession l.State → Type 0
  Sound h = (h.side.recv_buf ≡ Recv.init size) × Keeps h.parser.error h.served

  abbrev SoundRun : Outcome l.State → Type 0
  SoundRun o = (h : HttpSession l.State) × (o ≡ goes_on h) × Sound h

  fed_directly-Sound :
      (h : HttpSession l.State) (input : List ℕ) (fed : Fed l.State Served)
      → h.side.recv_buf ≡ Recv.init size
      → ((fed.parser.error ≡ true) ⊎ (fed.consumed ≡ length input))
      → Keeps fed.parser.error fed.owner
      → SoundRun (fed_directly s h input fed)
  unfolding fed_directly refuses after_fed
  fed_directly-Sound h input fed b taken k = elim (Bool-cases fed.parser.error) [
    | inl e ↦ (
      refuses s (after_fed fed h),
      rw e refl,
      (b, did-Keeps fed.parser.error (refused s) fed.owner (handled-refused s) k),
    )
    | inr e ↦ (after_fed fed h, rw (e, all_taken taken e) refl, (b, k))
  ]
    where
      all_taken :
          ((fed.parser.error ≡ true) ⊎ (fed.consumed ≡ length input))
          → fed.parser.error ≡ false
          → ltb fed.consumed (length input) ≡ false
      all_taken (inl f) e = cc
      all_taken (inr f) e = ground arith

  handle_http_recv-Sound :
      (h : HttpSession l.State) (input : List ℕ)
      → Sound h
      → SoundRun (handle_http_recv l s dispatch h input)
  unfolding handle_http_recv
  handle_http_recv-Sound h input (b, k) =
      let (taken, k') =
        feed_parser-Fine l law (handle_request s dispatch) Keeps (handle_request-Keeps s dispatch)
          input h.parser h.served k in
      rw (ap is_empty b ∙ is_empty-init size)
        (fed_directly-Sound h input (feed_session l s dispatch h input) b taken k')

  heard-Sound :
      (h : HttpSession l.State) (side : WebSocketSide) (effects : List Effect)
      → side.recv_buf ≡ Recv.init size
      → Keeps h.parser.error h.served
      → SoundRun (as_web_socket h (received side effects))
  unfolding as_web_socket
  heard-Sound h side effects b k =
      (_, refl, (b, did-Keeps h.parser.error (map acts effects) h.served (handled-acts effects) k))

  as_web_socket-Sound :
      (h : HttpSession l.State) (input : List ℕ)
      → Sound h
      → SoundRun (as_web_socket h (handle_ws_recv s.room h.side input))
  unfolding handle_ws_recv after_feed
  as_web_socket-Sound h input (b, k) =
      rw (ap is_empty b ∙ is_empty-init size) (heard-Sound h _ _ b k)

  received_in-Sound :
      (m : Mode) (h : HttpSession l.State) (input : List ℕ)
      → Sound h
      → SoundRun (received_in l s dispatch m h input)
  unfolding received_in
  received_in-Sound http h input k = handle_http_recv-Sound h input k
  received_in-Sound web_socket h input k = as_web_socket-Sound h input k

  run_pieces-Sound :
      (pieces : List (List ℕ)) (h : HttpSession l.State)
      → Sound h
      → SoundRun (run_pieces l s dispatch pieces h)
  unfolding run_pieces then_received on_received
  run_pieces-Sound [] h k = (h, refl, k)
  run_pieces-Sound (input ∷ inputs) h k =
      let (h', e, k') = received_in-Sound h.served.mode h input k in
      rw e (run_pieces-Sound inputs h' k')

  -- Whatever comes in, and whatever llhttp, which stops as it is taken to, and the handlers make
  -- of it: of a session that starts with a new buffer of any size, the buffer is as new behind all
  -- the pieces of input; no byte is ever kept in it, and no copy leaves it.
  pub run_pieces-recv_buf :
      (pieces : List (List ℕ))
      → (h : HttpSession l.State) × (run_pieces l s dispatch pieces (new_http_session l size)
          ≡ goes_on h)
        × (h.side.recv_buf ≡ Recv.init size)
  run_pieces-recv_buf pieces =
      let (h, e, k) = run_pieces-Sound pieces (new_http_session l size) (refl, (tt, λ e. tt)) in
      (h, e, k.0)

  -- Whatever comes in, and whatever llhttp, which stops as it is taken to, and the handlers make
  -- of it: of the requests that a session has had handled, all but the last keep the connection
  -- alive, so that behind one that does not no other is handled; and the last one does too, as
  -- long as the parser has not failed.
  pub run_pieces-AllButLast :
      (pieces : List (List ℕ))
      → (h : HttpSession l.State) × (run_pieces l s dispatch pieces (new_http_session l size)
          ≡ goes_on h)
        × AllButLast (handled h.served.done)
        × (h.parser.error ≡ false
            → All (λ (r : HttpRequest). r.keep_alive ≡ true) (handled h.served.done))
  run_pieces-AllButLast pieces =
      let (h, e, k) = run_pieces-Sound pieces (new_http_session l size) (refl, (tt, λ e. tt)) in
      (h, e, k.1.0, k.1.1)
