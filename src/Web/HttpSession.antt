-- ===== src/Web/HttpSession.antt =====
-- include/serverweb/HttpSession.h and the HTTP side of src/web/HttpSession.cpp, over HttpParser and the
-- WebSocket side of WebSocket/Session. What the router's handlers do is an argument; the calls of
-- Send and Disconnect, which Session answers, are recorded. last_activity_, which nothing reads, is
-- left out.
pub mod Handled
pub mod Runs
mod Examples
use libiouring_server.Common.{
  ℕ, Bool, true, false, List, [], ◌∷◌, ◌++◌, map, if◌then◌else◌, length, drop, ltb,
}
use libiouring_server.Common.Word.{u32}
use libiouring_server.Common.Texts.{codes}
use libiouring_server.Buffer.Recv as Recv
use libiouring_server.Buffer.Recv.{
  RecvBuffer, Appended, stored, exhausted, append, is_empty, read_region, on_read,
}
use libiouring_server.Web.Request.{HttpRequest}
use libiouring_server.Web.Response.{
  bad_request, HttpResponse, new_response, Surroundings, set_status, set_content_type, set_body,
  set_keep_alive, Built, build, handed, send,
}
use libiouring_server.Web.Context.{RequestContext}
use libiouring_server.Web.HttpParser.{Llhttp, HttpParser, new_parser, Answered, Fed, feed_parser}
use libiouring_server.WebSocket.Parser as Parser
use libiouring_server.WebSocket.Session.{
  Effect, WebSocketSide, Received, received, compacted, handle_ws_recv,
}

-- What a session does: it has a request handled, which is kept as the handler leaves it, calls Send,
-- OnOpen or Disconnect, or acts as a WebSocket.
pub data Act : Type 0 where
  handles : HttpRequest → Act
  gives : Built → Act
  opens closes : Act
  acts : Effect → Act

pub data Mode : Type 0 where
  http web_socket : Mode

-- The part of the session that HandleRequest touches.
pub record Served : Type 0 where
  pub mode : Mode
  pub done : List Act

pub record HttpSession (S : Type 0) : Type 0 where
  pub parser : HttpParser S
  pub side : WebSocketSide
  pub served : Served

-- The buffer's size is given.
abbrev pub new_http_session : (l : Llhttp) → ℕ → HttpSession l.State
new_http_session l size = record {
  parser = new_parser l;
  side = record { ws_parser = Parser.init; recv_buf = Recv.init size };
  served = record { mode = http; done = [] };
}

unfoldable pub did : List Act → Served → Served
did more x = record x { done = x.done ++ more }

-- Of Dispatch: the context as it leaves it, and whether a handler has called UpgradeToWebSocket, which
-- it is taken to do behind what it sends.
unfoldable pub dispatched : Surroundings → Bool → RequestContext → List Act
dispatched s upgraded ctx =
    handles ctx.request
    ∷ (map gives ctx.handed_over
        ++ ((if upgraded then opens ∷ [] else [])
            ++ (map gives (send s ctx.response).1
                ++ (if ctx.request.keep_alive then [] else closes ∷ []))))

unfoldable pub upgraded_mode : Bool → Mode → Mode
upgraded_mode upgraded mode = if upgraded then web_socket else mode

abbrev pub new_context : HttpRequest → RequestContext
new_context request = record {
  request = request;
  response = set_keep_alive request.keep_alive (new_response true);
  handed_over = [];
  thrown = false;
}

-- Send of a response that is sent already does nothing.
unfoldable pub handle_request :
    Surroundings → (RequestContext → Bool × RequestContext) → HttpRequest → Served → Answered Served
unfolding did upgraded_mode dispatched
handle_request s dispatch request x =
    let (upgraded, ctx) = dispatch (new_context request) in
    record {
      cont = ctx.request.keep_alive;
      request = ctx.request;
      owner = did (dispatched s upgraded ctx) (record x { mode = upgraded_mode upgraded x.mode });
    }

-- The answer to a request that cannot be parsed.
unfoldable pub bad_request_answer : Surroundings → Built
bad_request_answer s = build s (
    set_keep_alive false (
      set_body (codes "Bad Request")
        (set_content_type (codes "text/plain") (set_status bad_request (new_response false)))))

unfoldable pub refused : Surroundings → List Act
refused s = map gives (handed (bad_request_answer s)) ++ closes ∷ []

-- The session goes on, or has copied past the end of its buffer.
pub data Outcome (S : Type 0) : Type 0 where
  goes_on : HttpSession S → Outcome S
  fault : Outcome S

module _ {S : Type 0} where
  unfoldable pub disconnected : HttpSession S → HttpSession S
  unfolding did
  disconnected h = record h { served = did (closes ∷ []) h.served }

  unfoldable pub refuses : Surroundings → HttpSession S → HttpSession S
  unfolding did
  refuses s h = record h { served = did (refused s) h.served }

  unfoldable pub with_buffer : RecvBuffer → HttpSession S → HttpSession S
  with_buffer b h = record h { side = record h.side { recv_buf = b } }

  unfoldable pub after_fed : Fed S Served → HttpSession S → HttpSession S
  after_fed fed h = record h { parser = fed.parser; served = fed.owner }

  -- The rest of the input is kept.
  unfoldable pub rest_kept : HttpSession S → Appended → Outcome S
  rest_kept h (stored b) = goes_on (with_buffer b h)
  rest_kept h (exhausted b) = goes_on (disconnected (with_buffer b h))
  rest_kept h Appended.fault = fault

  -- Behind Feed, where the buffer was empty.
  unfoldable pub fed_directly : Surroundings → HttpSession S → List ℕ → Fed S Served → Outcome S
  fed_directly s h input fed =
      if fed.parser.error
      then goes_on (refuses s (after_fed fed h))
      else if ltb fed.consumed (length input)
      then rest_kept (after_fed fed h) (append h.side.recv_buf (drop fed.consumed input))
      else goes_on (after_fed fed h)

  -- Behind Feed of what the buffer holds.
  unfoldable pub fed_from_buffer :
      Surroundings → HttpSession S → RecvBuffer → Fed S Served → Outcome S
  fed_from_buffer s h b fed =
      if fed.parser.error
      then goes_on (refuses s (with_buffer b (after_fed fed h)))
      else goes_on (with_buffer (compacted (on_read b (u32 fed.consumed))) (after_fed fed h))

  -- Behind HandleWsRecv.
  unfoldable pub as_web_socket : HttpSession S → Received → Outcome S
  unfolding did
  as_web_socket h (received side effects) =
      goes_on (record h { side = side; served = did (map acts effects) h.served })
  as_web_socket h Received.fault = fault

module _ (l : Llhttp) (s : Surroundings) (dispatch : RequestContext → Bool × RequestContext) where
  -- Feed with HandleRequest as its callback.
  unfoldable pub feed_session : HttpSession l.State → List ℕ → Fed l.State Served
  feed_session h input = feed_parser l (handle_request s dispatch) input h.parser h.served

  unfoldable pub appended_then_fed : HttpSession l.State → Appended → Outcome l.State
  appended_then_fed h (stored b) = fed_from_buffer s h b (feed_session h (read_region b))
  appended_then_fed h (exhausted b) = goes_on (disconnected (with_buffer b h))
  appended_then_fed h Appended.fault = fault

  unfoldable pub handle_http_recv : HttpSession l.State → List ℕ → Outcome l.State
  unfolding feed_session
  handle_http_recv h input =
      if is_empty h.side.recv_buf
      then fed_directly s h input (feed_session h input)
      else appended_then_fed h (append h.side.recv_buf input)

  unfoldable pub received_in : Mode → HttpSession l.State → List ℕ → Outcome l.State
  received_in http h input = handle_http_recv h input
  received_in web_socket h input = as_web_socket h (handle_ws_recv s.room h.side input)

  -- HttpSession::OnRecv
  unfoldable pub on_received : HttpSession l.State → List ℕ → Outcome l.State
  unfolding received_in
  on_received h input = received_in h.served.mode h input

  unfoldable pub then_received :
      (HttpSession l.State → Outcome l.State) → Outcome l.State → Outcome l.State
  then_received go (goes_on h) = go h
  then_received go fault = fault

  -- What comes in piece by piece.
  unfoldable pub run_pieces : List (List ℕ) → HttpSession l.State → Outcome l.State
  run_pieces [] h = goes_on h
  run_pieces (input ∷ inputs) h = then_received (run_pieces inputs) (on_received h input)
