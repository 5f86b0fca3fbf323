-- ===== src/Web/Upstream/Session.antt =====
-- UpstreamSession.cpp: the connection to the other server. A Prep call that finds a free entry leaves
-- a request with the kernel, whose completion runs the handler. on_response_ and on_error_ are set
-- together, to callbacks that do not call the session again.
use libiouring_server.Common.{
  ℕ, ◌+◌, ◌-◌, ltb, Bool, true, false, List, [], ◌∷◌, ◌++◌, if◌then◌else◌, Option, none, some,
}
use libiouring_server.Web.Upstream.Parse.{
  Reason, getaddrinfo_failed, socket_failed, prep_connect_failed, connect_failed, no_send_buffer,
  prep_send_failed, send_failed, prep_recv_failed, recv_failed, Report, error, parse_response,
  is_complete,
}

-- connects, sends and recvs count the requests that the kernel has not completed.
pub record UpstreamSession : Type 0 where
  pub has_fd : Bool
  pub connected : Bool
  pub pending_request : List ℕ
  pub recv_buffer : List ℕ
  pub callbacks : Bool
  pub send_buf : Option (List ℕ)
  pub self_ref : Bool
  pub connects : ℕ
  pub sends : ℕ
  pub recvs : ℕ
  pub reports : List Report
  pub buffers_returned : ℕ

abbrev pub new_session : UpstreamSession
new_session = record {
  has_fd = false;
  connected = false;
  pending_request = [];
  recv_buffer = [];
  callbacks = false;
  send_buf = none;
  self_ref = false;
  connects = 0;
  sends = 0;
  recvs = 0;
  reports = [];
  buffers_returned = 0;
}

unfoldable pub close : UpstreamSession → UpstreamSession
close u = record u {
  has_fd = false;
  connected = false;
  pending_request = [];
  callbacks = false;
  self_ref = false;
}

-- if (on_response_) on_response_(...), if (on_error_) on_error_(...)
unfoldable pub report : Report → UpstreamSession → UpstreamSession
report r u = if u.callbacks then record u { reports = u.reports ++ r ∷ [] } else u

unfoldable pub fail : Reason → UpstreamSession → UpstreamSession
fail why u = close (report (error why) u)

unfoldable pub prep_connect : UpstreamSession → UpstreamSession
prep_connect u = record u { connects = u.connects + 1 }

unfoldable pub prep_send : UpstreamSession → UpstreamSession
prep_send u = record u { sends = u.sends + 1 }

unfoldable pub prep_recv : UpstreamSession → UpstreamSession
prep_recv u = record u { recvs = u.recvs + 1 }

-- on_error_, and only the reference is dropped.
unfoldable pub give_up : Reason → UpstreamSession → UpstreamSession
give_up why u = record (report (error why) u) { self_ref = false }

unfoldable pub prepared : List ℕ → UpstreamSession → UpstreamSession
prepared request_bytes u = record u {
  pending_request = request_bytes;
  callbacks = true;
  recv_buffer = [];
  self_ref = true;
}

-- Whether the name is found, the socket is made, and the ring has a free entry.
unfoldable pub connect : Bool → Bool → Bool → List ℕ → UpstreamSession → UpstreamSession
connect resolves makes_socket room request_bytes u =
    let u1 = prepared request_bytes u in
    if resolves
    then (if makes_socket
        then (let u2 = record u1 { has_fd = true } in
            if room then prep_connect u2 else fail prep_connect_failed u2)
        else give_up socket_failed (record u1 { has_fd = false }))
    else give_up getaddrinfo_failed u1

-- Whether the pool has a buffer, and the ring a free entry.
unfoldable pub send_request : Bool → Bool → UpstreamSession → UpstreamSession
send_request buffer room u =
    if buffer
    then (let u1 = record u { send_buf = some u.pending_request; pending_request = [] } in
        if room then prep_send u1 else fail prep_send_failed u1)
    else fail no_send_buffer u

unfoldable pub on_connect : Bool → Bool → Bool → UpstreamSession → UpstreamSession
on_connect succeeds buffer room u =
    if succeeds
    then send_request buffer room (record u { connected = true })
    else fail connect_failed u

unfoldable pub start_recv : Bool → UpstreamSession → UpstreamSession
start_recv room u = if room then prep_recv u else fail prep_recv_failed u

-- How many bytes have been sent does not matter.
unfoldable pub on_send : Bool → Bool → UpstreamSession → UpstreamSession
on_send succeeds room u =
    let u1 = record u { send_buf = none } in
    if succeeds then start_recv room u1 else fail send_failed u1

-- The result of a receive: the end, an error, or bytes; a buffer may have been taken for it, and
-- bytes are then those of the view of it.
pub data Received : Type 0 where
  ended failed : Received
  got : List ℕ → Received

unfoldable pub take_bytes : Received → UpstreamSession → UpstreamSession
take_bytes (got bytes) u = record u { recv_buffer = u.recv_buffer ++ bytes }
take_bytes ended u = u
take_bytes failed u = u

unfoldable pub return_buffer : UpstreamSession → UpstreamSession
return_buffer u = record u { buffers_returned = u.buffers_returned + 1 }

unfoldable pub finish : UpstreamSession → UpstreamSession
finish u = close (report (parse_response u.recv_buffer) u)

unfoldable pub after_recv : Received → Bool → UpstreamSession → UpstreamSession
after_recv ended room u = finish u
after_recv failed room u = fail recv_failed u
after_recv (got bytes) room u = if is_complete u.recv_buffer then finish u else start_recv room u

unfoldable pub on_recv : Received → Bool → Bool → UpstreamSession → UpstreamSession
on_recv result has_buffer room u =
    after_recv result room (if has_buffer then return_buffer (take_bytes result u) else u)

-- The completion of a request, with the answers to what the code then asks.
pub data Completion : Type 0 where
  connect_done : Bool → Bool → Bool → Completion
  send_done : Bool → Bool → Completion
  recv_done : Received → Bool → Bool → Completion

-- A completion that no request waits for does not come.
unfoldable pub step : Completion → UpstreamSession → UpstreamSession
step (connect_done succeeds buffer room) u =
    if ltb 0 u.connects
    then on_connect succeeds buffer room (record u { connects = u.connects - 1 })
    else u
step (send_done succeeds room) u =
    if ltb 0 u.sends then on_send succeeds room (record u { sends = u.sends - 1 }) else u
step (recv_done result has_buffer room) u =
    if ltb 0 u.recvs then on_recv result has_buffer room (record u { recvs = u.recvs - 1 }) else u

-- What happens to a session: a completion, or Close from outside, as WsProxyHandler::OnClose calls
-- it.
pub data Action : Type 0 where
  completes : Completion → Action
  closes : Action

unfoldable pub act : Action → UpstreamSession → UpstreamSession
act (completes c) u = step c u
act closes u = close u

unfoldable pub run : List Action → UpstreamSession → UpstreamSession
run [] u = u
run (a ∷ actions) u = run actions (act a u)
