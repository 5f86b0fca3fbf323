-- ===== src/Session.antt =====
-- src/io/Session.cpp: a connection between the ring and its handler. `Ring` is what the kernel
-- still has of the session's requests; a `Room` says which requests the ring takes in one call.
-- Callbacks of the application are recorded, and what it calls from OnRecv is an argument.
pub mod Invariant
pub mod Sending
pub mod Completions
pub mod Life
pub mod Settle
mod Examples
use libiouring_server.Common.{
  ℕ, ◌+◌, ◌-◌, ◌^◌, Bool, true, false, not, ◌&&◌, List, [], ◌∷◌, ◌++◌, ltb, ◌==◌, if◌then◌else◌,
}
use libiouring_server.Common.Word.{add32, sub32}
use libiouring_server.Buffer.Send
use libiouring_server.Buffer.Send.{SendQueue, PushResult, push, drain, mark_sent}

-- A call of the application's functions.
pub data Notice : Type 0 where
  connected overflow disconnected : Notice
  received : List ℕ → Notice

-- The requests whose completions are still to come, and the buffers that the kernel reads.
pub record Ring : Type 0 where
  pub recvs : ℕ
  pub sends : ℕ
  pub disconnects : ℕ
  pub message : List ℕ

-- Whether PrepRecvMultishot, PrepSendMsg and PrepDisconnect find a free entry.
pub record Room : Type 0 where
  pub recv : Bool
  pub send : Bool
  pub disconnect : Bool

-- pending_io_ is an int, by its 32 bits.
pub record Session : Type 0 where
  pub disconnecting : Bool
  pub pending_io : ℕ
  pub self_ref : Bool
  pub send_queue : SendQueue
  pub in_flight_bufs : List ℕ
  pub ring : Ring
  pub notices : List Notice

pub increment : ℕ → ℕ
increment n = add32 n 1

pub decrement : ℕ → ℕ
decrement n = sub32 n 1

-- pending_io_ > 0
unfoldable pub positive : ℕ → Bool
positive n = ltb 0 n && ltb n (2 ^ 31)

unfoldable pub try_release : Session → Session
try_release s =
    if positive s.pending_io
    then s
    else record s { notices = s.notices ++ disconnected ∷ []; self_ref = false }

unfoldable pub disconnect : Room → Session → Session
disconnect room s =
    let t = record s { disconnecting = true } in
    if s.disconnecting
    then s
    else if room.disconnect
    then record t {
      pending_io = increment s.pending_io;
      ring = record s.ring { disconnects = s.ring.disconnects + 1 };
    }
    else try_release (record t { pending_io = 0 })

-- SendBatch behind its guards.
unfoldable pub submit : Room → List ℕ → Session → Session
submit room bufs s =
    if room.send
    then record s {
      in_flight_bufs = bufs;
      pending_io = increment s.pending_io;
      ring = record s.ring { sends = s.ring.sends + 1; message = bufs };
    }
    else disconnect room
        (record s { in_flight_bufs = []; pending_io = decrement (increment s.pending_io) })

unfoldable pub send_batch : Room → List ℕ → Session → Session
send_batch room [] s = s
send_batch room (b ∷ bs) s = if s.disconnecting then s else submit room (b ∷ bs) s

unfoldable pub register_send : Room → Session → Session
register_send room s =
    let (bufs, q) = drain s.send_queue in
    if s.disconnecting then s else send_batch room bufs (record s { send_queue = q })

unfoldable pub register_recv : Room → Session → Session
register_recv room s =
    if s.disconnecting
    then s
    else if room.recv
    then record s {
      pending_io = increment s.pending_io;
      ring = record s.ring { recvs = s.ring.recvs + 1 };
    }
    else disconnect room (record s { pending_io = decrement (increment s.pending_io) })

-- What Send returns.
pub data Sent : Type 0 where
  queued not_connected send_failed : Sent

-- Send behind its guard, with what Push answers.
unfoldable pub after_push : Room → PushResult × SendQueue → Session → Sent × Session
after_push room (r, q) s =
    let t = record s { send_queue = q } in
    if r.overflowed
    then (send_failed, disconnect room (record t { notices = s.notices ++ overflow ∷ [] }))
    else (queued, if r.needs_register then register_send room t else t)

unfoldable pub send : Room → ℕ → Session → Sent × Session
send room buf s =
    if s.disconnecting then (not_connected, s) else after_push room (push buf s.send_queue) s

-- What the application calls.
pub data Action : Type 0 where
  calls_send : Room → ℕ → Action
  calls_disconnect : Room → Action

unfoldable pub act : Action → Session → Session
act (calls_send room buf) s = (send room buf s).1
act (calls_disconnect room) s = disconnect room s

unfoldable pub perform : List Action → Session → Session
perform [] s = s
perform (a ∷ rest) s = perform rest (act a s)

unfoldable pub start : Room → List Action → Session → Session
start room actions s =
    register_recv room
      (perform actions (record s { self_ref = true; notices = s.notices ++ connected ∷ [] }))

-- The result of a receive: 0, -ENOBUFS, another error, or the bytes of the provided buffer.
pub data Result : Type 0 where
  closed no_buffers failed : Result
  bytes : List ℕ → Result

-- The first part of OnRecv, up to the return of the buffer.
unfoldable pub take_in : Bool → Bool → Result → List Action → Session → Session
take_in more has_buffer (bytes view) actions s =
    let t = record s {
      pending_io = if more then s.pending_io else decrement s.pending_io;
      ring = record s.ring { recvs = if more then s.ring.recvs else s.ring.recvs - 1 };
    } in
    if has_buffer && not s.disconnecting
    then perform actions (record t { notices = s.notices ++ received view ∷ [] })
    else t
take_in more has_buffer res actions s = record s {
  pending_io = if more then s.pending_io else decrement s.pending_io;
  ring = record s.ring { recvs = if more then s.ring.recvs else s.ring.recvs - 1 };
}

-- The second part, by the result.
unfoldable pub go_on : Room → Bool → Result → Session → Session
go_on room more closed s = disconnect room s
go_on room more no_buffers s = register_recv room s
go_on room more failed s = disconnect room s
go_on room more (bytes view) s = if more then s else register_recv room s

unfoldable pub on_recv : Room → Bool → Bool → Result → List Action → Session → Session
on_recv room more has_buffer res actions s =
    let t = take_in more has_buffer res actions s in
    if t.disconnecting then try_release t else go_on room more res t

-- OnSend behind the release of the buffers.
unfoldable pub after_send : Room → Bool → Session → Session
after_send room ok s =
    let (bufs, q) = drain (mark_sent s.send_queue) in
    if s.disconnecting
    then try_release s
    else if not ok
    then disconnect room s
    else send_batch room bufs (record s { send_queue = q })

-- `ok` is res >= 0.
unfoldable pub on_send : Room → Bool → Session → Session
on_send room ok s = after_send room ok (record s {
  in_flight_bufs = [];
  pending_io = decrement s.pending_io;
  ring = record s.ring { sends = s.ring.sends - 1; message = [] };
})

unfoldable pub on_disconnect : Session → Session
on_disconnect s = try_release (record s {
  pending_io = decrement s.pending_io;
  ring = record s.ring { disconnects = s.ring.disconnects - 1 };
})

-- A session before Start, with the limit of its send queue.
unfoldable pub init : ℕ → Session
init max_pending = record {
  disconnecting = false;
  pending_io = 0;
  self_ref = false;
  send_queue = Send.init max_pending;
  in_flight_bufs = [];
  ring = record { recvs = 0; sends = 0; disconnects = 0; message = [] };
  notices = [];
}
