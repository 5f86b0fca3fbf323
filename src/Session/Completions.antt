-- ===== src/Session/Completions.antt =====
-- The invariant under the completions that the kernel delivers.
use libiouring_server.Common.{
  ℕ, ◌+◌, ◌-◌, ◌≤◌, ◌≡◌, ◌⊎◌, Bool, true, false, not, List, [], ◌∷◌, if◌then◌else◌, if_cases, arith,
}
use libiouring_server.Buffer.Send.{drain, mark_sent, still_registered}
use libiouring_server.Session.{
  Room, Session, decrement, positive, try_release, send_batch, after_send, on_send, on_disconnect,
}
use libiouring_server.Session.Invariant.{
  releases-disconnected, decrement_lem, Held, Core, disconnect-Core,
}
use libiouring_server.Session.Sending.{send_batch-Core}

-- A session that is being disconnected, behind a completion.
pub record Settling (s : Session) : Type 0 where
  pub ended : s.disconnecting ≡ true
  pub counted : s.pending_io ≡ s.ring.recvs + s.ring.sends + s.ring.disconnects
  pub one_recv : s.ring.recvs ≤ 1
  pub one_send : s.ring.sends ≤ 1
  pub one_disconnect : s.ring.disconnects ≤ 1
  pub kept : s.in_flight_bufs ≡ s.ring.message
  pub idle : (s.ring.sends ≡ 1) ⊎ (s.ring.message ≡ [])
  pub owned : (s.send_queue.registered ≡ true) ⊎ (s.send_queue.pending ≡ [])
  pub held : Held s

-- It is given up exactly when nothing is in flight.
pub try_release-Core :
    (armed due : ℕ) (s : Session) → Settling s → Core true armed due (try_release s)
unfolding try_release positive
try_release-Core armed due s v =
    if_cases (Core true armed due) (positive s.pending_io) (λ e. ground arith)
      (λ e. ground (arith, releases-disconnected s.notices))

-- The completion of the shutdown.
pub on_disconnect-Core :
    (s : Session) → s.ring.disconnects ≡ 1 → Core true 1 0 s → Core true 1 0 (on_disconnect s)
unfolding on_disconnect
on_disconnect-Core s n v =
    let p =
      decrement_lem s.pending_io (omega (arith, v.counted, n))
        (omega (arith, v.counted, v.one_recv, v.one_send, n)) in
    try_release-Core 1 0
      (record s {
        pending_io = decrement s.pending_io;
        ring = record s.ring { disconnects = s.ring.disconnects - 1 };
      })
      (ground arith)

-- The buffers that came while the last ones were sent, if any, are the next message.
next_batch-Core :
    (o : Bool) (room : Room) (bufs : List ℕ) (s : Session)
    → room.disconnect ≡ true
    → Core o 1 1 s
    → s.disconnecting ≡ false
    → s.send_queue.registered ≡ true
    → Core o 1 0 (
        send_batch room bufs (record s {
          send_queue = record s.send_queue {
            pending = [];
            registered = still_registered bufs s.send_queue.registered;
          };
        }))
unfolding send_batch still_registered
next_batch-Core o room [] s h v e r = ground arith
next_batch-Core o room (b ∷ bs) s h v e r =
    send_batch-Core o 1 room (b ∷ bs)
      (record s { send_queue = record s.send_queue { pending = [] } }) h (ground arith) r (λ z. cc)

pub on_send-Core :
    (room : Room) (ok : Bool) (s : Session)
    → room.disconnect ≡ true
    → s.ring.sends ≡ 1
    → Core true 1 0 s
    → Core true 1 0 (on_send room ok s)
unfolding on_send after_send mark_sent drain
on_send-Core room ok s h n v =
    let p =
      decrement_lem s.pending_io (omega (arith, v.counted, n))
        (omega (arith, v.counted, v.one_recv, v.one_disconnect, n)) in
    let t = record s {
      in_flight_bufs = [];
      pending_io = decrement s.pending_io;
      ring = record s.ring { sends = s.ring.sends - 1; message = [] };
    } in
    if_cases (Core true 1 0) s.disconnecting (λ e. try_release-Core 1 0 t (ground arith))
      (λ e.
        if_cases (Core true 1 0) (not ok)
          (λ b. disconnect-Core true 1 1 1 0 room t h (ground arith))
          (λ b. next_batch-Core true room s.send_queue.pending t h (ground arith) e (ground arith)))

-- The session behind the first lines of OnRecv.
abbrev pub counted_down : Bool → Session → Session
counted_down more s = record s {
  pending_io = if more then s.pending_io else decrement s.pending_io;
  ring = record s.ring { recvs = if more then s.ring.recvs else s.ring.recvs - 1 };
}

abbrev pub still_armed : Bool → ℕ
still_armed more = if more then 1 else 0

pub counted_down-Core :
    (more : Bool) (s : Session)
    → s.ring.recvs ≡ 1
    → s.disconnecting ≡ false
    → Core true 1 0 s
    → Core false (still_armed more) 0 (counted_down more s)
counted_down-Core true s n e v = ground arith
counted_down-Core false s n e v =
    let p =
      decrement_lem s.pending_io (omega (arith, v.counted, n))
        (omega (arith, v.counted, v.one_send, v.one_disconnect, n)) in
    ground arith

pub counted_down-Settling :
    (more : Bool) (s : Session)
    → s.ring.recvs ≡ 1
    → s.disconnecting ≡ true
    → Core true 1 0 s
    → Settling (counted_down more s)
counted_down-Settling true s n e v = ground arith
counted_down-Settling false s n e v =
    let p =
      decrement_lem s.pending_io (omega (arith, v.counted, n))
        (omega (arith, v.counted, v.one_send, v.one_disconnect, n)) in
    ground arith

-- The application has been called from a session in use: if it disconnected, a shutdown is in
-- flight.
pub release_later :
    (armed due : ℕ) (s : Session)
    → Core false armed due s
    → s.disconnecting ≡ true
    → Core true 1 0 (try_release s)
unfolding try_release positive
release_later armed due s v e = ground arith

pub loosen : (armed due : ℕ) (s : Session) → Core false armed due s → Core true armed due s
loosen armed due s v = ground arith
