-- ===== src/Session/Sending.antt =====
-- The invariant under Send, Disconnect and the registrations.
use libiouring_server.Common.{
  ℕ, ◌^◌, ◌<◌, ◌≡◌, ◌≢◌, refl, Bool, true, false, not, length, leb, All, List, [], ◌∷◌, ◌++◌,
  if_cases, arith,
}
use libiouring_server.Buffer.Send.{SendQueue, PushResult, push, drain}
use libiouring_server.Session.{
  overflow, Room, Session, increment, decrement, submit, send_batch, register_send, register_recv,
  Sent, after_push, send, Action, calls_send, calls_disconnect, act, perform,
}
use libiouring_server.Session.Invariant.{
  releases-overflow, increment_lem, decrement_lem, Core, disconnect-Core,
}

back : (n : ℕ) → n < 2 ^ 30 → decrement (increment n) ≡ n
back n h = omega (arith, increment_lem n (omega arith), decrement_lem (increment n))

submit-Core :
    (o : Bool) (armed : ℕ) (room : Room) (bufs : List ℕ) (s : Session)
    → room.disconnect ≡ true
    → Core o armed 1 s
    → s.disconnecting ≡ false
    → s.send_queue.registered ≡ true
    → Core o armed 0 (submit room bufs s)
unfolding submit
submit-Core o armed room bufs s h v e r =
    let same =
      back s.pending_io (omega (arith, v.counted, v.one_recv, v.one_send, v.one_disconnect)) in
    if_cases (Core o armed 0) room.send (λ b. ground (arith, increment_lem s.pending_io))
      (λ b.
        disconnect-Core o armed 1 armed 0 room
          (record s { in_flight_bufs = []; pending_io = decrement (increment s.pending_io) }) h
          (ground (arith, same)))

pub send_batch-Core :
    (o : Bool) (armed : ℕ) (room : Room) (bufs : List ℕ) (s : Session)
    → room.disconnect ≡ true
    → Core o armed 1 s
    → s.send_queue.registered ≡ true
    → bufs ≢ []
    → Core o armed 0 (send_batch room bufs s)
unfolding send_batch
send_batch-Core o armed room [] s h v r n = absurd (n refl)
send_batch-Core o armed room (b ∷ bs) s h v r n =
    if_cases (Core o armed 0) s.disconnecting (λ e. ground arith)
      (λ e. submit-Core o armed room (b ∷ bs) s h v e r)

register_send-Core :
    (o : Bool) (armed : ℕ) (room : Room) (s : Session)
    → room.disconnect ≡ true
    → Core o armed 1 s
    → s.send_queue.registered ≡ true
    → s.send_queue.pending ≢ []
    → Core o armed 0 (register_send room s)
unfolding register_send drain
register_send-Core o armed room s h v r n =
    if_cases (Core o armed 0) s.disconnecting (λ e. ground arith)
      (λ e.
        send_batch-Core o armed room s.send_queue.pending
          (record s { send_queue = record s.send_queue { pending = [] } }) h (ground arith) r n)

pub register_recv-Core :
    (o : Bool) (room : Room) (s : Session)
    → room.disconnect ≡ true
    → Core o 0 0 s
    → Core o 1 0 (register_recv room s)
unfolding register_recv
register_recv-Core o room s h v =
    let same =
      back s.pending_io (omega (arith, v.counted, v.one_recv, v.one_send, v.one_disconnect)) in
    if_cases (Core o 1 0) s.disconnecting (λ e. ground arith)
      (λ e.
        if_cases (Core o 1 0) room.recv (λ b. ground (arith, increment_lem s.pending_io))
          (λ b.
            disconnect-Core o 0 0 1 0 room
              (record s { pending_io = decrement (increment s.pending_io) }) h
              (ground (arith, same))))

not_nil : (xs : List ℕ) (x : ℕ) → xs ++ x ∷ [] ≢ []
not_nil [] x e = cc
not_nil (y ∷ ys) x e = cc

after_push-Core :
    (o : Bool) (armed : ℕ) (room : Room) (buf : ℕ) (s : Session)
    → room.disconnect ≡ true
    → Core o armed 0 s
    → s.disconnecting ≡ false
    → Core o armed 0 (after_push room (push buf s.send_queue) s).1
unfolding after_push push
after_push-Core o armed room buf s h v e =
    if_cases (λ (p : PushResult × SendQueue). Core o armed 0 (after_push room p s).1)
      (leb s.send_queue.max_pending (length s.send_queue.pending))
      (λ full.
        disconnect-Core o armed 0 armed 0 room (record s { notices = s.notices ++ overflow ∷ [] }) h
          (ground (arith, releases-overflow s.notices)))
      (λ free.
        let q = record s.send_queue {
          pending = s.send_queue.pending ++ buf ∷ [];
          registered = true;
        } in
        if_cases (Core o armed 0) (not s.send_queue.registered)
          (λ r.
            register_send-Core o armed room (record s { send_queue = q }) h (ground arith) refl
              (not_nil s.send_queue.pending buf))
          (λ r. ground arith))

pub send-Core :
    (o : Bool) (armed : ℕ) (room : Room) (buf : ℕ) (s : Session)
    → room.disconnect ≡ true
    → Core o armed 0 s
    → Core o armed 0 (send room buf s).1
unfolding send
send-Core o armed room buf s h v =
    if_cases (λ (p : Sent × Session). Core o armed 0 p.1) s.disconnecting (λ e. v)
      (λ e. after_push-Core o armed room buf s h v e)

-- The ring has room for a shutdown whenever the application calls.
abbrev pub HasRoom : Action → Type 0
HasRoom (calls_send room buf) = room.disconnect ≡ true
HasRoom (calls_disconnect room) = room.disconnect ≡ true

pub act-Core :
    (o : Bool) (armed : ℕ) (a : Action) (s : Session)
    → HasRoom a
    → Core o armed 0 s
    → Core o armed 0 (act a s)
unfolding act
act-Core o armed (calls_send room buf) s h v = send-Core o armed room buf s h v
act-Core o armed (calls_disconnect room) s h v = disconnect-Core o armed 0 armed 0 room s h v

pub perform-Core :
    (o : Bool) (armed : ℕ) (actions : List Action) (s : Session)
    → All HasRoom actions
    → Core o armed 0 s
    → Core o armed 0 (perform actions s)
unfolding perform
perform-Core o armed [] s h v = v
perform-Core o armed (a ∷ rest) s h v =
    perform-Core o armed rest (act a s) h.1 (act-Core o armed a s h.0 v)
