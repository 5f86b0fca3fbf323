-- ===== src/Session/Life.antt =====
-- The life of a session: OnRecv and Start, the steps that the kernel and the application take, and
-- what holds in every state that they reach.
use libiouring_server.Common.{
  ℕ, ◌+◌, ◌≤◌, ◌<◌, ◌≡◌, refl, sym, ap, subst, ◌⊎◌, inl, inr, Bool, true, false, not, ◌&&◌, List,
  [], ◌∷◌, ◌++◌, All, if_cases, Bool-cases, arith,
}
use libiouring_server.Buffer.Send
use libiouring_server.Buffer.Send.{SendQueue}
use libiouring_server.Session.{
  connected, received, Room, Session, try_release, disconnect, send, Action, perform, start, Result,
  closed, no_buffers, failed, bytes, take_in, go_on, on_recv, on_send, on_disconnect, init,
}
use libiouring_server.Session.Invariant.{
  releases, releases-connected, releases-received, Held, Over, Core, disconnect-Core,
}
use libiouring_server.Session.Sending.{HasRoom, send-Core, register_recv-Core, perform-Core}
use libiouring_server.Session.Completions.{
  counted_down, still_armed, counted_down-Core, counted_down-Settling, try_release-Core,
  release_later, loosen, on_send-Core, on_disconnect-Core,
}

-- -ENOBUFS ends a multishot receive.
abbrev pub EndsReceive : Bool → Result → Type 0
EndsReceive more no_buffers = more ≡ false
EndsReceive more closed = Unit
EndsReceive more failed = Unit
EndsReceive more (bytes view) = Unit

take_in-Core :
    (more has_buffer : Bool) (res : Result) (actions : List Action) (s : Session)
    → All HasRoom actions
    → s.disconnecting ≡ false
    → Core false (still_armed more) 0 (counted_down more s)
    → Core false (still_armed more) 0 (take_in more has_buffer res actions s)
unfolding take_in
take_in-Core more b closed actions s h e v = v
take_in-Core more b no_buffers actions s h e v = v
take_in-Core more b failed actions s h e v = v
take_in-Core more b (bytes view) actions s h e v =
    if_cases (Core false (still_armed more) 0) (b && not s.disconnecting)
      (λ c.
        perform-Core false (still_armed more) actions
          (record (counted_down more s) { notices = s.notices ++ received view ∷ [] }) h
          (ground (arith, releases-received s.notices view)))
      (λ c. v)

-- During a disconnect the application is not called.
pub take_in_ended :
    (more has_buffer : Bool) (res : Result) (actions : List Action) (s : Session)
    → s.disconnecting ≡ true
    → take_in more has_buffer res actions s ≡ counted_down more s
unfolding take_in
take_in_ended more b closed actions s e = refl
take_in_ended more b no_buffers actions s e = refl
take_in_ended more b failed actions s e = refl
take_in_ended more b (bytes view) actions s e =
    if_cases (λ (t : Session). t ≡ counted_down more s) (b && not s.disconnecting)
      (λ c. absurd (ground arith)) (λ c. refl)

go_on-Core :
    (room : Room) (more : Bool) (res : Result) (s : Session)
    → room.disconnect ≡ true
    → EndsReceive more res
    → Core true (still_armed more) 0 s
    → Core true 1 0 (go_on room more res s)
unfolding go_on
go_on-Core room more closed s h k v = disconnect-Core true (still_armed more) 0 1 0 room s h v
go_on-Core room more failed s h k v = disconnect-Core true (still_armed more) 0 1 0 room s h v
go_on-Core room true no_buffers s h k v = absurd cc
go_on-Core room false no_buffers s h k v = register_recv-Core true room s h v
go_on-Core room true (bytes view) s h k v = v
go_on-Core room false (bytes view) s h k v = register_recv-Core true room s h v

on_recv-Core :
    (room : Room) (more has_buffer : Bool) (res : Result) (actions : List Action) (s : Session)
    → room.disconnect ≡ true
    → All HasRoom actions
    → EndsReceive more res
    → s.ring.recvs ≡ 1
    → Core true 1 0 s
    → Core true 1 0 (on_recv room more has_buffer res actions s)
unfolding on_recv
on_recv-Core room more b res actions s h hs k n v =
    let t = take_in more b res actions s in
    elim (Bool-cases s.disconnecting) [
      | inl e ↦
          let same = take_in_ended more b res actions s e in
          if_cases (Core true 1 0) t.disconnecting
            (λ d.
              subst (λ (u : Session). Core true 1 0 (try_release u)) (sym same)
                (try_release-Core 1 0 (counted_down more s) (counted_down-Settling more s n e v)))
            (λ d. absurd (let q = ap (λ (u : Session). u.disconnecting) same in cc))
      | inr e ↦
          let w = take_in-Core more b res actions s hs e (counted_down-Core more s n e v) in
          if_cases (Core true 1 0) t.disconnecting (λ d. release_later (still_armed more) 0 t w d)
            (λ d. go_on-Core room more res t h k (loosen (still_armed more) 0 t w))
    ]

start-Core :
    (room : Room) (actions : List Action) (max_pending : ℕ)
    → room.disconnect ≡ true
    → All HasRoom actions
    → Core true 1 0 (start room actions (init max_pending))
unfolding start init Send.init releases
start-Core room actions max_pending h hs =
    let s = record (init max_pending) { self_ref = true; notices = connected ∷ [] } in
    let t = perform actions s in
    register_recv-Core true room t h
      (loosen 0 0 t (perform-Core false 0 actions s hs (ground (arith, releases-connected []))))

-- A step: a call from the application, or a completion of a request in flight.
pub data Step : Session → Session → Type 0 where
  sends :
      {s : Session} (room : Room) (buf : ℕ) → room.disconnect ≡ true → Step s (send room buf s).1
  disconnects : {s : Session} (room : Room) → room.disconnect ≡ true → Step s (disconnect room s)
  recv_done :
      {s : Session} (room : Room) (more has_buffer : Bool) (res : Result) (actions : List Action)
      → room.disconnect ≡ true
      → All HasRoom actions
      → EndsReceive more res
      → s.ring.recvs ≡ 1
      → Step s (on_recv room more has_buffer res actions s)
  send_done :
      {s : Session} (room : Room) (ok : Bool)
      → room.disconnect ≡ true
      → s.ring.sends ≡ 1
      → Step s (on_send room ok s)
  disconnect_done : {s : Session} → s.ring.disconnects ≡ 1 → Step s (on_disconnect s)

pub data Reach (max_pending : ℕ) : Session → Type 0 where
  started :
      (room : Room) (actions : List Action)
      → room.disconnect ≡ true
      → All HasRoom actions
      → Reach max_pending (start room actions (init max_pending))
  then_step : {s t : Session} → Reach max_pending s → Step s t → Reach max_pending t

Step-Core : {s t : Session} → Step s t → Core true 1 0 s → Core true 1 0 t
Step-Core {s} (sends room buf h) v = send-Core true 1 room buf s h v
Step-Core {s} (disconnects room h) v = disconnect-Core true 1 0 1 0 room s h v
Step-Core {s} (recv_done room more b res actions h hs k n) v =
    on_recv-Core room more b res actions s h hs k n v
Step-Core {s} (send_done room ok h n) v = on_send-Core room ok s h n v
Step-Core {s} (disconnect_done n) v = on_disconnect-Core s n v

pub reach-Core : {max_pending : ℕ} {s : Session} → Reach max_pending s → Core true 1 0 s
reach-Core {max_pending = m} (started room actions h hs) = start-Core room actions m h hs
reach-Core (then_step r st) = Step-Core st (reach-Core r)

-- In every state that a started session reaches, where the ring has an entry free for each
-- shutdown, pending_io_ is the number of the session's requests in flight, of which at most one is
-- a receive, one a send and one a shutdown; so it never leaves the range of an int.
pub pending_io_lem :
    {max_pending : ℕ} {s : Session}
    → Reach max_pending s
    → (s.pending_io ≡ s.ring.recvs + s.ring.sends + s.ring.disconnects)
      × (s.ring.recvs ≤ 1)
      × (s.ring.sends ≤ 1)
      × (s.ring.disconnects ≤ 1)
pending_io_lem r = let v = reach-Core r in (v.counted, v.one_recv, v.one_send, v.one_disconnect)

-- In every state that a started session reaches, where the ring has an entry free for each
-- shutdown, one of three things holds: the session is in use, with its receive in flight and
-- OnDisconnected not called; it is being disconnected, with a request in flight, OnDisconnected not
-- called and the reference to itself kept; or OnDisconnected has been called once, the reference is
-- dropped and nothing is in flight.
pub release_once :
    {max_pending : ℕ} {s : Session}
    → Reach max_pending s
    → ((s.disconnecting ≡ false) × (s.ring.recvs ≡ 1) × Held s)
      ⊎ (((s.disconnecting ≡ true)
            × (0 < s.ring.recvs + s.ring.sends + s.ring.disconnects)
            × Held s)
          ⊎ ((s.ring.recvs + s.ring.sends + s.ring.disconnects ≡ 0) × Over s))
release_once r = let v = reach-Core r in ground arith

-- In every state that a started session reaches, where the ring has an entry free for each
-- shutdown, the session holds exactly the buffers that the kernel reads from, and buffers that wait
-- in the queue of a connected session have a send in flight whose completion takes them.
pub buffers_kept :
    {max_pending : ℕ} {s : Session}
    → Reach max_pending s
    → (s.in_flight_bufs ≡ s.ring.message)
      × ((s.ring.sends ≡ 1) ⊎ (s.ring.message ≡ []))
      × ((s.disconnecting ≡ true) ⊎ ((s.ring.sends ≡ 1) ⊎ (s.send_queue.pending ≡ [])))
buffers_kept r = let v = reach-Core r in ground arith
