-- ===== src/Session/Invariant.antt =====
-- The invariant of a session: pending_io_, its requests, its buffers and its release.
use libiouring_server.Common.{
  ℕ, ◌+◌, ◌-◌, ◌^◌, ◌≤◌, ◌<◌, ◌≡◌, ◌⊎◌, Bool, true, false, List, [], ◌∷◌, ◌++◌, ◌==◌, arith,
}
use libiouring_server.Session.{
  Notice, connected, overflow, disconnected, received, Room, Session, increment, decrement,
  disconnect,
}

pub increment_lem : (n : ℕ) → n < 2 ^ 31 → increment n ≡ n + 1
unfolding increment
increment_lem n h = omega arith

pub decrement_lem : (n : ℕ) → 0 < n → n < 2 ^ 31 → decrement n ≡ n - 1
unfolding decrement
decrement_lem n h k = omega arith

-- How often OnDisconnected has been called.
unfoldable pub releases : List Notice → ℕ
releases [] = 0
releases (disconnected ∷ ns) = releases ns + 1
releases (_ ∷ ns) = releases ns

releases-append : (ns ms : List Notice) → releases (ns ++ ms) ≡ releases ns + releases ms
unfolding releases
releases-append [] ms = omega arith
releases-append (disconnected ∷ ns) ms = omega (arith, releases-append ns ms)
releases-append (connected ∷ ns) ms = releases-append ns ms
releases-append (overflow ∷ ns) ms = releases-append ns ms
releases-append (received v ∷ ns) ms = releases-append ns ms

pub releases-disconnected :
    (ns : List Notice) → releases (ns ++ disconnected ∷ []) ≡ releases ns + 1
unfolding releases
releases-disconnected ns = releases-append ns (disconnected ∷ [])

pub releases-overflow : (ns : List Notice) → releases (ns ++ overflow ∷ []) ≡ releases ns
unfolding releases
releases-overflow ns = omega (arith, releases-append ns (overflow ∷ []))

pub releases-connected : (ns : List Notice) → releases (ns ++ connected ∷ []) ≡ releases ns
unfolding releases
releases-connected ns = omega (arith, releases-append ns (connected ∷ []))

pub releases-received :
    (ns : List Notice) (view : List ℕ) → releases (ns ++ received view ∷ []) ≡ releases ns
unfolding releases
releases-received ns view = omega (arith, releases-append ns (received view ∷ []))

-- What a session in use is: `armed` receives are in flight, and the queue is registered exactly when
-- a send is in flight or `due`.
abbrev pub InUse : ℕ → ℕ → Session → Type 0
InUse armed due s =
    (s.disconnecting ≡ false)
    × (s.ring.recvs ≡ armed)
    × (s.ring.disconnects ≡ 0)
    × (s.send_queue.registered ≡ (s.ring.sends + due == 1))

-- The session holds the reference to itself, and OnDisconnected has not been called.
abbrev pub Held : Session → Type 0
Held s = (releases s.notices ≡ 0) × (s.self_ref ≡ true)

-- OnDisconnected has been called once, and nothing is in flight.
abbrev pub Over : Session → Type 0
Over s =
    (s.disconnecting ≡ true) × (s.pending_io ≡ 0) × (releases s.notices ≡ 1) × (s.self_ref ≡ false)

pub record Core (o : Bool) (armed due : ℕ) (s : Session) : Type 0 where
  pub counted : s.pending_io ≡ s.ring.recvs + s.ring.sends + s.ring.disconnects
  pub one_recv : s.ring.recvs ≤ 1
  pub one_send : s.ring.sends ≤ 1
  pub one_disconnect : s.ring.disconnects ≤ 1
  pub in_use : (s.disconnecting ≡ true) ⊎ InUse armed due s
  pub kept : s.in_flight_bufs ≡ s.ring.message
  pub idle : (s.ring.sends ≡ 1) ⊎ (s.ring.message ≡ [])
  pub owned : (s.send_queue.registered ≡ true) ⊎ (s.send_queue.pending ≡ [])
  pub status : Held s ⊎ ((o ≡ true) × Over s)
  pub settled : (0 < s.pending_io) ⊎ ((s.disconnecting ≡ false) ⊎ ((o ≡ true) × Over s))

-- Where the ring takes the shutdown.
pub disconnect-Core :
    (o : Bool) (armed due armed' due' : ℕ) (room : Room) (s : Session)
    → room.disconnect ≡ true
    → Core o armed due s
    → Core o armed' due' (disconnect room s)
unfolding disconnect
disconnect-Core o armed due armed' due' room s h v = ground (arith, increment_lem s.pending_io)
