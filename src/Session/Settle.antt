-- ===== src/Session/Settle.antt =====
-- How a disconnect ends, with an entry free for the shutdown and without.
use libiouring_server.Common.{
  ℕ, ◌+◌, ◌-◌, ◌≤◌, ◌<◌, ◌≡◌, sym, ap, subst, refl, ◌∙◌, ◌⊎◌, ◌^◌, if◌then◌else◌, Bool, true, false,
  List, [], ◌∷◌, if_cases, suc, arith,
}
use libiouring_server.Session.{
  Room, Session, decrement, positive, try_release, disconnect, Action, Result, on_recv, take_in,
  after_send, go_on, Sent, send, on_send, on_disconnect,
}
use libiouring_server.Session.Invariant.{releases, decrement_lem, Over, Core}
use libiouring_server.Session.Completions.{
  counted_down, counted_down-Settling, Settling, try_release-Core,
}
use libiouring_server.Session.Life.{take_in_ended, Reach, reach-Core}

-- The last completion of a request.
pub data Ending : Session → Session → Type 0 where
  recv_ends :
      {s : Session} (room : Room) (has_buffer : Bool) (res : Result) (actions : List Action)
      → s.ring.recvs ≡ 1
      → Ending s (on_recv room false has_buffer res actions s)
  send_ends :
      {s : Session} (room : Room) (ok : Bool) → s.ring.sends ≡ 1 → Ending s (on_send room ok s)
  disconnect_ends : {s : Session} → s.ring.disconnects ≡ 1 → Ending s (on_disconnect s)

-- What else can happen: a call of Send or Disconnect, or a receive that goes on.
pub data Between : Session → Session → Type 0 where
  send_called : {s : Session} (room : Room) (buf : ℕ) → Between s (send room buf s).1
  disconnect_called : {s : Session} (room : Room) → Between s (disconnect room s)
  recv_goes_on :
      {s : Session} (room : Room) (has_buffer : Bool) (res : Result) (actions : List Action)
      → s.ring.recvs ≡ 1
      → Between s (on_recv room true has_buffer res actions s)

-- Any run, with n last completions in it.
pub data Endings : ℕ → Session → Session → Type 0 where
  none_yet : {s : Session} → Endings 0 s s
  and_between : {n : ℕ} {s t u : Session} → Between s t → Endings n t u → Endings n s u
  and_one : {n : ℕ} {s t u : Session} → Ending s t → Endings n t u → Endings (suc n) s u

abbrev pub in_flight : Session → ℕ
in_flight s = s.ring.recvs + s.ring.sends + s.ring.disconnects

-- A session that is being disconnected, with one request less than before.
record After (n : ℕ) (t : Session) : Type 0 where
  fewer : in_flight t + 1 ≡ n
  ended : t.disconnecting ≡ true
  core : Core true 1 0 t

release-After : (n : ℕ) (s : Session) → in_flight s + 1 ≡ n → Settling s → After n (try_release s)
unfolding try_release
release-After n s h v =
    let c = try_release-Core 1 0 s v in
    if_cases (λ (t : Session). Core true 1 0 t → After n t) (positive s.pending_io)
      (λ e w. record { fewer = h; ended = v.ended; core = w })
      (λ e w. record { fewer = h; ended = v.ended; core = w }) c

Ending-After :
    {s t : Session} → Ending s t → s.disconnecting ≡ true → Core true 1 0 s → After (in_flight s) t
unfolding on_recv on_send after_send on_disconnect
Ending-After {s} (recv_ends room b res actions n) e v =
    let t = take_in false b res actions s in
    let same = take_in_ended false b res actions s e in
    if_cases (After (in_flight s)) t.disconnecting
      (λ d.
        subst (λ (u : Session). After (in_flight s) (try_release u)) (sym same)
          (release-After (in_flight s) (counted_down false s) (omega arith)
            (counted_down-Settling false s n e v)))
      (λ d. absurd (let q = ap (λ (u : Session). u.disconnecting) same in cc))
Ending-After {s} (send_ends room ok n) e v =
    let p =
      decrement_lem s.pending_io (omega (arith, v.counted, n))
        (omega (arith, v.counted, v.one_recv, v.one_disconnect, n)) in
    let t = record s {
      in_flight_bufs = [];
      pending_io = decrement s.pending_io;
      ring = record s.ring { sends = s.ring.sends - 1; message = [] };
    } in
    if_cases (After (in_flight s)) s.disconnecting
      (λ d. release-After (in_flight s) t (omega arith) (ground arith)) (λ d. absurd cc)
Ending-After {s} (disconnect_ends n) e v =
    let p =
      decrement_lem s.pending_io (omega (arith, v.counted, n))
        (omega (arith, v.counted, v.one_recv, v.one_send, n)) in
    release-After (in_flight s)
      (record s {
        pending_io = decrement s.pending_io;
        ring = record s.ring { disconnects = s.ring.disconnects - 1 };
      })
      (omega arith) (ground arith)

on_recv_ended :
    (room : Room) (more has_buffer : Bool) (res : Result) (actions : List Action) (s : Session)
    → s.disconnecting ≡ true
    → on_recv room more has_buffer res actions s ≡ try_release (counted_down more s)
unfolding on_recv
on_recv_ended room more b res actions s e =
    let after = λ (t : Session). if t.disconnecting then try_release t else go_on room more res t in
    ap after (take_in_ended more b res actions s e)
    ∙ ap
        (λ (d : Bool).
          if d
          then try_release (counted_down more s)
          else go_on room more res (counted_down more s))
        e

-- During a disconnect these change nothing.
Between-eq : {s t : Session} → Between s t → s.disconnecting ≡ true → Core true 1 0 s → t ≡ s
unfolding send disconnect try_release positive
Between-eq {s} (send_called room buf) e v =
    if_cases (λ (t : Sent × Session). t.1 ≡ s) s.disconnecting (λ d. refl) (λ d. absurd cc)
Between-eq {s} (disconnect_called room) e v =
    if_cases (λ (t : Session). t ≡ s) s.disconnecting (λ d. refl) (λ d. absurd cc)
Between-eq {s} (recv_goes_on room b res actions n) e v =
    on_recv_ended room true b res actions s e ∙ stays
  where
    stays : try_release (counted_down true s) ≡ s
    stays =
        if_cases (λ (t : Session). t ≡ s) (positive s.pending_io) (λ d. refl)
          (λ d. absurd (ground (arith, v.counted, v.one_send, v.one_disconnect)))

endings_lem :
    {n : ℕ} {s u : Session}
    → Endings n s u
    → s.disconnecting ≡ true
    → Core true 1 0 s
    → (in_flight u + n ≡ in_flight s) × (u.disconnecting ≡ true) × Core true 1 0 u
endings_lem none_yet e v = (omega arith, e, v)
endings_lem (and_between {s = s} first rest) e v =
    let q = Between-eq first e v in
    let (k, d, w) =
      endings_lem rest (ap (λ (t : Session). t.disconnecting) q ∙ e)
        (subst (λ (t : Session). Core true 1 0 t) (sym q) v) in
    (k ∙ ap in_flight q, d, w)
endings_lem (and_one first rest) e v =
    let a = Ending-After first e v in
    let (k, d, w) = endings_lem rest a.ended a.core in (omega (arith, k, a.fewer), d, w)

-- Where the ring has had an entry free for each shutdown: of a started session that is being
-- disconnected, at most as many requests complete for the last time as are in flight, whatever
-- other calls and completions come between; and as soon as all have, OnDisconnected has been called
-- exactly once and the session has given itself up.
pub settles :
    {max_pending n : ℕ} {s t : Session}
    → Reach max_pending s
    → s.disconnecting ≡ true
    → Endings n s t
    → (n ≤ in_flight s) × ((n < in_flight s) ⊎ Over t)
settles r e run =
    let v = reach-Core r in let (k, d, w) = endings_lem run e v in (omega (arith, k), ground arith)

-- A completion of a receive, with any result, or of a send.
pub data Late : Type 0 where
  recv_late : Room → Bool → Bool → Result → List Action → Late
  send_late : Room → Bool → Late

unfoldable pub complete_late : Late → Session → Session
complete_late (recv_late room more b res actions) s = on_recv room more b res actions s
complete_late (send_late room ok) s = on_send room ok s

unfoldable pub all_late : List Late → Session → Session
all_late [] s = s
all_late (c ∷ cs) s = all_late cs (complete_late c s)

-- pending_io_ is 0, or at most k have been counted down from there.
record Spent (k : ℕ) (s : Session) : Type 0 where
  ended : s.disconnecting ≡ true
  counted : (s.pending_io ≡ 0) ⊎ ((2 ^ 32 ≤ s.pending_io + k) × (s.pending_io < 2 ^ 32))

-- A completion counts down, or leaves pending_io_, and asks for the release.
record Releases (k n : ℕ) (s : Session) : Type 0 where
  spent : Spent k s
  counted : releases s.notices ≡ n
