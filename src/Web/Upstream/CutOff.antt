-- ===== src/Web/Upstream/CutOff.antt =====
-- After Close from outside.
use libiouring_server.Common.{
  ◌-◌, ◌≤◌, ◌≡◌, refl, ap, Bool, true, false, [], ◌∷◌, ◌++◌, none, if◌then◌else◌, if_cases, ltb,
  arith,
}
use libiouring_server.Web.Upstream.Parse.{
  Reason, connect_failed, no_send_buffer, prep_send_failed, send_failed, prep_recv_failed,
  recv_failed, Report, error, parse_response, is_complete,
}
use libiouring_server.Web.Upstream.Session.{
  UpstreamSession, close, report, fail, prep_send, prep_recv, send_request, on_connect, start_recv,
  on_send, Received, ended, failed, got, take_bytes, return_buffer, finish, after_recv, on_recv,
  Completion, connect_done, send_done, recv_done, step,
}
use libiouring_server.Web.Upstream.Phases.{in_flight}

-- Close has been called from outside: nobody is told anything any more.
pub record Cut (u : UpstreamSession) : Type 0 where
  pub nothing : u.reports ≡ []
  pub not_called : u.callbacks ≡ false
  pub at_most_one : in_flight u ≤ 1

unreported : (r : Report) (u : UpstreamSession) → u.callbacks ≡ false → report r u ≡ u
unfolding report
unreported r u h = ap (λ b. if b then record u { reports = u.reports ++ r ∷ [] } else u) h

pub closed-Cut : (u : UpstreamSession) → u.reports ≡ [] → in_flight u ≤ 1 → Cut (close u)
unfolding close
closed-Cut u h k = record { nothing = h; not_called = refl; at_most_one = k }

-- A handler runs after that.
record Ending (u : UpstreamSession) : Type 0 where
  nothing : u.reports ≡ []
  not_called : u.callbacks ≡ false
  no_request : in_flight u ≡ 0

finished-Cut : (r : Report) (u : UpstreamSession) → Ending u → Cut (close (report r u))
finished-Cut r u h =
    rw (unreported r u h.not_called) (closed-Cut u h.nothing (omega (arith, h.no_request)))

fail-Cut : (why : Reason) (u : UpstreamSession) → Ending u → Cut (fail why u)
unfolding fail
fail-Cut why u h = finished-Cut (error why) u h

start_recv-Cut : (room : Bool) (u : UpstreamSession) → Ending u → Cut (start_recv room u)
unfolding start_recv prep_recv
start_recv-Cut true u h = record {
  nothing = h.nothing;
  not_called = h.not_called;
  at_most_one = omega (arith, h.no_request);
}
start_recv-Cut false u h = fail-Cut prep_recv_failed u h

send_request-Cut :
    (buffer room : Bool) (u : UpstreamSession) → Ending u → Cut (send_request buffer room u)
unfolding send_request prep_send
send_request-Cut false room u h = fail-Cut no_send_buffer u h
send_request-Cut true true u h = record {
  nothing = h.nothing;
  not_called = h.not_called;
  at_most_one = omega (arith, h.no_request);
}
send_request-Cut true false u h =
    fail-Cut prep_send_failed _
      (record { nothing = h.nothing; not_called = h.not_called; no_request = h.no_request })

after_recv-Cut :
    (result : Received) (room : Bool) (u : UpstreamSession)
    → Ending u
    → Cut (after_recv result room u)
unfolding after_recv finish
after_recv-Cut ended room u h = finished-Cut (parse_response u.recv_buffer) u h
after_recv-Cut failed room u h = fail-Cut recv_failed u h
after_recv-Cut (got bytes) room u h =
    if_cases Cut (is_complete u.recv_buffer) (λ e. finished-Cut (parse_response u.recv_buffer) u h)
      (λ e. start_recv-Cut room u h)

on_recv-Cut :
    (result : Received) (has_buffer room : Bool) (u : UpstreamSession)
    → Ending u
    → Cut (on_recv result has_buffer room u)
unfolding on_recv return_buffer take_bytes
on_recv-Cut result false room u h = after_recv-Cut result room u h
on_recv-Cut ended true room u h =
    after_recv-Cut ended room _
      (record { nothing = h.nothing; not_called = h.not_called; no_request = h.no_request })
on_recv-Cut failed true room u h =
    after_recv-Cut failed room _
      (record { nothing = h.nothing; not_called = h.not_called; no_request = h.no_request })
on_recv-Cut (got bytes) true room u h =
    after_recv-Cut (got bytes) room _
      (record { nothing = h.nothing; not_called = h.not_called; no_request = h.no_request })

pub step-Cut : (c : Completion) (u : UpstreamSession) → Cut u → Cut (step c u)
unfolding step on_connect on_send
step-Cut (connect_done succeeds buffer room) u h =
    if_cases Cut (ltb 0 u.connects)
      (λ e.
        let rest : in_flight (record u { connects = u.connects - 1 }) ≡ 0 =
          ground (arith, h.at_most_one) in
        if_cases Cut succeeds
          (λ f.
            send_request-Cut buffer room _
              (record { nothing = h.nothing; not_called = h.not_called; no_request = rest }))
          (λ f.
            fail-Cut connect_failed _
              (record { nothing = h.nothing; not_called = h.not_called; no_request = rest })))
      (λ e. h)
step-Cut (send_done succeeds room) u h =
    if_cases Cut (ltb 0 u.sends)
      (λ e.
        let rest : in_flight (record u { sends = u.sends - 1 }) ≡ 0 =
          ground (arith, h.at_most_one) in
        let ending : Ending (record u { sends = u.sends - 1; send_buf = none }) = record {
          nothing = h.nothing;
          not_called = h.not_called;
          no_request = rest;
        } in
        if_cases Cut succeeds (λ f. start_recv-Cut room _ ending)
          (λ f. fail-Cut send_failed _ ending))
      (λ e. h)
step-Cut (recv_done result has_buffer room) u h =
    if_cases Cut (ltb 0 u.recvs)
      (λ e. on_recv-Cut result has_buffer room _ (record {
        nothing = h.nothing;
        not_called = h.not_called;
        no_request = ground (arith, h.at_most_one);
      }))
      (λ e. h)
