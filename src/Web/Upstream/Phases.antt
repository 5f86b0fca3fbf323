-- ===== src/Web/Upstream/Phases.antt =====
-- The phases of a request that is passed on.
use libiouring_server.Common.{
  ℕ, ◌+◌, ◌≡◌, refl, ap, ◌∙◌, ◌⊎◌, inl, inr, Bool, true, false, List, [], ◌∷◌, ◌++◌, none,
  if◌then◌else◌, if_cases, length, arith,
}
use libiouring_server.Web.Upstream.Parse.{
  Reason, connect_failed, no_send_buffer, prep_send_failed, send_failed, prep_recv_failed,
  recv_failed, Report, error, parse_response, is_complete,
}
use libiouring_server.Web.Upstream.Session.{
  UpstreamSession, close, report, fail, prep_send, prep_recv, send_request, on_connect, start_recv,
  on_send, Received, ended, failed, got, take_bytes, return_buffer, finish, after_recv, on_recv,
}

-- Nothing is reported, and the callbacks are there to be called.
pub record Silent (u : UpstreamSession) : Type 0 where
  pub nothing : u.reports ≡ []
  pub called : u.callbacks ≡ true

-- The requests with the kernel.
abbrev pub in_flight : UpstreamSession → ℕ
in_flight u = u.connects + u.sends + u.recvs

pub record Busy (u : UpstreamSession) : Type 0 where
  pub silent : Silent u
  pub one_request : in_flight u ≡ 1
  pub kept : u.self_ref ≡ true

pub record Done (u : UpstreamSession) : Type 0 where
  pub one_report : length u.reports ≡ 1
  pub no_request : in_flight u ≡ 0
  pub no_fd : u.has_fd ≡ false
  pub not_connected : u.connected ≡ false
  pub released : u.self_ref ≡ false

abbrev pub Phase : UpstreamSession → Type 0
Phase u = Busy u ⊎ Done u

-- A handler runs: the request has been taken from the kernel.
pub record Running (u : UpstreamSession) : Type 0 where
  pub silent : Silent u
  pub no_request : in_flight u ≡ 0
  pub kept : u.self_ref ≡ true

reported :
    (r : Report) (u : UpstreamSession)
    → Silent u
    → report r u ≡ record u { reports = u.reports ++ r ∷ [] }
unfolding report
reported r u h = ap (λ b. if b then record u { reports = u.reports ++ r ∷ [] } else u) h.called

one : {reports : List Report} (r : Report) → reports ≡ [] → length (reports ++ r ∷ []) ≡ 1
one {reports = reports} r h = ap (λ z. length (z ++ r ∷ [])) h

closed-Done : (r : Report) (u : UpstreamSession) → Running u → Done (close (report r u))
unfolding close
closed-Done r u h =
    let e = reported r u h.silent in
    record {
      one_report = ap (λ (z : UpstreamSession). length z.reports) e ∙ one r h.silent.nothing;
      no_request = ap in_flight e ∙ h.no_request;
      no_fd = refl;
      not_connected = refl;
      released = refl;
    }

fail-Phase : (why : Reason) (u : UpstreamSession) → Running u → Phase (fail why u)
unfolding fail
fail-Phase why u h = inr (closed-Done (error why) u h)

pub start_recv-Phase : (room : Bool) (u : UpstreamSession) → Running u → Phase (start_recv room u)
unfolding start_recv prep_recv
start_recv-Phase true u h = inl (record {
  silent = record { nothing = h.silent.nothing; called = h.silent.called };
  one_request = omega (arith, h.no_request);
  kept = h.kept;
})
start_recv-Phase false u h = fail-Phase prep_recv_failed u h

send_request-Phase :
    (buffer room : Bool) (u : UpstreamSession) → Running u → Phase (send_request buffer room u)
unfolding send_request prep_send
send_request-Phase false room u h = fail-Phase no_send_buffer u h
send_request-Phase true true u h = inl (record {
  silent = record { nothing = h.silent.nothing; called = h.silent.called };
  one_request = omega (arith, h.no_request);
  kept = h.kept;
})
send_request-Phase true false u h = fail-Phase prep_send_failed _ (record {
  silent = record { nothing = h.silent.nothing; called = h.silent.called };
  no_request = h.no_request;
  kept = h.kept;
})

pub on_connect-Phase :
    (succeeds buffer room : Bool) (u : UpstreamSession)
    → Running u
    → Phase (on_connect succeeds buffer room u)
unfolding on_connect
on_connect-Phase true buffer room u h = send_request-Phase buffer room _ (record {
  silent = record { nothing = h.silent.nothing; called = h.silent.called };
  no_request = h.no_request;
  kept = h.kept;
})
on_connect-Phase false buffer room u h = fail-Phase connect_failed u h

pub on_send-Phase :
    (succeeds room : Bool) (u : UpstreamSession) → Running u → Phase (on_send succeeds room u)
unfolding on_send
on_send-Phase succeeds room u h =
    let running : Running (record u { send_buf = none }) = record {
      silent = record { nothing = h.silent.nothing; called = h.silent.called };
      no_request = h.no_request;
      kept = h.kept;
    } in
    if_cases Phase succeeds (λ e. start_recv-Phase room _ running)
      (λ e. fail-Phase send_failed _ running)

after_recv-Phase :
    (result : Received) (room : Bool) (u : UpstreamSession)
    → Running u
    → Phase (after_recv result room u)
unfolding after_recv finish
after_recv-Phase ended room u h = inr (closed-Done (parse_response u.recv_buffer) u h)
after_recv-Phase failed room u h = fail-Phase recv_failed u h
after_recv-Phase (got bytes) room u h =
    if_cases Phase (is_complete u.recv_buffer)
      (λ e. inr (closed-Done (parse_response u.recv_buffer) u h)) (λ e. start_recv-Phase room u h)

taken-Running :
    (result : Received) (u : UpstreamSession)
    → Running u
    → Running (return_buffer (take_bytes result u))
unfolding return_buffer take_bytes
taken-Running ended u h = record {
  silent = record { nothing = h.silent.nothing; called = h.silent.called };
  no_request = h.no_request;
  kept = h.kept;
}
taken-Running failed u h = record {
  silent = record { nothing = h.silent.nothing; called = h.silent.called };
  no_request = h.no_request;
  kept = h.kept;
}
taken-Running (got bytes) u h = record {
  silent = record { nothing = h.silent.nothing; called = h.silent.called };
  no_request = h.no_request;
  kept = h.kept;
}

pub on_recv-Phase :
    (result : Received) (has_buffer room : Bool) (u : UpstreamSession)
    → Running u
    → Phase (on_recv result has_buffer room u)
unfolding on_recv
on_recv-Phase result true room u h = after_recv-Phase result room _ (taken-Running result u h)
on_recv-Phase result false room u h = after_recv-Phase result room u h
