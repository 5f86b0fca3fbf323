-- ===== src/Web/Upstream/Steps.antt =====
-- The phases under each completion.
use libiouring_server.Common.{ℕ, ◌≡◌, refl, inl, inr, Bool, true, false, List, if_cases, ltb, arith}
use libiouring_server.Web.Upstream.Session.{
  UpstreamSession, new_session, close, report, fail, prep_connect, give_up, prepared, connect,
  Completion, connect_done, send_done, recv_done, step,
}
use libiouring_server.Web.Upstream.Phases.{
  in_flight, Busy, Phase, on_connect-Phase, on_send-Phase, on_recv-Phase,
}

-- Without a request with the kernel there is nothing to complete.
pub step_idle : (c : Completion) (u : UpstreamSession) → in_flight u ≡ 0 → step c u ≡ u
unfolding step
step_idle (connect_done succeeds buffer room) u h =
    let idle : ltb 0 u.connects ≡ false = ground arith in rw idle refl
step_idle (send_done succeeds room) u h =
    let idle : ltb 0 u.sends ≡ false = ground arith in rw idle refl
step_idle (recv_done result has_buffer room) u h =
    let idle : ltb 0 u.recvs ≡ false = ground arith in rw idle refl

step-Busy : (c : Completion) (u : UpstreamSession) → Busy u → Phase (step c u)
unfolding step
step-Busy (connect_done succeeds buffer room) u h =
    if_cases Phase (ltb 0 u.connects)
      (λ e. on_connect-Phase succeeds buffer room _ (record {
        silent = record { nothing = h.silent.nothing; called = h.silent.called };
        no_request = ground (arith, h.one_request);
        kept = h.kept;
      }))
      (λ e. inl h)
step-Busy (send_done succeeds room) u h =
    if_cases Phase (ltb 0 u.sends)
      (λ e. on_send-Phase succeeds room _ (record {
        silent = record { nothing = h.silent.nothing; called = h.silent.called };
        no_request = ground (arith, h.one_request);
        kept = h.kept;
      }))
      (λ e. inl h)
step-Busy (recv_done result has_buffer room) u h =
    if_cases Phase (ltb 0 u.recvs)
      (λ e. on_recv-Phase result has_buffer room _ (record {
        silent = record { nothing = h.silent.nothing; called = h.silent.called };
        no_request = ground (arith, h.one_request);
        kept = h.kept;
      }))
      (λ e. inl h)

pub step-Phase : (c : Completion) (u : UpstreamSession) → Phase u → Phase (step c u)
step-Phase c u (inl h) = step-Busy c u h
step-Phase c u (inr h) = rw (step_idle c u h.no_request) (inr h)

pub connect-Phase :
    (resolves makes_socket room : Bool) (request_bytes : List ℕ)
    → Phase (connect resolves makes_socket room request_bytes new_session)
unfolding connect prepared prep_connect fail give_up close report
connect-Phase false makes_socket room request_bytes = inr (record {
  one_report = refl;
  no_request = refl;
  no_fd = refl;
  not_connected = refl;
  released = refl;
})
connect-Phase true false room request_bytes = inr (record {
  one_report = refl;
  no_request = refl;
  no_fd = refl;
  not_connected = refl;
  released = refl;
})
connect-Phase true true true request_bytes =
    inl (record {
      silent = record { nothing = refl; called = refl };
      one_request = refl;
      kept = refl;
    })
connect-Phase true true false request_bytes = inr (record {
  one_report = refl;
  no_request = refl;
  no_fd = refl;
  not_connected = refl;
  released = refl;
})
