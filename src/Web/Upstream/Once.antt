-- ===== src/Web/Upstream/Once.antt =====
-- The callbacks of a request that is passed on, from Connect on.
use libiouring_server.Common.{ℕ, ◌≡◌, refl, ◌⊎◌, inl, inr, Bool, true, false, List, [], ◌∷◌, arith}
use libiouring_server.Web.Upstream.Session.{
  UpstreamSession, new_session, close, connect, step, Action, completes, closes, act, run,
}
use libiouring_server.Web.Upstream.Phases.{Done, Phase}
use libiouring_server.Web.Upstream.Steps.{step-Phase, connect-Phase}
use libiouring_server.Web.Upstream.CutOff.{Cut, closed-Cut, step-Cut}

-- Whether Close is called from outside.
unfoldable pub called_off : List Action → Bool
called_off [] = false
called_off (completes c ∷ actions) = called_off actions
called_off (closes ∷ actions) = true

run-Cut : (actions : List Action) (u : UpstreamSession) → Cut u → Cut (run actions u)
unfolding run act
run-Cut [] u h = h
run-Cut (completes c ∷ actions) u h = run-Cut actions (step c u) (step-Cut c u h)
run-Cut (closes ∷ actions) u h = run-Cut actions (close u) (closed-Cut u h.nothing h.at_most_one)

close-Done : (u : UpstreamSession) → Done u → Done (close u)
unfolding close
close-Done u h = record {
  one_report = h.one_report;
  no_request = h.no_request;
  no_fd = refl;
  not_connected = refl;
  released = refl;
}

run-Phase :
    (actions : List Action) (u : UpstreamSession)
    → Phase u
    → Phase (run actions u) ⊎ ((called_off actions ≡ true) × Cut (run actions u))
unfolding run act called_off
run-Phase [] u h = inl h
run-Phase (completes c ∷ actions) u h = run-Phase actions (step c u) (step-Phase c u h)
run-Phase (closes ∷ actions) u (inr h) = elim (run-Phase actions (close u) (inr (close-Done u h))) [
  | inl k ↦ inl k
  | inr k ↦ inr (refl, k.1)
]
run-Phase (closes ∷ actions) u (inl h) =
    inr (
      refl,
      run-Cut actions (close u) (closed-Cut u h.silent.nothing (omega (arith, h.one_request))),
    )

-- Whatever Connect meets, and whatever happens to the session after that: either exactly one request
-- is with the kernel, no callback has been called and the session keeps itself alive; or no request
-- is with the kernel, exactly one callback has been called, the socket is closed and the session has
-- let go of itself; or Close has been called from outside, and then at most one request is with the
-- kernel, and no callback has been called or can be.
pub run-connect :
    (resolves makes_socket room : Bool) (request_bytes : List ℕ) (actions : List Action)
    → let u = run actions (connect resolves makes_socket room request_bytes new_session) in
      Phase u ⊎ ((called_off actions ≡ true) × Cut u)
run-connect resolves makes_socket room request_bytes actions =
    run-Phase actions (connect resolves makes_socket room request_bytes new_session)
      (connect-Phase resolves makes_socket room request_bytes)
