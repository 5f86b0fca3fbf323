-- ===== src/Web/Upstream/Examples.antt =====
-- A response of this library on its way through its proxy.
use libiouring_server.Common.{ℕ, ◌≡◌, refl, ◌⊎◌, true, false, List, [], ◌∷◌, All, arith}
use libiouring_server.Common.Texts.{codes, decimal}
use libiouring_server.Web.Proxy.{relayed}
use libiouring_server.Web.Response.{HttpResponse, new_response, response_text}
use libiouring_server.Web.Upstream.CutOff.{Cut}
use libiouring_server.Web.Upstream.Fields.{IsRelayable}
use libiouring_server.Web.Upstream.Layout.{later_headers}
use libiouring_server.Web.Upstream.Once.{called_off, run-connect}
use libiouring_server.Web.Upstream.Parse.{response, parse_response}
use libiouring_server.Web.Upstream.Phases.{Phase}
use libiouring_server.Web.Upstream.Pool.{
  empty_pool, Attempt, Event, forwards, run-active_count, all_in_flight,
}
use libiouring_server.Web.Upstream.Relay.{parse_response-relayed}
use libiouring_server.Web.Upstream.Session.{
  new_session, connect, got, connect_done, send_done, recv_done, Action, completes,
}
use libiouring_server.Web.Upstream.Session as Session
use libiouring_server.Web.Upstream.Pool as Pool

abbrev ok : HttpResponse
ok = record (new_response true) { body = 104 ∷ 105 ∷ [] }

-- "now"
abbrev now : List ℕ
now = 110 ∷ 111 ∷ 119 ∷ []

ok-IsRelayable : IsRelayable now ok
ok-IsRelayable = record {
  three_digits = (omega arith, omega arith);
  date_line = ((refl, (refl, (refl, tt))), refl);
  type_line = (tt, tt);
  header_lines = tt;
}

parse_response-relayed_example :
    (parse_response (response_text now ok)
      ≡ response 200 ((codes "Server", codes "serverweb") ∷ later_headers now ok) (104 ∷ 105 ∷ []))
    × (parse_response (
          response_text now (
            relayed 200
              ((codes "Server", codes "serverweb") ∷ later_headers now ok)
              (104 ∷ 105 ∷ [])))
        ≡ response 200
            ((codes "Server", codes "serverweb")
              ∷ (codes "Date", now)
              ∷ (codes "Content-Length", decimal 2)
              ∷ (codes "Connection", codes "keep-alive")
              ∷ (codes "Server", codes "serverweb")
              ∷ later_headers now ok)
            (104 ∷ 105 ∷ []))
parse_response-relayed_example =
    parse_response-relayed now now ok ok-IsRelayable ((refl, (refl, (refl, tt))), refl)

-- The upstream is connected, has got the request, and sends a byte that is no response yet.
abbrev history : List Action
history =
    completes (connect_done true true true)
    ∷ completes (send_done true true)
    ∷ completes (recv_done (got (72 ∷ [])) true true)
    ∷ []

run-connect_example :
    Phase (Session.run history (connect true true true (71 ∷ []) new_session))
    ⊎ ((called_off history ≡ true)
        × Cut (Session.run history (connect true true true (71 ∷ []) new_session)))
run-connect_example = run-connect true true true (71 ∷ []) history

abbrev attempt : Attempt
attempt = record { resolves = true; makes_socket = true; room = true; request_bytes = 71 ∷ [] }

abbrev events : List Event
events =
    forwards attempt
    ∷ forwards (record attempt { resolves = false })
    ∷ Event.completes 0 (connect_done false true true)
    ∷ []

run-active_count_example :
    ((Pool.run events empty_pool).active_count
      ≡ all_in_flight (Pool.run events empty_pool).sessions)
    × All Phase (Pool.run events empty_pool).sessions
run-active_count_example = run-active_count events (omega arith)
