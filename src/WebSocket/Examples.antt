-- ===== src/WebSocket/Examples.antt =====
-- A text frame that is masked, and one of the builder, at concrete bytes.
use libiouring_server.Common.{ℕ, ◌≡◌, refl, List, [], ◌∷◌, ◌++◌, map, leb, arith}
use libiouring_server.Buffer.Recv.{init as init_buffer, is_empty}
use libiouring_server.WebSocket.Session.{
  build_ws_frame, sends, WebSocketSide, received, handle_ws_recv,
}
use libiouring_server.WebSocket.Session.Answers.{Reads, Waits, handle_ws_recv-ping}
use libiouring_server.WebSocket.Builder.{built, header_size}
use libiouring_server.WebSocket.Parser.{init, initial, feed}
use libiouring_server.WebSocket.Parser.Feed.{feed_all, feed_all-init, joined}
use libiouring_server.WebSocket.Parser.Unmasked.{AtStart}
use libiouring_server.WebSocket.Parser.Masked.{ClientFrame, IsSendable}
use libiouring_server.WebSocket.Parser.RoundTrip.{wire, report, feed-wire}

init-AtStart : AtStart init.machine
unfolding init initial
init-AtStart = record { start = refl; running = refl }

init-buffer : init.buffer ≡ []
unfolding init
init-buffer = refl

abbrev hello : ClientFrame
hello = record { opcode = 1; key = 1 ∷ 2 ∷ 3 ∷ 4 ∷ []; text = 104 ∷ 105 ∷ [] }

hello-IsSendable : IsSendable hello
hello-IsSendable = record {
  in_range = omega arith;
  not_continuation = λ e. absurd (omega (arith, e));
  four = refl;
  key_bytes = (omega arith, (omega arith, (omega arith, (omega arith, tt))));
  text_bytes = (omega arith, (omega arith, tt));
  fits = omega arith;
}

feed_all-init_example :
    (feed_all init ((129 ∷ []) ∷ (1 ∷ []) ∷ (7 ∷ []) ∷ [])).machine
    ≡ (feed init (joined ((129 ∷ []) ∷ (1 ∷ []) ∷ (7 ∷ []) ∷ []))).machine
feed_all-init_example = feed_all-init (129 ∷ []) ((1 ∷ []) ∷ (7 ∷ []) ∷ [])

feed-wire_example :
    ((feed init (wire (hello ∷ hello ∷ []))).machine.events
      ≡ init.machine.events ++ map report (hello ∷ hello ∷ []))
    × AtStart (feed init (wire (hello ∷ hello ∷ []))).machine
    × ((feed init (wire (hello ∷ hello ∷ []))).buffer ≡ [])
feed-wire_example =
    feed-wire init (hello ∷ hello ∷ []) init-AtStart init-buffer
      (hello-IsSendable, (hello-IsSendable, tt))

abbrev waiting : WebSocketSide
waiting = record { ws_parser = init; recv_buf = init_buffer 8 }

waiting-Waits : Waits waiting
unfolding init_buffer is_empty
waiting-Waits = record { empty_buffer = refl; at_start = init-AtStart; nothing_left = init-buffer }

abbrev ping : ClientFrame
ping = record hello { opcode = 9 }

ping-IsSendable : IsSendable ping
ping-IsSendable = record {
  in_range = omega arith;
  not_continuation = λ e. absurd (omega (arith, e));
  four = refl;
  key_bytes = (omega arith, (omega arith, (omega arith, (omega arith, tt))));
  text_bytes = (omega arith, (omega arith, tt));
  fits = omega arith;
}

handle_ws_recv-ping_example :
    ((bytes : List ℕ) × (build_ws_frame (λ n. leb n 65536) 2 (104 ∷ 105 ∷ []) ≡ built bytes)
      × Reads init 2 (104 ∷ 105 ∷ []) bytes)
    × ((bytes : List ℕ) × (handle_ws_recv (λ n. leb n 65536) waiting (wire (ping ∷ []))
          ≡ received
              (record waiting { ws_parser = feed init (wire (ping ∷ [])) })
              (sends (built bytes) ∷ []))
        × Reads init 10 (104 ∷ 105 ∷ []) bytes)
handle_ws_recv-ping_example =
    handle_ws_recv-ping init (λ n. leb n 65536) 2 waiting ping init-AtStart init-buffer
      (omega arith) (λ e. absurd (omega (arith, e))) (omega arith) (unfold header_size in refl)
      waiting-Waits ping-IsSendable refl
