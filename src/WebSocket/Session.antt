-- ===== src/WebSocket/Session.antt =====
-- The WebSocket side of src/web/HttpSession.cpp: frames that come in and that are sent. What the
-- handler's callbacks do is left to them.
pub mod Answers
use Prim.Native.Nat.{bit_and, bit_or}
use libiouring_server.Common.{
  ℕ, ◌+◌, ◌*◌, ◌/◌, ◌^◌, ◌%◌, Bool, true, false, List, [], ◌∷◌, ◌++◌, length, drop, ltb, leb, ◌==◌,
  if◌then◌else◌,
}
use libiouring_server.Common.Word.{u32}
use libiouring_server.Buffer.Recv as Recv
use libiouring_server.Buffer.Recv.{
  RecvBuffer, Appended, stored, exhausted, append, is_empty, read_region, on_read, should_compact,
  compact,
}
use libiouring_server.WebSocket.Builder.{Built, null, built, header_size, be_bytes}
use libiouring_server.WebSocket.Frame.{k_text, k_binary, k_close}
use libiouring_server.WebSocket.Parser.{WsFrameParser, Event, frame, error, feed}

abbrev pub k_ping : ℕ
k_ping = 0x9

abbrev pub k_pong : ℕ
k_pong = 0xA

unfoldable pub frame_header : ℕ → ℕ → List ℕ
frame_header opcode n =
    if ltb n 126
    then bit_or 0x80 opcode ∷ n ∷ []
    else if leb n 65535
    then bit_or 0x80 opcode ∷ 126 ∷ bit_and (n / 2 ^ 8) 0xFF ∷ bit_and n 0xFF ∷ []
    else bit_or 0x80 opcode ∷ 127 ∷ be_bytes 8 n

-- Whether the pool has a buffer of a size is an argument; a write past its end is `fault`.
unfoldable pub build_ws_frame : (ℕ → Bool) → ℕ → List ℕ → Built
build_ws_frame allocate opcode payload =
    let total = u32 (header_size (length payload) + length payload) in
    let bytes = frame_header opcode (length payload) ++ payload in
    if allocate total then (if leb (length bytes) total then built bytes else Built.fault) else null

-- What a session does: it calls OnMessage or OnClose, sends a buffer, or disconnects.
pub data Effect : Type 0 where
  on_message : List ℕ → Bool → Effect
  on_close : ℕ → List ℕ → Effect
  sends : Built → Effect
  disconnects : Effect

unfoldable pub sent : Built → List Effect
sent null = []
sent (built bytes) = sends (built bytes) ∷ []
sent Built.fault = sends Built.fault ∷ []

unfoldable pub send_text : (ℕ → Bool) → List ℕ → List Effect
send_text allocate message = sent (build_ws_frame allocate k_text message)

unfoldable pub send_binary : (ℕ → Bool) → List ℕ → List Effect
send_binary allocate data_bytes = sent (build_ws_frame allocate k_binary data_bytes)

unfoldable pub send_ping : (ℕ → Bool) → List ℕ → List Effect
send_ping allocate payload = sent (build_ws_frame allocate k_ping payload)

unfoldable pub ws_close : (ℕ → Bool) → ℕ → List ℕ → List Effect
ws_close allocate code reason =
    sent
      (build_ws_frame allocate k_close (bit_and (code / 2 ^ 8) 0xFF ∷ bit_and code 0xFF ∷ reason))

unfoldable pub close_effect : List ℕ → Effect
close_effect [] = on_close 1000 []
close_effect (a ∷ []) = on_close 1000 []
close_effect (a ∷ b ∷ reason) = on_close (bit_or (a * 2 ^ 8) b % 2 ^ 16) reason

-- The switch of the callback that UpgradeToWebSocket sets.
unfoldable pub on_frame : (ℕ → Bool) → ℕ → List ℕ → List Effect
on_frame allocate opcode payload =
    if opcode == k_text
    then on_message payload true ∷ []
    else if opcode == k_binary
    then on_message payload false ∷ []
    else if opcode == k_ping
    then sent (build_ws_frame allocate k_pong payload)
    else if opcode == k_pong
    then []
    else if opcode == k_close
    then close_effect payload ∷ sent (build_ws_frame allocate k_close payload) ++ disconnects ∷ []
    else []

-- No callback for errors is set.
unfoldable pub on_events : (ℕ → Bool) → List Event → List Effect
on_events allocate [] = []
on_events allocate (frame opcode payload ∷ es) =
    on_frame allocate opcode payload ++ on_events allocate es
on_events allocate (error why ∷ es) = on_events allocate es

pub record WebSocketSide : Type 0 where
  pub ws_parser : WsFrameParser
  pub recv_buf : RecvBuffer

pub data Received : Type 0 where
  received : WebSocketSide → List Effect → Received
  fault : Received

-- Feed answers the length of its input, or 0 if the parser has failed before.
unfoldable pub consumed : WsFrameParser → List ℕ → ℕ
consumed p input = if p.machine.failed then 0 else length input

unfoldable pub after_feed : (ℕ → Bool) → WebSocketSide → List ℕ → RecvBuffer → Received
after_feed allocate w input recv_buf =
    let p = feed w.ws_parser input in
    let called = on_events allocate (drop (length w.ws_parser.machine.events) p.machine.events) in
    received (record { ws_parser = p; recv_buf = recv_buf })
      (called ++ (if p.machine.failed then disconnects ∷ [] else []))

unfoldable pub compacted : RecvBuffer → RecvBuffer
compacted b = if should_compact b then compact b else b

-- Of a buffer that cannot take the bytes: it disconnects, and is left as Append leaves it.
unfoldable pub after_append : (ℕ → Bool) → WebSocketSide → Appended → Received
after_append allocate w (stored b) =
    after_feed allocate w (read_region b)
      (compacted (on_read b (u32 (consumed w.ws_parser (read_region b)))))
after_append allocate w (exhausted b) = received (record w { recv_buf = b }) (disconnects ∷ [])
after_append allocate w Appended.fault = fault

unfoldable pub handle_ws_recv : (ℕ → Bool) → WebSocketSide → List ℕ → Received
handle_ws_recv allocate w data_bytes =
    if is_empty w.recv_buf
    then after_feed allocate w data_bytes w.recv_buf
    else after_append allocate w (append w.recv_buf data_bytes)
