-- ===== src/WebSocket/Session/Answers.antt =====
-- The other end's view of what the session sends, and the answer to a ping.
use Prim.Native.Nat.{bit_or}
use libiouring_server.Common.{
  ℕ, ◌+◌, ◌≤◌, ◌<◌, ◌≡◌, ◌≢◌, refl, sym, ap, subst, ◌∙◌, inl, inr, Bool, true, List, [], ◌∷◌, ◌++◌,
  length, drop, arith, ltb, leb, le→leb, Bool-cases, length-append, append-nil, if◌then◌else◌,
}
use libiouring_server.Common.Bits.{bit_or_fields}
use libiouring_server.Common.Slices.{drop-append_exact}
use libiouring_server.Common.Word.{u32}
use libiouring_server.Buffer.Recv.{is_empty, append}
use libiouring_server.WebSocket.Builder.{built, header_size}
use libiouring_server.WebSocket.Parser.{Machine, WsFrameParser, Event, frame, feed, max_payload}
use libiouring_server.WebSocket.Parser.Masked.{ClientFrame, IsSendable}
use libiouring_server.WebSocket.Parser.RoundTrip.{
  wire, report, feed-wire, feed-LeadsTo, Delivered-AtStart, header_size-le,
}
use libiouring_server.WebSocket.Parser.Unmasked.{AtStart, server_frame-Passes}
use libiouring_server.WebSocket.Session.{
  frame_header, build_ws_frame, k_ping, k_pong, sends, sent, on_frame, on_events, disconnects,
  WebSocketSide, received, after_feed, after_append, handle_ws_recv,
}
use libiouring_server.WebSocket.Wire.{length_bytes, server_frame, length-be_bytes}

first_byte : (opcode : ℕ) → opcode < 16 → bit_or 0x80 opcode ≡ 128 + opcode
first_byte opcode h = bit_or_fields 7 1 opcode (omega arith) ∙ omega arith

-- The header is that of a frame without a mask.
frame_header_lem :
    (opcode n : ℕ) → opcode < 16 → frame_header opcode n ≡ (128 + opcode) ∷ length_bytes 0 n
unfolding frame_header
frame_header_lem opcode n h = rw (first_byte opcode h) (elim (Bool-cases (ltb n 126)) [
  | inl e ↦ rw e (ap (λ (k : ℕ). (128 + opcode) ∷ k ∷ []) (zero_plus n))
  | inr e ↦ elim (Bool-cases (leb n 65535)) [ inl f ↦ rw (e, f) | inr f ↦ rw (e, f) ]
])
  where
    zero_plus : (n : ℕ) → n ≡ 0 + n
    zero_plus n = omega arith

length-frame_header : (opcode n : ℕ) → length (frame_header opcode n) ≡ header_size n
unfolding frame_header header_size
length-frame_header opcode n = ground (arith, length-be_bytes 8 n)

build_lem :
    (allocate : ℕ → Bool) (opcode : ℕ) (payload : List ℕ)
    → length payload ≤ max_payload
    → allocate (u32 (header_size (length payload) + length payload)) ≡ true
    → build_ws_frame allocate opcode payload
      ≡ built (frame_header opcode (length payload) ++ payload)
unfolding build_ws_frame
build_lem allocate opcode payload h a =
    let size : length (frame_header opcode (length payload) ++ payload)
        ≤ u32 (header_size (length payload) + length payload) =
      omega (
        arith,
        length-append (frame_header opcode (length payload)) payload,
        length-frame_header opcode (length payload),
        header_size-le (length payload),
      ) in
    rw (
      a,
      le→leb (length (frame_header opcode (length payload) ++ payload))
          (u32 (header_size (length payload) + length payload)) size,
    )

-- The other end reads what BuildWsFrame has built.
pub Reads : WsFrameParser → ℕ → List ℕ → List ℕ → Type 0
Reads p opcode payload bytes =
    ((feed p bytes).machine.events ≡ p.machine.events ++ frame opcode payload ∷ [])
    × AtStart (feed p bytes).machine
    × ((feed p bytes).buffer ≡ [])

feed-build_ws_frame :
    (p : WsFrameParser) (allocate : ℕ → Bool) (opcode : ℕ) (payload : List ℕ)
    → AtStart p.machine
    → p.buffer ≡ []
    → opcode < 16
    → opcode ≢ 0
    → length payload ≤ max_payload
    → allocate (u32 (header_size (length payload) + length payload)) ≡ true
    → (bytes : List ℕ) × (build_ws_frame allocate opcode payload ≡ built bytes)
      × Reads p opcode payload bytes
unfolding Reads
feed-build_ws_frame p allocate opcode payload a b o z h ok =
    let (t, d, l) = server_frame-Passes p.machine opcode payload a o z h in
    let bytes : frame_header opcode (length payload) ++ payload ≡ server_frame opcode payload =
      ap (λ (s : List ℕ). s ++ payload) (frame_header_lem opcode (length payload) o) in
    let (m, r) = feed-LeadsTo p (server_frame opcode payload) t a b l in
    (
      server_frame opcode payload,
      build_lem allocate opcode payload h ok ∙ ap built bytes,
      (
        ap (λ (s : Machine). s.events) m ∙ d.reported,
        subst AtStart (sym m) (Delivered-AtStart p.machine opcode payload t a d),
        r,
      ),
    )

effects_of :
    (allocate : ℕ → Bool) (before after : List Event) (e : Event)
    → after ≡ before ++ e ∷ []
    → on_events allocate (drop (length before) after) ≡ on_events allocate (e ∷ [])
effects_of allocate before after e h =
    ap (λ z. on_events allocate (drop (length before) z)) h
    ∙ ap (on_events allocate) (drop-append_exact (length before) before (e ∷ []) refl)

-- A session whose receive buffer is empty, and whose parser is at a frame's start.
pub record Waits (w : WebSocketSide) : Type 0 where
  pub empty_buffer : is_empty w.recv_buf ≡ true
  pub at_start : AtStart w.ws_parser.machine
  pub nothing_left : w.ws_parser.buffer ≡ []

one_frame :
    (allocate : ℕ → Bool) (w : WebSocketSide) (f : ClientFrame)
    → Waits w
    → IsSendable f
    → handle_ws_recv allocate w (wire (f ∷ []))
      ≡ received
          (record w { ws_parser = feed w.ws_parser (wire (f ∷ [])) })
          (on_frame allocate f.opcode f.text)
unfolding handle_ws_recv after_feed on_events
one_frame allocate w f h g =
    let p = feed w.ws_parser (wire (f ∷ [])) in
    let (events, start, rest) = feed-wire w.ws_parser (f ∷ []) h.at_start h.nothing_left (g, tt) in
    let called = on_events allocate (drop (length w.ws_parser.machine.events) p.machine.events) in
    let side = record w { ws_parser = p } in
    ap
      (λ b.
        if b
        then after_feed allocate w (wire (f ∷ [])) w.recv_buf
        else after_append allocate w (append w.recv_buf (wire (f ∷ []))))
      h.empty_buffer
    ∙ ap (λ b. received side (called ++ (if b then disconnects ∷ [] else []))) start.running
    ∙ ap (received side) (
        append-nil called
        ∙ effects_of allocate w.ws_parser.machine.events p.machine.events (report f) events
        ∙ append-nil (on_frame allocate f.opcode f.text))

pong_sent :
    (allocate : ℕ → Bool) (payload bytes : List ℕ)
    → build_ws_frame allocate k_pong payload ≡ built bytes
    → on_frame allocate k_ping payload ≡ sends (built bytes) ∷ []
unfolding on_frame sent
pong_sent allocate payload bytes e = ap sent e

-- For an opcode of four bits that is not 0, a payload of at most 16 MiB, and a pool that hands out a
-- buffer of the size asked for: BuildWsFrame builds a frame which a parser at a frame's start reports
-- once, with the same opcode and payload. A session that waits for a frame, and gets a masked ping
-- with such a payload, sends one frame and does nothing else, and the other end reads it as a pong
-- with the ping's payload.
pub handle_ws_recv-ping :
    (peer : WsFrameParser) (allocate : ℕ → Bool) (opcode : ℕ) (w : WebSocketSide) (f : ClientFrame)
    → AtStart peer.machine
    → peer.buffer ≡ []
    → opcode < 16
    → opcode ≢ 0
    → length f.text ≤ max_payload
    → allocate (u32 (header_size (length f.text) + length f.text)) ≡ true
    → Waits w
    → IsSendable f
    → f.opcode ≡ k_ping
    → ((bytes : List ℕ) × (build_ws_frame allocate opcode f.text ≡ built bytes)
        × Reads peer opcode f.text bytes)
      × ((bytes : List ℕ) × (handle_ws_recv allocate w (wire (f ∷ []))
            ≡ received
                (record w { ws_parser = feed w.ws_parser (wire (f ∷ [])) })
                (sends (built bytes) ∷ []))
          × Reads peer k_pong f.text bytes)
handle_ws_recv-ping peer allocate opcode w f a b o z l ok h g ping =
    let (bytes, sent_bytes, read) =
      feed-build_ws_frame peer allocate k_pong f.text a b (omega arith)
        (λ e. absurd (omega (arith, e))) l ok in
    let side = record w { ws_parser = feed w.ws_parser (wire (f ∷ [])) } in
    (
      feed-build_ws_frame peer allocate opcode f.text a b o z l ok,
      (
        bytes,
        one_frame allocate w f h g
            ∙ ap (received side) (
                ap (λ (k : ℕ). on_frame allocate k f.text) ping
                ∙ pong_sent allocate f.text bytes sent_bytes),
        read,
      ),
    )
