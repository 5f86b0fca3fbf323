-- ===== src/WebSocket/Parser.antt =====
-- src/web/ws/WsFrameParser.cpp. The bytes p[consumed..len) are a list that a step shortens; the
-- calls of on_frame_ and on_error_ are recorded in `events`, in order.
pub mod Rounds
pub mod Steps
pub mod More
pub mod Runs
pub mod Feed
pub mod Headers
pub mod Deliver
pub mod Unmasked
pub mod Masked
pub mod RoundTrip
use Prim.Native.Nat.{bit_and, bit_or}
use libiouring_server.Common.{
  ℕ, zero, suc, ◌+◌, ◌*◌, ◌%◌, ◌^◌, min, Bool, true, false, not, ◌&&◌, List, [], ◌∷◌, ◌++◌, length,
  take, drop, get_or, resize, ltb, leb, ◌==◌, if◌then◌else◌,
}
use libiouring_server.Common.Word.{sub64}
use libiouring_server.Common.Slices.{blit}
use libiouring_server.WebSocket.Frame.{WsFrame, default_frame, unmask, k_continuation, k_close}

pub data State : Type 0 where
  header payload_len16 payload_len64 mask_key payload : State

pub data Reason : Type 0 where
  unexpected_continuation payload_too_large : Reason

pub data Event : Type 0 where
  frame : ℕ → List ℕ → Event
  error : Reason → Event

pub record Machine : Type 0 where
  pub state : State
  pub current : WsFrame
  pub payload_received : ℕ
  pub failed : Bool
  pub fragment_opcode : ℕ
  pub fragment_buffer : List ℕ
  pub in_fragment : Bool
  pub events : List Event

-- The parser: the members that its state machine uses, and the bytes that wait in buffer_.
pub record WsFrameParser : Type 0 where
  pub machine : Machine
  pub buffer : List ℕ

unfoldable pub initial : Machine
initial = record {
  state = header;
  current = default_frame;
  payload_received = 0;
  failed = false;
  fragment_opcode = k_continuation;
  fragment_buffer = [];
  in_fragment = false;
  events = [];
}

-- A parser whose callbacks are set.
unfoldable pub init : WsFrameParser
init = record { machine = initial; buffer = [] }

-- The callbacks stay, and so does the record of their calls.
pub reset : WsFrameParser → WsFrameParser
unfolding initial
reset p = record { machine = record initial { events = p.machine.events }; buffer = [] }

pub set_error : Reason → Machine → Machine
set_error r p = record p { failed = true; events = p.events ++ error r ∷ [] }

emit : ℕ → List ℕ → Machine → Machine
emit opcode bytes p = record p { events = p.events ++ frame opcode bytes ∷ [] }

-- What std::move(current_.payload) leaves.
moved : Machine → Machine
moved p = record p { current = record p.current { payload = [] } }

continue_fragment : Machine → Machine
continue_fragment p =
    let q = record p { fragment_buffer = p.fragment_buffer ++ p.current.payload } in
    if p.current.fin
    then record (emit q.fragment_opcode q.fragment_buffer (record q { in_fragment = false })) {
      fragment_buffer = [];
    }
    else q

pub process_frame : Machine → Machine
unfolding set_error emit moved continue_fragment
process_frame p =
    let opcode = p.current.opcode in
    if leb k_close opcode
    then moved (emit opcode p.current.payload p)
    else if not (opcode == k_continuation)
    then (if p.current.fin
        then moved (emit opcode p.current.payload p)
        else moved (record p {
          in_fragment = true;
          fragment_opcode = opcode;
          fragment_buffer = p.current.payload;
        }))
    else if not p.in_fragment
    then set_error unexpected_continuation p
    else continue_fragment p

-- Unmask, ProcessFrame, and back to the header.
pub finish_frame : Machine → Machine
finish_frame p = record (process_frame (record p { current = unmask p.current })) { state = header }

pub after_length : Machine → Machine
after_length p = record p {
  current = record p.current { payload = resize p.current.payload_length 0 p.current.payload };
  payload_received = 0;
  state = if p.current.masked then mask_key else payload;
}

pub empty_frame : Machine → Machine
empty_frame p =
    if p.current.masked
    then record p { state = mask_key }
    else record (process_frame
        (record p { current = record p.current { payload = [] }; payload_received = 0 })) {
          state = header;
        }

pub header_frame : ℕ → ℕ → WsFrame
header_frame b0 b1 = record default_frame {
  fin = not (bit_and b0 0x80 == 0);
  opcode = bit_and b0 0x0F;
  masked = not (bit_and b1 0x80 == 0);
}

pub with_length : ℕ → Machine → Machine
with_length n p = record p { current = record p.current { payload_length = n } }

pub read_header : Machine → List ℕ → Machine
read_header p bs =
    let q = record p { current = header_frame (get_or bs 0 0) (get_or bs 1 0) } in
    let len7 = bit_and (get_or bs 1 0) 0x7F in
    if ltb len7 126
    then (if len7 == 0 then empty_frame (with_length len7 q) else after_length (with_length len7 q))
    else if len7 == 126
    then record q { state = payload_len16 }
    else record q { state = payload_len64 }

pub read_len16 : Machine → List ℕ → Machine
read_len16 p bs =
    after_length (with_length (bit_or (get_or bs 0 0 * 2 ^ 8) (get_or bs 1 0) % 2 ^ 64) p)

-- (acc << 8) | byte over 64 bits, for each byte.
unfoldable pub big_endian : ℕ → List ℕ → ℕ
big_endian acc [] = acc
big_endian acc (b ∷ bs) = big_endian (bit_or (acc * 2 ^ 8 % 2 ^ 64) b) bs

abbrev pub max_payload : ℕ
max_payload = 16 * 1024 * 1024

pub read_len64 : Machine → List ℕ → Machine
read_len64 p bs =
    let q = with_length (big_endian 0 bs) p in
    if ltb max_payload (big_endian 0 bs) then set_error payload_too_large q else after_length q

pub read_mask : Machine → List ℕ → Machine
read_mask p bs =
    let q = record p { current = record p.current { masking_key = bs } } in
    if p.current.payload_length == 0
    then finish_frame (record q { current = record q.current { payload = [] } })
    else record q { state = payload }

abbrev pub remaining : Machine → ℕ
remaining p = sub64 p.current.payload_length p.payload_received

pub read_payload : Machine → List ℕ → Machine
read_payload p bs =
    let q = record p {
      current = record p.current { payload = blit p.current.payload p.payload_received bs };
      payload_received = (p.payload_received + length bs) % 2 ^ 64;
    } in
    if q.payload_received == q.current.payload_length then finish_frame q else q

-- One round of the loop of ParseBuffer: it waits for more bytes, or goes on with what is left.
pub data Round : Type 0 where
  wait : Round
  next : Machine → List ℕ → Round

pub fixed : ℕ → (Machine → List ℕ → Machine) → Machine → List ℕ → Round
fixed n read p bs = if ltb (length bs) n then wait else next (read p (take n bs)) (drop n bs)

pub dispatch : State → Machine → List ℕ → Round
unfolding fixed
dispatch header p bs = fixed 2 read_header p bs
dispatch payload_len16 p bs = fixed 2 read_len16 p bs
dispatch payload_len64 p bs = fixed 8 read_len64 p bs
dispatch mask_key p bs = fixed 4 read_mask p bs
dispatch payload p bs =
    let to_copy = min (remaining p) (length bs) in
    next (read_payload p (take to_copy bs)) (drop to_copy bs)

pub step : Machine → List ℕ → Round
step p bs = dispatch p.state p bs

-- The loop, on fuel: a round takes a byte or leaves the state Payload.
pub parse_buffer : ℕ → Machine → List ℕ → Machine × List ℕ
parse_buffer zero p bs = (p, bs)
parse_buffer (suc fuel) p [] = (p, [])
parse_buffer (suc fuel) p (b ∷ bs) = elim p.failed [
  | true ↦ (p, b ∷ bs)
  | false ↦ elim (step p (b ∷ bs)) [ wait ↦ (p, b ∷ bs) | next q rest ↦ parse_buffer fuel q rest ]
]

-- Feed. Twice the bytes and two more rounds are enough fuel.
pub feed : WsFrameParser → List ℕ → WsFrameParser
feed p input =
    let bytes = p.buffer ++ input in
    let (q, rest) = parse_buffer (2 * length bytes + 2) p.machine bytes in
    if p.machine.failed then p else record { machine = q; buffer = rest }
