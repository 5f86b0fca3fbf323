-- ===== src/WebSocket/Frame.antt =====
-- include/serverweb/WsFrame.h, and the masking of a payload. An opcode is a number, the value of
-- the enumeration's underlying type, since the parser casts any four bits to it.
use Prim.Native.Nat.{bit_xor}
use libiouring_server.Common.{ℕ, ◌+◌, ◌%◌, Bool, true, false, List, [], ◌∷◌, get_or, if◌then◌else◌}

abbrev pub k_continuation : ℕ
k_continuation = 0x0

abbrev pub k_text : ℕ
k_text = 0x1

abbrev pub k_binary : ℕ
k_binary = 0x2

abbrev pub k_close : ℕ
k_close = 0x8

pub record WsFrame : Type 0 where
  pub fin : Bool
  pub opcode : ℕ
  pub masked : Bool
  pub payload_length : ℕ
  pub masking_key : List ℕ
  pub payload : List ℕ

-- WsFrame{}
abbrev pub default_frame : WsFrame
default_frame = record {
  fin = true;
  opcode = k_text;
  masked = false;
  payload_length = 0;
  masking_key = 0 ∷ 0 ∷ 0 ∷ 0 ∷ [];
  payload = [];
}

-- payload[i] ^= masking_key[i % 4], from index i on.
unfoldable pub xor_from : ℕ → List ℕ → List ℕ → List ℕ
xor_from i key [] = []
xor_from i key (x ∷ xs) = bit_xor x (get_or key (i % 4) 0) ∷ xor_from (i + 1) key xs

unfoldable pub unmask : WsFrame → WsFrame
unmask f = if f.masked then record f { payload = xor_from 0 f.masking_key f.payload } else f
