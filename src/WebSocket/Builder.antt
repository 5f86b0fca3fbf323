-- ===== src/WebSocket/Builder.antt =====
-- src/game/WsFrameBuilder.cpp. Whether the pool hands out a buffer of a size is an argument; the
-- bytes are those that are committed, and a write past the allocated size is `fault`.
use Prim.Native.Nat.{bit_and}
use libiouring_server.Common.{
  ℕ, zero, suc, ◌+◌, ◌*◌, ◌/◌, ◌^◌, Bool, List, [], ◌∷◌, ◌++◌, length, ltb, leb, ◌&&◌,
  if◌then◌else◌,
}
use libiouring_server.Common.Word.{u32}

pub data Built : Type 0 where
  null : Built
  built : List ℕ → Built
  fault : Built

unfoldable pub header_size : ℕ → ℕ
header_size n = if leb 126 n && leb n 65535 then 4 else if ltb 65535 n then 10 else 2

-- (size >> (56 - 8 * i)) & 0xFF for i = 8 - k, ..., 7.
unfoldable pub be_bytes : ℕ → ℕ → List ℕ
be_bytes zero n = []
be_bytes (suc k) n = bit_and (n / 2 ^ (8 * k)) 0xFF ∷ be_bytes k n

unfoldable pub header_bytes : ℕ → List ℕ
header_bytes n =
    if ltb n 126
    then 0x81 ∷ n ∷ []
    else if leb n 65535
    then 0x81 ∷ 126 ∷ bit_and (n / 2 ^ 8) 0xFF ∷ bit_and n 0xFF ∷ []
    else 0x81 ∷ 127 ∷ be_bytes 8 n

unfoldable pub build_ws_text_frame : (ℕ → Bool) → List ℕ → Built
build_ws_text_frame allocate text =
    let total = u32 (header_size (length text) + length text) in
    let bytes = header_bytes (length text) ++ text in
    if allocate total then (if leb (length bytes) total then built bytes else fault) else null
