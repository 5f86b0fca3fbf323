-- ===== src/WebSocket/Wire.antt =====
-- The layout of a frame on the wire (RFC 6455, section 5.2), written independently of the parser:
-- FIN is set, and the length takes the shortest of its three forms.
use Prim.Native.Nat.{bit_and, bit_or}
use mathlib.Core.Path.{ap₂}
use libiouring_server.Common.{
  ℕ, zero, suc, ◌+◌, ◌*◌, ◌/◌, ◌%◌, ◌^◌, ◌≤◌, ◌<◌, ◌≡◌, refl, ap, ◌∙◌, List, [], ◌∷◌, ◌++◌, length,
  get_or, All, arith, ltb, leb, if◌then◌else◌, Bool, true, false,
}
use libiouring_server.Common.Bits.{bit_and_0xFF, bit_or_fields, bit_xor_twice}
use libiouring_server.WebSocket.Frame.{xor_from}
use libiouring_server.WebSocket.Parser.{big_endian}
use libiouring_server.WebSocket.Builder.{be_bytes}

-- The bit of the second byte that announces a masking key.
abbrev pub mask_bit : Bool → ℕ
mask_bit true = 128
mask_bit false = 0

-- The second byte and the extended length.
abbrev pub length_bytes : ℕ → ℕ → List ℕ
length_bytes bit n =
    if ltb n 126
    then (bit + n) ∷ []
    else if leb n 65535
    then (bit + 126) ∷ bit_and (n / 2 ^ 8) 0xFF ∷ bit_and n 0xFF ∷ []
    else (bit + 127) ∷ be_bytes 8 n

-- A frame as a server sends it.
abbrev pub server_frame : ℕ → List ℕ → List ℕ
server_frame opcode text = (128 + opcode) ∷ length_bytes (mask_bit false) (length text) ++ text

-- A frame as a client sends it, masked.
abbrev pub client_frame : ℕ → List ℕ → List ℕ → List ℕ
client_frame opcode key text =
    (128 + opcode) ∷ length_bytes (mask_bit true) (length text) ++ (key ++ xor_from 0 key text)

-- One byte of a big-endian number is read.
be_step :
    (acc m : ℕ) → acc ≡ m / 256 → m < 2 ^ 64 → bit_or (acc * 2 ^ 8 % 2 ^ 64) (bit_and m 0xFF) ≡ m
be_step acc m h k = rw (bit_and_0xFF m, small) (bit_or_fields 8 acc (m % 256) (omega arith) ∙ whole)
  where
    small : acc * 2 ^ 8 % 2 ^ 64 ≡ acc * 2 ^ 8
    small = omega arith

    whole : acc * 2 ^ 8 + m % 256 ≡ m
    whole = omega arith

-- The two bytes of a 16-bit length.
pub len16_lem :
    (n : ℕ) → n ≤ 65535 → bit_or (bit_and (n / 2 ^ 8) 0xFF * 2 ^ 8) (bit_and n 0xFF) % 2 ^ 64 ≡ n
len16_lem n h =
    rw
      (
        bit_and_0xFF n,
        bit_and_0xFF (n / 2 ^ 8),
        bit_or_fields 8 (n / 2 ^ 8 % 256) (n % 256) (omega arith),
      )
      (omega arith)

-- The eight bytes of a 64-bit length.
pub len64_lem : (n : ℕ) → n < 2 ^ 64 → big_endian 0 (be_bytes 8 n) ≡ n
unfolding big_endian be_bytes
len64_lem n h =
    rw
      (
        be_step 0 (n / 2 ^ 56) (omega arith) (omega arith),
        be_step (n / 2 ^ 56) (n / 2 ^ 48) (omega arith) (omega arith),
        be_step (n / 2 ^ 48) (n / 2 ^ 40) (omega arith) (omega arith),
        be_step (n / 2 ^ 40) (n / 2 ^ 32) (omega arith) (omega arith),
        be_step (n / 2 ^ 32) (n / 2 ^ 24) (omega arith) (omega arith),
        be_step (n / 2 ^ 24) (n / 2 ^ 16) (omega arith) (omega arith),
        be_step (n / 2 ^ 16) (n / 2 ^ 8) (omega arith) (omega arith),
      )
      (be_step (n / 2 ^ 8) (n / 1) (omega arith) (omega arith) ∙ omega arith)

pub length-be_bytes : (k n : ℕ) → length (be_bytes k n) ≡ k
unfolding be_bytes
length-be_bytes zero n = refl
length-be_bytes (suc k) n = ap suc (length-be_bytes k n)

get_or-lt : (key : List ℕ) (i : ℕ) → All (λ k. k < 256) key → get_or key i 0 < 256
get_or-lt [] i h = omega arith
get_or-lt (k ∷ key) zero h = h.0
get_or-lt (k ∷ key) (suc i) h = get_or-lt key i h.1

-- Masking twice with the same key gives the bytes back.
pub xor_from_twice :
    (i : ℕ) (key text : List ℕ)
    → All (λ k. k < 256) key
    → All (λ b. b < 256) text
    → xor_from i key (xor_from i key text) ≡ text
unfolding xor_from
xor_from_twice i key [] hk ht = refl
xor_from_twice i key (x ∷ xs) hk ht =
    ap₂ ◌∷◌ (bit_xor_twice x (get_or key (i % 4) 0) ht.0 (get_or-lt key (i % 4) hk))
      (xor_from_twice (i + 1) key xs hk ht.1)

pub length-xor_from : (i : ℕ) (key text : List ℕ) → length (xor_from i key text) ≡ length text
unfolding xor_from
length-xor_from i key [] = refl
length-xor_from i key (x ∷ xs) = ap suc (length-xor_from (i + 1) key xs)
