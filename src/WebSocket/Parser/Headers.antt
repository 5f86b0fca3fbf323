-- ===== src/WebSocket/Parser/Headers.antt =====
-- The header and the length of a frame on the wire, as the parser reads them.
use Prim.Native.Nat.{bit_and}
use libiouring_server.Common.{
  ℕ, ◌+◌, ◌/◌, ◌^◌, ◌≤◌, ◌<◌, ◌≡◌, ◌≢◌, refl, ap, ◌∙◌, inl, inr, Bool, true, false, List, [], ◌∷◌,
  ◌++◌, length, arith, ltb, leb, ltb→lt, lt→ltb, leb→le, ◌==◌, if◌then◌else◌, Bool-cases,
  length-append,
}
use libiouring_server.Common.Slices.{take-append_exact, drop-append_exact}
use libiouring_server.Common.Bits.{bit_and_0x7F, bit_and_0x0F, bit_and_0x80}
use libiouring_server.WebSocket.Frame.{WsFrame, default_frame}
use libiouring_server.WebSocket.Parser.{
  State, header, payload_len16, payload_len64, Machine, next, fixed, dispatch, step, read_header,
  read_len16, read_len64, after_length, with_length, empty_frame, header_frame, max_payload,
}
use libiouring_server.WebSocket.Wire.{mask_bit, length_bytes, len16_lem, len64_lem, length-be_bytes}
use libiouring_server.WebSocket.Builder.{be_bytes}
use libiouring_server.WebSocket.Parser.Runs.{Runs, more}

-- The frame that a header announces.
abbrev pub announced : ℕ → Bool → WsFrame
announced opcode masked = record default_frame { fin = true; opcode = opcode; masked = masked }

top_bit : (x : ℕ) → x < 128 → bit_and (128 + x) 0x80 ≡ 128
top_bit x h = omega (arith, bit_and_0x80 (128 + x) (omega arith))

no_top_bit : (x : ℕ) → x < 128 → bit_and (0 + x) 0x80 ≡ 0
no_top_bit x h = omega (arith, bit_and_0x80 (0 + x) (omega arith))

low_bits4 : (x : ℕ) → x < 16 → bit_and (128 + x) 0x0F ≡ x
low_bits4 x h = omega (arith, bit_and_0x0F (128 + x) (omega arith))

low_bits7 : (mk : Bool) (x : ℕ) → x < 128 → bit_and (mask_bit mk + x) 0x7F ≡ x
low_bits7 true x h = omega (arith, bit_and_0x7F (128 + x) (omega arith))
low_bits7 false x h = omega (arith, bit_and_0x7F (0 + x) (omega arith))

header_frame_lem :
    (opcode x : ℕ) (mk : Bool)
    → opcode < 16
    → x < 128
    → header_frame (128 + opcode) (mask_bit mk + x) ≡ announced opcode mk
unfolding header_frame
header_frame_lem opcode x true h k =
    rw (top_bit opcode (omega arith), top_bit x k, low_bits4 opcode h)
header_frame_lem opcode x false h k =
    rw (top_bit opcode (omega arith), no_top_bit x k, low_bits4 opcode h)

fixed_exact :
    (n : ℕ) (read : Machine → List ℕ → Machine) (m : Machine) (pre rest : List ℕ)
    → length pre ≡ n
    → fixed n read m (pre ++ rest) ≡ next (read m pre) rest
unfolding fixed
fixed_exact n read m pre rest h =
    let enough : ltb (length (pre ++ rest)) n ≡ false = ground (arith, length-append pre rest) in
    rw (enough, take-append_exact n pre rest h, drop-append_exact n pre rest h)

-- A round that reads exactly what it needs.
pub step_exact :
    (n : ℕ) (s : State) (read : Machine → List ℕ → Machine) (m : Machine) (pre rest : List ℕ)
    → m.state ≡ s
    → ((bs : List ℕ) → dispatch s m bs ≡ fixed n read m bs)
    → length pre ≡ n
    → step m (pre ++ rest) ≡ next (read m pre) rest
unfolding step
step_exact n s read m pre rest e d h =
    ap (λ (z : State). dispatch z m (pre ++ rest)) e
    ∙ d (pre ++ rest)
    ∙ fixed_exact n read m pre rest h

-- The machine behind a header and a length that is not 0, or behind an empty frame's header.
abbrev pub opened : Machine → ℕ → Bool → ℕ → Machine
opened m opcode mk n =
    let q = with_length n (record m { current = announced opcode mk }) in
    if n == 0 then empty_frame q else after_length q

read_header_short :
    (m : Machine) (opcode n : ℕ) (mk : Bool)
    → opcode < 16
    → n < 126
    → read_header m ((128 + opcode) ∷ (mask_bit mk + n) ∷ []) ≡ opened m opcode mk n
unfolding read_header
read_header_short m opcode n mk h k =
    rw (header_frame_lem opcode n mk h (omega arith), low_bits7 mk n (omega arith), lt→ltb n 126 k)

read_header_long :
    (m : Machine) (opcode : ℕ) (mk : Bool)
    → opcode < 16
    → (read_header m ((128 + opcode) ∷ (mask_bit mk + 126) ∷ [])
        ≡ record m { current = announced opcode mk; state = payload_len16 })
      × (read_header m ((128 + opcode) ∷ (mask_bit mk + 127) ∷ [])
          ≡ record m { current = announced opcode mk; state = payload_len64 })
unfolding read_header
read_header_long m opcode mk h = (
  rw (header_frame_lem opcode 126 mk h (omega arith), low_bits7 mk 126 (omega arith)),
  rw (header_frame_lem opcode 127 mk h (omega arith), low_bits7 mk 127 (omega arith)),
)

pub not_zero : (n : ℕ) → 0 < n → (n == 0) ≡ false
not_zero n h = ground arith

fits : (n : ℕ) → n ≤ max_payload → ltb max_payload n ≡ false
fits n h = ground arith

read_len16_lem :
    (m : Machine) (opcode n : ℕ) (mk : Bool)
    → 126 ≤ n
    → n ≤ 65535
    → read_len16
        (record m { current = announced opcode mk; state = payload_len16 })
        (bit_and (n / 2 ^ 8) 0xFF ∷ bit_and n 0xFF ∷ [])
      ≡ opened m opcode mk n
unfolding read_len16 after_length with_length
read_len16_lem m opcode n mk h k = rw (len16_lem n k, not_zero n (omega arith))

read_len64_lem :
    (m : Machine) (opcode n : ℕ) (mk : Bool)
    → 65535 < n
    → n ≤ max_payload
    → read_len64 (record m { current = announced opcode mk; state = payload_len64 }) (be_bytes 8 n)
      ≡ opened m opcode mk n
unfolding read_len64 after_length with_length
read_len64_lem m opcode n mk h k =
    rw (len64_lem n (omega arith), fits n k, not_zero n (omega arith))

opened16-Runs :
    (m : Machine) (opcode n : ℕ) (mk : Bool) (rest : List ℕ) {t : Machine} {u : List ℕ}
    → m.state ≡ header
    → m.failed ≡ false
    → opcode < 16
    → 126 ≤ n
    → n ≤ 65535
    → Runs (opened m opcode mk n) rest t u
    → Runs m
        ((128 + opcode) ∷ (mask_bit mk + 126) ∷ bit_and (n / 2 ^ 8) 0xFF ∷ bit_and n 0xFF ∷ rest)
        t
        u
opened16-Runs m opcode n mk rest s f h k l run =
    let q = record m { current = announced opcode mk; state = payload_len16 } in
    let size = bit_and (n / 2 ^ 8) 0xFF ∷ bit_and n 0xFF ∷ [] in
    more (λ z. cc) f
      (step_exact 2 header read_header m ((128 + opcode) ∷ (mask_bit mk + 126) ∷ []) (size ++ rest)
          s (λ bs. unfold dispatch in refl) refl
        ∙ ap (λ (z : Machine). next z (size ++ rest)) (read_header_long m opcode mk h).0)
      (more {p = q} (λ z. cc) f
        (step_exact 2 payload_len16 read_len16 q size rest refl (λ bs. unfold dispatch in refl) refl
          ∙ ap (λ (z : Machine). next z rest) (read_len16_lem m opcode n mk k l))
        run)

be_bytes-ne-nil : (n : ℕ) (rest : List ℕ) → be_bytes 8 n ++ rest ≢ []
unfolding be_bytes
be_bytes-ne-nil n rest e = cc

opened64-Runs :
    (m : Machine) (opcode n : ℕ) (mk : Bool) (rest : List ℕ) {t : Machine} {u : List ℕ}
    → m.state ≡ header
    → m.failed ≡ false
    → opcode < 16
    → 65535 < n
    → n ≤ max_payload
    → Runs (opened m opcode mk n) rest t u
    → Runs m ((128 + opcode) ∷ (mask_bit mk + 127) ∷ (be_bytes 8 n ++ rest)) t u
opened64-Runs m opcode n mk rest s f h k l run =
    let q = record m { current = announced opcode mk; state = payload_len64 } in
    more (λ z. cc) f
      (step_exact 2 header read_header m ((128 + opcode) ∷ (mask_bit mk + 127) ∷ [])
          (be_bytes 8 n ++ rest) s (λ bs. unfold dispatch in refl) refl
        ∙ ap (λ (z : Machine). next z (be_bytes 8 n ++ rest)) (read_header_long m opcode mk h).1)
      (more {p = q} (be_bytes-ne-nil n rest) f
        (step_exact 8 payload_len64 read_len64 q (be_bytes 8 n) rest refl
            (λ bs. unfold dispatch in refl) (length-be_bytes 8 n)
          ∙ ap (λ (z : Machine). next z rest) (read_len64_lem m opcode n mk k l))
        run)

-- The rounds that read a header and a length.
pub opened-Runs :
    (m : Machine) (opcode n : ℕ) (mk : Bool) (rest : List ℕ) {t : Machine} {u : List ℕ}
    → m.state ≡ header
    → m.failed ≡ false
    → opcode < 16
    → n ≤ max_payload
    → Runs (opened m opcode mk n) rest t u
    → Runs m ((128 + opcode) ∷ length_bytes (mask_bit mk) n ++ rest) t u
opened-Runs m opcode n mk rest s f h k run = elim (Bool-cases (ltb n 126)) [
  | inl short ↦ rw short (
      more (λ z. cc) f
        (step_exact 2 header read_header m ((128 + opcode) ∷ (mask_bit mk + n) ∷ []) rest s
            (λ bs. unfold dispatch in refl) refl
          ∙ ap (λ (q : Machine). next q rest)
              (read_header_short m opcode n mk h (ltb→lt n 126 short)))
        run)
  | inr long ↦ elim (Bool-cases (leb n 65535)) [
    | inl mid ↦
        rw (long, mid)
          (opened16-Runs m opcode n mk rest s f h (ground arith) (leb→le n 65535 mid) run)
    | inr wide ↦ rw (long, wide) (opened64-Runs m opcode n mk rest s f h (ground arith) k run)
  ]
]
