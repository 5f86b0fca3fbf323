-- ===== src/Jwt/Base64/RoundTrip.antt =====
-- Base64UrlDecode behind Base64UrlEncode.
use Prim.Native.Nat.{bit_or}
use mathlib.Core.Path.{ap₂}
use libiouring_server.Common.{
  ℕ, zero, suc, ◌+◌, ◌*◌, ◌/◌, ◌%◌, ◌^◌, ◌<◌, ◌≡◌, refl, ap, ◌∙◌, Bool, true, false, not, List, [],
  ◌∷◌, ◌++◌, map, Option, none, some, length, get_or, leb, ◌==◌, All, arith,
}
use libiouring_server.Common.Bits.{table, entry, bit_and_0x3F, bit_and_0xFF, bit_or_fields}
use libiouring_server.Jwt.Base64.{
  alphabet, dt, to_url, from_url, encoded, encode_blocks, base64_url_encode, pad_up, read_char,
  read_chars, block_bytes, decode_blocks, base64_url_decode,
}

-- The code that stands for i before the tables are looked up again.
abbrev letter : ℕ → ℕ
letter i = from_url (to_url (get_or alphabet i 0))

abbrev holds : Option ℕ → ℕ → Bool
holds none i = false
holds (some d) i = d == i

holds_lem : (o : Option ℕ) (i : ℕ) → holds o i ≡ true → o ≡ some i
holds_lem none i h = ground arith
holds_lem (some d) i h = ground arith

no_padding : table (λ i. not (letter i == 61)) 64 ≡ true
unfolding table to_url from_url
no_padding = refl

in_table : table (λ i. not (leb 128 (letter i))) 64 ≡ true
unfolding table to_url from_url
in_table = refl

looked_up : table (λ i. holds (get_or dt (letter i) none) i) 64 ≡ true
unfolding table to_url from_url
looked_up = refl

negated : (b : Bool) → not b ≡ true → b ≡ false
negated b h = ground arith

read_letter :
    (i n pad : ℕ) → i < 64 → n < 2 ^ 24 → read_char (letter i) (n, pad) ≡ some (n * 2 ^ 6 + i, pad)
unfolding read_char
read_letter i n pad h k =
    let small : n * 2 ^ 6 % 2 ^ 32 ≡ n * 2 ^ 6 = omega arith in
    rw
      (
        negated (letter i == 61) (entry (λ j. not (letter j == 61)) 64 i no_padding h),
        negated (leb 128 (letter i)) (entry (λ j. not (leb 128 (letter j))) 64 i in_table h),
        holds_lem (get_or dt (letter i) none) i
            (entry (λ j. holds (get_or dt (letter j) none) j) 64 i looked_up h),
        small,
        bit_or_fields 6 n i h,
      )
      refl

read_next :
    (c : ℕ) (cs : List ℕ) (np next : ℕ × ℕ)
    → read_char c np ≡ some next
    → read_chars (c ∷ cs) np ≡ read_chars cs next
unfolding read_chars
read_next c cs np next h = rw (h, read_chars) refl

-- The next character is one that the encoder wrote for n.
read_encoded :
    (n s m : ℕ) (cs : List ℕ)
    → m < 2 ^ 24
    → read_chars (from_url (to_url (encoded n s)) ∷ cs) (m, 0)
      ≡ read_chars cs (m * 2 ^ 6 + n / 2 ^ s % 64, 0)
unfolding encoded
read_encoded n s m cs h = rw (bit_and_0x3F (n / 2 ^ s)) (
    read_next (letter (n / 2 ^ s % 64)) cs (m, 0) (m * 2 ^ 6 + n / 2 ^ s % 64, 0)
      (read_letter (n / 2 ^ s % 64) m 0 (omega arith) h))

read_two :
    (n : ℕ) (cs : List ℕ)
    → n < 2 ^ 24
    → read_chars (from_url (to_url (encoded n 18)) ∷ from_url (to_url (encoded n 12)) ∷ cs) (0, 0)
      ≡ read_chars cs (n / 2 ^ 12, 0)
read_two n cs h =
    read_encoded n 18 0 (from_url (to_url (encoded n 12)) ∷ cs) (omega arith)
    ∙ read_encoded n 12 (0 * 2 ^ 6 + n / 2 ^ 18 % 64) cs (omega arith)
    ∙ ap (λ (m : ℕ). read_chars cs (m, 0)) (omega arith)

read_three :
    (n : ℕ) (cs : List ℕ)
    → n < 2 ^ 24
    → read_chars
        (from_url (to_url (encoded n 18))
          ∷ from_url (to_url (encoded n 12))
          ∷ from_url (to_url (encoded n 6))
          ∷ cs)
        (0, 0)
      ≡ read_chars cs (n / 2 ^ 6, 0)
read_three n cs h =
    read_two n (from_url (to_url (encoded n 6)) ∷ cs) h
    ∙ read_encoded n 6 (n / 2 ^ 12) cs (omega arith)
    ∙ ap (λ (m : ℕ). read_chars cs (m, 0)) (omega arith)

read_four :
    (n : ℕ)
    → n < 2 ^ 24
    → read_chars
        (from_url (to_url (encoded n 18))
          ∷ from_url (to_url (encoded n 12))
          ∷ from_url (to_url (encoded n 6))
          ∷ from_url (to_url (encoded n 0))
          ∷ [])
        (0, 0)
      ≡ some (n, 0)
unfolding read_chars
read_four n h =
    read_three n (from_url (to_url (encoded n 0)) ∷ []) h
    ∙ read_encoded n 0 (n / 2 ^ 6) [] (omega arith)
    ∙ ap (λ (m : ℕ). some (m, 0)) (omega arith)

pad_four :
    (fuel a b c d : ℕ) (s : List ℕ)
    → pad_up fuel (a ∷ b ∷ c ∷ d ∷ s) ≡ a ∷ b ∷ c ∷ d ∷ pad_up fuel s
unfolding pad_up
pad_four zero a b c d s = refl
pad_four (suc fuel) a b c d s =
    let same : (length (a ∷ b ∷ c ∷ d ∷ s) % 4) ≡ length s % 4 = omega arith in
    let rest = pad_four fuel a b c d (s ++ 61 ∷ []) in ground (arith, same, rest)

two_bytes : (a b : ℕ) → b < 256 → bit_or (a * 2 ^ 16) (b * 2 ^ 8) ≡ a * 65536 + b * 256
two_bytes a b h = bit_or_fields 16 a (b * 2 ^ 8) (omega arith) ∙ omega arith

three_bytes :
    (a b c : ℕ)
    → b < 256
    → c < 256
    → bit_or (bit_or (a * 2 ^ 16) (b * 2 ^ 8)) c ≡ a * 65536 + b * 256 + c
three_bytes a b c hb hc =
    ap (λ (m : ℕ). bit_or m c) (two_bytes a b hb ∙ shift)
    ∙ bit_or_fields 8 (a * 256 + b) c hc
    ∙ omega arith
  where
    shift : a * 65536 + b * 256 ≡ (a * 256 + b) * 2 ^ 8
    shift = omega arith

-- The bytes that are pushed for the encoded ones.
block_one : (a : ℕ) → a < 256 → block_bytes (a * 2 ^ 16 / 2 ^ 12, 2) ≡ a ∷ []
unfolding block_bytes
block_one a h =
    rw (bit_and_0xFF (a * 2 ^ 16 / 2 ^ 12 * 2 ^ 12 % 2 ^ 32 / 2 ^ 16))
      (ap (λ (x : ℕ). x ∷ []) (omega arith))

block_two :
    (a b : ℕ) → a < 256 → b < 256 → block_bytes ((a * 65536 + b * 256) / 2 ^ 6, 1) ≡ a ∷ b ∷ []
unfolding block_bytes
block_two a b h k =
    let m = (a * 65536 + b * 256) / 2 ^ 6 * 2 ^ 6 % 2 ^ 32 in
    rw (bit_and_0xFF (m / 2 ^ 16), bit_and_0xFF (m / 2 ^ 8))
      (ap₂ (λ (x y : ℕ). x ∷ y ∷ []) (omega arith) (omega arith))

block_three :
    (a b c : ℕ)
    → a < 256
    → b < 256
    → c < 256
    → block_bytes (a * 65536 + b * 256 + c, 0) ≡ a ∷ b ∷ c ∷ []
unfolding block_bytes
block_three a b c h k l =
    let m = (a * 65536 + b * 256 + c) * 1 % 2 ^ 32 in
    rw (bit_and_0xFF (m / 2 ^ 16), bit_and_0xFF (m / 2 ^ 8), bit_and_0xFF m)
      (ap₂ ◌∷◌ (omega arith) (ap₂ (λ (x y : ℕ). x ∷ y ∷ []) (omega arith) (omega arith)))

decode_block :
    (w x y z : ℕ) (rest : List ℕ) (np : ℕ × ℕ) (block bytes : List ℕ)
    → read_chars (w ∷ x ∷ y ∷ z ∷ []) (0, 0) ≡ some np
    → block_bytes np ≡ block
    → decode_blocks rest ≡ some bytes
    → decode_blocks (w ∷ x ∷ y ∷ z ∷ rest) ≡ some (block ++ bytes)
unfolding decode_blocks
decode_block w x y z rest np block bytes h b k = rw (h, k, b, decode_blocks) refl

-- The characters of an encoder for n, as the decoder sees them.
abbrev seen : ℕ → ℕ → ℕ
seen n s = from_url (to_url (encoded n s))

blocks_lem :
    (bytes : List ℕ)
    → All (λ b. b < 256) bytes
    → decode_blocks (pad_up 3 (map from_url (map to_url (encode_blocks bytes)))) ≡ some bytes
unfolding encode_blocks pad_up read_chars read_char decode_blocks
blocks_lem [] h = refl
blocks_lem (a ∷ []) h =
    let n = a * 2 ^ 16 in
    decode_block (seen n 18) (seen n 12) 61 61 [] (n / 2 ^ 12, 2) (a ∷ []) []
      (read_two n (61 ∷ 61 ∷ []) (omega (arith, h.0))) (block_one a h.0) refl
blocks_lem (a ∷ b ∷ []) h =
    let n = bit_or (a * 2 ^ 16) (b * 2 ^ 8) in
    let sum = two_bytes a b h.1.0 in
    decode_block (seen n 18) (seen n 12) (seen n 6) 61 [] (n / 2 ^ 6, 1) (a ∷ b ∷ []) []
      (read_three n (61 ∷ []) (omega (arith, sum, h.0, h.1.0)))
      (ap (λ (m : ℕ). block_bytes (m / 2 ^ 6, 1)) sum ∙ block_two a b h.0 h.1.0) refl
blocks_lem (a ∷ b ∷ c ∷ rest) h =
    let n = bit_or (bit_or (a * 2 ^ 16) (b * 2 ^ 8)) c in
    let sum = three_bytes a b c h.1.0 h.1.1.0 in
    let others = map from_url (map to_url (encode_blocks rest)) in
    ap decode_blocks (pad_four 3 (seen n 18) (seen n 12) (seen n 6) (seen n 0) others)
    ∙ decode_block (seen n 18) (seen n 12) (seen n 6) (seen n 0) (pad_up 3 others) (n, 0)
        (a ∷ b ∷ c ∷ []) rest (read_four n (omega (arith, sum, h.0, h.1.0, h.1.1.0)))
        (ap (λ (m : ℕ). block_bytes (m, 0)) sum ∙ block_three a b c h.0 h.1.0 h.1.1.0)
        (blocks_lem rest h.1.1.1)

-- For every sequence of bytes, Base64UrlDecode of what Base64UrlEncode returns is that sequence.
pub decode-encode :
    (bytes : List ℕ)
    → All (λ b. b < 256) bytes
    → base64_url_decode (base64_url_encode bytes) ≡ bytes
unfolding base64_url_decode base64_url_encode
decode-encode bytes h = rw (blocks_lem bytes h, base64_url_decode) refl
