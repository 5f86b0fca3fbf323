-- ===== src/Jwt/Base64.antt =====
-- Base64UrlEncode and Base64UrlDecode of src/web/auth/JwtCodec.cpp. A character is its code.
pub mod RoundTrip
use Prim.Native.Nat.{bit_and, bit_or}
use libiouring_server.Common.{
  ℕ, zero, suc, ◌+◌, ◌*◌, ◌/◌, ◌%◌, ◌^◌, Bool, true, false, ◌||◌, List, [], ◌∷◌, ◌++◌, map, Option,
  none, some, length, get_or, replicate, ltb, leb, ◌==◌, if◌then◌else◌,
}

-- The codes from, from + 1, ... of n characters.
abbrev codes : ℕ → ℕ → List ℕ
codes from zero = []
codes from (suc n) = from ∷ codes (from + 1) n

-- A-Z, a-z, 0-9, + and /
abbrev pub alphabet : List ℕ
alphabet = codes 65 26 ++ (codes 97 26 ++ (codes 48 10 ++ 43 ∷ 47 ∷ []))

-- std::replace of '+' by '-' and of '/' by '_', and back.
unfoldable pub to_url : ℕ → ℕ
to_url c = let d = if c == 43 then 45 else c in if d == 47 then 95 else d

unfoldable pub from_url : ℕ → ℕ
from_url c = let d = if c == 45 then 43 else c in if d == 95 then 47 else d

-- table[(n >> s) & 0x3F] for s = 18, 12, 6, 0.
unfoldable pub encoded : ℕ → ℕ → ℕ
encoded n s = get_or alphabet (bit_and (n / 2 ^ s) 0x3F) 0

unfoldable pub encode_blocks : List ℕ → List ℕ
encode_blocks [] = []
encode_blocks (a ∷ []) = let n = a * 2 ^ 16 in encoded n 18 ∷ encoded n 12 ∷ []
encode_blocks (a ∷ b ∷ []) =
    let n = bit_or (a * 2 ^ 16) (b * 2 ^ 8) in encoded n 18 ∷ encoded n 12 ∷ encoded n 6 ∷ []
encode_blocks (a ∷ b ∷ c ∷ rest) =
    let n = bit_or (bit_or (a * 2 ^ 16) (b * 2 ^ 8)) c in
    encoded n 18 ∷ encoded n 12 ∷ encoded n 6 ∷ encoded n 0 ∷ encode_blocks rest

unfoldable pub base64_url_encode : List ℕ → List ℕ
base64_url_encode bytes = map to_url (encode_blocks bytes)

-- some d for the values d from ... of n characters
abbrev values : ℕ → ℕ → List (Option ℕ)
values from zero = []
values from (suc n) = some from ∷ values (from + 1) n

-- The table dt, with none for -1.
abbrev dt : List (Option ℕ)
dt =
    replicate 43 none
    ++ some 62 ∷ replicate 3 none
    ++ some 63 ∷ values 52 10
    ++ (replicate 7 none
        ++ (values 0 26 ++ (replicate 6 none ++ (values 26 26 ++ replicate 5 none))))

-- while (b64.size() % 4 != 0) b64.push_back('='), which takes at most three rounds.
unfoldable pub pad_up : ℕ → List ℕ → List ℕ
pad_up zero s = s
pad_up (suc fuel) s = let rest = pad_up fuel (s ++ 61 ∷ []) in if length s % 4 == 0 then s else rest

-- One character of a block, with n and pad; none where the code returns {}.
unfoldable pub read_char : ℕ → ℕ × ℕ → Option (ℕ × ℕ)
read_char c (n, pad) =
    if c == 61 then some (n, pad + 1) else if leb 128 c then none else elim (get_or dt c none) [
      | none ↦ none
      | some d ↦ some (bit_or (n * 2 ^ 6 % 2 ^ 32) d, pad)
    ]

unfoldable pub read_chars : List ℕ → ℕ × ℕ → Option (ℕ × ℕ)
read_chars [] np = some np
read_chars (c ∷ cs) np = elim (read_char c np) [ none ↦ none | some next ↦ read_chars cs next ]

-- n <<= pad * 6 and the bytes of n that are pushed.
unfoldable pub block_bytes : ℕ × ℕ → List ℕ
block_bytes (n, pad) =
    let m = n * 2 ^ (pad * 6) % 2 ^ 32 in
    bit_and (m / 2 ^ 16) 0xFF ∷ (if ltb pad 2 then bit_and (m / 2 ^ 8) 0xFF ∷ [] else [])
    ++ (if ltb pad 1 then bit_and m 0xFF ∷ [] else [])

-- The loop over blocks of four. Its input has a multiple of four characters; on others the code
-- would read out of bounds, here none.
unfoldable pub decode_blocks : List ℕ → Option (List ℕ)
decode_blocks [] = some []
decode_blocks (a ∷ b ∷ c ∷ d ∷ rest) =
    let more = decode_blocks rest in
    elim (read_chars (a ∷ b ∷ c ∷ d ∷ []) (0, 0)) [
      | none ↦ none
      | some np ↦ elim more [ none ↦ none | some bytes ↦ some (block_bytes np ++ bytes) ]
    ]
decode_blocks (_ ∷ _) = none

unfoldable pub base64_url_decode : List ℕ → List ℕ
base64_url_decode s = elim (decode_blocks (pad_up 3 (map from_url s))) [
  | none ↦ []
  | some bytes ↦ bytes
]
