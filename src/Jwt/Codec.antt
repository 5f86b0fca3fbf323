-- ===== src/Jwt/Codec.antt =====
-- Sign, Encode and Decode of src/web/auth/JwtCodec.cpp. HMAC-SHA256 under the secret (OpenSSL) and
-- the texts of JSON values (nlohmann::json) are parameters.
pub mod Laws
pub mod Tokens
pub mod Signed
use libiouring_server.Common.{
  ℕ, zero, suc, ◌+◌, ◌-◌, ◌^◌, Bool, true, false, not, ◌&&◌, List, [], ◌∷◌, ◌++◌, Option, none,
  some, take, drop, ltb, ◌==◌, if◌then◌else◌,
}
use libiouring_server.Jwt.Base64.{base64_url_encode, base64_url_decode}

-- std::int64_t members as their 64 bits; texts as codes.
pub record JwtClaims : Type 0 where
  pub sub : List ℕ
  pub device_id : List ℕ
  pub iat : ℕ
  pub exp : ℕ

-- Reading a payload: no JSON, JSON with a member of a wrong type (get throws), or claims.
pub data Parsed : Type 0 where
  discarded : Parsed
  throws : Parsed
  parsed : JwtClaims → Parsed

pub data Decoded : Type 0 where
  bad_request : Decoded
  unauthorized : Decoded
  thrown : Decoded
  decoded : JwtClaims → Decoded

-- What the code uses of OpenSSL and of nlohmann::json.
pub record Libraries : Type 0 where
  pub hmac : List ℕ → List ℕ
  pub header_text : List ℕ
  pub dump : JwtClaims → List ℕ
  pub parse : List ℕ → Parsed

unfoldable pub index_of : ℕ → List ℕ → Option ℕ
index_of c [] = none
index_of c (x ∷ xs) =
    let rest = index_of c xs in
    if x == c then some 0 else elim rest [ none ↦ none | some i ↦ some (i + 1) ]

-- s.find(c, from)
unfoldable pub find_from : ℕ → ℕ → List ℕ → Option ℕ
find_from c from s = elim (index_of c (drop from s)) [ none ↦ none | some i ↦ some (from + i) ]

unfoldable pub same_text : List ℕ → List ℕ → Bool
same_text [] [] = true
same_text [] (y ∷ ys) = false
same_text (x ∷ xs) [] = false
same_text (x ∷ xs) (y ∷ ys) = x == y && same_text xs ys

unfoldable pub sign : Libraries → List ℕ → List ℕ
sign l data_text = base64_url_encode (l.hmac data_text)

unfoldable pub header_payload : Libraries → JwtClaims → List ℕ
header_payload l claims = base64_url_encode l.header_text ++ 46 ∷ base64_url_encode (l.dump claims)

unfoldable pub encode : Libraries → JwtClaims → List ℕ
encode l claims = header_payload l claims ++ 46 ∷ sign l (header_payload l claims)

-- claims.exp > 0 && claims.exp < now
unfoldable pub expired : JwtClaims → ℕ → Bool
expired claims now = ltb 0 claims.exp && (ltb claims.exp (2 ^ 63) && ltb claims.exp now)

unfoldable pub read_payload_bytes : Libraries → ℕ → List ℕ → Decoded
read_payload_bytes l now [] = bad_request
read_payload_bytes l now (b ∷ bs) = elim (l.parse (b ∷ bs)) [
  | discarded ↦ bad_request
  | throws ↦ thrown
  | parsed claims ↦ if expired claims now then unauthorized else decoded claims
]

-- Decode behind the search for the two dots.
unfoldable pub decode_parts : Libraries → ℕ → List ℕ → ℕ → ℕ → Decoded
decode_parts l now token dot1 dot2 =
    if not (same_text (sign l (take dot2 token)) (drop (dot2 + 1) token))
    then unauthorized
    else read_payload_bytes l now
        (base64_url_decode (take (dot2 - dot1 - 1) (drop (dot1 + 1) token)))

unfoldable pub decode : Libraries → ℕ → List ℕ → Decoded
decode l now token = elim (find_from 46 0 token) [
  | none ↦ bad_request
  | some dot1 ↦ elim (find_from 46 (dot1 + 1) token) [
    | none ↦ bad_request
    | some dot2 ↦ elim (find_from 46 (dot2 + 1) token) [
      | some dot3 ↦ bad_request
      | none ↦ decode_parts l now token dot1 dot2
    ]
  ]
]
