-- ===== src/Jwt/Codec/Tokens.antt =====
-- Decode behind Encode.
use libiouring_server.Common.{
  ℕ, ◌+◌, ◌-◌, ◌<◌, ◌≡◌, ◌≢◌, refl, sym, ap, ◌∙◌, true, List, [], ◌∷◌, ◌++◌, length, take, drop,
  All, if◌then◌else◌,
}
use libiouring_server.Jwt.Base64.{base64_url_encode, base64_url_decode}
use libiouring_server.Jwt.Base64.RoundTrip.{decode-encode}
use libiouring_server.Jwt.Codec.{
  JwtClaims, parsed, unauthorized, decoded, Libraries, same_text, sign, header_payload, encode,
  expired, read_payload_bytes, decode_parts, decode,
}
use libiouring_server.Jwt.Codec.Laws.{
  same_text_refl, base64-NoDot, NoDot, behind_second, decode-parts, middle, signed_part, dot2,
}

-- What the code relies on for a payload: its text is made of bytes, is not empty, and is read back.
pub record IsReadable (l : Libraries) (claims : JwtClaims) : Type 0 where
  pub bytes : All (λ b. b < 256) (l.dump claims)
  pub not_empty : l.dump claims ≢ []
  pub read_back : l.parse (l.dump claims) ≡ parsed claims

read_payload_lem :
    (l : Libraries) (now : ℕ) (claims : JwtClaims) (text : List ℕ)
    → text ≢ []
    → l.parse text ≡ parsed claims
    → read_payload_bytes l now text ≡ (if expired claims now then unauthorized else decoded claims)
unfolding read_payload_bytes
read_payload_lem l now claims [] n h = absurd (n refl)
read_payload_lem l now claims (b ∷ bs) n h = rw (h, read_payload_bytes) refl

sign-NoDot : (l : Libraries) (data_text : List ℕ) → NoDot (sign l data_text)
unfolding sign
sign-NoDot l data_text = base64-NoDot (l.hmac data_text)

-- A signature that is right lets the payload be read.
pub parts_lem :
    (l : Libraries) (now : ℕ) (token : List ℕ) (dot1 dot2 : ℕ)
    → sign l (take dot2 token) ≡ drop (dot2 + 1) token
    → decode_parts l now token dot1 dot2
      ≡ read_payload_bytes l now
          (base64_url_decode (take (dot2 - dot1 - 1) (drop (dot1 + 1) token)))
unfolding decode_parts
parts_lem l now token dot1 dot2 e =
    let ok : same_text (sign l (take dot2 token)) (drop (dot2 + 1) token) ≡ true =
      ap (λ (z : List ℕ). same_text z (drop (dot2 + 1) token)) e
      ∙ same_text_refl (drop (dot2 + 1) token) in
    rw ok refl

-- For claims whose payload text is made of bytes, is not empty and is read back by the JSON
-- library: Decode of the token that Encode builds returns the claims, unless they have expired;
-- then it refuses them as unauthorized.
pub decode-encode_claims :
    (l : Libraries) (now : ℕ) (claims : JwtClaims)
    → IsReadable l claims
    → decode l now (encode l claims) ≡ (if expired claims now then unauthorized else decoded claims)
unfolding encode header_payload
decode-encode_claims l now claims r =
    let h = base64_url_encode l.header_text in
    let p = base64_url_encode (l.dump claims) in
    let s = sign l (h ++ 46 ∷ p) in
    let nh = base64-NoDot l.header_text in
    let np = base64-NoDot (l.dump claims) in
    let ns = sign-NoDot l (h ++ 46 ∷ p) in
    decode-parts h p s nh np ns l now
    ∙ parts_lem l now ((h ++ 46 ∷ p) ++ 46 ∷ s) (length h) (length h + 1 + length p)
        (ap (sign l) (signed_part h p s nh np ns) ∙ sym (behind_second h p s nh np ns))
    ∙ ap (read_payload_bytes l now)
        (ap base64_url_decode (middle h p s nh np ns) ∙ decode-encode (l.dump claims) r.bytes)
    ∙ read_payload_lem l now claims (l.dump claims) r.not_empty r.read_back
