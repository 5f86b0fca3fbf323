-- ===== src/Jwt/Examples.antt =====
-- A token of a codec whose signature is the length of what it signs.
use libiouring_server.Common.{ℕ, ◌≡◌, refl, ap, [], ◌∷◌, length, get_or, if◌then◌else◌, arith}
use libiouring_server.Jwt.Codec.{
  JwtClaims, parsed, unauthorized, decoded, Libraries, encode, expired, decode,
}
use libiouring_server.Jwt.Codec.Tokens.{IsReadable, decode-encode_claims}

abbrev until : ℕ → JwtClaims
until exp = record { sub = []; device_id = []; iat = 0; exp = exp }

abbrev codec : Libraries
codec = record {
  hmac = λ text. length text ∷ [];
  header_text = 72 ∷ [];
  dump = λ claims. claims.exp ∷ [];
  parse = λ text. parsed (until (get_or text 0 0));
}

until-IsReadable : IsReadable codec (until 5)
until-IsReadable = record {
  bytes = (omega arith, tt);
  not_empty = λ e. absurd (omega (arith, ap length e));
  read_back = refl;
}

decode-encode_claims_example :
    decode codec 9 (encode codec (until 5))
    ≡ (if expired (until 5) 9 then unauthorized else decoded (until 5))
decode-encode_claims_example = decode-encode_claims codec 9 (until 5) until-IsReadable

in_time : decode codec 3 (encode codec (until 5)) ≡ decoded (until 5)
unfolding expired
in_time = decode-encode_claims codec 3 (until 5) until-IsReadable
