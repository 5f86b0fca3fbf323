-- ===== src/Jwt/Codec/Signed.antt =====
-- What Decode has checked where it accepts a token.
use libiouring_server.Common.{
  ℕ, zero, suc, ◌+◌, ◌-◌, ◌≡◌, refl, sym, ap, ◌∙◌, inl, inr, false, List, [], ◌∷◌, ◌++◌, some, take,
  drop, get_elem?, Bool-cases, Option-cases, arith,
}
use libiouring_server.Jwt.Base64.{base64_url_decode}
use libiouring_server.Jwt.Codec.{
  JwtClaims, bad_request, unauthorized, decoded, Libraries, index_of, find_from, same_text, sign,
  expired, read_payload_bytes, decode_parts, decode,
}
use libiouring_server.Jwt.Codec.Tokens.{parts_lem}
use libiouring_server.Jwt.Codec.Laws.{same_text_sound, find_from-eq, find_from-none}

get_elem?-index_of : (c i : ℕ) (s : List ℕ) → index_of c s ≡ some i → get_elem? s i ≡ some c
unfolding index_of
get_elem?-index_of c i [] h = ground arith
get_elem?-index_of c zero (x ∷ xs) h = ground arith
get_elem?-index_of c (suc i) (x ∷ xs) h = ground (arith, get_elem?-index_of c i xs)

get_elem?-drop : (n i : ℕ) (s : List ℕ) → get_elem? (drop n s) i ≡ get_elem? s (n + i)
get_elem?-drop zero i s = ap (get_elem? s) (omega arith)
get_elem?-drop (suc n) i [] = refl
get_elem?-drop (suc n) i (x ∷ xs) = get_elem?-drop n i xs ∙ ap (get_elem? (x ∷ xs)) (plus_suc n i)
  where
    plus_suc : (n i : ℕ) → suc (n + i) ≡ suc n + i
    plus_suc n i = omega arith

split_at : (d c : ℕ) (s : List ℕ) → get_elem? s d ≡ some c → s ≡ take d s ++ c ∷ drop (d + 1) s
split_at d c [] h = ground arith
split_at zero c (x ∷ xs) h = ground arith
split_at (suc d) c (x ∷ xs) h =
    let next : suc (d + 1) ≡ suc d + 1 = omega arith in
    ap (◌∷◌ x) (split_at d c xs h) ∙ ap (λ (k : ℕ). x ∷ (take d xs ++ c ∷ drop k (x ∷ xs))) next

some_inj : {a b : ℕ} → some a ≡ some b → a ≡ b
some_inj h = ground arith

find_from-dot :
    (from d : ℕ) (s : List ℕ) → find_from 46 from s ≡ some d → s ≡ take d s ++ 46 ∷ drop (d + 1) s
unfolding find_from
find_from-dot from d s h = elim (Option-cases (index_of 46 (drop from s))) [
  | inl n ↦ absurd (let t = sym (find_from-none from s n) ∙ h in cc)
  | inr (i, e) ↦ split_at d 46 s (
      sym
        (get_elem?-drop from i s ∙ ap (get_elem? s) (some_inj (sym (find_from-eq from i s e) ∙ h)))
      ∙ get_elem?-index_of 46 i (drop from s) e)
]

-- A payload is accepted only if its claims have not expired.
payload-fresh :
    (l : Libraries) (now : ℕ) (claims : JwtClaims) (text : List ℕ)
    → read_payload_bytes l now text ≡ decoded claims
    → expired claims now ≡ false
unfolding read_payload_bytes
payload-fresh l now claims [] h = ground arith
payload-fresh l now claims (b ∷ bs) h = ground arith

decode_parts-signed :
    (l : Libraries) (now : ℕ) (token : List ℕ) (dot1 dot2 : ℕ) (claims : JwtClaims)
    → decode_parts l now token dot1 dot2 ≡ decoded claims
    → (sign l (take dot2 token) ≡ drop (dot2 + 1) token) × (expired claims now ≡ false)
unfolding decode_parts
decode_parts-signed l now token dot1 dot2 claims h =
    elim (Bool-cases (same_text (sign l (take dot2 token)) (drop (dot2 + 1) token))) [
      | inl t ↦
          let e = same_text_sound (sign l (take dot2 token)) (drop (dot2 + 1) token) t in
          (
            e,
            payload-fresh l now claims
                (base64_url_decode (take (dot2 - dot1 - 1) (drop (dot1 + 1) token)))
                (sym (parts_lem l now token dot1 dot2 e) ∙ h),
          )
      | inr f ↦
          let refused : decode_parts l now token dot1 dot2 ≡ unauthorized = rw f refl in
          absurd (let t = sym refused ∙ h in cc)
    ]

-- Whenever Decode returns claims, the token is some text, a dot, and the signature of that text,
-- and the claims have not expired.
pub decode-signed :
    (l : Libraries) (now : ℕ) (token : List ℕ) (claims : JwtClaims)
    → decode l now token ≡ decoded claims
    → (text : List ℕ) × (token ≡ text ++ 46 ∷ sign l text) × (expired claims now ≡ false)
unfolding decode
decode-signed l now token claims h = elim (Option-cases (find_from 46 0 token)) [
  | inl n ↦
      let bad : decode l now token ≡ bad_request = rw (n, decode) refl in
      absurd (let t = sym bad ∙ h in cc)
  | inr (dot1, n1) ↦ elim (Option-cases (find_from 46 (dot1 + 1) token)) [
    | inl n ↦
        let bad : decode l now token ≡ bad_request = rw (n1, n, decode) refl in
        absurd (let t = sym bad ∙ h in cc)
    | inr (dot2, n2) ↦ elim (Option-cases (find_from 46 (dot2 + 1) token)) [
      | inl n ↦
          let parts : decode l now token ≡ decode_parts l now token dot1 dot2 =
            rw (n1, n2, n, decode) refl in
          let (e, fresh) = decode_parts-signed l now token dot1 dot2 claims (sym parts ∙ h) in
          (
            take dot2 token,
            find_from-dot (dot1 + 1) dot2 token n2
                ∙ ap (λ (z : List ℕ). take dot2 token ++ 46 ∷ z) (sym e),
            fresh,
          )
      | inr (dot3, n3) ↦
          let bad : decode l now token ≡ bad_request = rw (n1, n2, n3, decode) refl in
          absurd (let t = sym bad ∙ h in cc)
    ]
  ]
]
