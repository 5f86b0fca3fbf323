-- ===== src/Jwt/Codec/Laws.antt =====
-- The parts of a token, and where Decode cuts it.
use mathlib.Core.Path.{ap₂}
use libiouring_server.Common.{
  ℕ, ◌+◌, ◌-◌, ◌%◌, ◌/◌, ◌^◌, ◌≡◌, ◌≢◌, refl, sym, ap, subst, ◌∙◌, true, not, List, [], ◌∷◌, ◌++◌,
  map, none, some, length, take, drop, get_or, All, ◌==◌, arith, append_assoc, length-append,
}
use libiouring_server.Common.Slices.{take-append_exact, drop-append_add}
use libiouring_server.Common.Bits.{table, entry, bit_and_0x3F}
use libiouring_server.Jwt.Base64.{alphabet, to_url, encoded, encode_blocks, base64_url_encode}
use libiouring_server.Jwt.Codec.{Libraries, index_of, find_from, same_text, decode_parts, decode}

abbrev pub NoDot : List ℕ → Type 0
NoDot s = All (λ c. c ≢ 46) s

no_dot_table : table (λ i. not (to_url (get_or alphabet i 0) == 46)) 64 ≡ true
unfolding table to_url
no_dot_table = refl

not_eq : (c : ℕ) → not (c == 46) ≡ true → c ≢ 46
not_eq c h = λ e. ground (arith, e)

encoded-NoDot : (n s : ℕ) → to_url (encoded n s) ≢ 46
unfolding encoded
encoded-NoDot n s =
    subst (λ (i : ℕ). to_url (get_or alphabet i 0) ≢ 46) (sym (bit_and_0x3F (n / 2 ^ s)))
      (not_eq (to_url (get_or alphabet (n / 2 ^ s % 64) 0)) (
        entry (λ i. not (to_url (get_or alphabet i 0) == 46)) 64 (n / 2 ^ s % 64) no_dot_table
          (omega arith)))

blocks-NoDot : (bytes : List ℕ) → NoDot (map to_url (encode_blocks bytes))
unfolding encode_blocks
blocks-NoDot [] = tt
blocks-NoDot (a ∷ []) = (encoded-NoDot _ 18, (encoded-NoDot _ 12, tt))
blocks-NoDot (a ∷ b ∷ []) = (encoded-NoDot _ 18, (encoded-NoDot _ 12, (encoded-NoDot _ 6, tt)))
blocks-NoDot (a ∷ b ∷ c ∷ rest) = (
  encoded-NoDot _ 18,
  (encoded-NoDot _ 12, (encoded-NoDot _ 6, (encoded-NoDot _ 0, blocks-NoDot rest))),
)

pub base64-NoDot : (bytes : List ℕ) → NoDot (base64_url_encode bytes)
unfolding base64_url_encode
base64-NoDot bytes = blocks-NoDot bytes

index_of-NoDot : (s : List ℕ) → NoDot s → index_of 46 s ≡ none
unfolding index_of
index_of-NoDot [] h = refl
index_of-NoDot (x ∷ xs) h = ground (arith, index_of-NoDot xs h.1, h.0)

index_of_dot : (s t : List ℕ) → NoDot s → index_of 46 (s ++ 46 ∷ t) ≡ some (length s)
unfolding index_of
index_of_dot [] t h = refl
index_of_dot (x ∷ xs) t h = ground (arith, index_of_dot xs t h.1, h.0)

pub same_text_refl : (s : List ℕ) → same_text s s ≡ true
unfolding same_text
same_text_refl [] = refl
same_text_refl (x ∷ xs) = ground (arith, same_text_refl xs)

pub same_text_sound : (s t : List ℕ) → same_text s t ≡ true → s ≡ t
unfolding same_text
same_text_sound [] [] h = refl
same_text_sound [] (y ∷ ys) h = ground arith
same_text_sound (x ∷ xs) [] h = ground arith
same_text_sound (x ∷ xs) (y ∷ ys) h = ground (arith, same_text_sound xs ys)

pub find_from-eq :
    (from i : ℕ) (s : List ℕ)
    → index_of 46 (drop from s) ≡ some i
    → find_from 46 from s ≡ some (from + i)
unfolding find_from
find_from-eq from i s h = rw (h, find_from) refl

pub find_from-none :
    (from : ℕ) (s : List ℕ) → index_of 46 (drop from s) ≡ none → find_from 46 from s ≡ none
unfolding find_from
find_from-none from s h = rw (h, find_from) refl

-- Three parts without a dot, with dots between them.
module _ (h p s : List ℕ) (nh : NoDot h) (np : NoDot p) (ns : NoDot s) where
  abbrev token : List ℕ
  token = (h ++ 46 ∷ p) ++ 46 ∷ s

  abbrev pub dot2 : ℕ
  dot2 = length h + 1 + length p

  regroup : token ≡ h ++ 46 ∷ (p ++ 46 ∷ s)
  regroup = append_assoc h (46 ∷ p) (46 ∷ s)

  length-front : length (h ++ 46 ∷ p) ≡ dot2
  length-front = omega (arith, length-append h (46 ∷ p))

  behind_first : drop (length h + 1) token ≡ p ++ 46 ∷ s
  behind_first = ap (drop (length h + 1)) regroup ∙ drop-append_add 1 h (46 ∷ (p ++ 46 ∷ s))

  pub behind_second : drop (dot2 + 1) token ≡ s
  behind_second =
      ap (λ (k : ℕ). drop (k + 1) token) (sym length-front)
      ∙ drop-append_add 1 (h ++ 46 ∷ p) (46 ∷ s)

  first_dot : find_from 46 0 token ≡ some (length h)
  first_dot =
      find_from-eq 0 (length h) token (ap (index_of 46) regroup ∙ index_of_dot h (p ++ 46 ∷ s) nh)
      ∙ ap some (omega arith)

  second_dot : find_from 46 (length h + 1) token ≡ some dot2
  second_dot =
      find_from-eq (length h + 1) (length p) token
        (ap (index_of 46) behind_first ∙ index_of_dot p s np)

  no_third_dot : find_from 46 (dot2 + 1) token ≡ none
  no_third_dot =
      find_from-none (dot2 + 1) token (ap (index_of 46) behind_second ∙ index_of-NoDot s ns)

  pub decode-parts :
      (l : Libraries) (now : ℕ) → decode l now token ≡ decode_parts l now token (length h) dot2
  unfolding decode
  decode-parts l now = rw (first_dot, second_dot, no_third_dot, decode) refl

  pub middle : take (dot2 - length h - 1) (drop (length h + 1) token) ≡ p
  middle = ap₂ take (omega arith) behind_first ∙ take-append_exact (length p) p (46 ∷ s) refl

  pub signed_part : take dot2 token ≡ h ++ 46 ∷ p
  signed_part = take-append_exact dot2 (h ++ 46 ∷ p) (46 ∷ s) length-front
