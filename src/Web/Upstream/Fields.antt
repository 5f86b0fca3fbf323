-- ===== src/Web/Upstream/Fields.antt =====
-- What stands in the lines of a response: no end of a line, and a status of three digits.
use libiouring_server.Common.{
  ℕ, zero, suc, ◌-◌, ◌/◌, ◌^◌, ◌≤◌, ◌<◌, ◌≡◌, refl, ◌∙◌, Bool, true, false, List, [], ◌∷◌, ◌++◌,
  All, All-append, map, if◌then◌else◌, if_cases, Option, none, some, length, ltb, ◌==◌, arith,
  Bool-cases, inl, inr,
}
use libiouring_server.Common.Digits.{
  IsDigits, decimal-IsDigits, IsDigits-Lacks, from_chars-decimal, length-decimal,
}
use libiouring_server.Common.Maps.{find, same, nat_eq}
use libiouring_server.Common.Texts.{codes, Lacks, decimal_rounds, decimal, is_digit, from_chars}
use libiouring_server.Web.Response.{HttpResponse, status_text, status_texts}
use libiouring_server.Web.Upstream.Headers.{StartsUnblank, IsHeader}
use libiouring_server.Web.Upstream.Parse.{from_chars_int}
use libiouring_server.Web.Upstream.Layout.{
  head_line, pair_of, content_type_headers, connection_text, later_headers,
}

three_rounds : (k s : ℕ) → 100 ≤ s → s < 1000 → length (decimal_rounds (suc (suc (suc k))) s) ≡ 3
unfolding decimal_rounds
three_rounds k s h l =
    let big : ltb s 10 ≡ false = ground arith in
    let middle : ltb (s / 10) 10 ≡ false = ground arith in
    let small : ltb (s / 10 / 10) 10 ≡ true = ground arith in rw (big, middle, small) refl

pub length-status : (s : ℕ) → 100 ≤ s → s < 1000 → length (decimal s) ≡ 3
unfolding decimal
length-status zero h l = absurd (omega arith)
length-status (suc zero) h l = absurd (omega arith)
length-status (suc (suc k)) h l = three_rounds k (suc (suc k)) h l

from_chars_int-plain :
    (c : ℕ) (s : List ℕ)
    → is_digit c ≡ true
    → from_chars_int (c ∷ s) ≡ from_chars (2 ^ 31 - 1) (c ∷ s)
unfolding from_chars_int
from_chars_int-plain c s h =
    let plain : (c == 45) ≡ false = unfold is_digit in ground arith in rw plain refl

digits_int :
    (s : List ℕ) (n : ℕ)
    → 0 < length s
    → IsDigits s
    → from_chars (2 ^ 31 - 1) s ≡ some n
    → from_chars_int s ≡ some n
digits_int [] n l h e = absurd (omega arith)
digits_int (c ∷ s) n l h e = from_chars_int-plain c s h.0 ∙ e

pub status_int : (s : ℕ) → s < 1000 → from_chars_int (decimal s) ≡ some s
status_int s h =
    digits_int (decimal s) s (length-decimal s) (decimal-IsDigits s)
      (from_chars-decimal (2 ^ 31 - 1) s (omega arith))

abbrev text_of : Option (List ℕ) → List ℕ
text_of none = codes "Unknown"
text_of (some text) = text

found-Lacks :
    (k : ℕ) (table : List (ℕ × List ℕ))
    → All (λ p. Lacks 13 p.1) table
    → Lacks 13 (text_of (find k table))
unfolding find
found-Lacks k [] h = (refl, (refl, (refl, (refl, (refl, (refl, (refl, tt)))))))
found-Lacks k ((j, text) ∷ table) h =
    if_cases (λ o. Lacks 13 (text_of o)) (same k j) (λ e. h.0) (λ e. found-Lacks k table h.1)

lacks : ℕ → List ℕ → Bool
lacks c [] = true
lacks c (d ∷ s) = if d == c then false else lacks c s

lacks-Lacks : (c : ℕ) (s : List ℕ) → lacks c s ≡ true → Lacks c s
unfolding lacks
lacks-Lacks c [] h = tt
lacks-Lacks c (d ∷ s) h = ground (arith, lacks-Lacks c s)

all_lack : List (ℕ × List ℕ) → Bool
all_lack [] = true
all_lack ((k, text) ∷ table) = if lacks 13 text then all_lack table else false

all_lack-Lacks : (table : List (ℕ × List ℕ)) → all_lack table ≡ true → All (λ p. Lacks 13 p.1) table
unfolding all_lack
all_lack-Lacks [] h = tt
all_lack-Lacks ((k, text) ∷ table) h = elim (Bool-cases (lacks 13 text)) [
  | inl e ↦ (lacks-Lacks 13 text e, all_lack-Lacks table (both e h))
  | inr e ↦ absurd (neither e h)
]
  where
    both :
        lacks 13 text ≡ true
        → (if lacks 13 text then all_lack table else false) ≡ true
        → all_lack table ≡ true
    both e h = ground arith

    neither : lacks 13 text ≡ false → (if lacks 13 text then all_lack table else false) ≡ true → ⊥
    neither e h = ground arith

status_text-Lacks : (s : ℕ) → Lacks 13 (status_text s)
unfolding status_text
status_text-Lacks s =
    found-Lacks s status_texts (all_lack-Lacks status_texts (unfold all_lack lacks in refl))

Lacks-append : (c : ℕ) (s t : List ℕ) → Lacks c s → Lacks c t → Lacks c (s ++ t)
Lacks-append c s t h k = All-append (λ d. (d == c) ≡ false) s t h k

digits-Lacks : (n : ℕ) → Lacks 13 (decimal n)
digits-Lacks n = IsDigits-Lacks 13 (decimal n) (unfold is_digit in refl) (decimal-IsDigits n)

pub head_line-Lacks : (s : ℕ) → Lacks 13 (head_line s)
head_line-Lacks s =
    Lacks-append 13 (codes "HTTP/1.1 ") (decimal s ++ 32 ∷ status_text s)
      (lacks-Lacks 13 (codes "HTTP/1.1 ") (unfold lacks in refl))
      (Lacks-append 13 (decimal s) (32 ∷ status_text s) (digits-Lacks s)
        (refl, status_text-Lacks s))

-- A response that the proxy can read: three digits of a status, and no end of a line in a header, no
-- colon in its name and no blank in front of its value.
pub record IsRelayable (date : List ℕ) (r : HttpResponse) : Type 0 where
  pub three_digits : (100 ≤ r.status) × (r.status < 1000)
  pub date_line : Lacks 13 date × StartsUnblank date
  pub type_line : Lacks 13 r.content_type × StartsUnblank r.content_type
  pub header_lines : All IsHeader (map pair_of r.headers)

fixed-IsHeader :
    (name value : List ℕ)
    → lacks 13 name ≡ true
    → lacks 58 name ≡ true
    → Lacks 13 value
    → StartsUnblank value
    → IsHeader (name, value)
fixed-IsHeader name value h k l m = (lacks-Lacks 13 name h, lacks-Lacks 58 name k, l, m)

type-IsHeader :
    (type : List ℕ) → Lacks 13 type → StartsUnblank type → All IsHeader (content_type_headers type)
type-IsHeader [] h k = tt
type-IsHeader (c ∷ cs) h k = (
  fixed-IsHeader (codes "Content-Type") (c ∷ cs) (unfold lacks in refl) (unfold lacks in refl) h k,
  tt,
)

digits-Unblank : (s : List ℕ) → IsDigits s → StartsUnblank s
digits-Unblank [] h = tt
digits-Unblank (c ∷ s) h = unblank c h.0
  where
    unblank : (c : ℕ) → is_digit c ≡ true → (c == 32) ≡ false
    unblank c h = unfold is_digit in ground arith

connection-IsHeader : (keep : Bool) → IsHeader (codes "Connection", connection_text keep)
connection-IsHeader true =
    fixed-IsHeader (codes "Connection") (codes "keep-alive") (unfold lacks in refl)
      (unfold lacks in refl) (lacks-Lacks 13 (codes "keep-alive") (unfold lacks in refl)) refl
connection-IsHeader false =
    fixed-IsHeader (codes "Connection") (codes "close") (unfold lacks in refl)
      (unfold lacks in refl) (lacks-Lacks 13 (codes "close") (unfold lacks in refl)) refl

pub server-IsHeader : IsHeader (codes "Server", codes "serverweb")
server-IsHeader =
    fixed-IsHeader (codes "Server") (codes "serverweb") (unfold lacks in refl)
      (unfold lacks in refl) (lacks-Lacks 13 (codes "serverweb") (unfold lacks in refl)) refl

length-IsHeader : (n : ℕ) → IsHeader (codes "Content-Length", decimal n)
length-IsHeader n =
    fixed-IsHeader (codes "Content-Length") (decimal n) (unfold lacks in refl)
      (unfold lacks in refl) (digits-Lacks n) (digits-Unblank (decimal n) (decimal-IsDigits n))

pub later-IsHeader :
    (date : List ℕ) (r : HttpResponse) → IsRelayable date r → All IsHeader (later_headers date r)
later-IsHeader date r h = (
  fixed-IsHeader (codes "Date") date (unfold lacks in refl) (unfold lacks in refl) h.date_line.0
      h.date_line.1,
  All-append IsHeader (content_type_headers r.content_type)
      ((codes "Content-Length", decimal (length r.body))
        ∷ (codes "Connection", connection_text r.keep_alive)
        ∷ map pair_of r.headers)
      (type-IsHeader r.content_type h.type_line.0 h.type_line.1)
      (length-IsHeader (length r.body), (connection-IsHeader r.keep_alive, h.header_lines)),
)
