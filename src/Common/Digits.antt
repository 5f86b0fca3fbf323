-- ===== src/Common/Digits.antt =====
-- The digits that std::to_string writes, and std::from_chars on them.
use Prim.Native.Nat.{ℕ, zero, suc, ◌+◌, ◌-◌, ◌*◌, ◌/◌, ◌%◌, ◌≤◌, ◌<◌}
use mathlib.Core.Path.{◌≡◌, refl, sym, ap, ◌∙◌}
use mathlib.Core.Bool.{true, false}
use mathlib.Core.Option.{some}
use mathlib.Core.List.{List, [], ◌∷◌, ◌++◌}
use native.Mathlib.Omega.{arith}
use libiouring_server.Common.Tests.{ltb, leb, ◌==◌, if_cases}
use libiouring_server.Common.Lists.{All, All-append, length, length-append}
use libiouring_server.Common.Texts.{
  is_digit, digits_value, from_chars, decimal_rounds, decimal, Lacks,
}

abbrev pub IsDigits : List ℕ → Type 0
IsDigits s = All (λ c. is_digit c ≡ true) s

digit : (n : ℕ) → n < 10 → is_digit (48 + n) ≡ true
unfolding is_digit
digit n h = ground arith

decimal_rounds-IsDigits : (k n : ℕ) → IsDigits (decimal_rounds k n)
unfolding decimal_rounds
decimal_rounds-IsDigits zero n = tt
decimal_rounds-IsDigits (suc k) n =
    if_cases IsDigits (ltb n 10) (λ e. (digit n (ground arith), tt))
      (λ e.
        All-append (λ c. is_digit c ≡ true) (decimal_rounds k (n / 10)) ((48 + n % 10) ∷ [])
          (decimal_rounds-IsDigits k (n / 10)) (digit (n % 10) (omega arith), tt))

pub decimal-IsDigits : (n : ℕ) → IsDigits (decimal n)
unfolding decimal
decimal-IsDigits n = decimal_rounds-IsDigits (suc n) n

-- A code that is no digit is not in a number.
pub IsDigits-Lacks : (c : ℕ) (s : List ℕ) → is_digit c ≡ false → IsDigits s → Lacks c s
unfolding is_digit
IsDigits-Lacks c [] h k = tt
IsDigits-Lacks c (d ∷ s) h k = (other c d h k.0, IsDigits-Lacks c s h k.1)
  where
    other : (c d : ℕ) → is_digit c ≡ false → is_digit d ≡ true → (d == c) ≡ false
    other c d h k = unfold is_digit in ground arith

digits_value-step :
    (acc c : ℕ) (s : List ℕ)
    → is_digit c ≡ true
    → digits_value acc (c ∷ s) ≡ digits_value (acc * 10 + (c - 48)) s
unfolding digits_value
digits_value-step acc c s h = rw h refl

digits_value-append :
    (acc : ℕ) (s t : List ℕ)
    → IsDigits s
    → digits_value acc (s ++ t) ≡ digits_value (digits_value acc s) t
unfolding digits_value
digits_value-append acc [] t h = refl
digits_value-append acc (c ∷ s) t h =
    digits_value-step acc c (s ++ t) h.0
    ∙ digits_value-append (acc * 10 + (c - 48)) s t h.1
    ∙ ap (λ z. digits_value z t) (sym (digits_value-step acc c s h.0))

last_digit : (acc d : ℕ) → d < 10 → digits_value acc ((48 + d) ∷ []) ≡ acc * 10 + d
unfolding digits_value
last_digit acc d h = digits_value-step acc (48 + d) [] (digit d h) ∙ omega arith

decimal_rounds-value : (k n : ℕ) → n < k → digits_value 0 (decimal_rounds k n) ≡ n
unfolding decimal_rounds
decimal_rounds-value zero n h = absurd (omega arith)
decimal_rounds-value (suc k) n h =
    if_cases (λ s. digits_value 0 s ≡ n) (ltb n 10)
      (λ e. last_digit 0 n (ground arith) ∙ omega arith)
      (λ e.
        digits_value-append 0 (decimal_rounds k (n / 10)) ((48 + n % 10) ∷ [])
          (decimal_rounds-IsDigits k (n / 10))
        ∙ ap (λ z. digits_value z ((48 + n % 10) ∷ []))
            (decimal_rounds-value k (n / 10) (ground arith))
        ∙ last_digit (n / 10) (n % 10) (omega arith)
        ∙ omega arith)

single : (c : ℕ) → 0 < length (c ∷ [])
single c = omega arith

not_empty : (s t : List ℕ) → 0 < length t → 0 < length (s ++ t)
not_empty s t h = omega (arith, length-append s t)

decimal_rounds-front : (k n : ℕ) → 0 < length (decimal_rounds (suc k) n)
unfolding decimal_rounds
decimal_rounds-front k n =
    if_cases (λ (s : List ℕ). 0 < length s) (ltb n 10) (λ e. single (48 + n))
      (λ e. not_empty (decimal_rounds k (n / 10)) ((48 + n % 10) ∷ []) (single (48 + n % 10)))

pub length-decimal : (n : ℕ) → 0 < length (decimal n)
unfolding decimal
length-decimal n = decimal_rounds-front n n

pub from_chars-value :
    (greatest n : ℕ) (s : List ℕ)
    → 0 < length s
    → IsDigits s
    → digits_value 0 s ≡ n
    → n ≤ greatest
    → from_chars greatest s ≡ some n
unfolding from_chars
from_chars-value greatest n [] l h e k = absurd (omega arith)
from_chars-value greatest n (c ∷ s) l h e k =
    let small : leb n greatest ≡ true = ground arith in rw (h.0, e, small) refl

-- std::from_chars reads back what std::to_string writes, if the type is wide enough.
pub from_chars-decimal : (greatest n : ℕ) → n ≤ greatest → from_chars greatest (decimal n) ≡ some n
from_chars-decimal greatest n h =
    from_chars-value greatest n (decimal n) (length-decimal n) (decimal-IsDigits n) (value n) h
  where
    value : (n : ℕ) → digits_value 0 (decimal n) ≡ n
    value n = unfold decimal in decimal_rounds-value (suc n) n (omega arith)
