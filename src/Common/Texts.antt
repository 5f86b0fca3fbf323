-- ===== src/Common/Texts.antt =====
-- Texts as lists of codes: the searches of std::string_view, std::to_string and std::from_chars.
use Prim.Native.Char.{code}
use Prim.Native.String.{String}
use Prim.Native.Nat.{ℕ, zero, suc, ◌+◌, ◌-◌, ◌*◌, ◌/◌, ◌%◌, ◌<◌}
use mathlib.Core.Path.{◌≡◌, refl}
use mathlib.Core.Bool.{Bool, true, false, ◌&&◌}
use mathlib.Core.Option.{Option, none, some}
use mathlib.Core.List.{List, [], ◌∷◌, ◌++◌}
use native.Mathlib.Omega.{arith}
use libiouring_server.Common.Tests.{ltb, leb, ◌==◌, if◌then◌else◌, ==_iff}
use libiouring_server.Common.Lists.{length, All, drop}

-- The bytes of a literal.
abbrev pub codes : String → List ℕ
codes String.[] = []
codes (String.◌∷◌ c s) = code c ∷ codes s

-- s.find(c)
unfoldable pub position : ℕ → List ℕ → Option ℕ
position c [] = none
position c (d ∷ ds) =
    let rest = position c ds in
    if d == c then some 0 else elim rest [ none ↦ none | some k ↦ some (suc k) ]

-- s.substr(0, s.find(c)): all of s, if c is not in it.
unfoldable pub before : ℕ → List ℕ → List ℕ
before c [] = []
before c (d ∷ ds) = let rest = before c ds in if d == c then [] else d ∷ rest

-- s.substr(s.find(c) + 1), if c is in s.
unfoldable pub behind : ℕ → List ℕ → Option (List ℕ)
behind c [] = none
behind c (d ∷ ds) = if d == c then some ds else behind c ds

-- s.substr(0, p.size()) == p
unfoldable pub starts_with : List ℕ → List ℕ → Bool
starts_with [] s = true
starts_with (a ∷ p) [] = false
starts_with (a ∷ p) (b ∷ s) = a == b && starts_with p s

-- s.find(p)
unfoldable pub find_text : List ℕ → List ℕ → Option ℕ
find_text p [] = if starts_with p [] then some 0 else none
find_text p (d ∷ ds) =
    let rest = find_text p ds in
    if starts_with p (d ∷ ds) then some 0 else elim rest [ none ↦ none | some k ↦ some (suc k) ]

-- s.find(p, from)
unfoldable pub find_text_from : List ℕ → ℕ → List ℕ → Option ℕ
find_text_from p from s = elim (find_text p (drop from s)) [
  | none ↦ none
  | some k ↦ some (from + k)
]

unfoldable pub is_digit : ℕ → Bool
is_digit c = leb 48 c && leb c 57

-- The value of the digits in front, behind those that make up acc.
unfoldable pub digits_value : ℕ → List ℕ → ℕ
digits_value acc [] = acc
digits_value acc (c ∷ cs) =
    let rest = digits_value (acc * 10 + (c - 48)) cs in if is_digit c then rest else acc

-- std::from_chars of an unsigned type whose greatest value is given.
unfoldable pub from_chars : ℕ → List ℕ → Option ℕ
from_chars greatest [] = none
from_chars greatest (c ∷ cs) =
    let v = digits_value 0 (c ∷ cs) in
    if is_digit c then (if leb v greatest then some v else none) else none

unfoldable pub decimal_rounds : ℕ → ℕ → List ℕ
decimal_rounds zero n = []
decimal_rounds (suc k) n =
    let front = decimal_rounds k (n / 10) in
    if ltb n 10 then (48 + n) ∷ [] else front ++ (48 + n % 10) ∷ []

-- std::to_string. Each round divides by 10, so n + 1 rounds are enough.
unfoldable pub decimal : ℕ → List ℕ
decimal n = decimal_rounds (suc n) n

abbrev pub Lacks : ℕ → List ℕ → Type 0
Lacks c s = All (λ d. (d == c) ≡ false) s

pub before-append : (c : ℕ) (s r : List ℕ) → Lacks c s → before c (s ++ c ∷ r) ≡ s
unfolding before
before-append c [] r h = rw ((==_iff c c).1 refl) refl
before-append c (d ∷ s) r h = rw (h.0, before-append c s r h.1) refl

pub behind-append : (c : ℕ) (s r : List ℕ) → Lacks c s → behind c (s ++ c ∷ r) ≡ some r
unfolding behind
behind-append c [] r h = rw ((==_iff c c).1 refl) refl
behind-append c (d ∷ s) r h = rw (h.0, behind-append c s r h.1) refl

pub before-Lacks : (c : ℕ) (s : List ℕ) → Lacks c s → before c s ≡ s
unfolding before
before-Lacks c [] h = refl
before-Lacks c (d ∷ s) h = rw (h.0, before-Lacks c s h.1) refl

pub behind-Lacks : (c : ℕ) (s : List ℕ) → Lacks c s → behind c s ≡ none
unfolding behind
behind-Lacks c [] h = refl
behind-Lacks c (d ∷ s) h = rw (h.0, behind-Lacks c s h.1) refl

-- What is behind a separator is shorter.
pub length-behind : (c : ℕ) (s r : List ℕ) → behind c s ≡ some r → length r < length s
unfolding behind
length-behind c [] r h = absurd cc
length-behind c (d ∷ s) r h = ground (arith, length-behind c s r)

pub starts_with-append : (p s : List ℕ) → starts_with p (p ++ s) ≡ true
unfolding starts_with
starts_with-append [] s = refl
starts_with-append (a ∷ p) s = rw ((==_iff a a).1 refl, starts_with-append p s) refl

-- A text with the prefix is the prefix and the rest.
pub starts_with-split : (p s : List ℕ) → starts_with p s ≡ true → s ≡ p ++ drop (length p) s
unfolding starts_with
starts_with-split [] s h = refl
starts_with-split (a ∷ p) [] h = absurd cc
starts_with-split (a ∷ p) (b ∷ s) h = ground (arith, starts_with-split p s)
