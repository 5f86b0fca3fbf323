-- ===== src/Common/Lists.antt =====
-- Lists measured and indexed by native numbers, under the library's names.
use Prim.Native.Nat.{ℕ, zero, suc, ◌+◌, ◌-◌, min}
use mathlib.Core.Path.{◌≡◌, refl, ap}
use mathlib.Core.Logic.{◌⊎◌, inl, inr}
use mathlib.Core.List.{List, [], ◌∷◌, ◌++◌}
use mathlib.Core.Option.{Option, none, some}
use mathlib.Core.Bool.{Bool, true, false}
use native.Mathlib.Omega.{arith}
use libiouring_server.Common.Tests.{Bool-cases}

module _ {ℓ} {A : Type ℓ} where
  abbrev pub length : List A → ℕ
  length [] = 0
  length (x ∷ xs) = suc (length xs)

  abbrev pub get_elem? : List A → ℕ → Option A
  get_elem? [] i = none
  get_elem? (x ∷ xs) zero = some x
  get_elem? (x ∷ xs) (suc i) = get_elem? xs i

  abbrev pub get_or : List A → ℕ → A → A
  get_or [] i d = d
  get_or (x ∷ xs) zero d = x
  get_or (x ∷ xs) (suc i) d = get_or xs i d

  -- std::vector::resize
  abbrev pub resize : ℕ → A → List A → List A
  resize zero d xs = []
  resize (suc n) d [] = d ∷ resize n d []
  resize (suc n) d (x ∷ xs) = x ∷ resize n d xs

  pub length-resize : (n : ℕ) (d : A) (xs : List A) → length (resize n d xs) ≡ n
  length-resize zero d xs = refl
  length-resize (suc n) d [] = ap suc (length-resize n d [])
  length-resize (suc n) d (x ∷ xs) = ap suc (length-resize n d xs)

  abbrev pub take : ℕ → List A → List A
  take zero xs = []
  take (suc n) [] = []
  take (suc n) (x ∷ xs) = x ∷ take n xs

  abbrev pub drop : ℕ → List A → List A
  drop zero xs = xs
  drop (suc n) [] = []
  drop (suc n) (x ∷ xs) = drop n xs

  abbrev pub replicate : ℕ → A → List A
  replicate zero a = []
  replicate (suc n) a = a ∷ replicate n a

  abbrev pub All {κ} : (A → Type κ) → List A → Type κ
  All P [] = Unit
  All P (x ∷ xs) = P x × All P xs

  abbrev pub Any : (A → Type 0) → List A → Type 0
  Any P [] = ⊥
  Any P (x ∷ xs) = P x ⊎ Any P xs

  -- Of a Boolean test: somewhere, or nowhere.
  pub Any-or_none :
      (p : A → Bool) (xs : List A) → All (λ x. p x ≡ false) xs ⊎ Any (λ x. p x ≡ true) xs
  Any-or_none p [] = inl tt
  Any-or_none p (x ∷ xs) = elim (Bool-cases (p x)) [
    | inl h ↦ inr (inl h)
    | inr h ↦ elim (Any-or_none p xs) [ inl k ↦ inl (h, k) | inr k ↦ inr (inr k) ]
  ]

  pub Any-left : (P : A → Type 0) (xs ys : List A) → Any P xs → Any P (xs ++ ys)
  Any-left P [] ys h = absurd h
  Any-left P (x ∷ xs) ys (inl h) = inl h
  Any-left P (x ∷ xs) ys (inr h) = inr (Any-left P xs ys h)

  pub Any-right : (P : A → Type 0) (xs ys : List A) → Any P ys → Any P (xs ++ ys)
  Any-right P [] ys h = h
  Any-right P (x ∷ xs) ys h = inr (Any-right P xs ys h)

  pub Any-append : (P : A → Type 0) (xs ys : List A) → Any P (xs ++ ys) → Any P xs ⊎ Any P ys
  Any-append P [] ys h = inr h
  Any-append P (x ∷ xs) ys (inl h) = inl (inl h)
  Any-append P (x ∷ xs) ys (inr h) = elim (Any-append P xs ys h) [
    | inl k ↦ inl (inr k)
    | inr k ↦ inr k
  ]

  pub Any-weaken : (P Q : A → Type 0) (xs : List A) → ((x : A) → P x → Q x) → Any P xs → Any Q xs
  Any-weaken P Q [] f h = absurd h
  Any-weaken P Q (x ∷ xs) f (inl h) = inl (f x h)
  Any-weaken P Q (x ∷ xs) f (inr h) = inr (Any-weaken P Q xs f h)

  pub length-append : (xs ys : List A) → length (xs ++ ys) ≡ length xs + length ys
  length-append [] ys = omega arith
  length-append (x ∷ xs) ys = omega (arith, length-append xs ys)

  pub length-take : (n : ℕ) (xs : List A) → length (take n xs) ≡ min n (length xs)
  length-take zero xs = omega arith
  length-take (suc n) [] = omega arith
  length-take (suc n) (x ∷ xs) = omega (arith, length-take n xs)

  pub length-drop : (n : ℕ) (xs : List A) → length (drop n xs) ≡ length xs - n
  length-drop zero xs = omega arith
  length-drop (suc n) [] = omega arith
  length-drop (suc n) (x ∷ xs) = omega (arith, length-drop n xs)

  pub length-replicate : (n : ℕ) (a : A) → length (replicate n a) ≡ n
  length-replicate zero a = refl
  length-replicate (suc n) a = ap suc (length-replicate n a)

  pub All-append {κ} : (P : A → Type κ) (xs ys : List A) → All P xs → All P ys → All P (xs ++ ys)
  All-append P [] ys hx hy = hy
  All-append P (x ∷ xs) ys hx hy = (hx.0, All-append P xs ys hx.1 hy)
