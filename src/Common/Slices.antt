-- ===== src/Common/Slices.antt =====
-- Slices of a list, and a block copied into one.
use libiouring_server.Common.Lists.{length, take, drop, length-append, length-take, length-drop}
use Prim.Native.Nat.{ℕ, zero, suc, ◌+◌, ◌-◌, ◌≤◌}
use mathlib.Core.Path.{◌≡◌, refl, sym, ap, ◌∙◌}
use mathlib.Core.List.{List, [], ◌∷◌, ◌++◌, append_assoc}
use native.Mathlib.Omega.{arith}

sub-zero : (n : ℕ) → n ≡ n - 0
sub-zero n = omega arith

zero-sub : (n : ℕ) → 0 ≡ 0 - n
zero-sub n = omega arith

suc-sub-suc : (n p : ℕ) → n - p ≡ suc n - suc p
suc-sub-suc n p = omega arith

zero_add_eq : (n : ℕ) → n ≡ 0 + n
zero_add_eq n = omega arith

suc_add_eq : (p q : ℕ) → suc (p + q) ≡ suc p + q
suc_add_eq p q = omega arith

module _ {ℓ} {A : Type ℓ} where
  -- The n elements from position p on.
  abbrev pub slice : ℕ → ℕ → List A → List A
  slice p n xs = take n (drop p xs)

  -- memcpy and memmove: `ys` written over `xs` from position p on.
  abbrev pub blit : List A → ℕ → List A → List A
  blit xs p ys = take p xs ++ (ys ++ drop (p + length ys) xs)

  pub take-append_exact : (n : ℕ) (xs ys : List A) → length xs ≡ n → take n (xs ++ ys) ≡ xs
  take-append_exact zero [] ys h = refl
  take-append_exact zero (x ∷ xs) ys h = absurd (omega arith)
  take-append_exact (suc n) [] ys h = absurd (omega arith)
  take-append_exact (suc n) (x ∷ xs) ys h = ap (◌∷◌ x) (take-append_exact n xs ys (omega arith))

  pub drop-append_exact : (n : ℕ) (xs ys : List A) → length xs ≡ n → drop n (xs ++ ys) ≡ ys
  drop-append_exact zero [] ys h = refl
  drop-append_exact zero (x ∷ xs) ys h = absurd (omega arith)
  drop-append_exact (suc n) [] ys h = absurd (omega arith)
  drop-append_exact (suc n) (x ∷ xs) ys h = drop-append_exact n xs ys (omega arith)

  pub drop-append_le :
      (n : ℕ) (xs ys : List A) → n ≤ length xs → drop n (xs ++ ys) ≡ drop n xs ++ ys
  drop-append_le zero xs ys h = refl
  drop-append_le (suc n) [] ys h = absurd (omega arith)
  drop-append_le (suc n) (x ∷ xs) ys h = drop-append_le n xs ys (omega arith)

  pub take-append_le : (n : ℕ) (xs ys : List A) → n ≤ length xs → take n (xs ++ ys) ≡ take n xs
  take-append_le zero xs ys h = refl
  take-append_le (suc n) [] ys h = absurd (omega arith)
  take-append_le (suc n) (x ∷ xs) ys h = ap (◌∷◌ x) (take-append_le n xs ys (omega arith))

  pub take-nil : (n : ℕ) → ◌≡◌ {A = List A} (take n []) []
  take-nil zero = refl
  take-nil (suc n) = refl

  pub drop-nil : (n : ℕ) → ◌≡◌ {A = List A} (drop n []) []
  drop-nil zero = refl
  drop-nil (suc n) = refl

  pub drop-take : (p n : ℕ) (xs : List A) → drop p (take n xs) ≡ take (n - p) (drop p xs)
  drop-take zero n xs = ap (λ (k : ℕ). take k xs) (sub-zero n)
  drop-take (suc p) zero xs = ap (λ (k : ℕ). take k (drop (suc p) xs)) (zero-sub (suc p))
  drop-take (suc p) (suc n) [] = sym (take-nil (suc n - suc p))
  drop-take (suc p) (suc n) (x ∷ xs) =
      drop-take p n xs ∙ ap (λ (k : ℕ). take k (drop p xs)) (suc-sub-suc n p)

  pub drop-drop : (p q : ℕ) (xs : List A) → drop q (drop p xs) ≡ drop (p + q) xs
  drop-drop zero q xs = ap (λ (k : ℕ). drop k xs) (zero_add_eq q)
  drop-drop (suc p) q [] = drop-nil q ∙ sym (drop-nil (suc p + q))
  drop-drop (suc p) q (x ∷ xs) = drop-drop p q xs ∙ ap (λ (k : ℕ). drop k (x ∷ xs)) (suc_add_eq p q)

  pub take_all : (n : ℕ) (xs : List A) → length xs ≤ n → take n xs ≡ xs
  take_all zero [] h = refl
  take_all zero (x ∷ xs) h = absurd (omega arith)
  take_all (suc n) [] h = refl
  take_all (suc n) (x ∷ xs) h = ap (◌∷◌ x) (take_all n xs (omega arith))

  pub drop_all : (n : ℕ) (xs : List A) → length xs ≤ n → drop n xs ≡ []
  drop_all zero [] h = refl
  drop_all zero (x ∷ xs) h = absurd (omega arith)
  drop_all (suc n) [] h = refl
  drop_all (suc n) (x ∷ xs) h = drop_all n xs (omega arith)

  pub length-slice : (p n : ℕ) (xs : List A) → p + n ≤ length xs → length (slice p n xs) ≡ n
  length-slice p n xs h = omega (arith, length-take n (drop p xs), length-drop p xs)

  pub length-blit :
      (xs : List A) (p : ℕ) (ys : List A)
      → p + length ys ≤ length xs
      → length (blit xs p ys) ≡ length xs
  length-blit xs p ys h = omega (
    arith,
    length-append (take p xs) (ys ++ drop (p + length ys) xs),
    length-append ys (drop (p + length ys) xs),
    length-take p xs,
    length-drop (p + length ys) xs,
  )

  -- A block that is copied right behind a slice extends it.
  pub slice-blit_end :
      (xs : List A) (r w : ℕ) (ys : List A)
      → r ≤ w
      → w ≤ length xs
      → slice r ((w - r) + length ys) (blit xs w ys) ≡ slice r (w - r) xs ++ ys
  slice-blit_end xs r w ys h k =
      ap (take ((w - r) + length ys)) (
        drop-append_le r (take w xs) (ys ++ drop (w + length ys) xs)
          (omega (arith, length-take w xs))
        ∙ ap (λ zs. zs ++ (ys ++ drop (w + length ys) xs)) (drop-take r w xs)
        ∙ sym (append_assoc (slice r (w - r) xs) ys (drop (w + length ys) xs)))
      ∙ take-append_exact ((w - r) + length ys) (slice r (w - r) xs ++ ys) (drop (w + length ys) xs)
          (omega
            (arith, length-append (slice r (w - r) xs) ys, length-slice r (w - r) xs (omega arith)))

  -- A block that is copied to the front is read back from there.
  pub slice-blit_front : (xs ys : List A) → slice 0 (length ys) (blit xs 0 ys) ≡ ys
  slice-blit_front xs ys = take-append_exact (length ys) ys (drop (0 + length ys) xs) refl

  pub take-append_add : (n : ℕ) (xs ys : List A) → take (length xs + n) (xs ++ ys) ≡ xs ++ take n ys
  take-append_add n [] ys = ap (λ (k : ℕ). take k ys) (sym (zero_add_eq n))
  take-append_add n (x ∷ xs) ys =
      ap (λ (k : ℕ). take k (x ∷ xs ++ ys)) (sym (suc_add_eq (length xs) n))
      ∙ ap (◌∷◌ x) (take-append_add n xs ys)

  pub drop-append_add : (n : ℕ) (xs ys : List A) → drop (length xs + n) (xs ++ ys) ≡ drop n ys
  drop-append_add n [] ys = ap (λ (k : ℕ). drop k ys) (sym (zero_add_eq n))
  drop-append_add n (x ∷ xs) ys =
      ap (λ (k : ℕ). drop k (x ∷ xs ++ ys)) (sym (suc_add_eq (length xs) n))
      ∙ drop-append_add n xs ys

  take-blit :
      (zs : List A) (p : ℕ) (xs : List A)
      → p ≤ length zs
      → take (p + length xs) (blit zs p xs) ≡ take p zs ++ xs
  take-blit zs p xs h =
      ap (take (p + length xs)) (sym (append_assoc (take p zs) xs (drop (p + length xs) zs)))
      ∙ take-append_exact (p + length xs) (take p zs ++ xs) (drop (p + length xs) zs)
          (omega (arith, length-append (take p zs) xs, length-take p zs))

  drop-blit :
      (zs : List A) (p : ℕ) (xs : List A)
      → p ≤ length zs
      → drop (p + length xs) (blit zs p xs) ≡ drop (p + length xs) zs
  drop-blit zs p xs h =
      ap (drop (p + length xs)) (sym (append_assoc (take p zs) xs (drop (p + length xs) zs)))
      ∙ drop-append_exact (p + length xs) (take p zs ++ xs) (drop (p + length xs) zs)
          (omega (arith, length-append (take p zs) xs, length-take p zs))

  add_append : (p : ℕ) (xs ys : List A) → p + length xs + length ys ≡ p + length (xs ++ ys)
  add_append p xs ys = omega (arith, length-append xs ys)

  drop-blit_more :
      (zs : List A) (p : ℕ) (xs ys : List A)
      → p ≤ length zs
      → drop (p + length xs + length ys) (blit zs p xs) ≡ drop (p + length (xs ++ ys)) zs
  drop-blit_more zs p xs ys h =
      sym (drop-drop (p + length xs) (length ys) (blit zs p xs))
      ∙ ap (drop (length ys)) (drop-blit zs p xs h)
      ∙ drop-drop (p + length xs) (length ys) zs
      ∙ ap (λ (k : ℕ). drop k zs) (add_append p xs ys)

  -- Two blocks copied one behind the other are one block.
  pub blit-blit :
      (zs : List A) (p : ℕ) (xs ys : List A)
      → p ≤ length zs
      → blit (blit zs p xs) (p + length xs) ys ≡ blit zs p (xs ++ ys)
  blit-blit zs p xs ys h =
      rw (take-blit zs p xs h, drop-blit_more zs p xs ys h)
        (append_assoc (take p zs) xs (ys ++ drop (p + length (xs ++ ys)) zs)
          ∙ ap (◌++◌ (take p zs)) (sym (append_assoc xs ys (drop (p + length (xs ++ ys)) zs))))
