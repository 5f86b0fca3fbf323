-- ===== src/Common/Maps.antt =====
-- Hash sets and hash maps as lists: what they hold, not the order in which they are iterated.
use libiouring_server.Common.Tests.{if◌then◌else◌, Bool-cases, ◌==◌, ==_iff}
use Prim.Native.Nat.{ℕ}
use mathlib.Core.Path.{◌≡◌, refl, sym, ap, subst, ◌∙◌}
use mathlib.Core.Logic.{◌↔◌, inl, inr}
use mathlib.Core.Bool.{Bool, true, false}
use mathlib.Core.Option.{Option, none, some}
use native.Mathlib.Omega.{arith}
use mathlib.Core.List.{List, [], ◌∷◌}

-- A Boolean test of equality.
pub record Eq {ℓ} (A : Type ℓ) : Type ℓ where
  pub same : A → A → Bool
  pub same_iff : (a b : A) → (same a b ≡ true) ↔ (a ≡ b)

instance abbrev pub nat_eq : Eq ℕ
nat_eq = record { same = ◌==◌; same_iff = ==_iff }

-- std::string ==, on the codes.
unfoldable pub texts_equal : List ℕ → List ℕ → Bool
texts_equal [] [] = true
texts_equal [] (b ∷ bs) = false
texts_equal (a ∷ r) [] = false
texts_equal (a ∷ r) (b ∷ bs) = if a == b then texts_equal r bs else false

pub texts_equal-true : (s t : List ℕ) → texts_equal s t ≡ true → s ≡ t
unfolding texts_equal
texts_equal-true [] [] h = refl
texts_equal-true [] (b ∷ bs) h = absurd cc
texts_equal-true (a ∷ s) [] h = absurd cc
texts_equal-true (a ∷ s) (b ∷ t) h = ground (arith, texts_equal-true s t)

pub texts_equal_refl : (s : List ℕ) → texts_equal s s ≡ true
unfolding texts_equal
texts_equal_refl [] = refl
texts_equal_refl (a ∷ s) = ground (arith, texts_equal_refl s)

instance abbrev pub text_eq : Eq (List ℕ)
text_eq = record {
  same = texts_equal;
  same_iff = λ s t.
      (texts_equal-true s t, λ e. subst (λ u. texts_equal s u ≡ true) e (texts_equal_refl s));
}

unfoldable pub same {ℓ} : {A : Type ℓ} ⦃e : Eq A⦄ → A → A → Bool
same ⦃e⦄ a b = e.same a b

module _ {ℓ} {A : Type ℓ} ⦃e : Eq A⦄ where
  pub same_true : (a b : A) → same a b ≡ true → a ≡ b
  unfolding same
  same_true a b h = (e.same_iff a b).0 h

  pub same_refl : (a : A) → same a a ≡ true
  unfolding same
  same_refl a = (e.same_iff a a).1 refl

  pub same_comm : (a b : A) → same a b ≡ same b a
  same_comm a b = elim (Bool-cases (same a b)) [
    | inl h ↦ h ∙ sym (same_refl a) ∙ ap (λ (z : A). same z a) (same_true a b h)
    | inr h ↦ elim (Bool-cases (same b a)) [
      | inl k ↦ absurd (let t = ap (λ (z : A). same a z) (same_true b a k) ∙ same_refl a in cc)
      | inr k ↦ h ∙ sym k
    ]
  ]

  unfoldable pub contains : A → List A → Bool
  contains x [] = false
  contains x (y ∷ ys) = if same x y then true else contains x ys

  unfoldable pub insert : A → List A → List A
  insert x s = if contains x s then s else x ∷ s

  unfoldable pub remove : A → List A → List A
  remove x [] = []
  remove x (y ∷ ys) = let rest = remove x ys in if same x y then rest else y ∷ rest

  pub contains-insert :
      (x y : A) (s : List A) → contains x (insert y s) ≡ (if same x y then true else contains x s)
  unfolding insert contains
  contains-insert x y s = elim (Bool-cases (same x y)) [
    | inl h ↦ elim (Bool-cases (contains y s)) [
      | inl k ↦ rw (h, k) (ap (λ (z : A). contains z s) (same_true x y h) ∙ k)
      | inr k ↦ rw (k, contains, h) refl
    ]
    | inr h ↦ ground arith
  ]

  pub contains-remove :
      (x y : A) (s : List A) → contains x (remove y s) ≡ (if same x y then false else contains x s)
  unfolding contains remove
  contains-remove x y [] = ground arith
  contains-remove x y (z ∷ zs) = elim (Bool-cases (same y z)) [
    | inl h ↦ ground (arith, contains-remove x y zs, ap (λ (w : A). same x w) (same_true y z h))
    | inr h ↦ elim (Bool-cases (same x y)) [
      | inl k ↦ ground (arith, contains-remove x y zs, ap (λ (w : A). same w z) (same_true x y k))
      | inr k ↦ ground (arith, contains-remove x y zs)
    ]
  ]

-- A map: the entry in front counts.
module _ {ℓ ℓ'} {K : Type ℓ} {V : Type ℓ'} ⦃e : Eq K⦄ where
  unfoldable pub find : K → List (K × V) → Option V
  find k [] = none
  find k ((j, v) ∷ m) = if same k j then some v else find k m

  unfoldable pub erase : K → List (K × V) → List (K × V)
  erase k [] = []
  erase k ((j, v) ∷ m) = let rest = erase k m in if same k j then rest else (j, v) ∷ rest

  unfoldable pub assign : K → V → List (K × V) → List (K × V)
  assign k v m = (k, v) ∷ erase k m

  pub find-erase :
      (k j : K) (m : List (K × V)) → find k (erase j m) ≡ (if same k j then none else find k m)
  unfolding find erase
  find-erase k j [] = ground arith
  find-erase k j ((i, v) ∷ m) = elim (Bool-cases (same j i)) [
    | inl h ↦ ground (arith, find-erase k j m, ap (λ (w : K). same k w) (same_true j i h))
    | inr h ↦ elim (Bool-cases (same k j)) [
      | inl t ↦ ground (arith, find-erase k j m, ap (λ (w : K). same w i) (same_true k j t))
      | inr t ↦ ground (arith, find-erase k j m)
    ]
  ]

  pub find-assign :
      (k j : K) (v : V) (m : List (K × V))
      → find k (assign j v m) ≡ (if same k j then some v else find k m)
  unfolding assign find
  find-assign k j v m = elim (Bool-cases (same k j)) [
    | inl h ↦ rw h refl
    | inr h ↦ ground (arith, find-erase k j m)
  ]
