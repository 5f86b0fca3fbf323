-- ===== src/Presence/Tracker/Members.antt =====
-- A map of sets, by the pairs that it holds.
use libiouring_server.Common.{
  Bool, true, false, List, [], ◌∷◌, Option, none, some, ◌≡◌, refl, sym, ap, ◌∙◌, ◌&&◌, inl, inr,
  if◌then◌else◌, Bool-cases, Option-cases,
}
use libiouring_server.Common.Maps.{
  Eq, same, same_true, contains, insert, remove, find, erase, assign, contains-insert,
  contains-remove, find-erase, find-assign,
}
use libiouring_server.Presence.Tracker.{add, put_back, drop_from}

-- A set that is not there is empty.
unfoldable pub or_empty {ℓ} : {A : Type ℓ} → Option (List A) → List A
or_empty none = []
or_empty (some s) = s

or_empty-if {ℓ} :
    {A : Type ℓ} (b : Bool) (o p : Option (List A))
    → or_empty (if b then o else p) ≡ (if b then or_empty o else or_empty p)
or_empty-if true o p = refl
or_empty-if false o p = refl

pub contains-if {ℓ} :
    {A : Type ℓ} ⦃d : Eq A⦄ (b : Bool) (x : A) (s t : List A)
    → contains x (if b then s else t) ≡ (if b then contains x s else contains x t)
contains-if true x s t = refl
contains-if false x s t = refl

module _ {ℓ ℓ'} {K : Type ℓ} {A : Type ℓ'} ⦃e : Eq K⦄ where
  unfoldable pub set_at : K → List (K × List A) → List A
  set_at k m = or_empty (find k m)

  pub set_at_found :
      (k : K) (m : List (K × List A)) {o : Option (List A)} → find k m ≡ o → set_at k m ≡ or_empty o
  unfolding set_at
  set_at_found k m h = ap or_empty h

  set_at-assign :
      (k j : K) (s : List A) (m : List (K × List A))
      → set_at k (assign j s m) ≡ (if same k j then s else set_at k m)
  unfolding set_at or_empty
  set_at-assign k j s m =
      ap or_empty (find-assign k j s m) ∙ or_empty-if (same k j) (some s) (find k m)

  pub set_at-erase :
      (k j : K) (m : List (K × List A))
      → set_at k (erase j m) ≡ (if same k j then [] else set_at k m)
  unfolding set_at or_empty
  set_at-erase k j m = ap or_empty (find-erase k j m) ∙ or_empty-if (same k j) none (find k m)

  set_at-put_back :
      (k j : K) (s : List A) (m : List (K × List A))
      → set_at k (put_back j s m) ≡ (if same k j then s else set_at k m)
  unfolding put_back
  set_at-put_back k j [] m = set_at-erase k j m
  set_at-put_back k j (x ∷ s) m = set_at-assign k j (x ∷ s) m

module _ {ℓ ℓ'} {K : Type ℓ} {A : Type ℓ'} ⦃e : Eq K⦄ ⦃d : Eq A⦄ where
  -- What a change of the set at j makes of it, by the set that is found.
  place :
      (k j : K) (f : List A → List A) (m : List (K × List A)) {o : Option (List A)}
      → find j m ≡ o
      → (if same k j then f (or_empty o) else set_at k m)
        ≡ (if same k j then f (set_at j m) else set_at k m)
  place k j f m h =
      ap (λ (s : List A). if same k j then f s else set_at k m) (sym (set_at_found j m h))

  set_at-add :
      (k j : K) (y : A) (m : List (K × List A))
      → set_at k (add j y m) ≡ (if same k j then insert y (set_at j m) else set_at k m)
  unfolding add or_empty
  set_at-add k j y m = elim (Option-cases (find j m)) [
    | inl h ↦ rw (h, add) (set_at-assign k j (insert y []) m) ∙ place k j (insert y) m h
    | inr (s, h) ↦ rw (h, add) (set_at-assign k j (insert y s) m) ∙ place k j (insert y) m h
  ]

  set_at-drop_from :
      (k j : K) (y : A) (m : List (K × List A))
      → set_at k (drop_from j y m) ≡ (if same k j then remove y (set_at j m) else set_at k m)
  unfolding drop_from remove or_empty
  set_at-drop_from k j y m = elim (Option-cases (find j m)) [
    | inl h ↦ rw (h, drop_from) (unchanged h)
    | inr (s, h) ↦ rw (h, drop_from) (set_at-put_back k j (remove y s) m) ∙ place k j (remove y) m h
  ]
    where
      unchanged :
          find j m ≡ none → set_at k m ≡ (if same k j then remove y (set_at j m) else set_at k m)
      unchanged h = elim (Bool-cases (same k j)) [
        | inl t ↦ rw (t, same_true k j t, set_at_found j m h) refl
        | inr t ↦ rw t refl
      ]

  unfoldable pub member : K → A → List (K × List A) → Bool
  member k x m = contains x (set_at k m)

  pub member-add :
      (k j : K) (x y : A) (m : List (K × List A))
      → member k x (add j y m) ≡ (if same k j && same x y then true else member k x m)
  unfolding member
  member-add k j x y m =
      ap (contains x) (set_at-add k j y m)
      ∙ contains-if (same k j) x (insert y (set_at j m)) (set_at k m)
      ∙ elim (Bool-cases (same k j)) [
        | inl h ↦ rw (h, same_true k j h) (contains-insert x y (set_at j m))
        | inr h ↦ rw h refl
      ]

  pub member-drop_from :
      (k j : K) (x y : A) (m : List (K × List A))
      → member k x (drop_from j y m) ≡ (if same k j && same x y then false else member k x m)
  unfolding member
  member-drop_from k j x y m =
      ap (contains x) (set_at-drop_from k j y m)
      ∙ contains-if (same k j) x (remove y (set_at j m)) (set_at k m)
      ∙ elim (Bool-cases (same k j)) [
        | inl h ↦ rw (h, same_true k j h) (contains-remove x y (set_at j m))
        | inr h ↦ rw h refl
      ]
