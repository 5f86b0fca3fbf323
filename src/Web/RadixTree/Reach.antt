-- ===== src/Web/RadixTree/Reach.antt =====
-- The candidates of a search against the places of the tree that fit the path.
use libiouring_server.Common.{
  ℕ, ◌≡◌, refl, subst, ◌⊎◌, ◌&&◌, Bool, true, false, List, [], ◌∷◌, ◌++◌, length, Any, Any-left,
  Any-right, Any-append, Option, none, some, Bool-cases, inl, inr, arith,
}
use libiouring_server.Common.Maps.{same, same_true, same_refl, nat_eq, text_eq}
use libiouring_server.Web.RadixTree.{
  Text, Node, node, Wildcard, no_wildcard, wildcard, View, Captured, captured, last_view, span,
  Token, rest, any, fixed, find_child, param_name, param_child,
}
use libiouring_server.Web.RadixTree.Places.{handlers_at, wildcard_handlers, through}
use libiouring_server.Web.RadixTree.Search.{Params, Candidate, below, at_wildcard, candidates}

-- Which paths a route answers, by its tokens and the path's segments.
unfoldable pub fits : List Token → List View → Bool
fits [] [] = true
fits (rest name ∷ q) (v ∷ vs) = true
fits (any name ∷ q) (v ∷ vs) = fits q vs
fits (fixed seg ∷ q) (v ∷ vs) = same seg v.text && fits q vs
fits _ _ = false

fits-end : (t : Token) (q : List Token) → fits (t ∷ q) [] ≡ false
unfolding fits
fits-end (rest name) q = refl
fits-end (any name) q = refl
fits-end (fixed seg) q = refl

module _ (P : List (ℕ × ℕ) → Type 0) where
  sound_below :
      (o : Option Node) (go : Node → List Candidate) (vs : List View)
      → ((n : Node)
          → Any (λ (c : Candidate). P c.0) (go n)
          → (q : List Token) × (fits q vs ≡ true) × P (handlers_at q n))
      → Any (λ (c : Candidate). P c.0) (below o go)
      → (q : List Token) × (fits q vs ≡ true) × P (through o (handlers_at q))
  unfolding below through
  sound_below none go vs f h = absurd h
  sound_below (some n) go vs f h = f n h

  pub candidates-fits :
      (path : Text) (vs : List View) (params : Params) (n : Node)
      → Any (λ (c : Candidate). P c.0) (candidates path vs params n)
      → (q : List Token) × (fits q vs ≡ true) × P (handlers_at q n)
  unfolding candidates fits handlers_at at_wildcard wildcard_handlers
  candidates-fits path [] params (node cs p w hs) (inl h) = ([], refl, h)
  candidates-fits path [] params (node cs p w hs) (inr h) = absurd h
  candidates-fits path (v ∷ vs) params (node cs p w hs) h =
      let with_param = params ++ (param_name p, captured v.text) ∷ [] in
      let last = last_view v vs in
      let value = span path v.place last.place (length last.text) in
      let statics = below (find_child v.text cs) (candidates path vs params) in
      let under_param = below (param_child p) (candidates path vs with_param) in
      elim (Any-append (λ (c : Candidate). P c.0) (statics ++ under_param)
        (at_wildcard w params value) h) [
          | inl k ↦ elim (Any-append (λ (c : Candidate). P c.0) statics under_param k) [
            | inl l ↦
                let (q, f, x) =
                  sound_below (find_child v.text cs) (candidates path vs params) vs
                    (candidates-fits path vs params) l in
                (fixed v.text ∷ q, rw (same_refl v.text) f, x)
            | inr l ↦
                let (q, f, x) =
                  sound_below (param_child p) (candidates path vs with_param) vs
                    (candidates-fits path vs with_param) l in
                (any [] ∷ q, f, x)
          ]
          | inr k ↦ at_end w k
        ]
    where
      at_end :
          (w : Wildcard)
          → Any
              (λ (c : Candidate). P c.0)
              (at_wildcard w params
                (span path v.place (last_view v vs).place (length (last_view v vs).text)))
          → (q : List Token) × (fits q (v ∷ vs) ≡ true) × P (handlers_at q (node cs p w hs))
      at_end no_wildcard k = absurd k
      at_end (wildcard name ws) (inl k) = (rest name ∷ [], refl, k)
      at_end (wildcard name ws) (inr k) = absurd k

  complete_below :
      (o : Option Node) (go : Node → List Candidate) (q : List Token)
      → (P [] → ⊥)
      → ((n : Node) → P (handlers_at q n) → Any (λ (c : Candidate). P c.0) (go n))
      → P (through o (handlers_at q))
      → Any (λ (c : Candidate). P c.0) (below o go)
  unfolding below through
  complete_below none go q void f h = absurd (void h)
  complete_below (some n) go q void f h = f n h

  complete_wildcard :
      (w : Wildcard) (params : Params) (value : Captured)
      → (P [] → ⊥)
      → P (wildcard_handlers w)
      → Any (λ (c : Candidate). P c.0) (at_wildcard w params value)
  unfolding at_wildcard wildcard_handlers
  complete_wildcard no_wildcard params value void h = absurd (void h)
  complete_wildcard (wildcard name ws) params value void h = inl h

  pub fits-candidates :
      (path : Text) (vs : List View) (params : Params) (n : Node) (q : List Token)
      → (P [] → ⊥)
      → fits q vs ≡ true
      → P (handlers_at q n)
      → Any (λ (c : Candidate). P c.0) (candidates path vs params n)
  unfolding candidates fits handlers_at
  fits-candidates path [] params (node cs p w hs) [] void f h = inl h
  fits-candidates path [] params (node cs p w hs) (t ∷ q) void f h =
      absurd (let e = fits-end t q in cc)
  fits-candidates path (v ∷ vs) params (node cs p w hs) [] void f h = absurd cc
  fits-candidates path (v ∷ vs) params (node cs p w hs) (t ∷ q) void f h =
      let with_param = params ++ (param_name p, captured v.text) ∷ [] in
      let last = last_view v vs in
      let value = span path v.place last.place (length last.text) in
      let statics = below (find_child v.text cs) (candidates path vs params) in
      let under_param = below (param_child p) (candidates path vs with_param) in
      let Good = λ (c : Candidate). P c.0 in
      elim (split t q f h) [
        | inl k ↦
            Any-right Good (statics ++ under_param) (at_wildcard w params value)
              (complete_wildcard w params value void k)
        | inr (inl (g, k)) ↦ Any-left Good (statics ++ under_param) (at_wildcard w params value) (
            Any-right Good statics under_param (
              complete_below (param_child p) (candidates path vs with_param) q void
                (λ n x. fits-candidates path vs with_param n q void g x) k))
        | inr (inr (g, k)) ↦ Any-left Good (statics ++ under_param) (at_wildcard w params value) (
            Any-left Good statics under_param (
              complete_below (find_child v.text cs) (candidates path vs params) q void
                (λ n x. fits-candidates path vs params n q void g x) k))
      ]
    where
      split :
          (t : Token) (q : List Token)
          → fits (t ∷ q) (v ∷ vs) ≡ true
          → P (handlers_at (t ∷ q) (node cs p w hs))
          → P (wildcard_handlers w)
            ⊎ (((fits q vs ≡ true) × P (through (param_child p) (handlers_at q)))
                ⊎ ((fits q vs ≡ true) × P (through (find_child v.text cs) (handlers_at q))))
      split (rest name) q f h = inl h
      split (any name) q f h = inr (inl (f, h))
      split (fixed seg) q f h = elim (Bool-cases (same seg v.text)) [
        | inl e ↦ inr (
            inr (
              ground arith,
              subst (λ (z : Text). P (through (find_child z cs) (handlers_at q)))
                  (same_true seg v.text e) h,
            ))
        | inr e ↦ absurd (ground arith)
      ]
