-- ===== src/Web/RadixTree/Places.antt =====
-- Where the handlers of a route stand in the tree, and what Insert changes there.
use libiouring_server.Common.{
  ℕ, ◌≡◌, refl, sym, ap, ◌∙◌, ◌&&◌, if◌then◌else◌, Bool, true, false, List, [], ◌∷◌, map, Option,
  none, some, Bool-cases, inl, inr, arith,
}
use libiouring_server.Common.Maps.{same, same_true, same_refl, find, find-assign, nat_eq, text_eq}
use libiouring_server.Web.RadixTree.{
  Text, Node, node, Children, no_child, child, no_param, param, Wildcard, no_wildcard, wildcard,
  empty, Token, rest, any, fixed, token, set_handler, insert_wildcard, insert_param, insert_child,
  insert_at, insert_segments, find_child, param_child,
}

unfoldable pub wildcard_handlers : Wildcard → List (ℕ × ℕ)
wildcard_handlers no_wildcard = []
wildcard_handlers (wildcard name hs) = hs

unfoldable pub through : Option Node → (Node → List (ℕ × ℕ)) → List (ℕ × ℕ)
through none go = []
through (some n) go = go n

-- The handlers behind a sequence of tokens.
unfoldable pub handlers_at : List Token → Node → List (ℕ × ℕ)
handlers_at [] (node cs p w hs) = hs
handlers_at (rest name ∷ q) (node cs p w hs) = wildcard_handlers w
handlers_at (any name ∷ q) (node cs p w hs) = through (param_child p) (handlers_at q)
handlers_at (fixed seg ∷ q) (node cs p w hs) = through (find_child seg cs) (handlers_at q)

-- Two routes of one place: the names of their parameters do not count, nor what follows a wildcard.
unfoldable pub same_place : List Token → List Token → Bool
same_place [] [] = true
same_place (rest a ∷ q) (rest b ∷ r) = true
same_place (any a ∷ q) (any b ∷ r) = same_place q r
same_place (fixed a ∷ q) (fixed b ∷ r) = same a b && same_place q r
same_place _ _ = false

pub handlers_at-empty : (q : List Token) → handlers_at q empty ≡ []
unfolding handlers_at through wildcard_handlers param_child find_child
handlers_at-empty [] = refl
handlers_at-empty (rest name ∷ q) = refl
handlers_at-empty (any name ∷ q) = refl
handlers_at-empty (fixed seg ∷ q) = refl

unfoldable pub or_empty : Option Node → Node
or_empty none = empty
or_empty (some n) = n

pub find_child-insert :
    (seg t : Text) (go : Node → Node) (cs : Children)
    → find_child t (insert_child seg go cs)
      ≡ (if same seg t then some (go (or_empty (find_child seg cs))) else find_child t cs)
unfolding find_child insert_child or_empty
find_child-insert seg t go no_child = ground arith
find_child-insert seg t go (child prefix n cs) = elim (Bool-cases (same prefix seg)) [
  | inl h ↦ ground (arith, ap (λ (z : Text). same z t) (same_true prefix seg h))
  | inr h ↦ elim (Bool-cases (same prefix t)) [
    | inl k ↦ elim (Bool-cases (same seg t)) [
      | inl l ↦
          let e = same_true prefix t k ∙ sym (same_true seg t l) in
          absurd (let q = ap (λ (z : Text). same z seg) e ∙ same_refl seg in cc)
      | inr l ↦ rw (h, l, find_child, k) refl
    ]
    | inr k ↦ ground (arith, find_child-insert seg t go cs)
  ]
]

handlers_at-or_empty :
    (q : List Token) (o : Option Node) → handlers_at q (or_empty o) ≡ through o (handlers_at q)
unfolding or_empty through
handlers_at-or_empty q none = handlers_at-empty q
handlers_at-or_empty q (some n) = refl

-- One segment of an insertion that goes on by `go` with the tokens `s`.
module _ (m method handler : ℕ) (s : List Token) (go : Node → Node)
    (inner : (q : List Token) (n : Node)
      → find m (handlers_at q (go n)) ≡ (
          if same_place s q && same m method then some handler else find m (handlers_at q n))) where
  below :
      (t : Token) (q : List Token) (n : Node)
      → find m (handlers_at q (insert_at t go method handler n))
        ≡ (if same_place (t ∷ s) q && same m method then some handler else find m (handlers_at q n))
  unfolding handlers_at same_place insert_at find insert_wildcard wildcard_handlers insert_param
      param_child through or_empty
  below (rest x) [] (node cs p w hs) = refl
  below (any x) [] (node cs p w hs) = refl
  below (fixed x) [] (node cs p w hs) = refl
  below (rest x) (rest y ∷ q) (node cs p no_wildcard hs) = find-assign m method handler []
  below (rest x) (rest y ∷ q) (node cs p (wildcard o ws) hs) = find-assign m method handler ws
  below (rest x) (any y ∷ q) (node cs p w hs) = refl
  below (rest x) (fixed y ∷ q) (node cs p w hs) = refl
  below (any x) (rest y ∷ q) (node cs p w hs) = refl
  below (any x) (any y ∷ q) (node cs no_param w hs) = inner q empty ∙ rw (handlers_at-empty q) refl
  below (any x) (any y ∷ q) (node cs (param o n) w hs) = inner q n
  below (any x) (fixed y ∷ q) (node cs p w hs) = refl
  below (fixed x) (rest y ∷ q) (node cs p w hs) = refl
  below (fixed x) (any y ∷ q) (node cs p w hs) = refl
  below (fixed x) (fixed y ∷ q) (node cs p w hs) =
      rw (find_child-insert x y go cs) (elim (Bool-cases (same x y)) [
        | inl h ↦ rw h (
            inner q (or_empty (find_child x cs))
            ∙ rw (handlers_at-or_empty q (find_child x cs), same_true x y h) refl)
        | inr h ↦ rw h refl
      ])

-- A handler is found after an insertion where it was put, and else where it was before.
pub handlers_at-insert :
    (q : List Token) (segs : List Text) (m method handler : ℕ) (n : Node)
    → find m (handlers_at q (insert_segments segs method handler n)) ≡ (
        if same_place (map token segs) q && same m method
        then some handler
        else find m (handlers_at q n))
unfolding handlers_at insert_segments set_handler same_place
handlers_at-insert [] [] m method handler (node cs p w hs) = find-assign m method handler hs
handlers_at-insert (rest x ∷ q) [] m method handler (node cs p w hs) = refl
handlers_at-insert (any x ∷ q) [] m method handler (node cs p w hs) = refl
handlers_at-insert (fixed x ∷ q) [] m method handler (node cs p w hs) = refl
handlers_at-insert q (seg ∷ segs) m method handler n =
    below m method handler (map token segs) (insert_segments segs method handler)
      (λ r k. handlers_at-insert r segs m method handler k) (token seg) q n
