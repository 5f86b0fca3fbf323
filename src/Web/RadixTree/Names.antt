-- ===== src/Web/RadixTree/Names.antt =====
-- Under which names the tree hands out what a path holds, and what Insert changes in it.
use libiouring_server.Common.{
  ℕ, ◌≡◌, refl, sym, ◌∙◌, ◌&&◌, if◌then◌else◌, List, [], ◌∷◌, map, Option, none, some, Bool-cases,
  inl, inr,
}
use libiouring_server.Common.Maps.{same, same_true, find, nat_eq, text_eq}
use libiouring_server.Web.RadixTree.{
  Text, Node, node, no_param, param, Wildcard, no_wildcard, wildcard, Param, empty, Token, rest,
  any, fixed, token, set_handler, insert_wildcard, insert_param, insert_at, insert_segments,
  find_child, param_child,
}
use libiouring_server.Web.RadixTree.Places.{
  handlers_at, same_place, or_empty, find_child-insert, handlers_at-insert,
}

-- Of a parameter child or of a wildcard.
pub data Kind : Type 0 where
  of_param of_wildcard : Kind

unfoldable pub name_of : Kind → Param → Wildcard → Option Text
name_of of_param no_param w = none
name_of of_param (param x n) w = some x
name_of of_wildcard p no_wildcard = none
name_of of_wildcard p (wildcard x hs) = some x

unfoldable pub name_through : Option Node → (Node → Option Text) → Option Text
name_through none go = none
name_through (some n) go = go n

-- The name at the node behind a sequence of tokens.
unfoldable pub name_at : Kind → List Token → Node → Option Text
name_at k [] (node cs p w hs) = name_of k p w
name_at k (rest x ∷ q) (node cs p w hs) = none
name_at k (any x ∷ q) (node cs p w hs) = name_through (param_child p) (name_at k q)
name_at k (fixed seg ∷ q) (node cs p w hs) = name_through (find_child seg cs) (name_at k q)

unfoldable pub name_in : Kind → Token → Option Text
name_in of_param (any x) = some x
name_in of_wildcard (rest x) = some x
name_in of_param (rest x) = none
name_in of_wildcard (any x) = none
name_in k (fixed x) = none

-- The name that a route, the first sequence, gives behind a second one.
unfoldable pub given : Kind → List Token → List Token → Option Text
given k [] q = none
given k (t ∷ s) [] = name_in k t
given k (any x ∷ s) (any y ∷ q) = given k s q
given k (fixed x ∷ s) (fixed y ∷ q) = if same x y then given k s q else none
given k (rest x ∷ s) (u ∷ q) = none
given k (any x ∷ s) (rest y ∷ q) = none
given k (any x ∷ s) (fixed y ∷ q) = none
given k (fixed x ∷ s) (rest y ∷ q) = none
given k (fixed x ∷ s) (any y ∷ q) = none

-- A name that is there stays.
unfoldable pub kept : Option Text → Option Text → Option Text
kept none new = new
kept (some old) new = some old

kept-none : (o : Option Text) → kept o none ≡ o
unfolding kept
kept-none none = refl
kept-none (some x) = refl

name_at-empty : (k : Kind) (q : List Token) → name_at k q empty ≡ none
unfolding name_at name_through name_of param_child find_child
name_at-empty of_param [] = refl
name_at-empty of_wildcard [] = refl
name_at-empty k (rest x ∷ q) = refl
name_at-empty k (any x ∷ q) = refl
name_at-empty k (fixed seg ∷ q) = refl

name_at-or_empty :
    (k : Kind) (q : List Token) (o : Option Node)
    → name_at k q (or_empty o) ≡ name_through o (name_at k q)
unfolding or_empty name_through
name_at-or_empty k q none = name_at-empty k q
name_at-or_empty k q (some n) = refl

name_of-insert_wildcard :
    (k : Kind) (x : Text) (method handler : ℕ) (p : Param) (w : Wildcard)
    → name_of k p (insert_wildcard x method handler w) ≡ kept (name_of k p w) (name_in k (rest x))
unfolding name_of insert_wildcard kept name_in
name_of-insert_wildcard of_param x method handler no_param w = refl
name_of-insert_wildcard of_param x method handler (param y n) w = refl
name_of-insert_wildcard of_wildcard x method handler p no_wildcard = refl
name_of-insert_wildcard of_wildcard x method handler p (wildcard y hs) = refl

name_of-insert_param :
    (k : Kind) (x : Text) (go : Node → Node) (p : Param) (w : Wildcard)
    → name_of k (insert_param x go p) w ≡ kept (name_of k p w) (name_in k (any x))
unfolding name_of insert_param kept name_in
name_of-insert_param of_param x go no_param w = refl
name_of-insert_param of_param x go (param y n) w = refl
name_of-insert_param of_wildcard x go p no_wildcard = refl
name_of-insert_param of_wildcard x go p (wildcard y hs) = refl

-- One segment of an insertion that goes on by `go` with the tokens `s`.
module _ (k : Kind) (method handler : ℕ) (s : List Token) (go : Node → Node)
    (inner : (q : List Token) (n : Node)
      → name_at k q (go n) ≡ kept (name_at k q n) (given k s q)) where
  below :
      (t : Token) (q : List Token) (n : Node)
      → name_at k q (insert_at t go method handler n) ≡ kept (name_at k q n) (given k (t ∷ s) q)
  unfolding name_at given insert_at insert_wildcard insert_param param_child name_through or_empty
      kept name_in
  below (rest x) [] (node cs p w hs) = name_of-insert_wildcard k x method handler p w
  below (any x) [] (node cs p w hs) = name_of-insert_param k x go p w
  below (fixed x) [] (node cs p w hs) = sym (kept-none _)
  below (rest x) (rest y ∷ q) (node cs p w hs) = refl
  below (rest x) (any y ∷ q) (node cs p w hs) = sym (kept-none _)
  below (rest x) (fixed y ∷ q) (node cs p w hs) = sym (kept-none _)
  below (any x) (rest y ∷ q) (node cs p w hs) = refl
  below (any x) (any y ∷ q) (node cs no_param w hs) = inner q empty ∙ rw (name_at-empty k q) refl
  below (any x) (any y ∷ q) (node cs (param o n) w hs) = inner q n
  below (any x) (fixed y ∷ q) (node cs p w hs) = sym (kept-none _)
  below (fixed x) (rest y ∷ q) (node cs p w hs) = refl
  below (fixed x) (any y ∷ q) (node cs p w hs) = sym (kept-none _)
  below (fixed x) (fixed y ∷ q) (node cs p w hs) =
      rw (find_child-insert x y go cs) (elim (Bool-cases (same x y)) [
        | inl h ↦ rw h (
            inner q (or_empty (find_child x cs))
            ∙ rw (name_at-or_empty k q (find_child x cs), same_true x y h) refl)
        | inr h ↦ rw h (sym (kept-none _))
      ])

name_at-insert :
    (k : Kind) (q : List Token) (segs : List Text) (method handler : ℕ) (n : Node)
    → name_at k q (insert_segments segs method handler n)
      ≡ kept (name_at k q n) (given k (map token segs) q)
unfolding insert_segments set_handler name_at given
name_at-insert k [] [] method handler (node cs p w hs) = sym (kept-none _)
name_at-insert k (rest x ∷ q) [] method handler (node cs p w hs) = sym (kept-none _)
name_at-insert k (any x ∷ q) [] method handler (node cs p w hs) = sym (kept-none _)
name_at-insert k (fixed x ∷ q) [] method handler (node cs p w hs) = sym (kept-none _)
name_at-insert k q (seg ∷ segs) method handler n =
    below k method handler (map token segs) (insert_segments segs method handler)
      (λ r m. name_at-insert k r segs method handler m) (token seg) q n

-- Behind InsertSegments: at every place that is the route's, the names of parameters and what
-- follows a wildcard apart, its method has the handler that was put there; every other place, and
-- every other method, has the handlers that it had. The names of a parameter and of a wildcard at a
-- place are those that it had, or where it had none, those that the route gives it there.
pub insert_segments-places :
    (q : List Token) (segs : List Text) (m method handler : ℕ) (k : Kind) (n : Node)
    → (find m (handlers_at q (insert_segments segs method handler n)) ≡ (
        if same_place (map token segs) q && same m method
        then some handler
        else find m (handlers_at q n)))
      × (name_at k q (insert_segments segs method handler n)
          ≡ kept (name_at k q n) (given k (map token segs) q))
insert_segments-places q segs m method handler k n =
    (handlers_at-insert q segs m method handler n, name_at-insert k q segs method handler n)
