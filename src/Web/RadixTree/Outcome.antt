-- ===== src/Web/RadixTree/Outcome.antt =====
-- What a search through candidates returns, and what a tree holds that Insert has built.
use libiouring_server.Common.{
  ℕ, ◌≡◌, refl, ap, ◌∙◌, ◌&&◌, ◌||◌, if◌then◌else◌, Bool, true, false, List, [], ◌∷◌, map, Any,
  Option, none, some, Bool-cases, Option-cases, inl, inr, arith,
}
use libiouring_server.Common.Maps.{same, same_true, same_refl, find, nat_eq, text_eq}
use libiouring_server.Web.RadixTree.{
  Text, Node, View, split_from, split_path, split_views, Token, rest, any, fixed, token,
  insert_segments, insert, MatchResult, is_some, has_any, answer,
}
use libiouring_server.Web.RadixTree.Places.{handlers_at, same_place, handlers_at-insert}
use libiouring_server.Web.RadixTree.Search.{
  Params, Candidate, consider, consider_all, consider_all-done,
}
use libiouring_server.Web.RadixTree.Reach.{fits}

unfoldable pub first : ℕ → List Candidate → Option ℕ
first m [] = none
first m ((hs, ps) ∷ cs) = elim (find m hs) [ none ↦ first m cs | some h ↦ some h ]

unfoldable pub some_any : List Candidate → Bool
some_any [] = false
some_any ((hs, ps) ∷ cs) = has_any hs || some_any cs

pub find-has_any : (m h : ℕ) (hs : List (ℕ × ℕ)) → find m hs ≡ some h → has_any hs ≡ true
unfolding find has_any
find-has_any m h [] e = absurd cc
find-has_any m h (x ∷ hs) e = refl

consider-none :
    (m : ℕ) (hs : List (ℕ × ℕ)) (ps : Params) (r : MatchResult)
    → r.handler ≡ none
    → find m hs ≡ none
    → consider m (hs, ps) r ≡ (if has_any hs then record r { path_exists = true } else r)
unfolding consider answer is_some
consider-none m hs ps r h k = rw (h, k) refl

consider-some :
    (m g : ℕ) (hs : List (ℕ × ℕ)) (ps : Params) (r : MatchResult)
    → r.handler ≡ none
    → find m hs ≡ some g
    → consider m (hs, ps) r ≡ record { handler = some g; params = ps; path_exists = true }
unfolding consider answer is_some
consider-some m g hs ps r h k = rw (h, k) refl

-- The first handler counts, and any handler makes the path known.
pub consider_all-outcome :
    (m : ℕ) (cs : List Candidate) (r : MatchResult)
    → r.handler ≡ none
    → ((consider_all m cs r).handler ≡ first m cs)
      × ((consider_all m cs r).path_exists ≡ (r.path_exists || some_any cs))
unfolding consider_all first some_any is_some
consider_all-outcome m [] r h = (h, ground arith)
consider_all-outcome m ((hs, ps) ∷ cs) r h = elim (Option-cases (find m hs)) [
  | inl k ↦
      let e : consider m (hs, ps) r ≡ (if has_any hs then record r { path_exists = true } else r) =
        consider-none m hs ps r h k in
      let a = consider_all-outcome m cs (consider m (hs, ps) r) (rw e (ground arith)) in
      rw (first, k) (a.0, a.1 ∙ rw e (ground arith))
  | inr (g, k) ↦
      let e = consider-some m g hs ps r h k in
      let d = consider_all-done m cs (consider m (hs, ps) r) (rw e refl) ∙ e in
      rw (d, first, k) (refl, ground (arith, find-has_any m g hs k))
]

pub first-Any :
    (m h : ℕ) (cs : List Candidate)
    → first m cs ≡ some h
    → Any (λ (c : Candidate). find m c.0 ≡ some h) cs
unfolding first
first-Any m h [] e = absurd cc
first-Any m h ((hs, ps) ∷ cs) e = elim (Option-cases (find m hs)) [
  | inl k ↦ inr (first-Any m h cs (ground arith))
  | inr (g, k) ↦ inl (ground arith)
]

pub Any-first :
    (m : ℕ) (cs : List Candidate)
    → Any (λ (c : Candidate). is_some (find m c.0) ≡ true) cs
    → is_some (first m cs) ≡ true
unfolding first is_some
Any-first m [] a = absurd a
Any-first m ((hs, ps) ∷ cs) (inl a) = ground arith
Any-first m ((hs, ps) ∷ cs) (inr a) = ground (arith, Any-first m cs a)

pub some_any-Any :
    (cs : List Candidate) → some_any cs ≡ true → Any (λ (c : Candidate). has_any c.0 ≡ true) cs
unfolding some_any
some_any-Any [] e = absurd cc
some_any-Any ((hs, ps) ∷ cs) e = elim (Bool-cases (has_any hs)) [
  | inl h ↦ inl h
  | inr h ↦ inr (some_any-Any cs (ground arith))
]

pub Any-some_any :
    (cs : List Candidate) → Any (λ (c : Candidate). has_any c.0 ≡ true) cs → some_any cs ≡ true
unfolding some_any
Any-some_any [] a = absurd a
Any-some_any ((hs, ps) ∷ cs) (inl a) = ground arith
Any-some_any ((hs, ps) ∷ cs) (inr a) = ground (arith, Any-some_any cs a)

-- A route, as it was given to Insert.
pub record Route : Type 0 where
  pub method : ℕ
  pub path : Text
  pub handler : ℕ

unfoldable pub insert_all : List Route → Node → Node
insert_all [] n = n
insert_all (r ∷ rs) n = insert_all rs (insert r.method r.path r.handler n)

abbrev pub tokens : Route → List Token
tokens r = map token (split_path r.path)

pub same_place_refl : (q : List Token) → same_place q q ≡ true
unfolding same_place
same_place_refl [] = refl
same_place_refl (rest x ∷ q) = refl
same_place_refl (any x ∷ q) = same_place_refl q
same_place_refl (fixed x ∷ q) = rw (same_refl x) (same_place_refl q)

-- Routes of one place answer the same paths.
pub same_place-fits :
    (a q : List Token) (vs : List View)
    → same_place a q ≡ true
    → fits q vs ≡ true
    → fits a vs ≡ true
unfolding same_place fits
same_place-fits [] [] vs h f = f
same_place-fits (rest x ∷ a) (rest y ∷ q) [] h f = f
same_place-fits (rest x ∷ a) (rest y ∷ q) (v ∷ vs) h f = f
same_place-fits (any x ∷ a) (any y ∷ q) [] h f = f
same_place-fits (any x ∷ a) (any y ∷ q) (v ∷ vs) h f = same_place-fits a q vs h f
same_place-fits (fixed x ∷ a) (fixed y ∷ q) [] h f = f
same_place-fits (fixed x ∷ a) (fixed y ∷ q) (v ∷ vs) h f = elim (Bool-cases (same x y)) [
  | inl e ↦ ground (
    arith,
    same_place-fits a q vs (ground arith) (ground arith),
    ap (λ (z : Text). same z v.text) (same_true x y e),
  )
  | inr e ↦ absurd (ground arith)
]
same_place-fits [] (t ∷ q) vs h f = absurd cc
same_place-fits (rest x ∷ a) [] vs h f = absurd cc
same_place-fits (rest x ∷ a) (any y ∷ q) vs h f = absurd cc
same_place-fits (rest x ∷ a) (fixed y ∷ q) vs h f = absurd cc
same_place-fits (any x ∷ a) [] vs h f = absurd cc
same_place-fits (any x ∷ a) (rest y ∷ q) vs h f = absurd cc
same_place-fits (any x ∷ a) (fixed y ∷ q) vs h f = absurd cc
same_place-fits (fixed x ∷ a) [] vs h f = absurd cc
same_place-fits (fixed x ∷ a) (rest y ∷ q) vs h f = absurd cc
same_place-fits (fixed x ∷ a) (any y ∷ q) vs h f = absurd cc

pub insert_lem :
    (q : List Token) (m method handler : ℕ) (path : Text) (n : Node)
    → find m (handlers_at q (insert method path handler n)) ≡ (
        if same_place (map token (split_path path)) q && same m method
        then some handler
        else find m (handlers_at q n))
unfolding insert insert_segments split_path split_views split_from
insert_lem q m method handler path n = elim (Bool-cases (same path (47 ∷ []))) [
  | inl e ↦ rw (e, same_true path (47 ∷ []) e) (handlers_at-insert q [] m method handler n)
  | inr e ↦ rw e (handlers_at-insert q (split_path path) m method handler n)
]
