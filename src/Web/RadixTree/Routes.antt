-- ===== src/Web/RadixTree/Routes.antt =====
-- Insert and Match together, over a list of routes.
use libiouring_server.Common.{
  ℕ, ◌≡◌, refl, ◌⊎◌, ◌&&◌, Bool, true, List, [], ◌∷◌, Any, some, Bool-cases, Option-cases, inl, inr,
  arith,
}
use libiouring_server.Common.Maps.{same, same_true, same_refl, find, nat_eq, text_eq}
use libiouring_server.Web.RadixTree.{
  has_any, Text, Node, Children, Param, Wildcard, node, View, split_path_view, split_views,
  split_from, Token, insert, no_match, is_some, answer, match_path,
}
use libiouring_server.Web.RadixTree.Places.{handlers_at, same_place}
use libiouring_server.Web.RadixTree.Search.{
  candidates, consider, consider_all, match_node-candidates,
}
use libiouring_server.Web.RadixTree.Reach.{fits}
use libiouring_server.Web.RadixTree.Outcome.{
  first, some_any, consider_all-outcome, find-has_any, Route, insert_all, tokens, same_place_refl,
  insert_lem,
}

-- A route that answers a request.
unfoldable pub serves : ℕ → List View → Route → Bool
serves m vs r = same m r.method && fits (tokens r) vs

-- What the tree holds has been put there.
pub found :
    (q : List Token) (m h : ℕ) (rs : List Route) (n : Node)
    → find m (handlers_at q (insert_all rs n)) ≡ some h
    → (find m (handlers_at q n) ≡ some h)
      ⊎ Any (λ (r : Route). (same_place (tokens r) q ≡ true) × (m ≡ r.method) × (r.handler ≡ h)) rs
unfolding insert_all
found q m h [] n e = inl e
found q m h (r ∷ rs) n e = elim (found q m h rs (insert r.method r.path r.handler n) e) [
  | inl k ↦
      let put = insert_lem q m r.method r.handler r.path n in
      elim (Bool-cases (same_place (tokens r) q && same m r.method)) [
        | inl b ↦ inr (inl (ground arith, same_true m r.method (ground arith), ground arith))
        | inr b ↦ inl (ground arith)
      ]
  | inr k ↦ inr (inr k)
]

-- What is put into the tree stays, or is replaced.
kept :
    (q : List Token) (m : ℕ) (rs : List Route) (n : Node)
    → is_some (find m (handlers_at q n)) ≡ true
    → is_some (find m (handlers_at q (insert_all rs n))) ≡ true
unfolding insert_all is_some
kept q m [] n e = e
kept q m (r ∷ rs) n e =
    kept q m rs (insert r.method r.path r.handler n)
      (ground (arith, insert_lem q m r.method r.handler r.path n))

pub held :
    (m : ℕ) (vs : List View) (rs : List Route) (n : Node)
    → Any (λ (r : Route). serves m vs r ≡ true) rs
    → (q : List Token) × (fits q vs ≡ true)
      × (is_some (find m (handlers_at q (insert_all rs n))) ≡ true)
unfolding insert_all serves is_some
held m vs [] n a = absurd a
held m vs (r ∷ rs) n (inl a) =
    let put = insert_lem (tokens r) m r.method r.handler r.path n in
    let here = same_place_refl (tokens r) in
    (
      tokens r,
      ground arith,
      kept (tokens r) m rs (insert r.method r.path r.handler n) (ground arith),
    )
held m vs (r ∷ rs) n (inr a) = held m vs rs (insert r.method r.path r.handler n) a

root :
    (m : ℕ) (cs : Children) (p : Param) (w : Wildcard) (hs : List (ℕ × ℕ))
    → answer (find m hs) hs [] no_match
      ≡ consider_all m
          (candidates (47 ∷ []) (split_path_view (47 ∷ [])) [] (node cs p w hs))
          no_match
unfolding split_path_view split_views split_from candidates consider_all consider is_some
root m cs p w hs = refl

-- The path / is no special case: it has no segments.
match_path-candidates :
    (m : ℕ) (path : Text) (n : Node)
    → match_path m path n ≡ consider_all m (candidates path (split_path_view path) [] n) no_match
unfolding match_path is_some
match_path-candidates m path (node cs p w hs) = elim (Bool-cases (same path (47 ∷ []))) [
  | inl e ↦ rw (e, same_true path (47 ∷ []) e) (root m cs p w hs)
  | inr e ↦
      rw e (match_node-candidates path m (split_path_view path) [] (node cs p w hs) no_match refl)
]

pub outcome :
    (m : ℕ) (path : Text) (n : Node)
    → ((match_path m path n).handler ≡ first m (candidates path (split_path_view path) [] n))
      × ((match_path m path n).path_exists ≡ some_any (candidates path (split_path_view path) [] n))
outcome m path n =
    rw (match_path-candidates m path n)
      (consider_all-outcome m (candidates path (split_path_view path) [] n) no_match refl)

-- Some route that fits has left a handler.
pub Any-held :
    (vs : List View) (rs : List Route) (n : Node)
    → Any (λ (r : Route). fits (tokens r) vs ≡ true) rs
    → (q : List Token) × (fits q vs ≡ true) × (has_any (handlers_at q (insert_all rs n)) ≡ true)
unfolding insert_all is_some
Any-held vs [] n a = absurd a
Any-held vs (r ∷ rs) n (inl a) =
    let there = kept (tokens r) r.method rs (insert r.method r.path r.handler n) (
      ground (
        arith,
        insert_lem (tokens r) r.method r.method r.handler r.path n,
        same_place_refl (tokens r),
        same_refl r.method,
      )) in
    elim (Option-cases (
      find r.method
        (handlers_at (tokens r) (insert_all rs (insert r.method r.path r.handler n))))) [
          | inl e ↦ absurd (ground arith)
          | inr (h, e) ↦ (
            tokens r,
            a,
            find-has_any r.method h
                (handlers_at (tokens r) (insert_all rs (insert r.method r.path r.handler n))) e,
          )
        ]
Any-held vs (r ∷ rs) n (inr a) = Any-held vs rs (insert r.method r.path r.handler n) a
