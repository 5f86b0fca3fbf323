-- ===== src/Web/Router.antt =====
-- src/web/Router.cpp: Dispatch. What the handler does is its number and an argument: whether it
-- throws, and whether it has sent its response before that.
use libiouring_server.Common.{
  ℕ, ◌≡◌, ap, ◌∙◌, ◌⊎◌, ◌&&◌, if◌then◌else◌, not, Bool, true, false, List, All, Any, Any-weaken,
  Option, none, some, Option-cases, inl, inr, arith,
}
use libiouring_server.Web.RadixTree.{
  Text, Node, empty, split_path_view, insert, Captured, MatchResult, match_path,
}
use libiouring_server.Web.RadixTree.Reach.{fits}
use libiouring_server.Web.RadixTree.Outcome.{Route, insert_all, tokens}
use libiouring_server.Web.RadixTree.Routes.{serves}
use libiouring_server.Web.RadixTree.Served.{match-served, path_exists-fits}

-- What Dispatch does, with the parameters that the handler sees.
pub data Reply : Type 0 where
  handled : ℕ → List (Text × Captured) → Reply
  internal_server_error : ℕ → List (Text × Captured) → Reply
  method_not_allowed not_found : Reply

unfoldable pub route : ℕ → Text → ℕ → Node → Node
route method path handler tree = insert method path handler tree

unfoldable pub reply : (ℕ → Bool) → (ℕ → Bool) → MatchResult → Reply
reply throws is_sent r = elim r.handler [
  | some h ↦
      if throws h && not (is_sent h) then internal_server_error h r.params else handled h r.params
  | none ↦ if r.path_exists then method_not_allowed else not_found
]

unfoldable pub dispatch : (ℕ → Bool) → (ℕ → Bool) → ℕ → Text → Node → Reply
dispatch throws is_sent method path tree = reply throws is_sent (match_path method path tree)

-- The handler that a reply has run.
unfoldable pub ran : Reply → Option ℕ
ran (handled h ps) = some h
ran (internal_server_error h ps) = some h
ran method_not_allowed = none
ran not_found = none

ran-reply : (throws is_sent : ℕ → Bool) (r : MatchResult) → ran (reply throws is_sent r) ≡ r.handler
unfolding ran reply
ran-reply throws is_sent r = elim (Option-cases r.handler) [
  | inl e ↦ ground arith
  | inr (h, e) ↦ ground arith
]

missing : Bool → Reply
missing known = if known then method_not_allowed else not_found

reply-missing :
    (throws is_sent : ℕ → Bool) (r : MatchResult)
    → r.handler ≡ none
    → reply throws is_sent r ≡ missing r.path_exists
unfolding reply missing
reply-missing throws is_sent r e = ground arith

-- For a new router that has been given a list of routes: Dispatch runs the handler of a route that
-- fits the path and has the request's method; or there is none, but a route of another method fits
-- the path, and it answers 405; or no route fits the path, and it answers 404.
pub dispatch-routes :
    (throws is_sent : ℕ → Bool) (m : ℕ) (path : Text) (rs : List Route)
    → Any
        (λ (r : Route).
          (serves m (split_path_view path) r ≡ true)
          × (ran (dispatch throws is_sent m path (insert_all rs empty)) ≡ some r.handler))
        rs
      ⊎ (((dispatch throws is_sent m path (insert_all rs empty) ≡ method_not_allowed)
            × All (λ (r : Route). serves m (split_path_view path) r ≡ false) rs
            × Any (λ (r : Route). fits (tokens r) (split_path_view path) ≡ true) rs)
          ⊎ ((dispatch throws is_sent m path (insert_all rs empty) ≡ not_found)
              × All (λ (r : Route). fits (tokens r) (split_path_view path) ≡ false) rs))
unfolding dispatch missing
dispatch-routes throws is_sent m path rs =
    let result = match_path m path (insert_all rs empty) in
    elim (match-served m path rs) [
      | inl (e, a) ↦ elim (path_exists-fits m path rs) [
        | inl (f, b) ↦ inr (inr (reply-missing throws is_sent result e ∙ ap missing f, b))
        | inr (f, b) ↦ inr (inl (reply-missing throws is_sent result e ∙ ap missing f, a, b))
      ]
      | inr a ↦ inl (
          Any-weaken
            (λ (r : Route).
              (serves m (split_path_view path) r ≡ true) × (result.handler ≡ some r.handler))
            (λ (r : Route).
              (serves m (split_path_view path) r ≡ true)
              × (ran (reply throws is_sent result) ≡ some r.handler))
            rs (λ r x. (x.0, ran-reply throws is_sent result ∙ x.1)) a)
    ]
