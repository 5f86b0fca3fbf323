-- ===== src/Web/Examples.antt =====
-- A router of src/web with four routes.
use libiouring_server.Common.{
  ℕ, ◌≡◌, refl, ◌⊎◌, ◌&&◌, if◌then◌else◌, true, false, List, [], ◌∷◌, ◌++◌, map, All, Any, some,
}
use libiouring_server.Common.Maps.{same, find, nat_eq, text_eq}
use libiouring_server.Web.RadixTree.{
  Text, Node, node, no_child, no_param, wildcard, empty, split_from, split_views, split_path_view,
  ends_in_slash, Token, fixed, token, insert_segments, invalid, no_match, is_some, match_node,
  match_path,
}
use libiouring_server.Web.RadixTree.Split.{texts, joined, split_path_view-joined, wildcard_trailing}
use libiouring_server.Web.RadixTree.Places.{handlers_at, same_place}
use libiouring_server.Web.RadixTree.Names.{of_param, name_at, given, kept, insert_segments-places}
use libiouring_server.Web.RadixTree.Search.{candidates, consider_all, match_node-candidates}
use libiouring_server.Web.RadixTree.Reach.{fits}
use libiouring_server.Web.RadixTree.Outcome.{Route, insert_all, tokens}
use libiouring_server.Web.RadixTree.Routes.{serves}
use libiouring_server.Web.Router.{method_not_allowed, not_found, dispatch, ran, dispatch-routes}

-- /u/:i, /u/m, /f/*p and, for another method, /u
abbrev routes : List Route
routes =
    record { method = 0; path = 47 ∷ 117 ∷ 47 ∷ 58 ∷ 105 ∷ []; handler = 5 }
    ∷ record { method = 0; path = 47 ∷ 117 ∷ 47 ∷ 109 ∷ []; handler = 6 }
    ∷ record { method = 0; path = 47 ∷ 102 ∷ 47 ∷ 42 ∷ 112 ∷ []; handler = 7 }
    ∷ record { method = 1; path = 47 ∷ 117 ∷ []; handler = 8 }
    ∷ []

abbrev tree : Node
tree = insert_all routes empty

-- /u/m
abbrev me : Text
me = 47 ∷ 117 ∷ 47 ∷ 109 ∷ []

dispatch-routes_example :
    Any
      (λ (r : Route).
        (serves 0 (split_path_view me) r ≡ true)
        × (ran (dispatch (λ h. false) (λ h. false) 0 me tree) ≡ some r.handler))
      routes
    ⊎ (((dispatch (λ h. false) (λ h. false) 0 me tree ≡ method_not_allowed)
          × All (λ (r : Route). serves 0 (split_path_view me) r ≡ false) routes
          × Any (λ (r : Route). fits (tokens r) (split_path_view me) ≡ true) routes)
        ⊎ ((dispatch (λ h. false) (λ h. false) 0 me tree ≡ not_found)
            × All (λ (r : Route). fits (tokens r) (split_path_view me) ≡ false) routes))
dispatch-routes_example = dispatch-routes (λ h. false) (λ h. false) 0 me routes

match_node-candidates_example :
    match_node me 0 (split_path_view me) [] tree no_match
    ≡ consider_all 0 (candidates me (split_path_view me) [] tree) no_match
unfolding is_some
match_node-candidates_example =
    match_node-candidates me 0 (split_path_view me) [] tree no_match refl

-- u/:j/x, and the place behind u.
abbrev added : List Text
added = (117 ∷ []) ∷ (58 ∷ 106 ∷ []) ∷ (120 ∷ []) ∷ []

abbrev behind_u : List Token
behind_u = fixed (117 ∷ []) ∷ []

insert_segments-places_example :
    (find 0 (handlers_at behind_u (insert_segments added 0 9 tree)) ≡ (
      if same_place (map token added) behind_u && same {A = ℕ} 0 0
      then some 9
      else find 0 (handlers_at behind_u tree)))
    × (name_at of_param behind_u (insert_segments added 0 9 tree)
        ≡ kept (name_at of_param behind_u tree) (given of_param (map token added) behind_u))
insert_segments-places_example = insert_segments-places behind_u added 0 0 9 of_param tree

split_path_view-joined_example :
    texts (split_path_view (joined true ((117 ∷ []) ∷ (109 ∷ []) ∷ [])))
    ≡ (if true then ((117 ∷ []) ∷ (109 ∷ []) ∷ []) ++ [] ∷ [] else (117 ∷ []) ∷ (109 ∷ []) ∷ [])
split_path_view-joined_example =
    split_path_view-joined true (117 ∷ []) ((109 ∷ []) ∷ []) ((refl, tt), ((refl, tt), tt))

-- /a/
wildcard_trailing_example :
    match_path 0 (47 ∷ 97 ∷ 47 ∷ []) (node no_child no_param (wildcard (112 ∷ []) ((0, 7) ∷ [])) [])
    ≡ record { handler = some 7; params = (112 ∷ [], invalid) ∷ []; path_exists = true }
unfolding find same ends_in_slash split_views split_from
wildcard_trailing_example =
    wildcard_trailing 0 7 (47 ∷ 97 ∷ 47 ∷ []) (112 ∷ []) ((0, 7) ∷ [])
      (record { place = some 1; text = 97 ∷ [] }) [] 1 refl refl refl refl refl
