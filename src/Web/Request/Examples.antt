-- ===== src/Web/Request/Examples.antt =====
-- The url /a?b=1&c=2
use libiouring_server.Common.{ℕ, ◌≡◌, refl, List, [], ◌∷◌, ◌++◌}
use libiouring_server.Common.Maps.{find, text_eq}
use libiouring_server.Web.Request.{new_request, value_or_empty, query_param, parse_url}
use libiouring_server.Web.Request.Parameters.{print_pairs, query_param-print}

abbrev b_is_1 : List ℕ × List ℕ
b_is_1 = (98 ∷ [], 49 ∷ [])

abbrev c_is_2 : List ℕ × List ℕ
c_is_2 = (99 ∷ [], 50 ∷ [])

query_param-print_example :
    let asked =
      query_param
        (99 ∷ [])
        (parse_url ((47 ∷ 97 ∷ []) ++ 63 ∷ print_pairs b_is_1 (c_is_2 ∷ [])) new_request) in
    (asked.0.path ≡ 47 ∷ 97 ∷ [])
    × (asked.1 ≡ value_or_empty (find (99 ∷ []) (b_is_1 ∷ c_is_2 ∷ [])))
    × ((query_param (98 ∷ []) asked.0).1 ≡ value_or_empty (find (98 ∷ []) (b_is_1 ∷ c_is_2 ∷ [])))
query_param-print_example =
    query_param-print new_request (47 ∷ 97 ∷ []) (99 ∷ []) (98 ∷ []) b_is_1 (c_is_2 ∷ []) refl refl
      (refl, (refl, tt)) ((refl, tt), (refl, tt), (refl, tt))
      (((refl, tt), (refl, tt), (refl, tt)), tt)
