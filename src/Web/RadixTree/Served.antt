-- ===== src/Web/RadixTree/Served.antt =====
-- Which route answers a request, and when a path is known.
use libiouring_server.Common.{
  ℕ, ◌≡◌, refl, sym, ap, ◌∙◌, ◌⊎◌, true, false, List, [], ◌∷◌, Any, Any-weaken, Any-or_none, All,
  none, some, Bool-cases, Option-cases, inl, inr,
}
use libiouring_server.Common.Maps.{same_refl, find, nat_eq}
use libiouring_server.Web.RadixTree.{
  Text, empty, View, split_path_view, Token, is_some, has_any, match_path,
}
use libiouring_server.Web.RadixTree.Places.{handlers_at, handlers_at-empty, same_place}
use libiouring_server.Web.RadixTree.Search.{candidates}
use libiouring_server.Web.RadixTree.Reach.{fits, candidates-fits, fits-candidates}
use libiouring_server.Web.RadixTree.Outcome.{
  first, some_any, first-Any, Any-first, some_any-Any, Any-some_any, Route, insert_all, tokens,
  same_place-fits,
}
use libiouring_server.Web.RadixTree.Routes.{serves, found, held, Any-held, outcome}

-- A handler that a new tree holds at a place comes from a route of that place.
found_new :
    (q : List Token) (m h : ℕ) (rs : List Route)
    → find m (handlers_at q (insert_all rs empty)) ≡ some h
    → Any (λ (r : Route). (same_place (tokens r) q ≡ true) × (m ≡ r.method) × (r.handler ≡ h)) rs
unfolding find
found_new q m h rs e = elim (found q m h rs empty e) [
  | inl k ↦ absurd (let z = ap (find m) (handlers_at-empty q) in cc)
  | inr a ↦ a
]

serves_if :
    (m h : ℕ) (q : List Token) (vs : List View) (r : Route)
    → fits q vs ≡ true
    → (same_place (tokens r) q ≡ true) × (m ≡ r.method) × (r.handler ≡ h)
    → (serves m vs r ≡ true) × (r.handler ≡ h)
unfolding serves
serves_if m h q vs r f (p, e, k) =
    (rw (e, same_refl r.method) (same_place-fits (tokens r) q vs p f), k)

served :
    (m h : ℕ) (path : Text) (rs : List Route)
    → first m (candidates path (split_path_view path) [] (insert_all rs empty)) ≡ some h
    → Any (λ (r : Route). (serves m (split_path_view path) r ≡ true) × (r.handler ≡ h)) rs
served m h path rs e =
    let vs = split_path_view path in
    let n = insert_all rs empty in
    let (q, f, k) =
      candidates-fits (λ hs. find m hs ≡ some h) path vs [] n
        (first-Any m h (candidates path vs [] n) e) in
    Any-weaken (λ (r : Route). (same_place (tokens r) q ≡ true) × (m ≡ r.method) × (r.handler ≡ h))
      (λ (r : Route). (serves m vs r ≡ true) × (r.handler ≡ h)) rs (λ r x. serves_if m h q vs r f x)
      (found_new q m h rs k)

-- For a new tree into which a list of routes has been inserted: Match finds no handler, and no
-- route of the request's method fits the path; or it finds the handler of such a route.
pub match-served :
    (m : ℕ) (path : Text) (rs : List Route)
    → (((match_path m path (insert_all rs empty)).handler ≡ none)
        × All (λ (r : Route). serves m (split_path_view path) r ≡ false) rs)
      ⊎ Any
          (λ (r : Route).
            (serves m (split_path_view path) r ≡ true)
            × ((match_path m path (insert_all rs empty)).handler ≡ some r.handler))
          rs
unfolding is_some find
match-served m path rs =
    let vs = split_path_view path in
    let n = insert_all rs empty in
    let out = (outcome m path n).0 in
    elim (Option-cases (first m (candidates path vs [] n))) [
      | inl e ↦ elim (Any-or_none (serves m vs) rs) [
        | inl a ↦ inl (out ∙ e, a)
        | inr a ↦
            let (q, f, k) = held m vs rs empty a in
            let there =
              Any-first m (candidates path vs [] n)
                (fits-candidates (λ hs. is_some (find m hs) ≡ true) path vs [] n q (λ z. cc) f k) in
            absurd (let z = ap is_some e in cc)
      ]
      | inr (h, e) ↦ inr (
          Any-weaken (λ (r : Route). (serves m vs r ≡ true) × (r.handler ≡ h))
            (λ (r : Route).
              (serves m vs r ≡ true) × ((match_path m path n).handler ≡ some r.handler))
            rs (λ r x. (x.0, out ∙ e ∙ ap some (sym x.1))) (served m h path rs e))
    ]

-- The first handler of a map that is not empty.
any_handler : (hs : List (ℕ × ℕ)) → has_any hs ≡ true → (m : ℕ) × (h : ℕ) × (find m hs ≡ some h)
unfolding has_any find
any_handler [] e = absurd cc
any_handler ((m, h) ∷ hs) e = (m, h, rw (same_refl m) refl)

-- For a new tree into which a list of routes has been inserted: path_exists says whether some route
-- fits the path, of whatever method.
pub path_exists-fits :
    (m : ℕ) (path : Text) (rs : List Route)
    → (((match_path m path (insert_all rs empty)).path_exists ≡ false)
        × All (λ (r : Route). fits (tokens r) (split_path_view path) ≡ false) rs)
      ⊎ (((match_path m path (insert_all rs empty)).path_exists ≡ true)
          × Any (λ (r : Route). fits (tokens r) (split_path_view path) ≡ true) rs)
unfolding is_some find has_any
path_exists-fits m path rs =
    let vs = split_path_view path in
    let n = insert_all rs empty in
    let cs = candidates path vs [] n in
    let out = (outcome m path n).1 in
    elim (Bool-cases (some_any cs)) [
      | inl e ↦
          let (q, f, k) =
            candidates-fits (λ hs. has_any hs ≡ true) path vs [] n (some_any-Any cs e) in
          let (j, h, g) = any_handler (handlers_at q n) k in
          inr (
            out ∙ e,
            Any-weaken
                (λ (r : Route). (same_place (tokens r) q ≡ true) × (j ≡ r.method) × (r.handler ≡ h))
                (λ (r : Route). fits (tokens r) vs ≡ true) rs
                (λ r x. same_place-fits (tokens r) q vs x.0 f) (found_new q j h rs g),
          )
      | inr e ↦ elim (Any-or_none (λ (r : Route). fits (tokens r) vs) rs) [
        | inl a ↦ inl (out ∙ e, a)
        | inr a ↦
            let (q, f, k) = Any-held vs rs empty a in
            let there =
              Any-some_any cs
                (fits-candidates (λ hs. has_any hs ≡ true) path vs [] n q (λ z. cc) f k) in
            absurd cc
      ]
    ]
