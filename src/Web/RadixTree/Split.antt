-- ===== src/Web/RadixTree/Split.antt =====
-- SplitPath and SplitPathView against paths that are put together from their segments.
use libiouring_server.Common.{
  ℕ, ◌+◌, ltb, lt→ltb, ◌==◌, ◌≡◌, refl, sym, ap, ◌∙◌, if◌then◌else◌, Bool, true, false, List, [],
  ◌∷◌, ◌++◌, map, length, All, append_assoc, append-nil, Option, none, some, Bool-cases, inl, inr,
  arith,
}
use libiouring_server.Common.Maps.{find, same_true, nat_eq, text_eq, same}
use libiouring_server.Web.RadixTree.{
  Text, node, no_child, no_param, wildcard, View, split_from, split_views, split_path,
  ends_in_slash, split_path_view, Captured, invalid, last_view, span, is_some, answer, no_match,
  try_node, try_wildcard, param_child, find_child, match_node, match_path,
}

abbrev pub texts : List View → List Text
texts vs = map (λ (v : View). v.text) vs

abbrev pub NoSlash : Text → Type 0
NoSlash s = All (λ c. (c == 47) ≡ false) s

-- A segment: some characters, none of which is a slash.
abbrev pub IsSegment : Text → Type 0
IsSegment [] = ⊥
IsSegment (c ∷ cs) = NoSlash (c ∷ cs)

-- Each segment behind a slash, and one more slash at the end, if any.
unfoldable pub joined : Bool → List Text → Text
joined true [] = 47 ∷ []
joined false [] = []
joined trailing (s ∷ ss) = 47 ∷ (s ++ joined trailing ss)

split_joined :
    (trailing : Bool) (ss : List Text) (start b : ℕ) (part cs : Text)
    → NoSlash cs
    → All IsSegment ss
    → texts (split_from start (b ∷ part) (cs ++ joined trailing ss)) ≡ ((b ∷ part) ++ cs) ∷ ss
unfolding split_from joined
split_joined true [] start b part [] h g = ap (λ (z : Text). (b ∷ z) ∷ []) (sym (append-nil part))
split_joined false [] start b part [] h g = ap (λ (z : Text). (b ∷ z) ∷ []) (sym (append-nil part))
split_joined t ([] ∷ ss) start b part [] h g = absurd g.0
split_joined t ((d ∷ ds) ∷ ss) start b part [] h g =
    rw (g.0.0, split_joined t ss (start + length (b ∷ part) + 1) d [] ds g.0.1 g.1, append-nil part)
      refl
split_joined t ss start b part (c ∷ cs) h g =
    rw (h.0, split_joined t ss start b (part ++ c ∷ []) cs h.1 g, append_assoc part (c ∷ []) cs)
      refl

views_joined :
    (trailing : Bool) (ss : List Text)
    → All IsSegment ss
    → texts (split_views (joined trailing ss)) ≡ ss
unfolding split_views split_from joined
views_joined true [] h = refl
views_joined false [] h = refl
views_joined t ([] ∷ ss) h = absurd h.0
views_joined t ((c ∷ cs) ∷ ss) h = rw h.0.0 (split_joined t ss 1 c [] cs h.0.1 h.1)

-- SplitPath of a path that is put together from segments, with a slash at its end or without, gives
-- back those segments.
pub split_path-joined :
    (trailing : Bool) (ss : List Text) → All IsSegment ss → split_path (joined trailing ss) ≡ ss
unfolding split_path
split_path-joined t ss h = views_joined t ss h

ends :
    (trailing : Bool) (ss : List Text) (c : ℕ) (cs : Text)
    → NoSlash (c ∷ cs)
    → All IsSegment ss
    → ends_in_slash (c ∷ (cs ++ joined trailing ss)) ≡ trailing
unfolding ends_in_slash joined
ends true [] c [] h g = refl
ends false [] c [] h g = h.0
ends t ([] ∷ ss) c [] h g = absurd g.0
ends t ((d ∷ ds) ∷ ss) c [] h g = ends t ss d ds g.0 g.1
ends t ss c (e ∷ es) h g = ends t ss e es h.1 g

texts-append : (vs ws : List View) → texts (vs ++ ws) ≡ texts vs ++ texts ws
texts-append [] ws = refl
texts-append (v ∷ vs) ws = ap (◌∷◌ v.text) (texts-append vs ws)

-- SplitPathView of a path that is put together from one segment or more gives back those segments,
-- and behind them an empty one exactly where the path has a slash at its end.
pub split_path_view-joined :
    (trailing : Bool) (s : Text) (ss : List Text)
    → All IsSegment (s ∷ ss)
    → texts (split_path_view (joined trailing (s ∷ ss)))
      ≡ (if trailing then (s ∷ ss) ++ [] ∷ [] else s ∷ ss)
unfolding split_path_view joined ends_in_slash
split_path_view-joined t [] ss h = absurd h.0
split_path_view-joined t (c ∷ cs) ss h =
    let path = joined t ((c ∷ cs) ∷ ss) in
    let views = views_joined t ((c ∷ cs) ∷ ss) h in
    let long = lt→ltb 1 (length path) (omega arith) in
    rw (long, ends t ss c cs h.0 h.1) (last t path views)
  where
    last :
        (t : Bool) (path : Text)
        → texts (split_views path) ≡ (c ∷ cs) ∷ ss
        → texts (
            if t
            then split_views path ++ record { place = none; text = [] } ∷ []
            else split_views path)
          ≡ (if t then ((c ∷ cs) ∷ ss) ++ [] ∷ [] else (c ∷ cs) ∷ ss)
    last true path e =
        texts-append (split_views path) (record { place = none; text = [] } ∷ [])
        ∙ ap (λ (z : List Text). z ++ [] ∷ []) e
    last false path e = e

ends_in_view : (v : View) (vs : List View) (w : View) → last_view v (vs ++ w ∷ []) ≡ w
unfolding last_view
ends_in_view v [] w = refl
ends_in_view v (u ∷ vs) w = ends_in_view u vs w

abbrev nowhere : View
nowhere = record { place = none; text = [] }

span_end : (path : Text) (p : Option ℕ) (a n : ℕ) → p ≡ some a → span path p none n ≡ invalid
unfolding span
span_end path p a n h = rw h refl

-- Where only a wildcard can answer, a path of some segments with a slash at its end is answered with
-- a capture that is no part of the path: its end is that of the empty segment, which has no place.
pub wildcard_trailing :
    (m h : ℕ) (path name : Text) (hs : List (ℕ × ℕ)) (v : View) (vs : List View) (a : ℕ)
    → find m hs ≡ some h
    → ltb 1 (length path) ≡ true
    → ends_in_slash path ≡ true
    → split_views path ≡ v ∷ vs
    → v.place ≡ some a
    → match_path m path (node no_child no_param (wildcard name hs) [])
      ≡ record { handler = some h; params = (name, invalid) ∷ []; path_exists = true }
unfolding match_path match_node split_path_view try_wildcard try_node find_child param_child is_some
    answer span last_view
wildcard_trailing m h path name hs v vs a e long slash split at_a =
    elim (Bool-cases (same path (47 ∷ []))) [
      | inl k ↦
          absurd (let z = ap (λ (z : Text). ltb 1 (length z)) (same_true path (47 ∷ []) k) in cc)
      | inr k ↦
          rw (k, long, slash, split, ends_in_view v vs nowhere)
            (answer_invalid (span path v.place none 0) (span_end path v.place a 0 at_a))
    ]
  where
    answer_invalid :
        (c : Captured)
        → c ≡ invalid
        → answer (find m hs) hs ((name, c) ∷ []) no_match
          ≡ record { handler = some h; params = (name, invalid) ∷ []; path_exists = true }
    answer_invalid c z = rw (e, z) refl
