-- ===== src/Web/RadixTree/Search.antt =====
-- MatchNode as a search through the candidates in the order of their priority.
use libiouring_server.Common.{
  ℕ, ◌≡◌, refl, sym, ap, ◌∙◌, if◌then◌else◌, if_cases, true, false, List, [], ◌∷◌, ◌++◌, length,
  Option, none, some,
}
use libiouring_server.Common.Maps.{find, nat_eq}
use libiouring_server.Web.RadixTree.{
  Text, Node, node, Wildcard, no_wildcard, wildcard, View, Captured, captured, MatchResult,
  last_view, span, is_some, answer, find_child, try_node, try_wildcard, param_name, param_child,
  match_node,
}

abbrev pub Params : Type 0
Params = List (Text × Captured)

-- The handlers of a node that the path leads to, with what is captured on the way.
abbrev pub Candidate : Type 0
Candidate = List (ℕ × ℕ) × Params

unfoldable pub below : Option Node → (Node → List Candidate) → List Candidate
below none go = []
below (some n) go = go n

unfoldable pub at_wildcard : Wildcard → Params → Captured → List Candidate
at_wildcard no_wildcard params value = []
at_wildcard (wildcard name hs) params value = (hs, params ++ (name, value) ∷ []) ∷ []

-- Static children come first, then the parameter, then the wildcard.
unfoldable pub candidates : Text → List View → Params → Node → List Candidate
candidates path [] params (node cs p w hs) = (hs, params) ∷ []
candidates path (seg ∷ segs) params (node cs p w hs) =
    let with_param = params ++ (param_name p, captured seg.text) ∷ [] in
    let last = last_view seg segs in
    below (find_child seg.text cs) (candidates path segs params)
    ++ below (param_child p) (candidates path segs with_param)
    ++ at_wildcard w params (span path seg.place last.place (length last.text))

unfoldable pub consider : ℕ → Candidate → MatchResult → MatchResult
consider m (hs, params) r = if is_some r.handler then r else answer (find m hs) hs params r

unfoldable pub consider_all : ℕ → List Candidate → MatchResult → MatchResult
consider_all m [] r = r
consider_all m (c ∷ cs) r = consider_all m cs (consider m c r)

consider-done :
    (m : ℕ) (c : Candidate) (r : MatchResult) → is_some r.handler ≡ true → consider m c r ≡ r
unfolding consider
consider-done m (hs, ps) r h = rw h refl

pub consider_all-done :
    (m : ℕ) (cs : List Candidate) (r : MatchResult)
    → is_some r.handler ≡ true
    → consider_all m cs r ≡ r
unfolding consider_all
consider_all-done m [] r h = refl
consider_all-done m (c ∷ cs) r h = rw (consider-done m c r h) (consider_all-done m cs r h)

consider_all-append :
    (m : ℕ) (cs ds : List Candidate) (r : MatchResult)
    → consider_all m (cs ++ ds) r ≡ consider_all m ds (consider_all m cs r)
unfolding consider_all
consider_all-append m [] ds r = refl
consider_all-append m (c ∷ cs) ds r = consider_all-append m cs ds (consider m c r)

try_node-below :
    (m : ℕ) (o : Option Node) (go : Node → MatchResult → MatchResult) (cs : Node → List Candidate)
    (r : MatchResult)
    → ((n : Node) (r : MatchResult) → is_some r.handler ≡ false → go n r ≡ consider_all m (cs n) r)
    → try_node o go r ≡ consider_all m (below o cs) r
unfolding try_node below consider_all
try_node-below m none go cs r f = refl
try_node-below m (some n) go cs r f =
    if_cases (λ (t : MatchResult). t ≡ consider_all m (cs n) r) (is_some r.handler)
      (λ h. sym (consider_all-done m (cs n) r h)) (λ h. f n r h)

try_wildcard-at_wildcard :
    (m : ℕ) (w : Wildcard) (value : Captured) (params : Params) (r : MatchResult)
    → try_wildcard w m value params r ≡ consider_all m (at_wildcard w params value) r
unfolding try_wildcard at_wildcard consider_all consider
try_wildcard-at_wildcard m no_wildcard value params r = refl
try_wildcard-at_wildcard m (wildcard name hs) value params r = refl

-- As long as no handler has been found, MatchNode goes through the candidates below a node in the
-- order of their priority, static before parameter before wildcard, up to the first one that has a
-- handler for the method; that one gives the parameters, and the path is known as soon as one
-- candidate has any handler.
pub match_node-candidates :
    (path : Text) (m : ℕ) (segs : List View) (params : Params) (n : Node) (r : MatchResult)
    → is_some r.handler ≡ false
    → match_node path m segs params n r ≡ consider_all m (candidates path segs params n) r
unfolding match_node candidates consider_all consider
match_node-candidates path m [] params (node cs p w hs) r h = rw h refl
match_node-candidates path m (seg ∷ segs) params (node cs p w hs) r h =
    let with_param = params ++ (param_name p, captured seg.text) ∷ [] in
    let last = last_view seg segs in
    let value = span path seg.place last.place (length last.text) in
    let statics = below (find_child seg.text cs) (candidates path segs params) in
    let under_param = below (param_child p) (candidates path segs with_param) in
    let first = consider_all m statics r in
    let second = consider_all m under_param first in
    let static_eq =
      try_node-below m (find_child seg.text cs) (match_node path m segs params)
        (candidates path segs params) r (match_node-candidates path m segs params) in
    let param_eq =
      try_node-below m (param_child p) (match_node path m segs with_param)
        (candidates path segs with_param) first (match_node-candidates path m segs with_param) in
    let joined =
      consider_all-append m (statics ++ under_param) (at_wildcard w params value) r
      ∙ ap (consider_all m (at_wildcard w params value))
          (consider_all-append m statics under_param r) in
    rw (static_eq, param_eq) (try_wildcard-at_wildcard m w value params second ∙ sym joined)
