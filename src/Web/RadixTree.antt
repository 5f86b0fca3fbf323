-- ===== src/Web/RadixTree.antt =====
-- src/web/RadixTree.cpp: the tree of routes. A text is a list of codes, a handler and a method are
-- numbers. The handlers of a node are a map from the methods; a wildcard child has nothing but
-- handlers.
pub mod Split
pub mod Places
pub mod Names
pub mod Search
pub mod Reach
pub mod Outcome
pub mod Routes
pub mod Served
use libiouring_server.Common.{
  ℕ, suc, ◌+◌, ◌-◌, ltb, ◌==◌, ◌&&◌, ◌||◌, not, if◌then◌else◌, Bool, true, false, List, [], ◌∷◌,
  ◌++◌, map, length, drop, Option, none, some,
}
use libiouring_server.Common.Maps.{same, find, assign, nat_eq, text_eq}
use libiouring_server.Common.Slices.{slice}

abbrev pub Text : Type 0
Text = List ℕ

mutual
  pub data Node : Type 0 where
    node : Children → Param → Wildcard → List (ℕ × ℕ) → Node

  -- The static children, each under its prefix.
  pub data Children : Type 0 where
    no_child : Children
    child : Text → Node → Children → Children

  pub data Param : Type 0 where
    no_param : Param
    param : Text → Node → Param

  pub data Wildcard : Type 0 where
    no_wildcard : Wildcard
    wildcard : Text → List (ℕ × ℕ) → Wildcard

abbrev pub empty : Node
empty = node no_child no_param no_wildcard []

-- A view into the path: where it starts, and its text. A view that is made of nothing has no place.
pub record View : Type 0 where
  pub place : Option ℕ
  pub text : Text

-- The loop that splits a path at '/': `part` is what it has read of the segment that starts at
-- `start`.
unfoldable pub split_from : ℕ → Text → Text → List View
split_from start [] [] = []
split_from start (c ∷ part) [] = record { place = some start; text = c ∷ part } ∷ []
split_from start [] (c ∷ cs) =
    if c == 47 then split_from (start + 1) [] cs else split_from start (c ∷ []) cs
split_from start (b ∷ part) (c ∷ cs) =
    if c == 47
    then record { place = some start; text = b ∷ part }
      ∷ split_from (start + length (b ∷ part) + 1) [] cs
    else split_from start (b ∷ part ++ c ∷ []) cs

unfoldable pub split_views : Text → List View
split_views [] = []
split_views (c ∷ cs) = if c == 47 then split_from 1 [] cs else split_from 0 [] (c ∷ cs)

unfoldable pub split_path : Text → List Text
split_path path = map (λ (v : View). v.text) (split_views path)

unfoldable pub ends_in_slash : Text → Bool
ends_in_slash [] = false
ends_in_slash (c ∷ []) = c == 47
ends_in_slash (c ∷ d ∷ cs) = ends_in_slash (d ∷ cs)

-- A trailing slash is one more segment, which is empty.
unfoldable pub split_path_view : Text → List View
split_path_view path =
    if ltb 1 (length path) && ends_in_slash path
    then split_views path ++ record { place = none; text = [] } ∷ []
    else split_views path

-- How a segment of a route is read.
pub data Token : Type 0 where
  rest : Text → Token
  any : Text → Token
  fixed : Text → Token

unfoldable pub token : Text → Token
token [] = fixed []
token (c ∷ []) = fixed (c ∷ [])
token (c ∷ d ∷ name) =
    if c == 42 then rest (d ∷ name) else if c == 58 then any (d ∷ name) else fixed (c ∷ d ∷ name)

unfoldable pub set_handler : ℕ → ℕ → Node → Node
set_handler method handler (node cs p w hs) = node cs p w (assign method handler hs)

unfoldable pub insert_wildcard : Text → ℕ → ℕ → Wildcard → Wildcard
insert_wildcard name method handler no_wildcard = wildcard name (assign method handler [])
insert_wildcard name method handler (wildcard old hs) = wildcard old (assign method handler hs)

unfoldable pub insert_param : Text → (Node → Node) → Param → Param
insert_param name go no_param = param name (go empty)
insert_param name go (param old n) = param old (go n)

-- The first child with that prefix, or a new one behind all others.
unfoldable pub insert_child : Text → (Node → Node) → Children → Children
insert_child seg go no_child = child seg (go empty) no_child
insert_child seg go (child prefix n cs) =
    if same prefix seg then child prefix (go n) cs else child prefix n (insert_child seg go cs)

unfoldable pub insert_at : Token → (Node → Node) → ℕ → ℕ → Node → Node
insert_at (rest name) go method handler (node cs p w hs) =
    node cs p (insert_wildcard name method handler w) hs
insert_at (any name) go method handler (node cs p w hs) = node cs (insert_param name go p) w hs
insert_at (fixed seg) go method handler (node cs p w hs) = node (insert_child seg go cs) p w hs

unfoldable pub insert_segments : List Text → ℕ → ℕ → Node → Node
insert_segments [] method handler n = set_handler method handler n
insert_segments (seg ∷ segs) method handler n =
    insert_at (token seg) (insert_segments segs method handler) method handler n

unfoldable pub insert : ℕ → Text → ℕ → Node → Node
insert method path handler n =
    if same path (47 ∷ [])
    then set_handler method handler n
    else insert_segments (split_path path) method handler n

-- What a parameter captures; a view that is cut out by unrelated pointers is invalid.
pub data Captured : Type 0 where
  captured : Text → Captured
  invalid : Captured

pub record MatchResult : Type 0 where
  pub handler : Option ℕ
  pub params : List (Text × Captured)
  pub path_exists : Bool

unfoldable pub last_view : View → List View → View
last_view v [] = v
last_view v (w ∷ vs) = last_view w vs

-- From the start of the first view to the end of the last one.
unfoldable pub span : Text → Option ℕ → Option ℕ → ℕ → Captured
span path (some a) (some b) n = captured (slice a (b + n - a) path)
span path none none n = captured []
span path (some a) none n = invalid
span path none (some b) n = invalid

unfoldable pub is_some : Option ℕ → Bool
is_some none = false
is_some (some h) = true

-- HasAnyHandler
unfoldable pub has_any : List (ℕ × ℕ) → Bool
has_any [] = false
has_any (h ∷ hs) = true

unfoldable pub answer : Option ℕ → List (ℕ × ℕ) → List (Text × Captured) → MatchResult → MatchResult
answer (some h) hs params r = record { handler = some h; params = params; path_exists = true }
answer none hs params r = if has_any hs then record r { path_exists = true } else r

unfoldable pub find_child : Text → Children → Option Node
find_child seg no_child = none
find_child seg (child prefix n cs) = if same prefix seg then some n else find_child seg cs

-- A further way to go, when there is one and no handler has been found.
unfoldable pub try_node :
    Option Node → (Node → MatchResult → MatchResult) → MatchResult → MatchResult
try_node none go r = r
try_node (some n) go r = if is_some r.handler then r else go n r

unfoldable pub try_wildcard :
    Wildcard → ℕ → Captured → List (Text × Captured) → MatchResult → MatchResult
try_wildcard no_wildcard method value params r = r
try_wildcard (wildcard name hs) method value params r =
    if is_some r.handler then r else answer (find method hs) hs (params ++ (name, value) ∷ []) r

unfoldable pub param_name : Param → Text
param_name no_param = []
param_name (param name n) = name

unfoldable pub param_child : Param → Option Node
param_child no_param = none
param_child (param name n) = some n

unfoldable pub match_node :
    Text → ℕ → List View → List (Text × Captured) → Node → MatchResult → MatchResult
match_node path method [] params (node cs p w hs) r = answer (find method hs) hs params r
match_node path method (seg ∷ segs) params (node cs p w hs) r =
    let with_param = params ++ (param_name p, captured seg.text) ∷ [] in
    let last = last_view seg segs in
    try_wildcard w method (span path seg.place last.place (length last.text)) params (
      try_node (param_child p) (match_node path method segs with_param)
        (try_node (find_child seg.text cs) (match_node path method segs params) r))

abbrev pub no_match : MatchResult
no_match = record { handler = none; params = []; path_exists = false }

unfoldable pub match_path : ℕ → Text → Node → MatchResult
match_path method path (node cs p w hs) =
    if same path (47 ∷ [])
    then answer (find method hs) hs [] no_match
    else match_node path method (split_path_view path) [] (node cs p w hs) no_match
