-- ===== src/Web/Upstream/Lines.antt =====
-- Texts made of lines: where the searches of ParseResponse stop in them.
use libiouring_server.Common.{
  ℕ, suc, ◌+◌, ◌<◌, ◌≡◌, refl, ap, ◌∙◌, true, false, List, [], ◌∷◌, ◌++◌, All, Option, none, some,
  length, ◌==◌, arith,
}
use libiouring_server.Common.Texts.{Lacks, find_text, starts_with}
use libiouring_server.Web.Response.{crlf}
use libiouring_server.Web.Upstream.Parse.{header_terminator}

-- Each line, and the end of a line behind it.
unfoldable pub ended_lines : List (List ℕ) → List ℕ → List ℕ
ended_lines [] rest = rest
ended_lines (l ∷ ls) rest = l ++ 13 ∷ 10 ∷ ended_lines ls rest

-- A line with something in it, and no carriage return.
abbrev pub IsLine : List ℕ → Type 0
IsLine l = Lacks 13 l × (0 < length l)

-- From the start of the first line to the end of the last, which has no end of line here.
unfoldable pub span : List ℕ → List (List ℕ) → ℕ
span l [] = length l
span l (m ∷ ls) = length l + 2 + span m ls

abbrev one_more : Option ℕ → Option ℕ
one_more none = none
one_more (some j) = some (suc j)

shifted : ℕ → Option ℕ → Option ℕ
shifted k none = none
shifted k (some j) = some (k + j)

shifted-suc : (k : ℕ) (o : Option ℕ) → one_more (shifted k o) ≡ shifted (suc k) o
unfolding shifted
shifted-suc k none = refl
shifted-suc k (some j) = ap some (omega arith)

shifted_zero : (o : Option ℕ) → o ≡ shifted 0 o
unfolding shifted
shifted_zero none = refl
shifted_zero (some j) = ap some (omega arith)

not_start : (c : ℕ) (p s : List ℕ) → (c == 13) ≡ false → starts_with (13 ∷ p) (c ∷ s) ≡ false
unfolding starts_with
not_start c p s h = ground arith

next_place :
    (c : ℕ) (p s : List ℕ)
    → starts_with p (c ∷ s) ≡ false
    → find_text p (c ∷ s) ≡ one_more (find_text p s)
unfolding find_text
next_place c p s h = rw h refl

-- A text that starts with a carriage return is searched for behind a text without one.
find_text-behind :
    (p l rest : List ℕ)
    → Lacks 13 l
    → find_text (13 ∷ p) (l ++ rest) ≡ shifted (length l) (find_text (13 ∷ p) rest)
find_text-behind p [] rest h = shifted_zero (find_text (13 ∷ p) rest)
find_text-behind p (c ∷ l) rest h =
    next_place c (13 ∷ p) (l ++ rest) (not_start c p (l ++ rest) h.0)
    ∙ ap one_more (find_text-behind p l rest h.1)
    ∙ shifted-suc (length l) (find_text (13 ∷ p) rest)

found_here : (p s : List ℕ) → starts_with p s ≡ true → find_text p s ≡ some 0
unfolding find_text
found_here p [] h = rw h refl
found_here p (c ∷ s) h = rw h refl

-- The end of the first line.
pub find_text-line :
    (l rest : List ℕ) → Lacks 13 l → find_text crlf (l ++ 13 ∷ 10 ∷ rest) ≡ some (length l)
unfolding shifted
find_text-line l rest h =
    find_text-behind (10 ∷ []) l (13 ∷ 10 ∷ rest) h
    ∙ ap (shifted (length l)) (found_here crlf (13 ∷ 10 ∷ rest) (unfold starts_with in refl))
    ∙ ap some (omega arith)

-- Two ends of a line in a row are not where another line follows.
more_lines :
    (m rest : List ℕ)
    → IsLine m
    → find_text header_terminator (13 ∷ 10 ∷ (m ++ rest))
      ≡ shifted 2 (find_text header_terminator (m ++ rest))
unfolding shifted
more_lines [] rest h = absurd (omega (arith, h.1))
more_lines (c ∷ m) rest h =
    let s = c ∷ m ++ rest in
    next_place 13 header_terminator (10 ∷ s) (unfold starts_with in let e = h.0.0 in ground arith)
    ∙ ap one_more (next_place 10 header_terminator s (unfold starts_with in refl))
    ∙ twice (find_text header_terminator s)
  where
    twice : (o : Option ℕ) → one_more (one_more o) ≡ shifted 2 o
    twice none = refl
    twice (some j) = ap some (omega arith)

-- The empty line behind the last line.
pub find_text-lines :
    (l : List ℕ) (ls : List (List ℕ)) (body : List ℕ)
    → IsLine l
    → All IsLine ls
    → find_text header_terminator (ended_lines (l ∷ ls) (13 ∷ 10 ∷ body)) ≡ some (span l ls)
unfolding ended_lines span shifted
find_text-lines l [] body h g =
    find_text-behind (10 ∷ 13 ∷ 10 ∷ []) l (13 ∷ 10 ∷ 13 ∷ 10 ∷ body) h.0
    ∙ ap (shifted (length l))
        (found_here header_terminator (13 ∷ 10 ∷ 13 ∷ 10 ∷ body) (unfold starts_with in refl))
    ∙ ap some (omega arith)
find_text-lines l (m ∷ ls) body h g =
    let rest = 13 ∷ 10 ∷ ended_lines ls (13 ∷ 10 ∷ body) in
    find_text-behind (10 ∷ 13 ∷ 10 ∷ []) l (13 ∷ 10 ∷ (m ++ rest)) h.0
    ∙ ap (shifted (length l)) (more_lines m rest g.0)
    ∙ ap (λ o. shifted (length l) (shifted 2 o)) (find_text-lines m ls body g.0 g.1)
    ∙ ap some (omega arith)
