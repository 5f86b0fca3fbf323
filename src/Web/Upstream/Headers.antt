-- ===== src/Web/Upstream/Headers.antt =====
-- The loop over the header lines, on lines that are put together from headers.
use libiouring_server.Common.{
  ℕ, zero, suc, ◌+◌, ◌-◌, ◌≤◌, ◌<◌, ◌≡◌, refl, sym, ap, ◌∙◌, true, false, List, [], ◌∷◌, ◌++◌, All,
  map, some, length, length-append, take, ltb, ◌==◌, append_assoc, arith,
}
use libiouring_server.Common.Slices.{slice, take-append_exact, drop-append_exact}
use libiouring_server.Common.Texts.{Lacks, find_text_from, before-append, behind-append}
use libiouring_server.Web.Response.{crlf}
use libiouring_server.Web.Upstream.Lines.{ended_lines, IsLine, span, find_text-line}
use libiouring_server.Web.Upstream.Parse.{
  trim_front, header_of, add_headers, headers_loop, headers_from,
}

abbrev pub StartsUnblank : List ℕ → Type 0
StartsUnblank [] = Unit
StartsUnblank (c ∷ s) = (c == 32) ≡ false

-- A header that a line can hold: no end of a line in it, no colon in the name, and no blank in front
-- of the value.
abbrev pub IsHeader : List ℕ × List ℕ → Type 0
IsHeader h = Lacks 13 h.0 × Lacks 58 h.0 × Lacks 13 h.1 × StartsUnblank h.1

abbrev pub header_line : List ℕ × List ℕ → List ℕ
header_line h = h.0 ++ 58 ∷ 32 ∷ h.1

trim_front-Unblank : (v : List ℕ) → StartsUnblank v → trim_front (32 ∷ v) ≡ v
unfolding trim_front
trim_front-Unblank [] h = refl
trim_front-Unblank (c ∷ v) h = rw h refl

header_of-line : (h : List ℕ × List ℕ) → IsHeader h → header_of (header_line h) ≡ h ∷ []
unfolding header_of
header_of-line (name, value) h =
    rw (header_of, behind-append 58 name (32 ∷ value) h.1, before-append 58 name (32 ∷ value) h.1)
      (ap (λ z. (name, z) ∷ []) (trim_front-Unblank value h.3))

Lacks-both : (c : ℕ) (s t : List ℕ) → Lacks c s → Lacks c t → Lacks c (s ++ t)
Lacks-both c [] t h k = k
Lacks-both c (d ∷ s) t h k = (h.0, Lacks-both c s t h.1 k)

pub header_line-IsLine : (h : List ℕ × List ℕ) → IsHeader h → IsLine (header_line h)
header_line-IsLine (name, value) h = (
  Lacks-both 13 name (58 ∷ 32 ∷ value) h.0 (refl, (refl, h.2)),
  omega (arith, length-append name (58 ∷ 32 ∷ value)),
)

pub header_lines-IsLine :
    (hs : List (List ℕ × List ℕ)) → All IsHeader hs → All IsLine (map header_line hs)
header_lines-IsLine [] h = tt
header_lines-IsLine (x ∷ hs) h = (header_line-IsLine x h.0, header_lines-IsLine hs h.1)

find_from-line :
    (front l rest : List ℕ)
    → Lacks 13 l
    → find_text_from crlf (length front) (front ++ (l ++ 13 ∷ 10 ∷ rest))
      ≡ some (length front + length l)
unfolding find_text_from
find_from-line front l rest h =
    rw
      (
        find_text_from,
        drop-append_exact (length front) front (l ++ 13 ∷ 10 ∷ rest) refl,
        find_text-line l rest h,
      )
      refl

slice-line :
    (front l rest : List ℕ)
    → slice (length front) ((length front + length l) - length front) (front ++ (l ++ rest)) ≡ l
slice-line front l rest =
    ap (take ((length front + length l) - length front))
      (drop-append_exact (length front) front (l ++ rest) refl)
    ∙ take-append_exact ((length front + length l) - length front) l rest (omega arith)

-- One round, at the start of a line.
round :
    (n header_end : ℕ) (front l rest : List ℕ)
    → Lacks 13 l
    → length front < header_end
    → length front + length l ≤ header_end
    → headers_loop (suc n) header_end (length front) (front ++ (l ++ 13 ∷ 10 ∷ rest))
      ≡ add_headers
          (header_of l)
          (headers_loop n header_end (length front + length l + 2) (front ++ (l ++ 13 ∷ 10 ∷ rest)))
unfolding headers_loop
round n header_end front l rest h k m =
    let v = front ++ (l ++ 13 ∷ 10 ∷ rest) in
    let here : ltb (length front) header_end ≡ true = ground arith in
    let within : ltb header_end (length front + length l) ≡ false = ground arith in
    rw (headers_loop, here, find_from-line front l rest h, within)
      (ap
        (λ z. add_headers (header_of z) (headers_loop n header_end (length front + length l + 2) v))
        (slice-line front l (13 ∷ 10 ∷ rest)))

pub past_end :
    (n header_end pos : ℕ) (v : List ℕ)
    → header_end ≤ pos
    → headers_loop n header_end pos v ≡ some []
unfolding headers_loop
past_end zero header_end pos v h =
    let past : ltb pos header_end ≡ false = ground arith in rw past refl
past_end (suc n) header_end pos v h =
    let past : ltb pos header_end ≡ false = ground arith in rw past refl

regroup :
    (front l rest : List ℕ)
    → front ++ (l ++ 13 ∷ 10 ∷ rest) ≡ (front ++ (l ++ 13 ∷ 10 ∷ [])) ++ rest
regroup front l rest =
    ap (◌++◌ front) (sym (append_assoc l (13 ∷ 10 ∷ []) rest))
    ∙ sym (append_assoc front (l ++ 13 ∷ 10 ∷ []) rest)

length-regroup :
    (front l : List ℕ) → length front + length l + 2 ≡ length (front ++ (l ++ 13 ∷ 10 ∷ []))
length-regroup front l =
    omega (arith, length-append front (l ++ 13 ∷ 10 ∷ []), length-append l (13 ∷ 10 ∷ []))

span-le : (l : List ℕ) (ls : List (List ℕ)) → length l ≤ span l ls
unfolding span
span-le l [] = omega arith
span-le l (m ∷ ls) = omega arith

line_length : (h : List ℕ × List ℕ) → 0 < length (header_line h)
line_length (name, value) = omega (arith, length-append name (58 ∷ 32 ∷ value))

loop_lines :
    (n : ℕ) (front body : List ℕ) (h : List ℕ × List ℕ) (hs : List (List ℕ × List ℕ)) (e : ℕ)
    → length hs < n
    → IsHeader h
    → All IsHeader hs
    → e ≡ length front + span (header_line h) (map header_line hs)
    → headers_loop n e
        (length front)
        (front ++ ended_lines (header_line h ∷ map header_line hs) (13 ∷ 10 ∷ body))
      ≡ some (h ∷ hs)
unfolding ended_lines add_headers
loop_lines zero front body h hs e l k g d = absurd (omega arith)
loop_lines (suc n) front body h [] e l k g d =
    let line = header_line h in
    let rest = 13 ∷ 10 ∷ body in
    let whole : e ≡ length front + length line = d ∙ unfold span in refl in
    round n e front line rest (header_line-IsLine h k).0 (omega (arith, line_length h))
      (omega arith)
    ∙ ap
        (λ z.
          add_headers z
            (headers_loop n e (length front + length line + 2) (front ++ (line ++ 13 ∷ 10 ∷ rest))))
        (header_of-line h k)
    ∙ ap (add_headers (h ∷ [])) (
        past_end n e (length front + length line + 2) (front ++ (line ++ 13 ∷ 10 ∷ rest))
          (omega arith))
loop_lines (suc n) front body h (h' ∷ hs) e l k g d =
    let line = header_line h in
    let rest = ended_lines (header_line h' ∷ map header_line hs) (13 ∷ 10 ∷ body) in
    let whole : e ≡ length front + (length line + 2 + span (header_line h') (map header_line hs)) =
      d ∙ unfold span in refl in
    let front' = front ++ (line ++ 13 ∷ 10 ∷ []) in
    round n e front line rest (header_line-IsLine h k).0 (omega (arith, line_length h))
      (omega arith)
    ∙ ap
        (λ z.
          add_headers z
            (headers_loop n e (length front + length line + 2) (front ++ (line ++ 13 ∷ 10 ∷ rest))))
        (header_of-line h k)
    ∙ ap (λ (p : ℕ). add_headers (h ∷ []) (headers_loop n e p (front ++ (line ++ 13 ∷ 10 ∷ rest))))
        (length-regroup front line)
    ∙ ap (λ z. add_headers (h ∷ []) (headers_loop n e (length front') z)) (regroup front line rest)
    ∙ ap (add_headers (h ∷ [])) (
        loop_lines n front' body h' hs e (omega arith) g.0 g.1
          (omega (arith, length-regroup front line)))

count_lines :
    (h : List ℕ × List ℕ) (hs : List (List ℕ × List ℕ))
    → length hs < span (header_line h) (map header_line hs)
unfolding span
count_lines h [] = line_length h
count_lines h (h' ∷ hs) = omega (arith, count_lines h' hs)

-- All headers are read from lines that hold them.
pub headers_from-lines :
    (front body : List ℕ) (h : List ℕ × List ℕ) (hs : List (List ℕ × List ℕ)) (e : ℕ)
    → IsHeader h
    → All IsHeader hs
    → e ≡ length front + span (header_line h) (map header_line hs)
    → headers_from e
        (length front)
        (front ++ ended_lines (header_line h ∷ map header_line hs) (13 ∷ 10 ∷ body))
      ≡ h ∷ hs
unfolding headers_from
headers_from-lines front body h hs e k g d =
    rw (headers_from, loop_lines e front body h hs e (omega (arith, count_lines h hs)) k g d) refl
