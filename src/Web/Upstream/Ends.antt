-- ===== src/Web/Upstream/Ends.antt =====
-- The rounds of the loop over the header lines, on any bytes.
use libiouring_server.Common.{
  ℕ, zero, suc, ◌+◌, ◌-◌, ◌≤◌, ◌≡◌, refl, sym, ap, ◌∙◌, true, false, List, [], ◌∷◌, Option, none,
  some, drop, ltb, arith, Bool-cases, Option-cases, inl, inr,
}
use libiouring_server.Common.Slices.{slice}
use libiouring_server.Common.Texts.{find_text, find_text_from}
use libiouring_server.Web.Response.{crlf}
use libiouring_server.Web.Upstream.Parse.{header_of, add_headers, headers_loop}
use libiouring_server.Web.Upstream.Headers.{past_end}

find_from-le : (p v : List ℕ) (pos e : ℕ) → find_text_from p pos v ≡ some e → pos ≤ e
unfolding find_text_from
find_from-le p v pos e h = elim (Option-cases (find_text p (drop pos v))) [
  | inl n ↦ absurd (let t = sym (ap (moved pos) n) ∙ h in cc)
  | inr (k, n) ↦ later pos k e (sym (ap (moved pos) n) ∙ h)
]
  where
    moved : ℕ → Option ℕ → Option ℕ
    moved pos none = none
    moved pos (some k) = some (pos + k)

    later : (pos k e : ℕ) → some (pos + k) ≡ some e → pos ≤ e
    later pos k e h = ground arith

add_headers-some :
    (hs : List (List ℕ × List ℕ)) (o : Option (List (List ℕ × List ℕ)))
    → ((later : List (List ℕ × List ℕ)) × (o ≡ some later))
    → (all : List (List ℕ × List ℕ)) × (add_headers hs o ≡ some all)
unfolding add_headers
add_headers-some [] o h = h
add_headers-some (x ∷ hs) none (later, e) = absurd cc
add_headers-some (x ∷ hs) (some later) e = (x ∷ later, refl)

-- On any bytes the loop ends within as many rounds as there are positions in front of header_end.
pub headers_loop-ends :
    (n header_end pos : ℕ) (v : List ℕ)
    → header_end ≤ pos + n
    → (headers : List (List ℕ × List ℕ)) × (headers_loop n header_end pos v ≡ some headers)
unfolding headers_loop
headers_loop-ends zero header_end pos v h = ([], past_end zero header_end pos v (omega arith))
headers_loop-ends (suc n) header_end pos v h = elim (Bool-cases (ltb pos header_end)) [
  | inr e ↦ ([], past_end (suc n) header_end pos v (ground arith))
  | inl e ↦ elim (Option-cases (find_text_from crlf pos v)) [
    | inl f ↦ ([], stopped n header_end pos v e f)
    | inr (k, f) ↦ elim (Bool-cases (ltb header_end k)) [
      | inl g ↦ ([], beyond n header_end pos v k e f g)
      | inr g ↦
          let (all, whole) =
            add_headers-some (header_of (slice pos (k - pos) v))
              (headers_loop n header_end (k + 2) v)
              (headers_loop-ends n header_end (k + 2) v
                (omega (arith, find_from-le crlf v pos k f))) in
          (all, goes_on n header_end pos v k e f g ∙ whole)
    ]
  ]
]
  where
    stopped :
        (n header_end pos : ℕ) (v : List ℕ)
        → ltb pos header_end ≡ true
        → find_text_from crlf pos v ≡ none
        → headers_loop (suc n) header_end pos v ≡ some []
    stopped n header_end pos v e f = rw (headers_loop, e, f) refl

    beyond :
        (n header_end pos : ℕ) (v : List ℕ) (k : ℕ)
        → ltb pos header_end ≡ true
        → find_text_from crlf pos v ≡ some k
        → ltb header_end k ≡ true
        → headers_loop (suc n) header_end pos v ≡ some []
    beyond n header_end pos v k e f g = rw (headers_loop, e, f, g) refl

    goes_on :
        (n header_end pos : ℕ) (v : List ℕ) (k : ℕ)
        → ltb pos header_end ≡ true
        → find_text_from crlf pos v ≡ some k
        → ltb header_end k ≡ false
        → headers_loop (suc n) header_end pos v
          ≡ add_headers (header_of (slice pos (k - pos) v)) (headers_loop n header_end (k + 2) v)
    goes_on n header_end pos v k e f g = rw (headers_loop, e, f, g) refl
