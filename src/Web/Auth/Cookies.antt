-- ===== src/Web/Auth/Cookies.antt =====
-- The loop of ExtractCookie over the cookies of a header.
use libiouring_server.Common.{
  ℕ, zero, suc, ◌≤◌, ◌<◌, ◌≡◌, refl, sym, ap, ◌∙◌, Bool, true, false, List, [], ◌∷◌, ◌++◌, All,
  if◌then◌else◌, Option, none, some, length, length-append, arith, Option-cases, append_assoc, inl,
  inr,
}
use libiouring_server.Common.Maps.{same, same_comm, find, text_eq}
use libiouring_server.Common.Texts.{
  Lacks, before, behind, before-append, behind-append, before-Lacks, behind-Lacks, length-behind,
}
use libiouring_server.Web.Auth.{
  is_empty, skip_blanks, cut_blanks, cookie_value, after_cookie, cookie_round, cookie_loop,
  extract_cookie,
}
use libiouring_server.Web.Request.Parameters.{Lacks-append}

-- No space, = or ; in a name, and no ; in a value.
abbrev pub IsCookie : List ℕ × List ℕ → Type 0
IsCookie p = Lacks 32 p.0 × Lacks 61 p.0 × Lacks 59 p.0 × Lacks 59 p.1

abbrev pub print_cookie : List ℕ × List ℕ → List ℕ
print_cookie p = p.0 ++ 61 ∷ p.1

-- name=value; name=value, for one cookie and more.
abbrev pub print_cookies : List ℕ × List ℕ → List (List ℕ × List ℕ) → List ℕ
print_cookies p [] = print_cookie p
print_cookies p (q ∷ ps) = print_cookie p ++ 59 ∷ 32 ∷ print_cookies q ps

length-skip_blanks : (s : List ℕ) → length (skip_blanks s) ≤ length s
unfolding skip_blanks
length-skip_blanks [] = omega arith
length-skip_blanks (c ∷ cs) = ground (arith, length-skip_blanks cs)

-- With as many rounds as characters the loop answers.
pub cookie_loop-ends :
    (n : ℕ) (name q : List ℕ)
    → length q ≤ n
    → (found : Option (List ℕ)) × (cookie_loop n name q ≡ some found)
unfolding cookie_loop cookie_round after_cookie
cookie_loop-ends n name [] h = (none, refl)
cookie_loop-ends zero name (c ∷ cs) h = absurd (omega arith)
cookie_loop-ends (suc n) name (c ∷ cs) h =
    let q = skip_blanks (c ∷ cs) in
    elim (Option-cases (cookie_value name (before 59 q))) [
      | inr (v, e) ↦ (some v, ap (λ o. after_cookie (cookie_loop n name) o (behind 59 q)) e)
      | inl e ↦ elim (Option-cases (behind 59 q)) [
        | inl f ↦ (
          none,
          ap (λ o. after_cookie (cookie_loop n name) o (behind 59 q)) e
              ∙ ap (λ o. after_cookie (cookie_loop n name) none o) f,
        )
        | inr (r, f) ↦
            let (found, g) =
              cookie_loop-ends n name r
                (omega (arith, length-behind 59 q r f, length-skip_blanks (c ∷ cs))) in
            (
              found,
              ap (λ o. after_cookie (cookie_loop n name) o (behind 59 q)) e
                  ∙ ap (λ o. after_cookie (cookie_loop n name) none o) f
                  ∙ g,
            )
      ]
    ]

skip_blanks-key : (k r : List ℕ) → Lacks 32 k → skip_blanks (k ++ 61 ∷ r) ≡ k ++ 61 ∷ r
unfolding skip_blanks
skip_blanks-key [] r h = refl
skip_blanks-key (c ∷ k) r h = rw h.0 refl

cut_blanks-Lacks : (k : List ℕ) → Lacks 32 k → cut_blanks k ≡ k
unfolding cut_blanks is_empty
cut_blanks-Lacks [] h = refl
cut_blanks-Lacks (c ∷ []) h = rw h.0 refl
cut_blanks-Lacks (c ∷ d ∷ k) h = rw (cut_blanks-Lacks (d ∷ k) h.1) refl

cookie_value-print :
    (name k v : List ℕ)
    → Lacks 32 k
    → Lacks 61 k
    → cookie_value name (k ++ 61 ∷ v) ≡ (if same name k then some v else none)
unfolding cookie_value
cookie_value-print name k v h g =
    rw (cookie_value, behind-append 61 k v g, before-append 61 k v g, cut_blanks-Lacks k h)
      (ap (λ b. if b then some v else none) (same_comm k name))

round :
    (n : ℕ) (name q : List ℕ)
    → 0 < length q
    → cookie_loop (suc n) name q ≡ cookie_round (cookie_loop n name) name (skip_blanks q)
unfolding cookie_loop
round n name [] h = absurd (omega arith)
round n name (c ∷ cs) h = refl

round_more :
    (go : List ℕ → Option (Option (List ℕ))) (name s t : List ℕ)
    → Lacks 59 s
    → cookie_round go name (s ++ 59 ∷ t) ≡ after_cookie go (cookie_value name s) (some t)
unfolding cookie_round
round_more go name s t h = rw (before-append 59 s t h, behind-append 59 s t h) refl

round_last :
    (go : List ℕ → Option (Option (List ℕ))) (name s : List ℕ)
    → Lacks 59 s
    → cookie_round go name s ≡ after_cookie go (cookie_value name s) none
unfolding cookie_round
round_last go name s h = rw (before-Lacks 59 s h, behind-Lacks 59 s h) refl

after_cookie-last :
    (go : List ℕ → Option (Option (List ℕ))) (b : Bool) (v : List ℕ)
    → after_cookie go (if b then some v else none) none ≡ some (if b then some v else none)
unfolding after_cookie
after_cookie-last go true v = refl
after_cookie-last go false v = refl

after_cookie-more :
    (go : List ℕ → Option (Option (List ℕ))) (b : Bool) (v t : List ℕ) (o : Option (List ℕ))
    → go t ≡ some o
    → after_cookie go (if b then some v else none) (some t) ≡ some (if b then some v else o)
unfolding after_cookie
after_cookie-more go true v t o h = refl
after_cookie-more go false v t o h = h

cookie-Lacks : (k v : List ℕ) → IsCookie (k, v) → Lacks 59 (k ++ 61 ∷ v)
cookie-Lacks k v h = Lacks-append 59 k (61 ∷ v) h.2 (refl, h.3)

skip_blanks-print :
    (p : List ℕ × List ℕ) (ps : List (List ℕ × List ℕ))
    → IsCookie p
    → skip_blanks (print_cookies p ps) ≡ print_cookies p ps
skip_blanks-print (k, v) [] h = skip_blanks-key k v h.0
skip_blanks-print (k, v) (q ∷ ps) h =
    let more = 59 ∷ 32 ∷ print_cookies q ps in
    ap skip_blanks (append_assoc k (61 ∷ v) more)
    ∙ skip_blanks-key k (v ++ more) h.0
    ∙ sym (append_assoc k (61 ∷ v) more)

loop_print :
    (n : ℕ) (name t : List ℕ) (p : List ℕ × List ℕ) (ps : List (List ℕ × List ℕ))
    → length ps < n
    → 0 < length t
    → skip_blanks t ≡ print_cookies p ps
    → IsCookie p
    → All IsCookie ps
    → cookie_loop n name t ≡ some (find name (p ∷ ps))
unfolding find
loop_print zero name t p ps l e w h g = absurd (omega arith)
loop_print (suc n) name t (k, v) [] l e w h g =
    round n name t e
    ∙ ap (cookie_round (cookie_loop n name) name) w
    ∙ round_last (cookie_loop n name) name (k ++ 61 ∷ v) (cookie-Lacks k v h)
    ∙ ap (λ o. after_cookie (cookie_loop n name) o none) (cookie_value-print name k v h.0 h.1)
    ∙ after_cookie-last (cookie_loop n name) (same name k) v
loop_print (suc n) name t (k, v) (q ∷ ps) l e w h g =
    let t' = 32 ∷ print_cookies q ps in
    round n name t e
    ∙ ap (cookie_round (cookie_loop n name) name) w
    ∙ round_more (cookie_loop n name) name (k ++ 61 ∷ v) t' (cookie-Lacks k v h)
    ∙ ap (λ o. after_cookie (cookie_loop n name) o (some t')) (cookie_value-print name k v h.0 h.1)
    ∙ after_cookie-more (cookie_loop n name) (same name k) v t' (find name (q ∷ ps))
        (loop_print n name t' q ps (omega arith) (omega arith) (blank q ps g.0) g.0 g.1)
  where
    blank :
        (q : List ℕ × List ℕ) (ps : List (List ℕ × List ℕ))
        → IsCookie q
        → skip_blanks (32 ∷ print_cookies q ps) ≡ print_cookies q ps
    blank q ps h = unfold skip_blanks in skip_blanks-print q ps h

length-print :
    (p : List ℕ × List ℕ) (ps : List (List ℕ × List ℕ)) → length ps < length (print_cookies p ps)
length-print (k, v) [] = omega (arith, length-append k (61 ∷ v))
length-print (k, v) (q ∷ ps) = omega (
  arith,
  length-append (k ++ 61 ∷ v) (59 ∷ 32 ∷ print_cookies q ps),
  length-append k (61 ∷ v),
  length-print q ps,
)

extract_loop :
    (q name : List ℕ) (found : Option (List ℕ))
    → 0 < length q
    → cookie_loop (length q) name q ≡ some found
    → extract_cookie q name ≡ found
unfolding extract_cookie is_empty
extract_loop [] name found h e = absurd (omega arith)
extract_loop (c ∷ cs) name found h e = rw e refl

-- From a header that is made of one or more cookies, ExtractCookie reads the value of the first one
-- with the name, or none where no cookie has it. A cookie's name has no space, = or ; in it, and its
-- value no semicolon.
pub extract_cookie-print :
    (name : List ℕ) (p : List ℕ × List ℕ) (ps : List (List ℕ × List ℕ))
    → IsCookie p
    → All IsCookie ps
    → extract_cookie (print_cookies p ps) name ≡ find name (p ∷ ps)
extract_cookie-print name p ps h g =
    let text = print_cookies p ps in
    extract_loop text name (find name (p ∷ ps)) (omega (arith, length-print p ps)) (
      loop_print (length text) name text p ps (length-print p ps) (omega (arith, length-print p ps))
        (skip_blanks-print p ps h) h g)
