-- ===== src/Web/Request/Parameters.antt =====
-- The loop over the query, and the parameters that a url is made of.
use libiouring_server.Common.{
  ℕ, zero, suc, ◌≤◌, ◌<◌, ◌≡◌, refl, ap, ◌∙◌, true, false, List, [], ◌∷◌, ◌++◌, All, none, some,
  length, length-append, arith, if◌then◌else◌, Option-cases, inl, inr,
}
use libiouring_server.Common.Maps.{find, text_eq}
use libiouring_server.Common.Texts.{
  Lacks, before, behind, before-append, behind-append, before-Lacks, behind-Lacks, length-behind,
}
use libiouring_server.Web.Request.{
  HttpRequest, value_or_empty, key_value, after_pair, pairs_loop, query_pairs, parse_query_params,
  query_param, parse_url,
}

-- What can stand in a query: no & and no = in a key, no & in a value.
abbrev pub IsWritable : List ℕ × List ℕ → Type 0
IsWritable p = Lacks 61 p.0 × Lacks 38 p.0 × Lacks 38 p.1

abbrev pub print_pair : List ℕ × List ℕ → List ℕ
print_pair p = p.0 ++ 61 ∷ p.1

-- key=value&key=value, for one pair and more.
abbrev pub print_pairs : List ℕ × List ℕ → List (List ℕ × List ℕ) → List ℕ
print_pairs p [] = print_pair p
print_pairs p (q ∷ ps) = print_pair p ++ 38 ∷ print_pairs q ps

pub Lacks-append : (c : ℕ) (s t : List ℕ) → Lacks c s → Lacks c t → Lacks c (s ++ t)
Lacks-append c [] t h k = k
Lacks-append c (d ∷ s) t h k = (h.0, Lacks-append c s t h.1 k)

pair-Lacks : (p : List ℕ × List ℕ) → IsWritable p → Lacks 38 (print_pair p)
pair-Lacks (k, v) h = Lacks-append 38 k (61 ∷ v) h.1 (refl, h.2)

key_value-print : (p : List ℕ × List ℕ) → IsWritable p → key_value (print_pair p) ≡ p
unfolding key_value value_or_empty
key_value-print (k, v) h = rw (before-append 61 k v h.0, behind-append 61 k v h.0) refl

-- One round on a text that is not empty.
round :
    (n : ℕ) (q : List ℕ)
    → 0 < length q
    → pairs_loop (suc n) q ≡ after_pair (pairs_loop n) (key_value (before 38 q)) (behind 38 q)
unfolding pairs_loop
round n [] h = absurd (omega arith)
round n (c ∷ cs) h = refl

round_more :
    (n : ℕ) (s t : List ℕ)
    → Lacks 38 s
    → pairs_loop (suc n) (s ++ 38 ∷ t) ≡ after_pair (pairs_loop n) (key_value s) (some t)
round_more n s t h =
    round n (s ++ 38 ∷ t) (omega (arith, length-append s (38 ∷ t)))
    ∙ rw (before-append 38 s t h, behind-append 38 s t h) refl

round_last :
    (n : ℕ) (s : List ℕ)
    → 0 < length s
    → Lacks 38 s
    → pairs_loop (suc n) s ≡ some (key_value s ∷ [])
unfolding after_pair
round_last n s l h = round n s l ∙ rw (before-Lacks 38 s h, behind-Lacks 38 s h) refl

loop_print :
    (n : ℕ) (p : List ℕ × List ℕ) (ps : List (List ℕ × List ℕ))
    → length ps < n
    → IsWritable p
    → All IsWritable ps
    → pairs_loop n (print_pairs p ps) ≡ some (p ∷ ps)
unfolding after_pair
loop_print zero p ps l h g = absurd (omega arith)
loop_print (suc n) (k, v) [] l h g =
    round_last n (k ++ 61 ∷ v) (omega (arith, length-append k (61 ∷ v))) (pair-Lacks (k, v) h)
    ∙ ap (λ z. some (z ∷ [])) (key_value-print (k, v) h)
loop_print (suc n) (k, v) (q ∷ ps) l h g =
    round_more n (k ++ 61 ∷ v) (print_pairs q ps) (pair-Lacks (k, v) h)
    ∙ rw (key_value-print (k, v) h) (
        ap (λ o. elim o [ none ↦ none | some later ↦ some ((k, v) ∷ later) ])
          (loop_print n q ps (omega arith) g.0 g.1))

length-print :
    (p : List ℕ × List ℕ) (ps : List (List ℕ × List ℕ)) → length ps < length (print_pairs p ps)
length-print (k, v) [] = omega (arith, length-append k (61 ∷ v))
length-print (k, v) (q ∷ ps) = omega (
  arith,
  length-append (k ++ 61 ∷ v) (38 ∷ print_pairs q ps),
  length-append k (61 ∷ v),
  length-print q ps,
)

query_pairs-print :
    (p : List ℕ × List ℕ) (ps : List (List ℕ × List ℕ))
    → IsWritable p
    → All IsWritable ps
    → query_pairs (print_pairs p ps) ≡ p ∷ ps
unfolding query_pairs
query_pairs-print p ps h g =
    rw (query_pairs, loop_print (length (print_pairs p ps)) p ps (length-print p ps) h g) refl

parse_url-print :
    (r : HttpRequest) (path q : List ℕ)
    → Lacks 63 path
    → parse_url (path ++ 63 ∷ q) r ≡ record r { path = path; query = q }
unfolding parse_url
parse_url-print r path q h =
    rw (parse_url, behind-append 63 path q h, before-append 63 path q h) refl

-- A request whose parameters have not been asked for parses them.
asked_first :
    (r : HttpRequest) (k : List ℕ)
    → r.query_parsed ≡ false
    → query_param k r
      ≡ (parse_query_params r, value_or_empty (find k (parse_query_params r).query_params))
unfolding query_param
asked_first r k e =
    ap
      (λ b.
        let parsed = if b then r else parse_query_params r in
        (parsed, value_or_empty (find k parsed.query_params)))
      e

asked_again :
    (r : HttpRequest) (k : List ℕ)
    → r.query_parsed ≡ true
    → query_param k r ≡ (r, value_or_empty (find k r.query_params))
unfolding query_param
asked_again r k e =
    ap
      (λ b.
        let parsed = if b then r else parse_query_params r in
        (parsed, value_or_empty (find k parsed.query_params)))
      e

parsed_path :
    (r : HttpRequest)
    → ((parse_query_params r).query_parsed ≡ true) × ((parse_query_params r).path ≡ r.path)
unfolding parse_query_params
parsed_path r = (refl, refl)

parsed_url :
    (r : HttpRequest) (path : List ℕ) (p : List ℕ × List ℕ) (ps : List (List ℕ × List ℕ))
    → r.query_params ≡ []
    → Lacks 63 path
    → IsWritable p
    → All IsWritable ps
    → (parse_query_params (parse_url (path ++ 63 ∷ print_pairs p ps) r)).query_params ≡ p ∷ ps
unfolding parse_query_params
parsed_url r path p ps f l h g =
    let url = parse_url-print r path (print_pairs p ps) l in
    ap (λ (z : HttpRequest). z.query_params ++ query_pairs z.query) url
    ∙ ap (λ z. z ++ query_pairs (print_pairs p ps)) f
    ∙ query_pairs-print p ps h g

-- A url that is made of a path without a question mark and of one or more parameters: ParseUrl finds
-- the path, and in a request whose parameters have not been asked for, each QueryParam then answers
-- the first value of its key, or an empty text where the key is missing; asked again for any other
-- key, the request answers from the same parameters. No key has & or = in it, no value &.
pub query_param-print :
    (r : HttpRequest) (path k j : List ℕ) (p : List ℕ × List ℕ) (ps : List (List ℕ × List ℕ))
    → r.query_parsed ≡ false
    → r.query_params ≡ []
    → Lacks 63 path
    → IsWritable p
    → All IsWritable ps
    → let asked = query_param k (parse_url (path ++ 63 ∷ print_pairs p ps) r) in
      (asked.0.path ≡ path)
      × (asked.1 ≡ value_or_empty (find k (p ∷ ps)))
      × ((query_param j asked.0).1 ≡ value_or_empty (find j (p ∷ ps)))
query_param-print r path k j p ps e f l h g =
    let u = parse_url (path ++ 63 ∷ print_pairs p ps) r in
    let url = parse_url-print r path (print_pairs p ps) l in
    let first = asked_first u k (ap (λ (z : HttpRequest). z.query_parsed) url ∙ e) in
    let again = asked_again (parse_query_params u) j (parsed_path u).0 in
    let known = parsed_url r path p ps f l h g in
    (
      ap (λ (z : HttpRequest × List ℕ). z.0.path) first
          ∙ (parsed_path u).1
          ∙ ap (λ (z : HttpRequest). z.path) url,
      ap (λ (z : HttpRequest × List ℕ). z.1) first ∙ ap (λ z. value_or_empty (find k z)) known,
      ap (λ (z : HttpRequest × List ℕ). (query_param j z.0).1) first
          ∙ ap (λ (z : HttpRequest × List ℕ). z.1) again
          ∙ ap (λ z. value_or_empty (find j z)) known,
    )

-- With as many rounds as characters the loop answers, on any text.
pub pairs_loop-ends :
    (n : ℕ) (q : List ℕ)
    → length q ≤ n
    → (pairs : List (List ℕ × List ℕ)) × (pairs_loop n q ≡ some pairs)
unfolding pairs_loop after_pair
pairs_loop-ends n [] h = ([], refl)
pairs_loop-ends zero (c ∷ cs) h = absurd (omega arith)
pairs_loop-ends (suc n) (c ∷ cs) h =
    let kv = key_value (before 38 (c ∷ cs)) in
    elim (Option-cases (behind 38 (c ∷ cs))) [
      | inl e ↦ (kv ∷ [], ap (after_pair (pairs_loop n) kv) e)
      | inr (r, e) ↦
          let (pairs, f) = pairs_loop-ends n r (omega (arith, length-behind 38 (c ∷ cs) r e)) in
          (
            kv ∷ pairs,
            ap (after_pair (pairs_loop n) kv) e
                ∙ ap (λ o. elim o [ none ↦ none | some later ↦ some (kv ∷ later) ]) f,
          )
    ]
