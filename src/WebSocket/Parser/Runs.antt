-- ===== src/WebSocket/Parser/Runs.antt =====
-- The loop of ParseBuffer: enough fuel, one outcome, and bytes that come in two pieces.
use libiouring_server.Common.{
  ℕ, zero, suc, ◌<◌, ◌≡◌, ◌≢◌, refl, sym, ap, subst, ◌∙◌, ◌⊎◌, inl, inr, true, false, List, [], ◌∷◌,
  ◌++◌, arith, Bool-cases, append-nil,
}
use libiouring_server.WebSocket.Parser.{
  State, payload, Machine, Round, wait, next, dispatch, step, parse_buffer,
}
use libiouring_server.WebSocket.Parser.Rounds.{IsValid}
use libiouring_server.WebSocket.Parser.Steps.{measure, step-IsValid, step-lt}
use libiouring_server.WebSocket.Parser.More.{Cut, step-Grows}

-- The loop of ParseBuffer as a relation: it stops at the end of the bytes, on an error, or for
-- more bytes.
abbrev pub Stops : Machine → List ℕ → Type 0
Stops p bs = (bs ≡ []) ⊎ ((p.failed ≡ true) ⊎ (step p bs ≡ wait))

pub data Runs : Machine → List ℕ → Machine → List ℕ → Type 0 where
  stop :
      {p : Machine} {bs : List ℕ} {q : Machine} {r : List ℕ}
      → Stops p bs
      → p ≡ q
      → bs ≡ r
      → Runs p bs q r
  more :
      {p q t : Machine} {bs r u : List ℕ}
      → bs ≢ []
      → p.failed ≡ false
      → step p bs ≡ next q r
      → Runs q r t u
      → Runs p bs t u

Round-cases : (r : Round) → (r ≡ wait) ⊎ ((q : Machine) × (rest : List ℕ) × (r ≡ next q rest))
Round-cases wait = inl refl
Round-cases (next q rest) = inr (q, rest, refl)

parse_buffer_failed :
    (fuel b : ℕ) (p : Machine) (bs : List ℕ)
    → p.failed ≡ true
    → parse_buffer (suc fuel) p (b ∷ bs) ≡ (p, b ∷ bs)
unfolding parse_buffer
parse_buffer_failed fuel b p bs e = ground arith

parse_buffer_wait :
    (fuel b : ℕ) (p : Machine) (bs : List ℕ)
    → p.failed ≡ false
    → step p (b ∷ bs) ≡ wait
    → parse_buffer (suc fuel) p (b ∷ bs) ≡ (p, b ∷ bs)
unfolding parse_buffer
parse_buffer_wait fuel b p bs e w = ground arith

parse_buffer_next :
    (fuel b : ℕ) (p : Machine) (bs : List ℕ) (q : Machine) (rest : List ℕ)
    → p.failed ≡ false
    → step p (b ∷ bs) ≡ next q rest
    → parse_buffer (suc fuel) p (b ∷ bs) ≡ parse_buffer fuel q rest
unfolding parse_buffer
parse_buffer_next fuel b p bs q rest e w = ground arith

-- The pair that the loop returns.
abbrev pub Ends : Machine → List ℕ → Machine × List ℕ → Type 0
Ends p bs z = Runs p bs z.0 z.1

-- With fuel above the measure the loop runs to its end.
pub parse_buffer-Runs :
    (fuel : ℕ) (p : Machine) (bs : List ℕ)
    → IsValid p
    → measure p bs < fuel
    → Ends p bs (parse_buffer fuel p bs)
parse_buffer-Runs zero p bs v h = absurd (omega arith)
parse_buffer-Runs (suc fuel) p [] v h = unfold parse_buffer in stop (inl refl) refl refl
parse_buffer-Runs (suc fuel) p (b ∷ bs) v h = elim (Bool-cases p.failed) [
  | inl e ↦
      subst (Ends p (b ∷ bs)) (sym (parse_buffer_failed fuel b p bs e))
        (stop (inr (inl e)) refl refl)
  | inr e ↦ elim (Round-cases (step p (b ∷ bs))) [
    | inl w ↦
        subst (Ends p (b ∷ bs)) (sym (parse_buffer_wait fuel b p bs e w))
          (stop (inr (inr w)) refl refl)
    | inr (q, rest, n) ↦ subst (Ends p (b ∷ bs)) (sym (parse_buffer_next fuel b p bs q rest e n)) (
        more (λ z. cc) e n
          (parse_buffer-Runs fuel q rest (step-IsValid p (b ∷ bs) q rest v n)
            (omega (arith, step-lt p (b ∷ bs) q rest v (omega arith) n))))
  ]
]

not-Stops :
    (p : Machine) (bs : List ℕ) (q : Machine) (r : List ℕ)
    → bs ≢ []
    → p.failed ≡ false
    → step p bs ≡ next q r
    → ¬ Stops p bs
not-Stops p bs q r n e s (inl z) = n z
not-Stops p bs q r n e s (inr (inl z)) = cc
not-Stops p bs q r n e s (inr (inr z)) = cc

-- The loop has one outcome.
pub Runs-unique :
    {p q q' : Machine} {bs r r' : List ℕ} → Runs p bs q r → Runs p bs q' r' → (q ≡ q') × (r ≡ r')
Runs-unique (stop s a b) (stop s' a' b') = (sym a ∙ a', sym b ∙ b')
Runs-unique (stop s a b) (more n e w k) = absurd (not-Stops _ _ _ _ n e w s)
Runs-unique (more n e w k) (stop s a b) = absurd (not-Stops _ _ _ _ n e w s)
Runs-unique {q' = a} {r' = b} (more {q = q} {r = r} n e w k) (more {q = q'} {r = r'} n' e' w' k') =
    let same_q : q' ≡ q = cc in
    let same_r : r' ≡ r = cc in
    Runs-unique k (
      subst (λ (t : Machine). Runs t r a b) same_q
        (subst (λ (t : List ℕ). Runs q' t a b) same_r k'))

pub append-ne-nil : (xs ys : List ℕ) → xs ≢ [] → xs ++ ys ≢ []
append-ne-nil [] ys n = absurd (n refl)
append-ne-nil (x ∷ xs) ys n = λ e. cc

-- A run that another state makes from here.
Runs-transfer :
    {p q t : Machine} {zs ys u : List ℕ}
    → zs ≢ []
    → ys ≢ []
    → p.failed ≡ false
    → q.failed ≡ false
    → step q ys ≢ wait
    → step p zs ≡ step q ys
    → Runs q ys t u
    → Runs p zs t u
Runs-transfer n m e f w s (stop (inl z) a b) = absurd (m z)
Runs-transfer n m e f w s (stop (inr (inl z)) a b) = cc
Runs-transfer n m e f w s (stop (inr (inr z)) a b) = absurd (w z)
Runs-transfer n m e f w s (more n' e' w' k) = more n e (s ∙ w') k

-- From no bytes the loop goes nowhere.
Runs-nil : {p t : Machine} {u : List ℕ} → Runs p [] t u → (p ≡ t) × ([] ≡ u)
Runs-nil (stop s a b) = (a, b)
Runs-nil (more n e w k) = absurd (n refl)

step_payload : (q : Machine) (ys : List ℕ) → q.state ≡ payload → step q ys ≡ dispatch payload q ys
unfolding step
step_payload q ys h = ap (λ (s : State). dispatch s q ys) h

dispatch-payload-ne-wait : (q : Machine) (ys : List ℕ) → dispatch payload q ys ≢ wait
unfolding dispatch
dispatch-payload-ne-wait q ys e = cc

Runs-Cut :
    {p : Machine} {xs : List ℕ} (ys : List ℕ) {t : Machine} {u : List ℕ}
    → p.state ≡ payload
    → xs ≢ []
    → p.failed ≡ false
    → (c : Cut p xs ys) → Runs c.state ys t u
    → Runs p (xs ++ ys) t u
Runs-Cut {p} {xs} [] {t} {u} h n e c k =
    subst (λ (zs : List ℕ). Runs p zs t u) (sym (append-nil xs))
      (more n e (step_payload p xs h ∙ c.alone) k)
Runs-Cut {p} {xs} (y ∷ ys) h n e c k =
    let still = c.still ∙ h in
    Runs-transfer (append-ne-nil xs (y ∷ ys) n) (λ z. cc) e (c.running ∙ e)
      (λ w.
        dispatch-payload-ne-wait c.state (y ∷ ys) (sym (step_payload c.state (y ∷ ys) still) ∙ w))
      (step_payload p (xs ++ y ∷ ys) h ∙ c.joined ∙ sym (step_payload c.state (y ∷ ys) still)) k

next-inj : (q q' : Machine) (r r' : List ℕ) → next q r ≡ next q' r' → (q ≡ q') × (r ≡ r')
next-inj q q' r r' h = (cc, cc)

-- The loop on bytes in two pieces is the loop on all of them.
pub Runs-append :
    {p q t : Machine} {xs r u : List ℕ} (ys : List ℕ)
    → IsValid p
    → Runs p xs q r
    → Runs q (r ++ ys) t u
    → Runs p (xs ++ ys) t u
Runs-append {q = a} {t = t} {r = b} {u = u} ys v (stop {p = p} {bs = xs} s same_p same_b) l =
    subst (λ (zs : List ℕ). Runs p (zs ++ ys) t u) (sym same_b)
      (subst (λ (z : Machine). Runs z (b ++ ys) t u) (sym same_p) l)
Runs-append {q = a} {t = t} {r = b} {u = u} ys v (more {p = p} {q = q} {bs = xs} {r = r} n e w k)
      l =
    elim (step-Grows p xs ys v) [
      | inl s ↦ absurd (unfold step in cc)
      | inr (inl s) ↦
          let same = next-inj q s.state r s.rest (unfold step in (sym w ∙ s.alone)) in
          let same_q : s.state ≡ q = sym same.0 in
          let same_r : s.rest ≡ r = sym same.1 in
          more {p = p} {q = q} {r = r ++ ys} (append-ne-nil xs ys n) e
            (unfold step in (s.joined ∙ cc)) (Runs-append ys (step-IsValid p xs q r v w) k l)
      | inr (inr (h, c)) ↦
          let same = next-inj q c.state r [] (sym w ∙ step_payload p xs h ∙ c.alone) in
          let ends = Runs-nil (subst (λ (z : List ℕ). Runs q z a b) same.1 k) in
          let from_q : Runs q ([] ++ ys) t u =
            subst (λ (z : List ℕ). Runs q (z ++ ys) t u) (sym ends.1)
              (subst (λ (z : Machine). Runs z (b ++ ys) t u) (sym ends.0) l) in
          Runs-Cut ys h n e c (subst (λ (z : Machine). Runs z ys t u) same.0 from_q)
    ]

pub Runs-IsValid : {p q : Machine} {bs r : List ℕ} → IsValid p → Runs p bs q r → IsValid q
Runs-IsValid v (stop s a b) = subst IsValid a v
Runs-IsValid v (more {p = p} {q = q} {bs = bs} {r = r} n e w k) =
    Runs-IsValid (step-IsValid p bs q r v w) k
