-- ===== src/WebSocket/Parser/Feed.antt =====
-- Feed: input that comes in pieces.
use libiouring_server.Common.{
  ℕ, ◌+◌, ◌*◌, ◌<◌, ◌≡◌, refl, sym, ap, subst, ◌∙◌, inl, inr, true, false, List, [], ◌∷◌, ◌++◌,
  length, arith, Bool-cases, append-nil, append_assoc,
}
use libiouring_server.WebSocket.Parser.{Machine, WsFrameParser, parse_buffer, feed, init, initial}
use libiouring_server.WebSocket.Parser.Rounds.{IsValid}
use libiouring_server.WebSocket.Parser.Steps.{weight-le, measure}
use libiouring_server.WebSocket.Parser.Runs.{
  Runs, stop, parse_buffer-Runs, Runs-unique, Runs-append, Runs-IsValid,
}

measure-lt : (p : Machine) (bs : List ℕ) → measure p bs < 2 * length bs + 2
measure-lt p bs = omega (arith, weight-le p.state)

-- A failed parser takes no more input.
feed_failed : (p : WsFrameParser) (input : List ℕ) → p.machine.failed ≡ true → feed p input ≡ p
unfolding feed
feed_failed p input e = ground arith

feed_running :
    (p : WsFrameParser) (input : List ℕ)
    → p.machine.failed ≡ false
    → ((feed p input).machine
        ≡ (parse_buffer (2 * length (p.buffer ++ input) + 2) p.machine (p.buffer ++ input)).0)
      × ((feed p input).buffer
          ≡ (parse_buffer (2 * length (p.buffer ++ input) + 2) p.machine (p.buffer ++ input)).1)
unfolding feed
feed_running p input e = (ground arith, ground arith)

pub feed-Runs :
    (p : WsFrameParser) (input : List ℕ)
    → IsValid p.machine
    → p.machine.failed ≡ false
    → Runs p.machine (p.buffer ++ input) (feed p input).machine (feed p input).buffer
feed-Runs p input v e =
    let bytes = p.buffer ++ input in
    let eqs = feed_running p input e in
    subst (λ (m : Machine). Runs p.machine bytes m (feed p input).buffer) (sym eqs.0)
      (subst
        (λ (r : List ℕ).
          Runs p.machine bytes (parse_buffer (2 * length bytes + 2) p.machine bytes).0 r)
        (sym eqs.1)
        (parse_buffer-Runs (2 * length bytes + 2) p.machine bytes v (measure-lt p.machine bytes)))

-- What a client of the parser sees of two of them: the machines are the same, with the frames and
-- errors reported so far, and unless they have failed so are the bytes that wait.
abbrev pub Agree : WsFrameParser → WsFrameParser → Type 0
Agree p q = (p.machine ≡ q.machine) × (p.machine.failed ≡ false → p.buffer ≡ q.buffer)

Agree-eq : (p q r : WsFrameParser) → p ≡ r → q ≡ r → Agree p q
Agree-eq p q r h k =
    let e : p ≡ q = h ∙ sym k in
    (ap (λ (z : WsFrameParser). z.machine) e, λ g. ap (λ (z : WsFrameParser). z.buffer) e)

feed_two_failed :
    (p : WsFrameParser) (xs ys : List ℕ)
    → IsValid p.machine
    → p.machine.failed ≡ false
    → (feed p xs).machine.failed ≡ true
    → Agree (feed p (xs ++ ys)) (feed (feed p xs) ys)
feed_two_failed p xs ys v e f =
    let whole = feed-Runs p (xs ++ ys) v e in
    let first = feed-Runs p xs v e in
    let both =
      Runs-append ys v first
        (stop {q = (feed p xs).machine} {r = (feed p xs).buffer ++ ys} (inr (inl f)) refl refl) in
    let same = Runs-unique whole (
      subst (λ (z : List ℕ). Runs p.machine z (feed p xs).machine ((feed p xs).buffer ++ ys))
        (append_assoc p.buffer xs ys) both) in
    (
      same.0 ∙ ap (λ (z : WsFrameParser). z.machine) (sym (feed_failed (feed p xs) ys f)),
      λ g. let both_fail = ap (λ (z : Machine). z.failed) same.0 in cc,
    )

feed_two_running :
    (p : WsFrameParser) (xs ys : List ℕ)
    → IsValid p.machine
    → p.machine.failed ≡ false
    → (feed p xs).machine.failed ≡ false
    → Agree (feed p (xs ++ ys)) (feed (feed p xs) ys)
feed_two_running p xs ys v e f =
    let whole = feed-Runs p (xs ++ ys) v e in
    let first = feed-Runs p xs v e in
    let second = feed-Runs (feed p xs) ys (Runs-IsValid v first) f in
    let same = Runs-unique whole (
      subst
        (λ (z : List ℕ).
          Runs p.machine z (feed (feed p xs) ys).machine (feed (feed p xs) ys).buffer)
        (append_assoc p.buffer xs ys) (Runs-append ys v first second)) in
    (same.0, λ g. same.1)

-- For a valid parser: input that is fed in two pieces leaves the parser as if it were fed whole,
-- with the same frames and errors reported.
pub feed-append :
    (p : WsFrameParser) (xs ys : List ℕ)
    → IsValid p.machine
    → Agree (feed p (xs ++ ys)) (feed (feed p xs) ys)
feed-append p xs ys v = elim (Bool-cases p.machine.failed) [
  | inl e ↦
      Agree-eq (feed p (xs ++ ys)) (feed (feed p xs) ys) p (feed_failed p (xs ++ ys) e)
        (ap (λ (z : WsFrameParser). feed z ys) (feed_failed p xs e) ∙ feed_failed p ys e)
  | inr e ↦ elim (Bool-cases (feed p xs).machine.failed) [
    | inl f ↦ feed_two_failed p xs ys v e f
    | inr f ↦ feed_two_running p xs ys v e f
  ]
]

-- Input in any number of pieces.
pub feed_all : WsFrameParser → List (List ℕ) → WsFrameParser
feed_all p [] = p
feed_all p (xs ∷ rest) = feed_all (feed p xs) rest

abbrev pub joined : List (List ℕ) → List ℕ
joined [] = []
joined (xs ∷ rest) = xs ++ joined rest

feed-IsValid : (p : WsFrameParser) (xs : List ℕ) → IsValid p.machine → IsValid (feed p xs).machine
feed-IsValid p xs v = elim (Bool-cases p.machine.failed) [
  | inl e ↦ subst (λ (z : WsFrameParser). IsValid z.machine) (sym (feed_failed p xs e)) v
  | inr e ↦ Runs-IsValid v (feed-Runs p xs v e)
]

feed_all-joined :
    (p : WsFrameParser) (xs : List ℕ) (pieces : List (List ℕ))
    → IsValid p.machine
    → (feed_all p (xs ∷ pieces)).machine ≡ (feed p (joined (xs ∷ pieces))).machine
unfolding feed_all
feed_all-joined p xs [] v = ap (λ (z : List ℕ). (feed p z).machine) (sym (append-nil xs))
feed_all-joined p xs (ys ∷ rest) v =
    feed_all-joined (feed p xs) ys rest (feed-IsValid p xs v)
    ∙ sym (feed-append p xs (joined (ys ∷ rest)) v).0

initial-IsValid : IsValid init.machine
unfolding init initial
initial-IsValid = tt

-- However the input of a new parser is cut into pieces (at least one), the frames and errors that
-- it reports, and the state it is left in, are those of the input fed at once.
pub feed_all-init :
    (xs : List ℕ) (pieces : List (List ℕ))
    → (feed_all init (xs ∷ pieces)).machine ≡ (feed init (joined (xs ∷ pieces))).machine
feed_all-init xs pieces = feed_all-joined init xs pieces initial-IsValid
