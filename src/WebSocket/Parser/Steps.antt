-- ===== src/WebSocket/Parser/Steps.antt =====
-- ParseBuffer's rounds: validity, progress, and what more bytes behind the present ones change.
use libiouring_server.Common.{
  ℕ, ◌+◌, ◌*◌, ◌≤◌, ◌<◌, min, ◌≡◌, refl, ap, subst, ◌∙◌, inl, inr, List, length, take, drop, arith,
  ltb, Bool-cases, length-take, length-drop,
}
use libiouring_server.WebSocket.Parser.{
  State, header, payload_len16, payload_len64, mask_key, payload, Machine, remaining, read_header,
  read_len16, read_len64, read_mask, read_payload, next, fixed, dispatch, step,
}
use libiouring_server.WebSocket.Parser.Rounds.{
  Body, Sized, IsValid, read_header-IsValid, read_len16-IsValid, read_len64-IsValid,
  read_mask-IsValid, read_payload-IsValid, read_payload_cases, remaining_lem, finish_frame-state,
}

-- A round that reads a fixed number of bytes and goes on.
record Reads (n : ℕ) (read : Machine → List ℕ → Machine) (p : Machine) (bs : List ℕ) (q : Machine)
    (rest : List ℕ) : Type 0 where
  enough : n ≤ length bs
  result : q ≡ read p (take n bs)
  left : rest ≡ drop n bs

fixed_inv :
    (n : ℕ) (read : Machine → List ℕ → Machine) (p : Machine) (bs : List ℕ) (q : Machine)
    (rest : List ℕ)
    → fixed n read p bs ≡ next q rest
    → Reads n read p bs q rest
unfolding fixed
fixed_inv n read p bs q rest h = elim (Bool-cases (ltb (length bs) n)) [
  | inl e ↦ ground arith
  | inr e ↦ record { enough = ground arith; result = ground arith; left = ground arith }
]

-- The bytes that a round in the state Payload takes.
abbrev pub to_copy : Machine → List ℕ → ℕ
to_copy p bs = min (remaining p) (length bs)

pub to_copy_fits :
    (p : Machine) (bs : List ℕ)
    → Body p
    → p.payload_received + length (take (to_copy p bs) bs) ≤ p.current.payload_length
to_copy_fits p bs v = omega (arith, remaining_lem p v, length-take (to_copy p bs) bs, v)

dispatch-IsValid :
    (s : State) (p : Machine) (bs : List ℕ) (q : Machine) (rest : List ℕ)
    → p.state ≡ s
    → Sized s p
    → dispatch s p bs ≡ next q rest
    → IsValid q
dispatch-IsValid header p bs q rest e v h =
    rw (fixed_inv 2 read_header p bs q rest (unfold dispatch in h)).result (read_header-IsValid p _)
dispatch-IsValid payload_len16 p bs q rest e v h =
    rw (fixed_inv 2 read_len16 p bs q rest (unfold dispatch in h)).result (read_len16-IsValid p _)
dispatch-IsValid payload_len64 p bs q rest e v h =
    rw (fixed_inv 8 read_len64 p bs q rest (unfold dispatch in h)).result (read_len64-IsValid p _ e)
dispatch-IsValid mask_key p bs q rest e v h =
    rw (fixed_inv 4 read_mask p bs q rest (unfold dispatch in h)).result (read_mask-IsValid p _ v)
dispatch-IsValid payload p bs q rest e v h =
    let r : read_payload p (take (to_copy p bs) bs) ≡ q = unfold dispatch in cc in
    subst IsValid r (read_payload-IsValid p (take (to_copy p bs) bs) e v (to_copy_fits p bs v))

-- A round keeps the parser valid.
pub step-IsValid :
    (p : Machine) (bs : List ℕ) (q : Machine) (rest : List ℕ)
    → IsValid p
    → step p bs ≡ next q rest
    → IsValid q
unfolding step
step-IsValid p bs q rest v h = dispatch-IsValid p.state p bs q rest refl v h

abbrev pub weight : State → ℕ
weight payload = 1
weight _ = 0

-- What a round makes smaller.
abbrev pub measure : Machine → List ℕ → ℕ
measure p bs = 2 * length bs + weight p.state

pub weight-le : (s : State) → weight s ≤ 1
weight-le payload = omega arith
weight-le _ = omega arith

fixed-lt :
    (n : ℕ) (read : Machine → List ℕ → Machine) (p : Machine) (bs : List ℕ) (q : Machine)
    (rest : List ℕ)
    → 1 ≤ n
    → fixed n read p bs ≡ next q rest
    → measure q rest < 2 * length bs
fixed-lt n read p bs q rest h e =
    let r = fixed_inv n read p bs q rest e in
    omega (arith, r.enough, ap length r.left, length-drop n bs, weight-le q.state)

payload-lt :
    (p : Machine) (bs : List ℕ)
    → p.state ≡ payload
    → Body p
    → 0 < length bs
    → measure (read_payload p (take (to_copy p bs) bs)) (drop (to_copy p bs) bs) < 2 * length bs + 1
payload-lt p bs e v h =
    let got : length (take (to_copy p bs) bs) ≡ to_copy p bs =
      omega (arith, length-take (to_copy p bs) bs) in
    elim (read_payload_cases p (take (to_copy p bs) bs) v (to_copy_fits p bs v)) [
      | inl (f, r) ↦
          let z : weight (read_payload p (take (to_copy p bs) bs)).state ≡ 0 =
            ap (λ (t : Machine). weight t.state) r ∙ ap weight (finish_frame-state _) in
          omega (arith, z, length-drop (to_copy p bs) bs)
      | inr (f, r) ↦ omega (
        arith,
        weight-le (read_payload p (take (to_copy p bs) bs)).state,
        length-drop (to_copy p bs) bs,
        got,
        remaining_lem p v,
      )
    ]

dispatch-lt :
    (s : State) (p : Machine) (bs : List ℕ) (q : Machine) (rest : List ℕ)
    → p.state ≡ s
    → Sized s p
    → 0 < length bs
    → dispatch s p bs ≡ next q rest
    → measure q rest < 2 * length bs + weight s
dispatch-lt header p bs q rest e v l h =
    omega (arith, fixed-lt 2 read_header p bs q rest (omega arith) (unfold dispatch in h))
dispatch-lt payload_len16 p bs q rest e v l h =
    omega (arith, fixed-lt 2 read_len16 p bs q rest (omega arith) (unfold dispatch in h))
dispatch-lt payload_len64 p bs q rest e v l h =
    omega (arith, fixed-lt 8 read_len64 p bs q rest (omega arith) (unfold dispatch in h))
dispatch-lt mask_key p bs q rest e v l h =
    omega (arith, fixed-lt 4 read_mask p bs q rest (omega arith) (unfold dispatch in h))
dispatch-lt payload p bs q rest e v l h =
    let r : read_payload p (take (to_copy p bs) bs) ≡ q = unfold dispatch in cc in
    let d : drop (to_copy p bs) bs ≡ rest = unfold dispatch in cc in
    subst (λ (t : Machine). measure t rest < 2 * length bs + 1) r
      (subst
        (λ (t : List ℕ). measure (read_payload p (take (to_copy p bs) bs)) t < 2 * length bs + 1) d
        (payload-lt p bs e v l))

-- A round on some bytes makes the measure smaller.
pub step-lt :
    (p : Machine) (bs : List ℕ) (q : Machine) (rest : List ℕ)
    → IsValid p
    → 0 < length bs
    → step p bs ≡ next q rest
    → measure q rest < measure p bs
unfolding step
step-lt p bs q rest v l h = dispatch-lt p.state p bs q rest refl v l h
