-- ===== src/WebSocket/Parser/More.antt =====
-- A round of ParseBuffer on some bytes, and on the same bytes with more behind them.
use libiouring_server.Common.{
  ℕ, ◌+◌, ◌-◌, ◌%◌, ◌^◌, ◌≤◌, ◌<◌, min, ◌≡◌, refl, sym, ap, ◌∙◌, ◌⊎◌, inl, inr, false, List, [],
  ◌++◌, length, take, drop, arith, ltb, ◌==◌, if◌then◌else◌, Bool-cases, ℕ-cases, length-append,
  length-take,
}
use libiouring_server.Common.Slices.{
  blit, blit-blit, take-append_le, drop-append_le, take-append_add, drop-append_add, take_all,
  drop_all,
}
use libiouring_server.WebSocket.Parser.{
  State, header, payload_len16, payload_len64, mask_key, payload, Machine, remaining, read_header,
  read_len16, read_len64, read_mask, read_payload, finish_frame, Round, wait, next, fixed, dispatch,
}
use libiouring_server.WebSocket.Parser.Rounds.{
  Body, Sized, IsValid, read_payload_cases, partial, partial-Body, received-partial, remaining_lem,
}

omega_sum : (r : ℕ) (xs zs : List ℕ) → r + length xs + length zs ≡ r + length (xs ++ zs)
omega_sum r xs zs = omega (arith, length-append xs zs)

-- The same round, with the bytes behind left for the next one.
pub record Same (f : List ℕ → Round) (xs ys : List ℕ) : Type 0 where
  pub state : Machine
  pub rest : List ℕ
  pub alone : f xs ≡ next state rest
  pub joined : f (xs ++ ys) ≡ next state (rest ++ ys)

fixed-append :
    (n : ℕ) (read : Machine → List ℕ → Machine) (p : Machine) (xs ys : List ℕ)
    → (fixed n read p xs ≡ wait) ⊎ Same (fixed n read p) xs ys
unfolding fixed
fixed-append n read p xs ys = elim (Bool-cases (ltb (length xs) n)) [
  | inl e ↦ inl (rw e)
  | inr e ↦
      let enough : n ≤ length xs = ground arith in
      let more : ltb (length (xs ++ ys)) n ≡ false = ground (arith, length-append xs ys) in
      inr (record {
        state = read p (take n xs);
        rest = drop n xs;
        alone = rw e;
        joined = rw (more, take-append_le n xs ys enough, drop-append_le n xs ys enough);
      })
]

-- The payload takes all bytes and is not finished: the round goes on with those behind.
pub record Cut (p : Machine) (xs ys : List ℕ) : Type 0 where
  pub state : Machine
  pub still : state.state ≡ p.state
  pub running : state.failed ≡ p.failed
  pub alone : dispatch payload p xs ≡ next state []
  pub joined : dispatch payload p (xs ++ ys) ≡ dispatch payload state ys

min_left : (a b : ℕ) → a ≤ b → min a b ≡ a
min_left a b h = omega arith

min_right : (a b : ℕ) → b ≤ a → min a b ≡ b
min_right a b h = omega arith

payload-Same :
    (p : Machine) (xs ys : List ℕ) → remaining p ≤ length xs → Same (dispatch payload p) xs ys
unfolding dispatch
payload-Same p xs ys h =
    let a = min_left (remaining p) (length xs) h in
    let b = min_left (remaining p) (length (xs ++ ys)) (omega (arith, length-append xs ys)) in
    record {
      state = read_payload p (take (remaining p) xs);
      rest = drop (remaining p) xs;
      alone = rw a;
      joined = rw (b, take-append_le (remaining p) xs ys h, drop-append_le (remaining p) xs ys h);
    }

-- Bytes that are received in two parts are received as one.
partial-partial :
    (p : Machine) (xs zs : List ℕ)
    → Body p
    → p.payload_received + length xs + length zs ≤ p.current.payload_length
    → partial (partial p xs) zs ≡ partial p (xs ++ zs)
partial-partial p xs zs v h =
    let once = received-partial p xs v (omega arith) in
    rw (once, blit-blit p.current.payload p.payload_received xs zs (omega (arith, v)))
      (ap
        (λ (k : ℕ). record p {
          current = record p.current {
            payload = blit p.current.payload p.payload_received (xs ++ zs);
          };
          payload_received = k % 2 ^ 64;
        })
        (omega_sum p.payload_received xs zs))

-- The end of a round in the state Payload.
abbrev settle : Machine → Machine
settle q = if q.payload_received == q.current.payload_length then finish_frame q else q

read_payload-settle : (p : Machine) (bs : List ℕ) → read_payload p bs ≡ settle (partial p bs)
unfolding read_payload
read_payload-settle p bs = refl

read_payload-partial :
    (p : Machine) (xs zs : List ℕ)
    → Body p
    → p.payload_received + length xs + length zs ≤ p.current.payload_length
    → read_payload p (xs ++ zs) ≡ read_payload (partial p xs) zs
read_payload-partial p xs zs v h =
    read_payload-settle p (xs ++ zs)
    ∙ ap settle (sym (partial-partial p xs zs v h))
    ∙ sym (read_payload-settle (partial p xs) zs)

read_payload_short :
    (p : Machine) (xs : List ℕ)
    → Body p
    → p.payload_received + length xs < p.current.payload_length
    → read_payload p xs ≡ partial p xs
read_payload_short p xs v h = elim (read_payload_cases p xs v (omega arith)) [
  | inl (f, r) ↦ absurd (omega arith)
  | inr (f, r) ↦ r
]

payload-Cut : (p : Machine) (xs ys : List ℕ) → Body p → length xs < remaining p → Cut p xs ys
payload-Cut p xs ys v h =
    let rem = remaining_lem p v in
    let short : p.payload_received + length xs < p.current.payload_length = omega (arith, rem) in
    let body = partial-Body p xs v (omega arith) in
    let rem' : remaining (partial p xs) ≡ remaining p - length xs =
      omega
        (arith, rem, remaining_lem (partial p xs) body, received-partial p xs v (omega arith)) in
    let n = min (remaining (partial p xs)) (length ys) in
    let count : min (remaining p) (length (xs ++ ys)) ≡ length xs + n =
      omega (arith, rem', length-append xs ys) in
    record {
      state = partial p xs;
      still = refl;
      running = refl;
      alone =
          unfold dispatch in
          rw (
            min_right (remaining p) (length xs) (omega arith),
            take_all (length xs) xs (omega arith),
            drop_all (length xs) xs (omega arith),
            read_payload_short p xs v short,
          );
      joined =
          unfold dispatch in
          rw (
            count,
            take-append_add n xs ys,
            drop-append_add n xs ys,
            read_payload-partial p xs (take n ys) v (omega (arith, rem, rem', length-take n ys)),
          );
    }

Same-eq :
    {f g : List ℕ → Round} {xs ys : List ℕ}
    → ((bs : List ℕ) → f bs ≡ g bs)
    → Same g xs ys
    → Same f xs ys
Same-eq {xs = xs} {ys = ys} e s = record {
  state = s.state;
  rest = s.rest;
  alone = e xs ∙ s.alone;
  joined = e (xs ++ ys) ∙ s.joined;
}

-- A round on bytes waits, or is the same with more bytes behind, or is cut by their end.
abbrev pub Grows : State → Machine → List ℕ → List ℕ → Type 0
Grows s p xs ys =
    (dispatch s p xs ≡ wait) ⊎ (Same (dispatch s p) xs ys ⊎ ((s ≡ payload) × Cut p xs ys))

fixed-Grows :
    (s : State) (n : ℕ) (read : Machine → List ℕ → Machine) (p : Machine) (xs ys : List ℕ)
    → ((bs : List ℕ) → dispatch s p bs ≡ fixed n read p bs)
    → Grows s p xs ys
fixed-Grows s n read p xs ys e = elim (fixed-append n read p xs ys) [
  | inl w ↦ inl (e xs ∙ w)
  | inr r ↦ inr (inl (Same-eq e r))
]

dispatch-Grows : (s : State) (p : Machine) (xs ys : List ℕ) → Sized s p → Grows s p xs ys
dispatch-Grows header p xs ys v =
    fixed-Grows header 2 read_header p xs ys (λ bs. unfold dispatch in refl)
dispatch-Grows payload_len16 p xs ys v =
    fixed-Grows payload_len16 2 read_len16 p xs ys (λ bs. unfold dispatch in refl)
dispatch-Grows payload_len64 p xs ys v =
    fixed-Grows payload_len64 8 read_len64 p xs ys (λ bs. unfold dispatch in refl)
dispatch-Grows mask_key p xs ys v =
    fixed-Grows mask_key 4 read_mask p xs ys (λ bs. unfold dispatch in refl)
dispatch-Grows payload p xs ys v = elim (ℕ-cases (remaining p) (length xs)) [
  | inl h ↦ inr (inl (payload-Same p xs ys h))
  | inr h ↦ inr (inr (refl, payload-Cut p xs ys v h))
]

pub step-Grows : (p : Machine) (xs ys : List ℕ) → IsValid p → Grows p.state p xs ys
step-Grows p xs ys v = dispatch-Grows p.state p xs ys v
