-- ===== src/WebSocket/Parser/Rounds.antt =====
-- One round of ParseBuffer on some bytes and on those bytes with more behind them.
use Prim.Native.Nat.{bit_and}
use libiouring_server.Common.{
  ℕ, ◌+◌, ◌-◌, ◌%◌, ◌^◌, ◌≤◌, ◌<◌, ◌≡◌, refl, sym, ◌∙◌, ◌⊎◌, inl, inr, List, length, arith, ltb,
  ltb→lt, subst, get_or, ◌==◌, ==_iff, Bool-cases, length-resize,
}
use libiouring_server.Common.Word.{sub64_lem}
use libiouring_server.Common.Slices.{blit, length-blit}
use libiouring_server.WebSocket.Parser.{
  big_endian, max_payload, set_error, Reason, State, header, payload_len64, mask_key, payload,
  Machine, remaining, read_header, read_len16, read_len64, read_mask, read_payload, after_length,
  with_length, empty_frame, finish_frame,
}

-- The payload is allocated to its length, and the bytes received so far fit it.
abbrev pub Body : Machine → Type 0
Body p =
    (p.payload_received ≤ p.current.payload_length)
    × (length p.current.payload ≡ p.current.payload_length)
    × (p.current.payload_length < 2 ^ 64)

abbrev pub Sized : State → Machine → Type 0
Sized payload p = Body p
Sized mask_key p = (p.current.payload_length ≡ 0) ⊎ Body p
Sized _ p = Unit

abbrev pub IsValid : Machine → Type 0
IsValid p = Sized p.state p

after_length-IsValid : (p : Machine) → p.current.payload_length < 2 ^ 64 → IsValid (after_length p)
unfolding after_length
after_length-IsValid p h =
    ground (arith, length-resize p.current.payload_length 0 p.current.payload)

pub finish_frame-state : (p : Machine) → (finish_frame p).state ≡ header
unfolding finish_frame
finish_frame-state p = refl

Sized-eq : (p : Machine) → p.state ≡ header → IsValid p
Sized-eq p h = subst (λ (s : State). Sized s p) (sym h) tt

empty_frame-IsValid : (p : Machine) → p.current.payload_length ≡ 0 → IsValid (empty_frame p)
unfolding empty_frame
empty_frame-IsValid p h = elim (Bool-cases p.current.masked) [
  | inl e ↦ rw e (inl h)
  | inr e ↦ rw e tt
]

pub read_header-IsValid : (p : Machine) (bs : List ℕ) → IsValid (read_header p bs)
unfolding read_header with_length
read_header-IsValid p bs =
    let len7 = bit_and (get_or bs 1 0) 0x7F in
    elim (Bool-cases (ltb len7 126)) [
      | inl e ↦ elim (Bool-cases (len7 == 0)) [
        | inl z ↦ rw (e, z) (empty_frame-IsValid _ ((==_iff len7 0).0 z))
        | inr z ↦ rw (e, z) (after_length-IsValid _ (omega (arith, ltb→lt len7 126 e)))
      ]
      | inr e ↦ elim (Bool-cases (len7 == 126)) [ inl z ↦ rw (e, z) tt | inr z ↦ rw (e, z) tt ]
    ]

pub read_len16-IsValid : (p : Machine) (bs : List ℕ) → IsValid (read_len16 p bs)
unfolding read_len16 with_length
read_len16-IsValid p bs = after_length-IsValid _ (omega arith)

set_error-Sized :
    (r : Reason) (p : Machine) (t : State) → t ≡ payload_len64 → Sized t (set_error r p)
set_error-Sized r p t h = rw h tt

set_error-IsValid : (r : Reason) (p : Machine) → p.state ≡ payload_len64 → IsValid (set_error r p)
set_error-IsValid r p h = set_error-Sized r p (set_error r p).state (unfold set_error in h)

pub read_len64-IsValid :
    (p : Machine) (bs : List ℕ) → p.state ≡ payload_len64 → IsValid (read_len64 p bs)
unfolding read_len64 with_length
read_len64-IsValid p bs s = elim (Bool-cases (ltb max_payload (big_endian 0 bs))) [
  | inl e ↦ rw e (set_error-IsValid _ _ s)
  | inr e ↦ rw e (after_length-IsValid _ (ground arith))
]

pub read_mask-IsValid : (p : Machine) (bs : List ℕ) → Sized mask_key p → IsValid (read_mask p bs)
unfolding read_mask
read_mask-IsValid p bs (inl z) =
    rw ((==_iff p.current.payload_length 0).1 z) (Sized-eq _ (finish_frame-state _))
read_mask-IsValid p bs (inr v) = elim (Bool-cases (p.current.payload_length == 0)) [
  | inl z ↦ rw z (Sized-eq _ (finish_frame-state _))
  | inr z ↦ rw z v
]

-- The bytes of a payload that is not finished by them.
abbrev pub partial : Machine → List ℕ → Machine
partial p bs = record p {
  current = record p.current { payload = blit p.current.payload p.payload_received bs };
  payload_received = (p.payload_received + length bs) % 2 ^ 64;
}

pub partial-Body :
    (p : Machine) (bs : List ℕ)
    → Body p
    → p.payload_received + length bs ≤ p.current.payload_length
    → Body (partial p bs)
partial-Body p bs v h = (
  omega (arith, v),
  length-blit p.current.payload p.payload_received bs (omega (arith, v)) ∙ v.1,
  v.2,
)

pub received-partial :
    (p : Machine) (bs : List ℕ)
    → Body p
    → p.payload_received + length bs ≤ p.current.payload_length
    → (partial p bs).payload_received ≡ p.payload_received + length bs
received-partial p bs v h = omega (arith, v)

pub remaining_lem :
    (p : Machine) → Body p → remaining p ≡ p.current.payload_length - p.payload_received
remaining_lem p v = sub64_lem p.current.payload_length p.payload_received v.0 v.2

pub read_payload_cases :
    (p : Machine) (bs : List ℕ)
    → Body p
    → p.payload_received + length bs ≤ p.current.payload_length
    → ((p.payload_received + length bs ≡ p.current.payload_length)
        × (read_payload p bs ≡ finish_frame (partial p bs)))
      ⊎ ((p.payload_received + length bs < p.current.payload_length)
          × (read_payload p bs ≡ partial p bs))
unfolding read_payload
read_payload_cases p bs v h =
    elim (Bool-cases ((partial p bs).payload_received == p.current.payload_length)) [
      | inl e ↦ inl (
        omega (arith, v, (==_iff (partial p bs).payload_received p.current.payload_length).0 e),
        rw e,
      )
      | inr e ↦ inr (ground (arith, received-partial p bs v h), rw e)
    ]

pub read_payload-IsValid :
    (p : Machine) (bs : List ℕ)
    → p.state ≡ payload
    → Body p
    → p.payload_received + length bs ≤ p.current.payload_length
    → IsValid (read_payload p bs)
read_payload-IsValid p bs s v h = elim (read_payload_cases p bs v h) [
  | inl (f, e) ↦ rw e (Sized-eq _ (finish_frame-state _))
  | inr (f, e) ↦
      rw e (subst (λ (t : State). Sized t (partial p bs)) (sym s) (partial-Body p bs v h))
]
