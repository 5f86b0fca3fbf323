-- ===== src/Buffer/Recv/Refine.antt =====
-- RecvBuffer.h under any sequence of Append and OnRead calls.
use libiouring_server.Common.{
  ℕ, ◌+◌, ◌^◌, ◌≤◌, ◌<◌, ◌≡◌, refl, sym, ap, subst, ◌∙◌, inl, inr, List, [], ◌∷◌, ◌++◌, drop,
  length, arith, leb, if◌then◌else◌, Option, none, some, length-replicate, false, le→leb,
}
use libiouring_server.Buffer.Recv.{
  RecvBuffer, init, read_region, Appended, stored, exhausted, fault, append, on_read,
}
use libiouring_server.Buffer.Recv.Laws.{IsValid, contents, read_region-eq-contents}
use libiouring_server.Buffer.Recv.Append.{append_lem, on_read_lem}

pub data Call : Type 0 where
  appends : List ℕ → Call
  reads : ℕ → Call

-- A refused Append leaves the buffer as it was left; `none` is a write out of bounds.
after : Appended → Option RecvBuffer
after (stored b) = some b
after (exhausted b) = some b
after fault = none

step : RecvBuffer → Call → Option RecvBuffer
unfolding after
step b (appends bytes) = after (append b bytes)
step b (reads n) = some (on_read b n)

-- The calls of a client, with the span that ReadRegion then returns.
pub run : RecvBuffer → List Call → Option (List ℕ)
run b [] = some (read_region b)
run b (c ∷ cs) = elim (step b c) [ none ↦ none | some b' ↦ run b' cs ]

-- The specification: a queue of bytes with a capacity.
unfoldable pub queue_step : ℕ → List ℕ → Call → List ℕ
queue_step cap q (appends bytes) = if leb (length q + length bytes) cap then q ++ bytes else q
queue_step cap q (reads n) = drop n q

pub queue_run : ℕ → List ℕ → List Call → List ℕ
queue_run cap q [] = q
queue_run cap q (c ∷ cs) = queue_run cap (queue_step cap q c) cs

-- A client appends blocks of less than 2 ^ 32 bytes and reads no more than is queued.
abbrev pub Fits : List ℕ → Call → Type 0
Fits q (appends bytes) = length bytes < 2 ^ 32
Fits q (reads n) = n ≤ length q

abbrev pub Admissible : ℕ → List ℕ → List Call → Type 0
Admissible cap q [] = Unit
Admissible cap q (c ∷ cs) = Fits q c × Admissible cap (queue_step cap q c) cs

leb-lt : (a b : ℕ) → b < a → leb a b ≡ false
leb-lt a b h = ground arith

capacity-on_read : (b : RecvBuffer) (n : ℕ) → (on_read b n).capacity ≡ b.capacity
unfolding on_read
capacity-on_read b n = ground arith

-- One call on a valid buffer does what the queue does.
step_lem :
    (b : RecvBuffer) (cap : ℕ) (c : Call)
    → IsValid b
    → b.capacity ≡ cap
    → Fits (contents b) c
    → (b' : RecvBuffer) × (step b c ≡ some b')
      × IsValid b'
      × (contents b' ≡ queue_step cap (contents b) c)
      × (b'.capacity ≡ cap)
unfolding step queue_step
step_lem b cap (appends bytes) v e h = elim (append_lem b bytes v h) [
  | inl (f, (b', s, v', k, c)) ↦ (
    b',
    ap after s,
    v',
    rw (le→leb (length (contents b) + length bytes) cap (omega (arith, f, e))) k,
    c ∙ e,
  )
  | inr (f, (b', s, v', k, c)) ↦ (
    b',
    ap after s,
    v',
    rw (leb-lt (length (contents b) + length bytes) cap (omega (arith, f, e))) k,
    c ∙ e,
  )
]
step_lem b cap (reads n) v e h =
    let r = on_read_lem b n v h in (on_read b n, refl, r.0, r.1, capacity-on_read b n ∙ e)

run_lem :
    (b : RecvBuffer) (cap : ℕ) (cs : List Call)
    → IsValid b
    → b.capacity ≡ cap
    → Admissible cap (contents b) cs
    → run b cs ≡ some (queue_run cap (contents b) cs)
unfolding run queue_run
run_lem b cap [] v e h = ap some (read_region-eq-contents b v)
run_lem b cap (c ∷ cs) v e h =
    let (b', s, v', k, e') = step_lem b cap c v e h.0 in
    rw (s, run)
      (run_lem b' cap cs v' e' (subst (λ (q : List ℕ). Admissible cap q cs) (sym k) h.1)
        ∙ ap (λ (q : List ℕ). some (queue_run cap q cs)) k)

init-IsValid : (size : ℕ) → size < 2 ^ 32 → IsValid (init size)
unfolding init
init-IsValid size h = record {
  ordered = omega arith;
  inside = omega arith;
  allocated = length-replicate size 0;
  small = h;
}

-- For a capacity below 2 ^ 32 and any calls in which a block has less than 2 ^ 32 bytes and
-- no more is read than is queued: from a new buffer the calls run without a write out of bounds,
-- and ReadRegion then shows exactly what a queue of that capacity holds, which takes a block
-- whole when it fits and refuses it otherwise.
pub run-init :
    (cap : ℕ) (cs : List Call)
    → cap < 2 ^ 32
    → Admissible cap [] cs
    → run (init cap) cs ≡ some (queue_run cap [] cs)
unfolding init
run-init size cs h a = run_lem (init size) size cs (init-IsValid size h) (refl) a
