-- ===== src/Job/Timer/Order.antt =====
-- When jobs leave the timer.
use libiouring_server.Common.{
  ℕ, ◌+◌, ◌≤◌, ◌<◌, ◌≡◌, refl, sym, ap, subst, inl, inr, Bool, true, false, not, ◌&&◌, List, [],
  ◌∷◌, ltb, leb, if◌then◌else◌, All, Bool-cases, arith,
}
use libiouring_server.Job.Timer.{
  ReservedJob, push_reserved, reserve, Distributed, distribute_one, distribute_expired,
}

-- From the earliest to the latest.
abbrev pub Sorted : List ReservedJob → Type 0
Sorted [] = Unit
Sorted (r ∷ rs) = All (λ x. r.execute_at ≤ x.execute_at) rs × Sorted rs

All-push_reserved :
    (t : ℕ) (r : ReservedJob) (xs : List ReservedJob)
    → t ≤ r.execute_at
    → All (λ x. t ≤ x.execute_at) xs
    → All (λ x. t ≤ x.execute_at) (push_reserved r xs)
unfolding push_reserved
All-push_reserved t r [] h a = (h, tt)
All-push_reserved t r (x ∷ xs) h a = elim (Bool-cases (ltb r.execute_at x.execute_at)) [
  | inl e ↦ rw e (h, a)
  | inr e ↦ rw e (a.0, All-push_reserved t r xs h a.1)
]

All-weaken :
    (s t : ℕ) (xs : List ReservedJob)
    → s ≤ t
    → All (λ x. t ≤ x.execute_at) xs
    → All (λ x. s ≤ x.execute_at) xs
All-weaken s t [] h a = tt
All-weaken s t (x ∷ xs) h a = (omega (arith, a.0), All-weaken s t xs h a.1)

push_reserved-Sorted :
    (r : ReservedJob) (xs : List ReservedJob) → Sorted xs → Sorted (push_reserved r xs)
unfolding push_reserved
push_reserved-Sorted r [] s = (tt, tt)
push_reserved-Sorted r (x ∷ xs) s = elim (Bool-cases (ltb r.execute_at x.execute_at)) [
  | inl e ↦
      let h : r.execute_at ≤ x.execute_at = ground (arith, e) in
      rw e ((h, All-weaken r.execute_at x.execute_at xs h s.0), s)
  | inr e ↦
      let h : x.execute_at ≤ r.execute_at = ground (arith, e) in
      rw e (All-push_reserved x.execute_at r xs h s.0, push_reserved-Sorted r xs s.1)
]

-- The jobs of a list that pass a test.
unfoldable pub filtered : (ReservedJob → Bool) → List ReservedJob → List ReservedJob
filtered p [] = []
filtered p (x ∷ xs) = let rest = filtered p xs in if p x then x ∷ rest else rest

abbrev pub due : ℕ → ReservedJob → Bool
due now r = leb r.execute_at now

-- Jobs of which none is due.
none_due :
    (now t : ℕ) (p : ReservedJob → Bool) (xs : List ReservedJob)
    → now < t
    → All (λ x. t ≤ x.execute_at) xs
    → (filtered (λ x. due now x && p x) xs ≡ []) × (filtered (λ x. not (due now x)) xs ≡ xs)
unfolding filtered
none_due now t p [] h a = (refl, refl)
none_due now t p (x ∷ xs) h a =
    let late : due now x ≡ false = ground (arith, a.0) in
    let rest = none_due now t p xs h a.1 in rw late (rest.0, ap (◌∷◌ x) rest.1)

-- A distribution of a sorted queue, by tests on its jobs.
pub record Splits (now : ℕ) (alive : ℕ → Bool) (q : List ReservedJob) (d : Distributed)
    : Type 0 where
  pub pushes : d.pushed ≡ filtered (λ x. due now x && alive x.target) q
  pub loses : d.lost ≡ filtered (λ x. due now x && not (alive x.target)) q
  pub keeps : d.queue ≡ filtered (λ x. not (due now x)) q

distribute_one-Splits :
    (now : ℕ) (alive : ℕ → Bool) (r : ReservedJob) (rs : List ReservedJob) (d : Distributed)
    → due now r ≡ true
    → Splits now alive rs d
    → Splits now alive (r ∷ rs) (distribute_one (alive r.target) r d)
unfolding distribute_one filtered
distribute_one-Splits now alive r rs d e v = elim (Bool-cases (alive r.target)) [
  | inl a ↦ rw a (record {
    pushes = rw (e, a) (ap (◌∷◌ r) v.pushes);
    loses = rw (e, a) v.loses;
    keeps = rw e v.keeps;
  })
  | inr a ↦ rw a (record {
    pushes = rw (e, a) v.pushes;
    loses = rw (e, a) (ap (◌∷◌ r) v.loses);
    keeps = rw e v.keeps;
  })
]

distribute-Splits :
    (now : ℕ) (alive : ℕ → Bool) (q : List ReservedJob)
    → Sorted q
    → Splits now alive q (distribute_expired now alive q)
unfolding distribute_expired filtered
distribute-Splits now alive [] s = record { pushes = refl; loses = refl; keeps = refl }
distribute-Splits now alive (r ∷ rs) s = elim (Bool-cases (leb r.execute_at now)) [
  | inl e ↦
      rw (e, distribute_expired)
        (distribute_one-Splits now alive r rs (distribute_expired now alive rs) e
          (distribute-Splits now alive rs s.1))
  | inr e ↦
      let h : now < r.execute_at = ground (arith, e) in
      let all = none_due now r.execute_at (λ x. alive x.target) (r ∷ rs) h (omega arith, s.0) in
      let gone =
        none_due now r.execute_at (λ x. not (alive x.target)) (r ∷ rs) h (omega arith, s.0) in
      rw (e, distribute_expired)
        (record { pushes = sym all.0; loses = sym gone.0; keeps = sym all.1 })
]

filtered-All :
    (t : ℕ) (p : ReservedJob → Bool) (xs : List ReservedJob)
    → All (λ x. t ≤ x.execute_at) xs
    → All (λ x. t ≤ x.execute_at) (filtered p xs)
unfolding filtered
filtered-All t p [] a = tt
filtered-All t p (x ∷ xs) a = elim (Bool-cases (p x)) [
  | inl e ↦ rw e (a.0, filtered-All t p xs a.1)
  | inr e ↦ rw e (filtered-All t p xs a.1)
]

filtered-Sorted :
    (p : ReservedJob → Bool) (xs : List ReservedJob) → Sorted xs → Sorted (filtered p xs)
unfolding filtered
filtered-Sorted p [] s = tt
filtered-Sorted p (x ∷ xs) s = elim (Bool-cases (p x)) [
  | inl e ↦ rw e (filtered-All x.execute_at p xs s.0, filtered-Sorted p xs s.1)
  | inr e ↦ rw e (filtered-Sorted p xs s.1)
]

pub data Call : Type 0 where
  reserves : ℕ → ℕ → ℕ → ℕ → Call
  distributes : ℕ → (ℕ → Bool) → Call

pub run : List ReservedJob → List Call → List ReservedJob
run q [] = q
run q (reserves now delay target job ∷ cs) = run (reserve now delay target job q) cs
run q (distributes now alive ∷ cs) = run (distribute_expired now alive q).queue cs

run-Sorted : (q : List ReservedJob) (cs : List Call) → Sorted q → Sorted (run q cs)
unfolding run reserve
run-Sorted q [] s = s
run-Sorted q (reserves now delay target job ∷ cs) s =
    let r : ReservedJob = record { execute_at = now + delay; target = target; job = job } in
    run-Sorted (push_reserved r q) cs (push_reserved-Sorted r q s)
run-Sorted q (distributes now alive ∷ cs) s = run-Sorted (distribute_expired now alive q).queue cs (
    subst Sorted (sym (distribute-Splits now alive q s).keeps)
      (filtered-Sorted (λ x. not (due now x)) q s))

-- After any reservations and distributions on a new timer, with any clock, DistributeExpired at a
-- time now pushes exactly the jobs that are due with a living target, from the earliest to the
-- latest, throws away exactly those that are due with a dead one, and keeps exactly the rest.
pub run-distribute :
    (cs : List Call) (now : ℕ) (alive : ℕ → Bool)
    → Splits now alive (run [] cs) (distribute_expired now alive (run [] cs))
      × Sorted (distribute_expired now alive (run [] cs)).pushed
run-distribute cs now alive =
    let s = run-Sorted [] cs tt in
    let v = distribute-Splits now alive (run [] cs) s in
    (
      v,
      subst Sorted (sym v.pushes)
          (filtered-Sorted (λ x. due now x && alive x.target) (run [] cs) s),
    )
