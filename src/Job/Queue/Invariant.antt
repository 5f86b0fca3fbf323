-- ===== src/Job/Queue/Invariant.antt =====
-- The invariant of a queue under its threads: who is to execute it.
use mathlib.Core.Path.{ap₂}
use libiouring_server.Common.{
  ℕ, ◌+◌, ◌^◌, ◌≤◌, ◌<◌, ◌≡◌, refl, ap, ◌∙◌, inl, inr, List, [], ◌∷◌, ◌++◌, ◌==◌, if◌then◌else◌,
  length, length-append, arith, append_assoc, Bool-cases,
}
use libiouring_server.Common.Word.{add32_lem}
use libiouring_server.Job.Queue.{
  Job, Pusher, counted, appended, Executor, fetching, running, leaving, subtracting, deciding, push,
  pusher_next, System, staying,
}

abbrev pub sum_by {ℓ} : {A : Type ℓ} → (A → ℕ) → List A → ℕ
sum_by w [] = 0
sum_by w (x ∷ xs) = w x + sum_by w xs

sum_by-append {ℓ} :
    {A : Type ℓ} (w : A → ℕ) (xs ys : List A) → sum_by w (xs ++ ys) ≡ sum_by w xs + sum_by w ys
sum_by-append w [] ys = omega arith
sum_by-append w (x ∷ xs) ys = omega (arith, sum_by-append w xs ys)

-- A thread in Push that will register the queue.
abbrev pub registers : Pusher → ℕ
registers (counted prev job) = if prev == 0 then 1 else 0
registers (appended prev) = if prev == 0 then 1 else 0

-- A job that is counted and not in the queue yet.
abbrev pub on_the_way : Pusher → ℕ
on_the_way (counted prev job) = 1
on_the_way (appended prev) = 0

-- The jobs that a thread in Execute has taken out and not subtracted yet.
abbrev pub held : Executor → ℕ
held fetching = 0
held (running rest n) = n + length rest
held (leaving rest n) = n + length rest
held (subtracting n) = n
held deciding = 0

-- Those of them that are not executed.
abbrev pub unexecuted : List Executor → List Job
unexecuted [] = []
unexecuted (running rest n ∷ es) = rest ++ unexecuted es
unexecuted (leaving rest n ∷ es) = rest ++ unexecuted es
unexecuted (_ ∷ es) = unexecuted es

abbrev pub tokens : System → ℕ
tokens y = y.shared.registered + sum_by registers y.pushers + length y.executors

pub record Inv (y : System) : Type 0 where
  pub one_token : tokens y ≡ (if y.shared.job_count == 0 then 0 else 1)
  pub total :
      y.shared.job_count
      ≡ sum_by on_the_way y.pushers + length y.shared.jobs + sum_by held y.executors
  pub small : y.shared.job_count < 2 ^ 31
  pub order : y.shared.accepted ≡ y.shared.finished ++ (unexecuted y.executors ++ y.shared.jobs)

pub tokens-le : (y : System) → Inv y → tokens y ≤ 1
tokens-le y v = ground (arith, v.one_token)

pub push-Inv :
    (y : System) (job : Job)
    → y.shared.job_count + 1 < 2 ^ 31
    → Inv y
    → Inv (record y { shared = (push job y.shared).1; pushers = (push job y.shared).0 ∷ y.pushers })
unfolding push
push-Inv y job h v =
    let next = add32_lem y.shared.job_count 1 (omega arith) in
    record {
      one_token = ground (arith, next);
      total = omega (arith, next, v.total);
      small = omega (arith, next);
      order = v.order;
    }

-- A sum over threads, with one of them set apart.
sum_split {ℓ} :
    {A : Type ℓ} (w : A → ℕ) {ys : List A} (before : List A) (x : A) (after : List A)
    → ys ≡ before ++ x ∷ after
    → sum_by w ys ≡ sum_by w before + (w x + sum_by w after)
sum_split w before x after e = ap (sum_by w) e ∙ sum_by-append w before (x ∷ after)

pub pusher-Inv :
    (y : System) (before : List Pusher) (p : Pusher) (after : List Pusher)
    → y.pushers ≡ before ++ p ∷ after
    → Inv y
    → Inv (record y {
      shared = (pusher_next p y.shared).1;
      pushers = before ++ (staying (pusher_next p y.shared).0 ++ after);
    })
unfolding pusher_next
pusher-Inv y before (counted prev job) after e v = record {
  one_token =
      let a = sum_split registers before (counted prev job) after e in
      let b = sum_by-append registers before (appended prev ∷ after) in
      (omega (arith, a, b) ∙ v.one_token);
  total =
      let a = sum_split on_the_way before (counted prev job) after e in
      let b = sum_by-append on_the_way before (appended prev ∷ after) in
      omega (arith, a, b, v.total, length-append y.shared.jobs (job ∷ []));
  small = v.small;
  order =
      ap (λ (z : List Job). z ++ job ∷ []) v.order
      ∙ append_assoc y.shared.finished (unexecuted y.executors ++ y.shared.jobs) (job ∷ [])
      ∙ ap (◌++◌ y.shared.finished)
          (append_assoc (unexecuted y.executors) y.shared.jobs (job ∷ []));
}
pusher-Inv y before (appended prev) after e v =
    let a = sum_split registers before (appended prev) after e in
    let b = sum_by-append registers before after in
    let c = sum_split on_the_way before (appended prev) after e in
    let d = sum_by-append on_the_way before after in
    elim (Bool-cases (prev == 0)) [
      | inl z ↦ rw z (record {
        one_token =
            let one : registers (appended prev) ≡ 1 = rw z in
            (omega (arith, a, b, one) ∙ v.one_token);
        total = omega (arith, c, d, v.total);
        small = v.small;
        order = v.order;
      })
      | inr z ↦ rw z (record {
        one_token =
            let none_yet : registers (appended prev) ≡ 0 = rw z in
            (omega (arith, a, b, none_yet) ∙ v.one_token);
        total = omega (arith, c, d, v.total);
        small = v.small;
        order = v.order;
      })
    ]

length-eq-zero {ℓ} : {A : Type ℓ} (xs : List A) → length xs ≡ 0 → xs ≡ []
length-eq-zero [] h = refl
length-eq-zero (x ∷ xs) h = absurd (omega arith)

-- No two threads are in Execute, and nobody will register the queue while one is.
pub alone :
    (y : System) (before : List Executor) (e : Executor) (after : List Executor)
    → y.executors ≡ before ++ e ∷ after
    → Inv y
    → (before ≡ []) × (after ≡ []) × (y.executors ≡ e ∷ []) × (tokens y ≡ 1)
alone y before e after h v =
    let n = ap length h ∙ length-append before (e ∷ after) in
    let b = length-eq-zero before (omega (arith, n, tokens-le y v)) in
    let a = length-eq-zero after (omega (arith, n, tokens-le y v)) in
    (b, a, h ∙ ap₂ (λ (p q : List Executor). p ++ e ∷ q) b a, omega (arith, n, tokens-le y v))
