-- ===== src/Job/Queue/Executes.antt =====
-- The invariant under the actions of Execute, one at a time.
use libiouring_server.Common.{
  ℕ, ◌^◌, ◌<◌, ◌≡◌, refl, sym, ap, ◌∙◌, inl, inr, Bool, true, false, List, [], ◌∷◌, ◌++◌, none,
  some, ◌==◌, if◌then◌else◌, length, length-append, arith, append_assoc, append-nil, Bool-cases,
}
use libiouring_server.Common.Word.{sub32, sub32_lem}
use libiouring_server.Job.Queue.{
  Job, Executor, fetching, running, leaving, subtracting, deciding, nonpositive, executor_next,
  System, staying,
}
use libiouring_server.Job.Queue.Invariant.{sum_by, held, unexecuted, tokens, Inv}

order_with :
    (y : System) (e : Executor)
    → y.executors ≡ e ∷ []
    → Inv y
    → y.shared.accepted ≡ y.shared.finished ++ (unexecuted (e ∷ []) ++ y.shared.jobs)
order_with y e h v =
    v.order ∙ ap (λ (z : List Executor). y.shared.finished ++ (unexecuted z ++ y.shared.jobs)) h

-- The thread behind fetch_sub leaves exactly when no job is counted.
subtracted :
    (m : ℕ)
    → m < 2 ^ 31
    → (length (staying (if nonpositive m then none else some deciding) ++ [])
        ≡ (if m == 0 then 0 else 1))
      × (sum_by held (staying (if nonpositive m then none else some deciding) ++ []) ≡ 0)
      × (unexecuted (staying (if nonpositive m then none else some deciding) ++ []) ≡ [])
subtracted m h = elim (Bool-cases (nonpositive m)) [
  | inl z ↦ rw z (ground arith, refl, refl)
  | inr z ↦ rw z (ground arith, refl, refl)
]

subtracting-Inv :
    (y : System) (n : ℕ)
    → y.executors ≡ subtracting n ∷ []
    → tokens y ≡ 1
    → Inv y
    → Inv (record y {
      shared = record y.shared { job_count = sub32 y.shared.job_count n };
      executors =
          staying (if nonpositive (sub32 y.shared.job_count n) then none else some deciding) ++ [];
    })
subtracting-Inv y n h t v =
    let held_n = ap (sum_by held) h in
    let r =
      sub32_lem y.shared.job_count n (omega (arith, v.total, held_n)) (omega (arith, v.small)) in
    let one = ap length h in
    let after = subtracted (sub32 y.shared.job_count n) (omega (arith, r, v.small)) in
    record {
      one_token = omega (arith, t, one, after.0);
      total = omega (arith, r, v.total, held_n, after.1);
      small = omega (arith, r, v.small);
      order =
          order_with y (subtracting n) h v
          ∙ ap (λ (z : List Job). y.shared.finished ++ (z ++ y.shared.jobs)) (sym after.2);
    }

-- The one executor e goes on.
pub executor-Inv :
    (y : System) (late : Bool) (e : Executor)
    → y.executors ≡ e ∷ []
    → tokens y ≡ 1
    → Inv y
    → Inv (record y {
      shared = (executor_next late e y.shared).1;
      executors = staying (executor_next late e y.shared).0 ++ [];
    })
unfolding executor_next
executor-Inv y late fetching h t v = record {
  one_token = omega (arith, ap length h) ∙ v.one_token;
  total = omega (arith, v.total, ap (sum_by held) h);
  small = v.small;
  order =
      order_with y fetching h v
      ∙ ap (◌++◌ y.shared.finished)
          (sym (append-nil (y.shared.jobs ++ []) ∙ append-nil y.shared.jobs));
}
executor-Inv y late (running [] n) h t v = record {
  one_token = omega (arith, ap length h) ∙ v.one_token;
  total = omega (arith, v.total, ap (sum_by held) h);
  small = v.small;
  order = order_with y (running [] n) h v;
}
executor-Inv y true (running (job ∷ rest) n) h t v = record {
  one_token = omega (arith, ap length h) ∙ v.one_token;
  total = omega (arith, v.total, ap (sum_by held) h);
  small = v.small;
  order =
      order_with y (running (job ∷ rest) n) h v
      ∙ sym (append_assoc y.shared.finished (job ∷ []) ((rest ++ []) ++ y.shared.jobs));
}
executor-Inv y false (running (job ∷ rest) n) h t v = record {
  one_token = omega (arith, ap length h) ∙ v.one_token;
  total = omega (arith, v.total, ap (sum_by held) h);
  small = v.small;
  order =
      order_with y (running (job ∷ rest) n) h v
      ∙ sym (append_assoc y.shared.finished (job ∷ []) ((rest ++ []) ++ y.shared.jobs));
}
executor-Inv y late (leaving rest n) h t v = record {
  one_token = omega (arith, ap length h) ∙ v.one_token;
  total = omega (arith, v.total, ap (sum_by held) h, length-append rest y.shared.jobs);
  small = v.small;
  order =
      order_with y (leaving rest n) h v
      ∙ ap (λ (z : List Job). y.shared.finished ++ (z ++ y.shared.jobs)) (append-nil rest);
}
executor-Inv y late (subtracting n) h t v = subtracting-Inv y n h t v
executor-Inv y true deciding h t v = record {
  one_token = omega (arith, ap length h) ∙ v.one_token;
  total = omega (arith, v.total, ap (sum_by held) h);
  small = v.small;
  order = order_with y deciding h v;
}
executor-Inv y false deciding h t v = record {
  one_token = omega (arith, ap length h) ∙ v.one_token;
  total = omega (arith, v.total, ap (sum_by held) h);
  small = v.small;
  order = order_with y deciding h v;
}
