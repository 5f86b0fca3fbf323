-- ===== src/Job/Queue/Order.antt =====
-- What the interleavings keep: executors, and the order of the jobs.
use libiouring_server.Common.{
  ℕ, suc, ◌+◌, ◌≤◌, ◌≡◌, refl, sym, ap, subst, ◌∙◌, List, [], ◌∷◌, ◌++◌, length, Bool, arith,
  append-nil,
}
use libiouring_server.Job.Queue.{
  Executor, fetching, executor_next, System, init, staying, Step, pushes, push_goes_on, executes,
  execute_goes_on, Reach, start, later,
}
use libiouring_server.Job.Queue.Executes.{executor-Inv}
use libiouring_server.Job.Queue.Invariant.{
  Inv, tokens-le, push-Inv, pusher-Inv, alone, unexecuted, sum_by, registers,
}

-- Whichever thread goes on in Execute.
goes_on-Inv :
    (y : System) (late : Bool) (before : List Executor) (e : Executor) (after : List Executor)
    → y.executors ≡ before ++ e ∷ after
    → Inv y
    → Inv (record y {
      shared = (executor_next late e y.shared).1;
      executors = before ++ (staying (executor_next late e y.shared).0 ++ after);
    })
goes_on-Inv y late before e after h v =
    let a = alone y before e after h v in
    let at : List Executor → List Executor → System = λ p q. record y {
      shared = (executor_next late e y.shared).1;
      executors = p ++ (staying (executor_next late e y.shared).0 ++ q);
    } in
    subst (λ (p : List Executor). Inv (at p after)) (sym a.0)
      (subst (λ (q : List Executor). Inv (at [] q)) (sym a.1) (executor-Inv y late e a.2 a.3 v))

executes-Inv :
    (y : System) (n : ℕ)
    → y.shared.registered ≡ suc n
    → Inv y
    → Inv (record y {
      shared = record y.shared { registered = n };
      executors = fetching ∷ y.executors;
    })
executes-Inv y n h v = record {
  one_token = omega (arith, h) ∙ v.one_token;
  total = omega (arith, v.total);
  small = v.small;
  order = v.order;
}

Step-Inv : {y z : System} → Step y z → Inv y → Inv z
Step-Inv {y} (pushes job h e) v = subst Inv (sym e) (push-Inv y job h v)
Step-Inv {y} (push_goes_on before p after h e) v =
    subst Inv (sym e) (pusher-Inv y before p after h v)
Step-Inv {y} (executes n h e) v = subst Inv (sym e) (executes-Inv y n h v)
Step-Inv {y} (execute_goes_on late before x after h e) v =
    subst Inv (sym e) (goes_on-Inv y late before x after h v)

pub Reach-Inv : {y : System} → Reach y → Inv y
unfolding init
Reach-Inv start = record { one_token = refl; total = refl; small = omega arith; order = refl }
Reach-Inv (later r s) = Step-Inv s (Reach-Inv r)

-- In every state the threads can reach, at most one of them is in Execute, the queue is in the
-- global queue at most once, and never while a thread is in Execute.
pub exclusive : (y : System) → Reach y → y.shared.registered + length y.executors ≤ 1
exclusive y r = omega (arith, tokens-le y (Reach-Inv r))

-- In every state the threads can reach, the jobs that were called, then those that are taken out
-- and not called yet, then those in the queue are the jobs that were pushed, in the order of their
-- push_back: none is lost, doubled or overtaken.
pub in_order :
    (y : System)
    → Reach y
    → y.shared.accepted ≡ y.shared.finished ++ (unexecuted y.executors ++ y.shared.jobs)
in_order y r = (Reach-Inv r).order

empty_of : {A : Type 0} (xs : List A) → length xs ≡ 0 → xs ≡ []
empty_of [] h = refl
empty_of (x ∷ xs) h = absurd (omega arith)

-- In every state the threads can reach with no thread in Push or Execute and the queue not in the
-- global queue, every job that was pushed has been called, in the order of the push_backs: the
-- queue never sleeps with a job in it.
pub nothing_left :
    (y : System)
    → Reach y
    → y.shared.registered ≡ 0
    → y.pushers ≡ []
    → y.executors ≡ []
    → y.shared.finished ≡ y.shared.accepted
nothing_left y r g p x =
    let v = Reach-Inv r in
    let none_counted : y.shared.job_count ≡ 0 =
      ground (arith, v.one_token, g, ap (sum_by registers) p, ap length x) in
    let no_jobs : y.shared.jobs ≡ [] =
      empty_of y.shared.jobs (omega (arith, v.total, none_counted)) in
    sym (
      v.order
      ∙ ap (λ (z : List Executor). y.shared.finished ++ (unexecuted z ++ y.shared.jobs)) x
      ∙ ap (◌++◌ y.shared.finished) no_jobs
      ∙ append-nil y.shared.finished)
