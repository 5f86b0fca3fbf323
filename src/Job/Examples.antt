-- ===== src/Job/Examples.antt =====
-- A queue with one job: the threads from the push to the end of Execute. A timer with three.
use libiouring_server.Common.{List, ◌==◌, ◌≡◌, refl, ◌≤◌, ◌+◌, [], ◌∷◌, ◌++◌, true, arith, length}
use libiouring_server.Job.Queue.{
  System, init, push, pusher_next, executor_next, counted, appended, fetching, running, leaving,
  subtracting, pushes, push_goes_on, executes, execute_goes_on, Reach, start, later,
}
use libiouring_server.Job.Queue.Invariant.{unexecuted}
use libiouring_server.Job.Queue.Order.{exclusive, in_order, nothing_left}
use libiouring_server.Job.Timer.{distribute_expired}
use libiouring_server.Job.Timer.Order.{Call, reserves, run, Splits, Sorted, run-distribute}

-- Where the thread that executes the job stands after each of its actions.
abbrev registered_once : System
registered_once = record {
  shared = record {
    job_count = 1;
    jobs = 7 ∷ [];
    registered = 1;
    accepted = 7 ∷ [];
    finished = [];
  };
  pushers = [];
  executors = [];
}

registered_once-Reach : Reach registered_once
unfolding init push pusher_next
registered_once-Reach =
    later
      (later (later start (pushes 7 (omega arith) refl))
        (push_goes_on [] (counted 0 7) [] refl refl))
      (push_goes_on [] (appended 0) [] refl refl)

abbrev taken : System
taken = record {
  shared = record { job_count = 1; jobs = []; registered = 0; accepted = 7 ∷ []; finished = [] };
  pushers = [];
  executors = running (7 ∷ []) 0 ∷ [];
}

taken-Reach : Reach taken
unfolding executor_next
taken-Reach =
    later (later registered_once-Reach (executes 0 refl refl))
      (execute_goes_on true [] fetching [] refl refl)

abbrev done : System
done = record {
  shared = record {
    job_count = 0;
    jobs = [];
    registered = 0;
    accepted = 7 ∷ [];
    finished = 7 ∷ [];
  };
  pushers = [];
  executors = [];
}

done-Reach : Reach done
unfolding executor_next
done-Reach =
    later
      (later (later taken-Reach (execute_goes_on true [] (running (7 ∷ []) 0) [] refl refl))
        (execute_goes_on true [] (leaving [] 1) [] refl refl))
      (execute_goes_on true [] (subtracting 1) [] refl refl)

exclusive_example : taken.shared.registered + length taken.executors ≤ 1
exclusive_example = exclusive taken taken-Reach

in_order_example :
    taken.shared.accepted
    ≡ taken.shared.finished ++ (unexecuted taken.executors ++ taken.shared.jobs)
in_order_example = in_order taken taken-Reach

nothing_left_example : done.shared.finished ≡ done.shared.accepted
nothing_left_example = nothing_left done done-Reach refl refl refl

-- Three jobs, of which the last to be reserved is due first.
abbrev reservations : List Call
reservations = reserves 0 5 1 10 ∷ reserves 1 9 2 11 ∷ reserves 2 1 3 12 ∷ []

run-distribute_example :
    Splits 6
      (λ target. target == 3)
      (run [] reservations)
      (distribute_expired 6 (λ target. target == 3) (run [] reservations))
    × Sorted (distribute_expired 6 (λ target. target == 3) (run [] reservations)).pushed
run-distribute_example = run-distribute reservations 6 (λ target. target == 3)
