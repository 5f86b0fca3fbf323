-- ===== src/Job/Queue.antt =====
-- src/job/JobQueue.cpp under any interleaving of its threads. A thread is at one of the places
-- between the atomic actions of Push or Execute: the operations on job_count_, the critical
-- sections of mutex_, and the calls of the global queue. `accepted` and `finished` record the jobs
-- in the order of push_back and of their calls.
pub mod Invariant
pub mod Executes
pub mod Order
use libiouring_server.Common.{
  ℕ, zero, suc, ◌+◌, ◌^◌, ◌<◌, ◌≡◌, Bool, true, false, ◌||◌, List, [], ◌∷◌, ◌++◌, Option, none,
  some, leb, ◌==◌, if◌then◌else◌,
}
use libiouring_server.Common.Word.{add32, sub32}

-- A job, by a number; what it does to other objects is not part of the queue.
abbrev pub Job : Type 0
Job = ℕ

pub record Shared : Type 0 where
  pub job_count : ℕ
  pub jobs : List Job
  pub registered : ℕ
  pub accepted : List Job
  pub finished : List Job

-- A thread in Push: behind fetch_add, which returned `prev`, or behind push_back.
pub data Pusher : Type 0 where
  counted : ℕ → Job → Pusher
  appended : ℕ → Pusher

-- A thread in Execute: at the head of the loop, in the loop over its batch with the jobs left
-- and the number executed, behind that loop, before fetch_sub, and behind it with jobs remaining.
pub data Executor : Type 0 where
  fetching : Executor
  running : List Job → ℕ → Executor
  leaving : List Job → ℕ → Executor
  subtracting : ℕ → Executor
  deciding : Executor

-- std::int32_t: job_count_ <= 0
abbrev pub nonpositive : ℕ → Bool
nonpositive n = n == 0 || leb (2 ^ 31) n

-- Push, first action: fetch_add.
unfoldable pub push : Job → Shared → Pusher × Shared
push job s = (counted s.job_count job, record s { job_count = add32 s.job_count 1 })

-- Push, the other two actions.
unfoldable pub pusher_next : Pusher → Shared → Option Pusher × Shared
pusher_next (counted prev job) s = (
  some (appended prev),
  record s { jobs = s.jobs ++ job ∷ []; accepted = s.accepted ++ job ∷ [] },
)
pusher_next (appended prev) s =
    (none, if prev == 0 then record s { registered = s.registered + 1 } else s)

-- One action of Execute; `late` is the answer of now() >= deadline where the code asks.
unfoldable pub executor_next : Bool → Executor → Shared → Option Executor × Shared
executor_next late fetching s = (some (running s.jobs 0), record s { jobs = [] })
executor_next late (running [] n) s = (some (leaving [] n), s)
executor_next late (running (job ∷ rest) n) s = (
  some (if late then leaving rest (n + 1) else running rest (n + 1)),
  record s { finished = s.finished ++ job ∷ [] },
)
executor_next late (leaving rest n) s = (some (subtracting n), record s { jobs = rest ++ s.jobs })
executor_next late (subtracting n) s =
    let remaining = sub32 s.job_count n in
    (if nonpositive remaining then none else some deciding, record s { job_count = remaining })
executor_next late deciding s =
    if late then (none, record s { registered = s.registered + 1 }) else (some fetching, s)

pub record System : Type 0 where
  pub shared : Shared
  pub pushers : List Pusher
  pub executors : List Executor

unfoldable pub init : System
init = record {
  shared = record { job_count = 0; jobs = []; registered = 0; accepted = []; finished = [] };
  pushers = [];
  executors = [];
}

-- The thread that stays, if it has not returned.
abbrev pub staying {ℓ} : {A : Type ℓ} → Option A → List A
staying none = []
staying (some a) = a ∷ []

-- A thread calls Push, goes on in it, takes the queue from the global queue and calls Execute on
-- it, or goes on in Execute. Fewer than 2 ^ 31 jobs are counted at any time.
pub data Step (y z : System) : Type 0 where
  pushes :
      (job : Job)
      → y.shared.job_count + 1 < 2 ^ 31
      → z ≡ record y { shared = (push job y.shared).1; pushers = (push job y.shared).0 ∷ y.pushers }
      → Step y z
  push_goes_on :
      (before : List Pusher) (p : Pusher) (after : List Pusher)
      → y.pushers ≡ before ++ p ∷ after
      → z ≡ record y {
        shared = (pusher_next p y.shared).1;
        pushers = before ++ (staying (pusher_next p y.shared).0 ++ after);
      }
      → Step y z
  executes :
      (n : ℕ)
      → y.shared.registered ≡ suc n
      → z ≡ record y {
        shared = record y.shared { registered = n };
        executors = fetching ∷ y.executors;
      }
      → Step y z
  execute_goes_on :
      (late : Bool) (before : List Executor) (e : Executor) (after : List Executor)
      → y.executors ≡ before ++ e ∷ after
      → z ≡ record y {
        shared = (executor_next late e y.shared).1;
        executors = before ++ (staying (executor_next late e y.shared).0 ++ after);
      }
      → Step y z

-- The states that the threads can reach.
pub data Reach : System → Type 0 where
  start : Reach init
  later : {y z : System} → Reach y → Step y z → Reach z
