-- ===== src/Job/Timer.antt =====
-- src/job/JobTimer.cpp. std::priority_queue is a list in the order in which top() gives the jobs
-- out: by time, and at equal times, which the library leaves open, in the order of arrival. A time
-- is a number of ticks; Reserve is given the clock's answer.
pub mod Order
use libiouring_server.Common.{ℕ, ◌+◌, Bool, List, [], ◌∷◌, ltb, leb, if◌then◌else◌}

-- A target is the number of a JobQueue, a job its own number.
pub record ReservedJob : Type 0 where
  pub execute_at : ℕ
  pub target : ℕ
  pub job : ℕ

-- queue_.push
unfoldable pub push_reserved : ReservedJob → List ReservedJob → List ReservedJob
push_reserved r [] = r ∷ []
push_reserved r (x ∷ xs) =
    let rest = push_reserved r xs in if ltb r.execute_at x.execute_at then r ∷ x ∷ xs else x ∷ rest

unfoldable pub reserve : ℕ → ℕ → ℕ → ℕ → List ReservedJob → List ReservedJob
reserve now delay target job queue =
    push_reserved (record { execute_at = now + delay; target = target; job = job }) queue

-- What DistributeExpired pushes to the targets, what it throws away since the target is gone, and
-- the jobs that stay.
pub record Distributed : Type 0 where
  pub pushed : List ReservedJob
  pub lost : List ReservedJob
  pub queue : List ReservedJob

-- One round of the loop in front of the others; `alive` answers target.lock().
unfoldable pub distribute_one : Bool → ReservedJob → Distributed → Distributed
distribute_one alive r d =
    if alive then record d { pushed = r ∷ d.pushed } else record d { lost = r ∷ d.lost }

unfoldable pub distribute_expired : ℕ → (ℕ → Bool) → List ReservedJob → Distributed
distribute_expired now alive [] = record { pushed = []; lost = []; queue = [] }
distribute_expired now alive (r ∷ rs) =
    let rest = distribute_expired now alive rs in
    if leb r.execute_at now
    then distribute_one (alive r.target) r rest
    else record { pushed = []; lost = []; queue = r ∷ rs }
