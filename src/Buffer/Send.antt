-- ===== src/Buffer/Send.antt =====
-- include/servercore/buffer/SendQueue.h. Each operation holds the mutex throughout, so the threads'
-- calls are a sequence. A buffer is a number, the reference that is queued.
pub mod Runs
use libiouring_server.Common.{
  ℕ, ◌+◌, ◌*◌, Bool, true, false, not, List, [], ◌∷◌, ◌++◌, length, leb, if◌then◌else◌,
}

pub record PushResult : Type 0 where
  pub needs_register : Bool
  pub overflowed : Bool

pub record SendQueue : Type 0 where
  pub pending : List ℕ
  pub registered : Bool
  pub max_pending : ℕ

-- SendQueue(max_pending)
unfoldable pub init : ℕ → SendQueue
init max_pending = record { pending = []; registered = false; max_pending = max_pending }

unfoldable pub push : ℕ → SendQueue → PushResult × SendQueue
push buf q =
    if leb q.max_pending (length q.pending)
    then (record { needs_register = false; overflowed = true }, q)
    else (
      record { needs_register = not q.registered; overflowed = false },
      record q { pending = q.pending ++ buf ∷ []; registered = true },
    )

unfoldable pub drain : SendQueue → List ℕ × SendQueue
drain q = (q.pending, record q { pending = [] })

-- registered_ after MarkSent with the pending buffers.
unfoldable pub still_registered : List ℕ → Bool → Bool
still_registered [] r = false
still_registered (b ∷ bs) r = r

unfoldable pub mark_sent : SendQueue → SendQueue
mark_sent q = record q { registered = still_registered q.pending q.registered }
