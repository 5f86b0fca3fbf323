-- ===== src/Buffer/Send/Runs.antt =====
-- A SendQueue under any calls.
use libiouring_server.Common.{
  ℕ, ◌+◌, ◌≤◌, ◌≡◌, refl, sym, ap, subst, ◌∙◌, ◌⊎◌, inl, inr, Bool, true, false, not, List, [], ◌∷◌,
  ◌++◌, length, leb, if◌then◌else◌, Bool-cases, arith, append_assoc, append-nil, length-append,
}
use libiouring_server.Buffer.Send.{
  PushResult, SendQueue, init, push, drain, still_registered, mark_sent,
}

pub data Call : Type 0 where
  pushes : ℕ → Call
  drains : Call
  marks_sent : Call

-- A queue with its history: the buffers that Push took and that Drain gave out, the pushes that
-- asked for a registration, and the registrations that MarkSent ended.
pub record History : Type 0 where
  pub queue : SendQueue
  pub accepted : List ℕ
  pub sent : List ℕ
  pub asked : ℕ
  pub ended : ℕ

abbrev count : Bool → ℕ
count true = 1
count false = 0

-- What the answer of Push adds to the history.
pushed : ℕ → History → PushResult × SendQueue → History
pushed buf h (r, q) = record h {
  queue = q;
  accepted = if r.overflowed then h.accepted else h.accepted ++ buf ∷ [];
  asked = h.asked + count r.needs_register;
}

pub call : Call → History → History
unfolding pushed
call (pushes buf) h = pushed buf h (push buf h.queue)
call drains h = let (out, q) = drain h.queue in record h { queue = q; sent = h.sent ++ out }
call marks_sent h =
    let q = mark_sent h.queue in
    record h {
      queue = q;
      ended = h.ended + (if h.queue.registered then count (not q.registered) else 0);
    }

pub run : History → List Call → History
run h [] = h
run h (c ∷ cs) = run (call c h) cs

abbrev pub new : ℕ → History
new limit = record { queue = init limit; accepted = []; sent = []; asked = 0; ended = 0 }

pub record Inv (limit : ℕ) (h : History) : Type 0 where
  pub limited : h.queue.max_pending ≡ limit
  pub bounded : length h.queue.pending ≤ limit
  pub in_order : h.accepted ≡ h.sent ++ h.queue.pending
  pub one_owner : h.asked ≡ h.ended + count h.queue.registered
  pub owned : h.queue.registered ≡ false → h.queue.pending ≡ []

push-full :
    (buf : ℕ) (q : SendQueue)
    → leb q.max_pending (length q.pending) ≡ true
    → push buf q ≡ (record { needs_register = false; overflowed = true }, q)
unfolding push
push-full buf q e = rw e refl

push_room :
    (buf : ℕ) (q : SendQueue)
    → leb q.max_pending (length q.pending) ≡ false
    → push buf q ≡ (
      record { needs_register = not q.registered; overflowed = false },
      record q { pending = q.pending ++ buf ∷ []; registered = true },
    )
unfolding push
push_room buf q e = rw e refl

asked_once : (b : Bool) → count b + count (not b) ≡ 1
asked_once true = refl
asked_once false = refl

push-Inv : (limit buf : ℕ) (h : History) → Inv limit h → Inv limit (call (pushes buf) h)
unfolding call pushed
push-Inv limit buf h v = elim (Bool-cases (leb h.queue.max_pending (length h.queue.pending))) [
  | inl e ↦
      subst (λ (p : PushResult × SendQueue). Inv limit (pushed buf h p))
        (sym (push-full buf h.queue e))
        (record {
          limited = v.limited;
          bounded = v.bounded;
          in_order = v.in_order;
          one_owner = omega (arith, v.one_owner);
          owned = v.owned;
        })
  | inr e ↦
      subst (λ (p : PushResult × SendQueue). Inv limit (pushed buf h p))
        (sym (push_room buf h.queue e))
        (record {
          limited = v.limited;
          bounded =
              let room : length h.queue.pending + 1 ≤ h.queue.max_pending = ground (arith, e) in
              omega (arith, room, v.limited, length-append h.queue.pending (buf ∷ []));
          in_order =
              ap (λ (z : List ℕ). z ++ buf ∷ []) v.in_order
              ∙ append_assoc h.sent h.queue.pending (buf ∷ []);
          one_owner = omega (arith, v.one_owner, asked_once h.queue.registered);
          owned = λ z. absurd cc;
        })
]

drain-Inv : (limit : ℕ) (h : History) → Inv limit h → Inv limit (call drains h)
unfolding call drain
drain-Inv limit h v = record {
  limited = v.limited;
  bounded = omega arith;
  in_order = v.in_order ∙ sym (append-nil (h.sent ++ h.queue.pending));
  one_owner = v.one_owner;
  owned = λ e. refl;
}

ended_once :
    (p : List ℕ) (r : Bool)
    → (if r then count (not (still_registered p r)) else 0) + count (still_registered p r) ≡ count r
unfolding still_registered
ended_once [] true = refl
ended_once [] false = refl
ended_once (b ∷ bs) true = refl
ended_once (b ∷ bs) false = refl

owned_after : (p : List ℕ) (r : Bool) → (r ≡ false → p ≡ []) → still_registered p r ≡ false → p ≡ []
unfolding still_registered
owned_after [] r h e = refl
owned_after (b ∷ bs) r h e = h e

mark_sent-Inv : (limit : ℕ) (h : History) → Inv limit h → Inv limit (call marks_sent h)
unfolding call mark_sent
mark_sent-Inv limit h v = record {
  limited = v.limited;
  bounded = v.bounded;
  in_order = v.in_order;
  one_owner = omega (arith, v.one_owner, ended_once h.queue.pending h.queue.registered);
  owned = owned_after h.queue.pending h.queue.registered v.owned;
}

run-Inv : (limit : ℕ) (cs : List Call) (h : History) → Inv limit h → Inv limit (run h cs)
unfolding run
run-Inv limit [] h v = v
run-Inv limit (pushes buf ∷ cs) h v =
    run-Inv limit cs (call (pushes buf) h) (push-Inv limit buf h v)
run-Inv limit (drains ∷ cs) h v = run-Inv limit cs (call drains h) (drain-Inv limit h v)
run-Inv limit (marks_sent ∷ cs) h v = run-Inv limit cs (call marks_sent h) (mark_sent-Inv limit h v)

new-Inv : (limit : ℕ) → Inv limit (new limit)
unfolding init
new-Inv limit = record {
  limited = refl;
  bounded = omega arith;
  in_order = refl;
  one_owner = refl;
  owned = λ e. refl;
}

-- Whatever is called on a new queue: the buffers that were accepted are those that were drained
-- and those that are pending, in order, and no more are pending than the limit.
pub run-in_order :
    (limit : ℕ) (cs : List Call)
    → ((run (new limit) cs).accepted
        ≡ (run (new limit) cs).sent ++ (run (new limit) cs).queue.pending)
      × (length (run (new limit) cs).queue.pending ≤ limit)
run-in_order limit cs =
    let v = run-Inv limit cs (new limit) (new-Inv limit) in (v.in_order, v.bounded)

-- Whatever is called on a new queue: of the registrations that pushes were told to make, MarkSent
-- has ended all but one, so two sends are never registered at a time, or all, and then no buffer
-- is pending.
pub run-one_send :
    (limit : ℕ) (cs : List Call)
    → ((run (new limit) cs).asked ≡ (run (new limit) cs).ended + 1)
      ⊎ (((run (new limit) cs).asked ≡ (run (new limit) cs).ended)
          × ((run (new limit) cs).queue.pending ≡ []))
run-one_send limit cs =
    let h = run (new limit) cs in
    let v = run-Inv limit cs (new limit) (new-Inv limit) in
    elim (Bool-cases h.queue.registered) [
      | inl e ↦ inl (v.one_owner ∙ ap (λ (b : Bool). h.ended + count b) e)
      | inr e ↦ inr (v.one_owner ∙ ap (λ (b : Bool). h.ended + count b) e ∙ omega arith, v.owned e)
    ]
