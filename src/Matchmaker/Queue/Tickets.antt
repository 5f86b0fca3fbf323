-- ===== src/Matchmaker/Queue/Tickets.antt =====
-- Ticket numbers, and what RemoveTicket takes out.
use libiouring_server.Common.{
  ℕ, ◌+◌, ◌%◌, ◌^◌, ◌≤◌, ◌<◌, ◌≡◌, refl, sym, ap, subst, inl, inr, Bool, false, List, [], ◌∷◌, ◌++◌,
  length, ◌==◌, if◌then◌else◌, Bool-cases, arith,
}
use libiouring_server.Presence.Registry.{PlayerRegistry}
use libiouring_server.Matchmaker.Queue.{
  MatchmakerTicket, MatchmakerQueue, init, handle_add_ticket, erase_if, handle_remove_ticket,
  handle_remove_by_player, timed_out, expire_timeouts,
}

pub data Call : Type 0 where
  adds : ℕ → MatchmakerTicket → Call
  removes : ℕ → Call
  removes_by_player : ℕ → Call
  expires : ℕ → PlayerRegistry → (MatchmakerTicket → Bool) → Call

abbrev pub call : Call → MatchmakerQueue → MatchmakerQueue
call (adds now ticket) q = handle_add_ticket now ticket q
call (removes id) q = handle_remove_ticket id q
call (removes_by_player pid) q = handle_remove_by_player pid q
call (expires now registry allocated) q = (expire_timeouts now registry allocated q).1

pub run : MatchmakerQueue → List Call → MatchmakerQueue
run q [] = q
run q (c ∷ cs) = run (call c q) cs

-- Numbers that grow along the queue, all in [from, until).
abbrev pub Numbered : ℕ → ℕ → List MatchmakerTicket → Type 0
Numbered from until [] = from ≤ until
Numbered from until (t ∷ ts) = (from ≤ t.ticket_id) × Numbered (t.ticket_id + 1) until ts

Numbered-le :
    (a b until : ℕ) (ts : List MatchmakerTicket) → a ≤ b → Numbered b until ts → Numbered a until ts
Numbered-le a b until [] h n = omega arith
Numbered-le a b until (t ∷ ts) h n = (omega (arith, n.0), n.1)

Numbered-append :
    (from until : ℕ) (ts : List MatchmakerTicket) (t : MatchmakerTicket)
    → t.ticket_id ≡ until
    → Numbered from until ts
    → Numbered from (until + 1) (ts ++ t ∷ [])
Numbered-append from until [] t e n = (omega arith, omega arith)
Numbered-append from until (u ∷ ts) t e n =
    (n.0, Numbered-append (u.ticket_id + 1) until ts t e n.1)

Numbered-erase_if :
    (p : MatchmakerTicket → Bool) (from until : ℕ) (ts : List MatchmakerTicket)
    → Numbered from until ts
    → Numbered from until (erase_if p ts)
unfolding erase_if
Numbered-erase_if p from until [] n = n
Numbered-erase_if p from until (t ∷ ts) n =
    let rest = Numbered-erase_if p (t.ticket_id + 1) until ts n.1 in
    elim (Bool-cases (p t)) [
      | inl e ↦
          rw e (Numbered-le from (t.ticket_id + 1) until (erase_if p ts) (omega (arith, n.0)) rest)
      | inr e ↦ rw e (n.0, rest)
    ]

abbrev Inv : MatchmakerQueue → Type 0
Inv q = Numbered 1 q.next_ticket_id q.tickets

call-Inv :
    (c : Call) (q : MatchmakerQueue)
    → q.next_ticket_id + 1 < 2 ^ 64
    → Inv q
    → Inv (call c q) × ((call c q).next_ticket_id ≤ q.next_ticket_id + 1)
unfolding handle_add_ticket handle_remove_ticket handle_remove_by_player expire_timeouts
call-Inv (adds now ticket) q h v =
    let t = record ticket {
      ticket_id = q.next_ticket_id;
      submitted_at = if ticket.submitted_at == 0 then now else ticket.submitted_at;
    } in
    let next : (q.next_ticket_id + 1) % 2 ^ 64 ≡ q.next_ticket_id + 1 = omega arith in
    (
      subst (λ (n : ℕ). Numbered 1 n (q.tickets ++ t ∷ [])) (sym next)
          (Numbered-append 1 q.next_ticket_id q.tickets t refl v),
      omega (arith, next),
    )
call-Inv (removes id) q h v =
    (Numbered-erase_if (λ t. t.ticket_id == id) 1 q.next_ticket_id q.tickets v, omega arith)
call-Inv (removes_by_player pid) q h v =
    (Numbered-erase_if (λ t. t.player_id == pid) 1 q.next_ticket_id q.tickets v, omega arith)
call-Inv (expires now registry allocated) q h v =
    (Numbered-erase_if (timed_out now) 1 q.next_ticket_id q.tickets v, omega arith)

run-Inv :
    (cs : List Call) (q : MatchmakerQueue)
    → q.next_ticket_id + length cs < 2 ^ 64
    → Inv q
    → Inv (run q cs)
unfolding run
run-Inv [] q h v = v
run-Inv (c ∷ cs) q h v =
    let w = call-Inv c q (omega arith) v in run-Inv cs (call c q) (omega (arith, w.1)) w.0

-- No ticket has a number below the lowest.
erase_absent :
    (id from until : ℕ) (ts : List MatchmakerTicket)
    → id < from
    → Numbered from until ts
    → erase_if (λ t. t.ticket_id == id) ts ≡ ts
unfolding erase_if
erase_absent id from until [] h n = refl
erase_absent id from until (t ∷ ts) h n =
    let other : (t.ticket_id == id) ≡ false = ground (arith, n.0) in
    rw other (ap (◌∷◌ t) (erase_absent id (t.ticket_id + 1) until ts (omega (arith, n.0)) n.1))

erase_one :
    (id from until : ℕ) (ts : List MatchmakerTicket)
    → Numbered from until ts
    → length ts ≤ length (erase_if (λ t. t.ticket_id == id) ts) + 1
unfolding erase_if
erase_one id from until [] n = omega arith
erase_one id from until (t ∷ ts) n = elim (Bool-cases (t.ticket_id == id)) [
  | inl e ↦
      let here : id < t.ticket_id + 1 = ground (arith, e) in
      rw (e, erase_absent id (t.ticket_id + 1) until ts here n.1) (omega arith)
  | inr e ↦ rw e (omega (arith, erase_one id (t.ticket_id + 1) until ts n.1))
]

-- For fewer than 2 ^ 64 - 1 calls on a new queue: the numbers of the tickets grow along the queue
-- and stay below the next one, so no two are the same, and RemoveTicket takes out at most one.
pub run-remove_ticket :
    (cs : List Call) (id : ℕ)
    → length cs + 1 < 2 ^ 64
    → Numbered 1 (run init cs).next_ticket_id (run init cs).tickets
      × (length (run init cs).tickets ≤ length (handle_remove_ticket id (run init cs)).tickets + 1)
unfolding handle_remove_ticket
run-remove_ticket cs id h =
    let v = run-Inv cs init (omega arith) (omega arith) in
    (v, erase_one id 1 (run init cs).next_ticket_id (run init cs).tickets v)
