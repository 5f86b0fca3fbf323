-- ===== src/Matchmaker/Queue.antt =====
-- The tickets of src/game/matchmaker/MatchmakerQueue.cpp: how they come, go and expire. A time is
-- a number of ticks, a double its 64 bits.
pub mod Tickets
use libiouring_server.Common.{
  ℕ, zero, suc, ◌+◌, ◌*◌, ◌/◌, ◌%◌, ◌^◌, Bool, true, false, List, [], ◌∷◌, ◌++◌, Option, none, some,
  leb, ◌==◌, if◌then◌else◌,
}
use libiouring_server.Presence.Registry.{PlayerRegistry, Entry, find_player}

pub record MatchmakerTicket : Type 0 where
  pub ticket_id : ℕ
  pub player_id : ℕ
  pub context_id : ℕ
  pub min_count : ℕ
  pub max_count : ℕ
  pub query : List ℕ
  pub handler_name : List ℕ
  pub string_props : List (List ℕ × List ℕ)
  pub numeric_props : List (List ℕ × ℕ)
  pub submitted_at : ℕ
  pub timeout : ℕ

pub record MatchmakerQueue : Type 0 where
  pub tickets : List MatchmakerTicket
  pub next_ticket_id : ℕ

abbrev pub init : MatchmakerQueue
init = record { tickets = []; next_ticket_id = 1 }

unfoldable pub handle_add_ticket : ℕ → MatchmakerTicket → MatchmakerQueue → MatchmakerQueue
handle_add_ticket now ticket q = record {
  tickets =
      q.tickets
      ++ record ticket {
        ticket_id = q.next_ticket_id;
        submitted_at = if ticket.submitted_at == 0 then now else ticket.submitted_at;
      }
        ∷ [];
  next_ticket_id = (q.next_ticket_id + 1) % 2 ^ 64;
}

-- std::erase_if
unfoldable pub erase_if : (MatchmakerTicket → Bool) → List MatchmakerTicket → List MatchmakerTicket
erase_if p [] = []
erase_if p (t ∷ ts) = let rest = erase_if p ts in if p t then rest else t ∷ rest

unfoldable pub handle_remove_ticket : ℕ → MatchmakerQueue → MatchmakerQueue
handle_remove_ticket id q = record q { tickets = erase_if (λ t. t.ticket_id == id) q.tickets }

unfoldable pub handle_remove_by_player : ℕ → MatchmakerQueue → MatchmakerQueue
handle_remove_by_player pid q = record q { tickets = erase_if (λ t. t.player_id == pid) q.tickets }

-- now - t.submitted_at >= t.timeout
abbrev pub timed_out : ℕ → MatchmakerTicket → Bool
timed_out now t = leb (t.submitted_at + t.timeout) now

-- What std::remove_if puts into `expired`.
unfoldable pub expired_tickets : ℕ → List MatchmakerTicket → List MatchmakerTicket
expired_tickets now [] = []
expired_tickets now (t ∷ ts) =
    let rest = expired_tickets now ts in if timed_out now t then t ∷ rest else rest

-- The n lowest bytes of a number, as memcpy copies them on a little-endian machine.
unfoldable pub le_bytes : ℕ → ℕ → List ℕ
le_bytes zero n = []
le_bytes (suc k) n = n % 256 ∷ le_bytes k (n / 256)

pub record Notice : Type 0 where
  pub context : ℕ
  pub player : ℕ
  pub packet : List ℕ

-- `allocated` says whether the pool hands out the 12 bytes.
unfoldable pub notify_timeout : PlayerRegistry → Bool → MatchmakerTicket → List Notice
notify_timeout registry allocated t = elim (find_player t.player_id registry) [
  | none ↦ []
  | some e ↦
      if allocated
      then record {
        context = e.context_id;
        player = t.player_id;
        packet = le_bytes 2 12 ++ (le_bytes 2 0x3003 ++ le_bytes 8 t.ticket_id);
      }
        ∷ []
      else []
]

-- The loop over the expired tickets.
unfoldable pub notify_each :
    PlayerRegistry → (MatchmakerTicket → Bool) → List MatchmakerTicket → List Notice
notify_each registry allocated [] = []
notify_each registry allocated (t ∷ ts) =
    notify_timeout registry (allocated t) t ++ notify_each registry allocated ts

unfoldable pub expire_timeouts :
    ℕ → PlayerRegistry → (MatchmakerTicket → Bool) → MatchmakerQueue → List Notice × MatchmakerQueue
expire_timeouts now registry allocated q = (
  notify_each registry allocated (expired_tickets now q.tickets),
  record q { tickets = erase_if (timed_out now) q.tickets },
)
