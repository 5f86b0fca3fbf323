-- ===== src/Match.antt =====
-- src/game/match/Match.cpp: who takes part in a match. The calls of its MatchHandler, which the
-- application writes, are recorded, and its answer to JoinAttempt is an argument. The jobs run one
-- after the other, as the JobQueue below them guarantees.
pub mod Players
pub mod Registry
pub mod Sends
mod Examples
use libiouring_server.Common.{
  ℕ, ◌+◌, Bool, true, false, not, ◌&&◌, List, [], ◌∷◌, ◌++◌, Option, none, some, length, ltb, leb,
  if◌then◌else◌,
}
use libiouring_server.Common.Maps.{nat_eq, find, erase, assign}
use libiouring_server.Presence.Registry.{PlayerRegistry, update_status, update_match}

pub data HandlerCall : Type 0 where
  on_join on_leave : ℕ → HandlerCall
  on_message : ℕ → ℕ → List ℕ → HandlerCall
  on_terminate : HandlerCall

-- The match and the registry that it shares with the others.
pub record Match : Type 0 where
  pub id : ℕ
  pub max_players : ℕ
  pub players : List (ℕ × ℕ)
  pub active : Bool
  pub registry : PlayerRegistry
  pub calls : List HandlerCall

unfoldable pub init : ℕ → ℕ → PlayerRegistry → Match
init id max_players registry = record {
  id = id;
  max_players = max_players;
  players = [];
  active = true;
  registry = registry;
  calls = [];
}

-- HandleJoin behind its guards.
unfoldable pub seat : ℕ → ℕ → Match → Match
seat pid reactor m = record m {
  players = assign pid reactor m.players;
  registry = update_match pid m.id (update_status pid "in_game" m.registry);
  calls = m.calls ++ on_join pid ∷ [];
}

-- `accepted` is the handler's answer.
unfoldable pub handle_join : Bool → ℕ → ℕ → Match → Match
handle_join accepted pid reactor m =
    if not m.active
    then m
    else if ltb 0 m.max_players && leb m.max_players (length m.players)
    then m
    else if not accepted
    then m
    else seat pid reactor m

unfoldable pub handle_leave : ℕ → Match → Match
handle_leave pid m = elim (find pid m.players) [
  | none ↦ m
  | some reactor ↦ record m {
    players = erase pid m.players;
    registry = update_match pid 0 (update_status pid "online" m.registry);
    calls = m.calls ++ on_leave pid ∷ [];
  }
]

unfoldable pub handle_message : ℕ → ℕ → List ℕ → Match → Match
handle_message sender opcode bytes m = record m {
  calls = m.calls ++ on_message sender opcode bytes ∷ [];
}

-- The loop of HandleTerminate over the players.
unfoldable pub release_all : List (ℕ × ℕ) → PlayerRegistry → PlayerRegistry
release_all [] r = r
release_all ((pid, reactor) ∷ rest) r =
    release_all rest (update_match pid 0 (update_status pid "online" r))

unfoldable pub handle_terminate : Match → Match
handle_terminate m = record m {
  active = false;
  players = [];
  registry = release_all m.players m.registry;
  calls = m.calls ++ on_terminate ∷ [];
}
