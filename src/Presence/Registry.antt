-- ===== src/Presence/Registry.antt =====
-- src/game/PlayerRegistry.cpp and include/servergame/PlayerRegistry.h.
use Prim.Native.String.{String}
use libiouring_server.Common.{ℕ, Bool, true, false, List, Option, none, some, map, length}
use libiouring_server.Common.Maps.{nat_eq, find, erase, assign}

pub record Entry : Type 0 where
  pub context_id : ℕ
  pub status : String
  pub match_id : ℕ

pub record PlayerRegistry : Type 0 where
  pub players : List (ℕ × Entry)

unfoldable pub register : ℕ → ℕ → PlayerRegistry → PlayerRegistry
register pid reactor r = record {
  players = assign pid (record { context_id = reactor; status = "online"; match_id = 0 }) r.players;
}

unfoldable pub unregister : ℕ → PlayerRegistry → PlayerRegistry
unregister pid r = record { players = erase pid r.players }

-- it->second = f(it->second), where the player is found.
unfoldable pub change : ℕ → (Entry → Entry) → PlayerRegistry → PlayerRegistry
change pid f r = elim (find pid r.players) [
  | none ↦ r
  | some e ↦ record { players = assign pid (f e) r.players }
]

unfoldable pub update_status : ℕ → String → PlayerRegistry → PlayerRegistry
update_status pid text r = change pid (λ e. record e { status = text }) r

unfoldable pub update_match : ℕ → ℕ → PlayerRegistry → PlayerRegistry
update_match pid id r = change pid (λ e. record e { match_id = id }) r

unfoldable pub find_player : ℕ → PlayerRegistry → Option Entry
find_player pid r = find pid r.players

unfoldable pub is_online : ℕ → PlayerRegistry → Bool
is_online pid r = elim (find pid r.players) [ none ↦ false | some e ↦ true ]

unfoldable pub get_online_players : PlayerRegistry → List ℕ
get_online_players r = map (λ (e : ℕ × Entry). e.0) r.players

unfoldable pub online_count : PlayerRegistry → ℕ
online_count r = length r.players
