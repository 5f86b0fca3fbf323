-- ===== src/Match/Examples.antt =====
-- A match for two.
use libiouring_server.Common.{
  ℕ, ◌≤◌, ◌≡◌, ◌⊎◌, true, if◌then◌else◌, none, some, List, [], ◌∷◌, length, arith,
}
use libiouring_server.Common.Maps.{nat_eq, text_eq, find, same}
use libiouring_server.Presence.Registry.{PlayerRegistry}
use libiouring_server.Match.{Match, init}
use libiouring_server.Match.Sends.{Message}
use libiouring_server.Match.Registry
use libiouring_server.Match.Registry.{
  empty_registry, registers, creates, removes, create_match, find_match, run-create_match,
}
use libiouring_server.Match.Players.{Call, joins, leaves, terminates, run, run-players}

abbrev empty : PlayerRegistry
empty = record { players = [] }

abbrev seats : ℕ
seats = 2

abbrev game : List Call
game =
    joins true 1 0 ∷ joins true 2 0 ∷ joins true 3 1 ∷ leaves 1 ∷ terminates ∷ joins true 4 0 ∷ []

run-players_example :
    ((seats ≡ 0) ⊎ (length (run (init 5 seats empty) game).players ≤ seats))
    × (((run (init 5 seats empty) game).active ≡ true)
        ⊎ ((run (init 5 seats empty) game).players ≡ []))
run-players_example = run-players 5 seats empty game

abbrev pair : Match
pair = record (init 5 seats empty) { players = (1, 0) ∷ (2, 3) ∷ [] }

abbrev plain : Message → List ℕ
plain msg = msg.opcode ∷ []

-- A match is its number, and a factory too.
abbrev number_of : ℕ → List ℕ → ℕ → ℕ
number_of id name factory = id

abbrev opening : List (Registry.Call ℕ)
opening = registers (113 ∷ []) 4 ∷ creates (113 ∷ []) ∷ removes 1 ∷ []

abbrev second : Registry.MatchRegistry ℕ ℕ
second = Registry.run number_of opening empty_registry

run-create_match_example :
    ((find (113 ∷ []) second.factories ≡ none)
      × (create_match number_of (113 ∷ []) second ≡ (none, second)))
    ⊎ ((f : ℕ) × (find (113 ∷ []) second.factories ≡ some f)
        × ((create_match number_of (113 ∷ []) second).0 ≡ some second.next_id)
        × (find_match second.next_id second ≡ none)
        × (find_match 7 (create_match number_of (113 ∷ []) second).1 ≡ (
            if same {A = ℕ} 7 second.next_id
            then some (number_of second.next_id (113 ∷ []) f)
            else find_match 7 second)))
run-create_match_example = run-create_match number_of opening (113 ∷ []) 7 (omega arith)
