-- ===== src/Matchmaker/Examples.antt =====
-- Three tickets, of which one expires, and a queue in which two of them are put together.
use libiouring_server.Common.{
  ℕ, ◌+◌, ◌*◌, ◌≤◌, ◌<◌, ◌≡◌, refl, ◌⊎◌, List, [], ◌∷◌, ◌++◌, length, none, if◌then◌else◌, true,
  All, Option, some, leb, ltb, arith,
}
use mathlib.Core.List.{Perm}
use libiouring_server.Common.Maps.{same, text_eq, texts_equal}
use libiouring_server.Common.Texts.{codes}
use libiouring_server.Matchmaker.Query.{
  Doubles, eq, neq, gte, text, number, Condition, parse_loop, parse,
}
use libiouring_server.Matchmaker.Query.Rounds.{parse_loop-parse}
use libiouring_server.Matchmaker.Query.Print.{Reads, print, parse-print}
use libiouring_server.Matchmaker.Pairing.{
  try_match, packet, overflow, match_found, write_match_found,
}
use libiouring_server.Matchmaker.Pairing.Partition.{taken_tickets, try_match-Perm}
use libiouring_server.Matchmaker.Pairing.Groups.{
  IsFair, try_match-IsFair, write_match_found-overflow,
}
use libiouring_server.Presence.Registry.{PlayerRegistry}
use libiouring_server.Matchmaker.Queue.{MatchmakerTicket, MatchmakerQueue}

abbrev ticket : ℕ → ℕ → MatchmakerTicket
ticket player timeout = record {
  ticket_id = 0;
  player_id = player;
  context_id = 0;
  min_count = 2;
  max_count = 2;
  query = 42 ∷ [];
  handler_name = 113 ∷ [];
  string_props = [];
  numeric_props = [];
  submitted_at = 0;
  timeout = timeout;
}

abbrev nobody : PlayerRegistry
nobody = record { players = [] }

-- The bits of the double 11.0.
abbrev eleven : ℕ
eleven = 4622382067542392832

abbrev show : ℕ → List ℕ
show x = codes "11"

-- Of the texts of numbers, only the one below is read.
abbrev doubles : Doubles
doubles = record {
  from_chars = λ s. if same s (codes "11") then some eleven else none;
  ge = λ a b. leb b a;
  gt = λ a b. ltb b a;
  le = leb;
  lt = ltb;
}

-- +m:r +l:>=11 -m:b
abbrev wishes : List Condition
wishes =
    record { key = 109 ∷ []; op = eq; value = text (114 ∷ []) }
    ∷ record { key = 108 ∷ []; op = gte; value = number eleven }
    ∷ record { key = 109 ∷ []; op = neq; value = text (98 ∷ []) }
    ∷ []

-- 11 is read back.
number-Reads : Reads doubles show eleven
unfolding same texts_equal
number-Reads = (refl, (refl, (refl, tt)), refl)

parse-print_example : parse doubles (print doubles show wishes) ≡ wishes
parse-print_example = parse-print doubles show wishes (
  ((refl, tt), ((refl, tt), refl, refl)),
  (((refl, tt), number-Reads), (((refl, tt), (refl, tt)), tt)),
)

parse_loop-parse_example :
    parse_loop doubles 6 (43 ∷ 109 ∷ 58 ∷ 114 ∷ [])
    ≡ some (parse doubles (43 ∷ 109 ∷ 58 ∷ 114 ∷ []))
parse_loop-parse_example = parse_loop-parse doubles 6 (43 ∷ 109 ∷ 58 ∷ 114 ∷ []) (omega arith)

abbrev full_queue : MatchmakerQueue
full_queue = record { tickets = ticket 7 30 ∷ ticket 8 30 ∷ ticket 9 30 ∷ []; next_ticket_id = 4 }

abbrev yes_match : MatchmakerTicket → Option ℕ
yes_match t = some 1

try_match-Perm_example : Perm full_queue.tickets (
    (try_match doubles yes_match nobody (λ t. true) full_queue).queue.tickets
    ++ taken_tickets (try_match doubles yes_match nobody (λ t. true) full_queue).groups)
try_match-Perm_example = try_match-Perm doubles yes_match nobody (λ t. true) full_queue

try_match-IsFair_example :
    All (IsFair doubles) (try_match doubles yes_match nobody (λ t. true) full_queue).groups
try_match-IsFair_example = try_match-IsFair doubles yes_match nobody (λ t. true) full_queue

write_match_found-overflow_example :
    ((length full_queue.tickets < 256)
      × (write_match_found 1 full_queue.tickets 0 7 ≡ packet 0 7 (match_found 1 full_queue.tickets))
      × (length (match_found 1 full_queue.tickets) ≡ 13 + 8 * length full_queue.tickets))
    ⊎ ((256 ≤ length full_queue.tickets) × (write_match_found 1 full_queue.tickets 0 7 ≡ overflow))
write_match_found-overflow_example = write_match_found-overflow 1 0 7 full_queue.tickets
