-- ===== src/Matchmaker/Pairing.antt =====
-- TryMatch of src/game/matchmaker/MatchmakerQueue.cpp. `used` and `group` are lists of flags along
-- the tickets. What the match registry answers and whether the pool has a buffer are arguments.
pub mod Partition
pub mod Groups
use libiouring_server.Common.{
  ℕ, suc, ◌+◌, ◌*◌, ◌%◌, ◌^◌, Bool, true, false, not, ◌&&◌, ◌||◌, List, [], ◌∷◌, ◌++◌, map, length,
  replicate, Option, none, some, leb, ltb, if◌then◌else◌,
}
use libiouring_server.Common.Maps.{same, text_eq}
use libiouring_server.Presence.Registry.{PlayerRegistry, Entry, find_player}
use libiouring_server.Matchmaker.Query.{Doubles, Condition, Properties, parse, evaluate}
use libiouring_server.Matchmaker.Queue.{MatchmakerTicket, MatchmakerQueue, le_bytes}

unfoldable pub ticket_to_props : MatchmakerTicket → Properties
ticket_to_props t = record {
  string_keys = map (λ (x : List ℕ × List ℕ). x.0) t.string_props;
  string_values = map (λ (x : List ℕ × List ℕ). x.1) t.string_props;
  numeric_keys = map (λ (x : List ℕ × ℕ). x.0) t.numeric_props;
  numeric_values = map (λ (x : List ℕ × ℕ). x.1) t.numeric_props;
}

pub record ParsedTicket : Type 0 where
  pub ticket : MatchmakerTicket
  pub conditions : List Condition
  pub props : Properties

unfoldable pub parse_ticket : Doubles → MatchmakerTicket → ParsedTicket
parse_ticket d t = record { ticket = t; conditions = parse d t.query; props = ticket_to_props t }

-- The tickets with a flag, and those without one.
unfoldable pub picked {ℓ} : {A : Type ℓ} → List A → List Bool → List A
picked [] flags = []
picked (p ∷ ps) [] = []
picked (p ∷ ps) (true ∷ flags) = p ∷ picked ps flags
picked (p ∷ ps) (false ∷ flags) = picked ps flags

unfoldable pub unpicked {ℓ} : {A : Type ℓ} → List A → List Bool → List A
unpicked [] flags = []
unpicked (p ∷ ps) [] = p ∷ ps
unpicked (p ∷ ps) (true ∷ flags) = unpicked ps flags
unpicked (p ∷ ps) (false ∷ flags) = p ∷ unpicked ps flags

-- used[idx] = true, for each of a group.
unfoldable pub mark : List Bool → List Bool → List Bool
mark used [] = used
mark [] (g ∷ group) = []
mark (u ∷ used) (g ∷ group) = (u || g) ∷ mark used group

unfoldable pub accept_each_other : Doubles → ParsedTicket → ParsedTicket → Bool
accept_each_other d p q =
    same q.ticket.handler_name p.ticket.handler_name
    && (evaluate d p.conditions q.props && evaluate d q.conditions p.props)

-- The inner loop: who joins the ticket p in a group that has `size` so far.
unfoldable pub gather : Doubles → ParsedTicket → ℕ → List ParsedTicket → List Bool → List Bool
gather d p size [] used = []
gather d p size (q ∷ qs) [] = []
gather d p size (q ∷ qs) (true ∷ used) = false ∷ gather d p size qs used
gather d p size (q ∷ qs) (false ∷ used) =
    let joins = accept_each_other d p q in
    let rest = gather d p (if joins then size + 1 else size) qs used in
    if joins then true ∷ (if leb p.ticket.max_count (size + 1) then [] else rest) else false ∷ rest

pub record Group : Type 0 where
  pub match_id : ℕ
  pub leader : ParsedTicket
  pub others : List ParsedTicket

-- What CreateMatch answers, if the group is large enough to ask for a match.
unfoldable pub create_match : (MatchmakerTicket → Option ℕ) → MatchmakerTicket → ℕ → Option ℕ
create_match create t size = if leb t.min_count size then create t else none

-- The outer loop: the groups, and the flags at the end.
unfoldable pub match_loop :
    Doubles → (MatchmakerTicket → Option ℕ) → List ParsedTicket → List Bool → List Group × List Bool
match_loop d create [] used = ([], [])
match_loop d create (p ∷ ps) [] = ([], [])
match_loop d create (p ∷ ps) (true ∷ used) =
    let (groups, after) = match_loop d create ps used in (groups, true ∷ after)
match_loop d create (p ∷ ps) (false ∷ used) =
    let group = gather d p 1 ps used in
    elim (create_match create p.ticket (1 + length (picked ps group))) [
      | none ↦ let (groups, after) = match_loop d create ps used in (groups, false ∷ after)
      | some id ↦
          let (groups, after) = match_loop d create ps (mark used group) in
          (record { match_id = id; leader = p; others = picked ps group } ∷ groups, true ∷ after)
    ]

abbrev pub members : Group → List MatchmakerTicket
members g = g.leader.ticket ∷ map (λ (p : ParsedTicket). p.ticket) g.others

-- A call of RequestJoin.
pub record Join : Type 0 where
  pub match_id : ℕ
  pub player : ℕ
  pub context : ℕ

unfoldable pub request_joins : ℕ → List MatchmakerTicket → List Join
request_joins id [] = []
request_joins id (t ∷ ts) =
    record { match_id = id; player = t.player_id; context = t.context_id } ∷ request_joins id ts

-- A packet to a player; or bytes are written past the end of the buffer.
pub data Packet : Type 0 where
  packet : ℕ → ℕ → List ℕ → Packet
  overflow : Packet

unfoldable pub player_ids : List MatchmakerTicket → List ℕ
player_ids [] = []
player_ids (t ∷ ts) = le_bytes 8 t.player_id ++ player_ids ts

unfoldable pub match_found : ℕ → List MatchmakerTicket → List ℕ
match_found id group =
    le_bytes 2 (13 + length group % 256 * 8)
    ++ le_bytes 2 0x3001
    ++ le_bytes 8 id
    ++ length group % 256 ∷ player_ids group

-- The count of the players is an uint8_t, and the size of the buffer is computed from it.
unfoldable pub write_match_found : ℕ → List MatchmakerTicket → ℕ → ℕ → Packet
write_match_found id group context player =
    if leb (length (match_found id group)) (13 + length group % 256 * 8)
    then packet context player (match_found id group)
    else overflow

unfoldable pub notify_one :
    PlayerRegistry → Bool → ℕ → List MatchmakerTicket → MatchmakerTicket → List Packet
notify_one registry allocated id group t = elim (find_player t.player_id registry) [
  | none ↦ []
  | some e ↦ if allocated then write_match_found id group e.context_id t.player_id ∷ [] else []
]

unfoldable pub notify_match_found :
    PlayerRegistry
    → (MatchmakerTicket → Bool)
    → ℕ
    → List MatchmakerTicket
    → List MatchmakerTicket
    → List Packet
notify_match_found registry allocated id group [] = []
notify_match_found registry allocated id group (t ∷ ts) =
    notify_one registry (allocated t) id group t
    ++ notify_match_found registry allocated id group ts

-- What TryMatch does outside the queue, and the queue behind it.
pub record Tried : Type 0 where
  pub groups : List Group
  pub joins : List Join
  pub packets : List Packet
  pub queue : MatchmakerQueue

unfoldable pub all_joins : List Group → List Join
all_joins [] = []
all_joins (g ∷ gs) = request_joins g.match_id (members g) ++ all_joins gs

unfoldable pub all_packets : PlayerRegistry → (MatchmakerTicket → Bool) → List Group → List Packet
all_packets registry allocated [] = []
all_packets registry allocated (g ∷ gs) =
    notify_match_found registry allocated g.match_id (members g) (members g)
    ++ all_packets registry allocated gs

unfoldable pub try_match :
    Doubles
    → (MatchmakerTicket → Option ℕ)
    → PlayerRegistry
    → (MatchmakerTicket → Bool)
    → MatchmakerQueue
    → Tried
try_match d create registry allocated q =
    let parsed = map (parse_ticket d) q.tickets in
    let (groups, used) = match_loop d create parsed (replicate (length q.tickets) false) in
    if ltb (length q.tickets) 2
    then record { groups = []; joins = []; packets = []; queue = q }
    else record {
      groups = groups;
      joins = all_joins groups;
      packets = all_packets registry allocated groups;
      queue = record q { tickets = unpicked q.tickets used };
    }
