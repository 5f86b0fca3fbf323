-- ===== src/Matchmaker/Pairing/Groups.antt =====
-- Who is put into a group by TryMatch, and the packet that tells its members.
use libiouring_server.Common.{
  ℕ, zero, suc, ◌+◌, ◌*◌, ◌/◌, ◌%◌, replicate, ◌≤◌, ◌<◌, ◌≡◌, refl, ap, subst, ◌⊎◌, Bool, true,
  false, List, [], ◌∷◌, ◌++◌, map, length, length-append, All, Option, none, some, inr, leb, ltb,
  if◌then◌else◌, if_cases, arith,
}
use libiouring_server.Presence.Registry.{PlayerRegistry}
use libiouring_server.Matchmaker.Query.{Doubles}
use libiouring_server.Matchmaker.Queue.{MatchmakerTicket, MatchmakerQueue, le_bytes}
use libiouring_server.Matchmaker.Pairing.{
  ParsedTicket, parse_ticket, picked, mark, accept_each_other, gather, Group, create_match,
  match_loop, Tried, try_match, player_ids, match_found, packet, overflow, write_match_found,
}

-- Each member accepts the leader and is accepted by it, for one handler; there are enough of them
-- for the leader, and not more than it allows, where it allows two.
abbrev pub IsFair : Doubles → Group → Type 0
IsFair d g =
    All (λ (q : ParsedTicket). accept_each_other d g.leader q ≡ true) g.others
    × (g.leader.ticket.min_count ≤ 1 + length g.others)
    × ((1 + length g.others ≤ g.leader.ticket.max_count) ⊎ (length g.others ≤ 1))

picked-nil_length : (ps : List ParsedTicket) → length (picked ps []) ≡ 0
unfolding picked
picked-nil_length [] = refl
picked-nil_length (p ∷ ps) = refl

none_Fit : (P : ParsedTicket → Type 0) (ps : List ParsedTicket) → All P (picked ps [])
unfolding picked
none_Fit P [] = tt
none_Fit P (p ∷ ps) = tt

grow :
    (most size n next : ℕ)
    → leb most (size + 1) ≡ false
    → next ≡ size + 1
    → (next + n ≤ most) ⊎ (n ≤ 1)
    → (size + suc n ≤ most) ⊎ (suc n ≤ 1)
grow most size n next f e h = ground arith

create_match-enough :
    (create : MatchmakerTicket → Option ℕ) (t : MatchmakerTicket) (size id : ℕ)
    → create_match create t size ≡ some id
    → t.min_count ≤ size
unfolding create_match
create_match-enough create t size id e = ground arith

Fits : Doubles → ParsedTicket → ℕ → List ParsedTicket → Type 0
Fits d p size qs =
    All (λ (q : ParsedTicket). accept_each_other d p q ≡ true) qs
    × ((size + length qs ≤ p.ticket.max_count) ⊎ (length qs ≤ 1))

gather-Fits :
    (d : Doubles) (p : ParsedTicket) (size : ℕ) (qs : List ParsedTicket) (used : List Bool)
    → Fits d p size (picked qs (gather d p size qs used))
unfolding gather picked Fits
gather-Fits d p size [] used = (tt, inr (omega arith))
gather-Fits d p size (q ∷ qs) [] = (tt, inr (omega arith))
gather-Fits d p size (q ∷ qs) (true ∷ used) = gather-Fits d p size qs used
gather-Fits d p size (q ∷ qs) (false ∷ used) =
    let joins = accept_each_other d p q in
    let next = if joins then size + 1 else size in
    let rest = gather d p next qs used in
    let rec = gather-Fits d p next qs used in
    let same_size = λ (j : joins ≡ true). ap (λ b. if b then size + 1 else size) j in
    let other_size = λ (j : joins ≡ false). ap (λ b. if b then size + 1 else size) j in
    if_cases (λ r. Fits d p size (picked (q ∷ qs) r)) joins
      (λ j.
        if_cases (λ r. Fits d p size (picked (q ∷ qs) (true ∷ r)))
          (leb p.ticket.max_count (size + 1))
          (λ f. (
            (j, none_Fit (λ (x : ParsedTicket). accept_each_other d p x ≡ true) qs),
            inr (omega (arith, picked-nil_length qs)),
          ))
          (λ f. (
            (j, rec.0),
            grow p.ticket.max_count size (length (picked qs rest)) next f (same_size j) rec.1,
          )))
      (λ j. (
        rec.0,
        subst
            (λ z.
              (z + length (picked qs rest) ≤ p.ticket.max_count) ⊎ (length (picked qs rest) ≤ 1))
            (other_size j) rec.1,
      ))

pub match_loop-IsFair :
    (d : Doubles) (create : MatchmakerTicket → Option ℕ) (ps : List ParsedTicket) (used : List Bool)
    → All (IsFair d) (match_loop d create ps used).0
unfolding match_loop Fits
match_loop-IsFair d create [] used = tt
match_loop-IsFair d create (p ∷ ps) [] = tt
match_loop-IsFair d create (p ∷ ps) (true ∷ used) = match_loop-IsFair d create ps used
match_loop-IsFair d create (p ∷ ps) (false ∷ used) =
    let group = gather d p 1 ps used in
    let size = 1 + length (picked ps group) in
    (elim (create_match create p.ticket size)
        as (λ o. create_match create p.ticket size ≡ o → All (IsFair d) (found o).0) [
          | none ↦ λ e. match_loop-IsFair d create ps used
          | some id ↦ λ e. (
            (
              (gather-Fits d p 1 ps used).0,
              create_match-enough create p.ticket size id e,
              (gather-Fits d p 1 ps used).1,
            ),
            match_loop-IsFair d create ps (mark used group),
          )
        ])
      refl
  where
    found : Option ℕ → List Group × List Bool
    found none = let (groups, after) = match_loop d create ps used in (groups, false ∷ after)
    found (some id) =
        let group = gather d p 1 ps used in
        let (groups, after) = match_loop d create ps (mark used group) in
        (record { match_id = id; leader = p; others = picked ps group } ∷ groups, true ∷ after)

-- In every group that TryMatch has found a match for, each other member is for the handler of the
-- first one, accepts it and is accepted by it; the group has at least as many members as the first
-- one asks for, and at most as many as it allows, or two.
pub try_match-IsFair :
    (d : Doubles) (create : MatchmakerTicket → Option ℕ) (registry : PlayerRegistry)
    (allocated : MatchmakerTicket → Bool) (q : MatchmakerQueue)
    → All (IsFair d) (try_match d create registry allocated q).groups
unfolding try_match
try_match-IsFair d create registry allocated q =
    if_cases (λ (r : Tried). All (IsFair d) r.groups) (ltb (length q.tickets) 2) (λ few. tt)
      (λ many.
        match_loop-IsFair d create (map (parse_ticket d) q.tickets)
          (replicate (length q.tickets) false))

length-le_bytes : (n x : ℕ) → length (le_bytes n x) ≡ n
unfolding le_bytes
length-le_bytes zero x = refl
length-le_bytes (suc n) x = ap suc (length-le_bytes n (x / 256))

length-player_ids : (ts : List MatchmakerTicket) → length (player_ids ts) ≡ 8 * length ts
unfolding player_ids
length-player_ids [] = refl
length-player_ids (t ∷ ts) = omega (
  arith,
  length-append (le_bytes 8 t.player_id) (player_ids ts),
  length-le_bytes 8 t.player_id,
  length-player_ids ts,
)

length-match_found :
    (id : ℕ) (group : List MatchmakerTicket) → length (match_found id group) ≡ 13 + 8 * length group
unfolding match_found
length-match_found id group =
    let size = le_bytes 2 (13 + length group % 256 * 8) in
    let ids = length group % 256 ∷ player_ids group in
    omega (
      arith,
      length-append (size ++ le_bytes 2 0x3001 ++ le_bytes 8 id) ids,
      length-append (size ++ le_bytes 2 0x3001) (le_bytes 8 id),
      length-append size (le_bytes 2 0x3001),
      length-le_bytes 2 (13 + length group % 256 * 8),
      length-le_bytes 2 0x3001,
      length-le_bytes 8 id,
      length-player_ids group,
    )

-- The packet that tells of a match is 13 bytes long and 8 more for each member; it fits the buffer,
-- whose size comes from a count of the members in one byte, exactly up to 255 members, and behind
-- that NotifyMatchFound writes past the end of the buffer.
pub write_match_found-overflow :
    (id context player : ℕ) (group : List MatchmakerTicket)
    → ((length group < 256)
        × (write_match_found id group context player ≡ packet context player (match_found id group))
        × (length (match_found id group) ≡ 13 + 8 * length group))
      ⊎ ((256 ≤ length group) × (write_match_found id group context player ≡ overflow))
unfolding write_match_found
write_match_found-overflow id context player group =
    let n = length-match_found id group in ground arith
