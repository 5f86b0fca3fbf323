-- ===== src/Matchmaker/Pairing/Partition.antt =====
-- Where the tickets are behind TryMatch.
use libiouring_server.Common.{
  ℕ, zero, suc, ◌+◌, ◌≡◌, refl, sym, ap, subst, ◌∙◌, Bool, true, false, List, [], ◌∷◌, ◌++◌, map,
  length, replicate, Option, none, some, leb, ltb, if◌then◌else◌, if_cases, append_assoc,
  append-nil,
}
use mathlib.Core.List.Perm
use mathlib.Core.List.{Perm, perm_middle, perm_append_comm}
use libiouring_server.Presence.Registry.{PlayerRegistry}
use libiouring_server.Matchmaker.Query.{Doubles}
use libiouring_server.Matchmaker.Queue.{MatchmakerTicket, MatchmakerQueue}
use libiouring_server.Matchmaker.Pairing.{
  ParsedTicket, parse_ticket, picked, unpicked, mark, accept_each_other, gather, Group,
  create_match, match_loop, members, Tried, try_match,
}

picked-nil {ℓ} : {A : Type ℓ} (ps : List A) → picked ps [] ≡ []
unfolding picked
picked-nil [] = refl
picked-nil (p ∷ ps) = refl

same_tickets :
    (d : Doubles) (ts : List MatchmakerTicket)
    → map (λ (p : ParsedTicket). p.ticket) (map (parse_ticket d) ts) ≡ ts
unfolding parse_ticket
same_tickets d [] = refl
same_tickets d (t ∷ ts) = ap (◌∷◌ t) (same_tickets d ts)

map-append : {A B : Type 0} (f : A → B) (xs ys : List A) → map f (xs ++ ys) ≡ map f xs ++ map f ys
map-append f [] ys = refl
map-append f (x ∷ xs) ys = ap (◌∷◌ (f x)) (map-append f xs ys)

-- Whom a group takes had no flag, and has one behind it.
gather-Perm :
    (d : Doubles) (p : ParsedTicket) (size : ℕ) (qs : List ParsedTicket) (used : List Bool)
    → Perm
        (unpicked qs used)
        (picked qs (gather d p size qs used) ++ unpicked qs (mark used (gather d p size qs used)))
unfolding gather picked unpicked mark
gather-Perm d p size [] used = Perm.nil
gather-Perm d p size (q ∷ qs) [] = Perm.refl (q ∷ qs)
gather-Perm d p size (q ∷ qs) (true ∷ used) = gather-Perm d p size qs used
gather-Perm d p size (q ∷ qs) (false ∷ used) =
    let joins = accept_each_other d p q in
    let next = if joins then size + 1 else size in
    let rest = gather d p next qs used in
    let rec = gather-Perm d p next qs used in
    let Splits = λ (r : List Bool).
      Perm (unpicked (q ∷ qs) (false ∷ used))
        (picked (q ∷ qs) r ++ unpicked (q ∷ qs) (mark (false ∷ used) r)) in
    if_cases Splits joins
      (λ j.
        if_cases (λ r. Splits (true ∷ r)) (leb p.ticket.max_count (size + 1))
          (λ f. Perm.cons q (
            subst (λ z. Perm (unpicked qs used) (z ++ unpicked qs used)) (sym (picked-nil qs))
              (Perm.refl (unpicked qs used))))
          (λ f. Perm.cons q rec))
      (λ j.
        Perm.trans (Perm.cons q rec)
          (Perm.symm (perm_middle (picked qs rest) (unpicked qs (mark used rest)))))

unfoldable taken : List Group → List ParsedTicket
taken [] = []
taken (g ∷ gs) = (g.leader ∷ g.others) ++ taken gs

-- The leader and the others of a group, against what is left and the later groups.
regroup :
    {A : Type 0} (p : A) (old group left later : List A) {rest : List A}
    → Perm old (group ++ rest)
    → Perm rest (left ++ later)
    → Perm (p ∷ old) (left ++ ((p ∷ group) ++ later))
regroup p old group left later {rest} h g =
    let swapped =
      subst (λ z. Perm z (left ++ (group ++ later))) (append_assoc group left later)
        (subst (λ z. Perm ((group ++ left) ++ later) z) (append_assoc left group later)
          (Perm.append_right later (perm_append_comm group left))) in
    Perm.trans (Perm.cons p (Perm.trans h (Perm.trans (Perm.append_left group g) swapped)))
      (Perm.symm (perm_middle left (group ++ later)))

match_loop-Perm :
    (d : Doubles) (create : MatchmakerTicket → Option ℕ) (ps : List ParsedTicket) (used : List Bool)
    → Perm
        (unpicked ps used)
        (unpicked ps (match_loop d create ps used).1 ++ taken (match_loop d create ps used).0)
unfolding match_loop unpicked taken
match_loop-Perm d create [] used = Perm.nil
match_loop-Perm d create (p ∷ ps) [] = rw (append-nil ps) (Perm.refl (p ∷ ps))
match_loop-Perm d create (p ∷ ps) (true ∷ used) = match_loop-Perm d create ps used
match_loop-Perm d create (p ∷ ps) (false ∷ used) =
    let group = gather d p 1 ps used in
    elim (create_match create p.ticket (1 + length (picked ps group)))
      as (λ o. Perm (p ∷ unpicked ps used) (unpicked (p ∷ ps) (found o).1 ++ taken (found o).0)) [
        | none ↦ Perm.cons p (match_loop-Perm d create ps used)
        | some id ↦
            let next = match_loop d create ps (mark used group) in
            regroup p (unpicked ps used) (picked ps group) (unpicked ps next.1) (taken next.0)
              (gather-Perm d p 1 ps used) (match_loop-Perm d create ps (mark used group))
      ]
  where
    found : Option ℕ → List Group × List Bool
    found none = let (groups, after) = match_loop d create ps used in (groups, false ∷ after)
    found (some id) =
        let group = gather d p 1 ps used in
        let (groups, after) = match_loop d create ps (mark used group) in
        (record { match_id = id; leader = p; others = picked ps group } ∷ groups, true ∷ after)

-- The tickets that TryMatch has taken out, group by group.
unfoldable pub taken_tickets : List Group → List MatchmakerTicket
taken_tickets [] = []
taken_tickets (g ∷ gs) = members g ++ taken_tickets gs

tickets-taken :
    (gs : List Group) → map (λ (p : ParsedTicket). p.ticket) (taken gs) ≡ taken_tickets gs
unfolding taken taken_tickets
tickets-taken [] = refl
tickets-taken (g ∷ gs) =
    map-append (λ (p : ParsedTicket). p.ticket) (g.leader ∷ g.others) (taken gs)
    ∙ ap (λ (z : List MatchmakerTicket). members g ++ z) (tickets-taken gs)

map-unpicked :
    (d : Doubles) (ts : List MatchmakerTicket) (flags : List Bool)
    → map (λ (p : ParsedTicket). p.ticket) (unpicked (map (parse_ticket d) ts) flags)
      ≡ unpicked ts flags
unfolding unpicked parse_ticket
map-unpicked d [] flags = refl
map-unpicked d (t ∷ ts) [] = ap (◌∷◌ t) (same_tickets d ts)
map-unpicked d (t ∷ ts) (true ∷ flags) = map-unpicked d ts flags
map-unpicked d (t ∷ ts) (false ∷ flags) = ap (◌∷◌ t) (map-unpicked d ts flags)

unpicked-none : {A : Type 0} (ts : List A) (n : ℕ) → unpicked ts (replicate n false) ≡ ts
unfolding unpicked
unpicked-none [] n = refl
unpicked-none (t ∷ ts) zero = refl
unpicked-none (t ∷ ts) (suc n) = ap (◌∷◌ t) (unpicked-none ts n)

-- Whatever the match registry answers: the tickets that TryMatch leaves in the queue, together with
-- the members of the groups that it has found a match for, are the tickets of the queue before, in
-- some order; so none is lost, and none is in two groups.
pub try_match-Perm :
    (d : Doubles) (create : MatchmakerTicket → Option ℕ) (registry : PlayerRegistry)
    (allocated : MatchmakerTicket → Bool) (q : MatchmakerQueue)
    → Perm q.tickets (
        (try_match d create registry allocated q).queue.tickets
        ++ taken_tickets (try_match d create registry allocated q).groups)
unfolding try_match taken_tickets
try_match-Perm d create registry allocated q =
    let parsed = map (parse_ticket d) q.tickets in
    let flags = replicate (length q.tickets) false in
    let loop = match_loop d create parsed flags in
    let whole = Perm.map (λ (p : ParsedTicket). p.ticket) (match_loop-Perm d create parsed flags) in
    let before = map-unpicked d q.tickets flags ∙ unpicked-none q.tickets (length q.tickets) in
    let after =
      map-append (λ (p : ParsedTicket). p.ticket) (unpicked parsed loop.1) (taken loop.0)
      ∙ ap (λ (z : List MatchmakerTicket). z ++ map (λ (p : ParsedTicket). p.ticket) (taken loop.0))
          (map-unpicked d q.tickets loop.1)
      ∙ ap (λ (z : List MatchmakerTicket). unpicked q.tickets loop.1 ++ z) (tickets-taken loop.0) in
    if_cases (λ (r : Tried). Perm q.tickets (r.queue.tickets ++ taken_tickets r.groups))
      (ltb (length q.tickets) 2) (λ few. rw (append-nil q.tickets) (Perm.refl q.tickets))
      (λ many. subst (Perm q.tickets) after (
        subst
          (λ z.
            Perm z (map (λ (p : ParsedTicket). p.ticket) (unpicked parsed loop.1 ++ taken loop.0)))
          before whole))
