-- ===== src/Match/Players.antt =====
-- How many players a match has.
use libiouring_server.Common.{
  ℕ, ◌≤◌, ◌≡◌, refl, sym, subst, ◌⊎◌, inl, inr, Bool, true, false, not, ◌&&◌, List, [], ◌∷◌, length,
  ltb, leb, if◌then◌else◌, Bool-cases, Option-cases, arith,
}
use libiouring_server.Common.Maps.{nat_eq, same, find, erase, assign}
use libiouring_server.Presence.Registry.{PlayerRegistry}
use libiouring_server.Match.{
  Match, init, seat, handle_join, handle_leave, handle_message, handle_terminate,
}

pub data Call : Type 0 where
  joins : Bool → ℕ → ℕ → Call
  leaves : ℕ → Call
  messages : ℕ → ℕ → List ℕ → Call
  terminates : Call

abbrev pub call : Call → Match → Match
call (joins accepted pid reactor) m = handle_join accepted pid reactor m
call (leaves pid) m = handle_leave pid m
call (messages sender opcode bytes) m = handle_message sender opcode bytes m
call terminates m = handle_terminate m

pub run : Match → List Call → Match
run m [] = m
run m (c ∷ cs) = run (call c m) cs

length-erase : (k : ℕ) (m : List (ℕ × ℕ)) → length (erase k m) ≤ length m
unfolding erase
length-erase k [] = omega arith
length-erase k ((j, v) ∷ m) = elim (Bool-cases (same k j)) [
  | inl e ↦ rw e (omega (arith, length-erase k m))
  | inr e ↦ rw e (omega (arith, length-erase k m))
]

pub record Inv (limit : ℕ) (m : Match) : Type 0 where
  pub limited : m.max_players ≡ limit
  pub bounded : (limit ≡ 0) ⊎ (length m.players ≤ limit)
  pub closed : (m.active ≡ true) ⊎ (m.players ≡ [])

seat-Inv :
    (limit pid reactor : ℕ) (m : Match)
    → m.active ≡ true
    → (ltb 0 m.max_players && leb m.max_players (length m.players)) ≡ false
    → Inv limit m
    → Inv limit (seat pid reactor m)
unfolding seat assign
seat-Inv limit pid reactor m a g v = record {
  limited = v.limited;
  bounded = grind (arith, g, v.limited, length-erase pid m.players);
  closed = inl a;
}

-- Three guards in a row, and what is behind them.
guarded :
    (a g b : Bool) (m s : Match)
    → ((if not a then m else if g then m else if not b then m else s) ≡ m)
      ⊎ ((a ≡ true)
          × (g ≡ false)
          × ((if not a then m else if g then m else if not b then m else s) ≡ s))
guarded false g b m s = inl refl
guarded true true b m s = inl refl
guarded true false false m s = inl refl
guarded true false true m s = inr (refl, refl, refl)

join-Inv :
    (limit : ℕ) (accepted : Bool) (pid reactor : ℕ) (m : Match)
    → Inv limit m
    → Inv limit (handle_join accepted pid reactor m)
unfolding handle_join
join-Inv limit accepted pid reactor m v =
    let full = ltb 0 m.max_players && leb m.max_players (length m.players) in
    elim (guarded m.active full accepted m (seat pid reactor m)) [
      | inl e ↦ subst (Inv limit) (sym e) v
      | inr (a, g, e) ↦ subst (Inv limit) (sym e) (seat-Inv limit pid reactor m a g v)
    ]

nobody_left : (k : ℕ) (m : List (ℕ × ℕ)) → m ≡ [] → erase k m ≡ []
unfolding erase
nobody_left k [] e = refl
nobody_left k (x ∷ xs) e = absurd cc

leave-Inv : (limit pid : ℕ) (m : Match) → Inv limit m → Inv limit (handle_leave pid m)
unfolding handle_leave
leave-Inv limit pid m v = elim (Option-cases (find pid m.players)) [
  | inl n ↦ rw (n, handle_leave) v
  | inr (reactor, n) ↦
      rw (n, handle_leave)
        (record {
          limited = v.limited;
          bounded = grind (arith, v.bounded, length-erase pid m.players);
          closed = elim v.closed [ inl a ↦ inl a | inr e ↦ inr (nobody_left pid m.players e) ];
        })
]

call-Inv : (limit : ℕ) (c : Call) (m : Match) → Inv limit m → Inv limit (call c m)
unfolding handle_message handle_terminate
call-Inv limit (joins accepted pid reactor) m v = join-Inv limit accepted pid reactor m v
call-Inv limit (leaves pid) m v = leave-Inv limit pid m v
call-Inv limit (messages sender opcode bytes) m v = record {
  limited = v.limited;
  bounded = v.bounded;
  closed = v.closed;
}
call-Inv limit terminates m v = record {
  limited = v.limited;
  bounded = inr (omega arith);
  closed = inr refl;
}

run-Inv : (limit : ℕ) (cs : List Call) (m : Match) → Inv limit m → Inv limit (run m cs)
unfolding run
run-Inv limit [] m v = v
run-Inv limit (c ∷ cs) m v = run-Inv limit cs (call c m) (call-Inv limit c m v)

-- Whatever is called on a new match, and whatever its handler answers: it has at most max_players
-- players, where that is not 0, and none once it is no longer active.
pub run-players :
    (id limit : ℕ) (registry : PlayerRegistry) (cs : List Call)
    → ((limit ≡ 0) ⊎ (length (run (init id limit registry) cs).players ≤ limit))
      × (((run (init id limit registry) cs).active ≡ true)
          ⊎ ((run (init id limit registry) cs).players ≡ []))
unfolding init
run-players id limit registry cs =
    let v =
      run-Inv limit cs (init id limit registry)
        (record { limited = refl; bounded = inr (omega arith); closed = inl refl }) in
    (v.bounded, v.closed)
