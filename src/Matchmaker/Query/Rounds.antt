-- ===== src/Matchmaker/Query/Rounds.antt =====
-- The rounds of the loop of Parse.
use libiouring_server.Common.{
  ℕ, zero, suc, ◌+◌, ◌≤◌, ◌<◌, ◌≡◌, refl, ◌⊎◌, ◌==◌, Bool, true, false, List, [], ◌∷◌, ◌++◌,
  if_cases, none, some, inl, inr, length, take, drop, length-drop, arith,
}
use libiouring_server.Matchmaker.Query.{
  Doubles, Condition, skip_spaces, find_code, Round, stop, goes_on, value_end, read_value, read_key,
  read_prefix, after_round, prepend, parse_loop, parse,
}

Round-cases :
    (r : Round) → (r ≡ stop) ⊎ ((new : List Condition) × (rest : List ℕ) × (r ≡ goes_on new rest))
Round-cases stop = inl refl
Round-cases (goes_on new rest) = inr (new, rest, refl)

-- The text that a round leaves is shorter than n.
unfoldable Leaves : ℕ → Round → Type 0
Leaves n stop = Unit
Leaves n (goes_on new rest) = length rest < n

length-skip_spaces : (q : List ℕ) → length (skip_spaces q) ≤ length q
unfolding skip_spaces
length-skip_spaces [] = omega arith
length-skip_spaces (c ∷ cs) = ground (arith, length-skip_spaces cs)

read_value-Leaves :
    (d : Doubles) (negate : Bool) (key q : List ℕ) (n : ℕ)
    → length q < n
    → Leaves n (read_value d negate key q)
unfolding read_value Leaves
read_value-Leaves d negate key q n h = omega (arith, length-drop (value_end q) q)

read_key-Leaves :
    (d : Doubles) (negate : Bool) (q : List ℕ) (n : ℕ)
    → length q < n
    → Leaves n (read_key d negate q)
unfolding read_key Leaves
read_key-Leaves d negate q n h =
    elim (find_code 58 q)
      as (λ o.
        Leaves n
          (elim o [ none ↦ stop | some k ↦ read_value d negate (take k q) (drop (k + 1) q) ])) [
            | none ↦ tt
            | some k ↦
                read_value-Leaves d negate (take k q) (drop (k + 1) q) n
                  (omega (arith, length-drop (k + 1) q))
          ]

-- A round takes at least one character.
read_prefix-Leaves : (d : Doubles) (q : List ℕ) (n : ℕ) → length q ≤ n → Leaves n (read_prefix d q)
unfolding read_prefix Leaves
read_prefix-Leaves d [] n h = tt
read_prefix-Leaves d (c ∷ cs) n h =
    if_cases (Leaves n) (c == 43) (λ e. read_key-Leaves d false cs n (omega arith))
      (λ e.
        if_cases (Leaves n) (c == 45) (λ f. read_key-Leaves d true cs n (omega arith))
          (λ f. omega arith))

-- What the loop answers with n rounds, and with any number that is at least the text's length.
abbrev Ends : Doubles → ℕ → List ℕ → Type 0
Ends d n q =
    (cs : List Condition) × (parse_loop d n q ≡ some cs)
    × ((m : ℕ) → length q ≤ m → parse_loop d m q ≡ some cs)

after_round-Ends :
    (d : Doubles) (n b : ℕ) (r : Round)
    → b ≤ n
    → Leaves (suc b) r
    → ((rest : List ℕ) → length rest ≤ n → Ends d n rest)
    → (cs : List Condition) × (after_round (parse_loop d n) r ≡ some cs)
      × ((m : ℕ) → b ≤ m → after_round (parse_loop d m) r ≡ some cs)
unfolding Leaves after_round prepend
after_round-Ends d n b stop h l f = ([], refl, λ m k. refl)
after_round-Ends d n b (goes_on new rest) h l f =
    let (cs, e, g) = f rest (omega arith) in
    (new ++ cs, rw e refl, λ m k. rw (g m (omega arith)) refl)

parse_loop-Ends : (d : Doubles) (n : ℕ) (q : List ℕ) → length q ≤ n → Ends d n q
unfolding parse_loop
parse_loop-Ends d n [] h = ([], refl, λ m k. refl)
parse_loop-Ends d zero (c ∷ cs) h = absurd (omega arith)
parse_loop-Ends d (suc n) (c ∷ cs) h =
    let r = read_prefix d (skip_spaces (c ∷ cs)) in
    let less =
      read_prefix-Leaves d (skip_spaces (c ∷ cs)) (suc (length cs)) (length-skip_spaces (c ∷ cs)) in
    let (ds, e, f) = after_round-Ends d n (length cs) r (omega arith) less (parse_loop-Ends d n) in
    (ds, e, more c cs ds f)
  where
    more :
        (c : ℕ) (cs : List ℕ) (ds : List Condition)
        → ((m : ℕ)
            → length cs ≤ m
            → after_round (parse_loop d m) (read_prefix d (skip_spaces (c ∷ cs))) ≡ some ds)
        → (m : ℕ) → suc (length cs) ≤ m
        → parse_loop d m (c ∷ cs) ≡ some ds
    more c cs ds f zero k = absurd (omega arith)
    more c cs ds f (suc m) k = f m (omega arith)

-- The loop of Parse ends after at most as many rounds as the query has characters: with that many
-- rounds and with more, it answers the same conditions, which are those of parse.
pub parse_loop-parse :
    (d : Doubles) (n : ℕ) (q : List ℕ) → length q ≤ n → parse_loop d n q ≡ some (parse d q)
unfolding parse
parse_loop-parse d n q h =
    let (cs, e, f) = parse_loop-Ends d n q h in rw (parse, f (length q) (omega arith)) e
