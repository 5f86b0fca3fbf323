-- ===== src/Matchmaker/Query.antt =====
-- src/game/matchmaker/QueryParser.cpp. A text is a list of codes, a position in it the rest of the
-- text. A double is its 64 bits; std::from_chars and the order of doubles are parameters.
pub mod Rounds
pub mod Print
use libiouring_server.Common.{
  ℕ, zero, suc, ◌+◌, ◌==◌, Bool, true, false, not, List, [], ◌∷◌, ◌++◌, if◌then◌else◌, Option, none,
  some, length, take, drop,
}
use libiouring_server.Common.Maps.{same, text_eq}

pub record Doubles : Type 0 where
  pub from_chars : List ℕ → Option ℕ
  pub ge : ℕ → ℕ → Bool
  pub gt : ℕ → ℕ → Bool
  pub le : ℕ → ℕ → Bool
  pub lt : ℕ → ℕ → Bool

pub data Op : Type 0 where
  eq neq gte gt lte lt : Op

pub data Value : Type 0 where
  text : List ℕ → Value
  number : ℕ → Value

pub record Condition : Type 0 where
  pub key : List ℕ
  pub op : Op
  pub value : Value

pub record Properties : Type 0 where
  pub string_keys : List (List ℕ)
  pub string_values : List (List ℕ)
  pub numeric_keys : List (List ℕ)
  pub numeric_values : List ℕ

unfoldable pub skip_spaces : List ℕ → List ℕ
skip_spaces [] = []
skip_spaces (c ∷ cs) = if c == 32 then skip_spaces cs else c ∷ cs

-- std::string_view::find
unfoldable pub find_code : ℕ → List ℕ → Option ℕ
find_code c [] = none
find_code c (d ∷ ds) =
    let rest = find_code c ds in
    if d == c then some 0 else elim rest [ none ↦ none | some k ↦ some (k + 1) ]

-- The operator in front of a value, and the value behind it.
unfoldable pub operator : List ℕ → Op × List ℕ
operator [] = (eq, [])
operator (a ∷ []) = if a == 62 then (gt, []) else if a == 60 then (lt, []) else (eq, a ∷ [])
operator (a ∷ b ∷ v) =
    if a == 62
    then (if b == 61 then (gte, v) else (gt, b ∷ v))
    else if a == 60
    then (if b == 61 then (lte, v) else (lt, b ∷ v))
    else (eq, a ∷ b ∷ v)

-- What a value is compared with: a text, or a number, if it is one.
unfoldable pub read_operand : Doubles → List ℕ → Op × List ℕ → List Condition
read_operand d key (eq, v) = record { key = key; op = eq; value = text v } ∷ []
read_operand d key (op, v) = elim (d.from_chars v) [
  | none ↦ []
  | some x ↦ record { key = key; op = op; value = number x } ∷ []
]

unfoldable pub condition : Doubles → Bool → List ℕ → List ℕ → List Condition
condition d negate key v =
    if negate
    then record { key = key; op = neq; value = text v } ∷ []
    else read_operand d key (operator v)

-- How a round of the loop ends: `break`, or with what it has pushed and the rest of the text.
pub data Round : Type 0 where
  stop : Round
  goes_on : List Condition → List ℕ → Round

unfoldable pub value_end : List ℕ → ℕ
value_end q = elim (find_code 32 q) [ none ↦ length q | some k ↦ k ]

unfoldable pub read_value : Doubles → Bool → List ℕ → List ℕ → Round
read_value d negate key q =
    goes_on (condition d negate key (take (value_end q) q)) (drop (value_end q) q)

unfoldable pub read_key : Doubles → Bool → List ℕ → Round
read_key d negate q = elim (find_code 58 q) [
  | none ↦ stop
  | some k ↦ read_value d negate (take k q) (drop (k + 1) q)
]

unfoldable pub read_prefix : Doubles → List ℕ → Round
read_prefix d [] = stop
read_prefix d (c ∷ cs) =
    if c == 43 then read_key d false cs else if c == 45 then read_key d true cs else goes_on [] cs

unfoldable pub prepend : List Condition → Option (List Condition) → Option (List Condition)
prepend new none = none
prepend new (some later) = some (new ++ later)

unfoldable pub after_round : (List ℕ → Option (List Condition)) → Round → Option (List Condition)
after_round go stop = some []
after_round go (goes_on new rest) = prepend new (go rest)

-- The loop of Parse; it answers none when the rounds are used up.
unfoldable pub parse_loop : Doubles → ℕ → List ℕ → Option (List Condition)
parse_loop d n [] = some []
parse_loop d zero (c ∷ cs) = none
parse_loop d (suc n) (c ∷ cs) = after_round (parse_loop d n) (read_prefix d (skip_spaces (c ∷ cs)))

-- A round takes at least one character, so as many rounds as characters are enough.
unfoldable pub parse : Doubles → List ℕ → List Condition
parse d q = elim (parse_loop d (length q) q) [ none ↦ [] | some cs ↦ cs ]

-- The first property of that name.
unfoldable pub lookup {ℓ} : {A : Type ℓ} → List ℕ → List (List ℕ) → List A → Option A
lookup key [] values = none
lookup key (k ∷ ks) [] = none
lookup key (k ∷ ks) (v ∷ vs) = if same k key then some v else lookup key ks vs

unfoldable pub compare_number : Doubles → Op → ℕ → ℕ → Bool
compare_number d gte v x = d.ge v x
compare_number d gt v x = d.gt v x
compare_number d lte v x = d.le v x
compare_number d lt v x = d.lt v x
compare_number d eq v x = false
compare_number d neq v x = false

unfoldable pub compare_text : Op → Option (List ℕ) → List ℕ → Bool
compare_text eq none s = false
compare_text eq (some v) s = same v s
compare_text neq none s = true
compare_text neq (some v) s = not (same v s)
compare_text _ v s = false

unfoldable pub holds : Doubles → Properties → List ℕ → Op → Value → Bool
holds d props key op (number x) = elim (lookup key props.numeric_keys props.numeric_values) [
  | none ↦ false
  | some v ↦ compare_number d op v x
]
holds d props key op (text s) = compare_text op (lookup key props.string_keys props.string_values) s

unfoldable pub evaluate : Doubles → List Condition → Properties → Bool
evaluate d [] props = true
evaluate d (c ∷ cs) props =
    let rest = evaluate d cs props in if holds d props c.key c.op c.value then rest else false
