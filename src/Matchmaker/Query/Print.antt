-- ===== src/Matchmaker/Query/Print.antt =====
-- Parse behind a printer of conditions.
use libiouring_server.Common.{
  ℕ, zero, suc, ◌≤◌, ◌≡◌, refl, ap, ◌∙◌, ◌==◌, Bool, true, false, List, [], ◌∷◌, ◌++◌, All,
  if◌then◌else◌, none, some, length, length-append, append-nil, arith,
}
use libiouring_server.Common.Slices.{take-append_exact, drop-append_exact, drop-append_add}
use libiouring_server.Matchmaker.Query.{
  Doubles, Op, eq, neq, gte, gt, lte, lt, Value, text, number, Condition, skip_spaces, find_code,
  operator, read_operand, condition, goes_on, value_end, read_value, read_key, read_prefix,
  after_round, prepend, parse_loop, parse,
}

abbrev pub Lacks : ℕ → List ℕ → Type 0
Lacks c s = All (λ d. (d == c) ≡ false) s

abbrev pub StartsOtherwise : ℕ → List ℕ → Type 0
StartsOtherwise c [] = Unit
StartsOtherwise c (a ∷ s) = (a == c) ≡ false

abbrev pub print_op : Op → List ℕ
print_op eq = []
print_op neq = []
print_op gte = 62 ∷ 61 ∷ []
print_op gt = 62 ∷ []
print_op lte = 60 ∷ 61 ∷ []
print_op lt = 60 ∷ []

abbrev negates : Op → Bool
negates neq = true
negates _ = false

module _ (d : Doubles) (show : ℕ → List ℕ) where
  -- A number whose text std::from_chars reads back, with no space in it and no equals sign in front.
  abbrev pub Reads : ℕ → Type 0
  Reads x = (d.from_chars (show x) ≡ some x) × Lacks 32 (show x) × StartsOtherwise 61 (show x)

  -- The conditions that a query can say.
  abbrev pub Sayable : Op → Value → Type 0
  Sayable eq (text v) = Lacks 32 v × StartsOtherwise 62 v × StartsOtherwise 60 v
  Sayable neq (text v) = Lacks 32 v
  Sayable gte (number x) = Reads x
  Sayable gt (number x) = Reads x
  Sayable lte (number x) = Reads x
  Sayable lt (number x) = Reads x
  Sayable _ v = ⊥

  abbrev pub IsSayable : Condition → Type 0
  IsSayable c = Lacks 58 c.key × Sayable c.op c.value

  abbrev print_value : Op → Value → List ℕ
  print_value op (text v) = v
  print_value op (number x) = print_op op ++ show x

  -- A space, + or -, the key, a colon and the value.
  unfoldable pub print : List Condition → List ℕ
  print [] = []
  print (c ∷ cs) =
      32
      ∷ (if negates c.op then 45 else 43)
      ∷ (c.key ++ 58 ∷ (print_value c.op c.value ++ print cs))

  operator_plain : (v : List ℕ) → StartsOtherwise 62 v → StartsOtherwise 60 v → operator v ≡ (eq, v)
  unfolding operator
  operator_plain [] h g = refl
  operator_plain (a ∷ []) h g = rw (h, g) refl
  operator_plain (a ∷ b ∷ v) h g = rw (h, g) refl

  operator_gt : (v : List ℕ) → StartsOtherwise 61 v → operator (62 ∷ v) ≡ (gt, v)
  unfolding operator
  operator_gt [] h = refl
  operator_gt (b ∷ v) h = rw h refl

  operator_lt : (v : List ℕ) → StartsOtherwise 61 v → operator (60 ∷ v) ≡ (lt, v)
  unfolding operator
  operator_lt [] h = refl
  operator_lt (b ∷ v) h = rw h refl

  condition_back :
      (key : List ℕ) (op : Op) (v : Value)
      → Sayable op v
      → condition d (negates op) key (print_value op v)
        ≡ record { key = key; op = op; value = v } ∷ []
  unfolding condition read_operand operator
  condition_back key eq (text v) h = rw (operator_plain v h.1 h.2) refl
  condition_back key neq (text v) h = refl
  condition_back key gte (number x) h = rw (h.0) refl
  condition_back key gt (number x) h = rw (operator_gt (show x) h.2, read_operand, h.0) refl
  condition_back key lte (number x) h = rw (h.0) refl
  condition_back key lt (number x) h = rw (operator_lt (show x) h.2, read_operand, h.0) refl
  condition_back key eq (number x) h = absurd h
  condition_back key neq (number x) h = absurd h
  condition_back key gte (text v) h = absurd h
  condition_back key gt (text v) h = absurd h
  condition_back key lte (text v) h = absurd h
  condition_back key lt (text v) h = absurd h

  value-Lacks : (op : Op) (v : Value) → Sayable op v → Lacks 32 (print_value op v)
  value-Lacks eq (text v) h = h.0
  value-Lacks neq (text v) h = h
  value-Lacks gte (number x) h = (refl, (refl, h.1))
  value-Lacks gt (number x) h = (refl, h.1)
  value-Lacks lte (number x) h = (refl, (refl, h.1))
  value-Lacks lt (number x) h = (refl, h.1)
  value-Lacks eq (number x) h = absurd h
  value-Lacks neq (number x) h = absurd h
  value-Lacks gte (text v) h = absurd h
  value-Lacks gt (text v) h = absurd h
  value-Lacks lte (text v) h = absurd h
  value-Lacks lt (text v) h = absurd h

  find_code-append :
      (c : ℕ) (s r : List ℕ)
      → Lacks c s
      → (c == c) ≡ true
      → find_code c (s ++ c ∷ r) ≡ some (length s)
  unfolding find_code
  find_code-append c [] r h e = rw e refl
  find_code-append c (a ∷ s) r h e = rw (h.0, find_code-append c s r h.1 e) (ap some (omega arith))

  find_code-Lacks : (c : ℕ) (s : List ℕ) → Lacks c s → find_code c s ≡ none
  unfolding find_code
  find_code-Lacks c [] h = refl
  find_code-Lacks c (a ∷ s) h = rw (h.0, find_code-Lacks c s h.1) refl

  value_end-print :
      (v : List ℕ) (cs : List Condition) → Lacks 32 v → value_end (v ++ print cs) ≡ length v
  unfolding value_end print
  value_end-print v [] h = ap value_end (append-nil v) ∙ rw (value_end, find_code-Lacks 32 v h) refl
  value_end-print v (c ∷ cs) h =
      let r =
        (if negates c.op then 45 else 43)
        ∷ (c.key ++ 58 ∷ (print_value c.op c.value ++ print cs)) in
      rw (value_end, find_code-append 32 v r h refl) refl

  read_key-print :
      (negate : Bool) (key v : List ℕ) (cs : List Condition)
      → Lacks 58 key
      → Lacks 32 v
      → read_key d negate (key ++ 58 ∷ (v ++ print cs))
        ≡ goes_on (condition d negate key v) (print cs)
  unfolding read_key read_value
  read_key-print negate key v cs h g =
      let r = v ++ print cs in
      rw
        (
          read_key,
          find_code-append 58 key r h refl,
          take-append_exact (length key) key (58 ∷ r) refl,
          drop-append_add 1 key (58 ∷ r),
          value_end-print v cs g,
          take-append_exact (length v) v (print cs) refl,
        )
        (ap (goes_on (condition d negate key v)) (drop-append_exact (length v) v (print cs) refl))

  read_sign :
      (b : Bool) (s : List ℕ)
      → read_prefix d (skip_spaces (32 ∷ (if b then 45 else 43) ∷ s)) ≡ read_key d b s
  unfolding read_prefix skip_spaces
  read_sign true s = refl
  read_sign false s = refl

  read_print :
      (c : Condition) (cs : List Condition)
      → IsSayable c
      → read_prefix d (skip_spaces (print (c ∷ cs))) ≡ goes_on (c ∷ []) (print cs)
  unfolding print
  read_print c cs h =
      read_sign (negates c.op) (c.key ++ 58 ∷ (print_value c.op c.value ++ print cs))
      ∙ read_key-print (negates c.op) c.key (print_value c.op c.value) cs h.0
          (value-Lacks c.op c.value h.1)
      ∙ ap (λ (z : List Condition). goes_on z (print cs)) (condition_back c.key c.op c.value h.1)

  loop_print :
      (n : ℕ) (cs : List Condition)
      → length cs ≤ n
      → All IsSayable cs
      → parse_loop d n (print cs) ≡ some cs
  unfolding parse_loop after_round prepend print
  loop_print n [] h g = refl
  loop_print zero (c ∷ cs) h g = absurd (omega arith)
  loop_print (suc n) (c ∷ cs) h g =
      rw (read_print c cs g.0) (rw (loop_print n cs (omega arith) g.1) refl)

  length-print : (cs : List Condition) → length cs ≤ length (print cs)
  unfolding print
  length-print [] = omega arith
  length-print (c ∷ cs) = omega (
    arith,
    length-append c.key (58 ∷ (print_value c.op c.value ++ print cs)),
    length-append (print_value c.op c.value) (print cs),
    length-print cs,
  )

  -- Where std::from_chars reads back the text that each number in them is written as, and that text
  -- has no space in it and no = in front: a query that is printed from conditions, each a word that
  -- is or is not another word, or a number's bound, is parsed into those conditions. A word has no
  -- space in it, a key no colon, and a word to be equal to no < or > in front.
  pub parse-print : (cs : List Condition) → All IsSayable cs → parse d (print cs) ≡ cs
  unfolding parse
  parse-print cs h = rw (parse, loop_print (length (print cs)) cs (length-print cs) h) refl
