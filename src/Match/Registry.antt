-- ===== src/Match/Registry.antt =====
-- src/game/match/MatchRegistry.cpp: the matches by their numbers. What a match is, and how it is made
-- from its number, its handler's name and its handler's factory, are parameters; each call holds the
-- mutex while it reads or writes a map, and next_id_ is atomic, so the calls are a sequence.
use libiouring_server.Common.{
  ℕ, ◌+◌, ◌%◌, ◌^◌, ◌≤◌, ◌<◌, ◌≡◌, refl, sym, ap, subst, ◌∙◌, ◌⊎◌, List, [], ◌∷◌, length, Option,
  none, some, Option-cases, Bool-cases, inl, inr, if◌then◌else◌, arith,
}
use libiouring_server.Common.Maps.{
  nat_eq, text_eq, same, same_true, find, erase, assign, find-erase, find-assign,
}

pub record MatchRegistry (F M : Type 0) : Type 0 where
  pub factories : List (List ℕ × F)
  pub matches : List (ℕ × M)
  pub next_id : ℕ

-- The loop of ListMatches.
unfoldable pub labelled : {M : Type 0} → (M → List ℕ) → List ℕ → List (ℕ × M) → List ℕ
labelled label wanted [] = []
labelled label wanted ((id, m) ∷ ms) =
    let rest = labelled label wanted ms in
    if same wanted [] then id ∷ rest else if same (label m) wanted then id ∷ rest else rest

pub data Call (F : Type 0) : Type 0 where
  registers : List ℕ → F → Call F
  creates : List ℕ → Call F
  removes : ℕ → Call F

module _ {F M : Type 0} where
  abbrev pub empty_registry : MatchRegistry F M
  empty_registry = record { factories = []; matches = []; next_id = 1 }

  unfoldable pub register_handler : List ℕ → F → MatchRegistry F M → MatchRegistry F M
  register_handler name factory r = record r { factories = assign name factory r.factories }

  -- CreateMatch: none is kMatchNotFound.
  unfoldable pub create_match :
      (ℕ → List ℕ → F → M) → List ℕ → MatchRegistry F M → Option ℕ × MatchRegistry F M
  create_match make name r = elim (find name r.factories) [
    | none ↦ (none, r)
    | some factory ↦ (
      some r.next_id,
      record r {
        matches = assign r.next_id (make r.next_id name factory) r.matches;
        next_id = (r.next_id + 1) % 2 ^ 64;
      },
    )
  ]

  unfoldable pub find_match : ℕ → MatchRegistry F M → Option M
  find_match id r = find id r.matches

  unfoldable pub remove_match : ℕ → MatchRegistry F M → MatchRegistry F M
  remove_match id r = record r { matches = erase id r.matches }

  unfoldable pub list_matches : (M → List ℕ) → List ℕ → MatchRegistry F M → List ℕ
  list_matches label wanted r = labelled label wanted r.matches

  unfoldable pub active_count : MatchRegistry F M → ℕ
  active_count r = length r.matches

  unfoldable pub call : (ℕ → List ℕ → F → M) → Call F → MatchRegistry F M → MatchRegistry F M
  call make (registers name factory) r = register_handler name factory r
  call make (creates name) r = (create_match make name r).1
  call make (removes id) r = remove_match id r

  unfoldable pub run : (ℕ → List ℕ → F → M) → List (Call F) → MatchRegistry F M → MatchRegistry F M
  run make [] r = r
  run make (c ∷ cs) r = run make cs (call make c r)

  -- Numbers from next_id_ on have not been given out.
  abbrev Unused : MatchRegistry F M → Type 0
  Unused r = (id : ℕ) → r.next_id ≤ id → find id r.matches ≡ none

  gone :
      (i id : ℕ) (r : MatchRegistry F M)
      → find i r.matches ≡ none
      → find i (erase id r.matches) ≡ none
  gone i id r e = ground (arith, find-erase i id r.matches)

  fresh :
      (make : ℕ → List ℕ → F → M) (name : List ℕ) (r : MatchRegistry F M) (f : F) (i : ℕ)
      → r.next_id < i
      → Unused r
      → find i (assign r.next_id (make r.next_id name f) r.matches) ≡ none
  fresh make name r f i h u = elim (Bool-cases (same i r.next_id)) [
    | inl e ↦ absurd (omega (arith, same_true i r.next_id e))
    | inr e ↦ find-assign i r.next_id (make r.next_id name f) r.matches ∙ rw e (u i (omega arith))
  ]

  created_none :
      (make : ℕ → List ℕ → F → M) (name : List ℕ) (r : MatchRegistry F M)
      → find name r.factories ≡ none
      → create_match make name r ≡ (none, r)
  unfolding create_match
  created_none make name r e = rw (create_match, e) refl

  created_some :
      (make : ℕ → List ℕ → F → M) (name : List ℕ) (r : MatchRegistry F M) (f : F)
      → find name r.factories ≡ some f
      → create_match make name r ≡ (
        some r.next_id,
        record r {
          matches = assign r.next_id (make r.next_id name f) r.matches;
          next_id = (r.next_id + 1) % 2 ^ 64;
        },
      )
  unfolding create_match
  created_some make name r f e = rw (create_match, e) refl

  call-Unused :
      (make : ℕ → List ℕ → F → M) (c : Call F) (r : MatchRegistry F M)
      → r.next_id + 1 < 2 ^ 64
      → Unused r
      → Unused (call make c r) × ((call make c r).next_id ≤ r.next_id + 1)
  unfolding call register_handler remove_match
  call-Unused make (registers name factory) r h u = (u, omega arith)
  call-Unused make (creates name) r h u =
      let Good = λ (x : Option ℕ × MatchRegistry F M). Unused x.1 × (x.1.next_id ≤ r.next_id + 1) in
      elim (Option-cases (find name r.factories)) [
        | inl e ↦ subst Good (sym (created_none make name r e)) (u, omega arith)
        | inr (f, e) ↦
            subst Good (sym (created_some make name r f e))
              (λ i k. fresh make name r f i (omega arith) u, omega arith)
      ]
  call-Unused make (removes id) r h u = (λ i k. gone i id r (u i k), omega arith)

  run-Unused :
      (make : ℕ → List ℕ → F → M) (cs : List (Call F)) (r : MatchRegistry F M)
      → r.next_id + length cs < 2 ^ 64
      → Unused r
      → Unused (run make cs r)
  unfolding run
  run-Unused make [] r h u = u
  run-Unused make (c ∷ cs) r h u =
      let (v, k) = call-Unused make c r (omega arith) u in
      run-Unused make cs (call make c r) (omega arith) v

  -- After fewer than 2 ^ 64 - 1 calls on a new registry: CreateMatch for a name without a factory
  -- changes nothing and answers none; for any other name it answers a number that finds no match
  -- before, and behind it that number finds the new match, and every other what it found before.
  pub run-create_match :
      (make : ℕ → List ℕ → F → M) (cs : List (Call F)) (name : List ℕ) (id : ℕ)
      → 1 + length cs < 2 ^ 64
      → ((find name (run make cs empty_registry).factories ≡ none)
          × (create_match make name (run make cs empty_registry)
              ≡ (none, run make cs empty_registry)))
        ⊎ ((f : F) × (find name (run make cs empty_registry).factories ≡ some f)
            × ((create_match make name (run make cs empty_registry)).0
                ≡ some (run make cs empty_registry).next_id)
            × (find_match (run make cs empty_registry).next_id (run make cs empty_registry) ≡ none)
            × (find_match id (create_match make name (run make cs empty_registry)).1 ≡ (
                if same id (run make cs empty_registry).next_id
                then some (make (run make cs empty_registry).next_id name f)
                else find_match id (run make cs empty_registry))))
  unfolding create_match find_match find
  run-create_match make cs name id h =
      let r = run make cs empty_registry in
      let u = run-Unused make cs empty_registry h (λ i k. refl) in
      elim (Option-cases (find name r.factories)) [
        | inl e ↦ inl (e, created_none make name r e)
        | inr (f, e) ↦ inr (
          f,
          e,
          ap (λ (z : Option ℕ × MatchRegistry F M). z.0) (created_some make name r f e),
          u r.next_id (omega arith),
          ap (λ (z : Option ℕ × MatchRegistry F M). find id z.1.matches)
                (created_some make name r f e)
              ∙ find-assign id r.next_id (make r.next_id name f) r.matches,
        )
      ]
