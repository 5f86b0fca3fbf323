-- ===== src/Match/Sends.antt =====
-- The messages of src/game/match/Match.cpp to its players. The text of a message (nlohmann::json) is
-- a parameter of what the code puts into it: the match, the receiver, the opcode and the size of the
-- data. `allocate` says which sizes the pool has for a player.
use libiouring_server.Common.{
  ℕ, ◌≡◌, refl, sym, ap, ◌∙◌, ◌==◌, Bool, true, false, not, List, [], ◌∷◌, ◌++◌, length, none, some,
  Bool-cases, inl, inr, if◌then◌else◌, append-nil, arith,
}
use libiouring_server.Common.Maps.{nat_eq, find, erase, same}
use libiouring_server.WebSocket.Builder.{Built, null, built, fault, build_ws_text_frame}
use libiouring_server.Match.{Match}

pub record Message : Type 0 where
  pub match_id : ℕ
  pub sender : ℕ
  pub opcode : ℕ
  pub data_size : ℕ

-- net::SendToPlayerCmd
pub record SendToPlayer : Type 0 where
  pub context : ℕ
  pub player : ℕ
  pub packet : Built

-- Nothing is dispatched where the pool has no buffer.
unfoldable pub command : ℕ → ℕ → Built → List SendToPlayer
command reactor pid null = []
command reactor pid (built bytes) =
    record { context = reactor; player = pid; packet = built bytes } ∷ []
command reactor pid fault = record { context = reactor; player = pid; packet = fault } ∷ []

flipped_true : (a b : ℕ) → (a == b) ≡ true → (b == a) ≡ true
flipped_true a b h = ground arith

flipped_false : (a b : ℕ) → (a == b) ≡ false → (b == a) ≡ false
flipped_false a b h = ground arith

module _ (dump : Message → List ℕ) (allocate : ℕ → ℕ → Bool) where
  unfoldable pub send_to_reactor : Match → ℕ → ℕ → ℕ → List ℕ → List SendToPlayer
  send_to_reactor m reactor pid opcode bytes = command reactor pid (
      build_ws_text_frame (allocate pid) (
        dump (record { match_id = m.id; sender = pid; opcode = opcode; data_size = length bytes })))

  unfoldable pub send_to_player : Match → ℕ → ℕ → List ℕ → List SendToPlayer
  send_to_player m pid opcode bytes = elim (find pid m.players) [
    | none ↦ []
    | some reactor ↦ send_to_reactor m reactor pid opcode bytes
  ]

  -- The loop of BroadcastAll.
  unfoldable pub broadcast_each : Match → List (ℕ × ℕ) → ℕ → List ℕ → List SendToPlayer
  broadcast_each m [] opcode bytes = []
  broadcast_each m ((pid, reactor) ∷ rest) opcode bytes =
      send_to_reactor m reactor pid opcode bytes ++ broadcast_each m rest opcode bytes

  unfoldable pub broadcast_all : Match → ℕ → List ℕ → List SendToPlayer
  broadcast_all m opcode bytes = broadcast_each m m.players opcode bytes

  -- The loop of BroadcastExcept.
  unfoldable pub broadcast_others : ℕ → Match → List (ℕ × ℕ) → ℕ → List ℕ → List SendToPlayer
  broadcast_others exclude m [] opcode bytes = []
  broadcast_others exclude m ((pid, reactor) ∷ rest) opcode bytes =
      let others = broadcast_others exclude m rest opcode bytes in
      if not (pid == exclude) then send_to_reactor m reactor pid opcode bytes ++ others else others

  unfoldable pub broadcast_except : ℕ → Match → ℕ → List ℕ → List SendToPlayer
  broadcast_except exclude m opcode bytes = broadcast_others exclude m m.players opcode bytes

  others_erase :
      (exclude : ℕ) (m : Match) (ps : List (ℕ × ℕ)) (opcode : ℕ) (bytes : List ℕ)
      → broadcast_others exclude m ps opcode bytes
        ≡ broadcast_each m (erase exclude ps) opcode bytes
  unfolding broadcast_others broadcast_each erase same
  others_erase exclude m [] opcode bytes = refl
  others_erase exclude m ((pid, reactor) ∷ rest) opcode bytes =
      let ih = others_erase exclude m rest opcode bytes in
      elim (Bool-cases (pid == exclude)) [
        | inl e ↦ rw (e, flipped_true pid exclude e) ih
        | inr e ↦
            rw (e, flipped_false pid exclude e)
              (ap (λ (z : List SendToPlayer). send_to_reactor m reactor pid opcode bytes ++ z) ih)
      ]

  -- The players that a match has do not count where the loop is given others.
  each_players :
      (m : Match) (players ps : List (ℕ × ℕ)) (opcode : ℕ) (bytes : List ℕ)
      → broadcast_each m ps opcode bytes
        ≡ broadcast_each (record m { players = players }) ps opcode bytes
  unfolding broadcast_each send_to_reactor
  each_players m players [] opcode bytes = refl
  each_players m players ((pid, reactor) ∷ ps) opcode bytes =
      ap (λ (z : List SendToPlayer). send_to_reactor m reactor pid opcode bytes ++ z)
        (each_players m players ps opcode bytes)

  -- BroadcastExcept sends what BroadcastAll would send if the excluded player were not in the
  -- match, and SendToPlayer to a player what BroadcastAll would send if no other were in it.
  pub broadcast_except-erase :
      (exclude pid reactor : ℕ) (m : Match) (opcode : ℕ) (bytes : List ℕ)
      → find pid m.players ≡ some reactor
      → (broadcast_except exclude m opcode bytes
          ≡ broadcast_all (record m { players = erase exclude m.players }) opcode bytes)
        × (send_to_player m pid opcode bytes
            ≡ broadcast_all (record m { players = (pid, reactor) ∷ [] }) opcode bytes)
  unfolding broadcast_except broadcast_all send_to_player broadcast_each send_to_reactor
  broadcast_except-erase exclude pid reactor m opcode bytes h = (
    others_erase exclude m m.players opcode bytes
        ∙ each_players m (erase exclude m.players) (erase exclude m.players) opcode bytes,
    rw (send_to_player, h) (sym (append-nil (send_to_reactor m reactor pid opcode bytes))),
  )
