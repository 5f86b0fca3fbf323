-- ===== src/Presence/Tracker.antt =====
-- src/game/presence/PresenceTracker.cpp. The text of an event (nlohmann::json) and the pool are
-- arguments; a call of net_dispatcher_ is an element of a list.
pub mod Members
pub mod Refine
use Prim.Native.String.{String}
use text.Mathlib.Text.{◌==◌ as str_eq}
use text.Mathlib.TextEquality.{eq_iff}
use libiouring_server.Common.{ℕ, Bool, true, false, List, [], ◌∷◌, ◌++◌, Option, none, some}
use libiouring_server.Common.Maps.{Eq, nat_eq, contains, insert, remove, find, erase, assign}
use libiouring_server.WebSocket.Builder.{Built, null, built, fault, build_ws_text_frame}
use libiouring_server.Presence.Registry.{
  PlayerRegistry, Entry, register, unregister, update_status, find_player,
}

instance abbrev pub string_eq : Eq String
string_eq = record { same = str_eq; same_iff = eq_iff }

pub data PresenceEventType : Type 0 where
  join leave update : PresenceEventType

pub record PresenceEvent : Type 0 where
  pub type : PresenceEventType
  pub player_id : ℕ
  pub status : String
  pub metadata : String

-- A map of sets: m[k].insert(x).
unfoldable pub add {ℓ ℓ'} :
    {K : Type ℓ} {A : Type ℓ'} ⦃e : Eq K⦄ ⦃d : Eq A⦄ → K → A → List (K × List A) → List (K × List A)
add k x m = elim (find k m) [ none ↦ assign k (insert x []) m | some s ↦ assign k (insert x s) m ]

-- The set is put back, or its entry is erased when it is empty.
unfoldable pub put_back {ℓ ℓ'} :
    {K : Type ℓ} {A : Type ℓ'} ⦃e : Eq K⦄ → K → List A → List (K × List A) → List (K × List A)
put_back k [] m = erase k m
put_back k (x ∷ s) m = assign k (x ∷ s) m

-- x is erased from the set at k, where there is one.
unfoldable pub drop_from {ℓ ℓ'} :
    {K : Type ℓ} {A : Type ℓ'} ⦃e : Eq K⦄ ⦃d : Eq A⦄ → K → A → List (K × List A) → List (K × List A)
drop_from k x m = elim (find k m) [ none ↦ m | some s ↦ put_back k (remove x s) m ]

pub record PresenceTracker : Type 0 where
  pub registry : PlayerRegistry
  pub topic_subscribers : List (String × List ℕ)
  pub player_topics : List (ℕ × List String)

unfoldable pub subscribe : ℕ → String → PresenceTracker → PresenceTracker
subscribe subscriber topic p = record p {
  topic_subscribers = add topic subscriber p.topic_subscribers;
  player_topics = add subscriber topic p.player_topics;
}

unfoldable pub unsubscribe : ℕ → String → PresenceTracker → PresenceTracker
unsubscribe subscriber topic p = record p {
  topic_subscribers = drop_from topic subscriber p.topic_subscribers;
  player_topics = drop_from subscriber topic p.player_topics;
}

-- The loop over the player's topics.
unfoldable pub drop_each : List String → ℕ → List (String × List ℕ) → List (String × List ℕ)
drop_each [] subscriber m = m
drop_each (topic ∷ topics) subscriber m = drop_each topics subscriber (drop_from topic subscriber m)

unfoldable pub unsubscribe_all : ℕ → PresenceTracker → PresenceTracker
unsubscribe_all subscriber p = elim (find subscriber p.player_topics) [
  | none ↦ p
  | some topics ↦ record p {
    topic_subscribers = drop_each topics subscriber p.topic_subscribers;
    player_topics = erase subscriber p.player_topics;
  }
]

unfoldable pub on_player_connected : ℕ → ℕ → PresenceTracker → PresenceTracker
on_player_connected pid reactor p = record p { registry = register pid reactor p.registry }

unfoldable pub on_player_disconnected : ℕ → PresenceTracker → PresenceTracker
on_player_disconnected pid p =
    let q = unsubscribe_all pid p in record q { registry = unregister pid q.registry }

unfoldable pub tracker_update_status : ℕ → String → String → PresenceTracker → PresenceTracker
tracker_update_status pid text metadata p = record p {
  registry = update_status pid text p.registry;
}

unfoldable pub get_subscribers : String → PresenceTracker → List ℕ
get_subscribers topic p = elim (find topic p.topic_subscribers) [ none ↦ [] | some s ↦ s ]

-- net::SendToPlayerCmd for the context of a player; the packet is null where there is no pool.
pub record SendToPlayer : Type 0 where
  pub context : ℕ
  pub player : ℕ
  pub packet : Built

-- What is dispatched for a frame: nothing where none could be built.
unfoldable pub command : Entry → ℕ → Built → List SendToPlayer
command e pid null = []
command e pid (built bytes) =
    record { context = e.context_id; player = pid; packet = built bytes } ∷ []
command e pid fault = record { context = e.context_id; player = pid; packet = fault } ∷ []

-- `pool` says which sizes can be allocated for a player, where there is a pool.
unfoldable pub dispatch_to_player :
    Option (ℕ → ℕ → Bool)
    → (PresenceEvent → List ℕ)
    → PresenceTracker
    → ℕ
    → PresenceEvent
    → List SendToPlayer
dispatch_to_player pool dump p pid event = elim (find_player pid p.registry) [
  | none ↦ []
  | some e ↦ elim pool [
    | none ↦ record { context = e.context_id; player = pid; packet = null } ∷ []
    | some allocate ↦ command e pid (build_ws_text_frame (allocate pid) (dump event))
  ]
]

-- The loop over the subscribers.
unfoldable pub dispatch_each :
    Option (ℕ → ℕ → Bool)
    → (PresenceEvent → List ℕ)
    → PresenceTracker
    → List ℕ
    → PresenceEvent
    → List SendToPlayer
dispatch_each pool dump p [] event = []
dispatch_each pool dump p (pid ∷ pids) event =
    dispatch_to_player pool dump p pid event ++ dispatch_each pool dump p pids event

unfoldable pub broadcast_event :
    Option (ℕ → ℕ → Bool)
    → (PresenceEvent → List ℕ)
    → PresenceTracker
    → String
    → PresenceEvent
    → List SendToPlayer
broadcast_event pool dump p topic event = dispatch_each pool dump p (get_subscribers topic p) event
