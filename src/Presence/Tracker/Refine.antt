-- ===== src/Presence/Tracker/Refine.antt =====
-- The tracker under any calls, against a relation between players and topics.
use Prim.Native.String.{String}
use libiouring_server.Common.{
  ℕ, Bool, true, false, List, [], ◌∷◌, Option, ◌≡◌, refl, sym, ap, ◌∙◌, ◌&&◌, inl, inr,
  if◌then◌else◌, Option-cases, arith,
}
use libiouring_server.Common.Maps.{nat_eq, same, same_true, contains, find, erase}
use libiouring_server.Presence.Registry.{PlayerRegistry}
use libiouring_server.Presence.Tracker.{
  PresenceTracker, string_eq, drop_from, drop_each, subscribe, unsubscribe, unsubscribe_all,
  on_player_connected, on_player_disconnected, tracker_update_status, get_subscribers,
}
use libiouring_server.Presence.Tracker.Members.{
  or_empty, set_at, set_at_found, set_at-erase, member, member-add, member-drop_from, contains-if,
}

pub data Call : Type 0 where
  connects : ℕ → ℕ → Call
  disconnects : ℕ → Call
  updates : ℕ → String → String → Call
  subscribes : ℕ → String → Call
  unsubscribes : ℕ → String → Call
  unsubscribes_all : ℕ → Call

abbrev pub call : Call → PresenceTracker → PresenceTracker
call (connects pid reactor) p = on_player_connected pid reactor p
call (disconnects pid) p = on_player_disconnected pid p
call (updates pid text metadata) p = tracker_update_status pid text metadata p
call (subscribes pid topic) p = subscribe pid topic p
call (unsubscribes pid topic) p = unsubscribe pid topic p
call (unsubscribes_all pid) p = unsubscribe_all pid p

pub run : PresenceTracker → List Call → PresenceTracker
run p [] = p
run p (c ∷ cs) = run (call c p) cs

-- The specification: who follows what.
abbrev pub Relation : Type 0
Relation = ℕ → String → Bool

abbrev pub relate : Call → Relation → Relation
relate (connects pid reactor) r = r
relate (disconnects pid) r = λ p t. if same p pid then false else r p t
relate (updates pid text metadata) r = r
relate (subscribes pid topic) r = λ p t. if same t topic && same p pid then true else r p t
relate (unsubscribes pid topic) r = λ p t. if same t topic && same p pid then false else r p t
relate (unsubscribes_all pid) r = λ p t. if same p pid then false else r p t

pub relate_all : Relation → List Call → Relation
relate_all r [] = r
relate_all r (c ∷ cs) = relate_all (relate c r) cs

-- Both indexes hold the relation.
abbrev pub Holds : PresenceTracker → Relation → Type 0
Holds p r =
    (pid : ℕ) (topic : String)
    → (member topic pid p.topic_subscribers ≡ r pid topic)
      × (member pid topic p.player_topics ≡ r pid topic)

subscribe-Holds :
    (p : PresenceTracker) (r : Relation) (pid : ℕ) (topic : String)
    → Holds p r
    → Holds (subscribe pid topic p) (relate (subscribes pid topic) r)
unfolding subscribe
subscribe-Holds p r pid topic h q t = (
  ground (arith, member-add t topic q pid p.topic_subscribers, (h q t).0),
  ground (arith, member-add q pid t topic p.player_topics, (h q t).1),
)

unsubscribe-Holds :
    (p : PresenceTracker) (r : Relation) (pid : ℕ) (topic : String)
    → Holds p r
    → Holds (unsubscribe pid topic p) (relate (unsubscribes pid topic) r)
unfolding unsubscribe
unsubscribe-Holds p r pid topic h q t = (
  ground (arith, member-drop_from t topic q pid p.topic_subscribers, (h q t).0),
  ground (arith, member-drop_from q pid t topic p.player_topics, (h q t).1),
)

member-drop_each :
    (topics : List String) (pid q : ℕ) (t : String) (m : List (String × List ℕ))
    → member t q (drop_each topics pid m)
      ≡ (if contains t topics && same q pid then false else member t q m)
unfolding drop_each contains
member-drop_each [] pid q t m = refl
member-drop_each (u ∷ us) pid q t m =
    ground (arith, member-drop_each us pid q t (drop_from u pid m), member-drop_from t u q pid m)

member-erase :
    (q pid : ℕ) (t : String) (m : List (ℕ × List String))
    → member q t (erase pid m) ≡ (if same q pid then false else member q t m)
unfolding member contains
member-erase q pid t m =
    ap (contains t) (set_at-erase q pid m) ∙ contains-if (same q pid) t [] (set_at q m)

-- The topics of a player are those that the relation has.
topics_of :
    (p : PresenceTracker) (r : Relation) (pid : ℕ) {o : Option (List String)}
    → Holds p r
    → find pid p.player_topics ≡ o
    → (q : ℕ) (t : String) → same q pid ≡ true
    → r q t ≡ contains t (or_empty o)
unfolding member
topics_of p r pid h n q t e =
    ap (λ (z : ℕ). r z t) (same_true q pid e)
    ∙ sym (h pid t).1
    ∙ ap (contains t) (set_at_found pid p.player_topics n)

unsubscribe_all-Holds :
    (p : PresenceTracker) (r : Relation) (pid : ℕ)
    → Holds p r
    → Holds (unsubscribe_all pid p) (relate (unsubscribes_all pid) r)
unfolding unsubscribe_all or_empty contains
unsubscribe_all-Holds p r pid h q t = elim (Option-cases (find pid p.player_topics)) [
  | inl n ↦
      let own = topics_of p r pid h n q t in
      rw (n, unsubscribe_all) (ground (arith, own, (h q t).0), ground (arith, own, (h q t).1))
  | inr (topics, n) ↦
      let own = topics_of p r pid h n q t in
      rw (n, unsubscribe_all)
        (
          ground (arith, own, (h q t).0, member-drop_each topics pid q t p.topic_subscribers),
          ground (arith, (h q t).1, member-erase q pid t p.player_topics),
        )
]

disconnect-Holds :
    (p : PresenceTracker) (r : Relation) (pid : ℕ)
    → Holds p r
    → Holds (on_player_disconnected pid p) (relate (disconnects pid) r)
unfolding on_player_disconnected
disconnect-Holds p r pid h = unsubscribe_all-Holds p r pid h

call-Holds :
    (c : Call) (p : PresenceTracker) (r : Relation) → Holds p r → Holds (call c p) (relate c r)
unfolding on_player_connected tracker_update_status
call-Holds (connects pid reactor) p r h = h
call-Holds (disconnects pid) p r h = disconnect-Holds p r pid h
call-Holds (updates pid text metadata) p r h = h
call-Holds (subscribes pid topic) p r h = subscribe-Holds p r pid topic h
call-Holds (unsubscribes pid topic) p r h = unsubscribe-Holds p r pid topic h
call-Holds (unsubscribes_all pid) p r h = unsubscribe_all-Holds p r pid h

run-Holds :
    (cs : List Call) (p : PresenceTracker) (r : Relation)
    → Holds p r
    → Holds (run p cs) (relate_all r cs)
unfolding run relate_all
run-Holds [] p r h = h
run-Holds (c ∷ cs) p r h = run-Holds cs (call c p) (relate c r) (call-Holds c p r h)

get_subscribers-set_at :
    (topic : String) (p : PresenceTracker)
    → get_subscribers topic p ≡ set_at topic p.topic_subscribers
unfolding get_subscribers set_at or_empty
get_subscribers-set_at topic p = elim (Option-cases (find topic p.topic_subscribers)) [
  | inl n ↦ rw (n, get_subscribers) refl
  | inr (s, n) ↦ rw (n, get_subscribers) refl
]

abbrev pub nobody : Relation
nobody pid topic = false

-- A tracker on the given registry.
abbrev pub tracker : PlayerRegistry → PresenceTracker
tracker registry = record { registry = registry; topic_subscribers = []; player_topics = [] }

tracker-Holds : (registry : PlayerRegistry) → Holds (tracker registry) nobody
unfolding member set_at or_empty find contains
tracker-Holds registry pid topic = (refl, refl)

-- Whatever is called on a new tracker: GetSubscribers of a topic has a player exactly when the
-- calls relate the two, where Subscribe relates a player and a topic, Unsubscribe parts them, and
-- UnsubscribeAll and OnPlayerDisconnected part the player from every topic; the topics kept for a
-- player are the same relation read the other way.
pub run-tracker :
    (registry : PlayerRegistry) (cs : List Call) (pid : ℕ) (topic : String)
    → (contains pid (get_subscribers topic (run (tracker registry) cs))
        ≡ relate_all nobody cs pid topic)
      × (member pid topic (run (tracker registry) cs).player_topics
          ≡ relate_all nobody cs pid topic)
unfolding member
run-tracker registry cs pid topic =
    let p = run (tracker registry) cs in
    let h = run-Holds cs (tracker registry) nobody (tracker-Holds registry) pid topic in
    (ap (contains pid) (get_subscribers-set_at topic p) ∙ h.0, h.1)
