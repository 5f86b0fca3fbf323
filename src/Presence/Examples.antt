-- ===== src/Presence/Examples.antt =====
-- Two players, two topics.
use libiouring_server.Common.{List, [], ◌∷◌, ◌≡◌}
use libiouring_server.Common.Maps.{nat_eq, contains}
use libiouring_server.Presence.Registry.{PlayerRegistry}
use libiouring_server.Presence.Tracker.{string_eq, get_subscribers}
use libiouring_server.Presence.Tracker.Members.{member}
use libiouring_server.Presence.Tracker.Refine.{
  Call, connects, subscribes, unsubscribes, run, relate_all, nobody, tracker, run-tracker,
}

abbrev nobody_online : PlayerRegistry
nobody_online = record { players = [] }

abbrev visits : List Call
visits =
    connects 1 0
    ∷ connects 2 1
    ∷ subscribes 1 "lobby"
    ∷ subscribes 2 "lobby"
    ∷ subscribes 2 "match"
    ∷ unsubscribes 1 "lobby"
    ∷ []

run-tracker_example :
    (contains 2 (get_subscribers "lobby" (run (tracker nobody_online) visits))
      ≡ relate_all nobody visits 2 "lobby")
    × (member 2 "lobby" (run (tracker nobody_online) visits).player_topics
        ≡ relate_all nobody visits 2 "lobby")
run-tracker_example = run-tracker nobody_online visits 2 "lobby"
