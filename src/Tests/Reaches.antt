-- ===== src/Tests/Reaches.antt =====
-- A route plan through the relay of the daemon's relay map.
use quipnet.Base.{
  true, false, not, ◌||◌, none, some, [], ◌∷◌, text, map, ◌≡◌, refl, arith, ◌==◌, bytes_eq,
  bytes_discrete, ok, All,
}
use quipnet.Base.Sets.{contains}
use quipnet.Model.{bulk}
use quipnet.RelayWire.{RelayAnnouncement, RelayMap}
use quipnet.Routing.{observed}
use quipnet.Transport.{RoutePlan}
use quipnet.Fabric.State.{daemon_peer}
use quipnet.Fabric.Estimates.{relay_traffic_classes}
use quipnet.Fabric.Candidates.{source_eq}
use quipnet.Fabric.Authority.{refresh_candidates}
use quipnet.Fabric.Routes.{route_plan}
use quipnet.Fabric.Reach.{route_plan-refresh_candidates}
use quipnet.Fabric.Reach.Synthesis.{all_support, is_announced}
use quipnet.Tests.Daemons.{percent, at_least_one, daemon, floats, announcement, server, measured}
use quipnet.Tests.Toy.{toy}

abbrev relay_map : RelayMap
relay_map = record { version = 1; generated_at = 5; relays = announcement ∷ [] }

for_bulk : all_support bulk (announcement ∷ []) ≡ true
unfolding relay_traffic_classes bytes_discrete
for_bulk = ground arith

listed : daemon_peer daemon (text "server") ≡ some server
unfolding daemon_peer bytes_discrete
listed = ground arith

no_relay :
    contains (text "server") (map (λ (r : RelayAnnouncement). r.peer_id) (announcement ∷ []))
    ≡ false
unfolding bytes_discrete
no_relay = ground arith

measured_open :
    All
      (λ c.
        (not (c.source == observed)
          || (not (c.peer == text "server") || is_announced (announcement ∷ []) c))
        ≡ true)
      (measured ∷ [])
measured_open = (ground arith, tt)

route_plan-refresh_candidates_example :
    (plan : RoutePlan) × (route_plan percent at_least_one toy
        (refresh_candidates floats daemon)
        (text "server")
        none
        bulk
      ≡ ok plan)
route_plan-refresh_candidates_example =
    route_plan-refresh_candidates floats percent at_least_one toy daemon relay_map announcement []
      server (text "server") none bulk refl refl for_bulk listed no_relay measured_open
