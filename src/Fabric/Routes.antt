-- ===== src/Fabric/Routes.antt =====
-- Route plans in crates/fabric/src/lib.rs: the best candidate of a peer, with the endpoints that the
-- state knows for it, and whether a session runs along a plan.
use quipnet.Base.{
  ℕ, Bool, true, false, ◌&&◌, Option, none, some, List, [], ◌∷◌, Bytes, ◌==◌, bytes_eq, option_eq,
  find, first, Result, ok, ◌>>=◌, ok_or,
}
use quipnet.Model.{PeerId, ProtocolId, TrafficClass, relay}
use quipnet.Crypto.{Primitives}
use quipnet.PeerText.{to_text}
use quipnet.RelayWire.{RelayAnnouncement}
use quipnet.Routing.{PathCandidate, PathDecision, select_best_path, class_eq, kind_eq}
use quipnet.Transport.{RelayPlan, RoutePlan, SessionSnapshot}
use quipnet.Fabric.State.{
  DaemonState, DaemonStateError, no_route, peer_not_found, daemon_peer, path_candidates_for,
  relay_announcements,
}
use quipnet.Fabric.Addresses.{route_endpoints, relay_path_kind, route_source}

-- The relay's part of a plan; `destination` are the endpoints of the peer.
unfoldable pub relay_plan : RelayAnnouncement → List Bytes → RelayPlan
relay_plan r destination = record {
  relay_peer = r.peer_id;
  relay_endpoints = route_endpoints r.advertised_endpoints (relay_path_kind r);
  relay_control_endpoint = r.control_endpoint;
  destination_endpoints = destination;
  supports_datagrams = r.supports_quic_datagrams;
  supports_path_migration = r.supports_path_migration;
}

module _ {F : Type 0} (scaled : F → ℕ → ℕ) (at_least_one : F → Bool) where
  unfoldable pub best_path : DaemonState F → PeerId → TrafficClass → Option (PathDecision F)
  best_path s peer class = select_best_path scaled at_least_one (path_candidates_for s peer) class

  -- The announcement of the relay of a candidate.
  unfoldable pub relay_of :
      DaemonState F → PeerId → Option PeerId → Result DaemonStateError RelayAnnouncement
  relay_of s peer relay_peer = do
    relay_peer ← ok_or relay_peer (no_route peer)
    ok_or (find (λ candidate. candidate.peer_id == relay_peer) (relay_announcements s))
        (no_route peer)

  unfoldable pub relay_part :
      DaemonState F
      → PeerId
      → PathCandidate F
      → List Bytes
      → Result DaemonStateError (Option RelayPlan)
  unfolding relay_of
  relay_part s peer selected destination = elim (selected.path_kind == relay) [
    | true ↦ (do r ← relay_of s peer selected.relay_peer; ok (some (relay_plan r destination)))
    | false ↦ ok none
  ]

  -- `protocol` is the protocol of the session, if there is one.
  unfoldable pub route_plan :
      Primitives
      → DaemonState F
      → PeerId
      → Option ProtocolId
      → TrafficClass
      → Result DaemonStateError RoutePlan
  unfolding relay_part
  route_plan c s peer protocol class = do
    decision ← ok_or (best_path s peer class) (no_route peer)
    inspection ← ok_or (daemon_peer s peer) (peer_not_found (to_text c peer))
    let remote_endpoints = route_endpoints inspection.snapshot.addresses decision.selected.path_kind
    plan ← relay_part s peer decision.selected remote_endpoints
    ok (record {
      local_peer = s.local_peer_id;
      peer = peer;
      protocol = protocol;
      class = class;
      path_kind = decision.selected.path_kind;
      source = route_source decision.selected.source;
      remote_endpoints = remote_endpoints;
      relay = plan;
    })

-- The match on the relays of the session and of the plan.
abbrev same_relay : SessionSnapshot → Option PeerId → Option RelayPlan → Bool
same_relay session none none = true
same_relay session (some peer) (some plan) =
    (session.relay_control_endpoint == some plan.relay_control_endpoint)
    && ((peer == plan.relay_peer) && (session.relay_endpoint == first plan.relay_endpoints))
same_relay session _ _ = false

abbrev starts_at : List Bytes → Bytes → Bool
starts_at [] endpoint = false
starts_at (e ∷ _) endpoint = endpoint == e

unfoldable pub session_matches_route : SessionSnapshot → RoutePlan → Bool
session_matches_route session route =
    (session.path_kind == route.path_kind)
    && ((session.class == route.class)
        && ((session.protocol == route.protocol)
            && (starts_at route.remote_endpoints session.remote_endpoint
                && same_relay session session.relay_peer route.relay)))
