-- ===== src/Fabric/Candidates.antt =====
-- The path candidates of a daemon's state in crates/fabric/src/lib.rs: the observed ones, then those
-- that are synthesized from bootstrap endpoints and from the relay map.
use quipnet.Base.{
  Bool, not, ◌&&◌, none, some, List, [], ◌∷◌, ◌++◌, map, ◌==◌, bytes_eq, option_eq, Eq,
  if◌then◌else◌, any, keep,
}
use quipnet.Base.Sets.{contains}
use quipnet.Model.{PeerId, TrafficClass, control, interactive, bulk, background, relay}
use quipnet.RelayWire.{RelayAnnouncement}
use quipnet.PeerStore.{PeerInspection}
use quipnet.Routing.{PathSource, observed, bootstrap, authority_relay, PathCandidate, kind_eq}
use quipnet.Netcheck.{NetcheckReport}
use quipnet.Fabric.State.{BootstrapEndpoint, DaemonState}
use quipnet.Fabric.Addresses.{is_direct_quic_address, endpoint_path_kind, relay_path_kind}
use quipnet.Fabric.Estimates.{
  Floats, direct_bootstrap_rtt_ms, direct_bootstrap_jitter_ms, direct_bootstrap_loss_pct,
  direct_bootstrap_throughput_mbps, direct_relay_rtt_ms, direct_relay_jitter_ms,
  direct_relay_loss_pct, relay_direct_throughput_mbps, relay_fallback_rtt_ms,
  relay_fallback_jitter_ms, relay_fallback_loss_pct, relay_fallback_throughput_mbps,
  relay_traffic_classes,
}

pub PathSource-discrete : Discrete PathSource
PathSource-discrete = hlevel

instance abbrev pub source_eq : Eq PathSource
source_eq = record { dec = PathSource-discrete }

abbrev every_class : List TrafficClass
every_class = control ∷ interactive ∷ bulk ∷ background ∷ []

module _ {F : Type 0} where
  -- Two candidates stand for the same path.
  unfoldable pub same_path : PathCandidate F → PathCandidate F → Bool
  same_path existing candidate =
      (existing.peer == candidate.peer)
      && ((existing.path_kind == candidate.path_kind)
          && ((existing.relay_peer == candidate.relay_peer)
              && (existing.source == candidate.source)))

  unfoldable pub push_unique_candidate :
      List (PathCandidate F) → PathCandidate F → List (PathCandidate F)
  push_unique_candidate candidates candidate =
      if any (λ existing. same_path existing candidate) candidates
      then candidates
      else candidates ++ candidate ∷ []

  -- A loop of `push_unique_candidate`.
  unfoldable pub push_all : List (PathCandidate F) → List (PathCandidate F) → List (PathCandidate F)
  push_all candidates [] = candidates
  push_all candidates (c ∷ more) = push_all (push_unique_candidate candidates c) more

module _ {F : Type 0} (f : Floats F) where
  -- The candidate of a bootstrap endpoint.
  unfoldable pub direct_candidate : NetcheckReport → PeerId → BootstrapEndpoint → PathCandidate F
  direct_candidate netcheck peer endpoint = record {
    peer = peer;
    path_kind = endpoint_path_kind endpoint;
    relay_peer = none;
    source = bootstrap;
    traffic_classes = every_class;
    rtt_ms = direct_bootstrap_rtt_ms netcheck;
    jitter_ms = direct_bootstrap_jitter_ms netcheck;
    loss_pct = direct_bootstrap_loss_pct f netcheck;
    throughput_mbps = direct_bootstrap_throughput_mbps netcheck;
    relay_penalty = 0;
  }

  unfoldable pub direct_candidates :
      NetcheckReport → List BootstrapEndpoint → List (PathCandidate F)
  direct_candidates netcheck [] = []
  direct_candidates netcheck (e ∷ endpoints) =
      let rest = direct_candidates netcheck endpoints in
      elim e.peer [
        | none ↦ rest
        | some peer ↦
            if any (λ a. is_direct_quic_address a) e.addresses
            then direct_candidate netcheck peer e ∷ rest
            else rest
      ]

  unfoldable pub synthesized_direct_bootstrap_candidates : DaemonState F → List (PathCandidate F)
  unfolding direct_candidates
  synthesized_direct_bootstrap_candidates s =
      if not s.netcheck.udp_reachable && not s.netcheck.ipv6_reachable
      then []
      else direct_candidates s.netcheck s.bootstrap

  -- The path to a relay.
  unfoldable pub relay_candidate : NetcheckReport → RelayAnnouncement → PathCandidate F
  relay_candidate netcheck r = record {
    peer = r.peer_id;
    path_kind = relay_path_kind r;
    relay_peer = none;
    source = authority_relay;
    traffic_classes = relay_traffic_classes r.traffic_classes;
    rtt_ms = direct_relay_rtt_ms r netcheck;
    jitter_ms = direct_relay_jitter_ms netcheck;
    loss_pct = direct_relay_loss_pct f netcheck;
    throughput_mbps = relay_direct_throughput_mbps r;
    relay_penalty = 0;
  }

  -- The path to a peer through a relay.
  unfoldable pub fallback_candidate : NetcheckReport → PeerId → RelayAnnouncement → PathCandidate F
  fallback_candidate netcheck peer r = record {
    peer = peer;
    path_kind = relay;
    relay_peer = some r.peer_id;
    source = authority_relay;
    traffic_classes = relay_traffic_classes r.traffic_classes;
    rtt_ms = relay_fallback_rtt_ms r netcheck;
    jitter_ms = relay_fallback_jitter_ms netcheck;
    loss_pct = relay_fallback_loss_pct f netcheck;
    throughput_mbps = relay_fallback_throughput_mbps r;
    relay_penalty = 25;
  }

  -- The loop over the peers; a relay is not reached through a relay.
  unfoldable pub fallback_candidates :
      NetcheckReport → List RelayAnnouncement → List PeerInspection → List (PathCandidate F)
  fallback_candidates netcheck relays [] = []
  fallback_candidates netcheck relays (p ∷ peers) =
      let rest = fallback_candidates netcheck relays peers in
      if contains p.snapshot.peer (map (λ r. r.peer_id) relays)
      then rest
      else map (fallback_candidate netcheck p.snapshot.peer) relays ++ rest

  unfoldable pub synthesized_relay_candidates : DaemonState F → List (PathCandidate F)
  unfolding fallback_candidates
  synthesized_relay_candidates s = elim s.relay_map [
    | none ↦ []
    | some relay_map ↦
        map (relay_candidate s.netcheck) relay_map.relays
        ++ fallback_candidates s.netcheck relay_map.relays s.peers
  ]

  unfoldable pub merged_path_candidates : DaemonState F → List (PathCandidate F)
  merged_path_candidates s =
      push_all
        (push_all (keep (λ c. c.source == observed) s.path_candidates)
          (synthesized_direct_bootstrap_candidates s))
        (synthesized_relay_candidates s)
