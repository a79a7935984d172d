-- ===== src/Fabric/Fixture.antt =====
-- The state of a daemon that has no state file, in crates/fabric/src/lib.rs: `LocalNode::fixture` and
-- `fixture_daemon_state`, and the state that is bound to the daemon's own identity.
use quipnet.Base.{ℕ, true, false, none, some, List, [], ◌∷◌, map, Bytes, text}
use quipnet.Model.{PeerId, NetworkId, ed25519, control, interactive, bulk, relay, direct_ipv6}
use quipnet.Crypto.{Primitives, derive, from_public_key, IdentityKeypair, peer_id}
use quipnet.Membership.{UnsignedMembershipCertificate, MembershipCertificate, issue_certificate}
use quipnet.RelayWire.{RelayMap}
use quipnet.PeerStore.{PeerStore, PeerSource, direct, upsert_peer_with_status, all_peers}
use quipnet.Discovery.{DiscoveryHint, ingest_bootstrap}
use quipnet.Netcheck.{NetcheckReport, restricted_cone, passed}
use quipnet.Routing.{PathCandidate, PathSource}
use quipnet.Scheduler.{default_queue_policies}
use quipnet.Fabric.State.{
  DaemonRole, edge, observer, DaemonState, BootstrapEndpoint, daemon_state_schema_version,
}
use quipnet.Fabric.Peers.{empty_store}
use quipnet.Fabric.Estimates.{Floats}
use quipnet.Fabric.Authority.{denied_peers, refresh_candidates}

-- `LocalNode`.
pub record LocalNode (F : Type 0) : Type 0 where
  pub network_id : NetworkId
  pub peer_store : PeerStore
  pub discovery : List DiscoveryHint
  pub netcheck : NetcheckReport
  pub candidate_paths : List (PathCandidate F)

abbrev eight : ℕ → Bytes → Bytes
eight b s = b ∷ b ∷ b ∷ b ∷ b ∷ b ∷ b ∷ b ∷ s

-- The endpoint of a hint of the fixture.
fixture_endpoint : DiscoveryHint → BootstrapEndpoint
fixture_endpoint hint = record {
  peer = some hint.peer;
  addresses = hint.addresses;
  protocols = hint.protocols;
  metadata = (text "source", text "fixture") ∷ [];
}

module _ (c : Primitives) {F : Type 0} (f : Floats F) where
  abbrev relay_peer : PeerId
  relay_peer = from_public_key c ed25519 (text "fra-relay-1")

  abbrev worker_peer : PeerId
  worker_peer = from_public_key c ed25519 (text "worker-17")

  abbrev worker_protocols : List Bytes
  worker_protocols = text "/quip/control/1" ∷ text "/quip/records/1" ∷ []

  abbrev worker_addresses : List Bytes
  worker_addresses = text "udp://198.51.100.24:8443" ∷ []

  -- The hints that the discovery of the node starts with.
  fixture_hints : List DiscoveryHint
  fixture_hints =
      record {
        peer = relay_peer;
        addresses = text "udp://203.0.113.10:443" ∷ [];
        protocols = text "/quip/relay/1" ∷ [];
      }
      ∷ record { peer = worker_peer; addresses = worker_addresses; protocols = worker_protocols }
      ∷ []

  fixture_netcheck : NetcheckReport
  fixture_netcheck = record {
    nat_type = restricted_cone;
    udp_reachable = true;
    ipv6_reachable = true;
    hairpin_supported = true;
    public_udp_addr = some (text "198.51.100.24:8443");
    port_mapped = false;
    probe_observations =
        record {
          vantage = text "nyc-observer-1";
          status = passed;
          latency_ms = some 12;
          detail = text "reflexive candidate validated";
        }
        ∷ record {
          vantage = text "fra-observer-1";
          status = passed;
          latency_ms = some 24;
          detail = text "ipv6 direct candidate validated";
        }
        ∷ [];
  }

  fixture_candidates : List (PathCandidate F)
  fixture_candidates =
      record {
        peer = worker_peer;
        path_kind = direct_ipv6;
        relay_peer = none;
        source = PathSource.observed;
        traffic_classes = interactive ∷ control ∷ [];
        rtt_ms = 13;
        jitter_ms = 1;
        loss_pct = f.literal (text "0.1");
        throughput_mbps = 780;
        relay_penalty = 0;
      }
      ∷ record {
        peer = worker_peer;
        path_kind = relay;
        relay_peer = some relay_peer;
        source = PathSource.observed;
        traffic_classes = interactive ∷ bulk ∷ [];
        rtt_ms = 24;
        jitter_ms = 4;
        loss_pct = f.literal (text "0.3");
        throughput_mbps = 1200;
        relay_penalty = 25;
      }
      ∷ []

  -- `LocalNode::fixture`.
  unfoldable pub fixture : Bytes → LocalNode F
  unfolding fixture_hints fixture_netcheck fixture_candidates
  fixture network_name = record {
    network_id = derive c network_name;
    peer_store =
        upsert_peer_with_status
          (record {
            peer = worker_peer;
            protocols = worker_protocols;
            addresses = worker_addresses;
          })
          (record {
            source = PeerSource.discovery;
            reachability = direct;
            last_seen_unix_secs = some 1_720_000_120;
          })
          (ingest_bootstrap fixture_hints 1_720_000_000 empty_store).0;
    discovery = fixture_hints;
    netcheck = fixture_netcheck;
    candidate_paths = fixture_candidates;
  }

  fixture_relay_map : RelayMap
  fixture_relay_map = record {
    version = 1;
    generated_at = 1_720_000_000;
    relays =
        (record {
          peer_id = relay_peer;
          region = text "eu-central-1";
          advertised_endpoints = text "udp://203.0.113.10:443" ∷ [];
          control_endpoint = text "http://203.0.113.10:9081";
          max_bandwidth_bps = 1_500_000_000;
          supports_quic_datagrams = true;
          supports_path_migration = true;
          traffic_classes = text "NetworkControl" ∷ text "InteractiveRpc" ∷ text "Background" ∷ [];
        })
        ∷ [];
  }

  -- A seed of 32 equal bytes.
  abbrev seed : ℕ → Bytes
  seed b = eight b (eight b (eight b (eight b [])))

  module _ (json : UnsignedMembershipCertificate → Bytes) where
    -- The membership that `issuer` issues for `subject`.
    member : IdentityKeypair → Bytes → PeerId → MembershipCertificate
    member issuer network subject =
        issue_certificate c json issuer (derive c network) subject 1_720_000_000 1_820_000_000
          (text "member" ∷ [])

    unfoldable pub fixture_daemon_state : Bytes → DaemonState F
    unfolding member fixture_relay_map fixture_endpoint
    fixture_daemon_state network =
        let node = fixture network in
        let local_peer_id = peer_id c (record { signing_key = seed 12 }) in
        record {
          schema_version = daemon_state_schema_version;
          network = network;
          local_peer_id = local_peer_id;
          roles = edge ∷ observer ∷ [];
          membership = member (record { signing_key = seed 11 }) network local_peer_id;
          capability_grants = [];
          revocations = [];
          denied_peers = [];
          bootstrap = map fixture_endpoint node.discovery;
          relay_map = some fixture_relay_map;
          peers = all_peers node.peer_store;
          netcheck = node.netcheck;
          queue_policies = default_queue_policies;
          active_sessions = [];
          path_candidates = node.candidate_paths;
        }

    unfoldable pub self_identity_daemon_state :
        Bytes → List DaemonRole → IdentityKeypair → DaemonState F
    unfolding member
    self_identity_daemon_state network roles local_identity =
        let s = fixture_daemon_state network in
        let local_peer_id = peer_id c local_identity in
        let membership = member local_identity network local_peer_id in
        refresh_candidates f (record s {
          roles = roles;
          local_peer_id = local_peer_id;
          membership = membership;
          denied_peers = denied_peers c membership s.revocations;
        })
