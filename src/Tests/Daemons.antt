-- ===== src/Tests/Daemons.antt =====
-- A daemon's state and its state file for the tests.
use quipnet.Base.{
  ℕ, ◌+◌, ◌*◌, Bool, true, Option, none, some, [], ◌∷◌, Bytes, text, length, ltb, bytes_eq,
}
use quipnet.Model.{direct_udp, interactive}
use quipnet.Membership.{
  MembershipCertificate, CapabilityGrant, RevocationRecord, default_limits, issue_certificate,
  issue_grant, issue_revocation, peer, key_compromise,
}
use quipnet.RelayWire.{RelayAnnouncement}
use quipnet.Routing.{PathCandidate, observed}
use quipnet.PeerStore.{PeerInspection, PeerSource, unknown}
use quipnet.Scheduler.{default_queue_policies}
use quipnet.Fabric.State.{DaemonState, edge}
use quipnet.Fabric.Estimates.{Floats, pending_netcheck}
use quipnet.Fabric.Json.{Value, unsigned, object, end, field}
use quipnet.Fabric.Files.{Serde, Disk}
use quipnet.Tests.Toy.{toy, authority_key, home}

abbrev pub floats : Floats ℕ
floats = record { literal = λ s. length s; plus = λ a b. a + b }

abbrev pub percent : ℕ → ℕ → ℕ
percent loss n = loss * n

abbrev pub at_least_one : ℕ → Bool
at_least_one loss = ltb 0 loss

abbrev pub certificate : MembershipCertificate
certificate =
    issue_certificate toy (λ u. u.subject_peer_id) authority_key home (text "client") 10 100 []

abbrev pub grant : CapabilityGrant
grant =
    issue_grant toy (λ u. u.subject_peer_id) authority_key home (text "client")
      (text "records.publish" ∷ []) (text "/quip/records/1" ∷ []) default_limits [] 10 100 1

abbrev pub revocation : Bytes → ℕ → RevocationRecord
revocation guest sequence =
    issue_revocation toy (λ u. u.issuer_peer_id) authority_key home (peer guest) key_compromise 10
      10 sequence none

abbrev pub announcement : RelayAnnouncement
announcement = record {
  peer_id = text "relay";
  region = text "eu";
  advertised_endpoints = text "udp://203.0.113.10:443" ∷ [];
  control_endpoint = text "http://203.0.113.10:9081";
  max_bandwidth_bps = 1_500_000_000;
  supports_quic_datagrams = true;
  supports_path_migration = true;
  traffic_classes = text "Bulk" ∷ [];
}

abbrev pub server : PeerInspection
server = record {
  snapshot = record {
    peer = text "server";
    protocols = [];
    addresses = text "quic://198.51.100.24:8443" ∷ [];
  };
  status = record {
    source = PeerSource.bootstrap;
    reachability = unknown;
    last_seen_unix_secs = none;
  };
  record_count = 0;
}

abbrev pub measured : PathCandidate ℕ
measured = record {
  peer = text "server";
  path_kind = direct_udp;
  relay_peer = none;
  source = observed;
  traffic_classes = interactive ∷ [];
  rtt_ms = 20;
  jitter_ms = 2;
  loss_pct = 1;
  throughput_mbps = 400;
  relay_penalty = 0;
}

abbrev pub daemon : DaemonState ℕ
daemon = record {
  schema_version = 2;
  network = text "lab";
  local_peer_id = text "client";
  roles = edge ∷ [];
  membership = certificate;
  capability_grants = grant ∷ [];
  revocations = revocation (text "guest") 1 ∷ [];
  denied_peers = [];
  bootstrap = [];
  relay_map = some (record { version = 1; generated_at = 5; relays = announcement ∷ [] });
  peers = server ∷ [];
  netcheck = pending_netcheck;
  queue_policies = default_queue_policies;
  active_sessions = [];
  path_candidates = measured ∷ [];
}

-- A file is the value of its first byte as the schema version; every object is the daemon's state.
abbrev pub version_object : Bytes → Option Value
version_object [] = none
version_object (n ∷ _) = some (object (field (text "schema_version") (unsigned n) end))

abbrev pub serde : Serde ℕ
serde = record {
  from_slice = version_object;
  to_vec_pretty = λ v. 2 ∷ [];
  from_value = λ v. some daemon;
  to_value = λ s. object (field (text "schema_version") (unsigned 2) end);
}

abbrev pub disk : Disk
disk = (text "state.json", 2 ∷ []) ∷ []
