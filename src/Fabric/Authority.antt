-- ===== src/Fabric/Authority.antt =====
-- How the authority's artifacts enter the daemon's state in crates/fabric/src/lib.rs: snapshots,
-- revocations and relay maps.
use quipnet.Base.{
  ℕ, Bool, false, not, ◌&&◌, Option, none, some, List, [], ◌∷◌, ◌++◌, map, Bytes, text, decimal,
  ◌==◌, ◌!=◌, bytes_eq, nat_eq, if◌then◌else◌, ltb, any, count, Result, ok, ◌>>=◌, ◌>>◌, reject_if,
  map_err, ok_or,
}
use quipnet.Model.{NetworkId}
use quipnet.Crypto.{Primitives, derive}
use quipnet.PeerText.{to_text}
use quipnet.Membership.{
  BootstrapHint, MembershipCertificate, RevocationRecord, RevocationTarget, RevocationReason,
  administrative, key_compromise, superseded, unspecified, membership_certificate, peer,
}
use quipnet.Control.{AuthorityArtifactSnapshot, SnapshotDelta, merge_revocations, merge_snapshot}
use quipnet.RelayWire.{RelayAnnouncement, RelayMap}
use quipnet.Scheduler.{default_queue_policies}
use quipnet.Fabric.State.{
  DaemonRole, DaemonState, DaemonStateError, network_mismatch, missing_membership, control_failed,
  DeniedPeer, BootstrapEndpoint, daemon_state_schema_version,
}
use quipnet.Fabric.Estimates.{Floats, pending_netcheck}
use quipnet.Fabric.Peers.{
  bootstrap_endpoint_from_hint, bootstrap_peers, merge_bootstrap_peers, relay_peers,
  merge_relay_peers,
}
use quipnet.Fabric.Candidates.{merged_path_candidates}

pub record StateSyncReport : Type 0 where
  pub membership_changed : Bool
  pub grants_added : ℕ
  pub grants_removed : ℕ
  pub revocations_added : ℕ
  pub bootstrap_hints_added : ℕ
  pub bootstrap_hints_removed : ℕ
  pub relay_announcements_added : ℕ

abbrev reason_debug : RevocationReason → Bytes
reason_debug administrative = text "Administrative"
reason_debug key_compromise = text "KeyCompromise"
reason_debug superseded = text "Superseded"
reason_debug unspecified = text "Unspecified"

module _ (c : Primitives) where
  -- The reason that a revocation gives for a denial; `what` is the kind of its target.
  unfoldable pub denial_reason : Bytes → RevocationRecord → Bytes
  denial_reason what r =
      what
      ++ (text " revoked: "
          ++ (reason_debug r.reason
              ++ (text " seq="
                  ++ (decimal r.sequence ++ (text " issuer=" ++ to_text c r.issuer_peer_id)))))

  -- The arms of the match: who is denied by a revocation of that target.
  unfoldable pub denied_by :
      MembershipCertificate → RevocationRecord → RevocationTarget → Option DeniedPeer
  denied_by membership r (peer peer_id) =
      some (record { peer = peer_id; reason = denial_reason (text "peer") r })
  denied_by membership r (membership_certificate subject issued_at) =
      if (subject == membership.subject_peer_id) && (issued_at == membership.issued_at)
      then some (record { peer = subject; reason = denial_reason (text "membership") r })
      else none
  denied_by membership r _ = none

  unfoldable pub denied_peers : MembershipCertificate → List RevocationRecord → List DeniedPeer
  denied_peers membership [] = []
  denied_peers membership (r ∷ revocations) =
      let rest = denied_peers membership revocations in
      elim (denied_by membership r r.target) [ none ↦ rest | some denied ↦ denied ∷ rest ]

  module _ {F : Type 0} where
    -- The loop is the one of `ControlClient::merge_snapshot`.
    unfoldable pub apply_revocations : DaemonState F → List RevocationRecord → DaemonState F × ℕ
    apply_revocations s incoming =
        let (revocations, added) = merge_revocations s.revocations incoming in
        (
          record s {
            revocations = revocations;
            denied_peers = denied_peers s.membership revocations;
          },
          added,
        )

    unfoldable pub authority_snapshot : DaemonState F → AuthorityArtifactSnapshot
    authority_snapshot s = record {
      network_id = derive c s.network;
      enrollment_token = none;
      membership = some s.membership;
      capability_grants = s.capability_grants;
      revocations = s.revocations;
      bootstrap_hints =
          map {A = BootstrapEndpoint} {B = BootstrapHint}
            (λ e. record { peer_id = e.peer; addresses = e.addresses; metadata = e.metadata })
            s.bootstrap;
    }

-- The relays of which the map in use does not know the peer.
abbrev is_known_relay : Option RelayMap → RelayAnnouncement → Bool
is_known_relay none relay = false
is_known_relay (some existing) relay = any (λ known. known.peer_id == relay.peer_id) existing.relays

-- A map of a later version is in use.
abbrev is_newer : Option RelayMap → RelayMap → Bool
is_newer none incoming = false
is_newer (some existing) incoming = ltb incoming.version existing.version

module _ {F : Type 0} (f : Floats F) where
  -- `state.path_candidates = merged_path_candidates(&state)`.
  unfoldable pub refresh_candidates : DaemonState F → DaemonState F
  refresh_candidates s = record s { path_candidates = merged_path_candidates f s }

  unfoldable pub apply_relay_map : DaemonState F → RelayMap → DaemonState F × ℕ
  unfolding refresh_candidates
  apply_relay_map s incoming = if is_newer s.relay_map incoming then (s, 0) else (
    refresh_candidates (record s {
      relay_map = some incoming;
      peers = merge_relay_peers s.peers (relay_peers incoming);
    }),
    count (λ relay. not (is_known_relay s.relay_map relay)) incoming.relays,
  )

  module _ (c : Primitives) where
    -- The state after a merge; the delta's counts are the report.
    unfoldable pub install :
        DaemonState F → MembershipCertificate → AuthorityArtifactSnapshot → DaemonState F
    unfolding refresh_candidates
    install s membership merged =
        let bootstrap = map bootstrap_endpoint_from_hint merged.bootstrap_hints in
        refresh_candidates (record s {
          local_peer_id = membership.subject_peer_id;
          membership = membership;
          capability_grants = merged.capability_grants;
          revocations = merged.revocations;
          denied_peers = denied_peers c membership merged.revocations;
          bootstrap = bootstrap;
          peers = merge_bootstrap_peers s.peers bootstrap;
        })

    unfoldable pub report_of : SnapshotDelta → StateSyncReport
    report_of delta = record {
      membership_changed = delta.membership_changed;
      grants_added = delta.grants_added;
      grants_removed = delta.grants_removed;
      revocations_added = delta.revocations_added;
      bootstrap_hints_added = delta.bootstrap_hints_added;
      bootstrap_hints_removed = delta.bootstrap_hints_removed;
      relay_announcements_added = 0;
    }

    -- `network` is the network of the client.
    unfoldable pub sync_authority_snapshot :
        DaemonState F
        → NetworkId
        → AuthorityArtifactSnapshot
        → Result DaemonStateError (DaemonState F × StateSyncReport)
    unfolding install report_of
    sync_authority_snapshot s network incoming = do
      (merged, delta) ←
          map_err control_failed (merge_snapshot network (some (authority_snapshot c s)) incoming)
      membership ← ok_or merged.membership missing_membership
      ok (install s membership merged, report_of delta)

    unfoldable pub from_authority_snapshot :
        Bytes
        → List DaemonRole
        → AuthorityArtifactSnapshot
        → Result DaemonStateError (DaemonState F)
    unfolding refresh_candidates
    from_authority_snapshot network roles snapshot = do
      reject_if (snapshot.network_id != derive c network) network_mismatch
      membership ← ok_or snapshot.membership missing_membership
      let bootstrap = map bootstrap_endpoint_from_hint snapshot.bootstrap_hints
      ok (
          refresh_candidates (record {
            schema_version = daemon_state_schema_version;
            network = network;
            local_peer_id = membership.subject_peer_id;
            roles = roles;
            membership = membership;
            capability_grants = snapshot.capability_grants;
            revocations = snapshot.revocations;
            denied_peers = denied_peers c membership snapshot.revocations;
            bootstrap = bootstrap;
            relay_map = none;
            peers = bootstrap_peers bootstrap;
            netcheck = pending_netcheck;
            queue_policies = default_queue_policies;
            active_sessions = [];
            path_candidates = [];
          }))
