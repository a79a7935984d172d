-- ===== src/Fabric/State.antt =====
-- `DaemonState` of crates/fabric/src/lib.rs, its errors, and what it answers about peers, sessions,
-- grants and relays. `F` is the 32-bit float of a path candidate's loss.
use quipnet.Base.{
  ℕ, Bool, false, not, ◌&&◌, Option, none, some, List, [], ◌∷◌, ◌++◌, map, Bytes, text, ◌==◌,
  bytes_eq, nat_eq, if◌then◌else◌, any, find, keep, first, length, max,
}
use quipnet.Base.Maps.{Map}
use quipnet.Model.{PeerId, ProtocolId}
use quipnet.Membership.{
  MembershipCertificate, CapabilityGrant, RevocationRecord, RevocationTarget, capability_grant,
}
use quipnet.RelayWire.{RelayAnnouncement, RelayMap}
use quipnet.PeerStore.{PeerInspection}
use quipnet.Netcheck.{NetcheckReport}
use quipnet.Scheduler.{QueuePolicy}
use quipnet.Routing.{PathCandidate}
use quipnet.Control.{ControlError}
use quipnet.Transport.{TransportError, SessionSnapshot}

pub data DaemonRole : Type 0 where
  bootstrap relay observer edge : DaemonRole

abbrev pub daemon_state_schema_version : ℕ
daemon_state_schema_version = 2

abbrev pub min_migratable_schema_version : ℕ
min_migratable_schema_version = 1

pub data DaemonStateError : Type 0 where
  io serialization peer_not_found policy_denied session_not_found invalid_session :
      Bytes → DaemonStateError
  network_mismatch missing_membership missing_schema_version : DaemonStateError
  invalid_backup_bundle backup_key_derivation : DaemonStateError
  control_failed : ControlError → DaemonStateError
  no_route : PeerId → DaemonStateError
  transport_failed : TransportError → DaemonStateError
  migration_required unsupported_schema_version : ℕ → ℕ → DaemonStateError
  unsupported_durable_field : Bytes → DaemonStateError

pub record BootstrapEndpoint : Type 0 where
  pub peer : Option PeerId
  pub addresses : List Bytes
  pub protocols : List Bytes
  pub metadata : Map Bytes

pub record DeniedPeer : Type 0 where
  pub peer : PeerId
  pub reason : Bytes

pub record DaemonState (F : Type 0) : Type 0 where
  pub schema_version : ℕ
  pub network : Bytes
  pub local_peer_id : PeerId
  pub roles : List DaemonRole
  pub membership : MembershipCertificate
  pub capability_grants : List CapabilityGrant
  pub revocations : List RevocationRecord
  pub denied_peers : List DeniedPeer
  pub bootstrap : List BootstrapEndpoint
  pub relay_map : Option RelayMap
  pub peers : List PeerInspection
  pub netcheck : NetcheckReport
  pub queue_policies : List QueuePolicy
  pub active_sessions : List SessionSnapshot
  pub path_candidates : List (PathCandidate F)

-- The grant that a revocation's target names.
abbrev pub revokes_capability : PeerId → ℕ → RevocationTarget → Bool
revokes_capability peer sequence (capability_grant subject revoked) =
    (subject == peer) && (revoked == sequence)
revokes_capability peer sequence _ = false

-- `iter().max()`.
abbrev pub greatest : List ℕ → Option ℕ
greatest [] = none
greatest (n ∷ ns) = elim (greatest ns) [ none ↦ some n | some m ↦ some (max n m) ]

abbrev replace_session : SessionSnapshot → List SessionSnapshot → List SessionSnapshot
replace_session session [] = session ∷ []
replace_session session (s ∷ sessions) =
    let rest = replace_session session sessions in
    if s.session_id == session.session_id then session ∷ sessions else s ∷ rest

module _ {F : Type 0} where
  unfoldable pub daemon_peer : DaemonState F → PeerId → Option PeerInspection
  daemon_peer s peer = find (λ entry. entry.snapshot.peer == peer) s.peers

  unfoldable pub path_candidates_for : DaemonState F → PeerId → List (PathCandidate F)
  path_candidates_for s peer = keep (λ candidate. candidate.peer == peer) s.path_candidates

  unfoldable pub first_peer : DaemonState F → Option PeerInspection
  first_peer s = first s.peers

  unfoldable pub session_of : DaemonState F → Bytes → Option SessionSnapshot
  session_of s session_id = find (λ session. session.session_id == session_id) s.active_sessions

  unfoldable pub is_capability_revoked : DaemonState F → PeerId → ℕ → Bool
  is_capability_revoked s peer sequence =
      any (λ r. revokes_capability peer sequence r.target) s.revocations

  unfoldable pub grants_for_peer : DaemonState F → PeerId → List CapabilityGrant
  unfolding is_capability_revoked
  grants_for_peer s peer =
      keep (λ grant. not (is_capability_revoked s grant.subject_peer_id grant.sequence))
        (keep (λ grant. grant.subject_peer_id == peer) s.capability_grants)

  unfoldable pub deny_reason : DaemonState F → PeerId → Option Bytes
  deny_reason s peer = elim (find (λ entry. entry.peer == peer) s.denied_peers) [
    | none ↦ none
    | some entry ↦ some entry.reason
  ]

  unfoldable pub relay_announcements : DaemonState F → List RelayAnnouncement
  relay_announcements s = elim s.relay_map [ none ↦ [] | some relay_map ↦ relay_map.relays ]

  unfoldable pub relay_count : DaemonState F → ℕ
  relay_count s = elim s.relay_map [ none ↦ 0 | some relay_map ↦ length relay_map.relays ]

  unfoldable pub max_revocation_sequence : DaemonState F → Option ℕ
  max_revocation_sequence s = greatest (map (λ r. r.sequence) s.revocations)

  unfoldable pub with_active_session : DaemonState F → SessionSnapshot → DaemonState F
  with_active_session s session = record s {
    active_sessions = replace_session session s.active_sessions;
  }

  unfoldable pub without_session : DaemonState F → Bytes → DaemonState F
  without_session s session_id = record s {
    active_sessions = keep (λ session. not (session.session_id == session_id)) s.active_sessions;
  }

unfoldable pub protocol_capability : ProtocolId → Bytes
protocol_capability protocol =
    if protocol == text "/quip/records/1"
    then text "records.publish"
    else if protocol == text "/quip/control/1"
    then text "control.access"
    else text "protocol:" ++ protocol
