-- ===== src/Fabric/Plane.antt =====
-- `LocalControlPlane` of crates/fabric/src/lib.rs: the state file, and how its methods refresh it. A
-- `Plane` is the configuration with what the code takes from other crates: the cryptography, serde, the
-- float of a loss, and the transport `T` of the generic methods.
pub mod Sync
use quipnet.Base.{
  ℕ, Bool, true, false, Option, List, ◌++◌, Bytes, text, length, ◌!=◌, bytes_eq, if◌then◌else◌,
  Result, ok, err, ok_or,
}
use quipnet.Base.Maps.{contains_key, remove}
use quipnet.Model.{PeerId, ProtocolId, TrafficClass, interactive}
use quipnet.Crypto.{Primitives, IdentityKeypair, peer_id, derive}
use quipnet.PeerText.{to_text}
use quipnet.Membership.{UnsignedMembershipCertificate, RevocationRecord}
use quipnet.Control.{AuthorityArtifactSnapshot, ControlError}
use quipnet.RelayWire.{RelayMap}
use quipnet.Netcheck.{relay_required}
use quipnet.PeerStore.{PeerInspection}
use quipnet.Routing.{PathDecision}
use quipnet.Transport.{LifecycleTransport, RoutePlan}
use quipnet.Fabric.State.{
  DaemonRole, DaemonState, DaemonStateError, invalid_session, peer_not_found, control_failed,
  daemon_peer, max_revocation_sequence,
}
use quipnet.Fabric.Estimates.{Floats, reprobe_netcheck}
use quipnet.Fabric.Authority.{
  StateSyncReport, refresh_candidates, apply_relay_map, apply_revocations, from_authority_snapshot,
  sync_authority_snapshot,
}
use quipnet.Fabric.Policies.{Decision, explain_policy}
use quipnet.Fabric.Routes.{best_path, route_plan}
use quipnet.Fabric.Files
use quipnet.Fabric.Files.{Serde, Disk}
use quipnet.Fabric.Fixture.{fixture_daemon_state, self_identity_daemon_state}
use quipnet.Fabric.Exec.{Exec, pure, fail, lift, ◌>>=◌, ◌>>◌}

pub record DaemonConfig : Type 0 where
  pub network : Bytes
  pub state_path : Bytes
  pub roles : List DaemonRole

pub record NetcheckReprobeReport : Type 0 where
  pub reason : Bytes
  pub udp_reachable : Bool
  pub ipv6_reachable : Bool
  pub relay_required : Bool
  pub probe_observations : ℕ
  pub path_candidates : ℕ

-- `ControlClient` over HTTP: what it fetches from an origin.
pub record Authority : Type 0 where
  pub fetch_authority_snapshot_for : Option Bytes → Result ControlError AuthorityArtifactSnapshot
  pub fetch_relay_map : Result ControlError RelayMap
  pub fetch_revocations : Option ℕ → Result ControlError (List RevocationRecord)

pub record Plane (F S : Type 0) : Type 0 where
  pub config : DaemonConfig
  pub crypto : Primitives
  pub json : UnsignedMembershipCertificate → Bytes
  pub floats : Floats F
  pub scaled : F → ℕ → ℕ
  pub at_least_one : F → Bool
  pub loss_eq : F → F → Bool
  pub serde : Serde F
  pub transport : LifecycleTransport S

abbrev control_result : {A : Type 0} → Result ControlError A → Result DaemonStateError A
control_result (ok a) = ok a
control_result (err e) = err (control_failed e)

module _ {F S : Type 0} (p : Plane F S) where
  unfoldable pub load : Exec S (DaemonState F)
  load w = (Files.load p.crypto p.serde w.disk p.config.state_path, w)

  unfoldable pub save : DaemonState F → Exec S (Unit {0})
  save s w = (ok tt, record w { disk = Files.save p.crypto p.serde s w.disk p.config.state_path })

  -- `self.config.state_path.exists()`.
  unfoldable pub state_exists : Exec S Bool
  state_exists w = (ok (contains_key p.config.state_path w.disk), w)

  -- The roles of the configuration and the candidates of the state replace those of the file.
  unfoldable pub refreshed : DaemonState F → DaemonState F
  refreshed s = refresh_candidates p.floats (record s { roles = p.config.roles })

  unfoldable pub ensure_state : Exec S (DaemonState F)
  unfolding load save state_exists refreshed
  ensure_state = do
    present ← state_exists
    if present then (do s ← load; pure (refreshed s)) else (do
      let s = refreshed (fixture_daemon_state p.crypto p.floats p.json p.config.network)
      save s
      pure s)

  unfoldable pub ensure_state_for_local_identity : IdentityKeypair → Exec S (DaemonState F)
  ensure_state_for_local_identity identity = do
    present ← state_exists
    if present then ensure_state else (do
      let s = refresh_candidates p.floats (
          self_identity_daemon_state p.crypto p.floats p.json p.config.network p.config.roles
            identity)
      save s
      pure s)

  mismatch : Bytes → PeerId → PeerId → DaemonStateError
  mismatch what found expected = invalid_session (
      what
      ++ (text " "
          ++ (to_text p.crypto found
              ++ (text " does not match runtime identity " ++ to_text p.crypto expected))))

  unfoldable pub ensure_identity_bound_state : IdentityKeypair → Exec S (DaemonState F)
  unfolding mismatch
  ensure_identity_bound_state identity = do
    s ← ensure_state_for_local_identity identity
    let expected = peer_id p.crypto identity
    if s.local_peer_id != expected
        then fail (mismatch (text "state local peer") s.local_peer_id expected)
        else if s.membership.subject_peer_id != expected
        then fail (mismatch (text "membership subject peer") s.membership.subject_peer_id expected)
        else pure s

  unfoldable pub refresh_and_persist : Exec S (DaemonState F)
  refresh_and_persist = do s ← ensure_state; save s; pure s

  unfoldable pub refresh_and_persist_for_local_identity : IdentityKeypair → Exec S (DaemonState F)
  refresh_and_persist_for_local_identity identity = do
    s ← ensure_state_for_local_identity identity
    save s
    pure s

  unfoldable pub reprobe_network_change : Bytes → Exec S NetcheckReprobeReport
  reprobe_network_change reason = do
    s ← ensure_state
    let s = refresh_candidates p.floats (record s { netcheck = reprobe_netcheck s.netcheck reason })
    save s
    pure (record {
      reason = reason;
      udp_reachable = s.netcheck.udp_reachable;
      ipv6_reachable = s.netcheck.ipv6_reachable;
      relay_required = relay_required s.netcheck;
      probe_observations = length s.netcheck.probe_observations;
      path_candidates = length s.path_candidates;
    })

  unfoldable pub inspect_peer : PeerId → Exec S (PeerInspection × Option (PathDecision F))
  inspect_peer peer = do
    s ← ensure_state
    inspection ← lift (ok_or (daemon_peer s peer) (peer_not_found (to_text p.crypto peer)))
    pure (inspection, best_path p.scaled p.at_least_one s peer interactive)

  unfoldable pub reset_network_state : Exec S Bool
  reset_network_state w =
      if contains_key p.config.state_path w.disk
      then (ok true, record w { disk = remove p.config.state_path w.disk })
      else (ok false, w)

  unfoldable pub explain_peer_policy : PeerId → ProtocolId → Exec S Decision
  explain_peer_policy peer protocol = do
    s ← ensure_state
    pure (explain_policy p.crypto s peer protocol)

  -- The route plan of a state, as a step of a method.
  unfoldable pub plan :
      DaemonState F → PeerId → Option ProtocolId → TrafficClass → Result DaemonStateError RoutePlan
  plan s peer protocol class = route_plan p.scaled p.at_least_one p.crypto s peer protocol class
