-- ===== src/Fabric/Plane/Sync.antt =====
-- `LocalControlPlane` of crates/fabric/src/lib.rs: the methods that take the state from an authority.
use quipnet.Base.{ℕ, true, Option, Bytes, length, bytes_eq, if◌then◌else◌}
use quipnet.Crypto.{derive}
use quipnet.Control.{AuthorityArtifactSnapshot}
use quipnet.Fabric.State.{DaemonState, max_revocation_sequence}
use quipnet.Fabric.Authority.{
  StateSyncReport, refresh_candidates, apply_relay_map, apply_revocations, from_authority_snapshot,
  sync_authority_snapshot,
}
use quipnet.Fabric.Exec.{Exec, pure, lift, ◌>>=◌, ◌>>◌}
use quipnet.Fabric.Plane.{Authority, control_result, ensure_state, load, save, state_exists, Plane}

module _ {F S : Type 0} (p : Plane F S) where
  -- The state of a snapshot, when there is none yet.
  seeded : AuthorityArtifactSnapshot → Exec S (DaemonState F)
  seeded snapshot = do
    s ← lift (from_authority_snapshot p.floats p.crypto p.config.network p.config.roles snapshot)
    pure (refresh_candidates p.floats s)

  -- The snapshot is the one of the given path.
  unfoldable pub seed_from_authority_snapshot : AuthorityArtifactSnapshot → Exec S (DaemonState F)
  unfolding seeded
  seed_from_authority_snapshot snapshot = do s ← seeded snapshot; save p s; pure s

  -- The report of a first snapshot.
  first_report : DaemonState F → ℕ → StateSyncReport
  first_report s relays = record {
    membership_changed = true;
    grants_added = length s.capability_grants;
    grants_removed = 0;
    revocations_added = length s.revocations;
    bootstrap_hints_added = length s.bootstrap;
    bootstrap_hints_removed = 0;
    relay_announcements_added = relays;
  }

  -- The state of the file, with the configured roles, and the snapshot merged into it.
  synced : AuthorityArtifactSnapshot → Exec S (DaemonState F × StateSyncReport)
  synced snapshot = do
    s ← load p
    lift (
        sync_authority_snapshot p.floats p.crypto (record s { roles = p.config.roles })
          (derive p.crypto p.config.network) snapshot)

  unfoldable pub sync_snapshot :
      AuthorityArtifactSnapshot → Exec S (DaemonState F × StateSyncReport)
  unfolding seeded first_report synced
  sync_snapshot snapshot = do
    present ← state_exists p
    if present
        then (do (s, report) ← synced snapshot; save p s; pure (s, report))
        else (do s ← seeded snapshot; save p s; pure (s, first_report s 0))

  unfoldable pub seed_from_authority_origin : Authority → Option Bytes → Exec S (DaemonState F)
  unfolding seeded
  seed_from_authority_origin client subject = do
    snapshot ← lift (control_result (client.fetch_authority_snapshot_for subject))
    relay_map ← lift (control_result client.fetch_relay_map)
    s ← seeded snapshot
    let s = (apply_relay_map p.floats s relay_map).0
    save p s
    pure s

  unfoldable pub sync_authority_origin :
      Authority → Option Bytes → Exec S (DaemonState F × StateSyncReport)
  unfolding seeded first_report synced
  sync_authority_origin client subject = do
    snapshot ← lift (control_result (client.fetch_authority_snapshot_for subject))
    relay_map ← lift (control_result client.fetch_relay_map)
    present ← state_exists p
    if present
        then (do
          (s, report) ← synced snapshot
          let (s, added) = apply_relay_map p.floats s relay_map
          save p s
          pure (s, record report { relay_announcements_added = added }))
        else (do
          s ← seeded snapshot
          let (s, added) = apply_relay_map p.floats s relay_map
          let report = first_report s added
          save p s
          pure (s, report))

  unfoldable pub sync_authority_revocations_origin : Authority → Exec S (DaemonState F × ℕ)
  sync_authority_revocations_origin client = do
    s ← ensure_state p
    let s = record s { roles = p.config.roles }
    revocations ← lift (control_result (client.fetch_revocations (max_revocation_sequence s)))
    let (s, added) = apply_revocations p.crypto s revocations
    save p s
    pure (s, added)
