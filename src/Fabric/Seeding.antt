-- ===== src/Fabric/Seeding.antt =====
-- A daemon that is seeded from an authority's snapshot and then synced with it again, in
-- crates/fabric/src/lib.rs: what `DaemonState` keeps of a snapshot, and what `ControlClient` merges.
use quipnet.Base.{
  false, none, some, List, [], ◌∷◌, map, Bytes, ◌≡◌, refl, arith, ◌!=◌, bytes_eq, inl, inr,
  Bool-cases, Option-cases, ok, ap, sym, ◌∙◌,
}
use quipnet.Crypto.{Primitives, derive}
use quipnet.Membership.{BootstrapHint}
use quipnet.Control.{AuthorityArtifactSnapshot}
use quipnet.Control.Repeats.{IsConsistent, merge_snapshot_self}
use quipnet.Fabric.State.{DaemonRole, DaemonState, BootstrapEndpoint}
use quipnet.Fabric.Estimates.{Floats}
use quipnet.Fabric.Peers.{bootstrap_endpoint_from_hint}
use quipnet.Fabric.Authority.{
  StateSyncReport, denied_peers, refresh_candidates, authority_snapshot, install, report_of,
  sync_authority_snapshot, from_authority_snapshot,
}

-- The snapshot without its enrollment token, which a state does not keep.
abbrev pub without_token : AuthorityArtifactSnapshot → AuthorityArtifactSnapshot
without_token s = record s { enrollment_token = none }

-- Nothing has changed.
abbrev pub no_sync : StateSyncReport
no_sync = record {
  membership_changed = false;
  grants_added = 0;
  grants_removed = 0;
  revocations_added = 0;
  bootstrap_hints_added = 0;
  bootstrap_hints_removed = 0;
  relay_announcements_added = 0;
}

-- Two states hold the same of the authority.
pub record SameAuthority {F : Type 0} (s t : DaemonState F) : Type 0 where
  pub peer : t.local_peer_id ≡ s.local_peer_id
  pub certificate : t.membership ≡ s.membership
  pub grants : t.capability_grants ≡ s.capability_grants
  pub revoked : t.revocations ≡ s.revocations
  pub denied : t.denied_peers ≡ s.denied_peers
  pub hints : t.bootstrap ≡ s.bootstrap

hints_kept :
    (hints : List BootstrapHint)
    → map {A = BootstrapEndpoint} {B = BootstrapHint}
        (λ e. record { peer_id = e.peer; addresses = e.addresses; metadata = e.metadata })
        (map bootstrap_endpoint_from_hint hints)
      ≡ hints
unfolding bootstrap_endpoint_from_hint
hints_kept [] = refl
hints_kept (h ∷ hints) = ap (◌∷◌ h) (hints_kept hints)

module _ {F : Type 0} (f : Floats F) (c : Primitives) where
  -- The state that a snapshot with a membership seeds.
  record Seeded (network : Bytes) (snapshot : AuthorityArtifactSnapshot) (s : DaemonState F)
      : Type 0 where
    own : snapshot.network_id ≡ derive c network
    label : s.network ≡ network
    certified : snapshot.membership ≡ some s.membership
    subject : s.local_peer_id ≡ s.membership.subject_peer_id
    grants : s.capability_grants ≡ snapshot.capability_grants
    revoked : s.revocations ≡ snapshot.revocations
    denied : s.denied_peers ≡ denied_peers c s.membership s.revocations
    hints : s.bootstrap ≡ map bootstrap_endpoint_from_hint snapshot.bootstrap_hints

  from-Seeded :
      (network : Bytes) (roles : List DaemonRole) (snapshot : AuthorityArtifactSnapshot)
      (s : DaemonState F)
      → from_authority_snapshot f c network roles snapshot ≡ ok s
      → Seeded network snapshot s
  unfolding from_authority_snapshot refresh_candidates
  from-Seeded network roles snapshot s h =
      elim (Bool-cases (snapshot.network_id != derive c network)) [
        | inl n ↦ ground (arith, n)
        | inr n ↦ elim (Option-cases snapshot.membership) [
          | inl m ↦ ground (arith, n, m)
          | inr (certificate, m) ↦ record {
            own = ground arith;
            label = ground (arith, n, m);
            certified = ground (arith, n, m);
            subject = ground (arith, n, m);
            grants = ground (arith, n, m);
            revoked = ground (arith, n, m);
            denied = ground (arith, n, m);
            hints = ground (arith, n, m);
          }
        ]
      ]

  kept :
      (network : Bytes) (snapshot : AuthorityArtifactSnapshot) (s : DaemonState F)
      → Seeded network snapshot s
      → authority_snapshot c s ≡ without_token snapshot
  unfolding authority_snapshot
  kept network snapshot s h = cc (
    h.own,
    h.label,
    h.certified,
    h.grants,
    h.revoked,
    ap
          (map {A = BootstrapEndpoint} {B = BootstrapHint}
            (λ e. record { peer_id = e.peer; addresses = e.addresses; metadata = e.metadata }))
          h.hints
        ∙ hints_kept snapshot.bootstrap_hints,
  )

  -- A state that is seeded from a snapshot gives back the snapshot, but for the enrollment token. If no
  -- two different grants of the snapshot have one identity, syncing the state with it again succeeds,
  -- reports no change, and keeps all that the state holds of the authority.
  pub sync-from_authority_snapshot :
      (network : Bytes) (roles : List DaemonRole) (snapshot : AuthorityArtifactSnapshot)
      (s : DaemonState F)
      → from_authority_snapshot f c network roles snapshot ≡ ok s
      → IsConsistent snapshot
      → (authority_snapshot c s ≡ without_token snapshot)
        × ((t : DaemonState F) × (sync_authority_snapshot f c s
                (derive c network)
                (without_token snapshot)
              ≡ ok (t, no_sync))
            × SameAuthority s t)
  unfolding sync_authority_snapshot install report_of refresh_candidates
  sync-from_authority_snapshot network roles snapshot s h k =
      let seeded = from-Seeded network roles snapshot s h in
      let back = kept network snapshot s seeded in
      let merged = merge_snapshot_self (derive c network) (without_token snapshot) seeded.own k in
      (
        back,
        (
          install f c s s.membership (without_token snapshot),
          rw (back, merged, seeded.certified) refl,
          record {
            peer = sym seeded.subject;
            certificate = refl;
            grants = sym seeded.grants;
            revoked = sym seeded.revoked;
            denied = ap (denied_peers c s.membership) (sym seeded.revoked) ∙ sym seeded.denied;
            hints = sym seeded.hints;
          },
        ),
      )
