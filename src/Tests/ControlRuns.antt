-- ===== src/Tests/ControlRuns.antt =====
-- Merges of authority snapshots.
use quipnet.Base.{
  Memᴰ, ℕ, List, ◌<◌, ◌⊎◌, ◌≡◌, ◌↔◌, refl, ◌++◌, none, some, true, [], ◌∷◌, Bytes, text, ok, err,
  arith, length, All, bytes_discrete,
}
use quipnet.Model.{codec}
use quipnet.Crypto.{peer_id, key_peer_id, from_public_key, public_key, encode_multihash}
use quipnet.Membership.{
  MembershipCertificate, CapabilityGrant, RevocationRecord, BootstrapHint, default_limits,
  issue_certificate, issue_grant, issue_revocation, peer, key_compromise,
}
use quipnet.Control.{
  same_grant, sync_authority_snapshot, check_grants, merge_revocations, same_revocation,
  normalize_addresses, AuthorityArtifactSnapshot, SnapshotDelta, same_hint, merge_membership,
  merge_snapshot, grant_conflict,
}
use quipnet.Control.Certificates.{merge_membership_iff}
use quipnet.Control.Snapshots.{Revokes, merge_snapshot_revocations}
use quipnet.Control.Repeats.{no_change, merge_snapshot_conflict}
use quipnet.Tests.Toy.{toy, authority_key, home}

abbrev certificate_at : ℕ → MembershipCertificate
certificate_at time =
    issue_certificate toy (λ u. u.subject_peer_id) authority_key home (text "client") time 100 []

abbrev grant_of : Bytes → CapabilityGrant
grant_of capability =
    issue_grant toy (λ u. u.subject_peer_id) authority_key home (text "client") (capability ∷ [])
      (text "/quip/1" ∷ []) default_limits [] 10 100 1

abbrev revocation : ℕ → RevocationRecord
revocation sequence =
    issue_revocation toy (λ u. u.issuer_peer_id) authority_key home (peer (text "guest"))
      key_compromise 10 10 sequence none

abbrev hint : Bytes → BootstrapHint
hint address = record { peer_id = none; addresses = address ∷ []; metadata = [] }

abbrev snapshot : ℕ → ℕ → AuthorityArtifactSnapshot
snapshot time sequence = record {
  network_id = home;
  enrollment_token = none;
  membership = some (certificate_at time);
  capability_grants = grant_of (text "dial") ∷ [];
  revocations = revocation sequence ∷ [];
  bootstrap_hints = hint (text "a:1") ∷ [];
}

merge_membership_iff_example :
    (merge_membership (some (certificate_at 10)) (some (certificate_at 20))
      ≡ ok (some (certificate_at 20)))
    ↔ ((some (certificate_at 20) ≡ some (certificate_at 20))
        × (text "client" ≡ text "client")
        × ((10 < 20) ⊎ (certificate_at 20 ≡ certificate_at 10)))
unfolding issue_certificate
merge_membership_iff_example =
    merge_membership_iff (certificate_at 10) (certificate_at 20) (some (certificate_at 20))

abbrev merged : AuthorityArtifactSnapshot
merged = record (snapshot 20 2) { revocations = revocation 1 ∷ revocation 2 ∷ [] }

abbrev one_revocation : SnapshotDelta
one_revocation = record no_change { membership_changed = true; revocations_added = 1 }

merges : merge_snapshot home (some (snapshot 10 1)) (snapshot 20 2) ≡ ok (merged, one_revocation)
unfolding merge_snapshot sync_authority_snapshot merge_membership issue_certificate check_grants
    same_grant merge_revocations same_revocation issue_revocation same_hint normalize_addresses
    bytes_discrete issue_grant peer_id key_peer_id from_public_key codec public_key encode_multihash
merges = ground arith

merge_snapshot_revocations_example :
    ((extra : List RevocationRecord) × (merged.revocations ≡ (snapshot 10 1).revocations ++ extra)
      × (1 ≡ length extra))
    × All (Revokes merged.revocations) (revocation 2 ∷ [])
    × (merged.capability_grants ≡ (snapshot 20 2).capability_grants)
    × (merged.bootstrap_hints ≡ (snapshot 20 2).bootstrap_hints)
merge_snapshot_revocations_example =
    merge_snapshot_revocations home (snapshot 10 1) (snapshot 20 2) merged one_revocation merges

abbrev ambiguous : AuthorityArtifactSnapshot
ambiguous = record (snapshot 10 1) {
  capability_grants = grant_of (text "dial") ∷ grant_of (text "relay") ∷ [];
}

merge_snapshot_conflict_example :
    ((d : SnapshotDelta) × (merge_snapshot home none ambiguous ≡ ok (ambiguous, d)))
    × (merge_snapshot home (some ambiguous) ambiguous ≡ err grant_conflict)
unfolding same_grant bytes_discrete issue_grant peer_id key_peer_id from_public_key codec public_key
    encode_multihash
merge_snapshot_conflict_example =
    merge_snapshot_conflict home ambiguous (grant_of (text "relay")) (grant_of (text "dial")) refl
      (Memᴰ.tail (Memᴰ.head refl)) refl (ground arith)
