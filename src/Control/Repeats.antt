-- ===== src/Control/Repeats.antt =====
-- `merge_snapshot` of a snapshot that is held already.
use quipnet.Base.{
  ◌≡◌, ◌≢◌, refl, inr, Bool, true, false, Option, none, some, List, [], ◌∷◌, ok, err, find, All,
  All-of_mem, Memᴰ, arith, bytes_eq, nat_eq, any_complete,
}
use quipnet.Model.{NetworkId}
use quipnet.Membership.{CapabilityGrant, RevocationRecord, BootstrapHint, MembershipCertificate}
use quipnet.Control.Merge.{
  grant_conflict, AuthorityArtifactSnapshot, SnapshotDelta, same_grant, same_revocation, same_hint,
  merge_membership, check_grants, merge_revocations, unmatched, sync_authority_snapshot,
  merge_snapshot, membership_differs, certificate_eq, or_else, first_delta,
}
use quipnet.Control.Certificates.{merge_membership_iff}
use quipnet.Control.Snapshots.{Revokes, same_revocation_refl, check_grants_conflict}

-- Every grant is the first of its identity that the snapshot lists.
abbrev pub IsConsistent : AuthorityArtifactSnapshot → Type 0
IsConsistent s =
    All (λ g. find (λ e. same_grant e g) s.capability_grants ≡ some g) s.capability_grants

abbrev pub no_change : SnapshotDelta
no_change = record {
  membership_changed = false;
  grants_added = 0;
  grants_removed = 0;
  revocations_added = 0;
  bootstrap_hints_added = 0;
  bootstrap_hints_removed = 0;
}

pub same_grant_refl : (g : CapabilityGrant) → same_grant g g ≡ true
unfolding same_grant
same_grant_refl g = ground arith

same_hint_refl : (h : BootstrapHint) → same_hint h h ≡ true
unfolding same_hint
same_hint_refl h = ground arith

check_grants_consistent :
    (current incoming : List CapabilityGrant)
    → All (λ g. find (λ e. same_grant e g) current ≡ some g) incoming
    → check_grants current incoming ≡ ok tt
unfolding check_grants
check_grants_consistent current [] h = refl
check_grants_consistent current (g ∷ incoming) h =
    ground (arith, check_grants_consistent current incoming h.1)

merge_revocations_held :
    (incoming held : List RevocationRecord)
    → All (Revokes held) incoming
    → merge_revocations held incoming ≡ (held, 0)
unfolding merge_revocations
merge_revocations_held [] held h = refl
merge_revocations_held (r ∷ incoming) held h = rw h.0 (merge_revocations_held incoming held h.1)

unmatched_subset {ℓ} :
    {A : Type ℓ} (same : A → A → Bool) (xs ys : List A)
    → ((x : A) → same x x ≡ true)
    → ((x : A) → Memᴰ x xs → Memᴰ x ys)
    → unmatched same xs ys ≡ 0
unmatched_subset same [] ys r h = refl
unmatched_subset same (x ∷ xs) ys r h = ground (
  arith,
  any_complete (λ y. same y x) (h x (Memᴰ.head refl)) (r x),
  unmatched_subset same xs ys r (λ y m. h y (Memᴰ.tail m)),
)

merge_membership_self : (m : Option MembershipCertificate) → merge_membership m m ≡ ok m
unfolding merge_membership
merge_membership_self none = refl
merge_membership_self (some c) = (merge_membership_iff c c (some c)).1 (refl, refl, inr refl)

membership_differs_self : (m : Option MembershipCertificate) → membership_differs m m ≡ false
membership_differs_self m = ground arith

or_else_self {ℓ} : {A : Type ℓ} (o : Option A) → or_else o o ≡ o
or_else_self none = refl
or_else_self (some a) = refl

Revokes-own : (l : List RevocationRecord) → All (Revokes l) l
Revokes-own l =
    All-of_mem (Revokes l) l
      λ r m. any_complete (λ e. same_revocation e r) m (same_revocation_refl r)

-- A consistent snapshot of the client's network merges with itself and changes nothing.
pub merge_snapshot_self :
    (network : NetworkId) (s : AuthorityArtifactSnapshot)
    → s.network_id ≡ network
    → IsConsistent s
    → merge_snapshot network (some s) s ≡ ok (s, no_change)
unfolding merge_snapshot sync_authority_snapshot
merge_snapshot_self network s e h = ground (
  arith,
  merge_membership_self s.membership,
  check_grants_consistent s.capability_grants s.capability_grants h,
  merge_revocations_held s.revocations s.revocations (Revokes-own s.revocations),
  or_else_self s.enrollment_token,
  membership_differs_self s.membership,
  unmatched_subset same_grant s.capability_grants s.capability_grants same_grant_refl (λ x m. m),
  unmatched_subset (λ i g. same_grant g i) s.capability_grants s.capability_grants same_grant_refl
      (λ x m. m),
  unmatched_subset same_hint s.bootstrap_hints s.bootstrap_hints same_hint_refl (λ x m. m),
  unmatched_subset (λ i g. same_hint g i) s.bootstrap_hints s.bootstrap_hints same_hint_refl
      (λ x m. m),
)

-- A snapshot that lists a grant after a different one of the same identity is accepted by a client
-- that holds nothing, and then refused as a conflict with itself by the client that holds it.
pub merge_snapshot_conflict :
    (network : NetworkId) (s : AuthorityArtifactSnapshot) (g e : CapabilityGrant)
    → s.network_id ≡ network
    → Memᴰ g s.capability_grants
    → find (λ e. same_grant e g) s.capability_grants ≡ some e
    → e ≢ g
    → ((d : SnapshotDelta) × (merge_snapshot network none s ≡ ok (s, d)))
      × (merge_snapshot network (some s) s ≡ err grant_conflict)
unfolding merge_snapshot sync_authority_snapshot
merge_snapshot_conflict network s g e n m f d = (
  (first_delta s, ground arith),
  ground (
    arith,
    merge_membership_self s.membership,
    check_grants_conflict s.capability_grants s.capability_grants g e m f d,
  ),
)
