-- ===== src/Control/Merge.antt =====
-- `ControlClient::merge_snapshot` and its helpers in crates/control/src/lib.rs. The derived equality
-- of certificates and grants is decided field by field; addresses are sorted as byte strings.
use quipnet.Base.{
  ℕ, Bool, true, false, not, ◌&&◌, ◌||◌, Option, none, some, List, [], ◌∷◌, ◌++◌, map, Bytes, Eq,
  ◌==◌, ◌!=◌, Result, ok, err, ◌>>=◌, ◌>>◌, reject_if, if◌then◌else◌, ltb, leb, any, find, count,
  length, nat_eq, bytes_eq, option_eq, holds, bytes_discrete, suc, ℕ_discrete,
}
use mathlib.Core.List.{List-discrete}
use quipnet.Base.Sets.{sorted_set}
use quipnet.Base.Trim.{trim}
use quipnet.Model.{PeerId, NetworkId}
use quipnet.Membership.{
  BootstrapHint, EnrollmentToken, MembershipCertificate, UnsignedMembershipCertificate,
  CapabilityGrant, ResourceLimits, RevocationRecord, RevocationTarget,
}

pub data ControlError : Type 0 where
  network_mismatch subject_mismatch membership_rollback grant_conflict : ControlError
  transport decode missing_subject : Bytes → ControlError

pub record AuthorityArtifactSnapshot : Type 0 where
  pub network_id : NetworkId
  pub enrollment_token : Option EnrollmentToken
  pub membership : Option MembershipCertificate
  pub capability_grants : List CapabilityGrant
  pub revocations : List RevocationRecord
  pub bootstrap_hints : List BootstrapHint

pub record SnapshotDelta : Type 0 where
  pub membership_changed : Bool
  pub grants_added : ℕ
  pub grants_removed : ℕ
  pub revocations_added : ℕ
  pub bootstrap_hints_added : ℕ
  pub bootstrap_hints_removed : ℕ

pub UnsignedMembershipCertificate-discrete : Discrete UnsignedMembershipCertificate
UnsignedMembershipCertificate-discrete = hlevel ℕ_discrete

pub MembershipCertificate-discrete : Discrete MembershipCertificate
MembershipCertificate-discrete = hlevel (ℕ_discrete, UnsignedMembershipCertificate-discrete)

pub ResourceLimits-discrete : Discrete ResourceLimits
ResourceLimits-discrete = hlevel ℕ_discrete

pub CapabilityGrant-discrete : Discrete CapabilityGrant
CapabilityGrant-discrete = hlevel (ℕ_discrete, ResourceLimits-discrete)

pub RevocationTarget-discrete : Discrete RevocationTarget
RevocationTarget-discrete = hlevel ℕ_discrete

instance abbrev pub certificate_eq : Eq MembershipCertificate
certificate_eq = record { dec = MembershipCertificate-discrete }

instance abbrev pub grant_eq : Eq CapabilityGrant
grant_eq = record { dec = CapabilityGrant-discrete }

instance abbrev pub target_eq : Eq RevocationTarget
target_eq = record { dec = RevocationTarget-discrete }

unfoldable pub same_grant : CapabilityGrant → CapabilityGrant → Bool
same_grant l r =
    (l.network_id == r.network_id)
    && ((l.issuer_peer_id == r.issuer_peer_id)
        && ((l.subject_peer_id == r.subject_peer_id) && (l.sequence == r.sequence)))

unfoldable pub same_revocation : RevocationRecord → RevocationRecord → Bool
same_revocation l r =
    (l.sequence == r.sequence) && ((l.issuer_peer_id == r.issuer_peer_id) && (l.target == r.target))

-- Trimmed, sorted, without repetitions.
unfoldable pub normalize_addresses : List Bytes → List Bytes
normalize_addresses addresses = sorted_set (map trim addresses)

abbrev pub same_origin : Option PeerId → Option PeerId → List Bytes → List Bytes → Bool
same_origin (some p) (some q) xs ys = p == q
same_origin _ _ xs ys =
    holds (List-discrete bytes_discrete (normalize_addresses xs) (normalize_addresses ys))

unfoldable pub same_hint : BootstrapHint → BootstrapHint → Bool
same_hint l r = same_origin l.peer_id r.peer_id l.addresses r.addresses

unfoldable pub merge_membership :
    Option MembershipCertificate
    → Option MembershipCertificate
    → Result ControlError (Option MembershipCertificate)
merge_membership none incoming = ok incoming
merge_membership (some current) none = ok (some current)
merge_membership (some current) (some incoming) = do
  reject_if (current.subject_peer_id != incoming.subject_peer_id) subject_mismatch
  reject_if (ltb incoming.issued_at current.issued_at) membership_rollback
  reject_if ((incoming.issued_at == current.issued_at) && (incoming != current)) grant_conflict
  ok (
      some (
        if ltb current.issued_at incoming.issued_at || leb current.expires_at incoming.expires_at
        then incoming
        else current))

-- The loop over the incoming grants: one with the identity of a grant that is held has to equal
-- the first such.
unfoldable pub check_grants :
    List CapabilityGrant → List CapabilityGrant → Result ControlError (Unit {0})
check_grants current [] = ok tt
check_grants current (g ∷ incoming) =
    let rest = check_grants current incoming in
    elim (find (λ e. same_grant e g) current) [
      | none ↦ rest
      | some existing ↦ if existing != g then err grant_conflict else rest
    ]

-- The loop over the incoming revocations: the list, and how many were added.
abbrev one_more : List RevocationRecord × ℕ → List RevocationRecord × ℕ
one_more (all, added) = (all, suc added)

unfoldable pub merge_revocations :
    List RevocationRecord → List RevocationRecord → List RevocationRecord × ℕ
merge_revocations held [] = (held, 0)
merge_revocations held (r ∷ incoming) =
    let skipped = merge_revocations held incoming in
    let pushed = one_more (merge_revocations (held ++ r ∷ []) incoming) in
    if any (λ e. same_revocation e r) held then skipped else pushed

abbrev pub is_some {ℓ} : {A : Type ℓ} → Option A → Bool
is_some none = false
is_some (some _) = true

abbrev pub or_else {ℓ} : {A : Type ℓ} → Option A → Option A → Option A
or_else none b = b
or_else (some a) b = some a

-- `membership != current.membership`.
abbrev pub membership_differs : Option MembershipCertificate → Option MembershipCertificate → Bool
membership_differs a b = a != b

unfoldable pub sync_authority_snapshot :
    NetworkId → AuthorityArtifactSnapshot → Result ControlError AuthorityArtifactSnapshot
sync_authority_snapshot network snapshot = do
  reject_if (snapshot.network_id != network) network_mismatch
  ok snapshot

-- How many of `xs` are the same as none of `ys`, by `same` of an element of `ys` and one of `xs`.
abbrev pub unmatched {ℓ} : {A : Type ℓ} → (A → A → Bool) → List A → List A → ℕ
unmatched same xs ys = count (λ x. not (any (λ y. same y x) ys)) xs

unfoldable pub first_delta : AuthorityArtifactSnapshot → SnapshotDelta
first_delta incoming = record {
  membership_changed = is_some incoming.membership;
  grants_added = length incoming.capability_grants;
  grants_removed = 0;
  revocations_added = length incoming.revocations;
  bootstrap_hints_added = length incoming.bootstrap_hints;
  bootstrap_hints_removed = 0;
}

merge_into :
    AuthorityArtifactSnapshot
    → AuthorityArtifactSnapshot
    → Result ControlError (AuthorityArtifactSnapshot × SnapshotDelta)
merge_into current incoming = do
  membership ← merge_membership current.membership incoming.membership
  check_grants current.capability_grants incoming.capability_grants
  let (revocations, added) = merge_revocations current.revocations incoming.revocations
  ok (
    record {
      network_id = incoming.network_id;
      enrollment_token = or_else incoming.enrollment_token current.enrollment_token;
      membership = membership;
      capability_grants = incoming.capability_grants;
      revocations = revocations;
      bootstrap_hints = incoming.bootstrap_hints;
    },
    record {
      membership_changed = membership_differs membership current.membership;
      grants_added = unmatched same_grant incoming.capability_grants current.capability_grants;
      grants_removed =
          unmatched (λ i g. same_grant g i) current.capability_grants incoming.capability_grants;
      revocations_added = added;
      bootstrap_hints_added = unmatched same_hint incoming.bootstrap_hints current.bootstrap_hints;
      bootstrap_hints_removed =
          unmatched (λ i h. same_hint h i) current.bootstrap_hints incoming.bootstrap_hints;
    },
  )

-- `ControlClient::merge_snapshot` of the client of a network.
unfoldable pub merge_snapshot :
    NetworkId
    → Option AuthorityArtifactSnapshot
    → AuthorityArtifactSnapshot
    → Result ControlError (AuthorityArtifactSnapshot × SnapshotDelta)
unfolding first_delta merge_into
merge_snapshot network none incoming = do
  incoming ← sync_authority_snapshot network incoming
  ok (incoming, first_delta incoming)
merge_snapshot network (some current) incoming = do
  incoming ← sync_authority_snapshot network incoming
  merge_into current incoming
