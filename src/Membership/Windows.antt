-- ===== src/Membership/Windows.antt =====
-- What `verify` answers for the artifacts that `issue` makes, at every time and network.
use quipnet.Base.{
  ℕ, ◌≡◌, Option, List, Bytes, ok, err, ◌==◌, ◌!=◌, ◌||◌, bytes_eq, ltb, if◌then◌else◌, arith,
}
use quipnet.Model.{PeerId, NetworkId, ProtocolId}
use quipnet.Crypto.{Primitives, IsGenuine, IdentityKeypair, public_key, verify-sign}
use quipnet.Membership.Types.{
  expired_artifact, not_yet_valid, subject_mismatch, BootstrapHint, ResourceLimits,
}
use quipnet.Membership.Token.{UnsignedEnrollmentToken, issue_token, verify_token}
use quipnet.Membership.Certificate.{
  UnsignedMembershipCertificate, issue_certificate, verify_certificate,
}
use quipnet.Membership.Grant.{UnsignedCapabilityGrant, issue_grant, verify_grant}
use quipnet.Membership.Revocation.{
  UnsignedRevocationRecord, RevocationTarget, RevocationReason, issue_revocation, verify_revocation,
}

-- A token that an issuer signed is accepted under the issuer's key in its own network until its
-- expiry, the last second included; elsewhere it is a mismatch, and later it is expired.
pub verify_token-issue_token :
    (c : Primitives) (json : UnsignedEnrollmentToken → Bytes) (issuer : IdentityKeypair)
    (network expected : NetworkId) (issued_at expires_at now : ℕ) (realm : Bytes)
    (subject_alias : Option Bytes) (roles : List Bytes) (hints : List BootstrapHint) (nonce : Bytes)
    → IsGenuine c
    → verify_token c json
        (issue_token c json issuer network issued_at expires_at realm subject_alias roles hints
          nonce)
        (public_key c issuer)
        expected
        now
      ≡ (if network == expected
          then if ltb expires_at now then err expired_artifact else ok tt
          else err subject_mismatch)
unfolding verify_token issue_token
verify_token-issue_token c json issuer network expected issued_at expires_at now realm alias roles
      hints nonce g =
    simp (verify-sign, g) (ground arith)

-- A certificate that an issuer signed is accepted under the issuer's key, in its own network and
-- for its own subject, until its expiry; otherwise it is a mismatch or expired.
pub verify_certificate-issue_certificate :
    (c : Primitives) (json : UnsignedMembershipCertificate → Bytes) (issuer : IdentityKeypair)
    (network expected : NetworkId) (subject expected_subject : PeerId)
    (issued_at expires_at now : ℕ) (roles : List Bytes)
    → IsGenuine c
    → verify_certificate c json
        (issue_certificate c json issuer network subject issued_at expires_at roles)
        (public_key c issuer)
        expected
        expected_subject
        now
      ≡ (if network != expected || subject != expected_subject
          then err subject_mismatch
          else if ltb expires_at now
          then err expired_artifact
          else ok tt)
unfolding verify_certificate issue_certificate
verify_certificate-issue_certificate c json issuer network expected subject expected_subject
      issued_at expires_at now roles g =
    simp (verify-sign, g) (ground arith)

-- A grant that an issuer signed is accepted under the issuer's key, in its own network and for its
-- own subject, from `not_before` to `expires_at`, both included; otherwise it is a mismatch, not
-- yet valid or expired, in this order.
pub verify_grant-issue_grant :
    (c : Primitives) (json : UnsignedCapabilityGrant → Bytes) (issuer : IdentityKeypair)
    (network expected : NetworkId) (subject expected_subject : PeerId) (capabilities : List Bytes)
    (scopes : List ProtocolId) (limits : ResourceLimits) (constraints : List Bytes)
    (not_before expires_at sequence now : ℕ)
    → IsGenuine c
    → verify_grant c json
        (issue_grant c json issuer network subject capabilities scopes limits constraints not_before
          expires_at sequence)
        (public_key c issuer)
        expected
        expected_subject
        now
      ≡ (if network != expected || subject != expected_subject
          then err subject_mismatch
          else if ltb now not_before
          then err not_yet_valid
          else if ltb expires_at now
          then err expired_artifact
          else ok tt)
unfolding verify_grant issue_grant
verify_grant-issue_grant c json issuer network expected subject expected_subject capabilities scopes
      limits constraints not_before expires_at sequence now g =
    simp (verify-sign, g) (ground arith)

-- A revocation that an issuer signed is accepted under the issuer's key in its own network from
-- `effective_at` on, with no end; before it is not yet valid, and elsewhere a mismatch.
pub verify_revocation-issue_revocation :
    (c : Primitives) (json : UnsignedRevocationRecord → Bytes) (issuer : IdentityKeypair)
    (network expected : NetworkId) (target : RevocationTarget) (reason : RevocationReason)
    (issued_at effective_at sequence now : ℕ) (remark : Option Bytes)
    → IsGenuine c
    → verify_revocation c json
        (issue_revocation c json issuer network target reason issued_at effective_at sequence
          remark)
        (public_key c issuer)
        expected
        now
      ≡ (if network != expected
          then err subject_mismatch
          else if ltb now effective_at
          then err not_yet_valid
          else ok tt)
unfolding verify_revocation issue_revocation
verify_revocation-issue_revocation c json issuer network expected target reason issued_at
      effective_at sequence now remark g =
    simp (verify-sign, g) (ground arith)
