-- ===== src/Membership/Certificate.antt =====
-- `MembershipCertificate` of crates/membership/src/lib.rs.
use quipnet.Base.{ℕ, List, Bytes, Result, ◌>>◌, reject_if, map_err, ◌!=◌, ◌||◌, bytes_eq, ltb}
use quipnet.Model.{PeerId, NetworkId}
use quipnet.Crypto.{
  Primitives, IdentityKeypair, PublicIdentityKey, SignatureBytes, peer_id, sign, verify,
}
use quipnet.Membership.Types.{MembershipError, expired_artifact, subject_mismatch, bad_signature}

pub record UnsignedMembershipCertificate : Type 0 where
  pub network_id : NetworkId
  pub subject_peer_id : PeerId
  pub issuer_peer_id : PeerId
  pub issued_at : ℕ
  pub expires_at : ℕ
  pub roles : List Bytes

pub record MembershipCertificate : Type 0 where
  pub unsigned : UnsignedMembershipCertificate
  pub open unsigned use *
  pub signature : SignatureBytes

module _ (c : Primitives) (json : UnsignedMembershipCertificate → Bytes) where
  -- `MembershipCertificate::issue`.
  unfoldable pub issue_certificate :
      IdentityKeypair → NetworkId → PeerId → ℕ → ℕ → List Bytes → MembershipCertificate
  issue_certificate issuer network_id subject issued_at expires_at roles =
      let unsigned : UnsignedMembershipCertificate = record {
        network_id = network_id;
        subject_peer_id = subject;
        issuer_peer_id = peer_id c issuer;
        issued_at = issued_at;
        expires_at = expires_at;
        roles = roles;
      } in
      record { unsigned = unsigned; signature = sign c issuer (json unsigned) }

  -- `MembershipCertificate::verify`.
  unfoldable pub verify_certificate :
      MembershipCertificate
      → PublicIdentityKey
      → NetworkId
      → PeerId
      → ℕ
      → Result MembershipError (Unit {0})
  verify_certificate m issuer_key expected_network expected_subject now = do
    reject_if (m.network_id != expected_network || m.subject_peer_id != expected_subject)
        subject_mismatch
    reject_if (ltb m.expires_at now) expired_artifact
    map_err bad_signature (verify c m.signature issuer_key (json m.unsigned))
