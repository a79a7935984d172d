-- ===== src/Membership/Revocation.antt =====
-- `RevocationRecord` of crates/membership/src/lib.rs.
use quipnet.Base.{ℕ, Option, Bytes, Result, ◌>>◌, reject_if, map_err, ◌!=◌, bytes_eq, ltb}
use quipnet.Model.{PeerId, NetworkId}
use quipnet.Crypto.{
  Primitives, IdentityKeypair, PublicIdentityKey, SignatureBytes, peer_id, sign, verify,
}
use quipnet.Membership.Types.{MembershipError, not_yet_valid, subject_mismatch, bad_signature}

pub data RevocationReason : Type 0 where
  administrative key_compromise superseded unspecified : RevocationReason

pub data RevocationTarget : Type 0 where
  enrollment_token : Bytes → RevocationTarget
  membership_certificate : PeerId → ℕ → RevocationTarget
  capability_grant : PeerId → ℕ → RevocationTarget
  peer : PeerId → RevocationTarget

pub record UnsignedRevocationRecord : Type 0 where
  pub network_id : NetworkId
  pub issuer_peer_id : PeerId
  pub target : RevocationTarget
  pub reason : RevocationReason
  pub issued_at : ℕ
  pub effective_at : ℕ
  pub sequence : ℕ
  pub note : Option Bytes

pub record RevocationRecord : Type 0 where
  pub unsigned : UnsignedRevocationRecord
  pub open unsigned use *
  pub signature : SignatureBytes

module _ (c : Primitives) (json : UnsignedRevocationRecord → Bytes) where
  -- `RevocationRecord::issue`.
  unfoldable pub issue_revocation :
      IdentityKeypair
      → NetworkId
      → RevocationTarget
      → RevocationReason
      → ℕ
      → ℕ
      → ℕ
      → Option Bytes
      → RevocationRecord
  issue_revocation issuer network_id target reason issued_at effective_at sequence note =
      let unsigned : UnsignedRevocationRecord = record {
        network_id = network_id;
        issuer_peer_id = peer_id c issuer;
        target = target;
        reason = reason;
        issued_at = issued_at;
        effective_at = effective_at;
        sequence = sequence;
        note = note;
      } in
      record { unsigned = unsigned; signature = sign c issuer (json unsigned) }

  -- `RevocationRecord::verify`.
  unfoldable pub verify_revocation :
      RevocationRecord → PublicIdentityKey → NetworkId → ℕ → Result MembershipError (Unit {0})
  verify_revocation r issuer_key expected_network now = do
    reject_if (r.network_id != expected_network) subject_mismatch
    reject_if (ltb now r.effective_at) not_yet_valid
    map_err bad_signature (verify c r.signature issuer_key (json r.unsigned))
