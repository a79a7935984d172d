-- ===== src/Membership/Grant.antt =====
-- `CapabilityGrant` of crates/membership/src/lib.rs.
use quipnet.Base.{ℕ, List, Bytes, Result, ◌>>◌, reject_if, map_err, ◌!=◌, ◌||◌, bytes_eq, ltb}
use quipnet.Model.{PeerId, NetworkId, ProtocolId}
use quipnet.Crypto.{
  Primitives, IdentityKeypair, PublicIdentityKey, SignatureBytes, peer_id, sign, verify,
}
use quipnet.Membership.Types.{
  MembershipError, expired_artifact, not_yet_valid, subject_mismatch, ResourceLimits, bad_signature,
}

pub record UnsignedCapabilityGrant : Type 0 where
  pub network_id : NetworkId
  pub subject_peer_id : PeerId
  pub issuer_peer_id : PeerId
  pub capabilities : List Bytes
  pub protocol_scopes : List ProtocolId
  pub resource_limits : ResourceLimits
  pub constraints : List Bytes
  pub not_before : ℕ
  pub expires_at : ℕ
  pub sequence : ℕ

pub record CapabilityGrant : Type 0 where
  pub unsigned : UnsignedCapabilityGrant
  pub open unsigned use *
  pub signature : SignatureBytes

module _ (c : Primitives) (json : UnsignedCapabilityGrant → Bytes) where
  -- `CapabilityGrant::issue`.
  unfoldable pub issue_grant :
      IdentityKeypair
      → NetworkId
      → PeerId
      → List Bytes
      → List ProtocolId
      → ResourceLimits
      → List Bytes
      → ℕ
      → ℕ
      → ℕ
      → CapabilityGrant
  issue_grant issuer network_id subject capabilities scopes limits constraints not_before expires_at
        sequence =
      let unsigned : UnsignedCapabilityGrant = record {
        network_id = network_id;
        subject_peer_id = subject;
        issuer_peer_id = peer_id c issuer;
        capabilities = capabilities;
        protocol_scopes = scopes;
        resource_limits = limits;
        constraints = constraints;
        not_before = not_before;
        expires_at = expires_at;
        sequence = sequence;
      } in
      record { unsigned = unsigned; signature = sign c issuer (json unsigned) }

  -- `CapabilityGrant::verify`.
  unfoldable pub verify_grant :
      CapabilityGrant
      → PublicIdentityKey
      → NetworkId
      → PeerId
      → ℕ
      → Result MembershipError (Unit {0})
  verify_grant g issuer_key expected_network expected_subject now = do
    reject_if (g.network_id != expected_network || g.subject_peer_id != expected_subject)
        subject_mismatch
    reject_if (ltb now g.not_before) not_yet_valid
    reject_if (ltb g.expires_at now) expired_artifact
    map_err bad_signature (verify c g.signature issuer_key (json g.unsigned))
