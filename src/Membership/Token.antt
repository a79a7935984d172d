-- ===== src/Membership/Token.antt =====
-- `EnrollmentToken` of crates/membership/src/lib.rs.
use quipnet.Base.{ℕ, Option, List, Bytes, Result, ◌>>◌, reject_if, map_err, ◌!=◌, bytes_eq, ltb}
use quipnet.Model.{PeerId, NetworkId}
use quipnet.Crypto.{
  Primitives, IdentityKeypair, PublicIdentityKey, SignatureBytes, peer_id, sign, hash_bytes, verify,
}
use quipnet.Membership.Types.{
  MembershipError, expired_artifact, subject_mismatch, artifact_id_mismatch, BootstrapHint,
  bad_signature,
}

pub record UnsignedEnrollmentToken : Type 0 where
  pub network_id : NetworkId
  pub issuer_peer_id : PeerId
  pub issued_at : ℕ
  pub expires_at : ℕ
  pub realm : Bytes
  pub subject_alias : Option Bytes
  pub requested_roles : List Bytes
  pub bootstrap_hints : List BootstrapHint
  pub nonce : Bytes

pub record EnrollmentToken : Type 0 where
  pub token_id : Bytes
  pub unsigned : UnsignedEnrollmentToken
  pub open unsigned use *
  pub signature : SignatureBytes

module _ (c : Primitives) (json : UnsignedEnrollmentToken → Bytes) where
  -- `EnrollmentToken::issue`; the issuer's peer id is put in here.
  unfoldable pub issue_token :
      IdentityKeypair
      → NetworkId
      → ℕ
      → ℕ
      → Bytes
      → Option Bytes
      → List Bytes
      → List BootstrapHint
      → Bytes
      → EnrollmentToken
  issue_token issuer network_id issued_at expires_at realm subject_alias requested_roles hints
        nonce =
      let unsigned : UnsignedEnrollmentToken = record {
        network_id = network_id;
        issuer_peer_id = peer_id c issuer;
        issued_at = issued_at;
        expires_at = expires_at;
        realm = realm;
        subject_alias = subject_alias;
        requested_roles = requested_roles;
        bootstrap_hints = hints;
        nonce = nonce;
      } in
      let canonical = json unsigned in
      record {
        token_id = hash_bytes c canonical;
        unsigned = unsigned;
        signature = sign c issuer canonical;
      }

  -- `EnrollmentToken::verify`.
  unfoldable pub verify_token :
      EnrollmentToken → PublicIdentityKey → NetworkId → ℕ → Result MembershipError (Unit {0})
  verify_token t issuer_key expected_network now = do
    reject_if (t.network_id != expected_network) subject_mismatch
    reject_if (ltb t.expires_at now) expired_artifact
    let canonical = json t.unsigned
    reject_if (hash_bytes c canonical != t.token_id) artifact_id_mismatch
    map_err bad_signature (verify c t.signature issuer_key canonical)
