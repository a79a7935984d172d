-- ===== src/Records.antt =====
-- crates/records/src/lib.rs: signed records.
pub mod Signing
use quipnet.Base.{ℕ, Option, Bytes, Result, ok, err, ◌>>◌, reject_if, map_err, ◌!=◌, bytes_eq}
use quipnet.Model.{PeerId, NetworkId, RecordNamespace}
use quipnet.Crypto.{
  Primitives, IdentityKeypair, PublicIdentityKey, SignatureBytes, peer_id, sign, hash_bytes, verify,
}

pub data RecordError : Type 0 where
  invalid_signature payload_hash_mismatch : RecordError

pub record UnsignedRecord : Type 0 where
  pub network_id : NetworkId
  pub namespace : RecordNamespace
  pub record_type : Bytes
  pub schema_version : ℕ
  pub author_peer_id : PeerId
  pub sequence : ℕ
  pub issued_at : ℕ
  pub expires_at : ℕ
  pub previous_hash : Option Bytes
  pub payload_hash : Bytes
  pub payload : Bytes

pub record SignedRecord : Type 0 where
  pub unsigned : UnsignedRecord
  pub open unsigned use *
  pub signature : SignatureBytes

module _ (c : Primitives) (json : UnsignedRecord → Bytes) where
  -- `SignedRecord::sign`.
  unfoldable pub sign_record :
      NetworkId
      → RecordNamespace
      → Bytes
      → ℕ
      → IdentityKeypair
      → ℕ
      → ℕ
      → ℕ
      → Option Bytes
      → Bytes
      → SignedRecord
  sign_record network_id namespace record_type schema_version author sequence issued_at expires_at
        previous_hash payload =
      let unsigned : UnsignedRecord = record {
        network_id = network_id;
        namespace = namespace;
        record_type = record_type;
        schema_version = schema_version;
        author_peer_id = peer_id c author;
        sequence = sequence;
        issued_at = issued_at;
        expires_at = expires_at;
        previous_hash = previous_hash;
        payload_hash = hash_bytes c payload;
        payload = payload;
      } in
      record { unsigned = unsigned; signature = sign c author (json unsigned) }

  -- `SignedRecord::verify`.
  unfoldable pub verify_record : SignedRecord → PublicIdentityKey → Result RecordError (Unit {0})
  verify_record r key = do
    reject_if (hash_bytes c r.payload != r.payload_hash) payload_hash_mismatch
    map_err (λ _. invalid_signature) (verify c r.signature key (json r.unsigned))
