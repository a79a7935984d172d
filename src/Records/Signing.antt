-- ===== src/Records/Signing.antt =====
-- Signed records verify, and a changed payload is told by its hash.
use quipnet.Base.{ℕ, ◌≡◌, ◌≢◌, Option, Bytes, ok, err, arith, bytes_eq}
use quipnet.Model.{NetworkId, RecordNamespace}
use quipnet.Crypto.{Primitives, IsGenuine, IdentityKeypair, public_key, hash_bytes, verify-sign}
use quipnet.Records.{
  UnsignedRecord, SignedRecord, payload_hash_mismatch, sign_record, verify_record,
}

-- `r` with another payload and every other field kept, the signature too.
abbrev pub with_payload : SignedRecord → Bytes → SignedRecord
with_payload r payload = record r { unsigned = record (r.unsigned) { payload = payload } }

module _ (c : Primitives) (json : UnsignedRecord → Bytes) where
  -- A record that an author signs verifies under the author's key. With its payload replaced by one
  -- of another hash, and all else kept, verification answers that the hash does not match.
  pub verify_record-sign_record :
      (network : NetworkId) (namespace : RecordNamespace) (record_type : Bytes) (schema_version : ℕ)
      (author : IdentityKeypair) (sequence issued_at expires_at : ℕ) (previous : Option Bytes)
      (payload other : Bytes)
      → IsGenuine c
      → hash_bytes c other ≢ hash_bytes c payload
      → let r =
          sign_record c json network namespace record_type schema_version author sequence issued_at
            expires_at previous payload in
        (verify_record c json r (public_key c author) ≡ ok tt)
        × (verify_record c json (with_payload r other) (public_key c author)
            ≡ err payload_hash_mismatch)
  unfolding verify_record sign_record
  verify_record-sign_record network namespace record_type schema_version author sequence issued_at
        expires_at previous payload other g h =
      (simp (verify-sign, g) (ground arith), ground arith)
