-- ===== src/Identity.antt =====
-- crates/identity/src/lib.rs: session credentials. The clock and the random nonce are arguments;
-- the key file on disk (scrypt, ChaCha20-Poly1305) is not modelled.
use quipnet.Base.{ℕ, ◌+◌, ◌≡◌, List, Bytes, Result, ok, map_err, u64}
use quipnet.Model.{PeerId, NetworkId}
use quipnet.Crypto.{
  Primitives, IsGenuine, IdentityKeypair, PublicIdentityKey, SignatureBytes, peer_id, public_key,
  sign, verify, verify-sign,
}

pub data IdentityError : Type 0 where
  io serialization invalid_keystore key_derivation : IdentityError

pub record SessionCredentialUnsigned : Type 0 where
  pub network_id : NetworkId
  pub peer_id : PeerId
  pub session_public_key : Bytes
  pub issued_at : ℕ
  pub expires_at : ℕ
  pub protocol_versions : List Bytes
  pub key_epoch : ℕ
  pub nonce : Bytes

pub record SessionCredential : Type 0 where
  pub unsigned : SessionCredentialUnsigned
  pub open unsigned use *
  pub identity_signature : SignatureBytes

module _ (c : Primitives) (json : SessionCredentialUnsigned → Bytes) where
  -- `SessionCredential::issue` at the time `now` with the random `nonce`.
  unfoldable pub issue_credential :
      ℕ → Bytes → NetworkId → IdentityKeypair → Bytes → List Bytes → ℕ → ℕ → SessionCredential
  issue_credential now nonce network_id identity session_public_key versions ttl_secs key_epoch =
      let unsigned : SessionCredentialUnsigned = record {
        network_id = network_id;
        peer_id = peer_id c identity;
        session_public_key = session_public_key;
        issued_at = now;
        expires_at = u64 (now + ttl_secs);
        protocol_versions = versions;
        key_epoch = key_epoch;
        nonce = nonce;
      } in
      record { unsigned = unsigned; identity_signature = sign c identity (json unsigned) }

  -- `SessionCredential::verify`: the signature alone, not the times.
  unfoldable pub verify_credential :
      SessionCredential → PublicIdentityKey → Result IdentityError (Unit {0})
  verify_credential s key =
      map_err (λ _. invalid_keystore) (verify c s.identity_signature key (json s.unsigned))

  pub verify_credential-issue_credential :
      (now : ℕ) (nonce : Bytes) (network : NetworkId) (identity : IdentityKeypair)
      (session_key : Bytes) (versions : List Bytes) (ttl epoch : ℕ)
      → IsGenuine c
      → verify_credential
          (issue_credential now nonce network identity session_key versions ttl epoch)
          (public_key c identity)
        ≡ ok tt
  unfolding verify_credential issue_credential
  verify_credential-issue_credential now nonce network identity session_key versions ttl epoch g =
      simp (verify-sign, g)
