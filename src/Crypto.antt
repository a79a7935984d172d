-- ===== src/Crypto.antt =====
-- crates/crypto/src/lib.rs and `PeerId::from_public_key` of crates/model/src/lib.rs.
-- The crates ed25519-dalek, blake3, unsigned-varint and data-encoding are the functions of
-- `Primitives`; the documented behaviour that some theorems use is `IsGenuine` and `IsBase32`.
use quipnet.Base.{
  ℕ, ◌≡◌, Bool, true, false, Option, some, ◌++◌, Bytes, text, ◌==◌, nat_eq, ◌<◌, Result, ok, err,
  All, leb, ◌&&◌, ◌||◌, if◌then◌else◌, length, arith,
}
use quipnet.Model.{KeyAlgorithm, ed25519, codec, PeerId, NetworkId}

pub record Primitives : Type 0 where
  -- `SigningKey::verifying_key`, on the secret bytes.
  pub verifying_key : Bytes → Bytes
  -- `SigningKey::sign`.
  pub sign_bytes : Bytes → Bytes → Bytes
  -- `VerifyingKey::from_bytes` accepts the key.
  pub is_key : Bytes → Bool
  -- `Verifier::verify` of a key, a payload and a signature.
  pub verifies : Bytes → Bytes → Bytes → Bool
  pub blake3 : Bytes → Bytes
  pub varint_u64 : ℕ → Bytes
  -- `BASE32_NOPAD.encode` and `.decode`.
  pub base32 : Bytes → Bytes
  pub base32_decode : Bytes → Option Bytes

-- What the crates document: key and signature sizes, and that a signature verifies.
pub record IsGenuine (c : Primitives) : Type 0 where
  pub key_size : (s : Bytes) → length (c.verifying_key s) ≡ 32
  pub key_valid : (s : Bytes) → c.is_key (c.verifying_key s) ≡ true
  pub signature_size : (s m : Bytes) → length (c.sign_bytes s m) ≡ 64
  pub verify_sign : (s m : Bytes) → c.verifies (c.verifying_key s) m (c.sign_bytes s m) ≡ true

-- The alphabet of RFC 4648.
abbrev pub is_base32 : ℕ → Bool
is_base32 n = (leb b'A' n && leb n b'Z') || (leb b'2' n && leb n b'7')

-- What data-encoding documents: the alphabet, and that decoding inverts encoding.
pub record IsBase32 (c : Primitives) : Type 0 where
  pub alphabet : (b : Bytes) → All (λ n. is_base32 n ≡ true) (c.base32 b)
  pub decode_encode : (b : Bytes) → All (λ n. n < 256) b → c.base32_decode (c.base32 b) ≡ some b

pub data CryptoError : Type 0 where
  invalid_signature invalid_public_key invalid_key_material key_derivation_failed : CryptoError

pub record PublicIdentityKey : Type 0 where
  pub algorithm : KeyAlgorithm
  pub bytes : Bytes

pub record IdentityKeypair : Type 0 where
  pub signing_key : Bytes

abbrev pub SignatureBytes : Type 0
SignatureBytes = Bytes

module _ (c : Primitives) where
  -- blake3 as a multihash: code, size, digest.
  unfoldable pub encode_multihash : Bytes → Bytes
  encode_multihash payload =
      let digest = c.blake3 payload in c.varint_u64 0x1E ++ (c.varint_u64 (length digest) ++ digest)

  unfoldable pub from_public_key : KeyAlgorithm → Bytes → PeerId
  from_public_key algorithm public_key =
      c.varint_u64 (codec algorithm) ++ encode_multihash public_key

  unfoldable pub key_peer_id : PublicIdentityKey → PeerId
  key_peer_id k = from_public_key k.algorithm k.bytes

  unfoldable pub public_key : IdentityKeypair → PublicIdentityKey
  public_key k = record { algorithm = ed25519; bytes = c.verifying_key k.signing_key }

  unfoldable pub peer_id : IdentityKeypair → PeerId
  peer_id k = key_peer_id (public_key k)

  unfoldable pub sign : IdentityKeypair → Bytes → SignatureBytes
  sign k payload = c.sign_bytes k.signing_key payload

  unfoldable pub hash_bytes : Bytes → Bytes
  hash_bytes = c.blake3

  -- `NetworkId::derive`.
  unfoldable pub derive : Bytes → NetworkId
  derive scope = c.blake3 (text "quip:network-id:v1" ++ scope)

  -- `as_verifying_key`: 32 bytes that form a key.
  unfoldable pub is_verifying_key : PublicIdentityKey → Bool
  is_verifying_key k = if length k.bytes == 32 then c.is_key k.bytes else false

  -- `SignatureBytes::verify`: the size of the signature, then the key, then the signature.
  unfoldable pub verify : SignatureBytes → PublicIdentityKey → Bytes → Result CryptoError (Unit {0})
  unfolding is_verifying_key
  verify s k payload =
      if length s == 64
      then if is_verifying_key k
        then if c.verifies k.bytes payload s then ok tt else err invalid_signature
        else err invalid_public_key
      else err invalid_signature

  -- What a key pair signs, its public key verifies.
  pub verify-sign :
      (k : IdentityKeypair) (payload : Bytes)
      → IsGenuine c
      → verify (sign k payload) (public_key k) payload ≡ ok tt
  unfolding verify sign public_key
  verify-sign k payload g = ground (
    arith,
    g.key_size k.signing_key,
    g.key_valid k.signing_key,
    g.signature_size k.signing_key payload,
    g.verify_sign k.signing_key payload,
  )
