-- ===== src/Relay/Admission.antt =====
-- What crates/relay/src/lib.rs checks before it opens a session: the identity proof, the traffic
-- class, the destination. Error texts are the bytes of their `Display`.
use quipnet.Base.{
  ℕ, Bool, true, Option, none, some, List, ◌++◌, Bytes, text, ◌==◌, ◌!=◌, Result, ◌>>=◌, ◌>>◌,
  reject_if, map_err, ok_or, any, find, ltb, not, bytes_eq,
}
use quipnet.Model.{PeerId, ProtocolId, TrafficClass, control, interactive, bulk, background}
use quipnet.PeerText.{to_text}
use quipnet.Crypto.{Primitives, PublicIdentityKey, key_peer_id}
use quipnet.Identity.{
  SessionCredentialUnsigned, IdentityError, io, serialization, invalid_keystore, key_derivation,
  verify_credential,
}
use quipnet.RelayWire.{RelayOpenRequest, RelayAnnouncement}
use quipnet.Relay.Runtime.{
  RelayError, unauthorized, session_exists, session_not_found, invalid_identity_proof,
  control_transport, control_decode, destination_unauthorized, destination_protocol_rejected,
  unavailable, unsupported_traffic_class, capacity_exceeded,
}

pub record RelayQuota : Type 0 where
  pub peer : PeerId
  pub max_bandwidth_bps : ℕ
  pub max_concurrent_sessions : ℕ

pub record RelayDestination : Type 0 where
  pub peer : PeerId
  pub protocols : List ProtocolId

pub record RelayNode : Type 0 where
  pub announcement : RelayAnnouncement
  pub quotas : List RelayQuota
  pub destinations : List RelayDestination

-- `{:?}` of a class.
abbrev pub class_debug : TrafficClass → Bytes
class_debug control = text "Control"
class_debug interactive = text "Interactive"
class_debug bulk = text "Bulk"
class_debug background = text "Background"

-- The name under which a relay announces a class.
abbrev pub class_name : TrafficClass → Bytes
class_name control = text "NetworkControl"
class_name interactive = text "InteractiveRpc"
class_name bulk = text "BulkTransfer"
class_name background = text "Background"

unfoldable pub supports_traffic_class : List Bytes → TrafficClass → Bool
supports_traffic_class values class = any (λ v. v == class_name class) values

-- Of the errors of `SessionCredential::verify`; those of files and JSON carry a text of their crate.
abbrev identity_error_text : IdentityError → Bytes
identity_error_text io = text "io error"
identity_error_text serialization = text "serialization error"
identity_error_text invalid_keystore = text "invalid keystore passphrase or ciphertext"
identity_error_text key_derivation = text "scrypt key derivation failed"

abbrev identity_error_message : IdentityError → Bytes
identity_error_message e =
    text "source identity proof verification failed: " ++ identity_error_text e

-- The protocol of a request, if it names one, stands in a list.
unfoldable pub covers : Option ProtocolId → List Bytes → Bool
covers none protocols = true
covers (some p) protocols = any (λ v. v == p) protocols

module _ (c : Primitives) where
  -- `Display` of `RelayError`.
  unfoldable pub error_text : RelayError → Bytes
  error_text unauthorized = text "peer is not authorized to use this relay"
  error_text session_exists = text "relay session already exists"
  error_text session_not_found = text "relay session was not found"
  error_text (invalid_identity_proof m) = text "source identity proof is invalid: " ++ m
  error_text (control_transport m) = text "relay control transport failed: " ++ m
  error_text (control_decode m) = text "relay control payload decode failed: " ++ m
  error_text (destination_unauthorized p) =
      text "relay destination " ++ (to_text c p ++ text " is not authorized")
  error_text (destination_protocol_rejected p) =
      text "relay destination " ++ (to_text c p ++ text " does not support requested protocol")
  error_text (unavailable p) = text "relay " ++ (to_text c p ++ text " is unavailable")
  error_text (unsupported_traffic_class k) =
      text "relay path does not support traffic class " ++ class_debug k
  error_text (capacity_exceeded p) = text "relay is at session capacity for peer " ++ to_text c p

  verify_source_key_binding : PublicIdentityKey → PeerId → Result RelayError (Unit {0})
  verify_source_key_binding key source =
      reject_if (key_peer_id c key != source) (
        invalid_identity_proof (text "source identity proof peer id does not match claimed source"))

  module _ (json : SessionCredentialUnsigned → Bytes) (now : ℕ) where
    verify_session_credential : RelayOpenRequest → Result Bytes (Unit {0})
    verify_session_credential q = do
      map_err identity_error_message
          (verify_credential c json q.source_credential q.source_public_key)
      reject_if (q.source_credential.peer_id != q.source)
          (text "source identity proof peer id does not match credential")
      reject_if (q.source_credential.network_id != q.network_id)
          (text "source identity proof network does not match relay network")
      reject_if (ltb q.source_credential.expires_at now) (text "source identity proof is expired")
      reject_if (not (covers q.protocol q.source_credential.protocol_versions))
          (text "source identity proof does not authorize requested protocol")

    unfoldable pub verify_open_request : RelayOpenRequest → Result RelayError (Unit {0})
    unfolding verify_source_key_binding verify_session_credential
    verify_open_request q = do
      verify_source_key_binding q.source_public_key q.source
      map_err invalid_identity_proof (verify_session_credential q)

unfoldable pub authorize_destination :
    List RelayDestination → PeerId → Option ProtocolId → Result RelayError (Unit {0})
authorize_destination destinations destination protocol = do
  entry ←
      ok_or (find (λ d. d.peer == destination) destinations) (destination_unauthorized destination)
  reject_if (not (covers protocol entry.protocols)) (destination_protocol_rejected destination)
