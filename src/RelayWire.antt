-- ===== src/RelayWire.antt =====
-- crates/relaywire/src/lib.rs: the frames between a relay and its clients.
use quipnet.Base.{ℕ, Bool, Option, List, Bytes}
use quipnet.Model.{PeerId, NetworkId, ProtocolId, TrafficClass}
use quipnet.Crypto.{PublicIdentityKey}
use quipnet.Identity.{SessionCredential}

pub data RelayRejectCode : Type 0 where
  unauthorized unsupported_traffic_class capacity_exceeded session_exists : RelayRejectCode
  invalid_identity_proof destination_unauthorized destination_protocol_rejected : RelayRejectCode
  invalid_request : RelayRejectCode

pub record RelayOpenRequest : Type 0 where
  pub attempt_id : Bytes
  pub network_id : NetworkId
  pub source : PeerId
  pub source_public_key : PublicIdentityKey
  pub source_credential : SessionCredential
  pub destination : PeerId
  pub protocol : Option ProtocolId
  pub traffic_class : TrafficClass

pub record RelaySessionAccepted : Type 0 where
  pub attempt_id : Bytes
  pub session_id : Bytes
  pub source : PeerId
  pub destination : PeerId
  pub protocol : Option ProtocolId
  pub traffic_class : TrafficClass

pub record RelaySessionRejected : Type 0 where
  pub attempt_id : Bytes
  pub code : RelayRejectCode
  pub source : PeerId
  pub destination : PeerId
  pub protocol : Option ProtocolId
  pub traffic_class : TrafficClass
  pub reason : Bytes

pub data RelayFrame : Type 0 where
  open_session : RelayOpenRequest → RelayFrame
  session_accepted : RelaySessionAccepted → RelayFrame
  session_rejected : RelaySessionRejected → RelayFrame
  payload : Bytes → Bytes → RelayFrame
  health : Bytes → ℕ → ℕ → RelayFrame
  close : Bytes → Bytes → RelayFrame

pub record RelayAnnouncement : Type 0 where
  pub peer_id : PeerId
  pub region : Bytes
  pub advertised_endpoints : List Bytes
  pub control_endpoint : Bytes
  pub max_bandwidth_bps : ℕ
  pub supports_quic_datagrams : Bool
  pub supports_path_migration : Bool
  pub traffic_classes : List Bytes

pub record RelayMap : Type 0 where
  pub version : ℕ
  pub generated_at : ℕ
  pub relays : List RelayAnnouncement
