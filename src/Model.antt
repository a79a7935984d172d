-- ===== src/Model.antt =====
-- crates/model/src/lib.rs: identifiers, traffic classes and path kinds. Identifiers are their
-- bytes; the hash and the varint encoder of `PeerId::from_public_key` are those of `Crypto`.
use quipnet.Base.{
  ℕ, ◌||◌, not, some, Bytes, ltb, ◌==◌, if◌then◌else◌, count, first, nat_eq, option_eq, Result, ok,
  err,
}

pub data KeyAlgorithm : Type 0 where
  ed25519 x25519 : KeyAlgorithm

unfoldable pub codec : KeyAlgorithm → ℕ
codec ed25519 = 0xED
codec x25519 = 0xEC

pub data TypeError : Type 0 where
  invalid_peer_id_prefix : TypeError
  invalid_peer_id_encoding : Bytes → TypeError
  invalid_protocol_id : TypeError

abbrev pub PeerId : Type 0
PeerId = Bytes

abbrev pub NetworkId : Type 0
NetworkId = Bytes

abbrev pub ProtocolId : Type 0
ProtocolId = Bytes

abbrev pub RecordNamespace : Type 0
RecordNamespace = Bytes

-- `ProtocolId::new`: a leading '/', and two of them at least.
unfoldable pub protocol_id : Bytes → Result TypeError ProtocolId
protocol_id value =
    if not (first value == some b'/') || ltb (count (λ c. c == b'/') value) 2
    then err invalid_protocol_id
    else ok value

pub data TrafficClass : Type 0 where
  control interactive bulk background : TrafficClass

pub data PathKind : Type 0 where
  direct_udp direct_ipv6 relay loopback lan : PathKind

pub TrafficClass-discrete : Discrete TrafficClass
TrafficClass-discrete = hlevel

pub PathKind-discrete : Discrete PathKind
PathKind-discrete = hlevel
