-- ===== src/Protocol.antt =====
-- crates/protocol/src/lib.rs: the registry of protocols and the negotiation with a peer's offers. A
-- `BTreeSet` is the list of its elements in order.
pub mod Negotiation
use quipnet.Base.{
  ℕ, Option, none, some, List, [], ◌∷◌, Bytes, Result, ok, err, ◌==◌, any, keep, max, nat_eq,
  bytes_eq, ◌>>=◌, ok_or,
}
use quipnet.Base.Maps.{Map, get, insert}
use quipnet.Model.{ProtocolId}

pub data ProtocolError : Type 0 where
  unregistered no_compatible_version : Bytes → ProtocolError

pub record ProtocolDescriptor : Type 0 where
  pub id : ProtocolId
  pub compatible_versions : List ℕ
  pub required_features : List Bytes
  pub optional_features : List Bytes

pub record NegotiatedProtocol : Type 0 where
  pub id : ProtocolId
  pub version : ℕ
  pub enabled_features : List Bytes

-- `ProtocolRegistry`: the descriptors by the text of their id.
abbrev pub ProtocolRegistry : Type 0
ProtocolRegistry = Map ProtocolDescriptor

unfoldable pub register : ProtocolDescriptor → ProtocolRegistry → ProtocolRegistry
register d protocols = insert d.id d protocols

abbrev pub common_versions : ProtocolDescriptor → ProtocolDescriptor → List ℕ
common_versions local offer =
    keep (λ v. any (λ w. w == v) offer.compatible_versions) local.compatible_versions

abbrev pub common_features : ProtocolDescriptor → ProtocolDescriptor → List Bytes
common_features local offer =
    keep (λ f. any (λ g. g == f) offer.optional_features) local.optional_features

-- `Iterator::max`.
unfoldable pub maximum : List ℕ → Option ℕ
maximum [] = none
maximum (n ∷ ns) = elim (maximum ns) [ none ↦ some n | some m ↦ some (max n m) ]

-- The body of the loop for one offer.
unfoldable pub negotiate_offer :
    ProtocolRegistry → ProtocolDescriptor → Result ProtocolError NegotiatedProtocol
negotiate_offer protocols offer = elim (get offer.id protocols) [
  | none ↦ err (unregistered offer.id)
  | some local ↦ elim (maximum (common_versions local offer)) [
    | none ↦ err (no_compatible_version offer.id)
    | some version ↦ ok (record {
      id = offer.id;
      version = version;
      enabled_features = common_features local offer;
    })
  ]
]

unfoldable pub negotiate :
    ProtocolRegistry → List ProtocolDescriptor → Result ProtocolError (List NegotiatedProtocol)
negotiate protocols [] = ok []
negotiate protocols (offer ∷ offers) = elim (negotiate_offer protocols offer) [
  | err e ↦ err e
  | ok n ↦ elim (negotiate protocols offers) [ err e ↦ err e | ok ns ↦ ok (n ∷ ns) ]
]
