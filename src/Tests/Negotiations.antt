-- ===== src/Tests/Negotiations.antt =====
-- A negotiation of one protocol.
use quipnet.Base.{ok, [], ◌∷◌, text, List, ℕ, bytes_discrete}
use quipnet.Base.Maps.{get, insert}
use quipnet.Protocol.{
  ProtocolDescriptor, ProtocolRegistry, NegotiatedProtocol, register, negotiate, negotiate_offer,
  maximum,
}
use quipnet.Protocol.Negotiation.{SettlesAll, negotiate-SettlesAll}

abbrev descriptor : List ℕ → ProtocolDescriptor
descriptor versions = record {
  id = text "/quip/control/1";
  compatible_versions = versions;
  required_features = [];
  optional_features = text "compress" ∷ [];
}

abbrev registry : ProtocolRegistry
registry = register (descriptor (1 ∷ 2 ∷ 3 ∷ [])) []

abbrev agreement : NegotiatedProtocol
agreement = record {
  id = text "/quip/control/1";
  version = 2;
  enabled_features = text "compress" ∷ [];
}

negotiate-SettlesAll_example :
    SettlesAll registry (descriptor (1 ∷ 2 ∷ 4 ∷ []) ∷ []) (ok (agreement ∷ []))
unfolding negotiate negotiate_offer register insert get maximum bytes_discrete
negotiate-SettlesAll_example = negotiate-SettlesAll registry (descriptor (1 ∷ 2 ∷ 4 ∷ []) ∷ [])
