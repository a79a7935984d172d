-- ===== src/Relay/Registry.antt =====
-- The process-wide registry of relays in crates/relay/src/lib.rs, and the resolution of in-process
-- endpoints. The text of a parse error is a parameter.
use quipnet.Base.{ℕ, Option, none, some, [], ◌∷◌, ◌++◌, Bytes, text, Result, ok, err}
use quipnet.Base.Maps.{Map, get, insert, update}
use quipnet.Model.{PeerId, TypeError}
use quipnet.PeerText.{strip_prefix, from_str}
use quipnet.Crypto.{Primitives}
use quipnet.Identity.{SessionCredentialUnsigned}
use quipnet.RelayWire
use quipnet.RelayWire.{
  RelayOpenRequest, RelaySessionAccepted, RelaySessionRejected, RelayRejectCode,
}
use quipnet.Relay.Runtime.{
  RelayError, RelaySession, session, session_count, unauthorized, session_exists, capacity_exceeded,
  unsupported_traffic_class, invalid_identity_proof, destination_protocol_rejected,
  destination_unauthorized, unavailable, control_transport,
}
use quipnet.Relay.Service.{
  RelayService, Outcome, returned, panicked, open_relay_session, close_relay_session,
}

abbrev pub Registry : Type 0
Registry = Map RelayService

unfoldable pub register_relay : RelayService → Registry → Registry
register_relay s g = insert s.node.announcement.peer_id s g

abbrev error_for : RelayRejectCode → RelaySessionRejected → RelayError
error_for RelayWire.RelayRejectCode.session_exists r = session_exists
error_for RelayWire.RelayRejectCode.capacity_exceeded r = capacity_exceeded r.source
error_for RelayWire.RelayRejectCode.unsupported_traffic_class r =
    unsupported_traffic_class r.traffic_class
error_for RelayWire.RelayRejectCode.invalid_identity_proof r = invalid_identity_proof r.reason
error_for RelayWire.RelayRejectCode.destination_protocol_rejected r =
    destination_protocol_rejected r.destination
error_for RelayWire.RelayRejectCode.destination_unauthorized r =
    destination_unauthorized r.destination
error_for RelayWire.RelayRejectCode.invalid_request r = unauthorized
error_for RelayWire.RelayRejectCode.unauthorized r = unauthorized

unfoldable pub map_rejected_to_error : RelaySessionRejected → RelayError
map_rejected_to_error r = error_for r.code r

unfoldable pub single_registered_relay_peer : Registry → Option PeerId
single_registered_relay_peer ((p, _) ∷ []) = some p
single_registered_relay_peer _ = none

unfoldable pub registered_session : Registry → PeerId → Bytes → Option RelaySession
registered_session g p id = elim (get p g) [ none ↦ none | some s ↦ session s.runtime id ]

unfoldable pub registered_session_count : Registry → PeerId → Option ℕ
registered_session_count g p = elim (get p g) [
  | none ↦ none
  | some s ↦ some (session_count s.runtime)
]

unfoldable pub close_registered_session :
    Registry → PeerId → Bytes → Bytes → Registry × Result RelayError (Unit {0})
close_registered_session g p id reason = elim (get p g) [
  | none ↦ (g, err (unavailable p))
  | some s ↦ let (t, answer) = close_relay_session s id reason in (update p (λ _. t) g, answer)
]

-- The service that the registry holds for a relay after an answer.
abbrev pub kept_service :
    Registry
    → PeerId
    → Outcome (RelayService × Result RelaySessionRejected RelaySessionAccepted)
    → Outcome (Registry × Result RelayError RelaySessionAccepted)
kept_service g p panicked = panicked
kept_service g p (returned (t, err r)) =
    returned (update p (λ _. t) g, err (map_rejected_to_error r))
kept_service g p (returned (t, ok a)) = returned (update p (λ _. t) g, ok a)

module _ (c : Primitives) (parse_text : TypeError → Bytes) where
  unfoldable pub resolve_inproc_relay_peer : Registry → Bytes → Result RelayError PeerId
  resolve_inproc_relay_peer g endpoint = elim (strip_prefix (text "inproc://") endpoint) [
    | some value ↦ elim (from_str c value) [
      | ok p ↦ ok p
      | err e ↦ err (control_transport (text "invalid inproc relay peer: " ++ parse_text e))
    ]
    | none ↦ elim (single_registered_relay_peer g) [
      | some p ↦ ok p
      | none ↦ err (control_transport (text "missing inproc relay peer"))
    ]
  ]

module _ (c : Primitives) (json : SessionCredentialUnsigned → Bytes) where
  -- At the time `now`, with the session id that the service would draw.
  unfoldable pub open_registered_session :
      ℕ
      → Registry
      → PeerId
      → RelayOpenRequest
      → Bytes
      → Outcome (Registry × Result RelayError RelaySessionAccepted)
  open_registered_session now g p q id = elim (get p g) [
    | none ↦ returned (g, err (unavailable p))
    | some s ↦ kept_service g p (open_relay_session c json now s q id)
  ]
