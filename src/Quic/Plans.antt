-- ===== src/Quic/Plans.antt =====
-- Session snapshots for routes in crates/quic/src/lib.rs: direct, or through a relay that is asked
-- for a session first.
use quipnet.Base.{
  ℕ, ◌&&◌, Option, none, some, List, [], ◌∷◌, ◌++◌, take, Bytes, text, ◌!=◌, Result, ok, err, ◌>>=◌,
  ◌>>◌, reject_if, ok_or, first, bytes_eq,
}
use quipnet.Model.{ProtocolId}
use quipnet.Crypto.{Primitives, IdentityKeypair, peer_id, public_key, hash_bytes}
use quipnet.PeerText.{to_text}
use quipnet.Identity.{SessionCredentialUnsigned, issue_credential}
use quipnet.RelayWire.{RelayOpenRequest, RelaySessionAccepted}
use quipnet.Relay.{RelayError, RelaySession, error_text}
use quipnet.Transport.{
  TransportError, no_route, invalid_route, relay_rejected, RelayPlan, RoutePlan, SessionSnapshot,
  active,
}
use quipnet.Quic.State.{Adapter, class_label}

-- The trait `RelayControl`, for relays in a state of type `W`.
pub record RelayControl (W : Type 0) : Type 0 where
  pub open_at : W → Bytes → RelayOpenRequest → W × Result RelayError RelaySessionAccepted
  pub close_at : W → Bytes → Bytes → Bytes → W × Result RelayError (Unit {0})
  pub session_at : W → Bytes → Bytes → W × Result RelayError (Option RelaySession)

-- What one call takes from the clock and from the random generator.
pub record Draw : Type 0 where
  pub now : ℕ
  pub nonce : Bytes
  pub session_public_key : Bytes
  pub attempt_id : Bytes

abbrev opt_bytes : Option Bytes → Bytes
opt_bytes none = []
opt_bytes (some b) = b

abbrev or_first : Option Bytes → Option Bytes → Option Bytes
or_first none b = b
or_first (some a) b = some a

abbrev or_default : Option Bytes → Bytes → Bytes
or_default none b = b
or_default (some a) b = a

abbrev offered : Option ProtocolId → List Bytes
offered none = text "/quip/relay/1" ∷ []
offered (some p) = p ∷ []

module _ (c : Primitives) where
  -- The hash of the parts one after the other; `hasher.update` of each in turn.
  unfoldable pub logical_session_id : Bytes → RoutePlan → Bytes
  logical_session_id instance_id route = take 16 (
      hash_bytes c (
        instance_id
        ++ (route.local_peer
            ++ (route.peer ++ (class_label route.class ++ opt_bytes route.protocol)))))

  unfoldable pub local_identity_for :
      Adapter → RoutePlan → Bytes → Result TransportError IdentityKeypair
  local_identity_for a route missing = do
    identity ← ok_or a.local_identity (invalid_route missing)
    reject_if (peer_id c identity != route.local_peer)
        (invalid_route (text "local identity peer does not match route local peer"))
    ok identity

  unfoldable pub direct_session_snapshot :
      Draw → Adapter → RoutePlan → Result TransportError SessionSnapshot
  unfolding local_identity_for
  direct_session_snapshot d a route = do
    _ ← local_identity_for a route (text "direct route requires local identity")
    remote_endpoint ← ok_or (first route.remote_endpoints) (no_route route.peer)
    let session_id = logical_session_id a.runtime_instance_id route
    ok (record {
      session_id = session_id;
      transport_session_id = session_id;
      relay_attempt_id = none;
      peer = route.peer;
      protocol = route.protocol;
      class = route.class;
      path_kind = route.path_kind;
      source = route.source;
      remote_endpoint = remote_endpoint;
      relay_peer = none;
      relay_endpoint = none;
      relay_control_endpoint = none;
      datagrams_capable = a.supports_datagrams;
      migration_capable = a.supports_path_migration;
      state = active;
      closure_reason = none;
      state_reason = none;
      created_at_unix_secs = d.now;
      last_activity_unix_secs = d.now;
    })

  -- What `relay_session_snapshot` settles before it asks the relay: the relay's endpoint and the
  -- request.
  unfoldable pub relay_request :
      (SessionCredentialUnsigned → Bytes)
      → Draw
      → Adapter
      → RoutePlan
      → RelayPlan
      → Result TransportError (Bytes × RelayOpenRequest)
  unfolding local_identity_for
  relay_request json d a route plan = do
    network_id ← ok_or a.network_id (invalid_route (text "relay route requires network identity"))
    identity ← local_identity_for a route (text "relay route requires local identity")
    relay_endpoint ←
        ok_or (first plan.relay_endpoints)
          (invalid_route (text "relay route has no relay endpoints"))
    ok (
      relay_endpoint,
      record {
        attempt_id = d.attempt_id;
        network_id = network_id;
        source = route.local_peer;
        source_public_key = public_key c identity;
        source_credential =
            issue_credential c json d.now d.nonce network_id identity d.session_public_key
              (offered route.protocol) 300 1;
        destination = route.peer;
        protocol = route.protocol;
        traffic_class = route.class;
      },
    )

  -- The snapshot after the relay accepted.
  unfoldable pub relayed_snapshot_of :
      Draw → Adapter → RoutePlan → RelayPlan → Bytes → RelaySessionAccepted → SessionSnapshot
  relayed_snapshot_of d a route plan relay_endpoint accepted = record {
    session_id = logical_session_id a.runtime_instance_id route;
    transport_session_id = accepted.session_id;
    relay_attempt_id = some accepted.attempt_id;
    peer = route.peer;
    protocol = route.protocol;
    class = route.class;
    path_kind = route.path_kind;
    source = route.source;
    remote_endpoint =
        or_default (or_first (first plan.destination_endpoints) (first route.remote_endpoints))
          (to_text c route.peer);
    relay_peer = some plan.relay_peer;
    relay_endpoint = some relay_endpoint;
    relay_control_endpoint = some plan.relay_control_endpoint;
    datagrams_capable = a.supports_datagrams && plan.supports_datagrams;
    migration_capable = a.supports_path_migration && plan.supports_path_migration;
    state = active;
    closure_reason = none;
    state_reason = none;
    created_at_unix_secs = d.now;
    last_activity_unix_secs = d.now;
  }

  module _ (json : SessionCredentialUnsigned → Bytes) {W : Type 0} (relays : RelayControl W) where
    unfoldable pub relay_session_snapshot :
        Draw → W → Adapter → RoutePlan → RelayPlan → W × Result TransportError SessionSnapshot
    relay_session_snapshot d w a route plan = elim (relay_request json d a route plan) [
      | err e ↦ (w, err e)
      | ok (relay_endpoint, request) ↦
          let (v, answer) = relays.open_at w plan.relay_control_endpoint request in
          (
            v,
            elim answer [
              | err e ↦ err (relay_rejected (error_text c e))
              | ok accepted ↦ ok (relayed_snapshot_of d a route plan relay_endpoint accepted)
            ],
          )
    ]

    unfoldable pub session_snapshot_for_route :
        Draw → W → Adapter → RoutePlan → W × Result TransportError SessionSnapshot
    session_snapshot_for_route d w a route = elim route.relay [
      | some plan ↦ relay_session_snapshot d w a route plan
      | none ↦ (w, direct_session_snapshot d a route)
    ]
