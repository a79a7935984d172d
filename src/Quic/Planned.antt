-- ===== src/Quic/Planned.antt =====
-- The snapshots that `session_snapshot_for_route` of crates/quic/src/lib.rs makes, against the route.
use quipnet.Base.{
  ◌≡◌, refl, inl, inr, none, some, Bytes, text, ok, arith, first, Option-cases, Result-cases,
  bytes_eq, subst,
}
use quipnet.Crypto.{Primitives}
use quipnet.Identity.{SessionCredentialUnsigned}
use quipnet.RelayWire.{RelayOpenRequest}
use quipnet.Transport.{SessionSnapshot, RelayPlan, RoutePlan, active}
use quipnet.Quic.State.{Adapter}
use quipnet.Quic.Plans.{
  RelayControl, Draw, session_snapshot_for_route, direct_session_snapshot, relay_session_snapshot,
  relay_request, relayed_snapshot_of, local_identity_for,
}

-- How the session reaches its peer: at the first endpoint of the route, or through its relay.
pub data Carried (route : RoutePlan) (m : SessionSnapshot) : Type 0 where
  directly :
      route.relay ≡ none
      → first route.remote_endpoints ≡ some m.remote_endpoint
      → m.relay_peer ≡ none
      → m.relay_control_endpoint ≡ none
      → Carried route m
  by_relay :
      (plan : RelayPlan)
      → route.relay ≡ some plan
      → m.relay_peer ≡ some plan.relay_peer
      → first plan.relay_endpoints ≡ m.relay_endpoint
      → m.relay_control_endpoint ≡ some plan.relay_control_endpoint
      → Carried route m

-- A session that is on the route.
pub record Follows (route : RoutePlan) (m : SessionSnapshot) : Type 0 where
  pub peer : m.peer ≡ route.peer
  pub protocol : m.protocol ≡ route.protocol
  pub class : m.class ≡ route.class
  pub path_kind : m.path_kind ≡ route.path_kind
  pub source : m.source ≡ route.source
  pub state : m.state ≡ active
  pub carried : Carried route m

module _ (c : Primitives) where
  direct-Follows :
      (d : Draw) (a : Adapter) (route : RoutePlan) (m : SessionSnapshot)
      → route.relay ≡ none
      → direct_session_snapshot c d a route ≡ ok m
      → Follows route m
  unfolding direct_session_snapshot
  direct-Follows d a route m n h =
      elim (Result-cases
        (local_identity_for c a route (text "direct route requires local identity"))) [
          | inr (e, f) ↦ ground (arith, f)
          | inl (i, f) ↦ elim (Option-cases (first route.remote_endpoints)) [
            | inl g ↦ ground (arith, f, g)
            | inr (endpoint, g) ↦ record {
              peer = ground (arith, f, g);
              protocol = ground (arith, f, g);
              class = ground (arith, f, g);
              path_kind = ground (arith, f, g);
              source = ground (arith, f, g);
              state = ground (arith, f, g);
              carried =
                  directly n (ground (arith, f, g)) (ground (arith, f, g)) (ground (arith, f, g));
            }
          ]
        ]

  module _ (json : SessionCredentialUnsigned → Bytes) {W : Type 0} (relays : RelayControl W) where
    request_endpoint :
        (d : Draw) (a : Adapter) (route : RoutePlan) (plan : RelayPlan) (endpoint : Bytes)
        (request : RelayOpenRequest)
        → relay_request c json d a route plan ≡ ok (endpoint, request)
        → first plan.relay_endpoints ≡ some endpoint
    unfolding relay_request
    request_endpoint d a route plan endpoint request h = elim (Option-cases a.network_id) [
      | inl e ↦ ground (arith, e)
      | inr (network, e) ↦
          elim (Result-cases
            (local_identity_for c a route (text "relay route requires local identity"))) [
              | inr (x, f) ↦ ground (arith, e, f)
              | inl (i, f) ↦ elim (Option-cases (first plan.relay_endpoints)) [
                | inl g ↦ ground (arith, e, f, g)
                | inr (p, g) ↦ ground (arith, e, f, g)
              ]
            ]
    ]

    relay-Follows :
        (d : Draw) (w : W) (a : Adapter) (route : RoutePlan) (plan : RelayPlan)
        (m : SessionSnapshot)
        → route.relay ≡ some plan
        → (relay_session_snapshot c json relays d w a route plan).1 ≡ ok m
        → Follows route m
    unfolding relay_session_snapshot relayed_snapshot_of
    relay-Follows d w a route plan m n h =
        elim (Result-cases (relay_request c json d a route plan)) [
          | inr (e, f) ↦ ground (arith, f)
          | inl ((endpoint, request), f) ↦
              elim (Result-cases (relays.open_at w plan.relay_control_endpoint request).1) [
                | inr (e, g) ↦ ground (arith, f, g)
                | inl (accepted, g) ↦
                    let made : relayed_snapshot_of c d a route plan endpoint accepted ≡ m =
                      ground (arith, f, g) in
                    subst (Follows route) made (record {
                      peer = refl;
                      protocol = refl;
                      class = refl;
                      path_kind = refl;
                      source = refl;
                      state = refl;
                      carried =
                          by_relay plan n refl (request_endpoint d a route plan endpoint request f)
                            refl;
                    })
              ]
        ]

    pub made-Follows :
        (d : Draw) (w : W) (a : Adapter) (route : RoutePlan) (m : SessionSnapshot)
        → (session_snapshot_for_route c json relays d w a route).1 ≡ ok m
        → Follows route m
    unfolding session_snapshot_for_route
    made-Follows d w a route m h = elim (Option-cases route.relay) [
      | inl n ↦ direct-Follows d a route m n (ground (arith, n))
      | inr (plan, n) ↦ relay-Follows d w a route plan m n (ground (arith, n))
    ]
