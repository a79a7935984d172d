-- ===== src/Fabric/RoutePlans.antt =====
-- What `route_plan` of crates/fabric/src/lib.rs answers, on every branch.
use quipnet.Base.{
  ℕ, Bool, Option, none, some, List, [], ◌∷◌, Bytes, ◌≡◌, ◌≢◌, refl, arith, ◌==◌, bytes_eq, find,
  keep, inl, inr, Bool-cases, Option-cases, Result, ok, err,
}
use quipnet.Model.{PeerId, ProtocolId, TrafficClass, PathKind, relay}
use quipnet.Crypto.{Primitives}
use quipnet.PeerText.{to_text}
use quipnet.RelayWire.{RelayAnnouncement}
use quipnet.PeerStore.{PeerInspection}
use quipnet.Routing.{PathDecision, kind_eq}
use quipnet.Transport.{RoutePlan}
use quipnet.Fabric.State.{
  DaemonState, DaemonStateError, no_route, peer_not_found, daemon_peer, relay_announcements,
}
use quipnet.Fabric.Addresses.{endpoint_matches_path_kind, route_endpoints, route_source}
use quipnet.Fabric.Routes.{best_path, relay_plan, relay_of, relay_part, route_plan}

-- The endpoints of a plan: the addresses that fit the kind of path, or all of them if none fits.
pub data Endpoints (addresses : List Bytes) (kind : PathKind) : List Bytes → Type 0 where
  fitting :
      (fits : List Bytes)
      → fits ≢ []
      → fits ≡ keep (λ a. endpoint_matches_path_kind a kind) addresses
      → Endpoints addresses kind fits
  all :
      keep (λ a. endpoint_matches_path_kind a kind) addresses ≡ []
      → Endpoints addresses kind addresses

pub route_endpoints-Endpoints :
    (addresses : List Bytes) (kind : PathKind)
    → Endpoints addresses kind (route_endpoints addresses kind)
unfolding route_endpoints
route_endpoints-Endpoints addresses kind =
    go (keep (λ a. endpoint_matches_path_kind a kind) addresses) refl
  where
    go :
        (fits : List Bytes)
        → keep (λ a. endpoint_matches_path_kind a kind) addresses ≡ fits
        → Endpoints addresses kind (route_endpoints addresses kind)
    go [] e = rw (e, route_endpoints) (all e)
    go (a ∷ fits) e = rw (e, route_endpoints) (fitting (a ∷ fits) (λ n. cc) (cc))

module _ {F : Type 0} (scaled : F → ℕ → ℕ) (at_least_one : F → Bool) (c : Primitives)
    (s : DaemonState F) (peer : PeerId) (protocol : Option ProtocolId) (class : TrafficClass) where
  -- The plan follows the candidate, for a peer with the given addresses and given endpoints.
  pub record Follows (d : PathDecision F) (i : PeerInspection) (r : RoutePlan) : Type 0 where
    pub local : r.local_peer ≡ s.local_peer_id
    pub target : r.peer ≡ peer
    pub purpose : (r.protocol ≡ protocol) × (r.class ≡ class)
    pub kind : r.path_kind ≡ d.selected.path_kind
    pub origin : r.source ≡ route_source d.selected.source
    pub endpoints : Endpoints i.snapshot.addresses d.selected.path_kind r.remote_endpoints

  -- What the plan for the peer has to be.
  pub data Planned : Result DaemonStateError RoutePlan → Type 0 where
    without_candidate :
        best_path scaled at_least_one s peer class ≡ none → Planned (err (no_route peer))
    unknown_peer :
        (d : PathDecision F)
        → best_path scaled at_least_one s peer class ≡ some d
        → daemon_peer s peer ≡ none
        → Planned (err (peer_not_found (to_text c peer)))
    without_relay :
        (d : PathDecision F)
        → best_path scaled at_least_one s peer class ≡ some d
        → d.selected.path_kind ≡ relay
        → ((q : PeerId)
            → d.selected.relay_peer ≡ some q
            → find (λ r. r.peer_id == q) (relay_announcements s) ≡ none)
        → Planned (err (no_route peer))
    direct :
        (d : PathDecision F) (i : PeerInspection) (r : RoutePlan)
        → best_path scaled at_least_one s peer class ≡ some d
        → daemon_peer s peer ≡ some i
        → d.selected.path_kind ≢ relay
        → r.relay ≡ none
        → Follows d i r
        → Planned (ok r)
    relayed :
        (d : PathDecision F) (i : PeerInspection) (r : RoutePlan) (q : PeerId)
        (a : RelayAnnouncement)
        → best_path scaled at_least_one s peer class ≡ some d
        → daemon_peer s peer ≡ some i
        → d.selected.path_kind ≡ relay
        → d.selected.relay_peer ≡ some q
        → find (λ r. r.peer_id == q) (relay_announcements s) ≡ some a
        → r.relay ≡ some (relay_plan a r.remote_endpoints)
        → Follows d i r
        → Planned (ok r)

  -- The plan is none, with `NoRoute`, when no candidate of the peer supports the class, or the best one
  -- goes through a relay that it does not name or that the relay map does not announce; it is
  -- `PeerNotFound` when the best one is there but the peer is not listed. Otherwise it follows the best
  -- candidate: its kind and source, the peer's addresses that fit the kind, or all if none fits, and
  -- the announced relay exactly when the kind is a relay's.
  pub route_plan-Planned : Planned (route_plan scaled at_least_one c s peer protocol class)
  unfolding route_plan relay_part relay_of
  route_plan-Planned = elim (Option-cases (best_path scaled at_least_one s peer class)) [
    | inl b ↦ rw (b, route_plan) (without_candidate b)
    | inr (d, b) ↦ elim (Option-cases (daemon_peer s peer)) [
      | inl n ↦ rw (b, route_plan) (rw (n, route_plan) (unknown_peer d b n))
      | inr (i, n) ↦ elim (Bool-cases (d.selected.path_kind == relay)) [
        | inl k ↦ elim (Option-cases d.selected.relay_peer) [
          | inl m ↦
              rw (b, route_plan)
                (rw (n, route_plan)
                  (rw (k, relay_part)
                    (rw (m, relay_of) (without_relay d b (ground arith) (λ q e. cc)))))
          | inr (q, m) ↦ elim (Option-cases (find (λ r. r.peer_id == q) (relay_announcements s))) [
            | inl a ↦
                rw (b, route_plan)
                  (rw (n, route_plan)
                    (rw (k, relay_part)
                      (rw (m, relay_of)
                        (rw a (without_relay d b (ground arith) (λ p e. ground arith))))))
            | inr (a, f) ↦
                rw (b, route_plan)
                  (rw (n, route_plan)
                    (rw (k, relay_part)
                      (rw (m, relay_of)
                        (rw f (
                          relayed d i _ q a b n (ground arith) m f refl (record {
                            local = refl;
                            target = refl;
                            purpose = (refl, refl);
                            kind = refl;
                            origin = refl;
                            endpoints =
                                route_endpoints-Endpoints i.snapshot.addresses d.selected.path_kind;
                          }))))))
          ]
        ]
        | inr k ↦
            rw (b, route_plan)
              (rw (n, route_plan)
                (rw (k, relay_part)
                  (direct d i _ b n (ground arith) refl (record {
                    local = refl;
                    target = refl;
                    purpose = (refl, refl);
                    kind = refl;
                    origin = refl;
                    endpoints = route_endpoints-Endpoints i.snapshot.addresses d.selected.path_kind;
                  }))))
      ]
    ]
  ]
