-- ===== src/Fabric/Admissions.antt =====
-- The sessions that the methods of `LocalControlPlane` in crates/fabric/src/lib.rs put into the transport
-- adapter of crates/quic/src/lib.rs.
use quipnet.Base.{Option, some, Bytes, ◌≡◌, refl, sym, ◌∙◌, true, ok, Result, arith, subst}
use quipnet.Base.Maps.{Map, get}
use quipnet.Crypto.{Primitives}
use quipnet.Identity.{SessionCredentialUnsigned}
use quipnet.Model.{PeerId, ProtocolId, TrafficClass}
use quipnet.Transport.{RoutePlan}
use quipnet.Quic.{SessionRecord, emit}
use quipnet.Quic.{suppress_reconnect}
use quipnet.Quic.{RelayControl}
use quipnet.Quic.Lifecycle.{Node, draw, now, target, quic_transport}
use quipnet.Quic.Parties.{
  Parties, Welcomes, connect-Parties, migrate-Parties, close_session-Parties, updates-Parties,
  unbars-Parties, marks_listener-Parties,
}
use quipnet.Fabric.State.{DaemonState, DaemonStateError}
use quipnet.Fabric.Policies.{explain_policy}
use quipnet.Fabric.Exec.{World}
use quipnet.Fabric.Plane.{Plane, plan, ensure_state}
use quipnet.Fabric.RoutePlans.{
  Planned, without_candidate, unknown_peer, without_relay, direct, relayed, route_plan-Planned,
}
use quipnet.Fabric.Keeping.{Permits, Keeps}
use quipnet.Fabric.Methods.{Method, invoke, invoke-Preserves}

-- A session that stood in the registry under this id with the same peer and protocol, or one with a peer
-- and a protocol that the policy of the state allows.
pub data Admitted (c : Primitives) {F : Type 0} (s : DaemonState F) (before : Map SessionRecord)
    (id : Bytes) (peer : PeerId) (protocol : Option ProtocolId) : Type 0 where
  stood :
      (r : SessionRecord)
      → get id before ≡ some r
      → r.snapshot.peer ≡ peer
      → r.snapshot.protocol ≡ protocol
      → Admitted c s before id peer protocol
  allowed :
      (q : ProtocolId)
      → protocol ≡ some q
      → (explain_policy c s peer q).allowed ≡ true
      → Admitted c s before id peer protocol

-- A route that is planned leads to the peer, for the protocol.
planned_for :
    {F S : Type 0} (p : Plane F S) (s : DaemonState F) (peer : PeerId)
    (protocol : Option ProtocolId) (class : TrafficClass) (route : RoutePlan)
    → plan p s peer protocol class ≡ ok route
    → (route.peer ≡ peer) × (route.protocol ≡ protocol)
unfolding plan
planned_for p s peer protocol class route h =
    from _ (route_plan-Planned p.scaled p.at_least_one p.crypto s peer protocol class) h
  where
    from :
        (r : Result DaemonStateError RoutePlan)
        → Planned p.scaled p.at_least_one p.crypto s peer protocol class r
        → r ≡ ok route
        → (route.peer ≡ peer) × (route.protocol ≡ protocol)
    from _ (without_candidate b) e = cc e
    from _ (unknown_peer d b n) e = cc e
    from _ (without_relay d b k n) e = cc e
    from _ (direct d i r b n k m f) e =
        let same : r ≡ route = ground arith in
        subst (λ x. (x.peer ≡ peer) × (x.protocol ≡ protocol)) same (f.target, f.purpose.0)
    from _ (relayed d i r q a b n k m o u f) e =
        let same : r ≡ route = ground arith in
        subst (λ x. (x.peer ≡ peer) × (x.protocol ≡ protocol)) same (f.target, f.purpose.0)

module _ (c : Primitives) (json : SessionCredentialUnsigned → Bytes) {W : Type 0}
    (relays : RelayControl W) where
  quic_transport-Keeps-Parties :
      {F : Type 0} (p : Plane F (Node W)) (Q : Bytes → PeerId → Option ProtocolId → Type 0)
      → Keeps
          (record p { transport = quic_transport c json relays })
          (λ route. Welcomes Q route.peer route.protocol)
          (λ n. Parties Q n.adapter.runtime_sessions)
  unfolding quic_transport suppress_reconnect emit
  quic_transport-Keeps-Parties p Q = record {
    connects = λ route n w i. connect-Parties Q c json relays (draw n) n.relays n.adapter route w i;
    updates = λ id state closure reason n i.
        updates-Parties Q c json relays (now n) n.adapter id state closure reason i;
    suppresses = λ peer protocol class reason n i. i;
    clears = λ peer protocol class n i.
        unbars-Parties Q c json relays (target peer protocol class) n.adapter i;
    marks_listener =
        λ id state reason n i. marks_listener-Parties Q c json relays n.adapter id state reason i;
    notes = λ e n i. i;
    migrates = λ s route n w i.
        migrate-Parties Q c json relays (draw n) n.relays n.adapter s.session_id route w i;
    closes = λ s n i. close_session-Parties Q c json relays (now n) n.relays n.adapter s i;
  }

  -- Whatever method the daemon runs over its QUIC adapter, with whatever relays, times and random draws,
  -- and whether it succeeds or fails: if the state that it reads at the start is `s`, then every session
  -- of the adapter after it stood there before, under its id with its peer and its protocol, or it has a
  -- protocol that the policy of `s` allows with its peer.
  pub invoke-Admitted :
      {F : Type 0} (p : Plane F (Node W)) (m : Method) (w v : World (Node W)) (s : DaemonState F)
      (id : Bytes) (r : SessionRecord)
      → let plane = record p { transport = quic_transport c json relays } in
        ensure_state plane w ≡ (ok s, v)
        → get id (invoke plane m w).runtime.adapter.runtime_sessions ≡ some r
        → Admitted p.crypto s w.runtime.adapter.runtime_sessions id r.snapshot.peer
            r.snapshot.protocol
  invoke-Admitted p m w v s id r h k =
      let plane = record p { transport = quic_transport c json relays } in
      let before = w.runtime.adapter.runtime_sessions in
      let Q = Admitted p.crypto s before in
      let P = λ (route : RoutePlan). Welcomes Q route.peer route.protocol in
      invoke-Preserves plane P (λ n. Parties Q n.adapter.runtime_sessions)
        (quic_transport-Keeps-Parties p Q) m w
        (λ u x e.
          let same : s ≡ u = ground (arith, sym h ∙ e) in
          subst (Permits plane P) same λ peer protocol class route fine planned id.
            let (leads, carries) = planned_for plane s peer (some protocol) class route planned in
            rw (leads, carries) (allowed protocol refl fine))
        (λ id r e. stood r e refl refl) id r k
