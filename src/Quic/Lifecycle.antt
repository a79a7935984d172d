-- ===== src/Quic/Lifecycle.antt =====
-- `SessionLifecycleTransport for QuicTransportAdapter` of crates/quic/src/lib.rs, as the transport of
-- a node: the adapter with the relays that it asks. A call that reads the clock or draws at random
-- takes the next of the node's draws.
use quipnet.Base.{
  ℕ, suc, Option, none, some, List, map, take, reverse, Bytes, ◌==◌, bytes_eq, find, Result, ok,
  err,
}
use quipnet.Base.Maps.{values}
use quipnet.Model.{PeerId, ProtocolId, TrafficClass}
use quipnet.Crypto.{Primitives}
use quipnet.Identity.{SessionCredentialUnsigned}
use quipnet.Transport.{LifecycleTransport, SessionSnapshot, RuntimeListenerSnapshot, TransportError}
use quipnet.Quic.State.{SessionRecord, Adapter, emit}
use quipnet.Quic.State
use quipnet.Quic.Reconnect.{Target}
use quipnet.Quic.Reconnect
use quipnet.Quic.Plans.{RelayControl, Draw}
use quipnet.Quic.Sessions.{snapshot_of}
use quipnet.Quic.Sessions
use quipnet.Quic.Calls
use quipnet.Quic.Listeners

pub record Node (W : Type 0) : Type 0 where
  pub relays : W
  pub adapter : Adapter
  pub draws : ℕ → Draw
  pub drawn : ℕ

abbrev pub snapshots : List SessionRecord → List SessionSnapshot
snapshots = map (λ (r : SessionRecord). r.snapshot)

unfoldable pub active_sessions : Adapter → List SessionSnapshot
active_sessions a = snapshots (values a.runtime_sessions)

unfoldable pub terminal_session_snapshot : Bytes → Adapter → Option SessionSnapshot
terminal_session_snapshot id a =
    elim (find (λ (r : SessionRecord). r.snapshot.session_id == id) a.terminal_sessions) [
      | none ↦ none
      | some r ↦ some r.snapshot
    ]

-- The latest first.
unfoldable pub recent_terminal_sessions : ℕ → Adapter → List SessionSnapshot
recent_terminal_sessions limit a = snapshots (take limit (reverse a.terminal_sessions))

unfoldable pub active_listeners : Adapter → List RuntimeListenerSnapshot
active_listeners a = values a.runtime_listeners

module _ {W : Type 0} where
  abbrev pub draw : Node W → Draw
  draw n = n.draws n.drawn

  abbrev pub now : Node W → ℕ
  now n = (n.draws n.drawn).now

  -- The node after a call of its adapter.
  abbrev pub after : Node W → Adapter → Node W
  after n a = record n { adapter = a; drawn = suc n.drawn }

  abbrev pub after_relays : Node W → W × Adapter → Node W
  after_relays n (w, a) = record n { relays = w; adapter = a; drawn = suc n.drawn }

abbrev snapshot_result : Result TransportError SessionRecord → Result TransportError SessionSnapshot
snapshot_result (ok r) = ok r.snapshot
snapshot_result (err e) = err e

abbrev pub target : PeerId → Option ProtocolId → TrafficClass → Target
target peer protocol class = record { peer = peer; protocol = protocol; class = class }

unfoldable pub quic_transport :
    (c : Primitives) (json : SessionCredentialUnsigned → Bytes) {W : Type 0}
    (relays : RelayControl W)
    → LifecycleTransport (Node W)
unfolding active_sessions recent_terminal_sessions active_listeners
quic_transport c json relays = record {
  connect = λ route n.
      let (state, made) = Calls.connect c json relays (draw n) n.relays n.adapter route in
      (snapshot_result made, after_relays n state);
  active_sessions = λ n. ok (active_sessions n.adapter);
  session_snapshot = λ id n. ok (snapshot_of n.adapter id);
  recent_terminal_sessions = λ limit n. ok (recent_terminal_sessions limit n.adapter);
  update_session_state = λ id state closure reason n.
      let (a, s) = Sessions.update_session_state c (now n) n.adapter id state closure reason in
      (ok s, after n a);
  recent_events = λ limit n. ok (State.recent_events n.adapter limit);
  suppress_reconnect = λ peer protocol class reason n. (
    ok tt,
    after n (Reconnect.suppress_reconnect c (now n) (target peer protocol class) reason n.adapter),
  );
  clear_reconnect_suppression = λ peer protocol class n. (
    ok tt,
    after n (Reconnect.clear_reconnect_suppression c (target peer protocol class) n.adapter),
  );
  reconnect_suppressions = λ n. ok n.adapter.reconnect_suppressions;
  active_listeners = λ n. ok (active_listeners n.adapter);
  update_listener_state = λ id state reason n.
      let (a, l) = Listeners.update_listener_state n.adapter id state reason in (ok l, after n a);
  transport_health = λ n. ok (Listeners.transport_health n.adapter);
  reconnect_attempts = λ n. ok n.adapter.reconnect_attempts;
  record_runtime_event = λ e n. (ok tt, after n (emit n.adapter e));
  migrate = λ s route n.
      let (state, made) =
        Calls.migrate c json relays (draw n) n.relays n.adapter s.session_id route in
      (made, after_relays n state);
  close_session = λ s n.
      let (state, made) = Calls.close_session c json relays (now n) n.relays n.adapter s in
      (made, after_relays n state);
}
