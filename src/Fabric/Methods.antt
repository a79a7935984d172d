-- ===== src/Fabric/Methods.antt =====
-- The methods of `LocalControlPlane` in crates/fabric/src/lib.rs that change what its transport holds,
-- and the routes along which they open and move sessions.
use quipnet.Base.{
  List, [], ◌∷◌, ◌++◌, Bytes, some, ◌≡◌, true, ok, All, All-append, subst, sym, ◌∙◌, arith,
}
use quipnet.Crypto.{IdentityKeypair}
use quipnet.Model.{PeerId, ProtocolId, TrafficClass}
use quipnet.Transport.{LifecycleTransport, RoutePlan}
use quipnet.Fabric.State.{DaemonState}
use quipnet.Fabric.Policies.{explain_policy}
use quipnet.Fabric.Exec.{World}
use quipnet.Fabric.Plane.{Plane, plan, ensure_state}
use quipnet.Fabric.Sessions.{close_session, upgrade_session, realize_best_path}
use quipnet.Fabric.Sessions.Reconcile.{reconcile_sessions}
use quipnet.Fabric.Reevaluation.{reevaluate_runtime_authority}
use quipnet.Fabric.Keeping.{Permits, Keeps}
use quipnet.Fabric.Keeping.Sessions.{
  Starts, close_session-Preserves, upgrade_session-Preserves, realize_best_path-Preserves,
  reconcile_sessions-Preserves,
}
use quipnet.Fabric.Keeping.Authority.{reevaluate_runtime_authority-Preserves}

pub data Method : Type 0 where
  closes_session : Bytes → Method
  upgrades_session : Bytes → Method
  realizes_best_path : PeerId → ProtocolId → TrafficClass → Method
  reconciles_sessions : Method
  reevaluates_authority : IdentityKeypair → Method

module _ {F S : Type 0} (p : Plane F S) where
  -- What a method leaves, whatever it answers.
  abbrev pub invoke : Method → World S → World S
  invoke (closes_session id) w = (close_session p id w).1
  invoke (upgrades_session id) w = (upgrade_session p id w).1
  invoke (realizes_best_path peer protocol class) w = (realize_best_path p peer protocol class w).1
  invoke reconciles_sessions w = (reconcile_sessions p w).1
  invoke (reevaluates_authority identity) w = (reevaluate_runtime_authority p identity w).1

  abbrev pub run_methods : List Method → World S → World S
  run_methods [] w = w
  run_methods (m ∷ ms) w = run_methods ms (invoke m w)

  module _ (P : RoutePlan → Type 0) (I : S → Type 0) (k : Keeps p P I) where
    pub invoke-Preserves :
        (m : Method) (w : World S) → Starts p P I k w → I w.runtime → I (invoke m w).runtime
    invoke-Preserves (closes_session id) w h i = close_session-Preserves p P I k id w i
    invoke-Preserves (upgrades_session id) w h i = upgrade_session-Preserves p P I k id w h i
    invoke-Preserves (realizes_best_path peer protocol class) w h i =
        realize_best_path-Preserves p P I k peer protocol class w h i
    invoke-Preserves reconciles_sessions w h i = reconcile_sessions-Preserves p P I k w h i
    invoke-Preserves (reevaluates_authority identity) w h i =
        reevaluate_runtime_authority-Preserves p P I k identity w h i

  pub run_methods-Preserves :
      (I : S → Type 0)
      → Keeps p (λ _. Unit {0}) I
      → (ms : List Method) (w : World S) → I w.runtime
      → I (run_methods ms w).runtime
  run_methods-Preserves I k [] w i = i
  run_methods-Preserves I k (m ∷ ms) w i = run_methods-Preserves I k ms (invoke m w) (
      invoke-Preserves (λ _. Unit {0}) I k m w
        (λ s v e peer protocol class route allowed planned. tt) i)

-- The transport with a list of the routes that it has been asked to open or move a session along.
abbrev pub logged : {S : Type 0} → LifecycleTransport S → LifecycleTransport (S × List RoutePlan)
logged t = record {
  connect = λ route (r, l). let (answer, v) = t.connect route r in (answer, (v, l ++ route ∷ []));
  active_sessions = λ (r, l). t.active_sessions r;
  session_snapshot = λ id (r, l). t.session_snapshot id r;
  recent_terminal_sessions = λ limit (r, l). t.recent_terminal_sessions limit r;
  update_session_state = λ id state closure reason (r, l).
      let (answer, v) = t.update_session_state id state closure reason r in (answer, (v, l));
  recent_events = λ limit (r, l). t.recent_events limit r;
  suppress_reconnect = λ peer protocol class reason (r, l).
      let (answer, v) = t.suppress_reconnect peer protocol class reason r in (answer, (v, l));
  clear_reconnect_suppression = λ peer protocol class (r, l).
      let (answer, v) = t.clear_reconnect_suppression peer protocol class r in (answer, (v, l));
  reconnect_suppressions = λ (r, l). t.reconnect_suppressions r;
  active_listeners = λ (r, l). t.active_listeners r;
  update_listener_state = λ id state reason (r, l).
      let (answer, v) = t.update_listener_state id state reason r in (answer, (v, l));
  transport_health = λ (r, l). t.transport_health r;
  reconnect_attempts = λ (r, l). t.reconnect_attempts r;
  record_runtime_event =
      λ e (r, l). let (answer, v) = t.record_runtime_event e r in (answer, (v, l));
  migrate =
      λ s route (r, l). let (answer, v) = t.migrate s route r in (answer, (v, l ++ route ∷ []));
  close_session = λ s (r, l). let (answer, v) = t.close_session s r in (answer, (v, l));
}

-- A route that a state plans to a peer for a protocol that its policy allows with the peer.
pub record IsPermitted {F S : Type 0} (p : Plane F S) (s : DaemonState F) (route : RoutePlan)
    : Type 0 where
  pub peer : PeerId
  pub protocol : ProtocolId
  pub class : TrafficClass
  pub allowed : (explain_policy p.crypto s peer protocol).allowed ≡ true
  pub planned : plan p s peer (some protocol) class ≡ ok route

module _ {F S : Type 0} (t : LifecycleTransport S) (p : Plane F (S × List RoutePlan)) where
  abbrev pub watched : Plane F (S × List RoutePlan)
  watched = record p { transport = logged t }

  watched-Keeps :
      (s : DaemonState F)
      → Keeps watched (IsPermitted watched s) (λ (r, l). All (IsPermitted watched s) l)
  watched-Keeps s = record {
    connects = λ route (r, l) h i. All-append _ l (route ∷ []) i (h, tt);
    updates = λ id state closure reason r i. i;
    suppresses = λ peer protocol class reason r i. i;
    clears = λ peer protocol class r i. i;
    marks_listener = λ id state reason r i. i;
    notes = λ e r i. i;
    migrates = λ session route (r, l) h i. All-append _ l (route ∷ []) i (h, tt);
    closes = λ session r i. i;
  }

  -- Whatever method the daemon runs, over any transport: if the state that it reads at the start is `s`,
  -- then every route along which it asks the transport to open or move a session is one that `s` plans
  -- to a peer, for a protocol that the policy of `s` allows with the peer.
  pub invoke-IsPermitted :
      (m : Method) (w v : World (S × List RoutePlan)) (s : DaemonState F)
      → w.runtime.1 ≡ []
      → ensure_state watched w ≡ (ok s, v)
      → All (IsPermitted watched s) (invoke watched m w).runtime.1
  invoke-IsPermitted m w v s empty h =
      invoke-Preserves watched (IsPermitted watched s) (λ (r, l). All (IsPermitted watched s) l)
        (watched-Keeps s) m w
        (λ u x e.
          let same : s ≡ u = ground (arith, sym h ∙ e) in
          subst (Permits watched (IsPermitted watched s)) same
            λ peer protocol class route allowed planned. record {
              peer = peer;
              protocol = protocol;
              class = class;
              allowed = allowed;
              planned = planned;
            })
        (rw empty tt)
