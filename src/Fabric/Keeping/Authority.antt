-- ===== src/Fabric/Keeping/Authority.antt =====
-- `reevaluate_runtime_authority` of crates/fabric/src/lib.rs keeps what the transport keeps.
use quipnet.Base.{
  Bytes, suc, true, ◌≡◌, refl, arith, ◌==◌, Option, none, some, List, [], ◌∷◌, Result, ok, err, inl,
  inr, Option-cases,
}
use quipnet.Model.{ProtocolId}
use quipnet.Crypto.{IdentityKeypair}
use quipnet.Transport.{
  SessionSnapshot, RoutePlan, RuntimeSessionState, local_runtime_failure, policy_rejected,
  TransportError, RuntimeListenerSnapshot, RuntimeListenerState,
}
use quipnet.Fabric.State.{DaemonState, DaemonStateError}
use quipnet.Fabric.Routes.{session_matches_route}
use quipnet.Fabric.Exec.{World}
use quipnet.Fabric.Plane.{Plane}
use quipnet.Fabric.Runtime.{listener_state_eq}
use quipnet.Fabric.Reevaluation.Reports.{Enforcement, Report, session_state_eq}
use quipnet.Fabric.Reevaluation.Checks.{
  enforcement, enforce, degrade, after_migrate, restore, reroute, follow, with_protocol,
  reevaluate_sessions,
}
use quipnet.Fabric.Reevaluation.Listeners.{bar_listener, reevaluate_listeners}
use quipnet.Fabric.Reevaluation.{reevaluate_runtime_authority}
use quipnet.Fabric.Policies.{explain_policy}
use quipnet.Fabric.Keeping.{Permits, Keeps, Preserves, bind-Preserves, if-Preserves}
use quipnet.Fabric.Keeping.Sessions.{
  Starts, started-Preserves, mark-Preserves, fail_and_close_session-Preserves,
}

module _ {F S : Type 0} (p : Plane F S) (P : RoutePlan → Type 0) (I : S → Type 0)
    (k : Keeps p P I) where
  enforce-Preserves :
      (r : Report) (s : SessionSnapshot) (protocol : ProtocolId) (e : Enforcement)
      → Preserves I (enforce p r s protocol e)
  unfolding enforce
  enforce-Preserves r s protocol e =
      bind-Preserves I _ _ (λ w i. i)
        λ _.
          bind-Preserves I _ _
            (λ w i. k.suppresses s.peer (some protocol) s.class e.reason w.runtime i)
            λ _.
              bind-Preserves I _ _
                (mark-Preserves p P I k s.session_id RuntimeSessionState.closing
                  (some policy_rejected) e.reason)
                λ _.
                  bind-Preserves I _ _ (λ w i. k.notes _ w.runtime i)
                    λ _. bind-Preserves I _ _ (λ w i. k.closes s w.runtime i) λ _ w i. i

  degrade-Preserves :
      (r : Report) (s : SessionSnapshot) (protocol : ProtocolId) (reason : Bytes)
      → Preserves I (degrade p r s protocol reason)
  unfolding degrade
  degrade-Preserves r s protocol reason =
      bind-Preserves I _ _
        (mark-Preserves p P I k s.session_id RuntimeSessionState.degraded none reason)
        λ _. bind-Preserves I _ _ (λ w i. k.notes _ w.runtime i) λ _ w i. i

  after_migrate-Preserves :
      (r : Report) (s : SessionSnapshot) (protocol : ProtocolId)
      (m : Result TransportError SessionSnapshot)
      → Preserves I (after_migrate p r s protocol m)
  unfolding after_migrate
  after_migrate-Preserves r s protocol (ok m) = λ w i. i
  after_migrate-Preserves r s protocol (err e) =
      bind-Preserves I _ _ (fail_and_close_session-Preserves p P I k s local_runtime_failure _) λ _.
        bind-Preserves I _ _ (λ w i. k.suppresses s.peer (some protocol) s.class _ w.runtime i)
          λ _ w i. i

  restore-Preserves : (r : Report) (s : SessionSnapshot) → Preserves I (restore p r s)
  unfolding restore
  restore-Preserves r s =
      if-Preserves I (s.state == RuntimeSessionState.degraded) _ _
        (λ _.
          bind-Preserves I _ _
            (mark-Preserves p P I k s.session_id RuntimeSessionState.active none _) λ _ w i. i)
        (λ w i. i)

  reroute-Preserves :
      (r : Report) (s : SessionSnapshot) (protocol : ProtocolId)
      (route : Result DaemonStateError RoutePlan)
      → ((r : RoutePlan) → route ≡ ok r → P r)
      → Preserves I (reroute p r s protocol route)
  unfolding reroute
  reroute-Preserves r s protocol (ok route) h =
      if-Preserves I (session_matches_route s route) _ _ (λ _. restore-Preserves r s)
        (if-Preserves I s.migration_capable _ _
          (λ _.
            bind-Preserves I _ _ (λ w i. k.notes _ w.runtime i)
              λ _.
                bind-Preserves I _ _
                  (mark-Preserves p P I k s.session_id RuntimeSessionState.migrating none _)
                  λ _.
                    bind-Preserves I _ _ (λ w i. k.migrates s route w.runtime (h route refl) i)
                      λ m. after_migrate-Preserves r s protocol m)
          (degrade-Preserves r s protocol _))
  reroute-Preserves r s protocol (err e) h = go e
    where
      go : (e : DaemonStateError) → Preserves I (reroute p r s protocol (err e))
      go (DaemonStateError.no_route q) = degrade-Preserves r s protocol _
      go _ = λ w i. i

  follow-Preserves :
      (r : Report) (s : DaemonState F) (session : SessionSnapshot) (protocol : ProtocolId)
      → Permits p P s
      → (explain_policy p.crypto s session.peer protocol).allowed ≡ true
      → Preserves I (follow p r s session protocol)
  unfolding follow
  follow-Preserves r s session protocol permits allowed =
      bind-Preserves I _ _ (λ w i. i)
        λ _.
          bind-Preserves I _ _
            (λ w i. k.clears session.peer (some protocol) session.class w.runtime i)
            λ _.
              reroute-Preserves _ session protocol _
                (λ route planned. permits session.peer protocol session.class route allowed planned)

  -- What nothing is enforced on is allowed.
  unenforced :
      (r : Report) (s : DaemonState F) (session : SessionSnapshot) (protocol : ProtocolId)
      → enforcement p r s session protocol ≡ none
      → (explain_policy p.crypto s session.peer protocol).allowed ≡ true
  unfolding enforcement
  unenforced r s session protocol h = elim (Option-cases r.local_policy_reason) [
    | inl e ↦ ground (arith, e)
    | inr (reason, e) ↦ ground (arith, e)
  ]

  with_protocol-Preserves :
      (r : Report) (s : DaemonState F) (session : SessionSnapshot) (protocol : Option ProtocolId)
      → Permits p P s
      → Preserves I (with_protocol p r s session protocol)
  unfolding with_protocol
  with_protocol-Preserves r s session none permits = λ w i. i
  with_protocol-Preserves r s session (some protocol) permits =
      go (enforcement p counted s session protocol) refl
    where
      counted : Report
      counted = record r { reevaluated_sessions = suc r.reevaluated_sessions }

      go :
          (o : Option Enforcement)
          → enforcement p counted s session protocol ≡ o
          → Preserves I (elim o [
            | some e ↦ enforce p counted session protocol e
            | none ↦ follow p counted s session protocol
          ])
      go (some e) h = enforce-Preserves _ session protocol e
      go none h =
          follow-Preserves _ s session protocol permits (unenforced counted s session protocol h)

  reevaluate_sessions-Preserves :
      (r : Report) (s : DaemonState F) (sessions : List SessionSnapshot)
      → Permits p P s
      → Preserves I (reevaluate_sessions p r s sessions)
  unfolding reevaluate_sessions
  reevaluate_sessions-Preserves r s [] permits = λ w i. i
  reevaluate_sessions-Preserves r s (session ∷ sessions) permits =
      bind-Preserves I _ _ (with_protocol-Preserves r s session session.protocol permits)
        λ later. reevaluate_sessions-Preserves later s sessions permits

  bar_listener-Preserves :
      (r : Report) (l : RuntimeListenerSnapshot) (reason : Option Bytes)
      → Preserves I (bar_listener p r l reason)
  unfolding bar_listener
  bar_listener-Preserves r l (some reason) =
      bind-Preserves I _ _ (λ w i. k.marks_listener l.listener_id _ _ w.runtime i)
        λ _.
          if-Preserves I _ _ _ (λ _ w i. i)
            (bind-Preserves I _ _ (λ w i. k.notes _ w.runtime i) λ _ w i. i)
  bar_listener-Preserves r l none =
      if-Preserves I (l.state == RuntimeListenerState.suppressed) _ _
        (λ _.
          bind-Preserves I _ _ (λ w i. k.marks_listener l.listener_id _ _ w.runtime i) λ _ w i. i)
        (λ w i. i)

  reevaluate_listeners-Preserves :
      (r : Report) (s : DaemonState F) (ls : List RuntimeListenerSnapshot)
      → Preserves I (reevaluate_listeners p r s ls)
  unfolding reevaluate_listeners
  reevaluate_listeners-Preserves r s [] = λ w i. i
  reevaluate_listeners-Preserves r s (l ∷ ls) =
      bind-Preserves I _ _ (if-Preserves I _ _ _ (λ _ w i. i) (bar_listener-Preserves _ l _))
        λ later. reevaluate_listeners-Preserves later s ls

  pub reevaluate_runtime_authority-Preserves :
      (identity : IdentityKeypair) (w : World S)
      → Starts p P I k w
      → I w.runtime
      → I (reevaluate_runtime_authority p identity w).1.runtime
  unfolding reevaluate_runtime_authority
  reevaluate_runtime_authority-Preserves identity = started-Preserves p P I k _ λ s permits.
      bind-Preserves I _ _ (λ w i. i)
        λ sessions.
          bind-Preserves I _ _ (λ w i. k.notes _ w.runtime i)
            λ _.
              bind-Preserves I _ _ (λ w i. i)
                λ sessions.
                  bind-Preserves I _ _ (reevaluate_sessions-Preserves _ s sessions permits) λ r.
                    bind-Preserves I _ _ (λ w i. i)
                      λ listeners.
                        bind-Preserves I _ _ (reevaluate_listeners-Preserves r s listeners)
                          λ r. bind-Preserves I _ _ (λ w i. k.notes _ w.runtime i) λ _ w i. i
