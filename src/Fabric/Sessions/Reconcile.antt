-- ===== src/Fabric/Sessions/Reconcile.antt =====
-- `reconcile_sessions` of crates/fabric/src/lib.rs: every session is held against the policy and the
-- route plan of the state, and stays, moves or is closed.
use quipnet.Base.{
  suc, Option, none, some, List, [], ◌∷◌, ◌++◌, Bytes, text, length, if◌then◌else◌, Result, ok, err,
}
use quipnet.Model.{ProtocolId, PathKind}
use quipnet.Transport.{
  SessionSnapshot, RoutePlan, active, migrating, reconciling, closing, SessionClosureReason,
  local_runtime_failure, policy_rejected, path_exhaustion, TransportError,
}
use quipnet.Fabric.State.{DaemonStateError, no_route, with_active_session, without_session}
use quipnet.Fabric.Policies.{explain_policy}
use quipnet.Fabric.Routes.{session_matches_route}
use quipnet.Fabric.ErrorTexts.{transport_error_text}
use quipnet.Fabric.Exec.{Exec, pure, fail, reads, calls, tries, ◌>>=◌, ◌>>◌}
use quipnet.Fabric.Plane.{Plane, ensure_state, plan}
use quipnet.Fabric.Sessions.{
  Cycle, SessionReconcileReport, entry, fail_and_close_session, mark, persist, unchanged, upgraded,
  closed,
}

module _ {F S : Type 0} (p : Plane F S) where
  -- The end of an arm that closes the session.
  unfoldable pub noted_closed : Cycle F → SessionSnapshot → Bytes → Cycle F
  noted_closed (s, t) session reason = (
    without_session s session.session_id,
    record t {
      closed = suc t.closed;
      entries = t.entries ++ entry session closed reason none ∷ [];
    },
  )

  unfoldable pub noted_unchanged : Cycle F → SessionSnapshot → Bytes → Cycle F
  noted_unchanged (s, t) session reason = (
    s,
    record t {
      unchanged = suc t.unchanged;
      entries = t.entries ++ entry session unchanged reason (some session.path_kind) ∷ [];
    },
  )

  unfoldable pub noted_upgraded :
      Cycle F → SessionSnapshot → SessionSnapshot → PathKind → Bytes → Cycle F
  noted_upgraded (s, t) session migrated kind reason = (
    with_active_session s migrated,
    record t {
      upgraded = suc t.upgraded;
      entries = t.entries ++ entry session upgraded reason (some kind) ∷ [];
    },
  )

  -- Fail the session, close it, and note it.
  unfoldable pub give_up :
      Cycle F → SessionSnapshot → SessionClosureReason → Bytes → Exec S (Cycle F)
  unfolding noted_closed
  give_up cycle session closure_reason reason = do
    fail_and_close_session p session closure_reason reason
    pure (noted_closed cycle session reason)

  -- The match on the result of `migrate`.
  unfoldable pub after_migrate :
      Cycle F
      → SessionSnapshot
      → PathKind
      → Result TransportError SessionSnapshot
      → Exec S (Cycle F)
  unfolding give_up noted_upgraded
  after_migrate cycle session kind (ok migrated) =
      pure (
        noted_upgraded cycle session migrated kind (text "selected path changed; session migrated"))
  after_migrate cycle session kind (err e) =
      give_up cycle session local_runtime_failure
        (text "session migration failed: " ++ transport_error_text p.crypto e)

  -- The match on the route plan.
  unfoldable pub along :
      Cycle F → SessionSnapshot → Result DaemonStateError RoutePlan → Exec S (Cycle F)
  unfolding after_migrate noted_unchanged give_up
  along cycle session (err (no_route _)) =
      give_up cycle session path_exhaustion (text "no route is available for session")
  along cycle session (err e) = fail e
  along cycle session (ok route) =
      if session_matches_route session route
      then (do
        mark p session.session_id active none (text "selected path still matches active session")
        pure (noted_unchanged cycle session (text "selected path still matches active session")))
      else (do
        mark p session.session_id migrating none (text "selected path changed; session migrating")
        migrated ← tries (p.transport.migrate session route)
        after_migrate cycle session route.path_kind migrated)

  -- The test of the policy.
  unfoldable pub under_policy : Cycle F → SessionSnapshot → ProtocolId → Exec S (Cycle F)
  unfolding along noted_closed
  under_policy cycle session protocol =
      let policy = explain_policy p.crypto cycle.0 session.peer protocol in
      if policy.allowed
      then along cycle session (plan p cycle.0 session.peer (some protocol) session.class)
      else (do
        mark p session.session_id closing (some policy_rejected) policy.reason
        calls (p.transport.close_session session)
        pure (noted_closed cycle session (text "policy denied session: " ++ policy.reason)))

  -- The match on the protocol.
  unfoldable pub negotiated : Cycle F → SessionSnapshot → Option ProtocolId → Exec S (Cycle F)
  unfolding under_policy give_up
  negotiated cycle session (some protocol) = under_policy cycle session protocol
  negotiated cycle session none =
      give_up cycle session local_runtime_failure (text "session is missing negotiated protocol")

  -- The match on the snapshot of the transport; `listed` is the session of the list.
  unfoldable pub found : Cycle F → SessionSnapshot → Option SessionSnapshot → Exec S (Cycle F)
  unfolding negotiated noted_closed
  found cycle listed (some session) = negotiated cycle session session.protocol
  found cycle listed none =
      pure (noted_closed cycle listed (text "session is not active in runtime transport"))

  -- One round of the loop.
  unfoldable pub reconcile_session : Cycle F → SessionSnapshot → Exec S (Cycle F)
  unfolding found
  reconcile_session cycle listed = do
    mark p listed.session_id reconciling none (text "daemon reconcile cycle")
    snapshot ← reads (p.transport.session_snapshot listed.session_id)
    found cycle listed snapshot

  unfoldable pub reconcile_all : Cycle F → List SessionSnapshot → Exec S (Cycle F)
  reconcile_all cycle [] = pure cycle
  reconcile_all cycle (session ∷ sessions) = do
    cycle ← reconcile_session cycle session
    reconcile_all cycle sessions

  unfoldable pub reconcile_sessions : Exec S SessionReconcileReport
  reconcile_sessions = do
    s ← ensure_state p
    sessions ← reads p.transport.active_sessions
    (s, tally) ←
        reconcile_all (s, record { unchanged = 0; upgraded = 0; closed = 0; entries = [] }) sessions
    persist p s
    pure (record {
      examined = length tally.entries;
      unchanged = tally.unchanged;
      upgraded = tally.upgraded;
      closed = tally.closed;
      entries = tally.entries;
    })
