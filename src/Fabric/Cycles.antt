-- ===== src/Fabric/Cycles.antt =====
-- What the report of `reconcile_sessions` of crates/fabric/src/lib.rs counts.
pub mod Reports
pub mod Rounds
use quipnet.Base.{
  ℕ, suc, ◌+◌, Bool, true, false, Option, none, some, List, [], ◌∷◌, ◌++◌, map, Bytes, ◌≡◌, refl,
  arith, ◌==◌, Eq, inl, inr, ◌⊎◌, Bool-cases, Option-cases, Result-cases, Result, ok, err, length,
  count, ap, ◌∙◌, sym, text, subst, count-append, if◌then◌else◌, length-append,
}
use mathlib.Core.List.{map-append, append_assoc, append-nil}
use quipnet.Model.{PathKind, ProtocolId}
use quipnet.Transport.{
  SessionSnapshot, SessionClosureReason, RoutePlan, LifecycleTransport, TransportError,
  policy_rejected,
}
use quipnet.Fabric.State.{DaemonState, DaemonStateError, transport_failed}
use quipnet.Fabric.Policies.{explain_policy}
use quipnet.Fabric.Routes.{session_matches_route}
use quipnet.Fabric.Exec.{World, Exec, pure, fail, lift, reads, calls, tries, next, ◌>>=◌, ◌>>◌}
use quipnet.Base.Maps.{contains_key}
use quipnet.Fabric.Files
use quipnet.Fabric.Plane.{Plane, plan, ensure_state, state_exists, load, save}
use quipnet.Fabric.Sessions.{
  SessionReconcileDisposition, unchanged, upgraded, closed, SessionReconcileEntry,
  SessionReconcileReport, Tally, Cycle, entry, mark, fail_and_close_session, persist,
}
use quipnet.Fabric.Sessions.Reconcile.{
  noted_closed, noted_unchanged, noted_upgraded, give_up, after_migrate, along, under_policy,
  negotiated, found, reconcile_session, reconcile_all, reconcile_sessions,
}
use quipnet.Fabric.Keeping.Sessions.{reconcile_session-Yields}
use quipnet.Fabric.Cycles.Rounds.{
  disposition_eq, dispositions, ids, listed_ids, Ensures, IsTally, Adds, After, Answers,
  reconcile_session-Adds,
}
use quipnet.Fabric.Cycles.Reports.{Counts, report_of, report-Counts}

module _ {F S : Type 0} (p : Plane F S) where
  -- The tally after the sessions.
  abbrev Through : List SessionSnapshot → Tally → Cycle F → Type 0
  Through sessions t cycle =
      IsTally cycle.1 × (ids cycle.1.entries ≡ ids t.entries ++ listed_ids sessions)

  weaken :
      (session : SessionSnapshot) (sessions : List SessionSnapshot) (t : Tally) (mid : Tally)
      → ids mid.entries ≡ ids t.entries ++ session.session_id ∷ []
      → (r : Result DaemonStateError (Cycle F) × World S) → Ensures (Through sessions mid) r
      → Ensures (Through (session ∷ sessions) t) r
  weaken session sessions t mid e (ok cycle, w) h = (
    h.0,
    h.1
        ∙ (ap (λ l. l ++ listed_ids sessions) e
            ∙ append_assoc (ids t.entries) (session.session_id ∷ []) (listed_ids sessions)),
  )
  weaken session sessions t mid e (err x, w) h = tt

  reconcile_all-Through :
      (I : S → Type 0)
      → Answers p I
      → (sessions : List SessionSnapshot) (cycle : Cycle F) (w : World S) → I w.runtime
      → IsTally cycle.1
      → Ensures (Through sessions cycle.1) (reconcile_all p cycle sessions w)
  unfolding reconcile_all ◌>>=◌
  reconcile_all-Through I answers [] cycle w i h = (h, sym (append-nil (ids cycle.1.entries)))
  reconcile_all-Through I answers (session ∷ sessions) cycle w i h =
      go (λ later v j a. reconcile_all-Through I answers sessions later v j a)
        (reconcile_session p cycle session w)
        ((reconcile_session-Yields p (λ _. Unit {0}) I answers.keeps cycle session
          (λ peer protocol class route allowed planned. tt) w i).0)
        (reconcile_session-Adds p I answers cycle.0 cycle.1 session w i h)
    where
      go :
          ((later : Cycle F) (v : World S)
            → I v.runtime
            → IsTally later.1
            → Ensures (Through sessions later.1) (reconcile_all p later sessions v))
          → (r : Result DaemonStateError (Cycle F) × World S) → I r.1.runtime
          → Ensures (After p session.session_id cycle.1) r
          → Ensures
              (Through (session ∷ sessions) cycle.1)
              (next (λ later. reconcile_all p later sessions) r)
      go rest (ok later, v) j a =
          weaken session sessions cycle.1 later.1 a.names _ (rest later v j a.tally)
      go rest (err e, v) j a = tt

  -- Reading the state leaves the transport alone.
  ensure_state-runtime : (w : World S) → (ensure_state p w).1.runtime ≡ w.runtime
  unfolding ensure_state state_exists load save ◌>>=◌
  ensure_state-runtime w = elim (Bool-cases (contains_key p.config.state_path w.disk)) [
    | inl present ↦ elim (Result-cases (Files.load p.crypto p.serde w.disk p.config.state_path)) [
      | inl (s, l) ↦ ground (arith, present, l)
      | inr (e, l) ↦ ground (arith, present, l)
    ]
    | inr absent ↦ ground (arith, absent)
  ]

  abbrev pub empty_tally : Tally
  empty_tally = record { unchanged = 0; upgraded = 0; closed = 0; entries = [] }

  -- The end of the method, after the loop.
  abbrev pub conclude : Cycle F → Exec S SessionReconcileReport
  conclude cycle = persist p cycle.0 >> pure (report_of cycle.1)

  conclude-report :
      (cycle : Cycle F) (v after : World S) (report : SessionReconcileReport)
      → conclude cycle v ≡ (ok report, after)
      → report_of cycle.1 ≡ report
  unfolding ◌>>=◌
  conclude-report cycle v after report h = go (persist p cycle.0 v) h
    where
      go :
          (r : Result DaemonStateError (Unit {0}) × World S)
          → next (λ _. pure (report_of cycle.1)) r ≡ (ok report, after)
          → report_of cycle.1 ≡ report
      go (ok u, x) e = cc
      go (err u, x) e = cc

  -- The method after the state is read.
  abbrev pub cycle_over : DaemonState F → List SessionSnapshot → Exec S SessionReconcileReport
  cycle_over s sessions = reconcile_all p (s, empty_tally) sessions >>= conclude

  cycle_over-Counts :
      (I : S → Type 0)
      → Answers p I
      → (s : DaemonState F) (sessions : List SessionSnapshot) (v after : World S)
        (report : SessionReconcileReport)
      → I v.runtime
      → cycle_over s sessions v ≡ (ok report, after)
      → Counts sessions report
  unfolding ◌>>=◌
  cycle_over-Counts I answers s sessions v after report i h =
      go (reconcile_all p (s, empty_tally) sessions v)
        (reconcile_all-Through I answers sessions (s, empty_tally) v i
          (record { same = refl; moved = refl; gone = refl }))
        h
    where
      go :
          (r : Result DaemonStateError (Cycle F) × World S)
          → Ensures (Through sessions empty_tally) r
          → next conclude r ≡ (ok report, after)
          → Counts sessions report
      go (ok cycle, x) t e =
          subst (Counts sessions) (conclude-report cycle x after report e)
            (report-Counts sessions cycle.1 t.0 t.1)
      go (err u, x) t e = cc

  read_ok :
      (v : World S) (sessions : List SessionSnapshot)
      (f : List SessionSnapshot → Exec S SessionReconcileReport)
      → p.transport.active_sessions v.runtime ≡ ok sessions
      → (reads p.transport.active_sessions >>= f) v ≡ f sessions v
  unfolding ◌>>=◌
  read_ok v sessions f r = rw (r, next) refl

  read_err :
      (v : World S) (x : TransportError) (f : List SessionSnapshot → Exec S SessionReconcileReport)
      → p.transport.active_sessions v.runtime ≡ err x
      → (reads p.transport.active_sessions >>= f) v ≡ (err (transport_failed x), v)
  unfolding ◌>>=◌
  read_err v x f r = rw (r, next) refl

  reconcile_sessions_steps :
      (w : World S)
      → reconcile_sessions p w
        ≡ (ensure_state p >>= λ s. reads p.transport.active_sessions >>= cycle_over s) w
  unfolding reconcile_sessions
  reconcile_sessions_steps w = refl

  -- If a cycle of reconciliation succeeds, with a transport in a state which its operations keep and in
  -- which it answers with the session of the id that it is asked for, then its report has one entry for
  -- each session that the transport listed, in that order; it examined as many; and the three counters
  -- are the numbers of entries with their dispositions, and add up to all of them.
  pub reconcile_sessions-Counts :
      (I : S → Type 0)
      → Answers p I
      → (w after : World S) (report : SessionReconcileReport) → I w.runtime
      → reconcile_sessions p w ≡ (ok report, after)
      → (sessions : List SessionSnapshot) × (p.transport.active_sessions w.runtime ≡ ok sessions)
        × Counts sessions report
  unfolding ◌>>=◌
  reconcile_sessions-Counts I answers w after report i h =
      go (ensure_state p w) (ensure_state-runtime w) (sym (reconcile_sessions_steps w) ∙ h)
    where
      listed :
          (s : DaemonState F) (v : World S)
          → I v.runtime
          → (reads p.transport.active_sessions >>= cycle_over s) v ≡ (ok report, after)
          → (sessions : List SessionSnapshot) × (p.transport.active_sessions v.runtime
              ≡ ok sessions)
            × Counts sessions report
      listed s v j e = elim (Result-cases (p.transport.active_sessions v.runtime)) [
        | inl (sessions, r) ↦ (
          sessions,
          r,
          cycle_over-Counts I answers s sessions v after report j
              (sym (read_ok v sessions (cycle_over s) r) ∙ e),
        )
        | inr (x, r) ↦ cc (read_err v x (cycle_over s) r, e)
      ]

      go :
          (r : Result DaemonStateError (DaemonState F) × World S)
          → r.1.runtime ≡ w.runtime
          → next (λ s. reads p.transport.active_sessions >>= cycle_over s) r ≡ (ok report, after)
          → (sessions : List SessionSnapshot) × (p.transport.active_sessions w.runtime
              ≡ ok sessions)
            × Counts sessions report
      go (ok s, v) same e =
          let (sessions, r, counts) = listed s v (subst I (sym same) i) e in
          (sessions, ap p.transport.active_sessions (sym same) ∙ r, counts)
      go (err x, v) same e = cc
