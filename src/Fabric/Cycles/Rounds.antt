-- ===== src/Fabric/Cycles/Rounds.antt =====
-- What one round of `reconcile_sessions` of crates/fabric/src/lib.rs adds to the tally.
use quipnet.Base.{
  ℕ, Option, none, some, List, [], ◌∷◌, ◌++◌, map, Bytes, ◌≡◌, arith, ◌==◌, Eq, inl, inr,
  Bool-cases, Option-cases, Result-cases, Result, ok, err, count, ap, ◌∙◌, subst, count-append,
}
use mathlib.Core.List.{map-append}
use quipnet.Model.{PathKind, ProtocolId}
use quipnet.Transport.{
  SessionSnapshot, SessionClosureReason, RoutePlan, TransportError, reconciling,
}
use quipnet.Fabric.State.{DaemonState, DaemonStateError}
use quipnet.Fabric.Policies.{explain_policy}
use quipnet.Fabric.Routes.{session_matches_route}
use quipnet.Fabric.Exec.{World, Exec, reads, next, ◌>>=◌}
use quipnet.Fabric.Plane.{Plane}
use quipnet.Fabric.Keeping.{Keeps, Preserves}
use quipnet.Fabric.Keeping.Sessions.{mark-Preserves}
use quipnet.Fabric.Sessions.{
  SessionReconcileDisposition, unchanged, upgraded, closed, SessionReconcileEntry, Tally, Cycle,
  fail_and_close_session,
}
use quipnet.Fabric.Sessions.Reconcile.{
  noted_closed, noted_unchanged, noted_upgraded, give_up, after_migrate, along, under_policy,
  negotiated, found, reconcile_session,
}

pub SessionReconcileDisposition-discrete : Discrete SessionReconcileDisposition
SessionReconcileDisposition-discrete = hlevel

instance abbrev pub disposition_eq : Eq SessionReconcileDisposition
disposition_eq = record { dec = SessionReconcileDisposition-discrete }

-- How many entries have the disposition.
abbrev pub dispositions : SessionReconcileDisposition → List SessionReconcileEntry → ℕ
dispositions d = count (λ (e : SessionReconcileEntry). e.disposition == d)

abbrev pub ids : List SessionReconcileEntry → List Bytes
ids = map (λ (e : SessionReconcileEntry). e.session_id)

abbrev pub listed_ids : List SessionSnapshot → List Bytes
listed_ids = map (λ (s : SessionSnapshot). s.session_id)

-- A property of the result, if the method succeeds.
abbrev pub Ensures : {S A : Type 0} → (A → Type 0) → Result DaemonStateError A × World S → Type 0
Ensures P (ok a, w) = P a
Ensures P (err e, w) = Unit {0}

module _ {S A B : Type 0} (P : B → Type 0) where
  bind-Ensures :
      (m : Exec S A) (f : A → Exec S B) (w : World S)
      → ((a : A) (v : World S) → Ensures P (f a v))
      → Ensures P ((m >>= f) w)
  unfolding ◌>>=◌
  bind-Ensures m f w h = go (m w)
    where
      go : (r : Result DaemonStateError A × World S) → Ensures P (next f r)
      go (ok a, v) = h a v
      go (err e, v) = tt

-- The same where the rest relies on what the first call keeps of the transport.
kept-Ensures :
    {S A B : Type 0} (I : S → Type 0) (P : B → Type 0) (m : Exec S A) (f : A → Exec S B)
    (w : World S)
    → Preserves I m
    → I w.runtime
    → ((a : A) (v : World S) → I v.runtime → Ensures P (f a v))
    → Ensures P ((m >>= f) w)
unfolding ◌>>=◌
kept-Ensures {S} {A} {B} I P m f w k i h = go (m w) (k w i)
  where
    go : (r : Result DaemonStateError A × World S) → I r.1.runtime → Ensures P (next f r)
    go (ok a, v) j = h a v j
    go (err e, v) j = tt

-- The counters and the entries agree.
pub record IsTally (t : Tally) : Type 0 where
  pub same : dispositions unchanged t.entries ≡ t.unchanged
  pub moved : dispositions upgraded t.entries ≡ t.upgraded
  pub gone : dispositions closed t.entries ≡ t.closed

-- One more entry, of the session with the id.
pub record Adds (id : Bytes) (t u : Tally) : Type 0 where
  pub tally : IsTally u
  pub names : ids u.entries ≡ ids t.entries ++ id ∷ []

module _ {F S : Type 0} (p : Plane F S) where
  abbrev pub After : Bytes → Tally → Cycle F → Type 0
  After id t cycle = Adds id t cycle.1

  closed-Adds :
      (s : DaemonState F) (t : Tally) (session : SessionSnapshot) (reason : Bytes)
      → IsTally t
      → Adds session.session_id t (noted_closed p (s, t) session reason).1
  unfolding noted_closed
  closed-Adds s t session reason h = record {
    tally = record {
      same = count-append _ t.entries _ ∙ ground (arith, h.same);
      moved = count-append _ t.entries _ ∙ ground (arith, h.moved);
      gone = count-append _ t.entries _ ∙ ground (arith, h.gone);
    };
    names = map-append _ t.entries _;
  }

  unchanged-Adds :
      (s : DaemonState F) (t : Tally) (session : SessionSnapshot) (reason : Bytes)
      → IsTally t
      → Adds session.session_id t (noted_unchanged p (s, t) session reason).1
  unfolding noted_unchanged
  unchanged-Adds s t session reason h = record {
    tally = record {
      same = count-append _ t.entries _ ∙ ground (arith, h.same);
      moved = count-append _ t.entries _ ∙ ground (arith, h.moved);
      gone = count-append _ t.entries _ ∙ ground (arith, h.gone);
    };
    names = map-append _ t.entries _;
  }

  upgraded-Adds :
      (s : DaemonState F) (t : Tally) (session migrated : SessionSnapshot) (kind : PathKind)
      (reason : Bytes)
      → IsTally t
      → Adds session.session_id t (noted_upgraded p (s, t) session migrated kind reason).1
  unfolding noted_upgraded
  upgraded-Adds s t session migrated kind reason h = record {
    tally = record {
      same = count-append _ t.entries _ ∙ ground (arith, h.same);
      moved = count-append _ t.entries _ ∙ ground (arith, h.moved);
      gone = count-append _ t.entries _ ∙ ground (arith, h.gone);
    };
    names = map-append _ t.entries _;
  }

  give_up-Adds :
      (s : DaemonState F) (t : Tally) (session : SessionSnapshot) (r : SessionClosureReason)
      (reason : Bytes) (w : World S)
      → IsTally t
      → Ensures (After session.session_id t) (give_up p (s, t) session r reason w)
  unfolding give_up
  give_up-Adds s t session r reason w h =
      bind-Ensures (After session.session_id t) (fail_and_close_session p session r reason) _ w
        λ _ v. closed-Adds s t session reason h

  after_migrate-Adds :
      (s : DaemonState F) (t : Tally) (session : SessionSnapshot) (kind : PathKind)
      (r : Result TransportError SessionSnapshot) (w : World S)
      → IsTally t
      → Ensures (After session.session_id t) (after_migrate p (s, t) session kind r w)
  unfolding after_migrate
  after_migrate-Adds s t session kind (ok m) w h = upgraded-Adds s t session m kind _ h
  after_migrate-Adds s t session kind (err e) w h = give_up-Adds s t session _ _ w h

  matched-Adds :
      (s : DaemonState F) (t : Tally) (session : SessionSnapshot) (route : RoutePlan) (w : World S)
      → IsTally t
      → Ensures (After session.session_id t) (along p (s, t) session (ok route) w)
  unfolding along
  matched-Adds s t session route w h = elim (Bool-cases (session_matches_route session route)) [
    | inl m ↦
        rw m (bind-Ensures (After session.session_id t) _ _ w λ _ v. unchanged-Adds s t session _ h)
    | inr m ↦ rw m (
        bind-Ensures (After session.session_id t) _ _ w λ _ v.
          bind-Ensures (After session.session_id t) _ _ v
            λ r u. after_migrate-Adds s t session route.path_kind r u h)
  ]

  along-Adds :
      (s : DaemonState F) (t : Tally) (session : SessionSnapshot)
      (r : Result DaemonStateError RoutePlan) (w : World S)
      → IsTally t
      → Ensures (After session.session_id t) (along p (s, t) session r w)
  unfolding along
  along-Adds s t session (ok route) w h = matched-Adds s t session route w h
  along-Adds s t session (err e) w h = go e
    where
      go :
          (e : DaemonStateError)
          → Ensures (After session.session_id t) (along p (s, t) session (err e) w)
      go (DaemonStateError.no_route q) = give_up-Adds s t session _ _ w h
      go _ = tt

  under_policy-Adds :
      (s : DaemonState F) (t : Tally) (session : SessionSnapshot) (protocol : ProtocolId)
      (w : World S)
      → IsTally t
      → Ensures (After session.session_id t) (under_policy p (s, t) session protocol w)
  unfolding under_policy
  under_policy-Adds s t session protocol w h =
      elim (Bool-cases (explain_policy p.crypto s session.peer protocol).allowed) [
        | inl a ↦ rw a (along-Adds s t session _ w h)
        | inr d ↦ rw d (
            bind-Ensures (After session.session_id t) _ _ w λ _ v.
              bind-Ensures (After session.session_id t) _ _ v λ _ u. closed-Adds s t session _ h)
      ]

  negotiated-Adds :
      (s : DaemonState F) (t : Tally) (session : SessionSnapshot) (protocol : Option ProtocolId)
      (w : World S)
      → IsTally t
      → Ensures (After session.session_id t) (negotiated p (s, t) session protocol w)
  unfolding negotiated
  negotiated-Adds s t session none w h = give_up-Adds s t session _ _ w h
  negotiated-Adds s t session (some protocol) w h = under_policy-Adds s t session protocol w h

  -- A transport in a state that its operations keep answers with the session of the id that it is
  -- asked for.
  pub record Answers (I : S → Type 0) : Type 0 where
    pub keeps : Keeps p (λ _. Unit {0}) I
    pub named :
        (id : Bytes) (r : S) (s : SessionSnapshot)
        → I r
        → p.transport.session_snapshot id r ≡ ok (some s)
        → s.session_id ≡ id

  module _ (I : S → Type 0) (answers : Answers I) where
    found-Adds :
        (s : DaemonState F) (t : Tally) (listed : SessionSnapshot) (w : World S)
        → I w.runtime
        → IsTally t
        → Ensures
            (After listed.session_id t)
            ((reads (p.transport.session_snapshot listed.session_id) >>= found p (s, t) listed) w)
    unfolding ◌>>=◌ found
    found-Adds s t listed w i h =
        elim (Result-cases (p.transport.session_snapshot listed.session_id w.runtime)) [
          | inr (e, r) ↦ rw (r, next) tt
          | inl (a, r) ↦ elim (Option-cases a) [
            | inl n ↦ rw (r ∙ ap ok n, next) (closed-Adds s t listed _ h)
            | inr (session, n) ↦
                rw (r ∙ ap ok n, next)
                  (subst
                    (λ id. Ensures (After id t) (negotiated p (s, t) session session.protocol w))
                    (answers.named listed.session_id w.runtime session i (r ∙ ap ok n))
                    (negotiated-Adds s t session session.protocol w h))
          ]
        ]

    pub reconcile_session-Adds :
        (s : DaemonState F) (t : Tally) (listed : SessionSnapshot) (w : World S)
        → I w.runtime
        → IsTally t
        → Ensures (After listed.session_id t) (reconcile_session p (s, t) listed w)
    unfolding reconcile_session
    reconcile_session-Adds s t listed w i h =
        kept-Ensures I (After listed.session_id t) _ _ w
          (mark-Preserves p (λ _. Unit {0}) I answers.keeps listed.session_id reconciling none _) i
          λ _ v j. found-Adds s t listed v j h
