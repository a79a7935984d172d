-- ===== src/Fabric/Cycles/Reports.antt =====
-- The report of `reconcile_sessions` of crates/fabric/src/lib.rs against the entries that it lists.
use quipnet.Base.{
  ℕ, suc, ◌+◌, List, [], ◌∷◌, ◌≡◌, refl, arith, ◌==◌, length, ap, ◌∙◌, sym, if◌then◌else◌,
}
use quipnet.Transport.{SessionSnapshot}
use quipnet.Fabric.Sessions.{
  SessionReconcileDisposition, unchanged, upgraded, closed, SessionReconcileEntry,
  SessionReconcileReport, Tally,
}
use quipnet.Fabric.Cycles.Rounds.{disposition_eq, dispositions, ids, listed_ids, IsTally}

-- The report of a cycle over the sessions that the transport listed.
pub record Counts (sessions : List SessionSnapshot) (r : SessionReconcileReport) : Type 0 where
  pub names : ids r.entries ≡ listed_ids sessions
  pub all : r.examined ≡ length sessions
  pub parts : r.unchanged + r.upgraded + r.closed ≡ r.examined
  pub same : dispositions unchanged r.entries ≡ r.unchanged
  pub moved : dispositions upgraded r.entries ≡ r.upgraded
  pub gone : dispositions closed r.entries ≡ r.closed

length-ids : (es : List SessionReconcileEntry) → length (ids es) ≡ length es
length-ids [] = refl
length-ids (e ∷ es) = ap suc (length-ids es)

length-listed_ids : (ss : List SessionSnapshot) → length (listed_ids ss) ≡ length ss
length-listed_ids [] = refl
length-listed_ids (s ∷ ss) = ap suc (length-listed_ids ss)

one_disposition :
    (d : SessionReconcileDisposition) (a b g : ℕ)
    → (if d == unchanged then suc a else a)
        + (if d == upgraded then suc b else b)
        + (if d == closed then suc g else g)
      ≡ suc (a + b + g)
one_disposition unchanged a b g = ground arith
one_disposition upgraded a b g = ground arith
one_disposition closed a b g = ground arith

every_disposition :
    (es : List SessionReconcileEntry)
    → dispositions unchanged es + dispositions upgraded es + dispositions closed es ≡ length es
every_disposition [] = refl
every_disposition (e ∷ es) = one_disposition e.disposition _ _ _ ∙ ap suc (every_disposition es)

abbrev pub report_of : Tally → SessionReconcileReport
report_of t = record {
  examined = length t.entries;
  unchanged = t.unchanged;
  upgraded = t.upgraded;
  closed = t.closed;
  entries = t.entries;
}

pub report-Counts :
    (sessions : List SessionSnapshot) (t : Tally)
    → IsTally t
    → ids t.entries ≡ listed_ids sessions
    → Counts sessions (report_of t)
report-Counts sessions t h n = record {
  names = n;
  all = sym (length-ids t.entries) ∙ (ap length n ∙ length-listed_ids sessions);
  parts = omega (arith, every_disposition t.entries, h.same, h.moved, h.gone);
  same = h.same;
  moved = h.moved;
  gone = h.gone;
}
