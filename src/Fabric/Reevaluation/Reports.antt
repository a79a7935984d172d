-- ===== src/Fabric/Reevaluation/Reports.antt =====
-- The report of a reevaluation in crates/fabric/src/lib.rs, what a policy enforces on a session, and the
-- texts of the reasons.
use quipnet.Base.{
  ℕ, suc, Bool, true, false, ◌&&◌, Option, none, some, List, Bytes, text, ◌==◌, bytes_eq, option_eq,
  Eq, any,
}
use quipnet.Model.{ProtocolId}
use quipnet.Control.{is_some}
use quipnet.Routing.{class_eq}
use quipnet.Transport.{SessionSnapshot, RuntimeSessionState, Value, null, str, ReconnectSuppression}
use quipnet.Fabric.Policies.{
  AuthorityPolicyCause, subject_mismatch, local_membership_denied, peer_membership_denied,
  capability_denied,
}
use quipnet.Fabric.Runtime.{listener_state_eq}

pub record AuthorityReevaluationReport : Type 0 where
  pub reevaluated_sessions : ℕ
  pub closed_sessions : ℕ
  pub degraded_sessions : ℕ
  pub migrated_sessions : ℕ
  pub unchanged_sessions : ℕ
  pub reevaluated_listeners : ℕ
  pub suppressed_listeners : ℕ
  pub restored_listeners : ℕ
  pub reconnect_suppressions_added : ℕ
  pub reconnect_suppressions_cleared : ℕ
  pub local_policy_denied : Bool
  pub authority_subject_mismatch : Bool
  pub subject_mismatch_sessions : ℕ
  pub local_membership_denied_sessions : ℕ
  pub peer_membership_denied_sessions : ℕ
  pub capability_denied_sessions : ℕ
  pub local_policy_reason : Option Bytes

-- The report before the loops.
unfoldable pub blank_report : Bool → Option Bytes → AuthorityReevaluationReport
blank_report mismatch local = record {
  reevaluated_sessions = 0;
  closed_sessions = 0;
  degraded_sessions = 0;
  migrated_sessions = 0;
  unchanged_sessions = 0;
  reevaluated_listeners = 0;
  suppressed_listeners = 0;
  restored_listeners = 0;
  reconnect_suppressions_added = 0;
  reconnect_suppressions_cleared = 0;
  local_policy_denied = is_some local;
  authority_subject_mismatch = mismatch;
  subject_mismatch_sessions = 0;
  local_membership_denied_sessions = 0;
  peer_membership_denied_sessions = 0;
  capability_denied_sessions = 0;
  local_policy_reason = local;
}

-- `AuthorityPolicyEnforcement`.
pub record Enforcement : Type 0 where
  pub cause : AuthorityPolicyCause
  pub reason : Bytes

abbrev pub one_if : Bool → ℕ → ℕ
one_if true n = suc n
one_if false n = n

unfoldable pub count_cause :
    AuthorityPolicyCause → AuthorityReevaluationReport → AuthorityReevaluationReport
count_cause subject_mismatch r = record r {
  subject_mismatch_sessions = suc r.subject_mismatch_sessions;
}
count_cause local_membership_denied r = record r {
  local_membership_denied_sessions = suc r.local_membership_denied_sessions;
}
count_cause peer_membership_denied r = record r {
  peer_membership_denied_sessions = suc r.peer_membership_denied_sessions;
}
count_cause capability_denied r = record r {
  capability_denied_sessions = suc r.capability_denied_sessions;
}

abbrev pub opt_text : Option Bytes → Value
opt_text none = null
opt_text (some s) = str s

-- Reconnects of the session's target are suppressed.
unfoldable pub is_suppressed : SessionSnapshot → ProtocolId → List ReconnectSuppression → Bool
is_suppressed session protocol suppressions =
    any
      (λ (e : ReconnectSuppression).
        (e.peer == session.peer) && ((e.protocol == some protocol) && (e.class == session.class)))
      suppressions

abbrev pub other_path : Bytes
other_path = text "authority reevaluation selected a different eligible path"

abbrev pub stuck_path : Bytes
stuck_path =
    text
      "authority reevaluation selected a different eligible path but the active session cannot migrate"

abbrev pub no_path : Bytes
no_path =
    text
      "authority reevaluation found no eligible replacement path; keeping the current session alive in degraded posture"

abbrev pub Report : Type 0
Report = AuthorityReevaluationReport

pub RuntimeSessionState-discrete : Discrete RuntimeSessionState
RuntimeSessionState-discrete = hlevel

instance abbrev pub session_state_eq : Eq RuntimeSessionState
session_state_eq = record { dec = RuntimeSessionState-discrete }
