-- ===== src/Fabric/Policies.antt =====
-- What the daemon's state in crates/fabric/src/lib.rs allows: denied peers, the local grants, and the
-- rule that the policy engine evaluates.
use quipnet.Base.{
  Bool, true, false, ◌||◌, none, some, List, [], ◌∷◌, ◌++◌, Bytes, text, decimal, length,
  if◌then◌else◌,
}
use quipnet.Model.{PeerId, ProtocolId}
use quipnet.Crypto.{Primitives, derive}
use quipnet.PeerText.{str_contains}
use quipnet.Membership.{CapabilityGrant}
use quipnet.Control.{is_some}
use quipnet.Policy.{PolicyRule, Reason, allow, evaluate, reason_text}
use quipnet.Policy
use quipnet.Fabric.State.{DaemonState, deny_reason, grants_for_peer, protocol_capability}

-- The decision with its formatted reason.
pub record Decision : Type 0 where
  pub allowed : Bool
  pub reason : Bytes

-- The last chain of tests, on the engine's decision and the grants.
conclude : ProtocolId → List CapabilityGrant → Policy.Decision → Decision
conclude protocol grants decision =
    if decision.allowed
    then record {
      allowed = true;
      reason =
          reason_text decision.reason
          ++ (text " using " ++ (decimal (length grants) ++ text " active grant(s)"));
    }
    else elim grants [
      | [] ↦ record {
        allowed = false;
        reason = text "no active capability grants for " ++ protocol;
      }
      | _ ∷ _ ↦ record { allowed = false; reason = reason_text decision.reason }
    ]

module _ (c : Primitives) {F : Type 0} where
  -- The single rule of the engine.
  unfoldable pub local_rule : DaemonState F → ProtocolId → PolicyRule
  local_rule s protocol = record {
    effect = allow;
    network_id = some (derive c s.network);
    protocol = some protocol;
    source_peer = some s.local_peer_id;
    required_capability = some (protocol_capability protocol);
  }

  unfoldable pub explain_local_protocol_policy : DaemonState F → ProtocolId → Decision
  unfolding conclude local_rule
  explain_local_protocol_policy s protocol =
      let grants = grants_for_peer s s.local_peer_id in
      conclude protocol grants
        (evaluate (local_rule s protocol ∷ []) (derive c s.network) s.local_peer_id protocol grants)

  unfoldable pub explain_policy : DaemonState F → PeerId → ProtocolId → Decision
  explain_policy s peer protocol = elim (deny_reason s peer) [
    | some reason ↦ record { allowed = false; reason = reason }
    | none ↦ explain_local_protocol_policy s protocol
  ]

-- `AuthorityPolicyCause`.
pub data AuthorityPolicyCause : Type 0 where
  subject_mismatch local_membership_denied peer_membership_denied capability_denied :
      AuthorityPolicyCause

abbrev pub cause_label : AuthorityPolicyCause → Bytes
cause_label subject_mismatch = text "subject_mismatch"
cause_label local_membership_denied = text "local_membership_denied"
cause_label peer_membership_denied = text "peer_membership_denied"
cause_label capability_denied = text "capability_denied"

-- `if_subject_mismatch` with its `unwrap_or`.
abbrev pub local_cause : Bool → AuthorityPolicyCause
local_cause true = subject_mismatch
local_cause false = local_membership_denied

unfoldable pub classify_remote_policy_cause :
    {F : Type 0} → DaemonState F → PeerId → Bytes → AuthorityPolicyCause
classify_remote_policy_cause s peer reason =
    if is_some (deny_reason s peer)
      || (str_contains (text "revoked") reason || str_contains (text "denied") reason)
    then peer_membership_denied
    else capability_denied
