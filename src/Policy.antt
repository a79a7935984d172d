-- ===== src/Policy.antt =====
-- crates/policy/src/lib.rs: the rule engine. The reason of a decision is its format string with
-- the arguments.
pub mod Rules
use quipnet.Base.{
  Bool, true, false, not, ◌&&◌, ◌||◌, Option, none, some, List, [], ◌∷◌, ◌++◌, Bytes, text, ◌==◌,
  ◌!=◌, if◌then◌else◌, any, bytes_eq,
}
use quipnet.Model.{NetworkId, PeerId, ProtocolId}
use quipnet.Membership.{CapabilityGrant}

pub data Effect : Type 0 where
  allow deny : Effect

pub record PolicyRule : Type 0 where
  pub effect : Effect
  pub network_id : Option NetworkId
  pub protocol : Option ProtocolId
  pub source_peer : Option PeerId
  pub required_capability : Option Bytes

pub data Reason : Type 0 where
  rule_matched : Effect → ProtocolId → Reason
  no_rule : ProtocolId → Reason

pub record Decision : Type 0 where
  pub allowed : Bool
  pub reason : Reason

abbrev effect_debug : Effect → Bytes
effect_debug allow = text "Allow"
effect_debug deny = text "Deny"

-- The formatted reason.
unfoldable pub reason_text : Reason → Bytes
reason_text (rule_matched effect protocol) =
    effect_debug effect ++ (text " rule matched for " ++ protocol)
reason_text (no_rule protocol) = text "no matching policy rule for " ++ protocol

abbrev pub is_allow : Effect → Bool
is_allow allow = true
is_allow deny = false

-- `option.as_ref().is_some_and(|x| x != y)`.
abbrev pub differs : Option Bytes → Bytes → Bool
differs none y = false
differs (some x) y = x != y

-- A grant gives the capability for the protocol.
unfoldable pub grants_capability : Bytes → ProtocolId → CapabilityGrant → Bool
grants_capability capability protocol g =
    any (λ existing. existing == capability) g.capabilities
    && any (λ scope. scope == protocol) g.protocol_scopes

lacks_capability : Option Bytes → ProtocolId → List CapabilityGrant → Bool
lacks_capability none protocol grants = false
lacks_capability (some capability) protocol grants =
    not (any (grants_capability capability protocol) grants)

-- The rule is passed over: the four `continue`s of the loop.
unfoldable pub skips : PolicyRule → NetworkId → PeerId → ProtocolId → List CapabilityGrant → Bool
unfolding lacks_capability
skips r network source protocol grants =
    differs r.network_id network
    || differs r.source_peer source
    || differs r.protocol protocol
    || lacks_capability r.required_capability protocol grants

-- `PolicyEngine::evaluate`, on the rules of the engine.
unfoldable pub evaluate :
    List PolicyRule → NetworkId → PeerId → ProtocolId → List CapabilityGrant → Decision
evaluate [] network source protocol grants = record { allowed = false; reason = no_rule protocol }
evaluate (r ∷ rules) network source protocol grants =
    if skips r network source protocol grants
    then evaluate rules network source protocol grants
    else record { allowed = is_allow r.effect; reason = rule_matched r.effect protocol }
