-- ===== src/Fabric/Allowances.antt =====
-- When the daemon's state allows a protocol with a peer, in crates/fabric/src/lib.rs.
use quipnet.Base.{
  Bool, false, not, ◌&&◌, some, List, [], ◌∷◌, Bytes, ◌≡◌, refl, arith, ◌==◌, bytes_eq, any, keep,
  inl, inr, Option-cases, ◌∙◌,
}
use quipnet.Model.{PeerId, ProtocolId}
use quipnet.Crypto.{Primitives, derive}
use quipnet.Membership.{CapabilityGrant}
use quipnet.Control.{is_some}
use quipnet.Policy.{evaluate, skips, grants_capability, differs}
use quipnet.Fabric.State.{
  DaemonState, deny_reason, grants_for_peer, is_capability_revoked, protocol_capability,
}
use quipnet.Fabric.Policies.{explain_policy, explain_local_protocol_policy, local_rule}

-- A grant that lets the local peer use the protocol: it is the peer's, no revocation names it, and it
-- gives the protocol's capability in the protocol's scope.
abbrev pub enables : {F : Type 0} → DaemonState F → ProtocolId → CapabilityGrant → Bool
enables s protocol g =
    (g.subject_peer_id == s.local_peer_id)
    && (not (is_capability_revoked s g.subject_peer_id g.sequence)
        && grants_capability (protocol_capability protocol) protocol g)

any-keep {ℓ} :
    {A : Type ℓ} (p q : A → Bool) (xs : List A) → any q (keep p xs) ≡ any (λ x. p x && q x) xs
any-keep p q [] = refl
any-keep p q (x ∷ xs) = ground (arith, any-keep p q xs)

differs_self : (a : Bytes) → differs (some a) a ≡ false
differs_self a = ground arith

module _ (c : Primitives) {F : Type 0} where
  -- The rule matches exactly if a grant gives the capability.
  skips-local_rule :
      (s : DaemonState F) (protocol : ProtocolId) (grants : List CapabilityGrant)
      → skips (local_rule c s protocol) (derive c s.network) s.local_peer_id protocol grants
        ≡ not (any (grants_capability (protocol_capability protocol) protocol) grants)
  unfolding skips local_rule
  skips-local_rule s protocol grants = ground (
    arith,
    differs_self (derive c s.network),
    differs_self s.local_peer_id,
    differs_self protocol,
  )

  explain_local_lem :
      (s : DaemonState F) (protocol : ProtocolId)
      → (explain_local_protocol_policy c s protocol).allowed
        ≡ any
            (grants_capability (protocol_capability protocol) protocol)
            (grants_for_peer s s.local_peer_id)
  unfolding explain_local_protocol_policy evaluate
  explain_local_lem s protocol =
      ground (arith, skips-local_rule s protocol (grants_for_peer s s.local_peer_id))

  any-grants_for_peer :
      (s : DaemonState F) (q : CapabilityGrant → Bool)
      → any q (grants_for_peer s s.local_peer_id)
        ≡ any
            (λ g.
              (g.subject_peer_id == s.local_peer_id)
              && (not (is_capability_revoked s g.subject_peer_id g.sequence) && q g))
            s.capability_grants
  unfolding grants_for_peer
  any-grants_for_peer s q =
      any-keep (λ (g : CapabilityGrant). not (is_capability_revoked s g.subject_peer_id g.sequence))
        q (keep (λ (g : CapabilityGrant). g.subject_peer_id == s.local_peer_id) s.capability_grants)
      ∙ any-keep (λ (g : CapabilityGrant). g.subject_peer_id == s.local_peer_id) _
          s.capability_grants

  -- A protocol is allowed with a peer exactly when the peer is not denied and one of the grants of the
  -- local peer, which no revocation names, gives the protocol's capability in its scope.
  pub explain_policy_allows :
      (s : DaemonState F) (peer : PeerId) (protocol : ProtocolId)
      → (explain_policy c s peer protocol).allowed
        ≡ not (is_some (deny_reason s peer)) && any (enables s protocol) s.capability_grants
  unfolding explain_policy
  explain_policy_allows s peer protocol = elim (Option-cases (deny_reason s peer)) [
    | inl e ↦ ground (
      arith,
      e,
      explain_local_lem s protocol,
      any-grants_for_peer s (grants_capability (protocol_capability protocol) protocol),
    )
    | inr (reason, e) ↦ ground (arith, e)
  ]
