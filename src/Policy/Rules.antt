-- ===== src/Policy/Rules.antt =====
-- The first rule that applies decides, and without one the request is denied.
use quipnet.Base.{
  ◌≡◌, refl, ap, ◌⊎◌, inl, inr, true, false, Option, none, some, List, [], ◌∷◌, ◌++◌, Bytes, ◌==◌,
  All, bytes_eq, arith, Bool-cases, Memᴰ, any_sound, any_complete, subst, eq_of_==, ==_refl,
}
use quipnet.Model.{NetworkId, PeerId, ProtocolId}
use quipnet.Membership.{CapabilityGrant}
use quipnet.Policy.{
  PolicyRule, Decision, rule_matched, no_rule, is_allow, differs, grants_capability,
  lacks_capability, skips, evaluate,
}

abbrev Free : Option Bytes → Bytes → Type 0
Free o x = (o ≡ none) ⊎ (o ≡ some x)

-- Some grant lists both the capability and the protocol.
abbrev Granted : Bytes → ProtocolId → List CapabilityGrant → Type 0
Granted capability protocol grants =
    (g : CapabilityGrant) × Memᴰ g grants
    × Memᴰ capability g.capabilities
    × Memᴰ protocol g.protocol_scopes

-- What it means for a rule to apply to a request.
pub record Applies (r : PolicyRule) (network : NetworkId) (source : PeerId) (protocol : ProtocolId)
    (grants : List CapabilityGrant) : Type 0 where
  pub network_free : Free r.network_id network
  pub source_free : Free r.source_peer source
  pub protocol_free : Free r.protocol protocol
  pub capable :
      (r.required_capability ≡ none)
      ⊎ ((capability : Bytes) × (r.required_capability ≡ some capability)
          × Granted capability protocol grants)

Free-differs : (o : Option Bytes) (x : Bytes) → differs o x ≡ false → Free o x
Free-differs none x h = inl refl
Free-differs (some y) x h = inr (ground arith)

differs-Free : (o : Option Bytes) (x : Bytes) → Free o x → differs o x ≡ false
differs-Free none x h = refl
differs-Free (some y) x h = ground arith

grants_capability_sound :
    (c : Bytes) (p : ProtocolId) (g : CapabilityGrant)
    → grants_capability c p g ≡ true
    → Memᴰ c g.capabilities × Memᴰ p g.protocol_scopes
unfolding grants_capability
grants_capability_sound c p g h =
    let (x, m, e) = any_sound (λ x. x == c) g.capabilities (ground arith) in
    let (y, n, f) = any_sound (λ x. x == p) g.protocol_scopes (ground arith) in
    (
      subst (λ z. Memᴰ z g.capabilities) (eq_of_== x c e) m,
      subst (λ z. Memᴰ z g.protocol_scopes) (eq_of_== y p f) n,
    )

grants_capability_complete :
    (c : Bytes) (p : ProtocolId) (g : CapabilityGrant)
    → Memᴰ c g.capabilities
    → Memᴰ p g.protocol_scopes
    → grants_capability c p g ≡ true
unfolding grants_capability
grants_capability_complete c p g m n =
    ground
      (arith, any_complete (λ x. x == c) m (==_refl c), any_complete (λ x. x == p) n (==_refl p))

lacks_capability_sound :
    (o : Option Bytes) (p : ProtocolId) (gs : List CapabilityGrant)
    → lacks_capability o p gs ≡ false
    → (o ≡ none) ⊎ ((c : Bytes) × (o ≡ some c) × Granted c p gs)
unfolding lacks_capability
lacks_capability_sound none p gs h = inl refl
lacks_capability_sound (some c) p gs h =
    let (g, m, t) = any_sound (grants_capability c p) gs (ground arith) in
    let (k, l) = grants_capability_sound c p g t in inr (c, refl, (g, m, k, l))

lacks_capability_complete :
    (o : Option Bytes) (p : ProtocolId) (gs : List CapabilityGrant)
    → (o ≡ none) ⊎ ((c : Bytes) × (o ≡ some c) × Granted c p gs)
    → lacks_capability o p gs ≡ false
unfolding lacks_capability
lacks_capability_complete none p gs h = refl
lacks_capability_complete (some c) p gs (inl e) = cc
lacks_capability_complete (some c) p gs (inr (d, e, (g, m, k, l))) =
    ground (arith, any_complete (grants_capability d p) m (grants_capability_complete d p g k l))

module _ (network : NetworkId) (source : PeerId) (protocol : ProtocolId)
    (grants : List CapabilityGrant) where
  abbrev Fits : PolicyRule → Type 0
  Fits r = Applies r network source protocol grants

  Applies-skips : (r : PolicyRule) → skips r network source protocol grants ≡ false → Fits r
  unfolding skips
  Applies-skips r h = record {
    network_free = Free-differs r.network_id network (ground arith);
    source_free = Free-differs r.source_peer source (ground arith);
    protocol_free = Free-differs r.protocol protocol (ground arith);
    capable = lacks_capability_sound r.required_capability protocol grants (ground arith);
  }

  skips-Applies : (r : PolicyRule) → Fits r → skips r network source protocol grants ≡ false
  unfolding skips
  skips-Applies r a = ground (
    arith,
    differs-Free r.network_id network a.network_free,
    differs-Free r.source_peer source a.source_free,
    differs-Free r.protocol protocol a.protocol_free,
    lacks_capability_complete r.required_capability protocol grants a.capable,
  )

  -- What the decision on a list of rules has to be.
  pub data Verdict (rules : List PolicyRule) : Decision → Type 0 where
    by_rule :
        (pre : List PolicyRule) (r : PolicyRule) (post : List PolicyRule)
        → rules ≡ pre ++ r ∷ post
        → All (λ s. ¬ Fits s) pre
        → Fits r
        → Verdict rules
            (record { allowed = is_allow r.effect; reason = rule_matched r.effect protocol })
    by_default :
        All (λ s. ¬ Fits s) rules
        → Verdict rules (record { allowed = false; reason = no_rule protocol })

  Verdict-cons :
      (r : PolicyRule) (rules : List PolicyRule) {d : Decision}
      → ¬ Fits r
      → Verdict rules d
      → Verdict (r ∷ rules) d
  Verdict-cons r rules n (by_rule pre s post e h a) =
      by_rule (r ∷ pre) s post (ap (◌∷◌ r) e) (n, h) a
  Verdict-cons r rules n (by_default h) = by_default (n, h)

  -- A request is decided by the effect of the first rule that applies to it: one whose network,
  -- source and protocol are absent or those of the request, and whose capability, if it asks for
  -- one, some grant lists together with the protocol. If no rule applies, it is denied.
  pub evaluate-Verdict :
      (rules : List PolicyRule) → Verdict rules (evaluate rules network source protocol grants)
  unfolding evaluate
  evaluate-Verdict [] = by_default tt
  evaluate-Verdict (r ∷ rules) = elim (Bool-cases (skips r network source protocol grants)) [
    | inl s ↦ rw s (Verdict-cons r rules (λ a. cc (skips-Applies r a)) (evaluate-Verdict rules))
    | inr s ↦ rw s (by_rule [] r rules refl tt (Applies-skips r s))
  ]
