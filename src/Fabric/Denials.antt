-- ===== src/Fabric/Denials.antt =====
-- Whom the daemon's state denies after revocations arrive, in crates/fabric/src/lib.rs.
use quipnet.Base.{
  Bool, true, false, ◌&&◌, ◌||◌, Option, none, some, List, [], ◌∷◌, ◌++◌, ◌≡◌, refl, arith, ◌==◌,
  bytes_eq, nat_eq, any, find, inl, inr, Bool-cases, Option-cases, ap, ◌∙◌,
}
use quipnet.Model.{PeerId}
use quipnet.Crypto.{Primitives}
use quipnet.Membership.{
  MembershipCertificate, RevocationRecord, RevocationTarget, peer, membership_certificate,
  enrollment_token, capability_grant,
}
use quipnet.Control.{is_some, same_revocation, merge_revocations}
use quipnet.Fabric.State.{DaemonState, DeniedPeer, deny_reason}
use quipnet.Fabric.Authority.{denied_by, denied_peers, apply_revocations}

-- A target denies a peer: it names the peer, or it names the certificate in use, which is the peer's.
abbrev pub target_denies : MembershipCertificate → PeerId → RevocationTarget → Bool
target_denies m p (peer q) = q == p
target_denies m p (membership_certificate q issued_at) =
    (q == p) && ((q == m.subject_peer_id) && (issued_at == m.issued_at))
target_denies m p _ = false

abbrev pub denies : MembershipCertificate → PeerId → RevocationRecord → Bool
denies m p r = target_denies m p r.target

module _ (c : Primitives) where
  abbrev names : PeerId → Option DeniedPeer → Bool
  names p none = false
  names p (some d) = d.peer == p

  denied_by-names :
      (m : MembershipCertificate) (p : PeerId) (r : RevocationRecord) (t : RevocationTarget)
      → names p (denied_by c m r t) ≡ target_denies m p t
  unfolding denied_by
  denied_by-names m p r (peer q) = refl
  denied_by-names m p r (membership_certificate q issued_at) = ground arith
  denied_by-names m p r (enrollment_token i) = refl
  denied_by-names m p r (capability_grant q n) = refl

  abbrev push : Option DeniedPeer → List DeniedPeer → List DeniedPeer
  push none rest = rest
  push (some d) rest = d ∷ rest

  any-denied_peers :
      (m : MembershipCertificate) (p : PeerId) (rs : List RevocationRecord)
      → any (λ (d : DeniedPeer). d.peer == p) (denied_peers c m rs) ≡ any (denies m p) rs
  unfolding denied_peers
  any-denied_peers m p [] = refl
  any-denied_peers m p (r ∷ rs) = elim (Option-cases (denied_by c m r r.target)) [
    | inl e ↦ ground (arith, e, denied_by-names m p r r.target, any-denied_peers m p rs)
    | inr (d, e) ↦ ground (arith, e, denied_by-names m p r r.target, any-denied_peers m p rs)
  ]

pub is_some-find {ℓ} : {A : Type ℓ} (q : A → Bool) (xs : List A) → is_some (find q xs) ≡ any q xs
is_some-find q [] = refl
is_some-find q (x ∷ xs) = ground (arith, is_some-find q xs)

deny_reason-any :
    {F : Type 0} (s : DaemonState F) (p : PeerId)
    → is_some (deny_reason s p) ≡ any (λ (d : DeniedPeer). d.peer == p) s.denied_peers
unfolding deny_reason
deny_reason-any s p = elim (Option-cases (find (λ (d : DeniedPeer). d.peer == p) s.denied_peers)) [
  | inl e ↦ ground (arith, e, is_some-find (λ (d : DeniedPeer). d.peer == p) s.denied_peers)
  | inr (d, e) ↦ ground (arith, e, is_some-find (λ (d : DeniedPeer). d.peer == p) s.denied_peers)
]

pub any-append {ℓ} :
    {A : Type ℓ} (q : A → Bool) (xs ys : List A) → any q (xs ++ ys) ≡ any q xs || any q ys
any-append q [] ys = refl
any-append q (x ∷ xs) ys = ground (arith, any-append q xs ys)

same_target :
    (m : MembershipCertificate) (p : PeerId) (e r : RevocationRecord)
    → same_revocation e r ≡ true
    → denies m p e ≡ denies m p r
unfolding same_revocation
same_target m p e r h = let t : e.target ≡ r.target = ground arith in ap (target_denies m p) t

-- A revocation of which the same is held denies nobody more.
held_denies :
    (m : MembershipCertificate) (p : PeerId) (r : RevocationRecord) (held : List RevocationRecord)
    → any (λ e. same_revocation e r) held ≡ true
    → any (denies m p) held || denies m p r ≡ any (denies m p) held
held_denies m p r [] h = cc
held_denies m p r (e ∷ held) h = elim (Bool-cases (same_revocation e r)) [
  | inl s ↦ ground (arith, same_target m p e r s)
  | inr d ↦ ground (arith, held_denies m p r held)
]

any-merge_revocations :
    (m : MembershipCertificate) (p : PeerId) (held incoming : List RevocationRecord)
    → any (denies m p) (merge_revocations held incoming).0
      ≡ any (denies m p) held || any (denies m p) incoming
unfolding merge_revocations
any-merge_revocations m p held [] = ground arith
any-merge_revocations m p held (r ∷ incoming) =
    elim (Bool-cases (any (λ e. same_revocation e r) held)) [
      | inl s ↦ ground (arith, s, any-merge_revocations m p held incoming, held_denies m p r held s)
      | inr n ↦ ground (
        arith,
        n,
        any-merge_revocations m p (held ++ r ∷ []) incoming,
        any-append (denies m p) held (r ∷ []),
      )
    ]

-- After revocations are applied, the state gives a reason to deny a peer exactly when one that was held
-- or has arrived names the peer, or the peer's certificate that is in use.
pub apply_revocations-denies :
    (c : Primitives) {F : Type 0} (s : DaemonState F) (incoming : List RevocationRecord)
    (p : PeerId)
    → is_some (deny_reason (apply_revocations c s incoming).0 p)
      ≡ any (denies s.membership p) s.revocations || any (denies s.membership p) incoming
unfolding apply_revocations
apply_revocations-denies c s incoming p =
    deny_reason-any (apply_revocations c s incoming).0 p
    ∙ (any-denied_peers c s.membership p (merge_revocations s.revocations incoming).0
        ∙ any-merge_revocations s.membership p s.revocations incoming)
