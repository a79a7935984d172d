-- ===== src/Control/Snapshots.antt =====
-- `merge_snapshot`: what a merge keeps, what it refuses, and a merge of what is held already.
use quipnet.Base.{
  suc, ◌≡◌, ◌≢◌, refl, ap, subst, ◌∙◌, sym, inl, inr, Bool, true, false, some, List, [], ◌∷◌, ◌++◌,
  ok, err, any, find, length, All, Memᴰ, arith, Bool-cases, bytes_eq, nat_eq,
}
use mathlib.Core.List.{append-nil, append_assoc}
use quipnet.Model.{NetworkId}
use quipnet.Membership.{CapabilityGrant, RevocationRecord}
use quipnet.Control.Merge.{
  grant_conflict, AuthorityArtifactSnapshot, SnapshotDelta, same_grant, same_revocation,
  check_grants, merge_revocations, sync_authority_snapshot, merge_snapshot, grant_eq, target_eq,
  certificate_eq,
}

pub same_revocation_refl : (r : RevocationRecord) → same_revocation r r ≡ true
unfolding same_revocation
same_revocation_refl r = ground arith

any-append_left {ℓ} :
    {A : Type ℓ} (p : A → Bool) (xs ys : List A) → any p xs ≡ true → any p (xs ++ ys) ≡ true
any-append_left p [] ys h = cc
any-append_left p (x ∷ xs) ys h = ground (arith, any-append_left p xs ys)

any-append_right {ℓ} :
    {A : Type ℓ} (p : A → Bool) (xs ys : List A) → any p ys ≡ true → any p (xs ++ ys) ≡ true
any-append_right p [] ys h = h
any-append_right p (x ∷ xs) ys h = ground (arith, any-append_right p xs ys h)

-- Some revocation of the list is the same as `r`.
abbrev pub Revokes : List RevocationRecord → RevocationRecord → Type 0
Revokes held r = any (λ e. same_revocation e r) held ≡ true

-- The list grows at its end by the number that is reported, and covers what came in.
merge_revocations-grows :
    (incoming held : List RevocationRecord)
    → (extra : List RevocationRecord) × ((merge_revocations held incoming).0 ≡ held ++ extra)
      × ((merge_revocations held incoming).1 ≡ length extra)
unfolding merge_revocations
merge_revocations-grows [] held = ([], sym (append-nil held), refl)
merge_revocations-grows (r ∷ incoming) held =
    elim (Bool-cases (any (λ e. same_revocation e r) held)) [
      | inl known ↦ rw known (merge_revocations-grows incoming held)
      | inr fresh ↦
          let (extra, e, n) = merge_revocations-grows incoming (held ++ r ∷ []) in
          rw fresh (r ∷ extra, e ∙ append_assoc held (r ∷ []) extra, ap suc n)
    ]

merge_revocations-keeps :
    (incoming held : List RevocationRecord) (r : RevocationRecord)
    → Revokes held r
    → Revokes (merge_revocations held incoming).0 r
merge_revocations-keeps incoming held r h =
    let (extra, e, _) = merge_revocations-grows incoming held in
    rw e (any-append_left (λ x. same_revocation x r) held extra h)

merge_revocations_known :
    (r : RevocationRecord) (incoming held : List RevocationRecord)
    → Revokes held r
    → (merge_revocations held (r ∷ incoming)).0 ≡ (merge_revocations held incoming).0
unfolding merge_revocations
merge_revocations_known r incoming held known = rw known refl

merge_revocations_fresh :
    (r : RevocationRecord) (incoming held : List RevocationRecord)
    → any (λ e. same_revocation e r) held ≡ false
    → (merge_revocations held (r ∷ incoming)).0 ≡ (merge_revocations (held ++ r ∷ []) incoming).0
unfolding merge_revocations
merge_revocations_fresh r incoming held fresh = rw fresh refl

merge_revocations-covers :
    (incoming held : List RevocationRecord)
    → All (Revokes (merge_revocations held incoming).0) incoming
merge_revocations-covers [] held = tt
merge_revocations-covers (r ∷ incoming) held =
    elim (Bool-cases (any (λ e. same_revocation e r) held)) [
      | inl known ↦
          subst (λ l. All (Revokes l) (r ∷ incoming))
            (sym (merge_revocations_known r incoming held known))
            (merge_revocations-keeps incoming held r known, merge_revocations-covers incoming held)
      | inr fresh ↦
          subst (λ l. All (Revokes l) (r ∷ incoming))
            (sym (merge_revocations_fresh r incoming held fresh))
            (
              merge_revocations-keeps incoming (held ++ r ∷ []) r (
                  any-append_right (λ x. same_revocation x r) held (r ∷ [])
                    (ground (arith, same_revocation_refl r))),
              merge_revocations-covers incoming (held ++ r ∷ []),
            )
    ]

-- A merge into a held snapshot only adds revocations, at the end and as many as it reports, and then
-- covers every incoming one; grants and hints are replaced by the incoming ones.
pub merge_snapshot_revocations :
    (network : NetworkId) (current incoming s : AuthorityArtifactSnapshot) (d : SnapshotDelta)
    → merge_snapshot network (some current) incoming ≡ ok (s, d)
    → ((extra : List RevocationRecord) × (s.revocations ≡ current.revocations ++ extra)
        × (d.revocations_added ≡ length extra))
      × All (Revokes s.revocations) incoming.revocations
      × (s.capability_grants ≡ incoming.capability_grants)
      × (s.bootstrap_hints ≡ incoming.bootstrap_hints)
unfolding merge_snapshot sync_authority_snapshot
merge_snapshot_revocations network current incoming s d h =
    let e : s.revocations ≡ (merge_revocations current.revocations incoming.revocations).0 =
      ground arith in
    let (extra, grown, n) = merge_revocations-grows incoming.revocations current.revocations in
    (
      (extra, e ∙ grown, ground (arith, n)),
      subst (λ l. All (Revokes l) incoming.revocations) (sym e)
          (merge_revocations-covers incoming.revocations current.revocations),
      ground arith,
      ground arith,
    )

-- A grant with the identity of a held one is refused unless it equals the first such.
pub check_grants_conflict :
    (current incoming : List CapabilityGrant) (g e : CapabilityGrant)
    → Memᴰ g incoming
    → find (λ e. same_grant e g) current ≡ some e
    → e ≢ g
    → check_grants current incoming ≡ err grant_conflict
unfolding check_grants
check_grants_conflict current [] g e m f n = elim m [ ]
check_grants_conflict current (x ∷ incoming) g e (Memᴰ.head p) f n =
    ground (arith, ap (λ y. find (λ e. same_grant e y) current) p)
check_grants_conflict current (x ∷ incoming) g e (Memᴰ.tail m) f n =
    ground (arith, check_grants_conflict current incoming g e m f n)
