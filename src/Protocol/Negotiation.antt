-- ===== src/Protocol/Negotiation.antt =====
-- What a negotiation agrees on.
use quipnet.Base.{
  ℕ, ◌≤◌, ◌≡◌, refl, sym, ap, ◌∙◌, ◌⊎◌, inl, inr, none, some, List, [], ◌∷◌, ok, max, Memᴰ, All,
  arith, nat_eq, bytes_eq, Option-cases, Result, err, Bytes, Eq, ◌==◌, eq_of_==, ==_refl, any, keep,
  any_sound, any_complete, keep_sound, keep_complete, All-mem, ◌++◌, subst,
}
use mathlib.Core.List.Memᴰ
use quipnet.Base.Maps.{get}
use quipnet.Protocol.{
  ProtocolError, unregistered, no_compatible_version, ProtocolDescriptor, NegotiatedProtocol,
  ProtocolRegistry, common_versions, maximum, negotiate_offer, negotiate,
}

-- The agreement on one offer: the highest of the versions that stand in the local descriptor of the
-- same id and in the offer, and exactly the features that are optional in both.
pub record Agrees (protocols : ProtocolRegistry) (offer : ProtocolDescriptor)
    (n : NegotiatedProtocol) : Type 0 where
  pub local : ProtocolDescriptor
  pub registered : get offer.id protocols ≡ some local
  pub same_id : n.id ≡ offer.id
  pub ours : Memᴰ n.version local.compatible_versions
  pub theirs : Memᴰ n.version offer.compatible_versions
  pub highest :
      (v : ℕ) → Memᴰ v local.compatible_versions → Memᴰ v offer.compatible_versions → v ≤ n.version
  pub features_common :
      (f : Bytes)
      → Memᴰ f n.enabled_features
      → Memᴰ f local.optional_features × Memᴰ f offer.optional_features
  pub features_all :
      (f : Bytes)
      → Memᴰ f local.optional_features
      → Memᴰ f offer.optional_features
      → Memᴰ f n.enabled_features

-- Every offer is agreed on, in order.
pub data AgreesOnAll (protocols : ProtocolRegistry)
    : List ProtocolDescriptor → List NegotiatedProtocol → Type 0 where
  none_left : AgreesOnAll protocols [] []
  agreed :
      {offer : ProtocolDescriptor} {offers : List ProtocolDescriptor} {n : NegotiatedProtocol}
      {ns : List NegotiatedProtocol}
      → Agrees protocols offer n
      → AgreesOnAll protocols offers ns
      → AgreesOnAll protocols (offer ∷ offers) (n ∷ ns)

-- Why one offer is refused.
pub data Refuses (protocols : ProtocolRegistry) (offer : ProtocolDescriptor)
    : ProtocolError → Type 0 where
  unknown : get offer.id protocols ≡ none → Refuses protocols offer (unregistered offer.id)
  disjoint :
      (local : ProtocolDescriptor)
      → get offer.id protocols ≡ some local
      → ((v : ℕ) → Memᴰ v local.compatible_versions → ¬ Memᴰ v offer.compatible_versions)
      → Refuses protocols offer (no_compatible_version offer.id)

-- The result for one offer.
data Settles (protocols : ProtocolRegistry) (offer : ProtocolDescriptor)
    : Result ProtocolError NegotiatedProtocol → Type 0 where
  accepted : {n : NegotiatedProtocol} → Agrees protocols offer n → Settles protocols offer (ok n)
  declined : {e : ProtocolError} → Refuses protocols offer e → Settles protocols offer (err e)

-- The result for all offers: an agreement on each, or the refusal of the first on which there is none.
pub data SettlesAll (protocols : ProtocolRegistry)
    : List ProtocolDescriptor → Result ProtocolError (List NegotiatedProtocol) → Type 0 where
  all_agreed :
      {offers : List ProtocolDescriptor} {ns : List NegotiatedProtocol}
      → AgreesOnAll protocols offers ns
      → SettlesAll protocols offers (ok ns)
  refused_at :
      {offers : List ProtocolDescriptor} (before : List ProtocolDescriptor)
      (offer : ProtocolDescriptor) (after : List ProtocolDescriptor) {ns : List NegotiatedProtocol}
      {e : ProtocolError}
      → offers ≡ before ++ offer ∷ after
      → AgreesOnAll protocols before ns
      → Refuses protocols offer e
      → SettlesAll protocols offers (err e)

All-le : (m n : ℕ) (l : List ℕ) → m ≤ n → All (λ v. v ≤ m) l → All (λ v. v ≤ n) l
All-le m n [] h a = tt
All-le m n (x ∷ l) h a = (omega arith, All-le m n l h a.1)

maximum-none : (l : List ℕ) → maximum l ≡ none → l ≡ []
unfolding maximum
maximum-none [] h = refl
maximum-none (n ∷ l) h = elim (Option-cases (maximum l)) [
  | inl e ↦ ground arith
  | inr (m, e) ↦ ground arith
]

max_cases : (n m : ℕ) → ((max n m ≡ n) × (m ≤ n)) ⊎ ((max n m ≡ m) × (n ≤ m))
max_cases n m = ground arith

maximum_lem : (l : List ℕ) (v : ℕ) → maximum l ≡ some v → Memᴰ v l × All (λ w. w ≤ v) l
unfolding maximum
maximum_lem [] v h = cc
maximum_lem (n ∷ l) v h = elim (Option-cases (maximum l)) [
  | inl e ↦ let k : v ≡ n = ground arith in (Memᴰ.head k, (omega arith, rw (maximum-none l e) tt))
  | inr (m, e) ↦
      let (there, least) = maximum_lem l m e in
      let k : v ≡ max n m = ground arith in
      elim (max_cases n m) [
        | inl (c, le) ↦ (Memᴰ.head (k ∙ c), (omega arith, All-le m v l (omega arith) least))
        | inr (c, le) ↦ (
          Memᴰ.tail (subst (λ u. Memᴰ u l) (sym (k ∙ c)) there),
          (omega arith, All-le m v l (omega arith) least),
        )
      ]
]

module _ {A : Type 0} ⦃e : Eq A⦄ where
  -- The intersection of two sets that are lists.
  common_sound :
      (xs ys : List A) (x : A)
      → Memᴰ x (keep (λ v. any (λ w. w == v) ys) xs)
      → Memᴰ x xs × Memᴰ x ys
  common_sound xs ys x m =
      let (k, h) = keep_sound (λ v. any (λ w. w == v) ys) xs m in
      let (y, j, t) = any_sound (λ w. w == x) ys h in (k, subst (λ z. Memᴰ z ys) (eq_of_== y x t) j)

  common_complete :
      (xs ys : List A) (x : A)
      → Memᴰ x xs
      → Memᴰ x ys
      → Memᴰ x (keep (λ v. any (λ w. w == v) ys) xs)
  common_complete xs ys x m k =
      keep_complete (λ v. any (λ w. w == v) ys) xs m (any_complete (λ w. w == x) k (==_refl x))

negotiate_offer-Settles :
    (protocols : ProtocolRegistry) (offer : ProtocolDescriptor)
    → Settles protocols offer (negotiate_offer protocols offer)
unfolding negotiate_offer
negotiate_offer-Settles protocols offer = elim (Option-cases (get offer.id protocols)) [
  | inl e ↦ rw (e, negotiate_offer) (declined (unknown e))
  | inr (local, e) ↦
      let ours = local.compatible_versions in
      let theirs = offer.compatible_versions in
      elim (Option-cases (maximum (common_versions local offer))) [
        | inl f ↦
            rw (e, negotiate_offer)
              (rw (f, negotiate_offer)
                (declined (
                  disjoint local e (λ v m k. Memᴰ.not-nil (
                    subst (Memᴰ v) (maximum-none (common_versions local offer) f)
                      (common_complete ours theirs v m k))))))
        | inr (v, f) ↦
            let (shared, highest) = maximum_lem (common_versions local offer) v f in
            let (mine, yours) = common_sound ours theirs v shared in
            rw (e, negotiate_offer)
              (rw (f, negotiate_offer)
                (accepted (record {
                  local = local;
                  registered = e;
                  same_id = refl;
                  ours = mine;
                  theirs = yours;
                  highest =
                      λ w m k. All-mem (λ u. u ≤ v) (common_complete ours theirs w m k) highest;
                  features_common = common_sound local.optional_features offer.optional_features;
                  features_all = common_complete local.optional_features offer.optional_features;
                })))
      ]
]

-- A negotiation agrees on every offer, in order: on the highest of the versions that stand in the
-- registered descriptor of the same id and in the offer, with exactly the features that are optional in
-- both. Or it fails with the error of the first offer on which there is no agreement: its id is not
-- registered, or no version stands in both.
pub negotiate-SettlesAll :
    (protocols : ProtocolRegistry) (offers : List ProtocolDescriptor)
    → SettlesAll protocols offers (negotiate protocols offers)
unfolding negotiate
negotiate-SettlesAll protocols [] = all_agreed none_left
negotiate-SettlesAll protocols (offer ∷ offers) =
    with_rest (negotiate_offer protocols offer) (negotiate_offer-Settles protocols offer)
      (negotiate protocols offers) (negotiate-SettlesAll protocols offers)
  where
    with_rest :
        (r : Result ProtocolError NegotiatedProtocol)
        → Settles protocols offer r
        → (rest : Result ProtocolError (List NegotiatedProtocol)) → SettlesAll protocols offers rest
        → SettlesAll protocols
            (offer ∷ offers)
            (elim r [ err e ↦ err e | ok n ↦ elim rest [ err e ↦ err e | ok ns ↦ ok (n ∷ ns) ] ])
    with_rest _ (declined d) rest s = refused_at [] offer offers refl none_left d
    with_rest _ (accepted a) _ (all_agreed s) = all_agreed (agreed a s)
    with_rest _ (accepted a) _ (refused_at before o after at s d) =
        refused_at (offer ∷ before) o after (ap (λ l. offer ∷ l) at) (agreed a s) d
