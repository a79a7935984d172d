-- ===== src/Relay/Fleet.antt =====
-- Every relay of a process keeps its quotas, whatever the process does with its registry.
use quipnet.Base.{
  All, ℕ, ◌≡◌, refl, sym, ap, ◌∙◌, inl, inr, subst, some, List, [], ◌∷◌, Bytes, ok, err, Result,
  arith, bytes_eq, Option-cases,
}
use quipnet.Base.Maps.{get, insert, update, get-insert, get-update_self, get-update_ne}
use quipnet.Model.{PeerId}
use quipnet.Crypto.{Primitives}
use quipnet.Identity.{SessionCredentialUnsigned}
use quipnet.RelayWire.{RelayOpenRequest, RelaySessionRejected, RelaySessionAccepted}
use quipnet.Relay.Admission.{RelayNode}
use quipnet.Relay.Service.{
  RelayService, Outcome, returned, panicked, new_service, open_relay_session,
}
use quipnet.Relay.Cases.{Call, opens, closes, step, run, after}
use quipnet.Relay.Quota.{HasU32Quotas, WithinQuota, step-Held, run-WithinQuota}
use quipnet.Relay.Registry.{
  Registry, kept_service, register_relay, open_registered_session, close_registered_session,
}

-- A registered relay is registered by its own peer id, has limits of 32 bits and is within them.
abbrev pub IsFleet : Registry → Type 0
IsFleet g =
    (p : PeerId) (s : RelayService)
    → get p g ≡ some s
    → (s.node.announcement.peer_id ≡ p) × HasU32Quotas s.node × WithinQuota s

-- What a process does with the registry; a cleared registry is a new one.
pub data Use : Type 0 where
  registers : RelayNode → Use
  opens_at : ℕ → PeerId → RelayOpenRequest → Bytes → Use
  closes_at : PeerId → Bytes → Bytes → Use
  clears : Use

-- The relays that are registered have limits of 32 bits.
abbrev pub LimitsFit : Use → Type 0
LimitsFit (registers node) = HasU32Quotas node
LimitsFit (opens_at _ _ _ _) = Unit {0}
LimitsFit (closes_at _ _ _) = Unit {0}
LimitsFit clears = Unit {0}

entered_first :
    (i j : PeerId) (s t : RelayService) (g : Registry)
    → i ≡ j
    → get j (insert i s g) ≡ some t
    → s ≡ t
entered_first i j s t g same h = ground (arith, get-insert i j s g)

fresh_node : (node : RelayNode) → node ≡ (new_service node).node
unfolding new_service
fresh_node node = refl

fresh_id :
    (node : RelayNode) → (new_service node).node.announcement.peer_id ≡ node.announcement.peer_id
unfolding new_service
fresh_id node = refl

module _ (c : Primitives) (json : SessionCredentialUnsigned → Bytes) where
  abbrev registry_after : {A : Type 0} → Registry → Outcome (Registry × A) → Registry
  registry_after g (returned (h, _)) = h
  registry_after g panicked = g

  unfoldable pub use_registry : Registry → Use → Registry
  use_registry g (registers node) = register_relay (new_service node) g
  use_registry g (opens_at now p q id) =
      registry_after g (open_registered_session c json now g p q id)
  use_registry g (closes_at p id reason) = (close_registered_session g p id reason).0
  use_registry g clears = []

  unfoldable pub use_all : Registry → List Use → Registry
  use_all g [] = g
  use_all g (u ∷ us) = use_all (use_registry g u) us

  -- The registry in which one relay has served a call.
  serve : Registry → PeerId → RelayService → Call → Registry
  serve g p s call = update p (λ _. step c json s call) g

  serve-IsFleet :
      (g : Registry) (p : PeerId) (s : RelayService) (call : Call)
      → get p g ≡ some s
      → IsFleet g
      → IsFleet (serve g p s call)
  unfolding serve
  serve-IsFleet g p s call known f j t h = elim (bytes_eq.dec p j) [
    | yes same ↦
        let (own, limits, within) = f p s known in
        let (e, w) = step-Held c json s.node limits s call (refl, within) in
        let k : step c json s call ≡ t =
          ground (arith, get-update_self p (λ _. step c json s call) s g known) in
        subst (λ r. (r.node.announcement.peer_id ≡ j) × HasU32Quotas r.node × WithinQuota r) k
          (
            ap (λ (n : RelayNode). n.announcement.peer_id) e ∙ own ∙ same,
            subst HasU32Quotas (sym e) limits,
            w,
          )
    | no other ↦ f j t (sym (get-update_ne p (λ _. step c json s call) j g other) ∙ h)
  ]

  opened-IsFleet :
      (now : ℕ) (g : Registry) (p : PeerId) (s : RelayService) (q : RelayOpenRequest) (id : Bytes)
      → get p g ≡ some s
      → IsFleet g
      → IsFleet (registry_after g (kept_service g p (open_relay_session c json now s q id)))
  unfolding serve step
  opened-IsFleet now g p s q id known f = go (open_relay_session c json now s q id) refl
    where
      go :
          (o : Outcome (RelayService × Result RelaySessionRejected RelaySessionAccepted))
          → open_relay_session c json now s q id ≡ o
          → IsFleet (registry_after g (kept_service g p o))
      go panicked e = f
      go (returned (t, err r)) e =
          subst (λ u. IsFleet (update p (λ _. u) g)) (ap (after c json s) e)
            (serve-IsFleet g p s (opens now q id) known f)
      go (returned (t, ok a)) e =
          subst (λ u. IsFleet (update p (λ _. u) g)) (ap (after c json s) e)
            (serve-IsFleet g p s (opens now q id) known f)

  closed-IsFleet :
      (g : Registry) (p : PeerId) (id reason : Bytes)
      → IsFleet g
      → IsFleet (close_registered_session g p id reason).0
  unfolding close_registered_session serve step
  closed-IsFleet g p id reason f = elim (Option-cases (get p g)) [
    | inl e ↦ rw (e, close_registered_session) f
    | inr (s, e) ↦ rw (e, close_registered_session) (serve-IsFleet g p s (closes id reason) e f)
  ]

  use_registry-IsFleet :
      (g : Registry) (u : Use) → LimitsFit u → IsFleet g → IsFleet (use_registry g u)
  unfolding use_registry register_relay open_registered_session close_registered_session serve step
      run get new_service
  use_registry-IsFleet g (registers node) u f = λ j t h.
      elim (bytes_eq.dec node.announcement.peer_id j) [
        | yes same ↦
            let k : new_service node ≡ t =
              entered_first node.announcement.peer_id j (new_service node) t g same h in
            subst (λ r. (r.node.announcement.peer_id ≡ j) × HasU32Quotas r.node × WithinQuota r) k
              (
                fresh_id node ∙ same,
                subst HasU32Quotas (fresh_node node) u,
                run-WithinQuota c json node [] u,
              )
        | no other ↦
            f j t (ground (arith, get-insert node.announcement.peer_id j (new_service node) g))
      ]
  use_registry-IsFleet g (opens_at now p q id) u f = elim (Option-cases (get p g)) [
    | inl e ↦ rw (e, open_registered_session) f
    | inr (s, e) ↦ rw (e, open_registered_session) (opened-IsFleet now g p s q id e f)
  ]
  use_registry-IsFleet g (closes_at p id reason) u f = closed-IsFleet g p id reason f
  use_registry-IsFleet g clears u f = λ j t h. cc h

  -- Whatever a process does with a registry that is empty at first, every relay stands under its
  -- own peer id and has no more open sessions for a source than the first quota of that source
  -- allows, if the limits of the quotas fit in 32 bits.
  pub use_all-IsFleet : (us : List Use) → All LimitsFit us → IsFleet (use_all [] us)
  unfolding use_all get
  use_all-IsFleet us fits = from us [] fits (λ p s h. cc h)
    where
      from : (us : List Use) (g : Registry) → All LimitsFit us → IsFleet g → IsFleet (use_all g us)
      from [] g fits f = f
      from (u ∷ us) g fits f = from us (use_registry g u) fits.1 (use_registry-IsFleet g u fits.0 f)
