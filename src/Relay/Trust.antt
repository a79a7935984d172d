-- ===== src/Relay/Trust.antt =====
-- Whom a relay admits.
use quipnet.Base.{
  ℕ, ◌≤◌, ◌≡◌, refl, ◌⊎◌, inl, inr, true, Option, none, some, List, Bytes, ok, ◌==◌, arith, any,
  find, Memᴰ, any_sound, eq_of_==, subst, bytes_eq, sym, ◌∙◌, Option-cases,
}
use quipnet.Model.{ProtocolId}
use quipnet.Crypto.{Primitives, key_peer_id, verify}
use quipnet.Identity.{SessionCredentialUnsigned, verify_credential}
use quipnet.RelayWire.{RelayOpenRequest, RelaySessionAccepted}
use quipnet.Relay.Admission.{
  RelayDestination, covers, class_name, supports_traffic_class, verify_open_request,
  authorize_destination,
}
use quipnet.Relay.Service.{RelayService, returned, admits, over_quota, open_relay_session}
use quipnet.Relay.Cases.{open_relay_session_cases}

-- The protocol is absent, or stands in the list.
abbrev Covered : Option ProtocolId → List ProtocolId → Type 0
Covered o list = (o ≡ none) ⊎ ((p : ProtocolId) × (o ≡ some p) × Memᴰ p list)

-- What a relay knows of a request that passes its guards.
pub record Trusted (c : Primitives) (json : SessionCredentialUnsigned → Bytes) (now : ℕ)
    (s : RelayService) (q : RelayOpenRequest) : Type 0 where
  pub key_bound : key_peer_id c q.source_public_key ≡ q.source
  pub signed :
      verify c q.source_credential.identity_signature q.source_public_key
        (json q.source_credential.unsigned)
      ≡ ok tt
  pub own_credential : q.source_credential.peer_id ≡ q.source
  pub same_network : q.source_credential.network_id ≡ q.network_id
  pub unexpired : now ≤ q.source_credential.expires_at
  pub protocol_held : Covered q.protocol q.source_credential.protocol_versions
  pub class_announced : Memᴰ (class_name q.traffic_class) s.node.announcement.traffic_classes
  pub reachable :
      (d : RelayDestination) × (find
          (λ (d : RelayDestination). d.peer == q.destination)
          s.node.destinations
        ≡ some d)
      × Covered q.protocol d.protocols
  pub below_quota : over_quota s q.source ≡ none

module _ (c : Primitives) (json : SessionCredentialUnsigned → Bytes) (now : ℕ) (s : RelayService)
    (q : RelayOpenRequest) where
  any_eq_sound : (x : Bytes) (xs : List Bytes) → any (λ v. v == x) xs ≡ true → Memᴰ x xs
  any_eq_sound x xs h =
      let (y, m, e) = any_sound (λ v. v == x) xs h in subst (λ z. Memᴰ z xs) (eq_of_== y x e) m

  covers_sound : (o : Option ProtocolId) (ps : List Bytes) → covers o ps ≡ true → Covered o ps
  unfolding covers
  covers_sound none ps h = inl refl
  covers_sound (some p) ps h = inr (p, refl, any_eq_sound p ps h)

  verified :
      verify_open_request c json now q ≡ ok tt
      → (key_peer_id c q.source_public_key ≡ q.source)
        × (verify_credential c json q.source_credential q.source_public_key ≡ ok tt)
        × (q.source_credential.peer_id ≡ q.source)
        × (q.source_credential.network_id ≡ q.network_id)
        × (now ≤ q.source_credential.expires_at)
        × (covers q.protocol q.source_credential.protocol_versions ≡ true)
  unfolding verify_open_request
  verified h = ground arith

  signed_of :
      verify_credential c json q.source_credential q.source_public_key ≡ ok tt
      → verify c q.source_credential.identity_signature q.source_public_key
          (json q.source_credential.unsigned)
        ≡ ok tt
  unfolding verify_credential
  signed_of h = ground arith

  authorized :
      authorize_destination s.node.destinations q.destination q.protocol ≡ ok tt
      → (d : RelayDestination) × (find
            (λ (d : RelayDestination). d.peer == q.destination)
            s.node.destinations
          ≡ some d)
        × (covers q.protocol d.protocols ≡ true)
  unfolding authorize_destination
  authorized h =
      elim (Option-cases
        (find (λ (d : RelayDestination). d.peer == q.destination) s.node.destinations)) [
          | inl e ↦ absurd (ground arith)
          | inr (d, e) ↦ (d, e, ground arith)
        ]

  guards :
      admits c json now s q ≡ ok tt
      → (verify_open_request c json now q ≡ ok tt)
        × (supports_traffic_class s.node.announcement.traffic_classes q.traffic_class ≡ true)
        × (authorize_destination s.node.destinations q.destination q.protocol ≡ ok tt)
        × (over_quota s q.source ≡ none)
  unfolding admits
  guards h = ground arith

  admits-Trusted : admits c json now s q ≡ ok tt → Trusted c json now s q
  unfolding supports_traffic_class
  admits-Trusted h =
      let (v, k, d, o) = guards h in
      let (bound, cred, own, net, time, proto) = verified v in
      let (entry, found, cov) = authorized d in
      record {
        key_bound = bound;
        signed = signed_of cred;
        own_credential = own;
        same_network = net;
        unexpired = time;
        protocol_held = covers_sound q.protocol q.source_credential.protocol_versions proto;
        class_announced =
            any_eq_sound (class_name q.traffic_class) s.node.announcement.traffic_classes k;
        reachable = (entry, found, covers_sound q.protocol entry.protocols cov);
        below_quota = o;
      }

  -- A request is accepted only if its key has the peer id of its source, the key verifies the
  -- credential, the credential is the source's own, for the network of the request, unexpired and
  -- for the protocol asked for, the relay announces the traffic class, the first entry for the
  -- destination allows the protocol, and the source is below its quota.
  pub accepts-Trusted :
      (t : RelayService) (id : Bytes) (a : RelaySessionAccepted)
      → open_relay_session c json now s q id ≡ returned (t, ok a)
      → Trusted c json now s q
  accepts-Trusted t id a h = elim (open_relay_session_cases c json now s q id) [
    | inl (e, r) ↦ cc (sym r ∙ h)
    | inr (g, _, _) ↦ admits-Trusted g
  ]
