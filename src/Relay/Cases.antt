-- ===== src/Relay/Cases.antt =====
-- The two ways in which `open_session` of crates/relay/src/lib.rs ends, and the calls of a relay as steps.
use quipnet.Base.{
  ℕ, ◌≡◌, refl, ◌⊎◌, inl, inr, false, none, some, List, [], ◌∷◌, Bytes, Result, ok, err, arith,
  Bool-cases, Result-cases, Option-cases,
}
use quipnet.Base.Maps.{insert, update, contains_key}
use quipnet.Crypto.{Primitives}
use quipnet.Identity.{SessionCredentialUnsigned}
use quipnet.RelayWire.{RelayOpenRequest, RelaySessionAccepted, RelaySessionRejected}
use quipnet.Relay.Runtime.{
  RelaySession, session_not_found, session, pending_session, accepted_session, close_status,
  apply_frame,
}
use quipnet.Relay.Service.{
  RelayService, Outcome, returned, panicked, acceptance, id_taken, admits, enter,
  open_relay_session, over_quota, close_relay_session,
}

-- The service with a session entered: one entry under the attempt id, then one under the session id.
abbrev pub entered : RelayService → RelayOpenRequest → Bytes → RelayService
entered s q id = record s {
  runtime = record {
    sessions =
        insert id (accepted_session (acceptance q id))
          (insert q.attempt_id (pending_session q) s.runtime.sessions);
  };
}

module _ (c : Primitives) (json : SessionCredentialUnsigned → Bytes) (now : ℕ) where
  -- Either the service is as it was and the request is rejected, or the guards passed, the id was
  -- free, and the session is entered. No `expect` fails.
  pub open_relay_session_cases :
      (s : RelayService) (q : RelayOpenRequest) (id : Bytes)
      → ((e : RelaySessionRejected) × (open_relay_session c json now s q id ≡ returned (s, err e)))
        ⊎ ((admits c json now s q ≡ ok tt)
            × (contains_key id s.runtime.sessions ≡ false)
            × (open_relay_session c json now s q id
                ≡ returned (entered s q id, ok (acceptance q id))))
  unfolding open_relay_session enter apply_frame
  open_relay_session_cases s q id = elim (Result-cases (admits c json now s q)) [
    | inr (e, h) ↦ inl (e, rw (h, open_relay_session) refl)
    | inl (_, h) ↦ elim (Bool-cases (contains_key id s.runtime.sessions)) [
      | inl taken ↦ inl (id_taken q, rw (h, open_relay_session) (rw taken refl))
      | inr free ↦ inr (h, free, rw (h, open_relay_session) (rw free refl))
    ]
  ]

  -- A request passes the guards only while its source is below its quota.
  pub admits-over_quota :
      (s : RelayService) (q : RelayOpenRequest)
      → admits c json now s q ≡ ok tt
      → over_quota s q.source ≡ none
  unfolding admits
  admits-over_quota s q h = ground arith

-- The service with the session of an id marked as closed.
abbrev pub closed_at : RelayService → Bytes → RelayService
closed_at s id = record s {
  runtime = record { sessions = update id close_status s.runtime.sessions };
}

-- A close fails on an unknown id alone, and otherwise marks the session.
pub close_relay_session_cases :
    (s : RelayService) (id reason : Bytes)
    → ((session s.runtime id ≡ none)
        × (close_relay_session s id reason ≡ (s, err session_not_found)))
      ⊎ ((v : RelaySession) × (session s.runtime id ≡ some v)
          × (close_relay_session s id reason ≡ (closed_at s id, ok tt)))
unfolding close_relay_session apply_frame
close_relay_session_cases s id reason = elim (Option-cases (session s.runtime id)) [
  | inl h ↦ inl (h, rw (h, close_relay_session) refl)
  | inr (v, h) ↦ inr (v, h, rw (h, close_relay_session) refl)
]

-- The calls that clients make: an open request at a time with the id that is drawn, and a close.
pub data Call : Type 0 where
  opens : ℕ → RelayOpenRequest → Bytes → Call
  closes : Bytes → Bytes → Call

module _ (c : Primitives) (json : SessionCredentialUnsigned → Bytes) where
  abbrev pub after :
      RelayService
      → Outcome (RelayService × Result RelaySessionRejected RelaySessionAccepted)
      → RelayService
  after s (returned (t, _)) = t
  after s panicked = s

  unfoldable pub step : RelayService → Call → RelayService
  step s (opens now q id) = after s (open_relay_session c json now s q id)
  step s (closes id reason) = (close_relay_session s id reason).0

  unfoldable pub run : RelayService → List Call → RelayService
  run s [] = s
  run s (call ∷ calls) = run (step s call) calls

  -- A call leaves the service, enters an admitted session, or marks a session as closed.
  pub step_cases {ℓ} :
      (P : RelayService → Type ℓ) (s : RelayService) (call : Call)
      → P s
      → ((now : ℕ) (q : RelayOpenRequest) (id : Bytes)
          → admits c json now s q ≡ ok tt
          → contains_key id s.runtime.sessions ≡ false
          → P (entered s q id))
      → ((id : Bytes) → P (closed_at s id))
      → P (step s call)
  unfolding step
  step_cases P s (opens now q id) stays enters leaves =
      elim (open_relay_session_cases c json now s q id) [
        | inl (e, h) ↦ rw h stays
        | inr (a, free, h) ↦ rw h (enters now q id a free)
      ]
  step_cases P s (closes id reason) stays enters leaves =
      elim (close_relay_session_cases s id reason) [
        | inl (_, h) ↦ rw (h, step) stays
        | inr (_, _, h) ↦ rw (h, step) (leaves id)
      ]

  -- What every call keeps, a history keeps.
  pub run_keeps {ℓ} :
      (P : RelayService → Type ℓ)
      → ((s : RelayService) (call : Call) → P s → P (step s call))
      → (calls : List Call) (s : RelayService) → P s
      → P (run s calls)
  unfolding run
  run_keeps P keeps [] s h = h
  run_keeps P keeps (call ∷ calls) s h = run_keeps P keeps calls (step s call) (keeps s call h)
