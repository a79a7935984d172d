-- ===== src/Relay/Lifecycle.antt =====
-- What an admitted request writes, which ids can become open, and how a request takes over an id.
use quipnet.Base.{
  ℕ, ◌≡◌, refl, sym, ap, ◌∙◌, inl, inr, true, false, none, some, List, Bytes, ok, err, ◌==◌,
  if◌then◌else◌, arith, bytes_eq,
}
use quipnet.Base.Maps.{insert, contains_key, get-insert, get-update_self, get-update_ne}
use quipnet.Crypto.{Primitives}
use quipnet.Identity.{SessionCredentialUnsigned}
use quipnet.RelayWire.{RelayOpenRequest, RelaySessionAccepted, payload}
use quipnet.Relay.Runtime.{
  RelaySession, is_open, pending_session, accepted_session, close_status, session, apply_frame,
  unauthorized,
}
use quipnet.Relay.Service.{RelayService, returned, acceptance, open_relay_session}
use quipnet.Relay.Cases.{
  open_relay_session_cases, entered, closed_at, Call, run, step_cases, run_keeps,
}

session-entered :
    (s : RelayService) (q : RelayOpenRequest) (id j : Bytes)
    → session (entered s q id).runtime j ≡ (
        if id == j
        then some (accepted_session (acceptance q id))
        else if q.attempt_id == j
        then some (pending_session q)
        else session s.runtime j)
unfolding session
session-entered s q id j = ground (
  arith,
  get-insert id j (accepted_session (acceptance q id))
      (insert q.attempt_id (pending_session q) s.runtime.sessions),
  get-insert q.attempt_id j (pending_session q) s.runtime.sessions,
)

-- The table knows the id, and its session is not open.
abbrev pub IsSpent : Bytes → RelayService → Type 0
IsSpent id s = (v : RelaySession) × (session s.runtime id ≡ some v) × (is_open v ≡ false)

module _ (c : Primitives) (json : SessionCredentialUnsigned → Bytes) where
  IsSpent-entered :
      (s : RelayService) (q : RelayOpenRequest) (id j : Bytes)
      → contains_key id s.runtime.sessions ≡ false
      → IsSpent j s
      → IsSpent j (entered s q id)
  unfolding session
  IsSpent-entered s q id j free (v, e, n) = elim (bytes_eq.dec q.attempt_id j) [
    | yes same ↦ (pending_session q, ground (arith, session-entered s q id j), refl)
    | no other ↦ (v, ground (arith, session-entered s q id j), n)
  ]

  IsSpent-closed_at : (s : RelayService) (id j : Bytes) → IsSpent j s → IsSpent j (closed_at s id)
  unfolding session
  IsSpent-closed_at s id j (v, e, n) = elim (bytes_eq.dec id j) [
    | yes same ↦
        (close_status v, ground (arith, get-update_self j close_status v s.runtime.sessions), refl)
    | no other ↦ (v, ground (arith, get-update_ne id close_status j s.runtime.sessions), n)
  ]

  -- An id that the table knows and that is not open, such as that of a closed session or of an
  -- attempt, never becomes open again, whatever calls the relay serves afterwards.
  pub run-IsSpent :
      (j : Bytes) (calls : List Call) (s : RelayService)
      → IsSpent j s
      → IsSpent j (run c json s calls)
  run-IsSpent j = run_keeps c json (IsSpent j) λ s call h.
      step_cases c json (IsSpent j) s call h (λ now q id _ free. IsSpent-entered s q id j free h)
        (λ id. IsSpent-closed_at s id j h)

  module _ (now : ℕ) (s t : RelayService) (q : RelayOpenRequest) (id : Bytes)
      (a : RelaySessionAccepted) where
    accepted_case :
        open_relay_session c json now s q id ≡ returned (t, ok a)
        → (contains_key id s.runtime.sessions ≡ false)
          × (t ≡ entered s q id)
          × (a ≡ acceptance q id)
    accepted_case h = elim (open_relay_session_cases c json now s q id) [
      | inl (e, r) ↦ cc (sym r ∙ h)
      | inr (_, free, r) ↦ (free, cc (sym r ∙ h), cc (sym r ∙ h))
    ]

    -- An accepted request got an id that no session had. It opens the session of that id for its
    -- source and destination, leaves a pending session under its own attempt id, and leaves every
    -- other id and the relay's node as they were.
    pub open_relay_session_writes :
        open_relay_session c json now s q id ≡ returned (t, ok a)
        → (session s.runtime id ≡ none)
          × (a ≡ acceptance q id)
          × (t.node ≡ s.node)
          × ((j : Bytes)
              → session t.runtime j ≡ (
                  if id == j
                  then some (accepted_session a)
                  else if q.attempt_id == j
                  then some (pending_session q)
                  else session s.runtime j))
    unfolding session
    open_relay_session_writes h =
        let (free, e, f) = accepted_case h in
        (
          ground arith,
          f,
          ap (λ (u : RelayService). u.node) e,
          λ j. rw (e, f) (session-entered s q id j),
        )

    -- An accepted request whose attempt id is the id of an open session, of whatever source, takes
    -- that session over: the entry is then the pending one of the request, and the relay refuses
    -- the payload frames of the session.
    pub attempt_takes_over :
        (v : RelaySession) (bytes : Bytes)
        → open_relay_session c json now s q id ≡ returned (t, ok a)
        → session s.runtime q.attempt_id ≡ some v
        → is_open v ≡ true
        → (session t.runtime q.attempt_id ≡ some (pending_session q))
          × ((apply_frame t.runtime (payload q.attempt_id bytes)).1 ≡ err unauthorized)
    unfolding apply_frame session
    attempt_takes_over v bytes h known live =
        let (free, e, f) = accepted_case h in
        let pending : session t.runtime q.attempt_id ≡ some (pending_session q) =
          rw e (ground (arith, session-entered s q id q.attempt_id)) in
        (pending, ground arith)
