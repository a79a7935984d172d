-- ===== src/Quic/Closing.antt =====
-- How a session of the transport adapter ends and moves.
use quipnet.Base.{
  ℕ, ◌≡◌, refl, sym, ◌∙◌, inl, inr, Bool, true, Option, none, some, List, [], ◌∷◌, ◌++◌, Bytes,
  ◌!=◌, ok, err, Result, find, keep, suc, arith, Result-cases, bytes_eq,
}
use quipnet.Base.Maps.{get, get-remove, get-update_self}
use quipnet.Crypto.{Primitives}
use quipnet.Identity.{SessionCredentialUnsigned}
use quipnet.Transport.{
  TransportError, SessionSnapshot, closed, closing, RuntimeSessionState, SessionClosureReason,
}
use quipnet.Model.{relay}
use quipnet.Routing.{kind_eq}
use quipnet.Quic.State.{SessionRecord, Adapter, emit, pop_front_over, max_terminal_sessions}
use quipnet.Quic.Plans.{RelayControl}
use quipnet.Quic.Sessions.{
  snapshot_of, or_else_held, update_session_state, with_state, record_terminal_session,
}
use quipnet.Quic.Calls.{held_closure, held_reason, close_session, finish, hang_up, ended}
use quipnet.Quic.Backoff.{find-append_none}
use quipnet.Quic.Registry.{has_id, Holds}

-- The last element stays, and is found where no other is.
find-pop_front_over {ℓ} :
    {A : Type ℓ} (p : A → Bool) (n : ℕ) (xs : List A) (x : A)
    → find p xs ≡ none
    → p x ≡ true
    → find p (pop_front_over (suc n) (xs ++ x ∷ [])) ≡ some x
unfolding pop_front_over
find-pop_front_over p n [] x h t = ground arith
find-pop_front_over p n (y ∷ xs) x h t =
    ground (arith, find-pop_front_over p n xs x, find-append_none p xs x)

-- None of the records that `record_terminal_session` keeps has the id.
find-keep_id :
    (id : Bytes) (l : List SessionRecord)
    → find (has_id id) (keep (λ (e : SessionRecord). e.snapshot.session_id != id) l) ≡ none
find-keep_id id [] = refl
find-keep_id id (r ∷ l) = ground (arith, find-keep_id id l)

found_in_ledger :
    (id : Bytes) (r : SessionRecord) (l : List SessionRecord)
    → r.snapshot.session_id ≡ id
    → find (has_id id) (
        pop_front_over max_terminal_sessions (
          keep (λ (e : SessionRecord). e.snapshot.session_id != r.snapshot.session_id) l ++ r ∷ []))
      ≡ some r
found_in_ledger id r l k =
    find-pop_front_over (has_id id) 31
      (keep (λ (e : SessionRecord). e.snapshot.session_id != r.snapshot.session_id) l) r
      (rw k (find-keep_id id l)) (ground arith)

-- The ledger of `b` after a call that closed the session `id` of `a`: the session is in it, closed,
-- or the relay failed, and the ledger is what it was.
pub data Ending (a b : Adapter) (id : Bytes) (r : SessionRecord)
    : Result TransportError (Unit {0}) → Type 0 where
  recorded :
      (t : SessionRecord)
      → find (has_id id) b.terminal_sessions ≡ some t
      → t.snapshot.state ≡ closed
      → t.snapshot.transport_session_id ≡ r.snapshot.transport_session_id
      → Ending a b id r (ok tt)
  lost :
      (e : TransportError)
      → b.terminal_sessions ≡ a.terminal_sessions
      → r.snapshot.path_kind ≡ relay
      → Ending a b id r (err e)

module _ (c : Primitives) (json : SessionCredentialUnsigned → Bytes) {W : Type 0}
    (relays : RelayControl W) where
  hang_up_err :
      (w : W) (s : SessionSnapshot) (e : TransportError)
      → (hang_up c json relays w s).1 ≡ err e
      → s.path_kind ≡ relay
  unfolding hang_up
  hang_up_err w s e h = ground arith

  finish-Ending :
      (now : ℕ) (w : W) (a : Adapter) (id : Bytes) (r : SessionRecord)
      → r.snapshot.session_id ≡ id
      → get id a.runtime_sessions ≡ some r
      → let (state, answer) = finish c json relays now w a id in
        (get id state.1.runtime_sessions ≡ none) × Ending a state.1 id r answer
  unfolding finish record_terminal_session ended emit
  finish-Ending now w a id r k h =
      rw (h, finish)
        (elim (Result-cases (hang_up c json relays w r.snapshot).1) [
          | inr (e, f) ↦ rw f (
            ground (arith, get-remove id id a.runtime_sessions),
            lost e refl (hang_up_err w r.snapshot e f),
          )
          | inl (_, f) ↦ rw f (
            ground (arith, get-remove id id a.runtime_sessions),
            recorded (ended now r) (found_in_ledger id (ended now r) a.terminal_sessions k) refl
                refl,
          )
        ])

  pub updated :
      (now : ℕ) (a : Adapter) (id : Bytes) (state : RuntimeSessionState)
      (closure_reason : Option SessionClosureReason) (state_reason : Option Bytes)
      (r : SessionRecord)
      → get id a.runtime_sessions ≡ some r
      → let b = (update_session_state c now a id state closure_reason state_reason).0 in
        (get id b.runtime_sessions ≡ some (with_state now state closure_reason state_reason r))
        × (b.terminal_sessions ≡ a.terminal_sessions)
  unfolding update_session_state emit
  updated now a id state closure_reason state_reason r h =
      rw (h, update_session_state)
        (
          get-update_self id (with_state now state closure_reason state_reason) r a.runtime_sessions
              h,
          refl,
        )

  Ending-from :
      {a b d : Adapter} {id : Bytes} {r q : SessionRecord}
      {answer : Result TransportError (Unit {0})}
      → b.terminal_sessions ≡ a.terminal_sessions
      → q.snapshot.path_kind ≡ r.snapshot.path_kind
      → q.snapshot.transport_session_id ≡ r.snapshot.transport_session_id
      → Ending b d id q answer
      → Ending a d id r answer
  Ending-from same k t (recorded x f s u) = recorded x f s (u ∙ t)
  Ending-from same k t (lost e l p) = lost e (l ∙ same) (sym k ∙ p)

  -- Closing a known session of a well-formed adapter removes it from the registry. If the answer is
  -- a success, the ledger holds it as closed, with its transport session; if it is an error, the
  -- session was on a relay, and the ledger is as before.
  pub close_session-Ending :
      (now : ℕ) (w : W) (a : Adapter) (s : SessionSnapshot) (r : SessionRecord)
      → Holds a
      → get s.session_id a.runtime_sessions ≡ some r
      → let (state, answer) = close_session c json relays now w a s in
        (get s.session_id state.1.runtime_sessions ≡ none) × Ending a state.1 s.session_id r answer
  unfolding close_session with_state
  close_session-Ending now w a s r holds known =
      let held = snapshot_of a s.session_id in
      let closure_reason = or_else_held (held_closure held) s.closure_reason in
      let state_reason = or_else_held (held_reason held) s.state_reason in
      let (found, same) = updated now a s.session_id closing closure_reason state_reason r known in
      let (gone, e) =
        finish-Ending now w
          (update_session_state c now a s.session_id closing closure_reason state_reason).0
          s.session_id (with_state now closing closure_reason state_reason r)
          (holds.keyed s.session_id r known) found in
      (gone, Ending-from same refl refl e)
