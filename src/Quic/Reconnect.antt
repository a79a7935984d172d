-- ===== src/Quic/Reconnect.antt =====
-- Reconnect attempts and suppressions of crates/quic/src/lib.rs.
use quipnet.Base.{
  ℕ, ◌+◌, ◌-◌, ◌^◌, Bool, not, ◌&&◌, ◌||◌, Option, none, some, List, [], ◌∷◌, ◌++◌, Bytes, text,
  ◌==◌, if◌then◌else◌, leb, find, keep, min, u32, sat_add_u64, sat_mul_u64, bytes_eq, option_eq,
}
use quipnet.Model.{PeerId, ProtocolId, TrafficClass}
use quipnet.Crypto.{Primitives}
use quipnet.PeerText.{to_text, str_contains}
use quipnet.Routing.{class_eq}
use quipnet.Transport.{
  ReconnectSuppression, RuntimeReconnectAttempt, RuntimeReconnectAttemptState, backing_off, failed,
  RuntimeEvent, Value, num, str,
}
use quipnet.Quic.State.{Adapter, emit, attempt_state_label, class_label, opt_str}

-- What an attempt and a suppression are found by.
pub record Target : Type 0 where
  pub peer : PeerId
  pub protocol : Option ProtocolId
  pub class : TrafficClass

abbrev pub is_for : Target → RuntimeReconnectAttempt → Bool
is_for t a = (a.peer == t.peer) && ((a.protocol == t.protocol) && (a.class == t.class))

abbrev pub suppresses : Target → ReconnectSuppression → Bool
suppresses t s = (s.peer == t.peer) && ((s.protocol == t.protocol) && (s.class == t.class))

-- A change of the first element that passes the test, as through `iter_mut().find(..)`.
unfoldable pub update_first {ℓ} : {A : Type ℓ} → (A → Bool) → (A → A) → List A → List A
update_first p f [] = []
update_first p f (x ∷ xs) = if p x then f x ∷ xs else x ∷ update_first p f xs

abbrev pub attempt_state : ℕ → ℕ → RuntimeReconnectAttemptState
attempt_state count max_attempts = if leb max_attempts count then failed else backing_off

-- The wait after the attempt with this number.
unfoldable pub backoff_secs : ℕ → ℕ → ℕ → ℕ
backoff_secs base max_backoff count = min (sat_mul_u64 base (2 ^ min (count - 1) 16)) max_backoff

-- The parameters of `schedule_reconnect` after the target.
pub record Schedule : Type 0 where
  pub reason : Bytes
  pub max_attempts : ℕ
  pub base_backoff_secs : ℕ
  pub max_backoff_secs : ℕ

-- The branch for a known attempt.
unfoldable pub attempt_again : ℕ → Schedule → RuntimeReconnectAttempt → RuntimeReconnectAttempt
attempt_again now s a =
    let count = u32 (a.attempt_count + 1) in
    record a {
      attempt_count = count;
      reason = s.reason;
      last_attempt_unix_secs = now;
      state = attempt_state count s.max_attempts;
      next_attempt_unix_secs =
          sat_add_u64 now (backoff_secs s.base_backoff_secs s.max_backoff_secs count);
      max_attempts = s.max_attempts;
    }

-- The branch for a new one.
unfoldable pub first_attempt : ℕ → Target → Schedule → RuntimeReconnectAttempt
first_attempt now t s = record {
  peer = t.peer;
  protocol = t.protocol;
  class = t.class;
  state = attempt_state 1 s.max_attempts;
  reason = s.reason;
  attempt_count = 1;
  last_attempt_unix_secs = now;
  next_attempt_unix_secs = sat_add_u64 now (min s.base_backoff_secs s.max_backoff_secs);
  max_attempts = s.max_attempts;
}

-- The change of the attempts, and the attempt that is answered.
unfoldable pub schedule :
    ℕ
    → Target
    → Schedule
    → List RuntimeReconnectAttempt
    → List RuntimeReconnectAttempt × RuntimeReconnectAttempt
schedule now t s attempts = elim (find (is_for t) attempts) [
  | some a ↦ (update_first (is_for t) (attempt_again now s) attempts, attempt_again now s a)
  | none ↦ (attempts ++ first_attempt now t s ∷ [], first_attempt now t s)
]

module _ (c : Primitives) where
  target_details : Target → List (Bytes × Value)
  target_details t =
      (text "protocol", opt_str t.protocol) ∷ (text "class", str (class_label t.class)) ∷ []

  peer_event : Bytes → Target → List (Bytes × Value) → RuntimeEvent
  unfolding target_details
  peer_event event_type t details = record {
    event_type = event_type;
    subject_kind = text "peer";
    subject_id = to_text c t.peer;
    details = target_details t ++ details;
  }

  scheduled_event : Target → RuntimeReconnectAttempt → RuntimeEvent
  unfolding peer_event
  scheduled_event t a =
      peer_event
        (elim a.state [
          | failed ↦ text "reconnect.failed"
          | backing_off ↦ text "reconnect.retry_scheduled"
        ])
        t
        ((text "state", str (attempt_state_label a.state))
          ∷ (text "attempt_count", num a.attempt_count)
          ∷ (text "next_attempt_unix_secs", num a.next_attempt_unix_secs)
          ∷ (text "backoff_secs", num (a.next_attempt_unix_secs - a.last_attempt_unix_secs))
          ∷ (text "max_attempts", num a.max_attempts)
          ∷ (text "reason", str a.reason)
          ∷ [])

  exhausted_event : Target → RuntimeReconnectAttempt → RuntimeEvent
  unfolding peer_event
  exhausted_event t a = peer_event (text "path.failed") t (
      (text "cause", str (text "reconnect_exhausted"))
      ∷ (text "attempt_count", num a.attempt_count)
      ∷ (text "max_attempts", num a.max_attempts)
      ∷ (text "reason", str a.reason)
      ∷ [])

  -- `schedule_reconnect` at the time `now`.
  unfoldable pub schedule_reconnect :
      ℕ → Target → Schedule → Adapter → Adapter × RuntimeReconnectAttempt
  unfolding scheduled_event exhausted_event
  schedule_reconnect now t s a =
      let (attempts, attempt) = schedule now t s a.reconnect_attempts in
      let scheduled =
        emit (record a { reconnect_attempts = attempts }) (scheduled_event t attempt) in
      (
        elim attempt.state [
          | failed ↦ emit scheduled (exhausted_event t attempt)
          | backing_off ↦ scheduled
        ],
        attempt,
      )

  cleared_type : Option Bytes → Bytes
  cleared_type none = text "reconnect.cleared"
  cleared_type (some reason) =
      if str_contains (text "succeeded") reason || str_contains (text "active") reason
      then text "reconnect.succeeded"
      else text "reconnect.cleared"

  cleared_event : Target → Option Bytes → RuntimeReconnectAttempt → RuntimeEvent
  unfolding peer_event cleared_type
  cleared_event t outcome a = peer_event (cleared_type outcome) t (
      (text "state", str (attempt_state_label a.state))
      ∷ (text "attempt_count", num a.attempt_count)
      ∷ (text "reason", opt_str outcome)
      ∷ [])

  -- `clear_reconnect_attempt`.
  unfoldable pub clear_reconnect_attempt : Target → Option Bytes → Adapter → Adapter
  unfolding cleared_event
  clear_reconnect_attempt t outcome a =
      let cleared = record a {
        reconnect_attempts = keep (λ e. not (is_for t e)) a.reconnect_attempts;
      } in
      elim (find (is_for t) a.reconnect_attempts) [
        | none ↦ cleared
        | some e ↦ emit cleared (cleared_event t outcome e)
      ]

  pub suppressed_event : Target → Bytes → RuntimeEvent
  unfolding peer_event
  suppressed_event t reason =
      peer_event (text "reconnect.suppressed") t ((text "reason", str reason) ∷ [])

  -- `suppress_reconnect`.
  unfoldable pub suppress_reconnect : ℕ → Target → Bytes → Adapter → Adapter
  unfolding suppressed_event
  suppress_reconnect now t reason a =
      let imposed : List ReconnectSuppression =
        elim (find (suppresses t) a.reconnect_suppressions) [
          | some _ ↦
              update_first (suppresses t)
                (λ s. record s { reason = reason; imposed_at_unix_secs = now })
                a.reconnect_suppressions
          | none ↦
              a.reconnect_suppressions
              ++ record {
                peer = t.peer;
                protocol = t.protocol;
                class = t.class;
                reason = reason;
                imposed_at_unix_secs = now;
              }
                ∷ []
        ] in
      emit (record a { reconnect_suppressions = imposed }) (suppressed_event t reason)

  unsuppressed_event : Target → ReconnectSuppression → RuntimeEvent
  unfolding peer_event
  unsuppressed_event t s = peer_event (text "reconnect.unsuppressed") t (
      (text "prior_reason", str s.reason)
      ∷ (text "imposed_at_unix_secs", num s.imposed_at_unix_secs)
      ∷ [])

  -- `clear_reconnect_suppression`.
  unfoldable pub clear_reconnect_suppression : Target → Adapter → Adapter
  unfolding unsuppressed_event
  clear_reconnect_suppression t a =
      let cleared = record a {
        reconnect_suppressions = keep (λ s. not (suppresses t s)) a.reconnect_suppressions;
      } in
      elim (find (suppresses t) a.reconnect_suppressions) [
        | none ↦ cleared
        | some s ↦ emit cleared (unsuppressed_event t s)
      ]
