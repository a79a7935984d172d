-- ===== src/Quic/Runs.antt =====
-- The calls of the transport adapter, and histories of them.
use quipnet.Base.{ℕ, Option, List, [], ◌∷◌, Bytes}
use quipnet.Crypto.{Primitives}
use quipnet.Identity.{SessionCredentialUnsigned}
use quipnet.Transport.{
  RuntimeSessionState, SessionClosureReason, SessionSnapshot, RuntimeEvent, RoutePlan, BindSpec,
  RuntimeListenerState,
}
use quipnet.Quic.State.{Adapter, emit}
use quipnet.Quic.Reconnect.{
  Target, Schedule, schedule_reconnect, clear_reconnect_attempt, suppress_reconnect,
  clear_reconnect_suppression,
}
use quipnet.Quic.Plans.{RelayControl, Draw}
use quipnet.Quic.Sessions.{update_session_state}
use quipnet.Quic.Calls.{connect, migrate, close_session}
use quipnet.Quic.Listeners.{listen, update_listener_state}

pub data Call : Type 0 where
  connects : Draw → RoutePlan → Call
  migrates : Draw → Bytes → RoutePlan → Call
  closes : ℕ → SessionSnapshot → Call
  updates : ℕ → Bytes → RuntimeSessionState → Option SessionClosureReason → Option Bytes → Call
  schedules : ℕ → Target → Schedule → Call
  clears : Target → Option Bytes → Call
  bars : ℕ → Target → Bytes → Call
  unbars : Target → Call
  listens_on : ℕ → Bytes → BindSpec → Call
  marks_listener : Bytes → RuntimeListenerState → Option Bytes → Call
  notes : RuntimeEvent → Call

module _ (c : Primitives) (json : SessionCredentialUnsigned → Bytes) {W : Type 0}
    (relays : RelayControl W) where
  unfoldable pub step : W × Adapter → Call → W × Adapter
  step (w, a) (connects d route) = (connect c json relays d w a route).0
  step (w, a) (migrates d id route) = (migrate c json relays d w a id route).0
  step (w, a) (closes now s) = (close_session c json relays now w a s).0
  step (w, a) (updates now id state closure_reason state_reason) =
      (w, (update_session_state c now a id state closure_reason state_reason).0)
  step (w, a) (schedules now t s) = (w, (schedule_reconnect c now t s a).0)
  step (w, a) (clears t outcome) = (w, clear_reconnect_attempt c t outcome a)
  step (w, a) (bars now t reason) = (w, suppress_reconnect c now t reason a)
  step (w, a) (unbars t) = (w, clear_reconnect_suppression c t a)
  step (w, a) (listens_on now nanos bind) = (w, listen c now nanos a bind)
  step (w, a) (marks_listener id state reason) = (w, (update_listener_state a id state reason).0)
  step (w, a) (notes e) = (w, emit a e)

  unfoldable pub run : W × Adapter → List Call → W × Adapter
  run s [] = s
  run s (call ∷ calls) = run (step s call) calls
