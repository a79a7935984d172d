-- ===== src/Relay/Quota.antt =====
-- The session quota of a source holds after every history of calls.
use quipnet.Base.{
  ℕ, ◌+◌, ◌≤◌, ◌<◌, ◌≡◌, refl, sym, subst, Option, none, some, List, Bytes, ◌==◌, if◌then◌else◌,
  find, count, u32_mod, arith, bytes_eq,
}
use quipnet.Base.Maps.{values, insert, count-insert-le, count-update-le}
use quipnet.Model.{PeerId}
use quipnet.Crypto.{Primitives}
use quipnet.Identity.{SessionCredentialUnsigned}
use quipnet.RelayWire.{RelayOpenRequest}
use quipnet.Relay.Runtime.{pending_session, accepted_session, close_status}
use quipnet.Relay.Admission.{RelayQuota, RelayNode}
use quipnet.Relay.Service.{
  RelayService, new_service, acceptance, holds_for, active_for_source, over_quota,
}
use quipnet.Relay.Cases.{
  admits-over_quota, entered, Call, step, run, closed_at, step_cases, run_keeps,
}

-- The quota that applies to a source: the first that names it.
abbrev pub quota_of : RelayNode → PeerId → Option RelayQuota
quota_of node source = find (λ (q : RelayQuota). q.peer == source) node.quotas

-- How many open sessions the table holds for a source.
abbrev pub open_sessions : RelayService → PeerId → ℕ
open_sessions s source = count (holds_for source) (values s.runtime.sessions)

-- No source with a quota has more open sessions than the quota allows.
abbrev pub WithinQuota : RelayService → Type 0
WithinQuota s =
    (source : PeerId) (quota : RelayQuota)
    → quota_of s.node source ≡ some quota
    → open_sessions s source ≤ quota.max_concurrent_sessions

-- `max_concurrent_sessions` is a `u32`.
abbrev pub HasU32Quotas : RelayNode → Type 0
HasU32Quotas node =
    (source : PeerId) (quota : RelayQuota)
    → quota_of node source ≡ some quota
    → quota.max_concurrent_sessions < u32_mod

-- An admitted source is strictly below its quota.
below_quota :
    (s : RelayService) (source : PeerId) (quota : RelayQuota)
    → over_quota s source ≡ none
    → quota_of s.node source ≡ some quota
    → open_sessions s source ≤ quota.max_concurrent_sessions
    → quota.max_concurrent_sessions < u32_mod
    → open_sessions s source < quota.max_concurrent_sessions
unfolding over_quota active_for_source
below_quota s source quota o e le lt = ground arith

open_sessions-entered :
    (s : RelayService) (q : RelayOpenRequest) (id : Bytes) (source : PeerId)
    → open_sessions (entered s q id) source
      ≤ open_sessions s source + (if q.source == source then 1 else 0)
open_sessions-entered s q id source = ground (
  arith,
  count-insert-le (holds_for source) id (accepted_session (acceptance q id))
      (insert q.attempt_id (pending_session q) s.runtime.sessions),
  count-insert-le (holds_for source) q.attempt_id (pending_session q) s.runtime.sessions,
)

entered-WithinQuota :
    (s : RelayService) (q : RelayOpenRequest) (id : Bytes)
    → over_quota s q.source ≡ none
    → HasU32Quotas s.node
    → WithinQuota s
    → WithinQuota (entered s q id)
entered-WithinQuota s q id free u w source quota e = elim (bytes_eq.dec q.source source) [
  | yes same ↦ ground (
    arith,
    w source quota e,
    u source quota e,
    below_quota s source quota,
    open_sessions-entered s q id source,
  )
  | no other ↦ ground (arith, w source quota e, open_sessions-entered s q id source)
]

closed_at-WithinQuota :
    (s : RelayService) (id : Bytes) → WithinQuota s → WithinQuota (closed_at s id)
closed_at-WithinQuota s id w source quota e = ground (
  arith,
  w source quota e,
  count-update-le (holds_for source) id close_status s.runtime.sessions (λ v h. ground arith),
)

module _ (c : Primitives) (json : SessionCredentialUnsigned → Bytes) where
  -- The node of a service stays, so its quotas do.
  abbrev pub Held : RelayNode → RelayService → Type 0
  Held node s = (s.node ≡ node) × WithinQuota s

  pub step-Held :
      (node : RelayNode)
      → HasU32Quotas node
      → (s : RelayService) (call : Call) → Held node s
      → Held node (step c json s call)
  step-Held node u s call (e, w) =
      step_cases c json (Held node) s call (e, w)
        (λ now q id a _. (
          e,
          entered-WithinQuota s q id (admits-over_quota c json now s q a)
              (subst HasU32Quotas (sym e) u) w,
        ))
        (λ id. (e, closed_at-WithinQuota s id w))

  -- A relay that starts with no session never has more open sessions for a source than the first
  -- quota of that source allows, whatever requests and closes it serves, at whatever times and with
  -- whatever ids drawn, if the limits of its quotas fit in 32 bits.
  pub run-WithinQuota :
      (node : RelayNode) (calls : List Call)
      → HasU32Quotas node
      → WithinQuota (run c json (new_service node) calls)
  unfolding new_service
  run-WithinQuota node calls u =
      (run_keeps c json (Held node) (step-Held node u) calls (new_service node)
        (refl, λ source quota e. omega arith)).1
