-- ===== src/Relay/Service.antt =====
-- `RelayService` of crates/relay/src/lib.rs. The random session id and the clock are arguments.
use quipnet.Base.{
  ℕ, Bool, Option, none, some, ◌++◌, Bytes, text, ◌==◌, Result, ok, err, if◌then◌else◌, ◌&&◌, find,
  leb, count, u32, bytes_eq,
}
use quipnet.Base.Maps.{values, contains_key}
use quipnet.Model.{PeerId}
use quipnet.PeerText.{to_text}
use quipnet.Crypto.{Primitives}
use quipnet.Identity.{SessionCredentialUnsigned}
use quipnet.RelayWire.{
  RelayRejectCode, invalid_identity_proof, unsupported_traffic_class, destination_unauthorized,
  destination_protocol_rejected, capacity_exceeded, session_exists, RelayOpenRequest,
  RelaySessionAccepted, RelaySessionRejected, open_session, session_accepted, close,
}
use quipnet.Relay.Runtime.{
  RelayError, session_not_found, RelaySession, RelayRuntime, is_open, empty_runtime, session,
  apply_frame,
}
use quipnet.Relay.Runtime
use quipnet.Relay.Admission.{
  RelayQuota, RelayNode, class_debug, supports_traffic_class, error_text, verify_open_request,
  authorize_destination,
}

pub record RelayService : Type 0 where
  pub node : RelayNode
  pub runtime : RelayRuntime

-- `RelayService::new`.
unfoldable pub new_service : RelayNode → RelayService
new_service node = record { node = node; runtime = empty_runtime }

-- A call that returns, or that a failed `expect` ends.
pub data Outcome (A : Type 0) : Type 0 where
  returned : A → Outcome A
  panicked : Outcome A

abbrev pub rejection : RelayOpenRequest → RelayRejectCode → Bytes → RelaySessionRejected
rejection q code reason = record {
  attempt_id = q.attempt_id;
  code = code;
  source = q.source;
  destination = q.destination;
  protocol = q.protocol;
  traffic_class = q.traffic_class;
  reason = reason;
}

abbrev pub id_taken : RelayOpenRequest → RelaySessionRejected
id_taken q = rejection q session_exists (text "relay session already exists")

abbrev pub acceptance : RelayOpenRequest → Bytes → RelaySessionAccepted
acceptance q session_id = record {
  attempt_id = q.attempt_id;
  session_id = session_id;
  source = q.source;
  destination = q.destination;
  protocol = q.protocol;
  traffic_class = q.traffic_class;
}

abbrev destination_code : RelayError → RelayRejectCode
destination_code (Runtime.destination_protocol_rejected _) = destination_protocol_rejected
destination_code _ = destination_unauthorized

-- An open session of the source.
abbrev pub holds_for : PeerId → RelaySession → Bool
holds_for source s = (s.source == source) && is_open s

-- `.count() as u32`.
unfoldable pub active_for_source : RelayRuntime → PeerId → ℕ
active_for_source r source = u32 (count (holds_for source) (values r.sessions))

-- The quota of the source is used up. Without a quota it never is.
unfoldable pub over_quota : RelayService → PeerId → Option RelayQuota
over_quota s source = elim (find (λ (q : RelayQuota). q.peer == source) s.node.quotas) [
  | none ↦ none
  | some q ↦
      if leb q.max_concurrent_sessions (active_for_source s.runtime source) then some q else none
]

module _ (c : Primitives) (json : SessionCredentialUnsigned → Bytes) (now : ℕ) where
  -- The guards of `RelayService::open_session` before a session id is drawn.
  unfoldable pub admits : RelayService → RelayOpenRequest → Result RelaySessionRejected (Unit {0})
  admits s q = elim (verify_open_request c json now q) [
    | err e ↦ err (rejection q invalid_identity_proof (error_text c e))
    | ok _ ↦
        if supports_traffic_class s.node.announcement.traffic_classes q.traffic_class
        then elim (authorize_destination s.node.destinations q.destination q.protocol) [
          | err e ↦ err (rejection q (destination_code e) (error_text c e))
          | ok _ ↦ elim (over_quota s q.source) [
            | some quota ↦ err (
                rejection q capacity_exceeded
                  (text "source " ++ (to_text c quota.peer ++ text " is over relay session quota")))
            | none ↦ ok tt
          ]
        ]
        else err (
            rejection q unsupported_traffic_class
              (text "relay does not support " ++ (class_debug q.traffic_class ++ text " traffic")))
  ]

  -- The two frames that enter an admitted session.
  unfoldable pub enter :
      RelayService
      → RelayOpenRequest
      → Bytes
      → Outcome (RelayService × Result RelaySessionRejected RelaySessionAccepted)
  enter s q session_id =
      let (pending, first) = apply_frame s.runtime (open_session q) in
      let accepted = acceptance q session_id in
      let (opened, second) = apply_frame pending (session_accepted accepted) in
      elim first [
        | err _ ↦ panicked
        | ok _ ↦ elim second [
          | err _ ↦ panicked
          | ok _ ↦ returned (record s { runtime = opened }, ok accepted)
        ]
      ]

  -- `RelayService::open_session`, with `session_id` from `random_session_id()`.
  unfoldable pub open_relay_session :
      RelayService
      → RelayOpenRequest
      → Bytes
      → Outcome (RelayService × Result RelaySessionRejected RelaySessionAccepted)
  open_relay_session s q session_id = elim (admits s q) [
    | err e ↦ returned (s, err e)
    | ok _ ↦
        if contains_key session_id s.runtime.sessions
        then returned (s, err (id_taken q))
        else enter s q session_id
  ]

-- `RelayService::close_session`.
unfoldable pub close_relay_session :
    RelayService → Bytes → Bytes → RelayService × Result RelayError (Unit {0})
close_relay_session s session_id reason = elim (session s.runtime session_id) [
  | none ↦ (s, err session_not_found)
  | some _ ↦
      let (r, answer) = apply_frame s.runtime (close session_id reason) in
      (record s { runtime = r }, answer)
]
