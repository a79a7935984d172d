-- ===== src/Relay/Runtime.antt =====
-- `RelayRuntime` of crates/relay/src/lib.rs: sessions by id, and the frames that move them.
use quipnet.Base.{
  ℕ, Bool, true, false, Option, none, some, [], Bytes, Result, ok, err, if◌then◌else◌, count,
}
use quipnet.Base.Maps.{Map, get, insert, remove, update, values}
use quipnet.Model.{PeerId, ProtocolId, TrafficClass}
use quipnet.RelayWire.{
  RelayOpenRequest, RelaySessionAccepted, RelayFrame, open_session, session_accepted,
  session_rejected, payload, health, close,
}

pub data RelayError : Type 0 where
  unauthorized session_exists session_not_found : RelayError
  invalid_identity_proof control_transport control_decode : Bytes → RelayError
  destination_unauthorized destination_protocol_rejected unavailable : PeerId → RelayError
  unsupported_traffic_class : TrafficClass → RelayError
  capacity_exceeded : PeerId → RelayError

pub data RelaySessionStatus : Type 0 where
  pending opened closed : RelaySessionStatus

pub RelaySessionStatus-discrete : Discrete RelaySessionStatus
RelaySessionStatus-discrete = hlevel

pub record RelaySession : Type 0 where
  pub session_id : Bytes
  pub source : PeerId
  pub destination : PeerId
  pub protocol : Option ProtocolId
  pub traffic_class : TrafficClass
  pub status : RelaySessionStatus

pub record RelayRuntime : Type 0 where
  pub sessions : Map RelaySession

abbrev pub status_is_open : RelaySessionStatus → Bool
status_is_open opened = true
status_is_open _ = false

abbrev pub is_open : RelaySession → Bool
is_open s = status_is_open s.status

abbrev pub empty_runtime : RelayRuntime
empty_runtime = record { sessions = [] }

unfoldable pub session : RelayRuntime → Bytes → Option RelaySession
session r id = get id r.sessions

unfoldable pub session_count : RelayRuntime → ℕ
session_count r = count is_open (values r.sessions)

-- `pending_session_id`.
abbrev pub pending_session_id : Bytes → Bytes
pending_session_id attempt_id = attempt_id

abbrev pub pending_session : RelayOpenRequest → RelaySession
pending_session q = record {
  session_id = pending_session_id q.attempt_id;
  source = q.source;
  destination = q.destination;
  protocol = q.protocol;
  traffic_class = q.traffic_class;
  status = pending;
}

abbrev pub accepted_session : RelaySessionAccepted → RelaySession
accepted_session a = record {
  session_id = a.session_id;
  source = a.source;
  destination = a.destination;
  protocol = a.protocol;
  traffic_class = a.traffic_class;
  status = opened;
}

abbrev pub close_status : RelaySession → RelaySession
close_status s = record s { status = closed }

-- The arm of `Data | Health`.
carries : RelayRuntime → Bytes → Result RelayError (Unit {0})
carries r id = elim (get id r.sessions) [
  | none ↦ err unauthorized
  | some s ↦ if is_open s then ok tt else err unauthorized
]

-- `RelayRuntime::apply_frame`: the new table, and the answer.
unfoldable pub apply_frame : RelayRuntime → RelayFrame → RelayRuntime × Result RelayError (Unit {0})
unfolding carries
apply_frame r (open_session q) = (
  record { sessions = insert (pending_session_id q.attempt_id) (pending_session q) r.sessions },
  ok tt,
)
apply_frame r (session_accepted a) =
    (record { sessions = insert a.session_id (accepted_session a) r.sessions }, ok tt)
apply_frame r (session_rejected x) =
    (record { sessions = remove (pending_session_id x.attempt_id) r.sessions }, err unauthorized)
apply_frame r (payload id _) = (r, carries r id)
apply_frame r (health id _ _) = (r, carries r id)
apply_frame r (close id _) = (record { sessions = update id close_status r.sessions }, ok tt)
