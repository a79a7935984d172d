-- ===== src/Fabric/ErrorTexts.antt =====
-- The texts of the errors of crates/control, crates/transport and crates/fabric (src/lib.rs each).
use quipnet.Base.{◌++◌, Bytes, text, decimal}
use quipnet.Crypto.{Primitives}
use quipnet.PeerText.{to_text}
use quipnet.Control.{
  ControlError, network_mismatch, subject_mismatch, membership_rollback, grant_conflict, transport,
  decode, missing_subject,
}
use quipnet.Transport.{
  TransportError, unreachable, protocol_rejected, not_implemented, no_route, policy_denied,
  invalid_route, relay_rejected,
}
use quipnet.Fabric.State
use quipnet.Fabric.State.{
  DaemonStateError, io, serialization, peer_not_found, session_not_found, invalid_session,
  missing_membership, missing_schema_version, invalid_backup_bundle, backup_key_derivation,
  control_failed, transport_failed, migration_required, unsupported_schema_version,
  unsupported_durable_field,
}

abbrev control_error_text : ControlError → Bytes
control_error_text network_mismatch = text "snapshot network does not match client network"
control_error_text subject_mismatch =
    text "incoming membership subject does not match local membership subject"
control_error_text membership_rollback =
    text "incoming membership is older than the local membership"
control_error_text grant_conflict = text "grant identity collision with non-identical payload"
control_error_text (transport m) = text "http transport failed: " ++ m
control_error_text (decode m) = text "snapshot decoding failed: " ++ m
control_error_text (missing_subject m) = text "authority subject projection is unavailable: " ++ m

module _ (c : Primitives) where
  unfoldable pub transport_error_text : TransportError → Bytes
  transport_error_text unreachable = text "peer is unreachable"
  transport_error_text (no_route p) = text "no route is available for peer " ++ to_text c p
  transport_error_text protocol_rejected = text "protocol is not authorized or supported"
  transport_error_text (policy_denied m) = text "policy denied transport request: " ++ m
  transport_error_text (invalid_route m) = text "route plan is invalid: " ++ m
  transport_error_text (relay_rejected m) = text "relay rejected session open: " ++ m
  transport_error_text not_implemented = text "transport implementation is not wired yet"

  unfoldable pub state_error_text : DaemonStateError → Bytes
  state_error_text (io m) = text "io error: " ++ m
  state_error_text (serialization m) = text "serialization error: " ++ m
  state_error_text (peer_not_found p) = text "peer " ++ (p ++ text " was not found in daemon state")
  state_error_text State.DaemonStateError.network_mismatch =
      text "authority snapshot network does not match configured network"
  state_error_text missing_membership =
      text "authority snapshot did not contain a membership certificate"
  state_error_text (control_failed e) = text "control-plane merge failed: " ++ control_error_text e
  state_error_text (State.DaemonStateError.no_route p) =
      text "no route is available for peer " ++ to_text c p
  state_error_text (State.DaemonStateError.policy_denied m) =
      text "transport policy denied request: " ++ m
  state_error_text (transport_failed e) =
      text "transport execution failed: " ++ transport_error_text e
  state_error_text (session_not_found id) = text "session " ++ (id ++ text " was not found")
  state_error_text (invalid_session m) = text "session state is invalid: " ++ m
  state_error_text missing_schema_version = text "durable state schema version is missing"
  state_error_text (migration_required found target) =
      text "durable state schema version "
      ++ (decimal found
          ++ (text " requires explicit migration before use; target schema is " ++ decimal target))
  state_error_text (unsupported_schema_version found expected) =
      text "durable state schema version "
      ++ (decimal found ++ (text " is unsupported; expected " ++ decimal expected))
  state_error_text (unsupported_durable_field f) =
      text "durable state contains unsupported field `" ++ (f ++ text "`")
  state_error_text invalid_backup_bundle =
      text "backup bundle is invalid or the passphrase is incorrect"
  state_error_text backup_key_derivation = text "backup bundle key derivation failed"
