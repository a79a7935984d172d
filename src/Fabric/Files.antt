-- ===== src/Fabric/Files.antt =====
-- The state file of crates/fabric/src/lib.rs: load, save, inspection and migration. A disk holds the
-- bytes of its files by path; directories, and errors of the disk other than a missing file, are left
-- out, and so are the messages of errors of the disk and of serde. `Serde` is serde_json and the
-- derived instances of `DaemonState`.
use quipnet.Base.{
  ℕ, ◌≡◌, Bool, true, false, Option, none, some, List, [], ◌∷◌, ◌++◌, Bytes, text, length, Result,
  ok, err, ◌>>=◌, ◌>>◌, ok_or,
}
use quipnet.Base.Maps.{Map, get, insert}
use quipnet.Model.{PeerId}
use quipnet.Crypto.{Primitives}
use quipnet.Fabric.State.{
  DaemonRole, DaemonState, DaemonStateError, io, serialization, missing_schema_version,
  migration_required, unsupported_schema_version, unsupported_durable_field, relay_count,
  daemon_state_schema_version,
}
use quipnet.Fabric.Json.{Value}
use quipnet.Fabric.ErrorTexts.{state_error_text}
use quipnet.Fabric.Durable.{
  validate_durable_state_value, durable_state_schema_version, migrate_durable_state_value,
}

abbrev pub Disk : Type 0
Disk = Map Bytes

pub record Serde (F : Type 0) : Type 0 where
  pub from_slice : Bytes → Option Value
  pub to_vec_pretty : Value → Bytes
  pub from_value : Value → Option (DaemonState F)
  pub to_value : DaemonState F → Value

-- What serde documents: a printed value is read back; and a state that is written is read back but for
-- its sessions, which `skip_serializing` leaves out. Its fields are those that the validation allows.
pub record IsSerde {F : Type 0} (d : Serde F) : Type 0 where
  pub slice_vec : (v : Value) → d.from_slice (d.to_vec_pretty v) ≡ some v
  pub value_state :
      (s : DaemonState F) → d.from_value (d.to_value s) ≡ some (record s { active_sessions = [] })
  pub state_fields :
      (s : DaemonState F)
      → s.schema_version ≡ daemon_state_schema_version
      → validate_durable_state_value (d.to_value s) ≡ ok tt

pub record DurableStateViolation : Type 0 where
  pub path : Bytes
  pub message : Bytes

pub record DurableStateSummary : Type 0 where
  pub network : Bytes
  pub local_peer_id : PeerId
  pub roles : List DaemonRole
  pub bootstrap_hints : ℕ
  pub relays : ℕ
  pub peers : ℕ
  pub capability_grants : ℕ
  pub revocations : ℕ
  pub denied_peers : ℕ
  pub path_candidates : ℕ

pub record DurableStateInspectionReport : Type 0 where
  pub state_path : Bytes
  pub present : Bool
  pub schema_version : Option ℕ
  pub valid : Bool
  pub violations : List DurableStateViolation
  pub summary : Option DurableStateSummary

pub record DurableStateMigrationReport : Type 0 where
  pub state_path : Bytes
  pub from_schema_version : ℕ
  pub to_schema_version : ℕ
  pub migrated_fields : List Bytes

unfoldable pub durable_state_summary : {F : Type 0} → DaemonState F → DurableStateSummary
unfolding relay_count
durable_state_summary s = record {
  network = s.network;
  local_peer_id = s.local_peer_id;
  roles = s.roles;
  bootstrap_hints = length s.bootstrap;
  relays = relay_count s;
  peers = length s.peers;
  capability_grants = length s.capability_grants;
  revocations = length s.revocations;
  denied_peers = length s.denied_peers;
  path_candidates = length s.path_candidates;
}

module _ (c : Primitives) where
  -- Where the violation stands.
  abbrev violation_path : DaemonStateError → Bytes
  violation_path missing_schema_version = text "$.schema_version"
  violation_path (migration_required _ _) = text "$.schema_version"
  violation_path (unsupported_schema_version _ _) = text "$.schema_version"
  violation_path (unsupported_durable_field f) = text "$." ++ f
  violation_path _ = text "$"

  unfoldable pub durable_state_violations_from_error : DaemonStateError → List DurableStateViolation
  durable_state_violations_from_error e =
      record { path = violation_path e; message = state_error_text c e } ∷ []

  module _ {F : Type 0} (d : Serde F) where
    unfoldable pub load : Disk → Bytes → Result DaemonStateError (DaemonState F)
    load disk path = do
      bytes ← ok_or (get path disk) (io [])
      value ← ok_or (d.from_slice bytes) (serialization [])
      validate_durable_state_value value
      s ← ok_or (d.from_value value) (serialization [])
      ok (record s { active_sessions = [] })

    unfoldable pub save : DaemonState F → Disk → Bytes → Disk
    save s disk path =
        insert path
          (d.to_vec_pretty (
            d.to_value
              (record s { schema_version = daemon_state_schema_version; active_sessions = [] })))
          disk

    -- A report of a file that is not a valid state.
    abbrev invalid :
        Bytes → Bool → Option ℕ → List DurableStateViolation → DurableStateInspectionReport
    invalid path present version violations = record {
      state_path = path;
      present = present;
      schema_version = version;
      valid = false;
      violations = violations;
      summary = none;
    }

    abbrev at_root : Bytes → List DurableStateViolation
    at_root message = record { path = text "$"; message = message } ∷ []

    -- The report on a JSON value.
    unfoldable pub inspect_value : Bytes → Value → DurableStateInspectionReport
    inspect_value path value = elim (validate_durable_state_value value) [
      | err e ↦
          invalid path true (durable_state_schema_version value)
            (durable_state_violations_from_error e)
      | ok _ ↦ elim (d.from_value value) [
        | none ↦
            invalid path true (durable_state_schema_version value)
              (at_root (text "durable state could not be deserialized: "))
        | some s ↦ record {
          state_path = path;
          present = true;
          schema_version = durable_state_schema_version value;
          valid = true;
          violations = [];
          summary = some (durable_state_summary s);
        }
      ]
    ]

    unfoldable pub inspect_durable_state_file : Disk → Bytes → DurableStateInspectionReport
    unfolding inspect_value
    inspect_durable_state_file disk path = elim (get path disk) [
      | none ↦ invalid path false none (at_root (text "durable state file is missing"))
      | some bytes ↦ elim (d.from_slice bytes) [
        | none ↦ invalid path true none (at_root (text "durable state is not valid JSON: "))
        | some value ↦ inspect_value path value
      ]
    ]

    unfoldable pub validate_durable_state_file : Disk → Bytes → DurableStateInspectionReport
    validate_durable_state_file disk path = record (inspect_durable_state_file disk path) {
      summary = none;
    }

    -- The disk after the call, with its answer.
    unfoldable pub migrate_durable_state_file :
        Disk → Bytes → Result DaemonStateError (Disk × DurableStateMigrationReport)
    migrate_durable_state_file disk path = do
      bytes ← ok_or (get path disk) (io [])
      value ← ok_or (d.from_slice bytes) (serialization [])
      from_schema_version ← ok_or (durable_state_schema_version value) missing_schema_version
      (migrated, fields) ← migrate_durable_state_value value
      validate_durable_state_value migrated
      ok (
        insert path (d.to_vec_pretty migrated) disk,
        record {
          state_path = path;
          from_schema_version = from_schema_version;
          to_schema_version = daemon_state_schema_version;
          migrated_fields = fields;
        },
      )
