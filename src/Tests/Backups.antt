-- ===== src/Tests/Backups.antt =====
-- A backup bundle that is exported on one disk and restored on it under other names.
use quipnet.Base.{
  true, false, none, some, [], ◌∷◌, ◌++◌, Bytes, drop, length, text, ◌≡◌, ◌≢◌, refl, arith, ok,
  bytes_discrete,
}
use quipnet.Base.Maps.{get, insert, contains_key}
use quipnet.Fabric.Files.{Disk, inspect_durable_state_file, inspect_value}
use quipnet.Fabric.Json.{get_field, unsigned, object, field, end}
use quipnet.Fabric.Durable.{validate_durable_state_value, is_allowed, check_version, check_fields}
use quipnet.Fabric.Backup.{
  Sealing, Draw, DurableBackupExportRequest, DurableBackupExportReport, DurableBackupRestoreRequest,
}
use quipnet.Fabric.Backup.Bundle.{
  export_backup_bundle, restore_backup_bundle, bundle_data, encrypt_backup_bundle,
  derive_backup_key,
}
use quipnet.Fabric.Bundles.{Restoration, restore-export}
use quipnet.Fabric.Bundles.Exports.{IsSealing}
use quipnet.Tests.Codecs.{drop-append_self, bundle, envelope, decoded, decoded-write}
use quipnet.Tests.Daemons.{serde}
use quipnet.Tests.Toy.{toy}

-- The encryption puts the key in front.
abbrev sealing : Sealing
sealing = record {
  sha256_hex = λ b. b;
  scrypt = λ p s. some (s ++ p);
  encrypt = λ k n b. some (n ++ b);
  decrypt = λ k n b. some (drop (length n) b);
  base64 = λ b. b;
  base64_decode = λ b. some b;
  bundle_json = bundle.write;
  bundle_of = decoded bundle;
  envelope_json = envelope.write;
  envelope_of = decoded envelope;
}

opened : (n b sealed : Bytes) → some (n ++ b) ≡ some sealed → some (drop (length n) sealed) ≡ some b
opened n b sealed e = ground (arith, drop-append_self n b)

sealing-IsSealing : IsSealing sealing
sealing-IsSealing = record {
  decrypt_encrypt = λ k n b sealed e. opened n b sealed e;
  decode_base64 = λ b. refl;
  bundle_read = decoded-write bundle;
  envelope_read = decoded-write envelope;
}

abbrev export : DurableBackupExportRequest
export = record {
  output_path = text "quip.bundle";
  passphrase = text "secret";
  hostname = text "host";
  environment = text "test";
  identity_path = text "node.json";
  state_path = text "state.json";
  network = text "lab";
  authority_origin = none;
  authority_subject = none;
  authority_snapshot = none;
  overwrite = true;
}

abbrev disk : Disk
disk = (text "node.json", 7 ∷ 7 ∷ []) ∷ (text "state.json", 2 ∷ []) ∷ []

abbrev draw : Draw
draw = record { salt = 5 ∷ []; nonce = 6 ∷ []; now = 30 }

abbrev request : DurableBackupRestoreRequest
request = record {
  input_path = text "quip.bundle";
  passphrase = text "secret";
  identity_path = text "restored.json";
  state_path = text "restored_state.json";
  overwrite = true;
}

abbrev identity : Bytes
identity = 7 ∷ 7 ∷ []

abbrev state : Bytes
state = 2 ∷ []

abbrev after : Disk
after =
    insert (text "quip.bundle")
      (envelope.write (record {
        version = 1;
        cipher = text "chacha20poly1305";
        kdf = text "scrypt";
        salt = 5 ∷ [];
        nonce = 6 ∷ [];
        ciphertext = 6 ∷ bundle.write (bundle_data sealing 30 export true true identity state);
      }))
      disk

abbrev report : DurableBackupExportReport
report = record {
  bundle_path = text "quip.bundle";
  created_at_unix_secs = 30;
  hostname = text "host";
  environment = text "test";
  network = text "lab";
  identity_sha256_hex = identity;
  state_sha256_hex = state;
  durable_state_present = true;
  durable_state_valid = true;
}

identity_there : get (text "node.json") disk ≡ some identity
unfolding get bytes_discrete
identity_there = ground arith

state_there : get (text "state.json") disk ≡ some state
unfolding get bytes_discrete
state_there = ground arith

no_bundle : contains_key (text "quip.bundle") disk ≡ false
unfolding get bytes_discrete
no_bundle = ground arith

version_two :
    validate_durable_state_value (object (field (text "schema_version") (unsigned 2) end)) ≡ ok tt
unfolding validate_durable_state_value check_version check_fields get_field bytes_discrete
    is_allowed
version_two = ground arith

state_valid : (inspect_durable_state_file toy serde disk (text "state.json")).valid ≡ true
unfolding inspect_durable_state_file inspect_value
state_valid = ground (arith, state_there, version_two)

state_present : (inspect_durable_state_file toy serde disk (text "state.json")).present ≡ true
unfolding inspect_durable_state_file inspect_value
state_present = ground (arith, state_there, version_two)

succeeds : export_backup_bundle sealing toy serde draw disk export ≡ ok (after, report)
unfolding export_backup_bundle encrypt_backup_bundle derive_backup_key
succeeds =
    rw (no_bundle, export_backup_bundle)
      (rw (identity_there, export_backup_bundle)
        (rw (state_there, export_backup_bundle) (rw (state_valid, state_present) refl)))

other_targets : text "restored.json" ≢ text "restored_state.json"
other_targets = λ e. cc

restore-export_example :
    Restoration sealing toy serde true
      (get (text "node.json") disk)
      (get (text "state.json") disk)
      request
      after
      (restore_backup_bundle sealing toy serde after request)
restore-export_example =
    restore-export sealing toy serde draw disk export after report after request sealing-IsSealing
      succeeds refl refl other_targets refl
