-- ===== src/Fabric/Backup/Bundle.antt =====
-- The bundle of crates/fabric/src/lib.rs: encrypted and decrypted, exported and restored.
use quipnet.Base.{
  ℕ, Bool, not, ◌&&◌, ◌||◌, [], ◌∷◌, ◌++◌, Bytes, text, length, ◌==◌, ◌!=◌, bytes_eq, nat_eq, find,
  Result, ok, ◌>>=◌, ◌>>◌, reject_if, ok_or,
}
use quipnet.Base.Maps.{get, insert, contains_key}
use quipnet.Crypto.{Primitives}
use quipnet.Fabric.State.{
  DaemonStateError, io, serialization, invalid_session, invalid_backup_bundle,
  backup_key_derivation,
}
use quipnet.Fabric.Durable.{validate_durable_state_value}
use quipnet.Fabric.Files.{Disk, Serde, inspect_durable_state_file}
use quipnet.Fabric.Backup.{
  Draw, DurableBackupAsset, DurableBackupBundleData, DurableBackupBundleEnvelope,
  DurableBackupExportReport, DurableBackupExportRequest, DurableBackupManifest,
  DurableBackupRestoreReport, DurableBackupRestoreRequest, Sealing, backup_bundle_format_version,
}

module _ (k : Sealing) where
  unfoldable pub derive_backup_key : Bytes → Bytes → Result DaemonStateError Bytes
  derive_backup_key passphrase salt = ok_or (k.scrypt passphrase salt) backup_key_derivation

  unfoldable pub encrypt_backup_bundle :
      Draw → DurableBackupBundleData → Bytes → Result DaemonStateError DurableBackupBundleEnvelope
  encrypt_backup_bundle draw bundle passphrase = do
    key ← derive_backup_key passphrase draw.salt
    ciphertext ← ok_or (k.encrypt key draw.nonce (k.bundle_json bundle)) invalid_backup_bundle
    ok (record {
      version = backup_bundle_format_version;
      cipher = text "chacha20poly1305";
      kdf = text "scrypt";
      salt = draw.salt;
      nonce = draw.nonce;
      ciphertext = k.base64 ciphertext;
    })

  -- The header names the format that `encrypt_backup_bundle` writes.
  unfoldable pub is_foreign : DurableBackupBundleEnvelope → Bool
  is_foreign e =
      (e.version != backup_bundle_format_version)
      || ((e.cipher != text "chacha20poly1305") || (e.kdf != text "scrypt"))

  unfoldable pub decrypt_backup_bundle :
      DurableBackupBundleEnvelope → Bytes → Result DaemonStateError DurableBackupBundleData
  decrypt_backup_bundle e passphrase = do
    reject_if (is_foreign e) invalid_backup_bundle
    ciphertext ← ok_or (k.base64_decode e.ciphertext) invalid_backup_bundle
    key ← derive_backup_key passphrase e.salt
    plaintext ← ok_or (k.decrypt key e.nonce ciphertext) invalid_backup_bundle
    ok_or (k.bundle_of plaintext) (serialization [])

  unfoldable pub asset : Bytes → Bytes → Bytes → DurableBackupAsset
  asset concern relative_path content = record {
    concern = concern;
    relative_path = relative_path;
    sha256_hex = k.sha256_hex content;
    bytes = length content;
  }

  -- The bundle of the two files.
  unfoldable pub bundle_data :
      ℕ → DurableBackupExportRequest → Bool → Bool → Bytes → Bytes → DurableBackupBundleData
  bundle_data now request present valid identity_bytes state_bytes = record {
    manifest = record {
      format = text "quip_backup_bundle";
      format_version = backup_bundle_format_version;
      created_at_unix_secs = now;
      hostname = request.hostname;
      environment = request.environment;
      network = request.network;
      identity_path = request.identity_path;
      state_path = request.state_path;
      authority_origin = request.authority_origin;
      authority_subject = request.authority_subject;
      authority_snapshot = request.authority_snapshot;
      durable_state_present = present;
      durable_state_valid = valid;
      assets =
          asset (text "identity") (text "identity/node.json") identity_bytes
          ∷ asset (text "network_state") (text "net/state.json") state_bytes
          ∷ [];
    };
    identity_file_base64 = k.base64 identity_bytes;
    state_file_base64 = k.base64 state_bytes;
  }

  -- The bytes of an asset's file hash to what the manifest says.
  unfoldable pub find_asset :
      Bytes → DurableBackupManifest → Result DaemonStateError DurableBackupAsset
  find_asset concern manifest =
      ok_or (find (λ a. a.concern == concern) manifest.assets) invalid_backup_bundle

  module _ (c : Primitives) {F : Type 0} (d : Serde F) where
    unfoldable pub export_backup_bundle :
        Draw
        → Disk
        → DurableBackupExportRequest
        → Result DaemonStateError (Disk × DurableBackupExportReport)
    unfolding inspect_durable_state_file
    export_backup_bundle draw disk request = do
      reject_if (contains_key request.output_path disk && not request.overwrite) (
          invalid_session (
            text "backup bundle path "
            ++ (request.output_path ++ text " already exists; rerun with overwrite enabled")))
      identity_bytes ← ok_or (get request.identity_path disk) (io [])
      state_bytes ← ok_or (get request.state_path disk) (io [])
      let durable_state = inspect_durable_state_file c d disk request.state_path
      envelope ←
          encrypt_backup_bundle draw
            (bundle_data draw.now request durable_state.present durable_state.valid identity_bytes
              state_bytes)
            request.passphrase
      ok (
        insert request.output_path (k.envelope_json envelope) disk,
        record {
          bundle_path = request.output_path;
          created_at_unix_secs = draw.now;
          hostname = request.hostname;
          environment = request.environment;
          network = request.network;
          identity_sha256_hex = k.sha256_hex identity_bytes;
          state_sha256_hex = k.sha256_hex state_bytes;
          durable_state_present = durable_state.present;
          durable_state_valid = durable_state.valid;
        },
      )

    unfoldable pub restore_backup_bundle :
        Disk
        → DurableBackupRestoreRequest
        → Result DaemonStateError (Disk × DurableBackupRestoreReport)
    restore_backup_bundle disk request = do
      reject_if
          (not request.overwrite
            && (contains_key request.identity_path disk || contains_key request.state_path disk))
          (invalid_session (text "restore target already exists; rerun with overwrite enabled"))
      bytes ← ok_or (get request.input_path disk) (io [])
      envelope ← ok_or (k.envelope_of bytes) (serialization [])
      bundle ← decrypt_backup_bundle envelope request.passphrase
      identity_bytes ← ok_or (k.base64_decode bundle.identity_file_base64) invalid_backup_bundle
      state_bytes ← ok_or (k.base64_decode bundle.state_file_base64) invalid_backup_bundle
      identity_asset ← find_asset (text "identity") bundle.manifest
      state_asset ← find_asset (text "network_state") bundle.manifest
      reject_if
          ((k.sha256_hex identity_bytes != identity_asset.sha256_hex)
            || (k.sha256_hex state_bytes != state_asset.sha256_hex))
          invalid_backup_bundle
      value ← ok_or (d.from_slice state_bytes) invalid_backup_bundle
      validate_durable_state_value value
      ok (
        insert request.state_path state_bytes (insert request.identity_path identity_bytes disk),
        record {
          input_path = request.input_path;
          restored_identity_path = request.identity_path;
          restored_state_path = request.state_path;
          created_at_unix_secs = bundle.manifest.created_at_unix_secs;
          hostname = bundle.manifest.hostname;
          environment = bundle.manifest.environment;
          network = bundle.manifest.network;
          identity_sha256_hex = k.sha256_hex identity_bytes;
          state_sha256_hex = k.sha256_hex state_bytes;
        },
      )
