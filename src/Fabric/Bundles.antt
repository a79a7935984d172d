-- ===== src/Fabric/Bundles.antt =====
-- A backup bundle that is exported and restored, in crates/fabric/src/lib.rs.
pub mod Exports
use quipnet.Base.{
  Bool, true, false, not, ◌&&◌, Option, some, Bytes, ◌≡◌, ◌≢◌, arith, bytes_eq, nat_eq, inl, inr,
  Bool-cases, Option-cases, Result-cases, Result, ok, err, ◌>>=◌, ◌>>◌, ok_or, ap, ◌∙◌,
}
use quipnet.Base.Maps.{get, insert, contains_key}
use quipnet.Crypto.{Primitives}
use quipnet.Fabric.State.{DaemonStateError, invalid_backup_bundle}
use quipnet.Fabric.Durable.{validate_durable_state_value}
use quipnet.Fabric.Files.{Disk, Serde, inspect_value, inspect_durable_state_file}
use quipnet.Fabric.Backup.{
  Sealing, Draw, DurableBackupBundleData, DurableBackupBundleEnvelope, DurableBackupExportRequest,
  DurableBackupExportReport, DurableBackupRestoreRequest, DurableBackupRestoreReport,
}
use quipnet.Fabric.Backup.Bundle.{
  derive_backup_key, encrypt_backup_bundle, is_foreign, decrypt_backup_bundle, asset, bundle_data,
  find_asset, export_backup_bundle, restore_backup_bundle,
}
use quipnet.Fabric.Inspections.{get_inserted, get_other}
use quipnet.Fabric.Bundles.Exports.{IsSealing, decrypt-encrypt, Exported, export-Exported}

module _ (k : Sealing) (c : Primitives) {F : Type 0} (d : Serde F) where
  -- The restoring end: any disk on which the bundle stands.
  module _ (g : IsSealing k) (draw : Draw) (export : DurableBackupExportRequest)
      (present valid : Bool) (identity state : Bytes) (envelope : DurableBackupBundleEnvelope)
      (disk : Disk) (request : DurableBackupRestoreRequest) where
    -- Up to the validation of the state file.
    restore-opened :
        encrypt_backup_bundle k draw
            (bundle_data k draw.now export present valid identity state)
            request.passphrase
          ≡ ok envelope
        → request.overwrite ≡ true
        → get request.input_path disk ≡ some (k.envelope_json envelope)
        → restore_backup_bundle k c d disk request ≡ (do
          value ← ok_or (d.from_slice state) invalid_backup_bundle
          validate_durable_state_value value
          ok (
            insert request.state_path state (insert request.identity_path identity disk),
            record {
              input_path = request.input_path;
              restored_identity_path = request.identity_path;
              restored_state_path = request.state_path;
              created_at_unix_secs = draw.now;
              hostname = export.hostname;
              environment = export.environment;
              network = export.network;
              identity_sha256_hex = k.sha256_hex identity;
              state_sha256_hex = k.sha256_hex state;
            },
          ))
    unfolding restore_backup_bundle bundle_data find_asset asset
    restore-opened e o i =
        let b = bundle_data k draw.now export present valid identity state in
        rw (o, restore_backup_bundle)
          (rw (i, restore_backup_bundle)
            (rw (g.envelope_read envelope, restore_backup_bundle)
              (rw (decrypt-encrypt k g draw b request.passphrase envelope e, ◌>>=◌)
                (rw (g.decode_base64 identity, ◌>>=◌)
                  (rw (g.decode_base64 state, ◌>>=◌) (ground arith))))))

  -- The result of a restore from the bundle of two files.
  pub data Restoration (valid : Bool) (identity state : Option Bytes)
      (request : DurableBackupRestoreRequest) (disk : Disk)
      : Result DaemonStateError (Disk × DurableBackupRestoreReport) → Type 0 where
    restored :
        (after : Disk) (report : DurableBackupRestoreReport)
        → get request.identity_path after ≡ identity
        → get request.state_path after ≡ state
        → ((other : Bytes)
            → other ≢ request.identity_path
            → other ≢ request.state_path
            → get other after ≡ get other disk)
        → Restoration valid identity state request disk (ok (after, report))
    refused :
        (e : DaemonStateError)
        → valid ≡ false
        → Restoration valid identity state request disk (err e)

  abbrev checked :
      Disk
      → DurableBackupRestoreReport
      → Bytes
      → Result DaemonStateError (Disk × DurableBackupRestoreReport)
  checked after report state = do
    value ← ok_or (d.from_slice state) invalid_backup_bundle
    validate_durable_state_value value
    ok (after, report)

  checked-Restoration :
      (path : Bytes) (source : Disk) (identity state : Bytes)
      (request : DurableBackupRestoreRequest) (disk : Disk) (report : DurableBackupRestoreReport)
      → get path source ≡ some state
      → request.identity_path ≢ request.state_path
      → Restoration
          (inspect_durable_state_file c d source path).valid
          (some identity)
          (some state)
          request
          disk
          (checked
            (insert request.state_path state (insert request.identity_path identity disk))
            report
            state)
  unfolding inspect_durable_state_file inspect_value
  checked-Restoration path source identity state request disk report s n =
      let first = insert request.identity_path identity disk in
      elim (Option-cases (d.from_slice state)) [
        | inl p ↦ rw (p, ◌>>=◌) (refused invalid_backup_bundle (ground (arith, s, p)))
        | inr (value, p) ↦ elim (Result-cases (validate_durable_state_value value)) [
          | inr (e, v) ↦ rw (p, ◌>>=◌) (rw (v, ◌>>=◌) (refused e (ground (arith, s, p, v))))
          | inl (t, v) ↦
              rw (p, ◌>>=◌)
                (rw (v, ◌>>=◌)
                  (restored _ report
                    (get_other request.state_path request.identity_path state first n
                      ∙ get_inserted request.identity_path identity disk)
                    (get_inserted request.state_path state first)
                    (λ other i j.
                      get_other request.state_path other state first j
                      ∙ get_other request.identity_path other identity disk i)))
        ]
      ]

  -- When an export has succeeded, the bundle is restored, from any disk on which it stands and with
  -- its passphrase, to other files: they get the bytes of the exported identity and state, and every
  -- other file stays; or it is refused, which happens only if the report of the export called the state
  -- invalid. The restore is allowed to overwrite, and its two targets differ.
  pub restore-export :
      (draw : Draw) (source : Disk) (export : DurableBackupExportRequest) (after : Disk)
      (report : DurableBackupExportReport) (disk : Disk) (request : DurableBackupRestoreRequest)
      → IsSealing k
      → export_backup_bundle k c d draw source export ≡ ok (after, report)
      → request.passphrase ≡ export.passphrase
      → request.overwrite ≡ true
      → request.identity_path ≢ request.state_path
      → get request.input_path disk ≡ get export.output_path after
      → Restoration report.durable_state_valid
          (get export.identity_path source)
          (get export.state_path source)
          request
          disk
          (restore_backup_bundle k c d disk request)
  restore-export draw source export after report disk request g h p o n i =
      let x = export-Exported k c d draw source export after report h in
      let at : get request.input_path disk ≡ some (k.envelope_json x.envelope) =
        i ∙ (ap (get export.output_path) x.written ∙ get_inserted export.output_path _ source) in
      let sealed : encrypt_backup_bundle k draw
            (bundle_data k draw.now export x.present report.durable_state_valid x.identity x.state)
            request.passphrase
          ≡ ok x.envelope =
        ap
          (encrypt_backup_bundle k draw
            (bundle_data k draw.now export x.present report.durable_state_valid x.identity x.state))
          p
        ∙ x.sealed in
      rw
        (
          restore-opened g draw export x.present report.durable_state_valid x.identity x.state
              x.envelope disk request sealed o at,
          x.identity_read,
          x.state_read,
          x.valid,
        )
        (checked-Restoration export.state_path source x.identity x.state request disk _ x.state_read
          n)
