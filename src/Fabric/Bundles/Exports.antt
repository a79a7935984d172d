-- ===== src/Fabric/Bundles/Exports.antt =====
-- What the export of a backup bundle has done, in crates/fabric/src/lib.rs, and the bundle that is
-- decrypted again.
use quipnet.Base.{
  Bool, not, ◌&&◌, some, Bytes, ◌≡◌, arith, bytes_eq, nat_eq, inl, inr, Bool-cases, Option-cases,
  Result-cases, ok,
}
use quipnet.Base.Maps.{get, insert, contains_key}
use quipnet.Crypto.{Primitives}
use quipnet.Fabric.Files.{Disk, Serde, inspect_durable_state_file}
use quipnet.Fabric.Backup.{
  Sealing, Draw, DurableBackupBundleData, DurableBackupBundleEnvelope, DurableBackupExportRequest,
  DurableBackupExportReport,
}
use quipnet.Fabric.Backup.Bundle.{
  derive_backup_key, encrypt_backup_bundle, is_foreign, decrypt_backup_bundle, bundle_data,
  export_backup_bundle,
}

-- What the crates document: what is encrypted, encoded or printed is read back.
pub record IsSealing (k : Sealing) : Type 0 where
  pub decrypt_encrypt :
      (key nonce plain sealed : Bytes)
      → k.encrypt key nonce plain ≡ some sealed
      → k.decrypt key nonce sealed ≡ some plain
  pub decode_base64 : (b : Bytes) → k.base64_decode (k.base64 b) ≡ some b
  pub bundle_read : (b : DurableBackupBundleData) → k.bundle_of (k.bundle_json b) ≡ some b
  pub envelope_read : (e : DurableBackupBundleEnvelope) → k.envelope_of (k.envelope_json e) ≡ some e

module _ (k : Sealing) (g : IsSealing k) where
  -- A bundle that is encrypted under a passphrase is decrypted under it.
  pub decrypt-encrypt :
      (draw : Draw) (b : DurableBackupBundleData) (passphrase : Bytes)
      → (e : DurableBackupBundleEnvelope) → encrypt_backup_bundle k draw b passphrase ≡ ok e
      → decrypt_backup_bundle k e passphrase ≡ ok b
  unfolding encrypt_backup_bundle decrypt_backup_bundle derive_backup_key is_foreign
  decrypt-encrypt draw b passphrase e h = elim (Option-cases (k.scrypt passphrase draw.salt)) [
    | inl s ↦ ground (arith, s)
    | inr (key, s) ↦ elim (Option-cases (k.encrypt key draw.nonce (k.bundle_json b))) [
      | inl n ↦ ground (arith, s, n)
      | inr (sealed, n) ↦ ground (
        arith,
        s,
        n,
        g.decode_base64 sealed,
        g.decrypt_encrypt key draw.nonce (k.bundle_json b) sealed n,
        g.bundle_read b,
      )
    ]
  ]

module _ (k : Sealing) (c : Primitives) {F : Type 0} (d : Serde F) where
  -- What a successful export has done.
  pub record Exported (draw : Draw) (disk : Disk) (request : DurableBackupExportRequest)
      (after : Disk) (report : DurableBackupExportReport) : Type 0 where
    pub identity : Bytes
    pub state : Bytes
    pub envelope : DurableBackupBundleEnvelope
    pub present : Bool
    pub identity_read : get request.identity_path disk ≡ some identity
    pub state_read : get request.state_path disk ≡ some state
    pub sealed :
        encrypt_backup_bundle k draw
          (bundle_data k draw.now request present report.durable_state_valid identity state)
          request.passphrase
        ≡ ok envelope
    pub written : after ≡ insert request.output_path (k.envelope_json envelope) disk
    pub valid :
        report.durable_state_valid ≡ (inspect_durable_state_file c d disk request.state_path).valid

  pub export-Exported :
      (draw : Draw) (disk : Disk) (request : DurableBackupExportRequest) (after : Disk)
      (report : DurableBackupExportReport)
      → export_backup_bundle k c d draw disk request ≡ ok (after, report)
      → Exported draw disk request after report
  unfolding export_backup_bundle
  export-Exported draw disk request after report h =
      elim (Bool-cases (contains_key request.output_path disk && not request.overwrite)) [
        | inl r ↦ ground (arith, r)
        | inr r ↦ elim (Option-cases (get request.identity_path disk)) [
          | inl n ↦ ground (arith, r, n)
          | inr (identity, i) ↦ elim (Option-cases (get request.state_path disk)) [
            | inl n ↦ ground (arith, r, i, n)
            | inr (state, s) ↦
                let report_of = inspect_durable_state_file c d disk request.state_path in
                elim (Result-cases (
                  encrypt_backup_bundle k draw
                    (bundle_data k draw.now request report_of.present report_of.valid identity
                      state)
                    request.passphrase)) [
                      | inr (e, n) ↦ ground (arith, r, i, s, n)
                      | inl (envelope, n) ↦
                          let v : report.durable_state_valid ≡ report_of.valid =
                            ground (arith, r, i, s, n) in
                          record {
                            identity = identity;
                            state = state;
                            envelope = envelope;
                            present = report_of.present;
                            identity_read = i;
                            state_read = s;
                            sealed = rw v n;
                            written = ground (arith, r, i, s, n);
                            valid = v;
                          }
                    ]
          ]
        ]
      ]
