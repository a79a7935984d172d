-- ===== src/Fabric/Backup.antt =====
-- Backup bundles of crates/fabric/src/lib.rs: the identity and the state file, with their hashes,
-- encrypted under a passphrase. The crates sha2, scrypt, chacha20poly1305 and base64 and the JSON of
-- the bundle and its envelope are the functions of `Sealing`; a `Draw` gives the random salt and nonce
-- and the time. Directories are left out, and errors of the disk other than a missing file.
pub mod Bundle
use quipnet.Base.{
  ℕ, Bool, not, ◌&&◌, ◌||◌, Option, List, [], ◌∷◌, ◌++◌, Bytes, text, length, ◌==◌, ◌!=◌, bytes_eq,
  nat_eq, find, Result, ok, ◌>>=◌, ◌>>◌, reject_if, ok_or,
}
use quipnet.Base.Maps.{get, insert, contains_key}
use quipnet.Crypto.{Primitives}
use quipnet.Fabric.State.{
  DaemonStateError, io, serialization, invalid_session, invalid_backup_bundle,
  backup_key_derivation,
}
use quipnet.Fabric.Durable.{validate_durable_state_value}
use quipnet.Fabric.Files.{Disk, Serde, inspect_durable_state_file}

pub record DurableBackupAsset : Type 0 where
  pub concern : Bytes
  pub relative_path : Bytes
  pub sha256_hex : Bytes
  pub bytes : ℕ

pub record DurableBackupManifest : Type 0 where
  pub format : Bytes
  pub format_version : ℕ
  pub created_at_unix_secs : ℕ
  pub hostname : Bytes
  pub environment : Bytes
  pub network : Bytes
  pub identity_path : Bytes
  pub state_path : Bytes
  pub authority_origin : Option Bytes
  pub authority_subject : Option Bytes
  pub authority_snapshot : Option Bytes
  pub durable_state_present : Bool
  pub durable_state_valid : Bool
  pub assets : List DurableBackupAsset

pub record DurableBackupBundleData : Type 0 where
  pub manifest : DurableBackupManifest
  pub identity_file_base64 : Bytes
  pub state_file_base64 : Bytes

pub record DurableBackupBundleEnvelope : Type 0 where
  pub version : ℕ
  pub cipher : Bytes
  pub kdf : Bytes
  pub salt : Bytes
  pub nonce : Bytes
  pub ciphertext : Bytes

pub record DurableBackupExportRequest : Type 0 where
  pub output_path : Bytes
  pub passphrase : Bytes
  pub hostname : Bytes
  pub environment : Bytes
  pub identity_path : Bytes
  pub state_path : Bytes
  pub network : Bytes
  pub authority_origin : Option Bytes
  pub authority_subject : Option Bytes
  pub authority_snapshot : Option Bytes
  pub overwrite : Bool

pub record DurableBackupExportReport : Type 0 where
  pub bundle_path : Bytes
  pub created_at_unix_secs : ℕ
  pub hostname : Bytes
  pub environment : Bytes
  pub network : Bytes
  pub identity_sha256_hex : Bytes
  pub state_sha256_hex : Bytes
  pub durable_state_present : Bool
  pub durable_state_valid : Bool

pub record DurableBackupRestoreRequest : Type 0 where
  pub input_path : Bytes
  pub passphrase : Bytes
  pub identity_path : Bytes
  pub state_path : Bytes
  pub overwrite : Bool

pub record DurableBackupRestoreReport : Type 0 where
  pub input_path : Bytes
  pub restored_identity_path : Bytes
  pub restored_state_path : Bytes
  pub created_at_unix_secs : ℕ
  pub hostname : Bytes
  pub environment : Bytes
  pub network : Bytes
  pub identity_sha256_hex : Bytes
  pub state_sha256_hex : Bytes

abbrev pub backup_bundle_format_version : ℕ
backup_bundle_format_version = 1

pub record Sealing : Type 0 where
  pub sha256_hex : Bytes → Bytes
  -- `scrypt` at the recommended parameters: the passphrase and the salt.
  pub scrypt : Bytes → Bytes → Option Bytes
  -- The key, the nonce, and the text.
  pub encrypt : Bytes → Bytes → Bytes → Option Bytes
  pub decrypt : Bytes → Bytes → Bytes → Option Bytes
  pub base64 : Bytes → Bytes
  pub base64_decode : Bytes → Option Bytes
  pub bundle_json : DurableBackupBundleData → Bytes
  pub bundle_of : Bytes → Option DurableBackupBundleData
  pub envelope_json : DurableBackupBundleEnvelope → Bytes
  pub envelope_of : Bytes → Option DurableBackupBundleEnvelope

pub record Draw : Type 0 where
  pub salt : Bytes
  pub nonce : Bytes
  pub now : ℕ
