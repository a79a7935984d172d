-- ===== src/Membership/Types.antt =====
-- The error type, bootstrap hints and limits of crates/membership/src/lib.rs.
use quipnet.Base.{ℕ, Option, none, List, Bytes, bytes_eq}
use quipnet.Base.Maps.{Map}
use quipnet.Model.{PeerId}

pub data MembershipError : Type 0 where
  invalid_signature expired_artifact not_yet_valid subject_mismatch artifact_id_mismatch :
      MembershipError

pub record BootstrapHint : Type 0 where
  pub peer_id : Option PeerId
  pub addresses : List Bytes
  pub metadata : Map Bytes

pub record ResourceLimits : Type 0 where
  pub bandwidth_bps : Option ℕ
  pub concurrent_streams : Option ℕ
  pub max_object_bytes : Option ℕ

unfoldable pub default_limits : ResourceLimits
default_limits = record { bandwidth_bps = none; concurrent_streams = none; max_object_bytes = none }

-- `.map_err(|_| MembershipError::InvalidSignature)`.
abbrev pub bad_signature : {E : Type 0} → E → MembershipError
bad_signature _ = invalid_signature
