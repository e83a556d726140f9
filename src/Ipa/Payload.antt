-- ===== src/Ipa/Payload.antt =====
-- `ValidatedIPA` of src/ios_rehydrate/ipa.py: what the upgrade is given.
use ios_rehydrate.Prelude.{ℕ, Bool, Option}
use ios_rehydrate.Prelude.Bytes.{Bytes, Text}

pub record ValidatedIpa : Type 0 where
  pub archive_bytes : Bytes
  pub sha256 : Text
  pub size : ℕ
  pub bundle_identifier : Text
  pub version : Text
  pub build : Text
  pub minimum_os : Text
  pub metadata : Bytes
  pub sinf : Bytes
  pub has_code_resources : Bool
  pub store_id : Option Text
