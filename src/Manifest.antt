-- ===== src/Manifest.antt =====
-- src/ios_rehydrate/manifest.py: what it checks of the manifest's key material and of the database
-- before and while it queries it.
pub mod Version
pub mod Keybag
pub mod Sqlite
pub mod Query
mod Tests
use ios_rehydrate.Prelude.{String}
use ios_rehydrate.Errors.{Exception, error, backup_verify}

-- `_manifest_error`
abbrev pub manifest_error : String → Exception
manifest_error reason = error backup_verify reason

-- `_invalid_key_material`
abbrev pub invalid_key_material : Exception
invalid_key_material = manifest_error "MANIFEST_METADATA_INVALID"
