-- ===== src/Ipa/Admission.antt =====
-- `validate_ipa` of src/ios_rehydrate/ipa.py on the bytes that `_read_archive` has read. What the
-- constructor of `zipfile.ZipFile` makes of the bytes is a parameter: the list of its members, or what
-- it raises.
pub mod Chain
mod Tests
use ios_rehydrate.Prelude.{ℕ, Option, List}
use ios_rehydrate.Prelude.Bytes.{Bytes, Text}
use ios_rehydrate.Errors.{
  Exception, os_error, timeout_error, value_error, runtime_error, bad_zip_file, Result, done, raise,
  ◌>>=◌,
}
use ios_rehydrate.Ipa.Struct.{invalid}
use ios_rehydrate.Ipa.Payload.{ValidatedIpa}
use ios_rehydrate.Ipa.Entry.{RawZipEntry, Codecs}
use ios_rehydrate.Ipa.Inflate.{Zlib}
use ios_rehydrate.Ipa.Preflight.{preflight_zip}
use ios_rehydrate.Ipa.Shape.{ZipInfo, check_archive_shape}
use ios_rehydrate.Ipa.Contents.{Contents}
use ios_rehydrate.Ipa.Validate.{validate_zip}

-- The code outside of the repository that the validation uses
pub record Toolbox : Type 1 where
  pub codecs : Codecs
  pub zlib : Zlib
  pub unicode : Text → Text
  pub contents : Contents
  pub sha256_bytes : Bytes → Text
  pub open_zip : Bytes → Result (List ZipInfo)

-- The `except` clauses; `bad_zip_file` is either exception of `zipfile`.
abbrev pub admitted : Result ValidatedIpa → Result ValidatedIpa
admitted (raise os_error) = raise (invalid "IPA_ZIP_INVALID")
admitted (raise timeout_error) = raise (invalid "IPA_ZIP_INVALID")
admitted (raise runtime_error) = raise (invalid "IPA_ZIP_INVALID")
admitted (raise value_error) = raise (invalid "IPA_ZIP_INVALID")
admitted (raise bad_zip_file) = raise (invalid "IPA_ZIP_INVALID")
admitted r = r

module _ (tools : Toolbox) (archive_bytes : Bytes)
    (expected_bundle_id expected_store_id : Option Text) where
  -- The body of the `try`, with the first statement of `_validate_zip`
  unfoldable pub admission : Result ValidatedIpa
  admission = do
    raw_entries ← preflight_zip tools.codecs tools.zlib archive_bytes
    infos ← tools.open_zip archive_bytes
    shape ← check_archive_shape tools.codecs tools.unicode infos raw_entries
    validate_zip tools.contents tools.sha256_bytes shape.members archive_bytes expected_bundle_id
        expected_store_id

  abbrev pub validate_ipa : Result ValidatedIpa
  validate_ipa = admitted admission
