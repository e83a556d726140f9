-- ===== src/Ipa/Validate.antt =====
-- `_validate_zip` of src/ios_rehydrate/ipa.py: what an archive must hold, and what is taken from it.
pub mod Reads
pub mod Agreement
pub mod Tests
use ios_rehydrate.Prelude.{
  ℕ, ⊤, Bool, true, false, not, ◌&&◌, ◌||◌, Option, none, some, List, [], ◌∷◌, ◌++◌, length, is_nil,
  ltb, ◌==◌, ◌!=◌, if◌then◌else◌,
}
use ios_rehydrate.Prelude.Bytes.{Bytes, Text, codes, eq_text}
use ios_rehydrate.Prelude.Texts.{has}
use ios_rehydrate.Prelude.Values.{Value, Fields, get}
use ios_rehydrate.Errors.{Result, done, raise, ◌>>=◌, ◌>>◌, raise_if}
use ios_rehydrate.Ipa.Struct.{invalid}
use ios_rehydrate.Ipa.Payload.{ValidatedIpa}
use ios_rehydrate.Ipa.Shape.{ZipInfo}
use ios_rehydrate.Ipa.Contents.{
  Contents, max_sinf_bytes, is_bundle_identifier, is_version_value, is_minimum_os_value,
  required_member, required_text, app_root, metadata_store_id, check_store_id, check_bundle,
  read_member, read_plist, info_reasons, metadata_reasons,
}

-- The bundle identifier, which the two property lists share
unfoldable pub validate_bundle : Fields → Fields → Option Text → Result Text
unfolding is_bundle_identifier eq_text
validate_bundle info metadata expected_bundle_id = do
  bundle_identifier ← required_text info (codes "CFBundleIdentifier") "IPA_BUNDLE_ID_INVALID" 255
  metadata_bundle ←
      required_text metadata (codes "softwareVersionBundleId") "IPA_METADATA_BUNDLE_ID_INVALID" 255
  raise_if (not (eq_text metadata_bundle bundle_identifier))
      (invalid "IPA_METADATA_BUNDLE_MISMATCH")
  raise_if (not (is_bundle_identifier bundle_identifier)) (invalid "IPA_BUNDLE_ID_INVALID")
  check_bundle expected_bundle_id bundle_identifier
  done bundle_identifier

pub record Versions : Type 0 where
  pub version : Text
  pub build : Text
  pub minimum_os : Text

unfoldable pub validate_versions : Fields → Result Versions
unfolding is_version_value is_minimum_os_value
validate_versions info = do
  version ← required_text info (codes "CFBundleShortVersionString") "IPA_VERSION_INVALID" 64
  raise_if (not (is_version_value version)) (invalid "IPA_VERSION_INVALID")
  build ← required_text info (codes "CFBundleVersion") "IPA_BUILD_INVALID" 64
  raise_if (not (is_version_value build)) (invalid "IPA_BUILD_INVALID")
  minimum_os ← required_text info (codes "MinimumOSVersion") "IPA_MINIMUM_OS_INVALID" 64
  raise_if (not (is_minimum_os_value minimum_os)) (invalid "IPA_MINIMUM_OS_INVALID")
  done (record { version = version; build = build; minimum_os = minimum_os })

unfoldable pub validate_executable : List ZipInfo → Text → Fields → Result Text
unfolding eq_text
validate_executable members root info = do
  executable ← required_text info (codes "CFBundleExecutable") "IPA_EXECUTABLE_INVALID" 255
  raise_if
      (has b'/' executable
        || has 0x5c executable
        || eq_text executable (codes ".")
        || eq_text executable (codes ".."))
      (invalid "IPA_EXECUTABLE_INVALID")
  executable_member ← required_member members (root ++ (b'/' ∷ executable)) "IPA_EXECUTABLE_MISSING"
  raise_if (executable_member.file_size == 0) (invalid "IPA_EXECUTABLE_EMPTY")
  done executable

module _ (contents : Contents) where
  -- The authorization material of the executable, and the code resources
  unfoldable pub validate_signatures : List ZipInfo → Text → Text → Result Bytes
  validate_signatures members root executable = do
    sinf_member ←
        required_member members (root ++ (codes "/SC_Info/" ++ (executable ++ codes ".sinf")))
          "IPA_SINF_MISSING"
    sinf ←
        read_member contents sinf_member max_sinf_bytes "IPA_SINF_TOO_LARGE" "IPA_SINF_READ_FAILED"
    raise_if (is_nil sinf) (invalid "IPA_SINF_EMPTY")
    code_resources ←
        required_member members (root ++ codes "/_CodeSignature/CodeResources")
          "IPA_CODE_RESOURCES_MISSING"
    raise_if (code_resources.file_size == 0) (invalid "IPA_CODE_RESOURCES_EMPTY")
    done sinf

  module _ (sha256_bytes : Bytes → Text) where
    -- `members` are what `_check_archive_shape` has returned.
    unfoldable pub validate_zip :
        List ZipInfo → Bytes → Option Text → Option Text → Result ValidatedIpa
    unfolding get
    validate_zip members archive_bytes expected_bundle_id expected_store_id = do
      root ← app_root members
      info_member ← required_member members (root ++ codes "/Info.plist") "IPA_INFO_PLIST_MISSING"
      (info_bytes, info) ← read_plist contents info_member info_reasons
      metadata_member ←
          required_member members (codes "iTunesMetadata.plist") "IPA_METADATA_PLIST_MISSING"
      (metadata_bytes, metadata) ← read_plist contents metadata_member metadata_reasons
      bundle_identifier ← validate_bundle info metadata expected_bundle_id
      versions ← validate_versions info
      executable ← validate_executable members root info
      sinf ← validate_signatures members root executable
      store_id ← metadata_store_id (get (codes "itemId") metadata)
      check_store_id expected_store_id store_id
      done (record {
        archive_bytes = archive_bytes;
        sha256 = sha256_bytes archive_bytes;
        size = length archive_bytes;
        bundle_identifier = bundle_identifier;
        version = versions.version;
        build = versions.build;
        minimum_os = versions.minimum_os;
        metadata = metadata_bytes;
        sinf = sinf;
        has_code_resources = true;
        store_id = store_id;
      })
