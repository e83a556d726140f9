-- ===== src/Ipa/Validate/Tests.antt =====
-- The members of a small app, and the validation of src/ios_rehydrate/ipa.py on them.
use ios_rehydrate.Prelude.{ℕ, ◌≡◌, refl, some, List, [], ◌∷◌, ◌==◌, if◌then◌else◌}
use ios_rehydrate.Prelude.Bytes.{Bytes, Text, codes, eq_text, elem}
use ios_rehydrate.Prelude.Texts.{strip, ends_with, starts_with, split}
use ios_rehydrate.Prelude.Values.{Value, Fields, text, integer, dict, other, pos, end, field, get}
use ios_rehydrate.Errors.{Result, done, ◌>>=◌, raise_if}
use ios_rehydrate.Ipa.Names.{posix_parts}
use ios_rehydrate.Ipa.Payload.{ValidatedIpa}
use ios_rehydrate.Ipa.Shape.{ZipInfo}
use ios_rehydrate.Ipa.Contents.{
  Contents, is_bundle_identifier, is_version_value, is_minimum_os_value, member_named,
  required_member, required_text, apps_of, app_root, metadata_store_id, check_store_id,
  check_bundle, read_member, read_plist,
}
use ios_rehydrate.Ipa.Validate.{
  validate_bundle, validate_versions, validate_executable, validate_signatures, validate_zip,
}
use ios_rehydrate.Ipa.Validate.Agreement.{IsAgreed, validate_zip-IsAgreed}

abbrev file : Text → ZipInfo
file name = record {
  orig_filename = name;
  filename = name;
  flag_bits = 0;
  compress_type = 0;
  crc = 0;
  compress_size = 1;
  file_size = 1;
  header_offset = 0;
  create_system = 0;
  external_attr = 0;
}

abbrev pub members : List ZipInfo
members =
    file (codes "iTunesMetadata.plist")
    ∷ file (codes "Payload/A.app/Info.plist")
    ∷ file (codes "Payload/A.app/A")
    ∷ file (codes "Payload/A.app/SC_Info/A.sinf")
    ∷ file (codes "Payload/A.app/_CodeSignature/CodeResources")
    ∷ []

abbrev info_plist : Fields
info_plist = field (codes "CFBundleIdentifier") (text (codes "a.b")) (
    field (codes "CFBundleShortVersionString") (text (codes "2")) (
      field (codes "CFBundleVersion") (text (codes "20")) (
        field (codes "MinimumOSVersion") (text (codes "15.0"))
          (field (codes "CFBundleExecutable") (text (codes "A")) end))))

abbrev metadata_plist : Fields
metadata_plist =
    field (codes "softwareVersionBundleId") (text (codes "a.b"))
      (field (codes "itemId") (integer (pos 42)) end)

-- The metadata is the byte 77, and any other member the byte 1.
abbrev read_one : ZipInfo → ℕ → Result Bytes
read_one info limit =
    if starts_with info.filename (codes "iT") then done (77 ∷ []) else done (1 ∷ [])

abbrev load : Bytes → Result Value
load [] = done other
load (b ∷ bs) = if b == 77 then done (dict metadata_plist) else done (dict info_plist)

abbrev pub contents : Contents
contents = record { read = read_one; loads = load }

abbrev pub digest : Bytes → Text
digest _ = codes "ab"

validated :
    (payload : ValidatedIpa) × (validate_zip contents digest members
        (80 ∷ 75 ∷ [])
        (some (codes "a.b"))
        (some (codes "42"))
      ≡ done payload)
unfolding validate_zip validate_bundle validate_versions validate_executable validate_signatures
    ◌>>=◌ raise_if get eq_text elem strip ends_with split posix_parts is_bundle_identifier
    is_version_value is_minimum_os_value member_named required_member required_text apps_of app_root
    metadata_store_id check_store_id check_bundle read_member read_plist
validated = (_, refl)

validate_zip-IsAgreed_example :
    IsAgreed contents digest members
      (80 ∷ 75 ∷ [])
      (some (codes "a.b"))
      (some (codes "42"))
      validated.0
validate_zip-IsAgreed_example =
    validate_zip-IsAgreed contents digest members (80 ∷ 75 ∷ []) (some (codes "a.b"))
      (some (codes "42")) validated.0 validated.1
