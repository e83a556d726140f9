-- ===== src/Ipa/Admission/Tests.antt =====
-- An archive with the members of a small app, and the validation of src/ios_rehydrate/ipa.py from its bytes.
use ios_rehydrate.Prelude.{
  ℕ, ◌≡◌, ◌+◌, ◌/◌, ◌%◌, refl, false, none, some, List, [], ◌∷◌, ◌++◌, length,
}
use ios_rehydrate.Prelude.Bytes.{Bytes, Text, codes, eq_text, elem}
use ios_rehydrate.Prelude.Texts.{strip, ends_with, starts_with, split}
use ios_rehydrate.Prelude.Values.{get}
use ios_rehydrate.Errors.{done, ◌>>=◌, raise_if}
use ios_rehydrate.Ipa.Payload.{ValidatedIpa}
use ios_rehydrate.Ipa.Struct.{unpack_from}
use ios_rehydrate.Ipa.Directory.{rfind, end_record_at, eocd_scan, find_eocd}
use ios_rehydrate.Ipa.Extra.{
  parse_extra_fields, zip64_payload, validate_zip_method, validate_zip_flags, read_if,
  resolve_central_zip64, resolve_local_zip64,
}
use ios_rehydrate.Ipa.Names.{posix_parts, validate_member_name}
use ios_rehydrate.Ipa.Entry.{
  local_values_differ, parse_local_rest, parse_local_entry, parse_central_entry,
}
use ios_rehydrate.Ipa.Ranges.{
  record_end_of, validate_ordered, validate_local_ranges, add_sizes, validate_declared_sizes,
}
use ios_rehydrate.Ipa.Inflate.{checksum_from, validate_stored_payload, validate_raw_payloads}
use ios_rehydrate.Ipa.Preflight.{
  central_from, validate_central_directory, needs_zip64, plain_directory, bound_directory,
  preflight_zip,
}
use ios_rehydrate.Ipa.Shape.{
  ZipInfo, check_archive_shape, check_members, check_member, add_role, add_ancestors, role_of,
  ancestors, disagrees, validate_member_type,
}
use ios_rehydrate.Ipa.Contents.{
  is_bundle_identifier, is_version_value, is_minimum_os_value, member_named, required_member,
  required_text, apps_of, app_root, metadata_store_id, check_store_id, check_bundle, read_member,
  read_plist,
}
use ios_rehydrate.Ipa.Validate.{
  validate_bundle, validate_versions, validate_executable, validate_signatures, validate_zip,
}
use ios_rehydrate.Ipa.Validate.Tests.{contents, digest, members}
use ios_rehydrate.Ipa.Admission.{Toolbox, admission, validate_ipa}
use ios_rehydrate.Ipa.Admission.Chain.{IsAdmitted, validate_ipa-IsAdmitted}

abbrev local_record : Text → Bytes
local_record name =
    80
    ∷ 75
    ∷ 3
    ∷ 4
    ∷ 20
    ∷ 0
    ∷ 0
    ∷ 0
    ∷ 0
    ∷ 0
    ∷ 0
    ∷ 0
    ∷ 0
    ∷ 0
    ∷ 0
    ∷ 0
    ∷ 0
    ∷ 0
    ∷ 1
    ∷ 0
    ∷ 0
    ∷ 0
    ∷ 1
    ∷ 0
    ∷ 0
    ∷ 0
    ∷ length name
    ∷ 0
    ∷ 0
    ∷ 0
    ∷ (name ++ 1 ∷ [])

abbrev central_record : Text → ℕ → Bytes
central_record name offset =
    80
    ∷ 75
    ∷ 1
    ∷ 2
    ∷ 20
    ∷ 0
    ∷ 20
    ∷ 0
    ∷ 0
    ∷ 0
    ∷ 0
    ∷ 0
    ∷ 0
    ∷ 0
    ∷ 0
    ∷ 0
    ∷ 0
    ∷ 0
    ∷ 0
    ∷ 0
    ∷ 1
    ∷ 0
    ∷ 0
    ∷ 0
    ∷ 1
    ∷ 0
    ∷ 0
    ∷ 0
    ∷ length name
    ∷ 0
    ∷ 0
    ∷ 0
    ∷ 0
    ∷ 0
    ∷ 0
    ∷ 0
    ∷ 0
    ∷ 0
    ∷ 0
    ∷ 0
    ∷ 0
    ∷ 0
    ∷ offset % 256
    ∷ offset / 256
    ∷ 0
    ∷ 0
    ∷ name

-- The local records, and then the central ones
abbrev locals : List ZipInfo → Bytes
locals [] = []
locals (info ∷ infos) = local_record info.filename ++ locals infos

abbrev centrals : List ZipInfo → ℕ → Bytes
centrals [] offset = []
centrals (info ∷ infos) offset =
    central_record info.filename offset ++ centrals infos (offset + 31 + length info.filename)

-- What `zipfile` says of these records
abbrev placed : List ZipInfo → ℕ → List ZipInfo
placed [] offset = []
placed (info ∷ infos) offset =
    record info { header_offset = offset } ∷ placed infos (offset + 31 + length info.filename)

abbrev archive : Bytes
archive =
    locals members
    ++ (centrals members 0
        ++ (80 ∷ 75 ∷ 5 ∷ 6 ∷ 0 ∷ 0 ∷ 0 ∷ 0 ∷ 5 ∷ 0 ∷ 5 ∷ 0 ∷ 103 ∷ 1 ∷ 0 ∷ 0 ∷ 28 ∷ 1 ∷ 0 ∷ 0 ∷ 0
            ∷ 0 ∷ []))

abbrev tools : Toolbox
tools = record {
  codecs = record { decode_utf8 = λ raw. done raw; decode_cp437 = λ raw. done raw };
  zlib = record {
    crc32 = λ bytes sum. 0;
    Decompressor = ℕ;
    fresh = 0;
    decompress = λ d input limit. none;
    eof = λ d. false;
    unused_data = λ d. [];
    unconsumed_tail = λ d. [];
  };
  unicode = λ name. name;
  contents = contents;
  sha256_bytes = digest;
  open_zip = λ bytes. done (placed members 0);
}

lengths : length (locals members) ≡ 284
lengths = refl

admitted_archive :
    (payload : ValidatedIpa) × (validate_ipa tools archive (some (codes "a.b")) (some (codes "42"))
      ≡ done payload)
unfolding admission preflight_zip find_eocd rfind end_record_at eocd_scan ◌>>=◌ raise_if unpack_from
    starts_with eq_text needs_zip64 plain_directory bound_directory validate_central_directory
    central_from parse_central_entry parse_local_entry parse_local_rest validate_zip_method
    validate_zip_flags resolve_central_zip64 resolve_local_zip64 zip64_payload parse_extra_fields
    read_if validate_member_name local_values_differ validate_local_ranges validate_ordered
    record_end_of validate_declared_sizes add_sizes validate_raw_payloads validate_stored_payload
    checksum_from elem check_archive_shape check_members check_member add_role add_ancestors role_of
    ancestors disagrees validate_member_type validate_zip validate_bundle validate_versions
    validate_executable validate_signatures get strip ends_with split posix_parts
    is_bundle_identifier is_version_value is_minimum_os_value member_named required_member
    required_text apps_of app_root metadata_store_id check_store_id check_bundle read_member
    read_plist
admitted_archive = (_, refl)

validate_ipa-IsAdmitted_example :
    IsAdmitted tools archive (some (codes "a.b")) (some (codes "42")) admitted_archive.0
validate_ipa-IsAdmitted_example =
    validate_ipa-IsAdmitted tools archive (some (codes "a.b")) (some (codes "42"))
      admitted_archive.0 admitted_archive.1
