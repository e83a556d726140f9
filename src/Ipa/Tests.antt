-- ===== src/Ipa/Tests.antt =====
-- A small archive with one stored member, and the theorems on src/ios_rehydrate/ipa.py at it.
use ios_rehydrate.Prelude.{
  ◌≤◌, ℕ, ◌+◌, ◌≡◌, refl, false, Option, none, some, List, [], ◌∷◌, ◌++◌, ◌↔◌, arith, length, drop,
  take, is_nil, ap, length-drop,
}
use ios_rehydrate.Prelude.Bytes.{Bytes, Text, codes, eq_text, elem}
use ios_rehydrate.Prelude.Texts.{starts_with}
use ios_rehydrate.Errors.{done, ◌>>=◌, raise_if}
use ios_rehydrate.Ipa.Refusal.{Refuses}
use ios_rehydrate.Ipa.Names.Paths.{IsCleanPath, validate_member_name-IsCleanPath}
use ios_rehydrate.Ipa.Struct.{unpack_from}
use ios_rehydrate.Ipa.Directory.{rfind, end_record_at, eocd_scan, find_eocd}
use ios_rehydrate.Ipa.Directory.Eocd.{IsSelected, find_eocd-IsSelected}
use ios_rehydrate.Ipa.Extra.{
  parse_extra_fields, zip64_payload, validate_zip_method, validate_zip_flags, read_if,
  resolve_central_zip64, resolve_local_zip64,
}
use ios_rehydrate.Ipa.Names.{validate_member_name}
use ios_rehydrate.Ipa.Entry.{
  RawZipEntry, Codecs, local_values_differ, parse_local_rest, parse_local_entry,
  parse_central_entry,
}
use ios_rehydrate.Ipa.Entry.Safety.{IsCodec}
use ios_rehydrate.Ipa.Ranges.{
  record_end_of, validate_ordered, validate_local_ranges, add_sizes, declared,
  validate_declared_sizes,
}
use ios_rehydrate.Ipa.Ranges.Disjoint.{AllApart, validate_local_ranges-AllApart}
use ios_rehydrate.Ipa.Ranges.Sizes.{IsWithinLimits, validate_declared_sizes_iff}
use ios_rehydrate.Ipa.Inflate.{Zlib, checksum_from, validate_stored_payload, validate_raw_payloads}
use ios_rehydrate.Ipa.Inflate.Safety.{TailShrinks, validate_raw_payloads-Refuses}
use ios_rehydrate.Ipa.Struct.{max_expanded_bytes}
use ios_rehydrate.Ipa.Shape.{
  ZipInfo, Shape, check_archive_shape, check_members, check_member, add_role, add_ancestors,
  role_of, ancestors, disagrees, validate_member_type,
}
use ios_rehydrate.Ipa.Shape.Paths.{IsTree}
use ios_rehydrate.Ipa.Shape.Members.{onto, roles_of, expanded_sum, check_archive_shape-IsTree}
use ios_rehydrate.Ipa.Preflight.{
  central_from, validate_central_directory, needs_zip64, wide_directory, plain_directory,
  bound_directory, preflight_zip,
}
use ios_rehydrate.Ipa.Preflight.Safety.{preflight_zip-Refuses}
use ios_rehydrate.Ipa.Preflight.Layout.{IsLaidOut, preflight_zip-IsLaidOut}

-- A stand-in for the codecs: each byte is a character.
abbrev codecs : Codecs
codecs = record { decode_utf8 = λ raw. done raw; decode_cp437 = λ raw. done raw }

codecs-IsCodec : IsCodec codecs
codecs-IsCodec = record { utf8 = λ raw e h. cc; cp437 = λ raw e h. cc }

-- A stand-in for zlib: a checksum that adds, and a decompressor that takes its input over as it is, up
-- to the limit.
abbrev added : Bytes → ℕ → ℕ
added [] sum = sum
added (b ∷ bs) sum = added bs (sum + b)

abbrev zlib : Zlib
zlib = record {
  crc32 = added;
  Decompressor = Bytes;
  fresh = [];
  decompress = λ d input limit. some (drop limit input, take limit input);
  eof = λ d. is_nil d;
  unused_data = λ d. [];
  unconsumed_tail = λ d. d;
}

zlib-TailShrinks : TailShrinks zlib
zlib-TailShrinks d input limit d' output h =
    let e : drop limit input ≡ d' =
      ap (λ (o : Option (Bytes × Bytes)). elim o [ none ↦ [] | some r ↦ r.0 ]) h in
    omega (arith, ap (λ (bs : Bytes). length bs) e, length-drop limit input)

abbrev local_record : Bytes
local_record =
    80 ∷ 75 ∷ 3 ∷ 4 ∷ 20 ∷ 0 ∷ 0 ∷ 0 ∷ 0 ∷ 0 ∷ 0 ∷ 0 ∷ 0 ∷ 0 ∷ 120 ∷ 0 ∷ 0 ∷ 0 ∷ 1 ∷ 0 ∷ 0 ∷ 0 ∷ 1
    ∷ 0 ∷ 0 ∷ 0 ∷ 1 ∷ 0 ∷ 0 ∷ 0 ∷ 97 ∷ 120 ∷ []

abbrev central_record : Bytes
central_record =
    80 ∷ 75 ∷ 1 ∷ 2 ∷ 20 ∷ 3 ∷ 20 ∷ 0 ∷ 0 ∷ 0 ∷ 0 ∷ 0 ∷ 0 ∷ 0 ∷ 0 ∷ 0 ∷ 120 ∷ 0 ∷ 0 ∷ 0 ∷ 1 ∷ 0 ∷ 0
    ∷ 0 ∷ 1 ∷ 0 ∷ 0 ∷ 0 ∷ 1 ∷ 0 ∷ 0 ∷ 0 ∷ 0 ∷ 0 ∷ 0 ∷ 0 ∷ 0 ∷ 0 ∷ 0 ∷ 0 ∷ 0 ∷ 0 ∷ 0 ∷ 0 ∷ 0 ∷ 0 ∷ 97
    ∷ []

abbrev end_record : Bytes
end_record =
    80 ∷ 75 ∷ 5 ∷ 6 ∷ 0 ∷ 0 ∷ 0 ∷ 0 ∷ 1 ∷ 0 ∷ 1 ∷ 0 ∷ 47 ∷ 0 ∷ 0 ∷ 0 ∷ 32 ∷ 0 ∷ 0 ∷ 0 ∷ 0 ∷ 0 ∷ []

-- The member "a" of one byte
abbrev archive : Bytes
archive = local_record ++ (central_record ++ end_record)

-- The names that a preflight computes with.
runs : ℕ
unfolding preflight_zip find_eocd rfind end_record_at eocd_scan ◌>>=◌ raise_if unpack_from
    starts_with eq_text needs_zip64 wide_directory plain_directory bound_directory
    validate_central_directory central_from parse_central_entry parse_local_entry parse_local_rest
    validate_zip_method validate_zip_flags resolve_central_zip64 resolve_local_zip64 zip64_payload
    parse_extra_fields read_if validate_member_name local_values_differ validate_local_ranges
    validate_ordered record_end_of validate_declared_sizes add_sizes validate_raw_payloads
    validate_stored_payload checksum_from elem check_archive_shape check_members check_member
    add_role add_ancestors role_of ancestors disagrees validate_member_type
runs = 0

archive-found : find_eocd archive ≡ done 79
unfolding runs
archive-found = refl

find_eocd-IsSelected_example : IsSelected archive 79
find_eocd-IsSelected_example = find_eocd-IsSelected archive 79 archive-found

preflight_zip-Refuses_example : Refuses (preflight_zip codecs zlib archive)
preflight_zip-Refuses_example =
    preflight_zip-Refuses codecs codecs-IsCodec archive zlib zlib-TailShrinks

accepted : (entries : List RawZipEntry) × (preflight_zip codecs zlib archive ≡ done entries)
unfolding runs
accepted = (_, refl)

preflight_zip-IsLaidOut_example : IsLaidOut archive accepted.0
preflight_zip-IsLaidOut_example = preflight_zip-IsLaidOut codecs zlib archive accepted.0 accepted.1

validate_raw_payloads-Refuses_example : Refuses (validate_raw_payloads zlib archive accepted.0)
validate_raw_payloads-Refuses_example =
    validate_raw_payloads-Refuses zlib zlib-TailShrinks archive accepted.0

validate_declared_sizes_iff_example :
    (validate_declared_sizes accepted.0 ≡ done tt) ↔ IsWithinLimits (declared accepted.0)
validate_declared_sizes_iff_example = validate_declared_sizes_iff accepted.0

-- Two members that the directory lists in the other order
abbrev member : ℕ → ℕ → RawZipEntry
member offset size = record {
  raw_name = [];
  flags = 0;
  compression_method = 0;
  crc32 = 0;
  compressed_size = size;
  file_size = size;
  central_header_offset = 0;
  local_header_offset = offset;
  data_offset = offset + 30;
  data_end = offset + 30 + size;
  descriptor_uses_zip64 = false;
  version_made_by = 20;
  external_attr = 0;
}

abbrev two_members : List RawZipEntry
two_members = member 40 5 ∷ member 0 10 ∷ []

two_members-accepted : validate_local_ranges [] two_members 75 ≡ done tt
unfolding runs
two_members-accepted = refl

validate_local_ranges-AllApart_example : AllApart two_members
validate_local_ranges-AllApart_example =
    validate_local_ranges-AllApart [] two_members 75 (omega arith, (omega arith, tt))
      two_members-accepted

-- A directory and a file in it, as `zipfile` lists them
abbrev info : Text → ℕ → ZipInfo
info name size = record {
  orig_filename = name;
  filename = name;
  flag_bits = 0;
  compress_type = 0;
  crc = 0;
  compress_size = size;
  file_size = size;
  header_offset = 0;
  create_system = 0;
  external_attr = 0;
}

abbrev entry : Text → ℕ → RawZipEntry
entry name size = record (member 0 size) { raw_name = name }

abbrev infos : List ZipInfo
infos = info (codes "a/") 0 ∷ info (codes "a/b") 7 ∷ []

abbrev raw_entries : List RawZipEntry
raw_entries = entry (codes "a/") 0 ∷ entry (codes "a/b") 7 ∷ []

-- A stand-in for the normal form of folded names.
abbrev folded : Text → Text
folded name = name

shaped : (shape : Shape) × (check_archive_shape codecs folded infos raw_entries ≡ done shape)
unfolding runs
shaped = (_, refl)

check_archive_shape-IsTree_example :
    (shaped.0.members ≡ onto infos [])
    × IsTree (roles_of codecs folded shaped.0.members)
    × (expanded_sum shaped.0.members ≤ max_expanded_bytes)
check_archive_shape-IsTree_example =
    check_archive_shape-IsTree codecs folded infos raw_entries shaped.0 shaped.1

nested-accepted : validate_member_name (codes "Payload/A.app/") ≡ done tt
unfolding runs
nested-accepted = refl

validate_member_name-IsCleanPath_example : IsCleanPath (codes "Payload/A.app/")
validate_member_name-IsCleanPath_example =
    validate_member_name-IsCleanPath (codes "Payload/A.app/") nested-accepted
