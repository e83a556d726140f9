-- ===== src/Ipa/Shape.antt =====
-- `_validate_member_type` and `_check_archive_shape` of src/ios_rehydrate/ipa.py: the members that
-- `zipfile` lists, against the entries of the preflight. `unicode` is a parameter: the normal form NFC of
-- the folded normal form NFC, from the Unicode tables.
pub mod Paths
pub mod Members
pub mod Matching
use Prim.Native.Nat.{bit_and}
use ios_rehydrate.Prelude.{
  ℕ, ⊤, ◌+◌, ◌*◌, ◌/◌, ◌%◌, ◌^◌, max, Bool, true, false, not, ◌&&◌, ◌||◌, Option, none, some, List,
  [], ◌∷◌, ◌++◌, map, length, ltb, ◌==◌, ◌!=◌, if◌then◌else◌,
}
use ios_rehydrate.Prelude.Bytes.{Text, codes, eq_text, elem}
use ios_rehydrate.Prelude.Texts.{ends_with, split}
use ios_rehydrate.Errors.{Result, done, raise, ◌>>=◌, ◌>>◌, raise_if}
use ios_rehydrate.Ipa.Struct.{
  invalid, zip_directory_invalid, max_zip_entries, max_expanded_bytes, max_compression_ratio,
}
use ios_rehydrate.Ipa.Names.{without_directory_marker, validate_member_name}
use ios_rehydrate.Ipa.Entry.{RawZipEntry, Codecs, decode_name}

-- `zipfile.ZipInfo`, as far as the code reads it. Its sizes come from unsigned fields.
pub record ZipInfo : Type 0 where
  pub orig_filename : Text
  pub filename : Text
  pub flag_bits : ℕ
  pub compress_type : ℕ
  pub crc : ℕ
  pub compress_size : ℕ
  pub file_size : ℕ
  pub header_offset : ℕ
  pub create_system : ℕ
  pub external_attr : ℕ

-- `stat.S_IFMT` of the upper half of the attributes, and two of the types
abbrev pub file_type_of : ℕ → ℕ
file_type_of external_attr = bit_and (external_attr / 2 ^ 16) 0xF000

abbrev pub regular_file : ℕ
regular_file = 0x8000

abbrev pub directory : ℕ
directory = 0x4000

-- `(a) != b`, on truth values
abbrev pub differ : Bool → Bool → Bool
differ true b = not b
differ false b = b

unfoldable pub validate_member_type : ZipInfo → Result ⊤
unfolding ends_with
validate_member_type info = do
  let has_directory_marker = ends_with info.filename (codes "/")
  let file_type = file_type_of info.external_attr
  raise_if (has_directory_marker && info.file_size != 0) (invalid "IPA_DIRECTORY_NOT_EMPTY")
  if info.create_system != 3 then done tt else (do
    raise_if (file_type != 0 && file_type != regular_file && file_type != directory)
        (invalid "IPA_MEMBER_TYPE_UNSAFE")
    raise_if (differ (file_type == directory) has_directory_marker && file_type != 0)
        (invalid "IPA_MEMBER_TYPE_MISMATCH"))

-- The comparison of what `zipfile` and the preflight say
unfoldable pub disagrees : ZipInfo → RawZipEntry → Text → Bool
unfolding eq_text
disagrees info raw_entry decoded_name =
    not (eq_text info.orig_filename decoded_name)
    || info.flag_bits != raw_entry.flags
    || info.compress_type != raw_entry.compression_method
    || raw_entry.crc32 != info.crc
    || info.compress_size != raw_entry.compressed_size
    || info.file_size != raw_entry.file_size
    || info.header_offset != raw_entry.local_header_offset
    || info.create_system != raw_entry.version_made_by / 2 ^ 8
    || info.external_attr != raw_entry.external_attr

-- `"/".join(canonical_parts[:part_count])` for every count from 1 to one less than all
abbrev pub prefixed : Text → List Text → List Text
prefixed part [] = []
prefixed part (name ∷ names) = (part ++ (b'/' ∷ name)) ∷ prefixed part names

abbrev pub ancestors_of : List Text → List Text
ancestors_of [] = []
ancestors_of (part ∷ []) = []
ancestors_of (part ∷ next ∷ parts) = part ∷ prefixed part (ancestors_of (next ∷ parts))

unfoldable pub ancestors : Text → List Text
unfolding split
ancestors canonical_name = ancestors_of (split b'/' canonical_name)

-- A member's canonical name and whether it is a directory
abbrev pub Role : Type 0
Role = Text × Bool

-- `explicit_directories.get(name)`; the latest assignment comes first.
unfoldable pub role_of : Text → List Role → Option Bool
unfolding eq_text
role_of name [] = none
role_of name ((n, is_directory) ∷ roles) =
    let later = role_of name roles in if eq_text name n then some is_directory else later

abbrev pub is_file : Option Bool → Bool
is_file (some false) = true
is_file _ = false

-- The sets and the dictionary that say which name plays which role
pub record Roles : Type 0 where
  pub canonical_names : List Text
  pub explicit_directories : List Role
  pub implicit_directories : List Text

-- The loop over the ancestors of one name
unfoldable pub add_ancestors : List Text → List Role → List Text → Result (List Text)
add_ancestors [] explicit implicit = done implicit
add_ancestors (ancestor ∷ rest) explicit implicit = do
  raise_if (is_file (role_of ancestor explicit)) (invalid "IPA_MEMBER_PATH_CONFLICT")
  add_ancestors rest explicit (ancestor ∷ implicit)

-- From the test of the canonical name to the assignment of its role
unfoldable pub add_role : Text → Bool → Roles → Result Roles
unfolding elem
add_role canonical_name is_directory roles = do
  raise_if (elem canonical_name roles.canonical_names) (invalid "IPA_MEMBER_PATH_COLLISION")
  implicit ←
      add_ancestors (ancestors canonical_name) roles.explicit_directories roles.implicit_directories
  raise_if (elem canonical_name implicit && not is_directory) (invalid "IPA_MEMBER_PATH_CONFLICT")
  done (record {
    canonical_names = canonical_name ∷ roles.canonical_names;
    explicit_directories = (canonical_name, is_directory) ∷ roles.explicit_directories;
    implicit_directories = implicit;
  })

-- The variables of the loop; `members` holds the latest first, by name.
pub record Shape : Type 0 where
  pub members : List ZipInfo
  pub roles : Roles
  pub expanded_size : ℕ
  pub compressed_size : ℕ

abbrev pub names : List ZipInfo → List Text
names [] = []
names (info ∷ infos) = info.filename ∷ names infos

module _ (codecs : Codecs) (unicode : Text → Text) where
  abbrev pub canonical_name_of : Text → Text
  canonical_name_of name = without_directory_marker (unicode name)

  unfoldable pub check_member : ZipInfo → RawZipEntry → Shape → Result Shape
  unfolding disagrees elem ends_with
  check_member info raw_entry shape = do
    decoded_name ← decode_name codecs raw_entry.flags raw_entry.raw_name
    raise_if (disagrees info raw_entry decoded_name) zip_directory_invalid
    validate_member_name info.orig_filename
    raise_if (not (eq_text info.orig_filename info.filename)) (invalid "IPA_MEMBER_PATH_INVALID")
    raise_if (elem info.filename (names shape.members)) (invalid "IPA_DUPLICATE_MEMBER")
    roles ←
        add_role (canonical_name_of info.filename) (ends_with info.filename (codes "/")) shape.roles
    validate_member_type info
    -- The sizes are unsigned, so that the test for negative ones never holds.
    let expanded = shape.expanded_size + info.file_size
    raise_if (ltb max_expanded_bytes expanded) (invalid "IPA_EXPANDED_TOO_LARGE")
    raise_if (ltb (max_compression_ratio * max info.compress_size 1) info.file_size)
        (invalid "IPA_COMPRESSION_RATIO_EXCEEDED")
    done (record {
      members = info ∷ shape.members;
      roles = roles;
      expanded_size = expanded;
      compressed_size = shape.compressed_size + info.compress_size;
    })

  -- `zip(infos, raw_entries, strict=True)`, of two lists that have been found equally long
  unfoldable pub check_members : List ZipInfo → List RawZipEntry → Shape → Result Shape
  check_members [] raw_entries shape = done shape
  check_members (info ∷ infos) [] shape = done shape
  check_members (info ∷ infos) (raw_entry ∷ raw_entries) shape = do
    shape' ← check_member info raw_entry shape
    check_members infos raw_entries shape'

  abbrev pub no_members : Shape
  no_members = record {
    members = [];
    roles = record { canonical_names = []; explicit_directories = []; implicit_directories = [] };
    expanded_size = 0;
    compressed_size = 0;
  }

  -- The shape in place of its dictionary `members`
  unfoldable pub check_archive_shape : List ZipInfo → List RawZipEntry → Result Shape
  check_archive_shape infos raw_entries = do
    raise_if (ltb max_zip_entries (length infos)) (invalid "IPA_TOO_MANY_ENTRIES")
    raise_if (length infos != length raw_entries) zip_directory_invalid
    shape ← check_members infos raw_entries no_members
    raise_if (ltb (max_compression_ratio * max shape.compressed_size 1) shape.expanded_size)
        (invalid "IPA_COMPRESSION_RATIO_EXCEEDED")
    done shape
