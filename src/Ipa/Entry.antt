-- ===== src/Ipa/Entry.antt =====
-- One member's records: `_RawZipEntry`, `_parse_local_entry`, `_validate_data_descriptor` and the body
-- of the loop of `_validate_central_directory`, of src/ios_rehydrate/ipa.py.
pub mod Safety
pub mod Bounds
use Prim.Native.Nat.{bit_and}
use ios_rehydrate.Prelude.{
  ℕ, ⊤, zero, suc, ◌+◌, ◌-◌, ◌*◌, ◌≡◌, Bool, true, false, not, ◌&&◌, ◌||◌, Option, none, some, List,
  [], ◌∷◌, ◌++◌, length, keep, ltb, leb, ◌==◌, ◌!=◌, if◌then◌else◌, ◌/◌, ◌%◌, map,
}
use ios_rehydrate.Prelude.Bytes.{Bytes, Text, slice, little, eq_text}
use ios_rehydrate.Errors.{Exception, Result, done, raise, ◌>>=◌, ◌>>◌, raise_if}
use ios_rehydrate.Ipa.Struct.{
  invalid, zip_directory_invalid, zip_local_header_invalid, unpack_from, u16, u32, has_flag,
  uint32_sentinel,
}
use ios_rehydrate.Ipa.Directory.{multidisk_unsupported}
use ios_rehydrate.Ipa.Extra.{
  validate_zip_method, validate_zip_flags, resolve_central_zip64, resolve_local_zip64, CentralSizes,
  LocalSizes,
}
use ios_rehydrate.Ipa.Names.{validate_member_name}

pub record RawZipEntry : Type 0 where
  pub raw_name : Bytes
  pub flags : ℕ
  pub compression_method : ℕ
  pub crc32 : ℕ
  pub compressed_size : ℕ
  pub file_size : ℕ
  pub central_header_offset : ℕ
  pub local_header_offset : ℕ
  pub data_offset : ℕ
  pub data_end : ℕ
  pub descriptor_uses_zip64 : Bool
  pub version_made_by : ℕ
  pub external_attr : ℕ

abbrev pub central_signature : Bytes
central_signature = b'P' ∷ b'K' ∷ 1 ∷ 2 ∷ []

abbrev pub local_signature : Bytes
local_signature = b'P' ∷ b'K' ∷ 3 ∷ 4 ∷ []

abbrev pub descriptor_signature : Bytes
descriptor_signature = b'P' ∷ b'K' ∷ 7 ∷ 8 ∷ []

abbrev pub flag_data_descriptor : ℕ
flag_data_descriptor = 8

abbrev pub flag_utf8_name : ℕ
flag_utf8_name = 0x800

-- What the central record says of a member, as `_parse_local_entry` is told.
pub record CentralView : Type 0 where
  pub raw_name : Bytes
  pub central_flags : ℕ
  pub compression_method : ℕ
  pub crc32 : ℕ
  pub sizes : CentralSizes

-- Where the member's data lies.
pub record DataRange : Type 0 where
  pub data_offset : ℕ
  pub data_end : ℕ
  pub descriptor_uses_zip64 : Bool

-- `value not in {0, expected}`
abbrev pub neither_zero_nor : ℕ → ℕ → Bool
neither_zero_nor value expected = value != 0 && value != expected

-- The local values agree with the central ones; those that a data descriptor follows may be 0.
unfoldable pub local_values_differ : Bool → ℕ → LocalSizes → CentralView → Bool
local_values_differ true local_crc32 sizes central =
    neither_zero_nor local_crc32 central.crc32
    || neither_zero_nor sizes.compressed_size central.sizes.compressed_size
    || neither_zero_nor sizes.file_size central.sizes.file_size
local_values_differ false local_crc32 sizes central =
    local_crc32 != central.crc32
    || sizes.compressed_size != central.sizes.compressed_size
    || sizes.file_size != central.sizes.file_size

-- From the name on, with the local header read
unfoldable pub parse_local_rest : Bytes → ℕ → CentralView → Bytes → Result DataRange
parse_local_rest archive directory_offset central header = do
  let name_size = u16 header 26
  let extra_size = u16 header 28
  let variable_offset = central.sizes.local_header_offset + 30
  raise_if (ltb (directory_offset - variable_offset) (name_size + extra_size))
      zip_local_header_invalid
  let name_end = variable_offset + name_size
  let data_offset = name_end + extra_size
  raise_if (not (eq_text (slice archive variable_offset name_end) central.raw_name))
      zip_local_header_invalid
  sizes ←
      resolve_local_zip64 (slice archive name_end data_offset) (u16 header 4) (u32 header 22)
        (u32 header 18)
  raise_if
      (local_values_differ (has_flag central.central_flags flag_data_descriptor) (u32 header 14)
        sizes central)
      zip_local_header_invalid
  raise_if (ltb (directory_offset - data_offset) central.sizes.compressed_size)
      zip_local_header_invalid
  done (record {
    data_offset = data_offset;
    data_end = data_offset + central.sizes.compressed_size;
    descriptor_uses_zip64 =
        central.sizes.uses_zip64_sizes
        || sizes.uses_zip64_sizes
        || ltb uint32_sentinel central.sizes.compressed_size
        || ltb uint32_sentinel central.sizes.file_size;
  })

unfoldable pub parse_local_entry : Bytes → ℕ → CentralView → Result DataRange
parse_local_entry archive directory_offset central = do
  let offset = central.sizes.local_header_offset
  raise_if (ltb directory_offset offset || ltb (directory_offset - offset) 30)
      zip_local_header_invalid
  header ← unpack_from 30 archive offset
  raise_if (not (eq_text (slice header 0 4) local_signature)) zip_local_header_invalid
  validate_zip_method (u16 header 8)
  validate_zip_flags (u16 header 6) (u16 header 8)
  raise_if (u16 header 8 != central.compression_method || u16 header 6 != central.central_flags)
      zip_local_header_invalid
  parse_local_rest archive directory_offset central header

-- `struct.pack` of one little-endian field
abbrev pub pack : ℕ → ℕ → Bytes
pack zero value = []
pack (suc size) value = value % 256 ∷ pack size (value / 256)

unfoldable pub unsigned_descriptor : RawZipEntry → Result Bytes
unsigned_descriptor entry =
    if entry.descriptor_uses_zip64
    then done (pack 4 entry.crc32 ++ (pack 8 entry.compressed_size ++ pack 8 entry.file_size))
    else if ltb uint32_sentinel entry.compressed_size || ltb uint32_sentinel entry.file_size
    then raise zip_local_header_invalid
    else done (pack 4 entry.crc32 ++ (pack 4 entry.compressed_size ++ pack 4 entry.file_size))

-- The candidate stands at the end of the data, before the boundary.
abbrev pub stands_at : Bytes → ℕ → ℕ → Bytes → Bool
stands_at archive data_end boundary candidate =
    leb (length candidate) (boundary - data_end)
    && eq_text (slice archive data_end (data_end + length candidate)) candidate

abbrev pub sole_match : ℕ → List ℕ → Result ℕ
sole_match data_end (size ∷ []) = done (data_end + size)
sole_match data_end _ = raise zip_local_header_invalid

unfoldable pub validate_data_descriptor : Bytes → RawZipEntry → ℕ → Result ℕ
unfolding unsigned_descriptor
validate_data_descriptor archive entry boundary = do
  unsigned ← unsigned_descriptor entry
  let candidates = unsigned ∷ (descriptor_signature ++ unsigned) ∷ []
  sole_match entry.data_end
      (map length (keep (stands_at archive entry.data_end boundary) candidates))

-- The text codecs of Python, of which the code uses two: `raise value_error` is a decoding error.
pub record Codecs : Type 0 where
  pub decode_utf8 : Bytes → Result Text
  pub decode_cp437 : Bytes → Result Text

-- `except UnicodeDecodeError`
abbrev pub decoded : Result Text → Result Text
decoded (done name) = done name
decoded (raise Exception.value_error) = raise zip_directory_invalid
decoded (raise e) = raise e

abbrev pub decode_name : Codecs → ℕ → Bytes → Result Text
decode_name codecs flags raw_name = decoded (
    if has_flag flags flag_utf8_name
    then codecs.decode_utf8 raw_name
    else codecs.decode_cp437 raw_name)

-- One central record: the entry and how long the record is.
unfoldable pub parse_central_entry : Codecs → Bytes → ℕ → ℕ → ℕ → Result (RawZipEntry × ℕ)
parse_central_entry codecs archive directory_offset directory_end cursor = do
  raise_if (ltb (directory_end - cursor) 46) zip_directory_invalid
  header ← unpack_from 46 archive cursor
  raise_if (not (eq_text (slice header 0 4) central_signature)) zip_directory_invalid
  validate_zip_method (u16 header 10)
  validate_zip_flags (u16 header 8) (u16 header 10)
  let record_size = 46 + u16 header 28 + u16 header 30 + u16 header 32
  raise_if (ltb (directory_end - cursor) record_size) zip_directory_invalid
  let name_end = cursor + 46 + u16 header 28
  let raw_name = slice archive (cursor + 46) name_end
  sizes ←
      resolve_central_zip64 (slice archive name_end (name_end + u16 header 30)) (u16 header 6)
        (record {
          file_size_32 = u32 header 24;
          compressed_size_32 = u32 header 20;
          local_header_offset_32 = u32 header 42;
          member_disk_16 = u16 header 34;
        })
  raise_if (sizes.member_disk != 0) multidisk_unsupported
  name ← decode_name codecs (u16 header 8) raw_name
  validate_member_name name
  range ← parse_local_entry archive directory_offset (record {
    raw_name = raw_name;
    central_flags = u16 header 8;
    compression_method = u16 header 10;
    crc32 = u32 header 16;
    sizes = sizes;
  })
  done (
    record {
      raw_name = raw_name;
      flags = u16 header 8;
      compression_method = u16 header 10;
      crc32 = u32 header 16;
      compressed_size = sizes.compressed_size;
      file_size = sizes.file_size;
      central_header_offset = cursor;
      local_header_offset = sizes.local_header_offset;
      data_offset = range.data_offset;
      data_end = range.data_end;
      descriptor_uses_zip64 = range.descriptor_uses_zip64;
      version_made_by = u16 header 4;
      external_attr = u32 header 38;
    },
    record_size,
  )
