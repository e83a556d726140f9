-- ===== src/Ipa/Extra.antt =====
-- The extra fields of a ZIP record and the 64-bit values in them: `_parse_extra_fields` to
-- `_resolve_local_zip64` of src/ios_rehydrate/ipa.py.
pub mod Safety
use Prim.Native.Nat.{bit_and}
use ios_rehydrate.Prelude.{
  ℕ, ⊤, zero, suc, ◌+◌, ◌-◌, ◌*◌, ◌≡◌, Bool, true, false, not, ◌&&◌, ◌||◌, Option, none, some, List,
  [], ◌∷◌, arith, length, drop, take, is_nil, ltb, leb, ◌==◌, ◌!=◌, if◌then◌else◌,
}
use ios_rehydrate.Prelude.Bytes.{Bytes, slice, little}
use ios_rehydrate.Errors.{Exception, Result, done, raise, assertion_error, ◌>>=◌, ◌>>◌, raise_if}
use ios_rehydrate.Ipa.Struct.{
  invalid, zip_directory_invalid, zip_local_header_invalid, zip_record_invalid, unpack_from, u16,
  has_flag, uint16_sentinel, uint32_sentinel,
}

pub record ExtraField : Type 0 where
  pub field_id : ℕ
  pub content : Bytes

-- The loop of `_parse_extra_fields` on the bytes from the cursor on, with fuel for its rounds. A round
-- reads at least four bytes.
unfoldable pub parse_extra_from : ℕ → Bytes → Bool → Result (List ExtraField)
parse_extra_from zero extra local = raise assertion_error
parse_extra_from (suc fuel) [] local = done []
parse_extra_from (suc fuel) (b ∷ bs) local = do
  let extra = b ∷ bs
  raise_if (ltb (length extra) 4) (zip_record_invalid local)
  header ← unpack_from 4 extra 0
  let field_size = u16 header 2
  let rest = drop 4 extra
  raise_if (ltb (length rest) field_size) (zip_record_invalid local)
  fields ← parse_extra_from fuel (drop field_size rest) local
  done (record { field_id = u16 header 0; content = take field_size rest } ∷ fields)

unfoldable pub parse_extra_fields : Bytes → Bool → Result (List ExtraField)
unfolding parse_extra_from
parse_extra_fields extra local = parse_extra_from (length extra + 1) extra local

-- The payloads of the fields with the ZIP64 identifier
abbrev pub zip64_payloads : List ExtraField → List Bytes
zip64_payloads [] = []
zip64_payloads (f ∷ fields) =
    if f.field_id == 1 then f.content ∷ zip64_payloads fields else zip64_payloads fields

abbrev pub sole_payload : ℕ → Bool → List Bytes → Result (Option Bytes)
sole_payload required_size local (payload ∷ []) =
    if length payload != required_size
    then raise (zip_record_invalid local)
    else done (some payload)
sole_payload required_size local _ = raise (zip_record_invalid local)

unfoldable pub zip64_payload : Bytes → ℕ → Bool → Result (Option Bytes)
zip64_payload extra required_size local = do
  fields ← parse_extra_fields extra local
  let payloads = zip64_payloads fields
  if required_size == 0
      then (raise_if (not (is_nil payloads)) (zip_record_invalid local) >> done none)
      else sole_payload required_size local payloads

-- `_validate_zip_method`: stored or deflated
unfoldable pub validate_zip_method : ℕ → Result ⊤
validate_zip_method compression_method =
    raise_if (not (compression_method == 0 || compression_method == 8))
      (invalid "IPA_ZIP_COMPRESSION_UNSUPPORTED")

abbrev pub supported_common_flags : ℕ
supported_common_flags = 0x808

-- `flags & ~allowed` is what `flags & allowed` leaves of `flags`.
unfoldable pub validate_zip_flags : ℕ → ℕ → Result ⊤
validate_zip_flags flags compression_method = do
  raise_if (has_flag flags 1) (invalid "IPA_ZIP_ENCRYPTED")
  let allowed =
      if compression_method == 8 then supported_common_flags + 6 else supported_common_flags
  raise_if (flags - bit_and flags allowed != 0) (invalid "IPA_ZIP_FLAGS_UNSUPPORTED")

-- A 64-bit or 32-bit value from the payload at the cursor: `assert payload is not None`, then the read.
unfoldable pub read_payload : ℕ → Option Bytes → ℕ → Result ℕ
read_payload size none cursor = raise assertion_error
read_payload size (some payload) cursor = do
  chunk ← unpack_from size payload cursor
  done (little chunk)

-- A value that is in the payload if its field holds the sentinel, and the cursor behind it.
unfoldable pub read_if : Bool → ℕ → Option Bytes → ℕ → ℕ → Result (ℕ × ℕ)
unfolding read_payload
read_if true size payload cursor value = do
  wide ← read_payload size payload cursor
  done (wide, cursor + size)
read_if false size payload cursor value = done (value, cursor)

abbrev pub size_if : Bool → ℕ → ℕ
size_if b size = if b then size else 0

pub record CentralSizes : Type 0 where
  pub file_size : ℕ
  pub compressed_size : ℕ
  pub local_header_offset : ℕ
  pub member_disk : ℕ
  pub uses_zip64_sizes : Bool

-- The 32-bit and 16-bit fields of a central record
pub record CentralFields : Type 0 where
  pub file_size_32 : ℕ
  pub compressed_size_32 : ℕ
  pub local_header_offset_32 : ℕ
  pub member_disk_16 : ℕ

abbrev pub central_required_size : CentralFields → ℕ
central_required_size fields =
    size_if (fields.file_size_32 == uint32_sentinel) 8
    + size_if (fields.compressed_size_32 == uint32_sentinel) 8
    + size_if (fields.local_header_offset_32 == uint32_sentinel) 8
    + size_if (fields.member_disk_16 == uint16_sentinel) 4

unfoldable pub resolve_central_zip64 : Bytes → ℕ → CentralFields → Result CentralSizes
resolve_central_zip64 extra version_needed fields = do
  let required_size = central_required_size fields
  payload ← zip64_payload extra required_size false
  raise_if (required_size != 0 && ltb version_needed 45) zip_directory_invalid
  (file_size, after_file) ←
      read_if (fields.file_size_32 == uint32_sentinel) 8 payload 0 fields.file_size_32
  (compressed_size, after_compressed) ←
      read_if (fields.compressed_size_32 == uint32_sentinel) 8 payload after_file
        fields.compressed_size_32
  (offset, after_offset) ←
      read_if (fields.local_header_offset_32 == uint32_sentinel) 8 payload after_compressed
        fields.local_header_offset_32
  (member_disk, cursor) ←
      read_if (fields.member_disk_16 == uint16_sentinel) 4 payload after_offset
        fields.member_disk_16
  raise_if (cursor != required_size) zip_directory_invalid
  done (record {
    file_size = file_size;
    compressed_size = compressed_size;
    local_header_offset = offset;
    member_disk = member_disk;
    uses_zip64_sizes =
        fields.file_size_32 == uint32_sentinel || fields.compressed_size_32 == uint32_sentinel;
  })

pub record LocalSizes : Type 0 where
  pub file_size : ℕ
  pub compressed_size : ℕ
  pub uses_zip64_sizes : Bool

unfoldable pub resolve_local_zip64 : Bytes → ℕ → ℕ → ℕ → Result LocalSizes
resolve_local_zip64 extra version_needed file_size_32 compressed_size_32 = do
  let required_size =
      size_if (file_size_32 == uint32_sentinel) 8
      + size_if (compressed_size_32 == uint32_sentinel) 8
  payload ← zip64_payload extra required_size true
  raise_if (required_size != 0 && ltb version_needed 45) zip_local_header_invalid
  (file_size, after_file) ← read_if (file_size_32 == uint32_sentinel) 8 payload 0 file_size_32
  (compressed_size, cursor) ←
      read_if (compressed_size_32 == uint32_sentinel) 8 payload after_file compressed_size_32
  raise_if (cursor != required_size) zip_local_header_invalid
  done (record {
    file_size = file_size;
    compressed_size = compressed_size;
    uses_zip64_sizes = file_size_32 == uint32_sentinel || compressed_size_32 == uint32_sentinel;
  })
