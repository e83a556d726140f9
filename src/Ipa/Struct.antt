-- ===== src/Ipa/Struct.antt =====
-- `struct.unpack_from` and the constants of src/ios_rehydrate/ipa.py.
use Prim.Native.Nat.{bit_and}
use ios_rehydrate.Prelude.{ℕ, ◌+◌, ◌*◌, ◌^◌, Bool, String, length, leb, ◌!=◌, if◌then◌else◌}
use ios_rehydrate.Prelude.Bytes.{Bytes, slice, little}
use ios_rehydrate.Errors.{Exception, Result, done, raise, struct_error, error, ipa_invalid}

abbrev pub max_zip_entries : ℕ
max_zip_entries = 50_000

abbrev pub max_central_directory_bytes : ℕ
max_central_directory_bytes = 64 * 1024 ^ 2

abbrev pub max_expanded_bytes : ℕ
max_expanded_bytes = 8 * 1024 ^ 3

abbrev pub max_compression_ratio : ℕ
max_compression_ratio = 200

abbrev pub uint16_sentinel : ℕ
uint16_sentinel = 0xFFFF

abbrev pub uint32_sentinel : ℕ
uint32_sentinel = 0xFFFFFFFF

-- `_invalid`
abbrev pub invalid : String → Exception
invalid reason = error ipa_invalid reason

abbrev pub zip_directory_invalid : Exception
zip_directory_invalid = invalid "IPA_ZIP_DIRECTORY_INVALID"

abbrev pub zip_local_header_invalid : Exception
zip_local_header_invalid = invalid "IPA_ZIP_LOCAL_HEADER_INVALID"

abbrev pub zip_payload_invalid : Exception
zip_payload_invalid = invalid "IPA_ZIP_DATA_INVALID"

-- `_zip_record_invalid(local=...)`
abbrev pub zip_record_invalid : Bool → Exception
zip_record_invalid local = if local then zip_local_header_invalid else zip_directory_invalid

-- The bytes that `struct.unpack_from` reads for a format of `size` bytes; it raises if they are not
-- there.
unfoldable pub unpack_from : ℕ → Bytes → ℕ → Result Bytes
unpack_from size bytes offset =
    if leb (offset + size) (length bytes)
    then done (slice bytes offset (offset + size))
    else raise struct_error

-- The little-endian field of `size` bytes at a place of what was read: `H`, `I` and `Q`.
abbrev pub u16 : Bytes → ℕ → ℕ
u16 chunk at = little (slice chunk at (at + 2))

abbrev pub u32 : Bytes → ℕ → ℕ
u32 chunk at = little (slice chunk at (at + 4))

abbrev pub u64 : Bytes → ℕ → ℕ
u64 chunk at = little (slice chunk at (at + 8))

-- `bool(flags & bit)`
abbrev pub has_flag : ℕ → ℕ → Bool
has_flag flags bit = bit_and flags bit != 0
