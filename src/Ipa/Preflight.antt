-- ===== src/Ipa/Preflight.antt =====
-- `_validate_central_directory` and `_preflight_zip` of src/ios_rehydrate/ipa.py.
pub mod Safety
pub mod Layout
use ios_rehydrate.Prelude.{
  ℕ, ⊤, zero, suc, ◌+◌, ◌-◌, ◌*◌, Bool, ◌&&◌, ◌||◌, List, [], ◌∷◌, length, ltb, leb, ◌==◌, ◌!=◌,
  if◌then◌else◌,
}
use ios_rehydrate.Prelude.Bytes.{Bytes}
use ios_rehydrate.Errors.{Result, done, raise, assertion_error, ◌>>=◌, ◌>>◌, raise_if}
use ios_rehydrate.Ipa.Struct.{
  invalid, zip_directory_invalid, unpack_from, u16, u32, uint16_sentinel, uint32_sentinel,
  max_zip_entries, max_central_directory_bytes,
}
use ios_rehydrate.Ipa.Directory.{
  DirectoryRecord, find_eocd, read_zip64_directory, multidisk_unsupported,
}
use ios_rehydrate.Ipa.Entry.{RawZipEntry, Codecs, parse_central_entry}
use ios_rehydrate.Ipa.Ranges.{validate_local_ranges, validate_declared_sizes}
use ios_rehydrate.Ipa.Inflate.{Zlib, validate_raw_payloads}

module _ (codecs : Codecs) (archive : Bytes) (directory_offset directory_end : ℕ) where
  -- `while cursor < directory_end`, with the number of entries so far: the further entries, and where
  -- the cursor ends. A round moves the cursor by 46 bytes at least, which bounds the fuel.
  unfoldable pub central_from : ℕ → ℕ → ℕ → Result (List RawZipEntry × ℕ)
  central_from zero count cursor = raise assertion_error
  central_from (suc fuel) count cursor =
      let round = do
        raise_if (leb max_zip_entries count) (invalid "IPA_TOO_MANY_ENTRIES")
        (entry, record_size) ←
            parse_central_entry codecs archive directory_offset directory_end cursor
        (entries, end) ← central_from fuel (count + 1) (cursor + record_size)
        done (entry ∷ entries, end)
      in if ltb cursor directory_end then round else done ([], cursor)

module _ (codecs : Codecs) (zlib : Zlib) where
  unfoldable pub validate_central_directory : Bytes → ℕ → ℕ → ℕ → Result (List RawZipEntry)
  validate_central_directory archive directory_offset directory_size expected_entries = do
    let directory_end = directory_offset + directory_size
    raise_if (ltb directory_size (expected_entries * 46)) zip_directory_invalid
    (entries, cursor) ←
        central_from codecs archive directory_offset directory_end (directory_size + 1) 0
          directory_offset
    raise_if (cursor != directory_end || length entries != expected_entries) zip_directory_invalid
    validate_local_ranges archive entries directory_offset
    validate_declared_sizes entries
    validate_raw_payloads zlib archive entries
    done entries

-- `value != sentinel and value != expected`
abbrev pub contradicts : ℕ → ℕ → ℕ → Bool
contradicts sentinel value expected = value != sentinel && value != expected

-- A field of the end record holds its sentinel.
unfoldable pub needs_zip64 : Bytes → Bool
needs_zip64 eocd =
    u16 eocd 4 == uint16_sentinel
    || u16 eocd 6 == uint16_sentinel
    || u16 eocd 8 == uint16_sentinel
    || u16 eocd 10 == uint16_sentinel
    || u32 eocd 12 == uint32_sentinel
    || u32 eocd 16 == uint32_sentinel

unfoldable pub wide_directory : Bytes → ℕ → Bytes → Result DirectoryRecord
wide_directory archive eocd_offset eocd = do
  wide ← read_zip64_directory archive eocd_offset
  raise_if
      (contradicts uint16_sentinel (u16 eocd 4) 0
        || contradicts uint16_sentinel (u16 eocd 6) 0
        || contradicts uint16_sentinel (u16 eocd 8) wide.total_entries
        || contradicts uint16_sentinel (u16 eocd 10) wide.total_entries
        || contradicts uint32_sentinel (u32 eocd 12) wide.directory_size
        || contradicts uint32_sentinel (u32 eocd 16) wide.directory_offset)
      zip_directory_invalid
  done wide

unfoldable pub plain_directory : ℕ → Bytes → Result DirectoryRecord
plain_directory eocd_offset eocd = do
  raise_if (u16 eocd 4 != 0 || u16 eocd 6 != 0) multidisk_unsupported
  raise_if (u16 eocd 8 != u16 eocd 10) zip_directory_invalid
  done (record {
    total_entries = u16 eocd 10;
    directory_size = u32 eocd 12;
    directory_offset = u32 eocd 16;
    directory_end = eocd_offset;
  })

-- What the two end records say together: the fields of the first, or those of the ZIP64 record if a
-- field of the first holds its sentinel.
abbrev pub locate_directory : Bytes → ℕ → Bytes → Result DirectoryRecord
locate_directory archive eocd_offset eocd =
    if needs_zip64 eocd
    then wide_directory archive eocd_offset eocd
    else plain_directory eocd_offset eocd

-- The bounds on what the end records say
unfoldable pub bound_directory : DirectoryRecord → Result ⊤
bound_directory place = do
  raise_if (ltb max_zip_entries place.total_entries) (invalid "IPA_TOO_MANY_ENTRIES")
  raise_if (ltb max_central_directory_bytes place.directory_size)
      (invalid "IPA_ZIP_DIRECTORY_TOO_LARGE")
  raise_if
      (ltb place.directory_end place.directory_offset
        || ltb (place.directory_end - place.directory_offset) place.directory_size
        || place.directory_offset + place.directory_size != place.directory_end)
      zip_directory_invalid

module _ (codecs : Codecs) (zlib : Zlib) where
  unfoldable pub preflight_zip : Bytes → Result (List RawZipEntry)
  preflight_zip archive = do
    eocd_offset ← find_eocd archive
    eocd ← unpack_from 22 archive eocd_offset
    place ← locate_directory archive eocd_offset eocd
    bound_directory place
    validate_central_directory codecs zlib archive place.directory_offset place.directory_size
        place.total_entries
