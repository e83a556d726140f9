-- ===== src/Ipa/Directory.antt =====
-- `_find_eocd` and `_read_zip64_directory` of src/ios_rehydrate/ipa.py: where the central directory is
-- described.
pub mod Eocd
pub mod Safety
use ios_rehydrate.Prelude.{
  ℕ, ⊤, suc, ◌+◌, ◌-◌, ◌≤◌, ◌<◌, ◌≡◌, Bool, true, false, not, ◌&&◌, ◌||◌, Option, none, some, List,
  [], ◌∷◌, arith, length, drop, ltb, leb, ◌==◌, ◌!=◌, if◌then◌else◌,
}
use ios_rehydrate.Prelude.Bytes.{Bytes, slice, little, eq_text}
use ios_rehydrate.Prelude.Texts.{starts_with}
use ios_rehydrate.Errors.{Exception, Result, done, raise, ◌>>=◌, ◌>>◌, raise_if}
use ios_rehydrate.Ipa.Struct.{invalid, zip_directory_invalid, unpack_from, u32, u64}

abbrev pub eocd_signature : Bytes
eocd_signature = b'P' ∷ b'K' ∷ 5 ∷ 6 ∷ []

abbrev pub zip64_eocd_signature : Bytes
zip64_eocd_signature = b'P' ∷ b'K' ∷ 6 ∷ 6 ∷ []

abbrev pub zip64_locator_signature : Bytes
zip64_locator_signature = b'P' ∷ b'K' ∷ 6 ∷ 7 ∷ []

abbrev pub eocd_fixed_size : ℕ
eocd_fixed_size = 22

abbrev pub max_eocd_size : ℕ
max_eocd_size = eocd_fixed_size + 0xFFFF

-- `archive_bytes.rfind(signature, start)`, on the bytes from an offset on
unfoldable pub rfind : Bytes → Bytes → ℕ → Option ℕ
rfind signature [] offset = none
rfind signature (b ∷ rest) offset = elim (rfind signature rest (offset + 1)) [
  | some later ↦ some later
  | none ↦ if starts_with (b ∷ rest) signature then some offset else none
]

-- A record at this offset, of which `rest` are the bytes, is there in full and its comment ends the
-- archive.
unfoldable pub end_record_at : Bytes → Bytes → ℕ → Result Bool
end_record_at archive rest offset =
    if starts_with rest eocd_signature && leb (offset + eocd_fixed_size) (length archive)
    then (do
      comment ← unpack_from 2 archive (offset + 20)
      done (offset + eocd_fixed_size + little comment == length archive))
    else done false

abbrev pub is_some : Option ℕ → Bool
is_some none = false
is_some (some offset) = true

-- The loop: it goes from one signature to the next, so its body is run at the offsets that have one.
unfoldable pub eocd_scan : Bytes → Bytes → ℕ → Option ℕ → Result (Option ℕ)
eocd_scan archive [] offset candidate = done candidate
eocd_scan archive (b ∷ rest) offset candidate = do
  here ← end_record_at archive (b ∷ rest) offset
  let later = eocd_scan archive rest (offset + 1) (if here then some offset else candidate)
  raise_if (here && is_some candidate) zip_directory_invalid
  later

-- `candidate is None or candidate != last_signature`
abbrev pub agreed : Option ℕ → Option ℕ → Result ℕ
agreed none last = raise zip_directory_invalid
agreed (some candidate) none = raise zip_directory_invalid
agreed (some candidate) (some last) =
    if candidate != last then raise zip_directory_invalid else done candidate

unfoldable pub find_eocd : Bytes → Result ℕ
find_eocd archive = do
  raise_if (ltb (length archive) eocd_fixed_size) zip_directory_invalid
  let search_start = length archive - max_eocd_size
  let last_signature = rfind eocd_signature (drop search_start archive) search_start
  candidate ← eocd_scan archive (drop search_start archive) search_start none
  agreed candidate last_signature

abbrev pub multidisk_unsupported : Exception
multidisk_unsupported = invalid "IPA_ZIP_MULTIDISK_UNSUPPORTED"

-- `total_entries, directory_size, directory_offset` and where the directory ends
pub record DirectoryRecord : Type 0 where
  pub total_entries : ℕ
  pub directory_size : ℕ
  pub directory_offset : ℕ
  pub directory_end : ℕ

unfoldable pub read_zip64_directory : Bytes → ℕ → Result DirectoryRecord
read_zip64_directory archive eocd_offset = do
  raise_if (ltb eocd_offset 20) zip_directory_invalid
  let locator_offset = eocd_offset - 20
  locator ← unpack_from 20 archive locator_offset
  let record_offset = u64 locator 8
  raise_if (not (eq_text (slice locator 0 4) zip64_locator_signature)) zip_directory_invalid
  raise_if (u32 locator 4 != 0 || u32 locator 16 != 1) multidisk_unsupported
  raise_if (ltb locator_offset 56 || record_offset != locator_offset - 56) zip_directory_invalid
  raise_if (not (eq_text (slice archive record_offset (record_offset + 4)) zip64_eocd_signature))
      zip_directory_invalid
  payload_size ← unpack_from 8 archive (record_offset + 4)
  raise_if (little payload_size != 44) zip_directory_invalid
  fields ← unpack_from 44 archive (record_offset + 12)
  raise_if (u32 fields 4 != 0 || u32 fields 8 != 0) multidisk_unsupported
  raise_if (ltb (little (slice fields 2 4)) 45 || u64 fields 12 != u64 fields 20)
      zip_directory_invalid
  done (record {
    total_entries = u64 fields 20;
    directory_size = u64 fields 28;
    directory_offset = u64 fields 36;
    directory_end = record_offset;
  })
