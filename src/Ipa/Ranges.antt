-- ===== src/Ipa/Ranges.antt =====
-- What src/ios_rehydrate/ipa.py checks of all entries together: `_validate_local_ranges` and
-- `_validate_declared_sizes`.
pub mod Disjoint
pub mod Sizes
use ios_rehydrate.Prelude.{ℕ, ⊤, ◌+◌, ◌*◌, Bool, List, [], ◌∷◌, leb, ltb, max, if◌then◌else◌}
use ios_rehydrate.Prelude.Bytes.{Bytes}
use ios_rehydrate.Errors.{Result, done, ◌>>=◌, ◌>>◌, raise_if}
use ios_rehydrate.Ipa.Struct.{
  invalid, zip_local_header_invalid, has_flag, max_expanded_bytes, max_compression_ratio,
}
use ios_rehydrate.Ipa.Entry.{RawZipEntry, flag_data_descriptor, validate_data_descriptor}

-- `sorted(entries, key=...)`, which is stable
abbrev pub insert_entry : RawZipEntry → List RawZipEntry → List RawZipEntry
insert_entry entry [] = entry ∷ []
insert_entry entry (e ∷ entries) =
    if leb entry.local_header_offset e.local_header_offset
    then entry ∷ e ∷ entries
    else e ∷ insert_entry entry entries

abbrev pub sort_entries : List RawZipEntry → List RawZipEntry
sort_entries [] = []
sort_entries (e ∷ entries) = insert_entry e (sort_entries entries)

-- The offset of the next local record, or of the directory.
abbrev pub boundary_of : ℕ → List RawZipEntry → ℕ
boundary_of directory_offset [] = directory_offset
boundary_of directory_offset (next ∷ entries) = next.local_header_offset

-- Where the entry's record ends: behind its data, or behind the descriptor that follows the data.
unfoldable pub record_end_of : Bytes → RawZipEntry → ℕ → Result ℕ
record_end_of archive entry boundary =
    if has_flag entry.flags flag_data_descriptor
    then validate_data_descriptor archive entry boundary
    else done entry.data_end

unfoldable pub validate_ordered : Bytes → ℕ → List RawZipEntry → Result ⊤
validate_ordered archive directory_offset [] = done tt
validate_ordered archive directory_offset (entry ∷ entries) = do
  let boundary = boundary_of directory_offset entries
  raise_if (ltb boundary entry.data_end) zip_local_header_invalid
  record_end ← record_end_of archive entry boundary
  raise_if (ltb boundary record_end) zip_local_header_invalid
  validate_ordered archive directory_offset entries

unfoldable pub validate_local_ranges : Bytes → List RawZipEntry → ℕ → Result ⊤
validate_local_ranges archive entries directory_offset =
    validate_ordered archive directory_offset (sort_entries entries)

-- The two sums of the loop
pub record Totals : Type 0 where
  pub expanded_size : ℕ
  pub compressed_size : ℕ

-- The loop over the sizes that the members declare, as pairs of expanded and compressed size
unfoldable pub add_sizes : List (ℕ × ℕ) → Totals → Result Totals
add_sizes [] totals = done totals
add_sizes ((file_size, compressed_size) ∷ sizes) totals = do
  let expanded = totals.expanded_size + file_size
  raise_if (ltb max_expanded_bytes expanded) (invalid "IPA_EXPANDED_TOO_LARGE")
  raise_if (ltb (max_compression_ratio * max compressed_size 1) file_size)
      (invalid "IPA_COMPRESSION_RATIO_EXCEEDED")
  add_sizes sizes (record {
    expanded_size = expanded;
    compressed_size = totals.compressed_size + compressed_size;
  })

abbrev pub declared : List RawZipEntry → List (ℕ × ℕ)
declared [] = []
declared (e ∷ entries) = (e.file_size, e.compressed_size) ∷ declared entries

unfoldable pub validate_declared_sizes : List RawZipEntry → Result ⊤
validate_declared_sizes entries = do
  totals ← add_sizes (declared entries) (record { expanded_size = 0; compressed_size = 0 })
  raise_if (ltb (max_compression_ratio * max totals.compressed_size 1) totals.expanded_size)
      (invalid "IPA_COMPRESSION_RATIO_EXCEEDED")
