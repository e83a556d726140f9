-- ===== src/Ipa/Inflate.antt =====
-- The integrity check of the member data of src/ios_rehydrate/ipa.py. `zlib` is a parameter: its
-- checksum, and its decompressor as a state with the attributes that the code reads.
pub mod Safety
use ios_rehydrate.Prelude.{
  ℕ, ⊤, zero, suc, ◌+◌, ◌-◌, ◌*◌, ◌%◌, ◌^◌, Bool, true, false, not, ◌&&◌, ◌||◌, Option, none, some,
  List, [], ◌∷◌, length, take, drop, is_nil, min, ltb, ◌==◌, ◌!=◌, if◌then◌else◌,
}
use ios_rehydrate.Prelude.Bytes.{Bytes, slice}
use ios_rehydrate.Errors.{Exception, Result, done, raise, assertion_error, ◌>>=◌, ◌>>◌, raise_if}
use ios_rehydrate.Ipa.Struct.{invalid, zip_payload_invalid}
use ios_rehydrate.Ipa.Entry.{RawZipEntry}

pub record Zlib : Type 1 where
  pub crc32 : Bytes → ℕ → ℕ
  -- `decompressobj(-MAX_WBITS)` and its method; `none` is `zlib.error`.
  pub Decompressor : Type 0
  pub fresh : Decompressor
  pub decompress : Decompressor → Bytes → ℕ → Option (Decompressor × Bytes)
  pub eof : Decompressor → Bool
  pub unused_data : Decompressor → Bytes
  pub unconsumed_tail : Decompressor → Bytes

abbrev pub integrity_chunk_bytes : ℕ
integrity_chunk_bytes = 64 * 1024

abbrev pub size_mismatch : Exception
size_mismatch = invalid "IPA_ZIP_SIZE_MISMATCH"

module _ (zlib : Zlib) where
  open zlib use {crc32, Decompressor, fresh, decompress, eof, unused_data, unconsumed_tail}

  -- The checksum, chunk by chunk; the fuel bounds the number of chunks.
  unfoldable pub checksum_from : ℕ → Bytes → ℕ → Result ℕ
  checksum_from fuel [] checksum = done checksum
  checksum_from zero (b ∷ bs) checksum = raise assertion_error
  checksum_from (suc fuel) (b ∷ bs) checksum =
      checksum_from fuel (drop integrity_chunk_bytes (b ∷ bs))
        (crc32 (take integrity_chunk_bytes (b ∷ bs)) checksum)

  unfoldable pub validate_stored_payload : Bytes → RawZipEntry → Result ⊤
  validate_stored_payload payload entry = do
    raise_if (entry.compressed_size != entry.file_size) size_mismatch
    checksum ← checksum_from (length payload) payload 0
    raise_if (checksum % 2 ^ 32 != entry.crc32) (invalid "IPA_CRC_MISMATCH")

  -- The variables of the loops of `_validate_deflated_payload`
  pub record Inflation : Type 0 where
    pub decompressor : Decompressor
    pub produced : ℕ
    pub checksum : ℕ

  abbrev pub inflated : Option (Decompressor × Bytes) → Result (Decompressor × Bytes)
  inflated none = raise zip_payload_invalid
  inflated (some result) = done result

  -- `while pending`; `is_last` says that `cursor == len(payload)`.
  unfoldable pub inflate_pending : ℕ → ℕ → Bool → Inflation → Bytes → Result Inflation
  inflate_pending zero file_size is_last s pending = raise assertion_error
  inflate_pending (suc fuel) file_size is_last s [] = done s
  inflate_pending (suc fuel) file_size is_last s (b ∷ bs) = do
    let pending = b ∷ bs
    (decompressor, output) ←
        inflated (
          decompress s.decompressor pending
            (min integrity_chunk_bytes (file_size - s.produced + 1)))
    let s' : Inflation = record {
      decompressor = decompressor;
      produced = s.produced + length output;
      checksum = crc32 output s.checksum;
    }
    raise_if (ltb file_size s'.produced) size_mismatch
    let next_pending = unconsumed_tail decompressor
    let later = inflate_pending fuel file_size is_last s' next_pending
    if eof decompressor
        then (raise_if
              (not (is_nil (unused_data decompressor)) || not (is_nil next_pending) || not is_last)
              zip_payload_invalid
            >> done s')
        else (raise_if
              (not (is_nil next_pending) && length next_pending == length pending && is_nil output)
              zip_payload_invalid
            >> later)

  -- `while cursor < len(payload)`, on what is left of the payload
  unfoldable pub inflate_from : ℕ → ℕ → Inflation → Bytes → Result Inflation
  inflate_from zero file_size s payload = raise assertion_error
  inflate_from (suc fuel) file_size s [] = done s
  inflate_from (suc fuel) file_size s (b ∷ bs) = do
    let pending = take integrity_chunk_bytes (b ∷ bs)
    let rest = drop integrity_chunk_bytes (b ∷ bs)
    s' ←
        inflate_pending (length pending + (file_size - s.produced) + 2) file_size (is_nil rest) s
          pending
    inflate_from fuel file_size s' rest

  unfoldable pub validate_deflated_payload : Bytes → RawZipEntry → Result ⊤
  validate_deflated_payload payload entry = do
    s ←
        inflate_from (length payload + 1) entry.file_size
          (record { decompressor = fresh; produced = 0; checksum = 0 }) payload
    raise_if
        (not (eof s.decompressor)
          || not (is_nil (unused_data s.decompressor))
          || not (is_nil (unconsumed_tail s.decompressor))
          || s.produced != entry.file_size)
        size_mismatch
    raise_if (s.checksum % 2 ^ 32 != entry.crc32) (invalid "IPA_CRC_MISMATCH")

  unfoldable pub validate_raw_payloads : Bytes → List RawZipEntry → Result ⊤
  validate_raw_payloads archive [] = done tt
  validate_raw_payloads archive (entry ∷ entries) = do
    let payload = slice archive entry.data_offset entry.data_end
    if entry.compression_method == 0
        then validate_stored_payload payload entry
        else validate_deflated_payload payload entry
    validate_raw_payloads archive entries
