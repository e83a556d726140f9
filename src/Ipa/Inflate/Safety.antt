-- ===== src/Ipa/Inflate/Safety.antt =====
-- The integrity check of src/ios_rehydrate/ipa.py ends: a round of the inner loop consumes input or
-- produces output, of which there is no more than the declared size.
use ios_rehydrate.Prelude.{
  ℕ, zero, suc, ◌+◌, ◌-◌, ◌≤◌, ◌<◌, ◌≡◌, refl, Bool, false, not, ◌&&◌, Option, none, some, List, [],
  ◌∷◌, arith, length, take, drop, is_nil, min, ltb, ◌==◌, length-drop, ltb-false,
}
use ios_rehydrate.Prelude.Bytes.{Bytes, slice}
use ios_rehydrate.Errors.{done}
use ios_rehydrate.Ipa.Refusal.{
  Refuses, Refuses-done, Refuses-raise, Refuses-bind, Refuses-then, Refuses-raise_if, Refuses-if,
  Refuses-test,
}
use ios_rehydrate.Ipa.Entry.{RawZipEntry}
use ios_rehydrate.Ipa.Inflate.{
  Zlib, Inflation, inflated, inflate_pending, inflate_from, integrity_chunk_bytes, checksum_from,
  validate_stored_payload, validate_deflated_payload, validate_raw_payloads,
}

-- `unconsumed_tail` is what is left of the last input.
abbrev pub TailShrinks : Zlib → Type 0
TailShrinks zlib =
    (d : zlib.Decompressor) (input : Bytes) (limit : ℕ) (d' : zlib.Decompressor) (output : Bytes)
    → zlib.decompress d input limit ≡ some (d', output)
    → length (zlib.unconsumed_tail d') ≤ length input

-- What the two tests of a round leave of the measure.
round_progress :
    (tail pending output : Bytes) (fuel file_size produced : ℕ)
    → length tail ≤ length pending
    → produced + length output ≤ file_size
    → (not (is_nil tail) && length tail == length pending && is_nil output) ≡ false
    → length pending + (file_size - produced) < suc fuel
    → 0 < length pending
    → length tail + (file_size - (produced + length output)) < fuel
round_progress [] pending output fuel file_size produced le fits moved h pos = ground arith
round_progress (t ∷ tail) pending [] fuel file_size produced le fits moved h pos = ground arith
round_progress (t ∷ tail) pending (o ∷ output) fuel file_size produced le fits moved h pos =
    ground arith

module _ (zlib : Zlib) (shrinks : TailShrinks zlib) where
  inflated-Refuses : (r : Option (zlib.Decompressor × Bytes)) → Refuses (inflated zlib r)
  inflated-Refuses none = Refuses-raise _ refl
  inflated-Refuses (some x) = Refuses-done x

  inflated-done :
      (r : Option (zlib.Decompressor × Bytes)) (x : zlib.Decompressor × Bytes)
      → inflated zlib r ≡ done x
      → r ≡ some x
  inflated-done none x h = cc
  inflated-done (some y) x h = cc

  inflate_pending-Refuses :
      (fuel file_size : ℕ) (is_last : Bool) (s : Inflation zlib) (pending : Bytes)
      → length pending + (file_size - s.produced) < fuel
      → Refuses (inflate_pending zlib fuel file_size is_last s pending)
  unfolding inflate_pending
  inflate_pending-Refuses zero file_size is_last s pending h = absurd (omega arith)
  inflate_pending-Refuses (suc fuel) file_size is_last s [] h = Refuses-done s
  inflate_pending-Refuses (suc fuel) file_size is_last s (b ∷ bs) h =
      Refuses-bind (inflated zlib result) _ (inflated-Refuses result) λ x hx.
        let shrunk = shrinks s.decompressor (b ∷ bs) limit x.0 x.1 (inflated-done result x hx) in
        Refuses-raise_if (ltb file_size (s.produced + length x.1)) _ _ refl λ fits.
          Refuses-if (zlib.eof x.0) _ _ (λ _. Refuses-raise_if _ _ _ refl λ _. Refuses-done _)
            (λ _.
              Refuses-raise_if
                (not (is_nil (zlib.unconsumed_tail x.0))
                  && length (zlib.unconsumed_tail x.0) == length (b ∷ bs)
                  && is_nil x.1)
                _ _ refl
                λ moved.
                  inflate_pending-Refuses fuel file_size is_last _ (zlib.unconsumed_tail x.0) (
                    round_progress (zlib.unconsumed_tail x.0) (b ∷ bs) x.1 fuel file_size s.produced
                      shrunk (ltb-false _ _ fits) moved h (omega arith)))
    where
      limit : ℕ
      limit = min integrity_chunk_bytes (file_size - s.produced + 1)

      result : Option (zlib.Decompressor × Bytes)
      result = zlib.decompress s.decompressor (b ∷ bs) limit

  inflate_from-Refuses :
      (fuel file_size : ℕ) (s : Inflation zlib) (payload : Bytes)
      → length payload < fuel
      → Refuses (inflate_from zlib fuel file_size s payload)
  unfolding inflate_from
  inflate_from-Refuses zero file_size s payload h = absurd (omega arith)
  inflate_from-Refuses (suc fuel) file_size s [] h = Refuses-done s
  inflate_from-Refuses (suc fuel) file_size s (b ∷ bs) h =
      Refuses-bind (inflate_pending zlib _ file_size (is_nil rest) s pending) _
        (inflate_pending-Refuses (length pending + (file_size - s.produced) + 2) file_size
          (is_nil rest) s pending (omega arith))
        λ s' _.
          inflate_from-Refuses fuel file_size s' rest
            (omega (arith, length-drop integrity_chunk_bytes (b ∷ bs)))
    where
      pending : Bytes
      pending = take integrity_chunk_bytes (b ∷ bs)

      rest : Bytes
      rest = drop integrity_chunk_bytes (b ∷ bs)

  validate_deflated_payload-Refuses :
      (payload : Bytes) (entry : RawZipEntry)
      → Refuses (validate_deflated_payload zlib payload entry)
  unfolding validate_deflated_payload
  validate_deflated_payload-Refuses payload entry =
      Refuses-bind (inflate_from zlib (length payload + 1) entry.file_size _ payload) _
        (inflate_from-Refuses (length payload + 1) entry.file_size _ payload (omega arith))
        λ s _. Refuses-raise_if _ _ _ refl λ _. Refuses-test _ _ refl

  checksum_from-Refuses :
      (fuel : ℕ) (payload : Bytes) (checksum : ℕ)
      → length payload ≤ fuel
      → Refuses (checksum_from zlib fuel payload checksum)
  unfolding checksum_from
  checksum_from-Refuses zero [] checksum h = Refuses-done checksum
  checksum_from-Refuses (suc fuel) [] checksum h = Refuses-done checksum
  checksum_from-Refuses zero (b ∷ bs) checksum h = absurd (omega arith)
  checksum_from-Refuses (suc fuel) (b ∷ bs) checksum h =
      checksum_from-Refuses fuel (drop integrity_chunk_bytes (b ∷ bs))
        (zlib.crc32 (take integrity_chunk_bytes (b ∷ bs)) checksum)
        (omega (arith, length-drop integrity_chunk_bytes (b ∷ bs), h))

  validate_stored_payload-Refuses :
      (payload : Bytes) (entry : RawZipEntry) → Refuses (validate_stored_payload zlib payload entry)
  unfolding validate_stored_payload
  validate_stored_payload-Refuses payload entry = Refuses-raise_if _ _ _ refl λ _.
      Refuses-bind (checksum_from zlib (length payload) payload 0) _
        (checksum_from-Refuses (length payload) payload 0 (omega arith))
        λ checksum _. Refuses-test _ _ refl

  -- If the unconsumed tail of zlib is no longer than its input, validate_raw_payloads ends on any
  -- archive and entries, and raises nothing but an error of the status IPA_INVALID.
  pub validate_raw_payloads-Refuses :
      (archive : Bytes) (entries : List RawZipEntry)
      → Refuses (validate_raw_payloads zlib archive entries)
  unfolding validate_raw_payloads
  validate_raw_payloads-Refuses archive [] = Refuses-done tt
  validate_raw_payloads-Refuses archive (entry ∷ entries) =
      let payload = slice archive entry.data_offset entry.data_end in
      Refuses-then _ _
        (Refuses-if (entry.compression_method == 0) _ _
          (λ _. validate_stored_payload-Refuses payload entry)
          (λ _. validate_deflated_payload-Refuses payload entry))
        (validate_raw_payloads-Refuses archive entries)
