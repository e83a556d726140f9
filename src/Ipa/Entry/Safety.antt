-- ===== src/Ipa/Entry/Safety.antt =====
-- The member records of src/ios_rehydrate/ipa.py are read in bounds.
use ios_rehydrate.Prelude.{
  ℕ, ◌-◌, ◌≤◌, ◌<◌, ◌≡◌, refl, Bool, true, false, ◌||◌, List, [], ◌∷◌, arith, length, ltb,
  if◌then◌else◌,
}
use ios_rehydrate.Prelude.Bytes.{Bytes, Text}
use ios_rehydrate.Errors.{Exception, Result, done, raise, value_error}
use ios_rehydrate.Ipa.Struct.{unpack_from, has_flag, uint32_sentinel}
use ios_rehydrate.Ipa.Refusal.{
  Refuses, Refuses-done, Refuses-raise, Refuses-bind, Refuses-then, Refuses-raise_if, Refuses-if,
  Refuses-test, unpack_from-Refuses,
}
use ios_rehydrate.Ipa.Names.{validate_member_name}
use ios_rehydrate.Ipa.Extra.{resolve_central_zip64, resolve_local_zip64}
use ios_rehydrate.Ipa.Extra.Safety.{
  resolve_central_zip64-Refuses, resolve_local_zip64-Refuses, validate_zip_method-Refuses,
  validate_zip_flags-Refuses,
}
use ios_rehydrate.Ipa.Entry.{
  RawZipEntry, CentralView, parse_local_rest, parse_local_entry, unsigned_descriptor, sole_match,
  validate_data_descriptor, Codecs, decoded, decode_name, parse_central_entry, flag_utf8_name,
}

-- The codecs raise nothing but decoding errors.
pub record IsCodec (codecs : Codecs) : Type 0 where
  pub utf8 : (raw : Bytes) (e : Exception) → codecs.decode_utf8 raw ≡ raise e → e ≡ value_error
  pub cp437 : (raw : Bytes) (e : Exception) → codecs.decode_cp437 raw ≡ raise e → e ≡ value_error

validate_member_name-Refuses : (name : Text) → Refuses (validate_member_name name)
unfolding validate_member_name
validate_member_name-Refuses name =
    Refuses-raise_if _ _ _ refl
      λ _. Refuses-raise_if _ _ _ refl λ _. Refuses-raise_if _ _ _ refl λ _. Refuses-test _ _ refl

parse_local_rest-Refuses :
    (archive : Bytes) (directory_offset : ℕ) (central : CentralView) (header : Bytes)
    → Refuses (parse_local_rest archive directory_offset central header)
unfolding parse_local_rest
parse_local_rest-Refuses archive directory_offset central header = Refuses-raise_if _ _ _ refl λ _.
    Refuses-raise_if _ _ _ refl λ _.
      Refuses-bind (resolve_local_zip64 _ _ _ _) _ (resolve_local_zip64-Refuses _ _ _ _)
        λ sizes _. Refuses-raise_if _ _ _ refl λ _. Refuses-raise_if _ _ _ refl λ _. Refuses-done _

pub parse_local_entry-Refuses :
    (archive : Bytes) (directory_offset : ℕ) (central : CentralView)
    → directory_offset ≤ length archive
    → Refuses (parse_local_entry archive directory_offset central)
unfolding parse_local_entry
parse_local_entry-Refuses archive directory_offset central h =
    let offset = central.sizes.local_header_offset in
    Refuses-raise_if (ltb directory_offset offset || ltb (directory_offset - offset) 30) _ _ refl
      λ inside.
        Refuses-bind (unpack_from 30 archive offset) _
          (unpack_from-Refuses 30 archive offset (ground arith))
          λ header _. Refuses-raise_if _ _ _ refl λ _.
            Refuses-then _ _ (validate_zip_method-Refuses _) (
              Refuses-then _ _ (validate_zip_flags-Refuses _ _) (
                Refuses-raise_if _ _ _ refl
                  λ _. parse_local_rest-Refuses archive directory_offset central header))

sole_match-Refuses : (data_end : ℕ) (sizes : List ℕ) → Refuses (sole_match data_end sizes)
sole_match-Refuses data_end [] = Refuses-raise _ refl
sole_match-Refuses data_end (size ∷ []) = Refuses-done _
sole_match-Refuses data_end (a ∷ b ∷ rest) = Refuses-raise _ refl

pub validate_data_descriptor-Refuses :
    (archive : Bytes) (entry : RawZipEntry) (boundary : ℕ)
    → Refuses (validate_data_descriptor archive entry boundary)
unfolding validate_data_descriptor
validate_data_descriptor-Refuses archive entry boundary =
    Refuses-bind (unsigned_descriptor entry) _ unsigned
      λ bytes _. sole_match-Refuses entry.data_end _
  where
    unsigned : Refuses (unsigned_descriptor entry)
    unsigned =
        Refuses-if entry.descriptor_uses_zip64 _ _ (λ _. Refuses-done _)
          (λ _.
            Refuses-if
              (ltb uint32_sentinel entry.compressed_size || ltb uint32_sentinel entry.file_size) _ _
              (λ _. Refuses-raise _ refl) (λ _. Refuses-done _))

decode_name-Refuses :
    (codecs : Codecs)
    → IsCodec codecs
    → (flags : ℕ) (raw : Bytes) → Refuses (decode_name codecs flags raw)
decode_name-Refuses codecs proper flags raw = by_flag (has_flag flags flag_utf8_name)
  where
    handled :
        (r : Result Text) → ((e : Exception) → r ≡ raise e → e ≡ value_error) → Refuses (decoded r)
    handled (done name) h = Refuses-done name
    handled (raise e) h = rw (h e refl) (Refuses-raise _ refl)

    by_flag :
        (b : Bool)
        → Refuses (decoded (if b then codecs.decode_utf8 raw else codecs.decode_cp437 raw))
    by_flag true = handled _ (proper.utf8 raw)
    by_flag false = handled _ (proper.cp437 raw)

-- A central record and the local record that it names are read in bounds, if the directory lies in the
-- archive and the cursor in the directory.
pub parse_central_entry-Refuses :
    (codecs : Codecs)
    → IsCodec codecs
    → (archive : Bytes) (directory_offset directory_end cursor : ℕ)
    → directory_offset ≤ length archive
    → directory_end ≤ length archive
    → cursor < directory_end
    → Refuses (parse_central_entry codecs archive directory_offset directory_end cursor)
unfolding parse_central_entry
parse_central_entry-Refuses codecs proper archive directory_offset directory_end cursor ho he hc =
    Refuses-raise_if (ltb (directory_end - cursor) 46) _ _ refl λ room.
      Refuses-bind (unpack_from 46 archive cursor) _
        (unpack_from-Refuses 46 archive cursor (ground arith))
        λ header _. Refuses-raise_if _ _ _ refl λ _.
          Refuses-then _ _ (validate_zip_method-Refuses _) (
            Refuses-then _ _ (validate_zip_flags-Refuses _ _) (
              Refuses-raise_if _ _ _ refl λ _.
                Refuses-bind (resolve_central_zip64 _ _ _) _ (resolve_central_zip64-Refuses _ _ _)
                  λ sizes _. Refuses-raise_if _ _ _ refl λ _.
                    Refuses-bind (decode_name codecs _ _) _ (decode_name-Refuses codecs proper _ _)
                      λ name _. Refuses-then _ _ (validate_member_name-Refuses name) (
                        Refuses-bind (parse_local_entry archive directory_offset _) _
                          (parse_local_entry-Refuses archive directory_offset _ ho)
                          λ range _. Refuses-done _)))
