-- ===== src/Ipa/Shape/Matching.antt =====
-- What `_check_archive_shape` of src/ios_rehydrate/ipa.py has found equal in the two views of an archive.
use ios_rehydrate.Prelude.{
  ◌≡◌, ◌/◌, ◌^◌, ap, sym, ◌∙◌, false, not, List, [], ◌∷◌, arith, length, ◌!=◌, !=-false, or-false,
}
use ios_rehydrate.Prelude.Bytes.{Text, eq_text, eq_text→eq}
use ios_rehydrate.Errors.{done, Ensures, Ensures-done, Ensures-raise_if, Ensures-bind}
use ios_rehydrate.Ipa.Names.{validate_member_name}
use ios_rehydrate.Ipa.Entry.{RawZipEntry, Codecs, decode_name}
use ios_rehydrate.Ipa.Shape.{
  ZipInfo, Shape, disagrees, check_member, check_members, no_members, check_archive_shape,
}

module _ (codecs : Codecs) (unicode : Text → Text) where
  -- A member that `zipfile` lists is the entry that the preflight has read.
  pub record IsMatched (info : ZipInfo) (raw_entry : RawZipEntry) : Type 0 where
    pub name : decode_name codecs raw_entry.flags raw_entry.raw_name ≡ done info.filename
    pub method : info.compress_type ≡ raw_entry.compression_method
    pub checksum : info.crc ≡ raw_entry.crc32
    pub stored : info.compress_size ≡ raw_entry.compressed_size
    pub expanded : info.file_size ≡ raw_entry.file_size
    pub place : info.header_offset ≡ raw_entry.local_header_offset

  -- As many members as entries, in the same order, each matched
  abbrev pub AreMatched : List ZipInfo → List RawZipEntry → Type 0
  AreMatched [] [] = Unit
  AreMatched (info ∷ infos) (raw_entry ∷ raw_entries) =
      IsMatched info raw_entry × AreMatched infos raw_entries
  AreMatched _ _ = ⊥

  text_same : (xs ys : Text) → not (eq_text xs ys) ≡ false → xs ≡ ys
  text_same xs ys h = eq_text→eq xs ys (ground arith)

  disagrees-IsMatched :
      (info : ZipInfo) (raw_entry : RawZipEntry) (decoded_name : Text)
      → decode_name codecs raw_entry.flags raw_entry.raw_name ≡ done decoded_name
      → disagrees info raw_entry decoded_name ≡ false
      → not (eq_text info.orig_filename info.filename) ≡ false
      → IsMatched info raw_entry
  unfolding disagrees
  disagrees-IsMatched info raw_entry decoded_name decoded agree plain =
      let (to_system, _) = or-false _ (info.external_attr != raw_entry.external_attr) agree in
      let (to_place, _) =
        or-false _ (info.create_system != raw_entry.version_made_by / 2 ^ 8) to_system in
      let (to_size, place) =
        or-false _ (info.header_offset != raw_entry.local_header_offset) to_place in
      let (to_stored, expanded) = or-false _ (info.file_size != raw_entry.file_size) to_size in
      let (to_crc, stored) =
        or-false _ (info.compress_size != raw_entry.compressed_size) to_stored in
      let (to_method, checksum) = or-false _ (raw_entry.crc32 != info.crc) to_crc in
      let (to_flags, method) =
        or-false _ (info.compress_type != raw_entry.compression_method) to_method in
      let (named, _) = or-false _ (info.flag_bits != raw_entry.flags) to_flags in
      record {
        name =
            decoded
            ∙ ap (λ (t : Text). done t)
                (sym (text_same info.orig_filename decoded_name named)
                  ∙ text_same info.orig_filename info.filename plain);
        method = !=-false _ _ method;
        checksum = sym (!=-false _ _ checksum);
        stored = !=-false _ _ stored;
        expanded = !=-false _ _ expanded;
        place = !=-false _ _ place;
      }

  check_member-IsMatched :
      (info : ZipInfo) (raw_entry : RawZipEntry) (shape : Shape)
      → Ensures
          (λ result. IsMatched info raw_entry)
          (check_member codecs unicode info raw_entry shape)
  unfolding check_member
  check_member-IsMatched info raw_entry shape =
      Ensures-bind (decode_name codecs raw_entry.flags raw_entry.raw_name) _ λ decoded_name decoded.
        Ensures-raise_if (disagrees info raw_entry decoded_name) _ _ λ agree.
          Ensures-bind (validate_member_name info.orig_filename) _ λ _ _.
            Ensures-raise_if (not (eq_text info.orig_filename info.filename)) _ _ λ plain. record {
              at = λ result h. disagrees-IsMatched info raw_entry decoded_name decoded agree plain;
            }

  check_members-AreMatched :
      (infos : List ZipInfo) (raw_entries : List RawZipEntry) (shape : Shape)
      → length infos ≡ length raw_entries
      → Ensures
          (λ result. AreMatched infos raw_entries)
          (check_members codecs unicode infos raw_entries shape)
  unfolding check_members
  check_members-AreMatched [] [] shape h = Ensures-done shape tt
  check_members-AreMatched [] (e ∷ es) shape h = absurd (omega arith)
  check_members-AreMatched (info ∷ infos) [] shape h = absurd (omega arith)
  check_members-AreMatched (info ∷ infos) (raw_entry ∷ raw_entries) shape h =
      Ensures-bind (check_member codecs unicode info raw_entry shape) _ λ next first. record {
        at = λ result further. (
          (check_member-IsMatched info raw_entry shape).at next first,
          (check_members-AreMatched infos raw_entries next (omega arith)).at result further,
        );
      }

  pub check_archive_shape-AreMatched :
      (infos : List ZipInfo) (raw_entries : List RawZipEntry)
      → Ensures
          (λ shape. AreMatched infos raw_entries)
          (check_archive_shape codecs unicode infos raw_entries)
  unfolding check_archive_shape
  check_archive_shape-AreMatched infos raw_entries = Ensures-raise_if _ _ _ λ _.
      Ensures-raise_if (length infos != length raw_entries) _ _ λ same.
        Ensures-bind (check_members codecs unicode infos raw_entries (no_members codecs unicode)) _
          λ shape checked.
            let matched =
              (check_members-AreMatched infos raw_entries (no_members codecs unicode)
                  (!=-false _ _ same)).at
                shape checked in
            record { at = λ result h. matched }
