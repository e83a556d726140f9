-- ===== src/Ipa/Entry/Bounds.antt =====
-- Where the data of a member of src/ios_rehydrate/ipa.py lies, once its records have been accepted.
use ios_rehydrate.Prelude.{ℕ, ◌+◌, ◌-◌, ◌≤◌, ◌≡◌, refl, ◌||◌, arith, ltb, ltb-false}
use ios_rehydrate.Prelude.Bytes.{Bytes}
use ios_rehydrate.Errors.{Ensures, Ensures-done, Ensures-raise_if, Ensures-bind}
use ios_rehydrate.Ipa.Struct.{unpack_from, u16}
use ios_rehydrate.Ipa.Extra.{resolve_central_zip64, resolve_local_zip64}
use ios_rehydrate.Ipa.Entry.{
  RawZipEntry, CentralView, DataRange, parse_local_rest, parse_local_entry, Codecs, decode_name,
  parse_central_entry,
}

-- The data lies behind a local header and before the directory.
pub record IsPlaced (directory_offset local_header_offset compressed_size : ℕ) (range : DataRange)
    : Type 0 where
  pub behind_header : local_header_offset + 30 ≤ range.data_offset
  pub data_end_lem : range.data_end ≡ range.data_offset + compressed_size
  pub before_directory : range.data_end ≤ directory_offset

parse_local_rest-IsPlaced :
    (archive : Bytes) (directory_offset : ℕ) (central : CentralView) (header : Bytes)
    → central.sizes.local_header_offset + 30 ≤ directory_offset
    → Ensures
        (IsPlaced directory_offset central.sizes.local_header_offset central.sizes.compressed_size)
        (parse_local_rest archive directory_offset central header)
unfolding parse_local_rest
parse_local_rest-IsPlaced archive directory_offset central header h =
    Ensures-raise_if (ltb (directory_offset - variable_offset) (u16 header 26 + u16 header 28)) _ _
      λ room. Ensures-raise_if _ _ _ λ _. Ensures-bind (resolve_local_zip64 _ _ _ _) _ λ sizes _.
        Ensures-raise_if _ _ _ λ _.
          Ensures-raise_if (ltb (directory_offset - data_offset) central.sizes.compressed_size) _ _
            λ fits. Ensures-done _ (record {
              behind_header = omega arith;
              data_end_lem = refl;
              before_directory = omega (arith, ltb-false _ _ room, ltb-false _ _ fits);
            })
  where
    variable_offset : ℕ
    variable_offset = central.sizes.local_header_offset + 30

    data_offset : ℕ
    data_offset = variable_offset + u16 header 26 + u16 header 28

parse_local_entry-IsPlaced :
    (archive : Bytes) (directory_offset : ℕ) (central : CentralView)
    → Ensures
        (IsPlaced directory_offset central.sizes.local_header_offset central.sizes.compressed_size)
        (parse_local_entry archive directory_offset central)
unfolding parse_local_entry
parse_local_entry-IsPlaced archive directory_offset central =
    let offset = central.sizes.local_header_offset in
    Ensures-raise_if (ltb directory_offset offset || ltb (directory_offset - offset) 30) _ _
      λ inside. Ensures-bind (unpack_from 30 archive offset) _ λ header _.
        Ensures-raise_if _ _ _ λ _. Ensures-bind _ _ λ _ _. Ensures-bind _ _ λ _ _.
          Ensures-raise_if _ _ _
            λ _. parse_local_rest-IsPlaced archive directory_offset central header (ground arith)

-- An accepted entry and the size of its central record.
pub record IsAccepted (directory_offset directory_end cursor : ℕ) (result : RawZipEntry × ℕ)
    : Type 0 where
  pub behind_header : result.0.local_header_offset + 30 ≤ result.0.data_offset
  pub data_end_lem : result.0.data_end ≡ result.0.data_offset + result.0.compressed_size
  pub before_directory : result.0.data_end ≤ directory_offset
  pub record_size_pos : 46 ≤ result.1
  pub record_fits : cursor + result.1 ≤ directory_end

pub parse_central_entry-IsAccepted :
    (codecs : Codecs) (archive : Bytes) (directory_offset directory_end cursor : ℕ)
    → Ensures
        (IsAccepted directory_offset directory_end cursor)
        (parse_central_entry codecs archive directory_offset directory_end cursor)
unfolding parse_central_entry
parse_central_entry-IsAccepted codecs archive directory_offset directory_end cursor =
    Ensures-raise_if (ltb (directory_end - cursor) 46) _ _ λ room.
      Ensures-bind (unpack_from 46 archive cursor) _ λ header _. Ensures-raise_if _ _ _ λ _.
        Ensures-bind _ _ λ _ _. Ensures-bind _ _ λ _ _.
          Ensures-raise_if
            (ltb (directory_end - cursor) (46 + u16 header 28 + u16 header 30 + u16 header 32)) _ _
            λ fits. Ensures-bind (resolve_central_zip64 _ _ _) _ λ sizes _.
              Ensures-raise_if _ _ _ λ _. Ensures-bind (decode_name codecs _ _) _ λ name _.
                Ensures-bind _ _ λ _ _.
                  Ensures-bind (parse_local_entry archive directory_offset _) _ λ range placed.
                    let p =
                      (parse_local_entry-IsPlaced archive directory_offset _).at range placed in
                    Ensures-done _ (record {
                      behind_header = p.behind_header;
                      data_end_lem = p.data_end_lem;
                      before_directory = p.before_directory;
                      record_size_pos = omega arith;
                      record_fits = omega (arith, ltb-false _ _ room, ltb-false _ _ fits);
                    })
