-- ===== src/Ipa/Preflight/Safety.antt =====
-- The preflight of src/ios_rehydrate/ipa.py on any bytes: it ends, and it fails in one way.
use ios_rehydrate.Prelude.{
  ℕ, zero, suc, ◌+◌, ◌-◌, ◌≤◌, ◌<◌, ◌≡◌, refl, ◌||◌, arith, length, ltb, ltb→lt, ltb-false, ◌!=◌,
}
use ios_rehydrate.Prelude.Bytes.{Bytes}
use ios_rehydrate.Errors.{
  done, Ensures, Ensures-done, Ensures-if, Ensures-raise_if, Ensures-bind, raise_if-done,
  raise_if-passes,
}
use ios_rehydrate.Ipa.Struct.{unpack_from, u64, max_zip_entries, max_central_directory_bytes}
use ios_rehydrate.Ipa.Refusal.{
  Refuses, Refuses-done, Refuses-bind, Refuses-then, Refuses-raise_if, Refuses-if, Refuses-test,
  unpack_from-Refuses,
}
use ios_rehydrate.Ipa.Directory.{DirectoryRecord, find_eocd, read_zip64_directory}
use ios_rehydrate.Ipa.Directory.Eocd.{find_eocd-IsSelected}
use ios_rehydrate.Ipa.Directory.Safety.{find_eocd-Refuses, read_zip64_directory-Refuses}
use ios_rehydrate.Ipa.Entry.{Codecs, parse_central_entry}
use ios_rehydrate.Ipa.Entry.Safety.{IsCodec, parse_central_entry-Refuses}
use ios_rehydrate.Ipa.Entry.Bounds.{parse_central_entry-IsAccepted}
use ios_rehydrate.Ipa.Ranges.Disjoint.{validate_local_ranges-Refuses}
use ios_rehydrate.Ipa.Ranges.Sizes.{validate_declared_sizes-Refuses}
use ios_rehydrate.Ipa.Inflate.{Zlib}
use ios_rehydrate.Ipa.Inflate.Safety.{TailShrinks, validate_raw_payloads-Refuses}
use ios_rehydrate.Ipa.Preflight.{
  central_from, validate_central_directory, needs_zip64, wide_directory, plain_directory,
  locate_directory, bound_directory, preflight_zip,
}

-- What the bounds on a directory mean.
pub record IsBoundedDirectory (place : DirectoryRecord) : Type 0 where
  pub entries_bound : place.total_entries ≤ max_zip_entries
  pub size_bound : place.directory_size ≤ max_central_directory_bytes
  pub end_lem : place.directory_offset + place.directory_size ≡ place.directory_end

pub bound_directory-IsBounded :
    (place : DirectoryRecord) → bound_directory place ≡ done tt → IsBoundedDirectory place
unfolding bound_directory
bound_directory-IsBounded place h =
    let (few, further) = raise_if-done (ltb max_zip_entries place.total_entries) _ _ h in
    let (small, last) =
      raise_if-done (ltb max_central_directory_bytes place.directory_size) _ _ further in
    let fits = raise_if-passes _ _ last in
    record {
      entries_bound = ltb-false _ _ few;
      size_bound = ltb-false _ _ small;
      end_lem = ground arith;
    }

-- The ZIP64 record, like the plain one, ends the directory before the end record.
read_zip64_directory-end :
    (archive : Bytes) (eocd_offset : ℕ)
    → Ensures
        (λ place. place.directory_end ≤ eocd_offset)
        (read_zip64_directory archive eocd_offset)
unfolding read_zip64_directory
read_zip64_directory-end archive eocd_offset = Ensures-raise_if _ _ _ λ _.
    Ensures-bind (unpack_from 20 archive (eocd_offset - 20)) _ λ locator _.
      Ensures-raise_if _ _ _ λ _. Ensures-raise_if _ _ _ λ _.
        Ensures-raise_if (ltb (eocd_offset - 20) 56 || u64 locator 8 != eocd_offset - 20 - 56) _ _
          λ adjacent. Ensures-raise_if _ _ _ λ _.
            Ensures-bind (unpack_from 8 archive (u64 locator 8 + 4)) _ λ payload_size _.
              Ensures-raise_if _ _ _ λ _.
                Ensures-bind (unpack_from 44 archive (u64 locator 8 + 12)) _ λ fields _.
                  Ensures-raise_if _ _ _ λ _. Ensures-raise_if _ _ _ λ _.
                    let bound : u64 locator 8 ≤ eocd_offset = ground (arith, adjacent) in
                    Ensures-done _ bound

wide_directory-end :
    (archive : Bytes) (eocd_offset : ℕ) (eocd : Bytes)
    → Ensures (λ place. place.directory_end ≤ eocd_offset) (wide_directory archive eocd_offset eocd)
unfolding wide_directory
wide_directory-end archive eocd_offset eocd =
    Ensures-bind (read_zip64_directory archive eocd_offset) _ λ wide found.
      Ensures-raise_if _ _ _
        λ _. Ensures-done wide ((read_zip64_directory-end archive eocd_offset).at wide found)

plain_directory-end :
    (eocd_offset : ℕ) (eocd : Bytes)
    → Ensures (λ place. place.directory_end ≤ eocd_offset) (plain_directory eocd_offset eocd)
unfolding plain_directory
plain_directory-end eocd_offset eocd =
    let bound : eocd_offset ≤ eocd_offset = omega arith in
    Ensures-raise_if _ _ _ λ _. Ensures-raise_if _ _ _ λ _. Ensures-done _ bound

pub locate_directory-end :
    (archive : Bytes) (eocd_offset : ℕ) (eocd : Bytes)
    → Ensures
        (λ place. place.directory_end ≤ eocd_offset)
        (locate_directory archive eocd_offset eocd)
locate_directory-end archive eocd_offset eocd =
    Ensures-if (needs_zip64 eocd) (wide_directory archive eocd_offset eocd)
      (plain_directory eocd_offset eocd) (λ _. wide_directory-end archive eocd_offset eocd)
      (λ _. plain_directory-end eocd_offset eocd)

wide_directory-Refuses :
    (archive : Bytes) (eocd_offset : ℕ) (eocd : Bytes)
    → eocd_offset ≤ length archive
    → Refuses (wide_directory archive eocd_offset eocd)
unfolding wide_directory
wide_directory-Refuses archive eocd_offset eocd h =
    Refuses-bind (read_zip64_directory archive eocd_offset) _
      (read_zip64_directory-Refuses archive eocd_offset h)
      λ wide _. Refuses-raise_if _ _ _ refl λ _. Refuses-done wide

plain_directory-Refuses :
    (eocd_offset : ℕ) (eocd : Bytes) → Refuses (plain_directory eocd_offset eocd)
unfolding plain_directory
plain_directory-Refuses eocd_offset eocd =
    Refuses-raise_if _ _ _ refl λ _. Refuses-raise_if _ _ _ refl λ _. Refuses-done _

locate_directory-Refuses :
    (archive : Bytes) (eocd_offset : ℕ) (eocd : Bytes)
    → eocd_offset ≤ length archive
    → Refuses (locate_directory archive eocd_offset eocd)
locate_directory-Refuses archive eocd_offset eocd h =
    Refuses-if (needs_zip64 eocd) (wide_directory archive eocd_offset eocd)
      (plain_directory eocd_offset eocd) (λ _. wide_directory-Refuses archive eocd_offset eocd h)
      (λ _. plain_directory-Refuses eocd_offset eocd)

bound_directory-Refuses : (place : DirectoryRecord) → Refuses (bound_directory place)
unfolding bound_directory
bound_directory-Refuses place =
    Refuses-raise_if _ _ _ refl λ _. Refuses-raise_if _ _ _ refl λ _. Refuses-test _ _ refl

module _ (codecs : Codecs) (proper : IsCodec codecs) (archive : Bytes) where
  -- The loop over the directory ends: a round moves the cursor.
  central_from-Refuses :
      (directory_offset directory_end fuel count cursor : ℕ)
      → directory_offset ≤ length archive
      → directory_end ≤ length archive
      → directory_end - cursor < fuel
      → Refuses (central_from codecs archive directory_offset directory_end fuel count cursor)
  unfolding central_from
  central_from-Refuses directory_offset directory_end zero count cursor ho he h =
      absurd (omega arith)
  central_from-Refuses directory_offset directory_end (suc fuel) count cursor ho he h =
      Refuses-if (ltb cursor directory_end) _ _
        (λ inside. Refuses-raise_if _ _ _ refl λ _.
          Refuses-bind (parse_central_entry codecs archive directory_offset directory_end cursor) _
            (parse_central_entry-Refuses codecs proper archive directory_offset directory_end cursor
              ho he (ltb→lt _ _ inside))
            λ r hr.
              let accepted =
                (parse_central_entry-IsAccepted codecs archive directory_offset directory_end
                    cursor).at
                  r hr in
              Refuses-bind
                (central_from codecs archive directory_offset directory_end fuel (count + 1)
                  (cursor + r.1))
                _
                (central_from-Refuses directory_offset directory_end fuel (count + 1) (cursor + r.1)
                  ho he (omega (arith, ltb→lt _ _ inside, accepted.record_size_pos)))
                λ _ _. Refuses-done _)
        (λ _. Refuses-done _)

  module _ (zlib : Zlib) (shrinks : TailShrinks zlib) where
    validate_central_directory-Refuses :
        (directory_offset directory_size expected_entries : ℕ)
        → directory_offset + directory_size ≤ length archive
        → Refuses (
            validate_central_directory codecs zlib archive directory_offset directory_size
              expected_entries)
    unfolding validate_central_directory
    validate_central_directory-Refuses directory_offset directory_size expected_entries h =
        Refuses-raise_if _ _ _ refl λ _.
          Refuses-bind
            (central_from codecs archive directory_offset (directory_offset + directory_size)
              (directory_size + 1) 0 directory_offset)
            _
            (central_from-Refuses directory_offset (directory_offset + directory_size)
              (directory_size + 1) 0 directory_offset (omega arith) (omega arith) (omega arith))
            λ r _. Refuses-raise_if _ _ _ refl λ _.
              Refuses-then _ _ (validate_local_ranges-Refuses archive r.0 directory_offset) (
                Refuses-then _ _ (validate_declared_sizes-Refuses r.0) (
                  Refuses-then _ _ (validate_raw_payloads-Refuses zlib shrinks archive r.0)
                    (Refuses-done r.0)))

    -- If the codecs raise only decoding errors and the unconsumed tail of zlib is no longer than its
    -- input, preflight_zip on any bytes returns entries or raises an error of the status
    -- IPA_INVALID: no read is out of bounds, no assertion fails and no loop exceeds its fuel.
    pub preflight_zip-Refuses : Refuses (preflight_zip codecs zlib archive)
    unfolding preflight_zip
    preflight_zip-Refuses =
        Refuses-bind (find_eocd archive) _ (find_eocd-Refuses archive) λ eocd_offset found.
          let fits = (find_eocd-IsSelected archive eocd_offset found).end_record.fits in
          Refuses-bind (unpack_from 22 archive eocd_offset) _
            (unpack_from-Refuses 22 archive eocd_offset fits)
            λ eocd _.
              Refuses-bind (locate_directory archive eocd_offset eocd) _
                (locate_directory-Refuses archive eocd_offset eocd (omega (arith, fits)))
                λ place located.
                  Refuses-bind (bound_directory place) _ (bound_directory-Refuses place)
                    λ u bounded.
                      validate_central_directory-Refuses place.directory_offset place.directory_size
                        place.total_entries
                        (omega (
                          arith,
                          fits,
                          (locate_directory-end archive eocd_offset eocd).at place located,
                          (bound_directory-IsBounded place bounded).end_lem,
                        ))
