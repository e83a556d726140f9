-- ===== src/Ipa/Preflight/Layout.antt =====
-- What an archive that the preflight of src/ios_rehydrate/ipa.py accepts looks like.
use ios_rehydrate.Prelude.{
  ℕ, zero, suc, ◌+◌, ◌*◌, ◌≤◌, ◌≡◌, refl, ◌∙◌, false, ◌||◌, List, [], ◌∷◌, arith, length, ltb, ◌!=◌,
  !=-false, or-false, All,
}
use ios_rehydrate.Prelude.Bytes.{Bytes}
use ios_rehydrate.Errors.{
  done, Ensures, Ensures-done, Ensures-raise, Ensures-if, Ensures-raise_if, Ensures-bind,
}
use ios_rehydrate.Ipa.Struct.{unpack_from, u16, u32, max_zip_entries}
use ios_rehydrate.Ipa.Directory.{DirectoryRecord, find_eocd}
use ios_rehydrate.Ipa.Directory.Eocd.{IsSelected, find_eocd-IsSelected}
use ios_rehydrate.Ipa.Entry.{RawZipEntry, Codecs, parse_central_entry}
use ios_rehydrate.Ipa.Entry.Bounds.{parse_central_entry-IsAccepted}
use ios_rehydrate.Ipa.Ranges.{validate_local_ranges, validate_declared_sizes, declared}
use ios_rehydrate.Ipa.Ranges.Disjoint.{AllApart, IsForward, validate_local_ranges-AllApart}
use ios_rehydrate.Ipa.Ranges.Sizes.{IsWithinLimits, validate_declared_sizes_iff}
use ios_rehydrate.Ipa.Inflate.{Zlib, validate_raw_payloads}
use ios_rehydrate.Ipa.Preflight.{
  central_from, needs_zip64, plain_directory, validate_central_directory, locate_directory,
  bound_directory, preflight_zip,
}
use ios_rehydrate.Ipa.Preflight.Safety.{locate_directory-end, bound_directory-IsBounded}

-- The local header, the data behind it, and the directory behind them
pub record IsMember (directory_offset : ℕ) (e : RawZipEntry) : Type 0 where
  pub behind_header : e.local_header_offset + 30 ≤ e.data_offset
  pub data_end_lem : e.data_end ≡ e.data_offset + e.compressed_size
  pub before_directory : e.data_end ≤ directory_offset

All-IsForward :
    (directory_offset : ℕ) (entries : List RawZipEntry)
    → All (IsMember directory_offset) entries
    → All IsForward entries
All-IsForward directory_offset [] h = tt
All-IsForward directory_offset (e ∷ entries) (m, h) =
    (omega (arith, m.behind_header, m.data_end_lem), All-IsForward directory_offset entries h)

-- What the loop over the directory returns: members, and a cursor that each has moved by its record.
record IsRead (directory_offset cursor : ℕ) (result : List RawZipEntry × ℕ) : Type 0 where
  members : All (IsMember directory_offset) result.0
  moved : cursor + 46 * length result.0 ≤ result.1

module _ (codecs : Codecs) (archive : Bytes) (directory_offset directory_end : ℕ) where
  central_from-IsRead :
      (fuel count cursor : ℕ)
      → Ensures
          (IsRead directory_offset cursor)
          (central_from codecs archive directory_offset directory_end fuel count cursor)
  unfolding central_from
  central_from-IsRead zero count cursor = Ensures-raise _
  central_from-IsRead (suc fuel) count cursor =
      Ensures-if (ltb cursor directory_end) _ _
        (λ inside. Ensures-raise_if _ _ _ λ _.
          Ensures-bind (parse_central_entry codecs archive directory_offset directory_end cursor) _
            λ r hr.
              let accepted =
                (parse_central_entry-IsAccepted codecs archive directory_offset directory_end
                    cursor).at
                  r hr in
              Ensures-bind
                (central_from codecs archive directory_offset directory_end fuel (count + 1)
                  (cursor + r.1))
                _
                λ s hs.
                  let further = (central_from-IsRead fuel (count + 1) (cursor + r.1)).at s hs in
                  Ensures-done _ (record {
                    members = (
                      record {
                        behind_header = accepted.behind_header;
                        data_end_lem = accepted.data_end_lem;
                        before_directory = accepted.before_directory;
                      },
                      further.members,
                    );
                    moved = omega (arith, accepted.record_size_pos, further.moved);
                  }))
        (λ _. Ensures-done _ (record { members = tt; moved = omega arith }))

-- What the fields of an end record without sentinels say of the directory: it ends at that record.
pub record IsStated (eocd : Bytes) (eocd_offset directory_offset directory_size count : ℕ)
    : Type 0 where
  pub offset_lem : directory_offset ≡ u32 eocd 16
  pub size_lem : directory_size ≡ u32 eocd 12
  pub count_lem : count ≡ u16 eocd 10
  pub end_lem : directory_offset + directory_size ≡ eocd_offset

plain_directory-states :
    (eocd_offset : ℕ) (eocd : Bytes)
    → Ensures
        (λ place.
          (place.directory_offset ≡ u32 eocd 16)
          × (place.directory_size ≡ u32 eocd 12)
          × (place.total_entries ≡ u16 eocd 10)
          × (place.directory_end ≡ eocd_offset))
        (plain_directory eocd_offset eocd)
unfolding plain_directory
plain_directory-states eocd_offset eocd =
    Ensures-raise_if _ _ _ λ _. Ensures-raise_if _ _ _ λ _. Ensures-done _ (refl, refl, refl, refl)

located_plain :
    (archive : Bytes) (eocd_offset : ℕ) (eocd : Bytes) (place : DirectoryRecord)
    → needs_zip64 eocd ≡ false
    → locate_directory archive eocd_offset eocd ≡ done place
    → plain_directory eocd_offset eocd ≡ done place
located_plain archive eocd_offset eocd place plain located = rw plain at located

-- The end record of an accepted archive, the directory before it, its members and their sizes
pub record IsLaidOut (archive : Bytes) (entries : List RawZipEntry) : Type 0 where
  pub eocd_offset : ℕ
  pub end_record : IsSelected archive eocd_offset
  pub directory_offset : ℕ
  pub directory_size : ℕ
  pub room : 46 * length entries ≤ directory_size
  pub inside : directory_offset + directory_size ≤ eocd_offset
  pub eocd : Bytes
  pub read : unpack_from 22 archive eocd_offset ≡ done eocd
  pub stated :
      needs_zip64 eocd ≡ false
      → IsStated eocd eocd_offset directory_offset directory_size (length entries)
  pub few : length entries ≤ max_zip_entries
  pub members : All (IsMember directory_offset) entries
  pub apart : AllApart entries
  pub modest : IsWithinLimits (declared entries)

-- What the steps behind the loop add, for a directory of this place.
record IsDirectory (directory_offset directory_size expected_entries : ℕ)
    (entries : List RawZipEntry) : Type 0 where
  count : length entries ≡ expected_entries
  room : 46 * length entries ≤ directory_size
  members : All (IsMember directory_offset) entries
  apart : AllApart entries
  modest : IsWithinLimits (declared entries)

module _ (codecs : Codecs) (zlib : Zlib) (archive : Bytes) where
  validate_central_directory-IsDirectory :
      (directory_offset directory_size expected_entries : ℕ)
      → Ensures (IsDirectory directory_offset directory_size expected_entries) (
          validate_central_directory codecs zlib archive directory_offset directory_size
            expected_entries)
  unfolding validate_central_directory
  validate_central_directory-IsDirectory directory_offset directory_size expected_entries =
      Ensures-raise_if (ltb directory_size (expected_entries * 46)) _ _ λ room.
        Ensures-bind
          (central_from codecs archive directory_offset (directory_offset + directory_size)
            (directory_size + 1) 0 directory_offset)
          _
          λ r hr.
            let read =
              (central_from-IsRead codecs archive directory_offset
                  (directory_offset + directory_size) (directory_size + 1) 0 directory_offset).at
                r hr in
            Ensures-raise_if
              (r.1 != directory_offset + directory_size || length r.0 != expected_entries) _ _
              λ same.
                Ensures-bind (validate_local_ranges archive r.0 directory_offset) _ λ _ ranges.
                  Ensures-bind (validate_declared_sizes r.0) _ λ _ sizes.
                    Ensures-bind (validate_raw_payloads zlib archive r.0) _ λ _ _.
                      Ensures-done r.0 (record {
                        count = ground arith;
                        room = omega (
                          arith,
                          read.moved,
                          !=-false _ _
                              (or-false (r.1 != directory_offset + directory_size) _ same).0,
                        );
                        members = read.members;
                        apart =
                            validate_local_ranges-AllApart archive r.0 directory_offset
                              (All-IsForward directory_offset r.0 read.members) ranges;
                        modest = (validate_declared_sizes_iff r.0).0 sizes;
                      })

  -- If preflight_zip accepts an archive, it has an end record that is complete, the only one in the
  -- window that CPython searches and the last signature of its kind; the directory ends at that
  -- record or before it, and has room for the central records of the entries, 46 bytes at least for
  -- each; if no field of the record holds a ZIP64 sentinel, its fields say where the directory
  -- begins, how long it is and how many entries it has, and the directory ends at the record; the
  -- data of every entry lies before the directory, behind its local header and apart from the
  -- records of the others; the entries are at most 50,000 and their declared sizes are within the
  -- limits.
  pub preflight_zip-IsLaidOut :
      (entries : List RawZipEntry)
      → preflight_zip codecs zlib archive ≡ done entries
      → IsLaidOut archive entries
  unfolding preflight_zip
  preflight_zip-IsLaidOut = Ensures.at (
      Ensures-bind (find_eocd archive) _ λ eocd_offset found.
        Ensures-bind (unpack_from 22 archive eocd_offset) _ λ eocd read.
          Ensures-bind (locate_directory archive eocd_offset eocd) _ λ place located.
            Ensures-bind (bound_directory place) _ λ u bounded.
              let ends = (locate_directory-end archive eocd_offset eocd).at place located in
              let bounds = bound_directory-IsBounded place bounded in
              record {
                at = λ entries h.
                    let d =
                      (validate_central_directory-IsDirectory place.directory_offset
                          place.directory_size place.total_entries).at
                        entries h in
                    record {
                      directory_offset = place.directory_offset;
                      eocd_offset = eocd_offset;
                      end_record = find_eocd-IsSelected archive eocd_offset found;
                      directory_size = place.directory_size;
                      room = d.room;
                      inside = omega (arith, ends, bounds.end_lem);
                      eocd = eocd;
                      read = read;
                      stated = λ plain.
                          let (offset, size, total, ended) =
                            (plain_directory-states eocd_offset eocd).at place
                              (located_plain archive eocd_offset eocd place plain located) in
                          record {
                            offset_lem = offset;
                            size_lem = size;
                            count_lem = d.count ∙ total;
                            end_lem = bounds.end_lem ∙ ended;
                          };
                      few = omega (arith, d.count, bounds.entries_bound);
                      members = d.members;
                      apart = d.apart;
                      modest = d.modest;
                    };
              })
