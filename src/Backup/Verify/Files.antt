-- ===== src/Backup/Verify/Files.antt =====
-- The files that `validate_backup` of src/ios_rehydrate/backup.py has read, and how.
use native.Mathlib.Numerals.{add-one}
use ios_rehydrate.Prelude.{
  ℕ, zero, suc, ◌+◌, ◌≤◌, ◌<◌, ◌≡◌, refl, sym, ap, ◌∙◌, Bool, true, false, not, ◌||◌, Option, none,
  some, List, [], ◌∷◌, length, take, is_nil, ltb, ◌==◌, arith, ltb-false,
}
use ios_rehydrate.Prelude.Bytes.{Bytes, Text}
use ios_rehydrate.Prelude.Values.{dict, Fields}
use ios_rehydrate.Errors.{
  Exception, Result, done, raise, Ensures, Ensures-done, Ensures-bind, Ensures-raise_if,
}
use ios_rehydrate.Backup.{Metadata, is_reparse, or_os_error}
use ios_rehydrate.Backup.Payload.Exact.{or_os_error_done}
use ios_rehydrate.Backup.Verify.{
  max_info_plist_bytes, max_manifest_plist_bytes, max_status_plist_bytes, max_manifest_db_bytes,
  File, regular_file_metadata, required, sized, read_opened, read_bounded_metadata, read_plist_file,
  Parsed, parsed, load_plist, Answers, Plists, read_plists,
}

pub not-false : (b : Bool) → not b ≡ false → b ≡ true
not-false b h = ground arith

-- A file that is there by its path: regular, no link, not empty, not larger than its limit
pub record IsSized (limit : ℕ) (lstat : Result Metadata) : Type 0 where
  pub metadata : Metadata
  pub found : lstat ≡ done metadata
  pub regular : metadata.regular ≡ true
  pub no_link : is_reparse metadata ≡ false
  pub not_empty : 0 < metadata.size
  pub bounded : metadata.size ≤ limit

regular_file_metadata_lem :
    (lstat : Result Metadata) (m : Metadata)
    → regular_file_metadata lstat ≡ done (some m)
    → (lstat ≡ done m) × (m.regular ≡ true) × (is_reparse m ≡ false)
unfolding regular_file_metadata
regular_file_metadata_lem (raise e) m h = ground arith
regular_file_metadata_lem (done metadata) m h = ground arith

required_lem : (o : Option Metadata) (m : Metadata) → required o ≡ done m → o ≡ some m
required_lem none m h = cc
required_lem (some a) m h = ground arith

sized-IsSized :
    (over : Exception) (limit : ℕ) (lstat : Result Metadata)
    → Ensures (λ n. IsSized limit lstat) (sized over limit lstat)
unfolding sized
sized-IsSized over limit lstat = Ensures-bind (regular_file_metadata lstat) _ λ found looked.
    Ensures-bind (required found) _ λ m there. Ensures-raise_if (m.size == 0) _ _ λ filled.
      Ensures-raise_if (ltb limit m.size) _ _ λ small.
        let (stat, regular, no_link) =
          regular_file_metadata_lem lstat m
            (looked ∙ ap (λ (o : Option Metadata). done o) (required_lem found m there)) in
        Ensures-done m.size (record {
          metadata = m;
          found = stat;
          regular = regular;
          no_link = no_link;
          not_empty = ground arith;
          bounded = ltb-false limit m.size small;
        })

-- The bytes of a file, whole, at least one and within the limit
pub record IsReadWhole (limit : ℕ) (file : File) (bytes : Bytes) : Type 0 where
  pub named : IsSized limit file.lstat
  pub given : file.content ≡ done bytes
  pub filled : 0 < length bytes
  pub limited : length bytes ≤ limit

take_short :
    {A : Type 0} (n : ℕ) (xs : List A) → length (take (suc n) xs) ≤ n → take (suc n) xs ≡ xs
take_short n [] h = refl
take_short zero (x ∷ xs) h = ground arith
take_short (suc n) (x ∷ xs) h = ap (λ (r : List _). x ∷ r) (take_short n xs (omega arith))

take_plus_one :
    {A : Type 0} (n : ℕ) (xs : List A) → length (take (n + 1) xs) ≤ n → take (n + 1) xs ≡ xs
take_plus_one n xs = rw add-one (take_short n xs)

read_opened_lem :
    (limit : ℕ) (file : File)
    → Ensures
        (λ bytes.
          (content : Bytes) × (file.content ≡ done content) × (bytes ≡ take (limit + 1) content))
        (read_opened limit file)
unfolding read_opened
read_opened_lem limit file = Ensures-bind file.opening _ λ u opening.
    Ensures-bind file.fstat _ λ opened held.
      Ensures-raise_if (not opened.regular || is_reparse opened || opened.size == 0) _ _ λ kind.
        Ensures-raise_if (ltb limit opened.size) _ _ λ small.
          Ensures-bind file.content _
            λ content given. Ensures-done (take (limit + 1) content) (content, given, refl)

read_whole :
    (limit : ℕ) (content bytes : Bytes)
    → bytes ≡ take (limit + 1) content
    → length bytes ≤ limit
    → bytes ≡ content
read_whole limit content bytes h small =
    h ∙ take_plus_one limit content (omega (arith, ap length h))

not_empty_length : (bytes : Bytes) → is_nil bytes ≡ false → 0 < length bytes
not_empty_length [] h = cc
not_empty_length (b ∷ bs) h = omega arith

read_plist_file-IsReadWhole :
    (limit : ℕ) (file : File) → Ensures (IsReadWhole limit file) (read_plist_file limit file)
unfolding read_plist_file read_bounded_metadata
read_plist_file-IsReadWhole limit file = Ensures-bind (sized _ limit file.lstat) _ λ n measured.
    Ensures-bind (or_os_error _ (read_opened limit file)) _ λ bytes read.
      Ensures-raise_if (is_nil bytes) _ _ λ filled.
        Ensures-raise_if (ltb limit (length bytes)) _ _ λ small.
          let (content, given, is) =
            Ensures.at (read_opened_lem limit file) bytes
              (or_os_error_done _ (read_opened limit file) bytes read) in
          let limited = ltb-false limit (length bytes) small in
          Ensures-done bytes (record {
            named = Ensures.at (sized-IsSized _ limit file.lstat) n measured;
            given =
                given
                ∙ ap (λ (b : Bytes). done b) (sym (read_whole limit content bytes is limited));
            filled = not_empty_length bytes filled;
            limited = limited;
          })

load_plist_lem :
    (p : Parsed) (fields : Fields) → load_plist p ≡ done fields → p ≡ parsed (dict fields)
load_plist_lem p fields h = ground arith

-- A property list that a file holds
pub record IsPlist (loads : Bytes → Parsed) (limit : ℕ) (file : File) (fields : Fields)
    : Type 0 where
  pub bytes : Bytes
  pub read : IsReadWhole limit file bytes
  pub decoded : loads bytes ≡ parsed (dict fields)

module _ (loads : Bytes → Parsed) (answers : Answers) where
  pub record ArePlists (plists : Plists) : Type 0 where
    pub info : IsPlist loads max_info_plist_bytes answers.info plists.info
    pub manifest : IsPlist loads max_manifest_plist_bytes answers.manifest plists.manifest
    pub status : IsPlist loads max_status_plist_bytes answers.status plists.status
    pub database : IsSized max_manifest_db_bytes answers.database

  plist_of :
      (limit : ℕ) (file : File) (bytes : Bytes) (fields : Fields)
      → read_plist_file limit file ≡ done bytes
      → load_plist (loads bytes) ≡ done fields
      → IsPlist loads limit file fields
  plist_of limit file bytes fields read decoded = record {
    bytes = bytes;
    read = Ensures.at (read_plist_file-IsReadWhole limit file) bytes read;
    decoded = load_plist_lem (loads bytes) fields decoded;
  }

module _ (loads : Bytes → Parsed) (casefold : Text → Text) (sha256 : Text → Text)
    (answers : Answers) where
  pub read_plists-ArePlists :
      Ensures (ArePlists loads answers) (read_plists loads casefold sha256 answers)
  unfolding read_plists
  read_plists-ArePlists = Ensures-bind (read_plist_file _ answers.info) _ λ info_bytes info_read.
      Ensures-bind (read_plist_file _ answers.manifest) _ λ manifest_bytes manifest_read.
        Ensures-bind (read_plist_file _ answers.status) _ λ status_bytes status_read.
          Ensures-bind (sized _ _ answers.database) _ λ n measured.
            Ensures-bind (load_plist (loads info_bytes)) _ λ info info_loaded.
              Ensures-bind (load_plist (loads manifest_bytes)) _ λ manifest manifest_loaded.
                Ensures-bind (load_plist (loads status_bytes)) _ λ status status_loaded.
                  Ensures-done _ (record {
                    info =
                        plist_of loads answers _ answers.info info_bytes info info_read info_loaded;
                    manifest =
                        plist_of loads answers _ answers.manifest manifest_bytes manifest
                          manifest_read manifest_loaded;
                    status =
                        plist_of loads answers _ answers.status status_bytes status status_read
                          status_loaded;
                    database = Ensures.at (sized-IsSized _ _ answers.database) n measured;
                  })
