-- ===== src/Backup/Verify.antt =====
-- src/ios_rehydrate/backup.py: `validate_backup`, on the answers of the file system. `plistlib.loads`,
-- `str.casefold` and the digest are arguments.
pub mod Files
pub mod Verified
use ios_rehydrate.Prelude.{
  ℕ, suc, ◌+◌, ◌*◌, ⊤, ◌≡◌, Bool, true, false, not, ◌&&◌, ◌||◌, Option, none, some, List, [], ◌∷◌,
  length, take, is_nil, ltb, ◌==◌, if◌then◌else◌,
}
use ios_rehydrate.Prelude.Bytes.{Bytes, Text, codes, eq_text}
use ios_rehydrate.Prelude.Values.{Value, text, boolean, dict, Fields, get}
use ios_rehydrate.Errors.{
  Exception, ExitCode, os_error, value_error, type_error, overflow_error, error, io, backup_verify,
  Result, done, raise, ◌>>=◌, ◌>>◌, raise_if,
}
use ios_rehydrate.Effects.{is_os_error}
use ios_rehydrate.Privacy.{opaque_ref}
use ios_rehydrate.Device.{device_ref}
use ios_rehydrate.Backup.{
  verify_error, Metadata, is_reparse, Listing, or_os_error, is_single_component, has_safe_chain,
}
use ios_rehydrate.Backup.Payload.{
  max_inspected_directory_entries, DirEntry, Bucket, exact_device_directory, Totals,
  hashed_payload_totals,
}

-- The limits of `_PLIST_LIMITS`, and of Manifest.db
abbrev pub max_info_plist_bytes : ℕ
max_info_plist_bytes = 64 * 1024 * 1024

abbrev pub max_manifest_plist_bytes : ℕ
max_manifest_plist_bytes = 4 * 1024 * 1024

abbrev pub max_status_plist_bytes : ℕ
max_status_plist_bytes = 1024 * 1024

abbrev pub max_manifest_db_bytes : ℕ
max_manifest_db_bytes = 512 * 1024 * 1024

-- A directory by its path: the `os.lstat` of its ancestors and of itself, and its resolved path
pub record Directory : Type 0 where
  pub chain : List (Result Metadata)
  pub resolved : Result Text

-- A metadata file: `os.lstat`, the opening, `os.fstat` and the content
pub record File : Type 0 where
  pub lstat : Result Metadata
  pub opening : Result ⊤
  pub fstat : Result Metadata
  pub content : Result Bytes

-- `_safe_existing_directory`, with the status that it has for its reason
unfoldable pub safe_existing_directory : Exception → Directory → Result Text
safe_existing_directory e directory = do
  safe ← has_safe_chain directory.chain
  raise_if (not safe) e
  or_os_error e directory.resolved

-- `_regular_file_metadata`
unfoldable pub regular_file_metadata : Result Metadata → Result (Option Metadata)
regular_file_metadata (raise e) = if is_os_error e then done none else raise e
regular_file_metadata (done metadata) =
    if not metadata.regular || is_reparse metadata then done none else done (some metadata)

abbrev pub metadata_invalid : Exception
metadata_invalid = verify_error "BACKUP_METADATA_INVALID"

abbrev pub too_large : Exception
too_large = verify_error "BACKUP_METADATA_TOO_LARGE"

abbrev pub metadata_empty : Exception
metadata_empty = verify_error "BACKUP_METADATA_EMPTY"

abbrev pub required : Option Metadata → Result Metadata
required none = raise (verify_error "BACKUP_METADATA_MISSING")
required (some metadata) = done metadata

-- The size of a metadata file that is there, not empty and not larger than its limit
unfoldable pub sized : Exception → ℕ → Result Metadata → Result ℕ
sized over limit lstat = do
  found ← regular_file_metadata lstat
  metadata ← required found
  raise_if (metadata.size == 0) metadata_empty
  raise_if (ltb limit metadata.size) over
  done metadata.size

-- The block of `_read_bounded_metadata`
unfoldable pub read_opened : ℕ → File → Result Bytes
read_opened limit file = do
  file.opening
  opened ← file.fstat
  raise_if (not opened.regular || is_reparse opened || opened.size == 0) metadata_invalid
  raise_if (ltb limit opened.size) too_large
  content ← file.content
  done (take (limit + 1) content)

-- `_read_bounded_metadata`
unfoldable pub read_bounded_metadata : ℕ → File → Result Bytes
read_bounded_metadata limit file = do
  bytes ← or_os_error metadata_invalid (read_opened limit file)
  raise_if (is_nil bytes) metadata_empty
  raise_if (ltb limit (length bytes)) too_large
  done bytes

-- A round of the loop over `_PLIST_LIMITS`
unfoldable pub read_plist_file : ℕ → File → Result Bytes
read_plist_file limit file = do
  size ← sized too_large limit file.lstat
  read_bounded_metadata limit file

-- What `plistlib.loads` makes of bytes: `refused` is one of the exceptions that `_load_plist` names.
pub data Parsed : Type 0 where
  parsed : Value → Parsed
  refused : Parsed
  parse_error : Exception → Parsed

-- `_load_plist`
abbrev pub load_plist : Parsed → Result Fields
load_plist (parsed (dict fields)) = done fields
load_plist (parsed _) = raise metadata_invalid
load_plist refused = raise metadata_invalid
load_plist (parse_error e) = raise e

abbrev pub is_flag : Bool → Option Value → Bool
is_flag true (some (boolean b)) = b
is_flag false (some (boolean b)) = not b
is_flag _ _ = false

abbrev pub is_text_of : Text → Option Value → Bool
is_text_of expected (some (text value)) = eq_text value expected
is_text_of expected _ = false

-- `lockdown.get("UniqueDeviceID") if isinstance(lockdown, dict) else None`
unfoldable pub device_id_of : Option Value → Option Value
device_id_of (some (dict lockdown)) = get (codes "UniqueDeviceID") lockdown
device_id_of _ = none

module _ (casefold : Text → Text) where
  abbrev pub is_identifier : Text → Option Value → Bool
  is_identifier expected (some (text value)) = eq_text (casefold value) (casefold expected)
  is_identifier expected _ = false

  -- `_validate_identifiers`
  unfoldable pub validate_identifiers : Fields → Fields → Text → Result ⊤
  validate_identifiers info manifest expected =
      raise_if
        (not (
          is_identifier expected (get (codes "Target Identifier") info)
          && is_identifier expected (get (codes "Unique Identifier") info)
          && is_identifier expected (device_id_of (get (codes "Lockdown") manifest))))
        (verify_error "BACKUP_IDENTIFIER_MISMATCH")

-- `BackupReport`
pub record BackupReport : Type 0 where
  pub backup_ref : Text
  pub device_ref : Text
  pub payload_count : ℕ
  pub payload_bytes : ℕ
  pub encrypted : Bool
  pub completed : Bool
  pub requested_full : Bool
  pub observed_is_full_backup : Bool
  pub mobilebackup_connection_closed : Option Bool

-- What the calls on a backup return.
pub record Answers : Type 0 where
  pub root : Directory
  pub scan : Result (Listing DirEntry)
  pub info : File
  pub manifest : File
  pub status : File
  pub database : Result Metadata
  pub buckets : Result (Listing Bucket)

-- The tests on Status.plist
unfoldable pub check_status : Fields → Result ⊤
check_status status = do
  raise_if
      (not (
        is_text_of (codes "finished") (get (codes "SnapshotState") status)
        && is_text_of (codes "new") (get (codes "BackupState") status)))
      (verify_error "BACKUP_STATE_INCOMPLETE")
  raise_if (not (is_flag false (get (codes "IsFullBackup") status)))
      (verify_error "BACKUP_STATE_INVALID")

-- The three property lists and the size of the database
pub record Plists : Type 0 where
  pub info : Fields
  pub manifest : Fields
  pub status : Fields

module _ (loads : Bytes → Parsed) (casefold : Text → Text) (sha256 : Text → Text) where
  unfoldable pub read_plists : Answers → Result Plists
  read_plists answers = do
    info_bytes ← read_plist_file max_info_plist_bytes answers.info
    manifest_bytes ← read_plist_file max_manifest_plist_bytes answers.manifest
    status_bytes ← read_plist_file max_status_plist_bytes answers.status
    size ←
        sized (verify_error "BACKUP_MANIFEST_DB_TOO_LARGE") max_manifest_db_bytes answers.database
    info ← load_plist (loads info_bytes)
    manifest ← load_plist (loads manifest_bytes)
    status ← load_plist (loads status_bytes)
    done (record { info = info; manifest = manifest; status = status })

  abbrev pub report_of : Text → Text → Bool → Totals → BackupReport
  report_of root expected requested totals = record {
    backup_ref = opaque_ref sha256 (codes "backup") root;
    device_ref = device_ref sha256 casefold expected;
    payload_count = totals.count;
    payload_bytes = totals.total;
    encrypted = true;
    completed = true;
    requested_full = requested;
    observed_is_full_backup = false;
    mobilebackup_connection_closed = none;
  }

  -- `validate_backup`
  unfoldable pub validate_backup : Answers → Text → Bool → Result BackupReport
  validate_backup answers expected requested = do
    raise_if (not (is_single_component expected)) (verify_error "BACKUP_IDENTIFIER_INVALID")
    root ← safe_existing_directory (verify_error "BACKUP_LAYOUT_INVALID") answers.root
    inspected ← exact_device_directory max_inspected_directory_entries expected answers.scan
    plists ← read_plists answers
    raise_if (not (is_flag true (get (codes "IsEncrypted") plists.manifest)))
        (verify_error "BACKUP_NOT_ENCRYPTED")
    validate_identifiers casefold plists.info plists.manifest expected
    check_status plists.status
    totals ←
        hashed_payload_totals casefold max_inspected_directory_entries answers.buckets inspected
    raise_if (totals.count == 0 || totals.total == 0) (verify_error "BACKUP_PAYLOAD_EMPTY")
    done (report_of root expected requested totals)
