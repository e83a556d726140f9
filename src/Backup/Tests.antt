-- ===== src/Backup/Tests.antt =====
-- A backup with one payload file, a device whose encryption is enabled, and the theorems at them.
use ios_rehydrate.Prelude.{ℕ, ◌≡◌, refl, true, false, some, [], ◌∷◌, ◌⊎◌, arith, ltb, if◌then◌else◌}
use ios_rehydrate.Prelude.Bytes.{Bytes, Text, codes, eq_text}
use ios_rehydrate.Prelude.Texts.{starts_with, ends_with}
use ios_rehydrate.Prelude.Values.{Fields, text, boolean, dict, end, field, get}
use ios_rehydrate.Errors.{os_error, error, io, backup_verify, done, raise, ◌>>=◌, raise_if}
use ios_rehydrate.Effects.{expired, finished}
use ios_rehydrate.Privacy.{opaque_ref}
use ios_rehydrate.Backup.{
  Metadata, is_reparse, is_plain_directory, Listing, stop, entry, consume, is_single_component,
  has_safe_chain,
}
use ios_rehydrate.Backup.Payload.{
  Bucket, exact_from, exact_device_directory, Totals, is_payload, add_payload, add_entry,
  add_entries, add_bucket, add_if_named, add_buckets, hashed_payload_totals,
}
use ios_rehydrate.Backup.Payload.Sums.{IsTotalled, hashed_payload_totals-IsTotalled}
use ios_rehydrate.Backup.Verify.{
  Directory, File, safe_existing_directory, regular_file_metadata, sized, read_opened,
  read_bounded_metadata, read_plist_file, Parsed, parsed, refused, device_id_of,
  validate_identifiers, BackupReport, Answers, check_status, read_plists, report_of,
  validate_backup,
}
use ios_rehydrate.Backup.Verify.Verified.{IsVerified, validate_backup-IsVerified}
use ios_rehydrate.Backup.Service.{
  missing, removed, pair, start, Environment, encryption_status, status_in_time,
  run_mobilebackup_service, reserve_private_scratch, remove_empty_private_scratch,
}
use ios_rehydrate.Backup.Encryption.{
  EnableReport, unknown, agreed_password, reconcile_encryption_enable, reconcile, request,
  requested, confirm_request, confirm, request_and_confirm, enter_password, enable_with, enable,
  enable_encryption,
}
use ios_rehydrate.Backup.Encryption.Requests.{changes, IsGuarded, enable_encryption-IsGuarded}
use ios_rehydrate.Backup.Encryption.Outcome.{IsOrderly, IsTruthful, enable_encryption-IsTruthful}
use ios_rehydrate.Backup.Encryption.Progress.{IsFavourable, enable_encryption-succeeds}
use ios_rehydrate.Backup.Create.{
  made, exists_already, Output, preflight_backup_output, reserve_output_root, udid_of,
  request_and_validate, create_backup,
}
use ios_rehydrate.Backup.Create.Fresh.{IsFresh, create_backup-IsFresh}

abbrev folder : Metadata
folder = record { regular = false; directory = true; link = false; reparse = false; size = 0 }

abbrev plain : ℕ → Metadata
plain n = record { regular = true; directory = false; link = false; reparse = false; size = n }

abbrev file : ℕ → File
file n = record {
  lstat = done (plain 1);
  opening = done tt;
  fstat = done (plain 1);
  content = done (n ∷ []);
}

abbrev info : Fields
info =
    field (codes "Target Identifier") (text (codes "d1"))
      (field (codes "Unique Identifier") (text (codes "d1")) end)

abbrev manifest : Fields
manifest =
    field (codes "IsEncrypted") (boolean true)
      (field (codes "Lockdown") (dict (field (codes "UniqueDeviceID") (text (codes "d1")) end)) end)

abbrev status : Fields
status = field (codes "SnapshotState") (text (codes "finished")) (
    field (codes "BackupState") (text (codes "new"))
      (field (codes "IsFullBackup") (boolean false) end))

-- Three files with one byte each
abbrev loads : Bytes → Parsed
loads bytes =
    if eq_text bytes (1 ∷ [])
    then parsed (dict info)
    else if eq_text bytes (2 ∷ [])
    then parsed (dict manifest)
    else if eq_text bytes (3 ∷ [])
    then parsed (dict status)
    else refused

abbrev same : Text → Text
same t = t

abbrev digest : Text → Text
digest t = codes "00112233445566778899"

abbrev payload_name : Text
payload_name = codes "0a00000000000000000000000000000000000000"

abbrev buckets : Listing Bucket
buckets =
    entry
      (record {
        name = codes "0a";
        stat = done folder;
        scan = done (entry (record { name = payload_name; stat = done (plain 7) }) stop);
      })
      (entry (record { name = codes "Info.plist"; stat = done (plain 1); scan = raise os_error })
        stop)

abbrev place : Directory
place = record { chain = done folder ∷ []; resolved = done (codes "/b") }

abbrev good : Answers
good = record {
  root = place;
  scan = done (entry (record { name = codes "d1"; stat = done folder }) stop);
  info = file 1;
  manifest = file 2;
  status = file 3;
  database = done (plain 9);
  buckets = done buckets;
}

abbrev totals : Totals
totals = record { count = 1; total = 7; inspected = 4 }

abbrev good_report : BackupReport
good_report = report_of loads same digest (codes "/b") (codes "d1") true totals

-- The device is encrypted from the third query on.
abbrev device : Environment
device = record {
  status = λ n. done (boolean (ltb 1 n));
  late = λ n. false;
  directory = place;
  password = done (pair (text (codes "pw")) (text (codes "pw")));
  parent_before = done folder;
  scratch_made = done true;
  parent_after = done folder;
  scratch_stat = done folder;
  service_enter = done tt;
  service_exit = finished (done tt);
  connection_closed = true;
  change = finished (done tt);
  backup = done tt;
  scratch_look = missing;
  scratch_removal = removed;
  scratch_again = missing;
}

-- The request takes too long, and the device does not say that it is encrypted.
abbrev silent : Environment
silent = record device { change = expired; status = λ n. done (boolean false) }

abbrev encrypted : Environment
encrypted = record device { status = λ n. done (boolean true) }

abbrev output : Output
output = record {
  name = codes "b";
  parent = place;
  exists = false;
  making = made;
  chain = done folder ∷ [];
}

runs : ℕ
unfolding eq_text starts_with ends_with get ◌>>=◌ raise_if opaque_ref is_reparse is_plain_directory
    consume is_single_component has_safe_chain exact_from exact_device_directory is_payload
    add_payload add_entry add_entries add_bucket add_if_named add_buckets hashed_payload_totals
    safe_existing_directory regular_file_metadata sized read_opened read_bounded_metadata
    read_plist_file device_id_of validate_identifiers check_status read_plists validate_backup
    encryption_status status_in_time run_mobilebackup_service reserve_private_scratch
    remove_empty_private_scratch agreed_password reconcile_encryption_enable reconcile request
    requested confirm_request confirm request_and_confirm enter_password enable_with enable
    enable_encryption preflight_backup_output reserve_output_root udid_of request_and_validate
    create_backup
runs = 0

validated : validate_backup loads same digest good (codes "d1") true ≡ done good_report
unfolding runs
validated = refl

validate_backup-IsVerified_example : IsVerified loads same digest good (codes "d1") true good_report
validate_backup-IsVerified_example =
    validate_backup-IsVerified loads same digest good (codes "d1") true good_report validated

other_device :
    validate_backup loads same digest good (codes "d2") true
    ≡ raise (error backup_verify "BACKUP_LAYOUT_INVALID")
unfolding runs
other_device = refl

hashed_payload_totals-IsTotalled_example : IsTotalled same 10 (done buckets) 1 totals
unfolding runs
hashed_payload_totals-IsTotalled_example =
    hashed_payload_totals-IsTotalled same 10 (done buckets) 1 totals (omega arith) refl

over_budget :
    hashed_payload_totals same 3 (done buckets) 1
    ≡ raise (error backup_verify "BACKUP_DIRECTORY_ENTRY_LIMIT")
unfolding runs
over_budget = refl

enable_encryption-IsGuarded_example :
    let after = (enable_encryption device start).1 in
    (changes after.events ≡ []) ⊎ IsGuarded device after
enable_encryption-IsGuarded_example = enable_encryption-IsGuarded device

silent-IsOrderly : IsOrderly silent
silent-IsOrderly = record {
  look = λ e h. ground arith;
  removal = λ e h. ground arith;
  again = λ e h. ground arith;
}

device-IsOrderly : IsOrderly device
device-IsOrderly = record {
  look = λ e h. ground arith;
  removal = λ e h. ground arith;
  again = λ e h. ground arith;
}

enable_encryption-IsTruthful_example :
    IsTruthful silent silent-IsOrderly (enable_encryption silent start)
enable_encryption-IsTruthful_example = enable_encryption-IsTruthful silent silent-IsOrderly

silent_outcome : (enable_encryption silent start).0 ≡ raise unknown
unfolding runs
silent_outcome = refl

device-IsFavourable : IsFavourable device (codes "pw")
unfolding runs
device-IsFavourable = record {
  off_first = refl;
  off_second = refl;
  on_third = refl;
  in_time = refl;
  safe = refl;
  root = codes "/b";
  resolved = refl;
  entered = refl;
  filled = refl;
  before = folder;
  before_is = refl;
  before_plain = refl;
  made = refl;
  after = folder;
  after_is = refl;
  after_plain = refl;
  scratch = folder;
  scratch_is = refl;
  scratch_plain = refl;
  enters = refl;
  changes_it = refl;
}

enable_encryption-succeeds_example :
    ((report : EnableReport) × ((enable_encryption device start).0 ≡ done (some report)))
    × (changes (enable_encryption device start).1.events ≡ ([], codes "pw") ∷ [])
enable_encryption-succeeds_example =
    enable_encryption-succeeds device (codes "pw") device-IsFavourable device-IsOrderly

abbrev made_report : BackupReport
made_report = record good_report { mobilebackup_connection_closed = some true }

create_backup-IsFresh_example :
    IsFresh loads same digest encrypted
      (text (codes "d1"))
      output
      good
      made_report
      (create_backup loads same digest encrypted (text (codes "d1")) output good start).1
unfolding runs
create_backup-IsFresh_example =
    create_backup-IsFresh loads same digest encrypted (text (codes "d1")) output good made_report
      refl

not_fresh :
    (create_backup loads same digest encrypted
      (text (codes "d1"))
      (record output { making = exists_already })
      good
      start).0
    ≡ raise (error io "BACKUP_OUTPUT_RACE")
unfolding runs
not_fresh = refl
