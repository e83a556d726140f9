-- ===== src/Cli/Tests.antt =====
-- A fresh receipt of a verified backup, an upgrade behind it, and the theorem at this run.
use ios_rehydrate.Prelude.{
  ℕ, ⊤, ◌≡◌, refl, Bool, true, false, Option, none, some, [], ◌∷◌, ◌==◌, if◌then◌else◌,
}
use ios_rehydrate.Prelude.Bytes.{Bytes, Text, codes, eq_text, elem}
use ios_rehydrate.Prelude.Texts.{strip}
use ios_rehydrate.Prelude.Values.{pos, Value, Fields, text, integer, boolean, dict, end, field, get}
use ios_rehydrate.Errors.{error, policy_refused, Result, done, raise, ◌>>=◌, raise_if}
use ios_rehydrate.Effects.{finished}
use ios_rehydrate.Apps.{inspect_app, bounded_string, application_membership}
use ios_rehydrate.Ipa.Payload.{ValidatedIpa}
use ios_rehydrate.Receipts.Files.{Identity, Stat, Environment, empty_file, enter, lstat, fstat}
use ios_rehydrate.Receipts.{Session, matches_reserved_path, assert_identity, mark_operation_started}
use ios_rehydrate.Receipts.Reserve.{envelope}
use ios_rehydrate.Receipts.Reading.{
  Answers, Loaded, loaded, undecodable, Moment, read_up_to, read_file, says, matches_workflow,
  created_at, read_receipt,
}
use ios_rehydrate.Upgrade.{
  eligible_target, postflight_matches, preflight, stage_and_send, staged_operation, report_failure,
  shielded_cleanup, mutate, conclude, proceed, postflight_from, rehydrate_app,
}
use ios_rehydrate.Upgrade.Session.{Environment as Services}
use ios_rehydrate.Backup.Verify.{BackupReport}
use ios_rehydrate.Cli.{
  is_complete, backup_fits, manifest_fits, is_valid, creation_fits, validate_backup_gate,
  validate_backup_creation_receipt, recheck_gate, mark_optional, mutation_boundary,
  rehydrate_guarded,
}
use ios_rehydrate.Cli.Upgrades.{boundary, IsLicensed, rehydrate_guarded-IsLicensed}

abbrev hash : Text
hash = codes "0123456789abcdef0123456789abcdef0123456789abcdef0123456789abcdef"

abbrev backup : Bool → Fields
backup full = field (codes "backup_ref") (text (codes "backup_1")) (
    field (codes "device_ref") (text (codes "device_1")) (
      field (codes "payload_count") (integer (pos 3)) (
        field (codes "payload_bytes") (integer (pos 5)) (
          field (codes "encrypted") (boolean true) (
            field (codes "completed") (boolean true) (
              field (codes "requested_full") (boolean full)
                (field (codes "observed_is_full_backup") (boolean false) end)))))))

abbrev evidence : Fields
evidence = field (codes "backup") (dict (backup true)) (
    field (codes "app_ref") (text (codes "app_1")) (
      field (codes "creation_receipt_sha256") (text hash) (
        field (codes "manifest")
          (dict (
            field (codes "entry_count") (integer (pos 1))
              (field (codes "logical_bytes_total") (integer (pos 0)) end)))
          end)))

-- The receipts in the order of their first bytes: of a verification, of a creation, and of one that was
-- no full backup
abbrev loads : Bytes → Loaded
loads bytes =
    if eq_text bytes (1 ∷ [])
    then loaded (dict (envelope (codes "1.0") (codes "now") (codes "backup-verification") evidence))
    else if eq_text bytes (2 ∷ [])
    then loaded (
        dict (
          envelope (codes "1.0") (codes "now") (codes "backup-create")
            (field (codes "backup") (dict (backup true)) end)))
    else if eq_text bytes (3 ∷ [])
    then loaded (
        dict (
          envelope (codes "1.0") (codes "now") (codes "backup-create")
            (field (codes "backup") (dict (backup false)) end)))
    else undecodable

abbrev clock : Text → Result Moment
clock t = done (record { aware = true; utc = done 1000 })

abbrev digest : Bytes → Text
digest b = codes "ab"

abbrev file : Identity
file = record { device = 1; inode = 7 }

abbrev stat : Stat
stat = record {
  identity = file;
  regular = true;
  link = false;
  reparse = false;
  links = 1;
  size = 1;
}

abbrev holds : ℕ → Answers
holds n = record {
  lstat = done stat;
  opening = done tt;
  fstat = done stat;
  content = done (n ∷ []);
}

abbrev calm : Environment
calm = record {
  others = λ n w. w;
  failure = λ n. none;
  progress = λ n. 3;
  fresh_identity = λ n. file;
  fresh_descriptor = λ n. 3;
}

-- A reserved receipt for the result of the upgrade
abbrev held : Session
held = record {
  reservation = record {
    descriptor = some 3;
    identity = file;
    operation_started = false;
    committed = false;
  };
  process = record {
    world = record { entry = some file; at = λ i. empty_file };
    descriptors = λ d. if d == 3 then some (record { identity = file; position = 0 }) else none;
    clock = 0;
    removed = [];
  };
}

abbrev payload : ValidatedIpa
payload = record {
  archive_bytes = 80 ∷ 75 ∷ [];
  sha256 = codes "ab";
  size = 2;
  bundle_identifier = codes "a.b";
  version = codes "2";
  build = codes "20";
  minimum_os = codes "15";
  metadata = 1 ∷ [];
  sinf = 1 ∷ [];
  has_code_resources = true;
  store_id = none;
}

abbrev app : Value
app = dict (
    field (codes "a.b")
      (dict (
        field (codes "CFBundleIdentifier") (text (codes "a.b")) (
          field (codes "ApplicationType") (text (codes "User"))
            (field (codes "IsDemotedApp") (boolean true) end))))
      end)

-- The app stays offloaded: the command is sent, and its result is not seen.
abbrev services : Services
services = record {
  lookup_answer = λ n. finished (done app);
  afc_enter = done tt;
  afc_exit = done tt;
  makedirs = done tt;
  set_file_contents = done tt;
  proxy_enter = done tt;
  proxy_exit = done tt;
  on_mutation_boundary = none;
  send_package = finished (done tt);
  interruptions = [];
  rm_single = finished (done true);
  sleeping = λ n. done tt;
}

abbrev text_digest : Text → Text
text_digest _ = codes "00112233445566778899aabbccddeeff"

runs : ℕ
unfolding eq_text elem enter lstat fstat matches_reserved_path assert_identity
    mark_operation_started envelope read_up_to read_file says matches_workflow created_at
    read_receipt get ◌>>=◌ raise_if is_complete backup_fits manifest_fits is_valid creation_fits
    validate_backup_gate validate_backup_creation_receipt recheck_gate mark_optional
    mutation_boundary rehydrate_guarded rehydrate_app proceed conclude mutate preflight
    postflight_from staged_operation stage_and_send report_failure shielded_cleanup eligible_target
    postflight_matches inspect_app application_membership bounded_string strip
runs = 0

gate_passes :
    validate_backup_gate loads clock digest
      (codes "1.0")
      (holds 1)
      (codes "device_1")
      (codes "app_1")
      1200
    ≡ done (codes "ab", evidence)
unfolding runs
gate_passes = refl

-- Another app, and a receipt that has been replaced
gate_refuses :
    (validate_backup_gate loads clock digest
        (codes "1.0")
        (holds 1)
        (codes "device_1")
        (codes "app_2")
        1200
      ≡ raise (error policy_refused "BACKUP_RECEIPT_MISMATCH"))
    × (recheck_gate loads clock digest
          (codes "1.0")
          (holds 1)
          (codes "device_1")
          (codes "app_1")
          (codes "cd")
          1200
        ≡ raise (error policy_refused "BACKUP_RECEIPT_CHANGED"))
unfolding runs
gate_refuses = (refl, refl)

abbrev report : BackupReport
report = record {
  backup_ref = codes "backup_1";
  device_ref = codes "device_1";
  payload_count = 3;
  payload_bytes = 5;
  encrypted = true;
  completed = true;
  requested_full = false;
  observed_is_full_backup = false;
  mobilebackup_connection_closed = none;
}

creation_bound :
    (validate_backup_creation_receipt loads clock digest (codes "1.0") (holds 2) report 1200
      ≡ done (codes "ab"))
    × (validate_backup_creation_receipt loads clock digest (codes "1.0") (holds 3) report 1200
        ≡ raise (error policy_refused "BACKUP_CREATION_RECEIPT_MISMATCH"))
unfolding runs
creation_bound = (refl, refl)

abbrev at_boundary : Result ⊤ × Option Session
at_boundary =
    boundary loads clock digest (codes "1.0") (holds 1) (codes "device_1") (codes "app_1")
      (codes "ab") 1200 calm (some held) text_digest services payload

crosses :
    (rehydrate_guarded text_digest services payload at_boundary.0).1.send_boundary_crossed ≡ true
unfolding runs
crosses = refl

rehydrate_guarded-IsLicensed_example :
    IsLicensed loads clock digest
      (codes "1.0")
      (holds 1)
      (codes "device_1")
      (codes "app_1")
      (codes "ab")
      1200
      calm
      (some held)
      text_digest
      services
      payload
rehydrate_guarded-IsLicensed_example =
    rehydrate_guarded-IsLicensed loads clock digest (codes "1.0") (holds 1) (codes "device_1")
      (codes "app_1") (codes "ab") 1200 calm (some held) text_digest services payload crosses
