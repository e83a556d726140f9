-- ===== src/Cli/Gate.antt =====
-- What the gates of src/ios_rehydrate/cli.py have read when they return.
use mathlib.Core.Path.{subst}
use ios_rehydrate.Prelude.{
  ℕ, ◌≡◌, ◌<◌, refl, Bool, true, false, not, ◌&&◌, Option, none, some, arith,
}
use ios_rehydrate.Prelude.Bytes.{Bytes, Text, codes, eq_text→eq}
use ios_rehydrate.Prelude.Values.{pos, Value, text, integer, boolean, dict, Fields, get}
use ios_rehydrate.Errors.{
  Result, done, Ensures, Ensures-done, Ensures-bind, Ensures-raise_if, raise_if-passes,
}
use ios_rehydrate.Receipts.Reading.{Answers, Loaded, Moment, max_receipt_age, says, read_receipt}
use ios_rehydrate.Receipts.Reading.Admitted.{IsAdmitted, read_receipt-IsAdmitted}
use ios_rehydrate.Cli.{
  is_positive, is_complete, backup_fits, is_valid, evidence_of, validate_backup_gate, recheck_gate,
}
use ios_rehydrate.Backup.Verify.{is_flag}

not-false : (b : Bool) → not b ≡ false → b ≡ true
not-false b h = ground arith

evidence_of_lem :
    (receipt evidence : Fields)
    → evidence_of receipt ≡ done evidence
    → get (codes "evidence") receipt ≡ some (dict evidence)
evidence_of_lem receipt evidence h = ground arith

abbrev pub IsPositive : Option Value → Type 0
IsPositive o = (n : ℕ) × (o ≡ some (integer (pos n))) × (0 < n)

-- What the evidence of a verified backup says of the device and the app
pub record IsEvidence (device_ref app_ref : Text) (evidence : Fields) : Type 0 where
  pub backup : Fields
  pub backup_is : get (codes "backup") evidence ≡ some (dict backup)
  pub device : get (codes "device_ref") backup ≡ some (text device_ref)
  pub encrypted : get (codes "encrypted") backup ≡ some (boolean true)
  pub completed : get (codes "completed") backup ≡ some (boolean true)
  pub requested_full : get (codes "requested_full") backup ≡ some (boolean true)
  pub observed : get (codes "observed_is_full_backup") backup ≡ some (boolean false)
  pub files : IsPositive (get (codes "payload_count") backup)
  pub bytes : IsPositive (get (codes "payload_bytes") backup)
  pub app : get (codes "app_ref") evidence ≡ some (text app_ref)

and-true : (a b : Bool) → (a && b) ≡ true → (a ≡ true) × (b ≡ true)
and-true a b h = ground arith

is_flag_lem : (b : Bool) (o : Option Value) → is_flag b o ≡ true → o ≡ some (boolean b)
is_flag_lem b o h = ground arith

is_positive-IsPositive : (o : Option Value) → is_positive o ≡ true → IsPositive o
is_positive-IsPositive none h = cc
is_positive-IsPositive (some (integer (pos n))) h = (n, refl, ground arith)
is_positive-IsPositive (some v) h = cc

says_lem :
    (fields : Fields) (key expected : Text)
    → says fields key expected ≡ true
    → get key fields ≡ some (text expected)
unfolding says
says_lem fields key expected h =
    let equal = λ (value : Text). eq_text→eq value expected in grind (arith, equal)

backup_fits_dict :
    (device_ref : Text) (o : Option Value)
    → backup_fits device_ref o ≡ true
    → (backup : Fields) × (o ≡ some (dict backup))
      × (backup_fits device_ref (some (dict backup)) ≡ true)
unfolding backup_fits
backup_fits_dict device_ref none h = cc
backup_fits_dict device_ref (some (dict backup)) h = (backup, refl, h)
backup_fits_dict device_ref (some v) h = cc

is_valid-IsEvidence :
    (device_ref app_ref : Text) (evidence : Fields)
    → is_valid device_ref app_ref evidence ≡ true
    → IsEvidence device_ref app_ref evidence
unfolding is_valid backup_fits is_complete
is_valid-IsEvidence device_ref app_ref evidence h =
    let (digested, manifest) = and-true _ _ h in
    let (named, digest) = and-true _ _ digested in
    let (fits, app) = and-true _ _ named in
    let (backup, is, all) = backup_fits_dict device_ref (get (codes "backup") evidence) fits in
    let (counted, bytes) = and-true _ _ all in
    let (complete, files) = and-true _ _ counted in
    let (device, flags) = and-true _ _ complete in
    let (three, observed) = and-true _ _ flags in
    let (two, full) = and-true _ _ three in
    let (encrypted, completed) = and-true _ _ two in
    record {
      backup = backup;
      backup_is = is;
      device = says_lem backup (codes "device_ref") device_ref device;
      encrypted = is_flag_lem true _ encrypted;
      completed = is_flag_lem true _ completed;
      requested_full = is_flag_lem true _ full;
      observed = is_flag_lem false _ observed;
      files = is_positive-IsPositive _ files;
      bytes = is_positive-IsPositive _ bytes;
      app = says_lem evidence (codes "app_ref") app_ref app;
    }

module _ (loads : Bytes → Loaded) (from_iso : Text → Result Moment) (sha256 : Bytes → Text)
    (version : Text) (answers : Answers) (device_ref app_ref : Text) (now : ℕ) where
  -- A fresh receipt of a verified backup of the device and the app
  pub record IsProven (digest : Text) : Type 0 where
    pub receipt : Fields
    pub admitted :
        IsAdmitted loads from_iso sha256 version answers
          (codes "backup-verification")
          (some (pos max_receipt_age))
          now
          receipt
          digest
    pub evidence : Fields
    pub held : get (codes "evidence") receipt ≡ some (dict evidence)
    pub says_so : IsEvidence device_ref app_ref evidence

  validate_backup_gate-IsProven :
      Ensures
        (λ (digest, evidence). IsProven digest)
        (validate_backup_gate loads from_iso sha256 version answers device_ref app_ref now)
  unfolding validate_backup_gate
  validate_backup_gate-IsProven =
      Ensures-bind (read_receipt loads from_iso sha256 version answers _ _ now) _
        λ (receipt, digest) read. Ensures-bind (evidence_of receipt) _ λ evidence held.
          Ensures-raise_if (not (is_valid device_ref app_ref evidence)) _ _ λ valid.
            Ensures-done (digest, evidence)
              (record {
                receipt = receipt;
                admitted =
                    read_receipt-IsAdmitted loads from_iso sha256 version answers _ _ now receipt
                      digest read;
                evidence = evidence;
                held = evidence_of_lem receipt evidence held;
                says_so = is_valid-IsEvidence device_ref app_ref evidence (not-false _ valid);
              })

  pub recheck_gate-IsProven :
      (digest : Text)
      → Ensures
          (λ u. IsProven digest)
          (recheck_gate loads from_iso sha256 version answers device_ref app_ref digest now)
  unfolding recheck_gate
  recheck_gate-IsProven digest =
      Ensures-bind
        (validate_backup_gate loads from_iso sha256 version answers device_ref app_ref now) _
        λ (final, evidence) passed. record {
          at = λ u h.
              let same = eq_text→eq final digest (not-false _ (raise_if-passes _ _ h)) in
              subst IsProven same
                (Ensures.at validate_backup_gate-IsProven (final, evidence) passed);
        }
