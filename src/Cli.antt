-- ===== src/Cli.antt =====
-- src/ios_rehydrate/cli.py: the receipts that stand before an upgrade, and the callback at its boundary.
pub mod Gate
pub mod Upgrades
mod Tests
use ios_rehydrate.Prelude.{
  ℕ, ⊤, ◌≡◌, Bool, true, false, not, ◌&&◌, Option, none, some, List, [], ◌∷◌, all, length, ltb,
  ◌==◌, ◌||◌,
}
use ios_rehydrate.Prelude.Bytes.{Bytes, Text, codes, eq_text}
use ios_rehydrate.Prelude.Texts.{is_digit, in_range}
use ios_rehydrate.Prelude.Values.{ℤ, pos, Value, integer, text, dict, Fields, get}
use ios_rehydrate.Errors.{
  Exception, other, error, policy_refused, Result, done, raise, ◌>>=◌, ◌>>◌, raise_if,
}
use ios_rehydrate.Backup.Verify.{BackupReport, is_flag}
use ios_rehydrate.Receipts.Files.{Environment}
use ios_rehydrate.Ipa.Payload.{ValidatedIpa}
use ios_rehydrate.Upgrade.{Evidence, rehydrate_app}
use ios_rehydrate.Upgrade.Session.{Run, start}
use ios_rehydrate.Upgrade.Session
use ios_rehydrate.Receipts.{Session, mark_operation_started}
use ios_rehydrate.Receipts.Reading.{Answers, Loaded, Moment, max_receipt_age, says, read_receipt}

abbrev pub mismatch : Exception
mismatch = error policy_refused "BACKUP_RECEIPT_MISMATCH"

abbrev pub creation_mismatch : Exception
creation_mismatch = error policy_refused "BACKUP_CREATION_RECEIPT_MISMATCH"

-- `type(value) is int and value > 0`
abbrev pub is_positive : Option Value → Bool
is_positive (some (integer (pos n))) = ltb 0 n
is_positive _ = false

-- `type(value) is int and value >= 0`
abbrev pub is_natural : Option Value → Bool
is_natural (some (integer (pos n))) = true
is_natural _ = false

-- `type(value) is int and value == n`
abbrev pub is_number : ℕ → Option Value → Bool
is_number n (some (integer (pos m))) = m == n
is_number n _ = false

abbrev pub is_lower_hexadecimal : ℕ → Bool
is_lower_hexadecimal c = is_digit c || in_range b'a' b'f' c

-- `isinstance(value, str) and _SHA256.fullmatch(value) is not None`
abbrev pub is_digest : Option Value → Bool
is_digest (some (text value)) = length value == 64 && all is_lower_hexadecimal value
is_digest _ = false

-- The fields of a complete encrypted backup that was requested as a full one
unfoldable pub is_complete : Fields → Bool
is_complete backup =
    is_flag true (get (codes "encrypted") backup)
    && is_flag true (get (codes "completed") backup)
    && is_flag true (get (codes "requested_full") backup)
    && is_flag false (get (codes "observed_is_full_backup") backup)

-- The tests on the backup in the evidence
unfoldable pub backup_fits : Text → Option Value → Bool
backup_fits device_ref (some (dict backup)) =
    says backup (codes "device_ref") device_ref
    && is_complete backup
    && is_positive (get (codes "payload_count") backup)
    && is_positive (get (codes "payload_bytes") backup)
backup_fits device_ref _ = false

-- The tests on the manifest in the evidence
unfoldable pub manifest_fits : Option Value → Bool
manifest_fits (some (dict manifest)) =
    is_positive (get (codes "entry_count") manifest)
    && is_natural (get (codes "logical_bytes_total") manifest)
manifest_fits _ = false

-- `valid` of `_validate_backup_gate`
unfoldable pub is_valid : Text → Text → Fields → Bool
is_valid device_ref app_ref evidence =
    backup_fits device_ref (get (codes "backup") evidence)
    && says evidence (codes "app_ref") app_ref
    && is_digest (get (codes "creation_receipt_sha256") evidence)
    && manifest_fits (get (codes "manifest") evidence)

-- `valid` of `_validate_backup_creation_receipt`
unfoldable pub creation_fits : BackupReport → Option Value → Bool
creation_fits report (some (dict backup)) =
    says backup (codes "backup_ref") report.backup_ref
    && says backup (codes "device_ref") report.device_ref
    && is_number report.payload_count (get (codes "payload_count") backup)
    && is_number report.payload_bytes (get (codes "payload_bytes") backup)
    && is_complete backup
creation_fits report _ = false

-- `receipt["evidence"]`, of which the code calls a method
abbrev pub evidence_of : Fields → Result Fields
evidence_of receipt = elim (get (codes "evidence") receipt) [
  | some (dict evidence) ↦ done evidence
  | _ ↦ raise other
]

module _ (loads : Bytes → Loaded) (from_iso : Text → Result Moment) (sha256 : Bytes → Text)
    (version : Text) where
  -- `_validate_backup_gate`
  unfoldable pub validate_backup_gate : Answers → Text → Text → ℕ → Result (Text × Fields)
  validate_backup_gate answers device_ref app_ref now = do
    (receipt, digest) ←
        read_receipt loads from_iso sha256 version answers (codes "backup-verification")
          (some (pos max_receipt_age)) now
    evidence ← evidence_of receipt
    raise_if (not (is_valid device_ref app_ref evidence)) mismatch
    done (digest, evidence)

  -- `_validate_backup_creation_receipt`
  unfoldable pub validate_backup_creation_receipt : Answers → BackupReport → ℕ → Result Text
  validate_backup_creation_receipt answers report now = do
    (receipt, digest) ←
        read_receipt loads from_iso sha256 version answers (codes "backup-create")
          (some (pos max_receipt_age)) now
    evidence ← evidence_of receipt
    raise_if (not (creation_fits report (get (codes "backup") evidence))) creation_mismatch
    done digest

  -- The tests of `mutation_boundary`
  unfoldable pub recheck_gate : Answers → Text → Text → Text → ℕ → Result ⊤
  recheck_gate answers device_ref app_ref digest now = do
    (final_digest, evidence) ← validate_backup_gate answers device_ref app_ref now
    raise_if (not (eq_text final_digest digest)) (error policy_refused "BACKUP_RECEIPT_CHANGED")

-- `if reservation is not None: reservation.mark_operation_started()`
unfoldable pub mark_optional : Environment → Option Session → Result ⊤ × Option Session
mark_optional env none = (done tt, none)
mark_optional env (some s) = let (r, t) = mark_operation_started env s in (r, some t)

-- `mutation_boundary`, from the outcome of its tests
unfoldable pub mutation_boundary :
    Environment → Result ⊤ → Option Session → Result ⊤ × Option Session
mutation_boundary env (raise e) reservation = (raise e, reservation)
mutation_boundary env (done u) reservation = mark_optional env reservation

-- The call of `rehydrate_app` with this callback
unfoldable pub rehydrate_guarded :
    (Text → Text) → Session.Environment → ValidatedIpa → Result ⊤ → Result Evidence × Run
rehydrate_guarded sha256 services payload boundary =
    rehydrate_app sha256 (record services { on_mutation_boundary = some boundary }) payload start
