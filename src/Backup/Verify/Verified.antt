-- ===== src/Backup/Verify/Verified.antt =====
-- What `validate_backup` of src/ios_rehydrate/backup.py has checked when it returns a report.
use ios_rehydrate.Prelude.{
  ℕ, ◌<◌, ⊤, ◌≡◌, refl, sym, ap, ◌∙◌, Bool, true, false, not, ◌&&◌, ◌||◌, Option, none, some, ◌==◌,
  arith, or-false,
}
use ios_rehydrate.Prelude.Bytes.{Bytes, Text, codes, eq_text→eq}
use ios_rehydrate.Prelude.Values.{Value, text, boolean, Fields, get}
use ios_rehydrate.Errors.{
  Exception, done, Ensures, Ensures-done, Ensures-bind, Ensures-raise_if, raise_if-passes,
  raise_if-done,
}
use ios_rehydrate.Backup.{Listing, is_single_component, has_safe_chain}
use ios_rehydrate.Backup.Payload.{
  max_inspected_directory_entries, DirEntry, exact_device_directory, Totals, hashed_payload_totals,
}
use ios_rehydrate.Backup.Payload.Exact.{IsExact, exact_device_directory-IsExact, or_os_error_done}
use ios_rehydrate.Backup.Payload.Sums.{IsTotalled, hashed_payload_totals-IsTotalled}
use ios_rehydrate.Backup.Verify.{
  max_info_plist_bytes, max_manifest_plist_bytes, max_status_plist_bytes, max_manifest_db_bytes,
  Directory, safe_existing_directory, Parsed, is_flag, is_text_of, device_id_of, is_identifier,
  validate_identifiers, BackupReport, Answers, check_status, Plists, read_plists, report_of,
  validate_backup,
}
use ios_rehydrate.Backup.Verify.Files.{
  not-false, IsSized, IsPlist, ArePlists, read_plists-ArePlists,
}

module _ (loads : Bytes → Parsed) (casefold : Text → Text) (sha256 : Text → Text)
    (answers : Answers) where
  -- A value that is a text and means the device
  abbrev pub Identifies : Text → Option Value → Type 0
  Identifies expected o =
      (value : Text) × (o ≡ some (text value)) × (casefold value ≡ casefold expected)

  is_identifier-Identifies :
      (expected : Text) (o : Option Value)
      → is_identifier casefold expected o ≡ true
      → Identifies expected o
  is_identifier-Identifies expected none h = cc
  is_identifier-Identifies expected (some (text value)) h =
      (value, refl, eq_text→eq (casefold value) (casefold expected) h)
  is_identifier-Identifies expected (some v) h = cc

  is_text_of_lem :
      (expected : Text) (o : Option Value) → is_text_of expected o ≡ true → o ≡ some (text expected)
  is_text_of_lem expected o h =
      let equal = λ (value : Text). eq_text→eq value expected in grind (arith, equal)

  is_flag_lem : (b : Bool) (o : Option Value) → is_flag b o ≡ true → o ≡ some (boolean b)
  is_flag_lem b o h = ground arith

  -- All three identifiers of the backup mean the device.
  pub record IsIdentified (expected : Text) (info manifest : Fields) : Type 0 where
    pub target : Identifies expected (get (codes "Target Identifier") info)
    pub unique : Identifies expected (get (codes "Unique Identifier") info)
    pub device : Identifies expected (device_id_of (get (codes "Lockdown") manifest))

  and-true : (a b : Bool) → (a && b) ≡ true → (a ≡ true) × (b ≡ true)
  and-true a b h = ground arith

  validate_identifiers-IsIdentified :
      (info manifest : Fields) (expected : Text) {u : ⊤}
      → validate_identifiers casefold info manifest expected ≡ done u
      → IsIdentified expected info manifest
  unfolding validate_identifiers
  validate_identifiers-IsIdentified info manifest expected h =
      let (first, device) = and-true _ _ (not-false _ (raise_if-passes _ _ h)) in
      let (target, unique) = and-true _ _ first in
      record {
        target = is_identifier-Identifies expected _ target;
        unique = is_identifier-Identifies expected _ unique;
        device = is_identifier-Identifies expected _ device;
      }

  -- The status of a finished backup
  pub record IsFinished (status : Fields) : Type 0 where
    pub snapshot : get (codes "SnapshotState") status ≡ some (text (codes "finished"))
    pub state : get (codes "BackupState") status ≡ some (text (codes "new"))
    pub full : get (codes "IsFullBackup") status ≡ some (boolean false)

  check_status-IsFinished :
      (status : Fields) → Ensures (λ u. IsFinished status) (check_status status)
  unfolding check_status
  check_status-IsFinished status = record {
    at = λ u h.
        let (states, rest) = raise_if-done _ _ _ h in
        let (snapshot, state) = and-true _ _ (not-false _ states) in
        record {
          snapshot = is_text_of_lem (codes "finished") _ snapshot;
          state = is_text_of_lem (codes "new") _ state;
          full = is_flag_lem false _ (not-false _ (raise_if-passes _ _ rest));
        };
  }

  -- What holds of a backup that a report is returned for.
  pub record IsVerified (expected : Text) (requested : Bool) (report : BackupReport) : Type 0 where
    pub component : is_single_component expected ≡ true
    pub chain : has_safe_chain answers.root.chain ≡ done true
    pub root : Text
    pub resolved : answers.root.resolved ≡ done root
    pub listing : Listing DirEntry
    pub scanned : answers.scan ≡ done listing
    pub exact : IsExact expected listing
    pub info : Fields
    pub manifest : Fields
    pub status : Fields
    pub info_file : IsPlist loads max_info_plist_bytes answers.info info
    pub manifest_file : IsPlist loads max_manifest_plist_bytes answers.manifest manifest
    pub status_file : IsPlist loads max_status_plist_bytes answers.status status
    pub database : IsSized max_manifest_db_bytes answers.database
    pub encrypted : get (codes "IsEncrypted") manifest ≡ some (boolean true)
    pub identified : IsIdentified expected info manifest
    pub finished : IsFinished status
    pub totals : Totals
    pub counted : IsTotalled casefold max_inspected_directory_entries answers.buckets 1 totals
    pub some_files : 0 < totals.count
    pub some_bytes : 0 < totals.total
    pub reported : report ≡ report_of loads casefold sha256 root expected requested totals

  safe_existing_directory_lem :
      (e : Exception) (directory : Directory)
      → Ensures
          (λ root. (has_safe_chain directory.chain ≡ done true) × (directory.resolved ≡ done root))
          (safe_existing_directory e directory)
  unfolding safe_existing_directory
  safe_existing_directory_lem e directory =
      Ensures-bind (has_safe_chain directory.chain) _ λ safe walked. record {
        at = λ root h.
            let (unsafe, rest) = raise_if-done _ _ _ h in
            (
              walked ∙ ap (λ (b : Bool). done b) (not-false safe unsafe),
              or_os_error_done e directory.resolved root rest,
            );
      }

  verified :
      {expected root : Text} {requested : Bool} {inspected : ℕ} {plists : Plists} {u v : ⊤}
      {totals : Totals}
      → is_single_component expected ≡ true
      → (has_safe_chain answers.root.chain ≡ done true) × (answers.root.resolved ≡ done root)
      → exact_device_directory max_inspected_directory_entries expected answers.scan
        ≡ done inspected
      → ArePlists loads answers plists
      → is_flag true (get (codes "IsEncrypted") plists.manifest) ≡ true
      → IsIdentified expected plists.info plists.manifest
      → IsFinished plists.status
      → hashed_payload_totals casefold max_inspected_directory_entries answers.buckets inspected
        ≡ done totals
      → (totals.count == 0 || totals.total == 0) ≡ false
      → IsVerified expected requested
          (report_of loads casefold sha256 root expected requested totals)
  verified {expected} {root} {inspected} {plists} {totals} component (chain, resolved) exact are
        encrypted identified finished totalled filled =
      let (listing, scanned, is_exact, one) =
        exact_device_directory-IsExact _ expected answers.scan inspected exact in
      let (count, total) = or-false (totals.count == 0) (totals.total == 0) filled in
      record {
        component = component;
        chain = chain;
        root = root;
        resolved = resolved;
        listing = listing;
        scanned = scanned;
        exact = is_exact;
        info = plists.info;
        manifest = plists.manifest;
        status = plists.status;
        info_file = are.info;
        manifest_file = are.manifest;
        status_file = are.status;
        database = are.database;
        encrypted = is_flag_lem true _ encrypted;
        identified = identified;
        finished = finished;
        totals = totals;
        counted =
            hashed_payload_totals-IsTotalled casefold _ answers.buckets 1 totals (omega arith) (
              ap
                (λ (n : ℕ).
                  hashed_payload_totals casefold max_inspected_directory_entries answers.buckets n)
                (sym one)
              ∙ totalled);
        some_files = ground arith;
        some_bytes = ground arith;
        reported = refl;
      }

  validate_backup-ensures :
      (expected : Text) (requested : Bool)
      → Ensures
          (IsVerified expected requested)
          (validate_backup loads casefold sha256 answers expected requested)
  unfolding validate_backup
  validate_backup-ensures expected requested =
      Ensures-raise_if (not (is_single_component expected)) _ _ λ component.
        Ensures-bind (safe_existing_directory _ answers.root) _ λ root safe.
          Ensures-bind (exact_device_directory _ expected answers.scan) _ λ inspected exact.
            Ensures-bind (read_plists loads casefold sha256 answers) _ λ plists read.
              Ensures-raise_if (not (is_flag true (get (codes "IsEncrypted") plists.manifest))) _ _
                λ encrypted.
                  Ensures-bind (validate_identifiers casefold plists.info plists.manifest expected)
                    _
                    λ u identified. Ensures-bind (check_status plists.status) _ λ v finished.
                      Ensures-bind (hashed_payload_totals casefold _ answers.buckets inspected) _
                        λ totals totalled.
                          Ensures-raise_if (totals.count == 0 || totals.total == 0) _ _ λ filled.
                            Ensures-done _ (
                              verified (not-false _ component)
                                (Ensures.at (safe_existing_directory_lem _ answers.root) root safe)
                                exact
                                (Ensures.at (read_plists-ArePlists loads casefold sha256 answers)
                                  plists read)
                                (not-false _ encrypted)
                                (validate_identifiers-IsIdentified plists.info plists.manifest
                                  expected identified)
                                (Ensures.at (check_status-IsFinished plists.status) v finished)
                                totalled filled)

  -- If validate_backup returns a report, the root holds the directory of the device alone and no
  -- link leads to it, the three property lists are regular files that were read whole within their
  -- limits, the backup is encrypted, finished and of the expected device, the payload is counted
  -- from what the buckets list and has at least one file and one byte, and the report says this and
  -- no more.
  pub validate_backup-IsVerified :
      (expected : Text) (requested : Bool) (report : BackupReport)
      → validate_backup loads casefold sha256 answers expected requested ≡ done report
      → IsVerified expected requested report
  validate_backup-IsVerified expected requested report =
      Ensures.at (validate_backup-ensures expected requested) report
