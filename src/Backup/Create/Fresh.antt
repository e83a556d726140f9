-- ===== src/Backup/Create/Fresh.antt =====
-- What `create_backup` of src/ios_rehydrate/backup.py has done when it returns a report.
use ios_rehydrate.Prelude.{
  ℕ, suc, ◌≡◌, ◌≢◌, refl, sym, ap, ◌∙◌, ◌⊎◌, ◌↔◌, inl, inr, Bool, true, false, some, List, [], ◌∷◌,
  is_nil, arith,
}
use ios_rehydrate.Prelude.Bytes.{Bytes, Text}
use ios_rehydrate.Prelude.Values.{Value, text, boolean}
use ios_rehydrate.Errors.{Exception, Result, done, raise, ◌>>=◌, raise_if}
use ios_rehydrate.Backup.{is_single_component, has_safe_chain}
use ios_rehydrate.Backup.Verify.{
  Directory, safe_existing_directory, Parsed, BackupReport, Answers, validate_backup,
}
use ios_rehydrate.Backup.Verify.Verified.{IsVerified, validate_backup-IsVerified}
use ios_rehydrate.Backup.Service.{
  Event, request_backup, Run, start, Environment, call, encryption_status, run_mobilebackup_service,
}
use ios_rehydrate.Backup.Encryption.Outcome.{WasClosed}
use ios_rehydrate.Backup.Create.{
  made, Output, preflight_backup_output, reserve_output_root, udid_of, as_verification, incomplete,
  request_and_validate, create_backup,
}

-- The requests for a backup among the calls
abbrev pub backups : List Event → ℕ
backups [] = 0
backups (request_backup ∷ events) = suc (backups events)
backups (_ ∷ events) = backups events

-- The place was free, and the directory was made there by this run.
pub record IsOwnOutput (output : Output) : Type 0 where
  pub named : is_nil output.name ≡ false
  pub free : output.exists ≡ false
  pub parent_safe : has_safe_chain output.parent.chain ≡ done true
  pub created : output.making ≡ made
  pub chain_safe : has_safe_chain output.chain ≡ done true

result_cases :
    {A : Type 0} (r : Result A) → ((a : A) × (r ≡ done a)) ⊎ ((e : Exception) × (r ≡ raise e))
result_cases (done a) = inl (a, refl)
result_cases (raise e) = inr (e, refl)

udid_of_lem :
    (v : Value) (udid : Text)
    → udid_of v ≡ done udid
    → (v ≡ text udid) × (is_single_component udid ≡ true)
unfolding udid_of
udid_of_lem (text udid) other h = ground arith
udid_of_lem v udid h = cc

safe_chain :
    (e : Exception) (directory : Directory) (root : Text)
    → safe_existing_directory e directory ≡ done root
    → has_safe_chain directory.chain ≡ done true
unfolding safe_existing_directory ◌>>=◌ raise_if
safe_chain e directory root h = ground arith

preflight_backup_output_lem :
    (output : Output)
    → preflight_backup_output output ≡ done tt
    → (is_nil output.name ≡ false)
      × (output.exists ≡ false)
      × (has_safe_chain output.parent.chain ≡ done true)
unfolding preflight_backup_output
preflight_backup_output_lem output h =
    let safe = λ (e : Exception) (root : Text). safe_chain e output.parent root in
    (ground arith, ground arith, grind (arith, safe))

reserve_output_root-IsOwnOutput :
    (output : Output) (run : Run)
    → (reserve_output_root output run).0 ≡ done tt
    → IsOwnOutput output
unfolding reserve_output_root
reserve_output_root-IsOwnOutput output run h = ground (arith, preflight_backup_output_lem output)

reserve_output_root_still :
    (output : Output) (run : Run)
    → backups (reserve_output_root output run).1.events ≡ backups run.events
unfolding reserve_output_root
reserve_output_root_still output run = ground arith

module _ (env : Environment) where
  status_lem :
      (run : Run)
      → let (r, after) = encryption_status env run in
        (backups after.events ≡ backups run.events)
        × (r ≡ done true → env.status run.asked ≡ done (boolean true))
  unfolding encryption_status
  status_lem run = (ground arith, ground arith)

  service_lem :
      (run : Run) (closed : Bool)
      → let (r, after) = run_mobilebackup_service env (call request_backup env.backup) run in
        r ≡ done closed
        → (backups after.events ≡ suc (backups run.events))
          × (env.backup ≡ done tt)
          × ((closed ≡ true) ↔ WasClosed env)
  unfolding run_mobilebackup_service
  service_lem run closed h = (ground arith, ground arith, (λ c. ground arith, λ c. ground arith))

module _ (loads : Bytes → Parsed) (casefold : Text → Text) (sha256 : Text → Text)
    (env : Environment) where
  as_verification_done :
      (r : Result BackupReport) (report : BackupReport)
      → as_verification r ≡ done report
      → r ≡ done report
  as_verification_done r report h = ground arith

  -- The report for a service that ended and a validation that accepted
  abbrev combined : Result Bool → Result BackupReport → Result BackupReport
  combined (done closed) (done base) =
      done (record base { mobilebackup_connection_closed = some closed })
  combined (done closed) (raise e) = raise e
  combined (raise x) v = raise (incomplete loads casefold sha256 env)

  combined_done :
      (x : Result Bool) (v : Result BackupReport) (report : BackupReport)
      → combined x v ≡ done report
      → (closed : Bool) × (base : BackupReport) × (x ≡ done closed)
        × (v ≡ done base)
        × (report ≡ record base { mobilebackup_connection_closed = some closed })
  combined_done (done closed) (done base) report h = (closed, base, refl, refl, ground arith)
  combined_done (done closed) (raise e) report h = cc
  combined_done (raise x) v report h = cc

  request_result :
      (udid : Text) (answers : Answers) (run : Run)
      → let service = run_mobilebackup_service env (call request_backup env.backup) run in
        let (r, after) = request_and_validate loads casefold sha256 env udid answers run in
        (r
          ≡ combined service.0
              (as_verification (validate_backup loads casefold sha256 answers udid true)))
        × (after ≡ service.1)
  unfolding request_and_validate
  request_result udid answers run = ground arith

  -- What holds when a report is returned.
  pub record IsFresh (identifier : Value) (output : Output) (answers : Answers)
      (report : BackupReport) (after : Run) : Type 0 where
    pub udid : Text
    pub identified : identifier ≡ text udid
    pub on : env.status 0 ≡ done (boolean true)
    pub own : IsOwnOutput output
    pub ended : env.backup ≡ done tt
    pub once : backups after.events ≡ 1
    pub base : BackupReport
    pub verified : IsVerified loads casefold sha256 answers udid true base
    -- The service was left in time and its connection is closed, or the report does not say so.
    pub closed : Bool
    pub closed_iff : (closed ≡ true) ↔ WasClosed env
    pub reported : report ≡ record base { mobilebackup_connection_closed = some closed }

  create_parts :
      (identifier : Value) (output : Output) (answers : Answers) (udid : Text)
      (report : BackupReport)
      → udid_of identifier ≡ done udid
      → (create_backup loads casefold sha256 env identifier output answers start).0 ≡ done report
      → let first = (encryption_status env start).1 in
        let second = (reserve_output_root output first).1 in
        ((encryption_status env start).0 ≡ done true)
        × ((reserve_output_root output first).0 ≡ done tt)
        × (create_backup loads casefold sha256 env identifier output answers start
            ≡ request_and_validate loads casefold sha256 env udid answers second)
  unfolding create_backup
  create_parts identifier output answers udid report known h = ground arith

  udid_found :
      (identifier : Value) (output : Output) (answers : Answers) (report : BackupReport)
      → (create_backup loads casefold sha256 env identifier output answers start).0 ≡ done report
      → (udid : Text) × (udid_of identifier ≡ done udid)
  unfolding create_backup
  udid_found identifier output answers report h = elim (result_cases (udid_of identifier)) [
    | inl (udid, found) ↦ (udid, found)
    | inr (e, raised) ↦ absurd (h_raised e raised h)
  ]
    where
      h_raised :
          (e : Exception)
          → udid_of identifier ≡ raise e
          → (create_backup loads casefold sha256 env identifier output answers start).0
            ≢ done report
      h_raised e raised returned = ground (arith, raised, returned)

  -- If create_backup returns a report, the identifier is a text with one path component, encryption
  -- was on, the output had a name, nothing was there, this run created it and its ancestors are
  -- directories without links, one backup was requested and ended without an exception, and the
  -- report is that of a verified full backup, which says that the connection is closed exactly if
  -- the service was left in time and had closed it.
  pub create_backup-IsFresh :
      (identifier : Value) (output : Output) (answers : Answers) (report : BackupReport)
      → (create_backup loads casefold sha256 env identifier output answers start).0 ≡ done report
      → IsFresh identifier output answers report
          (create_backup loads casefold sha256 env identifier output answers start).1
  create_backup-IsFresh identifier output answers report h =
      let (udid, found) = udid_found identifier output answers report h in
      let (enabled, reserved, whole) = create_parts identifier output answers udid report found h in
      let first = (encryption_status env start).1 in
      let second = (reserve_output_root output first).1 in
      let (result, after) = request_result udid answers second in
      let service = run_mobilebackup_service env (call request_backup env.backup) second in
      let (closed, base, served, accepted, is) =
        combined_done service.0
          (as_verification (validate_backup loads casefold sha256 answers udid true)) report
          (sym result ∙ (ap (λ (x : Result BackupReport × Run). x.0) (sym whole) ∙ h)) in
      let (still, said) = status_lem env start in
      let (counted, ended, closed_iff) = service_lem env second closed served in
      let (identified, _) = udid_of_lem identifier udid found in
      record {
        udid = udid;
        identified = identified;
        on = said enabled;
        own = reserve_output_root-IsOwnOutput output first reserved;
        ended = ended;
        once =
            ap (λ (x : Result BackupReport × Run). backups x.1.events) whole
            ∙ (ap (λ (run : Run). backups run.events) after
                ∙ (counted
                    ∙ ap (λ (n : ℕ). suc n) (reserve_output_root_still output first ∙ still)));
        base = base;
        verified =
            validate_backup-IsVerified loads casefold sha256 answers udid true base
              (as_verification_done _ base accepted);
        closed = closed;
        closed_iff = closed_iff;
        reported = is;
      }
