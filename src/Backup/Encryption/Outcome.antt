-- ===== src/Backup/Encryption/Outcome.antt =====
-- What the result of `enable_encryption` of src/ios_rehydrate/backup.py says of the device.
use mathlib.Core.Path.{subst}
use ios_rehydrate.Prelude.{
  ℕ, suc, ◌≡◌, ◌≢◌, refl, ◌⊎◌, inl, Bool, true, false, Option, none, some, [], arith,
}
use ios_rehydrate.Prelude.Bytes.{Text}
use ios_rehydrate.Prelude.Values.{boolean}
use ios_rehydrate.Errors.{Exception, error, backup_create, Result, done, raise}
use ios_rehydrate.Effects.{within_time, is_os_error}
use ios_rehydrate.Backup.Service.{
  failing, unremoved, Run, start, Environment, encryption_status, run_mobilebackup_service,
  reserve_private_scratch, remove_empty_private_scratch,
}
use ios_rehydrate.Backup.Encryption.{
  EnableReport, Request, unknown, reconcile_encryption_enable, reconcile, request_change, request,
  requested, confirm_request, confirm, request_and_confirm, enter_password, enable_with, enable,
  enable_unless, enable_encryption,
}
use ios_rehydrate.Backup.Encryption.Requests.{
  changes, encryption_status_lem, status_in_time_lem, reserve_private_scratch_still,
  remove_empty_private_scratch_still, service-Asks, reconcile_lem, enter_password_lem,
}

abbrev pub unconfirmed : Exception
unconfirmed = error backup_create "BACKUP_ENCRYPTION_ENABLE_UNCONFIRMED"

-- The calls on the scratch directory fail by an `OSError` only.
pub record IsOrderly (env : Environment) : Type 0 where
  pub look : (e : Exception) → env.scratch_look ≡ failing e → is_os_error e ≡ true
  pub removal : (e : Exception) → env.scratch_removal ≡ unremoved e → is_os_error e ≡ true
  pub again : (e : Exception) → env.scratch_again ≡ failing e → is_os_error e ≡ true

module _ (env : Environment) where
  -- The n-th query has answered that encryption is on.
  abbrev pub SaidOn : ℕ → Type 0
  SaidOn n = env.status n ≡ done (boolean true)

  -- The service was left in time and its connection is closed.
  abbrev pub WasClosed : Type 0
  WasClosed = (within_time env.service_exit ≡ done tt) × (env.connection_closed ≡ true)

  abbrev pub IsUncertain : Exception → Type 0
  IsUncertain e = (e ≡ unknown) ⊎ (e ≡ unconfirmed)

  service_closed :
      (password : Text) (run : Run) (closed : Bool)
      → (run_mobilebackup_service env (request_change env password) run).0 ≡ done closed
      → closed ≡ true
      → WasClosed
  unfolding run_mobilebackup_service
  service_closed password run closed h c = ground arith

  reconcile_raises : (run : Run) (e : Exception) → (reconcile env run).0 ≡ raise e → e ≡ unknown
  unfolding reconcile reconcile_encryption_enable
  reconcile_raises run e h = ground arith

  -- Of the request: the state was read after a failure, or the connection is what is said.
  request_lem :
      (password : Text) (run : Run)
      → let (r, after) = request env password run in
        ((q : Request)
          → r ≡ done q
          → ((q.reconciled ≡ true) × SaidOn run.asked)
            ⊎ ((q.reconciled ≡ false)
                × (after.asked ≡ run.asked)
                × (q.service_closed ≡ true → WasClosed)))
        × ((e : Exception) → r ≡ raise e → e ≡ unknown)
  unfolding request
  request_lem password run = (λ q h. returned q h, λ e h. raised e h)
    where
      returned :
          (q : Request)
          → (request env password run).0 ≡ done q
          → ((q.reconciled ≡ true) × SaidOn run.asked)
            ⊎ ((q.reconciled ≡ false)
                × ((request env password run).1.asked ≡ run.asked)
                × (q.service_closed ≡ true → WasClosed))
      returned q h =
          let (_, asked) = service-Asks env password run in
          let (_, read) =
            reconcile_lem env (run_mobilebackup_service env (request_change env password) run).1 in
          let closed = λ (c : Bool). service_closed password run c in
          grind (arith, asked, read, closed)

      raised : (e : Exception) → (request env password run).0 ≡ raise e → e ≡ unknown
      raised e h =
          let unknown_then =
            reconcile_raises (run_mobilebackup_service env (request_change env password) run).1 e in
          ground (arith, unknown_then)

  module _ (orderly : IsOrderly env) where
    pub remove_returns :
        (run : Run) (e : Exception) → (remove_empty_private_scratch env run).0 ≢ raise e
    unfolding remove_empty_private_scratch
    remove_returns run e h = grind (arith, orderly.look, orderly.removal, orderly.again)

    requested_lem :
        (password : Text) (run : Run)
        → let (r, after) = requested env password run in
          ((x : Request × Bool)
            → r ≡ done x
            → ((x.0.reconciled ≡ true) × SaidOn run.asked)
              ⊎ ((x.0.reconciled ≡ false)
                  × (after.asked ≡ run.asked)
                  × (x.0.service_closed ≡ true → WasClosed)))
          × ((e : Exception) → r ≡ raise e → e ≡ unknown)
    unfolding requested
    requested_lem password run =
        let (returned, raised) = request_lem password run in
        let (_, still) = remove_empty_private_scratch_still env (request env password run).1 in
        let removes = remove_returns (request env password run).1 in
        (λ x h. grind (arith, returned x.0, still), λ e h. grind (arith, raised e, removes))

    -- The end: what a report says, and what is raised
    confirm_lem :
        (x : Request × Bool) (run : Run) (n : ℕ)
        → ((x.0.reconciled ≡ true) × SaidOn n)
          ⊎ ((x.0.reconciled ≡ false) × (run.asked ≡ n) × (x.0.service_closed ≡ true → WasClosed))
        → let (r, after) = confirm env x run in
          ((report : EnableReport)
            → r ≡ done report
            → SaidOn n × (report.mobilebackup_connection_closed ≡ true → WasClosed))
          × ((e : Exception) → r ≡ raise e → IsUncertain e)
    unfolding confirm confirm_request
    confirm_lem (q, removed) run n outcome =
        let (_, _, said) = status_in_time_lem env run in
        (λ report h. (grind (arith, said), grind arith), λ e h. ground arith)

    then_confirmed :
        (x : Result (Request × Bool) × Run) (n : ℕ)
        → ((y : Request × Bool)
            → x.0 ≡ done y
            → ((y.0.reconciled ≡ true) × SaidOn n)
              ⊎ ((y.0.reconciled ≡ false)
                  × (x.1.asked ≡ n)
                  × (y.0.service_closed ≡ true → WasClosed)))
        → ((e : Exception) → x.0 ≡ raise e → e ≡ unknown)
        → let (r, after) = elim x.0 as (λ r. Result EnableReport × Run) [
          | done a ↦ confirm env a x.1
          | raise e ↦ (raise e, x.1)
        ] in
          ((report : EnableReport)
            → r ≡ done report
            → SaidOn n × (report.mobilebackup_connection_closed ≡ true → WasClosed))
          × ((e : Exception) → r ≡ raise e → IsUncertain e)
    then_confirmed (done y, run) n returned raised = confirm_lem y run n (returned y refl)
    then_confirmed (raise e, run) n returned raised =
        (λ report h. ground arith, λ x h. ground (arith, raised e refl))

    request_and_confirm_lem :
        (password : Text) (run : Run)
        → let (r, after) = request_and_confirm env password run in
          ((report : EnableReport)
            → r ≡ done report
            → SaidOn run.asked × (report.mobilebackup_connection_closed ≡ true → WasClosed))
          × ((e : Exception) → r ≡ raise e → IsUncertain e)
    unfolding request_and_confirm
    request_and_confirm_lem password run =
        let (returned, raised) = requested_lem password run in
        then_confirmed (requested env password run) run.asked returned raised

    -- What is known of a result: after the run `before`, with the n-th query for the confirmation
    record Tells (n : ℕ) (before : Run) (x : Result EnableReport × Run) : Type 0 where
      reported :
          (report : EnableReport)
          → x.0 ≡ done report
          → SaidOn n × (report.mobilebackup_connection_closed ≡ true → WasClosed)
      uncertain :
          (e : Exception)
          → x.0 ≡ raise e
          → (changes x.1.events ≡ changes before.events) ⊎ IsUncertain e

    abbrev prepared : Run → Run
    prepared run = (reserve_private_scratch env (encryption_status env run).1).1

    enable_with-Tells :
        (password : Text) (run : Run) → Tells (suc run.asked) run (enable_with env password run)
    unfolding enable_with
    enable_with-Tells password run =
        let (still, asked, said) = encryption_status_lem env run in
        let (kept, count) = reserve_private_scratch_still env (encryption_status env run).1 in
        let (returned, raised) = request_and_confirm_lem password (prepared run) in
        record {
          reported = λ report h. ground (arith, asked, count, returned report);
          uncertain = λ e h. ground (arith, still, kept, raised e);
        }

    entered-Tells :
        (x : Result Text × Run) (before : Run) (n : ℕ)
        → changes x.1.events ≡ changes before.events
        → x.1.asked ≡ n
        → Tells (suc n) before (elim x.0 as (λ r. Result EnableReport × Run) [
          | done a ↦ enable_with env a x.1
          | raise e ↦ (raise e, x.1)
        ])
    entered-Tells (done password, run) before n still asked =
        let tells = enable_with-Tells password run in
        record {
          reported = λ report h. ground (arith, asked, tells.reported report h);
          uncertain = λ e h. ground (arith, still, tells.uncertain e h);
        }
    entered-Tells (raise e, run) before n still asked = record {
      reported = λ report h. cc;
      uncertain = λ x h. inl still;
    }

    enable-Tells : (run : Run) → Tells (suc run.asked) run (enable env run)
    unfolding enable
    enable-Tells run =
        let (still, asked, _) = enter_password_lem env run in
        entered-Tells (enter_password env run) run run.asked still asked

    -- What the result of `enable_encryption` says
    pub record IsTruthful (x : Result (Option EnableReport) × Run) : Type 0 where
      pub already : x.0 ≡ done none → SaidOn 0 × (changes x.1.events ≡ [])
      pub enabled : (report : EnableReport) → x.0 ≡ done (some report) → SaidOn 2
      pub closed :
          (report : EnableReport)
          → x.0 ≡ done (some report)
          → report.mobilebackup_connection_closed ≡ true
          → WasClosed
      pub uncertain : (e : Exception) → x.0 ≡ raise e → (changes x.1.events ≡ []) ⊎ IsUncertain e

    wrapped-IsTruthful :
        (run : Run) (x : Result EnableReport × Run)
        → changes run.events ≡ []
        → Tells 2 run x
        → IsTruthful (elim x.0 as (λ r. Result (Option EnableReport) × Run) [
          | done a ↦ (done (some a), x.1)
          | raise e ↦ (raise e, x.1)
        ])
    wrapped-IsTruthful run (done report, after) none_yet tells = record {
      already = λ h. cc;
      enabled = λ other h. (tells.reported report refl).0;
      closed = λ other h c. ground (arith, (tells.reported report refl).1);
      uncertain = λ e h. cc;
    }
    wrapped-IsTruthful run (raise e, after) none_yet tells = record {
      already = λ h. cc;
      enabled = λ report h. cc;
      closed = λ report h c. cc;
      uncertain = λ x h. ground (arith, none_yet, tells.uncertain e refl);
    }

    unless-IsTruthful :
        (x : Result Bool × Run)
        → changes x.1.events ≡ []
        → x.1.asked ≡ 1
        → ((b : Bool) → x.0 ≡ done b → env.status 0 ≡ done (boolean b))
        → IsTruthful (elim x.0 as (λ r. Result (Option EnableReport) × Run) [
          | done a ↦ enable_unless env a x.1
          | raise e ↦ (raise e, x.1)
        ])
    unless-IsTruthful (done true, run) none_yet asked said = record {
      already = λ h. (said true refl, none_yet);
      enabled = λ report h. cc;
      closed = λ report h c. cc;
      uncertain = λ e h. cc;
    }
    unless-IsTruthful (done false, run) none_yet asked said =
        wrapped-IsTruthful run (enable env run) none_yet
          (subst (λ n. Tells (suc n) run (enable env run)) asked (enable-Tells run))
    unless-IsTruthful (raise e, run) none_yet asked said = record {
      already = λ h. cc;
      enabled = λ report h. cc;
      closed = λ report h c. cc;
      uncertain = λ x h. inl none_yet;
    }

    -- If the calls that remove the scratch directory fail by OSError only: where enable_encryption
    -- returns nothing, the first query said that encryption is on and no change was requested; where
    -- it returns a report, the third query said so, and the report claims a closed connection only
    -- if the service was left in time and had closed it; where it raises, no change was requested,
    -- or the exception is the unknown outcome or the unconfirmed one.
    pub enable_encryption-IsTruthful : IsTruthful (enable_encryption env start)
    unfolding enable_encryption
    enable_encryption-IsTruthful =
        let (still, asked, said) = encryption_status_lem env start in
        unless-IsTruthful (encryption_status env start) still asked said
