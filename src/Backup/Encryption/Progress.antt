-- ===== src/Backup/Encryption/Progress.antt =====
-- That `enable_encryption` of src/ios_rehydrate/backup.py gets through when nothing stands in its way.
use ios_rehydrate.Prelude.{
  ℕ, suc, ◌≡◌, ◌≢◌, ◌&&◌, refl, ap, ◌∙◌, Bool, true, false, some, [], ◌∷◌, is_nil, arith,
}
use ios_rehydrate.Prelude.Bytes.{Text, eq_text_refl}
use ios_rehydrate.Prelude.Values.{text, boolean}
use ios_rehydrate.Errors.{Exception, Result, done, raise, ◌>>=◌, raise_if}
use ios_rehydrate.Effects.{finished, within_time}
use ios_rehydrate.Backup.{Metadata, is_plain_directory, has_safe_chain}
use ios_rehydrate.Backup.Verify.{safe_existing_directory}
use ios_rehydrate.Backup.Service.{
  is_done, pair, Run, start, Environment, encryption_status, status_in_time,
  run_mobilebackup_service, reserve_private_scratch, remove_empty_private_scratch,
}
use ios_rehydrate.Backup.Encryption.{
  EnableReport, report, agreed_password, request_change, request, requested, confirm_request,
  confirm, request_and_confirm, enter_password, enable_with, enable, enable_encryption,
}
use ios_rehydrate.Backup.Encryption.Requests.{
  changes, encryption_status_lem, enter_password_lem, reserve_private_scratch_still,
  remove_empty_private_scratch_still, status_in_time_lem,
}
use ios_rehydrate.Backup.Encryption.Outcome.{IsOrderly, remove_returns}

-- The device is reachable and not encrypted, the operator enters a password twice, and the calls return.
pub record IsFavourable (env : Environment) (password : Text) : Type 0 where
  pub off_first : env.status 0 ≡ done (boolean false)
  pub off_second : env.status 1 ≡ done (boolean false)
  pub on_third : env.status 2 ≡ done (boolean true)
  pub in_time : env.late 2 ≡ false
  pub safe : has_safe_chain env.directory.chain ≡ done true
  pub root : Text
  pub resolved : env.directory.resolved ≡ done root
  pub entered : env.password ≡ done (pair (text password) (text password))
  pub filled : is_nil password ≡ false
  pub before : Metadata
  pub before_is : env.parent_before ≡ done before
  pub before_plain : is_plain_directory before ≡ true
  pub made : env.scratch_made ≡ done true
  pub after : Metadata
  pub after_is : env.parent_after ≡ done after
  pub after_plain : is_plain_directory after ≡ true
  pub scratch : Metadata
  pub scratch_is : env.scratch_stat ≡ done scratch
  pub scratch_plain : is_plain_directory scratch ≡ true
  pub enters : env.service_enter ≡ done tt
  pub changes_it : env.change ≡ finished (done tt)

module _ (env : Environment) (password : Text) (f : IsFavourable env password) where
  status_off :
      (run : Run)
      → env.status run.asked ≡ done (boolean false)
      → let (r, after) = encryption_status env run in
        (r ≡ done false) × (after.asked ≡ suc run.asked)
  unfolding encryption_status
  status_off run h = (ground arith, ground arith)

  status_on :
      (run : Run)
      → env.status run.asked ≡ done (boolean true)
      → env.late run.asked ≡ false
      → (status_in_time env run).0 ≡ done true
  unfolding encryption_status status_in_time
  status_on run h late = ground arith

  reserved : (run : Run) → (reserve_private_scratch env run).0 ≡ done tt
  unfolding reserve_private_scratch
  reserved run =
      rw
        (
          f.before_is, f.made, f.after_is, f.scratch_is, f.before_plain, f.after_plain,
          f.scratch_plain,
        )
        refl

  agreed : agreed_password (pair (text password) (text password)) ≡ done password
  unfolding agreed_password
  agreed = rw (f.filled, eq_text_refl password) refl

  password_entered :
      (run : Run)
      → let (r, after) = enter_password env run in (r ≡ done password) × (after.asked ≡ run.asked)
  unfolding enter_password safe_existing_directory ◌>>=◌ raise_if
  password_entered run = (rw (f.safe, f.resolved, f.entered, agreed) refl, ground arith)

  abbrev served : Bool
  served = is_done env (within_time env.service_exit) && env.connection_closed

  service_once :
      (run : Run)
      → let (r, after) = run_mobilebackup_service env (request_change env password) run in
        (r ≡ done served)
        × (after.asked ≡ run.asked)
        × (changes after.events ≡ ([], password) ∷ changes run.events)
  unfolding run_mobilebackup_service
  service_once run =
      (rw (f.enters, f.changes_it) refl, ground (arith, f.enters), ground (arith, f.enters))

  requested_once :
      (run : Run)
      → let (r, after) = request env password run in
        (r ≡ done (record { service_closed = served; reconciled = false }))
        × (after.asked ≡ run.asked)
        × (changes after.events ≡ ([], password) ∷ changes run.events)
  unfolding request
  requested_once run =
      let (sent, count, asked) = service_once run in
      (ground (arith, sent), ground (arith, sent, count), ground (arith, sent, asked))

  must_return : (x : Result Bool) → ((e : Exception) → x ≢ raise e) → (b : Bool) × (x ≡ done b)
  must_return (done b) h = (b, refl)
  must_return (raise e) h = absurd (h e refl)

  module _ (orderly : IsOrderly env) where
    abbrev asked_once : Run → Run
    asked_once run = (request env password run).1

    confirmed :
        (run : Run)
        → env.status run.asked ≡ done (boolean true)
        → env.late run.asked ≡ false
        → let (r, after) = request_and_confirm env password run in
          ((report : EnableReport) × (r ≡ done report))
          × (changes after.events ≡ ([], password) ∷ changes run.events)
    unfolding request_and_confirm requested confirm confirm_request
    confirmed run on late =
        let (sent, count, asked) = requested_once run in
        let (removed, gone) =
          must_return (remove_empty_private_scratch env (asked_once run)).0
            (remove_returns env orderly (asked_once run)) in
        let (still, kept) = remove_empty_private_scratch_still env (asked_once run) in
        let last = (remove_empty_private_scratch env (asked_once run)).1 in
        let same = kept ∙ count in
        let on_last = status_on last (ap env.status same ∙ on) (ap env.late same ∙ late) in
        let (quiet, _, _) = status_in_time_lem env last in
        (
          (report env served removed, ground (arith, sent, gone, on_last)),
          ground (arith, sent, gone, on_last, quiet, still, asked),
        )

    -- If the device answers, is not encrypted before the request and is encrypted at the third
    -- query, which keeps its time, the operator enters the same nonempty password twice, the
    -- directories are plain ones, the service and the change request return, and the removal of the
    -- scratch directory fails by OSError only, then enable_encryption returns a report, and it has
    -- requested exactly one change, from the empty password to that one.
    pub enable_encryption-succeeds :
        let (r, after) = enable_encryption env start in
        ((report : EnableReport) × (r ≡ done (some report)))
        × (changes after.events ≡ ([], password) ∷ [])
    unfolding enable_encryption enable enable_with
    enable_encryption-succeeds =
        let (off, one) = status_off start f.off_first in
        let first = (encryption_status env start).1 in
        let (typed, still_one) = password_entered first in
        let second = (enter_password env first).1 in
        let (off_again, two) = status_off second (ap env.status (still_one ∙ one) ∙ f.off_second) in
        let third = (encryption_status env second).1 in
        let (quiet, kept) = reserve_private_scratch_still env third in
        let (quiet_third, _, _) = encryption_status_lem env second in
        let (quiet_second, _, _) = enter_password_lem env first in
        let (quiet_first, _, _) = encryption_status_lem env start in
        let none_yet = quiet ∙ (quiet_third ∙ (quiet_second ∙ quiet_first)) in
        let ready = (reserve_private_scratch env third).1 in
        let asked = kept ∙ (two ∙ ap (λ (n : ℕ). suc n) (still_one ∙ one)) in
        let (reports, once) =
          confirmed ready (ap env.status asked ∙ f.on_third) (ap env.late asked ∙ f.in_time) in
        let (report, is) = reports in
        (
          (report, ground (arith, off, typed, off_again, reserved third, is)),
          ground (arith, off, typed, off_again, reserved third, is, once, none_yet),
        )
