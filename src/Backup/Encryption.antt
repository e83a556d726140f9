-- ===== src/Backup/Encryption.antt =====
-- src/ios_rehydrate/backup.py: `enable_encryption`.
pub mod Requests
pub mod Outcome
pub mod Progress
use ios_rehydrate.Prelude.{
  ℕ, suc, ⊤, ◌≡◌, Bool, true, false, not, ◌&&◌, ◌||◌, Option, none, some, List, [], ◌∷◌, is_nil,
  if◌then◌else◌,
}
use ios_rehydrate.Prelude.Bytes.{Text, eq_text}
use ios_rehydrate.Prelude.Values.{Value, text}
use ios_rehydrate.Errors.{
  Exception, base, error, io, policy_refused, confirmation, outcome_unknown, backup_create, Result,
  done, raise,
}
use ios_rehydrate.Effects.{
  Step, within_time, pure, throw, lift, assign, throw_if, ◌>>=◌, ◌>>◌, handle_with,
}
use ios_rehydrate.Backup.Verify.{safe_existing_directory}
use ios_rehydrate.Backup.Service.{
  Event, ask_password, change_password, Run, Supplied, pair, other_object, Environment, call,
  or_exception, encryption_status, status_in_time, run_mobilebackup_service,
  reserve_private_scratch, remove_empty_private_scratch,
}

-- `EncryptionEnableReport`
pub record EnableReport : Type 0 where
  pub mobilebackup_connection_closed : Bool
  pub scratch_removed : Bool

-- The password, if both entries are the same text and not empty
unfoldable pub agreed_password : Supplied → Result Text
agreed_password (pair (text first) (text second)) =
    if is_nil first || not (eq_text first second)
    then raise (error confirmation "BACKUP_PASSWORD_MISMATCH")
    else done first
agreed_password _ = raise (error confirmation "BACKUP_PASSWORD_MISMATCH")

abbrev pub unknown : Exception
unknown = error outcome_unknown "BACKUP_ENCRYPTION_OUTCOME_UNKNOWN"

-- Whether the connection was closed, and whether the request failed and the state was read after it
pub record Request : Type 0 where
  pub service_closed : Bool
  pub reconciled : Bool

module _ (env : Environment) where
  -- `except (Exception, asyncio.CancelledError, KeyboardInterrupt): raise e`
  abbrev pub whatever_raised : {A : Type 0} → Exception → Step Run A → Step Run A
  whatever_raised e m = handle_with m λ x. throw e

  -- `_reconcile_encryption_enable`
  unfoldable pub reconcile_encryption_enable : Step Run Bool
  reconcile_encryption_enable = whatever_raised unknown (status_in_time env)

  -- `request_change`
  abbrev pub request_change : Text → Step Run ⊤
  request_change password = call (change_password [] password) (within_time env.change)

  -- The `except` block round the request
  unfoldable pub reconcile : Step Run Request
  reconcile = do
    enabled ← reconcile_encryption_enable
    throw_if (not enabled) unknown
    pure (record { service_closed = false; reconciled = true })

  -- The `try` and `except` blocks
  unfoldable pub request : Text → Step Run Request
  request password =
      handle_with
        (do
          closed ← run_mobilebackup_service env (request_change password)
          pure (record { service_closed = closed; reconciled = false }))
        λ e. reconcile

  -- The whole statement: `finally` removes the scratch directory in any case.
  unfoldable pub requested : Text → Step Run (Request × Bool)
  requested password run =
      let (outcome, after) = request password run in
      let (removed, last) = remove_empty_private_scratch env after in
      elim removed [
        | raise e ↦ (raise e, last)
        | done r ↦ elim outcome [ raise e ↦ (raise e, last) | done q ↦ (done (q, r), last) ]
      ]

  abbrev pub report : Bool → Bool → EnableReport
  report closed removed = record {
    mobilebackup_connection_closed = closed;
    scratch_removed = removed;
  }

  -- The confirmation after a request that raised nothing
  unfoldable pub confirm_request : Request → Bool → Step Run EnableReport
  confirm_request q removed = do
    enabled ← whatever_raised unknown (status_in_time env)
    throw_if (not enabled) (error backup_create "BACKUP_ENCRYPTION_ENABLE_UNCONFIRMED")
    pure (report q.service_closed removed)

  unfoldable pub confirm : Request × Bool → Step Run EnableReport
  confirm (q, removed) run =
      if q.reconciled then (done (report false removed), run) else confirm_request q removed run

  -- The password entry
  unfoldable pub enter_password : Step Run Text
  enter_password = do
    lift (safe_existing_directory (error io "BACKUP_PARENT_INVALID") env.directory)
    supplied ←
        or_exception (error confirmation "BACKUP_PASSWORD_UNAVAILABLE")
          (call ask_password env.password)
    lift (agreed_password supplied)

  unfoldable pub request_and_confirm : Text → Step Run EnableReport
  request_and_confirm password = do outcome ← requested password; confirm outcome

  -- What follows the password entry
  unfoldable pub enable_with : Text → Step Run EnableReport
  enable_with password = do
    enabled ← encryption_status env
    throw_if enabled (error policy_refused "BACKUP_ENCRYPTION_STATE_CHANGED")
    reserve_private_scratch env
    request_and_confirm password

  -- What follows once the device has said that encryption is off
  unfoldable pub enable : Step Run EnableReport
  enable = do password ← enter_password; enable_with password

  abbrev pub enable_unless : Bool → Step Run (Option EnableReport)
  enable_unless true = pure none
  enable_unless false = do report ← enable; pure (some report)

  -- `enable_encryption`
  unfoldable pub enable_encryption : Step Run (Option EnableReport)
  enable_encryption = do enabled ← encryption_status env; enable_unless enabled
