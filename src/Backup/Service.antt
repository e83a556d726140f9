-- ===== src/Backup/Service.antt =====
-- src/ios_rehydrate/backup.py: the calls of the device's services, recorded in order, and
-- `_run_mobilebackup_service`. What a call returns or raises is an `Environment`. `base` stands for the
-- cancellations and interruptions that the handlers name.
use ios_rehydrate.Prelude.{ℕ, suc, ⊤, Bool, true, false, not, ◌&&◌, List, [], ◌∷◌, if◌then◌else◌}
use ios_rehydrate.Prelude.Bytes.{Text}
use ios_rehydrate.Prelude.Values.{Value, boolean}
use ios_rehydrate.Errors.{
  Exception, base, error, io, device_unavailable, policy_refused, Result, done, raise,
}
use ios_rehydrate.Effects.{
  Step, Awaited, within_time, pure, throw, lift, throw_if, ◌>>=◌, ◌>>◌, handle_with, is_os_error,
}
use ios_rehydrate.Backup.{Metadata, is_plain_directory, or_os_error}
use ios_rehydrate.Backup.Verify.{Directory}

pub data Event : Type 0 where
  ask_status ask_password make_scratch remove_scratch make_output : Event
  open_service close_service request_backup : Event
  change_password : Text → Text → Event

-- The calls so far, the latest first, and the number of status queries among them
pub record Run : Type 0 where
  pub events : List Event
  pub asked : ℕ

abbrev pub start : Run
start = record { events = []; asked = 0 }

-- What `password_provider` returns.
pub data Supplied : Type 0 where
  pair : Value → Value → Supplied
  other_object : Supplied

-- `os.lstat` of the scratch directory: with whether its inode is the reserved one, or `FileNotFoundError`
pub data Looked : Type 0 where
  present : Metadata → Bool → Looked
  missing : Looked
  failing : Exception → Looked

-- `rmdir`
pub data Removal : Type 0 where
  removed absent : Removal
  unremoved : Exception → Removal

pub record Environment : Type 0 where
  -- The answer to the n-th status query, and whether a time limit on it is exceeded
  pub status : ℕ → Result Value
  pub late : ℕ → Bool
  pub directory : Directory
  pub password : Result Supplied
  -- The parent before and after the creation of the scratch directory, the creation with whether it stands in
  -- that parent and the inodes agree, and the directory itself
  pub parent_before : Result Metadata
  pub scratch_made : Result Bool
  pub parent_after : Result Metadata
  pub scratch_stat : Result Metadata
  pub service_enter : Result ⊤
  pub service_exit : Awaited ⊤
  -- `getattr(service, "device_link_connection_closed", True) is True`
  pub connection_closed : Bool
  pub change : Awaited ⊤
  pub backup : Result ⊤
  pub scratch_look : Looked
  pub scratch_removal : Removal
  pub scratch_again : Looked

abbrev pub call : {A : Type 0} → Event → Result A → Step Run A
call event outcome run = (outcome, record run { events = event ∷ run.events })

-- `except Exception as exc: raise e from exc`
abbrev pub or_exception : {A : Type 0} → Exception → Step Run A → Step Run A
or_exception e m = handle_with m λ x. elim x [ base ↦ throw base | _ ↦ throw e ]

abbrev pub status_value : Value → Result Bool
status_value (boolean b) = done b
status_value _ = raise (error device_unavailable "BACKUP_ENCRYPTION_STATUS_INVALID")

module _ (env : Environment) where
  -- `await lockdown.get_value(...)`
  abbrev pub get_value : Step Run Value
  get_value run =
      (env.status run.asked, record run { events = ask_status ∷ run.events; asked = suc run.asked })

  -- `encryption_status`
  unfoldable pub encryption_status : Step Run Bool
  encryption_status = do
    value ← or_exception (error device_unavailable "BACKUP_ENCRYPTION_STATUS_UNAVAILABLE") get_value
    lift (status_value value)

  -- `encryption_status` under a time limit
  unfoldable pub status_in_time : Step Run Bool
  status_in_time run =
      let (answer, after) = encryption_status run in
      (within_time (if env.late run.asked then Awaited.expired else Awaited.finished answer), after)

  abbrev pub is_done : {A : Type 0} → Result A → Bool
  is_done (done a) = true
  is_done (raise e) = false

  -- Leaving the service: what that raises never replaces what the operation raised.
  abbrev pub leave : Result ⊤ → Step Run Bool
  leave (done u) run = (
    done (is_done (within_time env.service_exit) && env.connection_closed),
    record run { events = close_service ∷ run.events },
  )
  leave (raise e) run = (raise e, record run { events = close_service ∷ run.events })

  -- `_run_mobilebackup_service`
  unfoldable pub run_mobilebackup_service : Step Run ⊤ → Step Run Bool
  run_mobilebackup_service operation = do
    call open_service env.service_enter
    λ run. let (outcome, after) = operation run in leave outcome after

  abbrev unsafe_scratch : Exception
  unsafe_scratch = error policy_refused "BACKUP_SCRATCH_UNSAFE"

  -- `_reserve_private_scratch`
  unfoldable pub reserve_private_scratch : Step Run ⊤
  reserve_private_scratch = do
    let failed = error io "BACKUP_SCRATCH_CREATE_FAILED"
    before ← lift (or_os_error failed env.parent_before)
    same ← call make_scratch (or_os_error failed env.scratch_made)
    after ← lift (or_os_error failed env.parent_after)
    scratch ← lift (or_os_error failed env.scratch_stat)
    throw_if
        (not (
          is_plain_directory before
          && is_plain_directory after
          && is_plain_directory scratch
          && same))
        unsafe_scratch

  abbrev pub false_if_os_error : Exception → Result Bool
  false_if_os_error e = if is_os_error e then done false else raise e

  -- The second look of `_remove_empty_private_scratch`
  abbrev pub gone : Looked → Result Bool
  gone missing = done true
  gone (present metadata same) = done false
  gone (failing e) = false_if_os_error e

  abbrev pub after_removal : Removal → Step Run Bool
  after_removal removed = call remove_scratch (gone env.scratch_again)
  after_removal absent = call remove_scratch (done true)
  after_removal (unremoved e) = call remove_scratch (false_if_os_error e)

  abbrev pub remove_if_own : Looked → Step Run Bool
  remove_if_own missing run = pure true run
  remove_if_own (failing e) run = lift (false_if_os_error e) run
  remove_if_own (present metadata same) run =
      if is_plain_directory metadata && same
      then after_removal env.scratch_removal run
      else pure false run

  -- `_remove_empty_private_scratch`
  unfoldable pub remove_empty_private_scratch : Step Run Bool
  remove_empty_private_scratch = remove_if_own env.scratch_look
