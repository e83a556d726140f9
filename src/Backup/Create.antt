-- ===== src/Backup/Create.antt =====
-- src/ios_rehydrate/backup.py: `preflight_backup_output`, `_reserve_output_root` and `create_backup`.
pub mod Fresh
use ios_rehydrate.Prelude.{
  ℕ, ⊤, ◌≡◌, Bool, true, false, not, ◌||◌, Option, none, some, List, [], ◌∷◌, is_nil, if◌then◌else◌,
}
use ios_rehydrate.Prelude.Bytes.{Bytes, Text, codes, eq_text}
use ios_rehydrate.Prelude.Values.{Value, text}
use ios_rehydrate.Errors.{
  Exception, rehydrate, error, io, device_selection, policy_refused, backup_create, Result, done,
  raise,
}
use ios_rehydrate.Effects.{Step, pure, throw, lift, throw_if, ◌>>=◌, ◌>>◌, handle_with, is_os_error}
use ios_rehydrate.Backup.{Metadata, verify_error, is_single_component, has_safe_chain}
use ios_rehydrate.Backup.Verify.{
  Directory, safe_existing_directory, Parsed, BackupReport, Answers, validate_backup,
}
use ios_rehydrate.Backup.Service.{
  Event, make_output, request_backup, Run, Environment, call, encryption_status,
  run_mobilebackup_service,
}
use ios_rehydrate.Backup.Encryption.{whatever_raised}

-- `mkdir`, with `FileExistsError` apart
pub data Making : Type 0 where
  made exists_already : Making
  failed : Exception → Making

-- The directory that the backup shall be made in: its name, its parent, whether something is there, its
-- creation, and the directories up to it afterwards
pub record Output : Type 0 where
  pub name : Text
  pub parent : Directory
  pub exists : Bool
  pub making : Making
  pub chain : List (Result Metadata)

-- `preflight_backup_output`
unfoldable pub preflight_backup_output : Output → Result ⊤
preflight_backup_output output =
    if is_nil output.name || eq_text output.name (codes ".") || eq_text output.name (codes "..")
    then raise (error io "BACKUP_OUTPUT_INVALID")
    else elim (safe_existing_directory (error io "BACKUP_PARENT_INVALID") output.parent) [
      | raise e ↦ raise e
      | done parent ↦ if output.exists then raise (error io "BACKUP_OUTPUT_EXISTS") else done tt
    ]

abbrev pub making_result : Making → Result ⊤
making_result made = done tt
making_result exists_already = raise (error io "BACKUP_OUTPUT_RACE")
making_result (failed e) =
    if is_os_error e then raise (error io "BACKUP_OUTPUT_CREATE_FAILED") else raise e

-- `_reserve_output_root`
unfoldable pub reserve_output_root : Output → Step Run ⊤
reserve_output_root output = do
  lift (preflight_backup_output output)
  call make_output (making_result output.making)
  safe ← lift (has_safe_chain output.chain)
  throw_if (not safe) (error policy_refused "BACKUP_PATH_UNSAFE")

-- The identifier of the device that is connected
unfoldable pub udid_of : Value → Result Text
udid_of (text udid) =
    if is_single_component udid
    then done udid
    else raise (error device_selection "BACKUP_DEVICE_IDENTIFIER_INVALID")
udid_of _ = raise (error device_selection "BACKUP_DEVICE_IDENTIFIER_INVALID")

-- `except RehydrateError as exc`: the status is that of a verification.
abbrev pub as_verification : Result BackupReport → Result BackupReport
as_verification (raise (rehydrate e)) = raise (verify_error e.reason)
as_verification r = r

module _ (loads : Bytes → Parsed) (casefold : Text → Text) (sha256 : Text → Text)
    (env : Environment) where
  abbrev pub incomplete : Exception
  incomplete = error backup_create "BACKUP_CREATE_INCOMPLETE"

  -- The request, and the validation of what it has made
  unfoldable pub request_and_validate : Text → Answers → Step Run BackupReport
  request_and_validate udid answers = do
    closed ←
        whatever_raised env incomplete
          (run_mobilebackup_service env (call request_backup env.backup))
    report ← lift (as_verification (validate_backup loads casefold sha256 answers udid true))
    pure (record report { mobilebackup_connection_closed = some closed })

  -- `create_backup`; `answers` is what the file system says when the request has ended.
  unfoldable pub create_backup : Value → Output → Answers → Step Run BackupReport
  create_backup identifier output answers = do
    udid ← lift (udid_of identifier)
    enabled ← encryption_status env
    throw_if (not enabled) (error policy_refused "BACKUP_ENCRYPTION_REQUIRED")
    reserve_output_root output
    request_and_validate udid answers
