-- ===== src/Backup.antt =====
-- src/ios_rehydrate/backup.py: what its functions ask of the file system, and the tests that they share. The
-- answers of the calls are arguments.
pub mod Payload
pub mod Verify
pub mod Service
pub mod Encryption
pub mod Create
mod Tests
use Prim.Native.String.{String}
use ios_rehydrate.Prelude.{
  ℕ, suc, ⊤, ◌≡◌, Bool, true, false, not, ◌&&◌, ◌||◌, List, [], ◌∷◌, is_nil, ltb, if◌then◌else◌,
}
use ios_rehydrate.Prelude.Bytes.{Text, codes, eq_text}
use ios_rehydrate.Prelude.Texts.{has, ends_with}
use ios_rehydrate.Errors.{
  Exception, ExitCode, value_error, error, backup_verify, Result, done, raise, ◌>>◌, raise_if,
}
use ios_rehydrate.Effects.{is_os_error}

-- `_verify_error`
abbrev pub verify_error : String → Exception
verify_error reason = error backup_verify reason

-- `os.stat_result`, as far as the code reads it
pub record Metadata : Type 0 where
  pub regular : Bool
  pub directory : Bool
  pub link : Bool
  pub reparse : Bool
  pub size : ℕ

-- `_is_reparse`
unfoldable pub is_reparse : Metadata → Bool
is_reparse metadata = metadata.link || metadata.reparse

unfoldable pub is_plain_directory : Metadata → Bool
is_plain_directory metadata = metadata.directory && not (is_reparse metadata)

-- What `os.scandir` yields, one entry after the other; the iteration may break off.
pub data Listing (E : Type 0) : Type 0 where
  stop : Listing E
  broken : Exception → Listing E
  entry : E → Listing E → Listing E

-- `_DirectoryEntryBudget.consume`, from the number of entries inspected before
unfoldable pub consume : ℕ → ℕ → Result ℕ
consume limit inspected = do
  raise_if (ltb limit (suc inspected)) (verify_error "BACKUP_DIRECTORY_ENTRY_LIMIT")
  done (suc inspected)

-- `try: m; except OSError as exc: raise e from exc`
abbrev pub or_os_error : {A : Type 0} → Exception → Result A → Result A
or_os_error e (done a) = done a
or_os_error e (raise x) = if is_os_error x then raise e else raise x

-- `_is_single_component`. A text without separators, colons and zeros that is neither empty nor made of
-- dots is its own `Path.name`, and its path has no anchor.
unfoldable pub is_single_component : Text → Bool
is_single_component value =
    not (is_nil value)
    && not (eq_text value (codes "."))
    && not (eq_text value (codes ".."))
    && not (has b'\\' value)
    && not (has b'/' value)
    && not (has 0 value)
    && not (has b':' value)
    && not (ends_with value (codes " "))
    && not (ends_with value (codes "."))

abbrev is_value_error : Exception → Bool
is_value_error value_error = true
is_value_error _ = false

-- The loop of `_has_safe_directory_chain`, from the answers of `os.lstat` for the anchor and the
-- directories below it
unfoldable pub has_safe_chain : List (Result Metadata) → Result Bool
has_safe_chain [] = done true
has_safe_chain (raise e ∷ answers) =
    if is_os_error e || is_value_error e then done false else raise e
has_safe_chain (done metadata ∷ answers) =
    let rest = has_safe_chain answers in if is_plain_directory metadata then rest else done false
