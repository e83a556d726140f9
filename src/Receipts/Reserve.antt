-- ===== src/Receipts/Reserve.antt =====
-- src/ios_rehydrate/receipts.py: the names that a receipt may have, the directory that holds it, and the
-- functions `reserve_receipt`, `write_new_receipt` and `envelope`. `str.upper`, the version of the tool
-- and the current time are arguments.
use mathlib.Core.List.{reverse}
use ios_rehydrate.Prelude.{
  ℕ, ⊤, Bool, true, false, not, ◌||◌, Option, none, some, List, [], ◌∷◌, ◌++◌, any, is_nil, ltb,
  ◌==◌, if◌then◌else◌,
}
use ios_rehydrate.Prelude.Bytes.{Bytes, Text, codes, eq_text, elem}
use ios_rehydrate.Prelude.Texts.{has, ends_with}
use ios_rehydrate.Prelude.Values.{Fields, text, dict, end, field}
use ios_rehydrate.Errors.{Exception, os_error, error, io, Result, done, raise}
use ios_rehydrate.Effects.{Step, pure, throw, lift, throw_if, ◌>>=◌, ◌>>◌, handle_with, is_os_error}
use ios_rehydrate.Receipts.Files.{Process, Environment, fstat, create}
use ios_rehydrate.Receipts.{Reservation, Session, assert_identity, commit, abort}

-- `_WINDOWS_INVALID_LEAF_CHARACTERS`
abbrev pub windows_invalid_leaf_characters : Text
windows_invalid_leaf_characters = codes "<>:\"/\\|?*"

abbrev pub digits : Text
digits = codes "123456789¹²³"

abbrev pub numbered : Text → Text → List Text
numbered prefix [] = []
numbered prefix (c ∷ cs) = (prefix ++ c ∷ []) ∷ numbered prefix cs

-- `_WINDOWS_RESERVED_NAMES`; "¹", "²" and "³" are among the digits.
abbrev pub windows_reserved_names : List Text
windows_reserved_names =
    codes "CON"
    ∷ codes "PRN"
    ∷ codes "AUX"
    ∷ codes "NUL"
    ∷ codes "CLOCK$"
    ∷ codes "CONIN$"
    ∷ codes "CONOUT$"
    ∷ (numbered (codes "COM") digits ++ numbered (codes "LPT") digits)

-- `str.lstrip(characters)` and `str.rstrip(characters)`
unfoldable pub lstrip_of : Text → Text → Text
lstrip_of characters [] = []
lstrip_of characters (c ∷ cs) =
    let rest = lstrip_of characters cs in if has c characters then rest else c ∷ cs

unfoldable pub rstrip_of : Text → Text → Text
unfolding lstrip_of
rstrip_of characters cs = reverse (lstrip_of characters (reverse cs))

-- `str.split(separator, 1)[0]`
abbrev pub before : ℕ → Text → Text
before separator [] = []
before separator (c ∷ cs) = if c == separator then [] else c ∷ before separator cs

module _ (upper : Text → Text) where
  -- `_is_windows_reserved_leaf`
  unfoldable pub is_windows_reserved_leaf : Text → Bool
  unfolding elem rstrip_of
  is_windows_reserved_leaf leaf =
      elem (upper (before b'.' (rstrip_of (codes " .") leaf))) windows_reserved_names

  -- The test of `reserve_receipt` on the last component of the path
  unfoldable pub is_invalid_leaf : Text → Bool
  unfolding is_windows_reserved_leaf eq_text ends_with
  is_invalid_leaf leaf =
      is_nil leaf
      || eq_text leaf (codes ".")
      || eq_text leaf (codes "..")
      || any (λ c. has c windows_invalid_leaf_characters) leaf
      || any (λ c. ltb c 32) leaf
      || ends_with leaf (codes " ")
      || ends_with leaf (codes ".")
      || is_windows_reserved_leaf leaf

-- What `os.lstat` says of an ancestor.
pub record Ancestor : Type 0 where
  pub directory : Bool
  pub link : Bool
  pub reparse : Bool

-- `_existing_directory_without_links`, from the answers of `os.lstat` for the ancestors, outermost
-- first, and the one of `Path.resolve`
unfoldable pub existing_directory_without_links : List (Result Ancestor) → Result ⊤ → Result ⊤
existing_directory_without_links [] resolved = resolved
existing_directory_without_links (raise e ∷ answers) resolved = raise e
existing_directory_without_links (done metadata ∷ answers) resolved =
    let rest = existing_directory_without_links answers resolved in
    if not metadata.directory || metadata.link || metadata.reparse then raise os_error else rest

-- `try: m; except OSError as exc: raise e from exc`
abbrev pub refusing : {S A : Type 0} → Exception → Step S A → Step S A
refusing e m = handle_with m λ x. if is_os_error x then throw e else throw x

module _ (env : Environment) where
  -- `except BaseException: reservation.abort(); raise`
  abbrev pub or_abort : {A : Type 0} → Step Session A → Step Session A
  or_abort m = handle_with m λ e. abort env >> throw e

  -- The `__init__` of a reservation, for a descriptor
  abbrev pub reservation_of : ℕ → Step Process Reservation
  reservation_of d = do
    metadata ← fstat env d
    pure (record {
      descriptor = some d;
      identity = metadata.identity;
      operation_started = false;
      committed = false;
    })

  -- A new object is used for `m`, and handed back beside what it returns.
  abbrev pub with_reservation :
      {A : Type 0} → Step Session A → Reservation → Step Process Reservation
  with_reservation m reservation p =
      let (r, s) = m (record { reservation = reservation; process = p }) in
      elim r [ done a ↦ (done s.reservation, s.process) | raise e ↦ (raise e, s.process) ]

  abbrev pub reserved : Option ℕ → Step Process Reservation
  reserved none = throw (error io "RECEIPT_EXISTS")
  reserved (some d) = do
    reservation ← reservation_of d
    with_reservation (or_abort (assert_identity env true none)) reservation

  -- `reserve_receipt`: the last component of the path, and what is found of its directory
  unfoldable pub reserve_receipt :
      (Text → Text) → Text → List (Result Ancestor) → Result ⊤ → Step Process Reservation
  reserve_receipt upper leaf ancestors resolved = do
    throw_if (is_invalid_leaf upper leaf) (error io "RECEIPT_PATH_INVALID")
    refusing (error io "RECEIPT_PARENT_INVALID")
        (lift (existing_directory_without_links ancestors resolved))
    created ← refusing (error io "RECEIPT_RESERVATION_FAILED") (create env)
    reserved created

  -- `write_new_receipt`
  unfoldable pub write_new_receipt :
      (Text → Text)
      → Text
      → List (Result Ancestor)
      → Result ⊤
      → Result Bytes
      → Step Process Reservation
  unfolding reserve_receipt
  write_new_receipt upper leaf ancestors resolved encoded = do
    reservation ← reserve_receipt upper leaf ancestors resolved
    with_reservation (or_abort (commit env encoded)) reservation

abbrev pub schema : Text
schema = codes "urn:ios-rehydrate:receipt:v1"

-- `envelope`
unfoldable pub envelope : Text → Text → Text → Fields → Fields
envelope version now kind evidence = field (codes "schema") (text schema) (
    field (codes "tool") (text (codes "ios-rehydrate")) (
      field (codes "tool_version") (text version) (
        field (codes "kind") (text kind)
          (field (codes "created_at") (text now) (field (codes "evidence") (dict evidence) end)))))
