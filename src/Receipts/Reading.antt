-- ===== src/Receipts/Reading.antt =====
-- src/ios_rehydrate/receipts.py: `read_receipt`. What the file system answers, `json.loads`, the parser of
-- times, the digest and the current time are arguments. Times are in microseconds from the first
-- representable one; a maximal age is one that does not lead beyond it.
pub mod Admitted
use ios_rehydrate.Prelude.{
  ℕ, ◌+◌, ◌*◌, ⊤, ◌≡◌, Bool, true, false, not, ◌&&◌, ◌||◌, Option, none, some, List, [], ◌∷◌,
  length, take, ltb, leb, ◌==◌, ◌!=◌, if◌then◌else◌,
}
use ios_rehydrate.Prelude.Bytes.{Bytes, Text, codes, eq_text}
use ios_rehydrate.Prelude.Values.{ℤ, pos, negsuc, Value, text, dict, Fields, get}
use ios_rehydrate.Errors.{
  Exception, os_error, timeout_error, value_error, type_error, overflow_error, error,
  policy_refused, Result, done, raise, ◌>>=◌, ◌>>◌, raise_if,
}
use ios_rehydrate.Effects.{is_os_error}
use ios_rehydrate.Receipts.Files.{Stat, same}
use ios_rehydrate.Receipts.{max_receipt_bytes}
use ios_rehydrate.Receipts.Reserve.{schema}

abbrev pub invalid : Exception
invalid = error policy_refused "BACKUP_RECEIPT_INVALID"

abbrev pub mismatch : Exception
mismatch = error policy_refused "BACKUP_RECEIPT_MISMATCH"

abbrev pub time_invalid : Exception
time_invalid = error policy_refused "BACKUP_RECEIPT_TIME_INVALID"

-- `MAX_RECEIPT_AGE` and `MAX_RECEIPT_FUTURE_SKEW`
abbrev pub max_receipt_age : ℕ
max_receipt_age = 24 * 3600 * 1000000

abbrev pub max_receipt_future_skew : ℕ
max_receipt_future_skew = 5 * 60 * 1000000

-- What the calls on the path and on the opened file return.
pub record Answers : Type 0 where
  pub lstat : Result Stat
  pub opening : Result ⊤
  pub fstat : Result Stat
  pub content : Result Bytes

-- What `json.loads` makes of bytes: `undecodable` is a `UnicodeError` or a `JSONDecodeError`.
pub data Loaded : Type 0 where
  loaded : Value → Loaded
  undecodable : Loaded
  load_error : Exception → Loaded

-- A `datetime`: whether it has a time zone and an offset, and `astimezone(UTC)`
pub record Moment : Type 0 where
  pub aware : Bool
  pub utc : Result ℕ

abbrev pub is_plain_file : Stat → Bool
is_plain_file metadata =
    metadata.regular
    && not metadata.link
    && not metadata.reparse
    && ltb 0 metadata.size
    && leb metadata.size max_receipt_bytes

abbrev pub unsafe_if_os_error : {A : Type 0} → Result A → Result A
unsafe_if_os_error (done a) = done a
unsafe_if_os_error (raise e) = if is_os_error e then raise invalid else raise e

-- `stream.read(MAX_RECEIPT_BYTES + 1)`
unfoldable pub read_up_to : Bytes → Bytes
read_up_to content = take (max_receipt_bytes + 1) content

-- The block that reads the file: its size by the path, and the bytes
unfoldable pub read_file : Answers → Result (ℕ × Bytes)
unfolding read_up_to
read_file answers = do
  metadata ← answers.lstat
  raise_if (not (is_plain_file metadata)) os_error
  answers.opening
  opened ← answers.fstat
  raise_if (not (same metadata.identity opened.identity)) os_error
  content ← answers.content
  done (metadata.size, read_up_to content)

abbrev pub parsed : Loaded → Result Value
parsed (loaded value) = done value
parsed undecodable = raise invalid
parsed (load_error e) = raise e

-- `payload.get(key) == expected`, for a text
unfoldable pub says : Fields → Text → Text → Bool
unfolding get eq_text
says payload key expected = elim (get key payload) [
  | some (text value) ↦ eq_text value expected
  | _ ↦ false
]

abbrev pub is_dict : Option Value → Bool
is_dict (some (dict fields)) = true
is_dict _ = false

-- The tests on the envelope
unfoldable pub matches_workflow : Text → Text → Fields → Bool
unfolding says get
matches_workflow version kind payload =
    says payload (codes "schema") schema
    && says payload (codes "tool") (codes "ios-rehydrate")
    && says payload (codes "tool_version") version
    && says payload (codes "kind") kind
    && is_dict (get (codes "evidence") payload)

abbrev pub envelope_of : Text → Text → Value → Result Fields
envelope_of version kind (dict payload) =
    if matches_workflow version kind payload then done payload else raise mismatch
envelope_of version kind _ = raise mismatch

-- `except (TypeError, ValueError, OverflowError)`
abbrev pub or_time_invalid : {A : Type 0} → Result A → Result A
or_time_invalid (raise value_error) = raise time_invalid
or_time_invalid (raise type_error) = raise time_invalid
or_time_invalid (raise overflow_error) = raise time_invalid
or_time_invalid r = r

abbrev pub moment_of : (Text → Result Moment) → Option Value → Result Moment
moment_of from_iso (some (text value)) = from_iso value
moment_of from_iso _ = raise value_error

-- The time that the payload says it was made at
unfoldable pub created_at : (Text → Result Moment) → Fields → Result ℕ
unfolding get
created_at from_iso payload = or_time_invalid (do
  moment ← moment_of from_iso (get (codes "created_at") payload)
  raise_if (not moment.aware) value_error
  moment.utc)

-- `max_age is not None and (max_age <= timedelta(0) or created < now - max_age)`
abbrev pub is_stale : Option ℤ → ℕ → ℕ → Bool
is_stale none created now = false
is_stale (some (negsuc n)) created now = true
is_stale (some (pos age)) created now = age == 0 || ltb (created + age) now

module _ (loads : Bytes → Loaded) (from_iso : Text → Result Moment) (sha256 : Bytes → Text)
    (version : Text) where
  -- `read_receipt`
  unfoldable pub read_receipt : Answers → Text → Option ℤ → ℕ → Result (Fields × Text)
  read_receipt answers kind max_age now = do
    (size, bytes) ← unsafe_if_os_error (read_file answers)
    raise_if (length bytes != size) (error policy_refused "BACKUP_RECEIPT_CHANGED")
    value ← parsed (loads bytes)
    payload ← envelope_of version kind value
    created ← created_at from_iso payload
    raise_if (ltb (now + max_receipt_future_skew) created) time_invalid
    raise_if (is_stale max_age created now) (error policy_refused "BACKUP_RECEIPT_STALE")
    done (payload, sha256 bytes)
