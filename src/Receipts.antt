-- ===== src/Receipts.antt =====
-- src/ios_rehydrate/receipts.py: a receipt is reserved by creating its file exclusively, held open while
-- the operation runs, and then written once or removed. `json.dumps` is an argument; the file is
-- Receipts/Files.
pub mod Files
mod Removal
pub mod Life
pub mod Loop
mod Writing
pub mod Reserve
mod Failure
mod Exclusive
pub mod Reading
mod RoundTrip
mod Tests
use ios_rehydrate.Prelude.{
  ℕ, zero, suc, ◌+◌, ◌*◌, ⊤, ◌≡◌, Bool, true, false, not, ◌&&◌, ◌||◌, Option, none, some, List, [],
  ◌∷◌, ◌++◌, length, drop, ltb, leb, ◌==◌, ◌!=◌, if◌then◌else◌,
}
use ios_rehydrate.Prelude.Bytes.{Bytes, Text}
use ios_rehydrate.Prelude.Values.{Value}
use ios_rehydrate.Errors.{
  Exception, RehydrateError, rehydrate, os_error, base, assertion_error, error, io, Result, done,
  raise,
}
use ios_rehydrate.Effects.{
  Step, pure, throw, lift, assign, throw_if, ◌>>=◌, ◌>>◌, handle_with, is_os_error,
}
use Files.{Identity, same, Process, Environment, Stat, lstat, fstat, write, fsync, close, unlink}

abbrev pub max_receipt_bytes : ℕ
max_receipt_bytes = 1024 * 1024

-- `ReceiptReservation`; its path is the one of the process.
pub record Reservation : Type 0 where
  pub descriptor : Option ℕ
  pub identity : Identity
  pub operation_started : Bool
  pub committed : Bool

-- What a method sees: the object and the process.
pub record Session : Type 0 where
  pub reservation : Reservation
  pub process : Process

abbrev pub system : {A : Type 0} → Step Process A → Step Session A
system m s = let (r, p) = m s.process in (r, record s { process = p })

abbrev pub update : (Reservation → Reservation) → Step Session ⊤
update f s = (done tt, record s { reservation = f s.reservation })

abbrev pub without_descriptor : Reservation → Reservation
without_descriptor r = record r { descriptor = none }

-- `try: m; except OSError: return value`
abbrev pub or_on_os_error : {S A : Type 0} → A → Step S A → Step S A
or_on_os_error value m = handle_with m λ e. if is_os_error e then pure value else throw e

abbrev pub inactive : Exception
inactive = error io "RECEIPT_RESERVATION_INVALID"

abbrev pub changed : Exception
changed = error io "RECEIPT_RESERVATION_CHANGED"

-- The test of `_matches_reserved_path`
abbrev pub is_reserved : Identity → Stat → Bool
is_reserved identity metadata =
    metadata.regular && not metadata.link && not metadata.reparse && same metadata.identity identity

abbrev pub size_fits : Bool → Option ℕ → ℕ → Bool
size_fits empty none size = not empty || size == 0
size_fits empty (some expected) size = (not empty || size == 0) && size == expected

-- The tests of `_assert_identity` on the open file
abbrev pub is_intact : Identity → Bool → Option ℕ → Stat → Bool
is_intact identity empty expected metadata =
    same metadata.identity identity
    && metadata.regular
    && not metadata.reparse
    && metadata.links == 1
    && size_fits empty expected metadata.size

module _ (env : Environment) where
  -- `_matches_reserved_path`
  unfoldable pub matches_reserved_path : Step Session Bool
  matches_reserved_path s =
      or_on_os_error false
        (do metadata ← system (lstat env); pure (is_reserved s.reservation.identity metadata)) s

  abbrev close_if_open : Option ℕ → Step Session ⊤
  close_if_open none = pure tt
  close_if_open (some d) = or_on_os_error tt (system (close env d))

  -- `_close_quietly`
  unfoldable pub close_quietly : Step Session ⊤
  close_quietly s = (do update without_descriptor; close_if_open s.reservation.descriptor) s

  abbrev assert_open : Bool → Option ℕ → Option ℕ → Step Session ⊤
  assert_open empty expected none = throw inactive
  assert_open empty expected (some d) = do
    metadata ← system (fstat env d)
    λ s. throw_if (not (is_intact s.reservation.identity empty expected metadata)) changed s
    matches ← matches_reserved_path
    throw_if (not matches) changed

  -- `_assert_identity`
  unfoldable pub assert_identity : Bool → Option ℕ → Step Session ⊤
  assert_identity empty expected s = assert_open empty expected s.reservation.descriptor s

  -- `mark_operation_started`
  unfoldable pub mark_operation_started : Step Session ⊤
  mark_operation_started s = elim s.reservation.descriptor [
    | none ↦ throw inactive s
    | some d ↦ (do assert_identity true none; update λ r. record r { operation_started = true }) s
  ]

  -- The loop of `commit` that writes the rest of `bytes` from `written` on. A round writes a byte at
  -- least or raises, so `length bytes` rounds are enough.
  unfoldable pub write_all : ℕ → ℕ → Bytes → ℕ → Step Process ⊤
  write_all zero d bytes written = throw assertion_error
  write_all (suc fuel) d bytes written = elim (ltb written (length bytes)) [
    | false ↦ pure tt
    | true ↦ do
      count ← write env d (drop written bytes)
      throw_if (count == 0) os_error
      write_all fuel d bytes (written + count)
  ]

  -- The `try` block of `commit`
  unfoldable pub finalize : Result Bytes → ℕ → Step Session ⊤
  finalize encoded d = do
    bytes ← lift encoded
    throw_if (not (ltb 0 (length bytes) && leb (length bytes) max_receipt_bytes))
        (error io "RECEIPT_TOO_LARGE")
    assert_identity true none
    system (write_all (suc (length bytes)) d bytes 0)
    system (fsync env d)
    assert_identity false (some (length bytes))
    update without_descriptor
    system (close env d)

  -- Its `except` blocks: a `BaseException` passes.
  unfoldable pub failed : Exception → Step Session ⊤
  failed (rehydrate e) = do close_quietly; throw (rehydrate e)
  failed base = throw base
  failed e = do close_quietly; throw (error io "RECEIPT_FINALIZE_FAILED")

  -- `commit`; `encoded` is `(json.dumps(...) + "\n").encode()`.
  unfoldable pub commit : Result Bytes → Step Session ⊤
  commit encoded s = elim s.reservation.descriptor [
    | none ↦ throw inactive s
    | some d ↦
        if s.reservation.committed
        then throw inactive s
        else (do
          handle_with (finalize encoded d) failed
          update λ r. record r { descriptor = none; committed = true })
            s
  ]

  abbrev recheck : Bool → Step Session Bool
  recheck true s = matches_reserved_path s
  recheck false s = pure false s

  abbrev remove_if : Bool → Step Session Bool
  remove_if true s = or_on_os_error false (system (unlink env) >> pure true) s
  remove_if false s = pure false s

  -- `abort` of a receipt that is not committed
  unfoldable pub abort_uncommitted : Step Session Bool
  abort_uncommitted = do
    matches ← matches_reserved_path
    close_quietly
    still ← recheck matches
    remove_if still

  -- `abort`
  unfoldable pub abort : Step Session Bool
  unfolding abort_uncommitted
  abort s = if s.reservation.committed then (done false, s) else abort_uncommitted s

  -- `preserve`
  unfoldable pub preserve : Step Session ⊤
  preserve = close_quietly

  -- `abort_on_pre_operation_failure`
  unfoldable pub abort_on_pre_operation_failure : Step Session ⊤
  abort_on_pre_operation_failure s =
      if s.reservation.operation_started then preserve s else (abort >> pure tt) s
