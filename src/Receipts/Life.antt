-- ===== src/Receipts/Life.antt =====
-- The life of a reservation of src/ios_rehydrate/receipts.py: its methods called in any order.
use ios_rehydrate.Prelude.{
  ℕ, zero, suc, any, length, drop, ⊤, ◌≡◌, refl, Bool, true, false, Option, none, some, List, [],
  ◌∷◌, arith,
}
use ios_rehydrate.Prelude.Bytes.{Bytes}
use ios_rehydrate.Errors.{Exception, Result, done, raise}
use ios_rehydrate.Effects.{handle_with}
use ios_rehydrate.Receipts.Files.{Process, Environment, enter, lstat, fstat, write, fsync, close}
use ios_rehydrate.Receipts.Removal.{abort_finished}
use ios_rehydrate.Receipts.{
  Session, matches_reserved_path, close_quietly, assert_identity, mark_operation_started, write_all,
  finalize, failed, commit, abort, preserve, abort_on_pre_operation_failure,
}

pub data Call : Type 0 where
  mark abort_early preserves aborts : Call
  commits : Result Bytes → Call

-- A call, with what it raised or returned left aside.
unfoldable pub step : Environment → Call → Session → Session
step env mark s = (mark_operation_started env s).1
step env abort_early s = (abort_on_pre_operation_failure env s).1
step env preserves s = (preserve env s).1
step env aborts s = (abort env s).1
step env (commits encoded) s = (commit env encoded s).1

unfoldable pub run : Environment → List Call → Session → Session
run env [] s = s
run env (c ∷ cs) s = run env cs (step env c s)

-- What no part of a method changes: the inode of the reservation, and what has been unlinked.
pub record Keeps (s t : Session) : Type 0 where
  pub identity : t.reservation.identity ≡ s.reservation.identity
  pub started : t.reservation.operation_started ≡ s.reservation.operation_started
  pub committed : t.reservation.committed ≡ s.reservation.committed
  pub removed : t.process.removed ≡ s.process.removed

module _ (env : Environment) where
  matches-Keeps : (s : Session) → Keeps s (matches_reserved_path env s).1
  unfolding matches_reserved_path lstat enter
  matches-Keeps s = ground arith

  close_quietly-Keeps : (s : Session) → Keeps s (close_quietly env s).1
  unfolding close_quietly close enter
  close_quietly-Keeps s = ground arith

  fstat_removed : (d : ℕ) (p : Process) → (fstat env d p).1.removed ≡ p.removed
  unfolding fstat enter
  fstat_removed d p = ground arith

  pub assert_identity-Keeps :
      (empty : Bool) (expected : Option ℕ) (s : Session)
      → Keeps s (assert_identity env empty expected s).1
  unfolding assert_identity matches_reserved_path lstat fstat enter
  assert_identity-Keeps empty expected s = ground arith

  write_removed :
      (d : ℕ) (bytes : Bytes) (p : Process) → (write env d bytes p).1.removed ≡ p.removed
  unfolding write enter
  write_removed d bytes p = ground arith

  write_all_removed :
      (fuel d : ℕ) (bytes : Bytes) (written : ℕ) (p : Process)
      → (write_all env fuel d bytes written p).1.removed ≡ p.removed
  unfolding write_all
  write_all_removed zero d bytes written p = refl
  write_all_removed (suc fuel) d bytes written p =
      grind (arith, write_removed d (drop written bytes) p, write_all_removed fuel d bytes)

  fsync_removed : (d : ℕ) (p : Process) → (fsync env d p).1.removed ≡ p.removed
  unfolding fsync enter
  fsync_removed d p = ground arith

  close_removed : (d : ℕ) (p : Process) → (close env d p).1.removed ≡ p.removed
  unfolding close enter
  close_removed d p = ground arith

  -- The states of the block between its calls, for the bytes that are written.
  module _ (bytes : Bytes) (d : ℕ) (s : Session) where
    abbrev pub checked_empty : Session
    checked_empty = (assert_identity env true none s).1

    abbrev pub all_written : Process
    all_written = (write_all env (suc (length bytes)) d bytes 0 checked_empty.process).1

    abbrev pub synced : Session
    synced = record checked_empty { process = (fsync env d all_written).1 }

    abbrev pub checked_full : Session
    checked_full = (assert_identity env false (some (length bytes)) synced).1

  pub finalize-Keeps :
      (encoded : Result Bytes) (d : ℕ) (s : Session) → Keeps s (finalize env encoded d s).1
  unfolding finalize
  finalize-Keeps (raise e) d s = ground arith
  finalize-Keeps (done bytes) d s = ground (
    arith,
    assert_identity-Keeps true none s,
    write_all_removed (suc (length bytes)) d bytes 0 (checked_empty bytes d s).process,
    fsync_removed d (all_written bytes d s),
    assert_identity-Keeps false (some (length bytes)) (synced bytes d s),
    close_removed d (checked_full bytes d s).process,
  )

  pub failed-Keeps : (e : Exception) (s : Session) → Keeps s (failed env e s).1
  unfolding failed
  failed-Keeps e s = ground (arith, close_quietly-Keeps s)

  abort_early-Keeps :
      (s : Session)
      → s.reservation.operation_started ≡ true
      → Keeps s (abort_on_pre_operation_failure env s).1
  unfolding abort_on_pre_operation_failure preserve
  abort_early-Keeps s h = ground (arith, close_quietly-Keeps s)

  -- The reservation holds its evidence: the inode it means is the same, nothing has been removed, and an
  -- operation that had started counts as started.
  pub record Holds (s t : Session) : Type 0 where
    pub same_identity : t.reservation.identity ≡ s.reservation.identity
    pub nothing_removed : t.process.removed ≡ s.process.removed
    pub still_started :
        s.reservation.operation_started ≡ true → t.reservation.operation_started ≡ true

  -- The state after the `try` statement of `commit`.
  abbrev pub handled : Result Bytes → ℕ → Session → Result ⊤ × Session
  handled encoded d = handle_with (finalize env encoded d) (failed env)

  handled-Keeps : (encoded : Result Bytes) (d : ℕ) (s : Session) → Keeps s (handled encoded d s).1
  handled-Keeps encoded d s = grind (arith, finalize-Keeps encoded d s, failed-Keeps)

  commit-Holds : (encoded : Result Bytes) (s : Session) → Holds s (commit env encoded s).1
  unfolding commit
  commit-Holds encoded s = grind (arith, handled-Keeps encoded)

  mark-Holds : (s : Session) → Holds s (mark_operation_started env s).1
  unfolding mark_operation_started
  mark-Holds s = ground (arith, assert_identity-Keeps true none s)

  preserve-Holds : (s : Session) → Holds s (preserve env s).1
  unfolding preserve
  preserve-Holds s = ground (arith, close_quietly-Keeps s)

abbrev pub is_abort : Call → Bool
is_abort aborts = true
is_abort _ = false

module _ (env : Environment) where
  step-kept :
      (c : Call) (s : Session)
      → is_abort c ≡ false
      → s.reservation.operation_started ≡ true
      → Holds env s (step env c s)
  unfolding step
  step-kept mark s h started = mark-Holds env s
  step-kept abort_early s h started = ground (arith, abort_early-Keeps env s)
  step-kept preserves s h started = preserve-Holds env s
  step-kept aborts s h started = cc
  step-kept (commits encoded) s h started = commit-Holds env encoded s

  run-kept :
      (calls : List Call) (s : Session)
      → any is_abort calls ≡ false
      → s.reservation.operation_started ≡ true
      → (run env calls s).process.removed ≡ s.process.removed
  unfolding run
  run-kept [] s h started = refl
  run-kept (c ∷ cs) s h started = ground (arith, step-kept c s, run-kept cs (step env c s))

  pub mark_done :
      (s : Session)
      → let (r, t) = mark_operation_started env s in
        r ≡ done tt → t.reservation.operation_started ≡ true
  unfolding mark_operation_started
  mark_done s h = ground arith

  -- After mark_operation_started has returned, no sequence of the methods other than abort itself
  -- removes a file, in any environment.
  pub run-evidence_kept :
      (s : Session) (calls : List Call)
      → let (r, t) = mark_operation_started env s in
        r ≡ done tt
        → any is_abort calls ≡ false
        → (run env calls t).process.removed ≡ s.process.removed
  run-evidence_kept s calls h quiet =
      ground (arith, mark_done s, mark-Holds env s, run-kept calls (mark_operation_started env s).1)

  commit_done :
      (encoded : Result Bytes) (s : Session)
      → let (r, t) = commit env encoded s in
        r ≡ done tt → (t.reservation.committed ≡ true) × (t.reservation.descriptor ≡ none)
  unfolding commit
  commit_done encoded s h = ground arith

  step_final :
      (c : Call) (s : Session)
      → s.reservation.committed ≡ true
      → s.reservation.descriptor ≡ none
      → step env c s ≡ s
  unfolding step mark_operation_started abort_on_pre_operation_failure preserve commit close_quietly
  step_final mark s h e = ground arith
  step_final abort_early s h e = ground (arith, abort_finished env s h)
  step_final preserves s h e = ground arith
  step_final aborts s h e = ground (arith, abort_finished env s h)
  step_final (commits encoded) s h e = ground arith

  run_final :
      (calls : List Call) (s : Session)
      → s.reservation.committed ≡ true
      → s.reservation.descriptor ≡ none
      → run env calls s ≡ s
  unfolding run
  run_final [] s h e = refl
  run_final (c ∷ cs) s h e = rw (step_final c s h e) (run_final cs s h e)

  -- After commit has returned, no sequence of the methods changes the object, its file or the path.
  pub run-committed_final :
      (encoded : Result Bytes) (s : Session) (calls : List Call)
      → let (r, t) = commit env encoded s in r ≡ done tt → run env calls t ≡ t
  run-committed_final encoded s calls h =
      let (committed, closed) = commit_done encoded s h in
      run_final calls (commit env encoded s).1 committed closed
