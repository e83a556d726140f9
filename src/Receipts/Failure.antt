-- ===== src/Receipts/Failure.antt =====
-- What a `commit` of src/ios_rehydrate/receipts.py that raises raises and leaves behind.
use mathlib.Core.Path.{subst}
use ios_rehydrate.Prelude.{
  ℕ, zero, suc, ◌+◌, ⊤, ◌≡◌, refl, sym, ap, ◌∙◌, Option-cases, Bool, true, false, ◌⊎◌, inl, inr,
  Option, none, some, length, drop, arith,
}
use ios_rehydrate.Prelude.Bytes.{Bytes}
use ios_rehydrate.Errors.{Exception, rehydrate, base, error, io, Result, done, raise}
use ios_rehydrate.Effects.{is_os_error, handle_raises}
use ios_rehydrate.Receipts.Files.{Process, Environment, enter, lstat, fstat, write, fsync, close}
use ios_rehydrate.Receipts.Removal.{IsClosed, close_quietly_lem, close_quietly_table}
use ios_rehydrate.Receipts.Life.{
  handled, finalize-Keeps, failed-Keeps, checked_empty, all_written, synced, checked_full,
}
use ios_rehydrate.Receipts.{
  Session, inactive, changed, matches_reserved_path, close_quietly, assert_identity, write_all,
  finalize, failed, commit,
}

-- System calls raise an `OSError`, or let an interruption through.
pub record IsOperatingSystem (env : Environment) : Type 0 where
  pub raises :
      (n : ℕ) (e : Exception) → env.failure n ≡ some e → (is_os_error e ≡ true) ⊎ (e ≡ base)

-- An `Exception` that is no `RehydrateError`.
abbrev pub is_ordinary : Exception → Bool
is_ordinary (rehydrate e) = false
is_ordinary base = false
is_ordinary _ = true

module _ (env : Environment) (os : IsOperatingSystem env) where
  -- What `commit` may raise: an interruption, or an error of the documented kinds with the status for
  -- input and output.
  pub data IsRefusal : Exception → Type 0 where
    interrupted : IsRefusal base
    not_active : IsRefusal inactive
    was_changed : IsRefusal changed
    too_large : IsRefusal (error io "RECEIPT_TOO_LARGE")
    not_finalized : IsRefusal (error io "RECEIPT_FINALIZE_FAILED")

  close_quietly_raises :
      (s : Session) (e : Exception) → (close_quietly env s).0 ≡ raise e → e ≡ base
  unfolding close_quietly close enter
  close_quietly_raises s e h = grind (arith, os.raises)

  assert_identity_raises :
      (empty : Bool) (expected : Option ℕ) (s : Session) (e : Exception)
      → (assert_identity env empty expected s).0 ≡ raise e
      → (is_os_error e ≡ true) ⊎ IsRefusal e
  unfolding assert_identity matches_reserved_path lstat fstat enter
  assert_identity_raises empty expected s e h =
      grind (arith, os.raises, interrupted, not_active, was_changed)

  write_raises :
      (d : ℕ) (bytes : Bytes) (p : Process) (e : Exception)
      → (write env d bytes p).0 ≡ raise e
      → (is_os_error e ≡ true) ⊎ (e ≡ base)
  unfolding write enter
  write_raises d bytes p e h = grind (arith, os.raises)

  fsync_raises :
      (d : ℕ) (p : Process) (e : Exception)
      → (fsync env d p).0 ≡ raise e
      → (is_os_error e ≡ true) ⊎ (e ≡ base)
  unfolding fsync enter
  fsync_raises d p e h = grind (arith, os.raises)

  close_raises :
      (d : ℕ) (p : Process) (e : Exception)
      → (close env d p).0 ≡ raise e
      → (is_os_error e ≡ true) ⊎ (e ≡ base)
  unfolding close enter
  close_raises d p e h = grind (arith, os.raises)

  -- An exception that `commit` lets through is a refusal.
  abbrev Passes : Exception → Type 0
  Passes e = (e ≡ base) ⊎ IsRefusal e ⊎ (is_ordinary e ≡ true)

  write_all_raises :
      (fuel d : ℕ) (bytes : Bytes) (written : ℕ) (p : Process) (e : Exception)
      → (write_all env fuel d bytes written p).0 ≡ raise e
      → (e ≡ base) ⊎ (is_ordinary e ≡ true)
  unfolding write_all
  write_all_raises zero d bytes written p e h = ground arith
  write_all_raises (suc fuel) d bytes written p e h =
      let here = write_raises d (drop written bytes) p e in
      let later = λ (n : ℕ).
        write_all_raises fuel d bytes (written + n) (write env d (drop written bytes) p).1 e in
      grind (arith, here, later)

  os_error-Passes : (e : Exception) → (is_os_error e ≡ true) ⊎ IsRefusal e → Passes e
  os_error-Passes e h = ground arith

  finalize_raises :
      (bytes : Bytes) (d : ℕ) (s : Session) (e : Exception)
      → (finalize env (done bytes) d s).0 ≡ raise e
      → Passes e
  unfolding finalize
  finalize_raises bytes d s e h =
      let first = assert_identity_raises true none s e in
      let loop =
        write_all_raises (suc (length bytes)) d bytes 0 (checked_empty env bytes d s).process e in
      let flushed = fsync_raises d (all_written env bytes d s) e in
      let second = assert_identity_raises false (some (length bytes)) (synced env bytes d s) e in
      let last = close_raises d (checked_full env bytes d s).process e in
      ground (arith, first, loop, flushed, second, last, too_large)

  encoded_raises :
      (encoded : Result Bytes) (d : ℕ) (s : Session) (e : Exception)
      → ((x : Exception) → encoded ≡ raise x → is_ordinary x ≡ true)
      → (finalize env encoded d s).0 ≡ raise e
      → Passes e
  encoded_raises (done bytes) d s e plain h = finalize_raises bytes d s e h
  encoded_raises (raise x) d s e plain h = unfold finalize in ground (arith, plain x refl)

  failed_refuses :
      (e x : Exception) (s : Session) → Passes e → (failed env e s).0 ≡ raise x → IsRefusal x
  unfolding failed
  failed_refuses e x s passes h =
      ground (arith, close_quietly_raises s x, interrupted, not_finalized)

  -- The object still holds the descriptor, or the process has closed it.
  abbrev HoldsOrClosed : ℕ → Session → Type 0
  HoldsOrClosed d u = (u.reservation.descriptor ≡ some d) ⊎ (u.process.descriptors d ≡ none)

  assert_identity_object :
      (empty : Bool) (expected : Option ℕ) (s : Session)
      → (assert_identity env empty expected s).1.reservation ≡ s.reservation
  unfolding assert_identity matches_reserved_path lstat fstat enter
  assert_identity_object empty expected s = ground arith

  close_table : (d : ℕ) (p : Process) → (close env d p).1.descriptors d ≡ none
  unfolding close enter
  close_table d p = ground arith

  finalize-HoldsOrClosed :
      (encoded : Result Bytes) (d : ℕ) (s : Session)
      → s.reservation.descriptor ≡ some d
      → HoldsOrClosed d (finalize env encoded d s).1
  unfolding finalize
  finalize-HoldsOrClosed (raise e) d s h = inl h
  finalize-HoldsOrClosed (done bytes) d s h = ground (
    arith,
    assert_identity_object true none s,
    assert_identity_object false (some (length bytes)) (synced env bytes d s),
    close_table d (checked_full env bytes d s).process,
  )

  failed_closes :
      (x e : Exception) (d : ℕ) (s : Session)
      → HoldsOrClosed d s
      → (failed env x s).0 ≡ raise e
      → (e ≡ base)
        ⊎ (((failed env x s).1.reservation.descriptor ≡ none)
            × ((failed env x s).1.process.descriptors d ≡ none))
  unfolding failed
  failed_closes x e d s held h =
      ground (arith, close_quietly_lem env s, close_quietly_table env s d held)

  -- The descriptor of a session is the only one that it holds.
  closed_at :
      (s t : Session) (e : Exception) (d : ℕ)
      → s.reservation.descriptor ≡ some d
      → (e ≡ base) ⊎ ((t.reservation.descriptor ≡ none) × (t.process.descriptors d ≡ none))
      → (e ≡ base) ⊎ IsClosed s t
  closed_at s t e d held (inl h) = inl h
  closed_at s t e d held (inr (gone, closed)) = inr (gone, λ f h. ground (arith, held, h, closed))

  -- What a `commit` that raises leaves: nothing is removed, the receipt is not committed, and after
  -- anything but an interruption of the block the descriptor is closed.
  pub record IsRefused (s t : Session) (e : Exception) : Type 0 where
    pub refusal : IsRefusal e
    pub retained : t.process.removed ≡ s.process.removed
    pub pending : t.reservation.committed ≡ false
    pub closed : (e ≡ base) ⊎ IsClosed s t

  -- The part of it for a `try` statement whose block raised `x`.
  failed-IsRefused :
      (encoded : Result Bytes) (d : ℕ) (s : Session) (x e : Exception)
      → Passes x
      → s.reservation.committed ≡ false
      → s.reservation.descriptor ≡ some d
      → let u = (finalize env encoded d s).1 in
        (failed env x u).0 ≡ raise e → IsRefused s (failed env x u).1 e
  failed-IsRefused encoded d s x e passes uncommitted held h =
      let u = (finalize env encoded d s).1 in
      let before = finalize-Keeps env encoded d s in
      let after = failed-Keeps env x u in
      record {
        refusal = failed_refuses x e u passes h;
        retained = after.removed ∙ before.removed;
        pending = after.committed ∙ (before.committed ∙ uncommitted);
        closed =
            closed_at s (failed env x u).1 e d held
              (failed_closes x e d u (finalize-HoldsOrClosed encoded d s held) h);
      }

  commit_raises :
      (encoded : Result Bytes) (d : ℕ) (s : Session) (e : Exception)
      → s.reservation.descriptor ≡ some d
      → s.reservation.committed ≡ false
      → (commit env encoded s).0 ≡ raise e
      → let body = handled env encoded d s in
        (body.0 ≡ raise e) × ((commit env encoded s).1 ≡ body.1)
  unfolding commit
  commit_raises encoded d s e o c h = ground arith

  commit-inactive :
      (encoded : Result Bytes) (s : Session)
      → s.reservation.descriptor ≡ none
      → commit env encoded s ≡ (raise inactive, s)
  unfolding commit
  commit-inactive encoded s h = ground arith

  -- If system calls raise only OSError and interruptions and the encoding raises neither an
  -- interruption nor a RehydrateError, then an exception of commit on an uncommitted receipt is an
  -- interruption or one of the four refusals with the IO status; nothing has been removed, the
  -- receipt is not committed, and after a refusal the object holds no descriptor and the process has
  -- closed the one that it held.
  pub commit-IsRefused :
      (encoded : Result Bytes) (s : Session) (e : Exception)
      → ((x : Exception) → encoded ≡ raise x → is_ordinary x ≡ true)
      → s.reservation.committed ≡ false
      → (commit env encoded s).0 ≡ raise e
      → IsRefused s (commit env encoded s).1 e
  commit-IsRefused encoded s e plain uncommitted h = elim (Option-cases s.reservation.descriptor) [
    | inl o ↦ ground (arith, commit-inactive encoded s o, not_active)
    | inr (d, o) ↦
        let (body, after) = commit_raises encoded d s e o uncommitted h in
        let (x, raised, raises, ended) =
          handle_raises (failed env) (finalize env encoded d) s e body in
        subst (λ u. IsRefused s u e) (sym (after ∙ ap (λ (y : Result ⊤ × Session). y.1) ended))
          (failed-IsRefused encoded d s x e (encoded_raises encoded d s x plain raised) uncommitted
            o raises)
  ]
