-- ===== src/Receipts/Removal.antt =====
-- Which file `abort` of src/ios_rehydrate/receipts.py removes.
use ios_rehydrate.Prelude.{ℕ, suc, ◌≡◌, ap, Bool, true, false, ◌⊎◌, none, some, ◌∷◌, arith}
use ios_rehydrate.Errors.{Result, done}
use ios_rehydrate.Receipts.Files.{
  Identity, same, World, Process, Environment, enter, lstat, close, unlink,
}
use ios_rehydrate.Receipts.{Session, matches_reserved_path, close_quietly, abort}

pub same→eq : (i j : Identity) → same i j ≡ true → i ≡ j
same→eq i j h = ground arith

module _ (env : Environment) (s : Session) where
  -- The path names the reserved file.
  abbrev pub NamesReserved : Session → Type 0
  NamesReserved t = t.process.world.entry ≡ some s.reservation.identity

  pub matches_lem :
      let (r, t) = matches_reserved_path env s in
      (t.reservation ≡ s.reservation)
      × (t.process.removed ≡ s.process.removed)
      × (r ≡ done true → NamesReserved t)
  unfolding matches_reserved_path lstat enter
  matches_lem = (ground arith, ground arith, grind (arith, same→eq))

  pub close_quietly_lem :
      let (r, t) = close_quietly env s in
      (t.reservation ≡ record s.reservation { descriptor = none })
      × (t.process.removed ≡ s.process.removed)
  unfolding close_quietly close enter
  close_quietly_lem = (ground arith, ground arith)

-- The object has no descriptor any more, and the one it had is closed in the process.
abbrev pub IsClosed : Session → Session → Type 0
IsClosed s t =
    (t.reservation.descriptor ≡ none)
    × ((d : ℕ) → s.reservation.descriptor ≡ some d → t.process.descriptors d ≡ none)

module _ (env : Environment) where
  matches_table :
      (s : Session) → (matches_reserved_path env s).1.process.descriptors ≡ s.process.descriptors
  unfolding matches_reserved_path lstat enter
  matches_table s = ground arith

  unlink_table : (p : Process) → (unlink env p).1.descriptors ≡ p.descriptors
  unfolding unlink enter
  unlink_table p = ground arith

  -- A descriptor that the object holds, or that is closed already, is closed afterwards.
  pub close_quietly_table :
      (s : Session) (d : ℕ)
      → (s.reservation.descriptor ≡ some d) ⊎ (s.process.descriptors d ≡ none)
      → (close_quietly env s).1.process.descriptors d ≡ none
  unfolding close_quietly close enter
  close_quietly_table s d h = ground arith

  -- The state before `abort` looks at the path for the second time.
  abbrev closed : Session → Session
  closed s = (close_quietly env (matches_reserved_path env s).1).1

  -- Other processes leave the path as it is before the last call of a run that ends in `t`.
  pub record IsQuietBefore (t : Session) : Type 0 where
    pub kept : (n : ℕ) (w : World) → suc n ≡ t.process.clock → (env.others n w).entry ≡ w.entry

  unlink_lem :
      (p : Process) (i : Identity)
      → p.world.entry ≡ some i
      → (env.others p.clock p.world).entry ≡ p.world.entry
      → let (r, q) = unlink env p in
        (q.clock ≡ suc p.clock) × ((q.removed ≡ p.removed) ⊎ (q.removed ≡ i ∷ p.removed))
  unfolding unlink enter
  unlink_lem p i h quiet = ground arith

  unlink_clock : (p : Process) → (unlink env p).1.clock ≡ suc p.clock
  unfolding unlink enter
  unlink_clock p = ground arith

  -- What `abort` did: it removed the reserved file or nothing, `True` says that the path names nothing
  -- any more, the descriptor is closed when it returns, and a committed receipt is left alone.
  pub record IsSafeAbort (s : Session) (r : Result Bool) (t : Session) : Type 0 where
    pub own :
        (t.process.removed ≡ s.process.removed)
        ⊎ (t.process.removed ≡ s.reservation.identity ∷ s.process.removed)
    pub gone : r ≡ done true → t.process.world.entry ≡ none
    pub closed : (a : Bool) → s.reservation.committed ≡ false → r ≡ done a → IsClosed s t
    pub finished : s.reservation.committed ≡ true → (r ≡ done false) × (t ≡ s)

  abort_own :
      (s : Session)
      → let (r, t) = abort env s in
        IsQuietBefore t
        → (t.process.removed ≡ s.process.removed)
          ⊎ (t.process.removed ≡ s.reservation.identity ∷ s.process.removed)
  unfolding abort
  abort_own s quiet = ground (
    arith,
    matches_lem env s,
    close_quietly_lem env (matches_reserved_path env s).1,
    matches_lem env (closed s),
    unlink_lem (matches_reserved_path env (closed s)).1.process s.reservation.identity,
    unlink_clock (matches_reserved_path env (closed s)).1.process,
    quiet.kept (matches_reserved_path env (closed s)).1.process.clock
        (matches_reserved_path env (closed s)).1.process.world,
  )

  unlink_gone : (p : Process) → let (r, q) = unlink env p in r ≡ done tt → q.world.entry ≡ none
  unfolding unlink enter
  unlink_gone p h = ground arith

  abort_gone :
      (s : Session) → let (r, t) = abort env s in r ≡ done true → t.process.world.entry ≡ none
  unfolding abort
  abort_gone s h = ground (arith, unlink_gone (matches_reserved_path env (closed s)).1.process)

  abort_table :
      (s : Session) (d : ℕ)
      → s.reservation.committed ≡ false
      → s.reservation.descriptor ≡ some d
      → let (r, t) = abort env s in (a : Bool) → r ≡ done a → t.process.descriptors d ≡ none
  unfolding abort
  abort_table s d open_still held a h = ground (
    arith,
    matches_lem env s,
    close_quietly_table (matches_reserved_path env s).1 d,
    matches_table (closed s),
    unlink_table (matches_reserved_path env (closed s)).1.process,
  )

  abort_closed :
      (s : Session) (a : Bool)
      → s.reservation.committed ≡ false
      → let (r, t) = abort env s in r ≡ done a → t.reservation.descriptor ≡ none
  unfolding abort
  abort_closed s a open_still h = ground (
    arith,
    matches_lem env s,
    close_quietly_lem env (matches_reserved_path env s).1,
    matches_lem env (closed s),
  )

  pub abort_finished :
      (s : Session) → s.reservation.committed ≡ true → abort env s ≡ (done false, s)
  unfolding abort
  abort_finished s h = ground arith

  -- If other processes leave the path alone between the last call of abort and what follows it,
  -- whatever they do before, abort removes the reserved inode from the path or nothing; if it
  -- returns True the path names nothing; if it returns on an uncommitted receipt the object holds no
  -- descriptor and the process has closed the one that it held; on a committed receipt it returns
  -- False and changes nothing.
  pub abort-IsSafeAbort :
      (s : Session) → let (r, t) = abort env s in IsQuietBefore t → IsSafeAbort s r t
  abort-IsSafeAbort s quiet = record {
    own = abort_own s quiet;
    gone = abort_gone s;
    closed = λ a open_still h.
        (abort_closed s a open_still h, λ d held. abort_table s d open_still held a h);
    finished = λ h. (
      ap (λ (x : Result Bool × Session). x.0) (abort_finished s h),
      ap (λ (x : Result Bool × Session). x.1) (abort_finished s h),
    );
  }
