-- ===== src/Receipts/Exclusive.antt =====
-- What `reserve_receipt` and `write_new_receipt` of src/ios_rehydrate/receipts.py have done when they
-- return.
use ios_rehydrate.Prelude.{
  ℕ, ◌<◌, ◌≤◌, ⊤, ◌≡◌, ◌≢◌, refl, sym, ap, ◌∙◌, true, false, ◌⊎◌, Option, none, some, List, length,
  arith,
}
use ios_rehydrate.Prelude.Bytes.{Bytes, Text}
use ios_rehydrate.Errors.{Result, done}
use ios_rehydrate.Effects.{after_bind_returns}
use ios_rehydrate.Receipts.Files.{
  Stat, Identity, Opened, Process, Environment, enter, create, fstat,
}
use ios_rehydrate.Receipts.{Reservation, Session, max_receipt_bytes, assert_identity, commit}
use ios_rehydrate.Receipts.Removal.{IsQuietBefore, matches_lem}
use ios_rehydrate.Receipts.Loop.{IsPlain, IsRespectful}
use ios_rehydrate.Receipts.Writing.{IsOpen, assert_identity-Confirms, commit-IsWritten}
use ios_rehydrate.Receipts.Reserve.{
  Ancestor, is_invalid_leaf, existing_directory_without_links, or_abort, with_reservation, reserved,
  reserve_receipt, write_new_receipt,
}

-- A method that has returned.
abbrev pub closed : Reservation → Process → Result ⊤ × Session
closed r q = (done tt, record { reservation = r; process = q })

module _ (env : Environment) (p : Process) where
  -- The inode that the exclusive creation makes, and the state after the creation and after `fstat`.
  abbrev pub made : Identity
  made = env.fresh_identity p.clock

  abbrev d : ℕ
  d = env.fresh_descriptor p.clock

  abbrev pub opened : Process
  opened = (create env p).1

  abbrev pub object : Reservation
  object = record {
    descriptor = some d;
    identity = made;
    operation_started = false;
    committed = false;
  }

  abbrev pub begun : Session
  begun = record { reservation = object; process = (fstat env d opened).1 }

  create_lem :
      (r : Option ℕ)
      → (create env p).0 ≡ done r
      → (r ≡ none)
        ⊎ ((r ≡ some d)
            × ((env.others p.clock p.world).entry ≡ none)
            × (opened.descriptors d ≡ some (record { identity = made; position = 0 }))
            × (opened.removed ≡ p.removed))
  unfolding create enter
  create_lem r h = ground arith

  created_lem :
      (create env p).0 ≡ done (some d)
      → ((env.others p.clock p.world).entry ≡ none)
        × (opened.descriptors d ≡ some (record { identity = made; position = 0 }))
        × (opened.removed ≡ p.removed)
  created_lem h = ground (arith, create_lem (some d) h)

  fstat_made :
      opened.descriptors d ≡ some (record { identity = made; position = 0 })
      → ((m : Stat) → (fstat env d opened).0 ≡ done m → m.identity ≡ made)
        × (begun.process.descriptors d ≡ some (record { identity = made; position = 0 }))
        × (begun.process.removed ≡ opened.removed)
  unfolding fstat enter
  fstat_made e = (λ m h. ground arith, ground arith, ground arith)

  -- What `reserve_receipt` has found and made when it returns.
  pub record IsReserved (upper : Text → Text) (leaf : Text) (ancestors : List (Result Ancestor))
      (resolved : Result ⊤) (r : Reservation) (q : Process) : Type 0 where
    pub valid : is_invalid_leaf upper leaf ≡ false
    pub directory : existing_directory_without_links ancestors resolved ≡ done tt
    pub absent : (env.others p.clock p.world).entry ≡ none
    pub object : r ≡ object
    pub empty :
        assert_identity env true none begun ≡ (done tt, record { reservation = r; process = q })
    pub open_still : begun.process.descriptors d ≡ some (record { identity = made; position = 0 })
    pub nothing_removed : begun.process.removed ≡ p.removed

  or_abort_returns :
      {A : Type 0} (m : Session → Result A × Session) (s : Session) (a : A)
      → (or_abort env m s).0 ≡ done a
      → or_abort env m s ≡ m s
  or_abort_returns m s a h = ground arith

  assert_identity_object :
      (s : Session) → (assert_identity env true none s).1.reservation ≡ s.reservation
  unfolding assert_identity
  assert_identity_object s = grind (arith, matches_lem env)

  reserve_parts :
      (upper : Text → Text) (leaf : Text) (ancestors : List (Result Ancestor)) (resolved : Result ⊤)
      (r : Reservation)
      → (reserve_receipt env upper leaf ancestors resolved p).0 ≡ done r
      → (is_invalid_leaf upper leaf ≡ false)
        × (existing_directory_without_links ancestors resolved ≡ done tt)
        × ((create env p).0 ≡ done (some d))
        × (reserve_receipt env upper leaf ancestors resolved p ≡ reserved env (some d) opened)
  unfolding reserve_receipt
  reserve_parts upper leaf ancestors resolved r h = grind (arith, create_lem)

  reserved_parts :
      (r : Reservation)
      → opened.descriptors d ≡ some (record { identity = made; position = 0 })
      → (reserved env (some d) opened).0 ≡ done r
      → (r ≡ object)
        × (assert_identity env true none begun
            ≡ (done tt, record { reservation = r; process = (reserved env (some d) opened).1 }))
  reserved_parts r e h =
      let (seen, _, _) = fstat_made e in
      grind (
        arith,
        seen,
        or_abort_returns (assert_identity env true none) begun tt,
        assert_identity_object begun,
      )

  reserve_receipt-IsReserved :
      (upper : Text → Text) (leaf : Text) (ancestors : List (Result Ancestor)) (resolved : Result ⊤)
      (r : Reservation)
      → (reserve_receipt env upper leaf ancestors resolved p).0 ≡ done r
      → IsReserved upper leaf ancestors resolved r
          (reserve_receipt env upper leaf ancestors resolved p).1
  reserve_receipt-IsReserved upper leaf ancestors resolved r h =
      let (valid, directory, made_one, ended) = reserve_parts upper leaf ancestors resolved r h in
      let (absent, position, kept) = created_lem made_one in
      let (_, still, removed) = fstat_made position in
      let (object, checked) =
        reserved_parts r position
          (ap (λ (x : Result Reservation × Process). x.0) (sym ended) ∙ h) in
      record {
        valid = valid;
        directory = directory;
        absent = absent;
        object = object;
        empty =
            checked
            ∙ ap
                (λ (x : Result Reservation × Process).
                  (done tt, record { reservation = r; process = x.1 }))
                (sym ended);
        open_still = still;
        nothing_removed = removed ∙ kept;
      }

  module _ (respects : IsRespectful env made) where
    -- The object that `reserve_receipt` returns holds an empty file open at its start.
    reserved-IsOpen :
        (r : Reservation) (q : Process)
        → r ≡ object
        → assert_identity env true none begun ≡ (done tt, record { reservation = r; process = q })
        → begun.process.descriptors d ≡ some (record { identity = made; position = 0 })
        → IsOpen env (record { reservation = object; process = q }) respects d 0
    reserved-IsOpen r q same checked still =
        let confirmed =
          assert_identity-Confirms env begun respects d 0 true none
            (record { reservation = r; process = q }) (record { descriptor = refl; opened = still })
            checked in
        record {
          descriptor = refl;
          opened = ap (λ (table : ℕ → Option Opened). table d) confirmed.table ∙ still;
        }

    -- The session that a new object gives to `commit`.
    abbrev handed : Process → Session
    handed q = record { reservation = object; process = q }

    write_parts :
        (upper : Text → Text) (leaf : Text) (ancestors : List (Result Ancestor))
        (resolved : Result ⊤) (encoded : Result Bytes) (r : Reservation)
        → (write_new_receipt env upper leaf ancestors resolved encoded p).0 ≡ done r
        → (first : Reservation) × ((reserve_receipt env upper leaf ancestors resolved p).0
            ≡ done first)
          × (write_new_receipt env upper leaf ancestors resolved encoded p
              ≡ with_reservation env
                  (or_abort env (commit env encoded))
                  first
                  (reserve_receipt env upper leaf ancestors resolved p).1)
    unfolding write_new_receipt
    write_parts upper leaf ancestors resolved encoded r h =
        after_bind_returns (reserve_receipt env upper leaf ancestors resolved p)
          (with_reservation env (or_abort env (commit env encoded))) r h

    committed_parts :
        (encoded : Result Bytes) (q : Process) (r : Reservation)
        → let written = with_reservation env (or_abort env (commit env encoded)) object q in
          written.0 ≡ done r
          → commit env encoded (handed q)
            ≡ (done tt, record { reservation = r; process = written.1 })
    committed_parts encoded q r h =
        ground (arith, or_abort_returns (commit env encoded) (handed q) tt)

    -- What `write_new_receipt` has done when it returns: the name is valid, it named nothing, and now it
    -- names a file with the bytes.
    pub record IsStored (upper : Text → Text) (leaf : Text) (ancestors : List (Result Ancestor))
        (resolved : Result ⊤) (bytes : Bytes) (t : Session) : Type 0 where
      pub valid : is_invalid_leaf upper leaf ≡ false
      pub directory : existing_directory_without_links ancestors resolved ≡ done tt
      pub absent : (env.others p.clock p.world).entry ≡ none
      pub named : t.process.world.entry ≡ some made
      pub content : (t.process.world.at made).content ≡ bytes
      pub plain : IsPlain (t.process.world.at made)
      pub not_empty : 0 < length bytes
      pub bounded : length bytes ≤ max_receipt_bytes
      pub committed : t.reservation.committed ≡ true

    -- If other processes leave the created inode alone, and the path between the last check and the
    -- end, and write_new_receipt returns, then the name passed its tests, every ancestor of the path
    -- was a directory without links, the path named nothing before, and now it names the created
    -- regular file, which has one name and holds exactly the bytes, at least one and at most 1 MiB;
    -- the receipt is committed.
    pub write_new_receipt-IsStored :
        (upper : Text → Text) (leaf : Text) (ancestors : List (Result Ancestor))
        (resolved : Result ⊤) (bytes : Bytes) (r : Reservation)
        → let written = write_new_receipt env upper leaf ancestors resolved (done bytes) p in
          let t = (closed r written.1).1 in
          written.0 ≡ done r → IsQuietBefore env t → IsStored upper leaf ancestors resolved bytes t
    write_new_receipt-IsStored upper leaf ancestors resolved bytes r h quiet =
        let (first, returned, ended) = write_parts upper leaf ancestors resolved (done bytes) r h in
        let found = reserve_receipt-IsReserved upper leaf ancestors resolved first returned in
        let q = (reserve_receipt env upper leaf ancestors resolved p).1 in
        let whole =
          ended
          ∙ ap
              (λ (o : Reservation).
                with_reservation env (or_abort env (commit env (done bytes))) o q)
              found.object in
        let open_now = reserved-IsOpen first q found.object found.empty found.open_still in
        let done_now =
          committed_parts (done bytes) q r
            (ap (λ (x : Result Reservation × Process). x.0) (sym whole) ∙ h)
          ∙ ap (λ (x : Result Reservation × Process). closed r x.1) (sym whole) in
        let stored =
          commit-IsWritten env (handed q) respects bytes d
            (record {
              reservation = r;
              process = (write_new_receipt env upper leaf ancestors resolved (done bytes) p).1;
            })
            open_now done_now quiet in
        record {
          valid = found.valid;
          directory = found.directory;
          absent = found.absent;
          named = stored.named;
          content = stored.content;
          plain = stored.plain;
          not_empty = stored.not_empty;
          bounded = stored.bounded;
          committed = stored.committed;
        }

  -- What `reserve_receipt` leaves when the path names something already.
  pub record IsRefusedUnchanged (x : Result Reservation × Process) : Type 0 where
    pub raises : (r : Reservation) → x.0 ≢ done r
    pub table : x.1.descriptors ≡ p.descriptors
    pub removed : x.1.removed ≡ p.removed
    pub world : (x.1.world ≡ p.world) ⊎ (x.1.world ≡ env.others p.clock p.world)

  create_existing :
      (i : Identity)
      → (env.others p.clock p.world).entry ≡ some i
      → (opened.descriptors ≡ p.descriptors)
        × (opened.removed ≡ p.removed)
        × (opened.world ≡ env.others p.clock p.world)
        × ((n : ℕ) → (create env p).0 ≢ done (some n))
  unfolding create enter
  create_existing i h = (ground arith, ground arith, ground arith, λ n e. ground arith)

  -- If the path names a file when reserve_receipt creates its own, reserve_receipt raises, opens and
  -- removes nothing and leaves the files as the other processes have left them.
  pub reserve_receipt-IsRefusedUnchanged :
      (upper : Text → Text) (leaf : Text) (ancestors : List (Result Ancestor)) (resolved : Result ⊤)
      (i : Identity)
      → (env.others p.clock p.world).entry ≡ some i
      → IsRefusedUnchanged (reserve_receipt env upper leaf ancestors resolved p)
  unfolding reserve_receipt
  reserve_receipt-IsRefusedUnchanged upper leaf ancestors resolved i h =
      let (table, removed, world, fails) = create_existing i h in
      grind (arith, table, removed, world, fails)
