-- ===== src/Receipts/Writing.antt =====
-- What a `commit` of src/ios_rehydrate/receipts.py that returns has written.
use ios_rehydrate.Prelude.{
  ℕ, suc, ◌≤◌, ◌<◌, ⊤, ◌≡◌, ◌≢◌, refl, sym, ap, ◌∙◌, Bool, true, false, Option, none, some, [], ◌∷◌,
  length, take, arith,
}
use ios_rehydrate.Prelude.Bytes.{Bytes}
use ios_rehydrate.Errors.{Exception, Result, done}
use ios_rehydrate.Receipts.Files.{
  Identity, Inode, Stat, stat_of, Opened, Process, Environment, enter, lstat, fstat, fsync, close,
}
use ios_rehydrate.Receipts.Removal.{same→eq, IsQuietBefore, matches_lem}
use ios_rehydrate.Receipts.Life.{
  assert_identity-Keeps, checked_empty, all_written, synced, checked_full,
}
use ios_rehydrate.Receipts.{
  Session, without_descriptor, max_receipt_bytes, matches_reserved_path, assert_identity, write_all,
  finalize, failed, commit,
}
use ios_rehydrate.Receipts.Loop.{
  IsPlain, IsPlain-eq, IsRespectful, HasWritten, write_all-HasWritten,
}

module _ (env : Environment) (s : Session) (respects : IsRespectful env s.reservation.identity)
    (d : ℕ) where
  -- The reservation's descriptor is open on its inode, at the given position.
  pub record IsOpen (position : ℕ) : Type 0 where
    pub descriptor : s.reservation.descriptor ≡ some d
    pub opened :
        s.process.descriptors d
        ≡ some (record { identity = s.reservation.identity; position = position })

  -- What `_assert_identity` has seen when it returns, and that it changes nothing.
  pub record Confirms (empty : Bool) (expected : Option ℕ) (t : Session) : Type 0 where
    pub unchanged : t.reservation ≡ s.reservation
    pub table : t.process.descriptors ≡ s.process.descriptors
    pub inode :
        t.process.world.at s.reservation.identity ≡ s.process.world.at s.reservation.identity
    pub named : t.process.world.entry ≡ some s.reservation.identity
    pub plain : IsPlain (t.process.world.at s.reservation.identity)
    pub emptiness : empty ≡ true → (t.process.world.at s.reservation.identity).content ≡ []
    pub size :
        (n : ℕ) → expected ≡ some n → length (t.process.world.at s.reservation.identity).content ≡ n

  length-nil : (xs : Bytes) → length xs ≡ 0 → xs ≡ []
  length-nil [] h = refl
  length-nil (x ∷ xs) h = ground arith

  fstat_lem :
      (position : ℕ)
      → IsOpen position
      → let (r, p) = fstat env d s.process in
        (p.descriptors ≡ s.process.descriptors)
        × (p.world.at s.reservation.identity ≡ s.process.world.at s.reservation.identity)
        × ((m : Stat) → r ≡ done m → m ≡ stat_of p.world s.reservation.identity)
  unfolding fstat enter
  fstat_lem position o = (
    ground arith,
    ground (arith, respects.untouched s.process.clock s.process.world),
    λ m. ground arith,
  )

  matches_true :
      (u : Session)
      → u.reservation ≡ s.reservation
      → let (r, t) = matches_reserved_path env u in
        (t.reservation ≡ s.reservation)
        × (t.process.descriptors ≡ u.process.descriptors)
        × (t.process.world.at s.reservation.identity ≡ u.process.world.at s.reservation.identity)
        × (r ≡ done true
            → (t.process.world.entry ≡ some s.reservation.identity)
              × ((t.process.world.at s.reservation.identity).link ≡ false))
  unfolding matches_reserved_path lstat enter
  matches_true u h = (
    ground arith,
    ground arith,
    ground (arith, respects.untouched u.process.clock u.process.world),
    grind (arith, same→eq),
  )

  pub assert_identity-Confirms :
      (position : ℕ) (empty : Bool) (expected : Option ℕ) (t : Session)
      → IsOpen position
      → assert_identity env empty expected s ≡ (done tt, t)
      → Confirms empty expected t
  unfolding assert_identity
  assert_identity-Confirms position empty expected t o e =
      let (table, inode, seen) = fstat_lem position o in
      let matched = matches_true (record s { process = (fstat env d s.process).1 }) refl in
      grind (arith, table, inode, seen, matched, length-nil)

module _ (env : Environment) (s : Session)
    (respects : IsRespectful env s.reservation.identity) where
  abbrev identity : Identity
  identity = s.reservation.identity

  -- The bytes are the content of the reserved file, which has one name; the reservation is committed.
  pub record IsWritten (bytes : Bytes) (t : Session) : Type 0 where
    pub content : (t.process.world.at identity).content ≡ bytes
    pub plain : IsPlain (t.process.world.at identity)
    pub not_empty : 0 < length bytes
    pub bounded : length bytes ≤ max_receipt_bytes
    pub committed : t.reservation.committed ≡ true
    pub closed : t.reservation.descriptor ≡ none
    pub named : t.process.world.entry ≡ some identity

  fsync_at : (d : ℕ) (p : Process) → (fsync env d p).1.world.at identity ≡ p.world.at identity
  unfolding fsync enter
  fsync_at d p = ground (arith, respects.untouched p.clock p.world)

  close_at : (d : ℕ) (p : Process) → (close env d p).1.world.at identity ≡ p.world.at identity
  unfolding close enter
  close_at d p = ground (arith, respects.untouched p.clock p.world)

  close_named :
      (d : ℕ) (u : Session)
      → let t = record u { process = (close env d u.process).1 } in
        IsQuietBefore env t → t.process.world.entry ≡ u.process.world.entry
  unfolding close enter
  close_named d u quiet = quiet.kept u.process.clock u.process.world refl

  assert_identity_at :
      (empty : Bool) (expected : Option ℕ) (u : Session)
      → (assert_identity env empty expected u).1.process.world.at identity
        ≡ u.process.world.at identity
  unfolding assert_identity matches_reserved_path lstat fstat enter
  assert_identity_at empty expected u = grind (arith, respects.untouched)

  assert_identity_named :
      (empty : Bool) (expected : Option ℕ) (u t : Session)
      → u.reservation.identity ≡ identity
      → assert_identity env empty expected u ≡ (done tt, t)
      → t.process.world.entry ≡ some identity
  unfolding assert_identity
  assert_identity_named empty expected u t h e = grind (arith, matches_lem env)

  -- The parts of the block that returned.
  record Parts (bytes : Bytes) (d : ℕ) (t : Session) : Type 0 where
    not_empty : 0 < length bytes
    bounded : length bytes ≤ max_receipt_bytes
    first : assert_identity env true none s ≡ (done tt, checked_empty env bytes d s)
    loop :
        write_all env (suc (length bytes)) d bytes 0 (checked_empty env bytes d s).process
        ≡ (done tt, all_written env bytes d s)
    second :
        assert_identity env false (some (length bytes)) (synced env bytes d s)
        ≡ (done tt, checked_full env bytes d s)
    last : t ≡ record {
      reservation = without_descriptor (checked_full env bytes d s).reservation;
      process = (close env d (checked_full env bytes d s).process).1;
    }

  finalize-Parts :
      (bytes : Bytes) (d : ℕ) (t : Session)
      → finalize env (done bytes) d s ≡ (done tt, t)
      → Parts bytes d t
  unfolding finalize
  finalize-Parts bytes d t e = ground arith

  -- What the block has established when it returns.
  record IsFinal (bytes : Bytes) (t : Session) : Type 0 where
    content : (t.process.world.at identity).content ≡ bytes
    plain : IsPlain (t.process.world.at identity)
    not_empty : 0 < length bytes
    bounded : length bytes ≤ max_receipt_bytes
    named : IsQuietBefore env t → t.process.world.entry ≡ some identity

  take_all : (xs : Bytes) → take (length xs) xs ≡ xs
  take_all [] = refl
  take_all (x ∷ xs) = ap (λ (r : Bytes). x ∷ r) (take_all xs)

  checked_empty-HasWritten :
      (bytes : Bytes) (d : ℕ)
      → IsOpen env s respects d 0
      → Confirms env s respects d true none (checked_empty env bytes d s)
      → HasWritten env identity respects d bytes 0 (checked_empty env bytes d s).process
  checked_empty-HasWritten bytes d o c = record {
    position = ap (λ (table : ℕ → Option Opened). table d) c.table ∙ o.opened;
    content = c.emptiness refl;
    plain = c.plain;
    bounded = omega arith;
  }

  finalize_named :
      (bytes : Bytes) (d : ℕ) (t : Session)
      → Parts bytes d t
      → IsQuietBefore env t
      → t.process.world.entry ≡ some identity
  finalize_named bytes d t parts quiet = ground (
    arith,
    parts,
    assert_identity-Keeps env true none s,
    assert_identity_named false (some (length bytes)) (synced env bytes d s)
        (checked_full env bytes d s),
    close_named d
        (record (checked_full env bytes d s) {
          reservation = without_descriptor (checked_full env bytes d s).reservation;
        })
        (record {
          kept =
              λ n w h. quiet.kept n w (h ∙ ap (λ (u : Session). u.process.clock) (sym parts.last));
        }),
  )

  finalize-IsFinal :
      (bytes : Bytes) (d : ℕ) (t : Session)
      → IsOpen env s respects d 0
      → Parts bytes d t
      → IsFinal bytes t
  finalize-IsFinal bytes d t o parts =
      let confirmed =
        assert_identity-Confirms env s respects d 0 true none (checked_empty env bytes d s) o
          parts.first in
      let filled =
        write_all-HasWritten env identity respects d bytes (suc (length bytes)) 0
          (checked_empty env bytes d s).process (all_written env bytes d s)
          (checked_empty-HasWritten bytes d o confirmed) parts.loop in
      let still =
        close_at d (checked_full env bytes d s).process
        ∙ (assert_identity_at false (some (length bytes)) (synced env bytes d s)
            ∙ fsync_at d (all_written env bytes d s)) in
      let at_end = ap (λ (u : Session). u.process.world.at identity) parts.last ∙ still in
      record {
        content = ap (λ (n : Inode). n.content) at_end ∙ (filled.content ∙ take_all bytes);
        plain = IsPlain-eq (sym at_end) filled.plain;
        not_empty = parts.not_empty;
        bounded = parts.bounded;
        named = finalize_named bytes d t parts;
      }

  failed_raises : (e : Exception) (u : Session) → (failed env e u).0 ≢ done tt
  unfolding failed
  failed_raises e u h = ground arith

  commit_finalized :
      (bytes : Bytes) (d : ℕ) (t : Session)
      → s.reservation.descriptor ≡ some d
      → commit env (done bytes) s ≡ (done tt, t)
      → let (r, u) = finalize env (done bytes) d s in
        (r ≡ done tt)
        × (t ≡ record u {
          reservation = record u.reservation { descriptor = none; committed = true };
        })
  unfolding commit
  commit_finalized bytes d t h e = grind (arith, failed_raises)

  -- `commit` on a reservation that is open at its start, when it returns.
  pub commit-IsWritten :
      (bytes : Bytes) (d : ℕ) (t : Session)
      → IsOpen env s respects d 0
      → commit env (done bytes) s ≡ (done tt, t)
      → IsQuietBefore env t
      → IsWritten bytes t
  commit-IsWritten bytes d t o e quiet =
      let (returned, ended) = commit_finalized bytes d t o.descriptor e in
      let parts =
        finalize-Parts bytes d (finalize env (done bytes) d s).1
          (ap (λ (r : Result ⊤). (r, (finalize env (done bytes) d s).1)) returned) in
      let final = finalize-IsFinal bytes d (finalize env (done bytes) d s).1 o parts in
      let process = ap (λ (u : Session). u.process) ended in
      record {
        content = ap (λ (p : Process). (p.world.at identity).content) process ∙ final.content;
        plain = IsPlain-eq (ap (λ (p : Process). p.world.at identity) (sym process)) final.plain;
        not_empty = final.not_empty;
        bounded = final.bounded;
        committed = ap (λ (u : Session). u.reservation.committed) ended;
        closed = ap (λ (u : Session). u.reservation.descriptor) ended;
        named =
            ap (λ (p : Process). p.world.entry) process
            ∙ final.named (record {
              kept = λ n w h. quiet.kept n w (h ∙ ap (λ (p : Process). p.clock) (sym process));
            });
      }
