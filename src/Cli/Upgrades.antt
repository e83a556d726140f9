-- ===== src/Cli/Upgrades.antt =====
-- The upgrade of src/ios_rehydrate/cli.py behind its backup receipt.
use ios_rehydrate.Prelude.{ℕ, ⊤, ◌≡◌, refl, true, Option, none, some}
use ios_rehydrate.Prelude.Bytes.{Bytes, Text}
use ios_rehydrate.Errors.{Result, done, raise, Ensures}
use ios_rehydrate.Ipa.Payload.{ValidatedIpa}
use ios_rehydrate.Receipts.Files.{Environment}
use ios_rehydrate.Receipts.{Session}
use ios_rehydrate.Receipts.Life.{mark_done}
use ios_rehydrate.Receipts.Reading.{Answers, Loaded, Moment}
use ios_rehydrate.Upgrade.Session.{Environment as Services}
use ios_rehydrate.Upgrade.Guards.{SawEligible, rehydrate_app-guards}
use ios_rehydrate.Cli.{recheck_gate, mark_optional, mutation_boundary, rehydrate_guarded}
use ios_rehydrate.Cli.Gate.{IsProven, recheck_gate-IsProven}

-- A reservation, if there is one, is marked.
abbrev pub IsMarked : Option Session → Type 0
IsMarked none = Unit
IsMarked (some s) = s.reservation.operation_started ≡ true

mark_optional-IsMarked :
    (env : Environment) (reservation : Option Session)
    → (mark_optional env reservation).0 ≡ done tt
    → IsMarked (mark_optional env reservation).1
unfolding mark_optional
mark_optional-IsMarked env none h = tt
mark_optional-IsMarked env (some s) h = mark_done env s h

mutation_boundary_lem :
    (env : Environment) (tested : Result ⊤) (reservation : Option Session)
    → (mutation_boundary env tested reservation).0 ≡ done tt
    → (tested ≡ done tt) × IsMarked (mutation_boundary env tested reservation).1
unfolding mutation_boundary
mutation_boundary_lem env (raise e) reservation h = cc
mutation_boundary_lem env (done u) reservation h = (refl, mark_optional-IsMarked env reservation h)

module _ (loads : Bytes → Loaded) (from_iso : Text → Result Moment) (sha256 : Bytes → Text)
    (version : Text) (answers : Answers) (device_ref app_ref digest : Text) (now : ℕ)
    (env : Environment) (reservation : Option Session) (text_sha256 : Text → Text)
    (services : Services) (payload : ValidatedIpa) where
  abbrev pub boundary : Result ⊤ × Option Session
  boundary =
      mutation_boundary env
        (recheck_gate loads from_iso sha256 version answers device_ref app_ref digest now)
        reservation

  -- What stands behind a command that is sent.
  pub record IsLicensed : Type 0 where
    pub proven : IsProven loads from_iso sha256 version answers device_ref app_ref now digest
    pub marked : IsMarked boundary.1
    pub eligible :
        SawEligible text_sha256
          (record services { on_mutation_boundary = some boundary.0 })
          payload
          1

  -- If an upgrade with the callback of app_rehydrate has crossed the send boundary, then the backup
  -- receipt read at the boundary was admitted and fresh and has the digest given, its evidence is
  -- that of a complete encrypted full backup of the device, not empty, and of the app, the
  -- reservation, if there is one, is marked as started, and the inspection before it found the app
  -- offloaded.
  pub rehydrate_guarded-IsLicensed :
      (rehydrate_guarded text_sha256 services payload boundary.0).1.send_boundary_crossed ≡ true
      → IsLicensed
  unfolding rehydrate_guarded
  rehydrate_guarded-IsLicensed crossed =
      let (offered, again, staged) =
        rehydrate_app-guards text_sha256
          (record services { on_mutation_boundary = some boundary.0 }) payload crossed in
      let (tested, marked) = mutation_boundary_lem env _ reservation staged.notified in
      record {
        proven =
            Ensures.at
              (recheck_gate-IsProven loads from_iso sha256 version answers device_ref app_ref now
                digest)
              tt tested;
        marked = marked;
        eligible = again;
      }
