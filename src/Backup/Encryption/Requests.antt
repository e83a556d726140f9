-- ===== src/Backup/Encryption/Requests.antt =====
-- What `enable_encryption` of src/ios_rehydrate/backup.py asks the device to do, and when.
use ios_rehydrate.Prelude.{
  ℕ, suc, ◌≡◌, refl, sym, ap, ◌∙◌, ◌⊎◌, inl, inr, Bool, true, false, Option, List, [], ◌∷◌, is_nil,
  arith,
}
use ios_rehydrate.Prelude.Bytes.{Text, eq_text→eq}
use ios_rehydrate.Prelude.Values.{text, boolean}
use ios_rehydrate.Errors.{Result, done, raise}
use ios_rehydrate.Backup.Service.{
  Event, change_password, Run, start, Supplied, pair, Environment, encryption_status,
  status_in_time, run_mobilebackup_service, reserve_private_scratch, remove_empty_private_scratch,
}
use ios_rehydrate.Backup.Encryption.{
  EnableReport, Request, agreed_password, reconcile_encryption_enable, request_change, reconcile,
  request, requested, confirm_request, confirm, enter_password, request_and_confirm, enable_with,
  enable, enable_unless, enable_encryption,
}

-- The requests to change a password among the calls: the old one and the new one
abbrev pub changes : List Event → List (Text × Text)
changes [] = []
changes (change_password old new ∷ events) = (old, new) ∷ changes events
changes (_ ∷ events) = changes events

-- The n-th query has answered that encryption is off.
abbrev pub SaidOff : Environment → ℕ → Type 0
SaidOff env n = env.status n ≡ done (boolean false)

agreed_password_lem :
    (s : Supplied) (password : Text)
    → agreed_password s ≡ done password
    → (s ≡ pair (text password) (text password)) × (is_nil password ≡ false)
unfolding agreed_password
agreed_password_lem (pair (text first) (text second)) password h =
    ground (arith, eq_text→eq first second)
agreed_password_lem s password h = cc

module _ (env : Environment) where
  pub encryption_status_lem :
      (run : Run)
      → let (r, after) = encryption_status env run in
        (changes after.events ≡ changes run.events)
        × (after.asked ≡ suc run.asked)
        × ((b : Bool) → r ≡ done b → env.status run.asked ≡ done (boolean b))
  unfolding encryption_status
  encryption_status_lem run = (ground arith, ground arith, λ b h. ground arith)

  pub status_in_time_lem :
      (run : Run)
      → let (r, after) = status_in_time env run in
        (changes after.events ≡ changes run.events)
        × (after.asked ≡ suc run.asked)
        × ((b : Bool) → r ≡ done b → env.status run.asked ≡ done (boolean b))
  unfolding status_in_time
  status_in_time_lem run =
      let (still, asked, said) = encryption_status_lem run in
      (ground (arith, still), ground (arith, asked), λ b h. ground (arith, said b))

  pub reserve_private_scratch_still :
      (run : Run)
      → let after = (reserve_private_scratch env run).1 in
        (changes after.events ≡ changes run.events) × (after.asked ≡ run.asked)
  unfolding reserve_private_scratch
  reserve_private_scratch_still run = ground arith

  pub remove_empty_private_scratch_still :
      (run : Run)
      → let after = (remove_empty_private_scratch env run).1 in
        (changes after.events ≡ changes run.events) × (after.asked ≡ run.asked)
  unfolding remove_empty_private_scratch
  remove_empty_private_scratch_still run = ground arith

  -- At most one more request, to set a first password
  abbrev Asks : Text → Run → Run → Type 0
  Asks password run after =
      (changes after.events ≡ changes run.events)
      ⊎ (changes after.events ≡ ([], password) ∷ changes run.events)

  pub service-Asks :
      (password : Text) (run : Run)
      → let after = (run_mobilebackup_service env (request_change env password) run).1 in
        Asks password run after × (after.asked ≡ run.asked)
  unfolding run_mobilebackup_service
  service-Asks password run = ground arith

  pub reconcile_lem :
      (run : Run)
      → let (r, after) = reconcile env run in
        (changes after.events ≡ changes run.events)
        × ((q : Request)
            → r ≡ done q
            → (q.reconciled ≡ true) × (env.status run.asked ≡ done (boolean true)))
  unfolding reconcile reconcile_encryption_enable
  reconcile_lem run =
      let (still, asked, said) = status_in_time_lem run in
      (ground (arith, still), λ q h. ground (arith, said true))

  request-Asks : (password : Text) (run : Run) → Asks password run (request env password run).1
  unfolding request
  request-Asks password run = ground (
    arith,
    service-Asks password run,
    reconcile_lem (run_mobilebackup_service env (request_change env password) run).1,
  )

  requested-Asks : (password : Text) (run : Run) → Asks password run (requested env password run).1
  unfolding requested
  requested-Asks password run = ground (
    arith,
    request-Asks password run,
    remove_empty_private_scratch_still (request env password run).1,
  )

  confirm_still :
      (x : Request × Bool) (run : Run) → changes (confirm env x run).1.events ≡ changes run.events
  unfolding confirm confirm_request
  confirm_still (q, removed) run = ground (arith, status_in_time_lem run)

  -- The one request: it changes the empty password to one that was entered twice, on a device that has
  -- answered before and after the entry that encryption is off.
  pub record IsGuarded (after : Run) : Type 0 where
    pub password : Text
    pub once : changes after.events ≡ ([], password) ∷ []
    pub not_empty : is_nil password ≡ false
    pub entered_twice : env.password ≡ done (pair (text password) (text password))
    pub off_before : SaidOff env 0
    pub off_after : SaidOff env 1

  pub enter_password_lem :
      (run : Run)
      → let (r, after) = enter_password env run in
        (changes after.events ≡ changes run.events)
        × (after.asked ≡ run.asked)
        × ((password : Text)
            → r ≡ done password
            → (env.password ≡ done (pair (text password) (text password)))
              × (is_nil password ≡ false))
  unfolding enter_password
  enter_password_lem run = (ground arith, ground arith, λ password h. entered password h)
    where
      entered :
          (password : Text)
          → (enter_password env run).0 ≡ done password
          → (env.password ≡ done (pair (text password) (text password))) × (is_nil password ≡ false)
      entered password h =
          let agrees = λ (s : Supplied). agreed_password_lem s password in grind (arith, agrees)

  request_and_confirm-Asks :
      (password : Text) (run : Run) → Asks password run (request_and_confirm env password run).1
  unfolding request_and_confirm
  request_and_confirm-Asks password run =
      let confirms = λ (x : Request × Bool). confirm_still x (requested env password run).1 in
      grind (arith, requested-Asks password run, confirms)

  -- The state after the second query and the creation of the scratch directory
  abbrev prepared : Run → Run
  prepared run = (reserve_private_scratch env (encryption_status env run).1).1

  enable_with_asks :
      (password : Text) (run : Run)
      → let after = (enable_with env password run).1 in
        (changes after.events ≡ changes run.events)
        ⊎ ((changes after.events ≡ ([], password) ∷ changes run.events) × SaidOff env run.asked)
  unfolding enable_with
  enable_with_asks password run =
      let (still, asked, said) = encryption_status_lem run in
      ground (
        arith,
        still,
        said false,
        said true,
        reserve_private_scratch_still (encryption_status env run).1,
        request_and_confirm-Asks password (prepared run),
      )

  guarded :
      (password : Text) (run : Run)
      → changes run.events ≡ []
      → run.asked ≡ 1
      → SaidOff env 0
      → (env.password ≡ done (pair (text password) (text password))) × (is_nil password ≡ false)
      → let after = (enable_with env password run).1 in
        (changes after.events ≡ []) ⊎ IsGuarded after
  guarded password run none_yet second off (given, filled) = elim (enable_with_asks password run) [
    | inl still ↦ inl (still ∙ none_yet)
    | inr (asked, off_again) ↦ inr (record {
      password = password;
      once = asked ∙ ap (λ (l : List (Text × Text)). ([], password) ∷ l) none_yet;
      not_empty = filled;
      entered_twice = given;
      off_before = off;
      off_after = ap env.status (sym second) ∙ off_again;
    })
  ]

  -- The rest of `enable`, by what the password entry returned
  entered_asks :
      (x : Result Text × Run)
      → changes x.1.events ≡ []
      → x.1.asked ≡ 1
      → SaidOff env 0
      → ((password : Text)
          → x.0 ≡ done password
          → (env.password ≡ done (pair (text password) (text password)))
            × (is_nil password ≡ false))
      → let after =
          (elim x.0 as (λ r. Result EnableReport × Run) [
            | done a ↦ enable_with env a x.1
            | raise e ↦ (raise e, x.1)
          ]).1 in
        (changes after.events ≡ []) ⊎ IsGuarded after
  entered_asks (done password, run) none_yet second off given =
      guarded password run none_yet second off (given password refl)
  entered_asks (raise e, run) none_yet second off given = inl none_yet

  enable_asks :
      (run : Run)
      → changes run.events ≡ []
      → run.asked ≡ 1
      → SaidOff env 0
      → (changes (enable env run).1.events ≡ []) ⊎ IsGuarded (enable env run).1
  unfolding enable
  enable_asks run none_yet second off =
      let (still, asked, given) = enter_password_lem run in
      entered_asks (enter_password env run) (still ∙ none_yet) (asked ∙ second) off given

  enable_unless_asks :
      (x : Result Bool × Run)
      → changes x.1.events ≡ []
      → x.1.asked ≡ 1
      → ((b : Bool) → x.0 ≡ done b → env.status 0 ≡ done (boolean b))
      → let after =
          (elim x.0 as (λ r. Result (Option EnableReport) × Run) [
            | done a ↦ enable_unless env a x.1
            | raise e ↦ (raise e, x.1)
          ]).1 in
        (changes after.events ≡ []) ⊎ IsGuarded after
  enable_unless_asks (done true, run) none_yet second said = inl none_yet
  enable_unless_asks (done false, run) none_yet second said =
      ground (arith, enable_asks run none_yet second (said false refl))
  enable_unless_asks (raise e, run) none_yet second said = inl none_yet

  -- In every environment enable_encryption requests no change of the password, or exactly one; then
  -- it is from the empty password to one that is not empty and was supplied twice, and both status
  -- queries before it answered that encryption is off.
  pub enable_encryption-IsGuarded :
      let after = (enable_encryption env start).1 in (changes after.events ≡ []) ⊎ IsGuarded after
  unfolding enable_encryption
  enable_encryption-IsGuarded =
      let (still, asked, said) = encryption_status_lem start in
      enable_unless_asks (encryption_status env start) still asked said
