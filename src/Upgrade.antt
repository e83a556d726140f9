-- ===== src/Upgrade.antt =====
-- src/ios_rehydrate/upgrade.py: the guarded Upgrade of one app, from the first inspection to the
-- postflight.
pub mod Session
mod Verdicts
mod Boundary
pub mod Guards
mod Cleanup
mod Outcome
mod Success
mod Tests
use ios_rehydrate.Prelude.{
  ℕ, ⊤, zero, suc, ◌+◌, ◌≡◌, Bool, true, false, not, ◌&&◌, ◌||◌, Option, none, some, List, [], ◌∷◌,
  ltb, if◌then◌else◌,
}
use ios_rehydrate.Prelude.Bytes.{Text, eq_text}
use ios_rehydrate.Errors.{
  Exception, Result, done, raise, rehydrate, base, timeout_error, error, outcome_unknown_error,
  device_unavailable, policy_refused, upgrade_failed, postcheck_failed,
}
use ios_rehydrate.Apps.{
  AppState, AppSnapshot, absent, placeholder, installed, system, ambiguous, inspect_app,
}
use ios_rehydrate.Ipa.Payload.{ValidatedIpa}
use Session.{
  Awaited, expired, finished, Event, lookup, open_afc, make_directory, write_staging, open_proxy,
  notify_boundary, send_upgrade, close_proxy, remove_staging, close_afc, sleep, Environment, Run,
  start, Step, pure, throw, call, within_time, handle_with, ◌>>=◌, ◌>>◌, assign, throw_if,
}

abbrev pub is_placeholder_state : AppState → Bool
is_placeholder_state placeholder = true
is_placeholder_state _ = false

abbrev pub is_installed_state : AppState → Bool
is_installed_state installed = true
is_installed_state _ = false

abbrev pub is_ambiguous_state : AppState → Bool
is_ambiguous_state ambiguous = true
is_ambiguous_state _ = false

-- `_eligible_target`
unfoldable pub eligible_target : AppSnapshot → Bool
eligible_target snapshot =
    is_placeholder_state snapshot.state && (snapshot.is_placeholder || snapshot.is_demoted)

-- `shown == value` where `shown` may be `None`
abbrev pub shows : Option Text → Text → Bool
shows none value = false
shows (some shown) value = eq_text shown value

-- `_postflight_matches`
unfoldable pub postflight_matches : AppSnapshot → ValidatedIpa → Bool
postflight_matches snapshot payload =
    is_installed_state snapshot.state
    && not snapshot.is_placeholder
    && not snapshot.is_demoted
    && shows snapshot.version payload.version
    && shows snapshot.build payload.build

-- `_shielded_cleanup`'s loop: an interruption is kept if it is the first.
abbrev pub first_interruption : Option Exception → List Exception → Option Exception
first_interruption interruption [] = interruption
first_interruption none (e ∷ rest) = first_interruption (some e) rest
first_interruption (some first) (e ∷ rest) = first_interruption (some first) rest

-- `cleanup_task.result() is True`
abbrev pub cleanup_result : Result Bool → Option Exception → Bool × Option Exception
cleanup_result (done removed) interruption = (removed, interruption)
cleanup_result (raise e) none = (false, some e)
cleanup_result (raise e) (some first) = (false, some first)

-- `if error is not None: raise error`
abbrev pub raise_error : Option Exception → Step ⊤
raise_error none = pure tt
raise_error (some e) = throw e

pub record Evidence : Type 0 where
  pub sha256 : Text
  pub size : ℕ
  pub before_upgrade : AppSnapshot
  pub after_upgrade : AppSnapshot
  pub staging_removed : Bool

-- `except TimeoutError: raise RehydrateError(...)`
abbrev pub on_timeout : Exception → Exception → Exception
on_timeout replacement timeout_error = replacement
on_timeout replacement e = e

-- `if on_mutation_boundary is not None: on_mutation_boundary()`
abbrev pub notify : Option (Result ⊤) → Step ⊤
notify none = pure tt
notify (some outcome) = call notify_boundary outcome

-- An exit that raises takes the place of what the body raised.
abbrev pub leave : {A : Type 0} → Event → Result ⊤ → Result A → Step A
leave event exit outcome = do call event exit; (λ run. (outcome, run))

abbrev pub closing : {A : Type 0} → Event → Result ⊤ → Step A → Step A
closing event exit body run = let (outcome, run') = body run in leave event exit outcome run'

-- The last handler. `none` for the code means that the exception is no `RehydrateError`.
abbrev pub start_failure : Exception → Exception
start_failure (rehydrate e) = rehydrate e
start_failure base = base
start_failure _ = error upgrade_failed "UPGRADE_START_FAILED"

unfoldable pub report_failure : Exception → Step ⊤
report_failure e run =
    if run.send_boundary_crossed
    then throw (outcome_unknown_error (some run.staging_removed)) run
    else if run.staging_write_attempted && not run.staging_removed
    then throw (error upgrade_failed "STAGING_CLEANUP_UNCONFIRMED") run
    else throw (start_failure e) run

-- `_shielded_cleanup`: whether the file is gone, and what was raised meanwhile.
unfoldable pub shielded_cleanup : Environment → Bool × Option Exception
shielded_cleanup env =
    cleanup_result (within_time env.rm_single) (first_interruption none env.interruptions)

module _ (sha256 : Text → Text) (env : Environment) (payload : ValidatedIpa) where
  -- `inspect_app` under `asyncio.timeout`, on the answer to the n-th lookup
  abbrev pub answer_at : ℕ → Result AppSnapshot
  answer_at n = elim (env.lookup_answer n) [
    | expired ↦ raise timeout_error
    | finished answer ↦ inspect_app sha256 payload.bundle_identifier answer
  ]

  unfoldable pub inspect_in_time : ℕ → Step AppSnapshot
  inspect_in_time n = call lookup (answer_at n)

  unfoldable pub preflight : Step AppSnapshot
  unfolding inspect_in_time
  preflight = do
    snapshot ←
        handle_with (inspect_in_time 0)
          (λ e. throw (on_timeout (error device_unavailable "APP_PREFLIGHT_TIMEOUT") e))
    throw_if (not (eligible_target snapshot)) (error policy_refused "TARGET_NOT_REHYDRATABLE")
    pure snapshot

  -- The body of `async with InstallationProxyService(lockdown)`
  unfoldable pub send : Step ⊤
  send = do
    notify env.on_mutation_boundary
    assign (λ run. record run { send_boundary_crossed = true })
    call send_upgrade (within_time env.send_package)

  -- The innermost `try`
  unfoldable pub stage_and_send : Step ⊤
  unfolding inspect_in_time send
  stage_and_send = do
    call make_directory env.makedirs
    assign (λ run. record run { staging_write_attempted = true })
    call write_staging env.set_file_contents
    before_send ←
        handle_with (inspect_in_time 1)
          (λ e. throw (on_timeout (error device_unavailable "APP_FINAL_PREFLIGHT_TIMEOUT") e))
    throw_if (not (eligible_target before_send))
        (error policy_refused "TARGET_CHANGED_DURING_STAGING")
    assign (λ run. record run { before = some before_send })
    call open_proxy env.proxy_enter
    closing close_proxy env.proxy_exit send

  -- The body of `async with AfcService(lockdown)`: the operation's own exception goes first.
  unfoldable pub staged_operation : Step ⊤
  staged_operation run =
      let (outcome, run') = stage_and_send run in
      let (removed, cleanup_error) = shielded_cleanup env in
      (do
        call remove_staging (done tt)
        assign (λ r. record r { staging_removed = removed })
        (λ r. (outcome, r))
        raise_error cleanup_error)
        run'

  unfoldable pub mutate : Step ⊤
  mutate =
      handle_with (do call open_afc env.afc_enter; closing close_afc env.afc_exit staged_operation)
        report_failure

  -- `_bounded_postflight`, with the attempts left and the number of the next one
  unfoldable pub postflight_from : ℕ → ℕ → Bool → Step AppSnapshot
  unfolding inspect_in_time
  postflight_from zero attempt removed = throw (error postcheck_failed "UPGRADE_POSTCHECK_FAILED")
  postflight_from (suc left) attempt removed = do
    snapshot ←
        handle_with (inspect_in_time (2 + attempt))
          (λ e. throw (outcome_unknown_error (some removed)))
    throw_if (is_ambiguous_state snapshot.state) (outcome_unknown_error (some removed))
    let later : Step AppSnapshot = postflight_from left (attempt + 1) removed
    let wait : Step ⊤ =
        handle_with (call sleep (env.sleeping attempt))
          (λ e. throw (outcome_unknown_error (some removed)))
    if postflight_matches snapshot payload
        then pure snapshot
        else if ltb (attempt + 1) 3
        then (wait >> later)
        else later

  -- The statements behind the last handler
  unfoldable pub conclude : AppSnapshot → Step Evidence
  conclude snapshot run =
      (do
        after ← postflight_from 3 0 run.staging_removed
        pure (record {
          sha256 = payload.sha256;
          size = payload.size;
          before_upgrade = elim run.before [ none ↦ snapshot | some latest ↦ latest ];
          after_upgrade = after;
          staging_removed = run.staging_removed;
        }))
        run

  unfoldable pub proceed : AppSnapshot → Step Evidence
  proceed snapshot = do
    assign (λ run. record run { before = some snapshot })
    mutate
    conclude snapshot

  unfoldable pub rehydrate_app : Step Evidence
  rehydrate_app = do snapshot ← preflight; proceed snapshot
