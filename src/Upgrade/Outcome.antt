-- ===== src/Upgrade/Outcome.antt =====
-- What src/ios_rehydrate/upgrade.py tells its caller about the boundary.
use mathlib.Core.Path.{subst}
use ios_rehydrate.Prelude.{
  ℕ, ⊤, zero, suc, ◌+◌, ◌≡◌, ◌⊎◌, refl, sym, ap, ◌∙◌, Bool, true, false, Option, none, some, List,
  [], ◌∷◌, arith, All,
}
use ios_rehydrate.Prelude.Bytes.{Text}
use ios_rehydrate.Prelude.Values.{Value, dict}
use ios_rehydrate.Errors.{
  ExitCode, outcome_unknown, postcheck_failed, Exception, rehydrate, Result, done, raise, error,
  outcome_unknown_error, timeout_error,
}
use ios_rehydrate.Apps.{AppSnapshot, inspect_app, lookup_failed}
use ios_rehydrate.Apps.Inspection.{inspect_app-raise_iff}
use ios_rehydrate.Ipa.Payload.{ValidatedIpa}
use ios_rehydrate.Upgrade.Session.{
  open_afc, lookup, sleep, Awaited, expired, finished, Environment, Run, start, within_time,
  bind_rule,
}
use ios_rehydrate.Upgrade.{
  answer_at, preflight, stage_and_send, staged_operation, report_failure, shielded_cleanup, mutate,
  conclude, proceed, postflight_from, rehydrate_app, Evidence, first_interruption, cleanup_result,
}
use ios_rehydrate.Upgrade.Boundary.{preflight_still}

abbrev pub is_outcome_code : ExitCode → Bool
is_outcome_code outcome_unknown = true
is_outcome_code postcheck_failed = true
is_outcome_code _ = false

-- The exception says that the command was sent: exit status 52 or 53.
abbrev pub claims_send : Exception → Bool
claims_send (rehydrate e) = is_outcome_code e.code
claims_send _ = false

abbrev pub Silent {ℓ} : {A : Type ℓ} → Result A → Type 0
Silent (done a) = Unit
Silent (raise e) = claims_send e ≡ false

abbrev pub SilentCall : Option (Result ⊤) → Type 0
SilentCall none = Unit
SilentCall (some outcome) = Silent outcome

abbrev SilentError : Option Exception → Type 0
SilentError none = Unit
SilentError (some e) = claims_send e ≡ false

-- The services and the callback raise no error with one of the two codes: the services do not know the
-- class, and the callback raises receipt errors.
pub record IsForeign (env : Environment) : Type 0 where
  pub afc_enter : Silent env.afc_enter
  pub afc_exit : Silent env.afc_exit
  pub makedirs : Silent env.makedirs
  pub set_file_contents : Silent env.set_file_contents
  pub proxy_enter : Silent env.proxy_enter
  pub proxy_exit : Silent env.proxy_exit
  pub on_mutation_boundary : SilentCall env.on_mutation_boundary
  pub interruptions : All (λ e. claims_send e ≡ false) env.interruptions
  pub rm_single : Silent (within_time env.rm_single)

Silent-raise :
    {A : Type 0} (r : Result A) → ((e : Exception) → r ≡ raise e → claims_send e ≡ false) → Silent r
Silent-raise (done a) h = tt
Silent-raise (raise e) h = h e refl

lookup_failed-Silent : (e : Exception) → claims_send (lookup_failed e) ≡ false
lookup_failed-Silent (rehydrate e) = refl
lookup_failed-Silent _ = refl

inspect_app-Silent :
    (sha256 : Text → Text) (bundle : Text) (answer : Result Value)
    → Silent (inspect_app sha256 bundle answer)
inspect_app-Silent sha256 bundle (done (dict result)) = Silent-raise _ (λ e h.
    let (_, _, _, _, unhashed) = (inspect_app-raise_iff sha256 bundle result e).0 h in rw unhashed)
inspect_app-Silent sha256 bundle (done _) = unfold inspect_app in refl
inspect_app-Silent sha256 bundle (raise e) = unfold inspect_app in lookup_failed-Silent e

cleanup-Silent : {env : Environment} → IsForeign env → SilentError (shielded_cleanup env).1
unfolding shielded_cleanup
cleanup-Silent {env} foreign =
    result_of (within_time env.rm_single) _ foreign.rm_single
      (waited none env.interruptions tt foreign.interruptions)
  where
    waited :
        (i : Option Exception) (es : List Exception)
        → SilentError i
        → All (λ e. claims_send e ≡ false) es
        → SilentError (first_interruption i es)
    waited i [] h k = h
    waited none (e ∷ es) h k = waited (some e) es k.0 k.1
    waited (some first) (e ∷ es) h k = waited (some first) es h k.1

    result_of :
        (r : Result Bool) (i : Option Exception)
        → Silent r
        → SilentError i
        → SilentError (cleanup_result r i).1
    result_of (done removed) i hr hi = hi
    result_of (raise e) none hr hi = hr
    result_of (raise e) (some first) hr hi = hi

module _ (sha256 : Text → Text) (env : Environment) (payload : ValidatedIpa) where
  answer_at-Silent : (n : ℕ) → Silent (answer_at sha256 env payload n)
  answer_at-Silent n = at_answer (env.lookup_answer n)
    where
      at_answer :
          (answer : Awaited Value)
          → Silent (elim answer as (λ _. Result AppSnapshot) [
            | expired ↦ raise timeout_error
            | finished a ↦ inspect_app sha256 payload.bundle_identifier a
          ])
      at_answer expired = refl
      at_answer (finished a) = inspect_app-Silent sha256 payload.bundle_identifier a

  stage_and_send-Silent :
      IsForeign env
      → (run : Run) → run.send_boundary_crossed ≡ false
      → (stage_and_send sha256 env payload run).1.send_boundary_crossed ≡ false
      → Silent (stage_and_send sha256 env payload run).0
  unfolding stage_and_send
  stage_and_send-Silent foreign run h crossed = ground (arith, answer_at-Silent 1)

  mutate-raise :
      IsForeign env
      → (run : Run) → run.send_boundary_crossed ≡ false
      → (mutate sha256 env payload run).1.send_boundary_crossed ≡ false
      → Silent (mutate sha256 env payload run).0
  unfolding mutate staged_operation report_failure
  mutate-raise foreign run h crossed = ground (
    arith,
    stage_and_send-Silent foreign (record run { events = open_afc ∷ run.events }),
    cleanup-Silent foreign,
  )

  -- The exception of a run that crossed the boundary.
  abbrev pub SaysSent : Exception → Bool → Type 0
  SaysSent e removed =
      (e ≡ outcome_unknown_error (some removed))
      ⊎ (e ≡ error postcheck_failed "UPGRADE_POSTCHECK_FAILED")

  -- What a result says, given the boundary flag and the cleanup flag of its run.
  abbrev pub SaysTruth : {A : Type 0} → Result A → Bool → Bool → Type 0
  SaysTruth (done a) crossed removed = crossed ≡ true
  SaysTruth (raise e) true removed = SaysSent e removed
  SaysTruth (raise e) false removed = claims_send e ≡ false

  abbrev Truthful : {A : Type 0} → Result A × Run → Type 0
  Truthful (outcome, run) = SaysTruth outcome run.send_boundary_crossed run.staging_removed

  stage_and_send-crossed :
      (run : Run)
      → (stage_and_send sha256 env payload run).0 ≡ done tt
      → (stage_and_send sha256 env payload run).1.send_boundary_crossed ≡ true
  unfolding stage_and_send
  stage_and_send-crossed run h = ground arith

  mutate-Truthful :
      IsForeign env
      → (run : Run) → run.send_boundary_crossed ≡ false
      → Truthful (mutate sha256 env payload run)
  unfolding mutate staged_operation report_failure
  mutate-Truthful foreign run h = ground (
    arith,
    stage_and_send-Silent foreign (record run { events = open_afc ∷ run.events }),
    stage_and_send-crossed (record run { events = open_afc ∷ run.events }),
    cleanup-Silent foreign,
  )

  postflight-Truthful :
      (left attempt : ℕ) (run : Run)
      → run.send_boundary_crossed ≡ true
      → Truthful (postflight_from sha256 env payload left attempt run.staging_removed run)
  unfolding postflight_from
  postflight-Truthful zero attempt run h = ground arith
  postflight-Truthful (suc left) attempt run h = ground (
    arith,
    postflight-Truthful left (attempt + 1) (record run { events = lookup ∷ run.events }) h,
    postflight-Truthful left (attempt + 1) (record run { events = sleep ∷ lookup ∷ run.events }) h,
  )

  conclude-Truthful :
      (snapshot : AppSnapshot) (run : Run)
      → run.send_boundary_crossed ≡ true
      → Truthful (conclude sha256 env payload snapshot run)
  unfolding conclude
  conclude-Truthful snapshot run h = ground (arith, postflight-Truthful 3 0 run h)

  proceed-Truthful :
      IsForeign env
      → (snapshot : AppSnapshot) (run : Run) → run.send_boundary_crossed ≡ false
      → Truthful (proceed sha256 env payload snapshot run)
  unfolding proceed
  proceed-Truthful foreign snapshot run h =
      bind_rule Truthful (λ _. conclude sha256 env payload snapshot) (mutate sha256 env payload)
        ready (λ e r eq. subst Truthful eq mutated)
        (λ a r eq. conclude-Truthful snapshot r (subst Truthful eq mutated))
    where
      ready : Run
      ready = record run { before = some snapshot }

      mutated : Truthful (mutate sha256 env payload ready)
      mutated = mutate-Truthful foreign ready h

  preflight-Silent : (run : Run) → Silent (preflight sha256 env payload run).0
  unfolding preflight
  preflight-Silent run = ground (arith, answer_at-Silent 0)

  raised-Truthful :
      (e : Exception) (r : Run)
      → r.send_boundary_crossed ≡ false
      → claims_send e ≡ false
      → Truthful {A = Evidence} (raise e, r)
  raised-Truthful e r uncrossed silent = ground arith

  -- If the services and the callback raise no error with the statuses of an unknown outcome or a
  -- failed postcheck, a returned result means that the boundary was crossed; an exception after it
  -- is the unknown outcome with the real state of the cleanup or the failed postcheck; an exception
  -- before it is never one with their statuses.
  pub rehydrate_app-SaysTruth :
      IsForeign env
      → let (outcome, run) = rehydrate_app sha256 env payload start in
        SaysTruth outcome run.send_boundary_crossed run.staging_removed
  unfolding rehydrate_app
  rehydrate_app-SaysTruth foreign =
      bind_rule Truthful (proceed sha256 env payload) (preflight sha256 env payload) start
        (λ e r eq.
          raised-Truthful e r (uncrossed (raise e) r eq)
            (subst (λ (x : Result AppSnapshot × Run). Silent x.0) eq (preflight-Silent start)))
        (λ s r eq. proceed-Truthful foreign s r (uncrossed (done s) r eq))
    where
      uncrossed :
          (o : Result AppSnapshot) (r : Run)
          → preflight sha256 env payload start ≡ (o, r)
          → r.send_boundary_crossed ≡ false
      uncrossed o r eq =
          ap (λ (x : Result AppSnapshot × Run). x.1.send_boundary_crossed) (sym eq)
          ∙ (preflight_still sha256 env payload start).2
