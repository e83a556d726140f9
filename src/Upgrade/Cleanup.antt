-- ===== src/Upgrade/Cleanup.antt =====
-- The cleanup of src/ios_rehydrate/upgrade.py: the staged file is removed after whatever was sent, and
-- an interruption does not stop that.
use mathlib.Core.Path.{subst}
use ios_rehydrate.Prelude.{
  ℕ, ⊤, zero, suc, ◌+◌, ◌≤◌, ◌≡◌, refl, ap, Bool, true, Option, none, some, List, [], ◌∷◌, arith,
  if◌then◌else◌, ◌↔◌, ◌++◌,
}
use ios_rehydrate.Prelude.Bytes.{Text}
use ios_rehydrate.Errors.{Exception, Result, done, raise}
use ios_rehydrate.Apps.{AppSnapshot}
use ios_rehydrate.Ipa.Payload.{ValidatedIpa}
use ios_rehydrate.Upgrade.Session.{
  Event, open_afc, lookup, sleep, Environment, Run, start, within_time, bind_rule,
}
use ios_rehydrate.Upgrade.{
  preflight, stage_and_send, staged_operation, report_failure, shielded_cleanup, mutate, conclude,
  proceed, first_interruption, cleanup_result, postflight_from, rehydrate_app,
}
use ios_rehydrate.Upgrade.Boundary.{is_send, is_removal, count, preflight_still, conclude_still}

-- The calls since the last removal of the staged file, or all of them.
abbrev pub since_removal : List Event → List Event
since_removal [] = []
since_removal (event ∷ events) = if is_removal event then [] else event ∷ since_removal events

-- No Upgrade command comes after the last removal; without a removal there is none at all.
abbrev pub IsSwept : Run → Type 0
IsSwept run = count is_send (since_removal run.events) ≡ 0

first_interruption-some :
    (first : Exception) (rest : List Exception) → first_interruption (some first) rest ≡ some first
first_interruption-some first [] = refl
first_interruption-some first (e ∷ rest) = first_interruption-some first rest

-- The failure of a result, if it is one
abbrev pub failures : Result Bool → List Exception
failures (done removed) = []
failures (raise e) = e ∷ []

abbrev pub first_of : List Exception → Option Exception
first_of [] = none
first_of (e ∷ rest) = some e

-- Whatever is raised into the wait, shielded_cleanup says that the file is removed exactly if
-- rm_single returned True in time, and it reports the first of the interruptions and then the
-- failure of the task itself.
pub shielded_cleanup_lem :
    (env : Environment)
    → (((shielded_cleanup env).0 ≡ true) ↔ (within_time env.rm_single ≡ done true))
      × ((shielded_cleanup env).1
          ≡ first_of (env.interruptions ++ failures (within_time env.rm_single)))
unfolding shielded_cleanup
shielded_cleanup_lem env =
    ((honest _ _, λ h. rw h), reported (within_time env.rm_single) env.interruptions)
  where
    honest :
        (r : Result Bool) (i : Option Exception) → (cleanup_result r i).0 ≡ true → r ≡ done true
    honest (done removed) i h = ap (λ (b : Bool). done b) h
    honest (raise e) none h = cc
    honest (raise e) (some first) h = cc

    kept : (r : Result Bool) (first : Exception) → (cleanup_result r (some first)).1 ≡ some first
    kept (done removed) first = refl
    kept (raise e) first = refl

    reported :
        (r : Result Bool) (is : List Exception)
        → (cleanup_result r (first_interruption none is)).1 ≡ first_of (is ++ failures r)
    reported (done removed) [] = refl
    reported (raise e) [] = refl
    reported r (first ∷ rest) = rw (first_interruption-some first rest) (kept r first)

module _ (sha256 : Text → Text) (env : Environment) (payload : ValidatedIpa) where
  stage_and_send-removals :
      (run : Run)
      → count is_removal (stage_and_send sha256 env payload run).1.events
        ≡ count is_removal run.events
  unfolding stage_and_send
  stage_and_send-removals run = ground arith

  mutate-IsSwept : (run : Run) → IsSwept run → IsSwept (mutate sha256 env payload run).1
  unfolding mutate staged_operation report_failure shielded_cleanup
  mutate-IsSwept run h = ground arith

  mutate-removals :
      (run : Run)
      → count is_removal (mutate sha256 env payload run).1.events
        ≡ count is_removal run.events + (elim env.afc_enter [ done _ ↦ 1 | raise _ ↦ 0 ])
  unfolding mutate staged_operation report_failure shielded_cleanup
  mutate-removals run =
      ground (arith, stage_and_send-removals (record run { events = open_afc ∷ run.events }))

  preflight-IsSwept : (run : Run) → IsSwept run → IsSwept (preflight sha256 env payload run).1
  unfolding preflight
  preflight-IsSwept run h = ground arith

  postflight-IsSwept :
      (left attempt : ℕ) (removed : Bool) (run : Run)
      → IsSwept run
      → IsSwept (postflight_from sha256 env payload left attempt removed run).1
  unfolding postflight_from
  postflight-IsSwept zero attempt removed run h = ground arith
  postflight-IsSwept (suc left) attempt removed run h = ground (
    arith,
    postflight-IsSwept left (attempt + 1) removed (record run { events = lookup ∷ run.events }),
    postflight-IsSwept left (attempt + 1) removed
        (record run { events = sleep ∷ lookup ∷ run.events }),
  )

  conclude-IsSwept :
      (snapshot : AppSnapshot) (run : Run)
      → IsSwept run
      → IsSwept (conclude sha256 env payload snapshot run).1
  unfolding conclude
  conclude-IsSwept snapshot run h = ground (arith, postflight-IsSwept 3 0 run.staging_removed run h)

  -- The file has been removed at most once, and after the last Upgrade command.
  abbrev pub IsTidy : Run → Type 0
  IsTidy run = IsSwept run × (count is_removal run.events ≤ 1)

  proceed-IsTidy :
      (snapshot : AppSnapshot) (run : Run)
      → IsSwept run
      → count is_removal run.events ≡ 0
      → IsTidy (proceed sha256 env payload snapshot run).1
  unfolding proceed
  proceed-IsTidy snapshot run swept h =
      let ready : Run = record run { before = some snapshot } in
      bind_rule (λ (_, after). IsTidy after) (λ _. conclude sha256 env payload snapshot)
        (mutate sha256 env payload) ready
        (λ e r eq. subst IsTidy (ap (λ (x : Result ⊤ × Run). x.1) eq) (mutated ready swept h))
        (λ a r eq.
          let tidy : IsTidy r =
            subst IsTidy (ap (λ (x : Result ⊤ × Run). x.1) eq) (mutated ready swept h) in
          (
            conclude-IsSwept snapshot r tidy.0,
            omega (arith, tidy.1, (conclude_still sha256 env payload snapshot r).1),
          ))
    where
      mutated :
          (run : Run)
          → IsSwept run
          → count is_removal run.events ≡ 0
          → IsTidy (mutate sha256 env payload run).1
      mutated run swept h = (mutate-IsSwept run swept, ground (arith, mutate-removals run))

  -- In every run the removal of the staged file is recorded at most once, and no Upgrade command
  -- comes after it; without a removal there is no command.
  pub rehydrate_app-IsTidy : IsTidy (rehydrate_app sha256 env payload start).1
  unfolding rehydrate_app
  rehydrate_app-IsTidy =
      bind_rule (λ (_, after). IsTidy after) (proceed sha256 env payload)
        (preflight sha256 env payload) start
        (λ e r eq. subst IsTidy (ap (λ (x : Result AppSnapshot × Run). x.1) eq) inspected)
        (λ s r eq.
          let tidy : IsTidy r =
            subst IsTidy (ap (λ (x : Result AppSnapshot × Run). x.1) eq) inspected in
          proceed-IsTidy s r tidy.0 (
            ground (
              arith,
              preflight_still sha256 env payload start,
              ap (λ (x : Result AppSnapshot × Run). x.1) eq,
            )))
    where
      inspected : IsTidy (preflight sha256 env payload start).1
      inspected = (
        preflight-IsSwept start refl,
        omega (arith, (preflight_still sha256 env payload start).1),
      )
