-- ===== src/Upgrade/Guards.antt =====
-- What src/ios_rehydrate/upgrade.py has checked by the time that it crosses the boundary.
use ios_rehydrate.Prelude.{ℕ, ⊤, ◌≡◌, sym, ap, ◌∙◌, true, false, Option, none, some, ◌∷◌, arith}
use ios_rehydrate.Prelude.Bytes.{Text}
use ios_rehydrate.Errors.{Result, done}
use ios_rehydrate.Apps.{AppSnapshot}
use ios_rehydrate.Ipa.Payload.{ValidatedIpa}
use ios_rehydrate.Upgrade.Session.{open_afc, Environment, Run, start, bind_rule}
use ios_rehydrate.Upgrade.{
  eligible_target, answer_at, preflight, stage_and_send, staged_operation, report_failure,
  shielded_cleanup, mutate, conclude, proceed, rehydrate_app,
}
use ios_rehydrate.Upgrade.Verdicts.{IsEligible, eligible_target-IsEligible}
use ios_rehydrate.Upgrade.Boundary.{conclude_still, preflight_still}

-- The caller's callback has returned, if there is one.
abbrev pub Notified : Option (Result ⊤) → Type 0
Notified none = Unit
Notified (some outcome) = outcome ≡ done tt

module _ (sha256 : Text → Text) (env : Environment) (payload : ValidatedIpa) where
  -- The n-th inspection has returned a snapshot that the code's test accepts.
  abbrev Tested : ℕ → Type 0
  Tested n =
      (snapshot : AppSnapshot) × (answer_at sha256 env payload n ≡ done snapshot)
      × (eligible_target snapshot ≡ true)

  -- What `stage_and_send` needs for sending.
  pub record IsStaged : Type 0 where
    pub directory : env.makedirs ≡ done tt
    pub written : env.set_file_contents ≡ done tt
    pub proxy : env.proxy_enter ≡ done tt
    pub notified : Notified env.on_mutation_boundary

  stage_and_send-eligible :
      (run : Run)
      → run.send_boundary_crossed ≡ false
      → (stage_and_send sha256 env payload run).1.send_boundary_crossed ≡ true
      → Tested 1
  unfolding stage_and_send
  stage_and_send-eligible run h crossed = ground arith

  stage_and_send-IsStaged :
      (run : Run)
      → run.send_boundary_crossed ≡ false
      → (stage_and_send sha256 env payload run).1.send_boundary_crossed ≡ true
      → IsStaged
  unfolding stage_and_send
  stage_and_send-IsStaged run h crossed = ground arith

  mutate-crossed :
      (run : Run)
      → run.send_boundary_crossed ≡ false
      → (mutate sha256 env payload run).1.send_boundary_crossed ≡ true
      → (stage_and_send sha256 env payload
          (record run { events = open_afc ∷ run.events })).1.send_boundary_crossed
        ≡ true
  unfolding mutate staged_operation report_failure shielded_cleanup
  mutate-crossed run h crossed = ground arith

  preflight-eligible :
      (run : Run) (s : AppSnapshot) (r : Run)
      → preflight sha256 env payload run ≡ (done s, r)
      → Tested 0
  unfolding preflight
  preflight-eligible run s r h = ground arith

  -- The run that `proceed` hands to `mutate`.
  abbrev pub with_before : AppSnapshot → Run → Run
  with_before snapshot run = record run { before = some snapshot }

  abbrev Checked : Type 0
  Checked = Tested 1 × IsStaged

  proceed-checked :
      (snapshot : AppSnapshot) (run : Run)
      → run.send_boundary_crossed ≡ false
      → (proceed sha256 env payload snapshot run).1.send_boundary_crossed ≡ true
      → Checked
  unfolding proceed
  proceed-checked snapshot run h =
      bind_rule (λ (_, after). after.send_boundary_crossed ≡ true → Checked)
        (λ _. conclude sha256 env payload snapshot) (mutate sha256 env payload) ready
        (λ e r eq crossed.
          checked (ap (λ (x : Result ⊤ × Run). x.1.send_boundary_crossed) eq ∙ crossed))
        (λ a r eq crossed. checked (
          ap (λ (x : Result ⊤ × Run). x.1.send_boundary_crossed) eq
          ∙ (sym (conclude_still sha256 env payload snapshot r).2 ∙ crossed)))
    where
      ready : Run
      ready = with_before snapshot run

      checked : (mutate sha256 env payload ready).1.send_boundary_crossed ≡ true → Checked
      checked crossed =
          let inner = mutate-crossed ready h crossed in
          (stage_and_send-eligible _ h inner, stage_and_send-IsStaged _ h inner)

  -- What the code's own tests have said, once the boundary is crossed.
  rehydrate_app-tests :
      (rehydrate_app sha256 env payload start).1.send_boundary_crossed ≡ true
      → Tested 0 × Tested 1 × IsStaged
  unfolding rehydrate_app
  rehydrate_app-tests =
      bind_rule (λ (_, after). after.send_boundary_crossed ≡ true → Tested 0 × Tested 1 × IsStaged)
        (proceed sha256 env payload) (preflight sha256 env payload) start
        (λ e r eq crossed. ground (
          arith,
          preflight_still sha256 env payload start,
          ap (λ (x : Result AppSnapshot × Run). x.1) eq,
        ))
        (λ s r eq crossed.
          let (offered, staged) =
            proceed-checked s r
              (ground (
                arith,
                preflight_still sha256 env payload start,
                ap (λ (x : Result AppSnapshot × Run). x.1) eq,
              ))
              crossed in
          (preflight-eligible start s r eq, offered, staged))

  -- The n-th inspection has found an offloaded app.
  abbrev pub SawEligible : ℕ → Type 0
  SawEligible n =
      (snapshot : AppSnapshot) × (answer_at sha256 env payload n ≡ done snapshot)
      × IsEligible snapshot

  Tested-SawEligible : (n : ℕ) → Tested n → SawEligible n
  Tested-SawEligible n (s, a, h) = (s, a, eligible_target-IsEligible s h)

  -- If a run of rehydrate_app has crossed the send boundary, then the inspections before and after
  -- staging both answered with an eligible app, the staging directory and the package were written,
  -- the proxy was opened and the callback, if there is one, returned.
  pub rehydrate_app-guards :
      (rehydrate_app sha256 env payload start).1.send_boundary_crossed ≡ true
      → SawEligible 0 × SawEligible 1 × IsStaged
  rehydrate_app-guards crossed =
      let (offered, again, staged) = rehydrate_app-tests crossed in
      (Tested-SawEligible 0 offered, Tested-SawEligible 1 again, staged)
