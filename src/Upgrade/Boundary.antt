-- ===== src/Upgrade/Boundary.antt =====
-- Where src/ios_rehydrate/upgrade.py crosses the boundary: when the Upgrade command is sent.
use ios_rehydrate.Prelude.{
  ℕ, ⊤, zero, suc, ◌+◌, ◌≡◌, ap, Bool, true, false, some, List, [], ◌∷◌, arith, if◌then◌else◌,
}
use ios_rehydrate.Prelude.Bytes.{Text}
use ios_rehydrate.Errors.{Result}
use ios_rehydrate.Apps.{AppSnapshot}
use ios_rehydrate.Ipa.Payload.{ValidatedIpa}
use ios_rehydrate.Upgrade.Session.{
  Event, open_afc, lookup, sleep, send_upgrade, remove_staging, Environment, Run, start, bind_rule,
}
use ios_rehydrate.Upgrade.{
  preflight, postflight_from, send, stage_and_send, staged_operation, report_failure,
  shielded_cleanup, mutate, conclude, proceed, rehydrate_app,
}

abbrev pub is_send : Event → Bool
is_send send_upgrade = true
is_send _ = false

abbrev pub is_removal : Event → Bool
is_removal remove_staging = true
is_removal _ = false

-- How often an event of a kind was recorded.
abbrev pub count : (Event → Bool) → List Event → ℕ
count kind [] = 0
count kind (event ∷ events) = if kind event then suc (count kind events) else count kind events

abbrev pub tally : Bool → ℕ
tally true = 1
tally false = 0

module _ (sha256 : Text → Text) (env : Environment) (payload : ValidatedIpa) where
  send-count :
      (run : Run)
      → run.send_boundary_crossed ≡ false
      → let after = (send sha256 env payload run).1 in
        (count is_send after.events ≡ count is_send run.events + tally after.send_boundary_crossed)
  unfolding send
  send-count run h = ground arith

  stage_and_send-count :
      (run : Run)
      → run.send_boundary_crossed ≡ false
      → let after = (stage_and_send sha256 env payload run).1 in
        (count is_send after.events ≡ count is_send run.events + tally after.send_boundary_crossed)
  unfolding stage_and_send
  stage_and_send-count run h = ground arith

  mutate-count :
      (run : Run)
      → run.send_boundary_crossed ≡ false
      → let after = (mutate sha256 env payload run).1 in
        (count is_send after.events ≡ count is_send run.events + tally after.send_boundary_crossed)
  unfolding mutate staged_operation report_failure shielded_cleanup
  mutate-count run h =
      ground (arith, stage_and_send-count (record run { events = open_afc ∷ run.events }))

  -- The first inspection and the postflight only look and wait.
  abbrev pub Quiet : Run → Run → Type 0
  Quiet run after =
      (count is_send after.events ≡ count is_send run.events)
      × (count is_removal after.events ≡ count is_removal run.events)
      × (after.send_boundary_crossed ≡ run.send_boundary_crossed)

  pub preflight_still : (run : Run) → Quiet run (preflight sha256 env payload run).1
  unfolding preflight
  preflight_still run = ground arith

  pub postflight_still :
      (left attempt : ℕ) (removed : Bool) (run : Run)
      → Quiet run (postflight_from sha256 env payload left attempt removed run).1
  unfolding postflight_from
  postflight_still zero attempt removed run = ground arith
  postflight_still (suc left) attempt removed run = ground (
    arith,
    postflight_still left (attempt + 1) removed (record run { events = lookup ∷ run.events }),
    postflight_still left (attempt + 1) removed
        (record run { events = sleep ∷ lookup ∷ run.events }),
  )

  pub conclude_still :
      (snapshot : AppSnapshot) (run : Run) → Quiet run (conclude sha256 env payload snapshot run).1
  unfolding conclude
  conclude_still snapshot run = ground (arith, postflight_still 3 0 run.staging_removed run)

  abbrev Counted : Run → Run → Type 0
  Counted run after =
      count is_send after.events ≡ count is_send run.events + tally after.send_boundary_crossed

  proceed-count :
      (snapshot : AppSnapshot) (run : Run)
      → run.send_boundary_crossed ≡ false
      → Counted run (proceed sha256 env payload snapshot run).1
  unfolding proceed
  proceed-count snapshot run h =
      let ready : Run = record run { before = some snapshot } in
      bind_rule (λ (_, after). Counted run after) (λ _. conclude sha256 env payload snapshot)
        (mutate sha256 env payload) ready
        (λ e r eq. ground (arith, mutate-count ready, ap (λ (x : Result ⊤ × Run). x.1) eq))
        (λ a r eq. ground (
          arith,
          mutate-count ready,
          conclude_still snapshot r,
          ap (λ (x : Result ⊤ × Run). x.1) eq,
        ))

  -- In every environment the Upgrade command is recorded exactly once if the run has crossed the
  -- send boundary, and not at all otherwise.
  pub rehydrate_app-sends :
      let run = (rehydrate_app sha256 env payload start).1 in
      count is_send run.events ≡ tally run.send_boundary_crossed
  unfolding rehydrate_app
  rehydrate_app-sends =
      bind_rule (λ (_, after). count is_send after.events ≡ tally after.send_boundary_crossed)
        (proceed sha256 env payload) (preflight sha256 env payload) start
        (λ e r eq.
          ground (arith, preflight_still start, ap (λ (x : Result AppSnapshot × Run). x.1) eq))
        (λ a r eq. ground (
          arith,
          preflight_still start,
          proceed-count a r,
          ap (λ (x : Result AppSnapshot × Run). x.1) eq,
        ))
