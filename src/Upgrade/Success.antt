-- ===== src/Upgrade/Success.antt =====
-- What a result that src/ios_rehydrate/upgrade.py returns is evidence of.
use mathlib.Core.Path.{subst}
use ios_rehydrate.Prelude.{ℕ, ⊤, zero, suc, ◌+◌, ◌≡◌, Bool, true, Option, none, some, ◌∷◌, arith}
use ios_rehydrate.Prelude.Bytes.{Text}
use ios_rehydrate.Errors.{Result, done, raise, done-injective}
use ios_rehydrate.Apps.{AppSnapshot}
use ios_rehydrate.Ipa.Payload.{ValidatedIpa}
use ios_rehydrate.Upgrade.Session.{open_afc, lookup, sleep, Environment, Run, start, bind_rule}
use ios_rehydrate.Upgrade.Verdicts.{
  IsEligible, IsRehydrated, eligible_target-IsEligible, postflight_matches-IsRehydrated,
}
use ios_rehydrate.Upgrade.{
  eligible_target, postflight_matches, answer_at, preflight, stage_and_send, staged_operation,
  report_failure, shielded_cleanup, mutate, conclude, proceed, postflight_from, rehydrate_app,
  Evidence,
}

module _ (sha256 : Text → Text) (env : Environment) (payload : ValidatedIpa) where
  -- The snapshot that a run holds is what the last inspection before the boundary saw, and was eligible.
  abbrev pub HoldsEligible : Option AppSnapshot → Type 0
  HoldsEligible none = ⊥
  HoldsEligible (some snapshot) =
      (answer_at sha256 env payload 1 ≡ done snapshot) × (eligible_target snapshot ≡ true)

  stage_and_send-before :
      (run : Run)
      → (stage_and_send sha256 env payload run).0 ≡ done tt
      → HoldsEligible (stage_and_send sha256 env payload run).1.before
  unfolding stage_and_send
  stage_and_send-before run h = ground arith

  -- What `mutate` has done when it returns.
  abbrev Mutated : Result ⊤ × Run → Type 0
  Mutated (raise e, run) = Unit
  Mutated (done _, run) =
      HoldsEligible run.before
      × (run.staging_removed ≡ (shielded_cleanup env).0)
      × ((shielded_cleanup env).1 ≡ none)

  mutate-Mutated : (run : Run) → Mutated (mutate sha256 env payload run)
  unfolding mutate staged_operation report_failure
  mutate-Mutated run =
      ground (arith, stage_and_send-before (record run { events = open_afc ∷ run.events }))

  abbrev Matched : Result AppSnapshot × Run → Type 0
  Matched (raise e, run) = Unit
  Matched (done snapshot, run) = postflight_matches snapshot payload ≡ true

  postflight-Matched :
      (left attempt : ℕ) (removed : Bool) (run : Run)
      → Matched (postflight_from sha256 env payload left attempt removed run)
  unfolding postflight_from
  postflight-Matched zero attempt removed run = ground arith
  postflight-Matched (suc left) attempt removed run = ground (
    arith,
    postflight-Matched left (attempt + 1) removed (record run { events = lookup ∷ run.events }),
    postflight-Matched left (attempt + 1) removed
        (record run { events = sleep ∷ lookup ∷ run.events }),
  )

  -- What the code's own tests have said of the evidence.
  record IsTested (evidence : Evidence) : Type 0 where
    archive : (evidence.sha256 ≡ payload.sha256) × (evidence.size ≡ payload.size)
    before : HoldsEligible (some evidence.before_upgrade)
    after : postflight_matches evidence.after_upgrade payload ≡ true
    cleanup : evidence.staging_removed ≡ (shielded_cleanup env).0
    undisturbed : (shielded_cleanup env).1 ≡ none

  abbrev Proven : Result Evidence × Run → Type 0
  Proven (raise e, run) = Unit
  Proven (done evidence, run) = IsTested evidence

  conclude-Proven :
      (snapshot : AppSnapshot) (run : Run)
      → Mutated (done tt, run)
      → Proven (conclude sha256 env payload snapshot run)
  unfolding conclude
  conclude-Proven snapshot run h = ground (arith, postflight-Matched 3 0 run.staging_removed run)

  proceed-Proven :
      (snapshot : AppSnapshot) (run : Run) → Proven (proceed sha256 env payload snapshot run)
  unfolding proceed
  proceed-Proven snapshot run =
      bind_rule Proven (λ _. conclude sha256 env payload snapshot) (mutate sha256 env payload) ready
        (λ e r eq. tt)
        (λ a r eq. conclude-Proven snapshot r (subst Mutated eq (mutate-Mutated ready)))
    where
      ready : Run
      ready = record run { before = some snapshot }

  rehydrate_app-Proven : Proven (rehydrate_app sha256 env payload start)
  unfolding rehydrate_app
  rehydrate_app-Proven =
      bind_rule Proven (proceed sha256 env payload) (preflight sha256 env payload) start
        (λ e r eq. tt) (λ s r eq. proceed-Proven s r)

  -- What the evidence of a success shows.
  pub record IsProof (evidence : Evidence) : Type 0 where
    pub archive : (evidence.sha256 ≡ payload.sha256) × (evidence.size ≡ payload.size)
    pub seen_before : answer_at sha256 env payload 1 ≡ done evidence.before_upgrade
    pub before : IsEligible evidence.before_upgrade
    pub after : IsRehydrated payload evidence.after_upgrade
    pub cleanup : evidence.staging_removed ≡ (shielded_cleanup env).0
    pub undisturbed : (shielded_cleanup env).1 ≡ none

  IsTested-IsProof : (evidence : Evidence) → IsTested evidence → IsProof evidence
  IsTested-IsProof evidence t = record {
    archive = t.archive;
    seen_before = t.before.0;
    before = eligible_target-IsEligible evidence.before_upgrade t.before.1;
    after = postflight_matches-IsRehydrated evidence.after_upgrade payload t.after;
    cleanup = t.cleanup;
    undisturbed = t.undisturbed;
  }

  -- Evidence that rehydrate_app returns names the digest and size of the payload, an eligible app as
  -- the last inspection before the command saw it, an installed app of the version and build of the
  -- payload after it, and the real state of the cleanup, which nothing disturbed.
  pub rehydrate_app-IsProof :
      (evidence : Evidence)
      → (rehydrate_app sha256 env payload start).0 ≡ done evidence
      → IsProof evidence
  rehydrate_app-IsProof evidence h =
      of_result (rehydrate_app sha256 env payload start) rehydrate_app-Proven h
    where
      of_result : (x : Result Evidence × Run) → Proven x → x.0 ≡ done evidence → IsProof evidence
      of_result (done e, r) p h = subst IsProof (done-injective h) (IsTested-IsProof e p)
      of_result (raise e, r) p h = cc
