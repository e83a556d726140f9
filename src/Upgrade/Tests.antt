-- ===== src/Upgrade/Tests.antt =====
-- An upgrade of an offloaded app that goes well, one whose package cannot be sent, and the theorems at
-- these runs.
use ios_rehydrate.Prelude.{
  ℕ, ◌≡◌, refl, Bool, true, false, none, some, [], ◌∷◌, if◌then◌else◌, ltb, ◌↔◌, ◌++◌,
}
use ios_rehydrate.Prelude.Bytes.{Text, codes, eq_text}
use ios_rehydrate.Prelude.Texts.{strip}
use ios_rehydrate.Prelude.Values.{Value, Fields, text, boolean, array, dict, nil, end, field, get}
use ios_rehydrate.Errors.{type_error, done, raise, outcome_unknown_error, timeout_error, base}
use ios_rehydrate.Apps.{
  AppSnapshot, placeholder, unhashable, inspect_app, bounded_string, application_membership,
}
use ios_rehydrate.Apps.Inspection.{
  IsRedacted, IsOffloaded, claims_of, has_mislabelled, inspect_app-placeholder_iff,
  inspect_app-IsRedacted, inspect_app-raise_iff,
}
use ios_rehydrate.Ipa.Payload.{ValidatedIpa}
use ios_rehydrate.Upgrade.Session.{expired, finished, Environment, start, within_time}
use ios_rehydrate.Upgrade.{
  eligible_target, postflight_matches, preflight, stage_and_send, staged_operation, report_failure,
  shielded_cleanup, mutate, conclude, proceed, postflight_from, rehydrate_app, Evidence,
}
use ios_rehydrate.Upgrade.Boundary.{is_send, count, tally, rehydrate_app-sends}
use ios_rehydrate.Upgrade.Guards.{SawEligible, IsStaged, rehydrate_app-guards}
use ios_rehydrate.Upgrade.Cleanup.{
  IsTidy, rehydrate_app-IsTidy, failures, first_of, shielded_cleanup_lem,
}
use ios_rehydrate.Upgrade.Outcome.{IsForeign, SaysTruth, rehydrate_app-SaysTruth}
use ios_rehydrate.Upgrade.Success.{IsProof, rehydrate_app-IsProof}

-- A stand-in for the digest.
abbrev digest : Text → Text
digest _ = codes "00112233445566778899aabbccddeeff"

abbrev payload : ValidatedIpa
payload = record {
  archive_bytes = 80 ∷ 75 ∷ [];
  sha256 = codes "ab";
  size = 2;
  bundle_identifier = codes "a.b";
  version = codes "2";
  build = codes "20";
  minimum_os = codes "15";
  metadata = 1 ∷ [];
  sinf = 1 ∷ [];
  has_code_resources = true;
  store_id = none;
}

abbrev app : Text → Bool → Fields
app version offloaded = field (codes "CFBundleIdentifier") (text (codes "a.b")) (
    field (codes "ApplicationType") (text (codes "User")) (
      field (codes "CFBundleShortVersionString") (text version) (
        field (codes "CFBundleVersion") (text (codes "20"))
          (field (codes "IsDemotedApp") (boolean offloaded) end))))

abbrev answer : Fields → Value
answer found = dict (field (codes "a.b") (dict found) end)

-- The app is offloaded until the command is sent, and installed at the second look after it.
abbrev going_well : Environment
going_well = record {
  lookup_answer = λ n.
      finished (done (answer (if ltb n 3 then app (codes "1") true else app (codes "2") false)));
  afc_enter = done tt;
  afc_exit = done tt;
  makedirs = done tt;
  set_file_contents = done tt;
  proxy_enter = done tt;
  proxy_exit = done tt;
  on_mutation_boundary = some (done tt);
  send_package = finished (done tt);
  interruptions = [];
  rm_single = finished (done true);
  sleeping = λ n. done tt;
}

-- The command times out, and the task is cancelled twice while it cleans up.
abbrev going_wrong : Environment
going_wrong = record going_well {
  send_package = expired;
  interruptions = base ∷ timeout_error ∷ [];
}

-- The names that a run computes with.
runs : ℕ
unfolding rehydrate_app proceed conclude mutate preflight postflight_from staged_operation
    stage_and_send report_failure shielded_cleanup eligible_target postflight_matches inspect_app
    application_membership bounded_string strip get eq_text
runs = 0

going_well-returns :
    (e : Evidence) × ((rehydrate_app digest going_well payload start).0 ≡ done e)
    × (e.staging_removed ≡ true)
unfolding runs
going_well-returns = (_, refl, refl)

going_wrong-raises :
    (rehydrate_app digest going_wrong payload start).0 ≡ raise (outcome_unknown_error (some true))
unfolding runs
going_wrong-raises = refl

going_well-crosses : (rehydrate_app digest going_well payload start).1.send_boundary_crossed ≡ true
unfolding runs
going_well-crosses = refl

rehydrate_app-sends_example :
    let run = (rehydrate_app digest going_wrong payload start).1 in
    count is_send run.events ≡ tally run.send_boundary_crossed
rehydrate_app-sends_example = rehydrate_app-sends digest going_wrong payload

rehydrate_app-guards_example :
    SawEligible digest going_well payload 0
    × SawEligible digest going_well payload 1
    × IsStaged digest going_well payload
rehydrate_app-guards_example = rehydrate_app-guards digest going_well payload going_well-crosses

rehydrate_app-IsTidy_example :
    IsTidy digest going_wrong payload (rehydrate_app digest going_wrong payload start).1
rehydrate_app-IsTidy_example = rehydrate_app-IsTidy digest going_wrong payload

going_wrong-IsForeign : IsForeign going_wrong
going_wrong-IsForeign = record {
  afc_enter = tt;
  afc_exit = tt;
  makedirs = tt;
  set_file_contents = tt;
  proxy_enter = tt;
  proxy_exit = tt;
  on_mutation_boundary = tt;
  interruptions = (refl, (refl, tt));
  rm_single = tt;
}

rehydrate_app-SaysTruth_example :
    let (outcome, run) = rehydrate_app digest going_wrong payload start in
    SaysTruth digest going_wrong payload outcome run.send_boundary_crossed run.staging_removed
rehydrate_app-SaysTruth_example =
    rehydrate_app-SaysTruth digest going_wrong payload going_wrong-IsForeign

rehydrate_app-IsProof_example : IsProof digest going_well payload (going_well-returns.0)
rehydrate_app-IsProof_example =
    rehydrate_app-IsProof digest going_well payload going_well-returns.0 going_well-returns.1

shielded_cleanup_lem_example :
    (((shielded_cleanup going_wrong).0 ≡ true) ↔ (within_time going_wrong.rm_single ≡ done true))
    × ((shielded_cleanup going_wrong).1
        ≡ first_of (going_wrong.interruptions ++ failures (within_time going_wrong.rm_single)))
shielded_cleanup_lem_example = shielded_cleanup_lem going_wrong

-- The dictionary that the lookup returns of the offloaded app
abbrev listing : Fields
listing = field (codes "a.b") (dict (app (codes "1") true)) end

inspect_app-placeholder_iff_example :
    ((s : AppSnapshot) × (inspect_app digest (codes "a.b") (done (dict listing)) ≡ done s)
      × (s.state ≡ placeholder))
    ↔ ((value : Fields) × (has_mislabelled (codes "a.b") listing ≡ false)
        × (claims_of (codes "a.b") listing ≡ value ∷ [])
        × IsOffloaded value)
inspect_app-placeholder_iff_example = inspect_app-placeholder_iff digest (codes "a.b") listing

inspected : (s : AppSnapshot) × (inspect_app digest (codes "a.b") (done (dict listing)) ≡ done s)
unfolding runs
inspected = (_, refl)

inspect_app-IsRedacted_example : IsRedacted digest (codes "a.b") inspected.0
inspect_app-IsRedacted_example =
    inspect_app-IsRedacted digest (codes "a.b") (done (dict listing)) inspected.0 inspected.1

-- A record whose type is a list
abbrev odd : Fields
odd =
    field (codes "a.b")
      (dict (
        field (codes "CFBundleIdentifier") (text (codes "a.b"))
          (field (codes "ApplicationType") (array nil) end)))
      end

odd-raises : inspect_app digest (codes "a.b") (done (dict odd)) ≡ raise type_error
unfolding runs
odd-raises = refl

inspect_app-raise_iff_example :
    (inspect_app digest (codes "a.b") (done (dict odd)) ≡ raise type_error) ↔ (
      (value : Fields) × (has_mislabelled (codes "a.b") odd ≡ false)
      × (claims_of (codes "a.b") odd ≡ value ∷ [])
      × (application_membership (get (codes "ApplicationType") value) ≡ unhashable)
      × (type_error ≡ type_error))
inspect_app-raise_iff_example = inspect_app-raise_iff digest (codes "a.b") odd type_error
