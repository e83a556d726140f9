-- ===== src/Upgrade/Session.antt =====
-- The effects of src/ios_rehydrate/upgrade.py. Its calls of the device services and of its caller's
-- callback are recorded in order; what each call returns or raises is an `Environment`, since the
-- services are not in the repository. A wait that `asyncio.timeout` ends raises `timeout_error`.
use ios_rehydrate.Prelude.{ℕ, ⊤, ◌≡◌, refl, Bool, false, Option, none, List, [], ◌∷◌}
use ios_rehydrate.Prelude.Values.{Value}
use ios_rehydrate.Errors.{Exception, Result, done, raise}
pub use ios_rehydrate.Effects.{
  Awaited, expired, finished, within_time, pure, throw, handle_with, assign, throw_if, ◌>>=◌, ◌>>◌,
}
use ios_rehydrate.Apps.{AppSnapshot}

pub data Event : Type 0 where
  lookup open_afc make_directory write_staging open_proxy notify_boundary : Event
  send_upgrade close_proxy remove_staging close_afc sleep : Event

pub record Environment : Type 0 where
  -- The answer to the n-th lookup.
  pub lookup_answer : ℕ → Awaited Value
  pub afc_enter : Result ⊤
  pub afc_exit : Result ⊤
  pub makedirs : Result ⊤
  pub set_file_contents : Result ⊤
  pub proxy_enter : Result ⊤
  pub proxy_exit : Result ⊤
  -- `none`: the caller gave no callback.
  pub on_mutation_boundary : Option (Result ⊤)
  pub send_package : Awaited ⊤
  -- What is raised into the wait for the cleanup task while that task goes on, in order.
  pub interruptions : List Exception
  -- `rm_single`: whether it returned `True`, or what it raised.
  pub rm_single : Awaited Bool
  pub sleeping : ℕ → Result ⊤

-- The local variables of `rehydrate_app` that outlive an exception, and the calls so far, the latest
-- first.
pub record Run : Type 0 where
  pub events : List Event
  pub send_boundary_crossed : Bool
  pub staging_write_attempted : Bool
  pub staging_removed : Bool
  pub before : Option AppSnapshot

abbrev pub start : Run
start = record {
  events = [];
  send_boundary_crossed = false;
  staging_write_attempted = false;
  staging_removed = false;
  before = none;
}

-- What was assigned before an exception stays assigned, so the variables come back beside it.
abbrev pub Step : Type 0 → Type 0
Step A = Run → Result A × Run

abbrev pub call : {A : Type 0} → Event → Result A → Step A
call event outcome run = (outcome, record run { events = event ∷ run.events })

module _ {A B : Type 0} (P : Result B × Run → Type 0) (f : A → Step B) where
  bind_at :
      (x : Result A × Run)
      → ((e : Exception) (r : Run) → x ≡ (raise e, r) → P (raise e, r))
      → ((a : A) (r : Run) → x ≡ (done a, r) → P (f a r))
      → P (elim x.0 [ done a ↦ f a x.1 | raise e ↦ (raise e, x.1) ])
  bind_at (done a, r) failing going = going a r refl
  bind_at (raise e, r) failing going = failing e r refl

  -- What holds of a block of two parts: when the first raises, and when it returns to the second.
  pub bind_rule :
      (m : Step A) (run : Run)
      → ((e : Exception) (r : Run) → m run ≡ (raise e, r) → P (raise e, r))
      → ((a : A) (r : Run) → m run ≡ (done a, r) → P (f a r))
      → P ((m >>= f) run)
  bind_rule m run = bind_at (m run)
