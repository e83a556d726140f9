-- ===== src/Errors.antt =====
-- src/ios_rehydrate/errors.py, and the exceptions that the code raises or lets through.
use mathlib.Core.Path.{subst}
use ios_rehydrate.Prelude.{
  ℕ, String, ◌≡◌, refl, Bool, true, false, Option, none, some, if◌then◌else◌,
}

-- `ExitCode`
pub data ExitCode : Type 0 where
  ok usage device_selection device_unavailable backup_create backup_verify ipa_invalid : ExitCode
  policy_refused confirmation upgrade_failed outcome_unknown postcheck_failed : ExitCode
  dependency io : ExitCode

unfoldable pub exit_status : ExitCode → ℕ
exit_status ok = 0
exit_status usage = 2
exit_status device_selection = 10
exit_status device_unavailable = 11
exit_status backup_create = 20
exit_status backup_verify = 21
exit_status ipa_invalid = 30
exit_status policy_refused = 40
exit_status confirmation = 42
exit_status upgrade_failed = 51
exit_status outcome_unknown = 52
exit_status postcheck_failed = 53
exit_status dependency = 70
exit_status io = 74

-- `RehydrateError`, without its message. `OutcomeUnknownError` is the case with an outcome: the
-- value of its `staging_removed`.
pub record RehydrateError : Type 0 where
  pub code : ExitCode
  pub reason : String
  pub outcome : Option (Option Bool)

-- What may be raised. `base` is a `BaseException` that is no `Exception`, such as a cancellation;
-- `other` is an `Exception` of no class that the code names.
pub data Exception : Type 0 where
  rehydrate : RehydrateError → Exception
  timeout_error os_error value_error overflow_error sqlite_error runtime_error type_error
        bad_zip_file struct_error assertion_error other base :
      Exception

abbrev pub error : ExitCode → String → Exception
error code reason = rehydrate (record { code = code; reason = reason; outcome = none })

-- `OutcomeUnknownError(staging_removed=...)`
unfoldable pub outcome_unknown_error : Option Bool → Exception
outcome_unknown_error staging_removed = rehydrate (record {
  code = outcome_unknown;
  reason = "UPGRADE_OUTCOME_UNKNOWN";
  outcome = some staging_removed;
})

pub data Result {ℓ} (A : Type ℓ) : Type ℓ where
  done : A → Result A
  raise : Exception → Result A

infixl 5 ◌>>=◌ ◌>>◌
unfoldable pub ◌>>=◌ {ℓ κ} : {A : Type ℓ} {B : Type κ} → Result A → (A → Result B) → Result B
done a >>= f = f a
raise e >>= f = raise e

abbrev pub ◌>>◌ {ℓ} : {B : Type ℓ} → Result (Unit {0}) → Result B → Result B
m >> k = m >>= λ _. k

-- `if test: raise e`
unfoldable pub raise_if : Bool → Exception → Result (Unit {0})
raise_if true e = raise e
raise_if false e = done tt

pub >>=-done {ℓ κ} :
    {A : Type ℓ} {B : Type κ} (m : Result A) (f : A → Result B) {b : B}
    → (m >>= f) ≡ done b
    → (a : A) × (m ≡ done a) × (f a ≡ done b)
unfolding ◌>>=◌
>>=-done (done a) f h = (a, refl, h)
>>=-done (raise e) f h = cc

pub raise_if-done {ℓ} :
    {B : Type ℓ} (t : Bool) (e : Exception) (k : Result B) {b : B}
    → (raise_if t e >> k) ≡ done b
    → (t ≡ false) × (k ≡ done b)
unfolding ◌>>=◌ raise_if
raise_if-done true e k h = cc
raise_if-done false e k h = (refl, h)

pub raise_if-passes : (t : Bool) (e : Exception) {u : Unit {0}} → raise_if t e ≡ done u → t ≡ false
unfolding raise_if
raise_if-passes true e h = cc
raise_if-passes false e h = refl

pub done-injective {ℓ} : {A : Type ℓ} {a b : A} → done a ≡ done b → a ≡ b
done-injective h = cc

-- What holds of the value that a computation returns holds of the value it was seen to return.
abbrev pub Returns {ℓ κ} : {A : Type ℓ} → (A → Type κ) → Result A → Type κ
Returns P (done a) = P a
Returns P (raise e) = Unit

pub Returns-done {ℓ κ} :
    {A : Type ℓ} (P : A → Type κ) (r : Result A) {a : A} → Returns P r → r ≡ done a → P a
Returns-done P (done b) h e = subst P (done-injective e) h
Returns-done P (raise x) h e = cc

-- A postcondition: what a computation returns, if it returns, has the property.
pub record Ensures {ℓ κ} {A : Type ℓ} (P : A → Type κ) (r : Result A) : Type (ℓ ⊔ κ) where
  pub at : (a : A) → r ≡ done a → P a

module _ {ℓ κ} {A : Type ℓ} {P : A → Type κ} where
  pub Ensures-done : (a : A) → P a → Ensures P (done a)
  Ensures-done a h = record { at = λ b e. subst P (done-injective e) h }

  pub Ensures-raise : (e : Exception) → Ensures P (raise e)
  Ensures-raise e = record { at = λ b h. cc }

  pub Ensures-if :
      (t : Bool) (m n : Result A)
      → (t ≡ true → Ensures P m)
      → (t ≡ false → Ensures P n)
      → Ensures P (if t then m else n)
  Ensures-if true m n hm hn = hm refl
  Ensures-if false m n hm hn = hn refl

  pub Ensures-raise_if :
      (t : Bool) (e : Exception) (k : Result A)
      → (t ≡ false → Ensures P k)
      → Ensures P (raise_if t e >> k)
  unfolding ◌>>=◌ raise_if
  Ensures-raise_if true e k hk = Ensures-raise e
  Ensures-raise_if false e k hk = hk refl

module _ {ℓ κ μ} {A : Type ℓ} {B : Type κ} {P : B → Type μ} where
  pub Ensures-bind :
      (m : Result A) (f : A → Result B)
      → ((a : A) → m ≡ done a → Ensures P (f a))
      → Ensures P (m >>= f)
  unfolding ◌>>=◌
  Ensures-bind (done a) f hf = hf a refl
  Ensures-bind (raise e) f hf = Ensures-raise e
