-- ===== src/Ipa/Refusal.antt =====
-- The one way in which the validation of src/ios_rehydrate/ipa.py may fail, and rules that carry it
-- through a chain of steps.
use ios_rehydrate.Prelude.{
  ℕ, ⊤, ◌+◌, ◌≤◌, length, ◌≡◌, refl, Bool, true, false, arith, if◌then◌else◌,
}
use ios_rehydrate.Prelude.Bytes.{Bytes}
use ios_rehydrate.Ipa.Struct.{unpack_from}
use ios_rehydrate.Errors.{
  ExitCode, ipa_invalid, Exception, rehydrate, Result, done, raise, ◌>>=◌, ◌>>◌, raise_if,
}

abbrev is_ipa_invalid : ExitCode → Bool
is_ipa_invalid ipa_invalid = true
is_ipa_invalid _ = false

-- A `RehydrateError` with the code `IPA_INVALID`
abbrev pub is_refusal : Exception → Bool
is_refusal (rehydrate e) = is_ipa_invalid e.code
is_refusal _ = false

-- What is asked of a result: a value, or a refusal.
abbrev pub Accepted {ℓ} : {A : Type ℓ} → Result A → Type 0
Accepted (done a) = Unit
Accepted (raise e) = is_refusal e ≡ true

-- The computation returns, or refuses the archive. It raises no `struct.error`, no failed assertion, and
-- does not run out of fuel.
pub record Refuses {ℓ} {A : Type ℓ} (r : Result A) : Type 0 where
  pub at : Accepted r

pub Refuses-done {ℓ} : {A : Type ℓ} (a : A) → Refuses (done a)
Refuses-done a = record { at = tt }

pub Refuses-raise {ℓ} :
    {A : Type ℓ} (e : Exception) → is_refusal e ≡ true → Refuses {A = A} (raise e)
Refuses-raise e h = record { at = h }

pub Refuses-bind {ℓ κ} :
    {A : Type ℓ} {B : Type κ} (m : Result A) (f : A → Result B)
    → Refuses m
    → ((a : A) → m ≡ done a → Refuses (f a))
    → Refuses (m >>= f)
unfolding ◌>>=◌
Refuses-bind (done a) f hm hf = hf a refl
Refuses-bind (raise e) f hm hf = Refuses-raise e hm.at

pub Refuses-then {ℓ} :
    {B : Type ℓ} (m : Result ⊤) (k : Result B) → Refuses m → Refuses k → Refuses (m >> k)
Refuses-then m k hm hk = Refuses-bind m (λ _. k) hm (λ _ _. hk)

pub Refuses-raise_if {ℓ} :
    {B : Type ℓ} (t : Bool) (e : Exception) (k : Result B)
    → is_refusal e ≡ true
    → (t ≡ false → Refuses k)
    → Refuses (raise_if t e >> k)
unfolding ◌>>=◌ raise_if
Refuses-raise_if true e k h hk = Refuses-raise e h
Refuses-raise_if false e k h hk = hk refl

pub Refuses-test : (t : Bool) (e : Exception) → is_refusal e ≡ true → Refuses (raise_if t e)
unfolding raise_if
Refuses-test true e h = Refuses-raise e h
Refuses-test false e h = Refuses-done tt

pub Refuses-if {ℓ} :
    {A : Type ℓ} (t : Bool) (m n : Result A)
    → (t ≡ true → Refuses m)
    → (t ≡ false → Refuses n)
    → Refuses (if t then m else n)
Refuses-if true m n hm hn = hm refl
Refuses-if false m n hm hn = hn refl

-- In bounds, a read succeeds.
pub unpack_from-Refuses :
    (size : ℕ) (bytes : Bytes) (offset : ℕ)
    → offset + size ≤ length bytes
    → Refuses (unpack_from size bytes offset)
unfolding unpack_from
unpack_from-Refuses size bytes offset h = ground arith
