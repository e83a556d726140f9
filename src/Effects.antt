-- ===== src/Effects.antt =====
-- Steps that read and change a state and may raise: the statements of a method, over the state that the
-- method sees. What was assigned before an exception stays assigned.
use ios_rehydrate.Prelude.{⊤, ◌≡◌, refl, Bool, true, false}
use ios_rehydrate.Errors.{Exception, os_error, timeout_error, Result, done, raise}

abbrev pub Step : Type 0 → Type 0 → Type 0
Step S A = S → Result A × S

module _ {S : Type 0} where
  abbrev pub pure : {A : Type 0} → A → Step S A
  pure a s = (done a, s)

  abbrev pub throw : {A : Type 0} → Exception → Step S A
  throw e s = (raise e, s)

  -- A computation that leaves the state alone.
  abbrev pub lift : {A : Type 0} → Result A → Step S A
  lift r s = (r, s)

  abbrev pub assign : (S → S) → Step S ⊤
  assign f s = (done tt, f s)

  -- `if test: raise e`
  abbrev pub throw_if : Bool → Exception → Step S ⊤
  throw_if true e = throw e
  throw_if false e = pure tt

  infixl 5 ◌>>=◌ ◌>>◌
  abbrev pub ◌>>=◌ : {A B : Type 0} → Step S A → (A → Step S B) → Step S B
  ◌>>=◌ m f s = let (r, s') = m s in elim r [ done a ↦ f a s' | raise e ↦ (raise e, s') ]

  abbrev pub ◌>>◌ : {A B : Type 0} → Step S A → Step S B → Step S B
  m >> k = m >>= λ _. k

  -- `try: body; except: handler`
  abbrev pub handle_with : {A : Type 0} → Step S A → (Exception → Step S A) → Step S A
  handle_with body handler s =
      let (r, s') = body s in elim r [ done a ↦ (done a, s') | raise e ↦ handler e s' ]

-- What `asyncio.timeout` makes of a wait: the time is up, or the awaited call returned or raised.
pub data Awaited {ℓ} (A : Type ℓ) : Type ℓ where
  expired : Awaited A
  finished : Result A → Awaited A

-- `async with asyncio.timeout(...)` round one call
abbrev pub within_time : {A : Type 0} → Awaited A → Result A
within_time expired = raise timeout_error
within_time (finished outcome) = outcome

-- Whether `except OSError` catches it.
abbrev pub is_os_error : Exception → Bool
is_os_error os_error = true
is_os_error timeout_error = true
is_os_error _ = false

module _ {S A : Type 0} (handler : Exception → Step S A) where
  outcome_raises :
      (x : Result A × S) (e : Exception)
      → (elim x.0 as (λ r. Result A × S) [ done a ↦ (done a, x.1) | raise y ↦ handler y x.1 ]).0
        ≡ raise e
      → (y : Exception) × (x.0 ≡ raise y)
        × ((handler y x.1).0 ≡ raise e)
        × ((elim x.0 as (λ r. Result A × S) [ done a ↦ (done a, x.1) | raise y ↦ handler y x.1 ])
            ≡ handler y x.1)
  outcome_raises (done a, t) e h = cc
  outcome_raises (raise y, t) e h = (y, refl, h, refl)

  -- A `try` statement raises what its handler raises.
  pub handle_raises :
      (body : Step S A) (s : S) (e : Exception)
      → (handle_with body handler s).0 ≡ raise e
      → (y : Exception) × ((body s).0 ≡ raise y)
        × ((handler y (body s).1).0 ≡ raise e)
        × (handle_with body handler s ≡ handler y (body s).1)
  handle_raises body s e h = outcome_raises (body s) e h

module _ {S A B : Type 0} where
  -- A block that returns has a first part that returned.
  pub after_bind_returns :
      (x : Result A × S) (f : A → Step S B) (b : B)
      → (elim x.0 as (λ r. Result B × S) [ done a ↦ f a x.1 | raise e ↦ (raise e, x.1) ]).0 ≡ done b
      → (a : A) × (x.0 ≡ done a)
        × ((elim x.0 as (λ r. Result B × S) [ done a ↦ f a x.1 | raise e ↦ (raise e, x.1) ])
            ≡ f a x.1)
  after_bind_returns (done a, t) f b h = (a, refl, refl)
  after_bind_returns (raise e, t) f b h = cc
