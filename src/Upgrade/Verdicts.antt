-- ===== src/Upgrade/Verdicts.antt =====
-- What the two tests of src/ios_rehydrate/upgrade.py on a snapshot say, in terms of its fields.
use ios_rehydrate.Prelude.{
  ◌≡◌, refl, ap, true, false, Option, none, some, arith, ◌⊎◌, inl, inr, Bool-cases,
}
use ios_rehydrate.Prelude.Bytes.{Text, eq_text→eq}
use ios_rehydrate.Apps.{AppState, AppSnapshot, placeholder, installed}
use ios_rehydrate.Ipa.Payload.{ValidatedIpa}
use ios_rehydrate.Upgrade.{
  is_placeholder_state, is_installed_state, eligible_target, shows, postflight_matches,
}

-- An offloaded app: a placeholder, with one of the two flags.
pub record IsEligible (snapshot : AppSnapshot) : Type 0 where
  pub state_lem : snapshot.state ≡ placeholder
  pub flagged : (snapshot.is_placeholder ≡ true) ⊎ (snapshot.is_demoted ≡ true)

-- The app of the payload, installed and no longer offloaded
pub record IsRehydrated (payload : ValidatedIpa) (snapshot : AppSnapshot) : Type 0 where
  pub state_lem : snapshot.state ≡ installed
  pub not_placeholder : snapshot.is_placeholder ≡ false
  pub not_demoted : snapshot.is_demoted ≡ false
  pub version_lem : snapshot.version ≡ some payload.version
  pub build_lem : snapshot.build ≡ some payload.build

is_placeholder_state_lem :
    (state : AppState) → is_placeholder_state state ≡ true → state ≡ placeholder
is_placeholder_state_lem placeholder h = refl
is_placeholder_state_lem _ h = cc

is_installed_state_lem : (state : AppState) → is_installed_state state ≡ true → state ≡ installed
is_installed_state_lem installed h = refl
is_installed_state_lem _ h = cc

shows_lem : (shown : Option Text) (value : Text) → shows shown value ≡ true → shown ≡ some value
shows_lem none value h = cc
shows_lem (some shown) value h = ap (λ (t : Text). some t) (eq_text→eq shown value h)

pub eligible_target-IsEligible :
    (snapshot : AppSnapshot) → eligible_target snapshot ≡ true → IsEligible snapshot
unfolding eligible_target
eligible_target-IsEligible snapshot h = record {
  state_lem = is_placeholder_state_lem snapshot.state (ground (arith, h));
  flagged = elim (Bool-cases snapshot.is_placeholder) [
    | inl p ↦ inl p
    | inr p ↦ inr (ground (arith, h, p))
  ];
}

pub postflight_matches-IsRehydrated :
    (snapshot : AppSnapshot) (payload : ValidatedIpa)
    → postflight_matches snapshot payload ≡ true
    → IsRehydrated payload snapshot
unfolding postflight_matches
postflight_matches-IsRehydrated snapshot payload h = record {
  state_lem = is_installed_state_lem snapshot.state (ground (arith, h));
  not_placeholder = ground (arith, h);
  not_demoted = ground (arith, h);
  version_lem = shows_lem snapshot.version payload.version (ground (arith, h));
  build_lem = shows_lem snapshot.build payload.build (ground (arith, h));
}
