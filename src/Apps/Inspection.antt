-- ===== src/Apps/Inspection.antt =====
-- What an inspection reports of src/ios_rehydrate/apps.py: the loop against a description of the
-- records in the lookup's result, the verdicts, and what a report may show.
use ios_rehydrate.Prelude.{
  suc, ◌≡◌, refl, ◌↔◌, Bool, true, false, ◌||◌, Option, none, some, List, [], ◌∷◌, ◌++◌, arith,
  if◌then◌else◌, ltb, length, Bool-cases, inl, inr,
}
use mathlib.Core.List.{append-nil, append_assoc}
use ios_rehydrate.Prelude.Bytes.{Text, codes, eq_text}
use ios_rehydrate.Prelude.Values.{Value, Fields, text, dict, end, field, get}
use ios_rehydrate.Errors.{type_error, Exception, Result, done, raise, Returns, Returns-done}
use ios_rehydrate.Privacy.{opaque_ref}
use ios_rehydrate.Apps.{
  AppState, placeholder, ambiguous, absent, AppSnapshot, Scan, Membership, user, system_app,
  neither, unhashable, is_text, is_true, scan_items, judge, inspect_app, bounded_string,
  is_public_version, application_membership, snapshot_of, snapshot_by, empty_snapshot,
}

-- The records of a lookup result that carry the identifier, wherever they stand.
abbrev pub claims_of : Text → Fields → List Fields
claims_of bundle end = []
claims_of bundle (field key (dict value) rest) =
    if is_text bundle (get (codes "CFBundleIdentifier") value)
    then value ∷ claims_of bundle rest
    else claims_of bundle rest
claims_of bundle (field key _ rest) = claims_of bundle rest

-- Some value under the identifier's own key does not carry the identifier.
abbrev pub has_mislabelled : Text → Fields → Bool
has_mislabelled bundle end = false
has_mislabelled bundle (field key (dict value) rest) =
    (if is_text bundle (get (codes "CFBundleIdentifier") value) then false else eq_text key bundle)
    || has_mislabelled bundle rest
has_mislabelled bundle (field key _ rest) = eq_text key bundle || has_mislabelled bundle rest

abbrev joined : Text → Fields → Scan → Scan
joined bundle result scan = record {
  candidates = scan.candidates ++ claims_of bundle result;
  malformed = scan.malformed || has_mislabelled bundle result;
}

or_assoc : (a b c : Bool) → ((a || b) || c) ≡ (a || (b || c))
or_assoc a b c = ground arith

or-false_right : (a : Bool) → (a || false) ≡ a
or-false_right a = ground arith

or-true_right : (a : Bool) → (a || true) ≡ true
or-true_right a = ground arith

-- The loop collects the claims, in order, and the flag says whether a value is mislabelled.
scan_items-eq :
    (bundle : Text) (result : Fields) (scan : Scan)
    → scan_items bundle result scan ≡ joined bundle result scan
unfolding scan_items
scan_items-eq bundle end scan = simp (append-nil, or-false_right)
scan_items-eq bundle (field key (dict value) rest) scan =
    elim (Bool-cases (is_text bundle (get (codes "CFBundleIdentifier") value))) [
      | inl e ↦ rw (scan_items-eq bundle rest, e) (simp append_assoc)
      | inr e ↦ elim (Bool-cases (eq_text key bundle)) [
        | inl k ↦ rw (scan_items-eq bundle rest, e, k) (simp or-true_right)
        | inr k ↦ rw (scan_items-eq bundle rest, e, k)
      ]
    ]
scan_items-eq bundle (field key _ rest) scan = rw (scan_items-eq bundle rest) (simp or_assoc)

scan_items_lem :
    (bundle : Text) (result : Fields)
    → scan_items bundle result (record { candidates = []; malformed = false })
      ≡ record { candidates = claims_of bundle result; malformed = has_mislabelled bundle result }
scan_items_lem bundle result =
    scan_items-eq bundle result (record { candidates = []; malformed = false })

several {ℓ} : {A : Type ℓ} (rest : List A) → ltb 1 (suc (suc (length rest))) ≡ true
several rest = ground arith

-- The type and flags that make a record an offloaded app of the user.
abbrev pub IsOffloaded : Fields → Type 0
IsOffloaded value =
    (application_membership (get (codes "ApplicationType") value) ≡ user)
    × ((is_true (get (codes "IsPlaceholder") value) || is_true (get (codes "IsDemotedApp") value))
        ≡ true)

module _ (sha256 : Text → Text) (bundle : Text) where
  snapshot_by-offloaded :
      (value : Fields) (kind : Membership) (s : AppSnapshot)
      → snapshot_by sha256 bundle value kind ≡ done s
      → s.state ≡ placeholder
      → (kind ≡ user)
        × ((is_true (get (codes "IsPlaceholder") value)
              || is_true (get (codes "IsDemotedApp") value))
            ≡ true)
  unfolding snapshot_by empty_snapshot
  snapshot_by-offloaded value user s h p = ground arith
  snapshot_by-offloaded value _ s h p = ground arith

  -- An inspection says PLACEHOLDER only of an app that exactly one record claims, with no value under
  -- the identifier's key that does not, and that record is an offloaded app of the user.
  pub inspect_app-placeholder :
      (result : Fields) (s : AppSnapshot)
      → inspect_app sha256 bundle (done (dict result)) ≡ done s
      → s.state ≡ placeholder
      → (has_mislabelled bundle result ≡ false)
        × ((value : Fields) × (claims_of bundle result ≡ value ∷ []) × IsOffloaded value)
  unfolding inspect_app
  inspect_app-placeholder result s h p = judged _ _ (rw scan_items_lem at h)
    where
      judged :
          (claims : List Fields) (mislabelled : Bool)
          → judge sha256 bundle (record { candidates = claims; malformed = mislabelled }) ≡ done s
          → (mislabelled ≡ false) × ((value : Fields) × (claims ≡ value ∷ []) × IsOffloaded value)
      judged claims true h = absurd (ground arith)
      judged [] false h = absurd (ground arith)
      judged (value ∷ w ∷ rest) false h = absurd (ground arith)
      judged (value ∷ []) false h = (refl, (value, refl, snapshot_by-offloaded value _ s h p))

  snapshot_by-user :
      (value : Fields) (kind : Membership)
      → kind ≡ user
      → (is_true (get (codes "IsPlaceholder") value) || is_true (get (codes "IsDemotedApp") value))
        ≡ true
      → (s : AppSnapshot) × (snapshot_by sha256 bundle value kind ≡ done s)
        × (s.state ≡ placeholder)
  unfolding snapshot_by snapshot_of
  snapshot_by-user value user e h = (snapshot_of sha256 bundle value user, refl, rw h)
  snapshot_by-user value system_app e h = cc
  snapshot_by-user value neither e h = cc
  snapshot_by-user value unhashable e h = cc

  -- For a lookup that returns a dictionary, inspect_app reports PLACEHOLDER exactly if no value
  -- under the identifier is mislabelled, exactly one record claims the identifier, its type is User
  -- and it has the placeholder or the demoted flag.
  pub inspect_app-placeholder_iff :
      (result : Fields)
      → ((s : AppSnapshot) × (inspect_app sha256 bundle (done (dict result)) ≡ done s)
          × (s.state ≡ placeholder))
        ↔ ((value : Fields) × (has_mislabelled bundle result ≡ false)
            × (claims_of bundle result ≡ value ∷ [])
            × IsOffloaded value)
  inspect_app-placeholder_iff result =
      (λ (s, h, p). only_if s h p, λ (value, m, c, u). when value m c u)
    where
      only_if :
          (s : AppSnapshot)
          → inspect_app sha256 bundle (done (dict result)) ≡ done s
          → s.state ≡ placeholder
          → (value : Fields) × (has_mislabelled bundle result ≡ false)
            × (claims_of bundle result ≡ value ∷ [])
            × IsOffloaded value
      only_if s h p =
          let (m, (value, c, u)) = inspect_app-placeholder result s h p in (value, m, c, u)

      when :
          (value : Fields)
          → has_mislabelled bundle result ≡ false
          → claims_of bundle result ≡ value ∷ []
          → IsOffloaded value
          → (s : AppSnapshot) × (inspect_app sha256 bundle (done (dict result)) ≡ done s)
            × (s.state ≡ placeholder)
      when value m c (k, held) =
          let (s, h, p) = snapshot_by-user value _ k held in
          (s, unfold inspect_app in rw (scan_items_lem, m, c) h, p)

  -- A version or a build that a report shows has passed the public pattern.
  abbrev pub IsPublic : Option Text → Type 0
  IsPublic none = Unit
  IsPublic (some shown) = is_public_version shown ≡ true

  bounded_string-IsPublic : (value : Option Value) → IsPublic (bounded_string value)
  unfolding bounded_string
  bounded_string-IsPublic (some (text value)) = ground arith
  bounded_string-IsPublic _ = tt

  -- What a report shows of any app, whatever its state.
  pub record IsRedacted (s : AppSnapshot) : Type 0 where
    pub app_ref : s.app_ref ≡ opaque_ref sha256 (codes "app") bundle
    pub version : IsPublic s.version
    pub build : IsPublic s.build

  empty_snapshot-IsRedacted : (state : AppState) → IsRedacted (empty_snapshot sha256 bundle state)
  unfolding empty_snapshot
  empty_snapshot-IsRedacted state = record { app_ref = refl; version = tt; build = tt }

  snapshot_of-IsRedacted :
      (value : Fields) (kind : Membership) → IsRedacted (snapshot_of sha256 bundle value kind)
  unfolding snapshot_of
  snapshot_of-IsRedacted value kind = record {
    app_ref = refl;
    version = bounded_string-IsPublic (get (codes "CFBundleShortVersionString") value);
    build = bounded_string-IsPublic (get (codes "CFBundleVersion") value);
  }

  snapshot_by-IsRedacted :
      (value : Fields) (kind : Membership)
      → Returns IsRedacted (snapshot_by sha256 bundle value kind)
  unfolding snapshot_by
  snapshot_by-IsRedacted value unhashable = tt
  snapshot_by-IsRedacted value neither = empty_snapshot-IsRedacted ambiguous
  snapshot_by-IsRedacted value user = snapshot_of-IsRedacted value user
  snapshot_by-IsRedacted value system_app = snapshot_of-IsRedacted value system_app

  judge-IsRedacted :
      (claims : List Fields) (mislabelled : Bool)
      → Returns IsRedacted
          (judge sha256 bundle (record { candidates = claims; malformed = mislabelled }))
  unfolding judge
  judge-IsRedacted claims true = empty_snapshot-IsRedacted ambiguous
  judge-IsRedacted [] false = empty_snapshot-IsRedacted absent
  judge-IsRedacted (value ∷ []) false = snapshot_by-IsRedacted value _
  judge-IsRedacted (value ∷ w ∷ rest) false =
      rw (several rest) (empty_snapshot-IsRedacted ambiguous)

  -- Every snapshot that inspect_app returns has the opaque reference of the identifier as its
  -- app_ref, and a version and a build that are missing or match the public pattern.
  pub inspect_app-IsRedacted :
      (answer : Result Value) (s : AppSnapshot)
      → inspect_app sha256 bundle answer ≡ done s
      → IsRedacted s
  inspect_app-IsRedacted answer s h =
      Returns-done IsRedacted (inspect_app sha256 bundle answer) (report answer) h
    where
      report : (answer : Result Value) → Returns IsRedacted (inspect_app sha256 bundle answer)
      report (done (dict result)) =
          unfold inspect_app in
          rw scan_items_lem
            (judge-IsRedacted (claims_of bundle result) (has_mislabelled bundle result))
      report (done _) = unfold inspect_app in tt
      report (raise e) = unfold inspect_app in tt

  -- For a lookup that returns a dictionary, inspect_app raises exactly if no value under the
  -- identifier is mislabelled, one record claims the identifier and its type is a list or a
  -- dictionary; what it raises is then TypeError.
  pub inspect_app-raise_iff :
      (result : Fields) (e : Exception)
      → (inspect_app sha256 bundle (done (dict result)) ≡ raise e) ↔ (
          (value : Fields) × (has_mislabelled bundle result ≡ false)
          × (claims_of bundle result ≡ value ∷ [])
          × (application_membership (get (codes "ApplicationType") value) ≡ unhashable)
          × (e ≡ type_error))
  unfolding inspect_app snapshot_by
  inspect_app-raise_iff result e = (
    λ h. judged _ _ (rw scan_items_lem at h),
    λ (value, m, c, u, o). rw (scan_items_lem, m, c, u, o),
  )
    where
      by_kind :
          (value : Fields) (kind : Membership)
          → snapshot_by sha256 bundle value kind ≡ raise e
          → (kind ≡ unhashable) × (e ≡ type_error)
      by_kind value unhashable h = (refl, cc)
      by_kind value user h = cc
      by_kind value neither h = cc
      by_kind value system_app h = cc

      judged :
          (claims : List Fields) (mislabelled : Bool)
          → judge sha256 bundle (record { candidates = claims; malformed = mislabelled }) ≡ raise e
          → (value : Fields) × (mislabelled ≡ false)
            × (claims ≡ value ∷ [])
            × (application_membership (get (codes "ApplicationType") value) ≡ unhashable)
            × (e ≡ type_error)
      judged claims true h = cc
      judged [] false h = cc
      judged (value ∷ w ∷ rest) false h = absurd (ground arith)
      judged (value ∷ []) false h = let (k, o) = by_kind value _ h in (value, refl, refl, k, o)
