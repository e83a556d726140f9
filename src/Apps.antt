-- ===== src/Apps.antt =====
-- src/ios_rehydrate/apps.py: the redacted inspection of the device's application database. The
-- installation proxy is not in the repository: the value that its lookup returns, or the exception
-- that it raises, is an argument.
pub mod Inspection
use ios_rehydrate.Prelude.{
  ℕ, Bool, true, false, ◌&&◌, ◌||◌, Option, none, some, List, [], ◌∷◌, ◌++◌, ltb, leb,
  if◌then◌else◌, length, all,
}
use ios_rehydrate.Prelude.Bytes.{Text, codes, eq_text}
use ios_rehydrate.Prelude.Texts.{is_alphanumeric, has, strip}
use ios_rehydrate.Prelude.Values.{
  Value, Fields, boolean, integer, text, array, dict, end, field, get, pos,
}
use ios_rehydrate.Errors.{
  type_error, Exception, Result, done, raise, base, error, device_unavailable,
}
use ios_rehydrate.Privacy.{opaque_ref}

-- `AppState`
pub data AppState : Type 0 where
  absent placeholder installed system ambiguous : AppState

-- `sizes` has the two keys "static" and "dynamic".
pub record Sizes : Type 0 where
  pub static_size : Option ℕ
  pub dynamic_size : Option ℕ

pub record AppSnapshot : Type 0 where
  pub app_ref : Text
  pub state : AppState
  pub version : Option Text
  pub build : Option Text
  pub is_placeholder : Bool
  pub is_demoted : Bool
  pub sizes : Sizes

module _ (sha256 : Text → Text) where
  unfoldable pub empty_snapshot : Text → AppState → AppSnapshot
  empty_snapshot bundle_identifier state = record {
    app_ref = opaque_ref sha256 (codes "app") bundle_identifier;
    state = state;
    version = none;
    build = none;
    is_placeholder = false;
    is_demoted = false;
    sizes = record { static_size = none; dynamic_size = none };
  }

-- `_PUBLIC_VERSION.fullmatch(value) is not None`
unfoldable pub is_public_version : Text → Bool
is_public_version [] = false
is_public_version (c ∷ cs) =
    is_alphanumeric c
    && leb (length cs) 63
    && all (λ d. is_alphanumeric d || has d (codes "._+-")) cs

unfoldable pub bounded_string : Option Value → Option Text
unfolding is_public_version
bounded_string (some (text value)) =
    let stripped = strip value in if is_public_version stripped then some stripped else none
bounded_string _ = none

unfoldable pub nonnegative_size : Option Value → Option ℕ
nonnegative_size (some (integer (pos n))) = some n
nonnegative_size _ = none

-- `value is True`
abbrev pub is_true : Option Value → Bool
is_true (some (boolean b)) = b
is_true _ = false

-- What the test `application_type not in {"User", "System"}` does: a list or a dictionary cannot be
-- hashed, so that the test itself raises.
pub data Membership : Type 0 where
  user system_app neither unhashable : Membership

unfoldable pub application_membership : Option Value → Membership
application_membership (some (text value)) =
    if eq_text value (codes "User")
    then user
    else if eq_text value (codes "System")
    then system_app
    else neither
application_membership (some (array items)) = unhashable
application_membership (some (dict fields)) = unhashable
application_membership _ = neither

abbrev pub state_of : Membership → Bool → AppState
state_of system_app held = system
state_of _ held = if held then placeholder else installed

module _ (sha256 : Text → Text) where
  unfoldable pub snapshot_of : Text → Fields → Membership → AppSnapshot
  snapshot_of bundle_identifier record_fields kind =
      let placeholder_flag = is_true (get (codes "IsPlaceholder") record_fields) in
      let demoted_flag = is_true (get (codes "IsDemotedApp") record_fields) in
      record {
        app_ref = opaque_ref sha256 (codes "app") bundle_identifier;
        state = state_of kind (placeholder_flag || demoted_flag);
        version = bounded_string (get (codes "CFBundleShortVersionString") record_fields);
        build = bounded_string (get (codes "CFBundleVersion") record_fields);
        is_placeholder = placeholder_flag;
        is_demoted = demoted_flag;
        sizes = record {
          static_size = nonnegative_size (get (codes "StaticDiskUsage") record_fields);
          dynamic_size = nonnegative_size (get (codes "DynamicDiskUsage") record_fields);
        };
      }

  unfoldable pub snapshot_by : Text → Fields → Membership → Result AppSnapshot
  unfolding snapshot_of
  snapshot_by bundle_identifier record_fields unhashable = raise type_error
  snapshot_by bundle_identifier record_fields neither =
      done (empty_snapshot sha256 bundle_identifier ambiguous)
  snapshot_by bundle_identifier record_fields kind =
      done (snapshot_of bundle_identifier record_fields kind)

  unfoldable pub snapshot_from_record : Text → Fields → Result AppSnapshot
  unfolding snapshot_by
  snapshot_from_record bundle_identifier record_fields =
      snapshot_by bundle_identifier record_fields
        (application_membership (get (codes "ApplicationType") record_fields))

-- `value == bundle_identifier`, of a value that may be missing or no text
abbrev pub is_text : Text → Option Value → Bool
is_text bundle_identifier (some (text value)) = eq_text value bundle_identifier
is_text bundle_identifier _ = false

-- The two variables of the loop over the lookup's items.
pub record Scan : Type 0 where
  pub candidates : List Fields
  pub malformed : Bool

unfoldable pub scan_item : Text → Text → Value → Scan → Scan
scan_item bundle_identifier identifier (dict value) scan =
    if is_text bundle_identifier (get (codes "CFBundleIdentifier") value)
    then record scan { candidates = scan.candidates ++ value ∷ [] }
    else if eq_text identifier bundle_identifier
    then record scan { malformed = true }
    else scan
scan_item bundle_identifier identifier value scan = record scan {
  malformed = scan.malformed || eq_text identifier bundle_identifier;
}

unfoldable pub scan_items : Text → Fields → Scan → Scan
unfolding scan_item
scan_items bundle_identifier end scan = scan
scan_items bundle_identifier (field identifier value rest) scan =
    scan_items bundle_identifier rest (scan_item bundle_identifier identifier value scan)

-- `except Exception`: only a `BaseException` that is no `Exception` passes.
abbrev pub lookup_failed : Exception → Exception
lookup_failed base = base
lookup_failed _ = error device_unavailable "APP_LOOKUP_FAILED"

module _ (sha256 : Text → Text) where
  -- The statements behind the loop.
  unfoldable pub judge : Text → Scan → Result AppSnapshot
  unfolding snapshot_from_record empty_snapshot
  judge bundle_identifier scan =
      if scan.malformed || ltb 1 (length scan.candidates)
      then done (empty_snapshot sha256 bundle_identifier ambiguous)
      else elim scan.candidates [
        | [] ↦ done (empty_snapshot sha256 bundle_identifier absent)
        | value ∷ rest ↦ snapshot_from_record sha256 bundle_identifier value
      ]

  unfoldable pub inspect_app : Text → Result Value → Result AppSnapshot
  unfolding judge scan_items
  inspect_app bundle_identifier (raise e) = raise (lookup_failed e)
  inspect_app bundle_identifier (done (dict result)) =
      judge bundle_identifier
        (scan_items bundle_identifier result (record { candidates = []; malformed = false }))
  inspect_app bundle_identifier (done _) = raise (error device_unavailable "APP_LOOKUP_INVALID")
