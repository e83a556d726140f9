-- ===== src/Ipa/Contents.antt =====
-- `_required_member` to `_validate_zip` of src/ios_rehydrate/ipa.py: what the members of the archive say.
-- The reads of `zipfile`, `plistlib.loads` and the digest are parameters.
use ios_rehydrate.Prelude.{
  ℕ, ⊤, zero, suc, ◌+◌, ◌*◌, ◌^◌, ◌/◌, ◌%◌, Bool, false, not, ◌&&◌, ◌||◌, Option, none, some, List,
  [], ◌∷◌, ◌++◌, length, is_nil, any, all, ltb, leb, ◌==◌, ◌!=◌, if◌then◌else◌, String,
}
use ios_rehydrate.Prelude.Bytes.{Bytes, Text, codes, eq_text, elem}
use ios_rehydrate.Prelude.Texts.{is_digit, is_alphanumeric, has, strip, ends_with, split}
use ios_rehydrate.Prelude.Values.{Value, Fields, integer, text, dict, get, pos}
use ios_rehydrate.Errors.{
  os_error, timeout_error, value_error, runtime_error, type_error, overflow_error, bad_zip_file,
  Result, done, raise, ◌>>=◌, ◌>>◌, raise_if,
}
use ios_rehydrate.Ipa.Struct.{invalid}
use ios_rehydrate.Ipa.Names.{posix_parts}
use ios_rehydrate.Ipa.Shape.{ZipInfo}

abbrev pub max_plist_bytes : ℕ
max_plist_bytes = 8 * 1024 ^ 2

abbrev pub max_sinf_bytes : ℕ
max_sinf_bytes = 16 * 1024 ^ 2

-- `_BUNDLE_IDENTIFIER.fullmatch(value) is not None`
unfoldable pub is_bundle_identifier : Text → Bool
is_bundle_identifier [] = false
is_bundle_identifier (c ∷ cs) =
    is_alphanumeric c
    && leb (length cs) 254
    && all (λ d. is_alphanumeric d || has d (codes ".-")) cs

-- `_VERSION_VALUE.fullmatch(value) is not None`
unfoldable pub is_version_value : Text → Bool
is_version_value [] = false
is_version_value (c ∷ cs) =
    is_alphanumeric c
    && leb (length cs) 63
    && all (λ d. is_alphanumeric d || has d (codes "._+-")) cs

-- `value.isascii() and value.isdecimal()`
abbrev pub is_decimal : Text → Bool
is_decimal value = not (is_nil value) && all is_digit value

-- `_MINIMUM_OS_VALUE.fullmatch(value) is not None`: numbers with dots between them
unfoldable pub is_minimum_os_value : Text → Bool
unfolding split
is_minimum_os_value value = all is_decimal (split b'.' value)

-- `members.get(name)`
unfoldable pub member_named : Text → List ZipInfo → Option ZipInfo
unfolding eq_text
member_named name [] = none
member_named name (info ∷ members) =
    let later = member_named name members in if eq_text name info.filename then some info else later

abbrev pub present : String → Option ZipInfo → Result ZipInfo
present reason none = raise (invalid reason)
present reason (some info) =
    if ends_with info.filename (codes "/") then raise (invalid reason) else done info

unfoldable pub required_member : List ZipInfo → Text → String → Result ZipInfo
unfolding member_named ends_with
required_member members name reason = present reason (member_named name members)

abbrev pub is_bad_text : ℕ → Text → Bool
is_bad_text max_length value =
    is_nil value
    || not (eq_text value (strip value))
    || ltb max_length (length value)
    || any (λ c. ltb c 32) value

abbrev pub text_value : ℕ → String → Option Value → Result Text
text_value max_length reason (some (text value)) =
    if is_bad_text max_length value then raise (invalid reason) else done value
text_value max_length reason _ = raise (invalid reason)

unfoldable pub required_text : Fields → Text → String → ℕ → Result Text
unfolding get strip eq_text
required_text mapping key reason max_length = text_value max_length reason (get key mapping)

-- The names of the apps, each once
abbrev pub app_of : List Text → Option Text
app_of (payload ∷ app ∷ parts) =
    if eq_text payload (codes "Payload") && ends_with app (codes ".app") then some app else none
app_of _ = none

abbrev pub add_app : Option Text → List Text → List Text
add_app none apps = apps
add_app (some app) apps = if elem app apps then apps else app ∷ apps

unfoldable pub apps_of : List ZipInfo → List Text
unfolding posix_parts eq_text ends_with elem
apps_of [] = []
apps_of (info ∷ members) = add_app (app_of (posix_parts info.filename)) (apps_of members)

abbrev pub sole_app : List Text → Result Text
sole_app (app ∷ []) = done (codes "Payload/" ++ app)
sole_app _ = raise (invalid "IPA_APP_COUNT_INVALID")

-- `_app_root`
unfoldable pub app_root : List ZipInfo → Result Text
app_root members = sole_app (apps_of members)

-- `str(n)`; the fuel bounds the number of digits.
abbrev pub digits_from : ℕ → ℕ → Text → Text
digits_from zero n cs = cs
digits_from (suc fuel) n cs =
    if n == 0 then cs else digits_from fuel (n / 10) ((b'0' + n % 10) ∷ cs)

-- `_metadata_store_id`
unfoldable pub metadata_store_id : Option Value → Result (Option Text)
metadata_store_id none = done none
metadata_store_id (some (integer (pos n))) =
    if n == 0 then raise (invalid "IPA_STORE_ID_INVALID") else done (some (digits_from n n []))
metadata_store_id (some (text value)) =
    if is_decimal value then done (some value) else raise (invalid "IPA_STORE_ID_INVALID")
metadata_store_id (some _) = raise (invalid "IPA_STORE_ID_INVALID")

-- The comparison with the store identifier that the user expects
unfoldable pub check_store_id : Option Text → Option Text → Result ⊤
unfolding eq_text
check_store_id none store_id = done tt
check_store_id (some expected) none =
    if is_decimal expected
    then raise (invalid "IPA_EXPECTED_STORE_ID_MISSING")
    else raise (invalid "IPA_EXPECTED_STORE_ID_INVALID")
check_store_id (some expected) (some store_id) = do
  raise_if (not (is_decimal expected)) (invalid "IPA_EXPECTED_STORE_ID_INVALID")
  raise_if (not (eq_text store_id expected)) (invalid "IPA_EXPECTED_STORE_MISMATCH")

-- The comparison with the bundle identifier that the user expects
unfoldable pub check_bundle : Option Text → Text → Result ⊤
unfolding eq_text is_bundle_identifier
check_bundle none bundle_identifier = done tt
check_bundle (some expected) bundle_identifier = do
  raise_if (not (is_bundle_identifier expected)) (invalid "IPA_EXPECTED_BUNDLE_INVALID")
  raise_if (not (eq_text bundle_identifier expected)) (invalid "IPA_EXPECTED_BUNDLE_MISMATCH")

-- `archive.open` with a read of at most so many bytes, and `plistlib.loads`
pub record Contents : Type 0 where
  pub read : ZipInfo → ℕ → Result Bytes
  pub loads : Bytes → Result Value

-- The exceptions that `_read_member` replaces
abbrev pub read_failed : String → Result Bytes → Result Bytes
read_failed reason (raise os_error) = raise (invalid reason)
read_failed reason (raise timeout_error) = raise (invalid reason)
read_failed reason (raise runtime_error) = raise (invalid reason)
read_failed reason (raise value_error) = raise (invalid reason)
read_failed reason (raise bad_zip_file) = raise (invalid reason)
read_failed reason r = r

abbrev pub plist_failed : String → Result Value → Result Value
plist_failed reason (raise value_error) = raise (invalid reason)
plist_failed reason (raise type_error) = raise (invalid reason)
plist_failed reason (raise overflow_error) = raise (invalid reason)
plist_failed reason r = r

abbrev pub dictionary : String → Value → Result Fields
dictionary reason (dict fields) = done fields
dictionary reason _ = raise (invalid reason)

-- The reasons of one property list
pub record Reasons : Type 0 where
  pub too_large : String
  pub read_failed : String
  pub is_invalid : String
  pub not_dictionary : String

abbrev pub info_reasons : Reasons
info_reasons = record {
  too_large = "IPA_INFO_PLIST_TOO_LARGE";
  read_failed = "IPA_INFO_PLIST_READ_FAILED";
  is_invalid = "IPA_INFO_PLIST_INVALID";
  not_dictionary = "IPA_INFO_PLIST_NOT_DICTIONARY";
}

abbrev pub metadata_reasons : Reasons
metadata_reasons = record {
  too_large = "IPA_METADATA_PLIST_TOO_LARGE";
  read_failed = "IPA_METADATA_PLIST_READ_FAILED";
  is_invalid = "IPA_METADATA_PLIST_INVALID";
  not_dictionary = "IPA_METADATA_PLIST_NOT_DICTIONARY";
}

module _ (contents : Contents) where
  unfoldable pub read_member : ZipInfo → ℕ → String → String → Result Bytes
  read_member info limit too_large_reason read_reason = do
    raise_if (ltb limit info.file_size) (invalid too_large_reason)
    payload ← read_failed read_reason (contents.read info (limit + 1))
    raise_if (ltb limit (length payload) || length payload != info.file_size)
        (invalid too_large_reason)
    done payload

  unfoldable pub read_plist : ZipInfo → Reasons → Result (Bytes × Fields)
  read_plist info reasons = do
    payload ← read_member info max_plist_bytes reasons.too_large reasons.read_failed
    decoded ← plist_failed reasons.is_invalid (contents.loads payload)
    fields ← dictionary reasons.not_dictionary decoded
    done (payload, fields)
