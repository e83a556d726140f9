-- ===== src/Manifest/Version.antt =====
-- `_parse_product_version` of src/ios_rehydrate/manifest.py.
pub mod Bounds
use ios_rehydrate.Prelude.{
  ℕ, Bool, not, ◌&&◌, ◌||◌, Option, some, List, [], ◌∷◌, map, length, is_nil, any, all, get_or, ltb,
  ◌==◌, ◌!=◌,
}
use ios_rehydrate.Prelude.Bytes.{Text}
use ios_rehydrate.Prelude.Texts.{is_digit, starts_with, split, decimal_from}
use ios_rehydrate.Prelude.Values.{Value, text}
use ios_rehydrate.Errors.{Result, done, raise, ◌>>◌, raise_if}
use ios_rehydrate.Manifest.{invalid_key_material}

abbrev pub max_product_version_length : ℕ
max_product_version_length = 16

abbrev pub max_product_version_major : ℕ
max_product_version_major = 99

abbrev pub max_product_version_component : ℕ
max_product_version_component = 999

-- The test of a part: decimal digits with no leading zero. `isdigit` on an ASCII text is `[0-9]+`.
unfoldable pub is_bad_part : Text → Bool
unfolding starts_with
is_bad_part part =
    is_nil part || not (all is_digit part) || (ltb 1 (length part) && starts_with part (b'0' ∷ []))

-- `major, minor, patch`
pub record ProductVersion : Type 0 where
  pub major : ℕ
  pub minor : ℕ
  pub patch : ℕ

-- `left > right`, of tuples
abbrev pub is_later : ProductVersion → ProductVersion → Bool
is_later left right =
    ltb right.major left.major
    || (left.major == right.major
        && (ltb right.minor left.minor
            || (left.minor == right.minor && ltb right.patch left.patch)))

abbrev exceeds_component : ℕ → Bool
exceeds_component component = ltb max_product_version_component component

-- What follows of the number of parts, two or three of which have been asked for.
unfoldable pub version_of : List ℕ → Result ProductVersion
version_of (major ∷ rest) = do
  raise_if (ltb major 1 || ltb max_product_version_major major || any exceeds_component rest)
      invalid_key_material
  done (record { major = major; minor = get_or rest 0 0; patch = get_or rest 1 0 })
version_of [] = raise invalid_key_material

unfoldable pub parse_product_text : Text → Result ProductVersion
unfolding split is_bad_part
parse_product_text value = do
  raise_if (is_nil value || ltb max_product_version_length (length value)) invalid_key_material
  let parts = split b'.' value
  raise_if (length parts != 2 && length parts != 3) invalid_key_material
  raise_if (any is_bad_part parts) invalid_key_material
  version_of (map (decimal_from 0) parts)

abbrev pub parse_product_version : Option Value → Result ProductVersion
parse_product_version (some (text value)) = parse_product_text value
parse_product_version _ = raise invalid_key_material
