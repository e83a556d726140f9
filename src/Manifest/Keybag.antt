-- ===== src/Manifest/Keybag.antt =====
-- The keybag of src/ios_rehydrate/manifest.py: `_parse_keybag_tlv`, `_validate_keybag_structure` and
-- `_validate_manifest_key_material`.
pub mod Classes
pub mod Codec
use ios_rehydrate.Prelude.{
  ℕ, ⊤, zero, suc, ◌+◌, ◌-◌, ◌*◌, ◌%◌, ◌/◌, Bool, true, false, not, ◌&&◌, ◌||◌, Option, none, some,
  List, [], ◌∷◌, length, take, drop, is_nil, any, all, ltb, leb, ◌==◌, ◌!=◌, if◌then◌else◌, map,
}
use ios_rehydrate.Prelude.Bytes.{Bytes, Text, codes, slice, little, big, eq_text, elem}
use ios_rehydrate.Prelude.Texts.{is_digit, in_range}
use ios_rehydrate.Prelude.Values.{Value, Fields, bytes, dict, get}
use ios_rehydrate.Errors.{
  Exception, other, assertion_error, Result, done, raise, ◌>>=◌, ◌>>◌, raise_if,
}
use ios_rehydrate.Manifest.{invalid_key_material}
use ios_rehydrate.Manifest.Version.{ProductVersion, is_later, parse_product_version}

abbrev pub max_backup_keybag_bytes : ℕ
max_backup_keybag_bytes = 64 * 1024

abbrev pub max_keybag_element_bytes : ℕ
max_keybag_element_bytes = 4 * 1024

abbrev pub max_keybag_elements : ℕ
max_keybag_elements = 256

abbrev pub max_keybag_class_id : ℕ
max_keybag_class_id = 32

abbrev pub max_keybag_classes : ℕ
max_keybag_classes = 32

-- A tag and its value
abbrev pub Elements : Type 0
Elements = List (Bytes × Bytes)

-- `_KEYBAG_TAG.fullmatch(tag)`: `[A-Z0-9]{4}`
abbrev pub is_tag_character : ℕ → Bool
is_tag_character c = in_range b'A' b'Z' c || is_digit c

abbrev pub is_keybag_tag : Bytes → Bool
is_keybag_tag tag = length tag == 4 && all is_tag_character tag

-- The loop, on what is left of the keybag; `count` is the number of elements so far. A round takes 8
-- bytes at least, which bounds the fuel.
unfoldable pub tlv_from : ℕ → Bytes → ℕ → Result Elements
tlv_from zero rest count = raise assertion_error
tlv_from (suc fuel) [] count = done []
tlv_from (suc fuel) (b ∷ bs) count = do
  raise_if (ltb (length (b ∷ bs)) 8) invalid_key_material
  let tag = slice (b ∷ bs) 0 4
  let size = big (slice (b ∷ bs) 4 8)
  let body = drop 8 (b ∷ bs)
  raise_if
      (not (is_keybag_tag tag)
        || size == 0
        || ltb max_keybag_element_bytes size
        || ltb (length body) size)
      invalid_key_material
  raise_if (ltb max_keybag_elements (count + 1)) invalid_key_material
  elements ← tlv_from fuel (drop size body) (count + 1)
  done ((tag, take size body) ∷ elements)

unfoldable pub parse_keybag_tlv : Bytes → Result Elements
parse_keybag_tlv keybag = do
  raise_if (is_nil keybag || ltb max_backup_keybag_bytes (length keybag)) invalid_key_material
  tlv_from (length keybag + 1) keybag 0

-- `_keybag_integer`
unfoldable pub keybag_integer : Bytes → Result ℕ
keybag_integer value = if length value != 4 then raise invalid_key_material else done (big value)

-- `_bounded_iterations`
unfoldable pub bounded_iterations : Bytes → ℕ → Result ⊤
bounded_iterations value maximum = do
  iterations ← keybag_integer value
  raise_if (ltb iterations 1 || ltb maximum iterations) invalid_key_material

-- The elements before the class part, and the class part: it begins one element before the first
-- `CLAS`. `none` if there is none, or if it comes first.
abbrev pub before : (Bytes × Bytes) → Option (Elements × Elements) → Option (Elements × Elements)
before e none = none
before e (some (root, classes)) = some (e ∷ root, classes)

unfoldable pub split_classes : Elements → Option (Elements × Elements)
unfolding eq_text
split_classes [] = none
split_classes (e ∷ []) = none
split_classes (e ∷ f ∷ rest) =
    let later = split_classes (f ∷ rest) in
    if eq_text f.0 (codes "CLAS") then some ([], e ∷ f ∷ rest) else before e later

-- `next((index for ...), None)` is `None` or 0.
abbrev pub starts_with_class : Elements → Bool
starts_with_class [] = true
starts_with_class (e ∷ rest) = eq_text e.0 (codes "CLAS")

abbrev pub tags : Elements → List Bytes
tags [] = []
tags ((tag, value) ∷ elements) = tag ∷ tags elements

-- `len(root_tags) != len(set(root_tags))`
unfoldable pub has_duplicate : List Bytes → Bool
unfolding elem
has_duplicate [] = false
has_duplicate (tag ∷ rest) = elem tag rest || has_duplicate rest

-- `root[tag]`, of a dictionary of distinct tags; a missing key is a `KeyError`.
unfoldable pub item : Bytes → Elements → Result Bytes
unfolding eq_text
item tag [] = raise other
item tag ((t, value) ∷ elements) =
    let later = item tag elements in if eq_text tag t then done value else later

abbrev pub required_tags : List Bytes
required_tags =
    codes "VERS" ∷ codes "TYPE" ∷ codes "UUID" ∷ codes "WRAP" ∷ codes "SALT" ∷ codes "ITER" ∷ []

-- The members of the root that stand or fall together, `DPSL` and `DPIC`
unfoldable pub validate_double_protection : Elements → ProductVersion → Result ⊤
unfolding elem
validate_double_protection root product_version = do
  let has_dpsl = elem (codes "DPSL") (tags root)
  let has_dpic = elem (codes "DPIC") (tags root)
  raise_if
      ((has_dpsl && not has_dpic)
        || (has_dpic && not has_dpsl)
        || (is_later product_version (record { major = 10; minor = 2; patch = 0 }) && not has_dpsl))
      invalid_key_material
  if has_dpsl
      then (do
        dpsl ← item (codes "DPSL") root
        raise_if (length dpsl != 20) invalid_key_material
        dpic ← item (codes "DPIC") root
        bounded_iterations dpic 20_000_000)
      else done tt

unfoldable pub validate_check_value : Elements → Result ⊤
unfolding elem
validate_check_value root =
    if elem (codes "HMCK") (tags root)
    then (do hmck ← item (codes "HMCK") root; raise_if (length hmck != 40) invalid_key_material)
    else done tt

-- The part of `_validate_keybag_structure` on the root elements
unfoldable pub validate_root : Elements → ProductVersion → Result ⊤
unfolding elem has_duplicate
validate_root root product_version = do
  let root_tags = tags root
  raise_if (has_duplicate root_tags) invalid_key_material
  raise_if (not (all (λ tag. elem tag root_tags) required_tags)) invalid_key_material
  raise_if
      (elem (codes "CLAS") root_tags
        || elem (codes "KTYP") root_tags
        || elem (codes "WPKY") root_tags)
      invalid_key_material
  vers ← item (codes "VERS") root
  version ← keybag_integer vers
  raise_if (ltb version 1 || ltb 4 version) invalid_key_material
  type ← item (codes "TYPE") root
  kind ← keybag_integer type
  raise_if (kind != 1) invalid_key_material
  uuid ← item (codes "UUID") root
  raise_if (length uuid != 16) invalid_key_material
  wrap ← item (codes "WRAP") root
  wrapping ← keybag_integer wrap
  raise_if (wrapping != 0) invalid_key_material
  salt ← item (codes "SALT") root
  raise_if (length salt != 20) invalid_key_material
  iter ← item (codes "ITER") root
  bounded_iterations iter 1_000_000
  validate_check_value root
  validate_double_protection root product_version

abbrev pub number_in : ℕ → List ℕ → Bool
number_in n = any (λ m. n == m)

-- The loop over the groups of five, with the ids and the UUIDs so far. A group of another shape has not
-- the tags that are asked for.
unfoldable pub class_ids_from : Elements → List ℕ → List Bytes → Result (List ℕ)
unfolding eq_text elem
class_ids_from [] class_ids class_uuids = done class_ids
class_ids_from ((t1, uuid) ∷ (t2, clas) ∷ (t3, wrap) ∷ (t4, ktyp) ∷ (t5, wpky) ∷ rest) class_ids
      class_uuids =
    do
      raise_if
          (not (
            eq_text t1 (codes "UUID")
            && eq_text t2 (codes "CLAS")
            && eq_text t3 (codes "WRAP")
            && eq_text t4 (codes "KTYP")
            && eq_text t5 (codes "WPKY")))
          invalid_key_material
      class_id ← keybag_integer clas
      wrapping ← keybag_integer wrap
      key_type ← keybag_integer ktyp
      raise_if
          (length uuid != 16
            || elem uuid class_uuids
            || ltb class_id 1
            || ltb max_keybag_class_id class_id
            || number_in class_id class_ids
            || (wrapping != 2 && wrapping != 3)
            || key_type != 0
            || length wpky != 40)
          invalid_key_material
      class_ids_from rest (class_id ∷ class_ids) (uuid ∷ class_uuids)
class_ids_from _ class_ids class_uuids = raise invalid_key_material

abbrev pub parted : Elements → Result (Elements × Elements)
parted elements =
    if starts_with_class elements
    then raise invalid_key_material
    else elim (split_classes elements) [
      | none ↦ raise invalid_key_material
      | some parts ↦ done parts
    ]

unfoldable pub validate_keybag_structure : Elements → ProductVersion → Result (List ℕ)
validate_keybag_structure elements product_version = do
  (root_elements, class_elements) ← parted elements
  raise_if (is_nil root_elements || is_nil class_elements || length class_elements % 5 != 0)
      invalid_key_material
  let class_count = length class_elements / 5
  raise_if (ltb class_count 1 || ltb max_keybag_classes class_count) invalid_key_material
  validate_root root_elements product_version
  class_ids_from class_elements [] []

-- What `_validate_manifest_key_material` takes from the manifest
unfoldable pub validate_key_values : Fields → Bytes → Bytes → Result ⊤
unfolding get eq_text
validate_key_values lockdown keybag_data manifest_key = do
  product_version ← parse_product_version (get (codes "ProductVersion") lockdown)
  elements ← parse_keybag_tlv keybag_data
  class_ids ← validate_keybag_structure elements product_version
  raise_if (length manifest_key != 44) invalid_key_material
  raise_if (not (number_in (little (slice manifest_key 0 4)) class_ids)) invalid_key_material

abbrev pub key_values : Option Value → Option Value → Option Value → Result ⊤
key_values (some (dict lockdown)) (some (bytes keybag_data)) (some (bytes manifest_key)) =
    validate_key_values lockdown keybag_data manifest_key
key_values _ _ _ = raise invalid_key_material

unfoldable pub validate_manifest_key_material : Fields → Result ⊤
unfolding get
validate_manifest_key_material manifest =
    key_values (get (codes "Lockdown") manifest) (get (codes "BackupKeyBag") manifest)
      (get (codes "ManifestKey") manifest)
