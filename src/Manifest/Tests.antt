-- ===== src/Manifest/Tests.antt =====
-- A keybag, a database page and a report, and the theorems on src/ios_rehydrate/manifest.py at them.
use ios_rehydrate.Prelude.{
  ℕ, zero, suc, ◌≡◌, ◌≤◌, ◌↔◌, refl, true, Option, some, List, [], ◌∷◌, ◌++◌, arith, length,
}
use ios_rehydrate.Prelude.Bytes.{Bytes, IsBytes, codes, eq_text, elem}
use ios_rehydrate.Prelude.Texts.{split, starts_with}
use ios_rehydrate.Prelude.Values.{ℤ, pos, Fields, text, integer, bytes, dict, end, field, get}
use ios_rehydrate.Errors.{Result, done, ◌>>=◌, raise_if}
use ios_rehydrate.Manifest.Version.{
  parse_product_version, ProductVersion, is_bad_part, version_of, parse_product_text,
}
use ios_rehydrate.Manifest.Keybag.{
  Elements, tlv_from, parse_keybag_tlv, keybag_integer, bounded_iterations, split_classes,
  has_duplicate, item, validate_double_protection, validate_check_value, validate_root,
  class_ids_from, validate_keybag_structure, validate_key_values, validate_manifest_key_material,
}
use ios_rehydrate.Manifest.Keybag.Codec.{encode, IsKeybag, parse_keybag_tlv_iff}
use ios_rehydrate.Manifest.Keybag.Classes.{IsIdSet, validate_keybag_structure-IsIdSet}
use ios_rehydrate.Manifest.Sqlite.{
  valid_pkcs7, declared_length, undeclared_padding, undeclared_length, validate_sqlite_body,
  sqlite_header,
}
use ios_rehydrate.Manifest.Sqlite.Pages.{IsPaged, validate_sqlite_body-IsPaged}
use ios_rehydrate.Manifest.Query.{
  Database, column_is, validate_schema, required_columns, entry_size, add_rows, query_body,
  query_app_domain,
}
use ios_rehydrate.Manifest.Query.Totals.{IsReport, query_app_domain-IsReport}

abbrev repeat : ℕ → ℕ → Bytes
repeat zero b = []
repeat (suc n) b = b ∷ repeat n b

abbrev number : ℕ → Bytes
number n = 0 ∷ 0 ∷ 0 ∷ n ∷ []

-- A keybag with one class, of the id 3
abbrev elements : Elements
elements =
    (codes "VERS", number 3)
    ∷ (codes "TYPE", number 1)
    ∷ (codes "UUID", repeat 16 1)
    ∷ (codes "WRAP", number 0)
    ∷ (codes "SALT", repeat 20 2)
    ∷ (codes "ITER", number 100)
    ∷ (codes "UUID", repeat 16 3)
    ∷ (codes "CLAS", number 3)
    ∷ (codes "WRAP", number 2)
    ∷ (codes "KTYP", number 0)
    ∷ (codes "WPKY", repeat 40 4)
    ∷ []

abbrev version : ProductVersion
version = record { major = 9; minor = 0; patch = 0 }

-- The names that the tests compute with.
runs : ℕ
unfolding ◌>>=◌ raise_if eq_text elem get split starts_with is_bad_part version_of
    parse_product_text tlv_from parse_keybag_tlv keybag_integer bounded_iterations split_classes
    has_duplicate item validate_double_protection validate_check_value validate_root class_ids_from
    validate_keybag_structure validate_key_values validate_manifest_key_material valid_pkcs7
    declared_length undeclared_padding undeclared_length validate_sqlite_body column_is
    validate_schema entry_size add_rows query_body
runs = 0

-- One element
abbrev small : Elements
small = (codes "VERS", 7 ∷ []) ∷ []

small-IsBytes : IsBytes (encode small)
small-IsBytes = (
  omega arith,
  (
    omega arith,
    (
      omega arith,
      (omega arith, (omega arith, (omega arith, (omega arith, (omega arith, (omega arith, tt)))))),
    ),
  ),
)

parse_keybag_tlv_iff_example :
    (parse_keybag_tlv (encode small) ≡ done small) ↔ IsKeybag (encode small) small
parse_keybag_tlv_iff_example = parse_keybag_tlv_iff (encode small) small small-IsBytes

abbrev one_id : List ℕ
one_id = 3 ∷ []

elements-accepted : validate_keybag_structure elements version ≡ done one_id
unfolding runs
elements-accepted = refl

validate_keybag_structure-IsIdSet_example :
    IsIdSet one_id × (1 ≤ length one_id) × (length one_id ≤ 32)
validate_keybag_structure-IsIdSet_example =
    validate_keybag_structure-IsIdSet elements version one_id elements-accepted

abbrev manifest_key : Bytes
manifest_key = 3 ∷ 0 ∷ 0 ∷ 0 ∷ repeat 40 5

abbrev manifest : Fields
manifest =
    field (codes "Lockdown") (dict (field (codes "ProductVersion") (text (codes "9.0")) end)) (
      field (codes "BackupKeyBag") (bytes (encode elements))
        (field (codes "ManifestKey") (bytes manifest_key) end))

manifest-accepted : validate_manifest_key_material manifest ≡ done tt
unfolding runs
manifest-accepted = refl

-- One page of a database with its header, and a padding behind it
abbrev page : Bytes
page = sqlite_header ++ (2 ∷ 0 ∷ 1 ∷ 1 ∷ 0 ∷ 0x40 ∷ 0x20 ∷ 0x20 ∷ []) ++ repeat 488 0

page-accepted : validate_sqlite_body (page ++ repeat 16 16) ≡ done page
unfolding runs
page-accepted = refl

validate_sqlite_body-IsPaged_example : IsPaged (page ++ repeat 16 16) page
validate_sqlite_body-IsPaged_example =
    validate_sqlite_body-IsPaged (page ++ repeat 16 16) page page-accepted

-- A database of two files in the domain; the size of a blob is its length.
abbrev connection : Database
connection = record {
  opened = done tt;
  query_only_retained = done true;
  quick_check_ok = done true;
  files_is_table = done true;
  columns = done required_columns;
  summary_row = done (some (integer (pos 2) ∷ integer (pos 3) ∷ []));
  rows = done (bytes (1 ∷ 2 ∷ 3 ∷ []) ∷ bytes (4 ∷ []) ∷ []);
}

abbrev unarchive : Bytes → Result (Option (Option ℤ))
unarchive blob = done (some (some (pos (length blob))))

report_of_two :
    query_app_domain unarchive connection
    ≡ done (record { entry_count = 2; logical_bytes_total = 4 })
unfolding runs
report_of_two = refl

query_app_domain-IsReport_example :
    IsReport unarchive connection (record { entry_count = 2; logical_bytes_total = 4 })
query_app_domain-IsReport_example =
    query_app_domain-IsReport unarchive connection
      (record { entry_count = 2; logical_bytes_total = 4 }) report_of_two

fourteen :
    parse_product_version (some (text (codes "14.2")))
    ≡ done (record { major = 14; minor = 2; patch = 0 })
unfolding runs
fourteen = refl
