-- ===== src/Manifest/Query.antt =====
-- `_query_app_domain` and `_validate_schema` of src/ios_rehydrate/manifest.py, on the answers of the
-- database, and `ManifestReport`. `unarchive` is a parameter: the decoder of a third-party package.
pub mod Totals
use ios_rehydrate.Prelude.{
  ℕ, ⊤, ◌+◌, ◌-◌, ◌*◌, ◌^◌, Bool, true, false, not, ◌&&◌, ◌||◌, Option, none, some, List, [], ◌∷◌,
  length, all, ltb, ◌!=◌, if◌then◌else◌, String,
}
use ios_rehydrate.Prelude.Bytes.{Bytes, Text, codes, eq_text}
use ios_rehydrate.Prelude.Values.{ℤ, pos, negsuc, Value, integer, bytes}
use ios_rehydrate.Errors.{
  Exception, rehydrate, sqlite_error, overflow_error, value_error, Result, done, raise, ◌>>=◌, ◌>>◌,
  raise_if,
}
use ios_rehydrate.Manifest.{manifest_error}

abbrev pub max_entry_blob_bytes : ℕ
max_entry_blob_bytes = 8 * 1024 ^ 2

abbrev pub max_app_domain_entries : ℕ
max_app_domain_entries = 1_000_000

abbrev pub max_app_domain_logical_bytes : ℕ
max_app_domain_logical_bytes = 4 * 1024 ^ 4

pub record ManifestReport : Type 0 where
  pub entry_count : ℕ
  pub logical_bytes_total : ℕ

-- A column of `PRAGMA table_info("Files")`: the name, folded, and the type, in capitals.
abbrev pub Columns : Type 0
Columns = List (Text × Text)

-- What the connection answers to the statements, in their order; each may raise. `rows` are the values
-- of the column `file` in the domain.
pub record Database : Type 0 where
  pub opened : Result ⊤
  pub query_only_retained : Result Bool
  pub quick_check_ok : Result Bool
  pub files_is_table : Result Bool
  pub columns : Result Columns
  pub summary_row : Result (Option (List Value))
  pub rows : Result (List Value)

abbrev pub required_columns : Columns
required_columns =
    (codes "fileid", codes "TEXT")
    ∷ (codes "domain", codes "TEXT")
    ∷ (codes "relativepath", codes "TEXT")
    ∷ (codes "flags", codes "INTEGER")
    ∷ (codes "file", codes "BLOB")
    ∷ []

-- `columns.get(name) == affinity`; of two columns of a name the dictionary keeps the later.
unfoldable pub column_is : Text → Text → Bool → Columns → Bool
unfolding eq_text
column_is name affinity so_far [] = so_far
column_is name affinity so_far ((n, a) ∷ columns) =
    column_is name affinity (if eq_text name n then eq_text affinity a else so_far) columns

unfoldable pub validate_schema : Database → Result ⊤
unfolding column_is
validate_schema connection = do
  table ← connection.files_is_table
  raise_if (not table) (manifest_error "MANIFEST_SCHEMA_INVALID")
  columns ← connection.columns
  raise_if (not (all (λ c. column_is c.0 c.1 false columns) required_columns))
      (manifest_error "MANIFEST_SCHEMA_INVALID")

-- The two numbers of the summary row: it has two members, integers that are not negative.
abbrev pub summary_of : Option (List Value) → Result (ℕ × ℕ)
summary_of (some (integer (pos count) ∷ integer (pos largest) ∷ [])) = done (count, largest)
summary_of _ = raise (manifest_error "MANIFEST_ENTRY_COUNT_INVALID")

-- `metadata`, if it is an `MBFile`: its `size`, if that is an integer.
abbrev pub size_of : Result (Option (Option ℤ)) → Result ℕ
size_of (done (some (some (pos size)))) = done size
size_of (done _) = raise (manifest_error "MANIFEST_ENTRY_INVALID")
size_of (raise Exception.base) = raise Exception.base
size_of (raise e) = raise (manifest_error "MANIFEST_ENTRY_INVALID")

abbrev pub blob_of : Value → Result Bytes
blob_of (bytes blob) = done blob
blob_of _ = raise (manifest_error "MANIFEST_ENTRY_INVALID")

module _ (unarchive : Bytes → Result (Option (Option ℤ))) where
  -- The size that a row's blob records.
  unfoldable pub entry_size : Value → Result ℕ
  entry_size row = do
    blob ← blob_of row
    raise_if (ltb max_entry_blob_bytes (length blob))
        (manifest_error "MANIFEST_ENTRY_BLOB_TOO_LARGE")
    size_of (unarchive blob)

  -- The loop over the rows, from the two sums so far
  unfoldable pub add_rows : List Value → ManifestReport → Result ManifestReport
  add_rows [] totals = done totals
  add_rows (row ∷ rows) totals = do
    size ← entry_size row
    raise_if (ltb max_app_domain_entries (totals.entry_count + 1))
        (manifest_error "MANIFEST_ENTRY_COUNT_LIMIT")
    raise_if (ltb (max_app_domain_logical_bytes - totals.logical_bytes_total) size)
        (manifest_error "MANIFEST_LOGICAL_SIZE_LIMIT")
    add_rows rows (record {
      entry_count = totals.entry_count + 1;
      logical_bytes_total = totals.logical_bytes_total + size;
    })

  -- The body of the `try`
  unfoldable pub query_body : Database → Result ManifestReport
  query_body connection = do
    connection.opened
    query_only ← connection.query_only_retained
    raise_if (not query_only) sqlite_error
    quick_check ← connection.quick_check_ok
    raise_if (not quick_check) sqlite_error
    validate_schema connection
    summary_row ← connection.summary_row
    (expected_count, largest_blob) ← summary_of summary_row
    raise_if (ltb max_app_domain_entries expected_count)
        (manifest_error "MANIFEST_ENTRY_COUNT_LIMIT")
    raise_if (ltb max_entry_blob_bytes largest_blob)
        (manifest_error "MANIFEST_ENTRY_BLOB_TOO_LARGE")
    rows ← connection.rows
    report ← add_rows rows (record { entry_count = 0; logical_bytes_total = 0 })
    raise_if (report.entry_count != expected_count) (manifest_error "MANIFEST_ENTRY_COUNT_INVALID")
    done report

  -- The `except` clauses
  abbrev pub reported : Result ManifestReport → Result ManifestReport
  reported (raise sqlite_error) = raise (manifest_error "MANIFEST_SQLITE_INVALID")
  reported (raise overflow_error) = raise (manifest_error "MANIFEST_SQLITE_INVALID")
  reported (raise value_error) = raise (manifest_error "MANIFEST_SQLITE_INVALID")
  reported r = r

  abbrev pub query_app_domain : Database → Result ManifestReport
  query_app_domain connection = reported (query_body connection)
