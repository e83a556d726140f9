-- ===== src/Backup/Payload.antt =====
-- src/ios_rehydrate/backup.py: `_exact_device_directory` and `_hashed_payload_totals`, on what the scans of
-- the backup yield. `casefold` is `str.casefold`.
pub mod Adds
pub mod Sums
pub mod Exact
use ios_rehydrate.Prelude.{
  ℕ, suc, ◌+◌, ⊤, ◌≡◌, Bool, true, false, not, ◌&&◌, ◌||◌, List, [], ◌∷◌, length, take, all, leb,
  ◌==◌, if◌then◌else◌,
}
use ios_rehydrate.Prelude.Bytes.{Text, eq_text}
use ios_rehydrate.Errors.{Exception, Result, done, raise, ◌>>=◌, ◌>>◌, raise_if}
use ios_rehydrate.Device.{is_hexadecimal}
use ios_rehydrate.Backup.{
  verify_error, Metadata, is_reparse, is_plain_directory, Listing, stop, broken, entry, consume,
  or_os_error,
}

abbrev pub max_inspected_directory_entries : ℕ
max_inspected_directory_entries = 2000000

abbrev pub max_hashed_payload_count : ℕ
max_hashed_payload_count = 1000000

-- `os.DirEntry`, with the answer of its `stat` that follows no link
pub record DirEntry : Type 0 where
  pub name : Text
  pub stat : Result Metadata

-- A bucket, with what a scan of it yields
pub record Bucket : Type 0 where
  pub name : Text
  pub stat : Result Metadata
  pub scan : Result (Listing DirEntry)

abbrev pub layout_invalid : Exception
layout_invalid = verify_error "BACKUP_LAYOUT_INVALID"

abbrev pub payload_invalid : Exception
payload_invalid = verify_error "BACKUP_PAYLOAD_INVALID"

-- The loop of `_exact_device_directory`: whether the directory has been found, and the entries inspected
unfoldable pub exact_from : ℕ → Text → Bool → ℕ → Listing DirEntry → Result (Bool × ℕ)
exact_from limit expected found inspected stop = done (found, inspected)
exact_from limit expected found inspected (broken e) = raise e
exact_from limit expected found inspected (entry e rest) = do
  n ← consume limit inspected
  raise_if (found || not (eq_text e.name expected)) layout_invalid
  metadata ← e.stat
  raise_if (not (is_plain_directory metadata)) layout_invalid
  exact_from limit expected true n rest

-- `_exact_device_directory`: the entries inspected
unfoldable pub exact_device_directory : ℕ → Text → Result (Listing DirEntry) → Result ℕ
exact_device_directory limit expected scan = do
  (found, inspected) ← or_os_error layout_invalid (scan >>= exact_from limit expected false 0)
  raise_if (not found) layout_invalid
  done inspected

-- `count`, `total` and the entries inspected
pub record Totals : Type 0 where
  pub count : ℕ
  pub total : ℕ
  pub inspected : ℕ

-- `re.fullmatch(r"[0-9a-fA-F]{2}", name)`
abbrev pub is_bucket_name : Text → Bool
is_bucket_name name = length name == 2 && all is_hexadecimal name

-- `_HASHED_PAYLOAD.fullmatch(name)`
abbrev pub is_payload_name : Text → Bool
is_payload_name name = length name == 40 && all is_hexadecimal name

module _ (casefold : Text → Text) (limit : ℕ) where
  -- Whether an entry of a bucket counts
  unfoldable pub is_payload : Text → Text → Metadata → Bool
  is_payload bucket name metadata =
      metadata.regular && is_payload_name name && eq_text (casefold bucket) (casefold (take 2 name))

  -- An entry that counts
  unfoldable pub add_payload : ℕ → Totals → Result Totals
  add_payload size totals = do
    raise_if (leb max_hashed_payload_count totals.count) (verify_error "BACKUP_PAYLOAD_COUNT_LIMIT")
    done (record totals { count = suc totals.count; total = totals.total + size })

  -- The body of the inner loop of `_hashed_payload_totals`
  unfoldable pub add_entry : Text → DirEntry → Totals → Result Totals
  add_entry bucket e totals = do
    n ← consume limit totals.inspected
    metadata ← or_os_error payload_invalid e.stat
    raise_if (is_reparse metadata) payload_invalid
    if is_payload bucket e.name metadata
        then add_payload metadata.size (record totals { inspected = n })
        else done (record totals { inspected = n })

  unfoldable pub add_entries : Text → Listing DirEntry → Totals → Result Totals
  add_entries bucket stop totals = done totals
  add_entries bucket (broken e) totals = raise e
  add_entries bucket (entry e rest) totals = do
    next ← add_entry bucket e totals
    add_entries bucket rest next

  -- A bucket with a name of two digits
  unfoldable pub add_bucket : Bucket → Totals → Result Totals
  add_bucket bucket totals = do
    metadata ← or_os_error payload_invalid bucket.stat
    raise_if (not (is_plain_directory metadata)) payload_invalid
    entries ← or_os_error payload_invalid bucket.scan
    add_entries bucket.name entries totals

  -- The body of the outer loop
  unfoldable pub add_if_named : Bucket → Totals → Result Totals
  add_if_named bucket totals = do
    n ← consume limit totals.inspected
    if is_bucket_name bucket.name
        then add_bucket bucket (record totals { inspected = n })
        else done (record totals { inspected = n })

  unfoldable pub add_buckets : Listing Bucket → Totals → Result Totals
  add_buckets stop totals = done totals
  add_buckets (broken e) totals = raise e
  add_buckets (entry bucket rest) totals = do
    next ← add_if_named bucket totals
    add_buckets rest next

  -- `_hashed_payload_totals`, after a number of inspected entries
  unfoldable pub hashed_payload_totals : Result (Listing Bucket) → ℕ → Result Totals
  hashed_payload_totals scan inspected = do
    buckets ← or_os_error payload_invalid scan
    add_buckets buckets (record { count = 0; total = 0; inspected = inspected })
