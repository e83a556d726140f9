-- ===== src/Backup/Payload/Sums.antt =====
-- The totals of src/ios_rehydrate/backup.py against a description of the payload files of a backup.
use ios_rehydrate.Prelude.{
  ℕ, ◌+◌, ◌≤◌, ◌≡◌, refl, Bool, true, false, not, List, [], ◌∷◌, ◌++◌, length, leb, arith,
  if◌then◌else◌,
}
use ios_rehydrate.Prelude.Bytes.{Text}
use ios_rehydrate.Errors.{
  Result, done, raise, Ensures, Ensures-done, Ensures-raise, Ensures-bind, Ensures-raise_if,
  >>=-done,
}
use ios_rehydrate.Backup.{
  Metadata, is_reparse, is_plain_directory, Listing, stop, broken, entry, consume, or_os_error,
}
use ios_rehydrate.Backup.Payload.Exact.{or_os_error_done}
use ios_rehydrate.Backup.Payload.{
  max_hashed_payload_count, DirEntry, Bucket, Totals, is_bucket_name, is_payload, add_payload,
  add_entries, add_entry, add_bucket, add_if_named, add_buckets, hashed_payload_totals,
}
use ios_rehydrate.Backup.Payload.Adds.{sum, Adds, Adds-then, consume_lem, nothing_added, counted}

module _ (casefold : Text → Text) (limit : ℕ) where
  -- The size of an entry that counts
  abbrev size_if : Bool → ℕ → List ℕ
  size_if true size = size ∷ []
  size_if false size = []

  abbrev pub size_of : Text → DirEntry → List ℕ
  size_of bucket e = elim e.stat [
    | done metadata ↦ size_if (is_payload casefold limit bucket e.name metadata) metadata.size
    | raise x ↦ []
  ]

  -- The sizes of the payload files of a bucket, and the number of its entries
  unfoldable pub sizes_in : Text → Listing DirEntry → List ℕ
  sizes_in bucket stop = []
  sizes_in bucket (broken e) = []
  sizes_in bucket (entry e rest) = size_of bucket e ++ sizes_in bucket rest

  unfoldable pub entries_in : {E : Type 0} → Listing E → ℕ
  entries_in stop = 0
  entries_in (broken e) = 0
  entries_in (entry e rest) = 1 + entries_in rest

  add_payload-Adds :
      (size : ℕ) (s : Totals)
      → Ensures (Adds limit s (size ∷ []) 0) (add_payload casefold limit size s)
  unfolding add_payload
  add_payload-Adds size s = Ensures-raise_if (leb max_hashed_payload_count s.count) _ _ λ h.
      Ensures-done _ (record {
        count = omega arith;
        total = omega arith;
        inspected = omega arith;
        capped = λ c. ground arith;
        budget = λ b. b;
      })

  -- The last part of the body, whether the entry counts or not
  added :
      (counts : Bool) (size : ℕ) (s : Totals) (n : ℕ)
      → Adds limit s [] 1 (record s { inspected = n })
      → Ensures (Adds limit s (size_if counts size) 1) (
          if counts
          then add_payload casefold limit size (record s { inspected = n })
          else done (record s { inspected = n }))
  added true size s n looked = record {
    at = λ t h.
        Adds-then limit {ms = []} {ns = size ∷ []} {m = 1} {n = 0} looked
          (Ensures.at (add_payload-Adds size (record s { inspected = n })) t h);
  }
  added false size s n looked = Ensures-done (record s { inspected = n }) looked

  size_of_done :
      (bucket : Text) (e : DirEntry) (metadata : Metadata)
      → e.stat ≡ done metadata
      → size_of bucket e ≡ size_if (is_payload casefold limit bucket e.name metadata) metadata.size
  size_of_done bucket e metadata h = rw h refl

  -- An entry that is looked at is no link.
  add_entry-Adds :
      (bucket : Text) (e : DirEntry) (s : Totals)
      → Ensures (Adds limit s (size_of bucket e) 1) (add_entry casefold limit bucket e s)
  unfolding add_entry
  add_entry-Adds bucket e s = Ensures-bind (consume limit s.inspected) _ λ n got.
      let looked = counted limit s n (Ensures.at (consume_lem limit s.inspected) n got) in
      Ensures-bind (or_os_error _ e.stat) _ λ metadata found.
        Ensures-raise_if (is_reparse metadata) _ _ λ clean.
          let sizes = size_of_done bucket e metadata (or_os_error_done _ e.stat metadata found) in
          rw sizes
            (added (is_payload casefold limit bucket e.name metadata) metadata.size s n looked)

  add_entries-Adds :
      (bucket : Text) (listing : Listing DirEntry) (s : Totals)
      → Ensures
          (Adds limit s (sizes_in bucket listing) (entries_in listing))
          (add_entries casefold limit bucket listing s)
  unfolding add_entries sizes_in entries_in
  add_entries-Adds bucket stop s = Ensures-done s (nothing_added limit s)
  add_entries-Adds bucket (broken e) s = Ensures-raise e
  add_entries-Adds bucket (entry e rest) s =
      Ensures-bind (add_entry casefold limit bucket e s) _ λ next first. record {
        at = λ t last.
            Adds-then limit {ms = size_of bucket e} {ns = sizes_in bucket rest} {m = 1}
              {n = entries_in rest} (Ensures.at (add_entry-Adds bucket e s) next first)
              (Ensures.at (add_entries-Adds bucket rest next) t last);
      }

  -- What a bucket contributes: its payload files, if its name is that of a bucket, and its entries.
  abbrev sizes_if : Bool → Text → Result (Listing DirEntry) → List ℕ
  sizes_if true bucket (done listing) = sizes_in bucket listing
  sizes_if _ bucket _ = []

  abbrev entries_if : Bool → Result (Listing DirEntry) → ℕ
  entries_if true (done listing) = 1 + entries_in listing
  entries_if _ _ = 1

  -- The sizes of the payload files of a backup, and the number of entries that a scan of it meets
  unfoldable pub payload_sizes : Listing Bucket → List ℕ
  payload_sizes stop = []
  payload_sizes (broken e) = []
  payload_sizes (entry bucket rest) =
      sizes_if (is_bucket_name bucket.name) bucket.name bucket.scan ++ payload_sizes rest

  unfoldable pub entry_count : Listing Bucket → ℕ
  entry_count stop = 0
  entry_count (broken e) = 0
  entry_count (entry bucket rest) =
      entries_if (is_bucket_name bucket.name) bucket.scan + entry_count rest

  add_bucket-Adds :
      (bucket : Bucket) (s : Totals) (n : ℕ)
      → Adds limit s [] 1 (record s { inspected = n })
      → Ensures
          (Adds limit s (sizes_if true bucket.name bucket.scan) (entries_if true bucket.scan))
          (add_bucket casefold limit bucket (record s { inspected = n }))
  unfolding add_bucket
  add_bucket-Adds bucket s n looked = Ensures-bind (or_os_error _ bucket.stat) _ λ metadata found.
      Ensures-raise_if (not (is_plain_directory metadata)) _ _ λ plain.
        Ensures-bind (or_os_error _ bucket.scan) _ λ listing scanned.
          rw (or_os_error_done _ bucket.scan listing scanned) (record {
            at = λ t h.
                Adds-then limit {ms = []} {ns = sizes_in bucket.name listing} {m = 1}
                  {n = entries_in listing} looked
                  (Ensures.at (add_entries-Adds bucket.name listing (record s { inspected = n })) t
                    h);
          })

  bucket_added :
      (named : Bool) (bucket : Bucket) (s : Totals) (n : ℕ)
      → Adds limit s [] 1 (record s { inspected = n })
      → Ensures
          (Adds limit s (sizes_if named bucket.name bucket.scan) (entries_if named bucket.scan))
          (if named
            then add_bucket casefold limit bucket (record s { inspected = n })
            else done (record s { inspected = n }))
  bucket_added true bucket s n looked = add_bucket-Adds bucket s n looked
  bucket_added false bucket s n looked = Ensures-done (record s { inspected = n }) looked

  add_if_named-Adds :
      (bucket : Bucket) (s : Totals)
      → let named = is_bucket_name bucket.name in
        Ensures
          (Adds limit s (sizes_if named bucket.name bucket.scan) (entries_if named bucket.scan))
          (add_if_named casefold limit bucket s)
  unfolding add_if_named
  add_if_named-Adds bucket s = Ensures-bind (consume limit s.inspected) _ λ n got.
      bucket_added (is_bucket_name bucket.name) bucket s n
        (counted limit s n (Ensures.at (consume_lem limit s.inspected) n got))

  add_buckets-Adds :
      (listing : Listing Bucket) (s : Totals)
      → Ensures
          (Adds limit s (payload_sizes listing) (entry_count listing))
          (add_buckets casefold limit listing s)
  unfolding add_buckets payload_sizes entry_count
  add_buckets-Adds stop s = Ensures-done s (nothing_added limit s)
  add_buckets-Adds (broken e) s = Ensures-raise e
  add_buckets-Adds (entry bucket rest) s =
      Ensures-bind (add_if_named casefold limit bucket s) _ λ next first.
        let named = is_bucket_name bucket.name in
        record {
          at = λ t last.
              Adds-then limit {ms = sizes_if named bucket.name bucket.scan}
                {ns = payload_sizes rest} {m = entries_if named bucket.scan} {n = entry_count rest}
                (Ensures.at (add_if_named-Adds bucket s) next first)
                (Ensures.at (add_buckets-Adds rest next) t last);
        }

  abbrev from : ℕ → Totals
  from inspected = record { count = 0; total = 0; inspected = inspected }

  abbrev add_buckets_from : ℕ → Listing Bucket → Result Totals
  add_buckets_from inspected buckets = add_buckets casefold limit buckets (from inspected)

  -- The totals that are returned
  pub record IsTotalled (scan : Result (Listing Bucket)) (inspected : ℕ) (t : Totals) : Type 0 where
    pub buckets : Listing Bucket
    pub scanned : scan ≡ done buckets
    pub count : t.count ≡ length (payload_sizes buckets)
    pub total : t.total ≡ sum (payload_sizes buckets)
    pub seen : t.inspected ≡ inspected + entry_count buckets
    pub capped : t.count ≤ max_hashed_payload_count
    pub budget : t.inspected ≤ limit

  -- If hashed_payload_totals returns, the count and the total are the number and the sum of the
  -- sizes of the payload files that the listing shows, the budget has grown by every entry of the
  -- listing that was looked at, the count is at most 1,000,000 and the budget within its limit, if
  -- it was so before.
  pub hashed_payload_totals-IsTotalled :
      (scan : Result (Listing Bucket)) (inspected : ℕ) (t : Totals)
      → inspected ≤ limit
      → hashed_payload_totals casefold limit scan inspected ≡ done t
      → IsTotalled scan inspected t
  unfolding hashed_payload_totals
  hashed_payload_totals-IsTotalled scan inspected t within h =
      let (buckets, found, summed) = >>=-done (or_os_error _ scan) (add_buckets_from inspected) h in
      let adds = Ensures.at (add_buckets-Adds buckets (from inspected)) t summed in
      record {
        buckets = buckets;
        scanned = or_os_error_done _ scan buckets found;
        count = omega (arith, adds.count);
        total = omega (arith, adds.total);
        seen = omega (arith, adds.inspected);
        capped = adds.capped (omega arith);
        budget = adds.budget within;
      }
