-- ===== src/Manifest/Query/Totals.antt =====
-- The sums of the report in src/ios_rehydrate/manifest.py.
use ios_rehydrate.Prelude.{
  ℕ, ◌+◌, ◌-◌, ◌≤◌, ◌≡◌, ◌∙◌, Option, List, [], ◌∷◌, arith, length, ltb, ltb-false,
}
use ios_rehydrate.Prelude.Bytes.{Bytes}
use ios_rehydrate.Prelude.Values.{ℤ, Value}
use ios_rehydrate.Errors.{
  Result, done, raise, sqlite_error, overflow_error, value_error, Ensures, Ensures-done,
  Ensures-raise_if, Ensures-bind,
}
use ios_rehydrate.Manifest.Query.{
  ManifestReport, Database, max_app_domain_entries, max_app_domain_logical_bytes, entry_size,
  add_rows, query_body, reported, query_app_domain, validate_schema, summary_of,
}

abbrev pub sum : List ℕ → ℕ
sum [] = 0
sum (n ∷ ns) = n + sum ns

module _ (unarchive : Bytes → Result (Option (Option ℤ))) where
  -- The sizes, row by row: each row has a size, and nothing is left out or counted twice.
  abbrev pub AreSizes : List Value → List ℕ → Type 0
  AreSizes [] [] = Unit
  AreSizes (row ∷ rows) (size ∷ sizes) =
      (entry_size unarchive row ≡ done size) × AreSizes rows sizes
  AreSizes _ _ = ⊥

  -- What the loop adds to the sums that it is given.
  record Added (rows : List Value) (totals report : ManifestReport) : Type 0 where
    sizes : List ℕ
    each : AreSizes rows sizes
    count_lem : report.entry_count ≡ totals.entry_count + length rows
    total_lem : report.logical_bytes_total ≡ totals.logical_bytes_total + sum sizes
    count_bound :
        totals.entry_count ≤ max_app_domain_entries → report.entry_count ≤ max_app_domain_entries
    total_bound :
        totals.logical_bytes_total ≤ max_app_domain_logical_bytes
        → report.logical_bytes_total ≤ max_app_domain_logical_bytes

  add_rows-Added :
      (rows : List Value) (totals : ManifestReport)
      → Ensures (Added rows totals) (add_rows unarchive rows totals)
  unfolding add_rows
  add_rows-Added [] totals = Ensures-done totals (record {
    sizes = [];
    each = tt;
    count_lem = omega arith;
    total_lem = omega arith;
    count_bound = λ b. b;
    total_bound = λ b. b;
  })
  add_rows-Added (row ∷ rows) totals = Ensures-bind (entry_size unarchive row) _ λ size hsize.
      Ensures-raise_if (ltb max_app_domain_entries (totals.entry_count + 1)) _ _ λ few.
        Ensures-raise_if (ltb (max_app_domain_logical_bytes - totals.logical_bytes_total) size) _ _
          λ small. record {
            at = λ report h.
                let a =
                  (add_rows-Added rows (record {
                    entry_count = totals.entry_count + 1;
                    logical_bytes_total = totals.logical_bytes_total + size;
                  })).at
                    report h in
                record {
                  sizes = size ∷ a.sizes;
                  each = (hsize, a.each);
                  count_lem = omega (arith, a.count_lem);
                  total_lem = omega (arith, a.total_lem);
                  count_bound = λ b. a.count_bound (ltb-false _ _ few);
                  total_bound = λ b. a.total_bound (omega (arith, ltb-false _ _ small));
                };
          }

  -- What a report says: the number of the rows and the sum of their sizes
  pub record IsReport (connection : Database) (report : ManifestReport) : Type 0 where
    pub rows : List Value
    pub rows_lem : connection.rows ≡ done rows
    pub sizes : List ℕ
    pub each : AreSizes rows sizes
    pub count_lem : report.entry_count ≡ length rows
    pub total_lem : report.logical_bytes_total ≡ sum sizes
    pub count_bound : report.entry_count ≤ max_app_domain_entries
    pub total_bound : report.logical_bytes_total ≤ max_app_domain_logical_bytes
    pub schema : validate_schema connection ≡ done tt

  query_body-IsReport :
      (connection : Database) → Ensures (IsReport connection) (query_body unarchive connection)
  unfolding query_body
  query_body-IsReport connection = Ensures-bind connection.opened _ λ _ _.
      Ensures-bind connection.query_only_retained _ λ query_only _. Ensures-raise_if _ _ _ λ _.
        Ensures-bind connection.quick_check_ok _ λ quick_check _. Ensures-raise_if _ _ _ λ _.
          Ensures-bind (validate_schema connection) _ λ _ schema.
            Ensures-bind connection.summary_row _ λ summary_row _.
              Ensures-bind (summary_of summary_row) _ λ summary _. Ensures-raise_if _ _ _ λ _.
                Ensures-raise_if _ _ _ λ _. Ensures-bind connection.rows _ λ rows hrows.
                  Ensures-bind (add_rows unarchive rows none_yet) _ λ report added.
                    let a = (add_rows-Added rows none_yet).at report added in
                    Ensures-raise_if _ _ _ λ _. Ensures-done report (record {
                      rows = rows;
                      rows_lem = hrows;
                      sizes = a.sizes;
                      each = a.each;
                      count_lem = a.count_lem ∙ omega arith;
                      total_lem = a.total_lem ∙ omega arith;
                      count_bound = a.count_bound (omega arith);
                      total_bound = a.total_bound (omega arith);
                      schema = schema;
                    })
    where
      none_yet : ManifestReport
      none_yet = record { entry_count = 0; logical_bytes_total = 0 }

  reported-done :
      (r : Result ManifestReport) (report : ManifestReport)
      → reported unarchive r ≡ done report
      → r ≡ done report
  reported-done (done a) report h = h
  reported-done (raise sqlite_error) report h = cc
  reported-done (raise overflow_error) report h = cc
  reported-done (raise value_error) report h = cc
  reported-done (raise _) report h = cc

  -- A report that query_app_domain returns has the number of the rows of the domain as its count and
  -- the sum of the sizes that their blobs record as its total, at most 1,000,000 and 4 TiB, and the
  -- schema has been accepted.
  pub query_app_domain-IsReport :
      (connection : Database) (report : ManifestReport)
      → query_app_domain unarchive connection ≡ done report
      → IsReport connection report
  query_app_domain-IsReport connection report h =
      (query_body-IsReport connection).at report
        (reported-done (query_body unarchive connection) report h)
