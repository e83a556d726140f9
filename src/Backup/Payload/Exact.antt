-- ===== src/Backup/Payload/Exact.antt =====
-- The directory that `_exact_device_directory` of src/ios_rehydrate/backup.py accepts.
use ios_rehydrate.Prelude.{ℕ, suc, ◌≡◌, refl, sym, ap, ◌∙◌, Bool, true, false, not, arith}
use ios_rehydrate.Prelude.Bytes.{Text, eq_text, eq_text→eq}
use ios_rehydrate.Errors.{
  Exception, Result, done, raise, ◌>>=◌, raise_if, Ensures, Ensures-done, Ensures-raise,
  Ensures-bind, Ensures-raise_if, >>=-done, raise_if-done, done-injective,
}
use ios_rehydrate.Backup.{
  Metadata, is_plain_directory, Listing, stop, broken, entry, consume, or_os_error,
}
use ios_rehydrate.Backup.Payload.{DirEntry, exact_from, exact_device_directory}

-- The scan yields one entry, the expected one, which is a directory and no link.
pub record IsExact (expected : Text) (listing : Listing DirEntry) : Type 0 where
  pub sole : DirEntry
  pub listed : listing ≡ entry sole stop
  pub name : sole.name ≡ expected
  pub metadata : Metadata
  pub stat : sole.stat ≡ done metadata
  pub plain : is_plain_directory metadata ≡ true

not-false : (b : Bool) → not b ≡ false → b ≡ true
not-false b h = ground arith

module _ (limit : ℕ) (expected : Text) where
  exact_from-found :
      (n : ℕ) (listing : Listing DirEntry)
      → Ensures (λ r. (listing ≡ stop) × (r ≡ (true, n))) (exact_from limit expected true n listing)
  unfolding exact_from
  exact_from-found n stop = Ensures-done (true, n) (refl, refl)
  exact_from-found n (broken e) = Ensures-raise e
  exact_from-found n (entry e rest) =
      Ensures-bind (consume limit n) _ λ m got. Ensures-raise_if true _ _ λ h. cc

  consume_is : (n m : ℕ) → consume limit n ≡ done m → m ≡ suc n
  unfolding consume ◌>>=◌ raise_if
  consume_is n m h = ground arith

  exact_from-IsExact :
      (listing : Listing DirEntry)
      → Ensures
          (λ r. r.0 ≡ true → IsExact expected listing × (r.1 ≡ 1))
          (exact_from limit expected false 0 listing)
  unfolding exact_from
  exact_from-IsExact stop = Ensures-done (false, 0) (λ h. cc)
  exact_from-IsExact (broken e) = Ensures-raise e
  exact_from-IsExact (entry e rest) = Ensures-bind (consume limit 0) _ λ n got.
      Ensures-raise_if (not (eq_text e.name expected)) _ _ λ named.
        Ensures-bind e.stat _ λ metadata found.
          Ensures-raise_if (not (is_plain_directory metadata)) _ _ λ plain. record {
            at = λ r last h.
                let (ended, is) = Ensures.at (exact_from-found n rest) r last in
                (
                  record {
                    sole = e;
                    listed = ap (λ (l : Listing DirEntry). entry e l) ended;
                    name = eq_text→eq e.name expected (not-false _ named);
                    metadata = metadata;
                    stat = found;
                    plain = not-false _ plain;
                  },
                  ap (λ (x : Bool × ℕ). x.1) is ∙ consume_is 0 n got,
                );
          }

pub or_os_error_done :
    {A : Type 0} (x : Exception) (r : Result A) (a : A) → or_os_error x r ≡ done a → r ≡ done a
or_os_error_done x (done b) a h = h
or_os_error_done x (raise e) a h = ground arith

pub exact_device_directory-IsExact :
    (limit : ℕ) (expected : Text) (scan : Result (Listing DirEntry)) (inspected : ℕ)
    → exact_device_directory limit expected scan ≡ done inspected
    → (listing : Listing DirEntry) × (scan ≡ done listing)
      × IsExact expected listing
      × (inspected ≡ 1)
unfolding exact_device_directory
exact_device_directory-IsExact limit expected scan inspected h =
    let (r, looked, rest) = >>=-done (or_os_error _ _) _ h in
    let (listing, scanned, walked) = >>=-done scan _ (or_os_error_done _ _ r looked) in
    let (found, counted) = raise_if-done (not r.0) _ (done r.1) rest in
    let (exact, one) =
      Ensures.at (exact_from-IsExact limit expected listing) r walked (not-false _ found) in
    (listing, scanned, exact, sym (done-injective counted) ∙ one)
