-- ===== src/Manifest/Sqlite/Pages.antt =====
-- What is left of a decrypted database in src/ios_rehydrate/manifest.py.
use Prim.Native.Nat.{bit_and}
use ios_rehydrate.Prelude.{
  ℕ, ◌-◌, ◌*◌, ◌%◌, ◌≤◌, ◌≡◌, ◌⊎◌, inl, inr, refl, true, false, not, ◌&&◌, ◌||◌, List, [], ◌∷◌,
  ◌++◌, arith, length, take, drop, is_nil, ltb, leb, ◌==◌, ◌!=◌, take-append-drop, ap, ◌∙◌,
  length-take, !=-false, Bool-cases,
}
use ios_rehydrate.Prelude.Bytes.{Bytes, slice, big}
use ios_rehydrate.Errors.{done, Ensures, Ensures-done, Ensures-if, Ensures-raise_if, Ensures-bind}
use ios_rehydrate.Manifest.Sqlite.{
  aes_block_bytes, valid_pkcs7, page_size_of, last, declared_length, undeclared_padding,
  undeclared_length, logical_length_of, validate_sqlite_body,
}

-- What is cut off: nothing, or a padding of at most one block.
abbrev pub IsPadding : Bytes → Type 0
IsPadding padding = (padding ≡ []) ⊎ (valid_pkcs7 padding ≡ true)

-- A length at which the database may be cut.
record IsCut (plaintext : Bytes) (page_size logical_length : ℕ) : Type 0 where
  low : page_size ≤ logical_length
  high : logical_length ≤ length plaintext
  padding : IsPadding (drop logical_length plaintext)

IsPadding-test :
    (padding : Bytes)
    → (not (is_nil padding) && not (valid_pkcs7 padding)) ≡ false
    → IsPadding padding
IsPadding-test [] h = inl refl
IsPadding-test (b ∷ bs) h = inr (ground arith)

declared_length-IsCut :
    (plaintext : Bytes) (page_size declared_pages : ℕ)
    → Ensures (IsCut plaintext page_size) (declared_length plaintext page_size declared_pages)
unfolding declared_length
declared_length-IsCut plaintext page_size declared_pages =
    Ensures-raise_if
      (ltb (declared_pages * page_size) page_size
        || ltb (length plaintext) (declared_pages * page_size))
      _ _
      λ sized. Ensures-raise_if _ _ _ λ padded.
        Ensures-done (declared_pages * page_size)
          (record { low = ground arith; high = ground arith; padding = IsPadding-test _ padded })

drop-all : {A : Type 0} (xs : List A) → drop (length xs) xs ≡ []
drop-all [] = refl
drop-all (x ∷ xs) = drop-all xs

undeclared_padding-IsPadding :
    (plaintext : Bytes) (page_size : ℕ)
    → IsPadding (drop (length plaintext - undeclared_padding plaintext page_size) plaintext)
unfolding undeclared_padding
undeclared_padding-IsPadding plaintext page_size =
    elim (Bool-cases (
      leb 1 (last plaintext)
      && leb (last plaintext) aes_block_bytes
      && valid_pkcs7 (drop (length plaintext - last plaintext) plaintext)
      && (length plaintext - last plaintext) % page_size == 0)) [
        | inl t ↦ rw t (inr (ground arith))
        | inr t ↦
            let e : length plaintext - 0 ≡ length plaintext = omega arith in
            rw t (inl (ap (λ n. drop n plaintext) e ∙ drop-all plaintext))
      ]

undeclared_length-IsCut :
    (plaintext : Bytes) (page_size : ℕ)
    → Ensures (IsCut plaintext page_size) (undeclared_length plaintext page_size)
unfolding undeclared_length
undeclared_length-IsCut plaintext page_size =
    let logical_length = length plaintext - undeclared_padding plaintext page_size in
    Ensures-raise_if (ltb logical_length page_size || logical_length % page_size != 0) _ _ λ sized.
      Ensures-done logical_length (record {
        low = ground arith;
        high = omega arith;
        padding = undeclared_padding-IsPadding plaintext page_size;
      })

logical_length_of-IsCut :
    (plaintext : Bytes) (page_size declared_pages : ℕ)
    → Ensures (IsCut plaintext page_size) (logical_length_of plaintext page_size declared_pages)
logical_length_of-IsCut plaintext page_size declared_pages =
    Ensures-if (declared_pages != 0) (declared_length plaintext page_size declared_pages)
      (undeclared_length plaintext page_size)
      (λ _. declared_length-IsCut plaintext page_size declared_pages)
      (λ _. undeclared_length-IsCut plaintext page_size)

-- The body that is kept, and the bytes behind it
pub record IsPaged (plaintext body : Bytes) : Type 0 where
  pub padding : Bytes
  pub parts : body ++ padding ≡ plaintext
  pub padding_lem : IsPadding padding
  pub page_size_low : 512 ≤ page_size_of plaintext
  pub page_size_high : page_size_of plaintext ≤ 65_536
  pub page_size_power : bit_and (page_size_of plaintext) (page_size_of plaintext - 1) ≡ 0
  pub whole_pages : length body % page_size_of plaintext ≡ 0
  pub a_page : page_size_of plaintext ≤ length body

-- If validate_sqlite_body accepts a decrypted database, what it keeps is the input but for a valid
-- padding of at most 16 bytes or none, and it is whole pages, one at least, of the size in the
-- header, which is from 512 to 65,536 and shares no bit with its predecessor.
pub validate_sqlite_body-IsPaged :
    (plaintext body : Bytes) → validate_sqlite_body plaintext ≡ done body → IsPaged plaintext body
unfolding validate_sqlite_body
validate_sqlite_body-IsPaged plaintext = Ensures.at (
    let page_size = page_size_of plaintext in
    Ensures-raise_if _ _ _ λ _.
      Ensures-raise_if
        (ltb page_size 512 || ltb 65_536 page_size || bit_and page_size (page_size - 1) != 0) _ _
        λ sized. Ensures-raise_if _ _ _ λ _. Ensures-raise_if _ _ _ λ _.
          Ensures-bind (logical_length_of plaintext page_size (big (slice plaintext 28 32))) _
            λ logical_length found.
              Ensures-raise_if (logical_length % page_size != 0) _ _ λ aligned.
                let cut = (logical_length_of-IsCut plaintext page_size _).at logical_length found in
                let body_lem : length (take logical_length plaintext) ≡ logical_length =
                  omega (arith, length-take logical_length plaintext, cut.high) in
                Ensures-done _ (record {
                  padding = drop logical_length plaintext;
                  parts = take-append-drop logical_length plaintext;
                  padding_lem = cut.padding;
                  page_size_low = ground arith;
                  page_size_high = ground arith;
                  page_size_power = ground arith;
                  whole_pages = rw body_lem (!=-false _ _ aligned);
                  a_page = omega (arith, body_lem, cut.low);
                }))
