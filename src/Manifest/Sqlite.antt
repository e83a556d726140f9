-- ===== src/Manifest/Sqlite.antt =====
-- `_validate_sqlite_body_in_place` and `_valid_pkcs7` of src/ios_rehydrate/manifest.py: the decrypted
-- database is cut to its pages.
pub mod Pages
use Prim.Native.Nat.{bit_and}
use ios_rehydrate.Prelude.{
  ℕ, ⊤, zero, suc, ◌+◌, ◌-◌, ◌*◌, ◌%◌, Bool, true, false, not, ◌&&◌, ◌||◌, List, [], ◌∷◌, length,
  take, drop, is_nil, all, get_or, ltb, leb, ◌==◌, ◌!=◌, if◌then◌else◌, ◌++◌,
}
use ios_rehydrate.Prelude.Bytes.{Bytes, slice, big, eq_text, codes}
use ios_rehydrate.Errors.{Result, done, raise, ◌>>=◌, ◌>>◌, raise_if}
use ios_rehydrate.Manifest.{manifest_error}

abbrev pub aes_block_bytes : ℕ
aes_block_bytes = 16

-- `_SQLITE_HEADER`
abbrev pub sqlite_header : Bytes
sqlite_header = codes "SQLite format 3" ++ (0 ∷ [])

-- `values[-1]` of a list that is not empty
abbrev pub last : Bytes → ℕ
last [] = 0
last (b ∷ []) = b
last (b ∷ c ∷ bs) = last (c ∷ bs)

unfoldable pub valid_pkcs7 : Bytes → Bool
valid_pkcs7 padding =
    if is_nil padding || ltb aes_block_bytes (length padding)
    then false
    else (last padding == length padding
        && (leb 1 (last padding) && leb (last padding) aes_block_bytes)
        && all (λ b. b == last padding) padding)

abbrev pub page_size_of : Bytes → ℕ
page_size_of plaintext =
    let encoded_page_size = big (slice plaintext 16 18) in
    if encoded_page_size == 1 then 65_536 else encoded_page_size

-- The length of the database, of as many pages as the header declares.
unfoldable pub declared_length : Bytes → ℕ → ℕ → Result ℕ
declared_length plaintext page_size declared_pages = do
  let logical_length = declared_pages * page_size
  raise_if (ltb logical_length page_size || ltb (length plaintext) logical_length)
      (manifest_error "MANIFEST_SQLITE_INVALID")
  let padding = drop logical_length plaintext
  raise_if (not (is_nil padding) && not (valid_pkcs7 padding))
      (manifest_error "MANIFEST_PADDING_INVALID")
  done logical_length

-- If it declares none: all that was decrypted, less a padding if what is before that is whole pages.
unfoldable pub undeclared_padding : Bytes → ℕ → ℕ
undeclared_padding plaintext page_size =
    let possible_padding = last plaintext in
    if leb 1 possible_padding
      && leb possible_padding aes_block_bytes
      && valid_pkcs7 (drop (length plaintext - possible_padding) plaintext)
      && (length plaintext - possible_padding) % page_size == 0
    then possible_padding
    else 0

unfoldable pub undeclared_length : Bytes → ℕ → Result ℕ
undeclared_length plaintext page_size = do
  let logical_length = length plaintext - undeclared_padding plaintext page_size
  raise_if (ltb logical_length page_size || logical_length % page_size != 0)
      (manifest_error "MANIFEST_SQLITE_INVALID")
  done logical_length

abbrev pub logical_length_of : Bytes → ℕ → ℕ → Result ℕ
logical_length_of plaintext page_size declared_pages =
    if declared_pages != 0
    then declared_length plaintext page_size declared_pages
    else undeclared_length plaintext page_size

abbrev pub mode_pair_valid : Bytes → Bool
mode_pair_valid pair = eq_text pair (1 ∷ 1 ∷ []) || eq_text pair (2 ∷ 2 ∷ [])

-- The buffer after `del plaintext[logical_length:]`
unfoldable pub validate_sqlite_body : Bytes → Result Bytes
unfolding eq_text
validate_sqlite_body plaintext = do
  let sqlite_invalid = manifest_error "MANIFEST_SQLITE_INVALID"
  raise_if (ltb (length plaintext) 100 || not (eq_text (slice plaintext 0 16) sqlite_header))
      sqlite_invalid
  let page_size = page_size_of plaintext
  raise_if (ltb page_size 512 || ltb 65_536 page_size || bit_and page_size (page_size - 1) != 0)
      sqlite_invalid
  raise_if (not (mode_pair_valid (slice plaintext 18 20))) sqlite_invalid
  raise_if (not (eq_text (slice plaintext 21 24) (0x40 ∷ 0x20 ∷ 0x20 ∷ []))) sqlite_invalid
  logical_length ← logical_length_of plaintext page_size (big (slice plaintext 28 32))
  raise_if (logical_length % page_size != 0) sqlite_invalid
  done (take logical_length plaintext)
