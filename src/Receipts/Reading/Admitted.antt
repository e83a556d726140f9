-- ===== src/Receipts/Reading/Admitted.antt =====
-- What `read_receipt` of src/ios_rehydrate/receipts.py has checked of the receipt that it returns.
use ios_rehydrate.Prelude.{
  ℕ, zero, suc, sym, ap, ◌∙◌, List, [], ◌∷◌, take, ◌+◌, ◌≤◌, ◌<◌, ◌!=◌, ◌≡◌, refl, Bool, true,
  false, not, Option, none, some, length, ltb, arith, !=-false, ltb-false,
}
use ios_rehydrate.Prelude.Bytes.{Bytes, Text, codes, eq_text→eq}
use ios_rehydrate.Prelude.Values.{ℤ, pos, negsuc, Value, text, dict, Fields, get}
use ios_rehydrate.Errors.{
  Result, done, raise, Ensures, Ensures-done, Ensures-bind, Ensures-raise_if,
}
use ios_rehydrate.Receipts.Files.{Identity, Stat, same}
use ios_rehydrate.Receipts.{max_receipt_bytes}
use ios_rehydrate.Receipts.Reserve.{schema}
use ios_rehydrate.Receipts.Reading.{
  Answers, Loaded, loaded, Moment, max_receipt_future_skew, is_plain_file, unsafe_if_os_error,
  read_up_to, read_file, parsed, says, is_dict, matches_workflow, envelope_of, created_at, is_stale,
  read_receipt,
}

abbrev Says : Fields → Text → Text → Type 0
Says payload key expected = get key payload ≡ some (text expected)

-- The age that the caller allows, if any, is positive and is not exceeded.
abbrev pub IsRecent : Option ℤ → ℕ → ℕ → Type 0
IsRecent none created now = Unit
IsRecent (some (negsuc n)) created now = ⊥
IsRecent (some (pos age)) created now = (0 < age) × (now ≤ created + age)

is_stale-IsRecent :
    (max_age : Option ℤ) (created now : ℕ)
    → is_stale max_age created now ≡ false
    → IsRecent max_age created now
is_stale-IsRecent none created now h = tt
is_stale-IsRecent (some (negsuc n)) created now h = cc
is_stale-IsRecent (some (pos age)) created now h = (ground arith, ground arith)

says-Says :
    (payload : Fields) (key expected : Text)
    → says payload key expected ≡ true
    → Says payload key expected
unfolding says
says-Says payload key expected h =
    let equal = λ (value : Text). eq_text→eq value expected in grind (arith, equal)

-- The envelope is that of this version of the tool and of the workflow.
pub record IsEnvelope (release workflow : Text) (payload : Fields) : Type 0 where
  pub schema : Says payload (codes "schema") schema
  pub tool : Says payload (codes "tool") (codes "ios-rehydrate")
  pub version : Says payload (codes "tool_version") release
  pub kind : Says payload (codes "kind") workflow
  pub evidence : is_dict (get (codes "evidence") payload) ≡ true

matches_workflow-IsEnvelope :
    (version kind : Text) (payload : Fields)
    → matches_workflow version kind payload ≡ true
    → IsEnvelope version kind payload
unfolding matches_workflow
matches_workflow-IsEnvelope version kind payload h = ground (
  arith,
  says-Says payload (codes "schema") schema,
  says-Says payload (codes "tool") (codes "ios-rehydrate"),
  says-Says payload (codes "tool_version") version,
  says-Says payload (codes "kind") kind,
)

envelope_of_lem :
    (version kind : Text) (value : Value) (payload : Fields)
    → envelope_of version kind value ≡ done payload
    → (value ≡ dict payload) × (matches_workflow version kind payload ≡ true)
envelope_of_lem version kind value payload h = ground arith

-- The file by its path, and what was read of it.
pub record IsRead (answers : Answers) (size : ℕ) (bytes : Bytes) : Type 0 where
  pub metadata : Stat
  pub opened : Stat
  pub content : Bytes
  pub found : answers.lstat ≡ done metadata
  pub held : answers.fstat ≡ done opened
  pub given : answers.content ≡ done content
  pub plain : is_plain_file metadata ≡ true
  pub same_file : metadata.identity ≡ opened.identity
  pub size_is : size ≡ metadata.size
  pub prefix : bytes ≡ read_up_to content

same→eq : (i j : Identity) → same i j ≡ true → i ≡ j
same→eq i j h = ground arith

not-false : (b : Bool) → not b ≡ false → b ≡ true
not-false b h = ground arith

ReadsPlain : Answers → ℕ × Bytes → Type 0
ReadsPlain answers (size, bytes) = IsRead answers size bytes

read_file-ReadsPlain : (answers : Answers) → Ensures (ReadsPlain answers) (read_file answers)
unfolding read_file ReadsPlain
read_file-ReadsPlain answers = Ensures-bind answers.lstat _ λ metadata found.
    Ensures-raise_if (not (is_plain_file metadata)) _ _ λ plain.
      Ensures-bind answers.opening _ λ u opening. Ensures-bind answers.fstat _ λ opened held.
        Ensures-raise_if (not (same metadata.identity opened.identity)) _ _ λ identities.
          Ensures-bind answers.content _ λ content given.
            Ensures-done (metadata.size, read_up_to content)
              (record {
                metadata = metadata;
                opened = opened;
                content = content;
                found = found;
                held = held;
                given = given;
                plain = not-false _ plain;
                same_file = same→eq metadata.identity opened.identity (not-false _ identities);
                size_is = refl;
                prefix = refl;
              })

unsafe_done : {A : Type 0} (r : Result A) (a : A) → unsafe_if_os_error r ≡ done a → r ≡ done a
unsafe_done (done b) a h = h
unsafe_done (raise e) a h = ground arith

plain_size :
    (metadata : Stat)
    → is_plain_file metadata ≡ true
    → (0 < metadata.size) × (metadata.size ≤ max_receipt_bytes)
plain_size metadata h = ground arith

take_short :
    {A : Type 0} (n : ℕ) (xs : List A) → length (take (suc n) xs) ≤ n → xs ≡ take (suc n) xs
take_short n [] h = refl
take_short zero (x ∷ xs) h = ground arith
take_short (suc n) (x ∷ xs) h = ap (λ (r : List _). x ∷ r) (take_short n xs (omega arith))

read_up_to_short : (xs : Bytes) → length (read_up_to xs) ≤ max_receipt_bytes → xs ≡ read_up_to xs
unfolding read_up_to
read_up_to_short xs h = take_short max_receipt_bytes xs h

sized-IsRead :
    {answers : Answers} {m n : ℕ} {bytes : Bytes}
    → m ≡ n
    → IsRead answers n bytes
    → IsRead answers m bytes
sized-IsRead h read = record {
  metadata = read.metadata;
  opened = read.opened;
  content = read.content;
  found = read.found;
  held = read.held;
  given = read.given;
  plain = read.plain;
  same_file = read.same_file;
  size_is = h ∙ read.size_is;
  prefix = read.prefix;
}

whole_read :
    {answers : Answers} {n : ℕ} {bytes : Bytes} (read : IsRead answers n bytes)
    → length bytes ≤ max_receipt_bytes
    → read.content ≡ bytes
whole_read read h =
    read_up_to_short read.content (omega (arith, ap length read.prefix)) ∙ sym read.prefix

parsed_done : (l : Loaded) (value : Value) → parsed l ≡ done value → l ≡ loaded value
parsed_done l value h = ground arith

module _ (loads : Bytes → Loaded) (from_iso : Text → Result Moment) (sha256 : Bytes → Text)
    (release : Text) (answers : Answers) (workflow : Text) (max_age : Option ℤ) (now : ℕ) where
  -- What holds of a receipt that is returned.
  pub record IsAdmitted (payload : Fields) (digest : Text) : Type 0 where
    pub bytes : Bytes
    pub read : IsRead answers (length bytes) bytes
    pub decoded : loads bytes ≡ loaded (dict payload)
    pub envelope : IsEnvelope release workflow payload
    pub created : ℕ
    pub dated : created_at from_iso payload ≡ done created
    pub not_future : created ≤ now + max_receipt_future_skew
    pub recent : IsRecent max_age created now
    pub digest_is : digest ≡ sha256 bytes
    -- Nothing of the file is left out.
    pub whole : read.content ≡ bytes
    pub not_empty : 0 < length bytes
    pub bounded : length bytes ≤ max_receipt_bytes

  Admits : Fields × Text → Type 0
  Admits (payload, digest) = IsAdmitted payload digest

  admitted :
      {size created : ℕ} {bytes : Bytes} {value : Value} {payload : Fields}
      → unsafe_if_os_error (read_file answers) ≡ done (size, bytes)
      → (length bytes != size) ≡ false
      → parsed (loads bytes) ≡ done value
      → envelope_of release workflow value ≡ done payload
      → created_at from_iso payload ≡ done created
      → ltb (now + max_receipt_future_skew) created ≡ false
      → is_stale max_age created now ≡ false
      → Ensures Admits (done (payload, sha256 bytes))
  unfolding Admits ReadsPlain
  admitted {size} {created} {bytes} {value} {payload} got sized decoded matched dated timely fresh =
      let got_file = unsafe_done (read_file answers) (size, bytes) got in
      let found = Ensures.at (read_file-ReadsPlain answers) (size, bytes) got_file in
      let (is_dictionary, matches) = envelope_of_lem release workflow value payload matched in
      let size_is = !=-false (length bytes) size sized in
      let read = sized-IsRead size_is found in
      let (not_empty, bounded) = plain_size read.metadata read.plain in
      Ensures-done (payload, sha256 bytes)
        (record {
          bytes = bytes;
          read = read;
          decoded = parsed_done (loads bytes) value decoded ∙ ap loaded is_dictionary;
          envelope = matches_workflow-IsEnvelope release workflow payload matches;
          created = created;
          dated = dated;
          not_future = ltb-false (now + max_receipt_future_skew) created timely;
          recent = is_stale-IsRecent max_age created now fresh;
          digest_is = refl;
          whole = whole_read read (omega (arith, bounded, read.size_is));
          not_empty = omega (arith, not_empty, read.size_is);
          bounded = omega (arith, bounded, read.size_is);
        })

  read_receipt-Admits :
      Ensures Admits (read_receipt loads from_iso sha256 release answers workflow max_age now)
  unfolding read_receipt Admits
  read_receipt-Admits = Ensures-bind (unsafe_if_os_error (read_file answers)) _ λ (size, bytes) got.
      Ensures-raise_if (length bytes != size) _ _ λ sized.
        Ensures-bind (parsed (loads bytes)) _ λ value decoded.
          Ensures-bind (envelope_of release workflow value) _ λ payload matched.
            Ensures-bind (created_at from_iso payload) _ λ created dated.
              Ensures-raise_if (ltb (now + max_receipt_future_skew) created) _ _ λ timely.
                Ensures-raise_if (is_stale max_age created now) _ _
                  λ fresh. admitted got sized decoded matched dated timely fresh

  -- A receipt that read_receipt returns was read whole from a regular file that is neither a link
  -- nor a reparse point, has the same inode by its path and when opened, and holds 1 byte to 1 MiB;
  -- the bytes decode to the returned dictionary, whose schema, tool, version and kind are the
  -- expected ones and whose evidence is a dictionary; its time parses, is at most five minutes in
  -- the future, and is no older than the allowed age, which is positive; the digest is that of the
  -- bytes.
  pub read_receipt-IsAdmitted :
      (payload : Fields) (digest : Text)
      → read_receipt loads from_iso sha256 release answers workflow max_age now
        ≡ done (payload, digest)
      → IsAdmitted payload digest
  unfolding Admits
  read_receipt-IsAdmitted payload digest h = read_receipt-Admits.at (payload, digest) h
