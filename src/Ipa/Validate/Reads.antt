-- ===== src/Ipa/Validate/Reads.antt =====
-- What `_read_member`, `_read_plist` and `_required_text` of src/ios_rehydrate/ipa.py have read.
use ios_rehydrate.Prelude.{
  ℕ, String, ◌+◌, ◌≤◌, ◌≡◌, ap, ◌∙◌, Bool, true, false, ◌||◌, Option, none, some, List, arith,
  length, ltb, ltb-false, ◌!=◌, !=-false, or-false, if◌then◌else◌,
}
use ios_rehydrate.Prelude.Bytes.{Bytes, Text}
use ios_rehydrate.Prelude.Values.{Value, Fields, text, dict, get}
use ios_rehydrate.Errors.{
  Result, done, raise, Ensures, Ensures-done, Ensures-raise_if, Ensures-bind, done-injective,
  os_error, timeout_error, runtime_error, bad_zip_file, value_error, type_error, overflow_error,
}
use ios_rehydrate.Ipa.Struct.{invalid}
use ios_rehydrate.Ipa.Shape.{ZipInfo}
use ios_rehydrate.Ipa.Contents.{
  Contents, Reasons, max_plist_bytes, member_named, present, required_member, is_bad_text,
  text_value, required_text, read_failed, plist_failed, dictionary, read_member, read_plist,
}

pub required_text-get :
    (mapping : Fields) (key : Text) (reason : String) (max_length : ℕ)
    → Ensures
        (λ value. get key mapping ≡ some (text value))
        (required_text mapping key reason max_length)
unfolding required_text
required_text-get mapping key reason max_length = record {
  at = λ value h. read (get key mapping) value h;
}
  where
    kept :
        (b : Bool) (t value : Text)
        → (if b then raise (invalid reason) else done t) ≡ done value
        → t ≡ value
    kept true t value h = cc
    kept false t value h = done-injective h

    read :
        (o : Option Value) (value : Text)
        → text_value max_length reason o ≡ done value
        → o ≡ some (text value)
    read (some (text t)) value h =
        ap (λ (v : Text). some (text v)) (kept (is_bad_text max_length t) t value h)
    read _ value h = cc

module _ (members : List ZipInfo) where
  present_lem :
      (reason : String) (o : Option ZipInfo) (info : ZipInfo)
      → present reason o ≡ done info
      → o ≡ some info
  present_lem reason none info h = cc
  present_lem reason (some found) info h = ground arith

  pub required_member-named :
      (name : Text) (reason : String)
      → Ensures
          (λ info. member_named name members ≡ some info)
          (required_member members name reason)
  unfolding required_member
  required_member-named name reason = record {
    at = λ info h. present_lem reason (member_named name members) info h;
  }

module _ (contents : Contents) where
  -- The bytes are the whole content of a member, by its size, and within a limit.
  pub record IsWhole (limit : ℕ) (info : ZipInfo) (bytes : Bytes) : Type 0 where
    pub read : contents.read info (limit + 1) ≡ done bytes
    pub size : length bytes ≡ info.file_size
    pub bounded : length bytes ≤ limit

  read_failed_done :
      (reason : String) (r : Result Bytes) (bytes : Bytes)
      → read_failed reason r ≡ done bytes
      → r ≡ done bytes
  read_failed_done reason (done b) bytes h = h
  read_failed_done reason (raise os_error) bytes h = cc
  read_failed_done reason (raise timeout_error) bytes h = cc
  read_failed_done reason (raise runtime_error) bytes h = cc
  read_failed_done reason (raise value_error) bytes h = cc
  read_failed_done reason (raise bad_zip_file) bytes h = cc
  read_failed_done reason (raise _) bytes h = cc

  pub read_member-IsWhole :
      (info : ZipInfo) (limit : ℕ) (too_large_reason read_reason : String)
      → Ensures (IsWhole limit info) (read_member contents info limit too_large_reason read_reason)
  unfolding read_member
  read_member-IsWhole info limit too_large_reason read_reason =
      Ensures-raise_if (ltb limit info.file_size) _ _ λ _.
        Ensures-bind (read_failed read_reason (contents.read info (limit + 1))) _ λ payload got.
          Ensures-raise_if (ltb limit (length payload) || length payload != info.file_size) _ _
            λ fits.
              let (small, same) =
                or-false (ltb limit (length payload)) (length payload != info.file_size) fits in
              Ensures-done payload (record {
                read = read_failed_done read_reason (contents.read info (limit + 1)) payload got;
                size = !=-false _ _ same;
                bounded = ltb-false limit (length payload) small;
              })

  -- The member of a name, whole
  pub record IsMember (members : List ZipInfo) (name : Text) (limit : ℕ) (bytes : Bytes)
      : Type 0 where
    pub info : ZipInfo
    pub named : member_named name members ≡ some info
    pub whole : IsWhole limit info bytes

  -- The property list of a name
  pub record IsPlist (members : List ZipInfo) (name : Text) (bytes : Bytes) (fields : Fields)
      : Type 0 where
    pub member : IsMember members name max_plist_bytes bytes
    pub decoded : contents.loads bytes ≡ done (dict fields)

  read_plist-reads :
      (info : ZipInfo) (reasons : Reasons)
      → Ensures
          (λ r. IsWhole max_plist_bytes info r.0 × (contents.loads r.0 ≡ done (dict r.1)))
          (read_plist contents info reasons)
  unfolding read_plist
  read_plist-reads info reasons = Ensures-bind (read_member contents info _ _ _) _ λ payload got.
      Ensures-bind (plist_failed reasons.is_invalid (contents.loads payload)) _ λ decoded hd.
        Ensures-bind (dictionary reasons.not_dictionary decoded) _ λ fields hf.
          Ensures-done (payload, fields)
            (
              (read_member-IsWhole info _ _ _).at payload got,
              loaded (contents.loads payload) decoded hd
                  ∙ ap (λ (v : Value). done v) (is_dict decoded fields hf),
            )
    where
      loaded :
          (r : Result Value) (decoded : Value)
          → plist_failed reasons.is_invalid r ≡ done decoded
          → r ≡ done decoded
      loaded (done v) decoded h = h
      loaded (raise value_error) decoded h = cc
      loaded (raise type_error) decoded h = cc
      loaded (raise overflow_error) decoded h = cc
      loaded (raise _) decoded h = cc

      is_dict :
          (v : Value) (fields : Fields)
          → dictionary reasons.not_dictionary v ≡ done fields
          → v ≡ dict fields
      is_dict (dict f) fields h = ap dict (done-injective h)
      is_dict _ fields h = cc

  pub read_plist-IsPlist :
      (members : List ZipInfo) (name : Text) (info : ZipInfo) (reasons : Reasons)
      → member_named name members ≡ some info
      → Ensures (λ r. IsPlist members name r.0 r.1) (read_plist contents info reasons)
  read_plist-IsPlist members name info reasons named = record {
    at = λ r h.
        let (whole, decoded) = (read_plist-reads info reasons).at r h in
        record { member = record { info = info; named = named; whole = whole }; decoded = decoded };
  }
