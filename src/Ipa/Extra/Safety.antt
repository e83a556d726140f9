-- ===== src/Ipa/Extra/Safety.antt =====
-- The extra fields of src/ios_rehydrate/ipa.py: the loop ends, every read is in bounds, and the
-- assertions hold.
use ios_rehydrate.Prelude.{
  ℕ, zero, suc, ◌+◌, ◌≤◌, ◌<◌, ◌≡◌, refl, Bool, true, false, not, Option, none, some, List, [], ◌∷◌,
  arith, length, drop, is_nil, ltb, ◌==◌, ◌!=◌, length-drop, ltb-false,
}
use ios_rehydrate.Prelude.Bytes.{Bytes}
use ios_rehydrate.Errors.{done, ◌>>=◌, raise_if, >>=-done}
use ios_rehydrate.Ipa.Struct.{
  unpack_from, u16, zip_record_invalid, uint32_sentinel, uint16_sentinel,
}
use ios_rehydrate.Ipa.Refusal.{
  Refuses, Refuses-done, Refuses-raise, Refuses-bind, Refuses-raise_if, Refuses-if, Refuses-test,
  is_refusal, unpack_from-Refuses,
}
use ios_rehydrate.Ipa.Extra.{
  parse_extra_from, parse_extra_fields, zip64_payloads, sole_payload, zip64_payload,
  validate_zip_method, validate_zip_flags, read_payload, read_if, size_if, CentralFields,
  central_required_size, resolve_central_zip64, resolve_local_zip64,
}

zip_record_invalid-refusal : (local : Bool) → is_refusal (zip_record_invalid local) ≡ true
zip_record_invalid-refusal true = refl
zip_record_invalid-refusal false = refl

parse_extra_from-Refuses :
    (fuel : ℕ) (extra : Bytes) (local : Bool)
    → length extra < fuel
    → Refuses (parse_extra_from fuel extra local)
unfolding parse_extra_from
parse_extra_from-Refuses zero extra local h = absurd (omega arith)
parse_extra_from-Refuses (suc fuel) [] local h = Refuses-done []
parse_extra_from-Refuses (suc fuel) (b ∷ bs) local h =
    Refuses-raise_if (ltb (length (b ∷ bs)) 4) _ _ (zip_record_invalid-refusal local) λ long.
      Refuses-bind (unpack_from 4 (b ∷ bs) 0) _ (unpack_from-Refuses 4 (b ∷ bs) 0 (ground arith))
        λ header _. Refuses-raise_if _ _ _ (zip_record_invalid-refusal local) λ _.
          Refuses-bind (parse_extra_from fuel (drop (u16 header 2) (drop 4 (b ∷ bs))) local) _
            (parse_extra_from-Refuses fuel _ local (
              omega (
                arith,
                length-drop (u16 header 2) (drop 4 (b ∷ bs)),
                length-drop 4 (b ∷ bs),
                ltb-false _ _ long,
              )))
            λ fields _. Refuses-done _

sole_payload-Refuses :
    (required_size : ℕ) (local : Bool) (payloads : List Bytes)
    → Refuses (sole_payload required_size local payloads)
sole_payload-Refuses n local [] = Refuses-raise _ (zip_record_invalid-refusal local)
sole_payload-Refuses n local (payload ∷ []) =
    Refuses-if (length payload != n) _ _ (λ _. Refuses-raise _ (zip_record_invalid-refusal local))
      (λ _. Refuses-done _)
sole_payload-Refuses n local (p ∷ q ∷ rest) = Refuses-raise _ (zip_record_invalid-refusal local)

zip64_payload-Refuses :
    (extra : Bytes) (n : ℕ) (local : Bool) → Refuses (zip64_payload extra n local)
unfolding zip64_payload parse_extra_fields
zip64_payload-Refuses extra n local =
    Refuses-bind (parse_extra_from (length extra + 1) extra local) _
      (parse_extra_from-Refuses _ extra local (omega arith))
      λ fields _.
        Refuses-if (n == 0) _ _
          (λ _.
            Refuses-raise_if (not (is_nil (zip64_payloads fields))) _ _
              (zip_record_invalid-refusal local) λ _. Refuses-done none)
          (λ _. sole_payload-Refuses n local (zip64_payloads fields))

-- The payload has exactly the bytes that are required of it; there is none if none are.
abbrev pub Holds : Option Bytes → ℕ → Type 0
Holds none n = n ≡ 0
Holds (some payload) n = length payload ≡ n

sole_payload-Holds :
    (n : ℕ) (local : Bool) (payloads : List Bytes) (p : Option Bytes)
    → sole_payload n local payloads ≡ done p
    → Holds p n
sole_payload-Holds n local [] p h = cc
sole_payload-Holds n local (payload ∷ []) p h = ground arith
sole_payload-Holds n local (a ∷ b ∷ rest) p h = cc

pub zip64_payload-Holds :
    (extra : Bytes) (n : ℕ) (local : Bool) (p : Option Bytes)
    → zip64_payload extra n local ≡ done p
    → Holds p n
unfolding zip64_payload ◌>>=◌ raise_if
zip64_payload-Holds extra n local p h =
    let (fields, _, chosen) = >>=-done (parse_extra_fields extra local) _ h in
    ground (arith, sole_payload-Holds n local (zip64_payloads fields) p)

-- A read within the required bytes succeeds.
read_if-Refuses :
    (b : Bool) (size n : ℕ) (p : Option Bytes) (cursor value : ℕ)
    → 0 < size
    → Holds p n
    → cursor + size_if b size ≤ n
    → Refuses (read_if b size p cursor value)
unfolding read_if
read_if-Refuses false size n p cursor value pos h le = Refuses-done _
read_if-Refuses true size n none cursor value pos h le = absurd (omega arith)
read_if-Refuses true size n (some payload) cursor value pos h le =
    Refuses-bind (read_payload size (some payload) cursor) _
      (Refuses-bind (unpack_from size payload cursor) _
        (unpack_from-Refuses size payload cursor (omega arith)) λ chunk _. Refuses-done _)
      λ wide _. Refuses-done _

-- It moves the cursor by the bytes that it read.
read_if-cursor :
    (b : Bool) (size : ℕ) (p : Option Bytes) (cursor value : ℕ) (r : ℕ × ℕ)
    → read_if b size p cursor value ≡ done r
    → r.1 ≡ cursor + size_if b size
unfolding read_if
read_if-cursor false size p cursor value r h = ground arith
read_if-cursor true size p cursor value r h =
    let (wide, _, e) = >>=-done (read_payload size p cursor) _ h in ground arith

-- A central record's 64-bit values are read in bounds, whatever its extra fields are.
pub resolve_central_zip64-Refuses :
    (extra : Bytes) (version_needed : ℕ) (fields : CentralFields)
    → Refuses (resolve_central_zip64 extra version_needed fields)
unfolding resolve_central_zip64
resolve_central_zip64-Refuses extra version_needed fields =
    Refuses-bind (zip64_payload extra n false) _ (zip64_payload-Refuses extra n false) λ p hp.
      let holds = zip64_payload-Holds extra n false p hp in
      Refuses-raise_if _ _ _ refl λ _.
        Refuses-bind (read_if a 8 p 0 fields.file_size_32) _
          (read_if-Refuses a 8 n p 0 _ (omega arith) holds (omega arith))
          λ r hr.
            let at_r = read_if-cursor a 8 p 0 _ r hr in
            Refuses-bind (read_if b 8 p r.1 fields.compressed_size_32) _
              (read_if-Refuses b 8 n p r.1 _ (omega arith) holds (omega arith))
              λ s hs.
                let at_s = read_if-cursor b 8 p r.1 _ s hs in
                Refuses-bind (read_if c 8 p s.1 fields.local_header_offset_32) _
                  (read_if-Refuses c 8 n p s.1 _ (omega arith) holds (omega arith))
                  λ t ht.
                    let at_t = read_if-cursor c 8 p s.1 _ t ht in
                    Refuses-bind (read_if d 4 p t.1 fields.member_disk_16) _
                      (read_if-Refuses d 4 n p t.1 _ (omega arith) holds (omega arith))
                      λ u hu. Refuses-raise_if _ _ _ refl λ _. Refuses-done _
  where
    a : Bool
    a = fields.file_size_32 == uint32_sentinel

    b : Bool
    b = fields.compressed_size_32 == uint32_sentinel

    c : Bool
    c = fields.local_header_offset_32 == uint32_sentinel

    d : Bool
    d = fields.member_disk_16 == uint16_sentinel

    n : ℕ
    n = central_required_size fields

pub resolve_local_zip64-Refuses :
    (extra : Bytes) (version_needed file_size_32 compressed_size_32 : ℕ)
    → Refuses (resolve_local_zip64 extra version_needed file_size_32 compressed_size_32)
unfolding resolve_local_zip64
resolve_local_zip64-Refuses extra version_needed file_size_32 compressed_size_32 =
    Refuses-bind (zip64_payload extra n true) _ (zip64_payload-Refuses extra n true) λ p hp.
      let holds = zip64_payload-Holds extra n true p hp in
      Refuses-raise_if _ _ _ refl λ _.
        Refuses-bind (read_if a 8 p 0 file_size_32) _
          (read_if-Refuses a 8 n p 0 _ (omega arith) holds (omega arith))
          λ r hr.
            let at_r = read_if-cursor a 8 p 0 _ r hr in
            Refuses-bind (read_if b 8 p r.1 compressed_size_32) _
              (read_if-Refuses b 8 n p r.1 _ (omega arith) holds (omega arith))
              λ s hs. Refuses-raise_if _ _ _ refl λ _. Refuses-done _
  where
    a : Bool
    a = file_size_32 == uint32_sentinel

    b : Bool
    b = compressed_size_32 == uint32_sentinel

    n : ℕ
    n = size_if a 8 + size_if b 8

pub validate_zip_method-Refuses : (method : ℕ) → Refuses (validate_zip_method method)
unfolding validate_zip_method
validate_zip_method-Refuses method = Refuses-test _ _ refl

pub validate_zip_flags-Refuses : (flags method : ℕ) → Refuses (validate_zip_flags flags method)
unfolding validate_zip_flags
validate_zip_flags-Refuses flags method = Refuses-raise_if _ _ _ refl λ _. Refuses-test _ _ refl
