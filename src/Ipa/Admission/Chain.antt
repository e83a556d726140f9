-- ===== src/Ipa/Admission/Chain.antt =====
-- What a payload that `validate_ipa` of src/ios_rehydrate/ipa.py returns has passed.
use mathlib.Core.Path.{subst}
use ios_rehydrate.Prelude.{◌≡◌, Option, List, []}
use ios_rehydrate.Prelude.Bytes.{Bytes, Text}
use ios_rehydrate.Errors.{
  os_error, timeout_error, value_error, runtime_error, bad_zip_file, Result, done, raise, Ensures,
  Ensures-bind,
}
use ios_rehydrate.Ipa.Payload.{ValidatedIpa}
use ios_rehydrate.Ipa.Entry.{RawZipEntry}
use ios_rehydrate.Ipa.Preflight.{preflight_zip}
use ios_rehydrate.Ipa.Preflight.Layout.{IsLaidOut, preflight_zip-IsLaidOut}
use ios_rehydrate.Ipa.Shape.{ZipInfo, check_archive_shape}
use ios_rehydrate.Ipa.Shape.Paths.{IsTree}
use ios_rehydrate.Ipa.Shape.Members.{onto, roles_of, check_archive_shape-IsTree}
use ios_rehydrate.Ipa.Shape.Matching.{AreMatched, check_archive_shape-AreMatched}
use ios_rehydrate.Ipa.Validate.Agreement.{IsAgreed, validate_zip-IsAgreed}
use ios_rehydrate.Ipa.Admission.{Toolbox, admitted, admission, validate_ipa}

module _ (tools : Toolbox) (archive_bytes : Bytes)
    (expected_bundle_id expected_store_id : Option Text) where
  -- The layout of the archive, the names of its members, and the payload
  pub record IsAdmitted (payload : ValidatedIpa) : Type 0 where
    pub entries : List RawZipEntry
    pub accepted : preflight_zip tools.codecs tools.zlib archive_bytes ≡ done entries
    pub layout : IsLaidOut archive_bytes entries
    pub infos : List ZipInfo
    pub opened : tools.open_zip archive_bytes ≡ done infos
    pub matched : AreMatched tools.codecs tools.unicode infos entries
    pub tree : IsTree (roles_of tools.codecs tools.unicode (onto infos []))
    pub agreed :
        IsAgreed tools.contents tools.sha256_bytes
          (onto infos [])
          archive_bytes
          expected_bundle_id
          expected_store_id
          payload

  admission-IsAdmitted :
      Ensures IsAdmitted (admission tools archive_bytes expected_bundle_id expected_store_id)
  unfolding admission
  admission-IsAdmitted =
      Ensures-bind (preflight_zip tools.codecs tools.zlib archive_bytes) _ λ entries laid.
        Ensures-bind (tools.open_zip archive_bytes) _ λ infos opened.
          Ensures-bind (check_archive_shape tools.codecs tools.unicode infos entries) _
            λ shape shaped.
              let (all_lem, tree, _) =
                check_archive_shape-IsTree tools.codecs tools.unicode infos entries shape shaped in
              record {
                at = λ payload h. record {
                  entries = entries;
                  accepted = laid;
                  layout =
                      preflight_zip-IsLaidOut tools.codecs tools.zlib archive_bytes entries laid;
                  infos = infos;
                  opened = opened;
                  matched =
                      (check_archive_shape-AreMatched tools.codecs tools.unicode infos entries).at
                        shape shaped;
                  tree =
                      subst (λ (is : List ZipInfo). IsTree (roles_of tools.codecs tools.unicode is))
                        all_lem tree;
                  agreed =
                      subst
                        (λ (is : List ZipInfo).
                          IsAgreed tools.contents tools.sha256_bytes is archive_bytes
                            expected_bundle_id expected_store_id payload)
                        all_lem
                        (validate_zip-IsAgreed tools.contents tools.sha256_bytes shape.members
                          archive_bytes expected_bundle_id expected_store_id payload h);
                };
              }

  admitted-done :
      (r : Result ValidatedIpa) (payload : ValidatedIpa)
      → admitted r ≡ done payload
      → r ≡ done payload
  admitted-done (done p) payload h = h
  admitted-done (raise os_error) payload h = cc
  admitted-done (raise timeout_error) payload h = cc
  admitted-done (raise runtime_error) payload h = cc
  admitted-done (raise value_error) payload h = cc
  admitted-done (raise bad_zip_file) payload h = cc
  admitted-done (raise _) payload h = cc

  -- A payload that validate_ipa returns comes from bytes that the preflight accepts: the entries
  -- that it reads are laid out apart before the directory; zipfile lists these entries one by one,
  -- with the same names, methods, checksums, sizes and offsets, under distinct canonical names of
  -- which none runs through a file; and the payload agrees with the property lists of these members
  -- and with what was expected.
  pub validate_ipa-IsAdmitted :
      (payload : ValidatedIpa)
      → validate_ipa tools archive_bytes expected_bundle_id expected_store_id ≡ done payload
      → IsAdmitted payload
  validate_ipa-IsAdmitted payload h =
      admission-IsAdmitted.at payload (
        admitted-done (admission tools archive_bytes expected_bundle_id expected_store_id) payload
          h)
