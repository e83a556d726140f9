-- ===== src/Ipa/Shape/Members.antt =====
-- The members that `_check_archive_shape` of src/ios_rehydrate/ipa.py returns.
use ios_rehydrate.Prelude.{
  ℕ, ◌+◌, ◌≤◌, ◌≡◌, refl, ap, ◌∙◌, List, [], ◌∷◌, arith, ltb, ltb-false, length, ◌!=◌, !=-false,
}
use ios_rehydrate.Prelude.Bytes.{Text, codes}
use ios_rehydrate.Prelude.Texts.{ends_with}
use ios_rehydrate.Errors.{done, Ensures, Ensures-done, Ensures-raise_if, Ensures-bind}
use mathlib.Core.Path.{subst}
use ios_rehydrate.Ipa.Struct.{max_expanded_bytes}
use ios_rehydrate.Ipa.Names.{validate_member_name}
use ios_rehydrate.Ipa.Entry.{RawZipEntry, Codecs, decode_name}
use ios_rehydrate.Ipa.Shape.{
  ZipInfo, Role, Shape, add_role, canonical_name_of, validate_member_type, check_member,
  check_members, no_members, check_archive_shape,
}
use ios_rehydrate.Ipa.Shape.Paths.{IsConsistent, IsTree, add_role-IsConsistent, IsConsistent-IsTree}

abbrev pub expanded_sum : List ZipInfo → ℕ
expanded_sum [] = 0
expanded_sum (info ∷ infos) = info.file_size + expanded_sum infos

-- The members in the order of the list, in front of others: the latest first
abbrev pub onto : List ZipInfo → List ZipInfo → List ZipInfo
onto [] members = members
onto (info ∷ infos) members = onto infos (info ∷ members)

module _ (codecs : Codecs) (unicode : Text → Text) where
  -- The role of each member, from its name alone
  abbrev pub roles_of : List ZipInfo → List Role
  roles_of [] = []
  roles_of (info ∷ infos) =
      (canonical_name_of codecs unicode info.filename, ends_with info.filename (codes "/"))
      ∷ roles_of infos

  -- What the loop keeps up
  record IsSound (shape : Shape) : Type 0 where
    consistent : IsConsistent shape.roles
    roles_lem : shape.roles.explicit_directories ≡ roles_of shape.members
    sum_lem : shape.expanded_size ≡ expanded_sum shape.members
    bound : shape.expanded_size ≤ max_expanded_bytes

  check_member-IsSound :
      (info : ZipInfo) (raw_entry : RawZipEntry) (shape : Shape)
      → IsSound shape
      → Ensures
          (λ result. IsSound result × (result.members ≡ info ∷ shape.members))
          (check_member codecs unicode info raw_entry shape)
  unfolding check_member
  check_member-IsSound info raw_entry shape sound =
      Ensures-bind (decode_name codecs raw_entry.flags raw_entry.raw_name) _ λ decoded_name _.
        Ensures-raise_if _ _ _ λ _. Ensures-bind (validate_member_name info.orig_filename) _ λ _ _.
          Ensures-raise_if _ _ _ λ _. Ensures-raise_if _ _ _ λ _.
            Ensures-bind
              (add_role (canonical_name_of codecs unicode info.filename)
                (ends_with info.filename (codes "/")) shape.roles)
              _
              λ roles hroles.
                let (consistent, added) =
                  (add_role-IsConsistent _ _ shape.roles sound.consistent).at roles hroles in
                Ensures-bind (validate_member_type info) _ λ _ _.
                  Ensures-raise_if (ltb max_expanded_bytes (shape.expanded_size + info.file_size)) _
                    _
                    λ small. Ensures-raise_if _ _ _ λ _. Ensures-done _ (
                      record {
                        consistent = consistent;
                        roles_lem =
                            added
                            ∙ ap
                                (λ (rs : List Role).
                                  (
                                    canonical_name_of codecs unicode info.filename,
                                    ends_with info.filename (codes "/"),
                                  )
                                  ∷ rs)
                                sound.roles_lem;
                        sum_lem = omega (arith, sound.sum_lem);
                        bound = ltb-false _ _ small;
                      },
                      refl,
                    )

  check_members-IsSound :
      (infos : List ZipInfo) (raw_entries : List RawZipEntry) (shape : Shape)
      → IsSound shape
      → length infos ≡ length raw_entries
      → Ensures
          (λ result. IsSound result × (result.members ≡ onto infos shape.members))
          (check_members codecs unicode infos raw_entries shape)
  unfolding check_members
  check_members-IsSound [] raw_entries shape sound h = Ensures-done shape (sound, refl)
  check_members-IsSound (info ∷ infos) [] shape sound h = absurd (omega arith)
  check_members-IsSound (info ∷ infos) (raw_entry ∷ raw_entries) shape sound h =
      Ensures-bind (check_member codecs unicode info raw_entry shape) _ λ next hnext.
        let (kept, members_lem) = (check_member-IsSound info raw_entry shape sound).at next hnext in
        record {
          at = λ result hresult.
              let (further, all_lem) =
                (check_members-IsSound infos raw_entries next kept (omega arith)).at result
                  hresult in
              (further, all_lem ∙ ap (onto infos) members_lem);
        }

  -- If check_archive_shape accepts an archive, its members are all that zipfile lists, they have
  -- distinct canonical names, the path of none runs through another that is a file, and their
  -- expanded sizes sum to 8 GiB at most.
  pub check_archive_shape-IsTree :
      (infos : List ZipInfo) (raw_entries : List RawZipEntry) (shape : Shape)
      → check_archive_shape codecs unicode infos raw_entries ≡ done shape
      → (shape.members ≡ onto infos [])
        × IsTree (roles_of shape.members)
        × (expanded_sum shape.members ≤ max_expanded_bytes)
  unfolding check_archive_shape
  check_archive_shape-IsTree infos raw_entries = Ensures.at (
      Ensures-raise_if _ _ _ λ _. Ensures-raise_if (length infos != length raw_entries) _ _ λ same.
        Ensures-bind (check_members codecs unicode infos raw_entries (no_members codecs unicode)) _
          λ shape checked.
            let (sound, all_lem) =
              (check_members-IsSound infos raw_entries (no_members codecs unicode) empty
                  (!=-false _ _ same)).at
                shape checked in
            Ensures-raise_if _ _ _ λ _. Ensures-done shape (
              all_lem,
              subst IsTree sound.roles_lem (IsConsistent-IsTree shape.roles sound.consistent),
              omega (arith, sound.sum_lem, sound.bound),
            ))
    where
      empty : IsSound (no_members codecs unicode)
      empty = record {
        consistent = record { names_lem = refl; distinct = tt; clear = tt; covered = tt };
        roles_lem = refl;
        sum_lem = refl;
        bound = omega arith;
      }
