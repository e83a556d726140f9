-- ===== src/Manifest/Keybag/Classes.antt =====
-- The classes of the keybag of src/ios_rehydrate/manifest.py.
use ios_rehydrate.Prelude.{
  ℕ, ◌+◌, ◌*◌, ◌%◌, ◌/◌, ◌≤◌, ◌≡◌, ◌≢◌, refl, true, false, ◌&&◌, ◌||◌, List, [], ◌∷◌, arith, length,
  is_nil, All, ltb, ◌==◌, ◌!=◌, or-false, Bool-cases, inl, inr, Option, some,
}
use ios_rehydrate.Prelude.Bytes.{Bytes, slice, little, elem, codes}
use ios_rehydrate.Prelude.Values.{Value, Fields, bytes, dict, get}
use ios_rehydrate.Errors.{
  done, Ensures, Ensures-done, Ensures-raise, Ensures-raise_if, Ensures-bind, raise_if-passes,
}
use ios_rehydrate.Manifest.Version.{ProductVersion, parse_product_version}
use ios_rehydrate.Manifest.Keybag.{
  Elements, max_keybag_class_id, max_keybag_classes, number_in, keybag_integer, class_ids_from,
  validate_keybag_structure, parted, validate_root, parse_keybag_tlv, validate_key_values,
  key_values, validate_manifest_key_material,
}

-- A class id is from 1 to 32.
abbrev pub IsClassId : ℕ → Type 0
IsClassId n = (1 ≤ n) × (n ≤ max_keybag_class_id)

abbrev pub AllDistinct : List ℕ → Type 0
AllDistinct [] = Unit
AllDistinct (n ∷ rest) = All (λ m. n ≢ m) rest × AllDistinct rest

pub record IsIdSet (class_ids : List ℕ) : Type 0 where
  pub each : All IsClassId class_ids
  pub distinct : AllDistinct class_ids

number_in-false : (n : ℕ) (ids : List ℕ) → number_in n ids ≡ false → All (λ m. n ≢ m) ids
number_in-false n [] h = tt
number_in-false n (m ∷ ids) h =
    let (here, later) = or-false (n == m) (number_in n ids) h in
    ((λ e. ground arith), number_in-false n ids later)

number_in-true : (n : ℕ) (ids : List ℕ) → number_in n ids ≡ true → All IsClassId ids → IsClassId n
number_in-true n [] h each = cc
number_in-true n (m ∷ ids) h each = elim (Bool-cases (n == m)) [
  | inl same ↦ let e : n ≡ m = ground arith in rw e each.0
  | inr other ↦ number_in-true n ids (ground arith) each.1
]

-- An id is added only if it is in range and new; each takes five elements.
class_ids_from-IsIdSet :
    (elements : Elements) (class_ids : List ℕ) (class_uuids : List Bytes)
    → IsIdSet class_ids
    → Ensures
        (λ ids. IsIdSet ids × (5 * length ids ≡ length elements + 5 * length class_ids))
        (class_ids_from elements class_ids class_uuids)
unfolding class_ids_from
class_ids_from-IsIdSet [] class_ids class_uuids set = Ensures-done class_ids (set, omega arith)
class_ids_from-IsIdSet (e1 ∷ []) class_ids class_uuids set = Ensures-raise _
class_ids_from-IsIdSet (e1 ∷ e2 ∷ []) class_ids class_uuids set = Ensures-raise _
class_ids_from-IsIdSet (e1 ∷ e2 ∷ e3 ∷ []) class_ids class_uuids set = Ensures-raise _
class_ids_from-IsIdSet (e1 ∷ e2 ∷ e3 ∷ e4 ∷ []) class_ids class_uuids set = Ensures-raise _
class_ids_from-IsIdSet ((t1, uuid) ∷ (t2, clas) ∷ (t3, wrap) ∷ (t4, ktyp) ∷ (t5, wpky) ∷ rest)
      class_ids class_uuids set =
    Ensures-raise_if _ _ _ λ _. Ensures-bind (keybag_integer clas) _ λ class_id _.
      Ensures-bind (keybag_integer wrap) _ λ wrapping _.
        Ensures-bind (keybag_integer ktyp) _ λ key_type _.
          Ensures-raise_if
            (length uuid != 16
              || elem uuid class_uuids
              || ltb class_id 1
              || ltb max_keybag_class_id class_id
              || number_in class_id class_ids
              || (wrapping != 2 && wrapping != 3)
              || key_type != 0
              || length wpky != 40)
            _ _
            λ accepted.
              let in_range : IsClassId class_id = ground arith in
              let fresh : number_in class_id class_ids ≡ false = ground arith in
              let larger : IsIdSet (class_id ∷ class_ids) = record {
                each = (in_range, set.each);
                distinct = (number_in-false class_id class_ids fresh, set.distinct);
              } in
              record {
                at = λ ids h.
                    let (further, counted) =
                      (class_ids_from-IsIdSet rest (class_id ∷ class_ids) (uuid ∷ class_uuids)
                          larger).at
                        ids h in
                    (further, omega (arith, counted));
              }

-- The class ids that validate_keybag_structure returns are from 1 to 32 and distinct, and there are
-- from 1 to 32 of them.
pub validate_keybag_structure-IsIdSet :
    (elements : Elements) (product_version : ProductVersion) (class_ids : List ℕ)
    → validate_keybag_structure elements product_version ≡ done class_ids
    → IsIdSet class_ids × (1 ≤ length class_ids) × (length class_ids ≤ max_keybag_classes)
unfolding validate_keybag_structure
validate_keybag_structure-IsIdSet elements product_version = Ensures.at (
    Ensures-bind (parted elements) _ λ parts _.
      Ensures-raise_if (is_nil parts.0 || is_nil parts.1 || length parts.1 % 5 != 0) _ _ λ whole.
        Ensures-raise_if (ltb (length parts.1 / 5) 1 || ltb max_keybag_classes (length parts.1 / 5))
          _ _
          λ few. Ensures-bind (validate_root parts.0 product_version) _ λ _ _. record {
            at = λ ids h.
                let (set, counted) =
                  (class_ids_from-IsIdSet parts.1 [] [] (record { each = tt; distinct = tt })).at
                    ids h in
                (set, ground (arith, counted), ground (arith, counted));
          })

-- What the class of the manifest's own key is
pub record HasKeyClass (manifest_key : Bytes) : Type 0 where
  pub key_length : length manifest_key ≡ 44
  pub key_class : IsClassId (little (slice manifest_key 0 4))

validate_key_values-HasKeyClass :
    (lockdown : Fields) (keybag_data manifest_key : Bytes)
    → Ensures
        (λ _. HasKeyClass manifest_key)
        (validate_key_values lockdown keybag_data manifest_key)
unfolding validate_key_values
validate_key_values-HasKeyClass lockdown keybag_data manifest_key =
    Ensures-bind (parse_product_version _) _ λ product_version _.
      Ensures-bind (parse_keybag_tlv keybag_data) _ λ elements _.
        Ensures-bind (validate_keybag_structure elements product_version) _ λ ids hids.
          Ensures-raise_if (length manifest_key != 44) _ _ λ size. record {
            at = λ u h.
                let known = raise_if-passes _ _ h in
                record {
                  key_length = ground arith;
                  key_class =
                      number_in-true _ ids (ground arith)
                        (validate_keybag_structure-IsIdSet elements product_version ids
                          hids).0.each;
                };
          }

key_values-HasKeyClass :
    (lockdown keybag manifest_key : Option Value)
    → Ensures
        (λ _. (key : Bytes) × (manifest_key ≡ some (bytes key)) × HasKeyClass key)
        (key_values lockdown keybag manifest_key)
key_values-HasKeyClass (some (dict lockdown)) (some (bytes keybag)) (some (bytes key)) = record {
  at = λ u h. (key, refl, (validate_key_values-HasKeyClass lockdown keybag key).at u h);
}
key_values-HasKeyClass _ _ _ = Ensures-raise _

-- If validate_manifest_key_material accepts a manifest, its ManifestKey is bytes of length 44 whose
-- class, its first four bytes, is from 1 to 32.
pub validate_manifest_key_material-HasKeyClass :
    (manifest : Fields)
    → validate_manifest_key_material manifest ≡ done tt
    → (key : Bytes) × (get (codes "ManifestKey") manifest ≡ some (bytes key)) × HasKeyClass key
unfolding validate_manifest_key_material
validate_manifest_key_material-HasKeyClass manifest = (key_values-HasKeyClass _ _ _).at tt
