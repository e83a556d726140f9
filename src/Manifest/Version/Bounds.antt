-- ===== src/Manifest/Version/Bounds.antt =====
-- The numbers of a product version that src/ios_rehydrate/manifest.py accepts.
use ios_rehydrate.Prelude.{
  ℕ, zero, suc, ◌≤◌, ◌≡◌, false, ◌||◌, Option, some, List, [], ◌∷◌, arith, any, get_or, ltb,
  ltb-false, or-false,
}
use ios_rehydrate.Prelude.Bytes.{Text}
use ios_rehydrate.Prelude.Values.{Value, text}
use ios_rehydrate.Errors.{done, Ensures, Ensures-done, Ensures-raise, Ensures-raise_if}
use ios_rehydrate.Manifest.Version.{
  ProductVersion, max_product_version_major, max_product_version_component, exceeds_component,
  version_of, parse_product_text, parse_product_version,
}

pub record IsVersion (version : ProductVersion) : Type 0 where
  pub major_pos : 1 ≤ version.major
  pub major_bound : version.major ≤ max_product_version_major
  pub minor_bound : version.minor ≤ max_product_version_component
  pub patch_bound : version.patch ≤ max_product_version_component

get_or-bound :
    (ns : List ℕ) (i : ℕ)
    → any exceeds_component ns ≡ false
    → get_or ns i 0 ≤ max_product_version_component
get_or-bound [] i h = omega arith
get_or-bound (n ∷ ns) zero h = ltb-false _ _ (or-false (exceeds_component n) _ h).0
get_or-bound (n ∷ ns) (suc i) h = get_or-bound ns i (or-false (exceeds_component n) _ h).1

version_of-IsVersion : (ns : List ℕ) → Ensures IsVersion (version_of ns)
unfolding version_of
version_of-IsVersion [] = Ensures-raise _
version_of-IsVersion (major ∷ rest) =
    Ensures-raise_if
      (ltb major 1 || ltb max_product_version_major major || any exceeds_component rest) _ _
      λ good.
        let small : any exceeds_component rest ≡ false = ground (arith, good) in
        Ensures-done _ (record {
          major_pos = ground (arith, good);
          major_bound = ground (arith, good);
          minor_bound = get_or-bound rest 0 small;
          patch_bound = get_or-bound rest 1 small;
        })

parse_product_text-IsVersion : (value : Text) → Ensures IsVersion (parse_product_text value)
unfolding parse_product_text
parse_product_text-IsVersion value =
    Ensures-raise_if _ _ _
      λ _. Ensures-raise_if _ _ _ λ _. Ensures-raise_if _ _ _ λ _. version_of-IsVersion _

-- A version that parse_product_version returns has a major number from 1 to 99, and a minor and a
-- patch number of at most 999, the patch also where the text has none.
pub parse_product_version-IsVersion :
    (value : Option Value) (version : ProductVersion)
    → parse_product_version value ≡ done version
    → IsVersion version
parse_product_version-IsVersion (some (text value)) version h =
    (parse_product_text-IsVersion value).at version h
parse_product_version-IsVersion _ version h = cc
