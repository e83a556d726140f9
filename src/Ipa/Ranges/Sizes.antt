-- ===== src/Ipa/Ranges/Sizes.antt =====
-- The limits on the sizes that the members of an archive declare, in src/ios_rehydrate/ipa.py.
use ios_rehydrate.Prelude.{
  ℕ, ◌+◌, ◌*◌, ◌≤◌, ◌≡◌, ◌↔◌, refl, false, List, [], ◌∷◌, arith, max, ltb, All, ltb-false,
}
use ios_rehydrate.Errors.{done, ◌>>=◌, raise_if, >>=-done, raise_if-done, raise_if-passes}
use ios_rehydrate.Ipa.Refusal.{Refuses, Refuses-done, Refuses-bind, Refuses-raise_if, Refuses-test}
use ios_rehydrate.Ipa.Struct.{max_expanded_bytes, max_compression_ratio}
use ios_rehydrate.Ipa.Entry.{RawZipEntry}
use ios_rehydrate.Ipa.Ranges.{Totals, add_sizes, declared, validate_declared_sizes}

abbrev pub expanded_sum : List (ℕ × ℕ) → ℕ
expanded_sum [] = 0
expanded_sum ((file_size, compressed_size) ∷ sizes) = file_size + expanded_sum sizes

abbrev pub compressed_sum : List (ℕ × ℕ) → ℕ
compressed_sum [] = 0
compressed_sum ((file_size, compressed_size) ∷ sizes) = compressed_size + compressed_sum sizes

-- What is expanded is at most 200 times what is stored, of which an empty store counts as one byte.
abbrev pub IsModest : ℕ → ℕ → Type 0
IsModest file_size compressed_size = file_size ≤ max_compression_ratio * max compressed_size 1

-- The limits, of the sums and of each member
pub record IsWithinLimits (sizes : List (ℕ × ℕ)) : Type 0 where
  pub total : expanded_sum sizes ≤ max_expanded_bytes
  pub each : All (λ (s : ℕ × ℕ). IsModest s.0 s.1) sizes
  pub aggregate : IsModest (expanded_sum sizes) (compressed_sum sizes)

add_sizes-done :
    (sizes : List (ℕ × ℕ)) (totals result : Totals)
    → totals.expanded_size ≤ max_expanded_bytes
    → add_sizes sizes totals ≡ done result
    → (result.expanded_size ≡ totals.expanded_size + expanded_sum sizes)
      × (result.compressed_size ≡ totals.compressed_size + compressed_sum sizes)
      × (result.expanded_size ≤ max_expanded_bytes)
      × All (λ (s : ℕ × ℕ). IsModest s.0 s.1) sizes
unfolding add_sizes
add_sizes-done [] totals result low h = ground arith
add_sizes-done ((f, c) ∷ sizes) totals result low h =
    let (small, further) =
      raise_if-done (ltb max_expanded_bytes (totals.expanded_size + f)) _ _ h in
    let (modest, rest) = raise_if-done (ltb (max_compression_ratio * max c 1) f) _ _ further in
    let (e, s, b, each) =
      add_sizes-done sizes
        (record {
          expanded_size = totals.expanded_size + f;
          compressed_size = totals.compressed_size + c;
        })
        result (ltb-false _ _ small) rest in
    (omega arith, omega arith, b, (ltb-false _ _ modest, each))

le→ltb_false : (a b : ℕ) → a ≤ b → ltb b a ≡ false
le→ltb_false a b h = ground arith

-- The early tests refuse nothing that the sums would not.
add_sizes_complete :
    (sizes : List (ℕ × ℕ)) (totals : Totals)
    → totals.expanded_size + expanded_sum sizes ≤ max_expanded_bytes
    → All (λ (s : ℕ × ℕ). IsModest s.0 s.1) sizes
    → add_sizes sizes totals
      ≡ done (record {
        expanded_size = totals.expanded_size + expanded_sum sizes;
        compressed_size = totals.compressed_size + compressed_sum sizes;
      })
unfolding add_sizes ◌>>=◌ raise_if
add_sizes_complete [] totals h each = ground arith
add_sizes_complete ((f, c) ∷ sizes) totals h each = ground (
  arith,
  le→ltb_false (totals.expanded_size + f) max_expanded_bytes,
  le→ltb_false f (max_compression_ratio * max c 1) each.0,
  add_sizes_complete sizes
      (record {
        expanded_size = totals.expanded_size + f;
        compressed_size = totals.compressed_size + c;
      })
      (omega arith) each.1,
)

abbrev none_yet : Totals
none_yet = record { expanded_size = 0; compressed_size = 0 }

validate_declared_sizes_sound :
    (entries : List RawZipEntry)
    → validate_declared_sizes entries ≡ done tt
    → IsWithinLimits (declared entries)
unfolding validate_declared_sizes
validate_declared_sizes_sound entries h =
    let (totals, added, tested) = >>=-done (add_sizes (declared entries) none_yet) _ h in
    let (e, s, b, each) = add_sizes-done (declared entries) none_yet totals (omega arith) added in
    let modest = ltb-false _ _ (raise_if-passes _ _ tested) in
    record { total = omega arith; each = each; aggregate = ground arith }

validate_declared_sizes_complete :
    (entries : List RawZipEntry)
    → IsWithinLimits (declared entries)
    → validate_declared_sizes entries ≡ done tt
unfolding validate_declared_sizes ◌>>=◌ raise_if
validate_declared_sizes_complete entries w = ground (
  arith,
  w.aggregate,
  add_sizes_complete (declared entries) none_yet (omega (arith, w.total)) w.each,
)

-- validate_declared_sizes accepts entries exactly if their sizes sum to at most 8 GiB, each expands
-- to at most 200 times what it stores (an empty store counts as one byte), and so do the sums.
pub validate_declared_sizes_iff :
    (entries : List RawZipEntry)
    → (validate_declared_sizes entries ≡ done tt) ↔ IsWithinLimits (declared entries)
validate_declared_sizes_iff entries =
    (validate_declared_sizes_sound entries, validate_declared_sizes_complete entries)

add_sizes-Refuses : (sizes : List (ℕ × ℕ)) (totals : Totals) → Refuses (add_sizes sizes totals)
unfolding add_sizes
add_sizes-Refuses [] totals = Refuses-done totals
add_sizes-Refuses ((f, c) ∷ sizes) totals =
    Refuses-raise_if _ _ _ refl λ _. Refuses-raise_if _ _ _ refl λ _. add_sizes-Refuses sizes _

pub validate_declared_sizes-Refuses :
    (entries : List RawZipEntry) → Refuses (validate_declared_sizes entries)
unfolding validate_declared_sizes
validate_declared_sizes-Refuses entries =
    Refuses-bind _ _ (add_sizes-Refuses (declared entries) none_yet)
      λ totals _. Refuses-test _ _ refl
