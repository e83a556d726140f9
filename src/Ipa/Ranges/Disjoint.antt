-- ===== src/Ipa/Ranges/Disjoint.antt =====
-- The members' records of src/ios_rehydrate/ipa.py do not overlap.
use ios_rehydrate.Prelude.{
  ℕ, ◌≤◌, ◌≡◌, ◌⊎◌, inl, inr, refl, List, [], ◌∷◌, arith, leb, ltb, All, Bool-cases, ltb-false,
}
use ios_rehydrate.Prelude.Bytes.{Bytes}
use ios_rehydrate.Errors.{done, >>=-done, raise_if-done}
use ios_rehydrate.Ipa.Refusal.{Refuses, Refuses-done, Refuses-bind, Refuses-raise_if, Refuses-if}
use ios_rehydrate.Ipa.Struct.{has_flag}
use ios_rehydrate.Ipa.Entry.{RawZipEntry, flag_data_descriptor}
use ios_rehydrate.Ipa.Entry.Safety.{validate_data_descriptor-Refuses}
use ios_rehydrate.Ipa.Ranges.{
  insert_entry, sort_entries, boundary_of, record_end_of, validate_ordered, validate_local_ranges,
}

record_end_of-Refuses :
    (archive : Bytes) (entry : RawZipEntry) (boundary : ℕ)
    → Refuses (record_end_of archive entry boundary)
unfolding record_end_of
record_end_of-Refuses archive entry boundary =
    Refuses-if (has_flag entry.flags flag_data_descriptor) _ _
      (λ _. validate_data_descriptor-Refuses archive entry boundary) (λ _. Refuses-done _)

validate_ordered-Refuses :
    (archive : Bytes) (directory_offset : ℕ) (entries : List RawZipEntry)
    → Refuses (validate_ordered archive directory_offset entries)
unfolding validate_ordered
validate_ordered-Refuses archive directory_offset [] = Refuses-done tt
validate_ordered-Refuses archive directory_offset (entry ∷ entries) =
    Refuses-raise_if _ _ _ refl λ _.
      Refuses-bind _ _ (record_end_of-Refuses archive entry _) λ record_end _.
        Refuses-raise_if _ _ _ refl λ _. validate_ordered-Refuses archive directory_offset entries

pub validate_local_ranges-Refuses :
    (archive : Bytes) (entries : List RawZipEntry) (directory_offset : ℕ)
    → Refuses (validate_local_ranges archive entries directory_offset)
unfolding validate_local_ranges
validate_local_ranges-Refuses archive entries directory_offset =
    validate_ordered-Refuses archive directory_offset (sort_entries entries)

-- The bytes from an entry's local header to the end of its data share none with those of another.
abbrev pub IsApart : RawZipEntry → RawZipEntry → Type 0
IsApart a b = (a.data_end ≤ b.local_header_offset) ⊎ (b.data_end ≤ a.local_header_offset)

IsApart-sym : (a b : RawZipEntry) → IsApart a b → IsApart b a
IsApart-sym a b (inl h) = inr h
IsApart-sym a b (inr h) = inl h

-- Any two entries, at two places of the list
abbrev pub AllApart : List RawZipEntry → Type 0
AllApart [] = Unit
AllApart (e ∷ entries) = All (IsApart e) entries × AllApart entries

-- An entry's header comes before the end of its data.
abbrev pub IsForward : RawZipEntry → Type 0
IsForward e = e.local_header_offset ≤ e.data_end

-- What the loop over the sorted entries has checked.
abbrev IsChain : ℕ → List RawZipEntry → Type 0
IsChain directory_offset [] = Unit
IsChain directory_offset (e ∷ entries) =
    (e.data_end ≤ boundary_of directory_offset entries) × IsChain directory_offset entries

validate_ordered-IsChain :
    (archive : Bytes) (directory_offset : ℕ) (entries : List RawZipEntry)
    → validate_ordered archive directory_offset entries ≡ done tt
    → IsChain directory_offset entries
unfolding validate_ordered
validate_ordered-IsChain archive directory_offset [] h = tt
validate_ordered-IsChain archive directory_offset (e ∷ entries) h =
    let (inside, further) =
      raise_if-done (ltb (boundary_of directory_offset entries) e.data_end) _ _ h in
    let (record_end, _, last) = >>=-done (record_end_of archive e _) _ further in
    let (_, rest) = raise_if-done _ _ _ last in
    (ltb-false _ _ inside, validate_ordered-IsChain archive directory_offset entries rest)

-- What lies before the first header of a chain lies before them all.
IsChain-later :
    (directory_offset bound : ℕ) (entries : List RawZipEntry)
    → bound ≤ boundary_of directory_offset entries
    → IsChain directory_offset entries
    → All IsForward entries
    → All (λ e. bound ≤ e.local_header_offset) entries
IsChain-later directory_offset bound [] h chain forward = tt
IsChain-later directory_offset bound (e ∷ entries) h chain forward = (
  h,
  IsChain-later directory_offset bound entries (omega (arith, forward.0, chain.0)) chain.1
      forward.1,
)

All-inl :
    (e : RawZipEntry) (entries : List RawZipEntry)
    → All (λ b. e.data_end ≤ b.local_header_offset) entries
    → All (IsApart e) entries
All-inl e [] h = tt
All-inl e (b ∷ entries) h = (inl h.0, All-inl e entries h.1)

IsChain-AllApart :
    (directory_offset : ℕ) (entries : List RawZipEntry)
    → IsChain directory_offset entries
    → All IsForward entries
    → AllApart entries
IsChain-AllApart directory_offset [] chain forward = tt
IsChain-AllApart directory_offset (e ∷ entries) chain forward = (
  All-inl e entries (IsChain-later directory_offset e.data_end entries chain.0 chain.1 forward.1),
  IsChain-AllApart directory_offset entries chain.1 forward.1,
)

-- Sorting keeps what holds of every entry and of every two, and loses neither.
module _ (P : RawZipEntry → Type 0) where
  All-insert_entry :
      (e : RawZipEntry) (entries : List RawZipEntry)
      → P e
      → All P entries
      → All P (insert_entry e entries)
  All-insert_entry e [] p h = (p, tt)
  All-insert_entry e (b ∷ entries) p h =
      elim (Bool-cases (leb e.local_header_offset b.local_header_offset)) [
        | inl t ↦ rw t (p, h)
        | inr t ↦ rw t (h.0, All-insert_entry e entries p h.1)
      ]

  All-sort_entries : (entries : List RawZipEntry) → All P entries → All P (sort_entries entries)
  All-sort_entries [] h = tt
  All-sort_entries (e ∷ entries) h =
      All-insert_entry e (sort_entries entries) h.0 (All-sort_entries entries h.1)

  insert_entry-All :
      (e : RawZipEntry) (entries : List RawZipEntry)
      → All P (insert_entry e entries)
      → P e × All P entries
  insert_entry-All e [] h = (h.0, tt)
  insert_entry-All e (b ∷ entries) h =
      elim (Bool-cases (leb e.local_header_offset b.local_header_offset)) [
        | inl t ↦ rw t at h
        | inr t ↦
            let h' : P b × All P (insert_entry e entries) = rw t at h in
            let (p, rest) = insert_entry-All e entries h'.1 in (p, (h'.0, rest))
      ]

  sort_entries-All : (entries : List RawZipEntry) → All P (sort_entries entries) → All P entries
  sort_entries-All [] h = tt
  sort_entries-All (e ∷ entries) h =
      let (p, rest) = insert_entry-All e (sort_entries entries) h in
      (p, sort_entries-All entries rest)

insert_entry-AllApart :
    (e : RawZipEntry) (entries : List RawZipEntry)
    → AllApart (insert_entry e entries)
    → All (IsApart e) entries × AllApart entries
insert_entry-AllApart e [] h = (tt, tt)
insert_entry-AllApart e (b ∷ entries) h =
    elim (Bool-cases (leb e.local_header_offset b.local_header_offset)) [
      | inl t ↦ rw t at h
      | inr t ↦
          let h' : All (IsApart b) (insert_entry e entries) × AllApart (insert_entry e entries) =
            rw t at h in
          let (be, bs) = insert_entry-All (IsApart b) e entries h'.0 in
          let (es, apart) = insert_entry-AllApart e entries h'.1 in
          ((IsApart-sym b e be, es), (bs, apart))
    ]

sort_entries-AllApart :
    (entries : List RawZipEntry) → AllApart (sort_entries entries) → AllApart entries
sort_entries-AllApart [] h = tt
sort_entries-AllApart (e ∷ entries) h =
    let (es, apart) = insert_entry-AllApart e (sort_entries entries) h in
    (sort_entries-All (IsApart e) entries es, sort_entries-AllApart entries apart)

-- If every entry has its header before the end of its data and validate_local_ranges accepts the
-- entries, the ranges from header to end of data of any two of them are disjoint, in whatever order
-- they are listed.
pub validate_local_ranges-AllApart :
    (archive : Bytes) (entries : List RawZipEntry) (directory_offset : ℕ)
    → All IsForward entries
    → validate_local_ranges archive entries directory_offset ≡ done tt
    → AllApart entries
unfolding validate_local_ranges
validate_local_ranges-AllApart archive entries directory_offset forward h =
    sort_entries-AllApart entries (
      IsChain-AllApart directory_offset (sort_entries entries)
        (validate_ordered-IsChain archive directory_offset (sort_entries entries) h)
        (All-sort_entries IsForward entries forward))
