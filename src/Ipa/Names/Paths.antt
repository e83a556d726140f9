-- ===== src/Ipa/Names/Paths.antt =====
-- What a member's path that src/ios_rehydrate/ipa.py accepts looks like.
use mathlib.Core.List.{reverse, reverse-cons, reverse-reverse, append-nil, append_assoc}
use mathlib.Core.Path.{subst}
use ios_rehydrate.Prelude.{
  ℕ, ◌≡◌, ◌≢◌, ◌⊎◌, inl, inr, refl, sym, ap, ◌∙◌, Bool, true, false, not, ◌||◌, List, [], ◌∷◌, ◌++◌,
  arith, All, any, keep, is_nil, or-false, Bool-cases, ◌==◌,
}
use ios_rehydrate.Prelude.Bytes.{Text, codes, eq_text, eq_text_refl, elem}
use ios_rehydrate.Prelude.Texts.{has, starts_with, ends_with, split_from, split}
use ios_rehydrate.Errors.{done, raise_if-done, raise_if-passes}
use ios_rehydrate.Ipa.Names.{
  is_windows_drive, without_last, without_directory_marker, is_dot_segment, posix_parts,
  validate_member_name,
}

abbrev pub slash : ℕ
slash = b'/'

-- The path of a first segment and the others
abbrev pub join_from : Text → List Text → Text
join_from segment [] = segment
join_from segment (next ∷ segments) = segment ++ (slash ∷ join_from next segments)

-- The segments of a text, as the first and the others
abbrev Parts : Type 0
Parts = Text × List Text

split_from-cons :
    (word cs : Text)
    → (parts : Parts) × (split_from slash word cs ≡ parts.0 ∷ parts.1)
      × (join_from parts.0 parts.1 ≡ reverse word ++ cs)
unfolding split_from
split_from-cons word [] = ((reverse word, []), refl, sym (append-nil (reverse word)))
split_from-cons word (c ∷ cs) = elim (Bool-cases (c == slash)) [
  | inl t ↦
      let (parts, e, j) = split_from-cons [] cs in
      let same : slash ≡ c = ground (arith, t) in
      (
        (reverse word, parts.0 ∷ parts.1),
        rw (t, e) refl,
        ap (λ (r : Text). reverse word ++ (slash ∷ r)) j
            ∙ ap (λ (d : ℕ). reverse word ++ (d ∷ cs)) same,
      )
  | inr t ↦
      let (parts, e, j) = split_from-cons (c ∷ word) cs in
      (
        parts,
        rw t e,
        j
            ∙ ap (λ (r : Text). r ++ cs) (reverse-cons c word)
            ∙ append_assoc (reverse word) (c ∷ []) cs,
      )
]

split_from-slash :
    (word cs : Text)
    → split_from slash word (cs ++ (slash ∷ [])) ≡ split_from slash word cs ++ ([] ∷ [])
unfolding split_from
split_from-slash word [] = refl
split_from-slash word (c ∷ cs) = elim (Bool-cases (c == slash)) [
  | inl t ↦ rw t (ap (λ (ps : List Text). reverse word ∷ ps) (split_from-slash [] cs))
  | inr t ↦ rw t (split_from-slash (c ∷ word) cs)
]

without_last-append : (cs : Text) (c : ℕ) → without_last (cs ++ (c ∷ [])) ≡ cs
without_last-append [] c = refl
without_last-append (d ∷ []) c = refl
without_last-append (d ∷ e ∷ cs) c = ap (λ (r : Text). d ∷ r) (without_last-append (e ∷ cs) c)

starts_with-slash : (cs : Text) → starts_with cs (slash ∷ []) ≡ true → (r : Text) × (cs ≡ slash ∷ r)
unfolding starts_with
starts_with-slash [] h = cc
starts_with-slash (c ∷ cs) h =
    let e : c ≡ slash = ground (arith, h) in (cs, ap (λ (d : ℕ). d ∷ cs) e)

-- A text that ends with a slash is what is before it, and the slash.
ends_with-slash :
    (name : Text) → ends_with name (codes "/") ≡ true → without_last name ++ (slash ∷ []) ≡ name
unfolding ends_with
ends_with-slash name h =
    let (r, e) = starts_with-slash (reverse name) h in
    let spelled : reverse r ++ (slash ∷ []) ≡ name =
      sym (reverse-cons slash r) ∙ ap reverse (sym e) ∙ reverse-reverse name in
    let before : without_last name ≡ reverse r =
      ap without_last (sym spelled) ∙ without_last-append (reverse r) slash in
    ap (λ (t : Text). t ++ (slash ∷ [])) before ∙ spelled

abbrev parent : Text
parent = codes ".."

-- A segment that names something: not empty, not the directory itself, not its parent
pub record IsCleanSegment (segment : Text) : Type 0 where
  pub filled : segment ≢ []
  pub not_here : segment ≢ codes "."
  pub not_parent : segment ≢ codes ".."

no_parent :
    (segments : List Text)
    → elem parent (keep (λ segment. not (is_dot_segment segment)) segments) ≡ false
    → All (λ segment. segment ≢ parent) segments
unfolding elem eq_text
no_parent [] h = tt
no_parent (s ∷ segments) h = elim (Bool-cases (not (is_dot_segment s))) [
  | inl t ↦
      let (here, later) = or-false (eq_text parent s) _ (rw t at h) in
      (apart s here, no_parent segments later)
  | inr t ↦ (dropped s t, no_parent segments (rw t at h))
]
  where
    apart : (s : Text) → eq_text parent s ≡ false → s ≢ parent
    apart s here e = absurd (clash (eq_text parent s) here (ap (eq_text parent) e))
      where
        clash : (b : Bool) → b ≡ false → b ≡ true → ⊥
        clash true f t = cc
        clash false f t = cc

    dropped : (s : Text) → not (is_dot_segment s) ≡ false → s ≢ parent
    dropped s t e =
        absurd (clash (not (is_dot_segment s)) t (ap (λ (x : Text). not (is_dot_segment x)) e))
      where
        clash : (b : Bool) → b ≡ false → b ≡ true → ⊥
        clash true f t = cc
        clash false f t = cc

no_dots :
    (segments : List Text)
    → any is_dot_segment segments ≡ false
    → All (λ segment. (segment ≢ []) × (segment ≢ codes ".")) segments
no_dots [] h = tt
no_dots (s ∷ segments) h =
    let (here, later) = or-false (is_dot_segment s) (any is_dot_segment segments) h in
    let (filled, other) = or-false (is_nil s) (eq_text s (codes ".")) here in
    (
      (
        λ e. clash (is_nil s) filled (ap (λ (x : Text). is_nil x) e),
        λ e.
            clash (eq_text s (codes ".")) other
              (ap (λ (x : Text). eq_text x (codes ".")) e ∙ eq_text_refl (codes ".")),
      ),
      no_dots segments later,
    )
  where
    clash : (b : Bool) → b ≡ false → b ≡ true → ⊥
    clash true f t = cc
    clash false f t = cc

All-left : (P : Text → Type 0) (xs ys : List Text) → All P (xs ++ ys) → All P xs
All-left P [] ys h = tt
All-left P (x ∷ xs) ys (p, h) = (p, All-left P xs ys h)

All-clean :
    (segments : List Text)
    → All (λ s. (s ≢ []) × (s ≢ codes ".")) segments
    → All (λ s. s ≢ parent) segments
    → All IsCleanSegment segments
All-clean [] h k = tt
All-clean (s ∷ segments) ((f, n), h) (p, k) =
    (record { filled = f; not_here = n; not_parent = p }, All-clean segments h k)

-- The segments of a path, which it spells, with or without a slash at its end
pub record IsCleanPath (name : Text) : Type 0 where
  pub first : Text
  pub others : List Text
  pub each : All IsCleanSegment (first ∷ others)
  pub spelled : (join_from first others ≡ name) ⊎ (join_from first others ++ (slash ∷ []) ≡ name)
  pub no_nul : has 0 name ≡ false
  pub no_backslash : has 0x5c name ≡ false
  pub no_drive : is_windows_drive name ≡ false

-- A name, and what is before its directory marker
unmarked :
    (name : Text)
    → ((without_directory_marker name ≡ name)
        ⊎ (without_directory_marker name ++ (slash ∷ []) ≡ name))
unfolding without_directory_marker
unmarked name = elim (Bool-cases (ends_with name (codes "/"))) [
  | inl t ↦ rw t (inr (ends_with-slash name t))
  | inr t ↦ rw t (inl refl)
]

-- What holds of all segments of a name holds of those before the marker.
unmarked-All :
    (P : Text → Type 0) (name : Text)
    → All P (split slash name)
    → All P (split slash (without_directory_marker name))
unfolding split
unmarked-All P name h = elim (unmarked name) [
  | inl e ↦ rw e h
  | inr e ↦
      let apart : All P (split_from slash [] (without_directory_marker name) ++ ([] ∷ [])) =
        subst (All P)
          (ap (split_from slash []) (sym e) ∙ split_from-slash [] (without_directory_marker name))
          h in
      All-left P _ _ apart
]

split-parts :
    (cs : Text)
    → (parts : Parts) × (split slash cs ≡ parts.0 ∷ parts.1) × (join_from parts.0 parts.1 ≡ cs)
unfolding split
split-parts cs = split_from-cons [] cs

-- A name that validate_member_name accepts spells one or more segments, none of them empty, a single
-- dot or two dots, with slashes between them and perhaps one at the end; it has no NUL, no backslash
-- and no drive.
pub validate_member_name-IsCleanPath :
    (name : Text) → validate_member_name name ≡ done tt → IsCleanPath name
unfolding validate_member_name posix_parts
validate_member_name-IsCleanPath name h =
    let (characters, h1) = raise_if-done (is_nil name || has 0 name || has 0x5c name) _ _ h in
    let (relative, h2) =
      raise_if-done (starts_with name (codes "/") || is_windows_drive name) _ _ h1 in
    let (below, h3) =
      raise_if-done (starts_with name (codes "/") || elem parent (posix_parts name)) _ _ h2 in
    let named =
      raise_if-passes (any is_dot_segment (split slash (without_directory_marker name))) _ h3 in
    let parents =
      unmarked-All (λ segment. segment ≢ parent) name
        (no_parent (split slash name) (or-false (starts_with name (codes "/")) _ below).1) in
    let clean =
      All-clean (split slash (without_directory_marker name))
        (no_dots (split slash (without_directory_marker name)) named) parents in
    let (parts, e, j) = split-parts (without_directory_marker name) in
    record {
      first = parts.0;
      others = parts.1;
      each = subst (All IsCleanSegment) e clean;
      spelled = elim (unmarked name) [
        | inl u ↦ inl (j ∙ u)
        | inr u ↦ inr (ap (λ (t : Text). t ++ (slash ∷ [])) j ∙ u)
      ];
      no_nul = ground (arith, characters);
      no_backslash = ground (arith, characters);
      no_drive = (or-false (starts_with name (codes "/")) _ relative).1;
    }
