-- ===== src/Ipa/Directory/Eocd.antt =====
-- The end record that `_find_eocd` of src/ios_rehydrate/ipa.py selects.
use native.Mathlib.Decide.{dec_le}
use ios_rehydrate.Prelude.{
  ℕ, zero, suc, ◌+◌, ◌-◌, ◌≤◌, ◌<◌, ◌≡◌, ◌⊎◌, refl, ap, ◌∙◌, Bool, true, false, ◌&&◌, Option, none,
  some, List, [], ◌∷◌, arith, length, drop, ltb, if◌then◌else◌, Option-cases, inl, inr,
}
use ios_rehydrate.Prelude.Bytes.{Bytes, slice, little}
use ios_rehydrate.Prelude.Texts.{starts_with}
use ios_rehydrate.Errors.{done, ◌>>=◌, >>=-done, raise_if-done, done-injective}
use ios_rehydrate.Ipa.Struct.{unpack_from}
use ios_rehydrate.Ipa.Directory.{
  eocd_signature, eocd_fixed_size, max_eocd_size, end_record_at, eocd_scan, rfind, agreed, is_some,
  find_eocd,
}

-- The bytes from an offset on begin with the end record's signature.
abbrev pub HasSignature : Bytes → ℕ → Type 0
HasSignature archive offset = starts_with (drop offset archive) eocd_signature ≡ true

-- An end record stands at the offset, in full, and its comment ends the archive.
pub record IsEndRecord (archive : Bytes) (offset : ℕ) : Type 0 where
  pub signature : HasSignature archive offset
  pub fits : offset + eocd_fixed_size ≤ length archive
  pub ends :
      offset + eocd_fixed_size + little (slice archive (offset + 20) (offset + 20 + 2))
      ≡ length archive

drop-suc :
    {A : Type 0} (n : ℕ) (xs : List A) {b : A} {rest : List A}
    → drop n xs ≡ b ∷ rest
    → drop (suc n) xs ≡ rest
drop-suc zero [] h = cc
drop-suc zero (x ∷ xs) h = cc
drop-suc (suc n) [] h = cc
drop-suc (suc n) (x ∷ xs) h = drop-suc n xs h

drop-add_one :
    {A : Type 0} (n : ℕ) (xs : List A) {b : A} {rest : List A}
    → drop n xs ≡ b ∷ rest
    → drop (n + 1) xs ≡ rest
drop-add_one n xs h = let e : n + 1 ≡ suc n = omega arith in rw e (drop-suc n xs h)

drop-past : {A : Type 0} (n j : ℕ) (xs : List A) → drop n xs ≡ [] → n ≤ j → drop j xs ≡ []
drop-past zero zero xs h le = h
drop-past zero (suc j) [] h le = refl
drop-past zero (suc j) (x ∷ xs) h le = cc
drop-past (suc n) zero xs h le = absurd (omega arith)
drop-past (suc n) (suc j) [] h le = refl
drop-past (suc n) (suc j) (x ∷ xs) h le = drop-past n j xs h (omega arith)

module _ (archive : Bytes) where
  -- No signature from an offset on.
  abbrev NoneFrom : ℕ → Type 0
  NoneFrom offset = (j : ℕ) → offset ≤ j → starts_with (drop j archive) eocd_signature ≡ false

  NoneFrom-end : (offset : ℕ) → drop offset archive ≡ [] → NoneFrom offset
  unfolding starts_with
  NoneFrom-end offset at j le = rw (drop-past offset j archive at le)

  NoneFrom-step :
      (offset : ℕ)
      → starts_with (drop offset archive) eocd_signature ≡ false
      → NoneFrom (offset + 1)
      → NoneFrom offset
  NoneFrom-step offset here later j le = elim (dec_le (offset + 1) j) [
    | yes beyond ↦ later j beyond
    | no same ↦ let e : j ≡ offset = omega arith in rw e here
  ]

  rfind-none :
      (rest : Bytes) (offset : ℕ)
      → drop offset archive ≡ rest
      → rfind eocd_signature rest offset ≡ none
      → NoneFrom offset
  unfolding rfind
  rfind-none [] offset at h = NoneFrom-end offset at
  rfind-none (b ∷ rest) offset at h = elim (Option-cases (rfind eocd_signature rest (offset + 1))) [
    | inl e ↦
        NoneFrom-step offset (rw at (ground arith))
          (rfind-none rest (offset + 1) (drop-add_one offset archive at) e)
    | inr (later, e) ↦ ground arith
  ]

  -- The last signature of the suffix: no signature comes behind it.
  rfind-last :
      (rest : Bytes) (offset last : ℕ)
      → drop offset archive ≡ rest
      → rfind eocd_signature rest offset ≡ some last
      → NoneFrom (last + 1)
  unfolding rfind
  rfind-last [] offset last at h = cc
  rfind-last (b ∷ rest) offset last at h =
      elim (Option-cases (rfind eocd_signature rest (offset + 1))) [
        | inl e ↦
            let same : last ≡ offset = ground arith in
            rw same (rfind-none rest (offset + 1) (drop-add_one offset archive at) e)
        | inr (later, e) ↦
            rfind-last rest (offset + 1) last (drop-add_one offset archive at) (ground arith)
      ]

  end_record_at_sound :
      (rest : Bytes) (offset : ℕ)
      → drop offset archive ≡ rest
      → end_record_at archive rest offset ≡ done true
      → IsEndRecord archive offset
  unfolding end_record_at unpack_from ◌>>=◌
  end_record_at_sound rest offset at h = record {
    signature = rw at (ground arith);
    fits = ground arith;
    ends = ground arith;
  }

  -- The end record test says what it should, also where it says no.
  end_record_at_complete :
      (offset : ℕ)
      → end_record_at archive (drop offset archive) offset ≡ done false
      → IsEndRecord archive offset
      → ⊥
  unfolding end_record_at unpack_from ◌>>=◌
  end_record_at_complete offset h r = ground (arith, r.signature, r.fits, r.ends)

  -- No end record from an offset on.
  abbrev Quiet : ℕ → Type 0
  Quiet offset = (j : ℕ) → offset ≤ j → IsEndRecord archive j → ⊥

  Quiet-end : (offset : ℕ) → drop offset archive ≡ [] → Quiet offset
  unfolding starts_with
  Quiet-end offset at j le r = absurd (ground (arith, r.signature, NoneFrom-end offset at j le))

  Quiet-step : (offset : ℕ) → (IsEndRecord archive offset → ⊥) → Quiet (offset + 1) → Quiet offset
  Quiet-step offset here later j le r = elim (dec_le (offset + 1) j) [
    | yes beyond ↦ later j beyond r
    | no same ↦ let e : j ≡ offset = omega arith in here (rw e at r)
  ]

  -- What the scan of a suffix has found, from the candidate that it began with.
  abbrev Scanned : ℕ → Option ℕ → Option ℕ → Type 0
  Scanned offset c none = (c ≡ none) × Quiet offset
  Scanned offset c (some i) =
      ((c ≡ some i) × Quiet offset)
      ⊎ ((c ≡ none)
          × (offset ≤ i)
          × IsEndRecord archive i
          × ((j : ℕ) → offset ≤ j → IsEndRecord archive j → j ≡ i))

  -- One step of the scan, by the test at the offset.
  Scanned-step :
      (offset : ℕ) (here : Bool) (c : Option ℕ) (found : Option ℕ)
      → (here ≡ true → IsEndRecord archive offset)
      → (here ≡ false → IsEndRecord archive offset → ⊥)
      → (here && is_some c) ≡ false
      → Scanned (offset + 1) (if here then some offset else c) found
      → Scanned offset c found
  Scanned-step offset true none none sound complete alone s = cc
  Scanned-step offset true none (some i) sound complete alone (inl (e, quiet)) =
      let e' : offset ≡ i = cc in
      inr (
        refl,
        omega arith,
        rw e' at (sound refl),
        λ j le r. elim (dec_le (offset + 1) j) [
          | yes beyond ↦ absurd (quiet j beyond r)
          | no same ↦ omega arith
        ],
      )
  Scanned-step offset true none (some i) sound complete alone (inr (e, le, r, sole)) = cc
  Scanned-step offset true (some k) found sound complete alone s = cc
  Scanned-step offset false c none sound complete alone (e, quiet) =
      (e, Quiet-step offset (complete refl) quiet)
  Scanned-step offset false c (some i) sound complete alone (inl (e, quiet)) =
      inl (e, Quiet-step offset (complete refl) quiet)
  Scanned-step offset false c (some i) sound complete alone (inr (e, le, r, sole)) = inr (
    e,
    omega arith,
    r,
    λ j jle jr. elim (dec_le (offset + 1) j) [
      | yes beyond ↦ sole j beyond jr
      | no same ↦ let k : j ≡ offset = omega arith in absurd (complete refl (rw k at jr))
    ],
  )

  eocd_scan-Scanned :
      (rest : Bytes) (offset : ℕ) (c found : Option ℕ)
      → drop offset archive ≡ rest
      → eocd_scan archive rest offset c ≡ done found
      → Scanned offset c found
  unfolding eocd_scan
  eocd_scan-Scanned [] offset c found at h = ended c found (done-injective h)
    where
      ended : (c found : Option ℕ) → c ≡ found → Scanned offset c found
      ended c none e = (e, Quiet-end offset at)
      ended c (some i) e = inl (e, Quiet-end offset at)
  eocd_scan-Scanned (b ∷ rest) offset c found at h =
      let (here, tested, going) = >>=-done (end_record_at archive (b ∷ rest) offset) _ h in
      let (alone, later) = raise_if-done (here && is_some c) _ _ going in
      Scanned-step offset here c found
        (λ e. end_record_at_sound (b ∷ rest) offset at (tested ∙ ap (λ (t : Bool). done t) e))
        (λ e. end_record_at_complete offset (rw at (tested ∙ ap (λ (t : Bool). done t) e))) alone
        (eocd_scan-Scanned rest (offset + 1) (if here then some offset else c) found
          (drop-add_one offset archive at) later)

  -- The record that both this code and `ZipFile` use: a full end record whose comment ends the archive,
  -- the only one in the window, with no signature behind it.
  pub record IsSelected (offset : ℕ) : Type 0 where
    pub in_window : length archive - max_eocd_size ≤ offset
    pub end_record : IsEndRecord archive offset
    pub sole : (j : ℕ) → length archive - max_eocd_size ≤ j → IsEndRecord archive j → j ≡ offset
    pub last : (j : ℕ) → offset < j → starts_with (drop j archive) eocd_signature ≡ false

  agreed-done :
      (candidate last : Option ℕ) (offset : ℕ)
      → agreed candidate last ≡ done offset
      → (candidate ≡ some offset) × (last ≡ some offset)
  agreed-done none last offset h = cc
  agreed-done (some c) none offset h = cc
  agreed-done (some c) (some l) offset h = ground arith

  -- If find_eocd returns an offset, a complete end record stands there whose comment ends the
  -- archive, it is the only one in the window that CPython searches, and no end signature comes
  -- after it.
  pub find_eocd-IsSelected : (offset : ℕ) → find_eocd archive ≡ done offset → IsSelected offset
  unfolding find_eocd
  find_eocd-IsSelected offset h =
      let (long, scanned) = raise_if-done (ltb (length archive) eocd_fixed_size) _ _ h in
      let (candidate, found, chosen) =
        >>=-done (eocd_scan archive (drop start archive) start none) _ scanned in
      let (is_candidate, is_last) = agreed-done candidate _ offset chosen in
      selected (rw is_candidate at found) is_last
    where
      start : ℕ
      start = length archive - max_eocd_size

      selected :
          eocd_scan archive (drop start archive) start none ≡ done (some offset)
          → rfind eocd_signature (drop start archive) start ≡ some offset
          → IsSelected offset
      selected found is_last = of_scan (eocd_scan-Scanned _ start none (some offset) refl found)
        where
          of_scan : Scanned start none (some offset) → IsSelected offset
          of_scan (inl (e, quiet)) = cc
          of_scan (inr (e, le, r, sole)) = record {
            in_window = le;
            end_record = r;
            sole = sole;
            last = λ j lt. rfind-last _ start offset refl is_last j (omega arith);
          }
