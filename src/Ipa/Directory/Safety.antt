-- ===== src/Ipa/Directory/Safety.antt =====
-- The search for the directory of src/ios_rehydrate/ipa.py reads nothing out of bounds.
use ios_rehydrate.Prelude.{
  ℕ, ◌+◌, ◌-◌, ◌≤◌, refl, ◌&&◌, ◌||◌, Option, none, some, [], ◌∷◌, arith, length, ltb,
  if◌then◌else◌, ◌!=◌, drop,
}
use ios_rehydrate.Prelude.Bytes.{Bytes}
use ios_rehydrate.Errors.{◌>>=◌}
use ios_rehydrate.Ipa.Struct.{unpack_from, u64}
use ios_rehydrate.Ipa.Refusal.{
  Refuses, Refuses-done, Refuses-raise, Refuses-bind, Refuses-raise_if, unpack_from-Refuses,
}
use ios_rehydrate.Ipa.Directory.{
  eocd_fixed_size, max_eocd_size, end_record_at, eocd_scan, agreed, is_some, find_eocd,
  read_zip64_directory,
}

end_record_at-Refuses :
    (archive rest : Bytes) (offset : ℕ) → Refuses (end_record_at archive rest offset)
unfolding end_record_at unpack_from ◌>>=◌
end_record_at-Refuses archive rest offset = ground arith

eocd_scan-Refuses :
    (archive rest : Bytes) (offset : ℕ) (c : Option ℕ) → Refuses (eocd_scan archive rest offset c)
unfolding eocd_scan
eocd_scan-Refuses archive [] offset c = Refuses-done c
eocd_scan-Refuses archive (b ∷ rest) offset c =
    Refuses-bind (end_record_at archive (b ∷ rest) offset) _
      (end_record_at-Refuses archive (b ∷ rest) offset)
      λ here _.
        Refuses-raise_if (here && is_some c) _ _ refl
          λ _. eocd_scan-Refuses archive rest (offset + 1) (if here then some offset else c)

agreed-Refuses : (candidate last : Option ℕ) → Refuses (agreed candidate last)
agreed-Refuses none last = Refuses-raise _ refl
agreed-Refuses (some c) none = Refuses-raise _ refl
agreed-Refuses (some c) (some l) = ground arith

pub find_eocd-Refuses : (archive : Bytes) → Refuses (find_eocd archive)
unfolding find_eocd
find_eocd-Refuses archive = Refuses-raise_if (ltb (length archive) eocd_fixed_size) _ _ refl λ _.
    Refuses-bind
      (eocd_scan archive (drop (length archive - max_eocd_size) archive)
        (length archive - max_eocd_size) none)
      _ (eocd_scan-Refuses archive _ _ none) λ candidate _. agreed-Refuses candidate _

-- With the end record in the archive, the ZIP64 records before it are read in bounds.
pub read_zip64_directory-Refuses :
    (archive : Bytes) (eocd_offset : ℕ)
    → eocd_offset ≤ length archive
    → Refuses (read_zip64_directory archive eocd_offset)
unfolding read_zip64_directory
read_zip64_directory-Refuses archive eocd_offset h =
    Refuses-raise_if (ltb eocd_offset 20) _ _ refl λ a.
      Refuses-bind (unpack_from 20 archive (eocd_offset - 20)) _
        (unpack_from-Refuses 20 archive _ (ground arith))
        λ locator _. Refuses-raise_if _ _ _ refl λ _. Refuses-raise_if _ _ _ refl λ _.
          Refuses-raise_if (ltb (eocd_offset - 20) 56 || u64 locator 8 != eocd_offset - 20 - 56) _ _
            refl
            λ b. Refuses-raise_if _ _ _ refl λ _.
              Refuses-bind (unpack_from 8 archive (u64 locator 8 + 4)) _
                (unpack_from-Refuses 8 archive _ (ground arith))
                λ payload_size _. Refuses-raise_if _ _ _ refl λ _.
                  Refuses-bind (unpack_from 44 archive (u64 locator 8 + 12)) _
                    (unpack_from-Refuses 44 archive _ (ground arith))
                    λ fields _.
                      Refuses-raise_if _ _ _ refl
                        λ _. Refuses-raise_if _ _ _ refl λ _. Refuses-done _
