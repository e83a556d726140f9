-- ===== src/Ipa/Names.antt =====
-- `_validate_member_name` of src/ios_rehydrate/ipa.py.
pub mod Paths
use ios_rehydrate.Prelude.{
  ⊤, Bool, false, not, ◌&&◌, ◌||◌, List, [], ◌∷◌, any, keep, ◌==◌, is_nil, if◌then◌else◌,
}
use ios_rehydrate.Prelude.Bytes.{Text, codes, eq_text, elem}
use ios_rehydrate.Prelude.Texts.{is_letter, has, starts_with, ends_with, split}
use ios_rehydrate.Errors.{Result, ◌>>◌, raise_if}
use ios_rehydrate.Ipa.Struct.{invalid}

-- `_WINDOWS_DRIVE.match(name)`: `^[A-Za-z]:`
unfoldable pub is_windows_drive : Text → Bool
is_windows_drive (c ∷ d ∷ cs) = is_letter c && d == b':'
is_windows_drive _ = false

-- `name[:-1]`
abbrev pub without_last : Text → Text
without_last [] = []
without_last (c ∷ []) = []
without_last (c ∷ d ∷ cs) = c ∷ without_last (d ∷ cs)

-- `name[:-1] if name.endswith("/") else name`
unfoldable pub without_directory_marker : Text → Text
unfolding ends_with
without_directory_marker name = if ends_with name (codes "/") then without_last name else name

abbrev pub is_dot_segment : Text → Bool
is_dot_segment segment = is_nil segment || eq_text segment (codes ".")

-- `PurePosixPath(name).parts`, but for the root: the segments that are neither empty nor a dot.
unfoldable pub posix_parts : Text → List Text
unfolding split
posix_parts name = keep (λ segment. not (is_dot_segment segment)) (split b'/' name)

unfoldable pub validate_member_name : Text → Result ⊤
unfolding is_windows_drive posix_parts without_directory_marker split
validate_member_name name = do
  raise_if (is_nil name || has 0 name || has 0x5c name) (invalid "IPA_MEMBER_PATH_INVALID")
  raise_if (starts_with name (codes "/") || is_windows_drive name)
      (invalid "IPA_MEMBER_PATH_ABSOLUTE")
  -- `path.is_absolute()` tests once more what the line above has refused.
  raise_if (starts_with name (codes "/") || elem (codes "..") (posix_parts name))
      (invalid "IPA_MEMBER_PATH_TRAVERSAL")
  raise_if (any is_dot_segment (split b'/' (without_directory_marker name)))
      (invalid "IPA_MEMBER_PATH_INVALID")
