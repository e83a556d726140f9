-- ===== src/Prelude/Texts.antt =====
-- Python's `str` methods and the character classes of the patterns that the code matches.
use Prim.Native.Nat.{ℕ, ◌+◌, ◌-◌, ◌*◌}
use mathlib.Core.Bool.{Bool, true, false, ◌&&◌, ◌||◌}
use mathlib.Core.List.{List, [], ◌∷◌, reverse}
use ios_rehydrate.Prelude.Tests.{◌==◌, leb, if◌then◌else◌}
use ios_rehydrate.Prelude.Lists.{any}
use ios_rehydrate.Prelude.Bytes.{Text}

abbrev pub in_range : ℕ → ℕ → ℕ → Bool
in_range low high c = leb low c && leb c high

-- `[0-9]`
abbrev pub is_digit : ℕ → Bool
is_digit = in_range b'0' b'9'

-- `[A-Za-z]`
abbrev pub is_letter : ℕ → Bool
is_letter c = in_range b'A' b'Z' c || in_range b'a' b'z' c

-- `[0-9A-Za-z]`
abbrev pub is_alphanumeric : ℕ → Bool
is_alphanumeric c = is_digit c || is_letter c

-- `str.isspace` of one character: what `str.strip` with no argument removes.
unfoldable pub is_space : ℕ → Bool
is_space c =
    in_range 9 13 c
    || in_range 28 32 c
    || c == 0x85
    || c == 0xa0
    || c == 0x1680
    || in_range 0x2000 0x200a c
    || c == 0x2028
    || c == 0x2029
    || c == 0x202f
    || c == 0x205f
    || c == 0x3000

-- `str.lstrip()`
unfoldable pub lstrip : Text → Text
lstrip [] = []
lstrip (c ∷ cs) = if is_space c then lstrip cs else c ∷ cs

-- `str.strip()`
unfoldable pub strip : Text → Text
unfolding lstrip is_space
strip cs = reverse (lstrip (reverse (lstrip cs)))

-- `str.startswith`
unfoldable pub starts_with : Text → Text → Bool
starts_with cs [] = true
starts_with [] (p ∷ ps) = false
starts_with (c ∷ cs) (p ∷ ps) = c == p && starts_with cs ps

-- `str.endswith`
unfoldable pub ends_with : Text → Text → Bool
unfolding starts_with
ends_with cs ps = starts_with (reverse cs) (reverse ps)

-- `c in cs`, of one character
abbrev pub has : ℕ → Text → Bool
has c = any (λ d. c == d)

-- `str.split(separator)`: `word` is what has been read of the current part, reversed.
unfoldable pub split_from : ℕ → Text → Text → List Text
split_from separator word [] = reverse word ∷ []
split_from separator word (c ∷ cs) =
    let next = split_from separator [] cs in
    let more = split_from separator (c ∷ word) cs in
    if c == separator then reverse word ∷ next else more

unfoldable pub split : ℕ → Text → List Text
unfolding split_from
split separator = split_from separator []

-- The value of a text of decimal digits, `int(text)`.
abbrev pub decimal_from : ℕ → Text → ℕ
decimal_from acc [] = acc
decimal_from acc (c ∷ cs) = decimal_from (acc * 10 + (c - b'0')) cs
